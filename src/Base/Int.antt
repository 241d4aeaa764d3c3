-- ===== src/Base/Int.antt =====
-- The `int` of file descriptors, and how std::to_string prints it.
use Prim.Native.Nat.{ℕ, ◌+◌}
use mathlib.Core.List.{List, ◌∷◌}
use ironhide.Base.Text.{to_string}

-- `negsuc n` is -(n + 1).
pub data ℤ : Type 0 where
  pos : ℕ → ℤ
  negsuc : ℕ → ℤ

unfoldable pub int_to_string : ℤ → List ℕ
int_to_string (pos n) = to_string n
int_to_string (negsuc n) = b'-' ∷ to_string (n + 1)
