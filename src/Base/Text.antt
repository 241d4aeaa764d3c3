-- ===== src/Base/Text.antt =====
-- `std::string` and `char *` as lists of bytes: comparison, search, and decimal numbers.
mod Order
mod Decimal
mod Search
pub mod Laws
unfoldable pub use Order.*
unfoldable pub use Decimal.*
unfoldable pub use Search.*
use Prim.Native.Nat.{ℕ}
use Prim.Native.Char.{code}
use Prim.Native.String.{String}
use mathlib.Core.List.{List, [], ◌∷◌}

abbrev pub Text : Type 0
Text = List ℕ

-- The bytes of an ASCII literal.
abbrev pub codes : String → List ℕ
codes String.[] = []
codes (String.◌∷◌ c s) = code c ∷ codes s
