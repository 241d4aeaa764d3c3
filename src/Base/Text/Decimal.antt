-- ===== src/Base/Text/Decimal.antt =====
-- `std::to_string` of an unsigned number, and the digits that `std::stoul` reads.
use Prim.Native.Nat.{ℕ, zero, suc, ◌+◌, ◌/◌, ◌%◌}
use mathlib.Core.List.{List, [], ◌∷◌, ◌++◌}
use ironhide.Base.Tests.{ltb, if◌then◌else◌}

-- At most `fuel` + 1 digits; a number below 2 ^ 64 has twenty.
unfoldable pub decimal : ℕ → ℕ → List ℕ
decimal zero n = (48 + n % 10) ∷ []
decimal (suc fuel) n =
    let more = decimal fuel (n / 10) in
    if ltb n 10 then (48 + n) ∷ [] else more ++ (48 + n % 10) ∷ []

unfoldable pub to_string : ℕ → List ℕ
to_string n = decimal 19 n
