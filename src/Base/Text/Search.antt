-- ===== src/Base/Text/Search.antt =====
-- The functions of <string> and <cstring> that the program calls: searching, cutting and reading
-- numbers.
use Prim.Native.Nat.{ℕ, ◌+◌, ◌-◌, ◌*◌, ◌%◌, ◌^◌}
use mathlib.Core.Bool.{Bool, true, false, ◌&&◌, ◌||◌}
use mathlib.Core.Option.{Option, none, some}
use mathlib.Core.List.{List, [], ◌∷◌}
use ironhide.Base.Tests.{leb, ltb, ◌==◌, if◌then◌else◌}
use ironhide.Base.Lists.{length, take, drop}
use ironhide.Base.Result.{Result, ok, err, out_of_range, invalid_argument}

-- std::string::npos, the largest size_t
abbrev pub npos : ℕ
npos = 2 ^ 64 - 1

unfoldable pub find_from : ℕ → ℕ → List ℕ → ℕ
find_from i c [] = npos
find_from i c (x ∷ t) = let later = find_from (i + 1) c t in if x == c then i else later

-- find_first_of with a set of one byte
unfoldable pub find_first_of : List ℕ → ℕ → ℕ
unfolding find_from
find_first_of s c = find_from 0 c s

-- substr(pos, count)
unfoldable pub substr : List ℕ → ℕ → ℕ → Result (List ℕ)
substr s pos count = if ltb (length s) pos then err out_of_range else ok (take count (drop pos s))

-- The bytes before the first NUL: what a callee reads through c_str().
unfoldable pub c_str : List ℕ → List ℕ
c_str [] = []
c_str (x ∷ t) = if x == 0 then [] else x ∷ c_str t

abbrev pub is_digit : ℕ → Bool
is_digit c = leb 48 c && leb c 57

abbrev pub is_space : ℕ → Bool
is_space c = c == 32 || leb 9 c && leb c 13

unfoldable pub read_digits : ℕ → List ℕ → ℕ
read_digits acc [] = acc
read_digits acc (c ∷ t) =
    let more = read_digits (acc * 10 + (c - 48)) t in if is_digit c then more else acc

skip_space : List ℕ → List ℕ
skip_space [] = []
skip_space (c ∷ t) = if is_space c then skip_space t else c ∷ t

-- A sign, if there is one, and the number that follows: `none` if no digit does.
unsigned_number : Bool → List ℕ → Option (Bool × ℕ)
unsigned_number minus [] = none
unsigned_number minus (c ∷ t) = if is_digit c then some (minus, read_digits 0 (c ∷ t)) else none

signed_number : List ℕ → Option (Bool × ℕ)
unfolding unsigned_number
signed_number [] = none
signed_number (c ∷ t) =
    if c == b'-'
    then unsigned_number true t
    else if c == b'+'
    then unsigned_number false t
    else unsigned_number false (c ∷ t)

in_range : ℕ → ℕ → ℕ → Option (Bool × ℕ) → Result ℕ
in_range below above modulus none = err invalid_argument
in_range below above modulus (some (true, n)) =
    if ltb below n then err out_of_range else ok ((modulus - n) % modulus)
in_range below above modulus (some (false, n)) = if ltb above n then err out_of_range else ok n

-- std::stoul(s): blanks, a sign, decimal digits; what follows them is not read.
unfoldable pub stoul : List ℕ → Result ℕ
unfolding in_range signed_number skip_space read_digits
stoul s = in_range npos npos (2 ^ 64) (signed_number (skip_space s))

-- std::stoi(s): the bit pattern of the int.
unfoldable pub stoi : List ℕ → Result ℕ
unfolding in_range signed_number skip_space read_digits
stoi s = in_range (2 ^ 31) (2 ^ 31 - 1) (2 ^ 32) (signed_number (skip_space s))
