-- ===== src/Base/Text/Laws.antt =====
-- Numbers survive printing and reading, and a byte is found where it stands.
use Prim.Native.Nat.{ℕ, zero, suc, ◌+◌, ◌*◌, ◌/◌, ◌%◌, ◌^◌, ◌≤◌, ◌<◌}
use mathlib.Core.Path.{◌≡◌, refl, sym, ap, ◌∙◌}
use mathlib.Core.Logic.{inl, inr}
use mathlib.Core.Bool.{true, false}
use mathlib.Core.List.{List, [], ◌∷◌, ◌++◌, append_assoc}
use native.Mathlib.Omega.{arith}
use ironhide.Base.Tests.{ltb, ◌==◌, ==_refl, Bool-cases}
use ironhide.Base.Lists.{length, take, drop, All, All-append, length-append}
use ironhide.Base.Result.{ok}
use ironhide.Base.Text.Decimal.{decimal, to_string}
use ironhide.Base.Text.Search.{substr, find_from, find_first_of, is_digit, read_digits, stoul, npos}

limit : ℕ → ℕ
limit zero = 10
limit (suc fuel) = 10 * limit fuel

is_digit_of : (d : ℕ) → d < 10 → is_digit (48 + d) ≡ true
is_digit_of d h = ground arith

read_digit :
    (acc d : ℕ) (rest : List ℕ)
    → d < 10
    → read_digits acc ((48 + d) ∷ rest) ≡ read_digits (acc * 10 + d) rest
unfolding read_digits
read_digit acc d rest h = rw (is_digit_of d h) (ap (λ k. read_digits k rest) (omega arith))

read_digits-decimal :
    (fuel n : ℕ) (rest : List ℕ)
    → n < limit fuel
    → read_digits 0 (decimal fuel n ++ rest) ≡ read_digits n rest
unfolding decimal limit
read_digits-decimal zero n rest h =
    read_digit 0 (n % 10) rest (omega arith) ∙ ap (λ k. read_digits k rest) (omega arith)
read_digits-decimal (suc fuel) n rest h = elim (Bool-cases (ltb n 10)) [
  | inl small ↦
      rw small (read_digit 0 n rest (ground arith) ∙ ap (λ k. read_digits k rest) (omega arith))
  | inr large ↦ rw large (
      rw append_assoc (
        read_digits-decimal fuel (n / 10) ((48 + n % 10) ∷ rest) (omega arith)
        ∙ read_digit (n / 10) (n % 10) rest (omega arith)
        ∙ ap (λ k. read_digits k rest) (omega arith)))
]

-- The first byte of a printed number is a digit.
decimal_head :
    (fuel n : ℕ) → (c : ℕ) × (t : List ℕ) × (decimal fuel n ≡ c ∷ t) × (is_digit c ≡ true)
unfolding decimal
decimal_head zero n = (48 + n % 10, [], refl, is_digit_of (n % 10) (omega arith))
decimal_head (suc fuel) n = elim (Bool-cases (ltb n 10)) [
  | inl small ↦ (48 + n, [], rw small, is_digit_of n (ground arith))
  | inr large ↦
      let ih = decimal_head fuel (n / 10) in
      (ih.0, ih.1 ++ (48 + n % 10) ∷ [], rw large (rw ih.2), ih.3)
]

stoul_digits :
    (c : ℕ) (t : List ℕ)
    → is_digit c ≡ true
    → read_digits 0 (c ∷ t) < 2 ^ 64
    → stoul (c ∷ t) ≡ ok (read_digits 0 (c ∷ t))
unfolding stoul
stoul_digits c t d h = ground arith

read_digits_stop :
    (n : ℕ) (rest : List ℕ) → All (λ c. is_digit c ≡ false) rest → read_digits n rest ≡ n
unfolding read_digits
read_digits_stop n [] stop = refl
read_digits_stop n (c ∷ rest) stop = rw (stop.0)

stoul-decimal :
    (fuel n : ℕ) (rest : List ℕ)
    → n < limit fuel
    → n < 2 ^ 64
    → All (λ c. is_digit c ≡ false) rest
    → stoul (decimal fuel n ++ rest) ≡ ok n
stoul-decimal fuel n rest h small stop =
    let head = decimal_head fuel n in
    let whole : decimal fuel n ++ rest ≡ head.0 ∷ (head.1 ++ rest) = ap (λ t. t ++ rest) head.2 in
    let value : read_digits 0 (head.0 ∷ (head.1 ++ rest)) ≡ n =
      ap (read_digits 0) (sym whole)
      ∙ read_digits-decimal fuel n rest h
      ∙ read_digits_stop n rest stop in
    ap stoul whole
    ∙ stoul_digits head.0 (head.1 ++ rest) head.3 (omega (arith, value))
    ∙ ap ok value

-- A printed number below 2 ^ 64 is read back, also with a byte that is no digit behind it.
pub stoul-to_string :
    (n : ℕ) (rest : List ℕ)
    → n < 2 ^ 64
    → All (λ c. is_digit c ≡ false) rest
    → stoul (to_string n ++ rest) ≡ ok n
unfolding to_string
stoul-to_string n rest h stop = stoul-decimal 19 n rest (unfold limit in omega arith) h stop

-- The position of a byte that does not occur before it.
find_from-append :
    (i c : ℕ) (front rest : List ℕ)
    → All (λ x. (x == c) ≡ false) front
    → find_from i c (front ++ c ∷ rest) ≡ i + length front
unfolding find_from
find_from-append i c [] rest h = rw (==_refl c) (omega arith)
find_from-append i c (x ∷ front) rest h =
    rw (h.0) (find_from-append (i + 1) c front rest h.1 ∙ omega arith)

find_from_none : (i c : ℕ) (s : List ℕ) → All (λ x. (x == c) ≡ false) s → find_from i c s ≡ npos
unfolding find_from
find_from_none i c [] h = refl
find_from_none i c (x ∷ s) h = rw (h.0) (find_from_none (i + 1) c s h.1)

pub find_first_of-append :
    (c : ℕ) (front rest : List ℕ)
    → All (λ x. (x == c) ≡ false) front
    → find_first_of (front ++ c ∷ rest) c ≡ length front
unfolding find_first_of
find_first_of-append c front rest h = find_from-append 0 c front rest h ∙ omega arith

pub find_first_of_none :
    (c : ℕ) (s : List ℕ) → All (λ x. (x == c) ≡ false) s → find_first_of s c ≡ npos
unfolding find_first_of
find_first_of_none c s h = find_from_none 0 c s h

pub substr_lem :
    (s : List ℕ) (pos count : ℕ)
    → pos ≤ length s
    → substr s pos count ≡ ok (take count (drop pos s))
unfolding substr
substr_lem s pos count h = ground arith

decimal_digits : (fuel n : ℕ) → All (λ c. is_digit c ≡ true) (decimal fuel n)
unfolding decimal
decimal_digits zero n = (is_digit_of (n % 10) (omega arith), tt)
decimal_digits (suc fuel) n = elim (Bool-cases (ltb n 10)) [
  | inl small ↦ rw small (is_digit_of n (ground arith), tt)
  | inr large ↦ rw large (
      All-append (λ c. is_digit c ≡ true) (decimal fuel (n / 10)) _ (decimal_digits fuel (n / 10))
        (is_digit_of (n % 10) (omega arith), tt))
]

length-decimal_le : (fuel n : ℕ) → length (decimal fuel n) ≤ suc fuel
unfolding decimal
length-decimal_le zero n = omega arith
length-decimal_le (suc fuel) n = elim (Bool-cases (ltb n 10)) [
  | inl small ↦ rw small (omega arith)
  | inr large ↦ rw large (
      omega (
        arith,
        length-append (decimal fuel (n / 10)) ((48 + n % 10) ∷ []),
        length-decimal_le fuel (n / 10),
      ))
]

no_other : (d c : ℕ) → is_digit d ≡ false → is_digit c ≡ true → (c == d) ≡ false
no_other d c h k = ground arith

free_of :
    (d : ℕ) (s : List ℕ)
    → is_digit d ≡ false
    → All (λ c. is_digit c ≡ true) s
    → All (λ c. (c == d) ≡ false) s
free_of d [] h a = tt
free_of d (c ∷ s) h a = (no_other d c h a.0, free_of d s h a.1)

-- A printed number has at most twenty bytes, and none that is no digit.
pub to_string_bytes :
    (n d : ℕ)
    → is_digit d ≡ false
    → (length (to_string n) ≤ 20) × All (λ c. (c == d) ≡ false) (to_string n)
unfolding to_string
to_string_bytes n d h = (length-decimal_le 19 n, free_of d (decimal 19 n) h (decimal_digits 19 n))

pub to_string_head : (n : ℕ) → (c : ℕ) × (t : List ℕ) × (to_string n ≡ c ∷ t) × (is_digit c ≡ true)
unfolding to_string
to_string_head n = decimal_head 19 n
