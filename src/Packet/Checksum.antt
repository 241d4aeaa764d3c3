-- ===== src/Packet/Checksum.antt =====
-- src/utils/packetutils.cpp, csum: the Internet checksum over `nbytes` bytes at `ptr`.
use ironhide.Base.{
  ℕ, zero, suc, ◌+◌, ◌-◌, ◌*◌, ◌/◌, ◌%◌, ◌≤◌, ◌<◌, ◌≡◌, ◌∙◌, refl, ap, List, [], ◌∷◌, ◌++◌, arith,
  length, length-append, All,
}
use ironhide.Base.Result.{Result, ok, err, fault, ◌>>=◌}
use ironhide.Wire.{le16}
use ironhide.Packet.Headers.{put16}

-- The two loops of csum: words while two bytes are left, then an odd byte.
unfoldable pub sum_words : List ℕ → ℕ → ℕ → Result ℕ
sum_words ptr zero sum = ok sum
sum_words [] (suc nbytes) sum = err fault
sum_words (a ∷ ptr) (suc zero) sum = ok (sum + a)
sum_words (a ∷ []) (suc (suc nbytes)) sum = err fault
sum_words (a ∷ b ∷ ptr) (suc (suc nbytes)) sum = sum_words ptr nbytes (sum + le16 a b)

-- The carries are added twice, and the low word is complemented.
unfoldable pub fold_sum : ℕ → ℕ
fold_sum sum =
    let once = sum / 65536 + sum % 65536 in let twice = once + once / 65536 in 65535 - twice % 65536

unfoldable pub csum : List ℕ → ℕ → Result ℕ
unfolding sum_words fold_sum
csum ptr nbytes = do sum ← sum_words ptr nbytes 0; ok (fold_sum sum)

-- The sum of the words of a whole buffer.
words_sum : List ℕ → ℕ
words_sum [] = 0
words_sum (a ∷ []) = a
words_sum (a ∷ b ∷ rest) = le16 a b + words_sum rest

abbrev pub IsByte : ℕ → Type 0
IsByte b = b < 256

sum_words-eq :
    (ptr : List ℕ) (n sum : ℕ) → n ≡ length ptr → sum_words ptr n sum ≡ ok (sum + words_sum ptr)
unfolding sum_words words_sum
sum_words-eq [] zero sum e = ap ok (omega arith)
sum_words-eq [] (suc n) sum e = absurd (omega arith)
sum_words-eq (a ∷ []) zero sum e = absurd (omega arith)
sum_words-eq (a ∷ []) (suc zero) sum e = refl
sum_words-eq (a ∷ []) (suc (suc n)) sum e = absurd (omega arith)
sum_words-eq (a ∷ b ∷ ptr) zero sum e = absurd (omega arith)
sum_words-eq (a ∷ b ∷ ptr) (suc zero) sum e = absurd (omega arith)
sum_words-eq (a ∷ b ∷ ptr) (suc (suc n)) sum e =
    sum_words-eq ptr n (sum + le16 a b) (omega arith) ∙ ap ok (omega arith)

csum-eq : (ptr : List ℕ) (n : ℕ) → n ≡ length ptr → csum ptr n ≡ ok (fold_sum (words_sum ptr))
csum-eq ptr n e =
    unfold csum in rw (sum_words-eq ptr n 0 e) (ap (λ s. ok (fold_sum s)) (omega arith))

words_sum-append :
    (k : ℕ) (front back : List ℕ)
    → length front ≡ 2 * k
    → words_sum (front ++ back) ≡ words_sum front + words_sum back
unfolding words_sum
words_sum-append zero [] back e = omega arith
words_sum-append zero (a ∷ front) back e = absurd (omega arith)
words_sum-append (suc k) [] back e = absurd (omega arith)
words_sum-append (suc k) (a ∷ []) back e = absurd (omega arith)
words_sum-append (suc k) (a ∷ b ∷ front) back e =
    omega (arith, words_sum-append k front back (omega arith))

words_sum_bound : (l : List ℕ) → All IsByte l → words_sum l * 2 ≤ 65535 * (length l + 1)
unfolding words_sum
words_sum_bound [] v = omega arith
words_sum_bound (a ∷ []) v = omega arith
words_sum_bound (a ∷ b ∷ rest) v = omega (arith, words_sum_bound rest v.1.1)

-- Adding the complement of a folded sum gives a sum that folds to zero.
fold_sum_complement : (s : ℕ) → s < 4294000000 → fold_sum (s + fold_sum s) ≡ 0
unfolding fold_sum
fold_sum_complement s h = omega arith

fold_sum-lt : (s : ℕ) → fold_sum s < 65536
unfolding fold_sum
fold_sum-lt s = omega arith

-- What lies behind the bytes that are counted plays no part.
sum_words_front :
    (ptr rest : List ℕ) (n sum : ℕ)
    → n ≡ length ptr
    → sum_words (ptr ++ rest) n sum ≡ sum_words ptr n sum
unfolding sum_words
sum_words_front [] rest zero sum e = refl
sum_words_front [] rest (suc n) sum e = absurd (omega arith)
sum_words_front (a ∷ ptr) rest zero sum e = refl
sum_words_front (a ∷ []) rest (suc zero) sum e = refl
sum_words_front (a ∷ b ∷ ptr) rest (suc zero) sum e = refl
sum_words_front (a ∷ []) rest (suc (suc n)) sum e = absurd (omega arith)
sum_words_front (a ∷ b ∷ ptr) rest (suc (suc n)) sum e =
    sum_words_front ptr rest n (sum + le16 a b) (omega arith)

pub csum_front : (ptr rest : List ℕ) (n : ℕ) → n ≡ length ptr → csum (ptr ++ rest) n ≡ csum ptr n
csum_front ptr rest n e = unfold csum in rw (sum_words_front ptr rest n 0 e)

-- The checksum of a buffer whose checksum field is zero, put into that field at an even offset,
-- makes the checksum of the buffer zero: so a receiver verifies it. The buffer holds bytes, and is
-- at most 65536 + 20 bytes long.
pub csum_verifies :
    (k : ℕ) (front back : List ℕ)
    → length front ≡ 2 * k
    → All IsByte front
    → All IsByte back
    → length front + length back ≤ 65554
    → let n = length front + length back + 2 in
      (c : ℕ) × (csum (front ++ put16 0 back) n ≡ ok c)
      × (c < 65536)
      × (csum (front ++ put16 c back) n ≡ ok 0)
csum_verifies k front back even fb bb short = (
  fold_sum s,
  csum-eq (front ++ put16 0 back) n (size 0)
      ∙ ap (λ t. ok (fold_sum t)) (total 0 (omega arith) ∙ omega arith),
  fold_sum-lt s,
  csum-eq (front ++ put16 c back) n (size c)
      ∙ ap (λ t. ok (fold_sum t)) (total c (fold_sum-lt s))
      ∙ ap ok (fold_sum_complement s small),
)
  where
    n : ℕ
    n = length front + length back + 2

    s : ℕ
    s = words_sum front + words_sum back

    c : ℕ
    c = fold_sum s

    size : (w : ℕ) → n ≡ length (front ++ put16 w back)
    size w = omega (arith, length-append front (put16 w back))

    total : (w : ℕ) → w < 65536 → words_sum (front ++ put16 w back) ≡ s + w
    total w h = words_sum-append k front (put16 w back) even ∙ (unfold words_sum in omega arith)

    small : s < 4294000000
    small = omega (arith, words_sum_bound front fb, words_sum_bound back bb)
