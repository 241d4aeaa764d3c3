-- ===== src/Packet/Forge/Buffers.antt =====
-- What memset and strncpy leave in a buffer that is long enough.
use ironhide.Base.{
  ℕ, zero, suc, ◌≤◌, ◌≡◌, ◌∙◌, refl, ap, List, [], ◌∷◌, ◌++◌, arith, length, drop, replicate, All,
  ◌==◌, if◌then◌else◌, Bool-cases, inl, inr, length-replicate, length-append, length-drop,
}
use ironhide.Base.Result.{ok}
use ironhide.Packet.Forge.{memset_zero, strncpy}
use ironhide.Packet.Checksum.{IsByte}

pub memset_zero_fits :
    (dst : List ℕ) (n : ℕ) → n ≤ length dst → memset_zero dst n ≡ ok (replicate n 0 ++ drop n dst)
unfolding memset_zero
memset_zero_fits dst zero h = refl
memset_zero_fits [] (suc n) h = absurd (omega arith)
memset_zero_fits (d ∷ dst) (suc n) h = rw (memset_zero_fits dst n (omega arith))

pub memset_zero_kept :
    (dst : List ℕ) (n : ℕ)
    → n ≤ length dst
    → (out : List ℕ) × (memset_zero dst n ≡ ok out) × (length out ≡ length dst)
memset_zero_kept dst n h = (
  replicate n 0 ++ drop n dst,
  memset_zero_fits dst n h,
  omega (
    arith,
    length-append (replicate n 0) (drop n dst),
    length-replicate {A = ℕ} n 0,
    length-drop n dst,
  ),
)

-- The data with everything from its first NUL on replaced by zeros.
unfoldable pub cut_at_nul : List ℕ → List ℕ
cut_at_nul [] = []
cut_at_nul (c ∷ src) = if c == 0 then replicate (suc (length src)) 0 else c ∷ cut_at_nul src

pub length-cut_at_nul : (src : List ℕ) → length (cut_at_nul src) ≡ length src
unfolding cut_at_nul
length-cut_at_nul [] = refl
length-cut_at_nul (c ∷ src) =
    ground (arith, length-cut_at_nul src, length-replicate {A = ℕ} (length src) 0)

zeros_bytes : (n : ℕ) → All IsByte (replicate n 0)
zeros_bytes zero = tt
zeros_bytes (suc n) = (omega arith, zeros_bytes n)

pub cut_at_nul-All : (src : List ℕ) → All IsByte src → All IsByte (cut_at_nul src)
unfolding cut_at_nul
cut_at_nul-All [] v = tt
cut_at_nul-All (c ∷ src) v = elim (Bool-cases (c == 0)) [
  | inl e ↦ rw e (zeros_bytes (suc (length src)))
  | inr e ↦ rw e (v.0, cut_at_nul-All src v.1)
]

pub strncpy_fits :
    (dst src : List ℕ) (n : ℕ)
    → n ≡ length src
    → n ≤ length dst
    → strncpy dst src n ≡ ok (cut_at_nul src ++ drop n dst)
unfolding strncpy cut_at_nul
strncpy_fits dst [] zero e h = refl
strncpy_fits dst (c ∷ src) zero e h = absurd (omega arith)
strncpy_fits dst [] (suc n) e h = absurd (omega arith)
strncpy_fits [] (c ∷ src) (suc n) e h = absurd (omega arith)
strncpy_fits (d ∷ dst) (c ∷ src) (suc n) e h = elim (Bool-cases (c == 0)) [
  | inl z ↦
      rw z (memset_zero_fits (d ∷ dst) (suc n) h ∙ ap (λ k. ok (replicate k 0 ++ drop n dst)) e)
  | inr z ↦ rw (z, strncpy_fits dst src n (omega arith) (omega arith))
]
