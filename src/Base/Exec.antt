-- ===== src/Base/Exec.antt =====
-- Code that changes a state of type `S` and may throw: the state that a throw leaves behind stays.
use mathlib.Core.Path.{◌≡◌, ◌∙◌, subst}
use mathlib.Core.Logic.{inl, inr}
use mathlib.Core.Bool.{Bool, true, false}
use ironhide.Base.Tests.{if◌then◌else◌}
use ironhide.Base.Result.{Result, ok, err, Error, Result-cases}

abbrev pub Exec : Type 0 → Type 0 → Type 0
Exec S A = S → Result A × S

module _ {S A : Type 0} where
  abbrev pub pure : A → Exec S A
  pure a s = (ok a, s)

  abbrev pub raise : Error → Exec S A
  raise e s = (err e, s)

  abbrev pub lift : Result A → Exec S A
  lift r s = (r, s)

module _ {S A B : Type 0} where
  abbrev pub run_next : (A → Exec S B) → Result A → S → Result B × S
  run_next f (ok a) s = f a s
  run_next f (err e) s = (err e, s)

  infixl 5 ◌>>=◌
  abbrev pub ◌>>=◌ : Exec S A → (A → Exec S B) → Exec S B
  ◌>>=◌ m f s = run_next f (m s).0 (m s).1

infixl 5 ◌>>◌
abbrev pub ◌>>◌ : {S B : Type 0} → Exec S (Unit {0}) → Exec S B → Exec S B
m >> k = m >>= λ _. k

abbrev pub gets : {S A : Type 0} → (S → A) → Exec S A
gets f s = (ok (f s), s)

abbrev pub modify : {S : Type 0} → (S → S) → Exec S (Unit {0})
modify f s = (ok tt, f s)

-- A block leaves alone what each of its parts leaves alone, whether or not a part throws.
pub frame_bind :
    {S A B X : Type 0} (field : S → X) (m : Exec S A) (k : A → Exec S B)
    → ((s : S) → field (m s).1 ≡ field s)
    → ((a : A) (s : S) → field (k a s).1 ≡ field s)
    → (s : S) → field ((m >>= k) s).1 ≡ field s
frame_bind field m k hm hk s = elim (Result-cases (m s).0) [
  | inl (a, e) ↦ rw (e) (hk a (m s).1 ∙ hm s)
  | inr (x, e) ↦ rw (e) (hm s)
]

-- A block leaves alone, of what its first part leaves behind, what its rest leaves alone.
pub frame_after :
    {S A B X : Type 0} (field : S → X) (m : Exec S A) (k : A → Exec S B)
    → ((a : A) (s : S) → field (k a s).1 ≡ field s)
    → (s : S) → field ((m >>= k) s).1 ≡ field (m s).1
frame_after field m k hk s = elim (Result-cases (m s).0) [
  | inl (a, e) ↦ rw (e) (hk a (m s).1)
  | inr (x, e) ↦ rw (e)
]

pub bind_assoc :
    {S A B C : Type 0} (m : Exec S A) (f : A → Exec S B) (g : B → Exec S C) (s : S)
    → ((m >>= f) >>= g) s ≡ (m >>= λ a. f a >>= g) s
bind_assoc m f g s = elim (Result-cases (m s).0) [ inl (a, e) ↦ rw e | inr (x, e) ↦ rw e ]

-- What a block keeps, whether or not it throws.
abbrev pub Keeps {ℓ} : {S A : Type 0} → (S → Type ℓ) → Exec S A → Type ℓ
Keeps {S} I m = (s : S) → I s → I (m s).1

module _ {ℓ} {S A : Type 0} (I : S → Type ℓ) where
  pub Keeps-next :
      {B : Type 0} (m : Exec S A) (k : A → Exec S B)
      → Keeps I m
      → ((a : A) (s : S) → I s → (m s).0 ≡ ok a → Keeps I (k a))
      → Keeps I (m >>= k)
  Keeps-next m k hm hk s v = elim (Result-cases (m s).0) [
    | inl (a, e) ↦ rw e (hk a s v e (m s).1 (hm s v))
    | inr (x, e) ↦ rw e (hm s v)
  ]

  pub Keeps-bind :
      {B : Type 0} (m : Exec S A) (k : A → Exec S B)
      → Keeps I m
      → ((a : A) → Keeps I (k a))
      → Keeps I (m >>= k)
  Keeps-bind m k hm hk = Keeps-next m k hm (λ a _ _ _. hk a)

  pub Keeps-if : (b : Bool) (m k : Exec S A) → Keeps I m → Keeps I k → Keeps I (if b then m else k)
  Keeps-if true m k hm hk = hm
  Keeps-if false m k hm hk = hk

-- What holds of what a block returns, if it returns.
abbrev pub OnOk {ℓ} : {A : Type 0} → (A → Type ℓ) → Result A → Type ℓ
OnOk Q (ok a) = Q a
OnOk Q (err e) = Unit

-- What holds of all that is returned holds of what is.
pub returned {ℓ} : {A : Type 0} (Q : A → Type ℓ) (r : Result A) (a : A) → OnOk Q r → r ≡ ok a → Q a
returned Q r a h e = subst (OnOk Q) e h
