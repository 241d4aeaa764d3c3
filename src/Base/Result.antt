-- ===== src/Base/Result.antt =====
-- What the code may do instead of returning: throw, exit, or touch memory out of bounds.
use mathlib.Core.Path.{◌≡◌, refl}
use mathlib.Core.Logic.{◌⊎◌, inl, inr}
use mathlib.Core.Bool.{Bool, true, false}

-- `failure`, `endpoint_not_found` and `query_ambiguous` are the classes of db/exceptions/;
-- `out_of_range` and `invalid_argument` are thrown by the standard library and `json_error` by
-- jsoncpp; `exit_failure` and `exit_success` are calls of `exit`; `fault` is an access outside an
-- object; `runtime_error` is thrown by the thread pool, and `length_error` by a vector that is too
-- long.
pub data Error : Type 0 where
  failure endpoint_not_found query_ambiguous : Error
  out_of_range invalid_argument json_error : Error
  exit_failure exit_success fault runtime_error length_error : Error

pub data Result {ℓ} (A : Type ℓ) : Type ℓ where
  ok : A → Result A
  err : Error → Result A

abbrev pub bind {ℓ κ} : {A : Type ℓ} {B : Type κ} → Result A → (A → Result B) → Result B
bind (ok a) f = f a
bind (err e) f = err e

infixl 5 ◌>>=◌ ◌>>◌
abbrev pub ◌>>=◌ {ℓ κ} : {A : Type ℓ} {B : Type κ} → Result A → (A → Result B) → Result B
m >>= f = bind m f

abbrev pub ◌>>◌ {ℓ} : {B : Type ℓ} → Result (Unit {0}) → Result B → Result B
m >> k = bind m (λ _. k)

abbrev pub guard : Bool → Error → Result (Unit {0})
guard true e = ok tt
guard false e = err e

pub Result-cases {ℓ} :
    {A : Type ℓ} (r : Result A) → ((a : A) × (r ≡ ok a)) ⊎ ((e : Error) × (r ≡ err e))
Result-cases (ok a) = inl (a, refl)
Result-cases (err e) = inr (e, refl)

pub bind-ok {ℓ} : {A : Type ℓ} (m : Result A) → bind m (λ a. ok a) ≡ m
bind-ok (ok a) = refl
bind-ok (err e) = refl

pub bind_assoc {ℓ κ μ} :
    {A : Type ℓ} {B : Type κ} {C : Type μ} (m : Result A) (f : A → Result B) (g : B → Result C)
    → bind (bind m f) g ≡ bind m (λ a. bind (f a) g)
bind_assoc (ok a) f g = refl
bind_assoc (err e) f g = refl
