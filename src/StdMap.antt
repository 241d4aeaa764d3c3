-- ===== src/StdMap.antt =====
-- `std::map` over a comparison `lt`, as the list of its entries in order: what the endpoints and
-- the classifier use of it. A key is sought as the container does, by the first entry that is not
-- less; two keys are the same key if neither is less.
pub mod Laws
pub mod Kept
use ironhide.Base.{Bool, List, [], ◌∷◌, Option, none, some, if◌then◌else◌}

module _ {ℓ κ} {K : Type ℓ} {V : Type κ} (lt : K → K → Bool) where
  -- find, and the entry that it points to
  unfoldable pub find : K → List (K × V) → Option V
  find k [] = none
  find k ((j, v) ∷ m) =
      let later = find k m in if lt j k then later else if lt k j then none else some v

  -- insert: an entry with the key stays as it is.
  unfoldable pub insert : K → V → List (K × V) → List (K × V)
  insert k v [] = (k, v) ∷ []
  insert k v ((j, w) ∷ m) =
      let later = insert k v m in
      if lt j k then (j, w) ∷ later else if lt k j then (k, v) ∷ (j, w) ∷ m else (j, w) ∷ m

  -- m[k] = v
  unfoldable pub assign : K → V → List (K × V) → List (K × V)
  assign k v [] = (k, v) ∷ []
  assign k v ((j, w) ∷ m) =
      let later = assign k v m in
      if lt j k then (j, w) ∷ later else if lt k j then (k, v) ∷ (j, w) ∷ m else (j, v) ∷ m

  -- erase by key
  unfoldable pub erase : K → List (K × V) → List (K × V)
  erase k [] = []
  erase k ((j, w) ∷ m) =
      let later = erase k m in if lt j k then (j, w) ∷ later else if lt k j then (j, w) ∷ m else m
