-- ===== src/StdMap/Laws.antt =====
-- The laws of `std::map`, for keys of a set on which the comparison is a strict total order.
use ironhide.Base.{
  Bool, true, false, List, [], ◌∷◌, Option, none, some, ◌≡◌, ◌≢◌, refl, subst, arith, All,
}
use ironhide.StdMap.{find, insert, assign, erase}

-- `lt` orders the keys of `P`.
pub record OrdersOn {ℓ κ} {K : Type ℓ} (lt : K → K → Bool) (P : K → Type κ) : Type (ℓ ⊔ κ) where
  pub irrefl : (a : K) → P a → lt a a ≡ false
  pub asym : (a b : K) → P a → P b → lt a b ≡ true → lt b a ≡ false
  pub trans : (a b c : K) → P a → P b → P c → lt a b ≡ true → lt b c ≡ true → lt a c ≡ true
  pub total : (a b : K) → P a → P b → lt a b ≡ false → lt b a ≡ false → a ≡ b

-- What a lookup finds after an insertion that may find its key taken.
abbrev pub or_else {ℓ} : {A : Type ℓ} → Option A → A → A
or_else none b = b
or_else (some a) b = a

module _ {ℓ κ μ} {K : Type ℓ} {V : Type κ} (lt : K → K → Bool) (P : K → Type μ) where
  -- The keys belong to `P`, and each is less than those behind it.
  abbrev pub IsMap : List (K × V) → Type (ℓ ⊔ μ)
  IsMap [] = Unit
  IsMap ((k, v) ∷ m) = P k × All (λ (e : K × V). lt k e.0 ≡ true) m × IsMap m

  module _ (ord : OrdersOn lt P) where
    -- A key below all others is not found.
    pub find_below :
        (k : K) (m : List (K × V))
        → P k
        → IsMap m
        → All (λ (e : K × V). lt k e.0 ≡ true) m
        → find lt k m ≡ none
    unfolding find
    find_below k [] pk w b = refl
    find_below k ((i, u) ∷ m) pk w b = ground (arith, ord.asym k i pk w.0)

    pub find-insert_self :
        (k : K) (v : V) (m : List (K × V))
        → P k
        → IsMap m
        → find lt k (insert lt k v m) ≡ some (or_else (find lt k m) v)
    unfolding find insert
    find-insert_self k v [] pk w = ground (arith, ord.irrefl k pk)
    find-insert_self k v ((i, u) ∷ m) pk w =
        ground (arith, ord.irrefl k pk, find-insert_self k v m pk w.2)

    pub find-insert_ne :
        (k j : K) (v : V) (m : List (K × V))
        → P k
        → P j
        → k ≢ j
        → IsMap m
        → find lt j (insert lt k v m) ≡ find lt j m
    unfolding find insert
    find-insert_ne k j v [] pk pj ne w = ground (arith, ord.total k j pk pj)
    find-insert_ne k j v ((i, u) ∷ m) pk pj ne w = ground (
      arith,
      ord.total k j pk pj,
      ord.asym j i pj w.0,
      ord.trans j k i pj pk w.0,
      find-insert_ne k j v m pk pj ne w.2,
    )

    pub find-assign_self :
        (k : K) (v : V) (m : List (K × V)) → P k → IsMap m → find lt k (assign lt k v m) ≡ some v
    unfolding find assign
    find-assign_self k v [] pk w = ground (arith, ord.irrefl k pk)
    find-assign_self k v ((i, u) ∷ m) pk w =
        ground (arith, ord.irrefl k pk, find-assign_self k v m pk w.2)

    pub find-assign_ne :
        (k j : K) (v : V) (m : List (K × V))
        → P k
        → P j
        → k ≢ j
        → IsMap m
        → find lt j (assign lt k v m) ≡ find lt j m
    unfolding find assign
    find-assign_ne k j v [] pk pj ne w = ground (arith, ord.total k j pk pj)
    find-assign_ne k j v ((i, u) ∷ m) pk pj ne w = ground (
      arith,
      ord.total k j pk pj,
      ord.total k i pk w.0,
      ord.total i j w.0 pj,
      ord.asym j i pj w.0,
      ord.trans j k i pj pk w.0,
      find-assign_ne k j v m pk pj ne w.2,
    )

    pub find-erase_self :
        (k : K) (m : List (K × V)) → P k → IsMap m → find lt k (erase lt k m) ≡ none
    unfolding find erase
    find-erase_self k [] pk w = refl
    find-erase_self k ((i, u) ∷ m) pk w =
        ground (arith, find-erase_self k m pk w.2, ord.asym k i pk w.0, absent)
      where
        absent : lt i k ≡ false → lt k i ≡ false → find lt k m ≡ none
        absent a b =
            let same = ord.total i k w.0 pk a b in
            find_below k m pk w.2 (subst (λ x. All (λ (e : K × V). lt x e.0 ≡ true) m) same w.1)

    pub find-erase_ne :
        (k j : K) (m : List (K × V))
        → P k
        → P j
        → k ≢ j
        → IsMap m
        → find lt j (erase lt k m) ≡ find lt j m
    unfolding find erase
    find-erase_ne k j [] pk pj ne w = refl
    find-erase_ne k j ((i, u) ∷ m) pk pj ne w = ground (
      arith,
      ord.total k j pk pj,
      ord.total i k w.0 pk,
      ord.asym j i pj w.0,
      below,
      find-erase_ne k j m pk pj ne w.2,
    )
      where
        below : lt j i ≡ true → find lt j m ≡ none
        below a = find_below j m pj w.2 (All-below m w.2 w.1)
          where
            All-below :
                (l : List (K × V))
                → IsMap l
                → All (λ (e : K × V). lt i e.0 ≡ true) l
                → All (λ (e : K × V). lt j e.0 ≡ true) l
            All-below [] x y = tt
            All-below ((n, z) ∷ l) x y = (ord.trans j i n pj w.0 x.0 a y.0, All-below l x.2 y.1)
