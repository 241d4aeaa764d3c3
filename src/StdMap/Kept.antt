-- ===== src/StdMap/Kept.antt =====
-- The operations of `std::map` keep its entries in order, and its keys within their set.
use ironhide.Base.{Bool, true, List, [], ◌∷◌, ◌≡◌, arith, All}
use ironhide.StdMap.{insert, assign, erase}
use ironhide.StdMap.Laws.{OrdersOn, IsMap}

module _ {ℓ κ μ} {K : Type ℓ} {V : Type κ} (lt : K → K → Bool) (Q : K → Type μ) where
  abbrev Keys : List (K × V) → Type μ
  Keys = All (λ (e : K × V). Q e.0)

  Keys-insert : (k : K) (v : V) (m : List (K × V)) → Q k → Keys m → Keys (insert lt k v m)
  unfolding insert
  Keys-insert k v [] q h = (q, tt)
  Keys-insert k v ((i, u) ∷ m) q h = ground (arith, Keys-insert k v m q h.1)

  Keys-assign : (k : K) (v : V) (m : List (K × V)) → Q k → Keys m → Keys (assign lt k v m)
  unfolding assign
  Keys-assign k v [] q h = (q, tt)
  Keys-assign k v ((i, u) ∷ m) q h = ground (arith, Keys-assign k v m q h.1)

  Keys-erase : (k : K) (m : List (K × V)) → Keys m → Keys (erase lt k m)
  unfolding erase
  Keys-erase k [] h = tt
  Keys-erase k ((i, u) ∷ m) h = ground (arith, Keys-erase k m h.1)

module _ {ℓ κ μ} {K : Type ℓ} {V : Type κ} (lt : K → K → Bool) (P : K → Type μ) where
  module _ (ord : OrdersOn lt P) where
    below-All :
        (k i : K) (m : List (K × V))
        → P k
        → P i
        → lt k i ≡ true
        → IsMap lt P m
        → All (λ (e : K × V). lt i e.0 ≡ true) m
        → All (λ (e : K × V). lt k e.0 ≡ true) m
    below-All k i [] pk pi h w b = tt
    below-All k i ((j, u) ∷ m) pk pi h w b =
        (ord.trans k i j pk pi w.0 h b.0, below-All k i m pk pi h w.2 b.1)

    pub insert-IsMap :
        (k : K) (v : V) (m : List (K × V)) → P k → IsMap lt P m → IsMap lt P (insert lt k v m)
    unfolding insert
    insert-IsMap k v [] pk w = (pk, tt, tt)
    insert-IsMap k v ((i, u) ∷ m) pk w = ground (
      arith,
      Keys-insert lt (λ (x : K). lt i x ≡ true) k v m,
      below-All k i m pk w.0,
      insert-IsMap k v m pk w.2,
    )

    pub assign-IsMap :
        (k : K) (v : V) (m : List (K × V)) → P k → IsMap lt P m → IsMap lt P (assign lt k v m)
    unfolding assign
    assign-IsMap k v [] pk w = (pk, tt, tt)
    assign-IsMap k v ((i, u) ∷ m) pk w = ground (
      arith,
      Keys-assign lt (λ (x : K). lt i x ≡ true) k v m,
      below-All k i m pk w.0,
      assign-IsMap k v m pk w.2,
    )

    pub erase-IsMap : (k : K) (m : List (K × V)) → P k → IsMap lt P m → IsMap lt P (erase lt k m)
    unfolding erase
    erase-IsMap k [] pk w = tt
    erase-IsMap k ((i, u) ∷ m) pk w =
        ground (arith, Keys-erase lt (λ (x : K). lt i x ≡ true) k m, erase-IsMap k m pk w.2)
