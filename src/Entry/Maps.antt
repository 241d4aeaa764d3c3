-- ===== src/Entry/Maps.antt =====
-- The maps of src/endpoint/endpoint.h, keyed by entries, where operator< orders the entries.
use ironhide.Base.{List, Option, none, some, ◌≡◌, ◌≢◌, inl, inr, Bool-cases, if◌then◌else◌, subst}
use ironhide.StdMap.{find, insert, assign, erase}
use ironhide.StdMap.Laws.{
  OrdersOn, IsMap, or_else, find-insert_self, find-insert_ne, find-assign_self, find-assign_ne,
  find-erase_self, find-erase_ne,
}
use ironhide.Entry.{ConnectionEntry, entry_eq, entry_lt}
use ironhide.Entry.Order.{entry_eq_iff}

module _ {ℓ κ} {V : Type κ} (P : ConnectionEntry → Type ℓ) (ord : OrdersOn entry_lt P)
    (ce j : ConnectionEntry) (p : P ce) (q : P j) (m : List (ConnectionEntry × V))
    (h : IsMap entry_lt P m) where
  -- What a lookup finds in a map that may have changed at `ce`.
  at_entry :
      (m' : List (ConnectionEntry × V)) (found : Option V)
      → find entry_lt ce m' ≡ found
      → (ce ≢ j → find entry_lt j m' ≡ find entry_lt j m)
      → find entry_lt j m' ≡ (if entry_eq ce j then found else find entry_lt j m)
  at_entry m' found same other = elim (Bool-cases (entry_eq ce j)) [
    | inl e ↦ rw e (subst (λ k. find entry_lt k m' ≡ found) ((entry_eq_iff ce j).0 e) same)
    | inr e ↦ rw e (other (λ k. let same = (entry_eq_iff ce j).1 k in cc))
  ]

  pub find-insert :
      (v : V)
      → find entry_lt j (insert entry_lt ce v m)
        ≡ (if entry_eq ce j then some (or_else (find entry_lt ce m) v) else find entry_lt j m)
  find-insert v =
      at_entry (insert entry_lt ce v m) (some (or_else (find entry_lt ce m) v))
        (find-insert_self entry_lt P ord ce v m p h)
        (λ ne. find-insert_ne entry_lt P ord ce j v m p q ne h)

  pub find-assign :
      (v : V)
      → find entry_lt j (assign entry_lt ce v m)
        ≡ (if entry_eq ce j then some v else find entry_lt j m)
  find-assign v =
      at_entry (assign entry_lt ce v m) (some v) (find-assign_self entry_lt P ord ce v m p h)
        (λ ne. find-assign_ne entry_lt P ord ce j v m p q ne h)

  pub find-erase :
      find entry_lt j (erase entry_lt ce m) ≡ (if entry_eq ce j then none else find entry_lt j m)
  find-erase =
      at_entry (erase entry_lt ce m) none (find-erase_self entry_lt P ord ce m p h)
        (λ ne. find-erase_ne entry_lt P ord ce j m p q ne h)
