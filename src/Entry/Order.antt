-- ===== src/Entry/Order.antt =====
-- `operator<` of ConnectionEntry as the comparison of a `std::map`.
use ironhide.Base.{ℕ, true, false, ◌≡◌, ◌↔◌, ◌<◌, subst, arith}
use ironhide.Base.Text.{
  text_lt, text_lt_irrefl, text_lt_total, text_lt_of_not_lt, text_eq_refl, text_eq_sound,
}
use ironhide.Entry.{ConnectionEntry, entry_eq, entry_lt}
use ironhide.StdMap.Laws.{OrdersOn}

entry_eq_refl : (a : ConnectionEntry) → entry_eq a a ≡ true
unfolding entry_eq
entry_eq_refl a = ground (arith, text_eq_refl a.ip_src, text_eq_refl a.ip_dst, text_eq_refl a.sfcid)

-- operator== holds exactly between equal entries.
pub entry_eq_iff : (a b : ConnectionEntry) → (entry_eq a b ≡ true) ↔ (a ≡ b)
unfolding entry_eq
entry_eq_iff a b = (
  λ h. ground (
    arith,
    text_eq_sound a.ip_src b.ip_src,
    text_eq_sound a.ip_dst b.ip_dst,
    text_eq_sound a.sfcid b.sfcid,
  ),
  λ h. subst (λ x. entry_eq a x ≡ true) h (entry_eq_refl a),
)

entry_lt_irrefl : (a : ConnectionEntry) → entry_lt a a ≡ false
unfolding entry_lt
entry_lt_irrefl a =
    ground (arith, text_lt_irrefl a.ip_src, text_lt_irrefl a.ip_dst, text_lt_irrefl a.sfcid)

-- Entries of which neither is less are equal.
entry_lt_total : (a b : ConnectionEntry) → entry_lt a b ≡ false → entry_lt b a ≡ false → a ≡ b
unfolding entry_lt
entry_lt_total a b h k = ground (
  arith,
  text_lt_total a.ip_src b.ip_src,
  text_lt_total a.ip_dst b.ip_dst,
  text_lt_total a.sfcid b.sfcid,
)

entry_lt_of_not_lt :
    (a b c : ConnectionEntry) → entry_lt a b ≡ true → entry_lt c b ≡ false → entry_lt a c ≡ true
unfolding entry_lt
entry_lt_of_not_lt a b c h k = ground (
  arith,
  text_lt_of_not_lt a.ip_src b.ip_src c.ip_src,
  text_lt_of_not_lt a.ip_dst b.ip_dst c.ip_dst,
  text_lt_of_not_lt a.sfcid b.sfcid c.sfcid,
)

-- On any set of entries of which no two are each less than the other, operator< is a strict total
-- order.
pub OrdersOn-entry_lt {ℓ} :
    (P : ConnectionEntry → Type ℓ)
    → ((a b : ConnectionEntry) → P a → P b → entry_lt a b ≡ true → entry_lt b a ≡ false)
    → OrdersOn entry_lt P
OrdersOn-entry_lt P asym = record {
  irrefl = λ a _. entry_lt_irrefl a;
  asym = asym;
  trans = λ a b c pa pb pc h k. entry_lt_of_not_lt a b c h (asym b c pb pc k);
  total = λ a b _ _. entry_lt_total a b;
}

-- Two entries are each less than the other as soon as one has the smaller source address and the
-- other the smaller source port.
pub entry_lt_both_ways :
    (a b : ConnectionEntry)
    → text_lt a.ip_src b.ip_src ≡ true
    → b.port_src < a.port_src
    → (entry_lt a b ≡ true) × (entry_lt b a ≡ true)
unfolding entry_lt
entry_lt_both_ways a b h k = (ground arith, ground arith)

-- The entries of one client and one server over one chain, which differ in the client's port.
abbrev pub SameButPort : ConnectionEntry → ConnectionEntry → Type 0
SameButPort base a = a ≡ record base { port_src = a.port_src }

-- On those operator< is asymmetric.
pub SameButPort-asym :
    (base a b : ConnectionEntry)
    → SameButPort base a
    → SameButPort base b
    → entry_lt a b ≡ true
    → entry_lt b a ≡ false
SameButPort-asym base a b pa pb = rw (pa, pb) (ports a.port_src b.port_src)
  where
    ports :
        (p q : ℕ)
        → entry_lt (record base { port_src = p }) (record base { port_src = q }) ≡ true
        → entry_lt (record base { port_src = q }) (record base { port_src = p }) ≡ false
    ports p q h =
        unfold entry_lt in
        ground
          (arith, text_lt_irrefl base.ip_src, text_lt_irrefl base.ip_dst, text_lt_irrefl base.sfcid)
