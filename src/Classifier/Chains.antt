-- ===== src/Classifier/Chains.antt =====
-- The chain that the classifier finds for each packet.
use ironhide.Base.{
  ℕ, List, [], ◌++◌, none, some, ltb, if◌then◌else◌, ◌==◌, ◌≡◌, ◌∙◌, ◌&&◌, ◌||◌, refl, ap, arith,
  inl, inr, Bool-cases,
}
use ironhide.Base.Result.{ok, err, out_of_range, Result-cases}
use ironhide.Base.Text.{codes}
use ironhide.StdMap.{find, assign}
use ironhide.StdMap.Laws.{OrdersOn, IsMap, find-assign_self, find-assign_ne}
use ironhide.StdMap.Kept.{assign-IsMap}
use ironhide.Packet.{Iphdr, IsIphdr, encode_iphdr}
use ironhide.Packet.RoundTrip.{retrieve_ip_header-encode}
use ironhide.Classifier.{
  PktType, default, tcp, udp, Mapper, SfcMap, mapper_lt, new_mapper, default_udp_mapper,
  default_tcp_mapper, type_of_protocol, set_pkt, chain_at, classify_pkt,
}

abbrev AnyMapper : Mapper → Type 0
AnyMapper m = Unit

mapper_order : OrdersOn mapper_lt AnyMapper
unfolding mapper_lt
mapper_order = record {
  irrefl = λ a _. ground arith;
  asym = λ a b _ _ h. ground arith;
  trans = λ a b c _ _ _ h k. ground arith;
  total = λ a b _ _ h k. ground arith;
}

-- A map in order in which no entry is for packets of other protocols: what the classifier makes of
-- an empty one.
pub record IsSfcMap (m : SfcMap) : Type 0 where
  pub in_order : IsMap mapper_lt AnyMapper m
  pub no_default : find mapper_lt new_mapper m ≡ none

pub empty-IsSfcMap : IsSfcMap []
unfolding find
empty-IsSfcMap = record { in_order = tt; no_default = refl }

module _ (m : SfcMap) (v : IsSfcMap m) where
  with_udp : SfcMap
  with_udp = assign mapper_lt default_udp_mapper (codes "0") m

  filled : SfcMap
  unfolding with_udp
  filled = assign mapper_lt default_tcp_mapper (codes "0") with_udp

  with_udp_order : IsMap mapper_lt AnyMapper with_udp
  unfolding with_udp
  with_udp_order = assign-IsMap mapper_lt AnyMapper mapper_order _ _ m tt v.in_order

  filled_order : IsMap mapper_lt AnyMapper filled
  unfolding filled
  filled_order = assign-IsMap mapper_lt AnyMapper mapper_order _ _ _ tt with_udp_order

  filled_tcp : find mapper_lt default_tcp_mapper filled ≡ some (codes "0")
  unfolding filled
  filled_tcp = find-assign_self mapper_lt AnyMapper mapper_order _ _ _ tt with_udp_order

  filled_udp : find mapper_lt default_udp_mapper filled ≡ some (codes "0")
  unfolding filled
  filled_udp =
      find-assign_ne mapper_lt AnyMapper mapper_order _ _ _ _ tt tt (λ e. cc e) with_udp_order
      ∙ find-assign_self mapper_lt AnyMapper mapper_order _ _ m tt v.in_order

  filled_default : find mapper_lt new_mapper filled ≡ none
  unfolding filled
  filled_default =
      find-assign_ne mapper_lt AnyMapper mapper_order _ _ _ _ tt tt (λ e. cc e) with_udp_order
      ∙ find-assign_ne mapper_lt AnyMapper mapper_order _ _ _ m tt tt (λ e. cc e) v.in_order
      ∙ v.no_default

  filled-IsSfcMap : IsSfcMap filled
  filled-IsSfcMap = record { in_order = filled_order; no_default = filled_default }

  -- The chain of each type of packet, once the map is filled.
  chain_of_type :
      (t : PktType)
      → chain_at (record { type = t }) filled
        ≡ elim t [ default ↦ err out_of_range | tcp ↦ ok (codes "0") | udp ↦ ok (codes "0") ]
  unfolding chain_at
  chain_of_type default = rw (filled_default, chain_at)
  chain_of_type tcp = rw (filled_tcp, chain_at)
  chain_of_type udp = rw (filled_udp, chain_at)

  classified :
      (t : PktType) (pkt : List ℕ) (n : ℕ)
      → set_pkt new_mapper pkt n ≡ ok (record { type = t })
      → classify_pkt pkt n m ≡ (
        elim t [ default ↦ err out_of_range | tcp ↦ ok (codes "0") | udp ↦ ok (codes "0") ],
        filled,
      )
  unfolding classify_pkt filled with_udp
  classified t pkt n h = rw (h) (ap (λ r. (r, filled)) (chain_of_type t))

set_pkt_type :
    (h : Iphdr) (rest : List ℕ) (n : ℕ)
    → IsIphdr h
    → h.ihl ≡ 5
    → set_pkt new_mapper (encode_iphdr h ++ rest) n
      ≡ ok (record { type = if ltb 20 n then type_of_protocol h.protocol else default })
unfolding set_pkt
set_pkt_type h rest n v five = elim (Bool-cases (ltb 20 n)) [
  | inl long ↦ rw (long, retrieve_ip_header-encode h rest v (omega arith)) (simp five)
  | inr short ↦ rw short
]

-- From a map as the classifier keeps it, a packet with an IP header of five words is classified as
-- the chain "0" if it is longer than the header and carries TCP or UDP; otherwise the classifier
-- throws out_of_range. Either way it leaves a map as it keeps it.
pub classify_pkt_lem :
    (m : SfcMap) (h : Iphdr) (rest : List ℕ) (n : ℕ)
    → IsSfcMap m
    → IsIphdr h
    → h.ihl ≡ 5
    → ((classify_pkt (encode_iphdr h ++ rest) n m).0 ≡ (
        if ltb 20 n && (h.protocol == 6 || h.protocol == 17)
        then ok (codes "0")
        else err out_of_range))
      × IsSfcMap (classify_pkt (encode_iphdr h ++ rest) n m).1
unfolding type_of_protocol
classify_pkt_lem m h rest n w v five =
    let t = if ltb 20 n then type_of_protocol h.protocol else default in
    let whole = classified m w t (encode_iphdr h ++ rest) n (set_pkt_type h rest n v five) in
    (rw whole (ground arith), rw whole (filled-IsSfcMap m w))

-- Whatever the packet, and also where it throws, classify_pkt leaves a map as it keeps it.
pub classify_pkt-IsSfcMap :
    (pkt : List ℕ) (n : ℕ) (m : SfcMap) → IsSfcMap m → IsSfcMap (classify_pkt pkt n m).1
unfolding classify_pkt
classify_pkt-IsSfcMap pkt n m w = elim (Result-cases (set_pkt new_mapper pkt n)) [
  | inl (t, e) ↦ rw (classified m w t.type pkt n e) (filled-IsSfcMap m w)
  | inr (x, e) ↦ rw e w
]
