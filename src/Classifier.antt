-- ===== src/Classifier.antt =====
-- src/classifier/classifier.h and classifier.cpp: the chain that a packet is to take.
pub mod Chains
use ironhide.Base.{
  ℕ, Bool, true, false, List, [], ◌∷◌, Option, none, some, ltb, if◌then◌else◌, ◌==◌,
}
use ironhide.Base.Result.{Result, ok, err, out_of_range, bind}
use ironhide.Base.Exec.{Exec, lift, modify, gets, ◌>>=◌, ◌>>◌}
use ironhide.Base.Text.{Text, codes}
use ironhide.StdMap.{find, assign}
use ironhide.Packet.{Iphdr}
use ironhide.Packet.Retrieve.{retrieve_ip_header}

-- enum pkt_type
pub data PktType : Type 0 where
  default tcp udp : PktType

abbrev pub pkt_type_number : PktType → ℕ
pkt_type_number default = 0
pkt_type_number tcp = 1
pkt_type_number udp = 2

-- class Classifier::Mapper; `Mapper m{}` has the type numbered 0.
pub record Mapper : Type 0 where
  pub type : PktType

abbrev pub new_mapper : Mapper
new_mapper = record { type = default }

abbrev pub default_udp_mapper : Mapper
default_udp_mapper = record { type = udp }

abbrev pub default_tcp_mapper : Mapper
default_tcp_mapper = record { type = tcp }

-- Mapper::operator<
unfoldable pub mapper_lt : Mapper → Mapper → Bool
mapper_lt a b = ltb (pkt_type_number a.type) (pkt_type_number b.type)

-- The switch of set_pkt.
unfoldable pub type_of_protocol : ℕ → PktType
type_of_protocol protocol = if protocol == 6 then tcp else if protocol == 17 then udp else default

-- Mapper::set_pkt: a packet no longer than an IP header leaves the mapper as it is.
unfoldable pub set_pkt : Mapper → List ℕ → ℕ → Result Mapper
unfolding type_of_protocol
set_pkt m pkt pkt_len =
    if ltb 20 pkt_len
    then bind (retrieve_ip_header pkt)
        (λ h_ip. ok (record { type = type_of_protocol h_ip.protocol }))
    else ok m

-- sfc_map, the state of a Classifier
abbrev pub SfcMap : Type 0
SfcMap = List (Mapper × Text)

-- sfc_map.at(m)
unfoldable pub chain_at : Mapper → SfcMap → Result Text
chain_at m sfc_map = elim (find mapper_lt m sfc_map) [ none ↦ err out_of_range | some sfc ↦ ok sfc ]

-- classify_pkt
unfoldable pub classify_pkt : List ℕ → ℕ → Exec SfcMap Text
unfolding set_pkt chain_at
classify_pkt pkt pkt_len = do
  m ← lift (set_pkt new_mapper pkt pkt_len)
  modify (assign mapper_lt default_udp_mapper (codes "0"))
  modify (assign mapper_lt default_tcp_mapper (codes "0"))
  sfc ← gets (chain_at m)
  lift sfc
