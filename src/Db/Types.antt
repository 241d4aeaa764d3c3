-- ===== src/Db/Types.antt =====
-- src/db/dbquery.h: the enumerations.
use ironhide.Base.{ℕ, Bool, true, false}

-- enum endpoint_type
pub data EndpointType : Type 0 where
  ingress_t egress_t : EndpointType

-- enum protocol_type
pub data ProtocolType : Type 0 where
  tcp udp : ProtocolType

-- The comparisons of the enumerations, by their numbers.
abbrev pub endpoint_type_eq : EndpointType → EndpointType → Bool
endpoint_type_eq ingress_t ingress_t = true
endpoint_type_eq egress_t egress_t = true
endpoint_type_eq _ _ = false

abbrev pub protocol_number : ProtocolType → ℕ
protocol_number tcp = 0
protocol_number udp = 1
