-- ===== src/Db/Key.antt =====
-- src/db/dbquery.h: the names of the protocol with the roulette service.
use ironhide.Base.Text.{Text, codes}

-- namespace query::endpoint
abbrev pub src_ip : Text
src_ip = codes "ipSrc"

abbrev pub dst_ip : Text
dst_ip = codes "ipDst"

abbrev pub src_port : Text
src_port = codes "portSrc"

abbrev pub dst_port : Text
dst_port = codes "portDst"

abbrev pub sfc_id : Text
sfc_id = codes "idSfc"

abbrev pub protocol : Text
protocol = codes "protocol"

abbrev pub sock_egress : Text
sock_egress = codes "socketIdEgress"

abbrev pub sock_ingress : Text
sock_ingress = codes "socketIdIngress"

abbrev pub egress_ip : Text
egress_ip = codes "ipEgress"

abbrev pub ingress_ip : Text
ingress_ip = codes "ipIngress"

abbrev pub ingress : Text
ingress = codes "ingress"

abbrev pub egress : Text
egress = codes "egress"

-- namespace query::route
abbrev pub si : Text
si = codes "si"

abbrev pub address : Text
address = codes "url"

abbrev pub port : Text
port = codes "port"

-- namespace reply
abbrev pub result : Text
result = codes "result"

abbrev pub ok : Text
ok = codes "ok"

abbrev pub content : Text
content = codes "content"

abbrev pub endpoint_prefix : Text
endpoint_prefix = codes "endpoints/"

abbrev pub route_prefix : Text
route_prefix = codes "routes/"
