-- ===== src/Db/Query.antt =====
-- src/db/dbquery.h and dbquery.cpp: the classes Endpoint, Query and Query::Builder of DBQuery.
pub mod Builder
pub mod Endpoints
pub mod Urls
use ironhide.Base.{
  ℕ, Bool, true, false, List, [], ◌∷◌, ◌++◌, Option, none, some, map, if◌then◌else◌, ◌==◌,
}
use ironhide.Base.Result.{Result, ok, err, endpoint_not_found, query_ambiguous, ◌>>=◌}
use ironhide.Base.Text.{Text, codes, to_string}
use ironhide.Db.Types.{EndpointType, ingress_t, egress_t, ProtocolType, tcp, udp, endpoint_type_eq}
use ironhide.Db.Key
use ironhide.Db.UrlBuilder
use ironhide.Db.UrlBuilder.{add_path, build}

-- class Endpoint; its getters are the fields.
pub record Endpoint : Type 0 where
  pub ip : Text
  pub socket_id : Text
  pub type_of_proxy : EndpointType

-- class Query; its getters are the fields. The constructor that takes endpoints leaves `type`
-- unset, and to_url then does not read it.
pub record Query : Type 0 where
  pub item_id : Text
  pub ip_src : Text
  pub ip_dst : Text
  pub port_src : ℕ
  pub port_dst : ℕ
  pub prt : ProtocolType
  pub id_sfc : Text
  pub endpoints : List Endpoint
  pub type : Option EndpointType

-- get_endpoint
unfoldable pub find_endpoint : List Endpoint → EndpointType → Result Endpoint
find_endpoint [] endpoint = err endpoint_not_found
find_endpoint (e ∷ es) endpoint =
    let later = find_endpoint es endpoint in
    if endpoint_type_eq e.type_of_proxy endpoint then ok e else later

unfoldable pub get_endpoint : Query → EndpointType → Result Endpoint
unfolding find_endpoint
get_endpoint q endpoint = find_endpoint q.endpoints endpoint

-- A member of a Json::Value, and the assignments that make one, in order.
pub data JsonScalar : Type 0 where
  text : Text → JsonScalar
  number : ℕ → JsonScalar

abbrev pub JsonObject : Type 0
JsonObject = List (Text × JsonScalar)

-- sanitize
unfoldable pub sanitize : Text → Text
sanitize to_sanitize = map (λ c. if c == 0 then 32 else c) to_sanitize

-- The members that Endpoint::to_json assigns.
unfoldable pub endpoint_members : Endpoint → JsonObject
endpoint_members e = elim e.type_of_proxy [
  | ingress_t ↦ (Key.ingress_ip, text e.ip) ∷ (Key.sock_ingress, text e.socket_id) ∷ []
  | egress_t ↦ (Key.egress_ip, text e.ip) ∷ (Key.sock_egress, text e.socket_id) ∷ []
]

-- Endpoint::to_json; `styled` is toStyledString of jsoncpp.
unfoldable pub endpoint_to_json : (JsonObject → Text) → Endpoint → Text
unfolding endpoint_members sanitize
endpoint_to_json styled e = sanitize (styled (endpoint_members e))

-- The loop of Query::to_json over the endpoints.
unfoldable pub endpoints_members : List Endpoint → JsonObject
endpoints_members [] = []
endpoints_members (e ∷ es) =
    elim e.type_of_proxy [
      | ingress_t ↦ (Key.sock_ingress, text e.socket_id) ∷ (Key.ingress_ip, text e.ip) ∷ []
      | egress_t ↦ (Key.sock_egress, text e.socket_id) ∷ (Key.egress_ip, text e.ip) ∷ []
    ]
    ++ endpoints_members es

-- The name of a protocol in queries.
abbrev pub protocol_name : ProtocolType → Text
protocol_name tcp = codes "tcp"
protocol_name udp = codes "udp"

-- The members that Query::to_json assigns.
unfoldable pub query_members : Query → JsonObject
unfolding endpoints_members
query_members q =
    (Key.src_ip, text q.ip_src)
    ∷ (Key.dst_ip, text q.ip_dst)
    ∷ (Key.src_port, number q.port_src)
    ∷ (Key.dst_port, number q.port_dst)
    ∷ (Key.sfc_id, text q.id_sfc)
    ∷ (Key.protocol, text (protocol_name q.prt))
    ∷ endpoints_members q.endpoints

-- Query::to_json
unfoldable pub query_to_json : (JsonObject → Text) → Query → Text
unfolding query_members sanitize
query_to_json styled q = sanitize (styled (query_members q))

-- The calls of add_path that both branches of to_url make.
unfoldable pub connection_url : UrlBuilder.UrlBuilder → Query → Result UrlBuilder.UrlBuilder
connection_url b q = do
  b ← add_path b q.ip_src
  b ← add_path b q.ip_dst
  b ← add_path b (to_string q.port_src)
  b ← add_path b (to_string q.port_dst)
  b ← add_path b q.id_sfc
  add_path b (protocol_name q.prt)

-- Query::to_url. `none` for the type reads a member that no constructor has set; the code of the
-- program never does.
unfoldable pub to_url : Query → Result Text
unfolding connection_url
to_url q = do
  b ← add_path UrlBuilder.new Key.endpoint_prefix
  elim q.endpoints [
    | [] ↦ do
      b ← add_path b (elim q.type [ some ingress_t ↦ Key.ingress | _ ↦ Key.egress ])
      b ← connection_url b q
      ok (build b)
    | e ∷ [] ↦ do
      b ← add_path b (elim e.type_of_proxy [ ingress_t ↦ Key.egress | egress_t ↦ Key.ingress ])
      b ← connection_url b q
      b ← add_path b e.ip
      b ← add_path b e.socket_id
      ok (build b)
    | e ∷ f ∷ es ↦ err query_ambiguous
  ]
