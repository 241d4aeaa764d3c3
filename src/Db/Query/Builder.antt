-- ===== src/Db/Query/Builder.antt =====
-- src/db/dbquery.h and dbquery.cpp: class Query::Builder of DBQuery.
use ironhide.Base.{ℕ, List, [], ◌∷◌, ◌++◌, Option, none, some, if◌then◌else◌}
use ironhide.Base.Text.{Text}
use ironhide.Db.Types.{EndpointType, ingress_t, ProtocolType, tcp, endpoint_type_eq}
use ironhide.Db.Query.{Endpoint, Query}

-- class Query::Builder. `Builder()` zeroes the members.
pub record Builder : Type 0 where
  pub item_id : Text
  pub ip_src : Text
  pub ip_dst : Text
  pub port_src : ℕ
  pub port_dst : ℕ
  pub prt : ProtocolType
  pub id_sfc : Text
  pub type : EndpointType
  pub endpoints : List Endpoint

unfoldable pub builder : Builder
builder = record {
  item_id = [];
  ip_src = [];
  ip_dst = [];
  port_src = 0;
  port_dst = 0;
  prt = tcp;
  id_sfc = [];
  type = ingress_t;
  endpoints = [];
}

-- The setters of plain members.
unfoldable pub set_item_id : Builder → Text → Builder
set_item_id b item_id = record b { item_id = item_id }

unfoldable pub set_ip_src : Builder → Text → Builder
set_ip_src b ip_src = record b { ip_src = ip_src }

unfoldable pub set_ip_dst : Builder → Text → Builder
set_ip_dst b ip_dst = record b { ip_dst = ip_dst }

unfoldable pub set_port_src : Builder → ℕ → Builder
set_port_src b port_src = record b { port_src = port_src }

unfoldable pub set_port_dst : Builder → ℕ → Builder
set_port_dst b port_dst = record b { port_dst = port_dst }

unfoldable pub set_protocol : Builder → ProtocolType → Builder
set_protocol b prt = record b { prt = prt }

unfoldable pub set_id_sfc : Builder → Text → Builder
set_id_sfc b id_sfc = record b { id_sfc = id_sfc }

unfoldable pub set_endpoint_type : Builder → EndpointType → Builder
set_endpoint_type b type = record b { type = type }

-- The loop of set_endpoint: an endpoint of the same type is erased and the new one goes last.
unfoldable pub replace_endpoint : List Endpoint → Endpoint → Option (List Endpoint)
replace_endpoint [] endpoint = none
replace_endpoint (e ∷ es) endpoint =
    let later = replace_endpoint es endpoint in
    if endpoint_type_eq e.type_of_proxy endpoint.type_of_proxy
    then some (es ++ endpoint ∷ [])
    else elim later [ none ↦ none | some es' ↦ some (e ∷ es') ]

-- set_endpoint
unfoldable pub set_endpoint : Builder → Endpoint → Builder
unfolding replace_endpoint
set_endpoint b endpoint = elim (replace_endpoint b.endpoints endpoint) [
  | none ↦ record b { endpoints = b.endpoints ++ endpoint ∷ [] }
  | some es ↦ record b { endpoints = es }
]

-- build
unfoldable pub build_query : Builder → Query
build_query b = record {
  item_id = b.item_id;
  ip_src = b.ip_src;
  ip_dst = b.ip_dst;
  port_src = b.port_src;
  port_dst = b.port_dst;
  prt = b.prt;
  id_sfc = b.id_sfc;
  endpoints = b.endpoints;
  type = elim b.endpoints [ [] ↦ some b.type | e ∷ es ↦ none ];
}
