-- ===== src/Endpoint/State.antt =====
-- src/endpoint/endpoint.h and endpoint.cpp: the state of an Endpoint and its methods.
pub use ironhide.Socket.{SockaddrIn, no_address}
use ironhide.Base.{ℕ, List, [], ◌∷◌, ◌++◌, none, some, if◌then◌else◌, take}
use ironhide.Base.Result.{ok}
use ironhide.Base.Int.{ℤ, negsuc, int_to_string}
use ironhide.Base.Exec.{Exec, lift, gets, modify, ◌>>=◌, ◌>>◌}
use ironhide.Base.Text.{Text, codes, to_string, text_eq, c_str}
use ironhide.StdMap.{find, insert, assign, erase}
use ironhide.Entry.{ConnectionEntry, entry_lt}
use ironhide.Classifier.{SfcMap}
use ironhide.Db.{EndpointType, ingress_t, ProtocolType}
use ironhide.Db.Address.{Address, address_of_text}
use ironhide.Db.Query
use ironhide.Db.Query.{Query}
use ironhide.Db.Query.Builder.{
  builder, set_id_sfc, set_ip_src, set_ip_dst, set_port_src, set_port_dst, set_protocol,
  set_endpoint, set_endpoint_type, build_query,
}
use ironhide.Db.Roulette.Backend.{Net, Backend}
use ironhide.Db.Roulette.Client

-- sock_conn_t
abbrev pub SockConn : Type 0
SockConn = ℤ × SockaddrIn

-- class Endpoint, with its static members `roulette_` and `classifier_` and the state of curl.
pub record Endpoint : Type 0 where
  pub connection_map : List (ConnectionEntry × SockConn)
  pub map_to_remote : List (ConnectionEntry × Text)
  pub my_ip : Text
  pub ext_port : ℕ
  pub int_port : ℕ
  pub roulette : Address
  pub sfc_map : SfcMap
  pub net : Net

-- What getifaddrs lists: a name, and an address of a family, if there is one.
pub data IfaAddr : Type 0 where
  null : IfaAddr
  inet : Text → IfaAddr
  inet6 : Text → IfaAddr
  other : IfaAddr

pub record Ifaddrs : Type 0 where
  pub ifa_name : Text
  pub ifa_addr : IfaAddr

-- set_my_ip
unfoldable pub set_my_ip : Endpoint → Text → Endpoint
set_my_ip s ip = record s { my_ip = ip }

-- The body of the loop of retrieve_ip: strncmp over the four bytes of "eth0".
unfoldable pub see_interface : Endpoint → Ifaddrs → Endpoint
unfolding set_my_ip
see_interface s ifa = elim ifa.ifa_addr [
  | inet address ↦ if text_eq (take 4 ifa.ifa_name) (codes "eth0") then set_my_ip s address else s
  | _ ↦ s
]

-- retrieve_ip, over the list of getifaddrs
unfoldable pub retrieve_ip : Endpoint → List Ifaddrs → Endpoint
unfolding see_interface
retrieve_ip s [] = s
retrieve_ip s (ifa ∷ rest) = retrieve_ip (see_interface s ifa) rest

-- Endpoint(ext_port, int_port)
unfoldable pub new_endpoint : Address → SfcMap → Net → List Ifaddrs → ℕ → ℕ → Endpoint
unfolding retrieve_ip
new_endpoint roulette sfc_map net ifaddrs ext_port int_port =
    retrieve_ip
      (record {
        connection_map = [];
        map_to_remote = [];
        my_ip = [];
        ext_port = ext_port;
        int_port = int_port;
        roulette = roulette;
        sfc_map = sfc_map;
        net = net;
      })
      ifaddrs

-- A call of a method of `roulette_`.
unfoldable pub on_net : {A : Type 0} → Exec Net A → Exec Endpoint A
on_net m s = let (r, net) = m s.net in (r, record s { net = net })

-- The endpoint of this machine for a query: `my_ip:int_port` and the socket.
unfoldable pub local_endpoint : Endpoint → ℤ → EndpointType → Query.Endpoint
local_endpoint s fd endpoint = record {
  ip = s.my_ip ++ codes ":" ++ to_string s.int_port;
  socket_id = int_to_string fd;
  type_of_proxy = endpoint;
}

-- The query of add_entry.
unfoldable pub add_query : Endpoint → ConnectionEntry → ℤ → EndpointType → ProtocolType → Query
unfolding local_endpoint
add_query s ce fd endpoint protocol =
    let b = set_protocol (set_id_sfc builder ce.sfcid) protocol in
    let b' = set_endpoint b (local_endpoint s fd endpoint) in
    let b'' = set_ip_dst (set_ip_src b' ce.ip_src) ce.ip_dst in
    build_query (set_port_dst (set_port_src b'' ce.port_src) ce.port_dst)

-- The query of update_entry.
unfoldable pub update_query : ConnectionEntry → Query
update_query ce =
    let b = set_id_sfc (set_endpoint_type builder ingress_t) ce.sfcid in
    let b' = set_ip_dst (set_ip_src b ce.ip_src) ce.ip_dst in
    let b'' = set_port_dst (set_port_src b' ce.port_src) ce.port_dst in
    build_query (set_protocol b'' ce.prt)

abbrev pub insert_connection : ConnectionEntry → SockConn → Endpoint → Endpoint
insert_connection ce conn s = record s { connection_map = insert entry_lt ce conn s.connection_map }

-- The id of a new entry is kept, unless it is empty.
unfoldable pub remember : ConnectionEntry → Text → Endpoint → Endpoint
remember ce [] s = s
remember ce (c ∷ t) s = record s { map_to_remote = assign entry_lt ce (c ∷ t) s.map_to_remote }

-- map_to_remote[ce]: an entry that is missing is made, with an empty id; and the id.
unfoldable pub subscript_remote : ConnectionEntry → Endpoint → Endpoint
subscript_remote ce s = elim (find entry_lt ce s.map_to_remote) [
  | none ↦ record s { map_to_remote = assign entry_lt ce [] s.map_to_remote }
  | some id ↦ s
]

unfoldable pub remote_id : ConnectionEntry → Endpoint → Text
remote_id ce s = elim (find entry_lt ce s.map_to_remote) [ none ↦ [] | some id ↦ id ]

module _ (backend : Backend) where
  -- add_entry
  unfoldable pub add_entry :
      ConnectionEntry → ℤ → SockaddrIn → EndpointType → ProtocolType → Exec Endpoint (Unit {0})
  unfolding on_net
  add_entry ce fd sockin endpoint protocol = do
    modify (insert_connection ce (fd, sockin))
    query ← gets (λ s. add_query s ce fd endpoint protocol)
    roulette ← gets (λ (s : Endpoint). s.roulette)
    response ← on_net (Client.create_entry backend roulette query)
    modify (remember ce response)

  -- update_entry
  unfoldable pub update_entry :
      ConnectionEntry → ℤ → SockaddrIn → EndpointType → Exec Endpoint (Unit {0})
  unfolding on_net
  update_entry ce fd sockin endpoint = do
    roulette ← gets (λ (s : Endpoint). s.roulette)
    e ← gets (λ s. local_endpoint s fd endpoint)
    done ← on_net (Client.update_endpoint backend roulette (update_query ce) e)
    modify (insert_connection ce (fd, sockin))

  -- The branch of delete_entry for a connection that is in the map.
  unfoldable pub delete_found : ConnectionEntry → Exec Endpoint (Unit {0})
  unfolding on_net
  delete_found ce = do
    modify (λ s. record s { connection_map = erase entry_lt ce s.connection_map })
    modify (subscript_remote ce)
    id ← gets (remote_id ce)
    roulette ← gets (λ (s : Endpoint). s.roulette)
    done ← on_net (Client.delete_entry backend roulette (c_str id))
    modify (λ s. record s { map_to_remote = erase entry_lt ce s.map_to_remote })

  -- delete_entry
  unfoldable pub delete_entry : ConnectionEntry → Exec Endpoint (Unit {0})
  unfolding delete_found
  delete_entry ce s = elim (find entry_lt ce s.connection_map) [
    | none ↦ (ok tt, s)
    | some conn ↦ delete_found ce s
  ]

-- retrieve_connection_2
unfoldable pub retrieve_connection_2 : Endpoint → ConnectionEntry → SockConn
retrieve_connection_2 s ce = elim (find entry_lt ce s.connection_map) [
  | none ↦ (negsuc 0, no_address)
  | some conn ↦ conn
]

-- set_remote
unfoldable pub set_remote : Text → Exec Endpoint (Unit {0})
set_remote ip = do
  roulette ← lift (address_of_text ip)
  modify (λ s. record s { roulette = roulette })
