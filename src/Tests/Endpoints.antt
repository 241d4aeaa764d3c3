-- ===== src/Tests/Endpoints.antt =====
-- The exchanges of an endpoint with a service that answers every request with an id.
use ironhide.Base.{◌≡◌, refl, true, [], ◌∷◌, some, none, if◌then◌else◌}
use ironhide.Base.Result.{ok, bind}
use ironhide.Base.Text.{Text, c_str, codes, to_string}
use ironhide.Base.Int.{pos, negsuc}
use ironhide.StdMap.Laws.{OrdersOn, or_else}
use ironhide.Entry.{ConnectionEntry, entry_eq, entry_lt}
use ironhide.Entry.Order.{OrdersOn-entry_lt, SameButPort, SameButPort-asym}
use ironhide.Db.{ingress_t, udp}
use ironhide.Db.Key
use ironhide.Db.Address.{Address}
use ironhide.Db.Query.{Query, endpoint_to_json, query_to_json, to_url}
use ironhide.Db.Query.Builder.{builder, build_query}
use ironhide.Db.Roulette.Backend.{Backend, Net}
use ironhide.Db.Roulette.Replies.{handle_req, id_of, found_entry, found_route}
use ironhide.Db.UrlBuilder
use ironhide.Db.Roulette.Client
use ironhide.Db.Roulette.Client.{
  create_entry, update_endpoint, get_entry, get_route_list, item_url, path_url, put_request,
  get_request, delete_request,
}
use ironhide.Db.Roulette.Requests.{methods-exchange, exchange}
use ironhide.Endpoint.State.{
  Endpoint, add_query, add_entry, delete_entry, no_address, retrieve_connection_2,
}
use ironhide.Endpoint.Connections.{
  connection, HasConnections, connection-add_entry, connection-delete_entry,
}
use ironhide.Endpoint.Remote.{delete_entry-add_entry, outcome, id_after}
use ironhide.StdMap.{find}
use ironhide.Tests.Data.{entry, other_entry, ingress}

abbrev pub service : Backend
service = record {
  Value = Text;
  easy_init = λ _. true;
  perform = λ _ _. (true, codes "1" ∷ codes "7" ∷ []);
  parse = some;
  member = λ v _. ok v;
  equals = λ _ _. true;
  as_string = ok;
  as_uint = λ _. ok 80;
  elements = λ v. v ∷ [];
  styled = λ _. codes "{}";
}

abbrev pub roulette : Address
roulette = record { address = codes "r"; port = 57684; has_http_prefix = true }

abbrev pub net : Net
net = record { sent = []; open_handles = 0 }

abbrev query : Query
query = build_query builder

methods-exchange_example :
    (create_entry service roulette query net
      ≡ exchange service
          (path_url service roulette Key.endpoint_prefix)
          (λ u. put_request service u (query_to_json service.styled query))
          (id_of service)
          net)
    × (update_endpoint service roulette query ingress net
        ≡ exchange service
            (bind (to_url query) (path_url service roulette))
            (λ u. put_request service u (endpoint_to_json service.styled ingress))
            (handle_req service)
            net)
    × (get_entry service roulette (codes "17") net
        ≡ exchange service
            (item_url service roulette Key.endpoint_prefix (codes "17"))
            (get_request service)
            (found_entry service)
            net)
    × (Client.delete_entry service roulette (codes "17") net
        ≡ exchange service
            (item_url service roulette Key.endpoint_prefix (codes "17"))
            (delete_request service)
            (handle_req service)
            net)
    × (get_route_list service roulette 3 net
        ≡ exchange service
            (item_url service roulette Key.route_prefix (to_string 3))
            (get_request service)
            (found_route service)
            net)
methods-exchange_example = methods-exchange service roulette query ingress (codes "17") 3 net refl

-- The entries that differ from `entry` in the client's port.
abbrev Clients : ConnectionEntry → Type 0
Clients = SameButPort entry

clients_order : OrdersOn entry_lt Clients
clients_order = OrdersOn-entry_lt Clients (SameButPort-asym entry)

abbrev pub endpoint : Endpoint
endpoint = record {
  connection_map = (other_entry, (pos 4, no_address)) ∷ [];
  map_to_remote = [];
  my_ip = codes "10.0.0.3";
  ext_port = 8787;
  int_port = 8788;
  roulette = roulette;
  sfc_map = [];
  net = net;
}

endpoint-HasConnections : HasConnections Clients clients_order endpoint
endpoint-HasConnections = (refl, tt, tt)

connection-add_entry_example :
    let s' = (add_entry service entry (pos 9) no_address ingress_t udp endpoint).1 in
    (connection Clients clients_order s' other_entry ≡ (
      if entry_eq entry other_entry
      then some (or_else (connection Clients clients_order endpoint entry) (pos 9, no_address))
      else connection Clients clients_order endpoint other_entry))
    × HasConnections Clients clients_order s'
connection-add_entry_example =
    connection-add_entry Clients clients_order service entry other_entry (pos 9) no_address
      ingress_t udp endpoint refl refl endpoint-HasConnections

connection-delete_entry_example :
    let s' = (delete_entry service other_entry endpoint).1 in
    (retrieve_connection_2 s' other_entry ≡ (
      if entry_eq other_entry other_entry
      then (negsuc 0, no_address)
      else retrieve_connection_2 endpoint other_entry))
    × HasConnections Clients clients_order s'
connection-delete_entry_example =
    connection-delete_entry Clients clients_order service other_entry other_entry endpoint refl refl
      endpoint-HasConnections

-- The query for `entry`, and what it leaves at the service.
abbrev asked : Query
asked = add_query endpoint entry (pos 9) ingress_t udp

abbrev net' : Net
net' = (create_entry service roulette asked net).1

created : create_entry service roulette asked net ≡ (ok (codes "17"), net')
unfolding create_entry Client.curl_req_handle path_url UrlBuilder.add_path Client.transfer id_of
created = refl

delete_entry-add_entry_example :
    let s' = (add_entry service entry (pos 9) no_address ingress_t udp endpoint).1 in
    let r = delete_entry service entry s' in
    let deleted = Client.delete_entry service roulette (c_str (codes "17")) net' in
    (r.0 ≡ outcome deleted.0)
    × (r.1.net ≡ deleted.1)
    × (find entry_lt entry r.1.connection_map ≡ none)
    × (find entry_lt entry r.1.map_to_remote ≡ id_after (codes "17") deleted.0)
delete_entry-add_entry_example =
    delete_entry-add_entry Clients clients_order service entry (pos 9) no_address ingress_t udp
      endpoint 49 (55 ∷ []) net' refl endpoint-HasConnections tt created
