-- ===== src/Db/Roulette/Replies.antt =====
-- src/db/dbquery.cpp: what DBQuery reads off the replies of the service.
use ironhide.Base.{ℕ, Bool, true, false, List, [], ◌∷◌, none, some, if◌then◌else◌}
use ironhide.Base.Result.{Result, ok, err, failure, bind, ◌>>=◌}
use ironhide.Base.Text.{Text, codes}
use ironhide.Wire.{u16}
use ironhide.Db.Types.{ingress_t, egress_t, tcp, udp}
use ironhide.Db.Key
use ironhide.Db.Address.{Address, address_of}
use ironhide.Db.Query.{Endpoint, Query}
use ironhide.Db.Query.Builder.{
  builder, set_item_id, set_id_sfc, set_ip_src, set_ip_dst, set_port_src, set_port_dst,
  set_protocol, set_endpoint, build_query,
}
use ironhide.Db.Roulette.Backend.{Backend}

module _ (backend : Backend) where
  open backend use {Value, parse, member, equals, as_string, as_uint, elements}

  -- is_op_ok
  unfoldable pub is_op_ok : Text → Result Bool
  is_op_ok req = elim (parse req) [
    | none ↦ err failure
    | some response ↦ bind (member response Key.result) (λ r. ok (equals r Key.ok))
  ]

  -- handle_req with is_op_ok for its callback, as all its callers bind it
  unfoldable pub handle_req : Bool × Text → Result Bool
  unfolding is_op_ok
  handle_req (true, req) = is_op_ok req
  handle_req (false, req) = err failure

  -- The content of a reply, parsed once more.
  unfoldable pub content_of : Text → Result Value
  content_of req = elim (parse req) [
    | none ↦ err failure
    | some response ↦ member response Key.content
  ]

  -- A member of an object as a text, and as a number.
  unfoldable pub string_at : Value → Text → Result Text
  string_at v key = bind (member v key) as_string

  unfoldable pub uint_at : Value → Text → Result ℕ
  uint_at v key = bind (member v key) as_uint

  -- The entry that get_entry reads off the content of a reply.
  unfoldable pub entry_of : Value → Result Query
  unfolding string_at uint_at
  entry_of content = do
    prt ← member content Key.protocol
    ingress_ip ← string_at content Key.ingress_ip
    sock_ingress ← string_at content Key.sock_ingress
    egress_ip ← string_at content Key.egress_ip
    sock_egress ← string_at content Key.sock_egress
    id ← member content (codes "_id")
    item_id ← string_at id (codes "$oid")
    id_sfc ← string_at content Key.sfc_id
    ip_src ← string_at content Key.src_ip
    ip_dst ← string_at content Key.dst_ip
    port_src ← uint_at content Key.src_port
    port_dst ← uint_at content Key.dst_port
    let prt' = if equals prt (codes "tcp") then tcp else udp
    let b = set_ip_src (set_id_sfc (set_item_id builder item_id) id_sfc) ip_src
    let b' = set_port_dst (set_port_src (set_ip_dst b ip_dst) (u16 port_src)) (u16 port_dst)
    let ingress : Endpoint = record {
      ip = ingress_ip;
      socket_id = sock_ingress;
      type_of_proxy = ingress_t;
    }
    let egress : Endpoint = record {
      ip = egress_ip;
      socket_id = sock_egress;
      type_of_proxy = egress_t;
    }
    ok (build_query (set_endpoint (set_endpoint (set_protocol b' prt') ingress) egress))

  -- The addresses of a route.
  unfoldable pub routes_of : List Value → Result (List Address)
  unfolding string_at uint_at
  routes_of [] = ok []
  routes_of (address ∷ rest) = bind (string_at address Key.address) (λ url.
      bind (uint_at address Key.port)
        (λ port. bind (routes_of rest) (λ routes. ok (address_of url (u16 port) ∷ routes))))

  -- What create_entry makes of a reply: the id in its content.
  unfoldable pub id_of : Bool × Text → Result Text
  unfolding handle_req content_of string_at
  id_of reply = do
    done ← handle_req reply
    if done then (do content ← content_of reply.1; string_at content (codes "id")) else ok []

  -- What get_entry makes of a reply: the entry, or an empty one.
  unfoldable pub found_entry : Bool × Text → Result Query
  unfolding handle_req content_of entry_of builder build_query
  found_entry reply = do
    done ← handle_req reply
    if done then (do content ← content_of reply.1; entry_of content) else ok (build_query builder)

  -- What get_route_list makes of a reply: the addresses, or none.
  unfoldable pub found_route : Bool × Text → Result (List Address)
  unfolding handle_req content_of routes_of
  found_route reply = do
    done ← handle_req reply
    if done
        then (do content ← content_of reply.1; si ← member content Key.si; routes_of (elements si))
        else ok []
