-- ===== src/Ingress/Tcp.antt =====
-- src/endpoint/ingress.cpp, manage_entering_tcp_packets: the connection of a client.
pub mod Closing
pub mod Opening
pub mod Naming
pub mod Segments
pub mod Sessions
pub mod Kept
use ironhide.Base.{ℕ, suc, Bool, true, false, List, [], ◌∷◌, ◌||◌, not, length, if◌then◌else◌}
use ironhide.Base.Result.{Result, ok, err, failure, exit_failure, Error}
use ironhide.Base.Int.{ℤ, pos, negsuc}
use ironhide.Base.Exec.{Exec, pure, raise, lift, ◌>>=◌, ◌>>◌}
use ironhide.Base.Text.{Text, stoi, c_str, text_eq}
use ironhide.Wire.{htons}
use ironhide.Packet.{Iphdr, Tcphdr, decode_iphdr, decode_tcphdr, zeros}
use ironhide.Packet.Retrieve.{retrieve_ip_tcp_header}
use ironhide.Sfc.{SfcHeader}
use ironhide.Entry.{ConnectionEntry}
use ironhide.Classifier.{classify_pkt}
use ironhide.Db.{tcp, ingress_t}
use ironhide.Db.Address.{Address}
use ironhide.Db.Roulette.Backend.{Backend}
use ironhide.Endpoint.State.{add_entry, delete_entry}
use ironhide.Socket.{Kernel, SockaddrIn, close}
use ironhide.Process.{
  Process, Stream, closes, fails, receives, on_classifier, on_endpoint, routes, receive_one, sys_,
}
use ironhide.Hop.{hop_header, forward}

-- tcp_pkt_mngmnt_args of src/server/servertcp.h
pub record TcpPktMngmntArgs : Type 0 where
  pub new_socket_fd : ℤ
  pub client_address : SockaddrIn

-- The local variables that the loop keeps.
pub record Locals : Type 0 where
  pub sfcid : Text
  pub prev_sfcid : Text
  pub first_pkt : Bool
  pub db_error : Bool
  pub headers : Iphdr × Tcphdr

unfoldable pub new_locals : Locals
new_locals = record {
  sfcid = [];
  prev_sfcid = [];
  first_pkt = true;
  db_error = false;
  headers = (decode_iphdr (zeros 20), decode_tcphdr (zeros 20));
}

-- The entry of a connection.
unfoldable pub connection_entry : (ℕ → Text) → Iphdr × Tcphdr → Text → ConnectionEntry
connection_entry int_to_ip headers sfcid = record {
  ip_src = int_to_ip headers.0.saddr;
  ip_dst = int_to_ip headers.0.daddr;
  port_src = htons headers.1.source;
  port_dst = htons headers.1.dest;
  sfcid = sfcid;
  prt = tcp;
}

-- The header for the first hop of a packet of a connection.
unfoldable pub tcp_header : (ℕ → Text) → (Text → ℕ) → Iphdr × Tcphdr → ℕ → List Address → SfcHeader
unfolding hop_header
tcp_header int_to_ip ip_to_int headers p_id path =
    hop_header ip_to_int p_id (c_str (int_to_ip headers.0.saddr)) headers.1.source
      (c_str (int_to_ip headers.0.daddr)) headers.1.dest 0 path

-- `catch (failure &e)`
unfoldable pub caught : {A : Type 0} → A → Error → Result A
caught a failure = ok a
caught a e = err e

unfoldable pub catch_failure : {S A : Type 0} → Exec S A → A → Exec S A
unfolding caught
catch_failure m a s = elim (m s).0 [ ok x ↦ (ok x, (m s).1) | err e ↦ (caught a e, (m s).1) ]

module _ (int_to_ip : ℕ → Text) (ip_to_int : Text → ℕ) (backend : Backend) (kernel : Kernel) where
  -- The block under `try`, with what it leaves of the local variables, and whether the loop goes on.
  unfoldable pub forward_first : TcpPktMngmntArgs → List ℕ → Locals → Exec Process (Locals × Bool)
  unfolding connection_entry tcp_header on_endpoint routes forward
  forward_first args pkt v = do
    let ce = connection_entry int_to_ip v.headers v.sfcid
    on_endpoint (add_entry backend ce args.new_socket_fd args.client_address ingress_t tcp)
    p_id ← lift (stoi v.sfcid)
    path ← routes backend p_id
    sent ← forward kernel pkt (length pkt) (tcp_header int_to_ip ip_to_int v.headers p_id) path
    if sent
        then pure (record v { prev_sfcid = v.sfcid; first_pkt = false }, true)
        else pure (v, false)

  -- A packet that was received.
  unfoldable pub manage_packet : TcpPktMngmntArgs → List ℕ → Locals → Exec Process (Locals × Bool)
  unfolding on_classifier catch_failure forward_first
  manage_packet args pkt v = do
    sfcid ← on_classifier (classify_pkt pkt (length pkt))
    let v' = record v { sfcid = sfcid }
    if v.first_pkt || not (text_eq (c_str sfcid) (c_str v.prev_sfcid))
        then (do
          headers ← lift (retrieve_ip_tcp_header pkt)
          let w = record v' { headers = headers }
          catch_failure (forward_first args pkt w) (record w { db_error = true }, true))
        else pure (v', true)

  -- The loop, to its local variables and whether the client has disconnected.
  unfoldable pub receive_loop : TcpPktMngmntArgs → Stream → Locals → Exec Process (Locals × Bool)
  unfolding receive_one manage_packet
  receive_loop args fails v = receive_one args.new_socket_fd (negsuc 0) [] >> raise exit_failure
  receive_loop args closes v = receive_one args.new_socket_fd (pos 0) [] >> pure (v, true)
  receive_loop args (receives byte bytes rest) v = do
    receive_one args.new_socket_fd (pos (suc (length bytes))) (byte ∷ bytes)
    r ← manage_packet args (byte ∷ bytes) v
    if r.1 then receive_loop args rest r.0 else pure (r.0, false)

  -- What follows the loop.
  unfoldable pub end_connection : TcpPktMngmntArgs → Locals × Bool → Exec Process (Unit {0})
  unfolding connection_entry on_endpoint sys_
  end_connection args r = do
    if r.1
        then on_endpoint (delete_entry backend (connection_entry int_to_ip r.0.headers r.0.sfcid))
        else pure tt
    if r.0.db_error then sys_ kernel (close args.new_socket_fd) else pure tt

  -- manage_entering_tcp_packets
  unfoldable pub manage_entering_tcp_packets : TcpPktMngmntArgs → Stream → Exec Process (Unit {0})
  unfolding new_locals receive_loop end_connection
  manage_entering_tcp_packets args stream =
      receive_loop args stream new_locals >>= end_connection args
