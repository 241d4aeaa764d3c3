-- ===== src/Journey/Others.antt =====
-- What becomes of the connection of a client while the ingress works for others.
pub mod Datagrams
pub mod Packets
use ironhide.Base.{
  ℕ, ◌≡◌, ◌<◌, ◌∙◌, refl, ap, sym, subst, true, false, none, some, List, ◌∷◌, ◌++◌, length, arith,
  ◌⊎◌, inl, inr, Bool-cases,
}
use ironhide.Base.Text.{Text, codes}
use ironhide.StdMap.Laws.{OrdersOn, or_else}
use ironhide.Packet.{Iphdr, Udphdr, encode_udphdr}
use ironhide.Sfc.{SfcHeader, IsHeader, encode_header}
use ironhide.Entry.{ConnectionEntry, entry_eq, entry_lt}
use ironhide.Entry.Order.{entry_eq_iff}
use ironhide.Classifier.Chains.{IsSfcMap}
use ironhide.Db.{udp, ingress_t}
use ironhide.Db.Roulette.Backend.{Backend}
use ironhide.Endpoint.State.{Endpoint, SockConn, add_entry, delete_entry, retrieve_connection_2}
use ironhide.Endpoint.Connections.{
  connection, HasConnections, connection-add_entry, connection-delete_entry, find-delete_entry,
}
use ironhide.Socket.{Kernel, Calls, sendto, inet, is_negative, call, call_}
use ironhide.Process.{Process, on_endpoint, on_calls, sys, sys_, ack}
use ironhide.Hop.{chain_entry}
use ironhide.Ingress.{UdpPktMngmntArgs, packet_entry, manage_entering_udp_packets}
use ironhide.Ingress.Clients.{classified_udp, entering-clients}
use ironhide.Ingress.Delivery.{known}
use ironhide.Ingress.Kept.{entering_udp-IsSteady}
use ironhide.Ingress.Chain.{manage_pkt_from_chain}
use ironhide.Ingress.Chain.Answers.{manage_pkt_from_chain-udp}
use ironhide.Ingress.Chain.Kept.{from_chain-IsSteady}
use ironhide.Journey.{IsDatagram, length-IsDatagram}
use ironhide.Base.Int.{pos}
use ironhide.Base.Exec.{◌>>◌, ◌>>=◌}
use ironhide.Packet.{Tcphdr}
use ironhide.Process.{Stream, receive_one}
use ironhide.Ingress.Tcp.{
  TcpPktMngmntArgs, new_locals, connection_entry, manage_packet, receive_loop, end_connection,
}
use ironhide.Ingress.Tcp.Sessions.{IsSession}
use ironhide.Ingress.Tcp.Segments.{IsSegment}
use ironhide.Ingress.Tcp.Opening.{forwarding}
use ironhide.Base.Exec.{Keeps-bind}
use ironhide.Base.{Bool, []}
use ironhide.Ingress.Tcp.{Locals}
use ironhide.Ingress.Kept.{Enters, entering_udp-On}
use ironhide.Ingress.Chain.Kept.{Answers, from_chain-On}
use ironhide.Ingress.Tcp.Kept.{Opens, manage_packet-On, end_connection-On}
use ironhide.Process.Kept.{On, receive_one-On}
use ironhide.Process.Served.{IsServed, IsOther, IsServed-Invariant}

module _ {ℓ} (P : ConnectionEntry → Type ℓ) (ord : OrdersOn entry_lt P) (int_to_ip : ℕ → Text)
    (ip_to_int : Text → ℕ) (backend : Backend) (kernel : Kernel) (ce : ConnectionEntry) where
  abbrev Other : ConnectionEntry → Type ℓ
  Other = IsOther P ord backend ce

  -- Other work of the ingress, of any threads and with any packets: UDP packets that enter, packets
  -- from the chain, and what the thread of a TCP connection does for a packet that it receives, in
  -- any state of its local variables, and when its client disconnects. Entries that are added are in
  -- `P`, and entries that are deleted are of others.
  pub data Others (s : Process) : Process → Type ℓ where
    waits : Others s s
    enters :
        {s' : Process} (args : UdpPktMngmntArgs)
        → Others s s'
        → Enters P int_to_ip args
        → Others s (manage_entering_udp_packets int_to_ip ip_to_int backend kernel args s').1
    answers :
        {s' : Process} (args : UdpPktMngmntArgs)
        → Others s s'
        → Answers Other int_to_ip args
        → Others s (manage_pkt_from_chain int_to_ip backend kernel args s').1
    handles :
        {s' : Process} (args : TcpPktMngmntArgs) (pkt : List ℕ) (v : Locals)
        → Others s s'
        → Opens P int_to_ip pkt
        → Others s
            ((receive_one args.new_socket_fd (pos (length pkt)) pkt
                >> manage_packet int_to_ip ip_to_int backend kernel args pkt v)
              s').1
    disconnects :
        {s' : Process} (args : TcpPktMngmntArgs) (r : Locals × Bool)
        → Others s s'
        → (r.1 ≡ true → Other (connection_entry int_to_ip r.0.headers r.0.sfcid))
        → Others s
            ((receive_one args.new_socket_fd (pos 0) []
                >> end_connection int_to_ip ip_to_int backend kernel args r)
              s').1

  module _ (c : SockConn) (p : P ce) where
    abbrev Served : Endpoint → Type ℓ
    Served = IsServed P ord backend ce c

    Others-IsServed : {s s' : Process} → Others s s' → On Served s → On Served s'
    Others-IsServed waits v = v
    Others-IsServed (enters {s'} args before q) v =
        entering_udp-On P Other Served int_to_ip ip_to_int backend kernel
          (IsServed-Invariant P ord backend ce c p) args q s' (Others-IsServed before v)
    Others-IsServed (answers {s'} args before q) v =
        from_chain-On P Other Served int_to_ip backend kernel
          (IsServed-Invariant P ord backend ce c p) args q s' (Others-IsServed before v)
    Others-IsServed (handles {s'} args pkt w before q) v =
        Keeps-bind (On Served) (receive_one args.new_socket_fd (pos (length pkt)) pkt)
          (λ _. manage_packet int_to_ip ip_to_int backend kernel args pkt w)
          (receive_one-On Served args.new_socket_fd (pos (length pkt)) pkt)
          (λ _.
            manage_packet-On P Other Served int_to_ip ip_to_int backend kernel
              (IsServed-Invariant P ord backend ce c p) args pkt w q)
          s' (Others-IsServed before v)
    Others-IsServed (disconnects {s'} args r before q) v =
        Keeps-bind (On Served) (receive_one args.new_socket_fd (pos 0) [])
          (λ _. end_connection int_to_ip ip_to_int backend kernel args r)
          (receive_one-On Served args.new_socket_fd (pos 0) [])
          (λ _.
            end_connection-On P Other Served int_to_ip ip_to_int backend kernel
              (IsServed-Invariant P ord backend ce c p) args r q)
          s' (Others-IsServed before v)

  -- A client keeps its connection whatever else the ingress does, with any packets, well-formed or
  -- not, and whatever the services and the system answer, as long as no entry of its own is deleted:
  -- by a UDP answer from the chain for it, or by a TCP connection of that entry that ends. The
  -- connections stay in order, and the classifier's map as the classifier keeps it. That map is at
  -- first as the classifier keeps it, and all entries are from a set that operator< orders.
  pub connection-Others :
      (c : SockConn) (s s' : Process)
      → P ce
      → HasConnections P ord s.endpoint
      → IsSfcMap s.endpoint.sfc_map
      → connection P ord s.endpoint ce ≡ some c
      → Others s s'
      → (connection P ord s'.endpoint ce ≡ some c)
        × HasConnections P ord s'.endpoint
        × IsSfcMap s'.endpoint.sfc_map
  connection-Others c s s' p h sfc has others =
      let served = Others-IsServed c p others (record { found = has; ordered = h; sfc = sfc }) in
      (served.found, served.ordered, served.sfc)
