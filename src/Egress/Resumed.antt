-- ===== src/Egress/Resumed.antt =====
-- An exchange of TCP at the egress on a connection that is there: the payload leaves on it, and the
-- answer goes back.
use ironhide.Base.{
  ℕ, ◌-◌, ◌≤◌, ◌*◌, ◌≡◌, ◌<◌, ◌∙◌, ap, List, [], ◌∷◌, ◌++◌, append_assoc, length, arith, false,
  false,
}
use ironhide.Base.Result.{ok}
use ironhide.Base.Int.{ℤ, pos}
use ironhide.Base.Exec.{◌>>=◌}
use ironhide.Base.Text.{Text}
use ironhide.Packet.{Iphdr, Tcphdr, encode_iphdr, encode_udphdr}
use ironhide.Packet.Forge.Buffers.{cut_at_nul, length-cut_at_nul}
use ironhide.Sfc.{SfcHeader, IsHeader, encode_header}
use ironhide.Classifier.Chains.{IsSfcMap}
use ironhide.Entry.{ConnectionEntry}
use ironhide.Db.{tcp}
use ironhide.Db.Address.{Address}
use ironhide.Db.Roulette.Backend.{Backend}
use ironhide.Endpoint.State.{retrieve_connection_2}
use ironhide.Socket.{Kernel, Calls, is_minus_one, send, sendto, inet, call_}
use ironhide.Socket.Held.{delivered, said, connections}
use ironhide.Client.Tcp.Delivery.{Streams}
use ironhide.Client.Udp.Delivery.{Accepts, Book}
use ironhide.Process.{
  Process, Stream, receives, on_calls, routes, receive_one, sys_, ack, buffer_size,
}
use ironhide.Hop.{chain_entry}
use ironhide.Hop.Delivery.{hop_peer}
use ironhide.Ingress.{UdpPktMngmntArgs}
use ironhide.Ingress.Chain.{conn_type}
use ironhide.Ingress.Tcp.Sessions.{IsPacket}
use ironhide.Ingress.Tcp.Segments.{IsSegment}
use ironhide.Egress.{answer_header, manage_exiting_tcp_packets, manage_pkt_from_chain, run_task}
use ironhide.Egress.Answers.{asking, delivered-loops}
use ironhide.Egress.Connections.{manage_exiting_tcp_packets_lem}
use ironhide.Egress.Ports.{ports, behind_ports, ports-IsUdphdr, encode-ports}
use ironhide.Egress.Tasks.{manage_pkt_from_chain_lem}

module _ (int_to_ip : ℕ → Text) (ip_to_int : Text → ℕ) (backend : Backend) (kernel : Kernel)
    (book : Book) (accepts : Accepts kernel book) (streams : Streams kernel) where
  delivered-resumed_tcp :
      (pkt : List ℕ) (pkt_len : ℕ) (header : SfcHeader) (inner : List ℕ) (h : Iphdr) (t : Tcphdr)
      (payload : List ℕ) (ce : ConnectionEntry) (fd : ℤ) (byte : ℕ) (bytes : List ℕ) (rest : Stream)
      (first : Address) (path : List Address) (s : Process)
      → pkt ≡ encode_header header ++ inner
      → pkt_len ≡ length pkt
      → IsHeader header
      → IsSegment inner h t payload
      → 0 < length payload
      → IsSfcMap s.endpoint.sfc_map
      → IsPacket (byte ∷ bytes)
      → length (byte ∷ bytes) < buffer_size
      → is_minus_one fd ≡ false
      → ((calls : Calls)
          → (routes backend 0
              (asking (byte ∷ bytes) (record { endpoint = s.endpoint; calls = calls }))).0
            ≡ ok (first ∷ path))
      → let flh = answer_header int_to_ip ip_to_int header 0 (first ∷ path) in
        let (r, s') =
          manage_exiting_tcp_packets int_to_ip ip_to_int backend kernel pkt pkt_len ce fd
            (receives byte bytes rest)
            s in
        (r ≡ ok tt)
        × (next : ℤ) × (delivered s'.calls
            ≡ (encode_header flh ++ (byte ∷ bytes), hop_peer book first) ∷ delivered s.calls)
        × (said s'.calls ≡ (fd, cut_at_nul payload) ∷ said s.calls)
        × (connections s'.calls ≡ (next, hop_peer book first) ∷ connections s.calls)
  unfolding on_calls sys_ call_ receive_one delivered said connections
  delivered-resumed_tcp pkt pkt_len header inner h t payload ce fd byte bytes rest first path s
        packet whole hd d filled sfc p short there leads =
      let five : 5 ≤ t.doff = omega (arith, d.words) in
      let no_options : length {A = ℕ} [] ≡ (t.doff - 5) * 4 = rw (d.words) in
      let runs =
        manage_exiting_tcp_packets_lem int_to_ip ip_to_int backend kernel pkt pkt_len header h t []
          payload ce fd (receives byte bytes rest) s
          (packet ∙ ap (λ l. encode_header header ++ l) d.shape) whole hd d.ip d.tcp d.five five
          no_options in
      let goes =
        streams.sends s.calls fd (cut_at_nul payload) (omega (arith, length-cut_at_nul payload)) in
      let m = send fd (cut_at_nul payload) in
      let at : Process = record {
        endpoint = s.endpoint;
        calls = (m, kernel s.calls m) ∷ s.calls;
      } in
      let (done, sent, hushed, next, met) =
        (delivered-loops int_to_ip ip_to_int backend kernel book accepts fd header byte bytes rest
          first path at p short sfc
          (leads (receive_one fd (pos (length (byte ∷ bytes))) (byte ∷ bytes) at).1.calls)).1 in
      rw (runs, there) (done, next, sent, rw goes at hushed, met)

  -- A packet of the chain for a TCP connection that the egress has a socket for is acknowledged, and
  -- its payload, with zeros from its first NUL on, goes out on that socket, the one that the egress
  -- finds for the entry of the packet; no new connection to the server is made. The answer that the
  -- server gives on it goes, in one message, to the first address of the path that the service has
  -- for it, under a header of the other direction. The packet is a header with fields that fit and a
  -- TCP packet without options and with a payload; the answer is a packet that the classifier knows
  -- and shorter than the buffer; and the system does as it is asked.
  pub delivered-resumed :
      (args : UdpPktMngmntArgs) (header : SfcHeader) (inner : List ℕ) (h : Iphdr) (t : Tcphdr)
      (payload datagram : List ℕ) (byte : ℕ) (bytes : List ℕ) (rest : Stream) (first : Address)
      (path : List Address) (e : Process)
      → args.pkt ≡ encode_header header ++ inner
      → args.pkt_len ≡ length args.pkt
      → IsHeader header
      → IsSegment inner h t payload
      → 0 < length payload
      → IsSfcMap e.endpoint.sfc_map
      → IsPacket (byte ∷ bytes)
      → length (byte ∷ bytes) < buffer_size
      → let ce = chain_entry int_to_ip header tcp in
        let fd = (retrieve_connection_2 e.endpoint ce).0 in
        let flh = answer_header int_to_ip ip_to_int header 0 (first ∷ path) in
        is_minus_one fd ≡ false
        → ((calls : Calls)
            → (routes backend 0
                (asking (byte ∷ bytes) (record { endpoint = e.endpoint; calls = calls }))).0
              ≡ ok (first ∷ path))
        → let (r, e') =
            (manage_pkt_from_chain int_to_ip ip_to_int backend kernel args >>= λ task.
            run_task int_to_ip ip_to_int backend kernel datagram task (receives byte bytes rest))
              e in
          (r ≡ ok tt)
          × (next : ℤ) × (delivered e'.calls
              ≡ (encode_header flh ++ (byte ∷ bytes), hop_peer book first)
                ∷ (ack, inet args.client_address)
                ∷ delivered e.calls)
          × (said e'.calls ≡ (fd, cut_at_nul payload) ∷ said e.calls)
          × (connections e'.calls ≡ (next, hop_peer book first) ∷ connections e.calls)
  unfolding run_task conn_type sys_ on_calls call_ delivered said connections
  delivered-resumed args header inner h t payload datagram byte bytes rest first path e packet whole
        hd d filled sfc p short there leads =
      let ce = chain_entry int_to_ip header tcp in
      let acks = sendto args.socket_fd ack (inet args.client_address) in
      let acked : Process = record e { calls = (acks, kernel e.calls acks) ∷ e.calls } in
      let goes =
        accepts.sends e.calls args.socket_fd ack (inet args.client_address) (omega arith) in
      let prt : conn_type h.protocol ≡ tcp = rw (d.six) in
      let shape : args.pkt
          ≡ encode_header header
            ++ (encode_iphdr h ++ (encode_udphdr (ports t) ++ (behind_ports t ++ payload))) =
        packet
        ∙ ap (λ l. encode_header header ++ l) d.shape
        ∙ ap (λ l. encode_header header ++ (encode_iphdr h ++ (l ++ payload))) (encode-ports t)
        ∙ ap (λ l. encode_header header ++ (encode_iphdr h ++ l))
            (append_assoc (encode_udphdr (ports t)) (behind_ports t) payload) in
      let tasked = rw prt at (
        manage_pkt_from_chain_lem int_to_ip ip_to_int backend kernel args header h (ports t)
          (behind_ports t ++ payload) e shape hd d.ip (ports-IsUdphdr t d.tcp) d.five) in
      let (done, next, sent, told, met) =
        delivered-resumed_tcp args.pkt args.pkt_len header inner h t payload ce
          (retrieve_connection_2 e.endpoint ce).0 byte bytes rest first path acked packet whole hd d
          filled sfc p short there leads in
      rw (tasked) (done, next, rw goes at sent, told, met)
