-- ===== src/Egress/Streams.antt =====
-- A whole exchange of TCP at the egress: the payload leaves on a new connection to its server, and
-- the answer goes back.
use ironhide.Base.{
  ℕ, ◌-◌, ◌≤◌, ◌*◌, ◌≡◌, ◌<◌, ◌∙◌, ap, refl, List, [], ◌∷◌, ◌++◌, append_assoc, length, arith,
}
use ironhide.Base.Result.{ok}
use ironhide.Base.Int.{ℤ, pos, negsuc}
use ironhide.Base.Exec.{◌>>=◌}
use ironhide.Base.Text.{Text, c_str, to_string}
use ironhide.Wire.{htons}
use ironhide.Packet.{Iphdr, Tcphdr, encode_iphdr, encode_udphdr}
use ironhide.Packet.Forge.Buffers.{cut_at_nul, length-cut_at_nul}
use ironhide.Sfc.{SfcHeader, IsHeader, encode_header}
use ironhide.Classifier.Chains.{IsSfcMap}
use ironhide.Entry.{ConnectionEntry}
use ironhide.Db.{tcp, egress_t}
use ironhide.Db.Address.{Address}
use ironhide.Db.Roulette.Backend.{Backend}
use ironhide.Endpoint.State.{Endpoint, update_entry, retrieve_connection_2}
use ironhide.Socket.{Kernel, Calls, Peer, send, sendto, inet, resolved, call_}
use ironhide.Socket.Held.{delivered, said, connections}
use ironhide.Client.Tcp.{ClientTcp}
use ironhide.Client.Tcp.Delivery.{Streams, connections-connect_to_server}
use ironhide.Client.Udp.Delivery.{Accepts, Book}
use ironhide.Process.{
  Process, Stream, receives, on_endpoint, on_calls, routes, receive_one, sys_, ack, buffer_size,
}
use ironhide.Process.Kept.{update_entry-Steady}
use ironhide.Hop.{chain_entry}
use ironhide.Hop.Delivery.{hop_peer}
use ironhide.Ingress.{UdpPktMngmntArgs}
use ironhide.Ingress.Chain.{conn_type}
use ironhide.Ingress.Tcp.Sessions.{IsPacket}
use ironhide.Ingress.Tcp.Segments.{IsSegment}
use ironhide.Egress.{answer_header, manage_exiting_tcp_packets, manage_pkt_from_chain, run_task}
use ironhide.Egress.Answers.{asking, delivered-loops}
use ironhide.Egress.Connections.{manage_exiting_tcp_packets_lem}
use ironhide.Egress.Ports.{ports, behind_ports, ports-IsUdphdr, encode-ports}
use ironhide.Egress.Tasks.{manage_pkt_from_chain_lem}

-- The service takes the entry of the packet, with any connection, and has a route for the answer.
pub record ServesStream (backend : Backend) (ce : ConnectionEntry) (answer : List ℕ)
    (first : Address) (path : List Address) (e : Endpoint) : Type 0 where
  pub updates :
      (client : ClientTcp)
      → (update_entry backend ce client.sock client.serv_addr egress_t e).0 ≡ ok tt
  pub leads :
      (client : ClientTcp) (calls : Calls)
      → (routes backend 0 (
          asking answer (record {
            endpoint = (update_entry backend ce client.sock client.serv_addr egress_t e).1;
            calls = calls;
          }))).0
        ≡ ok (first ∷ path)

-- The address of the server that a header names.
abbrev pub server_peer : (ℕ → Text) → Book → SfcHeader → Peer
server_peer int_to_ip book header =
    resolved
      (book (c_str (int_to_ip header.destination_address))
        (to_string (htons header.destination_port))).ai_addr

module _ (int_to_ip : ℕ → Text) (ip_to_int : Text → ℕ) (backend : Backend) (kernel : Kernel)
    (book : Book) (accepts : Accepts kernel book) (streams : Streams kernel) where
  delivered-exiting_tcp :
      (pkt : List ℕ) (pkt_len : ℕ) (header : SfcHeader) (inner : List ℕ) (h : Iphdr) (t : Tcphdr)
      (payload : List ℕ) (ce : ConnectionEntry) (byte : ℕ) (bytes : List ℕ) (rest : Stream)
      (first : Address) (path : List Address) (s : Process)
      → pkt ≡ encode_header header ++ inner
      → pkt_len ≡ length pkt
      → IsHeader header
      → IsSegment inner h t payload
      → 0 < length payload
      → IsSfcMap s.endpoint.sfc_map
      → IsPacket (byte ∷ bytes)
      → length (byte ∷ bytes) < buffer_size
      → ServesStream backend ce (byte ∷ bytes) first path s.endpoint
      → let flh = answer_header int_to_ip ip_to_int header 0 (first ∷ path) in
        let (r, s') =
          manage_exiting_tcp_packets int_to_ip ip_to_int backend kernel pkt pkt_len ce
            (negsuc 0)
            (receives byte bytes rest)
            s in
        (r ≡ ok tt)
        × (sock : ℤ) × (next : ℤ) × (delivered s'.calls
            ≡ (encode_header flh ++ (byte ∷ bytes), hop_peer book first) ∷ delivered s.calls)
        × (said s'.calls ≡ (sock, cut_at_nul payload) ∷ said s.calls)
        × (connections s'.calls
            ≡ (next, hop_peer book first)
              ∷ (sock, server_peer int_to_ip book header)
              ∷ connections s.calls)
  unfolding on_calls on_endpoint sys_ call_ receive_one delivered said connections
  delivered-exiting_tcp pkt pkt_len header inner h t payload ce byte bytes rest first path s packet
        whole hd d filled sfc p short serves =
      let five : 5 ≤ t.doff = omega (arith, d.words) in
      let no_options : length {A = ℕ} [] ≡ (t.doff - 5) * 4 = rw (d.words) in
      let runs =
        manage_exiting_tcp_packets_lem int_to_ip ip_to_int backend kernel pkt pkt_len header h t []
          payload ce (negsuc 0) (receives byte bytes rest) s
          (packet ∙ ap (λ l. encode_header header ++ l) d.shape) whole hd d.ip d.tcp d.five five
          no_options in
      let (client, after, connects, silent, quiet, joined) =
        connections-connect_to_server kernel book buffer_size
          (c_str (int_to_ip header.destination_address)) (htons header.destination_port) s.calls
          accepts streams in
      let e = (update_entry backend ce client.sock client.serv_addr egress_t s.endpoint).1 in
      let goes =
        streams.sends after client.sock (cut_at_nul payload)
          (omega (arith, length-cut_at_nul payload)) in
      let kept =
        (update_entry-Steady s.endpoint backend ce client.sock client.serv_addr egress_t s.endpoint
          (sfc, refl, refl, refl, refl)).0 in
      let m = send client.sock (cut_at_nul payload) in
      let at : Process = record { endpoint = e; calls = (m, kernel after m) ∷ after } in
      let (done, sent, hushed, next, met) =
        (delivered-loops int_to_ip ip_to_int backend kernel book accepts client.sock header byte
          bytes rest first path at p short kept
          (serves.leads client
            (receive_one client.sock (pos (length (byte ∷ bytes))) (byte ∷ bytes) at).1.calls)).1 in
      let message : List ℕ × Peer = (
        encode_header (answer_header int_to_ip ip_to_int header 0 (first ∷ path)) ++ (byte ∷ bytes),
        hop_peer book first,
      ) in
      let word : ℤ × List ℕ = (client.sock, cut_at_nul payload) in
      rw (runs, connects, serves.updates client)
        (
          done,
          client.sock,
          next,
          sent ∙ ap (λ l. message ∷ l) silent,
          rw goes at hushed ∙ ap (λ l. word ∷ l) quiet,
          met ∙ ap (λ l. (next, hop_peer book first) ∷ l) joined,
        )

  -- The same of the whole of what the egress does for a packet of the chain.
  pub delivered-streamed :
      (args : UdpPktMngmntArgs) (header : SfcHeader) (inner : List ℕ) (h : Iphdr) (t : Tcphdr)
      (payload datagram : List ℕ) (byte : ℕ) (bytes : List ℕ) (rest : Stream) (first : Address)
      (path : List Address) (e : Process)
      → args.pkt ≡ encode_header header ++ inner
      → args.pkt_len ≡ length args.pkt
      → IsHeader header
      → IsSegment inner h t payload
      → 0 < length payload
      → IsSfcMap e.endpoint.sfc_map
      → IsPacket (byte ∷ bytes)
      → length (byte ∷ bytes) < buffer_size
      → let ce = chain_entry int_to_ip header tcp in
        let flh = answer_header int_to_ip ip_to_int header 0 (first ∷ path) in
        (retrieve_connection_2 e.endpoint ce).0 ≡ negsuc 0
        → ServesStream backend ce (byte ∷ bytes) first path e.endpoint
        → let (r, e') =
            (manage_pkt_from_chain int_to_ip ip_to_int backend kernel args >>= λ task.
            run_task int_to_ip ip_to_int backend kernel datagram task (receives byte bytes rest))
              e in
          (r ≡ ok tt)
          × (sock : ℤ) × (next : ℤ) × (delivered e'.calls
              ≡ (encode_header flh ++ (byte ∷ bytes), hop_peer book first)
                ∷ (ack, inet args.client_address)
                ∷ delivered e.calls)
          × (said e'.calls ≡ (sock, cut_at_nul payload) ∷ said e.calls)
          × (connections e'.calls
              ≡ (next, hop_peer book first)
                ∷ (sock, server_peer int_to_ip book header)
                ∷ connections e.calls)
  unfolding run_task conn_type sys_ on_calls call_ delivered said connections
  delivered-streamed args header inner h t payload datagram byte bytes rest first path e packet
        whole hd d filled sfc p short new serves =
      let ce = chain_entry int_to_ip header tcp in
      let acks = sendto args.socket_fd ack (inet args.client_address) in
      let acked : Process = record e { calls = (acks, kernel e.calls acks) ∷ e.calls } in
      let goes =
        accepts.sends e.calls args.socket_fd ack (inet args.client_address) (omega arith) in
      let prt : conn_type h.protocol ≡ tcp = rw (d.six) in
      let shape : args.pkt
          ≡ encode_header header
            ++ (encode_iphdr h ++ (encode_udphdr (ports t) ++ (behind_ports t ++ payload))) =
        packet
        ∙ ap (λ l. encode_header header ++ l) d.shape
        ∙ ap (λ l. encode_header header ++ (encode_iphdr h ++ (l ++ payload))) (encode-ports t)
        ∙ ap (λ l. encode_header header ++ (encode_iphdr h ++ l))
            (append_assoc (encode_udphdr (ports t)) (behind_ports t) payload) in
      let tasked =
        rw (prt, new) at
          (manage_pkt_from_chain_lem int_to_ip ip_to_int backend kernel args header h (ports t)
            (behind_ports t ++ payload) e shape hd d.ip (ports-IsUdphdr t d.tcp) d.five) in
      let (done, sock, next, sent, told, met) =
        delivered-exiting_tcp args.pkt args.pkt_len header inner h t payload ce byte bytes rest
          first path acked packet whole hd d filled sfc p short serves in
      rw (tasked) (done, sock, next, rw goes at sent, told, met)
