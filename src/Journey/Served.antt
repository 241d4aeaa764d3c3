-- ===== src/Journey/Served.antt =====
-- A packet of a client at the egress: its server, and the answer.
use ironhide.Base.{ℕ, ◌+◌, ◌≡◌, ◌≤◌, ◌<◌, ◌∙◌, ap, List, ◌∷◌, ◌++◌, length, arith, All}
use ironhide.Base.Result.{ok}
use ironhide.Base.Exec.{◌>>=◌}
use ironhide.Base.Text.{Text, c_str}
use ironhide.Wire.{htons}
use ironhide.Packet.{Iphdr, Udphdr, encode_iphdr, encode_udphdr}
use ironhide.Packet.Retrieve.{retrieve_ip_udp_header}
use ironhide.Packet.Checksum.{IsByte}
use ironhide.Packet.Forge.Buffers.{cut_at_nul}
use ironhide.Sfc.{SfcHeader, IsHeader, encode_header}
use ironhide.Classifier.Chains.{IsSfcMap}
use ironhide.Db.{udp}
use ironhide.Db.Address.{Address}
use ironhide.Db.Roulette.Backend.{Backend}
use ironhide.Socket.{Kernel, sendto, inet, call_}
use ironhide.Socket.Held.{delivered}
use ironhide.Hop.Delivery.{hop_peer}
use ironhide.Client.Udp.Delivery.{Accepts, Book}
use ironhide.Process.{Process, Stream, receives, on_calls, sys_, ack, buffer_size}
use ironhide.Hop.{chain_entry}
use ironhide.Ingress.{UdpPktMngmntArgs}
use ironhide.Ingress.Chain.{conn_type}
use ironhide.Ingress.Tcp.Sessions.{IsPacket}
use ironhide.Egress.{answer_header, manage_pkt_from_chain, manage_exiting_udp_packets, run_task}
use ironhide.Egress.Exchange.{Serves, server_of, delivered-exiting}
use ironhide.Egress.Leaving.{Binds}
use ironhide.Egress.Tasks.{manage_pkt_from_chain_lem}
use ironhide.Journey.{IsDatagram}

-- The thread of a UDP packet.
pub run_task-udp :
    (int_to_ip : ℕ → Text) (ip_to_int : Text → ℕ) (backend : Backend) (kernel : Kernel)
    (args : UdpPktMngmntArgs) (header : SfcHeader) (pkt : List ℕ) (h : Iphdr) (u : Udphdr)
    (payload datagram : List ℕ) (stream : Stream) (e : Process)
    → args.pkt ≡ encode_header header ++ pkt
    → IsHeader header
    → IsDatagram pkt h u payload
    → (manage_pkt_from_chain int_to_ip ip_to_int backend kernel args >>= λ task.
          run_task int_to_ip ip_to_int backend kernel datagram task stream)
        e
      ≡ manage_exiting_udp_packets int_to_ip ip_to_int backend kernel datagram args.pkt args.pkt_len
          (chain_entry int_to_ip header udp)
          stream
          (sys_ kernel (sendto args.socket_fd ack (inet args.client_address)) e).1
unfolding run_task conn_type
run_task-udp int_to_ip ip_to_int backend kernel args header pkt h u payload datagram stream e packet
      hd d =
    let prt : conn_type h.protocol ≡ udp = rw (d.seventeen) in
    let tasked = rw prt at (
      manage_pkt_from_chain_lem int_to_ip ip_to_int backend kernel args header h u payload e
        (packet ∙ ap (λ l. encode_header header ++ l) d.shape) hd d.ip d.udp d.five) in
    rw tasked

module _ (int_to_ip : ℕ → Text) (ip_to_int : Text → ℕ) (backend : Backend) (kernel : Kernel)
    (book : Book) (accepts : Accepts kernel book) where
  -- What the egress sends for a packet of the chain, the datagram of its thread and the answer
  -- included.
  pub delivered-served :
      (args : UdpPktMngmntArgs) (header : SfcHeader) (pkt : List ℕ) (h : Iphdr) (u : Udphdr)
      (payload datagram : List ℕ) (byte : ℕ) (bytes : List ℕ) (rest : Stream) (first : Address)
      (path : List Address) (e : Process)
      → Binds kernel
      → ((t : Text) → ip_to_int t < 4294967296)
      → args.pkt ≡ encode_header header ++ pkt
      → args.pkt_len ≡ length args.pkt
      → IsHeader header
      → IsDatagram pkt h u payload
      → All IsByte payload
      → length payload ≤ 65507
      → 4096 ≤ length datagram
      → 28 + length payload ≤ length datagram
      → IsSfcMap e.endpoint.sfc_map
      → IsPacket (byte ∷ bytes)
      → length (byte ∷ bytes) < buffer_size
      → let ce = chain_entry int_to_ip header udp in
        Serves backend ce header (byte ∷ bytes) first path e.endpoint
        → let (r, e') =
            (manage_pkt_from_chain int_to_ip ip_to_int backend kernel args >>= λ task.
            run_task int_to_ip ip_to_int backend kernel datagram task (receives byte bytes rest))
              e in
          (r ≡ ok tt)
          × (h' : Iphdr) × (u' : Udphdr) × (retrieve_ip_udp_header
                (encode_iphdr h' ++ (encode_udphdr u' ++ cut_at_nul payload))
              ≡ ok (h', u'))
          × (h'.saddr ≡ ip_to_int (c_str e.endpoint.my_ip))
          × (h'.daddr ≡ ip_to_int (c_str ce.ip_dst))
          × (u'.source ≡ htons e.endpoint.ext_port)
          × (u'.dest ≡ htons ce.port_dst)
          × (delivered e'.calls
              ≡ (
                encode_header (answer_header int_to_ip ip_to_int header 0 (first ∷ path))
                    ++ (byte ∷ bytes),
                hop_peer book first,
              )
                ∷ (
                  encode_iphdr h' ++ (encode_udphdr u' ++ cut_at_nul payload),
                  inet (server_of header),
                )
                ∷ (ack, inet args.client_address)
                ∷ delivered e.calls)
  unfolding sys_ on_calls call_ delivered
  delivered-served args header pkt h u payload datagram byte bytes rest first path e b address
        packet whole hd d data_bytes small large room sfc p short serves =
      let acks = sendto args.socket_fd ack (inet args.client_address) in
      let acked : Process = record e { calls = (acks, kernel e.calls acks) ∷ e.calls } in
      let goes =
        accepts.sends e.calls args.socket_fd ack (inet args.client_address) (omega arith) in
      let ran =
        run_task-udp int_to_ip ip_to_int backend kernel args header pkt h u payload datagram
          (receives byte bytes rest) e packet hd d in
      let sent =
        delivered-exiting int_to_ip ip_to_int backend kernel book accepts datagram args.pkt payload
          args.pkt_len header h u (chain_entry int_to_ip header udp) byte bytes rest first path
          acked b address (packet ∙ ap (λ l. encode_header header ++ l) d.shape) whole hd d.ip
          d.five data_bytes small large room sfc p short serves in
      rw (ran) (rw goes at sent)
