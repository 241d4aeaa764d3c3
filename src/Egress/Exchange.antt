-- ===== src/Egress/Exchange.antt =====
-- A whole exchange at the egress: the packet leaves for its server, and the answer goes back.
use ironhide.Base.{ℕ, ◌+◌, ◌≡◌, ◌≤◌, ◌<◌, ◌∙◌, ap, List, ◌∷◌, ◌++◌, length, All, refl}
use ironhide.Base.Result.{Result, ok}
use ironhide.Base.Int.{ℤ, pos}
use ironhide.Base.Exec.{◌>>◌}
use ironhide.Base.Text.{Text, c_str}
use ironhide.Wire.{htons}
use ironhide.Packet.{Iphdr, IsIphdr, Udphdr, encode_iphdr, encode_udphdr}
use ironhide.Packet.Retrieve.{retrieve_ip_udp_header}
use ironhide.Packet.Checksum.{IsByte}
use ironhide.Packet.Forge.Buffers.{cut_at_nul}
use ironhide.Sfc.{SfcHeader, IsHeader, encode_header}
use ironhide.Classifier.Chains.{IsSfcMap}
use ironhide.Entry.{ConnectionEntry}
use ironhide.Db.{egress_t}
use ironhide.Db.Address.{Address}
use ironhide.Db.Roulette.Backend.{Backend}
use ironhide.Endpoint.State.{Endpoint, update_entry}
use ironhide.Socket.{Kernel, Calls, Peer, SockaddrIn, inet, af_inet}
use ironhide.Socket.Held.{delivered}
use ironhide.Hop.Delivery.{hop_peer}
use ironhide.Client.Udp.Delivery.{Accepts, Book}
use ironhide.Process.{
  Process, Stream, receives, on_endpoint, on_calls, routes, receive_one, buffer_size,
}
use ironhide.Process.Kept.{update_entry-Steady}
use ironhide.Ingress.Tcp.Sessions.{IsPacket}
use ironhide.Egress.{answer_header, udp_answers, manage_exiting_udp_packets}
use ironhide.Egress.Answers.{asking, delivered-loops}
use ironhide.Egress.Datagrams.{manage_exiting_udp_packets_lem}
use ironhide.Egress.Leaving.{Binds}

-- The server that a header names, as the egress addresses it.
abbrev pub server_of : SfcHeader → SockaddrIn
server_of header = record {
  sin_family = af_inet;
  sin_port = htons header.destination_port;
  sin_addr = header.destination_address;
}

-- The endpoint of the egress after the entry is told to the service.
abbrev pub updated : Backend → ConnectionEntry → SfcHeader → Endpoint → ℤ → Endpoint
updated backend ce header e sock = (update_entry backend ce sock (server_of header) egress_t e).1

-- The service takes the entry of the packet, with any socket, and has a route for the answer.
pub record Serves (backend : Backend) (ce : ConnectionEntry) (header : SfcHeader) (answer : List ℕ)
    (first : Address) (path : List Address) (e : Endpoint) : Type 0 where
  pub updates : (sock : ℤ) → (update_entry backend ce sock (server_of header) egress_t e).0 ≡ ok tt
  pub leads :
      (sock : ℤ) (calls : Calls)
      → (routes backend 0
          (asking answer (record { endpoint = updated backend ce header e sock; calls = calls }))).0
        ≡ ok (first ∷ path)

module _ (int_to_ip : ℕ → Text) (ip_to_int : Text → ℕ) (backend : Backend) (kernel : Kernel)
    (book : Book) (accepts : Accepts kernel book) where
  -- Telling the service sends nothing over a socket and leaves the classifier as it is.
  delivered-told :
      (ce : ConnectionEntry) (header : SfcHeader) (byte : ℕ) (bytes : List ℕ) (rest : Stream)
      (first : Address) (path : List Address) (sock receiver : ℤ) (s : Process)
      → IsPacket (byte ∷ bytes)
      → length (byte ∷ bytes) < buffer_size
      → IsSfcMap s.endpoint.sfc_map
      → Serves backend ce header (byte ∷ bytes) first path s.endpoint
      → let h = answer_header int_to_ip ip_to_int header 0 (first ∷ path) in
        let message : List ℕ × Peer = (encode_header h ++ (byte ∷ bytes), hop_peer book first) in
        let (r, s') =
          (on_endpoint (update_entry backend ce sock (server_of header) egress_t)
              >> udp_answers int_to_ip ip_to_int backend kernel receiver header
                  (receives byte bytes rest))
            s in
        (r ≡ ok tt) × (delivered s'.calls ≡ message ∷ delivered s.calls)
  unfolding on_endpoint receive_one on_calls
  delivered-told ce header byte bytes rest first path sock receiver s p short m serves =
      let e = s.endpoint in
      let sfc =
        (update_entry-Steady e backend ce sock (server_of header) egress_t e
          (m, refl, refl, refl, refl)).0 in
      let at : Process = record { endpoint = updated backend ce header e sock; calls = s.calls } in
      rw (serves.updates sock)
        (delivered-loops int_to_ip ip_to_int backend kernel book accepts receiver header byte bytes
          rest first path at p short sfc
          (serves.leads sock
            (receive_one receiver (pos (length (byte ∷ bytes))) (byte ∷ bytes) at).1.calls)).0

  -- A UDP packet of the chain leaves for its server in one datagram, forged with the address of the
  -- egress, and the answer goes back into the chain in one message.
  pub delivered-exiting :
      (datagram pkt payload : List ℕ) (pkt_len : ℕ) (header : SfcHeader) (h : Iphdr) (u : Udphdr)
      (ce : ConnectionEntry) (byte : ℕ) (bytes : List ℕ) (rest : Stream) (first : Address)
      (path : List Address) (s : Process)
      → Binds kernel
      → ((t : Text) → ip_to_int t < 4294967296)
      → pkt ≡ encode_header header ++ (encode_iphdr h ++ (encode_udphdr u ++ payload))
      → pkt_len ≡ length pkt
      → IsHeader header
      → IsIphdr h
      → h.ihl ≡ 5
      → All IsByte payload
      → length payload ≤ 65507
      → 4096 ≤ length datagram
      → 28 + length payload ≤ length datagram
      → IsSfcMap s.endpoint.sfc_map
      → IsPacket (byte ∷ bytes)
      → length (byte ∷ bytes) < buffer_size
      → Serves backend ce header (byte ∷ bytes) first path s.endpoint
      → let flh = answer_header int_to_ip ip_to_int header 0 (first ∷ path) in
        let (r, s') =
          manage_exiting_udp_packets int_to_ip ip_to_int backend kernel datagram pkt pkt_len ce
            (receives byte bytes rest)
            s in
        (r ≡ ok tt)
        × (h' : Iphdr) × (u' : Udphdr) × (retrieve_ip_udp_header
              (encode_iphdr h' ++ (encode_udphdr u' ++ cut_at_nul payload))
            ≡ ok (h', u'))
        × (h'.saddr ≡ ip_to_int (c_str s.endpoint.my_ip))
        × (h'.daddr ≡ ip_to_int (c_str ce.ip_dst))
        × (u'.source ≡ htons s.endpoint.ext_port)
        × (u'.dest ≡ htons ce.port_dst)
        × (delivered s'.calls
            ≡ (encode_header flh ++ (byte ∷ bytes), hop_peer book first)
              ∷ (
                encode_iphdr h' ++ (encode_udphdr u' ++ cut_at_nul payload),
                inet (server_of header),
              )
              ∷ delivered s.calls)
  delivered-exiting datagram pkt payload pkt_len header h u ce byte bytes rest first path s b
        address packet whole hd v five data_bytes small large room sfc p short serves =
      let stream = receives byte bytes rest in
      let (h', u', sock, receiver, sent, read, src, dst, sport, dport, goes, _, same, runs) =
        manage_exiting_udp_packets_lem int_to_ip ip_to_int backend kernel book datagram pkt payload
          pkt_len header h u ce stream s accepts b address packet whole hd v five data_bytes small
          large room in
      let kept : IsSfcMap sent.endpoint.sfc_map = rw same sfc in
      let takes : Serves backend ce header (byte ∷ bytes) first path sent.endpoint =
        rw same serves in
      let (done, back) =
        delivered-told ce header byte bytes rest first path sock receiver sent p short kept takes in
      let message : List ℕ × Peer = (
        encode_header (answer_header int_to_ip ip_to_int header 0 (first ∷ path)) ++ (byte ∷ bytes),
        hop_peer book first,
      ) in
      (
        ap (λ (q : Result (Unit {0}) × Process). q.0) runs ∙ done,
        h',
        u',
        read,
        src,
        dst,
        sport,
        dport,
        ap (λ (q : Result (Unit {0}) × Process). delivered q.1.calls) runs
            ∙ back
            ∙ ap (λ l. message ∷ l) goes,
      )
