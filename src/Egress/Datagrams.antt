-- ===== src/Egress/Datagrams.antt =====
-- A UDP packet of the chain leaves for its server under the address of the egress.
use ironhide.Base.{
  ℕ, ◌+◌, ◌*◌, ◌≡◌, ◌≤◌, ◌<◌, ◌∙◌, ap, sym, List, [], ◌∷◌, ◌++◌, drop, length, arith, All,
  length-append,
}
use ironhide.Base.Result.{ok}
use ironhide.Base.Int.{ℤ}
use ironhide.Base.Exec.{◌>>◌}
use ironhide.Base.Text.{Text, c_str}
use ironhide.Wire.{htons}
use ironhide.Packet.{Iphdr, IsIphdr, Udphdr, encode_iphdr, encode_udphdr}
use ironhide.Packet.Retrieve.{retrieve_ip_udp_header, udp_packet_header_size, advance}
use ironhide.Packet.RoundTrip.{retrieve_ip_udp_header-encode, drop_udp_headers, length_udp}
use ironhide.Packet.Checksum.{IsByte}
use ironhide.Packet.Forge.Buffers.{cut_at_nul, length-cut_at_nul}
use ironhide.Packet.Forge.Verified.{forge_ip_udp_pkt_lem}
use ironhide.Sfc.{SfcHeader, IsHeader, encode_header, header_size, retrieve_header}
use ironhide.Sfc.RoundTrip.{length-encode_header, drop-encode_header, retrieve_header_lem}
use ironhide.Entry.{ConnectionEntry}
use ironhide.Db.{egress_t}
use ironhide.Db.Roulette.Backend.{Backend}
use ironhide.Endpoint.State.{update_entry}
use ironhide.Socket.{Kernel, SockaddrIn, inet, af_inet}
use ironhide.Socket.Held.{held, delivered}
use ironhide.Client.Udp.Delivery.{Accepts, Book}
use ironhide.Process.{Process, Stream, on_endpoint}
use ironhide.Egress.{udp_answers, manage_exiting_udp_packets}
use ironhide.Egress.Leaving.{Binds, sent-exiting, forged-bytes}

-- A UDP packet of the chain goes out once, to the address that its header names, in a datagram of
-- two headers and its payload, in which zeros stand from the first NUL on. The datagram is read
-- back with the address and the port of the egress as the source, and those of the entry as the
-- destination. Then the entry is told to the service with the socket that sent, and the answers
-- are received on another; the endpoint is unchanged up to there, and both sockets stay open. The
-- packet is the header, an IP header of five words, a UDP header and a payload of at most 65507
-- bytes, its length is that of the packet, and the fields of the first two headers fit their
-- widths. The memory for the datagram holds 4096 bytes and the whole datagram; addresses have 32
-- bits; and the system does as it is asked.
pub manage_exiting_udp_packets_lem :
    (int_to_ip : ℕ → Text) (ip_to_int : Text → ℕ) (backend : Backend) (kernel : Kernel)
    (book : Book) (datagram pkt payload : List ℕ) (pkt_len : ℕ) (header : SfcHeader) (h : Iphdr)
    (u : Udphdr) (ce : ConnectionEntry) (stream : Stream) (s : Process)
    → Accepts kernel book
    → Binds kernel
    → ((t : Text) → ip_to_int t < 4294967296)
    → pkt ≡ encode_header header ++ (encode_iphdr h ++ (encode_udphdr u ++ payload))
    → pkt_len ≡ length pkt
    → IsHeader header
    → IsIphdr h
    → h.ihl ≡ 5
    → All IsByte payload
    → length payload ≤ 65507
    → 4096 ≤ length datagram
    → 28 + length payload ≤ length datagram
    → let server : SockaddrIn = record {
      sin_family = af_inet;
      sin_port = htons header.destination_port;
      sin_addr = header.destination_address;
    } in
      (h' : Iphdr) × (u' : Udphdr) × (sock : ℤ) × (receiver : ℤ) × (sent : Process)
      × (retrieve_ip_udp_header (encode_iphdr h' ++ (encode_udphdr u' ++ cut_at_nul payload))
          ≡ ok (h', u'))
      × (h'.saddr ≡ ip_to_int (c_str s.endpoint.my_ip))
      × (h'.daddr ≡ ip_to_int (c_str ce.ip_dst))
      × (u'.source ≡ htons s.endpoint.ext_port)
      × (u'.dest ≡ htons ce.port_dst)
      × (delivered sent.calls
          ≡ (encode_iphdr h' ++ (encode_udphdr u' ++ cut_at_nul payload), inet server)
            ∷ delivered s.calls)
      × (held sent.calls ≡ receiver ∷ sock ∷ held s.calls)
      × (sent.endpoint ≡ s.endpoint)
      × (manage_exiting_udp_packets int_to_ip ip_to_int backend kernel datagram pkt pkt_len ce
            stream s
          ≡ (on_endpoint (update_entry backend ce sock server egress_t)
                >> udp_answers int_to_ip ip_to_int backend kernel receiver header stream)
              sent)
manage_exiting_udp_packets_lem int_to_ip ip_to_int backend kernel book datagram pkt payload pkt_len
      header h u ce stream s accepts b address packet whole hd v five bytes short large room =
    let inner = encode_iphdr h ++ (encode_udphdr u ++ payload) in
    let words : h.ihl * 4 + 8 ≡ 28 = omega (arith, five) in
    let (read_size, rest) =
      drop_udp_headers h u [] payload v (omega (arith, five)) (omega (arith, five)) in
    let read : retrieve_header pkt ≡ ok header =
      ap retrieve_header packet ∙ retrieve_header_lem header inner hd in
    let sized : udp_packet_header_size (advance pkt header_size) ≡ ok 28 =
      ap udp_packet_header_size
        (ap (drop 24) packet ∙ drop-encode_header header inner 24 0 (omega arith))
      ∙ read_size
      ∙ ap ok words in
    let behind : drop 52 pkt ≡ payload =
      ap (drop 52) packet
      ∙ drop-encode_header header inner 52 28 (omega arith)
      ∙ ap (λ n. drop n inner) (sym words)
      ∙ rest in
    let size : pkt_len ≡ 52 + length payload = omega (
      arith,
      ap length packet,
      length-append (encode_header header) inner,
      length-encode_header header,
      length_udp h u payload,
    ) in
    let (h', u', tail, forges, _, five', src, dst, total, _, sport, dport, _, _, _, v_ip, v_udp) =
      forge_ip_udp_pkt_lem ip_to_int (c_str s.endpoint.my_ip) (c_str ce.ip_dst) s.endpoint.ext_port
        ce.port_dst payload datagram address bytes short large room in
    let out = encode_iphdr h' ++ (encode_udphdr u' ++ cut_at_nul payload) in
    let (sock, receiver, sent, same, goes, holds, runs) =
      sent-exiting ip_to_int kernel book accepts int_to_ip backend datagram pkt payload
        (encode_iphdr h' ++ (encode_udphdr u' ++ (cut_at_nul payload ++ tail))) out pkt_len header
        ce stream s b size read sized behind forges
        (forged-bytes h' u' (cut_at_nul payload) tail v_ip
          (omega (arith, total, length-cut_at_nul payload)))
        (omega (arith, length_udp h' u' (cut_at_nul payload))) in
    (
      h',
      u',
      sock,
      receiver,
      sent,
      retrieve_ip_udp_header-encode h' u' (cut_at_nul payload) v_ip v_udp five',
      src,
      dst,
      sport,
      dport,
      goes,
      holds,
      same,
      runs,
    )
