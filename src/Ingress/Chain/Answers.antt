-- ===== src/Ingress/Chain/Answers.antt =====
-- How an answer from the chain reaches the client.
use ironhide.Base.{
  Bool-cases, inl, inr, ◌*◌, ◌==◌, [], ◌≤◌, false, ltb, take_all, length-drop, ℕ, ◌+◌, ◌-◌, ◌≡◌,
  ◌∙◌, ap, sym, List, ◌++◌, length, drop, length-append, arith, if◌then◌else◌,
}
use ironhide.Base.Result.{ok, err, fault, exit_failure}
use ironhide.Base.Text.{Text}
use ironhide.Packet.{Iphdr, IsIphdr, Udphdr, encode_iphdr, encode_udphdr}
use ironhide.Packet.Retrieve.{retrieve_ip_header, udp_packet_header_size, advance}
use ironhide.Sfc.{SfcHeader, IsHeader, encode_header, header_size, retrieve_header}
use ironhide.Packet.RoundTrip.{retrieve_ip_header-encode, drop_udp_headers, length_udp}
use ironhide.Sfc.RoundTrip.{length-encode_header, drop-encode_header, retrieve_header_lem}
use ironhide.Db.{udp}
use ironhide.Db.Roulette.Backend.{Backend}
use ironhide.Endpoint.State.{SockConn, delete_entry, retrieve_connection_2}
use ironhide.Socket.{Kernel, sendto, inet, is_negative}
use ironhide.Process.{Process, on_endpoint, sys, sys_, ack}
use ironhide.Hop.{chain_entry}
use ironhide.Ingress.{UdpPktMngmntArgs}
use ironhide.Ingress.Chain.{conn_type, behind, manage_pkt_from_chain, answer, answer_udp}

-- What is behind the headers of a whole packet.
pub behind-drop :
    (pkt payload : List ℕ) (pkt_len n : ℕ)
    → pkt_len ≡ length pkt
    → drop n pkt ≡ payload
    → n ≤ length pkt
    → behind pkt pkt_len n ≡ ok payload
unfolding behind
behind-drop pkt payload pkt_len n whole e long =
    let size : length payload ≡ length pkt - n = ap length (sym e) ∙ length-drop n pkt in
    let short : ltb pkt_len n ≡ false = ground arith in
    let fits : ltb (length payload) (pkt_len - n) ≡ false = ground arith in
    rw (short, e, fits, take_all (pkt_len - n) payload (omega (arith, size)))

-- The branch of UDP, once the payload is found.
answer_udp-payload :
    (int_to_ip : ℕ → Text) (backend : Backend) (kernel : Kernel) (args : UdpPktMngmntArgs)
    (header : SfcHeader) (sock : SockConn) (size : ℕ) (payload : List ℕ) (s : Process)
    → udp_packet_header_size (advance args.pkt header_size) ≡ ok size
    → behind args.pkt args.pkt_len (header_size + size) ≡ ok payload
    → let m = sendto sock.0 payload (inet sock.1) in
      let after = (sys kernel m s).1 in
      answer_udp int_to_ip backend kernel args header sock s ≡ (
        if is_negative (kernel s.calls m).result
        then (err exit_failure, after)
        else on_endpoint (delete_entry backend (chain_entry int_to_ip header udp)) after)
unfolding answer_udp sys on_endpoint
answer_udp-payload int_to_ip backend kernel args header sock size payload s sized taken =
    let m = sendto sock.0 payload (inet sock.1) in
    elim (Bool-cases (is_negative (kernel s.calls m).result)) [
      | inl e ↦ rw (sized, taken, e)
      | inr e ↦ rw (sized, taken, e)
    ]

-- An answer of the protocol UDP is acknowledged, and its payload, without any header, is sent to
-- the address and on the socket that the entry of its header has. If that fails the program exits,
-- and else the entry is deleted, whose result the handler gives. The packet is the header, an IP
-- header of five words, a UDP header and the payload, its length is that of the packet, and the
-- fields of its headers fit their widths.
pub manage_pkt_from_chain-udp :
    (int_to_ip : ℕ → Text) (backend : Backend) (kernel : Kernel) (args : UdpPktMngmntArgs)
    (header : SfcHeader) (h : Iphdr) (u : Udphdr) (payload : List ℕ) (s : Process)
    → args.pkt ≡ encode_header header ++ (encode_iphdr h ++ (encode_udphdr u ++ payload))
    → args.pkt_len ≡ length args.pkt
    → IsHeader header
    → IsIphdr h
    → h.ihl ≡ 5
    → h.protocol ≡ 17
    → let ce = chain_entry int_to_ip header udp in
      let sock = retrieve_connection_2 s.endpoint ce in
      let acked = (sys_ kernel (sendto args.socket_fd ack (inet args.client_address)) s).1 in
      let (sent, after) = sys kernel (sendto sock.0 payload (inet sock.1)) acked in
      let resp_c = kernel acked.calls (sendto sock.0 payload (inet sock.1)) in
      manage_pkt_from_chain int_to_ip backend kernel args s ≡ (
        if is_negative resp_c.result
        then (err exit_failure, after)
        else on_endpoint (delete_entry backend ce) after)
unfolding manage_pkt_from_chain conn_type answer sys_
manage_pkt_from_chain-udp int_to_ip backend kernel args header h u payload s packet whole hd v five
      seventeen =
    let inner = encode_iphdr h ++ (encode_udphdr u ++ payload) in
    let read : retrieve_header args.pkt ≡ ok header =
      ap retrieve_header packet ∙ retrieve_header_lem header inner hd in
    let stripped : advance args.pkt header_size ≡ inner =
      ap (drop 24) packet ∙ drop-encode_header header inner 24 0 (omega arith) in
    let chosen : (if h.ihl == 5 then ok h else err fault) ≡ ok h = rw five in
    let ip : retrieve_ip_header inner ≡ ok h =
      retrieve_ip_header-encode h (encode_udphdr u ++ payload) v (omega (arith, five)) ∙ chosen in
    let words : h.ihl * 4 + 8 ≡ 28 = omega (arith, five) in
    let (read_size, rest) =
      drop_udp_headers h u [] payload v (omega (arith, five)) (omega (arith, five)) in
    let size : udp_packet_header_size inner ≡ ok 28 = read_size ∙ ap ok words in
    let dropped : drop 28 inner ≡ payload = ap (λ n. drop n inner) (sym words) ∙ rest in
    let behind_all : drop 52 args.pkt ≡ payload =
      ap (drop 52) packet ∙ drop-encode_header header inner 52 28 (omega arith) ∙ dropped in
    let long : 52 ≤ length args.pkt = omega (
      arith,
      ap length packet,
      length-append (encode_header header) inner,
      length-encode_header header,
      length_udp h u payload,
    ) in
    let taken = behind-drop args.pkt payload args.pkt_len 52 whole behind_all long in
    let ip_read = ap retrieve_ip_header stripped ∙ ip in
    let sized = ap udp_packet_header_size stripped ∙ size in
    let prt : conn_type h.protocol ≡ udp = rw seventeen in
    rw (read, ip_read, prt)
      (answer_udp-payload int_to_ip backend kernel args header
        (retrieve_connection_2 s.endpoint (chain_entry int_to_ip header udp)) 28 payload
        (sys_ kernel (sendto args.socket_fd ack (inet args.client_address)) s).1 sized taken)
