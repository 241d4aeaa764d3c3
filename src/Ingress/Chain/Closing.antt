-- ===== src/Ingress/Chain/Closing.antt =====
-- How an answer from the chain reaches the client of a connection, which then ends.
use ironhide.Base.{
  [], ◌≤◌, ℕ, ◌+◌, ◌-◌, ◌*◌, ◌==◌, ◌≡◌, ◌∙◌, ap, sym, List, ◌++◌, length, drop, length-append,
  arith, if◌then◌else◌, Bool-cases, inl, inr,
}
use ironhide.Base.Result.{ok, err, fault, exit_failure}
use ironhide.Base.Text.{Text}
use ironhide.Packet.{Iphdr, IsIphdr, Tcphdr, IsTcphdr, encode_iphdr, encode_tcphdr}
use ironhide.Packet.Retrieve.{retrieve_ip_header, tcp_packet_header_size, advance}
use ironhide.Packet.RoundTrip.{retrieve_ip_header-encode, drop_tcp_headers, length_tcp}
use ironhide.Sfc.{SfcHeader, IsHeader, encode_header, header_size, retrieve_header}
use ironhide.Sfc.RoundTrip.{length-encode_header, drop-encode_header, retrieve_header_lem}
use ironhide.Db.{tcp}
use ironhide.Db.Roulette.Backend.{Backend}
use ironhide.Endpoint.State.{SockConn, retrieve_connection_2}
use ironhide.Socket.{Kernel, send, sendto, shutdown, close, inet, is_negative}
use ironhide.Process.{Process, sys, sys_, ack}
use ironhide.Hop.{chain_entry}
use ironhide.Ingress.{UdpPktMngmntArgs}
use ironhide.Ingress.Chain.{conn_type, behind, manage_pkt_from_chain, answer, answer_tcp}
use ironhide.Ingress.Chain.Answers.{behind-drop}

-- The branch of TCP, once the payload is found.
answer_tcp-payload :
    (int_to_ip : ℕ → Text) (backend : Backend) (kernel : Kernel) (args : UdpPktMngmntArgs)
    (sock : SockConn) (size : ℕ) (payload : List ℕ) (s : Process)
    → tcp_packet_header_size (advance args.pkt header_size) ≡ ok size
    → behind args.pkt args.pkt_len (header_size + size) ≡ ok payload
    → let m = send sock.0 payload in
      let after = (sys kernel m s).1 in
      answer_tcp int_to_ip backend kernel args sock s ≡ (
        if is_negative (kernel s.calls m).result
        then (err exit_failure, after)
        else sys_ kernel (close sock.0) (sys_ kernel (shutdown sock.0) after).1)
unfolding answer_tcp sys sys_
answer_tcp-payload int_to_ip backend kernel args sock size payload s sized taken =
    let m = send sock.0 payload in
    elim (Bool-cases (is_negative (kernel s.calls m).result)) [
      | inl e ↦ rw (sized, taken, e)
      | inr e ↦ rw (sized, taken, e)
    ]

-- An answer of the protocol TCP is acknowledged, and its payload, without any header or option, is
-- sent on the socket that the entry of its header has. If that fails the program exits, and else
-- the socket is shut down and closed, while the entry stays. The packet is the header, an IP header
-- of five words, a TCP header with its options and the payload, its length is that of the packet,
-- and the fields of its headers fit their widths.
pub manage_pkt_from_chain-tcp :
    (int_to_ip : ℕ → Text) (backend : Backend) (kernel : Kernel) (args : UdpPktMngmntArgs)
    (header : SfcHeader) (h : Iphdr) (t : Tcphdr) (tcp_opts payload : List ℕ) (s : Process)
    → args.pkt
      ≡ encode_header header ++ (encode_iphdr h ++ (encode_tcphdr t ++ (tcp_opts ++ payload)))
    → args.pkt_len ≡ length args.pkt
    → IsHeader header
    → IsIphdr h
    → IsTcphdr t
    → h.ihl ≡ 5
    → h.protocol ≡ 6
    → 5 ≤ t.doff
    → length tcp_opts ≡ (t.doff - 5) * 4
    → let sock = retrieve_connection_2 s.endpoint (chain_entry int_to_ip header tcp) in
      let acked = (sys_ kernel (sendto args.socket_fd ack (inet args.client_address)) s).1 in
      let (sent, after) = sys kernel (send sock.0 payload) acked in
      let resp_c = kernel acked.calls (send sock.0 payload) in
      manage_pkt_from_chain int_to_ip backend kernel args s ≡ (
        if is_negative resp_c.result
        then (err exit_failure, after)
        else sys_ kernel (close sock.0) (sys_ kernel (shutdown sock.0) after).1)
unfolding manage_pkt_from_chain conn_type answer sys_
manage_pkt_from_chain-tcp int_to_ip backend kernel args header h t tcp_opts payload s packet whole
      hd v w five six tfive tfilled =
    let inner = encode_iphdr h ++ (encode_tcphdr t ++ (tcp_opts ++ payload)) in
    let size = 20 + t.doff * 4 in
    let stripped : advance args.pkt header_size ≡ inner =
      ap (drop 24) packet ∙ drop-encode_header header inner 24 0 (omega arith) in
    let chosen : (if h.ihl == 5 then ok h else err fault) ≡ ok h = rw five in
    let ip : retrieve_ip_header inner ≡ ok h =
      retrieve_ip_header-encode h (encode_tcphdr t ++ (tcp_opts ++ payload)) v (omega (arith, five))
      ∙ chosen in
    let words : h.ihl * 4 + t.doff * 4 ≡ size = omega (arith, five) in
    let (read_size, rest) =
      drop_tcp_headers h t [] tcp_opts payload v w (omega (arith, five)) (omega (arith, five)) tfive
        tfilled in
    let behind_all : drop (24 + size) args.pkt ≡ payload =
      ap (drop (24 + size)) packet
      ∙ drop-encode_header header inner (24 + size) size (omega arith)
      ∙ ap (λ n. drop n inner) (sym words)
      ∙ rest in
    let long : 24 + size ≤ length args.pkt = omega (
      arith,
      ap length packet,
      length-append (encode_header header) inner,
      length-encode_header header,
      length_tcp h t (tcp_opts ++ payload),
      length-append tcp_opts payload,
      tfilled,
      tfive,
    ) in
    let read = ap retrieve_header packet ∙ retrieve_header_lem header inner hd in
    let ip_read = ap retrieve_ip_header stripped ∙ ip in
    let sized = ap tcp_packet_header_size stripped ∙ read_size ∙ ap ok words in
    let prt : conn_type h.protocol ≡ tcp = rw six in
    rw (read, ip_read, prt)
      (answer_tcp-payload int_to_ip backend kernel args
        (retrieve_connection_2 s.endpoint (chain_entry int_to_ip header tcp)) size payload
        (sys_ kernel (sendto args.socket_fd ack (inet args.client_address)) s).1 sized
        (behind-drop args.pkt payload args.pkt_len (24 + size) whole behind_all long))
