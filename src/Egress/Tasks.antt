-- ===== src/Egress/Tasks.antt =====
-- What the egress leaves to a thread for a packet of the chain.
use ironhide.Base.{ℕ, ◌≡◌, ◌∙◌, ap, List, ◌++◌, drop, arith}
use ironhide.Base.Result.{ok}
use ironhide.Base.Text.{Text}
use ironhide.Packet.{Iphdr, IsIphdr, Udphdr, IsUdphdr, encode_iphdr, encode_udphdr}
use ironhide.Packet.Retrieve.{retrieve_ip_udp_header, advance}
use ironhide.Packet.RoundTrip.{retrieve_ip_udp_header-encode}
use ironhide.Sfc.{SfcHeader, IsHeader, encode_header, header_size, retrieve_header}
use ironhide.Sfc.RoundTrip.{drop-encode_header, retrieve_header_lem}
use ironhide.Db.Roulette.Backend.{Backend}
use ironhide.Endpoint.State.{retrieve_connection_2}
use ironhide.Socket.{Kernel, sendto, inet}
use ironhide.Process.{Process, sys_, ack}
use ironhide.Hop.{chain_entry}
use ironhide.Ingress.{UdpPktMngmntArgs}
use ironhide.Ingress.Chain.{conn_type}
use ironhide.Egress.{Task, manage_pkt_from_chain}

-- The packet is acknowledged, and the thread gets the packet as it is, the protocol of its IP
-- header, the entry of its chain header, and the socket that the egress has for that entry, or -1.
-- The packet is the header, an IP header of five words, and eight bytes of a UDP header or of the
-- front of a TCP header, and the fields of the headers fit their widths.
pub manage_pkt_from_chain_lem :
    (int_to_ip : ℕ → Text) (ip_to_int : Text → ℕ) (backend : Backend) (kernel : Kernel)
    (args : UdpPktMngmntArgs) (header : SfcHeader) (h : Iphdr) (u : Udphdr) (rest : List ℕ)
    (s : Process)
    → args.pkt ≡ encode_header header ++ (encode_iphdr h ++ (encode_udphdr u ++ rest))
    → IsHeader header
    → IsIphdr h
    → IsUdphdr u
    → h.ihl ≡ 5
    → let prt = conn_type h.protocol in
      let ce = chain_entry int_to_ip header prt in
      let task : Task = record {
        prt = prt;
        args = record args { socket_fd = (retrieve_connection_2 s.endpoint ce).0 };
        ce = ce;
      } in
      manage_pkt_from_chain int_to_ip ip_to_int backend kernel args s
      ≡ (ok task, (sys_ kernel (sendto args.socket_fd ack (inet args.client_address)) s).1)
unfolding manage_pkt_from_chain sys_
manage_pkt_from_chain_lem int_to_ip ip_to_int backend kernel args header h u rest s packet hd v w
      five =
    let inner = encode_iphdr h ++ (encode_udphdr u ++ rest) in
    let read : retrieve_header args.pkt ≡ ok header =
      ap retrieve_header packet ∙ retrieve_header_lem header inner hd in
    let stripped : advance args.pkt header_size ≡ inner =
      ap (drop 24) packet ∙ drop-encode_header header inner 24 0 (omega arith) in
    let headers : retrieve_ip_udp_header (advance args.pkt header_size) ≡ ok (h, u) =
      ap retrieve_ip_udp_header stripped ∙ retrieve_ip_udp_header-encode h u rest v w five in
    rw (read, headers)
