-- ===== src/Packet/Retrieve.antt =====
-- Reading headers off a packet. A structure is filled by `memcpy` with the length that the packet
-- itself states, in words of four bytes; a length beyond the structure is a fault.
use ironhide.Base.{ℕ, ◌+◌, ◌*◌, List, drop}
use ironhide.Base.Result.{Result, ok, ◌>>=◌}
use ironhide.Wire.{memcpy}
use ironhide.Packet.Headers.{
  Iphdr, Tcphdr, Udphdr, ip_hdr_len, udp_hdr_len, tcp_hdr_len, zeros, decode_iphdr, decode_tcphdr,
  decode_udphdr,
}

-- `pkt + n`
abbrev pub advance : List ℕ → ℕ → List ℕ
advance pkt n = drop n pkt

-- retrieve_ip_header
unfoldable pub retrieve_ip_header : List ℕ → Result Iphdr
retrieve_ip_header pkt = do
  tmp ← memcpy (zeros ip_hdr_len) pkt ip_hdr_len
  h_ip ← memcpy (zeros ip_hdr_len) pkt ((decode_iphdr tmp).ihl * 4)
  ok (decode_iphdr h_ip)

-- retrieve_ip_tcp_header
unfoldable pub retrieve_ip_tcp_header : List ℕ → Result (Iphdr × Tcphdr)
retrieve_ip_tcp_header pkt = do
  ip_tmp ← memcpy (zeros ip_hdr_len) pkt ip_hdr_len
  let ip_pkt_len = (decode_iphdr ip_tmp).ihl * 4
  h_ip ← memcpy (zeros ip_hdr_len) pkt ip_pkt_len
  tcp_tmp ← memcpy (zeros tcp_hdr_len) (advance pkt ip_pkt_len) tcp_hdr_len
  h_tcp ← memcpy (zeros tcp_hdr_len) (advance pkt ip_pkt_len) ((decode_tcphdr tcp_tmp).doff * 4)
  ok (decode_iphdr h_ip, decode_tcphdr h_tcp)

-- retrieve_ip_udp_header
unfoldable pub retrieve_ip_udp_header : List ℕ → Result (Iphdr × Udphdr)
retrieve_ip_udp_header pkt = do
  ip_tmp ← memcpy (zeros ip_hdr_len) pkt ip_hdr_len
  let ip_pkt_len = (decode_iphdr ip_tmp).ihl * 4
  h_ip ← memcpy (zeros ip_hdr_len) pkt ip_pkt_len
  h_udp ← memcpy (zeros udp_hdr_len) (advance pkt ip_pkt_len) udp_hdr_len
  ok (decode_iphdr h_ip, decode_udphdr h_udp)

-- udp_packet_header_size
unfoldable pub udp_packet_header_size : List ℕ → Result ℕ
udp_packet_header_size pkt = do
  h_ip ← memcpy (zeros ip_hdr_len) pkt ip_hdr_len
  ok ((decode_iphdr h_ip).ihl * 4 + udp_hdr_len)

-- tcp_packet_header_size
unfoldable pub tcp_packet_header_size : List ℕ → Result ℕ
tcp_packet_header_size pkt = do
  h_ip ← memcpy (zeros ip_hdr_len) pkt ip_hdr_len
  let pkt_size = (decode_iphdr h_ip).ihl * 4
  h_tcp ← memcpy (zeros tcp_hdr_len) (advance pkt pkt_size) tcp_hdr_len
  ok (pkt_size + (decode_tcphdr h_tcp).doff * 4)
