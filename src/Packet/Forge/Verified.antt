-- ===== src/Packet/Forge/Verified.antt =====
-- The packets that forge_ip_udp_pkt makes: their headers, their payload and their checksums.
use ironhide.Base.{
  ℕ, ◌+◌, ◌≤◌, ◌<◌, ◌≡◌, refl, ap, List, ◌++◌, arith, length, drop, All, length-drop,
}
use ironhide.Base.Result.{ok}
use ironhide.Base.Text.{Text}
use ironhide.Wire.{htons}
use ironhide.Packet.Headers.{Iphdr, IsIphdr, Udphdr, IsUdphdr, zeros, encode_iphdr, encode_udphdr}
use ironhide.Packet.Checksum.{csum, IsByte}
use ironhide.Packet.Retrieve.{retrieve_ip_udp_header}
use ironhide.Packet.RoundTrip.{retrieve_ip_udp_header-encode}
use ironhide.Packet.Forge.{forge_ip_udp_pkt, forged_ip, forged_udp, pseudo_header}
use ironhide.Packet.Forge.Buffers.{
  memset_zero_kept, strncpy_fits, cut_at_nul, length-cut_at_nul, cut_at_nul-All,
}
use ironhide.Packet.Forge.Steps.{ip_checked, udp_checked, forge_run}

-- The fields of the headers fit their widths.
forged_ip-IsIphdr :
    (inet_addr : Text → ℕ) (len : ℕ) (source_ip dest_ip : Text) (c : ℕ)
    → ((t : Text) → inet_addr t < 4294967296)
    → c < 65536
    → IsIphdr (record (forged_ip inet_addr len source_ip dest_ip) { check = c })
unfolding forged_ip
forged_ip-IsIphdr inet_addr len source_ip dest_ip c address h =
    omega (arith, address source_ip, address dest_ip)

forged_udp-IsUdphdr :
    (len source_port dest_port c : ℕ)
    → c < 65536
    → IsUdphdr (record (forged_udp len source_port dest_port) { check = c })
unfolding forged_udp
forged_udp-IsUdphdr len source_port dest_port c h = omega arith

-- With at most 65507 bytes of data and a buffer of at least 4096 bytes that has room for them and
-- both headers, forge_ip_udp_pkt returns a packet of the two headers and the data, in which zeros
-- stand from the first NUL on. Its headers are read back with the addresses and ports that were
-- given, the ports and the UDP length in network order, the total length in the machine's, and the
-- id zero. The UDP checksum verifies over pseudo header, UDP header and payload; the IP checksum
-- verifies over the IP header, an empty UDP header and the payload. The fields of the headers fit
-- their widths. Data are bytes, and addresses have 32 bits.
pub forge_ip_udp_pkt_lem :
    (inet_addr : Text → ℕ) (source_ip dest_ip : Text) (source_port dest_port : ℕ)
    (data' datagram : List ℕ)
    → ((t : Text) → inet_addr t < 4294967296)
    → All IsByte data'
    → length data' ≤ 65507
    → 4096 ≤ length datagram
    → 28 + length data' ≤ length datagram
    → let n = length data' in
      let payload = cut_at_nul data' in
      (h : Iphdr) × (u : Udphdr) × (tail : List ℕ) × (forge_ip_udp_pkt inet_addr data' n source_ip
          dest_ip source_port dest_port datagram
        ≡ ok (encode_iphdr h ++ (encode_udphdr u ++ (payload ++ tail))))
      × (retrieve_ip_udp_header (encode_iphdr h ++ (encode_udphdr u ++ (payload ++ tail)))
          ≡ ok (h, u))
      × (h.ihl ≡ 5)
      × (h.saddr ≡ inet_addr source_ip)
      × (h.daddr ≡ inet_addr dest_ip)
      × (h.tot_len ≡ 28 + n)
      × (h.id ≡ 0)
      × (u.source ≡ htons source_port)
      × (u.dest ≡ htons dest_port)
      × (u.len ≡ htons (8 + n))
      × (csum (pseudo_header inet_addr n source_ip dest_ip ++ (encode_udphdr u ++ payload)) (20 + n)
          ≡ ok 0)
      × (csum (encode_iphdr h ++ (zeros 8 ++ payload)) (28 + n) ≡ ok 0)
      × IsIphdr h
      × IsUdphdr u
unfolding forged_ip forged_udp
forge_ip_udp_pkt_lem inet_addr source_ip dest_ip source_port dest_port data' datagram address bytes
      short large room =
    let n = length data' in
    let payload = cut_at_nul data' in
    let size = length-cut_at_nul data' in
    let (zeroed, zeroing, same) = memset_zero_kept datagram 4096 large in
    let tail = drop n (drop 28 zeroed) in
    let fits : n ≤ length (drop 28 zeroed) = omega (arith, length-drop 28 zeroed) in
    let v = cut_at_nul-All data' bytes in
    let ip =
      ip_checked inet_addr n source_ip dest_ip payload v (omega (arith, size)) (28 + n)
        (omega (arith, size)) in
    let udp =
      udp_checked inet_addr n source_ip dest_ip payload v (omega (arith, size)) source_port
        dest_port (20 + n) (omega (arith, size)) in
    let h : Iphdr = record (forged_ip inet_addr n source_ip dest_ip) { check = ip.0 } in
    let u : Udphdr = record (forged_udp n source_port dest_port) { check = udp.0 } in
    let v_ip = forged_ip-IsIphdr inet_addr n source_ip dest_ip ip.0 address ip.2 in
    let v_udp = forged_udp-IsUdphdr n source_port dest_port udp.0 udp.2 in
    (
      h,
      u,
      tail,
      forge_run inet_addr source_ip dest_ip source_port dest_port data' datagram zeroed payload tail
          ip.0 udp.0 (omega (arith, size)) short zeroing
          (strncpy_fits (drop 28 zeroed) data' n refl fits) ip.1 udp.1,
      retrieve_ip_udp_header-encode h u (payload ++ tail) v_ip v_udp refl,
      refl,
      refl,
      refl,
      omega arith,
      refl,
      refl,
      refl,
      ap htons (omega arith),
      udp.3,
      ip.3,
      v_ip,
      v_udp,
    )
