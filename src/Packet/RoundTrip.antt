-- ===== src/Packet/RoundTrip.antt =====
-- The headers that src/utils/packetutils.cpp reads are those that lead the packet, as long as they
-- carry no options; headers with options overflow the structures.
use ironhide.Base.{
  ℕ, ◌+◌, ◌-◌, ◌*◌, ◌≤◌, ◌<◌, ◌≡◌, ◌∙◌, refl, ap, List, [], ◌++◌, drop, drop_front-append,
  drop-length-append, length, arith, append-nil, inl, inr, if◌then◌else◌, ◌==◌, Bool-cases, ==_iff,
}
use ironhide.Base.Result.{ok, err, fault}
use ironhide.Wire.{memcpy, memcpy_front, memcpy_overflows}
use ironhide.Packet.Headers.{
  Iphdr, Tcphdr, Udphdr, zeros, decode_iphdr, decode_tcphdr, IsIphdr, IsTcphdr, IsUdphdr,
  encode_iphdr, encode_tcphdr, encode_udphdr, decode-encode_iphdr, decode-encode_tcphdr,
  decode-encode_udphdr, decode_udphdr,
}
use ironhide.Packet.Retrieve.{
  retrieve_ip_header, retrieve_ip_tcp_header, retrieve_ip_udp_header, udp_packet_header_size,
  tcp_packet_header_size,
}

module _ (h : Iphdr) (v : IsIphdr h) where
  module _ (rest : List ℕ) where
    ip_front : memcpy (zeros 20) (encode_iphdr h ++ rest) 20 ≡ ok (encode_iphdr h)
    unfolding encode_iphdr
    ip_front = memcpy_front (zeros 20) (encode_iphdr h) rest 20 refl refl

    ip_rest : drop 20 (encode_iphdr h ++ rest) ≡ rest
    unfolding encode_iphdr
    ip_rest = refl

    ip_options : 5 < h.ihl → memcpy (zeros 20) (encode_iphdr h ++ rest) (h.ihl * 4) ≡ err fault
    ip_options long = memcpy_overflows (zeros 20) (encode_iphdr h ++ rest) (h.ihl * 4) (omega arith)

  ip_decoded : decode_iphdr (encode_iphdr h) ≡ h
  ip_decoded = rw append-nil at (decode-encode_iphdr h [] v)

module _ (t : Tcphdr) (v : IsTcphdr t) (rest : List ℕ) where
  tcp_front : memcpy (zeros 20) (encode_tcphdr t ++ rest) 20 ≡ ok (encode_tcphdr t)
  unfolding encode_tcphdr
  tcp_front = memcpy_front (zeros 20) (encode_tcphdr t) rest 20 refl refl

  tcp_options : 5 < t.doff → memcpy (zeros 20) (encode_tcphdr t ++ rest) (t.doff * 4) ≡ err fault
  tcp_options long =
      memcpy_overflows (zeros 20) (encode_tcphdr t ++ rest) (t.doff * 4) (omega arith)

  tcp_decoded : decode_tcphdr (encode_tcphdr t) ≡ t
  tcp_decoded = rw append-nil at (decode-encode_tcphdr t [] v)

module _ (u : Udphdr) (v : IsUdphdr u) (rest : List ℕ) where
  udp_front : memcpy (zeros 8) (encode_udphdr u ++ rest) 8 ≡ ok (encode_udphdr u)
  unfolding encode_udphdr
  udp_front = memcpy_front (zeros 8) (encode_udphdr u) rest 8 refl refl

  udp_decoded : decode_udphdr (encode_udphdr u) ≡ u
  udp_decoded = rw append-nil at (decode-encode_udphdr u [] v)

-- A UDP packet without options.
pub length_udp :
    (h : Iphdr) (u : Udphdr) (payload : List ℕ)
    → length (encode_iphdr h ++ (encode_udphdr u ++ payload)) ≡ 28 + length payload
unfolding encode_iphdr encode_udphdr
length_udp h u payload = omega arith

-- A TCP packet without IP options.
pub length_tcp :
    (h : Iphdr) (t : Tcphdr) (rest : List ℕ)
    → length (encode_iphdr h ++ (encode_tcphdr t ++ rest)) ≡ 40 + length rest
unfolding encode_iphdr encode_tcphdr
length_tcp h t rest = omega arith

-- A packet that begins with an IP header of at least five words is read as that header when it has
-- exactly five; a longer header overflows the structure that it is copied to.
pub retrieve_ip_header-encode :
    (h : Iphdr) (rest : List ℕ)
    → IsIphdr h
    → 5 ≤ h.ihl
    → retrieve_ip_header (encode_iphdr h ++ rest) ≡ (if h.ihl == 5 then ok h else err fault)
unfolding retrieve_ip_header
retrieve_ip_header-encode h rest v five = elim (Bool-cases (h.ihl == 5)) [
  | inl e ↦ let exact = (==_iff h.ihl 5).0 e in simp (ip_front, ip_decoded h v, exact)
  | inr e ↦ rw (ip_front, ip_decoded h v, ip_options h v rest (ground arith), e)
]

-- A packet that begins with an IP header of five words and a TCP header of at least five is read
-- as those headers when the TCP header has exactly five words; a longer one overflows.
pub retrieve_ip_tcp_header-encode :
    (h : Iphdr) (t : Tcphdr) (rest : List ℕ)
    → IsIphdr h
    → IsTcphdr t
    → h.ihl ≡ 5
    → 5 ≤ t.doff
    → retrieve_ip_tcp_header (encode_iphdr h ++ (encode_tcphdr t ++ rest))
      ≡ (if t.doff == 5 then ok (h, t) else err fault)
unfolding retrieve_ip_tcp_header
retrieve_ip_tcp_header-encode h t rest v w exact five = elim (Bool-cases (t.doff == 5)) [
  | inl e ↦
      let words = (==_iff t.doff 5).0 e in
      simp (ip_front, ip_decoded h v, exact, ip_rest, tcp_front, tcp_decoded t w, words)
  | inr e ↦ simp (
    ip_front,
    ip_decoded h v,
    exact,
    ip_rest,
    tcp_front,
    tcp_decoded t w,
    tcp_options t w rest (ground arith),
    e,
  )
]

-- A packet that begins with an IP header of five words and a UDP header is read as those headers.
pub retrieve_ip_udp_header-encode :
    (h : Iphdr) (u : Udphdr) (rest : List ℕ)
    → IsIphdr h
    → IsUdphdr u
    → h.ihl ≡ 5
    → retrieve_ip_udp_header (encode_iphdr h ++ (encode_udphdr u ++ rest)) ≡ ok (h, u)
unfolding retrieve_ip_udp_header
retrieve_ip_udp_header-encode h u rest v w exact =
    simp (ip_front, ip_decoded h v, exact, ip_rest, udp_front, udp_decoded u w)

module _ (h : Iphdr) (options : List ℕ) (five : 5 ≤ h.ihl) where
  module _ (filled : length options ≡ (h.ihl - 5) * 4) (rest : List ℕ) where
    -- The addresses behind the IP header and its options.
    behind_ip : (k : ℕ) → drop (h.ihl * 4 + k) (encode_iphdr h ++ (options ++ rest)) ≡ drop k rest
    unfolding encode_iphdr
    behind_ip k =
        drop_front-append (encode_iphdr h) (options ++ rest) (h.ihl * 4 + k) (length options + k)
          (omega arith)
        ∙ drop_front-append options rest (length options + k) k refl

    at_transport : drop (h.ihl * 4) (encode_iphdr h ++ (options ++ rest)) ≡ rest
    at_transport =
        ap (λ k. drop k (encode_iphdr h ++ (options ++ rest))) (omega arith) ∙ behind_ip 0

behind_tcp :
    (t : Tcphdr) (options payload : List ℕ)
    → 5 ≤ t.doff
    → length options ≡ (t.doff - 5) * 4
    → drop (t.doff * 4) (encode_tcphdr t ++ (options ++ payload)) ≡ payload
unfolding encode_tcphdr
behind_tcp t options payload five filled =
    drop_front-append (encode_tcphdr t) (options ++ payload) (t.doff * 4) (length options)
      (omega arith)
    ∙ drop-length-append options payload

-- For a UDP packet, with whatever IP options, the size that the program computes is where the
-- payload begins.
pub drop_udp_headers :
    (h : Iphdr) (u : Udphdr) (options payload : List ℕ)
    → IsIphdr h
    → 5 ≤ h.ihl
    → length options ≡ (h.ihl - 5) * 4
    → let pkt = encode_iphdr h ++ (options ++ (encode_udphdr u ++ payload)) in
      (udp_packet_header_size pkt ≡ ok (h.ihl * 4 + 8)) × (drop (h.ihl * 4 + 8) pkt ≡ payload)
unfolding udp_packet_header_size encode_udphdr
drop_udp_headers h u options payload v five filled = (
  simp (ip_front, ip_decoded h v),
  behind_ip h options five filled (encode_udphdr u ++ payload) 8,
)

-- For a TCP packet, with whatever IP and TCP options, the size that the program computes is where
-- the payload begins.
pub drop_tcp_headers :
    (h : Iphdr) (t : Tcphdr) (options tcp_opts payload : List ℕ)
    → IsIphdr h
    → IsTcphdr t
    → 5 ≤ h.ihl
    → length options ≡ (h.ihl - 5) * 4
    → 5 ≤ t.doff
    → length tcp_opts ≡ (t.doff - 5) * 4
    → let pkt = encode_iphdr h ++ (options ++ (encode_tcphdr t ++ (tcp_opts ++ payload))) in
      (tcp_packet_header_size pkt ≡ ok (h.ihl * 4 + t.doff * 4))
      × (drop (h.ihl * 4 + t.doff * 4) pkt ≡ payload)
unfolding tcp_packet_header_size
drop_tcp_headers h t options tcp_opts payload v w five filled tfive tfilled =
    let rest = encode_tcphdr t ++ (tcp_opts ++ payload) in
    (
      simp (
        ip_front,
        ip_decoded h v,
        at_transport h options five filled rest,
        tcp_front,
        tcp_decoded t w,
      ),
      behind_ip h options five filled rest (t.doff * 4)
          ∙ behind_tcp t tcp_opts payload tfive tfilled,
    )
