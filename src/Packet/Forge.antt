-- ===== src/Packet/Forge.antt =====
-- src/utils/packetutils.cpp, forge_ip_udp_pkt: a packet with forged addresses.
pub mod Buffers
pub mod Steps
pub mod Verified
use ironhide.Base.{
  ℕ, zero, suc, ◌+◌, List, [], ◌∷◌, ◌++◌, drop, take, replicate, ◌==◌, if◌then◌else◌,
}
use ironhide.Base.Result.{Result, ok, err, fault, bind, ◌>>=◌}
use ironhide.Base.Text.{Text}
use ironhide.Wire.{memcpy, htons, htonl, u16}
use ironhide.Packet.Headers.{Iphdr, Udphdr, zeros, put16, put32, encode_iphdr, encode_udphdr}
use ironhide.Packet.Checksum.{csum}

-- memset of `n` bytes of an object to zero.
unfoldable pub memset_zero : List ℕ → ℕ → Result (List ℕ)
memset_zero dst zero = ok dst
memset_zero [] (suc n) = err fault
memset_zero (d ∷ dst) (suc n) = bind (memset_zero dst n) (λ rest. ok (0 ∷ rest))

-- strncpy: bytes up to a NUL are copied, and zeros fill what is left of `n`.
unfoldable pub strncpy : List ℕ → List ℕ → ℕ → Result (List ℕ)
unfolding memset_zero
strncpy dst src zero = ok dst
strncpy [] src (suc n) = err fault
strncpy (d ∷ dst) [] (suc n) = err fault
strncpy (d ∷ dst) (c ∷ src) (suc n) =
    let rest = strncpy dst src n in
    if c == 0 then memset_zero (d ∷ dst) (suc n) else bind rest (λ out. ok (c ∷ out))

-- The IP header, its checksum zero. `tot_len` is not brought to network order, and `id` keeps the
-- low half of htonl.
unfoldable pub forged_ip : (Text → ℕ) → ℕ → Text → Text → Iphdr
forged_ip inet_addr data_len source_ip dest_ip = record {
  ihl = 5;
  version = 4;
  tos = 0;
  tot_len = u16 (28 + data_len);
  id = u16 (htonl 54321);
  frag_off = 0;
  ttl = 255;
  protocol = 17;
  check = 0;
  saddr = inet_addr source_ip;
  daddr = inet_addr dest_ip;
}

-- The UDP header, its checksum zero.
unfoldable pub forged_udp : ℕ → ℕ → ℕ → Udphdr
forged_udp data_len source_port dest_port = record {
  source = htons source_port;
  dest = htons dest_port;
  len = htons (u16 (8 + data_len));
  check = 0;
}

-- The memory of the pseudo header.
unfoldable pub pseudo_header : (Text → ℕ) → ℕ → Text → Text → List ℕ
pseudo_header inet_addr data_len source_ip dest_ip =
    put32 (inet_addr source_ip)
      (put32 (inet_addr dest_ip) (0 ∷ 17 ∷ put16 (htons (u16 (8 + data_len))) []))

-- forge_ip_udp_pkt, from the buffer `datagram` to its bytes when it returns; both headers stand at
-- its front.
unfoldable pub forge_ip_udp_pkt :
    (Text → ℕ) → List ℕ → ℕ → Text → Text → ℕ → ℕ → List ℕ → Result (List ℕ)
unfolding forged_ip forged_udp pseudo_header
forge_ip_udp_pkt inet_addr data' data_len source_ip dest_ip source_port dest_port datagram = do
  zeroed ← memset_zero datagram 4096
  behind ← strncpy (drop 28 zeroed) data' data_len
  let iph = forged_ip inet_addr data_len source_ip dest_ip
  ip_check ← csum (encode_iphdr iph ++ (zeros 8 ++ behind)) iph.tot_len
  let udph = forged_udp data_len source_port dest_port
  let psize = 12 + 8 + data_len
  pseudo ← memcpy (zeros psize) (pseudo_header inet_addr data_len source_ip dest_ip) 12
  datagrams ← memcpy (drop 12 pseudo) (encode_udphdr udph ++ behind) (8 + data_len)
  udp_check ← csum (take 12 pseudo ++ datagrams) psize
  ok (
      encode_iphdr (record iph { check = ip_check })
      ++ (encode_udphdr (record udph { check = udp_check }) ++ behind))
