-- ===== src/Tests/Packets.antt =====
-- Headers, checksums and the headers of chains at concrete packets.
use ironhide.Base.{
  ℕ, ◌<◌, ◌≡◌, refl, List, [], ◌∷◌, ◌++◌, arith, if◌then◌else◌, ◌==◌, All, replicate, zero, suc, ℕ,
}
use ironhide.Base.Result.{ok, err, fault}
use ironhide.Base.Text.{codes}
use ironhide.Packet.{encode_iphdr, encode_tcphdr, encode_udphdr, put16, zeros}
use ironhide.Packet.Checksum.{csum, csum_verifies, IsByte}
use ironhide.Packet.Retrieve.{retrieve_ip_tcp_header, retrieve_ip_udp_header}
use ironhide.Packet.RoundTrip.{retrieve_ip_tcp_header-encode}
use ironhide.Packet.Forge.{forge_ip_udp_pkt, pseudo_header}
use ironhide.Packet.Forge.Buffers.{cut_at_nul}
use ironhide.Packet.Forge.Verified.{forge_ip_udp_pkt_lem}
use ironhide.Base.{length-replicate}
use ironhide.Packet.{Iphdr, IsIphdr, Udphdr, IsUdphdr}
use ironhide.Wire.{htons}
use ironhide.Sfc.{
  SfcHeader, IsHeader, encode_header, create_header, prepend_header, retrieve_header,
  retrieve_payload,
}
use ironhide.Sfc.Fields.{encode-retrieve_header}
use ironhide.Sfc.FixedLength.{
  SfcFixedLengthHeader, from_bytes, get_header, set_ttl, set_service_index,
}
use ironhide.Sfc.RoundTrip.{retrieve-create_header, retrieve-set_fields}
use ironhide.Tests.Data.{
  ip, ip-IsIphdr, tcp_header, tcp_header-IsTcphdr, word, sfc, address_by_length, sfc-IsHeader,
}

csum_verifies_example :
    (c : ℕ) × (csum (1 ∷ 2 ∷ put16 0 (3 ∷ [])) 5 ≡ ok c)
    × (c < 65536)
    × (csum (1 ∷ 2 ∷ put16 c (3 ∷ [])) 5 ≡ ok 0)
csum_verifies_example =
    csum_verifies 1 (1 ∷ 2 ∷ []) (3 ∷ []) refl (omega arith, (omega arith, tt)) (omega arith, tt)
      (omega arith)

retrieve_ip_tcp_header-encode_example :
    retrieve_ip_tcp_header (encode_iphdr ip ++ (encode_tcphdr tcp_header ++ word))
    ≡ (if 6 == 5 then ok (ip, tcp_header) else err fault)
retrieve_ip_tcp_header-encode_example =
    retrieve_ip_tcp_header-encode ip tcp_header word ip-IsIphdr tcp_header-IsTcphdr refl
      (omega arith)

-- A time to live of 64, which is what the callers of create_header get by default, is read as 0.
retrieve-create_header_example :
    (out : List ℕ) × (h : SfcHeader) × (prepend_header word 4
        (create_header address_by_length 300 2 (codes "10.0.0.1") 8080 (codes "10.0.0.2") 53 64 1)
        (zeros 28)
      ≡ ok out)
    × (retrieve_header out ≡ ok h)
    × (h.p_id ≡ 300)
    × (h.si ≡ 2)
    × (h.ttl ≡ 0)
    × (h.direction_flag ≡ 1)
    × (h.source_port ≡ 8080)
    × (h.destination_port ≡ 53)
    × (h.source_address ≡ 8)
    × (h.destination_address ≡ 8)
retrieve-create_header_example =
    retrieve-create_header address_by_length 300 2 (codes "10.0.0.1") 8080 (codes "10.0.0.2") 53 64
      1 word (zeros 28) (λ t. omega arith) (omega arith) (omega arith) refl

retrieve-set_fields_example :
    (f : SfcFixedLengthHeader) × (out : List ℕ) × (from_bytes (encode_header sfc ++ word) ≡ ok f)
    × (prepend_header word 4 (get_header (set_ttl (set_service_index f 1) 65)) (zeros 28) ≡ ok out)
    × (retrieve_header out ≡ ok (record sfc { si = 1; ttl = 1 }))
    × (retrieve_payload out 28 ≡ ok word)
retrieve-set_fields_example = retrieve-set_fields sfc word (zeros 28) 1 65 sfc-IsHeader refl

forge_ip_udp_pkt_lem_example :
    let payload = cut_at_nul word in
    let from = codes "10.0.0.1" in
    let to = codes "10.0.0.22" in
    (h : Iphdr) × (u : Udphdr) × (tail : List ℕ) × (forge_ip_udp_pkt address_by_length word 4 from
        to 53 8080
        (zeros 4096)
      ≡ ok (encode_iphdr h ++ (encode_udphdr u ++ (payload ++ tail))))
    × (retrieve_ip_udp_header (encode_iphdr h ++ (encode_udphdr u ++ (payload ++ tail)))
        ≡ ok (h, u))
    × (h.ihl ≡ 5)
    × (h.saddr ≡ 8)
    × (h.daddr ≡ 9)
    × (h.tot_len ≡ 32)
    × (h.id ≡ 0)
    × (u.source ≡ htons 53)
    × (u.dest ≡ htons 8080)
    × (u.len ≡ htons 12)
    × (csum (pseudo_header address_by_length 4 from to ++ (encode_udphdr u ++ payload)) 24 ≡ ok 0)
    × (csum (encode_iphdr h ++ (zeros 8 ++ payload)) 32 ≡ ok 0)
    × IsIphdr h
    × IsUdphdr u
forge_ip_udp_pkt_lem_example =
    forge_ip_udp_pkt_lem address_by_length (codes "10.0.0.1") (codes "10.0.0.22") 53 8080 word
      (zeros 4096) (λ t. omega arith) (omega arith, (omega arith, (omega arith, (omega arith, tt))))
      (omega arith) (omega (arith, length-replicate {A = ℕ} 4096 0))
      (omega (arith, length-replicate {A = ℕ} 4096 0))

-- 26 bytes that nobody made as a header.
abbrev noise : List ℕ
noise = replicate 26 255

noise_bytes : (n : ℕ) → All IsByte (replicate n 255)
noise_bytes zero = tt
noise_bytes (suc n) = (omega arith, noise_bytes n)

encode-retrieve_header_example :
    (h : SfcHeader) × (retrieve_header noise ≡ ok h)
    × IsHeader h
    × (encode_header h ≡ replicate 23 255 ++ 1 ∷ [])
encode-retrieve_header_example = encode-retrieve_header noise (noise_bytes 26) (omega arith)
