-- ===== src/Packet/Forge/Steps.antt =====
-- The steps of forge_ip_udp_pkt, and what the two checksums that it computes verify.
use ironhide.Base.{
  ℕ, ◌+◌, ◌≤◌, ◌<◌, ◌≡◌, ◌∙◌, refl, ap, List, [], ◌++◌, arith, length, drop, take, All, length-drop,
  length-replicate,
}
use ironhide.Base.Result.{ok}
use ironhide.Base.Text.{Text}
use ironhide.Wire.{memcpy, memcpy_front, memcpy_fits}
use ironhide.Packet.Headers.{Udphdr, zeros, put32, encode_iphdr, encode_udphdr}
use ironhide.Packet.Checksum.{csum, csum_front, csum_verifies, IsByte}
use ironhide.Packet.Forge.{
  forge_ip_udp_pkt, forged_ip, forged_udp, pseudo_header, memset_zero, strncpy,
}

module _ (inet_addr : Text → ℕ) (len : ℕ) (source_ip dest_ip : Text) (payload : List ℕ)
    (v : All IsByte payload) (short : length payload ≤ 65507) where
  -- The IP checksum fits its field, and verifies over header, empty UDP header and payload.
  pub ip_checked :
      (n : ℕ)
      → n ≡ 28 + length payload
      → let h = forged_ip inet_addr len source_ip dest_ip in
        (c : ℕ) × (csum (encode_iphdr h ++ (zeros 8 ++ payload)) n ≡ ok c)
        × (c < 65536)
        × (csum (encode_iphdr (record h { check = c }) ++ (zeros 8 ++ payload)) n ≡ ok 0)
  unfolding encode_iphdr forged_ip
  ip_checked n e =
      let h = forged_ip inet_addr len source_ip dest_ip in
      let front : List ℕ = take 10 (encode_iphdr h) in
      let back = put32 h.saddr (put32 h.daddr (zeros 8 ++ payload)) in
      let size : n ≡ length front + length back + 2 = omega arith in
      rw size (csum_verifies 5 front back refl (ground arith) (ground (arith, v)) (omega arith))

  -- The UDP checksum verifies over pseudo header, UDP header and payload.
  pub udp_checked :
      (source_port dest_port n : ℕ)
      → n ≡ 20 + length payload
      → let u = forged_udp len source_port dest_port in
        let pseudo = pseudo_header inet_addr len source_ip dest_ip in
        (c : ℕ) × (csum (pseudo ++ (encode_udphdr u ++ payload)) n ≡ ok c)
        × (c < 65536)
        × (csum (pseudo ++ (encode_udphdr (record u { check = c }) ++ payload)) n ≡ ok 0)
  unfolding encode_udphdr forged_udp pseudo_header
  udp_checked source_port dest_port n e =
      let u = forged_udp len source_port dest_port in
      let front : List ℕ =
        pseudo_header inet_addr len source_ip dest_ip ++ take 6 (encode_udphdr u) in
      let size : n ≡ length front + length payload + 2 = omega arith in
      rw size (csum_verifies 9 front payload refl (ground arith) v (omega arith))

-- The memory of the pseudo header, at the front of the pseudo datagram.
module _ (inet_addr : Text → ℕ) (len : ℕ) (source_ip dest_ip : Text) where
  pseudo_copied :
      (rest : List ℕ)
      → let pseudo = pseudo_header inet_addr len source_ip dest_ip in
        (take 12 pseudo ≡ pseudo)
        × (take 12 (pseudo ++ rest) ≡ pseudo)
        × (drop 12 (pseudo ++ rest) ≡ rest)
  unfolding pseudo_header
  pseudo_copied rest = (refl, refl, refl)

  pseudo_written :
      (n : ℕ)
      → let pseudo = pseudo_header inet_addr len source_ip dest_ip in
        memcpy (zeros (12 + 8 + n)) pseudo 12 ≡ ok (pseudo ++ drop 12 (zeros (12 + 8 + n)))
  pseudo_written n =
      let pseudo = pseudo_header inet_addr len source_ip dest_ip in
      memcpy_fits (zeros (12 + 8 + n)) pseudo 12
        (omega (arith, length-replicate {A = ℕ} (12 + 8 + n) 0))
        (unfold pseudo_header in omega arith)
      ∙ ap (λ t. ok (t ++ drop 12 (zeros (12 + 8 + n)))) (pseudo_copied []).0

  -- The pseudo datagram gets the UDP header and the payload, whatever lies behind them.
  datagram_written :
      (u : Udphdr) (payload tail : List ℕ) (n : ℕ)
      → n ≡ length payload
      → memcpy (drop 12 (zeros (12 + 8 + n))) (encode_udphdr u ++ (payload ++ tail)) (8 + n)
        ≡ ok (encode_udphdr u ++ payload)
  unfolding encode_udphdr
  datagram_written u payload tail n e =
      memcpy_front (drop 12 (zeros (12 + 8 + n))) (encode_udphdr u ++ payload) tail (8 + n)
        (omega
          (arith, length-drop 12 (zeros (12 + 8 + n)), length-replicate {A = ℕ} (12 + 8 + n) 0))
        (omega arith)

  -- The bytes that the IP checksum does not count.
  ip_counted :
      (payload tail : List ℕ) (n : ℕ)
      → n ≡ 28 + length payload
      → let h = forged_ip inet_addr len source_ip dest_ip in
        csum (encode_iphdr h ++ (zeros 8 ++ (payload ++ tail))) n
        ≡ csum (encode_iphdr h ++ (zeros 8 ++ payload)) n
  unfolding encode_iphdr
  ip_counted payload tail n e =
      csum_front (encode_iphdr (forged_ip inet_addr len source_ip dest_ip) ++ (zeros 8 ++ payload))
        tail n (omega arith)

module _ (inet_addr : Text → ℕ) (source_ip dest_ip : Text) (source_port dest_port : ℕ)
    (data' datagram : List ℕ) where
  -- The steps of forge_ip_udp_pkt, one behind the other.
  pub forge_run :
      (zeroed payload tail : List ℕ) (c d : ℕ)
      → let n = length data' in
        n ≡ length payload
        → n ≤ 65507
        → memset_zero datagram 4096 ≡ ok zeroed
        → strncpy (drop 28 zeroed) data' n ≡ ok (payload ++ tail)
        → let h = forged_ip inet_addr n source_ip dest_ip in
          let u = forged_udp n source_port dest_port in
          csum (encode_iphdr h ++ (zeros 8 ++ payload)) (28 + n) ≡ ok c
          → csum
              (pseudo_header inet_addr n source_ip dest_ip ++ (encode_udphdr u ++ payload))
              (20 + n)
            ≡ ok d
          → forge_ip_udp_pkt inet_addr data' n source_ip dest_ip source_port dest_port datagram
            ≡ ok (
                encode_iphdr (record h { check = c })
                ++ (encode_udphdr (record u { check = d }) ++ (payload ++ tail)))
  unfolding forge_ip_udp_pkt
  forge_run zeroed payload tail c d size short zeroing copying ip_sum udp_sum =
      let n = length data' in
      let u = forged_udp n source_port dest_port in
      let total : (forged_ip inet_addr n source_ip dest_ip).tot_len ≡ 28 + n =
        unfold forged_ip in omega arith in
      let h = forged_ip inet_addr n source_ip dest_ip in
      let counted : csum (encode_iphdr h ++ (zeros 8 ++ (payload ++ tail))) h.tot_len ≡ ok c =
        ap (csum (encode_iphdr h ++ (zeros 8 ++ (payload ++ tail)))) total
        ∙ ip_counted inet_addr n source_ip dest_ip payload tail (28 + n) (omega arith)
        ∙ ip_sum in
      let copied = pseudo_copied inet_addr n source_ip dest_ip (drop 12 (zeros (12 + 8 + n))) in
      let summed : csum
            (take 12 (pseudo_header inet_addr n source_ip dest_ip ++ drop 12 (zeros (12 + 8 + n)))
              ++ (encode_udphdr u ++ payload))
            (12 + 8 + n)
          ≡ ok d =
        ap (λ t. csum (t ++ (encode_udphdr u ++ payload)) (12 + 8 + n)) copied.1 ∙ udp_sum in
      rw (
        zeroing,
        copying,
        counted,
        pseudo_written inet_addr n source_ip dest_ip n,
        copied.2,
        datagram_written inet_addr n source_ip dest_ip u payload tail n size,
        summed,
      )
