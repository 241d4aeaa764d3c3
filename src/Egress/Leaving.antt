-- ===== src/Egress/Leaving.antt =====
-- The datagram with which a UDP packet of the chain leaves for its server.
use ironhide.Base.{
  ℕ, ◌+◌, ◌-◌, ◌≡◌, ◌<◌, ◌∙◌, refl, ap, sym, false, List, ◌∷◌, ◌++◌, drop, take-length-append,
  length, arith, length-append, ltb,
}
use ironhide.Base.Result.{ok}
use ironhide.Base.Int.{ℤ}
use ironhide.Base.Exec.{◌>>◌}
use ironhide.Base.Text.{Text, c_str}
use ironhide.Wire.{htons}
use ironhide.Packet.{
  Iphdr, IsIphdr, Udphdr, encode_iphdr, encode_udphdr, decode_iphdr, decode-encode_iphdr,
}
use ironhide.Packet.Retrieve.{udp_packet_header_size, advance}
use ironhide.Packet.RoundTrip.{length_udp}
use ironhide.Packet.Forge.{forge_ip_udp_pkt}
use ironhide.Sfc.{SfcHeader, header_size, retrieve_header}
use ironhide.Entry.{ConnectionEntry}
use ironhide.Db.{egress_t}
use ironhide.Db.Roulette.Backend.{Backend}
use ironhide.Endpoint.State.{update_entry}
use ironhide.Socket.{
  Kernel, Calls, call, SockaddrIn, Call, socket, bind, sendto, inet, af_inet, sock_raw, ipproto_raw,
  ipproto_udp, is_minus_one,
}
use ironhide.Socket.Held.{held, delivered}
use ironhide.Client.{bytes_of}
use ironhide.Client.Udp.Delivery.{Accepts, Book, positive_tests}
use ironhide.Process.{Process, Stream, on_endpoint, on_calls, sys}
use ironhide.Egress.{
  raw_socket, bind_raw, exiting_datagram, payload_len, udp_answers, manage_exiting_udp_packets,
}

-- A system that binds every socket.
pub record Binds (kernel : Kernel) : Type 0 where
  pub binds :
      (s : Calls) (fd : ℤ) (address : SockaddrIn)
      → is_minus_one (kernel s (bind fd address)).result ≡ false

abbrev with_call : Kernel → Call → Process → Process
with_call kernel c s = record s { calls = (c, kernel s.calls c) ∷ s.calls }

module _ (ip_to_int : Text → ℕ) (kernel : Kernel) (book : Book)
    (accepts : Accepts kernel book) where
  raw_socket-made :
      (int_to_ip : ℕ → Text) (backend : Backend) (protocol : ℕ) (s : Process)
      → let c = socket af_inet sock_raw protocol in
        (raw_socket int_to_ip ip_to_int backend kernel protocol s
          ≡ (ok (kernel s.calls c).result, with_call kernel c s))
        × (held (with_call kernel c s).calls ≡ (kernel s.calls c).result ∷ held s.calls)
        × (delivered (with_call kernel c s).calls ≡ delivered s.calls)
  unfolding raw_socket held delivered
  raw_socket-made int_to_ip backend protocol s =
      let made = positive_tests _ (accepts.makes s.calls af_inet sock_raw protocol) in
      (rw (made.1), rw (made.0), refl)

  bind_raw-made :
      (int_to_ip : ℕ → Text) (backend : Backend) (fd : ℤ) (s : Process)
      → Binds kernel
      → let c = bind fd (record {
        sin_family = af_inet;
        sin_port = htons s.endpoint.ext_port;
        sin_addr = ip_to_int (c_str s.endpoint.my_ip);
      }) in
        (bind_raw int_to_ip ip_to_int backend kernel fd s ≡ (ok tt, with_call kernel c s))
        × (held (with_call kernel c s).calls ≡ held s.calls)
        × (delivered (with_call kernel c s).calls ≡ delivered s.calls)
  unfolding bind_raw held delivered
  bind_raw-made int_to_ip backend fd s b =
      let c = bind fd (record {
        sin_family = af_inet;
        sin_port = htons s.endpoint.ext_port;
        sin_addr = ip_to_int (c_str s.endpoint.my_ip);
      }) in
      (
        rw (
            b.binds s.calls fd (record {
              sin_family = af_inet;
              sin_port = htons s.endpoint.ext_port;
              sin_addr = ip_to_int (c_str s.endpoint.my_ip);
            })),
        refl,
        refl,
      )

-- The datagram is forged of the payload behind the headers.
exiting_datagram-forged :
    (int_to_ip : ℕ → Text) (ip_to_int : Text → ℕ) (backend : Backend) (kernel : Kernel)
    (datagram pkt payload forged : List ℕ) (pkt_len : ℕ) (ce : ConnectionEntry) (s : Process)
    → pkt_len ≡ 52 + length payload
    → drop 52 pkt ≡ payload
    → forge_ip_udp_pkt ip_to_int payload
        (length payload)
        (c_str s.endpoint.my_ip)
        (c_str ce.ip_dst)
        s.endpoint.ext_port
        ce.port_dst
        datagram
      ≡ ok forged
    → exiting_datagram int_to_ip ip_to_int backend kernel datagram pkt pkt_len 52 ce s
      ≡ (ok forged, s)
unfolding exiting_datagram payload_len
exiting_datagram-forged int_to_ip ip_to_int backend kernel datagram pkt payload forged pkt_len ce s
      size behind forges =
    let short : ltb pkt_len 52 ≡ false = ground arith in
    let left : pkt_len - 52 ≡ length payload = omega arith in rw (short, left, behind, forges)

bytes_of-front : (xs ys : List ℕ) → bytes_of (xs ++ ys) (length xs) ≡ ok xs
bytes_of-front xs ys =
    let fits : ltb (length (xs ++ ys)) (length xs) ≡ false = ground (arith, length-append xs ys) in
    rw (fits, take-length-append xs ys)

-- The bytes of a forged packet that are sent are its headers and its payload.
pub forged-bytes :
    (h : Iphdr) (u : Udphdr) (payload tail : List ℕ)
    → IsIphdr h
    → h.tot_len ≡ 28 + length payload
    → let forged = encode_iphdr h ++ (encode_udphdr u ++ (payload ++ tail)) in
      bytes_of forged (decode_iphdr forged).tot_len
      ≡ ok (encode_iphdr h ++ (encode_udphdr u ++ payload))
unfolding encode_iphdr encode_udphdr
forged-bytes h u payload tail v size =
    let sent = encode_iphdr h ++ (encode_udphdr u ++ payload) in
    let rest = encode_udphdr u ++ (payload ++ tail) in
    let total : (decode_iphdr (encode_iphdr h ++ rest)).tot_len ≡ length sent =
      ap (λ (x : Iphdr). x.tot_len) (decode-encode_iphdr h rest v)
      ∙ size
      ∙ sym (length_udp h u payload) in
    ap (bytes_of (encode_iphdr h ++ rest)) total ∙ bytes_of-front sent tail

-- What the egress does before it tells the service: whatever forges, `datagram` goes out.
module _ (ip_to_int : Text → ℕ) (kernel : Kernel) (book : Book)
    (accepts : Accepts kernel book) where
  pub sent-exiting :
      (int_to_ip : ℕ → Text) (backend : Backend) (datagram pkt payload forged bytes : List ℕ)
      (pkt_len : ℕ) (header : SfcHeader) (ce : ConnectionEntry) (stream : Stream) (s : Process)
      → Binds kernel
      → pkt_len ≡ 52 + length payload
      → retrieve_header pkt ≡ ok header
      → udp_packet_header_size (advance pkt header_size) ≡ ok 28
      → drop 52 pkt ≡ payload
      → forge_ip_udp_pkt ip_to_int payload
          (length payload)
          (c_str s.endpoint.my_ip)
          (c_str ce.ip_dst)
          s.endpoint.ext_port
          ce.port_dst
          datagram
        ≡ ok forged
      → bytes_of forged (decode_iphdr forged).tot_len ≡ ok bytes
      → 0 < length bytes
      → let server : SockaddrIn = record {
        sin_family = af_inet;
        sin_port = htons header.destination_port;
        sin_addr = header.destination_address;
      } in
        (sock : ℤ) × (receiver : ℤ) × (sent : Process) × (sent.endpoint ≡ s.endpoint)
        × (delivered sent.calls ≡ (bytes, inet server) ∷ delivered s.calls)
        × (held sent.calls ≡ receiver ∷ sock ∷ held s.calls)
        × (manage_exiting_udp_packets int_to_ip ip_to_int backend kernel datagram pkt pkt_len ce
              stream s
            ≡ (on_endpoint (update_entry backend ce sock server egress_t)
                  >> udp_answers int_to_ip ip_to_int backend kernel receiver header stream)
                sent)
  unfolding manage_exiting_udp_packets delivered held sys on_calls call on_endpoint
  sent-exiting int_to_ip backend datagram pkt payload forged bytes pkt_len header ce stream s b size
        read sized behind forges taken some =
      let server : SockaddrIn = record {
        sin_family = af_inet;
        sin_port = htons header.destination_port;
        sin_addr = header.destination_address;
      } in
      let c1 = socket af_inet sock_raw ipproto_raw in
      let sock = (kernel s.calls c1).result in
      let s1 = with_call kernel c1 s in
      let c2 = socket af_inet sock_raw ipproto_udp in
      let receiver = (kernel s1.calls c2).result in
      let s2 = with_call kernel c2 s1 in
      let c3 = bind receiver (record {
        sin_family = af_inet;
        sin_port = htons s.endpoint.ext_port;
        sin_addr = ip_to_int (c_str s.endpoint.my_ip);
      }) in
      let s3 = with_call kernel c3 s2 in
      let c4 = sendto sock bytes (inet server) in
      let (made, held1, _) =
        raw_socket-made ip_to_int kernel book accepts int_to_ip backend ipproto_raw s in
      let forged_here =
        exiting_datagram-forged int_to_ip ip_to_int backend kernel datagram pkt payload forged
          pkt_len ce s1 size behind forges in
      let (made2, held2, _) =
        raw_socket-made ip_to_int kernel book accepts int_to_ip backend ipproto_udp s1 in
      let (bound, _, _) =
        bind_raw-made ip_to_int kernel book accepts int_to_ip backend receiver s2 b in
      let goes = accepts.sends s3.calls sock bytes (inet server) some in
      let stays = (positive_tests _ goes).0 in
      (
        sock,
        receiver,
        with_call kernel c4 s3,
        refl,
        rw goes,
        held2 ∙ ap (λ l. receiver ∷ l) held1,
        rw (sized, read, made, forged_here, made2, bound, taken, stays),
      )
