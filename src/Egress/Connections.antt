-- ===== src/Egress/Connections.antt =====
-- A TCP packet of the chain leaves for its server on the connection of its entry.
use ironhide.Base.{
  ℕ, refl, ◌+◌, ◌-◌, ◌*◌, ◌≡◌, ◌≤◌, ◌∙◌, ap, sym, false, List, [], ◌++◌, drop, length, arith,
  length-append, length-replicate, append-nil, drop-length, ltb, if◌then◌else◌, Bool-cases, inl,
  inr,
}
use mathlib.Core.Path.{fun_ext}
use ironhide.Base.Result.{ok}
use ironhide.Base.Int.{ℤ}
use ironhide.Base.Exec.{Exec, pure, bind_assoc, ◌>>◌, ◌>>=◌}
use ironhide.Base.Text.{Text, c_str}
use ironhide.Wire.{htons}
use ironhide.Packet.{Iphdr, IsIphdr, Tcphdr, IsTcphdr, encode_iphdr, encode_tcphdr, zeros}
use ironhide.Packet.Retrieve.{tcp_packet_header_size, advance}
use ironhide.Packet.RoundTrip.{drop_tcp_headers, length_tcp}
use ironhide.Packet.Forge.{strncpy}
use ironhide.Packet.Forge.Buffers.{cut_at_nul, strncpy_fits}
use ironhide.Sfc.{SfcHeader, IsHeader, encode_header, header_size, retrieve_header}
use ironhide.Sfc.RoundTrip.{length-encode_header, drop-encode_header, retrieve_header_lem}
use ironhide.Entry.{ConnectionEntry}
use ironhide.Db.{egress_t}
use ironhide.Db.Roulette.Backend.{Backend}
use ironhide.Endpoint.State.{update_entry}
use ironhide.Socket.{Kernel, send, is_minus_one}
use ironhide.Client.Tcp.{ClientTcp, access_to_socket, access_to_sockaddr_in, connect_to_server}
use ironhide.Process.{Process, Stream, on_endpoint, on_calls, sys_, buffer_size}
use ironhide.Egress.{payload_len, connection_socket, tcp_answers, manage_exiting_tcp_packets}

-- strncpy into an object of the size of the payload.
strncpy-whole :
    (payload : List ℕ)
    → strncpy (zeros (length payload)) payload (length payload) ≡ ok (cut_at_nul payload)
strncpy-whole payload =
    let n = length payload in
    let size : length (zeros n) ≡ n = length-replicate n 0 in
    let nothing : drop n (zeros n) ≡ [] =
      ap (λ k. drop k (zeros n)) (sym size) ∙ drop-length (zeros n) in
    strncpy_fits (zeros n) payload n refl (omega (arith, size))
    ∙ ap (λ l. ok (cut_at_nul payload ++ l)) nothing
    ∙ ap ok (append-nil (cut_at_nul payload))

-- What follows on the socket of a connection.
connection_socket-next :
    (int_to_ip : ℕ → Text) (ip_to_int : Text → ℕ) (backend : Backend) (kernel : Kernel)
    (ce : ConnectionEntry) (header : SfcHeader) (fd : ℤ) (next : ℤ → Exec Process (Unit {0}))
    (s : Process)
    → (connection_socket int_to_ip ip_to_int backend kernel ce header fd >>= next) s
      ≡ (if is_minus_one fd
            then (on_calls (
                  connect_to_server kernel buffer_size
                    (c_str (int_to_ip header.destination_address))
                    (htons header.destination_port))
                >>= λ client.
                    on_endpoint (
                      update_entry backend ce
                        (access_to_socket client)
                        (access_to_sockaddr_in client)
                        egress_t)
                    >> next (access_to_socket client))
            else next fd)
          s
unfolding connection_socket
connection_socket-next int_to_ip ip_to_int backend kernel ce header fd next s =
    elim (Bool-cases (is_minus_one fd)) [
      | inl e ↦
          let told : ClientTcp → Exec Process (Unit {0}) = λ client. on_endpoint (
            update_entry backend ce (access_to_socket client) (access_to_sockaddr_in client)
              egress_t) in
          let connects = on_calls (
            connect_to_server kernel buffer_size (c_str (int_to_ip header.destination_address))
              (htons header.destination_port)) in
          rw e (
            bind_assoc connects (λ client. told client >> pure (access_to_socket client)) next s
            ∙ ap (λ (k : ClientTcp → Exec Process (Unit {0})). (connects >>= k) s)
                (fun_ext λ client.
                  fun_ext (bind_assoc (told client) (λ _. pure (access_to_socket client)) next)))
      | inr e ↦ rw e
    ]

-- Once the payload is found, it goes out on the socket of the connection.
exiting_tcp-payload :
    (int_to_ip : ℕ → Text) (ip_to_int : Text → ℕ) (backend : Backend) (kernel : Kernel)
    (pkt payload : List ℕ) (pkt_len size : ℕ) (header : SfcHeader) (ce : ConnectionEntry) (fd : ℤ)
    (stream : Stream) (s : Process)
    → retrieve_header pkt ≡ ok header
    → tcp_packet_header_size (advance pkt header_size) ≡ ok size
    → pkt_len ≡ 24 + size + length payload
    → drop (24 + size) pkt ≡ payload
    → let leave : ℤ → Exec Process (Unit {0}) = λ connected.
      sys_ kernel (send connected (cut_at_nul payload))
      >> tcp_answers int_to_ip ip_to_int backend kernel connected header stream in
      manage_exiting_tcp_packets int_to_ip ip_to_int backend kernel pkt pkt_len ce fd stream s
      ≡ (if is_minus_one fd
            then (on_calls (
                  connect_to_server kernel buffer_size
                    (c_str (int_to_ip header.destination_address))
                    (htons header.destination_port))
                >>= λ client.
                    on_endpoint (
                      update_entry backend ce
                        (access_to_socket client)
                        (access_to_sockaddr_in client)
                        egress_t)
                    >> leave (access_to_socket client))
            else leave fd)
          s
unfolding manage_exiting_tcp_packets payload_len
exiting_tcp-payload int_to_ip ip_to_int backend kernel pkt payload pkt_len size header ce fd stream
      s read sized whole behind =
    let short : ltb pkt_len (24 + size) ≡ false = ground arith in
    let left : pkt_len - (24 + size) ≡ length payload = omega arith in
    let copied = strncpy-whole payload in
    rw (read, sized, short, left, behind, copied)
      (connection_socket-next int_to_ip ip_to_int backend kernel ce header fd
        (λ connected.
          sys_ kernel (send connected (cut_at_nul payload))
          >> tcp_answers int_to_ip ip_to_int backend kernel connected header stream)
        s)

-- The payload of a TCP packet of the chain, with zeros from its first NUL on, goes out on the
-- socket that the egress has for its entry; where there is none, that is -1, on one that is first
-- connected to the address of the header and told to the service. The answers are then received on
-- it. The packet is the header, an IP header of five words, a TCP header with its options, and the
-- payload; its length is that of the packet, and the fields of the headers fit their widths.
pub manage_exiting_tcp_packets_lem :
    (int_to_ip : ℕ → Text) (ip_to_int : Text → ℕ) (backend : Backend) (kernel : Kernel)
    (pkt : List ℕ) (pkt_len : ℕ) (header : SfcHeader) (h : Iphdr) (t : Tcphdr)
    (tcp_opts payload : List ℕ) (ce : ConnectionEntry) (fd : ℤ) (stream : Stream) (s : Process)
    → pkt ≡ encode_header header ++ (encode_iphdr h ++ (encode_tcphdr t ++ (tcp_opts ++ payload)))
    → pkt_len ≡ length pkt
    → IsHeader header
    → IsIphdr h
    → IsTcphdr t
    → h.ihl ≡ 5
    → 5 ≤ t.doff
    → length tcp_opts ≡ (t.doff - 5) * 4
    → let leave : ℤ → Exec Process (Unit {0}) = λ connected.
      sys_ kernel (send connected (cut_at_nul payload))
      >> tcp_answers int_to_ip ip_to_int backend kernel connected header stream in
      manage_exiting_tcp_packets int_to_ip ip_to_int backend kernel pkt pkt_len ce fd stream s
      ≡ (if is_minus_one fd
            then (on_calls (
                  connect_to_server kernel buffer_size
                    (c_str (int_to_ip header.destination_address))
                    (htons header.destination_port))
                >>= λ client.
                    on_endpoint (
                      update_entry backend ce
                        (access_to_socket client)
                        (access_to_sockaddr_in client)
                        egress_t)
                    >> leave (access_to_socket client))
            else leave fd)
          s
manage_exiting_tcp_packets_lem int_to_ip ip_to_int backend kernel pkt pkt_len header h t tcp_opts
      payload ce fd stream s packet whole hd v w five tfive tfilled =
    let inner = encode_iphdr h ++ (encode_tcphdr t ++ (tcp_opts ++ payload)) in
    let size = 20 + t.doff * 4 in
    let words : h.ihl * 4 + t.doff * 4 ≡ size = omega (arith, five) in
    let (read_size, rest) =
      drop_tcp_headers h t [] tcp_opts payload v w (omega (arith, five)) (omega (arith, five)) tfive
        tfilled in
    let sized : tcp_packet_header_size (advance pkt header_size) ≡ ok size =
      ap tcp_packet_header_size
        (ap (drop 24) packet ∙ drop-encode_header header inner 24 0 (omega arith))
      ∙ read_size
      ∙ ap ok words in
    let behind : drop (24 + size) pkt ≡ payload =
      ap (drop (24 + size)) packet
      ∙ drop-encode_header header inner (24 + size) size (omega arith)
      ∙ ap (λ n. drop n inner) (sym words)
      ∙ rest in
    let all : pkt_len ≡ 24 + size + length payload = omega (
      arith,
      ap length packet,
      length-append (encode_header header) inner,
      length-encode_header header,
      length_tcp h t (tcp_opts ++ payload),
      length-append tcp_opts payload,
      tfilled,
      tfive,
    ) in
    exiting_tcp-payload int_to_ip ip_to_int backend kernel pkt payload pkt_len size header ce fd
      stream s (ap retrieve_header packet ∙ retrieve_header_lem header inner hd) sized all behind
