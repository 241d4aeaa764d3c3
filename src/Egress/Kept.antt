-- ===== src/Egress/Kept.antt =====
-- What the handlers of the egress keep: the answers and the sockets.
pub mod Leaving
pub mod Tasks
use ironhide.Base.{
  ℕ, Bool, true, false, List, [], ◌∷◌, length, ltb, if◌then◌else◌, ◌+◌, ◌||◌, not, drop, ◌≡◌, ◌⊎◌,
  refl, inl, inr,
}
use ironhide.Base.Result.{Result, exit_failure, fault, length_error}
use ironhide.Base.Exec.{Exec, Keeps, Keeps-bind, Keeps-if, lift, pure, raise, gets, ◌>>=◌, ◌>>◌}
use ironhide.Base.Int.{ℤ, pos, negsuc}
use ironhide.Base.Text.{Text, stoi, c_str}
use ironhide.Wire.{htons}
use ironhide.Packet.Retrieve.{
  advance, retrieve_ip_udp_header, udp_packet_header_size, tcp_packet_header_size,
}
use ironhide.Packet.{zeros, Iphdr, Udphdr, decode_iphdr}
use ironhide.Packet.Forge.{strncpy}
use ironhide.Client.{bytes_of}
use ironhide.Client.Tcp.{ClientTcp, access_to_socket, access_to_sockaddr_in, connect_to_server}
use ironhide.Db.{ProtocolType, tcp, udp, egress_t}
use ironhide.Hop.{chain_entry}
use ironhide.Ingress.Chain.{conn_type}
use ironhide.Ingress.{UdpPktMngmntArgs}
use ironhide.Sfc.{SfcHeader, header_size, retrieve_header}
use ironhide.Classifier.{classify_pkt}
use ironhide.Db.Address.{Address}
use ironhide.Db.Roulette.Backend.{Backend}
use ironhide.Endpoint.State.{Endpoint, update_entry, retrieve_connection_2}
use ironhide.Socket.{
  Kernel, SockaddrIn, Answer, is_minus_one, socket, bind, close, af_inet, sock_raw, ipproto_raw,
  ipproto_udp, sendto, inet, is_negative, send,
}
use ironhide.Process.{
  Process, Stream, closes, fails, receives, on_classifier, on_endpoint, on_calls, ack, routes,
  receive_one, sys, sys_, buffer_size,
}
use ironhide.Process.Kept.{
  On, Invariant, on_endpoint-On, on_calls-On, sys-On, sys_-On, receive_one-On,
}
use ironhide.Hop.{forward}
use ironhide.Entry.{ConnectionEntry}
use ironhide.Hop.Kept.{forward-On}
use ironhide.Egress.{
  answer_header, forward_answer, udp_answers, tcp_answers, raw_socket, bind_raw, exiting_datagram,
  payload_len, connection_socket, manage_exiting_udp_packets, manage_exiting_tcp_packets, Task,
  run_task, manage_pkt_from_chain,
}

module _ {ℓ} (A D : ConnectionEntry → Type ℓ) (I : Endpoint → Type ℓ) (int_to_ip : ℕ → Text)
    (ip_to_int : Text → ℕ) (backend : Backend) (kernel : Kernel)
    (invariant : Invariant backend A D I) where
  -- What is behind a part that keeps the endpoint.
  abbrev pub after :
      {X Y : Type 0} (m : Exec Process X) (k : X → Exec Process Y)
      → Keeps (On I) m
      → ((a : X) → Keeps (On I) (k a))
      → Keeps (On I) (m >>= k)
  after m k hm hk = Keeps-bind (On I) m k hm hk

  pub forward_answer-On :
      (header : SfcHeader) (buffer : List ℕ)
      → Keeps (On I) (forward_answer int_to_ip ip_to_int backend kernel header buffer)
  unfolding forward_answer
  forward_answer-On header buffer =
      after (on_classifier (classify_pkt buffer (length buffer))) _
        (invariant.classifies buffer (length buffer))
        (λ sfcid.
          after (lift (stoi sfcid)) _ (λ s v. v)
            (λ p_id. after (routes backend p_id) _ (invariant.asks p_id) (λ path.
              forward-On I kernel buffer (length buffer)
                (answer_header int_to_ip ip_to_int header p_id) path)))

  module _ (fd : ℤ) (header : SfcHeader) where
    pub udp_answers-On :
        (stream : Stream)
        → Keeps (On I) (udp_answers int_to_ip ip_to_int backend kernel fd header stream)
    unfolding udp_answers
    udp_answers-On fails =
        after {Y = Unit {0}} (receive_one fd (negsuc 0) []) (λ _. raise exit_failure)
          (receive_one-On I fd (negsuc 0) []) (λ _ s v. v)
    udp_answers-On closes = receive_one-On I fd (pos 0) []
    udp_answers-On (receives byte bytes rest) =
        let buffer = byte ∷ bytes in
        let short = ltb (length buffer) buffer_size in
        let later = udp_answers int_to_ip ip_to_int backend kernel fd header rest in
        let keeps = udp_answers-On rest in
        let sends = forward_answer int_to_ip ip_to_int backend kernel header buffer in
        after (receive_one fd (pos (length buffer)) buffer)
          (λ _. sends >>= λ sent. if short then pure tt else later)
          (receive_one-On I fd (pos (length buffer)) buffer)
          (λ _.
            after sends (λ sent. if short then pure tt else later) (forward_answer-On header buffer)
              (λ sent. Keeps-if (On I) short (pure tt) later (λ s v. v) keeps))

    pub tcp_answers-On :
        (stream : Stream)
        → Keeps (On I) (tcp_answers int_to_ip ip_to_int backend kernel fd header stream)
    unfolding tcp_answers
    tcp_answers-On fails =
        after {Y = Unit {0}} (receive_one fd (negsuc 0) []) (λ _. raise exit_failure)
          (receive_one-On I fd (negsuc 0) []) (λ _ s v. v)
    tcp_answers-On closes = receive_one-On I fd (pos 0) []
    tcp_answers-On (receives byte bytes rest) =
        let buffer = byte ∷ bytes in
        let short = ltb (length buffer) buffer_size in
        let later = tcp_answers int_to_ip ip_to_int backend kernel fd header rest in
        let keeps = tcp_answers-On rest in
        let sends = forward_answer int_to_ip ip_to_int backend kernel header buffer in
        after (receive_one fd (pos (length buffer)) buffer)
          (λ _. sends >>= λ sent. if not sent || short then pure tt else later)
          (receive_one-On I fd (pos (length buffer)) buffer)
          (λ _.
            after sends (λ sent. if not sent || short then pure tt else later)
              (forward_answer-On header buffer)
              (λ sent. Keeps-if (On I) (not sent || short) (pure tt) later (λ s v. v) keeps))

  pub raw_socket-On :
      (protocol : ℕ) → Keeps (On I) (raw_socket int_to_ip ip_to_int backend kernel protocol)
  unfolding raw_socket
  raw_socket-On protocol =
      let c = socket af_inet sock_raw protocol in
      after {Y = ℤ} (sys kernel c)
        (λ a. if is_minus_one a.result then raise exit_failure else pure a.result)
        (sys-On I kernel c)
        (λ a.
          Keeps-if (On I) (is_minus_one a.result) (raise exit_failure) (pure a.result) (λ s v. v)
            (λ s v. v))

  pub bind_raw-On : (fd : ℤ) → Keeps (On I) (bind_raw int_to_ip ip_to_int backend kernel fd)
  unfolding bind_raw
  bind_raw-On fd =
      let closed : Exec Process (Unit {0}) = sys_ kernel (close fd) >> raise exit_failure in
      let checked : Answer → Exec Process (Unit {0}) =
        λ b. if is_minus_one b.result then closed else pure tt in
      let bound : SockaddrIn → Exec Process (Unit {0}) =
        λ sockstr. sys kernel (bind fd sockstr) >>= checked in
      after
        (gets (λ s. record {
          sin_family = af_inet;
          sin_port = htons s.endpoint.ext_port;
          sin_addr = ip_to_int (c_str s.endpoint.my_ip);
        }))
        bound (λ s v. v)
        (λ sockstr.
          after (sys kernel (bind fd sockstr)) checked (sys-On I kernel (bind fd sockstr)) (λ b.
            Keeps-if (On I) (is_minus_one b.result) closed (pure tt)
              (after {Y = Unit {0}} (sys_ kernel (close fd)) (λ _. raise exit_failure)
                (sys_-On I kernel (close fd)) (λ _ s v. v))
              (λ s v. v)))

  pub exiting_datagram-On :
      (datagram pkt : List ℕ) (pkt_len pkt_calc : ℕ) (ce : ConnectionEntry)
      → Keeps
          (On I)
          (exiting_datagram int_to_ip ip_to_int backend kernel datagram pkt pkt_len pkt_calc ce)
  unfolding exiting_datagram
  exiting_datagram-On datagram pkt pkt_len pkt_calc ce =
      after (lift (payload_len fault pkt_len pkt_calc)) _ (λ s v. v) (λ n s v. v)
