-- ===== src/Egress/Kept/Leaving.antt =====
-- What the handler of UDP packets that leave keeps.
use ironhide.Base.{ℕ, List, if◌then◌else◌, ◌+◌}
use ironhide.Base.Result.{exit_failure}
use ironhide.Base.Exec.{Exec, Keeps, Keeps-if, lift, pure, raise, ◌>>=◌, ◌>>◌}
use ironhide.Base.Int.{ℤ}
use ironhide.Base.Text.{Text}
use ironhide.Wire.{htons}
use ironhide.Packet.Retrieve.{advance, udp_packet_header_size}
use ironhide.Packet.{decode_iphdr}
use ironhide.Client.{bytes_of}
use ironhide.Db.{egress_t}
use ironhide.Sfc.{SfcHeader, header_size, retrieve_header}
use ironhide.Db.Roulette.Backend.{Backend}
use ironhide.Endpoint.State.{Endpoint, update_entry}
use ironhide.Socket.{
  Kernel, SockaddrIn, Answer, af_inet, ipproto_raw, ipproto_udp, sendto, inet, is_negative,
}
use ironhide.Process.{Process, Stream, on_endpoint, sys}
use ironhide.Process.Kept.{On, Invariant, on_endpoint-On, sys-On}
use ironhide.Entry.{ConnectionEntry}
use ironhide.Egress.{
  udp_answers, raw_socket, bind_raw, exiting_datagram, manage_exiting_udp_packets,
}
use ironhide.Egress.Kept.{after, raw_socket-On, bind_raw-On, exiting_datagram-On, udp_answers-On}

module _ {ℓ} (A D : ConnectionEntry → Type ℓ) (I : Endpoint → Type ℓ) (int_to_ip : ℕ → Text)
    (ip_to_int : Text → ℕ) (backend : Backend) (kernel : Kernel)
    (invariant : Invariant backend A D I) where
  -- The parts of manage_exiting_udp_packets, the last first.
  abbrev server : SfcHeader → SockaddrIn
  server header = record {
    sin_family = af_inet;
    sin_port = htons header.destination_port;
    sin_addr = header.destination_address;
  }

  abbrev told : ConnectionEntry → SfcHeader → Stream → ℤ → ℤ → Exec Process (Unit {0})
  told ce header stream sock receiver =
      on_endpoint (update_entry backend ce sock (server header) egress_t)
      >> udp_answers int_to_ip ip_to_int backend kernel receiver header stream

  abbrev checked : ConnectionEntry → SfcHeader → Stream → ℤ → ℤ → Answer → Exec Process (Unit {0})
  checked ce header stream sock receiver sent =
      (if is_negative sent.result then raise exit_failure else pure tt)
      >> told ce header stream sock receiver

  abbrev sends : ConnectionEntry → SfcHeader → Stream → ℤ → ℤ → List ℕ → Exec Process (Unit {0})
  sends ce header stream sock receiver bytes =
      sys kernel (sendto sock bytes (inet (server header)))
      >>= checked ce header stream sock receiver

  abbrev binds : ConnectionEntry → SfcHeader → Stream → ℤ → List ℕ → ℤ → Exec Process (Unit {0})
  binds ce header stream sock forged receiver =
      bind_raw int_to_ip ip_to_int backend kernel receiver
      >> (lift (bytes_of forged (decode_iphdr forged).tot_len)
          >>= sends ce header stream sock receiver)

  abbrev forges :
      List ℕ → List ℕ → ℕ → ℕ → ConnectionEntry → SfcHeader → Stream → ℤ → Exec Process (Unit {0})
  forges datagram pkt pkt_len pkt_calc ce header stream sock =
      exiting_datagram int_to_ip ip_to_int backend kernel datagram pkt pkt_len pkt_calc ce
      >>= λ forged.
          raw_socket int_to_ip ip_to_int backend kernel ipproto_udp
          >>= binds ce header stream sock forged

  module _ (ce : ConnectionEntry) (header : SfcHeader) (stream : Stream) (sock : ℤ)
      (allowed : A ce) where
    told-On : (receiver : ℤ) → Keeps (On I) (told ce header stream sock receiver)
    told-On receiver =
        after A D I int_to_ip ip_to_int backend kernel invariant
          (on_endpoint (update_entry backend ce sock (server header) egress_t))
          (λ _. udp_answers int_to_ip ip_to_int backend kernel receiver header stream)
          (on_endpoint-On I (update_entry backend ce sock (server header) egress_t)
            (invariant.updates ce sock (server header) egress_t allowed))
          (λ _.
            udp_answers-On A D I int_to_ip ip_to_int backend kernel invariant receiver header
              stream)

    sends-On :
        (receiver : ℤ) (bytes : List ℕ) → Keeps (On I) (sends ce header stream sock receiver bytes)
    sends-On receiver bytes =
        let c = sendto sock bytes (inet (server header)) in
        after A D I int_to_ip ip_to_int backend kernel invariant (sys kernel c)
          (checked ce header stream sock receiver) (sys-On I kernel c)
          (λ sent.
            after A D I int_to_ip ip_to_int backend kernel invariant
              (if is_negative sent.result then raise exit_failure else pure tt)
              (λ _. told ce header stream sock receiver)
              (Keeps-if (On I) (is_negative sent.result) (raise exit_failure) (pure tt) (λ s v. v)
                (λ s v. v))
              (λ _. told-On receiver))

    binds-On :
        (forged : List ℕ) (receiver : ℤ)
        → Keeps (On I) (binds ce header stream sock forged receiver)
    binds-On forged receiver =
        let taken = lift (bytes_of forged (decode_iphdr forged).tot_len) in
        after A D I int_to_ip ip_to_int backend kernel invariant
          (bind_raw int_to_ip ip_to_int backend kernel receiver)
          (λ _. taken >>= sends ce header stream sock receiver)
          (bind_raw-On A D I int_to_ip ip_to_int backend kernel invariant receiver)
          (λ _.
            after A D I int_to_ip ip_to_int backend kernel invariant taken
              (sends ce header stream sock receiver) (λ s v. v) (sends-On receiver))

    forges-On :
        (datagram pkt : List ℕ) (pkt_len pkt_calc : ℕ)
        → Keeps (On I) (forges datagram pkt pkt_len pkt_calc ce header stream sock)
    forges-On datagram pkt pkt_len pkt_calc =
        let receives_on = raw_socket int_to_ip ip_to_int backend kernel ipproto_udp in
        after A D I int_to_ip ip_to_int backend kernel invariant
          (exiting_datagram int_to_ip ip_to_int backend kernel datagram pkt pkt_len pkt_calc ce)
          (λ forged. receives_on >>= binds ce header stream sock forged)
          (exiting_datagram-On A D I int_to_ip ip_to_int backend kernel invariant datagram pkt
            pkt_len pkt_calc ce)
          (λ forged.
            after A D I int_to_ip ip_to_int backend kernel invariant receives_on
              (binds ce header stream sock forged)
              (raw_socket-On A D I int_to_ip ip_to_int backend kernel invariant ipproto_udp)
              (binds-On forged))

  pub exiting_udp-On :
      (datagram pkt : List ℕ) (pkt_len : ℕ) (ce : ConnectionEntry) (stream : Stream)
      → A ce
      → Keeps (On I) (
          manage_exiting_udp_packets int_to_ip ip_to_int backend kernel datagram pkt pkt_len ce
            stream)
  unfolding manage_exiting_udp_packets
  exiting_udp-On datagram pkt pkt_len ce stream allowed =
      let opens : ℕ → SfcHeader → Exec Process (Unit {0}) = λ size header.
        raw_socket int_to_ip ip_to_int backend kernel ipproto_raw
        >>= forges datagram pkt pkt_len (header_size + size) ce header stream in
      after A D I int_to_ip ip_to_int backend kernel invariant
        (lift (udp_packet_header_size (advance pkt header_size)))
        (λ size. lift (retrieve_header pkt) >>= opens size) (λ s v. v)
        (λ size.
          after A D I int_to_ip ip_to_int backend kernel invariant (lift (retrieve_header pkt))
            (opens size) (λ s v. v)
            (λ header.
              after A D I int_to_ip ip_to_int backend kernel invariant
                (raw_socket int_to_ip ip_to_int backend kernel ipproto_raw)
                (forges datagram pkt pkt_len (header_size + size) ce header stream)
                (raw_socket-On A D I int_to_ip ip_to_int backend kernel invariant ipproto_raw)
                (λ sock.
                  forges-On ce header stream sock allowed datagram pkt pkt_len
                    (header_size + size))))
