-- ===== src/Egress/Kept/Tasks.antt =====
-- What the handler of packets of the chain and its threads keep.
use ironhide.Base.{ℕ, List, ◌+◌, drop, ◌≡◌, ◌⊎◌, refl, inl, inr}
use ironhide.Base.Result.{length_error}
use ironhide.Base.Exec.{Exec, Keeps, Keeps-if, lift, pure, gets, ◌>>=◌, ◌>>◌}
use ironhide.Base.Int.{ℤ}
use ironhide.Base.Text.{Text, c_str}
use ironhide.Wire.{htons}
use ironhide.Packet.Retrieve.{advance, retrieve_ip_udp_header, tcp_packet_header_size}
use ironhide.Packet.{zeros, Iphdr, Udphdr}
use ironhide.Packet.Forge.{strncpy}
use ironhide.Client.Tcp.{ClientTcp, access_to_socket, access_to_sockaddr_in, connect_to_server}
use ironhide.Db.{ProtocolType, tcp, udp, egress_t}
use ironhide.Hop.{chain_entry}
use ironhide.Ingress.Chain.{conn_type}
use ironhide.Ingress.{UdpPktMngmntArgs}
use ironhide.Sfc.{SfcHeader, header_size, retrieve_header}
use ironhide.Db.Roulette.Backend.{Backend}
use ironhide.Endpoint.State.{Endpoint, update_entry, retrieve_connection_2}
use ironhide.Socket.{Kernel, is_minus_one, sendto, inet, send}
use ironhide.Process.{Process, Stream, on_endpoint, on_calls, ack, sys_, buffer_size}
use ironhide.Process.Kept.{On, Invariant, on_endpoint-On, on_calls-On, sys_-On}
use ironhide.Entry.{ConnectionEntry}
use ironhide.Egress.{
  tcp_answers, payload_len, connection_socket, manage_exiting_tcp_packets, Task, run_task,
  manage_pkt_from_chain,
}
use ironhide.Egress.Kept.{after, tcp_answers-On}
use ironhide.Egress.Kept.Leaving.{exiting_udp-On}

module _ {ℓ} (A D : ConnectionEntry → Type ℓ) (I : Endpoint → Type ℓ) (int_to_ip : ℕ → Text)
    (ip_to_int : Text → ℕ) (backend : Backend) (kernel : Kernel)
    (invariant : Invariant backend A D I) where
  connection_socket-On :
      (ce : ConnectionEntry) (header : SfcHeader) (fd : ℤ)
      → A ce
      → Keeps (On I) (connection_socket int_to_ip ip_to_int backend kernel ce header fd)
  unfolding connection_socket
  connection_socket-On ce header fd allowed =
      let connects =
        connect_to_server kernel buffer_size (c_str (int_to_ip header.destination_address))
          (htons header.destination_port) in
      let told : ClientTcp → Exec Endpoint (Unit {0}) = λ client.
        update_entry backend ce (access_to_socket client) (access_to_sockaddr_in client) egress_t in
      let made : ClientTcp → Exec Process ℤ =
        λ client. on_endpoint (told client) >> pure (access_to_socket client) in
      Keeps-if (On I) (is_minus_one fd) (on_calls connects >>= made) (pure fd)
        (after A D I int_to_ip ip_to_int backend kernel invariant (on_calls connects) made
          (on_calls-On I connects)
          (λ client.
            after A D I int_to_ip ip_to_int backend kernel invariant (on_endpoint (told client))
              (λ _. pure (access_to_socket client))
              (on_endpoint-On I (told client) (
                invariant.updates ce (access_to_socket client) (access_to_sockaddr_in client)
                  egress_t allowed))
              (λ _ s v. v)))
        (λ s v. v)

  exiting_tcp-On :
      (pkt : List ℕ) (pkt_len : ℕ) (ce : ConnectionEntry) (fd : ℤ) (stream : Stream)
      → A ce
      → Keeps
          (On I)
          (manage_exiting_tcp_packets int_to_ip ip_to_int backend kernel pkt pkt_len ce fd stream)
  unfolding manage_exiting_tcp_packets
  exiting_tcp-On pkt pkt_len ce fd stream allowed =
      let leaves : SfcHeader → List ℕ → ℤ → Exec Process (Unit {0}) = λ header message connected.
        sys_ kernel (send connected message)
        >> tcp_answers int_to_ip ip_to_int backend kernel connected header stream in
      let connects : SfcHeader → List ℕ → Exec Process (Unit {0}) = λ header message.
        connection_socket int_to_ip ip_to_int backend kernel ce header fd
        >>= leaves header message in
      let copies : SfcHeader → ℕ → ℕ → Exec Process (Unit {0}) = λ header size len.
        lift (strncpy (zeros len) (drop (header_size + size) pkt) len) >>= connects header in
      let counts : SfcHeader → ℕ → Exec Process (Unit {0}) = λ header size.
        lift (payload_len length_error pkt_len (header_size + size)) >>= copies header size in
      let sizes : SfcHeader → Exec Process (Unit {0}) =
        λ header. lift (tcp_packet_header_size (advance pkt header_size)) >>= counts header in
      after A D I int_to_ip ip_to_int backend kernel invariant (lift (retrieve_header pkt)) sizes
        (λ s v. v)
        (λ header.
          after A D I int_to_ip ip_to_int backend kernel invariant
            (lift (tcp_packet_header_size (advance pkt header_size))) (counts header) (λ s v. v)
            (λ size.
              after A D I int_to_ip ip_to_int backend kernel invariant
                (lift (payload_len length_error pkt_len (header_size + size))) (copies header size)
                (λ s v. v)
                (λ len.
                  after A D I int_to_ip ip_to_int backend kernel invariant
                    (lift (strncpy (zeros len) (drop (header_size + size) pkt) len))
                    (connects header) (λ s v. v)
                    (λ message.
                      after A D I int_to_ip ip_to_int backend kernel invariant
                        (connection_socket int_to_ip ip_to_int backend kernel ce header fd)
                        (leaves header message) (connection_socket-On ce header fd allowed)
                        (λ connected.
                          after A D I int_to_ip ip_to_int backend kernel invariant
                            (sys_ kernel (send connected message))
                            (λ _.
                              tcp_answers int_to_ip ip_to_int backend kernel connected header
                                stream)
                            (sys_-On I kernel (send connected message))
                            (λ _.
                              tcp_answers-On A D I int_to_ip ip_to_int backend kernel invariant
                                connected header stream))))))

  protocol-cases : (prt : ProtocolType) → (prt ≡ tcp) ⊎ (prt ≡ udp)
  protocol-cases tcp = inl refl
  protocol-cases udp = inr refl

  pub run_task-On :
      (datagram : List ℕ) (task : Task) (stream : Stream)
      → A task.ce
      → Keeps (On I) (run_task int_to_ip ip_to_int backend kernel datagram task stream)
  unfolding run_task
  run_task-On datagram task stream allowed s v =
      let pkt = task.args.pkt in
      let n = task.args.pkt_len in
      elim (protocol-cases task.prt) [
        | inl e ↦ rw e (exiting_tcp-On pkt n task.ce task.args.socket_fd stream allowed s v)
        | inr e ↦ rw e (
            exiting_udp-On A D I int_to_ip ip_to_int backend kernel invariant datagram pkt n task.ce
              stream allowed s v)
      ]

  pub chained-On :
      (args : UdpPktMngmntArgs)
      → Keeps (On I) (manage_pkt_from_chain int_to_ip ip_to_int backend kernel args)
  unfolding manage_pkt_from_chain
  chained-On args =
      let c = sendto args.socket_fd ack (inet args.client_address) in
      let makes : SfcHeader → Iphdr × Udphdr → Exec Process Task = λ flh headers.
        let prt = conn_type headers.0.protocol in
        let ce = chain_entry int_to_ip flh prt in
        gets (λ (s : Process). (retrieve_connection_2 s.endpoint ce).0) >>= λ fd.
        pure (record { prt = prt; args = record args { socket_fd = fd }; ce = ce }) in
      let reads : SfcHeader → Exec Process Task =
        λ flh. lift (retrieve_ip_udp_header (advance args.pkt header_size)) >>= makes flh in
      after A D I int_to_ip ip_to_int backend kernel invariant (sys_ kernel c)
        (λ _. lift (retrieve_header args.pkt) >>= reads) (sys_-On I kernel c)
        (λ _.
          after A D I int_to_ip ip_to_int backend kernel invariant (lift (retrieve_header args.pkt))
            reads (λ s v. v)
            (λ flh.
              after A D I int_to_ip ip_to_int backend kernel invariant
                (lift (retrieve_ip_udp_header (advance args.pkt header_size))) (makes flh)
                (λ s v. v) (λ headers s v. v)))
