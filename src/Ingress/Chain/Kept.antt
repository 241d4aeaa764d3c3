-- ===== src/Ingress/Chain/Kept.antt =====
-- What the handler of packets from the chain keeps.
use ironhide.Base.{ℕ, ◌≡◌, refl, Bool, if◌then◌else◌, ◌+◌}
use ironhide.Base.Result.{ok, exit_failure}
use ironhide.Base.Exec.{
  Exec, Keeps, Keeps-bind, Keeps-next, Keeps-if, lift, pure, raise, gets, ◌>>=◌, ◌>>◌,
}
use ironhide.Base.Text.{Text}
use ironhide.Packet.{Iphdr}
use ironhide.Packet.Retrieve.{
  advance, retrieve_ip_header, tcp_packet_header_size, udp_packet_header_size,
}
use ironhide.Sfc.{SfcHeader, header_size, retrieve_header}
use ironhide.Entry.{ConnectionEntry}
use ironhide.Db.{ProtocolType, tcp, udp}
use ironhide.Db.Roulette.Backend.{Backend}
use ironhide.Endpoint.State.{Endpoint, SockConn, delete_entry, retrieve_connection_2}
use ironhide.Socket.{Kernel, send, sendto, shutdown, close, inet, is_negative}
use ironhide.Process.{Process, on_endpoint, sys, sys_, ack}
use ironhide.Process.Kept.{
  On, Invariant, IsSteady, Steady, Steady-Invariant, on_endpoint-On, sys-On, sys_-On,
}
use ironhide.Hop.{chain_entry}
use ironhide.Ingress.{UdpPktMngmntArgs}
use ironhide.Ingress.Chain.{
  conn_type, behind, answer_tcp, answer_udp, answer, manage_pkt_from_chain,
}

-- The entry of an answer of UDP, as the handler reads it, is in `D`.
abbrev pub Answers {ℓ} : (ConnectionEntry → Type ℓ) → (ℕ → Text) → UdpPktMngmntArgs → Type ℓ
Answers D int_to_ip args =
    (header : SfcHeader) (ip_hdr : Iphdr)
    → retrieve_header args.pkt ≡ ok header
    → retrieve_ip_header (advance args.pkt header_size) ≡ ok ip_hdr
    → conn_type ip_hdr.protocol ≡ udp
    → D (chain_entry int_to_ip header udp)

module _ {ℓ} (A D : ConnectionEntry → Type ℓ) (I : Endpoint → Type ℓ) (int_to_ip : ℕ → Text)
    (backend : Backend) (kernel : Kernel) (invariant : Invariant backend A D I)
    (args : UdpPktMngmntArgs) where
  unless_negative-On :
      {A : Type 0} (b : Bool) (k : Exec Process A)
      → Keeps (On I) k
      → Keeps (On I) ((if b then raise exit_failure else pure tt) >> k)
  unless_negative-On b k h =
      Keeps-bind (On I) (if b then raise exit_failure else pure tt) (λ _. k)
        (Keeps-if (On I) b (raise exit_failure) (pure tt) (λ s w. w) (λ s w. w)) (λ _. h)

  answer_tcp-On : (sock : SockConn) → Keeps (On I) (answer_tcp int_to_ip backend kernel args sock)
  unfolding answer_tcp
  answer_tcp-On sock =
      Keeps-bind (On I) (lift (tcp_packet_header_size (advance args.pkt header_size))) _ (λ s w. w)
        (λ size.
          Keeps-bind (On I) (lift (behind args.pkt args.pkt_len (header_size + size))) _ (λ s w. w)
            (λ payload.
              Keeps-bind (On I) {B = Unit {0}} (sys kernel (send sock.0 payload))
                (λ resp_c.
                  (if is_negative resp_c.result then raise exit_failure else pure tt)
                  >> (sys_ kernel (shutdown sock.0) >> sys_ kernel (close sock.0)))
                (sys-On I kernel (send sock.0 payload))
                (λ resp_c.
                  unless_negative-On (is_negative resp_c.result)
                    (sys_ kernel (shutdown sock.0) >> sys_ kernel (close sock.0))
                    (Keeps-bind (On I) (sys_ kernel (shutdown sock.0))
                      (λ _. sys_ kernel (close sock.0)) (sys_-On I kernel (shutdown sock.0))
                      (λ _. sys_-On I kernel (close sock.0))))))

  answer_udp-On :
      (header : SfcHeader) (sock : SockConn)
      → D (chain_entry int_to_ip header udp)
      → Keeps (On I) (answer_udp int_to_ip backend kernel args header sock)
  unfolding answer_udp
  answer_udp-On header sock allowed =
      let ce = chain_entry int_to_ip header udp in
      Keeps-bind (On I) (lift (udp_packet_header_size (advance args.pkt header_size))) _ (λ s w. w)
        (λ size.
          Keeps-bind (On I) (lift (behind args.pkt args.pkt_len (header_size + size))) _ (λ s w. w)
            (λ payload.
              Keeps-bind (On I) {B = Unit {0}} (sys kernel (sendto sock.0 payload (inet sock.1)))
                (λ resp_c.
                  (if is_negative resp_c.result then raise exit_failure else pure tt)
                  >> on_endpoint (delete_entry backend ce))
                (sys-On I kernel (sendto sock.0 payload (inet sock.1)))
                (λ resp_c.
                  unless_negative-On (is_negative resp_c.result)
                    (on_endpoint (delete_entry backend ce))
                    (on_endpoint-On I (delete_entry backend ce) (invariant.deletes ce allowed)))))

  answer-On :
      (prt : ProtocolType) (header : SfcHeader) (sock : SockConn)
      → (prt ≡ udp → D (chain_entry int_to_ip header udp))
      → Keeps (On I) (answer int_to_ip backend kernel prt args header sock)
  unfolding answer
  answer-On tcp header sock allowed = answer_tcp-On sock
  answer-On udp header sock allowed = answer_udp-On header sock (allowed refl)

  pub from_chain-On :
      Answers D int_to_ip args → Keeps (On I) (manage_pkt_from_chain int_to_ip backend kernel args)
  unfolding manage_pkt_from_chain
  from_chain-On allowed =
      let acked = sendto args.socket_fd ack (inet args.client_address) in
      let found : SfcHeader → Iphdr → Exec Process (Unit {0}) = λ header ip_hdr.
        gets (λ (s : Process).
          retrieve_connection_2 s.endpoint
            (chain_entry int_to_ip header (conn_type ip_hdr.protocol)))
        >>= λ sock. answer int_to_ip backend kernel (conn_type ip_hdr.protocol) args header sock in
      let typed : SfcHeader → Exec Process (Unit {0}) =
        λ header. lift (retrieve_ip_header (advance args.pkt header_size)) >>= found header in
      Keeps-bind (On I) (sys_ kernel acked) (λ _. lift (retrieve_header args.pkt) >>= typed)
        (sys_-On I kernel acked)
        (λ _.
          Keeps-next (On I) (lift (retrieve_header args.pkt)) typed (λ s w. w)
            (λ header _ _ read.
              Keeps-next (On I) (lift (retrieve_ip_header (advance args.pkt header_size)))
                (found header) (λ s w. w)
                (λ ip_hdr _ _ typed_as.
                  let prt = conn_type ip_hdr.protocol in
                  Keeps-bind (On I)
                    (gets (λ (s : Process).
                      retrieve_connection_2 s.endpoint (chain_entry int_to_ip header prt)))
                    (λ sock. answer int_to_ip backend kernel prt args header sock) (λ s w. w)
                    (λ sock. answer-On prt header sock (allowed header ip_hdr read typed_as)))))

pub from_chain-IsSteady :
    (e₀ : Endpoint) (int_to_ip : ℕ → Text) (backend : Backend) (kernel : Kernel)
    (args : UdpPktMngmntArgs)
    → Keeps (IsSteady e₀) (manage_pkt_from_chain int_to_ip backend kernel args)
from_chain-IsSteady e₀ int_to_ip backend kernel args =
    from_chain-On (λ ce. Unit {0}) (λ ce. Unit {0}) (Steady e₀) int_to_ip backend kernel
      (Steady-Invariant e₀ backend) args (λ header ip_hdr _ _ _. tt)
