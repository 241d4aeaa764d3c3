-- ===== src/Ingress/Kept.antt =====
-- What the handlers of the ingress keep.
use ironhide.Base.{ℕ, ◌≡◌}
use ironhide.Base.Result.{ok}
use ironhide.Base.Exec.{Keeps, Keeps-bind, Keeps-next, lift, pure}
use ironhide.Base.Text.{Text, stoi}
use ironhide.Packet.{Iphdr, Udphdr}
use ironhide.Packet.Retrieve.{retrieve_ip_udp_header}
use ironhide.Classifier.Chains.{IsSfcMap}
use ironhide.Classifier.{SfcMap, classify_pkt}
use ironhide.Entry.{ConnectionEntry}
use ironhide.Db.{ingress_t, udp}
use ironhide.Db.Roulette.Backend.{Backend}
use ironhide.Endpoint.State.{Endpoint, add_entry}
use ironhide.Socket.{Kernel}
use ironhide.Process.{on_classifier, on_endpoint, routes}
use ironhide.Process.Kept.{On, Invariant, on_endpoint-On, IsSteady, Steady, Steady-Invariant}
use ironhide.Hop.{forward}
use ironhide.Hop.Kept.{forward-On}
use ironhide.Ingress.{
  UdpPktMngmntArgs, packet_entry, udp_header, route, manage_entering_udp_packets,
}

-- The entry of a packet, as the handler reads it, is in `A`.
abbrev pub Enters {ℓ} : (ConnectionEntry → Type ℓ) → (ℕ → Text) → UdpPktMngmntArgs → Type ℓ
Enters A int_to_ip args =
    (m : SfcMap) (sfcid : Text) (headers : Iphdr × Udphdr)
    → IsSfcMap m
    → (classify_pkt args.pkt args.pkt_len m).0 ≡ ok sfcid
    → retrieve_ip_udp_header args.pkt ≡ ok headers
    → A (packet_entry int_to_ip headers sfcid udp)

module _ {ℓ} (A D : ConnectionEntry → Type ℓ) (I : Endpoint → Type ℓ) (int_to_ip : ℕ → Text)
    (ip_to_int : Text → ℕ) (backend : Backend) (kernel : Kernel)
    (invariant : Invariant backend A D I) where
  route-On :
      (args : UdpPktMngmntArgs) (headers : Iphdr × Udphdr) (sfcid : Text)
      → Keeps (On I) (route int_to_ip ip_to_int backend kernel args headers sfcid)
  unfolding route
  route-On args headers sfcid =
      Keeps-bind (On I) (lift (stoi sfcid)) _ (λ s v. v)
        (λ p_id. Keeps-bind (On I) (routes backend p_id) _ (invariant.asks p_id) (λ path.
          Keeps-bind (On I)
            (forward kernel args.pkt args.pkt_len (udp_header int_to_ip ip_to_int headers p_id)
              path)
            (λ _. pure tt)
            (forward-On I kernel args.pkt args.pkt_len (udp_header int_to_ip ip_to_int headers p_id)
              path)
            (λ _ s v. v)))

  pub entering_udp-On :
      (args : UdpPktMngmntArgs)
      → Enters A int_to_ip args
      → Keeps (On I) (manage_entering_udp_packets int_to_ip ip_to_int backend kernel args)
  unfolding manage_entering_udp_packets on_classifier
  entering_udp-On args allowed =
      Keeps-next (On I) (on_classifier (classify_pkt args.pkt args.pkt_len)) _
        (invariant.classifies args.pkt args.pkt_len)
        (λ sfcid s v classified.
          Keeps-next (On I) (lift (retrieve_ip_udp_header args.pkt)) _ (λ s v. v)
            (λ headers _ _ read.
              let ce = packet_entry int_to_ip headers sfcid udp in
              let added = add_entry backend ce args.socket_fd args.client_address ingress_t udp in
              Keeps-bind (On I) (on_endpoint added)
                (λ _. route int_to_ip ip_to_int backend kernel args headers sfcid)
                (on_endpoint-On I added (
                  invariant.adds ce args.socket_fd args.client_address ingress_t udp (
                    allowed s.endpoint.sfc_map sfcid headers (invariant.knows s.endpoint v)
                      classified read)))
                (λ _. route-On args headers sfcid)))

pub entering_udp-IsSteady :
    (e₀ : Endpoint) (int_to_ip : ℕ → Text) (ip_to_int : Text → ℕ) (backend : Backend)
    (kernel : Kernel) (args : UdpPktMngmntArgs)
    → Keeps (IsSteady e₀) (manage_entering_udp_packets int_to_ip ip_to_int backend kernel args)
entering_udp-IsSteady e₀ int_to_ip ip_to_int backend kernel args =
    entering_udp-On (λ ce. Unit {0}) (λ ce. Unit {0}) (Steady e₀) int_to_ip ip_to_int backend kernel
      (Steady-Invariant e₀ backend) args (λ m sfcid headers _ _ _. tt)
