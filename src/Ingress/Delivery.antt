-- ===== src/Ingress/Delivery.antt =====
-- A UDP packet that enters goes to the first hop of its chain, where the service gives a route.
use ironhide.Base.{ℕ, ◌≡◌, ◌<◌, ◌∙◌, ap, List, ◌∷◌, ◌++◌, length, refl}
use ironhide.Base.Result.{ok}
use ironhide.Base.Text.{Text, codes, stoi}
use ironhide.Packet.{Iphdr, IsIphdr, Udphdr, IsUdphdr, encode_iphdr, encode_udphdr}
use ironhide.Packet.Retrieve.{retrieve_ip_udp_header}
use ironhide.Packet.RoundTrip.{retrieve_ip_udp_header-encode}
use ironhide.Sfc.{encode_header}
use ironhide.Classifier.{classify_pkt}
use ironhide.Classifier.Chains.{IsSfcMap}
use ironhide.Db.{udp, ingress_t}
use ironhide.Db.Address.{Address}
use ironhide.Db.Roulette.Backend.{Backend}
use ironhide.Endpoint.State.{add_entry}
use ironhide.Socket.{Kernel, Peer}
use ironhide.Socket.Held.{delivered}
use ironhide.Client.Udp.Delivery.{Accepts, Book}
use ironhide.Process.{Process, on_classifier, on_endpoint, routes}
use ironhide.Hop.Delivery.{hop_peer, delivered-forward}
use ironhide.Ingress.{
  UdpPktMngmntArgs, packet_entry, udp_header, route, manage_entering_udp_packets,
}
use ironhide.Ingress.Clients.{classified_udp}

-- The state in which the service is told of the client, and what it then is.
abbrev pub known : UdpPktMngmntArgs → Process → Process
known args s = record s {
  endpoint = record s.endpoint {
    sfc_map = (classify_pkt args.pkt args.pkt_len s.endpoint.sfc_map).1;
  };
}

module _ (int_to_ip : ℕ → Text) (ip_to_int : Text → ℕ) (backend : Backend) (kernel : Kernel) where
  abbrev pub told : UdpPktMngmntArgs → Iphdr × Udphdr → Process → Process
  told args headers s =
      (on_endpoint
        (add_entry backend (packet_entry int_to_ip headers (codes "0") udp) args.socket_fd
          args.client_address ingress_t udp)
        (known args s)).1

  zero_id : stoi (codes "0") ≡ ok 0
  unfolding stoi
  zero_id = refl

  routes-calls : (p_id : ℕ) (s : Process) → (routes backend p_id s).1.calls ≡ s.calls
  unfolding routes on_endpoint
  routes-calls p_id s = refl

  -- The rest of the handler, where there is a route.
  delivered-route :
      (args : UdpPktMngmntArgs) (book : Book) (headers : Iphdr × Udphdr) (first : Address)
      (path : List Address) (s : Process)
      → Accepts kernel book
      → args.pkt_len ≡ length args.pkt
      → (routes backend 0 s).0 ≡ ok (first ∷ path)
      → let flh = udp_header int_to_ip ip_to_int headers 0 (first ∷ path) in
        let (r, s') = route int_to_ip ip_to_int backend kernel args headers (codes "0") s in
        (r ≡ ok tt)
        × (delivered s'.calls
            ≡ (encode_header flh ++ args.pkt, hop_peer book first) ∷ delivered s.calls)
  unfolding route
  delivered-route args book headers first path s accepts whole routed =
      let flh = udp_header int_to_ip ip_to_int headers 0 in
      let (done, sent, _, _, _) =
        delivered-forward kernel book args.pkt flh first path (routes backend 0 s).1 accepts in
      let message : List ℕ × Peer =
        (encode_header (flh (first ∷ path)) ++ args.pkt, hop_peer book first) in
      let same = ap (λ l. message ∷ delivered l) (routes-calls 0 s) in
      rw (zero_id, routed, whole, done) (refl, sent ∙ same)

  -- The handler returns, and the packet has gone out once, behind the header for the first hop.
  pub delivered-entering :
      (args : UdpPktMngmntArgs) (book : Book) (h : Iphdr) (u : Udphdr) (rest : List ℕ)
      (first : Address) (path : List Address) (s : Process)
      → Accepts kernel book
      → args.pkt ≡ encode_iphdr h ++ (encode_udphdr u ++ rest)
      → args.pkt_len ≡ length args.pkt
      → IsIphdr h
      → IsUdphdr u
      → h.ihl ≡ 5
      → h.protocol ≡ 17
      → 20 < args.pkt_len
      → IsSfcMap s.endpoint.sfc_map
      → (on_endpoint
          (add_entry backend
            (packet_entry int_to_ip (h, u) (codes "0") udp)
            args.socket_fd
            args.client_address
            ingress_t
            udp)
          (known args s)).0
        ≡ ok tt
      → (routes backend 0 (told args (h, u) s)).0 ≡ ok (first ∷ path)
      → let flh = udp_header int_to_ip ip_to_int (h, u) 0 (first ∷ path) in
        let (r, s') = manage_entering_udp_packets int_to_ip ip_to_int backend kernel args s in
        (r ≡ ok tt)
        × (delivered s'.calls
            ≡ (encode_header flh ++ args.pkt, hop_peer book first) ∷ delivered s.calls)
  unfolding manage_entering_udp_packets on_classifier
  delivered-entering args book h u rest first path s accepts packet whole v w five seventeen long
        sfc added routed =
      let classified =
        classified_udp args h (encode_udphdr u ++ rest) s.endpoint.sfc_map packet v five seventeen
          long sfc in
      let read : retrieve_ip_udp_header args.pkt ≡ ok (h, u) =
        ap retrieve_ip_udp_header packet ∙ retrieve_ip_udp_header-encode h u rest v w five in
      rw (classified, read, added)
        (delivered-route args book (h, u) first path (told args (h, u) s) accepts whole routed)
