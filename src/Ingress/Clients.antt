-- ===== src/Ingress/Clients.antt =====
-- The client of a packet that enters is found when an answer comes back from the chain.
use ironhide.Base.{
  ◌==◌, ◌&&◌, ◌||◌, true, ℕ, ◌+◌, ◌≡◌, ◌∙◌, ◌<◌, refl, ap, List, [], ◌∷◌, ◌++◌, inl, inr, ltb,
  lt→ltb, if◌then◌else◌,
}
use ironhide.Base.Result.{out_of_range, ok, err, Result-cases}
use ironhide.Base.Exec.{pure, ◌>>=◌, frame_bind, frame_after}
use ironhide.Base.Text.{Text, codes, stoi, to_string, decimal, c_str}
use ironhide.StdMap.Laws.{OrdersOn, or_else}
use ironhide.Sfc.{SfcHeader, header_size, create_header, prepend_header}
use ironhide.Packet.{zeros, Iphdr, IsIphdr, Udphdr, IsUdphdr, encode_iphdr, encode_udphdr}
use ironhide.Packet.Retrieve.{retrieve_ip_udp_header}
use ironhide.Packet.RoundTrip.{retrieve_ip_udp_header-encode}
use ironhide.Entry.Order.{entry_eq_iff}
use ironhide.Entry.{ConnectionEntry, entry_eq, entry_lt}
use ironhide.Classifier.{SfcMap, classify_pkt}
use ironhide.Classifier.Chains.{classify_pkt_lem, IsSfcMap}
use ironhide.Db.{udp, ingress_t}
use ironhide.Db.Address.{Address}
use ironhide.Db.Roulette.Backend.{Backend}
use ironhide.Endpoint.State.{Endpoint, SockConn, on_net, add_entry, retrieve_connection_2}
use ironhide.Endpoint.Connections.{connection, HasConnections, connection-add_entry}
use ironhide.Ingress.{
  UdpPktMngmntArgs, packet_entry, udp_header, route, manage_entering_udp_packets,
}
use ironhide.Socket.{Kernel}
use ironhide.Client.Udp.{send_and_wait_response}
use ironhide.Process.{Process, on_classifier, on_endpoint, on_calls, routes}
use ironhide.Hop.{hop_header, chain_entry, forward}
use ironhide.Wire.{u16}

abbrev pub clients : Process → List (ConnectionEntry × SockConn)
clients s = s.endpoint.connection_map

module _ (int_to_ip : ℕ → Text) (ip_to_int : Text → ℕ) (backend : Backend) (kernel : Kernel) where
  -- Forwarding leaves the endpoint alone.
  pub forward-endpoint :
      (pkt : List ℕ) (pkt_len : ℕ) (flh : List Address → SfcHeader) (path : List Address)
      (s : Process)
      → (forward kernel pkt pkt_len flh path s).1.endpoint ≡ s.endpoint
  unfolding forward on_calls
  forward-endpoint pkt pkt_len flh [] s = refl
  forward-endpoint pkt pkt_len flh (first ∷ path) s =
      elim (Result-cases
        (prepend_header pkt pkt_len (flh (first ∷ path)) (zeros (pkt_len + header_size)))) [
          | inl (p, e) ↦ rw e (
              frame_bind (λ (x : Process). x.endpoint)
                (on_calls (
                  send_and_wait_response kernel p (pkt_len + header_size) (c_str first.address)
                    (u16 first.port)))
                (λ _. pure true) (λ _. refl) (λ _ _. refl) s)
          | inr (x, e) ↦ rw e
        ]

  pub routes-clients : (p_id : ℕ) (s : Process) → clients (routes backend p_id s).1 ≡ clients s
  unfolding routes on_endpoint on_net
  routes-clients p_id s = refl

  route-clients :
      (args : UdpPktMngmntArgs) (headers : Iphdr × Udphdr) (sfcid : Text) (s : Process)
      → clients (route int_to_ip ip_to_int backend kernel args headers sfcid s).1 ≡ clients s
  unfolding route
  route-clients args headers sfcid s = elim (Result-cases (stoi sfcid)) [
    | inl (p_id, e) ↦
        let flh = udp_header int_to_ip ip_to_int headers p_id in
        rw e (
          frame_bind clients (routes backend p_id)
            (λ path. forward kernel args.pkt args.pkt_len flh path >>= λ sent. pure tt)
            (routes-clients p_id)
            (λ path.
              frame_bind clients (forward kernel args.pkt args.pkt_len flh path) (λ sent. pure tt)
                (λ x.
                  ap (λ (e : Endpoint). e.connection_map)
                    (forward-endpoint args.pkt args.pkt_len flh path x))
                (λ _ _. refl))
            s)
    | inr (x, e) ↦ rw e
  ]

  -- What the handler does to the connections, once the packet is classified and read.
  pub entering-clients :
      (args : UdpPktMngmntArgs) (h : Iphdr) (u : Udphdr) (rest : List ℕ) (s : Process)
      → args.pkt ≡ encode_iphdr h ++ (encode_udphdr u ++ rest)
      → IsIphdr h
      → IsUdphdr u
      → h.ihl ≡ 5
      → (classify_pkt args.pkt args.pkt_len s.endpoint.sfc_map).0 ≡ ok (codes "0")
      → let ce = packet_entry int_to_ip (h, u) (codes "0") udp in
        clients (manage_entering_udp_packets int_to_ip ip_to_int backend kernel args s).1
        ≡ (add_entry backend ce args.socket_fd args.client_address ingress_t udp
            (record s.endpoint {
              sfc_map = (classify_pkt args.pkt args.pkt_len s.endpoint.sfc_map).1;
            })).1.connection_map
  unfolding manage_entering_udp_packets on_classifier on_endpoint
  entering-clients args h u rest s packet v w five classified =
      let ce = packet_entry int_to_ip (h, u) (codes "0") udp in
      let read : retrieve_ip_udp_header args.pkt ≡ ok (h, u) =
        ap retrieve_ip_udp_header packet ∙ retrieve_ip_udp_header-encode h u rest v w five in
      rw (classified, read)
        (frame_after clients
          (on_endpoint (add_entry backend ce args.socket_fd args.client_address ingress_t udp))
          (λ _. route int_to_ip ip_to_int backend kernel args (h, u) (codes "0"))
          (λ _. route-clients args (h, u) (codes "0"))
          (record s {
            endpoint = record s.endpoint {
              sfc_map = (classify_pkt args.pkt args.pkt_len s.endpoint.sfc_map).1;
            };
          }))

-- The header of the chain names the client as the packet does.
pub chain_entry-udp_header :
    (int_to_ip : ℕ → Text) (ip_to_int : Text → ℕ) (h : Iphdr) (u : Udphdr) (path : List Address)
    → ((x : ℕ) → int_to_ip (ip_to_int (c_str (int_to_ip x))) ≡ int_to_ip x)
    → chain_entry int_to_ip (udp_header int_to_ip ip_to_int (h, u) 0 path) udp
      ≡ packet_entry int_to_ip (h, u) (codes "0") udp
unfolding chain_entry udp_header hop_header packet_entry create_header to_string decimal
chain_entry-udp_header int_to_ip ip_to_int h u path law = rw (law h.saddr, law h.daddr)

pub classified_udp :
    (args : UdpPktMngmntArgs) (h : Iphdr) (rest : List ℕ) (m : SfcMap)
    → args.pkt ≡ encode_iphdr h ++ rest
    → IsIphdr h
    → h.ihl ≡ 5
    → h.protocol ≡ 17
    → 20 < args.pkt_len
    → IsSfcMap m
    → (classify_pkt args.pkt args.pkt_len m).0 ≡ ok (codes "0")
classified_udp args h rest m packet v five seventeen long sfc =
    let chosen : (if ltb 20 args.pkt_len && (h.protocol == 6 || h.protocol == 17)
          then ok (codes "0")
          else err out_of_range)
        ≡ ok (codes "0") =
      rw (seventeen, lt→ltb 20 args.pkt_len long) in
    rw packet ((classify_pkt_lem m h rest args.pkt_len sfc v five).0 ∙ chosen)

-- After a packet of protocol 17 has entered with a UDP header, whatever the service answers and
-- whether or not the packet could be sent on, a packet from the chain that bears the header for its
-- first hop finds the client: the connection that its entry had, or else the socket and the address
-- that the packet came from; and the connections are in order. The packet is longer than 20 bytes
-- and its IP header has five words; the classifier's map is as it keeps it; inet_addr inverts
-- inet_ntoa; and the packet's entry is from a set that operator< orders.
pub retrieve-manage_entering_udp_packets {ℓ} :
    (P : ConnectionEntry → Type ℓ) (ord : OrdersOn entry_lt P) (int_to_ip : ℕ → Text)
    (ip_to_int : Text → ℕ) (backend : Backend) (kernel : Kernel) (args : UdpPktMngmntArgs)
    (h : Iphdr) (u : Udphdr) (rest : List ℕ) (path : List Address) (s : Process)
    → ((x : ℕ) → int_to_ip (ip_to_int (c_str (int_to_ip x))) ≡ int_to_ip x)
    → args.pkt ≡ encode_iphdr h ++ (encode_udphdr u ++ rest)
    → IsIphdr h
    → IsUdphdr u
    → h.ihl ≡ 5
    → h.protocol ≡ 17
    → 20 < args.pkt_len
    → IsSfcMap s.endpoint.sfc_map
    → P (packet_entry int_to_ip (h, u) (codes "0") udp)
    → HasConnections P ord s.endpoint
    → let s' = (manage_entering_udp_packets int_to_ip ip_to_int backend kernel args s).1 in
      let ce = packet_entry int_to_ip (h, u) (codes "0") udp in
      (retrieve_connection_2 s'.endpoint
          (chain_entry int_to_ip (udp_header int_to_ip ip_to_int (h, u) 0 path) udp)
        ≡ or_else (connection P ord s.endpoint ce) (args.socket_fd, args.client_address))
      × HasConnections P ord s'.endpoint
unfolding retrieve_connection_2
retrieve-manage_entering_udp_packets P ord int_to_ip ip_to_int backend kernel args h u rest path s
      law packet v w five seventeen long sfc p kept =
    let ce = packet_entry int_to_ip (h, u) (codes "0") udp in
    let m = s.endpoint.sfc_map in
    let classified =
      classified_udp args h (encode_udphdr u ++ rest) m packet v five seventeen long sfc in
    let before : Endpoint = record s.endpoint {
      sfc_map = (classify_pkt args.pkt args.pkt_len m).1;
    } in
    let after =
      entering-clients int_to_ip ip_to_int backend kernel args h u rest s packet v w five
        classified in
    let (found, ordered) =
      connection-add_entry P ord backend ce ce args.socket_fd args.client_address ingress_t udp
        before p p kept in
    let same : entry_eq ce ce ≡ true = (entry_eq_iff ce ce).1 refl in
    let present = rw (← after, same) at found in
    (
      rw (chain_entry-udp_header int_to_ip ip_to_int h u path law, present, retrieve_connection_2),
      rw after ordered,
    )
