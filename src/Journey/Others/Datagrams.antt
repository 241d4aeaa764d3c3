-- ===== src/Journey/Others/Datagrams.antt =====
-- The connection that a client gets when its UDP packet enters.
use ironhide.Base.{ℕ, ◌≡◌, ◌<◌, refl, true, none, some, List, ◌++◌, length, arith}
use ironhide.Base.Text.{Text, codes}
use ironhide.StdMap.Laws.{OrdersOn}
use ironhide.Packet.{Iphdr, Udphdr, encode_udphdr}
use ironhide.Entry.{ConnectionEntry, entry_eq, entry_lt}
use ironhide.Entry.Order.{entry_eq_iff}
use ironhide.Classifier.Chains.{IsSfcMap}
use ironhide.Db.{udp, ingress_t}
use ironhide.Db.Roulette.Backend.{Backend}
use ironhide.Endpoint.Connections.{connection, HasConnections, connection-add_entry}
use ironhide.Socket.{Kernel}
use ironhide.Process.{Process}
use ironhide.Ingress.{UdpPktMngmntArgs, packet_entry, manage_entering_udp_packets}
use ironhide.Ingress.Clients.{classified_udp, entering-clients}
use ironhide.Ingress.Delivery.{known}
use ironhide.Ingress.Kept.{entering_udp-IsSteady}
use ironhide.Journey.{IsDatagram, length-IsDatagram}

module _ {ℓ} (P : ConnectionEntry → Type ℓ) (ord : OrdersOn entry_lt P) (int_to_ip : ℕ → Text)
    (ip_to_int : Text → ℕ) (backend : Backend) (kernel : Kernel) (ce : ConnectionEntry) where
  -- A client without a connection gets one when its packet enters.
  pub connection-entering :
      (args : UdpPktMngmntArgs) (h : Iphdr) (u : Udphdr) (payload : List ℕ) (s : Process)
      → ce ≡ packet_entry int_to_ip (h, u) (codes "0") udp
      → P ce
      → IsDatagram args.pkt h u payload
      → args.pkt_len ≡ length args.pkt
      → HasConnections P ord s.endpoint
      → IsSfcMap s.endpoint.sfc_map
      → connection P ord s.endpoint ce ≡ none
      → let s' = (manage_entering_udp_packets int_to_ip ip_to_int backend kernel args s).1 in
        (connection P ord s'.endpoint ce ≡ some (args.socket_fd, args.client_address))
        × HasConnections P ord s'.endpoint
        × IsSfcMap s'.endpoint.sfc_map
  connection-entering args h u payload s names p d whole ordered sfc absent =
      let long : 20 < args.pkt_len = omega (arith, length-IsDatagram args.pkt h u payload d) in
      let classified =
        classified_udp args h (encode_udphdr u ++ payload) s.endpoint.sfc_map d.shape d.ip d.five
          d.seventeen long sfc in
      let after = rw (← names) at (
        entering-clients int_to_ip ip_to_int backend kernel args h u payload s d.shape d.ip d.udp
          d.five classified) in
      let (found, kept) =
        connection-add_entry P ord backend ce ce args.socket_fd args.client_address ingress_t udp
          (known args s).endpoint p p ordered in
      let same : entry_eq ce ce ≡ true = (entry_eq_iff ce ce).1 refl in
      (
        rw after (rw (same, absent) at found),
        rw after kept,
        (entering_udp-IsSteady s.endpoint int_to_ip ip_to_int backend kernel args s
            (sfc, refl, refl, refl, refl)).0,
      )
