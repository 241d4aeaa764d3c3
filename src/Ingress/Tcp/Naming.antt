-- ===== src/Ingress/Tcp/Naming.antt =====
-- The client of the first packet of a connection, and its name in the chain: src/endpoint/ingress.cpp.
use ironhide.Base.{
  none, some, Bool, ℕ, ◌≡◌, refl, ap, true, false, List, length, if◌then◌else◌, inl, inr,
  Bool-cases,
}
use ironhide.Base.Int.{pos}
use ironhide.Base.Exec.{Exec, pure, Keeps-bind, frame_bind, frame_after, ◌>>◌, ◌>>=◌}
use ironhide.Base.Text.{Text, codes, c_str, to_string, decimal}
use ironhide.Packet.{Iphdr, Tcphdr}
use ironhide.Sfc.{create_header}
use ironhide.Classifier.Chains.{IsSfcMap}
use ironhide.Db.{tcp, ingress_t}
use ironhide.Db.Address.{Address}
use ironhide.Db.Roulette.Backend.{Backend}
use ironhide.Endpoint.State.{Endpoint, add_entry}
use ironhide.Socket.{Kernel}
use ironhide.Process.{Process, on_endpoint, routes, receive_one}
use ironhide.Hop.{hop_header, chain_entry, forward}
use ironhide.Ingress.Clients.{clients, forward-endpoint, routes-clients}
use ironhide.Ingress.Tcp.{
  TcpPktMngmntArgs, Locals, new_locals, connection_entry, tcp_header, forward_first, manage_packet,
}
use ironhide.Process.Kept.{IsSteady, receive_one-IsSteady}
use ironhide.Ingress.Tcp.Kept.{manage_packet-IsSteady}
use ironhide.StdMap.Laws.{OrdersOn}
use ironhide.Entry.{ConnectionEntry, entry_eq, entry_lt}
use ironhide.Entry.Order.{entry_eq_iff}
use ironhide.Endpoint.Connections.{connection, HasConnections, connection-add_entry}
use ironhide.Ingress.Tcp.Segments.{IsSegment}
use ironhide.Ingress.Tcp.Opening.{
  received, catch_failure-after, adding, zero_id, reading, manage_packet-first,
}

module _ (int_to_ip : ℕ → Text) (ip_to_int : Text → ℕ) (backend : Backend) (kernel : Kernel)
    (args : TcpPktMngmntArgs) where
  -- What the block does to the connections, whatever the service answers.
  forward_first-clients :
      (pkt : List ℕ) (headers : Iphdr × Tcphdr) (s : Process)
      → clients
          (forward_first int_to_ip ip_to_int backend kernel args pkt
            (reading int_to_ip ip_to_int backend kernel args headers)
            (received pkt args.new_socket_fd s)).1
        ≡ clients (adding int_to_ip ip_to_int backend kernel args headers pkt s).1
  unfolding forward_first
  forward_first-clients pkt headers s =
      let flh = tcp_header int_to_ip ip_to_int headers 0 in
      let v = reading int_to_ip ip_to_int backend kernel args headers in
      let ends : Bool → Exec Process (Locals × Bool) = λ sent.
        if sent
        then pure (record v { prev_sfcid = v.sfcid; first_pkt = false }, true)
        else pure (v, false) in
      let quiet : (sent : Bool) (x : Process) → clients (ends sent x).1 ≡ clients x =
        λ sent x. elim (Bool-cases sent) [ inl e ↦ rw e | inr e ↦ rw e ] in
      let adds = on_endpoint (
        add_entry backend (connection_entry int_to_ip headers (codes "0")) args.new_socket_fd
          args.client_address ingress_t tcp) in
      let next : Exec Process (Locals × Bool) =
        routes backend 0 >>= λ path. forward kernel pkt (length pkt) flh path >>= ends in
      rw (zero_id int_to_ip ip_to_int backend kernel args) (
        frame_after clients adds (λ _. next)
          (λ _.
            frame_bind clients (routes backend 0)
              (λ path. forward kernel pkt (length pkt) flh path >>= ends)
              (routes-clients int_to_ip ip_to_int backend kernel 0)
              (λ path.
                frame_bind clients (forward kernel pkt (length pkt) flh path) ends
                  (λ x.
                    ap (λ (e : Endpoint). e.connection_map)
                      (forward-endpoint int_to_ip ip_to_int backend kernel pkt (length pkt) flh path
                        x))
                  quiet))
          (received pkt args.new_socket_fd s))

  -- Whatever the service answers, a first packet makes its client known as add_entry does.
  pub opening-clients :
      (pkt : List ℕ) (h : Iphdr) (t : Tcphdr) (payload : List ℕ) (s : Process)
      → IsSegment pkt h t payload
      → IsSfcMap s.endpoint.sfc_map
      → clients
          ((receive_one args.new_socket_fd (pos (length pkt)) pkt
              >> manage_packet int_to_ip ip_to_int backend kernel args pkt new_locals)
            s).1
        ≡ clients (adding int_to_ip ip_to_int backend kernel args (h, t) pkt s).1
  opening-clients pkt h t payload s d m =
      let m₁ =
        forward_first int_to_ip ip_to_int backend kernel args pkt
          (reading int_to_ip ip_to_int backend kernel args (h, t)) in
      let after =
        catch_failure-after m₁
          (
            record (reading int_to_ip ip_to_int backend kernel args (h, t)) { db_error = true },
            true,
          )
          (received pkt args.new_socket_fd s) in
      rw (manage_packet-first int_to_ip ip_to_int backend kernel args pkt h t payload s d m, after)
        (forward_first-clients pkt (h, t) s)

  -- The header of the chain names the client as its connection does.
  pub chain_entry-tcp_header :
      (headers : Iphdr × Tcphdr) (path : List Address)
      → ((x : ℕ) → int_to_ip (ip_to_int (c_str (int_to_ip x))) ≡ int_to_ip x)
      → chain_entry int_to_ip (tcp_header int_to_ip ip_to_int headers 0 path) tcp
        ≡ connection_entry int_to_ip headers (codes "0")
  unfolding chain_entry tcp_header hop_header connection_entry create_header to_string decimal
  chain_entry-tcp_header headers path law = rw (law headers.0.saddr, law headers.0.daddr)

  -- A client without a connection gets one with its first packet.
  pub connection-opening {ℓ} :
      (P : ConnectionEntry → Type ℓ) (ord : OrdersOn entry_lt P) (pkt : List ℕ) (h : Iphdr)
      (t : Tcphdr) (payload : List ℕ) (s : Process)
      → IsSegment pkt h t payload
      → let ce = connection_entry int_to_ip (h, t) (codes "0") in
        P ce
        → HasConnections P ord s.endpoint
        → IsSfcMap s.endpoint.sfc_map
        → connection P ord s.endpoint ce ≡ none
        → let s' =
            ((receive_one args.new_socket_fd (pos (length pkt)) pkt
                >> manage_packet int_to_ip ip_to_int backend kernel args pkt new_locals)
              s).1 in
          (connection P ord s'.endpoint ce ≡ some (args.new_socket_fd, args.client_address))
          × HasConnections P ord s'.endpoint
          × IsSfcMap s'.endpoint.sfc_map
  unfolding on_endpoint
  connection-opening P ord pkt h t payload s d p ordered sfc absent =
      let ce = connection_entry int_to_ip (h, t) (codes "0") in
      let after = opening-clients pkt h t payload s d sfc in
      let (found, kept) =
        connection-add_entry P ord backend ce ce args.new_socket_fd args.client_address ingress_t
          tcp (received pkt args.new_socket_fd s).endpoint p p ordered in
      let same : entry_eq ce ce ≡ true = (entry_eq_iff ce ce).1 refl in
      let steady =
        Keeps-bind (IsSteady s.endpoint) (receive_one args.new_socket_fd (pos (length pkt)) pkt)
          (λ _. manage_packet int_to_ip ip_to_int backend kernel args pkt new_locals)
          (receive_one-IsSteady s.endpoint args.new_socket_fd (pos (length pkt)) pkt)
          (λ _.
            manage_packet-IsSteady s.endpoint int_to_ip ip_to_int backend kernel args pkt
              new_locals)
          s (sfc, refl, refl, refl, refl) in
      (rw after (rw (same, absent) at found), rw after kept, steady.0)
