-- ===== src/Ingress/Tcp/Opening.antt =====
-- The first packet of a connection on its way into the chain: src/endpoint/ingress.cpp.
use ironhide.Base.{ℕ, ◌≡◌, refl, true, false, List, ◌∷◌, ◌++◌, length, inl, inr, []}
use ironhide.Base.Result.{Result, ok, Result-cases}
use ironhide.Base.Int.{ℤ, pos}
use ironhide.Base.Exec.{Exec, ◌>>◌}
use ironhide.Base.Text.{Text, codes, stoi}
use ironhide.Packet.{Iphdr, Tcphdr}
use ironhide.Sfc.{encode_header}
use ironhide.Classifier.{classify_pkt}
use ironhide.Classifier.Chains.{IsSfcMap}
use ironhide.Db.{tcp, ingress_t}
use ironhide.Db.Address.{Address}
use ironhide.Db.Roulette.Backend.{Backend}
use ironhide.Endpoint.State.{add_entry}
use ironhide.Socket.{Kernel}
use ironhide.Socket.Held.{delivered}
use ironhide.Client.Udp.Delivery.{Accepts, Book}
use ironhide.Process.{Process, on_classifier, on_endpoint, on_calls, routes, receive_one}
use ironhide.Hop.Delivery.{hop_peer, delivered-forward}
use ironhide.Ingress.Tcp.{
  TcpPktMngmntArgs, Locals, new_locals, connection_entry, tcp_header, catch_failure, forward_first,
  manage_packet,
}
use ironhide.Ingress.Tcp.Sessions.{classified}
use ironhide.Ingress.Tcp.Segments.{IsSegment, IsSegment-IsPacket, read_segment}

-- The local variables once a packet of the chain "0" has been forwarded.
abbrev pub forwarding : Iphdr × Tcphdr → Locals
forwarding headers = record {
  sfcid = codes "0";
  prev_sfcid = codes "0";
  first_pkt = false;
  db_error = false;
  headers = headers;
}

-- The state in which the service is told of a client.
abbrev pub received : List ℕ → ℤ → Process → Process
received pkt fd s =
    let s' = (receive_one fd (pos (length pkt)) pkt s).1 in
    record s' {
      endpoint = record s.endpoint {
        sfc_map = (classify_pkt pkt (length pkt) s.endpoint.sfc_map).1;
      };
    }

module _ {A : Type 0} (m : Exec Process A) (a : A) (s : Process) where
  catch_failure-ok : (x : A) → (m s).0 ≡ ok x → catch_failure m a s ≡ (ok x, (m s).1)
  unfolding catch_failure
  catch_failure-ok x e = rw (e, catch_failure)

  pub catch_failure-after : (catch_failure m a s).1 ≡ (m s).1
  unfolding catch_failure
  catch_failure-after = elim (Result-cases (m s).0) [
    | inl (x, e) ↦ rw (e, catch_failure)
    | inr (x, e) ↦ rw (e, catch_failure)
  ]

module _ (int_to_ip : ℕ → Text) (ip_to_int : Text → ℕ) (backend : Backend) (kernel : Kernel)
    (args : TcpPktMngmntArgs) where
  abbrev pub adding : Iphdr × Tcphdr → List ℕ → Process → Result (Unit {0}) × Process
  adding headers pkt s =
      on_endpoint
        (add_entry backend (connection_entry int_to_ip headers (codes "0")) args.new_socket_fd
          args.client_address ingress_t tcp)
        (received pkt args.new_socket_fd s)

  pub zero_id : stoi (codes "0") ≡ ok 0
  unfolding stoi
  zero_id = refl

  -- The local variables before it.
  abbrev pub reading : Iphdr × Tcphdr → Locals
  reading headers = record (forwarding headers) { prev_sfcid = []; first_pkt = true }

  -- A first packet of the chain "0" is given to the block under `try`.
  pub manage_packet-first :
      (pkt : List ℕ) (h : Iphdr) (t : Tcphdr) (payload : List ℕ) (s : Process)
      → IsSegment pkt h t payload
      → IsSfcMap s.endpoint.sfc_map
      → (receive_one args.new_socket_fd (pos (length pkt)) pkt
            >> manage_packet int_to_ip ip_to_int backend kernel args pkt new_locals)
          s
        ≡ catch_failure
            (forward_first int_to_ip ip_to_int backend kernel args pkt (reading (h, t)))
            (record (reading (h, t)) { db_error = true }, true)
            (received pkt args.new_socket_fd s)
  unfolding manage_packet new_locals receive_one on_calls on_classifier
  manage_packet-first pkt h t payload s d m =
      let chain = (classified pkt s.endpoint.sfc_map (IsSegment-IsPacket pkt h t payload d) m).0 in
      rw (chain, read_segment pkt h t payload d)

  -- The block, where the service takes the entry and has a route.
  forward_first-ok :
      (book : Book) (pkt : List ℕ) (headers : Iphdr × Tcphdr) (first : Address)
      (path : List Address) (s : Process)
      → Accepts kernel book
      → (adding headers pkt s).0 ≡ ok tt
      → (routes backend 0 (adding headers pkt s).1).0 ≡ ok (first ∷ path)
      → let flh = tcp_header int_to_ip ip_to_int headers 0 (first ∷ path) in
        let (r, s') =
          forward_first int_to_ip ip_to_int backend kernel args pkt
            (reading headers)
            (received pkt args.new_socket_fd s) in
        (r ≡ ok (forwarding headers, true))
        × (delivered s'.calls ≡ (encode_header flh ++ pkt, hop_peer book first) ∷ delivered s.calls)
  unfolding forward_first routes on_endpoint receive_one on_calls delivered
  forward_first-ok book pkt headers first path s accepts added routed =
      let flh = tcp_header int_to_ip ip_to_int headers 0 in
      let (done, sent, _, _, _) =
        delivered-forward kernel book pkt flh first path
          (routes backend 0 (adding headers pkt s).1).1 accepts in
      rw (added, zero_id, routed, done) (refl, sent)

  -- The first packet goes into the chain once, behind the header for the first hop.
  pub delivered-opening :
      (book : Book) (pkt : List ℕ) (h : Iphdr) (t : Tcphdr) (payload : List ℕ) (first : Address)
      (path : List Address) (s : Process)
      → Accepts kernel book
      → IsSegment pkt h t payload
      → IsSfcMap s.endpoint.sfc_map
      → (adding (h, t) pkt s).0 ≡ ok tt
      → (routes backend 0 (adding (h, t) pkt s).1).0 ≡ ok (first ∷ path)
      → let flh = tcp_header int_to_ip ip_to_int (h, t) 0 (first ∷ path) in
        let (r, s') =
          (receive_one args.new_socket_fd (pos (length pkt)) pkt
              >> manage_packet int_to_ip ip_to_int backend kernel args pkt new_locals)
            s in
        (r ≡ ok (forwarding (h, t), true))
        × (delivered s'.calls ≡ (encode_header flh ++ pkt, hop_peer book first) ∷ delivered s.calls)
  delivered-opening book pkt h t payload first path s accepts d m added routed =
      let (done, sent) = forward_first-ok book pkt (h, t) first path s accepts added routed in
      let m₁ = forward_first int_to_ip ip_to_int backend kernel args pkt (reading (h, t)) in
      let caught =
        catch_failure-ok m₁ (record (reading (h, t)) { db_error = true }, true)
          (received pkt args.new_socket_fd s) (forwarding (h, t), true) done in
      rw (manage_packet-first pkt h t payload s d m, caught) (refl, sent)
