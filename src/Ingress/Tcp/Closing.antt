-- ===== src/Ingress/Tcp/Closing.antt =====
-- The end of a connection, and all that a connection does: its first packet goes into the chain, the
-- later ones are dropped, and when the client closes it the client is forgotten.
use ironhide.Base.{ℕ, ◌≡◌, ◌∙◌, refl, true, none, inl, inr, if◌then◌else◌, List, ◌∷◌, ◌++◌, length}
use ironhide.Base.Result.{ok, Result-cases}
use ironhide.Base.Int.{pos}
use ironhide.Base.Exec.{◌>>◌, ◌>>=◌}
use ironhide.Base.Text.{Text, codes}
use ironhide.StdMap.Laws.{OrdersOn}
use ironhide.Packet.{Iphdr, Tcphdr}
use ironhide.Sfc.{encode_header}
use ironhide.Classifier.Chains.{IsSfcMap}
use ironhide.Entry.{ConnectionEntry, entry_eq, entry_lt}
use ironhide.Entry.Order.{entry_eq_iff}
use ironhide.Db.Address.{Address}
use ironhide.Db.Roulette.Backend.{Backend}
use ironhide.Endpoint.State.{delete_entry}
use ironhide.Endpoint.Connections.{
  connection, HasConnections, connection-delete_entry, find-delete_entry,
}
use ironhide.Socket.{Kernel}
use ironhide.Socket.Held.{delivered}
use ironhide.Client.Udp.Delivery.{Accepts, Book}
use ironhide.Process.{Process, Stream, receives, on_calls, on_endpoint, routes, receive_one}
use ironhide.Hop.Delivery.{hop_peer}
use ironhide.Ingress.Tcp.{
  TcpPktMngmntArgs, new_locals, connection_entry, tcp_header, manage_packet, receive_loop,
  end_connection, manage_entering_tcp_packets,
}
use ironhide.Process.Kept.{delete_entry-Steady, on_endpoint-IsSteady}
use ironhide.Ingress.Tcp.Kept.{receive_loop-IsSteady}
use ironhide.Ingress.Tcp.Sessions.{IsSession, receive_loop-later}
use ironhide.Ingress.Tcp.Segments.{IsSegment}
use ironhide.Ingress.Tcp.Opening.{forwarding, adding, delivered-opening}
use ironhide.Ingress.Tcp.Naming.{connection-opening}

-- Without an error of the service, what follows the loop is that the entry is deleted.
end_connection-deletes :
    (int_to_ip : ℕ → Text) (ip_to_int : Text → ℕ) (backend : Backend) (kernel : Kernel)
    (args : TcpPktMngmntArgs) (headers : Iphdr × Tcphdr) (s : Process)
    → end_connection int_to_ip ip_to_int backend kernel args (forwarding headers, true) s
      ≡ on_endpoint (delete_entry backend (connection_entry int_to_ip headers (codes "0"))) s
unfolding end_connection on_endpoint
end_connection-deletes int_to_ip ip_to_int backend kernel args headers s =
    let ce = connection_entry int_to_ip headers (codes "0") in
    elim (Result-cases (delete_entry backend ce s.endpoint).0) [
      | inl (x, e) ↦ rw e
      | inr (x, e) ↦ rw e
    ]

module _ (int_to_ip : ℕ → Text) (ip_to_int : Text → ℕ) (backend : Backend) (kernel : Kernel)
    (args : TcpPktMngmntArgs) where
  -- When the client closes a connection of which a packet was forwarded, its entry is deleted, and
  -- nothing was sent since.
  pub ending-deletes :
      (headers : Iphdr × Tcphdr) (stream : Stream) (s : Process)
      → IsSession stream
      → IsSfcMap s.endpoint.sfc_map
      → let s' =
          (receive_loop int_to_ip ip_to_int backend kernel args stream (forwarding headers) s).1 in
        ((receive_loop int_to_ip ip_to_int backend kernel args stream (forwarding headers)
              >>= end_connection int_to_ip ip_to_int backend kernel args)
            s
          ≡ on_endpoint (delete_entry backend (connection_entry int_to_ip headers (codes "0"))) s')
        × (delivered s'.calls ≡ delivered s.calls)
        × (s'.endpoint.connection_map ≡ s.endpoint.connection_map)
  ending-deletes headers stream s session sfc =
      let v = forwarding headers in
      let (done, silent, same, _) =
        receive_loop-later int_to_ip ip_to_int backend kernel args stream v s session
          (record { sfcid = refl; prev_sfcid = refl; first_pkt = refl }) sfc in
      let s' = (receive_loop int_to_ip ip_to_int backend kernel args stream v s).1 in
      let deletes = end_connection-deletes int_to_ip ip_to_int backend kernel args headers s' in
      (rw (done, deletes), silent, same)

  pub ending-IsSfcMap :
      (headers : Iphdr × Tcphdr) (stream : Stream) (s : Process)
      → IsSession stream
      → IsSfcMap s.endpoint.sfc_map
      → IsSfcMap
          ((receive_loop int_to_ip ip_to_int backend kernel args stream (forwarding headers)
              >>= end_connection int_to_ip ip_to_int backend kernel args)
            s).1.endpoint.sfc_map
  ending-IsSfcMap headers stream s session sfc =
      let ce = connection_entry int_to_ip headers (codes "0") in
      let v = forwarding headers in
      let (deletes, _, _) = ending-deletes headers stream s session sfc in
      let s' = (receive_loop int_to_ip ip_to_int backend kernel args stream v s).1 in
      let steady =
        receive_loop-IsSteady s.endpoint int_to_ip ip_to_int backend kernel args stream v s
          (sfc, refl, refl, refl, refl) in
      rw deletes
        (on_endpoint-IsSteady s.endpoint (delete_entry backend ce)
          (delete_entry-Steady s.endpoint backend ce) s' steady).0

module _ {ℓ} (P : ConnectionEntry → Type ℓ) (ord : OrdersOn entry_lt P) (int_to_ip : ℕ → Text)
    (ip_to_int : Text → ℕ) (backend : Backend) (kernel : Kernel) (args : TcpPktMngmntArgs) where
  -- The other connections stay.
  pub connection-ending :
      (headers : Iphdr × Tcphdr) (stream : Stream) (j : ConnectionEntry) (s : Process)
      → IsSession stream
      → let ce = connection_entry int_to_ip headers (codes "0") in
        P ce
        → P j
        → HasConnections P ord s.endpoint
        → IsSfcMap s.endpoint.sfc_map
        → let s' =
            ((receive_loop int_to_ip ip_to_int backend kernel args stream (forwarding headers)
                >>= end_connection int_to_ip ip_to_int backend kernel args)
              s).1 in
          (delivered s'.calls ≡ delivered s.calls)
          × (connection P ord s'.endpoint j
              ≡ (if entry_eq ce j then none else connection P ord s.endpoint j))
          × HasConnections P ord s'.endpoint
  unfolding on_endpoint
  connection-ending headers stream j s session p q ordered sfc =
      let ce = connection_entry int_to_ip headers (codes "0") in
      let (deletes, silent, same) =
        ending-deletes int_to_ip ip_to_int backend kernel args headers stream s session sfc in
      let s' =
        (receive_loop int_to_ip ip_to_int backend kernel args stream (forwarding headers) s).1 in
      let kept : HasConnections P ord s'.endpoint = rw same ordered in
      let found = find-delete_entry P ord backend ce j s'.endpoint p q kept in
      let still = (connection-delete_entry P ord backend ce j s'.endpoint p q kept).1 in
      rw deletes (silent, rw same at found, still)

  -- The entry of the connection itself is gone.
  pub forgotten-ending :
      (headers : Iphdr × Tcphdr) (stream : Stream) (s : Process)
      → IsSession stream
      → let ce = connection_entry int_to_ip headers (codes "0") in
        P ce
        → HasConnections P ord s.endpoint
        → IsSfcMap s.endpoint.sfc_map
        → let s' =
            ((receive_loop int_to_ip ip_to_int backend kernel args stream (forwarding headers)
                >>= end_connection int_to_ip ip_to_int backend kernel args)
              s).1 in
          (delivered s'.calls ≡ delivered s.calls) × (connection P ord s'.endpoint ce ≡ none)
  forgotten-ending headers stream s session p ordered sfc =
      let ce = connection_entry int_to_ip headers (codes "0") in
      let equal : entry_eq ce ce ≡ true = (entry_eq_iff ce ce).1 refl in
      let (silent, gone, _) = connection-ending headers stream ce s session p p ordered sfc in
      (silent, rw equal at gone)

  -- A connection whose client is new, in all that it does until the client closes it: the first
  -- packet goes into the chain once, behind a header for the first hop, nothing else is sent, and
  -- then no connection is known for its entry, whether or not the service could delete it. Each
  -- receive gives one packet of TCP or UDP behind an IP header of five words, the first of which is
  -- TCP without options; the service takes the entry and has a route, and the system does as it is
  -- asked. The classifier's map is as it keeps it, and the entry is from a set that operator<
  -- orders.
  pub delivered-manage_entering_tcp_packets :
      (book : Book) (byte : ℕ) (bytes : List ℕ) (rest : Stream) (h : Iphdr) (t : Tcphdr)
      (payload : List ℕ) (first : Address) (path : List Address) (s : Process)
      → Accepts kernel book
      → IsSegment (byte ∷ bytes) h t payload
      → IsSession rest
      → let pkt = byte ∷ bytes in
        let ce = connection_entry int_to_ip (h, t) (codes "0") in
        let flh = tcp_header int_to_ip ip_to_int (h, t) 0 (first ∷ path) in
        let told = adding int_to_ip ip_to_int backend kernel args (h, t) pkt s in
        P ce
        → HasConnections P ord s.endpoint
        → connection P ord s.endpoint ce ≡ none
        → IsSfcMap s.endpoint.sfc_map
        → told.0 ≡ ok tt
        → (routes backend 0 told.1).0 ≡ ok (first ∷ path)
        → let s' =
            (manage_entering_tcp_packets int_to_ip ip_to_int backend kernel args
              (receives byte bytes rest)
              s).1 in
          (delivered s'.calls ≡ (encode_header flh ++ pkt, hop_peer book first) ∷ delivered s.calls)
          × (connection P ord s'.endpoint ce ≡ none)
  unfolding manage_entering_tcp_packets receive_loop receive_one on_calls
  delivered-manage_entering_tcp_packets book byte bytes rest h t payload first path s accepts d
        session p ordered absent sfc added routed =
      let pkt = byte ∷ bytes in
      let (done, sent) =
        delivered-opening int_to_ip ip_to_int backend kernel args book pkt h t payload first path s
          accepts d sfc added routed in
      let (found, kept, sfc') =
        connection-opening int_to_ip ip_to_int backend kernel args P ord pkt h t payload s d p
          ordered sfc absent in
      let s₁ =
        ((receive_one args.new_socket_fd (pos (length pkt)) pkt
            >> manage_packet int_to_ip ip_to_int backend kernel args pkt new_locals)
          s).1 in
      let (silent, gone) = forgotten-ending (h, t) rest s₁ session p kept sfc' in
      rw done (silent ∙ sent, gone)
