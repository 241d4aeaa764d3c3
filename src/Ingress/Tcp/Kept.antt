-- ===== src/Ingress/Tcp/Kept.antt =====
-- What the handler of a connection keeps.
use ironhide.Base.{
  ℕ, ◌≡◌, Bool-cases, Bool, true, false, List, [], ◌∷◌, length, ◌||◌, not, if◌then◌else◌, inl, inr,
}
use ironhide.Base.Result.{ok, Result-cases, exit_failure}
use ironhide.Base.Exec.{Exec, Keeps, Keeps-bind, Keeps-next, Keeps-if, lift, pure, raise, ◌>>=◌}
use ironhide.Base.Int.{pos, negsuc}
use ironhide.Base.Text.{Text, stoi, text_eq, c_str}
use ironhide.Packet.Retrieve.{retrieve_ip_tcp_header}
use ironhide.Packet.{Iphdr, Tcphdr}
use ironhide.Entry.{ConnectionEntry}
use ironhide.Classifier.Chains.{IsSfcMap}
use ironhide.Classifier.{SfcMap, classify_pkt}
use ironhide.Db.{ingress_t, tcp}
use ironhide.Db.Roulette.Backend.{Backend}
use ironhide.Endpoint.State.{Endpoint, add_entry, delete_entry}
use ironhide.Socket.{Kernel, close}
use ironhide.Process.{
  Process, Stream, closes, fails, receives, on_classifier, on_endpoint, routes, sys_, receive_one,
}
use ironhide.Process.Kept.{
  On, Invariant, IsSteady, Steady, Steady-Invariant, on_endpoint-On, sys_-On, receive_one-IsSteady,
}
use ironhide.Hop.{forward}
use ironhide.Hop.Kept.{forward-On}
use ironhide.Ingress.Tcp.{
  TcpPktMngmntArgs, Locals, connection_entry, tcp_header, catch_failure, forward_first,
  manage_packet, receive_loop, end_connection,
}

-- The entry of a packet of a connection, as the handler reads it, is in `A`.
abbrev pub Opens {ℓ} : (ConnectionEntry → Type ℓ) → (ℕ → Text) → List ℕ → Type ℓ
Opens A int_to_ip pkt =
    (m : SfcMap) (sfcid : Text) (headers : Iphdr × Tcphdr)
    → IsSfcMap m
    → (classify_pkt pkt (length pkt) m).0 ≡ ok sfcid
    → retrieve_ip_tcp_header pkt ≡ ok headers
    → A (connection_entry int_to_ip headers sfcid)

module _ {ℓ} (A D : ConnectionEntry → Type ℓ) (I : Endpoint → Type ℓ) (int_to_ip : ℕ → Text)
    (ip_to_int : Text → ℕ) (backend : Backend) (kernel : Kernel)
    (invariant : Invariant backend A D I) (args : TcpPktMngmntArgs) where
  catch_failure-On :
      {X : Type 0} (m : Exec Process X) (a : X) → Keeps (On I) m → Keeps (On I) (catch_failure m a)
  unfolding catch_failure
  catch_failure-On m a h s v = elim (Result-cases (m s).0) [
    | inl (x, e) ↦ rw (e, catch_failure) (h s v)
    | inr (x, e) ↦ rw (e, catch_failure) (h s v)
  ]

  forward_first-On :
      (pkt : List ℕ) (v : Locals)
      → A (connection_entry int_to_ip v.headers v.sfcid)
      → Keeps (On I) (forward_first int_to_ip ip_to_int backend kernel args pkt v)
  unfolding forward_first
  forward_first-On pkt v allowed =
      let ce = connection_entry int_to_ip v.headers v.sfcid in
      let added = add_entry backend ce args.new_socket_fd args.client_address ingress_t tcp in
      Keeps-bind (On I) (on_endpoint added) _
        (on_endpoint-On I added
          (invariant.adds ce args.new_socket_fd args.client_address ingress_t tcp allowed))
        (λ _.
          Keeps-bind (On I) (lift (stoi v.sfcid)) _ (λ s w. w)
            (λ p_id. Keeps-bind (On I) (routes backend p_id) _ (invariant.asks p_id) (λ path.
              Keeps-bind (On I)
                (forward kernel pkt (length pkt) (tcp_header int_to_ip ip_to_int v.headers p_id)
                  path)
                _
                (forward-On I kernel pkt (length pkt)
                  (tcp_header int_to_ip ip_to_int v.headers p_id) path)
                (λ sent.
                  Keeps-if (On I) sent
                    (pure (record v { prev_sfcid = v.sfcid; first_pkt = false }, true))
                    (pure (v, false)) (λ s w. w) (λ s w. w)))))

  pub manage_packet-On :
      (pkt : List ℕ) (v : Locals)
      → Opens A int_to_ip pkt
      → Keeps (On I) (manage_packet int_to_ip ip_to_int backend kernel args pkt v)
  unfolding manage_packet on_classifier
  manage_packet-On pkt v allowed =
      Keeps-next (On I) (on_classifier (classify_pkt pkt (length pkt))) _
        (invariant.classifies pkt (length pkt))
        (λ sfcid s kept classified.
          Keeps-if (On I) (v.first_pkt || not (text_eq (c_str sfcid) (c_str v.prev_sfcid))) _
            (pure (record v { sfcid = sfcid }, true))
            (Keeps-next (On I) (lift (retrieve_ip_tcp_header pkt)) _ (λ s w. w)
              (λ headers _ _ read.
                let w = record v { sfcid = sfcid; headers = headers } in
                catch_failure-On (forward_first int_to_ip ip_to_int backend kernel args pkt w)
                  (record w { db_error = true }, true)
                  (forward_first-On pkt w (
                    allowed s.endpoint.sfc_map sfcid headers (invariant.knows s.endpoint kept)
                      classified read))))
            (λ s w. w))

  pub end_connection-On :
      (r : Locals × Bool)
      → (r.1 ≡ true → D (connection_entry int_to_ip r.0.headers r.0.sfcid))
      → Keeps (On I) (end_connection int_to_ip ip_to_int backend kernel args r)
  unfolding end_connection
  end_connection-On r allowed =
      let gone = delete_entry backend (connection_entry int_to_ip r.0.headers r.0.sfcid) in
      let deletes : Keeps (On I) (if r.1 then on_endpoint gone else pure tt) =
        elim (Bool-cases r.1) [
          | inl e ↦ rw e (
              on_endpoint-On I gone
                (invariant.deletes (connection_entry int_to_ip r.0.headers r.0.sfcid) (allowed e)))
          | inr e ↦ rw e (λ s w. w)
        ] in
      Keeps-bind (On I) (if r.1 then on_endpoint gone else pure tt)
        (λ _. if r.0.db_error then sys_ kernel (close args.new_socket_fd) else pure tt) deletes
        (λ _.
          Keeps-if (On I) r.0.db_error (sys_ kernel (close args.new_socket_fd)) (pure tt)
            (sys_-On I kernel (close args.new_socket_fd)) (λ s w. w))

module _ (e₀ : Endpoint) (int_to_ip : ℕ → Text) (ip_to_int : Text → ℕ) (backend : Backend)
    (kernel : Kernel) (args : TcpPktMngmntArgs) where
  pub manage_packet-IsSteady :
      (pkt : List ℕ) (v : Locals)
      → Keeps (IsSteady e₀) (manage_packet int_to_ip ip_to_int backend kernel args pkt v)
  manage_packet-IsSteady pkt v =
      manage_packet-On (λ ce. Unit {0}) (λ ce. Unit {0}) (Steady e₀) int_to_ip ip_to_int backend
        kernel (Steady-Invariant e₀ backend) args pkt v (λ m sfcid headers _ _ _. tt)

  pub receive_loop-IsSteady :
      (stream : Stream) (v : Locals)
      → Keeps (IsSteady e₀) (receive_loop int_to_ip ip_to_int backend kernel args stream v)
  unfolding receive_loop
  receive_loop-IsSteady fails v =
      Keeps-bind (IsSteady e₀) {B = Locals × Bool} (receive_one args.new_socket_fd (negsuc 0) [])
        (λ _. raise exit_failure) (receive_one-IsSteady e₀ args.new_socket_fd (negsuc 0) [])
        (λ _ s w. w)
  receive_loop-IsSteady closes v =
      Keeps-bind (IsSteady e₀) {B = Locals × Bool} (receive_one args.new_socket_fd (pos 0) [])
        (λ _. pure (v, true)) (receive_one-IsSteady e₀ args.new_socket_fd (pos 0) []) (λ _ s w. w)
  receive_loop-IsSteady (receives byte bytes rest) v =
      let pkt = byte ∷ bytes in
      let rec = receive_loop-IsSteady rest in
      let continue : Locals × Bool → Exec Process (Locals × Bool) = λ r.
        if r.1
        then receive_loop int_to_ip ip_to_int backend kernel args rest r.0
        else pure (r.0, false) in
      let managed = manage_packet int_to_ip ip_to_int backend kernel args pkt v in
      Keeps-bind (IsSteady e₀) (receive_one args.new_socket_fd (pos (length pkt)) pkt)
        (λ _. managed >>= continue)
        (receive_one-IsSteady e₀ args.new_socket_fd (pos (length pkt)) pkt)
        (λ _. Keeps-bind (IsSteady e₀) managed continue (manage_packet-IsSteady pkt v) (λ r.
          Keeps-if (IsSteady e₀) r.1 (receive_loop int_to_ip ip_to_int backend kernel args rest r.0)
            (pure (r.0, false)) (rec r.0) (λ s w. w)))
