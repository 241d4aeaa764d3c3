-- ===== src/Server/Tcp.antt =====
-- src/server/servertcp.cpp
use ironhide.Base.{
  ℕ, suc, ◌+◌, ◌≡◌, ◌∙◌, ap, List, [], ◌∷◌, ◌++◌, length-append, append_assoc, arith, inl, inr,
  Bool, Bool-cases, if◌then◌else◌,
}
use ironhide.Base.Result.{ok}
use ironhide.Base.Int.{ℤ}
use ironhide.Base.Exec.{Exec, pure, ◌>>=◌, ◌>>◌}
use ironhide.Socket.{
  Kernel, Calls, Call, Answer, socket, bind, signal, malloc, accept, listen, call, is_zero,
  is_minus_one, sock_stream, af_inet,
}
use ironhide.Ingress.Tcp.{TcpPktMngmntArgs}
use ironhide.Server.{Object, Server, new_loop, loop, reset, bound_socket, setup_sign_catching, must}
use ironhide.Server.Opening.{
  refusals, granted, log, any_address, bound_socket-Opens, setup_sign_catching-Opens, listen-Opens,
  Opens-bind, Opens-pure,
}
use ironhide.Server.Rounds.{Serving, Ran, loop-Ran}

-- The connections that accepts have given, in the order in which they came.
abbrev pub accepted : List ((Call × Answer) × Calls) → List TcpPktMngmntArgs
accepted [] = []
accepted (((accept fd, a), s) ∷ l) =
    let earlier = accepted l in
    let args : TcpPktMngmntArgs = record { new_socket_fd = a.result; client_address = a.peer } in
    if is_minus_one a.result then earlier else earlier ++ args ∷ []
accepted (_ ∷ l) = accepted l

-- It has no buffers.
abbrev pub no_buffers : List ((Call × Answer) × Calls) → ℕ
no_buffers l = 0

-- The calls that it needs, the latest first.
abbrev pub needs : ℕ → ℤ → List Call
needs port fd =
    signal 2
    ∷ signal 15
    ∷ signal 13
    ∷ listen fd 10
    ∷ bind fd (any_address port)
    ∷ socket af_inet sock_stream 0
    ∷ []

module _ (kernel : Kernel) where
  -- One round. An accept that fails frees the structure.
  unfoldable pub serve : Server TcpPktMngmntArgs → Exec Calls (Server TcpPktMngmntArgs)
  unfolding call
  serve s = do
    args ← call kernel malloc
    if is_zero args.result then pure s else (do
      client ← call kernel (accept s.socket_fd)
      if is_minus_one client.result
          then pure s
          else pure (record s {
            structs = s.structs + 1;
            dispatched =
                s.dispatched
                ++ (record { new_socket_fd = client.result; client_address = client.peer }) ∷ [];
          }))

  -- run, up to its loop, with a BACKLOG of 10
  unfoldable pub start_tcp : ℕ → Exec Calls ℤ
  unfolding bound_socket must setup_sign_catching
  start_tcp port = do
    socket_fd ← bound_socket kernel sock_stream port
    listening ← must kernel (listen socket_fd 10)
    setup_sign_catching kernel
    pure socket_fd

  -- run
  unfoldable pub run_tcp :
      {Manager : Type 0} → Object Manager → List Bool → Exec Calls (Server TcpPktMngmntArgs)
  unfolding start_tcp loop serve reset
  run_tcp object stops = do
    socket_fd ← start_tcp object.port
    loop serve (reset object).stopped stops (new_loop socket_fd)

  serve-Serving :
      (s₀ : Calls) (socket_fd : ℤ) (n : ℕ) (server : Server TcpPktMngmntArgs) (s : Calls)
      → Serving accepted no_buffers s₀ socket_fd n server s
      → (server' : Server TcpPktMngmntArgs) × (s' : Calls) × (serve server s ≡ (ok server', s'))
        × Serving accepted no_buffers s₀ socket_fd (suc n) server' s'
  unfolding serve call log refusals granted
  serve-Serving s₀ socket_fd n server s v =
      let m = kernel s malloc in
      let s1 : Calls = (malloc, m) ∷ s in
      let c = accept server.socket_fd in
      let p = kernel s1 c in
      elim (Bool-cases (is_zero m.result)) [
        | inl e ↦ (
          server,
          s1,
          rw e,
          record {
            socket = v.socket;
            hands = v.hands;
            structures = v.structures;
            stores = v.stores;
            begins = omega (arith, v.begins);
            needs = v.needs;
            grants = v.grants;
          },
        )
        | inr e ↦ elim (Bool-cases (is_minus_one p.result)) [
          | inl f ↦ (
            server,
            (c, p) ∷ s1,
            rw (e, f),
            record {
              socket = v.socket;
              hands = rw f v.hands;
              structures = v.structures;
              stores = omega (arith, v.stores);
              begins = omega (arith, v.begins);
              needs = v.needs;
              grants = v.grants;
            },
          )
          | inr f ↦
              let args : TcpPktMngmntArgs = record {
                new_socket_fd = p.result;
                client_address = p.peer;
              } in
              (
                record server {
                  structs = server.structs + 1;
                  dispatched = server.dispatched ++ args ∷ [];
                },
                (c, p) ∷ s1,
                rw (e, f),
                record {
                  socket = v.socket;
                  hands = rw f (
                      ap (λ l. l ++ args ∷ []) v.hands
                      ∙ append_assoc (accepted (log s₀)) server.dispatched (args ∷ []));
                  structures =
                      omega (arith, v.structures, length-append server.dispatched (args ∷ []));
                  stores = omega (arith, v.stores);
                  begins = omega (arith, v.begins);
                  needs = v.needs;
                  grants = v.grants;
                },
              )
        ]
      ]

  -- The server of TCP exits exactly where the system refuses one of the calls that it needs for its
  -- socket, its port, its queue and its signals, and before it has accepted anything. Else its socket
  -- is bound to its port and listens, and it goes through its rounds up to the one in which it is
  -- stopped; every connection that it accepts is handed to a thread with its socket and its client, in
  -- the order of the accepts, and nothing else; and the structures allocated are those handed on.
  pub run_tcp_lem :
      {Manager : Type 0} (object : Object Manager) (stops : List Bool) (s : Calls)
      → let fd = (kernel s (socket af_inet sock_stream 0)).result in
        Ran accepted no_buffers fd (needs object.port fd) stops s (run_tcp object stops s)
  unfolding run_tcp start_tcp reset
  run_tcp_lem object stops s =
      let fd = (kernel s (socket af_inet sock_stream 0)).result in
      let made = bound_socket-Opens kernel sock_stream object.port s in
      let queued = listen-Opens kernel fd made.after in
      let caught = setup_sign_catching-Opens kernel queued.after in
      let signals : List Call = signal 2 ∷ signal 15 ∷ signal 13 ∷ [] in
      let queue : List Call = listen fd 10 ∷ [] in
      let bound : List Call =
        bind fd (any_address object.port) ∷ socket af_inet sock_stream 0 ∷ [] in
      let end : Exec Calls ℤ = setup_sign_catching kernel >> pure fd in
      let ready =
        Opens-bind (setup_sign_catching kernel) (λ _. pure fd) tt fd signals [] queued.after caught
          (Opens-pure fd caught.after) in
      let listening =
        Opens-bind (must kernel (listen fd 10)) (λ _. end) (kernel made.after (listen fd 10)).result
          fd queue signals made.after queued ready in
      let opens =
        Opens-bind (bound_socket kernel sock_stream object.port)
          (λ x. must kernel (listen x 10) >>= λ _. setup_sign_catching kernel >> pure x) fd fd bound
          (signal 2 ∷ signal 15 ∷ signal 13 ∷ listen fd 10 ∷ []) s made listening in
      loop-Ran accepted no_buffers serve (start_tcp object.port) fd (needs object.port fd) stops s
        opens (λ s₀. serve-Serving s₀ fd)
