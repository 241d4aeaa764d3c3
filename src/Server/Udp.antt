-- ===== src/Server/Udp.antt =====
-- src/server/serverudp.cpp
use ironhide.Base.{
  ℕ, suc, ◌+◌, ◌-◌, ◌≡◌, ◌∙◌, ap, List, [], ◌∷◌, ◌++◌, length, drop, length-append, append_assoc,
  arith, inl, inr, Bool, Bool-cases, if◌then◌else◌,
}
use ironhide.Base.Result.{ok}
use ironhide.Base.Int.{ℤ, pos, negsuc}
use ironhide.Base.Exec.{Exec, pure, gets, ◌>>=◌, ◌>>◌}
use ironhide.Socket.{
  Kernel, Calls, Call, Answer, socket, bind, signal, malloc, receive, call, is_zero, is_minus_one,
  sock_dgram, af_inet,
}
use ironhide.Process.{buffer_size}
use ironhide.Ingress.{UdpPktMngmntArgs}
use ironhide.Server.{Object, Server, new_loop, loop, reset, bound_socket, setup_sign_catching}
use ironhide.Server.Opening.{
  refusals, granted, log, any_address, bound_socket-Opens, setup_sign_catching-Opens, Opens-bind,
  Opens-pure,
}
use ironhide.Server.Rounds.{Serving, Ran, loop-Ran}

-- The count that `recvfrom` gave, as the `size_t` as which the handlers take it.
abbrev pub to_size : ℤ → ℕ
to_size (pos n) = n
to_size (negsuc n) = 18446744073709551616 - (n + 1)

-- The buffer of a packet: what `recvfrom` stores, before the rest of the memory.
abbrev pub stored_in : List ℕ → List ℕ → List ℕ
stored_in memory bytes = bytes ++ drop (length bytes) memory

-- The packets that receives have given, in the order in which they came.
abbrev pub arrivals : (Calls → List ℕ) → List ((Call × Answer) × Calls) → List UdpPktMngmntArgs
arrivals memory [] = []
arrivals memory (((receive fd n, a), s) ∷ l) =
    let earlier = arrivals memory l in
    let packet : UdpPktMngmntArgs = record {
      socket_fd = fd;
      client_address = a.peer;
      pkt = stored_in (memory s) a.bytes;
      pkt_len = to_size a.result;
    } in
    if is_minus_one a.result then earlier else earlier ++ packet ∷ []
arrivals memory (_ ∷ l) = arrivals memory l

-- The receives.
abbrev pub receives : List ((Call × Answer) × Calls) → ℕ
receives [] = 0
receives (((receive fd n, a), s) ∷ l) = suc (receives l)
receives (_ ∷ l) = receives l

-- The calls that it needs, the latest first.
abbrev pub needs : ℕ → ℤ → List Call
needs port fd =
    signal 2 ∷ signal 15 ∷ signal 13 ∷ bind fd (any_address port) ∷ socket af_inet sock_dgram 0 ∷ []

module _ (kernel : Kernel) (memory : Calls → List ℕ) where
  -- One round. A receive that fails frees the structure, and not the buffer in it, whose memory
  -- holds anything before.
  unfoldable pub serve : Server UdpPktMngmntArgs → Exec Calls (Server UdpPktMngmntArgs)
  unfolding call
  serve s = do
    args ← call kernel malloc
    if is_zero args.result then pure s else (do
      pkt ← gets memory
      packet ← call kernel (receive s.socket_fd buffer_size)
      if is_minus_one packet.result
          then pure (record s { buffers = s.buffers + 1 })
          else pure (record s {
            structs = s.structs + 1;
            buffers = s.buffers + 1;
            dispatched =
                s.dispatched
                ++ (record {
                  socket_fd = s.socket_fd;
                  client_address = packet.peer;
                  pkt = stored_in pkt packet.bytes;
                  pkt_len = to_size packet.result;
                })
                  ∷ [];
          }))

  -- run, up to its loop
  unfoldable pub start_udp : ℕ → Exec Calls ℤ
  unfolding bound_socket setup_sign_catching
  start_udp port = do
    socket_fd ← bound_socket kernel sock_dgram port
    setup_sign_catching kernel
    pure socket_fd

  -- run
  unfoldable pub run_udp :
      {Manager : Type 0} → Object Manager → List Bool → Exec Calls (Server UdpPktMngmntArgs)
  unfolding start_udp loop serve reset
  run_udp object stops = do
    socket_fd ← start_udp object.port
    loop serve (reset object).stopped stops (new_loop socket_fd)

  serve-Serving :
      (s₀ : Calls) (socket_fd : ℤ) (n : ℕ) (server : Server UdpPktMngmntArgs) (s : Calls)
      → Serving (arrivals memory) receives s₀ socket_fd n server s
      → (server' : Server UdpPktMngmntArgs) × (s' : Calls) × (serve server s ≡ (ok server', s'))
        × Serving (arrivals memory) receives s₀ socket_fd (suc n) server' s'
  unfolding serve call log refusals granted
  serve-Serving s₀ socket_fd n server s v =
      let m = kernel s malloc in
      let s1 : Calls = (malloc, m) ∷ s in
      let c = receive server.socket_fd buffer_size in
      let p = kernel s1 c in
      elim (Bool-cases (is_zero m.result)) [
        | inl e ↦ (
          server,
          s1,
          rw e,
          record {
            socket = v.socket;
            hands = v.hands;
            structures = v.structures;
            stores = v.stores;
            begins = omega (arith, v.begins);
            needs = v.needs;
            grants = v.grants;
          },
        )
        | inr e ↦ elim (Bool-cases (is_minus_one p.result)) [
          | inl f ↦ (
            record server { buffers = server.buffers + 1 },
            (c, p) ∷ s1,
            rw (e, f),
            record {
              socket = v.socket;
              hands = rw f v.hands;
              structures = v.structures;
              stores = omega (arith, v.stores);
              begins = omega (arith, v.begins);
              needs = v.needs;
              grants = v.grants;
            },
          )
          | inr f ↦
              let packet : UdpPktMngmntArgs = record {
                socket_fd = server.socket_fd;
                client_address = p.peer;
                pkt = stored_in (memory s1) p.bytes;
                pkt_len = to_size p.result;
              } in
              (
                record server {
                  structs = server.structs + 1;
                  buffers = server.buffers + 1;
                  dispatched = server.dispatched ++ packet ∷ [];
                },
                (c, p) ∷ s1,
                rw (e, f),
                record {
                  socket = v.socket;
                  hands = rw f (
                      ap (λ l. l ++ packet ∷ []) v.hands
                      ∙ append_assoc (arrivals memory (log s₀)) server.dispatched (packet ∷ []));
                  structures =
                      omega (arith, v.structures, length-append server.dispatched (packet ∷ []));
                  stores = omega (arith, v.stores);
                  begins = omega (arith, v.begins);
                  needs = v.needs;
                  grants = v.grants;
                },
              )
        ]
      ]

  -- The server of UDP exits exactly where the system refuses one of the calls that it needs for its
  -- socket, its port and its signals, and before it has asked for a packet. Else its socket is bound
  -- to its port, and it goes through its rounds up to the one in which it is stopped; every packet
  -- that arrives is handed to a thread, with its bytes, its count, its sender and the one socket, in
  -- the order of arrival, and nothing else; the structures allocated are those handed on, and there
  -- is a buffer for each receive, also for those that failed.
  pub run_udp_lem :
      {Manager : Type 0} (object : Object Manager) (stops : List Bool) (s : Calls)
      → let fd = (kernel s (socket af_inet sock_dgram 0)).result in
        Ran (arrivals memory) receives fd (needs object.port fd) stops s (run_udp object stops s)
  unfolding run_udp start_udp reset
  run_udp_lem object stops s =
      let fd = (kernel s (socket af_inet sock_dgram 0)).result in
      let made = bound_socket-Opens kernel sock_dgram object.port s in
      let caught = setup_sign_catching-Opens kernel made.after in
      let signals : List Call = signal 2 ∷ signal 15 ∷ signal 13 ∷ [] in
      let bound : List Call =
        bind fd (any_address object.port) ∷ socket af_inet sock_dgram 0 ∷ [] in
      let ready =
        Opens-bind (setup_sign_catching kernel) (λ _. pure fd) tt fd signals [] made.after caught
          (Opens-pure fd caught.after) in
      let opens =
        Opens-bind (bound_socket kernel sock_dgram object.port)
          (λ x. setup_sign_catching kernel >> pure x) fd fd bound signals s made ready in
      loop-Ran (arrivals memory) receives serve (start_udp object.port) fd (needs object.port fd)
        stops s opens (λ s₀. serve-Serving s₀ fd)
