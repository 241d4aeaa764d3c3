-- ===== src/Egress/Steps/Sockets.antt =====
-- The sockets of the egress stay those of their entries.
use ironhide.Base.{ℕ, ◌≡◌, refl, some, List, [], ◌∷◌, ◌++◌, All, inl, inr}
use ironhide.Base.Result.{ok, Result-cases}
use ironhide.Base.Exec.{OnOk}
use ironhide.Base.Text.{Text}
use ironhide.StdMap.Laws.{OrdersOn}
use ironhide.Packet.Retrieve.{advance, retrieve_ip_udp_header}
use ironhide.Sfc.{header_size, retrieve_header}
use ironhide.Entry.{ConnectionEntry, entry_lt}
use ironhide.Classifier.Chains.{IsSfcMap}
use ironhide.Db.Roulette.Backend.{Backend}
use ironhide.Endpoint.State.{SockConn, retrieve_connection_2}
use ironhide.Endpoint.Connections.{connection, HasConnections}
use ironhide.Socket.{Kernel}
use ironhide.Process.{Process, sys_, on_calls}
use ironhide.Process.Kept.{On}
use ironhide.Process.Served.{IsServed, IsOther, IsServed-Invariant}
use ironhide.Ingress.{UdpPktMngmntArgs}
use ironhide.Egress.{Task, manage_pkt_from_chain}
use ironhide.Egress.Kept.Tasks.{chained-On, run_task-On}
use ironhide.Egress.Steps.{Machine, arrives, fails, runs, Reached, starts, steps}

module _ (int_to_ip : ℕ → Text) (ip_to_int : Text → ℕ) (backend : Backend) (kernel : Kernel) where
  -- The socket of a task is that of its entry.
  task-socket :
      (args : UdpPktMngmntArgs) (s : Process)
      → OnOk
          (λ task. task.args.socket_fd ≡ (retrieve_connection_2 s.endpoint task.ce).0)
          (manage_pkt_from_chain int_to_ip ip_to_int backend kernel args s).0
  unfolding manage_pkt_from_chain sys_ on_calls
  task-socket args s = elim (Result-cases (retrieve_header args.pkt)) [
    | inr (x, e) ↦ rw e tt
    | inl (flh, e) ↦ elim (Result-cases (retrieve_ip_udp_header (advance args.pkt header_size))) [
      | inr (x, e') ↦ rw (e, e') tt
      | inl (headers, e') ↦ rw (e, e') refl
    ]
  ]

  module _ {ℓ} (P : ConnectionEntry → Type ℓ) where
    -- The entries of all packets that arrived are in `P`.
    unfoldable pub Arrived :
        {m₀ m : Machine} → Reached int_to_ip ip_to_int backend kernel m₀ m → Type ℓ
    Arrived starts = Unit
    Arrived (steps r (arrives args task s' made)) = P task.ce × Arrived r
    Arrived (steps r (fails args e s' made)) = Arrived r
    Arrived (steps r (runs before after task datagram stream split)) = Arrived r

    All-split :
        (before : List Task) (task : Task) (after : List Task)
        → All (λ (t : Task). P t.ce) (before ++ (task ∷ after))
        → P task.ce × All (λ (t : Task). P t.ce) (before ++ after)
    All-split [] task after h = h
    All-split (t ∷ before) task after h =
        let (q, rest) = All-split before task after h.1 in (q, (h.0, rest))

    module _ (ord : OrdersOn entry_lt P) (ce : ConnectionEntry) (c : SockConn) (p : P ce) where
      record IsBound (m : Machine) : Type ℓ where
        served : IsServed P ord backend ce c m.process.endpoint
        allowed : All (λ (t : Task). P t.ce) m.waiting

      abbrev Served : Process → Type ℓ
      Served = On (IsServed P ord backend ce c)

      Reached-IsBound :
          {m₀ m : Machine} (r : Reached int_to_ip ip_to_int backend kernel m₀ m)
          → Arrived r
          → IsBound m₀
          → IsBound m
      unfolding Arrived
      Reached-IsBound starts q b = b
      Reached-IsBound (steps {m} r (arrives args task s' made)) q b =
          let before = Reached-IsBound r q.1 b in
          let kept =
            chained-On P (IsOther P ord backend ce) (IsServed P ord backend ce c) int_to_ip
              ip_to_int backend kernel (IsServed-Invariant P ord backend ce c p) args m.process
              before.served in
          record { served = rw made at kept; allowed = (q.0, before.allowed) }
      Reached-IsBound (steps {m} r (fails args e s' made)) q b =
          let before = Reached-IsBound r q b in
          let kept =
            chained-On P (IsOther P ord backend ce) (IsServed P ord backend ce c) int_to_ip
              ip_to_int backend kernel (IsServed-Invariant P ord backend ce c p) args m.process
              before.served in
          record { served = rw made at kept; allowed = before.allowed }
      Reached-IsBound (steps {m} r (runs front after task datagram stream split)) q b =
          let before = Reached-IsBound r q b in
          let (own, rest) = All-split front task after (rw split at before.allowed) in
          record {
            served =
                run_task-On P (IsOther P ord backend ce) (IsServed P ord backend ce c) int_to_ip
                  ip_to_int backend kernel (IsServed-Invariant P ord backend ce c p) datagram task
                  stream own m.process before.served;
            allowed = rest;
          }

      -- Once an egress has a connection for an entry, it has it for ever: whatever packets arrive,
      -- in whatever order its threads run, and whatever the service, the system and the servers
      -- answer, the entry keeps its connection, and each packet of the entry gets its socket. The
      -- connections stay in order. A thread runs from its start to its end; the egress is first
      -- without tasks, its connections in order and the classifier's map as the classifier keeps it,
      -- and the entries of all packets that arrive are from a set that operator< orders.
      pub connection-Reached :
          {m₀ m : Machine} (r : Reached int_to_ip ip_to_int backend kernel m₀ m)
          → Arrived r
          → m₀.waiting ≡ []
          → HasConnections P ord m₀.process.endpoint
          → IsSfcMap m₀.process.endpoint.sfc_map
          → connection P ord m₀.process.endpoint ce ≡ some c
          → (connection P ord m.process.endpoint ce ≡ some c)
            × HasConnections P ord m.process.endpoint
            × ((args : UdpPktMngmntArgs) (task : Task) (s' : Process)
                → manage_pkt_from_chain int_to_ip ip_to_int backend kernel args m.process
                  ≡ (ok task, s')
                → task.ce ≡ ce
                → task.args.socket_fd ≡ c.0)
      unfolding retrieve_connection_2
      connection-Reached {m₀} {m} r q idle ordered sfc has =
          let b = Reached-IsBound r q (record {
            served = record { found = has; ordered = ordered; sfc = sfc };
            allowed = rw idle tt;
          }) in
          (
            b.served.found,
            b.served.ordered,
            λ args task s' made same.
                let socket = rw made at (task-socket args m.process) in
                rw (same, b.served.found, retrieve_connection_2) at socket,
          )
