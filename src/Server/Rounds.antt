-- ===== src/Server/Rounds.antt =====
-- What the loops of the servers keep from round to round.
use ironhide.Base.{
  ℕ, suc, ◌+◌, ◌≡◌, ◌∙◌, refl, Bool, true, false, List, [], ◌∷◌, ◌++◌, length, ◌⊎◌, inl, inr, arith,
  subst, ap, sym, append-nil,
}
use ironhide.Base.Result.{Result, ok, err, exit_failure}
use ironhide.Base.Int.{ℤ}
use ironhide.Base.Exec.{Exec, ◌>>=◌}
use ironhide.Socket.{Calls, Call, Answer, malloc}
use ironhide.Server.{Server, new_loop, loop}
use ironhide.Server.Opening.{Opens, refusals, granted, log}

-- The rounds of a loop: up to the one in which the server is stopped, which is run to its end.
abbrev pub rounds : List Bool → ℕ
rounds [] = 0
rounds (true ∷ stops) = 1
rounds (false ∷ stops) = suc (rounds stops)

-- The rounds that have begun: each asks for memory first.
abbrev pub begun : List ((Call × Answer) × Calls) → ℕ
begun [] = 0
begun (((malloc, a), s) ∷ l) = suc (begun l)
begun (_ ∷ l) = begun l

module _ {Args : Type 0} (handed : List ((Call × Answer) × Calls) → List Args)
    (stored : List ((Call × Answer) × Calls) → ℕ) (s₀ : Calls) where
  -- `n` rounds after the calls `s₀`: what was handed to threads is what the calls of the loop gave.
  pub record Serving (socket_fd : ℤ) (n : ℕ) (server : Server Args) (s : Calls) : Type 0 where
    pub socket : server.socket_fd ≡ socket_fd
    pub hands : handed (log s) ≡ handed (log s₀) ++ server.dispatched
    pub structures : server.structs ≡ length server.dispatched
    pub stores : stored (log s) ≡ stored (log s₀) + server.buffers
    pub begins : begun (log s) ≡ begun (log s₀) + n
    pub needs : refusals s ≡ refusals s₀
    pub grants : granted s ≡ granted s₀

  module _ (serve : Server Args → Exec Calls (Server Args)) (socket_fd : ℤ)
      (round : (n : ℕ) (server : Server Args) (s : Calls)
        → Serving socket_fd n server s
        → (server' : Server Args) × (s' : Calls) × (serve server s ≡ (ok server', s'))
          × Serving socket_fd (suc n) server' s') where
    -- What a round keeps, the loop keeps for all of its rounds.
    pub loop-Serving :
        (stops : List Bool) (n : ℕ) (server : Server Args) (s : Calls)
        → Serving socket_fd n server s
        → (server' : Server Args) × (s' : Calls) × (loop serve false stops server s
            ≡ (ok server', s'))
          × Serving socket_fd (n + rounds stops) server' s'
    unfolding loop
    loop-Serving [] n server s v =
        (server, s, refl, subst (λ k. Serving socket_fd k server s) (omega arith) v)
    loop-Serving (true ∷ stops) n server s v =
        let (server', s', runs, v') = round n server s v in
        (server', s', rw runs, subst (λ k. Serving socket_fd k server' s') (omega arith) v')
    loop-Serving (false ∷ stops) n server s v =
        let (server', s', runs, v') = round n server s v in
        let (last, s'', ends, w) = loop-Serving stops (suc n) server' s' v' in
        (last, s'', rw runs ends, subst (λ k. Serving socket_fd k last s'') (omega arith) w)

-- How a server runs: it exits exactly where the system refuses one of the calls `all`, before it has
-- asked for anything in its loop; or all are granted, and the rounds up to the stop have handed on what
-- the calls of the loop gave.
abbrev pub Ran :
    {Args : Type 0}
    → (List ((Call × Answer) × Calls) → List Args)
    → (List ((Call × Answer) × Calls) → ℕ)
    → ℤ
    → List Call
    → List Bool
    → Calls
    → Result (Server Args) × Calls
    → Type 0
Ran {Args} handed stored socket_fd all stops s (r, s') =
    ((r ≡ err exit_failure) × (refusals s' ≡ suc (refusals s)) × (log s' ≡ log s))
    ⊎ ((server : Server Args) × (r ≡ ok server)
        × (refusals s' ≡ refusals s)
        × (granted s' ≡ all ++ granted s)
        × (server.socket_fd ≡ socket_fd)
        × (begun (log s') ≡ begun (log s) + rounds stops)
        × (handed (log s') ≡ handed (log s) ++ server.dispatched)
        × (server.structs ≡ length server.dispatched)
        × (stored (log s') ≡ stored (log s) + server.buffers))

pub loop-Ran :
    {Args : Type 0} (handed : List ((Call × Answer) × Calls) → List Args)
    (stored : List ((Call × Answer) × Calls) → ℕ) (serve : Server Args → Exec Calls (Server Args))
    (m : Exec Calls ℤ) (socket_fd : ℤ) (all : List Call) (stops : List Bool) (s : Calls)
    → Opens m socket_fd all s
    → ((s₀ : Calls) (n : ℕ) (server : Server Args) (s : Calls)
        → Serving handed stored s₀ socket_fd n server s
        → (server' : Server Args) × (s' : Calls) × (serve server s ≡ (ok server', s'))
          × Serving handed stored s₀ socket_fd (suc n) server' s')
    → Ran handed stored socket_fd all stops s ((m >>= λ fd. loop serve false stops (new_loop fd)) s)
loop-Ran handed stored serve m socket_fd all stops s o round = elim o.ends [
  | inl (e, refused) ↦ inl (rw e, rw e refused, rw e o.quiet)
  | inr (e, fine, had) ↦
      let start : Serving handed stored o.after socket_fd 0 (new_loop socket_fd) o.after = record {
        socket = refl;
        hands = sym (append-nil (handed (log o.after)));
        structures = refl;
        stores = omega arith;
        begins = omega arith;
        needs = refl;
        grants = refl;
      } in
      let (server, s', runs, v) =
        loop-Serving handed stored o.after serve socket_fd (round o.after) stops 0
          (new_loop socket_fd) o.after start in
      inr (
        server,
        rw (e, runs),
        rw (e, runs) (v.needs ∙ fine),
        rw (e, runs) (v.grants ∙ had),
        v.socket,
        rw (e, runs) (omega (arith, v.begins, ap begun o.quiet)),
        rw (e, runs) (v.hands ∙ ap (λ l. handed l ++ server.dispatched) o.quiet),
        v.structures,
        rw (e, runs) (v.stores ∙ ap (λ l. stored l + server.buffers) o.quiet),
      )
]
