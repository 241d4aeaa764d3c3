-- ===== src/Server/Opening.antt =====
-- What the servers ask of the system before their loops, and where that ends the program.
use ironhide.Base.{
  ℕ, suc, ◌≡◌, ◌⊎◌, refl, inl, inr, Bool, true, false, Bool-cases, List, [], ◌∷◌, ◌++◌, ◌&&◌,
  if◌then◌else◌, ◌∙◌, ap, sym, append_assoc,
}
use ironhide.Base.Result.{ok, err, exit_failure}
use ironhide.Base.Int.{ℤ}
use ironhide.Base.Exec.{Exec, pure, ◌>>=◌, ◌>>◌}
use ironhide.Wire.{htons}
use ironhide.Socket.{
  Kernel, Calls, Call, Answer, SockaddrIn, signal, socket, setsockopt, bind, listen, malloc, accept,
  receive, call, call_, is_minus_one, af_inet,
}
use ironhide.Server.{must, bound_socket, setup_sign_catching}

-- The calls without which a server cannot start.
abbrev pub needed : Call → Bool
needed (socket _ _ _) = true
needed (bind _ _) = true
needed (listen _ _) = true
needed (signal _) = true
needed _ = false

-- How many of them the system has refused with -1, and those that it has granted, the latest first.
unfoldable pub refusals : Calls → ℕ
refusals [] = 0
refusals ((c, a) ∷ s) =
    let rest = refusals s in if needed c && is_minus_one a.result then suc rest else rest

unfoldable pub granted : Calls → List Call
granted [] = []
granted ((c, a) ∷ s) =
    let rest = granted s in
    if needed c then if is_minus_one a.result then rest else c ∷ rest else rest

-- The calls of the loops, the latest first, each with the calls before it.
unfoldable pub log : Calls → List ((Call × Answer) × Calls)
log [] = []
log ((malloc, a) ∷ s) = ((malloc, a), s) ∷ log s
log ((accept fd, a) ∷ s) = ((accept fd, a), s) ∷ log s
log ((receive fd n, a) ∷ s) = ((receive fd n, a), s) ∷ log s
log (_ ∷ s) = log s

-- A part of the start of a server: one call is refused and the program ends, or else all of them
-- are granted.
pub record Opens {A : Type 0} (m : Exec Calls A) (a : A) (all : List Call) (s : Calls)
    : Type 0 where
  pub after : Calls
  pub ends :
      ((m s ≡ (err exit_failure, after)) × (refusals after ≡ suc (refusals s)))
      ⊎ ((m s ≡ (ok a, after)) × (refusals after ≡ refusals s) × (granted after ≡ all ++ granted s))
  pub quiet : log after ≡ log s

must-Opens :
    (kernel : Kernel) (c : Call) (s : Calls)
    → needed c ≡ true
    → log ((c, kernel s c) ∷ s) ≡ log s
    → Opens (must kernel c) (kernel s c).result (c ∷ []) s
unfolding must call refusals granted
must-Opens kernel c s h silent = record {
  after = (c, kernel s c) ∷ s;
  ends = elim (Bool-cases (is_minus_one (kernel s c).result)) [
    | inl e ↦ inl (rw e, rw (h, e))
    | inr e ↦ inr (rw e, rw (h, e), rw (h, e))
  ];
  quiet = silent;
}

-- One part after another.
pub Opens-bind :
    {A B : Type 0} (m : Exec Calls A) (k : A → Exec Calls B) (a : A) (b : B) (all more : List Call)
    (s : Calls)
    → (o : Opens m a all s) → Opens (k a) b more o.after
    → Opens (m >>= k) b (more ++ all) s
Opens-bind m k a b all more s o p = elim o.ends [
  | inl (e, refused) ↦ record { after = o.after; ends = inl (rw e, refused); quiet = o.quiet }
  | inr (e, fine, had) ↦ record {
    after = p.after;
    ends = elim p.ends [
      | inl (f, refused) ↦ inl (rw (e, f), refused ∙ ap suc fine)
      | inr (f, fine', had') ↦ inr (
        rw (e, f),
        fine' ∙ fine,
        had' ∙ ap (λ l. more ++ l) had ∙ sym (append_assoc more all (granted s)),
      )
    ];
    quiet = p.quiet ∙ o.quiet;
  }
]

pub Opens-pure : {A : Type 0} (a : A) (s : Calls) → Opens (pure a) a [] s
Opens-pure a s = record { after = s; ends = inr (refl, refl, refl); quiet = refl }

setsockopt-Opens :
    (kernel : Kernel) (fd : ℤ) (s : Calls) → Opens (call_ kernel (setsockopt fd)) tt [] s
unfolding call_ refusals granted log
setsockopt-Opens kernel fd s = record {
  after = (setsockopt fd, kernel s (setsockopt fd)) ∷ s;
  ends = inr (refl, refl, refl);
  quiet = refl;
}

-- The address that a server of a port is bound to.
abbrev pub any_address : ℕ → SockaddrIn
any_address port = record { sin_family = af_inet; sin_port = htons port; sin_addr = 0 }

module _ (kernel : Kernel) where
  pub bound_socket-Opens :
      (kind port : ℕ) (s : Calls)
      → let fd = (kernel s (socket af_inet kind 0)).result in
        Opens
          (bound_socket kernel kind port)
          fd
          (bind fd (any_address port) ∷ socket af_inet kind 0 ∷ [])
          s
  unfolding bound_socket log
  bound_socket-Opens kind port s =
      let c = socket af_inet kind 0 in
      let fd = (kernel s c).result in
      let rest : ℤ → Exec Calls ℤ = λ x.
        call_ kernel (setsockopt x) >> (must kernel (bind x (any_address port)) >>= λ _. pure x) in
      let made = must-Opens kernel c s refl refl in
      let set = setsockopt-Opens kernel fd made.after in
      let b = bind fd (any_address port) in
      let bound = must-Opens kernel b set.after refl refl in
      let binds : ℤ → Exec Calls ℤ = λ _. pure fd in
      let after =
        Opens-bind (must kernel b) binds (kernel set.after b).result fd (b ∷ []) [] set.after bound
          (Opens-pure fd bound.after) in
      Opens-bind (must kernel c) rest fd fd (c ∷ []) (b ∷ []) s made (
        Opens-bind (call_ kernel (setsockopt fd)) (λ _. must kernel b >>= binds) tt fd [] (b ∷ [])
          made.after set after)

  pub listen-Opens :
      (fd : ℤ) (s : Calls)
      → Opens (must kernel (listen fd 10)) (kernel s (listen fd 10)).result (listen fd 10 ∷ []) s
  unfolding log
  listen-Opens fd s = must-Opens kernel (listen fd 10) s refl refl

  pub setup_sign_catching-Opens :
      (s : Calls) → Opens (setup_sign_catching kernel) tt (signal 2 ∷ signal 15 ∷ signal 13 ∷ []) s
  unfolding setup_sign_catching log
  setup_sign_catching-Opens s =
      let done : ℤ → Exec Calls (Unit {0}) = λ _. pure tt in
      let one = must-Opens kernel (signal 13) s refl refl in
      let two = must-Opens kernel (signal 15) one.after refl refl in
      let three = must-Opens kernel (signal 2) two.after refl refl in
      let last : ℤ → Exec Calls (Unit {0}) = λ _. must kernel (signal 2) >>= done in
      let ends =
        Opens-bind (must kernel (signal 2)) done (kernel two.after (signal 2)).result tt
          (signal 2 ∷ []) [] two.after three (Opens-pure tt three.after) in
      let middle =
        Opens-bind (must kernel (signal 15)) last (kernel one.after (signal 15)).result tt
          (signal 15 ∷ []) (signal 2 ∷ []) one.after two ends in
      Opens-bind (must kernel (signal 13)) (λ _. must kernel (signal 15) >>= last)
        (kernel s (signal 13)).result tt (signal 13 ∷ []) (signal 2 ∷ signal 15 ∷ []) s one middle
