-- ===== src/Client/Loop.antt =====
-- What the loop over the addresses does with its sockets.
use ironhide.Base.{
  ℕ, zero, suc, ◌≡◌, ◌≢◌, ◌⊎◌, refl, ◌∙◌, Bool, true, false, Bool-cases, inl, inr, List, [], ◌∷◌,
  if◌then◌else◌, arith, ◌++◌, append_assoc, append-nil, sym, subst,
}
use mathlib.Core.List.{Mem, mem-append_right, mem-cons_self}
use ironhide.Base.Result.{ok}
use ironhide.Base.Int.{ℤ, pos, negsuc}
use ironhide.Base.Exec.{Exec, pure, ◌>>=◌}
use ironhide.Socket.{
  Kernel, Calls, Addrinfo, socket, connect, resolved, call, call_, is_positive, is_negative,
  is_minus_one,
}
use ironhide.Socket.Held.{delivered, said, connections, asked, held, hold, release, int_eq_refl}
use ironhide.Client.{close_positive, connected, open_one, attempts}

-- The sockets held while the loop has `sfd`.
abbrev pub own : ℤ → List ℤ → List ℤ
own (pos zero) base = base
own (pos (suc n)) base = pos (suc n) ∷ base
own (negsuc n) base = base

-- The socket that an address asks for, and those that the addresses of a list do, the last first.
abbrev pub kind_of : Addrinfo → ℕ × ℕ × ℕ
kind_of rp = (rp.ai_family, rp.ai_socktype, rp.ai_protocol)

abbrev pub kinds_of : List Addrinfo → List (ℕ × ℕ × ℕ) → List (ℕ × ℕ × ℕ)
kinds_of [] before = before
kinds_of (rp ∷ rest) before = kinds_of rest (kind_of rp ∷ before)

pub kinds_of-append :
    (l : List Addrinfo) (rp : Addrinfo) (before : List (ℕ × ℕ × ℕ))
    → kinds_of (l ++ rp ∷ []) before ≡ kind_of rp ∷ kinds_of l before
kinds_of-append [] rp before = refl
kinds_of-append (a ∷ l) rp before = kinds_of-append l rp (kind_of a ∷ before)

-- An address that is tried is one of the list.
pub tried-Mem :
    {found : List Addrinfo} (tried : List Addrinfo) (rp : Addrinfo) (later : List Addrinfo)
    → found ≡ tried ++ rp ∷ later
    → Mem rp found
tried-Mem tried rp later all = subst (Mem rp) (sym all) (mem-append_right tried mem-cons_self)

-- `socket` does not give the descriptor 0, which stands for the standard input.
abbrev pub NoZero : Kernel → Type 0
NoZero kernel = (s : Calls) (f t p : ℕ) → (kernel s (socket f t p)).result ≢ pos 0

module _ (kernel : Kernel) where
  -- After the loop has closed its socket, the sockets held are those before it.
  pub held-close_positive :
      (sfd : ℤ) (base : List ℤ) (s : Calls)
      → held s ≡ own sfd base
      → held (close_positive kernel sfd s).1 ≡ base
  unfolding close_positive call_ held hold release
  held-close_positive (pos zero) base s h = h
  held-close_positive (pos (suc n)) base s h = rw (h, int_eq_refl (pos (suc n)))
  held-close_positive (negsuc n) base s h = h

  pub close_positive-ok : (sfd : ℤ) (s : Calls) → (close_positive kernel sfd s).0 ≡ ok tt
  unfolding close_positive call_
  close_positive-ok sfd s = elim (Bool-cases (is_positive sfd)) [ inl e ↦ rw e | inr e ↦ rw e ]

  pub delivered-close_positive :
      (sfd : ℤ) (s : Calls) → delivered (close_positive kernel sfd s).1 ≡ delivered s
  unfolding close_positive call_ delivered
  delivered-close_positive sfd s = elim (Bool-cases (is_positive sfd)) [
    | inl e ↦ rw e
    | inr e ↦ rw e
  ]

  pub said-close_positive : (sfd : ℤ) (s : Calls) → said (close_positive kernel sfd s).1 ≡ said s
  unfolding close_positive call_ said
  said-close_positive sfd s = elim (Bool-cases (is_positive sfd)) [ inl e ↦ rw e | inr e ↦ rw e ]

  pub connections-close_positive :
      (sfd : ℤ) (s : Calls) → connections (close_positive kernel sfd s).1 ≡ connections s
  unfolding close_positive call_ connections
  connections-close_positive sfd s = elim (Bool-cases (is_positive sfd)) [
    | inl e ↦ rw e
    | inr e ↦ rw e
  ]

  pub asked-close_positive : (sfd : ℤ) (s : Calls) → asked (close_positive kernel sfd s).1 ≡ asked s
  unfolding close_positive call_ asked
  asked-close_positive sfd s = elim (Bool-cases (is_positive sfd)) [ inl e ↦ rw e | inr e ↦ rw e ]

  own-positive : (x : ℤ) (base : List ℤ) → is_positive x ≡ true → own x base ≡ x ∷ base
  own-positive (pos zero) base h = absurd (ground arith)
  own-positive (pos (suc n)) base h = refl
  own-positive (negsuc n) base h = absurd (ground arith)

  own-socket :
      (x : ℤ) (base : List ℤ) → x ≢ pos 0 → (if is_negative x then base else x ∷ base) ≡ own x base
  own-socket (pos zero) base h = absurd (h refl)
  own-socket (pos (suc n)) base h = refl
  own-socket (negsuc n) base h = refl

  -- A new socket that could not be connected, and one that is connected, ready for use.
  pub record Failed (rp : Addrinfo) (base : List ℤ) (m : Exec Calls (ℤ × Bool)) (s : Calls)
      : Type 0 where
    pub sfd : ℤ
    pub after : Calls
    pub runs : m s ≡ (ok (sfd, false), after)
    pub holds : held after ≡ own sfd base
    pub sends : delivered after ≡ delivered s
    pub connects : connections after ≡ connections s
    pub asks : asked after ≡ kind_of rp ∷ asked s

  pub record Connected (usage : ℤ → Addrinfo → Exec Calls Bool) (rp : Addrinfo) (base : List ℤ)
      (s : Calls) : Type 0 where
    pub sfd : ℤ
    pub after : Calls
    pub runs : open_one kernel usage rp s ≡ (usage sfd rp >>= λ d. pure (sfd, d)) after
    pub holds : held after ≡ sfd ∷ base
    pub owns : own sfd base ≡ sfd ∷ base
    pub sends : delivered after ≡ delivered s
    pub connects : connections after ≡ (sfd, resolved rp.ai_addr) ∷ connections s
    pub asks : asked after ≡ kind_of rp ∷ asked s

  pub open_one_cases :
      (usage : ℤ → Addrinfo → Exec Calls Bool) (rp : Addrinfo) (base : List ℤ) (s : Calls)
      → NoZero kernel
      → held s ≡ base
      → Failed rp base (open_one kernel usage rp) s ⊎ Connected usage rp base s
  unfolding open_one connected call held hold delivered connections asked
  open_one_cases usage rp base s no_zero h =
      let c = socket rp.ai_family rp.ai_socktype rp.ai_protocol in
      let a = kernel s c in
      let fd = a.result in
      let after : Calls = (c, a) ∷ s in
      let b = kernel after (connect fd (resolved rp.ai_addr)) in
      let last : Calls = (connect fd (resolved rp.ai_addr), b) ∷ after in
      let owned : held after ≡ own fd base =
        rw h (own-socket fd base (no_zero s rp.ai_family rp.ai_socktype rp.ai_protocol)) in
      elim (Bool-cases (is_positive fd)) [
        | inr e ↦ inl (record {
          sfd = fd;
          after = after;
          runs = rw e;
          holds = owned;
          sends = refl;
          connects = refl;
          asks = refl;
        })
        | inl e ↦ elim (Bool-cases (is_minus_one b.result)) [
          | inl g ↦ inl (record {
            sfd = fd;
            after = last;
            runs = rw (e, g);
            holds = owned;
            sends = refl;
            connects = rw g;
            asks = refl;
          })
          | inr g ↦ inr (record {
            sfd = fd;
            after = last;
            runs = rw (e, g);
            holds = owned ∙ own-positive fd base e;
            owns = own-positive fd base e;
            sends = refl;
            connects = rw g;
            asks = refl;
          })
        ]
      ]

  -- How an attempt ends: with a socket that is not in use, or with one that is.
  pub record Attempt {ℓ} (Idle : ℤ → Calls → Type ℓ) (Used : ℤ → Calls → Type ℓ)
      (m : Exec Calls (ℤ × Bool)) (s : Calls) : Type ℓ where
    pub sfd : ℤ
    pub done : Bool
    pub after : Calls
    pub runs : m s ≡ (ok (sfd, done), after)
    pub ends : ((done ≡ false) × Idle sfd after) ⊎ ((done ≡ true) × Used sfd after)

  module _ {ℓ} (Idle : List Addrinfo → ℤ → Calls → Type ℓ) (Used : ℤ → Calls → Type ℓ)
      (usage : ℤ → Addrinfo → Exec Calls Bool) (found : List Addrinfo)
      (round : (tried : List Addrinfo) (rp : Addrinfo) (later : List Addrinfo) (sfd : ℤ) (s : Calls)
        → found ≡ tried ++ rp ∷ later
        → Idle tried sfd s
        → Attempt
            (Idle (tried ++ rp ∷ []))
            Used
            (open_one kernel usage rp)
            (close_positive kernel sfd s).1) where
    -- What each round keeps, with the addresses that it has tried, the loop keeps.
    pub attempts_lem :
        (l tried : List Addrinfo) (sfd : ℤ) (s : Calls)
        → found ≡ tried ++ l
        → Idle tried sfd s
        → Attempt (Idle found) Used (attempts kernel usage sfd l) s
    unfolding attempts
    attempts_lem [] tried sfd s all h = record {
      sfd = sfd;
      done = false;
      after = s;
      runs = refl;
      ends = inl (refl, subst (λ t. Idle t sfd s) (sym (all ∙ append-nil tried)) h);
    }
    attempts_lem (rp ∷ l) tried sfd s all h =
        let r = round tried rp l sfd s all h in
        elim r.ends [
          | inr (e, used) ↦ record {
            sfd = r.sfd;
            done = r.done;
            after = r.after;
            runs = rw (close_positive-ok sfd s, r.runs, e);
            ends = inr (e, used);
          }
          | inl (e, idle) ↦
              let rest =
                attempts_lem l (tried ++ rp ∷ []) r.sfd r.after
                  (all ∙ sym (append_assoc tried (rp ∷ []) l)) idle in
              record {
                sfd = rest.sfd;
                done = rest.done;
                after = rest.after;
                runs = rw (close_positive-ok sfd s, r.runs, e) rest.runs;
                ends = rest.ends;
              }
        ]
