-- ===== src/Client/Tcp/Sockets.antt =====
-- What the TCP client connects, and the sockets that it leaves open.
use ironhide.Base.{
  ℕ, zero, suc, arith, ◌≡◌, ◌⊎◌, refl, ◌∙◌, true, false, Bool-cases, inl, inr, List, ◌∷◌, ◌||◌, [],
  ◌++◌, ap, sym,
}
use mathlib.Core.List.{Mem}
use ironhide.Base.Result.{ok, err, exit_failure}
use ironhide.Base.Int.{ℤ, pos, negsuc}
use ironhide.Base.Text.{Text, to_string}
use ironhide.Wire.{htons}
use ironhide.Socket.{
  Kernel, Calls, Addrinfo, Peer, socket, inet_pton, getaddrinfo, resolved, call, is_negative,
  is_zero, is_positive, sock_stream, af_inet,
}
use ironhide.Socket.Held.{held, hold, connections, asked}
use ironhide.Client.{close_positive, open_one, addresses_of}
use ironhide.Client.Loop.{
  own, NoZero, Attempt, attempts_lem, open_one_cases, held-close_positive,
  connections-close_positive, asked-close_positive, kind_of, kinds_of, kinds_of-append, tried-Mem,
}
use ironhide.Client.Tcp.{ClientTcp, use_stream, connect_to_server}

module _ (kernel : Kernel) (no_zero : NoZero kernel) (size : ℕ) (base : List ℤ)
    (before : List (ℤ × Peer)) (found : List Addrinfo) (kinds : List (ℕ × ℕ × ℕ)) where
  -- The loop before a socket was connected, and after.
  abbrev Idle : List Addrinfo → ℤ → Calls → Type 0
  Idle tried sfd s =
      (held s ≡ own sfd base) × (connections s ≡ before) × (asked s ≡ kinds_of tried kinds)

  abbrev Used : ℤ → Calls → Type 0
  Used sfd s =
      (held s ≡ sfd ∷ base)
      × (a : Addrinfo) × Mem a found
      × (connections s ≡ (sfd, resolved a.ai_addr) ∷ before)

  round :
      (tried : List Addrinfo) (rp : Addrinfo) (later : List Addrinfo) (sfd : ℤ) (s : Calls)
      → found ≡ tried ++ rp ∷ later
      → Idle tried sfd s
      → Attempt kernel
          (Idle (tried ++ rp ∷ []))
          Used
          (open_one kernel (use_stream kernel size) rp)
          (close_positive kernel sfd s).1
  round tried rp later sfd s all (h, d, k) =
      let closed = (close_positive kernel sfd s).1 in
      let same : connections closed ≡ before = connections-close_positive kernel sfd s ∙ d in
      let kept : asked closed ≡ kinds_of tried kinds = asked-close_positive kernel sfd s ∙ k in
      elim (open_one_cases kernel (use_stream kernel size) rp base closed no_zero
        (held-close_positive kernel sfd base s h)) [
          | inr c ↦ record {
            sfd = c.sfd;
            done = true;
            after = c.after;
            runs = c.runs;
            ends = inr (refl, (c.holds, rp, tried-Mem tried rp later all, rw same at c.connects));
          }
          | inl f ↦ record {
            sfd = f.sfd;
            done = false;
            after = f.after;
            runs = f.runs;
            ends = inl (
              refl,
              (
                f.holds,
                f.connects ∙ same,
                f.asks ∙ ap (λ l. kind_of rp ∷ l) kept ∙ sym (kinds_of-append tried rp kinds),
              ),
            );
          }
        ]

-- `inet_pton` gives a positive number for what it can read.
unread : (x : ℤ) → (is_negative x || is_zero x) ≡ true → is_positive x ≡ false
unread (pos zero) h = refl
unread (pos (suc n)) h = absurd (ground arith)
unread (negsuc n) h = refl

read : (x : ℤ) → (is_negative x || is_zero x) ≡ false → is_positive x ≡ true
read (pos zero) h = absurd (ground arith)
read (pos (suc n)) h = refl
read (negsuc n) h = absurd (ground arith)

-- The client returns exactly where it gets a first socket, the destination is an address in numbers,
-- the system finds addresses for it, and a socket is connected to one of these: it holds that
-- socket, and has left open the first one; the port is kept in network order, with the address that
-- was read. Where one of the first three fails, or a socket was asked for each of the addresses and
-- none connected, the program exits. `socket` never gives the descriptor 0.
pub connect_to_server_lem :
    (kernel : Kernel) (size : ℕ) (dst : Text) (port : ℕ) (s : Calls)
    → NoZero kernel
    → let first = kernel s (socket af_inet sock_stream 0) in
      let s₁ : Calls = (socket af_inet sock_stream 0, first) ∷ s in
      let address = kernel s₁ (inet_pton dst) in
      let s₂ : Calls = (inet_pton dst, address) ∷ s₁ in
      let found = kernel s₂ (getaddrinfo dst (to_string port) sock_stream) in
      let (r, s') = connect_to_server kernel size dst port s in
      ((client : ClientTcp) × (a : Addrinfo) × (r ≡ ok client)
        × (is_negative first.result ≡ false)
        × (is_positive address.result ≡ true)
        × (is_zero found.result ≡ true)
        × Mem a found.addresses
        × (held s' ≡ client.sock ∷ first.result ∷ held s)
        × (connections s' ≡ (client.sock, resolved a.ai_addr) ∷ connections s)
        × (client.serv_addr.sin_port ≡ htons port)
        × (client.serv_addr.sin_addr ≡ address.peer.sin_addr))
      ⊎ ((r ≡ err exit_failure)
          × (connections s' ≡ connections s)
          × ((is_negative first.result ≡ true)
              ⊎ ((is_positive address.result ≡ false)
                  ⊎ ((is_zero found.result ≡ false)
                      ⊎ (asked s' ≡ kinds_of found.addresses (asked s₁))))))
unfolding connect_to_server addresses_of call held hold connections asked
connect_to_server_lem kernel size dst port s no_zero =
    let c1 = socket af_inet sock_stream 0 in
    let first = kernel s c1 in
    let s1 : Calls = (c1, first) ∷ s in
    let address = kernel s1 (inet_pton dst) in
    let s2 : Calls = (inet_pton dst, address) ∷ s1 in
    let c3 = getaddrinfo dst (to_string port) sock_stream in
    let found = kernel s2 c3 in
    elim (Bool-cases (is_negative first.result)) [
      | inl e ↦ inr (rw e, rw e, inl e)
      | inr e ↦ elim (Bool-cases (is_negative address.result || is_zero address.result)) [
        | inl g ↦ inr (rw (e, g), rw (e, g), inr (inl (unread address.result g)))
        | inr g ↦ elim (Bool-cases (is_zero found.result)) [
          | inr f ↦ inr (rw (e, g, f), rw (e, g, f), inr (inr (inl f)))
          | inl f ↦
              let base = first.result ∷ held s in
              let a =
                attempts_lem kernel
                  (Idle kernel no_zero size base (connections s) found.addresses (asked s1))
                  (Used kernel no_zero size base (connections s) found.addresses (asked s1))
                  (use_stream kernel size) found.addresses
                  (round kernel no_zero size base (connections s) found.addresses (asked s1))
                  found.addresses [] (negsuc 0) ((c3, found) ∷ s2) refl (rw e, refl, refl) in
              elim a.ends [
                | inl (done, idle) ↦ inr (
                  rw (e, g, f, a.runs, done),
                  rw (e, g, f, a.runs, done) idle.1,
                  inr (inr (inr (rw (e, g, f, a.runs, done) idle.2))),
                )
                | inr (done, used) ↦ inl (
                  record {
                    serv_addr = record {
                      sin_family = af_inet;
                      sin_port = htons port;
                      sin_addr = address.peer.sin_addr;
                    };
                    sock = a.sfd;
                  },
                  used.1,
                  rw (e, g, f, a.runs, done),
                  e,
                  read address.result g,
                  f,
                  used.2,
                  rw (e, g, f, a.runs, done) used.0,
                  rw (e, g, f, a.runs, done) used.3,
                  refl,
                  refl,
                )
              ]
        ]
      ]
    ]
