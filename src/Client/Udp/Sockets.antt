-- ===== src/Client/Udp/Sockets.antt =====
-- What the UDP client sends, and the sockets that it leaves open.
use ironhide.Base.{
  ℕ, ◌≡◌, ◌≤◌, ◌⊎◌, refl, ◌∙◌, true, false, Bool-cases, inl, inr, List, ◌∷◌, if◌then◌else◌, arith,
  length, take, [], ◌++◌, ap, sym,
}
use mathlib.Core.List.{Mem}
use ironhide.Base.Result.{ok, err, exit_failure}
use ironhide.Base.Int.{ℤ, negsuc}
use ironhide.Base.Text.{Text, to_string}
use ironhide.Socket.{
  Kernel, Calls, Addrinfo, Peer, getaddrinfo, sendto, resolved, call, is_positive, is_zero,
  sock_dgram,
}
use ironhide.Socket.Held.{held, hold, delivered, asked}
use ironhide.Client.{close_positive, open_one, addresses_of, bytes_of}
use ironhide.Client.Loop.{
  own, NoZero, Attempt, Connected, attempts_lem, open_one_cases, held-close_positive,
  delivered-close_positive, close_positive-ok, asked-close_positive, kind_of, kinds_of,
  kinds_of-append, tried-Mem,
}
use ironhide.Client.Udp.{send_to, send_and_wait_response}

module _ (kernel : Kernel) (no_zero : NoZero kernel) (bytes : List ℕ) (base : List ℤ)
    (sent : List (List ℕ × Peer)) (found : List Addrinfo) (kinds : List (ℕ × ℕ × ℕ)) where
  -- The loop before something was sent, and after.
  abbrev Idle : List Addrinfo → ℤ → Calls → Type 0
  Idle tried sfd s =
      (held s ≡ own sfd base) × (delivered s ≡ sent) × (asked s ≡ kinds_of tried kinds)

  abbrev Used : ℤ → Calls → Type 0
  Used sfd s =
      (held s ≡ own sfd base)
      × (a : Addrinfo) × Mem a found
      × (delivered s ≡ (bytes, resolved a.ai_addr) ∷ sent)

  sends :
      (tried : List Addrinfo) (rp : Addrinfo) (s : Calls)
      → Mem rp found
      → delivered s ≡ sent
      → asked s ≡ kinds_of tried kinds
      → Connected kernel (send_to kernel bytes) rp base s
      → Attempt kernel (Idle (tried ++ rp ∷ [])) Used (open_one kernel (send_to kernel bytes) rp) s
  unfolding send_to call held hold delivered asked
  sends tried rp s mem h k c =
      let m = sendto c.sfd bytes (resolved rp.ai_addr) in
      let a = kernel c.after m in
      let after : Calls = (m, a) ∷ c.after in
      elim (Bool-cases (is_positive a.result)) [
        | inl e ↦ record {
          sfd = c.sfd;
          done = true;
          after = after;
          runs = c.runs ∙ rw e;
          ends = inr (refl, (rw c.owns c.holds, rp, mem, rw (e, c.sends, h)));
        }
        | inr e ↦ record {
          sfd = c.sfd;
          done = false;
          after = after;
          runs = c.runs ∙ rw e;
          ends = inl (
            refl,
            (
              rw c.owns c.holds,
              rw (e, c.sends, h),
              c.asks ∙ ap (λ l. kind_of rp ∷ l) k ∙ sym (kinds_of-append tried rp kinds),
            ),
          );
        }
      ]

  round :
      (tried : List Addrinfo) (rp : Addrinfo) (later : List Addrinfo) (sfd : ℤ) (s : Calls)
      → found ≡ tried ++ rp ∷ later
      → Idle tried sfd s
      → Attempt kernel
          (Idle (tried ++ rp ∷ []))
          Used
          (open_one kernel (send_to kernel bytes) rp)
          (close_positive kernel sfd s).1
  round tried rp later sfd s all (h, d, k) =
      let closed = (close_positive kernel sfd s).1 in
      let same : delivered closed ≡ sent = delivered-close_positive kernel sfd s ∙ d in
      let kept : asked closed ≡ kinds_of tried kinds = asked-close_positive kernel sfd s ∙ k in
      elim (open_one_cases kernel (send_to kernel bytes) rp base closed no_zero
        (held-close_positive kernel sfd base s h)) [
          | inr c ↦ sends tried rp closed (tried-Mem tried rp later all) same kept c
          | inl f ↦ record {
            sfd = f.sfd;
            done = false;
            after = f.after;
            runs = f.runs;
            ends = inl (
              refl,
              (
                f.holds,
                f.sends ∙ same,
                f.asks ∙ ap (λ l. kind_of rp ∷ l) kept ∙ sym (kinds_of-append tried rp kinds),
              ),
            );
          }
        ]

-- If the addresses of the destination are found, the client comes back, and else the program exits.
-- Either way no socket is left open that was not before, and what was sent is the first
-- `message_len` bytes of the message, once and to one of the addresses found, or nothing, after a
-- socket was asked for each of them. The message is that long, and `socket` never gives the
-- descriptor 0.
pub send_and_wait_response_lem :
    (kernel : Kernel) (message : List ℕ) (message_len : ℕ) (dst : Text) (port : ℕ) (s : Calls)
    → NoZero kernel
    → message_len ≤ length message
    → let found = kernel s (getaddrinfo dst (to_string port) sock_dgram) in
      let (r, s') = send_and_wait_response kernel message message_len dst port s in
      (r ≡ (if is_zero found.result then ok tt else err exit_failure))
      × (held s' ≡ held s)
      × (((delivered s' ≡ delivered s)
            × (is_zero found.result ≡ true → asked s' ≡ kinds_of found.addresses (asked s)))
          ⊎ ((a : Addrinfo) × Mem a found.addresses
              × (delivered s' ≡ (take message_len message, resolved a.ai_addr) ∷ delivered s)))
unfolding send_and_wait_response addresses_of call held hold delivered asked
send_and_wait_response_lem kernel message message_len dst port s no_zero long =
    let bytes = take message_len message in
    let c = getaddrinfo dst (to_string port) sock_dgram in
    let found = kernel s c in
    let read : bytes_of message message_len ≡ ok bytes = ground arith in
    elim (Bool-cases (is_zero found.result)) [
      | inr e ↦ (rw e, rw e, inl (rw e, λ g. cc))
      | inl e ↦
          let a =
            attempts_lem kernel
              (Idle kernel no_zero bytes (held s) (delivered s) found.addresses (asked s))
              (Used kernel no_zero bytes (held s) (delivered s) found.addresses (asked s))
              (send_to kernel bytes) found.addresses
              (round kernel no_zero bytes (held s) (delivered s) found.addresses (asked s))
              found.addresses [] (negsuc 0) ((c, found) ∷ s) refl (refl, refl, refl) in
          let closed = delivered-close_positive kernel a.sfd a.after in
          let holds : held a.after ≡ own a.sfd (held s) = elim a.ends [
            | inl (_, idle) ↦ idle.0
            | inr (_, used) ↦ used.0
          ] in
          rw (e, read, a.runs)
            (
              close_positive-ok kernel a.sfd a.after,
              held-close_positive kernel a.sfd (held s) a.after holds,
              elim a.ends [
                | inl (_, idle) ↦
                    inl (closed ∙ idle.1, λ _. asked-close_positive kernel a.sfd a.after ∙ idle.2)
                | inr (_, used) ↦ inr (used.1, used.2, closed ∙ used.3)
              ],
            )
    ]
