-- ===== src/Client/Udp/Delivery.antt =====
-- Where the system does what it is asked to, the UDP client sends its message to the first address.
use ironhide.Base.{
  ℕ, refl, ◌≡◌, ◌≤◌, ◌∙◌, ap, true, false, List, ◌∷◌, arith, length, take, ◌<◌, length-take_le,
}
use ironhide.Base.Result.{ok}
use ironhide.Base.Int.{ℤ, pos, negsuc}
use ironhide.Base.Text.{Text, to_string}
use ironhide.Socket.{
  Kernel, Calls, Addrinfo, Peer, getaddrinfo, socket, connect, sendto, resolved, call, is_positive,
  is_zero, is_negative, is_minus_one, sock_dgram,
}
use ironhide.Socket.Held.{delivered, said, connections}
use ironhide.Client.{bytes_of, addresses_of, attempts, close_positive, open_one, connected}
use ironhide.Client.Loop.{
  said-close_positive, connections-close_positive, delivered-close_positive, close_positive-ok,
}
use ironhide.Client.Udp.{send_to, send_and_wait_response}

-- The address that each host and port has.
abbrev pub Book : Type 0
Book = Text → Text → Addrinfo

-- A system that finds the addresses of a book first, and makes, connects and sends on sockets.
pub record Accepts (kernel : Kernel) (book : Book) : Type 0 where
  pub finds :
      (s : Calls) (dst port : Text) (t : ℕ)
      → is_zero (kernel s (getaddrinfo dst port t)).result ≡ true
  pub lists :
      (s : Calls) (dst port : Text) (t : ℕ)
      → (rest : List Addrinfo) × ((kernel s (getaddrinfo dst port t)).addresses
          ≡ book dst port ∷ rest)
  pub makes : (s : Calls) (f t p : ℕ) → is_positive (kernel s (socket f t p)).result ≡ true
  pub connects :
      (s : Calls) (fd : ℤ) (peer : Peer) → is_minus_one (kernel s (connect fd peer)).result ≡ false
  pub sends :
      (s : Calls) (fd : ℤ) (message : List ℕ) (peer : Peer)
      → 0 < length message
      → is_positive (kernel s (sendto fd message peer)).result ≡ true

-- The tests of a result that is positive.
pub positive_tests :
    (x : ℤ) → is_positive x ≡ true → (is_negative x ≡ false) × (is_minus_one x ≡ false)
positive_tests (pos n) h = (refl, refl)
positive_tests (negsuc n) h = absurd (ground arith)

module _ (kernel : Kernel) (book : Book) (accepts : Accepts kernel book) where
  -- The loop ends with the first address.
  attempts-first :
      (bytes : List ℕ) (a : Addrinfo) (rest : List Addrinfo) (s : Calls)
      → 0 < length bytes
      → (fd : ℤ) × (s' : Calls) × (attempts kernel (send_to kernel bytes) (negsuc 0) (a ∷ rest) s
          ≡ (ok (fd, true), s'))
        × (delivered s' ≡ (bytes, resolved a.ai_addr) ∷ delivered s)
        × (said s' ≡ said s)
        × (connections s' ≡ (fd, resolved a.ai_addr) ∷ connections s)
  unfolding attempts close_positive open_one connected send_to call delivered said connections
  attempts-first bytes a rest s some =
      let k = socket a.ai_family a.ai_socktype a.ai_protocol in
      let fd = (kernel s k).result in
      let s1 : Calls = (k, kernel s k) ∷ s in
      let d = connect fd (resolved a.ai_addr) in
      let s2 : Calls = (d, kernel s1 d) ∷ s1 in
      let m = sendto fd bytes (resolved a.ai_addr) in
      let made = accepts.makes s a.ai_family a.ai_socktype a.ai_protocol in
      let connected = accepts.connects s1 fd (resolved a.ai_addr) in
      let sent = accepts.sends s2 fd bytes (resolved a.ai_addr) some in
      (fd, (m, kernel s2 m) ∷ s2, rw (made, connected, sent), rw sent, refl, rw connected)

  -- On a system that finds the addresses of a book, and makes, connects and sends on every
  -- socket, the client returns, and has sent the first `message_len` bytes of its message once, to
  -- the address of its destination. There is at least one byte, and no more than the message has.
  pub delivered-send_and_wait_response :
      (message : List ℕ) (message_len : ℕ) (dst : Text) (port : ℕ) (s : Calls)
      → 0 < message_len
      → message_len ≤ length message
      → let (r, s') = send_and_wait_response kernel message message_len dst port s in
        let peer = resolved (book dst (to_string port)).ai_addr in
        (r ≡ ok tt)
        × (delivered s' ≡ (take message_len message, peer) ∷ delivered s)
        × (said s' ≡ said s)
        × (fd : ℤ) × (connections s' ≡ (fd, peer) ∷ connections s)
  unfolding send_and_wait_response addresses_of call delivered said connections
  delivered-send_and_wait_response message message_len dst port s some long =
      let bytes = take message_len message in
      let c = getaddrinfo dst (to_string port) sock_dgram in
      let found = kernel s c in
      let s1 : Calls = (c, found) ∷ s in
      let (rest, listed) = accepts.lists s dst (to_string port) sock_dgram in
      let read : bytes_of message message_len ≡ ok bytes = ground arith in
      let (fd, s', runs, sent, quiet, joined) =
        attempts-first bytes (book dst (to_string port)) rest s1
          (omega (arith, length-take_le message_len message long)) in
      let loop : attempts kernel (send_to kernel bytes) (negsuc 0) found.addresses s1
          ≡ (ok (fd, true), s') =
        ap (λ l. attempts kernel (send_to kernel bytes) (negsuc 0) l s1) listed ∙ runs in
      rw (accepts.finds s dst (to_string port) sock_dgram, read, loop)
        (
          close_positive-ok kernel fd s',
          delivered-close_positive kernel fd s' ∙ sent,
          said-close_positive kernel fd s' ∙ quiet,
          fd,
          connections-close_positive kernel fd s' ∙ joined,
        )
