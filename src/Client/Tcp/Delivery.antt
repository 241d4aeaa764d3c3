-- ===== src/Client/Tcp/Delivery.antt =====
-- Where the system does what it is asked to, the TCP client is connected to the first address.
use ironhide.Base.{
  ℕ, zero, suc, arith, ◌≡◌, ◌<◌, ◌∙◌, ap, refl, true, false, List, ◌∷◌, length, ◌||◌,
}
use ironhide.Base.Result.{ok}
use ironhide.Base.Int.{ℤ, pos, negsuc}
use ironhide.Base.Text.{Text, to_string}
use ironhide.Wire.{htons}
use ironhide.Socket.{
  Kernel, Calls, Addrinfo, getaddrinfo, socket, connect, inet_pton, send, resolved, call,
  is_positive, is_zero, is_negative, sock_stream, af_inet,
}
use ironhide.Socket.Held.{delivered, said, connections}
use ironhide.Client.{addresses_of, attempts, close_positive, open_one, connected}
use ironhide.Client.Tcp.{ClientTcp, connect_to_server, use_stream}
use ironhide.Client.Udp.Delivery.{Accepts, Book, positive_tests}

-- A system that reads every address in numbers, and sends on connected sockets.
pub record Streams (kernel : Kernel) : Type 0 where
  pub reads : (s : Calls) (dst : Text) → is_positive (kernel s (inet_pton dst)).result ≡ true
  pub sends :
      (s : Calls) (fd : ℤ) (message : List ℕ)
      → 0 < length message
      → is_positive (kernel s (send fd message)).result ≡ true

positive-not-zero : (x : ℤ) → is_positive x ≡ true → (is_negative x || is_zero x) ≡ false
positive-not-zero (pos zero) h = absurd (ground arith)
positive-not-zero (pos (suc n)) h = refl
positive-not-zero (negsuc n) h = absurd (ground arith)

-- The loop ends with the first address.
attempts-stream :
    (kernel : Kernel) (book : Book) (size : ℕ) (a : Addrinfo) (rest : List Addrinfo) (s : Calls)
    → Accepts kernel book
    → (fd : ℤ) × (s' : Calls) × (attempts kernel (use_stream kernel size) (negsuc 0) (a ∷ rest) s
        ≡ (ok (fd, true), s'))
      × (delivered s' ≡ delivered s)
      × (said s' ≡ said s)
      × (connections s' ≡ (fd, resolved a.ai_addr) ∷ connections s)
unfolding attempts close_positive open_one connected call delivered said connections
attempts-stream kernel book size a rest s accepts =
    let k = socket a.ai_family a.ai_socktype a.ai_protocol in
    let fd = (kernel s k).result in
    let s1 : Calls = (k, kernel s k) ∷ s in
    let d = connect fd (resolved a.ai_addr) in
    let made = accepts.makes s a.ai_family a.ai_socktype a.ai_protocol in
    let connected = accepts.connects s1 fd (resolved a.ai_addr) in
    (fd, (d, kernel s1 d) ∷ s1, rw (made, connected), refl, refl, rw connected)

-- The client is connected to the address that the destination has, and nothing has been sent.
pub connections-connect_to_server :
    (kernel : Kernel) (book : Book) (size : ℕ) (dst : Text) (port : ℕ) (s : Calls)
    → Accepts kernel book
    → Streams kernel
    → (client : ClientTcp) × (s' : Calls) × (connect_to_server kernel size dst port s
        ≡ (ok client, s'))
      × (delivered s' ≡ delivered s)
      × (said s' ≡ said s)
      × (connections s'
          ≡ (client.sock, resolved (book dst (to_string port)).ai_addr) ∷ connections s)
unfolding connect_to_server addresses_of call delivered said connections
connections-connect_to_server kernel book size dst port s accepts streams =
    let c1 = socket af_inet sock_stream 0 in
    let s1 : Calls = (c1, kernel s c1) ∷ s in
    let address = kernel s1 (inet_pton dst) in
    let s2 : Calls = (inet_pton dst, address) ∷ s1 in
    let c3 = getaddrinfo dst (to_string port) sock_stream in
    let found = kernel s2 c3 in
    let (rest, listed) = accepts.lists s2 dst (to_string port) sock_stream in
    let a = book dst (to_string port) in
    let (fd, s', runs, silent, quiet, joined) =
      attempts-stream kernel book size a rest ((c3, found) ∷ s2) accepts in
    let loop : attempts kernel (use_stream kernel size) (negsuc 0) found.addresses
          ((c3, found) ∷ s2)
        ≡ (ok (fd, true), s') =
      ap (λ l. attempts kernel (use_stream kernel size) (negsuc 0) l ((c3, found) ∷ s2)) listed
      ∙ runs in
    let client : ClientTcp = record {
      serv_addr = record {
        sin_family = af_inet;
        sin_port = htons port;
        sin_addr = address.peer.sin_addr;
      };
      sock = fd;
    } in
    let made = (positive_tests _ (accepts.makes s af_inet sock_stream 0)).0 in
    let read = positive-not-zero _ (streams.reads s1 dst) in
    let finds = accepts.finds s2 dst (to_string port) sock_stream in
    (client, s', rw (made, read, finds, loop), silent, quiet, joined)
