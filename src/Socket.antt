-- ===== src/Socket.antt =====
-- The calls of the operating system that the clients, the servers and the endpoints make, and the
-- sockets that a process holds open.
pub mod Held
use ironhide.Base.{ℕ, zero, suc, Bool, true, false, List, [], ◌∷◌, if◌then◌else◌, ◌==◌}
use ironhide.Base.Result.{ok}
use ironhide.Base.Int.{ℤ, pos, negsuc}
use ironhide.Base.Exec.{Exec}
use ironhide.Base.Text.{Text}

-- sockaddr_in
pub record SockaddrIn : Type 0 where
  pub sin_family : ℕ
  pub sin_port : ℕ
  pub sin_addr : ℕ

-- sockaddr_in()
abbrev pub no_address : SockaddrIn
no_address = record { sin_family = 0; sin_port = 0; sin_addr = 0 }

-- addrinfo, its address as bytes
pub record Addrinfo : Type 0 where
  pub ai_family : ℕ
  pub ai_socktype : ℕ
  pub ai_protocol : ℕ
  pub ai_addr : List ℕ

-- An address that a call is given.
pub data Peer : Type 0 where
  resolved : List ℕ → Peer
  inet : SockaddrIn → Peer

-- A call with its arguments; `receive` is recv, read or recvfrom.
pub data Call : Type 0 where
  getaddrinfo : Text → Text → ℕ → Call
  inet_pton : Text → Call
  socket : ℕ → ℕ → ℕ → Call
  setsockopt : ℤ → Call
  bind : ℤ → SockaddrIn → Call
  listen : ℤ → ℕ → Call
  accept : ℤ → Call
  connect : ℤ → Peer → Call
  send : ℤ → List ℕ → Call
  sendto : ℤ → List ℕ → Peer → Call
  receive : ℤ → ℕ → Call
  shutdown : ℤ → Call
  close : ℤ → Call
  signal : ℕ → Call
  malloc : Call

-- What a call gives back: its result, the bytes and the address that it stores, and the addresses
-- that getaddrinfo lists.
pub record Answer : Type 0 where
  pub result : ℤ
  pub bytes : List ℕ
  pub peer : SockaddrIn
  pub addresses : List Addrinfo

-- The calls of a process with their answers, the latest first.
abbrev pub Calls : Type 0
Calls = List (Call × Answer)

-- The system answers a call by all that was called before.
abbrev pub Kernel : Type 0
Kernel = Calls → Call → Answer

abbrev pub is_negative : ℤ → Bool
is_negative (pos n) = false
is_negative (negsuc n) = true

abbrev pub is_positive : ℤ → Bool
is_positive (pos zero) = false
is_positive (pos (suc n)) = true
is_positive (negsuc n) = false

abbrev pub is_zero : ℤ → Bool
is_zero (pos zero) = true
is_zero _ = false

-- `x == -1`
abbrev pub is_minus_one : ℤ → Bool
is_minus_one (pos n) = false
is_minus_one (negsuc n) = n == 0

-- The constants of <sys/socket.h> and <netinet/in.h> that the program names.
abbrev pub af_unspec : ℕ
af_unspec = 0

abbrev pub af_inet : ℕ
af_inet = 2

abbrev pub sock_stream : ℕ
sock_stream = 1

abbrev pub sock_dgram : ℕ
sock_dgram = 2

abbrev pub sock_raw : ℕ
sock_raw = 3

abbrev pub ipproto_udp : ℕ
ipproto_udp = 17

abbrev pub ipproto_raw : ℕ
ipproto_raw = 255

-- One call.
unfoldable pub call : Kernel → Call → Exec Calls Answer
call kernel c s = let a = kernel s c in (ok a, (c, a) ∷ s)

-- A call whose result the program does not look at.
unfoldable pub call_ : Kernel → Call → Exec Calls (Unit {0})
call_ kernel c s = (ok tt, (c, kernel s c) ∷ s)
