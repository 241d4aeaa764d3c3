-- ===== src/Server.antt =====
-- src/server: the servers that wait for packets and connections, and hand each to a thread.
pub mod Opening
pub mod Rounds
pub mod Udp
pub mod Tcp
use ironhide.Base.{ℕ, Bool, true, false, Option, none, some, List, [], ◌∷◌, if◌then◌else◌}
use ironhide.Base.Result.{exit_failure, exit_success}
use ironhide.Base.Int.{ℤ}
use ironhide.Base.Exec.{Exec, pure, raise, ◌>>=◌, ◌>>◌}
use ironhide.Wire.{htons}
use ironhide.Socket.{
  Kernel, Calls, SockaddrIn, Call, signal, socket, setsockopt, bind, call, call_, is_minus_one,
  af_inet,
}

module _ (kernel : Kernel) where
  -- A call for which -1 ends the program.
  unfoldable pub must : Call → Exec Calls ℤ
  unfolding call
  must c = do a ← call kernel c; if is_minus_one a.result then raise exit_failure else pure a.result

  -- setup_sign_catching: SIGPIPE, SIGTERM and SIGINT.
  unfoldable pub setup_sign_catching : Exec Calls (Unit {0})
  unfolding must
  setup_sign_catching = do
    pipe ← must (signal 13)
    term ← must (signal 15)
    int ← must (signal 2)
    pure tt

  -- The socket of a server, bound to its port on every address of the machine.
  unfoldable pub bound_socket : ℕ → ℕ → Exec Calls ℤ
  unfolding must call_
  bound_socket kind port = do
    socket_fd ← must (socket af_inet kind 0)
    call_ kernel (setsockopt socket_fd)
    b ← must (bind socket_fd (record { sin_family = af_inet; sin_port = htons port; sin_addr = 0 }))
    pure socket_fd

-- signal_handler
unfoldable pub signal_handler : {S : Type 0} → ℕ → Exec S (Unit {0})
signal_handler signal_number = raise exit_success

-- The members of class Server; a manager is what is done with the arguments of a packet.
pub record Object (Manager : Type 0) : Type 0 where
  pub port : ℕ
  pub stopped : Bool
  pub manager : Option Manager

module _ {Manager : Type 0} where
  -- Server(port), with what the memory of `stopped_` holds, which the constructor does not set
  unfoldable pub new_server : Bool → ℕ → Object Manager
  new_server garbage port = record { port = port; stopped = garbage; manager = none }

  -- set_pkt_manager
  unfoldable pub set_pkt_manager : Manager → Object Manager → Object Manager
  set_pkt_manager manager s = record s { manager = some manager }

  -- stop
  unfoldable pub stop : Object Manager → Object Manager
  stop s = record s { stopped = true }

  -- The start of run, which forgets an earlier stop.
  unfoldable pub reset : Object Manager → Object Manager
  reset s = record s { stopped = false }

-- A server in its loop: the arguments handed to threads, the first of them first; and how many
-- argument structures and packet buffers are allocated.
pub record Server (Args : Type 0) : Type 0 where
  pub socket_fd : ℤ
  pub dispatched : List Args
  pub structs : ℕ
  pub buffers : ℕ

-- The state in which a loop starts.
abbrev pub new_loop : {Args : Type 0} → ℤ → Server Args
new_loop socket_fd = record { socket_fd = socket_fd; dispatched = []; structs = 0; buffers = 0 }

-- `while (!stopped_)`, from a value of `stopped_`, with its value after each of the rounds that a run
-- is followed for.
unfoldable pub loop :
    {State : Type 0} → (State → Exec Calls State) → Bool → List Bool → State → Exec Calls State
loop serve true stops s = pure s
loop serve false [] s = pure s
loop serve false (stopped ∷ stops) s = serve s >>= loop serve stopped stops
