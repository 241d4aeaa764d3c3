-- ===== src/Tests/Servers.antt =====
-- Servers at which packets and connections arrive, some receives and accepts fail, and some memory
-- is missing.
use ironhide.Base.{
  ℕ, ◌≡◌, refl, false, true, Bool, List, [], ◌∷◌, length, if◌then◌else◌, ◌==◌, ◌||◌, some,
}
use ironhide.Base.Result.{ok}
use ironhide.Base.Int.{ℤ, pos, negsuc}
use ironhide.Socket.{Kernel, Calls, Call, socket, accept, receive, malloc, no_address}
use ironhide.Ingress.{UdpPktMngmntArgs}
use ironhide.Server.{Object}
use ironhide.Server.Rounds.{Ran}
use ironhide.Server.Udp
use ironhide.Server.Udp.{run_udp, run_udp_lem}
use ironhide.Server.Tcp
use ironhide.Server.Tcp.{run_tcp, run_tcp_lem}

-- The calls are counted, and some of the receives, accepts and requests for memory fail.
abbrev arrived : Calls → ℤ
arrived s = if length s == 9 || length s == 10 then negsuc 0 else pos 4

abbrev given : Calls → Call → ℤ
given s (socket f t p) = pos 3
given s malloc = if length s == 10 then pos 0 else pos 64
given s (receive fd n) = arrived s
given s (accept fd) = arrived s
given s _ = pos 0

abbrev kernel : Kernel
kernel s c = record {
  result = given s c;
  bytes = 1 ∷ 2 ∷ 3 ∷ 4 ∷ [];
  peer = no_address;
  addresses = [];
}

-- The memory of a buffer, of which only the first bytes matter here.
abbrev memory : Calls → List ℕ
memory s = 9 ∷ 9 ∷ 9 ∷ 9 ∷ 9 ∷ []

-- The server is stopped in its fourth round.
abbrev stops : List Bool
stops = false ∷ false ∷ false ∷ true ∷ false ∷ []

abbrev server : Object ℕ
server = record { port = 8787; stopped = true; manager = some 0 }

run_udp_lem_example :
    Ran
      (Udp.arrivals memory)
      Udp.receives
      (pos 3)
      (Udp.needs 8787 (pos 3))
      stops
      []
      (run_udp kernel memory server stops [])
run_udp_lem_example = run_udp_lem kernel memory server stops []

run_tcp_lem_example :
    Ran Tcp.accepted Tcp.no_buffers
      (pos 3)
      (Tcp.needs 8787 (pos 3))
      stops
      []
      (run_tcp kernel server stops [])
run_tcp_lem_example = run_tcp_lem kernel server stops []

abbrev packet : UdpPktMngmntArgs
packet = record {
  socket_fd = pos 3;
  client_address = no_address;
  pkt = 1 ∷ 2 ∷ 3 ∷ 4 ∷ 9 ∷ [];
  pkt_len = 4;
}

-- Of the four rounds of the server of UDP, two hand on a packet.
udp_rounds :
    (run_udp kernel memory server stops []).0
    ≡ ok (record { socket_fd = pos 3; dispatched = packet ∷ packet ∷ []; structs = 2; buffers = 3 })
unfolding run_udp Udp.start_udp Udp.serve
udp_rounds = refl
