-- ===== src/Tests/Clients.antt =====
-- The clients on a system that lists two addresses, of which the second accepts.
use ironhide.Base.{ℕ, ◌≡◌, ◌⊎◌, ap, arith, [], ◌∷◌, length, if◌then◌else◌, ◌==◌, ◌+◌, true, false}
use mathlib.Core.List.{Mem}
use ironhide.Base.Result.{ok, err, exit_failure}
use ironhide.Base.Int.{ℤ, pos, negsuc}
use ironhide.Base.Text.{codes}
use ironhide.Wire.{htons}
use ironhide.Socket.{
  Kernel, Calls, Call, Addrinfo, Peer, socket, connect, sendto, inet_pton, resolved, no_address,
}
use ironhide.Socket.Held.{held, delivered, connections, asked}
use ironhide.Client.Loop.{NoZero, kinds_of}
use ironhide.Client.Udp.{send_and_wait_response}
use ironhide.Client.Udp.Sockets.{send_and_wait_response_lem}
use ironhide.Client.Tcp.{ClientTcp, connect_to_server}
use ironhide.Client.Tcp.Sockets.{connect_to_server_lem}
use ironhide.Tests.Data.{word}

abbrev address_6 : Addrinfo
address_6 = record { ai_family = 10; ai_socktype = 2; ai_protocol = 17; ai_addr = 1 ∷ [] }

abbrev address_4 : Addrinfo
address_4 = record { ai_family = 2; ai_socktype = 2; ai_protocol = 17; ai_addr = 2 ∷ [] }

-- The sockets are numbered by the calls before them, and one of the family AF_INET6 cannot be
-- connected.
abbrev reaches : Peer → ℤ
reaches (resolved (family ∷ bytes)) = if family == 1 then negsuc 0 else pos 0
reaches _ = pos 0

abbrev granted : Calls → Call → ℤ
granted s (socket f t p) = pos (3 + length s)
granted s (connect fd peer) = reaches peer
granted s (sendto fd message peer) = pos (length message)
granted s (inet_pton dst) = pos 1
granted s _ = pos 0

abbrev kernel : Kernel
kernel s c = record {
  result = granted s c;
  bytes = [];
  peer = no_address;
  addresses = address_6 ∷ address_4 ∷ [];
}

abbrev code : ℤ → ℕ
code (pos n) = n
code (negsuc n) = 0

kernel-NoZero : NoZero kernel
kernel-NoZero s f t p h = absurd (omega (arith, ap code h))

send_and_wait_response_lem_example :
    let (r, s') = send_and_wait_response kernel word 4 (codes "vnf") 9000 [] in
    (r ≡ ok tt)
    × (held s' ≡ [])
    × (((delivered s' ≡ []) × (true ≡ true → asked s' ≡ kinds_of (address_6 ∷ address_4 ∷ []) []))
        ⊎ ((a : Addrinfo) × Mem a (address_6 ∷ address_4 ∷ [])
            × (delivered s' ≡ (word, resolved a.ai_addr) ∷ [])))
unfolding held delivered asked
send_and_wait_response_lem_example =
    send_and_wait_response_lem kernel word 4 (codes "vnf") 9000 [] kernel-NoZero (omega arith)

connect_to_server_lem_example :
    let (r, s') = connect_to_server kernel 65536 (codes "10.0.0.2") 80 [] in
    ((client : ClientTcp) × (a : Addrinfo) × (r ≡ ok client)
      × (false ≡ false)
      × (true ≡ true)
      × (true ≡ true)
      × Mem a (address_6 ∷ address_4 ∷ [])
      × (held s' ≡ client.sock ∷ pos 3 ∷ held [])
      × (connections s' ≡ (client.sock, resolved a.ai_addr) ∷ connections [])
      × (client.serv_addr.sin_port ≡ htons 80)
      × (client.serv_addr.sin_addr ≡ 0))
    ⊎ ((r ≡ err exit_failure)
        × (connections s' ≡ connections [])
        × ((false ≡ true)
            ⊎ ((true ≡ false)
                ⊎ ((true ≡ false)
                    ⊎ (asked s' ≡ kinds_of (address_6 ∷ address_4 ∷ []) ((2, 1, 0) ∷ asked []))))))
unfolding asked
connect_to_server_lem_example =
    connect_to_server_lem kernel 65536 (codes "10.0.0.2") 80 [] kernel-NoZero
