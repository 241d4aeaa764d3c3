-- ===== src/Tests/Entering.antt =====
-- A UDP packet that enters, and the answer to it.
use ironhide.Base.{ap, true, length, ◌⊎◌, ◌+◌, false, ℕ, ◌≡◌, refl, arith, List, [], ◌∷◌, ◌++◌}
use mathlib.Core.List.{Mem}
use ironhide.Base.Result.{ok}
use ironhide.Base.Text.{Text, codes, c_str, to_string}
use ironhide.Base.Int.{ℤ, pos, negsuc}
use ironhide.StdMap.Laws.{OrdersOn, or_else}
use ironhide.Packet.{encode_iphdr, encode_udphdr}
use ironhide.Entry.{ConnectionEntry, entry_lt}
use ironhide.Entry.Order.{OrdersOn-entry_lt, SameButPort, SameButPort-asym}
use ironhide.Classifier.Chains.{empty-IsSfcMap}
use ironhide.Db.{udp}
use ironhide.Endpoint.State.{no_address, retrieve_connection_2}
use ironhide.Endpoint.Connections.{connection, HasConnections}
use ironhide.Ingress as Handler
use ironhide.Ingress.{UdpPktMngmntArgs, packet_entry, manage_entering_udp_packets}
use ironhide.Process.{Process}
use ironhide.Hop.{chain_entry, forward}
use ironhide.Socket.{Kernel, Call, Addrinfo, socket, send, sendto, inet_pton, getaddrinfo, resolved}
use ironhide.Wire.{u16}
use ironhide.Socket.Held.{held, delivered, asked}
use ironhide.Client.Loop.{NoZero, kinds_of}
use ironhide.Ingress.Clients.{retrieve-manage_entering_udp_packets}
use ironhide.Db.Address.{Address}
use ironhide.Sfc.{retrieve_header, retrieve_payload}
use ironhide.Ingress.Messages.{retrieve-forward}
use ironhide.Tests.Data.{address_by_length, ip, ip-IsIphdr, udp_header, udp_header-IsUdphdr, word}
use ironhide.Tests.Endpoints.{service, endpoint}

-- Functions in the place of inet_ntoa and inet_addr.
abbrev pub one_code : ℕ → Text
one_code x = x ∷ []

abbrev first_code : Text → ℕ
first_code [] = 0
first_code (x ∷ t) = x

one_code-first_code : (x : ℕ) → one_code (first_code (c_str (one_code x))) ≡ one_code x
unfolding c_str
one_code-first_code x = ground arith

-- A system with one socket, on which whatever is asked for succeeds.
abbrev granted : Call → ℤ
granted (socket f t p) = pos 4
granted (inet_pton dst) = pos 1
granted (send fd message) = pos (length message)
granted (sendto fd message peer) = pos (length message)
granted _ = pos 0

-- Each host has the bytes of its name as its address.
abbrev pub book : Text → Text → Addrinfo
book dst port = record { ai_family = 2; ai_socktype = 2; ai_protocol = 17; ai_addr = dst }

abbrev listed : Call → List Addrinfo
listed (getaddrinfo dst port t) = book dst port ∷ []
listed _ = []

abbrev pub kernel : Kernel
kernel s c = record { result = granted c; bytes = []; peer = no_address; addresses = listed c }

abbrev code : ℤ → ℕ
code (pos n) = n
code (negsuc n) = 0

kernel-NoZero : NoZero kernel
kernel-NoZero s f t p h = absurd (omega (arith, ap code h))

abbrev args : UdpPktMngmntArgs
args = record {
  socket_fd = pos 3;
  client_address = no_address;
  pkt = encode_iphdr ip ++ (encode_udphdr udp_header ++ word);
  pkt_len = 32;
}

abbrev pub hop : Address
hop = record { address = codes "vnf"; port = 9000; has_http_prefix = false }

abbrev packet : ConnectionEntry
packet = packet_entry one_code (ip, udp_header) (codes "0") udp

abbrev Packets : ConnectionEntry → Type 0
Packets = SameButPort packet

packets_order : OrdersOn entry_lt Packets
packets_order = OrdersOn-entry_lt Packets (SameButPort-asym packet)

abbrev pub fresh : Process
fresh = record { endpoint = record endpoint { connection_map = [] }; calls = [] }

packet-Packets : Packets packet
unfolding packet_entry
packet-Packets = refl

retrieve-manage_entering_udp_packets_example :
    let s' = (manage_entering_udp_packets one_code first_code service kernel args fresh).1 in
    (retrieve_connection_2 s'.endpoint
        (chain_entry one_code (Handler.udp_header one_code first_code (ip, udp_header) 0 []) udp)
      ≡ or_else (connection Packets packets_order fresh.endpoint packet) (pos 3, no_address))
    × HasConnections Packets packets_order s'.endpoint
retrieve-manage_entering_udp_packets_example =
    retrieve-manage_entering_udp_packets Packets packets_order one_code first_code service kernel
      args ip udp_header word [] fresh one_code-first_code refl ip-IsIphdr udp_header-IsUdphdr refl
      refl (omega arith) empty-IsSfcMap packet-Packets tt

retrieve-forward_example :
    let flh = Handler.udp_header one_code address_by_length (ip, udp_header) 0 in
    let (r, s') = forward kernel args.pkt (length args.pkt) flh (hop ∷ []) fresh in
    (r ≡ ok true)
    × (s'.endpoint ≡ fresh.endpoint)
    × (held s'.calls ≡ held fresh.calls)
    × (out : List ℕ) × (retrieve_header out ≡ ok (flh (hop ∷ [])))
    × (retrieve_payload out (length args.pkt + 24) ≡ ok args.pkt)
    × (((delivered s'.calls ≡ delivered fresh.calls)
          × (true ≡ true
              → asked s'.calls
                ≡ kinds_of
                    (book (c_str hop.address) (to_string (u16 9000)) ∷ [])
                    (asked fresh.calls)))
        ⊎ ((a : Addrinfo) × Mem a (book (c_str hop.address) (to_string (u16 9000)) ∷ [])
            × (delivered s'.calls ≡ (out, resolved a.ai_addr) ∷ delivered fresh.calls)))
retrieve-forward_example =
    retrieve-forward one_code address_by_length kernel args.pkt (ip, udp_header) 0 hop [] fresh
      kernel-NoZero (λ t. omega arith) (omega arith) (omega arith)
