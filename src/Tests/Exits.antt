-- ===== src/Tests/Exits.antt =====
-- Packets that leave the chain for their servers.
use ironhide.Base.{ℕ, ◌≡◌, refl, arith, [], ◌∷◌, ◌++◌, length-replicate}
use ironhide.Base.Result.{ok}
use ironhide.Base.Int.{ℤ, pos}
use ironhide.Base.Exec.{◌>>◌}
use ironhide.Base.Text.{c_str}
use ironhide.Wire.{htons}
use ironhide.Packet.{Iphdr, Udphdr, encode_iphdr, encode_udphdr, zeros}
use ironhide.Packet.Retrieve.{retrieve_ip_udp_header}
use ironhide.Packet.Forge.Buffers.{cut_at_nul}
use ironhide.Classifier.Chains.{empty-IsSfcMap}
use ironhide.Db.{egress_t}
use ironhide.Entry.{ConnectionEntry}
use ironhide.Hop.{chain_entry}
use ironhide.Ingress.Chain.{conn_type}
use ironhide.Egress.Tasks.{manage_pkt_from_chain_lem}
use ironhide.Endpoint.State.{update_entry, retrieve_connection_2}
use ironhide.Socket.{sendto, inet}
use ironhide.Socket.Held.{held, delivered}
use ironhide.Process.{Process, closes, on_endpoint, sys_, ack}
use ironhide.Egress.{Task, udp_answers, manage_pkt_from_chain, manage_exiting_udp_packets}
use ironhide.Egress.Exchange.{server_of}
use ironhide.Egress.Datagrams.{manage_exiting_udp_packets_lem}
use ironhide.Egress.Steps.{Machine, starts, steps, arrives}
use ironhide.Base.{some}
use ironhide.Base.Text.{to_string, decimal, text_lt, c_str}
use ironhide.StdMap.{find}
use ironhide.StdMap.Laws.{OrdersOn}
use ironhide.Entry.{entry_lt}
use ironhide.Entry.Order.{OrdersOn-entry_lt, SameButPort, SameButPort-asym}
use ironhide.Endpoint.State.{no_address}
use ironhide.Endpoint.Connections.{connection, HasConnections}
use ironhide.Ingress.{UdpPktMngmntArgs, udp_header}
use ironhide.Egress.Steps.{Reached}
use ironhide.Egress.Steps.Sockets.{Arrived, connection-Reached}
use ironhide.Tests.Data as Data
use ironhide.Tests.Data.{ip, ip-IsIphdr, tcp_header, udp_header-IsUdphdr, tcp_header-IsTcphdr, word}
use ironhide.Tests.Endpoints.{service}
use ironhide.Tests.Entering.{kernel, book, fresh}
use ironhide.Tests.Answers.{one_word, first_word, first_word_bound, kernel-Accepts}
use ironhide.Tests.Travellers.{ce, leaves, leaves_length, flh, flh-IsHeader, kernel-Binds}

manage_exiting_udp_packets_lem_example :
    (h' : Iphdr) × (u' : Udphdr) × (sock : ℤ) × (receiver : ℤ) × (sent : Process)
    × (retrieve_ip_udp_header (encode_iphdr h' ++ (encode_udphdr u' ++ cut_at_nul word))
        ≡ ok (h', u'))
    × (h'.saddr ≡ first_word (c_str fresh.endpoint.my_ip))
    × (h'.daddr ≡ first_word (c_str ce.ip_dst))
    × (u'.source ≡ htons fresh.endpoint.ext_port)
    × (u'.dest ≡ htons ce.port_dst)
    × (delivered sent.calls
        ≡ (encode_iphdr h' ++ (encode_udphdr u' ++ cut_at_nul word), inet (server_of flh)) ∷ [])
    × (held sent.calls ≡ receiver ∷ sock ∷ [])
    × (sent.endpoint ≡ fresh.endpoint)
    × (manage_exiting_udp_packets one_word first_word service kernel
          (zeros 4096)
          leaves.pkt
          56
          ce
          closes
          fresh
        ≡ (on_endpoint (update_entry service ce sock (server_of flh) egress_t)
              >> udp_answers one_word first_word service kernel receiver flh closes)
            sent)
unfolding held delivered
manage_exiting_udp_packets_lem_example =
    manage_exiting_udp_packets_lem one_word first_word service kernel book (zeros 4096) leaves.pkt
      word 56 flh ip Data.udp_header ce closes fresh kernel-Accepts kernel-Binds first_word_bound
      refl leaves_length flh-IsHeader ip-IsIphdr refl
      (omega arith, (omega arith, (omega arith, (omega arith, tt)))) (omega arith)
      (omega (arith, length-replicate {A = ℕ} 4096 0))
      (omega (arith, length-replicate {A = ℕ} 4096 0))

-- A machine in which one packet has arrived, and its thread has run.
abbrev idle : Machine
idle = record { process = fresh; waiting = [] }

abbrev entry : ConnectionEntry
entry = chain_entry one_word flh (conn_type 17)

abbrev task : Task
task = record {
  prt = conn_type 17;
  args = record leaves { socket_fd = (retrieve_connection_2 fresh.endpoint entry).0 };
  ce = entry;
}

abbrev acked : Process
acked = (sys_ kernel (sendto leaves.socket_fd ack (inet leaves.client_address)) fresh).1

leaves-task :
    manage_pkt_from_chain one_word first_word service kernel leaves fresh ≡ (ok task, acked)
leaves-task =
    manage_pkt_from_chain_lem one_word first_word service kernel leaves flh ip Data.udp_header word
      fresh refl flh-IsHeader ip-IsIphdr udp_header-IsUdphdr refl

-- An egress with a connection for that entry, at which two packets for it arrive.
abbrev bound : Process
bound = record fresh {
  endpoint = record fresh.endpoint { connection_map = (entry, (pos 6, no_address)) ∷ [] };
}

abbrev bound_task : Task
bound_task = record task { args = record leaves { socket_fd = pos 6 } }

abbrev bound_acked : Process
bound_acked = (sys_ kernel (sendto leaves.socket_fd ack (inet leaves.client_address)) bound).1

bound-task :
    manage_pkt_from_chain one_word first_word service kernel leaves bound
    ≡ (ok bound_task, bound_acked)
unfolding retrieve_connection_2 find entry_lt chain_entry to_string decimal text_lt conn_type
    udp_header c_str
bound-task =
    manage_pkt_from_chain_lem one_word first_word service kernel leaves flh ip Data.udp_header word
      bound refl flh-IsHeader ip-IsIphdr udp_header-IsUdphdr refl

abbrev Entries : ConnectionEntry → Type 0
Entries = SameButPort entry

entries_order : OrdersOn entry_lt Entries
entries_order = OrdersOn-entry_lt Entries (SameButPort-asym entry)

entry-Entries : Entries entry
unfolding chain_entry to_string decimal
entry-Entries = refl

bound_found : connection Entries entries_order bound.endpoint entry ≡ some (pos 6, no_address)
unfolding find entry_lt chain_entry to_string decimal text_lt conn_type udp_header c_str
bound_found = refl

bound_ordered : HasConnections Entries entries_order bound.endpoint
bound_ordered = (entry-Entries, tt, tt)

-- The packet arrives, and its task waits.
abbrev once :
    Reached one_word first_word service kernel
      (record { process = bound; waiting = [] })
      (record { process = bound_acked; waiting = bound_task ∷ [] })
once = steps starts (arrives leaves bound_task bound_acked bound-task)

once-Arrived : Arrived one_word first_word service kernel Entries once
unfolding Arrived
once-Arrived = (entry-Entries, tt)

connection-Reached_example :
    (connection Entries entries_order bound_acked.endpoint entry ≡ some (pos 6, no_address))
    × HasConnections Entries entries_order bound_acked.endpoint
    × ((args : UdpPktMngmntArgs) (t : Task) (s' : Process)
        → manage_pkt_from_chain one_word first_word service kernel args bound_acked ≡ (ok t, s')
        → t.ce ≡ entry
        → t.args.socket_fd ≡ pos 6)
connection-Reached_example =
    connection-Reached one_word first_word service kernel Entries entries_order entry
      (pos 6, no_address) entry-Entries once once-Arrived refl bound_ordered empty-IsSfcMap
      bound_found
