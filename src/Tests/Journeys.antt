-- ===== src/Tests/Journeys.antt =====
-- A packet of a client that goes to its server, and the answer that comes back.
use ironhide.Base.{ℕ, ◌≡◌, refl, arith, some, [], ◌∷◌, ◌++◌, length-replicate}
use ironhide.Base.Result.{ok}
use ironhide.Base.Int.{pos, negsuc}
use ironhide.Base.Exec.{◌>>=◌}
use ironhide.Base.Text.{c_str}
use ironhide.Endpoint.Connections.{connection, HasConnections}
use ironhide.Wire.{htons}
use ironhide.Packet.{zeros, Iphdr, Udphdr, encode_iphdr, encode_udphdr}
use ironhide.Packet.Retrieve.{retrieve_ip_udp_header}
use ironhide.Packet.Forge.Buffers.{cut_at_nul}
use ironhide.Sfc.{encode_header}
use ironhide.Classifier.Chains.{IsSfcMap, empty-IsSfcMap}
use ironhide.Endpoint.State.{no_address, retrieve_connection_2}
use ironhide.Socket.{inet}
use ironhide.Socket.Held.{delivered}
use ironhide.Hop.Delivery.{hop_peer}
use ironhide.Process.{Process, closes, receives, ack}
use ironhide.Ingress.{manage_entering_udp_packets}
use ironhide.Ingress.Chain as Chain
use ironhide.Egress.{manage_pkt_from_chain, run_task}
use ironhide.Egress.Exchange.{server_of}
use ironhide.Journey.Others.Datagrams.{connection-entering}
use ironhide.Journey.Others.{connection-Others}
use ironhide.Journey.Answered.{answered}
use ironhide.Tests.Data as Data
use ironhide.Tests.Data.{ip, ip-IsIphdr, udp_header-IsUdphdr, word}
use ironhide.Tests.Endpoints.{service}
use ironhide.Tests.Entering.{kernel, book, fresh}
use ironhide.Tests.Answers.{
  one_word, first_word, one_word-first_word, first_word_bound, kernel-Accepts, route,
}
use ironhide.Tests.Travellers.{
  udp_bytes, reply_bytes, client, enters, flh, back, leaves, returns, flh-Carries, back-Carries,
  udp_bytes-IsDatagram, reply-IsDatagram, kernel-Binds, ce, Packets, packets_order, ce-Packets,
  added, routed, serves, leaves_length, returns_length, enters_length, reply_short, no_client,
  other_enters, meanwhile,
}

answered_example :
    let s' = (manage_entering_udp_packets one_word first_word service kernel enters fresh).1 in
    let e' =
      ((manage_pkt_from_chain one_word first_word service kernel leaves >>= λ task.
      run_task one_word first_word service kernel
        (zeros 4096)
        task
        (receives 69 reply_bytes closes))
        fresh).1 in
    let later =
      (manage_entering_udp_packets one_word first_word service kernel other_enters s').1 in
    let s'' = (Chain.manage_pkt_from_chain one_word service kernel returns later).1 in
    (delivered s'.calls
      ≡ (encode_header flh ++ udp_bytes, hop_peer book route) ∷ delivered fresh.calls)
    × ((h' : Iphdr) × (u' : Udphdr) × (retrieve_ip_udp_header
            (encode_iphdr h' ++ (encode_udphdr u' ++ cut_at_nul word))
          ≡ ok (h', u'))
        × (h'.saddr ≡ first_word (c_str fresh.endpoint.my_ip))
        × (h'.daddr ≡ first_word (c_str (one_word ip.daddr)))
        × (u'.source ≡ htons fresh.endpoint.ext_port)
        × (u'.dest ≡ 13568)
        × (delivered e'.calls
            ≡ (encode_header back ++ (69 ∷ reply_bytes), hop_peer book route)
              ∷ (encode_iphdr h' ++ (encode_udphdr u' ++ cut_at_nul word), inet (server_of flh))
              ∷ (ack, inet no_address)
              ∷ delivered fresh.calls))
    × (delivered s''.calls ≡ (word, inet client) ∷ (ack, inet no_address) ∷ delivered later.calls)
    × (retrieve_connection_2 s''.endpoint ce ≡ (negsuc 0, no_address))
answered_example =
    answered Packets packets_order one_word first_word service service kernel kernel book book
      enters leaves returns ip ip Data.udp_header Data.udp_header word word (zeros 4096) 69
      reply_bytes closes route route [] [] flh back fresh fresh
      (manage_entering_udp_packets one_word first_word service kernel other_enters
        (manage_entering_udp_packets one_word first_word service kernel enters fresh).1).1
      one_word-first_word first_word_bound kernel-Accepts kernel-Accepts kernel-Binds
      udp_bytes-IsDatagram enters_length
      (omega arith, (omega arith, (omega arith, (omega arith, tt)))) (omega arith)
      (omega (arith, length-replicate {A = ℕ} 4096 0))
      (omega (arith, length-replicate {A = ℕ} 4096 0)) reply-IsDatagram (omega arith) reply_short
      ce-Packets tt no_client empty-IsSfcMap empty-IsSfcMap added routed flh-Carries refl
      leaves_length serves meanwhile back-Carries refl returns_length

abbrev entered : Process
entered = (manage_entering_udp_packets one_word first_word service kernel enters fresh).1

entered-known :
    (connection Packets packets_order entered.endpoint ce ≡ some (pos 3, client))
    × HasConnections Packets packets_order entered.endpoint
    × IsSfcMap entered.endpoint.sfc_map
entered-known =
    connection-entering Packets packets_order one_word first_word service kernel ce enters ip
      Data.udp_header word fresh refl ce-Packets udp_bytes-IsDatagram enters_length tt
      empty-IsSfcMap no_client

connection-Others_example :
    let later =
      (manage_entering_udp_packets one_word first_word service kernel other_enters entered).1 in
    (connection Packets packets_order later.endpoint ce ≡ some (pos 3, client))
    × HasConnections Packets packets_order later.endpoint
    × IsSfcMap later.endpoint.sfc_map
connection-Others_example =
    connection-Others Packets packets_order one_word first_word service kernel ce (pos 3, client)
      entered
      (manage_entering_udp_packets one_word first_word service kernel other_enters entered).1
      ce-Packets entered-known.1 entered-known.2 entered-known.0 meanwhile
