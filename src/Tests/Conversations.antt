-- ===== src/Tests/Conversations.antt =====
-- Connections of clients: one alone, and one that is answered.
use ironhide.Base.{◌≡◌, refl, arith, none, [], ◌∷◌, ◌++◌, false}
use ironhide.Base.Result.{ok}
use ironhide.Db.{tcp}
use ironhide.StdMap.{find}
use ironhide.Entry.{entry_lt}
use ironhide.Base.Text.{text_lt, c_str, to_string, decimal}
use ironhide.Hop.{chain_entry}
use ironhide.Egress.Answers.{asking}
use ironhide.Egress.Resumed.{delivered-resumed}
use ironhide.Db.UrlBuilder.{add_paths, add_path}
use ironhide.Db.Roulette.Client.{get_route_list, curl_req_handle, item_url, transfer}
use ironhide.Db.Roulette.Replies.{found_route}
use ironhide.Base.Int.{ℤ, pos}
use ironhide.Base.Exec.{◌>>=◌}
use ironhide.Packet.{zeros}
use ironhide.Packet.Forge.Buffers.{cut_at_nul}
use ironhide.Sfc.{encode_header}
use ironhide.Classifier.Chains.{empty-IsSfcMap}
use ironhide.Endpoint.State.{no_address, retrieve_connection_2, on_net}
use ironhide.Endpoint.Connections.{connection}
use ironhide.Socket.{Calls, inet, is_minus_one}
use ironhide.Socket.Held.{delivered, said, connections, held, release}
use ironhide.Process.{Process, routes, on_endpoint, closes, receives, ack}
use ironhide.Hop.Delivery.{hop_peer}
use ironhide.Ingress.Chain as Chain
use ironhide.Ingress.Tcp.{tcp_header, receive_loop, end_connection, manage_entering_tcp_packets}
use ironhide.Ingress.Tcp.Sessions.{ends, more}
use ironhide.Ingress.Tcp.Segments.{IsSegment-IsPacket}
use ironhide.Ingress.Tcp.Opening.{forwarding}
use ironhide.Ingress.Tcp.Closing.{delivered-manage_entering_tcp_packets}
use ironhide.Egress.{manage_pkt_from_chain, run_task}
use ironhide.Journey.Streamed.{entry_peer}
use ironhide.Journey.Conversed.{conversed}
use ironhide.Tests.Data.{word}
use ironhide.Tests.Endpoints.{service}
use ironhide.Tests.Entering.{kernel, book, fresh}
use ironhide.Tests.Answers.{
  one_word, first_word, one_word-first_word, kernel-Accepts, route, tcp_ip,
}
use ironhide.Tests.Segments.{
  segment_header, segment_bytes, segment, segment-IsSegment, connects, stream_flh, stream_back,
  stream_leaves, stream_returns, stream_flh-Carries, stream_flh-IsHeader, stream_back-Carries,
  kernel-Streams, stream_ce, Connections, connections_order, stream_ce-Connections, stream_added,
  stream_routed, stream_serves, stream_leaves_length, stream_returns_length, segment_short,
  no_connection, no_socket, other_segment, other_connects, after_first, connecting,
}

delivered-manage_entering_tcp_packets_example :
    let s' =
      (manage_entering_tcp_packets one_word first_word service kernel connects
        (receives 69 segment_bytes (receives 69 segment_bytes closes))
        fresh).1 in
    (delivered s'.calls
      ≡ (encode_header stream_flh ++ segment, hop_peer book route) ∷ delivered fresh.calls)
    × (connection Connections connections_order s'.endpoint stream_ce ≡ none)
delivered-manage_entering_tcp_packets_example =
    delivered-manage_entering_tcp_packets Connections connections_order one_word first_word service
      kernel connects book 69 segment_bytes (receives 69 segment_bytes closes) tcp_ip segment_header
      word route [] fresh kernel-Accepts segment-IsSegment
      (more (IsSegment-IsPacket segment tcp_ip segment_header word segment-IsSegment) ends)
      stream_ce-Connections tt no_connection empty-IsSfcMap stream_added stream_routed

conversed_example :
    let s' = after_first connects segment fresh in
    let e' =
      ((manage_pkt_from_chain one_word first_word service kernel stream_leaves >>= λ task.
      run_task one_word first_word service kernel (zeros 1) task (receives 69 segment_bytes closes))
        fresh).1 in
    let later = after_first other_connects other_segment s' in
    let s'' = (Chain.manage_pkt_from_chain one_word service kernel stream_returns later).1 in
    let ended =
      ((receive_loop one_word first_word service kernel connects closes
            (forwarding (tcp_ip, segment_header))
          >>= end_connection one_word first_word service kernel connects)
        s'').1 in
    (delivered s'.calls
      ≡ (encode_header stream_flh ++ segment, hop_peer book route) ∷ delivered fresh.calls)
    × ((sock : ℤ) × (next : ℤ) × (connections e'.calls
          ≡ (next, hop_peer book route)
            ∷ (sock, entry_peer book stream_ce)
            ∷ connections fresh.calls)
        × (said e'.calls ≡ (sock, cut_at_nul word) ∷ said fresh.calls)
        × (delivered e'.calls
            ≡ (encode_header stream_back ++ segment, hop_peer book route)
              ∷ (ack, inet no_address)
              ∷ delivered fresh.calls))
    × (said s''.calls ≡ (pos 3, word) ∷ said later.calls)
    × (held s''.calls ≡ release (pos 3) (held later.calls))
    × (connection Connections connections_order ended.endpoint stream_ce ≡ none)
conversed_example =
    conversed Connections connections_order one_word first_word service service kernel kernel book
      book connects stream_leaves stream_returns segment tcp_ip tcp_ip segment_header segment_header
      word word (zeros 1) 69 segment_bytes closes route route [] [] stream_flh stream_back fresh
      fresh (after_first other_connects other_segment (after_first connects segment fresh))
      one_word-first_word kernel-Accepts kernel-Accepts kernel-Streams kernel-Streams
      segment-IsSegment (omega arith) segment-IsSegment (omega arith) segment_short
      stream_ce-Connections tt no_connection empty-IsSfcMap empty-IsSfcMap stream_added
      stream_routed stream_flh-Carries refl stream_leaves_length no_socket stream_serves connecting
      stream_back-Carries refl stream_returns_length

-- An egress that has a socket for the connection of `stream_flh`.
abbrev joined : Process
joined = record fresh {
  endpoint = record fresh.endpoint {
    connection_map = (chain_entry one_word stream_flh tcp, (pos 6, no_address)) ∷ [];
  };
}

has_socket :
    is_minus_one (retrieve_connection_2 joined.endpoint (chain_entry one_word stream_flh tcp)).0
    ≡ false
unfolding retrieve_connection_2 find entry_lt chain_entry text_lt tcp_header c_str to_string decimal
has_socket = refl

leads :
    (calls : Calls)
    → (routes service 0 (asking segment (record { endpoint = joined.endpoint; calls = calls }))).0
      ≡ ok (route ∷ [])
unfolding routes on_endpoint on_net get_route_list curl_req_handle item_url add_paths add_path
    transfer found_route
leads calls = refl

delivered-resumed_example :
    let fd = (retrieve_connection_2 joined.endpoint (chain_entry one_word stream_flh tcp)).0 in
    let (r, e') =
      (manage_pkt_from_chain one_word first_word service kernel stream_leaves >>= λ task.
      run_task one_word first_word service kernel (zeros 1) task (receives 69 segment_bytes closes))
        joined in
    (r ≡ ok tt)
    × (next : ℤ) × (delivered e'.calls
        ≡ (encode_header stream_back ++ segment, hop_peer book route)
          ∷ (ack, inet no_address)
          ∷ delivered joined.calls)
    × (said e'.calls ≡ (fd, cut_at_nul word) ∷ said joined.calls)
    × (connections e'.calls ≡ (next, hop_peer book route) ∷ connections joined.calls)
delivered-resumed_example =
    delivered-resumed one_word first_word service kernel book kernel-Accepts kernel-Streams
      stream_leaves stream_flh segment tcp_ip segment_header word (zeros 1) 69 segment_bytes closes
      route [] joined refl stream_leaves_length stream_flh-IsHeader segment-IsSegment (omega arith)
      empty-IsSfcMap (IsSegment-IsPacket segment tcp_ip segment_header word segment-IsSegment)
      segment_short has_socket leads
