-- ===== src/Tests/Segments.antt =====
-- A client's TCP packet and the answer to it, with what the services and the systems say of them.
use ironhide.Base.{◌≡◌, ◌<◌, refl, arith, none, ℕ, List, [], ◌∷◌, ◌++◌, length, drop}
use ironhide.Base.Result.{ok}
use ironhide.Base.Int.{pos, negsuc}
use ironhide.Base.Text.{codes, c_str, to_string, decimal}
use ironhide.Base.Exec.{◌>>◌}
use ironhide.StdMap.{find}
use ironhide.StdMap.Laws.{OrdersOn}
use ironhide.Endpoint.Connections.{connection}
use ironhide.Packet.{Tcphdr, IsTcphdr, encode_iphdr, encode_tcphdr}
use ironhide.Sfc.{IsHeader, SfcHeader, encode_header}
use ironhide.Entry.{ConnectionEntry, entry_lt}
use ironhide.Entry.Order.{OrdersOn-entry_lt, SameButPort, SameButPort-asym}
use ironhide.Db.Roulette.Client.{
  create_entry, update_endpoint, get_route_list, curl_req_handle, item_url, path_url, transfer,
}
use ironhide.Db.Roulette.Replies.{found_route, handle_req, id_of}
use ironhide.Db.Query.{to_url}
use ironhide.Db.Query.Builder.{
  builder, set_id_sfc, set_ip_src, set_ip_dst, set_port_src, set_port_dst, set_protocol,
  set_endpoint_type, build_query,
}
use ironhide.Db.UrlBuilder.{add_paths, add_path}
use ironhide.Endpoint.State.{
  no_address, on_net, remember, add_entry, update_query, update_entry, retrieve_connection_2,
}
use ironhide.Client.Tcp.Delivery.{Streams}
use ironhide.Process.{Process, on_endpoint, routes, receive_one, buffer_size}
use ironhide.Hop.Messages.{hop_header-IsHeader}
use ironhide.Ingress.{UdpPktMngmntArgs}
use ironhide.Ingress.Tcp.{TcpPktMngmntArgs, connection_entry, tcp_header, new_locals, manage_packet}
use ironhide.Ingress.Tcp.Segments.{IsSegment}
use ironhide.Ingress.Tcp.Opening.{adding}
use ironhide.Egress.{answer_header}
use ironhide.Egress.Answers.{answer_header-IsHeader}
use ironhide.Egress.Streams.{ServesStream}
use ironhide.Journey.{Carries}
use ironhide.Journey.Others.Packets.{Opens-IsSegment}
use ironhide.Journey.Others.{Others, waits, handles}
use ironhide.Tests.Data as Data
use ironhide.Tests.Data.{word}
use ironhide.Tests.Endpoints.{service}
use ironhide.Tests.Entering.{kernel, fresh}
use ironhide.Tests.Answers.{one_word, first_word, first_word_bound, route, tcp_ip, tcp_ip-IsIphdr}
use ironhide.Tests.Travellers.{client}

abbrev pub segment_header : Tcphdr
segment_header = record Data.tcp_header { doff = 5 }

pub segment_header-IsTcphdr : IsTcphdr segment_header
segment_header-IsTcphdr = omega arith

abbrev pub segment_bytes : List ℕ
segment_bytes = drop 1 (encode_iphdr tcp_ip ++ (encode_tcphdr segment_header ++ word))

abbrev pub segment : List ℕ
segment = 69 ∷ segment_bytes

pub segment-IsSegment : IsSegment segment tcp_ip segment_header word
unfolding encode_iphdr
segment-IsSegment = record {
  shape = refl;
  ip = tcp_ip-IsIphdr;
  tcp = segment_header-IsTcphdr;
  five = refl;
  words = refl;
  six = refl;
}

abbrev pub connects : TcpPktMngmntArgs
connects = record { new_socket_fd = pos 3; client_address = client }

abbrev pub stream_flh : SfcHeader
stream_flh = tcp_header one_word first_word (tcp_ip, segment_header) 0 (route ∷ [])

abbrev pub stream_back : SfcHeader
stream_back = answer_header one_word first_word stream_flh 0 (route ∷ [])

abbrev pub stream_leaves : UdpPktMngmntArgs
stream_leaves = record {
  socket_fd = pos 5;
  client_address = no_address;
  pkt = encode_header stream_flh ++ segment;
  pkt_len = 68;
}

abbrev pub stream_returns : UdpPktMngmntArgs
stream_returns = record stream_leaves { pkt = encode_header stream_back ++ segment }

pub stream_flh-IsHeader : IsHeader stream_flh
unfolding tcp_header
stream_flh-IsHeader =
    hop_header-IsHeader first_word 0 (c_str (one_word tcp_ip.saddr)) segment_header.source
      (c_str (one_word tcp_ip.daddr)) segment_header.dest 0 (route ∷ []) first_word_bound
      (omega arith) (omega arith)

pub stream_flh-Carries : Carries stream_flh stream_flh
stream_flh-Carries = record {
  header = stream_flh-IsHeader;
  p_id = refl;
  source_address = refl;
  destination_address = refl;
  source_port = refl;
  destination_port = refl;
}

pub stream_back-Carries : Carries stream_back stream_back
stream_back-Carries = record {
  header =
      answer_header-IsHeader one_word first_word stream_flh (route ∷ []) first_word_bound
        stream_flh-IsHeader;
  p_id = refl;
  source_address = refl;
  destination_address = refl;
  source_port = refl;
  destination_port = refl;
}

pub kernel-Streams : Streams kernel
kernel-Streams = record { reads = λ s dst. refl; sends = λ s fd message filled. ground arith }

abbrev pub stream_ce : ConnectionEntry
stream_ce = connection_entry one_word (tcp_ip, segment_header) (codes "0")

abbrev pub Connections : ConnectionEntry → Type 0
Connections = SameButPort stream_ce

pub connections_order : OrdersOn entry_lt Connections
connections_order = OrdersOn-entry_lt Connections (SameButPort-asym stream_ce)

pub stream_ce-Connections : Connections stream_ce
unfolding connection_entry
stream_ce-Connections = refl

pub stream_added :
    (adding one_word first_word service kernel connects (tcp_ip, segment_header) segment fresh).0
    ≡ ok tt
unfolding on_endpoint add_entry on_net create_entry curl_req_handle transfer path_url add_paths
    add_path id_of remember
stream_added = refl

pub stream_routed :
    (routes service 0
      (adding one_word first_word service kernel connects
        (tcp_ip, segment_header)
        segment
        fresh).1).0
    ≡ ok (route ∷ [])
unfolding routes on_endpoint on_net get_route_list curl_req_handle item_url add_paths add_path
    transfer found_route add_entry create_entry
stream_routed = refl

pub stream_serves : ServesStream service stream_ce segment route [] fresh.endpoint
unfolding routes on_endpoint on_net get_route_list curl_req_handle item_url add_paths add_path
    transfer found_route update_entry update_endpoint path_url handle_req to_url update_query
    build_query set_protocol set_port_dst set_port_src set_ip_dst set_ip_src set_id_sfc
    set_endpoint_type builder connection_entry to_string decimal
stream_serves = record { updates = λ c. refl; leads = λ c calls. refl }

pub stream_leaves_length : 68 ≡ length stream_leaves.pkt
unfolding encode_header encode_iphdr encode_tcphdr
stream_leaves_length = refl

pub stream_returns_length : 68 ≡ length stream_returns.pkt
unfolding encode_header encode_iphdr encode_tcphdr
stream_returns_length = refl

pub segment_short : length segment < buffer_size
unfolding encode_iphdr encode_tcphdr
segment_short = omega arith

pub no_connection : connection Connections connections_order fresh.endpoint stream_ce ≡ none
unfolding find
no_connection = refl

pub no_socket : (retrieve_connection_2 fresh.endpoint stream_ce).0 ≡ negsuc 0
unfolding retrieve_connection_2 find
no_socket = refl

-- Another client, with another port, which connects meanwhile.
abbrev pub other_segment_header : Tcphdr
other_segment_header = record segment_header { source = 36896 }

pub other_segment_header-IsTcphdr : IsTcphdr other_segment_header
other_segment_header-IsTcphdr = omega arith

abbrev pub other_segment : List ℕ
other_segment = encode_iphdr tcp_ip ++ (encode_tcphdr other_segment_header ++ word)

abbrev pub other_connects : TcpPktMngmntArgs
other_connects = record { new_socket_fd = pos 7; client_address = no_address }

pub other_segment-IsSegment : IsSegment other_segment tcp_ip other_segment_header word
other_segment-IsSegment = record {
  shape = refl;
  ip = tcp_ip-IsIphdr;
  tcp = other_segment_header-IsTcphdr;
  five = refl;
  words = refl;
  six = refl;
}

pub other-Connections :
    Connections (connection_entry one_word (tcp_ip, other_segment_header) (codes "0"))
unfolding connection_entry
other-Connections = refl

-- What the thread of a connection does for its first packet.
abbrev pub after_first : TcpPktMngmntArgs → List ℕ → Process → Process
after_first args pkt s =
    ((receive_one args.new_socket_fd (pos (length pkt)) pkt
        >> manage_packet one_word first_word service kernel args pkt new_locals)
      s).1

pub connecting :
    Others Connections connections_order one_word first_word service kernel stream_ce
      (after_first connects segment fresh)
      (after_first other_connects other_segment (after_first connects segment fresh))
connecting = handles other_connects other_segment new_locals waits (
    Opens-IsSegment Connections one_word other_segment tcp_ip other_segment_header word
      other_segment-IsSegment other-Connections)
