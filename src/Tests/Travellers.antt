-- ===== src/Tests/Travellers.antt =====
-- A client's packet and the answer to it, with what the services and the systems say of them.
use ironhide.Base.{drop, ◌<◌, ℕ, ◌≡◌, refl, arith, none, List, [], ◌∷◌, ◌++◌, length}
use ironhide.Base.Result.{ok}
use ironhide.Base.Int.{pos}
use ironhide.Base.Text.{codes, to_string, decimal}
use ironhide.StdMap.{find}
use ironhide.StdMap.Laws.{OrdersOn}
use ironhide.Endpoint.Connections.{connection}
use ironhide.Packet.{Udphdr, IsUdphdr, encode_iphdr, encode_udphdr}
use ironhide.Sfc.{IsHeader, SfcHeader, encode_header}
use ironhide.Entry.{ConnectionEntry, entry_lt}
use ironhide.Entry.Order.{OrdersOn-entry_lt, SameButPort, SameButPort-asym}
use ironhide.Db.{udp, ingress_t}
use ironhide.Db.Roulette.Client.{
  create_entry, update_endpoint, get_route_list, curl_req_handle, item_url, path_url, transfer,
}
use ironhide.Db.Roulette.Replies.{found_route, handle_req, id_of}
use ironhide.Db.Query.{to_url}
use ironhide.Db.Query.Builder.{
  builder, set_id_sfc, set_ip_src, set_ip_dst, set_port_src, set_port_dst, set_protocol,
  set_endpoint_type, build_query,
}
use ironhide.Db.UrlBuilder.{add_paths, add_path}
use ironhide.Endpoint.State.{no_address, on_net, remember, add_entry, update_query, update_entry}
use ironhide.Socket.{SockaddrIn}
use ironhide.Process.{on_endpoint, routes, buffer_size}
use ironhide.Ingress.{UdpPktMngmntArgs, packet_entry, udp_header, manage_entering_udp_packets}
use ironhide.Ingress.Delivery.{known, told}
use ironhide.Ingress.Messages.{udp_header-IsHeader}
use ironhide.Egress.{answer_header}
use ironhide.Egress.Answers.{answer_header-IsHeader}
use ironhide.Egress.Exchange.{Serves}
use ironhide.Egress.Leaving.{Binds}
use ironhide.Journey.{Carries, IsDatagram}
use ironhide.Journey.Others.Packets.{Enters-IsDatagram}
use ironhide.Journey.Others.{Others, waits}
use ironhide.Tests.Data as Data
use ironhide.Tests.Data.{ip, ip-IsIphdr, udp_header-IsUdphdr, word}
use ironhide.Tests.Endpoints.{service}
use ironhide.Tests.Entering.{kernel, fresh}
use ironhide.Tests.Answers.{one_word, first_word, first_word_bound, route}

abbrev pub udp_bytes : List ℕ
udp_bytes = encode_iphdr ip ++ (encode_udphdr Data.udp_header ++ word)

abbrev pub reply_bytes : List ℕ
reply_bytes = drop 1 udp_bytes

abbrev pub client : SockaddrIn
client = record { sin_family = 2; sin_port = 40000; sin_addr = 16777226 }

abbrev pub enters : UdpPktMngmntArgs
enters = record { socket_fd = pos 3; client_address = client; pkt = udp_bytes; pkt_len = 32 }

abbrev pub flh : SfcHeader
flh = udp_header one_word first_word (ip, Data.udp_header) 0 (route ∷ [])

abbrev pub back : SfcHeader
back = answer_header one_word first_word flh 0 (route ∷ [])

abbrev pub leaves : UdpPktMngmntArgs
leaves = record {
  socket_fd = pos 5;
  client_address = no_address;
  pkt = encode_header flh ++ udp_bytes;
  pkt_len = 56;
}

abbrev pub returns : UdpPktMngmntArgs
returns = record leaves { pkt = encode_header back ++ (69 ∷ reply_bytes) }

pub flh-IsHeader : IsHeader flh
flh-IsHeader =
    udp_header-IsHeader one_word first_word (ip, Data.udp_header) 0 (route ∷ []) first_word_bound
      (omega arith) (omega arith)

pub flh-Carries : Carries flh flh
flh-Carries = record {
  header = flh-IsHeader;
  p_id = refl;
  source_address = refl;
  destination_address = refl;
  source_port = refl;
  destination_port = refl;
}

pub back-Carries : Carries back back
back-Carries = record {
  header =
      answer_header-IsHeader one_word first_word flh (route ∷ []) first_word_bound flh-IsHeader;
  p_id = refl;
  source_address = refl;
  destination_address = refl;
  source_port = refl;
  destination_port = refl;
}

pub udp_bytes-IsDatagram : IsDatagram udp_bytes ip Data.udp_header word
udp_bytes-IsDatagram = record {
  shape = refl;
  ip = ip-IsIphdr;
  udp = udp_header-IsUdphdr;
  five = refl;
  seventeen = refl;
}

pub reply-IsDatagram : IsDatagram (69 ∷ reply_bytes) ip Data.udp_header word
unfolding encode_iphdr
reply-IsDatagram = record {
  shape = refl;
  ip = ip-IsIphdr;
  udp = udp_header-IsUdphdr;
  five = refl;
  seventeen = refl;
}

pub kernel-Binds : Binds kernel
kernel-Binds = record { binds = λ s fd address. refl }

abbrev pub ce : ConnectionEntry
ce = packet_entry one_word (ip, Data.udp_header) (codes "0") udp

abbrev pub Packets : ConnectionEntry → Type 0
Packets = SameButPort ce

pub packets_order : OrdersOn entry_lt Packets
packets_order = OrdersOn-entry_lt Packets (SameButPort-asym ce)

pub ce-Packets : Packets ce
unfolding packet_entry
ce-Packets = refl

pub added :
    (on_endpoint
      (add_entry service ce enters.socket_fd enters.client_address ingress_t udp)
      (known enters fresh)).0
    ≡ ok tt
unfolding on_endpoint add_entry on_net create_entry curl_req_handle transfer path_url add_paths
    add_path id_of remember
added = refl

pub routed :
    (routes service 0
      (told one_word first_word service kernel enters (ip, Data.udp_header) fresh)).0
    ≡ ok (route ∷ [])
unfolding routes on_endpoint on_net get_route_list curl_req_handle item_url add_paths add_path
    transfer found_route add_entry create_entry
routed = refl

pub serves : Serves service ce flh (69 ∷ reply_bytes) route [] fresh.endpoint
unfolding routes on_endpoint on_net get_route_list curl_req_handle item_url add_paths add_path
    transfer found_route update_entry update_endpoint path_url handle_req to_url update_query
    build_query set_protocol set_port_dst set_port_src set_ip_dst set_ip_src set_id_sfc
    set_endpoint_type builder packet_entry to_string decimal
serves = record { updates = λ sock. refl; leads = λ sock calls. refl }

pub leaves_length : 56 ≡ length leaves.pkt
unfolding encode_header encode_iphdr encode_udphdr
leaves_length = refl

pub returns_length : 56 ≡ length returns.pkt
unfolding encode_header encode_iphdr encode_udphdr
returns_length = refl

pub enters_length : 32 ≡ length enters.pkt
unfolding encode_iphdr encode_udphdr
enters_length = refl

pub reply_short : length (69 ∷ reply_bytes) < buffer_size
unfolding encode_iphdr encode_udphdr
reply_short = omega arith

pub no_client : connection Packets packets_order fresh.endpoint ce ≡ none
unfolding find
no_client = refl

-- Another client, with another port, whose packet enters meanwhile.
abbrev pub other_header : Udphdr
other_header = record Data.udp_header { source = 36896 }

pub other_header-IsUdphdr : IsUdphdr other_header
other_header-IsUdphdr = omega arith

abbrev pub other_enters : UdpPktMngmntArgs
other_enters = record enters {
  client_address = no_address;
  pkt = encode_iphdr ip ++ (encode_udphdr other_header ++ word);
}

pub other-IsDatagram : IsDatagram other_enters.pkt ip other_header word
other-IsDatagram = record {
  shape = refl;
  ip = ip-IsIphdr;
  udp = other_header-IsUdphdr;
  five = refl;
  seventeen = refl;
}

pub other_length : 32 ≡ length other_enters.pkt
unfolding encode_iphdr encode_udphdr
other_length = refl

pub other-Packets : Packets (packet_entry one_word (ip, other_header) (codes "0") udp)
unfolding packet_entry
other-Packets = refl

pub meanwhile :
    Others Packets packets_order one_word first_word service kernel ce
      (manage_entering_udp_packets one_word first_word service kernel enters fresh).1
      (manage_entering_udp_packets one_word first_word service kernel other_enters
        (manage_entering_udp_packets one_word first_word service kernel enters fresh).1).1
meanwhile = Others.enters other_enters waits (
    Enters-IsDatagram Packets one_word other_enters ip other_header word other-IsDatagram
      other_length other-Packets)
