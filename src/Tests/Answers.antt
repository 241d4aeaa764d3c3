-- ===== src/Tests/Answers.antt =====
-- Packets that come back from the chain, packets of a connection, and answers of a server.
use ironhide.Base.{
  drop, ◌%◌, ◌<◌, ℕ, ◌≡◌, ◌+◌, refl, arith, false, List, [], ◌∷◌, ◌++◌, length, if◌then◌else◌,
}
use ironhide.Base.Result.{ok, err, exit_failure}
use ironhide.Base.Int.{pos}
use ironhide.Base.Text.{c_str, Text, codes}
use ironhide.Packet.{Iphdr, IsIphdr, encode_tcphdr, encode_iphdr, encode_udphdr}
use ironhide.Sfc.{IsHeader, SfcHeader, encode_header, retrieve_header, retrieve_payload}
use ironhide.Classifier.Chains.{empty-IsSfcMap}
use ironhide.Db.{udp, tcp}
use ironhide.Db.Address.{Address, address_of}
use ironhide.Db.Roulette.Client.{get_route_list, curl_req_handle, item_url, transfer}
use ironhide.Db.Roulette.Replies.{found_route}
use ironhide.Db.UrlBuilder.{add_paths, add_path}
use ironhide.Endpoint.State.{on_net, delete_entry, retrieve_connection_2}
use ironhide.Socket.{send, shutdown, close, no_address, sendto, inet, is_negative}
use ironhide.Socket.Held.{delivered}
use ironhide.Hop.Delivery.{hop_peer}
use ironhide.Client.Udp.Delivery.{Accepts}
use ironhide.Process.{
  buffer_size, on_calls, closes, receives, on_endpoint, routes, receive_one, sys, sys_, ack,
}
use ironhide.Hop.{chain_entry}
use ironhide.Ingress.{UdpPktMngmntArgs}
use ironhide.Ingress.Chain.{manage_pkt_from_chain}
use ironhide.Ingress.Chain.Closing.{manage_pkt_from_chain-tcp}
use ironhide.Ingress.Chain.Answers.{manage_pkt_from_chain-udp}
use ironhide.Ingress.Tcp.{TcpPktMngmntArgs, Locals, new_locals}
use ironhide.Ingress.Tcp.Sessions.{IsPacket}
use ironhide.Egress.{udp_answers, tcp_answers}
use ironhide.Egress.Answers.{delivered-answers, asking}
use ironhide.Tests.Data.{tcp_header, tcp_header-IsTcphdr, ip, ip-IsIphdr, udp_header, word}
use ironhide.Tests.Endpoints.{service}
use ironhide.Tests.Entering.{kernel, book, fresh}

-- Functions in the place of inet_ntoa and inet_addr.
abbrev pub one_word : ℕ → Text
one_word x = x % 4294967296 ∷ []

abbrev pub first_word : Text → ℕ
first_word [] = 0
first_word (x ∷ t) = x % 4294967296

pub one_word-first_word : (x : ℕ) → one_word (first_word (c_str (one_word x))) ≡ one_word x
unfolding c_str
one_word-first_word x = ground arith

pub first_word_bound : (t : Text) → first_word t < 4294967296
first_word_bound [] = omega arith
first_word_bound (x ∷ t) = omega arith

pub kernel-Accepts : Accepts kernel book
kernel-Accepts = record {
  finds = λ s dst port t. refl;
  lists = λ s dst port t. ([], refl);
  makes = λ s f t p. refl;
  connects = λ s fd peer. refl;
  sends = λ s fd message peer some. ground arith;
}

-- A header of the chain 0, and packets behind it.
abbrev pub header : SfcHeader
header = record {
  ver = 0;
  oam = 0;
  u1 = 0;
  ttl = 3;
  len = 0;
  u2 = 0;
  md_type = 1;
  prot = 1;
  p_id = 0;
  si = 0;
  source_address = 16777226;
  destination_address = 33554442;
  source_port = 36895;
  destination_port = 13568;
  direction_flag = 0;
  other = 0;
}

pub header-IsHeader : IsHeader header
header-IsHeader = omega arith

answer_length :
    56 ≡ length (encode_header header ++ (encode_iphdr ip ++ (encode_udphdr udp_header ++ word)))
unfolding encode_header encode_iphdr encode_udphdr
answer_length = refl

abbrev answer : UdpPktMngmntArgs
answer = record {
  socket_fd = pos 3;
  client_address = record { sin_family = 2; sin_port = 1; sin_addr = 1 };
  pkt = encode_header header ++ (encode_iphdr ip ++ (encode_udphdr udp_header ++ word));
  pkt_len = 56;
}

manage_pkt_from_chain-udp_example :
    let ce = chain_entry one_word header udp in
    let sock = retrieve_connection_2 fresh.endpoint ce in
    let acked = (sys_ kernel (sendto answer.socket_fd ack (inet answer.client_address)) fresh).1 in
    let (sent, after) = sys kernel (sendto sock.0 word (inet sock.1)) acked in
    let resp_c = kernel acked.calls (sendto sock.0 word (inet sock.1)) in
    manage_pkt_from_chain one_word service kernel answer fresh ≡ (
      if is_negative resp_c.result
      then (err exit_failure, after)
      else on_endpoint (delete_entry service ce) after)
manage_pkt_from_chain-udp_example =
    manage_pkt_from_chain-udp one_word service kernel answer header ip udp_header word fresh refl
      answer_length header-IsHeader ip-IsIphdr refl refl

-- A packet as a receive stores it: the first byte, and the others.
abbrev packet_bytes : List ℕ
packet_bytes = drop 1 (encode_iphdr ip ++ word)

udp_bytes-IsPacket : IsPacket (69 ∷ packet_bytes)
unfolding encode_iphdr
udp_bytes-IsPacket = record {
  h = ip;
  rest = word;
  shape = refl;
  header = ip-IsIphdr;
  five = refl;
  long = omega arith;
  known = refl;
}

abbrev session : TcpPktMngmntArgs
session = record { new_socket_fd = pos 5; client_address = no_address }

abbrev forwarding : Locals
forwarding = record new_locals { sfcid = codes "0"; prev_sfcid = codes "0"; first_pkt = false }

packet_short : length (69 ∷ packet_bytes) < buffer_size
unfolding encode_iphdr
packet_short = omega arith

-- The service gives one address.
abbrev pub route : Address
route = address_of (codes "17") 80

routed :
    (routes service 0 (
      asking
        (69 ∷ packet_bytes)
        (receive_one (pos 5) (pos (length (69 ∷ packet_bytes))) (69 ∷ packet_bytes) fresh).1)).0
    ≡ ok (route ∷ [])
unfolding routes on_endpoint on_net get_route_list receive_one on_calls curl_req_handle item_url
    add_paths add_path transfer found_route
routed = refl

delivered-answers_example :
    let packet = 69 ∷ packet_bytes in
    (out : List ℕ) × (h : SfcHeader) × (retrieve_header out ≡ ok h)
    × (retrieve_payload out (length packet + 24) ≡ ok packet)
    × (h.direction_flag ≡ 1)
    × (chain_entry one_word h udp ≡ chain_entry one_word header udp)
    × (let (r, s') =
          udp_answers one_word first_word service kernel
            (pos 5)
            header
            (receives 69 packet_bytes closes)
            fresh in
        (r ≡ ok tt) × (delivered s'.calls ≡ (out, hop_peer book route) ∷ delivered fresh.calls))
    × (let (r, s') =
          tcp_answers one_word first_word service kernel
            (pos 5)
            header
            (receives 69 packet_bytes closes)
            fresh in
        (r ≡ ok tt) × (delivered s'.calls ≡ (out, hop_peer book route) ∷ delivered fresh.calls))
delivered-answers_example =
    delivered-answers one_word first_word service kernel book kernel-Accepts (pos 5) header 69
      packet_bytes closes route [] udp fresh one_word-first_word first_word_bound header-IsHeader
      refl udp_bytes-IsPacket packet_short empty-IsSfcMap routed

-- The same with a connection, and one word of options.
abbrev pub tcp_ip : Iphdr
tcp_ip = record ip { protocol = 6 }

pub tcp_ip-IsIphdr : IsIphdr tcp_ip
tcp_ip-IsIphdr = omega arith

abbrev pub tcp_answer : UdpPktMngmntArgs
tcp_answer = record answer {
  pkt =
      encode_header header ++ (encode_iphdr tcp_ip ++ (encode_tcphdr tcp_header ++ (word ++ word)));
  pkt_len = 72;
}

pub tcp_answer_length : 72 ≡ length tcp_answer.pkt
unfolding encode_header encode_iphdr encode_tcphdr
tcp_answer_length = refl

manage_pkt_from_chain-tcp_example :
    let sock = retrieve_connection_2 fresh.endpoint (chain_entry one_word header tcp) in
    let acked =
      (sys_ kernel (sendto tcp_answer.socket_fd ack (inet tcp_answer.client_address)) fresh).1 in
    let (sent, after) = sys kernel (send sock.0 word) acked in
    let resp_c = kernel acked.calls (send sock.0 word) in
    manage_pkt_from_chain one_word service kernel tcp_answer fresh ≡ (
      if is_negative resp_c.result
      then (err exit_failure, after)
      else sys_ kernel (close sock.0) (sys_ kernel (shutdown sock.0) after).1)
manage_pkt_from_chain-tcp_example =
    manage_pkt_from_chain-tcp one_word service kernel tcp_answer header tcp_ip tcp_header word word
      fresh refl tcp_answer_length header-IsHeader tcp_ip-IsIphdr tcp_header-IsTcphdr refl refl
      (omega arith) (omega arith)
