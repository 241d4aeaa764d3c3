-- ===== src/Egress.antt =====
-- src/endpoint/egress.cpp: the handlers of packets that leave the chain, and of the answers to them.
pub mod Answers
pub mod Exchange
pub mod Kept
pub mod Leaving
pub mod Connections
pub mod Datagrams
pub mod Ports
pub mod Steps
pub mod Streams
pub mod Resumed
pub mod Tasks
use ironhide.Base.{
  ℕ, suc, ◌+◌, ◌-◌, Bool, true, false, List, [], ◌∷◌, length, ltb, ◌==◌, if◌then◌else◌, drop, take,
  ◌||◌, not,
}
use ironhide.Base.Result.{Result, Error, length_error, ok, err, fault, exit_failure}
use ironhide.Base.Int.{ℤ, pos, negsuc}
use ironhide.Base.Exec.{Exec, pure, raise, lift, gets, ◌>>=◌, ◌>>◌}
use ironhide.Base.Text.{Text, stoi, c_str}
use ironhide.Wire.{htons}
use ironhide.Packet.{Iphdr, decode_iphdr, zeros}
use ironhide.Packet.Retrieve.{
  advance, retrieve_ip_udp_header, tcp_packet_header_size, udp_packet_header_size,
}
use ironhide.Packet.Forge.{forge_ip_udp_pkt, strncpy}
use ironhide.Sfc.{SfcHeader, header_size, retrieve_header}
use ironhide.Entry.{ConnectionEntry}
use ironhide.Classifier.{classify_pkt}
use ironhide.Db.{ProtocolType, tcp, udp, egress_t}
use ironhide.Db.Address.{Address}
use ironhide.Db.Roulette.Backend.{Backend}
use ironhide.Endpoint.State.{update_entry, retrieve_connection_2}
use ironhide.Socket.{
  Kernel, SockaddrIn, socket, bind, send, sendto, close, inet, is_negative, is_minus_one, af_inet,
  sock_raw, ipproto_raw, ipproto_udp,
}
use ironhide.Client.{bytes_of}
use ironhide.Client.Tcp.{access_to_socket, access_to_sockaddr_in, connect_to_server}
use ironhide.Process.{
  Process, Stream, closes, fails, receives, on_classifier, on_endpoint, on_calls, routes,
  receive_one, sys, sys_, ack, buffer_size,
}
use ironhide.Hop.{hop_header, chain_entry, forward}
use ironhide.Ingress.{UdpPktMngmntArgs}
use ironhide.Ingress.Chain.{conn_type}

-- The header of an answer: that of the packet, in the other direction.
unfoldable pub answer_header : (ℕ → Text) → (Text → ℕ) → SfcHeader → ℕ → List Address → SfcHeader
unfolding hop_header
answer_header int_to_ip ip_to_int header p_id path =
    hop_header ip_to_int p_id (c_str (int_to_ip header.source_address)) header.source_port
      (c_str (int_to_ip header.destination_address)) header.destination_port 1 path

-- A difference of unsigned numbers. Where it wraps it is a length that no object has: to read as
-- many bytes is a fault, and a vector of as many throws length_error.
unfoldable pub payload_len : Error → ℕ → ℕ → Result ℕ
payload_len error pkt_len pkt_calc =
    if ltb pkt_len pkt_calc then err error else ok (pkt_len - pkt_calc)

-- What is left to a thread of its own by manage_pkt_from_chain.
pub record Task : Type 0 where
  pub prt : ProtocolType
  pub args : UdpPktMngmntArgs
  pub ce : ConnectionEntry

module _ (int_to_ip : ℕ → Text) (ip_to_int : Text → ℕ) (backend : Backend) (kernel : Kernel) where
  -- An answer goes into the chain: whether there was a route.
  unfoldable pub forward_answer : SfcHeader → List ℕ → Exec Process Bool
  unfolding on_classifier routes forward answer_header
  forward_answer header buffer = do
    sfcid ← on_classifier (classify_pkt buffer (length buffer))
    p_id ← lift (stoi sfcid)
    path ← routes backend p_id
    forward kernel buffer (length buffer) (answer_header int_to_ip ip_to_int header p_id) path

  -- The loop of manage_exiting_udp_packets: it ends with an answer that does not fill the buffer.
  unfoldable pub udp_answers : ℤ → SfcHeader → Stream → Exec Process (Unit {0})
  unfolding receive_one forward_answer
  udp_answers fd header fails = receive_one fd (negsuc 0) [] >> raise exit_failure
  udp_answers fd header closes = receive_one fd (pos 0) []
  udp_answers fd header (receives byte bytes rest) = do
    let buffer = byte ∷ bytes
    receive_one fd (pos (length buffer)) buffer
    sent ← forward_answer header buffer
    if ltb (length buffer) buffer_size then pure tt else udp_answers fd header rest

  -- The loop of manage_exiting_tcp_packets, which also ends without a route.
  unfoldable pub tcp_answers : ℤ → SfcHeader → Stream → Exec Process (Unit {0})
  unfolding receive_one forward_answer
  tcp_answers fd header fails = receive_one fd (negsuc 0) [] >> raise exit_failure
  tcp_answers fd header closes = receive_one fd (pos 0) []
  tcp_answers fd header (receives byte bytes rest) = do
    let buffer = byte ∷ bytes
    receive_one fd (pos (length buffer)) buffer
    sent ← forward_answer header buffer
    if not sent || ltb (length buffer) buffer_size then pure tt else tcp_answers fd header rest

  -- The sockets of manage_exiting_udp_packets. That to receive is bound to the port of the egress.
  unfoldable pub raw_socket : ℕ → Exec Process ℤ
  unfolding sys
  raw_socket protocol = do
    s ← sys kernel (socket af_inet sock_raw protocol)
    if is_minus_one s.result then raise exit_failure else pure s.result

  unfoldable pub bind_raw : ℤ → Exec Process (Unit {0})
  unfolding sys sys_
  bind_raw fd = do
    sockstr ← gets (λ s. record {
      sin_family = af_inet;
      sin_port = htons s.endpoint.ext_port;
      sin_addr = ip_to_int (c_str s.endpoint.my_ip);
    })
    b ← sys kernel (bind fd sockstr)
    if is_minus_one b.result then (sys_ kernel (close fd) >> raise exit_failure) else pure tt

  -- The packet that leaves, from `datagram`, the memory that it is forged in.
  unfoldable pub exiting_datagram :
      List ℕ → List ℕ → ℕ → ℕ → ConnectionEntry → Exec Process (List ℕ)
  unfolding payload_len
  exiting_datagram datagram pkt pkt_len pkt_calc ce = do
    data_len ← lift (payload_len fault pkt_len pkt_calc)
    my_ip ← gets (λ (s : Process). s.endpoint.my_ip)
    port ← gets (λ (s : Process). s.endpoint.ext_port)
    lift (
        forge_ip_udp_pkt ip_to_int (drop pkt_calc pkt) data_len (c_str my_ip) (c_str ce.ip_dst) port
          ce.port_dst datagram)

  -- manage_exiting_udp_packets, whose parameter `sock` is overwritten at once; `stream` is what the
  -- receiving socket gives.
  unfoldable pub manage_exiting_udp_packets :
      List ℕ → List ℕ → ℕ → ConnectionEntry → Stream → Exec Process (Unit {0})
  unfolding raw_socket exiting_datagram bind_raw sys on_endpoint udp_answers
  manage_exiting_udp_packets datagram pkt pkt_len ce stream = do
    size ← lift (udp_packet_header_size (advance pkt header_size))
    header ← lift (retrieve_header pkt)
    sock ← raw_socket ipproto_raw
    forged ← exiting_datagram datagram pkt pkt_len (header_size + size) ce
    receiver ← raw_socket ipproto_udp
    bind_raw receiver
    let server : SockaddrIn = record {
      sin_family = af_inet;
      sin_port = htons header.destination_port;
      sin_addr = header.destination_address;
    }
    bytes ← lift (bytes_of forged (decode_iphdr forged).tot_len)
    sent ← sys kernel (sendto sock bytes (inet server))
    if is_negative sent.result then raise exit_failure else pure tt
    on_endpoint (update_entry backend ce sock server egress_t)
    udp_answers receiver header stream

  -- The socket of a TCP connection, which is made and told to the service if there is none.
  unfoldable pub connection_socket : ConnectionEntry → SfcHeader → ℤ → Exec Process ℤ
  unfolding on_calls on_endpoint
  connection_socket ce header fd =
      if is_minus_one fd
      then (do
        client ← on_calls (
            connect_to_server kernel buffer_size (c_str (int_to_ip header.destination_address))
              (htons header.destination_port))
        on_endpoint (
            update_entry backend ce (access_to_socket client) (access_to_sockaddr_in client)
              egress_t)
        pure (access_to_socket client))
      else pure fd

  -- manage_exiting_tcp_packets; `stream` is what the connection gives.
  unfoldable pub manage_exiting_tcp_packets :
      List ℕ → ℕ → ConnectionEntry → ℤ → Stream → Exec Process (Unit {0})
  unfolding payload_len connection_socket sys_ tcp_answers
  manage_exiting_tcp_packets pkt pkt_len ce fd stream = do
    header ← lift (retrieve_header pkt)
    size ← lift (tcp_packet_header_size (advance pkt header_size))
    let pkt_calc = header_size + size
    len ← lift (payload_len length_error pkt_len pkt_calc)
    s ← lift (strncpy (zeros len) (drop pkt_calc pkt) len)
    connected ← connection_socket ce header fd
    sys_ kernel (send connected s)
    tcp_answers connected header stream

  -- manage_pkt_from_chain, up to the start of the thread.
  unfoldable pub manage_pkt_from_chain : UdpPktMngmntArgs → Exec Process Task
  unfolding sys_
  manage_pkt_from_chain args = do
    sys_ kernel (sendto args.socket_fd ack (inet args.client_address))
    flh ← lift (retrieve_header args.pkt)
    headers ← lift (retrieve_ip_udp_header (advance args.pkt header_size))
    let prt = conn_type headers.0.protocol
    let ce = chain_entry int_to_ip flh prt
    fd ← gets (λ s. (retrieve_connection_2 s.endpoint ce).0)
    pure (record { prt = prt; args = record args { socket_fd = fd }; ce = ce })

  -- The thread.
  unfoldable pub run_task : List ℕ → Task → Stream → Exec Process (Unit {0})
  unfolding manage_exiting_tcp_packets manage_exiting_udp_packets
  run_task datagram task stream = elim task.prt [
    | tcp ↦
        manage_exiting_tcp_packets task.args.pkt task.args.pkt_len task.ce task.args.socket_fd
          stream
    | udp ↦ manage_exiting_udp_packets datagram task.args.pkt task.args.pkt_len task.ce stream
  ]
