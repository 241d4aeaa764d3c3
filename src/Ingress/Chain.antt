-- ===== src/Ingress/Chain.antt =====
-- src/endpoint/ingress.cpp, manage_pkt_from_chain: an answer that comes back from the chain.
pub mod Answers
pub mod Closing
pub mod Kept
use ironhide.Base.{ℕ, ◌+◌, ◌-◌, List, drop, ltb, ◌==◌, if◌then◌else◌}
use ironhide.Base.Result.{Result, err, fault, exit_failure}
use ironhide.Base.Int.{ℤ}
use ironhide.Base.Exec.{Exec, pure, raise, lift, gets, ◌>>=◌, ◌>>◌}
use ironhide.Base.Text.{Text}
use ironhide.Packet.Retrieve.{
  advance, retrieve_ip_header, tcp_packet_header_size, udp_packet_header_size,
}
use ironhide.Sfc.{SfcHeader, header_size, retrieve_header}
use ironhide.Db.{ProtocolType, tcp, udp}
use ironhide.Db.Roulette.Backend.{Backend}
use ironhide.Endpoint.State.{SockConn, delete_entry, retrieve_connection_2}
use ironhide.Socket.{Kernel, send, sendto, shutdown, close, inet, is_negative}
use ironhide.Client.{bytes_of}
use ironhide.Process.{Process, on_endpoint, sys, sys_, ack}
use ironhide.Hop.{chain_entry}
use ironhide.Ingress.{UdpPktMngmntArgs}

-- The protocol of a connection: 6 is the code of TCP, all else counts as UDP.
unfoldable pub conn_type : ℕ → ProtocolType
conn_type protocol = if protocol == 6 then tcp else udp

-- What is behind `pkt_calc` bytes of headers. The length is a difference of unsigned numbers: it
-- wraps to one that no buffer has where the headers are longer than the packet.
unfoldable pub behind : List ℕ → ℕ → ℕ → Result (List ℕ)
behind pkt pkt_len pkt_calc =
    if ltb pkt_len pkt_calc then err fault else bytes_of (drop pkt_calc pkt) (pkt_len - pkt_calc)

module _ (int_to_ip : ℕ → Text) (backend : Backend) (kernel : Kernel) where
  -- The branch of a TCP connection, which then ends.
  unfoldable pub answer_tcp : UdpPktMngmntArgs → SockConn → Exec Process (Unit {0})
  unfolding behind sys sys_
  answer_tcp args sock = do
    size ← lift (tcp_packet_header_size (advance args.pkt header_size))
    payload ← lift (behind args.pkt args.pkt_len (header_size + size))
    resp_c ← sys kernel (send sock.0 payload)
    if is_negative resp_c.result then raise exit_failure else pure tt
    sys_ kernel (shutdown sock.0)
    sys_ kernel (close sock.0)

  -- The branch of UDP, whose entry is deleted.
  unfoldable pub answer_udp : UdpPktMngmntArgs → SfcHeader → SockConn → Exec Process (Unit {0})
  unfolding behind sys on_endpoint
  answer_udp args header sock = do
    size ← lift (udp_packet_header_size (advance args.pkt header_size))
    payload ← lift (behind args.pkt args.pkt_len (header_size + size))
    resp_c ← sys kernel (sendto sock.0 payload (inet sock.1))
    if is_negative resp_c.result then raise exit_failure else pure tt
    on_endpoint (delete_entry backend (chain_entry int_to_ip header udp))

  unfoldable pub answer :
      ProtocolType → UdpPktMngmntArgs → SfcHeader → SockConn → Exec Process (Unit {0})
  unfolding answer_tcp answer_udp
  answer tcp args header sock = answer_tcp args sock
  answer udp args header sock = answer_udp args header sock

  -- manage_pkt_from_chain
  unfoldable pub manage_pkt_from_chain : UdpPktMngmntArgs → Exec Process (Unit {0})
  unfolding sys_ conn_type answer
  manage_pkt_from_chain args = do
    sys_ kernel (sendto args.socket_fd ack (inet args.client_address))
    header ← lift (retrieve_header args.pkt)
    ip_hdr ← lift (retrieve_ip_header (advance args.pkt header_size))
    let prt = conn_type ip_hdr.protocol
    sock ← gets (λ s. retrieve_connection_2 s.endpoint (chain_entry int_to_ip header prt))
    answer prt args header sock
