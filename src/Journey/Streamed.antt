-- ===== src/Journey/Streamed.antt =====
-- The parts of an exchange over TCP: what names the client, and the answer at the ingress.
use ironhide.Base.{ℕ, ◌≡◌, ◌≤◌, ◌-◌, ◌*◌, ◌<◌, ◌∙◌, ap, refl, List, [], ◌∷◌, ◌++◌, length, arith}
use ironhide.Base.Text.{Text, codes, c_str, to_string}
use ironhide.Packet.{Iphdr, Tcphdr}
use ironhide.Sfc.{SfcHeader, IsHeader, encode_header, create_header}
use ironhide.Entry.{ConnectionEntry}
use ironhide.Db.{tcp}
use ironhide.Db.Address.{Address}
use ironhide.Db.Roulette.Backend.{Backend}
use ironhide.Endpoint.State.{retrieve_connection_2}
use ironhide.Socket.{Kernel, Peer, sendto, inet, resolved, call, call_}
use ironhide.Socket.Held.{delivered, said, held, hold, release}
use ironhide.Client.Tcp.Delivery.{Streams}
use ironhide.Client.Udp.Delivery.{Accepts, Book, positive_tests}
use ironhide.Process.{Process, on_calls, sys, sys_, ack}
use ironhide.Hop.{chain_entry, hop_header}
use ironhide.Ingress.{UdpPktMngmntArgs}
use ironhide.Ingress.Chain.{manage_pkt_from_chain}
use ironhide.Ingress.Chain.Closing.{manage_pkt_from_chain-tcp}
use ironhide.Ingress.Tcp.{TcpPktMngmntArgs, connection_entry, tcp_header}
use ironhide.Ingress.Tcp.Segments.{IsSegment}
use ironhide.Ingress.Tcp.Naming.{chain_entry-tcp_header}
use ironhide.Egress.{answer_header}
use ironhide.Egress.Answers.{chain_entry-answer_header}
use ironhide.Egress.Streams.{server_peer}
use ironhide.Journey.{Carries, chain_entry-Carries}

module _ (int_to_ip : ℕ → Text) (ip_to_int : Text → ℕ) (backend : Backend) (kernel : Kernel)
    (args : TcpPktMngmntArgs)
    (law : (x : ℕ) → int_to_ip (ip_to_int (c_str (int_to_ip x))) ≡ int_to_ip x) where
  p_id-tcp_header :
      (headers : Iphdr × Tcphdr) (path : List Address)
      → (tcp_header int_to_ip ip_to_int headers 0 path).p_id ≡ 0
  unfolding tcp_header hop_header create_header
  p_id-tcp_header headers path = refl

  -- The header names the client on each part of the way.
  pub stream_outward :
      (headers : Iphdr × Tcphdr) (path : List Address) (outward : SfcHeader)
      → Carries (tcp_header int_to_ip ip_to_int headers 0 path) outward
      → chain_entry int_to_ip outward tcp ≡ connection_entry int_to_ip headers (codes "0")
  stream_outward headers path outward c =
      chain_entry-Carries int_to_ip (tcp_header int_to_ip ip_to_int headers 0 path) outward tcp c
      ∙ chain_entry-tcp_header int_to_ip ip_to_int backend kernel args headers path law

  pub stream_inward :
      (headers : Iphdr × Tcphdr) (path path_e : List Address) (outward inward : SfcHeader)
      → Carries (tcp_header int_to_ip ip_to_int headers 0 path) outward
      → Carries (answer_header int_to_ip ip_to_int outward 0 path_e) inward
      → chain_entry int_to_ip inward tcp ≡ connection_entry int_to_ip headers (codes "0")
  stream_inward headers path path_e outward inward c c' =
      chain_entry-Carries int_to_ip (answer_header int_to_ip ip_to_int outward 0 path_e) inward tcp
        c'
      ∙ chain_entry-answer_header int_to_ip ip_to_int outward path_e tcp law
          (c.p_id ∙ p_id-tcp_header headers path)
      ∙ stream_outward headers path outward c

-- The server that an entry names.
abbrev pub entry_peer : Book → ConnectionEntry → Peer
entry_peer book ce = resolved (book (c_str ce.ip_dst) (to_string ce.port_dst)).ai_addr

pub server_peer-entry :
    (int_to_ip : ℕ → Text) (book : Book) (header : SfcHeader)
    → server_peer int_to_ip book header ≡ entry_peer book (chain_entry int_to_ip header tcp)
unfolding chain_entry
server_peer-entry int_to_ip book header = refl

-- An answer from the chain is sent on the socket of its entry, which is then closed; the endpoint
-- stays as it is.
pub said-back :
    (int_to_ip : ℕ → Text) (backend : Backend) (kernel : Kernel) (book : Book)
    (args : UdpPktMngmntArgs) (header : SfcHeader) (answer : List ℕ) (h : Iphdr) (t : Tcphdr)
    (reply : List ℕ) (s : Process)
    → Accepts kernel book
    → Streams kernel
    → args.pkt ≡ encode_header header ++ answer
    → args.pkt_len ≡ length args.pkt
    → IsHeader header
    → IsSegment answer h t reply
    → 0 < length reply
    → let fd = (retrieve_connection_2 s.endpoint (chain_entry int_to_ip header tcp)).0 in
      let s' = (manage_pkt_from_chain int_to_ip backend kernel args s).1 in
      (delivered s'.calls ≡ (ack, inet args.client_address) ∷ delivered s.calls)
      × (said s'.calls ≡ (fd, reply) ∷ said s.calls)
      × (held s'.calls ≡ release fd (held s.calls))
      × (s'.endpoint ≡ s.endpoint)
unfolding sys sys_ on_calls call call_ delivered said held hold
said-back int_to_ip backend kernel book args header answer h t reply s accepts streams packet whole
      hd d filled =
    let fd = (retrieve_connection_2 s.endpoint (chain_entry int_to_ip header tcp)).0 in
    let acks = sendto args.socket_fd ack (inet args.client_address) in
    let acked : Process = record s { calls = (acks, kernel s.calls acks) ∷ s.calls } in
    let first = accepts.sends s.calls args.socket_fd ack (inet args.client_address) (omega arith) in
    let second = streams.sends acked.calls fd reply filled in
    let goes = (positive_tests _ second).0 in
    let five : 5 ≤ t.doff = omega (arith, d.words) in
    let no_options : length {A = ℕ} [] ≡ (t.doff - 5) * 4 = rw (d.words) in
    let runs =
      manage_pkt_from_chain-tcp int_to_ip backend kernel args header h t [] reply s
        (packet ∙ ap (λ l. encode_header header ++ l) d.shape) whole hd d.ip d.tcp d.five d.six five
        no_options in
    rw (runs, goes, second, first) (refl, refl, refl, refl)
