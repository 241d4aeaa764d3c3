-- ===== src/Journey/Conversed.antt =====
-- A whole exchange over TCP between a client and its server, through both ends of a chain.
use ironhide.Base.{ℕ, ◌≡◌, ◌<◌, ◌∙◌, ap, none, List, ◌∷◌, ◌++◌, length}
use ironhide.Base.Result.{ok}
use ironhide.Base.Int.{ℤ, pos, negsuc}
use ironhide.Base.Exec.{◌>>◌, ◌>>=◌}
use ironhide.Base.Text.{Text, codes, c_str}
use ironhide.StdMap.Laws.{OrdersOn}
use ironhide.Packet.{Iphdr, Tcphdr}
use ironhide.Packet.Forge.Buffers.{cut_at_nul}
use ironhide.Sfc.{SfcHeader, encode_header}
use ironhide.Entry.{ConnectionEntry, entry_lt}
use ironhide.Classifier.Chains.{IsSfcMap}
use ironhide.Db.Address.{Address}
use ironhide.Db.Roulette.Backend.{Backend}
use ironhide.Endpoint.State.{SockConn, retrieve_connection_2}
use ironhide.Endpoint.Connections.{connection, HasConnections}
use ironhide.Socket.{Kernel, inet}
use ironhide.Socket.Held.{delivered, said, connections, held, release}
use ironhide.Client.Tcp.Delivery.{Streams}
use ironhide.Client.Udp.Delivery.{Accepts, Book}
use ironhide.Process.{Process, Stream, closes, receives, routes, receive_one, ack, buffer_size}
use ironhide.Hop.Delivery.{hop_peer}
use ironhide.Ingress.{UdpPktMngmntArgs}
use ironhide.Ingress.Chain as Chain
use ironhide.Ingress.Tcp.{
  TcpPktMngmntArgs, new_locals, connection_entry, tcp_header, manage_packet, receive_loop,
  end_connection,
}
use ironhide.Ingress.Tcp.Sessions as Sessions
use ironhide.Ingress.Tcp.Segments.{IsSegment, IsSegment-IsPacket}
use ironhide.Ingress.Tcp.Opening.{forwarding, adding, delivered-opening}
use ironhide.Ingress.Tcp.Naming.{connection-opening}
use ironhide.Ingress.Tcp.Closing.{forgotten-ending}
use ironhide.Egress.{answer_header, manage_pkt_from_chain, run_task}
use ironhide.Egress.Streams.{ServesStream, delivered-streamed}
use ironhide.Journey.{Carries}
use ironhide.Journey.Others.{Others, connection-Others}
use ironhide.Journey.Datagram.{retrieve-connection}
use ironhide.Journey.Streamed.{
  stream_outward, stream_inward, entry_peer, server_peer-entry, said-back,
}

-- A client opens a TCP connection to an ingress that has none for its entry yet, and its first packet
-- is answered. The ingress sends the packet once, behind its header, to the first hop; the egress
-- acknowledges what arrives, connects a socket to the server that the client's packet names, sends
-- the payload on that socket, once, with zeros from the first NUL on, and sends the answer, once,
-- behind a header of the other direction, to the first hop of the way back; the ingress, which may
-- have done any other work in between by which no entry of the client is deleted, sends the payload of the answer on the socket of the client, and
-- closes it; and when the thread of the connection then finds it closed, no connection is known for
-- the entry, whether or not the service could delete it. Both services take the entry and have a
-- route, both systems do as they are asked, the egress has no socket for the entry, and the functions
-- of the chain change no header but in the fields that `Carries` leaves free. The packet and the
-- answer are TCP packets without options and not empty, the answer shorter than the buffer; the
-- classifiers' maps are as they keep them; inet_addr inverts inet_ntoa; and the connection's entry is
-- from a set that operator< orders.
pub conversed {ℓ} :
    (P : ConnectionEntry → Type ℓ) (ord : OrdersOn entry_lt P) (int_to_ip : ℕ → Text)
    (ip_to_int : Text → ℕ) (backend backend_e : Backend) (kernel kernel_e : Kernel)
    (book book_e : Book) (args : TcpPktMngmntArgs) (args_e args_b : UdpPktMngmntArgs) (pkt : List ℕ)
    (h h_b : Iphdr) (t t_b : Tcphdr) (payload reply datagram : List ℕ) (byte : ℕ) (bytes : List ℕ)
    (rest : Stream) (first first_e : Address) (path path_e : List Address)
    (outward inward : SfcHeader) (s e later : Process)
    → ((x : ℕ) → int_to_ip (ip_to_int (c_str (int_to_ip x))) ≡ int_to_ip x)
    → Accepts kernel book
    → Accepts kernel_e book_e
    → Streams kernel
    → Streams kernel_e
    → IsSegment pkt h t payload
    → 0 < length payload
    → IsSegment (byte ∷ bytes) h_b t_b reply
    → 0 < length reply
    → length (byte ∷ bytes) < buffer_size
    → let ce = connection_entry int_to_ip (h, t) (codes "0") in
      let flh = tcp_header int_to_ip ip_to_int (h, t) 0 (first ∷ path) in
      let back = answer_header int_to_ip ip_to_int outward 0 (first_e ∷ path_e) in
      let told = adding int_to_ip ip_to_int backend kernel args (h, t) pkt s in
      let s' =
        ((receive_one args.new_socket_fd (pos (length pkt)) pkt
            >> manage_packet int_to_ip ip_to_int backend kernel args pkt new_locals)
          s).1 in
      let e' =
        ((manage_pkt_from_chain int_to_ip ip_to_int backend_e kernel_e args_e >>= λ task.
        run_task int_to_ip ip_to_int backend_e kernel_e datagram task (receives byte bytes rest))
          e).1 in
      let s'' = (Chain.manage_pkt_from_chain int_to_ip backend kernel args_b later).1 in
      let ended =
        ((receive_loop int_to_ip ip_to_int backend kernel args closes (forwarding (h, t))
            >>= end_connection int_to_ip ip_to_int backend kernel args)
          s'').1 in
      P ce
      → HasConnections P ord s.endpoint
      → connection P ord s.endpoint ce ≡ none
      → IsSfcMap s.endpoint.sfc_map
      → IsSfcMap e.endpoint.sfc_map
      → told.0 ≡ ok tt
      → (routes backend 0 told.1).0 ≡ ok (first ∷ path)
      → Carries flh outward
      → args_e.pkt ≡ encode_header outward ++ pkt
      → args_e.pkt_len ≡ length args_e.pkt
      → (retrieve_connection_2 e.endpoint ce).0 ≡ negsuc 0
      → ServesStream backend_e ce (byte ∷ bytes) first_e path_e e.endpoint
      → Others P ord int_to_ip ip_to_int backend kernel ce s' later
      → Carries back inward
      → args_b.pkt ≡ encode_header inward ++ (byte ∷ bytes)
      → args_b.pkt_len ≡ length args_b.pkt
      → (delivered s'.calls ≡ (encode_header flh ++ pkt, hop_peer book first) ∷ delivered s.calls)
        × ((sock : ℤ) × (next : ℤ) × (connections e'.calls
              ≡ (next, hop_peer book_e first_e)
                ∷ (sock, entry_peer book_e ce)
                ∷ connections e.calls)
            × (said e'.calls ≡ (sock, cut_at_nul payload) ∷ said e.calls)
            × (delivered e'.calls
                ≡ (encode_header back ++ (byte ∷ bytes), hop_peer book_e first_e)
                  ∷ (ack, inet args_e.client_address)
                  ∷ delivered e.calls))
        × (said s''.calls ≡ (args.new_socket_fd, reply) ∷ said later.calls)
        × (held s''.calls ≡ release args.new_socket_fd (held later.calls))
        × (connection P ord ended.endpoint ce ≡ none)
conversed P ord int_to_ip ip_to_int backend backend_e kernel kernel_e book book_e args args_e args_b
      pkt h h_b t t_b payload reply datagram byte bytes rest first first_e path path_e outward
      inward s e later law accepts accepts_e streams streams_e d has_data d_b filled short p ordered
      absent sfc sfc_e added routed out packet_e whole_e new serves others home packet_b whole_b =
    let ce = connection_entry int_to_ip (h, t) (codes "0") in
    let conn : SockConn = (args.new_socket_fd, args.client_address) in
    let entry =
      stream_outward int_to_ip ip_to_int backend kernel args law (h, t) (first ∷ path) outward
        out in
    let entry_b =
      stream_inward int_to_ip ip_to_int backend kernel args law (h, t) (first ∷ path)
        (first_e ∷ path_e) outward inward out home in
    let (_, sent) =
      delivered-opening int_to_ip ip_to_int backend kernel args book pkt h t payload first path s
        accepts d sfc added routed in
    let s' =
      ((receive_one args.new_socket_fd (pos (length pkt)) pkt
          >> manage_packet int_to_ip ip_to_int backend kernel args pkt new_locals)
        s).1 in
    let (has, kept, sfc') =
      connection-opening int_to_ip ip_to_int backend kernel args P ord pkt h t payload s d p ordered
        sfc absent in
    let (found, still, sfc'') =
      connection-Others P ord int_to_ip ip_to_int backend kernel ce conn s' later p kept sfc' has
        others in
    let (_, sock, next, goes, told, joined) =
      delivered-streamed int_to_ip ip_to_int backend_e kernel_e book_e accepts_e streams_e args_e
        outward pkt h t payload datagram byte bytes rest first_e path_e e packet_e whole_e
        out.header d has_data sfc_e (IsSegment-IsPacket (byte ∷ bytes) h_b t_b reply d_b) short
        (rw entry new) (rw entry serves) in
    let server = server_peer-entry int_to_ip book_e outward ∙ ap (entry_peer book_e) entry in
    let (_, answered, closed, same) =
      said-back int_to_ip backend kernel book args_b inward (byte ∷ bytes) h_b t_b reply later
        accepts streams packet_b whole_b home.header d_b filled in
    let client = retrieve-connection later.endpoint ce conn found in
    let s'' = (Chain.manage_pkt_from_chain int_to_ip backend kernel args_b later).1 in
    let (_, gone) =
      forgotten-ending P ord int_to_ip ip_to_int backend kernel args (h, t) closes s'' Sessions.ends
        p (rw same still) (rw same sfc'') in
    (
      sent,
      (sock, next, rw server at joined, told, goes),
      rw (entry_b, client) at answered,
      rw (entry_b, client) at closed,
      gone,
    )
