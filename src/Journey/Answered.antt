-- ===== src/Journey/Answered.antt =====
-- A whole exchange between a client and its server, through both ends of a chain.
use ironhide.Base.{ℕ, ◌+◌, ◌≡◌, ◌≤◌, ◌<◌, ◌∙◌, ap, none, List, ◌∷◌, ◌++◌, length, arith, refl, All}
use ironhide.Base.Result.{ok}
use ironhide.Base.Int.{negsuc}
use ironhide.Base.Exec.{◌>>=◌}
use ironhide.Base.Text.{Text, codes, c_str}
use ironhide.StdMap.Laws.{OrdersOn}
use ironhide.Wire.{htons, htons-htons}
use ironhide.Packet.{Iphdr, Udphdr, encode_iphdr, encode_udphdr}
use ironhide.Packet.Retrieve.{retrieve_ip_udp_header}
use ironhide.Packet.Checksum.{IsByte}
use ironhide.Packet.Forge.Buffers.{cut_at_nul}
use ironhide.Sfc.{SfcHeader, encode_header}
use ironhide.Entry.{ConnectionEntry, entry_lt}
use ironhide.Classifier.Chains.{IsSfcMap}
use ironhide.Db.{udp, ingress_t}
use ironhide.Db.Address.{Address}
use ironhide.Db.Roulette.Backend.{Backend}
use ironhide.Endpoint.State.{SockConn, no_address, add_entry, retrieve_connection_2}
use ironhide.Endpoint.Connections.{connection, HasConnections}
use ironhide.Socket.{Kernel, inet}
use ironhide.Socket.Held.{delivered}
use ironhide.Hop.Delivery.{hop_peer}
use ironhide.Client.Udp.Delivery.{Accepts, Book}
use ironhide.Process.{Process, Stream, receives, on_endpoint, routes, ack, buffer_size}
use ironhide.Ingress.{UdpPktMngmntArgs, packet_entry, udp_header, manage_entering_udp_packets}
use ironhide.Ingress.Chain as Chain
use ironhide.Ingress.Delivery.{known, told, delivered-entering}
use ironhide.Egress.{answer_header, manage_pkt_from_chain, run_task}
use ironhide.Egress.Exchange.{Serves, server_of}
use ironhide.Egress.Leaving.{Binds}
use ironhide.Journey.{Carries, IsDatagram, length-IsDatagram, IsDatagram-IsPacket}
use ironhide.Journey.Others.Datagrams.{connection-entering}
use ironhide.Journey.Others.{Others, connection-Others}
use ironhide.Journey.Served.{delivered-served}
use ironhide.Journey.Datagram.{entry_outward, entry_inward, delivered-client, retrieve-connection}

-- A client sends a UDP packet to an ingress that has no connection for it yet, and gets the answer.
-- The ingress sends the packet once, behind its header, to the first hop; the egress acknowledges
-- what arrives, sends the payload to the server that the header names, under its own address and
-- for the destination of the client's packet, with zeros from the first NUL on, and sends the
-- answer, once, behind a header of the other direction, to the first hop of the way back; the
-- ingress, which may have done any other work in between by which no entry of the client is deleted,
-- acknowledges that, sends the payload of the answer to the address of the client, and then has no
-- connection for it. Both services take the entry and have a route, both systems do as they
-- are asked, and the functions of the chain change no header but in the fields that `Carries`
-- leaves free. The packet and the answer are UDP packets without options, the answer shorter than
-- the buffer and not empty, the payload bytes of at most 65507, and the memory for the datagram has
-- room for it; the classifiers' maps are as they keep them; addresses have 32 bits, and inet_addr
-- inverts inet_ntoa; and the packet's entry is from a set that operator< orders.
pub answered {ℓ} :
    (P : ConnectionEntry → Type ℓ) (ord : OrdersOn entry_lt P) (int_to_ip : ℕ → Text)
    (ip_to_int : Text → ℕ) (backend backend_e : Backend) (kernel kernel_e : Kernel)
    (book book_e : Book) (args args_e args_b : UdpPktMngmntArgs) (h h_b : Iphdr) (u u_b : Udphdr)
    (payload reply datagram : List ℕ) (byte : ℕ) (bytes : List ℕ) (rest : Stream)
    (first first_e : Address) (path path_e : List Address) (outward inward : SfcHeader)
    (s e later : Process)
    → ((x : ℕ) → int_to_ip (ip_to_int (c_str (int_to_ip x))) ≡ int_to_ip x)
    → ((t : Text) → ip_to_int t < 4294967296)
    → Accepts kernel book
    → Accepts kernel_e book_e
    → Binds kernel_e
    → IsDatagram args.pkt h u payload
    → args.pkt_len ≡ length args.pkt
    → All IsByte payload
    → length payload ≤ 65507
    → 4096 ≤ length datagram
    → 28 + length payload ≤ length datagram
    → IsDatagram (byte ∷ bytes) h_b u_b reply
    → 0 < length reply
    → length (byte ∷ bytes) < buffer_size
    → let ce = packet_entry int_to_ip (h, u) (codes "0") udp in
      let flh = udp_header int_to_ip ip_to_int (h, u) 0 (first ∷ path) in
      let back = answer_header int_to_ip ip_to_int outward 0 (first_e ∷ path_e) in
      let s' = (manage_entering_udp_packets int_to_ip ip_to_int backend kernel args s).1 in
      let e' =
        ((manage_pkt_from_chain int_to_ip ip_to_int backend_e kernel_e args_e >>= λ task.
        run_task int_to_ip ip_to_int backend_e kernel_e datagram task (receives byte bytes rest))
          e).1 in
      let s'' = (Chain.manage_pkt_from_chain int_to_ip backend kernel args_b later).1 in
      P ce
      → HasConnections P ord s.endpoint
      → connection P ord s.endpoint ce ≡ none
      → IsSfcMap s.endpoint.sfc_map
      → IsSfcMap e.endpoint.sfc_map
      → (on_endpoint
          (add_entry backend ce args.socket_fd args.client_address ingress_t udp)
          (known args s)).0
        ≡ ok tt
      → (routes backend 0 (told int_to_ip ip_to_int backend kernel args (h, u) s)).0
        ≡ ok (first ∷ path)
      → Carries flh outward
      → args_e.pkt ≡ encode_header outward ++ args.pkt
      → args_e.pkt_len ≡ length args_e.pkt
      → Serves backend_e ce outward (byte ∷ bytes) first_e path_e e.endpoint
      → Others P ord int_to_ip ip_to_int backend kernel ce s' later
      → Carries back inward
      → args_b.pkt ≡ encode_header inward ++ (byte ∷ bytes)
      → args_b.pkt_len ≡ length args_b.pkt
      → (delivered s'.calls
          ≡ (encode_header flh ++ args.pkt, hop_peer book first) ∷ delivered s.calls)
        × ((h' : Iphdr) × (u' : Udphdr) × (retrieve_ip_udp_header
                (encode_iphdr h' ++ (encode_udphdr u' ++ cut_at_nul payload))
              ≡ ok (h', u'))
            × (h'.saddr ≡ ip_to_int (c_str e.endpoint.my_ip))
            × (h'.daddr ≡ ip_to_int (c_str (int_to_ip h.daddr)))
            × (u'.source ≡ htons e.endpoint.ext_port)
            × (u'.dest ≡ u.dest)
            × (delivered e'.calls
                ≡ (encode_header back ++ (byte ∷ bytes), hop_peer book_e first_e)
                  ∷ (
                    encode_iphdr h' ++ (encode_udphdr u' ++ cut_at_nul payload),
                    inet (server_of outward),
                  )
                  ∷ (ack, inet args_e.client_address)
                  ∷ delivered e.calls))
        × (delivered s''.calls
            ≡ (reply, inet args.client_address)
              ∷ (ack, inet args_b.client_address)
              ∷ delivered later.calls)
        × (retrieve_connection_2 s''.endpoint ce ≡ (negsuc 0, no_address))
unfolding packet_entry
answered P ord int_to_ip ip_to_int backend backend_e kernel kernel_e book book_e args args_e args_b
      h h_b u u_b payload reply datagram byte bytes rest first first_e path path_e outward inward s
      e later law address accepts accepts_e b d whole data_bytes small large room d_b filled short p
      kept absent sfc sfc_e added routed out packet_e whole_e serves others home packet_b whole_b =
    let ce = packet_entry int_to_ip (h, u) (codes "0") udp in
    let long : 20 < args.pkt_len = omega (arith, length-IsDatagram args.pkt h u payload d) in
    let entry = entry_outward int_to_ip ip_to_int law h u (first ∷ path) outward out in
    let entry_b =
      entry_inward int_to_ip ip_to_int law h u (first ∷ path) (first_e ∷ path_e) outward inward out
        home in
    let (_, sent) =
      delivered-entering int_to_ip ip_to_int backend kernel args book h u payload first path s
        accepts d.shape whole d.ip d.udp d.five d.seventeen long sfc added routed in
    let s' = (manage_entering_udp_packets int_to_ip ip_to_int backend kernel args s).1 in
    let conn : SockConn = (args.socket_fd, args.client_address) in
    let (has, kept', sfc') =
      connection-entering P ord int_to_ip ip_to_int backend kernel ce args h u payload s refl p d
        whole kept sfc absent in
    let (found, still, _) =
      connection-Others P ord int_to_ip ip_to_int backend kernel ce conn s' later p kept' sfc' has
        others in
    let (_, h', u', read, src, dst, sport, dport, goes) =
      delivered-served int_to_ip ip_to_int backend_e kernel_e book_e accepts_e args_e outward
        args.pkt h u payload datagram byte bytes rest first_e path_e e b address packet_e whole_e
        out.header d data_bytes small large room sfc_e
        (IsDatagram-IsPacket (byte ∷ bytes) h_b u_b reply d_b) short (rw entry serves) in
    let (to_client, gone) =
      delivered-client P ord int_to_ip backend kernel book args_b inward (byte ∷ bytes) h_b u_b
        reply ce conn later accepts packet_b whole_b home.header d_b filled entry_b p still
        (retrieve-connection later.endpoint ce conn found) in
    (
      sent,
      (
        h',
        u',
        read,
        src,
        dst ∙ ap (λ (x : ConnectionEntry). ip_to_int (c_str x.ip_dst)) entry,
        sport,
        dport
            ∙ ap (λ (x : ConnectionEntry). htons x.port_dst) entry
            ∙ htons-htons u.dest d.udp.dest,
        goes,
      ),
      to_client,
      gone,
    )
