-- ===== src/Journey/Back.antt =====
-- The answer that comes back from the chain reaches its client, and the entry is gone.
use ironhide.Base.{ℕ, ◌≡◌, ◌<◌, ◌∙◌, ap, List, ◌∷◌, ◌++◌, length, arith, refl}
use ironhide.Base.Text.{Text}
use ironhide.Packet.{Iphdr, Udphdr}
use ironhide.Sfc.{SfcHeader, IsHeader, encode_header}
use ironhide.Db.{udp}
use ironhide.Db.Roulette.Backend.{Backend}
use ironhide.Endpoint.State.{delete_entry, retrieve_connection_2}
use ironhide.Socket.{Kernel, sendto, inet, call, call_}
use ironhide.Socket.Held.{delivered}
use ironhide.Client.Udp.Delivery.{Accepts, Book, positive_tests}
use ironhide.Process.{Process, on_endpoint, on_calls, sys, sys_, ack}
use ironhide.Hop.{chain_entry}
use ironhide.Ingress.{UdpPktMngmntArgs}
use ironhide.Ingress.Chain.{manage_pkt_from_chain}
use ironhide.Ingress.Chain.Answers.{manage_pkt_from_chain-udp}
use ironhide.Journey.{IsDatagram}

-- The payload goes to the client of the entry, and the entry is deleted.
pub delivered-back :
    (int_to_ip : ℕ → Text) (backend : Backend) (kernel : Kernel) (book : Book)
    (args : UdpPktMngmntArgs) (header : SfcHeader) (answer : List ℕ) (h : Iphdr) (u : Udphdr)
    (reply : List ℕ) (s : Process)
    → Accepts kernel book
    → args.pkt ≡ encode_header header ++ answer
    → args.pkt_len ≡ length args.pkt
    → IsHeader header
    → IsDatagram answer h u reply
    → 0 < length reply
    → let ce = chain_entry int_to_ip header udp in
      let s' = (manage_pkt_from_chain int_to_ip backend kernel args s).1 in
      (delivered s'.calls
        ≡ (reply, inet (retrieve_connection_2 s.endpoint ce).1)
          ∷ (ack, inet args.client_address)
          ∷ delivered s.calls)
      × (s'.endpoint ≡ (delete_entry backend ce s.endpoint).1)
unfolding sys sys_ on_calls call call_ on_endpoint delivered
delivered-back int_to_ip backend kernel book args header answer h u reply s accepts packet whole hd
      d some =
    let ce = chain_entry int_to_ip header udp in
    let sock = retrieve_connection_2 s.endpoint ce in
    let acked : Process = record s {
      calls =
          (
            sendto args.socket_fd ack (inet args.client_address),
            kernel s.calls (sendto args.socket_fd ack (inet args.client_address)),
          )
          ∷ s.calls;
    } in
    let first = accepts.sends s.calls args.socket_fd ack (inet args.client_address) (omega arith) in
    let second = accepts.sends acked.calls sock.0 reply (inet sock.1) some in
    let goes = (positive_tests _ second).0 in
    let runs =
      manage_pkt_from_chain-udp int_to_ip backend kernel args header h u reply s
        (packet ∙ ap (λ l. encode_header header ++ l) d.shape) whole hd d.ip d.five d.seventeen in
    rw (runs, goes, second, first) (refl, refl)
