-- ===== src/Egress/Answers.antt =====
-- The answer of a server goes back into the chain under the entry of the packet that it answers.
use ironhide.Base.{ℕ, ◌+◌, ◌≡◌, ◌<◌, ◌∙◌, refl, ap, true, List, ◌∷◌, ◌++◌, ltb, lt→ltb, length}
use ironhide.Base.Result.{ok}
use ironhide.Base.Int.{ℤ, pos}
use ironhide.Base.Text.{Text, codes, c_str, stoi}
use ironhide.Sfc.{
  SfcHeader, IsHeader, encode_header, create_header, retrieve_header, retrieve_payload,
}
use ironhide.Sfc.RoundTrip.{retrieve_header_lem, retrieve_payload_lem}
use ironhide.Classifier.{classify_pkt}
use ironhide.Classifier.Chains.{IsSfcMap}
use ironhide.Db.{ProtocolType}
use ironhide.Db.Address.{Address}
use ironhide.Db.Roulette.Backend.{Backend}
use ironhide.Socket.{Kernel, Calls, Peer}
use ironhide.Socket.Held.{delivered, said, connections}
use ironhide.Client.Udp.Delivery.{Accepts, Book}
use ironhide.Process.{
  Process, Stream, receives, on_classifier, on_endpoint, on_calls, routes, receive_one, buffer_size,
}
use ironhide.Hop.{hop_header, chain_entry}
use ironhide.Hop.Messages.{hop_header-IsHeader}
use ironhide.Hop.Delivery.{hop_peer, delivered-forward}
use ironhide.Ingress.Tcp.Sessions.{IsPacket, classified}
use ironhide.Egress.{answer_header, forward_answer, udp_answers, tcp_answers}

-- The answer bears the entry of the packet, for the ingress to find the client by.
pub chain_entry-answer_header :
    (int_to_ip : ℕ → Text) (ip_to_int : Text → ℕ) (header : SfcHeader) (path : List Address)
    (prt : ProtocolType)
    → ((x : ℕ) → int_to_ip (ip_to_int (c_str (int_to_ip x))) ≡ int_to_ip x)
    → header.p_id ≡ 0
    → chain_entry int_to_ip (answer_header int_to_ip ip_to_int header 0 path) prt
      ≡ chain_entry int_to_ip header prt
unfolding chain_entry answer_header hop_header create_header
chain_entry-answer_header int_to_ip ip_to_int header path prt law zero =
    rw (law header.source_address, law header.destination_address, zero)

pub answer_header-IsHeader :
    (int_to_ip : ℕ → Text) (ip_to_int : Text → ℕ) (header : SfcHeader) (path : List Address)
    → ((t : Text) → ip_to_int t < 4294967296)
    → IsHeader header
    → IsHeader (answer_header int_to_ip ip_to_int header 0 path)
unfolding answer_header
answer_header-IsHeader int_to_ip ip_to_int header path address v =
    hop_header-IsHeader ip_to_int 0 (c_str (int_to_ip header.source_address)) header.source_port
      (c_str (int_to_ip header.destination_address)) header.destination_port 1 path address
      v.source_port v.destination_port

direction-answer_header :
    (int_to_ip : ℕ → Text) (ip_to_int : Text → ℕ) (header : SfcHeader) (path : List Address)
    → (answer_header int_to_ip ip_to_int header 0 path).direction_flag ≡ 1
unfolding answer_header hop_header create_header
direction-answer_header int_to_ip ip_to_int header path = refl

zero_id : stoi (codes "0") ≡ ok 0
unfolding stoi
zero_id = refl

routes-calls :
    (backend : Backend) (p_id : ℕ) (s : Process) → (routes backend p_id s).1.calls ≡ s.calls
unfolding routes on_endpoint
routes-calls backend p_id s = refl

-- The state in which the route of an answer is asked for.
abbrev pub asking : List ℕ → Process → Process
asking buffer s = record s {
  endpoint = record s.endpoint {
    sfc_map = (classify_pkt buffer (length buffer) s.endpoint.sfc_map).1;
  };
}

module _ (int_to_ip : ℕ → Text) (ip_to_int : Text → ℕ) (backend : Backend) (kernel : Kernel)
    (book : Book) (accepts : Accepts kernel book) where
  delivered-forward_answer :
      (header : SfcHeader) (buffer : List ℕ) (first : Address) (path : List Address) (s : Process)
      → IsPacket buffer
      → IsSfcMap s.endpoint.sfc_map
      → (routes backend 0 (asking buffer s)).0 ≡ ok (first ∷ path)
      → let flh = answer_header int_to_ip ip_to_int header 0 (first ∷ path) in
        let (r, s') = forward_answer int_to_ip ip_to_int backend kernel header buffer s in
        (r ≡ ok true)
        × (delivered s'.calls
            ≡ (encode_header flh ++ buffer, hop_peer book first) ∷ delivered s.calls)
        × (said s'.calls ≡ said s.calls)
        × (sock : ℤ) × (connections s'.calls ≡ (sock, hop_peer book first) ∷ connections s.calls)
  unfolding forward_answer on_classifier
  delivered-forward_answer header buffer first path s p m routed =
      let chain = (classified buffer s.endpoint.sfc_map p m).0 in
      let (done, sent, quiet, sock, joined) =
        delivered-forward kernel book buffer (answer_header int_to_ip ip_to_int header 0) first path
          (routes backend 0 (asking buffer s)).1 accepts in
      let same = ap delivered (routes-calls backend 0 (asking buffer s)) in
      rw (chain, zero_id, routed)
        (
          done,
          sent
              ∙ ap
                  (λ l.
                    (
                      encode_header (answer_header int_to_ip ip_to_int header 0 (first ∷ path))
                          ++ buffer,
                      hop_peer book first,
                    )
                    ∷ l)
                  same,
          quiet ∙ ap said (routes-calls backend 0 (asking buffer s)),
          sock,
          joined
              ∙ ap (λ (c : Calls). (sock, hop_peer book first) ∷ connections c)
                  (routes-calls backend 0 (asking buffer s)),
        )

  -- Both loops send the answer and end.
  pub delivered-loops :
      (fd : ℤ) (header : SfcHeader) (byte : ℕ) (bytes : List ℕ) (rest : Stream) (first : Address)
      (path : List Address) (s : Process)
      → IsPacket (byte ∷ bytes)
      → length (byte ∷ bytes) < buffer_size
      → IsSfcMap s.endpoint.sfc_map
      → (routes backend 0 (
          asking
            (byte ∷ bytes)
            (receive_one fd (pos (length (byte ∷ bytes))) (byte ∷ bytes) s).1)).0
        ≡ ok (first ∷ path)
      → let h = answer_header int_to_ip ip_to_int header 0 (first ∷ path) in
        let message : List ℕ × Peer = (encode_header h ++ (byte ∷ bytes), hop_peer book first) in
        (let (r, s') =
            udp_answers int_to_ip ip_to_int backend kernel fd header (receives byte bytes rest) s in
          (r ≡ ok tt) × (delivered s'.calls ≡ message ∷ delivered s.calls))
        × (let (r, s') =
              tcp_answers int_to_ip ip_to_int backend kernel fd header
                (receives byte bytes rest)
                s in
            (r ≡ ok tt)
            × (delivered s'.calls ≡ message ∷ delivered s.calls)
            × (said s'.calls ≡ said s.calls)
            × (sock : ℤ) × (connections s'.calls
                ≡ (sock, hop_peer book first) ∷ connections s.calls))
  unfolding udp_answers tcp_answers receive_one on_calls delivered said connections
  delivered-loops fd header byte bytes rest first path s p short m routed =
      let answer = byte ∷ bytes in
      let received = (receive_one fd (pos (length answer)) answer s).1 in
      let (done, sent, quiet, sock, joined) =
        delivered-forward_answer header answer first path received p m routed in
      let is_short : ltb (length answer) buffer_size ≡ true =
        lt→ltb (length answer) buffer_size short in
      (rw (done, is_short) (refl, sent), rw (done, is_short) (refl, sent, quiet, sock, joined))

  -- An answer of a server, shorter than the buffer and with a route, goes to the first address of
  -- the path in one message, over either loop, and the loop ends. The hop reads off the message the
  -- answer and a header of the other direction, under which the entry is that of the packet that
  -- was answered. The packet was of the chain 0 and its header fits its fields; the answer is a
  -- packet that the classifier knows, whose map is as it keeps it; addresses have 32 bits, and
  -- inet_addr inverts inet_ntoa; and the system does as it is asked.
  pub delivered-answers :
      (fd : ℤ) (header : SfcHeader) (byte : ℕ) (bytes : List ℕ) (rest : Stream) (first : Address)
      (path : List Address) (prt : ProtocolType) (s : Process)
      → ((x : ℕ) → int_to_ip (ip_to_int (c_str (int_to_ip x))) ≡ int_to_ip x)
      → ((t : Text) → ip_to_int t < 4294967296)
      → IsHeader header
      → header.p_id ≡ 0
      → IsPacket (byte ∷ bytes)
      → length (byte ∷ bytes) < buffer_size
      → IsSfcMap s.endpoint.sfc_map
      → (routes backend 0 (
          asking
            (byte ∷ bytes)
            (receive_one fd (pos (length (byte ∷ bytes))) (byte ∷ bytes) s).1)).0
        ≡ ok (first ∷ path)
      → let answer = byte ∷ bytes in
        (out : List ℕ) × (h : SfcHeader) × (retrieve_header out ≡ ok h)
        × (retrieve_payload out (length answer + 24) ≡ ok answer)
        × (h.direction_flag ≡ 1)
        × (chain_entry int_to_ip h prt ≡ chain_entry int_to_ip header prt)
        × (let (r, s') =
              udp_answers int_to_ip ip_to_int backend kernel fd header
                (receives byte bytes rest)
                s in
            (r ≡ ok tt) × (delivered s'.calls ≡ (out, hop_peer book first) ∷ delivered s.calls))
        × (let (r, s') =
              tcp_answers int_to_ip ip_to_int backend kernel fd header
                (receives byte bytes rest)
                s in
            (r ≡ ok tt) × (delivered s'.calls ≡ (out, hop_peer book first) ∷ delivered s.calls))
  delivered-answers fd header byte bytes rest first path prt s law address v zero p short m routed =
      let answer = byte ∷ bytes in
      let h = answer_header int_to_ip ip_to_int header 0 (first ∷ path) in
      let (over_udp, over_tcp) =
        delivered-loops fd header byte bytes rest first path s p short m routed in
      (
        encode_header h ++ answer,
        h,
        retrieve_header_lem h answer
            (answer_header-IsHeader int_to_ip ip_to_int header (first ∷ path) address v),
        retrieve_payload_lem h answer,
        direction-answer_header int_to_ip ip_to_int header (first ∷ path),
        chain_entry-answer_header int_to_ip ip_to_int header (first ∷ path) prt law zero,
        over_udp,
        (over_tcp.0, over_tcp.1),
      )
