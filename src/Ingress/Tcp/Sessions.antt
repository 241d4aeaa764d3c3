-- ===== src/Ingress/Tcp/Sessions.antt =====
-- What becomes of the packets of a connection after the first.
use ironhide.Base.{
  ℕ, ◌≡◌, ◌<◌, ◌∙◌, refl, ap, true, false, List, ◌∷◌, ◌++◌, ◌&&◌, ◌||◌, ◌==◌, ltb, lt→ltb, length,
  if◌then◌else◌,
}
use ironhide.Base.Result.{ok, err, out_of_range}
use ironhide.Base.Int.{pos}
use ironhide.Base.Text.{Text, codes, text_eq, c_str}
use ironhide.Packet.{Iphdr, IsIphdr, encode_iphdr}
use ironhide.Classifier.{SfcMap, classify_pkt}
use ironhide.Classifier.Chains.{IsSfcMap, classify_pkt_lem}
use ironhide.Db.Roulette.Backend.{Backend}
use ironhide.Socket.{Kernel}
use ironhide.Socket.Held.{delivered}
use ironhide.Process.{
  Process, Stream, closes, fails, receives, on_classifier, on_calls, receive_one,
}
use ironhide.Ingress.Tcp.{TcpPktMngmntArgs, Locals, manage_packet, receive_loop}

-- A packet that the classifier knows: TCP or UDP behind an IP header of five words.
pub record IsPacket (pkt : List ℕ) : Type 0 where
  pub h : Iphdr
  pub rest : List ℕ
  pub shape : pkt ≡ encode_iphdr h ++ rest
  pub header : IsIphdr h
  pub five : h.ihl ≡ 5
  pub long : 20 < length pkt
  pub known : (h.protocol == 6 || h.protocol == 17) ≡ true

-- A connection that brings such packets, one with each receive, and is closed by the client.
pub data IsSession : Stream → Type 0 where
  ends : IsSession closes
  more :
      {byte : ℕ} {bytes : List ℕ} {rest : Stream}
      → IsPacket (byte ∷ bytes)
      → IsSession rest
      → IsSession (receives byte bytes rest)

pub classified :
    (pkt : List ℕ) (m : SfcMap)
    → IsPacket pkt
    → IsSfcMap m
    → ((classify_pkt pkt (length pkt) m).0 ≡ ok (codes "0"))
      × IsSfcMap (classify_pkt pkt (length pkt) m).1
classified pkt m p v =
    let chosen : (if ltb 20 (length pkt) && (p.h.protocol == 6 || p.h.protocol == 17)
          then ok (codes "0")
          else err out_of_range)
        ≡ ok (codes "0") =
      rw (p.known, lt→ltb 20 (length pkt) p.long) in
    let (chain, kept) = classify_pkt_lem m p.h p.rest (length pkt) v p.header p.five in
    (
      rw (ap (λ x. classify_pkt x (length pkt) m) p.shape) chain ∙ chosen,
      rw (ap (λ x. classify_pkt x (length pkt) m) p.shape) kept,
    )

-- The local variables after a packet of the chain "0" has been forwarded.
pub record IsForwarding (v : Locals) : Type 0 where
  pub sfcid : v.sfcid ≡ codes "0"
  pub prev_sfcid : v.prev_sfcid ≡ codes "0"
  pub first_pkt : v.first_pkt ≡ false

module _ (int_to_ip : ℕ → Text) (ip_to_int : Text → ℕ) (backend : Backend) (kernel : Kernel)
    (args : TcpPktMngmntArgs) where
  manage_packet-later :
      (pkt : List ℕ) (v : Locals) (s : Process)
      → IsPacket pkt
      → IsForwarding v
      → IsSfcMap s.endpoint.sfc_map
      → manage_packet int_to_ip ip_to_int backend kernel args pkt v s ≡ (
        ok (v, true),
        record s {
          endpoint = record s.endpoint {
            sfc_map = (classify_pkt pkt (length pkt) s.endpoint.sfc_map).1;
          };
        },
      )
  unfolding manage_packet on_classifier text_eq c_str
  manage_packet-later pkt v s p f m =
      let chain = (classified pkt s.endpoint.sfc_map p m).0 in
      rw (chain, f.first_pkt, f.prev_sfcid, f.sfcid)

  -- Once a packet of the chain "0" has been forwarded for a connection, no later one is, as long as
  -- each receive gives one packet of TCP or UDP behind an IP header of five words: until the client
  -- closes the connection nothing is sent, the connections of the endpoint and its exchanges with
  -- the service stay as they are, and so do the local variables. The classifier's map is as it
  -- keeps it.
  pub receive_loop-later :
      (stream : Stream) (v : Locals) (s : Process)
      → IsSession stream
      → IsForwarding v
      → IsSfcMap s.endpoint.sfc_map
      → let (r, s') = receive_loop int_to_ip ip_to_int backend kernel args stream v s in
        (r ≡ ok (v, true))
        × (delivered s'.calls ≡ delivered s.calls)
        × (s'.endpoint.connection_map ≡ s.endpoint.connection_map)
        × (s'.endpoint.net ≡ s.endpoint.net)
  unfolding receive_loop receive_one on_calls delivered
  receive_loop-later closes v s ends f m = (refl, refl, refl, refl)
  receive_loop-later fails v s session f m = elim session [ ]
  receive_loop-later (receives byte bytes rest) v s (more p session) f m =
      let pkt = byte ∷ bytes in
      let received = (receive_one args.new_socket_fd (pos (length pkt)) pkt s).1 in
      let after : Process = record received {
        endpoint = record s.endpoint {
          sfc_map = (classify_pkt pkt (length pkt) s.endpoint.sfc_map).1;
        };
      } in
      let kept = (classified pkt s.endpoint.sfc_map p m).1 in
      rw (manage_packet-later pkt v received p f m) (receive_loop-later rest v after session f kept)
