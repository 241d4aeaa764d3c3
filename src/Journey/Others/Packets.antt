-- ===== src/Journey/Others/Packets.antt =====
-- Packets whose entries are known.
use ironhide.Base.{ℕ, ◌≡◌, ◌∙◌, ap, sym, List, length}
use ironhide.Base.Result.{ok}
use ironhide.Base.Exec.{returned}
use ironhide.Base.Text.{Text, codes}
use ironhide.Packet.{Iphdr, Tcphdr, Udphdr}
use ironhide.Packet.Retrieve.{retrieve_ip_udp_header}
use ironhide.Packet.RoundTrip.{retrieve_ip_udp_header-encode}
use ironhide.Classifier.{classify_pkt}
use ironhide.Entry.{ConnectionEntry}
use ironhide.Db.{udp}
use ironhide.Ingress.{UdpPktMngmntArgs, packet_entry}
use ironhide.Ingress.Kept.{Enters}
use ironhide.Ingress.Tcp.{connection_entry}
use ironhide.Ingress.Tcp.Kept.{Opens}
use ironhide.Ingress.Tcp.Sessions.{classified}
use ironhide.Ingress.Tcp.Segments.{IsSegment, IsSegment-IsPacket, read_segment}
use ironhide.Journey.{IsDatagram, IsDatagram-IsPacket}

module _ {ℓ} (P : ConnectionEntry → Type ℓ) (int_to_ip : ℕ → Text) where
  pub Enters-IsDatagram :
      (args : UdpPktMngmntArgs) (h : Iphdr) (u : Udphdr) (payload : List ℕ)
      → IsDatagram args.pkt h u payload
      → args.pkt_len ≡ length args.pkt
      → P (packet_entry int_to_ip (h, u) (codes "0") udp)
      → Enters P int_to_ip args
  Enters-IsDatagram args h u payload d whole q m sfcid headers sfc chosen read =
      let chain = (classified args.pkt m (IsDatagram-IsPacket args.pkt h u payload d) sfc).0 in
      let known = ap (λ n. (classify_pkt args.pkt n m).0) (sym whole) ∙ chosen in
      let both : retrieve_ip_udp_header args.pkt ≡ ok (h, u) =
        ap retrieve_ip_udp_header d.shape
        ∙ retrieve_ip_udp_header-encode h u payload d.ip d.udp d.five in
      returned (λ x. P (packet_entry int_to_ip x sfcid udp)) (ok (h, u)) headers
        (returned (λ t. P (packet_entry int_to_ip (h, u) t udp)) (ok (codes "0")) sfcid q
          (sym chain ∙ known))
        (sym both ∙ read)

  pub Opens-IsSegment :
      (pkt : List ℕ) (h : Iphdr) (t : Tcphdr) (payload : List ℕ)
      → IsSegment pkt h t payload
      → P (connection_entry int_to_ip (h, t) (codes "0"))
      → Opens P int_to_ip pkt
  Opens-IsSegment pkt h t payload d q m sfcid headers sfc chosen read =
      let chain = (classified pkt m (IsSegment-IsPacket pkt h t payload d) sfc).0 in
      returned (λ x. P (connection_entry int_to_ip x sfcid)) (ok (h, t)) headers
        (returned (λ x. P (connection_entry int_to_ip (h, t) x)) (ok (codes "0")) sfcid q
          (sym chain ∙ chosen))
        (sym (read_segment pkt h t payload d) ∙ read)
