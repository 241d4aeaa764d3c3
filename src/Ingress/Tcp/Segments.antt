-- ===== src/Ingress/Tcp/Segments.antt =====
-- TCP packets without options, as the packets of a connection.
use ironhide.Base.{ℕ, ◌≡◌, ◌≤◌, ◌∙◌, ap, true, List, ◌++◌, ◌==◌, ◌||◌, length, arith, if◌then◌else◌}
use ironhide.Base.Result.{ok, err, fault}
use ironhide.Packet.{Iphdr, IsIphdr, Tcphdr, IsTcphdr, encode_iphdr, encode_tcphdr}
use ironhide.Packet.Retrieve.{retrieve_ip_tcp_header}
use ironhide.Packet.RoundTrip.{retrieve_ip_tcp_header-encode, length_tcp}
use ironhide.Ingress.Tcp.Sessions.{IsPacket}

-- A TCP packet without options.
pub record IsSegment (pkt : List ℕ) (h : Iphdr) (t : Tcphdr) (payload : List ℕ) : Type 0 where
  pub shape : pkt ≡ encode_iphdr h ++ (encode_tcphdr t ++ payload)
  pub ip : IsIphdr h
  pub tcp : IsTcphdr t
  pub five : h.ihl ≡ 5
  pub words : t.doff ≡ 5
  pub six : h.protocol ≡ 6

pub IsSegment-IsPacket :
    (pkt : List ℕ) (h : Iphdr) (t : Tcphdr) (payload : List ℕ)
    → IsSegment pkt h t payload
    → IsPacket pkt
IsSegment-IsPacket pkt h t payload d =
    let known : (h.protocol == 6 || h.protocol == 17) ≡ true = rw (d.six) in
    record {
      h = h;
      rest = encode_tcphdr t ++ payload;
      shape = d.shape;
      header = d.ip;
      five = d.five;
      long = omega (arith, ap length d.shape, length_tcp h t payload);
      known = known;
    }

pub read_segment :
    (pkt : List ℕ) (h : Iphdr) (t : Tcphdr) (payload : List ℕ)
    → IsSegment pkt h t payload
    → retrieve_ip_tcp_header pkt ≡ ok (h, t)
read_segment pkt h t payload d =
    let five : 5 ≤ t.doff = omega (arith, d.words) in
    let chosen : (if t.doff == 5 then ok (h, t) else err fault) ≡ ok (h, t) = rw (d.words) in
    ap retrieve_ip_tcp_header d.shape
    ∙ retrieve_ip_tcp_header-encode h t payload d.ip d.tcp d.five five
    ∙ chosen
