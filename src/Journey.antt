-- ===== src/Journey.antt =====
-- What a UDP packet and the answer to it go through: the ingress, the functions of the chain, the
-- egress, the server, and back.
pub mod Answered
pub mod Back
pub mod Datagram
pub mod Others
pub mod Served
pub mod Streamed
pub mod Conversed
use ironhide.Base.{
  ℕ, ◌+◌, ◌≡◌, ◌<◌, ◌∙◌, sym, refl, ap, List, ◌++◌, length, arith, true, ◌==◌, ◌||◌,
}
use ironhide.Base.Text.{Text}
use ironhide.Packet.{Iphdr, IsIphdr, Udphdr, IsUdphdr, encode_iphdr, encode_udphdr}
use ironhide.Packet.RoundTrip.{length_udp}
use ironhide.Sfc.{SfcHeader, IsHeader}
use ironhide.Db.{ProtocolType}
use ironhide.Hop.{chain_entry}
use ironhide.Ingress.Tcp.Sessions.{IsPacket}

-- What the functions of the chain make of a header: they count down its time to live and mark it
-- as they like, but who it is for and the chain it is in they leave.
pub record Carries (sent arrived : SfcHeader) : Type 0 where
  pub header : IsHeader arrived
  pub p_id : arrived.p_id ≡ sent.p_id
  pub source_address : arrived.source_address ≡ sent.source_address
  pub destination_address : arrived.destination_address ≡ sent.destination_address
  pub source_port : arrived.source_port ≡ sent.source_port
  pub destination_port : arrived.destination_port ≡ sent.destination_port

pub chain_entry-Carries :
    (int_to_ip : ℕ → Text) (sent arrived : SfcHeader) (prt : ProtocolType)
    → Carries sent arrived
    → chain_entry int_to_ip arrived prt ≡ chain_entry int_to_ip sent prt
unfolding chain_entry
chain_entry-Carries int_to_ip sent arrived prt c =
    rw (c.p_id, c.source_address, c.destination_address, c.source_port, c.destination_port)

-- A UDP packet without IP options.
pub record IsDatagram (pkt : List ℕ) (h : Iphdr) (u : Udphdr) (payload : List ℕ) : Type 0 where
  pub shape : pkt ≡ encode_iphdr h ++ (encode_udphdr u ++ payload)
  pub ip : IsIphdr h
  pub udp : IsUdphdr u
  pub five : h.ihl ≡ 5
  pub seventeen : h.protocol ≡ 17

pub length-IsDatagram :
    (pkt : List ℕ) (h : Iphdr) (u : Udphdr) (payload : List ℕ)
    → IsDatagram pkt h u payload
    → length pkt ≡ 28 + length payload
length-IsDatagram pkt h u payload d = ap length d.shape ∙ length_udp h u payload

pub IsDatagram-IsPacket :
    (pkt : List ℕ) (h : Iphdr) (u : Udphdr) (payload : List ℕ)
    → IsDatagram pkt h u payload
    → IsPacket pkt
IsDatagram-IsPacket pkt h u payload d =
    let known : (h.protocol == 6 || h.protocol == 17) ≡ true = rw (d.seventeen) in
    record {
      h = h;
      rest = encode_udphdr u ++ payload;
      shape = d.shape;
      header = d.ip;
      five = d.five;
      long = omega (arith, length-IsDatagram pkt h u payload d);
      known = known;
    }
