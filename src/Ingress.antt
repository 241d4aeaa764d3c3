-- ===== src/Ingress.antt =====
-- src/endpoint/ingress.cpp: the handler of UDP packets that enter the chain.
pub mod Clients
pub mod Delivery
pub mod Messages
pub mod Chain
pub mod Kept
pub mod Tcp
use ironhide.Base.{ℕ, List, [], ◌∷◌}
use ironhide.Base.Int.{ℤ}
use ironhide.Base.Exec.{Exec, pure, lift, ◌>>=◌, ◌>>◌}
use ironhide.Base.Text.{Text, stoi, c_str}
use ironhide.Wire.{htons}
use ironhide.Packet.{Iphdr, Udphdr}
use ironhide.Packet.Retrieve.{retrieve_ip_udp_header}
use ironhide.Sfc.{SfcHeader}
use ironhide.Entry.{ConnectionEntry}
use ironhide.Classifier.{classify_pkt}
use ironhide.Db.{ProtocolType, udp, ingress_t}
use ironhide.Db.Address.{Address}
use ironhide.Db.Roulette.Backend.{Backend}
use ironhide.Endpoint.State.{add_entry}
use ironhide.Socket.{Kernel, SockaddrIn}
use ironhide.Process.{Process, on_classifier, on_endpoint, routes}
use ironhide.Hop.{hop_header, forward}

-- udp_pkt_mngmnt_args of src/server/serverudp.h
pub record UdpPktMngmntArgs : Type 0 where
  pub socket_fd : ℤ
  pub client_address : SockaddrIn
  pub pkt : List ℕ
  pub pkt_len : ℕ

-- The entry of a packet that enters.
unfoldable pub packet_entry : (ℕ → Text) → Iphdr × Udphdr → Text → ProtocolType → ConnectionEntry
packet_entry int_to_ip headers sfcid prt = record {
  ip_src = int_to_ip headers.0.saddr;
  ip_dst = int_to_ip headers.0.daddr;
  port_src = htons headers.1.source;
  port_dst = htons headers.1.dest;
  sfcid = sfcid;
  prt = prt;
}

-- The header for the first hop of a packet that enters.
unfoldable pub udp_header : (ℕ → Text) → (Text → ℕ) → Iphdr × Udphdr → ℕ → List Address → SfcHeader
unfolding hop_header
udp_header int_to_ip ip_to_int headers p_id path =
    hop_header ip_to_int p_id (c_str (int_to_ip headers.0.saddr)) headers.1.source
      (c_str (int_to_ip headers.0.daddr)) headers.1.dest 0 path

module _ (int_to_ip : ℕ → Text) (ip_to_int : Text → ℕ) (backend : Backend) (kernel : Kernel) where
  -- What follows add_entry in manage_entering_udp_packets.
  unfoldable pub route : UdpPktMngmntArgs → Iphdr × Udphdr → Text → Exec Process (Unit {0})
  unfolding routes forward
  route args headers sfcid = do
    p_id ← lift (stoi sfcid)
    path ← routes backend p_id
    sent ← forward kernel args.pkt args.pkt_len (udp_header int_to_ip ip_to_int headers p_id) path
    pure tt

  -- manage_entering_udp_packets
  unfoldable pub manage_entering_udp_packets : UdpPktMngmntArgs → Exec Process (Unit {0})
  unfolding on_classifier on_endpoint packet_entry route
  manage_entering_udp_packets args = do
    sfcid ← on_classifier (classify_pkt args.pkt args.pkt_len)
    headers ← lift (retrieve_ip_udp_header args.pkt)
    on_endpoint (
        add_entry backend (packet_entry int_to_ip headers sfcid udp) args.socket_fd
          args.client_address ingress_t udp)
    route args headers sfcid
