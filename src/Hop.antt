-- ===== src/Hop.antt =====
-- src/endpoint/ingress.cpp and egress.cpp: what all handlers share when they send a packet to the
-- first address of its path.
pub mod Messages
pub mod Delivery
pub mod Kept
use ironhide.Base.{ℕ, ◌+◌, Bool, true, false, List, [], ◌∷◌, length}
use ironhide.Base.Exec.{Exec, pure, lift, ◌>>=◌, ◌>>◌}
use ironhide.Base.Text.{Text, c_str, to_string}
use ironhide.Wire.{u16, htons}
use ironhide.Packet.{zeros}
use ironhide.Sfc.{SfcHeader, header_size, create_header, prepend_header}
use ironhide.Entry.{ConnectionEntry}
use ironhide.Db.{ProtocolType}
use ironhide.Db.Address.{Address}
use ironhide.Socket.{Kernel}
use ironhide.Client.Udp.{send_and_wait_response}
use ironhide.Process.{Process, on_calls}

-- The header for the first hop: two hops more than the path, for ingress and egress.
unfoldable pub hop_header : (Text → ℕ) → ℕ → Text → ℕ → Text → ℕ → ℕ → List Address → SfcHeader
unfolding create_header
hop_header ip_to_int p_id src sport dst dport direction path =
    create_header ip_to_int p_id 0 src sport dst dport (u16 (length path + 2)) direction

-- The entry of a packet from the chain.
unfoldable pub chain_entry : (ℕ → Text) → SfcHeader → ProtocolType → ConnectionEntry
chain_entry int_to_ip header conn_type = record {
  ip_src = int_to_ip header.source_address;
  ip_dst = int_to_ip header.destination_address;
  port_src = htons header.source_port;
  port_dst = htons header.destination_port;
  sfcid = to_string header.p_id;
  prt = conn_type;
}

-- The packet goes to the first address of the path, if there is one.
unfoldable pub forward :
    Kernel → List ℕ → ℕ → (List Address → SfcHeader) → List Address → Exec Process Bool
unfolding on_calls
forward kernel pkt pkt_len flh [] = pure false
forward kernel pkt pkt_len flh (first ∷ path) = do
  p ← lift (prepend_header pkt pkt_len (flh (first ∷ path)) (zeros (pkt_len + header_size)))
  on_calls (
      send_and_wait_response kernel p (pkt_len + header_size) (c_str first.address)
        (u16 first.port))
  pure true
