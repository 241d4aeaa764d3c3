-- ===== src/Packet.antt =====
-- src/utils/packetutils.h and packetutils.cpp: the IP, TCP and UDP headers at the front of a packet,
-- the checksum, and the packets that the egress forges.
mod Headers
pub mod Checksum
pub mod Forge
pub mod Retrieve
pub mod RoundTrip
unfoldable pub use Headers.*
