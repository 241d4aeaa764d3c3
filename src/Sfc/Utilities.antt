-- ===== src/Sfc/Utilities.antt =====
-- src/endpoint/utils/sfcutilities.h and sfcutilities.cpp.
use ironhide.Base.{ℕ, ◌-◌, ◌%◌, List, ◌++◌, drop, take, ltb, if◌then◌else◌}
use ironhide.Base.Result.{Result, ok, err, fault, ◌>>=◌}
use ironhide.Base.Text.{Text}
use ironhide.Wire.{memcpy}
use ironhide.Packet.{zeros}
use ironhide.Sfc.Header.{SfcHeader, header_size, decode_header, encode_header}

-- create_header; `ip_to_int` is that of utils::PacketUtils, a call of inet_addr. An assignment to a
-- bit-field keeps the low bits of the value.
unfoldable pub create_header : (Text → ℕ) → ℕ → ℕ → Text → ℕ → Text → ℕ → ℕ → ℕ → SfcHeader
create_header ip_to_int service_path_id service_index source_address source_port dest_address
      dest_port ttl direction =
    record {
      ver = 0;
      oam = 0;
      u1 = 0;
      ttl = ttl % 64;
      len = 0;
      u2 = 0;
      md_type = 1;
      prot = 1;
      p_id = service_path_id % 16777216;
      si = service_index % 256;
      source_address = ip_to_int source_address;
      destination_address = ip_to_int dest_address;
      source_port = source_port;
      destination_port = dest_port;
      direction_flag = direction % 2;
      other = 0;
    }

-- prepend_header, into the buffer that `pkt_w_header` points to.
unfoldable pub prepend_header : List ℕ → ℕ → SfcHeader → List ℕ → Result (List ℕ)
prepend_header no_header_pkt pkt_size header pkt_w_header = do
  with_header ← memcpy pkt_w_header (encode_header header) header_size
  payload ← memcpy (drop header_size with_header) no_header_pkt pkt_size
  ok (take header_size with_header ++ payload)

-- retrieve_header
unfoldable pub retrieve_header : List ℕ → Result SfcHeader
retrieve_header packet = do
  header ← memcpy (zeros header_size) packet header_size
  ok (decode_header header)

-- retrieve_payload: `size` is unsigned, so a size below 24 wraps to a length that no buffer has.
unfoldable pub retrieve_payload : List ℕ → ℕ → Result (List ℕ)
retrieve_payload packet size =
    if ltb size header_size
    then err fault
    else memcpy (zeros (size - header_size)) (drop header_size packet) (size - header_size)
