-- ===== src/Sfc/FixedLength.antt =====
-- src/endpoint/utils/sfcfixedlengthheader.h and .cpp: a class around one header.
use ironhide.Base.{ℕ, ◌%◌, List}
use ironhide.Base.Result.{Result, ok, ◌>>=◌}
use ironhide.Base.Text.{Text}
use ironhide.Wire.{memcpy}
use ironhide.Packet.{zeros}
use ironhide.Sfc.Header.{SfcHeader, header_size, decode_header}

pub record SfcFixedLengthHeader : Type 0 where
  pub header : SfcHeader

-- Both constructors copy the header out of an array of bytes.
unfoldable pub from_bytes : List ℕ → Result SfcFixedLengthHeader
from_bytes byte_array = do
  header ← memcpy (zeros header_size) byte_array header_size
  ok (record { header = decode_header header })

unfoldable pub get_service_path_id : SfcFixedLengthHeader → ℕ
get_service_path_id f = f.header.p_id

unfoldable pub get_service_index : SfcFixedLengthHeader → ℕ
get_service_index f = f.header.si

-- `int_to_ip` is that of utils::PacketUtils, a call of inet_ntoa.
unfoldable pub get_source_ip_address : (ℕ → Text) → SfcFixedLengthHeader → Text
get_source_ip_address int_to_ip f = int_to_ip f.header.source_address

unfoldable pub get_destination_ip_address : (ℕ → Text) → SfcFixedLengthHeader → Text
get_destination_ip_address int_to_ip f = int_to_ip f.header.destination_address

unfoldable pub get_source_port : SfcFixedLengthHeader → ℕ
get_source_port f = f.header.source_port

unfoldable pub get_destination_port : SfcFixedLengthHeader → ℕ
get_destination_port f = f.header.destination_port

unfoldable pub get_direction_flag : SfcFixedLengthHeader → ℕ
get_direction_flag f = f.header.direction_flag

unfoldable pub get_ttl : SfcFixedLengthHeader → ℕ
get_ttl f = f.header.ttl

-- The setters assign to bit-fields, which keep the low bits.
unfoldable pub set_service_index : SfcFixedLengthHeader → ℕ → SfcFixedLengthHeader
set_service_index f service_index = record { header = record f.header { si = service_index % 256 } }

unfoldable pub set_ttl : SfcFixedLengthHeader → ℕ → SfcFixedLengthHeader
set_ttl f ttl = record { header = record f.header { ttl = ttl % 64 } }

unfoldable pub get_header : SfcFixedLengthHeader → SfcHeader
get_header f = f.header
