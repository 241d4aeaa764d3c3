-- ===== src/Sfc/Header.antt =====
-- src/endpoint/utils/sfcheaderstruct.h: the packed structure of 24 bytes. Bit-fields start at the
-- low bit of their unit, and in a packed structure `other` follows `direction_flag` at once.
use ironhide.Base.{ℕ, ◌+◌, ◌*◌, ◌/◌, ◌%◌, ◌<◌, List, [], ◌∷◌}
use ironhide.Packet.{byte_at, word_at, long_at, put16, put32}

-- struct sfc_header
pub record SfcHeader : Type 0 where
  pub ver : ℕ
  pub oam : ℕ
  pub u1 : ℕ
  pub ttl : ℕ
  pub len : ℕ
  pub u2 : ℕ
  pub md_type : ℕ
  pub prot : ℕ
  pub p_id : ℕ
  pub si : ℕ
  pub source_address : ℕ
  pub destination_address : ℕ
  pub source_port : ℕ
  pub destination_port : ℕ
  pub direction_flag : ℕ
  pub other : ℕ

-- sizeof(struct sfc_header)
abbrev pub header_size : ℕ
header_size = 24

-- The structure that lies in 24 bytes of memory.
unfoldable pub decode_header : List ℕ → SfcHeader
decode_header m = record {
  ver = word_at m 0 % 4;
  oam = word_at m 0 / 4 % 2;
  u1 = word_at m 0 / 8 % 2;
  ttl = word_at m 0 / 16 % 64;
  len = word_at m 0 / 1024 % 64;
  u2 = byte_at m 2 % 16;
  md_type = byte_at m 2 / 16;
  prot = byte_at m 3;
  p_id = long_at m 4 % 16777216;
  si = long_at m 4 / 16777216;
  source_address = long_at m 8;
  destination_address = long_at m 12;
  source_port = word_at m 16;
  destination_port = word_at m 18;
  direction_flag = long_at m 20 % 2;
  other = long_at m 20 / 2 % 16777216;
}

-- The memory of the structure, its padding bits zero.
unfoldable pub encode_header : SfcHeader → List ℕ
encode_header h = put16 (h.ver + h.oam * 4 + h.u1 * 8 + h.ttl * 16 + h.len * 1024) (
    (h.u2 + h.md_type * 16)
    ∷ h.prot
    ∷ put32 (h.p_id + h.si * 16777216) (
        put32 h.source_address (
          put32 h.destination_address (
            put16 h.source_port
              (put16 h.destination_port (put32 (h.direction_flag + h.other * 2) []))))))

-- Every field fits its bits: a value of the structure.
pub record IsHeader (h : SfcHeader) : Type 0 where
  pub ver : h.ver < 4
  pub oam : h.oam < 2
  pub u1 : h.u1 < 2
  pub ttl : h.ttl < 64
  pub len : h.len < 64
  pub u2 : h.u2 < 16
  pub md_type : h.md_type < 16
  pub prot : h.prot < 256
  pub p_id : h.p_id < 16777216
  pub si : h.si < 256
  pub source_address : h.source_address < 4294967296
  pub destination_address : h.destination_address < 4294967296
  pub source_port : h.source_port < 65536
  pub destination_port : h.destination_port < 65536
  pub direction_flag : h.direction_flag < 2
  pub other : h.other < 16777216
