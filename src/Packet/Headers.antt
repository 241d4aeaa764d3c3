-- ===== src/Packet/Headers.antt =====
-- The structures of <linux/ip.h>, <linux/tcp.h> and <linux/udp.h> that src/utils/packetutils.cpp
-- copies to and from packets. Fields of two and four bytes are kept as the machine reads them,
-- in little-endian order, so a port of a header is the port with its bytes exchanged.
use ironhide.Base.{ℕ, ◌+◌, ◌*◌, ◌/◌, ◌%◌, ◌<◌, ◌≡◌, List, [], ◌∷◌, ◌++◌, arith, get_or, replicate}
use ironhide.Wire.{le16, le32}

pub record Iphdr : Type 0 where
  pub ihl : ℕ
  pub version : ℕ
  pub tos : ℕ
  pub tot_len : ℕ
  pub id : ℕ
  pub frag_off : ℕ
  pub ttl : ℕ
  pub protocol : ℕ
  pub check : ℕ
  pub saddr : ℕ
  pub daddr : ℕ

pub record Tcphdr : Type 0 where
  pub source : ℕ
  pub dest : ℕ
  pub seq : ℕ
  pub ack_seq : ℕ
  pub res1 : ℕ
  pub doff : ℕ
  pub flags : ℕ
  pub window : ℕ
  pub check : ℕ
  pub urg_ptr : ℕ

pub record Udphdr : Type 0 where
  pub source : ℕ
  pub dest : ℕ
  pub len : ℕ
  pub check : ℕ

-- ip_hdr_len, udp_hdr_len and tcp_hdr_len
abbrev pub ip_hdr_len : ℕ
ip_hdr_len = 20

abbrev pub udp_hdr_len : ℕ
udp_hdr_len = 8

abbrev pub tcp_hdr_len : ℕ
tcp_hdr_len = 20

-- An object of `n` bytes after `struct s x{}`.
abbrev pub zeros : ℕ → List ℕ
zeros n = replicate n 0

-- The byte, and the word, at an offset of an object.
abbrev pub byte_at : List ℕ → ℕ → ℕ
byte_at m i = get_or m i 0

abbrev pub word_at : List ℕ → ℕ → ℕ
word_at m i = le16 (get_or m i 0) (get_or m (i + 1) 0)

abbrev pub long_at : List ℕ → ℕ → ℕ
long_at m i = le32 (get_or m i 0) (get_or m (i + 1) 0) (get_or m (i + 2) 0) (get_or m (i + 3) 0)

unfoldable pub decode_iphdr : List ℕ → Iphdr
decode_iphdr m = record {
  ihl = byte_at m 0 % 16;
  version = byte_at m 0 / 16;
  tos = byte_at m 1;
  tot_len = word_at m 2;
  id = word_at m 4;
  frag_off = word_at m 6;
  ttl = byte_at m 8;
  protocol = byte_at m 9;
  check = word_at m 10;
  saddr = long_at m 12;
  daddr = long_at m 16;
}

unfoldable pub decode_tcphdr : List ℕ → Tcphdr
decode_tcphdr m = record {
  source = word_at m 0;
  dest = word_at m 2;
  seq = long_at m 4;
  ack_seq = long_at m 8;
  res1 = byte_at m 12 % 16;
  doff = byte_at m 12 / 16;
  flags = byte_at m 13;
  window = word_at m 14;
  check = word_at m 16;
  urg_ptr = word_at m 18;
}

unfoldable pub decode_udphdr : List ℕ → Udphdr
decode_udphdr m = record {
  source = word_at m 0;
  dest = word_at m 2;
  len = word_at m 4;
  check = word_at m 6;
}

-- The bytes that a word occupies, in front of those that follow it.
abbrev pub put16 : ℕ → List ℕ → List ℕ
put16 w rest = (w % 256) ∷ (w / 256 % 256) ∷ rest

abbrev pub put32 : ℕ → List ℕ → List ℕ
put32 w rest = (w % 256) ∷ (w / 256 % 256) ∷ (w / 65536 % 256) ∷ (w / 16777216 % 256) ∷ rest

unfoldable pub encode_iphdr : Iphdr → List ℕ
encode_iphdr h =
    (h.ihl % 16 + h.version % 16 * 16)
    ∷ (h.tos % 256)
    ∷ put16 h.tot_len (
        put16 h.id (
          put16 h.frag_off (
            (h.ttl % 256) ∷ (h.protocol % 256) ∷ put16 h.check (put32 h.saddr (put32 h.daddr [])))))

unfoldable pub encode_tcphdr : Tcphdr → List ℕ
encode_tcphdr h = put16 h.source (
    put16 h.dest (
      put32 h.seq (
        put32 h.ack_seq (
          (h.res1 % 16 + h.doff % 16 * 16)
          ∷ (h.flags % 256)
          ∷ put16 h.window (put16 h.check (put16 h.urg_ptr []))))))

unfoldable pub encode_udphdr : Udphdr → List ℕ
encode_udphdr h = put16 h.source (put16 h.dest (put16 h.len (put16 h.check [])))

-- Every field fits its width.
pub record IsIphdr (h : Iphdr) : Type 0 where
  pub ihl : h.ihl < 16
  pub version : h.version < 16
  pub tos : h.tos < 256
  pub tot_len : h.tot_len < 65536
  pub id : h.id < 65536
  pub frag_off : h.frag_off < 65536
  pub ttl : h.ttl < 256
  pub protocol : h.protocol < 256
  pub check : h.check < 65536
  pub saddr : h.saddr < 4294967296
  pub daddr : h.daddr < 4294967296

pub record IsTcphdr (h : Tcphdr) : Type 0 where
  pub source : h.source < 65536
  pub dest : h.dest < 65536
  pub seq : h.seq < 4294967296
  pub ack_seq : h.ack_seq < 4294967296
  pub res1 : h.res1 < 16
  pub doff : h.doff < 16
  pub flags : h.flags < 256
  pub window : h.window < 65536
  pub check : h.check < 65536
  pub urg_ptr : h.urg_ptr < 65536

pub record IsUdphdr (h : Udphdr) : Type 0 where
  pub source : h.source < 65536
  pub dest : h.dest < 65536
  pub len : h.len < 65536
  pub check : h.check < 65536

-- The words of a header come back from its bytes.
pub decode-encode_iphdr :
    (h : Iphdr) (rest : List ℕ) → IsIphdr h → decode_iphdr (encode_iphdr h ++ rest) ≡ h
unfolding decode_iphdr encode_iphdr
decode-encode_iphdr h rest v = ground arith

pub decode-encode_tcphdr :
    (h : Tcphdr) (rest : List ℕ) → IsTcphdr h → decode_tcphdr (encode_tcphdr h ++ rest) ≡ h
unfolding decode_tcphdr encode_tcphdr
decode-encode_tcphdr h rest v = ground arith

pub decode-encode_udphdr :
    (h : Udphdr) (rest : List ℕ) → IsUdphdr h → decode_udphdr (encode_udphdr h ++ rest) ≡ h
unfolding decode_udphdr encode_udphdr
decode-encode_udphdr h rest v = ground arith
