-- ===== src/Sfc/RoundTrip.antt =====
-- What is prepended to a packet is read back from it: the header and the payload.
use ironhide.Base.{
  ℕ, ◌+◌, ◌-◌, ◌%◌, ◌<◌, ◌≡◌, refl, List, [], ◌++◌, arith, append-nil, length, drop, take,
  drop_front-append, length-replicate, length-drop, ltb, false,
}
use ironhide.Base.Result.{ok}
use ironhide.Base.Text.{Text}
use ironhide.Wire.{memcpy, memcpy_front, memcpy_fits}
use ironhide.Packet.{zeros}
use ironhide.Sfc.Header.{SfcHeader, IsHeader, decode_header, encode_header}
use ironhide.Sfc.FixedLength.{
  SfcFixedLengthHeader, from_bytes, get_header, set_ttl, set_service_index,
}
use ironhide.Sfc.Utilities.{create_header, prepend_header, retrieve_header, retrieve_payload}

pub decode-encode_header :
    (h : SfcHeader) (rest : List ℕ) → IsHeader h → decode_header (encode_header h ++ rest) ≡ h
unfolding decode_header encode_header
decode-encode_header h rest v = ground arith

header_decoded : (h : SfcHeader) → IsHeader h → decode_header (encode_header h) ≡ h
header_decoded h v = rw append-nil at (decode-encode_header h [] v)

pub length-encode_header : (h : SfcHeader) → length (encode_header h) ≡ 24
unfolding encode_header
length-encode_header h = refl

take_header : (h : SfcHeader) (rest : List ℕ) → take 24 (encode_header h ++ rest) ≡ encode_header h
unfolding encode_header
take_header h rest = refl

drop_header : (h : SfcHeader) (rest : List ℕ) → drop 24 (encode_header h ++ rest) ≡ rest
unfolding encode_header
drop_header h rest = refl

header_front :
    (h : SfcHeader) (rest : List ℕ)
    → memcpy (zeros 24) (encode_header h ++ rest) 24 ≡ ok (encode_header h)
header_front h rest =
    memcpy_front (zeros 24) (encode_header h) rest 24 refl (length-encode_header h)

-- What is behind the header of the chain.
pub drop-encode_header :
    (header : SfcHeader) (inner : List ℕ) (n k : ℕ)
    → n ≡ 24 + k
    → drop n (encode_header header ++ inner) ≡ drop k inner
drop-encode_header header inner n k e =
    drop_front-append (encode_header header) inner n k (omega (arith, length-encode_header header))

-- A whole packet copied over an object of its length.
copy_packet : (pkt dst : List ℕ) → length dst ≡ length pkt → memcpy dst pkt (length pkt) ≡ ok pkt
copy_packet pkt dst e = rw append-nil at (memcpy_front dst pkt [] (length pkt) e refl)

module _ (h : SfcHeader) (pkt : List ℕ) where
  -- Into a buffer of the size that the callers allocate.
  pub prepend_header_lem :
      (buffer : List ℕ)
      → length buffer ≡ length pkt + 24
      → prepend_header pkt (length pkt) h buffer ≡ ok (encode_header h ++ pkt)
  unfolding prepend_header
  prepend_header_lem buffer e = simp (
    memcpy_fits buffer (encode_header h) 24 (omega arith) (omega (arith, length-encode_header h)),
    take_all,
    take_header,
    drop_header,
    copy_packet pkt (drop 24 buffer) (omega (arith, length-drop 24 buffer)),
  )
    where
      take_all : take 24 (encode_header h) ≡ encode_header h
      take_all = rw append-nil at (take_header h [])

  pub retrieve_header_lem : IsHeader h → retrieve_header (encode_header h ++ pkt) ≡ ok h
  unfolding retrieve_header
  retrieve_header_lem v = simp (header_front, header_decoded h v)

  pub retrieve_payload_lem : retrieve_payload (encode_header h ++ pkt) (length pkt + 24) ≡ ok pkt
  unfolding retrieve_payload
  retrieve_payload_lem =
      let kept : length pkt + 24 - 24 ≡ length pkt = omega arith in
      let long : ltb (length pkt + 24) 24 ≡ false = ground arith in
      simp (kept, long, drop_header, copy_packet pkt _ (length-replicate (length pkt) 0))

-- What is prepended to a packet, in a buffer of the size that the callers allocate, is read back
-- from the result: the header, if its fields fit their bits, and the payload.
pub retrieve-prepend :
    (h : SfcHeader) (pkt buffer : List ℕ)
    → IsHeader h
    → length buffer ≡ length pkt + 24
    → (out : List ℕ) × (prepend_header pkt (length pkt) h buffer ≡ ok out)
      × (retrieve_header out ≡ ok h)
      × (retrieve_payload out (length pkt + 24) ≡ ok pkt)
retrieve-prepend h pkt buffer v e = (
  encode_header h ++ pkt,
  prepend_header_lem h pkt buffer e,
  retrieve_header_lem h pkt v,
  retrieve_payload_lem h pkt,
)

module _ (ip_to_int : Text → ℕ) (address : (t : Text) → ip_to_int t < 4294967296) where
  pub create_header-IsHeader :
      (path index : ℕ) (src : Text) (sport : ℕ) (dst : Text) (dport ttl direction : ℕ)
      → sport < 65536
      → dport < 65536
      → IsHeader (create_header ip_to_int path index src sport dst dport ttl direction)
  unfolding create_header
  create_header-IsHeader path index src sport dst dport ttl direction hs hd =
      omega (arith, address src, address dst)

-- The header that a function of the chain reads off a packet of the ingress or the egress: the
-- path modulo 2 ^ 24, the index modulo 2 ^ 8, the time to live modulo 2 ^ 6, the direction modulo 2,
-- the ports as they were given, and the addresses as `ip_to_int` makes them. Ports are 16 bits and
-- addresses 32.
pub retrieve-create_header :
    (ip_to_int : Text → ℕ) (path index : ℕ) (src : Text) (sport : ℕ) (dst : Text)
    (dport ttl direction : ℕ) (pkt buffer : List ℕ)
    → ((t : Text) → ip_to_int t < 4294967296)
    → sport < 65536
    → dport < 65536
    → length buffer ≡ length pkt + 24
    → (out : List ℕ) × (h : SfcHeader) × (prepend_header pkt
          (length pkt)
          (create_header ip_to_int path index src sport dst dport ttl direction)
          buffer
        ≡ ok out)
      × (retrieve_header out ≡ ok h)
      × (h.p_id ≡ path % 16777216)
      × (h.si ≡ index % 256)
      × (h.ttl ≡ ttl % 64)
      × (h.direction_flag ≡ direction % 2)
      × (h.source_port ≡ sport)
      × (h.destination_port ≡ dport)
      × (h.source_address ≡ ip_to_int src)
      × (h.destination_address ≡ ip_to_int dst)
unfolding create_header
retrieve-create_header ip_to_int path index src sport dst dport ttl direction pkt buffer address hs
      hd e =
    let h = create_header ip_to_int path index src sport dst dport ttl direction in
    let back =
      retrieve-prepend h pkt buffer
        (create_header-IsHeader ip_to_int address path index src sport dst dport ttl direction hs
          hd)
        e in
    (back.0, h, back.1, back.2, refl, refl, refl, refl, refl, refl, refl, refl)

-- A function of the chain that reads the header of a packet into the class, sets its index and its
-- time to live, and prepends it to the payload again, changes those two fields, to their low bits,
-- and nothing else of the header or the payload.
pub retrieve-set_fields :
    (h : SfcHeader) (pkt buffer : List ℕ) (index ttl : ℕ)
    → IsHeader h
    → length buffer ≡ length pkt + 24
    → (f : SfcFixedLengthHeader) × (out : List ℕ) × (from_bytes (encode_header h ++ pkt) ≡ ok f)
      × (prepend_header pkt
            (length pkt)
            (get_header (set_ttl (set_service_index f index) ttl))
            buffer
          ≡ ok out)
      × (retrieve_header out ≡ ok (record h { si = index % 256; ttl = ttl % 64 }))
      × (retrieve_payload out (length pkt + 24) ≡ ok pkt)
unfolding from_bytes get_header set_ttl set_service_index
retrieve-set_fields h pkt buffer index ttl v e =
    let h' : SfcHeader = record h { si = index % 256; ttl = ttl % 64 } in
    let back = retrieve-prepend h' pkt buffer (omega arith) e in
    (record { header = h }, back.0, simp (header_front, header_decoded h v), back.1, back.2, back.3)
