-- ===== src/Sfc/Fields.antt =====
-- What is read of a header from bytes that nobody made as one.
use ironhide.Base.{
  ℕ, zero, get_or, suc, ◌%◌, ◌≤◌, ◌<◌, ◌≡◌, ◌∙◌, refl, ap, List, [], ◌∷◌, ◌++◌, All, arith, length,
  drop, take, length-replicate, append-nil, length-take_le,
}
use ironhide.Base.Result.{ok}
use ironhide.Wire.{memcpy, memcpy_fits}
use ironhide.Packet.{zeros, byte_at}
use ironhide.Packet.Checksum.{IsByte}
use ironhide.Sfc.Header.{SfcHeader, IsHeader, decode_header, encode_header}
use ironhide.Sfc.Utilities.{retrieve_header}

-- A byte of a packet, also behind its end.
byte_at-IsByte : (m : List ℕ) (i : ℕ) → All IsByte m → byte_at m i < 256
byte_at-IsByte [] i v = omega arith
byte_at-IsByte (b ∷ m) zero v = v.0
byte_at-IsByte (b ∷ m) (suc i) v = byte_at-IsByte m i v.1

module _ (m : List ℕ) (v : All IsByte m) where
  bytes : (i : ℕ) → byte_at m i < 256
  bytes i = byte_at-IsByte m i v

  decode_header-IsHeader : IsHeader (decode_header m)
  unfolding decode_header
  decode_header-IsHeader = omega (
    arith,
    bytes 0,
    bytes 1,
    bytes 2,
    bytes 3,
    bytes 4,
    bytes 5,
    bytes 6,
    bytes 7,
    bytes 8,
    bytes 9,
    bytes 10,
    bytes 11,
    bytes 12,
    bytes 13,
    bytes 14,
    bytes 15,
    bytes 16,
    bytes 17,
    bytes 18,
    bytes 19,
    bytes 20,
    bytes 21,
    bytes 22,
    bytes 23,
  )

  -- Written back, the fields are the bytes that they were read from, but for the padding.
  encode-decode_header :
      encode_header (decode_header m)
      ≡ byte_at m 0
        ∷ byte_at m 1
        ∷ byte_at m 2
        ∷ byte_at m 3
        ∷ byte_at m 4
        ∷ byte_at m 5
        ∷ byte_at m 6
        ∷ byte_at m 7
        ∷ byte_at m 8
        ∷ byte_at m 9
        ∷ byte_at m 10
        ∷ byte_at m 11
        ∷ byte_at m 12
        ∷ byte_at m 13
        ∷ byte_at m 14
        ∷ byte_at m 15
        ∷ byte_at m 16
        ∷ byte_at m 17
        ∷ byte_at m 18
        ∷ byte_at m 19
        ∷ byte_at m 20
        ∷ byte_at m 21
        ∷ byte_at m 22
        ∷ (byte_at m 23 % 2)
        ∷ []
  unfolding decode_header encode_header
  encode-decode_header = ground (
    arith,
    bytes 0,
    bytes 1,
    bytes 2,
    bytes 3,
    bytes 4,
    bytes 5,
    bytes 6,
    bytes 7,
    bytes 8,
    bytes 9,
    bytes 10,
    bytes 11,
    bytes 12,
    bytes 13,
    bytes 14,
    bytes 15,
    bytes 16,
    bytes 17,
    bytes 18,
    bytes 19,
    bytes 20,
    bytes 21,
    bytes 22,
    bytes 23,
  )

-- The first bytes of a packet, one by one.
front : ℕ → List ℕ → List ℕ
front zero m = []
front (suc n) m = byte_at m 0 ∷ front n (drop 1 m)

front-take : (n : ℕ) (m : List ℕ) → n ≤ length m → front n m ≡ take n m
unfolding front
front-take zero m h = refl
front-take (suc n) [] h = absurd (omega arith)
front-take (suc n) (b ∷ m) h = ap (λ l. b ∷ l) (front-take n m (omega arith))

get_or-drop : (m : List ℕ) (i : ℕ) → get_or (drop 1 m) i 0 ≡ get_or m (suc i) 0
get_or-drop [] i = refl
get_or-drop (b ∷ m) i = refl

-- The bytes of a whole header.
front_bytes :
    (m : List ℕ)
    → front 23 m
      ≡ byte_at m 0
        ∷ byte_at m 1
        ∷ byte_at m 2
        ∷ byte_at m 3
        ∷ byte_at m 4
        ∷ byte_at m 5
        ∷ byte_at m 6
        ∷ byte_at m 7
        ∷ byte_at m 8
        ∷ byte_at m 9
        ∷ byte_at m 10
        ∷ byte_at m 11
        ∷ byte_at m 12
        ∷ byte_at m 13
        ∷ byte_at m 14
        ∷ byte_at m 15
        ∷ byte_at m 16
        ∷ byte_at m 17
        ∷ byte_at m 18
        ∷ byte_at m 19
        ∷ byte_at m 20
        ∷ byte_at m 21
        ∷ byte_at m 22
        ∷ []
unfolding front
front_bytes m = simp (get_or-drop)

-- Bytes within the part of a packet that is copied.
get_or-take : (n i : ℕ) (m : List ℕ) → i < n → get_or (take n m) i 0 ≡ get_or m i 0
get_or-take zero i m h = absurd (omega arith)
get_or-take (suc n) i [] h = refl
get_or-take (suc n) zero (b ∷ m) h = refl
get_or-take (suc n) (suc i) (b ∷ m) h = get_or-take n i m (omega arith)

take-take : (n : ℕ) (m : List ℕ) → take n (take (suc n) m) ≡ take n m
take-take zero m = refl
take-take (suc n) [] = refl
take-take (suc n) (b ∷ m) = ap (λ l. b ∷ l) (take-take n m)

All-take : (n : ℕ) (m : List ℕ) → All IsByte m → All IsByte (take n m)
All-take zero m v = tt
All-take (suc n) [] v = tt
All-take (suc n) (b ∷ m) v = (v.0, All-take n m v.1)

encode-take :
    (m : List ℕ)
    → All IsByte m
    → 24 ≤ length m
    → encode_header (decode_header m) ≡ take 23 m ++ (byte_at m 23 % 2) ∷ []
encode-take m v long =
    let taken = rw (front_bytes m) at (front-take 23 m (omega arith)) in
    encode-decode_header m v ∙ ap (λ l. l ++ (byte_at m 23 % 2) ∷ []) taken

-- From any packet of at least 24 bytes a header is read: its fields fit their bits, and written
-- back they are the first 24 bytes of the packet, but for the seven bits of padding in the last.
pub encode-retrieve_header :
    (pkt : List ℕ)
    → All IsByte pkt
    → 24 ≤ length pkt
    → (h : SfcHeader) × (retrieve_header pkt ≡ ok h)
      × IsHeader h
      × (encode_header h ≡ take 23 pkt ++ (byte_at pkt 23 % 2) ∷ [])
unfolding retrieve_header
encode-retrieve_header pkt v long =
    let m = take 24 pkt in
    let copied : memcpy (zeros 24) pkt 24 ≡ ok m =
      memcpy_fits (zeros 24) pkt 24 (omega (arith, length-replicate {A = ℕ} 24 0)) long
      ∙ ap ok (append-nil m) in
    let fits = All-take 24 pkt v in
    let same = encode-take m fits (omega (arith, length-take_le 24 pkt long)) in
    (
      decode_header m,
      rw copied,
      decode_header-IsHeader m fits,
      same
          ∙ ap (λ l. l ++ (byte_at m 23 % 2) ∷ []) (take-take 23 pkt)
          ∙ ap (λ b. take 23 pkt ++ (b % 2) ∷ []) (get_or-take 24 23 pkt (omega arith)),
    )
