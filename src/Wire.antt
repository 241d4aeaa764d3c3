-- ===== src/Wire.antt =====
-- Memory as the program sees it on its platform: bytes, words in little-endian order, `memcpy`
-- between buffers, and the exchange of byte order by `htons`.
use ironhide.Base.{
  ℕ, ◌+◌, ◌*◌, ◌/◌, ◌%◌, ◌≤◌, ◌<◌, ◌≡◌, List, ◌++◌, ◌&&◌, ap, arith, leb, if◌then◌else◌, length,
  take, drop, length-append, take-length-append, drop-length, append-nil, ◌∙◌, [],
}
use ironhide.Base.Result.{Result, ok, err, fault}

abbrev pub le16 : ℕ → ℕ → ℕ
le16 a b = a + b * 256

abbrev pub le32 : ℕ → ℕ → ℕ → ℕ → ℕ
le32 a b c d = a + b * 256 + c * 65536 + d * 16777216

abbrev pub u8 : ℕ → ℕ
u8 n = n % 256

abbrev pub u16 : ℕ → ℕ
u16 n = n % 65536

abbrev pub u32 : ℕ → ℕ
u32 n = n % 4294967296

-- htons of <arpa/inet.h> on a little-endian machine; ntohs is the same function.
abbrev pub htons : ℕ → ℕ
htons n = n % 256 * 256 + n / 256 % 256

-- htonl
abbrev pub htonl : ℕ → ℕ
htonl n = le32 (n / 16777216 % 256) (n / 65536 % 256) (n / 256 % 256) (n % 256)

-- `memcpy(dst, src, n)` over the objects that the pointers point into: the copied prefix, and what
-- `dst` keeps behind it. To pass the end of either object is a fault.
unfoldable pub memcpy : List ℕ → List ℕ → ℕ → Result (List ℕ)
memcpy dst src n =
    if leb n (length dst) && leb n (length src) then ok (take n src ++ drop n dst) else err fault

module _ (dst src : List ℕ) (n : ℕ) where
  -- A copy within both objects succeeds.
  pub memcpy_fits :
      n ≤ length dst → n ≤ length src → memcpy dst src n ≡ ok (take n src ++ drop n dst)
  unfolding memcpy
  memcpy_fits h k = ground (arith)

  -- A copy beyond the destination is a fault, whatever the source.
  pub memcpy_overflows : length dst < n → memcpy dst src n ≡ err fault
  unfolding memcpy
  memcpy_overflows h = ground (arith)

pub htons-htons : (n : ℕ) → n < 65536 → htons (htons n) ≡ n
htons-htons n h = omega arith

-- A structure is filled from bytes that lead the source.
pub memcpy_front :
    (dst front rest : List ℕ) (n : ℕ)
    → length dst ≡ n
    → length front ≡ n
    → memcpy dst (front ++ rest) n ≡ ok front
memcpy_front dst front rest n hd hf =
    rw (memcpy_fits dst (front ++ rest) n (omega arith) (omega (arith, length-append front rest)))
      (ap ok (rw (← hf, take-length-append) (ap (λ t. front ++ t) kept ∙ append-nil front)))
  where
    kept : drop (length front) dst ≡ []
    kept = rw (hf, ← hd) (drop-length dst)
