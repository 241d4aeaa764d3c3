-- ===== src/Db/Address/Parsing.antt =====
-- What the constructor of Address that parses a text makes of the texts that it is meant for.
use ironhide.Base.{
  ℕ, suc, ◌+◌, ◌%◌, ◌^◌, ◌<◌, Bool, true, false, [], ◌∷◌, ◌++◌, ◌≡◌, ◌∙◌, refl, ap, sym, arith,
  Option, none, some, take, drop, length, All, All-append, ◌==◌, length-append, take-length-append,
  drop_front-append, append-nil, append_assoc, take_all, ◌≤◌,
}
use ironhide.Base.Result.{ok}
use ironhide.Base.Text.{Text, find_first_of, stoul, to_string, npos, text_eq, is_digit}
use ironhide.Base.Text.Laws.{
  find_first_of-append, find_first_of_none, stoul-to_string, substr_lem, to_string_bytes,
  to_string_head,
}
use ironhide.Db.Address.{
  Address, address_parse, address_of_text, get_url, http_prefix, prefix_check, size_sub,
  after_protocol,
}

-- A host: neither separator occurs in it.
abbrev pub IsHost : Text → Type 0
IsHost = All (λ c. ((c == b':') ≡ false) × ((c == b'/') ≡ false))

no_colon : (h : Text) → IsHost h → All (λ c. (c == b':') ≡ false) h
no_colon [] v = tt
no_colon (c ∷ h) v = (v.0.0, no_colon h v.1)

no_slash : (h : Text) → IsHost h → All (λ c. (c == b'/') ≡ false) h
no_slash [] v = tt
no_slash (c ∷ h) v = (v.0.1, no_slash h v.1)

module _ (flag : Bool) (host : Text) (p : ℕ) (v : IsHost host) (small : p < 65536)
    (short : length host < 4294967296) where
  -- The number behind the colon is cut out whole.
  parse_with :
      (tail : Text) (count : ℕ)
      → count
        ≡ size_sub
            (size_sub (find_first_of (host ++ b':' ∷ (to_string p ++ tail)) b'/') (length host))
            1
      → take count (to_string p ++ tail) ≡ to_string p
      → address_parse flag (host ++ b':' ∷ (to_string p ++ tail))
        ≡ ok (record { address = host; port = p; has_http_prefix = flag })
  unfolding address_parse
  parse_with tail count e cut =
      let url = host ++ b':' ∷ (to_string p ++ tail) in
      let size : length url ≡ length host + suc (length (to_string p ++ tail)) =
        length-append host _ in
      let next : (length host + 1) % 2 ^ 64 ≡ length host + 1 = omega arith in
      simp
        (
          find_first_of-append b':' host (to_string p ++ tail) (no_colon host v),
          substr_lem url 0 (length host) (omega (arith, size)),
          take-length-append,
          next,
          ← e,
          substr_lem url (length host + 1) count (omega (arith, size)),
          behind,
          cut,
          number,
        )
        (ap (λ k. ok (record { address = host; port = k; has_http_prefix = flag })) (omega arith))
    where
      behind : drop (length host + 1) (host ++ b':' ∷ (to_string p ++ tail)) ≡ to_string p ++ tail
      behind = drop_front-append host (b':' ∷ (to_string p ++ tail)) (length host + 1) 1 refl

      number : stoul (to_string p) ≡ ok p
      number = rw append-nil at (stoul-to_string p [] (omega arith) tt)

  slash_free : All (λ c. (c == b'/') ≡ false) (host ++ b':' ∷ to_string p)
  slash_free =
      All-append (λ c. (c == b'/') ≡ false) host (b':' ∷ to_string p) (no_slash host v)
        (refl, (to_string_bytes p b'/' refl).1)

  bytes : length (to_string p) ≤ 20
  bytes = (to_string_bytes p b'/' refl).0

  -- Without a path the port ends the text.
  address_parse_bare :
      address_parse flag (host ++ b':' ∷ (to_string p ++ []))
      ≡ ok (record { address = host; port = p; has_http_prefix = flag })
  address_parse_bare =
      parse_with [] (size_sub (size_sub npos (length host)) 1)
        (ap (λ k. size_sub (size_sub k (length host)) 1) (sym none_found))
        (take_all _ (to_string p ++ []) (omega (arith, bytes, length-append (to_string p) []))
          ∙ append-nil _)
    where
      none_found : find_first_of (host ++ b':' ∷ (to_string p ++ [])) b'/' ≡ npos
      none_found = rw append-nil (find_first_of_none b'/' (host ++ b':' ∷ to_string p) slash_free)

  -- With a path the port ends before its slash.
  address_parse_path :
      (path : Text)
      → address_parse flag (host ++ b':' ∷ (to_string p ++ b'/' ∷ path))
        ≡ ok (record { address = host; port = p; has_http_prefix = flag })
  address_parse_path path =
      parse_with (b'/' ∷ path) (length (to_string p))
        (sym (ap (λ k. size_sub (size_sub k (length host)) 1) found ∙ omega (arith, bytes)))
        (take-length-append (to_string p) (b'/' ∷ path))
    where
      found :
          find_first_of (host ++ b':' ∷ (to_string p ++ b'/' ∷ path)) b'/'
          ≡ length host + suc (length (to_string p))
      found =
          ap (λ t. find_first_of t b'/')
            (sym (append_assoc host (b':' ∷ to_string p) (b'/' ∷ path)))
          ∙ find_first_of-append b'/' (host ++ b':' ∷ to_string p) path slash_free
          ∙ length-append host (b':' ∷ to_string p)

-- A text that carries no prefix, in the forms "host:port" and "host:port/path".
abbrev pub suffix : Option Text → Text
suffix none = []
suffix (some path) = b'/' ∷ path

address_parsed :
    (flag : Bool) (host : Text) (p : ℕ) (path : Option Text)
    → IsHost host
    → p < 65536
    → length host < 4294967296
    → address_parse flag (host ++ b':' ∷ (to_string p ++ suffix path))
      ≡ ok (record { address = host; port = p; has_http_prefix = flag })
address_parsed flag host p none v small short = address_parse_bare flag host p v small short
address_parsed flag host p (some t) v small short = address_parse_path flag host p v small short t

not_http :
    (host : Text) (c : ℕ) (rest : Text)
    → IsHost host
    → is_digit c ≡ true
    → prefix_check (host ++ b':' ∷ c ∷ rest) ≡ false
unfolding prefix_check text_eq
not_http [] c rest v d = refl
not_http (x ∷ []) c rest v d = ground arith
not_http (x ∷ y ∷ []) c rest v d = ground arith
not_http (x ∷ y ∷ z ∷ []) c rest v d = ground arith
not_http (x ∷ y ∷ z ∷ w ∷ []) c rest v d = ground arith
not_http (x ∷ y ∷ z ∷ w ∷ u ∷ host) c rest v d = ground arith

no_prefix :
    (host : Text) (p : ℕ) (tail : Text)
    → IsHost host
    → prefix_check (host ++ b':' ∷ (to_string p ++ tail)) ≡ false
no_prefix host p tail v =
    let head = to_string_head p in
    rw (ap (λ t. t ++ tail) head.2) (not_http host head.0 (head.1 ++ tail) v head.3)

-- A text "host:port" or "host:port/path", its host free of colons and slashes, is parsed to the host
-- and the port, and the URL of the result is "http://host:port/". The port is below 2 ^ 16 and the
-- host shorter than 2 ^ 32.
pub get_url-address_of_text :
    (host : Text) (p : ℕ) (path : Option Text)
    → IsHost host
    → p < 65536
    → length host < 4294967296
    → (a : Address) × (address_of_text (host ++ b':' ∷ (to_string p ++ suffix path)) ≡ ok a)
      × (a.address ≡ host)
      × (a.port ≡ p)
      × (get_url a ≡ http_prefix ++ (host ++ (b':' ∷ (to_string p ++ b'/' ∷ []))))
unfolding get_url address_of_text
get_url-address_of_text host p path v small short =
    let a : Address = record { address = host; port = p; has_http_prefix = false } in
    (
      a,
      rw (no_prefix host p (suffix path) v) (address_parsed false host p path v small short),
      refl,
      refl,
      refl,
    )

cut_protocol :
    (c : ℕ) (rest : Text) → length rest ≤ npos → after_protocol (http_prefix ++ c ∷ rest) ≡ ok rest
unfolding after_protocol
cut_protocol c rest h = simp (
  find_first_of-append b'/' (b'h' ∷ b't' ∷ b't' ∷ b'p' ∷ b':' ∷ []) (b'/' ∷ c ∷ rest)
      (refl, (refl, (refl, (refl, (refl, tt))))),
  substr_lem (http_prefix ++ c ∷ rest) 0 5 (omega arith),
  substr_lem (http_prefix ++ c ∷ rest) 8 npos (omega arith),
  take_all npos rest h,
)

-- With the prefix "http://" the parser also cuts off the first byte of the host, and the URL of the
-- result has no prefix. The port is below 2 ^ 16, and host and path are shorter than 2 ^ 32.
pub address_of_text_http :
    (c : ℕ) (host : Text) (p : ℕ) (path : Option Text)
    → IsHost host
    → p < 65536
    → length host < 4294967296
    → length (suffix path) < 4294967296
    → (a : Address) × (address_of_text
          (http_prefix ++ c ∷ (host ++ b':' ∷ (to_string p ++ suffix path)))
        ≡ ok a)
      × (a.address ≡ host)
      × (get_url a ≡ host ++ (b':' ∷ (to_string p ++ b'/' ∷ [])))
unfolding get_url address_of_text prefix_check text_eq
address_of_text_http c host p path v small short fits =
    let a : Address = record { address = host; port = p; has_http_prefix = true } in
    let rest = host ++ b':' ∷ (to_string p ++ suffix path) in
    let size : length rest ≡ length host + suc (length (to_string p ++ suffix path)) =
      length-append host _ in
    let tail = length-append (to_string p) (suffix path) in
    (
      a,
      rw (cut_protocol c rest (omega (arith, size, tail, (to_string_bytes p b'/' refl).0)))
          (address_parsed true host p path v small short),
      refl,
      refl,
    )
