-- ===== src/Db/UrlBuilder/Segments.antt =====
-- The URL that a chain of add_path builds from plain segments.
use ironhide.Base.{
  ℕ, false, List, [], ◌∷◌, ◌++◌, some, if◌then◌else◌, ◌==◌, ◌≡◌, ◌≢◌, ◌∙◌, refl, ap, sym, arith,
  All, append_assoc, append-nil,
}
use ironhide.Base.Result.{ok, err, fault}
use ironhide.Base.Text.{Text, c_str}
use ironhide.Db.UrlBuilder.{
  UrlBuilder, last?, add_path, add_paths, build, join, last_byte, first_byte,
}

-- A segment: not empty, and free of NUL bytes and slashes.
abbrev pub IsPlain : Text → Type 0
IsPlain s = (s ≢ []) × All (λ c. ((c == 0) ≡ false) × ((c == b'/') ≡ false)) s

-- The segments, each behind a slash.
abbrev pub slashed : List Text → Text
slashed [] = []
slashed (s ∷ ss) = b'/' ∷ (s ++ slashed ss)

c_str_plain : (s : Text) → All (λ c. ((c == 0) ≡ false) × ((c == b'/') ≡ false)) s → c_str s ≡ s
unfolding c_str
c_str_plain [] h = refl
c_str_plain (c ∷ s) h = rw (h.0.0) (ap (λ t. c ∷ t) (c_str_plain s h.1))

-- The last byte of a plain text is no slash.
last?_plain :
    (s : Text)
    → s ≢ []
    → All (λ c. ((c == 0) ≡ false) × ((c == b'/') ≡ false)) s
    → (c : ℕ) × (last? s ≡ some c) × ((c == b'/') ≡ false)
unfolding last?
last?_plain [] ne h = absurd (ne refl)
last?_plain (c ∷ []) ne h = (c, refl, h.0.1)
last?_plain (c ∷ d ∷ s) ne h = last?_plain (d ∷ s) (λ e. cc) h.1

last?-append {ℓ} : {A : Type ℓ} (l : List A) (x : A) → last? (l ++ x ∷ []) ≡ some x
unfolding last?
last?-append [] x = refl
last?-append (y ∷ []) x = refl
last?-append (y ∷ z ∷ l) x = last?-append (z ∷ l) x

join-append : (xs ys : List Text) → join (xs ++ ys) ≡ join xs ++ join ys
unfolding join
join-append [] ys = refl
join-append (x ∷ xs) ys = rw (join-append xs ys) (sym (append_assoc x (join xs) (join ys)))

last?_cons : (c : ℕ) (s : Text) → s ≢ [] → last? (c ∷ s) ≡ last? s
unfolding last?
last?_cons c [] ne = absurd (ne refl)
last?_cons c (d ∷ s) ne = refl

build_after :
    (b : UrlBuilder) (path : Text)
    → build (record b { paths = b.paths ++ path ∷ [] }) ≡ build b ++ path
unfolding build join
build_after b path =
    rw (join-append b.paths (path ∷ []), append-nil) (sym (append_assoc b.url (join b.paths) path))

first_byte_plain : (s : Text) → IsPlain s → (first_byte s == b'/') ≡ false
unfolding first_byte
first_byte_plain [] h = absurd (h.0 refl)
first_byte_plain (c ∷ s) h = h.1.0.1

module _ (b : UrlBuilder) (p s : Text) (c : ℕ) (at_path : last? b.paths ≡ some p)
    (at_byte : last? p ≡ some c) (plain : IsPlain s) where
  -- Behind a slash a plain segment is added as it is, and behind another byte with a slash.
  add_path_plain :
      add_path b s ≡ ok (record b { paths = b.paths ++ (if c == b'/' then s else b'/' ∷ s) ∷ [] })
  unfolding add_path
  add_path_plain =
      rw (c_str_plain s plain.1, at_path, last_byte, at_byte)
        (ground (arith, first_byte_plain s plain))

-- What the segments after a segment add.
add_paths_tail :
    (b : UrlBuilder) (p : Text) (c : ℕ) (ss : List Text)
    → last? b.paths ≡ some p
    → last? p ≡ some c
    → (c == b'/') ≡ false
    → All IsPlain ss
    → (b' : UrlBuilder) × (add_paths b ss ≡ ok b') × (build b' ≡ build b ++ slashed ss)
unfolding add_paths
add_paths_tail b p c [] at_path at_byte other plain = (b, refl, sym (append-nil (build b)))
add_paths_tail b p c (s ∷ ss) at_path at_byte other plain =
    let next : UrlBuilder = record b { paths = b.paths ++ (b'/' ∷ s) ∷ [] } in
    let last = last?_plain s plain.0.0 plain.0.1 in
    let (b', run, built) =
      add_paths_tail next (b'/' ∷ s) last.0 ss (last?-append b.paths (b'/' ∷ s))
        (last?_cons b'/' s plain.0.0 ∙ last.1) last.2 plain.1 in
    (
      b',
      rw (add_path_plain b p s c at_path at_byte plain.0, other) run,
      built
          ∙ ap (λ t. t ++ slashed ss) (build_after b (b'/' ∷ s))
          ∙ append_assoc (build b) (b'/' ∷ s) (slashed ss),
    )

-- To a builder whose last path ends in a slash, a chain of add_path with segments that are not empty
-- and hold neither slashes nor NUL bytes adds the segments, one slash between each and the next.
pub build-add_paths :
    (b : UrlBuilder) (p s : Text) (ss : List Text)
    → last? b.paths ≡ some p
    → last? p ≡ some b'/'
    → IsPlain s
    → All IsPlain ss
    → (b' : UrlBuilder) × (add_paths b (s ∷ ss) ≡ ok b') × (build b' ≡ build b ++ (s ++ slashed ss))
unfolding add_paths
build-add_paths b p s ss at_path at_byte plain others =
    let next : UrlBuilder = record b { paths = b.paths ++ s ∷ [] } in
    let last = last?_plain s plain.0 plain.1 in
    let (b', run, built) =
      add_paths_tail next s last.0 ss (last?-append b.paths s) last.1 last.2 others in
    (
      b',
      rw (add_path_plain b p s b'/' at_path at_byte plain) run,
      built ∙ ap (λ t. t ++ slashed ss) (build_after b s) ∙ append_assoc (build b) s (slashed ss),
    )

-- A path added behind an empty first path makes the builder read before that path's first byte.
pub add_path_fault :
    (b : UrlBuilder) (s : Text) → b.paths ≡ [] → add_paths b ([] ∷ s ∷ []) ≡ err fault
unfolding add_paths add_path
add_path_fault b s h = rw h
