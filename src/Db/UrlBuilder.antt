-- ===== src/Db/UrlBuilder.antt =====
-- src/db/utils/urlbuilder.h and urlbuilder.cpp.
pub mod Segments
use ironhide.Base.{
  ℕ, Bool, true, false, List, [], ◌∷◌, ◌++◌, Option, none, some, if◌then◌else◌, ◌==◌, ◌&&◌, not,
}
use ironhide.Base.Result.{Result, ok, err, fault, ◌>>=◌}
use ironhide.Base.Text.{Text, c_str}
use ironhide.Db.Address.{Address, get_url, path_separator}

-- class URLBuilder
pub record UrlBuilder : Type 0 where
  pub url : Text
  pub paths : List Text

-- URLBuilder()
abbrev pub new : UrlBuilder
new = record { url = []; paths = [] }

-- set_address
unfoldable pub set_address : UrlBuilder → Address → UrlBuilder
unfolding get_url
set_address b address = record b { url = b.url ++ get_url address }

-- The last element of a list.
unfoldable pub last? {ℓ} : {A : Type ℓ} → List A → Option A
last? [] = none
last? (x ∷ []) = some x
last? (x ∷ y ∷ l) = last? (y ∷ l)

-- The last byte of the last path: to read it of an empty path is a fault.
last_byte : Option Text → Result (Option ℕ)
last_byte none = ok none
last_byte (some path) = elim (last? path) [ none ↦ err fault | some c ↦ ok (some c) ]

-- `path[0]`, the NUL byte for an empty path
first_byte : Text → ℕ
first_byte [] = 0
first_byte (c ∷ t) = c

-- Whether a separator goes in front of a path.
needs_separator : Option ℕ → Text → Bool
unfolding first_byte
needs_separator none path = false
needs_separator (some c) path = not (c == path_separator) && not (first_byte path == path_separator)

-- add_path; the callee reads the text up to its first NUL.
unfoldable pub add_path : UrlBuilder → Text → Result UrlBuilder
unfolding last? last_byte needs_separator c_str
add_path b text = do
  let path = c_str text
  last ← last_byte (last? b.paths)
  let to_add = if needs_separator last path then path_separator ∷ path else path
  ok (record b { paths = b.paths ++ to_add ∷ [] })

-- The paths one behind the other, as `build` appends them.
unfoldable pub join : List Text → Text
join [] = []
join (path ∷ paths) = path ++ join paths

-- build
unfoldable pub build : UrlBuilder → Text
unfolding join
build b = b.url ++ join b.paths

-- A chain of calls of add_path.
unfoldable pub add_paths : UrlBuilder → List Text → Result UrlBuilder
add_paths b [] = ok b
add_paths b (path ∷ paths) = do b' ← add_path b path; add_paths b' paths
