-- ===== src/Db/Address.antt =====
-- src/db/utils/address.h and address.cpp.
pub mod Parsing
use ironhide.Base.{
  ℕ, ◌+◌, ◌-◌, ◌%◌, ◌^◌, Bool, true, false, List, [], ◌∷◌, ◌++◌, if◌then◌else◌, take, not,
}
use ironhide.Base.Result.{Result, ok, ◌>>=◌}
use ironhide.Base.Text.{Text, codes, text_eq, find_first_of, substr, stoul, to_string, npos}
use ironhide.Wire.{u16}

abbrev pub port_separator : ℕ
port_separator = b':'

abbrev pub path_separator : ℕ
path_separator = b'/'

abbrev pub http_prefix : Text
http_prefix = codes "http://"

-- class Address; get_address and get_port are fields.
pub record Address : Type 0 where
  pub address : Text
  pub port : ℕ
  pub has_http_prefix : Bool

-- prefix_check: strncmp over the seven bytes of the prefix.
unfoldable pub prefix_check : Text → Bool
prefix_check address = text_eq (take 7 address) http_prefix

-- The differences of positions are of type size_t, and wrap.
abbrev pub size_sub : ℕ → ℕ → ℕ
size_sub a b = (a + 2 ^ 64 - b) % 2 ^ 64

-- address_parse, on a fresh address with the flag given
unfoldable pub address_parse : Bool → Text → Result Address
address_parse flag url = do
  let found = find_first_of url port_separator
  address ← substr url 0 found
  let found1 = find_first_of url path_separator
  number ← substr url ((found + 1) % 2 ^ 64) (size_sub (size_sub found1 found) 1)
  port ← stoul number
  ok (record { address = address; port = u16 port; has_http_prefix = flag })

-- Address(new_address, new_port)
unfoldable pub address_of : Text → ℕ → Address
unfolding prefix_check
address_of new_address new_port = record {
  address = new_address;
  port = new_port;
  has_http_prefix = prefix_check new_address;
}

-- Behind a prefix the text is cut three bytes after its first slash.
unfoldable pub after_protocol : Text → Result Text
after_protocol complete_address = do
  let found = find_first_of complete_address path_separator
  protocol ← substr complete_address 0 found
  substr complete_address ((found + 3) % 2 ^ 64) npos

-- Address(complete_address)
unfoldable pub address_of_text : Text → Result Address
unfolding after_protocol
address_of_text complete_address =
    if not (prefix_check complete_address)
    then address_parse false complete_address
    else do url_new ← after_protocol complete_address; address_parse true url_new

-- get_URL
unfoldable pub get_url : Address → Text
get_url a =
    (if not a.has_http_prefix then http_prefix else [])
    ++ (a.address ++ (port_separator ∷ (to_string a.port ++ path_separator ∷ [])))
