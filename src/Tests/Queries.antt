-- ===== src/Tests/Queries.antt =====
-- Addresses, URLs and queries.
use ironhide.Base.{
  ℕ, Bool, not, ◌&&◌, ◌==◌, ◌≡◌, refl, arith, [], ◌∷◌, none, some, true, false, All,
}
use ironhide.Base.Result.{ok}
use ironhide.Base.Text.{Text, codes, to_string, decimal}
use ironhide.Db.{ingress_t, tcp}
use ironhide.Db.Address.{Address, address_of_text, get_url}
use ironhide.Db.Address.Parsing.{get_url-address_of_text, address_of_text_http}
use ironhide.Db.UrlBuilder.Segments.{IsPlain}
use ironhide.Db.Query.{Query, get_endpoint, to_url}
use ironhide.Db.Query.Builder.{builder, build_query, set_endpoint}
use ironhide.Db.Query.Endpoints.{HasUniqueTypes, builder-HasUniqueTypes, get_endpoint-set_endpoint}
use ironhide.Db.Query.Urls.{to_url_lem}
use ironhide.Tests.Data.{ingress, egress}

get_url-address_of_text_example :
    (a : Address) × (address_of_text (codes "db:80/x") ≡ ok a)
    × (a.address ≡ codes "db")
    × (a.port ≡ 80)
    × (get_url a ≡ codes "http://db:80/")
unfolding to_string decimal
get_url-address_of_text_example =
    get_url-address_of_text (codes "db") 80 (some (codes "x")) ((refl, refl), ((refl, refl), tt))
      (omega arith) (omega arith)

address_of_text_http_example :
    (a : Address) × (address_of_text (codes "http://db:80") ≡ ok a)
    × (a.address ≡ codes "b")
    × (get_url a ≡ codes "b:80/")
unfolding to_string decimal
address_of_text_http_example =
    address_of_text_http b'd' (codes "b") 80 none ((refl, refl), tt) (omega arith) (omega arith)
      (omega arith)

-- A test for plain segments.
abbrev plain_bytes : Text → Bool
plain_bytes [] = true
plain_bytes (c ∷ s) = not (c == 0) && not (c == b'/') && plain_bytes s

plain_bytes-All :
    (s : Text) → plain_bytes s ≡ true → All (λ c. ((c == 0) ≡ false) × ((c == b'/') ≡ false)) s
plain_bytes-All [] h = tt
plain_bytes-All (c ∷ s) h = ground (arith, plain_bytes-All s)

segment : (c : ℕ) (s : Text) → plain_bytes (c ∷ s) ≡ true → IsPlain (c ∷ s)
segment c s h = ((λ e. cc), plain_bytes-All (c ∷ s) h)

get_endpoint-set_endpoint_example :
    (get_endpoint (build_query (set_endpoint (set_endpoint builder ingress) egress)) ingress_t
      ≡ get_endpoint (build_query (set_endpoint builder ingress)) ingress_t)
    × HasUniqueTypes (set_endpoint (set_endpoint builder ingress) egress)
get_endpoint-set_endpoint_example =
    get_endpoint-set_endpoint (set_endpoint builder ingress) egress ingress_t
      (get_endpoint-set_endpoint builder ingress ingress_t builder-HasUniqueTypes).1

abbrev query : Query
query = record {
  item_id = [];
  ip_src = codes "a";
  ip_dst = codes "b";
  port_src = 1;
  port_dst = 2;
  prt = tcp;
  id_sfc = codes "0";
  endpoints = ingress ∷ [];
  type = none;
}

to_url_lem_example : to_url query ≡ ok (codes "endpoints/egress/a/b/1/2/0/tcp/10.0.0.3:80/5")
unfolding to_string decimal
to_url_lem_example = to_url_lem query (
  segment b'e' (codes "gress") refl,
  (
    segment b'a' (codes "") refl,
    (
      segment b'b' (codes "") refl,
      (
        segment b'1' (codes "") refl,
        (
          segment b'2' (codes "") refl,
          (
            segment b'0' (codes "") refl,
            (
              segment b't' (codes "cp") refl,
              (segment b'1' (codes "0.0.0.3:80") refl, (segment b'5' (codes "") refl, tt)),
            ),
          ),
        ),
      ),
    ),
  ),
)
