-- ===== src/Db/Query/Endpoints.antt =====
-- The endpoints of a query that a Builder makes: at most one of each type, the last one set.
use ironhide.Base.{List, [], ◌∷◌, ◌++◌, none, some, ◌≡◌, ◌≢◌, refl, arith, true, if◌then◌else◌}
use ironhide.Base.Result.{ok, err, endpoint_not_found}
use ironhide.Db.Types.{EndpointType, endpoint_type_eq}
use ironhide.Db.Query.{Endpoint, find_endpoint, get_endpoint}
use ironhide.Db.Query.Builder.{Builder, builder, replace_endpoint, set_endpoint, build_query}

-- How many endpoints of a type a list holds is at most one.
abbrev AtMostOne : EndpointType → List Endpoint → Type 0
AtMostOne t [] = Unit {0}
AtMostOne t (e ∷ es) =
    (endpoint_type_eq e.type_of_proxy t ≡ true → find_endpoint es t ≡ err endpoint_not_found)
    × AtMostOne t es

abbrev pub HasUniqueTypes : Builder → Type 0
HasUniqueTypes b = (t : EndpointType) → AtMostOne t b.endpoints

find_endpoint-append :
    (t : EndpointType) (es : List Endpoint) (e : Endpoint)
    → find_endpoint (es ++ e ∷ []) t ≡ elim (find_endpoint es t) [
      | ok f ↦ ok f
      | err x ↦ if endpoint_type_eq e.type_of_proxy t then ok e else err x
    ]
unfolding find_endpoint
find_endpoint-append t [] e = ground arith
find_endpoint-append t (f ∷ es) e = ground (arith, find_endpoint-append t es e)

-- The endpoints that set_endpoint leaves.
with_endpoint : List Endpoint → Endpoint → List Endpoint
with_endpoint es e = elim (replace_endpoint es e) [ none ↦ es ++ e ∷ [] | some es' ↦ es' ]

with_endpoint_cons :
    (f : Endpoint) (es : List Endpoint) (e : Endpoint)
    → with_endpoint (f ∷ es) e ≡ (
        if endpoint_type_eq f.type_of_proxy e.type_of_proxy
        then es ++ e ∷ []
        else f ∷ with_endpoint es e)
unfolding with_endpoint replace_endpoint
with_endpoint_cons f es e = ground arith

set_endpoint_endpoints :
    (b : Builder) (e : Endpoint) → (set_endpoint b e).endpoints ≡ with_endpoint b.endpoints e
unfolding set_endpoint with_endpoint
set_endpoint_endpoints b e = ground arith

type_eq_sound : (s t : EndpointType) → endpoint_type_eq s t ≡ true → s ≡ t
type_eq_sound s t h = ground arith

type_eq_refl : (t : EndpointType) → endpoint_type_eq t t ≡ true
type_eq_refl t = ground arith

with_endpoint_self :
    (es : List Endpoint) (e : Endpoint)
    → AtMostOne e.type_of_proxy es
    → find_endpoint (with_endpoint es e) e.type_of_proxy ≡ ok e
unfolding find_endpoint
with_endpoint_self [] e u =
    unfold with_endpoint replace_endpoint in rw (type_eq_refl e.type_of_proxy)
with_endpoint_self (f ∷ es) e u = rw with_endpoint_cons (
    ground (
      arith,
      find_endpoint-append e.type_of_proxy es e,
      type_eq_refl e.type_of_proxy,
      with_endpoint_self es e u.1,
    ))

with_endpoint_ne :
    (es : List Endpoint) (e : Endpoint) (t : EndpointType)
    → t ≢ e.type_of_proxy
    → find_endpoint (with_endpoint es e) t ≡ find_endpoint es t
unfolding find_endpoint
with_endpoint_ne [] e t ne =
    unfold with_endpoint replace_endpoint in ground (arith, type_eq_sound e.type_of_proxy t)
with_endpoint_ne (f ∷ es) e t ne = rw with_endpoint_cons (
    ground (
      arith,
      find_endpoint-append t es e,
      type_eq_sound f.type_of_proxy t,
      type_eq_sound e.type_of_proxy t,
      type_eq_sound f.type_of_proxy e.type_of_proxy,
      with_endpoint_ne es e t ne,
    ))

with_endpoint_found :
    (es : List Endpoint) (e : Endpoint) (t : EndpointType)
    → AtMostOne t es
    → find_endpoint (with_endpoint es e) t
      ≡ (if endpoint_type_eq e.type_of_proxy t then ok e else find_endpoint es t)
with_endpoint_found es e t u = ground (
  arith,
  type_eq_sound e.type_of_proxy t,
  type_eq_refl t,
  with_endpoint_self es e,
  with_endpoint_ne es e t,
)

-- Setting an endpoint keeps at most one of each type.
AtMostOne-append :
    (t : EndpointType) (es : List Endpoint) (e : Endpoint)
    → (endpoint_type_eq e.type_of_proxy t ≡ true → find_endpoint es t ≡ err endpoint_not_found)
    → AtMostOne t es
    → AtMostOne t (es ++ e ∷ [])
unfolding find_endpoint
AtMostOne-append t [] e h u = (λ _. refl, tt)
AtMostOne-append t (f ∷ es) e h u =
    ground (arith, find_endpoint-append t es e, AtMostOne-append t es e)

with_endpoint-AtMostOne :
    (t : EndpointType) (es : List Endpoint) (e : Endpoint)
    → AtMostOne t es
    → AtMostOne e.type_of_proxy es
    → AtMostOne t (with_endpoint es e)
unfolding find_endpoint
with_endpoint-AtMostOne t [] e u w = unfold with_endpoint replace_endpoint in (λ _. refl, tt)
with_endpoint-AtMostOne t (f ∷ es) e u w = rw with_endpoint_cons (
    ground (
      arith,
      AtMostOne-append t es e,
      with_endpoint_ne es e t,
      with_endpoint-AtMostOne t es e u.1 w.1,
      type_eq_sound f.type_of_proxy t,
      type_eq_sound e.type_of_proxy t,
      type_eq_refl e.type_of_proxy,
    ))

-- A new builder has at most one endpoint of each type, and set_endpoint keeps that.
pub set_endpoint-HasUniqueTypes :
    (b : Builder) (e : Endpoint) → HasUniqueTypes b → HasUniqueTypes (set_endpoint b e)
set_endpoint-HasUniqueTypes b e u t =
    rw set_endpoint_endpoints (with_endpoint-AtMostOne t b.endpoints e (u t) (u e.type_of_proxy))

pub builder-HasUniqueTypes : HasUniqueTypes builder
unfolding builder
builder-HasUniqueTypes t = tt

-- For a builder with at most one endpoint of each type, of the query that is built after
-- set_endpoint, get_endpoint returns the endpoint that was set for its type, and for the other type
-- what it returned before. The new builder has at most one endpoint of each type again.
pub get_endpoint-set_endpoint :
    (b : Builder) (e : Endpoint) (t : EndpointType)
    → HasUniqueTypes b
    → (get_endpoint (build_query (set_endpoint b e)) t
        ≡ (if endpoint_type_eq e.type_of_proxy t then ok e else get_endpoint (build_query b) t))
      × HasUniqueTypes (set_endpoint b e)
unfolding get_endpoint build_query
get_endpoint-set_endpoint b e t u = (
  rw set_endpoint_endpoints (with_endpoint_found b.endpoints e t (u t)),
  set_endpoint-HasUniqueTypes b e u,
)
