-- ===== src/Db/Query/Urls.antt =====
-- The URLs that Query::to_url makes.
use ironhide.Base.{
  List, [], ◌∷◌, ◌++◌, some, ◌≡◌, ◌∙◌, refl, ap, All, ltb, lt→ltb, length, suc, arith,
  if◌then◌else◌,
}
use ironhide.Base.Result.{Result, ok, err, query_ambiguous, bind, bind-ok, bind_assoc}
use ironhide.Base.Text.{Text, to_string}
use ironhide.Db.Types.{ingress_t, egress_t}
use ironhide.Db.Key
use ironhide.Db.UrlBuilder
use ironhide.Db.UrlBuilder.{add_path, add_paths, build, last?, join}
use ironhide.Db.UrlBuilder.Segments.{IsPlain, slashed, build-add_paths}
use ironhide.Db.Query.{Endpoint, Query, connection_url, to_url, protocol_name}

-- The segments that name a connection.
abbrev pub connection_segments : Query → List Text
connection_segments q =
    q.ip_src
    ∷ q.ip_dst
    ∷ to_string q.port_src
    ∷ to_string q.port_dst
    ∷ q.id_sfc
    ∷ protocol_name q.prt
    ∷ []

connection_url-eq :
    (b : UrlBuilder.UrlBuilder) (q : Query)
    → connection_url b q ≡ add_paths b (connection_segments q)
unfolding connection_url add_paths
connection_url-eq b q = simp bind-ok

-- The segments behind the prefix.
abbrev pub url_segments : Query → List Text
url_segments q = elim q.endpoints [
  | [] ↦ (elim q.type [ some ingress_t ↦ Key.ingress | _ ↦ Key.egress ]) ∷ connection_segments q
  | e ∷ es ↦
      (elim e.type_of_proxy [ ingress_t ↦ Key.egress | egress_t ↦ Key.ingress ])
      ∷ (connection_segments q ++ e.ip ∷ e.socket_id ∷ [])
]

abbrev start : UrlBuilder.UrlBuilder
start = record { url = []; paths = Key.endpoint_prefix ∷ [] }

start_added : add_path UrlBuilder.new Key.endpoint_prefix ≡ ok start
unfolding add_path
start_added = refl

-- Segments one behind the other, a slash between each and the next.
abbrev pub path_of : List Text → Text
path_of [] = []
path_of (s ∷ ss) = s ++ slashed ss

finish : UrlBuilder.UrlBuilder → Result Text
finish b = ok (build b)

finished :
    (s : Text) (ss : List Text)
    → All IsPlain (s ∷ ss)
    → bind (add_paths start (s ∷ ss)) finish ≡ ok (Key.endpoint_prefix ++ path_of (s ∷ ss))
unfolding finish
finished s ss plain =
    let (b, run, built) =
      build-add_paths start Key.endpoint_prefix s ss last_path last_byte plain.0 plain.1 in
    rw run (ap ok (built ∙ ap (λ t. t ++ (s ++ slashed ss)) begun))
  where
    last_path : last? start.paths ≡ some Key.endpoint_prefix
    last_path = unfold last? in refl

    last_byte : last? Key.endpoint_prefix ≡ some b'/'
    last_byte = unfold last? in refl

    begun : build start ≡ Key.endpoint_prefix
    begun = unfold build join in refl

to_url_none :
    (q : Query) → q.endpoints ≡ [] → to_url q ≡ bind (add_paths start (url_segments q)) finish
unfolding to_url finish add_paths
to_url_none q h = rw (start_added, h) (simp (connection_url-eq, bind_assoc))

to_url_one :
    (q : Query) (e : Endpoint)
    → q.endpoints ≡ e ∷ []
    → to_url q ≡ bind (add_paths start (url_segments q)) finish
unfolding to_url finish add_paths
to_url_one q e h = rw (start_added, h) (simp (connection_url-eq, bind_assoc))

to_url_many :
    (q : Query) (e f : Endpoint) (es : List Endpoint)
    → q.endpoints ≡ e ∷ f ∷ es
    → to_url q ≡ err query_ambiguous
unfolding to_url
to_url_many q e f es h = rw (start_added, h)

url_cases :
    (q : Query) (es : List Endpoint)
    → q.endpoints ≡ es
    → All IsPlain (url_segments q)
    → to_url q ≡ (
        if ltb 1 (length es)
        then err query_ambiguous
        else ok (Key.endpoint_prefix ++ path_of (url_segments q)))
url_cases q [] h plain = to_url_none q h ∙ (rw h (finished _ _ (rw h at plain)))
url_cases q (e ∷ []) h plain = to_url_one q e h ∙ (rw h (finished _ _ (rw h at plain)))
url_cases q (e ∷ f ∷ es) h plain =
    rw (lt→ltb 1 (suc (suc (length es))) (omega arith)) (to_url_many q e f es h)

-- The URL of a query with at most one endpoint is the prefix "endpoints/" and its segments with one
-- slash between each and the next, where no segment is empty or holds a slash or a NUL byte; with
-- more endpoints the query is ambiguous.
pub to_url_lem :
    (q : Query)
    → All IsPlain (url_segments q)
    → to_url q ≡ (
        if ltb 1 (length q.endpoints)
        then err query_ambiguous
        else ok (Key.endpoint_prefix ++ path_of (url_segments q)))
to_url_lem q plain = url_cases q q.endpoints refl plain
