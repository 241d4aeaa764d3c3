-- ===== src/Db/Roulette/Requests.antt =====
-- What the methods of DBQuery send, return and leave open.
use ironhide.Base.{ℕ, ◌+◌, Bool, true, [], ◌∷◌, ◌++◌, ◌≡◌, arith, inl, inr}
use ironhide.Base.Result.{Result, ok, err, Result-cases, bind}
use ironhide.Base.Exec.{◌>>=◌, lift}
use ironhide.Base.Text.{Text, to_string}
use ironhide.Db.Key
use ironhide.Db.Address.{Address}
use ironhide.Db.Query.{Endpoint, Query, query_to_json, endpoint_to_json, to_url}
use ironhide.Db.Roulette.Backend.{Request, Net, Backend}
use ironhide.Db.Roulette.Replies.{handle_req, id_of, found_entry, found_route}
use ironhide.Db.Roulette.Client.{
  curl_req_handle, transfer, gather, create_entry, update_endpoint, get_entry, delete_entry,
  get_route_list, item_url, path_url, get_request, put_request, delete_request,
}

-- What a method leaves open: nothing if it returns, and its handle if it throws.
abbrev pub left_open {ℓ} : {A : Type ℓ} → Result A → ℕ
left_open (ok a) = 0
left_open (err e) = 1

module _ (backend : Backend) where
  open backend use {easy_init, perform, styled}

  -- The reply of the service, as the callback gathers it.
  abbrev pub reply_to : Net → Request → Bool × Text
  reply_to s r = ((perform s.sent r).0, gather [] (perform s.sent r).1)

  -- One exchange with the service: a request made from a URL, and what its reply means.
  abbrev pub exchange :
      {A : Type 0}
      → Result Text
      → (Text → Request)
      → (Bool × Text → Result A)
      → Net
      → Result A × Net
  exchange (err e) request meaning s = (err e, record s { open_handles = s.open_handles + 1 })
  exchange (ok url) request meaning s =
      let r = meaning (reply_to s (request url)) in
      (r, record { sent = s.sent ++ request url ∷ []; open_handles = s.open_handles + left_open r })

  handled :
      {A : Type 0} (url : Result Text) (request : Text → Request) (meaning : Bool × Text → Result A)
      (s : Net)
      → easy_init s.sent ≡ true
      → curl_req_handle backend
          (lift url >>= λ u. transfer backend (request u) >>= λ reply. lift (meaning reply))
          s
        ≡ exchange url request meaning s
  unfolding curl_req_handle transfer
  handled (err e) request meaning s init = rw init
  handled (ok url) request meaning s init =
      elim (Result-cases (meaning (reply_to s (request url)))) [
        | inl (a, e) ↦ rw (init, e) (ground arith)
        | inr (x, e) ↦ rw (init, e)
      ]

  -- If curl gives a handle, each method is one exchange with the service: at most one request, made
  -- when its URL can be built, its reply read by the method, and the handle left open exactly when
  -- the method throws.
  pub methods-exchange :
      (roulette_addr : Address) (query : Query) (endpoint : Endpoint) (id : Text) (p_id : ℕ)
      (s : Net)
      → easy_init s.sent ≡ true
      → (create_entry backend roulette_addr query s
          ≡ exchange
              (path_url backend roulette_addr Key.endpoint_prefix)
              (λ u. put_request backend u (query_to_json styled query))
              (id_of backend)
              s)
        × (update_endpoint backend roulette_addr query endpoint s
            ≡ exchange
                (bind (to_url query) (path_url backend roulette_addr))
                (λ u. put_request backend u (endpoint_to_json styled endpoint))
                (handle_req backend)
                s)
        × (get_entry backend roulette_addr id s
            ≡ exchange
                (item_url backend roulette_addr Key.endpoint_prefix id)
                (get_request backend)
                (found_entry backend)
                s)
        × (delete_entry backend roulette_addr id s
            ≡ exchange
                (item_url backend roulette_addr Key.endpoint_prefix id)
                (delete_request backend)
                (handle_req backend)
                s)
        × (get_route_list backend roulette_addr p_id s
            ≡ exchange
                (item_url backend roulette_addr Key.route_prefix (to_string p_id))
                (get_request backend)
                (found_route backend)
                s)
  unfolding create_entry update_endpoint get_entry delete_entry get_route_list
  methods-exchange roulette_addr query endpoint id p_id s init = (
    handled _ _ _ s init,
    handled _ _ _ s init,
    handled _ _ _ s init,
    handled _ _ _ s init,
    handled _ _ _ s init,
  )
