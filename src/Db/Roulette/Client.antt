-- ===== src/Db/Roulette/Client.antt =====
-- src/db/dbquery.cpp: the methods of DBQuery.
use ironhide.Base.{
  ℕ, Bool, List, [], ◌∷◌, ◌++◌, ◌+◌, ◌-◌, ◌*◌, none, some, if◌then◌else◌, take, length,
}
use ironhide.Base.Result.{Result, ok, err, exit_failure}
use ironhide.Base.Result
use ironhide.Base.Exec.{Exec, pure, lift, ◌>>=◌, ◌>>◌}
use ironhide.Base.Text.{Text, codes, to_string, c_str}
use ironhide.Db.Key
use ironhide.Db.Address.{Address}
use ironhide.Db.UrlBuilder
use ironhide.Db.UrlBuilder.{set_address, add_path, add_paths, build}
use ironhide.Db.Query.{Endpoint, Query, endpoint_to_json, query_to_json, to_url}
use ironhide.Db.Roulette.Backend.{Request, Net, Backend}
use ironhide.Db.Roulette.Replies.{handle_req, id_of, found_entry, found_route}

-- curl_callback: the new data and the count that it returns.
unfoldable pub curl_callback : Text → ℕ → ℕ → Text → Text × ℕ
curl_callback ptr size nmemb data' = (data' ++ take (size * nmemb) ptr, size * nmemb)

-- The data that the callback has gathered from the chunks, bytes of size one.
unfoldable pub gather : Text → List Text → Text
unfolding curl_callback
gather data' [] = data'
gather data' (chunk ∷ chunks) = gather (curl_callback chunk 1 (length chunk) data').0 chunks

module _ (backend : Backend) where
  open backend use {easy_init, perform, styled}

  -- init_local_res
  unfoldable pub init_local_res : Exec Net (Unit {0})
  init_local_res s =
      if easy_init s.sent
      then (ok tt, record s { open_handles = s.open_handles + 1 })
      else (err exit_failure, s)

  -- clear_local_res
  unfoldable pub clear_local_res : Exec Net (Unit {0})
  clear_local_res s = (ok tt, record s { open_handles = s.open_handles - 1 })

  -- curl_req_handle: a request that throws skips the cleanup.
  unfoldable pub curl_req_handle : {A : Type 0} → Exec Net A → Exec Net A
  unfolding init_local_res clear_local_res
  curl_req_handle req = do init_local_res; res ← req; clear_local_res; pure res

  -- The transfer with its data gathered: the code, and the data.
  unfoldable pub transfer : Request → Exec Net (Bool × Text)
  unfolding gather
  transfer r s =
      let reply = perform s.sent r in
      (ok (reply.0, gather [] reply.1), record s { sent = s.sent ++ r ∷ [] })

  -- `roulette_addr` as the start of a URL
  base_url : Address → UrlBuilder.UrlBuilder
  unfolding set_address
  base_url roulette_addr = set_address UrlBuilder.new roulette_addr

  -- The URL of one endpoint entry, or of one route: prefix and name.
  unfoldable pub item_url : Address → Text → Text → Result Text
  unfolding base_url
  item_url roulette_addr prefix name =
      Result.bind (add_paths (base_url roulette_addr) (prefix ∷ name ∷ [])) (λ b. ok (build b))

  -- The URL with one path.
  unfoldable pub path_url : Address → Text → Result Text
  unfolding base_url
  path_url roulette_addr path =
      Result.bind (add_path (base_url roulette_addr) path) (λ b. ok (build b))

  abbrev pub get_request : Text → Request
  get_request url = record { method = codes "GET"; url = c_str url; body = none }

  abbrev pub delete_request : Text → Request
  delete_request url = record { method = codes "DELETE"; url = c_str url; body = none }

  abbrev pub put_request : Text → Text → Request
  put_request url body = record { method = codes "PUT"; url = c_str url; body = some (c_str body) }

  -- create_entry
  unfoldable pub create_entry : Address → Query → Exec Net Text
  create_entry roulette_addr query = curl_req_handle do
    req_addr ← lift (path_url roulette_addr Key.endpoint_prefix)
    reply ← transfer (put_request req_addr (query_to_json styled query))
    lift (id_of backend reply)

  -- update_endpoint
  unfoldable pub update_endpoint : Address → Query → Endpoint → Exec Net Bool
  update_endpoint roulette_addr query to_add = curl_req_handle do
    req_addr ← lift (Result.bind (to_url query) (path_url roulette_addr))
    reply ← transfer (put_request req_addr (endpoint_to_json styled to_add))
    lift (handle_req backend reply)

  -- get_entry
  unfoldable pub get_entry : Address → Text → Exec Net Query
  get_entry roulette_addr id = curl_req_handle do
    req_addr ← lift (item_url roulette_addr Key.endpoint_prefix id)
    reply ← transfer (get_request req_addr)
    lift (found_entry backend reply)

  -- delete_entry
  unfoldable pub delete_entry : Address → Text → Exec Net Bool
  delete_entry roulette_addr id = curl_req_handle do
    req_addr ← lift (item_url roulette_addr Key.endpoint_prefix id)
    reply ← transfer (delete_request req_addr)
    lift (handle_req backend reply)

  -- get_route_list
  unfoldable pub get_route_list : Address → ℕ → Exec Net (List Address)
  get_route_list roulette_addr p_id = curl_req_handle do
    req_addr ← lift (item_url roulette_addr Key.route_prefix (to_string p_id))
    reply ← transfer (get_request req_addr)
    lift (found_route backend reply)
