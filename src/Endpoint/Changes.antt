-- ===== src/Endpoint/Changes.antt =====
-- What each operation of src/endpoint/endpoint.cpp does to the map of connections.
use ironhide.Base.{
  Bool-cases, subst, if◌then◌else◌, [], ◌∷◌, none, some, ◌≡◌, refl, ◌∙◌, arith, inl, inr,
}
use ironhide.Base.Result.{ok, err, Result-cases}
use ironhide.Base.Exec.{frame_bind, modify}
use ironhide.Base.Text.{Text, c_str}
use ironhide.Base.Int.{ℤ, negsuc}
use ironhide.StdMap.{find, insert, erase}
use ironhide.Entry.{ConnectionEntry, entry_eq, entry_lt}
use ironhide.Entry.Order.{entry_eq_iff}
use ironhide.Db.{EndpointType, ProtocolType}
use ironhide.Db.Roulette.Backend.{Backend}
use ironhide.Db.Roulette.Client
use ironhide.Db.Roulette.Client.{create_entry, update_endpoint}
use ironhide.Endpoint.State.{
  Endpoint, SockaddrIn, SockConn, no_address, on_net, add_entry, update_entry, delete_entry,
  delete_found, remote_id, subscript_remote, retrieve_connection_2, remember, insert_connection,
  add_query, update_query, local_endpoint,
}

-- What an operation that is an exchange with the service does to the connections.
remember-map :
    (ce : ConnectionEntry) (r : Text) (s : Endpoint)
    → (remember ce r s).connection_map ≡ s.connection_map
unfolding remember
remember-map ce [] s = refl
remember-map ce (c ∷ t) s = refl

subscript_remote-map :
    (ce : ConnectionEntry) (s : Endpoint)
    → (subscript_remote ce s).connection_map ≡ s.connection_map
unfolding subscript_remote
subscript_remote-map ce s = ground arith

module _ (backend : Backend) (ce : ConnectionEntry) (fd : ℤ) (sockin : SockaddrIn)
    (endpoint : EndpointType) where
  -- add_entry inserts the connection whatever the service answers.
  pub connection_map-add_entry :
      (protocol : ProtocolType) (s : Endpoint)
      → (add_entry backend ce fd sockin endpoint protocol s).1.connection_map
        ≡ insert entry_lt ce (fd, sockin) s.connection_map
  unfolding add_entry on_net
  connection_map-add_entry protocol s =
      let s' = insert_connection ce (fd, sockin) s in
      let query = add_query s' ce fd endpoint protocol in
      frame_bind (λ (x : Endpoint). x.connection_map)
        (on_net (create_entry backend s.roulette query)) (λ response. modify (remember ce response))
        (λ _. refl) (remember-map ce) s'

  -- update_entry inserts it only if the service could be asked.
  pub connection_map-update_entry :
      (s : Endpoint)
      → (update_entry backend ce fd sockin endpoint s).1.connection_map
        ≡ elim (update_entry backend ce fd sockin endpoint s).0 [
          | ok u ↦ insert entry_lt ce (fd, sockin) s.connection_map
          | err e ↦ s.connection_map
        ]
  unfolding update_entry on_net
  connection_map-update_entry s =
      elim (Result-cases
        (update_endpoint backend s.roulette (update_query ce) (local_endpoint s fd endpoint)
          s.net).0) [ inl (d, e) ↦ rw e | inr (x, e) ↦ rw e ]

-- delete_entry erases the connection, also where the service fails.
pub connection_map-delete_found :
    (backend : Backend) (ce : ConnectionEntry) (s : Endpoint)
    → (delete_found backend ce s).1.connection_map ≡ erase entry_lt ce s.connection_map
unfolding delete_found on_net
connection_map-delete_found backend ce s =
    let s' =
      subscript_remote ce (record s { connection_map = erase entry_lt ce s.connection_map }) in
    frame_bind (λ (x : Endpoint). x.connection_map)
      (on_net (Client.delete_entry backend s'.roulette (c_str (remote_id ce s'))))
      (λ d. modify (λ x. record x { map_to_remote = erase entry_lt ce x.map_to_remote }))
      (λ _. refl) (λ _ _. refl) s'
    ∙ subscript_remote-map ce (record s { connection_map = erase entry_lt ce s.connection_map })

-- delete_entry on its two branches.
pub delete_entry-absent :
    (backend : Backend) (ce : ConnectionEntry) (s : Endpoint)
    → find entry_lt ce s.connection_map ≡ none
    → delete_entry backend ce s ≡ (ok tt, s)
unfolding delete_entry
delete_entry-absent backend ce s absent = rw (absent, delete_entry)

pub delete_entry-present :
    (backend : Backend) (ce : ConnectionEntry) (s : Endpoint) (c : SockConn)
    → find entry_lt ce s.connection_map ≡ some c
    → delete_entry backend ce s ≡ delete_found backend ce s
unfolding delete_entry
delete_entry-present backend ce s c present = rw (present, delete_entry)

-- What retrieve_connection_2 finds where the lookups agree with those of a state without the entry.
pub retrieve-found :
    (s' s : Endpoint) (ce j : ConnectionEntry)
    → find entry_lt j s'.connection_map
      ≡ (if entry_eq ce j then none else find entry_lt j s.connection_map)
    → retrieve_connection_2 s' j
      ≡ (if entry_eq ce j then (negsuc 0, no_address) else retrieve_connection_2 s j)
unfolding retrieve_connection_2
retrieve-found s' s ce j h = elim (Bool-cases (entry_eq ce j)) [
  | inl e ↦ let found = rw e at h in rw (e, found, retrieve_connection_2)
  | inr e ↦ let found = rw e at h in rw (e, found, retrieve_connection_2)
]

pub retrieve-absent :
    (ce j : ConnectionEntry) (s : Endpoint)
    → find entry_lt ce s.connection_map ≡ none
    → retrieve_connection_2 s j
      ≡ (if entry_eq ce j then (negsuc 0, no_address) else retrieve_connection_2 s j)
unfolding retrieve_connection_2
retrieve-absent ce j s absent = elim (Bool-cases (entry_eq ce j)) [
  | inl e ↦
      let same = (entry_eq_iff ce j).0 e in
      rw e (
        subst (λ k. retrieve_connection_2 s k ≡ (negsuc 0, no_address)) same
          (rw (absent, retrieve_connection_2)))
  | inr e ↦ rw e
]

pub find-absent :
    (ce j : ConnectionEntry) (s : Endpoint)
    → find entry_lt ce s.connection_map ≡ none
    → find entry_lt j s.connection_map
      ≡ (if entry_eq ce j then none else find entry_lt j s.connection_map)
find-absent ce j s absent = elim (Bool-cases (entry_eq ce j)) [
  | inl e ↦
      let same = (entry_eq_iff ce j).0 e in
      rw e (subst (λ k. find entry_lt k s.connection_map ≡ none) same absent)
  | inr e ↦ rw e
]
