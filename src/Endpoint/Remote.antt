-- ===== src/Endpoint/Remote.antt =====
-- The ids of src/endpoint/endpoint.cpp: the service's id of an entry, from add_entry to delete_entry.
use ironhide.Base.{◌∷◌, Option, none, some, ◌≡◌, refl, inl, inr, ℕ, Bool, List}
use ironhide.Base.Result.{Result, ok, err, Result-cases}
use ironhide.Base.Text.{Text, c_str}
use ironhide.Base.Int.{ℤ}
use ironhide.StdMap.{find, insert, assign, erase}
use ironhide.StdMap.Laws.{OrdersOn, IsMap, find-insert_self, find-assign_self, find-erase_self}
use ironhide.StdMap.Kept.{insert-IsMap, assign-IsMap}
use ironhide.Entry.{ConnectionEntry, entry_lt}
use ironhide.Db.{EndpointType, ProtocolType}
use ironhide.Db.Roulette.Backend.{Backend, Net}
use ironhide.Db.Roulette.Client
use ironhide.Db.Roulette.Client.{create_entry}
use ironhide.Endpoint.State.{
  Endpoint, SockaddrIn, SockConn, on_net, add_entry, delete_entry, delete_found, remote_id,
  subscript_remote, local_endpoint, remember, add_query,
}
use ironhide.Endpoint.Changes.{delete_entry-present}

-- What delete_entry leaves of the id of its entry, by what the service does.
abbrev pub id_after : Text → Result Bool → Option Text
id_after id r = elim r [ ok d ↦ none | err e ↦ some id ]

-- What add_entry leaves of the state where the service answers with the id.
abbrev with_id : ConnectionEntry → SockConn → Text → Net → Endpoint → Endpoint
with_id ce conn id net s = record s {
  connection_map = insert entry_lt ce conn s.connection_map;
  map_to_remote = assign entry_lt ce id s.map_to_remote;
  net = net;
}

-- add_entry where the service answers with an id that is not empty.
add_entry-id :
    (backend : Backend) (ce : ConnectionEntry) (fd : ℤ) (sockin : SockaddrIn)
    (endpoint : EndpointType) (protocol : ProtocolType) (s : Endpoint) (c : ℕ) (t : Text)
    (net : Net)
    → create_entry backend s.roulette (add_query s ce fd endpoint protocol) s.net
      ≡ (ok (c ∷ t), net)
    → add_entry backend ce fd sockin endpoint protocol s
      ≡ (ok tt, with_id ce (fd, sockin) (c ∷ t) net s)
unfolding add_entry on_net remember add_query local_endpoint
add_entry-id backend ce fd sockin endpoint protocol s c t net h = rw h

-- What delete_entry returns, by what the service does.
abbrev pub outcome : Result Bool → Result (Unit {0})
outcome r = elim r [ ok d ↦ ok tt | err e ↦ err e ]

-- An entry with an id has it in `map_to_remote` already.
subscript_remote-id :
    (ce : ConnectionEntry) (s : Endpoint) (id : Text)
    → find entry_lt ce s.map_to_remote ≡ some id
    → subscript_remote ce s ≡ s
unfolding subscript_remote
subscript_remote-id ce s id h = rw (h, subscript_remote)

remote_id-id :
    (ce : ConnectionEntry) (s : Endpoint) (id : Text)
    → find entry_lt ce s.map_to_remote ≡ some id
    → remote_id ce s ≡ id
unfolding remote_id
remote_id-id ce s id h = rw (h, remote_id)

-- The branch of delete_entry for an entry that has an id.
delete_found-id :
    (backend : Backend) (ce : ConnectionEntry) (s : Endpoint) (id : Text)
    → find entry_lt ce s.map_to_remote ≡ some id
    → let deleted = Client.delete_entry backend s.roulette (c_str id) s.net in
      delete_found backend ce s ≡ (
        outcome deleted.0,
        record s {
          connection_map = erase entry_lt ce s.connection_map;
          map_to_remote = elim deleted.0 [
            | ok d ↦ erase entry_lt ce s.map_to_remote
            | err e ↦ s.map_to_remote
          ];
          net = deleted.1;
        },
      )
unfolding delete_found on_net
delete_found-id backend ce s id h =
    let s' = record s { connection_map = erase entry_lt ce s.connection_map } in
    let known = subscript_remote-id ce s' id h in
    let named = remote_id-id ce s' id h in
    elim (Result-cases (Client.delete_entry backend s.roulette (c_str id) s.net).0) [
      | inl (d, e) ↦ rw (known, named, e)
      | inr (x, e) ↦ rw (known, named, e)
    ]

ids_left :
    (ce : ConnectionEntry) (id : Text) (m : List (ConnectionEntry × Text)) (r : Result Bool)
    → find entry_lt ce m ≡ some id
    → find entry_lt ce (erase entry_lt ce m) ≡ none
    → find entry_lt ce (elim r [ ok d ↦ erase entry_lt ce m | err e ↦ m ]) ≡ id_after id r
ids_left ce id m (ok d) known gone = gone
ids_left ce id m (err e) known gone = known

module _ {ℓ} (P : ConnectionEntry → Type ℓ) (ord : OrdersOn entry_lt P) where
  -- After an add_entry that the service answered with an id that is not empty, delete_entry asks the
  -- service to delete that id, and throws what that throws; the entry has no connection then, and
  -- its id is kept if that throws and gone otherwise. The entries are from a set that operator<
  -- orders, and both maps are in order before.
  pub delete_entry-add_entry :
      (backend : Backend) (ce : ConnectionEntry) (fd : ℤ) (sockin : SockaddrIn)
      (endpoint : EndpointType) (protocol : ProtocolType) (s : Endpoint) (c : ℕ) (t : Text)
      (net : Net)
      → P ce
      → IsMap entry_lt P s.connection_map
      → IsMap entry_lt P s.map_to_remote
      → create_entry backend s.roulette (add_query s ce fd endpoint protocol) s.net
        ≡ (ok (c ∷ t), net)
      → let s' = (add_entry backend ce fd sockin endpoint protocol s).1 in
        let r = delete_entry backend ce s' in
        let deleted = Client.delete_entry backend s.roulette (c_str (c ∷ t)) net in
        (r.0 ≡ outcome deleted.0)
        × (r.1.net ≡ deleted.1)
        × (find entry_lt ce r.1.connection_map ≡ none)
        × (find entry_lt ce r.1.map_to_remote ≡ id_after (c ∷ t) deleted.0)
  delete_entry-add_entry backend ce fd sockin endpoint protocol s c t net p h h' created =
      let added = add_entry-id backend ce fd sockin endpoint protocol s c t net created in
      let inserted = find-insert_self entry_lt P ord ce (fd, sockin) s.connection_map p h in
      let assigned = find-assign_self entry_lt P ord ce (c ∷ t) s.map_to_remote p h' in
      let connections = insert-IsMap entry_lt P ord ce (fd, sockin) s.connection_map p h in
      let ids = assign-IsMap entry_lt P ord ce (c ∷ t) s.map_to_remote p h' in
      let s' = with_id ce (fd, sockin) (c ∷ t) net s in
      rw
        (
          added,
          delete_entry-present backend ce s' _ inserted,
          delete_found-id backend ce s' (c ∷ t) assigned,
        )
        (
          refl,
          refl,
          find-erase_self entry_lt P ord ce _ p connections,
          ids_left ce (c ∷ t) _ (Client.delete_entry backend s.roulette (c_str (c ∷ t)) net).0
              assigned (find-erase_self entry_lt P ord ce _ p ids),
        )
