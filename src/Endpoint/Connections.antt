-- ===== src/Endpoint/Connections.antt =====
-- The connections that an Endpoint knows, under every behaviour of the roulette service.
use ironhide.Base.{if◌then◌else◌, Option-cases, Option, none, some, ◌≡◌, inl, inr}
use ironhide.Base.Result.{ok, err, Result-cases}
use ironhide.Base.Int.{ℤ, negsuc}
use ironhide.StdMap.{find}
use ironhide.StdMap.Laws.{OrdersOn, IsMap, or_else}
use ironhide.StdMap.Kept.{insert-IsMap, erase-IsMap}
use ironhide.Entry.{ConnectionEntry, entry_eq, entry_lt}
use ironhide.Entry.Maps.{find-insert, find-erase}
use ironhide.Db.{EndpointType, ProtocolType}
use ironhide.Db.Roulette.Backend.{Backend}
use ironhide.Endpoint.State.{
  Endpoint, SockaddrIn, SockConn, no_address, add_entry, update_entry, delete_entry, delete_found,
  retrieve_connection_2,
}
use ironhide.Endpoint.Changes.{
  connection_map-add_entry, connection_map-update_entry, connection_map-delete_found,
  delete_entry-absent, retrieve-found, retrieve-absent, find-absent, delete_entry-present,
}

module _ {ℓ} (P : ConnectionEntry → Type ℓ) (ord : OrdersOn entry_lt P) where
  -- The connections are in order, and their entries in `P`.
  abbrev pub HasConnections : Endpoint → Type ℓ
  HasConnections s = IsMap entry_lt P s.connection_map

  -- The connection of an entry in `P`, if there is one.
  abbrev pub connection : Endpoint → ConnectionEntry → Option SockConn
  connection s ce = find entry_lt ce s.connection_map

  -- After add_entry, whatever the service answers and also where it fails, the entry has the
  -- connection that it had, or else the new one; any other entry has the connection that it had;
  -- and the connections are in order. The entries are from a set that operator< orders.
  pub connection-add_entry :
      (backend : Backend) (ce j : ConnectionEntry) (fd : ℤ) (sockin : SockaddrIn)
      (endpoint : EndpointType) (protocol : ProtocolType) (s : Endpoint)
      → P ce
      → P j
      → HasConnections s
      → let s' = (add_entry backend ce fd sockin endpoint protocol s).1 in
        (connection s' j ≡ (
          if entry_eq ce j then some (or_else (connection s ce) (fd, sockin)) else connection s j))
        × HasConnections s'
  connection-add_entry backend ce j fd sockin endpoint protocol s p q h =
      let e = connection_map-add_entry backend ce fd sockin endpoint protocol s in
      (
        rw e (find-insert P ord ce j p q s.connection_map h (fd, sockin)),
        rw e (insert-IsMap entry_lt P ord ce (fd, sockin) s.connection_map p h),
      )

  -- After delete_entry, also where the service fails, retrieve_connection_2 finds no connection for
  -- the entry, and for any other entry the connection that it found before; and the connections are
  -- in order. The entries are from a set that operator< orders.
  pub connection-delete_entry :
      (backend : Backend) (ce j : ConnectionEntry) (s : Endpoint)
      → P ce
      → P j
      → HasConnections s
      → let s' = (delete_entry backend ce s).1 in
        (retrieve_connection_2 s' j
          ≡ (if entry_eq ce j then (negsuc 0, no_address) else retrieve_connection_2 s j))
        × HasConnections s'
  connection-delete_entry backend ce j s p q h =
      elim (Option-cases (find entry_lt ce s.connection_map)) [
        | inl absent ↦
            let e = delete_entry-absent backend ce s absent in
            (rw e (retrieve-absent ce j s absent), rw e h)
        | inr (c, present) ↦
            let e = delete_entry-present backend ce s c present in
            let e' = connection_map-delete_found backend ce s in
            (
              rw e (
                  retrieve-found (delete_found backend ce s).1 s ce j
                    (rw e' (find-erase P ord ce j p q s.connection_map h))),
              rw (e, e') (erase-IsMap entry_lt P ord ce s.connection_map p h),
            )
      ]

  -- The same of the map.
  pub find-delete_entry :
      (backend : Backend) (ce j : ConnectionEntry) (s : Endpoint)
      → P ce
      → P j
      → HasConnections s
      → connection (delete_entry backend ce s).1 j
        ≡ (if entry_eq ce j then none else connection s j)
  find-delete_entry backend ce j s p q h = elim (Option-cases (find entry_lt ce s.connection_map)) [
    | inl absent ↦ rw (delete_entry-absent backend ce s absent) (find-absent ce j s absent)
    | inr (c, present) ↦
        let e = delete_entry-present backend ce s c present in
        let e' = connection_map-delete_found backend ce s in
        rw (e, e') (find-erase P ord ce j p q s.connection_map h)
  ]

  -- update_entry, if it returns, leaves the entry the connection that it had, or else gives it the
  -- new one, and if it throws gives it none; any other entry has the connection that it had; and
  -- the connections are in order. The entries are from a set that operator< orders.
  pub connection-update_entry :
      (backend : Backend) (ce j : ConnectionEntry) (fd : ℤ) (sockin : SockaddrIn)
      (endpoint : EndpointType) (s : Endpoint)
      → P ce
      → P j
      → HasConnections s
      → let r = update_entry backend ce fd sockin endpoint s in
        (connection r.1 j ≡ elim r.0 [
          | ok u ↦
              if entry_eq ce j
              then some (or_else (connection s ce) (fd, sockin))
              else connection s j
          | err e ↦ connection s j
        ])
        × HasConnections r.1
  connection-update_entry backend ce j fd sockin endpoint s p q h =
      let changed = connection_map-update_entry backend ce fd sockin endpoint s in
      elim (Result-cases (update_entry backend ce fd sockin endpoint s).0) [
        | inl (u, e) ↦ (
          rw (changed, e) (find-insert P ord ce j p q s.connection_map h (fd, sockin)),
          rw (changed, e) (insert-IsMap entry_lt P ord ce (fd, sockin) s.connection_map p h),
        )
        | inr (x, e) ↦ (rw (changed, e), rw (changed, e) h)
      ]
