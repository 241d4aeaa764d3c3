-- ===== src/Process/Served.antt =====
-- A client whose connection is known, and what leaves it known.
use ironhide.Base.{◌≡◌, ◌∙◌, refl, ap, sym, subst, false, some, inl, inr, Bool-cases}
use ironhide.StdMap.Laws.{OrdersOn, or_else}
use ironhide.Base.Result.{Result-cases}
use ironhide.Entry.{ConnectionEntry, entry_eq, entry_lt}
use ironhide.Entry.Order.{entry_eq_iff}
use ironhide.Classifier.Chains.{IsSfcMap, classify_pkt-IsSfcMap}
use ironhide.Db.{EndpointType, ProtocolType}
use ironhide.Db.Roulette.Backend.{Backend}
use ironhide.Endpoint.State.{update_entry, on_net, Endpoint, SockConn, add_entry}
use ironhide.Endpoint.Connections.{
  connection, HasConnections, connection-add_entry, connection-update_entry,
  connection-delete_entry, find-delete_entry,
}
use ironhide.Process.Kept.{Invariant, add_entry-Steady, update_entry-Steady, delete_entry-Steady}
use ironhide.Process.{on_classifier, routes, on_endpoint}

module _ {ℓ} (P : ConnectionEntry → Type ℓ) (ord : OrdersOn entry_lt P) (backend : Backend)
    (ce : ConnectionEntry) where
  -- The entry has this connection, and the maps are as they should be.
  pub record IsServed (c : SockConn) (e : Endpoint) : Type ℓ where
    pub found : connection P ord e ce ≡ some c
    pub ordered : HasConnections P ord e
    pub sfc : IsSfcMap e.sfc_map

  -- A packet that enters does not change the connection that an entry has.
  pub add_entry-keeps :
      (endpoint : EndpointType) (prt : ProtocolType) (ce' : ConnectionEntry) (c conn : SockConn)
      (e : Endpoint)
      → P ce
      → P ce'
      → HasConnections P ord e
      → connection P ord e ce ≡ some c
      → connection P ord (add_entry backend ce' conn.0 conn.1 endpoint prt e).1 ce ≡ some c
  add_entry-keeps endpoint prt ce' c conn e p p' h has =
      let after =
        (connection-add_entry P ord backend ce' ce conn.0 conn.1 endpoint prt e p' p h).0 in
      elim (Bool-cases (entry_eq ce' ce)) [
        | inl same ↦
            let e' = (entry_eq_iff ce' ce).0 same in
            rw same at after
            ∙ ap (λ o. some (or_else o (conn.0, conn.1)))
                (subst (λ k. connection P ord e k ≡ some c) (sym e') has)
        | inr other ↦ rw other at after ∙ has
      ]

  update_entry-keeps :
      (endpoint : EndpointType) (ce' : ConnectionEntry) (c conn : SockConn) (e : Endpoint)
      → P ce
      → P ce'
      → HasConnections P ord e
      → connection P ord e ce ≡ some c
      → connection P ord (update_entry backend ce' conn.0 conn.1 endpoint e).1 ce ≡ some c
  update_entry-keeps endpoint ce' c conn e p p' h has =
      let after =
        (connection-update_entry P ord backend ce' ce conn.0 conn.1 endpoint e p' p h).0 in
      elim (Result-cases (update_entry backend ce' conn.0 conn.1 endpoint e).0) [
        | inr (x, failed) ↦ rw failed at after ∙ has
        | inl (u, done) ↦ elim (Bool-cases (entry_eq ce' ce)) [
          | inl same ↦
              let e' = (entry_eq_iff ce' ce).0 same in
              rw (done, same) at after
              ∙ ap (λ o. some (or_else o (conn.0, conn.1)))
                  (subst (λ k. connection P ord e k ≡ some c) (sym e') has)
          | inr other ↦ rw (done, other) at after ∙ has
        ]
      ]

  -- An entry of another client.
  abbrev pub IsOther : ConnectionEntry → Type ℓ
  IsOther ce' = P ce' × (entry_eq ce' ce ≡ false)

  -- A client keeps its connection while entries are added, and those of others are deleted.
  pub IsServed-Invariant : (c : SockConn) → P ce → Invariant backend P IsOther (IsServed c)
  unfolding on_classifier routes on_endpoint on_net
  IsServed-Invariant c p = record {
    knows = λ e v. v.sfc;
    classifies = λ pkt n s v. record {
      found = v.found;
      ordered = v.ordered;
      sfc = classify_pkt-IsSfcMap pkt n s.endpoint.sfc_map v.sfc;
    };
    asks = λ p_id s v. record { found = v.found; ordered = v.ordered; sfc = v.sfc };
    adds = λ ce' fd sockin endpoint prt q e v. record {
      found = add_entry-keeps endpoint prt ce' c (fd, sockin) e p q v.ordered v.found;
      ordered =
          (connection-add_entry P ord backend ce' ce fd sockin endpoint prt e q p v.ordered).1;
      sfc =
          (add_entry-Steady e backend ce' fd sockin endpoint prt e
            (v.sfc, refl, refl, refl, refl)).0;
    };
    updates = λ ce' fd sockin endpoint q e v. record {
      found = update_entry-keeps endpoint ce' c (fd, sockin) e p q v.ordered v.found;
      ordered = (connection-update_entry P ord backend ce' ce fd sockin endpoint e q p v.ordered).1;
      sfc =
          (update_entry-Steady e backend ce' fd sockin endpoint e
            (v.sfc, refl, refl, refl, refl)).0;
    };
    deletes = λ ce' q e v. record {
      found = rw (q.1) at (find-delete_entry P ord backend ce' ce e q.0 p v.ordered) ∙ v.found;
      ordered = (connection-delete_entry P ord backend ce' ce e q.0 p v.ordered).1;
      sfc = (delete_entry-Steady e backend ce' e (v.sfc, refl, refl, refl, refl)).0;
    };
  }
