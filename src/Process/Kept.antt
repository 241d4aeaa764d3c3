-- ===== src/Process/Kept.antt =====
-- What every handler keeps of its endpoint, whatever it is given and however it ends.
use ironhide.Base.{ℕ, ◌≡◌, List, [], ◌∷◌, Option-cases, inl, inr}
use ironhide.Base.Exec.{Exec, Keeps, Keeps-bind, modify}
use ironhide.Base.Int.{ℤ}
use ironhide.Base.Text.{Text, c_str}
use ironhide.StdMap.{find, erase}
use ironhide.Entry.{ConnectionEntry, entry_lt}
use ironhide.Classifier.{classify_pkt}
use ironhide.Classifier.Chains.{IsSfcMap, classify_pkt-IsSfcMap}
use ironhide.Db.{EndpointType, ProtocolType}
use ironhide.Db.Roulette.Backend.{Backend}
use ironhide.Db.Roulette.Client
use ironhide.Endpoint.State.{
  Endpoint, on_net, remember, subscript_remote, remote_id, add_entry, update_entry, delete_found,
  delete_entry, insert_connection, add_query, update_query, local_endpoint,
}
use ironhide.Socket.{Kernel, Calls, SockaddrIn, Call}
use ironhide.Process.{Process, on_classifier, on_endpoint, on_calls, routes, sys, sys_, receive_one}

-- What a process keeps of its endpoint.
abbrev pub On {ℓ} : (Endpoint → Type ℓ) → Process → Type ℓ
On I s = I s.endpoint

-- A property of endpoints that the changes which handlers make leave in place, entries being added
-- and deleted only if they are in `A` and in `D`.
pub record Invariant {ℓ} (backend : Backend) (A D : ConnectionEntry → Type ℓ)
    (I : Endpoint → Type ℓ) : Type ℓ where
  pub knows : (e : Endpoint) → I e → IsSfcMap e.sfc_map
  pub classifies : (pkt : List ℕ) (n : ℕ) → Keeps (On I) (on_classifier (classify_pkt pkt n))
  pub asks : (p_id : ℕ) → Keeps (On I) (routes backend p_id)
  pub adds :
      (ce : ConnectionEntry) (fd : ℤ) (sockin : SockaddrIn) (endpoint : EndpointType)
      (protocol : ProtocolType)
      → A ce
      → Keeps I (add_entry backend ce fd sockin endpoint protocol)
  pub updates :
      (ce : ConnectionEntry) (fd : ℤ) (sockin : SockaddrIn) (endpoint : EndpointType)
      → A ce
      → Keeps I (update_entry backend ce fd sockin endpoint)
  pub deletes : (ce : ConnectionEntry) → D ce → Keeps I (delete_entry backend ce)

module _ {ℓ} (I : Endpoint → Type ℓ) where
  pub on_endpoint-On : {A : Type 0} (m : Exec Endpoint A) → Keeps I m → Keeps (On I) (on_endpoint m)
  unfolding on_endpoint
  on_endpoint-On m h s v = h s.endpoint v

  pub on_calls-On : {A : Type 0} (m : Exec Calls A) → Keeps (On I) (on_calls m)
  unfolding on_calls
  on_calls-On m s v = v

  pub sys-On : (kernel : Kernel) (c : Call) → Keeps (On I) (sys kernel c)
  unfolding sys on_calls
  sys-On kernel c s v = v

  pub sys_-On : (kernel : Kernel) (c : Call) → Keeps (On I) (sys_ kernel c)
  unfolding sys_ on_calls
  sys_-On kernel c s v = v

  pub receive_one-On : (fd result : ℤ) (bytes : List ℕ) → Keeps (On I) (receive_one fd result bytes)
  unfolding receive_one on_calls
  receive_one-On fd result bytes s v = v

-- The classifier's map is as the classifier keeps it, and the addresses and ports are those of `e₀`.
abbrev pub Steady : Endpoint → Endpoint → Type 0
Steady e₀ e =
    IsSfcMap e.sfc_map
    × (e.my_ip ≡ e₀.my_ip)
    × (e.ext_port ≡ e₀.ext_port)
    × (e.int_port ≡ e₀.int_port)
    × (e.roulette ≡ e₀.roulette)

module _ (e₀ : Endpoint) where
  remember-Steady :
      (ce : ConnectionEntry) (r : Text) (e : Endpoint) → Steady e₀ e → Steady e₀ (remember ce r e)
  unfolding remember
  remember-Steady ce [] e v = v
  remember-Steady ce (c ∷ t) e v = v

  module _ (backend : Backend) (ce : ConnectionEntry) (fd : ℤ) (sockin : SockaddrIn)
      (endpoint : EndpointType) where
    pub add_entry-Steady :
        (protocol : ProtocolType)
        → Keeps (Steady e₀) (add_entry backend ce fd sockin endpoint protocol)
    unfolding add_entry on_net
    add_entry-Steady protocol e v =
        let e' = insert_connection ce (fd, sockin) e in
        Keeps-bind (Steady e₀)
          (on_net (Client.create_entry backend e.roulette (add_query e' ce fd endpoint protocol)))
          (λ response. modify (remember ce response)) (λ x w. w) (remember-Steady ce) e' v

    pub update_entry-Steady : Keeps (Steady e₀) (update_entry backend ce fd sockin endpoint)
    unfolding update_entry on_net
    update_entry-Steady e v =
        Keeps-bind (Steady e₀)
          (on_net (
            Client.update_endpoint backend e.roulette (update_query ce)
              (local_endpoint e fd endpoint)))
          (λ done. modify (insert_connection ce (fd, sockin))) (λ x w. w) (λ done x w. w) e v

  subscript_remote-Steady :
      (ce : ConnectionEntry) (e : Endpoint) → Steady e₀ e → Steady e₀ (subscript_remote ce e)
  unfolding subscript_remote
  subscript_remote-Steady ce e v = elim (Option-cases (find entry_lt ce e.map_to_remote)) [
    | inl h ↦ rw (h, subscript_remote) v
    | inr (id, h) ↦ rw (h, subscript_remote) v
  ]

  delete_found-Steady :
      (backend : Backend) (ce : ConnectionEntry) → Keeps (Steady e₀) (delete_found backend ce)
  unfolding delete_found on_net
  delete_found-Steady backend ce e v =
      let e' =
        subscript_remote ce (record e { connection_map = erase entry_lt ce e.connection_map }) in
      Keeps-bind (Steady e₀)
        (on_net (Client.delete_entry backend e'.roulette (c_str (remote_id ce e'))))
        (λ d. modify (λ x. record x { map_to_remote = erase entry_lt ce x.map_to_remote }))
        (λ x w. w) (λ d x w. w) e'
        (subscript_remote-Steady ce
          (record e { connection_map = erase entry_lt ce e.connection_map }) v)

  pub delete_entry-Steady :
      (backend : Backend) (ce : ConnectionEntry) → Keeps (Steady e₀) (delete_entry backend ce)
  unfolding delete_entry
  delete_entry-Steady backend ce e v = elim (Option-cases (find entry_lt ce e.connection_map)) [
    | inl h ↦ rw (h, delete_entry) v
    | inr (c, h) ↦ rw (h, delete_entry) (delete_found-Steady backend ce e v)
  ]

  -- The same for a process.
  abbrev pub IsSteady : Process → Type 0
  IsSteady s = Steady e₀ s.endpoint

  pub on_endpoint-IsSteady :
      {A : Type 0} (m : Exec Endpoint A) → Keeps (Steady e₀) m → Keeps IsSteady (on_endpoint m)
  unfolding on_endpoint
  on_endpoint-IsSteady m h s v = h s.endpoint v

  pub on_calls-IsSteady : {A : Type 0} (m : Exec Calls A) → Keeps IsSteady (on_calls m)
  unfolding on_calls
  on_calls-IsSteady m s v = v

  pub classified-IsSteady :
      (pkt : List ℕ) (n : ℕ) → Keeps IsSteady (on_classifier (classify_pkt pkt n))
  unfolding on_classifier
  classified-IsSteady pkt n s v =
      (classify_pkt-IsSfcMap pkt n s.endpoint.sfc_map v.0, v.1, v.2, v.3, v.4)

  pub routes-IsSteady : (backend : Backend) (p_id : ℕ) → Keeps IsSteady (routes backend p_id)
  unfolding routes on_endpoint on_net
  routes-IsSteady backend p_id s v = v

  pub sys-IsSteady : (kernel : Kernel) (c : Call) → Keeps IsSteady (sys kernel c)
  unfolding sys on_calls
  sys-IsSteady kernel c s v = v

  pub sys_-IsSteady : (kernel : Kernel) (c : Call) → Keeps IsSteady (sys_ kernel c)
  unfolding sys_ on_calls
  sys_-IsSteady kernel c s v = v

  pub receive_one-IsSteady :
      (fd result : ℤ) (bytes : List ℕ) → Keeps IsSteady (receive_one fd result bytes)
  unfolding receive_one on_calls
  receive_one-IsSteady fd result bytes s v = v

  pub Steady-Invariant :
      (backend : Backend) → Invariant backend (λ ce. Unit {0}) (λ ce. Unit {0}) (Steady e₀)
  Steady-Invariant backend = record {
    knows = λ e v. v.0;
    classifies = classified-IsSteady;
    asks = routes-IsSteady backend;
    adds =
        λ ce fd sockin endpoint protocol _. add_entry-Steady backend ce fd sockin endpoint protocol;
    updates = λ ce fd sockin endpoint _. update_entry-Steady backend ce fd sockin endpoint;
    deletes = λ ce _. delete_entry-Steady backend ce;
  }
