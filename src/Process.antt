-- ===== src/Process.antt =====
-- What the handlers of an endpoint work on: the object, and the calls of the system.
pub mod Kept
pub mod Served
use ironhide.Base.Exec.{Exec, modify, gets, ◌>>=◌}
use ironhide.Base.{ℕ, List, [], ◌∷◌}
use ironhide.Base.Int.{ℤ}
use ironhide.Classifier.{SfcMap}
use ironhide.Db.Address.{Address}
use ironhide.Db.Roulette.Backend.{Backend}
use ironhide.Db.Roulette.Client.{get_route_list}
use ironhide.Endpoint.State.{Endpoint, on_net}
use ironhide.Socket.{receive, no_address, Calls, Call, Answer, Kernel, call, call_}

pub record Process : Type 0 where
  pub endpoint : Endpoint
  pub calls : Calls

-- A call of the classifier, of a method of the base class, of a client, and of the system.
unfoldable pub on_classifier : {A : Type 0} → Exec SfcMap A → Exec Process A
on_classifier m s =
    let (r, sfc_map) = m s.endpoint.sfc_map in
    (r, record s { endpoint = record s.endpoint { sfc_map = sfc_map } })

unfoldable pub on_endpoint : {A : Type 0} → Exec Endpoint A → Exec Process A
on_endpoint m s = let (r, endpoint) = m s.endpoint in (r, record s { endpoint = endpoint })

unfoldable pub on_calls : {A : Type 0} → Exec Calls A → Exec Process A
on_calls m s = let (r, calls) = m s.calls in (r, record s { calls = calls })

unfoldable pub sys : Kernel → Call → Exec Process Answer
unfolding on_calls call
sys kernel c = on_calls (call kernel c)

unfoldable pub sys_ : Kernel → Call → Exec Process (Unit {0})
unfolding on_calls call_
sys_ kernel c = on_calls (call_ kernel c)

-- `roulette_->get_route_list`
unfoldable pub routes : Backend → ℕ → Exec Process (List Address)
unfolding on_endpoint on_net
routes backend p_id = do
  roulette ← gets (λ (s : Process). s.endpoint.roulette)
  on_endpoint (on_net (get_route_list backend roulette p_id))

-- BUFFER_SIZE of src/CMakeLists.txt
abbrev pub buffer_size : ℕ
buffer_size = 65536

-- utils::PacketUtils::ack
abbrev pub ack : List ℕ
ack = 65 ∷ 67 ∷ 75 ∷ []

-- What a socket gives from now on, one `recv`, `read` or `recvfrom` after another: some bytes, the
-- first of which stands apart, until the peer closes or an error comes.
pub data Stream : Type 0 where
  closes fails : Stream
  receives : ℕ → List ℕ → Stream → Stream

-- A receive that stored `bytes` and gave `result`.
unfoldable pub receive_one : ℤ → ℤ → List ℕ → Exec Process (Unit {0})
unfolding on_calls
receive_one fd result bytes = on_calls (
    modify (λ calls.
      (
        receive fd buffer_size,
        record { result = result; bytes = bytes; peer = no_address; addresses = [] },
      )
      ∷ calls))
