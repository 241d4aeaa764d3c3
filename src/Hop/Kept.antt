-- ===== src/Hop/Kept.antt =====
-- What sending to a hop keeps.
use ironhide.Base.{ℕ, ◌+◌, true, List, [], ◌∷◌}
use ironhide.Base.Exec.{Exec, Keeps, Keeps-bind, lift, pure, ◌>>◌}
use ironhide.Base.Text.{c_str}
use ironhide.Wire.{u16}
use ironhide.Packet.{zeros}
use ironhide.Sfc.{SfcHeader, header_size, prepend_header}
use ironhide.Db.Address.{Address}
use ironhide.Endpoint.State.{Endpoint}
use ironhide.Socket.{Kernel}
use ironhide.Client.Udp.{send_and_wait_response}
use ironhide.Process.{Process, on_calls}
use ironhide.Process.Kept.{On, on_calls-On}
use ironhide.Hop.{forward}

pub forward-On {ℓ} :
    (I : Endpoint → Type ℓ) (kernel : Kernel) (pkt : List ℕ) (pkt_len : ℕ)
    (flh : List Address → SfcHeader) (path : List Address)
    → Keeps (On I) (forward kernel pkt pkt_len flh path)
unfolding forward
forward-On I kernel pkt pkt_len flh [] = λ s v. v
forward-On I kernel pkt pkt_len flh (first ∷ path) =
    let send : List ℕ → Exec Process (Unit {0}) = λ p. on_calls (
      send_and_wait_response kernel p (pkt_len + header_size) (c_str first.address)
        (u16 first.port)) in
    Keeps-bind (On I)
      (lift (prepend_header pkt pkt_len (flh (first ∷ path)) (zeros (pkt_len + header_size))))
      (λ p. send p >> pure true) (λ s v. v)
      (λ p.
        Keeps-bind (On I) (send p) (λ _. pure true)
          (on_calls-On I (
            send_and_wait_response kernel p (pkt_len + header_size) (c_str first.address)
              (u16 first.port)))
          (λ _ s v. v))
