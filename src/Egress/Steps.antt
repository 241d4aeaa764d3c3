-- ===== src/Egress/Steps.antt =====
-- The egress as a machine: packets of the chain arrive, and leave a task behind, and each task is
-- run once, in any order. A handler runs from its start to its end.
pub mod Sockets
use ironhide.Base.{ℕ, ◌≡◌, refl, List, [], ◌∷◌, ◌++◌, All}
use ironhide.Base.Result.{Error, ok, err}
use ironhide.Base.Text.{Text}
use ironhide.Packet.{Iphdr, Udphdr}
use ironhide.Packet.Retrieve.{advance, retrieve_ip_udp_header}
use ironhide.Sfc.{SfcHeader, header_size, retrieve_header}
use ironhide.Classifier.Chains.{IsSfcMap}
use ironhide.Db.Roulette.Backend.{Backend}
use ironhide.Endpoint.State.{Endpoint, retrieve_connection_2}
use ironhide.Socket.{Kernel, sendto, inet}
use ironhide.Process.{Process, Stream, sys_, ack}
use ironhide.Hop.{chain_entry}
use ironhide.Process.Kept.{IsSteady}
use ironhide.Ingress.{UdpPktMngmntArgs}
use ironhide.Ingress.Chain.{conn_type}
use ironhide.Egress.{Task, manage_pkt_from_chain, run_task}

-- The process and the tasks that wait.
pub record Machine : Type 0 where
  pub process : Process
  pub waiting : List Task

module _ (int_to_ip : ℕ → Text) (ip_to_int : Text → ℕ) (backend : Backend) (kernel : Kernel) where
  pub data Step (m : Machine) : Machine → Type 0 where
    arrives :
        (args : UdpPktMngmntArgs) (task : Task) (s' : Process)
        → manage_pkt_from_chain int_to_ip ip_to_int backend kernel args m.process ≡ (ok task, s')
        → Step m (record { process = s'; waiting = task ∷ m.waiting })
    fails :
        (args : UdpPktMngmntArgs) (e : Error) (s' : Process)
        → manage_pkt_from_chain int_to_ip ip_to_int backend kernel args m.process ≡ (err e, s')
        → Step m (record { process = s'; waiting = m.waiting })
    runs :
        (before after : List Task) (task : Task) (datagram : List ℕ) (stream : Stream)
        → m.waiting ≡ before ++ (task ∷ after)
        → Step m (record {
          process = (run_task int_to_ip ip_to_int backend kernel datagram task stream m.process).1;
          waiting = before ++ after;
        })

  -- What an egress can become that starts as `m₀`.
  pub data Reached (m₀ : Machine) : Machine → Type 0 where
    starts : Reached m₀ m₀
    steps : {m m' : Machine} → Reached m₀ m → Step m m' → Reached m₀ m'
