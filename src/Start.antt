-- ===== src/Start.antt =====
-- src/main.cpp, and the methods start of src/endpoint: what a program of given options listens to.
pub mod Ports
use ironhide.Base.{ℕ, Bool, true, false, List, [], ◌∷◌, Option, none, some, if◌then◌else◌}
use ironhide.Base.Result.{Result, ok, err, exit_failure, exit_success, bind, ◌>>=◌}
use ironhide.Base.Text.{Text, stoi}
use ironhide.Wire.{u16}
use ironhide.Db.{ProtocolType, tcp, udp}
use ironhide.Db.Address.{Address, address_of_text}
use ironhide.Db.Roulette.Backend.{Net}
use ironhide.Endpoint.State.{Endpoint, Ifaddrs, new_endpoint}

-- What getopt gives for "ei:o:h".
pub data Opt : Type 0 where
  opt_e opt_h unknown : Opt
  opt_i opt_o : Text → Opt

pub record Options : Type 0 where
  pub ext_port : ℕ
  pub int_port : ℕ
  pub is_egress : Bool

unfoldable pub defaults : Options
defaults = record { ext_port = 8787; int_port = 8778; is_egress = false }

-- One option.
unfoldable pub set_option : Opt → Options → Result Options
set_option opt_e o = ok (record o { is_egress = true })
set_option (opt_i optarg) o = bind (stoi optarg) (λ n. ok (record o { int_port = u16 n }))
set_option (opt_o optarg) o = bind (stoi optarg) (λ n. ok (record o { ext_port = u16 n }))
set_option opt_h o = err exit_success
set_option unknown o = err exit_failure

-- The loop over the options.
unfoldable pub parse_options : List Opt → Options → Result Options
unfolding set_option
parse_options [] o = ok o
parse_options (c ∷ cs) o = bind (set_option c o) (parse_options cs)

-- The callbacks of the servers.
pub data Callback : Type 0 where
  ingress_from_chain entering_udp entering_tcp egress_from_chain : Callback

-- A server with its port and its callback, in a thread of its own.
pub record Listener : Type 0 where
  pub prt : ProtocolType
  pub port : ℕ
  pub callback : Callback

-- Ingress::start
unfoldable pub start_ingress : Endpoint → List Listener
start_ingress s =
    record { prt = udp; port = s.int_port; callback = ingress_from_chain }
    ∷ record { prt = udp; port = s.ext_port; callback = entering_udp }
    ∷ record { prt = tcp; port = s.ext_port; callback = entering_tcp }
    ∷ []

-- Egress::start
unfoldable pub start_egress : Endpoint → List Listener
start_egress s = record { prt = udp; port = s.int_port; callback = egress_from_chain } ∷ []

-- main: the endpoint and its servers, from the options, the variable ROULETTE_SERVICE, the address
-- that stands for it where it is not set, and the interfaces of the machine.
unfoldable pub main :
    List Opt → Option Text → Address → Net → List Ifaddrs → Result (Endpoint × List Listener)
unfolding defaults parse_options new_endpoint start_ingress start_egress
main opts env_p roulette net ifaddrs = do
  o ← parse_options opts defaults
  address ← elim env_p [ none ↦ ok roulette | some ip ↦ address_of_text ip ]
  let s = new_endpoint address [] net ifaddrs o.ext_port o.int_port
  ok (s, if o.is_egress then start_egress s else start_ingress s)
