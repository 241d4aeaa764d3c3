-- ===== src/Start/Ports.antt =====
-- The ports that a program of given options listens on.
use ironhide.Base.{
  ℕ, Bool, true, false, ◌||◌, ◌≡◌, ◌∙◌, refl, ap, List, [], ◌∷◌, Option, none, some, Option-cases,
  inl, inr, if◌then◌else◌, Bool-cases, take,
}
use mathlib.Core.Bool.{or-true, or-false}
use ironhide.Base.Result.{Result, Error, ok, err, exit_failure, exit_success, ◌>>=◌, Result-cases}
use ironhide.Base.Text.{Text, codes, text_eq, stoi}
use ironhide.StdMap.Laws.{or_else}
use ironhide.Wire.{u16}
use ironhide.Db.{tcp, udp}
use ironhide.Db.Address.{Address, address_of_text}
use ironhide.Db.Roulette.Backend.{Net}
use ironhide.Endpoint.State.{
  Endpoint, Ifaddrs, IfaAddr, null, inet, inet6, other, set_my_ip, new_endpoint, retrieve_ip,
  see_interface,
}
use ironhide.Start.{
  Opt, opt_e, opt_h, unknown, opt_i, opt_o, Options, defaults, set_option, parse_options, Listener,
  ingress_from_chain, entering_udp, entering_tcp, egress_from_chain, start_ingress, start_egress,
  main,
}

-- How an option ends the program, if it does: the help, an option that there is not, or a port that
-- is no number.
abbrev failure_of : Result ℕ → Option Error
failure_of (ok n) = none
failure_of (err e) = some e

abbrev failure : Opt → Option Error
failure opt_e = none
failure (opt_i optarg) = failure_of (stoi optarg)
failure (opt_o optarg) = failure_of (stoi optarg)
failure opt_h = some exit_success
failure unknown = some exit_failure

abbrev earlier : Option Error → Option Error → Option Error
earlier (some e) later = some e
earlier none later = later

abbrev pub first_failure : List Opt → Option Error
first_failure [] = none
first_failure (c ∷ cs) = earlier (failure c) (first_failure cs)

-- The ports of an option.
abbrev port_of : Result ℕ → Option ℕ
port_of (ok n) = some (u16 n)
port_of (err e) = none

abbrev int_port_of : Opt → Option ℕ
int_port_of (opt_i optarg) = port_of (stoi optarg)
int_port_of _ = none

abbrev ext_port_of : Opt → Option ℕ
ext_port_of (opt_o optarg) = port_of (stoi optarg)
ext_port_of _ = none

-- The last port among the options, or else the given one.
abbrev pub last : (Opt → Option ℕ) → List Opt → ℕ → ℕ
last port [] default = default
last port (c ∷ cs) default = last port cs (or_else (port c) default)

abbrev pub any_egress : List Opt → Bool
any_egress [] = false
any_egress (opt_e ∷ cs) = true
any_egress (_ ∷ cs) = any_egress cs

-- What the options come to where none ends the program.
abbrev pub chosen : List Opt → Options → Options
chosen cs o = record {
  ext_port = last ext_port_of cs o.ext_port;
  int_port = last int_port_of cs o.int_port;
  is_egress = any_egress cs || o.is_egress;
}

abbrev unless : {A : Type 0} → Option Error → Result A → Result A
unless none r = r
unless (some e) r = err e

parse_options_lem :
    (cs : List Opt) (o : Options)
    → parse_options cs o ≡ unless (first_failure cs) (ok (chosen cs o))
unfolding parse_options set_option
parse_options_lem [] o = refl
parse_options_lem (opt_e ∷ cs) o =
    rw or-true at (parse_options_lem cs (record o { is_egress = true }))
parse_options_lem (opt_i optarg ∷ cs) o = elim (Result-cases (stoi optarg)) [
  | inl (n, e) ↦ rw e (parse_options_lem cs (record o { int_port = u16 n }))
  | inr (x, e) ↦ rw e
]
parse_options_lem (opt_o optarg ∷ cs) o = elim (Result-cases (stoi optarg)) [
  | inl (n, e) ↦ rw e (parse_options_lem cs (record o { ext_port = u16 n }))
  | inr (x, e) ↦ rw e
]
parse_options_lem (opt_h ∷ cs) o = refl
parse_options_lem (unknown ∷ cs) o = refl

-- The interfaces of the machine do not change the ports.
ports-see_interface :
    (s : Endpoint) (name : Text) (address : IfaAddr)
    → let s' = see_interface s (record { ifa_name = name; ifa_addr = address }) in
      (s'.ext_port ≡ s.ext_port) × (s'.int_port ≡ s.int_port)
unfolding see_interface set_my_ip
ports-see_interface s name null = (refl, refl)
ports-see_interface s name (inet6 address) = (refl, refl)
ports-see_interface s name other = (refl, refl)
ports-see_interface s name (inet address) =
    elim (Bool-cases (text_eq (take 4 name) (codes "eth0"))) [
      | inl e ↦ rw e (refl, refl)
      | inr e ↦ rw e (refl, refl)
    ]

ports-retrieve_ip :
    (s : Endpoint) (ifaddrs : List Ifaddrs)
    → ((retrieve_ip s ifaddrs).ext_port ≡ s.ext_port)
      × ((retrieve_ip s ifaddrs).int_port ≡ s.int_port)
unfolding retrieve_ip
ports-retrieve_ip s [] = (refl, refl)
ports-retrieve_ip s (ifa ∷ rest) =
    let (ext, int) = ports-retrieve_ip (see_interface s ifa) rest in
    let (same_ext, same_int) = ports-see_interface s ifa.ifa_name ifa.ifa_addr in
    (ext ∙ same_ext, int ∙ same_int)

ports-new_endpoint :
    (address : Address) (net : Net) (ifaddrs : List Ifaddrs) (ext_port int_port : ℕ)
    → let s = new_endpoint address [] net ifaddrs ext_port int_port in
      (s.ext_port ≡ ext_port) × (s.int_port ≡ int_port)
unfolding new_endpoint
ports-new_endpoint address net ifaddrs ext_port int_port = ports-retrieve_ip _ ifaddrs

-- The servers of an end with the given ports.
abbrev pub listeners : Bool → ℕ → ℕ → List Listener
listeners is_egress ext_port int_port =
    if is_egress
    then record { prt = udp; port = int_port; callback = egress_from_chain } ∷ []
    else record { prt = udp; port = int_port; callback = ingress_from_chain }
      ∷ record { prt = udp; port = ext_port; callback = entering_udp }
      ∷ record { prt = tcp; port = ext_port; callback = entering_tcp }
      ∷ []

listens-started :
    (is_egress : Bool) (s : Endpoint) (ext_port int_port : ℕ)
    → s.ext_port ≡ ext_port
    → s.int_port ≡ int_port
    → (if is_egress then start_egress s else start_ingress s)
      ≡ listeners is_egress ext_port int_port
unfolding start_egress start_ingress
listens-started true s ext_port int_port ext int = rw int
listens-started false s ext_port int_port ext int = rw (ext, int)

-- The program fails by the first of its options that ends it: with success for the help, with
-- failure for an option that there is not, and with what std::stoi throws for a port that is no
-- number. Else it makes an endpoint at the address of the service, which is that of the variable
-- if it is set, and is an egress if any option says so; it listens on the last ports that the
-- options give, modulo 2 ^ 16, or else on 8787 outside and 8778 inside the chain: for packets of
-- the chain, and as an ingress for the packets and connections of clients.
pub main_lem :
    (opts : List Opt) (env_p : Option Text) (roulette : Address) (net : Net)
    (ifaddrs : List Ifaddrs)
    → let ext_port = last ext_port_of opts 8787 in
      let int_port = last int_port_of opts 8778 in
      main opts env_p roulette net ifaddrs
      ≡ unless (first_failure opts) (
          elim env_p [ none ↦ ok roulette | some ip ↦ address_of_text ip ] >>= λ address. ok (
            new_endpoint address [] net ifaddrs ext_port int_port,
            listeners (any_egress opts) ext_port int_port,
          ))
unfolding main defaults
main_lem opts env_p roulette net ifaddrs =
    let parsed = rw or-false at (parse_options_lem opts defaults) in
    let found : Result Address = elim env_p [ none ↦ ok roulette | some ip ↦ address_of_text ip ] in
    let ext_port = last ext_port_of opts 8787 in
    let int_port = last int_port_of opts 8778 in
    elim (Option-cases (first_failure opts)) [
      | inl none_fails ↦ elim (Result-cases found) [
        | inl (address, e) ↦
            let s = new_endpoint address [] net ifaddrs ext_port int_port in
            let (ext, int) = ports-new_endpoint address net ifaddrs ext_port int_port in
            rw (parsed, none_fails, e)
              (ap (λ l. ok (s, l)) (listens-started (any_egress opts) s ext_port int_port ext int))
        | inr (x, e) ↦ rw (parsed, none_fails, e)
      ]
      | inr (x, fails) ↦ rw (parsed, fails)
    ]
