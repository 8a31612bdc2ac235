-- ===== src/Examples/Managers.antt =====
-- Runs of the process manager of pkg/process/process_manager.go on the ports 10000 to 10010.
use longhorn_engine_launcher.Prelude.{
  ℕ, zero, suc, ◌+◌, ◌<◌, ◌≡◌, ◌≢◌, ◌≤◌, refl, sym, ◌∙◌, true, false, some, [], arith,
}
use longhorn_engine_launcher.Prelude.Int.{pos, to_i32}
use longhorn_engine_launcher.Prelude.Text.{Text, codes, text_eq, text_eq_refl}
use longhorn_engine_launcher.Prelude.Strings.{split, trim_space, is_space}
use longhorn_engine_launcher.Prelude.Decimal.{atoi}
use longhorn_engine_launcher.Prelude.Dict.{lookup, insert}
use longhorn_engine_launcher.Util.{parse_manager_port_range}
use longhorn_engine_launcher.Process.{Process, command}
use longhorn_engine_launcher.Ports.{PortLaws, bit}
use longhorn_engine_launcher.Ports.Pool.{Pool, pool, pool_laws}
use longhorn_engine_launcher.Manager.{
  Manager, empty_manager, new_manager, new_object, register_process, init_process_replace,
  allocate_process_ports, allocate_ports, add_port_args, no_process,
}
use longhorn_engine_launcher.Manager.Handlers.{Env, ProcessSpec}
use longhorn_engine_launcher.Manager.Holding.{has}
use longhorn_engine_launcher.Manager.System.{
  System, IsNew, creates, SameBinary, returns_early, Reach, here, next, Inv,
}
use longhorn_engine_launcher.Manager.Ownership.{
  Step-Inv, Reach-Inv, new_manager-Inv, leaked_never_free, reachable_ports_apart,
}

abbrev port_range : Text
port_range = codes "10000-10010"

abbrev pub ports : Pool
ports = record { first_port = 10000; last_port = 10010; unused = λ port. true }

abbrev pub empty : Manager Pool
empty = empty_manager (pos 10000) (pos 10010) ports

abbrev pub env : Text → Env
env uuid = record {
  logger_fails = false;
  uuid = uuid;
  new_command = λ binary args. command 1;
  now = 5;
}

abbrev pub spec : Text → Text → ProcessSpec
spec name binary = record {
  name = name;
  binary = binary;
  args = [];
  port_count = pos 1;
  port_args = [];
}

abbrev process_of : Text → Text → Text → Process
process_of uuid name binary = record no_process {
  name = name;
  binary = binary;
  uuid = uuid;
  port_count = pos 1;
}

pub differ : (s t : Text) → text_eq s t ≡ false → s ≢ t
differ s t h e = true_ne_false (sym (rw e (text_eq_refl t)) ∙ h)
  where
    true_ne_false : true ≡ false → ⊥
    true_ne_false x = cc

parsed : new_manager pool port_range ≡ some empty
unfolding new_manager parse_manager_port_range split trim_space is_space atoi to_i32
parsed = refl

abbrev pub first : Process
first = process_of (codes "u-1") (codes "a") (codes "bin")

abbrev second : Process
second = process_of (codes "u-2") (codes "b") (codes "bin")

abbrev same_again : Process
same_again = process_of (codes "u-2") (codes "a") (codes "bin")

abbrev pub with_first : Manager Pool
with_first = (register_process pool 0 (new_object pool first empty)).0

abbrev with_both : Manager Pool
with_both = (register_process pool 1 (new_object pool second with_first)).0

abbrev system : Manager Pool → System Pool
system m = record { manager = m; replacing = [] }

first-IsNew : IsNew empty first
first-IsNew = record { no_start = refl; no_end = refl; new_uuid = λ r lt e. absurd (omega arith) }

only_first :
    (p : Process)
    → (with_first.heap 0).uuid ≢ p.uuid
    → (r : ℕ) → r < 1
    → (with_first.heap r).uuid ≢ p.uuid
only_first p ne zero lt = ne
only_first p ne (suc r) lt = absurd (omega arith)

other_uuid : (with_first.heap 0).uuid ≢ codes "u-2"
unfolding register_process new_object lookup allocate_process_ports allocate_ports add_port_args
    text_eq
other_uuid = differ (with_first.heap 0).uuid (codes "u-2") refl

second-IsNew :
    (p : Process)
    → p.uuid ≡ codes "u-2"
    → p.port_start ≡ pos 0
    → p.port_end ≡ pos 0
    → IsNew with_first p
unfolding register_process new_object lookup allocate_process_ports allocate_ports add_port_args
    text_eq
second-IsNew p hu hs he = record {
  no_start = hs;
  no_end = he;
  new_uuid = only_first p (rw hu other_uuid);
}

one_step : Reach pool (system empty) (system with_first)
one_step = next here (creates first first-IsNew refl)

two_steps : Reach pool (system empty) (system with_both)
unfolding register_process new_object lookup allocate_process_ports allocate_ports add_port_args
    text_eq
two_steps = next one_step (creates second (second-IsNew second refl refl refl) refl)

start-Inv : Inv pool_laws (λ port. 0) (system empty)
start-Inv = new_manager-Inv pool pool_laws port_range empty parsed

first-Inv : Inv pool_laws (λ port. 0) (system with_first)
first-Inv = Reach-Inv pool pool_laws (λ port. 0) one_step start-Inv

Step-Inv_example : Inv pool_laws (λ port. 0) (system with_first)
Step-Inv_example = Step-Inv pool pool_laws (λ port. 0) (creates first first-IsNew refl) start-Inv

reachable_ports_apart_example :
    has 10000 (with_both.heap 0)
      + has 10000 (with_both.heap 1)
      + bit (PortLaws.free pool_laws with_both.available_ports 10000)
    ≤ 1
unfolding register_process new_object lookup allocate_process_ports insert text_eq allocate_ports
    add_port_args
reachable_ports_apart_example =
    reachable_ports_apart pool pool_laws port_range empty (system with_both) parsed two_steps
      (codes "a") (codes "b") 0 1 (differ (codes "a") (codes "b") refl) refl refl 10000
      (omega arith)

abbrev pub after_replace : Manager Pool
after_replace = (init_process_replace pool 1 (new_object pool same_again with_first)).0

returned : SameBinary pool (system with_first) (system after_replace)
unfolding register_process init_process_replace new_object lookup allocate_process_ports insert
    text_eq allocate_ports add_port_args
returned = returns_early same_again 0 (second-IsNew same_again refl refl refl) refl refl refl

leaked_never_free_example : PortLaws.free pool_laws after_replace.available_ports 10001 ≡ false
unfolding register_process init_process_replace new_object lookup allocate_process_ports insert
    text_eq allocate_ports add_port_args
leaked_never_free_example =
    leaked_never_free pool pool_laws (λ port. 0) (system with_first) (system after_replace)
      (system after_replace) 10001 first-Inv returned (omega arith) refl here
