-- ===== src/Examples/Requests.antt =====
-- Runs of the handlers of pkg/process/process_manager.go on the manager of Examples/Managers.antt.
use longhorn_engine_launcher.Prelude.{
  Bool, ℕ, ◌≡◌, ◌⊎◌, ◌↔◌, refl, true, some, [], ◌∷◌, if◌then◌else◌,
}
use longhorn_engine_launcher.Prelude.Text.{codes, text_eq}
use longhorn_engine_launcher.Prelude.Dict.{lookup}
use longhorn_engine_launcher.Process.{running, rpc_response}
use longhorn_engine_launcher.Ports.Pool.{Pool, pool, pool_laws}
use longhorn_engine_launcher.Manager.{
  Manager, ok, allocate_process_ports, allocate_ports, add_port_args, commit_replace,
}
use longhorn_engine_launcher.Manager.Handlers.{
  ProcessSpec, new_process, process_create, wait_replacement, replace_rounds,
}
use longhorn_engine_launcher.Manager.PortArgs.{allocate_process_ports-cases, Refused, Granted}
use longhorn_engine_launcher.Manager.Conditions.{
  Mounts, update_conditions, but_conditions, update_conditions-same,
}
use longhorn_engine_launcher.Manager.Registry.Creating.{process_create-ok}
use longhorn_engine_launcher.Manager.Registry.Replacing.{
  StartsWithin, KeepsStarting, wait_replacement-goes_on_iff,
}
use longhorn_engine_launcher.Examples.Managers.{ports, empty, env, spec, first, after_replace}

allocate_process_ports-cases_example :
    Refused pool pool_laws ports first ⊎ Granted pool pool_laws ports first
allocate_process_ports-cases_example = allocate_process_ports-cases pool pool_laws ports first

abbrev request : ProcessSpec
request = spec (codes "a") (codes "bin")

process_create-ok_example :
    let r = process_create pool (env (codes "u-1")) request empty in
    (lookup (codes "a") r.0.processes
      ≡ (if text_eq (codes "a") (codes "a") then some 0 else lookup (codes "a") empty.processes))
    × (r.1 ≡ ok (rpc_response (r.0.heap 0)))
unfolding lookup new_process allocate_process_ports allocate_ports add_port_args
process_create-ok_example =
    process_create-ok pool pool_laws (env (codes "u-1")) request empty (codes "a")
      (refl, refl, refl) refl refl

-- Process 1 replaces process 0.
abbrev committed_replace : Manager Pool
committed_replace = (commit_replace pool 1 0 after_replace).0

-- Nothing happens while ProcessReplace waits.
abbrev idle : ℕ → Manager Pool → Manager Pool
idle i m = m

wait_replacement-goes_on_iff_example :
    ((wait_replacement pool replace_rounds idle 0 1 after_replace).1 ≡ true) ↔ (
      StartsWithin idle 1 replace_rounds 0 after_replace
      ⊎ KeepsStarting idle 1 replace_rounds 0 after_replace)
wait_replacement-goes_on_iff_example = wait_replacement-goes_on_iff idle 1 pool after_replace

abbrev mounts : Mounts Bool
mounts = record {
  is_engine_process = λ name. true;
  name_sha = λ name. name;
  is_read_only = λ read_only. read_only;
  mount_points = (codes "p", true) ∷ [];
}

abbrev running_engine : Manager Pool
running_engine = record empty {
  heap = λ r. record first { name = codes "p-e-0"; state = running };
  processes = (codes "p-e-0", 0) ∷ [];
  next_ref = 1;
}

update_conditions-same_example :
    let x = (update_conditions pool mounts running_engine.processes running_engine).0 in
    (but_conditions [] (x.heap 0) ≡ but_conditions [] (running_engine.heap 0))
    × (x.processes ≡ running_engine.processes)
    × (x.available_ports ≡ running_engine.available_ports)
    × (x.next_ref ≡ running_engine.next_ref)
update_conditions-same_example =
    update_conditions-same pool mounts running_engine.processes running_engine [] 0
