-- ===== src/Manager.antt =====
-- The process manager: pkg/process/process_manager.go. Go's pointers to processes are references
-- into a heap, so a goroutine's pointer and the entry of the map are the same object. Every function
-- here is one section under the manager's lock; Manager/Handlers.antt composes them.
pub mod Handlers
pub mod Conditions
pub mod PortArgs
pub mod Holding
pub mod System
pub mod Ownership
pub mod Registry
pub mod Refinement
pub mod Streams
use longhorn_engine_launcher.Prelude.{
  ℕ, zero, suc, ◌+◌, Bool, true, false, ◌||◌, Option, none, some, List, [], ◌∷◌, ◌++◌, ◌==◌, length,
  if◌then◌else◌,
}
use longhorn_engine_launcher.Prelude.Int.{ℤ, pos, negsuc, ◌+ℤ◌, to_i32, ltb_ℤ}
use longhorn_engine_launcher.Prelude.Text.{Text, text_eq}
use longhorn_engine_launcher.Prelude.Strings.{split}
use longhorn_engine_launcher.Prelude.Decimal.{itoa}
use longhorn_engine_launcher.Prelude.Dict.{lookup, insert, erase}
use longhorn_engine_launcher.Process.{
  Process, starting, StopAction, no_action, graceful, timeout_kill, request_stop, is_stopped,
}
use longhorn_engine_launcher.Ports.{PortBitmap}
use longhorn_engine_launcher.Util.{parse_manager_port_range}

pub data Error : Type 0 where
  invalid_argument not_found already_exists : Error
  invalid_port_range invalid_port_count port_range_exhausted too_many_port_args : Error
  cannot_fit_port_args logger_failed init_failed start_failed : Error

pub data Outcome (A : Type 0) : Type 0 where
  ok : A → Outcome A
  err : Error → Outcome A

pub record Manager (Bitmap : Type 0) : Type 0 where
  pub port_range_min : ℤ
  pub port_range_max : ℤ
  pub processes : List (Text × ℕ)
  pub available_ports : Bitmap
  pub heap : ℕ → Process
  pub next_ref : ℕ  -- references below it are in use
  pub updates : List ℕ  -- processes sent to the update channel, the newest first

abbrev pub update : (ℕ → Process) → ℕ → Process → ℕ → Process
update heap r p q = if q == r then p else heap q

module _ {Bitmap : Type 0} (B : PortBitmap Bitmap) where
  abbrev taken : Bitmap → Option (ℤ × ℤ × Bitmap) → Bitmap × Outcome (ℤ × ℤ)
  taken b none = (b, err port_range_exhausted)
  taken b (some (s, e, b')) = (b', ok (s, e))

  -- allocatePorts.
  unfoldable pub allocate_ports : Bitmap → ℤ → Bitmap × Outcome (ℤ × ℤ)
  allocate_ports b (negsuc n) = (b, err invalid_port_count)
  allocate_ports b (pos zero) = (b, ok (pos 0, pos 0))
  allocate_ports b (pos (suc n)) = taken b (PortBitmap.allocate_range B b (pos (suc n)))

  -- releasePorts: the new bitmap, and whether it failed.
  unfoldable pub release_ports : Bitmap → ℤ → ℤ → Bitmap × Bool
  release_ports b s e =
      if ltb_ℤ s (pos 0) || ltb_ℤ e (pos 0) then (b, true) else PortBitmap.release_range B b s e

-- What the heap holds at a reference that is not in use.
abbrev pub no_process : Process
no_process = record {
  name = [];
  binary = [];
  args = [];
  port_count = pos 0;
  port_args = [];
  uuid = [];
  state = starting;
  error_msg = [];
  conditions = [];
  port_start = pos 0;
  port_end = pos 0;
  deletion_timestamp = none;
  cmd = none;
}

abbrev pub empty_manager : {Bitmap : Type 0} → ℤ → ℤ → Bitmap → Manager Bitmap
empty_manager s e b = record {
  port_range_min = s;
  port_range_max = e;
  processes = [];
  available_ports = b;
  heap = λ r. no_process;
  next_ref = 0;
  updates = [];
}

module _ {Bitmap : Type 0} (B : PortBitmap Bitmap) where
  abbrev manager_of : ℤ → ℤ → Option Bitmap → Option (Manager Bitmap)
  manager_of s e none = none
  manager_of s e (some b) = some (empty_manager s e b)

  abbrev manager_in : Option (ℤ × ℤ) → Option (Manager Bitmap)
  manager_in none = none
  manager_in (some (s, e)) = manager_of s e (PortBitmap.new_bitmap B s e)

  -- NewManager; `none` is its error.
  unfoldable pub new_manager : Text → Option (Manager Bitmap)
  new_manager port_range = manager_in (parse_manager_port_range port_range)

-- The loop of allocateProcessPorts over the port arguments, from the `i`-th on.
unfoldable pub add_port_args : ℕ → List Text → Process → Process × Outcome (Unit {0})
add_port_args i [] p = (p, ok tt)
add_port_args i (arg ∷ rest) p =
    if ltb_ℤ p.port_end (to_i32 (p.port_start +ℤ pos i))
    then (p, err cannot_fit_port_args)
    else add_port_args (suc i) rest
        (record p { args = p.args ++ split b',' (arg ++ itoa (p.port_start +ℤ pos i)) })

module _ {Bitmap : Type 0} (B : PortBitmap Bitmap) where
  assign_ports : Bitmap × Outcome (ℤ × ℤ) → Process → Bitmap × Process × Outcome (Unit {0})
  assign_ports (b, err e) p = (b, record p { port_start = pos 0; port_end = pos 0 }, err e)
  assign_ports (b, ok (s, e)) p =
      let r = add_port_args 0 p.port_args (record p { port_start = s; port_end = e }) in
      (b, r.0, r.1)

  -- allocateProcessPorts. On an error the ports that were taken stay taken.
  unfoldable pub allocate_process_ports : Bitmap → Process → Bitmap × Process × Outcome (Unit {0})
  unfolding assign_ports
  allocate_process_ports b p =
      if ltb_ℤ p.port_count (pos (length p.port_args))
      then (b, p, err too_many_port_args)
      else assign_ports (allocate_ports B b p.port_count) p

  -- releaseProcessPorts; an error is only logged.
  unfoldable pub release_process_ports : Bitmap → Process → Bitmap
  unfolding release_ports
  release_process_ports b p = (release_ports B b p.port_start p.port_end).0

  -- `&Process{…}`: a new object.
  unfoldable pub new_object : Process → Manager Bitmap → Manager Bitmap
  new_object p m = record m { heap = update m.heap m.next_ref p; next_ref = suc m.next_ref }

  -- `p.UpdateCh <- p`.
  unfoldable pub send : ℕ → Manager Bitmap → Manager Bitmap
  send r m = record m { updates = r ∷ m.updates }

  pub notify : ℕ → StopAction → Manager Bitmap → Manager Bitmap
  unfolding send
  notify r no_action m = m
  notify r graceful m = send r m
  notify r timeout_kill m = send r m

  -- The part of Stop and StopWithSignal that the caller waits for.
  unfoldable pub stop_process : ℕ → ℕ → Manager Bitmap → Manager Bitmap × StopAction
  unfolding notify request_stop
  stop_process now r m =
      let (p, action) = request_stop now (m.heap r) in
      let m' : Manager Bitmap = record m { heap = update m.heap r p } in
      (notify r action m', action)

  pub register_new :
      ℕ
      → Bitmap × Process × Outcome (Unit {0})
      → Manager Bitmap
      → Manager Bitmap × Outcome (Unit {0})
  register_new r (b, p, err e) m =
      (record m { available_ports = b; heap = update m.heap r p }, err e)
  register_new r (b, p, ok u) m = (
    record m {
      available_ports = b;
      heap = update m.heap r p;
      processes = insert p.name r m.processes;
    },
    ok tt,
  )

  pub register_at : Option ℕ → ℕ → Manager Bitmap → Manager Bitmap × Outcome (Unit {0})
  unfolding register_new
  register_at (some e) r m = (m, err already_exists)
  register_at none r m = register_new r (allocate_process_ports m.available_ports (m.heap r)) m

  -- registerProcess.
  unfoldable pub register_process : ℕ → Manager Bitmap → Manager Bitmap × Outcome (Unit {0})
  unfolding register_at
  register_process r m = register_at (lookup (m.heap r).name m.processes) r m

  pub replace_init :
      ℕ → ℕ → Bitmap × Process × Outcome (Unit {0}) → Manager Bitmap → Manager Bitmap × Outcome ℕ
  replace_init r old (b, p, err e) m =
      (record m { available_ports = b; heap = update m.heap r p }, err e)
  replace_init r old (b, p, ok u) m =
      (record m { available_ports = b; heap = update m.heap r p }, ok old)

  pub replace_init_at : Option ℕ → ℕ → Manager Bitmap → Manager Bitmap × Outcome ℕ
  unfolding replace_init
  replace_init_at none r m = (m, err not_found)
  replace_init_at (some old) r m =
      replace_init r old (allocate_process_ports m.available_ports (m.heap r)) m

  -- initProcessReplace: the process to replace, as a reference.
  unfoldable pub init_process_replace : ℕ → Manager Bitmap → Manager Bitmap × Outcome ℕ
  unfolding replace_init_at
  init_process_replace r m = replace_init_at (lookup (m.heap r).name m.processes) r m

  pub same_object : Option ℕ → ℕ → Manager Bitmap → Bool
  same_object none r m = false
  same_object (some e) r m = text_eq (m.heap e).uuid (m.heap r).uuid

  -- The entry of the process's name holds a process of the same UUID.
  unfoldable pub is_current : ℕ → Manager Bitmap → Bool
  unfolding same_object
  is_current r m = same_object (lookup (m.heap r).name m.processes) r m

  -- The function under the lock in the goroutine of unregisterProcess.
  unfoldable pub remove_process : ℕ → Manager Bitmap → Manager Bitmap
  unfolding is_current release_process_ports
  remove_process r m =
      if is_current r m
      then record m {
        processes = erase (m.heap r).name m.processes;
        available_ports = release_process_ports m.available_ports (m.heap r);
      }
      else m

  -- The goroutine of unregisterProcess after its loop of WaitCount rounds.
  unfoldable pub finish_unregister : ℕ → Manager Bitmap → Manager Bitmap
  unfolding is_stopped remove_process send
  finish_unregister r m = if is_stopped (m.heap r) then send r (remove_process r m) else m

  pub commit_at : Option ℕ → ℕ → ℕ → Manager Bitmap → Manager Bitmap × Outcome (Unit {0})
  unfolding release_process_ports
  commit_at none r old m = (record m { processes = insert (m.heap r).name r m.processes }, ok tt)
  commit_at (some e) r old m =
      if text_eq (m.heap e).uuid (m.heap old).uuid
      then (
        record m {
          processes = insert (m.heap r).name r m.processes;
          available_ports = release_process_ports m.available_ports (m.heap old);
        },
        ok tt,
      )
      else (m, err already_exists)

  -- The section of ProcessReplace that registers the replacement `r` of `old`.
  unfoldable pub commit_replace : ℕ → ℕ → Manager Bitmap → Manager Bitmap × Outcome (Unit {0})
  unfolding commit_at
  commit_replace r old m = commit_at (lookup (m.heap r).name m.processes) r old m

  -- cleanupReplacementProcess of ProcessReplace.
  unfoldable pub cleanup_replacement : ℕ → ℕ → Manager Bitmap → Manager Bitmap
  unfolding stop_process release_process_ports
  cleanup_replacement now r m =
      let m' = (stop_process now r m).0 in
      record m' { available_ports = release_process_ports m'.available_ports (m'.heap r) }
