-- ===== src/Manager/Handlers.antt =====
-- The RPC handlers of pkg/process/process_manager.go, composed of the locked sections. What other
-- goroutines do while ProcessReplace waits is the argument `world`: round i changes the manager by
-- `world i`. The logger, the executor, the UUID generator and the clock are the fields of `Env`.
use longhorn_engine_launcher.Prelude.{
  ℕ, zero, suc, Bool, true, false, ◌||◌, not, Option, none, some, List, [], ◌∷◌, if◌then◌else◌,
}
use longhorn_engine_launcher.Prelude.Int.{ℤ, pos}
use longhorn_engine_launcher.Prelude.Text.{Text, codes, text_eq, is_empty}
use longhorn_engine_launcher.Prelude.Dict.{lookup, insert}
use longhorn_engine_launcher.Process.{
  Process, starting, running, CommandResult, start, ProcessResponse, rpc_response,
}
use longhorn_engine_launcher.Ports.{PortBitmap}
use longhorn_engine_launcher.Manager.{
  Manager, Outcome, ok, err, invalid_argument, not_found, logger_failed, init_failed, start_failed,
  update, new_object, send, stop_process, register_process, init_process_replace, is_current,
  commit_replace, cleanup_replacement,
}

pub record ProcessSpec : Type 0 where
  pub name : Text
  pub binary : Text
  pub args : List Text
  pub port_count : ℤ
  pub port_args : List Text

pub record Env : Type 0 where
  pub logger_fails : Bool
  pub uuid : Text
  pub new_command : Text → List Text → CommandResult
  pub now : ℕ

-- The `&Process{…}` of ProcessCreate and ProcessReplace.
unfoldable pub new_process : Env → ProcessSpec → Process
new_process env spec = record {
  name = spec.name;
  binary = spec.binary;
  args = spec.args;
  port_count = spec.port_count;
  port_args = spec.port_args;
  uuid = env.uuid;
  state = starting;
  error_msg = [];
  conditions = [];
  port_start = pos 0;
  port_end = pos 0;
  deletion_timestamp = none;
  cmd = none;
}

abbrev failed : Option Text → Bool
failed none = false
failed (some msg) = true

-- ReplaceProcess waits for 30 rounds of a second.
abbrev pub replace_rounds : ℕ
replace_rounds = 30

module _ {Bitmap : Type 0} (B : PortBitmap Bitmap) where
  -- p.Start(), and whether it failed.
  unfoldable pub start_process : Env → ℕ → Manager Bitmap → Manager Bitmap × Bool
  unfolding start
  start_process env r m =
      let p = m.heap r in
      let x = start (env.new_command p.binary p.args) p in
      (record m { heap = update m.heap r x.0 }, failed x.1)

  -- ProcessCreate after registerProcess. Nothing else runs between its sections here: other requests,
  -- and the goroutines that Start leaves behind, come before or after the whole handler.
  unfoldable pub created :
      Env → ℕ → Manager Bitmap × Outcome (Unit {0}) → Manager Bitmap × Outcome ProcessResponse
  unfolding send start_process rpc_response
  created env r (m, err e) = (m, err e)
  created env r (m, ok u) =
      let x = start_process env r (send B r m) in
      let m' = if x.1 then send B r x.0 else x.0 in (m', ok (rpc_response (m'.heap r)))

  unfoldable pub process_create :
      Env → ProcessSpec → Manager Bitmap → Manager Bitmap × Outcome ProcessResponse
  unfolding created new_process register_process new_object
  process_create env spec m =
      if is_empty spec.name || is_empty spec.binary
      then (m, err invalid_argument)
      else if env.logger_fails
      then (m, err logger_failed)
      else created env m.next_ref
          (register_process B m.next_ref (new_object B (new_process env spec) m))

  -- ProcessDelete: with the answer, the process for which a goroutine of unregisterProcess waits.
  unfoldable pub delete_found :
      Option ℕ → ℕ → Manager Bitmap → Manager Bitmap × Outcome ProcessResponse × Option ℕ
  unfolding stop_process rpc_response is_current
  delete_found none now m = (m, err not_found, none)
  delete_found (some r) now m =
      let m' = (stop_process B now r m).0 in
      (
        m',
        ok (record (rpc_response (m'.heap r)) { deleted = true }),
        if is_current B r m' then some r else none,
      )

  unfoldable pub process_delete :
      ℕ → Text → Manager Bitmap → Manager Bitmap × Outcome ProcessResponse × Option ℕ
  unfolding delete_found
  process_delete now name m = delete_found (lookup name m.processes) now m

  unfoldable pub get_found : Option ℕ → Manager Bitmap → Outcome ProcessResponse
  unfolding rpc_response
  get_found none m = err not_found
  get_found (some r) m = ok (rpc_response (m.heap r))

  unfoldable pub process_get : Text → Manager Bitmap → Outcome ProcessResponse
  unfolding get_found
  process_get name m = get_found (lookup name m.processes) m

  unfoldable pub list_from : (ℕ → Process) → List (Text × ℕ) → List (Text × ProcessResponse)
  unfolding rpc_response
  list_from heap [] = []
  list_from heap ((k, r) ∷ entries) =
      insert (heap r).name (rpc_response (heap r)) (list_from heap entries)

  unfoldable pub process_list : Manager Bitmap → List (Text × ProcessResponse)
  unfolding list_from
  process_list m = list_from m.heap m.processes

  abbrev absent : Option ℕ → Bool
  absent none = true
  absent (some r) = false

  -- A round of startMonitoring: what is broadcast for a process from the update channel.
  unfoldable pub monitor_update : ℕ → Manager Bitmap → ProcessResponse
  unfolding rpc_response
  monitor_update r m = record (rpc_response (m.heap r)) {
    deleted = absent (lookup (m.heap r).name m.processes);
  }

  -- The loop of ProcessReplace, from round `i` with `count` rounds left: the manager after it, and
  -- whether the replacement goes on.
  unfoldable pub wait_replacement :
      ℕ → (ℕ → Manager Bitmap → Manager Bitmap) → ℕ → ℕ → Manager Bitmap → Manager Bitmap × Bool
  wait_replacement zero world i r m = (m, true)
  wait_replacement (suc count) world i r m =
      let m' = world i m in
      elim ((m'.heap r).state) [
        | running ↦ (m', true)
        | starting ↦ wait_replacement count world (suc i) r m'
        | _ ↦ (m', false)
      ]

  unfoldable pub committed :
      Env → ℕ → Manager Bitmap × Outcome (Unit {0}) → Manager Bitmap × Outcome ProcessResponse
  unfolding send cleanup_replacement rpc_response
  committed env r (m, err e) = (cleanup_replacement B env.now r m, err e)
  committed env r (m, ok u) = (send B r m, ok (rpc_response (m.heap r)))

  -- ProcessReplace from the end of its loop on; `world` has what others do before the stop of the old
  -- process, and after it, before the lock.
  unfoldable pub finish_replace :
      Env
      → (ℕ → Manager Bitmap → Manager Bitmap)
      → ℕ
      → ℕ
      → Manager Bitmap
      → Manager Bitmap × Outcome ProcessResponse
  unfolding committed commit_replace stop_process
  finish_replace env world r old m =
      let m' = world (suc replace_rounds) (stop_process B env.now old (world replace_rounds m)).0 in
      committed env r (commit_replace B r old m')

  unfoldable pub replaced :
      Env
      → (ℕ → Manager Bitmap → Manager Bitmap)
      → ℕ
      → Manager Bitmap × Outcome ℕ
      → Manager Bitmap × Outcome ProcessResponse
  unfolding rpc_response start_process cleanup_replacement wait_replacement finish_replace
  replaced env world r (m, err e) = (m, err e)
  replaced env world r (m, ok old) =
      if text_eq (m.heap old).binary (m.heap r).binary
      then (m, ok (rpc_response (m.heap old)))
      else (let x = start_process env r m in
          if x.1
          then (cleanup_replacement B env.now r x.0, err init_failed)
          else (let w = wait_replacement replace_rounds world 0 r x.0 in
              if w.1
              then finish_replace env world r old w.0
              else (cleanup_replacement B env.now r w.0, err start_failed)))

  unfoldable pub process_replace :
      Env
      → (ℕ → Manager Bitmap → Manager Bitmap)
      → ProcessSpec
      → Text
      → Manager Bitmap
      → Manager Bitmap × Outcome ProcessResponse
  unfolding replaced new_process init_process_replace new_object
  process_replace env world spec terminate_signal m =
      if is_empty spec.name || is_empty spec.binary
      then (m, err invalid_argument)
      else if not (text_eq terminate_signal (codes "SIGHUP"))
      then (m, err invalid_argument)
      else if env.logger_fails
      then (m, err logger_failed)
      else replaced env world m.next_ref
          (init_process_replace B m.next_ref (new_object B (new_process env spec) m))
