-- ===== src/Manager/Registry/Creating.antt =====
-- ProcessCreate of pkg/process/process_manager.go, on every branch.
use longhorn_engine_launcher.Prelude.{
  ℕ, ◌≡◌, refl, ap, ◌∙◌, Bool, true, false, none, some, List, if◌then◌else◌,
}
use longhorn_engine_launcher.Prelude.Text.{Text, text_eq, is_empty}
use longhorn_engine_launcher.Prelude.Dict.{lookup, lookup-insert}
use longhorn_engine_launcher.Process.{
  Process, rpc_response, CommandResult, command, command_error, start, error,
}
use longhorn_engine_launcher.Ports.{PortBitmap, PortLaws}
use longhorn_engine_launcher.Manager.{
  Manager, Error, ok, err, already_exists, new_object, register_process, allocate_process_ports,
  send, update,
}
use longhorn_engine_launcher.Manager.Holding.{update_self}
use longhorn_engine_launcher.Manager.Handlers.{
  Env, ProcessSpec, new_process, process_create, created, start_process,
}
use longhorn_engine_launcher.Manager.Ownership.Placing.{answer, allocate_process_ports-Placed}
use longhorn_engine_launcher.Manager.Ownership.Sections.{
  registered, register_process-exists, register_process-err, register_process-ok,
}

-- A request that gets past the checks of its arguments and of the log file.
abbrev pub IsAccepted : Env → ProcessSpec → Type 0
IsAccepted env spec =
    (is_empty spec.name ≡ false) × (is_empty spec.binary ≡ false) × (env.logger_fails ≡ false)

module _ {Bitmap : Type 0} (B : PortBitmap Bitmap) (env : Env) (r : ℕ) (m : Manager Bitmap) where
  -- The start of a registered process leaves the map alone.
  created-map :
      {A : Type 0} (f : List (Text × ℕ) → A)
      → f (created B env r (m, ok tt)).0.processes ≡ f m.processes
  unfolding created send start_process
  created-map f = either (start_process B env r (send B r m)).1
    where
      either :
          (x : Bool)
          → f
              (if x
                then send B r (start_process B env r (send B r m)).0
                else (start_process B env r (send B r m)).0).processes
            ≡ f m.processes
      either true = refl
      either false = refl

  -- And it leaves the process its name.
  created-name : ((created B env r (m, ok tt)).0.heap r).name ≡ (m.heap r).name
  unfolding created send start_process start
  created-name = started (env.new_command (m.heap r).binary (m.heap r).args) refl
    where
      started :
          (c : CommandResult)
          → env.new_command (m.heap r).binary (m.heap r).args ≡ c
          → ((created B env r (m, ok tt)).0.heap r).name ≡ (m.heap r).name
      started (command n) e =
          rw e (
            ap (λ (p : Process). p.name)
              (update_self m.heap r (record (m.heap r) { cmd = some n })))
      started (command_error msg) e = rw e (
          ap (λ (p : Process). p.name)
            (update_self m.heap r (record (m.heap r) { state = error; error_msg = msg })))

  created-answer :
      (created B env r (m, ok tt)).1 ≡ ok (rpc_response ((created B env r (m, ok tt)).0.heap r))
  unfolding created
  created-answer = refl

module _ {Bitmap : Type 0} (B : PortBitmap Bitmap) (L : PortLaws B) (env : Env) (spec : ProcessSpec)
    (m : Manager Bitmap) where
  accepted :
      IsAccepted env spec
      → process_create B env spec m
        ≡ created B env m.next_ref
            (register_process B m.next_ref (new_object B (new_process env spec) m))
  unfolding process_create
  accepted (named, runs, logs) = rw (named, runs, logs)

  new_name : (new_process env spec).name ≡ spec.name
  unfolding new_process
  new_name = refl

  -- ProcessCreate with arguments that are accepted refuses a name that is taken; the map and the
  -- ports stay as they were.
  pub process_create-exists :
      (e : ℕ)
      → IsAccepted env spec
      → lookup spec.name m.processes ≡ some e
      → ((process_create B env spec m).1 ≡ err already_exists)
        × ((process_create B env spec m).0.processes ≡ m.processes)
        × ((process_create B env spec m).0.available_ports ≡ m.available_ports)
  unfolding created new_object
  process_create-exists e h found =
      rw
        (
          accepted h,
          register_process-exists B L (new_process env spec) m e (unfold new_process in found),
        )
        (refl, refl, refl)

  -- ProcessCreate, with arguments that are accepted and a name that is not taken: if the ports
  -- cannot be had, the answer is the error of allocateProcessPorts, and the map and the ports stay
  -- as they were.
  pub process_create-no_ports :
      (e : Error)
      → IsAccepted env spec
      → lookup spec.name m.processes ≡ none
      → answer B L (new_process env spec) m ≡ err e
      → ((process_create B env spec m).1 ≡ err e)
        × ((process_create B env spec m).0.processes ≡ m.processes)
        × ((process_create B env spec m).0.available_ports ≡ m.available_ports)
  unfolding created
  process_create-no_ports e h absent refused =
      rw
        (
          accepted h,
          register_process-err B L (new_process env spec) m e (unfold new_process in absent)
              refused,
        )
        (
          refl,
          refl,
          (allocate_process_ports-Placed B L m.available_ports (new_process env spec)
                (unfold new_process in refl) (unfold new_process in refl)).none_on_error
              e refused,
        )

  -- ProcessCreate, with arguments that are accepted, a name that is not taken and ports to be had:
  -- the new process becomes the entry of its name, all other entries stay, and the answer
  -- describes the new process as it is after its start.
  pub process_create-ok :
      (j : Text)
      → IsAccepted env spec
      → lookup spec.name m.processes ≡ none
      → answer B L (new_process env spec) m ≡ ok tt
      → let r = process_create B env spec m in
        (lookup j r.0.processes
          ≡ (if text_eq spec.name j then some m.next_ref else lookup j m.processes))
        × (r.1 ≡ ok (rpc_response (r.0.heap m.next_ref)))
  process_create-ok j h absent granted =
      rw
        (
          accepted h,
          register_process-ok B L (new_process env spec) m (unfold new_process in absent) granted,
        )
        (
          created-map B env m.next_ref (registered B L (new_process env spec) m) (λ ps. lookup j ps)
              ∙ lookup-insert
                  (allocate_process_ports B m.available_ports (new_process env spec)).1.name j
                  m.next_ref m.processes
              ∙ rw
                  ((allocate_process_ports-Placed B L m.available_ports (new_process env spec)
                    (unfold new_process in refl) (unfold new_process in refl)).same_name)
                  (unfold new_process in refl),
          created-answer B env m.next_ref (registered B L (new_process env spec) m),
        )

  -- Under the same conditions, the new process has the name of the request.
  pub process_create-name :
      IsAccepted env spec
      → lookup spec.name m.processes ≡ none
      → answer B L (new_process env spec) m ≡ ok tt
      → ((process_create B env spec m).0.heap m.next_ref).name ≡ spec.name
  process_create-name h absent granted =
      rw
        (
          accepted h,
          register_process-ok B L (new_process env spec) m (unfold new_process in absent) granted,
        )
        (created-name B env m.next_ref (registered B L (new_process env spec) m)
          ∙ ap (λ (p : Process). p.name)
              (update_self (update m.heap m.next_ref (new_process env spec)) m.next_ref
                (allocate_process_ports B m.available_ports (new_process env spec)).1)
          ∙ (allocate_process_ports-Placed B L m.available_ports (new_process env spec)
              (unfold new_process in refl) (unfold new_process in refl)).same_name
          ∙ new_name)
