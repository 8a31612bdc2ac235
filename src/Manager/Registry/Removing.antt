-- ===== src/Manager/Registry/Removing.antt =====
-- ProcessDelete, the goroutine of unregisterProcess and startMonitoring, of
-- pkg/process/process_manager.go.
use longhorn_engine_launcher.Prelude.{
  ℕ, ◌≡◌, ◌≢◌, ◌↔◌, refl, true, false, Option, none, some, arith,
}
use longhorn_engine_launcher.Prelude.Text.{Text}
use longhorn_engine_launcher.Prelude.Dict.{lookup, lookup-erase_ne}
use longhorn_engine_launcher.Process.{
  Process, is_stopped, StopAction, no_action, graceful, timeout_kill, request_stop,
}
use longhorn_engine_launcher.Ports.{PortBitmap}
use longhorn_engine_launcher.Manager.{
  Manager, err, not_found, remove_process, finish_unregister, send, notify, stop_process, update,
}
use longhorn_engine_launcher.Manager.Handlers.{delete_found, process_delete, monitor_update}

module _ {Bitmap : Type 0} (B : PortBitmap Bitmap) (m : Manager Bitmap) where
  -- A process that has not stopped within the wait of unregisterProcess stays registered, with its
  -- ports.
  pub finish_unregister-live : (r : ℕ) → is_stopped (m.heap r) ≡ false → finish_unregister B r m ≡ m
  unfolding finish_unregister is_stopped
  finish_unregister-live r live = rw live refl

  -- The goroutine of unregisterProcess leaves the entries of all other names as they were.
  pub finish_unregister-others :
      (r : ℕ) (j : Text)
      → (m.heap r).name ≢ j
      → lookup j (finish_unregister B r m).processes ≡ lookup j m.processes
  unfolding finish_unregister remove_process send
  finish_unregister-others r j ne = ground (arith, lookup-erase_ne (m.heap r).name j m.processes ne)

  -- What is broadcast for a process says that it is deleted exactly when no process of its name is
  -- registered.
  pub monitor_update-deleted_iff :
      (r : ℕ)
      → ((monitor_update B r m).deleted ≡ true) ↔ (lookup (m.heap r).name m.processes ≡ none)
  unfolding monitor_update
  monitor_update-deleted_iff r = (ground arith, ground arith)

  stop_process-keeps :
      (now r : ℕ)
      → ((stop_process B now r m).0.processes ≡ m.processes)
        × ((stop_process B now r m).0.available_ports ≡ m.available_ports)
  unfolding stop_process notify send
  stop_process-keeps now r = either (request_stop now (m.heap r))
    where
      either :
          (x : Process × StopAction)
          → ((notify B r x.1 (record m { heap = update m.heap r x.0 })).processes ≡ m.processes)
            × ((notify B r x.1 (record m { heap = update m.heap r x.0 })).available_ports
                ≡ m.available_ports)
      either (p, no_action) = (refl, refl)
      either (p, graceful) = (refl, refl)
      either (p, timeout_kill) = (refl, refl)

  delete_found-keeps :
      (now : ℕ) (o : Option ℕ)
      → let x = delete_found B o now m in
        (x.0.processes ≡ m.processes)
        × (x.0.available_ports ≡ m.available_ports)
        × ((x.1 ≡ err not_found) ↔ (o ≡ none))
  unfolding delete_found
  delete_found-keeps now none = (refl, refl, (λ e. refl, λ e. refl))
  delete_found-keeps now (some r) =
      ((stop_process-keeps now r).0, (stop_process-keeps now r).1, (λ e. cc, λ e. cc))

  -- ProcessDelete itself removes nothing: the map and the ports stay as they were, and the answer
  -- is the error not_found exactly when the name is not registered.
  pub process_delete-keeps :
      (now : ℕ) (name : Text)
      → let x = process_delete B now name m in
        (x.0.processes ≡ m.processes)
        × (x.0.available_ports ≡ m.available_ports)
        × ((x.1 ≡ err not_found) ↔ (lookup name m.processes ≡ none))
  unfolding process_delete
  process_delete-keeps now name = delete_found-keeps now (lookup name m.processes)
