-- ===== src/Stack.antt =====
-- The services put together as app/cmd/start.go does it: a client of the instance service, the
-- instance server, its client of the process manager's service, and the process manager. How gRPC
-- carries an error is a parameter.
pub mod Processes
pub mod Proxies
use longhorn_engine_launcher.Prelude.{ℕ, Bool, true, List, Option}
use longhorn_engine_launcher.Prelude.Text.{Text}
use longhorn_engine_launcher.Process.{ProcessResponse}
use longhorn_engine_launcher.Ports.{PortBitmap}
use longhorn_engine_launcher.Manager.{Manager, Error, Outcome, ok, err}
use longhorn_engine_launcher.Manager.Handlers.{
  Env, process_create, process_delete, process_get, process_list, process_replace,
}
use longhorn_engine_launcher.Rpc.{Failure, Result, value, failure, panics, LogStream}
use longhorn_engine_launcher.Client.{ProcessService}
use longhorn_engine_launcher.Instance.{DataEngine}
use longhorn_engine_launcher.Instance.Operations.{SpdkClient}
use longhorn_engine_launcher.Instance.Server.{
  instance_create, instance_delete, instance_get, instance_list, instance_replace, instance_suspend,
  instance_resume, instance_switch_over_target, instance_delete_target,
}
use longhorn_engine_launcher.InstanceClient.{InstanceService}

-- The error as the client of the service gets it.
abbrev pub carried : {W A : Type 0} → (Failure → Failure) → W × Result A → W × Result A
carried carry (w, value a) = (w, value a)
carried carry (w, failure e) = (w, failure (carry e))
carried carry (w, panics) = (w, panics)

abbrev pub result_of : {A : Type 0} → (Error → Failure) → Outcome A → Result A
result_of failure_of (ok a) = value a
result_of failure_of (err e) = failure (failure_of e)

module _ {Bitmap : Type 0} (B : PortBitmap Bitmap) (env : Env)
    (world : ℕ → Manager Bitmap → Manager Bitmap) (failure_of : Error → Failure)
    (log : Text → Manager Bitmap → Manager Bitmap × Result LogStream) where
  -- The service of a process manager.
  abbrev pub manager_service : ProcessService (Manager Bitmap)
  manager_service = record {
    connects = λ m. true;
    create = λ spec m. let x = process_create B env spec m in (x.0, result_of failure_of x.1);
    delete = λ name m. let x = process_delete B env.now name m in (x.0, result_of failure_of x.1);
    get = λ name m. (m, result_of failure_of (process_get B name m));
    list = λ m. (m, value (process_list B m));
    replace = λ spec terminate_signal m.
        let x = process_replace B env world spec terminate_signal m in
        (x.0, result_of failure_of x.1);
    log = log;
  }

module _ {W : Type 0} (P : ProcessService W) (S : SpdkClient W) (carry : Failure → Failure)
    (is_engine_process : Text → Bool) (v2_data_engine_enabled : Bool)
    (log : Text → DataEngine → W → W × Result LogStream) where
  -- The service of an instance server.
  abbrev pub instance_service : InstanceService W
  instance_service = record {
    create = λ spec w. carried carry (instance_create P S spec w);
    delete = λ name type d cleanup_required w.
        carried carry (instance_delete P S name type d cleanup_required w);
    get = λ name type d w. carried carry (instance_get P S name type d w);
    list = λ w. carried carry (instance_list P S is_engine_process v2_data_engine_enabled w);
    log = log;
    replace =
        λ spec terminate_signal w. carried carry (instance_replace P S spec terminate_signal w);
    suspend = λ name type d w. carried carry (instance_suspend P S name type d w);
    resume = λ name type d w. carried carry (instance_resume P S name type d w);
    switch_over_target = λ name type d target_address w.
        carried carry (instance_switch_over_target P S name type d target_address w);
    delete_target = λ name type d w. carried carry (instance_delete_target P S name type d w);
  }
