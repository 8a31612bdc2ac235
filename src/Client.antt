-- ===== src/Client.antt =====
-- ProcessManagerClient of pkg/client/process_manager.go: the checks of the arguments before a call
-- of the process manager's gRPC service. The generated stub of that service is a parameter.
use longhorn_engine_launcher.Prelude.{Bool, not, ◌||◌, List, if◌then◌else◌}
use longhorn_engine_launcher.Prelude.Int.{ℤ, to_i32}
use longhorn_engine_launcher.Prelude.Text.{Text, codes, text_eq, is_empty}
use longhorn_engine_launcher.Process.{ProcessResponse}
use longhorn_engine_launcher.Manager.Handlers.{ProcessSpec}
use longhorn_engine_launcher.Rpc.{Result, failure, Failure, plain, fail_wrapped, LogStream}

-- rpc.ProcessManagerServiceClient, with the state `W` of what is behind it.
pub record ProcessService (W : Type 0) : Type 0 where
  pub connects : W → Bool
  pub create : ProcessSpec → W → W × Result ProcessResponse
  pub delete : Text → W → W × Result ProcessResponse
  pub get : Text → W → W × Result ProcessResponse
  pub list : W → W × Result (List (Text × ProcessResponse))
  pub replace : ProcessSpec → Text → W → W × Result ProcessResponse
  pub log : Text → W → W × Result LogStream

abbrev pub missing : Failure
missing = plain (codes "missing required parameter")

abbrev pub process_spec : Text → Text → ℤ → List Text → List Text → ProcessSpec
process_spec name binary port_count args port_args = record {
  name = name;
  binary = binary;
  args = args;
  port_count = to_i32 port_count;
  port_args = port_args;
}

module _ {W : Type 0} (P : ProcessService W) where
  unfoldable pub client_process_create :
      Text → Text → ℤ → List Text → List Text → W → W × Result ProcessResponse
  client_process_create name binary port_count args port_args w =
      if is_empty name || is_empty binary
      then (w, failure missing)
      else ProcessService.create P (process_spec name binary port_count args port_args) w

  unfoldable pub client_process_delete : Text → W → W × Result ProcessResponse
  client_process_delete name w =
      if is_empty name then (w, failure missing) else ProcessService.delete P name w

  unfoldable pub client_process_get : Text → W → W × Result ProcessResponse
  client_process_get name w =
      if is_empty name then (w, failure missing) else ProcessService.get P name w

  unfoldable pub client_process_list : W → W × Result (List (Text × ProcessResponse))
  client_process_list w = fail_wrapped (ProcessService.list P w)

  unfoldable pub client_process_log : Text → W → W × Result LogStream
  client_process_log name w =
      if is_empty name then (w, failure missing) else fail_wrapped (ProcessService.log P name w)

  unfoldable pub client_process_replace :
      Text → Text → ℤ → List Text → List Text → Text → W → W × Result ProcessResponse
  client_process_replace name binary port_count args port_args terminate_signal w =
      if is_empty name || is_empty binary
      then (w, failure missing)
      else if not (text_eq terminate_signal (codes "SIGHUP"))
      then (w, failure (plain (codes "unsupported terminate signal")))
      else ProcessService.replace P (process_spec name binary port_count args port_args)
          terminate_signal w
