-- ===== src/Instance/Server.antt =====
-- The handlers of the instance server, pkg/instance/instance.go: each finds the operations of the
-- data engine that the request names.
use longhorn_engine_launcher.Prelude.{
  ℕ, suc, Bool, Option, none, some, List, [], ◌∷◌, if◌then◌else◌,
}
use longhorn_engine_launcher.Prelude.Text.{Text}
use longhorn_engine_launcher.Rpc.{unimplemented, Failure, Result, value, failure, and_then}
use longhorn_engine_launcher.Client.{ProcessService, client_process_log}
use longhorn_engine_launcher.Instance.{DataEngine, InstanceSpec, InstanceResponse}
use longhorn_engine_launcher.Instance.Operations.{
  SpdkClient, Instances, dispatch, connected, refuse, v1_create, v1_delete, v1_get, v1_list,
  v1_replace, v2_create, v2_delete, v2_get, v2_list, v2_suspend, v2_resume, v2_switch_over_target,
  v2_delete_target,
}

-- The loop of V1DataEngineInstanceOps.InstanceLog: the lines sent, and the result. `sends i` says
-- whether the i-th line goes out; a line that does not ends the call with an error.
unfoldable pub forward :
    (ℕ → Option Failure) → ℕ → List Text → Option Failure → List Text × Result (Unit {0})
forward sends i [] none = ([], value tt)
forward sends i [] (some e) = ([], failure e)
forward sends i (line ∷ lines) ending =
    let rest = forward sends (suc i) lines ending in
    elim (sends i) [ none ↦ (line ∷ rest.0, rest.1) | some e ↦ ([], failure e) ]

module _ {W : Type 0} (P : ProcessService W) (S : SpdkClient W) where
  unfoldable pub instance_create : InstanceSpec → W → W × Result InstanceResponse
  unfolding v1_create v2_create
  instance_create spec w = dispatch spec.data_engine (v1_create P spec) (v2_create S spec) w

  unfoldable pub instance_delete : Text → Text → DataEngine → Bool → W → W × Result InstanceResponse
  unfolding v1_delete v2_delete
  instance_delete name type data_engine cleanup_required w =
      dispatch data_engine (v1_delete P name type) (v2_delete S name type cleanup_required) w

  unfoldable pub instance_get : Text → Text → DataEngine → W → W × Result InstanceResponse
  unfolding v1_get v2_get
  instance_get name type data_engine w =
      dispatch data_engine (v1_get P name type) (v2_get S name type) w

  -- The V2 engine is asked only if it is enabled.
  unfoldable pub instance_list : (Text → Bool) → Bool → W → W × Result Instances
  unfolding v1_list v2_list
  instance_list is_engine_process v2_data_engine_enabled w =
      and_then (v1_list P is_engine_process [] w) (λ instances w'.
        if v2_data_engine_enabled then v2_list S instances w' else (w', value instances))

  unfoldable pub instance_replace : InstanceSpec → Text → W → W × Result InstanceResponse
  unfolding v1_replace
  instance_replace spec terminate_signal w =
      dispatch spec.data_engine (v1_replace P spec terminate_signal) (refuse unimplemented) w

  unfoldable pub instance_log :
      Text → DataEngine → (ℕ → Option Failure) → W → W × Result (List Text × Result (Unit {0}))
  unfolding client_process_log forward
  instance_log name data_engine sends w =
      dispatch data_engine
        (λ x.
          connected (ProcessService.connects P x)
            (λ w'.
              and_then (client_process_log P name w')
                (λ stream w''. (w'', value (forward sends 0 stream.lines stream.ending))))
            x)
        (refuse unimplemented) w

  unfoldable pub instance_suspend : Text → Text → DataEngine → W → W × Result (Unit {0})
  unfolding v2_suspend
  instance_suspend name type data_engine w =
      dispatch data_engine (refuse unimplemented) (v2_suspend S name type) w

  unfoldable pub instance_resume : Text → Text → DataEngine → W → W × Result (Unit {0})
  unfolding v2_resume
  instance_resume name type data_engine w =
      dispatch data_engine (refuse unimplemented) (v2_resume S name type) w

  unfoldable pub instance_switch_over_target :
      Text → Text → DataEngine → Text → W → W × Result (Unit {0})
  unfolding v2_switch_over_target
  instance_switch_over_target name type data_engine target_address w =
      dispatch data_engine (refuse unimplemented) (v2_switch_over_target S name type target_address)
        w

  unfoldable pub instance_delete_target : Text → Text → DataEngine → W → W × Result (Unit {0})
  unfolding v2_delete_target
  instance_delete_target name type data_engine w =
      dispatch data_engine (refuse unimplemented) (v2_delete_target S name type) w
