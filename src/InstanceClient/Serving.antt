-- ===== src/InstanceClient/Serving.antt =====
-- The calls of InstanceServiceClient, pkg/client/instance.go.
use longhorn_engine_launcher.Prelude.{Bool, not, ◌||◌, Option, none, some, List, if◌then◌else◌}
use longhorn_engine_launcher.Prelude.Int.{ℤ}
use longhorn_engine_launcher.Prelude.Text.{Text, codes, text_eq, is_empty}
use longhorn_engine_launcher.Rpc.{plain, Result, failure, answer_with, fail_wrapped, LogStream}
use longhorn_engine_launcher.Client.{missing}
use longhorn_engine_launcher.Instance.{DataEngine, v1, v2, SpdkInstanceSpec, InstanceResponse}
use longhorn_engine_launcher.InstanceClient.{
  InstanceService, InstanceCreateRequest, InstanceInfo, get_data_engine, rpc_to_instance,
  rpc_to_instance_list, spdk_spec_of, create_spec, replace_spec,
}

-- The answer of the service as an instance; an error is wrapped.
abbrev pub as_instance : {W : Type 0} → W × Result InstanceResponse → W × Result InstanceInfo
as_instance x = answer_with rpc_to_instance (fail_wrapped x)

-- A request with an argument missing goes no further.
abbrev pub present : {W A : Type 0} → Bool → (W → W × Result A) → W → W × Result A
present absent f w = if absent then (w, failure missing) else f w

module _ {W : Type 0} (I : InstanceService W) where
  create_v2 : InstanceCreateRequest → Option SpdkInstanceSpec → W → W × Result InstanceInfo
  unfolding create_spec rpc_to_instance
  create_v2 req none w = (w, failure (plain (codes "invalid instance type")))
  create_v2 req (some s) w =
      as_instance (InstanceService.create I (create_spec req v2 none (some s)) w)

  unfoldable pub create_for : InstanceCreateRequest → DataEngine → W → W × Result InstanceInfo
  unfolding create_spec create_v2 spdk_spec_of rpc_to_instance
  create_for req v1 w = as_instance (
      InstanceService.create I
        (create_spec req v1 (some (record { binary = req.binary; args = req.binary_args })) none) w)
  create_for req _ w = create_v2 req (spdk_spec_of req) w

  unfoldable pub client_instance_create : InstanceCreateRequest → W → W × Result InstanceInfo
  unfolding create_for get_data_engine
  client_instance_create req w =
      present (is_empty req.name || is_empty req.instance_type)
        (create_for req (get_data_engine req.data_engine)) w

  unfoldable pub client_instance_delete : Text → Text → Text → Bool → W → W × Result InstanceInfo
  unfolding get_data_engine rpc_to_instance
  client_instance_delete data_engine name type cleanup_required w =
      present (is_empty name)
        (λ x.
          as_instance
            (InstanceService.delete I name type (get_data_engine data_engine) cleanup_required x))
        w

  unfoldable pub client_instance_get : Text → Text → Text → W → W × Result InstanceInfo
  unfolding get_data_engine rpc_to_instance
  client_instance_get data_engine name type w =
      present (is_empty name)
        (λ x. as_instance (InstanceService.get I name type (get_data_engine data_engine) x)) w

  unfoldable pub client_instance_list : W → W × Result (List (Text × InstanceInfo))
  unfolding rpc_to_instance_list
  client_instance_list w =
      answer_with rpc_to_instance_list (fail_wrapped (InstanceService.list I w))

  unfoldable pub client_instance_log : Text → Text → W → W × Result LogStream
  unfolding get_data_engine
  client_instance_log data_engine name w =
      present (is_empty name)
        (λ x. fail_wrapped (InstanceService.log I name (get_data_engine data_engine) x)) w

  unfoldable pub client_instance_replace :
      Text → Text → Text → Text → ℤ → List Text → List Text → Text → W → W × Result InstanceInfo
  unfolding get_data_engine replace_spec rpc_to_instance
  client_instance_replace data_engine name type binary port_count args port_args terminate_signal
        w =
      present (is_empty name || is_empty binary)
        (λ x.
          if not (text_eq terminate_signal (codes "SIGHUP"))
          then (x, failure (plain (codes "unsupported terminate signal")))
          else as_instance (
              InstanceService.replace I
                (replace_spec name type (get_data_engine data_engine) binary port_count args
                  port_args)
                terminate_signal x))
        w

  unfoldable pub client_instance_suspend : Text → Text → Text → W → W × Result (Unit {0})
  unfolding get_data_engine
  client_instance_suspend data_engine name type w =
      present (is_empty name)
        (λ x. fail_wrapped (InstanceService.suspend I name type (get_data_engine data_engine) x)) w

  unfoldable pub client_instance_resume : Text → Text → Text → W → W × Result (Unit {0})
  unfolding get_data_engine
  client_instance_resume data_engine name type w =
      present (is_empty name)
        (λ x. fail_wrapped (InstanceService.resume I name type (get_data_engine data_engine) x)) w

  unfoldable pub client_instance_switch_over_target :
      Text → Text → Text → Text → W → W × Result (Unit {0})
  unfolding get_data_engine
  client_instance_switch_over_target data_engine name type target_address w =
      present (is_empty name || is_empty target_address)
        (λ x. fail_wrapped (
          InstanceService.switch_over_target I name type (get_data_engine data_engine)
            target_address x))
        w

  unfoldable pub client_instance_delete_target : Text → Text → Text → W → W × Result (Unit {0})
  unfolding get_data_engine
  client_instance_delete_target data_engine name type w =
      present (is_empty name)
        (λ x.
          fail_wrapped (InstanceService.delete_target I name type (get_data_engine data_engine) x))
        w
