-- ===== src/Instance/Operations.antt =====
-- The operations of pkg/instance/instance.go: the server, which picks a data engine, and the
-- operations of the two engines. `W` is the state of the services they call.
use longhorn_engine_launcher.Prelude.{
  Bool, true, false, Option, none, some, List, [], ◌∷◌, if◌then◌else◌,
}
use longhorn_engine_launcher.Prelude.Text.{Text}
use longhorn_engine_launcher.Prelude.Dict.{insert}
use longhorn_engine_launcher.Process.{stopped, ProcessResponse}
use longhorn_engine_launcher.Rpc.{
  Code, unimplemented, invalid_argument, internal, status, Result, value, failure, panics, and_then,
  answer_with, fail_as, state_name,
}
use longhorn_engine_launcher.Client.{
  ProcessService, client_process_create, client_process_delete, client_process_get,
  client_process_list, client_process_replace,
}
use longhorn_engine_launcher.Instance.{
  DataEngine, v1, v2, other_engine, engine, replica, other_kind, Kind, kind_of, engine_type,
  replica_type, ProcessInstanceSpec, SpdkInstanceSpec, InstanceSpec, InstanceResponse, SpdkEngine,
  SpdkReplica, blank, process_response_to_instance_response, replica_response_to_instance_response,
  engine_response_to_instance_response,
}

-- The client of the SPDK engine, a library of another repository.
pub record SpdkClient (W : Type 0) : Type 0 where
  pub connects : W → Bool
  pub engine_create : InstanceSpec → SpdkInstanceSpec → W → W × Result SpdkEngine
  pub replica_create : InstanceSpec → SpdkInstanceSpec → W → W × Result SpdkReplica
  pub engine_delete : Text → W → W × Result (Unit {0})
  pub replica_delete : Text → Bool → W → W × Result (Unit {0})
  pub engine_get : Text → W → W × Result SpdkEngine
  pub replica_get : Text → W → W × Result SpdkReplica
  pub engine_list : W → W × Result (List SpdkEngine)
  pub replica_list : W → W × Result (List SpdkReplica)
  pub engine_suspend : Text → W → W × Result (Unit {0})
  pub engine_resume : Text → W → W × Result (Unit {0})
  pub engine_switch_over_target : Text → Text → W → W × Result (Unit {0})
  pub engine_delete_target : Text → W → W × Result (Unit {0})

abbrev pub Instances : Type 0
Instances = List (Text × InstanceResponse)

-- The deleted instance that the V2 engine reports.
abbrev pub deleted_response : Text → InstanceResponse
deleted_response name = record blank { name = name; state = state_name stopped; deleted = true }

-- instances[f(x).Name] = f(x) for each of the list.
abbrev pub insert_all : {A : Type 0} → (A → InstanceResponse) → List A → Instances → Instances
insert_all f [] instances = instances
insert_all f (x ∷ xs) instances = insert_all f xs (insert (f x).name (f x) instances)

module _ {W : Type 0} where
  -- The operation of the engine that the server finds in its table.
  abbrev pub dispatch :
      {A : Type 0} → DataEngine → (W → W × Result A) → (W → W × Result A) → W → W × Result A
  dispatch v1 f g w = f w
  dispatch v2 f g w = g w
  dispatch (other_engine n) f g w = (w, failure (status unimplemented))

  -- A client is made first; if that fails, nothing else is done.
  abbrev pub connected : {A : Type 0} → Bool → (W → W × Result A) → W → W × Result A
  connected true f w = f w
  connected false f w = (w, failure (status internal))

  abbrev pub refuse : {A : Type 0} → Code → W → W × Result A
  refuse c w = (w, failure (status c))

  -- A switch on the type of the instance.
  abbrev pub by_kind :
      {A : Type 0} → Kind → (W → W × Result A) → (W → W × Result A) → W → W × Result A
  by_kind engine f g w = f w
  by_kind replica f g w = g w
  by_kind other_kind f g w = refuse invalid_argument w

  -- A field of the SPDK specification is read; the pointer may be nil.
  abbrev pub with_spdk_spec :
      {A : Type 0}
      → Option SpdkInstanceSpec
      → (SpdkInstanceSpec → W → W × Result A)
      → W
      → W × Result A
  with_spdk_spec none f w = (w, panics)
  with_spdk_spec (some s) f w = f s w

-- `is_engine_process` is the test of the library go-common-libs on the name of a process.
unfoldable pub listed_process : (Text → Bool) → ProcessResponse → InstanceResponse
unfolding process_response_to_instance_response
listed_process is_engine_process p =
    process_response_to_instance_response p
      (if is_engine_process p.name then engine_type else replica_type)

abbrev pub values : List (Text × ProcessResponse) → List ProcessResponse
values [] = []
values ((k, p) ∷ entries) = p ∷ values entries

module _ {W : Type 0} (P : ProcessService W) where
  abbrev via_process_manager : {A : Type 0} → (W → W × Result A) → W → W × Result A
  via_process_manager f w = connected (ProcessService.connects P w) f w

  unfoldable pub create_with :
      InstanceSpec → Option ProcessInstanceSpec → W → W × Result InstanceResponse
  unfolding client_process_create process_response_to_instance_response
  create_with spec none w = refuse invalid_argument w
  create_with spec (some s) w =
      via_process_manager
        (λ w'.
          answer_with (λ p. process_response_to_instance_response p spec.type)
            (client_process_create P spec.name s.binary spec.port_count s.args spec.port_args w'))
        w

  unfoldable pub v1_create : InstanceSpec → W → W × Result InstanceResponse
  unfolding create_with
  v1_create spec w = create_with spec spec.process_instance_spec w

  unfoldable pub v1_delete : Text → Text → W → W × Result InstanceResponse
  unfolding client_process_delete process_response_to_instance_response
  v1_delete name type w =
      via_process_manager
        (λ w'.
          answer_with (λ p. process_response_to_instance_response p type)
            (client_process_delete P name w'))
        w

  unfoldable pub v1_get : Text → Text → W → W × Result InstanceResponse
  unfolding client_process_get process_response_to_instance_response
  v1_get name type w =
      via_process_manager
        (λ w'.
          answer_with (λ p. process_response_to_instance_response p type)
            (client_process_get P name w'))
        w

  unfoldable pub v1_list : (Text → Bool) → Instances → W → W × Result Instances
  unfolding client_process_list listed_process
  v1_list is_engine_process instances w =
      via_process_manager
        (λ w'.
          answer_with (λ ps. insert_all (listed_process is_engine_process) (values ps) instances)
            (client_process_list P w'))
        w

  replace_with : InstanceSpec → Text → Option ProcessInstanceSpec → W → W × Result InstanceResponse
  unfolding client_process_replace process_response_to_instance_response
  replace_with spec terminate_signal none w = refuse invalid_argument w
  replace_with spec terminate_signal (some s) w =
      via_process_manager
        (λ w'.
          answer_with (λ p. process_response_to_instance_response p spec.type)
            (client_process_replace P spec.name s.binary spec.port_count s.args spec.port_args
              terminate_signal w'))
        w

  unfoldable pub v1_replace : InstanceSpec → Text → W → W × Result InstanceResponse
  unfolding replace_with
  v1_replace spec terminate_signal w =
      replace_with spec terminate_signal spec.process_instance_spec w

module _ {W : Type 0} (S : SpdkClient W) where
  abbrev via_spdk : {A : Type 0} → (W → W × Result A) → W → W × Result A
  via_spdk f w = connected (SpdkClient.connects S w) f w

  unfoldable pub v2_create : InstanceSpec → W → W × Result InstanceResponse
  unfolding engine_response_to_instance_response replica_response_to_instance_response
  v2_create spec w =
      via_spdk
        (by_kind (kind_of spec.type)
          (with_spdk_spec spec.spdk_instance_spec (λ s w'.
            answer_with engine_response_to_instance_response
              (SpdkClient.engine_create S spec s w')))
          (with_spdk_spec spec.spdk_instance_spec (λ s w'.
            answer_with replica_response_to_instance_response
              (SpdkClient.replica_create S spec s w'))))
        w

  unfoldable pub v2_delete : Text → Text → Bool → W → W × Result InstanceResponse
  v2_delete name type cleanup_required w =
      via_spdk
        (λ w'.
          answer_with (λ u. deleted_response name)
            (by_kind (kind_of type)
              (λ x. if cleanup_required then SpdkClient.engine_delete S name x else (x, value tt))
              (SpdkClient.replica_delete S name cleanup_required) w'))
        w

  unfoldable pub v2_get : Text → Text → W → W × Result InstanceResponse
  unfolding engine_response_to_instance_response replica_response_to_instance_response
  v2_get name type w =
      via_spdk
        (by_kind (kind_of type)
          (λ w'. answer_with engine_response_to_instance_response (SpdkClient.engine_get S name w'))
          (λ w'.
            answer_with replica_response_to_instance_response (SpdkClient.replica_get S name w')))
        w

  unfoldable pub v2_list : Instances → W → W × Result Instances
  unfolding engine_response_to_instance_response replica_response_to_instance_response
  v2_list instances w =
      via_spdk
        (λ w'. and_then (SpdkClient.replica_list S w') (λ replicas w''.
          answer_with
            (λ engines.
              insert_all engine_response_to_instance_response engines
                (insert_all replica_response_to_instance_response replicas instances))
            (SpdkClient.engine_list S w'')))
        w

  -- An operation on an engine; a replica has none of them, and errors become Internal.
  abbrev for_engine : Text → (W → W × Result (Unit {0})) → W → W × Result (Unit {0})
  for_engine type f w =
      via_spdk (by_kind (kind_of type) (λ w'. fail_as internal (f w')) (refuse invalid_argument)) w

  unfoldable pub v2_suspend : Text → Text → W → W × Result (Unit {0})
  v2_suspend name type w = for_engine type (SpdkClient.engine_suspend S name) w

  unfoldable pub v2_resume : Text → Text → W → W × Result (Unit {0})
  v2_resume name type w = for_engine type (SpdkClient.engine_resume S name) w

  unfoldable pub v2_switch_over_target : Text → Text → Text → W → W × Result (Unit {0})
  v2_switch_over_target name type target_address w =
      for_engine type (SpdkClient.engine_switch_over_target S name target_address) w

  unfoldable pub v2_delete_target : Text → Text → W → W × Result (Unit {0})
  v2_delete_target name type w = for_engine type (SpdkClient.engine_delete_target S name) w
