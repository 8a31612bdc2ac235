-- ===== src/InstanceClient.antt =====
-- InstanceServiceClient of pkg/client/instance.go, with getDataEngine of pkg/client/types.go and the
-- conversions of pkg/api/instance.go: the checks of the arguments, the requests built from them, and
-- what is made of the answers. The generated stub of the instance service is a parameter. What the
-- server does not read of a request is left out.
pub mod Serving
use longhorn_engine_launcher.Prelude.{
  ℕ, Bool, true, false, not, ◌&&◌, ◌||◌, ◌+◌, Option, none, some, List, [], ◌∷◌, if◌then◌else◌, leb,
}
use longhorn_engine_launcher.Prelude.Int.{ℤ, to_i32}
use longhorn_engine_launcher.Prelude.Text.{Text, codes, text_eq, is_empty}
use longhorn_engine_launcher.Rpc.{
  Failure, plain, Result, value, failure, panics, answer_with, fail_wrapped, LogStream,
}
use longhorn_engine_launcher.Client.{missing}
use longhorn_engine_launcher.Instance.{
  DataEngine, v1, v2, other_engine, engine, replica, other_kind, kind_of, ProcessInstanceSpec,
  SpdkInstanceSpec, InstanceSpec, InstanceResponse,
}
use longhorn_engine_launcher.Instance.Operations.{Instances}

-- rpc.InstanceServiceClient, with the state `W` of what is behind it.
pub record InstanceService (W : Type 0) : Type 0 where
  pub create : InstanceSpec → W → W × Result InstanceResponse
  pub delete : Text → Text → DataEngine → Bool → W → W × Result InstanceResponse
  pub get : Text → Text → DataEngine → W → W × Result InstanceResponse
  pub list : W → W × Result Instances
  pub log : Text → DataEngine → W → W × Result LogStream
  pub replace : InstanceSpec → Text → W → W × Result InstanceResponse
  pub suspend : Text → Text → DataEngine → W → W × Result (Unit {0})
  pub resume : Text → Text → DataEngine → W → W × Result (Unit {0})
  pub switch_over_target : Text → Text → DataEngine → Text → W → W × Result (Unit {0})
  pub delete_target : Text → Text → DataEngine → W → W × Result (Unit {0})

-- strings.ToLower, on the letters of ASCII.
to_lower : Text → Text
to_lower [] = []
to_lower (c ∷ cs) = (if leb 65 c && leb c 90 then c + 32 else c) ∷ to_lower cs

-- strings.HasSuffix.
has_suffix : Text → Text → Bool
unfolding text_eq
has_suffix suffix [] = text_eq [] suffix
has_suffix suffix (c ∷ cs) = text_eq (c ∷ cs) suffix || has_suffix suffix cs

-- getDataEngine with the lookup of the name that it answers: the lookup never fails.
unfoldable pub get_data_engine : Text → DataEngine
unfolding to_lower has_suffix
get_data_engine data_engine = if has_suffix (codes "v2") (to_lower data_engine) then v2 else v1

-- EngineCreateRequest, ReplicaCreateRequest and InstanceCreateRequest.
pub record EngineCreateRequest : Type 0 where
  pub replica_address_map : List (Text × Text)
  pub frontend : Text
  pub initiator_address : Text
  pub target_address : Text
  pub salvage_requested : Bool

pub record ReplicaCreateRequest : Type 0 where
  pub disk_name : Text
  pub disk_uuid : Text
  pub backing_image_name : Text

pub record InstanceCreateRequest : Type 0 where
  pub data_engine : Text
  pub name : Text
  pub instance_type : Text
  pub volume_name : Text
  pub size : ℕ
  pub port_count : ℤ
  pub port_args : List Text
  pub binary : Text
  pub binary_args : List Text
  pub engine : EngineCreateRequest
  pub replica : ReplicaCreateRequest

-- The instance of pkg/api/instance.go, with its status.
pub record InstanceInfo : Type 0 where
  pub name : Text
  pub type : Text
  pub data_engine : Text
  pub port_count : ℤ
  pub port_args : List Text
  pub process_instance_spec : Option ProcessInstanceSpec
  pub state : Text
  pub error_msg : Text
  pub conditions : List (Text × Bool)
  pub port_start : ℤ
  pub port_end : ℤ
  pub target_port_start : ℤ
  pub target_port_end : ℤ
  pub standby_target_port_start : ℤ
  pub standby_target_port_end : ℤ
  pub deleted : Bool

-- The map `dataEngines`; a name that is missing is looked up as the empty text.
unfoldable pub data_engine_text : DataEngine → Text
data_engine_text v1 = codes "v1"
data_engine_text v2 = codes "v2"
data_engine_text (other_engine n) = []

-- RPCToInstance: the field for deleted instances is never set.
unfoldable pub rpc_to_instance : InstanceResponse → InstanceInfo
unfolding data_engine_text
rpc_to_instance r = record {
  name = r.name;
  type = r.type;
  data_engine = data_engine_text r.data_engine;
  port_count = r.port_count;
  port_args = r.port_args;
  process_instance_spec = r.process_instance_spec;
  state = r.state;
  error_msg = r.error_msg;
  conditions = r.conditions;
  port_start = r.port_start;
  port_end = r.port_end;
  target_port_start = r.target_port_start;
  target_port_end = r.target_port_end;
  standby_target_port_start = r.standby_target_port_start;
  standby_target_port_end = r.standby_target_port_end;
  deleted = false;
}

unfoldable pub rpc_to_instance_list : Instances → List (Text × InstanceInfo)
unfolding rpc_to_instance
rpc_to_instance_list [] = []
rpc_to_instance_list ((name, r) ∷ entries) =
    (name, rpc_to_instance r) ∷ rpc_to_instance_list entries

-- The specification for the SPDK engine, by the type of the instance; `none` for other types.
unfoldable pub spdk_spec_of : InstanceCreateRequest → Option SpdkInstanceSpec
spdk_spec_of req = elim (kind_of req.instance_type) [
  | engine ↦ some (record {
    frontend = req.engine.frontend;
    size = req.size;
    replica_address_map = req.engine.replica_address_map;
    disk_name = [];
    disk_uuid = [];
    salvage_requested = req.engine.salvage_requested;
    backing_image_name = [];
  })
  | replica ↦ some (record {
    frontend = [];
    size = req.size;
    replica_address_map = [];
    disk_name = req.replica.disk_name;
    disk_uuid = req.replica.disk_uuid;
    salvage_requested = false;
    backing_image_name = req.replica.backing_image_name;
  })
  | other_kind ↦ none
]

-- The specification that is sent.
unfoldable pub create_spec :
    InstanceCreateRequest
    → DataEngine
    → Option ProcessInstanceSpec
    → Option SpdkInstanceSpec
    → InstanceSpec
create_spec req data_engine process_spec spdk_spec = record {
  name = req.name;
  type = req.instance_type;
  volume_name = req.volume_name;
  data_engine = data_engine;
  port_count = to_i32 req.port_count;
  port_args = req.port_args;
  initiator_address = req.engine.initiator_address;
  target_address = req.engine.target_address;
  process_instance_spec = process_spec;
  spdk_instance_spec = spdk_spec;
}

unfoldable pub replace_spec :
    Text → Text → DataEngine → Text → ℤ → List Text → List Text → InstanceSpec
replace_spec name type data_engine binary port_count args port_args = record {
  name = name;
  type = type;
  volume_name = [];
  data_engine = data_engine;
  port_count = to_i32 port_count;
  port_args = port_args;
  initiator_address = [];
  target_address = [];
  process_instance_spec = some (record { binary = binary; args = args });
  spdk_instance_spec = none;
}
