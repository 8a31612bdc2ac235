-- ===== src/Instance.antt =====
-- The messages of the instance service, pkg/instance/instance.go, and how the answers of the two
-- data engines become instances. The operations are in Instance/Operations.antt.
pub mod Operations
pub mod Server
pub mod Watch
pub mod Dispatch
pub mod Listing
pub mod LogLevels
pub mod Watching
use longhorn_engine_launcher.Prelude.{
  ℕ, Bool, true, false, Option, none, some, List, [], ◌∷◌, if◌then◌else◌,
}
use longhorn_engine_launcher.Prelude.Int.{ℤ, pos, to_i32}
use longhorn_engine_launcher.Prelude.Text.{Text, codes, text_eq}
use longhorn_engine_launcher.Process.{ProcessResponse}
use longhorn_engine_launcher.Rpc.{state_name}

-- rpc.DataEngine; a protobuf enumeration can carry other numbers.
pub data DataEngine : Type 0 where
  v1 v2 : DataEngine
  other_engine : ℕ → DataEngine

-- The cases of the switches on the instance type.
pub data Kind : Type 0 where
  engine replica other_kind : Kind

abbrev pub engine_type : Text
engine_type = codes "engine"

abbrev pub replica_type : Text
replica_type = codes "replica"

abbrev pub kind_of : Text → Kind
kind_of t =
    if text_eq t engine_type then engine else if text_eq t replica_type then replica else other_kind

pub record ProcessInstanceSpec : Type 0 where
  pub binary : Text
  pub args : List Text

pub record SpdkInstanceSpec : Type 0 where
  pub frontend : Text
  pub size : ℕ
  pub replica_address_map : List (Text × Text)
  pub disk_name : Text
  pub disk_uuid : Text
  pub salvage_requested : Bool
  pub backing_image_name : Text

-- rpc.InstanceSpec of a request; the two pointers may be nil.
pub record InstanceSpec : Type 0 where
  pub name : Text
  pub type : Text
  pub volume_name : Text
  pub data_engine : DataEngine
  pub port_count : ℤ
  pub port_args : List Text
  pub initiator_address : Text
  pub target_address : Text
  pub process_instance_spec : Option ProcessInstanceSpec
  pub spdk_instance_spec : Option SpdkInstanceSpec

-- rpc.InstanceResponse with its specification and its status.
pub record InstanceResponse : Type 0 where
  pub name : Text
  pub type : Text
  pub backend_store_driver : DataEngine
  pub data_engine : DataEngine
  pub process_instance_spec : Option ProcessInstanceSpec
  pub port_count : ℤ
  pub port_args : List Text
  pub state : Text
  pub error_msg : Text
  pub conditions : List (Text × Bool)
  pub port_start : ℤ
  pub port_end : ℤ
  pub target_port_start : ℤ
  pub target_port_end : ℤ
  pub standby_target_port_start : ℤ
  pub standby_target_port_end : ℤ
  pub deleted : Bool

-- api.Engine and api.Replica of the SPDK engine, as far as they are read.
pub record SpdkEngine : Type 0 where
  pub name : Text
  pub state : Text
  pub error_msg : Text
  pub port : ℤ
  pub target_port : ℤ
  pub standby_target_port : ℤ

pub record SpdkReplica : Type 0 where
  pub name : Text
  pub state : Text
  pub error_msg : Text
  pub port_start : ℤ
  pub port_end : ℤ

-- A message with the fields that are not set.
abbrev pub blank : InstanceResponse
blank = record {
  name = [];
  type = [];
  backend_store_driver = v1;
  data_engine = v1;
  process_instance_spec = none;
  port_count = pos 0;
  port_args = [];
  state = [];
  error_msg = [];
  conditions = [];
  port_start = pos 0;
  port_end = pos 0;
  target_port_start = pos 0;
  target_port_end = pos 0;
  standby_target_port_start = pos 0;
  standby_target_port_end = pos 0;
  deleted = false;
}

unfoldable pub process_response_to_instance_response : ProcessResponse → Text → InstanceResponse
unfolding state_name
process_response_to_instance_response p process_type = record blank {
  name = p.name;
  type = process_type;
  backend_store_driver = v1;
  data_engine = v1;
  process_instance_spec = some (record { binary = p.binary; args = p.args });
  port_count = to_i32 p.port_count;
  port_args = p.port_args;
  state = state_name p.state;
  port_start = p.port_start;
  port_end = p.port_end;
  target_port_start = if text_eq process_type engine_type then p.port_start else pos 0;
  target_port_end = if text_eq process_type engine_type then p.port_end else pos 0;
  error_msg = p.error_msg;
  conditions = p.conditions;
  deleted = p.deleted;
}

unfoldable pub replica_response_to_instance_response : SpdkReplica → InstanceResponse
replica_response_to_instance_response r = record blank {
  name = r.name;
  type = replica_type;
  backend_store_driver = v2;
  data_engine = v2;
  state = r.state;
  error_msg = r.error_msg;
  port_start = r.port_start;
  port_end = r.port_end;
}

unfoldable pub engine_response_to_instance_response : SpdkEngine → InstanceResponse
engine_response_to_instance_response e = record blank {
  name = e.name;
  type = engine_type;
  backend_store_driver = v2;
  data_engine = v2;
  state = e.state;
  error_msg = e.error_msg;
  port_start = e.port;
  port_end = e.port;
  target_port_start = e.target_port;
  target_port_end = e.target_port;
  standby_target_port_start = e.standby_target_port;
  standby_target_port_end = e.standby_target_port;
}
