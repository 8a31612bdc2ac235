-- ===== src/Proxy/Types.antt =====
-- What the proxy service of pkg/proxy reads of its requests and of the answers of the engines'
-- libraries. A message of a library and the message of the service with the same fields are one
-- record.
use longhorn_engine_launcher.Prelude.{ℕ, Bool, Option, List}
use longhorn_engine_launcher.Prelude.Int.{ℤ}
use longhorn_engine_launcher.Prelude.Text.{Text}
use longhorn_engine_launcher.Instance.{DataEngine}

-- rpc.ProxyEngineRequest.
pub record ProxyRequest : Type 0 where
  pub address : Text
  pub engine_name : Text
  pub volume_name : Text
  pub data_engine : DataEngine

abbrev pub Labels : Type 0
Labels = List (Text × Text)

-- enginerpc.ReplicaMode; a protobuf enumeration can carry other numbers.
pub data ReplicaMode : Type 0 where
  wo rw err : ReplicaMode
  other_mode : ℕ → ReplicaMode

-- spdktypes.Mode, a text with three constants.
pub data SpdkMode : Type 0 where
  spdk_wo spdk_rw spdk_err : SpdkMode
  other_spdk_mode : Text → SpdkMode

-- A replica as the engine's controller knows it; its mode is a text.
pub record EngineReplica : Type 0 where
  pub address : Text
  pub mode : Text

-- enginerpc.ControllerReplica.
pub record ControllerReplica : Type 0 where
  pub address : Text
  pub mode : ReplicaMode

-- A logical volume of the SPDK engine, as far as it is read.
pub record Lvol : Type 0 where
  pub name : Text
  pub parent : Text
  pub children : List (Text × Bool)
  pub actual_size : ℕ
  pub creation_time : Text
  pub user_created : Bool
  pub snapshot_timestamp : Text

-- An engine of SPDK, as far as it is read.
pub record SpdkEngineInfo : Type 0 where
  pub name : Text
  pub spec_size : ℕ
  pub replica_address_map : List (Text × Text)
  pub replica_mode_map : List (Text × SpdkMode)
  pub head : Option Lvol
  pub snapshots : List (Text × Lvol)
  pub frontend : Text
  pub endpoint : Text

-- api.ReplicaRebuildingStatus of SPDK, as far as it is read.
pub record ShallowCopyStatus : Type 0 where
  pub error : Text
  pub total_state : Text
  pub total_progress : ℤ
  pub src_replica_address : Text

pub record RebuildStatus : Type 0 where
  pub error : Text
  pub is_rebuilding : Bool
  pub progress : ℤ
  pub state : Text
  pub from_replica_address : Text

-- rpc.EngineSnapshotDiskInfo, and the disk of the engine with the same fields.
pub record SnapshotDisk : Type 0 where
  pub name : Text
  pub parent : Text
  pub children : List (Text × Bool)
  pub removed : Bool
  pub user_created : Bool
  pub created : Text
  pub size : Text
  pub labels : Labels

pub record CloneStatus : Type 0 where
  pub is_cloning : Bool
  pub error : Text
  pub progress : ℤ
  pub state : Text
  pub from_replica_address : Text
  pub snapshot_name : Text

pub record PurgeStatus : Type 0 where
  pub is_purging : Bool
  pub error : Text
  pub progress : ℤ
  pub state : Text

pub record HashStatus : Type 0 where
  pub state : Text
  pub checksum : Text
  pub error : Text
  pub silently_corrupted : Bool

-- enginerpc.Volume, and the volume of the engine with the same fields.
pub record Volume : Type 0 where
  pub name : Text
  pub size : ℤ
  pub replica_count : ℤ
  pub endpoint : Text
  pub frontend : Text
  pub frontend_state : Text
  pub is_expanding : Bool
  pub last_expansion_error : Text
  pub last_expansion_failed_at : Text
  pub unmap_mark_snap_chain_removed : Bool
  pub snapshot_max_count : ℤ
  pub snapshot_max_size : ℤ

-- enginerpc.VersionOutput, and the version of the engine with the same fields.
pub record Version : Type 0 where
  pub version : Text
  pub git_commit : Text
  pub build_date : Text
  pub cli_api_version : ℤ
  pub cli_api_min_version : ℤ
  pub controller_api_version : ℤ
  pub controller_api_min_version : ℤ
  pub data_format_version : ℤ
  pub data_format_min_version : ℤ

pub record ReadWrite : Type 0 where
  pub read : ℕ
  pub write : ℕ

-- The metrics of an engine.
pub record Metrics : Type 0 where
  pub throughput : ReadWrite
  pub total_latency : ReadWrite
  pub iops : ReadWrite

-- enginerpc.Metrics.
pub record MetricsReply : Type 0 where
  pub read_throughput : ℕ
  pub write_throughput : ℕ
  pub read_latency : ℕ
  pub write_latency : ℕ
  pub read_iops : ℕ
  pub write_iops : ℕ

-- The backup that was started.
pub record BackupInfo : Type 0 where
  pub backup_id : Text
  pub replica : Text
  pub is_incremental : Bool

pub record BackupStatus : Type 0 where
  pub backup_url : Text
  pub error : Text
  pub progress : ℤ
  pub snapshot_name : Text
  pub state : Text
  pub replica_address : Text

pub record RestoreStatus : Type 0 where
  pub is_restoring : Bool
  pub last_restored : Text
  pub current_restoring_backup : Text
  pub progress : ℤ
  pub error : Text
  pub filename : Text
  pub state : Text
  pub backup_url : Text

-- rpc.EngineReplicaAddRequest.
pub record ReplicaAddRequest : Type 0 where
  pub replica_name : Text
  pub replica_address : Text
  pub restore : Bool
  pub size : ℤ
  pub current_size : ℤ
  pub fast_sync : Bool
  pub file_sync_http_client_timeout : ℤ
  pub local_sync : Option (Text × Text)  -- the paths of the source and of the target
  pub grpc_timeout_seconds : ℤ

-- The backup to be made, as the libraries are told.
pub record BackupCreation : Type 0 where
  pub backup_name : Text
  pub snapshot_name : Text
  pub backup_target : Text
  pub backing_image_name : Text
  pub backing_image_checksum : Text
  pub compression_method : Text
  pub concurrent_limit : ℤ
  pub storage_class_name : Text
  pub labels : List Text
  pub credential : Labels
