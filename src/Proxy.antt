-- ===== src/Proxy.antt =====
-- The proxy service, pkg/proxy: the libraries of the engines that it calls, and how an operation
-- picks a data engine and opens a client. A call of a library takes the state `W` of what is behind
-- it.
pub mod Address
pub mod Types
pub mod Replica
pub mod Snapshot
pub mod Removing
pub mod Rebuilding
pub mod SnapshotTasks
pub mod Volumes
pub mod Credential
pub mod Backup
pub mod Restore
pub mod Answering
pub mod Failures
pub mod Unsupported
use longhorn_engine_launcher.Prelude.{ℕ, Bool, Option, none, some, List, [], ◌∷◌}
use longhorn_engine_launcher.Prelude.Int.{ℤ}
use longhorn_engine_launcher.Prelude.Text.{Text, codes}
use longhorn_engine_launcher.Rpc.{
  internal, Failure, Result, failure, panics, plain, and_then, fail_as,
}
use longhorn_engine_launcher.Proxy.Address.{spdk_service_address}
use longhorn_engine_launcher.Proxy.Types.{
  ProxyRequest, Labels, ReplicaMode, EngineReplica, SpdkEngineInfo, ShallowCopyStatus,
  RebuildStatus, SnapshotDisk, CloneStatus, PurgeStatus, HashStatus, Volume, Version, Metrics,
  BackupInfo, BackupStatus, RestoreStatus, ReplicaAddRequest, BackupCreation,
}

-- client.ControllerClient of longhorn-engine.
pub record Controller (W : Type 0) : Type 0 where
  pub version_detail_get : W → W × Result Version
  pub volume_get : W → W × Result Volume
  pub volume_expand : ℤ → W → W × Result (Unit {0})
  pub volume_frontend_start : Text → W → W × Result (Unit {0})
  pub volume_frontend_shutdown : W → W × Result (Unit {0})
  pub volume_unmap_mark_snap_chain_removed_set : Bool → W → W × Result (Unit {0})
  pub volume_snapshot_max_count_set : ℤ → W → W × Result (Unit {0})
  pub volume_snapshot_max_size_set : ℤ → W → W × Result (Unit {0})
  pub volume_snapshot : Text → Labels → Bool → W → W × Result Text
  pub volume_revert : Text → W → W × Result (Unit {0})
  pub replica_list : W → W × Result (List EngineReplica)
  pub replica_delete : Text → W → W × Result (Unit {0})
  pub replica_update : Text → Text → W → W × Result (Unit {0})
  pub metrics_get : W → W × Result Metrics

-- sync.Task of longhorn-engine.
pub record Task (W : Type 0) : Type 0 where
  pub add_restore_replica : ℤ → ℤ → Text → Text → W → W × Result (Unit {0})
  pub add_replica :
      ℤ → ℤ → Text → Text → ℤ → Bool → Option (Text × Text) → ℤ → W → W × Result (Unit {0})
  pub rebuild_status : W → W × Result (List (Text × RebuildStatus))
  pub verify_rebuild_replica : Text → Text → W → W × Result (Unit {0})
  pub purge_snapshots : Bool → W → W × Result (Unit {0})
  pub purge_snapshot_status : W → W × Result (List (Text × PurgeStatus))
  pub delete_snapshot : Text → W → W × Result (Unit {0})
  pub hash_snapshot : Text → Bool → W → W × Result (Unit {0})
  pub hash_snapshot_status : Text → W → W × Result (List (Text × HashStatus))
  pub create_backup : BackupCreation → Labels → W → W × Result BackupInfo
  pub restore_backup : Text → Labels → ℤ → W → W × Result (Unit {0})
  pub restore_status : W → W × Result (List (Text × RestoreStatus))

-- client.SPDKClient of longhorn-spdk-engine.
pub record SpdkClient (W : Type 0) : Type 0 where
  pub engine_get : Text → W → W × Result SpdkEngineInfo
  pub engine_replica_add : Text → Text → Text → W → W × Result (Unit {0})
  pub engine_replica_delete : Text → Text → Text → W → W × Result (Unit {0})
  pub replica_rebuilding_dst_shallow_copy_check : Text → W → W × Result ShallowCopyStatus
  pub engine_snapshot_create : Text → Text → W → W × Result Text
  pub engine_snapshot_revert : Text → Text → W → W × Result (Unit {0})
  pub engine_snapshot_purge : Text → W → W × Result (Unit {0})
  pub engine_snapshot_delete : Text → Text → W → W × Result (Unit {0})
  pub engine_backup_create : BackupCreation → Text → Text → W → W × Result BackupInfo
  pub engine_backup_status : Text → Text → Text → W → W × Result BackupStatus
  pub engine_backup_restore : Text → Text → Labels → ℤ → W → W × Result (Unit {0})
  pub engine_restore_status : Text → W → W × Result (List (Text × RestoreStatus))

-- The functions of the libraries. A client is made for an address, a volume and an instance; a
-- replica's client answers FetchBackupStatus.
pub record Libraries (W : Type 0) : Type 0 where
  pub new_controller_client : Text → Text → Text → W → W × Result (Controller W)
  pub new_task : Text → Text → Text → W → W × Result (Task W)
  pub new_spdk_client : Text → W → W × Result (SpdkClient W)
  pub new_replica_client :
      Text → Text → Text → W → W × Result (Text → Text → W → W × Result BackupStatus)
  pub get_snapshots_info : List EngineReplica → Text → W → W × Result (List (Text × SnapshotDisk))
  pub clone_snapshot :
      Controller W → Controller W → Text → Text → Text → Bool → ℤ → ℤ → W → W × Result (Unit {0})
  pub clone_status : Controller W → Text → W → W × Result (List (Text × CloneStatus))
  pub clean_up_all_mounts : W → W × Result (Unit {0})
  pub get_backup_credential : Text → W → W × Result Labels
  pub replica_mode_to_grpc : Text → ReplicaMode
  pub grpc_to_replica_mode : ReplicaMode → Text
  pub is_rw : Text → Bool  -- the test on etypes.RW
  pub in_progress : Text  -- spdktypes.ProgressStateInProgress
  pub uuid : W → W × Text
  pub setenv : Text → Text → W → W × Result (Unit {0})
  pub error_text : Failure → Text  -- err.Error()
  pub marshal_error : Failure → Option Text  -- json.Marshal(err), `none` is its error

-- A pointer of a request is read; it may be nil.
abbrev pub required : {W A C : Type 0} → Option A → (A → W → W × Result C) → W → W × Result C
required none f w = (w, panics)
required (some a) f w = f a w

-- resp[k] = f(v) for each entry of a map.
abbrev pub map_values : {A C : Type 0} → (A → C) → List (Text × A) → List (Text × C)
map_values f [] = []
map_values f ((k, v) ∷ entries) = (k, f v) ∷ map_values f entries

module _ {W : Type 0} (L : Libraries W) where
  -- getSPDKClientFromAddress.
  unfoldable pub get_spdk_client_from_address : Text → W → W × Result (SpdkClient W)
  unfolding spdk_service_address
  get_spdk_client_from_address address w = elim (spdk_service_address address) [
    | none ↦ (w, failure (plain (codes "address")))
    | some service ↦ Libraries.new_spdk_client L service w
  ]

  -- The first lines of the V1 operations.
  abbrev pub with_controller :
      {A : Type 0} → ProxyRequest → (Controller W → W → W × Result A) → W → W × Result A
  with_controller r f w =
      and_then (Libraries.new_controller_client L r.address r.volume_name r.engine_name w) f

  abbrev pub with_task :
      {A : Type 0} → ProxyRequest → (Task W → W → W × Result A) → W → W × Result A
  with_task r f w = and_then (Libraries.new_task L r.address r.volume_name r.engine_name w) f

  -- The first lines of the V2 operations.
  abbrev pub with_spdk :
      {A : Type 0} → ProxyRequest → (SpdkClient W → W → W × Result A) → W → W × Result A
  with_spdk r f w = and_then (fail_as internal (get_spdk_client_from_address r.address w)) f
