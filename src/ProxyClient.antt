-- ===== src/ProxyClient.antt =====
-- ProxyClient of pkg/client/proxy.go: the checks of the arguments before a call of the proxy
-- service, the requests built from them, and the errors wrapped. The generated stub of that service
-- is a parameter, and so are the conversions of the engine's library. Deadlines are left out.
pub mod Replicas
pub mod Refusing
pub mod Snapshots
pub mod Volumes
pub mod Backups
use longhorn_engine_launcher.Prelude.{ℕ, Bool, false, ◌||◌, List, [], ◌∷◌, ◌++◌, if◌then◌else◌}
use longhorn_engine_launcher.Prelude.Int.{ℤ}
use longhorn_engine_launcher.Prelude.Text.{Text, codes, is_empty}
use longhorn_engine_launcher.Rpc.{Failure, wrapped, Result, failure, fail_wrapped}
use longhorn_engine_launcher.Client.{missing}
use longhorn_engine_launcher.Instance.{DataEngine, v1}
use longhorn_engine_launcher.InstanceClient.{get_data_engine}
use longhorn_engine_launcher.Proxy.Types.{
  ProxyRequest, Labels, ReplicaMode, ControllerReplica, RebuildStatus, SnapshotDisk, CloneStatus,
  PurgeStatus, HashStatus, Volume, Version, MetricsReply, BackupInfo, BackupStatus, RestoreStatus,
  ReplicaAddRequest,
}
use longhorn_engine_launcher.Proxy.SnapshotTasks.{CloneRequest}
use longhorn_engine_launcher.Proxy.Backup.{BackupRequest}
use longhorn_engine_launcher.Proxy.Restore.{RestoreRequest}

-- rpc.ProxyEngineServiceClient, with the state `W` of what is behind it.
pub record ProxyService (W : Type 0) : Type 0 where
  pub server_version_get : ProxyRequest → W → W × Result Version
  pub metrics_get : ProxyRequest → W → W × Result MetricsReply
  pub volume_get : ProxyRequest → W → W × Result Volume
  pub volume_expand : ProxyRequest → ℤ → W → W × Result (Unit {0})
  pub volume_frontend_start : ProxyRequest → Text → W → W × Result (Unit {0})
  pub volume_frontend_shutdown : ProxyRequest → W → W × Result (Unit {0})
  pub volume_unmap_mark_snap_chain_removed_set : ProxyRequest → Bool → W → W × Result (Unit {0})
  pub volume_snapshot_max_count_set : ProxyRequest → ℤ → W → W × Result (Unit {0})
  pub volume_snapshot_max_size_set : ProxyRequest → ℤ → W → W × Result (Unit {0})
  pub remount_read_only_volume : Text → W → W × Result (Unit {0})
  pub replica_add : ProxyRequest → ReplicaAddRequest → W → W × Result (Unit {0})
  pub replica_list : ProxyRequest → W → W × Result (List ControllerReplica)
  pub replica_rebuilding_status : ProxyRequest → W → W × Result (List (Text × RebuildStatus))
  pub replica_verify_rebuild : ProxyRequest → Text → Text → W → W × Result (Unit {0})
  pub replica_remove : ProxyRequest → Text → Text → W → W × Result (Unit {0})
  pub replica_mode_update : ProxyRequest → Text → ReplicaMode → W → W × Result (Unit {0})
  pub volume_snapshot : ProxyRequest → Text → Labels → Bool → W → W × Result Text
  pub snapshot_list : ProxyRequest → W → W × Result (List (Text × SnapshotDisk))
  pub snapshot_clone : ProxyRequest → CloneRequest → W → W × Result (Unit {0})
  pub snapshot_clone_status : ProxyRequest → W → W × Result (List (Text × CloneStatus))
  pub snapshot_revert : ProxyRequest → Text → W → W × Result (Unit {0})
  pub snapshot_purge : ProxyRequest → Bool → W → W × Result (Unit {0})
  pub snapshot_purge_status : ProxyRequest → W → W × Result (List (Text × PurgeStatus))
  pub snapshot_remove : ProxyRequest → List Text → W → W × Result (Unit {0})
  pub snapshot_hash : ProxyRequest → Text → Bool → W → W × Result (Unit {0})
  pub snapshot_hash_status : ProxyRequest → Text → W → W × Result (List (Text × HashStatus))
  pub cleanup_backup_mount_points : W → W × Result (Unit {0})
  pub snapshot_backup : ProxyRequest → BackupRequest → W → W × Result BackupInfo
  pub snapshot_backup_status : ProxyRequest → Text → Text → Text → W → W × Result BackupStatus
  pub backup_restore : ProxyRequest → RestoreRequest → W → W × Result Text
  pub backup_restore_status : ProxyRequest → W → W × Result (List (Text × RestoreStatus))

-- The arguments that most calls have.
pub record Target : Type 0 where
  pub data_engine : Text
  pub engine_name : Text
  pub volume_name : Text
  pub service_address : Text

-- rpc.ProxyEngineRequest of a call.
unfoldable pub request_of : Target → ProxyRequest
unfolding get_data_engine
request_of t = record {
  address = t.service_address;
  engine_name = t.engine_name;
  volume_name = t.volume_name;
  data_engine = get_data_engine t.data_engine;
}

-- Some text is empty: the check of validateProxyMethodParameters.
unfoldable pub any_empty : List Text → Bool
any_empty [] = false
any_empty (t ∷ ts) = is_empty t || any_empty ts

abbrev pub common : Target → List Text
common t = t.engine_name ∷ t.volume_name ∷ t.service_address ∷ []

-- A call with its required parameters: one that is empty ends the call, and an error of the call is
-- wrapped.
unfoldable pub checked_call : {W A : Type 0} → List Text → (W → W × Result A) → W → W × Result A
unfolding any_empty
checked_call parameters f w =
    if any_empty parameters then (w, failure (wrapped missing)) else fail_wrapped (f w)

module _ {W : Type 0} (S : ProxyService W) where
  -- ServerVersionGet has only an address.
  unfoldable pub client_server_version_get : Text → W → W × Result Version
  unfolding checked_call
  client_server_version_get service_address w =
      checked_call (service_address ∷ [])
        (ProxyService.server_version_get S (record {
          address = service_address;
          engine_name = [];
          volume_name = [];
          data_engine = v1;
        }))
        w

  -- MetricsGet leaves the data engine at its first value.
  unfoldable pub client_metrics_get : Target → W → W × Result MetricsReply
  unfolding checked_call request_of
  client_metrics_get t w =
      checked_call (common t)
        (ProxyService.metrics_get S (record (request_of t) { data_engine = v1 })) w
