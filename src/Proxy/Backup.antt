-- ===== src/Proxy/Backup.antt =====
-- Backups of snapshots, pkg/proxy/backup.go.
use longhorn_engine_launcher.Prelude.{
  Bool, true, not, ◌&&◌, ◌||◌, Option, List, [], ◌∷◌, if◌then◌else◌,
}
use longhorn_engine_launcher.Prelude.Int.{ℤ, to_i32}
use longhorn_engine_launcher.Prelude.Text.{Text, codes, text_eq, is_empty}
use longhorn_engine_launcher.Rpc.{
  internal, plain, Result, value, failure, panics, and_then, answer_with, fail_as, fail_wrapped,
}
use longhorn_engine_launcher.Instance.Operations.{dispatch}
use longhorn_engine_launcher.Proxy.{
  Libraries, Task, SpdkClient, required, with_controller, with_task, with_spdk,
  get_spdk_client_from_address,
}
use longhorn_engine_launcher.Proxy.Types.{
  ProxyRequest, Labels, ControllerReplica, BackupInfo, BackupStatus, BackupCreation,
}
use longhorn_engine_launcher.Proxy.Credential.{with_credential, get_labels}
use longhorn_engine_launcher.Proxy.Replica.{v1_replica_list}
use longhorn_engine_launcher.Proxy.Snapshot.{named}

-- rpc.EngineSnapshotBackupRequest.
pub record BackupRequest : Type 0 where
  pub envs : List Text
  pub backup_name : Text
  pub snapshot_name : Text
  pub backup_target : Text
  pub labels : Labels
  pub backing_image_name : Text
  pub backing_image_checksum : Text
  pub compression_method : Text
  pub concurrent_limit : ℤ
  pub storage_class_name : Text
  pub parameters : Labels

unfoldable pub backup_creation : BackupRequest → Text → List Text → Labels → BackupCreation
backup_creation q snapshot_name labels credential = record {
  backup_name = q.backup_name;
  snapshot_name = snapshot_name;
  backup_target = q.backup_target;
  backing_image_name = q.backing_image_name;
  backing_image_checksum = q.backing_image_checksum;
  compression_method = q.compression_method;
  concurrent_limit = q.concurrent_limit;
  storage_class_name = q.storage_class_name;
  labels = labels;
  credential = credential;
}

unfoldable pub status_reply : Text → BackupStatus → BackupStatus
status_reply replica_address s = record s {
  progress = to_i32 s.progress;
  replica_address = replica_address;
}

module _ {W : Type 0} (L : Libraries W) where
  unfoldable pub v1_snapshot_backup :
      ProxyRequest → BackupRequest → Labels → List Text → W → W × Result BackupInfo
  unfolding backup_creation
  v1_snapshot_backup r q credential labels w = fail_as internal (
      with_task L r
        (λ task x.
          Task.create_backup task (backup_creation q q.snapshot_name labels credential) q.parameters
            x)
        w)

  -- A snapshot without a name is given a fresh one.
  unfoldable pub v2_snapshot_backup :
      ProxyRequest → BackupRequest → Labels → List Text → W → W × Result BackupInfo
  unfolding get_spdk_client_from_address backup_creation named
  v2_snapshot_backup r q credential labels w =
      with_spdk L r
        (λ c x.
          let chosen = named L q.snapshot_name x in
          fail_as internal (
            SpdkClient.engine_backup_create c (backup_creation q chosen.1 labels credential)
              r.volume_name r.engine_name chosen.0))
        w

  unfoldable pub snapshot_backup : Option ProxyRequest → BackupRequest → W → W × Result BackupInfo
  unfolding with_credential get_labels v1_snapshot_backup v2_snapshot_backup
  snapshot_backup request q w =
      required request
        (λ r. with_credential L q.envs q.backup_target (λ credential x.
          dispatch r.data_engine (v1_snapshot_backup r q credential (get_labels q.labels))
            (v2_snapshot_backup r q credential (get_labels q.labels)) x))
        w

  abbrev pub is_rw : ControllerReplica → Bool
  is_rw r = Libraries.is_rw L (Libraries.grpc_to_replica_mode L r.mode)

  -- FetchBackupStatus of a client of the replica; the name of its instance may be empty.
  unfoldable pub fetch : Text → Text → Text → Text → W → W × Result BackupStatus
  fetch address volume_name instance_name backup_name w =
      and_then (fail_wrapped (Libraries.new_replica_client L address volume_name instance_name w))
        (λ c x. c backup_name address x)

  -- The replica answers, or the search goes on.
  abbrev found : Text → (W → W × Result Text) → W × Result BackupStatus → W × Result Text
  found address search (x, value s) = (x, value address)
  found address search (x, failure e) = search x
  found address search (x, panics) = (x, panics)

  -- The loop over the replicas: the address of the first one in mode RW that answers, or "".
  unfoldable pub find_replica : Text → Text → List ControllerReplica → W → W × Result Text
  unfolding fetch
  find_replica volume_name backup_name [] w = (w, value [])
  find_replica volume_name backup_name (r ∷ rs) w =
      if is_rw r
      then found r.address (find_replica volume_name backup_name rs)
          (fetch r.address volume_name [] backup_name w)
      else find_replica volume_name backup_name rs w

  -- Every replica with this address is in mode RW.
  unfoldable pub only_rw : Text → List ControllerReplica → Bool
  only_rw address [] = true
  only_rw address (r ∷ rs) =
      (if text_eq r.address address then is_rw r else true) && only_rw address rs

  -- What is done once the address of the replica is known.
  unfoldable pub status_of :
      ProxyRequest → Text → Text → List ControllerReplica → Text → W → W × Result BackupStatus
  unfolding fetch only_rw status_reply
  status_of r backup_name replica_name replicas address w =
      if is_empty address || not (only_rw address replicas)
      then (w, failure (plain (codes "no replica")))
      else answer_with (status_reply address)
          (fetch address r.volume_name replica_name backup_name w)

  unfoldable pub v1_snapshot_backup_status :
      ProxyRequest → Text → Text → Text → W → W × Result BackupStatus
  unfolding v1_replica_list find_replica status_of
  v1_snapshot_backup_status r backup_name replica_name replica_address w =
      with_controller L r
        (λ c x. and_then (v1_replica_list L r x) (λ replicas y.
          and_then
            (if is_empty replica_address
              then find_replica r.volume_name backup_name replicas y
              else (y, value replica_address))
            (status_of r backup_name replica_name replicas)))
        w

  unfoldable pub v2_snapshot_backup_status :
      ProxyRequest → Text → Text → W → W × Result BackupStatus
  unfolding get_spdk_client_from_address status_reply
  v2_snapshot_backup_status r backup_name replica_address w =
      with_spdk L r
        (λ c x.
          answer_with (λ s. status_reply s.replica_address s)
            (fail_as internal
              (SpdkClient.engine_backup_status c backup_name r.engine_name replica_address x)))
        w

  unfoldable pub snapshot_backup_status :
      Option ProxyRequest → Text → Text → Text → W → W × Result BackupStatus
  unfolding v1_snapshot_backup_status v2_snapshot_backup_status
  snapshot_backup_status request backup_name replica_name replica_address w =
      required request
        (λ r x.
          dispatch r.data_engine
            (v1_snapshot_backup_status r backup_name replica_name replica_address)
            (v2_snapshot_backup_status r backup_name replica_address) x)
        w
