-- ===== src/Proxy/Unsupported.antt =====
-- Requests to the proxy service for a data engine that it does not have, pkg/proxy.
use longhorn_engine_launcher.Prelude.{ℕ, Bool, ◌≡◌, refl, some, List}
use longhorn_engine_launcher.Prelude.Int.{ℤ}
use longhorn_engine_launcher.Prelude.Text.{Text}
use longhorn_engine_launcher.Rpc.{unimplemented, status, Result, failure}
use longhorn_engine_launcher.Instance.{other_engine}
use longhorn_engine_launcher.Proxy.{Libraries}
use longhorn_engine_launcher.Proxy.Types.{ProxyRequest, Labels, ReplicaMode, ReplicaAddRequest}
use longhorn_engine_launcher.Proxy.Replica.{
  replica_add, replica_list, replica_rebuilding_status, replica_verify_rebuild, replica_remove,
  replica_mode_update,
}
use longhorn_engine_launcher.Proxy.Snapshot.{
  volume_snapshot, snapshot_list, snapshot_revert, snapshot_remove,
}
use longhorn_engine_launcher.Proxy.SnapshotTasks.{
  CloneRequest, snapshot_clone, snapshot_clone_status, snapshot_purge, snapshot_purge_status,
  snapshot_hash, snapshot_hash_status,
}
use longhorn_engine_launcher.Proxy.Volumes.{
  volume_get, volume_expand, volume_frontend_start, volume_frontend_shutdown,
  volume_unmap_mark_snap_chain_removed_set, volume_snapshot_max_count_set,
  volume_snapshot_max_size_set,
}
use longhorn_engine_launcher.Proxy.Backup.{snapshot_backup_status}
use longhorn_engine_launcher.Proxy.Restore.{backup_restore_status}

module _ {W : Type 0} (L : Libraries W) (r : ProxyRequest) (w : W) where
  -- The answer to a request for a data engine that is not there.
  abbrev pub Unsupported : {A : Type 0} → W × Result A → Type 0
  Unsupported x = x ≡ (w, failure (status unimplemented))

  -- A request for a data engine other than V1 and V2 is refused as Unimplemented before any library
  -- is called, by every operation on replicas, snapshots and volumes, and by those that report on
  -- backups.
  pub operations-Unsupported :
      (n : ℕ) (add : ReplicaAddRequest) (clone : CloneRequest) (a b c : Text) (mode : ReplicaMode)
      (labels : Labels) (names : List Text) (flag : Bool) (size : ℤ)
      → r.data_engine ≡ other_engine n
      → Unsupported (replica_add L (some r) add w)
        × Unsupported (replica_list L r w)
        × Unsupported (replica_rebuilding_status L r w)
        × Unsupported (replica_verify_rebuild L (some r) a b w)
        × Unsupported (replica_remove L (some r) a b w)
        × Unsupported (replica_mode_update L (some r) a mode w)
        × Unsupported (volume_snapshot L (some r) (some (a, labels, flag)) w)
        × Unsupported (snapshot_list L r w)
        × Unsupported (snapshot_revert L (some r) a w)
        × Unsupported (snapshot_remove L (some r) names w)
        × Unsupported (snapshot_clone L (some r) clone w)
        × Unsupported (snapshot_clone_status L r w)
        × Unsupported (snapshot_purge L (some r) flag w)
        × Unsupported (snapshot_purge_status L r w)
        × Unsupported (snapshot_hash L (some r) a flag w)
        × Unsupported (snapshot_hash_status L (some r) a w)
        × Unsupported (volume_get L r w)
        × Unsupported (volume_expand L (some r) (some size) w)
        × Unsupported (volume_frontend_start L (some r) (some a) w)
        × Unsupported (volume_frontend_shutdown L r w)
        × Unsupported (volume_unmap_mark_snap_chain_removed_set L (some r) (some flag) w)
        × Unsupported (volume_snapshot_max_count_set L (some r) (some size) w)
        × Unsupported (volume_snapshot_max_size_set L (some r) (some size) w)
        × Unsupported (snapshot_backup_status L (some r) a b c w)
        × Unsupported (backup_restore_status L r w)
  unfolding replica_add replica_list replica_rebuilding_status replica_verify_rebuild replica_remove
      replica_mode_update volume_snapshot snapshot_list snapshot_revert snapshot_remove
      snapshot_clone snapshot_clone_status snapshot_purge snapshot_purge_status snapshot_hash
      snapshot_hash_status volume_get volume_expand volume_frontend_start volume_frontend_shutdown
      volume_unmap_mark_snap_chain_removed_set volume_snapshot_max_count_set
      volume_snapshot_max_size_set snapshot_backup_status backup_restore_status
  operations-Unsupported n add clone a b c mode labels names flag size e = (
    rw e refl,
    rw e refl,
    rw e refl,
    rw e refl,
    rw e refl,
    rw e refl,
    rw e refl,
    rw e refl,
    rw e refl,
    rw e refl,
    rw e refl,
    rw e refl,
    rw e refl,
    rw e refl,
    rw e refl,
    rw e refl,
    rw e refl,
    rw e refl,
    rw e refl,
    rw e refl,
    rw e refl,
    rw e refl,
    rw e refl,
    rw e refl,
    rw e refl,
  )
