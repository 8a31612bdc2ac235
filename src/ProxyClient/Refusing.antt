-- ===== src/ProxyClient/Refusing.antt =====
-- Calls of ProxyClient with a parameter missing, pkg/client.
use longhorn_engine_launcher.Prelude.{Bool, true, ◌≡◌, refl, Option, List, [], ◌∷◌, ◌++◌, arith}
use longhorn_engine_launcher.Prelude.Int.{ℤ}
use longhorn_engine_launcher.Prelude.Text.{Text}
use longhorn_engine_launcher.Rpc.{wrapped, Result, failure}
use longhorn_engine_launcher.Client.{missing}
use longhorn_engine_launcher.Proxy.Types.{Labels, ReplicaMode, ReplicaAddRequest}
use longhorn_engine_launcher.Proxy.SnapshotTasks.{CloneRequest}
use longhorn_engine_launcher.Proxy.Backup.{BackupRequest}
use longhorn_engine_launcher.Proxy.Restore.{RestoreRequest}
use longhorn_engine_launcher.ProxyClient.{
  ProxyService, Target, any_empty, common, checked_call, client_metrics_get,
}
use longhorn_engine_launcher.ProxyClient.Replicas.{
  client_replica_add, client_replica_list, client_replica_verify_rebuild,
  client_replica_rebuilding_status,
}
use longhorn_engine_launcher.ProxyClient.Snapshots.{
  client_volume_snapshot, client_snapshot_list, client_snapshot_clone, client_snapshot_revert,
  client_snapshot_purge, client_snapshot_remove, client_snapshot_hash, client_snapshot_clone_status,
  client_snapshot_purge_status, client_snapshot_hash_status,
}
use longhorn_engine_launcher.ProxyClient.Volumes.{
  client_volume_get, client_volume_expand, client_volume_frontend_start,
  client_volume_snapshot_max_count_set, client_volume_snapshot_max_size_set,
  client_volume_frontend_shutdown, client_volume_unmap_mark_snap_chain_removed_set,
}
use longhorn_engine_launcher.ProxyClient.Backups.{
  ReplicaError, client_snapshot_backup, client_snapshot_backup_status, client_backup_restore,
  client_backup_restore_status,
}

any_empty-append : (ps qs : List Text) → any_empty ps ≡ true → any_empty (ps ++ qs) ≡ true
unfolding any_empty
any_empty-append [] qs h = cc
any_empty-append (p ∷ ps) qs h = ground (arith, any_empty-append ps qs)

-- The call fails, and what is behind the service stays as it was.
abbrev pub Refuses : {W A : Type 0} → (W → W × Result A) → Type 0
Refuses f = (w : _) → f w ≡ (w, failure (wrapped missing))

checked_call-Refuses :
    {W A : Type 0} (ps : List Text) (f : W → W × Result A) (w : W)
    → any_empty ps ≡ true
    → checked_call ps f w ≡ (w, failure (wrapped missing))
unfolding checked_call
checked_call-Refuses ps f w h = rw h refl

module _ {W : Type 0} (S : ProxyService W) (t : Target) where
  -- If the engine's name, the volume's name or the address of the service is empty, no call of the
  -- proxy's client reaches the proxy: not those on replicas, snapshots, volumes, backups and metrics
  -- that take these three.
  pub calls-Refuse :
      (mode_of : ReplicaMode → Text) (is_qualified : Text → Bool)
      (unmarshal : Text → Option (List ReplicaError)) (add : ReplicaAddRequest)
      (clone : CloneRequest) (backup : BackupRequest) (restore : RestoreRequest) (a b c : Text)
      (names : List Text) (labels : Labels) (flag : Bool) (n : ℤ) (w : W)
      → any_empty (common t) ≡ true
      → (client_replica_add S t add w ≡ (w, failure (wrapped missing)))
        × (client_replica_list S mode_of t w ≡ (w, failure (wrapped missing)))
        × (client_replica_verify_rebuild S t a b w ≡ (w, failure (wrapped missing)))
        × (client_volume_snapshot S is_qualified t a labels flag w ≡ (w, failure (wrapped missing)))
        × (client_snapshot_list S t w ≡ (w, failure (wrapped missing)))
        × (client_snapshot_clone S t clone w ≡ (w, failure (wrapped missing)))
        × (client_snapshot_revert S a t b w ≡ (w, failure (wrapped missing)))
        × (client_snapshot_purge S t flag w ≡ (w, failure (wrapped missing)))
        × (client_snapshot_remove S t names w ≡ (w, failure (wrapped missing)))
        × (client_snapshot_hash S t a flag w ≡ (w, failure (wrapped missing)))
        × (client_volume_get S t w ≡ (w, failure (wrapped missing)))
        × (client_volume_expand S t n w ≡ (w, failure (wrapped missing)))
        × (client_volume_frontend_start S t a w ≡ (w, failure (wrapped missing)))
        × (client_volume_snapshot_max_count_set S t n w ≡ (w, failure (wrapped missing)))
        × (client_volume_snapshot_max_size_set S t n w ≡ (w, failure (wrapped missing)))
        × (client_snapshot_backup S t backup w ≡ (w, failure (wrapped missing)))
        × (client_snapshot_backup_status S t a b c w ≡ (w, failure (wrapped missing)))
        × (client_backup_restore S unmarshal t a restore w ≡ (w, failure (wrapped missing)))
        × (client_metrics_get S t w ≡ (w, failure (wrapped missing)))
        × (client_replica_rebuilding_status S t w ≡ (w, failure (wrapped missing)))
        × (client_snapshot_clone_status S t w ≡ (w, failure (wrapped missing)))
        × (client_snapshot_purge_status S t w ≡ (w, failure (wrapped missing)))
        × (client_snapshot_hash_status S t a w ≡ (w, failure (wrapped missing)))
        × (client_backup_restore_status S t w ≡ (w, failure (wrapped missing)))
        × (client_volume_frontend_shutdown S t w ≡ (w, failure (wrapped missing)))
        × (client_volume_unmap_mark_snap_chain_removed_set S t flag w
            ≡ (w, failure (wrapped missing)))
  unfolding client_replica_add client_replica_list client_replica_verify_rebuild
      client_volume_snapshot client_snapshot_list client_snapshot_clone client_snapshot_revert
      client_snapshot_purge client_snapshot_remove client_snapshot_hash client_volume_get
      client_volume_expand client_volume_frontend_start client_volume_snapshot_max_count_set
      client_volume_snapshot_max_size_set client_snapshot_backup client_snapshot_backup_status
      client_backup_restore client_metrics_get client_replica_rebuilding_status
      client_snapshot_clone_status client_snapshot_purge_status client_snapshot_hash_status
      client_backup_restore_status client_volume_frontend_shutdown
      client_volume_unmap_mark_snap_chain_removed_set checked_call
  calls-Refuse mode_of is_qualified unmarshal add clone backup restore a b c names labels flag n w
        h =
      (
        rw (any_empty-append (common t) (add.replica_name ∷ add.replica_address ∷ []) h) refl,
        rw h refl,
        rw (any_empty-append (common t) (a ∷ b ∷ []) h) refl,
        rw h refl,
        rw h refl,
        rw
            (any_empty-append (common t)
              (clone.snapshot_name ∷ clone.from_engine_address ∷ clone.from_volume_name
                ∷ clone.from_engine_name ∷ [])
              h)
            refl,
        rw (any_empty-append (common t) (b ∷ []) h) refl,
        rw h refl,
        rw h refl,
        rw h refl,
        rw h refl,
        rw h refl,
        rw (any_empty-append (common t) (a ∷ []) h) refl,
        rw (any_empty-append (common t) (_ ∷ []) h) refl,
        rw (any_empty-append (common t) (_ ∷ []) h) refl,
        rw h refl,
        rw (any_empty-append (common t) (a ∷ []) h) refl,
        rw (any_empty-append (common t) (restore.url ∷ restore.target ∷ a ∷ []) h) refl,
        rw h refl,
        rw h refl,
        rw h refl,
        rw h refl,
        rw h refl,
        rw h refl,
        rw h refl,
        rw (any_empty-append (common t) (_ ∷ []) h) refl,
      )
