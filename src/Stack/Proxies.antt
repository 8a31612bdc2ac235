-- ===== src/Stack/Proxies.antt =====
-- A client of the proxy service and the proxy service together, pkg/client and pkg/proxy.
use longhorn_engine_launcher.Prelude.{
  ◌≡◌, refl, ap, ◌⊎◌, inl, inr, Bool, true, false, Option, some, List, [], ◌∷◌, ◌++◌, if◌then◌else◌,
}
use longhorn_engine_launcher.Prelude.Text.{Text}
use longhorn_engine_launcher.Rpc.{
  Failure, wrapped, Code, internal, invalid_argument, Result, value, failure, panics, fail_as,
  fail_wrapped, and_then-value, value_eq,
}
use longhorn_engine_launcher.Client.{missing}
use longhorn_engine_launcher.Instance.{DataEngine, v1, v2, other_engine}
use longhorn_engine_launcher.Instance.Operations.{dispatch}
use longhorn_engine_launcher.Proxy.{Libraries, SpdkClient, get_spdk_client_from_address}
use longhorn_engine_launcher.Proxy.Types.{Labels}
use longhorn_engine_launcher.Proxy.Replica.{
  replica_add, replica_list, replica_rebuilding_status, replica_verify_rebuild, replica_remove,
  replica_mode_update,
}
use longhorn_engine_launcher.Proxy.Snapshot.{
  volume_snapshot, snapshot_list, snapshot_revert, snapshot_remove,
}
use longhorn_engine_launcher.Proxy.SnapshotTasks.{
  snapshot_clone, snapshot_clone_status, snapshot_purge, v2_snapshot_purge, dropped,
  snapshot_purge_status, snapshot_hash, snapshot_hash_status,
}
use longhorn_engine_launcher.Proxy.Volumes.{
  Host, volume_get, volume_expand, volume_frontend_start, volume_frontend_shutdown,
  volume_unmap_mark_snap_chain_removed_set, volume_snapshot_max_count_set,
  volume_snapshot_max_size_set, metrics_get, server_version_get, remount_read_only_volume,
}
use longhorn_engine_launcher.Proxy.Credential.{
  cleanup_backup_mount_points, with_credential, set_env,
}
use longhorn_engine_launcher.Proxy.Backup.{snapshot_backup, snapshot_backup_status}
use longhorn_engine_launcher.Proxy.Restore.{
  RestoreRequest, v1_backup_restore, v2_backup_restore, IsLost, task_error-IsLost, recorded,
  backup_restore, backup_restore_status,
}
use longhorn_engine_launcher.ProxyClient.{
  ProxyService, Target, request_of, any_empty, common, checked_call,
}
use longhorn_engine_launcher.ProxyClient.Snapshots.{client_snapshot_purge}
use longhorn_engine_launcher.ProxyClient.Backups.{
  ReplicaError, restore_request, restored-value, client_backup_restore,
}
use longhorn_engine_launcher.Stack.{carried}

module _ {W : Type 0} (L : Libraries W) (H : Host W) (carry : Failure → Failure) where
  -- The service of a proxy; `carry` is what gRPC makes of an error.
  abbrev pub proxy_service : ProxyService W
  proxy_service = record {
    server_version_get = λ r w. carried carry (server_version_get L r w);
    metrics_get = λ r w. carried carry (metrics_get L r w);
    volume_get = λ r w. carried carry (volume_get L r w);
    volume_expand = λ r size w. carried carry (volume_expand L (some r) (some size) w);
    volume_frontend_start =
        λ r frontend w. carried carry (volume_frontend_start L (some r) (some frontend) w);
    volume_frontend_shutdown = λ r w. carried carry (volume_frontend_shutdown L r w);
    volume_unmap_mark_snap_chain_removed_set = λ r enabled w.
        carried carry (volume_unmap_mark_snap_chain_removed_set L (some r) (some enabled) w);
    volume_snapshot_max_count_set =
        λ r count w. carried carry (volume_snapshot_max_count_set L (some r) (some count) w);
    volume_snapshot_max_size_set =
        λ r size w. carried carry (volume_snapshot_max_size_set L (some r) (some size) w);
    remount_read_only_volume = λ name w. carried carry (remount_read_only_volume H name w);
    replica_add = λ r q w. carried carry (replica_add L (some r) q w);
    replica_list = λ r w. carried carry (replica_list L r w);
    replica_rebuilding_status = λ r w. carried carry (replica_rebuilding_status L r w);
    replica_verify_rebuild =
        λ r address name w. carried carry (replica_verify_rebuild L (some r) address name w);
    replica_remove = λ r name address w. carried carry (replica_remove L (some r) name address w);
    replica_mode_update =
        λ r address mode w. carried carry (replica_mode_update L (some r) address mode w);
    volume_snapshot = λ r name labels freeze w.
        carried carry (volume_snapshot L (some r) (some (name, labels, freeze)) w);
    snapshot_list = λ r w. carried carry (snapshot_list L r w);
    snapshot_clone = λ r q w. carried carry (snapshot_clone L (some r) q w);
    snapshot_clone_status = λ r w. carried carry (snapshot_clone_status L r w);
    snapshot_revert = λ r name w. carried carry (snapshot_revert L (some r) name w);
    snapshot_purge = λ r skip w. carried carry (snapshot_purge L (some r) skip w);
    snapshot_purge_status = λ r w. carried carry (snapshot_purge_status L r w);
    snapshot_remove = λ r names w. carried carry (snapshot_remove L (some r) names w);
    snapshot_hash = λ r name rehash w. carried carry (snapshot_hash L (some r) name rehash w);
    snapshot_hash_status = λ r name w. carried carry (snapshot_hash_status L (some r) name w);
    cleanup_backup_mount_points = λ w. carried carry (cleanup_backup_mount_points L w);
    snapshot_backup = λ r q w. carried carry (snapshot_backup L (some r) q w);
    snapshot_backup_status = λ r backup name address w.
        carried carry (snapshot_backup_status L (some r) backup name address w);
    backup_restore = λ r q w. carried carry (backup_restore L (some r) q w);
    backup_restore_status = λ r w. carried carry (backup_restore_status L r w);
  }

  -- A client that purges the snapshots of a V2 engine is told that this succeeded also when the
  -- engine's own purge failed, whatever its error.
  pub client_snapshot_purge-drops :
      (t : Target) (skip_if_in_progress : Bool) (c : SpdkClient W) (e : Failure) (w x y : W)
      → any_empty (common t) ≡ false
      → (request_of t).data_engine ≡ v2
      → get_spdk_client_from_address L t.service_address w ≡ (x, value c)
      → SpdkClient.engine_snapshot_purge c t.engine_name x ≡ (y, failure e)
      → client_snapshot_purge proxy_service t skip_if_in_progress w ≡ (y, value tt)
  unfolding client_snapshot_purge checked_call snapshot_purge v2_snapshot_purge dropped request_of
  client_snapshot_purge-drops t skip_if_in_progress c e w x y given engine_v2 opened failed =
      rw (given, engine_v2, opened, failed) refl

carried-value :
    {W A : Type 0} (carry : Failure → Failure) (r : W × Result A) (x : W) (a : A)
    → carried carry r ≡ (x, value a)
    → r ≡ (x, value a)
carried-value carry (w, value b) x a h = h
carried-value carry (w, failure e) x a h = cc
carried-value carry (w, panics) x a h = cc

fail_wrapped-value :
    {W A : Type 0} (r : W × Result A) (x : W) (a : A)
    → fail_wrapped r ≡ (x, value a)
    → r ≡ (x, value a)
fail_wrapped-value (w, value b) x a h = h
fail_wrapped-value (w, failure e) x a h = cc
fail_wrapped-value (w, panics) x a h = cc

checked_call-value :
    {W A : Type 0} (ps : List Text) (f : W → W × Result A) (w x : W) (a : A)
    → checked_call ps f w ≡ (x, value a)
    → f w ≡ (x, value a)
unfolding checked_call
checked_call-value ps f w x a h = go (any_empty ps) h
  where
    go :
        (b : Bool)
        → (if b then (w, failure (wrapped missing)) else fail_wrapped (f w)) ≡ (x, value a)
        → f w ≡ (x, value a)
    go true h' = cc
    go false h' = fail_wrapped-value (f w) x a h'

dispatch-value :
    {W A : Type 0} (d : DataEngine) (f g : W → W × Result A) (w x : W) (a : A)
    → dispatch d f g w ≡ (x, value a)
    → ((d ≡ v1) × (f w ≡ (x, value a))) ⊎ ((d ≡ v2) × (g w ≡ (x, value a)))
dispatch-value v1 f g w x a h = inl (refl, h)
dispatch-value v2 f g w x a h = inr (refl, h)
dispatch-value (other_engine n) f g w x a h = cc

fail_as-value :
    {W A : Type 0} (c : Code) (r : W × Result A) (x : W) (a : A)
    → fail_as c r ≡ (x, value a)
    → r ≡ (x, value a)
fail_as-value c (w, value b) x a h = h
fail_as-value c (w, failure e) x a h = cc
fail_as-value c (w, panics) x a h = cc

module _ {W : Type 0} (L : Libraries W) where
  -- The call succeeded, or it failed with an error of which nothing is told.
  abbrev pub EndsUntold : W → W × Result (Unit {0}) → Type 0
  EndsUntold x r = (r ≡ (x, value tt)) ⊎ ((e : Failure) × (r ≡ (x, failure e)) × IsLost L e)

  recorded-value :
      (r : W × Result (Unit {0})) (x : W) → recorded L r ≡ (x, value []) → EndsUntold x r
  unfolding recorded
  recorded-value (w, value u) x h = inl (ap (λ (y : W × Result Text). (y.0, value tt)) h)
  recorded-value (w, failure e) x h =
      inr (e, ap (λ (y : W × Result Text). (y.0, failure e)) h, task_error-IsLost L e (value_eq h))
  recorded-value (w, panics) x h = cc

  with_credential-value :
      {A : Type 0} (envs : List Text) (target : Text) (f : Labels → W → W × Result A) (w x : W)
      (a : A)
      → with_credential L envs target f w ≡ (x, value a)
      → (y z : W) × (credential : Labels) × (set_env L envs w ≡ (y, value tt))
        × (Libraries.get_backup_credential L target y ≡ (z, value credential))
        × (f credential z ≡ (x, value a))
  unfolding with_credential
  with_credential-value envs target f w x a h =
      let set = and_then-value (fail_as internal (set_env L envs w)) _ x a h in
      let got =
        and_then-value (fail_as invalid_argument (Libraries.get_backup_credential L target set.0)) f
          x a set.3 in
      (
        set.0,
        got.0,
        got.1,
        fail_as-value internal (set_env L envs w) set.0 tt set.2,
        fail_as-value invalid_argument (Libraries.get_backup_credential L target set.0) got.0 got.1
            got.2,
        got.3,
      )

  -- If the client reports a restore as started, then the variables of the request were set, the
  -- credential of its target was read, and with it the operation of the request's data engine was
  -- called, which is V1 or V2; it succeeded, or failed with an error of which nothing is told: one
  -- that cannot be marshalled or that has no text.
  pub client_backup_restore-started :
      (H : Host W) (carry : Failure → Failure) (unmarshal : Text → Option (List ReplicaError))
      (t : Target) (name : Text) (q : RestoreRequest) (w x : W)
      → client_backup_restore (proxy_service L H carry) unmarshal t name q w ≡ (x, value tt)
      → (y z : W) × (credential : Labels) × (set_env L q.envs w ≡ (y, value tt))
        × (Libraries.get_backup_credential L q.target y ≡ (z, value credential))
        × ((((request_of t).data_engine ≡ v1)
              × EndsUntold x (v1_backup_restore L (request_of t) (restore_request q) credential z))
            ⊎ (((request_of t).data_engine ≡ v2)
                × EndsUntold x
                    (v2_backup_restore L (request_of t) (restore_request q) credential z)))
  unfolding client_backup_restore backup_restore restore_request
  client_backup_restore-started H carry unmarshal t name q w x h =
      let ps = common t ++ q.url ∷ q.target ∷ name ∷ [] in
      let r = request_of t in
      let served = λ (y : W). carried carry (backup_restore L (some r) (restore_request q) y) in
      let answered = restored-value unmarshal (checked_call ps served w) x h in
      let sent =
        carried-value carry (backup_restore L (some r) (restore_request q) w) x []
          (checked_call-value ps served w x [] answered) in
      let f = v1_backup_restore L r (restore_request q) in
      let g = v2_backup_restore L r (restore_request q) in
      let picked = λ (credential : Labels) (y : W).
        dispatch r.data_engine (λ z. recorded L (f credential z)) (λ z. recorded L (g credential z))
          y in
      let (y, z, credential, set, got, ended) =
        with_credential-value q.envs q.target picked w x [] sent in
      (
        y,
        z,
        credential,
        set,
        got,
        elim (dispatch-value r.data_engine (λ u. recorded L (f credential u))
            (λ u. recorded L (g credential u)) z x [] ended) [
              | inl e ↦ inl (e.0, recorded-value (f credential z) x e.1)
              | inr e ↦ inr (e.0, recorded-value (g credential z) x e.1)
            ],
      )
