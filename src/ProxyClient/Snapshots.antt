-- ===== src/ProxyClient/Snapshots.antt =====
-- The calls on snapshots, pkg/client/proxy_snapshot.go.
use longhorn_engine_launcher.Prelude.{Bool, false, not, ◌||◌, List, [], ◌∷◌, ◌++◌, if◌then◌else◌}
use longhorn_engine_launcher.Prelude.Int.{to_i32}
use longhorn_engine_launcher.Prelude.Text.{Text, codes, text_eq, is_empty}
use longhorn_engine_launcher.Rpc.{plain, Result, failure}
use longhorn_engine_launcher.Proxy.Types.{
  Labels, SnapshotDisk, CloneStatus, PurgeStatus, HashStatus,
}
use longhorn_engine_launcher.Proxy.SnapshotTasks.{CloneRequest}
use longhorn_engine_launcher.ProxyClient.{ProxyService, Target, request_of, common, checked_call}

-- Some label has a key that is not qualified or an empty value. `is_qualified` is the test of the
-- engine's library.
unfoldable pub bad_label : (Text → Bool) → Labels → Bool
bad_label is_qualified [] = false
bad_label is_qualified ((key, v) ∷ labels) =
    not (is_qualified key) || is_empty v || bad_label is_qualified labels

-- The request of SnapshotClone: backing images are not exported.
unfoldable pub clone_request : CloneRequest → CloneRequest
clone_request q = record q {
  export_backing_image_if_exist = false;
  file_sync_http_client_timeout = to_i32 q.file_sync_http_client_timeout;
}

module _ {W : Type 0} (S : ProxyService W) where
  -- A test after the parameters; its error is wrapped like the service's.
  abbrev unless : {A : Type 0} → Bool → (W → W × Result A) → W → W × Result A
  unless bad f w = if bad then (w, failure (plain (codes "invalid"))) else f w

  unfoldable pub client_volume_snapshot :
      (Text → Bool) → Target → Text → Labels → Bool → W → W × Result Text
  unfolding checked_call request_of bad_label
  client_volume_snapshot is_qualified t name labels freeze_filesystem w =
      checked_call (common t)
        (unless (bad_label is_qualified labels)
          (ProxyService.volume_snapshot S (request_of t) name labels freeze_filesystem))
        w

  unfoldable pub client_snapshot_list : Target → W → W × Result (List (Text × SnapshotDisk))
  unfolding checked_call request_of
  client_snapshot_list t w = checked_call (common t) (ProxyService.snapshot_list S (request_of t)) w

  unfoldable pub client_snapshot_clone : Target → CloneRequest → W → W × Result (Unit {0})
  unfolding checked_call request_of clone_request
  client_snapshot_clone t q w =
      checked_call
        (common t
          ++ q.snapshot_name ∷ q.from_engine_address ∷ q.from_volume_name ∷ q.from_engine_name ∷ [])
        (ProxyService.snapshot_clone S (request_of t) (clone_request q)) w

  unfoldable pub client_snapshot_clone_status : Target → W → W × Result (List (Text × CloneStatus))
  unfolding checked_call request_of
  client_snapshot_clone_status t w =
      checked_call (common t) (ProxyService.snapshot_clone_status S (request_of t)) w

  -- `head` is the name of the volume's head, a constant of the engine's library; a volume cannot be
  -- reverted to it.
  unfoldable pub client_snapshot_revert : Text → Target → Text → W → W × Result (Unit {0})
  unfolding checked_call request_of
  client_snapshot_revert head t name w =
      checked_call (common t ++ name ∷ [])
        (unless (text_eq name head) (ProxyService.snapshot_revert S (request_of t) name)) w

  unfoldable pub client_snapshot_purge : Target → Bool → W → W × Result (Unit {0})
  unfolding checked_call request_of
  client_snapshot_purge t skip_if_in_progress w =
      checked_call (common t) (ProxyService.snapshot_purge S (request_of t) skip_if_in_progress) w

  unfoldable pub client_snapshot_purge_status : Target → W → W × Result (List (Text × PurgeStatus))
  unfolding checked_call request_of
  client_snapshot_purge_status t w =
      checked_call (common t) (ProxyService.snapshot_purge_status S (request_of t)) w

  unfoldable pub client_snapshot_remove : Target → List Text → W → W × Result (Unit {0})
  unfolding checked_call request_of
  client_snapshot_remove t names w =
      checked_call (common t) (ProxyService.snapshot_remove S (request_of t) names) w

  -- The name of the snapshot is not checked.
  unfoldable pub client_snapshot_hash : Target → Text → Bool → W → W × Result (Unit {0})
  unfolding checked_call request_of
  client_snapshot_hash t snapshot_name rehash w =
      checked_call (common t) (ProxyService.snapshot_hash S (request_of t) snapshot_name rehash) w

  unfoldable pub client_snapshot_hash_status :
      Target → Text → W → W × Result (List (Text × HashStatus))
  unfolding checked_call request_of
  client_snapshot_hash_status t snapshot_name w =
      checked_call (common t) (ProxyService.snapshot_hash_status S (request_of t) snapshot_name) w
