-- ===== src/Proxy/SnapshotTasks.antt =====
-- The tasks on the snapshots of an engine, pkg/proxy/snapshot.go: cloning, purging and hashing them,
-- and the status of each.
use longhorn_engine_launcher.Prelude.{Bool, Option, List, []}
use longhorn_engine_launcher.Prelude.Int.{ℤ, to_i32}
use longhorn_engine_launcher.Prelude.Text.{Text}
use longhorn_engine_launcher.Rpc.{
  unimplemented, Result, value, failure, panics, and_then, answer_with,
}
use longhorn_engine_launcher.Instance.Operations.{dispatch, refuse}
use longhorn_engine_launcher.Proxy.{
  Libraries, Task, SpdkClient, required, map_values, with_controller, with_task, with_spdk,
  get_spdk_client_from_address,
}
use longhorn_engine_launcher.Proxy.Types.{ProxyRequest, CloneStatus, PurgeStatus, HashStatus}

-- The arguments of rpc.EngineSnapshotCloneRequest.
pub record CloneRequest : Type 0 where
  pub from_engine_address : Text
  pub from_volume_name : Text
  pub from_engine_name : Text
  pub snapshot_name : Text
  pub export_backing_image_if_exist : Bool
  pub file_sync_http_client_timeout : ℤ
  pub grpc_timeout_seconds : ℤ

clone_reply : CloneStatus → CloneStatus
clone_reply v = record v { progress = to_i32 v.progress }

purge_reply : PurgeStatus → PurgeStatus
purge_reply v = record v { progress = to_i32 v.progress }

module _ {W : Type 0} (L : Libraries W) where
  -- The client of the source is opened first.
  unfoldable pub v1_snapshot_clone : ProxyRequest → CloneRequest → W → W × Result (Unit {0})
  v1_snapshot_clone r q w =
      and_then
        (Libraries.new_controller_client L q.from_engine_address q.from_volume_name
          q.from_engine_name w)
        (λ source. with_controller L r (λ target x.
          Libraries.clone_snapshot L target source r.volume_name q.from_volume_name q.snapshot_name
            q.export_backing_image_if_exist q.file_sync_http_client_timeout q.grpc_timeout_seconds
            x))

  -- The V2 operation is not implemented.
  unfoldable pub snapshot_clone : Option ProxyRequest → CloneRequest → W → W × Result (Unit {0})
  unfolding v1_snapshot_clone
  snapshot_clone request q w =
      required request
        (λ r x. dispatch r.data_engine (v1_snapshot_clone r q) (refuse unimplemented) x) w

  -- The V2 operation answers that there is none.
  unfoldable pub snapshot_clone_status : ProxyRequest → W → W × Result (List (Text × CloneStatus))
  unfolding clone_reply
  snapshot_clone_status r w =
      dispatch r.data_engine
        (with_controller L r (λ c x.
          answer_with (map_values clone_reply) (Libraries.clone_status L c r.volume_name x)))
        (λ x. (x, value [])) w

  -- The outcome of the call of the SPDK client is dropped.
  unfoldable pub dropped : {A : Type 0} → W × Result A → W × Result (Unit {0})
  dropped (x, value a) = (x, value tt)
  dropped (x, failure e) = (x, value tt)
  dropped (x, panics) = (x, panics)

  unfoldable pub v2_snapshot_purge : ProxyRequest → W → W × Result (Unit {0})
  unfolding get_spdk_client_from_address dropped
  v2_snapshot_purge r w =
      with_spdk L r (λ c x. dropped (SpdkClient.engine_snapshot_purge c r.engine_name x)) w

  unfoldable pub snapshot_purge : Option ProxyRequest → Bool → W → W × Result (Unit {0})
  unfolding v2_snapshot_purge
  snapshot_purge request skip_if_in_progress w =
      required request
        (λ r x.
          dispatch r.data_engine
            (with_task L r (λ task y. Task.purge_snapshots task skip_if_in_progress y))
            (v2_snapshot_purge r) x)
        w

  -- The V2 operation answers that there is none.
  unfoldable pub snapshot_purge_status : ProxyRequest → W → W × Result (List (Text × PurgeStatus))
  unfolding purge_reply
  snapshot_purge_status r w =
      dispatch r.data_engine
        (with_task L r
          (λ task x. answer_with (map_values purge_reply) (Task.purge_snapshot_status task x)))
        (λ x. (x, value [])) w

  -- The V2 operation is not implemented.
  unfoldable pub snapshot_hash : Option ProxyRequest → Text → Bool → W → W × Result (Unit {0})
  snapshot_hash request snapshot_name rehash w =
      required request
        (λ r x.
          dispatch r.data_engine
            (with_task L r (λ task y. Task.hash_snapshot task snapshot_name rehash y))
            (refuse unimplemented) x)
        w

  -- The V2 operation is not implemented.
  unfoldable pub snapshot_hash_status :
      Option ProxyRequest → Text → W → W × Result (List (Text × HashStatus))
  snapshot_hash_status request snapshot_name w =
      required request
        (λ r x.
          dispatch r.data_engine
            (with_task L r (λ task y. Task.hash_snapshot_status task snapshot_name y))
            (refuse unimplemented) x)
        w
