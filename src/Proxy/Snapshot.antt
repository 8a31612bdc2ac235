-- ===== src/Proxy/Snapshot.antt =====
-- The operations on the snapshots of an engine, pkg/proxy/snapshot.go: making, listing, reverting to
-- and removing them.
use longhorn_engine_launcher.Prelude.{Bool, false, Option, none, some, List, [], ◌∷◌, if◌then◌else◌}
use longhorn_engine_launcher.Prelude.Text.{Text, is_empty}
use longhorn_engine_launcher.Prelude.Decimal.{digits}
use longhorn_engine_launcher.Prelude.Dict.{insert}
use longhorn_engine_launcher.Rpc.{
  internal, Failure, Result, value, failure, panics, and_then, answer_with, fail_as, fail_wrapped,
}
use longhorn_engine_launcher.Instance.Operations.{dispatch}
use longhorn_engine_launcher.Proxy.{
  Libraries, Controller, Task, SpdkClient, required, map_values, with_controller, with_task,
  with_spdk, get_spdk_client_from_address,
}
use longhorn_engine_launcher.Proxy.Types.{ProxyRequest, Labels, Lvol, SpdkEngineInfo, SnapshotDisk}

abbrev pub SnapshotDisks : Type 0
SnapshotDisks = List (Text × SnapshotDisk)

-- The snapshots of the engine, with its head among them.
unfoldable pub disks_of : SpdkEngineInfo → List (Text × Lvol)
disks_of e = elim e.head [ none ↦ e.snapshots | some head ↦ insert head.name head e.snapshots ]

-- A snapshot from before SnapshotTimestamp was there has its CreationTime.
unfoldable pub snapshot_time : Lvol → Text
snapshot_time s = if is_empty s.snapshot_timestamp then s.creation_time else s.snapshot_timestamp

unfoldable pub lvol_to_disk : Lvol → SnapshotDisk
unfolding snapshot_time digits
lvol_to_disk s = record {
  name = s.name;
  parent = s.parent;
  children = s.children;
  removed = false;
  user_created = s.user_created;
  created = snapshot_time s;
  size = digits s.actual_size;
  labels = [];
}

-- The answer after the last name: the last error there was.
unfoldable pub last_error : Option Failure → Result (Unit {0})
last_error none = value tt
last_error (some e) = failure e

module _ {W : Type 0} where
  -- After a name: the rest of the names is tried, with the last error so far.
  abbrev pub continue_with :
      (Option Failure → W → W × Result (Unit {0}))
      → Option Failure
      → W × Result (Unit {0})
      → W × Result (Unit {0})
  continue_with k last (x, value u) = k last x
  continue_with k last (x, failure e) = k (some e) x
  continue_with k last (x, panics) = (x, panics)

  -- The loop over the names: each is tried, and the last error is kept.
  unfoldable pub remove_each :
      (Text → W → W × Result (Unit {0})) → List Text → Option Failure → W → W × Result (Unit {0})
  unfolding last_error
  remove_each f [] last w = (w, last_error last)
  remove_each f (name ∷ names) last w =
      continue_with (λ later x. remove_each f names later x) last (f name w)

module _ {W : Type 0} (L : Libraries W) where
  -- A snapshot without a name is given a fresh one.
  unfoldable pub named : Text → W → W × Text
  named name w = if is_empty name then Libraries.uuid L w else (w, name)

  unfoldable pub v1_volume_snapshot : ProxyRequest → Text → Labels → Bool → W → W × Result Text
  v1_volume_snapshot r name labels freeze_filesystem w =
      with_controller L r (λ c x. Controller.volume_snapshot c name labels freeze_filesystem x) w

  -- The snapshot's name, chosen here or not, is the answer.
  unfoldable pub v2_volume_snapshot : ProxyRequest → Text → W → W × Result Text
  unfolding get_spdk_client_from_address named
  v2_volume_snapshot r name w =
      with_spdk L r
        (λ c x.
          let chosen = named name x in
          answer_with (λ n. chosen.1)
            (fail_as internal
              (SpdkClient.engine_snapshot_create c r.engine_name chosen.1 chosen.0)))
        w

  unfoldable pub volume_snapshot :
      Option ProxyRequest → Option (Text × Labels × Bool) → W → W × Result Text
  unfolding v1_volume_snapshot v2_volume_snapshot
  volume_snapshot request snapshot w =
      required request
        (λ r. required snapshot (λ (name, labels, freeze_filesystem) x.
          dispatch r.data_engine (v1_volume_snapshot r name labels freeze_filesystem)
            (v2_volume_snapshot r name) x))
        w

  unfoldable pub v1_snapshot_list : ProxyRequest → W → W × Result SnapshotDisks
  v1_snapshot_list r w =
      with_controller L r
        (λ c x.
          and_then (Controller.replica_list c x)
            (λ replicas. Libraries.get_snapshots_info L replicas r.volume_name))
        w

  -- Unlike those of the other V2 operations, the errors here are only wrapped.
  unfoldable pub v2_snapshot_list : ProxyRequest → W → W × Result SnapshotDisks
  unfolding get_spdk_client_from_address disks_of lvol_to_disk
  v2_snapshot_list r w =
      and_then (fail_wrapped (get_spdk_client_from_address L r.address w)) (λ c x.
        answer_with (λ e. map_values lvol_to_disk (disks_of e))
          (fail_wrapped (SpdkClient.engine_get c r.engine_name x)))

  unfoldable pub snapshot_list : ProxyRequest → W → W × Result SnapshotDisks
  unfolding v1_snapshot_list v2_snapshot_list
  snapshot_list r w = dispatch r.data_engine (v1_snapshot_list r) (v2_snapshot_list r) w

  unfoldable pub v1_snapshot_revert : ProxyRequest → Text → W → W × Result (Unit {0})
  v1_snapshot_revert r name w = with_controller L r (λ c x. Controller.volume_revert c name x) w

  unfoldable pub v2_snapshot_revert : ProxyRequest → Text → W → W × Result (Unit {0})
  unfolding get_spdk_client_from_address
  v2_snapshot_revert r name w =
      with_spdk L r
        (λ c x. fail_as internal (SpdkClient.engine_snapshot_revert c r.engine_name name x)) w

  unfoldable pub snapshot_revert : Option ProxyRequest → Text → W → W × Result (Unit {0})
  unfolding v1_snapshot_revert v2_snapshot_revert
  snapshot_revert request name w =
      required request
        (λ r x. dispatch r.data_engine (v1_snapshot_revert r name) (v2_snapshot_revert r name) x) w

  unfoldable pub v1_snapshot_remove : ProxyRequest → List Text → W → W × Result (Unit {0})
  unfolding remove_each
  v1_snapshot_remove r names w =
      with_task L r (λ task x. remove_each (Task.delete_snapshot task) names none x) w

  unfoldable pub v2_snapshot_remove : ProxyRequest → List Text → W → W × Result (Unit {0})
  unfolding get_spdk_client_from_address remove_each
  v2_snapshot_remove r names w =
      with_spdk L r
        (λ c x. remove_each (SpdkClient.engine_snapshot_delete c r.engine_name) names none x) w

  unfoldable pub snapshot_remove : Option ProxyRequest → List Text → W → W × Result (Unit {0})
  unfolding v1_snapshot_remove v2_snapshot_remove
  snapshot_remove request names w =
      required request
        (λ r x. dispatch r.data_engine (v1_snapshot_remove r names) (v2_snapshot_remove r names) x)
        w
