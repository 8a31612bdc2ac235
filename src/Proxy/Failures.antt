-- ===== src/Proxy/Failures.antt =====
-- How the operations of the proxy service fail, pkg/proxy.
use longhorn_engine_launcher.Prelude.{
  Bool, true, false, refl, Option, none, some, List, [], ◌∷◌, if◌then◌else◌, not, ◌&&◌,
}
use longhorn_engine_launcher.Prelude.Text.{Text, is_empty}
use longhorn_engine_launcher.Rpc.{
  internal, Result, value, failure, panics, and_then, answer_with, fail_as, FailsAs,
  fail_as-FailsAs, value-FailsAs, and_then-FailsAs, answer_with-FailsAs,
}
use longhorn_engine_launcher.Proxy.{Libraries, SpdkClient, get_spdk_client_from_address, with_spdk}
use longhorn_engine_launcher.Proxy.Types.{
  ProxyRequest, Labels, SpdkMode, ControllerReplica, SpdkEngineInfo, ShallowCopyStatus,
  BackupStatus, ReplicaAddRequest,
}
use longhorn_engine_launcher.Proxy.Replica.{
  v2_replica_add, v2_replica_list, v2_replica_rebuilding_status, engine_replicas, check_replicas,
  check_replica, add_status, RebuildStatuses, is_wo, address_of, listed, trim_tcp_prefix,
}
use longhorn_engine_launcher.Proxy.Snapshot.{v2_volume_snapshot, v2_snapshot_revert, named}
use longhorn_engine_launcher.Proxy.Volumes.{v2_volume_get, engine_to_volume}
use longhorn_engine_launcher.Proxy.Backup.{
  BackupRequest, v2_snapshot_backup, v2_snapshot_backup_status, backup_creation, status_reply,
}
use longhorn_engine_launcher.Proxy.Restore.{tcp_statuses, v2_backup_restore_status}

module _ {W : Type 0} (L : Libraries W) where
  with_spdk-FailsAs :
      {A : Type 0} (r : ProxyRequest) (f : SpdkClient W → W → W × Result A) (w : W)
      → ((c : SpdkClient W) (x : W) → FailsAs internal (f c x))
      → FailsAs internal (with_spdk L r f w)
  with_spdk-FailsAs r f w h =
      and_then-FailsAs internal (fail_as internal (get_spdk_client_from_address L r.address w)) f
        (fail_as-FailsAs internal (get_spdk_client_from_address L r.address w)) h

  -- The last call of an operation, whose errors become Internal.
  with_spdk-fail_as :
      {A : Type 0} (r : ProxyRequest) (f : SpdkClient W → W → W × Result A) (w : W)
      → FailsAs internal (with_spdk L r (λ c x. fail_as internal (f c x)) w)
  with_spdk-fail_as r f w =
      with_spdk-FailsAs r (λ c x. fail_as internal (f c x)) w
        (λ c x. fail_as-FailsAs internal (f c x))

  with_spdk-answer_with :
      {A C : Type 0} (g : A → C) (r : ProxyRequest) (f : SpdkClient W → W → W × Result A) (w : W)
      → FailsAs internal (with_spdk L r (λ c x. answer_with g (fail_as internal (f c x))) w)
  with_spdk-answer_with g r f w =
      with_spdk-FailsAs r (λ c x. answer_with g (fail_as internal (f c x))) w
        (λ c x.
          answer_with-FailsAs internal g (fail_as internal (f c x))
            (fail_as-FailsAs internal (f c x)))

  -- The engine is got first, and what follows fails as it should.
  with_engine-FailsAs :
      {A : Type 0} (r : ProxyRequest) (k : SpdkEngineInfo → W → W × Result A) (w : W)
      → ((e : SpdkEngineInfo) (x : W) → FailsAs internal (k e x))
      → FailsAs internal (
          with_spdk L r
            (λ c x. and_then (fail_as internal (SpdkClient.engine_get c r.engine_name x)) k)
            w)
  with_engine-FailsAs r k w h =
      with_spdk-FailsAs r
        (λ c x. and_then (fail_as internal (SpdkClient.engine_get c r.engine_name x)) k) w
        (λ c x.
          and_then-FailsAs internal (fail_as internal (SpdkClient.engine_get c r.engine_name x)) k
            (fail_as-FailsAs internal (SpdkClient.engine_get c r.engine_name x)) h)

  listed-FailsAs : (o : Option (List ControllerReplica)) (w : W) → FailsAs internal (listed L o w)
  unfolding listed FailsAs
  listed-FailsAs none w = refl
  listed-FailsAs (some replicas) w = tt

  add_status-FailsAs :
      (address : Text) (statuses : RebuildStatuses) (r : W × Result ShallowCopyStatus)
      → FailsAs internal (add_status L address statuses r)
  unfolding add_status FailsAs
  add_status-FailsAs address statuses (w, value c) = tt
  add_status-FailsAs address statuses (w, failure e) = tt
  add_status-FailsAs address statuses (w, panics) = tt

  check_if-FailsAs :
      (b : Bool) (name address : Text) (statuses : RebuildStatuses) (w : W)
      → FailsAs internal
          (if b then check_replica L name address statuses w else (w, value statuses))
  unfolding check_replica
  check_if-FailsAs true name address statuses w =
      and_then-FailsAs internal (fail_as internal (get_spdk_client_from_address L address w))
        (λ c x.
          add_status L address statuses
            (SpdkClient.replica_rebuilding_dst_shallow_copy_check c name x))
        (fail_as-FailsAs internal (get_spdk_client_from_address L address w))
        (λ c x.
          add_status-FailsAs address statuses
            (SpdkClient.replica_rebuilding_dst_shallow_copy_check c name x))
  check_if-FailsAs false name address statuses w = value-FailsAs internal w statuses

  check_replicas-FailsAs :
      (addresses : List (Text × Text)) (modes : List (Text × SpdkMode)) (statuses : RebuildStatuses)
      (w : W)
      → FailsAs internal (check_replicas L addresses modes statuses w)
  unfolding check_replicas
  check_replicas-FailsAs addresses [] statuses w = value-FailsAs internal w statuses
  check_replicas-FailsAs addresses ((name, mode) ∷ modes) statuses w =
      let address = address_of name addresses in
      let asked = is_wo mode && not (is_empty address) in
      and_then-FailsAs internal
        (if asked then check_replica L name address statuses w else (w, value statuses))
        (λ later x. check_replicas L addresses modes later x)
        (check_if-FailsAs asked name address statuses w)
        (λ later x. check_replicas-FailsAs addresses modes later x)

  -- Adding a replica, listing them and their rebuilding, getting the volume, making a snapshot and
  -- reverting to one, and the backups of a V2 engine and their status: when such an operation fails,
  -- its error is a status of gRPC with the code Internal, whatever the SPDK client's error was.
  pub v2_operations-FailAsInternal :
      (r : ProxyRequest) (add : ReplicaAddRequest) (backup : BackupRequest) (credential : Labels)
      (labels : List Text) (name replica_address : Text) (w : W)
      → FailsAs internal (v2_replica_add L r add w)
        × FailsAs internal (v2_replica_list L r w)
        × FailsAs internal (v2_replica_rebuilding_status L r w)
        × FailsAs internal (v2_volume_get L r w)
        × FailsAs internal (v2_volume_snapshot L r name w)
        × FailsAs internal (v2_snapshot_revert L r name w)
        × FailsAs internal (v2_snapshot_backup L r backup credential labels w)
        × FailsAs internal (v2_snapshot_backup_status L r name replica_address w)
        × FailsAs internal (v2_backup_restore_status L r w)
  unfolding v2_replica_add v2_replica_list v2_replica_rebuilding_status v2_volume_get
      v2_volume_snapshot v2_snapshot_revert v2_snapshot_backup v2_snapshot_backup_status
      v2_backup_restore_status
  v2_operations-FailAsInternal r add backup credential labels name replica_address w = (
    with_spdk-fail_as r
        (λ c x.
          SpdkClient.engine_replica_add c r.engine_name add.replica_name
            (trim_tcp_prefix add.replica_address) x)
        w,
    with_engine-FailsAs r (λ e. listed L (engine_replicas e.replica_address_map e.replica_mode_map))
        w (λ e x. listed-FailsAs (engine_replicas e.replica_address_map e.replica_mode_map) x),
    with_engine-FailsAs r (λ e. check_replicas L e.replica_address_map e.replica_mode_map []) w
        (λ e x. check_replicas-FailsAs e.replica_address_map e.replica_mode_map [] x),
    with_spdk-answer_with engine_to_volume r (λ c x. SpdkClient.engine_get c r.engine_name x) w,
    with_spdk-FailsAs r
        (λ c x.
          answer_with (λ n. (named L name x).1)
            (fail_as internal (
              SpdkClient.engine_snapshot_create c r.engine_name (named L name x).1
                (named L name x).0)))
        w
        (λ c x.
          answer_with-FailsAs internal (λ n. (named L name x).1)
            (fail_as internal (
              SpdkClient.engine_snapshot_create c r.engine_name (named L name x).1
                (named L name x).0))
            (fail_as-FailsAs internal (
              SpdkClient.engine_snapshot_create c r.engine_name (named L name x).1
                (named L name x).0))),
    with_spdk-fail_as r (λ c x. SpdkClient.engine_snapshot_revert c r.engine_name name x) w,
    with_spdk-fail_as r
        (λ c x.
          SpdkClient.engine_backup_create c
            (backup_creation backup (named L backup.snapshot_name x).1 labels credential)
            r.volume_name r.engine_name (named L backup.snapshot_name x).0)
        w,
    with_spdk-answer_with (λ (s : BackupStatus). status_reply s.replica_address s) r
        (λ c x. SpdkClient.engine_backup_status c name r.engine_name replica_address x) w,
    with_spdk-answer_with tcp_statuses r (λ c x. SpdkClient.engine_restore_status c r.engine_name x)
        w,
  )
