-- ===== src/Disk.antt =====
-- The disk service, pkg/disk/disk.go. Only block disks are served, by the client of the SPDK engine;
-- that client, a library, is a parameter, and is nil if SPDK is not enabled.
pub mod Requests
use longhorn_engine_launcher.Prelude.{
  ℕ, Bool, true, false, ◌||◌, Option, none, some, List, [], ◌∷◌, if◌then◌else◌,
}
use longhorn_engine_launcher.Prelude.Text.{Text, is_empty}
use longhorn_engine_launcher.Prelude.Dict.{insert}
use longhorn_engine_launcher.Rpc.{
  unimplemented, invalid_argument, internal, status, Result, value, failure, panics, answer_with,
  fail_as,
}

-- rpc.DiskType; a protobuf enumeration can carry other numbers.
pub data DiskType : Type 0 where
  filesystem block : DiskType
  other_type : ℕ → DiskType

-- The fields of the requests.
pub record DiskRequest : Type 0 where
  pub disk_type : DiskType
  pub disk_name : Text
  pub disk_uuid : Text
  pub disk_path : Text
  pub disk_driver : Text
  pub block_size : ℕ
  pub replica_instance_name : Text

-- rpc.Disk, and the disk of the SPDK engine with the same fields.
pub record Disk : Type 0 where
  pub id : Text
  pub name : Text
  pub uuid : Text
  pub path : Text
  pub type : Text
  pub driver : Text
  pub total_size : ℕ
  pub free_size : ℕ
  pub total_blocks : ℕ
  pub free_blocks : ℕ
  pub block_size : ℕ
  pub cluster_size : ℕ

-- api.Replica of the SPDK engine, as far as it is read.
pub record SpdkReplica : Type 0 where
  pub name : Text
  pub lvs_name : Text
  pub lvs_uuid : Text
  pub spec_size : ℕ
  pub actual_size : ℕ

pub record ReplicaInstance : Type 0 where
  pub name : Text
  pub disk_name : Text
  pub disk_uuid : Text
  pub spec_size : ℕ
  pub actual_size : ℕ

pub record SpdkDisks (W : Type 0) : Type 0 where
  pub create : DiskRequest → W → W × Result Disk
  pub delete : DiskRequest → W → W × Result (Unit {0})
  pub get : DiskRequest → W → W × Result Disk
  pub replica_list : W → W × Result (List (Text × SpdkReplica))
  pub replica_delete : Text → Bool → W → W × Result (Unit {0})

unfoldable pub spdk_disk_to_disk : Disk → Disk
spdk_disk_to_disk d = record {
  id = d.id;
  name = d.name;
  uuid = d.uuid;
  path = d.path;
  type = d.type;
  driver = d.driver;
  total_size = d.total_size;
  free_size = d.free_size;
  total_blocks = d.total_blocks;
  free_blocks = d.free_blocks;
  block_size = d.block_size;
  cluster_size = d.cluster_size;
}

unfoldable pub replica_to_replica_instance : SpdkReplica → ReplicaInstance
replica_to_replica_instance r = record {
  name = r.name;
  disk_name = r.lvs_name;
  disk_uuid = r.lvs_uuid;
  spec_size = r.spec_size;
  actual_size = r.actual_size;
}

abbrev pub replica_instances : List (Text × SpdkReplica) → List (Text × ReplicaInstance)
replica_instances [] = []
replica_instances ((name, r) ∷ entries) =
    insert name (replica_to_replica_instance r) (replica_instances entries)

module _ {W : Type 0} (S : Option (SpdkDisks W)) where
  -- The operations that the server finds for the disk type.
  abbrev pub disk_dispatch : {A : Type 0} → DiskType → (W → W × Result A) → W → W × Result A
  disk_dispatch filesystem f w = (w, failure (status unimplemented))
  disk_dispatch block f w = f w
  disk_dispatch (other_type n) f w = (w, failure (status unimplemented))

  -- A call of the client.
  abbrev pub with_client :
      {A : Type 0} → Option (SpdkDisks W) → (SpdkDisks W → W → W × Result A) → W → W × Result A
  with_client none f w = (w, panics)
  with_client (some c) f w = f c w

  abbrev pub checked : {A : Type 0} → Bool → (W → W × Result A) → W → W × Result A
  checked missing f w = if missing then (w, failure (status invalid_argument)) else f w

  unfoldable pub disk_create : DiskRequest → W → W × Result Disk
  unfolding spdk_disk_to_disk
  disk_create req w =
      checked (is_empty req.disk_name || is_empty req.disk_path)
        (disk_dispatch req.disk_type (
          with_client S
            (λ c x. fail_as internal (answer_with spdk_disk_to_disk (SpdkDisks.create c req x)))))
        w

  -- An error is passed on as it is.
  unfoldable pub disk_delete : DiskRequest → W → W × Result (Unit {0})
  disk_delete req w =
      checked (is_empty req.disk_name)
        (disk_dispatch req.disk_type (with_client S (λ c x. SpdkDisks.delete c req x))) w

  unfoldable pub disk_get : DiskRequest → W → W × Result Disk
  unfolding spdk_disk_to_disk
  disk_get req w =
      checked (is_empty req.disk_name)
        (disk_dispatch req.disk_type (
          with_client S
            (λ c x. fail_as internal (answer_with spdk_disk_to_disk (SpdkDisks.get c req x)))))
        w

  unfoldable pub disk_replica_instance_list :
      DiskRequest → W → W × Result (List (Text × ReplicaInstance))
  unfolding replica_to_replica_instance
  disk_replica_instance_list req w =
      checked (is_empty req.disk_name)
        (disk_dispatch req.disk_type (
          with_client S
            (λ c x. fail_as internal (answer_with replica_instances (SpdkDisks.replica_list c x)))))
        w

  unfoldable pub disk_replica_instance_delete : DiskRequest → W → W × Result (Unit {0})
  disk_replica_instance_delete req w =
      checked
        (is_empty req.disk_name || is_empty req.disk_uuid || is_empty req.replica_instance_name)
        (disk_dispatch req.disk_type (
          with_client S (λ c x.
            fail_as internal (SpdkDisks.replica_delete c req.replica_instance_name true x))))
        w
