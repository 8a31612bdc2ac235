-- ===== src/DiskClient.antt =====
-- DiskServiceClient of pkg/client/disk.go: the checks of the arguments before a call of the disk
-- service. The generated stub of that service, and the generated table of the disk types, are
-- parameters.
use longhorn_engine_launcher.Prelude.{ℕ, Bool, ◌||◌, Option, none, some, List, if◌then◌else◌}
use longhorn_engine_launcher.Prelude.Text.{Text, codes, is_empty}
use longhorn_engine_launcher.Rpc.{plain, Result, failure}
use longhorn_engine_launcher.Client.{missing}
use longhorn_engine_launcher.Disk.{DiskType, filesystem, DiskRequest, Disk, ReplicaInstance}

-- rpc.DiskServiceClient, with the state `W` of what is behind it, and rpc.DiskType_value.
pub record DiskService (W : Type 0) : Type 0 where
  pub disk_type_value : Text → Option DiskType
  pub create : DiskRequest → W → W × Result Disk
  pub delete : DiskRequest → W → W × Result (Unit {0})
  pub get : DiskRequest → W → W × Result Disk
  pub replica_instance_list : DiskRequest → W → W × Result (List (Text × ReplicaInstance))
  pub replica_instance_delete : DiskRequest → W → W × Result (Unit {0})

-- The arguments of a call; those that it does not have are empty.
pub record DiskArguments : Type 0 where
  pub disk_type : Text
  pub disk_name : Text
  pub disk_uuid : Text
  pub disk_path : Text
  pub disk_driver : Text
  pub block_size : ℕ
  pub replica_instance_name : Text

unfoldable pub disk_request : DiskType → DiskArguments → DiskRequest
disk_request t a = record {
  disk_type = t;
  disk_name = a.disk_name;
  disk_uuid = a.disk_uuid;
  disk_path = a.disk_path;
  disk_driver = a.disk_driver;
  block_size = a.block_size;
  replica_instance_name = a.replica_instance_name;
}

-- A type that the table does not have is looked up as the number 0.
unfoldable pub type_or_zero : Option DiskType → DiskType
type_or_zero none = filesystem
type_or_zero (some t) = t

module _ {W : Type 0} (D : DiskService W) where
  abbrev present : {A : Type 0} → Bool → (W → W × Result A) → W → W × Result A
  present absent f w = if absent then (w, failure missing) else f w

  -- A type that the table does not have is refused.
  abbrev with_type :
      {A : Type 0} → Option DiskType → (DiskType → W → W × Result A) → W → W × Result A
  with_type none f w = (w, failure (plain (codes "invalid disk type")))
  with_type (some t) f w = f t w

  unfoldable pub client_disk_create : DiskArguments → W → W × Result Disk
  unfolding disk_request
  client_disk_create a w =
      present (is_empty a.disk_name || is_empty a.disk_path)
        (with_type (DiskService.disk_type_value D a.disk_type)
          (λ t. DiskService.create D (disk_request t a)))
        w

  unfoldable pub client_disk_get : DiskArguments → W → W × Result Disk
  unfolding disk_request
  client_disk_get a w =
      present (is_empty a.disk_name)
        (with_type (DiskService.disk_type_value D a.disk_type)
          (λ t. DiskService.get D (disk_request t a)))
        w

  abbrev request_of : DiskArguments → DiskRequest
  request_of a = disk_request (type_or_zero (DiskService.disk_type_value D a.disk_type)) a

  unfoldable pub client_disk_delete : DiskArguments → W → W × Result (Unit {0})
  unfolding disk_request type_or_zero
  client_disk_delete a w = present (is_empty a.disk_name) (DiskService.delete D (request_of a)) w

  unfoldable pub client_disk_replica_instance_list :
      DiskArguments → W → W × Result (List (Text × ReplicaInstance))
  unfolding disk_request type_or_zero
  client_disk_replica_instance_list a w =
      present (is_empty a.disk_name) (DiskService.replica_instance_list D (request_of a)) w

  unfoldable pub client_disk_replica_instance_delete : DiskArguments → W → W × Result (Unit {0})
  unfolding disk_request type_or_zero
  client_disk_replica_instance_delete a w =
      present (is_empty a.disk_name || is_empty a.disk_uuid || is_empty a.replica_instance_name)
        (DiskService.replica_instance_delete D (request_of a)) w
