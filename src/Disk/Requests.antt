-- ===== src/Disk/Requests.antt =====
-- Which requests reach the SPDK engine behind pkg/disk/disk.go.
use longhorn_engine_launcher.Prelude.{
  ◌≡◌, ◌≢◌, refl, ◌∙◌, Bool, true, false, ◌||◌, Option, none, some, List, [], ◌∷◌, Bool-cases, inl,
  inr,
}
use longhorn_engine_launcher.Prelude.Text.{Text, text_eq, is_empty}
use longhorn_engine_launcher.Prelude.Dict.{lookup, lookup-insert}
use longhorn_engine_launcher.Rpc.{
  internal, Failure, unimplemented, invalid_argument, status, Result, failure, panics, answer_with,
  fail_as,
}
use longhorn_engine_launcher.Disk.{
  DiskType, filesystem, block, other_type, DiskRequest, SpdkReplica, SpdkDisks, ReplicaInstance,
  replica_to_replica_instance, replica_instances, spdk_disk_to_disk, disk_dispatch, checked,
  with_client, disk_create, disk_delete, disk_get, disk_replica_instance_list,
  disk_replica_instance_delete,
}

-- The call fails, and has reached nothing.
abbrev pub FailsAlone : {W A : Type 0} → W → W × Result A → Type 0
FailsAlone w x = (e : Failure) × (x ≡ (w, failure e))

module _ {W : Type 0} (S : Option (SpdkDisks W)) (w : W) where
  refused :
      {A : Type 0} (b : Bool) (t : DiskType) (f : W → W × Result A)
      → t ≢ block
      → FailsAlone w (checked S b (disk_dispatch S t f) w)
  refused true t f h = (status invalid_argument, refl)
  refused false filesystem f h = (status unimplemented, refl)
  refused false block f h = absurd (h refl)
  refused false (other_type n) f h = (status unimplemented, refl)

  -- A request for a disk type other than block fails in all five handlers, and changes nothing in
  -- the SPDK engine.
  pub disk_handlers-FailsAlone :
      (req : DiskRequest)
      → req.disk_type ≢ block
      → FailsAlone w (disk_create S req w)
        × FailsAlone w (disk_delete S req w)
        × FailsAlone w (disk_get S req w)
        × FailsAlone w (disk_replica_instance_list S req w)
        × FailsAlone w (disk_replica_instance_delete S req w)
  unfolding disk_create disk_delete disk_get disk_replica_instance_list disk_replica_instance_delete
  disk_handlers-FailsAlone req h = (
    refused (is_empty req.disk_name || is_empty req.disk_path) req.disk_type
        (with_client S S
          (λ c x. fail_as internal (answer_with spdk_disk_to_disk (SpdkDisks.create c req x))))
        h,
    refused (is_empty req.disk_name) req.disk_type
        (with_client S S (λ c x. SpdkDisks.delete c req x)) h,
    refused (is_empty req.disk_name) req.disk_type
        (with_client S S
          (λ c x. fail_as internal (answer_with spdk_disk_to_disk (SpdkDisks.get c req x))))
        h,
    refused (is_empty req.disk_name) req.disk_type
        (with_client S S
          (λ c x. fail_as internal (answer_with replica_instances (SpdkDisks.replica_list c x))))
        h,
    refused (is_empty req.disk_name || is_empty req.disk_uuid || is_empty req.replica_instance_name)
        req.disk_type
        (with_client S S
          (λ c x. fail_as internal (SpdkDisks.replica_delete c req.replica_instance_name true x)))
        h,
  )

  -- A request without a disk name is refused as an invalid argument by all five handlers, whatever
  -- the type of the disk, and changes nothing in the SPDK engine.
  pub disk_handlers-no_name :
      (req : DiskRequest)
      → req.disk_name ≡ []
      → (disk_create S req w ≡ (w, failure (status invalid_argument)))
        × (disk_delete S req w ≡ (w, failure (status invalid_argument)))
        × (disk_get S req w ≡ (w, failure (status invalid_argument)))
        × (disk_replica_instance_list S req w ≡ (w, failure (status invalid_argument)))
        × (disk_replica_instance_delete S req w ≡ (w, failure (status invalid_argument)))
  unfolding disk_create disk_delete disk_get disk_replica_instance_list disk_replica_instance_delete
  disk_handlers-no_name req h = rw h (refl, refl, refl, refl, refl)

-- Without the SPDK engine a request for a block disk panics.
pub disk_get-panics :
    {W : Type 0} (req : DiskRequest) (w : W)
    → is_empty req.disk_name ≡ false
    → req.disk_type ≡ block
    → disk_get none req w ≡ (w, panics)
unfolding disk_get
disk_get-panics req w named h = rw (named, h) refl

abbrev pub converted : Option SpdkReplica → Option ReplicaInstance
converted none = none
converted (some r) = some (replica_to_replica_instance r)

-- The converted list of replica instances has an entry for a name exactly where the list of the
-- SPDK engine has one, and it is the conversion of that one.
pub lookup-replica_instances :
    (j : Text) (replicas : List (Text × SpdkReplica))
    → lookup j (replica_instances replicas) ≡ converted (lookup j replicas)
unfolding lookup
lookup-replica_instances j [] = refl
lookup-replica_instances j ((name, r) ∷ entries) = elim (Bool-cases (text_eq name j)) [
  | inl same ↦
      lookup-insert name j (replica_to_replica_instance r) (replica_instances entries)
      ∙ rw same refl
  | inr other ↦
      lookup-insert name j (replica_to_replica_instance r) (replica_instances entries)
      ∙ rw other (lookup-replica_instances j entries)
]
