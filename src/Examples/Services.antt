-- ===== src/Examples/Services.antt =====
-- Runs of the broadcaster, the instance service and the disk service. The services behind them are
-- small ones that count their calls.
use longhorn_engine_launcher.Prelude.{
  ℕ, suc, ◌+◌, ◌-◌, ◌≡◌, ◌≤◌, ◌↔◌, refl, Bool, true, false, Option, none, List, [], ◌∷◌, ◌++◌, take,
  length,
}
use longhorn_engine_launcher.Prelude.Int.{pos}
use longhorn_engine_launcher.Prelude.Text.{Text, codes}
use longhorn_engine_launcher.Prelude.Dict.{lookup}
use longhorn_engine_launcher.Process.{ProcessResponse, rpc_response}
use longhorn_engine_launcher.Manager.{no_process}
use longhorn_engine_launcher.Rpc.{value}
use longhorn_engine_launcher.Client.{ProcessService}
use longhorn_engine_launcher.Broadcaster.{
  Broadcaster, new_broadcaster, subscribe, end_stream, capacity,
}
use longhorn_engine_launcher.Broadcaster.Delivery.{
  publish_all, publish_all-buffer, end_stream-closes,
}
use longhorn_engine_launcher.Broadcaster.Safety.{
  here, next, subscribes, ends, IsSafe, reachable-IsSafe,
}
use longhorn_engine_launcher.Instance.{
  v2, SpdkEngine, SpdkReplica, engine_type, engine_response_to_instance_response,
  replica_response_to_instance_response,
}
use longhorn_engine_launcher.Instance.Operations.{SpdkClient, Instances, listed_process, values}
use longhorn_engine_launcher.Instance.Server.{
  instance_list, instance_suspend, instance_resume, instance_switch_over_target,
  instance_delete_target,
}
use longhorn_engine_launcher.Instance.Dispatch.{Answers, IsV2Engine, engine_controls-IsV2Engine}
use longhorn_engine_launcher.Instance.Listing.{instance_list-lookup, or_else, last_named}
use longhorn_engine_launcher.Instance.Watch.{
  WatchEvent, received, receive_failed, watch, too_many_failures, max_monitor_retry_count,
}
use longhorn_engine_launcher.Instance.Watching.{watch-too_many_iff, failures}
use longhorn_engine_launcher.Disk.{
  DiskRequest, filesystem, SpdkDisks, SpdkReplica as DiskReplica, disk_create, disk_delete,
  disk_get, disk_replica_instance_list, disk_replica_instance_delete,
}
use longhorn_engine_launcher.Disk.Requests.{FailsAlone, disk_handlers-FailsAlone}

abbrev two_subscribers : Broadcaster ℕ
two_subscribers = (subscribe true (subscribe true new_broadcaster).0).0

publish_all-buffer_example :
    ((publish_all (7 ∷ 8 ∷ []) two_subscribers).channels 1).buffer
    ≡ (two_subscribers.channels 1).buffer
      ++ take (capacity - length (two_subscribers.channels 1).buffer) (7 ∷ 8 ∷ [])
unfolding subscribe
publish_all-buffer_example =
    publish_all-buffer (7 ∷ 8 ∷ []) 1 two_subscribers (refl, (refl, tt)) refl

end_stream-closes_example :
    (((end_stream two_subscribers).channels 1).closed ≡ true)
    × ((end_stream two_subscribers).running ≡ false)
    × ((subscribe false (end_stream two_subscribers)).1 ≡ false)
unfolding subscribe
end_stream-closes_example = end_stream-closes 1 two_subscribers refl

reachable-IsSafe_example : IsSafe (end_stream two_subscribers)
reachable-IsSafe_example =
    reachable-IsSafe (end_stream two_subscribers)
      (next (next (next here (subscribes true refl)) (subscribes true refl)) (ends refl))

abbrev described : ProcessResponse
described = record (rpc_response no_process) { name = codes "p-e-0" }

abbrev engine_found : SpdkEngine
engine_found = record {
  name = codes "p-e-0";
  state = codes "running";
  error_msg = [];
  port = pos 20001;
  target_port = pos 20002;
  standby_target_port = pos 0;
}

abbrev replica_found : SpdkReplica
replica_found = record {
  name = codes "p-r-0";
  state = codes "running";
  error_msg = [];
  port_start = pos 20003;
  port_end = pos 20013;
}

abbrev processes : ProcessService ℕ
processes = record {
  connects = λ n. true;
  create = λ spec n. (suc n, value described);
  delete = λ name n. (suc n, value described);
  get = λ name n. (suc n, value described);
  list = λ n. (suc n, value ((codes "p-e-0", described) ∷ []));
  replace = λ spec signal n. (suc n, value described);
  log = λ name n. (suc n, value (record { lines = []; ending = none }));
}

abbrev spdk : SpdkClient ℕ
spdk = record {
  connects = λ n. true;
  engine_create = λ spec s n. (suc n, value engine_found);
  replica_create = λ spec s n. (suc n, value replica_found);
  engine_delete = λ name n. (suc n, value tt);
  replica_delete = λ name cleanup n. (suc n, value tt);
  engine_get = λ name n. (suc n, value engine_found);
  replica_get = λ name n. (suc n, value replica_found);
  engine_list = λ n. (suc n, value (engine_found ∷ []));
  replica_list = λ n. (suc n, value (replica_found ∷ []));
  engine_suspend = λ name n. (suc n, value tt);
  engine_resume = λ name n. (suc n, value tt);
  engine_switch_over_target = λ name target n. (suc n, value tt);
  engine_delete_target = λ name n. (suc n, value tt);
}

engine_controls-IsV2Engine_example :
    Answers
      (λ u. IsV2Engine v2 engine_type)
      (instance_suspend processes spdk (codes "p-e-0") engine_type v2 0)
    × Answers
        (λ u. IsV2Engine v2 engine_type)
        (instance_resume processes spdk (codes "p-e-0") engine_type v2 0)
    × Answers
        (λ u. IsV2Engine v2 engine_type)
        (instance_switch_over_target processes spdk (codes "p-e-0") engine_type v2 (codes "t") 0)
    × Answers
        (λ u. IsV2Engine v2 engine_type)
        (instance_delete_target processes spdk (codes "p-e-0") engine_type v2 0)
engine_controls-IsV2Engine_example =
    engine_controls-IsV2Engine processes spdk (codes "p-e-0") engine_type (codes "t") v2 0

abbrev all_engines : Text → Bool
all_engines name = true

instance_list-lookup_example :
    (instances : Instances) × (instance_list processes spdk all_engines true 0
      ≡ (3, value instances))
    × (lookup (codes "p-e-0") instances
        ≡ or_else
            (last_named engine_response_to_instance_response (codes "p-e-0") (engine_found ∷ []))
            (or_else
              (last_named replica_response_to_instance_response
                (codes "p-e-0")
                (replica_found ∷ []))
              (last_named
                (listed_process all_engines)
                (codes "p-e-0")
                (values ((codes "p-e-0", described) ∷ [])))))
instance_list-lookup_example =
    instance_list-lookup processes spdk all_engines (codes "p-e-0") 0 1 2 3
      ((codes "p-e-0", described) ∷ []) (replica_found ∷ []) (engine_found ∷ []) refl refl refl refl
      refl

abbrev events : List WatchEvent
events = receive_failed ∷ received ∷ receive_failed ∷ received ∷ []

watch-too_many_iff_example :
    ((watch 9 events).1 ≡ too_many_failures) ↔ (max_monitor_retry_count ≤ 9 + failures events)
watch-too_many_iff_example = watch-too_many_iff 9 events (refl, (refl, (refl, (refl, tt))))

abbrev request : DiskRequest
request = record {
  disk_type = filesystem;
  disk_name = codes "disk-1";
  disk_uuid = codes "5a";
  disk_path = codes "/dev/sdb";
  disk_driver = codes "aio";
  block_size = 4096;
  replica_instance_name = codes "p-r-0";
}

abbrev no_disks : Option (SpdkDisks ℕ)
no_disks = none

disk_handlers-FailsAlone_example :
    FailsAlone 0 (disk_create no_disks request 0)
    × FailsAlone 0 (disk_delete no_disks request 0)
    × FailsAlone 0 (disk_get no_disks request 0)
    × FailsAlone 0 (disk_replica_instance_list no_disks request 0)
    × FailsAlone 0 (disk_replica_instance_delete no_disks request 0)
disk_handlers-FailsAlone_example = disk_handlers-FailsAlone no_disks 0 request (λ e. cc)

abbrev replica_on_disk : DiskReplica
replica_on_disk = record {
  name = codes "p-r-0";
  lvs_name = codes "disk-1";
  lvs_uuid = codes "5a";
  spec_size = 1024;
  actual_size = 512;
}
