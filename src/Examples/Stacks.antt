-- ===== src/Examples/Stacks.antt =====
-- Runs of clients and services together.
use longhorn_engine_launcher.Prelude.{ℕ, ◌≡◌, ◌⊎◌, refl, true, false, none, some, List, [], arith}
use longhorn_engine_launcher.Prelude.Int.{pos, to_i32}
use longhorn_engine_launcher.Prelude.Text.{Text, codes, text_eq}
use longhorn_engine_launcher.Prelude.Dict.{lookup, insert}
use longhorn_engine_launcher.Process.{stopped, rpc_response}
use longhorn_engine_launcher.Ports.Pool.{Pool, pool, pool_laws}
use longhorn_engine_launcher.Manager.{
  Manager, register_process, new_object, allocate_process_ports, allocate_ports, add_port_args,
}
use longhorn_engine_launcher.Manager.Handlers.{
  process_create, process_get, process_list, new_process,
}
use longhorn_engine_launcher.Manager.Refinement.{
  Creates, registry, process_create-Creates, process_list-registry,
}
use longhorn_engine_launcher.Rpc.{internal, status, plain, wrapped, value, failure, panics}
use longhorn_engine_launcher.Client.{missing}
use longhorn_engine_launcher.Instance.{engine_type, v1, v2}
use longhorn_engine_launcher.Instance.Operations.{SpdkClient}
use longhorn_engine_launcher.InstanceClient.{
  InstanceService, InstanceCreateRequest, get_data_engine,
}
use longhorn_engine_launcher.Instance.Server.{instance_create}
use longhorn_engine_launcher.InstanceClient.Serving.{client_instance_create, client_instance_get}
use longhorn_engine_launcher.Stack.Processes.{
  services, seen, seen_outcome, client_instance_get-process_get, create-get,
}
use longhorn_engine_launcher.Proxy.{Libraries, get_spdk_client_from_address}
use longhorn_engine_launcher.Proxy.Restore.{
  RestoreRequest, backup_restore, v1_backup_restore, v2_backup_restore,
}
use longhorn_engine_launcher.Proxy.Credential.{set_env}
use longhorn_engine_launcher.Proxy.Volumes.{Host}
use longhorn_engine_launcher.Prelude.Strings.{split_once, strip_prefix}
use longhorn_engine_launcher.ProxyClient.{
  any_empty, ProxyService, Target, request_of, client_metrics_get,
}
use longhorn_engine_launcher.ProxyClient.Snapshots.{
  client_volume_snapshot, client_snapshot_list, client_snapshot_clone, client_snapshot_revert,
  client_snapshot_purge, client_snapshot_remove, client_snapshot_hash, client_snapshot_clone_status,
  client_snapshot_purge_status, client_snapshot_hash_status,
}
use longhorn_engine_launcher.ProxyClient.Backups.{
  restore_request, client_snapshot_backup, client_snapshot_backup_status, client_backup_restore,
  client_backup_restore_status,
}
use longhorn_engine_launcher.ProxyClient.Replicas.{
  client_replica_add, client_replica_list, client_replica_verify_rebuild,
  client_replica_rebuilding_status,
}
use longhorn_engine_launcher.ProxyClient.Volumes.{
  client_volume_get, client_volume_expand, client_volume_frontend_start,
  client_volume_snapshot_max_count_set, client_volume_snapshot_max_size_set,
  client_volume_frontend_shutdown, client_volume_unmap_mark_snap_chain_removed_set,
}
use longhorn_engine_launcher.ProxyClient.Refusing.{calls-Refuse}
use longhorn_engine_launcher.Stack.Proxies.{
  proxy_service, EndsUntold, client_snapshot_purge-drops, client_backup_restore-started,
}
use longhorn_engine_launcher.Examples.Managers.{empty, env, spec, with_first}
use longhorn_engine_launcher.Examples.Libraries.{
  libraries, spdk, succeeds, add, clone, wanted_backup,
}

process_create-Creates_example :
    let x = process_create pool (env (codes "u-2")) (spec (codes "b") (codes "bin")) with_first in
    Creates (registry with_first) (codes "b") x.1 (registry x.0)
unfolding register_process new_object lookup insert allocate_process_ports allocate_ports
    add_port_args text_eq
process_create-Creates_example =
    process_create-Creates pool pool_laws (env (codes "u-2")) (spec (codes "b") (codes "bin"))
      with_first (omega arith, tt)

process_list-registry_example :
    lookup (codes "a") (process_list pool with_first) ≡ registry with_first (codes "a")
unfolding register_process new_object lookup insert allocate_process_ports allocate_ports
    add_port_args text_eq
process_list-registry_example = process_list-registry pool with_first (codes "a") (refl, tt)

-- No SPDK engine: no client of it can be made.
abbrev no_spdk : SpdkClient (Manager Pool)
no_spdk = record {
  connects = λ m. false;
  engine_create = λ spec s m. (m, panics);
  replica_create = λ spec s m. (m, panics);
  engine_delete = λ name m. (m, panics);
  replica_delete = λ name cleanup m. (m, panics);
  engine_get = λ name m. (m, panics);
  replica_get = λ name m. (m, panics);
  engine_list = λ m. (m, panics);
  replica_list = λ m. (m, panics);
  engine_suspend = λ name m. (m, panics);
  engine_resume = λ name m. (m, panics);
  engine_switch_over_target = λ name target m. (m, panics);
  engine_delete_target = λ name m. (m, panics);
}

abbrev stack : InstanceService (Manager Pool)
stack =
    services pool (env (codes "u-1")) (λ i m. m) (λ e. status internal) (λ name m. (m, panics))
      no_spdk (λ e. e) (λ name. true) false (λ name d m. (m, panics))

client_instance_get-process_get_example :
    client_instance_get stack (codes "v1") (codes "a") engine_type with_first ≡ (
      with_first,
      seen_outcome pool
          (env (codes "u-1"))
          (λ i m. m)
          (λ e. status internal)
          (λ name m. (m, panics))
          no_spdk
          (λ e. e)
          (λ name. true)
          false
          (λ name d m. (m, panics))
          engine_type
          (process_get pool (codes "a") with_first),
    )
unfolding get_data_engine text_eq
client_instance_get-process_get_example =
    client_instance_get-process_get pool (env (codes "u-1")) (λ i m. m) (λ e. status internal)
      (λ name m. (m, panics)) no_spdk (λ e. e) (λ name. true) false (λ name d m. (m, panics))
      (codes "v1") (codes "a") engine_type with_first refl refl

abbrev wanted : InstanceCreateRequest
wanted = record {
  data_engine = codes "v1";
  name = codes "a";
  instance_type = engine_type;
  volume_name = codes "v";
  size = 1;
  port_count = pos 1;
  port_args = [];
  binary = codes "bin";
  binary_args = [];
  engine = record {
    replica_address_map = [];
    frontend = [];
    initiator_address = [];
    target_address = [];
    salvage_requested = false;
  };
  replica = record { disk_name = []; disk_uuid = []; backing_image_name = [] };
}

abbrev created_state : Manager Pool
created_state = (client_instance_create stack wanted empty).0

-- The command of the process has ended.
abbrev later_state : Manager Pool
later_state = record created_state { heap = λ r. record (created_state.heap r) { state = stopped } }

create-get_example :
    (lookup (codes "a") created_state.processes ≡ some 0)
    × ((created_state.heap 0).name ≡ codes "a")
    × ((client_instance_create stack wanted empty).1
        ≡ value (seen (rpc_response (created_state.heap 0)) engine_type))
    × (client_instance_get stack (codes "v1") (codes "a") engine_type later_state
        ≡ (later_state, value (seen (rpc_response (later_state.heap 0)) engine_type)))
unfolding get_data_engine text_eq lookup new_process allocate_process_ports allocate_ports
    add_port_args to_i32 client_instance_create process_create register_process new_object insert
    instance_create
create-get_example =
    create-get pool (env (codes "u-1")) (λ i m. m) (λ e. status internal) (λ name m. (m, panics))
      no_spdk (λ e. e) (λ name. true) false (λ name d m. (m, panics)) pool_laws wanted empty
      later_state (refl, refl, refl) refl refl refl refl refl

abbrev host : Host ℕ
host = record {
  sha256_hex = λ name. name;
  get_volume_mount_point_map = succeeds [];
  new_namespace_executor = succeeds tt;
  execute = λ command arguments. succeeds tt;
}

abbrev target : Target
target = record {
  data_engine = codes "v2";
  engine_name = codes "e";
  volume_name = codes "v";
  service_address = codes "h:1";
}

client_snapshot_purge-drops_example :
    client_snapshot_purge (proxy_service libraries host (λ e. e)) target true 0 ≡ (2, value tt)
unfolding get_data_engine text_eq get_spdk_client_from_address any_empty request_of split_once
    strip_prefix
client_snapshot_purge-drops_example =
    client_snapshot_purge-drops libraries host (λ e. e) target true spdk (plain (codes "refused")) 0
      1 2 refl refl refl refl

abbrev restore : RestoreRequest
restore = record {
  envs = [];
  url = codes "s3://bucket?backup=b";
  target = codes "s3://bucket";
  concurrent_limit = pos 1;
}

client_backup_restore-started_example :
    (y z : ℕ) × (credential : List (Text × Text)) × (set_env libraries [] 0 ≡ (y, value tt))
    × (Libraries.get_backup_credential libraries (codes "s3://bucket") y ≡ (z, value credential))
    × ((((request_of target).data_engine ≡ v1)
          × EndsUntold libraries 3 (
              v1_backup_restore libraries
                (request_of target)
                (restore_request restore)
                credential
                z))
        ⊎ (((request_of target).data_engine ≡ v2)
            × EndsUntold libraries 3 (
                v2_backup_restore libraries
                  (request_of target)
                  (restore_request restore)
                  credential
                  z)))
unfolding client_backup_restore get_data_engine text_eq backup_restore
client_backup_restore-started_example =
    client_backup_restore-started libraries host (λ e. e) (λ text. none) target (codes "w") restore
      0 3 refl

-- A call without a volume's name.
abbrev nowhere : Target
nowhere = record target { volume_name = [] }

abbrev served : ProxyService ℕ
served = proxy_service libraries host (λ e. e)

calls-Refuse_example :
    (client_replica_add served nowhere add 0 ≡ (0, failure (wrapped missing)))
    × (client_replica_list served (λ m. []) nowhere 0 ≡ (0, failure (wrapped missing)))
    × (client_replica_verify_rebuild served nowhere (codes "s") (codes "x") 0
        ≡ (0, failure (wrapped missing)))
    × (client_volume_snapshot served (λ k. true) nowhere (codes "s") [] true 0
        ≡ (0, failure (wrapped missing)))
    × (client_snapshot_list served nowhere 0 ≡ (0, failure (wrapped missing)))
    × (client_snapshot_clone served nowhere clone 0 ≡ (0, failure (wrapped missing)))
    × (client_snapshot_revert served (codes "s") nowhere (codes "x") 0
        ≡ (0, failure (wrapped missing)))
    × (client_snapshot_purge served nowhere true 0 ≡ (0, failure (wrapped missing)))
    × (client_snapshot_remove served nowhere [] 0 ≡ (0, failure (wrapped missing)))
    × (client_snapshot_hash served nowhere (codes "s") true 0 ≡ (0, failure (wrapped missing)))
    × (client_volume_get served nowhere 0 ≡ (0, failure (wrapped missing)))
    × (client_volume_expand served nowhere (pos 1) 0 ≡ (0, failure (wrapped missing)))
    × (client_volume_frontend_start served nowhere (codes "s") 0 ≡ (0, failure (wrapped missing)))
    × (client_volume_snapshot_max_count_set served nowhere (pos 1) 0
        ≡ (0, failure (wrapped missing)))
    × (client_volume_snapshot_max_size_set served nowhere (pos 1) 0
        ≡ (0, failure (wrapped missing)))
    × (client_snapshot_backup served nowhere wanted_backup 0 ≡ (0, failure (wrapped missing)))
    × (client_snapshot_backup_status served nowhere (codes "s") (codes "x") [] 0
        ≡ (0, failure (wrapped missing)))
    × (client_backup_restore served (λ text. none) nowhere (codes "s") restore 0
        ≡ (0, failure (wrapped missing)))
    × (client_metrics_get served nowhere 0 ≡ (0, failure (wrapped missing)))
    × (client_replica_rebuilding_status served nowhere 0 ≡ (0, failure (wrapped missing)))
    × (client_snapshot_clone_status served nowhere 0 ≡ (0, failure (wrapped missing)))
    × (client_snapshot_purge_status served nowhere 0 ≡ (0, failure (wrapped missing)))
    × (client_snapshot_hash_status served nowhere (codes "s") 0 ≡ (0, failure (wrapped missing)))
    × (client_backup_restore_status served nowhere 0 ≡ (0, failure (wrapped missing)))
    × (client_volume_frontend_shutdown served nowhere 0 ≡ (0, failure (wrapped missing)))
    × (client_volume_unmap_mark_snap_chain_removed_set served nowhere true 0
        ≡ (0, failure (wrapped missing)))
unfolding any_empty
calls-Refuse_example =
    calls-Refuse served nowhere (λ m. []) (λ k. true) (λ text. none) add clone wanted_backup restore
      (codes "s") (codes "x") [] [] [] true (pos 1) 0 refl
