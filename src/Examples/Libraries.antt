-- ===== src/Examples/Libraries.antt =====
-- Small libraries behind the proxy service, which count their calls, and requests for it.
use longhorn_engine_launcher.Prelude.{ℕ, suc, true, false, none, some, List, [], ◌∷◌, if◌then◌else◌}
use longhorn_engine_launcher.Prelude.Int.{pos}
use longhorn_engine_launcher.Prelude.Text.{Text, codes, text_eq}
use longhorn_engine_launcher.Rpc.{plain, Result, value, failure}
use longhorn_engine_launcher.Instance.{v1}
use longhorn_engine_launcher.Proxy.{Libraries, Controller, Task, SpdkClient}
use longhorn_engine_launcher.Proxy.Types.{
  ProxyRequest, rw, wo, SpdkMode, spdk_wo, spdk_rw, SpdkEngineInfo, ShallowCopyStatus, Volume,
  Version, ReadWrite, BackupInfo, BackupStatus, ReplicaAddRequest,
}
use longhorn_engine_launcher.Proxy.Backup.{BackupRequest}
use longhorn_engine_launcher.Proxy.SnapshotTasks.{CloneRequest}

-- A call that succeeds, and one that fails.
abbrev pub succeeds : {A : Type 0} → A → ℕ → ℕ × Result A
succeeds a n = (suc n, value a)

abbrev fails : {A : Type 0} → ℕ → ℕ × Result A
fails n = (suc n, failure (plain (codes "refused")))

abbrev volume : Volume
volume = record {
  name = codes "v";
  size = pos 1;
  replica_count = pos 1;
  endpoint = [];
  frontend = [];
  frontend_state = [];
  is_expanding = false;
  last_expansion_error = [];
  last_expansion_failed_at = [];
  unmap_mark_snap_chain_removed = false;
  snapshot_max_count = pos 0;
  snapshot_max_size = pos 0;
}

abbrev version : Version
version = record {
  version = codes "1";
  git_commit = [];
  build_date = [];
  cli_api_version = pos 1;
  cli_api_min_version = pos 1;
  controller_api_version = pos 1;
  controller_api_min_version = pos 1;
  data_format_version = pos 1;
  data_format_min_version = pos 1;
}

abbrev zeros : ReadWrite
zeros = record { read = 0; write = 0 }

abbrev controller : Controller ℕ
controller = record {
  version_detail_get = succeeds version;
  volume_get = succeeds volume;
  volume_expand = λ size. succeeds tt;
  volume_frontend_start = λ frontend. succeeds tt;
  volume_frontend_shutdown = succeeds tt;
  volume_unmap_mark_snap_chain_removed_set = λ enabled. succeeds tt;
  volume_snapshot_max_count_set = λ count. succeeds tt;
  volume_snapshot_max_size_set = λ size. succeeds tt;
  volume_snapshot = λ name labels freeze. succeeds name;
  volume_revert = λ name. succeeds tt;
  replica_list = succeeds (
      record { address = codes "a"; mode = codes "ERR" }
      ∷ record { address = codes "b"; mode = codes "RW" }
      ∷ []);
  replica_delete = λ address. succeeds tt;
  replica_update = λ address mode. succeeds tt;
  metrics_get = succeeds (record { throughput = zeros; total_latency = zeros; iops = zeros });
}

abbrev pub backup : BackupInfo
backup = record { backup_id = codes "backup"; replica = codes "a"; is_incremental = false }

abbrev pub task : Task ℕ
task = record {
  add_restore_replica = λ size current address name. succeeds tt;
  add_replica = λ size current address name timeout fast sync grpc_timeout. succeeds tt;
  rebuild_status = succeeds [];
  verify_rebuild_replica = λ address name. succeeds tt;
  purge_snapshots = λ skip. succeeds tt;
  purge_snapshot_status = succeeds [];
  delete_snapshot = λ name. if text_eq name (codes "bad") then fails else succeeds tt;
  hash_snapshot = λ name rehash. succeeds tt;
  hash_snapshot_status = λ name. succeeds [];
  create_backup = λ creation parameters. succeeds backup;
  restore_backup = λ url credential limit. succeeds tt;
  restore_status = succeeds [];
}

abbrev pub modes : List (Text × SpdkMode)
modes = (codes "r1", spdk_wo) ∷ (codes "r2", spdk_rw) ∷ []

abbrev pub addresses : List (Text × Text)
addresses = (codes "r1", codes "h:1") ∷ (codes "r2", codes "h:2") ∷ []

abbrev engine : SpdkEngineInfo
engine = record {
  name = codes "e";
  spec_size = 1;
  replica_address_map = addresses;
  replica_mode_map = modes;
  head = none;
  snapshots = [];
  frontend = [];
  endpoint = [];
}

abbrev copying : ShallowCopyStatus
copying = record {
  error = [];
  total_state = codes "in_progress";
  total_progress = pos 10;
  src_replica_address = codes "h:2";
}

abbrev pub backup_status : BackupStatus
backup_status = record {
  backup_url = [];
  error = codes "no such backup";
  progress = pos 0;
  snapshot_name = [];
  state = [];
  replica_address = [];
}

abbrev pub spdk : SpdkClient ℕ
spdk = record {
  engine_get = λ name. succeeds engine;
  engine_replica_add = λ name replica address. succeeds tt;
  engine_replica_delete = λ name replica address. succeeds tt;
  replica_rebuilding_dst_shallow_copy_check = λ name. succeeds copying;
  engine_snapshot_create = λ name snapshot. succeeds snapshot;
  engine_snapshot_revert = λ name snapshot. succeeds tt;
  engine_snapshot_purge = λ name. fails;
  engine_snapshot_delete = λ name snapshot. succeeds tt;
  engine_backup_create = λ creation volume_name engine_name. succeeds backup;
  engine_backup_status = λ name engine_name address. succeeds backup_status;
  engine_backup_restore = λ url name credential limit. succeeds tt;
  engine_restore_status = λ name. succeeds [];
}

abbrev pub libraries : Libraries ℕ
libraries = record {
  new_controller_client = λ address volume_name name. succeeds controller;
  new_task = λ address volume_name name. succeeds task;
  new_spdk_client = λ address. succeeds spdk;
  new_replica_client = λ address volume_name name.
      if text_eq address (codes "down")
      then fails
      else succeeds (λ backup_name replica. succeeds backup_status);
  get_snapshots_info = λ replicas volume_name. succeeds [];
  clone_snapshot = λ target source v w s export timeout grpc_timeout. succeeds tt;
  clone_status = λ c volume_name. succeeds [];
  clean_up_all_mounts = succeeds tt;
  get_backup_credential = λ target. succeeds [];
  replica_mode_to_grpc = λ mode. if text_eq mode (codes "RW") then rw else wo;
  grpc_to_replica_mode = λ mode. elim mode [ rw ↦ codes "RW" | _ ↦ codes "WO" ];
  is_rw = λ mode. text_eq mode (codes "RW");
  in_progress = codes "in_progress";
  uuid = λ n. (suc n, codes "u");
  setenv = λ name v. succeeds tt;
  error_text = λ e. codes "error";
  marshal_error = λ e. some (codes "{}");
}

abbrev pub request : ProxyRequest
request = record {
  address = codes "h:1";
  engine_name = codes "e";
  volume_name = codes "v";
  data_engine = v1;
}

abbrev pub add : ReplicaAddRequest
add = record {
  replica_name = codes "r3";
  replica_address = codes "tcp://h:3";
  restore = false;
  size = pos 1;
  current_size = pos 1;
  fast_sync = true;
  file_sync_http_client_timeout = pos 5;
  local_sync = none;
  grpc_timeout_seconds = pos 0;
}

abbrev pub wanted_backup : BackupRequest
wanted_backup = record {
  envs = [];
  backup_name = codes "backup";
  snapshot_name = [];
  backup_target = codes "s3://bucket";
  labels = [];
  backing_image_name = [];
  backing_image_checksum = [];
  compression_method = [];
  concurrent_limit = pos 1;
  storage_class_name = [];
  parameters = [];
}

abbrev pub clone : CloneRequest
clone = record {
  from_engine_address = codes "h:9";
  from_volume_name = codes "v2";
  from_engine_name = codes "e2";
  snapshot_name = codes "s";
  export_backing_image_if_exist = false;
  file_sync_http_client_timeout = pos 5;
  grpc_timeout_seconds = pos 0;
}
