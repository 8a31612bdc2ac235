-- ===== src/Proxy/Volumes.antt =====
-- The operations on the volume of an engine, pkg/proxy/volume.go, its metrics, pkg/proxy/metrics.go,
-- and the version of its server, pkg/proxy/proxy.go.
use longhorn_engine_launcher.Prelude.{Bool, false, Option, none, some, List, [], ◌∷◌, length}
use longhorn_engine_launcher.Prelude.Int.{ℤ, pos, to_i32, to_i64}
use longhorn_engine_launcher.Prelude.Text.{Text, codes}
use longhorn_engine_launcher.Prelude.Dict.{lookup}
use longhorn_engine_launcher.Rpc.{
  unimplemented, internal, Result, value, and_then, answer_with, fail_as,
}
use longhorn_engine_launcher.Instance.Operations.{dispatch, refuse}
use longhorn_engine_launcher.Proxy.{
  Libraries, Controller, SpdkClient, required, with_controller, with_spdk,
  get_spdk_client_from_address,
}
use longhorn_engine_launcher.Proxy.Types.{
  ProxyRequest, SpdkEngineInfo, Volume, Version, Metrics, MetricsReply,
}

unfoldable pub volume_reply : Volume → Volume
unfolding to_i32
volume_reply v = record v {
  replica_count = to_i32 v.replica_count;
  snapshot_max_count = to_i32 v.snapshot_max_count;
}

-- The volume of an engine of SPDK: what that engine does not have is left empty.
unfoldable pub engine_to_volume : SpdkEngineInfo → Volume
unfolding to_i32 to_i64
engine_to_volume e = record {
  name = e.name;
  size = to_i64 e.spec_size;
  replica_count = to_i32 (pos (length e.replica_address_map));
  endpoint = e.endpoint;
  frontend = e.frontend;
  frontend_state = [];
  is_expanding = false;
  last_expansion_error = [];
  last_expansion_failed_at = [];
  unmap_mark_snap_chain_removed = false;
  snapshot_max_count = pos 0;
  snapshot_max_size = pos 0;
}

unfoldable pub metrics_reply : Metrics → MetricsReply
metrics_reply m = record {
  read_throughput = m.throughput.read;
  write_throughput = m.throughput.write;
  read_latency = m.total_latency.read;
  write_latency = m.total_latency.write;
  read_iops = m.iops.read;
  write_iops = m.iops.write;
}

module _ {W : Type 0} (L : Libraries W) where
  unfoldable pub v1_volume_get : ProxyRequest → W → W × Result Volume
  unfolding volume_reply
  v1_volume_get r w =
      with_controller L r (λ c x. answer_with volume_reply (Controller.volume_get c x)) w

  unfoldable pub v2_volume_get : ProxyRequest → W → W × Result Volume
  unfolding get_spdk_client_from_address engine_to_volume
  v2_volume_get r w =
      with_spdk L r
        (λ c x.
          answer_with engine_to_volume (fail_as internal (SpdkClient.engine_get c r.engine_name x)))
        w

  unfoldable pub volume_get : ProxyRequest → W → W × Result Volume
  unfolding v1_volume_get v2_volume_get
  volume_get r w = dispatch r.data_engine (v1_volume_get r) (v2_volume_get r) w

  -- What a V2 operation that is not there yet does: nothing, with success.
  abbrev done : W → W × Result (Unit {0})
  done w = (w, value tt)

  -- An operation of the controller with an argument behind a pointer of the request.
  abbrev set :
      {A : Type 0}
      → (Controller W → A → W → W × Result (Unit {0}))
      → (W → W × Result (Unit {0}))
      → Option ProxyRequest
      → Option A
      → W
      → W × Result (Unit {0})
  set f v2_operation request argument w =
      required request
        (λ r.
          required argument
            (λ a x. dispatch r.data_engine (with_controller L r (λ c y. f c a y)) v2_operation x))
        w

  -- The V2 operation is not implemented.
  unfoldable pub volume_expand : Option ProxyRequest → Option ℤ → W → W × Result (Unit {0})
  volume_expand request size w = set Controller.volume_expand (refuse unimplemented) request size w

  unfoldable pub volume_frontend_start :
      Option ProxyRequest → Option Text → W → W × Result (Unit {0})
  volume_frontend_start request frontend w =
      set Controller.volume_frontend_start done request frontend w

  unfoldable pub volume_frontend_shutdown : ProxyRequest → W → W × Result (Unit {0})
  volume_frontend_shutdown r w =
      dispatch r.data_engine (with_controller L r (λ c x. Controller.volume_frontend_shutdown c x))
        done w

  unfoldable pub volume_unmap_mark_snap_chain_removed_set :
      Option ProxyRequest → Option Bool → W → W × Result (Unit {0})
  volume_unmap_mark_snap_chain_removed_set request enabled w =
      set Controller.volume_unmap_mark_snap_chain_removed_set done request enabled w

  unfoldable pub volume_snapshot_max_count_set :
      Option ProxyRequest → Option ℤ → W → W × Result (Unit {0})
  volume_snapshot_max_count_set request count w =
      set Controller.volume_snapshot_max_count_set done request count w

  unfoldable pub volume_snapshot_max_size_set :
      Option ProxyRequest → Option ℤ → W → W × Result (Unit {0})
  volume_snapshot_max_size_set request size w =
      set Controller.volume_snapshot_max_size_set done request size w

  unfoldable pub metrics_get : ProxyRequest → W → W × Result MetricsReply
  unfolding metrics_reply
  metrics_get r w =
      with_controller L r (λ c x. answer_with metrics_reply (Controller.metrics_get c x)) w

  unfoldable pub server_version_get : ProxyRequest → W → W × Result Version
  server_version_get r w = with_controller L r (λ c x. Controller.version_detail_get c x) w

-- The host's tools that RemountReadOnlyVolume uses: the digest of a name in hexadecimal digits, the
-- mount points by digest, the executor in the host's namespaces, and a command run by it.
pub record Host (W : Type 0) : Type 0 where
  pub sha256_hex : Text → Text
  pub get_volume_mount_point_map : W → W × Result (List (Text × Text))
  pub new_namespace_executor : W → W × Result (Unit {0})
  pub execute : Text → List Text → W → W × Result (Unit {0})

module _ {W : Type 0} (H : Host W) where
  -- The mount point, if the volume has one, is made writable again.
  remount : Option Text → W → W × Result (Unit {0})
  remount none w = (w, value tt)
  remount (some path) w =
      fail_as internal
        (Host.execute H (codes "mount") (codes "-o" ∷ codes "remount,rw" ∷ path ∷ []) w)

  unfoldable pub remount_read_only_volume : Text → W → W × Result (Unit {0})
  unfolding remount lookup
  remount_read_only_volume volume_name w =
      and_then (Host.get_volume_mount_point_map H w) (λ mount_points x.
        and_then (Host.new_namespace_executor H x)
          (λ u. remount (lookup (Host.sha256_hex H volume_name) mount_points)))
