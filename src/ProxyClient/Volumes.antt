-- ===== src/ProxyClient/Volumes.antt =====
-- The calls on volumes, pkg/client/proxy_volume.go.
use longhorn_engine_launcher.Prelude.{Bool, [], ◌∷◌, ◌++◌, if◌then◌else◌}
use longhorn_engine_launcher.Prelude.Int.{ℤ, to_i32}
use longhorn_engine_launcher.Prelude.Text.{Text, codes, is_empty}
use longhorn_engine_launcher.Prelude.Decimal.{itoa}
use longhorn_engine_launcher.Rpc.{Result, failure}
use longhorn_engine_launcher.Client.{missing}
use longhorn_engine_launcher.Proxy.Types.{Volume}
use longhorn_engine_launcher.ProxyClient.{ProxyService, Target, request_of, common, checked_call}

-- strconv.FormatBool.
unfoldable pub format_bool : Bool → Text
format_bool b = if b then codes "true" else codes "false"

module _ {W : Type 0} (S : ProxyService W) where
  unfoldable pub client_volume_get : Target → W → W × Result Volume
  unfolding checked_call request_of
  client_volume_get t w = checked_call (common t) (ProxyService.volume_get S (request_of t)) w

  unfoldable pub client_volume_expand : Target → ℤ → W → W × Result (Unit {0})
  unfolding checked_call request_of
  client_volume_expand t size w =
      checked_call (common t) (ProxyService.volume_expand S (request_of t) size) w

  unfoldable pub client_volume_frontend_start : Target → Text → W → W × Result (Unit {0})
  unfolding checked_call request_of
  client_volume_frontend_start t frontend_name w =
      checked_call (common t ++ frontend_name ∷ [])
        (ProxyService.volume_frontend_start S (request_of t) frontend_name) w

  unfoldable pub client_volume_frontend_shutdown : Target → W → W × Result (Unit {0})
  unfolding checked_call request_of
  client_volume_frontend_shutdown t w =
      checked_call (common t) (ProxyService.volume_frontend_shutdown S (request_of t)) w

  unfoldable pub client_volume_unmap_mark_snap_chain_removed_set :
      Target → Bool → W → W × Result (Unit {0})
  unfolding checked_call request_of format_bool
  client_volume_unmap_mark_snap_chain_removed_set t enabled w =
      checked_call (common t ++ format_bool enabled ∷ [])
        (ProxyService.volume_unmap_mark_snap_chain_removed_set S (request_of t) enabled) w

  unfoldable pub client_volume_snapshot_max_count_set : Target → ℤ → W → W × Result (Unit {0})
  unfolding checked_call request_of itoa
  client_volume_snapshot_max_count_set t count w =
      checked_call (common t ++ itoa count ∷ [])
        (ProxyService.volume_snapshot_max_count_set S (request_of t) (to_i32 count)) w

  unfoldable pub client_volume_snapshot_max_size_set : Target → ℤ → W → W × Result (Unit {0})
  unfolding checked_call request_of itoa
  client_volume_snapshot_max_size_set t size w =
      checked_call (common t ++ itoa size ∷ [])
        (ProxyService.volume_snapshot_max_size_set S (request_of t) size) w

  -- The error of the service is passed on as it is.
  unfoldable pub client_remount_read_only_volume : Text → W → W × Result (Unit {0})
  client_remount_read_only_volume volume_name w =
      if is_empty volume_name
      then (w, failure missing)
      else ProxyService.remount_read_only_volume S volume_name w
