-- ===== src/ProxyClient/Replicas.antt =====
-- The calls on replicas, pkg/client/proxy_replica.go.
use longhorn_engine_launcher.Prelude.{◌&&◌, List, [], ◌∷◌, ◌++◌, map, if◌then◌else◌}
use longhorn_engine_launcher.Prelude.Int.{to_i32}
use longhorn_engine_launcher.Prelude.Text.{Text, codes, is_empty}
use longhorn_engine_launcher.Rpc.{plain, wrapped, Result, failure, answer_with, fail_wrapped}
use longhorn_engine_launcher.Client.{missing}
use longhorn_engine_launcher.Proxy.Types.{
  ReplicaMode, EngineReplica, ControllerReplica, RebuildStatus, ReplicaAddRequest,
}
use longhorn_engine_launcher.ProxyClient.{
  ProxyService, Target, request_of, any_empty, common, checked_call,
}

-- The request with what goes over the wire as an int32.
unfoldable pub add_request : ReplicaAddRequest → ReplicaAddRequest
add_request q = record q { file_sync_http_client_timeout = to_i32 q.file_sync_http_client_timeout }

module _ {W : Type 0} (S : ProxyService W) where
  unfoldable pub client_replica_add : Target → ReplicaAddRequest → W → W × Result (Unit {0})
  unfolding checked_call request_of add_request
  client_replica_add t q w =
      checked_call (common t ++ q.replica_name ∷ q.replica_address ∷ [])
        (ProxyService.replica_add S (request_of t) (add_request q)) w

  to_replica_info : (ReplicaMode → Text) → ControllerReplica → EngineReplica
  to_replica_info mode_of r = record { address = r.address; mode = mode_of r.mode }

  -- `mode_of` is GRPCReplicaModeToReplicaMode.
  unfoldable pub client_replica_list :
      (ReplicaMode → Text) → Target → W → W × Result (List EngineReplica)
  unfolding checked_call request_of to_replica_info
  client_replica_list mode_of t w =
      answer_with (map (to_replica_info mode_of))
        (checked_call (common t) (ProxyService.replica_list S (request_of t)) w)

  unfoldable pub client_replica_rebuilding_status :
      Target → W → W × Result (List (Text × RebuildStatus))
  unfolding checked_call request_of
  client_replica_rebuilding_status t w =
      checked_call (common t) (ProxyService.replica_rebuilding_status S (request_of t)) w

  unfoldable pub client_replica_verify_rebuild : Target → Text → Text → W → W × Result (Unit {0})
  unfolding checked_call request_of
  client_replica_verify_rebuild t replica_address replica_name w =
      checked_call (common t ++ replica_address ∷ replica_name ∷ [])
        (ProxyService.replica_verify_rebuild S (request_of t) replica_address replica_name) w

  -- The request has no volume's name; the address or the name of the replica may be empty, but not
  -- both.
  unfoldable pub client_replica_remove :
      Text → Text → Text → Text → Text → W → W × Result (Unit {0})
  unfolding any_empty request_of
  client_replica_remove data_engine service_address engine_name replica_address replica_name w =
      if any_empty (service_address ∷ engine_name ∷ [])
      then (w, failure (wrapped missing))
      else if is_empty replica_address && is_empty replica_name
      then (w, failure (plain (codes "replica address and name are both empty")))
      else fail_wrapped (
          ProxyService.replica_remove S
            (request_of (record {
              data_engine = data_engine;
              engine_name = engine_name;
              volume_name = [];
              service_address = service_address;
            }))
            replica_name replica_address w)

  -- `to_mode` is ReplicaModeToGRPCReplicaMode. The request has neither an engine's nor a volume's
  -- name.
  unfoldable pub client_replica_mode_update :
      (Text → ReplicaMode) → Text → Text → Text → Text → W → W × Result (Unit {0})
  unfolding checked_call request_of
  client_replica_mode_update to_mode data_engine service_address replica_address mode w =
      checked_call (service_address ∷ replica_address ∷ [])
        (ProxyService.replica_mode_update S
          (request_of (record {
            data_engine = data_engine;
            engine_name = [];
            volume_name = [];
            service_address = service_address;
          }))
          replica_address (to_mode mode))
        w
