-- ===== src/Proxy/Replica.antt =====
-- The operations on the replicas of an engine, pkg/proxy/replica.go.
use longhorn_engine_launcher.Prelude.{
  Bool, true, false, not, ◌&&◌, Option, none, some, List, [], ◌∷◌, ◌++◌, map, if◌then◌else◌,
}
use longhorn_engine_launcher.Prelude.Int.{pos, to_i32}
use longhorn_engine_launcher.Prelude.Text.{Text, codes, text_eq, is_empty}
use longhorn_engine_launcher.Prelude.Strings.{strip_prefix}
use longhorn_engine_launcher.Prelude.Dict.{lookup, insert}
use longhorn_engine_launcher.Util.{add_tcp_prefix_for_address}
use longhorn_engine_launcher.Rpc.{
  unimplemented, internal, status, Result, value, failure, panics, and_then, answer_with, fail_as,
}
use longhorn_engine_launcher.Instance.Operations.{dispatch, refuse}
use longhorn_engine_launcher.Proxy.{
  Libraries, Controller, Task, SpdkClient, required, map_values, with_controller, with_task,
  with_spdk, get_spdk_client_from_address,
}
use longhorn_engine_launcher.Proxy.Types.{
  ProxyRequest, ReplicaMode, wo, rw, err, SpdkMode, spdk_wo, spdk_rw, spdk_err, other_spdk_mode,
  EngineReplica, ControllerReplica, ShallowCopyStatus, RebuildStatus, ReplicaAddRequest,
}

-- strings.TrimPrefix(address, "tcp://").
unfoldable pub trim_tcp_prefix : Text → Text
trim_tcp_prefix address = elim (strip_prefix (codes "tcp://") address) [
  | none ↦ address
  | some rest ↦ rest
]

unfoldable pub replica_mode_to_grpc_replica_mode : SpdkMode → ReplicaMode
replica_mode_to_grpc_replica_mode spdk_wo = wo
replica_mode_to_grpc_replica_mode spdk_rw = rw
replica_mode_to_grpc_replica_mode spdk_err = err
replica_mode_to_grpc_replica_mode (other_spdk_mode t) = err

-- One replica of the loop of the V2 ReplicaList, with those after it.
add_replica_of :
    SpdkMode → Option Text → Option (List ControllerReplica) → Option (List ControllerReplica)
unfolding replica_mode_to_grpc_replica_mode add_tcp_prefix_for_address
add_replica_of mode none later = none
add_replica_of mode (some address) none = none
add_replica_of mode (some address) (some replicas) = some (
    record {
      address = add_tcp_prefix_for_address address;
      mode = replica_mode_to_grpc_replica_mode mode;
    }
    ∷ replicas)

-- The replicas of the mode map with their addresses; `none` if one of them has no address.
unfoldable pub engine_replicas :
    List (Text × Text) → List (Text × SpdkMode) → Option (List ControllerReplica)
unfolding add_replica_of
engine_replicas addresses [] = some []
engine_replicas addresses ((name, mode) ∷ modes) =
    add_replica_of mode (lookup name addresses) (engine_replicas addresses modes)

-- A key that is missing is looked up as the empty text.
unfoldable pub address_of : Text → List (Text × Text) → Text
address_of name addresses = elim (lookup name addresses) [ none ↦ [] | some address ↦ address ]

abbrev pub is_wo : SpdkMode → Bool
is_wo spdk_wo = true
is_wo _ = false

abbrev pub RebuildStatuses : Type 0
RebuildStatuses = List (Text × RebuildStatus)

-- A status without an error.
abbrev pub no_rebuild_status : RebuildStatus
no_rebuild_status = record {
  error = [];
  is_rebuilding = false;
  progress = pos 0;
  state = [];
  from_replica_address = [];
}

module _ {W : Type 0} (L : Libraries W) where
  unfoldable pub v1_replica_add : ProxyRequest → ReplicaAddRequest → W → W × Result (Unit {0})
  v1_replica_add r q w =
      with_task L r
        (λ task x.
          if q.restore
          then Task.add_restore_replica task q.size q.current_size q.replica_address q.replica_name
              x
          else Task.add_replica task q.size q.current_size q.replica_address q.replica_name
              q.file_sync_http_client_timeout q.fast_sync q.local_sync q.grpc_timeout_seconds x)
        w

  unfoldable pub v2_replica_add : ProxyRequest → ReplicaAddRequest → W → W × Result (Unit {0})
  unfolding get_spdk_client_from_address trim_tcp_prefix
  v2_replica_add r q w =
      with_spdk L r
        (λ c x. fail_as internal (
          SpdkClient.engine_replica_add c r.engine_name q.replica_name
            (trim_tcp_prefix q.replica_address) x))
        w

  unfoldable pub replica_add : Option ProxyRequest → ReplicaAddRequest → W → W × Result (Unit {0})
  unfolding v1_replica_add v2_replica_add
  replica_add request q w =
      required request (λ r x. dispatch r.data_engine (v1_replica_add r q) (v2_replica_add r q) x) w

  to_controller_replica : EngineReplica → ControllerReplica
  to_controller_replica r = record {
    address = r.address;
    mode = Libraries.replica_mode_to_grpc L r.mode;
  }

  unfoldable pub v1_replica_list : ProxyRequest → W → W × Result (List ControllerReplica)
  unfolding to_controller_replica
  v1_replica_list r w =
      with_controller L r
        (λ c x. answer_with (map to_controller_replica) (Controller.replica_list c x)) w

  unfoldable pub listed : Option (List ControllerReplica) → W → W × Result (List ControllerReplica)
  listed none w = (w, failure (status internal))
  listed (some replicas) w = (w, value replicas)

  unfoldable pub v2_replica_list : ProxyRequest → W → W × Result (List ControllerReplica)
  unfolding get_spdk_client_from_address engine_replicas listed
  v2_replica_list r w =
      with_spdk L r
        (λ c x.
          and_then (fail_as internal (SpdkClient.engine_get c r.engine_name x))
            (λ e. listed (engine_replicas e.replica_address_map e.replica_mode_map)))
        w

  unfoldable pub replica_list : ProxyRequest → W → W × Result (List ControllerReplica)
  unfolding v1_replica_list v2_replica_list
  replica_list r w = dispatch r.data_engine (v1_replica_list r) (v2_replica_list r) w

  rebuild_reply : RebuildStatus → RebuildStatus
  rebuild_reply v = record v { progress = to_i32 v.progress }

  unfoldable pub v1_replica_rebuilding_status : ProxyRequest → W → W × Result RebuildStatuses
  unfolding rebuild_reply
  v1_replica_rebuilding_status r w =
      with_task L r (λ task x. answer_with (map_values rebuild_reply) (Task.rebuild_status task x))
        w

  unfoldable pub copy_status : ShallowCopyStatus → RebuildStatus
  unfolding add_tcp_prefix_for_address
  copy_status c = record {
    error = c.error;
    is_rebuilding = text_eq c.total_state (Libraries.in_progress L);
    progress = to_i32 c.total_progress;
    state = c.total_state;
    from_replica_address = add_tcp_prefix_for_address c.src_replica_address;
  }

  -- The answer of a replica's service, put into the statuses; an error is a status too.
  unfoldable pub add_status :
      Text → RebuildStatuses → W × Result ShallowCopyStatus → W × Result RebuildStatuses
  unfolding add_tcp_prefix_for_address copy_status
  add_status address statuses (w, value c) =
      (w, value (insert (add_tcp_prefix_for_address address) (copy_status c) statuses))
  add_status address statuses (w, failure e) = (
    w,
    value (
        insert (add_tcp_prefix_for_address address)
          (record no_rebuild_status {
            error =
                codes "failed to get replica rebuild status of "
                ++ address
                ++ codes ": "
                ++ Libraries.error_text L e;
          })
          statuses),
  )
  add_status address statuses (w, panics) = (w, panics)

  unfoldable pub check_replica : Text → Text → RebuildStatuses → W → W × Result RebuildStatuses
  unfolding get_spdk_client_from_address add_status
  check_replica name address statuses w =
      and_then (fail_as internal (get_spdk_client_from_address L address w)) (λ c x.
        add_status address statuses (SpdkClient.replica_rebuilding_dst_shallow_copy_check c name x))

  -- The loop over the mode map: only a replica in mode WO with an address is asked.
  unfoldable pub check_replicas :
      List (Text × Text) → List (Text × SpdkMode) → RebuildStatuses → W → W × Result RebuildStatuses
  unfolding address_of check_replica
  check_replicas addresses [] statuses w = (w, value statuses)
  check_replicas addresses ((name, mode) ∷ modes) statuses w =
      and_then
        (if is_wo mode && not (is_empty (address_of name addresses))
          then check_replica name (address_of name addresses) statuses w
          else (w, value statuses))
        (λ later x. check_replicas addresses modes later x)

  unfoldable pub v2_replica_rebuilding_status : ProxyRequest → W → W × Result RebuildStatuses
  unfolding get_spdk_client_from_address check_replicas
  v2_replica_rebuilding_status r w =
      with_spdk L r
        (λ c x.
          and_then (fail_as internal (SpdkClient.engine_get c r.engine_name x))
            (λ e. check_replicas e.replica_address_map e.replica_mode_map []))
        w

  unfoldable pub replica_rebuilding_status : ProxyRequest → W → W × Result RebuildStatuses
  unfolding v1_replica_rebuilding_status v2_replica_rebuilding_status
  replica_rebuilding_status r w =
      dispatch r.data_engine (v1_replica_rebuilding_status r) (v2_replica_rebuilding_status r) w

  -- The V2 operation is not implemented.
  unfoldable pub replica_verify_rebuild :
      Option ProxyRequest → Text → Text → W → W × Result (Unit {0})
  replica_verify_rebuild request replica_address replica_name w =
      required request
        (λ r x.
          dispatch r.data_engine
            (with_task L r
              (λ task y. Task.verify_rebuild_replica task replica_address replica_name y))
            (refuse unimplemented) x)
        w

  unfoldable pub replica_remove : Option ProxyRequest → Text → Text → W → W × Result (Unit {0})
  unfolding get_spdk_client_from_address trim_tcp_prefix
  replica_remove request replica_name replica_address w =
      required request
        (λ r x.
          dispatch r.data_engine
            (with_controller L r (λ c y. Controller.replica_delete c replica_address y))
            (with_spdk L r (λ c y.
              SpdkClient.engine_replica_delete c r.engine_name replica_name
                (trim_tcp_prefix replica_address) y))
            x)
        w

  -- The V2 operation is not implemented.
  unfoldable pub replica_mode_update :
      Option ProxyRequest → Text → ReplicaMode → W → W × Result (Unit {0})
  replica_mode_update request replica_address mode w =
      required request
        (λ r x.
          dispatch r.data_engine
            (with_controller L r (λ c y.
              Controller.replica_update c replica_address (Libraries.grpc_to_replica_mode L mode)
                y))
            (refuse unimplemented) x)
        w
