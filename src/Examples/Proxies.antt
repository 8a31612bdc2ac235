-- ===== src/Examples/Proxies.antt =====
-- Runs of the proxy service.
use longhorn_engine_launcher.Prelude.{
  inl, inr, ℕ, ◌≡◌, ◌≢◌, refl, true, none, some, List, [], ◌∷◌, ◌||◌,
}
use longhorn_engine_launcher.Prelude.Int.{pos, to_i32}
use longhorn_engine_launcher.Prelude.Text.{Text, codes, text_eq}
use longhorn_engine_launcher.Rpc.{plain, wrapped, internal, value, FailsAs}
use longhorn_engine_launcher.Proxy.{get_spdk_client_from_address}
use longhorn_engine_launcher.Proxy.Types.{rw, wo, ControllerReplica, RebuildStatus}
use longhorn_engine_launcher.Proxy.Address.{
  spdk_service_address, join_host_port, spdk_service_address-join_host_port,
}
use longhorn_engine_launcher.Proxy.Replica.{
  check_replicas, check_replica, copy_status, add_status, address_of, v1_replica_list,
  v2_replica_add, v2_replica_list, v2_replica_rebuilding_status,
}
use longhorn_engine_launcher.Proxy.Volumes.{v2_volume_get}
use longhorn_engine_launcher.Proxy.Restore.{v2_backup_restore_status}
use longhorn_engine_launcher.Util.{add_tcp_prefix_for_address}
use longhorn_engine_launcher.Prelude.Dict.{lookup, insert}
use longhorn_engine_launcher.Prelude.Strings.{split_once, strip_prefix}
use longhorn_engine_launcher.Proxy.Snapshot.{
  last_error, remove_each, v2_volume_snapshot, v2_snapshot_revert,
}
use longhorn_engine_launcher.Proxy.Backup.{
  find_replica, v1_snapshot_backup_status, fetch, only_rw, status_of, status_reply,
  v2_snapshot_backup, v2_snapshot_backup_status,
}
use longhorn_engine_launcher.Proxy.Removing.{
  answers, state_after, last_failure, remove_each-tries_every,
}
use longhorn_engine_launcher.Proxy.Rebuilding.{has_key, rebuilds_at, check_replicas-has_key}
use longhorn_engine_launcher.Proxy.Answering.{
  find_replica-first, OnlyRw, v1_snapshot_backup_status-OnlyRw,
}
use longhorn_engine_launcher.Proxy.Failures.{v2_operations-FailAsInternal}
use longhorn_engine_launcher.Examples.Libraries.{
  task, modes, addresses, backup_status, libraries, request, add, wanted_backup,
}

-- The host ::1 with the port 80.
spdk_service_address-join_host_port_example :
    spdk_service_address (join_host_port (codes "::1") (codes "80"))
    ≡ some (join_host_port (codes "::1") (codes "8504"))
spdk_service_address-join_host_port_example =
    spdk_service_address-join_host_port (codes "::1") (codes "80") (refl, (refl, (refl, tt)))
      (refl, (refl, (refl, tt))) (refl, (refl, tt)) (refl, (refl, tt)) (refl, (refl, tt))

abbrev names : List Text
names = codes "s1" ∷ codes "bad" ∷ codes "s2" ∷ []

remove_each-tries_every_example : remove_each task.delete_snapshot names none 0 ≡ (
  state_after task.delete_snapshot names 0,
  last_error (last_failure none (answers task.delete_snapshot names 0)),
)
unfolding text_eq
remove_each-tries_every_example =
    remove_each-tries_every task.delete_snapshot names 0 (tt, (tt, (tt, tt)))

-- What the loop answers for the two replicas: one status, for the first one.
abbrev statuses : List (Text × RebuildStatus)
statuses =
    (
      codes "tcp://h:1",
      record {
        error = [];
        is_rebuilding = true;
        progress = pos 10;
        state = codes "in_progress";
        from_replica_address = codes "tcp://h:2";
      },
    )
    ∷ []

check_replicas-has_key_example :
    has_key (codes "tcp://h:1") statuses
    ≡ (has_key (codes "tcp://h:1") [] || rebuilds_at (codes "tcp://h:1") addresses modes)
unfolding check_replicas check_replica copy_status lookup text_eq insert add_tcp_prefix_for_address
    get_spdk_client_from_address add_status address_of split_once strip_prefix to_i32
check_replicas-has_key_example =
    check_replicas-has_key libraries addresses modes [] 0 2 statuses (codes "tcp://h:1") refl

abbrev replicas : List ControllerReplica
replicas =
    record { address = codes "a"; mode = wo } ∷ record { address = codes "b"; mode = rw } ∷ []

find_replica-first_example :
    find_replica libraries
      (codes "v")
      (codes "backup")
      (record { address = codes "a"; mode = wo }
        ∷ record { address = codes "down"; mode = rw }
        ∷ record { address = codes "b"; mode = rw }
        ∷ [])
      0
    ≡ (3, value (codes "b"))
unfolding fetch text_eq
find_replica-first_example =
    find_replica-first libraries (codes "v") (codes "backup")
      (record { address = codes "a"; mode = wo }
        ∷ record { address = codes "down"; mode = rw }
        ∷ [])
      [] (record { address = codes "b"; mode = rw }) 0 1 3 backup_status
      (inl (refl, inr (refl, 1, wrapped (plain (codes "refused")), refl, refl))) refl refl

v1_snapshot_backup_status-OnlyRw_example :
    (listed : List ControllerReplica) × (y z : ℕ) × (v1_replica_list libraries request y
      ≡ (z, value listed))
    × (codes "b" ≢ [])
    × OnlyRw libraries (codes "b") listed
    × (codes "b" ≢ [] → codes "b" ≡ codes "b")
unfolding v1_snapshot_backup_status status_of status_reply fetch only_rw v1_replica_list text_eq
    to_i32
v1_snapshot_backup_status-OnlyRw_example =
    v1_snapshot_backup_status-OnlyRw libraries request (codes "backup") [] (codes "b") 0 5
      (record backup_status { replica_address = codes "b" }) refl

v2_operations-FailAsInternal_example :
    let L = libraries in
    FailsAs internal (v2_replica_add L request add 0)
    × FailsAs internal (v2_replica_list L request 0)
    × FailsAs internal (v2_replica_rebuilding_status L request 0)
    × FailsAs internal (v2_volume_get L request 0)
    × FailsAs internal (v2_volume_snapshot L request (codes "s") 0)
    × FailsAs internal (v2_snapshot_revert L request (codes "s") 0)
    × FailsAs internal (v2_snapshot_backup L request wanted_backup [] [] 0)
    × FailsAs internal (v2_snapshot_backup_status L request (codes "s") (codes "a") 0)
    × FailsAs internal (v2_backup_restore_status L request 0)
v2_operations-FailAsInternal_example =
    v2_operations-FailAsInternal libraries request add wanted_backup [] [] (codes "s") (codes "a") 0
