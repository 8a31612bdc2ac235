-- ===== src/Proxy/Rebuilding.antt =====
-- ReplicaRebuildingStatus and ReplicaList of the V2 engine, pkg/proxy/replica.go.
use longhorn_engine_launcher.Prelude.{
  Bool, true, false, not, ◌&&◌, ◌||◌, ◌≡◌, refl, sym, Option, none, some, List, [], ◌∷◌,
  if◌then◌else◌, map, arith,
}
use longhorn_engine_launcher.Prelude.Text.{Text, text_eq, is_empty}
use longhorn_engine_launcher.Prelude.Dict.{lookup, insert, lookup-insert}
use longhorn_engine_launcher.Util.{add_tcp_prefix_for_address}
use longhorn_engine_launcher.Rpc.{
  Result, value, failure, panics, and_then-value, value_eq, fail_as, internal,
}
use longhorn_engine_launcher.Proxy.{Libraries, SpdkClient, get_spdk_client_from_address}
use longhorn_engine_launcher.Proxy.Types.{
  SpdkMode, ControllerReplica, ShallowCopyStatus, RebuildStatus,
}
use longhorn_engine_launcher.Proxy.Replica.{
  replica_mode_to_grpc_replica_mode, engine_replicas, address_of, is_wo, RebuildStatuses,
  add_status, check_replica, check_replicas,
}

abbrev pub is_some : {A : Type 0} → Option A → Bool
is_some none = false
is_some (some a) = true

abbrev pub has_key : Text → RebuildStatuses → Bool
has_key k statuses = is_some (lookup k statuses)

-- The replica is being rebuilt at this address.
abbrev is_at : Text → Text → SpdkMode → Bool
is_at k address mode =
    (is_wo mode && not (is_empty address)) && text_eq (add_tcp_prefix_for_address address) k

-- Some replica of the mode map is being rebuilt at the endpoint `k`.
abbrev pub rebuilds_at : Text → List (Text × Text) → List (Text × SpdkMode) → Bool
rebuilds_at k addresses [] = false
rebuilds_at k addresses ((name, mode) ∷ modes) =
    is_at k (address_of name addresses) mode || rebuilds_at k addresses modes

has_key-insert :
    (k j : Text) (s : RebuildStatus) (statuses : RebuildStatuses)
    → has_key k (insert j s statuses) ≡ (has_key k statuses || text_eq j k)
has_key-insert k j s statuses = rw (lookup-insert j k s statuses) (ground arith)

module _ {W : Type 0} (L : Libraries W) where
  add_status-has_key :
      (address : Text) (statuses : RebuildStatuses) (r : W × Result ShallowCopyStatus) (x : W)
      (later : RebuildStatuses) (k : Text)
      → add_status L address statuses r ≡ (x, value later)
      → has_key k later ≡ (has_key k statuses || text_eq (add_tcp_prefix_for_address address) k)
  unfolding add_status
  add_status-has_key address statuses (w, value c) x later k h =
      rw (sym (value_eq h)) (has_key-insert k _ _ statuses)
  add_status-has_key address statuses (w, failure e) x later k h =
      rw (sym (value_eq h)) (has_key-insert k _ _ statuses)
  add_status-has_key address statuses (w, panics) x later k h = cc

  check_replica-has_key :
      (name address : Text) (statuses : RebuildStatuses) (w x : W) (later : RebuildStatuses)
      (k : Text)
      → check_replica L name address statuses w ≡ (x, value later)
      → has_key k later ≡ (has_key k statuses || text_eq (add_tcp_prefix_for_address address) k)
  unfolding check_replica
  check_replica-has_key name address statuses w x later k h =
      let s =
        and_then-value (fail_as internal (get_spdk_client_from_address L address w)) _ x later h in
      add_status-has_key address statuses
        (SpdkClient.replica_rebuilding_dst_shallow_copy_check s.1 name s.0) x later k s.3

  check_if-has_key :
      (b : Bool) (name address : Text) (statuses : RebuildStatuses) (w x : W)
      (later : RebuildStatuses) (k : Text)
      → (if b then check_replica L name address statuses w else (w, value statuses))
        ≡ (x, value later)
      → has_key k later
        ≡ (has_key k statuses || (b && text_eq (add_tcp_prefix_for_address address) k))
  check_if-has_key true name address statuses w x later k h =
      check_replica-has_key name address statuses w x later k h
  check_if-has_key false name address statuses w x later k h = rw (sym (value_eq h)) (ground arith)

  -- The answer of ReplicaRebuildingStatus for a V2 engine has a status for an endpoint exactly if a
  -- replica in mode WO with an address is there, whether that replica's service answers or fails.
  pub check_replicas-has_key :
      (addresses : List (Text × Text)) (modes : List (Text × SpdkMode)) (statuses : RebuildStatuses)
      (w x : W) (later : RebuildStatuses) (k : Text)
      → check_replicas L addresses modes statuses w ≡ (x, value later)
      → has_key k later ≡ (has_key k statuses || rebuilds_at k addresses modes)
  unfolding check_replicas
  check_replicas-has_key addresses [] statuses w x later k h = rw (sym (value_eq h)) (ground arith)
  check_replicas-has_key addresses ((name, mode) ∷ modes) statuses w x later k h =
      let address = address_of name addresses in
      let asked = is_wo mode && not (is_empty address) in
      let s =
        and_then-value
          (if asked then check_replica L name address statuses w else (w, value statuses))
          (λ l y. check_replicas L addresses modes l y) x later h in
      rw
        (
          check_replicas-has_key addresses modes s.1 s.0 x later k s.3,
          check_if-has_key asked name address statuses w s.0 s.1 k s.2,
        )
        (ground arith)

-- Every name of the mode map has an address.
abbrev pub all_known : List (Text × Text) → List (Text × SpdkMode) → Bool
all_known addresses [] = true
all_known addresses ((name, mode) ∷ modes) =
    is_some (lookup name addresses) && all_known addresses modes

abbrev pub reply_of : List (Text × Text) → Text × SpdkMode → ControllerReplica
reply_of addresses (name, mode) = record {
  address = add_tcp_prefix_for_address (address_of name addresses);
  mode = replica_mode_to_grpc_replica_mode mode;
}

-- ReplicaList of a V2 engine answers with every replica of its mode map, in the order of the loop,
-- its endpoint and its mode; it fails exactly if the engine has no address for one of them.
pub engine_replicas-all_known :
    (addresses : List (Text × Text)) (modes : List (Text × SpdkMode))
    → engine_replicas addresses modes
      ≡ (if all_known addresses modes then some (map (reply_of addresses) modes) else none)
unfolding engine_replicas address_of
engine_replicas-all_known addresses [] = refl
engine_replicas-all_known addresses ((name, mode) ∷ modes) =
    ground (arith, engine_replicas-all_known addresses modes)
