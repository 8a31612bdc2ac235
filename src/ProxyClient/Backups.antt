-- ===== src/ProxyClient/Backups.antt =====
-- The calls on backups, pkg/client/proxy_backup.go, with TaskError of pkg/client/types.go.
use longhorn_engine_launcher.Prelude.{◌≡◌, ◌≢◌, ap, Option, none, some, List, [], ◌∷◌, ◌++◌}
use longhorn_engine_launcher.Prelude.Int.{to_i32}
use longhorn_engine_launcher.Prelude.Text.{Text, codes}
use longhorn_engine_launcher.Rpc.{plain, wrapped, Result, value, failure, panics, answer_with}
use longhorn_engine_launcher.Proxy.Types.{BackupStatus, RestoreStatus}
use longhorn_engine_launcher.Proxy.Backup.{BackupRequest}
use longhorn_engine_launcher.Proxy.Restore.{RestoreRequest}
use longhorn_engine_launcher.ProxyClient.{ProxyService, Target, request_of, common, checked_call}

-- ReplicaError: an address and a message.
pub record ReplicaError : Type 0 where
  pub address : Text
  pub message : Text

unfoldable pub replica_error_text : ReplicaError → Text
replica_error_text e = e.address ++ codes ": " ++ e.message

-- strings.Join of the errors with "; ".
join_errors : ReplicaError → List ReplicaError → Text
unfolding replica_error_text
join_errors e [] = replica_error_text e
join_errors e (d ∷ ds) = replica_error_text e ++ codes "; " ++ join_errors d ds

-- TaskError.Error.
unfoldable pub task_error_text : List ReplicaError → Text
unfolding join_errors
task_error_text [] = codes "Unknown"
task_error_text (e ∷ es) = join_errors e es

unfoldable pub backup_request : BackupRequest → BackupRequest
backup_request q = record q { concurrent_limit = to_i32 q.concurrent_limit }

unfoldable pub restore_request : RestoreRequest → RestoreRequest
restore_request q = record q { concurrent_limit = to_i32 q.concurrent_limit }

-- The error that was unmarshalled is not wrapped; one that cannot be unmarshalled is.
unmarshalled : Text → Option (List ReplicaError) → Result (Unit {0})
unfolding task_error_text
unmarshalled text none = failure (wrapped (wrapped (plain text)))
unmarshalled text (some errors) = failure (plain (task_error_text errors))

-- What is made of the error in the answer; an empty one arrives as nil. `unmarshal` is
-- json.Unmarshal into a TaskError.
unfoldable pub task_result : (Text → Option (List ReplicaError)) → Text → Result (Unit {0})
unfolding unmarshalled
task_result unmarshal [] = value tt
task_result unmarshal (c ∷ cs) = unmarshalled (c ∷ cs) (unmarshal (c ∷ cs))

abbrev pub restored :
    {W : Type 0} → (Text → Option (List ReplicaError)) → W × Result Text → W × Result (Unit {0})
restored unmarshal (w, value text) = (w, task_result unmarshal text)
restored unmarshal (w, failure e) = (w, failure e)
restored unmarshal (w, panics) = (w, panics)

unmarshalled-fails : (text : Text) (o : Option (List ReplicaError)) → unmarshalled text o ≢ value tt
unfolding unmarshalled
unmarshalled-fails text none h = cc
unmarshalled-fails text (some errors) h = cc

-- An answer with an error is no success.
pub restored-value :
    {W : Type 0} (unmarshal : Text → Option (List ReplicaError)) (r : W × Result Text) (x : W)
    → restored unmarshal r ≡ (x, value tt)
    → r ≡ (x, value [])
unfolding task_result
restored-value {W = W} unmarshal (w, value []) x h =
    ap (λ (y : W × Result (Unit {0})). (y.0, value [])) h
restored-value {W = W} unmarshal (w, value (c ∷ cs)) x h =
    absurd
      (unmarshalled-fails (c ∷ cs) (unmarshal (c ∷ cs)) (ap (λ (y : W × Result (Unit {0})). y.1) h))
restored-value unmarshal (w, failure e) x h = cc
restored-value unmarshal (w, panics) x h = cc

module _ {W : Type 0} (S : ProxyService W) where
  unfoldable pub client_cleanup_backup_mount_points : W → W × Result (Unit {0})
  client_cleanup_backup_mount_points w = ProxyService.cleanup_backup_mount_points S w

  -- The backup's identifier and the replica's address are answered.
  unfoldable pub client_snapshot_backup : Target → BackupRequest → W → W × Result (Text × Text)
  unfolding checked_call request_of backup_request
  client_snapshot_backup t q w =
      answer_with (λ b. (b.backup_id, b.replica))
        (checked_call (common t) (ProxyService.snapshot_backup S (request_of t) (backup_request q))
          w)

  unfoldable pub client_snapshot_backup_status :
      Target → Text → Text → Text → W → W × Result BackupStatus
  unfolding checked_call request_of
  client_snapshot_backup_status t backup_name replica_address replica_name w =
      checked_call (common t ++ backup_name ∷ [])
        (ProxyService.snapshot_backup_status S (request_of t) backup_name replica_name
          replica_address)
        w

  unfoldable pub client_backup_restore :
      (Text → Option (List ReplicaError))
      → Target
      → Text
      → RestoreRequest
      → W
      → W × Result (Unit {0})
  unfolding checked_call request_of restore_request task_result
  client_backup_restore unmarshal t backup_volume_name q w = restored unmarshal (
      checked_call (common t ++ q.url ∷ q.target ∷ backup_volume_name ∷ [])
        (ProxyService.backup_restore S (request_of t) (restore_request q)) w)

  unfoldable pub client_backup_restore_status :
      Target → W → W × Result (List (Text × RestoreStatus))
  unfolding checked_call request_of
  client_backup_restore_status t w =
      checked_call (common t) (ProxyService.backup_restore_status S (request_of t)) w
