-- ===== src/Proxy/Restore.antt =====
-- The restoring of backups, pkg/proxy/backup.go.
use longhorn_engine_launcher.Prelude.{
  ◌≡◌, ◌⊎◌, inl, inr, refl, ap, ◌∙◌, Bool-cases, Option, none, some, List, [], ◌∷◌, ◌++◌,
  if◌then◌else◌,
}
use longhorn_engine_launcher.Prelude.Int.{ℤ, to_i32}
use longhorn_engine_launcher.Prelude.Text.{Text, codes, text_eq, text_eq_sound}
use longhorn_engine_launcher.Rpc.{
  internal, Failure, Result, value, failure, panics, answer_with, fail_as,
}
use longhorn_engine_launcher.Instance.Operations.{dispatch}
use longhorn_engine_launcher.Proxy.{
  Libraries, Task, SpdkClient, required, map_values, with_task, with_spdk,
  get_spdk_client_from_address,
}
use longhorn_engine_launcher.Proxy.Types.{ProxyRequest, Labels, RestoreStatus}
use longhorn_engine_launcher.Proxy.Credential.{with_credential}

-- rpc.EngineBackupRestoreRequest, as far as it is read.
pub record RestoreRequest : Type 0 where
  pub envs : List Text
  pub url : Text
  pub target : Text
  pub concurrent_limit : ℤ

restore_reply : RestoreStatus → RestoreStatus
restore_reply v = record v { progress = to_i32 v.progress }

-- The statuses of the replicas, each under its address with the prefix of the protocol.
unfoldable pub tcp_statuses : List (Text × RestoreStatus) → List (Text × RestoreStatus)
unfolding restore_reply
tcp_statuses [] = []
tcp_statuses ((address, s) ∷ entries) =
    (codes "tcp://" ++ address, restore_reply s) ∷ tcp_statuses entries

module _ {W : Type 0} (L : Libraries W) where
  unfoldable pub v1_backup_restore :
      ProxyRequest → RestoreRequest → Labels → W → W × Result (Unit {0})
  v1_backup_restore r q credential w =
      with_task L r (λ task x. Task.restore_backup task q.url credential q.concurrent_limit x) w

  unfoldable pub v2_backup_restore :
      ProxyRequest → RestoreRequest → Labels → W → W × Result (Unit {0})
  unfolding get_spdk_client_from_address
  v2_backup_restore r q credential w =
      with_spdk L r
        (λ c x.
          SpdkClient.engine_backup_restore c q.url r.engine_name credential q.concurrent_limit x)
        w

  -- Where marshalling fails there are no bytes, which are not "{}".
  marshalled_error : Failure → Option Text → Text
  marshalled_error e none = []
  marshalled_error e (some text) =
      if text_eq text (codes "{}") then Libraries.error_text L e else text

  -- An error that is no TaskError is marshalled to "{}", and its text is taken instead.
  unfoldable pub task_error : Failure → Text
  unfolding marshalled_error
  task_error e = marshalled_error e (Libraries.marshal_error L e)

  -- Nothing of the error arrives at the client: it cannot be marshalled, or there is no text.
  abbrev pub IsLost : Failure → Type 0
  IsLost e =
      (Libraries.marshal_error L e ≡ none)
      ⊎ ((Libraries.marshal_error L e ≡ some [])
          ⊎ ((Libraries.marshal_error L e ≡ some (codes "{}")) × (Libraries.error_text L e ≡ [])))

  marshalled_error-IsLost :
      (e : Failure) (o : Option Text)
      → Libraries.marshal_error L e ≡ o
      → marshalled_error e o ≡ []
      → IsLost e
  unfolding marshalled_error
  marshalled_error-IsLost e none same h = inl same
  marshalled_error-IsLost e (some text) same h = elim (Bool-cases (text_eq text (codes "{}"))) [
    | inl b ↦ inr (inr (same ∙ ap some (text_eq_sound text (codes "{}") b), rw b at h))
    | inr b ↦ inr (inl (same ∙ ap some (rw b at h)))
  ]

  pub task_error-IsLost : (e : Failure) → task_error e ≡ [] → IsLost e
  unfolding task_error
  task_error-IsLost e h = marshalled_error-IsLost e (Libraries.marshal_error L e) refl h

  -- An error of the engine is a part of the answer.
  unfoldable pub recorded : W × Result (Unit {0}) → W × Result Text
  unfolding task_error
  recorded (x, value u) = (x, value [])
  recorded (x, failure e) = (x, value (task_error e))
  recorded (x, panics) = (x, panics)

  unfoldable pub backup_restore : Option ProxyRequest → RestoreRequest → W → W × Result Text
  unfolding with_credential recorded v1_backup_restore v2_backup_restore
  backup_restore request q w =
      required request
        (λ r. with_credential L q.envs q.target (λ credential x.
          dispatch r.data_engine (λ y. recorded (v1_backup_restore r q credential y))
            (λ y. recorded (v2_backup_restore r q credential y)) x))
        w

  unfoldable pub v1_backup_restore_status :
      ProxyRequest → W → W × Result (List (Text × RestoreStatus))
  unfolding restore_reply
  v1_backup_restore_status r w =
      with_task L r (λ task x. answer_with (map_values restore_reply) (Task.restore_status task x))
        w

  unfoldable pub v2_backup_restore_status :
      ProxyRequest → W → W × Result (List (Text × RestoreStatus))
  unfolding get_spdk_client_from_address tcp_statuses
  v2_backup_restore_status r w =
      with_spdk L r
        (λ c x.
          answer_with tcp_statuses
            (fail_as internal (SpdkClient.engine_restore_status c r.engine_name x)))
        w

  unfoldable pub backup_restore_status : ProxyRequest → W → W × Result (List (Text × RestoreStatus))
  unfolding v1_backup_restore_status v2_backup_restore_status
  backup_restore_status r w =
      dispatch r.data_engine (v1_backup_restore_status r) (v2_backup_restore_status r) w
