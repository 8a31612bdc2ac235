-- ===== src/Proxy/Credential.antt =====
-- What comes before a backup is made or restored, pkg/proxy/backup.go: the environment that the
-- request brings, the credential of the backup target, and the labels; and the cleaning of mounts.
use longhorn_engine_launcher.Prelude.{none, some, List, [], ◌∷◌, ◌++◌}
use longhorn_engine_launcher.Prelude.Text.{Text, codes}
use longhorn_engine_launcher.Prelude.Strings.{split_once}
use longhorn_engine_launcher.Rpc.{invalid_argument, internal, Result, value, and_then, fail_as}
use longhorn_engine_launcher.Proxy.{Libraries}
use longhorn_engine_launcher.Proxy.Types.{Labels}

unfoldable pub get_labels : Labels → List Text
get_labels [] = []
get_labels ((k, v) ∷ labels) = (k ++ codes "=" ++ v) ∷ get_labels labels

module _ {W : Type 0} (L : Libraries W) where
  unfoldable pub cleanup_backup_mount_points : W → W × Result (Unit {0})
  cleanup_backup_mount_points w = fail_as internal (Libraries.clean_up_all_mounts L w)

  -- An entry without "=" is passed over; the first error ends the loop.
  unfoldable pub set_env : List Text → W → W × Result (Unit {0})
  unfolding split_once
  set_env [] w = (w, value tt)
  set_env (env ∷ envs) w = elim (split_once (codes "=") env) [
    | none ↦ set_env envs w
    | some (name, v) ↦ and_then (Libraries.setenv L name v w) (λ u x. set_env envs x)
  ]

  -- The environment is set and the credential is read before the data engine is looked up.
  unfoldable pub with_credential :
      {A : Type 0} → List Text → Text → (Labels → W → W × Result A) → W → W × Result A
  unfolding set_env
  with_credential envs target f w =
      and_then (fail_as internal (set_env envs w))
        (λ u x. and_then (fail_as invalid_argument (Libraries.get_backup_credential L target x)) f)
