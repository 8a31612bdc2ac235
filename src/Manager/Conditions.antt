-- ===== src/Manager/Conditions.antt =====
-- The check of the mounts of running engines, getProcessesToUpdateConditions and
-- checkMountPointStatusForEngine of pkg/process/process_manager.go. The test for engine names and
-- the look at a mount are library functions, and so is the hash of a volume's name.
use longhorn_engine_launcher.Prelude.{
  ℕ, ◌≡◌, refl, sym, ap, ◌∙◌, ==_iff, Bool, true, false, ◌&&◌, ◌==◌, Option, none, some, List, [],
  ◌∷◌, if◌then◌else◌, Bool-cases, Option-cases, some-eq, inl, inr,
}
use longhorn_engine_launcher.Prelude.Text.{Text, codes}
use longhorn_engine_launcher.Prelude.Dict.{lookup, insert}
use longhorn_engine_launcher.Util.{process_name_to_volume_name}
use longhorn_engine_launcher.Process.{Process, State, running}
use longhorn_engine_launcher.Ports.{PortBitmap}
use longhorn_engine_launcher.Manager.{Manager, update, send}

-- types.EngineConditionFilesystemReadOnly.
abbrev pub filesystem_read_only : Text
filesystem_read_only = codes "FilesystemReadOnly"

abbrev is_running : State → Bool
is_running running = true
is_running _ = false

pub record Mounts (Mount : Type 0) : Type 0 where
  pub is_engine_process : Text → Bool
  pub name_sha : Text → Text
  pub is_read_only : Mount → Bool
  pub mount_points : List (Text × Mount)

module _ {Mount : Type 0} (mounts : Mounts Mount) where
  abbrev with_mount : Option Mount → Process → Option Process
  with_mount none p = none
  with_mount (some mp) p =
      some (record p {
        conditions = insert filesystem_read_only (mounts.is_read_only mp) p.conditions;
      })

  -- The name of an engine has pieces enough, so the first case does not arise.
  abbrev with_volume : Option Text → Process → Option Process
  with_volume none p = none
  with_volume (some volume) p = with_mount (lookup (mounts.name_sha volume) mounts.mount_points) p

  -- The body of the loop: the process with its new condition, if it is one to update.
  unfoldable pub updated_process : Process → Option Process
  unfolding process_name_to_volume_name
  updated_process p =
      if mounts.is_engine_process p.name && is_running p.state
      then with_volume (process_name_to_volume_name p.name) p
      else none

-- The process with these conditions in place of its own.
abbrev pub but_conditions : List (Text × Bool) → Process → Process
but_conditions c p = record p { conditions = c }

module _ {Bitmap Mount : Type 0} (B : PortBitmap Bitmap) (mounts : Mounts Mount) where
  -- The loop over the entries of the map, with the references of the processes to update.
  unfoldable pub update_conditions : List (Text × ℕ) → Manager Bitmap → Manager Bitmap × List ℕ
  unfolding updated_process
  update_conditions [] m = (m, [])
  update_conditions ((k, r) ∷ entries) m = elim (updated_process mounts (m.heap r)) [
    | none ↦ update_conditions entries m
    | some q ↦
        let x = update_conditions entries (record m { heap = update m.heap r q }) in (x.0, r ∷ x.1)
  ]

  unfoldable pub get_processes_to_update_conditions : Manager Bitmap → Manager Bitmap × List ℕ
  unfolding update_conditions
  get_processes_to_update_conditions m = update_conditions m.processes m

  abbrev send_each : List ℕ → Manager Bitmap → Manager Bitmap
  send_each [] m = m
  send_each (r ∷ rs) m = send_each rs (send B r m)

  unfoldable pub check_mount_point_status_for_engine : Manager Bitmap → Manager Bitmap
  unfolding get_processes_to_update_conditions send
  check_mount_point_status_for_engine m =
      let x = get_processes_to_update_conditions m in send_each x.1 x.0

  updated_process-same :
      (c : List (Text × Bool)) (p q : Process)
      → updated_process mounts p ≡ some q
      → but_conditions c q ≡ but_conditions c p
  unfolding updated_process
  updated_process-same c p q h = guarded (mounts.is_engine_process p.name && is_running p.state) h
    where
      by_mount :
          (o : Option Mount)
          → with_mount mounts o p ≡ some q
          → but_conditions c q ≡ but_conditions c p
      by_mount none e = cc
      by_mount (some mp) e = ap (but_conditions c) (sym (some-eq e))

      by_volume :
          (o : Option Text)
          → with_volume mounts o p ≡ some q
          → but_conditions c q ≡ but_conditions c p
      by_volume none e = cc
      by_volume (some volume) e = by_mount (lookup (mounts.name_sha volume) mounts.mount_points) e

      guarded :
          (b : Bool)
          → (if b then with_volume mounts (process_name_to_volume_name p.name) p else none) ≡ some q
          → but_conditions c q ≡ but_conditions c p
      guarded true e = by_volume (process_name_to_volume_name p.name) e
      guarded false e = cc

  update-same :
      (c : List (Text × Bool)) (heap : ℕ → Process) (r s : ℕ) (q : Process)
      → but_conditions c q ≡ but_conditions c (heap r)
      → but_conditions c (update heap r q s) ≡ but_conditions c (heap s)
  update-same c heap r s q h = elim (Bool-cases (s == r)) [
    | inl same ↦ rw same (h ∙ ap (λ x. but_conditions c (heap x)) (sym ((==_iff s r).0 same)))
    | inr other ↦ rw other refl
  ]

  -- The loop of the condition check changes conditions of processes only: all else of every process
  -- stays, and so do the map, the ports and the references in use.
  pub update_conditions-same :
      (entries : List (Text × ℕ)) (m : Manager Bitmap) (c : List (Text × Bool)) (r : ℕ)
      → let x = (update_conditions entries m).0 in
        (but_conditions c (x.heap r) ≡ but_conditions c (m.heap r))
        × (x.processes ≡ m.processes)
        × (x.available_ports ≡ m.available_ports)
        × (x.next_ref ≡ m.next_ref)
  unfolding update_conditions
  update_conditions-same [] m c r = (refl, refl, refl, refl)
  update_conditions-same ((k, s) ∷ entries) m c r =
      elim (Option-cases (updated_process mounts (m.heap s))) [
        | inl skipped ↦ rw (update_conditions, skipped) (update_conditions-same entries m c r)
        | inr (q, found) ↦
            let ih = update_conditions-same entries (record m { heap = update m.heap s q }) c r in
            rw (update_conditions, found)
              (
                ih.0 ∙ update-same c m.heap s r q (updated_process-same c (m.heap s) q found),
                ih.1,
                ih.2,
                ih.3,
              )
      ]
