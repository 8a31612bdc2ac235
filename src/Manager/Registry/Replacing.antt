-- ===== src/Manager/Registry/Replacing.antt =====
-- The wait of ProcessReplace of pkg/process/process_manager.go.
use longhorn_engine_launcher.Prelude.{
  ℕ, zero, suc, ◌<◌, ◌≡◌, ◌≢◌, ◌↔◌, ◌⊎◌, inl, inr, refl, true, arith,
}
use longhorn_engine_launcher.Process.{State, starting, running, stopping, stopped, error}
use longhorn_engine_launcher.Manager.{Manager}
use longhorn_engine_launcher.Manager.Handlers.{wait_replacement, replace_rounds}
use longhorn_engine_launcher.Ports.{PortBitmap}

module _ {Bitmap : Type 0} (world : ℕ → Manager Bitmap → Manager Bitmap) (r : ℕ) where
  -- The state of the replacement when round `k` reads it, if the first round is `i`. What other
  -- goroutines do before a round is a part of `world`.
  abbrev pub state_at : ℕ → ℕ → Manager Bitmap → State
  state_at i zero m = ((world i m).heap r).state
  state_at i (suc k) m = state_at (suc i) k (world i m)

  -- Some round finds the replacement running, and each round before it finds it starting.
  abbrev pub StartsWithin : ℕ → ℕ → Manager Bitmap → Type 0
  StartsWithin count i m =
      (k : ℕ) × (k < count)
      × (state_at i k m ≡ running)
      × ((j : ℕ) → j < k → state_at i j m ≡ starting)

  -- Every round finds it starting.
  abbrev pub KeepsStarting : ℕ → ℕ → Manager Bitmap → Type 0
  KeepsStarting count i m = (j : ℕ) → j < count → state_at i j m ≡ starting

  GoesOn : ℕ → ℕ → Manager Bitmap → Type 0
  GoesOn count i m = StartsWithin count i m ⊎ KeepsStarting count i m

  later :
      (count i : ℕ) (m : Manager Bitmap)
      → state_at i 0 m ≡ starting
      → GoesOn count (suc i) (world i m)
      → GoesOn (suc count) i m
  unfolding GoesOn
  later count i m e (inl (k, lt, found, before)) = inl (suc k, omega arith, found, earlier)
    where
      earlier : (j : ℕ) → j < suc k → state_at i j m ≡ starting
      earlier zero h = e
      earlier (suc j) h = before j (omega arith)
  later count i m e (inr all) = inr earlier
    where
      earlier : (j : ℕ) → j < suc count → state_at i j m ≡ starting
      earlier zero h = e
      earlier (suc j) h = all j (omega arith)

  sooner :
      (count i : ℕ) (m : Manager Bitmap)
      → state_at i 0 m ≡ starting
      → GoesOn (suc count) i m
      → GoesOn count (suc i) (world i m)
  unfolding GoesOn
  sooner count i m e (inl (zero, lt, found, before)) = cc
  sooner count i m e (inl (suc k, lt, found, before)) =
      inl (k, omega arith, found, λ j h. before (suc j) (omega arith))
  sooner count i m e (inr all) = inr (λ j h. all (suc j) (omega arith))

  -- A state other than these two ends the wait.
  neither :
      (count i : ℕ) (m : Manager Bitmap)
      → state_at i 0 m ≢ running
      → state_at i 0 m ≢ starting
      → GoesOn (suc count) i m
      → ⊥
  unfolding GoesOn
  neither count i m not_running not_starting (inl (zero, lt, found, before)) = not_running found
  neither count i m not_running not_starting (inl (suc k, lt, found, before)) =
      not_starting (before 0 (omega arith))
  neither count i m not_running not_starting (inr all) = not_starting (all 0 (omega arith))

  module _ (B : PortBitmap Bitmap) where
    wait_replacement-GoesOn :
        (count i : ℕ) (m : Manager Bitmap)
        → ((wait_replacement B count world i r m).1 ≡ true) ↔ GoesOn count i m
    unfolding wait_replacement GoesOn
    wait_replacement-GoesOn zero i m = ((λ h. inr (λ j lt. absurd (omega arith))), λ x. refl)
    wait_replacement-GoesOn (suc count) i m =
        by_state (wait_replacement-GoesOn count (suc i) (world i m)) (state_at i 0 m) refl
      where
        by_state :
            (((wait_replacement B count world (suc i) r (world i m)).1 ≡ true)
              ↔ GoesOn count (suc i) (world i m))
            → (s : State) → state_at i 0 m ≡ s
            → ((wait_replacement B (suc count) world i r m).1 ≡ true) ↔ GoesOn (suc count) i m
        by_state ih running e =
            rw (wait_replacement, e)
              ((λ h. inl (0, omega arith, e, λ j lt. absurd (omega arith))), λ x. refl)
        by_state ih starting e =
            rw (wait_replacement, e)
              ((λ h. later count i m e (ih.0 h)), λ x. ih.1 (sooner count i m e x))
        by_state ih stopping e =
            rw (wait_replacement, e)
              ((λ h. cc), λ x. absurd (neither count i m (λ q. cc) (λ q. cc) x))
        by_state ih stopped e =
            rw (wait_replacement, e)
              ((λ h. cc), λ x. absurd (neither count i m (λ q. cc) (λ q. cc) x))
        by_state ih error e =
            rw (wait_replacement, e)
              ((λ h. cc), λ x. absurd (neither count i m (λ q. cc) (λ q. cc) x))

    -- Whatever other goroutines do meanwhile, the wait of ProcessReplace lets the replacement go on
    -- exactly if one of its 30 rounds finds it running and all before find it starting, or if all
    -- of them find it starting: a replacement that never ran is not refused.
    pub wait_replacement-goes_on_iff :
        (m : Manager Bitmap)
        → ((wait_replacement B replace_rounds world 0 r m).1 ≡ true)
          ↔ (StartsWithin replace_rounds 0 m ⊎ KeepsStarting replace_rounds 0 m)
    unfolding GoesOn
    wait_replacement-goes_on_iff m = wait_replacement-GoesOn replace_rounds 0 m
