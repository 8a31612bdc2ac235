-- ===== src/Process/Loops.antt =====
-- The polling loops of pkg/process/process.go and pkg/process/healthchecker.go.
use longhorn_engine_launcher.Prelude.{
  ℕ, zero, suc, ◌+◌, ◌<◌, ◌≡◌, ◌↔◌, refl, sym, ◌∙◌, Bool, true, false, arith, Bool-cases, ◌⊎◌, inl,
  inr,
}
use longhorn_engine_launcher.Process.{poll, ProbeEvent, stop_signal, tick, wait_for_running}

shift : (i k : ℕ) → suc i + k ≡ i + suc k
shift i k = omega arith

at_start : (i : ℕ) → i + 0 ≡ i
at_start i = omega arith

false_ne_true : false ≡ true → ⊥
false_ne_true e = cc

-- A loop that finds nothing has tested every round.
pub poll-false :
    (count : ℕ) (test : ℕ → Bool) (i k : ℕ)
    → poll count test i ≡ false
    → k < count
    → test (i + k) ≡ false
unfolding poll
poll-false zero test i k h lt = absurd (omega arith)
poll-false (suc count) test i zero h lt = elim (Bool-cases (test i)) [
  | inl e ↦ ground arith
  | inr e ↦ rw (at_start i) e
]
poll-false (suc count) test i (suc k) h lt = elim (Bool-cases (test i)) [
  | inl e ↦ ground arith
  | inr e ↦ rw (← shift i k) (poll-false count test (suc i) k (ground arith) (omega arith))
]

-- And where a round passes, the loop ends at the first such round.
pub poll-true :
    (count : ℕ) (test : ℕ → Bool) (i : ℕ)
    → poll count test i ≡ true
    → (k : ℕ) × (k < count) × (test (i + k) ≡ true)
unfolding poll
poll-true zero test i h = absurd (false_ne_true h)
poll-true (suc count) test i h = elim (Bool-cases (test i)) [
  | inl e ↦ (0, omega arith, rw (at_start i) e)
  | inr e ↦
      let (k, lt, found) = poll-true count test (suc i) (ground arith) in
      (suc k, omega arith, rw (← shift i k) found)
]

pub poll-never :
    (count : ℕ) (test : ℕ → Bool) (i : ℕ)
    → ((k : ℕ) → k < count → test (i + k) ≡ false)
    → poll count test i ≡ false
poll-never count test i h = elim (Bool-cases (poll count test i)) [
  | inl e ↦
      let (k, lt, found) = poll-true count test i e in absurd (false_ne_true (sym (h k lt) ∙ found))
  | inr e ↦ e
]

-- A ready round with only not-ready rounds before it, all within the bound.
abbrev pub ReadyWithin : ℕ → (ℕ → ProbeEvent) → ℕ → Type 0
ReadyWithin count event i =
    (k : ℕ) × (k < count)
    × (event (i + k) ≡ tick true)
    × ((j : ℕ) → j < k → event (i + j) ≡ tick false)

event-cases : (e : ProbeEvent) → (e ≡ stop_signal) ⊎ ((e ≡ tick true) ⊎ (e ≡ tick false))
event-cases stop_signal = inl refl
event-cases (tick true) = inr (inl refl)
event-cases (tick false) = inr (inr refl)

ready_later :
    (count : ℕ) (event : ℕ → ProbeEvent) (i : ℕ)
    → event i ≡ tick false
    → ReadyWithin count event (suc i)
    → ReadyWithin (suc count) event i
ready_later count event i e (k, lt, found, before) =
    (suc k, omega arith, rw (← shift i k) found, earlier)
  where
    earlier : (j : ℕ) → j < suc k → event (i + j) ≡ tick false
    earlier zero h = rw (at_start i) e
    earlier (suc j) h = rw (← shift i j) (before j (omega arith))

ready_sooner :
    (count : ℕ) (event : ℕ → ProbeEvent) (i : ℕ)
    → event i ≡ tick false
    → ReadyWithin (suc count) event i
    → ReadyWithin count event (suc i)
ready_sooner count event i e (zero, lt, found, before) =
    absurd (impossible (sym e ∙ (rw (at_start i) at found)))
  where
    impossible : tick false ≡ tick true → ⊥
    impossible q = cc
ready_sooner count event i e (suc k, lt, found, before) =
    (k, omega arith, rw (shift i k) found, λ j h. rw (shift i j) (before (suc j) (omega arith)))

stop_blocks :
    (count : ℕ) (event : ℕ → ProbeEvent) (i : ℕ)
    → event i ≡ stop_signal
    → ReadyWithin count event i
    → ⊥
stop_blocks count event i e (zero, lt, found, before) =
    stop_ne_tick (sym e ∙ (rw (at_start i) at found))
  where
    stop_ne_tick : stop_signal ≡ tick true → ⊥
    stop_ne_tick q = cc
stop_blocks count event i e (suc k, lt, found, before) =
    stop_ne_tick (sym e ∙ (rw (at_start i) at (before zero (omega arith))))
  where
    stop_ne_tick : stop_signal ≡ tick false → ⊥
    stop_ne_tick q = cc

-- The probe answers that the process runs exactly when some round within the bound sees it ready,
-- and each round before that one sees it not ready and no stop.
pub wait_for_running_iff :
    (count : ℕ) (event : ℕ → ProbeEvent) (i : ℕ)
    → (wait_for_running count event i ≡ true) ↔ ReadyWithin count event i
unfolding wait_for_running
wait_for_running_iff zero event i = ((λ h. absurd (false_ne_true h)), λ r. absurd (none_left r))
  where
    none_left : ReadyWithin zero event i → ⊥
    none_left (k, lt, found, before) = omega arith
wait_for_running_iff (suc count) event i =
    let ih = wait_for_running_iff count event (suc i) in
    elim (event-cases (event i)) [
      | inl e ↦
          rw (e, wait_for_running)
            ((λ h. absurd (false_ne_true h)), λ r. absurd (stop_blocks (suc count) event i e r))
      | inr (inl e) ↦
          rw (e, wait_for_running)
            ((λ _. (0, omega arith, rw (at_start i) e, λ j h. absurd (omega arith))), λ _. refl)
      | inr (inr e) ↦
          rw (e, wait_for_running)
            (
              (λ h. ready_later count event i e (ih.0 h)),
              λ r. ih.1 (ready_sooner count event i e r),
            )
    ]
