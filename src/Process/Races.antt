-- ===== src/Process/Races.antt =====
-- Orders of the goroutines of pkg/process/process.go in which the recorded state is not what the
-- command does.
use longhorn_engine_launcher.Prelude.{ℕ, ◌<◌, ◌≡◌, ◌≢◌, refl, true, Option, arith}
use longhorn_engine_launcher.Prelude.Text.{Text}
use longhorn_engine_launcher.Process.{Process, starting, running, is_stopped}
use longhorn_engine_launcher.Process.Lifecycle.{
  Life, not_launched, alive, exited, started, launch, run_returns, finish, probe, stop, find_gone,
  mark, Reach, here, next, launches, returns, finishes, probes, stops, finds_gone, marks,
}

-- The command has ended and was recorded as ended; then the probe, which had its answer before,
-- writes its own result.
abbrev late_probe : Option Text → ℕ → Process → Life
late_probe result now p = probe true now (finish result (run_returns result (launch (started p))))

late_probe-Reach :
    (result : Option Text) (now : ℕ) (p : Process) → Reach (started p) (late_probe result now p)
unfolding launch run_returns finish probe
late_probe-Reach result now p =
    next
      (next (next (next here (launches refl refl)) (returns result refl refl))
        (finishes result refl refl))
      (probes true now refl refl)

-- Every process has an order of its goroutines after which its command has ended, its probe too,
-- and its state is running.
pub late_probe_running :
    (result : Option Text) (now : ℕ) (p : Process)
    → (l : Life) × Reach (started p) l
      × (l.runner ≡ exited)
      × (l.probed ≡ true)
      × (l.process.state ≡ running)
late_probe_running result now p = (
  late_probe result now p,
  late_probe-Reach result now p,
  unfold probe finish run_returns launch in refl,
  unfold probe in refl,
  unfold probe finish run_returns launch in ground arith,
)

-- A stop request whose goroutine acts before the run is launched.
abbrev early_stop : ℕ → Process → Life
early_stop now p = launch (mark (find_gone (stop now (started p))))

asked : (now : ℕ) (p : Process) → p.state ≡ starting → 0 < (stop now (started p)).workers
unfolding stop
asked now p h = ground arith

not_yet : (now : ℕ) (p : Process) → (stop now (started p)).runner ≢ alive
unfolding stop
not_yet now p e = cc

unmarked :
    (now : ℕ) (p : Process) → p.state ≡ starting → 0 < (find_gone (stop now (started p))).marking
unfolding stop find_gone is_stopped
unmarked now p h = ground arith

kept : (now : ℕ) (p : Process) → (mark (find_gone (stop now (started p)))).runner ≡ not_launched
unfolding stop find_gone mark
kept now p = refl

early_stop-Reach :
    (now : ℕ) (p : Process) → p.state ≡ starting → Reach (started p) (early_stop now p)
early_stop-Reach now p h =
    next
      (next (next (next here (stops now refl)) (finds_gone (asked now p h) (not_yet now p) refl))
        (marks (unmarked now p h) refl))
      (launches (kept now p) refl)

-- Every starting process has an order of its goroutines after which it counts as stopped while its
-- command runs.
pub early_stop_alive :
    (now : ℕ) (p : Process)
    → p.state ≡ starting
    → (l : Life) × Reach (started p) l × (l.runner ≡ alive) × (is_stopped l.process ≡ true)
early_stop_alive now p h = (
  early_stop now p,
  early_stop-Reach now p h,
  unfold launch in refl,
  unfold launch mark find_gone stop is_stopped in ground arith,
)
