-- ===== src/Examples/Processes.antt =====
-- Runs of one process, pkg/process/process.go and pkg/process/healthchecker.go.
use longhorn_engine_launcher.Prelude.{
  ℕ, zero, suc, ◌<◌, ◌≡◌, ◌↔◌, refl, Bool, true, false, none, some, [], ◌∷◌, ltb,
}
use longhorn_engine_launcher.Process.{
  Process, running, graceful, request_stop, sighup, sigkill, stop_worker, wait_count, is_stopped,
  tick, wait_for_running,
}
use longhorn_engine_launcher.Client.{missing}
use longhorn_engine_launcher.Util.Execution.{
  ended, timed_out, Execution, grpc_service_readiness_probe, IsTakenAsReady,
  wait_for_running-IsTakenAsReady,
}
use longhorn_engine_launcher.Process.Stopping.{stop_worker-kills_iff}
use longhorn_engine_launcher.Process.Lifecycle.{
  Life, Reach, here, next, started, launches, returns, finishes, probes, stops, stop, launch,
  run_returns, finish, probe, IsSound, IsSettled, exited, alive, Reach-IsSound, Reach-IsSettled,
}
use longhorn_engine_launcher.Process.Races.{late_probe_running, early_stop_alive}
use longhorn_engine_launcher.Manager.{no_process}

abbrev with_command : Process
with_command = record no_process { cmd = some 1 }

abbrev after_stop : Process
after_stop = (request_stop 7 no_process).0

-- The process is seen as stopped from the third round on.
abbrev third_round : ℕ → Bool
third_round i = ltb 1 i

stop_worker-kills_iff_example :
    ((stop_worker graceful sighup true third_round with_command).1 ≡ sighup ∷ sigkill ∷ [])
    ↔ ((k : ℕ) → k < wait_count → third_round k ≡ false)
stop_worker-kills_iff_example = stop_worker-kills_iff sighup third_round with_command 1 refl

-- The first probe fails, the second is killed at its timeout.
abbrev probes_hang : ℕ → Execution
probes_hang zero = ended [] (some missing)
probes_hang (suc i) = timed_out none

wait_for_running-IsTakenAsReady_example :
    (wait_for_running wait_count (λ i. tick (grpc_service_readiness_probe (probes_hang i))) 0
      ≡ true)
    ↔ ((k : ℕ) × (k < wait_count) × IsTakenAsReady (probes_hang k))
wait_for_running-IsTakenAsReady_example = wait_for_running-IsTakenAsReady probes_hang

abbrev run_life : Life
run_life = probe true 3 (finish none (run_returns none (launch (started no_process))))

run_life-Reach : Reach (started no_process) run_life
unfolding launch run_returns finish probe
run_life-Reach =
    next
      (next (next (next here (launches refl refl)) (returns none refl refl))
        (finishes none refl refl))
      (probes true 3 refl refl)

Reach-IsSound_example : IsSound run_life
Reach-IsSound_example = Reach-IsSound no_process refl run_life-Reach

abbrev settled : Life
settled = finish none (run_returns none (probe true 3 (launch (started no_process))))

settled-IsSettled : IsSettled settled
unfolding launch run_returns finish probe is_stopped
settled-IsSettled = (refl, refl)

Reach-IsSettled_example : IsSettled (stop 9 settled)
Reach-IsSettled_example = Reach-IsSettled (next here (stops 9 refl)) settled-IsSettled

late_probe_running_example :
    (l : Life) × Reach (started no_process) l
    × (l.runner ≡ exited)
    × (l.probed ≡ true)
    × (l.process.state ≡ running)
late_probe_running_example = late_probe_running none 3 no_process

early_stop_alive_example :
    (l : Life) × Reach (started no_process) l × (l.runner ≡ alive) × (is_stopped l.process ≡ true)
early_stop_alive_example = early_stop_alive 3 no_process refl
