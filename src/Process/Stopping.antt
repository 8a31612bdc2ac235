-- ===== src/Process/Stopping.antt =====
-- StopWithSignal and its goroutine, pkg/process/process.go.
use longhorn_engine_launcher.Prelude.{
  ℕ, ◌+◌, ◌<◌, ◌≡◌, ◌↔◌, ◌⊎◌, Bool, true, false, some, [], ◌∷◌, arith, ltb, if◌then◌else◌,
}
use longhorn_engine_launcher.Process.{
  starting, running, stopping, Process, no_action, graceful, timeout_kill, request_stop,
  delete_timeout, Signal, sigkill, stop_worker, wait_count,
}
use longhorn_engine_launcher.Process.Loops.{poll-false, poll-never}

-- A process that starts or runs is marked as stopping from now on, and gets a graceful stop.
pub request_stop-live :
    (now : ℕ) (p : Process)
    → (p.state ≡ starting) ⊎ (p.state ≡ running)
    → request_stop now p ≡ (record p { state = stopping; deletion_timestamp = some now }, graceful)
unfolding request_stop
request_stop-live now p h = ground arith

-- After a stop request to a process that starts or runs, a second one changes nothing, and kills
-- exactly when it comes more than a minute after the first, else does nothing.
pub request_stop_twice :
    (now later : ℕ) (p : Process)
    → (p.state ≡ starting) ⊎ (p.state ≡ running)
    → let q = (request_stop now p).0 in
      request_stop later q
      ≡ (q, if ltb (now + delete_timeout) later then timeout_kill else no_action)
unfolding request_stop
request_stop_twice now later p h = ground arith

first_round : (k : ℕ) → 0 + k ≡ k
first_round k = omega arith

-- The goroutine of a graceful stop sends the signal and then kills a running command exactly when
-- no round of its loop saw the process stopped.
pub stop_worker-kills_iff :
    (signal : Signal) (stopped_at : ℕ → Bool) (p : Process) (c : ℕ)
    → p.cmd ≡ some c
    → ((stop_worker graceful signal true stopped_at p).1 ≡ signal ∷ sigkill ∷ [])
      ↔ ((k : ℕ) → k < wait_count → stopped_at k ≡ false)
unfolding stop_worker
stop_worker-kills_iff signal stopped_at p c e = (never_stopped, killed)
  where
    never_stopped :
        (stop_worker graceful signal true stopped_at p).1 ≡ signal ∷ sigkill ∷ []
        → (k : ℕ) → k < wait_count
        → stopped_at k ≡ false
    never_stopped h k lt =
        rw (first_round k) at (poll-false wait_count stopped_at 0 k (ground arith) lt)

    killed :
        ((k : ℕ) → k < wait_count → stopped_at k ≡ false)
        → (stop_worker graceful signal true stopped_at p).1 ≡ signal ∷ sigkill ∷ []
    killed h =
        ground (arith, poll-never wait_count stopped_at 0 (λ k lt. rw (first_round k) (h k lt)))
