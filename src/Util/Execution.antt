-- ===== src/Util/Execution.antt =====
-- Commands that are run with a timeout: ExecuteWithTimeout, GRPCServiceReadinessProbe and RemoveFile
-- of pkg/util/util.go, and the readiness probe of pkg/process/healthchecker.go that uses them. What
-- the operating system does with a command is a value.
use longhorn_engine_launcher.Prelude.{
  ℕ, zero, suc, ◌+◌, ◌<◌, ◌≡◌, ◌↔◌, ◌⊎◌, inl, inr, refl, subst, Bool, true, false, Bool-cases,
  Option, none, some, [], arith,
}
use longhorn_engine_launcher.Prelude.Text.{Text}
use longhorn_engine_launcher.Rpc.{Failure, wrapped}
use longhorn_engine_launcher.Process.{wait_count, tick, wait_for_running}
use longhorn_engine_launcher.Process.Loops.{wait_for_running_iff}

-- A run of a command: it ended with its output and the error of cmd.Run, or the timeout came first;
-- then there is what the variable of that error holds when it is read, after the kill.
pub data Execution : Type 0 where
  ended : Text → Option Failure → Execution
  timed_out : Option Failure → Execution

-- errors.Wrapf, which keeps nil.
unfoldable pub wrapf : Option Failure → Option Failure
wrapf none = none
wrapf (some e) = some (wrapped e)

unfoldable pub execute_with_timeout : Execution → Text × Option Failure
unfolding wrapf
execute_with_timeout (ended output none) = (output, none)
execute_with_timeout (ended output (some e)) = ([], wrapf (some e))
execute_with_timeout (timed_out run_error) = ([], wrapf run_error)

succeeded : Option Failure → Bool
succeeded none = true
succeeded (some e) = false

unfoldable pub grpc_service_readiness_probe : Execution → Bool
unfolding execute_with_timeout succeeded
grpc_service_readiness_probe run = succeeded (execute_with_timeout run).1

-- RemoveFile of a file that is there, or not.
unfoldable pub remove_file : Bool → Execution → Option Failure
unfolding execute_with_timeout
remove_file false run = none
remove_file true run = wrapf (execute_with_timeout run).1

-- The command ended without an error, or it was killed at the timeout and cmd.Run had not returned
-- its error yet.
abbrev pub IsTakenAsReady : Execution → Type 0
IsTakenAsReady run = ((output : Text) × (run ≡ ended output none)) ⊎ (run ≡ timed_out none)

probe-IsTakenAsReady :
    (run : Execution) → (grpc_service_readiness_probe run ≡ true) ↔ IsTakenAsReady run
unfolding grpc_service_readiness_probe execute_with_timeout wrapf succeeded
probe-IsTakenAsReady (ended output none) = ((λ h. inl (output, refl)), λ r. refl)
probe-IsTakenAsReady (ended output (some e)) =
    ((λ h. cc), λ r. elim r [ inl x ↦ cc (x.1) | inr x ↦ cc x ])
probe-IsTakenAsReady (timed_out none) = ((λ h. inr refl), λ r. refl)
probe-IsTakenAsReady (timed_out (some e)) =
    ((λ h. cc), λ r. elim r [ inl x ↦ cc (x.1) | inr x ↦ cc x ])

ready_same : (ready : ℕ → Bool) (i j : ℕ) → i ≡ j → ready i ≡ true → ready j ≡ true
ready_same ready i j e h = subst (λ k. ready k ≡ true) e h

tick-true : (b : Bool) → tick b ≡ tick true → b ≡ true
tick-true true h = refl
tick-true false h = cc

-- Without a stop, one round that is ready is enough.
ready_at :
    (count : ℕ) (ready : ℕ → Bool) (i k : ℕ)
    → k < count
    → ready (i + k) ≡ true
    → wait_for_running count (λ j. tick (ready j)) i ≡ true
unfolding wait_for_running
ready_at zero ready i k lt h = absurd (omega arith)
ready_at (suc count) ready i zero lt h = rw (ready_same ready (i + 0) i (omega arith) h) refl
ready_at (suc count) ready i (suc k) lt h = elim (Bool-cases (ready i)) [
  | inl e ↦ rw e refl
  | inr e ↦ rw e (
      ready_at count ready (suc i) k (omega arith)
        (ready_same ready (i + suc k) (suc i + k) (omega arith) h))
]

-- If nobody stops the process while it is awaited, WaitForRunning answers that it runs exactly if
-- in some of its rounds the command of the readiness probe ended without an error, or was killed at
-- its timeout with the error of cmd.Run not there yet.
pub wait_for_running-IsTakenAsReady :
    (runs : ℕ → Execution)
    → (wait_for_running wait_count (λ i. tick (grpc_service_readiness_probe (runs i))) 0 ≡ true)
      ↔ ((k : ℕ) × (k < wait_count) × IsTakenAsReady (runs k))
wait_for_running-IsTakenAsReady runs = (
  (λ h.
      let (k, lt, found, before) =
        (wait_for_running_iff wait_count (λ i. tick (grpc_service_readiness_probe (runs i))) 0).0
          h in
      (
        k,
        lt,
        (probe-IsTakenAsReady (runs k)).0 (
            ready_same (λ i. grpc_service_readiness_probe (runs i)) (0 + k) k (omega arith)
              (tick-true _ found)),
      )),
  λ r.
      ready_at wait_count (λ i. grpc_service_readiness_probe (runs i)) 0 r.0 r.1
        (ready_same (λ i. grpc_service_readiness_probe (runs i)) r.0 (0 + r.0) (omega arith)
          ((probe-IsTakenAsReady (runs r.0)).1 r.2)),
)
