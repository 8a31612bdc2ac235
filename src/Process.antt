-- ===== src/Process.antt =====
-- One managed process: pkg/process/process.go, with the wait loop of pkg/process/healthchecker.go.
-- A method that changes the process returns the new one. The locks make each function here atomic;
-- what the goroutines do between them is in Process/Lifecycle.antt. Times are nanoseconds.
pub mod Loops
pub mod Stopping
pub mod Lifecycle
pub mod Races
use longhorn_engine_launcher.Prelude.{
  ℕ, zero, suc, ◌+◌, ◌*◌, Bool, true, false, not, ◌&&◌, ◌||◌, Option, none, some, List, [], ◌∷◌,
  ltb, if◌then◌else◌,
}
use longhorn_engine_launcher.Prelude.Int.{ℤ, pos, negsuc}
use longhorn_engine_launcher.Prelude.Text.{Text}

pub data State : Type 0 where
  starting running stopping stopped error : State

pub record Process : Type 0 where
  pub name : Text
  pub binary : Text
  pub args : List Text
  pub port_count : ℤ
  pub port_args : List Text
  pub uuid : Text
  pub state : State
  pub error_msg : Text
  pub conditions : List (Text × Bool)
  pub port_start : ℤ
  pub port_end : ℤ
  pub deletion_timestamp : Option ℕ
  pub cmd : Option ℕ  -- which command of the executor

-- What the executor's NewCommand returns: a command, or an error message.
pub data CommandResult : Type 0 where
  command : ℕ → CommandResult
  command_error : Text → CommandResult

pub data Signal : Type 0 where
  sigint sighup sigkill : Signal

-- WaitInterval (100 ms) and WaitCount of pkg/types/types.go.
abbrev pub wait_interval : ℕ
wait_interval = 100000000

abbrev pub wait_count : ℕ
wait_count = 600

-- The part of Start under the lock: the new process, and the error if there is no command.
unfoldable pub start : CommandResult → Process → Process × Option Text
start (command c) p = (record p { cmd = some c }, none)
start (command_error msg) p = (record p { state = error; error_msg = msg }, some msg)

-- The first goroutine of Start, after cmd.Run has returned: `none` is a run without an error.
unfoldable pub run_finished : Option Text → Process → Process
run_finished (some msg) p = record p { state = error; error_msg = msg }
run_finished none p = record p { state = stopped }

abbrev is_final : State → Bool
is_final stopped = true
is_final error = true
is_final _ = false

unfoldable pub is_stopped : Process → Bool
is_stopped p = is_final p.state

-- What a stop request asks the detached goroutine to do: needStop, needTimeoutKill or neither.
pub data StopAction : Type 0 where
  no_action graceful timeout_kill : StopAction

abbrev may_stop : State → Bool
may_stop starting = true
may_stop running = true
may_stop _ = false

abbrev pub delete_timeout : ℕ
delete_timeout = wait_interval * wait_count

abbrev overdue : ℕ → Option ℕ → Bool
overdue now none = false
overdue now (some t) = ltb (t + delete_timeout) now

-- The part of StopWithSignal under the lock.
unfoldable pub request_stop : ℕ → Process → Process × StopAction
request_stop now p =
    if may_stop p.state
    then (record p { state = stopping; deletion_timestamp = some now }, graceful)
    else (p, if overdue now p.deletion_timestamp then timeout_kill else no_action)

-- A loop of at most `count` rounds from round `i` that ends when the test of the round passes.
unfoldable pub poll : ℕ → (ℕ → Bool) → ℕ → Bool
poll zero test i = false
poll (suc count) test i = elim (test i) [ true ↦ true | false ↦ poll count test (suc i) ]

unfoldable pub mark_stopped : Process → Process
mark_stopped p = record p { state = stopped }

-- The command has no process any more, or had none yet. The source reads the state and writes it
-- without the lock: here nothing happens in between, in Process/Lifecycle.antt these are two steps.
unfoldable pub mark_gone : Process → Process
unfolding mark_stopped
mark_gone p = if is_final p.state then p else mark_stopped p

abbrev has_cmd : Option ℕ → Bool
has_cmd none = false
has_cmd (some c) = true

-- The goroutine of StopWithSignal: what becomes of the process, and the signals that the command
-- gets. `cmd_running` is what IsRunning says of a command, `stopped_at` what IsStopped says in
-- each round of the loop.
unfoldable pub stop_worker :
    StopAction → Signal → Bool → (ℕ → Bool) → Process → Process × List Signal
unfolding mark_gone poll
stop_worker no_action signal cmd_running stopped_at p = (p, [])
stop_worker graceful signal cmd_running stopped_at p =
    if not (has_cmd p.cmd && cmd_running)
    then (mark_gone p, [])
    else (p, signal ∷ (if poll wait_count stopped_at 0 then [] else sigkill ∷ []))
stop_worker timeout_kill signal cmd_running stopped_at p =
    if not (has_cmd p.cmd && cmd_running) then (mark_gone p, []) else (p, sigkill ∷ [])

-- What a round of WaitForRunning meets: the stop channel is closed, or the ticker fires and the
-- readiness probe answers.
pub data ProbeEvent : Type 0 where
  stop_signal : ProbeEvent
  tick : Bool → ProbeEvent

-- GRPCHealthChecker.WaitForRunning, from round `i` with `count` rounds left.
unfoldable pub wait_for_running : ℕ → (ℕ → ProbeEvent) → ℕ → Bool
wait_for_running zero event i = false
wait_for_running (suc count) event i = elim (event i) [
  | stop_signal ↦ false
  | tick true ↦ true
  | tick false ↦ wait_for_running count event (suc i)
]

unfoldable pub set_running : Process → Process
set_running p = record p { state = running }

abbrev pub has_port : ℤ → Bool
has_port (pos zero) = false
has_port _ = true

-- The second goroutine of Start. `ready` is the answer of WaitForRunning; a process with no port is
-- not probed. A process that does not get ready is stopped, unless it has ended.
unfoldable pub probe_finished : Bool → ℕ → Process → Process × StopAction
unfolding set_running is_stopped request_stop
probe_finished ready now p =
    if has_port p.port_start
    then (if ready
        then (set_running p, no_action)
        else if is_stopped p
        then (p, no_action)
        else request_stop now p)
    else (set_running p, no_action)

-- RPCResponse, and the message that it fills.
pub record ProcessResponse : Type 0 where
  pub name : Text
  pub binary : Text
  pub args : List Text
  pub port_count : ℤ
  pub port_args : List Text
  pub state : State
  pub error_msg : Text
  pub port_start : ℤ
  pub port_end : ℤ
  pub conditions : List (Text × Bool)
  pub deleted : Bool

unfoldable pub rpc_response : Process → ProcessResponse
rpc_response p = record {
  name = p.name;
  binary = p.binary;
  args = p.args;
  port_count = p.port_count;
  port_args = p.port_args;
  state = p.state;
  error_msg = p.error_msg;
  port_start = p.port_start;
  port_end = p.port_end;
  conditions = p.conditions;
  deleted = false;
}
