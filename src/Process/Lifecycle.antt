-- ===== src/Process/Lifecycle.antt =====
-- The goroutines of one process, pkg/process/process.go: the run of the command, the readiness
-- probe, and the goroutines that stop requests start. Each step is one section under the lock, one
-- access to the state without it, or one event of the command.
use longhorn_engine_launcher.Prelude.{
  ℕ, suc, ◌-◌, ◌<◌, ◌≡◌, ◌≢◌, subst, sym, Bool, true, false, Option, none, arith, if◌then◌else◌,
}
use longhorn_engine_launcher.Prelude.Text.{Text}
use longhorn_engine_launcher.Process.{
  starting, running, stopping, Process, StopAction, no_action, graceful, timeout_kill, request_stop,
  run_finished, probe_finished, mark_stopped, is_stopped,
}

-- The goroutine that calls cmd.Run: before the command is launched; while it runs; when Run has
-- returned, with its error, and the goroutine has not taken the lock; and after its section.
pub data Runner : Type 0 where
  not_launched alive : Runner
  returned : Option Text → Runner
  exited : Runner

-- cmd.Run can still return.
abbrev in_run : Runner → Bool
in_run not_launched = true
in_run alive = true
in_run _ = false

pub record Life : Type 0 where
  pub process : Process
  pub runner : Runner
  pub probed : Bool  -- the probe goroutine has ended
  pub workers : ℕ  -- goroutines of stop requests that have not acted yet
  pub marking : ℕ  -- those that are about to write the state stopped

abbrev spawned : StopAction → ℕ → ℕ
spawned no_action n = n
spawned graceful n = suc n
spawned timeout_kill n = suc n

-- The process after Start has returned without an error.
abbrev pub started : Process → Life
started p = record { process = p; runner = not_launched; probed = false; workers = 0; marking = 0 }

unfoldable pub launch : Life → Life
launch l = record l { runner = alive }

-- The command has ended, or could not be launched.
unfoldable pub run_returns : Option Text → Life → Life
run_returns result l = record l { runner = returned result }

-- The section of the goroutine of cmd.Run, which records the end.
unfoldable pub finish : Option Text → Life → Life
unfolding run_finished
finish result l = record l { process = run_finished result l.process; runner = exited }

unfoldable pub probe : Bool → ℕ → Life → Life
unfolding probe_finished
probe ready now l =
    let r = probe_finished ready now l.process in
    record l { process = r.0; probed = true; workers = spawned r.1 l.workers }

unfoldable pub stop : ℕ → Life → Life
unfolding request_stop
stop now l =
    let r = request_stop now l.process in
    record l { process = r.0; workers = spawned r.1 l.workers }

-- The goroutine of a stop request that finds no process of the command reads the state, and goes on
-- to write it if the state is not final.
unfoldable pub find_gone : Life → Life
unfolding is_stopped
find_gone l = record l {
  workers = l.workers - 1;
  marking = if is_stopped l.process then l.marking else suc l.marking;
}

-- It writes the state, whatever it is by now.
unfoldable pub mark : Life → Life
unfolding mark_stopped
mark l = record l { process = mark_stopped l.process; marking = l.marking - 1 }

-- The goroutine of a stop request that signals the command.
unfoldable pub send_signals : Life → Life
send_signals l = record l { workers = l.workers - 1 }

pub data Step (l : Life) (m : Life) : Type 0 where
  launches : l.runner ≡ not_launched → m ≡ launch l → Step l m
  returns : (result : Option Text) → in_run l.runner ≡ true → m ≡ run_returns result l → Step l m
  finishes : (result : Option Text) → l.runner ≡ returned result → m ≡ finish result l → Step l m
  probes : (ready : Bool) (now : ℕ) → l.probed ≡ false → m ≡ probe ready now l → Step l m
  stops : (now : ℕ) → m ≡ stop now l → Step l m
  finds_gone : 0 < l.workers → l.runner ≢ alive → m ≡ find_gone l → Step l m
  marks : 0 < l.marking → m ≡ mark l → Step l m
  sends_signals : 0 < l.workers → l.runner ≡ alive → m ≡ send_signals l → Step l m

pub data Reach (l : Life) : Life → Type 0 where
  here : Reach l l
  next : {m n : Life} → Reach l m → Step m n → Reach l n

pub record IsSound (l : Life) : Type 0 where
  pub stopping_dated : l.process.state ≡ stopping → l.process.deletion_timestamp ≢ none
  pub running_probed : l.process.state ≡ running → l.probed ≡ true
  pub exited_stopped : l.runner ≡ exited → l.probed ≡ false → is_stopped l.process ≡ true

started-IsSound : (p : Process) → p.state ≡ starting → IsSound (started p)
started-IsSound p h = ground arith

launch-IsSound : (l : Life) → l.runner ≡ not_launched → IsSound l → IsSound (launch l)
unfolding launch
launch-IsSound l h v = ground arith

run_returns-IsSound : (result : Option Text) (l : Life) → IsSound l → IsSound (run_returns result l)
unfolding run_returns
run_returns-IsSound result l v = ground arith

finish-IsSound : (result : Option Text) (l : Life) → IsSound l → IsSound (finish result l)
unfolding finish is_stopped
finish-IsSound result l v = ground arith

probe-IsSound : (ready : Bool) (now : ℕ) (l : Life) → IsSound l → IsSound (probe ready now l)
unfolding probe
probe-IsSound ready now l v = ground arith

stop-IsSound : (now : ℕ) (l : Life) → IsSound l → IsSound (stop now l)
unfolding stop is_stopped
stop-IsSound now l v = ground arith

find_gone-IsSound : (l : Life) → IsSound l → IsSound (find_gone l)
unfolding find_gone is_stopped
find_gone-IsSound l v = ground arith

mark-IsSound : (l : Life) → IsSound l → IsSound (mark l)
unfolding mark is_stopped
mark-IsSound l v = ground arith

send_signals-IsSound : (l : Life) → IsSound l → IsSound (send_signals l)
unfolding send_signals
send_signals-IsSound l v = ground arith

Step-IsSound : {l m : Life} → Step l m → IsSound l → IsSound m
Step-IsSound {l} (launches h e) v = subst IsSound (sym e) (launch-IsSound l h v)
Step-IsSound {l} (returns result h e) v = subst IsSound (sym e) (run_returns-IsSound result l v)
Step-IsSound {l} (finishes result h e) v = subst IsSound (sym e) (finish-IsSound result l v)
Step-IsSound {l} (probes ready now h e) v = subst IsSound (sym e) (probe-IsSound ready now l v)
Step-IsSound {l} (stops now e) v = subst IsSound (sym e) (stop-IsSound now l v)
Step-IsSound {l} (finds_gone w h e) v = subst IsSound (sym e) (find_gone-IsSound l v)
Step-IsSound {l} (marks w e) v = subst IsSound (sym e) (mark-IsSound l v)
Step-IsSound {l} (sends_signals w h e) v = subst IsSound (sym e) (send_signals-IsSound l v)

Reach-IsSound-from : {l m : Life} → Reach l m → IsSound l → IsSound m
Reach-IsSound-from here v = v
Reach-IsSound-from (next r s) v = Step-IsSound s (Reach-IsSound-from r v)

-- Whatever the goroutines of a started process do, in whatever order: if it is stopping it has a
-- deletion time, if it is running its probe has ended, and if the goroutine of its command has
-- recorded the end while the probe has not ended, it is stopped or in error.
pub Reach-IsSound : (p : Process) {l : Life} → p.state ≡ starting → Reach (started p) l → IsSound l
Reach-IsSound p h r = Reach-IsSound-from r (started-IsSound p h)

abbrev pub IsSettled : Life → Type 0
IsSettled l = (l.probed ≡ true) × (is_stopped l.process ≡ true)

Step-IsSettled : {l m : Life} → Step l m → IsSettled l → IsSettled m
unfolding launch run_returns finish probe stop find_gone mark send_signals is_stopped
Step-IsSettled (launches h e) v = ground arith
Step-IsSettled (returns result h e) v = ground arith
Step-IsSettled (finishes result h e) v = ground arith
Step-IsSettled (probes ready now h e) v = ground arith
Step-IsSettled (stops now e) v = ground arith
Step-IsSettled (finds_gone w h e) v = ground arith
Step-IsSettled (marks w e) v = ground arith
Step-IsSettled (sends_signals w h e) v = ground arith

-- Once the probe has ended, a process that is stopped or in error stays so.
pub Reach-IsSettled : {l m : Life} → Reach l m → IsSettled l → IsSettled m
Reach-IsSettled here v = v
Reach-IsSettled (next r s) v = Step-IsSettled s (Reach-IsSettled r v)
