-- ===== src/Instance/Watch.antt =====
-- The loops behind InstanceWatch of pkg/instance/instance.go. The three watch loops, for processes,
-- SPDK engines and SPDK replicas, differ in their stream only.
use longhorn_engine_launcher.Prelude.{ℕ, suc, Option, none, some, List, [], ◌∷◌, leb, if◌then◌else◌}
use longhorn_engine_launcher.Rpc.{Failure, wrapped}

-- What a round of a watch loop meets: the context is done, or an answer of Recv.
pub data WatchEvent : Type 0 where
  context_done received receive_failed receive_canceled : WatchEvent

-- How the loop stands after its events.
pub data WatchEnd : Type 0 where
  watching done_by_context canceled_by_peer too_many_failures : WatchEnd

-- maxMonitorRetryCount.
abbrev pub max_monitor_retry_count : ℕ
max_monitor_retry_count = 10

abbrev pub one_more : ℕ × WatchEnd → ℕ × WatchEnd
one_more (n, end) = (suc n, end)

-- The loop, with `failure_count` failures so far: the notifications it sends, and its end.
unfoldable pub watch : ℕ → List WatchEvent → ℕ × WatchEnd
watch failure_count [] =
    (0, if leb max_monitor_retry_count failure_count then too_many_failures else watching)
watch failure_count (context_done ∷ events) =
    (0, if leb max_monitor_retry_count failure_count then too_many_failures else done_by_context)
watch failure_count (receive_canceled ∷ events) =
    (0, if leb max_monitor_retry_count failure_count then too_many_failures else canceled_by_peer)
watch failure_count (received ∷ events) =
    let rest = watch failure_count events in
    if leb max_monitor_retry_count failure_count then (0, too_many_failures) else one_more rest
watch failure_count (receive_failed ∷ events) =
    let rest = watch (suc failure_count) events in
    if leb max_monitor_retry_count failure_count then (0, too_many_failures) else rest

-- What handleNotify meets: the context is done, or a notification whose answer is sent, or is not.
pub data NotifyEvent : Type 0 where
  stop_notifying notified : NotifyEvent
  send_failed : Failure → NotifyEvent

-- handleNotify: how many answers it sends, and the error it ends with, if it ends.
unfoldable pub handle_notify : Failure → List NotifyEvent → ℕ × Option Failure
handle_notify context_error [] = (0, none)
handle_notify context_error (stop_notifying ∷ events) = (0, some context_error)
handle_notify context_error (send_failed e ∷ events) = (0, some (wrapped e))
handle_notify context_error (notified ∷ events) =
    let rest = handle_notify context_error events in (suc rest.0, rest.1)
