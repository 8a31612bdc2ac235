-- ===== src/Instance/Watching.antt =====
-- How the watch loops of pkg/instance/instance.go end.
use longhorn_engine_launcher.Prelude.{
  ℕ, suc, ◌+◌, ◌≤◌, ◌<◌, ◌≡◌, ◌↔◌, Bool, true, false, List, [], ◌∷◌, arith, All,
}
use longhorn_engine_launcher.Instance.Watch.{
  WatchEvent, context_done, received, receive_failed, receive_canceled, watching, too_many_failures,
  watch, max_monitor_retry_count,
}

-- The events that keep the loop going.
abbrev pub goes_on : WatchEvent → Bool
goes_on received = true
goes_on receive_failed = true
goes_on _ = false

abbrev pub failures : List WatchEvent → ℕ
failures [] = 0
failures (receive_failed ∷ events) = suc (failures events)
failures (_ ∷ events) = failures events

abbrev pub receipts : List WatchEvent → ℕ
receipts [] = 0
receipts (received ∷ events) = suc (receipts events)
receipts (_ ∷ events) = receipts events

-- If no event cancels the stream or ends the context and the failures stay below ten, the watch
-- loop notifies of every item that comes in, and goes on.
pub watch-below :
    (c : ℕ) (events : List WatchEvent)
    → All (λ e. goes_on e ≡ true) events
    → c + failures events < max_monitor_retry_count
    → watch c events ≡ (receipts events, watching)
unfolding watch
watch-below c [] h lt = ground arith
watch-below c (received ∷ events) h lt = ground (arith, watch-below c events h.1)
watch-below c (receive_failed ∷ events) h lt = ground (arith, watch-below (suc c) events h.1)
watch-below c (context_done ∷ events) h lt = ground arith
watch-below c (receive_canceled ∷ events) h lt = ground arith

-- If no event cancels the stream or ends the context, the watch loop gives up exactly when its
-- failures have come to ten, the earlier ones included, however many receipts succeed between
-- them.
pub watch-too_many_iff :
    (c : ℕ) (events : List WatchEvent)
    → All (λ e. goes_on e ≡ true) events
    → ((watch c events).1 ≡ too_many_failures) ↔ (max_monitor_retry_count ≤ c + failures events)
unfolding watch
watch-too_many_iff c [] h = (ground arith, ground arith)
watch-too_many_iff c (received ∷ events) h = (
  ground (arith, watch-too_many_iff c events h.1),
  ground (arith, watch-too_many_iff c events h.1),
)
watch-too_many_iff c (receive_failed ∷ events) h = (
  ground (arith, watch-too_many_iff (suc c) events h.1),
  ground (arith, watch-too_many_iff (suc c) events h.1),
)
watch-too_many_iff c (context_done ∷ events) h = (ground arith, ground arith)
watch-too_many_iff c (receive_canceled ∷ events) h = (ground arith, ground arith)
