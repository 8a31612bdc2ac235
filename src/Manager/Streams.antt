-- ===== src/Manager/Streams.antt =====
-- ProcessLog of pkg/process/process_manager.go with the goroutine of StreamLog, pkg/util/log.go,
-- that reads the log file. The two share the unbuffered channels logChan and doneChan; each step is
-- one operation on a channel, one Scan or one Send.
pub mod Order
pub mod Hanging
use longhorn_engine_launcher.Prelude.{
  ℕ, zero, suc, ◌+◌, ◌*◌, ◌≤◌, ◌≡◌, ◌⊎◌, inl, inr, refl, Bool, true, false, Option, none, some,
  List, [], ◌∷◌, ◌++◌, length, arith,
}
use longhorn_engine_launcher.Prelude.Text.{Text}

-- The goroutine of StreamLog, with the lines that Scan has not returned yet: about to call Scan, at
-- the select with a line, blocked in the send of a line to logChan, and with logChan closed.
pub data Reader : Type 0 where
  scanning : List Text → Reader
  selecting : Text → List Text → Reader
  sending : Text → List Text → Reader
  ended : Reader

-- ProcessLog: at the range over logChan, about to send a line to the client, blocked in the send to
-- doneChan, and returned.
pub data Handler (E : Type 0) : Type 0 where
  ranging : Handler E
  holding : Text → Handler E
  signalling : E → Handler E
  returned : Option E → Handler E

-- The two goroutines and the lines that were sent to the client.
pub data Stream (E : Type 0) : Type 0 where
  stream : Reader → Handler E → List Text → Stream E

unfoldable pub is_signalling : {E : Type 0} → Handler E → Bool
is_signalling ranging = false
is_signalling (holding a) = false
is_signalling (signalling e) = true
is_signalling (returned o) = false

unfoldable pub begin : {E : Type 0} → List Text → Stream E
begin lines = stream (scanning lines) ranging []

-- `sends i` is the error of the i-th Send. The select takes its default only if nobody is blocked
-- in a send to doneChan.
pub data Step {E : Type 0} (sends : ℕ → Option E) : Stream E → Stream E → Type 0 where
  scans :
      {a : Text} {rest l : List Text} {h : Handler E}
      → Step sends (stream (scanning (a ∷ rest)) h l) (stream (selecting a rest) h l)
  scan_ends :
      {l : List Text} {h : Handler E} → Step sends (stream (scanning []) h l) (stream ended h l)
  finds_done :
      {a : Text} {rest l : List Text} {e : E}
      → Step sends (stream (selecting a rest) (signalling e) l) (stream ended (returned (some e)) l)
  goes_on :
      {a : Text} {rest l : List Text} {h : Handler E}
      → is_signalling h ≡ false
      → Step sends (stream (selecting a rest) h l) (stream (sending a rest) h l)
  passes :
      {a : Text} {rest l : List Text}
      → Step sends (stream (sending a rest) ranging l) (stream (scanning rest) (holding a) l)
  sends_line :
      {a : Text} {l : List Text} {r : Reader}
      → sends (length l) ≡ none
      → Step sends (stream r (holding a) l) (stream r ranging (l ++ (a ∷ [])))
  send_fails :
      {a : Text} {l : List Text} {r : Reader} {e : E}
      → sends (length l) ≡ some e
      → Step sends (stream r (holding a) l) (stream r (signalling e) l)
  range_ends :
      {l : List Text} → Step sends (stream ended ranging l) (stream ended (returned none) l)

-- A run of so many steps.
pub data Run {E : Type 0} (sends : ℕ → Option E) : ℕ → Stream E → Stream E → Type 0 where
  start : {s : Stream E} → Run sends 0 s s
  next : {n : ℕ} {s t u : Stream E} → Step sends s t → Run sends n t u → Run sends (suc n) s u

abbrev reader_steps : Reader → ℕ
reader_steps (scanning rest) = 4 * length rest + 1
reader_steps (selecting a rest) = 4 * length rest + 4
reader_steps (sending a rest) = 4 * length rest + 3
reader_steps ended = 0

abbrev handler_steps : {E : Type 0} → Handler E → ℕ
handler_steps ranging = 1
handler_steps (holding a) = 2
handler_steps (signalling e) = 1
handler_steps (returned o) = 0

-- A bound on the steps that are left.
abbrev pub steps_left : {E : Type 0} → Stream E → ℕ
steps_left (stream r h l) = reader_steps r + handler_steps h

module _ {E : Type 0} (sends : ℕ → Option E) where
  Step-steps_left : (s t : Stream E) → Step sends s t → suc (steps_left t) ≤ steps_left s
  Step-steps_left _ _ scans = omega arith
  Step-steps_left _ _ scan_ends = omega arith
  Step-steps_left _ _ finds_done = omega arith
  Step-steps_left _ _ (goes_on h) = omega arith
  Step-steps_left _ _ passes = omega arith
  Step-steps_left _ _ (sends_line h) = omega arith
  Step-steps_left _ _ (send_fails h) = omega arith
  Step-steps_left _ _ range_ends = omega arith

  pub Run-steps_left : (n : ℕ) (s t : Stream E) → Run sends n s t → n + steps_left t ≤ steps_left s
  Run-steps_left _ _ _ start = omega arith
  Run-steps_left (suc n) s t (next {t = m} d r) =
      omega (arith, Step-steps_left s m d, Run-steps_left n m t r)
