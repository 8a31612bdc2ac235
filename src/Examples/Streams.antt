-- ===== src/Examples/Streams.antt =====
-- Runs of ProcessLog, pkg/process/process_manager.go, and of StreamLog, pkg/util/log.go.
use longhorn_engine_launcher.Prelude.{
  ℕ, zero, suc, ◌<◌, ◌≡◌, refl, Option, none, some, List, [], ◌∷◌, length, arith,
}
use longhorn_engine_launcher.Prelude.Text.{Text, codes}
use longhorn_engine_launcher.Manager.Streams.{
  Reader, ended, signalling, returned, Stream, stream, begin, Run,
}
use longhorn_engine_launcher.Manager.Streams.Hanging.{IsStuck, failed_send-hangs}

abbrev one_line : List Text
one_line = codes "started" ∷ []

-- A client that takes every line, and one that goes after the first.
abbrev sends_all : ℕ → Option Text
sends_all i = none

abbrev sends_one : ℕ → Option Text
sends_one zero = none
sends_one (suc i) = some (codes "canceled")

abbrev at_end : Stream Text
at_end = stream ended (returned none) one_line

before_one : (i : ℕ) → i < length one_line → sends_one i ≡ none
before_one zero h = refl
before_one (suc i) h = absurd (omega arith)

failed_send-hangs_example :
    (n : ℕ) × (r : Reader) × Run sends_one n
      (begin (codes "started" ∷ codes "ready" ∷ []))
      (stream r (signalling (codes "canceled")) one_line)
    × IsStuck sends_one (stream r (signalling (codes "canceled")) one_line)
failed_send-hangs_example =
    failed_send-hangs sends_one one_line (codes "ready") [] (codes "canceled") before_one refl
