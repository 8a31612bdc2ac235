-- ===== src/Manager/Streams/Hanging.antt =====
-- What ProcessLog of pkg/process/process_manager.go does when a Send fails: it tells the goroutine of
-- StreamLog, pkg/util/log.go, over doneChan, which that goroutine may never receive from.
use longhorn_engine_launcher.Prelude.{
  ℕ, suc, ◌+◌, ◌<◌, ◌≡◌, refl, sym, subst, Option, none, some, List, [], ◌∷◌, ◌++◌, length,
  length-append, arith,
}
use mathlib.Core.List.{append_assoc, append-nil}
use longhorn_engine_launcher.Prelude.Text.{Text}
use longhorn_engine_launcher.Manager.Streams.{
  Reader, scanning, sending, ended, ranging, signalling, Stream, stream, is_signalling, begin, Step,
  scans, scan_ends, goes_on, passes, sends_line, send_fails, Run, start, next,
}

-- The state of the two goroutines has no step.
abbrev pub IsStuck : {E : Type 0} → (ℕ → Option E) → Stream E → Type 0
IsStuck sends s = (t : _) → ¬ Step sends s t

module _ {E : Type 0} (sends : ℕ → Option E) where
  none_at : (i j : ℕ) → i ≡ j → sends i ≡ none → sends j ≡ none
  none_at i j e h = subst (λ k. sends k ≡ none) e h

  run_trans :
      (n m : ℕ) (s t u : Stream E) → Run sends n s t → Run sends m t u → (k : ℕ) × Run sends k s u
  run_trans _ m _ t u start q = (m, q)
  run_trans (suc n) m s t u (next {t = x} d r) q =
      let rest = run_trans n m x t u r q in (suc rest.0, next d rest.1)

  -- The first lines of a file, if they can be sent, are sent.
  sends_lines :
      (xs rest l : List Text)
      → ((i : ℕ) → i < length xs → sends (length l + i) ≡ none)
      → (k : ℕ) × Run sends k
          (stream (scanning (xs ++ rest)) ranging l)
          (stream (scanning rest) ranging (l ++ xs))
  unfolding is_signalling
  sends_lines [] rest l ok = (
    0,
    subst (λ m. Run sends 0 (stream (scanning rest) ranging l) (stream (scanning rest) ranging m))
        (sym (append-nil l)) start,
  )
  sends_lines (a ∷ xs) rest l ok =
      let later =
        sends_lines xs rest (l ++ (a ∷ [])) (λ i h.
          none_at _ _ (omega (arith, length-append l (a ∷ []))) (ok (suc i) (omega arith))) in
      (
        suc (suc (suc (suc later.0))),
        next scans (
            next (goes_on refl) (
              next passes (
                next (sends_line (none_at _ _ (omega arith) (ok 0 (omega arith)))) (
                  subst
                    (λ m.
                      Run sends later.0 (stream (scanning (xs ++ rest)) ranging (l ++ (a ∷ [])))
                        (stream (scanning rest) ranging m))
                    (append_assoc l (a ∷ []) xs) later.1)))),
      )

  ended-IsStuck : (e : E) (l : List Text) → IsStuck sends (stream ended (signalling e) l)
  ended-IsStuck e l t d = elim d [ ]

  sending-IsStuck :
      (a : Text) (rest : List Text) (e : E) (l : List Text)
      → IsStuck sends (stream (sending a rest) (signalling e) l)
  sending-IsStuck a rest e l t d = elim d [ ]

  -- The reader goes on to the next line, or to the end, before the Send of a line fails.
  hangs_after :
      (a : Text) (rest l : List Text) (e : E)
      → sends (length l) ≡ some e
      → (n : ℕ) × (r : Reader) × Run sends n
          (stream (scanning (a ∷ rest)) ranging l)
          (stream r (signalling e) l)
        × IsStuck sends (stream r (signalling e) l)
  unfolding is_signalling
  hangs_after a [] l e h = (
    5,
    ended,
    next scans (next (goes_on refl) (next passes (next scan_ends (next (send_fails h) start)))),
    ended-IsStuck e l,
  )
  hangs_after a (b ∷ rest) l e h = (
    6,
    sending b rest,
    next scans (
        next (goes_on refl)
          (next passes (next scans (next (goes_on refl) (next (send_fails h) start))))),
    sending-IsStuck b rest e l,
  )

-- Whichever Send fails first, there is an order of the steps in which ProcessLog never returns: the
-- lines before were sent, and it is blocked in the send to doneChan while the goroutine that reads
-- the file is blocked in the send of the next line, or has ended.
pub failed_send-hangs :
    {E : Type 0} (sends : ℕ → Option E) (sent : List Text) (a : Text) (rest : List Text) (e : E)
    → ((i : ℕ) → i < length sent → sends i ≡ none)
    → sends (length sent) ≡ some e
    → (n : ℕ) × (r : Reader) × Run sends n
        (begin (sent ++ (a ∷ rest)))
        (stream r (signalling e) sent)
      × IsStuck sends (stream r (signalling e) sent)
unfolding begin
failed_send-hangs sends sent a rest e ok h =
    let first =
      sends_lines sends sent (a ∷ rest) [] (λ i lt. none_at sends _ _ (omega arith) (ok i lt)) in
    let last = hangs_after sends a rest sent e h in
    let run = run_trans sends first.0 last.0 _ _ _ first.1 last.2 in (run.0, last.1, run.1, last.3)
