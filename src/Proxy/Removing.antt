-- ===== src/Proxy/Removing.antt =====
-- SnapshotRemove of pkg/proxy/snapshot.go: every name is tried.
use longhorn_engine_launcher.Prelude.{◌≡◌, refl, Option, none, some, List, [], ◌∷◌, All}
use longhorn_engine_launcher.Prelude.Text.{Text}
use longhorn_engine_launcher.Rpc.{Failure, Result, value, failure, panics}
use longhorn_engine_launcher.Proxy.Snapshot.{last_error, continue_with, remove_each}

module _ {W : Type 0} (f : Text → W → W × Result (Unit {0})) where
  -- The state after a call for each name, in order, whatever the calls answer.
  abbrev pub state_after : List Text → W → W
  state_after [] w = w
  state_after (name ∷ names) w = state_after names (f name w).0

  -- The answers of these calls.
  abbrev pub answers : List Text → W → List (Result (Unit {0}))
  answers [] w = []
  answers (name ∷ names) w = (f name w).1 ∷ answers names (f name w).0

-- The last failure among the answers, or `last`.
abbrev pub last_failure : Option Failure → List (Result (Unit {0})) → Option Failure
last_failure last [] = last
last_failure last (value u ∷ rs) = last_failure last rs
last_failure last (failure e ∷ rs) = last_failure (some e) rs
last_failure last (panics ∷ rs) = last_failure last rs

abbrev pub Returns : Result (Unit {0}) → Type 0
Returns (value u) = Unit
Returns (failure e) = Unit
Returns panics = ⊥

module _ {W : Type 0} (f : Text → W → W × Result (Unit {0})) where
  remove_each-from :
      (names : List Text) (last : Option Failure) (w : W)
      → All Returns (answers f names w)
      → remove_each f names last w
        ≡ (state_after f names w, last_error (last_failure last (answers f names w)))
  unfolding remove_each
  remove_each-from [] last w h = refl
  remove_each-from (name ∷ names) last w h =
      step (λ l x g. remove_each-from names l x g) (f name w) h
    where
      step :
          ((l : Option Failure) (x : W)
            → All Returns (answers f names x)
            → remove_each f names l x
              ≡ (state_after f names x, last_error (last_failure l (answers f names x))))
          → (r : W × Result (Unit {0})) → Returns r.1 × All Returns (answers f names r.0)
          → continue_with (λ l x. remove_each f names l x) last r
            ≡ (state_after f names r.0, last_error (last_failure last (r.1 ∷ answers f names r.0)))
      step ih (x, value u) g = ih last x g.1
      step ih (x, failure e) g = ih (some e) x g.1
      step ih (x, panics) g = absurd g.0

-- SnapshotRemove asks the engine to remove every snapshot of the request in turn, also after one of
-- them failed, if each of the calls returns; it fails with the error of the last one that failed, and
-- succeeds only if none did.
pub remove_each-tries_every :
    {W : Type 0} (f : Text → W → W × Result (Unit {0})) (names : List Text) (w : W)
    → All Returns (answers f names w)
    → remove_each f names none w
      ≡ (state_after f names w, last_error (last_failure none (answers f names w)))
remove_each-tries_every f names w h = remove_each-from f names none w h
