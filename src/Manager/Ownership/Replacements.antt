-- ===== src/Manager/Ownership/Replacements.antt =====
-- The calls of ProcessReplace under way: one among the others, and cleanupReplacementProcess.
use longhorn_engine_launcher.Prelude.{ℕ, ◌+◌, ◌≡◌, refl, ap, ◌∙◌, List, [], ◌∷◌, ◌++◌, All, arith}
use longhorn_engine_launcher.Process.{
  Process, request_stop, StopAction, no_action, graceful, timeout_kill,
}
use longhorn_engine_launcher.Ports.{PortBitmap}
use longhorn_engine_launcher.Manager.{
  Manager, update, release_process_ports, cleanup_replacement, notify,
}
use longhorn_engine_launcher.Manager.Holding.{has, held, update_self, held-cons}
use longhorn_engine_launcher.Manager.System.{in_flight, Replacement}

-- Facts of every call under way hold of the one between `before` and `after`, and of the others.
pub at_call :
    (P : Replacement → Type 0) (before after : List Replacement) (c : Replacement)
    → All P (before ++ c ∷ after)
    → P c
at_call P [] after c h = h.0
at_call P (d ∷ before) after c h = at_call P before after c h.1

pub other_calls :
    (P : Replacement → Type 0) (before after : List Replacement) (c : Replacement)
    → All P (before ++ c ∷ after)
    → All P (before ++ after)
other_calls P [] after c h = h.1
other_calls P (d ∷ before) after c h = (h.0, other_calls P before after c h.1)

pub in_flight-All :
    (P : ℕ → Type 0) (cs : List Replacement) → All P (in_flight cs) → All (λ c. P c.fresh) cs
in_flight-All P [] h = tt
in_flight-All P (c ∷ cs) h = (h.0, in_flight-All P cs h.1)

pub All-in_flight :
    (P : ℕ → Type 0) (cs : List Replacement) → All (λ c. P c.fresh) cs → All P (in_flight cs)
All-in_flight P [] h = tt
All-in_flight P (c ∷ cs) h = (h.0, All-in_flight P cs h.1)

pub held_without :
    (heap : ℕ → Process) (port : ℕ) (before after : List Replacement) (c : Replacement)
    → held heap port (in_flight (before ++ c ∷ after))
      ≡ held heap port (in_flight (before ++ after)) + has port (heap c.fresh)
held_without heap port [] after c = omega (arith, held-cons heap port c.fresh (in_flight after))
held_without heap port (d ∷ before) after c = omega (
  arith,
  held_without heap port before after c,
  held-cons heap port d.fresh (in_flight (before ++ c ∷ after)),
  held-cons heap port d.fresh (in_flight (before ++ after)),
)

module _ {Bitmap : Type 0} (B : PortBitmap Bitmap) where
  notified :
      (r : ℕ) (a : StopAction) (m : Manager Bitmap)
      → (us : List ℕ) × (notify B r a m ≡ record m { updates = us })
  unfolding notify
  notified r no_action m = (m.updates, refl)
  notified r graceful m = (r ∷ m.updates, refl)
  notified r timeout_kill m = (r ∷ m.updates, refl)

  -- cleanupReplacementProcess stops the process and releases its ports.
  pub cleanup_replacement-eq :
      (now r : ℕ) (m : Manager Bitmap)
      → let q = (request_stop now (m.heap r)).0 in
        (us : List ℕ) × (cleanup_replacement B now r m ≡ record m {
          heap = update m.heap r q;
          updates = us;
          available_ports = release_process_ports B m.available_ports q;
        })
  unfolding cleanup_replacement
  cleanup_replacement-eq now r m =
      let q = (request_stop now (m.heap r)).0 in
      let (us, e) =
        notified r (request_stop now (m.heap r)).1 (record m { heap = update m.heap r q }) in
      (
        us,
        ap
              (λ (m' : Manager Bitmap). record m' {
                available_ports = release_process_ports B m'.available_ports (m'.heap r);
              })
              e
            ∙ ap
                (λ (p : Process). record m {
                  heap = update m.heap r q;
                  updates = us;
                  available_ports = release_process_ports B m.available_ports p;
                })
                (update_self m.heap r q),
      )
