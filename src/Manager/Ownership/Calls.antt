-- ===== src/Manager/Ownership/Calls.antt =====
-- The two ends of a call of ProcessReplace keep the account.
use longhorn_engine_launcher.Prelude.{
  ℕ, ◌+◌, ◌≤◌, ◌<◌, ◌≡◌, inl, inr, refl, sym, ap, ◌∙◌, Option, none, some, List, ◌∷◌, ◌++◌, All,
  arith, Option-cases, Bool-cases,
}
use longhorn_engine_launcher.Prelude.Text.{Text, text_eq, text_eq_sound}
use longhorn_engine_launcher.Prelude.Dict.{lookup, insert}
use longhorn_engine_launcher.Process.{Process, request_stop}
use longhorn_engine_launcher.Ports.{PortBitmap, PortLaws, bit}
use longhorn_engine_launcher.Manager.{
  Manager, Outcome, ok, err, Error, update, release_process_ports, commit_replace, commit_at,
  cleanup_replacement,
}
use longhorn_engine_launcher.Manager.Holding.{
  has, held, refs, held-append, held-insert_new, held-insert_over, held-erase, lookup-All,
}
use longhorn_engine_launcher.Manager.System.{
  System, Inv, owners, in_flight, Replacement, SameHolder, HasRange,
}
use longhorn_engine_launcher.Manager.Ownership.Growth.{All-append, Named-insert, in_use-insert}
use longhorn_engine_launcher.Manager.Ownership.Giving.{rebalanced-Inv, release-Returned, has_same}
use longhorn_engine_launcher.Manager.Ownership.Steps.{
  entries_in_use, calls_in_use, SameHolder-refl, update-SameHolder, request_stop-SameHolder,
}
use longhorn_engine_launcher.Manager.Ownership.Replacements.{
  at_call, other_calls, in_flight-All, All-in_flight, held_without, cleanup_replacement-eq,
}

err_ne_done : (e : Error) → err e ≡ ok tt → ⊥
err_ne_done e h = cc

module _ {Bitmap : Type 0} (B : PortBitmap Bitmap) (L : PortLaws B) (lost : ℕ → ℕ)
    (s : System Bitmap) (v : Inv L lost s) (before after : List Replacement) (c : Replacement)
    (calls : s.replacing ≡ before ++ c ∷ after) where
  open s use {manager}

  fresh_in_use : c.fresh < manager.next_ref
  fresh_in_use =
      at_call (λ d. d.fresh < manager.next_ref) before after c
        (in_flight-All (λ r. r < manager.next_ref) (before ++ c ∷ after)
          (rw calls at (calls_in_use B L lost s v)))

  old_used : c.old < manager.next_ref
  old_used = at_call (λ d. d.old < manager.next_ref) before after c (rw calls at v.old_in_use)

  others_in_use : All (λ r. r < manager.next_ref) (in_flight (before ++ after))
  others_in_use =
      All-in_flight (λ r. r < manager.next_ref) (before ++ after)
        (other_calls (λ d. d.fresh < manager.next_ref) before after c
          (in_flight-All (λ r. r < manager.next_ref) (before ++ c ∷ after)
            (rw calls at (calls_in_use B L lost s v))))

  old_others : All (λ d. d.old < manager.next_ref) (before ++ after)
  old_others = other_calls (λ d. d.old < manager.next_ref) before after c (rw calls at v.old_in_use)

  -- The port is held once less by the calls when this one ends.
  calls_less :
      (port : ℕ)
      → held manager.heap port (owners s)
        ≡ held manager.heap port (refs manager.processes)
          + held manager.heap port (in_flight (before ++ after))
          + has port (manager.heap c.fresh)
  calls_less port = omega (
    arith,
    held-append manager.heap port (refs manager.processes) (in_flight s.replacing),
    ap (λ (cs : List Replacement). held manager.heap port (in_flight cs)) calls,
    held_without manager.heap port before after c,
  )

  abbrev cleaned : Bitmap → (ℕ → Process) → List ℕ → System Bitmap
  cleaned b heap us = record {
    manager = record manager { heap = heap; updates = us; available_ports = b };
    replacing = before ++ after;
  }

  cleaned-Inv :
      (q : Process) (us : List ℕ)
      → SameHolder (manager.heap c.fresh) q
      → Inv L lost (
          cleaned
            (release_process_ports B manager.available_ports q)
            (update manager.heap c.fresh q)
            us)
  cleaned-Inv q us same =
      rebalanced-Inv B L lost s
        (cleaned (release_process_ports B manager.available_ports q) (update manager.heap c.fresh q)
          us)
        refl (λ x _. update-SameHolder manager.heap c.fresh q same x)
        (All-append manager.next_ref (refs manager.processes) (in_flight (before ++ after))
          (entries_in_use B L lost s v) others_in_use)
        old_others v.named account v
    where
      range : HasRange q
      range =
          let (first, last, hs, he, r) = v.ranged c.fresh fresh_in_use in
          (first, last, same.same_start ∙ hs, same.same_end ∙ he, r)

      account :
          (port : ℕ)
          → 0 < port
          → (held manager.heap port (refs manager.processes ++ in_flight (before ++ after))
                + bit (PortLaws.free L (release_process_ports B manager.available_ports q) port)
              ≡ held manager.heap port (owners s)
                + bit (PortLaws.free L manager.available_ports port))
            × (PortLaws.managed L (release_process_ports B manager.available_ports q) port
                ≡ PortLaws.managed L manager.available_ports port)
      account port hp =
          let (freed, managed) =
            release-Returned B L manager.available_ports q range
              (λ x hx. omega (arith, v.balanced x hx, calls_less x, has_same x same)) port hp in
          (
            omega (
              arith,
              freed,
              calls_less port,
              has_same port same,
              held-append manager.heap port (refs manager.processes) (in_flight (before ++ after)),
            ),
            managed,
          )

  -- A replacement that is given up gives its ports back.
  pub cleanup_replacement-Inv :
      (now : ℕ)
      → Inv L lost (record {
        manager = cleanup_replacement B now c.fresh manager;
        replacing = before ++ after;
      })
  cleanup_replacement-Inv now =
      let (us, e) = cleanup_replacement-eq B now c.fresh manager in
      rw e (
        cleaned-Inv (request_stop now (manager.heap c.fresh)).0 us
          (request_stop-SameHolder now (manager.heap c.fresh)))

  abbrev committed : Bitmap → System Bitmap
  committed b = record {
    manager = record manager {
      processes = insert (manager.heap c.fresh).name c.fresh manager.processes;
      available_ports = b;
    };
    replacing = before ++ after;
  }

  -- The replacement becomes the entry of its name; what the pool gains is what the entry held.
  committed-Inv :
      (b : Bitmap)
      → ((port : ℕ)
          → 0 < port
          → (held manager.heap port
                  (refs (insert (manager.heap c.fresh).name c.fresh manager.processes))
                + bit (PortLaws.free L b port)
              ≡ held manager.heap port (refs manager.processes)
                + has port (manager.heap c.fresh)
                + bit (PortLaws.free L manager.available_ports port))
            × (PortLaws.managed L b port ≡ PortLaws.managed L manager.available_ports port))
      → Inv L lost (committed b)
  committed-Inv b account =
      rebalanced-Inv B L lost s (committed b) refl (λ x _. SameHolder-refl (manager.heap x))
        (All-append manager.next_ref (refs entries) (in_flight (before ++ after))
          (in_use-insert manager.next_ref (manager.heap c.fresh).name c.fresh manager.processes
            fresh_in_use (entries_in_use B L lost s v))
          others_in_use)
        old_others
        (Named-insert manager.heap (manager.heap c.fresh).name c.fresh manager.processes refl
          v.named)
        (λ port h. (
          omega (
            arith,
            (account port h).0,
            calls_less port,
            held-append manager.heap port (refs entries) (in_flight (before ++ after)),
          ),
          (account port h).1,
        ))
        v
    where
      entries : List (Text × ℕ)
      entries = insert (manager.heap c.fresh).name c.fresh manager.processes

  commit_none :
      lookup (manager.heap c.fresh).name manager.processes ≡ none
      → Inv L lost (committed manager.available_ports)
  commit_none absent = committed-Inv manager.available_ports (λ port h. (
    omega (
      arith,
      held-insert_new manager.heap port (manager.heap c.fresh).name c.fresh manager.processes
          absent,
    ),
    refl,
  ))

  commit_over :
      lookup (manager.heap c.fresh).name manager.processes ≡ some c.old
      → Inv L lost
          (committed (release_process_ports B manager.available_ports (manager.heap c.old)))
  commit_over found =
      committed-Inv (release_process_ports B manager.available_ports (manager.heap c.old)) account
    where
      over :
          (port : ℕ)
          → held manager.heap port
                (refs (insert (manager.heap c.fresh).name c.fresh manager.processes))
              + has port (manager.heap c.old)
            ≡ held manager.heap port (refs manager.processes) + has port (manager.heap c.fresh)
      over port =
          held-insert_over manager.heap port (manager.heap c.fresh).name c.fresh c.old
            manager.processes found

      within :
          (port : ℕ)
          → has port (manager.heap c.old) ≤ held manager.heap port (refs manager.processes)
      within port = omega (
        arith,
        held-erase manager.heap port (manager.heap c.fresh).name c.old manager.processes found,
      )

      account :
          (port : ℕ)
          → 0 < port
          → (held manager.heap port
                  (refs (insert (manager.heap c.fresh).name c.fresh manager.processes))
                + bit (
                    PortLaws.free L
                      (release_process_ports B manager.available_ports (manager.heap c.old))
                      port)
              ≡ held manager.heap port (refs manager.processes)
                + has port (manager.heap c.fresh)
                + bit (PortLaws.free L manager.available_ports port))
            × (PortLaws.managed L
                  (release_process_ports B manager.available_ports (manager.heap c.old))
                  port
                ≡ PortLaws.managed L manager.available_ports port)
      account port h =
          let (freed, managed) =
            release-Returned B L manager.available_ports (manager.heap c.old)
              (v.ranged c.old old_used)
              (λ x hx. omega (arith, v.balanced x hx, calls_less x, within x)) port h in
          (omega (arith, freed, over port), managed)

  commit_found :
      (e : ℕ)
      → lookup (manager.heap c.fresh).name manager.processes ≡ some e
      → (m : Manager Bitmap) → commit_at B (some e) c.fresh c.old manager ≡ (m, ok tt)
      → Inv L lost (record { manager = m; replacing = before ++ after })
  unfolding commit_at
  commit_found e found m eq =
      elim (Bool-cases (text_eq (manager.heap e).uuid (manager.heap c.old).uuid)) [
        | inl same ↦
            let used =
              lookup-All (λ q. q < manager.next_ref) (manager.heap c.fresh).name e manager.processes
                found (entries_in_use B L lost s v) in
            let is_old = v.distinct e c.old used old_used (text_eq_sound _ _ same) in
            rw (sym (ap (λ (x : Manager Bitmap × Outcome (Unit {0})). x.0) (rw same at eq)))
              (commit_over (found ∙ ap some is_old))
        | inr other ↦
            absurd (
              err_ne_done _
                (ap (λ (x : Manager Bitmap × Outcome (Unit {0})). x.1) (rw other at eq)))
      ]

  -- A replacement that is registered keeps its ports, and the old process gives its ports back.
  pub commit_replace-Inv :
      (m : Manager Bitmap)
      → commit_replace B c.fresh c.old manager ≡ (m, ok tt)
      → Inv L lost (record { manager = m; replacing = before ++ after })
  unfolding commit_replace
  commit_replace-Inv m eq =
      elim (Option-cases (lookup (manager.heap c.fresh).name manager.processes)) [
        | inl absent ↦
            rw (sym (ap (λ (x : Manager Bitmap × Outcome (Unit {0})). x.0) (rw absent at eq)))
              (commit_none absent)
        | inr (e, found) ↦
            commit_found e found m
              (ap (λ (o : Option ℕ). commit_at B o c.fresh c.old manager) (sym found) ∙ eq)
      ]
