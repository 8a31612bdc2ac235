-- ===== src/Manager/Ownership/Steps.antt =====
-- The sections that give ports back keep the account.
use longhorn_engine_launcher.Prelude.{
  ℕ, ◌+◌, ◌<◌, ◌≡◌, inl, inr, refl, ap, ◌∙◌, true, false, some, List, ◌∷◌, All, arith, Option-cases,
  Bool-cases, ◌==◌, ==_iff,
}
use longhorn_engine_launcher.Prelude.Text.{text_eq_sound}
use longhorn_engine_launcher.Prelude.Dict.{lookup, erase}
use longhorn_engine_launcher.Process.{Process, request_stop, is_stopped}
use longhorn_engine_launcher.Ports.{PortBitmap, PortLaws, bit}
use longhorn_engine_launcher.Manager.{update, release_process_ports, finish_unregister, is_current}
use longhorn_engine_launcher.Manager.Holding.{has, held, refs, held-append, held-erase, lookup-All}
use longhorn_engine_launcher.Manager.System.{System, Inv, owners, in_flight, SameHolder}
use longhorn_engine_launcher.Manager.Ownership.Growth.{
  All-append_left, All-append_right, All-append, Named-erase, in_use-erase,
}
use longhorn_engine_launcher.Manager.Ownership.Giving.{rebalanced-Inv, release-Returned}

pub SameHolder-refl : (p : Process) → SameHolder p p
SameHolder-refl p = record {
  same_name = refl;
  same_uuid = refl;
  same_start = refl;
  same_end = refl;
}

pub update-SameHolder :
    (heap : ℕ → Process) (r : ℕ) (q : Process)
    → SameHolder (heap r) q
    → (x : ℕ) → SameHolder (heap x) (update heap r q x)
update-SameHolder heap r q h x = elim (Bool-cases (x == r)) [
  | inl e ↦ rw (e, (==_iff x r).0 e) h
  | inr e ↦ rw e (SameHolder-refl (heap x))
]

false_ne_true : false ≡ true → ⊥
false_ne_true h = cc

-- A stop request leaves name, UUID and ports alone.
pub request_stop-SameHolder : (now : ℕ) (p : Process) → SameHolder p (request_stop now p).0
unfolding request_stop
request_stop-SameHolder now p = ground arith

module _ {Bitmap : Type 0} (B : PortBitmap Bitmap) (L : PortLaws B) (lost : ℕ → ℕ)
    (s : System Bitmap) (v : Inv L lost s) where
  open s use {manager}

  pub entries_in_use : All (λ r. r < manager.next_ref) (refs manager.processes)
  entries_in_use =
      All-append_left manager.next_ref (refs manager.processes) (in_flight s.replacing) v.in_use

  pub calls_in_use : All (λ r. r < manager.next_ref) (in_flight s.replacing)
  calls_in_use =
      All-append_right manager.next_ref (refs manager.processes) (in_flight s.replacing) v.in_use

  pub changed-Inv :
      (r : ℕ) (q : Process)
      → SameHolder (manager.heap r) q
      → Inv L lost (record s { manager = record manager { heap = update manager.heap r q } })
  changed-Inv r q h =
      rebalanced-Inv B L lost s
        (record s { manager = record manager { heap = update manager.heap r q } }) refl
        (λ x _. update-SameHolder manager.heap r q h x) v.in_use v.old_in_use v.named
        (λ port _. (refl, refl)) v

  -- Two objects in use with one UUID are one object.
  current_ref :
      (r : ℕ)
      → r < manager.next_ref
      → is_current B r manager ≡ true
      → lookup (manager.heap r).name manager.processes ≡ some r
  unfolding is_current
  current_ref r h e = elim (Option-cases (lookup (manager.heap r).name manager.processes)) [
    | inl absent ↦ absurd (false_ne_true (rw absent at e))
    | inr (x, found) ↦
        let used =
          lookup-All (λ q. q < manager.next_ref) (manager.heap r).name x manager.processes found
            entries_in_use in
        found ∙ ap some (v.distinct x r used h (text_eq_sound _ _ (rw found at e)))
  ]

  removed-Inv :
      (r : ℕ) (us : List ℕ)
      → r < manager.next_ref
      → lookup (manager.heap r).name manager.processes ≡ some r
      → Inv L lost (record s {
        manager = record manager {
          processes = erase (manager.heap r).name manager.processes;
          available_ports = release_process_ports B manager.available_ports (manager.heap r);
          updates = us;
        };
      })
  removed-Inv r us h e =
      rebalanced-Inv B L lost s t refl (λ x _. SameHolder-refl (manager.heap x))
        (All-append manager.next_ref (refs t.manager.processes) (in_flight s.replacing)
          (in_use-erase manager.next_ref (manager.heap r).name manager.processes entries_in_use)
          calls_in_use)
        v.old_in_use (Named-erase manager.heap (manager.heap r).name manager.processes v.named)
        account v
    where
      t : System Bitmap
      t = record s {
        manager = record manager {
          processes = erase (manager.heap r).name manager.processes;
          available_ports = release_process_ports B manager.available_ports (manager.heap r);
          updates = us;
        };
      }

      without :
          (port : ℕ)
          → held manager.heap port (owners t) + has port (manager.heap r)
            ≡ held manager.heap port (owners s)
      without port = omega (
        arith,
        held-append manager.heap port (refs manager.processes) (in_flight s.replacing),
        held-append manager.heap port (refs t.manager.processes) (in_flight s.replacing),
        held-erase manager.heap port (manager.heap r).name r manager.processes e,
      )

      account :
          (port : ℕ)
          → 0 < port
          → (held manager.heap port (owners t)
                + bit (PortLaws.free L t.manager.available_ports port)
              ≡ held manager.heap port (owners s)
                + bit (PortLaws.free L manager.available_ports port))
            × (PortLaws.managed L t.manager.available_ports port
                ≡ PortLaws.managed L manager.available_ports port)
      account port hp =
          let (freed, managed) =
            release-Returned B L manager.available_ports (manager.heap r) (v.ranged r h)
              (λ q hq. omega (arith, v.balanced q hq, without q)) port hp in
          (omega (arith, freed, without port), managed)

  pub announced-Inv :
      (us : List ℕ) → Inv L lost (record s { manager = record manager { updates = us } })
  announced-Inv us =
      rebalanced-Inv B L lost s (record s { manager = record manager { updates = us } }) refl
        (λ x _. SameHolder-refl (manager.heap x)) v.in_use v.old_in_use v.named
        (λ port _. (refl, refl)) v

  -- The goroutine of unregisterProcess keeps the account.
  pub finish_unregister-Inv :
      (r : ℕ)
      → r < manager.next_ref
      → Inv L lost (record s { manager = finish_unregister B r manager })
  unfolding finish_unregister
  finish_unregister-Inv r h = elim (Bool-cases (is_stopped (manager.heap r))) [
    | inl ended ↦ rw ended (elim (Bool-cases (is_current B r manager)) [
      | inl current ↦ rw current (removed-Inv r (r ∷ manager.updates) h (current_ref r h current))
      | inr other ↦ rw other (announced-Inv (r ∷ manager.updates))
    ])
    | inr running ↦ rw running v
  ]
