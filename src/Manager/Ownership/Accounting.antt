-- ===== src/Manager/Ownership/Accounting.antt =====
-- The account of the ports when some leave the pool, for a new owner or for none.
use longhorn_engine_launcher.Prelude.{ℕ, ◌+◌, ◌<◌, ◌≡◌, refl, sym, ap, subst, All, arith}
use longhorn_engine_launcher.Process.{Process}
use longhorn_engine_launcher.Ports.{PortBitmap, PortLaws, bit}
use longhorn_engine_launcher.Manager.{Manager, err, Error, update, allocate_process_ports}
use longhorn_engine_launcher.Manager.Holding.{has, held, refs, update_self}
use longhorn_engine_launcher.Manager.System.{System, IsNew, Inv, owners, in_flight, Named}
use longhorn_engine_launcher.Manager.Ownership.Growth.{
  Grown, ranged-Grown, distinct-Grown, held-Grown, Named-Grown, in_use-Grown, old_in_use-Grown,
  All-append_left,
}
use longhorn_engine_launcher.Manager.Ownership.Placing.{
  installed, installed-Grown, answer, allocate_process_ports-Placed,
}

module _ {Bitmap : Type 0} (B : PortBitmap Bitmap) (L : PortLaws B) where
  -- `d` counts the ports that left the pool between two systems.
  abbrev pub Left : Manager Bitmap → Manager Bitmap → (ℕ → ℕ) → Type 0
  Left m m' d =
      (port : ℕ)
      → 0 < port
      → (bit (PortLaws.free L m'.available_ports port) + d port
          ≡ bit (PortLaws.free L m.available_ports port))
        × (PortLaws.managed L m'.available_ports port ≡ PortLaws.managed L m.available_ports port)

  -- Ports that leave the pool while the owners stay the same are lost.
  pub same_owners-Inv :
      (lost lost' d : ℕ → ℕ) (s t : System Bitmap)
      → Grown s.manager t.manager
      → t.manager.processes ≡ s.manager.processes
      → t.replacing ≡ s.replacing
      → Left s.manager t.manager d
      → ((port : ℕ) → lost' port ≡ lost port + d port)
      → Inv L lost s
      → Inv L lost' t
  same_owners-Inv lost lost' d s t g same_map same_calls left more v = record {
    old_in_use = rw same_calls (old_in_use-Grown s.manager t.manager g s.replacing v.old_in_use);
    in_use =
        in_use-Grown s.manager t.manager g (owners t)
          (subst (All (λ r. r < s.manager.next_ref)) (sym same) v.in_use);
    named = subst (Named t.manager.heap) (sym same_map) (
        Named-Grown s.manager t.manager g s.manager.processes
          (All-append_left s.manager.next_ref (refs s.manager.processes) (in_flight s.replacing)
            v.in_use)
          v.named);
    ranged = ranged-Grown s.manager t.manager g v.ranged;
    distinct = distinct-Grown s.manager t.manager g v.distinct;
    balanced = λ port h. omega (
      arith,
      v.balanced port h,
      (left port h).0,
      ap bit (left port h).1,
      held_same port,
      more port,
    );
  }
    where
      same : owners t ≡ owners s
      same = rw (same_map, same_calls)

      held_same :
          (port : ℕ) → held t.manager.heap port (owners t) ≡ held s.manager.heap port (owners s)
      held_same port = rw same (held-Grown s.manager t.manager g port (owners s) v.in_use)

  -- Ports that leave the pool for a new owner are accounted for.
  pub new_owner-Inv :
      (lost : ℕ → ℕ) (s t : System Bitmap)
      → Grown s.manager t.manager
      → Named t.manager.heap t.manager.processes
      → All (λ r. r < t.manager.next_ref) (owners t)
      → All (λ c. c.old < t.manager.next_ref) t.replacing
      → ((port : ℕ)
          → held t.manager.heap port (owners t)
            ≡ held t.manager.heap port (owners s) + has port (t.manager.heap s.manager.next_ref))
      → Left s.manager t.manager (λ port. has port (t.manager.heap s.manager.next_ref))
      → Inv L lost s
      → Inv L lost t
  new_owner-Inv lost s t g named in_use old_in_use gains left v = record {
    in_use = in_use;
    old_in_use = old_in_use;
    named = named;
    ranged = ranged-Grown s.manager t.manager g v.ranged;
    distinct = distinct-Grown s.manager t.manager g v.distinct;
    balanced = λ port h. omega (
      arith,
      v.balanced port h,
      (left port h).0,
      ap bit (left port h).1,
      gains port,
      held-Grown s.manager t.manager g port (owners s) v.in_use,
    );
  }

  pub installed-Left :
      (p : Process) (m : Manager Bitmap)
      → IsNew m p
      → Left m (installed B L p m) (λ port. has port ((installed B L p m).heap m.next_ref))
  installed-Left p m new port h =
      let placed = allocate_process_ports-Placed B L m.available_ports p new.no_start new.no_end in
      rw
        (update_self (update m.heap m.next_ref p) m.next_ref
          (allocate_process_ports B m.available_ports p).1)
        (placed.account port h)

  pub nothing_Left :
      (m m' : Manager Bitmap) → m'.available_ports ≡ m.available_ports → Left m m' (λ port. 0)
  nothing_Left m m' e port h = (rw e (omega arith), rw e)

  -- A new object that gets no ports and no entry.
  pub idle_object-Inv :
      (lost : ℕ → ℕ) (s : System Bitmap) (m : Manager Bitmap)
      → Grown s.manager m
      → m.processes ≡ s.manager.processes
      → m.available_ports ≡ s.manager.available_ports
      → Inv L lost s
      → Inv L lost (record s { manager = m })
  idle_object-Inv lost s m g same_map same_ports v =
      same_owners-Inv lost lost (λ port. 0) s (record s { manager = m }) g same_map refl
        (nothing_Left s.manager m same_ports) (λ port. omega arith) v

  pub refused-Inv :
      (lost : ℕ → ℕ) (s : System Bitmap) (p : Process) (e : Error)
      → IsNew s.manager p
      → answer B L p s.manager ≡ err e
      → Inv L lost s
      → Inv L lost (record s { manager = installed B L p s.manager })
  refused-Inv lost s p e new h v =
      let placed =
        allocate_process_ports-Placed B L s.manager.available_ports p new.no_start new.no_end in
      idle_object-Inv lost s (installed B L p s.manager) (installed-Grown B L p s.manager new) refl
        (placed.none_on_error e h) v
