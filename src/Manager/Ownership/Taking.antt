-- ===== src/Manager/Ownership/Taking.antt =====
-- The step of registerProcess takes ports.
use longhorn_engine_launcher.Prelude.{
  ℕ, suc, ◌+◌, ◌<◌, ◌≡◌, refl, ap, Option, none, some, All, arith,
}
use longhorn_engine_launcher.Prelude.Dict.{lookup, insert}
use longhorn_engine_launcher.Process.{Process}
use longhorn_engine_launcher.Ports.{PortBitmap, PortLaws}
use longhorn_engine_launcher.Manager.{
  Manager, Outcome, ok, err, update, new_object, allocate_process_ports, register_process,
}
use longhorn_engine_launcher.Manager.Holding.{
  has, held, refs, update_self, held-append, held-insert_new,
}
use longhorn_engine_launcher.Manager.System.{System, IsNew, Inv, owners, in_flight}
use longhorn_engine_launcher.Manager.Ownership.Growth.{
  Grown, Grown-processes, Named-Grown, in_use-Grown, old_in_use-Grown, All-append_left,
  All-append_right, All-append, Named-insert, in_use-insert,
}
use longhorn_engine_launcher.Manager.Ownership.Placing.{
  installed, installed-Grown, new_object-Grown, answer, allocate_process_ports-Placed, Placed,
}
use longhorn_engine_launcher.Manager.Ownership.Sections.{
  registered, register_process-exists, register_process-err, register_process-ok,
}
use longhorn_engine_launcher.Manager.Ownership.Accounting.{
  new_owner-Inv, installed-Left, idle_object-Inv, refused-Inv,
}

module _ {Bitmap : Type 0} (B : PortBitmap Bitmap) (L : PortLaws B) where
  registered-Inv :
      (lost : ℕ → ℕ) (s : System Bitmap) (p : Process)
      → IsNew s.manager p
      → lookup p.name s.manager.processes ≡ none
      → Inv L lost s
      → Inv L lost (record s { manager = registered B L p s.manager })
  registered-Inv lost s p new absent v =
      new_owner-Inv B L lost s t (Grown-processes (insert x.1.name r m.processes) g)
        (Named-insert heap' x.1.name r m.processes (ap (λ (q : Process). q.name) self)
          (Named-Grown m (installed B L p m) g m.processes entries v.named))
        (All-append (suc r) (refs (insert x.1.name r m.processes)) (in_flight s.replacing)
          (in_use-insert (suc r) x.1.name r m.processes (omega arith)
            (in_use-Grown m (installed B L p m) g (refs m.processes) entries))
          (in_use-Grown m (installed B L p m) g (in_flight s.replacing)
            (All-append_right r (refs m.processes) (in_flight s.replacing) v.in_use)))
        (old_in_use-Grown m (installed B L p m) g s.replacing v.old_in_use) gains
        (installed-Left B L p m new) v
    where
      m : Manager Bitmap
      m = s.manager

      r : ℕ
      r = m.next_ref

      x : Bitmap × Process × Outcome (Unit {0})
      x = allocate_process_ports B m.available_ports p

      t : System Bitmap
      t = record s { manager = registered B L p m }

      heap' : ℕ → Process
      heap' = (installed B L p m).heap

      g : Grown m (installed B L p m)
      g = installed-Grown B L p m new

      self : heap' r ≡ x.1
      self = update_self (update m.heap r p) r x.1

      placed : Placed B L m.available_ports p x
      placed = allocate_process_ports-Placed B L m.available_ports p new.no_start new.no_end

      entries : All (λ q. q < r) (refs m.processes)
      entries = All-append_left r (refs m.processes) (in_flight s.replacing) v.in_use

      gains :
          (port : ℕ) → held heap' port (owners t) ≡ held heap' port (owners s) + has port (heap' r)
      gains port = omega (
        arith,
        held-append heap' port (refs (insert x.1.name r m.processes)) (in_flight s.replacing),
        held-append heap' port (refs m.processes) (in_flight s.replacing),
        held-insert_new heap' port x.1.name r m.processes (rw placed.same_name absent),
      )

  pub created-Inv :
      (lost : ℕ → ℕ) (s : System Bitmap) (p : Process)
      → IsNew s.manager p
      → (o : Option ℕ) → lookup p.name s.manager.processes ≡ o
      → (a : Outcome (Unit {0})) → answer B L p s.manager ≡ a
      → Inv L lost s
      → Inv L lost (record s {
        manager = (register_process B s.manager.next_ref (new_object B p s.manager)).0;
      })
  created-Inv lost s p new (some e) h a ha v = rw (register_process-exists B L p s.manager e h) (
      idle_object-Inv B L lost s (new_object B p s.manager) (new_object-Grown B L p s.manager new)
        (unfold new_object in refl) (unfold new_object in refl) v)
  created-Inv lost s p new none h (err e) ha v =
      rw (register_process-err B L p s.manager e h ha) (refused-Inv B L lost s p e new ha v)
  created-Inv lost s p new none h (ok u) ha v =
      rw (register_process-ok B L p s.manager h ha) (registered-Inv lost s p new h v)
