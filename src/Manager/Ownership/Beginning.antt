-- ===== src/Manager/Ownership/Beginning.antt =====
-- The step of initProcessReplace takes ports.
use longhorn_engine_launcher.Prelude.{
  ℕ, suc, ◌+◌, ◌<◌, ◌≡◌, refl, sym, ap, ◌∙◌, Option, none, some, ◌∷◌, ◌++◌, All, arith,
}
use longhorn_engine_launcher.Prelude.Dict.{lookup}
use longhorn_engine_launcher.Process.{Process}
use longhorn_engine_launcher.Ports.{PortBitmap, PortLaws}
use longhorn_engine_launcher.Manager.{
  Manager, Outcome, ok, err, Error, new_object, init_process_replace,
}
use longhorn_engine_launcher.Manager.Holding.{has, held, refs, held-append, held-cons, lookup-All}
use longhorn_engine_launcher.Manager.System.{System, IsNew, Inv, owners, in_flight}
use longhorn_engine_launcher.Manager.Ownership.Growth.{
  Grown, Named-Grown, in_use-Grown, old_in_use-Grown, All-append_left, All-append_right, All-append,
}
use longhorn_engine_launcher.Manager.Ownership.Placing.{
  installed, installed-Grown, new_object-Grown, answer,
}
use longhorn_engine_launcher.Manager.Ownership.Sections.{
  init_process_replace-none, init_process_replace-err, init_process_replace-ok,
}
use longhorn_engine_launcher.Manager.Ownership.Accounting.{
  same_owners-Inv, new_owner-Inv, installed-Left, idle_object-Inv, refused-Inv,
}

err_ne_ok : (e : Error) (r : ℕ) → err e ≡ ok r → ⊥
err_ne_ok e r h = cc

ok-injective : (r q : ℕ) → ok r ≡ ok q → r ≡ q
ok-injective r q h = cc

ok_ne_err : (e : Error) (r : ℕ) → ok r ≡ err e → ⊥
ok_ne_err e r h = cc

module _ {Bitmap : Type 0} (B : PortBitmap Bitmap) (L : PortLaws B) where
  -- A replacement whose ports were taken, and that is not given back.
  begun-Inv :
      (lost : ℕ → ℕ) (s : System Bitmap) (p : Process) (old : ℕ)
      → IsNew s.manager p
      → old < s.manager.next_ref
      → Inv L lost s
      → Inv L lost (record {
        manager = installed B L p s.manager;
        replacing = record { fresh = s.manager.next_ref; old = old } ∷ s.replacing;
      })
  begun-Inv lost s p old new old_used v =
      new_owner-Inv B L lost s
        (record {
          manager = installed B L p m;
          replacing = record { fresh = r; old = old } ∷ s.replacing;
        })
        g (Named-Grown m (installed B L p m) g m.processes entries v.named)
        (All-append (suc r) (refs m.processes) (r ∷ in_flight s.replacing)
          (in_use-Grown m (installed B L p m) g (refs m.processes) entries)
          (
            omega arith,
            in_use-Grown m (installed B L p m) g (in_flight s.replacing)
                (All-append_right r (refs m.processes) (in_flight s.replacing) v.in_use),
          ))
        (omega arith, old_in_use-Grown m (installed B L p m) g s.replacing v.old_in_use) gains
        (installed-Left B L p m new) v
    where
      m : Manager Bitmap
      m = s.manager

      r : ℕ
      r = m.next_ref

      heap' : ℕ → Process
      heap' = (installed B L p m).heap

      g : Grown m (installed B L p m)
      g = installed-Grown B L p m new

      entries : All (λ q. q < r) (refs m.processes)
      entries = All-append_left r (refs m.processes) (in_flight s.replacing) v.in_use

      gains :
          (port : ℕ)
          → held heap' port (refs m.processes ++ r ∷ in_flight s.replacing)
            ≡ held heap' port (owners s) + has port (heap' r)
      gains port = omega (
        arith,
        held-append heap' port (refs m.processes) (r ∷ in_flight s.replacing),
        held-append heap' port (refs m.processes) (in_flight s.replacing),
        held-cons heap' port r (in_flight s.replacing),
      )

  module _ (lost : ℕ → ℕ) (s : System Bitmap) (p : Process) (new : IsNew s.manager p) where
    -- What initProcessReplace leaves when it fails.
    pub refused_replace-Inv :
        (o : Option ℕ)
        → lookup p.name s.manager.processes ≡ o
        → (a : Outcome (Unit {0})) → answer B L p s.manager ≡ a
        → (e : Error) (m : Manager Bitmap)
        → init_process_replace B s.manager.next_ref (new_object B p s.manager) ≡ (m, err e)
        → Inv L lost s
        → Inv L lost (record s { manager = m })
    refused_replace-Inv none h a ha e m eq v =
        let same =
          ap (λ (x : Manager Bitmap × Outcome ℕ). x.0)
            (sym eq ∙ init_process_replace-none B L p s.manager h) in
        rw same (
          idle_object-Inv B L lost s (new_object B p s.manager)
            (new_object-Grown B L p s.manager new) (unfold new_object in refl)
            (unfold new_object in refl) v)
    refused_replace-Inv (some old) h (err e') ha e m eq v =
        let same =
          ap (λ (x : Manager Bitmap × Outcome ℕ). x.0)
            (sym eq ∙ init_process_replace-err B L p s.manager old e' h ha) in
        rw same (refused-Inv B L lost s p e' new ha v)
    refused_replace-Inv (some old) h (ok u) ha e m eq v = absurd (
        err_ne_ok e old (
          ap (λ (x : Manager Bitmap × Outcome ℕ). x.1)
            (sym eq ∙ init_process_replace-ok B L p s.manager old h ha)))

    granted_replace :
        (o : Option ℕ)
        → lookup p.name s.manager.processes ≡ o
        → (a : Outcome (Unit {0})) → answer B L p s.manager ≡ a
        → (old : ℕ) (m : Manager Bitmap)
        → init_process_replace B s.manager.next_ref (new_object B p s.manager) ≡ (m, ok old)
        → (m ≡ installed B L p s.manager) × (lookup p.name s.manager.processes ≡ some old)
    granted_replace none h a ha old m eq = absurd (
        ok_ne_err _ old (
          ap (λ (x : Manager Bitmap × Outcome ℕ). x.1)
            (sym eq ∙ init_process_replace-none B L p s.manager h)))
    granted_replace (some old') h (err e') ha old m eq = absurd (
        ok_ne_err e' old (
          ap (λ (x : Manager Bitmap × Outcome ℕ). x.1)
            (sym eq ∙ init_process_replace-err B L p s.manager old' e' h ha)))
    granted_replace (some old') h (ok u) ha old m eq =
        let same = sym eq ∙ init_process_replace-ok B L p s.manager old' h ha in
        (
          ap (λ (x : Manager Bitmap × Outcome ℕ). x.0) same,
          h
              ∙ ap some
                  (ok-injective old' old (sym (ap (λ (x : Manager Bitmap × Outcome ℕ). x.1) same))),
        )

    pub begun_replace-Inv :
        (old : ℕ) (m : Manager Bitmap)
        → init_process_replace B s.manager.next_ref (new_object B p s.manager) ≡ (m, ok old)
        → Inv L lost s
        → Inv L lost (record {
          manager = m;
          replacing = record { fresh = s.manager.next_ref; old = old } ∷ s.replacing;
        })
    begun_replace-Inv old m eq v =
        let granted = granted_replace _ refl _ refl old m eq in
        let entries =
          All-append_left s.manager.next_ref (refs s.manager.processes) (in_flight s.replacing)
            v.in_use in
        rw granted.0 (
          begun-Inv lost s p old new
            (lookup-All (λ r. r < s.manager.next_ref) p.name old s.manager.processes granted.1
              entries)
            v)

    -- The same where nobody becomes the owner: the ports of the new object are lost.
    pub leaked-Inv :
        (old : ℕ) (m : Manager Bitmap)
        → init_process_replace B s.manager.next_ref (new_object B p s.manager) ≡ (m, ok old)
        → Inv L lost s
        → Inv L
            (λ port. lost port + has port (m.heap s.manager.next_ref))
            (record s { manager = m })
    leaked-Inv old m eq v = rw ((granted_replace _ refl _ refl old m eq).0) (
        same_owners-Inv B L lost _
          (λ port. has port ((installed B L p s.manager).heap s.manager.next_ref)) s
          (record s { manager = installed B L p s.manager }) (installed-Grown B L p s.manager new)
          refl refl (installed-Left B L p s.manager new) (λ port. refl) v)
