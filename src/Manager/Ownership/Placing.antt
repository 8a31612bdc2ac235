-- ===== src/Manager/Ownership/Placing.antt =====
-- What registerProcess and initProcessReplace do with the answer of allocateProcessPorts.
use longhorn_engine_launcher.Prelude.{
  ℕ, suc, ◌+◌, ◌<◌, ◌≡◌, ◌⊎◌, inl, inr, refl, sym, ap, subst, ◌∙◌, arith,
}
use longhorn_engine_launcher.Prelude.Int.{pos}
use longhorn_engine_launcher.Process.{Process}
use longhorn_engine_launcher.Ports.{PortBitmap, PortLaws, bit}
use longhorn_engine_launcher.Manager.{
  Manager, Outcome, err, Error, update, new_object, allocate_process_ports,
}
use longhorn_engine_launcher.Manager.Holding.{has, update_self, update_below}
use longhorn_engine_launcher.Manager.PortArgs.{allocate_process_ports-cases}
use longhorn_engine_launcher.Manager.System.{IsNew, HasRange}
use longhorn_engine_launcher.Manager.Ownership.Growth.{Grown}

module _ {Bitmap : Type 0} (B : PortBitmap Bitmap) (L : PortLaws B) where
  -- What the two sections do with the answer of allocateProcessPorts.
  abbrev pub installed : Process → Manager Bitmap → Manager Bitmap
  installed p m =
      let x = allocate_process_ports B m.available_ports p in
      record m {
        available_ports = x.0;
        heap = update (update m.heap m.next_ref p) m.next_ref x.1;
        next_ref = suc m.next_ref;
      }

  abbrev pub answer : Process → Manager Bitmap → Outcome (Unit {0})
  answer p m = (allocate_process_ports B m.available_ports p).2

  -- The object keeps its name and its UUID; its ports are a range, and are what left the pool.
  pub record Placed (b : Bitmap) (p : Process) (x : Bitmap × Process × Outcome (Unit {0}))
      : Type 0 where
    pub same_name : x.1.name ≡ p.name
    pub same_uuid : x.1.uuid ≡ p.uuid
    pub in_range : HasRange x.1
    pub account :
        (port : ℕ)
        → 0 < port
        → (bit (PortLaws.free L x.0 port) + has port x.1 ≡ bit (PortLaws.free L b port))
          × (PortLaws.managed L x.0 port ≡ PortLaws.managed L b port)
    pub none_on_error : (e : Error) → x.2 ≡ err e → x.0 ≡ b

  no_has :
      (p : Process) (port : ℕ)
      → p.port_start ≡ pos 0
      → p.port_end ≡ pos 0
      → 0 < port
      → has port p ≡ 0
  no_has p port hs he h = rw (hs, he) (ground arith)

  no_range : (p : Process) → p.port_start ≡ pos 0 → p.port_end ≡ pos 0 → HasRange p
  no_range p hs he = (0, 0, hs, he, inl (refl, refl))

  nothing_taken :
      (b : Bitmap) (p q : Process) (e : Error)
      → p.port_start ≡ pos 0
      → p.port_end ≡ pos 0
      → (q ≡ p) ⊎ (q ≡ record p { port_start = pos 0; port_end = pos 0 })
      → Placed b p (b, q, err e)
  nothing_taken b p q e hs he (inl same) = record {
    same_name = ap (λ x. x.name) same;
    same_uuid = ap (λ x. x.uuid) same;
    in_range = rw same (no_range p hs he);
    account = λ port h. (rw (same, no_has p port hs he h) (omega arith), refl);
    none_on_error = λ e' _. refl;
  }
  nothing_taken b p q e hs he (inr same) = record {
    same_name = ap (λ x. x.name) same;
    same_uuid = ap (λ x. x.uuid) same;
    in_range = rw same (0, 0, refl, refl, inl (refl, refl));
    account = λ port h. (
      rw (same, no_has (record p { port_start = pos 0; port_end = pos 0 }) port refl refl h)
          (omega arith),
      refl,
    );
    none_on_error = λ e' _. refl;
  }

  pub allocate_process_ports-Placed :
      (b : Bitmap) (p : Process)
      → p.port_start ≡ pos 0
      → p.port_end ≡ pos 0
      → Placed b p (allocate_process_ports B b p)
  allocate_process_ports-Placed b p hs he = elim (allocate_process_ports-cases B L b p) [
    | inl (e, q, eq, same, _) ↦ subst (Placed b p) (sym eq) (nothing_taken b p q e hs he same)
    | inr (b', first, last, eq, range, takes, _) ↦ subst (Placed b p) (sym eq) (record {
      same_name = refl;
      same_uuid = refl;
      in_range = (first, last, refl, refl, range);
      account = takes;
      none_on_error = λ e h. cc;
    })
  ]

  pub installed-Grown : (p : Process) (m : Manager Bitmap) → IsNew m p → Grown m (installed p m)
  installed-Grown p m new =
      let placed = allocate_process_ports-Placed m.available_ports p new.no_start new.no_end in
      let x = (allocate_process_ports B m.available_ports p).1 in
      record {
        one_more = refl;
        same_below = λ r h.
            update_below (update m.heap m.next_ref p) m.next_ref x r h
            ∙ update_below m.heap m.next_ref p r h;
        new_range = rw (update_self (update m.heap m.next_ref p) m.next_ref x) placed.in_range;
        new_uuid = λ r h e.
            new.new_uuid r h
              (e ∙ rw (update_self (update m.heap m.next_ref p) m.next_ref x) placed.same_uuid);
      }

  pub new_object-Grown : (p : Process) (m : Manager Bitmap) → IsNew m p → Grown m (new_object B p m)
  unfolding new_object
  new_object-Grown p m new = record {
    one_more = refl;
    same_below = λ r h. update_below m.heap m.next_ref p r h;
    new_range = rw (update_self m.heap m.next_ref p) (no_range p new.no_start new.no_end);
    new_uuid = λ r h e.
        new.new_uuid r h (e ∙ ap (λ (q : Process). q.uuid) (update_self m.heap m.next_ref p));
  }
