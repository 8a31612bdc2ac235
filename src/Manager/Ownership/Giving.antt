-- ===== src/Manager/Ownership/Giving.antt =====
-- The steps that give ports back, and those that change one process.
use longhorn_engine_launcher.Prelude.{
  ℕ, ◌+◌, ◌≤◌, ◌<◌, ◌≡◌, inl, inr, refl, sym, ap, ap₂, ◌∙◌, Bool, true, List, [], ◌∷◌, All, arith,
  ◌||◌,
}
use longhorn_engine_launcher.Prelude.Int.{ℤ, pos}
use longhorn_engine_launcher.Prelude.Text.{Text}
use longhorn_engine_launcher.Process.{Process}
use longhorn_engine_launcher.Ports.{PortBitmap, PortLaws, bit, covers}
use longhorn_engine_launcher.Manager.{release_ports, release_process_ports}
use longhorn_engine_launcher.Manager.Holding.{has, held, refs, held-below}
use longhorn_engine_launcher.Manager.System.{
  System, Inv, owners, in_flight, Named, SameHolder, HasRange,
}
use longhorn_engine_launcher.Manager.Ownership.Growth.{All-append_left}

pub has_same : (port : ℕ) {p q : Process} → SameHolder p q → has port q ≡ has port p
has_same port {p} {q} h = ap₂ (λ (s e : ℤ). bit (covers s e port)) h.same_start h.same_end

module _ {Bitmap : Type 0} (B : PortBitmap Bitmap) (L : PortLaws B) where
  -- The pool manages the ports of the process, and none of them is free.
  abbrev Fits : Bitmap → Process → Type 0
  Fits b p =
      (port : ℕ)
      → 0 < port
      → has port p + bit (PortLaws.free L b port) ≤ bit (PortLaws.managed L b port)

  -- Exactly the ports of the process come back.
  abbrev Returned : Bitmap → Bitmap → Process → Type 0
  Returned b b' p =
      (port : ℕ)
      → 0 < port
      → (bit (PortLaws.free L b' port) ≡ bit (PortLaws.free L b port) + has port p)
        × (PortLaws.managed L b' port ≡ PortLaws.managed L b port)

  release_range_eq :
      (b : Bitmap) (first last : ℕ)
      → (release_ports B b (pos first) (pos last)).0
        ≡ (PortBitmap.release_range B b (pos first) (pos last)).0
  unfolding release_ports
  release_range_eq b first last = ground arith

  returned_bits :
      (f f' c : Bool) (m : Bool) → f' ≡ (c || f) → bit c + bit f ≤ bit m → bit f' ≡ bit f + bit c
  returned_bits f f' c m e h = ground arith

  release_process_ports-range :
      (b : Bitmap) (p : Process) (first last : ℕ)
      → p.port_start ≡ pos first
      → p.port_end ≡ pos last
      → release_process_ports B b p ≡ (PortBitmap.release_range B b (pos first) (pos last)).0
  unfolding release_process_ports
  release_process_ports-range b p first last hs he =
      ap₂ (λ (s e : ℤ). (release_ports B b s e).0) hs he ∙ release_range_eq b first last

  has_range :
      (p : Process) (first last port : ℕ)
      → p.port_start ≡ pos first
      → p.port_end ≡ pos last
      → has port p ≡ bit (covers (pos first) (pos last) port)
  has_range p first last port hs he = ap₂ (λ (s e : ℤ). bit (covers s e port)) hs he

  covers_none : (port : ℕ) → 0 < port → bit (covers (pos 0) (pos 0) port) ≡ 0
  covers_none port h = ground arith

  is_managed :
      (first last port : ℕ) (f m : Bool)
      → first ≤ port
      → port ≤ last
      → bit (covers (pos first) (pos last) port) + bit f ≤ bit m
      → m ≡ true
  is_managed first last port f m h k le = ground arith

  -- releaseProcessPorts gives the ports of a process back to the pool, and nothing else.
  pub release-Returned :
      (b : Bitmap) (p : Process)
      → HasRange p
      → Fits b p
      → Returned b (release_process_ports B b p) p
  release-Returned b p (first, last, hs, he, inl (z, z')) fits port h =
      rw
        (
          release_process_ports-range b p 0 0 (hs ∙ ap pos z) (he ∙ ap pos z'),
          PortLaws.release_none L b,
          has_range p 0 0 port (hs ∙ ap pos z) (he ∙ ap pos z'),
          covers_none port h,
        )
        (omega arith, refl)
  release-Returned b p (first, last, hs, he, inr (positive, ordered, bound)) fits port h =
      let (freed, managed) =
        PortLaws.release_free L b first last positive ordered
          (λ q hq kq.
            is_managed first last q (PortLaws.free L b q) (PortLaws.managed L b q) hq kq
              (rw (has_range p first last q hs he) at (fits q (omega arith))))
          port in
      rw (release_process_ports-range b p first last hs he, has_range p first last port hs he)
        (
          returned_bits (PortLaws.free L b port) _ (covers (pos first) (pos last) port)
              (PortLaws.managed L b port) freed
              (rw (has_range p first last port hs he) at (fits port h)),
          managed,
        )

  -- The rest of the invariant, where no object comes into use.
  pub rebalanced-Inv :
      (lost : ℕ → ℕ) (s t : System Bitmap)
      → t.manager.next_ref ≡ s.manager.next_ref
      → ((r : ℕ) → r < s.manager.next_ref → SameHolder (s.manager.heap r) (t.manager.heap r))
      → All (λ r. r < s.manager.next_ref) (owners t)
      → All (λ c. c.old < s.manager.next_ref) t.replacing
      → Named s.manager.heap t.manager.processes
      → ((port : ℕ)
          → 0 < port
          → (held s.manager.heap port (owners t)
                + bit (PortLaws.free L t.manager.available_ports port)
              ≡ held s.manager.heap port (owners s)
                + bit (PortLaws.free L s.manager.available_ports port))
            × (PortLaws.managed L t.manager.available_ports port
                ≡ PortLaws.managed L s.manager.available_ports port))
      → Inv L lost s
      → Inv L lost t
  rebalanced-Inv lost s t same_next same in_use old_in_use named account v = record {
    in_use = rw same_next in_use;
    old_in_use = rw same_next old_in_use;
    named =
        renamed t.manager.processes
          (All-append_left s.manager.next_ref (refs t.manager.processes) (in_flight t.replacing)
            in_use)
          named;
    ranged = λ r h.
        let lt : r < s.manager.next_ref = rw (← same_next) h in
        let (first, last, hs, he, range) = v.ranged r lt in
        (first, last, (same r lt).same_start ∙ hs, (same r lt).same_end ∙ he, range);
    distinct = λ r q hr hq e.
        let lr : r < s.manager.next_ref = rw (← same_next) hr in
        let lq : q < s.manager.next_ref = rw (← same_next) hq in
        v.distinct r q lr lq (sym (same r lr).same_uuid ∙ e ∙ (same q lq).same_uuid);
    balanced = λ port h. omega (
      arith,
      v.balanced port h,
      (account port h).0,
      ap bit (account port h).1,
      held-below s.manager.heap t.manager.heap port s.manager.next_ref (owners t)
          (λ r lt. has_same port (same r lt)) in_use,
    );
  }
    where
      renamed :
          (entries : List (Text × ℕ))
          → All (λ r. r < s.manager.next_ref) (refs entries)
          → Named s.manager.heap entries
          → Named t.manager.heap entries
      renamed [] h n = tt
      renamed ((k, r) ∷ entries) h n = ((same r h.0).same_name ∙ n.0, renamed entries h.1 n.1)
