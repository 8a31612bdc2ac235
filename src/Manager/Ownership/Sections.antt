-- ===== src/Manager/Ownership/Sections.antt =====
-- registerProcess and initProcessReplace: what they do to the map, the heap and the pool.
use longhorn_engine_launcher.Prelude.{ℕ, ◌≡◌, refl, ap, ◌∙◌, none, some, arith}
use longhorn_engine_launcher.Prelude.Dict.{lookup, insert}
use longhorn_engine_launcher.Process.{Process}
use longhorn_engine_launcher.Ports.{PortBitmap, PortLaws}
use longhorn_engine_launcher.Manager.{
  Manager, Outcome, ok, err, Error, update, new_object, allocate_process_ports, register_process,
  register_new, replace_init, register_at, replace_init_at, init_process_replace, already_exists,
  not_found,
}
use longhorn_engine_launcher.Manager.Holding.{update_self}
use longhorn_engine_launcher.Manager.Ownership.Placing.{installed, answer}

module _ {Bitmap : Type 0} (B : PortBitmap Bitmap) (L : PortLaws B) where
  -- The two sections look up the name of the new object, and allocate for it.
  pub register_process-at :
      (p : Process) (m : Manager Bitmap)
      → register_process B m.next_ref (new_object B p m)
        ≡ register_at B (lookup p.name m.processes) m.next_ref (new_object B p m)
  unfolding register_process new_object
  register_process-at p m =
      ap (λ (q : Process). register_at B (lookup q.name m.processes) m.next_ref (new_object B p m))
        (update_self m.heap m.next_ref p)

  pub register_at-none :
      (p : Process) (m : Manager Bitmap)
      → register_at B none m.next_ref (new_object B p m)
        ≡ register_new B m.next_ref
            (allocate_process_ports B m.available_ports p)
            (new_object B p m)
  unfolding register_at new_object
  register_at-none p m =
      ap
        (λ (q : Process).
          register_new B m.next_ref (allocate_process_ports B m.available_ports q)
            (new_object B p m))
        (update_self m.heap m.next_ref p)

  pub init_process_replace-at :
      (p : Process) (m : Manager Bitmap)
      → init_process_replace B m.next_ref (new_object B p m)
        ≡ replace_init_at B (lookup p.name m.processes) m.next_ref (new_object B p m)
  unfolding init_process_replace new_object
  init_process_replace-at p m =
      ap
        (λ (q : Process).
          replace_init_at B (lookup q.name m.processes) m.next_ref (new_object B p m))
        (update_self m.heap m.next_ref p)

  pub replace_init_at-some :
      (p : Process) (m : Manager Bitmap) (old : ℕ)
      → replace_init_at B (some old) m.next_ref (new_object B p m)
        ≡ replace_init B m.next_ref old
            (allocate_process_ports B m.available_ports p)
            (new_object B p m)
  unfolding replace_init_at new_object
  replace_init_at-some p m old =
      ap
        (λ (q : Process).
          replace_init B m.next_ref old (allocate_process_ports B m.available_ports q)
            (new_object B p m))
        (update_self m.heap m.next_ref p)

  register_new-err :
      (r : ℕ) (x : Bitmap × Process × Outcome (Unit {0})) (m : Manager Bitmap) (e : Error)
      → x.2 ≡ err e
      → register_new B r x m
        ≡ (record m { available_ports = x.0; heap = update m.heap r x.1 }, err e)
  unfolding register_new
  register_new-err r (b, q, ok u) m e h = cc
  register_new-err r (b, q, err e') m e h =
      ap
        (λ (o : Outcome (Unit {0})).
          (record m { available_ports = b; heap = update m.heap r q }, o))
        h

  register_new-ok :
      (r : ℕ) (x : Bitmap × Process × Outcome (Unit {0})) (m : Manager Bitmap)
      → x.2 ≡ ok tt
      → register_new B r x m ≡ (
        record m {
          available_ports = x.0;
          heap = update m.heap r x.1;
          processes = insert x.1.name r m.processes;
        },
        ok tt,
      )
  unfolding register_new
  register_new-ok r (b, q, ok u) m h = refl
  register_new-ok r (b, q, err e') m h = cc

  replace_init-err :
      (r old : ℕ) (x : Bitmap × Process × Outcome (Unit {0})) (m : Manager Bitmap) (e : Error)
      → x.2 ≡ err e
      → replace_init B r old x m
        ≡ (record m { available_ports = x.0; heap = update m.heap r x.1 }, err e)
  unfolding replace_init
  replace_init-err r old (b, q, ok u) m e h = cc
  replace_init-err r old (b, q, err e') m e h =
      ap (λ (e'' : Error). (record m { available_ports = b; heap = update m.heap r q }, err e''))
        (ground arith)

  replace_init-ok :
      (r old : ℕ) (x : Bitmap × Process × Outcome (Unit {0})) (m : Manager Bitmap)
      → x.2 ≡ ok tt
      → replace_init B r old x m
        ≡ (record m { available_ports = x.0; heap = update m.heap r x.1 }, ok old)
  unfolding replace_init
  replace_init-ok r old (b, q, ok u) m h = refl
  replace_init-ok r old (b, q, err e') m h = cc

  -- The manager with the new process in its map.
  abbrev pub registered : Process → Manager Bitmap → Manager Bitmap
  registered p m =
      let x = allocate_process_ports B m.available_ports p in
      record (installed B L p m) { processes = insert x.1.name m.next_ref m.processes }

  module _ (p : Process) (m : Manager Bitmap) where
    pub register_process-exists :
        (e : ℕ)
        → lookup p.name m.processes ≡ some e
        → register_process B m.next_ref (new_object B p m) ≡ (new_object B p m, err already_exists)
    unfolding register_at
    register_process-exists e h = register_process-at p m ∙ rw h

    pub register_process-err :
        (e : Error)
        → lookup p.name m.processes ≡ none
        → answer B L p m ≡ err e
        → register_process B m.next_ref (new_object B p m) ≡ (installed B L p m, err e)
    register_process-err e h ha =
        register_process-at p m
        ∙ rw h (
            register_at-none p m
            ∙ register_new-err m.next_ref (allocate_process_ports B m.available_ports p)
                (new_object B p m) e ha
            ∙ unfold new_object in refl)

    pub register_process-ok :
        lookup p.name m.processes ≡ none
        → answer B L p m ≡ ok tt
        → register_process B m.next_ref (new_object B p m) ≡ (registered p m, ok tt)
    register_process-ok h ha =
        register_process-at p m
        ∙ rw h (
            register_at-none p m
            ∙ register_new-ok m.next_ref (allocate_process_ports B m.available_ports p)
                (new_object B p m) ha
            ∙ unfold new_object in refl)

    pub init_process_replace-none :
        lookup p.name m.processes ≡ none
        → init_process_replace B m.next_ref (new_object B p m) ≡ (new_object B p m, err not_found)
    unfolding replace_init_at
    init_process_replace-none h = init_process_replace-at p m ∙ rw h

    pub init_process_replace-err :
        (old : ℕ) (e : Error)
        → lookup p.name m.processes ≡ some old
        → answer B L p m ≡ err e
        → init_process_replace B m.next_ref (new_object B p m) ≡ (installed B L p m, err e)
    init_process_replace-err old e h ha =
        init_process_replace-at p m
        ∙ rw h (
            replace_init_at-some p m old
            ∙ replace_init-err m.next_ref old (allocate_process_ports B m.available_ports p)
                (new_object B p m) e ha
            ∙ unfold new_object in refl)

    pub init_process_replace-ok :
        (old : ℕ)
        → lookup p.name m.processes ≡ some old
        → answer B L p m ≡ ok tt
        → init_process_replace B m.next_ref (new_object B p m) ≡ (installed B L p m, ok old)
    init_process_replace-ok old h ha =
        init_process_replace-at p m
        ∙ rw h (
            replace_init_at-some p m old
            ∙ replace_init-ok m.next_ref old (allocate_process_ports B m.available_ports p)
                (new_object B p m) ha
            ∙ unfold new_object in refl)
