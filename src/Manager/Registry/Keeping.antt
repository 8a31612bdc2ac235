-- ===== src/Manager/Registry/Keeping.antt =====
-- ProcessCreate of pkg/process/process_manager.go leaves alone the objects in use, and refuses a
-- request that it does not accept.
use longhorn_engine_launcher.Prelude.{
  ℕ, ◌<◌, ◌≡◌, ◌⊎◌, inl, inr, refl, ◌∙◌, Bool, true, false, ◌||◌, Option, none, some, if◌then◌else◌,
  Bool-cases,
}
use longhorn_engine_launcher.Prelude.Text.{is_empty}
use longhorn_engine_launcher.Process.{Process}
use longhorn_engine_launcher.Ports.{PortBitmap}
use longhorn_engine_launcher.Manager.{
  Manager, Outcome, ok, err, Error, invalid_argument, logger_failed, new_object, register_process,
  register_at, register_new, allocate_process_ports, send,
}
use longhorn_engine_launcher.Manager.Handlers.{
  Env, ProcessSpec, new_process, process_create, created, start_process,
}
use longhorn_engine_launcher.Manager.Holding.{update_below}
use longhorn_engine_launcher.Manager.Registry.Creating.{IsAccepted}

module _ {Bitmap : Type 0} (B : PortBitmap Bitmap) where
  -- Objects in use are left alone when a new one is made and started.
  register_new-below :
      (r q : ℕ) (x : Bitmap × Process × Outcome (Unit {0})) (m : Manager Bitmap)
      → q < r
      → (register_new B r x m).0.heap q ≡ m.heap q
  unfolding register_new
  register_new-below r q (b, p, err e) m h = update_below m.heap r p q h
  register_new-below r q (b, p, ok u) m h = update_below m.heap r p q h

  register_at-below :
      (o : Option ℕ) (r q : ℕ) (m : Manager Bitmap)
      → q < r
      → (register_at B o r m).0.heap q ≡ m.heap q
  unfolding register_at
  register_at-below none r q m h =
      register_new-below r q (allocate_process_ports B m.available_ports (m.heap r)) m h
  register_at-below (some e) r q m h = refl

  created-below :
      (env : Env) (r q : ℕ) (x : Manager Bitmap × Outcome (Unit {0}))
      → q < r
      → (created B env r x).0.heap q ≡ x.0.heap q
  unfolding created send start_process
  created-below env r q (m, err e) h = refl
  created-below env r q (m, ok u) h = either (start_process B env r (send B r m)).1
    where
      either :
          (b : Bool)
          → (if b
                then send B r (start_process B env r (send B r m)).0
                else (start_process B env r (send B r m)).0).heap
              q
            ≡ m.heap q
      either true = update_below m.heap r _ q h
      either false = update_below m.heap r _ q h

  pub process_create-below :
      (env : Env) (spec : ProcessSpec) (m : Manager Bitmap) (q : ℕ)
      → q < m.next_ref
      → (process_create B env spec m).0.heap q ≡ m.heap q
  unfolding process_create register_process new_object
  process_create-below env spec m q h =
      elim (Bool-cases (is_empty spec.name || is_empty spec.binary)) [
        | inl e ↦ rw e refl
        | inr e ↦ elim (Bool-cases env.logger_fails) [
          | inl g ↦ rw (e, g) refl
          | inr g ↦
              rw (e, g)
                (created-below env m.next_ref q
                    (register_process B m.next_ref (new_object B (new_process env spec) m)) h
                  ∙ (register_at-below _ m.next_ref q (new_object B (new_process env spec) m) h
                      ∙ update_below m.heap m.next_ref (new_process env spec) q h))
        ]
      ]

  -- A request that is not accepted is refused, and nothing changes.
  pub IsAccepted-or_refused :
      (env : Env) (spec : ProcessSpec) (m : Manager Bitmap)
      → IsAccepted env spec ⊎ ((e : Error) × (process_create B env spec m ≡ (m, err e)))
  unfolding process_create
  IsAccepted-or_refused env spec m = elim (Bool-cases (is_empty spec.name)) [
    | inl n ↦ inr (invalid_argument, rw n refl)
    | inr n ↦ elim (Bool-cases (is_empty spec.binary)) [
      | inl b ↦ inr (invalid_argument, rw (n, b) refl)
      | inr b ↦ elim (Bool-cases env.logger_fails) [
        | inl g ↦ inr (logger_failed, rw (n, b, g) refl)
        | inr g ↦ inl (n, b, g)
      ]
    ]
  ]
