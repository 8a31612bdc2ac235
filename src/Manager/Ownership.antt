-- ===== src/Manager/Ownership.antt =====
-- The account of the ports of pkg/process/process_manager.go, over every history of the manager.
pub mod Growth
pub mod Placing
pub mod Sections
pub mod Accounting
pub mod Taking
pub mod Beginning
pub mod Giving
pub mod Steps
pub mod Replacements
pub mod Calls
use longhorn_engine_launcher.Prelude.{
  ℕ, suc, ◌+◌, ◌≤◌, ◌<◌, ◌≡◌, ◌≢◌, ◌⊎◌, inl, inr, refl, sym, ap, subst, ◌∙◌, Bool, true, false,
  List, [], ◌∷◌, ◌++◌, All, arith, none, some, Option, some-eq,
}
use longhorn_engine_launcher.Prelude.Int.{ℤ, pos}
use longhorn_engine_launcher.Prelude.Text.{Text}
use longhorn_engine_launcher.Prelude.Dict.{lookup}
use longhorn_engine_launcher.Process.{Process}
use longhorn_engine_launcher.Ports.{PortBitmap, PortLaws, bit, covers}
use longhorn_engine_launcher.Manager.{
  Manager, Outcome, ok, err, init_process_replace, new_object, new_manager, manager_of, manager_in,
  empty_manager,
}
use longhorn_engine_launcher.Manager.Holding.{has, held, refs, held-two, held-append}
use longhorn_engine_launcher.Manager.System.{
  System, Step, creates, replace_refused, replace_begins, replace_commits, replace_gives_up,
  unregisters, changes, SameBinary, returns_early, Reach, here, next, Inv, owners, in_flight,
}
use longhorn_engine_launcher.Util.{parse_manager_port_range}
use Taking.{created-Inv}
use Beginning.{refused_replace-Inv, begun_replace-Inv, leaked-Inv}
use Steps.{changed-Inv, finish_unregister-Inv}
use Calls.{commit_replace-Inv, cleanup_replacement-Inv}

bit-le_one : (b : Bool) → bit b ≤ 1
bit-le_one b = ground arith

no_room : (f m : Bool) (h l k : ℕ) → k ≡ 1 → h + bit f + (l + k) ≡ bit m → f ≡ false
no_room f m h l k e b = ground arith

module _ {Bitmap : Type 0} (B : PortBitmap Bitmap) (L : PortLaws B) where
  -- With a bitmap that keeps its laws, every step of the manager, the early return of
  -- ProcessReplace not among them, keeps the invariant, and with it the account of the ports: each
  -- port of the pool is free, or held by exactly one registered or replacing process, or was lost
  -- before.
  pub Step-Inv : (lost : ℕ → ℕ) {s t : System Bitmap} → Step B s t → Inv L lost s → Inv L lost t
  Step-Inv lost {s} (creates p new e) v = rw e (created-Inv B L lost s p new _ refl _ refl v)
  Step-Inv lost {s} (replace_refused p x m new h e) v =
      rw e (refused_replace-Inv B L lost s p new _ refl _ refl x m h v)
  Step-Inv lost {s} (replace_begins p old m new h other e) v =
      rw e (begun_replace-Inv B L lost s p new old m h v)
  Step-Inv lost {s} (replace_commits before after c m calls h e) v =
      rw e (commit_replace-Inv B L lost s v before after c calls m h)
  Step-Inv lost {s} (replace_gives_up before after c now calls e) v =
      rw e (cleanup_replacement-Inv B L lost s v before after c calls now)
  Step-Inv lost {s} (unregisters r h e) v = rw e (finish_unregister-Inv B L lost s v r h)
  Step-Inv lost {s} (changes r q h e) v = rw e (changed-Inv B L lost s v r q h)

  pub Reach-Inv : (lost : ℕ → ℕ) {s t : System Bitmap} → Reach B s t → Inv L lost s → Inv L lost t
  Reach-Inv lost here v = v
  Reach-Inv lost (next r st) v = Step-Inv lost st (Reach-Inv lost r v)

  -- The ports that the early return of ProcessReplace takes for the new process.
  abbrev pub leaked : System Bitmap → System Bitmap → ℕ → ℕ
  leaked s t port = has port (t.manager.heap s.manager.next_ref)

  -- The early return keeps the account of all other ports; the ports of the new process are lost.
  pub SameBinary-Inv :
      (lost : ℕ → ℕ) {s t : System Bitmap}
      → SameBinary B s t
      → Inv L lost s
      → Inv L (λ port. lost port + leaked s t port) t
  SameBinary-Inv lost {s} (returns_early p old new h same e) v =
      let r = init_process_replace B s.manager.next_ref (new_object B p s.manager) in
      rw e (leaked-Inv B L lost s p new old r.0 (ap (λ (o : Outcome ℕ). (r.0, o)) h) v)

  -- With a bitmap that keeps its laws, a port that an early return of ProcessReplace took is not
  -- free in any state that the steps of the manager reach from there.
  pub leaked_never_free :
      (lost : ℕ → ℕ) (s t u : System Bitmap) (port : ℕ)
      → Inv L lost s
      → SameBinary B s t
      → 0 < port
      → leaked s t port ≡ 1
      → Reach B t u
      → PortLaws.free L u.manager.available_ports port ≡ false
  leaked_never_free lost s t u port v early hp hl r =
      no_room (PortLaws.free L u.manager.available_ports port) _ _ (lost port) _ hl
        ((Reach-Inv (λ q. lost q + leaked s t q) r (SameBinary-Inv lost early v)).balanced port hp)

  empty_manager-Inv :
      (s e : ℤ) (b : Bitmap)
      → PortBitmap.new_bitmap B s e ≡ some b
      → Inv L (λ port. 0) (record { manager = empty_manager s e b; replacing = [] })
  unfolding held
  empty_manager-Inv s e b h = record {
    in_use = tt;
    old_in_use = tt;
    named = tt;
    ranged = λ r lt. absurd (omega arith);
    distinct = λ r q lt lq same. absurd (omega arith);
    balanced = λ port hp. omega (arith, ap bit (PortLaws.new_free L s e b h port));
  }

  -- A new manager has its ports free.
  pub new_manager-Inv :
      (port_range : Text) (m : Manager Bitmap)
      → new_manager B port_range ≡ some m
      → Inv L (λ port. 0) (record { manager = m; replacing = [] })
  unfolding new_manager
  new_manager-Inv port_range m h = from_range (parse_manager_port_range port_range) h
    where
      from_bitmap :
          (s e : ℤ) (o : Option Bitmap)
          → PortBitmap.new_bitmap B s e ≡ o
          → manager_of B s e o ≡ some m
          → Inv L (λ port. 0) (record { manager = m; replacing = [] })
      from_bitmap s e none hb hm = cc
      from_bitmap s e (some b) hb hm =
          subst (λ (x : Manager Bitmap). Inv L (λ port. 0) (record { manager = x; replacing = [] }))
            (some-eq hm) (empty_manager-Inv s e b hb)

      from_range :
          (o : Option (ℤ × ℤ))
          → manager_in B o ≡ some m
          → Inv L (λ port. 0) (record { manager = m; replacing = [] })
      from_range none hm = cc
      from_range (some (s, e)) hm = from_bitmap s e (PortBitmap.new_bitmap B s e) refl hm

  -- With a bitmap that keeps its laws, in every state that a new manager reaches by its steps, the
  -- early return of ProcessReplace not among them, registered processes of two names have no port
  -- in common, and a port of one of them is not free.
  pub reachable_ports_apart :
      (port_range : Text) (m : Manager Bitmap) (t : System Bitmap)
      → new_manager B port_range ≡ some m
      → Reach B (record { manager = m; replacing = [] }) t
      → (k j : Text) (r q : ℕ) → k ≢ j
      → lookup k t.manager.processes ≡ some r
      → lookup j t.manager.processes ≡ some q
      → (port : ℕ) → 0 < port
      → has port (t.manager.heap r)
          + has port (t.manager.heap q)
          + bit (PortLaws.free L t.manager.available_ports port)
        ≤ 1
  reachable_ports_apart port_range m t h reach k j r q ne hr hq port hp = omega (
    arith,
    (Reach-Inv (λ p. 0) reach (new_manager-Inv port_range m h)).balanced port hp,
    bit-le_one (PortLaws.managed L t.manager.available_ports port),
    held-two t.manager.heap port k j r q t.manager.processes ne hr hq,
    held-append t.manager.heap port (refs t.manager.processes) (in_flight t.replacing),
  )
