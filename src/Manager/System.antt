-- ===== src/Manager/System.antt =====
-- The process manager with the calls of ProcessReplace that are under way. A step is one section
-- under the manager's lock, or a change of one process under the lock of that process.
use longhorn_engine_launcher.Prelude.{ℕ, ◌+◌, ◌<◌, ◌≡◌, ◌≢◌, List, [], ◌∷◌, ◌++◌, All}
use longhorn_engine_launcher.Prelude.Int.{pos}
use longhorn_engine_launcher.Prelude.Text.{Text}
use longhorn_engine_launcher.Process.{Process}
use longhorn_engine_launcher.Ports.{PortBitmap, PortLaws, bit}
use longhorn_engine_launcher.Manager.{
  Manager, ok, err, Error, update, new_object, register_process, init_process_replace,
  commit_replace, cleanup_replacement, finish_unregister,
}
use longhorn_engine_launcher.Manager.Holding.{held, refs}
use longhorn_engine_launcher.Manager.PortArgs.{IsRange}

-- A call of ProcessReplace after its first section: the replacement, and what it is to replace.
pub record Replacement : Type 0 where
  pub fresh : ℕ
  pub old : ℕ

pub record System (Bitmap : Type 0) : Type 0 where
  pub manager : Manager Bitmap
  pub replacing : List Replacement

abbrev pub in_flight : List Replacement → List ℕ
in_flight [] = []
in_flight (c ∷ cs) = c.fresh ∷ in_flight cs

-- The processes that hold ports: those of the map, and the replacements under way.
abbrev pub owners : {Bitmap : Type 0} → System Bitmap → List ℕ
owners s = refs s.manager.processes ++ in_flight s.replacing

-- What `&Process{…}` of the two handlers gives: no ports yet, and a UUID that no process has.
pub record IsNew {Bitmap : Type 0} (m : Manager Bitmap) (p : Process) : Type 0 where
  pub no_start : p.port_start ≡ pos 0
  pub no_end : p.port_end ≡ pos 0
  pub new_uuid : (r : ℕ) → r < m.next_ref → (m.heap r).uuid ≢ p.uuid

-- A change of a process that leaves its name, its UUID and its ports alone.
pub record SameHolder (p : Process) (q : Process) : Type 0 where
  pub same_name : q.name ≡ p.name
  pub same_uuid : q.uuid ≡ p.uuid
  pub same_start : q.port_start ≡ p.port_start
  pub same_end : q.port_end ≡ p.port_end

module _ {Bitmap : Type 0} (B : PortBitmap Bitmap) where
  pub data Step (s : System Bitmap) (t : System Bitmap) : Type 0 where
    -- ProcessCreate: registerProcess, whatever it answers.
    creates :
        (p : Process)
        → IsNew s.manager p
        → t ≡ record s {
          manager = (register_process B s.manager.next_ref (new_object B p s.manager)).0;
        }
        → Step s t
    -- ProcessReplace: initProcessReplace has failed.
    replace_refused :
        (p : Process) (e : Error) (m : Manager Bitmap)
        → IsNew s.manager p
        → init_process_replace B s.manager.next_ref (new_object B p s.manager) ≡ (m, err e)
        → t ≡ record s { manager = m }
        → Step s t
    -- ProcessReplace: initProcessReplace has found a process with another binary.
    replace_begins :
        (p : Process) (old : ℕ) (m : Manager Bitmap)
        → IsNew s.manager p
        → init_process_replace B s.manager.next_ref (new_object B p s.manager) ≡ (m, ok old)
        → (m.heap old).binary ≢ p.binary
        → t ≡ record {
          manager = m;
          replacing = record { fresh = s.manager.next_ref; old = old } ∷ s.replacing;
        }
        → Step s t
    -- ProcessReplace: the last section has registered the replacement.
    replace_commits :
        (before after : List Replacement) (c : Replacement) (m : Manager Bitmap)
        → s.replacing ≡ before ++ c ∷ after
        → commit_replace B c.fresh c.old s.manager ≡ (m, ok tt)
        → t ≡ record { manager = m; replacing = before ++ after }
        → Step s t
    -- ProcessReplace: the replacement is given up, after a failed start or a refused last section.
    replace_gives_up :
        (before after : List Replacement) (c : Replacement) (now : ℕ)
        → s.replacing ≡ before ++ c ∷ after
        → t ≡ record {
          manager = cleanup_replacement B now c.fresh s.manager;
          replacing = before ++ after;
        }
        → Step s t
    -- The goroutine of unregisterProcess.
    unregisters :
        (r : ℕ)
        → r < s.manager.next_ref
        → t ≡ record s { manager = finish_unregister B r s.manager }
        → Step s t
    -- The goroutines of a process, and the condition check.
    changes :
        (r : ℕ) (q : Process)
        → SameHolder (s.manager.heap r) q
        → t ≡ record s { manager = record (s.manager) { heap = update s.manager.heap r q } }
        → Step s t

  -- ProcessReplace with the binary that the process has already: the early return.
  pub data SameBinary (s : System Bitmap) (t : System Bitmap) : Type 0 where
    returns_early :
        (p : Process) (old : ℕ)
        → IsNew s.manager p
        → (init_process_replace B s.manager.next_ref (new_object B p s.manager)).1 ≡ ok old
        → ((init_process_replace B s.manager.next_ref (new_object B p s.manager)).0.heap old).binary
          ≡ p.binary
        → t ≡ record s {
          manager = (init_process_replace B s.manager.next_ref (new_object B p s.manager)).0;
        }
        → SameBinary s t

  pub data Reach (s : System Bitmap) : System Bitmap → Type 0 where
    here : Reach s s
    next : {t u : System Bitmap} → Reach s t → Step t u → Reach s u

-- The ports of a process are a range of ports, or none.
abbrev pub HasRange : Process → Type 0
HasRange p =
    (first : ℕ) × (last : ℕ) × (p.port_start ≡ pos first)
    × (p.port_end ≡ pos last)
    × IsRange first last

-- Each entry is a process of that name.
abbrev pub Named : (ℕ → Process) → List (Text × ℕ) → Type 0
Named heap m = All (λ entry. (heap entry.1).name ≡ entry.0) m

module _ {Bitmap : Type 0} {B : PortBitmap Bitmap} (L : PortLaws B) where
  -- The account of the ports: each port of the pool is free, is lost, or has exactly one owner.
  pub record Inv (lost : ℕ → ℕ) (s : System Bitmap) : Type 0 where
    pub in_use : All (λ r. r < s.manager.next_ref) (owners s)
    pub old_in_use : All (λ c. c.old < s.manager.next_ref) s.replacing
    pub named : Named s.manager.heap s.manager.processes
    pub ranged : (r : ℕ) → r < s.manager.next_ref → HasRange (s.manager.heap r)
    pub distinct :
        (r q : ℕ)
        → r < s.manager.next_ref
        → q < s.manager.next_ref
        → (s.manager.heap r).uuid ≡ (s.manager.heap q).uuid
        → r ≡ q
    pub balanced :
        (port : ℕ)
        → 0 < port
        → held s.manager.heap port (owners s)
            + bit (PortLaws.free L s.manager.available_ports port)
            + lost port
          ≡ bit (PortLaws.managed L s.manager.available_ports port)
