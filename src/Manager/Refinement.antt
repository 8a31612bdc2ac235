-- ===== src/Manager/Refinement.antt =====
-- The process manager of pkg/process/process_manager.go as an abstract registry: what a name stands
-- for, without references, ports and the update channel.
use longhorn_engine_launcher.Prelude.{
  ℕ, ◌<◌, ◌≡◌, ◌⊎◌, inl, inr, refl, ap, fun_ext, ◌∙◌, Bool, true, false, Option, none, some, List,
  [], ◌∷◌, All, if◌then◌else◌, Bool-cases, Option-cases,
}
use longhorn_engine_launcher.Prelude.Text.{Text, text_eq}
use longhorn_engine_launcher.Prelude.Dict.{lookup, lookup-insert}
use longhorn_engine_launcher.Process.{ProcessResponse, rpc_response}
use longhorn_engine_launcher.Ports.{PortBitmap, PortLaws}
use longhorn_engine_launcher.Manager.{Manager, Outcome, ok, err, Error, not_found, already_exists}
use longhorn_engine_launcher.Manager.Handlers.{
  Env, ProcessSpec, new_process, process_create, process_get, process_list, list_from, get_found,
}
use longhorn_engine_launcher.Manager.Holding.{refs, lookup-All}
use longhorn_engine_launcher.Manager.System.{Named}
use longhorn_engine_launcher.Manager.Ownership.Placing.{answer}
use longhorn_engine_launcher.Manager.Registry.Creating.{
  IsAccepted, process_create-exists, process_create-no_ports, process_create-ok,
}
use longhorn_engine_launcher.Manager.Registry.Keeping.{process_create-below, IsAccepted-or_refused}

-- An abstract registry says what is known of the process of a name.
abbrev pub Registry : Type 0
Registry = Text → Option ProcessResponse

abbrev pub set : Text → ProcessResponse → Registry → Registry
set name p s j = if text_eq name j then some p else s j

-- Making a process either fails and changes nothing, or binds a name that was free to what is
-- answered.
abbrev pub Creates : Registry → Text → Outcome ProcessResponse → Registry → Type 0
Creates s name (ok p) t = (s name ≡ none) × (t ≡ set name p s)
Creates s name (err e) t = t ≡ s

-- Getting a process.
abbrev pub gets : Option ProcessResponse → Outcome ProcessResponse
gets none = err not_found
gets (some p) = ok p

module _ {Bitmap : Type 0} where
  abbrev pub described : Option ℕ → Manager Bitmap → Option ProcessResponse
  described none m = none
  described (some r) m = some (rpc_response (m.heap r))

  -- The registry that the manager stands for.
  abbrev pub registry : Manager Bitmap → Registry
  registry m name = described (lookup name m.processes) m

  -- The references of the entries are in use.
  abbrev pub InUse : Manager Bitmap → Type 0
  InUse m = All (λ r. r < m.next_ref) (refs m.processes)

described-same :
    {Bitmap : Type 0} (m m' : Manager Bitmap) (o : Option ℕ)
    → ((r : ℕ) → o ≡ some r → m'.heap r ≡ m.heap r)
    → described o m' ≡ described o m
described-same m m' none h = refl
described-same m m' (some r) h = rw (h r refl) refl

-- With the same entries for the same objects, the registry is the same.
registry-same :
    {Bitmap : Type 0} (m m' : Manager Bitmap)
    → InUse m
    → m'.processes ≡ m.processes
    → ((r : ℕ) → r < m.next_ref → m'.heap r ≡ m.heap r)
    → registry m' ≡ registry m
registry-same m m' used same_map same_heap = fun_ext (λ j.
    ap (λ (entries : List (Text × ℕ)). described (lookup j entries) m') same_map
    ∙ described-same m m' (lookup j m.processes)
        (λ r e. same_heap r (lookup-All (λ q. q < m.next_ref) j r m.processes e used)))

Creates-err :
    (name : Text) (s t : Registry) (o : Outcome ProcessResponse) (e : Error)
    → o ≡ err e
    → t ≡ s
    → Creates s name o t
Creates-err name s t o e h same = rw h same

Creates-ok :
    (name : Text) (s t : Registry) (o : Outcome ProcessResponse) (p : ProcessResponse)
    → o ≡ ok p
    → s name ≡ none
    → t ≡ set name p s
    → Creates s name o t
Creates-ok name s t o p h free bound = rw h (free, bound)

Outcome-cases : (o : Outcome (Unit {0})) → ((e : Error) × (o ≡ err e)) ⊎ (o ≡ ok tt)
Outcome-cases (ok u) = inr refl
Outcome-cases (err e) = inl (e, refl)

module _ {Bitmap : Type 0} (B : PortBitmap Bitmap) where
  created-registry :
      (L : PortLaws B) (env : Env) (spec : ProcessSpec) (m : Manager Bitmap)
      → InUse m
      → IsAccepted env spec
      → lookup spec.name m.processes ≡ none
      → answer B L (new_process env spec) m ≡ ok tt
      → let x = (process_create B env spec m).0 in
        registry x ≡ set spec.name (rpc_response (x.heap m.next_ref)) (registry m)
  created-registry L env spec m used accepted absent granted = fun_ext (λ j.
      let x = (process_create B env spec m).0 in
      bound j (lookup j x.processes)
        ((process_create-ok B L env spec m j accepted absent granted).0))
    where
      bound :
          (j : Text) (o : Option ℕ)
          → o ≡ (if text_eq spec.name j then some m.next_ref else lookup j m.processes)
          → described o (process_create B env spec m).0
            ≡ set spec.name
                (rpc_response ((process_create B env spec m).0.heap m.next_ref))
                (registry m)
                j
      bound j o e = elim (Bool-cases (text_eq spec.name j)) [
        | inl h ↦ rw (e, h) refl
        | inr h ↦
            rw (e, h)
              (described-same m (process_create B env spec m).0 (lookup j m.processes) (λ r found.
                process_create-below B env spec m r
                  (lookup-All (λ q. q < m.next_ref) j r m.processes found used)))
      ]

  -- The process manager refines the registry: ProcessCreate either fails, on whatever branch, and the
  -- registry is as before, or binds a name that was free to the process it answers. Its references
  -- are in use, and its bitmap keeps its laws.
  pub process_create-Creates :
      (L : PortLaws B) (env : Env) (spec : ProcessSpec) (m : Manager Bitmap)
      → InUse m
      → let x = process_create B env spec m in Creates (registry m) spec.name x.1 (registry x.0)
  process_create-Creates L env spec m used =
      let x = process_create B env spec m in
      let kept : x.0.processes ≡ m.processes → registry x.0 ≡ registry m =
        λ same. registry-same m x.0 used same (process_create-below B env spec m) in
      elim (IsAccepted-or_refused B env spec m) [
        | inr (e, refused) ↦ rw refused refl
        | inl accepted ↦ elim (Option-cases (lookup spec.name m.processes)) [
          | inr (r, found) ↦
              let h = process_create-exists B L env spec m r accepted found in
              Creates-err spec.name (registry m) (registry x.0) x.1 already_exists h.0 (kept h.1)
          | inl absent ↦ elim (Outcome-cases (answer B L (new_process env spec) m)) [
            | inl (e, refused) ↦
                let h = process_create-no_ports B L env spec m e accepted absent refused in
                Creates-err spec.name (registry m) (registry x.0) x.1 e h.0 (kept h.1)
            | inr granted ↦
                Creates-ok spec.name (registry m) (registry x.0) x.1 _
                  ((process_create-ok B L env spec m spec.name accepted absent granted).1)
                  (rw absent refl) (created-registry L env spec m used accepted absent granted)
          ]
        ]
      ]

  -- ProcessGet refines the lookup in the registry.
  pub process_get-registry :
      (name : Text) (m : Manager Bitmap) → process_get B name m ≡ gets (registry m name)
  unfolding process_get
  process_get-registry name m = either (lookup name m.processes)
    where
      either : (o : Option ℕ) → get_found B o m ≡ gets (described o m)
      either none = refl
      either (some r) = refl

  list-registry :
      (m : Manager Bitmap) (name : Text) (entries : List (Text × ℕ))
      → Named m.heap entries
      → lookup name (list_from B m.heap entries) ≡ described (lookup name entries) m
  unfolding list_from lookup
  list-registry m name [] h = refl
  list-registry m name ((k, r) ∷ entries) h =
      lookup-insert (m.heap r).name name (rpc_response (m.heap r)) (list_from B m.heap entries)
      ∙ either (text_eq (m.heap r).name name) (text_eq k name)
          (ap (λ (n : Text). text_eq n name) h.0) (list-registry m name entries h.1)
    where
      either :
          (b c : Bool)
          → b ≡ c
          → lookup name (list_from B m.heap entries) ≡ described (lookup name entries) m
          → (if b then some (rpc_response (m.heap r)) else lookup name (list_from B m.heap entries))
            ≡ described (if c then some r else lookup name entries) m
      either true true e later = refl
      either false false e later = later
      either true false e later = cc
      either false true e later = cc

  -- ProcessList refines the whole registry, if every process stands under its own name.
  pub process_list-registry :
      (m : Manager Bitmap) (name : Text)
      → Named m.heap m.processes
      → lookup name (process_list B m) ≡ registry m name
  unfolding process_list
  process_list-registry m name h = list-registry m name m.processes h
