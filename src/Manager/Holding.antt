-- ===== src/Manager/Holding.antt =====
-- How often a port is held by the processes of a list of references.
use longhorn_engine_launcher.Prelude.{
  ℕ, ◌+◌, ◌≤◌, ◌<◌, ◌≡◌, ◌≢◌, refl, ◌∙◌, Bool, true, false, none, some, List, [], ◌∷◌, ◌++◌, arith,
  All, Bool-cases, inl, inr, ◌==◌, ==_iff, subst, if◌then◌else◌,
}
use longhorn_engine_launcher.Prelude.Text.{Text, text_eq}
use longhorn_engine_launcher.Prelude.Dict.{lookup, insert, erase, lookup-erase_ne}
use longhorn_engine_launcher.Process.{Process}
use longhorn_engine_launcher.Ports.{bit, covers}
use longhorn_engine_launcher.Manager.{update}

-- 1 if the process has the port, 0 if not.
abbrev pub has : ℕ → Process → ℕ
has port p = bit (covers p.port_start p.port_end port)

unfoldable pub held : (ℕ → Process) → ℕ → List ℕ → ℕ
held heap port [] = 0
held heap port (r ∷ rs) = has port (heap r) + held heap port rs

pub held-cons :
    (heap : ℕ → Process) (port r : ℕ) (rs : List ℕ)
    → held heap port (r ∷ rs) ≡ has port (heap r) + held heap port rs
unfolding held
held-cons heap port r rs = refl

abbrev pub refs : List (Text × ℕ) → List ℕ
refs [] = []
refs ((k, r) ∷ m) = r ∷ refs m

pub update_self : (heap : ℕ → Process) (r : ℕ) (p : Process) → update heap r p r ≡ p
update_self heap r p = rw ((==_iff r r).1 refl)

pub update_below :
    (heap : ℕ → Process) (r : ℕ) (p : Process) (q : ℕ) → q < r → update heap r p q ≡ heap q
update_below heap r p q h = elim (Bool-cases (q == r)) [
  | inl e ↦ absurd (omega (arith, (==_iff q r).0 e))
  | inr e ↦ rw e
]

pub held-append :
    (heap : ℕ → Process) (port : ℕ) (xs ys : List ℕ)
    → held heap port (xs ++ ys) ≡ held heap port xs + held heap port ys
unfolding held
held-append heap port [] ys = omega arith
held-append heap port (x ∷ xs) ys = omega (arith, held-append heap port xs ys)

-- Only the processes of the list count.
pub held-below :
    (heap heap' : ℕ → Process) (port n : ℕ) (rs : List ℕ)
    → ((r : ℕ) → r < n → has port (heap' r) ≡ has port (heap r))
    → All (λ r. r < n) rs
    → held heap' port rs ≡ held heap port rs
unfolding held
held-below heap heap' port n [] same below = refl
held-below heap heap' port n (r ∷ rs) same below =
    omega (arith, same r below.0, held-below heap heap' port n rs same below.1)

module _ (heap : ℕ → Process) (port : ℕ) (k : Text) where
  pub held-insert_new :
      (r : ℕ) (m : List (Text × ℕ))
      → lookup k m ≡ none
      → held heap port (refs (insert k r m)) ≡ held heap port (refs m) + has port (heap r)
  unfolding held lookup insert
  held-insert_new r [] h = omega arith
  held-insert_new r ((j, e) ∷ m) h = ground (arith, held-insert_new r m)

  pub held-insert_over :
      (r e : ℕ) (m : List (Text × ℕ))
      → lookup k m ≡ some e
      → held heap port (refs (insert k r m)) + has port (heap e)
        ≡ held heap port (refs m) + has port (heap r)
  unfolding held lookup insert
  held-insert_over r e [] h = absurd (none_ne_some h)
    where
      none_ne_some : none ≡ some e → ⊥
      none_ne_some q = cc
  held-insert_over r e ((j, e') ∷ m) h = ground (arith, held-insert_over r e m)

  pub held-erase :
      (e : ℕ) (m : List (Text × ℕ))
      → lookup k m ≡ some e
      → held heap port (refs (erase k m)) + has port (heap e) ≡ held heap port (refs m)
  unfolding held lookup erase
  held-erase e [] h = absurd (none_ne_some h)
    where
      none_ne_some : none ≡ some e → ⊥
      none_ne_some q = cc
  held-erase e ((j, e') ∷ m) h = ground (arith, held-erase e m)

entry_eq : (q e : ℕ) → some q ≡ some e → q ≡ e
entry_eq q e h = cc

-- What is looked up is in the list.
pub lookup-All :
    (P : ℕ → Type 0) (k : Text) (e : ℕ) (m : List (Text × ℕ))
    → lookup k m ≡ some e
    → All P (refs m)
    → P e
unfolding lookup
lookup-All P k e [] h v = cc
lookup-All P k e ((j, q) ∷ m) h v = found (λ h'. lookup-All P k e m h' v.1) (text_eq j k) h
  where
    found :
        (lookup k m ≡ some e → P e) → (b : Bool) → (if b then some q else lookup k m) ≡ some e → P e
    found later true h' = subst P (entry_eq q e h') v.0
    found later false h' = later h'

-- Two entries hold their ports apart.
pub held-two :
    (heap : ℕ → Process) (port : ℕ) (k j : Text) (r q : ℕ) (m : List (Text × ℕ))
    → k ≢ j
    → lookup k m ≡ some r
    → lookup j m ≡ some q
    → has port (heap r) + has port (heap q) ≤ held heap port (refs m)
held-two heap port k j r q m h hr hq = omega (
  arith,
  held-erase heap port k r m hr,
  held-erase heap port j q (erase k m) (lookup-erase_ne k j m h ∙ hq),
)
