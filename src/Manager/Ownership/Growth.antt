-- ===== src/Manager/Ownership/Growth.antt =====
-- A new process object, and the allocation of its ports.
use longhorn_engine_launcher.Prelude.{
  ℕ, suc, ◌<◌, ◌≡◌, ◌≢◌, ◌⊎◌, inl, inr, sym, ap, ◌∙◌, List, [], ◌∷◌, ◌++◌, All, arith,
}
use longhorn_engine_launcher.Prelude.Text.{Text}
use longhorn_engine_launcher.Prelude.Dict.{insert, erase}
use longhorn_engine_launcher.Process.{Process}
use longhorn_engine_launcher.Manager.{Manager}
use longhorn_engine_launcher.Manager.Holding.{has, held, refs, held-below}
use longhorn_engine_launcher.Manager.System.{HasRange, Named, Replacement}

-- Between `m` and `m'` one object has come into use, under a UUID of its own.
pub record Grown {Bitmap : Type 0} (m : Manager Bitmap) (m' : Manager Bitmap) : Type 0 where
  pub one_more : m'.next_ref ≡ suc m.next_ref
  pub same_below : (r : ℕ) → r < m.next_ref → m'.heap r ≡ m.heap r
  pub new_range : HasRange (m'.heap m.next_ref)
  pub new_uuid : (r : ℕ) → r < m.next_ref → (m.heap r).uuid ≢ (m'.heap m.next_ref).uuid

pub Grown-processes :
    {Bitmap : Type 0} {m m' : Manager Bitmap} (entries : List (Text × ℕ))
    → Grown m m'
    → Grown m (record m' { processes = entries })
Grown-processes entries g = record {
  one_more = g.one_more;
  same_below = g.same_below;
  new_range = g.new_range;
  new_uuid = g.new_uuid;
}

pub All-suc : (n : ℕ) (rs : List ℕ) → All (λ r. r < n) rs → All (λ r. r < suc n) rs
All-suc n [] h = tt
All-suc n (r ∷ rs) h = (omega arith, All-suc n rs h.1)

below_or_last : (n r : ℕ) → r < suc n → (r < n) ⊎ (r ≡ n)
below_or_last n r h = omega arith

module _ {Bitmap : Type 0} (m m' : Manager Bitmap) (g : Grown m m') where
  pub ranged-Grown :
      ((r : ℕ) → r < m.next_ref → HasRange (m.heap r))
      → (r : ℕ) → r < m'.next_ref
      → HasRange (m'.heap r)
  ranged-Grown ranged r h = elim (below_or_last m.next_ref r (rw (← g.one_more) h)) [
    | inl lt ↦ rw (g.same_below r lt) (ranged r lt)
    | inr e ↦ rw e g.new_range
  ]

  distinct_step :
      ((r q : ℕ) → r < m.next_ref → q < m.next_ref → (m.heap r).uuid ≡ (m.heap q).uuid → r ≡ q)
      → (r q : ℕ) → (r < m.next_ref) ⊎ (r ≡ m.next_ref)
      → (q < m.next_ref) ⊎ (q ≡ m.next_ref)
      → (m'.heap r).uuid ≡ (m'.heap q).uuid
      → r ≡ q
  distinct_step distinct r q (inl hr) (inl hq) e =
      distinct r q hr hq (rw (g.same_below r hr, g.same_below q hq) at e)
  distinct_step distinct r q (inl hr) (inr hq) e =
      absurd (g.new_uuid r hr (rw (g.same_below r hr, hq) at e))
  distinct_step distinct r q (inr hr) (inl hq) e =
      absurd (g.new_uuid q hq (rw (g.same_below q hq, hr) at (sym e)))
  distinct_step distinct r q (inr hr) (inr hq) e = hr ∙ sym hq

  pub distinct-Grown :
      ((r q : ℕ) → r < m.next_ref → q < m.next_ref → (m.heap r).uuid ≡ (m.heap q).uuid → r ≡ q)
      → (r q : ℕ) → r < m'.next_ref
      → q < m'.next_ref
      → (m'.heap r).uuid ≡ (m'.heap q).uuid
      → r ≡ q
  distinct-Grown distinct r q hr hq =
      distinct_step distinct r q (below_or_last m.next_ref r (rw (← g.one_more) hr))
        (below_or_last m.next_ref q (rw (← g.one_more) hq))

  pub held-Grown :
      (port : ℕ) (rs : List ℕ)
      → All (λ r. r < m.next_ref) rs
      → held m'.heap port rs ≡ held m.heap port rs
  held-Grown port rs h =
      held-below m.heap m'.heap port m.next_ref rs (λ r lt. ap (has port) (g.same_below r lt)) h

  pub Named-Grown :
      (entries : List (Text × ℕ))
      → All (λ r. r < m.next_ref) (refs entries)
      → Named m.heap entries
      → Named m'.heap entries
  Named-Grown [] h v = tt
  Named-Grown ((k, r) ∷ entries) h v = (rw (g.same_below r h.0) v.0, Named-Grown entries h.1 v.1)

  pub old_in_use-Grown :
      (cs : List Replacement) → All (λ c. c.old < m.next_ref) cs → All (λ c. c.old < m'.next_ref) cs
  old_in_use-Grown [] h = tt
  old_in_use-Grown (c ∷ cs) h = (omega (arith, g.one_more), old_in_use-Grown cs h.1)

  pub in_use-Grown : (rs : List ℕ) → All (λ r. r < m.next_ref) rs → All (λ r. r < m'.next_ref) rs
  in_use-Grown rs h = rw g.one_more (All-suc m.next_ref rs h)

pub All-append_left : (n : ℕ) (xs ys : List ℕ) → All (λ r. r < n) (xs ++ ys) → All (λ r. r < n) xs
All-append_left n [] ys h = tt
All-append_left n (x ∷ xs) ys h = (h.0, All-append_left n xs ys h.1)

pub All-append_right : (n : ℕ) (xs ys : List ℕ) → All (λ r. r < n) (xs ++ ys) → All (λ r. r < n) ys
All-append_right n [] ys h = h
All-append_right n (x ∷ xs) ys h = All-append_right n xs ys h.1

pub All-append :
    (n : ℕ) (xs ys : List ℕ)
    → All (λ r. r < n) xs
    → All (λ r. r < n) ys
    → All (λ r. r < n) (xs ++ ys)
All-append n [] ys hx hy = hy
All-append n (x ∷ xs) ys hx hy = (hx.0, All-append n xs ys hx.1 hy)

-- An entry for a process of its name, in use, keeps the entries so.
pub Named-insert :
    (heap : ℕ → Process) (k : Text) (r : ℕ) (m : List (Text × ℕ))
    → (heap r).name ≡ k
    → Named heap m
    → Named heap (insert k r m)
unfolding insert
Named-insert heap k r [] e v = (e, tt)
Named-insert heap k r ((j, q) ∷ m) e v = ground (arith, Named-insert heap k r m)

pub in_use-insert :
    (n : ℕ) (k : Text) (r : ℕ) (m : List (Text × ℕ))
    → r < n
    → All (λ q. q < n) (refs m)
    → All (λ q. q < n) (refs (insert k r m))
unfolding insert
in_use-insert n k r [] h v = (h, tt)
in_use-insert n k r ((j, q) ∷ m) h v = ground (arith, in_use-insert n k r m)

pub Named-erase :
    (heap : ℕ → Process) (k : Text) (m : List (Text × ℕ)) → Named heap m → Named heap (erase k m)
unfolding erase
Named-erase heap k [] v = tt
Named-erase heap k ((j, q) ∷ m) v = ground (arith, Named-erase heap k m)

pub in_use-erase :
    (n : ℕ) (k : Text) (m : List (Text × ℕ))
    → All (λ q. q < n) (refs m)
    → All (λ q. q < n) (refs (erase k m))
unfolding erase
in_use-erase n k [] v = tt
in_use-erase n k ((j, q) ∷ m) v = ground (arith, in_use-erase n k m)
