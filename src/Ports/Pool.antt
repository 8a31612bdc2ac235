-- ===== src/Ports/Pool.antt =====
-- A pool of ports with the behaviour that pkg/process/process_manager.go relies on: the first run of
-- free ports that is long enough is handed out. It shows that the laws of Ports.antt can hold.
use longhorn_engine_launcher.Prelude.{
  ℕ, zero, suc, ◌+◌, ◌-◌, ◌≤◌, ◌<◌, ◌≡◌, refl, sym, subst, leb→le, ap, Bool, true, false, not, ◌&&◌,
  ◌||◌, Option, none, some, some-eq, ltb, ltb→lt, leb, if◌then◌else◌, arith, Bool-cases, inl, inr,
}
use longhorn_engine_launcher.Prelude.Int.{ℤ, pos, negsuc}
use longhorn_engine_launcher.Ports.{PortBitmap, PortLaws, bit, covers}

pub record Pool : Type 0 where
  pub first_port : ℕ
  pub last_port : ℕ
  pub unused : ℕ → Bool

abbrev in_pool : Pool → ℕ → Bool
in_pool b port = leb b.first_port port && leb port b.last_port

abbrev is_free : Pool → ℕ → Bool
is_free b port = in_pool b port && b.unused port

-- The ports from `first` to `first + n` are free.
abbrev run_free : Pool → ℕ → ℕ → Bool
run_free b first zero = is_free b first
run_free b first (suc n) = is_free b (first + suc n) && run_free b first n

abbrev fits : Pool → ℕ → ℕ → Bool
fits b first n = ltb 0 first && (ltb (first + n) 65536 && run_free b first n)

-- The first of `count` candidates that fits.
abbrev find_run : Pool → ℕ → ℕ → ℕ → Option ℕ
find_run b n zero first = none
find_run b n (suc count) first =
    let rest = find_run b n count (suc first) in if fits b first n then some first else rest

abbrev take_run : Pool → ℕ → ℕ → Pool
take_run b first n = record b {
  unused = λ port. not (covers (pos first) (pos (first + n)) port) && b.unused port;
}

abbrev taken_run : Pool → ℕ → Option ℕ → Option (ℤ × ℤ × Pool)
taken_run b n none = none
taken_run b n (some first) = some (pos first, pos (first + n), take_run b first n)

abbrev new_pool : ℤ → ℤ → Option Pool
new_pool (pos s) (pos e) = some (record { first_port = s; last_port = e; unused = λ port. true })
new_pool _ _ = none

abbrev allocate_run : Pool → ℤ → Option (ℤ × ℤ × Pool)
allocate_run b (pos (suc n)) =
    taken_run b n (find_run b n (suc (b.last_port - b.first_port)) b.first_port)
allocate_run b _ = none

abbrev release_run : Pool → ℤ → ℤ → Pool × Bool
release_run b (pos (suc s)) (pos e) =
    (record b { unused = λ port. covers (pos (suc s)) (pos e) port || b.unused port }, false)
release_run b (pos zero) (pos zero) = (b, false)
release_run b _ _ = (b, true)

abbrev pub pool : PortBitmap Pool
pool = record { new_bitmap = new_pool; allocate_range = allocate_run; release_range = release_run }

both : (x y : Bool) → (x && y) ≡ true → (x ≡ true) × (y ≡ true)
both true true h = (refl, refl)
both true false h = cc
both false y h = cc

find_run-fits :
    (b : Pool) (n count first found : ℕ)
    → find_run b n count first ≡ some found
    → fits b found n ≡ true
find_run-fits b n zero first found h = cc
find_run-fits b n (suc count) first found h = elim (Bool-cases (fits b first n)) [
  | inl good ↦ subst (λ k. fits b k n ≡ true) (some-eq (rw good at h)) good
  | inr bad ↦ find_run-fits b n count (suc first) found (rw bad at h)
]

run_free-free :
    (b : Pool) (first n port : ℕ)
    → run_free b first n ≡ true
    → first ≤ port
    → port ≤ first + n
    → is_free b port ≡ true
run_free-free b first zero port h ge le = subst (λ k. is_free b k ≡ true) (omega arith) h
run_free-free b first (suc n) port h ge le = elim (Bool-cases (leb port (first + n))) [
  | inl inside ↦ run_free-free b first n port (both _ _ h).1 ge (leb→le _ _ inside)
  | inr last ↦ subst (λ k. is_free b k ≡ true) (at_end last) (both _ _ h).0
]
  where
    at_end : leb port (first + n) ≡ false → first + suc n ≡ port
    at_end e = ground arith

pool-allocate :
    (b b' : Pool) (n : ℕ) (s e : ℤ)
    → allocate_run b (pos (suc n)) ≡ some (s, e, b')
    → (first : ℕ) × (fits b first n ≡ true)
      × (s ≡ pos first)
      × (e ≡ pos (first + n))
      × (b' ≡ take_run b first n)
pool-allocate b b' n s e h =
    from (find_run b n (suc (b.last_port - b.first_port)) b.first_port) refl h
  where
    from :
        (o : Option ℕ)
        → find_run b n (suc (b.last_port - b.first_port)) b.first_port ≡ o
        → taken_run b n o ≡ some (s, e, b')
        → (first : ℕ) × (fits b first n ≡ true)
          × (s ≡ pos first)
          × (e ≡ pos (first + n))
          × (b' ≡ take_run b first n)
    from none ho hx = cc
    from (some first) ho hx =
        let same = some-eq hx in
        (
          first,
          find_run-fits b n (suc (b.last_port - b.first_port)) b.first_port first ho,
          ap (λ (x : ℤ × ℤ × Pool). x.0) (sym same),
          ap (λ (x : ℤ × ℤ × Pool). x.1) (sym same),
          ap (λ (x : ℤ × ℤ × Pool). x.2) (sym same),
        )

taken_balance :
    (b : Pool) (first n port : ℕ)
    → run_free b first n ≡ true
    → bit (is_free (take_run b first n) port) + bit (covers (pos first) (pos (first + n)) port)
      ≡ bit (is_free b port)
taken_balance b first n port h = elim (Bool-cases (covers (pos first) (pos (first + n)) port)) [
  | inl inside ↦
      rw
        (
          inside,
          run_free-free b first n port h (leb→le _ _ (both _ _ inside).0)
              (leb→le _ _ (both _ _ inside).1),
        )
        (hidden (in_pool b port))
  | inr outside ↦ rw outside (omega arith)
]
  where
    hidden : (x : Bool) → bit (x && false) + 1 ≡ 1
    hidden true = refl
    hidden false = refl

released : (c m u : Bool) → (c ≡ true → m ≡ true) → (m && (c || u)) ≡ (c || (m && u))
released true m u h = rw (h refl) refl
released false m u h = refl

-- The pool has the behaviour that the manager relies on.
pub pool_laws : PortLaws pool
pool_laws = record {
  managed = in_pool;
  free = is_free;
  new_free = new_free;
  allocate_size = λ b b' n s e h.
      let (first, good, hs, he, _) = pool-allocate b b' n s e h in
      (first, hs, he, ltb→lt _ _ (both _ _ good).0, ltb→lt _ _ (both _ _ (both _ _ good).1).0);
  allocate_free = λ b b' n s e h port.
      let (first, good, hs, he, hb) = pool-allocate b b' n s e h in
      rw (hs, he, hb) (taken_balance b first n port (both _ _ (both _ _ good).1).1, refl);
  release_free = release_free;
  release_none = λ b. refl;
  free_managed = λ b port h. (both _ _ h).0;
}
  where
    new_free :
        (s e : ℤ) (b : Pool) → new_pool s e ≡ some b → (port : ℕ) → is_free b port ≡ in_pool b port
    new_free (pos s) (pos e) b h port = rw (sym (some-eq h)) (ground arith)
    new_free (pos s) (negsuc e) b h port = cc
    new_free (negsuc s) e b h port = cc

    release_free :
        (b : Pool) (first last : ℕ)
        → 0 < first
        → first ≤ last
        → ((port : ℕ) → first ≤ port → port ≤ last → in_pool b port ≡ true)
        → (port : ℕ)
        → (is_free (release_run b (pos first) (pos last)).0 port
            ≡ (covers (pos first) (pos last) port || is_free b port))
          × (in_pool (release_run b (pos first) (pos last)).0 port ≡ in_pool b port)
    release_free b zero last h le inside port = absurd (omega arith)
    release_free b (suc first) last h le inside port = (
      released (covers (pos (suc first)) (pos last) port) (in_pool b port) (b.unused port)
          (λ c. inside port (leb→le _ _ (both _ _ c).0) (leb→le _ _ (both _ _ c).1)),
      refl,
    )
