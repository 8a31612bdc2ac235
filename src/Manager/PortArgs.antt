-- ===== src/Manager/PortArgs.antt =====
-- allocateProcessPorts of pkg/process/process_manager.go: ports and port arguments.
use longhorn_engine_launcher.Prelude.{
  ℕ, zero, suc, ◌+◌, ◌≤◌, ◌<◌, ◌≡◌, ◌⊎◌, refl, ap, ◌∙◌, true, false, Option, none, some, List, [],
  ◌∷◌, ◌++◌, arith, length, Bool-cases, inl, inr,
}
use native.Mathlib.Nat.{add-zero}
use mathlib.Core.List.{append_assoc, append-nil}
use longhorn_engine_launcher.Prelude.Int.{ℤ, pos, negsuc, ◌+ℤ◌, to_i32, to_i32-pos, ltb_ℤ}
use longhorn_engine_launcher.Prelude.Text.{Text}
use longhorn_engine_launcher.Prelude.Strings.{split}
use longhorn_engine_launcher.Prelude.Decimal.{itoa}
use longhorn_engine_launcher.Process.{Process}
use longhorn_engine_launcher.Ports.{PortBitmap, PortLaws, bit, covers}
use longhorn_engine_launcher.Manager.{
  Outcome, ok, err, Error, too_many_port_args, port_range_exhausted, allocate_ports, add_port_args,
  allocate_process_ports, assign_ports, taken,
}

-- The arguments that the port arguments stand for, from port `s` on.
abbrev pub port_arg_values : ℕ → List Text → List Text
port_arg_values s [] = []
port_arg_values s (arg ∷ rest) = split b',' (arg ++ itoa (pos s)) ++ port_arg_values (suc s) rest

next_port : (s i : ℕ) → pos s +ℤ pos i ≡ pos (s + i)
unfolding ◌+ℤ◌
next_port s i = ground arith

in_range :
    (s i last : ℕ)
    → s + i ≤ last
    → last < 65536
    → ltb_ℤ (pos last) (to_i32 (pos s +ℤ pos i)) ≡ false
in_range s i last h b = rw (next_port s i, to_i32-pos (s + i) (omega arith)) (ground arith)

port_shift : (s i : ℕ) → s + suc i ≡ suc (s + i)
port_shift s i = omega arith

-- With a port for each argument the loop succeeds, and appends each argument with its port, split
-- at the commas.
pub add_port_args-fits :
    (rest : List Text) (i s last : ℕ) (p : Process)
    → p.port_start ≡ pos s
    → p.port_end ≡ pos last
    → s + i + length rest ≤ suc last
    → last < 65536
    → add_port_args i rest p ≡ (record p { args = p.args ++ port_arg_values (s + i) rest }, ok tt)
unfolding add_port_args
add_port_args-fits [] i s last p hs he fits bound = rw (append-nil p.args)
add_port_args-fits (arg ∷ rest) i s last p hs he fits bound =
    rw (hs, he)
      (rw (in_range s i last (omega arith) bound, next_port s i)
        (add_port_args-fits rest (suc i) s last
            (record p {
              args = p.args ++ split b',' (arg ++ itoa (pos (s + i)));
              port_start = pos s;
              port_end = pos last;
            })
            refl refl (omega arith) bound
          ∙ rw (port_shift s i, append_assoc)))

-- The range from `first` to `last`, where 0 stands for no ports.
abbrev pub IsRange : ℕ → ℕ → Type 0
IsRange first last = ((first ≡ 0) × (last ≡ 0)) ⊎ ((0 < first) × (first ≤ last) × (last < 65536))

-- The range has as many ports as were asked for.
abbrev pub HasCount : ℤ → ℕ → ℕ → Type 0
HasCount c first last =
    ((c ≡ pos 0) × (last ≡ 0)) ⊎ ((n : ℕ) × (c ≡ pos (suc n)) × (last ≡ first + n))

module _ {Bitmap : Type 0} (B : PortBitmap Bitmap) (L : PortLaws B) where
  -- The ports of a range leave the pool, and nothing else changes there.
  abbrev pub Takes : Bitmap → Bitmap → ℕ → ℕ → Type 0
  Takes b b' first last =
      (port : ℕ)
      → 0 < port
      → (bit (PortLaws.free L b' port) + bit (covers (pos first) (pos last) port)
          ≡ bit (PortLaws.free L b port))
        × (PortLaws.managed L b' port ≡ PortLaws.managed L b port)

  -- A refusal: no port is taken, and the process keeps all but perhaps its ports.
  abbrev pub Refused : Bitmap → Process → Type 0
  Refused b p =
      (e : Error) × (q : Process) × (allocate_process_ports B b p ≡ (b, q, err e))
      × ((q ≡ p) ⊎ (q ≡ record p { port_start = pos 0; port_end = pos 0 }))
      × ((e ≡ too_many_port_args) ⊎ (e ≡ port_range_exhausted))

  -- A grant: the process has as many ports as it asked for, with its port arguments filled in.
  abbrev pub Granted : Bitmap → Process → Type 0
  Granted b p =
      (b' : Bitmap) × (first : ℕ) × (last : ℕ) × (allocate_process_ports B b p ≡ (
        b',
        record p {
          port_start = pos first;
          port_end = pos last;
          args = p.args ++ port_arg_values first p.port_args;
        },
        ok tt,
      ))
      × IsRange first last
      × Takes b b' first last
      × HasCount p.port_count first last

  covers_none : (port : ℕ) → 0 < port → covers (pos 0) (pos 0) port ≡ false
  covers_none port h = ground arith

  too_many :
      (b : Bitmap) (p : Process)
      → ltb_ℤ p.port_count (pos (length p.port_args)) ≡ true
      → allocate_process_ports B b p ≡ (b, p, err too_many_port_args)
  unfolding allocate_process_ports
  too_many b p h = rw h

  assigned :
      (b : Bitmap) (p : Process) (r : Bitmap × Outcome (ℤ × ℤ))
      → ltb_ℤ p.port_count (pos (length p.port_args)) ≡ false
      → allocate_ports B b p.port_count ≡ r
      → allocate_process_ports B b p ≡ assign_ports B r p
  unfolding allocate_process_ports
  assigned b p r h e = rw (h, e)

  assign_ports-fits :
      (b : Bitmap) (p : Process) (first last : ℕ)
      → first + 0 + length p.port_args ≤ suc last
      → last < 65536
      → assign_ports B (b, ok (pos first, pos last)) p ≡ (
        b,
        record p {
          port_start = pos first;
          port_end = pos last;
          args = p.args ++ port_arg_values first p.port_args;
        },
        ok tt,
      )
  unfolding assign_ports
  assign_ports-fits b p first last fits bound = rw (
    add_port_args-fits p.port_args 0 first last
        (record p { port_start = pos first; port_end = pos last }) refl refl fits bound,
    add-zero first,
  )

  room :
      (c : ℤ) (k n first : ℕ)
      → c ≡ pos (suc n)
      → ltb_ℤ c (pos k) ≡ false
      → first + 0 + k ≤ suc (first + n)
  room c k n first e h = ground arith

  not_negative : (c : ℤ) (k n : ℕ) → c ≡ negsuc n → ltb_ℤ c (pos k) ≡ false → ⊥
  not_negative c k n e h = ground arith

  no_ports :
      (b : Bitmap) (p : Process)
      → p.port_count ≡ pos 0
      → ltb_ℤ p.port_count (pos (length p.port_args)) ≡ false
      → Refused b p ⊎ Granted b p
  no_ports b p hc few = inr (
    b,
    0,
    0,
    assigned b p (b, ok (pos 0, pos 0)) few (rw hc (unfold allocate_ports in refl))
        ∙ assign_ports-fits b p 0 0 (ground arith) (omega arith),
    inl (refl, refl),
    λ port h. (rw (covers_none port h) (omega arith), refl),
    inl (hc, refl),
  )

  allocated :
      (b : Bitmap) (n : ℕ) (r : Option (ℤ × ℤ × Bitmap))
      → PortBitmap.allocate_range B b (pos (suc n)) ≡ r
      → allocate_ports B b (pos (suc n)) ≡ taken B b r
  unfolding allocate_ports
  allocated b n r e = rw e

  some_ports :
      (b : Bitmap) (p : Process) (n : ℕ)
      → p.port_count ≡ pos (suc n)
      → ltb_ℤ p.port_count (pos (length p.port_args)) ≡ false
      → (r : Option (ℤ × ℤ × Bitmap)) → PortBitmap.allocate_range B b (pos (suc n)) ≡ r
      → Refused b p ⊎ Granted b p
  some_ports b p n hc few none e = inl (
    port_range_exhausted,
    record p { port_start = pos 0; port_end = pos 0 },
    assigned b p (b, err port_range_exhausted) few
          (ap (allocate_ports B b) hc ∙ allocated b n none e)
        ∙ unfold assign_ports in refl,
    inr refl,
    inr refl,
  )
  some_ports b p n hc few (some (s, e, b')) eq =
      let (first, hs, he, positive, bound) = PortLaws.allocate_size L b b' n s e eq in
      inr (
        b',
        first,
        first + n,
        assigned b p (b', ok (pos first, pos (first + n))) few
              (ap (allocate_ports B b) hc ∙ allocated b n (some (s, e, b')) eq ∙ rw (hs, he))
            ∙ assign_ports-fits b' p first (first + n)
                (room p.port_count (length p.port_args) n first hc few) bound,
        inr (positive, omega arith, bound),
        λ port h. rw (hs, he) at (PortLaws.allocate_free L b b' n s e eq port),
        inr (n, hc, refl),
      )

  -- With a bitmap that keeps its laws, allocateProcessPorts either refuses, for want of ports or
  -- for too many port arguments, and leaves the pool as it was; or it grants a range of as many ports
  -- as the process asked for, which leaves the pool and fills in the port arguments.
  pub allocate_process_ports-cases : (b : Bitmap) (p : Process) → Refused b p ⊎ Granted b p
  allocate_process_ports-cases b p =
      by_count p.port_count refl (Bool-cases (ltb_ℤ p.port_count (pos (length p.port_args))))
    where
      by_count :
          (c : ℤ)
          → p.port_count ≡ c
          → (ltb_ℤ p.port_count (pos (length p.port_args)) ≡ true)
            ⊎ (ltb_ℤ p.port_count (pos (length p.port_args)) ≡ false)
          → Refused b p ⊎ Granted b p
      by_count c e (inl many) = inl (too_many_port_args, p, too_many b p many, inl refl, inl refl)
      by_count (negsuc n) e (inr few) =
          absurd (not_negative p.port_count (length p.port_args) n e few)
      by_count (pos zero) e (inr few) = no_ports b p e few
      by_count (pos (suc n)) e (inr few) = some_ports b p n e few _ refl
