-- ===== src/Prelude/Decimal.antt =====
-- strconv.Itoa and strconv.Atoi.
use Prim.Native.Nat.{ℕ, zero, suc, ◌+◌, ◌-◌, ◌*◌, ◌/◌, ◌%◌, ◌≤◌, ◌<◌}
use mathlib.Core.Path.{◌≡◌, refl, ap, ◌∙◌}
use mathlib.Core.Logic.{◌≢◌, inl, inr}
use mathlib.Core.Bool.{Bool, true, false, ◌&&◌}
use mathlib.Core.Option.{Option, none, some}
use mathlib.Core.List.{[], ◌∷◌}
use native.Mathlib.Omega.{arith}
use longhorn_engine_launcher.Prelude.Tests.{ltb, leb, ◌==◌, if◌then◌else◌, Bool-cases, le→leb}
use longhorn_engine_launcher.Prelude.Lists.{All}
use longhorn_engine_launcher.Prelude.Int.{ℤ, pos, negsuc}
use longhorn_engine_launcher.Prelude.Text.{Text}
use longhorn_engine_launcher.Prelude.Strings.{is_space, NoSpace, Without}

-- The digits of `n` in front of `acc`; the fuel is more than the number of digits.
digits_onto : ℕ → ℕ → Text → Text
digits_onto zero n acc = acc
digits_onto (suc fuel) n acc =
    let rest = digits_onto fuel (n / 10) ((48 + n % 10) ∷ acc) in
    if ltb n 10 then (48 + n) ∷ acc else rest

unfoldable pub digits : ℕ → Text
unfolding digits_onto
digits n = digits_onto (suc n) n []

unfoldable pub itoa : ℤ → Text
unfolding digits
itoa (pos n) = digits n
itoa (negsuc n) = b'-' ∷ digits (suc n)

abbrev pub is_digit : ℕ → Bool
is_digit c = leb 48 c && leb c 57

parse_digits : ℕ → Text → Option ℕ
parse_digits acc [] = some acc
parse_digits acc (c ∷ cs) =
    let rest = parse_digits (acc * 10 + (c - 48)) cs in if is_digit c then rest else none

-- A number without its sign: at least one digit.
unsigned : Text → Option ℕ
unfolding parse_digits
unsigned [] = none
unsigned (c ∷ cs) = parse_digits 0 (c ∷ cs)

-- A 64-bit int holds up to 2 ^ 63 - 1.
abbrev pub max_int : ℕ
max_int = 9223372036854775807

positive : Option ℕ → Option ℤ
positive none = none
positive (some n) = if leb n max_int then some (pos n) else none

negative : Option ℕ → Option ℤ
negative none = none
negative (some zero) = some (pos 0)
negative (some (suc n)) = if leb n max_int then some (negsuc n) else none

-- strconv.Atoi; `none` is its error, of syntax or of range.
unfoldable pub atoi : Text → Option ℤ
unfolding unsigned positive negative
atoi [] = none
atoi (c ∷ cs) =
    if c == b'-'
    then negative (unsigned cs)
    else if c == b'+'
    then positive (unsigned cs)
    else positive (unsigned (c ∷ cs))

onto_step : (n : ℕ) (acc : Text) → parse_digits (n / 10) ((48 + n % 10) ∷ acc) ≡ parse_digits n acc
unfolding parse_digits
onto_step n acc =
    rw (le→leb 48 (48 + n % 10) (omega arith), le→leb (48 + n % 10) 57 (omega arith))
      (ap (λ (m : ℕ). parse_digits m acc) (omega arith))

parse_digits-onto :
    (fuel n : ℕ) (acc : Text)
    → n < fuel
    → parse_digits 0 (digits_onto fuel n acc) ≡ parse_digits n acc
unfolding parse_digits digits_onto
parse_digits-onto zero n acc h = absurd (omega arith)
parse_digits-onto (suc fuel) n acc h = elim (Bool-cases (ltb n 10)) [
  | inl small ↦ rw small (ground arith)
  | inr large ↦
      rw (large, parse_digits-onto fuel (n / 10) ((48 + n % 10) ∷ acc) (ground arith))
        (onto_step n acc)
]

-- Every character is a decimal digit.
abbrev pub IsDecimal : Text → Type 0
IsDecimal = All (λ c. is_digit c ≡ true)

digits_onto-IsDecimal :
    (fuel n : ℕ) (acc : Text) → n < fuel → IsDecimal acc → IsDecimal (digits_onto fuel n acc)
unfolding digits_onto
digits_onto-IsDecimal zero n acc h d = absurd (omega arith)
digits_onto-IsDecimal (suc fuel) n acc h d =
    ground (arith, digits_onto-IsDecimal fuel (n / 10) ((48 + n % 10) ∷ acc))

pub digits-IsDecimal : (n : ℕ) → IsDecimal (digits n)
unfolding digits
digits-IsDecimal n = digits_onto-IsDecimal (suc n) n [] (omega arith) tt

digits_onto-ne-nil : (fuel n : ℕ) (c : ℕ) (acc : Text) → digits_onto fuel n (c ∷ acc) ≢ []
unfolding digits_onto
digits_onto-ne-nil zero n c acc h = cc
digits_onto-ne-nil (suc fuel) n c acc h =
    ground (arith, digits_onto-ne-nil fuel (n / 10) (48 + n % 10) (c ∷ acc))

digits-ne-nil : (n : ℕ) → digits n ≢ []
unfolding digits digits_onto
digits-ne-nil n h = ground (arith, digits_onto-ne-nil n (n / 10) (48 + n % 10) [])

-- Without a sign the whole text is the number.
atoi-IsDecimal : (s : Text) → IsDecimal s → atoi s ≡ positive (unsigned s)
unfolding atoi
atoi-IsDecimal [] d = refl
atoi-IsDecimal (c ∷ cs) d = ground arith

unsigned-ne-nil : (s : Text) → s ≢ [] → unsigned s ≡ parse_digits 0 s
unfolding unsigned
unsigned-ne-nil [] h = absurd (h refl)
unsigned-ne-nil (c ∷ cs) h = refl

-- The digits of a number read back as that number.
unsigned-digits : (n : ℕ) → unsigned (digits n) ≡ some n
unfolding parse_digits
unsigned-digits n =
    unsigned-ne-nil (digits n) (digits-ne-nil n)
    ∙ unfold digits in parse_digits-onto (suc n) n [] (omega arith)

-- What Itoa writes, Atoi reads, if it fits in an int.
pub atoi-digits : (n : ℕ) → n ≤ max_int → atoi (digits n) ≡ some (pos n)
unfolding positive
atoi-digits n h =
    atoi-IsDecimal (digits n) (digits-IsDecimal n) ∙ rw (unsigned-digits n, le→leb n max_int h)

digit_facts :
    (c : ℕ)
    → is_digit c ≡ true
    → (is_space c ≡ false) × ((c == b'-') ≡ false) × ((c == b',') ≡ false)
unfolding is_space
digit_facts c h = ground arith

pub IsDecimal-NoSpace : (s : Text) → IsDecimal s → NoSpace s
IsDecimal-NoSpace [] d = tt
IsDecimal-NoSpace (c ∷ cs) d = ((digit_facts c d.0).0, IsDecimal-NoSpace cs d.1)

pub IsDecimal-Without_dash : (s : Text) → IsDecimal s → Without b'-' s
IsDecimal-Without_dash [] d = tt
IsDecimal-Without_dash (c ∷ cs) d = ((digit_facts c d.0).1, IsDecimal-Without_dash cs d.1)

pub IsDecimal-Without_comma : (s : Text) → IsDecimal s → Without b',' s
IsDecimal-Without_comma [] d = tt
IsDecimal-Without_comma (c ∷ cs) d = ((digit_facts c d.0).2, IsDecimal-Without_comma cs d.1)
