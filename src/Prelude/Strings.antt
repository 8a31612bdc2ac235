-- ===== src/Prelude/Strings.antt =====
-- What the program uses of Go's package strings, over the code points of a text.
use Prim.Native.Nat.{ℕ}
use mathlib.Core.Path.{◌≡◌, refl, sym, ap}
use mathlib.Core.Logic.{◌≢◌, inl, inr}
use mathlib.Core.Bool.{Bool, true, false, ◌&&◌, ◌||◌}
use mathlib.Core.Option.{Option, none, some}
use mathlib.Core.List.{List, [], ◌∷◌, ◌++◌}
use native.Mathlib.Omega.{arith}
use longhorn_engine_launcher.Prelude.Tests.{leb, ◌==◌, if◌then◌else◌, Bool-cases, ==_iff}
use longhorn_engine_launcher.Prelude.Lists.{All}
use longhorn_engine_launcher.Prelude.Text.{Text, is_empty}

abbrev cons_head : ℕ → List Text → List Text
cons_head x [] = (x ∷ []) ∷ []
cons_head x (p ∷ ps) = (x ∷ p) ∷ ps

-- strings.Split(s, c) for a separator of one character: at least one piece, also of the empty text.
unfoldable pub split : ℕ → Text → List Text
split c [] = [] ∷ []
split c (x ∷ xs) = let rest = split c xs in if x == c then [] ∷ rest else cons_head x rest

-- strings.Join(pieces, c) for a separator of one character.
unfoldable pub join : ℕ → List Text → Text
join c [] = []
join c (p ∷ []) = p
join c (p ∷ q ∷ ps) = p ++ c ∷ join c (q ∷ ps)

-- unicode.IsSpace.
unfoldable pub is_space : ℕ → Bool
is_space c =
    (leb 9 c && leb c 13)
    || c == 32
    || c == 0x85
    || c == 0xa0
    || c == 0x1680
    || (leb 0x2000 c && leb c 0x200a)
    || c == 0x2028
    || c == 0x2029
    || c == 0x202f
    || c == 0x205f
    || c == 0x3000

trim_left : Text → Text
trim_left [] = []
trim_left (x ∷ xs) = if is_space x then trim_left xs else x ∷ xs

trim_right : Text → Text
trim_right [] = []
trim_right (x ∷ xs) =
    let rest = trim_right xs in if is_space x && is_empty rest then [] else x ∷ rest

-- strings.TrimSpace.
unfoldable pub trim_space : Text → Text
unfolding trim_left trim_right is_space
trim_space s = trim_right (trim_left s)

-- What follows the prefix `p`, if the text begins with it.
unfoldable pub strip_prefix : Text → Text → Option Text
strip_prefix [] s = some s
strip_prefix (p ∷ ps) [] = none
strip_prefix (p ∷ ps) (x ∷ xs) = if p == x then strip_prefix ps xs else none

abbrev cons_fst : ℕ → Option (Text × Text) → Option (Text × Text)
cons_fst x none = none
cons_fst x (some (a, b)) = some (x ∷ a, b)

-- strings.SplitN(s, sep, 2) for a non-empty `sep`: the two pieces, or `none` if `sep` is missing.
unfoldable pub split_once : Text → Text → Option (Text × Text)
unfolding strip_prefix
split_once sep [] = none
split_once sep (x ∷ xs) =
    let later = cons_fst x (split_once sep xs) in
    elim (strip_prefix sep (x ∷ xs)) [ some rest ↦ some ([], rest) | none ↦ later ]

-- No character of the text is `c`.
abbrev pub Without : ℕ → Text → Type 0
Without c = All (λ x. (x == c) ≡ false)

abbrev pub NoSpace : Text → Type 0
NoSpace = All (λ x. is_space x ≡ false)

pub split-Without : (c : ℕ) (s : Text) → Without c s → split c s ≡ s ∷ []
unfolding split
split-Without c [] h = refl
split-Without c (x ∷ xs) h = ground (arith, split-Without c xs h.1)

-- A text without the separator, the separator, and a rest: the text is the first piece.
pub split-append : (c : ℕ) (s t : Text) → Without c s → split c (s ++ c ∷ t) ≡ s ∷ split c t
unfolding split
split-append c [] t h = ground arith
split-append c (x ∷ xs) t h = ground (arith, split-append c xs t h.1)

pub split-ne-nil : (c : ℕ) (s : Text) → split c s ≢ []
unfolding split
split-ne-nil c [] h = cc
split-ne-nil c (x ∷ xs) h = split_step (split c xs) (x == c) h
  where
    split_step : (ps : List Text) (b : Bool) → (if b then [] ∷ ps else cons_head x ps) ≡ [] → ⊥
    split_step ps true e = cc
    split_step [] false e = cc
    split_step (p ∷ ps) false e = cc

-- The pieces of two texts joined by the separator are the pieces of each.
pub split-pieces : (c : ℕ) (s t : Text) → split c (s ++ c ∷ t) ≡ split c s ++ split c t
unfolding split
split-pieces c [] t = ground arith
split-pieces c (x ∷ xs) t = ground (arith, split-pieces c xs t, split-ne-nil c xs)

trim_right-NoSpace : (s : Text) → NoSpace s → trim_right s ≡ s
unfolding trim_right
trim_right-NoSpace [] h = refl
trim_right-NoSpace (x ∷ xs) h = ground (arith, trim_right-NoSpace xs h.1)

trim_left-NoSpace : (s : Text) → NoSpace s → trim_left s ≡ s
unfolding trim_left
trim_left-NoSpace [] h = refl
trim_left-NoSpace (x ∷ xs) h = rw h.0

pub trim_space-NoSpace : (s : Text) → NoSpace s → trim_space s ≡ s
unfolding trim_space
trim_space-NoSpace s h = rw (trim_left-NoSpace s h) (trim_right-NoSpace s h)

join-cons_head : (c x : ℕ) (ps : List Text) → join c (cons_head x ps) ≡ x ∷ join c ps
unfolding join
join-cons_head c x [] = refl
join-cons_head c x (p ∷ []) = refl
join-cons_head c x (p ∷ q ∷ ps) = refl

join-nil_head : (c : ℕ) (ps : List Text) → ps ≢ [] → join c ([] ∷ ps) ≡ c ∷ join c ps
unfolding join
join-nil_head c [] h = absurd (h refl)
join-nil_head c (p ∷ ps) h = refl

-- Splitting and joining at the same character is the identity.
pub join-split : (c : ℕ) (s : Text) → join c (split c s) ≡ s
unfolding split
join-split c [] = unfold join in refl
join-split c (x ∷ xs) = elim (Bool-cases (x == c)) [
  | inl e ↦ rw e (
      rw (join-nil_head c (split c xs) (split-ne-nil c xs), join-split c xs)
        (ap (λ (y : ℕ). y ∷ xs) (sym ((==_iff x c).0 e))))
  | inr e ↦ rw e (rw (join-cons_head c x (split c xs), join-split c xs))
]
