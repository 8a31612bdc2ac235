-- ===== src/Prelude/Int.antt =====
-- Signed integers over the native numbers, under the library's names, and the wrap-around of int32.
use Prim.Native.Nat.{ℕ, suc, ◌+◌, ◌-◌, ◌%◌, ◌^◌, ◌<◌}
use mathlib.Core.Path.{◌≡◌}
use mathlib.Core.Bool.{Bool}
use native.Mathlib.Omega.{arith}
use longhorn_engine_launcher.Prelude.Tests.{ltb, leb, if◌then◌else◌}

-- `negsuc n` is -(n + 1).
pub data ℤ : Type 0 where
  pos : ℕ → ℤ
  negsuc : ℕ → ℤ

abbrev pub pos_part : ℤ → ℕ
pos_part (pos n) = n
pos_part (negsuc n) = 0

abbrev pub neg_part : ℤ → ℕ
neg_part (pos n) = 0
neg_part (negsuc n) = suc n

-- a - b, as an integer.
abbrev pub sub_ℕ : ℕ → ℕ → ℤ
sub_ℕ a b = if leb b a then pos (a - b) else negsuc (b - a - 1)

infixl 65 ◌+ℤ◌
unfoldable pub ◌+ℤ◌ : ℤ → ℤ → ℤ
a +ℤ b = sub_ℕ (pos_part a + pos_part b) (neg_part a + neg_part b)

abbrev pub ltb_ℤ : ℤ → ℤ → Bool
ltb_ℤ a b = ltb (pos_part a + neg_part b) (pos_part b + neg_part a)

abbrev half_range : ℕ
half_range = 2147483648

abbrev full_range : ℕ
full_range = 4294967296

-- The residue modulo 2 ^ 32 that Go's conversion int32(…) reads as a signed number.
residue : ℤ → ℕ
residue (pos n) = n % full_range
residue (negsuc n) = full_range - 1 - n % full_range

-- Go's conversion int32(…) of a wider integer, and the result of int32 arithmetic.
unfoldable pub to_i32 : ℤ → ℤ
unfolding residue
to_i32 z =
    if ltb (residue z) half_range then pos (residue z) else negsuc (full_range - 1 - residue z)

-- The conversion keeps what an int32 can hold.
pub to_i32-pos : (n : ℕ) → n < half_range → to_i32 (pos n) ≡ pos n
unfolding to_i32
to_i32-pos n h = ground arith

-- Go's conversion int64(…) of a uint64.
unfoldable pub to_i64 : ℕ → ℤ
to_i64 n = if ltb (n % 2 ^ 64) (2 ^ 63) then pos (n % 2 ^ 64) else negsuc (2 ^ 64 - 1 - n % 2 ^ 64)
