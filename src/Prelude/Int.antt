-- ===== src/Prelude/Int.antt =====
-- Signed integers over the native numbers, Go's int32 and int64 wrap-around, and the rounding that
-- float64 does to an integer. `negsuc n` is -(n + 1).
use Prim.Native.Nat.{ℕ, zero, suc, ◌+◌, ◌-◌, ◌*◌, ◌/◌, ◌%◌, ◌^◌, ◌≤◌, ◌<◌}
use mathlib.Core.Path.{◌≡◌, refl}
use mathlib.Core.Bool.{Bool, ◌&&◌, ◌||◌}
use native.Mathlib.Omega.{arith}
use btclibwallet.Prelude.Tests.{ltb, leb, ◌==◌, if◌then◌else◌}

pub data ℤ : Type 0 where
  pos : ℕ → ℤ
  negsuc : ℕ → ℤ

abbrev pub pos_part : ℤ → ℕ
pos_part (pos n) = n
pos_part (negsuc n) = 0

abbrev pub neg_part : ℤ → ℕ
neg_part (pos n) = 0
neg_part (negsuc n) = suc n

-- a - b, as an integer.
abbrev pub sub_ℕ : ℕ → ℕ → ℤ
sub_ℕ a b = if leb b a then pos (a - b) else negsuc (b - a - 1)

infixl 65 ◌+ℤ◌ ◌-ℤ◌
infix 50 ◌≤ℤ◌ ◌<ℤ◌
unfoldable pub ◌+ℤ◌ : ℤ → ℤ → ℤ
a +ℤ b = sub_ℕ (pos_part a + pos_part b) (neg_part a + neg_part b)

unfoldable pub ◌-ℤ◌ : ℤ → ℤ → ℤ
a -ℤ b = sub_ℕ (pos_part a + neg_part b) (neg_part a + pos_part b)

abbrev pub ◌≤ℤ◌ : ℤ → ℤ → Type 0
a ≤ℤ b = pos_part a + neg_part b ≤ pos_part b + neg_part a

abbrev pub ◌<ℤ◌ : ℤ → ℤ → Type 0
a <ℤ b = pos_part a + neg_part b < pos_part b + neg_part a

abbrev pub ltb_ℤ : ℤ → ℤ → Bool
ltb_ℤ a b = ltb (pos_part a + neg_part b) (pos_part b + neg_part a)

abbrev pub eqb_ℤ : ℤ → ℤ → Bool
eqb_ℤ a b = pos_part a + neg_part b == pos_part b + neg_part a

-- |a|, as a number.
abbrev pub magnitude : ℤ → ℕ
magnitude a = pos_part a + neg_part a

pub +ℤ_parts :
    (a b : ℤ)
    → pos_part (a +ℤ b) + neg_part a + neg_part b ≡ neg_part (a +ℤ b) + pos_part a + pos_part b
unfolding ◌+ℤ◌
+ℤ_parts a b = ground arith

pub -ℤ_parts :
    (a b : ℤ)
    → pos_part (a -ℤ b) + neg_part a + pos_part b ≡ neg_part (a -ℤ b) + pos_part a + neg_part b
unfolding ◌-ℤ◌
-ℤ_parts a b = ground arith

pub eq_of_parts : (a b : ℤ) → pos_part a + neg_part b ≡ pos_part b + neg_part a → a ≡ b
eq_of_parts a b h = ground arith

pub ruleset int_laws = (arith, +ℤ_parts, -ℤ_parts, eq_of_parts)

-- int64(a): the value modulo 2^64, in -2^63 .. 2^63 - 1.
unfoldable pub i64 : ℤ → ℤ
i64 (pos n) = sub_ℕ ((n + 2 ^ 63) % 2 ^ 64) (2 ^ 63)
i64 (negsuc n) = sub_ℕ ((2 ^ 63 + (2 ^ 64 - 1 - n % 2 ^ 64)) % 2 ^ 64) (2 ^ 63)

-- int32(a).
unfoldable pub i32 : ℤ → ℤ
i32 (pos n) = sub_ℕ ((n + 2 ^ 31) % 2 ^ 32) (2 ^ 31)
i32 (negsuc n) = sub_ℕ ((2 ^ 31 + (2 ^ 32 - 1 - n % 2 ^ 32)) % 2 ^ 32) (2 ^ 31)

-- a fits an int64.
abbrev pub InI64 : ℤ → Type 0
InI64 a = (pos_part a < 2 ^ 63) × (neg_part a ≤ 2 ^ 63)

pub i64_fits : (a : ℤ) → pos_part a < 2 ^ 63 → neg_part a ≤ 2 ^ 63 → i64 a ≡ a
unfolding i64
i64_fits (pos n) h k = ground arith
i64_fits (negsuc n) h k = ground arith

pub i64-InI64 : (a : ℤ) → InI64 (i64 a)
unfolding i64
i64-InI64 (pos n) = ground arith
i64-InI64 (negsuc n) = ground arith

pub i32_fits : (a : ℤ) → pos_part a < 2 ^ 31 → neg_part a ≤ 2 ^ 31 → i32 a ≡ a
unfolding i32
i32_fits (pos n) h k = ground arith
i32_fits (negsuc n) h k = ground arith

-- a / k for a positive k: the quotient is rounded towards zero.
unfoldable pub div_ℤ : ℤ → ℕ → ℤ
div_ℤ (pos n) k = pos (n / k)
div_ℤ (negsuc n) k = sub_ℕ 0 (suc n / k)

-- How many halvings bring n below 2^53; `fuel` of them at most.
excess : ℕ → ℕ → ℕ
excess zero n = 0
excess (suc fuel) n = let rest = excess fuel (n / 2) in if ltb n (2 ^ 53) then 0 else suc rest

-- n rounded to a multiple of 2^e, ties to the even quotient.
round_even : ℕ → ℕ → ℕ
round_even e n =
    let q = n / 2 ^ e in
    let r = n % 2 ^ e in
    if ltb (2 * r) (2 ^ e) || (2 * r == 2 ^ e) && (q % 2 == 0) then q * 2 ^ e else (q + 1) * 2 ^ e

-- float64(n) of a magnitude below 2^64: 53 bits are kept, with rounding to nearest even. Eleven
-- halvings bring such a magnitude below 2^53.
unfoldable pub float64 : ℕ → ℕ
unfolding excess round_even
float64 n = let e = excess 11 n in if e == 0 then n else round_even e n

-- Integers below 2^53 are floats.
pub float64_exact : (n : ℕ) → n < 2 ^ 53 → float64 n ≡ n
unfolding float64
float64_exact n h = ground arith

-- The first integer that is no float rounds down to its neighbour.
float64_rounds : float64 (2 ^ 53 + 1) ≡ 2 ^ 53
unfolding float64
float64_rounds = refl

float64_rounds_up : float64 (2 ^ 53 + 3) ≡ 2 ^ 53 + 4
unfolding float64
float64_rounds_up = refl
