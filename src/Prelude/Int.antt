-- ===== src/Prelude/Int.antt =====
-- Signed integers over the native numbers, under the library's names.
-- `i64` sums and differences of the source are exact here: it writes `unchecked_add` and
-- `unchecked_sub`, whose overflow is undefined, or arithmetic that debug builds check.
use Prim.Native.Nat.{ℕ, suc, ◌+◌, ◌-◌, ◌*◌, ◌/◌, ◌%◌, ◌≤◌, ◌<◌, ◌^◌}
use mathlib.Core.Path.{◌≡◌, refl}
use native.Mathlib.Omega.{arith}
use mathlib.Core.Bool.{Bool, false, ◌&&◌}
use nanolog_rs.Prelude.Tests.{ltb, leb, ◌==◌, if◌then◌else◌}

-- `negsuc n` is -(n + 1).
pub data ℤ : Type 0 where
  pos : ℕ → ℤ
  negsuc : ℕ → ℤ

abbrev pub pos_part : ℤ → ℕ
pos_part (pos n) = n
pos_part (negsuc n) = 0

abbrev pub neg_part : ℤ → ℕ
neg_part (pos n) = 0
neg_part (negsuc n) = suc n

-- a - b, as an integer.
abbrev pub sub_ℕ : ℕ → ℕ → ℤ
sub_ℕ a b = if leb b a then pos (a - b) else negsuc (b - a - 1)

infixl 65 ◌+ℤ◌ ◌-ℤ◌
infixl 70 ◌*ℤ◌
unfoldable pub ◌+ℤ◌ : ℤ → ℤ → ℤ
a +ℤ b = sub_ℕ (pos_part a + pos_part b) (neg_part a + neg_part b)

unfoldable pub ◌-ℤ◌ : ℤ → ℤ → ℤ
a -ℤ b = sub_ℕ (pos_part a + neg_part b) (neg_part a + pos_part b)

unfoldable pub ◌*ℤ◌ : ℤ → ℤ → ℤ
a *ℤ b =
    sub_ℕ (pos_part a * pos_part b + neg_part a * neg_part b)
      (pos_part a * neg_part b + neg_part a * pos_part b)

abbrev pub ltb_ℤ : ℤ → ℤ → Bool
ltb_ℤ a b = ltb (pos_part a + neg_part b) (pos_part b + neg_part a)

-- `a / b` and `a % b` of Rust on a signed number and a positive one: the quotient goes towards 0.
unfoldable pub quot : ℤ → ℕ → ℤ
quot (pos n) b = pos (n / b)
quot (negsuc n) b = sub_ℕ 0 (suc n / b)

unfoldable pub rem : ℤ → ℕ → ℤ
rem (pos n) b = pos (n % b)
rem (negsuc n) b = sub_ℕ 0 (suc n % b)

-- `div_euclid` and `rem_euclid` by a positive number.
unfoldable pub div_euclid : ℤ → ℕ → ℤ
div_euclid (pos n) b = pos (n / b)
div_euclid (negsuc n) b = negsuc (n / b)

unfoldable pub rem_euclid : ℤ → ℕ → ℕ
rem_euclid (pos n) b = n % b
rem_euclid (negsuc n) b = b - 1 - n % b

-- `a / b` of Rust on two signed numbers, the second not 0.
unfoldable pub quot_ℤ : ℤ → ℤ → ℤ
unfolding quot ◌-ℤ◌
quot_ℤ a (pos b) = quot a b
quot_ℤ a (negsuc b) = pos 0 -ℤ quot a (suc b)

abbrev pub is_zero : ℤ → Bool
is_zero (pos n) = n == 0
is_zero (negsuc n) = false

-- The `i64` with the same low 64 bits: what `+`, `-` and `*` give without overflow checks.
unfoldable pub wrap_i64 : ℤ → ℤ
unfolding rem_euclid
wrap_i64 a =
    let n = rem_euclid a (2 ^ 64) in if ltb n (2 ^ 63) then pos n else negsuc (2 ^ 64 - 1 - n)

-- Strictly between -2 ^ 63 and 2 ^ 63.
abbrev pub InI64 : ℤ → Type 0
InI64 a = (pos_part a < 2 ^ 63) × (neg_part a < 2 ^ 63)

-- A number is in range if its two parts differ by less than 2 ^ 63.
pub in_range_lem :
    (a : ℤ) → pos_part a < 2 ^ 63 + neg_part a → neg_part a < 2 ^ 63 + pos_part a → InI64 a
in_range_lem (pos n) h k = omega arith
in_range_lem (negsuc n) h k = omega arith

pub wrap_i64_lem : (a : ℤ) → InI64 a → wrap_i64 a ≡ a
unfolding wrap_i64 rem_euclid
wrap_i64_lem (pos n) h = ground arith
wrap_i64_lem (negsuc n) h = ground arith

-- Whether `a / b` overflows, which panics as a division by 0 does.
abbrev pub div_overflows : ℤ → ℤ → Bool
div_overflows (pos n) b = false
div_overflows (negsuc n) (pos k) = false
div_overflows (negsuc n) (negsuc k) = (n == 2 ^ 63 - 1) && (k == 0)

pub div_overflows_lem : (a b : ℤ) → InI64 a → div_overflows a b ≡ false
div_overflows_lem (pos n) b h = refl
div_overflows_lem (negsuc n) (pos k) h = refl
div_overflows_lem (negsuc n) (negsuc k) h = ground arith

infix 50 ◌≤ℤ◌
abbrev pub ◌≤ℤ◌ : ℤ → ℤ → Type 0
a ≤ℤ b = pos_part a + neg_part b ≤ pos_part b + neg_part a

pub +ℤ_parts :
    (a b : ℤ)
    → pos_part (a +ℤ b) + neg_part a + neg_part b ≡ neg_part (a +ℤ b) + pos_part a + pos_part b
unfolding ◌+ℤ◌
+ℤ_parts a b = ground arith

pub -ℤ_parts :
    (a b : ℤ)
    → pos_part (a -ℤ b) + neg_part a + pos_part b ≡ neg_part (a -ℤ b) + pos_part a + neg_part b
unfolding ◌-ℤ◌
-ℤ_parts a b = ground arith

pub eq_of_parts : (a b : ℤ) → pos_part a + neg_part b ≡ pos_part b + neg_part a → a ≡ b
eq_of_parts a b h = ground arith

pub ruleset int_laws = (arith, +ℤ_parts, -ℤ_parts, eq_of_parts)
