-- ===== src/Prelude/Words.antt =====
-- Machine words as numbers below their modulus.
use Prim.Native.Nat.{ℕ, zero, suc, ◌+◌, ◌-◌, ◌*◌, ◌/◌, ◌%◌, ◌^◌, ◌≤◌, ◌<◌, min, bit_and}
use Prim.Native.Nat.{digits, bit_and-bitwise}
use mathlib.Core.Path.{◌≡◌, refl}
use mathlib.Core.Bool.{Bool}
use native.Mathlib.Omega.{arith}
use native.Mathlib.Nat.{pow-suc, one-le-pow}
use nanolog_rs.Prelude.Tests.{ltb, if◌then◌else◌}
use nanolog_rs.Prelude.Int.{ℤ, pos, negsuc, ltb_ℤ}

-- `wrapping_add` and `wrapping_sub` of `u32`, and the cast `as u32`.
abbrev pub u32 : ℕ → ℕ
u32 a = a % 2 ^ 32

abbrev pub add32 : ℕ → ℕ → ℕ
add32 a b = (a + b) % 2 ^ 32

abbrev pub sub32 : ℕ → ℕ → ℕ
sub32 a b = (a + 2 ^ 32 - b) % 2 ^ 32

-- The same of `usize` and `u64`.
abbrev pub add64 : ℕ → ℕ → ℕ
add64 a b = (a + b) % 2 ^ 64

abbrev pub sub64 : ℕ → ℕ → ℕ
sub64 a b = (a + 2 ^ 64 - b) % 2 ^ 64

-- The cast of a `u32` to `i32`.
abbrev pub as_i32 : ℕ → ℤ
as_i32 w = if ltb w (2 ^ 31) then pos w else negsuc (2 ^ 32 - w - 1)

-- `(a as i32) < (b as i32)`
abbrev pub lt_i32 : ℕ → ℕ → Bool
lt_i32 a b = ltb_ℤ (as_i32 a) (as_i32 b)

-- A mask of low bits is the remainder, bit by bit.
abbrev and_fuel : ℕ → ℕ → ℕ → ℕ
and_fuel = digits (λ b. zero) min

and_fuel_irrelevant : (n m a b : ℕ) → a ≤ n → a ≤ m → and_fuel n a b ≡ and_fuel m a b
and_fuel_irrelevant n m zero b p q = ground_zero n m
  where
    ground_zero : (n m : ℕ) → and_fuel n zero b ≡ and_fuel m zero b
    ground_zero zero zero = refl
    ground_zero zero (suc m) = refl
    ground_zero (suc n) zero = refl
    ground_zero (suc n) (suc m) = refl
and_fuel_irrelevant zero m (suc a) b p q = absurd (omega arith)
and_fuel_irrelevant (suc n) zero (suc a) b p q = absurd (omega arith)
and_fuel_irrelevant (suc n) (suc m) (suc a) b p q =
    omega (arith, and_fuel_irrelevant n m (suc a / 2) (b / 2) (omega arith) (omega arith))

bit_and_halves : (a b : ℕ) → bit_and a b ≡ min (a % 2) (b % 2) + 2 * bit_and (a / 2) (b / 2)
bit_and_halves zero b = omega (arith, bit_and-bitwise 0 b, bit_and-bitwise 0 (b / 2))
bit_and_halves (suc a) b = omega (
  arith,
  bit_and-bitwise (suc a) b,
  bit_and-bitwise (suc a / 2) (b / 2),
  and_fuel_irrelevant a (suc a / 2) (suc a / 2) (b / 2) (omega arith) (omega arith),
)

bit_and-zero_bound : (n a : ℕ) → a ≤ n → bit_and a 0 ≡ 0
bit_and-zero_bound zero zero h = refl
bit_and-zero_bound zero (suc a) h = absurd (omega arith)
bit_and-zero_bound (suc n) a h =
    omega (arith, bit_and_halves a 0, bit_and-zero_bound n (a / 2) (omega arith))

half_mod : (a p : ℕ) → 0 < p → a % (2 * p) ≡ a % 2 + 2 * (a / 2 % p)
half_mod a p h = grind arith

pub bit_and_mask : (k a : ℕ) → bit_and a (2 ^ k - 1) ≡ a % 2 ^ k
bit_and_mask zero a = omega (arith, bit_and-zero_bound a a (omega arith))
bit_and_mask (suc k) a = ground (
  arith,
  bit_and_halves a (2 ^ suc k - 1),
  pow-suc 2 k,
  one-le-pow k 2,
  half_mod a (2 ^ k),
  bit_and_mask k (a / 2),
)
