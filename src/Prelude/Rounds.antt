-- ===== src/Prelude/Rounds.antt =====
-- Positions in a ring: remainders of indices that only grow.
use Prim.Native.Nat.{ℕ, ◌+◌, ◌*◌, ◌/◌, ◌%◌, ◌^◌, ◌≤◌, ◌<◌, ◌∣◌}
use mathlib.Core.Path.{◌≡◌, ap, ◌∙◌}
use mathlib.Core.Logic.{◌⊎◌, inl, inr}
use native.Mathlib.Omega.{arith}
use native.Mathlib.Decide.{dec_lt, le_ind}
use native.Mathlib.Nat.{
  mod-eq_of_lt, div-add-mod, mul-add-mod_self_left, pow-suc, mod-mod_of_dvd, dvd-mul_right_of_dvd,
  dvd_refl,
}

mul_mono : (a b n : ℕ) → a < b → n * a + n ≤ n * b
mul_mono a b n h = grind arith

mul_mono' : (a b n : ℕ) → a ≤ b → n * a ≤ n * b
mul_mono' a b n h = grind arith

-- Two runs of blocks that do not meet, less than one round apart, do not meet in the ring.
pub apart :
    (n a j b k : ℕ)
    → 0 < n
    → a + j ≤ b
    → b + k ≤ a + n
    → a % n + j ≤ n
    → b % n + k ≤ n
    → (a % n + j ≤ b % n) ⊎ (b % n + k ≤ a % n)
apart n a j b k pos h1 h2 ha hb = elim (dec_lt (a / n) (b / n)) [
  | yes lt ↦ inr (omega (arith, div-add-mod a n, div-add-mod b n, mul_mono (a / n) (b / n) n lt))
  | no ge ↦
      inl
        (omega (arith, div-add-mod a n, div-add-mod b n, mul_mono' (b / n) (a / n) n (omega arith)))
]

pub add-mod-small : (r j n : ℕ) → r % n + j < n → (r + j) % n ≡ r % n + j
add-mod-small r j n h =
    ap (λ (x : ℕ). x % n) (omega (arith, div-add-mod r n))
    ∙ mul-add-mod_self_left n (r / n) (r % n + j)
    ∙ mod-eq_of_lt h

pow-dvd : (k m : ℕ) → k ≤ m → 2 ^ k ∣ 2 ^ m
pow-dvd k m h =
    le_ind (λ i. 2 ^ k ∣ 2 ^ i) (dvd_refl (2 ^ k))
      (λ i le ih. rw (pow-suc 2 i) (dvd-mul_right_of_dvd (2 ^ k) ih 2)) m h

-- A wrapped index has the position of the index.
pub mod-mod-pow : (a k m : ℕ) → k ≤ m → a % 2 ^ m % 2 ^ k ≡ a % 2 ^ k
mod-mod-pow a k m h = mod-mod_of_dvd (2 ^ k) a (pow-dvd k m h)
