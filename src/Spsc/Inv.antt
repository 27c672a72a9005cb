-- ===== src/Spsc/Inv.antt =====
-- The indices of src/spsc.rs as numbers that do not wrap: how far each thread has come, and how
-- far it knows the other to have come.
use native.Mathlib.Nat.{mod-lt, one-le-pow, pow-le-pow_right}
use nanolog_rs.Prelude.{
  ℕ, zero, suc, ◌+◌, ◌-◌, ◌%◌, ◌^◌, ◌≤◌, ◌<◌, ◌≡◌, refl, ap, ap₂, ◌∙◌, List, [], ◌∷◌, ◌++◌, arith,
  bit_and, ◌==◌, if◌then◌else◌, length,
}
use nanolog_rs.Prelude.Words.{add64, sub64, bit_and_mask}
use nanolog_rs.Prelude.Rounds.{apart, mod-mod-pow}
use nanolog_rs.Spsc.{Shared, Producer, Consumer}

-- A queue of `2 ^ log` slots: `taken` values have been popped and `put` pushed.
pub record Inv {T : Type 0} (log : ℕ) (s : Shared T) (p : Producer) (c : Consumer) : Type 0 where
  pub taken : ℕ
  pub put : ℕ
  pub known_taken : ℕ
  pub known_put : ℕ
  pub small : log ≤ 62
  pub masks : (s.mask ≡ 2 ^ log - 1) × (p.mask ≡ 2 ^ log - 1) × (c.mask ≡ 2 ^ log - 1)
  pub tails : (s.tail ≡ put % 2 ^ 64) × (p.local_tail ≡ put % 2 ^ 64)
  pub heads : (s.head ≡ taken % 2 ^ 64) × (c.local_head ≡ taken % 2 ^ 64)
  pub caches : (p.cached_head ≡ known_taken % 2 ^ 64) × (c.cached_tail ≡ known_put % 2 ^ 64)
  pub in_order : (known_taken ≤ taken) × (taken ≤ known_put) × (known_put ≤ put)
  pub window : put ≤ known_taken + 2 ^ log

pub pow_range : (log : ℕ) → log ≤ 62 → (1 ≤ 2 ^ log) × (2 ^ log ≤ 2 ^ 62)
pow_range log h = (one-le-pow log 2 (omega arith), pow-le-pow_right (omega arith) h)

-- The position of a wrapped index.
pub slot_of : (log i : ℕ) → log ≤ 62 → bit_and (i % 2 ^ 64) (2 ^ log - 1) ≡ i % 2 ^ log
slot_of log i h = bit_and_mask log (i % 2 ^ 64) ∙ mod-mod-pow i log 64 (omega arith)

-- The `n` values from index `i` on.
module _ {T : Type 0} (buffer : ℕ → T) (cap : ℕ) where
  abbrev pub window : ℕ → ℕ → List T
  window i zero = []
  window i (suc n) = buffer (i % cap) ∷ window (i + 1) n

  pub length-window : (i n : ℕ) → length (window i n) ≡ n
  length-window i zero = refl
  length-window i (suc n) = ap suc (length-window (i + 1) n)

-- What the queue holds, oldest first.
abbrev pub contents :
    {T : Type 0} {log : ℕ} {s : Shared T} {p : Producer} {c : Consumer} → Inv log s p c → List T
contents {log = log} {s} inv = window s.buffer (2 ^ log) inv.taken (inv.put - inv.taken)

-- A write at index `e`, less than a round from `i`, behind a window up to `e`.
pub window-write :
    {T : Type 0} (buffer : ℕ → T) (cap : ℕ) (v : T) (i n e : ℕ)
    → 0 < cap
    → i + n ≡ e
    → n < cap
    → window (λ j. if j == e % cap then v else buffer j) cap i (suc n)
      ≡ window buffer cap i n ++ (v ∷ [])
window-write buffer cap v i zero e pos eq h =
    let same_slot : i % cap ≡ e % cap = ap (λ (x : ℕ). x % cap) (omega arith) in ground arith
window-write buffer cap v i (suc n) e pos eq h =
    ap₂ ◌∷◌
      (ground (
        arith,
        apart cap i 1 e 1 pos (omega arith) (omega arith) (omega (arith, mod-lt i pos))
            (omega (arith, mod-lt e pos)),
      ))
      (window-write buffer cap v (i + 1) n e pos (omega arith) (omega arith))

-- A difference of wrapped indices.
pub sub64_lem : (a b : ℕ) → b ≤ a → a < b + 2 ^ 64 → sub64 (a % 2 ^ 64) (b % 2 ^ 64) ≡ a - b
sub64_lem a b h k = omega arith

pub add64_lem : (a : ℕ) → add64 (a % 2 ^ 64) 1 ≡ (a + 1) % 2 ^ 64
add64_lem a = omega arith
