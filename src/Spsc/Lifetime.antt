-- ===== src/Spsc/Lifetime.antt =====
-- The two ends of a queue's life in src/spsc.rs: `ring_buffer` makes an empty one, and `drop`
-- drops each value that is still in it once, oldest first.
use native.Mathlib.Nat.{pow-suc, pow-succ', pow-le-pow_right}
use nanolog_rs.Prelude.{
  ℕ, zero, suc, ◌+◌, ◌-◌, ◌*◌, ◌%◌, ◌^◌, ◌≤◌, ◌<◌, ◌≡◌, refl, sym, ap, ◌∙◌, some, [], arith, length,
  dec_le, eq→==,
}
use nanolog_rs.Prelude.Outcome.{ok}
use nanolog_rs.Spsc.{
  Shared, Producer, Consumer, next_pow2_from, next_power_of_two, ring_buffer, drop_from, drop,
}
use nanolog_rs.Spsc.Inv.{Inv, pow_range, slot_of, window, length-window, contents, add64_lem}

next_pow2_from_lem :
    (fuel k m n : ℕ)
    → k + fuel ≡ m
    → n ≤ 2 ^ m
    → 2 ^ k < 2 * n
    → (l : ℕ) × (next_pow2_from fuel (2 ^ k) n ≡ 2 ^ l) × (n ≤ 2 ^ l) × (2 ^ l < 2 * n)
unfolding next_pow2_from
next_pow2_from_lem zero k m n e h lt =
    let same : 2 ^ k ≡ 2 ^ m = ap (λ (x : ℕ). 2 ^ x) (omega arith) in (k, refl, omega arith, lt)
next_pow2_from_lem (suc fuel) k m n e h lt = elim (dec_le n (2 ^ k)) [
  | yes le ↦ (k, ground arith, le, lt)
  | no more ↦
      let (l, found, up, down) =
        next_pow2_from_lem fuel (suc k) m n (omega arith) h (omega (arith, pow-suc 2 k)) in
      (l, ground (arith, pow-succ' 2 k), up, down)
]

-- The least power of two that is not below the capacity.
pub next_power_of_two_lem :
    (n : ℕ)
    → 0 < n
    → n ≤ 2 ^ 63
    → (l : ℕ) × (next_power_of_two n ≡ 2 ^ l) × (n ≤ 2 ^ l) × (2 ^ l < 2 * n)
unfolding next_power_of_two
next_power_of_two_lem n pos h =
    next_pow2_from_lem 64 0 64 n (omega arith) (omega arith) (omega arith)

module _ {T : Type 0} {log : ℕ} {s : Shared T} {p : Producer} {c : Consumer}
    (inv : Inv log s p c) where
  open inv use {taken, put, small, masks, tails, heads, in_order}

  drop_from_lem :
      (fuel i n : ℕ)
      → i + n ≡ put
      → n < fuel
      → n ≤ 2 ^ 62
      → drop_from fuel s (i % 2 ^ 64) ≡ some (window s.buffer (2 ^ log) i n)
  unfolding drop_from
  drop_from_lem zero i n e h k = absurd (omega arith)
  drop_from_lem (suc fuel) i zero e h k =
      let last : i % 2 ^ 64 ≡ s.tail = ap (λ (x : ℕ). x % 2 ^ 64) (omega arith) ∙ sym tails.0 in
      rw (eq→== _ _ last) refl
  drop_from_lem (suc fuel) i (suc n) e h k = ground (
    arith,
    add64_lem i,
    drop_from_lem fuel (i + 1) n (omega arith) (omega arith) (omega arith),
    slot_of log i small,
    masks,
    tails,
  )

  -- In a state that satisfies the invariant, `drop` ends, on fuel for one round more than there are
  -- values, and drops exactly the contents, each once, oldest first.
  pub drop_lem : (fuel : ℕ) → length (contents inv) < fuel → drop fuel s ≡ some (contents inv)
  unfolding drop
  drop_lem fuel h =
      ap (drop_from fuel s) heads.0
      ∙ (drop_from_lem fuel taken (put - taken) (omega (arith, in_order))
          (omega (arith, length-window s.buffer (2 ^ log) taken (put - taken)))
          (omega (arith, inv.window, in_order, pow_range log small)))

log_small : (l size : ℕ) → 0 < size → 2 ^ l * size < 2 ^ 63 → l ≤ 62
log_small l size h k = elim (dec_le l 62) [
  | yes le ↦ le
  | no big ↦
      let most : 2 ^ 63 ≤ 2 ^ l = pow-le-pow_right (omega arith) {i = 63} (omega arith) in
      absurd (mul_lt most)
]
  where
    mul_lt : 2 ^ 63 ≤ 2 ^ l → ⊥
    mul_lt most = grind arith

-- The state that `ring_buffer` makes with `2 ^ log` slots.
new-Inv :
    {T : Type 0} (uninit : ℕ → T) (log mask : ℕ)
    → log ≤ 62
    → mask ≡ 2 ^ log - 1
    → Inv log
        (record { tail = 0; head = 0; buffer = uninit; mask = mask })
        (record { local_tail = 0; cached_head = 0; mask = mask })
        (record { local_head = 0; cached_tail = 0; mask = mask })
new-Inv uninit log mask small e = record {
  taken = 0;
  put = 0;
  known_taken = 0;
  known_put = 0;
  small = small;
  masks = (e, e, e);
  tails = (refl, refl);
  heads = (refl, refl);
  caches = (refl, refl);
  in_order = omega arith;
  window = omega arith;
}

-- For a capacity from 1 to 2 ^ 63 whose slots, rounded up to a power of two, take less than 2 ^ 63
-- bytes, and values that take at least one byte, `ring_buffer` returns an empty queue that satisfies
-- the invariant, with a power of two of slots, at least the capacity and less than twice it.
pub ring_buffer_lem :
    {T : Type 0} (uninit : ℕ → T) (size_of capacity : ℕ)
    → 0 < size_of
    → 0 < capacity
    → capacity ≤ 2 ^ 63
    → next_power_of_two capacity * size_of < 2 ^ 63
    → (log : ℕ) × (s : Shared T) × (p : Producer) × (c : Consumer) × (ring_buffer uninit size_of
          capacity
        ≡ ok (s, p, c))
      × (capacity ≤ 2 ^ log)
      × (2 ^ log < 2 * capacity)
      × (inv : Inv log s p c) × (contents inv ≡ [])
unfolding ring_buffer new-Inv
ring_buffer_lem uninit size_of capacity h pos k room =
    let (l, e, up, down) = next_power_of_two_lem capacity pos k in
    (
      l,
      _,
      _,
      _,
      ground arith,
      up,
      down,
      new-Inv uninit l (next_power_of_two capacity - 1) (log_small l size_of h (rw e at room))
          (rw e refl),
      refl,
    )
