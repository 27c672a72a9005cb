-- ===== src/VarQueue/Layout.antt =====
-- How records lie in the ring of src/spsc_var_queue_opt.rs. Here an index counts blocks from the
-- start and does not wrap, and the ring has `n` blocks, a power of two.
use native.Mathlib.Nat.{one-le-pow}
use nanolog_rs.Prelude.{
  ℕ, ◌+◌, ◌-◌, ◌*◌, ◌/◌, ◌%◌, ◌^◌, ◌≤◌, ◌<◌, ◌≡◌, sym, subst, List, [], ◌∷◌, ◌++◌, arith, bit_and,
  length,
}
use nanolog_rs.Prelude.Words.{u32, bit_and_mask}
use nanolog_rs.Prelude.Bytes.{Mem, of_le_bytes, read_bytes}
use nanolog_rs.VarQueue.{MsgHeader, header_at, div_ceil, mask, block_at, pad_at}

-- A number of blocks that `new` accepts, small enough for the signed test of `try_alloc`.
pub record IsSize (n : ℕ) : Type 0 where
  pub log : ℕ
  pub pow : n ≡ 2 ^ log
  pub small : n ≤ 2 ^ 30

pub IsSize-pos : {n : ℕ} → IsSize n → 0 < n
IsSize-pos s = omega (arith, s.pow, one-le-pow s.log 2)

bit_and-mask : {n : ℕ} (i : ℕ) → IsSize n → bit_and i (mask n) ≡ i % n
unfolding mask
bit_and-mask {n} i s = ground (arith, s.pow, s.small, bit_and_mask s.log i)

pub block_at_lem : {n : ℕ} (i : ℕ) → IsSize n → block_at n i ≡ 64 * (i % n)
unfolding block_at
block_at_lem i s = ground (arith, bit_and-mask i s)

pub pad_at_lem : {n : ℕ} (i : ℕ) → IsSize n → pad_at n i ≡ n - i % n
unfolding pad_at
pad_at_lem i s = ground (arith, bit_and-mask i s, s.small)

-- A record as the producer hands it over: the three header fields that it sets, and the payload.
pub record Msg : Type 0 where
  pub level : ℕ
  pub tsc : ℕ
  pub log_func : ℕ
  pub payload : List ℕ

abbrev pub total : Msg → ℕ
total m = length m.payload + 24

-- blocks for a record of that many bytes
abbrev pub blocks : ℕ → ℕ
blocks bytes = (bytes + 63) / 64

pub div_ceil_lem : (b : ℕ) → b < 2 ^ 37 → u32 (div_ceil b 64) ≡ blocks b
unfolding div_ceil
div_ceil_lem b h = omega arith

abbrev pub header : Msg → MsgHeader
header m = record { size = total m; level = m.level; tsc = m.tsc; log_func = m.log_func }

-- The record lies at byte `a`.
pub record IsAt (mem : Mem) (a : ℕ) (m : Msg) : Type 0 where
  pub head : header_at mem a ≡ header m
  pub body : read_bytes mem (a + 24) (length m.payload) ≡ m.payload

-- Records lie one behind the other from block `r` to block `w`; one with no room up to the ring's
-- end stands at the ring's start, and a block of size 0 says so.
pub data Chain (n : ℕ) (mem : Mem) (w : ℕ) : ℕ → List Msg → Type 0 where
  done : {r : ℕ} → r ≡ w → Chain n mem w r []
  rewound :
      {r : ℕ} {ms : List Msg}
      → of_le_bytes (read_bytes mem (64 * (r % n)) 4) ≡ 0
      → r + (n - r % n) ≤ w
      → Chain n mem w (r + (n - r % n)) ms
      → Chain n mem w r ms
  message :
      {r : ℕ} (m : Msg) {ms : List Msg}
      → IsAt mem (64 * (r % n)) m
      → r % n + blocks (total m) ≤ n
      → r + blocks (total m) ≤ w
      → Chain n mem w (r + blocks (total m)) ms
      → Chain n mem w r (m ∷ ms)

-- What follows a chain extends it.
pub Chain-append :
    {n : ℕ} {mem : Mem} {w w' r : ℕ} {ms ms' : List Msg}
    → w ≤ w'
    → Chain n mem w r ms
    → Chain n mem w' w ms'
    → Chain n mem w' r (ms ++ ms')
Chain-append {n} {mem} {w} {w'} {r} {ms' = ms'} le (done e) c =
    subst (λ x. Chain n mem w' x ms') (sym e) c
Chain-append le (rewound z h c) c' = rewound z (omega arith) (Chain-append le c c')
Chain-append le (message m at fit h c) c' = message m at fit (omega arith) (Chain-append le c c')
