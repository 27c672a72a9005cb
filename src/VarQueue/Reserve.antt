-- ===== src/VarQueue/Reserve.antt =====
-- `Producer::try_alloc` of src/spsc_var_queue_opt.rs with its `u32` arithmetic resolved, for the
-- part of the queue's life in which no index reaches 2 ^ 31.
use native.Mathlib.Nat.{mod-lt, mul-mod_right, div-add-mod}
use nanolog_rs.Prelude.{
  dec_le, ◌⊎◌, ℕ, ◌+◌, ◌-◌, ◌*◌, ◌/◌, ◌%◌, ◌^◌, ◌≤◌, ◌<◌, ◌≡◌, refl, ap, ◌∙◌, inl, inr, Option,
  none, some, arith, ltb, leb, if◌then◌else◌, Bool-cases,
}
use nanolog_rs.Prelude.Words.{u32, add32, sub32, lt_i32}
use nanolog_rs.Prelude.Bytes.{Mem, le_bytes, write_bytes}
use nanolog_rs.VarQueue.{SpscVarQueueOpt, Alloc, reserve, taken, alloc_blocks, try_alloc}
use nanolog_rs.VarQueue.Layout.{IsSize, IsSize-pos, block_at_lem, pad_at_lem, blocks, div_ceil_lem}

-- The block at which a record of `b` blocks starts, if block `w` is the next free one.
abbrev pub start : ℕ → ℕ → ℕ → ℕ
start n w b = if ltb (n - w % n) b then w + (n - w % n) else w

abbrev pub granted : ℕ → ℕ → ℕ → SpscVarQueueOpt → Alloc
granted n bytes b q = record {
  hdr = 64 * (start n q.writing_idx b % n);
  payload = 64 * (start n q.writing_idx b % n) + 24;
  payload_cap = b * 64 - 24;
  total_bytes = bytes;
  blk_sz = b;
}

-- The memory with the marker of size 0, where the record does not fit before the ring's end.
abbrev pub marked : ℕ → ℕ → SpscVarQueueOpt → Mem
marked n b q =
    if ltb (n - q.writing_idx % n) b
    then write_bytes q.blk (64 * (q.writing_idx % n)) (le_bytes 4 0)
    else q.blk

abbrev pub reserved : ℕ → ℕ → SpscVarQueueOpt → SpscVarQueueOpt
reserved n b q = record q { blk = marked n b q; writing_idx = start n q.writing_idx b + b }

module _ {n : ℕ} (s : IsSize n) where
  reserve_lem :
      (bytes b : ℕ) (q : SpscVarQueueOpt)
      → bytes < 2 ^ 32
      → q.writing_idx + b + n < 2 ^ 31
      → reserve n (ltb (n - q.writing_idx % n) b) (n - q.writing_idx % n) bytes b q
        ≡ (granted n bytes b q, reserved n b q)
  unfolding reserve
  reserve_lem bytes b q small h = elim (Bool-cases (ltb (n - q.writing_idx % n) b)) [
    | inl e ↦ rw e ground (
      arith,
      block_at_lem q.writing_idx s,
      block_at_lem (q.writing_idx + (n - q.writing_idx % n)) s,
    )
    | inr e ↦ rw e ground (arith, block_at_lem q.writing_idx s)
  ]

  -- The signed test on wrapped numbers is the plain one.
  signed_test :
      (c w d : ℕ)
      → c < 2 ^ 31
      → w + d < 2 ^ 31
      → lt_i32 c (sub32 (add32 w d) (u32 n)) ≡ ltb (c + n) (w + d)
  signed_test c w d hc hw = let small = s.small in ground arith

abbrev pub fresh : SpscVarQueueOpt → SpscVarQueueOpt
fresh q = record q { read_idx_cache = q.read_idx }

-- What `try_alloc` does, without wrap: a record is taken if it ends less than a round behind the
-- index that the producer knows of the consumer; the real one is read if the known one is too old.
abbrev pub alloc_spec : ℕ → ℕ → SpscVarQueueOpt → Option Alloc × SpscVarQueueOpt
alloc_spec n bytes q =
    let b = blocks bytes in
    let end = start n q.writing_idx b + b in
    if leb end (q.read_idx_cache + n)
    then (some (granted n bytes b q), reserved n b q)
    else (if leb end (q.read_idx + n)
        then (some (granted n bytes b (fresh q)), reserved n b (fresh q))
        else (none, fresh q))

-- No index of the queue, and none that a record of that many bytes can lead to, reaches 2 ^ 31.
pub record InLife (n bytes : ℕ) (q : SpscVarQueueOpt) : Type 0 where
  pub short : bytes < 2 ^ 32
  pub read_small : q.read_idx < 2 ^ 31
  pub cache_small : q.read_idx_cache < 2 ^ 31
  pub room : q.writing_idx + blocks bytes + n < 2 ^ 31

module _ {n : ℕ} (s : IsSize n) where
  mul-add-one : (a b : ℕ) → a * (b + 1) ≡ a * b + a
  mul-add-one a b = omega arith

  needed : ℕ → ℕ → ℕ
  needed w b = b + (if ltb (n - w % n) b then n - w % n else 0)

  alloc_blocks_lem :
      (bytes : ℕ) (q : SpscVarQueueOpt)
      → InLife n bytes q
      → alloc_blocks n bytes (blocks bytes) q ≡ alloc_spec n bytes q
  unfolding alloc_blocks taken needed
  alloc_blocks_lem bytes q l = ground (
    arith,
    pad_at_lem q.writing_idx s,
    signed_test s q.read_idx_cache q.writing_idx (needed q.writing_idx (blocks bytes)),
    signed_test s q.read_idx q.writing_idx (needed q.writing_idx (blocks bytes)),
    reserve_lem s bytes (blocks bytes) q,
    reserve_lem s bytes (blocks bytes) (fresh q),
  )

  -- `try_alloc` is its specification without wrap.
  pub try_alloc_lem :
      (payload_len : ℕ) (q : SpscVarQueueOpt)
      → InLife n (payload_len + 24) q
      → try_alloc n payload_len q ≡ alloc_spec n (payload_len + 24) q
  unfolding try_alloc
  try_alloc_lem len q l = ground (arith, div_ceil_lem (len + 24), alloc_blocks_lem (len + 24) q l)

  -- A record that is not longer than the ring starts where it fits before the ring's end.
  pub start_fit : (w b : ℕ) → b ≤ n → start n w b % n + b ≤ n
  start_fit w b h =
      let wrap : (w + (n - w % n)) % n ≡ 0 = round w in ground (arith, mod-lt w (IsSize-pos s))
    where
      round : (w : ℕ) → (w + (n - w % n)) % n ≡ 0
      round w =
          ap (λ (x : ℕ). x % n)
            (omega (arith, div-add-mod w n, mod-lt w (IsSize-pos s), mul-add-one n (w / n)))
          ∙ mul-mod_right n (w / n + 1)

-- How a queue changes when `try_alloc` grants a record: the marker, the index, the known `read_idx`.
pub record Grants (n bytes : ℕ) (q : SpscVarQueueOpt) (a : Alloc) (q' : SpscVarQueueOpt)
    : Type 0 where
  pub known : ℕ
  pub known_is : (known ≡ q.read_idx_cache) ⊎ (known ≡ q.read_idx)
  pub room : start n q.writing_idx (blocks bytes) + blocks bytes ≤ known + n
  pub alloc_is : a ≡ granted n bytes (blocks bytes) q
  pub queue_is : q' ≡ record q {
    blk = marked n (blocks bytes) q;
    writing_idx = start n q.writing_idx (blocks bytes) + blocks bytes;
    read_idx_cache = known;
  }

pub alloc_spec-Grants :
    (n bytes : ℕ) (q : SpscVarQueueOpt) {a : Alloc} {q' : SpscVarQueueOpt}
    → alloc_spec n bytes q ≡ (some a, q')
    → Grants n bytes q a q'
alloc_spec-Grants n bytes q e =
    elim (dec_le (start n q.writing_idx (blocks bytes) + blocks bytes) (q.read_idx_cache + n)) [
      | yes near ↦ record {
        known = q.read_idx_cache;
        known_is = inl refl;
        room = near;
        alloc_is = ground arith;
        queue_is = ground arith;
      }
      | no far ↦ record {
        known = q.read_idx;
        known_is = inr refl;
        room = ground arith;
        alloc_is = ground arith;
        queue_is = ground arith;
      }
    ]

-- What a refusal leaves behind.
pub alloc_spec-none :
    (n bytes : ℕ) (q : SpscVarQueueOpt) {q' : SpscVarQueueOpt}
    → alloc_spec n bytes q ≡ (none, q')
    → q' ≡ fresh q
alloc_spec-none n bytes q e = ground arith
