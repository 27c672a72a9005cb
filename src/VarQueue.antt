-- ===== src/VarQueue.antt =====
-- src/spsc_var_queue_opt.rs: a ring of 64-byte blocks that carries records of any length from one
-- producer thread to one consumer thread. The ring's memory is the bytes of its blocks; a pointer
-- is a byte offset into them. A record's header is four little-endian fields at its first block.
-- An index is a `u32` that only grows, and wraps; `& mask` takes it to a block.
pub mod Layout
pub mod Frame
pub mod Reserve
pub mod Consume
pub mod Limits
use nanolog_rs.Prelude.{
  ℕ, zero, suc, ◌+◌, ◌-◌, ◌*◌, ◌/◌, ◌^◌, bit_and, Bool, not, ◌&&◌, Option, none, some, List, ltb,
  leb, ◌==◌, if◌then◌else◌,
}
use nanolog_rs.Prelude.Words.{u32, add32, sub32, add64, sub64, lt_i32}
use nanolog_rs.Prelude.Bytes.{Mem, le_bytes, of_le_bytes, write_bytes, read_bytes}
use nanolog_rs.Prelude.Outcome.{Outcome, ok, assert}

abbrev pub block_size : ℕ
block_size = 64

-- `size_of::<MsgHeader>()`: u32, u32, i64, u64
abbrev pub msg_header_size : ℕ
msg_header_size = 24

-- `tsc` is the bit pattern of the `i64`.
pub record MsgHeader : Type 0 where
  pub size : ℕ
  pub level : ℕ
  pub tsc : ℕ
  pub log_func : ℕ

unfoldable pub is_pow2 : ℕ → Bool
is_pow2 x = not (x == 0) && (bit_and x (x - 1) == 0)

-- `(a + b - 1) / b` on `usize`
unfoldable pub div_ceil : ℕ → ℕ → ℕ
div_ceil a b = sub64 (add64 a b) 1 / b

pub record SpscVarQueueOpt : Type 0 where
  pub blk : Mem
  pub writing_idx : ℕ
  pub written_idx : ℕ
  pub read_idx : ℕ
  pub read_idx_cache : ℕ

-- The header at a byte offset.
unfoldable pub header_at : Mem → ℕ → MsgHeader
header_at m a = record {
  size = of_le_bytes (read_bytes m a 4);
  level = of_le_bytes (read_bytes m (a + 4) 4);
  tsc = of_le_bytes (read_bytes m (a + 8) 8);
  log_func = of_le_bytes (read_bytes m (a + 16) 8);
}

-- What `try_alloc` returns: where the header and the payload go, the room for the payload, and the
-- size of the record in bytes and in blocks.
pub record Alloc : Type 0 where
  pub hdr : ℕ
  pub payload : ℕ
  pub payload_cap : ℕ
  pub total_bytes : ℕ
  pub blk_sz : ℕ

-- What `front` returns.
pub record Front : Type 0 where
  pub hdr : ℕ
  pub payload : ℕ
  pub size : ℕ

-- `BLK_CNT`
module _ (blk_cnt : ℕ) where
  unfoldable pub new : Outcome SpscVarQueueOpt
  unfolding is_pow2
  new = assert (is_pow2 blk_cnt) (
      ok (record {
        blk = λ _. 0;
        writing_idx = 0;
        written_idx = 0;
        read_idx = 0;
        read_idx_cache = 0;
      }))

  unfoldable pub mask : ℕ
  mask = u32 blk_cnt - 1

  -- The offset of the block of an index: `blk.add((i & mask()) as usize)`.
  unfoldable pub block_at : ℕ → ℕ
  unfolding mask
  block_at i = block_size * bit_and i mask

  -- Blocks from an index to the ring's end.
  unfoldable pub pad_at : ℕ → ℕ
  unfolding mask
  pad_at i = u32 blk_cnt - bit_and i mask

  -- The second half of `try_alloc`, once the space is there.
  unfoldable pub reserve : Bool → ℕ → ℕ → ℕ → SpscVarQueueOpt → Alloc × SpscVarQueueOpt
  reserve rewind pad total_bytes blk_sz q =
      let q1 : SpscVarQueueOpt =
        (if rewind
          then record q {
            blk = write_bytes q.blk (block_at q.writing_idx) (le_bytes 4 0);
            writing_idx = add32 q.writing_idx pad;
          }
          else q) in
      let write_idx = q1.writing_idx in
      (
        record {
          hdr = block_at write_idx;
          payload = block_at write_idx + msg_header_size;
          payload_cap = blk_sz * block_size - msg_header_size;
          total_bytes = u32 total_bytes;
          blk_sz = blk_sz;
        },
        record q1 { writing_idx = add32 write_idx blk_sz },
      )

  taken : Alloc × SpscVarQueueOpt → Option Alloc × SpscVarQueueOpt
  taken (a, q) = (some a, q)

  -- The test against `read_idx_cache`, and against `read_idx` where that fails.
  unfoldable pub alloc_blocks : ℕ → ℕ → SpscVarQueueOpt → Option Alloc × SpscVarQueueOpt
  unfolding taken
  alloc_blocks total_bytes blk_sz q =
      let pad = pad_at q.writing_idx in
      let rewind = ltb pad blk_sz in
      let needed = add32 blk_sz (if rewind then pad else 0) in
      let min_read_idx = sub32 (add32 q.writing_idx needed) (u32 blk_cnt) in
      let fresh : SpscVarQueueOpt = record q { read_idx_cache = q.read_idx } in
      if lt_i32 q.read_idx_cache min_read_idx
      then (if lt_i32 q.read_idx min_read_idx
          then (none, fresh)
          else taken (reserve rewind pad total_bytes blk_sz fresh))
      else taken (reserve rewind pad total_bytes blk_sz q)

  unfoldable pub try_alloc : ℕ → SpscVarQueueOpt → Option Alloc × SpscVarQueueOpt
  unfolding div_ceil
  try_alloc payload_len q =
      let total_bytes = payload_len + msg_header_size in
      if ltb total_bytes (2 ^ 64)
      then alloc_blocks total_bytes (u32 (div_ceil total_bytes block_size)) q
      else (none, q)

  -- `loop` of `front`, on fuel: `none` means that the fuel ran out.
  unfoldable pub front_loop : ℕ → ℕ → ℕ → SpscVarQueueOpt → Option (Option Front × SpscVarQueueOpt)
  front_loop zero w r q = none
  front_loop (suc fuel) w r q =
      let sz = of_le_bytes (read_bytes q.blk (block_at r) 4) in
      let r' = add32 r (pad_at r) in
      let q' : SpscVarQueueOpt = record q { read_idx = r' } in
      let rest = front_loop fuel w r' q' in
      if sz == 0
      then (if r' == w then some (none, q') else rest)
      else some
          (some (record { hdr = block_at r; payload = block_at r + msg_header_size; size = sz }), q)

  unfoldable pub front : ℕ → SpscVarQueueOpt → Option (Option Front × SpscVarQueueOpt)
  unfolding front_loop
  front fuel q =
      if q.read_idx == q.written_idx
      then some (none, q)
      else front_loop fuel q.written_idx q.read_idx q

  -- `debug_assert!(sz != 0)` is for debug builds.
  unfoldable pub pop : SpscVarQueueOpt → SpscVarQueueOpt
  unfolding block_at div_ceil
  pop q =
      let sz = of_le_bytes (read_bytes q.blk (block_at q.read_idx) 4) in
      record q { read_idx = add32 q.read_idx (u32 (div_ceil sz block_size)) }

-- Publish a reserved record: its size is written last.
unfoldable pub commit : ℕ → ℕ → SpscVarQueueOpt → SpscVarQueueOpt
commit hdr total q = record q {
  blk = write_bytes q.blk hdr (le_bytes 4 total);
  written_idx = q.writing_idx;
}
