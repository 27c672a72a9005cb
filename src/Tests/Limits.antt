-- ===== src/Tests/Limits.antt =====
-- Room in a ring of four blocks.
use nanolog_rs.Prelude.{ℕ, ◌+◌, ◌*◌, ◌%◌, ◌^◌, ◌≤◌, ◌<◌, ◌≡◌, ◌-◌, ◌↔◌, refl, some, none, arith}
use nanolog_rs.Prelude.Bytes.{le_bytes, write_bytes}
use nanolog_rs.VarQueue.{SpscVarQueueOpt, Alloc, try_alloc, alloc_blocks, reserve, block_at, pad_at}
use nanolog_rs.VarQueue.Layout.{IsSize, blocks}
use nanolog_rs.VarQueue.Reserve.{InLife, start}
use nanolog_rs.VarQueue.Limits.{
  IsOrdered, try_alloc_in_bounds, try_alloc_refuses_iff, try_alloc_empty_refuses,
  try_alloc_past_life,
}

abbrev four : IsSize 4
four = record { log = 2; pow = refl; small = omega arith }

-- Written up to block `w`, and all read.
abbrev at_block : ℕ → SpscVarQueueOpt
at_block w = record {
  blk = λ _. 0;
  writing_idx = w;
  written_idx = w;
  read_idx = w;
  read_idx_cache = 0;
}

three_life : (len : ℕ) → len < 1000 → InLife 4 (len + 24) (at_block 3)
three_life len h = record {
  short = omega arith;
  read_small = omega arith;
  cache_small = omega arith;
  room = omega arith;
}

two_life : InLife 4 184 (at_block 2)
two_life = record {
  short = omega arith;
  read_small = omega arith;
  cache_small = omega arith;
  room = omega arith;
}

in_order : (w : ℕ) → IsOrdered (at_block w)
in_order w = record { known = omega arith; behind = omega arith }

-- Two blocks, which go to the ring's start.
abbrev rewound_alloc : Alloc
rewound_alloc = record { hdr = 0; payload = 24; payload_cap = 104; total_bytes = 84; blk_sz = 2 }

abbrev rewound_queue : SpscVarQueueOpt
rewound_queue = record (at_block 3) {
  blk = write_bytes (λ _. 0) 192 (le_bytes 4 0);
  writing_idx = 6;
  read_idx_cache = 3;
}

try_alloc_in_bounds_example :
    (0 % 64 ≡ 0)
    × (24 ≡ 0 + 24)
    × (0 + 2 * 64 ≤ 4 * 64)
    × (60 ≤ 104)
    × (24 + 104 ≤ 4 * 64)
    × (84 ≡ 60 + 24)
    × (6 ≤ 3 + 4)
    × (3 + 2 ≤ 6)
unfolding try_alloc alloc_blocks reserve block_at pad_at
try_alloc_in_bounds_example =
    try_alloc_in_bounds four 60 (at_block 3) (three_life 60 (omega arith)) (in_order 3)
      {a = rewound_alloc} {q' = rewound_queue} refl

try_alloc_refuses_iff_example :
    (try_alloc 4 60 (at_block 3) ≡ (none, record (at_block 3) { read_idx_cache = 3 }))
    ↔ (3 + 4 < start 4 3 (blocks 84) + blocks 84)
try_alloc_refuses_iff_example =
    try_alloc_refuses_iff four 60 (at_block 3) (three_life 60 (omega arith)) (in_order 3)

-- Three blocks, in an empty ring whose next free block is the third.
try_alloc_empty_refuses_example :
    try_alloc 4 160 (at_block 2) ≡ (none, record (at_block 2) { read_idx_cache = 2 })
try_alloc_empty_refuses_example =
    try_alloc_empty_refuses four 160 (at_block 2) two_life (in_order 2) refl (omega arith)
      (omega arith)

-- All four blocks are still to be read.
abbrev unread : SpscVarQueueOpt
unread = record {
  blk = λ _. 0;
  writing_idx = 2 ^ 31 + 3;
  written_idx = 2 ^ 31 + 3;
  read_idx = 2 ^ 31 - 1;
  read_idx_cache = 2 ^ 31 - 1;
}

try_alloc_past_life_example :
    (a : Alloc) × (q : SpscVarQueueOpt) × (try_alloc 4 20 unread ≡ (some a, q))
    × (q.read_idx_cache ≡ 2 ^ 31 - 1)
    × (q.writing_idx ≡ 2 ^ 31 + 3 + blocks 44)
try_alloc_past_life_example =
    try_alloc_past_life four 20 unread (omega arith) (omega arith) (omega arith) (omega arith)
      (omega arith)
