-- ===== src/VarQueue/Limits.antt =====
-- When `try_alloc` of src/spsc_var_queue_opt.rs grants room, and when not.
use native.Mathlib.Nat.{mod-lt}
use nanolog_rs.Prelude.{
  ℕ, ◌+◌, ◌*◌, ◌%◌, ◌^◌, ◌≤◌, ◌<◌, ◌≡◌, ◌↔◌, refl, sym, ◌∙◌, some, none, arith, false, dec_le,
}
use nanolog_rs.VarQueue.{SpscVarQueueOpt, Alloc, try_alloc, alloc_blocks, taken, reserve, pad_at}
use nanolog_rs.VarQueue.Layout.{IsSize, IsSize-pos, blocks, div_ceil_lem, pad_at_lem}
use nanolog_rs.VarQueue.Reserve.{
  start, start_fit, granted, marked, fresh, alloc_spec, InLife, Grants, alloc_spec-Grants,
  try_alloc_lem,
}

-- The producer's knowledge of the consumer is behind it, and the consumer is not ahead.
pub record IsOrdered (q : SpscVarQueueOpt) : Type 0 where
  pub known : q.read_idx_cache ≤ q.read_idx
  pub behind : q.read_idx ≤ q.writing_idx

module _ {n : ℕ} (s : IsSize n) (len : ℕ) (q : SpscVarQueueOpt) (l : InLife n (len + 24) q)
    (o : IsOrdered q) where
  abbrev b : ℕ
  b = blocks (len + 24)

  abbrev end : ℕ
  end = start n q.writing_idx b + b

  spec : try_alloc n len q ≡ alloc_spec n (len + 24) q
  spec = try_alloc_lem s len q l

  -- In a ring of a power of two of blocks, at most 2 ^ 30, before any index reaches 2 ^ 31, with the
  -- consumer not ahead of the producer nor behind what the producer knows of it: a record that
  -- `try_alloc` grants has its header at a block of the ring, lies whole before the ring's end, has
  -- room for its payload, and ends at most one round beyond the consumer's index; the producer's
  -- index moves on by at least its blocks.
  pub try_alloc_in_bounds :
      {a : Alloc} {q' : SpscVarQueueOpt}
      → try_alloc n len q ≡ (some a, q')
      → (a.hdr % 64 ≡ 0)
        × (a.payload ≡ a.hdr + 24)
        × (a.hdr + a.blk_sz * 64 ≤ n * 64)
        × (len ≤ a.payload_cap)
        × (a.payload + a.payload_cap ≤ n * 64)
        × (a.total_bytes ≡ len + 24)
        × (q'.writing_idx ≤ q.read_idx + n)
        × (q.writing_idx + a.blk_sz ≤ q'.writing_idx)
  try_alloc_in_bounds {a} {q'} e =
      rw (g.alloc_is, g.queue_is)
        (
          omega arith,
          refl,
          omega (arith, fits),
          omega arith,
          omega (arith, fits),
          refl,
          omega (arith, g.room, g.known_is, o.known),
          ground arith,
        )
    where
      g : Grants n (len + 24) q a q'
      g = alloc_spec-Grants n (len + 24) q (sym spec ∙ e)

      fits : start n q.writing_idx b % n + b ≤ n
      fits = start_fit s q.writing_idx b (
          ground
            (arith, g.room, g.known_is, o.known, o.behind, mod-lt q.writing_idx (IsSize-pos s)))

  -- In a ring of a power of two of blocks, at most 2 ^ 30, before any index reaches 2 ^ 31, with the
  -- consumer not ahead of the producer nor behind what the producer knows of it: `try_alloc`
  -- refuses, with no change but to the producer's copy of the consumer's index, exactly when the
  -- record would end more than a round beyond the consumer's index as it is now.
  pub try_alloc_refuses_iff :
      (try_alloc n len q ≡ (none, record q { read_idx_cache = q.read_idx }))
      ↔ (q.read_idx + n < start n q.writing_idx (blocks (len + 24)) + blocks (len + 24))
  try_alloc_refuses_iff = rw spec (λ e. ground arith, λ h. ground (arith, o.known))

  -- In a ring of a power of two of blocks, at most 2 ^ 30, before any index reaches 2 ^ 31, with the
  -- consumer not ahead of the producer nor behind what the producer knows of it: a record of
  -- more blocks than the ring has is refused.
  pub try_alloc_oversize : n < blocks (len + 24) → (try_alloc n len q).0 ≡ none
  try_alloc_oversize h =
      rw spec (ground (arith, o.known, o.behind, mod-lt q.writing_idx (IsSize-pos s)))

  -- In a ring of a power of two of blocks, at most 2 ^ 30, before any index reaches 2 ^ 31, with the
  -- consumer not ahead of the producer nor behind what the producer knows of it: a record of
  -- at most half the ring is granted if the ring is empty.
  pub try_alloc_empty_half :
      q.read_idx ≡ q.writing_idx
      → 2 * blocks (len + 24) ≤ n
      → (a : Alloc) × (q' : SpscVarQueueOpt) × (try_alloc n len q ≡ (some a, q'))
  try_alloc_empty_half e h = elim (dec_le end (q.read_idx_cache + n)) [
    | yes near ↦ (
      granted n (len + 24) b q,
      record q { blk = marked n b q; writing_idx = end },
      spec ∙ ground arith,
    )
    | no far ↦ (
      granted n (len + 24) b (fresh q),
      record (fresh q) { blk = marked n b (fresh q); writing_idx = end },
      spec ∙ ground (arith, mod-lt q.writing_idx (IsSize-pos s)),
    )
  ]

  -- In a ring of a power of two of blocks, at most 2 ^ 30, before any index reaches 2 ^ 31, with the
  -- consumer not ahead of the producer nor behind what the producer knows of it: a record
  -- that fits neither between the next free block and the ring's end nor before that block is
  -- refused though the ring is empty.
  pub try_alloc_empty_refuses :
      q.read_idx ≡ q.writing_idx
      → n < q.writing_idx % n + blocks (len + 24)
      → q.writing_idx % n < blocks (len + 24)
      → try_alloc n len q ≡ (none, record q { read_idx_cache = q.read_idx })
  try_alloc_empty_refuses e h k =
      spec ∙ ground (arith, o.known, o.behind, mod-lt q.writing_idx (IsSize-pos s))

-- If the index that the consumer has to reach is 2 ^ 31 or more, the one that the producer knows is
-- below, and the record fits before the ring's end, then the record is granted whatever has been
-- read, and the producer keeps the old index.
pub try_alloc_past_life :
    {n : ℕ} (s : IsSize n) (len : ℕ) (q : SpscVarQueueOpt)
    → len + 24 < 2 ^ 32
    → q.read_idx_cache < 2 ^ 31
    → q.writing_idx % n + blocks (len + 24) ≤ n
    → 2 ^ 31 + n ≤ q.writing_idx + blocks (len + 24)
    → q.writing_idx + blocks (len + 24) < 2 ^ 32
    → (a : Alloc) × (q' : SpscVarQueueOpt) × (try_alloc n len q ≡ (some a, q'))
      × (q'.read_idx_cache ≡ q.read_idx_cache)
      × (q'.writing_idx ≡ q.writing_idx + blocks (len + 24))
unfolding try_alloc alloc_blocks taken reserve
try_alloc_past_life {n} s len q h1 h2 h3 h4 h5 =
    let b = blocks (len + 24) in
    let room = reserve n false (pad_at n q.writing_idx) (len + 24) b q in
    (
      room.0,
      room.1,
      ground (arith, pad_at_lem q.writing_idx s, div_ceil_lem (len + 24), s.small),
      refl,
      omega arith,
    )
