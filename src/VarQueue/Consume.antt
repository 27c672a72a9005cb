-- ===== src/VarQueue/Consume.antt =====
-- `Consumer::front` and `Consumer::pop` of src/spsc_var_queue_opt.rs on a ring that holds a chain
-- of records.
use native.Mathlib.Nat.{mod-lt}
use nanolog_rs.Prelude.{
  ne→==, ◌==◌, if◌then◌else◌, ℕ_discrete, ℕ, zero, suc, ◌+◌, ◌-◌, ◌*◌, ◌%◌, ◌^◌, ◌≤◌, ◌<◌, ◌≡◌, ◌≢◌,
  refl, ap, Option, none, some, List, [], ◌∷◌, arith,
}
use nanolog_rs.Prelude.Bytes.{of_le_bytes, read_bytes}
use nanolog_rs.VarQueue.{SpscVarQueueOpt, MsgHeader, Front, header_at, front_loop, front, pop}
use nanolog_rs.VarQueue.Layout.{
  IsSize, IsSize-pos, block_at_lem, pad_at_lem, Msg, total, blocks, div_ceil_lem, IsAt, Chain, done,
  rewound, message,
}

abbrev pub front_of : ℕ → ℕ → Msg → Front
front_of n r m = record { hdr = 64 * (r % n); payload = 64 * (r % n) + 24; size = total m }

-- The first record stands whole at block `r`, and the others follow it.
pub record Ready (n : ℕ) (q : SpscVarQueueOpt) (r : ℕ) (m : Msg) (ms : List Msg) : Type 0 where
  pub after : q.read_idx ≤ r
  pub at : IsAt q.blk (64 * (r % n)) m
  pub fit : r % n + blocks (total m) ≤ n
  pub inside : r + blocks (total m) ≤ q.written_idx
  pub rest : Chain n q.blk q.written_idx (r + blocks (total m)) ms

-- What `front` finds in a ring that holds `ms`.
abbrev pub Fronts :
    ℕ → SpscVarQueueOpt → List Msg → Option (Option Front × SpscVarQueueOpt) → Type 0
Fronts n q [] res = res ≡ some (none, record q { read_idx = q.written_idx })
Fronts n q (m ∷ ms) res =
    (r : ℕ) × (res ≡ some (some (front_of n r m), record q { read_idx = r })) × Ready n q r m ms

pub IsAt-size :
    {mem : ℕ → ℕ} {a : ℕ} {m : Msg} → IsAt mem a m → of_le_bytes (read_bytes mem a 4) ≡ total m
unfolding header_at
IsAt-size at = ap (λ (h : MsgHeader). h.size) at.head

pub Chain-end :
    {n : ℕ} {mem : ℕ → ℕ} {w r : ℕ} {ms : List Msg}
    → IsSize n
    → r ≡ w
    → Chain n mem w r ms
    → ms ≡ []
Chain-end s e (done e') = refl
Chain-end {n} {r = r} s e (rewound z h c) = absurd (omega (arith, mod-lt r (IsSize-pos s)))
Chain-end s e (message m at fit h c) = absurd (omega arith)

pub Chain-le :
    {n : ℕ} {mem : ℕ → ℕ} {w r : ℕ} {ms : List Msg} → IsSize n → Chain n mem w r ms → r ≤ w
Chain-le s (done e) = omega arith
Chain-le s (rewound z h c) = omega arith
Chain-le s (message m at fit h c) = omega arith

-- At a block before the end that holds a size there is a record.
pub first_record :
    {n : ℕ} (q : SpscVarQueueOpt) {ms : List Msg}
    → q.read_idx ≢ q.written_idx
    → of_le_bytes (read_bytes q.blk (64 * (q.read_idx % n)) 4) ≢ 0
    → Chain n q.blk q.written_idx q.read_idx ms
    → (m : Msg) × (rest : List Msg) × (ms ≡ m ∷ rest) × Ready n q q.read_idx m rest
first_record q ne sz (done e) = absurd (ne e)
first_record q ne sz (rewound z h c) = absurd (sz z)
first_record q ne sz (message m {ms} at fit h c) =
    (m, ms, refl, record { after = omega arith; at = at; fit = fit; inside = h; rest = c })

-- At a block before the end that holds the size 0 the records go on at the ring's start.
pub behind_marker :
    {n : ℕ} {mem : ℕ → ℕ} {w r : ℕ} {ms : List Msg}
    → r ≢ w
    → of_le_bytes (read_bytes mem (64 * (r % n)) 4) ≡ 0
    → Chain n mem w r ms
    → (r + (n - r % n) ≤ w) × Chain n mem w (r + (n - r % n)) ms
behind_marker ne z (done e) = absurd (ne e)
behind_marker ne z (rewound z' h c) = (h, c)
behind_marker ne z (message m at fit h c) = absurd (omega (arith, IsAt-size at, z))

moved : SpscVarQueueOpt → ℕ → SpscVarQueueOpt
moved q r = record q { read_idx = r }

Fronts-moved :
    (n : ℕ) (q : SpscVarQueueOpt) (r : ℕ) (ms : List Msg)
    (res : Option (Option Front × SpscVarQueueOpt))
    → q.read_idx ≤ r
    → Fronts n (moved q r) ms res
    → Fronts n q ms res
unfolding moved
Fronts-moved n q r [] res h f = f
Fronts-moved n q r (m ∷ ms) res h (r', e, ready) = (
  r',
  e,
  record {
    after = omega (arith, ready.after);
    at = ready.at;
    fit = ready.fit;
    inside = ready.inside;
    rest = ready.rest;
  },
)

module _ {n : ℕ} (s : IsSize n) where
  rewind_step :
      (fuel r : ℕ) (q : SpscVarQueueOpt)
      → q.written_idx < 2 ^ 31
      → r + (n - r % n) ≤ q.written_idx
      → of_le_bytes (read_bytes q.blk (64 * (r % n)) 4) ≡ 0
      → front_loop n (suc fuel) q.written_idx r q ≡ (
          let r' = r + (n - r % n) in
          if r' == q.written_idx
          then some (none, moved q r')
          else front_loop n fuel q.written_idx r' (moved q r'))
  unfolding front_loop moved
  rewind_step fuel r q hw h z = ground (arith, block_at_lem r s, pad_at_lem r s)

  -- One round of the loop, at a block before the end; `again` is the next round.
  front_loop_round :
      (fuel r : ℕ) (q : SpscVarQueueOpt) (ms : List Msg)
      → q.written_idx < 2 ^ 31
      → r ≢ q.written_idx
      → q.read_idx ≡ r
      → (let r' = r + (n - r % n) in
          r' ≢ q.written_idx
          → Chain n q.blk q.written_idx r' ms
          → Fronts n (moved q r') ms (front_loop n fuel q.written_idx r' (moved q r')))
      → Chain n q.blk q.written_idx r ms
      → Fronts n q ms (front_loop n (suc fuel) q.written_idx r q)
  unfolding front_loop moved
  front_loop_round fuel r q ms hw ne e again (done e') = absurd (ne e')
  front_loop_round fuel r q ms hw ne e again (rewound z h c) =
      rw (rewind_step fuel r q hw h z) (elim (ℕ_discrete (r + (n - r % n)) q.written_idx) [
        | yes last ↦ rw (Chain-end s last c) (ground arith)
        | no more ↦
            rw (ne→== _ _ more)
              (Fronts-moved n q (r + (n - r % n)) ms _ (omega arith) (again more c))
      ])
  front_loop_round fuel r q ms hw ne e again (message m at fit h c) = (
    r,
    ground (arith, block_at_lem r s, IsAt-size at),
    record { after = omega arith; at = at; fit = fit; inside = h; rest = c },
  )

  -- The loop, at a block before the end, which is the queue's `read_idx`.
  front_loop_lem :
      (fuel r : ℕ) (q : SpscVarQueueOpt) (ms : List Msg)
      → q.written_idx < 2 ^ 31
      → q.written_idx < r + fuel
      → r ≢ q.written_idx
      → q.read_idx ≡ r
      → Chain n q.blk q.written_idx r ms
      → Fronts n q ms (front_loop n fuel q.written_idx r q)
  unfolding moved
  front_loop_lem zero r q ms hw hf ne e c = absurd (omega (arith, Chain-le s c))
  front_loop_lem (suc fuel) r q ms hw hf ne e c =
      front_loop_round fuel r q ms hw ne e
        (λ more c'.
          front_loop_lem fuel (r + (n - r % n)) (moved q (r + (n - r % n))) ms hw
            (omega (arith, mod-lt r (IsSize-pos s))) more refl c')
        c

  -- `front` ends on as much fuel as there are blocks between the indices, and finds the first
  -- record, or finds that there is none.
  pub front_lem :
      (fuel : ℕ) (q : SpscVarQueueOpt) {ms : List Msg}
      → q.written_idx < 2 ^ 31
      → q.written_idx < q.read_idx + fuel
      → Chain n q.blk q.written_idx q.read_idx ms
      → Fronts n q ms (front n fuel q)
  unfolding front
  front_lem fuel q {ms} hw hf c = elim (ℕ_discrete q.read_idx q.written_idx) [
    | yes e ↦ rw (Chain-end s e c) (ground arith)
    | no ne ↦ rw (ne→== _ _ ne) (front_loop_lem fuel q.read_idx q ms hw hf ne refl c)
  ]

  -- `pop` goes on to the next record.
  pub pop_lem :
      (q : SpscVarQueueOpt) (r : ℕ) (m : Msg) (ms : List Msg)
      → q.written_idx < 2 ^ 31
      → Ready n q r m ms
      → pop n (record q { read_idx = r }) ≡ record q { read_idx = r + blocks (total m) }
  unfolding pop
  pop_lem q r m ms hw ready =
      let small = s.small in
      ground (
        arith,
        block_at_lem r s,
        IsAt-size ready.at,
        div_ceil_lem (total m),
        ready.fit,
        ready.inside,
      )
