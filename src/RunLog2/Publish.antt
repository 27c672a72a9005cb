-- ===== src/RunLog2/Publish.antt =====
-- `publish_args` as one call, and the backend's inner loop: what goes in comes out.
use native.Mathlib.Nat.{mod-lt}
use nanolog_rs.Prelude.{
  ℕ, zero, suc, ◌+◌, ◌^◌, ◌≤◌, ◌<◌, ◌≡◌, refl, sym, ◌∙◌, Bool, true, false, Option, some, none,
  List, [], ◌∷◌, ◌++◌, arith, length,
}
use nanolog_rs.Log.{Level, level_u8}
use nanolog_rs.VarQueue.{SpscVarQueueOpt, Alloc, try_alloc}
use nanolog_rs.VarQueue.Layout.{
  IsSize, Msg, total, blocks, Chain, done, rewound, message, IsSize-pos,
}
use nanolog_rs.VarQueue.Reserve.{
  InLife, Grants, fresh, alloc_spec-Grants, alloc_spec-none, try_alloc_lem,
}
use nanolog_rs.VarQueue.Consume.{front_of, front_lem, pop_lem}
use nanolog_rs.RunLog2.{Record, record_of, publish_granted, publish_args, drain}
use nanolog_rs.RunLog2.Fill.{IsWords}
use nanolog_rs.RunLog2.System.{idle, System}
use nanolog_rs.RunLog2.System.Inv.{AllMatch, AllMatch-append, Inv}
use nanolog_rs.RunLog2.System.Producer.{alloc-Inv, write-Inv, publish-Inv}
use nanolog_rs.RunLog2.System.Consumer.{record_of-Matches}

-- The record that `publish_args` publishes.
abbrev pub msg_of : Level → ℕ → ℕ → List ℕ → Msg
msg_of level func tsc args = record {
  level = level_u8 level;
  tsc = tsc;
  log_func = func;
  payload = args;
}

-- The backend's inner loop on a ring that holds `ms`: on fuel for one round for each record it
-- ends, hands over the records in order, and leaves nothing behind.
pub drain_lem :
    {n : ℕ} (s : IsSize n) (fuel : ℕ) (ms : List Msg) (k : ℕ) (q : SpscVarQueueOpt)
    → length ms < k
    → q.written_idx < 2 ^ 31
    → q.written_idx < q.read_idx + fuel
    → Chain n q.blk q.written_idx q.read_idx ms
    → (rs : List Record) × (drain n fuel k q ≡ some (rs, record q { read_idx = q.written_idx }))
      × AllMatch rs ms
unfolding drain
drain_lem s fuel ms zero q hk hw hf c = absurd (omega arith)
drain_lem {n} s fuel [] (suc k) q hk hw hf c = ([], rw (drain, front_lem s fuel q hw hf c), tt)
drain_lem {n} s fuel (m ∷ ms) (suc k) q hk hw hf c =
    let (r, e, ready) = front_lem s fuel q hw hf c in
    let q' : SpscVarQueueOpt = record q { read_idx = r + blocks (total m) } in
    let (rs, e', all) =
      drain_lem s fuel ms k q' (omega arith) hw (omega (arith, ready.after)) ready.rest in
    (
      record_of (record q { read_idx = r }) (front_of n r m) ∷ rs,
      rw (drain, e, pop_lem s q r m ms hw ready, e'),
      (record_of-Matches ready, all),
    )

pub Chain-length :
    {n : ℕ} {mem : ℕ → ℕ} {w r : ℕ} {ms : List Msg}
    → IsSize n
    → Chain n mem w r ms
    → r + length ms ≤ w
Chain-length s (done e) = omega arith
Chain-length {n} {r = r} s (rewound z h c) =
    omega (arith, Chain-length s c, mod-lt r (IsSize-pos s))
Chain-length s (message m at fit h c) = omega (arith, Chain-length s c)

-- In a state that satisfies the invariant of the two threads, the backend's inner loop ends, on
-- fuels for the blocks between the indices, and with the records that it hands over, after those
-- that the sink already has, the sink has all that was published, in order.
pub drain-AllMatch :
    {n : ℕ} {s : System} (inv : Inv n s) (fuel k : ℕ)
    → s.queue.written_idx < s.queue.read_idx + fuel
    → s.queue.written_idx < s.queue.read_idx + k
    → (rs : List Record) × (q : SpscVarQueueOpt) × (drain n fuel k s.queue ≡ some (rs, q))
      × AllMatch (s.delivered ++ rs) s.published
drain-AllMatch {s = s} inv fuel k hf hk =
    let (rs, e, all) =
      drain_lem inv.size fuel inv.queued k s.queue (omega (arith, Chain-length inv.size inv.chain))
        (omega (arith, inv.order.behind, inv.order.life)) hf inv.chain in
    (rs, _, e, rw inv.split (AllMatch-append s.delivered inv.consumed _ _ inv.got all))

-- What a call of `publish_args` leaves: the record is published, or only the producer's copy of the
-- consumer's index changes.
abbrev pub Published : ℕ → System → Msg → Bool × SpscVarQueueOpt → Type 0
Published n s m (true, q) =
    Inv n (record s { queue = q; phase = idle; published = s.published ++ (m ∷ []) })
Published n s m (false, q) = q ≡ fresh s.queue

module _ {n : ℕ} {s : System} (inv : Inv n s) (level : Level) (func tsc : ℕ) (args : List ℕ) where
  abbrev m : Msg
  m = msg_of level func tsc args

  publish_granted-Published :
      (res : Option Alloc × SpscVarQueueOpt)
      → s.phase ≡ idle
      → IsWords m
      → InLife n (total m) s.queue
      → try_alloc n (length args) s.queue ≡ res
      → Published n s m (publish_granted level func tsc args res)
  unfolding publish_granted
  publish_granted-Published (none, q) e w l r =
      alloc_spec-none n (total m) s.queue (sym (try_alloc_lem inv.size (length args) s.queue l) ∙ r)
  publish_granted-Published (some a, q) e w l r =
      publish-Inv (write-Inv (alloc-Inv inv m e w l g) refl) refl
    where
      g : Grants n (total m) s.queue a q
      g =
          alloc_spec-Grants n (total m) s.queue
            (sym (try_alloc_lem inv.size (length args) s.queue l) ∙ r)

  -- A call of `publish_args` in a state that satisfies the invariant of the two threads, with no
  -- other record begun, with fields that fit their words and before any index reaches 2 ^ 31,
  -- either publishes the record, behind those published before, and keeps the invariant, or it
  -- returns false and changes nothing but the producer's copy of the consumer's index.
  pub publish_args-Published :
      s.phase ≡ idle
      → IsWords m
      → InLife n (total m) s.queue
      → Published n s m (publish_args n level func tsc args s.queue)
  unfolding publish_args
  publish_args-Published e w l = publish_granted-Published _ e w l refl
