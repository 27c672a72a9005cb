-- ===== src/RunLog2/Threads/Served.antt =====
-- A producer whose record was refused in src/run_log2.rs gets it accepted once the backend has caught
-- up.
use nanolog_rs.Prelude.{
  ℕ, suc, ◌+◌, ◌-◌, ◌*◌, ◌≤◌, ◌<◌, ◌≡◌, ap, ◌∙◌, Bool, true, List, length, arith,
}
use nanolog_rs.Prelude.Int.{ℤ}
use nanolog_rs.Prelude.Outcome.{Outcome, ok}
use nanolog_rs.BytesMut.{MyBytesMut}
use nanolog_rs.Log.{Level}
use nanolog_rs.VarQueue.{SpscVarQueueOpt, new}
use nanolog_rs.VarQueue.Layout.{IsSize, Msg, blocks}
use nanolog_rs.VarQueue.Reserve.{InLife}
use nanolog_rs.VarQueue.Limits.{try_alloc_empty_half}
use nanolog_rs.ConsoleSink.{Stdout, IsStdout}
use nanolog_rs.ConsoleSink.Batch.{IsReliable}
use nanolog_rs.RunLog2.{publish_args, publish_granted}
use nanolog_rs.RunLog2.System.{idle}
use nanolog_rs.RunLog2.System.Inv.{Inv}
use nanolog_rs.RunLog2.System.Producer.{idle-eq}
use nanolog_rs.RunLog2.Backend.Session.{new_backend}
use nanolog_rs.RunLog2.Threads.{World, advances, Reach, start, threads}
use nanolog_rs.RunLog2.Threads.Onward.{distance, rank_le}
use nanolog_rs.RunLog2.Threads.Printed.{AllPrinted}
use nanolog_rs.RunLog2.Threads.Output.{start-Inside, Reach-Inside, catching_up}

-- With the ring empty and the producer at rest, a record of at most half the ring is accepted.
accepted :
    {n : ℕ} (w : World) (inv : Inv n (threads w)) (level : Level) (func tsc : ℕ) (args : List ℕ)
    → w.phase ≡ idle
    → w.backend.queue.read_idx ≡ w.backend.queue.written_idx
    → InLife n (length args + 24) w.backend.queue
    → 2 * blocks (length args + 24) ≤ n
    → (q : SpscVarQueueOpt) × (publish_args n level func tsc args w.backend.queue ≡ (true, q))
unfolding publish_args publish_granted
accepted w inv level func tsc args calm read l half =
    let at_end = idle-eq inv calm in
    let (a, q, e) =
      try_alloc_empty_half inv.size (length args) w.backend.queue l
        (record { known = inv.order.known; behind = omega (arith, read, at_end) }) (read ∙ at_end)
        half in
    (_, ap (publish_granted level func tsc args) e)

module _ {out : Stdout} (lawful : IsStdout out) (reliable : IsReliable out) (tsc2ns : ℕ → ℕ → ℤ)
    (call : ℕ → List ℕ → MyBytesMut → Outcome (Bool × MyBytesMut)) (clock : ℕ → ℕ) (n tid : ℕ)
    (line_of : ℕ → Msg → List ℕ) where
  -- Take a new ring of a power of two of at most 2 ^ 30 blocks, a new sink, a thread id below 32, a
  -- standard output that takes all it is given, and a state that the two threads reach from there
  -- by steps in any order, of records whose fields fit their words and before any index reaches 2 ^
  -- 31, the producer between two calls, in which the sink can print each published record, as the
  -- line that `line_of i` gives, whatever the clock is like when the counter has been read `i`
  -- times; the clock may be calibrated anew between any two records. Take a record of at most half
  -- the ring, before any index reaches 2 ^ 31. Then after some number of steps of the backend
  -- alone, at most five for each block between the indices and four more, which do not panic,
  -- `publish_args` accepts the record, whether or not the ring has room for it now.
  pub publish_args_served :
      {q : SpscVarQueueOpt} (now : ℕ) {w : World} (level : Level) (func tsc : ℕ) (args : List ℕ)
      → IsSize n
      → tid < 32
      → new n ≡ ok q
      → Reach out tsc2ns call clock n tid (start (new_backend q now)) w
      → AllPrinted tsc2ns call tid line_of w.published
      → w.phase ≡ idle
      → InLife n (length args + 24) w.backend.queue
      → 2 * blocks (length args + 24) ≤ n
      → (k : ℕ) × (k ≤ 5 * (w.backend.queue.written_idx - w.backend.queue.read_idx) + 4)
        × (w' : World) × (advances out tsc2ns call clock n tid k w ≡ ok w')
        × (q' : SpscVarQueueOpt) × (publish_args n level func tsc args w'.backend.queue
            ≡ (true, q'))
  publish_args_served now {w} level func tsc args size ht e r ps calm l half =
      let h =
        Reach-Inside lawful tsc2ns call clock n tid line_of ht (start-Inside now size e) r ps in
      let (k, le, w', e', up) =
        catching_up lawful tsc2ns call clock n tid line_of (suc (distance w.backend.queue w.pc)) w
          reliable ht (omega arith) ps h in
      let order = up.inside.inv.order in
      let at_end = idle-eq up.inside.inv (up.producer.0 ∙ calm) in
      let l' : InLife n (length args + 24) w'.backend.queue = record {
        short = l.short;
        read_small = omega (arith, up.read, at_end, order.life);
        cache_small = omega (arith, order.known, up.read, at_end, order.life);
        room = omega (arith, up.producer.1, l.room);
      } in
      let (q', done) =
        accepted w' up.inside.inv level func tsc args (up.producer.0 ∙ calm) up.read l' half in
      (k, omega (arith, le, rank_le w.pc), w', e', q', done)
