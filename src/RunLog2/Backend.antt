-- ===== src/RunLog2/Backend.antt =====
-- `run` of src/run_log2.rs on the backend's thread: the inner loop with the console sink, and one
-- turn of the outer loop, which never ends. Both threads may take turns between the calls; a turn
-- here runs without a call of the producer.
pub mod Lines
pub mod Turn
pub mod Session
use nanolog_rs.Prelude.{
  ℕ, zero, suc, ◌+◌, ◌%◌, ◌^◌, Bool, true, false, Option, none, some, List, leb,
}
use nanolog_rs.Prelude.Int.{ℤ}
use nanolog_rs.Prelude.Outcome.{Outcome, ok, panic, fault, ◌>>=◌}
use nanolog_rs.BytesMut.{MyBytesMut}
use nanolog_rs.VarQueue.{SpscVarQueueOpt, front, pop}
use nanolog_rs.ConsoleSink.{ConsoleBatchSink, Stdout, Result, on_record, on_idle}
use nanolog_rs.RunLog2.{Record, record_of}

-- The queue and the variables of `run`. `stdout` is what standard output has got, and `reads` how
-- often the counter has been read.
pub record Backend : Type 0 where
  pub queue : SpscVarQueueOpt
  pub console_sink : ConsoleBatchSink
  pub num_loop : ℕ
  pub stdout : List ℕ
  pub reads : ℕ

-- `.unwrap()` on what a method of the sink returns, after `n` readings of the counter.
unfoldable pub unwrap : ℕ → Backend → Result → Outcome Backend
unwrap n s (true, sink, got) =
    ok (record s { console_sink = sink; stdout = got; reads = s.reads + n })
unwrap n s (false, sink, got) = panic

-- `blk_cnt` is the size of the ring, `tid` the argument of `run`; `clock i` is the reading `i` of
-- the counter. The thread that `init_logger` starts calibrates the clock anew from time to time:
-- `tsc2ns i` is what the clock makes of a count when the counter has been read `i` times.
module _ (out : Stdout) (tsc2ns : ℕ → ℕ → ℤ)
    (call : ℕ → List ℕ → MyBytesMut → Outcome (Bool × MyBytesMut)) (clock : ℕ → ℕ)
    (blk_cnt tid : ℕ) where
  -- `console_sink.on_record(..).unwrap()`
  unfoldable pub deliver : Record → Backend → Outcome Backend
  unfolding unwrap
  deliver r s = do
    res ←
        on_record out (tsc2ns s.reads) call (clock s.reads) tid r.log_header r.log_payload
          s.console_sink s.stdout
    unwrap 1 s res

  -- The inner loop, on fuel, from the value of `no_data` on; the second fuel is that of `front`.
  unfoldable pub inner_loop : ℕ → ℕ → ℕ → Backend → Option (Outcome (ℕ × Backend))
  unfolding deliver
  inner_loop fuel zero no_data s = none
  inner_loop fuel (suc k) no_data s = elim (front blk_cnt fuel s.queue) [
    | none ↦ none
    | some (none, q) ↦ some (ok (no_data, record s { queue = q }))
    | some (some f, q) ↦ elim (deliver (record_of q f) (record s { queue = q })) [
      | ok s' ↦ inner_loop fuel k 0 (record s' { queue = pop blk_cnt s'.queue })
      | panic ↦ some panic
      | fault ↦ some fault
    ]
  ]

  -- What follows the inner loop; `num_loop` is a `usize`, and `on_idle` may read the counter too.
  unfoldable pub end_turn : ℕ × Backend → Outcome Backend
  unfolding unwrap
  end_turn (no_data, s) =
      let s' : Backend = record s { num_loop = (s.num_loop + no_data) % 2 ^ 64 } in
      elim (leb 1024 s'.num_loop) [
        | false ↦ ok s'
        | true ↦ unwrap 2 s' (
            on_idle out (tsc2ns s'.reads) call (clock (s'.reads + 1)) (clock s'.reads)
              s'.console_sink s'.stdout)
      ]

  -- One turn of the outer loop.
  unfoldable pub turn : ℕ → ℕ → Backend → Option (Outcome Backend)
  unfolding inner_loop end_turn
  turn fuel k s = elim (inner_loop fuel k 1 s) [
    | none ↦ none
    | some res ↦ some (do found ← res; end_turn found)
  ]
