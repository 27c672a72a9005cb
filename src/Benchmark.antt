-- ===== src/Benchmark.antt =====
-- The benchmark of src/main.rs: bursts of calls of `hft_info!` while the backend runs, the count of
-- the records that are dropped, and the figures that are made of the cost of each burst. Differences
-- and sums of `u64` wrap, as in a build without overflow checks.
pub mod Call
pub mod Counted
pub mod Figures
use nanolog_rs.Prelude.{
  ℕ, zero, suc, ◌+◌, ◌-◌, min, max, length, get_elem?, Option, none, some, Bool, true, false, List,
  [], ◌∷◌, ◌++◌, if◌then◌else◌,
}
use nanolog_rs.Prelude.Int.{ℤ}
use nanolog_rs.Prelude.Words.{add64, sub64}
use nanolog_rs.Prelude.Outcome.{Outcome, ok, panic, fault, ◌>>=◌}
use nanolog_rs.BytesMut.{MyBytesMut}
use nanolog_rs.Args2.{arg_u64, args2}
use nanolog_rs.Log.{info}
use nanolog_rs.VarQueue.{SpscVarQueueOpt}
use nanolog_rs.VarQueue.Layout.{Msg}
use nanolog_rs.ConsoleSink.{Stdout}
use nanolog_rs.RunLog2.Publish.{msg_of}
use nanolog_rs.RunLog2.System.{idle}
use nanolog_rs.RunLog2.Threads.{World, with_queue, advances}
use nanolog_rs.Emit.{emit2}

abbrev pub round : ℕ
round = 256

abbrev pub num_log : ℕ
num_log = 128

-- The variables of `main`.
pub record Totals : Type 0 where
  pub total_cost_cycles : ℕ
  pub batch_costs : List ℕ
  pub num_droped : ℕ

abbrev pub record_for : ℕ → ℕ → ℕ → Msg
record_for func tsc id = msg_of info func tsc (args2 (arg_u64 id) (arg_u64 id))

-- What the call makes of the state; `published` is kept beside.
unfoldable pub after_call : Msg → World → Bool × SpscVarQueueOpt → Bool × World
after_call m w (true, q) =
    (true, record (with_queue w q) { phase = idle; published = w.published ++ (m ∷ []) })
after_call m w (false, q) = (false, record (with_queue w q) { phase = idle })

-- `hft_info!(logger, "curr {} u {}", id, id)`
unfoldable pub log_call : ℕ → ℕ → ℕ → ℕ → World → Bool × World
unfolding after_call
log_call blk_cnt func tsc id w =
    after_call (record_for func tsc id) w
      (emit2 blk_cnt info func tsc (arg_u64 id) (arg_u64 id) w.backend.queue)

-- The backend takes `waits i` steps before call `i`, in which the counter stands at `tsc i`; the
-- first call of a burst is `i` where the burst begins at the count `start_cycles i` and ends at
-- `end_cycles i`. `func` is the log function of the call.
module _ (out : Stdout) (tsc2ns : ℕ → ℕ → ℤ)
    (call : ℕ → List ℕ → MyBytesMut → Outcome (Bool × MyBytesMut)) (clock : ℕ → ℕ)
    (blk_cnt tid func : ℕ) (waits tsc start_cycles end_cycles : ℕ → ℕ) where
  -- `for id in 0..num_log`, with as many calls left as the first argument says.
  unfoldable pub burst : ℕ → ℕ → ℕ → ℕ → World → Outcome (ℕ × World)
  unfolding log_call
  burst zero id i num_droped w = ok (num_droped, w)
  burst (suc left) id i num_droped w = do
    w' ← advances out tsc2ns call clock blk_cnt tid (waits i) w
    let called = log_call blk_cnt func (tsc i) id w'
    burst left (suc id) (suc i) (num_droped + (if called.0 then 0 else 1)) called.1

  -- `for _ in 0..ROUND`
  unfoldable pub bursts : ℕ → ℕ → Totals → World → Outcome (Totals × World)
  unfolding burst
  bursts zero i t w = ok (t, w)
  bursts (suc left) i t w = do
    (num_droped, w') ← burst num_log 0 i t.num_droped w
    let cost_cycles = sub64 (end_cycles i) (start_cycles i)
    bursts left (i + num_log)
        (record {
          total_cost_cycles = add64 t.total_cost_cycles cost_cycles;
          batch_costs = t.batch_costs ++ (cost_cycles ∷ []);
          num_droped = num_droped;
        })
        w'

  -- The loops of `main`.
  unfoldable pub benchmark : World → Outcome (Totals × World)
  unfolding bursts
  benchmark w =
      bursts round 0 (record { total_cost_cycles = 0; batch_costs = []; num_droped = 0 }) w

-- `*batch_costs.iter().min().unwrap()`
unfoldable pub smallest : List ℕ → Outcome ℕ
smallest [] = panic
smallest (x ∷ []) = ok x
smallest (x ∷ (y ∷ ys)) = do least ← smallest (y ∷ ys); ok (min x least)

-- `*batch_costs.iter().max().unwrap()`
unfoldable pub largest : List ℕ → Outcome ℕ
largest [] = panic
largest (x ∷ []) = ok x
largest (x ∷ (y ∷ ys)) = do most ← largest (y ∷ ys); ok (max x most)

-- `sort` is `sort_unstable`, and `index n p` what `((n as f64 - 1.0) * p).floor() as usize` makes of
-- a length and of a share of the type `F`. With `n` 0, `n - 1` or the access panics.
unfoldable pub percentile_ns :
    {F : Type 0} → (List ℕ → List ℕ) → (ℕ → F → ℕ) → List ℕ → F → Outcome ℕ
percentile_ns sort index v p =
    let v' = sort v in
    let n = length v' in
    elim (get_elem? v' (min (index n p) (n - 1))) [ none ↦ panic | some x ↦ ok x ]
