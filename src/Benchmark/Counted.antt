-- ===== src/Benchmark/Counted.antt =====
-- The benchmark of src/main.rs counts what is dropped.
use nanolog_rs.Prelude.{
  ℕ, zero, suc, ◌+◌, ◌*◌, ◌%◌, ◌^◌, ◌≤◌, ◌<◌, ◌≡◌, refl, ap, ◌∙◌, Bool, List, [], ◌∷◌, ◌++◌, length,
  length-append, arith, if◌then◌else◌,
}
use nanolog_rs.Prelude.Int.{ℤ}
use nanolog_rs.Prelude.Words.{add64, sub64}
use nanolog_rs.Prelude.Outcome.{Outcome, ok}
use nanolog_rs.BytesMut.{MyBytesMut}
use nanolog_rs.VarQueue.{SpscVarQueueOpt, new}
use nanolog_rs.VarQueue.Layout.{IsSize, Msg}
use nanolog_rs.ConsoleSink.{Stdout, IsStdout}
use nanolog_rs.ConsoleSink.Batch.{IsReliable}
use nanolog_rs.RunLog2.Backend.Lines.{IsPrinted}
use nanolog_rs.RunLog2.Backend.Session.{new_backend}
use nanolog_rs.RunLog2.Threads.{World, advances, start}
use nanolog_rs.RunLog2.Threads.Inv.{Printout}
use nanolog_rs.RunLog2.Threads.Printed.{AllPrinted}
use nanolog_rs.RunLog2.Threads.Output.{advance-Onward, start-Inside}
use nanolog_rs.Benchmark.{Totals, record_for, log_call, burst, bursts, benchmark}
use nanolog_rs.Benchmark.Call.{Calm, words, log_call-Called, Called-count}

abbrev pub sum : List ℕ → ℕ
sum [] = 0
sum (x ∷ xs) = x + sum xs

sum-append : (xs ys : List ℕ) → sum (xs ++ ys) ≡ sum xs + sum ys
sum-append [] ys = omega arith
sum-append (x ∷ xs) ys = omega (arith, sum-append xs ys)

-- The total is that of the costs, as a `u64`.
abbrev Adds : Totals → Type 0
Adds t = t.total_cost_cycles ≡ sum t.batch_costs % 2 ^ 64

new_index : (n : ℕ) (q : SpscVarQueueOpt) → new n ≡ ok q → q.writing_idx ≡ 0
unfolding new
new_index n q e = ground arith

module _ {out : Stdout} (lawful : IsStdout out) (reliable : IsReliable out) (tsc2ns : ℕ → ℕ → ℤ)
    (call : ℕ → List ℕ → MyBytesMut → Outcome (Bool × MyBytesMut)) (clock : ℕ → ℕ) (n tid : ℕ)
    (line_of : ℕ → Msg → List ℕ) (ht : tid < 32) where
  advances-Calm :
      (k i : ℕ) (w : World)
      → Calm n line_of i w
      → AllPrinted tsc2ns call tid line_of w.published
      → (w' : World) × (advances out tsc2ns call clock n tid k w ≡ ok w')
        × Calm n line_of i w'
        × (w'.published ≡ w.published)
  unfolding advances
  advances-Calm zero i w calm ps = (w, refl, calm, refl)
  advances-Calm (suc k) i w calm ps =
      let (w1, e1, onward) =
        advance-Onward lawful tsc2ns call clock n tid line_of w reliable ht ps calm.inside in
      let (w2, e2, calm2, same) =
        advances-Calm k i w1
          (record {
            inside = onward.inside;
            at_rest = onward.producer.0 ∙ calm.at_rest;
            early = omega (arith, onward.producer.1, calm.early);
          })
          (rw onward.same ps) in
      (w2, rw (advances, e1, e2) refl, calm2, same ∙ onward.same)

  module _ (func : ℕ) (waits tsc start_cycles end_cycles : ℕ → ℕ) (hf : func < 2 ^ 64)
      (hc : (i : ℕ) → tsc i < 2 ^ 64)
      (printed : (i id : ℕ)
        → id < 128
        → (j : ℕ)
        → IsPrinted
            (tsc2ns j)
            call
            512
            tid
            (record_for func (tsc i) id)
            (line_of j (record_for func (tsc i) id))) where
    -- What a number of calls come to, of which `d` were dropped before.
    record After (calls i d : ℕ) (w : World) (d' : ℕ) (w' : World) : Type 0 where
      calm : Calm n line_of (i + calls) w'
      can_print : AllPrinted tsc2ns call tid line_of w'.published
      count : d' + length w'.published ≡ d + length w.published + calls

    burst-After :
        (left id i d : ℕ) (w : World)
        → i + left < 2 ^ 20
        → id + left ≤ 128
        → Calm n line_of i w
        → AllPrinted tsc2ns call tid line_of w.published
        → (d' : ℕ) × (w' : World) × (burst out tsc2ns call clock n tid func waits tsc start_cycles
              end_cycles left id i d w
            ≡ ok (d', w'))
          × After left i d w d' w'
    unfolding burst
    burst-After zero id i d w hi hid calm ps = (
      d,
      w,
      refl,
      record {
        calm = record {
          inside = calm.inside;
          at_rest = calm.at_rest;
          early = omega (arith, calm.early);
        };
        can_print = ps;
        count = omega arith;
      },
    )
    burst-After (suc left) id i d w hi hid calm ps =
        let (w1, e1, calm1, same) = advances-Calm (waits i) i w calm ps in
        let ws = words func (tsc i) id calm1 (omega arith) (hc i) hf in
        let (calm2, ps2, one) =
          Called-count func (tsc i) id calm1 (omega arith) tsc2ns call tid
            (log_call n func (tsc i) id w1) (log_call-Called func (tsc i) id calm1 (omega arith) ws)
            (rw same ps) (printed i id (omega arith)) in
        let (d', w', e', h) =
          burst-After left (suc id) (suc i)
            (d + (if (log_call n func (tsc i) id w1).0 then 0 else 1))
            (log_call n func (tsc i) id w1).1 (omega arith) (omega arith) calm2 ps2 in
        (
          d',
          w',
          rw (burst, e1, e') refl,
          record {
            calm = record {
              inside = h.calm.inside;
              at_rest = h.calm.at_rest;
              early = omega (arith, h.calm.early);
            };
            can_print = h.can_print;
            count = omega (arith, h.count, one, ap length same);
          },
        )

    bursts-After :
        (left i : ℕ) (t : Totals) (w : World)
        → i + 128 * left < 2 ^ 20
        → Calm n line_of i w
        → AllPrinted tsc2ns call tid line_of w.published
        → Adds t
        → (t' : Totals) × (w' : World) × (bursts out tsc2ns call clock n tid func waits tsc
              start_cycles end_cycles left i t w
            ≡ ok (t', w'))
          × After (128 * left) i t.num_droped w t'.num_droped w'
          × (length t'.batch_costs ≡ length t.batch_costs + left)
          × Adds t'
    unfolding bursts
    bursts-After zero i t w hi calm ps adds = (
      t,
      w,
      refl,
      record {
        calm = record {
          inside = calm.inside;
          at_rest = calm.at_rest;
          early = omega (arith, calm.early);
        };
        can_print = ps;
        count = omega arith;
      },
      omega arith,
      adds,
    )
    bursts-After (suc left) i t w hi calm ps adds =
        let (d, w1, e1, h1) =
          burst-After 128 0 i t.num_droped w (omega arith) (omega arith) calm ps in
        let cost = sub64 (end_cycles i) (start_cycles i) in
        let t1 : Totals = record {
          total_cost_cycles = add64 t.total_cost_cycles cost;
          batch_costs = t.batch_costs ++ (cost ∷ []);
          num_droped = d;
        } in
        let (t2, w2, e2, h2, more, adds2) =
          bursts-After left (i + 128) t1 w1 (omega arith) h1.calm h1.can_print
            (omega (arith, adds, sum-append t.batch_costs (cost ∷ []))) in
        (
          t2,
          w2,
          rw (bursts, e1, e2) refl,
          record {
            calm = record {
              inside = h2.calm.inside;
              at_rest = h2.calm.at_rest;
              early = omega (arith, h2.calm.early);
            };
            can_print = h2.can_print;
            count = omega (arith, h1.count, h2.count);
          },
          omega (arith, more, length-append t.batch_costs (cost ∷ [])),
          adds2,
        )

    -- Take a new ring of a power of two of at most 2 ^ 30 blocks, a new sink, a thread id below 32,
    -- a standard output that takes all it is given, readings of the counter and an address of the
    -- log function that fit 64 bits, and let the sink be able to print the record of each call, as
    -- the line that `line_of i` gives, whatever the clock is like when the counter has been read
    -- `i` times; the clock may be calibrated anew between any two records. Then the loops of the
    -- benchmark, with any number of steps of the backend before each call, end without a panic. The
    -- records that were dropped and those that were published are together the 32768 calls, there
    -- are 256 costs, whose sum, as a `u64`, is the total, and what standard output has got, with
    -- the batch behind it, is the lines of the first published records, each once and in order, and
    -- each as the clock stood at a reading later than that of the record before.
    pub benchmark_counts :
        {q : SpscVarQueueOpt} (now : ℕ)
        → IsSize n
        → new n ≡ ok q
        → (t : Totals) × (w : World) × (benchmark out tsc2ns call clock n tid func waits tsc
              start_cycles end_cycles
              (start (new_backend q now))
            ≡ ok (t, w))
          × (t.num_droped + length w.published ≡ 32768)
          × (length t.batch_costs ≡ 256)
          × (t.total_cost_cycles ≡ sum t.batch_costs % 2 ^ 64)
          × (done rest : List Msg) × (w.published ≡ done ++ rest)
          × Printout line_of w.backend.reads done (w.backend.stdout ++ w.backend.console_sink.batch)
    unfolding benchmark
    benchmark_counts now size e =
        let inside = start-Inside now size e in
        let (t, w, e', h, costs, adds) =
          bursts-After 256 0 (record { total_cost_cycles = 0; batch_costs = []; num_droped = 0 })
            (start (new_backend _ now)) (omega arith)
            (record { inside = inside; at_rest = refl; early = omega (arith, new_index n _ e) }) tt
            refl in
        let i = h.calm.inside in
        (t, w, e', omega (arith, h.count), costs, adds, i.done, i.rest, i.split, i.sent)
