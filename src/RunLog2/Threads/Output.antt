-- ===== src/RunLog2/Threads/Output.antt =====
-- What standard output has got wherever the two threads of src/run_log2.rs stand.
use nanolog_rs.Prelude.{
  ℕ_discrete, ℕ, zero, suc, ◌+◌, ◌-◌, ◌*◌, ◌≤◌, ◌<◌, ◌≡◌, refl, sym, ap, subst, ◌∙◌, Bool, List, [],
  ◌++◌, append-nil, length, length-append, length-eq-zero, arith, ◌⊎◌, inl, inr,
}
use nanolog_rs.Prelude.Int.{ℤ}
use nanolog_rs.Prelude.Outcome.{Outcome, ok, panic}
use nanolog_rs.BytesMut.{MyBytesMut}
use nanolog_rs.VarQueue.{SpscVarQueueOpt, new}
use nanolog_rs.VarQueue.Layout.{IsSize, Msg}
use nanolog_rs.VarQueue.Consume.{Chain-end}
use nanolog_rs.ConsoleSink.{Stdout, IsStdout}
use nanolog_rs.ConsoleSink
use nanolog_rs.ConsoleSink.Batch.{IsReliable, new-IsSink}
use nanolog_rs.RunLog2.System.{here}
use nanolog_rs.RunLog2.System.Fifo.{Reach-Inv}
use nanolog_rs.RunLog2.System.Stable.{AllMatch-length, Produce-append}
use nanolog_rs.RunLog2.Backend.Session.{new_backend}
use nanolog_rs.RunLog2.Threads.{
  Pc, at_front, scanning, found, printed, at_end, World, Round, again, ended, got, front_round,
  scanned, advance_at, advance, advances, produce, consume, Reach, later, start,
}
use nanolog_rs.RunLog2.Threads
use nanolog_rs.RunLog2.Threads.Published.{advance_keeps}
use nanolog_rs.RunLog2.Threads.Inv.{Printout, no_lines, in_hand, Inside, Produce-Inside}
use nanolog_rs.RunLog2.Threads.Onward.{Onward, distance, rank_le}
use nanolog_rs.RunLog2.Threads.Advance.{advance-Tries}
use nanolog_rs.RunLog2.Threads.Printed.{AllPrinted, AllPrinted-first}

-- With nothing left to read, all that was published is printed.
pub all_printed :
    {n : ℕ} {line_of : ℕ → Msg → List ℕ} {w : World}
    → w.backend.queue.read_idx ≡ w.backend.queue.written_idx
    → Inside n line_of w
    → Printout line_of w.backend.reads w.published
        (w.backend.stdout ++ w.backend.console_sink.batch)
all_printed {line_of = line_of} {w} e h =
    let none_queued = Chain-end h.inv.size e h.inv.chain in
    let all : w.published ≡ h.inv.consumed =
      h.inv.split ∙ ap (λ ms. h.inv.consumed ++ ms) none_queued ∙ append-nil h.inv.consumed in
    let lengths =
      ap length (sym h.split ∙ all) ∙ sym (AllMatch-length w.delivered h.inv.consumed h.inv.got) in
    let none_left =
      length-eq-zero h.rest (omega (arith, length-append h.done h.rest, h.count, lengths)) in
    subst
      (λ (ms : List Msg).
        Printout line_of w.backend.reads ms (w.backend.stdout ++ w.backend.console_sink.batch))
      (sym (append-nil h.done) ∙ ap (λ ms. h.done ++ ms) (sym none_left) ∙ sym h.split) h.sent

same_ok : {o : Outcome World} {w w' : World} → o ≡ ok w → o ≡ ok w' → w ≡ w'
same_ok e e' = cc

-- The backend has read all that is published, and the producer stands where it stood.
pub record CaughtUp (n : ℕ) (line_of : ℕ → Msg → List ℕ) (w w' : World) : Type 0 where
  pub inside : Inside n line_of w'
  pub read : w'.backend.queue.read_idx ≡ w'.backend.queue.written_idx
  pub same : w'.published ≡ w.published
  pub producer : (w'.phase ≡ w.phase) × (w'.backend.queue.writing_idx ≡ w.backend.queue.writing_idx)

pub start-Inside :
    {n : ℕ} {line_of : ℕ → Msg → List ℕ} {q : SpscVarQueueOpt} (now : ℕ)
    → IsSize n
    → new n ≡ ok q
    → Inside n line_of (start (new_backend q now))
unfolding ConsoleSink.new
start-Inside now size e = record {
  inv = Reach-Inv size e here;
  reading = tt;
  sink = new-IsSink now;
  done = [];
  rest = [];
  split = refl;
  count = refl;
  sent = no_lines;
}

module _ {out : Stdout} (lawful : IsStdout out) (tsc2ns : ℕ → ℕ → ℤ)
    (call : ℕ → List ℕ → MyBytesMut → Outcome (Bool × MyBytesMut)) (clock : ℕ → ℕ) (n tid : ℕ)
    (line_of : ℕ → Msg → List ℕ) where
  pub Reach-Inside :
      {w0 w : World}
      → tid < 32
      → Inside n line_of w0
      → Reach out tsc2ns call clock n tid w0 w
      → AllPrinted tsc2ns call tid line_of w.published
      → Inside n line_of w
  Reach-Inside ht h Threads.here ps = h
  Reach-Inside ht h (later {t = t} r (produce st)) ps =
      let (more, grown) = Produce-append st in
      Produce-Inside st (
        Reach-Inside ht h r (
          AllPrinted-first tsc2ns call tid line_of t.published more
            (subst (AllPrinted tsc2ns call tid line_of) grown ps)))
  Reach-Inside {w = w} ht h (later {t = t} r (consume e)) ps =
      let before =
        subst (AllPrinted tsc2ns call tid line_of) (advance_keeps out tsc2ns call clock n tid t w e)
          ps in
      elim (advance-Tries lawful tsc2ns call clock n tid line_of t ht before
        (Reach-Inside ht h r before)) [
          | inl (w', e', onward) ↦ subst (Inside n line_of) (same_ok e' e) onward.inside
          | inr (e', never) ↦ let both = sym e' ∙ e in absurd (ground (arith, both))
        ]

  -- With a reliable standard output every step is taken.
  pub advance-Onward :
      (w : World)
      → IsReliable out
      → tid < 32
      → AllPrinted tsc2ns call tid line_of w.published
      → Inside n line_of w
      → (w' : World) × (advance out tsc2ns call clock n tid w ≡ ok w') × Onward n line_of w w'
  advance-Onward w reliable ht ps h =
      elim (advance-Tries lawful tsc2ns call clock n tid line_of w ht ps h) [
        | inl onward ↦ onward
        | inr (e, never) ↦ absurd (never reliable)
      ]

  pub catching_up :
      (bound : ℕ) (w : World)
      → IsReliable out
      → tid < 32
      → distance w.backend.queue w.pc < bound
      → AllPrinted tsc2ns call tid line_of w.published
      → Inside n line_of w
      → (k : ℕ) × (k ≤ distance w.backend.queue w.pc)
        × (w' : World) × (advances out tsc2ns call clock n tid k w ≡ ok w')
        × CaughtUp n line_of w w'
  unfolding advances
  catching_up zero w reliable ht lt ps h = absurd (omega arith)
  catching_up (suc bound) w reliable ht lt ps h =
      elim (ℕ_discrete w.backend.queue.read_idx w.backend.queue.written_idx) [
        | yes e ↦ (
          0,
          omega arith,
          w,
          refl,
          record { inside = h; read = e; same = refl; producer = (refl, refl) },
        )
        | no ne ↦
            let (w1, e1, onward) = advance-Onward w reliable ht ps h in
            let (k, le, w2, e2, up) =
              catching_up bound w1 reliable ht (omega (arith, onward.closer ne)) (rw onward.same ps)
                onward.inside in
            (
              suc k,
              omega (arith, onward.closer ne),
              w2,
              rw (advances, e1, e2) refl,
              record {
                inside = up.inside;
                read = up.read;
                same = up.same ∙ onward.same;
                producer = (up.producer.0 ∙ onward.producer.0, up.producer.1 ∙ onward.producer.1);
              },
            )
      ]

  -- Take a new ring of a power of two of at most 2 ^ 30 blocks, a new sink, a thread id below 32, a
  -- standard output whose `write_all` writes all bytes or fails, and a state that the two threads
  -- reach from there by steps in any order, of records whose fields fit their words and before any
  -- index reaches 2 ^ 31, the backend wherever it may be between two of its accesses to the
  -- indices. Let the sink be able to print each published record, as the line that `line_of i`
  -- gives, whatever the clock is like when the counter has been read `i` times; the clock may be
  -- calibrated anew between any two records. Then what standard output has got, with the batch
  -- behind it, is the lines of the first published records, each once and in order, and each as the
  -- clock stood at a reading later than that of the record before; these are the records that are
  -- delivered, with the one that is printed and not popped. The backend's next step is taken, or it
  -- panics, which it does not with a standard output that takes all it is given; its unchecked
  -- accesses to the text buffer and to the tables stay in bounds.
  pub threads_print_in_order :
      {q : SpscVarQueueOpt} (now : ℕ) {w : World}
      → IsSize n
      → tid < 32
      → new n ≡ ok q
      → Reach out tsc2ns call clock n tid (start (new_backend q now)) w
      → AllPrinted tsc2ns call tid line_of w.published
      → ((done rest : List Msg) × (w.published ≡ done ++ rest)
          × (length done ≡ length w.delivered + in_hand w.pc)
          × Printout line_of w.backend.reads done
              (w.backend.stdout ++ w.backend.console_sink.batch))
        × (((w' : World) × (advance out tsc2ns call clock n tid w ≡ ok w'))
            ⊎ ((advance out tsc2ns call clock n tid w ≡ panic) × ¬ IsReliable out))
  threads_print_in_order now {w} size ht e r ps =
      let h = Reach-Inside ht (start-Inside now size e) r ps in
      (
        (h.done, h.rest, h.split, h.count, h.sent),
        elim (advance-Tries lawful tsc2ns call clock n tid line_of w ht ps h) [
          | inl (w', e', onward) ↦ inl (w', e')
          | inr stop ↦ inr stop
        ],
      )

  -- Take a new ring of a power of two of at most 2 ^ 30 blocks, a new sink, a thread id below 32, a
  -- standard output that takes all it is given, and a state that the two threads reach from there
  -- by steps in any order, of records whose fields fit their words and before any index reaches 2 ^
  -- 31, in which the sink can print each published record, as the line that `line_of i` gives,
  -- whatever the clock is like when the counter has been read `i` times; the clock may be
  -- calibrated anew between any two records. From there some number of steps of the backend alone,
  -- at most five for each block between the indices and four more, end without a panic, and then
  -- what standard output has got, with the batch behind it, is the lines of all the published
  -- records, each once and in order, and each as the clock stood at a reading later than that of
  -- the record before.
  pub backend_catches_up :
      {q : SpscVarQueueOpt} (now : ℕ) {w : World}
      → IsReliable out
      → IsSize n
      → tid < 32
      → new n ≡ ok q
      → Reach out tsc2ns call clock n tid (start (new_backend q now)) w
      → AllPrinted tsc2ns call tid line_of w.published
      → (k : ℕ) × (k ≤ 5 * (w.backend.queue.written_idx - w.backend.queue.read_idx) + 4)
        × (w' : World) × (advances out tsc2ns call clock n tid k w ≡ ok w')
        × Printout line_of w'.backend.reads w.published
            (w'.backend.stdout ++ w'.backend.console_sink.batch)
  backend_catches_up now {w} reliable size ht e r ps =
      let h = Reach-Inside ht (start-Inside now size e) r ps in
      let (k, le, w', e', up) =
        catching_up (suc (distance w.backend.queue w.pc)) w reliable ht (omega arith) ps h in
      (
        k,
        omega (arith, le, rank_le w.pc),
        w',
        e',
        subst
            (λ (ms : List Msg).
              Printout line_of w'.backend.reads ms
                (w'.backend.stdout ++ w'.backend.console_sink.batch))
            up.same (all_printed up.read up.inside),
      )
