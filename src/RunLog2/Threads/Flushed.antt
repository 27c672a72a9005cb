-- ===== src/RunLog2/Threads/Flushed.antt =====
-- While nothing is published, the idle turns of the backend in src/run_log2.rs bring what is in the
-- batch of src/console_sink.rs to standard output.
use nanolog_rs.Prelude.{
  ℕ, zero, suc, ◌+◌, ◌*◌, ◌%◌, ◌^◌, ◌≤◌, ◌<◌, ◌≡◌, refl, sym, ap, subst, ◌∙◌, Bool, true, false,
  inl, inr, List, [], ◌++◌, append-nil, Bool-cases, eq→==, arith, leb,
}
use nanolog_rs.Prelude.Int.{ℤ}
use nanolog_rs.Prelude.Outcome.{Outcome, ok}
use nanolog_rs.BytesMut.{MyBytesMut}
use nanolog_rs.VarQueue.{SpscVarQueueOpt, new}
use nanolog_rs.VarQueue.Layout.{IsSize, Msg}
use nanolog_rs.ConsoleSink.{Stdout, IsStdout, Result, interval_over, on_idle}
use nanolog_rs.ConsoleSink.Batch.{IsSink, IsReliable, on_idle-IsSink, on_idle-flushes}
use nanolog_rs.RunLog2.Backend.{Backend, unwrap, end_turn}
use nanolog_rs.RunLog2.Backend.Turn.{end_turn-Tries}
use nanolog_rs.RunLog2.Backend.Session.{new_backend}
use nanolog_rs.RunLog2.Threads.{Pc, at_front, World, advance_at, advance, advances, Reach, start}
use nanolog_rs.RunLog2.Threads.Inv.{Printout}
use nanolog_rs.RunLog2.Threads.Advance.{sent_none}
use nanolog_rs.RunLog2.Threads.Printed.{AllPrinted}
use nanolog_rs.RunLog2.Threads.Output.{all_printed, start-Inside, Reach-Inside}

unwrap-flushed :
    (n : ℕ) (s : Backend) {s' : Backend} (res : Result)
    → res.0 ≡ true
    → res.1.batch ≡ []
    → unwrap n s res ≡ ok s'
    → s'.console_sink.batch ≡ []
unfolding unwrap
unwrap-flushed n s {s'} (true, sink, got) h e u =
    let s'_is : s' ≡ record s { console_sink = sink; stdout = got; reads = s.reads + n } = cc in
    rw s'_is e
unwrap-flushed n s (false, sink, got) h e u = absurd (ground (arith, h))

module _ {out : Stdout} (lawful : IsStdout out) (reliable : IsReliable out) (tsc2ns : ℕ → ℕ → ℤ)
    (call : ℕ → List ℕ → MyBytesMut → Outcome (Bool × MyBytesMut)) (clock : ℕ → ℕ) (n tid : ℕ)
    (line_of : ℕ → Msg → List ℕ) where
  -- The backend is about to begin a turn with nothing to read, and the flush interval is over.
  record Quiet (w : World) : Type 0 where
    read : w.backend.queue.read_idx ≡ w.backend.queue.written_idx
    sink : IsSink 512 32 w.backend.console_sink
    sent :
        Printout line_of w.backend.reads w.published
          (w.backend.stdout ++ w.backend.console_sink.batch)
    over : interval_over (clock w.backend.reads) w.backend.console_sink ≡ true

  -- A turn with nothing to read.
  idle_turn :
      (k : ℕ) (w : World) (b : Backend)
      → w.backend.queue.read_idx ≡ w.backend.queue.written_idx
      → end_turn out tsc2ns call clock n tid (1, w.backend) ≡ ok b
      → advances out tsc2ns call clock n tid (suc (suc k)) (record w { pc = at_front 1 })
        ≡ advances out tsc2ns call clock n tid k (record w { backend = b; pc = at_front 1 })
  unfolding advances advance advance_at
  idle_turn k w b e done = rw (eq→== _ _ e, done) refl

  end_turn-flushed :
      (s : Backend) {s' : Backend}
      → IsSink 512 32 s.console_sink
      → interval_over (clock s.reads) s.console_sink ≡ true
      → leb 1024 ((s.num_loop + 1) % 2 ^ 64) ≡ true
      → end_turn out tsc2ns call clock n tid (1, s) ≡ ok s'
      → s'.console_sink.batch ≡ []
  unfolding end_turn
  end_turn-flushed s i over big e =
      let good =
        (on_idle-IsSink lawful (tsc2ns s.reads) call (clock (s.reads + 1)) (clock s.reads)
            s.console_sink s.stdout i).1
          reliable in
      let flushed =
        on_idle-flushes lawful (tsc2ns s.reads) call (clock (s.reads + 1)) (clock s.reads)
          s.console_sink s.stdout reliable over in
      unwrap-flushed 2 (record s { num_loop = (s.num_loop + 1) % 2 ^ 64 })
        (on_idle out (tsc2ns s.reads) call (clock (s.reads + 1)) (clock s.reads) s.console_sink
          s.stdout)
        good flushed (rw (end_turn, big) at e)

  -- What the steps come to that bring all to standard output.
  abbrev Flushes : ℕ → World → Type 0
  Flushes k w =
      (w' : World) × (advances out tsc2ns call clock n tid k (record w { pc = at_front 1 }) ≡ ok w')
      × (w'.backend.console_sink.batch ≡ [])
      × Printout line_of w'.backend.reads w.published w'.backend.stdout

  -- The turn in which `num_loop` is large enough.
  last_turn :
      (w : World) → Quiet w → leb 1024 ((w.backend.num_loop + 1) % 2 ^ 64) ≡ true → Flushes 2 w
  unfolding advances
  last_turn w h big =
      let (count, tries) = end_turn-Tries lawful tsc2ns call clock n tid 1 w.backend h.sink in
      elim tries [
        | inl (b, e, prints, same) ↦
            let flushed = end_turn-flushed w.backend h.sink h.over big e in
            (
              record w { backend = b; pc = at_front 1 },
              idle_turn 0 w b h.read e,
              flushed,
              subst (λ (t : List ℕ). Printout line_of b.reads w.published t)
                  (ap (λ (t : List ℕ). b.stdout ++ t) flushed ∙ append-nil b.stdout)
                  (sent_none (record w.backend { num_loop = (w.backend.num_loop + 1) % 2 ^ 64 }) b
                    count w.published h.sent prints),
            )
        | inr (e, never) ↦ absurd (never reliable)
      ]

  -- A turn before that only counts.
  counted :
      (s : Backend)
      → leb 1024 ((s.num_loop + 1) % 2 ^ 64) ≡ false
      → end_turn out tsc2ns call clock n tid (1, s)
        ≡ ok (record s { num_loop = (s.num_loop + 1) % 2 ^ 64 })
  unfolding end_turn
  counted s e = rw (end_turn, e) refl

  flushing :
      (j : ℕ) (w : World)
      → Quiet w
      → 1024 ≤ w.backend.num_loop + suc j
      → w.backend.num_loop + suc j < 2 ^ 64
      → (k : ℕ) × (k ≤ 2 * suc j) × Flushes k w
  flushing zero w h enough small = (2, omega arith, last_turn w h (ground arith))
  flushing (suc j) w h enough small =
      elim (Bool-cases (leb 1024 ((w.backend.num_loop + 1) % 2 ^ 64))) [
        | inl big ↦ (2, omega arith, last_turn w h big)
        | inr few ↦
            let b : Backend = record w.backend { num_loop = (w.backend.num_loop + 1) % 2 ^ 64 } in
            let (k, le, (w', e, flushed, all)) =
              flushing j (record w { backend = b })
                (record { read = h.read; sink = h.sink; sent = h.sent; over = h.over })
                (omega arith) (omega arith) in
            (
              suc (suc k),
              omega (arith, le),
              (w', idle_turn k w b h.read (counted w.backend few) ∙ e, flushed, all),
            )
      ]

  -- Take a new ring of a power of two of at most 2 ^ 30 blocks, a new sink, a thread id below 32, a
  -- standard output that takes all it is given, and a state that the two threads reach from there
  -- by steps in any order, of records whose fields fit their words and before any index reaches 2 ^
  -- 31, in which the sink can print each published record, as the line that `line_of i` gives,
  -- whatever the clock is like when the counter has been read `i` times; the clock may be
  -- calibrated anew between any two records. Let the backend be about to begin a turn with nothing
  -- to read, `num_loop` more than 1024 below 2 ^ 64, and let the flush interval be over at the next
  -- reading of the counter. Then some number of steps of the backend alone, at most 2048, end
  -- without a panic with an empty batch, and standard output has got the lines of all the published
  -- records, each once and in order, and each as the clock stood at a reading later than that of
  -- the record before.
  pub batch_flushed :
      {q : SpscVarQueueOpt} (now : ℕ) {w : World}
      → IsSize n
      → tid < 32
      → new n ≡ ok q
      → Reach out tsc2ns call clock n tid (start (new_backend q now)) w
      → AllPrinted tsc2ns call tid line_of w.published
      → w.pc ≡ at_front 1
      → w.backend.queue.read_idx ≡ w.backend.queue.written_idx
      → w.backend.num_loop + 1024 < 2 ^ 64
      → interval_over (clock w.backend.reads) w.backend.console_sink ≡ true
      → (k : ℕ) × (k ≤ 2048)
        × (w' : World) × (advances out tsc2ns call clock n tid k w ≡ ok w')
        × (w'.backend.console_sink.batch ≡ [])
        × Printout line_of w'.backend.reads w.published w'.backend.stdout
  batch_flushed now {w} size ht e r ps at read small over =
      let h =
        Reach-Inside lawful tsc2ns call clock n tid line_of ht (start-Inside now size e) r ps in
      let (k, le, (w', go, flushed, all)) =
        flushing 1023 w
          (record { read = read; sink = h.sink; sent = all_printed read h; over = over })
          (omega arith) (omega arith) in
      (
        k,
        omega (arith, le),
        w',
        subst (λ (pc : Pc). advances out tsc2ns call clock n tid k (record w { pc = pc }) ≡ ok w')
            (sym at) go,
        flushed,
        all,
      )
