-- ===== src/RunLog2/Threads/Advance.antt =====
-- Each step of the backend in src/run_log2.rs, wherever it stands, is taken, keeps the invariant and
-- comes closer to the end of the ring.
use nanolog_rs.Prelude.{
  ℕ, ◌+◌, ◌*◌, ◌%◌, ◌^◌, ◌<◌, ◌≡◌, ◌⊎◌, inl, inr, refl, sym, ap, subst, ◌∙◌, Bool, List, [], ◌∷◌,
  ◌++◌, append_assoc, append-nil, length-append, arith,
}
use nanolog_rs.Prelude.Int.{ℤ}
use nanolog_rs.Prelude.Outcome.{Outcome, ok, panic}
use nanolog_rs.BytesMut.{MyBytesMut}
use nanolog_rs.VarQueue.{SpscVarQueueOpt, Front}
use nanolog_rs.VarQueue.Layout.{Msg, blocks, total}
use nanolog_rs.VarQueue.Consume.{IsAt-size, first_record, pop_lem, front_of}
use nanolog_rs.ConsoleSink.{Stdout, IsStdout}
use nanolog_rs.ConsoleSink.Batch.{IsReliable}
use nanolog_rs.RunLog2.{Record, record_of}
use nanolog_rs.RunLog2.System.Inv.{Matches, Inv}
use nanolog_rs.RunLog2.System.Consumer.{record_of-Matches, consumed-Inv}
use nanolog_rs.RunLog2.Backend.{Backend, deliver, end_turn}
use nanolog_rs.RunLog2.Backend.Turn.{Prints, deliver-Tries, end_turn-Tries}
use nanolog_rs.RunLog2.Threads.{
  Pc, at_front, scanning, found, printed, at_end, World, with_queue, advance_at, advance, threads,
}
use nanolog_rs.RunLog2.Threads.Inv.{Reading, Printout, next_line, Printout-later, Inside}
use nanolog_rs.RunLog2.Threads.Onward.{Onward, printed_is}
use nanolog_rs.RunLog2.Threads.Loads.{Moves, at_front-Moves, scanning-Moves}
use nanolog_rs.RunLog2.Threads.Printed.{AllPrinted, AllPrinted-rest}

-- What a call that prints nothing leaves.
pub sent_none :
    {line_of : ℕ → Msg → List ℕ} (s b : Backend) (count : ℕ) (done : List Msg)
    → Printout line_of s.reads done (s.stdout ++ s.console_sink.batch)
    → Prints count 512 32 s [] b
    → Printout line_of b.reads done (b.stdout ++ b.console_sink.batch)
sent_none {line_of} s b count done sent prints =
    let is : s.stdout ++ s.console_sink.batch ≡ b.stdout ++ b.console_sink.batch =
      ap (λ (t : List ℕ). s.stdout ++ t) (sym (append-nil s.console_sink.batch)) ∙ sym prints.1 in
    subst (λ (t : List ℕ). Printout line_of b.reads done t) is
      (Printout-later (omega (arith, prints.3)) sent)

module _ {out : Stdout} (lawful : IsStdout out) (tsc2ns : ℕ → ℕ → ℤ)
    (call : ℕ → List ℕ → MyBytesMut → Outcome (Bool × MyBytesMut)) (clock : ℕ → ℕ) (n tid : ℕ)
    (line_of : ℕ → Msg → List ℕ) where
  -- The step from `pc` is taken and keeps the invariant, or panics, which a reliable standard output
  -- rules out.
  abbrev TriesMove : Pc → World → Type 0
  TriesMove pc w =
      Moves out tsc2ns call clock n tid line_of pc w
      ⊎ ((advance_at out tsc2ns call clock n tid pc w ≡ panic) × ¬ IsReliable out)

  -- What a call that prints `m` sends.
  sent_one :
      (w : World) (b : Backend) (done : List Msg) (m : Msg)
      → Printout line_of w.backend.reads done (w.backend.stdout ++ w.backend.console_sink.batch)
      → Prints 1 512 32 w.backend (line_of w.backend.reads m) b
      → Printout line_of b.reads (done ++ (m ∷ [])) (b.stdout ++ b.console_sink.batch)
  sent_one w b done m sent prints =
      let line = line_of w.backend.reads m in
      let is : (w.backend.stdout ++ w.backend.console_sink.batch) ++ line
          ≡ b.stdout ++ b.console_sink.batch =
        append_assoc w.backend.stdout w.backend.console_sink.batch line ∙ sym prints.1 in
      subst (λ (t : List ℕ). Printout line_of b.reads (done ++ (m ∷ [])) t) is
        (next_line m sent (omega arith) (omega (arith, prints.3)))

  -- The sink has taken the first record that is not yet popped.
  taken-Moves :
      (f : Front) (w : World) (m : Msg) (rest : List Msg) (b : Backend)
      → (h : Inside n line_of (record w { pc = found f })) → h.inv.queued ≡ m ∷ rest
      → w.published ≡ h.done ++ (m ∷ rest)
      → Matches (record_of w.backend.queue f) m
      → deliver out tsc2ns call clock n tid (record_of w.backend.queue f) w.backend ≡ ok b
      → Prints 1 512 32 w.backend (line_of w.backend.reads m) b
      → b.queue ≡ w.backend.queue
      → Moves out tsc2ns call clock n tid line_of (found f) w
  unfolding advance_at
  taken-Moves f w m rest b h eq split matches e prints same =
      let r = record_of w.backend.queue f in
      let (inv, reading) =
        subst
          (λ (q' : SpscVarQueueOpt).
            (inv : Inv n (record (threads w) { queue = q' })) × Reading n q' inv.queued (printed r))
          (sym same) (h.inv, (h.reading.record_there, m, rest, eq, matches)) in
      (
        record w { backend = b; pc = printed r },
        rw e refl,
        record {
          inside = record {
            inv = inv;
            reading = reading;
            sink = prints.0;
            done = h.done ++ (m ∷ []);
            rest = rest;
            split = split ∙ sym (append_assoc h.done (m ∷ []) rest);
            count = length-append h.done (m ∷ []) ∙ omega (arith, h.count);
            sent = sent_one w b h.done m h.sent prints;
          };
          same = refl;
          producer = (refl, ap (λ (q : SpscVarQueueOpt). q.writing_idx) same);
          closer = λ _. rw same (omega arith);
        },
      )

  found-Tries :
      (f : Front) (w : World)
      → tid < 32
      → AllPrinted tsc2ns call tid line_of w.published
      → Inside n line_of (record w { pc = found f })
      → TriesMove (found f) w
  unfolding advance_at
  found-Tries f w ht ps h =
      let q = w.backend.queue in
      let there = h.reading.record_there in
      let (m, rest, eq, ready) = first_record q there.more there.sized h.inv.chain in
      let f_is : f ≡ front_of n q.read_idx m =
        h.reading.front_is
        ∙ ap
            (λ (sz : ℕ). record {
              hdr = 64 * (q.read_idx % n);
              payload = 64 * (q.read_idx % n) + 24;
              size = sz;
            })
            (IsAt-size ready.at) in
      let split : w.published ≡ h.done ++ (m ∷ rest) =
        h.split ∙ ap (λ ms. h.done ++ ms) ((printed_is h refl).1 ∙ eq) in
      let p =
        AllPrinted-rest tsc2ns call tid line_of h.done (m ∷ rest)
          (subst (AllPrinted tsc2ns call tid line_of) split ps) in
      let matches : Matches (record_of q f) m = rw f_is (record_of-Matches ready) in
      elim (deliver-Tries lawful tsc2ns call clock n tid (record_of q f) m
        (line_of w.backend.reads m) w.backend ht matches (p.0 w.backend.reads) h.sink) [
          | inl (b, e, prints, same) ↦
              inl (taken-Moves f w m rest b h eq split matches e prints same)
          | inr (e, never) ↦ inr (rw e refl, never)
        ]

  popped-Moves :
      (rec : Record) (w : World)
      → Inside n line_of (record w { pc = printed rec })
      → Moves out tsc2ns call clock n tid line_of (printed rec) w
  unfolding advance_at
  popped-Moves rec w h =
      let q = w.backend.queue in
      let (there, m, rest, eq, matches) = h.reading in
      let (m', rest', eq', ready) = first_record q there.more there.sized h.inv.chain in
      let first : m ≡ m' = cc in
      let next =
        pop_lem h.inv.size q q.read_idx m' rest'
          (omega (arith, h.inv.order.behind, h.inv.order.life)) ready in
      let inv = consumed-Inv h.inv rec eq' ready (rw first at matches) in
      (
        record (with_queue w (record q { read_idx = q.read_idx + blocks (total m') })) {
          delivered = w.delivered ++ (rec ∷ []);
          pc = at_front 0;
        },
        rw next refl,
        record {
          inside = record {
            inv = inv;
            reading = tt;
            sink = h.sink;
            done = h.done;
            rest = h.rest;
            split = h.split;
            count = h.count ∙ sym (length-append w.delivered (rec ∷ [])) ∙ omega arith;
            sent = h.sent;
          };
          same = refl;
          producer = (refl, refl);
          closer = λ _. omega (arith, ready.inside);
        },
      )

  turned-Moves :
      (no_data : ℕ) (w : World) (b : Backend) (count : ℕ)
      → Inside n line_of (record w { pc = at_end no_data })
      → end_turn out tsc2ns call clock n tid (no_data, w.backend) ≡ ok b
      → Prints count 512 32
          (record w.backend { num_loop = (w.backend.num_loop + no_data) % 2 ^ 64 })
          []
          b
      → b.queue ≡ w.backend.queue
      → Moves out tsc2ns call clock n tid line_of (at_end no_data) w
  unfolding advance_at
  turned-Moves no_data w b count h e prints same = (
    record w { backend = b; pc = at_front 1 },
    rw e refl,
    record {
      inside = record {
        inv = rw same h.inv;
        reading = tt;
        sink = prints.0;
        done = h.done;
        rest = h.rest;
        split = h.split;
        count = h.count;
        sent =
            sent_none (record w.backend { num_loop = (w.backend.num_loop + no_data) % 2 ^ 64 }) b
              count h.done h.sent prints;
      };
      same = refl;
      producer = (refl, ap (λ (q : SpscVarQueueOpt). q.writing_idx) same);
      closer = λ _. rw same (omega arith);
    },
  )

  at_end-Tries :
      (no_data : ℕ) (w : World)
      → Inside n line_of (record w { pc = at_end no_data })
      → TriesMove (at_end no_data) w
  unfolding advance_at
  at_end-Tries no_data w h =
      let (count, tries) = end_turn-Tries lawful tsc2ns call clock n tid no_data w.backend h.sink in
      elim tries [
        | inl (b, e, prints, same) ↦ inl (turned-Moves no_data w b count h e prints same)
        | inr (e, never) ↦ inr (rw e refl, never)
      ]

  -- Wherever the backend stands, its next step is taken, but for a failed write.
  at-Tries :
      (pc : Pc) (w : World)
      → tid < 32
      → AllPrinted tsc2ns call tid line_of w.published
      → Inside n line_of (record w { pc = pc })
      → TriesMove pc w
  at-Tries (at_front no_data) w ht ps h =
      inl (at_front-Moves out tsc2ns call clock n tid line_of no_data w h)
  at-Tries (scanning no_data last r) w ht ps h =
      inl (scanning-Moves out tsc2ns call clock n tid line_of no_data last r w h)
  at-Tries (found f) w ht ps h = found-Tries f w ht ps h
  at-Tries (printed rec) w ht ps h = inl (popped-Moves rec w h)
  at-Tries (at_end no_data) w ht ps h = at_end-Tries no_data w h

  pub advance-Tries :
      (w : World)
      → tid < 32
      → AllPrinted tsc2ns call tid line_of w.published
      → Inside n line_of w
      → ((w' : World) × (advance out tsc2ns call clock n tid w ≡ ok w') × Onward n line_of w w')
        ⊎ ((advance out tsc2ns call clock n tid w ≡ panic) × ¬ IsReliable out)
  unfolding advance
  advance-Tries w ht ps h = at-Tries w.pc w ht ps h
