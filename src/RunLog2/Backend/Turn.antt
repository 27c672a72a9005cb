-- ===== src/RunLog2/Backend/Turn.antt =====
-- A turn of the backend (`run` of src/run_log2.rs) prints every record that the ring holds.
use nanolog_rs.Prelude.{
  ℕ, zero, suc, ◌+◌, ◌%◌, ◌^◌, ◌<◌, ◌≡◌, refl, sym, ap, subst, ◌∙◌, Bool, true, false, inl, inr,
  some, List, [], ◌∷◌, ◌++◌, length, take, drop, append_assoc, append-take-drop, append-nil,
  Bool-cases, arith, leb, ◌⊎◌,
}
use nanolog_rs.Prelude.Int.{ℤ}
use nanolog_rs.Prelude.Outcome.{Outcome, ok, panic}
use nanolog_rs.BytesMut.{MyBytesMut}
use nanolog_rs.VarQueue.{SpscVarQueueOpt, pop}
use nanolog_rs.VarQueue.Layout.{IsSize, Msg, Chain, blocks, total}
use nanolog_rs.VarQueue.Consume.{front_lem, pop_lem}
use nanolog_rs.ConsoleSink.{Stdout, IsStdout, Result, on_idle}
use nanolog_rs.ConsoleSink.Batch.{
  IsSink, IsReliable, Kept, on_record-Kept, on_idle-Kept, on_idle-IsSink,
}
use nanolog_rs.RunLog2.{Record}
use nanolog_rs.RunLog2.System.Inv.{Matches}
use nanolog_rs.RunLog2.System.Consumer.{record_of-Matches}
use nanolog_rs.RunLog2.Backend.Lines.{IsPrinted, Lines, none_left, one_more}
use nanolog_rs.RunLog2.Backend.{Backend, unwrap, deliver, inner_loop, end_turn, turn}

-- What is behind the payload in the slice that `run` makes.
payload_first : (xs ys : List ℕ) → take (length xs) ys ≡ xs → ys ≡ xs ++ drop (length xs) ys
payload_first xs ys h =
    sym (append-take-drop (length xs) ys) ∙ ap (λ (t : List ℕ). t ++ drop (length xs) ys) h

-- What a part of a turn does that prints `text` and reads the counter `count` times, when it begins
-- in `s` and ends in `s'`.
abbrev pub Prints : ℕ → ℕ → ℕ → Backend → List ℕ → Backend → Type 0
Prints count cap max_tid s text s' =
    IsSink cap max_tid s'.console_sink
    × (s'.stdout ++ s'.console_sink.batch ≡ s.stdout ++ (s.console_sink.batch ++ text))
    × (s'.num_loop ≡ s.num_loop)
    × (s'.reads ≡ s.reads + count)

Prints-append :
    (i j : ℕ) {count cap max_tid : ℕ} (s s1 s2 : Backend) (text more : List ℕ)
    → Prints i cap max_tid s text s1
    → Prints j cap max_tid s1 more s2
    → i + j ≡ count
    → Prints count cap max_tid s (text ++ more) s2
Prints-append i j s s1 s2 text more h k e =
    (k.0, k.1 ∙ joined, k.2 ∙ h.2, omega (arith, h.3, k.3, e))
  where
    joined :
        s1.stdout ++ (s1.console_sink.batch ++ more)
        ≡ s.stdout ++ (s.console_sink.batch ++ (text ++ more))
    joined =
        sym (append_assoc s1.stdout s1.console_sink.batch more)
        ∙ ap (λ (t : List ℕ). t ++ more) h.1
        ∙ append_assoc s.stdout (s.console_sink.batch ++ text) more
        ∙ ap (λ (t : List ℕ). s.stdout ++ t) (append_assoc s.console_sink.batch text more)

-- A part of a turn that begins in `s` prints `text`, or panics, which a reliable standard output
-- rules out.
abbrev pub Tries : Stdout → ℕ → ℕ → ℕ → Backend → List ℕ → Outcome Backend → Type 0
Tries out count cap max_tid s text o =
    ((s' : Backend) × (o ≡ ok s') × Prints count cap max_tid s text s' × (s'.queue ≡ s.queue))
    ⊎ ((o ≡ panic) × ¬ IsReliable out)

unwrap-Tries :
    (out : Stdout) (n : ℕ) {cap max_tid : ℕ} (s : Backend) (text : List ℕ) (res : Result)
    → (IsReliable out → res.0 ≡ true)
    → Kept s.stdout (s.console_sink.batch ++ text) res
    → IsSink cap max_tid res.1
    → Tries out n cap max_tid s text (unwrap n s res)
unfolding unwrap
unwrap-Tries out n s text (true, sink, got) good kept i = inl (_, refl, (i, kept, refl, refl), refl)
unwrap-Tries out n s text (false, sink, got) good kept i =
    inr (refl, λ reliable. ground (arith, good reliable))

when_reliable :
    {out : Stdout} (count : ℕ) {cap max_tid : ℕ} (s : Backend) (text : List ℕ) {o : Outcome Backend}
    → IsReliable out
    → Tries out count cap max_tid s text o
    → (s' : Backend) × (o ≡ ok s') × Prints count cap max_tid s text s' × (s'.queue ≡ s.queue)
when_reliable count s text reliable (inl h) = h
when_reliable count s text reliable (inr (e, never)) = absurd (never reliable)

-- Whether a turn counts as idle.
abbrev pub no_data_of : ℕ → List Msg → ℕ
no_data_of no_data [] = no_data
no_data_of no_data (m ∷ ms) = 0

no_data_of_zero : (ms : List Msg) → no_data_of 0 ms ≡ 0
no_data_of_zero [] = refl
no_data_of_zero (m ∷ ms) = refl

module _ {out : Stdout} (lawful : IsStdout out) (tsc2ns : ℕ → ℕ → ℤ)
    (call : ℕ → List ℕ → MyBytesMut → Outcome (Bool × MyBytesMut)) (clock : ℕ → ℕ) (n tid : ℕ)
    {cap max_tid : ℕ} where
  pub deliver-Tries :
      (r : Record) (m : Msg) (line : List ℕ) (s : Backend)
      → tid < 32
      → Matches r m
      → IsPrinted (tsc2ns s.reads) call cap tid m line
      → IsSink cap max_tid s.console_sink
      → Tries out 1 cap max_tid s line (deliver out tsc2ns call clock n tid r s)
  unfolding deliver
  deliver-Tries r m line s ht h p i =
      let payload = payload_first m.payload r.log_payload h.payload_is in
      let (res, e, kept, sink, good) =
        on_record-Kept lawful (tsc2ns s.reads) call (clock s.reads) tid p.ns max_tid r.log_header
          r.log_payload s.console_sink s.stdout p.text (rw h.header_is p.time_is) p.in_range ht
          (rw h.header_is p.level_is) i
          (λ b hb.
            rw (h.header_is, payload) (p.appends (drop (length m.payload) r.log_payload) b hb))
          p.fits in
      rw e (unwrap-Tries out 1 s line res good (rw p.line_is kept) sink)

  pub end_turn-Tries :
      (no_data : ℕ) (s : Backend)
      → IsSink cap max_tid s.console_sink
      → (count : ℕ) × Tries out count cap max_tid
          (record s { num_loop = (s.num_loop + no_data) % 2 ^ 64 })
          []
          (end_turn out tsc2ns call clock n tid (no_data, s))
  unfolding end_turn
  end_turn-Tries no_data s i = elim (Bool-cases (leb 1024 ((s.num_loop + no_data) % 2 ^ 64))) [
    | inl e ↦
        let kept =
          on_idle-Kept lawful (tsc2ns s.reads) call (clock (s.reads + 1)) (clock s.reads)
            s.console_sink s.stdout in
        let (sink, good) =
          on_idle-IsSink lawful (tsc2ns s.reads) call (clock (s.reads + 1)) (clock s.reads)
            s.console_sink s.stdout i in
        rw (end_turn, e)
          (
            2,
            unwrap-Tries out 2 (record s { num_loop = (s.num_loop + no_data) % 2 ^ 64 }) []
                (on_idle out (tsc2ns s.reads) call (clock (s.reads + 1)) (clock s.reads)
                  s.console_sink s.stdout)
                good (rw (append-nil s.console_sink.batch) kept) sink,
          )
    | inr e ↦
        rw (end_turn, e)
          (
            0,
            inl (
              record s { num_loop = (s.num_loop + no_data) % 2 ^ 64 },
              refl,
              (
                i,
                ap (λ (t : List ℕ). s.stdout ++ t) (sym (append-nil s.console_sink.batch)),
                refl,
                omega arith,
              ),
              refl,
            ),
          )
  ]

module _ {out : Stdout} (lawful : IsStdout out) (reliable : IsReliable out) (tsc2ns : ℕ → ℕ → ℤ)
    (call : ℕ → List ℕ → MyBytesMut → Outcome (Bool × MyBytesMut)) (clock : ℕ → ℕ) (n tid : ℕ)
    {cap max_tid : ℕ} where
  inner_loop-Prints :
      (size : IsSize n) (fuel : ℕ) (ms : List Msg) {lines : List ℕ} (k no_data : ℕ) (s : Backend)
      → tid < 32
      → length ms < k
      → s.queue.written_idx < 2 ^ 31
      → s.queue.written_idx < s.queue.read_idx + fuel
      → Chain n s.queue.blk s.queue.written_idx s.queue.read_idx ms
      → Lines tsc2ns call cap tid s.reads ms lines
      → IsSink cap max_tid s.console_sink
      → (s' : Backend) × (inner_loop out tsc2ns call clock n tid fuel k no_data s
          ≡ some (ok (no_data_of no_data ms, s')))
        × Prints (length ms) cap max_tid s lines s'
        × (s'.queue ≡ record s.queue { read_idx = s.queue.written_idx })
  unfolding inner_loop
  inner_loop-Prints size fuel ms zero no_data s ht hk hw hf c ls i = absurd (omega arith)
  inner_loop-Prints size fuel [] (suc k) no_data s ht hk hw hf c none_left i = (
    record s { queue = record s.queue { read_idx = s.queue.written_idx } },
    rw (inner_loop, front_lem size fuel s.queue hw hf c) refl,
    (
      i,
      ap (λ (t : List ℕ). s.stdout ++ t) (sym (append-nil s.console_sink.batch)),
      refl,
      omega arith,
    ),
    refl,
  )
  inner_loop-Prints size fuel (m ∷ ms) (suc k) no_data s ht hk hw hf c
        (one_more {line = line} {lines} p ls) i =
      let (r, e, ready) = front_lem size fuel s.queue hw hf c in
      let (s1, e1, h1, same) =
        when_reliable 1 (record s { queue = record s.queue { read_idx = r } }) line reliable
          (deliver-Tries lawful tsc2ns call clock n tid _ m line
            (record s { queue = record s.queue { read_idx = r } }) ht (record_of-Matches ready) p
            i) in
      let popped = ap (pop n) same ∙ pop_lem size s.queue r m ms hw ready in
      let next : SpscVarQueueOpt = record s.queue { read_idx = r + blocks (total m) } in
      let reads : suc s.reads ≡ s1.reads = omega (arith, h1.3) in
      let (s2, e2, h2, left) =
        inner_loop-Prints size fuel ms k 0 (record s1 { queue = next }) ht (omega arith) hw
          (omega (arith, ready.after)) ready.rest
          (subst (λ (i : ℕ). Lines tsc2ns call cap tid i ms lines) reads ls) h1.0 in
      (
        s2,
        rw (inner_loop, e, e1, popped, e2, no_data_of_zero ms) refl,
        Prints-append 1 (length ms) s s1 s2 line lines h1 h2 (omega arith),
        left,
      )

  -- Take a ring of a power of two of at most 2 ^ 30 blocks that holds the records `ms`, no index
  -- beyond 2 ^ 31, a thread id below 32, a sink as `new` makes it or as a call left it, a standard
  -- output that takes all it is given, and records that the sink can print as `lines`, each with the
  -- clock as it then stands, which may be calibrated anew between any two records. Then, on fuel
  -- for each record and for each block between the indices, a turn of the backend ends without a
  -- panic. What standard output has got, with the batch behind it, is then what it was before with
  -- `lines` behind it; the ring is empty, the sink is as it should be, and `num_loop` has gone up
  -- only if there was no record.
  pub turn_prints_all :
      (size : IsSize n) (fuel : ℕ) (ms : List Msg) {lines : List ℕ} (k : ℕ) (s : Backend)
      → tid < 32
      → length ms < k
      → s.queue.written_idx < 2 ^ 31
      → s.queue.written_idx < s.queue.read_idx + fuel
      → Chain n s.queue.blk s.queue.written_idx s.queue.read_idx ms
      → Lines tsc2ns call cap tid s.reads ms lines
      → IsSink cap max_tid s.console_sink
      → (s' : Backend) × (turn out tsc2ns call clock n tid fuel k s ≡ some (ok s'))
        × (s'.stdout ++ s'.console_sink.batch ≡ s.stdout ++ (s.console_sink.batch ++ lines))
        × (s'.queue ≡ record s.queue { read_idx = s.queue.written_idx })
        × IsSink cap max_tid s'.console_sink
        × (s'.num_loop ≡ (s.num_loop + no_data_of 1 ms) % 2 ^ 64)
  unfolding turn
  turn_prints_all size fuel ms k s ht hk hw hf c ls i =
      let (s1, e1, h1, q1) = inner_loop-Prints size fuel ms k 1 s ht hk hw hf c ls i in
      let (s2, e2, h2, q2) =
        when_reliable _ (record s1 { num_loop = (s1.num_loop + no_data_of 1 ms) % 2 ^ 64 }) []
          reliable (end_turn-Tries lawful tsc2ns call clock n tid (no_data_of 1 ms) s1 h1.0).1 in
      (
        s2,
        rw (turn, e1, e2) refl,
        h2.1 ∙ ap (λ (t : List ℕ). s1.stdout ++ t) (append-nil s1.console_sink.batch) ∙ h1.1,
        q2 ∙ q1,
        h2.0,
        h2.2 ∙ ap (λ (x : ℕ). (x + no_data_of 1 ms) % 2 ^ 64) h1.2,
      )
