-- ===== src/RunLog2/Backend/Session.antt =====
-- A program's run with src/run_log2.rs: calls of `publish_args` and turns of the backend, one after
-- the other in any order, from a new ring and a new sink.
use nanolog_rs.Prelude.{
  ℕ, ◌+◌, ◌<◌, ◌≡◌, refl, sym, ap, subst, ◌∙◌, Bool, true, false, Option, none, some, List, [], ◌∷◌,
  ◌++◌, append_assoc, append-nil, length, length-append, suc, arith,
}
use nanolog_rs.Prelude.Int.{ℤ}
use nanolog_rs.Prelude.Outcome.{Outcome, ok, panic, fault}
use nanolog_rs.BytesMut.{MyBytesMut}
use nanolog_rs.Log.{Level}
use nanolog_rs.VarQueue.{SpscVarQueueOpt, new}
use nanolog_rs.VarQueue.Layout.{IsSize, Msg, total, done}
use nanolog_rs.VarQueue.Reserve.{InLife, fresh}
use nanolog_rs.ConsoleSink.{Stdout, IsStdout}
use nanolog_rs.ConsoleSink
use nanolog_rs.ConsoleSink.Batch.{IsSink, IsReliable, new-IsSink}
use nanolog_rs.RunLog2.{publish_args}
use nanolog_rs.RunLog2.Fill.{IsWords}
use nanolog_rs.RunLog2.System.{System, idle, here}
use nanolog_rs.RunLog2.System.Inv.{AllMatch, Inv}
use nanolog_rs.RunLog2.System.Producer.{refuse-Inv}
use nanolog_rs.RunLog2.System.Fifo.{Reach-Inv}
use nanolog_rs.RunLog2.Publish.{msg_of, Published, publish_args-Published, Chain-length}
use nanolog_rs.RunLog2.Backend.{Backend, turn}
use nanolog_rs.RunLog2.Backend.Lines.{IsPrinted, Lines, none_left, one_more, Lines-append}
use nanolog_rs.RunLog2.Backend.Turn.{turn_prints_all}

abbrev pub new_backend : SpscVarQueueOpt → ℕ → Backend
new_backend q now = record {
  queue = q;
  console_sink = ConsoleSink.new now;
  num_loop = 0;
  stdout = [];
  reads = 1;
}

-- `blk_cnt` is the size of the ring, `tid` the argument of `run`.
module _ (out : Stdout) (tsc2ns : ℕ → ℕ → ℤ)
    (call : ℕ → List ℕ → MyBytesMut → Outcome (Bool × MyBytesMut)) (clock : ℕ → ℕ)
    (blk_cnt tid : ℕ) where
  -- The state `b` after a run in which the lines `printed` belong to the accepted records before the
  -- last turn, and `queued` to the `waiting` ones behind it; these are printed when the counter has
  -- been read once more for each record before them.
  pub data Session : (b : Backend) (printed : List ℕ) (waiting : ℕ) (queued : List ℕ) → Type 0 where
    begun :
        {q : SpscVarQueueOpt} (now : ℕ) → new blk_cnt ≡ ok q → Session (new_backend q now) [] 0 []
    logged :
        {b : Backend} {waiting : ℕ} {printed queued line : List ℕ} {q : SpscVarQueueOpt}
        (level : Level) (func tsc : ℕ) (args : List ℕ)
        → Session b printed waiting queued
        → IsWords (msg_of level func tsc args)
        → InLife blk_cnt (total (msg_of level func tsc args)) b.queue
        → IsPrinted (tsc2ns (b.reads + waiting)) call 512 tid (msg_of level func tsc args) line
        → publish_args blk_cnt level func tsc args b.queue ≡ (true, q)
        → Session (record b { queue = q }) printed (suc waiting) (queued ++ line)
    dropped :
        {b : Backend} {waiting : ℕ} {printed queued : List ℕ} {q : SpscVarQueueOpt} (level : Level)
        (func tsc : ℕ) (args : List ℕ)
        → Session b printed waiting queued
        → IsWords (msg_of level func tsc args)
        → InLife blk_cnt (total (msg_of level func tsc args)) b.queue
        → publish_args blk_cnt level func tsc args b.queue ≡ (false, q)
        → Session (record b { queue = q }) printed waiting queued
    turned :
        {b b' : Backend} {waiting : ℕ} {printed queued : List ℕ} (fuel k : ℕ)
        → Session b printed waiting queued
        → b.queue.written_idx < b.queue.read_idx + fuel
        → b.queue.written_idx < b.queue.read_idx + k
        → turn out tsc2ns call clock blk_cnt tid fuel k b ≡ some (ok b')
        → Session b' (printed ++ queued) 0 []

-- The ring with what it holds.
abbrev holding : SpscVarQueueOpt → List Msg → System
holding q ms = record { queue = q; phase = idle; published = ms; delivered = [] }

queued_all :
    {n : ℕ} {q : SpscVarQueueOpt} {ms : List Msg} (inv : Inv n (holding q ms)) → ms ≡ inv.queued
queued_all inv =
    inv.split ∙ ap (λ (xs : List Msg). xs ++ inv.queued) (none_yet inv.consumed inv.got)
  where
    none_yet : (ms : List Msg) → AllMatch [] ms → ms ≡ []
    none_yet [] h = refl
    none_yet (m ∷ ms) h = absurd h

emptied-Inv :
    {n : ℕ} {q : SpscVarQueueOpt} {ms : List Msg}
    → Inv n (holding q ms)
    → Inv n (holding (record q { read_idx = q.written_idx }) [])
emptied-Inv inv = record {
  size = inv.size;
  consumed = [];
  queued = [];
  split = refl;
  got = tt;
  chain = done refl;
  order = record {
    behind = inv.order.behind;
    known = omega (arith, inv.order.known, Chain-length inv.size inv.chain);
    window = inv.order.window;
    life = inv.order.life;
  };
  at_phase = inv.at_phase;
}

of_turn : Backend → Option (Outcome Backend) → Backend
of_turn b none = b
of_turn b (some (ok b')) = b'
of_turn b (some panic) = b
of_turn b (some fault) = b

module _ {out : Stdout} (lawful : IsStdout out) (reliable : IsReliable out) (tsc2ns : ℕ → ℕ → ℤ)
    (call : ℕ → List ℕ → MyBytesMut → Outcome (Bool × MyBytesMut)) (clock : ℕ → ℕ) (n tid : ℕ) where
  -- The ring holds records that the sink can print, the sink is ready, and what belongs to the
  -- records before is on standard output or in the batch.
  record Kept (b : Backend) (printed : List ℕ) (waiting : ℕ) (queued : List ℕ) : Type 0 where
    held : List Msg
    many : length held ≡ waiting
    inv : Inv n (holding b.queue held)
    lines : Lines tsc2ns call 512 tid b.reads held queued
    sink : IsSink 512 32 b.console_sink
    sent : b.stdout ++ b.console_sink.batch ≡ printed

  logged-Kept :
      {b : Backend} {waiting : ℕ} {printed queued line : List ℕ} {q : SpscVarQueueOpt}
      (level : Level) (func tsc : ℕ) (args : List ℕ)
      → Kept b printed waiting queued
      → IsWords (msg_of level func tsc args)
      → InLife n (total (msg_of level func tsc args)) b.queue
      → IsPrinted (tsc2ns (b.reads + waiting)) call 512 tid (msg_of level func tsc args) line
      → publish_args n level func tsc args b.queue ≡ (true, q)
      → Kept (record b { queue = q }) printed (suc waiting) (queued ++ line)
  logged-Kept {b} {queued = queued} {line} level func tsc args k w l p e = record {
    held = k.held ++ (msg_of level func tsc args ∷ []);
    many = length-append k.held (msg_of level func tsc args ∷ []) ∙ omega (arith, k.many);
    inv =
        subst (Published n (holding b.queue k.held) (msg_of level func tsc args)) e
          (publish_args-Published k.inv level func tsc args refl w l);
    lines =
        subst (Lines tsc2ns call 512 tid b.reads _)
          (ap (λ (t : List ℕ). queued ++ t) (append-nil line))
          (Lines-append k.lines (one_more (rw k.many p) none_left));
    sink = k.sink;
    sent = k.sent;
  }

  dropped-Kept :
      {b : Backend} {waiting : ℕ} {printed queued : List ℕ} {q : SpscVarQueueOpt} (level : Level)
      (func tsc : ℕ) (args : List ℕ)
      → Kept b printed waiting queued
      → IsWords (msg_of level func tsc args)
      → InLife n (total (msg_of level func tsc args)) b.queue
      → publish_args n level func tsc args b.queue ≡ (false, q)
      → Kept (record b { queue = q }) printed waiting queued
  dropped-Kept {b} {q = q} level func tsc args k w l e =
      let same : q ≡ fresh b.queue =
        subst (Published n (holding b.queue k.held) (msg_of level func tsc args)) e
          (publish_args-Published k.inv level func tsc args refl w l) in
      record {
        held = k.held;
        many = k.many;
        inv = rw same (refuse-Inv k.inv refl);
        lines = k.lines;
        sink = k.sink;
        sent = k.sent;
      }

  turned-Kept :
      {b : Backend} {waiting : ℕ} {printed queued : List ℕ} (fuel k : ℕ)
      → tid < 32
      → Kept b printed waiting queued
      → b.queue.written_idx < b.queue.read_idx + fuel
      → b.queue.written_idx < b.queue.read_idx + k
      → (b' : Backend) × (turn out tsc2ns call clock n tid fuel k b ≡ some (ok b'))
        × Kept b' (printed ++ queued) 0 []
  turned-Kept {b} {printed} {queued} fuel k ht h hf hk =
      let inv = h.inv in
      let lines =
        subst (λ ms. Lines tsc2ns call 512 tid b.reads ms queued) (queued_all inv) h.lines in
      let (b', e, sent, empty, sink, loops) =
        turn_prints_all lawful reliable tsc2ns call clock n tid inv.size fuel inv.queued k b ht
          (omega (arith, Chain-length inv.size inv.chain))
          (omega (arith, inv.order.behind, inv.order.life)) hf inv.chain lines h.sink in
      (
        b',
        e,
        record {
          held = [];
          many = refl;
          inv = rw empty (emptied-Inv inv);
          lines = none_left;
          sink = sink;
          sent =
              sent
              ∙ sym (append_assoc b.stdout b.console_sink.batch queued)
              ∙ ap (λ (t : List ℕ). t ++ queued) h.sent;
        },
      )

  Session-Kept :
      {b : Backend} {waiting : ℕ} {printed queued : List ℕ}
      → IsSize n
      → tid < 32
      → Session out tsc2ns call clock n tid b printed waiting queued
      → Kept b printed waiting queued
  unfolding ConsoleSink.new of_turn
  Session-Kept size ht (begun now e) = record {
    held = [];
    many = refl;
    inv = Reach-Inv size e here;
    lines = none_left;
    sink = new-IsSink now;
    sent = refl;
  }
  Session-Kept size ht (logged level func tsc args r w l p e) =
      logged-Kept level func tsc args (Session-Kept size ht r) w l p e
  Session-Kept size ht (dropped level func tsc args r w l e) =
      dropped-Kept level func tsc args (Session-Kept size ht r) w l e
  Session-Kept size ht (turned {b = b} {b'} {printed} {queued} fuel k r hf hk e) =
      let (b'', e', kept) = turned-Kept fuel k ht (Session-Kept size ht r) hf hk in
      subst (λ (x : Backend). Kept x (printed ++ queued) 0 []) (ap (of_turn b) (sym e' ∙ e)) kept

  -- Take a new ring of a power of two of at most 2 ^ 30 blocks, a new sink, a thread id below 32, a
  -- standard output that takes all it is given, and a run of calls of `publish_args` and of turns of
  -- the backend, one after the other in any order and number: records that the sink can print, with the
  -- clock as it stands when their turn comes, which may be calibrated anew between any two, and with
  -- fields that fit their words and before any index reaches 2 ^ 31, and turns on fuel for the blocks
  -- between the indices. Then what standard output has got, with the batch behind it, is the lines of
  -- all records accepted before the last turn, each once and in order, and nothing of those refused.
  -- The next turn ends without a panic, and adds the lines of the records accepted since.
  pub printed_in_order :
      {b : Backend} {waiting : ℕ} {printed queued : List ℕ} (fuel k : ℕ)
      → IsSize n
      → tid < 32
      → Session out tsc2ns call clock n tid b printed waiting queued
      → b.queue.written_idx < b.queue.read_idx + fuel
      → b.queue.written_idx < b.queue.read_idx + k
      → (b.stdout ++ b.console_sink.batch ≡ printed)
        × (b' : Backend) × (turn out tsc2ns call clock n tid fuel k b ≡ some (ok b'))
        × (b'.stdout ++ b'.console_sink.batch ≡ printed ++ queued)
  printed_in_order fuel k size ht r hf hk =
      let kept = Session-Kept size ht r in
      let (b', e, next) = turned-Kept fuel k ht kept hf hk in (kept.sent, b', e, next.sent)
