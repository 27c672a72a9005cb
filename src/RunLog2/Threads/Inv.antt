-- ===== src/RunLog2/Threads/Inv.antt =====
-- What holds wherever the backend's thread and the producer of src/run_log2.rs stand, and that the
-- producer's steps keep it.
use nanolog_rs.Prelude.{
  ℕ, ◌+◌, ◌*◌, ◌%◌, ◌≤◌, ◌<◌, ◌≡◌, ◌≢◌, sym, ap, ◌∙◌, List, [], ◌∷◌, ◌++◌, append_assoc, length,
  arith,
}
use nanolog_rs.Prelude.Bytes.{of_le_bytes, read_bytes}
use nanolog_rs.VarQueue.{SpscVarQueueOpt, Front}
use nanolog_rs.VarQueue.Layout.{IsSize-pos, Msg, Chain}
use nanolog_rs.VarQueue.Frame.{size_Agree, Chain-Agree}
use nanolog_rs.VarQueue.Consume.{Chain-le}
use nanolog_rs.ConsoleSink.Batch.{IsSink}
use nanolog_rs.RunLog2.{Record}
use nanolog_rs.RunLog2.System.{System, Produce}
use nanolog_rs.RunLog2.System.Inv.{Matches, Inv}
use nanolog_rs.RunLog2.System.Producer.{Produce-Inv}
use nanolog_rs.RunLog2.System.Stable.{Stable, queued-append, Produce-Stable, Produce-append}
use nanolog_rs.RunLog2.Threads.{
  Pc, at_front, scanning, found, printed, at_end, World, with_system, threads,
}

-- The first four bytes of the block at `read_idx`.
abbrev pub size_at : ℕ → SpscVarQueueOpt → ℕ
size_at n q = of_le_bytes (read_bytes q.blk (64 * (q.read_idx % n)) 4)

-- There is a record at `read_idx`, and no rewind marker.
pub record AtRecord (n : ℕ) (q : SpscVarQueueOpt) : Type 0 where
  pub more : q.read_idx ≢ q.written_idx
  pub sized : size_at n q ≢ 0

-- In the loop of `front`, which knows the records up to an older `written_idx`.
pub record Scan (n : ℕ) (q : SpscVarQueueOpt) (w r : ℕ) : Type 0 where
  pub at : r ≡ q.read_idx
  pub ahead : r ≢ w
  pub known : w ≤ q.written_idx
  pub before : List Msg
  pub upto : Chain n q.blk w r before

pub record FoundAt (n : ℕ) (q : SpscVarQueueOpt) (f : Front) : Type 0 where
  pub record_there : AtRecord n q
  pub front_is : f ≡ record {
    hdr = 64 * (q.read_idx % n);
    payload = 64 * (q.read_idx % n) + 24;
    size = size_at n q;
  }

-- What the backend's local variables say of the ring, in which `ms` are still to be popped.
abbrev pub Reading : ℕ → SpscVarQueueOpt → List Msg → Pc → Type 0
Reading n q ms (at_front no_data) = Unit
Reading n q ms (scanning no_data w r) = Scan n q w r
Reading n q ms (found f) = FoundAt n q f
Reading n q ms (printed rec) =
    AtRecord n q × (m : Msg) × (rest : List Msg) × (ms ≡ m ∷ rest) × Matches rec m
Reading n q ms (at_end no_data) = Unit

-- The records that are printed and not yet popped.
abbrev pub in_hand : Pc → ℕ
in_hand (at_front no_data) = 0
in_hand (scanning no_data w r) = 0
in_hand (found f) = 0
in_hand (printed rec) = 1
in_hand (at_end no_data) = 0

-- What the sink has sent for the records, from the first on, by the time that the counter has been
-- read so many times: the line of each behind those before it, where `line_of j` gives the lines that
-- belong to the clock as it stands at reading `j`, a later one for each record.
pub data Printout (line_of : ℕ → Msg → List ℕ) : ℕ → List Msg → List ℕ → Type 0 where
  no_lines : {k : ℕ} → Printout line_of k [] []
  next_line :
      {i j k : ℕ} {ms : List Msg} {sent : List ℕ} (m : Msg)
      → Printout line_of i ms sent
      → i ≤ j
      → j < k
      → Printout line_of k (ms ++ (m ∷ [])) (sent ++ line_of j m)

pub Printout-later :
    {line_of : ℕ → Msg → List ℕ} {k l : ℕ} {ms : List Msg} {sent : List ℕ}
    → k ≤ l
    → Printout line_of k ms sent
    → Printout line_of l ms sent
Printout-later le no_lines = no_lines
Printout-later le (next_line m before after lt) = next_line m before after (omega arith)

-- The invariant: that of the two threads over the ring, what the backend knows, the sink ready, and
-- on standard output or in the batch the lines of the first records.
pub record Inside (n : ℕ) (line_of : ℕ → Msg → List ℕ) (w : World) : Type 0 where
  pub inv : Inv n (threads w)
  pub reading : Reading n w.backend.queue inv.queued w.pc
  pub sink : IsSink 512 32 w.backend.console_sink
  pub done : List Msg
  pub rest : List Msg
  pub split : w.published ≡ done ++ rest
  pub count : length done ≡ length w.delivered + in_hand w.pc
  pub sent :
      Printout line_of w.backend.reads done (w.backend.stdout ++ w.backend.console_sink.batch)

module _ {n : ℕ} {s t : System} (inv : Inv n s) (st : Produce n s t) where
  still : Stable n s t
  still = Produce-Stable inv st

  AtRecord-Produce : AtRecord n s.queue → AtRecord n t.queue
  AtRecord-Produce h =
      let le = Chain-le inv.size inv.chain in
      record {
        more = omega (arith, still.same_read, still.on, le, h.more);
        sized =
            rw
              (
                still.same_read,
                size_Agree n s.queue.blk t.queue.blk s.queue.read_idx s.queue.written_idx
                    (IsSize-pos inv.size) (omega (arith, le, h.more)) still.same_bytes,
              )
              h.sized;
      }

  -- What the backend knows stays true under a step of the producer.
  Reading-Produce :
      (pc : Pc) (inv' : Inv n t)
      → Reading n s.queue inv.queued pc
      → Reading n t.queue inv'.queued pc
  Reading-Produce (at_front no_data) inv' h = h
  Reading-Produce (scanning no_data w r) inv' h = record {
    at = h.at ∙ sym still.same_read;
    ahead = h.ahead;
    known = omega (arith, h.known, still.on);
    before = h.before;
    upto =
        Chain-Agree (IsSize-pos inv.size)
          (λ b j p q l. still.same_bytes b j (omega (arith, h.at)) (omega (arith, h.known)) l)
          h.upto;
  }
  Reading-Produce (found f) inv' h =
      let le = Chain-le inv.size inv.chain in
      record {
        record_there = AtRecord-Produce h.record_there;
        front_is =
            rw
              (
                still.same_read,
                size_Agree n s.queue.blk t.queue.blk s.queue.read_idx s.queue.written_idx
                    (IsSize-pos inv.size) (omega (arith, le, h.record_there.more)) still.same_bytes,
              )
              h.front_is;
      }
  Reading-Produce (printed rec) inv' (there, m, rest, e, h) =
      let (more, grown) = Produce-append st in
      (
        AtRecord-Produce there,
        m,
        rest ++ more,
        queued-append more inv inv' still.same_got grown ∙ ap (λ ms. ms ++ more) e,
        h,
      )
  Reading-Produce (at_end no_data) inv' h = h

-- A step of the producer keeps the invariant.
pub Produce-Inside :
    {n : ℕ} {line_of : ℕ → Msg → List ℕ} {w : World} {s : System}
    → Produce n (threads w) s
    → Inside n line_of w
    → Inside n line_of (with_system w s)
Produce-Inside {w = w} {s} st h =
    let (more, grown) = Produce-append st in
    let same = (Produce-Stable h.inv st).same_got in
    record {
      inv = Produce-Inv st h.inv;
      reading = Reading-Produce h.inv st w.pc (Produce-Inv st h.inv) h.reading;
      sink = h.sink;
      done = h.done;
      rest = h.rest ++ more;
      split = grown ∙ ap (λ (ms : List Msg). ms ++ more) h.split ∙ append_assoc h.done h.rest more;
      count = h.count ∙ ap (λ (ds : List Record). length ds + in_hand w.pc) (sym same);
      sent = h.sent;
    }
