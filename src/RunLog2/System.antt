-- ===== src/RunLog2/System.antt =====
-- The two threads of src/run_log2.rs over one ring, a call at a time, in any order. Between the
-- producer's `try_alloc`, its writes and its `commit` the consumer may run. A call is one step: of
-- the memory that the other thread uses it reads one index, before all else, and writes one, after
-- all else (the rewind marker and the record lie in blocks that the consumer does not reach).
pub mod Inv
pub mod Producer
pub mod Consumer
pub mod Stable
pub mod Fifo
use nanolog_rs.Prelude.{ℕ, ◌+◌, ◌<◌, ◌≡◌, Option, none, some, List, [], ◌∷◌, ◌++◌, length}
use nanolog_rs.VarQueue.{SpscVarQueueOpt, Alloc, Front, try_alloc, commit, front, pop}
use nanolog_rs.VarQueue.Layout.{Msg, total}
use nanolog_rs.VarQueue.Reserve.{InLife}
use nanolog_rs.RunLog2.{Record, record_of}
use nanolog_rs.RunLog2.Fill.{fill_msg, IsWords}

-- Where the producer stands in `publish_args`.
pub data Phase : Type 0 where
  idle : Phase
  granted : Alloc → Msg → Phase
  filled : Alloc → Msg → Phase

-- `published` and `delivered` are what has been committed, and what the sink has got.
pub record System : Type 0 where
  pub queue : SpscVarQueueOpt
  pub phase : Phase
  pub published : List Msg
  pub delivered : List Record

-- A step of the producer.
pub data Produce (n : ℕ) (s : System) : System → Type 0 where
  alloc :
      (m : Msg) {a : Alloc} {q : SpscVarQueueOpt}
      → s.phase ≡ idle
      → IsWords m
      → InLife n (total m) s.queue
      → try_alloc n (length m.payload) s.queue ≡ (some a, q)
      → Produce n s (record s { queue = q; phase = granted a m })
  refuse :
      (m : Msg) {q : SpscVarQueueOpt}
      → s.phase ≡ idle
      → InLife n (total m) s.queue
      → try_alloc n (length m.payload) s.queue ≡ (none, q)
      → Produce n s (record s { queue = q })
  write :
      {a : Alloc} {m : Msg}
      → s.phase ≡ granted a m
      → Produce n s (record s { queue = fill_msg a m s.queue; phase = filled a m })
  publish :
      {a : Alloc} {m : Msg}
      → s.phase ≡ filled a m
      → Produce n s (record s {
        queue = commit a.hdr a.total_bytes s.queue;
        phase = idle;
        published = s.published ++ (m ∷ []);
      })

pub data Step (n : ℕ) (s : System) : System → Type 0 where
  produce : {t : System} → Produce n s t → Step n s t
  deliver :
      (fuel : ℕ) {f : Front} {q : SpscVarQueueOpt}
      → s.queue.written_idx < s.queue.read_idx + fuel
      → front n fuel s.queue ≡ some (some f, q)
      → Step n s (record s { queue = pop n q; delivered = s.delivered ++ (record_of q f ∷ []) })
  nothing :
      (fuel : ℕ) {q : SpscVarQueueOpt}
      → s.queue.written_idx < s.queue.read_idx + fuel
      → front n fuel s.queue ≡ some (none, q)
      → Step n s (record s { queue = q })

pub data Reach (n : ℕ) (s : System) : System → Type 0 where
  here : Reach n s s
  later : {t u : System} → Reach n s t → Step n t u → Reach n s u

abbrev pub init : SpscVarQueueOpt → System
init q = record { queue = q; phase = idle; published = []; delivered = [] }
