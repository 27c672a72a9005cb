-- ===== src/RunLog2.antt =====
-- src/run_log2.rs: `LoggerHandle::publish_args` on the producer's thread, and the loop of `run` on
-- the backend's thread, over the ring of src/spsc_var_queue_opt.rs.
pub mod Fill
pub mod System
pub mod Publish
pub mod Backend
pub mod Threads
use nanolog_rs.Prelude.{
  ℕ, zero, suc, ◌+◌, Bool, true, false, Option, none, some, List, [], ◌∷◌, length,
}
use nanolog_rs.Prelude.Bytes.{le_bytes, write_bytes, read_bytes}
use nanolog_rs.Log.{Level, level_u8}
use nanolog_rs.VarQueue.{
  SpscVarQueueOpt, MsgHeader, Alloc, Front, header_at, try_alloc, commit, front, pop,
}

-- The three header fields and the copy of the arguments, between `try_alloc` and `commit`.
unfoldable pub fill : Alloc → ℕ → ℕ → ℕ → List ℕ → SpscVarQueueOpt → SpscVarQueueOpt
fill a level tsc func args q =
    let m1 = write_bytes q.blk (a.hdr + 4) (le_bytes 4 level) in
    let m2 = write_bytes m1 (a.hdr + 8) (le_bytes 8 tsc) in
    let m3 = write_bytes m2 (a.hdr + 16) (le_bytes 8 func) in
    record q { blk = write_bytes m3 a.payload args }

-- The body of the `if let`: fill the header and copy the arguments, then publish.
unfoldable pub publish_granted :
    Level → ℕ → ℕ → List ℕ → Option Alloc × SpscVarQueueOpt → Bool × SpscVarQueueOpt
publish_granted level func tsc args (some a, q) =
    (true, commit a.hdr a.total_bytes (fill a (level_u8 level) tsc func args q))
publish_granted level func tsc args (none, q) = (false, q)

-- `args` are the bytes of the argument struct, `tsc` what `read_tsc` returns.
unfoldable pub publish_args : ℕ → Level → ℕ → ℕ → List ℕ → SpscVarQueueOpt → Bool × SpscVarQueueOpt
unfolding publish_granted
publish_args blk_cnt level func tsc args q =
    publish_granted level func tsc args (try_alloc blk_cnt (length args) q)

-- What `run` hands to the sink: the header, and a slice of `total` bytes from the payload on.
pub record Record : Type 0 where
  pub log_header : MsgHeader
  pub log_payload : List ℕ

unfoldable pub record_of : SpscVarQueueOpt → Front → Record
record_of q f = record {
  log_header = header_at q.blk f.hdr;
  log_payload = read_bytes q.blk f.payload f.size;
}

-- `while let Some(..) = consumer.front()`, on fuel, with the records in the order in which the
-- sink gets them. The second fuel is that of `front`.
unfoldable pub drain : ℕ → ℕ → ℕ → SpscVarQueueOpt → Option (List Record × SpscVarQueueOpt)
drain blk_cnt fuel zero q = none
drain blk_cnt fuel (suc k) q = elim (front blk_cnt fuel q) [
  | none ↦ none
  | some (none, q') ↦ some ([], q')
  | some (some f, q') ↦ elim (drain blk_cnt fuel k (pop blk_cnt q')) [
    | none ↦ none
    | some (rs, q'') ↦ some (record_of q' f ∷ rs, q'')
  ]
]
