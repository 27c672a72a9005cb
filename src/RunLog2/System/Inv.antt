-- ===== src/RunLog2/System/Inv.antt =====
-- What holds between the calls of the two threads of src/run_log2.rs.
use nanolog_rs.Prelude.{ℕ, ◌+◌, ◌*◌, ◌%◌, ◌^◌, ◌≤◌, ◌<◌, ◌≡◌, List, [], ◌∷◌, ◌++◌, length, take}
use nanolog_rs.Prelude.Bytes.{le_bytes, write_bytes}
use nanolog_rs.VarQueue.{SpscVarQueueOpt, Alloc}
use nanolog_rs.VarQueue.Layout.{IsSize, Msg, total, blocks, header, IsAt, Chain}
use nanolog_rs.RunLog2.{Record}
use nanolog_rs.RunLog2.Fill.{IsWords, IsGrant}
use nanolog_rs.RunLog2.System.{Phase, idle, granted, filled, System}

-- The sink gets the header and the payload of the record; the slice is as long as both.
pub record Matches (r : Record) (m : Msg) : Type 0 where
  pub header_is : r.log_header ≡ header m
  pub payload_is : take (length m.payload) r.log_payload ≡ m.payload
  pub length_is : length r.log_payload ≡ total m

abbrev pub AllMatch : List Record → List Msg → Type 0
AllMatch [] [] = Unit
AllMatch [] (m ∷ ms) = ⊥
AllMatch (r ∷ rs) [] = ⊥
AllMatch (r ∷ rs) (m ∷ ms) = Matches r m × AllMatch rs ms

pub AllMatch-append :
    (rs : List Record) (ms : List Msg) (rs' : List Record) (ms' : List Msg)
    → AllMatch rs ms
    → AllMatch rs' ms'
    → AllMatch (rs ++ rs') (ms ++ ms')
AllMatch-append [] [] rs' ms' h k = k
AllMatch-append [] (m ∷ ms) rs' ms' h k = absurd h
AllMatch-append (r ∷ rs) [] rs' ms' h k = absurd h
AllMatch-append (r ∷ rs) (m ∷ ms) rs' ms' h k = (h.0, AllMatch-append rs ms rs' ms' h.1 k)

-- The producer holds room for `m` at block `at`, in front of `writing_idx`.
pub record Granted (n : ℕ) (q : SpscVarQueueOpt) (a : Alloc) (m : Msg) : Type 0 where
  pub at : ℕ
  pub words : IsWords m
  pub grant : IsGrant n at a m
  pub fit : at % n + blocks (total m) ≤ n
  pub end : at + blocks (total m) ≡ q.writing_idx
  pub gap : Chain n q.blk at q.written_idx []

pub record Filled (n : ℕ) (q : SpscVarQueueOpt) (a : Alloc) (m : Msg) : Type 0 where
  pub room : Granted n q a m
  pub lies : IsAt (write_bytes q.blk a.hdr (le_bytes 4 a.total_bytes)) (64 * (room.at % n)) m

abbrev pub PhaseInv : ℕ → SpscVarQueueOpt → Phase → Type 0
PhaseInv n q idle = q.written_idx ≡ q.writing_idx
PhaseInv n q (granted a m) = Granted n q a m
PhaseInv n q (filled a m) = Filled n q a m

-- The indices are in order, less than a round apart, and below 2 ^ 31.
pub record InOrder (n : ℕ) (q : SpscVarQueueOpt) : Type 0 where
  pub behind : q.written_idx ≤ q.writing_idx
  pub known : q.read_idx_cache ≤ q.read_idx
  pub window : q.writing_idx ≤ q.read_idx_cache + n
  pub life : q.writing_idx < 2 ^ 31

-- The ring holds the records that are published and not delivered.
pub record Inv (n : ℕ) (s : System) : Type 0 where
  pub size : IsSize n
  pub consumed : List Msg
  pub queued : List Msg
  pub split : s.published ≡ consumed ++ queued
  pub got : AllMatch s.delivered consumed
  pub chain : Chain n s.queue.blk s.queue.written_idx s.queue.read_idx queued
  pub order : InOrder n s.queue
  pub at_phase : PhaseInv n s.queue s.phase
