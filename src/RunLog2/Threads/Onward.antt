-- ===== src/RunLog2/Threads/Onward.antt =====
-- How far the backend of src/run_log2.rs is from having read all that is published, and what a step of
-- it comes to.
use nanolog_rs.Prelude.{
  ℕ, ◌+◌, ◌-◌, ◌*◌, ◌≤◌, ◌<◌, ◌≡◌, ◌≢◌, sym, ◌∙◌, List, parts_of-append, arith,
}
use nanolog_rs.VarQueue.{SpscVarQueueOpt}
use nanolog_rs.VarQueue.Layout.{Msg}
use nanolog_rs.RunLog2.System.Stable.{AllMatch-length}
use nanolog_rs.RunLog2.Threads.{Pc, at_front, scanning, found, printed, at_end, World}
use nanolog_rs.RunLog2.Threads.Inv.{in_hand, Inside}

-- How far the backend is from having read all that is published.
abbrev rank : Pc → ℕ
rank (at_front no_data) = 3
rank (scanning no_data w r) = 2
rank (found f) = 1
rank (printed rec) = 0
rank (at_end no_data) = 4

pub rank_le : (pc : Pc) → rank pc ≤ 4
rank_le (at_front no_data) = omega arith
rank_le (scanning no_data w r) = omega arith
rank_le (found f) = omega arith
rank_le (printed rec) = omega arith
rank_le (at_end no_data) = omega arith

abbrev pub distance : SpscVarQueueOpt → Pc → ℕ
distance q pc = 5 * (q.written_idx - q.read_idx) + rank pc

-- The state `w'` is as it should be, and closer to the end than the queue and the place before.
pub record Onward (n : ℕ) (line_of : ℕ → Msg → List ℕ) (w w' : World) : Type 0 where
  pub inside : Inside n line_of w'
  pub same : w'.published ≡ w.published
  pub producer : (w'.phase ≡ w.phase) × (w'.backend.queue.writing_idx ≡ w.backend.queue.writing_idx)
  pub closer :
      w.backend.queue.read_idx ≢ w.backend.queue.written_idx
      → distance w'.backend.queue w'.pc < distance w.backend.queue w.pc

module _ {n : ℕ} {line_of : ℕ → Msg → List ℕ} {w : World} (h : Inside n line_of w) where
  -- The records that are printed are those that are delivered, with the one in hand.
  pub printed_is : in_hand w.pc ≡ 0 → (h.done ≡ h.inv.consumed) × (h.rest ≡ h.inv.queued)
  printed_is none_in_hand =
      parts_of-append h.done h.inv.consumed h.rest h.inv.queued (sym h.split ∙ h.inv.split) (
        h.count ∙ omega (arith, none_in_hand, AllMatch-length w.delivered h.inv.consumed h.inv.got))
