-- ===== src/RunLog2/System/Fifo.antt =====
-- In every state that the two threads of src/run_log2.rs reach, the sink has got the records that
-- were published, in their order.
use nanolog_rs.Prelude.{
  append_assoc, ℕ, ◌+◌, ◌<◌, ◌≡◌, refl, sym, ap, ◌∙◌, subst, Option, some, none, List, [], ◌∷◌,
  ◌++◌, append-nil, arith,
}
use nanolog_rs.Prelude.Outcome.{ok}
use nanolog_rs.VarQueue.{SpscVarQueueOpt, Front, new, front}
use nanolog_rs.VarQueue.Layout.{IsSize, Msg, done}
use nanolog_rs.VarQueue.Consume.{Fronts}
use nanolog_rs.RunLog2.{record_of}
use nanolog_rs.RunLog2.System.{System, Step, produce, deliver, nothing, Reach, here, later, init}
use nanolog_rs.RunLog2.System.Inv.{AllMatch, AllMatch-append, Inv}
use nanolog_rs.RunLog2.System.Producer.{Produce-Inv}
use nanolog_rs.RunLog2.System.Consumer.{fronts, deliver-Inv, nothing-Inv, record_of-Matches}

abbrev empty : SpscVarQueueOpt
empty = record { blk = λ _. 0; writing_idx = 0; written_idx = 0; read_idx = 0; read_idx_cache = 0 }

empty_of-new : (n : ℕ) (q : SpscVarQueueOpt) → new n ≡ ok q → q ≡ empty
unfolding new
empty_of-new n q e = ground arith

new-Inv : {n : ℕ} {q : SpscVarQueueOpt} → IsSize n → new n ≡ ok q → Inv n (init q)
new-Inv {n} {q} s e = rw (empty_of-new n q e) (record {
  size = s;
  consumed = [];
  queued = [];
  split = refl;
  got = tt;
  chain = done refl;
  order = omega arith;
  at_phase = refl;
})

-- Every step of either thread keeps the invariant: the ring holds, one behind the other, exactly
-- the records that are published and not delivered, the sink has got the others in order, the
-- indices are at most a round apart, and the room that the producer was granted lies in front of
-- them.
pub Step-Inv : {n : ℕ} {s t : System} → Step n s t → Inv n s → Inv n t
Step-Inv (produce st) inv = Produce-Inv st inv
Step-Inv (deliver fuel h e) inv = deliver-Inv inv inv.queued refl (fronts inv fuel h) e
Step-Inv (nothing fuel h e) inv = (nothing-Inv inv inv.queued refl (fronts inv fuel h) e).1

-- What `front` finds: nothing, when all that was published is delivered, or the record that the sink
-- has to get next.
abbrev pub Found : System → SpscVarQueueOpt → Option Front → Type 0
Found t q none = AllMatch t.delivered t.published
Found t q (some f) =
    (upto rest : List Msg) × (t.published ≡ upto ++ rest)
    × AllMatch (t.delivered ++ (record_of q f ∷ [])) upto

Fronts-Found :
    {n : ℕ} {t : System} (inv : Inv n t) (ms : List Msg)
    {res : Option (Option Front × SpscVarQueueOpt)}
    → inv.queued ≡ ms
    → Fronts n t.queue ms res
    → (found : Option Front) × (q' : SpscVarQueueOpt) × (res ≡ some (found, q')) × Found t q' found
Fronts-Found {t = t} inv [] e f = (
  none,
  _,
  f,
  subst (AllMatch t.delivered)
      (sym (inv.split ∙ ap (λ l. inv.consumed ++ l) e ∙ append-nil inv.consumed)) inv.got,
)
Fronts-Found {t = t} inv (m ∷ ms) e (r, f, ready) = (
  some _,
  _,
  f,
  (
    inv.consumed ++ (m ∷ []),
    ms,
    inv.split ∙ ap (λ l. inv.consumed ++ l) e ∙ sym (append_assoc inv.consumed (m ∷ []) ms),
    AllMatch-append t.delivered inv.consumed _ _ inv.got (record_of-Matches ready, tt),
  ),
)

module _ {n : ℕ} {q : SpscVarQueueOpt} (s : IsSize n) (e : new n ≡ ok q) where
  pub Reach-Inv : {t : System} → Reach n (init q) t → Inv n t
  Reach-Inv here = new-Inv s e
  Reach-Inv (later r st) = Step-Inv st (Reach-Inv r)

  -- From a new ring of a power of two of blocks, at most 2 ^ 30, and by calls of `try_alloc` that
  -- keep the indices below 2 ^ 31, the two threads reach only states in which what the sink has
  -- got is a prefix of what was published, record by record and in order, with the header fields
  -- and the payload bytes that were published.
  pub delivered_in_order :
      {t : System}
      → Reach n (init q) t
      → (consumed queued : List Msg) × (t.published ≡ consumed ++ queued)
        × AllMatch t.delivered consumed
  delivered_in_order r = let inv = Reach-Inv r in (inv.consumed, inv.queued, inv.split, inv.got)

  -- In a state reached from a new ring of a power of two of blocks, at most 2 ^ 30, by calls of
  -- `try_alloc` that keep the indices below 2 ^ 31, `front` on fuel for the blocks between the
  -- indices does not run out of it. If it finds nothing then all that was published has been
  -- delivered, and if it finds a record then this is, after those that the sink has got, the next
  -- one that was published.
  pub front_lossless :
      {t : System} (fuel : ℕ)
      → Reach n (init q) t
      → t.queue.written_idx < t.queue.read_idx + fuel
      → (res : Option Front) × (q' : SpscVarQueueOpt) × (front n fuel t.queue ≡ some (res, q'))
        × Found t q' res
  front_lossless {t} fuel r h =
      let inv = Reach-Inv r in Fronts-Found inv inv.queued refl (fronts inv fuel h)
