-- ===== src/RunLog2/System/Stable.antt =====
-- What the producer's steps (src/run_log2.rs) leave as it is for the consumer, which may stand
-- anywhere in its own calls meanwhile.
use nanolog_rs.Prelude.{
  ℕ, ◌≤◌, ◌≡◌, refl, sym, ap, ◌∙◌, List, [], ◌∷◌, ◌++◌, append_assoc, append-nil, drop-append, drop,
  length, arith,
}
use nanolog_rs.VarQueue.{SpscVarQueueOpt, Alloc, commit}
use nanolog_rs.VarQueue.Layout.{IsSize-pos, Msg, total, blocks}
use nanolog_rs.VarQueue.Frame.{Agree}
use nanolog_rs.VarQueue.Reserve.{Grants, alloc_spec-Grants, alloc_spec-none, try_alloc_lem}
use nanolog_rs.VarQueue.Consume.{Chain-le}
use nanolog_rs.RunLog2.{Record, fill}
use nanolog_rs.RunLog2.Fill.{fill_msg, fill-Agree, commit-Agree}
use nanolog_rs.RunLog2.System.{
  idle, granted, filled, System, Produce, alloc, refuse, write, publish,
}
use nanolog_rs.RunLog2.System.Inv.{AllMatch, Inv}
use nanolog_rs.RunLog2.System.Producer.{marked-Agree, idle-eq, granted-room, filled-room}

-- The consumer's index, the bytes of the records up to `written_idx`, and what was delivered.
pub record Stable (n : ℕ) (s t : System) : Type 0 where
  pub same_bytes : Agree n s.queue.blk t.queue.blk s.queue.read_idx s.queue.written_idx
  pub same_read : t.queue.read_idx ≡ s.queue.read_idx
  pub same_got : t.delivered ≡ s.delivered
  pub on : s.queue.written_idx ≤ t.queue.written_idx

pub AllMatch-length : (rs : List Record) (ms : List Msg) → AllMatch rs ms → length rs ≡ length ms
AllMatch-length [] [] h = refl
AllMatch-length [] (m ∷ ms) h = absurd h
AllMatch-length (r ∷ rs) [] h = absurd h
AllMatch-length (r ∷ rs) (m ∷ ms) h = rw (AllMatch-length rs ms h.1) refl

-- What is published goes behind what stays in the ring.
pub queued-append :
    {n : ℕ} {s t : System} (more : List Msg) (inv : Inv n s) (inv' : Inv n t)
    → t.delivered ≡ s.delivered
    → t.published ≡ s.published ++ more
    → inv'.queued ≡ inv.queued ++ more
queued-append {s = s} {t} more inv inv' got grown =
    sym (drop-append inv'.consumed inv'.queued)
    ∙ ap (drop (length inv'.consumed)) (sym all)
    ∙ ap (λ (k : ℕ). drop k (inv.consumed ++ (inv.queued ++ more))) same
    ∙ drop-append inv.consumed (inv.queued ++ more)
  where
    all : inv.consumed ++ (inv.queued ++ more) ≡ inv'.consumed ++ inv'.queued
    all =
        sym (append_assoc inv.consumed inv.queued more)
        ∙ ap (λ (t : List Msg). t ++ more) (sym inv.split)
        ∙ sym grown
        ∙ inv'.split

    same : length inv'.consumed ≡ length inv.consumed
    same =
        sym (AllMatch-length t.delivered inv'.consumed inv'.got)
        ∙ ap length got
        ∙ AllMatch-length s.delivered inv.consumed inv.got

module _ {n : ℕ} {s : System} (inv : Inv n s) where
  open inv use {size, order, chain}

  read-le : s.queue.read_idx ≤ s.queue.written_idx
  read-le = Chain-le size chain

  alloc-Stable :
      (m : Msg) {a : Alloc} {q : SpscVarQueueOpt}
      → s.phase ≡ idle
      → Grants n (total m) s.queue a q
      → Stable n s (record s { queue = q; phase = granted a m })
  alloc-Stable m e g = rw g.queue_is (record {
    same_bytes = λ b' j p q' l.
        marked-Agree size s.queue (blocks (total m)) s.queue.read_idx
          (omega (arith, order.known, g.known_is, g.room)) (omega arith) b' j p
          (omega (arith, idle-eq inv e)) l;
    same_read = refl;
    same_got = refl;
    on = omega arith;
  })

  -- The granted blocks are in front of all that the consumer reads.
  write-Stable :
      {a : Alloc} {m : Msg}
      → s.phase ≡ granted a m
      → Stable n s (record s { queue = fill_msg a m s.queue; phase = filled a m })
  unfolding fill
  write-Stable {a} {m} e =
      let g = granted-room inv e in
      let below = Chain-le size g.gap in
      record {
        same_bytes = λ b j p q l.
            fill-Agree s.queue (IsSize-pos size) g.grant
              (omega (arith, g.end, order.window, order.known)) g.fit b j p (omega arith) l;
        same_read = refl;
        same_got = refl;
        on = omega arith;
      }

  publish-Stable :
      {a : Alloc} {m : Msg}
      → s.phase ≡ filled a m
      → Stable n s (record s {
        queue = commit a.hdr a.total_bytes s.queue;
        phase = idle;
        published = s.published ++ (m ∷ []);
      })
  unfolding commit
  publish-Stable {a} {m} e =
      let g = (filled-room inv e).room in
      let below = Chain-le size g.gap in
      record {
        same_bytes = λ b j p q l.
            commit-Agree n s.queue.read_idx g.at a m s.queue.blk (IsSize-pos size) g.grant
              (omega (arith, g.end, order.window, order.known)) g.fit b j p (omega arith) l;
        same_read = refl;
        same_got = refl;
        on = order.behind;
      }

-- A step of the producer changes nothing that the consumer reads.
pub Produce-Stable : {n : ℕ} {s t : System} → Inv n s → Produce n s t → Stable n s t
Produce-Stable {n} {s} inv (alloc m e w l r) = alloc-Stable inv m e (
    alloc_spec-Grants n (total m) s.queue
      (sym (try_alloc_lem inv.size (length m.payload) s.queue l) ∙ r))
Produce-Stable {n} {s} inv (refuse m {q} e l r) =
    rw
      (alloc_spec-none n (total m) s.queue
        (sym (try_alloc_lem inv.size (length m.payload) s.queue l) ∙ r))
      (record {
        same_bytes = λ b j p q l. refl;
        same_read = refl;
        same_got = refl;
        on = omega arith;
      })
Produce-Stable inv (write e) = write-Stable inv e
Produce-Stable inv (publish e) = publish-Stable inv e

-- Nothing that was published is taken back.
pub Produce-append :
    {n : ℕ} {s t : System} → Produce n s t → (more : List Msg) × (t.published ≡ s.published ++ more)
Produce-append {s = s} (alloc m e w l r) = ([], sym (append-nil s.published))
Produce-append {s = s} (refuse m e l r) = ([], sym (append-nil s.published))
Produce-append {s = s} (write e) = ([], sym (append-nil s.published))
Produce-append (publish {m = m} e) = (m ∷ [], refl)
