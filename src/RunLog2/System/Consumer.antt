-- ===== src/RunLog2/System/Consumer.antt =====
-- The consumer's calls keep the invariant.
use nanolog_rs.Prelude.{
  ℕ, ◌+◌, ◌*◌, ◌%◌, ◌≤◌, ◌<◌, ◌≡◌, refl, sym, ap, ◌∙◌, Option, some, none, List, [], ◌∷◌, ◌++◌,
  append_assoc, arith, length,
}
use nanolog_rs.Prelude.Bytes.{length-read_bytes, take-read_bytes}
use nanolog_rs.VarQueue.{SpscVarQueueOpt, Front, front, pop}
use nanolog_rs.VarQueue.Layout.{Msg, Chain, total, blocks, done}
use nanolog_rs.VarQueue.Consume.{Fronts, Ready, front_of, front_lem, pop_lem, Chain-le}
use nanolog_rs.RunLog2.{Record, record_of}
use nanolog_rs.RunLog2.System.{Phase, idle, granted, filled, System}
use nanolog_rs.RunLog2.System.Inv.{Matches, AllMatch-append, InOrder, PhaseInv, Inv}

-- The invariant of the phase does not speak of `read_idx`.
PhaseInv-read :
    (n : ℕ) (q : SpscVarQueueOpt) (r : ℕ) (p : Phase)
    → PhaseInv n q p
    → PhaseInv n (record q { read_idx = r }) p
PhaseInv-read n q r idle h = h
PhaseInv-read n q r (granted a m) h = record {
  at = h.at;
  words = h.words;
  grant = h.grant;
  fit = h.fit;
  end = h.end;
  gap = h.gap;
}
PhaseInv-read n q r (filled a m) h = record {
  room = record {
    at = h.room.at;
    words = h.room.words;
    grant = h.room.grant;
    fit = h.room.fit;
    end = h.room.end;
    gap = h.room.gap;
  };
  lies = h.lies;
}

-- The record that the sink gets is the one that was published.
pub record_of-Matches :
    {n : ℕ} {q : SpscVarQueueOpt} {r : ℕ} {m : Msg} {ms : List Msg}
    → Ready n q r m ms
    → Matches (record_of (record q { read_idx = r }) (front_of n r m)) m
unfolding record_of
record_of-Matches {n} {q} {r} {m} ready = record {
  header_is = ready.at.head;
  payload_is =
      take-read_bytes q.blk (64 * (r % n) + 24) (length m.payload) (total m) (omega arith)
      ∙ ready.at.body;
  length_is = length-read_bytes q.blk (64 * (r % n) + 24) (total m);
}

module _ {n : ℕ} {s : System} (inv : Inv n s) where
  open inv use {size, consumed, queued, split, got, chain, order, at_phase}

  -- What the indices of the queue say once `read_idx` has gone on to `r`.
  order-read : (r : ℕ) → s.queue.read_idx ≤ r → InOrder n (record s.queue { read_idx = r })
  order-read r h = record {
    behind = order.behind;
    known = omega (arith, order.known);
    window = order.window;
    life = order.life;
  }

  pub fronts :
      (fuel : ℕ)
      → s.queue.written_idx < s.queue.read_idx + fuel
      → Fronts n s.queue queued (front n fuel s.queue)
  fronts fuel h = front_lem size fuel s.queue (omega (arith, order.behind, order.life)) h chain

  -- `read_idx` goes on over a marker, or to the end.
  pub moved-Inv :
      (r : ℕ)
      → s.queue.read_idx ≤ r
      → Chain n s.queue.blk s.queue.written_idx r queued
      → Inv n (record s { queue = record s.queue { read_idx = r } })
  moved-Inv r le c = record {
    size = size;
    consumed = consumed;
    queued = queued;
    split = split;
    got = got;
    chain = c;
    order = order-read r le;
    at_phase = PhaseInv-read n s.queue r s.phase at_phase;
  }

  -- The sink has got the first record, and `read_idx` goes on behind it.
  pub consumed-Inv :
      {r : ℕ} {m : Msg} {ms : List Msg} (rec : Record)
      → queued ≡ m ∷ ms
      → Ready n s.queue r m ms
      → Matches rec m
      → Inv n (record s {
        queue = record s.queue { read_idx = r + blocks (total m) };
        delivered = s.delivered ++ (rec ∷ []);
      })
  consumed-Inv {r} {m} {ms} rec eq ready h = record {
    size = size;
    consumed = consumed ++ (m ∷ []);
    queued = ms;
    split = split ∙ ap (λ l. consumed ++ l) eq ∙ sym (append_assoc consumed (m ∷ []) ms);
    got = AllMatch-append s.delivered consumed _ _ got (h, tt);
    chain = ready.rest;
    order = order-read (r + blocks (total m)) (omega (arith, ready.after));
    at_phase = PhaseInv-read n s.queue (r + blocks (total m)) s.phase at_phase;
  }

  pub deliver-Inv :
      (ms : List Msg) {f : Front} {q : SpscVarQueueOpt}
      {res : Option (Option Front × SpscVarQueueOpt)}
      → queued ≡ ms
      → Fronts n s.queue ms res
      → res ≡ some (some f, q)
      → Inv n (record s { queue = pop n q; delivered = s.delivered ++ (record_of q f ∷ []) })
  deliver-Inv [] eq fr e = cc
  deliver-Inv (m ∷ ms) {f} {q} eq (r, res_is, ready) e =
      rw (f_is, q_is, pop_lem size s.queue r m ms (omega (arith, order.behind, order.life)) ready)
        (consumed-Inv _ eq ready (record_of-Matches ready))
    where
      q_is : q ≡ record s.queue { read_idx = r }
      q_is = cc

      f_is : f ≡ front_of n r m
      f_is = cc

  pub nothing-Inv :
      (ms : List Msg) {q : SpscVarQueueOpt} {res : Option (Option Front × SpscVarQueueOpt)}
      → queued ≡ ms
      → Fronts n s.queue ms res
      → res ≡ some (none, q)
      → (queued ≡ []) × Inv n (record s { queue = q })
  nothing-Inv (m ∷ ms) eq (r, res_is, ready) e = cc
  nothing-Inv [] {q} eq fr e =
      (eq, rw q_is (moved-Inv s.queue.written_idx (Chain-le size chain) (rw eq (done refl))))
    where
      q_is : q ≡ record s.queue { read_idx = s.queue.written_idx }
      q_is = cc
