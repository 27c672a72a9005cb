-- ===== src/RunLog2/System/Producer.antt =====
-- The producer's calls keep the invariant.
use native.Mathlib.Nat.{mod-lt}
use nanolog_rs.Prelude.{
  ℕ, ◌+◌, ◌-◌, ◌%◌, ◌≤◌, ◌<◌, ◌≡◌, refl, sym, ap, subst, ◌∙◌, inl, inr, [], ◌∷◌, ◌++◌, append_assoc,
  arith, length, ltb, Bool-cases,
}
use nanolog_rs.Prelude.Bytes.{
  Mem, le_bytes, of_le_bytes, write_bytes, read_bytes, of_le_bytes-le_bytes, read_bytes-write_bytes,
  length-le_bytes,
}
use nanolog_rs.VarQueue.{SpscVarQueueOpt, Alloc, commit}
use nanolog_rs.VarQueue.Layout.{
  IsSize, IsSize-pos, Msg, total, blocks, Chain, done, rewound, message, Chain-append,
}
use nanolog_rs.VarQueue.Frame.{Agree, Chain-Agree, write-Agree_start}
use nanolog_rs.VarQueue.Reserve.{
  start, start_fit, marked, fresh, InLife, Grants, alloc_spec-Grants, alloc_spec-none,
  try_alloc_lem,
}
use nanolog_rs.VarQueue.Consume.{Chain-le}
use nanolog_rs.RunLog2.{fill}
use nanolog_rs.RunLog2.Fill.{fill_msg, IsWords, fill-Agree, commit-Agree, commit-fill-IsAt}
use nanolog_rs.RunLog2.System.{
  idle, granted, filled, System, Produce, alloc, refuse, write, publish,
}
use nanolog_rs.RunLog2.System.Inv.{PhaseInv, Granted, Filled, Inv}

-- A block of size 0 where it was written.
marker_read :
    (mem : Mem) (a : ℕ) → of_le_bytes (read_bytes (write_bytes mem a (le_bytes 4 0)) a 4) ≡ 0
marker_read mem a =
    ap of_le_bytes (
      ap (λ k. read_bytes (write_bytes mem a (le_bytes 4 0)) a k) (sym (length-le_bytes 4 0))
      ∙ read_bytes-write_bytes mem a (le_bytes 4 0))
    ∙ of_le_bytes-le_bytes 4 0 (omega arith)

module _ {n : ℕ} (s : IsSize n) (q : SpscVarQueueOpt) (b : ℕ) where
  -- The marker leaves the queued records alone.
  pub marked-Agree :
      (r : ℕ)
      → start n q.writing_idx b + b ≤ r + n
      → 0 < b
      → Agree n q.blk (marked n b q) r q.writing_idx
  marked-Agree r h pos = elim (Bool-cases (ltb (n - q.writing_idx % n) b)) [
    | inl e ↦ rw e (
        write-Agree_start n q.blk r q.writing_idx q.writing_idx 1 (le_bytes 4 0) (IsSize-pos s)
          (omega arith) (ground arith) (omega (arith, mod-lt q.writing_idx (IsSize-pos s)))
          (omega (arith, length-le_bytes 4 0)))
    | inr e ↦ rw e (λ b' j p q' l. refl)
  ]

  -- From the old `writing_idx` to the start of the record there is the marker, or nothing.
  marked-gap :
      q.written_idx ≡ q.writing_idx
      → Chain n (marked n b q) (start n q.writing_idx b) q.writing_idx []
  marked-gap e0 = elim (Bool-cases (ltb (n - q.writing_idx % n) b)) [
    | inl e ↦ rw e (rewound (marker_read q.blk _) (omega arith) (done refl))
    | inr e ↦ rw e (done refl)
  ]

module _ {n : ℕ} {s : System} (inv : Inv n s) where
  open inv use {size, consumed, queued, split, got, chain, order, at_phase}

  pub idle-eq : s.phase ≡ idle → s.queue.written_idx ≡ s.queue.writing_idx
  idle-eq e = subst (PhaseInv n s.queue) e at_phase

  -- A grant keeps the invariant.
  pub alloc-Inv :
      (m : Msg) {a : Alloc} {q : SpscVarQueueOpt}
      → s.phase ≡ idle
      → IsWords m
      → InLife n (total m) s.queue
      → Grants n (total m) s.queue a q
      → Inv n (record s { queue = q; phase = granted a m })
  alloc-Inv m {a} {q} e w l g = rw g.queue_is (record {
    size = size;
    consumed = consumed;
    queued = queued;
    split = split;
    got = got;
    chain =
        Chain-Agree (IsSize-pos size)
          (λ b' j p q' l.
            marked-Agree size s.queue b s.queue.read_idx
              (omega (arith, order.known, g.known_is, g.room)) (omega arith) b' j p
              (omega (arith, idle-eq e)) l)
          chain;
    order = record {
      behind = ground (arith, order.behind);
      known = omega (arith, order.known, g.known_is);
      window = g.room;
      life = ground (arith, l.room, mod-lt s.queue.writing_idx (IsSize-pos size));
    };
    at_phase = record {
      at = start n s.queue.writing_idx b;
      words = w;
      grant = record {
        hdr_is = ap (λ (x : Alloc). x.hdr) g.alloc_is;
        payload_is = ap (λ (x : Alloc). x.payload) g.alloc_is;
        total_is = ap (λ (x : Alloc). x.total_bytes) g.alloc_is;
      };
      fit = start_fit size s.queue.writing_idx b b_le;
      end = refl;
      gap = rw (idle-eq e) (marked-gap size s.queue b (idle-eq e));
    };
  })
    where
      b : ℕ
      b = blocks (total m)

      b_le : b ≤ n
      b_le = ground (
        arith,
        order.behind,
        order.known,
        g.room,
        g.known_is,
        Chain-le size chain,
        mod-lt s.queue.writing_idx (IsSize-pos size),
      )

  -- A refusal only reads the consumer's index.
  pub refuse-Inv : s.phase ≡ idle → Inv n (record s { queue = fresh s.queue })
  refuse-Inv e = record {
    size = size;
    consumed = consumed;
    queued = queued;
    split = split;
    got = got;
    chain = chain;
    order = record {
      behind = order.behind;
      known = omega arith;
      window = omega (arith, order.window, order.known);
      life = order.life;
    };
    at_phase = rw e (idle-eq e);
  }

  pub granted-room : {a : Alloc} {m : Msg} → s.phase ≡ granted a m → Granted n s.queue a m
  granted-room e = subst (PhaseInv n s.queue) e at_phase

  pub filled-room : {a : Alloc} {m : Msg} → s.phase ≡ filled a m → Filled n s.queue a m
  filled-room e = subst (PhaseInv n s.queue) e at_phase

  -- The writes to the granted blocks keep the invariant, and put the record there.
  pub write-Inv :
      {a : Alloc} {m : Msg}
      → s.phase ≡ granted a m
      → Inv n (record s { queue = fill_msg a m s.queue; phase = filled a m })
  unfolding fill
  write-Inv {a} {m} e = record {
    size = size;
    consumed = consumed;
    queued = queued;
    split = split;
    got = got;
    chain = Chain-Agree (IsSize-pos size) (λ b j p q l. agree b j p (omega (arith, below)) l) chain;
    order = record {
      behind = order.behind;
      known = order.known;
      window = order.window;
      life = order.life;
    };
    at_phase = record {
      room = record {
        at = g.at;
        words = g.words;
        grant = g.grant;
        fit = g.fit;
        end = g.end;
        gap =
            Chain-Agree (IsSize-pos size) (λ b j p q l. agree b j (omega (arith, above)) q l) g.gap;
      };
      lies = commit-fill-IsAt n g.at a m s.queue g.words g.grant;
    };
  }
    where
      g : Granted n s.queue a m
      g = granted-room e

      below : s.queue.written_idx ≤ g.at
      below = Chain-le size g.gap

      above : s.queue.read_idx ≤ s.queue.written_idx
      above = Chain-le size chain

      agree : Agree n s.queue.blk (fill_msg a m s.queue).blk s.queue.read_idx g.at
      agree =
          fill-Agree s.queue (IsSize-pos size) g.grant
            (omega (arith, g.end, order.window, order.known)) g.fit

  -- `commit` appends the record.
  pub publish-Inv :
      {a : Alloc} {m : Msg}
      → s.phase ≡ filled a m
      → Inv n (record s {
        queue = commit a.hdr a.total_bytes s.queue;
        phase = idle;
        published = s.published ++ (m ∷ []);
      })
  unfolding commit
  publish-Inv {a} {m} e = record {
    size = size;
    consumed = consumed;
    queued = queued ++ (m ∷ []);
    split = ap (λ ms. ms ++ (m ∷ [])) split ∙ append_assoc consumed queued (m ∷ []);
    got = got;
    chain =
        Chain-append (omega (arith, order.behind))
          (Chain-Agree (IsSize-pos size) (λ b j p q l. agree b j p (omega (arith, below)) l) chain)
          (Chain-append (omega (arith, g.end))
            (Chain-Agree (IsSize-pos size) (λ b j p q l. agree b j (omega (arith, above)) q l)
              g.gap)
            (message m f.lies g.fit (omega (arith, g.end)) (done g.end)));
    order = record {
      behind = omega arith;
      known = order.known;
      window = order.window;
      life = order.life;
    };
    at_phase = refl;
  }
    where
      f : Filled n s.queue a m
      f = filled-room e

      g : Granted n s.queue a m
      g = f.room

      below : s.queue.written_idx ≤ g.at
      below = Chain-le size g.gap

      above : s.queue.read_idx ≤ s.queue.written_idx
      above = Chain-le size chain

      agree :
          Agree n s.queue.blk
            (write_bytes s.queue.blk a.hdr (le_bytes 4 a.total_bytes))
            s.queue.read_idx
            g.at
      agree =
          commit-Agree n s.queue.read_idx g.at a m s.queue.blk (IsSize-pos size) g.grant
            (omega (arith, g.end, order.window, order.known)) g.fit

-- Every step of the producer keeps the invariant.
pub Produce-Inv : {n : ℕ} {s t : System} → Produce n s t → Inv n s → Inv n t
Produce-Inv {n} {s} (alloc m e w l r) inv = alloc-Inv inv m e w l (
    alloc_spec-Grants n (total m) s.queue
      (sym (try_alloc_lem inv.size (length m.payload) s.queue l) ∙ r))
Produce-Inv {n} {s} (refuse m {q} e l r) inv =
    rw
      (alloc_spec-none n (total m) s.queue
        (sym (try_alloc_lem inv.size (length m.payload) s.queue l) ∙ r))
      (refuse-Inv inv e)
Produce-Inv (write e) inv = write-Inv inv e
Produce-Inv (publish e) inv = publish-Inv inv e
