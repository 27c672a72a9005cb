-- ===== src/RunLog2/Threads/Loads.antt =====
-- The steps of the backend within `Consumer::front` (src/spsc_var_queue_opt.rs), while the producer
-- may run: each is taken, keeps the invariant and comes closer to the end of the ring.
use nanolog_rs.Prelude.{
  ℕ_discrete, ne→==, ℕ, ◌+◌, ◌-◌, ◌*◌, ◌%◌, ◌^◌, ◌≤◌, ◌<◌, ◌≡◌, ◌≢◌, refl, sym, ap, subst, Bool,
  List, arith,
}
use nanolog_rs.Prelude.Int.{ℤ}
use nanolog_rs.Prelude.Bytes.{of_le_bytes, read_bytes}
use nanolog_rs.Prelude.Outcome.{Outcome, ok}
use nanolog_rs.BytesMut.{MyBytesMut}
use nanolog_rs.VarQueue.{SpscVarQueueOpt, Front}
use nanolog_rs.VarQueue.Layout.{IsSize, block_at_lem, pad_at_lem, Msg, Chain}
use nanolog_rs.VarQueue.Consume.{Chain-le, behind_marker}
use nanolog_rs.ConsoleSink.{Stdout}
use nanolog_rs.RunLog2.System.Consumer.{moved-Inv}
use nanolog_rs.RunLog2.Threads.{
  Pc, at_front, scanning, found, at_end, World, again, ended, got, front_round, with_queue, scanned,
  advance_at,
}
use nanolog_rs.RunLog2.Threads.Inv.{size_at, Reading, in_hand, Inside}
use nanolog_rs.RunLog2.Threads.Onward.{Onward}

module _ {n : ℕ} (s : IsSize n) where
  ended_lem :
      (last r : ℕ) (q : SpscVarQueueOpt)
      → last < 2 ^ 31
      → of_le_bytes (read_bytes q.blk (64 * (r % n)) 4) ≡ 0
      → r + (n - r % n) ≡ last
      → front_round n last r q ≡ (ended, record q { read_idx = r + (n - r % n) })
  unfolding front_round
  ended_lem last r q small z e = ground (arith, block_at_lem r s, pad_at_lem r s)

  again_lem :
      (last r : ℕ) (q : SpscVarQueueOpt)
      → last < 2 ^ 31
      → of_le_bytes (read_bytes q.blk (64 * (r % n)) 4) ≡ 0
      → r + (n - r % n) < last
      → front_round n last r q ≡ (again (r + (n - r % n)), record q { read_idx = r + (n - r % n) })
  unfolding front_round
  again_lem last r q small z lt = ground (arith, block_at_lem r s, pad_at_lem r s)

  got_lem :
      (last r : ℕ) (q : SpscVarQueueOpt)
      → of_le_bytes (read_bytes q.blk (64 * (r % n)) 4) ≢ 0
      → front_round n last r q ≡ (
        got (record {
          hdr = 64 * (r % n);
          payload = 64 * (r % n) + 24;
          size = of_le_bytes (read_bytes q.blk (64 * (r % n)) 4);
        }),
        q,
      )
  unfolding front_round
  got_lem last r q sized = ground (arith, block_at_lem r s)

module _ {n : ℕ} {line_of : ℕ → Msg → List ℕ} (w : World) where
  -- A move within `front`: the index and the place change, and nothing is printed or delivered.
  moved-Inside :
      {pc pc' : Pc} (r : ℕ) (h : Inside n line_of (record w { pc = pc }))
      → in_hand pc ≡ 0
      → in_hand pc' ≡ 0
      → w.backend.queue.read_idx ≤ r
      → Chain n w.backend.queue.blk w.backend.queue.written_idx r h.inv.queued
      → Reading n (record w.backend.queue { read_idx = r }) h.inv.queued pc'
      → Inside n line_of
          (record (with_queue w (record w.backend.queue { read_idx = r })) { pc = pc' })
  moved-Inside r h e e' le c rd = record {
    inv = record {
      size = h.inv.size;
      consumed = h.inv.consumed;
      queued = h.inv.queued;
      split = h.inv.split;
      got = h.inv.got;
      chain = c;
      order = (moved-Inv h.inv r le c).order;
      at_phase = (moved-Inv h.inv r le c).at_phase;
    };
    reading = rd;
    sink = h.sink;
    done = h.done;
    rest = h.rest;
    split = h.split;
    count = omega (arith, h.count);
    sent = h.sent;
  }

module _ (out : Stdout) (tsc2ns : ℕ → ℕ → ℤ)
    (call : ℕ → List ℕ → MyBytesMut → Outcome (Bool × MyBytesMut)) (clock : ℕ → ℕ) (n tid : ℕ)
    (line_of : ℕ → Msg → List ℕ) where
  -- The step from `pc` is taken and keeps the invariant.
  abbrev pub Moves : Pc → World → Type 0
  Moves pc w =
      (w' : World) × (advance_at out tsc2ns call clock n tid pc w ≡ ok w')
      × Onward n line_of (record w { pc = pc }) w'

  pub at_front-Moves :
      (no_data : ℕ) (w : World)
      → Inside n line_of (record w { pc = at_front no_data })
      → Moves (at_front no_data) w
  unfolding advance_at
  at_front-Moves no_data w h =
      let q = w.backend.queue in
      let le = Chain-le h.inv.size h.inv.chain in
      elim (ℕ_discrete q.read_idx q.written_idx) [
        | yes e ↦ (
          record w { pc = at_end no_data },
          ground (arith, e),
          record {
            inside = moved-Inside w q.read_idx h refl refl (omega arith) h.inv.chain tt;
            same = refl;
            producer = (refl, refl);
            closer = λ ne. absurd (ne e);
          },
        )
        | no ne ↦ (
          record w { pc = scanning no_data q.written_idx q.read_idx },
          rw (ne→== _ _ ne) refl,
          record {
            inside = moved-Inside w q.read_idx h refl refl (omega arith) h.inv.chain (record {
              at = refl;
              ahead = ne;
              known = omega arith;
              before = h.inv.queued;
              upto = h.inv.chain;
            });
            same = refl;
            producer = (refl, refl);
            closer = λ _. omega arith;
          },
        )
      ]

  -- At a rewind marker: the loop ends, or goes on at the ring's start.
  rewound-Moves :
      (no_data last r : ℕ) (w : World)
      (h : Inside n line_of (record w { pc = scanning no_data last r }))
      → size_at n w.backend.queue ≡ 0
      → Moves (scanning no_data last r) w
  unfolding advance_at scanned
  rewound-Moves no_data last r w h z =
      let q = w.backend.queue in
      let seen = h.reading in
      let at_r =
        subst (λ (i : ℕ). of_le_bytes (read_bytes q.blk (64 * (i % n)) 4) ≡ 0) (sym seen.at) z in
      let (le, upto) = behind_marker seen.ahead at_r seen.upto in
      let small : last < 2 ^ 31 = omega (arith, seen.known, h.inv.order.behind, h.inv.order.life) in
      let ne : q.read_idx ≢ q.written_idx = omega (arith, seen.at, seen.known) in
      let all = (behind_marker ne z h.inv.chain).1 in
      elim (ℕ_discrete (r + (n - r % n)) last) [
        | yes e ↦ (
          record (with_queue w (record q { read_idx = r + (n - r % n) })) { pc = at_end no_data },
          ap (λ found. ok (scanned no_data last found w))
              (ended_lem h.inv.size last r q small at_r e),
          record {
            inside =
                moved-Inside w (r + (n - r % n)) h refl refl (omega (arith, seen.at))
                  (rw seen.at all) tt;
            same = refl;
            producer = (refl, refl);
            closer = λ _. omega (arith, seen.at, le, seen.known);
          },
        )
        | no more ↦ (
          record (with_queue w (record q { read_idx = r + (n - r % n) })) {
            pc = scanning no_data last (r + (n - r % n));
          },
          ap (λ found. ok (scanned no_data last found w))
              (again_lem h.inv.size last r q small at_r (omega arith)),
          record {
            inside =
                moved-Inside w (r + (n - r % n)) h refl refl (omega (arith, seen.at))
                  (rw seen.at all)
                  (record {
                    at = refl;
                    ahead = more;
                    known = seen.known;
                    before = seen.before;
                    upto = upto;
                  });
            same = refl;
            producer = (refl, refl);
            closer = λ _. omega (arith, seen.at, le, seen.known);
          },
        )
      ]

  pub scanning-Moves :
      (no_data last r : ℕ) (w : World)
      → Inside n line_of (record w { pc = scanning no_data last r })
      → Moves (scanning no_data last r) w
  unfolding advance_at scanned
  scanning-Moves no_data last r w h = elim (ℕ_discrete (size_at n w.backend.queue) 0) [
    | yes z ↦ rewound-Moves no_data last r w h z
    | no sized ↦
        let q = w.backend.queue in
        let seen = h.reading in
        let f : Front = record {
          hdr = 64 * (q.read_idx % n);
          payload = 64 * (q.read_idx % n) + 24;
          size = size_at n q;
        } in
        (
          record w { pc = found f },
          rw seen.at (
              ap (λ found. ok (scanned no_data last found w))
                (got_lem h.inv.size last q.read_idx q sized)),
          record {
            inside = moved-Inside w q.read_idx h refl refl (omega arith) h.inv.chain (record {
              record_there = record {
                more =
                    omega (arith, seen.at, seen.ahead, seen.known, Chain-le h.inv.size seen.upto);
                sized = sized;
              };
              front_is = refl;
            });
            same = refl;
            producer = (refl, refl);
            closer = λ _. omega arith;
          },
        )
  ]
