-- ===== src/RunLog2/Threads/FrontCall.antt =====
-- The steps of the backend in src/run_log2.rs within `Consumer::front` come to what a call of it
-- comes to.
use nanolog_rs.Prelude.{
  ℕ, zero, suc, ◌+◌, ◌≡◌, refl, sym, ap, ◌∙◌, Bool, inl, inr, Bool-cases, Option, none, some, List,
  arith, ◌==◌,
}
use nanolog_rs.Prelude.Int.{ℤ}
use nanolog_rs.Prelude.Outcome.{Outcome, ok, panic, fault, ◌>>=◌}
use nanolog_rs.BytesMut.{MyBytesMut}
use nanolog_rs.VarQueue.{SpscVarQueueOpt, Front, front_loop, front}
use nanolog_rs.ConsoleSink.{Stdout}
use nanolog_rs.RunLog2.Threads.{
  Pc, at_front, scanning, found, at_end, World, Round, again, ended, got, front_round, with_queue,
  scanned, advance_at, advance, advances,
}

-- What the loop of `front` does after a round.
after_round : ℕ → ℕ → ℕ → Round × SpscVarQueueOpt → Option (Option Front × SpscVarQueueOpt)
after_round n fuel last (again r, q) = front_loop n fuel last r q
after_round n fuel last (ended, q) = some (none, q)
after_round n fuel last (got f, q) = some (some f, q)

front_loop-front_round :
    (n fuel last r : ℕ) (q : SpscVarQueueOpt)
    → front_loop n (suc fuel) last r q ≡ after_round n fuel last (front_round n last r q)
unfolding front_loop front_round after_round
front_loop-front_round n fuel last r q = ground arith

-- Where the backend stands when `front` has returned.
unfoldable pub after_front : ℕ → Option Front → Pc
after_front no_data none = at_end no_data
after_front no_data (some f) = found f

module _ (out : Stdout) (tsc2ns : ℕ → ℕ → ℤ)
    (call : ℕ → List ℕ → MyBytesMut → Outcome (Bool × MyBytesMut)) (clock : ℕ → ℕ) (n tid : ℕ) where
  abbrev pub steps : ℕ → World → Outcome World
  steps = advances out tsc2ns call clock n tid

  steps-bind :
      (j k : ℕ)
      → ((w : World) → steps (j + k) w ≡ (do w' ← steps j w; steps k w'))
      → (o : Outcome World)
      → (do w ← o; steps (j + k) w) ≡ (do w' ← (do w ← o; steps j w); steps k w')
  steps-bind j k h (ok w) = h w
  steps-bind j k h panic = refl
  steps-bind j k h fault = refl

  steps-add : (j k : ℕ) (w : World) → steps (j + k) w ≡ (do w' ← steps j w; steps k w')
  unfolding advances
  steps-add zero k w = let e : 0 + k ≡ k = omega arith in ap (λ (i : ℕ). steps i w) e
  steps-add (suc j) k w =
      let e : suc j + k ≡ suc (j + k) = omega arith in
      ap (λ (i : ℕ). steps i w) e
      ∙ steps-bind j k (steps-add j k) (advance out tsc2ns call clock n tid w)

  -- Steps that reach a state, and those from there on.
  pub steps_from :
      (j k : ℕ) (w : World) {w' : World} → steps j w ≡ ok w' → steps (j + k) w ≡ steps k w'
  steps_from j k w e = rw (steps-add j k w, e) refl

  -- The steps to where `front` has returned.
  abbrev pub FrontSteps : Pc → ℕ → SpscVarQueueOpt → World → Option Front → SpscVarQueueOpt → Type 0
  FrontSteps pc no_data q w res q' =
      (j : ℕ) × (steps j (record (with_queue w q) { pc = pc })
        ≡ ok (record (with_queue w q') { pc = after_front no_data res }))

  round-steps :
      (fuel no_data last r : ℕ) (q : SpscVarQueueOpt) (w : World) {res : Option Front}
      {q' : SpscVarQueueOpt} (found : Round × SpscVarQueueOpt)
      → ((r1 : ℕ) (q1 : SpscVarQueueOpt)
          → front_loop n fuel last r1 q1 ≡ some (res, q')
          → FrontSteps (scanning no_data last r1) no_data q1 w res q')
      → front_round n last r q ≡ found
      → after_round n fuel last found ≡ some (res, q')
      → FrontSteps (scanning no_data last r) no_data q w res q'
  unfolding after_round advances advance advance_at scanned after_front
  round-steps fuel no_data last r q w (again r1, q1) rest at h =
      let (j, e) = rest r1 q1 h in (suc j, rw at e)
  round-steps fuel no_data last r q w {res} {q'} (ended, q1) rest at h =
      let none_is : res ≡ none = cc in
      let queue_is : q' ≡ q1 = cc in (1, rw (at, none_is, queue_is) refl)
  round-steps fuel no_data last r q w {res} {q'} (got f, q1) rest at h =
      let some_is : res ≡ some f = cc in
      let queue_is : q' ≡ q1 = cc in (1, rw (at, some_is, queue_is) refl)

  front_loop-steps :
      (fuel no_data last r : ℕ) (q : SpscVarQueueOpt) (w : World) {res : Option Front}
      {q' : SpscVarQueueOpt}
      → front_loop n fuel last r q ≡ some (res, q')
      → FrontSteps (scanning no_data last r) no_data q w res q'
  unfolding front_loop
  front_loop-steps zero no_data last r q w e = absurd (ground (arith, e))
  front_loop-steps (suc fuel) no_data last r q w e =
      round-steps fuel no_data last r q w _ (λ r1 q1. front_loop-steps fuel no_data last r1 q1 w)
        refl (sym (front_loop-front_round n fuel last r q) ∙ e)

  pub front-steps :
      (fuel no_data : ℕ) (w : World) {res : Option Front} {q' : SpscVarQueueOpt}
      → front n fuel w.backend.queue ≡ some (res, q')
      → FrontSteps (at_front no_data) no_data w.backend.queue w res q'
  unfolding front advances advance advance_at after_front
  front-steps fuel no_data w {res} {q'} e =
      let q = w.backend.queue in
      elim (Bool-cases (q.read_idx == q.written_idx)) [
        | inl b ↦
            let none_is : res ≡ none = ground (arith, e, b) in
            let queue_is : q' ≡ q = ground (arith, e, b) in (1, rw (b, none_is, queue_is) refl)
        | inr b ↦
            let (j, steps) =
              front_loop-steps fuel no_data q.written_idx q.read_idx q w (rw b at e) in
            (suc j, rw b steps)
      ]
