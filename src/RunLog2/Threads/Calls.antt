-- ===== src/RunLog2/Threads/Calls.antt =====
-- The steps of the backend in src/run_log2.rs come to what its calls come to: `Consumer::front`, the
-- inner loop and a turn of `run`.
use nanolog_rs.Prelude.{
  ℕ, zero, suc, ◌+◌, ◌≡◌, refl, sym, ◌∙◌, Bool, Option, none, some, List, [], ◌∷◌, ◌++◌, arith,
}
use nanolog_rs.Prelude.Int.{ℤ}
use nanolog_rs.Prelude.Outcome.{Outcome, ok, panic, fault, ◌>>=◌}
use nanolog_rs.BytesMut.{MyBytesMut}
use nanolog_rs.VarQueue.{SpscVarQueueOpt, Front, front, pop}
use nanolog_rs.ConsoleSink.{Stdout}
use nanolog_rs.RunLog2.{Record, record_of}
use nanolog_rs.RunLog2.Backend.{Backend, deliver, inner_loop, end_turn, turn}
use nanolog_rs.RunLog2.Threads.{
  Pc, at_front, found, at_end, World, with_queue, advance_at, advance, advances,
}
use nanolog_rs.RunLog2.Threads.FrontCall.{after_front, steps_from, front-steps}

module _ (out : Stdout) (tsc2ns : ℕ → ℕ → ℤ)
    (call : ℕ → List ℕ → MyBytesMut → Outcome (Bool × MyBytesMut)) (clock : ℕ → ℕ) (n tid : ℕ) where
  -- The steps to where the inner loop has ended.
  abbrev as_ended : World → List Record → Outcome (ℕ × Backend) → Outcome World
  as_ended w delivered res = do
    (no_data, b) ← res
    ok (record w { backend = b; delivered = delivered; pc = at_end no_data })

  abbrev LoopSteps : Pc → World → Outcome (ℕ × Backend) → Type 0
  LoopSteps pc w res =
      (j : ℕ) × (delivered : List Record) × (advances out tsc2ns call clock n tid j
          (record w { pc = pc })
        ≡ as_ended w delivered res)

  -- What the inner loop does with what the call of the sink returns.
  after_deliver : ℕ → ℕ → Outcome Backend → Option (Outcome (ℕ × Backend))
  after_deliver fuel k (ok b) =
      inner_loop out tsc2ns call clock n tid fuel k 0 (record b { queue = pop n b.queue })
  after_deliver fuel k panic = some panic
  after_deliver fuel k fault = some fault

  inner_loop-found :
      (fuel k no_data : ℕ) (s : Backend) (f : Front) (q : SpscVarQueueOpt)
      → front n fuel s.queue ≡ some (some f, q)
      → inner_loop out tsc2ns call clock n tid fuel (suc k) no_data s
        ≡ after_deliver fuel k
            (deliver out tsc2ns call clock n tid (record_of q f) (record s { queue = q }))
  unfolding inner_loop after_deliver
  inner_loop-found fuel k no_data s f q e = rw (inner_loop, e) (ground arith)

  deliver-steps :
      (fuel k no_data : ℕ) (f : Front) (w : World) {res : Outcome (ℕ × Backend)}
      (o : Outcome Backend)
      → ((w' : World)
          → inner_loop out tsc2ns call clock n tid fuel k 0 w'.backend ≡ some res
          → LoopSteps (at_front 0) w' res)
      → deliver out tsc2ns call clock n tid (record_of w.backend.queue f) w.backend ≡ o
      → after_deliver fuel k o ≡ some res
      → LoopSteps (found f) w res
  unfolding after_deliver advances advance advance_at
  deliver-steps fuel k no_data f w (ok b) rest at e =
      let (j, delivered, go) =
        rest
          (record (with_queue (record w { backend = b }) (pop n b.queue)) {
            delivered = w.delivered ++ (record_of w.backend.queue f ∷ []);
          })
          e in
      (suc (suc j), delivered, rw at go)
  deliver-steps fuel k no_data f w {res} panic rest at e =
      let panic_is : res ≡ panic = cc in (1, [], rw (at, panic_is) refl)
  deliver-steps fuel k no_data f w {res} fault rest at e =
      let fault_is : res ≡ fault = cc in (1, [], rw (at, fault_is) refl)

  -- The inner loop goes on with what `front` has found.
  found-steps :
      (fuel k no_data : ℕ) (w : World) {res : Outcome (ℕ × Backend)}
      (found : Option (Option Front × SpscVarQueueOpt))
      → ((w' : World)
          → inner_loop out tsc2ns call clock n tid fuel k 0 w'.backend ≡ some res
          → LoopSteps (at_front 0) w' res)
      → front n fuel w.backend.queue ≡ found
      → inner_loop out tsc2ns call clock n tid fuel (suc k) no_data w.backend ≡ some res
      → LoopSteps (at_front no_data) w res
  unfolding inner_loop after_front
  found-steps fuel k no_data w none rest at e =
      let none_is = rw (inner_loop, at) at e in absurd (ground (arith, none_is))
  found-steps fuel k no_data w {res} (some (none, q)) rest at e =
      let (j, go) = front-steps out tsc2ns call clock n tid fuel no_data w at in
      let res_is : res ≡ ok (no_data, record w.backend { queue = q }) =
        (let e' = rw (inner_loop, at) at e in cc) in
      (j, w.delivered, go ∙ rw res_is refl)
  found-steps fuel k no_data w (some (some f, q)) rest at e =
      let (i, there) = front-steps out tsc2ns call clock n tid fuel no_data w at in
      let (j, delivered, go) =
        deliver-steps fuel k no_data f (with_queue w q) _ rest refl
          (sym (inner_loop-found fuel k no_data w.backend f q at) ∙ e) in
      (i + j, delivered, steps_from out tsc2ns call clock n tid i j _ there ∙ go)

  inner_loop-steps :
      (fuel k no_data : ℕ) (w : World) {res : Outcome (ℕ × Backend)}
      → inner_loop out tsc2ns call clock n tid fuel k no_data w.backend ≡ some res
      → LoopSteps (at_front no_data) w res
  unfolding inner_loop
  inner_loop-steps fuel zero no_data w e = absurd (ground (arith, e))
  inner_loop-steps fuel (suc k) no_data w e =
      found-steps fuel k no_data w _ (λ w'. inner_loop-steps fuel k 0 w') refl e

  last-step :
      (next : Backend → World) (o : Outcome Backend)
      → (do w ← (do b ← o; ok (next b)); advances out tsc2ns call clock n tid 0 w)
        ≡ (do b ← o; ok (next b))
  unfolding advances
  last-step next (ok b) = refl
  last-step next panic = refl
  last-step next fault = refl

  -- The steps to where the turn has ended.
  abbrev TurnSteps : World → Outcome Backend → Type 0
  TurnSteps w res =
      (j : ℕ) × (delivered : List Record) × (advances out tsc2ns call clock n tid j
          (record w { pc = at_front 1 })
        ≡ (do b ← res; ok (record w { backend = b; delivered = delivered; pc = at_front 1 })))

  turned-steps :
      (fuel k : ℕ) (w : World) {res : Outcome Backend} (found : Option (Outcome (ℕ × Backend)))
      → inner_loop out tsc2ns call clock n tid fuel k 1 w.backend ≡ found
      → turn out tsc2ns call clock n tid fuel k w.backend ≡ some res
      → TurnSteps w res
  unfolding turn advances advance advance_at
  turned-steps fuel k w none at e =
      let none_is = rw (turn, at) at e in absurd (ground (arith, none_is))
  turned-steps fuel k w {res} (some (ok (no_data, b))) at e =
      let (j, delivered, go) = inner_loop-steps fuel k 1 w at in
      let res_is : res ≡ end_turn out tsc2ns call clock n tid (no_data, b) =
        (let e' = rw (turn, at) at e in cc) in
      (
        j + 1,
        delivered,
        steps_from out tsc2ns call clock n tid j 1 _ go
            ∙ rw res_is (last-step _ (end_turn out tsc2ns call clock n tid (no_data, b))),
      )
  turned-steps fuel k w {res} (some panic) at e =
      let (j, delivered, go) = inner_loop-steps fuel k 1 w at in
      let res_is : res ≡ panic = (let e' = rw (turn, at) at e in cc) in
      (j, delivered, go ∙ rw res_is refl)
  turned-steps fuel k w {res} (some fault) at e =
      let (j, delivered, go) = inner_loop-steps fuel k 1 w at in
      let res_is : res ≡ fault = (let e' = rw (turn, at) at e in cc) in
      (j, delivered, go ∙ rw res_is refl)

  -- Where a turn of the backend without the producer ends on its fuel, the steps of the backend
  -- alone, some number of them from the start of a turn on, come to the start of the next one with
  -- the same ring, sink, standard output and variables, and they panic, or go out of bounds, where
  -- the turn does.
  pub turn-advances :
      (fuel k : ℕ) (w : World) {res : Outcome Backend}
      → turn out tsc2ns call clock n tid fuel k w.backend ≡ some res
      → (j : ℕ) × (delivered : List Record) × (advances out tsc2ns call clock n tid j
            (record w { pc = at_front 1 })
          ≡ (do b ← res; ok (record w { backend = b; delivered = delivered; pc = at_front 1 })))
  turn-advances fuel k w e = turned-steps fuel k w _ refl e
