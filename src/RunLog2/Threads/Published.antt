-- ===== src/RunLog2/Threads/Published.antt =====
-- The steps of the backend in src/run_log2.rs publish nothing.
use nanolog_rs.Prelude.{ℕ, ◌≡◌, refl, sym, ap, ◌∙◌, Bool, List, arith}
use nanolog_rs.Prelude.Int.{ℤ}
use nanolog_rs.Prelude.Outcome.{Outcome, ok, panic, fault, ◌>>=◌}
use nanolog_rs.BytesMut.{MyBytesMut}
use nanolog_rs.VarQueue.{SpscVarQueueOpt}
use nanolog_rs.VarQueue.Layout.{Msg}
use nanolog_rs.ConsoleSink.{Stdout}
use nanolog_rs.RunLog2.Backend.{Backend}
use nanolog_rs.RunLog2.Threads.{
  Pc, at_front, scanning, found, printed, at_end, World, Round, again, ended, got, front_round,
  scanned, advance_at, advance,
}

published_of : Outcome World → List Msg → List Msg
published_of (ok w) ms = w.published
published_of panic ms = ms
published_of fault ms = ms

module _ (w : World) where
  scanned_keeps :
      (no_data last : ℕ) (res : Round × SpscVarQueueOpt)
      → (scanned no_data last res w).published ≡ w.published
  unfolding scanned
  scanned_keeps no_data last (again r, q) = refl
  scanned_keeps no_data last (ended, q) = refl
  scanned_keeps no_data last (got f, q) = refl

  bind_keeps :
      (next : Backend → World) (res : Outcome Backend)
      → ((b : Backend) → (next b).published ≡ w.published)
      → published_of (do b ← res; ok (next b)) w.published ≡ w.published
  unfolding published_of
  bind_keeps next (ok b) h = h b
  bind_keeps next panic h = refl
  bind_keeps next fault h = refl

module _ (out : Stdout) (tsc2ns : ℕ → ℕ → ℤ)
    (call : ℕ → List ℕ → MyBytesMut → Outcome (Bool × MyBytesMut)) (clock : ℕ → ℕ) (n tid : ℕ) where
  at_keeps :
      (pc : Pc) (w : World)
      → published_of (advance_at out tsc2ns call clock n tid pc w) w.published ≡ w.published
  unfolding advance_at published_of
  at_keeps (at_front no_data) w = ground arith
  at_keeps (scanning no_data last r) w =
      scanned_keeps w no_data last (front_round n last r w.backend.queue)
  at_keeps (found f) w = bind_keeps w _ _ (λ b. refl)
  at_keeps (printed rec) w = refl
  at_keeps (at_end no_data) w = bind_keeps w _ _ (λ b. refl)

  pub advance_keeps :
      (w w' : World) → advance out tsc2ns call clock n tid w ≡ ok w' → w'.published ≡ w.published
  unfolding advance published_of
  advance_keeps w w' e = ap (λ res. published_of res w.published) (sym e) ∙ at_keeps w.pc w
