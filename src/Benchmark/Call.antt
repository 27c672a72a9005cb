-- ===== src/Benchmark/Call.antt =====
-- One call of `hft_info!` in the benchmark of src/main.rs, over the ring and the backend.
use native.Mathlib.Nat.{mod-lt}
use nanolog_rs.Prelude.{
  ℕ, suc, ◌+◌, ◌^◌, ◌≤◌, ◌<◌, ◌≡◌, refl, sym, subst, ◌∙◌, Bool, true, false, Option, none, some,
  List, [], ◌∷◌, ◌++◌, length, length-append, arith, if◌then◌else◌,
}
use nanolog_rs.Prelude.Int.{ℤ}
use nanolog_rs.Prelude.Bytes.{le_bytes}
use nanolog_rs.Prelude.Outcome.{Outcome}
use nanolog_rs.BytesMut.{MyBytesMut}
use nanolog_rs.Args2.{args2, arg_bytes}
use nanolog_rs.Log.{info, level_u8}
use nanolog_rs.VarQueue.{SpscVarQueueOpt, Alloc, try_alloc, commit}
use nanolog_rs.VarQueue.Layout.{IsSize-pos, Msg, total}
use nanolog_rs.VarQueue.Reserve.{InLife, alloc_spec-Grants, alloc_spec-none, try_alloc_lem}
use nanolog_rs.VarQueue.Consume.{Chain-le}
use nanolog_rs.RunLog2.{fill, publish_args, publish_granted}
use nanolog_rs.RunLog2.Fill.{IsWords}
use nanolog_rs.RunLog2.System.{idle, alloc, refuse, write, publish}
use nanolog_rs.RunLog2.Backend.Lines.{IsPrinted}
use nanolog_rs.RunLog2.Threads.{World, with_queue}
use nanolog_rs.RunLog2.Threads.Inv.{Inside, Produce-Inside}
use nanolog_rs.RunLog2.Threads.Printed.{AllPrinted, AllPrinted-append}
use nanolog_rs.Emit.{emit2}
use nanolog_rs.Benchmark.{record_for, after_call, log_call}

length-record_for : (func tsc id : ℕ) → length (record_for func tsc id).payload ≡ 24
unfolding args2 arg_bytes le_bytes
length-record_for func tsc id = refl

-- The producer is at rest, and at most `i` blocks have been reserved.
pub record Calm (n : ℕ) (line_of : ℕ → Msg → List ℕ) (i : ℕ) (w : World) : Type 0 where
  pub inside : Inside n line_of w
  pub at_rest : w.phase ≡ idle
  pub early : w.backend.queue.writing_idx ≤ i

module _ {n : ℕ} {line_of : ℕ → Msg → List ℕ} {i : ℕ} {w : World} (func tsc id : ℕ)
    (calm : Calm n line_of i w) (soon : i < 2 ^ 20) where
  abbrev q : SpscVarQueueOpt
  q = w.backend.queue

  abbrev m : Msg
  m = record_for func tsc id

  in_life : InLife n (total m) q
  in_life =
      let inv = calm.inside.inv in
      let few = inv.size.small in
      record {
        short = omega (arith, length-record_for func tsc id);
        read_small = omega (arith, calm.early, Chain-le inv.size inv.chain, inv.order.behind);
        cache_small =
            omega
              (arith, calm.early, Chain-le inv.size inv.chain, inv.order.behind, inv.order.known);
        room = omega (arith, calm.early, length-record_for func tsc id);
      }

  pub words : tsc < 2 ^ 64 → func < 2 ^ 64 → IsWords m
  unfolding level_u8
  words ht hf = record {
    level_word = omega arith;
    tsc_word = ht;
    func_word = hf;
    size_word = omega (arith, length-record_for func tsc id);
  }

  -- A call that is granted room takes one block.
  granted-Calm :
      {a : Alloc} {q' : SpscVarQueueOpt}
      → IsWords m
      → try_alloc n (length m.payload) q ≡ (some a, q')
      → Calm n line_of
          (suc i)
          (after_call m w (publish_granted info func tsc m.payload (some a, q'))).1
  unfolding after_call publish_granted commit fill
  granted-Calm {a} {q'} ws e =
      let inv = calm.inside.inv in
      let g =
        alloc_spec-Grants n (total m) q
          (sym (try_alloc_lem inv.size (length m.payload) q in_life) ∙ e) in
      record {
        inside = Produce-Inside (publish refl) (
            Produce-Inside (write refl)
              (Produce-Inside (alloc m calm.at_rest ws in_life e) calm.inside));
        at_rest = refl;
        early = rw g.queue_is (
            ground (
              arith,
              calm.early,
              length-record_for func tsc id,
              mod-lt q.writing_idx (IsSize-pos inv.size),
            ));
      }

  refused-Calm :
      {q' : SpscVarQueueOpt}
      → try_alloc n (length m.payload) q ≡ (none, q')
      → Calm n line_of
          (suc i)
          (after_call m w (publish_granted info func tsc m.payload (none, q'))).1
  unfolding after_call publish_granted
  refused-Calm {q'} e =
      let inv = calm.inside.inv in
      let q_is =
        alloc_spec-none n (total m) q
          (sym (try_alloc_lem inv.size (length m.payload) q in_life) ∙ e) in
      record {
        inside =
            subst (λ p. Inside n line_of (record (with_queue w q') { phase = p })) calm.at_rest
              (Produce-Inside (refuse m calm.at_rest in_life e) calm.inside);
        at_rest = refl;
        early = rw q_is (omega (arith, calm.early));
      }

  -- What a call leaves: the record is published, or counted as dropped.
  abbrev pub Called : Bool × World → Type 0
  Called (true, w') = Calm n line_of (suc i) w' × (w'.published ≡ w.published ++ (m ∷ []))
  Called (false, w') = Calm n line_of (suc i) w' × (w'.published ≡ w.published)

  granted_or_not :
      (res : Option Alloc × SpscVarQueueOpt)
      → IsWords m
      → try_alloc n (length m.payload) q ≡ res
      → Called (after_call m w (publish_granted info func tsc m.payload res))
  unfolding after_call publish_granted
  granted_or_not (some a, q') ws e = (granted-Calm ws e, refl)
  granted_or_not (none, q') ws e = (refused-Calm e, refl)

  pub log_call-Called : IsWords m → Called (log_call n func tsc id w)
  unfolding log_call emit2 publish_args
  log_call-Called ws = granted_or_not _ ws refl

-- The count of the dropped and the published goes up by one with a call.
pub Called-count :
    {n : ℕ} {line_of : ℕ → Msg → List ℕ} {i : ℕ} {w : World} (func tsc id : ℕ)
    (calm : Calm n line_of i w) (soon : i < 2 ^ 20) (tsc2ns : ℕ → ℕ → ℤ)
    (call : ℕ → List ℕ → MyBytesMut → Outcome (Bool × MyBytesMut)) (tid : ℕ) (res : Bool × World)
    → Called func tsc id calm soon res
    → AllPrinted tsc2ns call tid line_of w.published
    → ((j : ℕ)
        → IsPrinted
            (tsc2ns j)
            call
            512
            tid
            (record_for func tsc id)
            (line_of j (record_for func tsc id)))
    → Calm n line_of (suc i) res.1
      × AllPrinted tsc2ns call tid line_of res.1.published
      × ((if res.0 then 0 else 1) + length res.1.published ≡ suc (length w.published))
Called-count {line_of = line_of} {w = w} func tsc id calm soon tsc2ns call tid (true, w')
      (calm', grown) ps p =
    (
      calm',
      rw grown (
          AllPrinted-append tsc2ns call tid line_of w.published (record_for func tsc id ∷ []) ps
            (p, tt)),
      rw grown (omega (arith, length-append w.published (record_for func tsc id ∷ []))),
    )
Called-count func tsc id calm soon tsc2ns call tid (false, w') (calm', same) ps p =
    (calm', rw same ps, rw same (omega arith))
