-- ===== src/Emit/Printed.antt =====
-- From a call of `__emit2` (src/log.rs) on the program's thread to its line on standard output: the
-- ring, the backend, the sink and the log function together.
use nanolog_rs.Prelude.{
  ℕ, ◌+◌, ◌^◌, ◌<◌, ◌≡◌, refl, sym, ap, subst, ◌∙◌, Bool, true, some, List, [], ◌∷◌, ◌++◌, length,
  get_elem?, append_assoc, append-nil, arith,
}
use nanolog_rs.Prelude.Int.{ℤ, pos}
use nanolog_rs.Prelude.Outcome.{Outcome, ok}
use nanolog_rs.BytesMut.{MyBytesMut}
use nanolog_rs.BytesMut.Text.{Holds}
use nanolog_rs.Format.{level_strs}
use nanolog_rs.Args2.{Arg, args2}
use nanolog_rs.Args2.RoundTrip.{IsArg, found}
use nanolog_rs.Log.{Level, SourceLocation, level_u8}
use nanolog_rs.Log.Location.{located}
use nanolog_rs.VarQueue.{SpscVarQueueOpt}
use nanolog_rs.VarQueue.Layout.{Msg, total}
use nanolog_rs.VarQueue.Reserve.{InLife}
use nanolog_rs.ConsoleSink.{Stdout, IsStdout}
use nanolog_rs.ConsoleSink.Prefix.{prefix_text}
use nanolog_rs.ConsoleSink.Batch.{IsSink, IsReliable}
use nanolog_rs.RunLog2.Fill.{IsWords}
use nanolog_rs.RunLog2.System.{System, idle}
use nanolog_rs.RunLog2.System.Inv.{Inv}
use nanolog_rs.RunLog2.System.Stable.{queued-append}
use nanolog_rs.RunLog2.Publish.{msg_of, Published, publish_args-Published, Chain-length}
use nanolog_rs.RunLog2.Backend.{Backend, turn}
use nanolog_rs.RunLog2.Backend.Lines.{IsPrinted, Lines, none_left, one_more, Lines-append}
use nanolog_rs.RunLog2.Backend.Turn.{turn_prints_all}
use nanolog_rs.Emit.{Formatting, hft_shim, emit2}
use nanolog_rs.Emit.Shim.{joined, hft_shim-Holds}

-- What the log function appends: the place of the call, then the formatted arguments.
abbrev pub call_text : ℕ → SourceLocation → Formatting → Arg → Arg → List ℕ
call_text sep src_loc fmt a0 a1 = located sep src_loc [] ++ joined (fmt (found a0) (found a1)).0

located-append :
    (sep : ℕ) (src_loc : SourceLocation) (text more : List ℕ)
    → located sep src_loc text ++ more ≡ text ++ (located sep src_loc [] ++ more)
located-append sep src_loc text more = simp (append_assoc)

module _ (tsc2ns : ℕ → ℕ → ℤ) (call : ℕ → List ℕ → MyBytesMut → Outcome (Bool × MyBytesMut))
    (cap tid : ℕ) (sep : ℕ) (src_loc : SourceLocation) (fmt : Formatting) (a0 a1 : Arg) where
  -- The record of a call whose arguments `decode` can find is one that the sink can print.
  call-IsPrinted :
      (i : ℕ) (lvl : Level) (func tsc ns : ℕ) (level : List ℕ)
      → tsc2ns i tsc ≡ pos ns
      → ns < 2 ^ 63
      → get_elem? level_strs (level_u8 lvl) ≡ some level
      → IsArg a0
      → IsArg a1
      → ((bytes : List ℕ) (b : MyBytesMut) → call func bytes b ≡ hft_shim sep src_loc fmt bytes b)
      → (fmt (found a0) (found a1)).1 ≡ true
      → length (prefix_text ns tid level ++ call_text sep src_loc fmt a0 a1) < cap
      → IsPrinted
          (tsc2ns i)
          call
          cap
          tid
          (msg_of lvl func tsc (args2 a0 a1))
          ((prefix_text ns tid level ++ call_text sep src_loc fmt a0 a1) ++ (b'\n' ∷ []))
  call-IsPrinted i lvl func tsc ns level et hn hl h0 h1 shim good room = record {
    ns = ns;
    level = level;
    text = call_text sep src_loc fmt a0 a1;
    time_is = et;
    in_range = hn;
    level_is = hl;
    appends = λ rest b hb.
        let (b', e, h') =
          hft_shim-Holds sep src_loc fmt a0 a1 rest h0 h1 hb
            (subst (λ (t : List ℕ). length t < cap) (sym split) room) in
        (
          b',
          shim _ b ∙ e ∙ ap (λ (x : Bool). ok (x, b')) good,
          subst (λ (t : List ℕ). Holds cap t b') split h',
        );
    fits = room;
    line_is = refl;
  }
    where
      split :
          located sep src_loc (prefix_text ns tid level) ++ joined (fmt (found a0) (found a1)).0
          ≡ prefix_text ns tid level ++ call_text sep src_loc fmt a0 a1
      split = located-append sep src_loc (prefix_text ns tid level) _

  -- The two threads in a state that satisfies their invariant, no record begun, and the sink able to
  -- print what is queued as `lines`, with the clock as it stands for each record. A call of `__emit2` that the ring has room for, with arguments
  -- that `decode` can find and a formatting that returns `Ok`, at a time, as the clock stands when its
  -- record is printed, from 1970 on and before the end of `i64`, at a level of `LEVEL_STRS`, whose line leaves a byte of the scratch buffer free.
  -- Then a turn of the backend, with a thread id below 32, the sink as `new` makes it or as a call
  -- left it, a standard output that takes all it is given, and fuel for the blocks between the
  -- indices, ends without a panic; what standard output has got, with the batch behind it, has gained
  -- `lines` and then the line of the call: its time, thread and level, its place in the source, and
  -- its two arguments as they were given.
  pub emit2_printed :
      {n : ℕ} {s : System} {out : Stdout} (inv : Inv n s) (lawful : IsStdout out)
      (reliable : IsReliable out) (clock : ℕ → ℕ) (lvl : Level) (func tsc ns : ℕ) (level : List ℕ)
      {lines : List ℕ} (q : SpscVarQueueOpt) (b : Backend) (fuel k : ℕ) {max_tid : ℕ}
      → tsc2ns (b.reads + length inv.queued) tsc ≡ pos ns
      → ns < 2 ^ 63
      → get_elem? level_strs (level_u8 lvl) ≡ some level
      → IsArg a0
      → IsArg a1
      → ((bytes : List ℕ) (o : MyBytesMut) → call func bytes o ≡ hft_shim sep src_loc fmt bytes o)
      → (fmt (found a0) (found a1)).1 ≡ true
      → length (prefix_text ns tid level ++ call_text sep src_loc fmt a0 a1) < cap
      → tid < 32
      → Lines tsc2ns call cap tid b.reads inv.queued lines
      → s.phase ≡ idle
      → IsWords (msg_of lvl func tsc (args2 a0 a1))
      → InLife n (total (msg_of lvl func tsc (args2 a0 a1))) s.queue
      → emit2 n lvl func tsc a0 a1 s.queue ≡ (true, q)
      → b.queue ≡ q
      → IsSink cap max_tid b.console_sink
      → q.written_idx < q.read_idx + fuel
      → q.written_idx < q.read_idx + k
      → (b' : Backend) × (turn out tsc2ns call clock n tid fuel k b ≡ some (ok b'))
        × (b'.stdout ++ b'.console_sink.batch
            ≡ b.stdout
              ++ (b.console_sink.batch
                  ++ (lines
                      ++ ((prefix_text ns tid level ++ call_text sep src_loc fmt a0 a1)
                          ++ (b'\n' ∷ [])))))
  unfolding emit2
  emit2_printed {n} {s} {out} inv lawful reliable clock lvl func tsc ns level {lines} q b fuel k et
        hn hl h0 h1 shim good room ht ls free words life granted here sink hf hk =
      let m : Msg = msg_of lvl func tsc (args2 a0 a1) in
      let inv' : Inv n (record s { queue = q; phase = idle; published = s.published ++ (m ∷ []) }) =
        subst (Published n s m) granted
          (publish_args-Published inv lvl func tsc (args2 a0 a1) free words life) in
      let line : List ℕ =
        (prefix_text ns tid level ++ call_text sep src_loc fmt a0 a1) ++ (b'\n' ∷ []) in
      let all : Lines tsc2ns call cap tid b.reads inv'.queued (lines ++ line) =
        rw (queued-append (m ∷ []) inv inv' refl refl, ← append-nil line)
          (Lines-append ls (
            one_more (call-IsPrinted _ lvl func tsc ns level et hn hl h0 h1 shim good room)
              none_left)) in
      let few : length inv'.queued < k = omega (arith, Chain-length inv'.size inv'.chain) in
      let res =
        turn_prints_all lawful reliable tsc2ns call clock n tid inv'.size fuel inv'.queued k b ht
          few (rw here (omega (arith, inv'.order.behind, inv'.order.life))) (rw here hf)
          (rw here inv'.chain) all sink in
      (res.0, res.1, res.2)
