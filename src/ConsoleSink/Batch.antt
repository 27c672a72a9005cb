-- ===== src/ConsoleSink/Batch.antt =====
-- The batch of src/console_sink.rs: no line is lost or written twice.
use nanolog_rs.Prelude.{
  ℕ, ◌^◌, get_elem?, some, ◌≤◌, ◌<◌, ◌≡◌, refl, subst, arith, ◌∙◌, Bool, true, false, not, ◌&&◌,
  List, [], ◌∷◌, ◌++◌, length, length-eq-zero, append-nil, Bool-cases, inl, inr, ◌==◌,
  if◌then◌else◌,
}
use nanolog_rs.Prelude.Int.{ℤ, pos}
use nanolog_rs.Prelude.Outcome.{Outcome, ok}
use nanolog_rs.VarQueue.{MsgHeader}
use nanolog_rs.BytesMut.{MyBytesMut}
use nanolog_rs.BytesMut.Text.{Holds, with_capacity-Holds, push-Holds, result-Holds}
use nanolog_rs.Format.{new_tid_cache, level_strs}
use nanolog_rs.Format.Time.{IsCache, new_time_cache-IsCache}
use nanolog_rs.ConsoleSink.Prefix.{prefix_text, write_prefix-Holds}
use nanolog_rs.ConsoleSink.{
  ConsoleBatchSink, new, Stdout, IsStdout, Result, should_flush, interval_over, flush_now, add_line,
  end_record, on_record, on_idle,
}

-- After `Ok`, what standard output has got and the batch are together `got` and `pending`; after
-- `Err` the batch is `pending`.
abbrev pub Kept : List ℕ → List ℕ → Result → Type 0
Kept got pending (true, s, got') = got' ++ s.batch ≡ got ++ pending
Kept got pending (false, s, got') = s.batch ≡ pending

-- The scratch buffer has room for a prefix, whatever it holds, and the caches are as `new` makes them
-- or as a call left them.
pub record IsSink (cap max_tid : ℕ) (s : ConsoleBatchSink) : Type 0 where
  pub old : List ℕ
  pub room : 64 ≤ cap
  pub holds : Holds cap old s.scratch
  pub cached : IsCache s.time_cache
  pub tids : new_tid_cache max_tid ≡ ok s.tid_cache

pub new-IsSink : (now : ℕ) → IsSink 512 32 (new now)
unfolding new new_tid_cache
new-IsSink now = record {
  old = [];
  room = omega arith;
  holds = with_capacity-Holds 512;
  cached = new_time_cache-IsCache;
  tids = refl;
}

-- A standard output that takes all it is given.
pub record IsReliable (out : Stdout) : Type 0 where
  pub takes : (got bytes : List ℕ) → out.write_all got bytes ≡ (true, got ++ bytes)
  pub flushes : (got : List ℕ) → out.flush got ≡ true

module _ {out : Stdout} (lawful : IsStdout out) (tsc2ns : ℕ → ℤ)
    (call : ℕ → List ℕ → MyBytesMut → Outcome (Bool × MyBytesMut)) where
  sent :
      (now : ℕ) (s : ConsoleBatchSink) (got : List ℕ) (w : Bool × List ℕ)
      → (w.0 ≡ true → w.1 ≡ got ++ s.batch)
      → Kept got s.batch (
          if w.0 && out.flush w.1
          then (true, record s { batch = []; last_flush_cycles = now }, w.1)
          else (false, s, w.1))
  sent now s got (false, got') h = refl
  sent now s got (true, got') h = elim (Bool-cases (out.flush got')) [
    | inl e ↦ rw e (append-nil got' ∙ h refl)
    | inr e ↦ rw e refl
  ]

  flush_now-Kept :
      (now : ℕ) (s : ConsoleBatchSink) (got : List ℕ)
      → Kept got s.batch (flush_now out tsc2ns call now s got)
  unfolding flush_now
  flush_now-Kept now s got = elim (Bool-cases (length s.batch == 0)) [
    | inl e ↦ rw e refl
    | inr e ↦ rw e (sent now s got _ (lawful.all_written got s.batch))
  ]

  add_line-Kept :
      (now tsc : ℕ) (line : List ℕ) (s : ConsoleBatchSink) (got : List ℕ)
      → Kept got (s.batch ++ line) (add_line out tsc2ns call now tsc line s got)
  unfolding add_line
  add_line-Kept now tsc line s got =
      elim (Bool-cases (should_flush tsc (record s { batch = s.batch ++ line }))) [
        | inl e ↦ rw e (flush_now-Kept now (record s { batch = s.batch ++ line }) got)
        | inr e ↦ rw e refl
      ]

  -- With a standard output whose `write_all` writes all bytes or fails, `on_idle` loses nothing:
  -- after `Ok` what standard output has got, with the batch behind it, is as before, and after
  -- `Err` the batch is as before.
  pub on_idle-Kept :
      (now now_cycles : ℕ) (s : ConsoleBatchSink) (got : List ℕ)
      → Kept got s.batch (on_idle out tsc2ns call now now_cycles s got)
  unfolding on_idle
  on_idle-Kept now now_cycles s got =
      elim (Bool-cases (not (length s.batch == 0) && interval_over now_cycles s)) [
        | inl e ↦ rw e (flush_now-Kept now s got)
        | inr e ↦ rw e refl
      ]

  -- What a line does not touch.
  add_line-IsSink :
      (now tsc : ℕ) (line : List ℕ) (s : ConsoleBatchSink) (got : List ℕ) {cap max_tid : ℕ}
      → IsSink cap max_tid s
      → IsSink cap max_tid (add_line out tsc2ns call now tsc line s got).1
  unfolding add_line flush_now
  add_line-IsSink now tsc line s got i = record {
    old = i.old;
    room = i.room;
    holds = subst (Holds _ i.old) (ground arith) i.holds;
    cached = subst IsCache (ground arith) i.cached;
    tids = ground (arith, i.tids);
  }

  flush_now-Ok :
      (now : ℕ) (s : ConsoleBatchSink) (got : List ℕ)
      → IsReliable out
      → (flush_now out tsc2ns call now s got).0 ≡ true
  unfolding flush_now
  flush_now-Ok now s got h = elim (Bool-cases (length s.batch == 0)) [
    | inl e ↦ rw e refl
    | inr e ↦ rw (e, h.takes got s.batch, h.flushes (got ++ s.batch)) refl
  ]

  add_line-Ok :
      (now tsc : ℕ) (line : List ℕ) (s : ConsoleBatchSink) (got : List ℕ)
      → IsReliable out
      → (add_line out tsc2ns call now tsc line s got).0 ≡ true
  unfolding add_line
  add_line-Ok now tsc line s got h =
      elim (Bool-cases (should_flush tsc (record s { batch = s.batch ++ line }))) [
        | inl e ↦ rw e (flush_now-Ok now (record s { batch = s.batch ++ line }) got h)
        | inr e ↦ rw e refl
      ]

  -- `on_idle` leaves the scratch buffer and the caches alone, and returns `Ok` on a reliable output.
  pub on_idle-IsSink :
      (now now_cycles : ℕ) (s : ConsoleBatchSink) (got : List ℕ) {cap max_tid : ℕ}
      → IsSink cap max_tid s
      → IsSink cap max_tid (on_idle out tsc2ns call now now_cycles s got).1
        × (IsReliable out → (on_idle out tsc2ns call now now_cycles s got).0 ≡ true)
  unfolding on_idle flush_now
  on_idle-IsSink now now_cycles s got i = (
    record {
      old = i.old;
      room = i.room;
      holds = subst (Holds _ i.old) (ground arith) i.holds;
      cached = subst IsCache (ground arith) i.cached;
      tids = ground (arith, i.tids);
    },
    λ h. elim (Bool-cases (not (length s.batch == 0) && interval_over now_cycles s)) [
      | inl e ↦ rw e (flush_now-Ok now s got h)
      | inr e ↦ rw e refl
    ],
  )

  -- `on_idle` empties the batch once the interval is over, on a reliable output.
  pub on_idle-flushes :
      (now now_cycles : ℕ) (s : ConsoleBatchSink) (got : List ℕ)
      → IsReliable out
      → interval_over now_cycles s ≡ true
      → (on_idle out tsc2ns call now now_cycles s got).1.batch ≡ []
  unfolding on_idle flush_now
  on_idle-flushes now now_cycles s got h over = elim (Bool-cases (length s.batch == 0)) [
    | inl e ↦ rw e (length-eq-zero s.batch (ground (arith, e)))
    | inr e ↦ rw (e, over, h.takes got s.batch, h.flushes (got ++ s.batch)) refl
  ]

  -- Take a sink whose scratch buffer has at least 64 bytes, whose time cache is new or was refreshed
  -- and whose table of thread ids is that of `new`; a standard output whose `write_all` writes all
  -- bytes or fails; a record of a time from 1970 on, before the end of `i64`, with a thread id below
  -- 32 and a level of `LEVEL_STRS`, whose log function returns `Ok` and appends `text` to the
  -- buffer, in which at least a byte stays free. Then `on_record` returns, and leaves such a sink;
  -- after `Ok` what standard output has got, with the batch behind it, is what it was, then the line
  -- of the record, and after `Err` the batch is the old one with that line. It is `Ok` if the
  -- standard output takes all it is given.
  pub on_record-Kept :
      (now tid ns max_tid : ℕ) (log_meta : MsgHeader) (log_payload : List ℕ) (s : ConsoleBatchSink)
      (got text : List ℕ) {cap : ℕ} {level : List ℕ}
      → tsc2ns log_meta.tsc ≡ pos ns
      → ns < 2 ^ 63
      → tid < 32
      → get_elem? level_strs log_meta.level ≡ some level
      → IsSink cap max_tid s
      → ((b : MyBytesMut)
          → Holds cap (prefix_text ns tid level) b
          → (b' : MyBytesMut) × (call log_meta.log_func log_payload b ≡ ok (true, b'))
            × Holds cap (prefix_text ns tid level ++ text) b')
      → length (prefix_text ns tid level ++ text) < cap
      → (r : Result) × (on_record out tsc2ns call now tid log_meta log_payload s got ≡ ok r)
        × Kept got (s.batch ++ ((prefix_text ns tid level ++ text) ++ (b'\n' ∷ []))) r
        × IsSink cap max_tid r.1
        × (IsReliable out → r.0 ≡ true)
  unfolding on_record end_record
  on_record-Kept now tid ns max_tid log_meta log_payload s got text {level = level} et hn ht hl i
        appends room =
      let (b, c, e1, h1, ic) =
        write_prefix-Holds tid log_meta.level ns max_tid s hn ht hl i.room i.holds i.cached
          i.tids in
      let (b', e2, h2) = appends b h1 in
      let (b'', e3, h3) = (push-Holds h2 b'\n').0 room in
      let line : List ℕ = (prefix_text ns tid level ++ text) ++ (b'\n' ∷ []) in
      let s' : ConsoleBatchSink = record s { scratch = b''; time_cache = c } in
      (
        add_line out tsc2ns call now log_meta.tsc line s' got,
        rw (et, e1, e2, e3, result-Holds h3) refl,
        add_line-Kept now log_meta.tsc line s' got,
        add_line-IsSink now log_meta.tsc line s' got
            (record { old = line; room = i.room; holds = h3; cached = ic; tids = i.tids }),
        add_line-Ok now log_meta.tsc line s' got,
      )
