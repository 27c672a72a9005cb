-- ===== src/ConsoleSink.antt =====
-- src/console_sink.rs: the backend's sink formats each record into a line, collects the lines in a
-- batch and writes the batch to standard output. Cycle counts are the bit patterns of `i64`s.
pub mod Prefix
pub mod Batch
use nanolog_rs.Prelude.{
  ℕ, ◌+◌, ◌-◌, ◌*◌, ◌%◌, ◌^◌, ◌≡◌, Bool, true, false, not, ◌&&◌, ◌||◌, List, [], ◌∷◌, ◌++◌, length,
  get_elem?, Option, none, some, ltb, leb, ◌==◌, if◌then◌else◌,
}
use nanolog_rs.Prelude.Words.{sub64}
use nanolog_rs.Prelude.Int.{ℤ, pos, negsuc, quot, rem}
use nanolog_rs.Prelude.Outcome.{Outcome, ok, panic, fault, ◌>>=◌}
use nanolog_rs.BytesMut.{
  MyBytesMut, with_capacity, clear, push, extend_from_slice, advance, result, write_unfilled,
}
use nanolog_rs.Format.{
  TimeCache, TidCache, new_time_cache, filled_tid_cache, refresh_dt, lut_msus, tid_text, tid_len,
  time_len, level_strs,
}
use nanolog_rs.VarQueue.{MsgHeader}

pub record ConsoleBatchSink : Type 0 where
  pub batch : List ℕ
  pub scratch : MyBytesMut
  pub flush_bytes : ℕ
  pub flush_interval_cycles : ℕ
  pub last_flush_cycles : ℕ
  pub time_cache : TimeCache
  pub tid_cache : TidCache

-- `now` is what `read_tsc` returns. `TidCache::new(32)` does not panic.
unfoldable pub new : ℕ → ConsoleBatchSink
new now = record {
  batch = [];
  scratch = with_capacity 512;
  flush_bytes = 256 * 1024;
  flush_interval_cycles = 1500000;
  last_flush_cycles = now;
  time_cache = new_time_cache;
  tid_cache = filled_tid_cache;
}

-- `a >= b` on `i64`
unfoldable pub ge_i64 : ℕ → ℕ → Bool
ge_i64 a b = leb ((b + 2 ^ 63) % 2 ^ 64) ((a + 2 ^ 63) % 2 ^ 64)

unfoldable pub interval_over : ℕ → ConsoleBatchSink → Bool
unfolding ge_i64
interval_over now_cycles s = ge_i64 (sub64 now_cycles s.last_flush_cycles) s.flush_interval_cycles

unfoldable pub should_flush : ℕ → ConsoleBatchSink → Bool
should_flush now_cycles s = leb s.flush_bytes (length s.batch) || interval_over now_cycles s

-- Standard output: what it has got so far, and the bytes to write, give whether `write_all` returns
-- `Ok` and what it has got then; and whether `flush` returns `Ok`.
pub record Stdout : Type 0 where
  pub write_all : List ℕ → List ℕ → Bool × List ℕ
  pub flush : List ℕ → Bool

-- `write_all` returns `Ok` only when it has written all bytes.
pub record IsStdout (out : Stdout) : Type 0 where
  pub all_written :
      (got bytes : List ℕ)
      → (out.write_all got bytes).0 ≡ true
      → (out.write_all got bytes).1 ≡ got ++ bytes

-- The cast of an `i64` to `usize`.
unfoldable pub usize_of : ℤ → ℕ
usize_of (pos n) = n % 2 ^ 64
usize_of (negsuc n) = 2 ^ 64 - 1 - n % 2 ^ 64

-- `LEVEL_STRS.get_unchecked(level)`
unfoldable pub level_str : ℕ → Outcome (List ℕ)
level_str level = elim (get_elem? level_strs level) [ none ↦ fault | some text ↦ ok text ]

-- The result of a method with a `?`: `false` is an `Err`.
abbrev pub Result : Type 0
Result = Bool × ConsoleBatchSink × List ℕ

-- A write to `unfilled()` with the `advance` behind it.
unfoldable pub put_unfilled : List ℕ → ℕ → MyBytesMut → Outcome MyBytesMut
put_unfilled text len b = do b' ← write_unfilled text b; ok (advance len b')

-- The line up to the level, for a time in nanoseconds.
unfoldable pub write_prefix : ℕ → ℕ → ℤ → ConsoleBatchSink → Outcome ConsoleBatchSink
unfolding put_unfilled usize_of level_str
write_prefix tid level curr_ns s =
    let sub_us = quot (rem curr_ns 1000000000) 1000 in
    do
      b1 ← push b'[' (clear s.scratch)
      time ← refresh_dt (quot curr_ns 1000000000) s.time_cache
      b2 ← put_unfilled time.1 time_len b1
      msus ← lut_msus (usize_of (quot sub_us 1000)) (usize_of (rem sub_us 1000))
      b3 ← put_unfilled msus 8 b2
      b4 ← push b' ' b3
      tid_bytes ← tid_text s.tid_cache tid
      b5 ← put_unfilled tid_bytes tid_len b4
      b6 ← push b' ' b5
      level_bytes ← level_str level
      b7 ← extend_from_slice level_bytes b6
      ok (record s { scratch = b7; time_cache = time.0 })

-- `tsc2ns` is the clock of src/tscns.rs, `call` the function at an address that the header holds:
-- it writes to the buffer, and returns whether its result is `Ok`.
module _ (out : Stdout) (tsc2ns : ℕ → ℤ)
    (call : ℕ → List ℕ → MyBytesMut → Outcome (Bool × MyBytesMut)) where
  -- `now` is what `read_tsc` returns in the call, `got` what standard output has got.
  unfoldable pub flush_now : ℕ → ConsoleBatchSink → List ℕ → Result
  flush_now now s got =
      let (written, got') = out.write_all got s.batch in
      if length s.batch == 0
      then (true, record s { last_flush_cycles = now }, got)
      else (if written && out.flush got'
          then (true, record s { batch = []; last_flush_cycles = now }, got')
          else (false, s, got'))

  -- The end of `on_record`: the line goes to the batch.
  unfoldable pub add_line : ℕ → ℕ → List ℕ → ConsoleBatchSink → List ℕ → Result
  unfolding flush_now should_flush
  add_line now tsc line s got =
      let s' : ConsoleBatchSink = record s { batch = s.batch ++ line } in
      if should_flush tsc s' then flush_now now s' got else (true, s', got)

  -- What follows the call of the log function, whose `Err` ends `on_record`.
  unfoldable pub end_record : ℕ → ℕ → ConsoleBatchSink → List ℕ → Bool × MyBytesMut → Outcome Result
  unfolding add_line
  end_record now tsc s got (false, b) = ok (false, record s { scratch = b }, got)
  end_record now tsc s got (true, b) = do
    b' ← push b'\n' b
    line ← result b'
    ok (add_line now tsc line (record s { scratch = b' }) got)

  unfoldable pub on_record : ℕ → ℕ → MsgHeader → List ℕ → ConsoleBatchSink → List ℕ → Outcome Result
  unfolding write_prefix end_record
  on_record now tid log_meta log_payload s got = do
    s' ← write_prefix tid log_meta.level (tsc2ns log_meta.tsc) s
    called ← call log_meta.log_func log_payload s'.scratch
    end_record now log_meta.tsc s' got called

  unfoldable pub on_idle : ℕ → ℕ → ConsoleBatchSink → List ℕ → Result
  unfolding flush_now interval_over
  on_idle now now_cycles s got =
      if not (length s.batch == 0) && interval_over now_cycles s
      then flush_now now s got
      else (true, s, got)
