-- ===== src/RunLog2/Backend/Lines.antt =====
-- The records that the sink of src/console_sink.rs can print in a turn of the backend, with their
-- lines.
use nanolog_rs.Prelude.{
  ℕ, suc, ◌+◌, ◌^◌, ◌<◌, ◌≡◌, subst, Bool, true, some, List, [], ◌∷◌, ◌++◌, length, get_elem?,
  append_assoc, arith,
}
use nanolog_rs.Prelude.Int.{ℤ, pos}
use nanolog_rs.Prelude.Outcome.{Outcome, ok}
use nanolog_rs.BytesMut.{MyBytesMut}
use nanolog_rs.BytesMut.Text.{Holds}
use nanolog_rs.Format.{level_strs}
use nanolog_rs.VarQueue.Layout.{Msg}
use nanolog_rs.ConsoleSink.Prefix.{prefix_text}

module _ (tsc2ns : ℕ → ℤ) (call : ℕ → List ℕ → MyBytesMut → Outcome (Bool × MyBytesMut))
    (cap tid : ℕ) where
  -- The sink can print the record as `line`: its time lies between 1970 and the end of `i64`, its
  -- level is one of `LEVEL_STRS`, and its log function returns `Ok` and appends what the line has
  -- behind the prefix, whatever bytes follow the payload; a byte of the scratch buffer stays free.
  pub record IsPrinted (m : Msg) (line : List ℕ) : Type 0 where
    pub ns : ℕ
    pub level : List ℕ
    pub text : List ℕ
    pub time_is : tsc2ns m.tsc ≡ pos ns
    pub in_range : ns < 2 ^ 63
    pub level_is : get_elem? level_strs m.level ≡ some level
    pub appends :
        (rest : List ℕ) (b : MyBytesMut)
        → Holds cap (prefix_text ns tid level) b
        → (b' : MyBytesMut) × (call m.log_func (m.payload ++ rest) b ≡ ok (true, b'))
          × Holds cap (prefix_text ns tid level ++ text) b'
    pub fits : length (prefix_text ns tid level ++ text) < cap
    pub line_is : line ≡ (prefix_text ns tid level ++ text) ++ (b'\n' ∷ [])

module _ (tsc2ns : ℕ → ℕ → ℤ) (call : ℕ → List ℕ → MyBytesMut → Outcome (Bool × MyBytesMut))
    (cap tid : ℕ) where
  -- The lines of the records, one behind the other, where the sink prints the first one when the
  -- counter has been read `i` times and reads it once for each record.
  pub data Lines : ℕ → List Msg → List ℕ → Type 0 where
    none_left : {i : ℕ} → Lines i [] []
    one_more :
        {i : ℕ} {m : Msg} {ms : List Msg} {line lines : List ℕ}
        → IsPrinted (tsc2ns i) call cap tid m line
        → Lines (suc i) ms lines
        → Lines i (m ∷ ms) (line ++ lines)

pub Lines-append :
    {tsc2ns : ℕ → ℕ → ℤ} {call : ℕ → List ℕ → MyBytesMut → Outcome (Bool × MyBytesMut)}
    {cap tid : ℕ} {i : ℕ} {ms ms' : List Msg} {lines lines' : List ℕ}
    → Lines tsc2ns call cap tid i ms lines
    → Lines tsc2ns call cap tid (i + length ms) ms' lines'
    → Lines tsc2ns call cap tid i (ms ++ ms') (lines ++ lines')
Lines-append {tsc2ns = tsc2ns} {call} {cap} {tid} {i} {ms' = ms'} {lines' = lines'} none_left ks =
    let next : i + 0 ≡ i = omega arith in
    subst (λ (j : ℕ). Lines tsc2ns call cap tid j ms' lines') next ks
Lines-append {tsc2ns = tsc2ns} {call} {cap} {tid} {i} {ms' = ms'} {lines' = lines'}
      (one_more {ms = ms} {line = line} {lines} p ls) ks =
    let next : i + suc (length ms) ≡ suc i + length ms = omega arith in
    let behind = subst (λ (j : ℕ). Lines tsc2ns call cap tid j ms' lines') next ks in
    rw (append_assoc line lines lines') (one_more p (Lines-append ls behind))
