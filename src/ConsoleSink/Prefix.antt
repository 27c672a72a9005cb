-- ===== src/ConsoleSink/Prefix.antt =====
-- The line of src/console_sink.rs up to the level.
use nanolog_rs.Prelude.{
  lt→ltb, ℕ, zero, suc, ◌+◌, ◌/◌, ◌%◌, ◌^◌, ◌≤◌, ◌<◌, ◌≡◌, refl, List, [], ◌∷◌, ◌++◌, length,
  get_elem?, some, arith,
}
use nanolog_rs.Prelude.Text.{codes}
use nanolog_rs.Prelude.Int.{pos, quot, rem}
use nanolog_rs.Prelude.Outcome.{ok}
use nanolog_rs.BytesMut.{MyBytesMut, advance}
use nanolog_rs.BytesMut.Text.{
  Holds, clear-Holds, push-Holds, extend_from_slice-Holds, write_unfilled-Holds,
}
use nanolog_rs.Format.{
  split_utc, TimeCache, TidCache, new_tid_cache, lut_msus, tid_text, level_strs,
}
use nanolog_rs.Format.Digits.{two_digits, three_digits, lut_msus_lem, filled_lem, new_tid_cache_lem}
use nanolog_rs.Format.Time.{date_text, IsCache, refresh_dt-IsCache}
use nanolog_rs.ConsoleSink.{ConsoleBatchSink, usize_of, level_str, put_unfilled, write_prefix}

-- "[MM-DD HH:MM:SS.mmm.uuu T=tt level"
abbrev pub prefix_text : ℕ → ℕ → List ℕ → List ℕ
prefix_text ns tid level =
    ((((((b'[' ∷ date_text (split_utc (pos (ns / 1000000000))))
              ++ ((b'.' ∷ three_digits (ns / 1000000 % 1000))
                  ++ (b'.' ∷ three_digits (ns / 1000 % 1000))))
            ++ (b' ' ∷ []))
          ++ (codes "T=" ++ two_digits tid))
        ++ (b' ' ∷ []))
      ++ level)

put_unfilled-Holds :
    {cap : ℕ} {text : List ℕ} {b : MyBytesMut}
    → Holds cap text b
    → (xs : List ℕ) → length text + length xs ≤ cap
    → (b' : MyBytesMut) × (put_unfilled xs (length xs) b ≡ ok b') × Holds cap (text ++ xs) b'
unfolding put_unfilled
put_unfilled-Holds h xs room =
    let (b', e, h') = (write_unfilled-Holds h xs).0 room in (advance (length xs) b', rw e refl, h')

msus_text :
    (ns : ℕ)
    → lut_msus
        (usize_of (quot (quot (rem (pos ns) 1000000000) 1000) 1000))
        (usize_of (rem (quot (rem (pos ns) 1000000000) 1000) 1000))
      ≡ ok ((b'.' ∷ three_digits (ns / 1000000 % 1000)) ++ (b'.' ∷ three_digits (ns / 1000 % 1000)))
unfolding quot rem usize_of
msus_text ns =
    let ms : ns % 1000000000 / 1000 / 1000 % 2 ^ 64 ≡ ns / 1000000 % 1000 = omega arith in
    let us : ns % 1000000000 / 1000 % 1000 % 2 ^ 64 ≡ ns / 1000 % 1000 = omega arith in
    rw (ms, us) (lut_msus_lem (ns / 1000000 % 1000) (ns / 1000 % 1000) (omega arith) (omega arith))

level_text :
    (level : ℕ) {text : List ℕ} → get_elem? level_strs level ≡ some text → level_str level ≡ ok text
unfolding level_str level_strs
level_text level e = rw e refl

length_of : {xs text : List ℕ} → some xs ≡ some text → length xs ≤ 15 → length text ≤ 15
length_of e h = grind arith

level_length :
    (level : ℕ) {text : List ℕ} → get_elem? level_strs level ≡ some text → length text ≤ 15
unfolding level_strs
level_length zero e = length_of e (omega arith)
level_length (suc zero) e = length_of e (omega arith)
level_length (suc (suc zero)) e = length_of e (omega arith)
level_length (suc (suc (suc zero))) e = length_of e (omega arith)
level_length (suc (suc (suc (suc zero)))) e = length_of e (omega arith)
level_length (suc (suc (suc (suc (suc zero))))) e = length_of e (omega arith)
level_length (suc (suc (suc (suc (suc (suc n)))))) e = cc

tid_ok :
    (max_tid tid : ℕ) {c : TidCache}
    → tid < 32
    → new_tid_cache max_tid ≡ ok c
    → tid_text c tid ≡ ok (codes "T=" ++ two_digits tid)
tid_ok max_tid tid h e =
    rw (new_tid_cache_lem max_tid e, filled_lem tid (omega arith), lt→ltb tid 32 h) refl

seconds : (ns : ℕ) → quot (pos ns) 1000000000 ≡ pos (ns / 1000000000)
unfolding quot
seconds ns = refl

-- With a time from 1970 on, before the end of `i64`, a thread id below 32, a level of `LEVEL_STRS`,
-- a scratch buffer of at least 64 bytes, a new time cache or one that was refreshed, and the table
-- of thread ids that `new` makes, `on_record` begins each line with the date and time of the
-- record, its milliseconds and microseconds, the thread's id and the level, whatever the buffer held
-- before, and the caches stay usable.
pub write_prefix-Holds :
    (tid level ns max_tid : ℕ) (s : ConsoleBatchSink) {cap : ℕ} {old text : List ℕ}
    → ns < 2 ^ 63
    → tid < 32
    → get_elem? level_strs level ≡ some text
    → 64 ≤ cap
    → Holds cap old s.scratch
    → IsCache s.time_cache
    → new_tid_cache max_tid ≡ ok s.tid_cache
    → (b : MyBytesMut) × (c : TimeCache) × (write_prefix tid level (pos ns) s
        ≡ ok (record s { scratch = b; time_cache = c }))
      × Holds cap (prefix_text ns tid text) b
      × IsCache c
unfolding write_prefix
write_prefix-Holds tid level ns max_tid s {text = text} hn ht hl hc h i et =
    let (b1, e1, h1) = (push-Holds (clear-Holds h) b'[').0 (omega arith) in
    let (c, e2, ic, sec) = refresh_dt-IsCache (ns / 1000000000) s.time_cache (omega arith) i in
    let (b2, e3, h2) =
      put_unfilled-Holds h1 (date_text (split_utc (pos (ns / 1000000000)))) (omega arith) in
    let (b3, e4, h3) =
      put_unfilled-Holds h2
        ((b'.' ∷ three_digits (ns / 1000000 % 1000)) ++ (b'.' ∷ three_digits (ns / 1000 % 1000)))
        (omega arith) in
    let (b4, e5, h4) = (push-Holds h3 b' ').0 (omega arith) in
    let (b5, e6, h5) = put_unfilled-Holds h4 (codes "T=" ++ two_digits tid) (omega arith) in
    let (b6, e7, h6) = (push-Holds h5 b' ').0 (omega arith) in
    let (b7, e8, h7) = (extend_from_slice-Holds h6 text).0 (omega (arith, level_length level hl)) in
    (
      b7,
      c,
      rw
          (
            e1,
            seconds ns,
            e2,
            e3,
            msus_text ns,
            e4,
            e5,
            tid_ok max_tid tid ht et,
            e6,
            e7,
            level_text level hl,
            e8,
          )
          refl,
      h7,
      ic,
    )
