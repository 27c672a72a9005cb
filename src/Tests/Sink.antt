-- ===== src/Tests/Sink.antt =====
-- A record of level info at 86 461.002003 s, from a new sink, with a log function that copies the
-- payload.
use nanolog_rs.Prelude.{ℕ, ◌+◌, ◌≡◌, refl, Bool, true, List, [], ◌∷◌, ◌++◌, some, get_elem?, arith}
use nanolog_rs.Prelude.Int.{ℤ, pos}
use nanolog_rs.Prelude.Text.{codes}
use nanolog_rs.Prelude.Outcome.{Outcome, ok, ◌>>=◌}
use nanolog_rs.VarQueue.{MsgHeader}
use nanolog_rs.BytesMut.{MyBytesMut, extend_from_slice}
use nanolog_rs.BytesMut.Text.{Holds, extend_from_slice-Holds}
use nanolog_rs.Format.{level_strs}
use nanolog_rs.ConsoleSink.{Stdout, IsStdout, Result, new, on_record}
use nanolog_rs.ConsoleSink.Prefix.{prefix_text}
use nanolog_rs.ConsoleSink.Batch.{IsSink, IsReliable, new-IsSink, Kept, on_record-Kept}

abbrev terminal : Stdout
terminal = record { write_all = λ got bytes. (true, got ++ bytes); flush = λ got. true }

terminal-IsStdout : IsStdout terminal
terminal-IsStdout = record { all_written = λ got bytes e. refl }

abbrev clock : ℕ → ℤ
clock tsc = pos (86461002003000 + tsc)

abbrev copy_payload : ℕ → List ℕ → MyBytesMut → Outcome (Bool × MyBytesMut)
copy_payload func payload b = do b' ← extend_from_slice payload b; ok (true, b')

abbrev meta : MsgHeader
meta = record { size = 26; level = 2; tsc = 0; log_func = 7 }

abbrev info : List ℕ
info = 27 ∷ (codes "[32minfo" ++ 27 ∷ codes "[m ")

info_level : get_elem? level_strs 2 ≡ some info
unfolding level_strs
info_level = refl

on_record-Kept_example :
    (r : Result) × (on_record terminal clock copy_payload 5 1 meta (codes "hi") (new 0) [] ≡ ok r)
    × Kept [] ([] ++ ((prefix_text 86461002003000 1 info ++ codes "hi") ++ (b'\n' ∷ []))) r
    × IsSink 512 32 r.1
    × (IsReliable terminal → r.0 ≡ true)
unfolding new
on_record-Kept_example =
    on_record-Kept terminal-IsStdout clock copy_payload 5 1 86461002003000 32 meta (codes "hi")
      (new 0) [] (codes "hi") refl (omega arith) (omega arith) info_level (new-IsSink 0) copied
      (omega arith)
  where
    copied :
        (b : MyBytesMut)
        → Holds 512 (prefix_text 86461002003000 1 info) b
        → (b' : MyBytesMut) × (copy_payload 7 (codes "hi") b ≡ ok (true, b'))
          × Holds 512 (prefix_text 86461002003000 1 info ++ codes "hi") b'
    copied b h =
        let (b', e, h') = (extend_from_slice-Holds h (codes "hi")).0 (omega arith) in
        (b', rw e refl, h')
