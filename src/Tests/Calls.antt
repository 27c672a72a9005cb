-- ===== src/Tests/Calls.antt =====
-- The arguments and the place of a log call.
use nanolog_rs.Prelude.{◌+◌, ◌≡◌, refl, [], ◌∷◌, ◌++◌, length, replicate, arith}
use nanolog_rs.Prelude.Text.{codes}
use nanolog_rs.Prelude.Outcome.{ok}
use nanolog_rs.Args2.{
  arg_i64, i64, arg_u64, user_pod_snap, args2, u64, snap, decode_fmt_args2, decode, arg_tag,
  decode_snap, repr_off_as, slice, arg_bytes,
}
use nanolog_rs.Args
use nanolog_rs.Args.{of_u64, of_i64}
use nanolog_rs.Args.Compat.{wide_u64, wide_i64, decode_fmt_args2-earlier}
use nanolog_rs.Args2.RoundTrip.{decode_fmt_args2-args2}
use nanolog_rs.Prelude.Bytes.{le_bytes, of_le_bytes}
use nanolog_rs.Log.{
  LogEntry, SourceLocation, file_name, line_text, decimal, strip_rs, after_last, rfind, ends_with,
  same_text,
}
use nanolog_rs.Log.Location.{located}

-- A value of 16 bytes and a number, and what follows them in the slice that the sink gets.
decode_fmt_args2-args2_example :
    decode_fmt_args2 (args2 (user_pod_snap 4096 (replicate 16 9)) (arg_u64 77) ++ (1 ∷ 2 ∷ []))
    ≡ ok (snap 4096 (replicate 16 9), u64 77)
decode_fmt_args2-args2_example =
    decode_fmt_args2-args2 (user_pod_snap 4096 (replicate 16 9)) (arg_u64 77) (1 ∷ 2 ∷ [])
      (omega arith, refl, omega arith) (omega arith)

-- A value of four bytes: the second argument is looked for four bytes too early.
misplaced :
    decode
      (arg_tag (user_pod_snap 4096 (1 ∷ 2 ∷ 3 ∷ 4 ∷ [])))
      (args2 (user_pod_snap 4096 (1 ∷ 2 ∷ 3 ∷ 4 ∷ [])) (arg_u64 77))
      8
    ≡ ok (snap 4096 (1 ∷ 2 ∷ 3 ∷ 4 ∷ []), 20)
unfolding decode arg_tag args2 decode_snap repr_off_as slice arg_bytes le_bytes of_le_bytes
misplaced = refl

length-misplaced : length (arg_bytes (user_pod_snap 4096 (1 ∷ 2 ∷ 3 ∷ 4 ∷ []))) + 8 ≡ 24
unfolding arg_bytes le_bytes
length-misplaced = refl

abbrev place : SourceLocation
place = record { module_path = codes "app::net"; file = codes "src/net.rs"; line = 120 }

place_text : located 47 place [] ≡ codes "app::net::net#120] "
unfolding file_name strip_rs after_last rfind ends_with same_text line_text decimal
place_text = refl

abbrev entry : LogEntry
entry = record { tsc = 5; level = 4; func = 1; data_bytes = replicate 256 7 }

decode_fmt_args2-earlier_example :
    (Args.args2 (of_u64 7) (of_i64 9) ≡ args2 (arg_u64 7) (arg_i64 9))
    × (decode_fmt_args2 (Args.args2 (of_u64 7) (of_i64 9) ++ (5 ∷ [])) ≡ ok (u64 7, i64 9))
decode_fmt_args2-earlier_example =
    decode_fmt_args2-earlier (5 ∷ []) (wide_u64 7) (wide_i64 9) (omega arith) (omega arith)
