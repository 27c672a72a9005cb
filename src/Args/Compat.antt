-- ===== src/Args/Compat.antt =====
-- The encoding of src/args.rs against that of src/args2.rs.
use nanolog_rs.Prelude.{ℕ, ◌%◌, ◌≡◌, refl, ap, ◌∙◌, true, List, ◌++◌, length, length-append, arith}
use nanolog_rs.Prelude.Words.{bit_and_mask}
use nanolog_rs.Prelude.Outcome.{ok}
use nanolog_rs.Args2.{DecodeResult, decode_fmt_args2, arg_f64, arg_u64, arg_i64}
use nanolog_rs.Args2
use nanolog_rs.Args2.RoundTrip.{IsArg, found, decode_fmt_args2-args2}
use nanolog_rs.Args.{Value, of_f64, of_u64, of_i64, arg_tag, bytes_of, is_align8, args1, args2}

aligned : (a : Value) → is_align8 a ≡ true → length (bytes_of a) % 8 ≡ 0
unfolding is_align8
aligned a h = ground (arith, bit_and_mask 3 (length (bytes_of a)), h)

-- The two structs end on a word if the arguments do, as `is_align8` tells.
pub args2_aligned :
    (a b : Value)
    → is_align8 a ≡ true
    → is_align8 b ≡ true
    → (length (args1 a) % 8 ≡ 0) × (length (args2 a b) % 8 ≡ 0)
unfolding args1 args2
args2_aligned a b ha hb =
    omega (arith, aligned a ha, aligned b hb, length-append (bytes_of a) (bytes_of b))

-- The numbers of 64 bits, for which both encodings have a tag.
pub data IsWide : Value → Args2.Arg → Type 0 where
  wide_f64 : (v : ℕ) → IsWide (of_f64 v) (arg_f64 v)
  wide_u64 : (v : ℕ) → IsWide (of_u64 v) (arg_u64 v)
  wide_i64 : (v : ℕ) → IsWide (of_i64 v) (arg_i64 v)

same_tag : {a : Value} {x : Args2.Arg} → IsWide a x → arg_tag a ≡ Args2.arg_tag x
unfolding arg_tag Args2.arg_tag
same_tag (wide_f64 v) = refl
same_tag (wide_u64 v) = refl
same_tag (wide_i64 v) = refl

same_bytes : {a : Value} {x : Args2.Arg} → IsWide a x → bytes_of a ≡ Args2.arg_bytes x
unfolding bytes_of Args2.arg_bytes
same_bytes (wide_f64 v) = refl
same_bytes (wide_u64 v) = refl
same_bytes (wide_i64 v) = refl

-- For two numbers of 64 bits the earlier encoding makes the bytes that `args2` of src/args2.rs makes,
-- so that `decode_fmt_args2` finds the numbers in them, whatever bytes follow.
pub decode_fmt_args2-earlier :
    {a b : Value} {x y : Args2.Arg} (rest : List ℕ)
    → IsWide a x
    → IsWide b y
    → IsArg x
    → IsArg y
    → (args2 a b ≡ Args2.args2 x y) × (decode_fmt_args2 (args2 a b ++ rest) ≡ ok (found x, found y))
unfolding args2 Args2.args2
decode_fmt_args2-earlier {a} {b} {x} {y} rest wa wb hx hy =
    let same : args2 a b ≡ Args2.args2 x y =
      rw (same_tag wa, same_tag wb, same_bytes wa, same_bytes wb) refl in
    (
      same,
      ap (λ (t : List ℕ). decode_fmt_args2 (t ++ rest)) same
          ∙ decode_fmt_args2-args2 x y rest hx hy,
    )
