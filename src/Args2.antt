-- ===== src/Args2.antt =====
-- src/args2.rs: the two arguments of a log call as bytes, and how the log function finds them again.
-- Floating-point and signed arguments stand as their bit patterns. Their text is what `Display` of
-- their types makes of them, which is not modelled.
pub mod RoundTrip
use nanolog_rs.Prelude.{
  ℕ, zero, suc, ◌+◌, ◌-◌, ◌%◌, ◌≤◌, ◌<◌, ◌≡◌, Option, none, some, List, [], ◌∷◌, ◌++◌, length, take,
  drop, replicate, get_elem?, leb, ltb,
}
use nanolog_rs.Prelude.Bytes.{le_bytes, of_le_bytes}
use nanolog_rs.Prelude.Outcome.{Outcome, ok, panic, fault, assert, in_bounds, ◌>>=◌}

-- What `into_arg` makes: `ArgF64`, `ArgU64`, `ArgI64`, or a `UserPodSnap` with the address of the
-- type's `decode` and the bytes of the value.
pub data Arg : Type 0 where
  arg_f64 arg_u64 arg_i64 : ℕ → Arg
  user_pod_snap : (decode_fn : ℕ) (data_bytes : List ℕ) → Arg

-- `ARG_TAG`: `size_of::<T>() as u8 + 8`. The sum does not compile if it leaves `u8`.
unfoldable pub arg_tag : Arg → ℕ
arg_tag (arg_f64 v) = 0
arg_tag (arg_u64 v) = 1
arg_tag (arg_i64 v) = 2
arg_tag (user_pod_snap f xs) = length xs % 256 + 8

-- `repr(C)` rounds the size of the pair of a `u64` and a value up to a multiple of 8; nothing reads
-- the padding. The value's alignment is at most 8.
unfoldable pub arg_bytes : Arg → List ℕ
arg_bytes (arg_f64 v) = le_bytes 8 v
arg_bytes (arg_u64 v) = le_bytes 8 v
arg_bytes (arg_i64 v) = le_bytes 8 v
arg_bytes (user_pod_snap f xs) = le_bytes 8 f ++ xs ++ replicate ((8 - length xs % 8) % 8) 0

-- The bytes of `Args2`, a packed struct: two tags, six bytes of padding, the arguments.
unfoldable pub args2 : Arg → Arg → List ℕ
args2 arg1 arg2 = arg_tag arg1 ∷ arg_tag arg2 ∷ (replicate 6 0 ++ arg_bytes arg1 ++ arg_bytes arg2)

pub data DecodeResult : Type 0 where
  f64 u64 i64 : ℕ → DecodeResult
  snap : (decode_fn : ℕ) (snap_bytes : List ℕ) → DecodeResult

-- `*repr_off_as::<u64>(bytes, offset)`, which checks nothing.
unfoldable pub repr_off_as : List ℕ → ℕ → Outcome ℕ
repr_off_as bytes offset =
    in_bounds (leb (offset + 8) (length bytes)) (ok (of_le_bytes (take 8 (drop offset bytes))))

-- `&bytes[start..end]`
unfoldable pub slice : List ℕ → ℕ → ℕ → Outcome (List ℕ)
slice bytes start end =
    assert (leb start end)
      (assert (leb end (length bytes)) (ok (take (end - start) (drop start bytes))))

-- The last arm of `decode`.
unfoldable pub decode_snap : ℕ → List ℕ → ℕ → Outcome (DecodeResult × ℕ)
decode_snap len bytes offset = do
  decode_fn ← repr_off_as bytes offset
  snap_bytes ← slice bytes (offset + 8) (offset + len)
  ok (snap decode_fn snap_bytes, offset + len)

-- `match tag`
unfoldable pub decode : ℕ → List ℕ → ℕ → Outcome (DecodeResult × ℕ)
decode zero bytes offset = do v ← repr_off_as bytes offset; ok (f64 v, offset + 8)
decode (suc zero) bytes offset = do v ← repr_off_as bytes offset; ok (u64 v, offset + 8)
decode (suc (suc zero)) bytes offset = do v ← repr_off_as bytes offset; ok (i64 v, offset + 8)
decode (suc (suc (suc n))) bytes offset = decode_snap (suc (suc (suc n))) bytes offset

-- `bytes[i]`
unfoldable pub index : List ℕ → ℕ → Outcome ℕ
index bytes i = elim (get_elem? bytes i) [ none ↦ panic | some x ↦ ok x ]

-- The arguments that `decode_fmt_args2` prints, as the log function of `__emit2` finds them too.
unfoldable pub decode_fmt_args2 : List ℕ → Outcome (DecodeResult × DecodeResult)
decode_fmt_args2 bytes = do
  tag1 ← index bytes 0
  tag2 ← index bytes 1
  found1 ← decode tag1 bytes 8
  found2 ← decode tag2 bytes found1.1
  ok (found1.0, found2.0)
