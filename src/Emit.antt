-- ===== src/Emit.antt =====
-- The macro `__emit2` of src/log.rs: the log function that a call site defines, which the backend
-- runs, and the call of `publish_args` with the address of that function.
pub mod Shim
pub mod Printed
use nanolog_rs.Prelude.{ℕ, Bool, List, [], ◌∷◌}
use nanolog_rs.Prelude.Outcome.{Outcome, ok, ◌>>=◌}
use nanolog_rs.BytesMut.{MyBytesMut, write}
use nanolog_rs.Args2.{Arg, DecodeResult, args2, index, decode}
use nanolog_rs.Log.{Level, SourceLocation, write_to}
use nanolog_rs.VarQueue.{SpscVarQueueOpt}
use nanolog_rs.RunLog2.{publish_args}

-- What `write!(out, $fmt, arg1, arg2)` sends to `out`, a parameter: the strings that the formatting
-- of the two arguments writes, in order, and whether it returns `Ok` if they are all written.
abbrev pub Formatting : Type 0
Formatting = DecodeResult → DecodeResult → List (List ℕ) × Bool

-- `Write::write_all` on the buffer, whose `write` takes all bytes at once: it calls `write` unless
-- there is nothing to write.
unfoldable pub write_all : List ℕ → MyBytesMut → Outcome MyBytesMut
write_all [] out = ok out
write_all (x ∷ xs) out = do wrote ← write (x ∷ xs) out; ok wrote.1

unfoldable pub write_pieces : List (List ℕ) → MyBytesMut → Outcome MyBytesMut
write_pieces [] out = ok out
write_pieces (piece ∷ pieces) out = do out' ← write_all piece out; write_pieces pieces out'

-- `write!`
unfoldable pub write_fmt : List (List ℕ) × Bool → MyBytesMut → Outcome (Bool × MyBytesMut)
unfolding write_pieces
write_fmt (pieces, done) out = do out' ← write_pieces pieces out; ok (done, out')

-- `sep` is the path separator, `loc` the place of the call, `fmt` its format string.
unfoldable pub hft_shim :
    ℕ → SourceLocation → Formatting → List ℕ → MyBytesMut → Outcome (Bool × MyBytesMut)
unfolding write_fmt
hft_shim sep src_loc fmt bytes out = do
  out' ← write_to sep src_loc out
  tag1 ← index bytes 0
  tag2 ← index bytes 1
  found1 ← decode tag1 bytes 8
  found2 ← decode tag2 bytes found1.1
  write_fmt (fmt found1.0 found2.0) out'

-- `func` is the address of the log function, `tsc` what `read_tsc` returns.
unfoldable pub emit2 : ℕ → Level → ℕ → ℕ → Arg → Arg → SpscVarQueueOpt → Bool × SpscVarQueueOpt
emit2 blk_cnt lvl func tsc a0 a1 q = publish_args blk_cnt lvl func tsc (args2 a0 a1) q
