-- ===== src/Tests/Emit.antt =====
-- `__emit2` with two numbers, into a new ring of 1024 blocks, and a turn of the backend behind it.
use nanolog_rs.Prelude.{
  zero, suc, ℕ, ◌+◌, ◌≡◌, ◌<◌, ◌^◌, refl, Bool, true, some, List, [], ◌∷◌, ◌++◌, get_elem?, length,
  arith,
}
use nanolog_rs.Prelude.Text.{codes}
use nanolog_rs.Prelude.Int.{ℤ, pos}
use nanolog_rs.Prelude.Outcome.{Outcome, ok, ◌>>=◌}
use nanolog_rs.Prelude.Bytes.{le_bytes, of_le_bytes, read_bytes, write_bytes}
use nanolog_rs.BytesMut.{MyBytesMut, with_capacity, extend_from_slice}
use nanolog_rs.BytesMut.Text.{Holds, with_capacity-Holds, extend_from_slice-Holds}
use nanolog_rs.Format.{level_strs}
use nanolog_rs.Args2.{DecodeResult, f64, u64, i64, snap, arg_u64, args2, arg_tag, arg_bytes}
use nanolog_rs.Log.{
  level_u8, info, SourceLocation, file_name, strip_rs, after_last, rfind, ends_with, same_text,
  line_text, decimal,
}
use nanolog_rs.VarQueue.{
  new, SpscVarQueueOpt, try_alloc, alloc_blocks, reserve, block_at, pad_at, commit, header_at,
}
use nanolog_rs.VarQueue.Layout.{IsSize, Msg, total, IsAt, Chain, done, message}
use nanolog_rs.VarQueue.Reserve.{InLife}
use nanolog_rs.ConsoleSink.{Stdout, IsStdout}
use nanolog_rs.ConsoleSink.Prefix.{prefix_text}
use nanolog_rs.ConsoleSink.Batch.{IsSink, IsReliable, new-IsSink}
use nanolog_rs.RunLog2.{fill, publish_args, publish_granted}
use nanolog_rs.RunLog2.System.{init}
use nanolog_rs.RunLog2.Fill.{IsWords}
use nanolog_rs.RunLog2.Publish.{msg_of}
use nanolog_rs.RunLog2.System.Inv.{Inv}
use nanolog_rs.RunLog2.Backend.{Backend, turn}
use nanolog_rs.RunLog2.Backend.Lines.{IsPrinted, one_more, none_left}
use nanolog_rs.RunLog2.Backend.Turn.{turn_prints_all}
use nanolog_rs.RunLog2.Backend.Session.{Session, begun, logged, printed_in_order}
use nanolog_rs.Emit.{Formatting, hft_shim, emit2}
use nanolog_rs.Emit.Shim.{hft_shim-Holds}
use nanolog_rs.Log.Location.{located}
use nanolog_rs.Emit.Printed.{call_text, emit2_printed}

abbrev place : SourceLocation
place = record { module_path = codes "app"; file = codes "main.rs"; line = 7 }

-- "n=" and one byte for a number, and a byte for each argument of another kind
abbrev digit : DecodeResult → List ℕ
digit (f64 v) = b'?' ∷ []
digit (u64 v) = (48 + v) ∷ []
digit (i64 v) = b'?' ∷ []
digit (snap f xs) = b'?' ∷ []

abbrev fmt : Formatting
fmt x y = (codes "n=" ∷ digit x ∷ digit y ∷ [], true)

abbrev pub empty : SpscVarQueueOpt
empty = record { blk = λ _. 0; writing_idx = 0; written_idx = 0; read_idx = 0; read_idx_cache = 0 }

pub new_1024 : new 1024 ≡ ok empty
unfolding new
new_1024 = refl

pub size : IsSize 1024
size = record { log = 10; pow = refl; small = omega arith }

abbrev pub terminal : Stdout
terminal = record { write_all = λ got bytes. (true, got ++ bytes); flush = λ got. true }

pub terminal-IsStdout : IsStdout terminal
terminal-IsStdout = record { all_written = λ got bytes e. refl }

pub terminal-IsReliable : IsReliable terminal
terminal-IsReliable = record { takes = λ got bytes. refl; flushes = λ got. refl }

abbrev q : SpscVarQueueOpt
q = (emit2 1024 info 9 5 (arg_u64 4) (arg_u64 2) empty).1

abbrev pub backend : Backend
backend = record {
  queue = q;
  console_sink = nanolog_rs.ConsoleSink.new 0;
  num_loop = 0;
  stdout = [];
  reads = 1;
}

-- The time at count 0; the clock is calibrated anew when the counter has been read twice.
abbrev pub base_ns : ℕ → ℕ
base_ns zero = 86461002003000
base_ns (suc zero) = 86461002003000
base_ns (suc (suc i)) = 86461002003900

abbrev pub tsc2ns : ℕ → ℕ → ℤ
tsc2ns i tsc = pos (base_ns i + tsc)

abbrev call : ℕ → List ℕ → MyBytesMut → Outcome (Bool × MyBytesMut)
call func bytes b = hft_shim 47 place fmt bytes b

abbrev pub green : List ℕ
green = 27 ∷ (codes "[32minfo" ++ 27 ∷ codes "[m ")

pub green_is : get_elem? level_strs (level_u8 info) ≡ some green
unfolding level_strs level_u8
green_is = refl

granted : emit2 1024 info 9 5 (arg_u64 4) (arg_u64 2) empty ≡ (true, q)
unfolding emit2 publish_args publish_granted try_alloc alloc_blocks reserve block_at pad_at args2
    arg_tag arg_bytes le_bytes
granted = refl

-- Both threads at rest.
abbrev at_rest : Inv 1024 (init empty)
at_rest = record {
  size = size;
  consumed = [];
  queued = [];
  split = refl;
  got = tt;
  chain = done refl;
  order = omega arith;
  at_phase = refl;
}

abbrev pub m : Msg
m = msg_of info 9 5 (args2 (arg_u64 4) (arg_u64 2))

m-IsWords : IsWords m
unfolding level_u8 args2 arg_tag arg_bytes le_bytes
m-IsWords = record {
  level_word = omega arith;
  tsc_word = omega arith;
  func_word = omega arith;
  size_word = omega arith;
}

m_life : InLife 1024 (total m) empty
unfolding args2 arg_tag arg_bytes le_bytes
m_life = record {
  short = omega arith;
  read_small = omega arith;
  cache_small = omega arith;
  room = omega arith;
}

pub q_short : q.written_idx < q.read_idx + 2
unfolding emit2 publish_args publish_granted try_alloc alloc_blocks reserve block_at pad_at args2
    arg_tag arg_bytes le_bytes commit fill
q_short = omega arith

pub q_small : q.written_idx < 2 ^ 31
unfolding emit2 publish_args publish_granted try_alloc alloc_blocks reserve block_at pad_at args2
    arg_tag arg_bytes le_bytes commit fill
q_small = omega arith

emit2_printed_example :
    (b : Backend) × (turn terminal tsc2ns call (λ i. i) 1024 1 2 2 backend ≡ some (ok b))
    × (b.stdout ++ b.console_sink.batch
        ≡ backend.stdout
          ++ (backend.console_sink.batch
              ++ ([]
                  ++ ((prefix_text 86461002003005 1 green
                        ++ call_text 47 place fmt (arg_u64 4) (arg_u64 2))
                      ++ (b'\n' ∷ [])))))
unfolding file_name strip_rs after_last rfind ends_with same_text line_text decimal
emit2_printed_example =
    emit2_printed tsc2ns call 512 1 47 place fmt (arg_u64 4) (arg_u64 2) at_rest terminal-IsStdout
      terminal-IsReliable (λ i. i) info 9 5 86461002003005 green q backend 2 2 refl (omega arith)
      green_is (omega arith) (omega arith) (λ bytes b. refl) refl (omega arith) (omega arith)
      none_left refl m-IsWords m_life granted refl (new-IsSink 0) q_short q_short

-- The record of the call lies at the ring's start; the log function writes two letters.
m-IsAt : IsAt q.blk 0 m
unfolding emit2 publish_args publish_granted try_alloc alloc_blocks reserve block_at pad_at args2
    arg_tag arg_bytes le_bytes commit fill header_at of_le_bytes read_bytes write_bytes level_u8
m-IsAt = record { head = refl; body = refl }

pub m-Chain : Chain 1024 q.blk q.written_idx q.read_idx (m ∷ [])
unfolding emit2 publish_args publish_granted try_alloc alloc_blocks reserve block_at pad_at args2
    arg_tag arg_bytes le_bytes commit fill
m-Chain = message m m-IsAt (omega arith) (omega arith) (done refl)

abbrev pub hi : ℕ → List ℕ → MyBytesMut → Outcome (Bool × MyBytesMut)
hi func bytes b = do b' ← extend_from_slice (codes "hi") b; ok (true, b')

abbrev pub line : List ℕ
line = (prefix_text 86461002003005 1 green ++ codes "hi") ++ (b'\n' ∷ [])

-- The log function writes two letters whatever the record is.
pub hi-IsPrinted :
    {at : ℕ → ℤ} (m : Msg) (ns : ℕ)
    → at m.tsc ≡ pos ns
    → ns < 2 ^ 63
    → get_elem? level_strs m.level ≡ some green
    → length (prefix_text ns 1 green ++ codes "hi") < 512
    → IsPrinted at hi 512 1 m ((prefix_text ns 1 green ++ codes "hi") ++ (b'\n' ∷ []))
hi-IsPrinted m ns time small level room = record {
  ns = ns;
  level = green;
  text = codes "hi";
  time_is = time;
  in_range = small;
  level_is = level;
  appends = λ rest b h.
      let (b', e, h') = (extend_from_slice-Holds h (codes "hi")).0 room in (b', rw e refl, h');
  fits = room;
  line_is = refl;
}

pub m-IsPrinted : IsPrinted (tsc2ns 1) hi 512 1 m line
m-IsPrinted = hi-IsPrinted m 86461002003005 refl (omega arith) green_is (omega arith)

turn_prints_all_example :
    (b : Backend) × (turn terminal tsc2ns hi (λ i. i) 1024 1 2 2 backend ≡ some (ok b))
    × (b.stdout ++ b.console_sink.batch
        ≡ backend.stdout ++ (backend.console_sink.batch ++ (line ++ [])))
    × (b.queue ≡ record q { read_idx = q.written_idx })
    × IsSink 512 32 b.console_sink
    × (b.num_loop ≡ 0)
turn_prints_all_example =
    turn_prints_all terminal-IsStdout terminal-IsReliable tsc2ns hi (λ i. i) 1024 1 size 2 (m ∷ [])
      2 backend (omega arith) (omega arith) q_small q_short m-Chain (one_more m-IsPrinted none_left)
      (new-IsSink 0)

-- A record, and then a turn.
one_call : Session terminal tsc2ns hi (λ i. i) 1024 1 backend [] 1 ([] ++ line)
unfolding emit2 publish_args
one_call =
    logged info 9 5 (args2 (arg_u64 4) (arg_u64 2)) (begun 0 new_1024) m-IsWords m_life m-IsPrinted
      granted

printed_in_order_example :
    (backend.stdout ++ backend.console_sink.batch ≡ [])
    × (b : Backend) × (turn terminal tsc2ns hi (λ i. i) 1024 1 2 2 backend ≡ some (ok b))
    × (b.stdout ++ b.console_sink.batch ≡ [] ++ ([] ++ line))
printed_in_order_example =
    printed_in_order terminal-IsStdout terminal-IsReliable tsc2ns hi (λ i. i) 1024 1 2 2 size
      (omega arith) one_call q_short q_short

hft_shim-Holds_example :
    (b : MyBytesMut) × (hft_shim 47 place fmt
        (args2 (arg_u64 4) (arg_u64 2) ++ (1 ∷ []))
        (with_capacity 512)
      ≡ ok (true, b))
    × Holds 512 (located 47 place [] ++ codes "n=42") b
unfolding file_name strip_rs after_last rfind ends_with same_text line_text decimal
hft_shim-Holds_example =
    hft_shim-Holds 47 place fmt (arg_u64 4) (arg_u64 2) (1 ∷ []) (omega arith) (omega arith)
      (with_capacity-Holds 512) (omega arith)
