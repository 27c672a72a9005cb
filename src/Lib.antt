-- ===== src/Lib.antt =====
-- hft_log_demo: a low-latency logger. A program thread writes each record, its header fields and
-- the bytes of its arguments, into a ring of 64-byte blocks; a backend thread reads the records,
-- formats them and prints them.
--
-- Parts, and the files that model them:
--   src/spsc_var_queue_opt.rs   VarQueue: the ring of variable-length records (`SpscVarQueueOpt`,
--     `Producer::try_alloc` and `commit`, `Consumer::front` and `pop`). The memory is a function
--     from byte offsets to bytes, a pointer is an offset, indices are `u32` numbers with their wrap
--     written out, and the header's four fields lie in memory in little-endian order.
--     VarQueue/Layout says how records lie in the ring, VarQueue/Frame which writes leave them
--     alone, VarQueue/Reserve and VarQueue/Limits treat `try_alloc`, VarQueue/Consume the consumer.
--   src/run_log2.rs   RunLog2: `LoggerHandle::publish_args` (RunLog2/Publish) and the inner loop of
--     `run`; RunLog2/Backend is the loop of `run` with the console sink and, in
--     RunLog2/Backend/Session, its turns between calls of the producer. RunLog2/System lets both
--     threads run over one ring in any order, where a step is one call of `try_alloc`, the writes of
--     the record, `commit`, or `front` with `pop`. RunLog2/Threads has the sink too, and cuts the
--     backend into steps that load or store one index: the first test of `front`, a round of its
--     loop, `on_record`, `pop`, and the end of a turn; RunLog2/Threads/Calls sets these steps against
--     the calls, RunLog2/Threads/Served brings the producer's call in,
--     RunLog2/Threads/Flushed the idle turns. The clock of the sink may be another one for each
--     record, since the calibrating thread that `init_logger` starts changes it from time to time.
--   src/spsc.rs   Spsc: the bounded queue of values with cached indices (`ring_buffer`, `push`,
--     `push_write`, `pop`, `Drop`), whose indices are `usize` numbers with their wrap written out.
--   src/my_bytes_mut.rs   BytesMut: the text buffer; unchecked accesses out of bounds are a `fault`.
--   src/format.rs   Format: calendar (Format/Civil, Format/Dates), digit tables (Format/Digits),
--     time cache (Format/Time).
--   src/console_sink.rs   ConsoleSink: `on_record`, `on_idle` and `flush_now`; ConsoleSink/Prefix is
--     the line up to the level, ConsoleSink/Batch what becomes of the lines. Standard output, the
--     clock and the log functions are parameters.
--   src/args2.rs   Args2: the bytes of a call's two arguments (`args2`, `decode`).
--   src/args.rs   Args: the earlier encoding, which nothing uses; Args/Compat sets it against Args2.
--   src/log.rs   Log: levels, `LogEntry`, `SourceLocation`; Emit: the macro `__emit2`, that is the
--     log function of a call site (Emit/Shim) and its way from the ring to standard output
--     (Emit/Printed). What the formatting of the arguments writes is a parameter.
--   src/tscns.rs   Tscns: `init`, `calibrate`, `sync_time`, `tsc2ns`, `save_param`; Tscns/Sync is the
--     choice of a sample, Tscns/Convert the conversion, Tscns/Forward runs of `calibrate`;
--     Tscns/Seqlock lets `save_param` and `tsc2ns` run on two threads, where a step is one read or
--     one write of a static variable. `f64` is a parameter; readings of the counter and of the
--     system's clock are arguments.
--   src/run_log.rs   RunLog: the earlier logger; RunLog/Queues is the handle and the loop of `run` over
--     the queues of Spsc, RunLog/Prefix its texts against those of Format, RunLog/Epoch its clock.
--     The channel is the list of the messages that have arrived, `localtime_r` a parameter.
--   src/main.rs   Benchmark: the bursts of log calls (Benchmark/Counted) and the percentiles of their
--     costs (Benchmark/Figures). What the backend does between two calls is a number of its steps.
--   Prelude holds the shared vocabulary: tests, lists, integers, words, byte memory, outcomes.
--   Tests holds runs at concrete inputs.
--
-- Bounds and fuel. The theorems on the ring hold while no index reaches 2 ^ 31 (`InLife`), for a
-- power of two of blocks of at most 2 ^ 30: beyond that the signed test of `try_alloc` fails, which
-- VarQueue/Limits states. `front` and the backend's loop run on fuel; every theorem that uses it
-- gives one round for each block between the indices, and shows that this is enough. The loops of
-- `next_power_of_two` and `Drop` are on fuel too, with their bounds stated. The loop of
-- `LoggerHandle::push` runs on a list that says how often the consumer pops before each attempt, the
-- wait of `init` on the list of the clock's readings. The plain operations on `i64` in src/tscns.rs
-- wrap, as they do in a release build; a division by 0, or one that overflows, panics.
--
-- Not modelled: memory orders (what is one step above takes effect at once), threads, sleeping and
-- printing, `Display` of the arguments, the Windows branch of `sync_time`, and
-- `init_logger` of src/run_log2.rs, which makes the ring, initialises the clock and starts the threads.
pub mod Prelude
pub mod Log
pub mod VarQueue
pub mod RunLog2
pub mod RunLog
pub mod Spsc
pub mod BytesMut
pub mod Format
mod Tests
pub mod ConsoleSink
pub mod Tscns
pub mod Emit
pub mod Args2
pub mod Args
pub mod Benchmark
