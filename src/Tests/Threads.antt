-- ===== src/Tests/Threads.antt =====
-- The backend begins a turn while a record is being written, and is in `front` when it is published.
use nanolog_rs.Prelude.{
  true, replicate, ◌⊎◌, ℕ, zero, suc, ◌+◌, ◌≤◌, ◌≡◌, refl, some, List, [], ◌∷◌, ◌++◌, length, arith,
}
use nanolog_rs.Prelude.Text.{codes}
use nanolog_rs.Prelude.Outcome.{panic, ok}
use nanolog_rs.Log.{level_u8, info}
use nanolog_rs.VarQueue.{
  SpscVarQueueOpt, alloc_blocks, block_at, commit, pad_at, reserve, try_alloc,
}
use nanolog_rs.VarQueue.Layout.{Msg}
use nanolog_rs.ConsoleSink.{interval_over, ge_i64}
use nanolog_rs.ConsoleSink.Prefix.{prefix_text}
use nanolog_rs.RunLog2.System.{alloc, write, publish}
use nanolog_rs.RunLog2.Backend.{Backend, end_turn, turn}
use nanolog_rs.RunLog2.Backend.Lines.{IsPrinted, one_more, none_left}
use nanolog_rs.RunLog2.Backend.Turn.{turn_prints_all}
use nanolog_rs.ConsoleSink.Batch.{IsSink, IsReliable, new-IsSink}
use nanolog_rs.RunLog2.{Record, publish_args, fill}
use nanolog_rs.RunLog2.Backend.Session.{new_backend}
use nanolog_rs.RunLog2.Threads.{
  World, at_front, scanning, at_end, start, with_system, Reach, here, later, produce, consume,
  advance, advances, advance_at,
}
use nanolog_rs.RunLog2.Threads.Inv.{Printout}
use nanolog_rs.RunLog2.Threads.Output.{threads_print_in_order, backend_catches_up}
use nanolog_rs.RunLog2.Threads.Flushed.{batch_flushed}
use nanolog_rs.RunLog2.Threads.Served.{publish_args_served}
use nanolog_rs.RunLog2.Threads.Calls.{turn-advances}
use nanolog_rs.Tests.Ring.{
  empty, four, new_four, hello, granted_state, written_state, published_state,
}
use nanolog_rs.Tests.Emit.{
  terminal, terminal-IsStdout, terminal-IsReliable, base_ns, tsc2ns, hi, hi-IsPrinted, green,
  green_is, m, backend, size, line, q_small, q_short, m-Chain, m-IsPrinted,
}

abbrev line_of : ℕ → Msg → List ℕ
line_of i m = (prefix_text (base_ns i + m.tsc) 1 green ++ codes "hi") ++ (b'\n' ∷ [])

hello-IsPrinted : (i : ℕ) → IsPrinted (tsc2ns i) hi 512 1 hello (line_of i hello)
unfolding level_u8
hello-IsPrinted zero = hi-IsPrinted hello 86461002004000 refl (omega arith) green_is (omega arith)
hello-IsPrinted (suc zero) =
    hi-IsPrinted hello 86461002004000 refl (omega arith) green_is (omega arith)
hello-IsPrinted (suc (suc i)) =
    hi-IsPrinted hello 86461002004900 refl (omega arith) green_is (omega arith)

abbrev pub at_start : World
at_start = start (new_backend empty 0)

abbrev pub one_turn : World
one_turn = record (with_system at_start written_state) {
  backend = record (new_backend written_state.queue 0) { num_loop = 1 };
  pc = at_front 1;
}

abbrev pub in_front : World
in_front = record (with_system one_turn published_state) { pc = scanning 1 1 0 }

in_front_reached : Reach terminal tsc2ns hi (λ i. i) 4 1 at_start in_front
unfolding try_alloc alloc_blocks reserve block_at pad_at advance advance_at end_turn commit fill
in_front_reached =
    later {t = with_system one_turn published_state}
      (later {t = one_turn}
        (later {t = record (with_system at_start written_state) { pc = at_end 1 }}
          (later {t = record (with_system at_start granted_state) { pc = at_end 1 }}
            (later {t = with_system at_start granted_state}
              (later here (produce (alloc hello refl (omega arith) (omega arith) refl)))
              (consume refl))
            (produce (write refl)))
          (consume refl))
        (produce (publish refl)))
      (consume refl)

threads_print_in_order_example :
    ((done rest : List Msg) × (hello ∷ [] ≡ done ++ rest)
      × (length done ≡ 0 + 0)
      × Printout line_of 1 done [])
    × (((w : World) × (advance terminal tsc2ns hi (λ i. i) 4 1 in_front ≡ ok w))
        ⊎ ((advance terminal tsc2ns hi (λ i. i) 4 1 in_front ≡ panic) × ¬ IsReliable terminal))
unfolding nanolog_rs.ConsoleSink.new
threads_print_in_order_example =
    threads_print_in_order terminal-IsStdout tsc2ns hi (λ i. i) 4 1 line_of 0 four (omega arith)
      new_four in_front_reached (hello-IsPrinted, tt)

backend_catches_up_example :
    (k : ℕ) × (k ≤ 9)
    × (w : World) × (advances terminal tsc2ns hi (λ i. i) 4 1 k in_front ≡ ok w)
    × Printout line_of w.backend.reads
        (hello ∷ [])
        (w.backend.stdout ++ w.backend.console_sink.batch)
unfolding commit fill try_alloc alloc_blocks reserve block_at pad_at
backend_catches_up_example =
    backend_catches_up terminal-IsStdout tsc2ns hi (λ i. i) 4 1 line_of 0 terminal-IsReliable four
      (omega arith) new_four in_front_reached (hello-IsPrinted, tt)

-- A turn that prints one record, without the producer.
turned :
    (b : Backend) × (turn terminal tsc2ns hi (λ i. i) 1024 1 2 2 backend ≡ some (ok b))
    × (b.stdout ++ b.console_sink.batch
        ≡ backend.stdout ++ (backend.console_sink.batch ++ (line ++ [])))
    × (b.queue ≡ record backend.queue { read_idx = backend.queue.written_idx })
    × IsSink 512 32 b.console_sink
    × (b.num_loop ≡ 0)
turned =
    turn_prints_all terminal-IsStdout terminal-IsReliable tsc2ns hi (λ i. i) 1024 1 size 2 (m ∷ [])
      2 backend (omega arith) (omega arith) q_small q_short m-Chain (one_more m-IsPrinted none_left)
      (new-IsSink 0)

turn-advances_example :
    (j : ℕ) × (delivered : List Record) × (advances terminal tsc2ns hi
        (λ i. i)
        1024
        1
        j
        (start backend)
      ≡ ok (record (start backend) { backend = turned.0; delivered = delivered; pc = at_front 1 }))
turn-advances_example =
    turn-advances terminal tsc2ns hi (λ i. i) 1024 1 2 2 (start backend) turned.1

-- In the same state a record of 60 bytes of arguments waits for the backend.
publish_args_served_example :
    (k : ℕ) × (k ≤ 9)
    × (w : World) × (advances terminal tsc2ns hi (λ i. i) 4 1 k in_front ≡ ok w)
    × (q : SpscVarQueueOpt) × (publish_args 4 info 7 2000 (replicate 60 5) w.backend.queue
        ≡ (true, q))
unfolding commit fill try_alloc alloc_blocks reserve block_at pad_at
publish_args_served_example =
    publish_args_served terminal-IsStdout terminal-IsReliable tsc2ns hi (λ i. i) 4 1 line_of 0 info
      7 2000 (replicate 60 5) four (omega arith) new_four in_front_reached (hello-IsPrinted, tt)
      refl
      (record {
        short = omega arith;
        read_small = omega arith;
        cache_small = omega arith;
        room = omega arith;
      })
      (omega arith)

-- Nothing is published, and the counter has gone beyond the flush interval.
batch_flushed_example :
    (k : ℕ) × (k ≤ 2048)
    × (w : World) × (advances terminal tsc2ns hi (λ i. 10000000) 4 1 k at_start ≡ ok w)
    × (w.backend.console_sink.batch ≡ [])
    × Printout line_of w.backend.reads [] w.backend.stdout
unfolding nanolog_rs.ConsoleSink.new interval_over ge_i64
batch_flushed_example =
    batch_flushed terminal-IsStdout terminal-IsReliable tsc2ns hi (λ i. 10000000) 4 1 line_of 0 four
      (omega arith) new_four here tt refl refl (omega arith) refl
