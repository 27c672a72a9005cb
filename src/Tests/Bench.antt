-- ===== src/Tests/Bench.antt =====
-- The benchmark on the ring of 1024 blocks, and percentiles of three costs.
use mathlib.Core.List.{Memᴰ, Permᴰ}
use nanolog_rs.Prelude.{
  zero, suc, leb, if◌then◌else◌, ℕ, ◌+◌, ◌*◌, ◌/◌, ◌%◌, ◌^◌, ◌≤◌, ◌≡◌, refl, List, [], ◌∷◌, ◌++◌,
  length, arith,
}
use nanolog_rs.Prelude.Text.{codes}
use nanolog_rs.Prelude.Outcome.{ok}
use nanolog_rs.Log.{level_u8}
use nanolog_rs.VarQueue.Layout.{Msg}
use nanolog_rs.ConsoleSink.Prefix.{prefix_text}
use nanolog_rs.RunLog2.Backend.Lines.{IsPrinted}
use nanolog_rs.RunLog2.Backend.Session.{new_backend}
use nanolog_rs.RunLog2.Threads.{World, start}
use nanolog_rs.RunLog2.Threads.Inv.{Printout}
use nanolog_rs.Benchmark.{Totals, record_for, benchmark, smallest, largest, percentile_ns}
use nanolog_rs.Benchmark.Counted.{sum, benchmark_counts}
use nanolog_rs.Benchmark.Figures.{IsSorting, percentiles_in_order}
use nanolog_rs.Tests.Emit.{
  empty, new_1024, size, terminal, terminal-IsStdout, terminal-IsReliable, base_ns, tsc2ns, hi,
  hi-IsPrinted, green, green_is,
}

abbrev line_of : ℕ → Msg → List ℕ
line_of i m = (prefix_text (base_ns i + m.tsc) 1 green ++ codes "hi") ++ (b'\n' ∷ [])

-- The counter stands at 5 in each call.
each-IsPrinted :
    (id j : ℕ) → IsPrinted (tsc2ns j) hi 512 1 (record_for 9 5 id) (line_of j (record_for 9 5 id))
unfolding level_u8
each-IsPrinted id zero =
    hi-IsPrinted (record_for 9 5 id) 86461002003005 refl (omega arith) green_is (omega arith)
each-IsPrinted id (suc zero) =
    hi-IsPrinted (record_for 9 5 id) 86461002003005 refl (omega arith) green_is (omega arith)
each-IsPrinted id (suc (suc j)) =
    hi-IsPrinted (record_for 9 5 id) 86461002003905 refl (omega arith) green_is (omega arith)

benchmark_counts_example :
    (t : Totals) × (w : World) × (benchmark terminal tsc2ns hi
        (λ i. i)
        1024
        1
        9
        (λ i. i % 7)
        (λ i. 5)
        (λ i. 100 * i)
        (λ i. 100 * i + 60)
        (start (new_backend empty 0))
      ≡ ok (t, w))
    × (t.num_droped + length w.published ≡ 32768)
    × (length t.batch_costs ≡ 256)
    × (t.total_cost_cycles ≡ sum t.batch_costs % 2 ^ 64)
    × (done rest : List Msg) × (w.published ≡ done ++ rest)
    × Printout line_of w.backend.reads done (w.backend.stdout ++ w.backend.console_sink.batch)
benchmark_counts_example =
    benchmark_counts terminal-IsStdout terminal-IsReliable tsc2ns hi (λ i. i) 1024 1 line_of
      (omega arith) 9 (λ i. i % 7) (λ i. 5) (λ i. 100 * i) (λ i. 100 * i + 60) (omega arith)
      (λ i. omega arith) (λ i id h. each-IsPrinted id) 0 size new_1024

abbrev insert : ℕ → List ℕ → List ℕ
insert x [] = x ∷ []
insert x (y ∷ ys) = if leb x y then x ∷ (y ∷ ys) else y ∷ insert x ys

abbrev insertion_sort : List ℕ → List ℕ
insertion_sort [] = []
insertion_sort (x ∷ xs) = insert x (insertion_sort xs)

-- Shares in tenths.
abbrev floor_index : ℕ → ℕ → ℕ
floor_index n tenths = (n * tenths) / 10

sorted-IsSorting : IsSorting (5 ∷ 3 ∷ 8 ∷ []) (insertion_sort (5 ∷ 3 ∷ 8 ∷ []))
sorted-IsSorting = record {
  same = Permᴰ.swap refl refl;
  ascending = (omega arith, (omega arith, tt));
}

percentiles_in_order_example :
    (lo x y hi : ℕ) × (smallest (5 ∷ 3 ∷ 8 ∷ []) ≡ ok lo)
    × (largest (5 ∷ 3 ∷ 8 ∷ []) ≡ ok hi)
    × (percentile_ns insertion_sort floor_index (5 ∷ 3 ∷ 8 ∷ []) 5 ≡ ok x)
    × (percentile_ns insertion_sort floor_index (5 ∷ 3 ∷ 8 ∷ []) 9 ≡ ok y)
    × (lo ≤ x)
    × (x ≤ y)
    × (y ≤ hi)
    × Memᴰ x (5 ∷ 3 ∷ 8 ∷ [])
    × Memᴰ y (5 ∷ 3 ∷ 8 ∷ [])
percentiles_in_order_example =
    percentiles_in_order insertion_sort floor_index (5 ∷ 3 ∷ 8 ∷ []) 5 9 sorted-IsSorting
      (omega arith) (omega arith)
