-- ===== src/Tests/Clock.antt =====
-- The clock with whole numbers for floating-point ones.
use nanolog_rs.Prelude.{ℕ, suc, ◌≡◌, refl, some, none, [], ◌∷◌, arith}
use nanolog_rs.Prelude.Int.{ℤ, pos, ◌+ℤ◌, ◌-ℤ◌, ◌*ℤ◌, quot_ℤ, div_euclid, ◌≤ℤ◌, wrap_i64}
use nanolog_rs.Tscns.{
  Float, IsFloat, Params, Sample, Readings, samples, sync_time, calibrate, init, tsc2ns, ns_at,
  save_param,
}
use nanolog_rs.Tscns.Sync.{IsFirst, gap, sync_time_lem}
use nanolog_rs.Tscns.Convert.{IsUnlocked, Calibrated, calibrate-Calibrated, init_lem}
use nanolog_rs.Tscns.Seqlock.{Save, System, resting, returned, Reach, start}
use nanolog_rs.Tscns.Seqlock.Inv.{Consistent}
use nanolog_rs.Tscns.Seqlock.Safe.{returned-Consistent}
use nanolog_rs.Tscns.Seqlock.Stray.{steps_alone, tsc2ns_stray}

abbrev pub whole : Float
whole = record {
  F = ℤ;
  of_i64 = λ a. a;
  to_i64 = λ x. x;
  mul = λ x y. x *ℤ y;
  div = λ x y. quot_ℤ x y;
  sub = λ x y. x -ℤ y;
}

zero_times : (x : ℤ) → pos 0 *ℤ x ≡ pos 0
unfolding ◌*ℤ◌
zero_times x = ground arith

pub whole-IsFloat : IsFloat whole
whole-IsFloat = record { zero_times = zero_times }

-- Two nanoseconds for each cycle.
abbrev params : Params ℤ
params = record {
  param_seq = 4;
  ns_per_tsc = pos 2;
  base_tsc = pos 1000;
  base_ns = pos 50000;
  calibate_interval_ns = pos 4000;
  base_ns_err = pos 0;
  next_calibrate_tsc = pos 2500;
}

abbrev save : Save ℤ
save = record {
  base_tsc = pos 3000;
  base_ns = pos 54000;
  sys_ns = pos 54007;
  new_ns_per_tsc = pos 2;
}

-- The second sample is the narrowest.
abbrev readings : Readings
readings = record {
  tsc0 = pos 2990;
  ns1 = pos 53990;
  tsc1 = pos 2998;
  ns2 = pos 54007;
  tsc2 = pos 3002;
  ns3 = pos 54020;
  tsc3 = pos 3010;
}

synced : sync_time readings ≡ (pos 3000, pos 54007)
unfolding sync_time ◌+ℤ◌ ◌-ℤ◌ div_euclid wrap_i64
synced = refl

sync_time_lem_example :
    (s : Sample) × IsFirst gap s ((samples readings).0 ∷ (samples readings).1)
    × (sync_time readings ≡ (div_euclid (s.after +ℤ s.before) 2, s.ns))
    × (s.before ≤ℤ (sync_time readings).0)
    × ((sync_time readings).0 ≤ℤ s.after)
sync_time_lem_example = sync_time_lem readings (record {
  from_zero = omega arith;
  first = omega arith;
  second = omega arith;
  third = omega arith;
  in_range = omega arith;
})

-- It is time, and the clock is 7 behind.
calibrate-Calibrated_example :
    Calibrated whole-IsFloat 1
      (pos 2600)
      readings
      params
      (calibrate whole 1 (pos 2600) readings params)
unfolding sync_time ns_at ◌+ℤ◌ ◌-ℤ◌ ◌*ℤ◌ div_euclid quot_ℤ wrap_i64
calibrate-Calibrated_example =
    calibrate-Calibrated whole-IsFloat 0 (pos 2600) readings params refl (omega arith, omega arith)
      (omega arith, omega arith)

-- Later, over other readings.
abbrev readings_later : Readings
readings_later = record {
  tsc0 = pos 3090;
  ns1 = pos 54190;
  tsc1 = pos 3098;
  ns2 = pos 54207;
  tsc2 = pos 3102;
  ns3 = pos 54220;
  tsc3 = pos 3110;
}

init_lem_example :
    (init whole (pos 100) (pos 4000) readings (pos 54050 ∷ []) readings_later params ≡ none)
    × (p : Params ℤ) × (init whole
          (pos 100)
          (pos 4000)
          readings
          (pos 54050 ∷ pos 54200 ∷ [])
          readings_later
          params
        ≡ some p)
    × (tsc2ns whole 1 p (sync_time readings).0 ≡ some (sync_time readings).1)
    × IsUnlocked whole-IsFloat p
    × (p.ns_per_tsc ≡ pos 2)
    × (p.next_calibrate_tsc ≡ pos 3000 +ℤ quot_ℤ (pos 3000) p.ns_per_tsc)
    × (p.calibate_interval_ns ≡ pos 4000)
    × (p.base_ns_err ≡ pos 0)
unfolding sync_time ◌+ℤ◌ ◌-ℤ◌ div_euclid wrap_i64 quot_ℤ
init_lem_example =
    init_lem whole-IsFloat 0 (pos 100) (pos 4000) (pos 54200) readings readings_later
      (pos 54050 ∷ []) [] params refl (refl, omega arith) (omega arith)

steps_alone_example :
    (s : System whole) × Reach whole (start whole params) s
    × (s.mem ≡ save_param whole (pos 3000) (pos 54000) (pos 54007) (pos 2) params)
    × (s.writer ≡ resting)
    × (s.reader ≡ returned 6 (pos 3000) (pos 2) (pos 54000))
    × ((fuel : ℕ) (tsc : ℤ)
        → tsc2ns whole (suc fuel) s.mem tsc ≡ some (ns_at whole (pos 3000) (pos 2) (pos 54000) tsc))
steps_alone_example = steps_alone params save refl

-- The base time that is read is -7.
tsc2ns_stray_example :
    (s : System whole) × Reach whole (start whole params) s
    × (s.mem.param_seq ≡ 4)
    × (s.reader ≡ returned 4 (pos 1000) (pos 2) (pos 54000 -ℤ pos 54007))
tsc2ns_stray_example = tsc2ns_stray params save refl

returned-Consistent_example :
    Consistent params
      (tsc2ns_stray {f = whole} params save refl).0.saves
      4
      (pos 1000)
      (pos 2)
      (pos 54000 -ℤ pos 54007)
returned-Consistent_example =
    returned-Consistent refl (tsc2ns_stray {f = whole} params save refl).1
      (tsc2ns_stray {f = whole} params save refl).3
