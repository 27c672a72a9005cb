-- ===== src/Tests/Forward.antt =====
-- A clock that is calibrated once, with whole numbers for floating-point ones.
use native.Mathlib.Nat.{mul-le-mul_right}
use nanolog_rs.Prelude.{ℕ, ◌+◌, ◌*◌, ◌≡◌, refl, some, arith}
use nanolog_rs.Prelude.Int.{
  ℤ, pos, negsuc, ◌≤ℤ◌, pos_part, neg_part, ◌+ℤ◌, ◌-ℤ◌, ◌*ℤ◌, quot_ℤ, div_euclid, wrap_i64,
}
use nanolog_rs.Prelude.Outcome.{ok}
use nanolog_rs.Tscns.{Params, Readings, sync_time, calibrate, tsc2ns, save_param, ns_at}
use nanolog_rs.Tscns.Forward.{IsOrdered, Calibrating, tsc2ns-Calibrating}
use nanolog_rs.Tscns.Forward
use nanolog_rs.Tests.Clock.{whole, whole-IsFloat}

-- The readings of one moment.
abbrev at_once : ℕ → ℕ → Readings
at_once tsc ns = record {
  tsc0 = pos tsc;
  ns1 = pos ns;
  tsc1 = pos tsc;
  ns2 = pos ns;
  tsc2 = pos tsc;
  ns3 = pos ns;
  tsc3 = pos tsc;
}

abbrev set : Params ℤ
set = record {
  param_seq = 2;
  ns_per_tsc = pos 1;
  base_tsc = pos 0;
  base_ns = pos 86461002003000;
  calibate_interval_ns = pos 1000000000;
  base_ns_err = pos 0;
  next_calibrate_tsc = pos 999999000;
}

-- A second later, when 1.7 seconds have passed.
abbrev calibrated_once : Params ℤ
calibrated_once = record {
  param_seq = 4;
  ns_per_tsc = pos 2;
  base_tsc = pos 1000000000;
  base_ns = pos 86462002003000;
  calibate_interval_ns = pos 1000000000;
  base_ns_err = pos 0;
  next_calibrate_tsc = pos 1499999500;
}

once :
    calibrate whole 1 (pos 1000000000) (at_once 1000000000 86462702003000) set
    ≡ some (ok calibrated_once)
unfolding calibrate sync_time ◌+ℤ◌ ◌-ℤ◌ ◌*ℤ◌ div_euclid tsc2ns save_param quot_ℤ ns_at wrap_i64
once = refl

abbrev NotNegative : ℤ → Type 0
NotNegative (pos n) = Unit
NotNegative (negsuc n) = ⊥

*ℤ_parts :
    (a : ℤ) (n : ℕ)
    → pos_part (a *ℤ pos n) + neg_part a * n ≡ neg_part (a *ℤ pos n) + pos_part a * n
unfolding ◌*ℤ◌
*ℤ_parts a n = ground arith

in_order : (a b x : ℤ) → NotNegative x → a ≤ℤ b → a *ℤ x ≤ℤ b *ℤ x
in_order a b (negsuc n) h le = absurd h
in_order a b (pos n) h le =
    let more = mul-le-mul_right n le in omega (arith, more, *ℤ_parts a n, *ℤ_parts b n)

abbrev whole-IsOrdered : IsOrdered whole
whole-IsOrdered = record { NotNegative = NotNegative; in_order = in_order }

second_later :
    Calibrating whole-IsFloat whole-IsOrdered (pos 1000) set (pos 1000000000) calibrated_once
unfolding sync_time ◌+ℤ◌ ◌-ℤ◌ div_euclid wrap_i64
second_later =
    Forward.calibrated 0 (pos 1000000000) (at_once 1000000000 86462702003000) Forward.begun
      (omega arith) once tt

-- From 1000 counts to the second that is measured, and 50 counts more.
tsc2ns-Calibrating_example : pos 86461002004000 ≤ℤ pos 86462002003100
unfolding tsc2ns ns_at ◌+ℤ◌ ◌-ℤ◌ ◌*ℤ◌
tsc2ns-Calibrating_example =
    tsc2ns-Calibrating whole-IsFloat whole-IsOrdered 0 0 (pos 1000) (pos 1000000050) refl tt
      second_later (omega arith) refl refl
