-- ===== src/RunLog/Epoch.antt =====
-- `TscClock` of src/run_log.rs: the counter's readings as nanoseconds since 1970. `f64` is a
-- parameter.
use nanolog_rs.Prelude.{ℕ, ◌%◌, ◌^◌, ◌<◌, ◌≡◌, refl, Option, none, some, arith}
use nanolog_rs.Prelude.Words.{add64, sub64}
use nanolog_rs.Prelude.Outcome.{Outcome, ok, panic}

-- The casts `as f64` of a `u64` and `as u64`, the operations that the source uses, and the constants
-- 1e9 and 0.0.
pub record Double : Type 1 where
  pub D : Type 0
  pub of_u64 : ℕ → D
  pub to_u64 : D → ℕ
  pub mul : D → D → D
  pub div : D → D → D
  pub max : D → D → D
  pub giga : D
  pub zero : D

-- 0 * 1e9 is 0.0; 0.0 by any number is a zero or NaN, and the greater of that and 0.0 is 0 as a
-- `u64`.
pub record IsDouble (f : Double) : Type 0 where
  pub zero_giga : f.mul (f.of_u64 0) f.giga ≡ f.zero
  pub zero_over : (x : f.D) → f.to_u64 (f.max (f.div f.zero x) f.zero) ≡ 0

pub record TscClock (D : Type 0) : Type 0 where
  pub base_tsc : ℕ
  pub base_epoch_ns : ℕ
  pub hz : D

module _ (f : Double) where
  open f use {D, of_u64, to_u64, mul, div, max, giga}

  -- `now` is the system's time since 1970 in nanoseconds, `none` if it is before that; then `t0`,
  -- ten milliseconds of sleep, `t1`, and the nanoseconds that have passed. `t1 - t0` is a `u64`.
  unfoldable pub calibrate : Option ℕ → ℕ → ℕ → ℕ → Outcome (TscClock D)
  calibrate none t0 t1 dt_ns = panic
  calibrate (some now) t0 t1 dt_ns = ok (record {
    base_tsc = t1;
    base_epoch_ns = now % 2 ^ 64;
    hz = div (mul (of_u64 (sub64 t1 t0)) giga) (of_u64 dt_ns);
  })

  unfoldable pub tsc_to_epoch_ns : TscClock D → ℕ → ℕ
  tsc_to_epoch_ns c tsc =
      let d_cycles = of_u64 (sub64 tsc c.base_tsc) in
      let d_ns = div (mul d_cycles giga) c.hz in add64 c.base_epoch_ns (to_u64 (max d_ns f.zero))

-- A clock that was calibrated with the system's time `now`, below 2 ^ 64, and the readings `t0` and
-- `t1` before and after the sleep gives for `t1` the time `now`, which was read before the sleep.
pub calibrate-tsc_to_epoch_ns :
    {f : Double} (lawful : IsDouble f) (now t0 t1 dt_ns : ℕ)
    → now < 2 ^ 64
    → t1 < 2 ^ 64
    → (c : TscClock f.D) × (calibrate f (some now) t0 t1 dt_ns ≡ ok c)
      × (tsc_to_epoch_ns f c t1 ≡ now)
unfolding calibrate tsc_to_epoch_ns
calibrate-tsc_to_epoch_ns {f} lawful now t0 t1 dt_ns hn ht =
    let same : sub64 t1 t1 ≡ 0 = omega arith in
    (_, refl, rw (same, lawful.zero_giga, lawful.zero_over) (omega arith))
