-- ===== src/Tscns/Forward.antt =====
-- The clock of src/tscns.rs does not run backwards over the calls of `calibrate` of one thread.
use nanolog_rs.Prelude.{ℕ, suc, ◌≡◌, sym, subst, ◌∙◌, some, arith}
use nanolog_rs.Prelude.Int.{ℤ, ◌-ℤ◌, ◌≤ℤ◌, +ℤ_parts, -ℤ_parts}
use nanolog_rs.Prelude.Outcome.{ok}
use nanolog_rs.Tscns.{Float, IsFloat, Params, Readings, sync_time, ns_at, tsc2ns, calibrate}
use nanolog_rs.Tscns.Convert.{IsUnlocked, tsc2ns_lem, calibrate-Kept}

-- Rounding keeps the order: a product with a number that is not negative, cast to `i64`, does not get
-- smaller where the other factor gets larger.
pub record IsOrdered (f : Float) : Type 1 where
  pub NotNegative : f.F → Type 0
  pub in_order :
      (a b : ℤ) (x : f.F)
      → NotNegative x
      → a ≤ℤ b
      → f.to_i64 (f.mul (f.of_i64 a) x) ≤ℤ f.to_i64 (f.mul (f.of_i64 b) x)

module _ {f : Float} (lawful : IsFloat f) (ordered : IsOrdered f) where
  open f use {F}
  open ordered use {NotNegative, in_order}

  -- Calls of `calibrate` that return, from the static variables `p` at the count `t` to `q`; each
  -- measures at a count that is not below the one before, the last at `u`, and leaves a number of
  -- nanoseconds for each count that is not negative.
  pub data Calibrating (t : ℤ) (p : Params F) : (u : ℤ) (q : Params F) → Type 0 where
    begun : Calibrating t p t p
    calibrated :
        {u : ℤ} {q q' : Params F} (fuel : ℕ) (now_tsc : ℤ) (r : Readings)
        → Calibrating t p u q
        → u ≤ℤ (sync_time r).0
        → calibrate f (suc fuel) now_tsc r q ≡ some (ok q')
        → NotNegative q'.ns_per_tsc
        → Calibrating t p (sync_time r).0 q'

  abbrev shown : Params F → ℤ → ℤ
  shown p t = ns_at f p.base_tsc p.ns_per_tsc p.base_ns t

  shown_le : (p : Params F) (a b : ℤ) → NotNegative p.ns_per_tsc → a ≤ℤ b → shown p a ≤ℤ shown p b
  unfolding ns_at
  shown_le p a b good le =
      let diff : a -ℤ p.base_tsc ≤ℤ b -ℤ p.base_tsc =
        omega (arith, -ℤ_parts a p.base_tsc, -ℤ_parts b p.base_tsc) in
      let more = in_order (a -ℤ p.base_tsc) (b -ℤ p.base_tsc) p.ns_per_tsc good diff in
      omega (arith, more, +ℤ_parts p.base_ns _, +ℤ_parts p.base_ns _)

  some_is : {a b : ℤ} → some a ≡ some b → a ≡ b
  some_is e = cc

  -- At the count that it measures at, `calibrate` leaves what the clock shows.
  calibrated_same :
      (fuel : ℕ) (now_tsc : ℤ) (r : Readings) (q : Params F) {q' : Params F}
      → IsUnlocked lawful q
      → calibrate f (suc fuel) now_tsc r q ≡ some (ok q')
      → IsUnlocked lawful q' × (shown q' (sync_time r).0 ≡ shown q (sync_time r).0)
  calibrated_same fuel now_tsc r q {q'} h e =
      let kept = calibrate-Kept lawful fuel now_tsc r q h e in
      (
        kept.unlocked,
        some_is (
            sym (tsc2ns_lem lawful fuel q' (sync_time r).0 kept.unlocked)
            ∙ kept.same
            ∙ tsc2ns_lem lawful fuel q (sync_time r).0 h),
      )

  -- What holds at the count of the last calibration.
  record Ahead (t : ℤ) (p : Params F) (u : ℤ) (q : Params F) : Type 0 where
    unlocked : IsUnlocked lawful q
    good : NotNegative q.ns_per_tsc
    le : shown p t ≤ℤ shown q u

  Calibrating-Ahead :
      {t : ℤ} {p : Params F} {u : ℤ} {q : Params F}
      → IsUnlocked lawful p
      → NotNegative p.ns_per_tsc
      → Calibrating t p u q
      → Ahead t p u q
  Calibrating-Ahead h good begun = record { unlocked = h; good = good; le = omega arith }
  Calibrating-Ahead {t} {p = p} h good
        (calibrated {u = u} {q} {q'} fuel now_tsc r before le e good') =
      let a = Calibrating-Ahead h good before in
      let (unlocked, same) = calibrated_same fuel now_tsc r q a.unlocked e in
      let more = shown_le q u (sync_time r).0 a.good le in
      record {
        unlocked = unlocked;
        good = good';
        le = subst (λ (x : ℤ). shown p t ≤ℤ x) (sym same) (omega (arith, a.le, more));
      }

  -- With the laws of floating-point numbers, while no save is under way, and with a number of
  -- nanoseconds for each count that is not negative: take calls of `calibrate` that return, each of
  -- which measures at a count that is not below the one before, the first not below `t`, and leaves
  -- a number of nanoseconds for each count that is not negative. The time that `tsc2ns` gives after
  -- them, for a count that is not below that of the last measurement, is not earlier than the time that
  -- it gave for `t` before them.
  pub tsc2ns-Calibrating :
      (fuel more : ℕ) (t t' : ℤ) {u x x' : ℤ} {p q : Params F}
      → IsUnlocked lawful p
      → NotNegative p.ns_per_tsc
      → Calibrating t p u q
      → u ≤ℤ t'
      → tsc2ns f (suc fuel) p t ≡ some x
      → tsc2ns f (suc more) q t' ≡ some x'
      → x ≤ℤ x'
  tsc2ns-Calibrating fuel more t t' {u} {x} {x'} {p} {q} h good run le e e' =
      let a = Calibrating-Ahead h good run in
      let from : shown p t ≡ x = some_is (sym (tsc2ns_lem lawful fuel p t h) ∙ e) in
      let to : shown q t' ≡ x' = some_is (sym (tsc2ns_lem lawful more q t' a.unlocked) ∙ e') in
      let last = shown_le q u t' a.good le in
      subst (λ (y : ℤ). x ≤ℤ y) to
        (subst (λ (y : ℤ). y ≤ℤ shown q t') from (omega (arith, a.le, last)))
