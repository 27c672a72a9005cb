-- ===== src/Tscns.antt =====
-- src/tscns.rs: nanoseconds of the system clock from the processor's cycle counter. The static
-- variables are the fields of `Params`; what `read_tsc` and `read_sys_nanos` return comes in as
-- arguments. The plain `+`, `-` and `*` on `i64` wrap, as in a build without overflow checks;
-- `unchecked_add` and `unchecked_sub`, whose overflow is undefined, are exact.
pub mod Sync
pub mod Convert
pub mod Forward
pub mod Seqlock
use nanolog_rs.Prelude.{
  ℕ, zero, suc, ◌+◌, ◌-◌, ◌*◌, ◌%◌, ◌≡◌, ◌||◌, Bool, true, false, Option, none, some, List, [], ◌∷◌,
  ◌==◌, if◌then◌else◌,
}
use nanolog_rs.Prelude.Int.{
  ℤ, pos, negsuc, ◌+ℤ◌, ◌-ℤ◌, ◌*ℤ◌, quot, quot_ℤ, is_zero, div_euclid, ltb_ℤ, wrap_i64,
  div_overflows,
}
use nanolog_rs.Prelude.Outcome.{Outcome, ok, panic}

-- `f64`, a parameter: the casts `as f64` and `as i64`, and the operations that the source uses.
pub record Float : Type 1 where
  pub F : Type 0
  pub of_i64 : ℤ → F
  pub to_i64 : F → ℤ
  pub mul : F → F → F
  pub div : F → F → F
  pub sub : F → F → F

-- 0.0 times any number is a zero, or NaN, and each of these is 0 as an `i64`.
pub record IsFloat (f : Float) : Type 0 where
  pub zero_times : (x : f.F) → f.to_i64 (f.mul (f.of_i64 (pos 0)) x) ≡ pos 0

-- `NS_PER_SEC`, `INIT_CALIBRATE_NANOS`, `CALIBRATE_INTERVAL_NANOS`
abbrev pub ns_per_sec : ℤ
ns_per_sec = pos 1000000000

abbrev pub init_calibrate_nanos : ℤ
init_calibrate_nanos = pos 300000000

abbrev pub calibrate_interval_nanos : ℤ
calibrate_interval_nanos = ns_per_sec

-- The static variables.
pub record Params (F : Type 0) : Type 0 where
  pub param_seq : ℕ
  pub ns_per_tsc : F
  pub base_tsc : ℤ
  pub base_ns : ℤ
  pub calibate_interval_ns : ℤ
  pub base_ns_err : ℤ
  pub next_calibrate_tsc : ℤ

-- `ns[i]` of `sync_time`, with the readings of the counter before and after it.
pub record Sample : Type 0 where
  pub before : ℤ
  pub ns : ℤ
  pub after : ℤ

abbrev pub width : Sample → ℤ
width s = wrap_i64 (s.after -ℤ s.before)

-- The loop over `i`: the earlier sample stays unless a later one is narrower.
unfoldable pub best_of : Sample → List Sample → Sample
best_of best [] = best
best_of best (s ∷ ss) = best_of (if ltb_ℤ (width s) (width best) then s else best) ss

-- What the three rounds read. The branch for Windows, which takes fifteen, does not compile.
pub record Readings : Type 0 where
  pub tsc0 : ℤ
  pub ns1 : ℤ
  pub tsc1 : ℤ
  pub ns2 : ℤ
  pub tsc2 : ℤ
  pub ns3 : ℤ
  pub tsc3 : ℤ

abbrev pub samples : Readings → Sample × List Sample
samples r = (
  record { before = r.tsc0; ns = r.ns1; after = r.tsc1 },
  record { before = r.tsc1; ns = r.ns2; after = r.tsc2 }
      ∷ record { before = r.tsc2; ns = r.ns3; after = r.tsc3 }
      ∷ [],
)

-- `(tsc_out, ns_out)`; `>> 1` rounds down.
unfoldable pub sync_time : Readings → ℤ × ℤ
unfolding best_of
sync_time r =
    let best = best_of (samples r).0 (samples r).1 in
    (div_euclid (wrap_i64 (best.after +ℤ best.before)) 2, best.ns)

-- `while read_sys_nanos() < expire_ns`, over what the clock shows; `none` means that it shows no
-- more.
unfoldable pub spin_until : ℤ → List ℤ → Option ℤ
spin_until expire_ns [] = none
spin_until expire_ns (now ∷ later) =
    let rest = spin_until expire_ns later in if ltb_ℤ now expire_ns then rest else some now

module _ (f : Float) where
  open f use {F, of_i64, to_i64, mul, div, sub}

  unfoldable pub get_ns_per_tsc : Params F → F
  get_ns_per_tsc p = p.ns_per_tsc

  unfoldable pub get_tsc_ghz : Params F → F
  get_tsc_ghz p = div (of_i64 (pos 1)) p.ns_per_tsc

  -- One round's result, from the values that it reads.
  unfoldable pub ns_at : ℤ → F → ℤ → ℤ → ℤ
  ns_at base_tsc ns_per_tsc base_ns tsc =
      base_ns +ℤ to_i64 (mul (of_i64 (tsc -ℤ base_tsc)) ns_per_tsc)

  -- `tsc2ns` while nothing else runs, on fuel for the rounds of its loop.
  unfoldable pub tsc2ns : ℕ → Params F → ℤ → Option ℤ
  tsc2ns zero p tsc = none
  tsc2ns (suc fuel) p tsc =
      let rest = tsc2ns fuel p tsc in
      let before_seq = p.param_seq - p.param_seq % 2 in
      let ns = ns_at p.base_tsc p.ns_per_tsc p.base_ns tsc in
      if before_seq == p.param_seq then some ns else rest

  -- The value that `save_param` gives `NEXT_CALIBRATE_TSC`.
  unfoldable pub next_calibration : ℤ → ℤ → F → ℤ
  next_calibration base_tsc interval new_ns_per_tsc =
      base_tsc +ℤ to_i64 (div (of_i64 (interval -ℤ pos 1000)) new_ns_per_tsc)

  unfoldable pub save_param : ℤ → ℤ → ℤ → F → Params F → Params F
  unfolding next_calibration
  save_param base_tsc base_ns sys_ns new_ns_per_tsc p =
      let p1 : Params F = record p { base_ns = base_ns -ℤ sys_ns } in
      let p2 : Params F = record p1 {
        next_calibrate_tsc = next_calibration base_tsc p1.calibate_interval_ns new_ns_per_tsc;
      } in
      let seq = p2.param_seq in
      let p3 : Params F = record p2 { param_seq = seq + 1 } in
      let p4 : Params F = record p3 { base_tsc = base_tsc } in
      let p5 : Params F = record p4 { base_ns = base_ns } in
      let p6 : Params F = record p5 { ns_per_tsc = new_ns_per_tsc } in
      record p6 { param_seq = seq + 2 }

  -- The divisor in `calibrate`, and the product before it wraps.
  abbrev pub divisor_at : ℤ → Params F → ℤ
  divisor_at ns p = (ns -ℤ p.base_ns) +ℤ p.base_ns_err

  abbrev pub product_at : ℤ → Params F → ℤ
  product_at ns_err p = (ns_err -ℤ p.base_ns_err) *ℤ p.calibate_interval_ns

  -- The new number of nanoseconds for each count.
  abbrev pub corrected : ℤ → Params F → F
  corrected expected_err p =
      mul p.ns_per_tsc
        (sub (of_i64 (pos 1)) (div (of_i64 expected_err) (of_i64 p.calibate_interval_ns)))

  -- `now_tsc` is the first reading of the counter; the fuel is that of `tsc2ns`, and `none` means
  -- that it ran out. A division of integers panics by 0, and where it overflows.
  unfoldable pub calibrate : ℕ → ℤ → Readings → Params F → Option (Outcome (Params F))
  calibrate fuel now_tsc readings p =
      let (tsc, ns) = sync_time readings in
      if ltb_ℤ now_tsc p.next_calibrate_tsc then some (ok p) else elim (tsc2ns fuel p tsc) [
        | none ↦ none
        | some calculated_ns ↦
            let ns_err = calculated_ns -ℤ ns in
            let divisor = divisor_at ns p in
            let product = wrap_i64 (product_at ns_err p) in
            let expected_err = wrap_i64 (ns_err +ℤ quot_ℤ product divisor) in
            let new_ns_per_tsc = corrected expected_err p in
            if is_zero divisor || div_overflows product divisor
            then some panic
            else some (ok (save_param tsc calculated_ns ns new_ns_per_tsc p))
      ]

  -- The two calls of `sync_time`, and what the clock shows between them.
  unfoldable pub init : ℤ → ℤ → Readings → List ℤ → Readings → Params F → Option (Params F)
  init init_calibrate_ns calibrate_interval_ns first clock second p =
      let p1 : Params F = record p { calibate_interval_ns = calibrate_interval_ns } in
      let (base_tsc, base_ns) = sync_time first in
      let (delayed_tsc, delayed_ns) = sync_time second in
      let init_ns_per_tsc =
        div (of_i64 (delayed_ns -ℤ base_ns)) (of_i64 (delayed_tsc -ℤ base_tsc)) in
      elim (spin_until (base_ns +ℤ init_calibrate_ns) clock) [
        | none ↦ none
        | some now ↦ some (save_param base_tsc base_ns base_ns init_ns_per_tsc p1)
      ]
