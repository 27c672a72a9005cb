-- ===== src/Tscns/Convert.antt =====
-- The clock of src/tscns.rs across `init` and `calibrate`, while no other thread runs.
use nanolog_rs.Prelude.{
  ℕ, suc, ◌+◌, ◌-◌, ◌%◌, ◌≡◌, refl, sym, ap, ◌∙◌, true, Option, some, none, List, ◌∷◌, ◌++◌, arith,
  eq→==, Bool-cases, inl, inr, Bool, false, ◌⊎◌, ◌||◌, subst, if◌then◌else◌,
}
use nanolog_rs.Prelude.Int.{
  ℤ, pos, ◌*ℤ◌, ◌+ℤ◌, ◌-ℤ◌, ltb_ℤ, is_zero, ◌≤ℤ◌, -ℤ_parts, +ℤ_parts, eq_of_parts, quot_ℤ, wrap_i64,
  InI64, wrap_i64_lem, div_overflows, div_overflows_lem,
}
use nanolog_rs.Prelude.Outcome.{Outcome, ok, panic, fault}
use nanolog_rs.Tscns.{
  Float, IsFloat, Params, Readings, sync_time, ns_at, tsc2ns, save_param, calibrate, init,
  divisor_at, product_at, corrected, next_calibration,
}
use nanolog_rs.Tscns.Sync.{AllBefore, spin_until_lem, spin_until_waits}

sub_self : (a : ℤ) → a -ℤ a ≡ pos 0
sub_self a = eq_of_parts (a -ℤ a) (pos 0) (omega (arith, -ℤ_parts a a))

add_zero : (a : ℤ) → a +ℤ pos 0 ≡ a
add_zero a = eq_of_parts (a +ℤ pos 0) a (omega (arith, +ℤ_parts a (pos 0)))

module _ {f : Float} (lawful : IsFloat f) where
  open f use {F, of_i64, to_i64, mul, div, sub}

  -- No save is under way, and the bases belong together.
  abbrev pub IsUnlocked : Params F → Type 0
  IsUnlocked p = p.param_seq % 2 ≡ 0

  pub tsc2ns_lem :
      (fuel : ℕ) (p : Params F) (tsc : ℤ)
      → IsUnlocked p
      → tsc2ns f (suc fuel) p tsc ≡ some (ns_at f p.base_tsc p.ns_per_tsc p.base_ns tsc)
  unfolding tsc2ns
  tsc2ns_lem fuel p tsc h =
      rw (eq→== (p.param_seq - p.param_seq % 2) p.param_seq (omega arith)) refl

  at_base : (base_tsc base_ns : ℤ) (x : F) → ns_at f base_tsc x base_ns base_tsc ≡ base_ns
  unfolding ns_at
  at_base base_tsc base_ns x = rw (sub_self base_tsc, lawful.zero_times x) (add_zero base_ns)

  -- What a save leaves: the counter's base reads as the base time.
  record Saved (base_tsc base_ns : ℤ) (p p' : Params F) : Type 0 where
    pub seq_is : p'.param_seq ≡ p.param_seq + 2
    pub err_is : p'.base_ns_err ≡ p.base_ns_err
    pub interval_is : p'.calibate_interval_ns ≡ p.calibate_interval_ns
    pub tsc_is : p'.base_tsc ≡ base_tsc
    pub ns_is : p'.base_ns ≡ base_ns

  save_param-Saved :
      (base_tsc base_ns sys_ns : ℤ) (x : F) (p : Params F)
      → Saved base_tsc base_ns p (save_param f base_tsc base_ns sys_ns x p)
  unfolding save_param
  save_param-Saved base_tsc base_ns sys_ns x p = record {
    seq_is = refl;
    err_is = refl;
    interval_is = refl;
    tsc_is = refl;
    ns_is = refl;
  }

  at-Saved :
      (fuel : ℕ) (p p' : Params F) {base_tsc base_ns : ℤ}
      → IsUnlocked p
      → Saved base_tsc base_ns p p'
      → tsc2ns f (suc fuel) p' base_tsc ≡ some base_ns
  at-Saved fuel p p' {base_tsc} {base_ns} h s =
      tsc2ns_lem fuel p' base_tsc (omega (arith, s.seq_is))
      ∙ ap some (rw (s.tsc_is, s.ns_is) (at_base base_tsc base_ns p'.ns_per_tsc))

  -- What the clock gives the count that `sync_time` returns, and its error there.
  abbrev pub shown_at : Readings → Params F → ℤ
  shown_at r p = ns_at f p.base_tsc p.ns_per_tsc p.base_ns (sync_time r).0

  abbrev pub error_at : Readings → Params F → ℤ
  error_at r p = shown_at r p -ℤ (sync_time r).1

  -- How much the error has grown since the last calibration, times the interval.
  abbrev pub growth_at : Readings → Params F → ℤ
  growth_at r p = (error_at r p -ℤ p.base_ns_err) *ℤ p.calibate_interval_ns

  -- The time of the system's clock since the last calibration.
  abbrev pub since_at : Readings → Params F → ℤ
  since_at r p = ((sync_time r).1 -ℤ p.base_ns) +ℤ p.base_ns_err

  -- A division that panics.
  abbrev refused : Readings → Params F → Bool
  refused r p =
      is_zero (divisor_at f (sync_time r).1 p)
      || div_overflows (wrap_i64 (product_at f (error_at r p) p)) (divisor_at f (sync_time r).1 p)

  refused_lem :
      (r : Readings) (p : Params F)
      → InI64 (product_at f (error_at r p) p)
      → is_zero (divisor_at f (sync_time r).1 p) ≡ false
      → refused r p ≡ false
  refused_lem r p small e =
      let product = product_at f (error_at r p) p in
      let divisor = divisor_at f (sync_time r).1 p in
      ap (λ (b : Bool). b || div_overflows (wrap_i64 product) divisor) e
      ∙ ap (λ (a : ℤ). div_overflows a divisor) (wrap_i64_lem product small)
      ∙ div_overflows_lem product divisor small

  -- The error that is expected at the next calibration: the error, and as much as it grows until then.
  abbrev pub expected_at : Readings → Params F → ℤ
  expected_at r p = error_at r p +ℤ quot_ℤ (growth_at r p) (since_at r p)

  -- The ratio, less by that error's part of the interval.
  abbrev pub ratio_at : Readings → Params F → F
  ratio_at r p =
      mul p.ns_per_tsc
        (sub (of_i64 (pos 1)) (div (of_i64 (expected_at r p)) (of_i64 p.calibate_interval_ns)))

  abbrev wrapped_at : Readings → Params F → ℤ
  wrapped_at r p = wrap_i64 (
      error_at r p
      +ℤ quot_ℤ (wrap_i64 (product_at f (error_at r p) p)) (divisor_at f (sync_time r).1 p))

  abbrev saved_at : Readings → Params F → Params F
  saved_at r p =
      save_param f (sync_time r).0 (shown_at r p) (sync_time r).1 (corrected f (wrapped_at r p) p) p

  -- `calibrate` by its two tests, whether it is time and whether the division panics.
  calibrate_late :
      (fuel : ℕ) (now_tsc : ℤ) (r : Readings) (p : Params F)
      → IsUnlocked p
      → ltb_ℤ now_tsc p.next_calibrate_tsc ≡ false
      → calibrate f (suc fuel) now_tsc r p
        ≡ (if refused r p then some panic else some (ok (saved_at r p)))
  unfolding calibrate
  calibrate_late fuel now_tsc r p h late = rw (late, tsc2ns_lem fuel p (sync_time r).0 h) refl

  -- What every call of `calibrate` that returns keeps.
  pub record Kept (fuel : ℕ) (r : Readings) (p p' : Params F) : Type 0 where
    pub same : tsc2ns f fuel p' (sync_time r).0 ≡ tsc2ns f fuel p (sync_time r).0
    pub unlocked : IsUnlocked p'
    pub same_err : p'.base_ns_err ≡ p.base_ns_err
    pub same_interval : p'.calibate_interval_ns ≡ p.calibate_interval_ns

  Saved-Kept :
      (fuel : ℕ) (r : Readings) (p p' : Params F)
      → IsUnlocked p
      → Saved (sync_time r).0 (shown_at r p) p p'
      → Kept (suc fuel) r p p'
  Saved-Kept fuel r p p' h s = record {
    same = at-Saved fuel p p' h s ∙ sym (tsc2ns_lem fuel p (sync_time r).0 h);
    unlocked = omega (arith, h, s.seq_is);
    same_err = s.err_is;
    same_interval = s.interval_is;
  }

  params_or : Params F → Option (Outcome (Params F)) → Params F
  params_or p (some (ok p')) = p'
  params_or p (some panic) = p
  params_or p (some fault) = p
  params_or p none = p

  pub calibrate-Kept :
      (fuel : ℕ) (now_tsc : ℤ) (r : Readings) (p : Params F) {p' : Params F}
      → IsUnlocked p
      → calibrate f (suc fuel) now_tsc r p ≡ some (ok p')
      → Kept (suc fuel) r p p'
  unfolding calibrate params_or
  calibrate-Kept fuel now_tsc r p {p'} h e =
      elim (Bool-cases (ltb_ℤ now_tsc p.next_calibrate_tsc)) [
        | inl early ↦
            let same = ap (params_or p) (rw (calibrate, early) at e) in
            subst (Kept (suc fuel) r p) same
              (record { same = refl; unlocked = h; same_err = refl; same_interval = refl })
        | inr late ↦
            let done = sym (calibrate_late fuel now_tsc r p h late) ∙ e in
            elim (Bool-cases (refused r p)) [
              | inl bad ↦ let panics = rw bad at done in absurd (ground (arith, panics))
              | inr good ↦ subst (Kept (suc fuel) r p) (ap (params_or p) (rw good at done)) (
                  Saved-Kept fuel r p (saved_at r p) h (
                    save_param-Saved (sync_time r).0 (shown_at r p) (sync_time r).1
                      (corrected f (wrapped_at r p) p) p))
            ]
      ]

  -- The variables after a calibration: the bases are the count that `sync_time` returns and what the
  -- clock showed for it, and the ratio makes up for the expected error over one interval.
  pub record Recalibrated (r : Readings) (p p' : Params F) : Type 0 where
    pub tsc_is : p'.base_tsc ≡ (sync_time r).0
    pub ns_is : p'.base_ns ≡ shown_at r p
    pub ratio_is : p'.ns_per_tsc ≡ ratio_at r p
    pub next_is :
        p'.next_calibrate_tsc
        ≡ (sync_time r).0
          +ℤ to_i64 (div (of_i64 (p.calibate_interval_ns -ℤ pos 1000)) (ratio_at r p))
    pub seq_is : p'.param_seq ≡ p.param_seq + 2

  -- What a call of `calibrate` at the count `now_tsc` comes to: nothing where it is too early, a panic
  -- where it would divide by 0, and else new variables, with which the clock does not jump.
  abbrev pub Calibrated : ℕ → ℤ → Readings → Params F → Option (Outcome (Params F)) → Type 0
  Calibrated fuel now_tsc r p (some (ok p')) =
      ((ltb_ℤ now_tsc p.next_calibrate_tsc ≡ true) × (p' ≡ p))
      ⊎ ((ltb_ℤ now_tsc p.next_calibrate_tsc ≡ false)
          × (is_zero (since_at r p) ≡ false)
          × Recalibrated r p p'
          × Kept fuel r p p')
  Calibrated fuel now_tsc r p (some panic) =
      (ltb_ℤ now_tsc p.next_calibrate_tsc ≡ false) × (is_zero (since_at r p) ≡ true)
  Calibrated fuel now_tsc r p (some fault) = ⊥
  Calibrated fuel now_tsc r p none = ⊥

  saved_at-Calibrated :
      (fuel : ℕ) (now_tsc : ℤ) (r : Readings) (p : Params F)
      → IsUnlocked p
      → InI64 (growth_at r p)
      → InI64 (expected_at r p)
      → ltb_ℤ now_tsc p.next_calibrate_tsc ≡ false
      → is_zero (since_at r p) ≡ false
      → Calibrated (suc fuel) now_tsc r p (some (ok (saved_at r p)))
  unfolding save_param next_calibration
  saved_at-Calibrated fuel now_tsc r p h small sum late good =
      let exact : wrapped_at r p ≡ expected_at r p =
        ap (λ (a : ℤ). wrap_i64 (error_at r p +ℤ quot_ℤ a (divisor_at f (sync_time r).1 p)))
          (wrap_i64_lem (product_at f (error_at r p) p) small)
        ∙ wrap_i64_lem (expected_at r p) sum in
      inr (
        late,
        good,
        record {
          tsc_is = refl;
          ns_is = refl;
          ratio_is = ap (λ (e : ℤ). corrected f e p) exact;
          next_is =
              ap
                (λ (e : ℤ).
                  next_calibration f (sync_time r).0 p.calibate_interval_ns (corrected f e p))
                exact;
          seq_is = refl;
        },
        Saved-Kept fuel r p (saved_at r p) h (
            save_param-Saved (sync_time r).0 (shown_at r p) (sync_time r).1
              (corrected f (wrapped_at r p) p) p),
      )

  -- With the laws of floating-point numbers, while no save is under way, and where the product and the
  -- expected error lie strictly between -2 ^ 63 and 2 ^ 63: `calibrate` leaves all as it is if its
  -- first reading is below `NEXT_CALIBRATE_TSC`. Else it panics if the time since the last
  -- calibration, with `BASE_NS_ERR` added, is 0, and otherwise makes the count that `sync_time` returns
  -- and what the clock showed for it the new bases, so that the clock does not jump there; it takes the
  -- error against the system's time with its growth until the next calibration, in proportion to that
  -- since the last one, and corrects the ratio by that part of the interval; it sets the next
  -- calibration by the new ratio and raises the sequence number by 2. `BASE_NS_ERR` and the interval
  -- stay as they are.
  pub calibrate-Calibrated :
      (fuel : ℕ) (now_tsc : ℤ) (r : Readings) (p : Params F)
      → IsUnlocked p
      → InI64 (growth_at r p)
      → InI64 (expected_at r p)
      → Calibrated (suc fuel) now_tsc r p (calibrate f (suc fuel) now_tsc r p)
  unfolding calibrate
  calibrate-Calibrated fuel now_tsc r p h small sum =
      elim (Bool-cases (ltb_ℤ now_tsc p.next_calibrate_tsc)) [
        | inl early ↦ rw early (inl (early, refl))
        | inr late ↦
            rw (calibrate_late fuel now_tsc r p h late)
              (elim (Bool-cases (is_zero (divisor_at f (sync_time r).1 p))) [
                | inl zero_divisor ↦ rw zero_divisor (late, zero_divisor)
                | inr e ↦
                    rw (refused_lem r p small e)
                      (saved_at-Calibrated fuel now_tsc r p h small sum late e)
              ])
      ]

  -- With the laws of floating-point numbers, while no save is under way: `init` does not return as
  -- long as the system clock shows only times before the calibration's end; once it shows one that is
  -- not before it, behind any that are, `init` returns. Then no save is under way, and the counter's
  -- value of the first sample reads as that sample's time. The ratio is the time between the two
  -- samples, as the system clock has it, over the counts between them, and the next calibration is set
  -- by it.
  pub init_lem :
      (fuel : ℕ) (init_calibrate_ns calibrate_interval_ns now : ℤ) (first second : Readings)
      (early later : List ℤ) (p : Params F)
      → IsUnlocked p
      → AllBefore ((sync_time first).1 +ℤ init_calibrate_ns) early
      → (sync_time first).1 +ℤ init_calibrate_ns ≤ℤ now
      → (init f init_calibrate_ns calibrate_interval_ns first early second p ≡ none)
        × (p' : Params F) × (init f init_calibrate_ns calibrate_interval_ns first
              (early ++ (now ∷ later))
              second
              p
            ≡ some p')
        × (tsc2ns f (suc fuel) p' (sync_time first).0 ≡ some (sync_time first).1)
        × IsUnlocked p'
        × (p'.ns_per_tsc
            ≡ div
                (of_i64 ((sync_time second).1 -ℤ (sync_time first).1))
                (of_i64 ((sync_time second).0 -ℤ (sync_time first).0)))
        × (p'.next_calibrate_tsc
            ≡ (sync_time first).0
              +ℤ to_i64 (div (of_i64 (calibrate_interval_ns -ℤ pos 1000)) p'.ns_per_tsc))
        × (p'.calibate_interval_ns ≡ calibrate_interval_ns)
        × (p'.base_ns_err ≡ p.base_ns_err)
  unfolding init save_param next_calibration
  init_lem fuel calibrate_ns interval_ns now first second early later p h before reached =
      let x : F =
        div (of_i64 ((sync_time second).1 -ℤ (sync_time first).1))
          (of_i64 ((sync_time second).0 -ℤ (sync_time first).0)) in
      let p1 : Params F = record p { calibate_interval_ns = interval_ns } in
      let p' : Params F =
        save_param f (sync_time first).0 (sync_time first).1 (sync_time first).1 x p1 in
      let s = save_param-Saved (sync_time first).0 (sync_time first).1 (sync_time first).1 x p1 in
      (
        rw (init, spin_until_waits _ early before) refl,
        p',
        rw (init, spin_until_lem _ now early later before reached) refl,
        at-Saved fuel p1 p' h s,
        omega (arith, s.seq_is, h),
        refl,
        refl,
        s.interval_is,
        s.err_is,
      )
