-- ===== src/Format/Dates.antt =====
-- Every day has a date of the Gregorian calendar, and `civil_from_days` of src/format.rs stays in its
-- range.
use nanolog_rs.Prelude.{ℕ, zero, suc, ◌+◌, ◌≤◌, ◌<◌, ◌≡◌, refl, sym, ap, ◌∙◌, arith, dec_lt}
use nanolog_rs.Prelude.Int.{pos, ◌-ℤ◌}
use nanolog_rs.Format.{civil_from_days}
use nanolog_rs.Format.Civil.{
  days_in_year, days_in_month, days_before_year, days_before_month, day_number, month_number,
  civil_from_days-day_number,
}

-- A date of the calendar whose day has number `n`.
pub record DateOf (n : ℕ) : Type 0 where
  pub year : ℕ
  pub month : ℕ
  pub day : ℕ
  pub month_in : month < 12
  pub day_in : (1 ≤ day) × (day ≤ days_in_month year month)
  pub number : day_number year month day ≡ n

month_days : (y m : ℕ) → (28 ≤ days_in_month y m) × (days_in_month y m ≤ 31)
month_days y zero = ground arith
month_days y (suc zero) = ground arith
month_days y (suc (suc zero)) = ground arith
month_days y (suc (suc (suc zero))) = ground arith
month_days y (suc (suc (suc (suc zero)))) = ground arith
month_days y (suc (suc (suc (suc (suc zero))))) = ground arith
month_days y (suc (suc (suc (suc (suc (suc zero)))))) = ground arith
month_days y (suc (suc (suc (suc (suc (suc (suc zero))))))) = ground arith
month_days y (suc (suc (suc (suc (suc (suc (suc (suc zero)))))))) = ground arith
month_days y (suc (suc (suc (suc (suc (suc (suc (suc (suc zero))))))))) = ground arith
month_days y (suc (suc (suc (suc (suc (suc (suc (suc (suc (suc zero)))))))))) = ground arith
month_days y (suc (suc (suc (suc (suc (suc (suc (suc (suc (suc (suc m))))))))))) = ground arith

year_days : (y : ℕ) → days_before_month y 12 ≡ days_in_year y
unfolding days_before_month
year_days y = ground arith

last_month : (y m : ℕ) → m ≡ 11 → days_before_month y m + days_in_month y m ≡ days_in_year y
unfolding days_before_month
last_month y m e = rw e (year_days y)

-- The day after a date.
next_date : {n : ℕ} → DateOf n → DateOf (suc n)
unfolding day_number days_before_year days_before_month
next_date t = elim (dec_lt t.day (days_in_month t.year t.month)) [
  | yes within ↦ record {
    year = t.year;
    month = t.month;
    day = t.day + 1;
    month_in = t.month_in;
    day_in = omega (arith, t.day_in);
    number = omega (arith, t.number, t.day_in);
  }
  | no last ↦ elim (dec_lt t.month 11) [
    | yes in_year ↦ record {
      year = t.year;
      month = suc t.month;
      day = 1;
      month_in = omega arith;
      day_in = omega (arith, month_days t.year (suc t.month));
      number = omega (arith, t.number, t.day_in);
    }
    | no december ↦ record {
      year = suc t.year;
      month = 0;
      day = 1;
      month_in = omega arith;
      day_in = omega arith;
      number =
          omega (arith, t.number, t.day_in, last_month t.year t.month (omega (arith, t.month_in)));
    }
  ]
]

-- Every day from 1 March of the year 0 on has a date.
pub date_of : (n : ℕ) → DateOf n
unfolding day_number days_before_year days_before_month
date_of zero = record {
  year = 0;
  month = 0;
  day = 1;
  month_in = omega arith;
  day_in = omega arith;
  number = refl;
}
date_of (suc n) = next_date (date_of n)

-- For every number of days since 1 January 1970, from that of 1 March of the year 0 on,
-- `civil_from_days` gives a month of 1 to 12 and a day of 1 to 31.
pub civil_from_days_range :
    (n : ℕ)
    → (m : ℕ) × (d : ℕ) × (civil_from_days (pos n -ℤ pos 719468) ≡ (pos m, pos d))
      × (1 ≤ m)
      × (m ≤ 12)
      × (1 ≤ d)
      × (d ≤ 31)
civil_from_days_range n =
    let t = date_of n in
    (
      month_number t.month,
      t.day,
      ap (λ (k : ℕ). civil_from_days (pos k -ℤ pos 719468)) (sym t.number)
          ∙ civil_from_days-day_number t.year t.month t.day t.month_in t.day_in.0 t.day_in.1,
      ground (arith, t.month_in),
      ground (arith, t.month_in),
      t.day_in.0,
      omega (arith, t.day_in, month_days t.year t.month),
    )
