-- ===== src/Format/Civil.antt =====
-- The date of `civil_from_days` in src/format.rs is the date of the Gregorian calendar.
use nanolog_rs.Prelude.{
  ℕ, zero, suc, ◌+◌, ◌-◌, ◌*◌, ◌/◌, ◌%◌, ◌≤◌, ◌<◌, ◌≡◌, refl, ap, ◌∙◌, arith, Bool, ◌&&◌, ◌||◌, not,
  ltb, ◌==◌, if◌then◌else◌,
}
use nanolog_rs.Prelude.Int.{pos, ◌+ℤ◌, ◌-ℤ◌, ◌*ℤ◌, quot}
use nanolog_rs.Format.{day_of_era, year_of_era, day_of_year, month_and_day, civil_from_days}

-- The calendar, independently of the code. Years here begin on 1 March: year `y` is the twelve
-- months from March of the year `y`, so its February is that of the year `y + 1`.
abbrev pub is_leap : ℕ → Bool
is_leap y = (y % 4 == 0) && (not (y % 100 == 0) || (y % 400 == 0))

abbrev pub days_in_year : ℕ → ℕ
days_in_year y = 365 + (if is_leap (suc y) then 1 else 0)

-- Months are counted from March, which is 0.
abbrev pub days_in_month : ℕ → ℕ → ℕ
days_in_month y zero = 31
days_in_month y (suc zero) = 30
days_in_month y (suc (suc zero)) = 31
days_in_month y (suc (suc (suc zero))) = 30
days_in_month y (suc (suc (suc (suc zero)))) = 31
days_in_month y (suc (suc (suc (suc (suc zero))))) = 31
days_in_month y (suc (suc (suc (suc (suc (suc zero)))))) = 30
days_in_month y (suc (suc (suc (suc (suc (suc (suc zero))))))) = 31
days_in_month y (suc (suc (suc (suc (suc (suc (suc (suc zero)))))))) = 30
days_in_month y (suc (suc (suc (suc (suc (suc (suc (suc (suc zero))))))))) = 31
days_in_month y (suc (suc (suc (suc (suc (suc (suc (suc (suc (suc zero)))))))))) = 31
days_in_month y _ = 28 + (if is_leap (suc y) then 1 else 0)

unfoldable pub days_before_year : ℕ → ℕ
days_before_year zero = 0
days_before_year (suc y) = days_before_year y + days_in_year y

unfoldable pub days_before_month : ℕ → ℕ → ℕ
days_before_month y zero = 0
days_before_month y (suc m) = days_before_month y m + days_in_month y m

-- Days from 1 March of the year 0 to a date.
unfoldable pub day_number : ℕ → ℕ → ℕ → ℕ
day_number y m d = days_before_year y + days_before_month y m + (d - 1)

-- January is 1.
abbrev pub month_number : ℕ → ℕ
month_number m = if ltb m 10 then m + 3 else m - 9

days_before_year_lem : (y : ℕ) → days_before_year y ≡ 365 * y + y / 4 - y / 100 + y / 400
unfolding days_before_year
days_before_year_lem zero = refl
days_before_year_lem (suc y) = ground (arith, days_before_year_lem y)

-- Month `m` starts on day `(153 * m + 2) / 5` of the year, and no day of it is taken for another's.
month_found :
    (y m d : ℕ)
    → m < 12
    → d < days_in_month y m
    → (days_before_month y m ≡ (153 * m + 2) / 5)
      × ((5 * ((153 * m + 2) / 5 + d) + 2) / 153 ≡ m)
      × ((153 * m + 2) / 5 + d < days_in_year y)
unfolding days_before_month
month_found y zero d h k = ground arith
month_found y (suc zero) d h k = ground arith
month_found y (suc (suc zero)) d h k = ground arith
month_found y (suc (suc (suc zero))) d h k = ground arith
month_found y (suc (suc (suc (suc zero)))) d h k = ground arith
month_found y (suc (suc (suc (suc (suc zero))))) d h k = ground arith
month_found y (suc (suc (suc (suc (suc (suc zero)))))) d h k = ground arith
month_found y (suc (suc (suc (suc (suc (suc (suc zero))))))) d h k = ground arith
month_found y (suc (suc (suc (suc (suc (suc (suc (suc zero)))))))) d h k = ground arith
month_found y (suc (suc (suc (suc (suc (suc (suc (suc (suc zero))))))))) d h k = ground arith
month_found y (suc (suc (suc (suc (suc (suc (suc (suc (suc (suc zero)))))))))) d h k = ground arith
month_found y (suc (suc (suc (suc (suc (suc (suc (suc (suc (suc (suc zero))))))))))) d h k =
    ground arith
month_found y (suc (suc (suc (suc (suc (suc (suc (suc (suc (suc (suc (suc m)))))))))))) d h k =
    absurd (omega arith)

-- The day of the era on which year `y` of the era starts, on 1 March.
abbrev year_start : ℕ → ℕ
year_start y = 365 * y + y / 4 - y / 100

abbrev scaled : ℕ → ℕ
scaled doe = doe - doe / 1460 + doe / 36524 - doe / 146096

-- The year of the era is found from any of its days.
year_found : (y doy : ℕ) → y < 400 → doy < days_in_year y → scaled (year_start y + doy) / 365 ≡ y
year_found y doy h k = ground arith

-- The steps of the code on natural numbers.
day_of_era_lem : (n : ℕ) → day_of_era (pos n -ℤ pos 719468 +ℤ pos 719468) ≡ pos (n % 146097)
unfolding day_of_era ◌+ℤ◌ ◌-ℤ◌ ◌*ℤ◌ quot
day_of_era_lem n = ground arith

year_of_era_lem : (doe : ℕ) → year_of_era (pos doe) ≡ pos (scaled doe / 365)
unfolding year_of_era ◌+ℤ◌ ◌-ℤ◌ quot
year_of_era_lem doe = ground arith

day_of_year_lem : (y doy : ℕ) → day_of_year (pos (year_start y + doy)) (pos y) ≡ pos doy
unfolding day_of_year ◌+ℤ◌ ◌-ℤ◌ ◌*ℤ◌ quot
day_of_year_lem y doy = ground arith

month_and_day_lem :
    (m d : ℕ)
    → m < 12
    → (5 * ((153 * m + 2) / 5 + d) + 2) / 153 ≡ m
    → month_and_day (pos ((153 * m + 2) / 5 + d)) ≡ (pos (month_number m), pos (d + 1))
unfolding month_and_day ◌+ℤ◌ ◌-ℤ◌ ◌*ℤ◌ quot
month_and_day_lem m d h e = ground arith

-- Every 400 years the calendar repeats.
era_split : (y : ℕ) → days_before_year y ≡ 146097 * (y / 400) + year_start (y % 400)
era_split y = omega (arith, days_before_year_lem y)

days_in_year_era : (y : ℕ) → days_in_year (y % 400) ≡ days_in_year y
days_in_year_era y = ground arith

era_short : (y doy : ℕ) → y < 400 → doy < days_in_year y → year_start y + doy < 146097
era_short y doy h k = ground arith

-- For every date of the Gregorian calendar from 1 March of the year 0 on, years and months being
-- counted from March, `civil_from_days` takes its number of days since 1 January 1970 to its month
-- and day.
pub civil_from_days-day_number :
    (y m d : ℕ)
    → m < 12
    → 1 ≤ d
    → d ≤ days_in_month y m
    → civil_from_days (pos (day_number y m d) -ℤ pos 719468) ≡ (pos (month_number m), pos d)
unfolding civil_from_days day_number
civil_from_days-day_number y m d h k l =
    ap month_and_day (ap (λ z. day_of_year z (year_of_era z)) doe_is ∙ doy_is)
    ∙ month_and_day_lem m (d - 1) h month.1
    ∙ ap (λ (x : ℕ). (pos (month_number m), pos x)) (omega arith)
  where
    doy : ℕ
    doy = (153 * m + 2) / 5 + (d - 1)

    month :
        (days_before_month y m ≡ (153 * m + 2) / 5)
        × ((5 * ((153 * m + 2) / 5 + (d - 1)) + 2) / 153 ≡ m)
        × ((153 * m + 2) / 5 + (d - 1) < days_in_year y)
    month = month_found y m (d - 1) h (omega arith)

    in_year : doy < days_in_year (y % 400)
    in_year = rw (days_in_year_era y) month.2

    doe_is :
        day_of_era (pos (day_number y m d) -ℤ pos 719468 +ℤ pos 719468)
        ≡ pos (year_start (y % 400) + doy)
    doe_is =
        day_of_era_lem (day_number y m d)
        ∙ ap pos
            (omega (arith, era_split y, month.0, era_short (y % 400) doy (omega arith) in_year))

    doy_is :
        day_of_year
          (pos (year_start (y % 400) + doy))
          (year_of_era (pos (year_start (y % 400) + doy)))
        ≡ pos doy
    doy_is =
        ap (day_of_year (pos (year_start (y % 400) + doy))) (
          year_of_era_lem (year_start (y % 400) + doy)
          ∙ ap pos (year_found (y % 400) doy (omega arith) in_year))
        ∙ day_of_year_lem (y % 400) doy
