-- ===== src/Format.antt =====
-- src/format.rs: text of times, thread ids and levels, through tables of digits.
pub mod Civil
pub mod Dates
pub mod Digits
pub mod Time
use nanolog_rs.Prelude.{
  ℕ, zero, suc, ◌+◌, ◌-◌, ◌*◌, ◌/◌, ◌%◌, Bool, List, [], ◌∷◌, ◌++◌, length, take, drop, overwrite,
  replicate, get_or, ltb, leb, if◌then◌else◌, not, ◌||◌, ◌^◌,
}
use nanolog_rs.Prelude.Text.{codes}
use nanolog_rs.Prelude.Int.{ℤ, pos, negsuc, ◌+ℤ◌, ◌-ℤ◌, ◌*ℤ◌, quot, div_euclid, rem_euclid, ltb_ℤ}
use nanolog_rs.Prelude.Outcome.{Outcome, ok, panic, fault, in_bounds, ◌>>=◌}

-- The steps of `civil_from_days`: the day of the 400-year era, the year of the era, the day of the
-- year from 1 March on, then month and day. The signed numbers stay plain integers: they are far
-- from the ends of `i64`.
unfoldable pub day_of_era : ℤ → ℤ
day_of_era z =
    let era = quot (if ltb_ℤ z (pos 0) then z -ℤ pos 146096 else z) 146097 in z -ℤ era *ℤ pos 146097

unfoldable pub year_of_era : ℤ → ℤ
year_of_era doe = quot (doe -ℤ quot doe 1460 +ℤ quot doe 36524 -ℤ quot doe 146096) 365

unfoldable pub day_of_year : ℤ → ℤ → ℤ
day_of_year doe yoe = doe -ℤ (pos 365 *ℤ yoe +ℤ quot yoe 4 -ℤ quot yoe 100)

unfoldable pub month_and_day : ℤ → ℤ × ℤ
month_and_day doy =
    let mp = quot (pos 5 *ℤ doy +ℤ pos 2) 153 in
    let d = doy -ℤ quot (pos 153 *ℤ mp +ℤ pos 2) 5 +ℤ pos 1 in
    let m = mp +ℤ (if ltb_ℤ mp (pos 10) then pos 3 else negsuc 8) in (m, d)

-- The month and the day, before their casts to `u32`, which `split_utc` makes.
unfoldable pub civil_from_days : ℤ → ℤ × ℤ
unfolding day_of_era year_of_era day_of_year month_and_day
civil_from_days days =
    let doe = day_of_era (days +ℤ pos 719468) in month_and_day (day_of_year doe (year_of_era doe))

-- The cast `as u32`.
abbrev pub u32_of : ℤ → ℕ
u32_of (pos n) = n % 2 ^ 32
u32_of (negsuc n) = 2 ^ 32 - 1 - n % 2 ^ 32

-- month, day, hour, minute, second
pub record Parts : Type 0 where
  pub month : ℕ
  pub day : ℕ
  pub hour : ℕ
  pub minute : ℕ
  pub second : ℕ

unfoldable pub split_utc : ℤ → Parts
split_utc secs =
    let sod = rem_euclid secs 86400 in
    let date = civil_from_days (div_euclid secs 86400) in
    record {
      month = u32_of date.0;
      day = u32_of date.1;
      hour = sod / 3600;
      minute = sod % 3600 / 60;
      second = sod % 60;
    }

-- `DEC_2DIGITS_LUT`
unfoldable pub dec_2digits_lut : List ℕ
dec_2digits_lut =
    codes
      "00010203040506070809101112131415161718192021222324252627282930313233343536373839404142434445464748495051525354555657585960616263646566676869707172737475767778798081828384858687888990919293949596979899"

-- `copy_nonoverlapping(lut.as_ptr().add(off), .., n)`: out of bounds it is undefined behaviour.
unfoldable pub copy_from : List ℕ → ℕ → ℕ → Outcome (List ℕ)
copy_from lut off n = in_bounds (leb (off + n) (length lut)) (ok (take n (drop off lut)))

-- The loop of `build_4digit_table` from `i` on, `n` entries: ".000" to ".999".
unfoldable pub table_4digits : ℕ → ℕ → List ℕ
table_4digits zero i = []
table_4digits (suc n) i =
    b'.' ∷ (48 + i / 100 % 10) ∷ (48 + i / 10 % 10) ∷ (48 + i % 10) ∷ table_4digits n (i + 1)

unfoldable pub build_4digit_table : List ℕ
unfolding table_4digits
build_4digit_table = table_4digits 1000 0

-- The eight bytes that `lut_msus` writes. The `debug_assert!`s are for debug builds.
unfoldable pub lut_msus : ℕ → ℕ → Outcome (List ℕ)
unfolding copy_from
lut_msus ms us = do
  a ← copy_from build_4digit_table (ms * 4 % 2 ^ 64) 4
  b ← copy_from build_4digit_table (us * 4 % 2 ^ 64) 4
  ok (a ++ b)

pub record TidCache : Type 0 where
  pub tid_lut : List ℕ

abbrev pub tid_len : ℕ
tid_len = 4

unfoldable pub tid_entries : ℕ → ℕ → List ℕ
tid_entries zero tid = []
tid_entries (suc n) tid =
    codes "T=" ++ (take 2 (drop (tid * 2) dec_2digits_lut) ++ tid_entries n (tid + 1))

-- The loop in `TidCache::new`, which fills 32 entries whatever `max_tid` is.
unfoldable pub filled_tid_cache : TidCache
unfolding tid_entries
filled_tid_cache = record { tid_lut = tid_entries 32 0 }

-- `max_tid` sets the capacity, in bytes; the product wraps, and a `Vec` of 2 ^ 63 bytes or more panics.
unfoldable pub new_tid_cache : ℕ → Outcome TidCache
unfolding filled_tid_cache
new_tid_cache max_tid =
    if ltb (max_tid * tid_len % 2 ^ 64) (2 ^ 63) then ok filled_tid_cache else panic

-- What `TidCache::write` copies.
unfoldable pub tid_text : TidCache → ℕ → Outcome (List ℕ)
unfolding copy_from
tid_text c tid = copy_from c.tid_lut (tid * 4 % 2 ^ 64) tid_len

pub record TimeCache : Type 0 where
  pub sec : ℤ
  pub buf : List ℕ

abbrev pub time_len : ℕ
time_len = 14

abbrev pub i64_max : ℤ
i64_max = pos (2 ^ 63 - 1)

unfoldable pub new_time_cache : TimeCache
new_time_cache = record {
  sec = i64_max;
  buf = overwrite (replicate 32 0) 0 (codes "00-00 00:00:00");
}

-- Two digits of a `u32` into the cached text.
unfoldable pub put_2digits : ℕ → ℕ → List ℕ → Outcome (List ℕ)
put_2digits v at buf = do
  text ← copy_from dec_2digits_lut (v * 2 % 2 ^ 32) 2
  ok (overwrite buf at text)

unfoldable pub put_parts : Parts → List ℕ → Outcome (List ℕ)
unfolding put_2digits
put_parts t buf = do
  b1 ← put_2digits (t.month) 0 buf
  b2 ← put_2digits (t.day) 3 b1
  b3 ← put_2digits t.hour 6 b2
  b4 ← put_2digits t.minute 9 b3
  put_2digits t.second 12 b4

unfoldable pub eq_ℤ : ℤ → ℤ → Bool
eq_ℤ a b = not (ltb_ℤ a b || ltb_ℤ b a)

-- The new cache, and the text that is copied out.
unfoldable pub refresh_dt : ℤ → TimeCache → Outcome (TimeCache × List ℕ)
unfolding eq_ℤ put_parts
refresh_dt curr_sec c = if eq_ℤ curr_sec c.sec then ok (c, take time_len c.buf) else do
  buf ← put_parts (split_utc curr_sec) c.buf
  ok (record { sec = curr_sec; buf = buf }, take time_len buf)

-- `LEVEL_STRS`; the escape byte is 27.
unfoldable pub level_strs : List (List ℕ)
level_strs =
    codes "trace"
    ∷ codes "debug"
    ∷ (27 ∷ (codes "[32minfo" ++ 27 ∷ codes "[m "))
    ∷ (27 ∷ (codes "[31mwarn" ++ 27 ∷ codes "[m "))
    ∷ (27 ∷ (codes "[31merror" ++ 27 ∷ codes "[m"))
    ∷ codes "unk  "
    ∷ []
