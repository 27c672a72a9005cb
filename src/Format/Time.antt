-- ===== src/Format/Time.antt =====
-- `TimeCache` of src/format.rs writes the month, day and time of a second of the epoch.
use nanolog_rs.Prelude.{
  ℕ, ◌+◌, ◌-◌, ◌*◌, ◌/◌, ◌%◌, ◌^◌, ◌≤◌, ◌<◌, ◌≡◌, refl, sym, ap, ◌∙◌, ◌⊎◌, inl, inr, true, List, [],
  ◌∷◌, ◌++◌, overwrite, take, arith, Bool-cases,
}
use nanolog_rs.Prelude.Int.{ℤ, pos, negsuc, pos_part, ◌-ℤ◌, div_euclid, rem_euclid}
use nanolog_rs.Prelude.Outcome.{ok}
use nanolog_rs.Format.{
  Parts, split_utc, civil_from_days, TimeCache, new_time_cache, i64_max, put_2digits, put_parts,
  eq_ℤ, refresh_dt, time_len,
}
use nanolog_rs.Format.Dates.{civil_from_days_range}
use nanolog_rs.Format.Digits.{two_digits, dec_2digits_lem}

-- "MM-DD HH:MM:SS"
abbrev pub date_text : Parts → List ℕ
date_text t =
    two_digits t.month
    ++ (b'-' ∷ two_digits t.day)
    ++ (b' ' ∷ two_digits t.hour)
    ++ (b':' ∷ two_digits t.minute)
    ++ (b':' ∷ two_digits t.second)

pub record InRange (t : Parts) : Type 0 where
  pub month_in : (1 ≤ t.month) × (t.month ≤ 12)
  pub day_in : (1 ≤ t.day) × (t.day ≤ 31)
  pub hour_in : t.hour < 24
  pub minute_in : t.minute < 60
  pub second_in : t.second < 60

back : (k : ℕ) → pos (k + 719468) -ℤ pos 719468 ≡ pos k
unfolding ◌-ℤ◌
back k = ground arith

-- Every second from 1970 on has its parts in range.
pub split_utc-InRange : (n : ℕ) → InRange (split_utc (pos n))
unfolding split_utc div_euclid rem_euclid
split_utc-InRange n =
    let same : pos (n / 86400 + 719468) -ℤ pos 719468 ≡ pos (n / 86400) = back (n / 86400) in
    let (m, d, e, lo_m, hi_m, lo_d, hi_d) = civil_from_days_range (n / 86400 + 719468) in
    let e' : civil_from_days (pos (n / 86400)) ≡ (pos m, pos d) =
      ap civil_from_days (sym same) ∙ e in
    (record {
      month_in = rw e' (omega arith);
      day_in = rw e' (omega arith);
      hour_in = omega arith;
      minute_in = omega arith;
      second_in = omega arith;
    })

shift : (v : ℕ) → v < 100 → v * 2 % 2 ^ 32 ≡ v * 2
shift v h = omega arith

put_2digits_lem :
    (v at : ℕ) (buf : List ℕ)
    → v < 100
    → put_2digits v at buf ≡ ok (overwrite buf at (two_digits v))
unfolding put_2digits
put_2digits_lem v at buf h = rw (shift v h, dec_2digits_lem v h) refl

overwrite-nil : (xs : List ℕ) → overwrite xs 0 [] ≡ xs
overwrite-nil [] = refl
overwrite-nil (x ∷ xs) = refl

put_parts_lem :
    (t x : Parts) (rest : List ℕ)
    → InRange t
    → put_parts t (date_text x ++ rest) ≡ ok (date_text t ++ rest)
unfolding put_parts
put_parts_lem t x rest r =
    rw
      (
        put_2digits_lem t.month 0 _ (omega (arith, r.month_in)),
        put_2digits_lem t.day 3 _ (omega (arith, r.day_in)),
        put_2digits_lem t.hour 6 _ (omega (arith, r.hour_in)),
        put_2digits_lem t.minute 9 _ (omega (arith, r.minute_in)),
        put_2digits_lem t.second 12 _ (omega (arith, r.second_in)),
      )
      (ap (λ (xs : List ℕ). ok (date_text t ++ xs)) (overwrite-nil rest))

-- The cache holds the text of its second, or has none yet.
pub record IsCache (c : TimeCache) : Type 0 where
  pub parts : Parts
  pub rest : List ℕ
  pub buf_is : c.buf ≡ date_text parts ++ rest
  pub known : (c.sec ≡ i64_max) ⊎ (parts ≡ split_utc c.sec)

pub new_time_cache-IsCache : IsCache new_time_cache
unfolding new_time_cache
new_time_cache-IsCache = record {
  parts = record { month = 0; day = 0; hour = 0; minute = 0; second = 0 };
  rest = _;
  buf_is = refl;
  known = inl refl;
}

eq_ℤ_sound : (n : ℕ) (z : ℤ) → eq_ℤ (pos n) z ≡ true → z ≡ pos n
unfolding eq_ℤ
eq_ℤ_sound n (pos m) h = ap pos (ground arith)
eq_ℤ_sound n (negsuc m) h = absurd (ground arith)

-- A cache of a second holds its text.
known_text :
    (n : ℕ) (c : TimeCache) (i : IsCache c)
    → n < 2 ^ 63 - 1
    → c.sec ≡ pos n
    → i.parts ≡ split_utc (pos n)
known_text n c i h e = elim i.known [
  | inl none_yet ↦ absurd (omega (arith, ap pos_part (sym e ∙ none_yet)))
  | inr same ↦ same ∙ ap split_utc e
]

-- For a second from 1970 on and before the end of `i64`, and a new cache or one that was refreshed,
-- `refresh_dt` writes the text of the second's UTC month, day, hour, minute and second, each of two
-- digits, whether the second was in the cache or not, and leaves a cache of that second.
pub refresh_dt-IsCache :
    (n : ℕ) (c : TimeCache)
    → n < 2 ^ 63 - 1
    → IsCache c
    → (c' : TimeCache) × (refresh_dt (pos n) c ≡ ok (c', date_text (split_utc (pos n))))
      × IsCache c'
      × (c'.sec ≡ pos n)
unfolding refresh_dt
refresh_dt-IsCache n c h i = elim (Bool-cases (eq_ℤ (pos n) c.sec)) [
  | inl e ↦
      let same : c.sec ≡ pos n = eq_ℤ_sound n c.sec e in
      (
        c,
        rw e (
            ap (λ (t : List ℕ). ok (c, take time_len t)) i.buf_is
            ∙ ap (λ (p : Parts). ok (c, date_text p)) (known_text n c i h same)),
        i,
        same,
      )
  | inr e ↦
      let text : put_parts (split_utc (pos n)) c.buf
          ≡ ok (date_text (split_utc (pos n)) ++ i.rest) =
        rw i.buf_is (put_parts_lem (split_utc (pos n)) i.parts i.rest (split_utc-InRange n)) in
      (
        record { sec = pos n; buf = date_text (split_utc (pos n)) ++ i.rest },
        rw (e, text) refl,
        record { parts = split_utc (pos n); rest = i.rest; buf_is = refl; known = inr refl },
        refl,
      )
]
