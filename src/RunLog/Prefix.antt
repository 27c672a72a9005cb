-- ===== src/RunLog/Prefix.antt =====
-- The text that src/run_log.rs makes, against that of src/format.rs.
use nanolog_rs.Prelude.{
  ℕ, zero, suc, ◌+◌, ◌-◌, ◌^◌, ◌≤◌, ◌<◌, ◌≡◌, refl, sym, ap, ap₂, ◌∙◌, Option, none, some, List, [],
  ◌∷◌, ◌++◌, length, take, get_elem?, overwrite, take-overwrite, length-overwrite, length-append,
  arith,
}
use nanolog_rs.Prelude.Int.{pos}
use nanolog_rs.Prelude.Text.{codes}
use nanolog_rs.Prelude.Outcome.{ok}
use nanolog_rs.Prelude.Words.{u32}
use nanolog_rs.Format.{Parts, TimeCache, level_strs, refresh_dt, split_utc}
use nanolog_rs.Format.Digits
use nanolog_rs.Format.Time.{date_text, InRange, IsCache, split_utc-InRange, refresh_dt-IsCache}
use nanolog_rs.RunLog.{Tm, PrefixCache, level_str, two_digits, three_digits, refresh}

of_some : Option (List ℕ) → List ℕ
of_some none = []
of_some (some xs) = xs

-- The text of a level is that of `LEVEL_STRS`, and "unk  " for a number that is none.
pub level_str-level_strs :
    (l : ℕ) (text : List ℕ)
    → (get_elem? level_strs l ≡ some text → level_str l ≡ text)
      × (5 ≤ l → level_str l ≡ codes "unk  ")
unfolding level_str level_strs of_some
level_str-level_strs zero text = (ap of_some, λ h. absurd (omega arith))
level_str-level_strs (suc zero) text = (ap of_some, λ h. absurd (omega arith))
level_str-level_strs (suc (suc zero)) text = (ap of_some, λ h. absurd (omega arith))
level_str-level_strs (suc (suc (suc zero))) text = (ap of_some, λ h. absurd (omega arith))
level_str-level_strs (suc (suc (suc (suc zero)))) text = (ap of_some, λ h. absurd (omega arith))
level_str-level_strs (suc (suc (suc (suc (suc zero))))) text = (ap of_some, λ h. refl)
level_str-level_strs (suc (suc (suc (suc (suc (suc l)))))) text =
    (λ e. absurd (ground (arith, e)), λ h. refl)

two_digits_lem : (x : ℕ) → x < 100 → two_digits x ≡ Digits.two_digits x
unfolding two_digits
two_digits_lem x h = ap₂ (λ (a b : ℕ). a ∷ b ∷ []) (omega arith) (omega arith)

three_digits_lem : (x : ℕ) → x < 1000 → three_digits x ≡ Digits.three_digits x
unfolding three_digits
three_digits_lem x h =
    ap₂ ◌∷◌ (omega arith) (ap₂ (λ (a b : ℕ). a ∷ b ∷ []) (omega arith) (omega arith))

-- A buffer of 32 bytes that begins with `text`.
record Begins (text : List ℕ) (buf : List ℕ) : Type 0 where
  size : length buf ≡ 32
  begin : take (length text) buf ≡ text

overwrite-Begins :
    (text buf more : List ℕ) (at : ℕ)
    → Begins text buf
    → length text ≡ at
    → at + length more ≤ 32
    → Begins (text ++ more) (overwrite buf at more)
overwrite-Begins text buf more at b e h = record {
  size = length-overwrite buf at more ∙ b.size;
  begin =
      take-overwrite buf at more _ (length-append text more ∙ ap (λ k. k + length more) e)
        (omega (arith, b.size, length-append text more))
      ∙ ap (λ (t : List ℕ). t ++ more) (ap (λ k. take k buf) (sym e) ∙ b.begin);
}

-- Fields in the ranges that the C library documents, and the parts that they are.
pub record IsTm (t : Tm) : Type 0 where
  pub mon_in : t.tm_mon < 12
  pub mday_in : (1 ≤ t.tm_mday) × (t.tm_mday ≤ 31)
  pub hour_in : t.tm_hour < 24
  pub min_in : t.tm_min < 60
  pub sec_in : t.tm_sec ≤ 60

abbrev pub parts_of : Tm → Parts
parts_of t = record {
  month = t.tm_mon + 1;
  day = t.tm_mday;
  hour = t.tm_hour;
  minute = t.tm_min;
  second = t.tm_sec;
}

-- For a broken-down time in the documented ranges and a buffer of 32 bytes, `refresh` makes the
-- buffer begin with "MM-DD HH:MM:SS" of that time, and notes its length and the second.
pub refresh-date_text :
    (localtime_r : ℕ → Tm) (sec : ℕ) (c : PrefixCache)
    → length c.buf ≡ 32
    → IsTm (localtime_r sec)
    → let c' = refresh localtime_r sec c in
      (take c'.len c'.buf ≡ date_text (parts_of (localtime_r sec)))
      × (c'.len ≡ 14)
      × (c'.sec ≡ sec)
      × (length c'.buf ≡ 32)
unfolding refresh
refresh-date_text localtime_r sec c h t =
    let tm = localtime_r sec in
    let b0 : Begins [] c.buf = record { size = h; begin = refl } in
    let b1 = overwrite-Begins _ _ (Digits.two_digits (tm.tm_mon + 1)) 0 b0 refl (omega arith) in
    let b2 = overwrite-Begins _ _ (b'-' ∷ []) 2 b1 refl (omega arith) in
    let b3 = overwrite-Begins _ _ (Digits.two_digits tm.tm_mday) 3 b2 refl (omega arith) in
    let b4 = overwrite-Begins _ _ (b' ' ∷ []) 5 b3 refl (omega arith) in
    let b5 = overwrite-Begins _ _ (Digits.two_digits tm.tm_hour) 6 b4 refl (omega arith) in
    let b6 = overwrite-Begins _ _ (b':' ∷ []) 8 b5 refl (omega arith) in
    let b7 = overwrite-Begins _ _ (Digits.two_digits tm.tm_min) 9 b6 refl (omega arith) in
    let b8 = overwrite-Begins _ _ (b':' ∷ []) 11 b7 refl (omega arith) in
    let b9 = overwrite-Begins _ _ (Digits.two_digits tm.tm_sec) 12 b8 refl (omega arith) in
    let month : two_digits (u32 (tm.tm_mon + 1)) ≡ Digits.two_digits (tm.tm_mon + 1) =
      ap two_digits (omega (arith, t.mon_in))
      ∙ two_digits_lem (tm.tm_mon + 1) (omega (arith, t.mon_in)) in
    rw
      (
        month,
        two_digits_lem tm.tm_mday (omega (arith, t.mday_in)),
        two_digits_lem tm.tm_hour (omega (arith, t.hour_in)),
        two_digits_lem tm.tm_min (omega (arith, t.min_in)),
        two_digits_lem tm.tm_sec (omega (arith, t.sec_in)),
      )
      (b9.begin, refl, refl, b9.size)

-- Where `localtime_r` gives the parts of the second in UTC, the text that `refresh` makes is the one
-- that `refresh_dt` of src/format.rs makes, from any cache that is new or was refreshed.
pub refresh-refresh_dt :
    (localtime_r : ℕ → Tm) (sec : ℕ) (c : PrefixCache) (tc : TimeCache)
    → sec < 2 ^ 63 - 1
    → length c.buf ≡ 32
    → parts_of (localtime_r sec) ≡ split_utc (pos sec)
    → IsCache tc
    → let c' = refresh localtime_r sec c in
      (tc' : TimeCache) × (refresh_dt (pos sec) tc ≡ ok (tc', take c'.len c'.buf))
      × (tc'.sec ≡ pos sec)
refresh-refresh_dt localtime_r sec c tc hs hl utc i =
    let (tc', e, ic, at) = refresh_dt-IsCache sec tc hs i in
    let r : InRange (parts_of (localtime_r sec)) = rw utc (split_utc-InRange sec) in
    let t : IsTm (localtime_r sec) = record {
      mon_in = omega (arith, r.month_in);
      mday_in = r.day_in;
      hour_in = r.hour_in;
      min_in = r.minute_in;
      sec_in = omega (arith, r.second_in);
    } in
    let text = (refresh-date_text localtime_r sec c hl t).0 in
    (tc', e ∙ ap (λ (x : List ℕ). ok (tc', x)) (ap date_text (sym utc) ∙ sym text), at)
