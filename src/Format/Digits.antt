-- ===== src/Format/Digits.antt =====
-- The digit tables of src/format.rs hold the decimal digits of their positions.
use nanolog_rs.Prelude.{
  dec_lt, lt→ltb, le→ltb, ltb, if◌then◌else◌, ℕ, zero, suc, ◌+◌, ◌*◌, ◌/◌, ◌%◌, ◌^◌, ◌≤◌, ◌<◌, ◌≡◌,
  refl, ap, ◌∙◌, arith, Bool, true, false, ◌&&◌, ◌==◌, List, [], ◌∷◌, ◌++◌, length, take, drop,
  Bool-cases, inl, inr,
}
use nanolog_rs.Prelude.Text.{codes}
use nanolog_rs.Prelude.Outcome.{Outcome, ok, panic, fault}
use nanolog_rs.Format.{
  dec_2digits_lut, copy_from, table_4digits, build_4digit_table, lut_msus, tid_entries, TidCache,
  filled_tid_cache, new_tid_cache, tid_text,
}

-- Decimal digits of a number of at most two, and of three, places.
abbrev pub two_digits : ℕ → List ℕ
two_digits v = (48 + v / 10) ∷ (48 + v % 10) ∷ []

abbrev pub three_digits : ℕ → List ℕ
three_digits v = (48 + v / 100) ∷ (48 + v / 10 % 10) ∷ (48 + v % 10) ∷ []

same_bytes : List ℕ → List ℕ → Bool
same_bytes [] [] = true
same_bytes [] (y ∷ ys) = false
same_bytes (x ∷ xs) [] = false
same_bytes (x ∷ xs) (y ∷ ys) = (x == y) && same_bytes xs ys

same_bytes_sound : (xs ys : List ℕ) → same_bytes xs ys ≡ true → xs ≡ ys
unfolding same_bytes
same_bytes_sound [] [] h = refl
same_bytes_sound [] (y ∷ ys) h = cc
same_bytes_sound (x ∷ xs) [] h = cc
same_bytes_sound (x ∷ xs) (y ∷ ys) h = ground (arith, same_bytes_sound xs ys)

copies : Outcome (List ℕ) → List ℕ → Bool
copies (ok xs) ys = same_bytes xs ys
copies panic ys = false
copies fault ys = false

copies_sound : (o : Outcome (List ℕ)) (ys : List ℕ) → copies o ys ≡ true → o ≡ ok ys
unfolding copies
copies_sound (ok xs) ys h = ap ok (same_bytes_sound xs ys h)
copies_sound panic ys h = cc
copies_sound fault ys h = cc

-- A test that holds at every number below `n`.
holds_below : ℕ → (ℕ → Bool) → Bool
holds_below zero p = true
holds_below (suc n) p = p n && holds_below n p

holds_below_sound : (n : ℕ) (p : ℕ → Bool) (x : ℕ) → holds_below n p ≡ true → x < n → p x ≡ true
unfolding holds_below
holds_below_sound zero p x h k = absurd (omega arith)
holds_below_sound (suc n) p x h k = ground (arith, holds_below_sound n p x)

two_digits_table :
    holds_below 100 (λ v. copies (copy_from dec_2digits_lut (v * 2) 2) (two_digits v)) ≡ true
unfolding holds_below copies same_bytes copy_from dec_2digits_lut
two_digits_table = refl

-- For a number below 100, its entry of `DEC_2DIGITS_LUT` is its two decimal digits.
pub dec_2digits_lem : (v : ℕ) → v < 100 → copy_from dec_2digits_lut (v * 2) 2 ≡ ok (two_digits v)
dec_2digits_lem v h = copies_sound _ _ (holds_below_sound 100 _ v two_digits_table h)

tid_table :
    holds_below 32 (λ t. copies (tid_text filled_tid_cache t) (codes "T=" ++ two_digits t)) ≡ true
unfolding holds_below copies same_bytes tid_text filled_tid_cache tid_entries dec_2digits_lut
    copy_from
tid_table = refl

length-tid_lut : length (filled_tid_cache.tid_lut) ≡ 128
unfolding filled_tid_cache tid_entries dec_2digits_lut
length-tid_lut = refl

beyond_tid_table : (tid : ℕ) → 32 ≤ tid → tid < 2 ^ 62 → tid_text filled_tid_cache tid ≡ fault
unfolding tid_text copy_from
beyond_tid_table tid h k = ground (arith, length-tid_lut)

pub filled_lem :
    (tid : ℕ)
    → tid < 2 ^ 62
    → tid_text filled_tid_cache tid
      ≡ (if ltb tid 32 then ok (codes "T=" ++ two_digits tid) else fault)
filled_lem tid h = elim (dec_lt tid 32) [
  | yes lt ↦ rw (lt→ltb tid 32 lt) (copies_sound _ _ (holds_below_sound 32 _ tid tid_table lt))
  | no ge ↦ rw (le→ltb tid 32 (omega arith)) (beyond_tid_table tid (omega arith) h)
]

-- `TidCache::new` returns a cache, or panics where four times `max_tid`, wrapped to 64 bits, is 2 ^ 63
-- or more. For an id below 2 ^ 62 that cache writes "T=" and two digits if the id is below 32; any
-- other is read from beyond the table, whatever `max_tid` was.
pub tid_text_lem :
    (max_tid tid : ℕ)
    → tid < 2 ^ 62
    → (c : TidCache) × (new_tid_cache max_tid
        ≡ (if ltb (max_tid * 4 % 2 ^ 64) (2 ^ 63) then ok c else panic))
      × (tid_text c tid ≡ (if ltb tid 32 then ok (codes "T=" ++ two_digits tid) else fault))
unfolding new_tid_cache
tid_text_lem max_tid tid h = (filled_tid_cache, refl, filled_lem tid h)

-- A cache that `new` returns is that one.
pub new_tid_cache_lem :
    (max_tid : ℕ) {c : TidCache} → new_tid_cache max_tid ≡ ok c → c ≡ filled_tid_cache
unfolding new_tid_cache
new_tid_cache_lem max_tid {c} e = elim (Bool-cases (ltb (max_tid * 4 % 2 ^ 64) (2 ^ 63))) [
  | inl fits ↦ let is = rw fits at e in cc
  | inr big ↦ let panics = rw big at e in absurd (ground (arith, panics))
]

length-table : (n i : ℕ) → length (table_4digits n i) ≡ n * 4
unfolding table_4digits
length-table zero i = refl
length-table (suc n) i = omega (arith, length-table n (i + 1))

hundreds :
    (i : ℕ)
    → i < 1000
    → (48 + i / 100 % 10) ∷ (48 + i / 10 % 10) ∷ (48 + i % 10) ∷ [] ≡ three_digits (i + 0)
hundreds i h = ground arith

-- Entry `j` of the table of four places.
table_entry :
    (n i j k : ℕ)
    → k ≡ j * 4
    → j < n
    → i + n ≤ 1000
    → take 4 (drop k (table_4digits n i)) ≡ b'.' ∷ three_digits (i + j)
unfolding table_4digits
table_entry zero i j k e h l = absurd (omega arith)
table_entry (suc n) i zero zero e h l = ground (arith, hundreds i (omega (arith, l)))
table_entry (suc n) i zero (suc k) e h l = absurd (omega arith)
table_entry (suc n) i (suc j) (suc (suc (suc (suc k)))) e h l =
    table_entry n (i + 1) j k (omega arith) (omega arith) (omega arith)
    ∙ ap (λ (x : ℕ). b'.' ∷ three_digits x) (omega arith)
table_entry (suc n) i (suc j) k e h l = absurd (omega arith)

small_shift : (v : ℕ) → v < 2 ^ 62 → v * 4 % 2 ^ 64 ≡ v * 4
small_shift v h = omega arith

table_copy :
    (v : ℕ)
    → v < 1000
    → copy_from build_4digit_table (v * 4 % 2 ^ 64) 4 ≡ ok (b'.' ∷ three_digits v)
unfolding copy_from build_4digit_table
table_copy v h =
    rw (small_shift v (omega arith)) ground
      (arith, length-table 1000 0, table_entry 1000 0 v (v * 4) refl h (omega arith))

-- For milliseconds and microseconds below 1000, `lut_msus` writes '.' and the three decimal digits of
-- the one, then '.' and those of the other.
pub lut_msus_lem :
    (ms us : ℕ)
    → ms < 1000
    → us < 1000
    → lut_msus ms us ≡ ok ((b'.' ∷ three_digits ms) ++ (b'.' ∷ three_digits us))
unfolding lut_msus
lut_msus_lem ms us h k = cc (table_copy ms h, table_copy us k)
