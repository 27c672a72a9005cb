-- ===== src/Tests/Texts.antt =====
-- A buffer of four bytes that holds two, and entries of the tables.
use nanolog_rs.Prelude.{◌≡◌, refl, [], ◌∷◌, arith}
use nanolog_rs.Prelude.Int.{pos, ◌-ℤ◌}
use nanolog_rs.Prelude.Outcome.{ok, fault}
use nanolog_rs.BytesMut.{MyBytesMut, extend_from_slice}
use nanolog_rs.BytesMut.Text.{Holds, Extended, extend_from_slice-Extended}
use nanolog_rs.Format.{civil_from_days, TidCache, new_tid_cache, tid_text}
use nanolog_rs.Format.Civil.{civil_from_days-day_number, day_number}
use nanolog_rs.Format.Digits.{tid_text_lem}

abbrev ab : MyBytesMut
ab = record { inner = 97 ∷ 98 ∷ 0 ∷ 0 ∷ []; pos = 2 }

ab-Holds : Holds 4 (97 ∷ 98 ∷ []) ab
ab-Holds = record { size = refl; pos_is = refl; text_is = refl; fits = omega arith }

extend_from_slice-Extended_example : Extended 4 (97 ∷ 98 ∷ 99 ∷ []) (extend_from_slice (99 ∷ []) ab)
extend_from_slice-Extended_example = extend_from_slice-Extended ab-Holds (99 ∷ [])

-- 29 February 2000: years begin in March.
civil_from_days-day_number_example :
    civil_from_days (pos (day_number 1999 11 29) -ℤ pos 719468) ≡ (pos 2, pos 29)
civil_from_days-day_number_example =
    civil_from_days-day_number 1999 11 29 (omega arith) (omega arith) (omega arith)

tid_text_lem_example : (c : TidCache) × (new_tid_cache 64 ≡ ok c) × (tid_text c 40 ≡ fault)
tid_text_lem_example = tid_text_lem 64 40 (omega arith)
