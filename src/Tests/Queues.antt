-- ===== src/Tests/Queues.antt =====
-- The earlier logger: a full queue of two slots, and texts.
use native.Mathlib.Nat.{zero-div}
use nanolog_rs.Prelude.{
  ℕ, ◌+◌, ◌-◌, ◌*◌, ◌/◌, ◌≤◌, ◌≡◌, refl, none, some, List, [], ◌∷◌, ◌++◌, length, take, drop,
  get_elem?, arith, leb, if◌then◌else◌,
}
use nanolog_rs.Prelude.Text.{codes}
use nanolog_rs.Prelude.Int.{pos, div_euclid, rem_euclid, quot_ℤ, ◌+ℤ◌, ◌-ℤ◌, ◌*ℤ◌}
use nanolog_rs.Prelude.Outcome.{ok}
use nanolog_rs.Spsc.{Shared, Producer, Consumer, next_power_of_two, next_pow2_from}
use nanolog_rs.Spsc.Inv.{Inv, contents}
use nanolog_rs.Format.{
  level_strs, TimeCache, new_time_cache, refresh_dt, split_utc, civil_from_days, month_and_day,
  day_of_era, year_of_era, day_of_year,
}
use nanolog_rs.Format.Time.{new_time_cache-IsCache}
use nanolog_rs.RunLog.{
  QState, RegMsg, init_logger, push, turn, level_str, Tm, new_prefix_cache, refresh,
}
use nanolog_rs.RunLog.Queues.{
  IsQueue, AllEmptied, registered, init_logger-IsQueue, push_ends, turn_empties,
}
use nanolog_rs.RunLog.Prefix.{parts_of, level_str-level_strs, refresh-refresh_dt}
use nanolog_rs.RunLog.Epoch.{
  Double, IsDouble, TscClock, calibrate, tsc_to_epoch_ns, calibrate-tsc_to_epoch_ns,
}

abbrev shared : Shared ℕ
shared = record { tail = 3; head = 1; buffer = λ j. 10 + j; mask = 1 }

abbrev producer : Producer
producer = record { local_tail = 3; cached_head = 1; mask = 1 }

abbrev consumer : Consumer
consumer = record { local_head = 1; cached_tail = 1; mask = 1 }

abbrev two_values : Inv 1 shared producer consumer
two_values = record {
  taken = 1;
  put = 3;
  known_taken = 1;
  known_put = 1;
  small = omega arith;
  masks = (refl, refl, refl);
  tails = (refl, refl);
  heads = (refl, refl);
  caches = (refl, refl);
  in_order = (omega arith, omega arith, omega arith);
  window = omega arith;
}

-- The first attempt finds the queue full, then the consumer pops once.
push_ends_example :
    (s : Shared ℕ) × (p : Producer) × (c : Consumer) × (push (0 ∷ 1 ∷ []) 7 shared producer consumer
      ≡ some (s, p, c))
    × (inv : Inv 1 s p c) × (taken : ℕ) × (taken ≤ 1)
    × (contents inv ≡ drop taken (11 ∷ 10 ∷ []) ++ (7 ∷ []))
push_ends_example = push_ends (0 ∷ 1 ∷ []) 7 two_values (omega arith)

abbrev old_queue : QState ℕ
old_queue = record { shared = shared; cons = consumer; head = none; tid = 1 }

abbrev message : RegMsg ℕ
message = record { shared = shared; cons = consumer; tid = 2 }

is_queue : (tid : ℕ) → IsQueue 3 (record old_queue { tid = tid })
is_queue tid = record { log = 1; prod = producer; inv = two_values; short = omega arith }

turn_empties_example :
    (old : List (QState ℕ)) × (added : List (QState ℕ)) × (turn 3 (message ∷ []) (old_queue ∷ [])
      ≡ some (old ++ added))
    × AllEmptied 3 (old_queue ∷ []) (is_queue 1, tt) old
    × AllEmptied 3 (registered message ∷ []) (is_queue 2, tt) added
turn_empties_example =
    turn_empties 3 (message ∷ []) (old_queue ∷ []) (is_queue 1, tt) (is_queue 2, tt)

init_logger-IsQueue_example :
    (p : Producer) × (msg : RegMsg ℕ) × (init_logger (λ _. 0) 280 100 1 ≡ ok (p, msg, 2))
    × (h : IsQueue 1 (registered msg)) × (h.prod ≡ p)
    × (contents h.inv ≡ [])
    × (msg.tid ≡ 1)
unfolding next_power_of_two next_pow2_from
init_logger-IsQueue_example =
    init_logger-IsQueue (λ _. 0) 280 100 1 (omega arith) (omega arith) (omega arith) (omega arith)

level_str-level_strs_example :
    (get_elem? level_strs 1 ≡ some (codes "debug") → level_str 1 ≡ codes "debug")
    × (5 ≤ 1 → level_str 1 ≡ codes "unk  ")
level_str-level_strs_example = level_str-level_strs 1 (codes "debug")

-- The C library in UTC.
abbrev utc : ℕ → Tm
utc sec = record {
  tm_mon = (split_utc (pos sec)).month - 1;
  tm_mday = (split_utc (pos sec)).day;
  tm_hour = (split_utc (pos sec)).hour;
  tm_min = (split_utc (pos sec)).minute;
  tm_sec = (split_utc (pos sec)).second;
}

utc_len : length new_prefix_cache.buf ≡ 32
unfolding new_prefix_cache
utc_len = refl

utc_parts : parts_of (utc 86461) ≡ split_utc (pos 86461)
unfolding split_utc civil_from_days month_and_day day_of_era year_of_era day_of_year div_euclid
    rem_euclid quot_ℤ ◌+ℤ◌ ◌-ℤ◌ ◌*ℤ◌
utc_parts = refl

refresh-refresh_dt_example :
    (c : TimeCache) × (refresh_dt (pos 86461) new_time_cache
      ≡ ok (
        c,
        take (refresh utc 86461 new_prefix_cache).len (refresh utc 86461 new_prefix_cache).buf,
      ))
    × (c.sec ≡ pos 86461)
refresh-refresh_dt_example =
    refresh-refresh_dt utc 86461 new_prefix_cache new_time_cache (omega arith) utc_len utc_parts
      new_time_cache-IsCache

-- Whole numbers for floating-point ones, with 0 for a quotient by 0.
abbrev whole : Double
whole = record {
  D = ℕ;
  of_u64 = λ n. n;
  to_u64 = λ n. n;
  mul = λ x y. x * y;
  div = λ x y. x / y;
  max = λ x y. if leb x y then y else x;
  giga = 1000000000;
  zero = 0;
}

zero_div : (x : ℕ) → 0 / x ≡ 0
zero_div x = zero-div x

whole-IsDouble : IsDouble whole
whole-IsDouble = record { zero_giga = refl; zero_over = λ x. ground (arith, zero_div x) }

calibrate-tsc_to_epoch_ns_example :
    (c : TscClock ℕ) × (calibrate whole (some 5000) 100 30000100 10000000 ≡ ok c)
    × (tsc_to_epoch_ns whole c 30000100 ≡ 5000)
calibrate-tsc_to_epoch_ns_example =
    calibrate-tsc_to_epoch_ns whole-IsDouble 5000 100 30000100 10000000 (omega arith) (omega arith)
