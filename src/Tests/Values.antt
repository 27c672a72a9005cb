-- ===== src/Tests/Values.antt =====
-- A queue of two slots that holds one value; neither thread knows how far the other has come.
use nanolog_rs.Prelude.{ℕ, ◌+◌, ◌*◌, ◌^◌, ◌≤◌, ◌<◌, ◌≡◌, refl, some, [], ◌∷◌, arith}
use nanolog_rs.Prelude.Outcome.{ok}
use nanolog_rs.Spsc.{
  Shared, Producer, Consumer, next_power_of_two, next_pow2_from, ring_buffer, push, pop, drop,
}
use nanolog_rs.Spsc.Inv.{Inv, contents}
use nanolog_rs.Spsc.Refine.{PushesValue, Pops, push_refines, pop_refines}
use nanolog_rs.Spsc.Lifetime.{next_power_of_two_lem, ring_buffer_lem, drop_lem}

abbrev shared : Shared ℕ
shared = record { tail = 2; head = 1; buffer = λ j. 10 + j; mask = 1 }

abbrev producer : Producer
producer = record { local_tail = 2; cached_head = 0; mask = 1 }

abbrev consumer : Consumer
consumer = record { local_head = 1; cached_tail = 1; mask = 1 }

abbrev one_value : Inv 1 shared producer consumer
one_value = record {
  taken = 1;
  put = 2;
  known_taken = 0;
  known_put = 1;
  small = omega arith;
  masks = (refl, refl, refl);
  tails = (refl, refl);
  heads = (refl, refl);
  caches = (refl, refl);
  in_order = (omega arith, omega arith, omega arith);
  window = omega arith;
}

push_refines_example : let (r, s, p) = push 7 shared producer in PushesValue one_value 7 r s p
push_refines_example = push_refines one_value 7

pop_refines_example : let (r, s, c) = pop shared consumer in Pops 1 (11 ∷ []) producer r s c
pop_refines_example = pop_refines one_value

drop_lem_example : drop 2 shared ≡ some (11 ∷ [])
drop_lem_example = drop_lem one_value 2 (omega arith)

next_power_of_two_lem_example :
    (l : ℕ) × (next_power_of_two 5 ≡ 2 ^ l) × (5 ≤ 2 ^ l) × (2 ^ l < 2 * 5)
next_power_of_two_lem_example = next_power_of_two_lem 5 (omega arith) (omega arith)

ring_buffer_lem_example :
    (log : ℕ) × (s : Shared ℕ) × (p : Producer) × (c : Consumer) × (ring_buffer (λ _. 0) 64 5
      ≡ ok (s, p, c))
    × (5 ≤ 2 ^ log)
    × (2 ^ log < 2 * 5)
    × (inv : Inv log s p c) × (contents inv ≡ [])
unfolding next_power_of_two next_pow2_from
ring_buffer_lem_example =
    ring_buffer_lem (λ _. 0) 64 5 (omega arith) (omega arith) (omega arith) (omega arith)
