-- ===== src/Spsc.antt =====
-- src/spsc.rs: the bounded queue of `LogEntry` values between two threads, with cached indices.
-- The indices are `usize` words that only grow, and wrap; `& mask` takes one to a slot. The slots
-- are shared memory that is not initialised at first. `T` is the type of the values.
pub mod Inv
pub mod Refine
pub mod Lifetime
use nanolog_rs.Prelude.{
  ℕ, zero, suc, ◌+◌, ◌-◌, ◌*◌, ◌^◌, bit_and, Bool, true, false, Option, none, some, List, [], ◌∷◌,
  ltb, leb, ◌==◌, if◌then◌else◌,
}
use nanolog_rs.Prelude.Words.{add64, sub64}
use nanolog_rs.Prelude.Outcome.{Outcome, ok, panic, assert}

pub record Shared (T : Type 0) : Type 0 where
  pub tail : ℕ
  pub head : ℕ
  pub buffer : ℕ → T
  pub mask : ℕ

pub record Producer : Type 0 where
  pub local_tail : ℕ
  pub cached_head : ℕ
  pub mask : ℕ

pub record Consumer : Type 0 where
  pub local_head : ℕ
  pub cached_tail : ℕ
  pub mask : ℕ

-- `Result<(), T>`; `push_write` returns `Result<(), ()>`.
pub data Pushed (T : Type 0) : Type 0 where
  done : Pushed T
  full : T → Pushed T

-- `usize::next_power_of_two`, on fuel: the first power of two from `p` on that is not below `n`.
unfoldable pub next_pow2_from : ℕ → ℕ → ℕ → ℕ
next_pow2_from zero p n = p
next_pow2_from (suc fuel) p n =
    let rest = next_pow2_from fuel (2 * p) n in if leb n p then p else rest

unfoldable pub next_power_of_two : ℕ → ℕ
unfolding next_pow2_from
next_power_of_two n = next_pow2_from 64 1 n

module _ {T : Type 0} where
  -- `uninit` is what the slots hold at first. The allocation panics on more than `isize::MAX` bytes.
  unfoldable pub ring_buffer :
      (ℕ → T) → (size_of : ℕ) → ℕ → Outcome (Shared T × Producer × Consumer)
  unfolding next_power_of_two
  ring_buffer uninit size_of capacity =
      let mask = next_power_of_two capacity - 1 in
      assert (ltb 0 capacity) (
        assert (ltb (next_power_of_two capacity * size_of) (2 ^ 63)) (
          ok (
            record { tail = 0; head = 0; buffer = uninit; mask = mask },
            record { local_tail = 0; cached_head = 0; mask = mask },
            record { local_head = 0; cached_tail = 0; mask = mask },
          )))

  -- The end of `push` and `push_write`, where there is room: `f` is applied to the slot in place.
  unfoldable pub write_slot : (T → T) → Shared T → Producer → Shared T × Producer
  write_slot f s p =
      let i = bit_and p.local_tail p.mask in
      let new_tail = add64 p.local_tail 1 in
      (
        record s { buffer = λ j. if j == i then f (s.buffer j) else s.buffer j; tail = new_tail },
        record p { local_tail = new_tail },
      )

  -- The room test of both: against `cached_head`, and against `head` where that fails.
  unfoldable pub room : Shared T → Producer → Bool × Producer
  room s p =
      let fresh : Producer = record p { cached_head = s.head } in
      if ltb p.mask (sub64 p.local_tail p.cached_head)
      then (if ltb p.mask (sub64 p.local_tail s.head) then (false, fresh) else (true, fresh))
      else (true, p)

  unfoldable pub write_if : (T → T) → Shared T → Bool × Producer → Bool × Shared T × Producer
  unfolding write_slot
  write_if f s (true, p) = let (s', p') = write_slot f s p in (true, s', p')
  write_if f s (false, p) = (false, s, p)

  unfoldable pub push_write : (T → T) → Shared T → Producer → Bool × Shared T × Producer
  unfolding write_if room
  push_write f s p = write_if f s (room s p)

  unfoldable pub push : T → Shared T → Producer → Pushed T × Shared T × Producer
  unfolding write_if room
  push value s p =
      let (there, s', p') = write_if (λ old. value) s (room s p) in
      (if there then done else full value, s', p')

  -- The value is not read: `pop` returns `Some(0)`, a `u64`.
  unfoldable pub pop : Shared T → Consumer → Option ℕ × Shared T × Consumer
  pop s c =
      let new_head = add64 c.local_head 1 in
      let fresh : Consumer = record c { cached_tail = s.tail } in
      if c.local_head == c.cached_tail
      then (if c.local_head == s.tail
          then (none, s, fresh)
          else (some 0, record s { head = new_head }, record fresh { local_head = new_head }))
      else (some 0, record s { head = new_head }, record c { local_head = new_head })

  -- The loop of `drop`, on fuel: the values that are dropped in place, in order. `none` means that
  -- the fuel ran out.
  unfoldable pub drop_from : ℕ → Shared T → ℕ → Option (List T)
  drop_from zero s i = none
  drop_from (suc fuel) s i =
      let rest = drop_from fuel s (add64 i 1) in
      if i == s.tail
      then some []
      else (elim rest [ none ↦ none | some vs ↦ some (s.buffer (bit_and i s.mask) ∷ vs) ])

  unfoldable pub drop : ℕ → Shared T → Option (List T)
  unfolding drop_from
  drop fuel s = drop_from fuel s s.head

unfoldable pub capacity : Producer → ℕ
capacity p = p.mask + 1
