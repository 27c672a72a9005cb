-- ===== src/RunLog.antt =====
-- src/run_log.rs: the earlier logger over the bounded queues of src/spsc.rs. A handle pushes entries,
-- the backend's thread collects the queues of the handles and empties them in turn; what it would
-- print is commented out there. `T` is the type of the entries.
pub mod Queues
pub mod Prefix
pub mod Epoch
use nanolog_rs.Prelude.{
  ℕ, zero, suc, ◌+◌, ◌-◌, ◌/◌, ◌%◌, ◌^◌, Bool, Option, none, some, List, [], ◌∷◌, ◌++◌, overwrite,
  replicate,
}
use nanolog_rs.Prelude.Text.{codes}
use nanolog_rs.Prelude.Words.{u32}
use nanolog_rs.Prelude.Outcome.{Outcome, ok, ◌>>=◌}
use nanolog_rs.Spsc.{Shared, Producer, Consumer, Pushed, done, full, ring_buffer}
use nanolog_rs.Spsc

-- The two ends of a queue, as a handle and a `QState` share them; the consumer holds the queue.
pub record QState (T : Type 0) : Type 0 where
  pub shared : Shared T
  pub cons : Consumer
  pub head : Option T
  pub tid : ℕ

pub record RegMsg (T : Type 0) : Type 0 where
  pub shared : Shared T
  pub cons : Consumer
  pub tid : ℕ

module _ {T : Type 0} where
  -- The consumer's thread pops `n` times.
  unfoldable pub pops : ℕ → Shared T → Consumer → Shared T × Consumer
  pops zero s c = (s, c)
  pops (suc n) s c = let (x, s', c') = Spsc.pop s c in pops n s' c'

  -- `LoggerHandle::push`, which tries until there is room. The list says how often the consumer pops
  -- before each attempt; `none` means that no attempt of the list succeeds.
  unfoldable pub push :
      List ℕ → T → Shared T → Producer → Consumer → Option (Shared T × Producer × Consumer)
  unfolding pops
  push [] log_entry s p c = none
  push (n ∷ ns) log_entry s p c =
      let (s1, c1) = pops n s c in
      let (pushed, s', p') = Spsc.push log_entry s1 p in
      elim pushed [ done ↦ some (s', p', c1) | full e ↦ push ns e s' p' c1 ]

  -- `LoggerHandle::push_write`
  unfoldable pub push_write : (T → T) → Shared T → Producer → Bool × Shared T × Producer
  push_write f s p = Spsc.push_write f s p

  -- `while let Some(log_entry) = qs.cons.pop()`, on fuel.
  unfoldable pub pop_all : ℕ → Shared T → Consumer → Option (Shared T × Consumer)
  pop_all zero s c = none
  pop_all (suc k) s c =
      let (popped, s', c') = Spsc.pop s c in
      elim popped [ none ↦ some (s', c') | some x ↦ pop_all k s' c' ]

  -- `for qs in qs.iter_mut()`
  unfoldable pub empty_all : ℕ → List (QState T) → Option (List (QState T))
  unfolding pop_all
  empty_all k [] = some []
  empty_all k (q ∷ qs) = elim (pop_all k q.shared q.cons) [
    | none ↦ none
    | some (s', c') ↦ elim (empty_all k qs) [
      | none ↦ none
      | some qs' ↦ some (record q { shared = s'; cons = c' } ∷ qs')
    ]
  ]

  -- The messages that `try_recv` finds, oldest first.
  unfoldable pub register : List (RegMsg T) → List (QState T) → List (QState T)
  register [] qs = qs
  register (msg ∷ msgs) qs =
      register msgs
        (qs ++ (record { shared = msg.shared; cons = msg.cons; head = none; tid = msg.tid } ∷ []))

  -- One turn of the loop of `run`.
  unfoldable pub turn : ℕ → List (RegMsg T) → List (QState T) → Option (List (QState T))
  unfolding register empty_all
  turn k msgs qs = empty_all k (register msgs qs)

  -- `init_logger`: the handle's producer, the message to the backend, and `NEXT_TID`, which wraps.
  unfoldable pub init_logger :
      (ℕ → T) → (size_of : ℕ) → ℕ → (next_tid : ℕ) → Outcome (Producer × RegMsg T × ℕ)
  init_logger uninit size_of capacity next_tid = do
    ring ← ring_buffer uninit size_of capacity
    ok (ring.1, record { shared = ring.0; cons = ring.2; tid = next_tid }, u32 (next_tid + 1))

unfoldable pub level_str : ℕ → List ℕ
level_str zero = codes "trace"
level_str (suc zero) = codes "debug"
level_str (suc (suc zero)) = 27 ∷ (codes "[32minfo" ++ 27 ∷ codes "[m ")
level_str (suc (suc (suc zero))) = 27 ∷ (codes "[31mwarn" ++ 27 ∷ codes "[m ")
level_str (suc (suc (suc (suc zero)))) = 27 ∷ (codes "[31merror" ++ 27 ∷ codes "[m")
level_str (suc (suc (suc (suc (suc l))))) = codes "unk  "

-- `dst` is a slice of two or three bytes; the sums are `u8` and wrap.
unfoldable pub two_digits : ℕ → List ℕ
two_digits x = (48 + x / 10 % 256) % 256 ∷ (48 + x % 10 % 256) % 256 ∷ []

unfoldable pub three_digits : ℕ → List ℕ
three_digits x =
    (48 + x / 100 % 256) % 256 ∷ (48 + x / 10 % 10 % 256) % 256 ∷ (48 + x % 10 % 256) % 256 ∷ []

-- The fields of `libc::tm` that `refresh` reads, as bit patterns of `i32`.
pub record Tm : Type 0 where
  pub tm_mon : ℕ
  pub tm_mday : ℕ
  pub tm_hour : ℕ
  pub tm_min : ℕ
  pub tm_sec : ℕ

pub record PrefixCache : Type 0 where
  pub sec : ℕ
  pub buf : List ℕ
  pub len : ℕ

unfoldable pub new_prefix_cache : PrefixCache
new_prefix_cache = record { sec = 2 ^ 64 - 1; buf = replicate 32 0; len = 0 }

-- The branch for Unix. `localtime_r` is the C library's, for the bit pattern of a `time_t`.
unfoldable pub refresh : (ℕ → Tm) → ℕ → PrefixCache → PrefixCache
unfolding two_digits
refresh localtime_r sec c =
    let t = localtime_r sec in
    let b1 = overwrite c.buf 0 (two_digits (u32 (t.tm_mon + 1))) in
    let b2 = overwrite b1 2 (b'-' ∷ []) in
    let b3 = overwrite b2 3 (two_digits t.tm_mday) in
    let b4 = overwrite b3 5 (b' ' ∷ []) in
    let b5 = overwrite b4 6 (two_digits t.tm_hour) in
    let b6 = overwrite b5 8 (b':' ∷ []) in
    let b7 = overwrite b6 9 (two_digits t.tm_min) in
    let b8 = overwrite b7 11 (b':' ∷ []) in
    record { sec = sec; buf = overwrite b8 12 (two_digits t.tm_sec); len = 14 }
