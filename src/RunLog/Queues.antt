-- ===== src/RunLog/Queues.antt =====
-- What becomes of the entries in the queues of src/run_log.rs.
use nanolog_rs.Prelude.{
  ℕ, zero, suc, ◌+◌, ◌-◌, ◌*◌, ◌^◌, ◌≤◌, ◌<◌, ◌≡◌, ◌⊎◌, refl, sym, ap, subst, ◌∙◌, inl, inr, Option,
  none, some, List, [], ◌∷◌, ◌++◌, length, drop, map, append_assoc, append-nil, arith,
}
use nanolog_rs.Prelude.Words.{u32}
use nanolog_rs.Prelude.Outcome.{ok}
use nanolog_rs.Spsc.{Shared, Producer, Consumer, Pushed, done, full, next_power_of_two}
use nanolog_rs.Spsc.Lifetime.{ring_buffer_lem}
use nanolog_rs.Spsc.Inv.{Inv, contents, pow_range}
use nanolog_rs.Spsc.Refine.{Pops, pop_refines, PushesValue, push_refines, length-contents}
use nanolog_rs.Spsc
use nanolog_rs.RunLog.{QState, RegMsg, pops, push, pop_all, empty_all, register, turn, init_logger}

Option-cases : {A : Type 0} (r : Option A) → (r ≡ none) ⊎ ((x : A) × (r ≡ some x))
Option-cases none = inl refl
Option-cases (some x) = inr (x, refl)

Pushed-cases : {A : Type 0} (r : Pushed A) → (r ≡ done) ⊎ ((x : A) × (r ≡ full x))
Pushed-cases done = inl refl
Pushed-cases (full x) = inr (x, refl)

drop-nil : {A : Type 0} (n : ℕ) → drop {A = A} n [] ≡ []
drop-nil zero = refl
drop-nil (suc n) = refl

length-drop : {A : Type 0} (n : ℕ) (xs : List A) → length (drop n xs) ≡ length xs - n
length-drop zero xs = omega arith
length-drop (suc n) [] = omega arith
length-drop (suc n) (x ∷ xs) = omega (arith, length-drop n xs)

-- How often the consumer pops in all.
abbrev pub pop_count : List ℕ → ℕ
pop_count [] = 0
pop_count (n ∷ ns) = n + pop_count ns

module _ {T : Type 0} {log : ℕ} where
  -- What `pop` leaves, by its answer.
  pop-Pops :
      {s : Shared T} {p : Producer} {c : Consumer} (inv : Inv log s p c) (r : Option ℕ)
      → (Spsc.pop s c).0 ≡ r
      → Pops log (contents inv) p r (Spsc.pop s c).1 (Spsc.pop s c).2
  pop-Pops {s} {p} {c} inv r e =
      subst (λ r. Pops log (contents inv) p r (Spsc.pop s c).1 (Spsc.pop s c).2) e (pop_refines inv)

  pops_lem :
      (n : ℕ) {s : Shared T} {p : Producer} {c : Consumer} (inv : Inv log s p c)
      → (inv' : Inv log (pops n s c).0 p (pops n s c).1) × (contents inv' ≡ drop n (contents inv))
  unfolding pops
  pops_lem zero inv = (inv, refl)
  pops_lem (suc n) {s} {p} {c} inv = elim (Option-cases (Spsc.pop s c).0) [
    | inl e ↦
        let (nil, inv', left) = pop-Pops inv none e in
        let (inv'', rest) = pops_lem n inv' in
        (inv'', rest ∙ ap (drop n) left ∙ drop-nil n ∙ ap (drop (suc n)) (sym nil))
    | inr (x, e) ↦
        let (v, inv', first, zero_is) = pop-Pops inv (some x) e in
        let (inv'', rest) = pops_lem n inv' in (inv'', rest ∙ ap (drop (suc n)) (sym first))
  ]

  pop_all_lem :
      (k : ℕ) {s : Shared T} {p : Producer} {c : Consumer} (inv : Inv log s p c)
      → length (contents inv) < k
      → (s' : Shared T) × (c' : Consumer) × (pop_all k s c ≡ some (s', c'))
        × (inv' : Inv log s' p c') × (contents inv' ≡ [])
  unfolding pop_all
  pop_all_lem zero inv h = absurd (omega arith)
  pop_all_lem (suc k) {s} {p} {c} inv h = elim (Option-cases (Spsc.pop s c).0) [
    | inl e ↦
        let (nil, inv', left) = pop-Pops inv none e in
        ((Spsc.pop s c).1, (Spsc.pop s c).2, rw (pop_all, e) refl, inv', left)
    | inr (x, e) ↦
        let (v, inv', first, zero_is) = pop-Pops inv (some x) e in
        let (s', c', e', inv'', rest) = pop_all_lem k inv' (omega (arith, ap length first)) in
        (s', c', rw (pop_all, e) e', inv'', rest)
  ]

  push-PushesValue :
      {s : Shared T} {p : Producer} {c : Consumer} (inv : Inv log s p c) (v : T) (r : Pushed T)
      → (Spsc.push v s p).0 ≡ r
      → PushesValue inv v r (Spsc.push v s p).1 (Spsc.push v s p).2
  push-PushesValue {s} {p} inv v r e =
      subst (λ r. PushesValue inv v r (Spsc.push v s p).1 (Spsc.push v s p).2) e
        (push_refines inv v)

  not_full :
      (n : ℕ) {s : Shared T} {p : Producer} {c : Consumer} (inv : Inv log s p c)
      → length (drop n (contents inv)) ≡ 2 ^ log
      → n ≡ 0
  not_full n inv h = omega (
    arith,
    h,
    length-drop n (contents inv),
    length-contents inv,
    inv.window,
    inv.in_order,
    pow_range log inv.small,
  )

  -- `LoggerHandle::push` on a queue in a state that satisfies the invariant, full or not, returns as
  -- soon as the consumer pops at all between its attempts: what the queue holds then is what it held,
  -- less what was popped, with the entry behind it. It holds for any number of attempts that fail.
  pub push_ends :
      (ns : List ℕ) (v : T) {s : Shared T} {p : Producer} {c : Consumer} (inv : Inv log s p c)
      → 0 < pop_count ns
      → (s' : Shared T) × (p' : Producer) × (c' : Consumer) × (push ns v s p c ≡ some (s', p', c'))
        × (inv' : Inv log s' p' c') × (taken : ℕ) × (taken ≤ pop_count ns)
        × (contents inv' ≡ drop taken (contents inv) ++ (v ∷ []))
  unfolding push
  push_ends [] v inv h = absurd (omega arith)
  push_ends (n ∷ ns) v {s} {p} {c} inv h =
      let (inv1, popped) = pops_lem n inv in
      elim (Pushed-cases (Spsc.push v (pops n s c).0 p).0) [
        | inl e ↦
            let (less, inv', grown) = push-PushesValue inv1 v done e in
            (
              (Spsc.push v (pops n s c).0 p).1,
              (Spsc.push v (pops n s c).0 p).2,
              (pops n s c).1,
              rw (push, e) refl,
              inv',
              n,
              omega arith,
              grown ∙ ap (λ (t : List T). t ++ (v ∷ [])) popped,
            )
        | inr (w, e) ↦
            let (same, (filled, inv', kept)) = push-PushesValue inv1 v (full w) e in
            let none_popped = not_full n inv (ap length (sym popped) ∙ filled) in
            let before = kept ∙ popped ∙ ap (λ (k : ℕ). drop k (contents inv)) none_popped in
            let (s', p', c', e', inv'', taken, le, held) = push_ends ns v inv' (omega arith) in
            (
              s',
              p',
              c',
              rw (push, e)
                  (ap
                      (λ (x : T).
                        push ns x (Spsc.push v (pops n s c).0 p).1 (Spsc.push v (pops n s c).0 p).2
                          (pops n s c).1)
                      same
                    ∙ e'),
              inv'',
              taken,
              omega arith,
              held ∙ ap (λ (t : List T). drop taken t ++ (v ∷ [])) before,
            )
      ]

-- A queue whose two ends satisfy the invariant, with less than `k` entries.
pub record IsQueue {T : Type 0} (k : ℕ) (q : QState T) : Type 0 where
  pub log : ℕ
  pub prod : Producer
  pub inv : Inv log q.shared prod q.cons
  pub short : length (contents inv) < k

-- The queue `q` with nothing left in it, for the same producer and thread.
pub record Emptied {T : Type 0} {k : ℕ} {q : QState T} (h : IsQueue k q) (q' : QState T)
    : Type 0 where
  pub inv : Inv h.log q'.shared h.prod q'.cons
  pub nothing_left : contents inv ≡ []
  pub same_tid : q'.tid ≡ q.tid

abbrev pub AreQueues : {T : Type 0} → ℕ → List (QState T) → Type 0
AreQueues k [] = Unit
AreQueues k (q ∷ qs) = IsQueue k q × AreQueues k qs

abbrev pub AllEmptied :
    {T : Type 0} (k : ℕ) (qs : List (QState T)) → AreQueues k qs → List (QState T) → Type 0
AllEmptied k [] hs [] = Unit
AllEmptied k [] hs (q' ∷ qs') = ⊥
AllEmptied k (q ∷ qs) hs [] = ⊥
AllEmptied k (q ∷ qs) hs (q' ∷ qs') = Emptied hs.0 q' × AllEmptied k qs hs.1 qs'

-- The queues `rs` behind are emptied on their own.
empty_all-append :
    {T : Type 0} (k : ℕ) (qs : List (QState T)) (hs : AreQueues k qs) (rs : List (QState T))
    {rs' : List (QState T)}
    → empty_all k rs ≡ some rs'
    → (qs' : List (QState T)) × (empty_all k (qs ++ rs) ≡ some (qs' ++ rs'))
      × AllEmptied k qs hs qs'
unfolding empty_all
empty_all-append k [] hs rs e = ([], e, tt)
empty_all-append k (q ∷ qs) hs rs e =
    let (s', c', e1, inv', left) = pop_all_lem k hs.0.inv hs.0.short in
    let (qs', e2, rest) = empty_all-append k qs hs.1 rs e in
    (
      record q { shared = s'; cons = c' } ∷ qs',
      rw (empty_all, e1, e2) refl,
      (record { inv = inv'; nothing_left = left; same_tid = refl }, rest),
    )

empty_all_lem :
    {T : Type 0} (k : ℕ) (qs : List (QState T)) (hs : AreQueues k qs)
    → (qs' : List (QState T)) × (empty_all k qs ≡ some qs') × AllEmptied k qs hs qs'
unfolding empty_all
empty_all_lem k qs hs =
    let (qs', e, emptied) = empty_all-append k qs hs [] refl in
    (qs', ap (empty_all k) (sym (append-nil qs)) ∙ e ∙ ap (λ xs. some xs) (append-nil qs'), emptied)

-- What the backend makes of a registration.
abbrev pub registered : {T : Type 0} → RegMsg T → QState T
registered msg = record { shared = msg.shared; cons = msg.cons; head = none; tid = msg.tid }

register_lem :
    {T : Type 0} (msgs : List (RegMsg T)) (qs : List (QState T))
    → register msgs qs ≡ qs ++ map registered msgs
unfolding register
register_lem [] qs = sym (append-nil qs)
register_lem (msg ∷ msgs) qs =
    register_lem msgs (qs ++ (registered msg ∷ []))
    ∙ append_assoc qs (registered msg ∷ []) (map registered msgs)

-- A turn of `run` in src/run_log.rs, with queues that satisfy their invariant, and registrations that
-- have arrived of queues that satisfy it too, on fuel for one round more than any of them has entries:
-- it ends, and leaves first the queues that it had, in their order, and behind them those of the
-- registrations, oldest first, all of them empty and with their thread ids.
pub turn_empties :
    {T : Type 0} (k : ℕ) (msgs : List (RegMsg T)) (qs : List (QState T)) (hs : AreQueues k qs)
    (ms : AreQueues k (map registered msgs))
    → (old : List (QState T)) × (added : List (QState T)) × (turn k msgs qs ≡ some (old ++ added))
      × AllEmptied k qs hs old
      × AllEmptied k (map registered msgs) ms added
unfolding turn
turn_empties k msgs qs hs ms =
    let (added, e, emptied) = empty_all_lem k (map registered msgs) ms in
    let (old, e', emptied') = empty_all-append k qs hs (map registered msgs) e in
    (old, added, ap (empty_all k) (register_lem msgs qs) ∙ e', emptied', emptied)

-- For a capacity from 1 to 2 ^ 63 whose slots, rounded up to a power of two, take less than 2 ^ 63
-- bytes, `init_logger` returns the producer of an empty queue, and the message that it sends
-- registers that queue with the next thread id.
pub init_logger-IsQueue :
    {T : Type 0} (uninit : ℕ → T) (size_of capacity next_tid : ℕ)
    → 0 < size_of
    → 0 < capacity
    → capacity ≤ 2 ^ 63
    → next_power_of_two capacity * size_of < 2 ^ 63
    → (p : Producer) × (msg : RegMsg T) × (init_logger uninit size_of capacity next_tid
        ≡ ok (p, msg, u32 (next_tid + 1)))
      × (h : IsQueue 1 (registered msg)) × (h.prod ≡ p)
      × (contents h.inv ≡ [])
      × (msg.tid ≡ next_tid)
unfolding init_logger
init_logger-IsQueue uninit size_of capacity next_tid hs pos le room =
    let (log, s, p, c, e, up, down, inv, nil) =
      ring_buffer_lem uninit size_of capacity hs pos le room in
    (
      p,
      record { shared = s; cons = c; tid = next_tid },
      rw e refl,
      record { log = log; prod = p; inv = inv; short = rw nil (omega arith) },
      refl,
      nil,
      refl,
    )
