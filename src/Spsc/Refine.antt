-- ===== src/Spsc/Refine.antt =====
-- The queue of src/spsc.rs is a bounded queue: whatever the two threads know of each other, a push
-- is refused exactly when it is full, and a pop finds nothing exactly when it is empty.
use nanolog_rs.Prelude.{
  ℕ, zero, suc, ◌+◌, ◌-◌, ◌%◌, ◌^◌, ◌≤◌, ◌<◌, ◌≡◌, ◌≢◌, refl, ap, ap₂, ◌∙◌, fun_ext, Bool, true,
  false, Option, none, some, List, [], ◌∷◌, ◌++◌, arith, bit_and, ◌==◌, ltb, if◌then◌else◌, length,
  eq→==, ne→==, lt→ltb, le→ltb, dec_lt, ℕ_discrete,
}
use nanolog_rs.Prelude.Words.{add64}
use nanolog_rs.Spsc.{
  Shared, Producer, Consumer, Pushed, done, full, write_slot, room, write_if, push_write, push, pop,
}
use nanolog_rs.Spsc.Inv.{
  Inv, pow_range, slot_of, window, contents, length-window, window-write, sub64_lem, add64_lem,
}

module _ {T : Type 0} {log : ℕ} {s : Shared T} {p : Producer} {c : Consumer}
    (inv : Inv log s p c) where
  open inv use {taken, put, known_taken, known_put, small, masks, tails, heads, caches, in_order}

  -- What the producer knows after its test.
  abbrev known : ℕ
  known = if ltb put (known_taken + 2 ^ log) then known_taken else taken

  abbrev knowing : Producer
  knowing = if ltb put (known_taken + 2 ^ log) then p else record p { cached_head = s.head }

  room_lem : room s p ≡ (ltb put (taken + 2 ^ log), knowing)
  unfolding room
  room_lem = ground (
    arith,
    pow_range log small,
    masks,
    tails,
    heads,
    caches,
    in_order,
    inv.window,
    sub64_lem put known_taken,
    sub64_lem put taken,
  )

  known-le : (known ≤ taken) × (put < taken + 2 ^ log → put < known + 2 ^ log)
  known-le = ground (arith, in_order)

  knowing-fields :
      (knowing.local_tail ≡ put % 2 ^ 64)
      × (knowing.cached_head ≡ known % 2 ^ 64)
      × (knowing.mask ≡ 2 ^ log - 1)
  knowing-fields = ground (arith, masks, tails, heads, caches)

  -- With room, the next slot is written and both tails go on.
  written-Inv :
      (f : T → T)
      → put < taken + 2 ^ log
      → Inv log (write_slot f s knowing).0 (write_slot f s knowing).1 c
  unfolding write_slot
  written-Inv f h = record {
    taken = taken;
    put = put + 1;
    known_taken = known;
    known_put = known_put;
    small = small;
    masks = (masks.0, knowing-fields.2, masks.2);
    tails = (next, next);
    heads = heads;
    caches = (knowing-fields.1, caches.1);
    in_order = omega (arith, known-le, in_order);
    window = omega (arith, known-le.1 h);
  }
    where
      next : add64 knowing.local_tail 1 ≡ (put + 1) % 2 ^ 64
      next = rw knowing-fields.0 (add64_lem put)

  -- Without, only the producer's knowledge changes.
  refused-Inv : taken + 2 ^ log ≤ put → Inv log s knowing c
  refused-Inv h = record {
    taken = taken;
    put = put;
    known_taken = known;
    known_put = known_put;
    small = small;
    masks = (masks.0, knowing-fields.2, masks.2);
    tails = (tails.0, knowing-fields.0);
    heads = heads;
    caches = (knowing-fields.1, caches.1);
    in_order = omega (arith, known-le, in_order);
    window = ground (arith, inv.window, in_order);
  }

  slot : bit_and knowing.local_tail knowing.mask ≡ put % 2 ^ log
  slot = rw (knowing-fields.0, knowing-fields.2) (slot_of log put small)

  -- The buffer that `write_slot` leaves: one slot holds what `f` makes of its old value.
  buffer-write :
      (f : T → T) (j : ℕ)
      → (write_slot f s knowing).0.buffer j
        ≡ (if j == put % 2 ^ log then f (s.buffer (put % 2 ^ log)) else s.buffer j)
  unfolding write_slot
  buffer-write f j =
      rw slot (elim (ℕ_discrete j (put % 2 ^ log)) [ yes e ↦ rw e refl | no ne ↦ ground arith ])

  contents-written :
      (f : T → T) (h : put < taken + 2 ^ log)
      → contents (written-Inv f h) ≡ contents inv ++ (f (s.buffer (put % 2 ^ log)) ∷ [])
  unfolding written-Inv
  contents-written f h =
      ap₂ (λ (b : ℕ → T) (k : ℕ). window b (2 ^ log) taken k) (fun_ext (buffer-write f)) count
      ∙ window-write s.buffer (2 ^ log) (f (s.buffer (put % 2 ^ log))) taken (put - taken) put
          (pow_range log small).0 (omega (arith, in_order)) (omega (arith, in_order))
    where
      count : put + 1 - taken ≡ suc (put - taken)
      count = omega (arith, in_order)

  -- What a push returns and leaves, against a bounded queue: `f` makes the new value of the slot's
  -- old one.
  abbrev pub Pushes : (T → T) → Bool → Shared T → Producer → Type 0
  Pushes f true s' p' =
      (length (contents inv) < 2 ^ log)
      × (inv' : Inv log s' p' c) × (contents inv'
          ≡ contents inv ++ (f (s.buffer (put % 2 ^ log)) ∷ []))
  Pushes f false s' p' =
      (length (contents inv) ≡ 2 ^ log) × (inv' : Inv log s' p' c) × (contents inv' ≡ contents inv)

  pub length-contents : length (contents inv) ≡ put - taken
  length-contents = length-window s.buffer (2 ^ log) taken (put - taken)

  write_if-Pushes :
      (f : T → T)
      → let (there, s', p') = write_if f s (ltb put (taken + 2 ^ log), knowing) in
        Pushes f there s' p'
  unfolding write_if refused-Inv
  write_if-Pushes f = elim (dec_lt put (taken + 2 ^ log)) [
    | yes h ↦
        rw (lt→ltb _ _ h)
          (omega (arith, length-contents, in_order), written-Inv f h, contents-written f h)
    | no h ↦
        rw (le→ltb put (taken + 2 ^ log) (omega arith))
          (omega (arith, length-contents, in_order, inv.window), refused-Inv (omega arith), refl)
  ]

  -- In a state that satisfies the invariant, `push_write` succeeds exactly if the queue holds less
  -- than its capacity, and then what the writer made of the slot is behind the contents; if it is
  -- full the contents stay. Both leave the invariant.
  pub push_write_refines :
      (f : T → T) → let (there, s', p') = push_write f s p in Pushes f there s' p'
  unfolding push_write
  push_write_refines f = rw room_lem (write_if-Pushes f)

  -- The same of `push`, whose answer gives the value back.
  abbrev pub PushesValue : T → Pushed T → Shared T → Producer → Type 0
  PushesValue v done s' p' = Pushes (λ old. v) true s' p'
  PushesValue v (full w) s' p' = (w ≡ v) × Pushes (λ old. v) false s' p'

  Pushes-value :
      (v : T) (there : Bool) (s' : Shared T) (p' : Producer)
      → Pushes (λ old. v) there s' p'
      → PushesValue v (if there then done else full v) s' p'
  Pushes-value v true s' p' h = h
  Pushes-value v false s' p' h = (refl, h)

  -- In a state that satisfies the invariant, `push` appends its value to the contents exactly if
  -- the queue holds less than its capacity; if it is full it gives the value back, and the contents
  -- stay. Both leave the invariant.
  pub push_refines : (v : T) → let (r, s', p') = push v s p in PushesValue v r s' p'
  unfolding push
  push_refines v = rw room_lem (Pushes-value v _ _ _ (write_if-Pushes (λ old. v)))

-- What a pop returns and leaves, against a queue.
abbrev pub Pops : {T : Type 0} → ℕ → List T → Producer → Option ℕ → Shared T → Consumer → Type 0
Pops {T} log q p none s' c' = (q ≡ []) × (inv' : Inv log s' p c') × (contents inv' ≡ [])
Pops {T} log q p (some x) s' c' =
    (v : T) × (inv' : Inv log s' p c') × (q ≡ v ∷ contents inv') × (x ≡ 0)

module _ {T : Type 0} {log : ℕ} {s : Shared T} {p : Producer} {c : Consumer}
    (inv : Inv log s p c) where
  open inv use {taken, put, known_taken, known_put, small, masks, tails, heads, caches, in_order}

  -- What the consumer knows after its test.
  abbrev seen : ℕ
  seen = if taken == known_put then put else known_put

  abbrev seeing : Consumer
  seeing = if taken == known_put then record c { cached_tail = s.tail } else c

  pop_lem : pop s c ≡ (
      if taken == put then (none, s, seeing) else (
        some 0,
        record s { head = (taken + 1) % 2 ^ 64 },
        record seeing { local_head = (taken + 1) % 2 ^ 64 },
      ))
  unfolding pop
  pop_lem = ground (arith, pow_range log small, masks, tails, heads, caches, in_order, inv.window)

  seeing-fields :
      (seeing.local_head ≡ taken % 2 ^ 64)
      × (seeing.cached_tail ≡ seen % 2 ^ 64)
      × (seeing.mask ≡ 2 ^ log - 1)
  seeing-fields = ground (arith, masks, tails, heads, caches)

  empty-Inv : taken ≡ put → Inv log s p seeing
  empty-Inv e = record {
    taken = taken;
    put = put;
    known_taken = known_taken;
    known_put = seen;
    small = small;
    masks = (masks.0, masks.1, seeing-fields.2);
    tails = tails;
    heads = (heads.0, seeing-fields.0);
    caches = (caches.0, seeing-fields.1);
    in_order = ground (arith, in_order);
    window = inv.window;
  }

  taken-Inv :
      taken ≢ put
      → Inv log
          (record s { head = (taken + 1) % 2 ^ 64 })
          p
          (record seeing { local_head = (taken + 1) % 2 ^ 64 })
  taken-Inv ne = record {
    taken = taken + 1;
    put = put;
    known_taken = known_taken;
    known_put = seen;
    small = small;
    masks = (masks.0, masks.1, seeing-fields.2);
    tails = tails;
    heads = (refl, refl);
    caches = (caches.0, seeing-fields.1);
    in_order = ground (arith, in_order);
    window = inv.window;
  }

  window-first :
      (n : ℕ)
      → n ≢ 0
      → window s.buffer (2 ^ log) taken n
        ≡ s.buffer (taken % 2 ^ log) ∷ window s.buffer (2 ^ log) (taken + 1) (n - 1)
  window-first zero h = absurd (h refl)
  window-first (suc n) h = ap (λ k. window s.buffer (2 ^ log) taken (suc k)) (omega arith)

  no_values : (n : ℕ) → n ≡ 0 → window s.buffer (2 ^ log) taken n ≡ []
  no_values zero h = refl
  no_values (suc n) h = absurd (omega arith)

  -- In a state that satisfies the invariant, `pop` finds nothing exactly if the queue is empty, and
  -- else takes the oldest value off the contents; but what it returns is 0, not that value. Both
  -- leave the invariant.
  pub pop_refines : let (r, s', c') = pop s c in Pops log (contents inv) p r s' c'
  unfolding empty-Inv taken-Inv
  pop_refines = rw pop_lem (elim (ℕ_discrete taken put) [
    | yes e ↦
        rw (eq→== taken put e) (
          no_values (put - taken) (omega arith),
          empty-Inv e,
          no_values (put - taken) (omega arith),
        )
    | no ne ↦ rw (ne→== taken put ne) (
      s.buffer (taken % 2 ^ log),
      taken-Inv ne,
      window-first (put - taken) (omega (arith, in_order))
          ∙ ap (λ k. s.buffer (taken % 2 ^ log) ∷ window s.buffer (2 ^ log) (taken + 1) k)
              (omega arith),
      refl,
    )
  ])
