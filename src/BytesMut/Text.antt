-- ===== src/BytesMut/Text.antt =====
-- The buffer of src/my_bytes_mut.rs as the text that has been written to it.
use nanolog_rs.Prelude.{
  ℕ, zero, ◌+◌, ◌-◌, ◌≤◌, ◌<◌, ◌≡◌, refl, sym, ap, ◌∙◌, List, [], ◌∷◌, ◌++◌, length, length-take,
  take-take, take-append_le, dec_lt, dec_le, max, ap₂, take, replicate, overwrite, length-overwrite,
  take-overwrite, length-append, length-replicate, arith,
}
use nanolog_rs.Prelude.Outcome.{Outcome, ok, panic, fault}
use nanolog_rs.BytesMut.{
  MyBytesMut, with_capacity, clear, push, safe_extend_from_slice, extend_from_slice, advance,
  result, rollback, write_unfilled,
}

-- The buffer holds `text` and has room for `cap` bytes in all.
pub record Holds (cap : ℕ) (text : List ℕ) (b : MyBytesMut) : Type 0 where
  pub size : length b.inner ≡ cap
  pub pos_is : b.pos ≡ length text
  pub text_is : take b.pos b.inner ≡ text
  pub fits : length text ≤ cap

pub with_capacity-Holds : (cap : ℕ) → Holds cap [] (with_capacity cap)
unfolding with_capacity
with_capacity-Holds cap = record {
  size = length-replicate cap 0;
  pos_is = refl;
  text_is = refl;
  fits = omega arith;
}

pub clear-Holds :
    {cap : ℕ} {text : List ℕ} {b : MyBytesMut} → Holds cap text b → Holds cap [] (clear b)
unfolding clear
clear-Holds h = record { size = h.size; pos_is = refl; text_is = refl; fits = omega arith }

-- What is written at the position and counted is appended to the text.
overwrite-Holds :
    {cap : ℕ} {text : List ℕ} {b : MyBytesMut} (xs : List ℕ)
    → Holds cap text b
    → length text + length xs ≤ cap
    → Holds cap
        (text ++ xs)
        (record { inner = overwrite b.inner b.pos xs; pos = b.pos + length xs })
overwrite-Holds {text = text} {b = b} xs h le = record {
  size = length-overwrite b.inner b.pos xs ∙ h.size;
  pos_is = omega (arith, h.pos_is, length-append text xs);
  text_is =
      take-overwrite b.inner b.pos xs (b.pos + length xs) refl (omega (arith, h.pos_is, h.size))
      ∙ ap (λ (t : List ℕ). t ++ xs) h.text_is;
  fits = omega (arith, length-append text xs);
}

module _ {cap : ℕ} {text : List ℕ} {b : MyBytesMut} (h : Holds cap text b) where
  -- `push` appends a byte while there is room, and writes out of bounds when there is none.
  pub push-Holds :
      (x : ℕ)
      → (length text < cap
          → (b' : MyBytesMut) × (push x b ≡ ok b') × Holds cap (text ++ (x ∷ [])) b')
        × (length text ≡ cap → push x b ≡ fault)
  unfolding push
  push-Holds x = (
    λ lt. (_, ground (arith, h.pos_is, h.size), overwrite-Holds (x ∷ []) h (omega arith)),
    λ e. ground (arith, h.pos_is, h.size),
  )

  -- `extend_from_slice` appends a slice that leaves at least one byte free, and panics on any other.
  pub extend_from_slice-Holds :
      (xs : List ℕ)
      → (length text + length xs < cap
          → (b' : MyBytesMut) × (extend_from_slice xs b ≡ ok b') × Holds cap (text ++ xs) b')
        × (cap ≤ length text + length xs → extend_from_slice xs b ≡ panic)
  unfolding extend_from_slice
  extend_from_slice-Holds xs = (
    λ lt. (_, ground (arith, h.pos_is, h.size), overwrite-Holds xs h (omega arith)),
    λ le. ground (arith, h.pos_is, h.size),
  )

  longer :
      (xs : List ℕ)
      → length (b.inner ++ replicate (b.pos + length xs - length b.inner) 0)
        ≡ length b.inner + (b.pos + length xs - length b.inner)
  longer xs = omega (
    arith,
    length-append b.inner (replicate (b.pos + length xs - length b.inner) 0),
    length-replicate (b.pos + length xs - length b.inner) (zero),
  )

  grown :
      (xs : List ℕ)
      → length b.inner < b.pos + length xs
      → Holds
          (max cap (length text + length xs))
          text
          (record b { inner = b.inner ++ replicate (b.pos + length xs - length b.inner) 0 })
  grown xs lt = record {
    size = omega (arith, longer xs, h.size, h.pos_is);
    pos_is = h.pos_is;
    text_is = take-append_le b.pos b.inner _ (omega (arith, h.size, h.pos_is, h.fits)) ∙ h.text_is;
    fits = omega arith;
  }

  -- In a buffer that holds a text, `safe_extend_from_slice` appends any slice, and makes the buffer
  -- as long as the text needs, if it is shorter.
  pub safe_extend_from_slice-Holds :
      (xs : List ℕ)
      → (b' : MyBytesMut) × (safe_extend_from_slice xs b ≡ ok b')
        × Holds (max cap (length text + length xs)) (text ++ xs) b'
  unfolding safe_extend_from_slice
  safe_extend_from_slice-Holds xs = elim (dec_lt (length b.inner) (b.pos + length xs)) [
    | yes grow ↦
        let inner : List ℕ = b.inner ++ replicate (b.pos + length xs - length b.inner) 0 in
        (
          record { inner = overwrite inner b.pos xs; pos = b.pos + length xs },
          ground (arith, h.pos_is, h.size, h.fits, longer xs),
          overwrite-Holds xs (grown xs grow) (omega arith),
        )
    | no fits ↦ (
      record { inner = overwrite b.inner b.pos xs; pos = b.pos + length xs },
      ground (arith, h.pos_is, h.size, h.fits),
      let wide : max cap (length text + length xs) ≡ cap = omega (arith, h.size, h.pos_is) in
          rw wide (overwrite-Holds xs h (omega (arith, h.size, h.pos_is))),
    )
  ]

  -- `result` is the text.
  pub result-Holds : result b ≡ ok text
  unfolding result
  result-Holds = ground (arith, h.pos_is, h.size, h.text_is, h.fits)

  -- A write to `unfilled()` that is then counted by `advance` appends what was written, if there is
  -- room for it, and is out of bounds if there is not.
  pub write_unfilled-Holds :
      (xs : List ℕ)
      → (length text + length xs ≤ cap
          → (b' : MyBytesMut) × (write_unfilled xs b ≡ ok b')
            × Holds cap (text ++ xs) (advance (length xs) b'))
        × (cap < length text + length xs → write_unfilled xs b ≡ fault)
  unfolding write_unfilled advance
  write_unfilled-Holds xs = (
    λ le. (_, ground (arith, h.pos_is, h.size), overwrite-Holds xs h le),
    λ lt. ground (arith, h.pos_is, h.size, h.fits),
  )

  -- `rollback` takes bytes off the end, but not all of them.
  pub rollback-Holds :
      (len : ℕ)
      → (len < length text
          → (b' : MyBytesMut) × (rollback len b ≡ ok b')
            × Holds cap (take (length text - len) text) b')
        × (length text ≤ len → rollback len b ≡ panic)
  unfolding rollback
  rollback-Holds len = (
    λ lt. (
      _,
      ground (arith, h.pos_is),
      record {
        size = h.size;
        pos_is = omega (arith, h.pos_is, length-take (length text - len) text);
        text_is =
            sym (take-take (b.pos - len) b.pos b.inner (omega arith))
            ∙ ap₂ (λ (k : ℕ) (t : List ℕ). take k t) (omega (arith, h.pos_is)) h.text_is;
        fits = omega (arith, h.fits, length-take (length text - len) text);
      },
    ),
    λ le. ground (arith, h.pos_is),
  )

-- What a call leaves that appends to the text, `new` being the longer text: `extend_from_slice` panics
-- when no byte stays free, the unchecked writes go out of bounds when there is no room.
abbrev pub Extended : ℕ → List ℕ → Outcome MyBytesMut → Type 0
Extended cap new (ok b) = (length new < cap) × Holds cap new b
Extended cap new panic = cap ≤ length new
Extended cap new fault = ⊥

abbrev pub Written : ℕ → List ℕ → ℕ → Outcome MyBytesMut → Type 0
Written cap new len (ok b) = Holds cap new (advance len b)
Written cap new len panic = ⊥
Written cap new len fault = cap < length new

abbrev pub Shortened : ℕ → List ℕ → ℕ → Outcome MyBytesMut → Type 0
Shortened cap text len (ok b) = (len < length text) × Holds cap (take (length text - len) text) b
Shortened cap text len panic = length text ≤ len
Shortened cap text len fault = ⊥

module _ {cap : ℕ} {text : List ℕ} {b : MyBytesMut} (h : Holds cap text b) where
  -- In a buffer that holds a text, `extend_from_slice` appends a slice that leaves at least one byte
  -- free, and panics on any other.
  pub extend_from_slice-Extended :
      (xs : List ℕ) → Extended cap (text ++ xs) (extend_from_slice xs b)
  extend_from_slice-Extended xs = elim (dec_lt (length text + length xs) cap) [
    | yes lt ↦
        let (b', e, h') = (extend_from_slice-Holds h xs).0 lt in
        rw e (omega (arith, length-append text xs), h')
    | no ge ↦
        rw ((extend_from_slice-Holds h xs).1 (omega arith)) (omega (arith, length-append text xs))
  ]

  -- In a buffer that holds a text, a write to `unfilled()` that is then counted by `advance` appends
  -- what was written, and is out of bounds exactly if there is no room for it.
  pub write_unfilled-Written :
      (xs : List ℕ) → Written cap (text ++ xs) (length xs) (write_unfilled xs b)
  write_unfilled-Written xs = elim (dec_le (length text + length xs) cap) [
    | yes le ↦ let (b', e, h') = (write_unfilled-Holds h xs).0 le in rw e h'
    | no gt ↦
        rw ((write_unfilled-Holds h xs).1 (omega arith)) (omega (arith, length-append text xs))
  ]

  -- In a buffer that holds a text, `push` appends a byte, and is out of bounds exactly if the buffer
  -- is full.
  pub push-Written : (x : ℕ) → Written cap (text ++ (x ∷ [])) 0 (push x b)
  unfolding advance
  push-Written x = elim (dec_lt (length text) cap) [
    | yes lt ↦ let (b', e, h') = (push-Holds h x).0 lt in rw e (counted h')
    | no ge ↦
        rw ((push-Holds h x).1 (omega (arith, h.fits))) (omega (arith, length-append text (x ∷ [])))
  ]
    where
      counted :
          {new : List ℕ} {b' : MyBytesMut}
          → Holds cap new b'
          → Holds cap new (record b' { pos = b'.pos + 0 })
      counted {b' = b'} k = let same : b'.pos + 0 ≡ b'.pos = omega arith in rw same k

  -- In a buffer that holds a text, `rollback` takes bytes off the end, and panics exactly if it would
  -- leave none.
  pub rollback-Shortened : (len : ℕ) → Shortened cap text len (rollback len b)
  rollback-Shortened len = elim (dec_lt len (length text)) [
    | yes lt ↦ let (b', e, h') = (rollback-Holds h len).0 lt in rw e (lt, h')
    | no ge ↦ rw ((rollback-Holds h len).1 (omega arith)) (omega arith)
  ]
