-- ===== src/BytesMut.antt =====
-- src/my_bytes_mut.rs: a buffer with a fill position. Slicing beyond the buffer panics; a write
-- through `get_unchecked_mut` beyond it is undefined behaviour, here a `fault`.
pub mod Text
use nanolog_rs.Prelude.{
  ℕ, ◌+◌, ◌-◌, Bool, List, [], ◌∷◌, ◌++◌, length, take, drop, replicate, overwrite, ltb, leb,
  if◌then◌else◌,
}
use nanolog_rs.Prelude.Outcome.{Outcome, ok, panic, fault, assert, in_bounds, ◌>>=◌}

pub record MyBytesMut : Type 0 where
  pub inner : List ℕ
  pub pos : ℕ

unfoldable pub with_capacity : ℕ → MyBytesMut
with_capacity capacity = record { inner = replicate capacity 0; pos = 0 }

unfoldable pub clear : MyBytesMut → MyBytesMut
clear b = record b { pos = 0 }

unfoldable pub push : ℕ → MyBytesMut → Outcome MyBytesMut
push x b =
    in_bounds (ltb b.pos (length b.inner))
      (ok (record { inner = overwrite b.inner b.pos (x ∷ []); pos = b.pos + 1 }))

-- `Vec::resize` to a larger length
abbrev resize : List ℕ → ℕ → List ℕ
resize xs len = xs ++ replicate (len - length xs) 0

unfoldable pub safe_extend_from_slice : List ℕ → MyBytesMut → Outcome MyBytesMut
safe_extend_from_slice src b =
    let new_len = b.pos + length src in
    let inner = (if ltb (length b.inner) new_len then resize b.inner new_len else b.inner) in
    assert (leb b.pos (length inner))
      (ok (record { inner = overwrite inner b.pos src; pos = new_len }))

unfoldable pub extend_from_slice : List ℕ → MyBytesMut → Outcome MyBytesMut
extend_from_slice src b =
    let new_len = b.pos + length src in
    assert (ltb new_len (length b.inner))
      (ok (record { inner = overwrite b.inner b.pos src; pos = new_len }))

unfoldable pub advance : ℕ → MyBytesMut → MyBytesMut
advance len b = record b { pos = b.pos + len }

-- The slice is taken after the move.
unfoldable pub advance2 : ℕ → MyBytesMut → Outcome (List ℕ × MyBytesMut)
advance2 len b =
    assert (leb (b.pos + len) (length b.inner))
      (ok (take len (drop b.pos b.inner), record b { pos = b.pos + len }))

unfoldable pub rollback : ℕ → MyBytesMut → Outcome MyBytesMut
rollback len b = assert (ltb len b.pos) (ok (record b { pos = b.pos - len }))

unfoldable pub result : MyBytesMut → Outcome (List ℕ)
result b = assert (leb b.pos (length b.inner)) (ok (take b.pos b.inner))

unfoldable pub curr_pos : MyBytesMut → ℕ
curr_pos b = b.pos

unfoldable pub slice : ℕ → ℕ → MyBytesMut → Outcome (List ℕ)
slice from to b =
    assert (leb from to)
      (assert (leb to (length b.inner)) (ok (take (to - from) (drop from b.inner))))

-- A write of `src` to the start of `unfilled()` through a raw pointer, as the users of that slice do.
unfoldable pub write_unfilled : List ℕ → MyBytesMut → Outcome MyBytesMut
write_unfilled src b = assert (leb b.pos (length b.inner)) (
    in_bounds (leb (b.pos + length src) (length b.inner))
      (ok (record b { inner = overwrite b.inner b.pos src })))

-- `io::Write::write`; `flush` does nothing.
unfoldable pub write : List ℕ → MyBytesMut → Outcome (ℕ × MyBytesMut)
write buf b = do b' ← extend_from_slice buf b; ok (length buf, b')
