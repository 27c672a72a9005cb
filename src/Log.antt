-- ===== src/Log.antt =====
-- src/log.rs: levels, entries of the bounded queue, and the place in the source that a line names.
pub mod Location
use nanolog_rs.Prelude.{
  ℕ, zero, suc, ◌+◌, ◌-◌, ◌/◌, ◌%◌, Bool, true, false, ◌&&◌, Option, none, some, List, [], ◌∷◌,
  ◌++◌, length, take, drop, replicate, overwrite, ltb, leb, ◌==◌, if◌then◌else◌,
}
use nanolog_rs.Prelude.Text.{codes}
use nanolog_rs.Prelude.Outcome.{Outcome, ok, panic, fault, in_bounds, ◌>>=◌}
use nanolog_rs.BytesMut.{MyBytesMut, push, extend_from_slice}

pub data Level : Type 0 where
  trace debug info warn error : Level

-- `level as u8`
unfoldable pub level_u8 : Level → ℕ
level_u8 trace = 0
level_u8 debug = 1
level_u8 info = 2
level_u8 warn = 3
level_u8 error = 4

abbrev pub max_payload_len : ℕ
max_payload_len = 256

-- `func` is the address of the log function.
pub record LogEntry : Type 0 where
  pub tsc : ℕ
  pub level : ℕ
  pub func : ℕ
  pub data_bytes : List ℕ

-- The copy of the arguments' bytes checks their length in debug builds only.
unfoldable pub mut_from_args : LogEntry → Level → ℕ → List ℕ → Outcome LogEntry
unfolding level_u8
mut_from_args e level func args = in_bounds (leb (length args) (length e.data_bytes)) (
    ok (record {
      tsc = 0;
      level = level_u8 level;
      func = func;
      data_bytes = overwrite e.data_bytes 0 args;
    }))

unfoldable pub from_args : Level → ℕ → List ℕ → Outcome LogEntry
unfolding level_u8
from_args level func args = in_bounds (leb (length args) max_payload_len) (
    ok (record {
      tsc = 0;
      level = level_u8 level;
      func = func;
      data_bytes = overwrite (replicate max_payload_len 0) 0 args;
    }))

-- The texts are UTF-8 bytes.
pub record SourceLocation : Type 0 where
  pub module_path : List ℕ
  pub file : List ℕ
  pub line : ℕ

unfoldable pub same_text : List ℕ → List ℕ → Bool
same_text [] [] = true
same_text [] (y ∷ ys) = false
same_text (x ∷ xs) [] = false
same_text (x ∷ xs) (y ∷ ys) = (x == y) && same_text xs ys

-- `str::ends_with`
unfoldable pub ends_with : List ℕ → List ℕ → Bool
unfolding same_text
ends_with text end =
    leb (length end) (length text) && same_text (drop (length text - length end) text) end

-- `str::rfind` of a character of one byte
unfoldable pub rfind : ℕ → List ℕ → Option ℕ
rfind c [] = none
rfind c (x ∷ xs) = elim (rfind c xs) [
  | none ↦ if x == c then some 0 else none
  | some i ↦ some (suc i)
]

-- The file without its extension `.rs`, if it has that.
unfoldable pub strip_rs : List ℕ → List ℕ
strip_rs file = if ends_with file (codes ".rs") then take (length file - 3) file else file

-- What follows the last `sep`, or the whole.
unfoldable pub after_last : ℕ → List ℕ → List ℕ
after_last sep file = elim (rfind sep file) [ none ↦ file | some index ↦ drop (index + 1) file ]

-- `sep` is `std::path::MAIN_SEPARATOR`.
unfoldable pub file_name : ℕ → SourceLocation → List ℕ
unfolding strip_rs after_last
file_name sep loc = after_last sep (strip_rs loc.file)

-- `to_string` of a number below 10 ^ `fuel`
unfoldable pub decimal : ℕ → ℕ → List ℕ
decimal zero n = []
decimal (suc fuel) n =
    let rest = decimal fuel (n / 10) in
    if ltb n 10 then (48 + n) ∷ [] else rest ++ ((48 + n % 10) ∷ [])

-- A `u32` has at most ten digits.
unfoldable pub line_text : ℕ → List ℕ
unfolding decimal
line_text line = decimal 10 line

unfoldable pub write_to : ℕ → SourceLocation → MyBytesMut → Outcome MyBytesMut
write_to sep loc out = do
  b1 ← extend_from_slice loc.module_path out
  b2 ← extend_from_slice (codes "::") b1
  b3 ← extend_from_slice (file_name sep loc) b2
  b4 ← push b'#' b3
  b5 ← extend_from_slice (line_text loc.line) b4
  extend_from_slice (codes "] ") b5
