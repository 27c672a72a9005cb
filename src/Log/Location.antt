-- ===== src/Log/Location.antt =====
-- The place in the source that a line names, and the payload of an entry (src/log.rs).
use nanolog_rs.Prelude.{
  ℕ, zero, suc, ◌+◌, ◌-◌, ◌≤◌, ◌<◌, ◌≡◌, ◌≢◌, refl, ap, ◌∙◌, true, false, none, some, List, [], ◌∷◌,
  ◌++◌, length, take, drop, replicate, overwrite, take-overwrite, length-overwrite, length-append,
  length-replicate, drop-append, take-append, arith, ne→==, leb,
}
use nanolog_rs.Prelude.Text.{codes}
use nanolog_rs.Prelude.Outcome.{ok, fault}
use nanolog_rs.BytesMut.{MyBytesMut}
use nanolog_rs.BytesMut.Text.{Holds, push-Holds, extend_from_slice-Holds}
use nanolog_rs.Log.{
  Level, level_u8, LogEntry, mut_from_args, from_args, max_payload_len, SourceLocation, same_text,
  ends_with, rfind, strip_rs, after_last, file_name, line_text, write_to,
}

-- No byte of the text is `c`.
abbrev pub Lacks : ℕ → List ℕ → Type 0
Lacks c [] = c ≡ c
Lacks c (x ∷ xs) = (x ≢ c) × Lacks c xs

rfind-Lacks : (c : ℕ) (xs : List ℕ) → Lacks c xs → rfind c xs ≡ none
unfolding rfind
rfind-Lacks c [] h = refl
rfind-Lacks c (x ∷ xs) h = rw (rfind-Lacks c xs h.1, ne→== x c h.0) refl

rfind-last :
    (c : ℕ) (dir stem : List ℕ) → Lacks c stem → rfind c (dir ++ (c ∷ stem)) ≡ some (length dir)
unfolding rfind
rfind-last c [] stem h = rw (rfind-Lacks c stem h) (ground arith)
rfind-last c (x ∷ dir) stem h = rw (rfind-last c dir stem h) refl

same_text_refl : (xs : List ℕ) → same_text xs xs ≡ true
unfolding same_text
same_text_refl [] = refl
same_text_refl (x ∷ xs) = ground (arith, same_text_refl xs)

ends_with-append : (xs end : List ℕ) → ends_with (xs ++ end) end ≡ true
unfolding ends_with
ends_with-append xs end =
    let rest : length (xs ++ end) - length end ≡ length xs = omega (arith, length-append xs end) in
    rw (rest, drop-append xs end, same_text_refl end) (ground (arith, length-append xs end))

drop_past :
    (dir : List ℕ) (c : ℕ) (stem : List ℕ) → drop (length dir + 1) (dir ++ (c ∷ stem)) ≡ stem
drop_past [] c stem = refl
drop_past (x ∷ dir) c stem =
    let next : suc (length dir) + 1 ≡ suc (length dir + 1) = omega arith in
    rw next (drop_past dir c stem)

strip_rs-append : (file : List ℕ) → strip_rs (file ++ codes ".rs") ≡ file
unfolding strip_rs
strip_rs-append file =
    let stripped : length (file ++ codes ".rs") - 3 ≡ length file =
      omega (arith, length-append file (codes ".rs")) in
    rw (ends_with-append file (codes ".rs"), stripped) (take-append file (codes ".rs"))

after_last-found :
    (sep : ℕ) (dir stem : List ℕ) → Lacks sep stem → after_last sep (dir ++ (sep ∷ stem)) ≡ stem
unfolding after_last
after_last-found sep dir stem h =
    rw (after_last, rfind-last sep dir stem h) (drop_past dir sep stem)

after_last-whole : (sep : ℕ) (stem : List ℕ) → Lacks sep stem → after_last sep stem ≡ stem
unfolding after_last
after_last-whole sep stem h = rw (after_last, rfind-Lacks sep stem h) refl

-- For a file with the extension `.rs` whose stem has no path separator, `file_name` is the stem,
-- both behind a directory and without one.
pub file_name_lem :
    (sep : ℕ) (dir stem module_path : List ℕ) (line : ℕ)
    → Lacks sep stem
    → (file_name sep (record {
      module_path = module_path;
      file = (dir ++ (sep ∷ stem)) ++ codes ".rs";
      line = line;
    })
        ≡ stem)
      × (file_name sep
            (record { module_path = module_path; file = stem ++ codes ".rs"; line = line })
          ≡ stem)
unfolding file_name
file_name_lem sep dir stem module_path line h = (
  ap (after_last sep) (strip_rs-append (dir ++ (sep ∷ stem))) ∙ after_last-found sep dir stem h,
  ap (after_last sep) (strip_rs-append stem) ∙ after_last-whole sep stem h,
)

-- The text with what `write_to` appends to it.
abbrev pub located : ℕ → SourceLocation → List ℕ → List ℕ
located sep loc text =
    ((((((text ++ loc.module_path) ++ codes "::") ++ file_name sep loc) ++ (b'#' ∷ []))
        ++ line_text loc.line)
      ++ codes "] ")

-- What is appended fits if the result does.
room_for :
    (xs ys : List ℕ) {n : ℕ} → length (xs ++ ys) < n → (length xs + length ys < n) × (length xs < n)
room_for xs ys h = omega (arith, length-append xs ys)

-- If the buffer holds a text and has room for what follows, with a byte to spare, `write_to` appends
-- the module's path, "::", the file's name, '#', the line and "] ".
pub write_to-Holds :
    (sep : ℕ) (loc : SourceLocation) {cap : ℕ} {text : List ℕ} {b : MyBytesMut}
    → Holds cap text b
    → length (located sep loc text) < cap
    → (b' : MyBytesMut) × (write_to sep loc b ≡ ok b') × Holds cap (located sep loc text) b'
unfolding write_to
write_to-Holds sep loc {text = text} h room =
    let r6 = room_for _ (codes "] ") room in
    let r5 = room_for _ (line_text loc.line) r6.1 in
    let r4 = room_for _ (b'#' ∷ []) r5.1 in
    let r3 = room_for _ (file_name sep loc) r4.1 in
    let r2 = room_for _ (codes "::") r3.1 in
    let r1 = room_for text loc.module_path r2.1 in
    let (b1, e1, h1) = (extend_from_slice-Holds h loc.module_path).0 r1.0 in
    let (b2, e2, h2) = (extend_from_slice-Holds h1 (codes "::")).0 r2.0 in
    let (b3, e3, h3) = (extend_from_slice-Holds h2 (file_name sep loc)).0 r3.0 in
    let (b4, e4, h4) = (push-Holds h3 b'#').0 (room_for _ (b'#' ∷ []) r5.1).1 in
    let (b5, e5, h5) = (extend_from_slice-Holds h4 (line_text loc.line)).0 r5.0 in
    let (b6, e6, h6) = (extend_from_slice-Holds h5 (codes "] ")).0 r6.0 in
    (b6, rw (e1, e2, e3, e4, e5, e6) refl, h6)

too_long : (a b : ℕ) → b < a → leb a b ≡ false
too_long a b h = ground arith

enough : (a b : ℕ) → a ≤ b → leb a b ≡ true
enough a b h = ground arith

-- `mut_from_args` on any entry of 256 bytes, and `from_args`, for arguments of at most 256 bytes:
-- both return entries that begin with the arguments' bytes and carry the level and the function, and
-- the entry keeps its size.
pub from_args_lem :
    (e : LogEntry) (level : Level) (func : ℕ) (args : List ℕ)
    → length e.data_bytes ≡ max_payload_len
    → length args ≤ max_payload_len
    → (e' e'' : LogEntry) × (mut_from_args e level func args ≡ ok e')
      × (from_args level func args ≡ ok e'')
      × (take (length args) e'.data_bytes ≡ args)
      × (take (length args) e''.data_bytes ≡ args)
      × (length e'.data_bytes ≡ max_payload_len)
      × (e'.level ≡ level_u8 level)
      × (e'.func ≡ func)
unfolding mut_from_args from_args
from_args_lem e level func args h le = (
  record {
    tsc = 0;
    level = level_u8 level;
    func = func;
    data_bytes = overwrite e.data_bytes 0 args;
  },
  record {
    tsc = 0;
    level = level_u8 level;
    func = func;
    data_bytes = overwrite (replicate max_payload_len 0) 0 args;
  },
  rw h (rw (enough _ _ le) refl),
  rw (enough _ _ le) refl,
  take-overwrite e.data_bytes 0 args (length args) (omega arith) (omega (arith, h)),
  take-overwrite (replicate max_payload_len 0) 0 args (length args) (omega arith)
      (omega (arith, length-replicate max_payload_len zero)),
  length-overwrite e.data_bytes 0 args ∙ h,
  refl,
  refl,
)

-- Longer arguments are written out of bounds.
from_args_too_long :
    (e : LogEntry) (level : Level) (func : ℕ) (args : List ℕ)
    → length e.data_bytes ≡ max_payload_len
    → max_payload_len < length args
    → (mut_from_args e level func args ≡ fault) × (from_args level func args ≡ fault)
unfolding mut_from_args from_args
from_args_too_long e level func args h lt =
    (rw h (rw (too_long _ _ lt) refl), rw (too_long _ _ lt) refl)
