-- ===== src/Args2/RoundTrip.antt =====
-- What `decode` of src/args2.rs finds is what `args2` was given.
use nanolog_rs.Prelude.{
  ℕ, zero, suc, ◌+◌, ◌-◌, ◌%◌, ◌^◌, ◌≤◌, ◌<◌, ◌≡◌, refl, sym, ap, ap₂, ◌∙◌, List, ◌∷◌, ◌++◌, length,
  take, drop, replicate, length-append, drop-append, take-append, append_assoc, append-nil, arith,
}
use nanolog_rs.Prelude.Bytes.{le_bytes, length-le_bytes, of_le_bytes-le_bytes}
use nanolog_rs.Prelude.Outcome.{ok}
use nanolog_rs.Args2.{
  Arg, arg_f64, arg_u64, arg_i64, user_pod_snap, arg_tag, arg_bytes, args2, DecodeResult, f64, u64,
  i64, snap, repr_off_as, slice, decode_snap, decode, index, decode_fmt_args2,
}

-- An argument that a tag of one byte can describe: numbers of 64 bits, and values of whole words.
abbrev pub IsArg : Arg → Type 0
IsArg (arg_f64 v) = v < 2 ^ 64
IsArg (arg_u64 v) = v < 2 ^ 64
IsArg (arg_i64 v) = v < 2 ^ 64
IsArg (user_pod_snap f xs) = (f < 2 ^ 64) × (length xs % 8 ≡ 0) × (length xs < 248)

abbrev pub found : Arg → DecodeResult
found (arg_f64 v) = f64 v
found (arg_u64 v) = u64 v
found (arg_i64 v) = i64 v
found (user_pod_snap f xs) = snap f xs

take_at :
    (front xs rest : List ℕ) {off n : ℕ}
    → length front ≡ off
    → length xs ≡ n
    → take n (drop off (front ++ (xs ++ rest))) ≡ xs
take_at front xs rest e k =
    ap₂ (λ (i j : ℕ). take j (drop i (front ++ (xs ++ rest)))) (sym e) (sym k)
    ∙ ap (take (length xs)) (drop-append front (xs ++ rest))
    ∙ take-append xs rest

room_at :
    (front xs rest : List ℕ) {off n : ℕ}
    → length front ≡ off
    → length xs ≡ n
    → off + n ≤ length (front ++ (xs ++ rest))
room_at front xs rest e k = omega (arith, length-append front (xs ++ rest), length-append xs rest)

repr_at :
    (front rest : List ℕ) (v : ℕ) {off : ℕ}
    → length front ≡ off
    → v < 2 ^ 64
    → repr_off_as (front ++ (le_bytes 8 v ++ rest)) off ≡ ok v
unfolding repr_off_as
repr_at front rest v {off} e h =
    let room = room_at front (le_bytes 8 v) rest e (length-le_bytes 8 v) in
    let here = take_at front (le_bytes 8 v) rest e (length-le_bytes 8 v) in
    ground (arith, room, here, of_le_bytes-le_bytes 8 v h)

length_is : (xs : List ℕ) (off end : ℕ) → off + length xs ≡ end → length xs ≡ end - off
length_is xs off end k = omega arith

slice_at :
    (front xs rest : List ℕ) {off end : ℕ}
    → length front ≡ off
    → off + length xs ≡ end
    → slice (front ++ (xs ++ rest)) off end ≡ ok xs
unfolding slice
slice_at front xs rest {off} {end} e k =
    let room = room_at front xs rest e (length_is xs off end k) in
    let here = take_at front xs rest e (length_is xs off end k) in ground (arith, room, here)

decode_long :
    (n : ℕ) (bytes : List ℕ) (off : ℕ) → 2 < n → decode n bytes off ≡ decode_snap n bytes off
unfolding decode
decode_long zero bytes off h = absurd (omega arith)
decode_long (suc zero) bytes off h = absurd (omega arith)
decode_long (suc (suc zero)) bytes off h = absurd (omega arith)
decode_long (suc (suc (suc n))) bytes off h = refl

no_padding :
    (f : ℕ) (xs : List ℕ) → length xs % 8 ≡ 0 → arg_bytes (user_pod_snap f xs) ≡ le_bytes 8 f ++ xs
unfolding arg_bytes
no_padding f xs h = rw h (append-nil (le_bytes 8 f ++ xs))

-- The address and then the value.
decode_snap_lem :
    (f : ℕ) (xs front rest : List ℕ) {off : ℕ}
    → length front ≡ off
    → f < 2 ^ 64
    → decode_snap (length xs + 8) (front ++ ((le_bytes 8 f ++ xs) ++ rest)) off
      ≡ ok (snap f xs, off + (length xs + 8))
unfolding decode_snap
decode_snap_lem f xs front rest {off} e h =
    let word =
      ap (λ (t : List ℕ). repr_off_as (front ++ t) off) (append_assoc (le_bytes 8 f) xs rest)
      ∙ repr_at front (xs ++ rest) f e h in
    let value =
      ap (λ (t : List ℕ). slice t (off + 8) (off + (length xs + 8)))
        (ap (λ (t : List ℕ). front ++ t) (append_assoc (le_bytes 8 f) xs rest)
          ∙ sym (append_assoc front (le_bytes 8 f) (xs ++ rest)))
      ∙ slice_at (front ++ le_bytes 8 f) xs rest
          (omega (arith, length-append front (le_bytes 8 f), length-le_bytes 8 f)) (omega arith) in
    rw (word, value) refl

-- An argument behind `front`.
decode_lem :
    (a : Arg) (front rest : List ℕ) {off : ℕ}
    → length front ≡ off
    → IsArg a
    → decode (arg_tag a) (front ++ (arg_bytes a ++ rest)) off
      ≡ ok (found a, off + length (arg_bytes a))
unfolding decode arg_tag arg_bytes
decode_lem (arg_f64 v) front rest e h = rw (repr_at front rest v e h, length-le_bytes 8 v) refl
decode_lem (arg_u64 v) front rest e h = rw (repr_at front rest v e h, length-le_bytes 8 v) refl
decode_lem (arg_i64 v) front rest e h = rw (repr_at front rest v e h, length-le_bytes 8 v) refl
decode_lem (user_pod_snap f xs) front rest e (hf, hx, hs) =
    let long : length (le_bytes 8 f ++ xs) ≡ length xs + 8 =
      omega (arith, length-append (le_bytes 8 f) xs, length-le_bytes 8 f) in
    let tag : length xs % 256 + 8 ≡ length xs + 8 = omega arith in
    rw (no_padding f xs hx, tag, long)
      (decode_long (length xs + 8) _ _ (omega arith) ∙ decode_snap_lem f xs front rest e hf)

-- The two calls of `decode` on the bytes of `args2`.
module _ (a b : Arg) (rest : List ℕ) where
  abbrev front : List ℕ
  front = arg_tag a ∷ arg_tag b ∷ replicate 6 0

  pub decode_first :
      IsArg a → decode (arg_tag a) (args2 a b ++ rest) 8 ≡ ok (found a, 8 + length (arg_bytes a))
  unfolding args2
  decode_first ha =
      ap (λ (t : List ℕ). decode (arg_tag a) (front ++ t) 8)
        (append_assoc (arg_bytes a) (arg_bytes b) rest)
      ∙ decode_lem a front (arg_bytes b ++ rest) refl ha

  pub decode_second :
      IsArg b
      → decode (arg_tag b) (args2 a b ++ rest) (8 + length (arg_bytes a))
        ≡ ok (found b, 8 + length (arg_bytes a) + length (arg_bytes b))
  unfolding args2
  decode_second hb =
      ap (λ (t : List ℕ). decode (arg_tag b) t (8 + length (arg_bytes a)))
        (ap (λ (t : List ℕ). front ++ t) (append_assoc (arg_bytes a) (arg_bytes b) rest)
          ∙ sym (append_assoc front (arg_bytes a) (arg_bytes b ++ rest)))
      ∙ decode_lem b (front ++ arg_bytes a) rest (length-append front (arg_bytes a)) hb

-- `decode_fmt_args2` finds in the bytes of `args2` the two arguments that it was given, if each is a
-- number of 64 bits or a value whose size is a multiple of 8 and below 248, whatever bytes follow.
pub decode_fmt_args2-args2 :
    (arg1 arg2 : Arg) (rest : List ℕ)
    → IsArg arg1
    → IsArg arg2
    → decode_fmt_args2 (args2 arg1 arg2 ++ rest) ≡ ok (found arg1, found arg2)
unfolding decode_fmt_args2 args2 index
decode_fmt_args2-args2 a b rest ha hb =
    rw (decode_first a b rest ha, decode_second a b rest hb) refl
