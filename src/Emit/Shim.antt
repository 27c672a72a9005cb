-- ===== src/Emit/Shim.antt =====
-- What the log function of `__emit2` (src/log.rs) makes of the bytes of `args2`.
use nanolog_rs.Prelude.{
  ℕ, ◌<◌, ◌≡◌, refl, sym, ap, subst, List, [], ◌∷◌, ◌++◌, length, length-append, append_assoc,
  append-nil, arith,
}
use nanolog_rs.Prelude.Outcome.{ok}
use nanolog_rs.BytesMut.{MyBytesMut, write}
use nanolog_rs.BytesMut.Text.{Holds, extend_from_slice-Holds}
use nanolog_rs.Args2.{Arg, args2, index}
use nanolog_rs.Args2.RoundTrip.{IsArg, found, decode_first, decode_second}
use nanolog_rs.Log.{SourceLocation}
use nanolog_rs.Log.Location.{located, write_to-Holds}
use nanolog_rs.Emit.{Formatting, write_all, write_pieces, write_fmt, hft_shim}

abbrev pub joined : List (List ℕ) → List ℕ
joined [] = []
joined (piece ∷ pieces) = piece ++ joined pieces

write_all-Holds :
    {cap : ℕ} {text : List ℕ} {b : MyBytesMut} (piece : List ℕ)
    → Holds cap text b
    → length (text ++ piece) < cap
    → (b' : MyBytesMut) × (write_all piece b ≡ ok b') × Holds cap (text ++ piece) b'
unfolding write_all write
write_all-Holds {cap} {text} {b} [] h room =
    (b, refl, subst (λ t. Holds cap t b) (sym (append-nil text)) h)
write_all-Holds {cap} {text} (x ∷ xs) h room =
    let (b', e, h') =
      (extend_from_slice-Holds h (x ∷ xs)).0 (omega (arith, length-append text (x ∷ xs))) in
    (b', rw e refl, h')

write_pieces-Holds :
    {cap : ℕ} (pieces : List (List ℕ)) {text : List ℕ} {b : MyBytesMut}
    → Holds cap text b
    → length (text ++ joined pieces) < cap
    → (b' : MyBytesMut) × (write_pieces pieces b ≡ ok b') × Holds cap (text ++ joined pieces) b'
unfolding write_pieces
write_pieces-Holds {cap} [] {text} {b} h room =
    (b, refl, subst (λ t. Holds cap t b) (sym (append-nil text)) h)
write_pieces-Holds {cap} (piece ∷ pieces) {text} h room =
    let assoc = append_assoc text piece (joined pieces) in
    let fits : length (text ++ piece) < cap =
      omega (arith, ap length assoc, length-append (text ++ piece) (joined pieces)) in
    let (b1, e1, h1) = write_all-Holds piece h fits in
    let (b2, e2, h2) =
      write_pieces-Holds pieces h1 (subst (λ (t : List ℕ). length t < cap) (sym assoc) room) in
    (b2, rw (e1, e2) refl, subst (λ t. Holds cap t b2) assoc h2)

-- The bytes of two arguments that `decode` can find, whatever follows them, and a buffer that holds
-- a text, with room for the place of the call and for the formatted arguments and with a byte to
-- spare: the log function appends the place and the strings of the formatting of the two arguments,
-- as they were given, in order, and returns what the formatting does.
pub hft_shim-Holds :
    (sep : ℕ) (src_loc : SourceLocation) (fmt : Formatting) (a0 a1 : Arg) (rest : List ℕ) {cap : ℕ}
    {text : List ℕ} {b : MyBytesMut}
    → IsArg a0
    → IsArg a1
    → Holds cap text b
    → length (located sep src_loc text ++ joined (fmt (found a0) (found a1)).0) < cap
    → (b' : MyBytesMut) × (hft_shim sep src_loc fmt (args2 a0 a1 ++ rest) b
        ≡ ok ((fmt (found a0) (found a1)).1, b'))
      × Holds cap (located sep src_loc text ++ joined (fmt (found a0) (found a1)).0) b'
unfolding hft_shim write_fmt args2 index
hft_shim-Holds sep src_loc fmt a0 a1 rest {cap} {text} h0 h1 h room =
    let place : length (located sep src_loc text) < cap =
      omega
        (arith, length-append (located sep src_loc text) (joined (fmt (found a0) (found a1)).0)) in
    let (b1, e1, k1) = write_to-Holds sep src_loc h place in
    let (b2, e2, k2) = write_pieces-Holds (fmt (found a0) (found a1)).0 k1 room in
    (b2, rw (e1, decode_first a0 a1 rest h0, decode_second a0 a1 rest h1, e2) refl, k2)
