-- ===== src/VarQueue/Frame.antt =====
-- A write to blocks that no record occupies leaves the records of the ring as they are
-- (src/spsc_var_queue_opt.rs: the blocks between `written_idx` and `writing_idx`).
use native.Mathlib.Nat.{mod-lt}
use nanolog_rs.Prelude.{
  ℕ, ◌+◌, ◌-◌, ◌*◌, ◌/◌, ◌%◌, ◌≤◌, ◌<◌, ◌≡◌, sym, ap, ◌∙◌, ◌⊎◌, inl, inr, List, arith, length,
}
use nanolog_rs.Prelude.Bytes.{
  Mem, of_le_bytes, read_bytes, write_bytes, read_bytes_cong, write_bytes_outside,
}
use nanolog_rs.Prelude.Rounds.{apart, add-mod-small}
use nanolog_rs.VarQueue.{header_at}
use nanolog_rs.VarQueue.Layout.{Msg, total, blocks, IsAt, Chain, done, rewound, message}

-- Memories that hold the same bytes in the blocks from `r` to `w`.
abbrev pub Agree : ℕ → Mem → Mem → ℕ → ℕ → Type 0
Agree n mem mem' r w =
    (b j : ℕ) → r ≤ b → b < w → j < 64 → mem (64 * (b % n) + j) ≡ mem' (64 * (b % n) + j)

-- The same over the bytes of one run of blocks.
Agree-bytes :
    (n : ℕ) (mem mem' : Mem) (r k w : ℕ)
    → 0 < n
    → r % n + k ≤ n
    → r + k ≤ w
    → Agree n mem mem' r w
    → (i : ℕ) → 64 * (r % n) ≤ i
    → i < 64 * (r % n) + 64 * k
    → mem i ≡ mem' i
Agree-bytes n mem mem' r k w pos fit h g i p q =
    let j = i - 64 * (r % n) in
    let e : (r + j / 64) % n ≡ r % n + j / 64 = add-mod-small r (j / 64) n (omega arith) in
    let at : 64 * ((r + j / 64) % n) + j % 64 ≡ i = omega arith in
    rw at at (g (r + j / 64) (j % 64) (omega arith) (omega arith) (omega arith))

header_at_cong :
    (mem mem' : Mem) (a : ℕ)
    → ((i : ℕ) → a ≤ i → i < a + 24 → mem i ≡ mem' i)
    → header_at mem a ≡ header_at mem' a
unfolding header_at
header_at_cong mem mem' a h = rw (
  read_bytes_cong mem mem' a 4 (λ i p q. h i p (omega arith)),
  read_bytes_cong mem mem' (a + 4) 4 (λ i p q. h i (omega arith) (omega arith)),
  read_bytes_cong mem mem' (a + 8) 8 (λ i p q. h i (omega arith) (omega arith)),
  read_bytes_cong mem mem' (a + 16) 8 (λ i p q. h i (omega arith) (omega arith)),
)

-- A record depends on the bytes of its blocks alone.
pub IsAt-cong :
    (mem mem' : Mem) (a : ℕ) (m : Msg)
    → ((i : ℕ) → a ≤ i → i < a + total m → mem i ≡ mem' i)
    → IsAt mem a m
    → IsAt mem' a m
IsAt-cong mem mem' a m h at = record {
  head = sym (header_at_cong mem mem' a (λ i p q. h i p (omega arith))) ∙ at.head;
  body =
      sym (
        read_bytes_cong mem mem' (a + 24) (length m.payload)
          (λ i p q. h i (omega arith) (omega arith)))
      ∙ at.body;
}

-- The size of the record at block `r`, or 0 where there is a rewind marker.
pub size_Agree :
    (n : ℕ) (mem mem' : Mem) (r w : ℕ)
    → 0 < n
    → r < w
    → Agree n mem mem' r w
    → of_le_bytes (read_bytes mem' (64 * (r % n)) 4) ≡ of_le_bytes (read_bytes mem (64 * (r % n)) 4)
size_Agree n mem mem' r w pos lt g = ap of_le_bytes (
    sym (
      read_bytes_cong mem mem' (64 * (r % n)) 4 (λ i p q.
        Agree-bytes n mem mem' r 1 w pos (omega (arith, mod-lt r pos)) (omega arith) g i p
          (omega arith))))

-- Records stand in a memory that agrees on their blocks.
pub Chain-Agree :
    {n : ℕ} {mem mem' : Mem} {w r : ℕ} {ms : List Msg}
    → 0 < n
    → Agree n mem mem' r w
    → Chain n mem w r ms
    → Chain n mem' w r ms
Chain-Agree pos g (done e) = done e
Chain-Agree {n} {mem} {mem'} {w} {r} pos g (rewound z h c) =
    rewound (size_Agree n mem mem' r w pos (omega (arith, mod-lt r pos)) g ∙ z) h
      (Chain-Agree pos (λ b j p q. g b j (omega (arith, mod-lt r pos)) q) c)
Chain-Agree {n} {mem} {mem'} {w} {r} pos g (message m at fit h c) =
    message m
      (IsAt-cong mem mem' (64 * (r % n)) m
        (λ i p q. Agree-bytes n mem mem' r (blocks (total m)) w pos fit h g i p (omega arith)) at)
      fit h (Chain-Agree pos (λ b j p q. g b j (omega arith) q) c)

-- A write within blocks `p` to `p + k`, in front of which the records end.
pub write-Agree :
    (n : ℕ) (mem : Mem) (r w p k off : ℕ) (xs : List ℕ)
    → 0 < n
    → w ≤ p
    → p + k ≤ r + n
    → p % n + k ≤ n
    → off + length xs ≤ 64 * k
    → Agree n mem (write_bytes mem (64 * (p % n) + off) xs) r w
write-Agree n mem r w p k off xs pos h1 h2 fit room b j hb hw hj =
    sym (write_bytes_outside mem (64 * (p % n) + off) xs (64 * (b % n) + j) outside)
  where
    outside :
        (64 * (b % n) + j < 64 * (p % n) + off)
        ⊎ (64 * (p % n) + off + length xs ≤ 64 * (b % n) + j)
    outside =
        elim (apart n b 1 p k pos (omega arith) (omega arith) (omega (arith, mod-lt b pos)) fit) [
          | inl before ↦ inl (omega arith)
          | inr after ↦ inr (omega arith)
        ]

-- The same for a write at the start of the first block.
pub write-Agree_start :
    (n : ℕ) (mem : Mem) (r w p k : ℕ) (xs : List ℕ)
    → 0 < n
    → w ≤ p
    → p + k ≤ r + n
    → p % n + k ≤ n
    → length xs ≤ 64 * k
    → Agree n mem (write_bytes mem (64 * (p % n)) xs) r w
write-Agree_start n mem r w p k xs pos h1 h2 fit room =
    rw e at (write-Agree n mem r w p k 0 xs pos h1 h2 fit (omega arith))
  where
    e : 64 * (p % n) + 0 ≡ 64 * (p % n)
    e = omega arith
