-- ===== src/Prelude/Bytes.antt =====
-- Byte memory, and numbers as little-endian bytes.
use Prim.Native.Nat.{ℕ, zero, suc, ◌+◌, ◌*◌, ◌/◌, ◌%◌, ◌^◌, ◌≤◌, ◌<◌}
use mathlib.Core.Path.{◌≡◌, refl, ap, ap₂}
use mathlib.Core.Logic.{◌⊎◌}
use mathlib.Core.List.{List, [], ◌∷◌}
use native.Mathlib.Omega.{arith}
use native.Mathlib.Nat.{pow-suc}
use nanolog_rs.Prelude.Tests.{◌==◌, if◌then◌else◌}
use nanolog_rs.Prelude.Lists.{length, take}

-- The `n` low bytes of `v`, the least first (`to_le_bytes`), and back.
unfoldable pub le_bytes : ℕ → ℕ → List ℕ
le_bytes zero v = []
le_bytes (suc n) v = (v % 256) ∷ le_bytes n (v / 256)

unfoldable pub of_le_bytes : List ℕ → ℕ
of_le_bytes [] = 0
of_le_bytes (b ∷ bs) = b + 256 * of_le_bytes bs

pub length-le_bytes : (n v : ℕ) → length (le_bytes n v) ≡ n
unfolding le_bytes
length-le_bytes zero v = refl
length-le_bytes (suc n) v = ap suc (length-le_bytes n (v / 256))

pub of_le_bytes-le_bytes : (n v : ℕ) → v < 256 ^ n → of_le_bytes (le_bytes n v) ≡ v
unfolding le_bytes of_le_bytes
of_le_bytes-le_bytes zero v h = omega arith
of_le_bytes-le_bytes (suc n) v h =
    omega (arith, pow-suc 256 n, of_le_bytes-le_bytes n (v / 256) (omega (arith, pow-suc 256 n)))

-- A region of memory: the byte at each address.
abbrev pub Mem : Type 0
Mem = ℕ → ℕ

unfoldable pub write_bytes : Mem → ℕ → List ℕ → Mem
write_bytes m a [] = m
write_bytes m a (x ∷ xs) = write_bytes (λ i. if i == a then x else m i) (a + 1) xs

unfoldable pub read_bytes : Mem → ℕ → ℕ → List ℕ
read_bytes m a zero = []
read_bytes m a (suc n) = m a ∷ read_bytes m (a + 1) n

-- A write leaves what is outside it.
pub write_bytes_outside :
    (m : Mem) (a : ℕ) (xs : List ℕ) (i : ℕ)
    → (i < a) ⊎ (a + length xs ≤ i)
    → write_bytes m a xs i ≡ m i
unfolding write_bytes
write_bytes_outside m a [] i h = refl
write_bytes_outside m a (x ∷ xs) i h =
    ground (arith, write_bytes_outside (λ j. if j == a then x else m j) (a + 1) xs i)

pub read_bytes_cong :
    (m m' : Mem) (a n : ℕ)
    → ((i : ℕ) → a ≤ i → i < a + n → m i ≡ m' i)
    → read_bytes m a n ≡ read_bytes m' a n
unfolding read_bytes
read_bytes_cong m m' a zero h = refl
read_bytes_cong m m' a (suc n) h =
    ap₂ ◌∷◌ (h a (omega arith) (omega arith))
      (read_bytes_cong m m' (a + 1) n (λ i p q. h i (omega arith) (omega arith)))

-- A read that a write does not meet.
pub read_bytes-write_bytes_disjoint :
    (m : Mem) (a : ℕ) (xs : List ℕ) (b n : ℕ)
    → (b + n ≤ a) ⊎ (a + length xs ≤ b)
    → read_bytes (write_bytes m a xs) b n ≡ read_bytes m b n
read_bytes-write_bytes_disjoint m a xs b n h =
    read_bytes_cong _ _ b n (λ i p q. write_bytes_outside m a xs i (ground arith))

-- A read of what was written.
pub read_bytes-write_bytes :
    (m : Mem) (a : ℕ) (xs : List ℕ) → read_bytes (write_bytes m a xs) a (length xs) ≡ xs
unfolding read_bytes write_bytes
read_bytes-write_bytes m a [] = refl
read_bytes-write_bytes m a (x ∷ xs) = ground (
  arith,
  write_bytes_outside (λ i. if i == a then x else m i) (a + 1) xs a,
  read_bytes-write_bytes (λ i. if i == a then x else m i) (a + 1) xs,
)

pub length-read_bytes : (m : Mem) (a n : ℕ) → length (read_bytes m a n) ≡ n
unfolding read_bytes
length-read_bytes m a zero = refl
length-read_bytes m a (suc n) = ap suc (length-read_bytes m (a + 1) n)

pub take-read_bytes : (m : Mem) (a k n : ℕ) → k ≤ n → take k (read_bytes m a n) ≡ read_bytes m a k
unfolding read_bytes
take-read_bytes m a zero n h = refl
take-read_bytes m a (suc k) zero h = absurd (omega arith)
take-read_bytes m a (suc k) (suc n) h =
    ap (λ (t : List ℕ). m a ∷ t) (take-read_bytes m (a + 1) k n (omega arith))
