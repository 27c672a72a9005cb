-- ===== src/Benchmark/Figures.antt =====
-- The percentiles that src/main.rs prints are costs of the list, and stand in order.
use mathlib.Core.List.Memᴰ
use mathlib.Core.List.{Memᴰ, Permᴰ}
use nanolog_rs.Prelude.{
  ℕ, zero, suc, ◌-◌, ◌≤◌, ◌<◌, ◌≡◌, refl, ap, ◌∙◌, min, max, some, List, [], ◌∷◌, length, get_elem?,
  arith,
}
use nanolog_rs.Prelude.Outcome.{ok}
use nanolog_rs.Benchmark.{smallest, largest, percentile_ns}

abbrev pub Ascending : List ℕ → Type 0
Ascending [] = Unit
Ascending (x ∷ []) = Unit
Ascending (x ∷ (y ∷ ys)) = (x ≤ y) × Ascending (y ∷ ys)

-- What `sort_unstable` makes of a list.
pub record IsSorting (v v' : List ℕ) : Type 0 where
  pub same : Permᴰ v' v
  pub ascending : Ascending v'

Permᴰ-Memᴰ : {x : ℕ} {v v' : List ℕ} → Permᴰ v v' → Memᴰ x v → Memᴰ x v'
Permᴰ-Memᴰ Permᴰ.nil m = m
Permᴰ-Memᴰ (Permᴰ.cons e d) (Memᴰ.head e') = Memᴰ.head (e' ∙ e)
Permᴰ-Memᴰ (Permᴰ.cons e d) (Memᴰ.tail m) = Memᴰ.tail (Permᴰ-Memᴰ d m)
Permᴰ-Memᴰ (Permᴰ.swap e e') (Memᴰ.head h) = Memᴰ.tail (Memᴰ.head (h ∙ e))
Permᴰ-Memᴰ (Permᴰ.swap e e') (Memᴰ.tail (Memᴰ.head h)) = Memᴰ.head (h ∙ e')
Permᴰ-Memᴰ (Permᴰ.swap e e') (Memᴰ.tail (Memᴰ.tail m)) = Memᴰ.tail (Memᴰ.tail m)
Permᴰ-Memᴰ (Permᴰ.trans d d') m = Permᴰ-Memᴰ d' (Permᴰ-Memᴰ d m)

length-Permᴰ : {v v' : List ℕ} → Permᴰ v v' → length v ≡ length v'
length-Permᴰ Permᴰ.nil = refl
length-Permᴰ (Permᴰ.cons e d) = ap suc (length-Permᴰ d)
length-Permᴰ (Permᴰ.swap e e') = refl
length-Permᴰ (Permᴰ.trans d d') = length-Permᴰ d ∙ length-Permᴰ d'

-- An index within the list.
element : (v : List ℕ) (i : ℕ) → i < length v → (x : ℕ) × (get_elem? v i ≡ some x) × Memᴰ x v
element [] i h = absurd (omega arith)
element (x ∷ xs) zero h = (x, refl, Memᴰ.head refl)
element (x ∷ xs) (suc i) h = let (y, e, m) = element xs i (omega arith) in (y, e, Memᴰ.tail m)

first-le :
    (x : ℕ) (xs : List ℕ) (i : ℕ) {y : ℕ}
    → Ascending (x ∷ xs)
    → get_elem? (x ∷ xs) i ≡ some y
    → x ≤ y
first-le x xs zero a e = ground (arith, e)
first-le x [] (suc i) a e = absurd (ground (arith, e))
first-le x (y ∷ ys) (suc i) a e = omega (arith, a.0, first-le y ys i a.1 e)

element-le :
    (v : List ℕ) (i j : ℕ) {x y : ℕ}
    → Ascending v
    → i ≤ j
    → get_elem? v i ≡ some x
    → get_elem? v j ≡ some y
    → x ≤ y
element-le [] i j a h e e' = absurd (ground (arith, e))
element-le (z ∷ zs) zero j {x} a h e e' =
    let x_is : x ≡ z = ground (arith, e) in omega (arith, first-le z zs j a e', x_is)
element-le (z ∷ zs) (suc i) zero a h e e' = absurd (omega arith)
element-le (z ∷ []) (suc i) (suc j) a h e e' = absurd (ground (arith, e))
element-le (z ∷ (y ∷ ys)) (suc i) (suc j) a h e e' = element-le (y ∷ ys) i j a.1 (omega arith) e e'

abbrev IsLeast : ℕ → List ℕ → Type 0
IsLeast lo v = (y : ℕ) → Memᴰ y v → lo ≤ y

abbrev IsMost : ℕ → List ℕ → Type 0
IsMost hi v = (y : ℕ) → Memᴰ y v → y ≤ hi

IsLeast-cons : (x lo : ℕ) (v : List ℕ) → IsLeast lo v → IsLeast (min x lo) (x ∷ v)
IsLeast-cons x lo v h y (Memᴰ.head e) = omega (arith, e)
IsLeast-cons x lo v h y (Memᴰ.tail m) = omega (arith, h y m)

IsMost-cons : (x hi : ℕ) (v : List ℕ) → IsMost hi v → IsMost (max x hi) (x ∷ v)
IsMost-cons x hi v h y (Memᴰ.head e) = omega (arith, e)
IsMost-cons x hi v h y (Memᴰ.tail m) = omega (arith, h y m)

single : {x y : ℕ} → Memᴰ y (x ∷ []) → y ≡ x
single (Memᴰ.head e) = e
single (Memᴰ.tail m) = absurd (Memᴰ.not-nil m)

smallest_lem : (x : ℕ) (xs : List ℕ) → (lo : ℕ) × (smallest (x ∷ xs) ≡ ok lo) × IsLeast lo (x ∷ xs)
unfolding smallest
smallest_lem x [] = (x, refl, λ y m. omega (arith, single m))
smallest_lem x (y ∷ ys) =
    let (lo, e, least) = smallest_lem y ys in
    (min x lo, rw e refl, IsLeast-cons x lo (y ∷ ys) least)

largest_lem : (x : ℕ) (xs : List ℕ) → (hi : ℕ) × (largest (x ∷ xs) ≡ ok hi) × IsMost hi (x ∷ xs)
unfolding largest
largest_lem x [] = (x, refl, λ y m. omega (arith, single m))
largest_lem x (y ∷ ys) =
    let (hi, e, most) = largest_lem y ys in (max x hi, rw e refl, IsMost-cons x hi (y ∷ ys) most)

module _ {F : Type 0} (sort : List ℕ → List ℕ) (index : ℕ → F → ℕ) where
  percentile_ns_lem :
      (v : List ℕ) (p : F) (n : ℕ) {x : ℕ}
      → length (sort v) ≡ n
      → get_elem? (sort v) (min (index n p) (n - 1)) ≡ some x
      → percentile_ns sort index v p ≡ ok x
  unfolding percentile_ns
  percentile_ns_lem v p n len e = rw (percentile_ns, len, e) refl

  picked :
      (v : List ℕ) (p : F)
      → Permᴰ (sort v) v
      → 0 < length v
      → (x : ℕ) × (percentile_ns sort index v p ≡ ok x)
        × Memᴰ x v
        × (get_elem? (sort v) (min (index (length v) p) (length v - 1)) ≡ some x)
  picked v p d h =
      let len = length-Permᴰ d in
      let (x, e, m) =
        element (sort v) (min (index (length v) p) (length v - 1)) (omega (arith, len)) in
      (x, percentile_ns_lem v p (length v) len e, Permᴰ-Memᴰ d m, e)

  -- For a list that is not empty, and that `sort_unstable` puts in ascending order, and for two
  -- shares of which the one gives an index that is not above that of the other: the smallest and
  -- the largest cost and both percentiles are found without a panic, the percentiles are costs of
  -- the list, and the four stand in order.
  pub percentiles_in_order :
      (v : List ℕ) (p p' : F)
      → IsSorting v (sort v)
      → 0 < length v
      → index (length v) p ≤ index (length v) p'
      → (lo x y hi : ℕ) × (smallest v ≡ ok lo)
        × (largest v ≡ ok hi)
        × (percentile_ns sort index v p ≡ ok x)
        × (percentile_ns sort index v p' ≡ ok y)
        × (lo ≤ x)
        × (x ≤ y)
        × (y ≤ hi)
        × Memᴰ x v
        × Memᴰ y v
  percentiles_in_order [] p p' s h le = absurd (omega arith)
  percentiles_in_order (z ∷ zs) p p' s h le =
      let (lo, lo_is, least) = smallest_lem z zs in
      let (hi, hi_is, most) = largest_lem z zs in
      let (x, x_is, mx, at_x) = picked (z ∷ zs) p s.same h in
      let (y, y_is, my, at_y) = picked (z ∷ zs) p' s.same h in
      let x_le = element-le (sort (z ∷ zs)) _ _ s.ascending (omega arith) at_x at_y in
      (lo, x, y, hi, lo_is, hi_is, x_is, y_is, least x mx, x_le, most y my, mx, my)
