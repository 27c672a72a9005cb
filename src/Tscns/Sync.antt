-- ===== src/Tscns/Sync.antt =====
-- The sample that `sync_time` of src/tscns.rs chooses, and when the wait of `init` ends.
use nanolog_rs.Prelude.{
  ◌+◌, ◌*◌, ◌≤◌, ◌<◌, ◌≡◌, refl, ◌⊎◌, inl, inr, true, false, ap, sym, subst, ◌-◌, ◌^◌, ◌++◌, some,
  none, List, [], ◌∷◌, arith, if◌then◌else◌, Bool-cases,
}
use nanolog_rs.Prelude.Int.{
  ℤ, pos, negsuc, pos_part, neg_part, ◌+ℤ◌, div_euclid, ltb_ℤ, +ℤ_parts, -ℤ_parts, ◌-ℤ◌, ◌≤ℤ◌,
  wrap_i64, wrap_i64_lem, in_range_lem,
}
use nanolog_rs.Tscns.{Sample, width, best_of, Readings, samples, sync_time, spin_until}

-- The measure of the sample is no larger than theirs.
abbrev pub AtMost : (Sample → ℤ) → Sample → List Sample → Type 0
AtMost measure x [] = 0 ≤ 0
AtMost measure x (s ∷ ss) = (measure x ≤ℤ measure s) × AtMost measure x ss

-- The sample is the first of those with the smallest measure.
abbrev pub IsFirst : (Sample → ℤ) → Sample → List Sample → Type 0
IsFirst measure x [] = ⊥
IsFirst measure x (s ∷ ss) =
    ((x ≡ s) × AtMost measure x ss)
    ⊎ ((ltb_ℤ (measure x) (measure s) ≡ true) × IsFirst measure x ss)

-- The counts between the two readings around the system clock's.
abbrev pub gap : Sample → ℤ
gap s = s.after -ℤ s.before

abbrev pub AllBefore : ℤ → List ℤ → Type 0
AllBefore expire [] = 0 ≤ 0
AllBefore expire (t ∷ ts) = (ltb_ℤ t expire ≡ true) × AllBefore expire ts

abbrev narrower : Sample → Sample → Sample
narrower best s = if ltb_ℤ (width s) (width best) then s else best

narrower-le :
    (best s : Sample)
    → (width (narrower best s) ≤ℤ width best) × (width (narrower best s) ≤ℤ width s)
narrower-le best s = elim (Bool-cases (ltb_ℤ (width s) (width best))) [
  | inl e ↦ rw e (ground arith)
  | inr e ↦ rw e (ground arith)
]

narrower-cases : (best s : Sample) → (narrower best s ≡ s) ⊎ (narrower best s ≡ best)
narrower-cases best s = elim (Bool-cases (ltb_ℤ (width s) (width best))) [
  | inl e ↦ inl (rw e refl)
  | inr e ↦ inr (rw e refl)
]

best_of-le : (best : Sample) (ss : List Sample) → width (best_of best ss) ≤ℤ width best
unfolding best_of
best_of-le best [] = omega arith
best_of-le best (s ∷ ss) = omega (arith, best_of-le (narrower best s) ss, (narrower-le best s).0)

best_of-IsFirst : (best : Sample) (ss : List Sample) → IsFirst width (best_of best ss) (best ∷ ss)
unfolding best_of
best_of-IsFirst best [] = inl (refl, omega arith)
best_of-IsFirst best (s ∷ ss) = elim (Bool-cases (ltb_ℤ (width s) (width best))) [
  | inl e ↦
      let step : narrower best s ≡ s = rw e refl in
      subst (λ (b : Sample). IsFirst width (best_of b ss) (best ∷ s ∷ ss)) (sym step)
        (inr (below s e, best_of-IsFirst s ss))
  | inr e ↦
      let step : narrower best s ≡ best = rw e refl in
      subst (λ (b : Sample). IsFirst width (best_of b ss) (best ∷ s ∷ ss)) (sym step)
        (skip (best_of best ss) e (best_of-IsFirst best ss))
]
  where
    below :
        (s' : Sample)
        → ltb_ℤ (width s') (width best) ≡ true
        → ltb_ℤ (width (best_of s' ss)) (width best) ≡ true
    below s' e = ground (arith, best_of-le s' ss)

    skip :
        (x : Sample)
        → ltb_ℤ (width s) (width best) ≡ false
        → IsFirst width x (best ∷ ss)
        → IsFirst width x (best ∷ s ∷ ss)
    skip x e (inl (is, rest)) = inl (is, (rw is (ground arith), rest))
    skip x e (inr (less, later)) = inr (less, inr (ground arith, later))

-- On samples for which two measures agree the first is the same.
abbrev Agree : (m m' : Sample → ℤ) → List Sample → Type 0
Agree m m' [] = Unit
Agree m m' (s ∷ ss) = (m s ≡ m' s) × Agree m m' ss

AtMost-Agree :
    (m m' : Sample → ℤ) (x : Sample) (ss : List Sample)
    → Agree m m' ss
    → m x ≡ m' x
    → AtMost m x ss
    → AtMost m' x ss
AtMost-Agree m m' x [] a e h = h
AtMost-Agree m m' x (s ∷ ss) (a, rest_agree) e (h, hs) =
    (rw (e, a) at h, AtMost-Agree m m' x ss rest_agree e hs)

IsFirst-Agree :
    (m m' : Sample → ℤ) (x : Sample) (ss : List Sample)
    → Agree m m' ss
    → m x ≡ m' x
    → IsFirst m x ss
    → IsFirst m' x ss
IsFirst-Agree m m' x [] a e h = h
IsFirst-Agree m m' x (s ∷ ss) (a, rest_agree) e (inl (is, rest)) =
    inl (is, AtMost-Agree m m' x ss rest_agree e rest)
IsFirst-Agree m m' x (s ∷ ss) (a, rest_agree) e (inr (less, later)) =
    inr (rw (e, a) at less, IsFirst-Agree m m' x ss rest_agree e later)

-- The half, rounded down.
half_parts :
    (z : ℤ)
    → (2 * pos_part (div_euclid z 2) + neg_part z ≤ pos_part z + 2 * neg_part (div_euclid z 2))
      × (pos_part z + 2 * neg_part (div_euclid z 2)
          < 2 * pos_part (div_euclid z 2) + neg_part z + 2)
unfolding div_euclid
half_parts (pos n) = omega arith
half_parts (negsuc n) = omega arith

half_between : (a b : ℤ) → a ≤ℤ b → (a ≤ℤ div_euclid (b +ℤ a) 2) × (div_euclid (b +ℤ a) 2 ≤ℤ b)
half_between a b h = omega (arith, +ℤ_parts b a, half_parts (b +ℤ a))

-- The counter does not go back between the readings, and stays between 0 and 2 ^ 62.
pub record InTurn (r : Readings) : Type 0 where
  pub from_zero : pos 0 ≤ℤ r.tsc0
  pub first : r.tsc0 ≤ℤ r.tsc1
  pub second : r.tsc1 ≤ℤ r.tsc2
  pub third : r.tsc2 ≤ℤ r.tsc3
  pub in_range : r.tsc3 ≤ℤ pos (2 ^ 62 - 1)

-- What holds of the two readings of a sample then.
abbrev Between : Sample → Type 0
Between s = (pos 0 ≤ℤ s.before) × (s.before ≤ℤ s.after) × (s.after ≤ℤ pos (2 ^ 62 - 1))

width-gap : (s : Sample) → Between s → width s ≡ gap s
width-gap s h = wrap_i64_lem (gap s) (
    in_range_lem (gap s) (omega (arith, -ℤ_parts s.after s.before))
      (omega (arith, -ℤ_parts s.after s.before)))

first_Between :
    (m : Sample → ℤ) (x : Sample) (r : Readings)
    → InTurn r
    → IsFirst m x ((samples r).0 ∷ (samples r).1)
    → Between x
first_Between m x r h (inl (e, rest)) = rw e (omega (arith, h))
first_Between m x r h (inr (less, inl (e, rest))) = rw e (omega (arith, h))
first_Between m x r h (inr (less, inr (less', inl (e, rest)))) = rw e (omega (arith, h))
first_Between m x r h (inr (less, inr (less', inr (less'', none_left)))) = absurd none_left

-- Where the counter never goes back between the readings and stays between 0 and 2 ^ 62, `sync_time`
-- gives the time of the system clock of one of the three samples, the first of those with the fewest
-- counts between the two readings around it, and for the counter half the sum of these two, rounded
-- down, which lies between them.
pub sync_time_lem :
    (r : Readings)
    → InTurn r
    → (s : Sample) × IsFirst gap s ((samples r).0 ∷ (samples r).1)
      × (sync_time r ≡ (div_euclid (s.after +ℤ s.before) 2, s.ns))
      × (s.before ≤ℤ (sync_time r).0)
      × ((sync_time r).0 ≤ℤ s.after)
unfolding sync_time
sync_time_lem r h =
    let (first, rest) = samples r in
    let best : Sample = best_of first rest in
    let found = best_of-IsFirst first rest in
    let between = first_Between width best r h found in
    let agree : Agree width gap (first ∷ rest) = (
      width-gap first (omega (arith, h)),
      (
        width-gap (record { before = r.tsc1; ns = r.ns2; after = r.tsc2 }) (omega (arith, h)),
        (width-gap (record { before = r.tsc2; ns = r.ns3; after = r.tsc3 }) (omega (arith, h)), tt),
      ),
    ) in
    let sum = +ℤ_parts best.after best.before in
    let exact : wrap_i64 (best.after +ℤ best.before) ≡ best.after +ℤ best.before =
      wrap_i64_lem (best.after +ℤ best.before) (
        in_range_lem (best.after +ℤ best.before) (omega (arith, between, sum))
          (omega (arith, between, sum))) in
    let mid = half_between best.before best.after between.1 in
    (
      best,
      IsFirst-Agree width gap best (first ∷ rest) agree (width-gap best between) found,
      ap (λ (a : ℤ). (div_euclid a 2, best.ns)) exact,
      rw exact mid.0,
      rw exact mid.1,
    )

-- The wait ends at the first time that the clock shows at or past `expire`.
pub spin_until_lem :
    (expire now : ℤ) (early later : List ℤ)
    → AllBefore expire early
    → expire ≤ℤ now
    → spin_until expire (early ++ (now ∷ later)) ≡ some now
unfolding spin_until
spin_until_lem expire now [] later h k = elim (Bool-cases (ltb_ℤ now expire)) [
  | inl e ↦ absurd (ground arith)
  | inr e ↦ rw e refl
]
spin_until_lem expire now (t ∷ early) later (h, hs) k =
    rw (h, spin_until_lem expire now early later hs k) refl

-- Until then it does not end.
pub spin_until_waits :
    (expire : ℤ) (early : List ℤ) → AllBefore expire early → spin_until expire early ≡ none
unfolding spin_until
spin_until_waits expire [] h = refl
spin_until_waits expire (t ∷ early) (h, hs) = rw (h, spin_until_waits expire early hs) refl
