-- ===== src/Tscns/Seqlock/Inv.antt =====
-- What a reader of the bases in src/tscns.rs can return.
use nanolog_rs.Prelude.{ℕ, ◌+◌, ◌*◌, ◌%◌, ◌≤◌, ◌≡◌, ◌⊎◌, List, [], ◌∷◌, ◌++◌, length}
use nanolog_rs.Prelude.Int.{ℤ, ◌-ℤ◌}
use nanolog_rs.Tscns.{Float, Params}
use nanolog_rs.Tscns.Seqlock.{
  Save, Writer, resting, at_next, at_load, at_lock, at_base_tsc, at_base_ns, at_ns_per_tsc,
  at_unlock, Reader, at_start, at_tsc, at_ratio, at_ns, at_check, returned, System,
}

-- Bases that belong together.
pub record Bases (F : Type 0) : Type 0 where
  pub tsc : ℤ
  pub ns : ℤ
  pub ratio : F

-- The first value that a save gives `BASE_NS`, before it takes the lock.
abbrev pub stray : {F : Type 0} → Save F → ℤ
stray a = a.base_ns -ℤ a.sys_ns

-- Those after some saves, the last one first: the last save's, or the first ones.
abbrev pub bases : {F : Type 0} → Params F → List (Save F) → Bases F
bases p [] = record { tsc = p.base_tsc; ns = p.base_ns; ratio = p.ns_per_tsc }
bases p (a ∷ older) = record { tsc = a.base_tsc; ns = a.base_ns; ratio = a.new_ns_per_tsc }

-- What may be read as the base time while `finished` are the saves that are over.
abbrev pub IsNs : {F : Type 0} → Params F → List (Save F) → List (Save F) → ℤ → Type 0
IsNs {F} p saves finished n =
    (n ≡ (bases p finished).ns) ⊎ ((a : Save F) × (saves ≡ a ∷ finished) × (n ≡ stray a))

-- What a reader returns: the counter's base and the ratio of one save, `past` ending with it, and
-- its base time, or the stray value of the save that follows it.
pub record Consistent {F : Type 0} (p : Params F) (saves : List (Save F)) (b : ℕ) (t : ℤ) (x : F)
    (n : ℤ) : Type 0 where
  pub recent : List (Save F)
  pub past : List (Save F)
  pub split : saves ≡ recent ++ past
  pub seq_is : b ≡ p.param_seq + 2 * length past
  pub tsc_is : t ≡ (bases p past).tsc
  pub ratio_is : x ≡ (bases p past).ratio
  pub ns_is :
      (n ≡ (bases p past).ns)
      ⊎ ((a : Save F) × (newer : List (Save F)) × (saves ≡ newer ++ (a ∷ past)) × (n ≡ stray a))

module _ {F : Type 0} (p : Params F) where
  -- A save has begun, and has not taken the lock, or has taken it.
  abbrev pub Unlocked : List (Save F) → List (Save F) → Params F → Save F → Type 0
  Unlocked saves finished m a =
      (saves ≡ a ∷ finished)
      × (m.param_seq ≡ p.param_seq + 2 * length finished)
      × (m.base_tsc ≡ (bases p finished).tsc)
      × (m.ns_per_tsc ≡ (bases p finished).ratio)
      × (m.base_ns ≡ stray a)

  abbrev pub Locked : List (Save F) → List (Save F) → Params F → Save F → ℕ → Type 0
  Locked saves finished m a seq =
      (saves ≡ a ∷ finished) × (seq ≡ p.param_seq + 2 * length finished) × (m.param_seq ≡ seq + 1)

  -- The save of `writer` and those that are over, against what memory holds.
  abbrev pub WriterInv : List (Save F) → List (Save F) → Params F → Writer F → Type 0
  WriterInv saves finished m resting =
      (saves ≡ finished)
      × (m.param_seq ≡ p.param_seq + 2 * length finished)
      × (m.base_tsc ≡ (bases p finished).tsc)
      × (m.ns_per_tsc ≡ (bases p finished).ratio)
      × (m.base_ns ≡ (bases p finished).ns)
  WriterInv saves finished m (at_next a) = Unlocked saves finished m a
  WriterInv saves finished m (at_load a) = Unlocked saves finished m a
  WriterInv saves finished m (at_lock a seq) = Unlocked saves finished m a × (seq ≡ m.param_seq)
  WriterInv saves finished m (at_base_tsc a seq) = Locked saves finished m a seq
  WriterInv saves finished m (at_base_ns a seq) =
      Locked saves finished m a seq × (m.base_tsc ≡ a.base_tsc)
  WriterInv saves finished m (at_ns_per_tsc a seq) =
      Locked saves finished m a seq × (m.base_tsc ≡ a.base_tsc) × (m.base_ns ≡ a.base_ns)
  WriterInv saves finished m (at_unlock a seq) =
      Locked saves finished m a seq
      × (m.base_tsc ≡ a.base_tsc)
      × (m.base_ns ≡ a.base_ns)
      × (m.ns_per_tsc ≡ a.new_ns_per_tsc)

  -- What the reader has read belongs to the last save that is over, if no save has taken the lock
  -- since the round began.
  abbrev pub ReaderInv : List (Save F) → List (Save F) → ℕ → Reader F → Type 0
  ReaderInv saves finished seq at_start = seq ≡ seq
  ReaderInv saves finished seq (at_tsc b) = (b % 2 ≡ 0) × (b ≤ seq)
  ReaderInv saves finished seq (at_ratio b t) =
      (b % 2 ≡ 0) × (b ≤ seq) × (b ≡ seq → t ≡ (bases p finished).tsc)
  ReaderInv saves finished seq (at_ns b t x) =
      (b % 2 ≡ 0)
      × (b ≤ seq)
      × (b ≡ seq → (t ≡ (bases p finished).tsc) × (x ≡ (bases p finished).ratio))
  ReaderInv saves finished seq (at_check b t x n) =
      (b % 2 ≡ 0)
      × (b ≤ seq)
      × (b ≡ seq
          → (t ≡ (bases p finished).tsc) × (x ≡ (bases p finished).ratio) × IsNs p saves finished n)
  ReaderInv saves finished seq (returned b t x n) = Consistent p saves b t x n

pub record Inv {f : Float} (p : Params f.F) (s : System f) : Type 0 where
  pub even : p.param_seq % 2 ≡ 0
  pub finished : List (Save f.F)
  pub writer_ok : WriterInv p s.saves finished s.mem s.writer
  pub reader_ok : ReaderInv p s.saves finished s.mem.param_seq s.reader
