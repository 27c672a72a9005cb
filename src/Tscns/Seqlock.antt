-- ===== src/Tscns/Seqlock.antt =====
-- `tsc2ns` of src/tscns.rs on one thread while another calls `save_param`: each read and each write
-- of a static variable is one step, and the steps interleave in any order. Saves are made by one
-- thread at a time. A reader writes nothing, so that with several each runs as if it were alone.
pub mod Inv
pub mod Safe
pub mod Stray
use nanolog_rs.Prelude.{ℕ, ◌+◌, ◌-◌, ◌%◌, ◌≡◌, ◌≢◌, List, [], ◌∷◌}
use nanolog_rs.Prelude.Int.{ℤ, ◌-ℤ◌}
use nanolog_rs.Tscns.{Float, Params, next_calibration}

-- The arguments of `save_param`.
pub record Save (F : Type 0) : Type 0 where
  pub base_tsc : ℤ
  pub base_ns : ℤ
  pub sys_ns : ℤ
  pub new_ns_per_tsc : F

-- Where the saving thread stands: before the statement of `save_param` that the name tells.
pub data Writer (F : Type 0) : Type 0 where
  resting : Writer F
  at_next : Save F → Writer F
  at_load : Save F → Writer F
  at_lock : Save F → ℕ → Writer F
  at_base_tsc : Save F → ℕ → Writer F
  at_base_ns : Save F → ℕ → Writer F
  at_ns_per_tsc : Save F → ℕ → Writer F
  at_unlock : Save F → ℕ → Writer F

-- Where the reading thread stands in a round of the loop of `tsc2ns`, with what it has read.
pub data Reader (F : Type 0) : Type 0 where
  at_start : Reader F
  at_tsc : (before_seq : ℕ) → Reader F
  at_ratio : (before_seq : ℕ) (tsc : ℤ) → Reader F
  at_ns : (before_seq : ℕ) (tsc : ℤ) (ratio : F) → Reader F
  at_check : (before_seq : ℕ) (tsc : ℤ) (ratio : F) (ns : ℤ) → Reader F
  returned : (before_seq : ℕ) (tsc : ℤ) (ratio : F) (ns : ℤ) → Reader F

module _ (f : Float) where
  open f use {F}

  -- A step of the saving thread.
  pub data Write (m : Params F) : Writer F → Params F → Writer F → Type 0 where
    set_next :
        {a : Save F}
        → Write m
            (at_next a)
            (record m {
              next_calibrate_tsc =
                  next_calibration f a.base_tsc m.calibate_interval_ns a.new_ns_per_tsc;
            })
            (at_load a)
    load_seq : {a : Save F} → Write m (at_load a) m (at_lock a m.param_seq)
    lock :
        {a : Save F} {seq : ℕ}
        → Write m (at_lock a seq) (record m { param_seq = seq + 1 }) (at_base_tsc a seq)
    set_base_tsc :
        {a : Save F} {seq : ℕ}
        → Write m (at_base_tsc a seq) (record m { base_tsc = a.base_tsc }) (at_base_ns a seq)
    set_base_ns :
        {a : Save F} {seq : ℕ}
        → Write m (at_base_ns a seq) (record m { base_ns = a.base_ns }) (at_ns_per_tsc a seq)
    set_ns_per_tsc :
        {a : Save F} {seq : ℕ}
        → Write m
            (at_ns_per_tsc a seq)
            (record m { ns_per_tsc = a.new_ns_per_tsc })
            (at_unlock a seq)
    unlock :
        {a : Save F} {seq : ℕ}
        → Write m (at_unlock a seq) (record m { param_seq = seq + 2 }) resting

  -- A step of the reading thread; `& !1` takes the lowest bit off.
  pub data Read (m : Params F) : Reader F → Reader F → Type 0 where
    load_before : Read m at_start (at_tsc (m.param_seq - m.param_seq % 2))
    load_base_tsc : {b : ℕ} → Read m (at_tsc b) (at_ratio b m.base_tsc)
    load_ratio : {b : ℕ} {t : ℤ} → Read m (at_ratio b t) (at_ns b t m.ns_per_tsc)
    load_base_ns : {b : ℕ} {t : ℤ} {x : F} → Read m (at_ns b t x) (at_check b t x m.base_ns)
    accept :
        {b : ℕ} {t : ℤ} {x : F} {n : ℤ}
        → b ≡ m.param_seq
        → Read m (at_check b t x n) (returned b t x n)
    retry : {b : ℕ} {t : ℤ} {x : F} {n : ℤ} → b ≢ m.param_seq → Read m (at_check b t x n) at_start

  -- `saves` are the calls of `save_param` that have begun, the last one first.
  pub record System : Type 0 where
    pub mem : Params F
    pub writer : Writer F
    pub reader : Reader F
    pub saves : List (Save F)

  pub data Step (s : System) : System → Type 0 where
    -- a call of `save_param`, with its first write
    begin :
        (a : Save F)
        → s.writer ≡ resting
        → Step s (record s {
          mem = record s.mem { base_ns = a.base_ns -ℤ a.sys_ns };
          writer = at_next a;
          saves = a ∷ s.saves;
        })
    write :
        {m : Params F} {w : Writer F}
        → Write s.mem s.writer m w
        → Step s (record s { mem = m; writer = w })
    read : {r : Reader F} → Read s.mem s.reader r → Step s (record s { reader = r })

  pub data Reach (s : System) : System → Type 0 where
    here : Reach s s
    later : {t u : System} → Reach s t → Step t u → Reach s u

  -- Both threads at rest.
  abbrev pub start : Params F → System
  start p = record { mem = p; writer = resting; reader = at_start; saves = [] }
