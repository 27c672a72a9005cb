-- ===== src/Tscns/Seqlock/Stray.antt =====
-- Runs of the two threads of the clock in src/tscns.rs: each alone, and a read of `BASE_NS` between
-- the first two writes that `save_param` makes to it.
use nanolog_rs.Prelude.{ℕ, suc, ◌+◌, ◌-◌, ◌%◌, ◌≡◌, refl, some, List, [], ◌∷◌, arith, eq→==}
use nanolog_rs.Prelude.Int.{ℤ, ◌-ℤ◌}
use nanolog_rs.Tscns.{Float, Params, ns_at, tsc2ns, save_param}
use nanolog_rs.Tscns.Seqlock.{
  Save, Writer, resting, at_start, returned, set_next, load_seq, lock, set_base_tsc, set_base_ns,
  set_ns_per_tsc, unlock, load_before, load_base_tsc, load_ratio, load_base_ns, accept, System,
  begin, write, read, Reach, here, later, start,
}

module _ {f : Float} where
  open f use {F}

  -- The five steps of a reader while nothing is written, from any reachable state.
  undisturbed :
      (p m : Params F) (w : Writer F) (saves : List (Save F))
      → m.param_seq % 2 ≡ 0
      → Reach f (start f p) (record { mem = m; writer = w; reader = at_start; saves = saves })
      → Reach f (start f p) (record {
        mem = m;
        writer = w;
        reader = returned m.param_seq m.base_tsc m.ns_per_tsc m.base_ns;
        saves = saves;
      })
  undisturbed p m w saves h r =
      let same : m.param_seq - m.param_seq % 2 ≡ m.param_seq = omega arith in
      rw same at (
        later
          (later (later (later (later r (read load_before)) (read load_base_tsc)) (read load_ratio))
            (read load_base_ns))
          (read (accept same)))

  saved :
      (p : Params F) (a : Save F)
      → Reach f (start f p) (record {
        mem = save_param f a.base_tsc a.base_ns a.sys_ns a.new_ns_per_tsc p;
        writer = resting;
        reader = at_start;
        saves = a ∷ [];
      })
  unfolding save_param
  saved p a =
      later
        (later
          (later
            (later
              (later (later (later (later here (begin a refl)) (write set_next)) (write load_seq))
                (write lock))
              (write set_base_tsc))
            (write set_base_ns))
          (write set_ns_per_tsc))
        (write unlock)

  -- Both threads' calls, each while the other rests, are the functions: the steps of a save lead from
  -- memory `p` to the memory that `save_param` computes, and those of a reader, where the sequence
  -- number is even, to the values from which `tsc2ns` computes its result.
  pub steps_alone :
      (p : Params F) (a : Save F)
      → p.param_seq % 2 ≡ 0
      → (s : System f) × Reach f (start f p) s
        × (s.mem ≡ save_param f a.base_tsc a.base_ns a.sys_ns a.new_ns_per_tsc p)
        × (s.writer ≡ resting)
        × (s.reader ≡ returned (p.param_seq + 2) a.base_tsc a.new_ns_per_tsc a.base_ns)
        × ((fuel : ℕ) (tsc : ℤ)
            → tsc2ns f (suc fuel) s.mem tsc
              ≡ some (ns_at f a.base_tsc a.new_ns_per_tsc a.base_ns tsc))
  unfolding save_param tsc2ns ns_at
  steps_alone p a h = (
    _,
    undisturbed p (save_param f a.base_tsc a.base_ns a.sys_ns a.new_ns_per_tsc p) resting (a ∷ [])
        (omega (arith, h)) (saved p a),
    refl,
    refl,
    refl,
    λ fuel tsc.
        rw
          (
            tsc2ns,
            eq→== (p.param_seq + 2 - (p.param_seq + 2) % 2) (p.param_seq + 2) (omega (arith, h)),
          )
          refl,
  )

  -- From rest, with an even sequence number, and for any save: a run leads to where `tsc2ns` has
  -- accepted the first bases with the difference of the save's two times as its base time, before
  -- the save takes the lock.
  pub tsc2ns_stray :
      (p : Params F) (a : Save F)
      → p.param_seq % 2 ≡ 0
      → (s : System f) × Reach f (start f p) s
        × (s.mem.param_seq ≡ p.param_seq)
        × (s.reader ≡ returned p.param_seq p.base_tsc p.ns_per_tsc (a.base_ns -ℤ a.sys_ns))
  tsc2ns_stray p a h = (_, undisturbed p _ _ _ h (later here (begin a refl)), refl, refl)
