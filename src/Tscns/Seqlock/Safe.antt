-- ===== src/Tscns/Seqlock/Safe.antt =====
-- Every step of the two threads of the clock in src/tscns.rs keeps the invariant.
use nanolog_rs.Prelude.{
  ℕ, ◌+◌, ◌*◌, ◌%◌, ◌<◌, ◌≡◌, refl, sym, ap, ◌∙◌, inl, inr, List, [], ◌∷◌, ◌++◌, length, arith,
}
use nanolog_rs.Prelude.Int.{ℤ}
use nanolog_rs.Tscns.{Float, Params}
use nanolog_rs.Tscns.Seqlock.{
  Save, Writer, resting, at_next, at_load, at_lock, at_base_tsc, at_base_ns, at_ns_per_tsc,
  at_unlock, Reader, at_start, at_tsc, at_ratio, at_ns, at_check, returned, Write, set_next,
  load_seq, lock, set_base_tsc, set_base_ns, set_ns_per_tsc, unlock, Read, load_before,
  load_base_tsc, load_ratio, load_base_ns, accept, retry, System, Step, begin, write, read, Reach,
  here, later, start,
}
use nanolog_rs.Tscns.Seqlock.Inv.{bases, IsNs, Consistent, Unlocked, WriterInv, ReaderInv, Inv}

module _ {F : Type 0} (p : Params F) where
  Consistent-more :
      (a : Save F) {saves : List (Save F)} {b : ℕ} {t : ℤ} {x : F} {n : ℤ}
      → Consistent p saves b t x n
      → Consistent p (a ∷ saves) b t x n
  Consistent-more a c = record {
    recent = a ∷ c.recent;
    past = c.past;
    split = ap (λ l. a ∷ l) c.split;
    seq_is = c.seq_is;
    tsc_is = c.tsc_is;
    ratio_is = c.ratio_is;
    ns_is = elim c.ns_is [
      | inl e ↦ inl e
      | inr (a', newer, e, e') ↦ inr (a', a ∷ newer, ap (λ l. a ∷ l) e, e')
    ];
  }

  -- A save that has begun changes nothing for a reader.
  ReaderInv-begin :
      (a : Save F) (saves finished : List (Save F)) (seq : ℕ) (r : Reader F)
      → saves ≡ finished
      → ReaderInv p saves finished seq r
      → ReaderInv p (a ∷ saves) finished seq r
  ReaderInv-begin a saves finished seq at_start e h = h
  ReaderInv-begin a saves finished seq (at_tsc b) e h = h
  ReaderInv-begin a saves finished seq (at_ratio b t) e h = h
  ReaderInv-begin a saves finished seq (at_ns b t x) e h = h
  ReaderInv-begin a saves finished seq (at_check b t x n) e (h1, h2, h3) = (
    h1,
    h2,
    λ k. elim (h3 k).2 [
      | inl same ↦ ((h3 k).0, (h3 k).1, inl same)
      | inr (a', e', s) ↦ absurd (omega (arith, ap (length {A = Save F}) (sym e ∙ e')))
    ],
  )
  ReaderInv-begin a saves finished seq (returned b t x n) e h = Consistent-more a h

  -- When the sequence number has gone on, the reader has to begin again.
  ReaderInv-stale :
      (saves finished finished' : List (Save F)) (seq seq' : ℕ) (r : Reader F)
      → seq < seq'
      → ReaderInv p saves finished seq r
      → ReaderInv p saves finished' seq' r
  ReaderInv-stale saves finished finished' seq seq' at_start lt h = refl
  ReaderInv-stale saves finished finished' seq seq' (at_tsc b) lt h = omega (arith, h)
  ReaderInv-stale saves finished finished' seq seq' (at_ratio b t) lt h =
      (h.0, omega (arith, h.1), λ e. absurd (omega (arith, e, h.1)))
  ReaderInv-stale saves finished finished' seq seq' (at_ns b t x) lt h =
      (h.0, omega (arith, h.1), λ e. absurd (omega (arith, e, h.1)))
  ReaderInv-stale saves finished finished' seq seq' (at_check b t x n) lt h =
      (h.0, omega (arith, h.1), λ e. absurd (omega (arith, e, h.1)))
  ReaderInv-stale saves finished finished' seq seq' (returned b t x n) lt h = h

  -- While the sequence number is even memory holds the bases of the saves that are over.
  record Readable (saves finished : List (Save F)) (m : Params F) : Type 0 where
    pub recent : List (Save F)
    pub split : saves ≡ recent ++ finished
    pub seq_is : m.param_seq ≡ p.param_seq + 2 * length finished
    pub tsc_is : m.base_tsc ≡ (bases p finished).tsc
    pub ratio_is : m.ns_per_tsc ≡ (bases p finished).ratio
    pub ns_is : IsNs p saves finished m.base_ns

  unlocked :
      (saves finished : List (Save F)) (m : Params F) (a : Save F)
      → Unlocked p saves finished m a
      → Readable saves finished m
  unlocked saves finished m a (e, s, t, x, n) = record {
    recent = a ∷ [];
    split = e;
    seq_is = s;
    tsc_is = t;
    ratio_is = x;
    ns_is = inr (a, e, n);
  }

  WriterInv-Readable :
      (saves finished : List (Save F)) (m : Params F) (w : Writer F)
      → p.param_seq % 2 ≡ 0
      → m.param_seq % 2 ≡ 0
      → WriterInv p saves finished m w
      → Readable saves finished m
  WriterInv-Readable saves finished m resting h k (e, s, t, x, n) = record {
    recent = [];
    split = e;
    seq_is = s;
    tsc_is = t;
    ratio_is = x;
    ns_is = inl n;
  }
  WriterInv-Readable saves finished m (at_next a) h k i = unlocked saves finished m a i
  WriterInv-Readable saves finished m (at_load a) h k i = unlocked saves finished m a i
  WriterInv-Readable saves finished m (at_lock a q) h k i = unlocked saves finished m a i.0
  WriterInv-Readable saves finished m (at_base_tsc a q) h k i = absurd (omega (arith, i.1, i.2))
  WriterInv-Readable saves finished m (at_base_ns a q) h k i = absurd (omega (arith, i.0.1, i.0.2))
  WriterInv-Readable saves finished m (at_ns_per_tsc a q) h k i =
      absurd (omega (arith, i.0.1, i.0.2))
  WriterInv-Readable saves finished m (at_unlock a q) h k i = absurd (omega (arith, i.0.1, i.0.2))

resting-WriterInv :
    {F : Type 0} (p : Params F) (saves finished : List (Save F)) (m : Params F) {w : Writer F}
    → w ≡ resting
    → WriterInv p saves finished m w
    → WriterInv p saves finished m resting
resting-WriterInv p saves finished m e i = rw e at i

module _ {f : Float} (p : Params f.F) (even : p.param_seq % 2 ≡ 0) where
  open f use {F}

  Read-ReaderInv :
      (saves finished : List (Save F)) (m : Params F) (w : Writer F) {r r' : Reader F}
      → WriterInv p saves finished m w
      → ReaderInv p saves finished m.param_seq r
      → Read f m r r'
      → ReaderInv p saves finished m.param_seq r'
  Read-ReaderInv saves finished m w i h load_before = omega arith
  Read-ReaderInv saves finished m w i h load_base_tsc = (
    h.0,
    h.1,
    λ e. (WriterInv-Readable p saves finished m w even (omega (arith, h.0, e)) i).tsc_is,
  )
  Read-ReaderInv saves finished m w i h load_ratio = (
    h.0,
    h.1,
    λ e. (h.2 e, (WriterInv-Readable p saves finished m w even (omega (arith, h.0, e)) i).ratio_is),
  )
  Read-ReaderInv saves finished m w i h load_base_ns = (
    h.0,
    h.1,
    λ e. (
      (h.2 e).0,
      (h.2 e).1,
      (WriterInv-Readable p saves finished m w even (omega (arith, h.0, e)) i).ns_is,
    ),
  )
  Read-ReaderInv saves finished m w i h (accept e) =
      let now = WriterInv-Readable p saves finished m w even (omega (arith, h.0, e)) i in
      record {
        recent = now.recent;
        past = finished;
        split = now.split;
        seq_is = e ∙ now.seq_is;
        tsc_is = (h.2 e).0;
        ratio_is = (h.2 e).1;
        ns_is = elim (h.2 e).2 [ inl same ↦ inl same | inr (a, begun, n) ↦ inr (a, [], begun, n) ];
      }
  Read-ReaderInv saves finished m w i h (retry e) = refl

  -- The writer's steps, by what they do to the sequence number.
  Write-Inv :
      (saves finished : List (Save F)) (r : Reader F) {m m' : Params F} {w w' : Writer F}
      → WriterInv p saves finished m w
      → ReaderInv p saves finished m.param_seq r
      → Write f m w m' w'
      → (finished' : List (Save F)) × WriterInv p saves finished' m' w'
        × ReaderInv p saves finished' m'.param_seq r
  Write-Inv saves finished r i h set_next = (finished, i, h)
  Write-Inv saves finished r i h load_seq = (finished, (i, refl), h)
  Write-Inv saves finished r {m = m} i h lock = (
    finished,
    (i.0.0, i.1 ∙ i.0.1, refl),
    ReaderInv-stale p saves finished finished m.param_seq _ r (omega (arith, i.1)) h,
  )
  Write-Inv saves finished r i h set_base_tsc = (finished, (i, refl), h)
  Write-Inv saves finished r i h set_base_ns = (finished, (i.0, i.1, refl), h)
  Write-Inv saves finished r i h set_ns_per_tsc = (finished, (i.0, i.1, i.2, refl), h)
  Write-Inv saves finished r {m = m} i h (unlock {a = a}) = (
    a ∷ finished,
    (i.0.0, omega (arith, i.0.1), i.1, i.3, i.2),
    ReaderInv-stale p saves finished (a ∷ finished) m.param_seq _ r (omega (arith, i.0.2)) h,
  )

  -- Every step of either thread keeps the invariant.
  pub Step-Inv : {s t : System f} → Step f s t → Inv p s → Inv p t
  Step-Inv {s} (begin a e) inv =
      let i = resting-WriterInv p s.saves inv.finished s.mem e inv.writer_ok in
      record {
        even = even;
        finished = inv.finished;
        writer_ok = (ap (λ l. a ∷ l) i.0, i.1, i.2, i.3, refl);
        reader_ok =
            ReaderInv-begin p a s.saves inv.finished s.mem.param_seq s.reader i.0 inv.reader_ok;
      }
  Step-Inv {s} (write st) inv =
      let (finished', i, h) =
        Write-Inv s.saves inv.finished s.reader inv.writer_ok inv.reader_ok st in
      record { even = even; finished = finished'; writer_ok = i; reader_ok = h }
  Step-Inv {s} (read st) inv = record {
    even = even;
    finished = inv.finished;
    writer_ok = inv.writer_ok;
    reader_ok = Read-ReaderInv s.saves inv.finished s.mem s.writer inv.writer_ok inv.reader_ok st;
  }

  Reach-Inv : {s : System f} → Reach f (start f p) s → Inv p s
  Reach-Inv here = record {
    even = even;
    finished = [];
    writer_ok = (refl, omega arith, refl, refl, refl);
    reader_ok = refl;
  }
  Reach-Inv (later r st) = Step-Inv st (Reach-Inv r)

ReaderInv-Consistent :
    {F : Type 0} (p : Params F) (saves finished : List (Save F)) (seq : ℕ) {r : Reader F} {b : ℕ}
    {t : ℤ} {x : F} {n : ℤ}
    → r ≡ returned b t x n
    → ReaderInv p saves finished seq r
    → Consistent p saves b t x n
ReaderInv-Consistent p saves finished seq e h = rw e at h

-- Begin with an even sequence number and both threads at rest, with one thread saving at a time and
-- no reordering of the accesses to memory. Whenever `tsc2ns` returns, the counter's base and the
-- ratio that it read are those of one save, or the first ones, as they were when the sequence number
-- was the one it began with: never of two. The base time is that save's too, or else it is the value
-- that the save after it stored in `BASE_NS` before it took the lock.
pub returned-Consistent :
    {f : Float} {p : Params f.F} {s : System f} {b : ℕ} {t : ℤ} {x : f.F} {n : ℤ}
    → p.param_seq % 2 ≡ 0
    → Reach f (start f p) s
    → s.reader ≡ returned b t x n
    → Consistent p s.saves b t x n
returned-Consistent {p = p} {s} even r e =
    let inv = Reach-Inv p even r in
    ReaderInv-Consistent p s.saves inv.finished s.mem.param_seq e inv.reader_ok
