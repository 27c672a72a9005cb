-- ===== src/RunLog2/Fill.antt =====
-- What `publish_args` of src/run_log2.rs leaves in the ring's memory.
use nanolog_rs.Prelude.{
  ℕ, ◌+◌, ◌*◌, ◌%◌, ◌^◌, ◌≤◌, ◌<◌, ◌≡◌, sym, ap, ◌∙◌, inl, inr, List, arith, length,
}
use nanolog_rs.Prelude.Bytes.{
  Mem, le_bytes, of_le_bytes, write_bytes, read_bytes, length-le_bytes, of_le_bytes-le_bytes,
  read_bytes-write_bytes, read_bytes-write_bytes_disjoint,
}
use nanolog_rs.VarQueue.{SpscVarQueueOpt, Alloc, header_at}
use nanolog_rs.VarQueue.Layout.{Msg, total, blocks, IsAt}
use nanolog_rs.VarQueue.Frame.{Agree, write-Agree, write-Agree_start}
use nanolog_rs.RunLog2.{fill}

-- The header's fields fit their words.
pub record IsWords (m : Msg) : Type 0 where
  pub level_word : m.level < 2 ^ 32
  pub tsc_word : m.tsc < 2 ^ 64
  pub func_word : m.log_func < 2 ^ 64
  pub size_word : total m < 2 ^ 32

abbrev pub fill_msg : Alloc → Msg → SpscVarQueueOpt → SpscVarQueueOpt
fill_msg a m q = fill a m.level m.tsc m.log_func m.payload q

-- The room that `try_alloc` grants at block `p`.
pub record IsGrant (n p : ℕ) (a : Alloc) (m : Msg) : Type 0 where
  pub hdr_is : a.hdr ≡ 64 * (p % n)
  pub payload_is : a.payload ≡ 64 * (p % n) + 24
  pub total_is : a.total_bytes ≡ total m

-- A number read where it was written, and where another write followed elsewhere.
read_number :
    (mem : Mem) (a n v : ℕ)
    → v < 256 ^ n
    → of_le_bytes (read_bytes (write_bytes mem a (le_bytes n v)) a n) ≡ v
read_number mem a n v h =
    ap of_le_bytes (
      ap (λ k. read_bytes (write_bytes mem a (le_bytes n v)) a k) (sym (length-le_bytes n v))
      ∙ read_bytes-write_bytes mem a (le_bytes n v))
    ∙ of_le_bytes-le_bytes n v h

read_before :
    (mem : Mem) (a : ℕ) (xs : List ℕ) (b n : ℕ)
    → b + n ≤ a
    → read_bytes (write_bytes mem a xs) b n ≡ read_bytes mem b n
read_before mem a xs b n h = read_bytes-write_bytes_disjoint mem a xs b n (inl h)

-- The header's size is written after it, below all else.
read_above :
    (mem : Mem) (a v b n : ℕ)
    → a + 4 ≤ b
    → read_bytes (write_bytes mem a (le_bytes 4 v)) b n ≡ read_bytes mem b n
read_above mem a v b n h =
    read_bytes-write_bytes_disjoint mem a _ b n (inr (omega (arith, length-le_bytes 4 v)))

-- The five writes of `fill` and `commit` for a record at byte `c`.
module _ (mem : Mem) (c : ℕ) (m : Msg) where
  abbrev m1 : Mem
  m1 = write_bytes mem (c + 4) (le_bytes 4 m.level)

  abbrev m2 : Mem
  m2 = write_bytes m1 (c + 8) (le_bytes 8 m.tsc)

  abbrev m3 : Mem
  m3 = write_bytes m2 (c + 16) (le_bytes 8 m.log_func)

  abbrev m4 : Mem
  m4 = write_bytes m3 (c + 24) m.payload

  abbrev m5 : Mem
  m5 = write_bytes m4 c (le_bytes 4 (total m))

  m5-level : IsWords m → of_le_bytes (read_bytes m5 (c + 4) 4) ≡ m.level
  m5-level w =
      ap of_le_bytes (
        read_above m4 c (total m) (c + 4) 4 (omega arith)
        ∙ read_before m3 (c + 24) m.payload (c + 4) 4 (omega arith)
        ∙ read_before m2 (c + 16) _ (c + 4) 4 (omega arith)
        ∙ read_before m1 (c + 8) _ (c + 4) 4 (omega arith))
      ∙ read_number mem (c + 4) 4 m.level w.level_word

  m5-tsc : IsWords m → of_le_bytes (read_bytes m5 (c + 8) 8) ≡ m.tsc
  m5-tsc w =
      ap of_le_bytes (
        read_above m4 c (total m) (c + 8) 8 (omega arith)
        ∙ read_before m3 (c + 24) m.payload (c + 8) 8 (omega arith)
        ∙ read_before m2 (c + 16) _ (c + 8) 8 (omega arith))
      ∙ read_number m1 (c + 8) 8 m.tsc w.tsc_word

  m5-log_func : IsWords m → of_le_bytes (read_bytes m5 (c + 16) 8) ≡ m.log_func
  m5-log_func w =
      ap of_le_bytes (
        read_above m4 c (total m) (c + 16) 8 (omega arith)
        ∙ read_before m3 (c + 24) m.payload (c + 16) 8 (omega arith))
      ∙ read_number m2 (c + 16) 8 m.log_func w.func_word

  m5-IsAt : IsWords m → IsAt m5 c m
  unfolding header_at
  m5-IsAt w = record {
    head = λ i. record {
      size = read_number m4 c 4 (total m) w.size_word i;
      level = m5-level w i;
      tsc = m5-tsc w i;
      log_func = m5-log_func w i;
    };
    body =
        read_above m4 c (total m) (c + 24) (length m.payload) (omega arith)
        ∙ read_bytes-write_bytes m3 (c + 24) m.payload;
  }

-- After `fill` and `commit` the record lies in the ring.
pub commit-fill-IsAt :
    (n p : ℕ) (a : Alloc) (m : Msg) (q : SpscVarQueueOpt)
    → IsWords m
    → IsGrant n p a m
    → IsAt (write_bytes (fill_msg a m q).blk a.hdr (le_bytes 4 a.total_bytes)) (64 * (p % n)) m
unfolding fill
commit-fill-IsAt n p a m q w g =
    rw (g.hdr_is, g.payload_is, g.total_is) (m5-IsAt q.blk (64 * (p % n)) m w)

-- Both leave the blocks from `r` to `p` as they are.
module _ {n r p : ℕ} {a : Alloc} {m : Msg} (q : SpscVarQueueOpt) where
  pub fill-Agree :
      0 < n
      → IsGrant n p a m
      → p + blocks (total m) ≤ r + n
      → p % n + blocks (total m) ≤ n
      → Agree n q.blk (fill_msg a m q).blk r p
  unfolding fill
  fill-Agree pos g window fit b j hb hp hj =
      rw (g.hdr_is, g.payload_is)
        (inside mem 4 (le_bytes 4 m.level) (omega (arith, length-le_bytes 4 m.level)) b j hb hp hj
          ∙ inside (m1 mem c m) 8 (le_bytes 8 m.tsc) (omega (arith, length-le_bytes 8 m.tsc)) b j hb
              hp hj
          ∙ inside (m2 mem c m) 16 (le_bytes 8 m.log_func)
              (omega (arith, length-le_bytes 8 m.log_func)) b j hb hp hj
          ∙ inside (m3 mem c m) 24 m.payload (omega arith) b j hb hp hj)
    where
      mem : Mem
      mem = q.blk

      c : ℕ
      c = 64 * (p % n)

      inside :
          (mm : Mem) (off : ℕ) (xs : List ℕ)
          → off + length xs ≤ 64 * blocks (total m)
          → Agree n mm (write_bytes mm (c + off) xs) r p
      inside mm off xs h =
          write-Agree n mm r p p (blocks (total m)) off xs pos (omega arith) window fit h

pub commit-Agree :
    (n r p : ℕ) (a : Alloc) (m : Msg) (mem : Mem)
    → 0 < n
    → IsGrant n p a m
    → p + blocks (total m) ≤ r + n
    → p % n + blocks (total m) ≤ n
    → Agree n mem (write_bytes mem a.hdr (le_bytes 4 a.total_bytes)) r p
commit-Agree n r p a m mem pos g window fit = rw g.hdr_is (
    write-Agree_start n mem r p p (blocks (total m)) (le_bytes 4 a.total_bytes) pos (omega arith)
      window fit (omega (arith, length-le_bytes 4 a.total_bytes)))
