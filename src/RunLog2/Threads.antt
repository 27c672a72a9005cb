-- ===== src/RunLog2/Threads.antt =====
-- Both threads of src/run_log2.rs at once, with the console sink: the backend in `run`, which may
-- stand anywhere in its loops and in `Consumer::front`, and the producer in `publish_args`. A step of
-- the backend loads `written_idx` or stores `read_idx` at most once.
pub mod Inv
pub mod Printed
pub mod Onward
pub mod Loads
pub mod Advance
pub mod Published
pub mod Output
pub mod Served
pub mod Flushed
pub mod FrontCall
pub mod Calls
use nanolog_rs.Prelude.{
  ℕ, zero, suc, ◌+◌, ◌≡◌, ◌==◌, if◌then◌else◌, Bool, Option, none, some, List, [], ◌∷◌, ◌++◌,
}
use nanolog_rs.Prelude.Int.{ℤ}
use nanolog_rs.Prelude.Bytes.{of_le_bytes, read_bytes}
use nanolog_rs.Prelude.Words.{add32}
use nanolog_rs.Prelude.Outcome.{Outcome, ok, panic, fault, ◌>>=◌}
use nanolog_rs.BytesMut.{MyBytesMut}
use nanolog_rs.VarQueue.{SpscVarQueueOpt, Front, msg_header_size, block_at, pad_at, pop}
use nanolog_rs.VarQueue.Layout.{Msg}
use nanolog_rs.ConsoleSink.{Stdout}
use nanolog_rs.RunLog2.{Record, record_of}
use nanolog_rs.RunLog2.System.{Phase, idle, System, Produce}
use nanolog_rs.RunLog2.Backend.{Backend, deliver, end_turn}

-- Where the backend stands, with its local variables.
pub data Pc : Type 0 where
  at_front : (no_data : ℕ) → Pc  -- before the call of `front`
  scanning : (no_data w r : ℕ) → Pc  -- at the head of the loop in `front`
  found : Front → Pc  -- `front` has returned a record
  printed : Record → Pc  -- before `pop`
  at_end : (no_data : ℕ) → Pc  -- `front` has returned `None`

-- `published` and `delivered` are what has been committed, and what has been printed and popped.
pub record World : Type 0 where
  pub backend : Backend
  pub phase : Phase
  pub published : List Msg
  pub delivered : List Record
  pub pc : Pc

-- What one round of the loop in `front` comes to.
pub data Round : Type 0 where
  again : (r : ℕ) → Round
  ended : Round
  got : Front → Round

unfoldable pub front_round : ℕ → ℕ → ℕ → SpscVarQueueOpt → Round × SpscVarQueueOpt
front_round blk_cnt w r q =
    let sz = of_le_bytes (read_bytes q.blk (block_at blk_cnt r) 4) in
    let r' = add32 r (pad_at blk_cnt r) in
    let q' : SpscVarQueueOpt = record q { read_idx = r' } in
    if sz == 0 then (if r' == w then (ended, q') else (again r', q')) else (
      got (record {
        hdr = block_at blk_cnt r;
        payload = block_at blk_cnt r + msg_header_size;
        size = sz;
      }),
      q,
    )

abbrev pub with_queue : World → SpscVarQueueOpt → World
with_queue w q = record w { backend = record w.backend { queue = q } }

unfoldable pub scanned : ℕ → ℕ → Round × SpscVarQueueOpt → World → World
scanned no_data last (again r, q) w = record (with_queue w q) { pc = scanning no_data last r }
scanned no_data last (ended, q) w = record (with_queue w q) { pc = at_end no_data }
scanned no_data last (got f, q) w = record (with_queue w q) { pc = found f }

module _ (out : Stdout) (tsc2ns : ℕ → ℕ → ℤ)
    (call : ℕ → List ℕ → MyBytesMut → Outcome (Bool × MyBytesMut)) (clock : ℕ → ℕ)
    (blk_cnt tid : ℕ) where
  -- The next step of the backend, from where it stands.
  unfoldable pub advance_at : Pc → World → Outcome World
  unfolding front_round scanned
  advance_at (at_front no_data) w =
      let q = w.backend.queue in
      ok (
        if q.read_idx == q.written_idx
        then record w { pc = at_end no_data }
        else record w { pc = scanning no_data q.written_idx q.read_idx })
  advance_at (scanning no_data last r) w =
      ok (scanned no_data last (front_round blk_cnt last r w.backend.queue) w)
  advance_at (found f) w = do
    let r = record_of w.backend.queue f
    b ← deliver out tsc2ns call clock blk_cnt tid r w.backend
    ok (record w { backend = b; pc = printed r })
  advance_at (printed r) w = ok (record (with_queue w (pop blk_cnt w.backend.queue)) {
    delivered = w.delivered ++ (r ∷ []);
    pc = at_front 0;
  })
  advance_at (at_end no_data) w = do
    b ← end_turn out tsc2ns call clock blk_cnt tid (no_data, w.backend)
    ok (record w { backend = b; pc = at_front 1 })

  unfoldable pub advance : World → Outcome World
  unfolding advance_at
  advance w = advance_at w.pc w

  -- That many steps of the backend alone.
  unfoldable pub advances : ℕ → World → Outcome World
  unfolding advance
  advances zero w = ok w
  advances (suc k) w = do w' ← advance w; advances k w'

-- The two threads with the ring between them.
abbrev pub threads : World → System
threads w = record {
  queue = w.backend.queue;
  phase = w.phase;
  published = w.published;
  delivered = w.delivered;
}

abbrev pub with_system : World → System → World
with_system w s = record (with_queue w s.queue) {
  phase = s.phase;
  published = s.published;
  delivered = s.delivered;
}

module _ (out : Stdout) (tsc2ns : ℕ → ℕ → ℤ)
    (call : ℕ → List ℕ → MyBytesMut → Outcome (Bool × MyBytesMut)) (clock : ℕ → ℕ)
    (blk_cnt tid : ℕ) where
  pub data Step (w : World) : World → Type 0 where
    produce : {s : System} → Produce blk_cnt (threads w) s → Step w (with_system w s)
    consume : {w' : World} → advance out tsc2ns call clock blk_cnt tid w ≡ ok w' → Step w w'

  pub data Reach (w : World) : World → Type 0 where
    here : Reach w w
    later : {t u : World} → Reach w t → Step t u → Reach w u

-- A new logger, whose backend is about to begin its first turn.
abbrev pub start : Backend → World
start b = record { backend = b; phase = idle; published = []; delivered = []; pc = at_front 1 }
