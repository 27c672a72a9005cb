-- ===== src/Tests/Ring.antt =====
-- A ring of four blocks.
use nanolog_rs.Prelude.{◌≡◌, refl, Option, some, none, List, [], ◌∷◌, ◌++◌, arith, replicate}
use nanolog_rs.Prelude.Outcome.{ok}
use nanolog_rs.Prelude.Bytes.{le_bytes, of_le_bytes, write_bytes, read_bytes}
use nanolog_rs.Log.{level_u8, info}
use nanolog_rs.VarQueue.{
  SpscVarQueueOpt, Alloc, Front, new, try_alloc, front, front_loop, pop, commit, alloc_blocks,
  reserve, block_at, pad_at,
}
use nanolog_rs.VarQueue.Layout.{IsSize, Msg, total}
use nanolog_rs.VarQueue.Reserve.{InLife}
use nanolog_rs.RunLog2.{record_of, publish_args, publish_granted, fill}
use nanolog_rs.RunLog2.Fill.{fill_msg, IsWords}
use nanolog_rs.RunLog2.System.{
  System, produce, alloc, write, publish, deliver, Reach, here, later, init, granted, filled, idle,
}
use nanolog_rs.RunLog2.System.Inv.{AllMatch, Inv}
use nanolog_rs.RunLog2.System.Fifo.{Found, Step-Inv, Reach-Inv, delivered_in_order, front_lossless}
use nanolog_rs.RunLog2.Publish.{Published, publish_args-Published}

abbrev pub empty : SpscVarQueueOpt
empty = record { blk = λ _. 0; writing_idx = 0; written_idx = 0; read_idx = 0; read_idx_cache = 0 }

pub four : IsSize 4
four = record { log = 2; pow = refl; small = omega arith }

pub new_four : new 4 ≡ ok empty
unfolding new
new_four = refl

abbrev pub hello : Msg
hello = record { level = 2; tsc = 1000; log_func = 7; payload = 10 ∷ 20 ∷ 30 ∷ [] }

-- Two records of one block and of two, then one that goes round the ring's end.
abbrev q1 : SpscVarQueueOpt
q1 = (publish_args 4 info 7 1000 (10 ∷ 20 ∷ 30 ∷ []) empty).1

abbrev q2 : SpscVarQueueOpt
q2 = (publish_args 4 info 8 2000 (replicate 60 5) q1).1

-- The third has room only once the first is read.
abbrev q3 : SpscVarQueueOpt
q3 = pop 4 q2

indices :
    (q1.writing_idx ≡ 1)
    × (q2.writing_idx ≡ 3)
    × (q3.read_idx ≡ 1)
    × ((try_alloc 4 60 q2).0 ≡ none)
    × ((try_alloc 4 20 q3).1.writing_idx ≡ 4)
unfolding publish_args publish_granted try_alloc alloc_blocks reserve block_at pad_at commit fill
    level_u8 pop write_bytes read_bytes le_bytes of_le_bytes
indices = (refl, refl, refl, refl, refl)

-- The steps of one record through the ring.
abbrev pub granted_state : System
granted_state = record {
  queue = (try_alloc 4 3 empty).1;
  phase = granted hello_room hello;
  published = [];
  delivered = [];
}
  where
    hello_room : Alloc
    hello_room = record { hdr = 0; payload = 24; payload_cap = 40; total_bytes = 27; blk_sz = 1 }

hello_granted : Reach 4 (init empty) granted_state
unfolding try_alloc alloc_blocks reserve block_at pad_at
hello_granted = later here (produce (alloc hello refl (omega arith) (omega arith) refl))

abbrev pub written_state : System
written_state = record granted_state {
  queue = fill_msg hello_at hello granted_state.queue;
  phase = filled hello_at hello;
}
  where
    hello_at : Alloc
    hello_at = record { hdr = 0; payload = 24; payload_cap = 40; total_bytes = 27; blk_sz = 1 }

abbrev pub published_state : System
published_state = record written_state {
  queue = commit 0 27 written_state.queue;
  phase = idle;
  published = hello ∷ [];
}

hello_published : Reach 4 (init empty) published_state
hello_published = later (later hello_granted (produce (write refl))) (produce (publish refl))

abbrev hello_front : Front
hello_front = record { hdr = 0; payload = 24; size = 27 }

abbrev delivered_state : System
delivered_state = record published_state {
  queue = pop 4 published_state.queue;
  delivered = record_of published_state.queue hello_front ∷ [];
}

hello_delivered : Reach 4 (init empty) delivered_state
unfolding commit fill reserve block_at pad_at try_alloc alloc_blocks front front_loop write_bytes
    read_bytes le_bytes of_le_bytes
hello_delivered = later hello_published (deliver 4 (omega arith) refl)

delivered_in_order_example :
    (consumed queued : List Msg) × (hello ∷ [] ≡ consumed ++ queued)
    × AllMatch delivered_state.delivered consumed
delivered_in_order_example = delivered_in_order four new_four hello_delivered

front_lossless_example :
    (res : Option Front) × (q : SpscVarQueueOpt) × (front 4 4 published_state.queue ≡ some (res, q))
    × Found published_state q res
unfolding commit fill reserve block_at pad_at try_alloc alloc_blocks
front_lossless_example = front_lossless four new_four 4 hello_published (omega arith)

hello-IsWords : IsWords hello
hello-IsWords = record {
  level_word = omega arith;
  tsc_word = omega arith;
  func_word = omega arith;
  size_word = omega arith;
}

hello_life : InLife 4 (total hello) empty
hello_life = record {
  short = omega arith;
  read_small = omega arith;
  cache_small = omega arith;
  room = omega arith;
}

Step-Inv_example : Inv 4 granted_state
unfolding try_alloc alloc_blocks reserve block_at pad_at
Step-Inv_example =
    Step-Inv (produce (alloc hello refl hello-IsWords hello_life refl))
      (Reach-Inv four new_four here)

publish_args-Published_example :
    Published 4 (init empty) hello (publish_args 4 info 7 1000 (10 ∷ 20 ∷ 30 ∷ []) empty)
unfolding level_u8
publish_args-Published_example =
    publish_args-Published (Reach-Inv four new_four here) info 7 1000 (10 ∷ 20 ∷ 30 ∷ []) refl
      hello-IsWords hello_life
