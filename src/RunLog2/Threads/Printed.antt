-- ===== src/RunLog2/Threads/Printed.antt =====
-- Records that the sink of src/console_sink.rs can print, with their lines.
use nanolog_rs.Prelude.{ℕ, Bool, List, [], ◌∷◌, ◌++◌}
use nanolog_rs.Prelude.Int.{ℤ}
use nanolog_rs.Prelude.Outcome.{Outcome}
use nanolog_rs.BytesMut.{MyBytesMut}
use nanolog_rs.VarQueue.Layout.{Msg}
use nanolog_rs.RunLog2.Backend.Lines.{IsPrinted}

module _ (tsc2ns : ℕ → ℕ → ℤ) (call : ℕ → List ℕ → MyBytesMut → Outcome (Bool × MyBytesMut))
    (tid : ℕ) (line_of : ℕ → Msg → List ℕ) where
  -- The sink can print each of the records, as the line that `line_of i` gives where the clock is as
  -- it stands when the counter has been read `i` times.
  abbrev pub AllPrinted : List Msg → Type 0
  AllPrinted [] = Unit
  AllPrinted (m ∷ ms) =
      ((i : ℕ) → IsPrinted (tsc2ns i) call 512 tid m (line_of i m)) × AllPrinted ms

  pub AllPrinted-first : (ms ms' : List Msg) → AllPrinted (ms ++ ms') → AllPrinted ms
  AllPrinted-first [] ms' p = tt
  AllPrinted-first (m ∷ ms) ms' p = (p.0, AllPrinted-first ms ms' p.1)

  pub AllPrinted-rest : (ms ms' : List Msg) → AllPrinted (ms ++ ms') → AllPrinted ms'
  AllPrinted-rest [] ms' p = p
  AllPrinted-rest (m ∷ ms) ms' p = AllPrinted-rest ms ms' p.1

  pub AllPrinted-append :
      (ms ms' : List Msg) → AllPrinted ms → AllPrinted ms' → AllPrinted (ms ++ ms')
  AllPrinted-append [] ms' h k = k
  AllPrinted-append (m ∷ ms) ms' h k = (h.0, AllPrinted-append ms ms' h.1 k)
