-- ===== src/Atomic/Steps.antt =====
-- Interleavings of the threads: any thread makes the next access.
use virtual_accelerator_mana.Base.{ℕ, ◌+◌, List, [], ◌∷◌}
use virtual_accelerator_mana.Atomic.{Thread, Phase, finished, advance}

-- One access by one of the threads.
pub data Step : ℕ → List Thread → ℕ → List Thread → Type 0 where
  here :
      (shared : ℕ) (t : Thread) (ts : List Thread)
      → Step shared (t ∷ ts) (advance t shared).0 ((advance t shared).1 ∷ ts)
  later :
      {shared shared' : ℕ} {ts ts' : List Thread} (t : Thread)
      → Step shared ts shared' ts'
      → Step shared (t ∷ ts) shared' (t ∷ ts')

pub data Run : ℕ → List Thread → ℕ → List Thread → Type 0 where
  stop : {shared : ℕ} {ts : List Thread} → Run shared ts shared ts
  then : {a b c : ℕ} {ts us vs : List Thread} → Step a ts b us → Run b us c vs → Run a ts c vs

abbrev pub count_finished : Phase → ℕ
count_finished finished = 1
count_finished _ = 0

-- The threads that are past their loop.
abbrev pub finished_count : List Thread → ℕ
finished_count [] = 0
finished_count (t ∷ ts) = count_finished t.phase + finished_count ts
