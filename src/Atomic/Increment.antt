-- ===== src/Atomic/Increment.antt =====
-- Threads that all run the saturating increment.
use virtual_accelerator_mana.Base.{
  ℕ, zero, suc, ◌+◌, ◌≤◌, ◌<◌, ◌≡◌, ◌^◌, List, [], ◌∷◌, min, uint32_max, arith, replicate, refl,
  ◌⊎◌,
}
use virtual_accelerator_mana.Overload.{counter_increment_lem}
use virtual_accelerator_mana.Atomic.{
  Thread, Phase, increment, reading, holding, finished, advance, attempt,
}
use virtual_accelerator_mana.Atomic.Steps.{
  Step, Run, here, later, stop, then, finished_count, count_finished,
}

-- A word that a thread holds is not above the shared one.
abbrev HoldsBelow : ℕ → Phase → Type 0
HoldsBelow shared (holding previous) = previous ≤ shared
HoldsBelow shared _ = Unit {0}

abbrev AllIncrement : ℕ → List Thread → Type 0
AllIncrement shared [] = Unit {0}
AllIncrement shared (t ∷ ts) =
    (t.operation ≡ increment) × HoldsBelow shared t.phase × AllIncrement shared ts

HoldsBelow-mono : (a b : ℕ) (p : Phase) → a ≤ b → HoldsBelow a p → HoldsBelow b p
HoldsBelow-mono a b reading le h = tt
HoldsBelow-mono a b (holding v) le h = omega arith
HoldsBelow-mono a b finished le h = tt

AllIncrement-mono : (a b : ℕ) (ts : List Thread) → a ≤ b → AllIncrement a ts → AllIncrement b ts
AllIncrement-mono a b [] le h = tt
AllIncrement-mono a b (t ∷ ts) le h =
    (h.0, HoldsBelow-mono a b t.phase le h.1, AllIncrement-mono a b ts le h.2)

-- An access that finishes a thread counts it, and any other leaves the word.
abbrev Counts : ℕ → ℕ → ℕ → ℕ → Type 0
Counts shared shared' before after =
    (shared ≤ shared')
    × (shared' < 2 ^ 32)
    × ((after ≡ before) × (shared' ≡ shared)
        ⊎ (after ≡ before + 1) × (shared' ≡ min (shared + 1) uint32_max))

advance-Counts :
    (t : Thread) (p : Phase) (shared : ℕ)
    → t.phase ≡ p
    → t.operation ≡ increment
    → HoldsBelow shared p
    → shared < 2 ^ 32
    → let (shared', t') = advance t shared in
      (t'.operation ≡ increment)
      × HoldsBelow shared' t'.phase
      × Counts shared shared' (count_finished p) (count_finished t'.phase)
unfolding advance attempt
advance-Counts t reading shared e o h f = ground arith
advance-Counts t (holding v) shared e o h f = ground (arith, counter_increment_lem v)
advance-Counts t finished shared e o h f = ground arith

Step-Counts :
    {a b : ℕ} {ts us : List Thread}
    → Step a ts b us
    → AllIncrement a ts
    → a < 2 ^ 32
    → AllIncrement b us × Counts a b (finished_count ts) (finished_count us)
Step-Counts (here a t ts) h f =
    let c = advance-Counts t t.phase a refl h.0 h.1 f in
    ((c.0, c.1, AllIncrement-mono a _ ts c.2.0 h.2), omega (arith, c.2))
Step-Counts (later {shared = a} {shared' = b} t s) h f =
    let c = Step-Counts s h.2 f in
    ((h.0, HoldsBelow-mono a b t.phase c.1.0 h.1, c.0), omega (arith, c.1))

Run-counts :
    (k : ℕ) {a b : ℕ} {ts us : List Thread}
    → Run a ts b us
    → AllIncrement a ts
    → a < 2 ^ 32
    → a ≡ min (k + finished_count ts) uint32_max
    → b ≡ min (k + finished_count us) uint32_max
Run-counts k stop h f e = e
Run-counts k (then s r) h f e =
    let c = Step-Counts s h f in Run-counts k r c.0 c.1.1 (omega (arith, c.1, e))

abbrev pub incrementer : Thread
incrementer = record { operation = increment; phase = reading }

incrementers-AllIncrement : (n a : ℕ) → AllIncrement a (replicate n incrementer)
incrementers-AllIncrement zero a = tt
incrementers-AllIncrement (suc n) a = (refl, tt, incrementers-AllIncrement n a)

incrementers_unfinished : (n : ℕ) → finished_count (replicate n incrementer) ≡ 0
incrementers_unfinished zero = refl
incrementers_unfinished (suc n) = omega (arith, incrementers_unfinished n)

-- However the accesses of `n` threads interleave that all run the saturating increment from its
-- start on a 32-bit word, the word is at every moment its first value plus the number of threads
-- that are done, up to the largest word: no increment is lost, and none is counted twice.
pub increments_exact :
    (n : ℕ) {first shared : ℕ} {threads : List Thread}
    → first < 2 ^ 32
    → Run first (replicate n incrementer) shared threads
    → shared ≡ min (first + finished_count threads) uint32_max
increments_exact n {first} f r =
    Run-counts first r (incrementers-AllIncrement n first) f
      (omega (arith, incrementers_unfinished n))
