-- ===== src/Atomic/HighWater.antt =====
-- Threads that all run the high-water loop, each for a value of its own.
use virtual_accelerator_mana.Base.{ℕ, ◌≤◌, ◌≡◌, List, [], ◌∷◌, max, arith, refl, sym, ◌⊎◌, inl, inr}
use virtual_accelerator_mana.Atomic.{
  Thread, Operation, Phase, increment, raise, reading, holding, finished, advance, attempt,
}
use virtual_accelerator_mana.Atomic.Steps.{Step, Run, here, later, stop, then}

abbrev pub value_of : Operation → ℕ
value_of (raise value) = value
value_of increment = 0

-- The greatest value of a thread that is past its loop, and of `base`.
abbrev pub recorded : Phase → ℕ → ℕ
recorded finished value = value
recorded _ value = 0

abbrev pub highest : ℕ → List Thread → ℕ
highest base [] = base
highest base (t ∷ ts) = max (recorded t.phase (value_of t.operation)) (highest base ts)

abbrev HoldsBelow : ℕ → Phase → Type 0
HoldsBelow shared (holding previous) = previous ≤ shared
HoldsBelow shared _ = Unit {0}

abbrev AllRaise : ℕ → List Thread → Type 0
AllRaise shared [] = Unit {0}
AllRaise shared (t ∷ ts) =
    (t.operation ≡ raise (value_of t.operation)) × HoldsBelow shared t.phase × AllRaise shared ts

HoldsBelow-mono : (a b : ℕ) (p : Phase) → a ≤ b → HoldsBelow a p → HoldsBelow b p
HoldsBelow-mono a b reading le h = tt
HoldsBelow-mono a b (holding v) le h = omega arith
HoldsBelow-mono a b finished le h = tt

AllRaise-mono : (a b : ℕ) (ts : List Thread) → a ≤ b → AllRaise a ts → AllRaise b ts
AllRaise-mono a b [] le h = tt
AllRaise-mono a b (t ∷ ts) le h =
    (h.0, HoldsBelow-mono a b t.phase le h.1, AllRaise-mono a b ts le h.2)

-- The shared word and the record of finished values rise together, by `v`.
abbrev Rises : ℕ → ℕ → ℕ → ℕ → Type 0
Rises shared shared' before after = (v : ℕ) × (shared' ≡ max shared v) × (after ≡ max before v)

advance_keeps : (t : Thread) (shared : ℕ) → (advance t shared).1.operation ≡ t.operation
unfolding advance
advance_keeps t shared = ground arith

advance_raises :
    (t : Thread) (p : Phase) (shared value : ℕ)
    → t.phase ≡ p
    → t.operation ≡ raise value
    → HoldsBelow shared p
    → let (shared', t') = advance t shared in
      HoldsBelow shared' t'.phase
      × ((shared' ≡ shared) × (recorded t'.phase value ≡ recorded p value)
          ⊎ (shared' ≡ max shared value)
            × (recorded t'.phase value ≡ value)
            × (recorded p value ≡ 0))
unfolding advance attempt
advance_raises t reading shared value e o h = ground arith
advance_raises t (holding v) shared value e o h = ground arith
advance_raises t finished shared value e o h = ground arith

advance-Rises :
    (t : Thread) (shared : ℕ)
    → t.operation ≡ raise (value_of t.operation)
    → HoldsBelow shared t.phase
    → let (shared', t') = advance t shared in
      (t'.operation ≡ raise (value_of t'.operation))
      × HoldsBelow shared' t'.phase
      × Rises shared shared'
          (recorded t.phase (value_of t.operation))
          (recorded t'.phase (value_of t'.operation))
advance-Rises t shared o h =
    let r = advance_raises t t.phase shared (value_of t.operation) refl o h in
    rw (advance_keeps t shared) (
      o,
      r.0,
      elim r.1 [
        | inl same ↦ (0, omega arith, omega arith)
        | inr up ↦ (value_of t.operation, omega arith, omega arith)
      ],
    )

Step-raises :
    {a b : ℕ} {ts us : List Thread}
    → Step a ts b us
    → (k : ℕ) → AllRaise a ts
    → AllRaise b us × (a ≤ b) × Rises a b (highest k ts) (highest k us)
Step-raises (here a t ts) k h =
    let r = advance-Rises t a h.0 h.1 in
    (
      (r.0, r.1, AllRaise-mono a _ ts (omega (arith, r.2.1)) h.2),
      omega (arith, r.2.1),
      (r.2.0, r.2.1, omega (arith, r.2.2)),
    )
Step-raises (later {shared = a} {shared' = b} t s) k h =
    let r = Step-raises s k h.2 in
    ((h.0, HoldsBelow-mono a b t.phase r.1 h.1, r.0), r.1, (r.2.0, r.2.1, omega (arith, r.2.2)))

Run-raises :
    (k : ℕ) {a b : ℕ} {ts us : List Thread}
    → Run a ts b us
    → AllRaise a ts
    → a ≡ highest k ts
    → b ≡ highest k us
Run-raises k stop h e = e
Run-raises k (then s r) h e =
    let c = Step-raises s k h in Run-raises k r c.0 (omega (arith, c.2.1, c.2.2))

abbrev pub raisers : List ℕ → List Thread
raisers [] = []
raisers (v ∷ vs) = record { operation = raise v; phase = reading } ∷ raisers vs

raisers-AllRaise : (a : ℕ) (vs : List ℕ) → AllRaise a (raisers vs)
raisers-AllRaise a [] = tt
raisers-AllRaise a (v ∷ vs) = (refl, tt, raisers-AllRaise a vs)

raisers_unfinished : (a : ℕ) (vs : List ℕ) → highest a (raisers vs) ≡ a
raisers_unfinished a [] = refl
raisers_unfinished a (v ∷ vs) = omega (arith, raisers_unfinished a vs)

-- However the accesses of threads interleave that run the high-water loop from its start, each for
-- its value in the list, the word is at every moment the greatest of its first value and of the
-- values of the threads that are done.
pub high_water_exact :
    (values : List ℕ) {first shared : ℕ} {threads : List Thread}
    → Run first (raisers values) shared threads
    → shared ≡ highest first threads
high_water_exact values {first} r =
    Run-raises first r (raisers-AllRaise first values) (sym (raisers_unfinished first values))
