-- ===== src/Atomic.antt =====
-- The compare-and-swap loops of firmware/src/main.c (`vams_record_high_water`,
-- `vams_saturating_atomic_inc`) and of firmware/src/logging/vams_event.c
-- (`vams_event_record_drop`), run by any number of threads on one shared word.
pub mod Steps
pub mod Increment
pub mod HighWater
use virtual_accelerator_mana.Base.{
  ℕ, Bool, if◌then◌else◌, ltb, ◌==◌, ◌!=◌, Option, none, some, uint32_max,
}
use virtual_accelerator_mana.Overload.{counter_increment}

-- Which loop a thread runs: `raise value` is the high-water loop for `value`.
pub data Operation : Type 0 where
  increment : Operation
  raise : ℕ → Operation

-- The loop's test of the word last read, and the word that it then tries to store.
unfoldable pub attempt : Operation → ℕ → Option ℕ
attempt increment previous =
    if previous != uint32_max then some (counter_increment previous) else none
attempt (raise value) previous = if ltb previous value then some value else none

-- Before the loop's read, after it, and past the loop.
pub data Phase : Type 0 where
  reading : Phase
  holding : ℕ → Phase
  finished : Phase

pub record Thread : Type 0 where
  pub operation : Operation
  pub phase : Phase

-- `atomic_cas` with the word read before: stored only where the shared word is still that one.
unfoldable pub cas : ℕ → ℕ → ℕ → ℕ × Phase
cas shared previous wanted = if shared == previous then (wanted, finished) else (shared, reading)

-- One atomic access by a thread.
unfoldable pub advance : Thread → ℕ → ℕ × Thread
unfolding cas
advance t shared = elim t.phase [
  | reading ↦ (shared, record t { phase = holding shared })
  | holding previous ↦ elim (attempt t.operation previous) [
    | none ↦ (shared, record t { phase = finished })
    | some wanted ↦
        let (shared', phase') = cas shared previous wanted in (shared', record t { phase = phase' })
  ]
  | finished ↦ (shared, t)
]

-- What the loop does when nobody interferes.
unfoldable pub saturating_atomic_inc : ℕ → ℕ
saturating_atomic_inc value = if value != uint32_max then counter_increment value else value

unfoldable pub record_high_water : ℕ → ℕ → ℕ
record_high_water high_water value = if ltb high_water value then value else high_water
