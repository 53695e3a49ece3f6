-- ===== src/Tests/Words.antt =====
-- Two threads on one shared word, the second of which loses its first attempt (main.c).
use virtual_accelerator_mana.Base.{◌+◌, ◌≡◌, List, [], ◌∷◌, min, uint32_max, arith, replicate}
use virtual_accelerator_mana.Overload.{counter_increment}
use virtual_accelerator_mana.Atomic.{
  Thread, increment, raise, reading, finished, advance, attempt, cas,
}
use virtual_accelerator_mana.Atomic.Steps.{Run, here, later, stop, then, finished_count}
use virtual_accelerator_mana.Atomic.Increment.{incrementer, increments_exact}
use virtual_accelerator_mana.Atomic.HighWater.{raisers, highest, high_water_exact}

abbrev after_increments : List Thread
after_increments =
    record { operation = increment; phase = finished }
    ∷ record { operation = increment; phase = finished }
    ∷ []

increments-Run : Run 5 (replicate 2 incrementer) 7 after_increments
unfolding advance attempt cas counter_increment
increments-Run = then (here _ _ _) (
    then (later _ (here _ _ _)) (
      then (here _ _ _) (
        then (later _ (here _ _ _))
          (then (later _ (here _ _ _)) (then (later _ (here _ _ _)) stop)))))

increments_exact_example : 7 ≡ min (5 + finished_count after_increments) uint32_max
increments_exact_example = increments_exact 2 (omega arith) increments-Run

abbrev after_raises : List Thread
after_raises =
    record { operation = raise 4; phase = finished }
    ∷ record { operation = raise 9; phase = reading }
    ∷ []

raises-Run : Run 2 (raisers (4 ∷ 9 ∷ [])) 4 after_raises
unfolding advance attempt cas counter_increment
raises-Run =
    then (here _ _ _)
      (then (later _ (here _ _ _)) (then (here _ _ _) (then (later _ (here _ _ _)) stop)))

high_water_exact_example : 4 ≡ highest 2 after_raises
high_water_exact_example = high_water_exact (4 ∷ 9 ∷ []) raises-Run
