-- ===== src/Tests/Health.antt =====
-- A tracker whose third task stands still (vams_health.c).
use virtual_accelerator_mana.Base.{
  ℕ, zero, suc, ◌+◌, ◌<◌, ◌≡◌, ◌≢◌, ◌⊎◌, ◌↔◌, true, false, List, [], ◌∷◌, replicate, get_or, min,
  uint32_max, arith, refl,
}
use virtual_accelerator_mana.Health.{Tracker, task_count, tracker_init, tracker_update}
use virtual_accelerator_mana.Health.Update.{IsTracker, tracker_update_iff}
use virtual_accelerator_mana.Health.Freeze.{update_all, freeze_detected}
use virtual_accelerator_mana.Health.Episodes.{episodes, verdicts, failure_count-episodes}

abbrev first_epochs : List ℕ
first_epochs = replicate 8 0

abbrev second_epochs : List ℕ
second_epochs = 1 ∷ 1 ∷ 0 ∷ 1 ∷ 1 ∷ 1 ∷ 1 ∷ 1 ∷ []

abbrev third_epochs : List ℕ
third_epochs = 2 ∷ 2 ∷ 0 ∷ 2 ∷ 2 ∷ 2 ∷ 2 ∷ 2 ∷ []

abbrev start_tracker : Tracker
start_tracker = record {
  last_epoch = first_epochs;
  missed = replicate 8 0;
  failure_count = 0;
  stuck_task = 0;
  startup_grace = 0;
  miss_limit = 2;
  failure_latched = false;
}

start_tracker-IsTracker : IsTracker start_tracker
start_tracker-IsTracker = omega arith

freeze_detected_example :
    (tracker_update (update_all start_tracker (second_epochs ∷ [])) third_epochs).1 ≡ false
freeze_detected_example =
    freeze_detected start_tracker (second_epochs ∷ []) third_epochs 2 0 start_tracker-IsTracker refl
      (omega arith) refl (omega arith) (refl, refl, tt) refl refl (omega arith)

get_or-zeros : (n i : ℕ) → get_or {A = ℕ} (replicate n 0) i 0 ≡ 0
get_or-zeros zero i = refl
get_or-zeros (suc n) zero = refl
get_or-zeros (suc n) (suc i) = get_or-zeros n i

tracker_update_iff_example :
    (((tracker_update start_tracker second_epochs).1 ≡ true) ↔ (
      (i : ℕ)
      → i < task_count
      → (get_or second_epochs i 0 ≢ get_or start_tracker.last_epoch i 0)
        ⊎ (get_or start_tracker.missed i 0 + 1 < start_tracker.miss_limit)))
    × ((i : ℕ)
        → i < task_count
        → (get_or second_epochs i 0 ≢ get_or start_tracker.last_epoch i 0
            → get_or (tracker_update start_tracker second_epochs).0.missed i 0 ≡ 0)
          × (get_or second_epochs i 0 ≡ get_or start_tracker.last_epoch i 0
              → get_or (tracker_update start_tracker second_epochs).0.missed i 0
                ≡ min (get_or start_tracker.missed i 0 + 1) uint32_max))
tracker_update_iff_example =
    tracker_update_iff start_tracker second_epochs start_tracker-IsTracker refl refl
      (λ i lt. let z = get_or-zeros 8 i in omega (arith, z))

failure_count-episodes_example :
    let t = tracker_init first_epochs 1 2 in
    (update_all t (second_epochs ∷ third_epochs ∷ [])).failure_count
    ≡ min (episodes false (verdicts t (second_epochs ∷ third_epochs ∷ []))) uint32_max
failure_count-episodes_example =
    failure_count-episodes first_epochs 1 2 (second_epochs ∷ third_epochs ∷ [])
