-- ===== src/Health/Update.antt =====
-- One update of the tracker, and a freeze seen through many.
use virtual_accelerator_mana.Base.{
  ℕ, ◌+◌, ◌<◌, ◌^◌, ◌≡◌, ◌≢◌, ◌⊎◌, ◌↔◌, min, uint32_max, sym, subst, ◌∙◌, true, List, get_or,
  length, arith,
}
use virtual_accelerator_mana.Overload.{counter_increment_lem}
use virtual_accelerator_mana.Health.{
  Tracker, task_count, tracker_init, tracker_update, conclude, next_missed, scan,
}
use virtual_accelerator_mana.Health.Scan.{
  scan-last_epoch, length-scan-missed, get_or-scan-missed, scan-first_at_limit, first_at_limit,
  first_at_limit-zero, first_at_limit_below,
}

-- What the C structure gives, and a limit that can be reached.
pub record IsTracker (t : Tracker) : Type 0 where
  pub epochs_sized : length t.last_epoch ≡ task_count
  pub missed_sized : length t.missed ≡ task_count
  pub limit_positive : 0 < t.miss_limit
  pub limit_fits : t.miss_limit < 2 ^ 32

abbrev pub IsEpochs : List ℕ → Type 0
IsEpochs epochs = length epochs ≡ task_count

pub tracker_init-IsTracker :
    (epochs : List ℕ) (grace limit : ℕ)
    → IsEpochs epochs
    → 0 < limit
    → limit < 2 ^ 32
    → IsTracker (tracker_init epochs grace limit)
unfolding tracker_init
tracker_init-IsTracker epochs grace limit e p q = ground arith

-- The counter of one task, and when it stays below a limit.
next_missed_lem :
    (epoch last missed : ℕ)
    → missed < 2 ^ 32
    → (epoch ≢ last → next_missed epoch last missed ≡ 0)
      × (epoch ≡ last → next_missed epoch last missed ≡ min (missed + 1) uint32_max)
unfolding next_missed
next_missed_lem epoch last missed fits = ground (arith, counter_increment_lem missed fits)

next_missed_below :
    (epoch last missed limit : ℕ)
    → 0 < limit
    → limit < 2 ^ 32
    → missed < 2 ^ 32
    → (next_missed epoch last missed < limit) ↔ ((epoch ≢ last) ⊎ (missed + 1 < limit))
unfolding next_missed
next_missed_below epoch last missed limit pos small fits =
    ground (arith, counter_increment_lem missed fits)

module _ (t : Tracker) (epochs : List ℕ) (v : IsTracker t) (e : IsEpochs epochs) where
  pub tracker_update-IsTracker : IsTracker (tracker_update t epochs).0
  unfolding tracker_update
  tracker_update-IsTracker = ground (
    arith,
    scan-last_epoch t.miss_limit 0 epochs t.last_epoch t.missed 0,
    length-scan-missed t.miss_limit 0 epochs t.last_epoch t.missed 0,
  )

  module _ (started : t.startup_grace ≡ 0) where
    pub update_lem :
        tracker_update t epochs ≡ conclude t (scan t.miss_limit 0 epochs t.last_epoch t.missed 0)
    unfolding tracker_update
    update_lem = ground arith

    pub update-last_epoch : (tracker_update t epochs).0.last_epoch ≡ epochs
    unfolding tracker_update
    update-last_epoch =
        ground (arith, scan-last_epoch t.miss_limit 0 epochs t.last_epoch t.missed 0)

    pub update-missed :
        (i : ℕ)
        → i < task_count
        → get_or (tracker_update t epochs).0.missed i 0
          ≡ next_missed (get_or epochs i 0) (get_or t.last_epoch i 0) (get_or t.missed i 0)
    unfolding tracker_update
    update-missed i h =
        ground (arith, get_or-scan-missed t.miss_limit 0 epochs t.last_epoch t.missed 0 i)

    pub update-stuck_task :
        (tracker_update t epochs).0.stuck_task
        ≡ first_at_limit t.miss_limit 0 (tracker_update t epochs).0.missed
    unfolding tracker_update
    update-stuck_task =
        ground (arith, scan-first_at_limit t.miss_limit 0 epochs t.last_epoch t.missed)

    pub update_healthy :
        ((tracker_update t epochs).1 ≡ true) ↔ ((tracker_update t epochs).0.stuck_task ≡ 0)
    unfolding tracker_update
    update_healthy = ground arith

    pub update_healthy_iff : ((tracker_update t epochs).1 ≡ true) ↔ (
        (i : ℕ)
        → i < task_count
        → next_missed (get_or epochs i 0) (get_or t.last_epoch i 0) (get_or t.missed i 0)
          < t.miss_limit)
    update_healthy_iff = (
      λ h i lt.
          subst (λ n. n < t.miss_limit) (update-missed i lt)
            (first_at_limit-zero t.miss_limit 0 _ (sym update-stuck_task ∙ update_healthy.0 h) i
              (omega (arith, tracker_update-IsTracker.missed_sized))),
      λ h. update_healthy.1 (
          update-stuck_task
          ∙ first_at_limit_below t.miss_limit 0 _ (λ i lt.
            rw (update-missed i (omega (arith, tracker_update-IsTracker.missed_sized)))
              (h i (omega (arith, tracker_update-IsTracker.missed_sized))))),
    )

    -- Past the grace period, for miss counters that fit their words, an update is healthy exactly
    -- where each task's epoch moved since the last reading or its misses, with this one, are fewer
    -- than the limit. The counter of a task that moved is then 0, and that of another is one
    -- higher, up to the largest word.
    pub tracker_update_iff :
        ((i : ℕ) → i < task_count → get_or t.missed i 0 < 2 ^ 32)
        → (((tracker_update t epochs).1 ≡ true) ↔ (
            (i : ℕ)
            → i < task_count
            → (get_or epochs i 0 ≢ get_or t.last_epoch i 0)
              ⊎ (get_or t.missed i 0 + 1 < t.miss_limit)))
          × ((i : ℕ)
              → i < task_count
              → (get_or epochs i 0 ≢ get_or t.last_epoch i 0
                  → get_or (tracker_update t epochs).0.missed i 0 ≡ 0)
                × (get_or epochs i 0 ≡ get_or t.last_epoch i 0
                    → get_or (tracker_update t epochs).0.missed i 0
                      ≡ min (get_or t.missed i 0 + 1) uint32_max))
    tracker_update_iff fits = (
      (
        λ h i lt.
            (next_missed_below _ _ _ t.miss_limit v.limit_positive v.limit_fits (fits i lt)).0
              (update_healthy_iff.0 h i lt),
        λ h. update_healthy_iff.1 (λ i lt.
            (next_missed_below _ _ _ t.miss_limit v.limit_positive v.limit_fits (fits i lt)).1
              (h i lt)),
      ),
      λ i lt. rw (update-missed i lt) (next_missed_lem _ _ _ (fits i lt)),
    )
