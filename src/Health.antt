-- ===== src/Health.antt =====
-- firmware/src/health/vams_health.c: progress of the eight service tasks, watched by their epochs.
-- The C arrays of eight words are lists; the loop over their index runs along the lists.
pub mod Scan
pub mod Update
pub mod Freeze
pub mod Episodes
use virtual_accelerator_mana.Base.{
  ℕ, suc, ◌+◌, ◌-◌, Bool, true, false, List, [], ◌∷◌, ◌&&◌, not, if◌then◌else◌, ltb, leb, ◌==◌,
  ◌!=◌, replicate,
}
use virtual_accelerator_mana.Overload.{counter_increment}

abbrev pub task_none : ℕ
task_none = 0

abbrev pub task_count : ℕ
task_count = 8

pub record Tracker : Type 0 where
  pub last_epoch : List ℕ
  pub missed : List ℕ
  pub failure_count : ℕ
  pub stuck_task : ℕ
  pub startup_grace : ℕ
  pub miss_limit : ℕ
  pub failure_latched : Bool

unfoldable pub tracker_init : List ℕ → ℕ → ℕ → Tracker
tracker_init epochs startup_grace miss_limit = record {
  last_epoch = epochs;
  missed = replicate task_count 0;
  failure_count = 0;
  stuck_task = 0;
  startup_grace = startup_grace;
  miss_limit = miss_limit;
  failure_latched = false;
}

-- What the loop of the update computes from `index` on.
pub record Scanned : Type 0 where
  pub last_epoch : List ℕ
  pub missed : List ℕ
  pub stuck_task : ℕ

-- The new miss counter of one task.
pub next_missed : ℕ → ℕ → ℕ → ℕ
next_missed epoch last missed = if epoch != last then 0 else counter_increment missed

-- The first stuck task, with this one looked at.
pub next_stuck : ℕ → ℕ → ℕ → ℕ → ℕ → ℕ → ℕ
next_stuck limit index epoch last missed stuck_task =
    if epoch != last
    then stuck_task
    else if stuck_task == task_none && leb limit (next_missed epoch last missed)
    then index + 1
    else stuck_task

pub scan : ℕ → ℕ → List ℕ → List ℕ → List ℕ → ℕ → Scanned
scan limit index (epoch ∷ epochs) (last ∷ lasts) (missed ∷ misses) stuck_task =
    let rest =
      scan limit (index + 1) epochs lasts misses
        (next_stuck limit index epoch last missed stuck_task) in
    record {
      last_epoch = (if epoch != last then epoch else last) ∷ rest.last_epoch;
      missed = next_missed epoch last missed ∷ rest.missed;
      stuck_task = rest.stuck_task;
    }
scan limit index _ lasts misses stuck_task = record {
  last_epoch = lasts;
  missed = misses;
  stuck_task = stuck_task;
}

-- What follows the loop.
pub conclude : Tracker → Scanned → Tracker × Bool
conclude t r =
    let t' = record t { last_epoch = r.last_epoch; missed = r.missed; stuck_task = r.stuck_task } in
    if r.stuck_task == task_none
    then (record t' { failure_latched = false }, true)
    else if not t.failure_latched
    then (
      record t' { failure_count = counter_increment t.failure_count; failure_latched = true },
      false,
    )
    else (t', false)

-- The new tracker, and whether every task made progress.
unfoldable pub tracker_update : Tracker → List ℕ → Tracker × Bool
unfolding conclude
tracker_update t epochs =
    if ltb 0 t.startup_grace
    then (record t { startup_grace = t.startup_grace - 1; last_epoch = epochs }, true)
    else conclude t (scan t.miss_limit 0 epochs t.last_epoch t.missed task_none)
