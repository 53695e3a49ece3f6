-- ===== src/Health/Episodes.antt =====
-- The failure counter counts runs of failing updates, not failing updates.
use virtual_accelerator_mana.Base.{
  ℕ, suc, ◌+◌, ◌<◌, ◌^◌, ◌≡◌, refl, true, false, Bool, List, [], ◌∷◌, arith, min, uint32_max,
}
use virtual_accelerator_mana.Overload.{counter_increment_lem, counter_increment-lt}
use virtual_accelerator_mana.Health.{Tracker, tracker_init, tracker_update}
use virtual_accelerator_mana.Health.Freeze.{update_all}

-- The answers to a sequence of updates.
pub verdicts : Tracker → List (List ℕ) → List Bool
verdicts t [] = []
verdicts t (epochs ∷ later) =
    let (t', healthy) = tracker_update t epochs in healthy ∷ verdicts t' later

-- How often a failing answer follows a good one; `failing` says whether the last answer failed.
pub episodes : Bool → List Bool → ℕ
episodes failing [] = 0
episodes failing (true ∷ later) = episodes false later
episodes false (false ∷ later) = suc (episodes true later)
episodes true (false ∷ later) = episodes true later

-- During the grace period nothing is latched.
abbrev pub IsQuiet : Tracker → Type 0
IsQuiet t = 0 < t.startup_grace → t.failure_latched ≡ false

update-IsQuiet : (t : Tracker) (epochs : List ℕ) → IsQuiet t → IsQuiet (tracker_update t epochs).0
unfolding tracker_update
update-IsQuiet t epochs q = ground arith

update_counts :
    (t : Tracker) (epochs : List ℕ) (later : List Bool)
    → IsQuiet t
    → t.failure_count < 2 ^ 32
    → let (t', healthy) = tracker_update t epochs in
      (t'.failure_count < 2 ^ 32)
      × (min (t'.failure_count + episodes t'.failure_latched later) uint32_max
          ≡ min (t.failure_count + episodes t.failure_latched (healthy ∷ later)) uint32_max)
unfolding tracker_update episodes
update_counts t epochs later q h =
    ground (arith, counter_increment_lem t.failure_count h, counter_increment-lt t.failure_count)

failure_count_from :
    (t : Tracker) (readings : List (List ℕ))
    → IsQuiet t
    → t.failure_count < 2 ^ 32
    → (update_all t readings).failure_count
      ≡ min (t.failure_count + episodes t.failure_latched (verdicts t readings)) uint32_max
unfolding update_all verdicts episodes
failure_count_from t [] q h = omega arith
failure_count_from t (epochs ∷ later) q h =
    let t' = (tracker_update t epochs).0 in
    let c = update_counts t epochs (verdicts t' later) q h in
    omega (arith, c, failure_count_from t' later (update-IsQuiet t epochs q) c.0)

-- From the start of a tracker, the failure counter is the number of runs of failing updates, up to
-- the largest word.
pub failure_count-episodes :
    (epochs : List ℕ) (grace limit : ℕ) (readings : List (List ℕ))
    → let t = tracker_init epochs grace limit in
      (update_all t readings).failure_count ≡ min (episodes false (verdicts t readings)) uint32_max
unfolding tracker_init
failure_count-episodes epochs grace limit readings =
    omega (
      arith,
      failure_count_from (tracker_init epochs grace limit) readings (λ h. refl) (omega arith),
    )
