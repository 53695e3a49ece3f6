-- ===== src/Health/Freeze.antt =====
-- A task that stops is reported once it has missed the limit of updates in a row, and not before.
use virtual_accelerator_mana.Base.{
  ℕ, suc, ◌+◌, ◌≤◌, ◌<◌, ◌^◌, ◌≡◌, refl, sym, ◌∙◌, false, List, [], ◌∷◌, get_or, length, arith, min,
  uint32_max, Bool-cases, inl, inr,
}
use virtual_accelerator_mana.Overload.{counter_increment_lem, counter_increment-lt}
use virtual_accelerator_mana.Health.{Tracker, task_count, tracker_update, next_missed}
use virtual_accelerator_mana.Health.Update.{
  IsTracker, IsEpochs, tracker_update-IsTracker, update_healthy_iff, update-missed,
  update-last_epoch,
}

-- The tracker after a sequence of updates.
unfoldable pub update_all : Tracker → List (List ℕ) → Tracker
update_all t [] = t
update_all t (epochs ∷ later) = update_all (tracker_update t epochs).0 later

-- Task `i` (from 0) shows the epoch `seen` in every one of the readings.
abbrev pub Frozen : ℕ → ℕ → List (List ℕ) → Type 0
Frozen i seen [] = Unit {0}
Frozen i seen (epochs ∷ later) = IsEpochs epochs × (get_or epochs i 0 ≡ seen) × Frozen i seen later

next_missed_same : (e m : ℕ) → m < 2 ^ 32 → next_missed e e m ≡ min (m + 1) uint32_max
unfolding next_missed
next_missed_same e m h = ground (arith, counter_increment_lem m h)

next_missed_seen : (e l m : ℕ) → e ≡ l → m < 2 ^ 32 → next_missed e l m ≡ min (m + 1) uint32_max
unfolding next_missed
next_missed_seen e l m h p = ground (arith, counter_increment_lem m p)

next_missed-lt : (e l m : ℕ) → next_missed e l m < 2 ^ 32
unfolding next_missed
next_missed-lt e l m = ground (arith, counter_increment-lt m)

frozen_update :
    (t : Tracker) (epochs : List ℕ) (i seen n : ℕ)
    → IsTracker t
    → t.startup_grace ≡ 0
    → i < task_count
    → IsEpochs epochs
    → get_or t.last_epoch i 0 ≡ seen
    → get_or epochs i 0 ≡ seen
    → get_or t.missed i 0 < 2 ^ 32
    → min n uint32_max ≤ get_or t.missed i 0
    → min (suc n) uint32_max ≤ get_or (tracker_update t epochs).0.missed i 0
frozen_update t epochs i seen n v g lt e last now fits least =
    rw
      (
        update-missed t epochs v e g i lt,
        now,
        last,
        next_missed_same seen (get_or t.missed i 0) fits,
      )
      (omega arith)

update_grace :
    (t : Tracker) (epochs : List ℕ)
    → t.startup_grace ≡ 0
    → (tracker_update t epochs).0.startup_grace ≡ 0
unfolding tracker_update
update_grace t epochs g = ground arith

update_limit :
    (t : Tracker) (epochs : List ℕ) → (tracker_update t epochs).0.miss_limit ≡ t.miss_limit
unfolding tracker_update
update_limit t epochs = ground arith

-- The counter of a frozen task goes up with every update.
Frozen-all :
    (t : Tracker) (readings : List (List ℕ)) (i seen n : ℕ)
    → IsTracker t
    → t.startup_grace ≡ 0
    → i < task_count
    → get_or t.last_epoch i 0 ≡ seen
    → get_or t.missed i 0 < 2 ^ 32
    → min n uint32_max ≤ get_or t.missed i 0
    → Frozen i seen readings
    → let u = update_all t readings in
      IsTracker u
      × (u.startup_grace ≡ 0)
      × (u.miss_limit ≡ t.miss_limit)
      × (get_or u.last_epoch i 0 ≡ seen)
      × (get_or u.missed i 0 < 2 ^ 32)
      × (min (n + length readings) uint32_max ≤ get_or u.missed i 0)
unfolding update_all
Frozen-all t [] i seen n v g lt last fits least f = (v, g, refl, last, fits, omega arith)
Frozen-all t (epochs ∷ later) i seen n v g lt last fits least f =
    let t' = (tracker_update t epochs).0 in
    let r =
      Frozen-all t' later i seen (suc n) (tracker_update-IsTracker t epochs v f.0)
        (update_grace t epochs g) lt (rw (update-last_epoch t epochs v f.0 g) f.1)
        (rw (update-missed t epochs v f.0 g i lt) (next_missed-lt _ _ _))
        (frozen_update t epochs i seen n v g lt f.0 last f.1 fits least) f.2 in
    (r.0, r.1, r.2 ∙ update_limit t epochs, r.3, r.4, omega (arith, r.5))

-- Past the grace period, a task whose epoch has not moved since the tracker's last reading, nor in
-- `readings`, nor in `now`, makes the update by `now` fail if these are at least as many as the limit.
pub freeze_detected :
    (t : Tracker) (readings : List (List ℕ)) (now : List ℕ) (i seen : ℕ)
    → IsTracker t
    → t.startup_grace ≡ 0
    → i < task_count
    → get_or t.last_epoch i 0 ≡ seen
    → get_or t.missed i 0 < 2 ^ 32
    → Frozen i seen readings
    → IsEpochs now
    → get_or now i 0 ≡ seen
    → t.miss_limit ≤ suc (length readings)
    → (tracker_update (update_all t readings) now).1 ≡ false
freeze_detected t readings now i seen v g lt last fits f e same limit =
    elim (Bool-cases (tracker_update (update_all t readings) now).1) [
      | inr unhealthy ↦ unhealthy
      | inl healthy ↦
          let u = update_all t readings in
          let r = Frozen-all t readings i seen 0 v g lt last fits (omega arith) f in
          let low = (update_healthy_iff u now r.0 e r.1).0 healthy i lt in
          absurd (
            omega (
              arith,
              low,
              r.2,
              r.5,
              v.limit_fits,
              next_missed_seen _ _ (get_or u.missed i 0) (same ∙ sym r.3) r.4,
            ))
    ]
