-- ===== src/Health/Scan.antt =====
-- The loop of the update, index by index.
use virtual_accelerator_mana.Base.{
  ℕ, zero, suc, ◌+◌, ◌≤◌, ◌<◌, ◌≡◌, refl, List, [], ◌∷◌, get_or, length, leb, if◌then◌else◌, arith,
}
use virtual_accelerator_mana.Health.{next_missed, next_stuck, scan}

-- The epochs are remembered, whether or not they moved.
pub scan-last_epoch :
    (limit index : ℕ) (es ls ms : List ℕ) (stuck : ℕ)
    → length es ≡ length ls
    → length es ≡ length ms
    → (scan limit index es ls ms stuck).last_epoch ≡ es
unfolding scan
scan-last_epoch limit index [] [] ms stuck p q = refl
scan-last_epoch limit index [] (l ∷ ls) ms stuck p q = absurd (omega arith)
scan-last_epoch limit index (e ∷ es) [] ms stuck p q = absurd (omega arith)
scan-last_epoch limit index (e ∷ es) (l ∷ ls) [] stuck p q = absurd (omega arith)
scan-last_epoch limit index (e ∷ es) (l ∷ ls) (m ∷ ms) stuck p q =
    ground (arith, scan-last_epoch limit (index + 1) es ls ms (next_stuck limit index e l m stuck))

pub length-scan-missed :
    (limit index : ℕ) (es ls ms : List ℕ) (stuck : ℕ)
    → length (scan limit index es ls ms stuck).missed ≡ length ms
unfolding scan
length-scan-missed limit index [] ls ms stuck = refl
length-scan-missed limit index (e ∷ es) [] ms stuck = refl
length-scan-missed limit index (e ∷ es) (l ∷ ls) [] stuck = refl
length-scan-missed limit index (e ∷ es) (l ∷ ls) (m ∷ ms) stuck =
    omega
      (arith, length-scan-missed limit (index + 1) es ls ms (next_stuck limit index e l m stuck))

-- Each miss counter is reset or counted up by its own task's epochs alone.
pub get_or-scan-missed :
    (limit index : ℕ) (es ls ms : List ℕ) (stuck i : ℕ)
    → length es ≡ length ls
    → length es ≡ length ms
    → i < length es
    → get_or (scan limit index es ls ms stuck).missed i 0
      ≡ next_missed (get_or es i 0) (get_or ls i 0) (get_or ms i 0)
unfolding scan
get_or-scan-missed limit index [] ls ms stuck i p q h = absurd (omega arith)
get_or-scan-missed limit index (e ∷ es) [] ms stuck i p q h = absurd (omega arith)
get_or-scan-missed limit index (e ∷ es) (l ∷ ls) [] stuck i p q h = absurd (omega arith)
get_or-scan-missed limit index (e ∷ es) (l ∷ ls) (m ∷ ms) stuck zero p q h = refl
get_or-scan-missed limit index (e ∷ es) (l ∷ ls) (m ∷ ms) stuck (suc i) p q h =
    get_or-scan-missed limit (index + 1) es ls ms (next_stuck limit index e l m stuck) i
      (omega arith) (omega arith) (omega arith)

-- A stuck task once found is kept.
scan-found :
    (limit index : ℕ) (es ls ms : List ℕ) (stuck : ℕ)
    → 0 < stuck
    → (scan limit index es ls ms stuck).stuck_task ≡ stuck
unfolding scan next_stuck
scan-found limit index [] ls ms stuck h = refl
scan-found limit index (e ∷ es) [] ms stuck h = refl
scan-found limit index (e ∷ es) (l ∷ ls) [] stuck h = refl
scan-found limit index (e ∷ es) (l ∷ ls) (m ∷ ms) stuck h =
    ground (arith, scan-found limit (index + 1) es ls ms stuck)

-- The number of the first task whose miss counter has reached the limit, counted from 1, or 0.
pub first_at_limit : ℕ → ℕ → List ℕ → ℕ
first_at_limit limit index [] = 0
first_at_limit limit index (m ∷ ms) =
    let rest = first_at_limit limit (index + 1) ms in if leb limit m then index + 1 else rest

next_stuck_lem :
    (limit index e l m : ℕ)
    → 0 < limit
    → next_stuck limit index e l m 0 ≡ (if leb limit (next_missed e l m) then index + 1 else 0)
unfolding next_stuck next_missed
next_stuck_lem limit index e l m pos = ground arith

-- The loop reports the first task whose new miss counter has reached a limit of at least 1.
pub scan-first_at_limit :
    (limit index : ℕ) (es ls ms : List ℕ)
    → 0 < limit
    → length es ≡ length ls
    → length es ≡ length ms
    → (scan limit index es ls ms 0).stuck_task
      ≡ first_at_limit limit index (scan limit index es ls ms 0).missed
unfolding scan first_at_limit
scan-first_at_limit limit index [] ls [] pos p q = refl
scan-first_at_limit limit index [] ls (m ∷ ms) pos p q = absurd (omega arith)
scan-first_at_limit limit index (e ∷ es) [] ms pos p q = absurd (omega arith)
scan-first_at_limit limit index (e ∷ es) (l ∷ ls) [] pos p q = absurd (omega arith)
scan-first_at_limit limit index (e ∷ es) (l ∷ ls) (m ∷ ms) pos p q = ground (
  arith,
  next_stuck_lem limit index e l m pos,
  scan-found limit (index + 1) es ls ms (index + 1),
  scan-first_at_limit limit (index + 1) es ls ms pos,
)

first_at_limit_above :
    (limit index : ℕ) (ms : List ℕ)
    → 0 < first_at_limit limit index ms
    → index < first_at_limit limit index ms
unfolding first_at_limit
first_at_limit_above limit index [] h = absurd (omega arith)
first_at_limit_above limit index (m ∷ ms) h =
    ground (arith, first_at_limit_above limit (index + 1) ms)

-- It is 0 exactly where every counter is below the limit.
pub first_at_limit-zero :
    (limit index : ℕ) (ms : List ℕ)
    → first_at_limit limit index ms ≡ 0
    → (i : ℕ) → i < length ms
    → get_or ms i 0 < limit
unfolding first_at_limit
first_at_limit-zero limit index [] h i lt = absurd (omega arith)
first_at_limit-zero limit index (m ∷ ms) h zero lt = ground arith
first_at_limit-zero limit index (m ∷ ms) h (suc i) lt =
    ground (arith, first_at_limit-zero limit (index + 1) ms (ground arith) i (omega arith))

pub first_at_limit_below :
    (limit index : ℕ) (ms : List ℕ)
    → ((i : ℕ) → i < length ms → get_or ms i 0 < limit)
    → first_at_limit limit index ms ≡ 0
unfolding first_at_limit
first_at_limit_below limit index [] h = refl
first_at_limit_below limit index (m ∷ ms) h = ground (
  arith,
  h 0 (omega arith),
  first_at_limit_below limit (index + 1) ms (λ i lt. h (suc i) (omega arith)),
)

first_at_limit_step :
    (limit index m : ℕ) (ms : List ℕ) (i j : ℕ)
    → first_at_limit limit index (m ∷ ms) ≡ suc (index + suc i)
    → ((k : ℕ) → k < i → get_or ms k 0 < limit)
    → j < suc i
    → get_or (m ∷ ms) j 0 < limit
unfolding first_at_limit
first_at_limit_step limit index m ms i zero h rest lt = ground arith
first_at_limit_step limit index m ms i (suc j) h rest lt = rest j (omega arith)

-- Otherwise it names a task at the limit, and every task before it is below.
pub first_at_limit_sound :
    (limit index : ℕ) (ms : List ℕ) (i : ℕ)
    → first_at_limit limit index ms ≡ suc (index + i)
    → (limit ≤ get_or ms i 0) × ((j : ℕ) → j < i → get_or ms j 0 < limit)
unfolding first_at_limit
first_at_limit_sound limit index [] i h = absurd (omega arith)
first_at_limit_sound limit index (m ∷ ms) zero h =
    ground (arith, first_at_limit_above limit (index + 1) ms)
first_at_limit_sound limit index (m ∷ ms) (suc i) h =
    let rest = first_at_limit_sound limit (index + 1) ms i (ground arith) in
    (rest.0, λ j lt. first_at_limit_step limit index m ms i j h rest.1 lt)
