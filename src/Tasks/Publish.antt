-- ===== src/Tasks/Publish.antt =====
-- The publication of a completion ends (main.c, vams_publish_portal_completion).
use virtual_accelerator_mana.Base.{ℕ, zero, suc, ◌+◌, ◌<◌, ◌≡◌, ◌⊎◌, arith}
use virtual_accelerator_mana.Abi.{Completion}
use virtual_accelerator_mana.Atomic.{saturating_atomic_inc}
use virtual_accelerator_mana.Zephyr.{Mmio, Status, success, ebusy, etimedout}
use virtual_accelerator_mana.Portal.{complete}
use virtual_accelerator_mana.Tasks.{Publishing}

pub complete_status :
    (m : Mmio) (base : ℕ) (c : Completion) (d : m.Device)
    → ((complete m base c d).1 ≡ success) ⊎ ((complete m base c d).1 ≡ ebusy)
unfolding complete
complete_status m base c d = ground arith

module _ (m : Mmio) (base : ℕ) (sleep : m.Device → m.Device) (clock : ℕ → ℕ) where
  -- The completion is in the portal, or the stall is counted.
  abbrev pub Ended : Publishing m → Publishing m × Status → Type 0
  Ended s (r, status) =
      (status ≡ success) × (r.stalls ≡ s.stalls)
      ⊎ (status ≡ etimedout) × (r.stalls ≡ saturating_atomic_inc s.stalls)

  -- So many tries and one more, with a sleep after each, find the portal busy.
  abbrev pub AreBusy : Completion → ℕ → m.Device → Type 0
  AreBusy c zero d = (complete m base c d).1 ≡ ebusy
  AreBusy c (suc n) d =
      ((complete m base c d).1 ≡ ebusy) × AreBusy c n (sleep (complete m base c d).0)

  -- A sleep of a millisecond lies between the answers of the clock on two tries, from answer `from`
  -- on, so the later one is greater. The tries end with one that succeeds or is not before the
  -- deadline.
  abbrev pub Sleeps : Completion → ℕ → ℕ → m.Device → Type 0
  Sleeps c deadline from d =
      (n : ℕ)
      → AreBusy c n d
      → clock (from + n) < deadline
      → clock (from + n) < clock (from + n + 1)
