-- ===== src/Pipeline/Bounded.antt =====
-- The recovery manager keeps no command for ever (main.c, vams_recovery_manager).
use virtual_accelerator_mana.Base.{
  ℕ, zero, suc, ◌+◌, ◌-◌, ◌≤◌, ◌<◌, ◌≡◌, refl, ◌∙◌, subst, Option, some, u64, arith,
}
use virtual_accelerator_mana.Log.{◌>>=◌}
use virtual_accelerator_mana.Pipeline.Store.{
  Platform, Store, Recovery, watching, aborted, recovered,
}
use virtual_accelerator_mana.Pipeline.Places.{IsEnded, at_recovered}
use virtual_accelerator_mana.Pipeline.Ownership.{one_here}
use virtual_accelerator_mana.Pipeline.Handing.{bind_some}
use virtual_accelerator_mana.Pipeline.Invariant.{IsMachine, IsConsistent}
use virtual_accelerator_mana.Pipeline.Steps.{Task, recovery, task_step}
use virtual_accelerator_mana.Pipeline.Recovering.{recovery-Succeeds}
use virtual_accelerator_mana.Pipeline.Turning.{
  Watched, done, expired, waits, watch-Watched, abort-recovered,
}

module _ (p : Platform) where
  -- The task alone, for so many steps.
  unfoldable pub repeat : ℕ → Task → Store p → Option (Store p)
  repeat zero k s = some s
  repeat (suc n) k s = do t ← task_step p k s; repeat n k t

module _ (p : Platform) (machine : IsMachine p) where
  -- So many steps of the recovery manager end with the command in a terminal state.
  abbrev pub Recovers : ℕ → ℕ → Store p → Type 0
  Recovers a n s =
      (k : ℕ) × (t : Store p) × (k ≤ n)
      × (repeat p k recovery s ≡ some t)
      × (t.recovery ≡ recovered a)
      × IsConsistent p machine t

  abort_ends :
      (a : ℕ) (s : Store p) → IsConsistent p machine s → s.recovery ≡ aborted a → Recovers a 1 s
  unfolding repeat
  abort_ends a s v at =
      let (t, e, w) = recovery-Succeeds p machine s v in
      (1, t, omega arith, bind_some _ e, from s.recovery at t e, w)
    where
      from :
          (r : Recovery)
          → r ≡ aborted a
          → (t : Store p) → task_step p recovery (record s { recovery = r }) ≡ some t
          → t.recovery ≡ recovered a
      from r at t e =
          abort-recovered p a s t
            (subst (λ x. task_step p recovery (record s { recovery = x }) ≡ some t) at e)

  one_more :
      (a n : ℕ) (s t : Store p)
      → task_step p recovery s ≡ some t
      → Recovers a n t
      → Recovers a (suc n) s
  unfolding repeat
  one_more a n s t e (k, u, le, r, at, w) = (suc k, u, omega arith, bind_some _ e ∙ r, at, w)

  at_once :
      (a n : ℕ) (s : Store p) → IsConsistent p machine s → s.recovery ≡ recovered a → Recovers a n s
  unfolding repeat
  at_once a n s v at = (0, s, omega arith, refl, at, v)

  Recovers-later : (a n m : ℕ) (s : Store p) → n ≤ m → Recovers a n s → Recovers a m s
  Recovers-later a n m s le (k, t, h, r, at, w) = (k, t, omega arith, r, at, w)

  watched_after :
      (now a : ℕ) (s t : Store p)
      → s.recovery ≡ watching now a
      → task_step p recovery s ≡ some t
      → Watched p a s.log.clock_reads ((s.objects a).deadline_ms) t
  watched_after now a s t at e = from s.recovery at t e
    where
      from :
          (r : Recovery)
          → r ≡ watching now a
          → (t : Store p) → task_step p recovery (record s { recovery = r }) ≡ some t
          → Watched p a s.log.clock_reads ((s.objects a).deadline_ms) t
      from r at t e =
          watch-Watched p now a s t
            (subst (λ x. task_step p recovery (record s { recovery = x }) ≡ some t) at e)

  -- A turn that goes on waiting.
  pub waited :
      (now now' a : ℕ) (s t : Store p)
      → s.recovery ≡ watching now a
      → task_step p recovery s ≡ some t
      → t.recovery ≡ watching now' a
      → (now' ≡ u64 (p.clock s.log.clock_reads))
        × (now' < (s.objects a).deadline_ms)
        × (t.log.clock_reads ≡ s.log.clock_reads + 1)
        × ((t.objects a).deadline_ms ≡ (s.objects a).deadline_ms)
  waited now now' a s t at e on = go (watched_after now a s t at e)
    where
      go :
          Watched p a s.log.clock_reads ((s.objects a).deadline_ms) t
          → (now' ≡ u64 (p.clock s.log.clock_reads))
            × (now' < (s.objects a).deadline_ms)
            × (t.log.clock_reads ≡ s.log.clock_reads + 1)
            × ((t.objects a).deadline_ms ≡ (s.objects a).deadline_ms)
      go (done ended) = cc
      go (expired ended) = cc
      go (waits early ended ticks same) =
          let time : now' ≡ u64 (p.clock s.log.clock_reads) = cc in
          (time, rw time early, ticks, same)

  turn :
      (now a : ℕ) (s : Store p)
      → IsConsistent p machine s
      → s.recovery ≡ watching now a
      → (t : Store p) × (task_step p recovery s ≡ some t)
        × IsConsistent p machine t
        × Watched p a s.log.clock_reads ((s.objects a).deadline_ms) t
  turn now a s v at =
      let (t, e, w) = recovery-Succeeds p machine s v in (t, e, w, watched_after now a s t at e)

  -- Turns in a row after each of which the task goes on waiting for the result of `a`: from `now`
  -- and `s`, to the time `now'` that the last of them took, and the state after it.
  pub data Waits (a : ℕ) : ℕ → Store p → ℕ → Store p → Type 0 where
    stays : {now : ℕ} {s : Store p} → s.recovery ≡ watching now a → Waits a now s now s
    turns :
        {now now' now'' : ℕ} {s t u : Store p}
        → s.recovery ≡ watching now a
        → task_step p recovery s ≡ some t
        → Waits a now' t now'' u
        → Waits a now s now'' u

  -- A turn that goes on waiting has waited for a millisecond at least, so it takes a later time than
  -- the one before.
  abbrev pub TimePasses : ℕ → ℕ → Store p → Type 0
  TimePasses a now s =
      (now' now'' : ℕ) (t u : Store p)
      → Waits a now s now' t
      → task_step p recovery t ≡ some u
      → u.recovery ≡ watching now'' a
      → now' < now''

  -- A turn, from what follows where the task goes on waiting.
  go_on :
      (n a : ℕ) (s t : Store p)
      → task_step p recovery s ≡ some t
      → IsConsistent p machine t
      → Watched p a s.log.clock_reads ((s.objects a).deadline_ms) t
      → ((now : ℕ)
          → now < (s.objects a).deadline_ms
          → t.recovery ≡ watching now a
          → (t.objects a).deadline_ms ≡ (s.objects a).deadline_ms
          → Recovers a (suc n) t)
      → Recovers a (suc (suc n)) s
  go_on n a s t e w (done ended) more = one_more a (suc n) s t e (at_once a (suc n) t w ended)
  go_on n a s t e w (expired ended) more =
      one_more a (suc n) s t e (Recovers-later a 1 (suc n) t (omega arith) (abort_ends a t w ended))
  go_on n a s t e w (waits early ended ticks same) more =
      one_more a (suc n) s t e (more _ early ended same)

  watch_ends :
      (n now a : ℕ) (s : Store p)
      → IsConsistent p machine s
      → s.recovery ≡ watching now a
      → (s.objects a).deadline_ms ≤ now + n
      → TimePasses a now s
      → Recovers a (suc (suc n)) s
  watch_ends zero now a s v at late passes =
      let (t, e, w, watched) = turn now a s v at in
      go_on 0 a s t e w watched (λ now' early ended same.
        let step = passes now now' s t (stays at) e ended in
        absurd (omega (arith, step, early, late)))
  watch_ends (suc n) now a s v at late passes =
      let (t, e, w, watched) = turn now a s v at in
      go_on (suc n) a s t e w watched (λ now' early ended same.
        let step = passes now now' s t (stays at) e ended in
        watch_ends n now' a t w ended (omega (arith, step, same, late))
          (λ now1 now2 x y r. passes now1 now2 x y (turns at e r)))

  -- If each turn that goes on waiting takes a later time than the one before, as it has waited for
  -- a millisecond at least, the recovery manager, waiting since `now` in a consistent pipeline for
  -- the result of a command and run alone, has handed it over to no later than two steps after as
  -- many as there are milliseconds from `now` to the deadline: it stands before the completion
  -- queue with the command in a terminal state, unpublished and with a completion that names its
  -- command and cookie.
  pub recovery_ends :
      (now a : ℕ) (s : Store p)
      → IsConsistent p machine s
      → s.recovery ≡ watching now a
      → TimePasses a now s
      → (k : ℕ) × (t : Store p) × (k ≤ (s.objects a).deadline_ms - now + 2)
        × (repeat p k recovery s ≡ some t)
        × (t.recovery ≡ recovered a)
        × IsEnded (t.objects a)
  recovery_ends now a s v at passes =
      let n = (s.objects a).deadline_ms - now in
      let (k, t, le, run, end, w) = watch_ends n now a s v at (omega arith) passes in
      (k, t, omega (arith, le), run, end, w.owned.fits at_recovered a (rw end (one_here a)))
