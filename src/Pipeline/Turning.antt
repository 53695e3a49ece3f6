-- ===== src/Pipeline/Turning.antt =====
-- Where the recovery manager stands after a turn of its loop, and after an abort request (main.c,
-- vams_recovery_manager).
use virtual_accelerator_mana.Base.{
  ℕ, ◌+◌, ◌<◌, ◌≡◌, sym, ap, ◌∙◌, inl, inr, Bool-cases, ltb, if_true, if_false, true, Option, none,
  some, u64, arith,
}
use virtual_accelerator_mana.Abi.{Completion}
use virtual_accelerator_mana.Zephyr.{Status, success, ebusy}
use virtual_accelerator_mana.Log.{uptime_get}
use virtual_accelerator_mana.Pipeline.Store.{
  Platform, Store, watching, aborted, recovered, clock_read, now_of,
}
use virtual_accelerator_mana.Pipeline.Steps.{recovery, task_step}
use virtual_accelerator_mana.Pipeline.Outcome.{
  recovery_step, settle_with, give_up_on, escalate_on, polled, watch, answered, abort_requested,
}

some_inj : {A : Type 0} {a b : A} → some a ≡ some b → a ≡ b
some_inj {a} e = ap (λ o. elim o [ none ↦ a | some x ↦ x ]) e

module _ (p : Platform) where
  settle_with-recovered :
      (r : Completion) (a : ℕ) (s t : Store p)
      → settle_with p r a s ≡ some t
      → t.recovery ≡ recovered a
  unfolding settle_with
  settle_with-recovered r a s t e = ground arith

  escalate_on-recovered :
      (a : ℕ) (s t : Store p) → escalate_on p a s ≡ some t → t.recovery ≡ recovered a
  unfolding escalate_on
  escalate_on-recovered a s t e = ground arith

  give_up_on-aborted : (a : ℕ) (s t : Store p) → give_up_on p a s ≡ some t → t.recovery ≡ aborted a
  unfolding give_up_on
  give_up_on-aborted a s t e = ground arith

  answered-recovered :
      (o : Option Completion) (a : ℕ) (s t : Store p)
      → answered p o a s ≡ some t
      → t.recovery ≡ recovered a
  answered-recovered (some r) a s t e = settle_with-recovered r a s t e
  answered-recovered none a s t e = escalate_on-recovered a s t e

  abort_requested-recovered :
      (status : Status) (a : ℕ) (s t : Store p)
      → abort_requested p status a s ≡ some t
      → t.recovery ≡ recovered a
  abort_requested-recovered success a s t e = answered-recovered _ a _ t e
  abort_requested-recovered ebusy a s t e = answered-recovered _ a _ t e
  abort_requested-recovered _ a s t e = cc

  -- Where the task stands after a turn of its loop from `reads` readings of the clock on: it goes on
  -- waiting only before the deadline.
  pub data Watched (a reads deadline : ℕ) (t : Store p) : Type 0 where
    done : t.recovery ≡ recovered a → Watched a reads deadline t
    expired : t.recovery ≡ aborted a → Watched a reads deadline t
    waits :
        u64 (p.clock reads) < deadline
        → t.recovery ≡ watching (u64 (p.clock reads)) a
        → t.log.clock_reads ≡ reads + 1
        → (t.objects a).deadline_ms ≡ deadline
        → Watched a reads deadline t

  early_lt : (m n : ℕ) → ltb m n ≡ true → m < n
  early_lt m n e = ground arith

  polled-Watched :
      (o : Option Completion) (a : ℕ) (s t : Store p)
      → polled p o a s ≡ some t
      → Watched a s.log.clock_reads ((s.objects a).deadline_ms) t
  unfolding uptime_get
  polled-Watched (some r) a s t e = done (settle_with-recovered r a (clock_read p s) t e)
  polled-Watched none a s t e = elim (Bool-cases (ltb (now_of p s) ((s.objects a).deadline_ms))) [
    | inl early ↦
        let same : some (record (clock_read p s) { recovery = watching (now_of p s) a }) ≡ some t =
          sym (if_true _ _ _ early) ∙ e in
        let f = some_inj same in
        waits (early_lt _ _ early) (ap (λ (x : Store p). x.recovery) (sym f))
          (ap (λ (x : Store p). x.log.clock_reads) (sym f))
          (ap (λ (x : Store p). (x.objects a).deadline_ms) (sym f))
    | inr late ↦ expired (give_up_on-aborted a (clock_read p s) t (sym (if_false _ _ _ late) ∙ e))
  ]

  pub watch-Watched :
      (now a : ℕ) (s0 t : Store p)
      → let s : Store p = record s0 { recovery = watching now a } in
        task_step p recovery s ≡ some t → Watched a s.log.clock_reads ((s.objects a).deadline_ms) t
  unfolding task_step recovery_step watch
  watch-Watched now a s0 t e = polled-Watched _ a _ t e

  pub abort-recovered :
      (a : ℕ) (s0 t : Store p)
      → task_step p recovery (record s0 { recovery = aborted a }) ≡ some t
      → t.recovery ≡ recovered a
  unfolding task_step recovery_step
  abort-recovered a s0 t e = abort_requested-recovered _ a _ t e
