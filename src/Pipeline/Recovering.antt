-- ===== src/Pipeline/Recovering.antt =====
-- The steps of the recovery manager (main.c, vams_recovery_manager).
use virtual_accelerator_mana.Base.{
  ℕ, ◌-◌, min, ◌≡◌, refl, ap, ◌∙◌, ◌⊎◌, inl, inr, if◌then◌else◌, Option, none, some, update,
  update_self, update_ne, arith,
}
use virtual_accelerator_mana.Abi.{Completion}
use virtual_accelerator_mana.Atomic.{saturating_atomic_inc}
use virtual_accelerator_mana.Zephyr.{Mmio, Status, success, ebusy}
use virtual_accelerator_mana.Portal.{abort, result_receive}
use virtual_accelerator_mana.Scheduler.{CommandObject}
use virtual_accelerator_mana.Log.{Log}
use virtual_accelerator_mana.Log.Invariant.{IsLog}
use virtual_accelerator_mana.Pipeline.Store.{
  Platform, Store, Recovery, task_progress, task_recovery, resting, watching, aborted, recovered,
  abort_ack_timeout_ms, service_poll_ms,
}
use virtual_accelerator_mana.Pipeline.Places.{
  content, at_aborted, at_recovered, at_completion, IsEnded,
}
use virtual_accelerator_mana.Pipeline.Ownership.{Counted, one_here, room}
use virtual_accelerator_mana.Pipeline.Handing.{enqueue_room, bind_some, got}
use virtual_accelerator_mana.Pipeline.Invariant.{
  IsDeep-completion, IsMachine, IsConsistent, Succeeds, moved, aside,
}
use virtual_accelerator_mana.Pipeline.Publishing.{Continues}
use virtual_accelerator_mana.Pipeline.Steps.{task_step, recovery}
use virtual_accelerator_mana.Pipeline.Outcome.{
  recovery_step, settle_with, escalate_on, watch, answered, abort_requested,
}
use virtual_accelerator_mana.Pipeline.Watching.{polled-Continues, watch_got}
use virtual_accelerator_mana.Pipeline.Ended.{abandon-IsEnded, settle-IsSettled}

abort_status :
    (m : Mmio) (base : ℕ) (c : Completion) (d : m.Device)
    → ((abort m base c d).1 ≡ success) ⊎ ((abort m base c d).1 ≡ ebusy)
unfolding abort
abort_status m base c d = ground arith

module _ (p : Platform) (machine : IsMachine p) where
  -- The command whose abort was requested has ended.
  abbrev ended : ℕ → CommandObject → Log p.bus p.events → ℕ → Store p → Store p
  ended a c l escalations s = record s {
    objects = update s.objects a c;
    log = l;
    recovery_escalations = escalations;
    recovery = recovered a;
  }

  ended-IsConsistent :
      (a escalations : ℕ) (c : CommandObject) (l : Log p.bus p.events) (s0 : Store p)
      → IsConsistent p machine (record s0 { recovery = aborted a })
      → IsLog p.bus p.base p.events machine.ram l
      → IsEnded c
      → IsConsistent p machine (ended a c l escalations (record s0 { recovery = aborted a }))
  ended-IsConsistent a escalations c l s0 v w fit =
      let s : Store p = record s0 { recovery = aborted a } in
      let t : Store p = ended a c l escalations s in
      moved p machine {a = a} {from = at_aborted} {to = at_recovered} s t v
        (record {
          held = one_here a;
          counted = λ r. elim r as (Counted a at_aborted at_recovered (content p s) (content p t)) [
            | at_aborted ↦ λ b. omega arith
            | at_recovered ↦ λ b. omega arith
            | _ ↦ λ b. refl
          ];
          others = λ b n. update_ne s.objects a b c n;
          fit = rw (update_self s.objects a c) fit;
        })
        w refl v.deep

  settle_aborted :
      (result : Completion) (a : ℕ) (s0 : Store p)
      → IsConsistent p machine (record s0 { recovery = aborted a })
      → Continues p machine (settle_with p result a (record s0 { recovery = aborted a }))
  unfolding settle_with
  settle_aborted result a s0 v =
      let s : Store p = record s0 { recovery = aborted a } in
      let ((e, n, z), same) = v.owned.fits at_aborted a (one_here a) in
      let ((c, foreign), l, done, w, fit) =
        settle-IsSettled p.bus p.base p.events machine.ram p.clock result (s.objects a) s.log
          v.is_log (inr e) n z same in
      let n = s.recovery_escalations in
      let escalations = if foreign then saturating_atomic_inc n else n in
      (ended a c l escalations s, bind_some _ done, ended-IsConsistent a escalations c l s0 v w fit)

  escalate-Continues :
      (a : ℕ) (s0 : Store p)
      → IsConsistent p machine (record s0 { recovery = aborted a })
      → Continues p machine (escalate_on p a (record s0 { recovery = aborted a }))
  unfolding escalate_on
  escalate-Continues a s0 v =
      let s : Store p = record s0 { recovery = aborted a } in
      let escalations = saturating_atomic_inc s.recovery_escalations in
      let (open', same) = v.owned.fits at_aborted a (one_here a) in
      let (c, l, done, w, fit) =
        abandon-IsEnded p.bus p.base p.events machine.ram p.clock escalations (s.objects a) s.log
          v.is_log open' same in
      (ended a c l escalations s, bind_some _ done, ended-IsConsistent a escalations c l s0 v w fit)

  answered-Continues :
      (o : Option Completion) (a : ℕ) (s0 : Store p)
      → IsConsistent p machine (record s0 { recovery = aborted a })
      → Continues p machine (answered p o a (record s0 { recovery = aborted a }))
  answered-Continues (some result) a s0 v = settle_aborted result a s0 v
  answered-Continues none a s0 v = escalate-Continues a s0 v

  abort_requested-Continues :
      (status : Status) (a : ℕ) (s0 : Store p)
      → (status ≡ success) ⊎ (status ≡ ebusy)
      → IsConsistent p machine (record s0 { recovery = aborted a })
      → Continues p machine (abort_requested p status a (record s0 { recovery = aborted a }))
  abort_requested-Continues status a s0 (inl e) v =
      let s : Store p = record s0 { recovery = aborted a } in
      let (d, o) =
        result_receive p.portal_bus p.portal_base p.sleep (p.polls abort_ack_timeout_ms) s.portal in
      let (t, done, w) = answered-Continues o a (record s0 { portal = d }) (aside p machine s v) in
      (t, ap (λ x. abort_requested p x a s) e ∙ done, w)
  abort_requested-Continues status a s0 (inr e) v =
      let s : Store p = record s0 { recovery = aborted a } in
      let (d, o) = result_receive p.portal_bus p.portal_base p.sleep 0 s.portal in
      let (t, done, w) = answered-Continues o a (record s0 { portal = d }) (aside p machine s v) in
      (t, ap (λ x. abort_requested p x a s) e ∙ done, w)

  hand_over :
      (a : ℕ) (s0 : Store p)
      → IsConsistent p machine (record s0 { recovery = recovered a })
      → Succeeds p machine recovery (record s0 { recovery = recovered a })
  unfolding task_step recovery_step
  hand_over a s0 v =
      let s : Store p = record s0 { recovery = recovered a } in
      let (link, done, put) = enqueue_room p a s.completion_queue s.queue_overloads (
        rw v.deep.completion_depth (
          room s.objects (content p s) v.owned at_completion at_recovered a (λ e. cc)
            (one_here a))) in
      let t : Store p = record s { completion_queue = link; recovery = resting } in
      (
        t,
        bind_some _ done,
        moved p machine {a = a} {from = at_recovered} {to = at_completion} s t v
            (record {
              held = one_here a;
              counted = λ r.
                  elim r as (Counted a at_recovered at_completion (content p s) (content p t)) [
                    | at_recovered ↦ λ b. omega arith
                    | at_completion ↦ λ b. omega (arith, put.more b)
                    | _ ↦ λ b. refl
                  ];
              others = λ b n. refl;
              fit = v.owned.fits at_recovered a (one_here a);
            })
            v.is_log refl (IsDeep-completion p machine v.deep put.same_depth),
      )

  watch-Succeeds :
      (now a : ℕ) (s0 : Store p)
      → IsConsistent p machine (record s0 { recovery = watching now a })
      → Succeeds p machine recovery (record s0 { recovery = watching now a })
  unfolding task_step recovery_step watch
  watch-Succeeds now a s0 v =
      let poll_ms = min ((s0.objects a).deadline_ms - now) service_poll_ms in
      let (d, o) = result_receive p.portal_bus p.portal_base p.sleep (p.polls poll_ms) s0.portal in
      polled-Continues p machine o now a (task_progress p task_recovery (record s0 { portal = d }))
        (aside p machine (record s0 { recovery = watching now a }) v)

  abort-Succeeds :
      (a : ℕ) (s0 : Store p)
      → IsConsistent p machine (record s0 { recovery = aborted a })
      → Succeeds p machine recovery (record s0 { recovery = aborted a })
  unfolding task_step recovery_step
  abort-Succeeds a s0 v =
      let c = (s0.objects a).completion in
      let (d, status) = abort p.portal_bus p.portal_base c s0.portal in
      abort_requested-Continues status a (record s0 { portal = d })
        (abort_status p.portal_bus p.portal_base c s0.portal)
        (aside p machine (record s0 { recovery = aborted a }) v)

  step_from :
      (r : Recovery) (s : Store p)
      → IsConsistent p machine (record s { recovery = r })
      → Succeeds p machine recovery (record s { recovery = r })
  unfolding task_step recovery_step
  step_from resting s v =
      watch_got p machine (task_progress p task_recovery s)
        (aside p machine (record s { recovery = resting }) v) (got p s.running_queue.queue)
  step_from (watching now a) s v = watch-Succeeds now a s v
  step_from (aborted a) s v = abort-Succeeds a s v
  step_from (recovered a) s v = hand_over a s v

  pub recovery-Succeeds : (s : Store p) → IsConsistent p machine s → Succeeds p machine recovery s
  recovery-Succeeds s v = step_from s.recovery s v
