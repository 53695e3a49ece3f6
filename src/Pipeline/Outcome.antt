-- ===== src/Pipeline/Outcome.antt =====
-- The bodies of the recovery manager and of the completion task (main.c, vams_recovery_manager and
-- vams_command_completion), cut into steps. `none` is a failed assertion.
use virtual_accelerator_mana.Base.{ℕ, ◌-◌, min, if◌then◌else◌, ltb, Option, none, some, update}
use virtual_accelerator_mana.Abi.{Completion}
use virtual_accelerator_mana.Atomic.{saturating_atomic_inc}
use virtual_accelerator_mana.Zephyr.{Status, success, ebusy}
use virtual_accelerator_mana.Portal.{result_receive, complete, abort}
use virtual_accelerator_mana.Log.{◌>>=◌}
use virtual_accelerator_mana.Pipeline.Store.{
  Platform, Store, now_of, clock_read, give_back, task_recovery, task_completion, zeroed, enqueue,
  task_progress, service_poll_ms, abort_ack_timeout_ms, resting, watching, aborted, recovered,
  waiting, publishing, stopped,
}
use virtual_accelerator_mana.Pipeline.Work.{request_abort, abandon, settle, retire}
use virtual_accelerator_mana.Pipeline.Dispatch.{published, publish_deadline}

module _ (p : Platform) where
  open p use {bus, base, events, clock, portal_bus, portal_base, sleep, polls, links, slab}

  -- A result has come.
  unfoldable pub settle_with : Completion → ℕ → Store p → Option (Store p)
  settle_with result a s = do
    ((c, foreign), l) ← settle bus base events clock result (s.objects a) s.log
    some (record s {
      objects = update s.objects a c;
      log = l;
      recovery_escalations =
          if foreign then saturating_atomic_inc s.recovery_escalations else s.recovery_escalations;
      recovery = recovered a;
    })

  -- The deadline has passed without a result.
  unfoldable pub give_up_on : ℕ → Store p → Option (Store p)
  give_up_on a s = do
    let attempts = saturating_atomic_inc s.recovery_attempts
    (c, l) ← request_abort bus base events clock attempts (s.objects a) s.log
    some (record s {
      objects = update s.objects a c;
      log = l;
      recovery_attempts = attempts;
      recovery = aborted a;
    })

  -- No answer to the abort request either.
  unfoldable pub escalate_on : ℕ → Store p → Option (Store p)
  escalate_on a s = do
    let escalations = saturating_atomic_inc s.recovery_escalations
    (c, l) ← abandon bus base events clock escalations (s.objects a) s.log
    some (record s {
      objects = update s.objects a c;
      log = l;
      recovery_escalations = escalations;
      recovery = recovered a;
    })

  -- The portal has been polled for the result.
  abbrev pub polled : Option Completion → ℕ → Store p → Option (Store p)
  polled (some result) a s = settle_with result a (clock_read p s)
  polled none a s =
      if ltb (now_of p s) ((s.objects a).deadline_ms)
      then some (record (clock_read p s) { recovery = watching (now_of p s) a })
      else give_up_on a (clock_read p s)

  -- A turn of the loop that waits for the result.
  unfoldable pub watch : ℕ → ℕ → Store p → Option (Store p)
  watch now a s =
      let poll_ms = min ((s.objects a).deadline_ms - now) service_poll_ms in
      let (d, result) = result_receive portal_bus portal_base sleep (polls poll_ms) s.portal in
      polled result a (task_progress p task_recovery (record s { portal = d }))

  -- The wait for the answer to the abort request is over.
  abbrev pub answered : Option Completion → ℕ → Store p → Option (Store p)
  answered (some result) a s = settle_with result a s
  answered none a s = escalate_on a s

  -- The abort request has been made, or a result has come before it.
  abbrev pub abort_requested : Status → ℕ → Store p → Option (Store p)
  abort_requested success a s =
      let (d, answer) =
        result_receive portal_bus portal_base sleep (polls abort_ack_timeout_ms) s.portal in
      answered answer a (record s { portal = d })
  abort_requested ebusy a s =
      let (d, answer) = result_receive portal_bus portal_base sleep 0 s.portal in
      answered answer a (record s { portal = d })
  abort_requested _ a s = none

  -- The running queue has been asked for a command.
  abbrev pub watch_next : Option (ℕ × links.Queue) → Store p → Option (Store p)
  watch_next none s = some s
  watch_next (some (a, rest)) s = some (record (clock_read p s) {
    running_queue = record s.running_queue { queue = rest };
    recovery = watching (now_of p s) a;
  })

  unfoldable pub recovery_step : Store p → Option (Store p)
  recovery_step s = elim s.recovery [
    | resting ↦ watch_next (links.get s.running_queue.queue) (task_progress p task_recovery s)
    | watching now a ↦ watch now a s
    | aborted a ↦
        let (d, status) = abort portal_bus portal_base ((s.objects a).completion) s.portal in
        abort_requested status a (record s { portal = d })
    | recovered a ↦ (do
      link ← enqueue p a s.completion_queue s.queue_overloads
      some (record s { completion_queue = link; recovery = resting }))
  ]

  unfoldable pub retire_block : ℕ → Store p → Option (Store p)
  retire_block a s = do
    (c, l) ← retire bus base events clock (s.objects a) s.log
    some (record (give_back p a s) {
      objects = update s.objects a zeroed;
      log = l;
      publisher = waiting;
    })

  -- The completion queue has been asked for a command.
  abbrev pub publish_next : Option (ℕ × links.Queue) → Store p → Option (Store p)
  publish_next none s = some s
  publish_next (some (a, rest)) s = some (record (clock_read p s) {
    completion_queue = record s.completion_queue { queue = rest };
    publisher = publishing (publish_deadline p s) a;
  })

  unfoldable pub completion_step : Store p → Option (Store p)
  completion_step s = elim s.publisher [
    | waiting ↦
        publish_next (links.get s.completion_queue.queue) (task_progress p task_completion s)
    | publishing deadline a ↦
        let (d, status) = complete portal_bus portal_base ((s.objects a).completion) s.portal in
        published p status deadline (retire_block a) (λ t. record t { publisher = stopped a })
          (record s { portal = d })
    | stopped a ↦ some s
  ]
