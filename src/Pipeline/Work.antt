-- ===== src/Pipeline/Work.antt =====
-- What the tasks of main.c do to the one command object that they own, between taking it and
-- handing it on. `none` is a failed assertion.
use virtual_accelerator_mana.Base.{ℕ, Bool, true, false, if◌then◌else◌, ◌!=◌, Option, none, some}
use virtual_accelerator_mana.Abi.{Completion, status_success}
use virtual_accelerator_mana.Command.{command_execute}
use virtual_accelerator_mana.Zephyr.{Mmio, Msgq, success, eproto}
use virtual_accelerator_mana.Log.{
  Log, Event, emit, note_command, clear_command, uptime_get, event_abort_request,
  event_abort_escalated, event_result_mismatch, event_command_complete, ◌>>=◌,
}
use virtual_accelerator_mana.Scheduler.{
  CommandObject, free, submitted, validating, queued, running, aborting, completed, completed_error,
  transition, capture, timeout, cancel, apply_result, begin_abort, escalate, mark_published,
  deadline_expired,
}
use virtual_accelerator_mana.Tasks.{is_payload_opcode}

module _ (m : Mmio) (base : ℕ) (q : Msgq Event) (clock : ℕ → ℕ) where
  abbrev Work : Type 0 → Type 0
  Work A = Log m q → Option (A × Log m q)

  -- The receiver's, on an object whose descriptor has arrived.
  unfoldable pub take_in : ℕ → ℕ → CommandObject → Work CommandObject
  take_in generation sequence c l = do
    let (now, l0) = uptime_get m base q clock l
    (c1, l1) ← capture m base q clock generation sequence now c l0
    l2 ← note_command m base q clock c1.submission.command_id generation l1
    some (c1, l2)

  -- The validator's; the answer is whether the command was accepted.
  unfoldable pub judge : CommandObject → Work (CommandObject × Bool)
  judge c l = do
    (c1, l1) ← transition m base q clock submitted validating c l
    let (now, l2) = uptime_get m base q clock l1
    let c2 = record c1 { completion = command_execute c1.submission now }
    if c2.completion.status != status_success
        then (do
          (c3, l3) ← transition m base q clock validating completed_error c2 l2
          some ((c3, false), l3))
        else (do
          (c3, l3) ← transition m base q clock validating queued c2 l2
          some ((c3, true), l3))

  -- The scheduler's, on the object that it has selected; the answer is whether the engine must be
  -- authorized first.
  unfoldable pub dispatch : ℕ → CommandObject → Work (CommandObject × Bool)
  dispatch generation c l =
      if c.generation != generation
      then (do
        let (now, l1) = uptime_get m base q clock l
        (c1, l2) ← cancel m base q clock now c l1
        some ((c1, false), l2))
      else if deadline_expired c (uptime_get m base q clock l).0
      then (do
        let l1 = (uptime_get m base q clock l).1
        (c1, l2) ← transition m base q clock queued aborting c l1
        let (now, l3) = uptime_get m base q clock l2
        (c2, l4) ← timeout m base q clock now c1 l3
        some ((c2, false), l4))
      else (do
        let l1 = (uptime_get m base q clock l).1
        (c1, l2) ← transition m base q clock queued running c l1
        if is_payload_opcode c1.submission.opcode then some ((c1, true), l2) else (do
          (c2, l3) ← transition m base q clock running completed c1 l2
          some ((c2, false), l3)))

  -- The recovery manager's at the deadline of a command, with the number of attempts so far.
  unfoldable pub request_abort : ℕ → CommandObject → Work CommandObject
  request_abort attempts c l = do
    let (now, l1) = uptime_get m base q clock l
    (c1, l2) ← begin_abort m base q clock now c l1
    l3 ←
        emit m base q clock event_abort_request c1.submission.command_id c1.generation attempts 0 0
          0 l2
    some (c1, l3)

  -- Where no answer to the abort request comes, with the number of escalations so far.
  unfoldable pub abandon : ℕ → CommandObject → Work CommandObject
  abandon escalations c l = do
    let (now, l1) = uptime_get m base q clock l
    (c1, l2) ← escalate m base q clock now c l1
    l3 ←
        emit m base q clock event_abort_escalated c1.submission.command_id c1.generation escalations
          0 0 0 l2
    some (c1, l3)

  -- With a result; the answer is whether it was refused.
  unfoldable pub settle : Completion → CommandObject → Work (CommandObject × Bool)
  settle result c l = do
    ((c1, status), l1) ← apply_result m base q clock result c l
    elim status [
      | eproto ↦ (do
        let (now, l2) = uptime_get m base q clock l1
        (c2, l3) ← escalate m base q clock now c1 l2
        l4 ←
            emit m base q clock event_result_mismatch c2.submission.command_id c2.generation 0 0 0 0
              l3
        some ((c2, true), l4))
      | success ↦ some ((c1, false), l1)
      | _ ↦ none
    ]

  -- The completion task's, once the host has the completion.
  unfoldable pub retire : CommandObject → Work CommandObject
  retire c l = do
    (c1, l1) ← mark_published m base q clock c l
    l2 ←
        emit m base q clock event_command_complete c1.completion.command_id c1.generation
          c1.completion.status c1.completion.error_code 0 c1.completion.user_cookie l1
    (c2, l3) ← transition m base q clock c.state free c1 l2
    l4 ← clear_command m base q clock l3
    some (c2, l4)
