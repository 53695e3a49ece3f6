-- ===== src/Pipeline/Ended.antt =====
-- What the work of the recovery manager and of the completion task makes of a command object
-- (main.c, with firmware/src/scheduler/vams_scheduler.c): no assertion fails, and the object is as
-- the next place relies on.
use virtual_accelerator_mana.Base.{
  ℕ, ◌+◌, ◌≡◌, refl, ◌⊎◌, inl, inr, Bool, true, false, Bool-cases, ◌==◌, if◌then◌else◌, arith,
}
use virtual_accelerator_mana.Abi.{Completion, status_success}
use virtual_accelerator_mana.Zephyr.{Mmio, Msgq, IsRam}
use virtual_accelerator_mana.Management.{retention_base}
use virtual_accelerator_mana.Log.{
  Log, Event, uptime_get, event_abort_request, event_abort_escalated, event_result_mismatch,
  event_command_complete,
}
use virtual_accelerator_mana.Log.Invariant.{IsLog}
use virtual_accelerator_mana.Log.Emit.{emit_total, clear_command_total}
use virtual_accelerator_mana.Scheduler.{
  CommandObject, free, running, aborting, completed, completed_error,
}
use virtual_accelerator_mana.Scheduler.Edges.{IsTerminal}
use virtual_accelerator_mana.Scheduler.Totality.{IsNamed}
use virtual_accelerator_mana.Scheduler.Exact.{
  is_foreign, ended_with, aborting_at, failed_at, still-IsNamed, transition_exact,
  apply_result_exact, begin_abort_exact, escalate_exact, mark_published_exact,
}
use virtual_accelerator_mana.Pipeline.Places.{Answers, IsOpen, IsEnded}
use virtual_accelerator_mana.Pipeline.Work.{request_abort, abandon, settle, retire}
use virtual_accelerator_mana.Pipeline.Worked.{Does, ticked}

module _ (m : Mmio) (base : ℕ) (q : Msgq Event) (ram : IsRam m (base + retention_base) 32)
    (clock : ℕ → ℕ) where
  abbrev pub IsAborting : CommandObject → Type 0
  IsAborting c = IsOpen aborting c × Answers c

  pub request_abort-IsAborting :
      (attempts : ℕ) (c : CommandObject) (l : Log m q)
      → IsLog m base q ram l
      → IsOpen running c
      → Answers c
      → Does m base q ram clock IsAborting (request_abort m base q clock attempts c l)
  unfolding request_abort
  request_abort-IsAborting attempts c l v (e, n, z) same =
      let (now, l1) = uptime_get m base q clock l in
      let (l2, done, v2) =
        begin_abort_exact m base q ram clock now c l1 (ticked m base q ram clock l v) n e in
      let (l3, told, k) =
        emit_total m base q ram clock event_abort_request c.submission.command_id c.generation
          attempts 0 0 0 l2 v2 (omega arith) n.id_fits n.generation_fits in
      (
        aborting_at now c,
        l3,
        rw (done, told) refl,
        k.is_log,
        ((refl, still-IsNamed n refl refl, z), same),
      )

  pub abandon-IsEnded :
      (escalations : ℕ) (c : CommandObject) (l : Log m q)
      → IsLog m base q ram l
      → IsOpen aborting c
      → Answers c
      → Does m base q ram clock IsEnded (abandon m base q clock escalations c l)
  unfolding abandon
  abandon-IsEnded escalations c l v (e, n, z) same =
      let (now, l1) = uptime_get m base q clock l in
      let (l2, done, v2) =
        escalate_exact m base q ram clock now c l1 (ticked m base q ram clock l v) n (inr e) in
      let (l3, told, k) =
        emit_total m base q ram clock event_abort_escalated c.submission.command_id c.generation
          escalations 0 0 0 l2 v2 (omega arith) n.id_fits n.generation_fits in
      (
        failed_at now c,
        l3,
        rw (done, told) refl,
        k.is_log,
        (inr (inl refl), still-IsNamed n refl refl, z, same),
      )

  ended_state : (won : Bool) → IsTerminal (if won then completed else completed_error)
  ended_state true = inl refl
  ended_state false = inr (inl refl)

  own_result :
      (result : Completion) (c : CommandObject)
      → is_foreign result c ≡ false
      → Answers (ended_with result c)
  own_result result c h = ground arith

  abbrev pub IsSettled : CommandObject × Bool → Type 0
  IsSettled (c, foreign) = IsEnded c

  pub settle-IsSettled :
      (result : Completion) (c : CommandObject) (l : Log m q)
      → IsLog m base q ram l
      → (c.state ≡ running) ⊎ (c.state ≡ aborting)
      → IsNamed c
      → c.publication_count ≡ 0
      → Answers c
      → Does m base q ram clock IsSettled (settle m base q clock result c l)
  unfolding settle
  settle-IsSettled result c l v e n z same =
      let (l1, done, v1) = apply_result_exact m base q ram clock result c l v n e in
      elim (Bool-cases (is_foreign result c)) [
        | inl other ↦
            let (now, l2) = uptime_get m base q clock l1 in
            let (l3, ended, v3) =
              escalate_exact m base q ram clock now c l2 (ticked m base q ram clock l1 v1) n e in
            let (l4, told, k) =
              emit_total m base q ram clock event_result_mismatch c.submission.command_id
                c.generation 0 0 0 0 l3 v3 (omega arith) n.id_fits n.generation_fits in
            (
              (failed_at now c, true),
              l4,
              rw (done, other, ended, told) refl,
              k.is_log,
              (inr (inl refl), still-IsNamed n refl refl, z, same),
            )
        | inr own ↦ (
          (ended_with result c, false),
          l1,
          rw (done, own) refl,
          v1,
          (
            ended_state (result.status == status_success),
            still-IsNamed n refl refl,
            z,
            own_result result c own,
          ),
        )
      ]

  abbrev pub IsFree : CommandObject → Type 0
  IsFree c = c.state ≡ free

  pub retire-IsFree :
      (c : CommandObject) (l : Log m q)
      → IsLog m base q ram l
      → IsEnded c
      → Does m base q ram clock IsFree (retire m base q clock c l)
  unfolding retire
  retire-IsFree c l v (e, n, z, same) =
      let (l1, done, v1) = mark_published_exact m base q ram clock c l v n e z in
      let c1 : CommandObject = record c { publication_count = 1 } in
      let (l2, told, k) =
        emit_total m base q ram clock event_command_complete c.completion.command_id c.generation
          c.completion.status c.completion.error_code 0 c.completion.user_cookie l1 v1 (omega arith)
          (rw (same.0) n.id_fits) n.generation_fits in
      let (l3, freed, v3) =
        transition_exact m base q ram clock c.state free c1 l2 k.is_log (still-IsNamed n refl refl)
          refl in
      let (l4, cleared, v4) = clear_command_total m base q ram clock l3 v3 in
      (record c1 { state = free }, l4, rw (done, told, freed, cleared) refl, v4, refl)
