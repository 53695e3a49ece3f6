-- ===== src/Pipeline/Worked.antt =====
-- What each task's work makes of a command object in the state in which the task finds it (main.c,
-- with firmware/src/scheduler/vams_scheduler.c): no assertion fails, and the object is as the next
-- place relies on.
use virtual_accelerator_mana.Base.{
  ℕ, ◌+◌, ◌<◌, ◌^◌, ◌≡◌, refl, ◌∙◌, inl, inr, Bool, true, false, Bool-cases, ◌!=◌, if_true,
  if_false, Option, some,
}
use virtual_accelerator_mana.Abi.{status_success}
use virtual_accelerator_mana.Zephyr.{Mmio, Msgq, IsRam}
use virtual_accelerator_mana.Command.{command_execute}
use virtual_accelerator_mana.Management.{retention_base}
use virtual_accelerator_mana.Log.{Log, Event, uptime_get}
use virtual_accelerator_mana.Log.Invariant.{IsLog}
use virtual_accelerator_mana.Log.Emit.{note_command_total}
use virtual_accelerator_mana.Scheduler.{
  CommandObject, free, submitted, validating, queued, running, aborting, completed, completed_error,
  deadline_expired,
}
use virtual_accelerator_mana.Scheduler.Totality.{IsNamed}
use virtual_accelerator_mana.Scheduler.Exact.{
  captured_with, timed_out_at, cancelled_at, still-IsNamed, transition_exact, capture_exact,
  timeout_exact, cancel_exact,
}
use virtual_accelerator_mana.Tasks.{is_payload_opcode}
use virtual_accelerator_mana.Pipeline.Places.{Answers, IsOpen, IsEnded}
use virtual_accelerator_mana.Pipeline.Work.{take_in, judge, dispatch}

module _ (m : Mmio) (base : ℕ) (q : Msgq Event) (ram : IsRam m (base + retention_base) 32)
    (clock : ℕ → ℕ) where
  -- The work returns a value that has the property, and the log is as it should be between calls.
  abbrev pub Does : {A : Type 0} → (A → Type 0) → Option (A × Log m q) → Type 0
  Does {A} P r = (x : A) × (l : Log m q) × (r ≡ some (x, l)) × IsLog m base q ram l × P x

  -- The clock is no part of what the log promises.
  pub ticked :
      (l : Log m q) → IsLog m base q ram l → IsLog m base q ram (uptime_get m base q clock l).1
  unfolding uptime_get
  ticked l v = record { sound = v.sound; valid = v.valid; held = v.held; drops_fit = v.drops_fit }

  pub take_in-IsOpen :
      (generation sequence : ℕ) (c : CommandObject) (l : Log m q)
      → IsLog m base q ram l
      → c.submission.command_id < 2 ^ 32
      → generation < 2 ^ 32
      → c.state ≡ free
      → Does (IsOpen submitted) (take_in m base q clock generation sequence c l)
  unfolding take_in
  take_in-IsOpen generation sequence c l v n g e =
      let (now, l0) = uptime_get m base q clock l in
      let (l1, done, v1) =
        capture_exact m base q ram clock generation sequence now c l0 (ticked l v) n g e in
      let (l2, noted, v2, _, _) =
        note_command_total m base q ram clock c.submission.command_id generation l1 v1 n g in
      (
        captured_with generation sequence now c,
        l2,
        rw (done, noted) refl,
        v2,
        (refl, record { id_fits = n; generation_fits = g }, refl),
      )

  -- What the validator leaves: a command that is accepted, or one that has ended.
  abbrev pub Judged : CommandObject × Bool → Type 0
  Judged (c, true) = IsOpen queued c × Answers c
  Judged (c, false) = IsEnded c

  pub judge-Judged :
      (c : CommandObject) (l : Log m q)
      → IsLog m base q ram l
      → IsOpen submitted c
      → Does Judged (judge m base q clock c l)
  unfolding judge command_execute
  judge-Judged c l v (e, n, z) =
      let (l1, done, v1) = transition_exact m base q ram clock submitted validating c l v n e in
      let c1 : CommandObject = record c { state = validating } in
      let (now, l2) = uptime_get m base q clock l1 in
      let c2 : CommandObject = record c1 { completion = command_execute c.submission now } in
      let n2 : IsNamed c2 = still-IsNamed n refl refl in
      elim (Bool-cases (c2.completion.status != status_success)) [
        | inl bad ↦
            let (l3, moved, v3) =
              transition_exact m base q ram clock validating completed_error c2 l2 (ticked l1 v1) n2
                refl in
            (
              (record c2 { state = completed_error }, false),
              l3,
              rw (done, bad, moved) refl,
              v3,
              (inr (inl refl), still-IsNamed n refl refl, z, (refl, refl)),
            )
        | inr good ↦
            let (l3, moved, v3) =
              transition_exact m base q ram clock validating queued c2 l2 (ticked l1 v1) n2 refl in
            (
              (record c2 { state = queued }, true),
              l3,
              rw (done, good, moved) refl,
              v3,
              ((refl, still-IsNamed n refl refl, z), (refl, refl)),
            )
      ]

  -- What the scheduler leaves: a command for the engine, or one that has ended.
  abbrev pub Dispatched : CommandObject × Bool → Type 0
  Dispatched (c, true) = IsOpen running c × Answers c
  Dispatched (c, false) = IsEnded c

  pub dispatch-Dispatched :
      (generation : ℕ) (c : CommandObject) (l : Log m q)
      → IsLog m base q ram l
      → IsOpen queued c
      → Answers c
      → Does Dispatched (dispatch m base q clock generation c l)
  unfolding dispatch
  dispatch-Dispatched generation c l v (e, n, z) same =
      let (now, l1) = uptime_get m base q clock l in
      let v1 = ticked l v in
      elim (Bool-cases (c.generation != generation)) [
        | inl stale ↦
            let (l2, done, v2) = cancel_exact m base q ram clock now c l1 v1 n e in
            (
              (cancelled_at now c, false),
              l2,
              if_true _ _ _ stale ∙ rw done refl,
              v2,
              (inr (inr refl), still-IsNamed n refl refl, z, same),
            )
        | inr fresh ↦ elim (Bool-cases (deadline_expired c now)) [
          | inl late ↦
              let (l2, done, v2) =
                transition_exact m base q ram clock queued aborting c l1 v1 n e in
              let c1 : CommandObject = record c { state = aborting } in
              let (then', l3) = uptime_get m base q clock l2 in
              let (l4, ended, v4) =
                timeout_exact m base q ram clock then' c1 l3 (ticked l2 v2)
                  (still-IsNamed n refl refl) refl in
              (
                (timed_out_at then' c1, false),
                l4,
                if_false _ _ _ fresh ∙ if_true _ _ _ late ∙ rw (done, ended) refl,
                v4,
                (inr (inl refl), still-IsNamed n refl refl, z, same),
              )
          | inr early ↦
              let (l2, done, v2) = transition_exact m base q ram clock queued running c l1 v1 n e in
              let c1 : CommandObject = record c { state = running } in
              let n1 : IsNamed c1 = still-IsNamed n refl refl in
              elim (Bool-cases (is_payload_opcode c.submission.opcode)) [
                | inl payload ↦ (
                  (c1, true),
                  l2,
                  if_false _ _ _ fresh ∙ if_false _ _ _ early ∙ rw (done, payload) refl,
                  v2,
                  ((refl, n1, z), same),
                )
                | inr local ↦
                    let (l3, ended, v3) =
                      transition_exact m base q ram clock running completed c1 l2 v2 n1 refl in
                    (
                      (record c1 { state = completed }, false),
                      l3,
                      if_false _ _ _ fresh ∙ if_false _ _ _ early ∙ rw (done, local, ended) refl,
                      v3,
                      (inl refl, still-IsNamed n refl refl, z, same),
                    )
              ]
        ]
      ]
