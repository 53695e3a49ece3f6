-- ===== src/Pipeline/Validating.antt =====
-- The steps of the validator (main.c, vams_command_validator).
use virtual_accelerator_mana.Base.{
  ℕ, ◌+◌, ◌≡◌, refl, ap, ◌∙◌, Bool, true, false, if◌then◌else◌, some, count, one, update,
  update_self, update_ne, arith,
}
use virtual_accelerator_mana.Scheduler.{CommandObject}
use virtual_accelerator_mana.Log.{Log}
use virtual_accelerator_mana.Log.Invariant.{IsLog}
use virtual_accelerator_mana.Pipeline.Store.{
  Platform, Store, Validator, task_progress, task_validator, idle, accepted, refused,
}
use virtual_accelerator_mana.Pipeline.Places.{
  content, at_validation, at_accepted, at_refused, at_ready, at_completion,
}
use virtual_accelerator_mana.Pipeline.Ownership.{Counted, one_here, room}
use virtual_accelerator_mana.Pipeline.Handing.{enqueue_room, bind_some, Got, nothing, first, got}
use virtual_accelerator_mana.Pipeline.Invariant.{
  IsDeep-completion, IsDeep-ready, IsDeep-validation, IsMachine, IsConsistent, Succeeds, moved,
  aside,
}
use virtual_accelerator_mana.Pipeline.Steps.{task_step, validator}
use virtual_accelerator_mana.Pipeline.Intake.{validator_step, validate_next}
use virtual_accelerator_mana.Pipeline.Worked.{Judged, judge-Judged}

module _ (p : Platform) (machine : IsMachine p) where
  pass_on :
      (a : ℕ) (s0 : Store p)
      → IsConsistent p machine (record s0 { validator = accepted a })
      → Succeeds p machine validator (record s0 { validator = accepted a })
  unfolding task_step validator_step
  pass_on a s0 v =
      let s : Store p = record s0 { validator = accepted a } in
      let (link, done, put) = enqueue_room p a s.ready_queue s.queue_overloads (
        rw v.deep.ready_depth
          (room s.objects (content p s) v.owned at_ready at_accepted a (λ e. cc) (one_here a))) in
      let t : Store p = record s { ready_queue = link; validator = idle } in
      (
        t,
        bind_some _ done,
        moved p machine {a = a} {from = at_accepted} {to = at_ready} s t v
            (record {
              held = one_here a;
              counted = λ r.
                  elim r as (Counted a at_accepted at_ready (content p s) (content p t)) [
                    | at_accepted ↦ λ b. omega arith
                    | at_ready ↦ λ b. omega (arith, put.more b)
                    | _ ↦ λ b. refl
                  ];
              others = λ b n. refl;
              fit = v.owned.fits at_accepted a (one_here a);
            })
            v.is_log refl (IsDeep-ready p machine v.deep put.same_depth),
      )

  turn_away :
      (a : ℕ) (s0 : Store p)
      → IsConsistent p machine (record s0 { validator = refused a })
      → Succeeds p machine validator (record s0 { validator = refused a })
  unfolding task_step validator_step
  turn_away a s0 v =
      let s : Store p = record s0 { validator = refused a } in
      let (link, done, put) = enqueue_room p a s.completion_queue s.queue_overloads (
        rw v.deep.completion_depth (
          room s.objects (content p s) v.owned at_completion at_refused a (λ e. cc)
            (one_here a))) in
      let t : Store p = record s { completion_queue = link; validator = idle } in
      (
        t,
        bind_some _ done,
        moved p machine {a = a} {from = at_refused} {to = at_completion} s t v
            (record {
              held = one_here a;
              counted = λ r.
                  elim r as (Counted a at_refused at_completion (content p s) (content p t)) [
                    | at_refused ↦ λ b. omega arith
                    | at_completion ↦ λ b. omega (arith, put.more b)
                    | _ ↦ λ b. refl
                  ];
              others = λ b n. refl;
              fit = v.owned.fits at_refused a (one_here a);
            })
            v.is_log refl (IsDeep-completion p machine v.deep put.same_depth),
      )

  -- The store with the first command of the validation queue judged.
  abbrev judged : ℕ → p.links.Queue → CommandObject → Bool → Log p.bus p.events → Store p → Store p
  judged a rest c ok l s = record s {
    validation_queue = record s.validation_queue { queue = rest };
    objects = update s.objects a c;
    log = l;
    validator = if ok then accepted a else refused a;
  }

  judged-IsConsistent :
      (a : ℕ) (rest : p.links.Queue) (c : CommandObject) (ok : Bool) (l : Log p.bus p.events)
      (s0 : Store p)
      → IsConsistent p machine (record s0 { validator = idle })
      → ((b : ℕ)
          → count b (p.links.contents s0.validation_queue.queue)
            ≡ one b a + count b (p.links.contents rest))
      → p.links.depth rest ≡ p.links.depth s0.validation_queue.queue
      → IsLog p.bus p.base p.events machine.ram l
      → Judged p.bus p.base p.events machine.ram p.clock (c, ok)
      → IsConsistent p machine (judged a rest c ok l (record s0 { validator = idle }))
  judged-IsConsistent a rest c true l s0 v taken same w fit =
      let s : Store p = record s0 { validator = idle } in
      let t : Store p = judged a rest c true l s in
      moved p machine {a = a} {from = at_validation} {to = at_accepted} s t v
        (record {
          held = omega (arith, taken a, one_here a);
          counted = λ r.
              elim r as (Counted a at_validation at_accepted (content p s) (content p t)) [
                | at_validation ↦ λ b. omega (arith, taken b)
                | at_accepted ↦ λ b. omega arith
                | _ ↦ λ b. refl
              ];
          others = λ b n. update_ne s.objects a b c n;
          fit = rw (update_self s.objects a c) fit;
        })
        w refl (IsDeep-validation p machine v.deep same)
  judged-IsConsistent a rest c false l s0 v taken same w fit =
      let s : Store p = record s0 { validator = idle } in
      let t : Store p = judged a rest c false l s in
      moved p machine {a = a} {from = at_validation} {to = at_refused} s t v
        (record {
          held = omega (arith, taken a, one_here a);
          counted = λ r.
              elim r as (Counted a at_validation at_refused (content p s) (content p t)) [
                | at_validation ↦ λ b. omega (arith, taken b)
                | at_refused ↦ λ b. omega arith
                | _ ↦ λ b. refl
              ];
          others = λ b n. update_ne s.objects a b c n;
          fit = rw (update_self s.objects a c) fit;
        })
        w refl (IsDeep-validation p machine v.deep same)

  validate_got :
      (s0 : Store p)
      → IsConsistent p machine (record s0 { validator = idle })
      → Got p s0.validation_queue.queue
      → (t : Store p) × (validate_next p
            (p.links.get s0.validation_queue.queue)
            (record s0 { validator = idle })
          ≡ some t)
        × IsConsistent p machine t
  validate_got s0 v (nothing e) =
      let s : Store p = record s0 { validator = idle } in (s, ap (λ o. validate_next p o s) e, v)
  validate_got s0 v (first a rest e taken same) =
      let s : Store p = record s0 { validator = idle } in
      let fit = v.owned.fits at_validation a (omega (arith, taken a, one_here a)) in
      let ((c, ok), l, done, w, good) =
        judge-Judged p.bus p.base p.events machine.ram p.clock (s.objects a) s.log v.is_log fit in
      (
        judged a rest c ok l s,
        ap (λ o. validate_next p o s) e ∙ bind_some _ done,
        judged-IsConsistent a rest c ok l s0 v taken same w good,
      )

  step_from :
      (r : Validator) (s : Store p)
      → IsConsistent p machine (record s { validator = r })
      → Succeeds p machine validator (record s { validator = r })
  unfolding task_step validator_step
  step_from idle s v =
      validate_got (task_progress p task_validator s)
        (aside p machine (record s { validator = idle }) v) (got p s.validation_queue.queue)
  step_from (accepted a) s v = pass_on a s v
  step_from (refused a) s v = turn_away a s v

  pub validator-Succeeds : (s : Store p) → IsConsistent p machine s → Succeeds p machine validator s
  validator-Succeeds s v = step_from s.validator s v
