-- ===== src/Pipeline/Completing.antt =====
-- The steps of the completion task (main.c, vams_command_completion).
use virtual_accelerator_mana.Base.{ℕ, refl, ap, update, update_ne, arith}
use virtual_accelerator_mana.Portal.{complete}
use virtual_accelerator_mana.Pipeline.Store.{
  Platform, Store, Publisher, task_progress, task_completion, waiting, publishing, stopped,
  clock_read, give_back, zeroed,
}
use virtual_accelerator_mana.Pipeline.Places.{content, at_completion, at_publisher, at_pool}
use virtual_accelerator_mana.Pipeline.Ownership.{Counted, one_here, absent}
use virtual_accelerator_mana.Pipeline.Handing.{bind_some, Got, nothing, first, got}
use virtual_accelerator_mana.Pipeline.Invariant.{
  IsDeep-completion, IsMachine, IsConsistent, Succeeds, moved, aside,
}
use virtual_accelerator_mana.Pipeline.Publishing.{
  Continues, clock_read-IsConsistent, reset-IsConsistent, published-Continues, completes,
}
use virtual_accelerator_mana.Pipeline.Steps.{task_step, completion}
use virtual_accelerator_mana.Pipeline.Dispatch.{publish_deadline}
use virtual_accelerator_mana.Pipeline.Outcome.{completion_step, retire_block, publish_next}
use virtual_accelerator_mana.Pipeline.Worked.{ticked}
use virtual_accelerator_mana.Pipeline.Ended.{retire-IsFree}

module _ (p : Platform) (machine : IsMachine p) where
  retire-Continues :
      (deadline a : ℕ) (s0 : Store p)
      → IsConsistent p machine (record s0 { publisher = publishing deadline a })
      → Continues p machine (retire_block p a (record s0 { publisher = publishing deadline a }))
  unfolding retire_block
  retire-Continues deadline a s0 v =
      let s : Store p = record s0 { publisher = publishing deadline a } in
      let (c, l, done, w, freed) =
        retire-IsFree p.bus p.base p.events machine.ram p.clock (s.objects a) s.log v.is_log
          (v.owned.fits at_publisher a (one_here a)) in
      let not_free =
        absent s.objects (content p s) v.owned at_pool at_publisher a (λ e. cc) (one_here a) in
      let t : Store p = record (give_back p a s) {
        objects = update s.objects a zeroed;
        log = l;
        publisher = waiting;
      } in
      (
        t,
        bind_some _ done,
        moved p machine {a = a} {from = at_publisher} {to = at_pool} s t v
            (record {
              held = one_here a;
              counted = λ r.
                  elim r as (Counted a at_publisher at_pool (content p s) (content p t)) [
                    | at_pool ↦ λ b. omega (arith, p.slab.release_lem a s.pool not_free b)
                    | at_publisher ↦ λ b. omega arith
                    | _ ↦ λ b. refl
                  ];
              others = λ b n. update_ne s.objects a b zeroed n;
              fit = tt;
            })
            w refl v.deep,
      )

  publish_got :
      (s0 : Store p)
      → IsConsistent p machine (record s0 { publisher = waiting })
      → Got p s0.completion_queue.queue
      → Continues p machine (
          publish_next p
            (p.links.get s0.completion_queue.queue)
            (record s0 { publisher = waiting }))
  publish_got s0 v (nothing e) =
      let s : Store p = record s0 { publisher = waiting } in (s, ap (λ o. publish_next p o s) e, v)
  publish_got s0 v (first a rest e taken same) =
      let s : Store p = record s0 { publisher = waiting } in
      let t : Store p = record (clock_read p s) {
        completion_queue = record s.completion_queue { queue = rest };
        publisher = publishing (publish_deadline p s) a;
      } in
      (
        t,
        ap (λ o. publish_next p o s) e,
        moved p machine {a = a} {from = at_completion} {to = at_publisher} s t v
            (record {
              held = omega (arith, taken a, one_here a);
              counted = λ r.
                  elim r as (Counted a at_completion at_publisher (content p s) (content p t)) [
                    | at_completion ↦ λ b. omega (arith, taken b)
                    | at_publisher ↦ λ b. omega arith
                    | _ ↦ λ b. refl
                  ];
              others = λ b n. refl;
              fit = v.owned.fits at_completion a (omega (arith, taken a, one_here a));
            })
            (ticked p.bus p.base p.events machine.ram p.clock s.log v.is_log) refl
            (IsDeep-completion p machine v.deep same),
      )

  publish-Succeeds :
      (deadline a : ℕ) (s0 : Store p)
      → IsConsistent p machine (record s0 { publisher = publishing deadline a })
      → Succeeds p machine completion (record s0 { publisher = publishing deadline a })
  unfolding task_step completion_step
  publish-Succeeds deadline a s0 v =
      let s : Store p = record s0 { publisher = publishing deadline a } in
      let c = (s.objects a).completion in
      let d = (complete p.portal_bus p.portal_base c s.portal).0 in
      let s1 : Store p = record s { portal = d } in
      let v1 = aside p machine s v in
      let held =
        reset-IsConsistent p machine (clock_read p s1) (clock_read-IsConsistent p machine s1 v1) in
      published-Continues p machine _ deadline (retire_block p a)
        (λ t. record t { publisher = stopped a }) s1 (completes p machine c s) v1
        (retire-Continues deadline a s1 v1)
        (record {
          owned = held.owned;
          is_log = held.is_log;
          generation_fits = held.generation_fits;
          deep = held.deep;
        })

  step_from :
      (r : Publisher) (s : Store p)
      → IsConsistent p machine (record s { publisher = r })
      → Succeeds p machine completion (record s { publisher = r })
  unfolding task_step completion_step
  step_from waiting s v =
      publish_got (task_progress p task_completion s)
        (aside p machine (record s { publisher = waiting }) v) (got p s.completion_queue.queue)
  step_from (publishing deadline a) s v = publish-Succeeds deadline a s v
  step_from (stopped a) s v = (record s { publisher = stopped a }, refl, v)

  pub completion-Succeeds :
      (s : Store p) → IsConsistent p machine s → Succeeds p machine completion s
  completion-Succeeds s v = step_from s.publisher s v
