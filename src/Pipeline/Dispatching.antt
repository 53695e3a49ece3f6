-- ===== src/Pipeline/Dispatching.antt =====
-- The steps of the scheduler (main.c, vams_command_scheduler).
use virtual_accelerator_mana.Base.{
  ℕ, ◌≤◌, ◌<◌, ◌≡◌, refl, ◌∙◌, ◌⊎◌, inl, inr, false, Bool-cases, if_true, if_false, ltb, List,
  length, none, some, arith,
}
use virtual_accelerator_mana.Pipeline.Store.{
  Platform, Store, Dispatcher, task_progress, task_scheduler, choosing, authorizing, authorized,
  decided, stalled, command_pool_size, clock_read,
}
use virtual_accelerator_mana.Pipeline.Places.{
  content, at_engine, at_decided, at_running, at_completion,
}
use virtual_accelerator_mana.Pipeline.Ownership.{Counted, one_here, room}
use virtual_accelerator_mana.Pipeline.Handing.{
  enqueue_room, enqueue_full, bind_some, bind_none, got,
}
use virtual_accelerator_mana.Pipeline.Invariant.{
  IsDeep-completion, IsDeep-running, IsMachine, IsConsistent, Succeeds, moved, aside,
}
use virtual_accelerator_mana.Pipeline.Steps.{task_step, scheduler}
use virtual_accelerator_mana.Pipeline.Dispatch.{scheduler_step, choose}
use virtual_accelerator_mana.Portal.{complete}
use virtual_accelerator_mana.Pipeline.Publishing.{
  published-Continues, reset-IsConsistent, clock_read-IsConsistent, completes,
}
use virtual_accelerator_mana.Pipeline.Sending.{dispatch_next-IsConsistent, collect-Continues}

module _ (p : Platform) (machine : IsMachine p) where
  full_array : (xs : List ℕ) → ltb (length xs) command_pool_size ≡ false → 0 < length xs
  full_array xs e = ground arith

  choose-Succeeds :
      (s0 : Store p)
      → IsConsistent p machine (record s0 { dispatcher = choosing })
      → Succeeds p machine scheduler (record s0 { dispatcher = choosing })
  unfolding task_step scheduler_step choose
  choose-Succeeds s0 v =
      let s : Store p = record s0 { dispatcher = choosing } in
      elim (Bool-cases (ltb (length s0.ready) command_pool_size)) [
        | inl room' ↦
            let (t, done, w) =
              collect-Continues p machine s0 v (got p s0.ready_queue.queue) s0.ready refl in
            (t, if_true _ _ _ room' ∙ done, w)
        | inr full ↦
            let (t, done, w) =
              dispatch_next-IsConsistent p machine (task_progress p task_scheduler s)
                (aside p machine s v) (full_array s0.ready full) in
            (t, if_false _ _ _ full ∙ done, w)
      ]

  authorize-Succeeds :
      (deadline a : ℕ) (s0 : Store p)
      → IsConsistent p machine (record s0 { dispatcher = authorizing deadline a })
      → Succeeds p machine scheduler (record s0 { dispatcher = authorizing deadline a })
  unfolding task_step scheduler_step
  authorize-Succeeds deadline a s0 v =
      let s : Store p = record s0 { dispatcher = authorizing deadline a } in
      let c = (s.objects a).completion in
      let d = (complete p.portal_bus p.portal_base c s.portal).0 in
      let s1 : Store p = record s { portal = d } in
      let v1 = aside p machine s v in
      let t : Store p = record s1 { dispatcher = authorized a } in
      let held =
        reset-IsConsistent p machine (clock_read p s1) (clock_read-IsConsistent p machine s1 v1) in
      published-Continues p machine _ deadline (λ t. some (record t { dispatcher = authorized a }))
        (λ t. record t { dispatcher = stalled a }) s1 (completes p machine c s) v1
        (
          t,
          refl,
          record {
            owned = v1.owned;
            is_log = v1.is_log;
            generation_fits = v1.generation_fits;
            deep = v1.deep;
          },
        )
        (record {
          owned = held.owned;
          is_log = held.is_log;
          generation_fits = held.generation_fits;
          deep = held.deep;
        })

  decided-Succeeds :
      (a : ℕ) (s0 : Store p)
      → IsConsistent p machine (record s0 { dispatcher = decided a })
      → Succeeds p machine scheduler (record s0 { dispatcher = decided a })
  unfolding task_step scheduler_step
  decided-Succeeds a s0 v =
      let s : Store p = record s0 { dispatcher = decided a } in
      let (link, done, put) = enqueue_room p a s.completion_queue s.queue_overloads (
        rw v.deep.completion_depth (
          room s.objects (content p s) v.owned at_completion at_decided a (λ e. cc)
            (one_here a))) in
      let t : Store p = record s { completion_queue = link; dispatcher = choosing } in
      (
        t,
        bind_some _ done,
        moved p machine {a = a} {from = at_decided} {to = at_completion} s t v
            (record {
              held = one_here a;
              counted = λ r.
                  elim r as (Counted a at_decided at_completion (content p s) (content p t)) [
                    | at_decided ↦ λ b. omega arith
                    | at_completion ↦ λ b. omega (arith, put.more b)
                    | _ ↦ λ b. refl
                  ];
              others = λ b n. refl;
              fit = v.owned.fits at_decided a (one_here a);
            })
            v.is_log refl (IsDeep-completion p machine v.deep put.same_depth),
      )

  -- The one assertion that can fail: a payload command meets a running queue that is full.
  pub record IsFull (s : Store p) : Type 0 where
    pub block : ℕ
    pub at_hand : s.dispatcher ≡ authorized block
    pub occupied : length (p.links.contents s.running_queue.queue) ≡ 1

  full_or_room : (n depth : ℕ) → n ≤ depth → depth ≡ 1 → (n < depth) ⊎ (n ≡ 1)
  full_or_room n depth h e = omega arith

  authorized-Succeeds :
      (a : ℕ) (s0 : Store p)
      → IsConsistent p machine (record s0 { dispatcher = authorized a })
      → let s : Store p = record s0 { dispatcher = authorized a } in
        Succeeds p machine scheduler s ⊎ IsFull s × (task_step p scheduler s ≡ none)
  unfolding task_step scheduler_step
  authorized-Succeeds a s0 v =
      let s : Store p = record s0 { dispatcher = authorized a } in
      elim (full_or_room _ _ (p.links.bounded s.running_queue.queue) v.deep.running_depth) [
        | inl free ↦
            let (link, done, put) = enqueue_room p a s.running_queue s.queue_overloads free in
            let t : Store p = record s { running_queue = link; dispatcher = choosing } in
            inl (
              t,
              bind_some _ done,
              moved p machine {a = a} {from = at_engine} {to = at_running} s t v
                  (record {
                    held = one_here a;
                    counted = λ r.
                        elim r as (Counted a at_engine at_running (content p s) (content p t)) [
                          | at_engine ↦ λ b. omega arith
                          | at_running ↦ λ b. omega (arith, put.more b)
                          | _ ↦ λ b. refl
                        ];
                    others = λ b n. refl;
                    fit = v.owned.fits at_engine a (one_here a);
                  })
                  v.is_log refl (IsDeep-running p machine v.deep put.same_depth),
            )
        | inr one' ↦ inr (
          record { block = a; at_hand = refl; occupied = one' },
          bind_none _ (
              enqueue_full p a s.running_queue s.queue_overloads
                (omega (arith, one', v.deep.running_depth))),
        )
      ]

  step_from :
      (r : Dispatcher) (s0 : Store p)
      → IsConsistent p machine (record s0 { dispatcher = r })
      → let s : Store p = record s0 { dispatcher = r } in
        Succeeds p machine scheduler s ⊎ IsFull s × (task_step p scheduler s ≡ none)
  unfolding task_step scheduler_step
  step_from choosing s0 v = inl (choose-Succeeds s0 v)
  step_from (authorizing deadline a) s0 v = inl (authorize-Succeeds deadline a s0 v)
  step_from (authorized a) s0 v = authorized-Succeeds a s0 v
  step_from (decided a) s0 v = inl (decided-Succeeds a s0 v)
  step_from (stalled a) s0 v = inl (record s0 { dispatcher = stalled a }, refl, v)

  pub scheduler-Succeeds :
      (s : Store p)
      → IsConsistent p machine s
      → Succeeds p machine scheduler s ⊎ IsFull s × (task_step p scheduler s ≡ none)
  scheduler-Succeeds s v = step_from s.dispatcher s v
