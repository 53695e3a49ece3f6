-- ===== src/Pipeline/Sending.antt =====
-- The scheduler fills its array, selects and dispatches (main.c, vams_command_scheduler).
use virtual_accelerator_mana.Base.{
  ℕ, zero, suc, ◌<◌, ◌≡◌, refl, ap, ◌∙◌, Bool, true, false, if◌then◌else◌, List, [], ◌∷◌, ◌++◌, map,
  length, get_elem?, get_elem?-in_range, some, count, count-append, update, update_self, update_ne,
  arith,
}
use virtual_accelerator_mana.Scheduler.{CommandObject}
use virtual_accelerator_mana.Log.{Log}
use virtual_accelerator_mana.Log.Invariant.{IsLog}
use virtual_accelerator_mana.Tasks.Select.{scheduler_select-IsFirstLeast}
use virtual_accelerator_mana.Pipeline.Store.{
  Platform, Store, task_progress, task_scheduler, choosing, authorizing, decided, clock_read,
}
use virtual_accelerator_mana.Pipeline.Places.{content, at_ready, at_array, at_engine, at_decided}
use virtual_accelerator_mana.Pipeline.Ownership.{Counted, one_here}
use virtual_accelerator_mana.Pipeline.Handing.{bind_some, Got, nothing, first}
use virtual_accelerator_mana.Pipeline.Removal.{remove_swap_lem}
use virtual_accelerator_mana.Pipeline.Invariant.{
  IsDeep-ready, IsMachine, IsConsistent, moved, aside,
}
use virtual_accelerator_mana.Pipeline.Dispatch.{
  collect, dispatch_next, dispatch_at, publish_deadline, remove_swap,
}
use virtual_accelerator_mana.Pipeline.Publishing.{Continues}
use virtual_accelerator_mana.Pipeline.Worked.{Dispatched, dispatch-Dispatched, ticked}

length-map : (objects : ℕ → CommandObject) (xs : List ℕ) → length (map objects xs) ≡ length xs
length-map objects [] = refl
length-map objects (x ∷ xs) = ap suc (length-map objects xs)

count-get_elem? : (xs : List ℕ) (i a : ℕ) → get_elem? xs i ≡ some a → 0 < count a xs
count-get_elem? [] i a e = cc
count-get_elem? (x ∷ xs) zero a e = ground (arith, e)
count-get_elem? (x ∷ xs) (suc i) a e = omega (arith, count-get_elem? xs i a e)

module _ (p : Platform) (machine : IsMachine p) where
  -- The store with the command at `i` of the array dispatched.
  abbrev sent : ℕ → ℕ → CommandObject → Bool → Log p.bus p.events → Store p → Store p
  sent a i c payload l s =
      let s1 = record s {
        ready = remove_swap s.ready i;
        objects = update s.objects a c;
        log = l;
      } in
      if payload
      then record (clock_read p s1) { dispatcher = authorizing (publish_deadline p s1) a }
      else record s1 { dispatcher = decided a }

  sent-IsConsistent :
      (a i : ℕ) (c : CommandObject) (payload : Bool) (l : Log p.bus p.events) (s0 : Store p)
      → IsConsistent p machine (record s0 { dispatcher = choosing })
      → 0 < length s0.ready
      → get_elem? s0.ready i ≡ some a
      → IsLog p.bus p.base p.events machine.ram l
      → Dispatched p.bus p.base p.events machine.ram p.clock (c, payload)
      → IsConsistent p machine (sent a i c payload l (record s0 { dispatcher = choosing }))
  sent-IsConsistent a i c true l s0 v pos at w fit =
      let s : Store p = record s0 { dispatcher = choosing } in
      let t : Store p = sent a i c true l s in
      moved p machine {a = a} {from = at_array} {to = at_engine} s t v
        (record {
          held = count-get_elem? s0.ready i a at;
          counted = λ r. elim r as (Counted a at_array at_engine (content p s) (content p t)) [
            | at_array ↦ λ b. omega (arith, remove_swap_lem b a i s0.ready pos at)
            | at_engine ↦ λ b. omega arith
            | _ ↦ λ b. refl
          ];
          others = λ b n. update_ne s.objects a b c n;
          fit = rw (update_self s.objects a c) fit;
        })
        (ticked p.bus p.base p.events machine.ram p.clock l w) refl v.deep
  sent-IsConsistent a i c false l s0 v pos at w fit =
      let s : Store p = record s0 { dispatcher = choosing } in
      let t : Store p = sent a i c false l s in
      moved p machine {a = a} {from = at_array} {to = at_decided} s t v
        (record {
          held = count-get_elem? s0.ready i a at;
          counted = λ r. elim r as (Counted a at_array at_decided (content p s) (content p t)) [
            | at_array ↦ λ b. omega (arith, remove_swap_lem b a i s0.ready pos at)
            | at_decided ↦ λ b. omega arith
            | _ ↦ λ b. refl
          ];
          others = λ b n. update_ne s.objects a b c n;
          fit = rw (update_self s.objects a c) fit;
        })
        w refl v.deep

  dispatch_at-IsConsistent :
      (a i : ℕ) (s0 : Store p)
      → IsConsistent p machine (record s0 { dispatcher = choosing })
      → 0 < length s0.ready
      → get_elem? s0.ready i ≡ some a
      → Continues p machine (dispatch_at p i (record s0 { dispatcher = choosing }))
  unfolding dispatch_at
  dispatch_at-IsConsistent a i s0 v pos at =
      let s : Store p = record s0 { dispatcher = choosing } in
      let fit = v.owned.fits at_array a (count-get_elem? s0.ready i a at) in
      let ((c, payload), l, done, w, good) =
        dispatch-Dispatched p.bus p.base p.events machine.ram p.clock s.generation (s.objects a)
          s.log v.is_log fit.0 fit.1 in
      (
        sent a i c payload l s,
        bind_some _ at ∙ bind_some _ done,
        sent-IsConsistent a i c payload l s0 v pos at w good,
      )

  pub dispatch_next-IsConsistent :
      (s0 : Store p)
      → IsConsistent p machine (record s0 { dispatcher = choosing })
      → 0 < length s0.ready
      → Continues p machine (dispatch_next p (record s0 { dispatcher = choosing }))
  unfolding dispatch_next
  dispatch_next-IsConsistent s0 v pos =
      let n = length-map s0.objects s0.ready in
      let (i, selected, best) =
        scheduler_select-IsFirstLeast (map s0.objects s0.ready) (length s0.ready) pos
          (omega (arith, n)) in
      let (a, at) = get_elem?-in_range s0.ready i best.in_range in
      let (t, done, w) = dispatch_at-IsConsistent a i s0 v pos at in
      (t, bind_some _ selected ∙ done, w)

  pub collect-Continues :
      (s0 : Store p)
      → IsConsistent p machine (record s0 { dispatcher = choosing })
      → Got p s0.ready_queue.queue
      → (ready : List ℕ) → ready ≡ s0.ready
      → Continues p machine
          (collect p (p.links.get s0.ready_queue.queue) ready (record s0 { dispatcher = choosing }))
  collect-Continues s0 v (nothing e) [] eq =
      let s : Store p = record s0 { dispatcher = choosing } in
      (task_progress p task_scheduler s, ap (λ o. collect p o [] s) e, aside p machine s v)
  collect-Continues s0 v (nothing e) (a ∷ ready) eq =
      let s : Store p = record s0 { dispatcher = choosing } in
      let pos : 0 < length s0.ready = rw (← eq) (omega arith) in
      let (t, done, w) =
        dispatch_next-IsConsistent (task_progress p task_scheduler s) (aside p machine s v) pos in
      (t, ap (λ o. collect p o (a ∷ ready) s) e ∙ done, w)
  collect-Continues s0 v (first a rest e taken same) ready eq =
      let s : Store p = record s0 { dispatcher = choosing } in
      let t : Store p = record s {
        ready_queue = record s.ready_queue { queue = rest };
        ready = ready ++ a ∷ [];
      } in
      (
        t,
        ap (λ o. collect p o ready s) e,
        moved p machine {a = a} {from = at_ready} {to = at_array} s t v
            (record {
              held = omega (arith, taken a, one_here a);
              counted = λ r. elim r as (Counted a at_ready at_array (content p s) (content p t)) [
                | at_ready ↦ λ b. omega (arith, taken b)
                | at_array ↦ λ b. rw (← eq) (omega (arith, count-append b ready (a ∷ [])))
                | _ ↦ λ b. refl
              ];
              others = λ b n. refl;
              fit = v.owned.fits at_ready a (omega (arith, taken a, one_here a));
            })
            v.is_log refl (IsDeep-ready p machine v.deep same),
      )
