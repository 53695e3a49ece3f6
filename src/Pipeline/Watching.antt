-- ===== src/Pipeline/Watching.antt =====
-- The recovery manager waits for the result of the command that the engine works on (main.c,
-- vams_recovery_manager).
use virtual_accelerator_mana.Base.{
  ℕ, refl, ap, ◌∙◌, inl, inr, Bool-cases, if◌then◌else◌, if_true, if_false, ltb, Option, none, some,
  update, update_self, update_ne, arith,
}
use virtual_accelerator_mana.Abi.{Completion}
use virtual_accelerator_mana.Atomic.{saturating_atomic_inc}
use virtual_accelerator_mana.Pipeline.Store.{
  Platform, Store, resting, watching, aborted, recovered, clock_read, now_of,
}
use virtual_accelerator_mana.Pipeline.Places.{
  content, at_running, at_watched, at_aborted, at_recovered,
}
use virtual_accelerator_mana.Pipeline.Ownership.{Counted, one_here}
use virtual_accelerator_mana.Pipeline.Handing.{bind_some, Got, nothing, first}
use virtual_accelerator_mana.Pipeline.Invariant.{IsDeep-running, IsMachine, IsConsistent, moved}
use virtual_accelerator_mana.Pipeline.Publishing.{Continues, clock_read-IsConsistent}
use virtual_accelerator_mana.Pipeline.Outcome.{settle_with, give_up_on, polled, watch_next}
use virtual_accelerator_mana.Pipeline.Worked.{ticked}
use virtual_accelerator_mana.Pipeline.Ended.{request_abort-IsAborting, settle-IsSettled}

module _ (p : Platform) (machine : IsMachine p) where
  -- A result ends the command that the engine works on, or that is being aborted.
  settle_watched :
      (result : Completion) (now a : ℕ) (s0 : Store p)
      → IsConsistent p machine (record s0 { recovery = watching now a })
      → Continues p machine (settle_with p result a (record s0 { recovery = watching now a }))
  unfolding settle_with
  settle_watched result now a s0 v =
      let s : Store p = record s0 { recovery = watching now a } in
      let ((e, n, z), same) = v.owned.fits at_watched a (one_here a) in
      let ((c, foreign), l, done, w, ended) =
        settle-IsSettled p.bus p.base p.events machine.ram p.clock result (s.objects a) s.log
          v.is_log (inl e) n z same in
      let t : Store p = record s {
        objects = update s.objects a c;
        log = l;
        recovery_escalations =
            if foreign
            then saturating_atomic_inc s.recovery_escalations
            else s.recovery_escalations;
        recovery = recovered a;
      } in
      (
        t,
        bind_some _ done,
        moved p machine {a = a} {from = at_watched} {to = at_recovered} s t v
            (record {
              held = one_here a;
              counted = λ r.
                  elim r as (Counted a at_watched at_recovered (content p s) (content p t)) [
                    | at_watched ↦ λ b. omega arith
                    | at_recovered ↦ λ b. omega arith
                    | _ ↦ λ b. refl
                  ];
              others = λ b n. update_ne s.objects a b c n;
              fit = rw (update_self s.objects a c) ended;
            })
            w refl v.deep,
      )

  give_up-Continues :
      (now a : ℕ) (s0 : Store p)
      → IsConsistent p machine (record s0 { recovery = watching now a })
      → Continues p machine (give_up_on p a (record s0 { recovery = watching now a }))
  unfolding give_up_on
  give_up-Continues now a s0 v =
      let s : Store p = record s0 { recovery = watching now a } in
      let attempts = saturating_atomic_inc s.recovery_attempts in
      let fit = v.owned.fits at_watched a (one_here a) in
      let (c, l, done, w, aborts) =
        request_abort-IsAborting p.bus p.base p.events machine.ram p.clock attempts (s.objects a)
          s.log v.is_log fit.0 fit.1 in
      let t : Store p = record s {
        objects = update s.objects a c;
        log = l;
        recovery_attempts = attempts;
        recovery = aborted a;
      } in
      (
        t,
        bind_some _ done,
        moved p machine {a = a} {from = at_watched} {to = at_aborted} s t v
            (record {
              held = one_here a;
              counted = λ r.
                  elim r as (Counted a at_watched at_aborted (content p s) (content p t)) [
                    | at_watched ↦ λ b. omega arith
                    | at_aborted ↦ λ b. omega arith
                    | _ ↦ λ b. refl
                  ];
              others = λ b n. update_ne s.objects a b c n;
              fit = rw (update_self s.objects a c) aborts;
            })
            w refl v.deep,
      )

  pub polled-Continues :
      (o : Option Completion) (now a : ℕ) (s0 : Store p)
      → IsConsistent p machine (record s0 { recovery = watching now a })
      → Continues p machine (polled p o a (record s0 { recovery = watching now a }))
  polled-Continues (some result) now a s0 v =
      settle_watched result now a (clock_read p s0) (clock_read-IsConsistent p machine _ v)
  polled-Continues none now a s0 v =
      let s : Store p = record s0 { recovery = watching now a } in
      let w = clock_read-IsConsistent p machine s v in
      elim (Bool-cases (ltb (now_of p s) ((s.objects a).deadline_ms))) [
        | inl early ↦ (
          record (clock_read p s) { recovery = watching (now_of p s) a },
          if_true _ _ _ early,
          record {
            owned = w.owned;
            is_log = w.is_log;
            generation_fits = w.generation_fits;
            deep = w.deep;
          },
        )
        | inr late ↦
            let (t, done, u) = give_up-Continues now a (clock_read p s0) w in
            (t, if_false _ _ _ late ∙ done, u)
      ]

  pub watch_got :
      (s0 : Store p)
      → IsConsistent p machine (record s0 { recovery = resting })
      → Got p s0.running_queue.queue
      → Continues p machine
          (watch_next p (p.links.get s0.running_queue.queue) (record s0 { recovery = resting }))
  watch_got s0 v (nothing e) =
      let s : Store p = record s0 { recovery = resting } in (s, ap (λ o. watch_next p o s) e, v)
  watch_got s0 v (first a rest e taken same) =
      let s : Store p = record s0 { recovery = resting } in
      let t : Store p = record (clock_read p s) {
        running_queue = record s.running_queue { queue = rest };
        recovery = watching (now_of p s) a;
      } in
      (
        t,
        ap (λ o. watch_next p o s) e,
        moved p machine {a = a} {from = at_running} {to = at_watched} s t v
            (record {
              held = omega (arith, taken a, one_here a);
              counted = λ r.
                  elim r as (Counted a at_running at_watched (content p s) (content p t)) [
                    | at_running ↦ λ b. omega (arith, taken b)
                    | at_watched ↦ λ b. omega arith
                    | _ ↦ λ b. refl
                  ];
              others = λ b n. refl;
              fit = v.owned.fits at_running a (omega (arith, taken a, one_here a));
            })
            (ticked p.bus p.base p.events machine.ram p.clock s.log v.is_log) refl
            (IsDeep-running p machine v.deep same),
      )
