-- ===== src/Pipeline/Admitting.antt =====
-- The receiver allocates a block, and hands on what it has captured (main.c,
-- vams_command_receiver).
use virtual_accelerator_mana.Base.{
  ℕ, ◌+◌, ◌<◌, ◌≡◌, refl, ap, subst, ◌∙◌, inl, inr, Bool, true, Bool-cases, if◌then◌else◌, if_true,
  if_false, some, length, update, update_self, update_ne, u32, arith,
}
use virtual_accelerator_mana.Atomic.{record_high_water, saturating_atomic_inc}
use virtual_accelerator_mana.Overload.{command_admission_allowed}
use virtual_accelerator_mana.Portal.{pending}
use virtual_accelerator_mana.Pipeline.Store.{
  Platform, Store, task_progress, task_receiver, seeking, admitted, captured, zeroed,
}
use virtual_accelerator_mana.Pipeline.Places.{
  content, at_pool, at_admitted, at_captured, at_validation,
}
use virtual_accelerator_mana.Pipeline.Ownership.{Counted, one_here, room}
use virtual_accelerator_mana.Pipeline.Handing.{enqueue_room}
use virtual_accelerator_mana.Pipeline.Invariant.{
  IsDeep-validation, IsMachine, IsConsistent, Succeeds, moved, aside,
}
use virtual_accelerator_mana.Pipeline.Steps.{task_step, receiver}
use virtual_accelerator_mana.Pipeline.Intake.{receiver_step, seek, allocated}

module _ (p : Platform) (machine : IsMachine p) where
  pub submit :
      (a : ℕ) (s : Store p)
      → IsConsistent p machine (record s { receiver = captured a })
      → Succeeds p machine receiver (record s { receiver = captured a })
  unfolding task_step receiver_step
  submit a s0 v =
      let s : Store p = record s0 { receiver = captured a } in
      let (link, done, put) = enqueue_room p a s.validation_queue s.queue_overloads (
        rw v.deep.validation_depth (
          room s.objects (content p s) v.owned at_validation at_captured a (λ e. cc)
            (one_here a))) in
      let t : Store p = record s { validation_queue = link; receiver = seeking } in
      (
        t,
        rw done refl,
        moved p machine {a = a} {from = at_captured} {to = at_validation} s t v
            (record {
              held = one_here a;
              counted = λ r.
                  elim r as (Counted a at_captured at_validation (content p s) (content p t)) [
                    | at_captured ↦ λ b. omega arith
                    | at_validation ↦ λ b. omega (arith, put.more b)
                    | _ ↦ λ b. refl
                  ];
              others = λ b n. refl;
              fit = v.owned.fits at_captured a (one_here a);
            })
            v.is_log refl (IsDeep-validation p machine v.deep put.same_depth),
      )

  allocate-IsConsistent :
      (s0 : Store p)
      → IsConsistent p machine (record s0 { receiver = seeking })
      → 0 < length (p.slab.free_blocks s0.pool)
      → (t : Store p) × (allocated p (p.slab.alloc s0.pool) (record s0 { receiver = seeking })
          ≡ some t)
        × IsConsistent p machine t
  allocate-IsConsistent s0 v some_free =
      let s : Store p = record s0 { receiver = seeking } in
      let (a, pool', done, taken) = p.slab.alloc_some s.pool some_free in
      let t : Store p = record s {
        pool = pool';
        objects = update s.objects a zeroed;
        objects_in_use = u32 (s.objects_in_use + 1);
        pool_high_water = record_high_water s.pool_high_water (u32 (s.objects_in_use + 1));
        receiver = admitted a;
      } in
      (
        t,
        ap (λ r. allocated p r s) done,
        moved p machine {a = a} {from = at_pool} {to = at_admitted} s t v
            (record {
              held = omega (arith, taken a, one_here a);
              counted = λ r. elim r as (Counted a at_pool at_admitted (content p s) (content p t)) [
                | at_pool ↦ λ b. omega (arith, taken b)
                | at_admitted ↦ λ b. omega arith
                | _ ↦ λ b. refl
              ];
              others = λ b n. update_ne s.objects a b zeroed n;
              fit = rw (update_self s.objects a zeroed) refl;
            })
            v.is_log refl v.deep,
      )

  admits : (ready : Bool) (free : ℕ) → command_admission_allowed ready free ≡ true → 0 < free
  unfolding command_admission_allowed
  admits ready free e = ground arith

  pub seek-IsConsistent :
      (s0 : Store p)
      → IsConsistent p machine (record s0 { receiver = seeking })
      → Succeeds p machine receiver (record s0 { receiver = seeking })
  unfolding task_step receiver_step seek
  seek-IsConsistent s0 v =
      let s : Store p = task_progress p task_receiver (record s0 { receiver = seeking }) in
      let (d1, ready) = pending p.portal_bus p.portal_base s.portal in
      let (d2, again) = pending p.portal_bus p.portal_base d1 in
      elim (Bool-cases (command_admission_allowed ready (p.slab.num_free s.pool))) [
        | inl yes' ↦
            let (t, done, w) =
              allocate-IsConsistent (record s { portal = d1 })
                (aside p machine (record s0 { receiver = seeking }) v)
                (subst (λ n. 0 < n) (p.slab.num_free_lem s.pool) (admits ready _ yes')) in
            (t, if_true _ _ _ yes' ∙ done, w)
        | inr no' ↦ (
          record s {
            portal = d2;
            admission_defers =
                if again then saturating_atomic_inc s.admission_defers else s.admission_defers;
          },
          if_false _ _ _ no',
          aside p machine (record s0 { receiver = seeking }) v,
        )
      ]
