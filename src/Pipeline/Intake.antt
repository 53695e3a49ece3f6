-- ===== src/Pipeline/Intake.antt =====
-- The bodies of the receiver and of the validator (main.c, vams_command_receiver and
-- vams_command_validator), cut into steps. `none` is a failed assertion.
use virtual_accelerator_mana.Base.{ℕ, ◌+◌, if◌then◌else◌, Option, none, some, u32, update}
use virtual_accelerator_mana.Abi.{Submission}
use virtual_accelerator_mana.Overload.{command_admission_allowed}
use virtual_accelerator_mana.Atomic.{saturating_atomic_inc, record_high_water}
use virtual_accelerator_mana.Portal.{pending, receive}
use virtual_accelerator_mana.Log.{◌>>=◌}
use virtual_accelerator_mana.Pipeline.Store.{
  Platform, Store, give_back, task_receiver, task_validator, zeroed, enqueue, task_progress,
  seeking, admitted, captured, idle, accepted, refused,
}
use virtual_accelerator_mana.Pipeline.Work.{take_in, judge}

module _ (p : Platform) where
  open p use {bus, base, events, clock, portal_bus, portal_base, sleep, polls, links, slab}

  -- The allocation has been tried.
  abbrev pub allocated : Option (ℕ × slab.Pool) → Store p → Option (Store p)
  allocated none s = some (record s { admission_defers = saturating_atomic_inc s.admission_defers })
  allocated (some (a, pool')) s = some (record s {
    pool = pool';
    objects = update s.objects a zeroed;
    objects_in_use = u32 (s.objects_in_use + 1);
    pool_high_water = record_high_water s.pool_high_water (u32 (s.objects_in_use + 1));
    receiver = admitted a;
  })

  -- The head of the receiver's loop.
  unfoldable pub seek : Store p → Option (Store p)
  seek s0 =
      let s = task_progress p task_receiver s0 in
      let (d1, ready) = pending portal_bus portal_base s.portal in
      let (d2, again) = pending portal_bus portal_base d1 in
      if command_admission_allowed ready (slab.num_free s.pool)
      then allocated (slab.alloc s.pool) (record s { portal = d1 })
      else some (record s {
        portal = d2;
        admission_defers =
            if again then saturating_atomic_inc s.admission_defers else s.admission_defers;
      })

  -- The portal has been asked for a descriptor.
  abbrev pub received : ℕ → Option Submission → Store p → Option (Store p)
  received a none s = some (record (give_back p a s) { receiver = seeking })
  received a (some submission) s = do
    let sequence' = u32 (s.sequence + 1)
    (c, l) ←
        take_in bus base events clock s.generation sequence'
          (record (s.objects a) { submission = submission }) s.log
    some (record s {
      sequence = sequence';
      objects = update s.objects a c;
      log = l;
      receiver = captured a;
    })

  unfoldable pub receiver_step : Store p → Option (Store p)
  receiver_step s = elim s.receiver [
    | seeking ↦ seek s
    | admitted a ↦
        let (d, descriptor) = receive portal_bus portal_base sleep 0 s.portal in
        received a descriptor (record s { portal = d })
    | captured a ↦ (do
      link ← enqueue p a s.validation_queue s.queue_overloads
      some (record s { validation_queue = link; receiver = seeking }))
  ]

  -- The validation queue has been asked for a command.
  abbrev pub validate_next : Option (ℕ × links.Queue) → Store p → Option (Store p)
  validate_next none s = some s
  validate_next (some (a, rest)) s = do
    ((c, ok), l) ← judge bus base events clock (s.objects a) s.log
    some (record s {
      validation_queue = record s.validation_queue { queue = rest };
      objects = update s.objects a c;
      log = l;
      validator = if ok then accepted a else refused a;
    })

  unfoldable pub validator_step : Store p → Option (Store p)
  validator_step s = elim s.validator [
    | idle ↦ validate_next (links.get s.validation_queue.queue) (task_progress p task_validator s)
    | accepted a ↦ (do
      link ← enqueue p a s.ready_queue s.queue_overloads
      some (record s { ready_queue = link; validator = idle }))
    | refused a ↦ (do
      link ← enqueue p a s.completion_queue s.queue_overloads
      some (record s { completion_queue = link; validator = idle }))
  ]
