-- ===== src/Pipeline/Steps.antt =====
-- The tasks interleaved: at each turn one of the five command tasks takes a step, or the host acts
-- on the portal.
use virtual_accelerator_mana.Base.{Option, some, ◌≡◌}
use virtual_accelerator_mana.Pipeline.Store.{Platform, Store}
use virtual_accelerator_mana.Pipeline.Intake.{receiver_step, validator_step}
use virtual_accelerator_mana.Pipeline.Dispatch.{scheduler_step}
use virtual_accelerator_mana.Pipeline.Outcome.{recovery_step, completion_step}

pub data Task : Type 0 where
  receiver validator scheduler recovery completion : Task

module _ (p : Platform) where
  unfoldable pub task_step : Task → Store p → Option (Store p)
  task_step receiver s = receiver_step p s
  task_step validator s = validator_step p s
  task_step scheduler s = scheduler_step p s
  task_step recovery s = recovery_step p s
  task_step completion s = completion_step p s

  infix 40 ◌↝◌
  pub data ◌↝◌ : Store p → Store p → Type 0 where
    runs : {s t : Store p} (k : Task) → task_step k s ≡ some t → s ↝ t
    host_acts : {s : Store p} (d : p.portal_bus.Device) → s ↝ (record s { portal = d })

  pub data Reach (start : Store p) : Store p → Type 0 where
    here : Reach start start
    later : {s t : Store p} → Reach start s → s ↝ t → Reach start t
