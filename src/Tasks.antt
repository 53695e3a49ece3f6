-- ===== src/Tasks.antt =====
-- firmware/src/main.c: the helpers of the tasks.
pub mod Select
pub mod Queueing
pub mod Publish
use virtual_accelerator_mana.Base.{
  min, leb, ℕ, zero, suc, ◌+◌, ◌-◌, Bool, ◌||◌, ◌==◌, if◌then◌else◌, List, Option, none, some,
  get_elem?,
}
use virtual_accelerator_mana.Atomic.{record_high_water, saturating_atomic_inc}
use virtual_accelerator_mana.Zephyr.{Mmio, Msgq, Status, success, ebusy, etimedout}
use virtual_accelerator_mana.Portal.{complete}
use virtual_accelerator_mana.Abi.{Completion, op_mem_copy, op_mem_fill, op_crc32, op_vector_add}
use virtual_accelerator_mana.Log.{◌>>=◌}
use virtual_accelerator_mana.Scheduler.{CommandObject, precedes}

-- The loop of the selection, with `rest` turns to go; `none` reads beyond the array.
unfoldable pub select_from : List CommandObject → ℕ → ℕ → ℕ → Option ℕ
select_from ready zero index selected = some selected
select_from ready (suc rest) index selected = do
  candidate ← get_elem? ready index
  best ← get_elem? ready selected
  select_from ready rest (index + 1) (if precedes candidate best then index else selected)

unfoldable pub scheduler_select : List CommandObject → ℕ → Option ℕ
scheduler_select ready count = select_from ready (count - 1) 1 0

unfoldable pub is_payload_opcode : ℕ → Bool
is_payload_opcode opcode =
    opcode == op_mem_copy || opcode == op_mem_fill || opcode == op_crc32 || opcode == op_vector_add

-- A queue of tasks with its high-water mark, and the counter of refused puts.
pub record TaskQueue (A : Type 0) (q : Msgq A) : Type 0 where
  pub queue : q.Queue
  pub high_water : ℕ
  pub overloads : ℕ

unfoldable pub queue_put : (A : Type 0) (q : Msgq A) → A → TaskQueue A q → TaskQueue A q × Status
queue_put A q element s =
    let used_before = q.num_used s.queue in
    let capacity = used_before + q.num_free s.queue in
    let (queue', status) = q.put element s.queue in
    elim status [
      | success ↦ (
        record s {
          queue = queue';
          high_water = record_high_water s.high_water (min (used_before + 1) capacity);
        },
        success,
      )
      | failed ↦
          (record s { queue = queue'; overloads = saturating_atomic_inc s.overloads }, failed)
    ]

abbrev pub completion_publish_timeout_ms : ℕ
completion_publish_timeout_ms = 100

-- The portal with the number of answers taken from `k_uptime_get` and the counter of stalls.
pub record Publishing (m : Mmio) : Type 0 where
  pub device : m.Device
  pub clock_reads : ℕ
  pub stalls : ℕ

module _ (m : Mmio) (base : ℕ) (sleep : m.Device → m.Device) (clock : ℕ → ℕ) where
  -- The loop; `none` is out of fuel.
  unfoldable pub publish_until : ℕ → ℕ → Completion → Publishing m → Option (Publishing m × Status)
  publish_until zero deadline c s = none
  publish_until (suc fuel) deadline c s =
      let (d, status) = complete m base c s.device in
      let now = clock s.clock_reads in
      let again =
        publish_until fuel deadline c
          (record s { device = sleep d; clock_reads = s.clock_reads + 1 }) in
      elim status [
        | ebusy ↦
            if leb deadline now
            then some (
              record s {
                device = d;
                clock_reads = s.clock_reads + 1;
                stalls = saturating_atomic_inc s.stalls;
              },
              etimedout,
            )
            else again
        | other ↦ some (record s { device = d }, other)
      ]

  unfoldable pub publish_portal_completion :
      ℕ → Completion → Publishing m → Option (Publishing m × Status)
  publish_portal_completion fuel c s =
      publish_until fuel (clock s.clock_reads + completion_publish_timeout_ms) c
        (record s { clock_reads = s.clock_reads + 1 })
