-- ===== src/Log.antt =====
-- The stateful part of firmware/src/recovery/vams_retained.c (its calls under `__ZEPHYR__`) and
-- firmware/src/logging/vams_event.c: the retained record in SRAM, its copy in the retention memory
-- of the management device `m` at `base`, the event queue `q` and the counter of lost events.
-- `clock` gives the successive answers of `k_uptime_get`. Each call is one step: the record is
-- changed under a spin lock, and for the counter see `Atomic`. `none` is a failed assertion or a
-- write past the event ring.
pub mod Invariant
pub mod Emit
pub mod Reboot
use virtual_accelerator_mana.Base.{
  ℕ, ◌+◌, Bool, true, false, if◌then◌else◌, List, Option, none, some, u16, u32, u64,
}
use virtual_accelerator_mana.Overload.{counter_increment}
use virtual_accelerator_mana.Atomic.{saturating_atomic_inc}
use virtual_accelerator_mana.Zephyr.{Mmio, Msgq, Status, success}
use virtual_accelerator_mana.Management.{retention_read, retention_write}
use virtual_accelerator_mana.Retained.{
  RetainedRecord, RetainedEvent, record_size, words, of_words, with_crc, retained_validate,
  retained_format, push_event,
}

pub record Event : Type 0 where
  pub timestamp_ms : ℕ
  pub value : ℕ
  pub command_id : ℕ
  pub generation : ℕ
  pub arg0 : ℕ
  pub arg1 : ℕ
  pub arg2 : ℕ
  pub id : ℕ

abbrev pub event_transition : ℕ
event_transition = 1

abbrev pub event_published : ℕ
event_published = 2

abbrev pub event_heartbeat : ℕ
event_heartbeat = 3

abbrev pub event_mailbox : ℕ
event_mailbox = 4

abbrev pub event_abort_request : ℕ
event_abort_request = 5

abbrev pub event_abort_escalated : ℕ
event_abort_escalated = 6

abbrev pub event_result_mismatch : ℕ
event_result_mismatch = 7

abbrev pub event_command_complete : ℕ
event_command_complete = 8

abbrev pub event_telemetry : ℕ
event_telemetry = 9

abbrev pub event_watchdog_withheld : ℕ
event_watchdog_withheld = 10

abbrev pub event_health_stuck : ℕ
event_health_stuck = 12

pub record Log (m : Mmio) (q : Msgq Event) : Type 0 where
  pub retained : RetainedRecord
  pub device : m.Device
  pub queue : q.Queue
  pub drop_count : ℕ
  pub clock_reads : ℕ

infixl 5 ◌>>=◌
abbrev pub ◌>>=◌ {ℓ κ} : {A : Type ℓ} {B : Type κ} → Option A → (A → Option B) → Option B
none >>= f = none
some a >>= f = f a

module _ (m : Mmio) (base : ℕ) (q : Msgq Event) (clock : ℕ → ℕ) where
  -- `k_uptime_get`, taken as the 64-bit word that the callers cast it to.
  unfoldable pub uptime_get : Log m q → ℕ × Log m q
  uptime_get l = (u64 (clock l.clock_reads), record l { clock_reads = l.clock_reads + 1 })

  -- The record, its checksum and its copy in the retention memory.
  pub commit : RetainedRecord → Log m q → Option (Log m q)
  commit r l = do
    d ← retention_write m base (words (with_crc r)) record_size l.device
    some (record l { retained = with_crc r; device = d })

  -- The two ways on from the check in `vams_retained_boot`.
  pub boot_valid : ℕ → ℕ → RetainedRecord → Log m q → Option (Log m q × Bool)
  boot_valid reset_reason generation r l = do
    l' ←
        commit
          (record r {
            boot_count = counter_increment r.boot_count;
            reset_reason = reset_reason;
            reset_generation = generation;
          })
          l
    some (l', true)

  pub boot_fresh : ℕ → ℕ → Log m q → Option (Log m q × Bool)
  boot_fresh reset_reason generation l = do
    let fresh = retained_format reset_reason generation
    d ← retention_write m base (words fresh) record_size l.device
    some (record l { retained = fresh; device = d }, false)

  pub boot : ℕ → ℕ → Log m q → Option (Log m q × Bool)
  boot reset_reason generation l = do
    (d, ws) ← retention_read m base record_size l.device
    let r = of_words ws
    let l' = record l { device = d }
    if retained_validate r
        then boot_valid reset_reason generation r l'
        else boot_fresh reset_reason generation l'

  unfoldable pub note_health : ℕ → ℕ → Log m q → Option (Log m q)
  note_health stuck_task failures l =
      commit (record l.retained { last_stuck_task = stuck_task; health_failure_count = failures }) l

  unfoldable pub note_command : ℕ → ℕ → Log m q → Option (Log m q)
  note_command command_id generation l =
      commit
        (record l.retained { last_command_id = command_id; last_command_generation = generation }) l

  unfoldable pub clear_command : Log m q → Option (Log m q)
  clear_command l =
      commit (record l.retained { last_command_id = 0; last_command_generation = 0 }) l

  pub note_event : RetainedEvent → Log m q → Option (Log m q)
  note_event e l = do r ← push_event e l.retained; commit r l

  -- The queue is tried without waiting; a full one costs the event and is counted.
  pub post : Event → Log m q → Log m q
  post e l =
      let (queue', status) = q.put e l.queue in
      elim status [
        | success ↦ record l { queue = queue' }
        | _ ↦ record l { queue = queue'; drop_count = saturating_atomic_inc l.drop_count }
      ]

  pub emit : ℕ → ℕ → ℕ → ℕ → ℕ → ℕ → ℕ → Log m q → Option (Log m q)
  emit id command_id generation arg0 arg1 arg2 value l = do
    let now = (uptime_get l).0
    l1 ←
        note_event
          (record {
            event_id = id;
            command_id = command_id;
            generation = generation;
            timestamp_ms = u32 now;
          })
          (uptime_get l).1
    some (
        post
          (record {
            timestamp_ms = now;
            value = value;
            command_id = command_id;
            generation = generation;
            arg0 = arg0;
            arg1 = arg1;
            arg2 = arg2;
            id = u16 id;
          })
          l1)

  -- `vams_event_receive` on an event that is there.
  pub event_receive : Log m q → Option (Event × Log m q)
  event_receive l = do (e, rest) ← q.get l.queue; some (e, record l { queue = rest })
