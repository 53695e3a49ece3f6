-- ===== src/Management.antt =====
-- firmware/drivers/vams_management.c: the management registers at `base` on the bus `m`.
-- `ready` is `dev != NULL && device_is_ready(dev)`.
pub mod Retention
use virtual_accelerator_mana.Base.{
  ℕ, zero, suc, ◌+◌, ◌*◌, ◌/◌, ◌%◌, ◌^◌, Bool, not, ◌&&◌, if◌then◌else◌, leb, ◌==◌, ◌!=◌, List, [],
  ◌∷◌, Option, none, some, u32, bit_and,
}
use virtual_accelerator_mana.Zephyr.Words.{read_words, write_words}
use virtual_accelerator_mana.Zephyr.{Mmio, Status, success, einval, ebusy, eacces}

abbrev pub wdt_timeout_ms : ℕ
wdt_timeout_ms = 0x00

abbrev pub wdt_control : ℕ
wdt_control = 0x04

abbrev pub wdt_pet : ℕ
wdt_pet = 0x08

abbrev pub reset_request : ℕ
reset_request = 0x0c

abbrev pub retention_base : ℕ
retention_base = 0x100

abbrev pub retention_size : ℕ
retention_size = 128

abbrev pub wdt_enable : ℕ
wdt_enable = 1

abbrev pub wdt_pet_magic : ℕ
wdt_pet_magic = 0x5641_4d53

pub record Snapshot : Type 0 where
  pub reset_reason : ℕ
  pub watchdog_reset_count : ℕ
  pub reset_generation : ℕ
  pub reset_notify_count : ℕ
  pub reset_notify_fail_count : ℕ
  pub reset_ack_count : ℕ
  pub reset_ack_timeout_count : ℕ
  pub reset_coalesce_count : ℕ
  pub test_freeze_task : ℕ
  pub mailbox_rx_count : ℕ
  pub mailbox_tx_count : ℕ
  pub status : ℕ
  pub watchdog_enabled : Bool

module _ (m : Mmio) (base : ℕ) where
  open m use {Device, read32, write32}

  pub watchdog_start : Bool → ℕ → Device → Device × Status
  watchdog_start ready timeout_ms d0 =
      if not ready
      then (d0, einval)
      else let (control, d1) = read32 (base + wdt_control) d0 in
        if bit_and control wdt_enable != 0
        then (let (running, d2) = read32 (base + wdt_timeout_ms) d1 in
            (d2, if running == timeout_ms then success else ebusy))
        else (let (stored, d2) =
              read32 (base + wdt_timeout_ms) (write32 timeout_ms (base + wdt_timeout_ms) d1) in
            if stored != timeout_ms
            then (d2, einval)
            else (write32 wdt_enable (base + wdt_control) d2, success))

  unfoldable pub watchdog_pet : Bool → Device → Device × Status
  watchdog_pet ready d0 =
      if not ready
      then (d0, einval)
      else let (control, d1) = read32 (base + wdt_control) d0 in
        if bit_and control wdt_enable == 0
        then (d1, eacces)
        else (write32 wdt_pet_magic (base + wdt_pet) d1, success)

  unfoldable pub publish : ℕ → ℕ → ℕ → Device → Device
  publish heartbeat uptime_ms firmware_version d = write32 firmware_version (base + 0x24) (
      write32 (u32 (uptime_ms / 2 ^ 32)) (base + 0x20)
        (write32 (u32 uptime_ms) (base + 0x1c) (write32 heartbeat (base + 0x18) d)))

  pub snapshot : Device → Device × Snapshot
  snapshot d =
      let (reason, d1) = read32 (base + 0x10) d in
      let (watchdog_resets, d2) = read32 (base + 0x14) d1 in
      let (generation, d3) = read32 (base + 0x30) d2 in
      let (notified, d4) = read32 (base + 0x38) d3 in
      let (notify_failed, d5) = read32 (base + 0x3c) d4 in
      let (acked, d6) = read32 (base + 0x40) d5 in
      let (ack_timeouts, d7) = read32 (base + 0x44) d6 in
      let (coalesced, d8) = read32 (base + 0x4c) d7 in
      let (freeze_task, d9) = read32 (base + 0x50) d8 in
      let (received, d10) = read32 (base + 0x28) d9 in
      let (sent, d11) = read32 (base + 0x2c) d10 in
      let (status, d12) = read32 (base + 0x34) d11 in
      let (control, d13) = read32 (base + wdt_control) d12 in
      (
        d13,
        record {
          reset_reason = reason;
          watchdog_reset_count = watchdog_resets;
          reset_generation = generation;
          reset_notify_count = notified;
          reset_notify_fail_count = notify_failed;
          reset_ack_count = acked;
          reset_ack_timeout_count = ack_timeouts;
          reset_coalesce_count = coalesced;
          test_freeze_task = freeze_task;
          mailbox_rx_count = received;
          mailbox_tx_count = sent;
          status = status;
          watchdog_enabled = bit_and control wdt_enable != 0;
        },
      )

  -- `vams_management_reset`: the request bit for the management CPU.
  unfoldable pub reset : Device → Device
  reset d = write32 1 (base + reset_request) d

  -- `none` is a failed assertion.
  pub retention_read : ℕ → Device → Option (Device × List ℕ)
  retention_read size d =
      if leb size retention_size && size % 4 == 0
      then some (read_words m (base + retention_base) (size / 4) 0 d)
      else none

  -- `words` are the `size / 4` words at the pointer that is passed.
  pub retention_write : List ℕ → ℕ → Device → Option Device
  retention_write words size d =
      if leb size retention_size && size % 4 == 0
      then some (write_words m (base + retention_base) words 0 d)
      else none
