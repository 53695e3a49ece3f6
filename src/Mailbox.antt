-- ===== src/Mailbox.antt =====
-- firmware/drivers/vams_mailbox.c: the mailbox at `base` on the bus `m`, with the queue `q` of
-- messages between the interrupt handler and the service. `ready` is the test of the device
-- pointer; other pointers passed are not NULL.
pub mod Messages
use virtual_accelerator_mana.Base.{
  ℕ, ◌+◌, ◌⊎◌, inl, inr, Bool, not, if◌then◌else◌, ◌==◌, ◌!=◌, Option, none, some, bit_and,
}
use virtual_accelerator_mana.Zephyr.{Mmio, Msgq, Status, success, einval, ebusy, eagain}

abbrev pub ack_register : ℕ
ack_register = 0x04

abbrev pub response_register : ℕ
response_register = 0x08

abbrev pub response_doorbell : ℕ
response_doorbell = 0x0c

abbrev pub status_register : ℕ
status_register = 0x10

abbrev pub message_pending : ℕ
message_pending = 1

abbrev pub response_pending : ℕ
response_pending = 2

module _ (m : Mmio) (base : ℕ) (q : Msgq ℕ) where
  open m use {Device, read32, write32}
  open q use {Queue, put, get}

  -- A message that finds the queue full is acknowledged and lost.
  unfoldable pub mailbox_isr : Device → Queue → Device × Queue
  mailbox_isr d0 queue =
      let (status, d1) = read32 (base + status_register) d0 in
      if bit_and status message_pending == 0
      then (d1, queue)
      else let (message, d2) = read32 base d1 in
        (write32 1 (base + ack_register) d2, (put message queue).0)

  -- The call with an elapsed timeout: `inr` is a message, `inl` a status.
  unfoldable pub mailbox_receive : Bool → Queue → Queue × (Status ⊎ ℕ)
  mailbox_receive ready queue = if not ready then (queue, inl einval) else elim (get queue) [
    | none ↦ (queue, inl eagain)
    | some (message, rest) ↦ (rest, inr message)
  ]

  unfoldable pub mailbox_respond : Bool → ℕ → Device → Device × Status
  mailbox_respond ready response d0 =
      if not ready
      then (d0, einval)
      else let (status, d1) = read32 (base + status_register) d0 in
        if bit_and status response_pending != 0 then (d1, ebusy) else (
          write32 1 (base + response_doorbell) (write32 response (base + response_register) d1),
          success,
        )
