-- ===== src/Portal.antt =====
-- firmware/drivers/vams_command_portal.c: the portal through which the host hands over commands and
-- takes completions, at `base` on the bus `m`. Pointers passed are not NULL. While the driver
-- sleeps the host may act: `sleep` is what that does to the device. A timeout is the number of
-- polls after which `sys_timepoint_expired` answers true, 0 for K_NO_WAIT.
pub mod Layout
pub mod Handover
use virtual_accelerator_mana.Base.{
  ℕ, zero, suc, ◌+◌, ◌*◌, ◌/◌, ◌%◌, ◌^◌, Bool, true, false, if◌then◌else◌, ◌==◌, ◌!=◌, List, [],
  ◌∷◌, Option, none, some, bit_and, get_or,
}
use virtual_accelerator_mana.Abi.{Submission, Completion}
use virtual_accelerator_mana.Zephyr.{Mmio, Status, success, ebusy}
use virtual_accelerator_mana.Zephyr.Words.{read_words, write_words}

abbrev pub fw_ack : ℕ
fw_ack = 0x08

abbrev pub fw_complete : ℕ
fw_complete = 0x0c

abbrev pub result_ack : ℕ
result_ack = 0x1c

abbrev pub fw_abort : ℕ
fw_abort = 0x24

abbrev pub submission_window : ℕ
submission_window = 0x100

abbrev pub completion_window : ℕ
completion_window = 0x200

abbrev pub result_window : ℕ
result_window = 0x300

abbrev pub h2f_pending : ℕ
h2f_pending = 1

abbrev pub f2h_pending : ℕ
f2h_pending = 2

abbrev pub result_pending : ℕ
result_pending = 32

abbrev low : ℕ → ℕ
low x = x % 2 ^ 32

abbrev high : ℕ → ℕ
high x = x / 2 ^ 32

-- The structures as the words that `memcpy` makes of them.
unfoldable pub submission_words : Submission → List ℕ
submission_words s =
    (s.version + s.opcode * 2 ^ 16 + s.flags * 2 ^ 24)
    ∷ s.command_id
    ∷ low s.source_dma
    ∷ high s.source_dma
    ∷ low s.destination_dma
    ∷ high s.destination_dma
    ∷ s.length
    ∷ s.timeout_ms
    ∷ low s.user_cookie
    ∷ high s.user_cookie
    ∷ s.expected_crc
    ∷ s.reserved0
    ∷ low s.reserved1
    ∷ high s.reserved1
    ∷ low s.reserved2
    ∷ high s.reserved2
    ∷ []

double : List ℕ → ℕ → ℕ
double ws i = get_or ws i 0 + get_or ws (i + 1) 0 * 2 ^ 32

unfoldable pub submission_of_words : List ℕ → Submission
unfolding double
submission_of_words ws = record {
  version = get_or ws 0 0 % 2 ^ 16;
  opcode = get_or ws 0 0 / 2 ^ 16 % 2 ^ 8;
  flags = get_or ws 0 0 / 2 ^ 24;
  command_id = get_or ws 1 0;
  source_dma = double ws 2;
  destination_dma = double ws 4;
  length = get_or ws 6 0;
  timeout_ms = get_or ws 7 0;
  user_cookie = double ws 8;
  expected_crc = get_or ws 10 0;
  reserved0 = get_or ws 11 0;
  reserved1 = double ws 12;
  reserved2 = double ws 14;
}

unfoldable pub completion_words : Completion → List ℕ
completion_words c =
    c.command_id
    ∷ (c.status + c.error_code * 2 ^ 16)
    ∷ c.bytes_processed
    ∷ c.result_crc
    ∷ low c.user_cookie
    ∷ high c.user_cookie
    ∷ low c.device_timestamp
    ∷ high c.device_timestamp
    ∷ []

unfoldable pub completion_of_words : List ℕ → Completion
unfolding double
completion_of_words ws = record {
  command_id = get_or ws 0 0;
  status = get_or ws 1 0 % 2 ^ 16;
  error_code = get_or ws 1 0 / 2 ^ 16;
  bytes_processed = get_or ws 2 0;
  result_crc = get_or ws 3 0;
  user_cookie = double ws 4;
  device_timestamp = double ws 6;
}

module _ (m : Mmio) (base : ℕ) where
  open m use {Device, read32, write32}

  unfoldable pub pending : Device → Device × Bool
  pending d = let (status, d1) = read32 base d in (d1, bit_and status h2f_pending != 0)

  module _ (sleep : Device → Device) where
    -- The loop on a bit of the status register: true once it is set, false at the deadline.
    unfoldable pub await : ℕ → ℕ → Device → Device × Bool
    await mask zero d = let (status, d1) = read32 base d in (d1, bit_and status mask != 0)
    await mask (suc polls) d =
        let (status, d1) = read32 base d in
        let later = await mask polls (sleep d1) in
        if bit_and status mask == 0 then later else (d1, true)

    -- `none` is -EAGAIN.
    unfoldable pub receive : ℕ → Device → Device × Option Submission
    receive polls d =
        let (d1, ready) = await h2f_pending polls d in
        if ready
        then (let (d2, ws) = read_words m (base + submission_window) 16 0 d1 in
            (write32 1 (base + fw_ack) d2, some (submission_of_words ws)))
        else (d1, none)

    unfoldable pub result_receive : ℕ → Device → Device × Option Completion
    result_receive polls d =
        let (d1, ready) = await result_pending polls d in
        if ready
        then (let (d2, ws) = read_words m (base + result_window) 8 0 d1 in
            (write32 1 (base + result_ack) d2, some (completion_of_words ws)))
        else (d1, none)

  unfoldable pub complete : Completion → Device → Device × Status
  complete c d =
      let (status, d1) = read32 base d in
      if bit_and status f2h_pending != 0 then (d1, ebusy) else (
        write32 1 (base + fw_complete)
            (write_words m (base + completion_window) (completion_words c) 0 d1),
        success,
      )

  unfoldable pub abort : Completion → Device → Device × Status
  abort request d =
      let (status, d1) = read32 base d in
      if bit_and status result_pending != 0 then (d1, ebusy) else (
        write32 1 (base + fw_abort)
            (write_words m (base + completion_window) (completion_words request) 0 d1),
        success,
      )
