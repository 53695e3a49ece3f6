-- ===== src/Retained.antt =====
-- firmware/src/recovery/vams_retained.c: the record that survives a reset, its checksum, its check
-- and the changes made to it. The record lies in the memory of a little-endian RV32 CPU; its words
-- are those that the management driver copies to and from the retention memory.
pub mod Crc
pub mod Layout
pub mod Detect
pub mod Ring
pub mod Sound
use virtual_accelerator_mana.Base.{
  ℕ, zero, suc, ◌+◌, ◌-◌, ◌*◌, ◌/◌, ◌%◌, ◌^◌, Bool, ◌&&◌, if◌then◌else◌, ltb, leb, ◌==◌, List, [],
  ◌∷◌, ◌++◌, Option, none, some, get_or, set, replicate, u32, uint32_max, bit_and, bit_xor,
}
use virtual_accelerator_mana.Overload.{counter_increment}

abbrev pub retained_magic : ℕ
retained_magic = 0x5641_4d52

abbrev pub retained_version : ℕ
retained_version = 1

abbrev pub retained_event_count : ℕ
retained_event_count = 4

-- `sizeof(struct vams_retained_record)`: fourteen words of header fields and four events of four.
abbrev pub record_size : ℕ
record_size = 120

pub record RetainedEvent : Type 0 where
  pub event_id : ℕ
  pub command_id : ℕ
  pub generation : ℕ
  pub timestamp_ms : ℕ

pub record RetainedRecord : Type 0 where
  pub magic : ℕ
  pub version : ℕ
  pub length : ℕ
  pub crc32 : ℕ
  pub boot_count : ℕ
  pub reset_reason : ℕ
  pub reset_generation : ℕ
  pub last_stuck_task : ℕ
  pub health_failure_count : ℕ
  pub last_command_id : ℕ
  pub last_command_generation : ℕ
  pub last_assertion : ℕ
  pub stack_failure : ℕ
  pub event_head : ℕ
  pub event_count : ℕ
  pub events : List RetainedEvent

abbrev pub event_words : List RetainedEvent → List ℕ
event_words [] = []
event_words (e ∷ es) = e.event_id ∷ e.command_id ∷ e.generation ∷ e.timestamp_ms ∷ event_words es

-- The record as 32-bit words: version and length share one.
unfoldable pub words : RetainedRecord → List ℕ
words r =
    r.magic
    ∷ (r.version + r.length * 2 ^ 16)
    ∷ r.crc32
    ∷ r.boot_count
    ∷ r.reset_reason
    ∷ r.reset_generation
    ∷ r.last_stuck_task
    ∷ r.health_failure_count
    ∷ r.last_command_id
    ∷ r.last_command_generation
    ∷ r.last_assertion
    ∷ r.stack_failure
    ∷ r.event_head
    ∷ r.event_count
    ∷ event_words r.events

event_at : List ℕ → ℕ → RetainedEvent
event_at ws i = record {
  event_id = get_or ws i 0;
  command_id = get_or ws (i + 1) 0;
  generation = get_or ws (i + 2) 0;
  timestamp_ms = get_or ws (i + 3) 0;
}

pub of_words : List ℕ → RetainedRecord
unfolding event_at
of_words ws = record {
  magic = get_or ws 0 0;
  version = get_or ws 1 0 % 2 ^ 16;
  length = get_or ws 1 0 / 2 ^ 16;
  crc32 = get_or ws 2 0;
  boot_count = get_or ws 3 0;
  reset_reason = get_or ws 4 0;
  reset_generation = get_or ws 5 0;
  last_stuck_task = get_or ws 6 0;
  health_failure_count = get_or ws 7 0;
  last_command_id = get_or ws 8 0;
  last_command_generation = get_or ws 9 0;
  last_assertion = get_or ws 10 0;
  stack_failure = get_or ws 11 0;
  event_head = get_or ws 12 0;
  event_count = get_or ws 13 0;
  events = event_at ws 14 ∷ event_at ws 18 ∷ event_at ws 22 ∷ event_at ws 26 ∷ [];
}

abbrev pub word_bytes : List ℕ → List ℕ
word_bytes [] = []
word_bytes (w ∷ ws) =
    w % 256 ∷ w / 2 ^ 8 % 256 ∷ w / 2 ^ 16 % 256 ∷ w / 2 ^ 24 % 256 ∷ word_bytes ws

-- The record as bytes, in the order of their addresses.
unfoldable pub bytes : RetainedRecord → List ℕ
unfolding words
bytes r = word_bytes (words r)

-- One round of the loop over the bits of a byte. `0U - bit` wraps to all ones for a set bit.
pub crc32_bit : ℕ → ℕ
crc32_bit crc =
    let mask = u32 (2 ^ 32 - bit_and crc 1) in bit_xor (crc / 2) (bit_and 0xedb8_8320 mask)

pub crc32_bits : ℕ → ℕ → ℕ
crc32_bits zero crc = crc
crc32_bits (suc bits) crc = crc32_bits bits (crc32_bit crc)

pub crc32_byte : ℕ → ℕ → ℕ
crc32_byte crc value = crc32_bits 8 (bit_xor crc value)

abbrev pub crc_offset : ℕ
crc_offset = 8

-- The loop over the bytes, the checksum's own four taken as 0.
pub crc32_from : ℕ → ℕ → List ℕ → ℕ
crc32_from index crc [] = crc
crc32_from index crc (b ∷ bs) =
    let crc_byte = leb crc_offset index && ltb index (crc_offset + 4) in
    crc32_from (index + 1) (crc32_byte crc (if crc_byte then 0 else b)) bs

-- `~crc` of a 32-bit word.
pub retained_crc32 : RetainedRecord → ℕ
retained_crc32 r = uint32_max - crc32_from 0 uint32_max (bytes r)

pub retained_validate : RetainedRecord → Bool
retained_validate r =
    r.magic == retained_magic
    && r.version == retained_version
    && r.length == record_size
    && r.crc32 == retained_crc32 r

abbrev pub no_event : RetainedEvent
no_event = record { event_id = 0; command_id = 0; generation = 0; timestamp_ms = 0 }

-- The checksum is computed over the record before it is stored in it.
unfoldable pub with_crc : RetainedRecord → RetainedRecord
with_crc r = record r { crc32 = retained_crc32 r }

unfoldable pub retained_format : ℕ → ℕ → RetainedRecord
unfolding with_crc
retained_format reset_reason generation = with_crc (record {
  magic = retained_magic;
  version = retained_version;
  length = record_size;
  crc32 = 0;
  boot_count = 1;
  reset_reason = reset_reason;
  reset_generation = generation;
  last_stuck_task = 0;
  health_failure_count = 0;
  last_command_id = 0;
  last_command_generation = 0;
  last_assertion = 0;
  stack_failure = 0;
  event_head = 0;
  event_count = 0;
  events = replicate retained_event_count no_event;
})

pub store_event : RetainedEvent → RetainedRecord → RetainedRecord
store_event e r = record r {
  events = set r.events r.event_head e;
  event_head = (r.event_head + 1) % retained_event_count;
  event_count = if ltb r.event_count retained_event_count then r.event_count + 1 else r.event_count;
}

-- The write of one event into the ring. `none` is a write past the array, which C leaves undefined.
pub push_event : RetainedEvent → RetainedRecord → Option RetainedRecord
push_event e r = if ltb r.event_head retained_event_count then some (store_event e r) else none
