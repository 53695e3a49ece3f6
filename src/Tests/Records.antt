-- ===== src/Tests/Records.antt =====
-- A fresh record, and one of its bytes changed (vams_retained.c).
use virtual_accelerator_mana.Base.{
  ℕ, ◌≡◌, some, true, false, List, [], ◌∷◌, take, replicate, arith, refl,
}
use mathlib.Core.List.{reverse}
use virtual_accelerator_mana.Zephyr.Model.{memory, memory-IsRam}
use virtual_accelerator_mana.Management.{retention_read, retention_write}
use virtual_accelerator_mana.Management.Retention.{retention_read-write}
use virtual_accelerator_mana.Zephyr.Words.{Holds}
use virtual_accelerator_mana.Retained.{
  RetainedRecord, RetainedEvent, bytes, word_bytes, words, with_crc, retained_format,
  retained_validate,
}
use virtual_accelerator_mana.Retained.Layout.{IsRecord, with_crc-validate}
use virtual_accelerator_mana.Retained.Detect.{OneByteApart, one_byte_detected}
use virtual_accelerator_mana.Retained.Ring.{push_events, push_events-format, recent_events}
use virtual_accelerator_mana.Retained.Sound.{IsSound, retained_format-IsSound}

abbrev first_record : RetainedRecord
first_record = retained_format 1 0

first_record-IsSound : IsSound first_record
first_record-IsSound = retained_format-IsSound 1 0 (omega arith) (omega arith)

-- The boot counter reads 3 in place of 1.
abbrev damaged_record : RetainedRecord
damaged_record = record first_record { boot_count = 3 }

damaged_record-IsRecord : IsRecord damaged_record
unfolding retained_format with_crc
damaged_record-IsRecord = let f = first_record-IsSound.fits in ground (arith, f)

damage : OneByteApart first_record damaged_record
unfolding retained_format with_crc bytes words
damage = record {
  before = word_bytes (take 3 (words first_record));
  after = 0 ∷ 0 ∷ 0 ∷ word_bytes (1 ∷ replicate 25 0);
  old = 1;
  new = 3;
  first_bytes = refl;
  second_bytes = refl;
  changed = omega arith;
}

first_record_valid : retained_validate first_record ≡ true
unfolding retained_format
first_record_valid = with_crc-validate _ refl refl refl

one_byte_detected_example : retained_validate damaged_record ≡ false
one_byte_detected_example =
    one_byte_detected first_record damaged_record first_record-IsSound.fits damaged_record-IsRecord
      damage first_record_valid

abbrev start_event : RetainedEvent
start_event = record { event_id = 1; command_id = 7; generation = 2; timestamp_ms = 1000 }

abbrev later_event : RetainedEvent
later_event = record { event_id = 2; command_id = 7; generation = 2; timestamp_ms = 1010 }

abbrev history : List RetainedEvent
history = start_event ∷ later_event ∷ start_event ∷ later_event ∷ later_event ∷ []

push_events-format_example :
    (s : RetainedRecord) × (push_events history (retained_format 1 0) ≡ some s)
    × (recent_events s ≡ take 4 (reverse history))
push_events-format_example = push_events-format 1 0 history

retention_read-write_example :
    (d : ℕ → ℕ) × (retention_write memory 0 (5 ∷ 6 ∷ []) 8 (λ a. 0) ≡ some d)
    × Holds memory 256 32 (memory-IsRam 256 32) 0 (5 ∷ 6 ∷ []) d
    × (retention_read memory 0 8 d ≡ some (d, 5 ∷ 6 ∷ []))
retention_read-write_example =
    retention_read-write memory 0 (memory-IsRam 256 32) (5 ∷ 6 ∷ []) (λ a. 0) (omega arith)
