-- ===== src/Retained/Layout.antt =====
-- The record and its words: what is read back is what was written.
use virtual_accelerator_mana.Base.{ℕ, ◌*◌, ◌^◌, ◌<◌, ◌≡◌, refl, List, [], ◌∷◌, length, true, arith}
use virtual_accelerator_mana.Retained.{
  RetainedRecord, RetainedEvent, retained_event_count, words, of_words, crc32_from, bytes,
  word_bytes, retained_crc32, event_words, retained_validate, with_crc, record_size, retained_magic,
  retained_version,
}
use virtual_accelerator_mana.Retained.Crc.{AllBytes}

pub record IsEvent (e : RetainedEvent) : Type 0 where
  pub event_id_fits : e.event_id < 2 ^ 32
  pub command_id_fits : e.command_id < 2 ^ 32
  pub generation_fits : e.generation < 2 ^ 32
  pub timestamp_fits : e.timestamp_ms < 2 ^ 32

abbrev pub AllEvents : List RetainedEvent → Type 0
AllEvents [] = Unit {0}
AllEvents (e ∷ es) = IsEvent e × AllEvents es

-- Every field fits the width that the structure gives it.
pub record IsRecord (r : RetainedRecord) : Type 0 where
  pub magic_fits : r.magic < 2 ^ 32
  pub version_fits : r.version < 2 ^ 16
  pub length_fits : r.length < 2 ^ 16
  pub crc_fits : r.crc32 < 2 ^ 32
  pub boots_fit : r.boot_count < 2 ^ 32
  pub reason_fits : r.reset_reason < 2 ^ 32
  pub generation_fits : r.reset_generation < 2 ^ 32
  pub stuck_fits : r.last_stuck_task < 2 ^ 32
  pub failures_fit : r.health_failure_count < 2 ^ 32
  pub command_fits : r.last_command_id < 2 ^ 32
  pub command_generation_fits : r.last_command_generation < 2 ^ 32
  pub assertion_fits : r.last_assertion < 2 ^ 32
  pub stack_fits : r.stack_failure < 2 ^ 32
  pub head_fits : r.event_head < 2 ^ 32
  pub count_fits : r.event_count < 2 ^ 32
  pub events_sized : length r.events ≡ retained_event_count
  pub events_fit : AllEvents r.events

pub four_events :
    (es : List RetainedEvent)
    → length es ≡ 4
    → (a b c d : RetainedEvent) × (es ≡ a ∷ b ∷ c ∷ d ∷ [])
four_events (a ∷ b ∷ c ∷ d ∷ []) h = (a, b, c, d, refl)
four_events [] h = absurd (omega arith)
four_events (a ∷ []) h = absurd (omega arith)
four_events (a ∷ b ∷ []) h = absurd (omega arith)
four_events (a ∷ b ∷ c ∷ []) h = absurd (omega arith)
four_events (a ∷ b ∷ c ∷ d ∷ e ∷ es) h = absurd (omega arith)

-- A record whose fields fit their widths is read back from its words.
pub of_words-words : (r : RetainedRecord) → IsRecord r → of_words (words r) ≡ r
unfolding of_words words
of_words-words r w = let (a, b, c, d, e) = four_events r.events w.events_sized in ground (arith, e)

-- The checksum does not depend on the word that holds it.
pub retained_crc32-with_crc : (r : RetainedRecord) → retained_crc32 (with_crc r) ≡ retained_crc32 r
unfolding retained_crc32 with_crc crc32_from bytes
retained_crc32-with_crc r = refl

-- So a record of this version is valid once its checksum is stored.
pub with_crc-validate :
    (r : RetainedRecord)
    → r.magic ≡ retained_magic
    → r.version ≡ retained_version
    → r.length ≡ record_size
    → retained_validate (with_crc r) ≡ true
unfolding retained_validate with_crc
with_crc-validate r m v l = ground (arith, retained_crc32-with_crc r)

pub word_bytes-AllBytes : (ws : List ℕ) → AllBytes (word_bytes ws)
word_bytes-AllBytes [] = tt
word_bytes-AllBytes (w ∷ ws) =
    (omega arith, (omega arith, (omega arith, (omega arith, word_bytes-AllBytes ws))))

pub bytes-AllBytes : (r : RetainedRecord) → AllBytes (bytes r)
unfolding bytes
bytes-AllBytes r = word_bytes-AllBytes (words r)

length-word_bytes : (ws : List ℕ) → length (word_bytes ws) ≡ 4 * length ws
length-word_bytes [] = refl
length-word_bytes (w ∷ ws) = omega (arith, length-word_bytes ws)

length-event_words : (es : List RetainedEvent) → length (event_words es) ≡ 4 * length es
length-event_words [] = refl
length-event_words (e ∷ es) = omega (arith, length-event_words es)

pub length-bytes : (r : RetainedRecord) → length r.events ≡ 4 → length (bytes r) ≡ record_size
unfolding bytes
length-bytes r h =
    omega (arith, length-word_bytes (event_words r.events), length-event_words r.events)

pub length-words : (r : RetainedRecord) → length r.events ≡ 4 → length (words r) ≡ 30
unfolding words
length-words r h = omega (arith, length-event_words r.events)
