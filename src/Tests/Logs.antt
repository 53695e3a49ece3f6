-- ===== src/Tests/Logs.antt =====
-- A log whose record is fresh, on a bus of plain memory (vams_retained.c, vams_event.c).
use virtual_accelerator_mana.Base.{ℕ, ◌≡◌, ◌+◌, some, true, [], u64, arith, refl}
use virtual_accelerator_mana.Zephyr.{Msgq, IsRam}
use virtual_accelerator_mana.Zephyr.Model.{memory, memory-IsRam, bounded_queue}
use virtual_accelerator_mana.Management.{retention_base}
use virtual_accelerator_mana.Zephyr.Words.{write_words}
use virtual_accelerator_mana.Zephyr.Words.{write_words-Holds}
use virtual_accelerator_mana.Retained.{RetainedRecord, words, with_crc, retained_format}
use virtual_accelerator_mana.Retained.Layout.{with_crc-validate}
use virtual_accelerator_mana.Retained.Sound.{retained_format-IsSound}
use virtual_accelerator_mana.Log.{Log, Event, emit, event_heartbeat, boot}
use virtual_accelerator_mana.Log.Invariant.{IsLog}
use virtual_accelerator_mana.Log.Emit.{emit_total, IsEmitted, ring_entry}
use virtual_accelerator_mana.Log.Reboot.{boot_after_reset, IsKept}

abbrev pub queue : Msgq Event
queue = bounded_queue Event 4

abbrev pub ram : IsRam memory (0 + retention_base) 32
ram = memory-IsRam 256 32

abbrev pub clock : ℕ → ℕ
clock reads = 1000 + reads

abbrev pub start_record : RetainedRecord
start_record = retained_format 1 0

abbrev pub start_log : Log memory queue
start_log = record {
  retained = start_record;
  device = write_words memory (0 + retention_base) (words start_record) 0 (λ a. 0);
  queue = ([], omega arith);
  drop_count = 0;
  clock_reads = 0;
}

pub start_log-IsLog : IsLog memory 0 queue ram start_log
unfolding retained_format with_crc words
start_log-IsLog = record {
  sound = retained_format-IsSound 1 0 (omega arith) (omega arith);
  valid = with_crc-validate _ refl refl refl;
  held =
      write_words-Holds memory (0 + retention_base) 32 ram (words start_record) 0 (λ a. 0)
        (omega arith);
  drops_fit = omega arith;
}

emit_total_example :
    (l : Log memory queue) × (emit memory 0 queue clock event_heartbeat 0 2 17 0 0 5000 start_log
      ≡ some l)
    × IsEmitted memory 0 queue ram clock
        (ring_entry memory 0 queue ram clock event_heartbeat 0 2 (u64 (clock 0)))
        start_log
        l
emit_total_example =
    emit_total memory 0 queue ram clock event_heartbeat 0 2 17 0 0 5000 start_log start_log-IsLog
      (omega arith) (omega arith) (omega arith)

-- The other variables of the program as the loader leaves them, the device as it was.
abbrev restarted_log : Log memory queue
restarted_log = record start_log { retained = retained_format 0 0; drop_count = 0; clock_reads = 0 }

boot_after_reset_example :
    (l : Log memory queue) × (boot memory 0 queue clock 2 5 restarted_log ≡ some (l, true))
    × IsLog memory 0 queue ram l
    × IsKept memory 0 queue ram clock start_record 2 5 l.retained
boot_after_reset_example =
    boot_after_reset memory 0 queue ram clock start_log restarted_log 2 5 start_log-IsLog
      start_log-IsLog.held (omega arith) (omega arith) (omega arith)
