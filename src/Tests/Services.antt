-- ===== src/Tests/Services.antt =====
-- The mailbox service with a ping, a turn of the health monitor with every task alive, and a
-- heartbeat made and heard (main.c).
use virtual_accelerator_mana.Base.{
  ℕ, ◌+◌, ◌<◌, ◌^◌, ◌≡◌, refl, false, ◌==◌, if◌then◌else◌, [], ◌∷◌, some, length, replicate, arith,
}
use virtual_accelerator_mana.Zephyr.{Mmio, Msgq, IsRam}
use virtual_accelerator_mana.Zephyr.Model.{memory, bounded_queue}
use virtual_accelerator_mana.Zephyr.Words.{write_words, write_words-Holds}
use virtual_accelerator_mana.Health.{Tracker, tracker_init, tracker_update}
use virtual_accelerator_mana.Management.{wdt_control, wdt_enable, retention_base}
use virtual_accelerator_mana.Retained.{words, with_crc, retained_format}
use virtual_accelerator_mana.Retained.Layout.{with_crc-validate}
use virtual_accelerator_mana.Retained.Sound.{retained_format-IsSound}
use virtual_accelerator_mana.Log.{Log}
use virtual_accelerator_mana.Log.Invariant.{IsLog}
use virtual_accelerator_mana.Services.Mail.{Mail, mailbox_ping, mailbox_service}
use virtual_accelerator_mana.Services.Answering.{Served, mailbox_service-Served}
use virtual_accelerator_mana.Services.Watch.{Monitor, health_turn}
use virtual_accelerator_mana.Services.Petting.{IsSeparate}
use virtual_accelerator_mana.Services.Turns.{IsTurn, health_turn-IsTurn}
use virtual_accelerator_mana.Services.Beats.{Heartbeat, Beats, producer_turn, monitor_turn}
use virtual_accelerator_mana.Services.Counted.{begins, produces, IsFresh, Beating-total}
use virtual_accelerator_mana.Tests.Logs.{
  queue, ram, clock, start_log, start_log-IsLog, start_record,
}

abbrev inbox : Msgq ℕ
inbox = bounded_queue ℕ 4

abbrev ping_waits : Mail memory 0 queue clock memory 0 inbox
ping_waits = record {
  mailbox = λ a. 0;
  messages = (mailbox_ping ∷ [], omega arith);
  log = start_log;
  generation = 5;
  epoch = 0;
}

mailbox_service-Served_example :
    Served memory 0 queue ram clock memory 0 inbox ping_waits
      (mailbox_service memory 0 queue clock memory 0 inbox ping_waits)
mailbox_service-Served_example =
    mailbox_service-Served memory 0 queue ram clock memory 0 inbox ping_waits start_log-IsLog
      (omega arith)

-- A bus whose watchdog reads as started.
abbrev started_bus : Mmio
started_bus = record {
  Device = ℕ → ℕ;
  read32 = λ a d. (if a == wdt_control then wdt_enable else d a, d);
  write32 = λ v a d b. if a == b then v else d b;
}

started_bus-IsRam : IsRam started_bus (0 + retention_base) 32
started_bus-IsRam = record {
  read_keeps = λ i d lt. refl;
  read_written = λ i j v d p r. ground arith;
}

started_bus-IsSeparate : IsSeparate started_bus 0
started_bus-IsSeparate = record {
  write_keeps = λ r v i d lt p. ground arith;
  read_keeps = λ i d lt. refl;
}

abbrev started_log : Log started_bus queue
started_log = record {
  retained = start_record;
  device = write_words started_bus (0 + retention_base) (words start_record) 0 (λ a. 0);
  queue = ([], omega arith);
  drop_count = 0;
  clock_reads = 0;
}

started_log-IsLog : IsLog started_bus 0 queue started_bus-IsRam started_log
unfolding retained_format with_crc words
started_log-IsLog = record {
  sound = retained_format-IsSound 1 0 (omega arith) (omega arith);
  valid = with_crc-validate _ refl refl refl;
  held =
      write_words-Holds started_bus (0 + retention_base) 32 started_bus-IsRam (words start_record) 0
        (λ a. 0) (omega arith);
  drops_fit = omega arith;
}

abbrev new_tracker : Tracker
new_tracker = tracker_init (replicate 8 0) 2 2

abbrev monitor : Monitor started_bus 0 queue clock false
monitor = record {
  tracker = new_tracker;
  heartbeat = 0;
  reported_failure_count = 0;
  expiry_announced = false;
  last_pet_ms = 900;
  max_interval_ms = 0;
  log = started_log;
  generation = 5;
  health_failure_count = 0;
  health_stuck_task = 0;
  overload_reset_requested = false;
}

tracked_fits :
    ((tracker_update new_tracker (replicate 8 1)).0.stuck_task < 2 ^ 32)
    × ((tracker_update new_tracker (replicate 8 1)).0.failure_count < 2 ^ 32)
unfolding tracker_update tracker_init
tracked_fits = (omega arith, omega arith)

health_turn-IsTurn_example :
    IsTurn started_bus 0 queue started_bus-IsRam clock started_bus-IsSeparate false
      (replicate 8 1)
      monitor
      (health_turn started_bus 0 queue clock false (replicate 8 1) monitor)
health_turn-IsTurn_example =
    health_turn-IsTurn started_bus 0 queue started_bus-IsRam clock started_bus-IsSeparate false
      (replicate 8 1) monitor started_log-IsLog (omega arith) tracked_fits.0 tracked_fits.1

abbrev beats : Msgq Heartbeat
beats = bounded_queue Heartbeat 4

abbrev start_beats : Beats memory 0 queue clock beats
start_beats = record {
  queue = ([], omega arith);
  sequence = 1;
  drop_count = 0;
  producer_epoch = 0;
  monitor_epoch = 0;
  log = start_log;
  generation = 5;
}

start_beats-IsFresh : IsFresh memory 0 queue ram clock beats start_beats
start_beats-IsFresh = record {
  silent = refl;
  undropped = refl;
  is_log = start_log-IsLog;
  generation_fits = omega arith;
}

abbrev one_beat : Beats memory 0 queue clock beats
one_beat = producer_turn memory 0 queue clock beats start_beats

Beating-total_example :
    (0 + length (beats.contents one_beat.queue) + one_beat.drop_count ≡ 1)
    × ((t : Beats memory 0 queue clock beats) × (monitor_turn memory 0 queue clock beats one_beat
          ≡ some t))
Beating-total_example =
    Beating-total memory 0 queue ram clock beats start_beats 1 0 one_beat start_beats-IsFresh
      (omega arith) (produces begins)
