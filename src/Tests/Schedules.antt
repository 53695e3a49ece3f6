-- ===== src/Tests/Schedules.antt =====
-- A command object from its capture on, and a choice among three (vams_scheduler.c, main.c).
use virtual_accelerator_mana.Base.{ℕ, ◌≡◌, ◌≤◌, ◌+◌, ◌-◌, some, List, [], ◌∷◌, arith, refl}
use virtual_accelerator_mana.Abi.{Submission, Completion, op_nop}
use virtual_accelerator_mana.Zephyr.Model.{memory}
use virtual_accelerator_mana.Log.{Log}
use virtual_accelerator_mana.Log.Invariant.{IsLog}
use virtual_accelerator_mana.Scheduler.{CommandObject, free}
use virtual_accelerator_mana.Scheduler.Edges.{
  Operation, captures, perform, HasPerformed, perform-HasPerformed,
}
use virtual_accelerator_mana.Scheduler.Totality.{IsNamed, perform_total}
use virtual_accelerator_mana.Scheduler.Publication.{Life, done, call, publications_le_captures}
use virtual_accelerator_mana.Tasks.{scheduler_select}
use virtual_accelerator_mana.Tasks.Select.{IsFirstLeast, scheduler_select-IsFirstLeast}
use virtual_accelerator_mana.Tests.Logs.{queue, ram, clock, start_log, start_log-IsLog}

abbrev nop_command : Submission
nop_command = record {
  version = 1;
  opcode = op_nop;
  flags = 0;
  command_id = 7;
  source_dma = 0;
  destination_dma = 0;
  length = 0;
  timeout_ms = 100;
  user_cookie = 9;
  expected_crc = 0;
  reserved0 = 0;
  reserved1 = 0;
  reserved2 = 0;
}

abbrev no_completion : Completion
no_completion = record {
  command_id = 0;
  status = 0;
  error_code = 0;
  bytes_processed = 0;
  result_crc = 0;
  user_cookie = 0;
  device_timestamp = 0;
}

abbrev start_command : CommandObject
start_command = record {
  submission = nop_command;
  completion = no_completion;
  captured_at_ms = 0;
  deadline_ms = 0;
  generation = 0;
  sequence = 0;
  state = free;
  publication_count = 0;
}

abbrev capture_call : Operation
capture_call = captures 5 1 1000

start_command-IsNamed : IsNamed start_command
start_command-IsNamed = omega arith

perform_total_example :
    (c : CommandObject) × (l : Log memory queue) × (perform memory 0 queue clock capture_call
        start_command start_log
      ≡ some (c, l))
    × IsLog memory 0 queue ram l
perform_total_example =
    perform_total memory 0 queue ram clock capture_call start_command start_log start_log-IsLog
      start_command-IsNamed (refl, omega arith)

abbrev captured :
    (c : CommandObject) × (l : Log memory queue) × (perform memory 0 queue clock capture_call
        start_command start_log
      ≡ some (c, l))
    × IsLog memory 0 queue ram l
captured =
    perform_total memory 0 queue ram clock capture_call start_command start_log start_log-IsLog
      start_command-IsNamed (refl, omega arith)

perform-HasPerformed_example :
    HasPerformed memory 0 queue clock capture_call start_command captured.0
perform-HasPerformed_example =
    perform-HasPerformed memory 0 queue clock capture_call start_command captured.0 start_log
      captured.1 captured.2

first-Life : Life memory 0 queue clock start_command 1 0 captured.0
first-Life = call capture_call start_log captured.1 captured.2 done

publications_le_captures_example : 0 ≤ 1 + (1 - 0)
publications_le_captures_example =
    publications_le_captures memory 0 queue clock start_command captured.0 1 0 first-Life

abbrev ready : List CommandObject
ready =
    record start_command { deadline_ms = 900; sequence = 1 }
    ∷ record start_command { deadline_ms = 500; sequence = 3 }
    ∷ record start_command { deadline_ms = 500; sequence = 2 }
    ∷ []

scheduler_select-IsFirstLeast_example :
    (best : ℕ) × (scheduler_select ready 3 ≡ some best) × IsFirstLeast ready 3 best
scheduler_select-IsFirstLeast_example =
    scheduler_select-IsFirstLeast ready 3 (omega arith) (omega arith)
