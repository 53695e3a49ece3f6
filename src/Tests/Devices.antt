-- ===== src/Tests/Devices.antt =====
-- The portal and the mailbox on a bus of plain memory, and a queue of the tasks
-- (vams_command_portal.c, vams_mailbox.c, main.c).
use virtual_accelerator_mana.Base.{
  ℕ, ◌+◌, ◌≡◌, true, [], some, none, if◌then◌else◌, ◌==◌, arith, refl,
}
use virtual_accelerator_mana.Abi.{Submission, IsSubmission, Completion, IsCompletion}
use virtual_accelerator_mana.Zephyr.{Msgq}
use virtual_accelerator_mana.Zephyr.Model.{memory, memory-IsRam, bounded_queue}
use virtual_accelerator_mana.Zephyr.Words.{write_words, write_words-Holds}
use virtual_accelerator_mana.Portal.{
  submission_words, completion_words, completion_of_words, f2h_pending, fw_complete, result_pending,
  fw_abort, fw_ack, complete, abort, receive, await, h2f_pending,
}
use virtual_accelerator_mana.Portal.Layout.{completion_of_words-completion_words}
use virtual_accelerator_mana.Portal.Handover.{
  HandsOver, complete-HandsOver, receive-submission_words,
}
use virtual_accelerator_mana.Mailbox.{mailbox_isr}
use virtual_accelerator_mana.Mailbox.Messages.{Taken, mailbox_isr-Taken}
use virtual_accelerator_mana.Tasks.{TaskQueue, queue_put, Publishing}
use virtual_accelerator_mana.Tasks.Queueing.{Put, queue_put-Put}

abbrev fill_command : Submission
fill_command = record {
  version = 1;
  opcode = 2;
  flags = 0;
  command_id = 77;
  source_dma = 0xaa;
  destination_dma = 0x1_0000_2000;
  length = 4096;
  timeout_ms = 50;
  user_cookie = 0xdead_beef_0000_0001;
  expected_crc = 0;
  reserved0 = 0;
  reserved1 = 0;
  reserved2 = 0;
}

abbrev fill_completion : Completion
fill_completion = record {
  command_id = 77;
  status = 0;
  error_code = 0;
  bytes_processed = 4096;
  result_crc = 0;
  user_cookie = 0xdead_beef_0000_0001;
  device_timestamp = 123456;
}

fill_command-IsSubmission : IsSubmission fill_command
fill_command-IsSubmission = omega arith

fill_completion-IsCompletion : IsCompletion fill_completion
fill_completion-IsCompletion = omega arith

completion_of_words-completion_words_example :
    completion_of_words (completion_words fill_completion) ≡ fill_completion
completion_of_words-completion_words_example =
    completion_of_words-completion_words fill_completion fill_completion-IsCompletion

abbrev quiet_device : ℕ → ℕ
quiet_device a = 0

complete-HandsOver_example :
    HandsOver memory 0
      (memory-IsRam 512 8)
      f2h_pending
      fw_complete
      fill_completion
      quiet_device
      (complete memory 0 fill_completion quiet_device)
    × HandsOver memory 0
        (memory-IsRam 512 8)
        result_pending
        fw_abort
        fill_completion
        quiet_device
        (abort memory 0 fill_completion quiet_device)
complete-HandsOver_example =
    complete-HandsOver memory 0 (memory-IsRam 512 8) fill_completion quiet_device
      fill_completion-IsCompletion

-- The host has stored a command and set the pending bit.
abbrev loaded_device : ℕ → ℕ
loaded_device =
    write_words memory 256 (submission_words fill_command) 0
      (λ a. if a == 0 then h2f_pending else 0)

loaded_device-await : await memory 0 (λ d. d) h2f_pending 0 loaded_device ≡ (loaded_device, true)
unfolding await write_words submission_words
loaded_device-await = refl

receive-submission_words_example : receive memory 0 (λ d. d) 0 loaded_device ≡ (
    if true
    then (memory.write32 1 (0 + fw_ack) loaded_device, some fill_command)
    else (loaded_device, none))
unfolding submission_words
receive-submission_words_example =
    receive-submission_words memory 0 (λ d. d) (memory-IsRam 256 16) fill_command 0 loaded_device
      loaded_device true fill_command-IsSubmission loaded_device-await
      (write_words-Holds memory 256 16 (memory-IsRam 256 16) (submission_words fill_command) 0 _
        (omega arith))

-- A message 42 is pending, and there is room.
abbrev ringing_device : ℕ → ℕ
ringing_device a = if a == 16 then 1 else if a == 0 then 42 else 0

abbrev messages : Msgq ℕ
messages = bounded_queue ℕ 4

abbrev no_messages : messages.Queue
no_messages = ([], omega arith)

mailbox_isr-Taken_example :
    Taken memory 0 messages ringing_device no_messages
      (mailbox_isr memory 0 messages ringing_device no_messages)
mailbox_isr-Taken_example = mailbox_isr-Taken memory 0 messages ringing_device no_messages

abbrev ready_queue : TaskQueue ℕ messages
ready_queue = record { queue = no_messages; high_water = 0; overloads = 0 }

queue_put-Put_example : Put ℕ messages 5 ready_queue (queue_put ℕ messages 5 ready_queue)
queue_put-Put_example = queue_put-Put ℕ messages 5 ready_queue (omega arith)

-- The host never takes the completion before.
abbrev stalled_portal : Publishing memory
stalled_portal = record {
  device = λ a. if a == 0 then f2h_pending else 0;
  clock_reads = 3;
  stalls = 0;
}
