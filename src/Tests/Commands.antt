-- ===== src/Tests/Commands.antt =====
-- Descriptors that the host may send (vams_command.c).
use virtual_accelerator_mana.Base.{◌≡◌, ◌↔◌, arith}
use virtual_accelerator_mana.Abi.{Submission, IsSubmission, op_mem_copy, err_none}
use virtual_accelerator_mana.Command.{validate_command, command_execute}
use virtual_accelerator_mana.Command.Spec.{IsAcceptable}
use virtual_accelerator_mana.Command.Validate.{validate_command_iff}
use virtual_accelerator_mana.Command.Errors.{IsTruthful, validate_command-IsTruthful}
use virtual_accelerator_mana.Command.Execute.{Answers, command_execute-Answers}

abbrev copy_command : Submission
copy_command = record {
  version = 1;
  opcode = op_mem_copy;
  flags = 0;
  command_id = 7;
  source_dma = 0x1000;
  destination_dma = 0x2000;
  length = 256;
  timeout_ms = 100;
  user_cookie = 9;
  expected_crc = 0;
  reserved0 = 0;
  reserved1 = 0;
  reserved2 = 0;
}

-- The destination begins inside the source.
abbrev overlapping_command : Submission
overlapping_command = record copy_command { destination_dma = 0x1080 }

copy_command-IsSubmission : IsSubmission copy_command
copy_command-IsSubmission = omega arith

overlapping_command-IsSubmission : IsSubmission overlapping_command
overlapping_command-IsSubmission = omega arith

validate_command_iff_example :
    (validate_command copy_command ≡ err_none) ↔ IsAcceptable copy_command
validate_command_iff_example = validate_command_iff copy_command copy_command-IsSubmission

validate_command-IsTruthful_example :
    IsTruthful overlapping_command (validate_command overlapping_command)
validate_command-IsTruthful_example =
    validate_command-IsTruthful overlapping_command overlapping_command-IsSubmission

command_execute-Answers_example : Answers copy_command 5000 (command_execute copy_command 5000)
command_execute-Answers_example =
    command_execute-Answers copy_command 5000 copy_command-IsSubmission (omega arith)
