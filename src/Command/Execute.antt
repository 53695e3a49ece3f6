-- ===== src/Command/Execute.antt =====
-- `vams_command_execute`: the completion that the checks give.
use virtual_accelerator_mana.Base.{ℕ, ◌^◌, ◌<◌, ◌≡◌, ◌⊎◌, ◌↔◌, arith}
use virtual_accelerator_mana.Abi.{
  Submission, Completion, IsSubmission, IsCompletion, err_none, status_success, status_invalid,
}
use virtual_accelerator_mana.Command.{
  validate_command, command_execute, copy_checks, fill_checks, crc32_checks, vector_checks,
  payload_checks, flag_checks, nop_checks, tail_checks,
}
use virtual_accelerator_mana.Command.Spec.{IsAcceptable}
use virtual_accelerator_mana.Command.Validate.{validate_command_iff}

payload_checks-lt : (s : Submission) → payload_checks s < 2 ^ 8
unfolding payload_checks copy_checks fill_checks crc32_checks vector_checks
payload_checks-lt s = ground arith

tail_checks-lt : (s : Submission) → tail_checks s < 2 ^ 8
unfolding tail_checks nop_checks
tail_checks-lt s = ground (arith, payload_checks-lt s)

pub validate_command-lt : (s : Submission) → validate_command s < 2 ^ 8
unfolding validate_command flag_checks
validate_command-lt s = ground (arith, tail_checks-lt s)

-- What a first completion says of its descriptor.
pub record Answers (s : Submission) (now : ℕ) (c : Completion) : Type 0 where
  pub well_formed : IsCompletion c
  pub success_iff : (c.status ≡ status_success) ↔ IsAcceptable s
  pub no_error_iff : (c.error_code ≡ err_none) ↔ IsAcceptable s
  pub two_statuses : (c.status ≡ status_success) ⊎ (c.status ≡ status_invalid)
  pub same_id : c.command_id ≡ s.command_id
  pub same_cookie : c.user_cookie ≡ s.user_cookie
  pub no_bytes : c.bytes_processed ≡ 0
  pub no_crc : c.result_crc ≡ 0
  pub stamped : c.device_timestamp ≡ now

-- The completion of a descriptor whose fields fit their widths, at a 64-bit time, fits its own
-- widths, reports success and no error exactly for an acceptable descriptor and else the status
-- invalid, repeats the command's identity and cookie, and carries the time, no bytes and no CRC.
pub command_execute-Answers :
    (s : Submission) (now : ℕ)
    → IsSubmission s
    → now < 2 ^ 64
    → Answers s now (command_execute s now)
unfolding command_execute
command_execute-Answers s now w t = record {
  well_formed = ground (arith, validate_command-lt s);
  success_iff = ground (arith, validate_command_iff s w);
  no_error_iff = validate_command_iff s w;
  two_statuses = ground arith;
  same_id = ground arith;
  same_cookie = ground arith;
  no_bytes = ground arith;
  no_crc = ground arith;
  stamped = ground arith;
}
