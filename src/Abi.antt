-- ===== src/Abi.antt =====
-- firmware/include/vams_abi.h: the descriptor and completion of the host interface, version 1.
-- Both are packed little-endian structures. A field of these records is the number that the
-- field's bytes hold in that order, so `sys_leN_to_cpu` of a field reads it and storing
-- `sys_cpu_to_leN` of a value writes it, on a CPU of either byte order.
use virtual_accelerator_mana.Base.{ℕ, ◌^◌, ◌<◌}

pub record Submission : Type 0 where
  pub version : ℕ
  pub opcode : ℕ
  pub flags : ℕ
  pub command_id : ℕ
  pub source_dma : ℕ
  pub destination_dma : ℕ
  pub length : ℕ
  pub timeout_ms : ℕ
  pub user_cookie : ℕ
  pub expected_crc : ℕ
  pub reserved0 : ℕ
  pub reserved1 : ℕ
  pub reserved2 : ℕ

pub record Completion : Type 0 where
  pub command_id : ℕ
  pub status : ℕ
  pub error_code : ℕ
  pub bytes_processed : ℕ
  pub result_crc : ℕ
  pub user_cookie : ℕ
  pub device_timestamp : ℕ

-- Every field fits the width that the structure gives it.
pub record IsSubmission (s : Submission) : Type 0 where
  pub version_fits : s.version < 2 ^ 16
  pub opcode_fits : s.opcode < 2 ^ 8
  pub flags_fit : s.flags < 2 ^ 8
  pub command_id_fits : s.command_id < 2 ^ 32
  pub source_fits : s.source_dma < 2 ^ 64
  pub destination_fits : s.destination_dma < 2 ^ 64
  pub length_fits : s.length < 2 ^ 32
  pub timeout_fits : s.timeout_ms < 2 ^ 32
  pub cookie_fits : s.user_cookie < 2 ^ 64
  pub crc_fits : s.expected_crc < 2 ^ 32
  pub reserved0_fits : s.reserved0 < 2 ^ 32
  pub reserved1_fits : s.reserved1 < 2 ^ 64
  pub reserved2_fits : s.reserved2 < 2 ^ 64

pub record IsCompletion (c : Completion) : Type 0 where
  pub command_id_fits : c.command_id < 2 ^ 32
  pub status_fits : c.status < 2 ^ 16
  pub error_fits : c.error_code < 2 ^ 16
  pub bytes_fit : c.bytes_processed < 2 ^ 32
  pub crc_fits : c.result_crc < 2 ^ 32
  pub cookie_fits : c.user_cookie < 2 ^ 64
  pub timestamp_fits : c.device_timestamp < 2 ^ 64

abbrev pub desc_version_1 : ℕ
desc_version_1 = 1

abbrev pub sub_f_verify_crc : ℕ
sub_f_verify_crc = 1

abbrev pub op_nop : ℕ
op_nop = 0

abbrev pub op_mem_copy : ℕ
op_mem_copy = 1

abbrev pub op_mem_fill : ℕ
op_mem_fill = 2

abbrev pub op_crc32 : ℕ
op_crc32 = 3

abbrev pub op_vector_add : ℕ
op_vector_add = 4

abbrev pub status_success : ℕ
status_success = 0

abbrev pub status_invalid : ℕ
status_invalid = 1

abbrev pub status_failed : ℕ
status_failed = 2

abbrev pub status_timed_out : ℕ
status_timed_out = 3

abbrev pub status_cancelled : ℕ
status_cancelled = 4

abbrev pub status_reset : ℕ
status_reset = 5

abbrev pub err_none : ℕ
err_none = 0

abbrev pub err_unsupported_version : ℕ
err_unsupported_version = 1

abbrev pub err_invalid_opcode : ℕ
err_invalid_opcode = 2

abbrev pub err_invalid_flags : ℕ
err_invalid_flags = 3

abbrev pub err_reserved_nonzero : ℕ
err_reserved_nonzero = 4

abbrev pub err_duplicate_id : ℕ
err_duplicate_id = 5

abbrev pub err_invalid_length : ℕ
err_invalid_length = 6

abbrev pub err_invalid_alignment : ℕ
err_invalid_alignment = 7

abbrev pub err_address_overflow : ℕ
err_address_overflow = 8

abbrev pub err_invalid_address : ℕ
err_invalid_address = 9

abbrev pub err_invalid_timeout : ℕ
err_invalid_timeout = 10

abbrev pub err_dma_read : ℕ
err_dma_read = 16

abbrev pub err_dma_write : ℕ
err_dma_write = 17

abbrev pub err_engine : ℕ
err_engine = 18

abbrev pub err_timeout : ℕ
err_timeout = 19

abbrev pub err_crc_mismatch : ℕ
err_crc_mismatch = 20

abbrev pub err_reset : ℕ
err_reset = 21

abbrev pub err_queue_reset : ℕ
err_queue_reset = 22

abbrev pub err_device_fatal : ℕ
err_device_fatal = 23
