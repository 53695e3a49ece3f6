-- ===== src/Command.antt =====
-- firmware/src/command/vams_command.c: the checks on a descriptor and its first completion.
pub mod Spec
pub mod Ranges
pub mod Validate
pub mod Execute
pub mod Errors
pub mod Misaligned
use virtual_accelerator_mana.Base.{
  ℕ, ◌+◌, ◌-◌, Bool, ◌&&◌, ◌||◌, if◌then◌else◌, ltb, leb, ◌==◌, ◌!=◌, u64, sub64, uint64_max,
  bit_and, bit_or,
}
use virtual_accelerator_mana.Abi.{
  Submission, Completion, desc_version_1, sub_f_verify_crc, op_nop, op_mem_copy, op_mem_fill,
  op_crc32, op_vector_add, status_success, status_invalid, err_none, err_unsupported_version,
  err_invalid_opcode, err_invalid_flags, err_reserved_nonzero, err_invalid_length,
  err_invalid_alignment, err_address_overflow, err_invalid_address, err_invalid_timeout,
}

abbrev pub max_timeout_ms : ℕ
max_timeout_ms = 60000

abbrev pub max_transfer_size : ℕ
max_transfer_size = 0x0100_0000

-- 64-bit arithmetic wraps, also in `length - 1` at length 0.
pub range_overflows : ℕ → ℕ → Bool
range_overflows address size = ltb (sub64 uint64_max (sub64 size 1)) address

pub ranges_overlap : ℕ → ℕ → ℕ → Bool
ranges_overlap first second size =
    let first_end = sub64 (u64 (first + size)) 1 in
    let second_end = sub64 (u64 (second + size)) 1 in leb first second_end && leb second first_end

-- The blocks for one opcode each. `next` is what follows the block.
copy_checks : Submission → ℕ → ℕ
copy_checks s next =
    if s.opcode == op_mem_copy
    then (if s.length == 0 || ltb max_transfer_size s.length
        then err_invalid_length
        else if range_overflows s.source_dma s.length || range_overflows s.destination_dma s.length
        then err_address_overflow
        else if s.source_dma == 0
            || s.destination_dma == 0
            || ranges_overlap s.source_dma s.destination_dma s.length
        then err_invalid_address
        else next)
    else next

fill_checks : Submission → ℕ → ℕ
fill_checks s next =
    if s.opcode == op_mem_fill
    then (if s.length == 0 || ltb max_transfer_size s.length
        then err_invalid_length
        else if range_overflows s.destination_dma s.length
        then err_address_overflow
        else if s.source_dma == 0 || s.destination_dma == 0
        then err_invalid_address
        else next)
    else next

crc32_checks : Submission → ℕ → ℕ
crc32_checks s next =
    if s.opcode == op_crc32
    then (if s.length == 0 || ltb max_transfer_size s.length
        then err_invalid_length
        else if range_overflows s.source_dma s.length
        then err_address_overflow
        else if s.source_dma == 0 || s.destination_dma != 0
        then err_invalid_address
        else next)
    else next

vector_checks : Submission → ℕ → ℕ
vector_checks s next =
    if s.opcode == op_vector_add
    then (if ltb s.length 4 || ltb max_transfer_size s.length || bit_and s.length 3 != 0
        then err_invalid_length
        else if s.source_dma == 0 || s.destination_dma == 0
        then err_invalid_address
        else if bit_and (bit_or s.source_dma s.destination_dma) 3 != 0
        then err_invalid_alignment
        else if range_overflows s.source_dma s.length || range_overflows s.destination_dma s.length
        then err_address_overflow
        else if ranges_overlap s.source_dma s.destination_dma s.length
        then err_invalid_address
        else next)
    else next

payload_checks : Submission → ℕ
payload_checks s = copy_checks s (fill_checks s (crc32_checks s (vector_checks s err_none)))

-- The flags and the expected CRC. `~VAMS_SUB_F_VERIFY_CRC` is the 32-bit complement of 1.
flag_checks : Submission → ℕ → ℕ
flag_checks s next =
    if (s.opcode == op_crc32 && bit_and s.flags 0xffff_fffe != 0)
      || (s.opcode != op_crc32 && s.flags != 0)
    then err_invalid_flags
    else if (s.opcode != op_crc32 || bit_and s.flags sub_f_verify_crc == 0) && s.expected_crc != 0
    then err_reserved_nonzero
    else next

nop_checks : Submission → ℕ → ℕ
nop_checks s next =
    if s.opcode == op_nop && s.length != 0
    then err_invalid_length
    else if s.opcode == op_nop && (s.source_dma != 0 || s.destination_dma != 0)
    then err_invalid_address
    else next

tail_checks : Submission → ℕ
tail_checks s =
    if s.reserved0 != 0 || s.reserved1 != 0 || s.reserved2 != 0
    then err_reserved_nonzero
    else if ltb max_timeout_ms s.timeout_ms
    then err_invalid_timeout
    else nop_checks s (payload_checks s)

pub validate_command : Submission → ℕ
validate_command s =
    if s.version != desc_version_1
    then err_unsupported_version
    else if s.opcode != op_nop
        && s.opcode != op_mem_copy
        && s.opcode != op_mem_fill
        && s.opcode != op_crc32
        && s.opcode != op_vector_add
    then err_invalid_opcode
    else flag_checks s (tail_checks s)

-- The completion is cleared first, so the byte count and the CRC are 0.
unfoldable pub command_execute : Submission → ℕ → Completion
command_execute s timestamp =
    let error = validate_command s in
    record {
      command_id = s.command_id;
      status = if error == err_none then status_success else status_invalid;
      error_code = error;
      bytes_processed = 0;
      result_crc = 0;
      user_cookie = s.user_cookie;
      device_timestamp = timestamp;
    }
