-- ===== src/Command/Errors.antt =====
-- What each error code of `vams_validate_command` says of the descriptor.
use virtual_accelerator_mana.Base.{ℕ, ◌%◌, ◌<◌, ◌≡◌, ◌≢◌, ◌⊎◌, bit_or, arith}
use virtual_accelerator_mana.Base.Bits.{
  bit_and_one, bit_and_three, bit_and_clear_low, bit_or-mod_four,
}
use virtual_accelerator_mana.Abi.{
  Submission, IsSubmission, op_nop, op_mem_copy, op_mem_fill, op_crc32, op_vector_add,
  desc_version_1, err_unsupported_version, err_invalid_opcode, err_invalid_flags,
  err_reserved_nonzero, err_invalid_length, err_invalid_alignment, err_address_overflow,
  err_invalid_address, err_invalid_timeout, err_none,
}
use virtual_accelerator_mana.Command.{
  max_timeout_ms, validate_command, payload_checks, copy_checks, fill_checks, crc32_checks,
  vector_checks, flag_checks, nop_checks, tail_checks,
}
use virtual_accelerator_mana.Command.Spec.{Fits, Disjoint, IsTransfer}
use virtual_accelerator_mana.Command.Ranges.{range_overflows_iff, ranges_overlap_iff}

-- The operations that read `length` bytes at their source, and that write as many.
abbrev pub IsReader : Submission → Type 0
IsReader s = (s.opcode ≡ op_mem_copy) ⊎ (s.opcode ≡ op_crc32) ⊎ (s.opcode ≡ op_vector_add)

abbrev pub IsWriter : Submission → Type 0
IsWriter s = (s.opcode ≡ op_mem_copy) ⊎ (s.opcode ≡ op_mem_fill) ⊎ (s.opcode ≡ op_vector_add)

-- The fault that a code names is there, in a field that the operation of the descriptor uses so.
pub record IsTruthful (s : Submission) (code : ℕ) : Type 0 where
  pub version : code ≡ err_unsupported_version → s.version ≢ desc_version_1
  pub opcode : code ≡ err_invalid_opcode → op_vector_add < s.opcode
  pub flags : code ≡ err_invalid_flags → (0 < s.flags) × (s.opcode ≡ op_crc32 → 1 < s.flags)
  pub reserved :
      code ≡ err_reserved_nonzero
      → ((0 < s.expected_crc) × (s.opcode ≡ op_crc32 → s.flags % 2 ≡ 0))
        ⊎ (0 < s.reserved0)
        ⊎ (0 < s.reserved1)
        ⊎ (0 < s.reserved2)
  pub timeout : code ≡ err_invalid_timeout → max_timeout_ms < s.timeout_ms
  pub size :
      code ≡ err_invalid_length
      → ((s.opcode ≡ op_nop) × (0 < s.length))
        ⊎ ((s.opcode ≢ op_nop) × (¬ IsTransfer s.length))
        ⊎ ((s.opcode ≡ op_vector_add) × (s.length % 4 ≢ 0))
  pub alignment :
      code ≡ err_invalid_alignment
      → (s.opcode ≡ op_vector_add) × ((s.source_dma % 4 ≢ 0) ⊎ (s.destination_dma % 4 ≢ 0))
  pub overflow :
      code ≡ err_address_overflow
      → (IsReader s × (¬ Fits s.source_dma s.length))
        ⊎ (IsWriter s × (¬ Fits s.destination_dma s.length))
  pub address :
      code ≡ err_invalid_address
      → ((s.opcode ≢ op_nop) × (s.source_dma ≡ 0))
        ⊎ (IsWriter s × (s.destination_dma ≡ 0))
        ⊎ (IsReader s × IsWriter s × (¬ Disjoint s.source_dma s.destination_dma s.length))
        ⊎ ((s.opcode ≡ op_nop) × ((0 < s.source_dma) ⊎ (0 < s.destination_dma)))
        ⊎ ((s.opcode ≡ op_crc32) × (0 < s.destination_dma))

module _ (s : Submission) (w : IsSubmission s) where
  copy_checks-IsTruthful : (next : ℕ) → IsTruthful s next → IsTruthful s (copy_checks s next)
  unfolding copy_checks
  copy_checks-IsTruthful next t = ground (
    arith,
    range_overflows_iff s.source_dma s.length w.source_fits,
    range_overflows_iff s.destination_dma s.length w.destination_fits,
    ranges_overlap_iff s.source_dma s.destination_dma s.length,
  )

  fill_checks-IsTruthful : (next : ℕ) → IsTruthful s next → IsTruthful s (fill_checks s next)
  unfolding fill_checks
  fill_checks-IsTruthful next t =
      ground (arith, range_overflows_iff s.destination_dma s.length w.destination_fits)

  crc32_checks-IsTruthful : (next : ℕ) → IsTruthful s next → IsTruthful s (crc32_checks s next)
  unfolding crc32_checks
  crc32_checks-IsTruthful next t =
      ground (arith, range_overflows_iff s.source_dma s.length w.source_fits)

  vector_checks-IsTruthful : (next : ℕ) → IsTruthful s next → IsTruthful s (vector_checks s next)
  unfolding vector_checks
  vector_checks-IsTruthful next t = ground (
    arith,
    bit_and_three s.length,
    bit_and_three (bit_or s.source_dma s.destination_dma),
    bit_or-mod_four s.source_dma s.destination_dma,
    range_overflows_iff s.source_dma s.length w.source_fits,
    range_overflows_iff s.destination_dma s.length w.destination_fits,
    ranges_overlap_iff s.source_dma s.destination_dma s.length,
  )

  flag_checks-IsTruthful : (next : ℕ) → IsTruthful s next → IsTruthful s (flag_checks s next)
  unfolding flag_checks
  flag_checks-IsTruthful next t =
      ground (arith, bit_and_one s.flags, bit_and_clear_low s.flags w.flags_fit)

  nop_checks-IsTruthful : (next : ℕ) → IsTruthful s next → IsTruthful s (nop_checks s next)
  unfolding nop_checks
  nop_checks-IsTruthful next t = ground arith

  none-IsTruthful : IsTruthful s err_none
  none-IsTruthful = ground arith

  payload_checks-IsTruthful : IsTruthful s (payload_checks s)
  unfolding payload_checks
  payload_checks-IsTruthful = copy_checks-IsTruthful _ (
      fill_checks-IsTruthful _
        (crc32_checks-IsTruthful _ (vector_checks-IsTruthful _ none-IsTruthful)))

  tail_checks-IsTruthful : IsTruthful s (tail_checks s)
  unfolding tail_checks
  tail_checks-IsTruthful = ground (arith, nop_checks-IsTruthful _ payload_checks-IsTruthful)

  -- Of a descriptor whose fields fit their widths, each error code names a fault that
  -- is there: a length, a range or an address that the operation of the descriptor does not allow.
  pub validate_command-IsTruthful : IsTruthful s (validate_command s)
  unfolding validate_command
  validate_command-IsTruthful = ground (arith, flag_checks-IsTruthful _ tail_checks-IsTruthful)
