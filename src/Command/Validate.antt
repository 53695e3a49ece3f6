-- ===== src/Command/Validate.antt =====
-- `vams_validate_command` decides the specification.
use virtual_accelerator_mana.Base.{ℕ, ◌%◌, ◌≤◌, ◌⊎◌, inl, inr, ◌<◌, ◌≡◌, ◌↔◌, bit_or, arith}
use virtual_accelerator_mana.Base.Bits.{
  bit_and_one, bit_and_three, bit_and_clear_low, bit_or-mod_four,
}
use virtual_accelerator_mana.Abi.{
  Submission, IsSubmission, err_none, op_nop, op_mem_copy, op_mem_fill, op_crc32, op_vector_add,
}
use virtual_accelerator_mana.Command.{
  validate_command, payload_checks, copy_checks, fill_checks, crc32_checks, vector_checks,
  flag_checks, nop_checks, tail_checks,
}
use virtual_accelerator_mana.Command.Spec.{
  IsPlain, IsOperation, Fits, Disjoint, IsTransfer, IsAcceptable,
}
use virtual_accelerator_mana.Command.Ranges.{range_overflows_iff, ranges_overlap_iff}

module _ (s : Submission) (w : IsSubmission s) where
  copy_checks_iff :
      s.opcode ≡ op_mem_copy
      → (payload_checks s ≡ err_none) ↔ (
          IsTransfer s.length
          × (0 < s.source_dma)
          × (0 < s.destination_dma)
          × Fits s.source_dma s.length
          × Fits s.destination_dma s.length
          × Disjoint s.source_dma s.destination_dma s.length)
  unfolding payload_checks copy_checks fill_checks crc32_checks vector_checks
  copy_checks_iff o = ground (
    arith,
    range_overflows_iff s.source_dma s.length w.source_fits,
    range_overflows_iff s.destination_dma s.length w.destination_fits,
    ranges_overlap_iff s.source_dma s.destination_dma s.length,
  )

  fill_checks_iff :
      s.opcode ≡ op_mem_fill
      → (payload_checks s ≡ err_none) ↔ (
          IsTransfer s.length
          × (0 < s.source_dma)
          × (0 < s.destination_dma)
          × Fits s.destination_dma s.length)
  unfolding payload_checks copy_checks fill_checks crc32_checks vector_checks
  fill_checks_iff o =
      ground (arith, range_overflows_iff s.destination_dma s.length w.destination_fits)

  crc32_checks_iff :
      s.opcode ≡ op_crc32
      → (payload_checks s ≡ err_none) ↔ (
          IsTransfer s.length
          × (0 < s.source_dma)
          × Fits s.source_dma s.length
          × (s.destination_dma ≡ 0))
  unfolding payload_checks copy_checks fill_checks crc32_checks vector_checks
  crc32_checks_iff o = ground (arith, range_overflows_iff s.source_dma s.length w.source_fits)

  vector_checks_iff :
      s.opcode ≡ op_vector_add
      → (payload_checks s ≡ err_none) ↔ (
          IsTransfer s.length
          × (s.length % 4 ≡ 0)
          × (0 < s.source_dma)
          × (0 < s.destination_dma)
          × (s.source_dma % 4 ≡ 0)
          × (s.destination_dma % 4 ≡ 0)
          × Fits s.source_dma s.length
          × Fits s.destination_dma s.length
          × Disjoint s.source_dma s.destination_dma s.length)
  unfolding payload_checks copy_checks fill_checks crc32_checks vector_checks
  vector_checks_iff o = ground (
    arith,
    bit_and_three s.length,
    bit_and_three (bit_or s.source_dma s.destination_dma),
    bit_or-mod_four s.source_dma s.destination_dma,
    range_overflows_iff s.source_dma s.length w.source_fits,
    range_overflows_iff s.destination_dma s.length w.destination_fits,
    ranges_overlap_iff s.source_dma s.destination_dma s.length,
  )

  payload_checks_nop : s.opcode ≡ op_nop → payload_checks s ≡ err_none
  unfolding payload_checks copy_checks fill_checks crc32_checks vector_checks
  payload_checks_nop o = ground arith

  flag_checks_iff :
      (next : ℕ)
      → (flag_checks s next ≡ err_none)
        ↔ (IsPlain s ⊎ (s.opcode ≡ op_crc32) × (s.flags ≡ 1)) × (next ≡ err_none)
  unfolding flag_checks
  flag_checks_iff next = ground (arith, bit_and_one s.flags, bit_and_clear_low s.flags w.flags_fit)

  IsOperation-iff :
      (nop_checks s (payload_checks s) ≡ err_none)
      → s.opcode ≤ op_vector_add
      → (IsPlain s ⊎ (s.opcode ≡ op_crc32) × (s.flags ≡ 1))
      → IsOperation s
  unfolding nop_checks
  IsOperation-iff h o f =
      ground (arith, copy_checks_iff, fill_checks_iff, crc32_checks_iff, vector_checks_iff)

  operation_checks :
      IsOperation s
      → (nop_checks s (payload_checks s) ≡ err_none)
        × (s.opcode ≤ op_vector_add)
        × (IsPlain s ⊎ (s.opcode ≡ op_crc32) × (s.flags ≡ 1))
  unfolding nop_checks
  operation_checks (inl h) = ground (arith, payload_checks_nop)
  operation_checks (inr (inl h)) = ground (arith, copy_checks_iff)
  operation_checks (inr (inr (inl h))) = ground (arith, fill_checks_iff)
  operation_checks (inr (inr (inr (inl h)))) = ground (arith, crc32_checks_iff)
  operation_checks (inr (inr (inr (inr h)))) = ground (arith, vector_checks_iff)

  -- A descriptor whose fields fit their widths is accepted exactly where it satisfies the
  -- specification.
  pub validate_command_iff : (validate_command s ≡ err_none) ↔ IsAcceptable s
  unfolding validate_command tail_checks
  validate_command_iff = (
    λ h. ground (arith, flag_checks_iff (tail_checks s), IsOperation-iff),
    λ a. ground (
      arith,
      a.common,
      a.operation,
      flag_checks_iff (tail_checks s),
      operation_checks a.operation,
    ),
  )
