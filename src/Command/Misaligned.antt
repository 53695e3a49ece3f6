-- ===== src/Command/Misaligned.antt =====
-- The answer to a vector addition whose only fault is an unaligned address.
use virtual_accelerator_mana.Base.{◌%◌, ◌<◌, ◌≡◌, ◌≢◌, ◌⊎◌, bit_or, arith}
use virtual_accelerator_mana.Base.Bits.{bit_and_three, bit_or-mod_four}
use virtual_accelerator_mana.Abi.{Submission, op_vector_add, err_invalid_alignment}
use virtual_accelerator_mana.Command.{
  validate_command, flag_checks, tail_checks, nop_checks, payload_checks, copy_checks, fill_checks,
  crc32_checks, vector_checks,
}
use virtual_accelerator_mana.Command.Spec.{IsCommon, IsPlain, IsTransfer}

pub record IsMisaligned (s : Submission) : Type 0 where
  pub common : IsCommon s
  pub is_vector : s.opcode ≡ op_vector_add
  pub plain : IsPlain s
  pub transfer : IsTransfer s.length
  pub whole : s.length % 4 ≡ 0
  pub source_given : 0 < s.source_dma
  pub destination_given : 0 < s.destination_dma
  pub unaligned : (s.source_dma % 4 ≢ 0) ⊎ (s.destination_dma % 4 ≢ 0)

vector_checks-IsMisaligned :
    (s : Submission) → IsMisaligned s → payload_checks s ≡ err_invalid_alignment
unfolding payload_checks copy_checks fill_checks crc32_checks vector_checks
vector_checks-IsMisaligned s h = ground (
  arith,
  bit_and_three s.length,
  bit_and_three (bit_or s.source_dma s.destination_dma),
  bit_or-mod_four s.source_dma s.destination_dma,
)

pub validate_command-IsMisaligned :
    (s : Submission) → IsMisaligned s → validate_command s ≡ err_invalid_alignment
unfolding validate_command flag_checks tail_checks nop_checks
validate_command-IsMisaligned s h = ground (arith, vector_checks-IsMisaligned s h)
