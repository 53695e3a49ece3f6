-- ===== src/Command/Spec.antt =====
-- What a descriptor must satisfy to be accepted, over unbounded numbers: no wrapping arithmetic
-- and no bit operations.
use virtual_accelerator_mana.Base.{ℕ, ◌+◌, ◌%◌, ◌^◌, ◌≤◌, ◌<◌, ◌≡◌, ◌⊎◌}
use virtual_accelerator_mana.Abi.{
  Submission, op_nop, op_mem_copy, op_mem_fill, op_crc32, op_vector_add, desc_version_1,
}
use virtual_accelerator_mana.Command.{max_timeout_ms, max_transfer_size}

-- The bytes from `address` lie in the 64-bit address space.
abbrev pub Fits : ℕ → ℕ → Type 0
Fits address size = address + size ≤ 2 ^ 64

abbrev pub Disjoint : ℕ → ℕ → ℕ → Type 0
Disjoint first second size = (first + size ≤ second) ⊎ (second + size ≤ first)

abbrev pub IsTransfer : ℕ → Type 0
IsTransfer size = (0 < size) × (size ≤ max_transfer_size)

-- What every opcode asks for.
pub record IsCommon (s : Submission) : Type 0 where
  pub is_version_1 : s.version ≡ desc_version_1
  pub timeout_bounded : s.timeout_ms ≤ max_timeout_ms
  pub reserved0_zero : s.reserved0 ≡ 0
  pub reserved1_zero : s.reserved1 ≡ 0
  pub reserved2_zero : s.reserved2 ≡ 0

abbrev pub IsPlain : Submission → Type 0
IsPlain s = (s.flags ≡ 0) × (s.expected_crc ≡ 0)

abbrev pub IsNop : Submission → Type 0
IsNop s =
    (s.opcode ≡ op_nop) × IsPlain s × (s.length ≡ 0) × (s.source_dma ≡ 0) × (s.destination_dma ≡ 0)

abbrev pub IsCopy : Submission → Type 0
IsCopy s =
    (s.opcode ≡ op_mem_copy)
    × IsPlain s
    × IsTransfer s.length
    × (0 < s.source_dma)
    × (0 < s.destination_dma)
    × Fits s.source_dma s.length
    × Fits s.destination_dma s.length
    × Disjoint s.source_dma s.destination_dma s.length

-- A fill reads one byte at its source, which fits the address space wherever it lies.
abbrev pub IsFill : Submission → Type 0
IsFill s =
    (s.opcode ≡ op_mem_fill)
    × IsPlain s
    × IsTransfer s.length
    × (0 < s.source_dma)
    × (0 < s.destination_dma)
    × Fits s.destination_dma s.length

-- An expected CRC is given exactly under the flag that asks for its verification.
abbrev pub IsCrc32 : Submission → Type 0
IsCrc32 s =
    (s.opcode ≡ op_crc32)
    × ((s.flags ≡ 1) ⊎ IsPlain s)
    × IsTransfer s.length
    × (0 < s.source_dma)
    × Fits s.source_dma s.length
    × (s.destination_dma ≡ 0)

abbrev pub IsVectorAdd : Submission → Type 0
IsVectorAdd s =
    (s.opcode ≡ op_vector_add)
    × IsPlain s
    × IsTransfer s.length
    × (s.length % 4 ≡ 0)
    × (0 < s.source_dma)
    × (0 < s.destination_dma)
    × (s.source_dma % 4 ≡ 0)
    × (s.destination_dma % 4 ≡ 0)
    × Fits s.source_dma s.length
    × Fits s.destination_dma s.length
    × Disjoint s.source_dma s.destination_dma s.length

abbrev pub IsOperation : Submission → Type 0
IsOperation s = IsNop s ⊎ IsCopy s ⊎ IsFill s ⊎ IsCrc32 s ⊎ IsVectorAdd s

pub record IsAcceptable (s : Submission) : Type 0 where
  pub common : IsCommon s
  pub operation : IsOperation s
