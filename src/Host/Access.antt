-- ===== src/Host/Access.antt =====
-- kernel/vams_pci.c: what a submission asks for, the lookup of its buffers, and the descriptor that
-- it becomes (vams_mapping_lookup_locked and the checks of vams_ioctl_submit).
pub mod Lookup
pub mod Accepted
use virtual_accelerator_mana.Base.{
  ℕ, ◌+◌, ◌%◌, ◌^◌, Bool, true, false, not, ◌&&◌, ◌||◌, if◌then◌else◌, ltb, leb, ◌==◌, ◌!=◌, Option,
  none, some, ◌⊎◌, inl, inr, bit_and,
}
use virtual_accelerator_mana.Abi.{
  Submission, op_nop, op_mem_copy, op_mem_fill, op_crc32, op_vector_add, desc_version_1,
}
use virtual_accelerator_mana.Command.{max_timeout_ms, max_transfer_size}
use virtual_accelerator_mana.Host.Uapi.{
  Code, enodev, einval, enoent, eacces, erange, eoverflow, IocSubmit, uapi_version, buffer_read,
  buffer_write,
}
use virtual_accelerator_mana.Host.State.{Xarray, xa_load, Mapping}

-- A mapping that a request will use, and the address in it.
pub record Target : Type 0 where
  pub mapping : ℕ
  pub dma_address : ℕ

-- The part of the lookup after the mapping was found. The address arithmetic is that of 64 bits.
unfoldable pub locate : ℕ → Mapping → ℕ → ℕ → ℕ → Code ⊎ Target
locate a mapping offset size required =
    if bit_and mapping.flags required != required
    then inl eacces
    else if ltb mapping.length (offset + size)
    then inl erange
    else if leb (2 ^ 64) (mapping.dma_addr + offset)
        || mapping.dma_addr + offset == 0
        || leb (2 ^ 64) (mapping.dma_addr + offset + size)
    then inl eoverflow
    else inr (record { mapping = a; dma_address = mapping.dma_addr + offset })

unfoldable pub mapping_lookup : (ℕ → Mapping) → Xarray → ℕ → ℕ → ℕ → ℕ → Code ⊎ Target
mapping_lookup mapping_at mappings handle offset size required =
    if handle == 0 || leb (2 ^ 64) (offset + size)
    then inl einval
    else elim (xa_load mappings handle) [
      | none ↦ inl enoent
      | some a ↦ locate a (mapping_at a) offset size required
    ]

-- The checks on the header of the request. `~VAMS_SUBMIT_VERIFY_CRC` is the 32-bit complement of 1.
unfoldable pub submit_header_ok : IocSubmit → Bool
submit_header_ok i =
    i.size == 64
    && i.version == uapi_version
    && i.command_id == 0
    && leb i.timeout_ms max_timeout_ms
    && leb i.length max_transfer_size
    && bit_and i.flags 0xffff_fffe == 0
    && not (i.opcode != op_crc32 && i.flags != 0)
    && not ((i.flags == 0 || i.opcode != op_crc32) && i.expected_crc != 0)

-- The rights asked of the two buffers, 0 for a buffer that is not used, and the length read.
pub record Wanted : Type 0 where
  pub source_access : ℕ
  pub destination_access : ℕ
  pub source_length : ℕ

-- The switch over the opcode.
unfoldable pub wanted : IocSubmit → Option Wanted
wanted i =
    if i.opcode == op_nop
    then (if i.source_handle != 0
          || i.destination_handle != 0
          || i.source_offset != 0
          || i.destination_offset != 0
          || i.length != 0
        then none
        else some (record { source_access = 0; destination_access = 0; source_length = 0 }))
    else if i.opcode == op_mem_copy
    then (if i.length == 0 || i.source_handle == 0 || i.destination_handle == 0
        then none
        else some (record {
          source_access = buffer_read;
          destination_access = buffer_write;
          source_length = i.length;
        }))
    else if i.opcode == op_mem_fill
    then (if i.length == 0 || i.source_handle == 0 || i.destination_handle == 0
        then none
        else some (record {
          source_access = buffer_read;
          destination_access = buffer_write;
          source_length = 1;
        }))
    else if i.opcode == op_crc32
    then (if i.length == 0
          || i.source_handle == 0
          || i.destination_handle != 0
          || i.destination_offset != 0
        then none
        else some (record {
          source_access = buffer_read;
          destination_access = 0;
          source_length = i.length;
        }))
    else if i.opcode == op_vector_add
    then (if ltb i.length 4
          || bit_and i.length 3 != 0
          || i.source_handle == 0
          || i.destination_handle == 0
        then none
        else some (record {
          source_access = buffer_read;
          destination_access = buffer_read + buffer_write;
          source_length = i.length;
        }))
    else none

-- The two buffers of a request, where it has them.
pub record Targets : Type 0 where
  pub source : Option Target
  pub destination : Option Target

abbrev pub dma_of : Option Target → ℕ
dma_of none = 0
dma_of (some t) = t.dma_address

unfoldable pub overlap : IocSubmit → ℕ → ℕ → Bool
overlap i source_dma destination_dma =
    source_dma != 0
    && destination_dma != 0
    && i.opcode != op_mem_fill
    && ltb source_dma ((destination_dma + i.length) % 2 ^ 64)
    && ltb destination_dma ((source_dma + i.length) % 2 ^ 64)

abbrev pub optional : ℕ → Code ⊎ Target → Code ⊎ Option Target
optional access found =
    if access == 0 then inr none else elim found [ inl e ↦ inl e | inr t ↦ inr (some t) ]

-- The lookups of both buffers and the test that they are apart.
unfoldable pub find_targets : (ℕ → Mapping) → Xarray → IocSubmit → Wanted → Code ⊎ Targets
find_targets mapping_at mappings i w =
    elim (optional w.source_access (
      mapping_lookup mapping_at mappings i.source_handle i.source_offset w.source_length
        w.source_access)) [
          | inl e ↦ inl e
          | inr source ↦
              elim (optional w.destination_access (
                mapping_lookup mapping_at mappings i.destination_handle i.destination_offset
                  i.length w.destination_access)) [
                    | inl e ↦ inl e
                    | inr destination ↦
                        if overlap i (dma_of source) (dma_of destination)
                        then inl einval
                        else inr (record { source = source; destination = destination })
                  ]
        ]

-- The descriptor, without the command id that it gets when it is tracked.
unfoldable pub descriptor : IocSubmit → Targets → Submission
descriptor i t = record {
  version = desc_version_1;
  opcode = i.opcode;
  flags = i.flags;
  command_id = 0;
  source_dma = dma_of t.source;
  destination_dma = dma_of t.destination;
  length = i.length;
  timeout_ms = i.timeout_ms;
  user_cookie = i.user_cookie;
  expected_crc = i.expected_crc;
  reserved0 = 0;
  reserved1 = 0;
  reserved2 = 0;
}
