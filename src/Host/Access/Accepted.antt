-- ===== src/Host/Access/Accepted.antt =====
-- The firmware accepts what the driver submits: the checks of kernel/vams_pci.c against those of
-- firmware/src/command/vams_command.c.
use virtual_accelerator_mana.Base.{
  ℕ, ◌%◌, ◌^◌, ◌≤◌, ◌<◌, ◌≡◌, ◌≢◌, true, false, some, ◌⊎◌, inl, inr, arith,
}
use virtual_accelerator_mana.Base.Bits.{bit_and_three, bit_and_clear_low16}
use virtual_accelerator_mana.Abi.{
  Submission, IsSubmission, op_nop, op_mem_copy, op_mem_fill, op_crc32, op_vector_add, err_none,
  err_invalid_alignment,
}
use virtual_accelerator_mana.Command.{validate_command, max_timeout_ms, max_transfer_size}
use virtual_accelerator_mana.Command.Spec.{IsCommon, IsOperation}
use virtual_accelerator_mana.Command.Validate.{validate_command_iff}
use virtual_accelerator_mana.Command.Misaligned.{IsMisaligned, validate_command-IsMisaligned}
use virtual_accelerator_mana.Host.Uapi.{IocSubmit, IsIocSubmit}
use virtual_accelerator_mana.Host.State.{Xarray, Mapping}
use virtual_accelerator_mana.Host.Access.{
  Targets, Wanted, submit_header_ok, wanted, find_targets, overlap, descriptor, dma_of,
}
use virtual_accelerator_mana.Host.Access.Lookup.{find_targets-IsAddress, IsAddress}

-- The header's checks as bounds.
pub record IsHeader (i : IocSubmit) : Type 0 where
  pub timeout_bounded : i.timeout_ms ≤ max_timeout_ms
  pub length_bounded : i.length ≤ max_transfer_size
  pub flags_bounded : i.flags < 2
  pub flags_for_crc : i.opcode ≢ op_crc32 → i.flags ≡ 0
  pub crc_for_flags : (i.flags ≡ 0) ⊎ (i.opcode ≢ op_crc32) → i.expected_crc ≡ 0

submit_header_ok-IsHeader : (i : IocSubmit) → IsIocSubmit i → submit_header_ok i ≡ true → IsHeader i
unfolding submit_header_ok
submit_header_ok-IsHeader i f h = ground (arith, bit_and_clear_low16 i.flags f.flags_fit)

-- What the switch over the opcode leaves.
abbrev IsWanted : IocSubmit → Wanted → Type 0
IsWanted i w =
    (i.opcode ≡ op_nop) × (i.length ≡ 0) × (w.source_access ≡ 0) × (w.destination_access ≡ 0)
    ⊎ (i.opcode ≡ op_mem_copy)
      × (0 < i.length)
      × (0 < w.source_access)
      × (0 < w.destination_access)
      × (w.source_length ≡ i.length)
    ⊎ (i.opcode ≡ op_vector_add)
      × (i.length % 4 ≡ 0)
      × (0 < i.length)
      × (0 < w.source_access)
      × (0 < w.destination_access)
      × (w.source_length ≡ i.length)
    ⊎ (i.opcode ≡ op_mem_fill)
      × (0 < i.length)
      × (0 < w.source_access)
      × (0 < w.destination_access)
      × (w.source_length ≡ 1)
    ⊎ (i.opcode ≡ op_crc32)
      × (0 < i.length)
      × (0 < w.source_access)
      × (w.destination_access ≡ 0)
      × (w.source_length ≡ i.length)

wanted-IsWanted : (i : IocSubmit) (w : Wanted) → wanted i ≡ some w → IsWanted i w
unfolding wanted
wanted-IsWanted i w h = ground (arith, bit_and_three i.length)

-- The descriptor that is written to the ring.
abbrev pub submitted : IocSubmit → Targets → ℕ → Submission
submitted i t id = record (descriptor i t) { command_id = id }

-- Every address fits, and the ranges are apart for a copy and an addition.
record IsPlaced (i : IocSubmit) (w : Wanted) (source destination : ℕ) : Type 0 where
  source_placed : IsAddress w.source_access w.source_length source
  destination_placed : IsAddress w.destination_access i.length destination
  apart : overlap i source destination ≡ false

abbrev pub IsAligned : ℕ → ℕ → Type 0
IsAligned source destination = (source % 4 ≡ 0) × (destination % 4 ≡ 0)

abbrev pub IsUnaligned : ℕ → ℕ → Type 0
IsUnaligned source destination = (source % 4 ≢ 0) ⊎ (destination % 4 ≢ 0)

-- The firmware's answer: acceptance, or for an addition the complaint of an unaligned address.
abbrev pub Answered : IocSubmit → Targets → ℕ → Type 0
Answered i t id =
    (validate_command (submitted i t id) ≡ err_none)
    ⊎ (i.opcode ≡ op_vector_add)
      × IsUnaligned (dma_of t.source) (dma_of t.destination)
      × (validate_command (submitted i t id) ≡ err_invalid_alignment)

IsAligned-or_not : (a b : ℕ) → IsAligned a b ⊎ IsUnaligned a b
IsAligned-or_not a b = ground arith

vector_or_not : (n : ℕ) → (n ≡ op_vector_add) ⊎ (n ≢ op_vector_add)
vector_or_not n = omega arith

module _ (i : IocSubmit) (w : Wanted) (t : Targets) (id : ℕ) (h : IsHeader i)
    (p : IsPlaced i w (dma_of t.source) (dma_of t.destination)) where
  submitted-IsCommon : IsCommon (submitted i t id)
  unfolding descriptor
  submitted-IsCommon = ground (arith, h)

  submitted-IsSubmission :
      IsIocSubmit i → IsWanted i w → id < 2 ^ 32 → IsSubmission (submitted i t id)
  unfolding descriptor
  submitted-IsSubmission f wants lt = ground (arith, h, f, p)

  -- Apart from an unaligned addition, the opcode's rules hold.
  submitted-IsOperation :
      IsWanted i w
      → (i.opcode ≡ op_vector_add → IsAligned (dma_of t.source) (dma_of t.destination))
      → IsOperation (submitted i t id)
  unfolding descriptor overlap
  submitted-IsOperation (inl nop) a = inl (ground (arith, h, p))
  submitted-IsOperation (inr (inl copy)) a = inr (inl (ground (arith, h, p)))
  submitted-IsOperation (inr (inr (inl vector))) a =
      inr (inr (inr (inr (ground (arith, h, p, a vector.0)))))
  submitted-IsOperation (inr (inr (inr (inl fill)))) a = inr (inr (inl (ground (arith, h, p))))
  submitted-IsOperation (inr (inr (inr (inr crc)))) a = inr (inr (inr (inl (ground (arith, h, p)))))

  submitted-IsMisaligned :
      IsWanted i w
      → i.opcode ≡ op_vector_add
      → IsUnaligned (dma_of t.source) (dma_of t.destination)
      → IsMisaligned (submitted i t id)
  unfolding descriptor
  submitted-IsMisaligned wants o u = record {
    common = submitted-IsCommon;
    is_vector = o;
    plain = ground (arith, h);
    transfer = ground (arith, h);
    whole = ground arith;
    source_given = ground (arith, p);
    destination_given = ground (arith, p);
    unaligned = u;
  }

  accepted :
      IsSubmission (submitted i t id)
      → IsOperation (submitted i t id)
      → validate_command (submitted i t id) ≡ err_none
  accepted fits operation =
      (validate_command_iff (submitted i t id) fits).1
        (record { common = submitted-IsCommon; operation = operation })

  answered : IsSubmission (submitted i t id) → IsWanted i w → Answered i t id
  answered fits wants = elim (IsAligned-or_not (dma_of t.source) (dma_of t.destination)) [
    | inl aligned ↦ inl (accepted fits (submitted-IsOperation wants (λ o. aligned)))
    | inr unaligned ↦ elim (vector_or_not i.opcode) [
      | inl vector ↦ inr (
        vector,
        unaligned,
        validate_command-IsMisaligned (submitted i t id)
            (submitted-IsMisaligned wants vector unaligned),
      )
      | inr other ↦ inl (accepted fits (submitted-IsOperation wants (λ o. absurd (other o))))
    ]
  ]

-- A submission from a process whose fields fit their widths, that passes the driver's checks and
-- whose buffers are found, becomes a descriptor whose fields fit theirs, and the firmware accepts
-- that descriptor, but for a vector addition with an unaligned address, of which it says so.
pub find_targets-Answered :
    (mapping_at : ℕ → Mapping) (mappings : Xarray) (i : IocSubmit) (w : Wanted) (t : Targets)
    (id : ℕ)
    → IsIocSubmit i
    → id < 2 ^ 32
    → submit_header_ok i ≡ true
    → wanted i ≡ some w
    → find_targets mapping_at mappings i w ≡ inr t
    → IsSubmission (submitted i t id) × Answered i t id
find_targets-Answered mapping_at mappings i w t id f lt header wants found =
    let (source, destination, apart) = find_targets-IsAddress mapping_at mappings i w t found in
    let h = submit_header_ok-IsHeader i f header in
    let p : IsPlaced i w (dma_of t.source) (dma_of t.destination) = record {
      source_placed = source;
      destination_placed = destination;
      apart = apart;
    } in
    let chosen = wanted-IsWanted i w wants in
    let fits = submitted-IsSubmission i w t id h p f chosen lt in
    (fits, answered i w t id h p fits chosen)
