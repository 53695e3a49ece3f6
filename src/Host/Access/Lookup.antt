-- ===== src/Host/Access/Lookup.antt =====
-- What a lookup that succeeds has found: a range inside a mapping of the file.
use virtual_accelerator_mana.Base.{
  ℕ, ◌+◌, ◌^◌, ◌≤◌, ◌<◌, ◌≡◌, ◌≢◌, refl, false, if◌then◌else◌, Option, some, ◌⊎◌, inl, inr,
  Option-cases, arith, bit_and,
}
use virtual_accelerator_mana.Host.Uapi.{Code, einval, IocSubmit}
use virtual_accelerator_mana.Host.State.{Xarray, xa_load, Mapping}
use virtual_accelerator_mana.Host.Access.{
  Target, Targets, Wanted, locate, mapping_lookup, optional, find_targets, overlap, dma_of,
}

-- `t` is the range of `size` bytes from `offset` on of the mapping at `handle`.
pub record IsLocated (mapping_at : ℕ → Mapping) (mappings : Xarray)
    (handle offset size required : ℕ) (t : Target) : Type 0 where
  pub registered : xa_load mappings handle ≡ some t.mapping
  pub handle_given : handle ≢ 0
  pub allowed : bit_and (mapping_at t.mapping).flags required ≡ required
  pub inside : offset + size ≤ (mapping_at t.mapping).length
  pub address : t.dma_address ≡ (mapping_at t.mapping).dma_addr + offset
  pub nonzero : 0 < t.dma_address
  pub fits : t.dma_address + size < 2 ^ 64

locate-IsLocated :
    (mapping_at : ℕ → Mapping) (mappings : Xarray) (handle offset size required a : ℕ) (t : Target)
    → handle ≢ 0
    → xa_load mappings handle ≡ some a
    → locate a (mapping_at a) offset size required ≡ inr t
    → IsLocated mapping_at mappings handle offset size required t
unfolding locate
locate-IsLocated mapping_at mappings handle offset size required a t h e l = ground arith

-- A lookup that succeeds has found a range of a registered mapping, with the rights asked for,
-- that lies inside the mapping and in the 64-bit address space and does not begin at 0.
pub mapping_lookup-IsLocated :
    (mapping_at : ℕ → Mapping) (mappings : Xarray) (handle offset size required : ℕ) (t : Target)
    → mapping_lookup mapping_at mappings handle offset size required ≡ inr t
    → IsLocated mapping_at mappings handle offset size required t
unfolding mapping_lookup
mapping_lookup-IsLocated mapping_at mappings handle offset size required t h =
    elim (Option-cases (xa_load mappings handle)) [
      | inl e ↦ ground (arith, e)
      | inr (a, e) ↦
          locate-IsLocated mapping_at mappings handle offset size required a t (ground (arith, e)) e
            (ground (arith, e))
    ]

-- The parts of a search that succeeds.
find_inv :
    (i : IocSubmit) (first second : Code ⊎ Option Target) (t : Targets)
    → elim first [
      | inl e ↦ inl e
      | inr source ↦ elim second [
        | inl e ↦ inl e
        | inr destination ↦
            if overlap i (dma_of source) (dma_of destination)
            then inl einval
            else inr (record { source = source; destination = destination })
      ]
    ]
      ≡ inr t
    → (first ≡ inr t.source)
      × (second ≡ inr t.destination)
      × (overlap i (dma_of t.source) (dma_of t.destination) ≡ false)
find_inv i (inr source) (inr destination) t h = ground arith
find_inv i (inl e) second t h = cc
find_inv i (inr source) (inl e) t h = cc

-- The bus address of a buffer that is used fits, and that of one that is not used is 0.
abbrev pub IsAddress : ℕ → ℕ → ℕ → Type 0
IsAddress access size address =
    (access ≡ 0) × (address ≡ 0) ⊎ (0 < access) × (0 < address) × (address + size < 2 ^ 64)

optional-IsAddress :
    (mapping_at : ℕ → Mapping) (mappings : Xarray) (handle offset size access : ℕ)
    (o : Option Target)
    → optional access (mapping_lookup mapping_at mappings handle offset size access) ≡ inr o
    → IsAddress access size (dma_of o)
optional-IsAddress mapping_at mappings handle offset size access o h =
    optional_case access (mapping_lookup mapping_at mappings handle offset size access) o h
      (λ t e. mapping_lookup-IsLocated mapping_at mappings handle offset size access t e)
  where
    optional_case :
        (n : ℕ) (found : Code ⊎ Target) (r : Option Target)
        → optional n found ≡ inr r
        → ((t : Target) → found ≡ inr t → IsLocated mapping_at mappings handle offset size access t)
        → IsAddress n size (dma_of r)
    optional_case n (inl c) r e located = ground arith
    optional_case n (inr t) r e located = ground (arith, located t refl)

-- Both addresses of a request whose buffers were found, and that its ranges are apart.
pub find_targets-IsAddress :
    (mapping_at : ℕ → Mapping) (mappings : Xarray) (i : IocSubmit) (w : Wanted) (t : Targets)
    → find_targets mapping_at mappings i w ≡ inr t
    → IsAddress w.source_access w.source_length (dma_of t.source)
      × IsAddress w.destination_access i.length (dma_of t.destination)
      × (overlap i (dma_of t.source) (dma_of t.destination) ≡ false)
unfolding find_targets
find_targets-IsAddress mapping_at mappings i w t h =
    let (source, destination, apart) = find_inv i _ _ t h in
    (
      optional-IsAddress mapping_at mappings i.source_handle i.source_offset w.source_length
          w.source_access t.source source,
      optional-IsAddress mapping_at mappings i.destination_handle i.destination_offset i.length
          w.destination_access t.destination destination,
      apart,
    )
