-- ===== src/Host/State.antt =====
-- The objects of the driver: requests, mappings and open files, which are shared by address and
-- counted by reference, and the device. An object whose counter is 0 has been freed.
pub use virtual_accelerator_mana.Base.{update}
use virtual_accelerator_mana.Base.{
  ℕ, ◌+◌, ◌-◌, Bool, if◌then◌else◌, ◌==◌, List, [], ◌∷◌, Option, none, some,
}
use virtual_accelerator_mana.Abi.{Submission, Completion}
use virtual_accelerator_mana.Zephyr.{Mmio}
use virtual_accelerator_mana.Host.Uapi.{Code}

-- `struct xarray`: what stands at an index, in the order of insertion.
abbrev pub Xarray : Type 0
Xarray = List (ℕ × ℕ)

unfoldable pub xa_load : Xarray → ℕ → Option ℕ
xa_load [] index = none
xa_load ((i, a) ∷ rest) index = if i == index then some a else xa_load rest index

unfoldable pub xa_erase : Xarray → ℕ → Xarray
xa_erase [] index = []
xa_erase ((i, a) ∷ rest) index = if i == index then rest else (i, a) ∷ xa_erase rest index

pub record Mapping : Type 0 where
  pub refs : ℕ
  pub dma_addr : ℕ
  pub length : ℕ
  pub flags : ℕ
  pub npages : ℕ
  pub user_address : ℕ

pub record Request : Type 0 where
  pub refs : ℕ
  pub done : Bool
  pub result : Completion
  pub owner : Option ℕ
  pub source : Option ℕ
  pub destination : Option ℕ
  pub driver_status : Code
  pub command_id : ℕ
  pub reset_generation : ℕ

pub record File : Type 0 where
  pub refs : ℕ
  pub mappings : Xarray
  pub requests : Xarray
  pub completed_requests : ℕ
  pub closing : Bool

-- `struct vams_device` with the stores that its pointers lead to. `cq` is the memory that the
-- endpoint writes completions to.
pub record Host (m : Mmio) : Type 0 where
  pub bus : m.Device
  pub hw_if_version : ℕ
  pub fw_version : ℕ
  pub capabilities : ℕ
  pub reset_generation : ℕ
  pub reset_reason : ℕ
  pub sq : List Submission
  pub cq : List Completion
  pub sq_dma : ℕ
  pub cq_dma : ℕ
  pub sq_tail : ℕ
  pub cq_head : ℕ
  pub queues_ready : Bool
  pub removing : Bool
  pub requests : Xarray
  pub next_command_id : ℕ
  pub pending_requests : ℕ
  pub poll_scheduled : Bool
  pub reset_scheduled : Bool
  pub cq_interrupts : ℕ
  pub async_interrupts : ℕ
  pub request_at : ℕ → Request
  pub file_at : ℕ → File
  pub mapping_at : ℕ → Mapping

module _ (m : Mmio) where
  abbrev pub with_request : ℕ → (Request → Request) → Host m → Host m
  with_request a change s = record s {
    request_at = update s.request_at a (change (s.request_at a));
  }

  abbrev pub with_file : ℕ → (File → File) → Host m → Host m
  with_file f change s = record s { file_at = update s.file_at f (change (s.file_at f)) }

  -- What a mapping gives up when its counter reaches 0 is in Buffers.
  unfoldable pub mapping_get : ℕ → Host m → Host m
  mapping_get a s =
      let mapping = s.mapping_at a in
      record s { mapping_at = update s.mapping_at a (record mapping { refs = mapping.refs + 1 }) }

  unfoldable pub mapping_put : Option ℕ → Host m → Host m
  mapping_put none s = s
  mapping_put (some a) s =
      let mapping = s.mapping_at a in
      record s { mapping_at = update s.mapping_at a (record mapping { refs = mapping.refs - 1 }) }

  -- The reference on the device that goes with the last one on a file is counted in Bound.
  unfoldable pub file_put : Option ℕ → Host m → Host m
  file_put none s = s
  file_put (some f) s = with_file f (λ file. record file { refs = file.refs - 1 }) s

  unfoldable pub request_get : ℕ → Host m → Host m
  request_get a s = with_request a (λ r. record r { refs = r.refs + 1 }) s

  -- The last reference gives back those that the request holds.
  unfoldable pub request_put : ℕ → Host m → Host m
  unfolding mapping_put file_put
  request_put a s =
      let r = s.request_at a in
      let s1 = with_request a (λ r. record r { refs = r.refs - 1 }) s in
      if r.refs == 1
      then file_put r.owner (mapping_put r.destination (mapping_put r.source s1))
      else s1
