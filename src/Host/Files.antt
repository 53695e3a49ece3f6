-- ===== src/Host/Files.antt =====
-- kernel/vams_pci.c: an open file from its opening to its release (vams_open, vams_poll,
-- vams_release). The reference that a file holds on the device is counted in Bound.
use virtual_accelerator_mana.Base.{
  ℕ, Bool, true, false, not, ◌&&◌, ◌||◌, if◌then◌else◌, ltb, ◌!=◌, [], ◌∷◌, some,
}
use virtual_accelerator_mana.Zephyr.{Mmio}
use virtual_accelerator_mana.Host.Uapi.{Code, ok, enodev, enomem}
use virtual_accelerator_mana.Host.Registers.{queue_depth, reg_sq_head}
use virtual_accelerator_mana.Host.State.{
  Xarray, xa_erase, Host, File, with_file, mapping_put, file_put, request_put, update,
}
use virtual_accelerator_mana.Host.Queues.{next_slot, readl}

abbrev pub new_file : File
new_file = record {
  refs = 1;
  mappings = [];
  requests = [];
  completed_requests = 0;
  closing = false;
}

-- The events that vams_poll reports: EPOLLIN, EPOLLOUT, EPOLLERR and EPOLLHUP, with their kin.
pub record Events : Type 0 where
  pub readable : Bool
  pub writable : Bool
  pub failed : Bool
  pub hung_up : Bool

module _ (m : Mmio) where
  -- The new file is at `f`, if there is memory for it.
  unfoldable pub open_file : ℕ → Bool → Host m → Host m × Code
  open_file f memory s =
      if not memory
      then (s, enomem)
      else if s.removing
      then (s, enodev)
      else (record s { file_at = update s.file_at f new_file }, ok)

  unfoldable pub poll : ℕ → Host m → Host m × Events
  unfolding readl
  poll f s =
      let readable = ltb 0 (s.file_at f).completed_requests in
      if (s.file_at f).closing || s.removing
      then (s, record { readable = readable; writable = false; failed = true; hung_up = true })
      else if not s.queues_ready
      then (s, record { readable = readable; writable = false; failed = true; hung_up = false })
      else let (sq_head, s1) = readl m reg_sq_head s in
        (
          s1,
          record {
            readable = readable;
            writable = ltb sq_head queue_depth && next_slot s1.sq_tail != sq_head;
            failed = false;
            hung_up = false;
          },
        )

  -- The walk over a file's requests, each of which loses the file's reference.
  unfoldable pub drop_requests : ℕ → Xarray → Host m → Host m
  drop_requests f [] s = s
  drop_requests f ((id, a) ∷ rest) s = drop_requests f rest (
      request_put m a
        (with_file m f (λ file. record file { requests = xa_erase file.requests id }) s))

  unfoldable pub drop_mappings : ℕ → Xarray → Host m → Host m
  drop_mappings f [] s = s
  drop_mappings f ((id, a) ∷ rest) s = drop_mappings f rest (
      mapping_put m (some a)
        (with_file m f (λ file. record file { mappings = xa_erase file.mappings id }) s))

  unfoldable pub release : ℕ → Host m → Host m
  unfolding drop_requests drop_mappings
  release f s =
      let s1 = with_file m f (λ file. record file { closing = true }) s in
      let s2 = drop_requests f (s1.file_at f).requests s1 in
      let s3 = drop_mappings f (s2.file_at f).mappings s2 in file_put m (some f) s3
