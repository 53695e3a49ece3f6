-- ===== src/Host/Buffers.antt =====
-- kernel/vams_pci.c: the buffers that a process registers (vams_ioctl_buffer_register,
-- vams_ioctl_buffer_unregister, vams_mapping_release). Pages have 4096 bytes, `unsigned long` 64 bits.
use virtual_accelerator_mana.Base.{
  ℕ, ◌+◌, ◌-◌, ◌/◌, ◌^◌, Bool, not, ◌&&◌, ◌||◌, if◌then◌else◌, ltb, leb, ◌==◌, ◌!=◌, ◌∷◌, Option,
  none, some, bit_and,
}
use virtual_accelerator_mana.Command.{max_transfer_size}
use virtual_accelerator_mana.Zephyr.{Mmio}
use virtual_accelerator_mana.Host.Uapi.{
  Code, ok, enodev, eio, ebusy, enomem, efault, einval, enoent, erange, IocBufferRegister,
  IocBufferUnregister, uapi_version,
}
use virtual_accelerator_mana.Host.State.{
  xa_load, xa_erase, Host, Mapping, update, with_file, mapping_put,
}

-- What the kernel answers to the calls of a registration. `address` is that of the new mapping,
-- `handle` the index that the array of mappings gives it.
pub record PinAnswers : Type 0 where
  pub accessible : Bool
  pub memory : Bool
  pub page_array : Bool
  pub pinned : Code
  pub pinned_count : ℕ
  pub table : Code
  pub mapped : ℕ
  pub dma_length : ℕ
  pub dma_address : ℕ
  pub handle_status : Code
  pub handle : ℕ
  pub copied_out : Bool
  pub address : ℕ

-- What the driver holds for all its mappings.
pub record Ledger : Type 0 where
  pub objects : ℕ
  pub page_arrays : ℕ
  pub pinned : ℕ
  pub tables : ℕ
  pub maps : ℕ

abbrev pub err_free_mapping : Ledger → Ledger
err_free_mapping l = record l { objects = l.objects - 1 }

abbrev pub err_free_pages : Ledger → Ledger
err_free_pages l = err_free_mapping (record l { page_arrays = l.page_arrays - 1 })

abbrev pub err_unpin : ℕ → Ledger → Ledger
err_unpin npages l = err_free_pages (record l { pinned = l.pinned - npages })

abbrev pub err_free_sg : ℕ → Ledger → Ledger
err_free_sg npages l = err_unpin npages (record l { tables = l.tables - 1 })

abbrev pub err_unmap : ℕ → Ledger → Ledger
err_unmap npages l = err_free_sg npages (record l { maps = l.maps - 1 })

-- vams_mapping_release
unfoldable pub mapping_release : Mapping → Ledger → Ledger
mapping_release mapping l = record l {
  maps = l.maps - 1;
  tables = l.tables - 1;
  pinned = l.pinned - mapping.npages;
  page_arrays = l.page_arrays - 1;
  objects = l.objects - 1;
}

unfoldable pub register_header_ok : IocBufferRegister → Bool
register_header_ok i =
    i.size == 40
    && i.version == uapi_version
    && i.handle == 0
    && i.flags != 0
    && bit_and i.flags 0xffff_fffc == 0
    && i.length != 0
    && leb i.length max_transfer_size
    && i.reserved == 0

-- The pages from the first to the last byte.
unfoldable pub page_count : ℕ → ℕ → ℕ
page_count first length = (first + length - 1) / 4096 - first / 4096 + 1

-- The scatter table and the DMA mapping of pinned pages.
unfoldable pub map_sg : PinAnswers → ℕ → ℕ → Ledger → Ledger × Code
map_sg o npages length l =
    if o.mapped == 0
    then (err_free_sg npages l, eio)
    else let l1 = record l { maps = l.maps + 1 } in
      if o.mapped != 1
      then (err_unmap npages l1, erange)
      else if ltb o.dma_length length
      then (err_unmap npages l1, erange)
      else (l1, ok)

-- The next step if the last one succeeded, and else a label.
abbrev pub then_or : Code → Ledger × Code → Ledger → Ledger × Code
then_or ok next cleared = next
then_or failed next cleared = (cleared, failed)

unfoldable pub map_pages : PinAnswers → ℕ → ℕ → Ledger → Ledger × Code
unfolding map_sg
map_pages o npages length l =
    then_or o.table (map_sg o npages length (record l { tables = l.tables + 1 }))
      (err_unpin npages l)

-- Too few pinned pages are unpinned again.
unfoldable pub pin_exact : ℕ → PinAnswers → ℕ → ℕ → Ledger → Ledger × Code
unfolding map_pages
pin_exact count o npages length l =
    let l1 = record l { pinned = l.pinned + count } in
    if count != npages
    then (err_free_pages (record l1 { pinned = l1.pinned - count }), efault)
    else map_pages o npages length l1

unfoldable pub pin_pages : PinAnswers → ℕ → ℕ → Ledger → Ledger × Code
unfolding pin_exact
pin_pages o npages length l =
    then_or o.pinned (pin_exact o.pinned_count o npages length l) (err_free_pages l)

unfoldable pub pin_buffer : PinAnswers → ℕ → ℕ → Ledger → Ledger × Code
unfolding pin_pages
pin_buffer o npages length l =
    if not o.memory
    then (l, enomem)
    else let l1 = record l { objects = l.objects + 1 } in
      if not o.page_array
      then (err_free_mapping l1, enomem)
      else pin_pages o npages length (record l1 { page_arrays = l1.page_arrays + 1 })

module _ (m : Mmio) where
  abbrev pub new_mapping : PinAnswers → IocBufferRegister → Mapping
  new_mapping o i = record {
    refs = 1;
    dma_addr = o.dma_address;
    length = i.length;
    flags = i.flags;
    npages = page_count i.user_address i.length;
    user_address = i.user_address;
  }

  -- The end of a registration, with the buffer mapped. If the handle cannot be told to the process,
  -- the mapping is taken out again and its only reference given back.
  unfoldable pub publish_mapping :
      Code → PinAnswers → ℕ → IocBufferRegister → Host m × Ledger → (Host m × Ledger) × Code
  unfolding mapping_release
  publish_mapping ok o f i (s, l) =
      let mapping = new_mapping o i in
      if o.copied_out
      then (
        (
          with_file m f (λ file. record file { mappings = (o.handle, o.address) ∷ file.mappings })
              (record s { mapping_at = update s.mapping_at o.address mapping }),
          l,
        ),
        ok,
      )
      else ((s, mapping_release mapping l), efault)
  publish_mapping failed o f i (s, l) =
      ((s, err_unmap (page_count i.user_address i.length) l), failed)

  unfoldable pub register_pinned :
      PinAnswers → ℕ → IocBufferRegister → Host m → Ledger × Code → (Host m × Ledger) × Code
  unfolding publish_mapping
  register_pinned o f i s (l, ok) = publish_mapping o.handle_status o f i (s, l)
  register_pinned o f i s (l, failed) = ((s, l), failed)

  unfoldable pub register_checked :
      PinAnswers → ℕ → IocBufferRegister → Host m × Ledger → (Host m × Ledger) × Code
  unfolding register_pinned pin_buffer
  register_checked o f i (s, l) =
      if not (register_header_ok i)
      then ((s, l), einval)
      else if leb (2 ^ 64) (i.user_address + i.length) || not o.accessible
      then ((s, l), efault)
      else if (s.file_at f).closing || s.removing
      then ((s, l), enodev)
      else register_pinned o f i s (pin_buffer o (page_count i.user_address i.length) i.length l)

  -- `input` is none if it cannot be copied from the process.
  unfoldable pub ioctl_buffer_register :
      PinAnswers → ℕ → Option IocBufferRegister → Host m × Ledger → (Host m × Ledger) × Code
  unfolding register_checked
  ioctl_buffer_register o f none s = (s, efault)
  ioctl_buffer_register o f (some i) s = register_checked o f i s

  unfoldable pub unregister_header_ok : IocBufferUnregister → Bool
  unregister_header_ok i =
      i.size == 24 && i.version == uapi_version && i.handle != 0 && i.flags == 0 && i.reserved == 0

  -- A mapping that a request holds stays. One that is erased has its last reference given back.
  unfoldable pub ioctl_buffer_unregister :
      ℕ → Option IocBufferUnregister → Host m × Ledger → (Host m × Ledger) × Code
  unfolding mapping_release mapping_put
  ioctl_buffer_unregister f none s = (s, efault)
  ioctl_buffer_unregister f (some i) (s, l) =
      if not (unregister_header_ok i)
      then ((s, l), einval)
      else elim (xa_load (s.file_at f).mappings i.handle) [
        | none ↦ ((s, l), enoent)
        | some a ↦
            if (s.mapping_at a).refs != 1
            then ((s, l), ebusy)
            else let erased =
                with_file m f (λ file. record file { mappings = xa_erase file.mappings i.handle })
                  s in
              ((mapping_put m (some a) erased, mapping_release (s.mapping_at a) l), ok)
      ]
