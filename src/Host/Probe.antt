-- ===== src/Host/Probe.antt =====
-- kernel/vams_pci.c: how the driver binds to an endpoint and leaves it (vams_probe, vams_remove).
-- Messages to the log are left out.
use virtual_accelerator_mana.Base.{true, false, not, ◌||◌, if◌then◌else◌, ltb, ◌!=◌, bit_and}
use virtual_accelerator_mana.Zephyr.{Mmio}
use virtual_accelerator_mana.Host.Uapi.{Code, ok, enodev, enospc, enomem}
use virtual_accelerator_mana.Host.Registers.{
  cap_dma, reg_intr_status, reg_intr_mask, intr_all, bar0_size, msix_vectors,
}
use virtual_accelerator_mana.Host.State.{Host}
use virtual_accelerator_mana.Host.Requests.{cancel_requests}
use virtual_accelerator_mana.Host.Queues.{readl, writel, configure_queues, disable_queues}
use virtual_accelerator_mana.Host.Interrupts.{mask_interrupts, validate_endpoint}
use virtual_accelerator_mana.Host.Bound.{
  Bound, disable_device, release_region, iounmap, free_queues, free_vectors, free_cq_irq,
  free_async_irq, deregister_misc, device_put, on_host, err_free_device, err_disable_device,
  err_release_region, err_iounmap, err_free_queues, err_free_vectors, err_free_cq_irq,
  err_free_async_irq, err_clear_master, err_deregister_misc,
}
use virtual_accelerator_mana.Host.Acquire.{
  Answers, or_else, maybe_fail_probe, set_dma_mask, alloc_queues, register_chardev,
}

module _ (m : Mmio) where
  -- A step that works on the device alone.
  abbrev pub host_step :
      (Host m → Host m × Code)
      → (Bound m → Bound m)
      → Bound m
      → (Bound m → Bound m × Code)
      → Bound m × Code
  host_step step label s next =
      let (host, code) = step s.host in or_else m code label (record s { host = host }) next

  -- The end of the probe, with both interrupts requested.
  unfoldable pub probe_chardev : Answers m → Bound m → Bound m × Code
  unfolding register_chardev maybe_fail_probe err_clear_master err_deregister_misc
  probe_chardev o s =
      let (s1, registered) = register_chardev m o s in
      or_else m registered (err_clear_master m) s1
        (λ s2. or_else m (maybe_fail_probe m o 9) (err_deregister_misc m) s2 (λ s3. (s3, ok)))

  unfoldable pub probe_selftests : Answers m → Bound m → Bound m × Code
  unfolding probe_chardev err_clear_master
  probe_selftests o s = host_step o.irq_selftest (err_clear_master m) s (λ s1.
      host_step o.nop_selftest (err_clear_master m) s1
        (λ s2. host_step o.poll_selftest (err_clear_master m) s2 (λ s3. probe_chardev o s3)))

  unfoldable pub configure_rings : Host m → Host m × Code
  configure_rings h = if bit_and h.capabilities cap_dma != 0 then configure_queues m h else (h, ok)

  unfoldable pub unmask_interrupts : Host m → Host m
  unfolding readl writel
  unmask_interrupts h = (readl m reg_intr_mask (writel m reg_intr_mask 0 h)).1

  unfoldable pub probe_configure : Answers m → Bound m → Bound m × Code
  unfolding probe_selftests err_clear_master configure_rings unmask_interrupts
  probe_configure o s =
      let s1 = record s { held = record s.held { drvdata = true; master = true } } in
      host_step configure_rings (err_clear_master m) s1
        (λ s2. probe_selftests o (on_host m unmask_interrupts s2))

  unfoldable pub probe_async_irq : Answers m → Bound m → Bound m × Code
  unfolding probe_configure maybe_fail_probe err_free_cq_irq err_free_async_irq
  probe_async_irq o s = or_else m o.async_irq (err_free_cq_irq m) s (λ s1.
      let s2 = record s1 { held = record s1.held { async_irq = true } } in
      or_else m (maybe_fail_probe m o 8) (err_free_async_irq m) s2 (λ s3. probe_configure o s3))

  unfoldable pub probe_cq_irq : Answers m → Bound m → Bound m × Code
  unfolding probe_async_irq maybe_fail_probe err_free_vectors err_free_cq_irq
  probe_cq_irq o s = or_else m o.cq_irq (err_free_vectors m) s (λ s1.
      let s2 = record s1 { held = record s1.held { cq_irq = true } } in
      or_else m (maybe_fail_probe m o 7) (err_free_cq_irq m) s2 (λ s3. probe_async_irq o s3))

  unfoldable pub probe_vectors : Answers m → Bound m → Bound m × Code
  unfolding probe_cq_irq maybe_fail_probe err_free_queues err_free_vectors
  probe_vectors o s = or_else m o.vectors (err_free_queues m) s (λ s1.
      let s2 = record s1 { held = record s1.held { vectors = true } } in
      if o.vector_count != msix_vectors
      then (err_free_vectors m s2, enospc)
      else or_else m (maybe_fail_probe m o 6) (err_free_vectors m) s2 (λ s3. probe_cq_irq o s3))

  unfoldable pub alloc_if_dma : Answers m → Bound m → Bound m × Code
  unfolding alloc_queues
  alloc_if_dma o s =
      if bit_and s.host.capabilities cap_dma != 0 then alloc_queues m o s else (s, ok)

  unfoldable pub probe_rings : Answers m → Bound m → Bound m × Code
  unfolding probe_vectors alloc_if_dma maybe_fail_probe err_iounmap err_free_queues
  probe_rings o s =
      let (s1, allocated) = alloc_if_dma o s in
      or_else m allocated (err_iounmap m) s1
        (λ s2. or_else m (maybe_fail_probe m o 5) (err_free_queues m) s2 (λ s3. probe_vectors o s3))

  unfoldable pub clear_interrupts : Host m → Host m
  unfolding writel
  clear_interrupts h = writel m reg_intr_status intr_all (mask_interrupts m h)

  unfoldable pub probe_endpoint : Answers m → Bound m → Bound m × Code
  unfolding probe_rings clear_interrupts set_dma_mask maybe_fail_probe err_iounmap
  probe_endpoint o s =
      host_step (validate_endpoint m) (err_iounmap m) (on_host m clear_interrupts s) (λ s1.
        or_else m (set_dma_mask m o) (err_iounmap m) s1
          (λ s2. or_else m (maybe_fail_probe m o 4) (err_iounmap m) s2 (λ s3. probe_rings o s3)))

  unfoldable pub probe_iomap : Answers m → Bound m → Bound m × Code
  unfolding probe_endpoint maybe_fail_probe err_release_region err_iounmap
  probe_iomap o s =
      if not o.iomap
      then (err_release_region m s, enomem)
      else let s1 = record s { held = record s.held { bar0 = true } } in
        or_else m (maybe_fail_probe m o 3) (err_iounmap m) s1 (λ s2. probe_endpoint o s2)

  unfoldable pub probe_region : Answers m → Bound m → Bound m × Code
  unfolding probe_iomap maybe_fail_probe err_disable_device err_release_region
  probe_region o s =
      if not o.bar0_memory || ltb o.bar0_length bar0_size
      then (err_disable_device m s, enodev)
      else or_else m o.region (err_disable_device m) s (λ s1.
        let s2 = record s1 { held = record s1.held { region = true } } in
        or_else m (maybe_fail_probe m o 2) (err_release_region m) s2 (λ s3. probe_iomap o s3))

  unfoldable pub probe_enable : Answers m → Bound m → Bound m × Code
  unfolding probe_region maybe_fail_probe err_free_device err_disable_device
  probe_enable o s = or_else m o.enable (err_free_device m) s (λ s1.
      let s2 = record s1 { held = record s1.held { enabled = true } } in
      or_else m (maybe_fail_probe m o 1) (err_disable_device m) s2 (λ s3. probe_region o s3))

  -- `fresh` is the device in zeroed memory, with the endpoint's bus.
  unfoldable pub probe : Answers m → Host m → Bound m → Bound m × Code
  unfolding probe_enable
  probe o fresh s =
      if not o.memory
      then (s, enomem)
      else probe_enable o (record {
        host = fresh;
        held = record s.held { memory = true; pdev = true };
        refs = 1;
        faults = s.faults;
      })

  -- The removal up to the rings: nothing reaches the device from then on.
  unfoldable pub stop : Bound m → Bound m
  unfolding clear_interrupts
  stop s =
      let s1 =
        on_host m (λ h. disable_queues m (clear_interrupts (record h { poll_scheduled = false })))
          (deregister_misc m (on_host m (λ h. record h { removing = true }) s)) in
      let s2 =
        free_cq_irq m (free_async_irq m (record s1 { held = record s1.held { master = false } })) in
      free_vectors m
        (on_host m (λ h. cancel_requests m enodev false (record h { reset_scheduled = false })) s2)

  unfoldable pub detach : Bound m → Bound m
  unfolding stop free_queues
  detach s =
      let s1 = disable_device m (release_region m (iounmap m (free_queues m (stop s)))) in
      record s1 { held = record s1.held { drvdata = false } }

  unfoldable pub remove : Bound m → Bound m
  unfolding detach device_put
  remove s = device_put m (detach s)
