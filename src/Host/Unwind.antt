-- ===== src/Host/Unwind.antt =====
-- A probe holds all or nothing, and what it holds is given up once.
use virtual_accelerator_mana.Base.{
  ℕ, ◌≡◌, ◌≢◌, refl, sym, subst, Bool, true, false, not, ◌||◌, ltb, ◌!=◌, Bool-cases, if_true,
  if_false, Option, none, some, ◌⊎◌, inl, inr, bit_and,
}
use virtual_accelerator_mana.Zephyr.{Mmio}
use virtual_accelerator_mana.Host.Uapi.{Code, ok}
use virtual_accelerator_mana.Host.Interrupts.{validate_endpoint}
use virtual_accelerator_mana.Host.Registers.{msix_vectors, cap_dma, bar0_size}
use virtual_accelerator_mana.Host.State.{Host}
use virtual_accelerator_mana.Host.Bound.{
  Held, Bound, on_host, err_free_device, err_disable_device, err_release_region, err_iounmap,
  err_free_queues, err_free_vectors, err_free_cq_irq, err_free_async_irq, err_clear_master,
  err_deregister_misc,
}
use virtual_accelerator_mana.Host.Acquire.{
  Answers, or_else, maybe_fail_probe, is_unaligned_64, set_dma_mask, alloc_rings, alloc_queues,
  register_misc, register_instance, register_chardev,
}
use virtual_accelerator_mana.Host.Probe.{
  host_step, configure_rings, unmask_interrupts, clear_interrupts, alloc_if_dma, probe_chardev,
  probe_selftests, probe_configure, probe_async_irq, probe_cq_irq, probe_vectors, probe_rings,
  probe_endpoint, probe_iomap, probe_region, probe_enable, probe,
}
use virtual_accelerator_mana.Host.Labels.{
  nothing, memory_held, enabled_held, region_held, bar0_held, rings_held, vectors_held, cq_irq_held,
  async_irq_held, master_held, whole, Probed, bound, Clears, or_else-Probed, Clears-free_device,
  Clears-disable_device, Clears-release_region, Clears-iounmap, Clears-free_queues,
  Clears-free_vectors, Clears-free_cq_irq, Clears-free_async_irq, Clears-clear_master,
  Clears-deregister_misc,
}

module _ (m : Mmio) where
  register_misc_lem :
      (name : Bool) (misc : Code) (q : Bool) (h : Host m) (f : ℕ)
      → let r =
          register_misc m name misc (bound m h (record (master_held q) { instance_id = true }) f) in
        (r ≡ (bound m h (whole q) f, ok)) ⊎ ((r.1 ≢ ok) × (r.0 ≡ bound m h (master_held q) f))
  unfolding register_misc
  register_misc_lem false misc q h f = inr (cc, refl)
  register_misc_lem true ok q h f = inl refl
  register_misc_lem true failed q h f = inr (cc, refl)

  register_instance_lem :
      (id : Code) (name : Bool) (misc : Code) (q : Bool) (h : Host m) (f : ℕ)
      → let r = register_instance m id name misc (bound m h (master_held q) f) in
        (r ≡ (bound m h (whole q) f, ok)) ⊎ ((r.1 ≢ ok) × (r.0 ≡ bound m h (master_held q) f))
  unfolding register_instance
  register_instance_lem ok name misc q h f = register_misc_lem name misc q h f
  register_instance_lem failed name misc q h f = inr (cc, refl)

  -- A step that fails leads to its label.
  or_else_failed :
      (f : ℕ) (code : Code) (label : Bound m → Bound m) (s : Bound m)
      (next : Bound m → Bound m × Code)
      → code ≢ ok
      → Clears m f (label s)
      → Probed m f (or_else m code label s next)
  or_else_failed f ok label s next n clears = absurd (n refl)
  or_else_failed f failed label s next n clears = inr (n, clears.0, clears.1)

  chardev-Probed :
      (o : Answers m) (q : Bool) (h : Host m) (f : ℕ)
      → Probed m f (probe_chardev m o (bound m h (master_held q) f))
  unfolding probe_chardev register_chardev
  chardev-Probed o q h f =
      let next : Bound m → Bound m × Code =
        λ s. or_else m (maybe_fail_probe m o 9) (err_deregister_misc m) s (λ s'. (s', ok)) in
      elim (register_instance_lem o.instance_id o.misc_name o.misc q h f) [
        | inl e ↦
            subst (λ r. Probed m f (or_else m r.1 (err_clear_master m) r.0 next)) (sym e)
              (or_else-Probed m f (maybe_fail_probe m o 9) (err_deregister_misc m)
                (bound m h (whole q) f) _ (Clears-deregister_misc m q h f)
                (inl (refl, (q, refl), refl, refl)))
        | inr (n, e) ↦ or_else_failed f _ (err_clear_master m) _ next n (
            subst (λ s. Clears m f (err_clear_master m s)) (sym e)
              (Clears-clear_master m false q h f))
      ]

  -- A step on the device alone keeps what is held.
  host_step-Probed :
      (f : ℕ) (step : Host m → Host m × Code) (label : Bound m → Bound m) (held : Held) (h : Host m)
      (next : Bound m → Bound m × Code)
      → ((h' : Host m) → Clears m f (label (bound m h' held f)))
      → ((h' : Host m) → Probed m f (next (bound m h' held f)))
      → Probed m f (host_step m step label (bound m h held f) next)
  host_step-Probed f step label held h next clears goes =
      or_else-Probed m f (step h).1 label (bound m (step h).0 held f) next (clears (step h).0)
        (goes (step h).0)

  selftests-Probed :
      (o : Answers m) (q : Bool) (h : Host m) (f : ℕ)
      → Probed m f (probe_selftests m o (bound m h (master_held q) f))
  unfolding probe_selftests
  selftests-Probed o q h f =
      let clears : (h' : Host m) → Clears m f (err_clear_master m (bound m h' (master_held q) f)) =
        λ h'. Clears-clear_master m false q h' f in
      host_step-Probed f o.irq_selftest (err_clear_master m) (master_held q) h _ clears (λ h1.
        host_step-Probed f o.nop_selftest (err_clear_master m) (master_held q) h1 _ clears (λ h2.
          host_step-Probed f o.poll_selftest (err_clear_master m) (master_held q) h2 _ clears
            (λ h3. chardev-Probed o q h3 f)))

  configure-Probed :
      (o : Answers m) (q : Bool) (h : Host m) (f : ℕ)
      → Probed m f (probe_configure m o (bound m h (async_irq_held q) f))
  unfolding probe_configure
  configure-Probed o q h f =
      host_step-Probed f (configure_rings m) (err_clear_master m) (master_held q) h
        (λ s. probe_selftests m o (on_host m (unmask_interrupts m) s))
        (λ h'. Clears-clear_master m false q h' f)
        (λ h'. selftests-Probed o q (unmask_interrupts m h') f)

  async_irq-Probed :
      (o : Answers m) (q : Bool) (h : Host m) (f : ℕ)
      → Probed m f (probe_async_irq m o (bound m h (cq_irq_held q) f))
  unfolding probe_async_irq
  async_irq-Probed o q h f =
      or_else-Probed m f o.async_irq (err_free_cq_irq m) (bound m h (cq_irq_held q) f) _
        (Clears-free_cq_irq m false q h f)
        (or_else-Probed m f (maybe_fail_probe m o 8) (err_free_async_irq m)
          (bound m h (async_irq_held q) f) _ (Clears-free_async_irq m false q h f)
          (configure-Probed o q h f))

  cq_irq-Probed :
      (o : Answers m) (q : Bool) (h : Host m) (f : ℕ)
      → Probed m f (probe_cq_irq m o (bound m h (vectors_held q) f))
  unfolding probe_cq_irq
  cq_irq-Probed o q h f =
      or_else-Probed m f o.cq_irq (err_free_vectors m) (bound m h (vectors_held q) f) _
        (Clears-free_vectors m false q h f)
        (or_else-Probed m f (maybe_fail_probe m o 7) (err_free_cq_irq m)
          (bound m h (cq_irq_held q) f) _ (Clears-free_cq_irq m false q h f)
          (async_irq-Probed o q h f))

  vectors-Probed :
      (o : Answers m) (q : Bool) (h : Host m) (f : ℕ)
      → Probed m f (probe_vectors m o (bound m h (rings_held q) f))
  unfolding probe_vectors
  vectors-Probed o q h f =
      let cleared = Clears-free_vectors m false q h f in
      or_else-Probed m f o.vectors (err_free_queues m) (bound m h (rings_held q) f) _
        (Clears-free_queues m false q h f)
        (elim (Bool-cases (o.vector_count != msix_vectors)) [
          | inl e ↦ subst (Probed m f) (sym (if_true _ _ _ e)) (inr (cc, cleared.0, cleared.1))
          | inr e ↦ subst (Probed m f) (sym (if_false _ _ _ e)) (
              or_else-Probed m f (maybe_fail_probe m o 6) (err_free_vectors m)
                (bound m h (vectors_held q) f) _ cleared (cq_irq-Probed o q h f))
        ])

  -- The rings are held both or not at all.
  Allocated : ℕ → Bound m × Code → Type 0
  Allocated f (s, code) =
      ((code ≡ ok) × ((p : Bool × Host m) × (s ≡ bound m p.1 (rings_held p.0) f)))
      ⊎ ((code ≢ ok) × ((h : Host m) × (s ≡ bound m h bar0_held f)))

  alloc_rings-Allocated :
      (sq cq : Option ℕ) (h : Host m) (f : ℕ)
      → Allocated f (alloc_rings m sq cq (bound m h bar0_held f))
  unfolding alloc_rings Allocated
  alloc_rings-Allocated none cq h f = inr (cc, (h, refl))
  alloc_rings-Allocated (some sq_dma) none h f = inr (cc, (_, refl))
  alloc_rings-Allocated (some sq_dma) (some cq_dma) h f =
      elim (Bool-cases (is_unaligned_64 sq_dma || is_unaligned_64 cq_dma)) [
        | inl e ↦ subst (Allocated f) (sym (if_true _ _ _ e)) (inr (cc, (_, refl)))
        | inr e ↦ subst (Allocated f) (sym (if_false _ _ _ e)) (inl (refl, ((true, _), refl)))
      ]

  alloc_if_dma-Allocated :
      (o : Answers m) (h : Host m) (f : ℕ) → Allocated f (alloc_if_dma m o (bound m h bar0_held f))
  unfolding alloc_if_dma alloc_queues Allocated
  alloc_if_dma-Allocated o h f = elim (Bool-cases (bit_and h.capabilities cap_dma != 0)) [
    | inl e ↦ subst (Allocated f) (sym (if_true _ _ _ e)) (alloc_rings-Allocated o.sq o.cq h f)
    | inr e ↦ subst (Allocated f) (sym (if_false _ _ _ e)) (inl (refl, ((false, h), refl)))
  ]

  Allocated-Probed :
      (o : Answers m) (f : ℕ) (r : Bound m × Code)
      → Allocated f r
      → Probed m f (
          or_else m r.1 (err_iounmap m) r.0 (λ s.
            or_else m (maybe_fail_probe m o 5) (err_free_queues m) s (λ s'. probe_vectors m o s')))
  unfolding Allocated
  Allocated-Probed o f (s, code) (inr (n, (h, e))) =
      or_else_failed f code (err_iounmap m) s _ n
        (subst (λ t. Clears m f (err_iounmap m t)) (sym e) (Clears-iounmap m false h f))
  Allocated-Probed o f (s, code) (inl (c, ((q, h), e))) =
      rw (c, e)
        (or_else-Probed m f (maybe_fail_probe m o 5) (err_free_queues m)
          (bound m h (rings_held q) f) _ (Clears-free_queues m false q h f)
          (vectors-Probed o q h f))

  rings-Probed :
      (o : Answers m) (h : Host m) (f : ℕ) → Probed m f (probe_rings m o (bound m h bar0_held f))
  unfolding probe_rings
  rings-Probed o h f =
      Allocated-Probed o f (alloc_if_dma m o (bound m h bar0_held f)) (alloc_if_dma-Allocated o h f)

  endpoint-Probed :
      (o : Answers m) (h : Host m) (f : ℕ) → Probed m f (probe_endpoint m o (bound m h bar0_held f))
  unfolding probe_endpoint
  endpoint-Probed o h f =
      let next : Bound m → Bound m × Code = λ s.
        or_else m (set_dma_mask m o) (err_iounmap m) s (λ s'.
          or_else m (maybe_fail_probe m o 4) (err_iounmap m) s' (λ s''. probe_rings m o s'')) in
      host_step-Probed f (validate_endpoint m) (err_iounmap m) bar0_held (clear_interrupts m h) next
        (λ h'. Clears-iounmap m false h' f)
        (λ h'.
          or_else-Probed m f (set_dma_mask m o) (err_iounmap m) (bound m h' bar0_held f) _
            (Clears-iounmap m false h' f)
            (or_else-Probed m f (maybe_fail_probe m o 4) (err_iounmap m) (bound m h' bar0_held f) _
              (Clears-iounmap m false h' f) (rings-Probed o h' f)))

  iomap-Probed :
      (o : Answers m) (h : Host m) (f : ℕ) → Probed m f (probe_iomap m o (bound m h region_held f))
  unfolding probe_iomap
  iomap-Probed o h f =
      let cleared = Clears-release_region m false h f in
      elim (Bool-cases (not o.iomap)) [
        | inl e ↦ subst (Probed m f) (sym (if_true _ _ _ e)) (inr (cc, cleared.0, cleared.1))
        | inr e ↦ subst (Probed m f) (sym (if_false _ _ _ e)) (
            or_else-Probed m f (maybe_fail_probe m o 3) (err_iounmap m) (bound m h bar0_held f) _
              (Clears-iounmap m false h f) (endpoint-Probed o h f))
      ]

  region-Probed :
      (o : Answers m) (h : Host m) (f : ℕ)
      → Probed m f (probe_region m o (bound m h enabled_held f))
  unfolding probe_region
  region-Probed o h f =
      let cleared = Clears-disable_device m false h f in
      elim (Bool-cases (not o.bar0_memory || ltb o.bar0_length bar0_size)) [
        | inl e ↦ subst (Probed m f) (sym (if_true _ _ _ e)) (inr (cc, cleared.0, cleared.1))
        | inr e ↦ subst (Probed m f) (sym (if_false _ _ _ e)) (
            or_else-Probed m f o.region (err_disable_device m) (bound m h enabled_held f) _ cleared
              (or_else-Probed m f (maybe_fail_probe m o 2) (err_release_region m)
                (bound m h region_held f) _ (Clears-release_region m false h f)
                (iomap-Probed o h f)))
      ]

  enable-Probed :
      (o : Answers m) (h : Host m) (f : ℕ) → Probed m f (probe_enable m o (bound m h memory_held f))
  unfolding probe_enable
  enable-Probed o h f =
      or_else-Probed m f o.enable (err_free_device m) (bound m h memory_held f) _
        (Clears-free_device m false h f)
        (or_else-Probed m f (maybe_fail_probe m o 1) (err_disable_device m)
          (bound m h enabled_held f) _ (Clears-disable_device m false h f) (region-Probed o h f))

  -- A probe of a driver that holds nothing succeeds with all that a bound m driver holds, the rings
  -- both or not at all, and one reference, or it fails, whatever step it is that fails, and holds
  -- nothing; in neither case was anything given up that was not held.
  pub probe-Probed :
      (o : Answers m) (fresh : Host m) (s : Bound m)
      → s.held ≡ nothing
      → Probed m s.faults (probe m o fresh s)
  unfolding probe
  probe-Probed o fresh s e = elim (Bool-cases (not o.memory)) [
    | inl f ↦ subst (Probed m s.faults) (sym (if_true _ _ _ f)) (inr (cc, e, refl))
    | inr f ↦
        subst (Probed m s.faults) (sym (if_false _ _ _ f)) (rw e (enable-Probed o fresh s.faults))
  ]
