-- ===== src/Host/Interrupts.antt =====
-- kernel/vams_pci.c: interrupt handlers and deferred work (vams_observe_reset, vams_cq_poll_work,
-- vams_reset_work, vams_cq_irq, vams_async_irq) and the checks of the endpoint at the probe
-- (vams_mask_interrupts, vams_validate_endpoint). Messages to the kernel log are left out.
use virtual_accelerator_mana.Base.{
  ◌+◌, ◌/◌, ◌^◌, Bool, true, false, ◌||◌, if◌then◌else◌, ltb, ◌==◌, ◌!=◌, bit_and, u64,
}
use virtual_accelerator_mana.Zephyr.{Mmio}
use virtual_accelerator_mana.Host.Uapi.{Code, ok, enodev, eprotonosupport, ebusy, ecanceled}
use virtual_accelerator_mana.Host.Registers.{
  reg_reset_generation, reg_last_reset_reason, reg_intr_status, reg_intr_mask, reg_error_status,
  reg_last_fatal, reg_device_id, reg_hw_if_version, reg_desc_version, reg_capabilities,
  reg_device_status, reg_fw_version, intr_cq, intr_async, intr_error, intr_reset_done, intr_all,
  reset_reason_host_device, reset_reason_host_queue, device_id_value, hw_if_major_supported,
  desc_version_supported, cap_msix, status_ready, status_resetting, status_fatal,
}
use virtual_accelerator_mana.Host.State.{Host}
use virtual_accelerator_mana.Host.Requests.{cancel_requests}
use virtual_accelerator_mana.Host.Queues.{readl, writel, drain_cq}

module _ (m : Mmio) where
  unfoldable pub observe_reset : Host m → Host m
  unfolding readl
  observe_reset s =
      let (generation, s1) = readl m reg_reset_generation s in
      if generation == s1.reset_generation
      then s1
      else let (reason, s2) = readl m reg_last_reset_reason s1 in
        record s2 { reset_reason = reason; reset_generation = generation; reset_scheduled = true }

  unfoldable pub cq_poll_work : Host m → Host m
  cq_poll_work s0 =
      let s = record s0 { poll_scheduled = false } in
      if s.removing
      then s
      else let s1 = (drain_cq m (observe_reset s)).0 in
        if ltb 0 s1.pending_requests then record s1 { poll_scheduled = true } else s1

  unfoldable pub reset_work : Host m → Host m
  reset_work s0 =
      let s = record s0 { reset_scheduled = false } in
      if s.removing
      then s
      else let s1 =
          if s.reset_reason == reset_reason_host_device || s.reset_reason == reset_reason_host_queue
          then record s { queues_ready = false }
          else s in
        cancel_requests m ecanceled true s1

  -- The answer tells whether the interrupt was handled.
  unfoldable pub cq_irq : Host m → Host m × Bool
  unfolding readl writel
  cq_irq s =
      let (status, s1) = readl m reg_intr_status s in
      let pending = bit_and status intr_cq in
      if pending == 0
      then (s1, false)
      else let s2 = writel m reg_intr_status pending (drain_cq m s1).0 in
        (record s2 { cq_interrupts = u64 (s2.cq_interrupts + 1) }, true)

  unfoldable pub async_irq : Host m → Host m × Bool
  unfolding readl writel
  async_irq s =
      let (status, s1) = readl m reg_intr_status s in
      let pending = bit_and status intr_async in
      if pending == 0
      then (s1, false)
      else let s2 =
          if bit_and pending intr_error != 0
          then (readl m reg_last_fatal (readl m reg_error_status s1).1).1
          else s1 in
        let s3 = if bit_and pending intr_reset_done != 0 then observe_reset s2 else s2 in
        let s4 = writel m reg_intr_status pending s3 in
        (record s4 { async_interrupts = u64 (s4.async_interrupts + 1) }, true)

  unfoldable pub mask_interrupts : Host m → Host m
  unfolding readl writel
  mask_interrupts s = (readl m reg_intr_mask (writel m reg_intr_mask intr_all s)).1

  unfoldable pub validate_endpoint : Host m → Host m × Code
  unfolding readl
  validate_endpoint s =
      let (device_id, s1) = readl m reg_device_id s in
      if device_id != device_id_value
      then (s1, enodev)
      else let (hw_if_version, s2) = readl m reg_hw_if_version s1 in
        let s3 = record s2 { hw_if_version = hw_if_version } in
        if hw_if_version / 2 ^ 16 != hw_if_major_supported
        then (s3, eprotonosupport)
        else let (version, s4) = readl m reg_desc_version s3 in
          if version != desc_version_supported
          then (s4, eprotonosupport)
          else let (capabilities, s5) = readl m reg_capabilities s4 in
            let s6 = record s5 { capabilities = capabilities } in
            if bit_and capabilities cap_msix == 0
            then (s6, enodev)
            else let (status, s7) = readl m reg_device_status s6 in
              if bit_and status status_ready == 0
                || bit_and status (status_resetting + status_fatal) != 0
              then (s7, ebusy)
              else let (fw_version, s8) = readl m reg_fw_version s7 in
                let (generation, s9) = readl m reg_reset_generation s8 in
                (record s9 { fw_version = fw_version; reset_generation = generation }, ok)
