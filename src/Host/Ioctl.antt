-- ===== src/Host/Ioctl.antt =====
-- kernel/vams_pci.c: the calls of a process that tell of the driver or try it (vams_ioctl_info,
-- vams_ioctl_nop). Waiting is an argument that gives the device after the wait and its outcome.
use virtual_accelerator_mana.Base.{
  ℕ, Bool, not, ◌&&◌, if◌then◌else◌, leb, ◌==◌, Option, none, some, ◌⊎◌, inl, inr, bit_and,
}
use virtual_accelerator_mana.Command.{max_timeout_ms}
use virtual_accelerator_mana.Zephyr.{Mmio}
use virtual_accelerator_mana.Host.Uapi.{
  Code, ok, enodev, enomem, efault, einval, etimedout, interrupted, IocInfo, IocNop, uapi_version,
}
use virtual_accelerator_mana.Host.Registers.{queue_depth, cap_known}
use virtual_accelerator_mana.Host.State.{Host, request_put}
use virtual_accelerator_mana.Host.Queues.{submit_nop}
use virtual_accelerator_mana.Host.Wait.{
  completed, expired, signalled, Waited, nop_answer, request_alloc,
}

module _ (m : Mmio) where
  unfoldable pub ioctl_info : Bool → Option IocInfo → Host m → Code ⊎ IocInfo
  ioctl_info copied_out none s = inl efault
  ioctl_info copied_out (some i) s =
      if not (i.size == 32 && i.version == uapi_version && i.reserved == 0)
      then inl einval
      else if s.removing
      then inl enodev
      else if not copied_out
      then inl efault
      else inr (record i {
        hw_if_version = s.hw_if_version;
        fw_version = s.fw_version;
        capabilities = bit_and s.capabilities cap_known;
        queue_depth = if s.queues_ready then queue_depth else 0;
        reset_generation = s.reset_generation;
      })

  -- The wait for a NOP that was submitted.
  unfoldable pub nop_wait :
      (ℕ → Host m → Host m × Waited) → ℕ → Bool → IocNop → Host m × Code → Host m × (Code ⊎ IocNop)
  nop_wait wait a copied_out i (s, ok) =
      let (s1, outcome) = wait a s in
      elim outcome [
        | completed ↦ (s1, nop_answer copied_out i (s1.request_at a))
        | expired ↦ (s1, inl etimedout)
        | signalled ↦ (s1, inl interrupted)
      ]
  nop_wait wait a copied_out i (s, failed) = (s, inl failed)

  unfoldable pub ioctl_nop :
      (ℕ → Bool)
      → (ℕ → Bool)
      → (ℕ → Host m → Host m × Waited)
      → ℕ
      → Bool
      → Bool
      → Option IocNop
      → Host m
      → Host m × (Code ⊎ IocNop)
  unfolding nop_wait request_alloc
  ioctl_nop owner_full full wait a memory copied_out none s = (s, inl efault)
  ioctl_nop owner_full full wait a memory copied_out (some i) s =
      if not (
        i.size == 56
        && i.version == uapi_version
        && i.flags == 0
        && i.reserved == 0
        && leb i.timeout_ms max_timeout_ms)
      then (s, inl einval)
      else if not memory
      then (s, inl enomem)
      else let submitted =
          submit_nop m owner_full full a i.user_cookie i.timeout_ms (request_alloc m none a s) in
        let (s1, answer) = nop_wait wait a copied_out i submitted in (request_put m a s1, answer)
