-- ===== src/Host/Acquire.antt =====
-- kernel/vams_pci.c: what a probe acquires (vams_alloc_queues, vams_register_chardev,
-- vams_set_dma_mask), and the answers of the kernel on the way.
use virtual_accelerator_mana.Base.{
  ℕ, Bool, true, false, ◌||◌, if◌then◌else◌, ◌!=◌, Option, none, some, replicate, bit_and,
}
use virtual_accelerator_mana.Abi.{Submission}
use virtual_accelerator_mana.Zephyr.{Mmio}
use virtual_accelerator_mana.Host.Uapi.{Code, ok, eio, enomem, efault}
use virtual_accelerator_mana.Host.Registers.{queue_depth}
use virtual_accelerator_mana.Host.State.{Host}
use virtual_accelerator_mana.Host.Queues.{no_completion}
use virtual_accelerator_mana.Host.Bound.{Bound, free_sq, free_cq, free_instance}

-- What the kernel answers to the calls of a probe. `fail_step` is the parameter that makes a probe
-- fail on purpose, 0 where the driver is built without it; the self-tests are those of such a build.
pub record Answers (m : Mmio) : Type 0 where
  pub memory : Bool
  pub enable : Code
  pub bar0_memory : Bool
  pub bar0_length : ℕ
  pub region : Code
  pub iomap : Bool
  pub dma_mask_64 : Code
  pub dma_mask_32 : Code
  pub sq : Option ℕ
  pub cq : Option ℕ
  pub vectors : Code
  pub vector_count : ℕ
  pub cq_irq : Code
  pub async_irq : Code
  pub instance_id : Code
  pub misc_name : Bool
  pub misc : Code
  pub fail_step : ℕ
  pub irq_selftest : Host m → Host m × Code
  pub nop_selftest : Host m → Host m × Code
  pub poll_selftest : Host m → Host m × Code

abbrev pub no_submission : Submission
no_submission = record {
  version = 0;
  opcode = 0;
  flags = 0;
  command_id = 0;
  source_dma = 0;
  destination_dma = 0;
  length = 0;
  timeout_ms = 0;
  user_cookie = 0;
  expected_crc = 0;
  reserved0 = 0;
  reserved1 = 0;
  reserved2 = 0;
}

abbrev pub is_unaligned_64 : ℕ → Bool
is_unaligned_64 address = bit_and address 63 != 0

module _ (m : Mmio) where
  -- The next step if the last one succeeded, and else a label.
  abbrev pub or_else :
      Code → (Bound m → Bound m) → Bound m → (Bound m → Bound m × Code) → Bound m × Code
  or_else ok label s next = next s
  or_else failed label s next = (label s, failed)

  unfoldable pub maybe_fail_probe : Answers m → ℕ → Code
  maybe_fail_probe o step = if o.fail_step != step then ok else eio

  unfoldable pub set_dma_mask : Answers m → Code
  set_dma_mask o = elim o.dma_mask_64 [ ok ↦ ok | failed ↦ o.dma_mask_32 ]

  -- The rings at two addresses, where their allocation succeeds. Both are zeroed memory.
  unfoldable pub alloc_rings : Option ℕ → Option ℕ → Bound m → Bound m × Code
  alloc_rings none cq s = (s, enomem)
  alloc_rings (some sq_dma) none s =
      let s1 = record s {
        held = record s.held { sq = true };
        host = record s.host { sq = replicate queue_depth no_submission; sq_dma = sq_dma };
      } in
      (free_sq m s1, enomem)
  alloc_rings (some sq_dma) (some cq_dma) s =
      let s1 = record s {
        held = record s.held { sq = true; cq = true };
        host = record s.host {
          sq = replicate queue_depth no_submission;
          sq_dma = sq_dma;
          cq = replicate queue_depth no_completion;
          cq_dma = cq_dma;
        };
      } in
      if is_unaligned_64 sq_dma || is_unaligned_64 cq_dma
      then (free_sq m (free_cq m s1), efault)
      else (s1, ok)

  unfoldable pub alloc_queues : Answers m → Bound m → Bound m × Code
  unfolding alloc_rings
  alloc_queues o s = alloc_rings o.sq o.cq s

  -- The name and the registration of the character device, once it has its instance number.
  unfoldable pub register_misc : Bool → Code → Bound m → Bound m × Code
  register_misc false misc s = (free_instance m s, enomem)
  register_misc true ok s =
      (record s { held = record s.held { misc_name = true; misc = true } }, ok)
  register_misc true failed s =
      (free_instance m (record s { held = record s.held { misc_name = false } }), failed)

  unfoldable pub register_instance : Code → Bool → Code → Bound m → Bound m × Code
  unfolding register_misc
  register_instance ok name misc s =
      register_misc name misc (record s { held = record s.held { instance_id = true } })
  register_instance failed name misc s = (s, failed)

  unfoldable pub register_chardev : Answers m → Bound m → Bound m × Code
  unfolding register_instance
  register_chardev o s = register_instance o.instance_id o.misc_name o.misc s
