-- ===== src/Host/Bound.antt =====
-- kernel/vams_pci.c: what the driver holds while it is bound to an endpoint, and the steps that give
-- it up: the labels at the end of vams_probe, vams_free_queues and vams_device_release.
use virtual_accelerator_mana.Base.{ℕ, suc, ◌-◌, Bool, true, false, if◌then◌else◌, ◌==◌}
use virtual_accelerator_mana.Zephyr.{Mmio}
use virtual_accelerator_mana.Host.Uapi.{enodev}
use virtual_accelerator_mana.Host.State.{Host}
use virtual_accelerator_mana.Host.Requests.{cancel_requests}
use virtual_accelerator_mana.Host.Queues.{disable_queues}
use virtual_accelerator_mana.Host.Interrupts.{mask_interrupts}

-- `memory` and `pdev` are `struct vams_device` and its reference to the PCI device.
pub record Held : Type 0 where
  pub memory : Bool
  pub pdev : Bool
  pub enabled : Bool
  pub region : Bool
  pub bar0 : Bool
  pub sq : Bool
  pub cq : Bool
  pub vectors : Bool
  pub cq_irq : Bool
  pub async_irq : Bool
  pub drvdata : Bool
  pub master : Bool
  pub instance_id : Bool
  pub misc_name : Bool
  pub misc : Bool

-- `refs` is the reference counter of the device; `faults` counts what was given up without being
-- held.
pub record Bound (m : Mmio) : Type 0 where
  pub host : Host m
  pub held : Held
  pub refs : ℕ
  pub faults : ℕ

-- The faults after something was given up that was held or not.
abbrev pub faults_after : Bool → ℕ → ℕ
faults_after true faults = faults
faults_after false faults = suc faults

module _ (m : Mmio) where
  abbrev pub disable_device : Bound m → Bound m
  disable_device s = record s {
    held = record s.held { enabled = false };
    faults = faults_after s.held.enabled s.faults;
  }

  abbrev pub release_region : Bound m → Bound m
  release_region s = record s {
    held = record s.held { region = false };
    faults = faults_after s.held.region s.faults;
  }

  abbrev pub iounmap : Bound m → Bound m
  iounmap s = record s {
    held = record s.held { bar0 = false };
    faults = faults_after s.held.bar0 s.faults;
  }

  abbrev pub free_sq : Bound m → Bound m
  free_sq s = record s {
    held = record s.held { sq = false };
    faults = faults_after s.held.sq s.faults;
  }

  abbrev pub free_cq : Bound m → Bound m
  free_cq s = record s {
    held = record s.held { cq = false };
    faults = faults_after s.held.cq s.faults;
  }

  -- The two pointers are null when their ring is not held.
  unfoldable pub free_queues : Bound m → Bound m
  free_queues s =
      let s1 = if s.held.cq then free_cq s else s in if s1.held.sq then free_sq s1 else s1

  abbrev pub free_vectors : Bound m → Bound m
  free_vectors s = record s {
    held = record s.held { vectors = false };
    faults = faults_after s.held.vectors s.faults;
  }

  abbrev pub free_cq_irq : Bound m → Bound m
  free_cq_irq s = record s {
    held = record s.held { cq_irq = false };
    faults = faults_after s.held.cq_irq s.faults;
  }

  abbrev pub free_async_irq : Bound m → Bound m
  free_async_irq s = record s {
    held = record s.held { async_irq = false };
    faults = faults_after s.held.async_irq s.faults;
  }

  abbrev pub deregister_misc : Bound m → Bound m
  deregister_misc s = record s {
    held = record s.held { misc = false };
    faults = faults_after s.held.misc s.faults;
  }

  abbrev pub free_instance : Bound m → Bound m
  free_instance s = record s {
    held = record s.held { instance_id = false };
    faults = faults_after s.held.instance_id s.faults;
  }

  -- `kfree` of the name takes a null pointer too.
  unfoldable pub device_release : Bound m → Bound m
  device_release s =
      let s1 = if s.held.instance_id then free_instance s else s in
      record s1 {
        held = record s1.held { misc_name = false; pdev = false; memory = false };
        faults = faults_after s1.held.memory (faults_after s1.held.pdev s1.faults);
      }

  -- `kref_put` of the device.
  unfoldable pub device_put : Bound m → Bound m
  unfolding device_release
  device_put s =
      let s1 = record s { refs = s.refs - 1 } in if s.refs == 1 then device_release s1 else s1

  abbrev pub on_host : (Host m → Host m) → Bound m → Bound m
  on_host change s = record s { host = change s.host }

  -- The labels of vams_probe, each of which goes on to the next.
  unfoldable pub err_free_device : Bound m → Bound m
  unfolding device_put
  err_free_device s = device_put s

  unfoldable pub err_disable_device : Bound m → Bound m
  unfolding err_free_device
  err_disable_device s = err_free_device (disable_device s)

  unfoldable pub err_release_region : Bound m → Bound m
  unfolding err_disable_device
  err_release_region s = err_disable_device (release_region s)

  unfoldable pub err_iounmap : Bound m → Bound m
  unfolding err_release_region
  err_iounmap s = err_release_region (iounmap s)

  unfoldable pub err_free_queues : Bound m → Bound m
  unfolding err_iounmap free_queues
  err_free_queues s = err_iounmap (free_queues s)

  unfoldable pub err_free_vectors : Bound m → Bound m
  unfolding err_free_queues
  err_free_vectors s = err_free_queues (free_vectors s)

  -- The reset work is cancelled before the requests.
  unfoldable pub err_free_cq_irq : Bound m → Bound m
  unfolding err_free_vectors
  err_free_cq_irq s = err_free_vectors (
      on_host (λ h. cancel_requests m enodev false (record h { reset_scheduled = false }))
        (free_cq_irq s))

  unfoldable pub err_free_async_irq : Bound m → Bound m
  unfolding err_free_cq_irq
  err_free_async_irq s = err_free_cq_irq (free_async_irq s)

  unfoldable pub err_clear_master : Bound m → Bound m
  unfolding err_free_async_irq
  err_clear_master s =
      let s1 = on_host (λ h. disable_queues m (mask_interrupts m h)) s in
      err_free_async_irq (record s1 { held = record s1.held { master = false; drvdata = false } })

  unfoldable pub err_deregister_misc : Bound m → Bound m
  unfolding err_clear_master
  err_deregister_misc s = err_clear_master (
      on_host (λ h. record h { poll_scheduled = false })
        (deregister_misc (on_host (λ h. record h { removing = true }) s)))
