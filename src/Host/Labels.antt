-- ===== src/Host/Labels.antt =====
-- What a probe holds after each of its steps, and that the label for that step gives it all up.
use virtual_accelerator_mana.Base.{ℕ, ◌≡◌, ◌≢◌, refl, Bool, true, false, ◌⊎◌, inr}
use virtual_accelerator_mana.Zephyr.{Mmio}
use virtual_accelerator_mana.Host.Uapi.{Code, ok, enodev}
use virtual_accelerator_mana.Host.Requests.{cancel_requests}
use virtual_accelerator_mana.Host.Queues.{disable_queues}
use virtual_accelerator_mana.Host.Interrupts.{mask_interrupts}
use virtual_accelerator_mana.Host.State.{Host}
use virtual_accelerator_mana.Host.Bound.{
  Held, Bound, free_queues, device_release, device_put, err_free_device, err_disable_device,
  err_release_region, err_iounmap, err_free_queues, err_free_vectors, err_free_cq_irq,
  err_free_async_irq, err_clear_master, err_deregister_misc,
}
use virtual_accelerator_mana.Host.Acquire.{or_else}

abbrev pub nothing : Held
nothing = record {
  memory = false;
  pdev = false;
  enabled = false;
  region = false;
  bar0 = false;
  sq = false;
  cq = false;
  vectors = false;
  cq_irq = false;
  async_irq = false;
  drvdata = false;
  master = false;
  instance_id = false;
  misc_name = false;
  misc = false;
}

abbrev pub memory_held : Held
memory_held = record nothing { memory = true; pdev = true }

abbrev pub enabled_held : Held
enabled_held = record memory_held { enabled = true }

abbrev pub region_held : Held
region_held = record enabled_held { region = true }

abbrev pub bar0_held : Held
bar0_held = record region_held { bar0 = true }

abbrev pub rings_held : Bool → Held
rings_held q = record bar0_held { sq = q; cq = q }

abbrev pub vectors_held : Bool → Held
vectors_held q = record (rings_held q) { vectors = true }

abbrev pub cq_irq_held : Bool → Held
cq_irq_held q = record (vectors_held q) { cq_irq = true }

abbrev pub async_irq_held : Bool → Held
async_irq_held q = record (cq_irq_held q) { async_irq = true }

abbrev pub master_held : Bool → Held
master_held q = record (async_irq_held q) { drvdata = true; master = true }

-- All that a bound driver holds; `q` tells whether it has rings.
abbrev pub whole : Bool → Held
whole q = record (master_held q) { instance_id = true; misc_name = true; misc = true }

-- A device with or without the names of its character device.
abbrev pub named : Bool → Held → Held
named n held = record held { instance_id = n; misc_name = n }

module _ (m : Mmio) where
  -- What a probe comes to, for a driver that had seen `faults` faults.
  abbrev pub Probed : ℕ → Bound m × Code → Type 0
  Probed faults (s, code) =
      ((code ≡ ok) × ((q : Bool) × (s.held ≡ whole q)) × (s.refs ≡ 1) × (s.faults ≡ faults))
      ⊎ ((code ≢ ok) × (s.held ≡ nothing) × (s.faults ≡ faults))

  abbrev pub bound : Host m → Held → ℕ → Bound m
  bound host held faults = record { host = host; held = held; refs = 1; faults = faults }

  -- A label gives up all that was held, and nothing twice.
  abbrev pub Clears : ℕ → Bound m → Type 0
  Clears faults s = (s.held ≡ nothing) × (s.faults ≡ faults)

  pub or_else-Probed :
      (faults : ℕ) (code : Code) (label : Bound m → Bound m) (s : Bound m)
      (next : Bound m → Bound m × Code)
      → Clears faults (label s)
      → Probed faults (next s)
      → Probed faults (or_else m code label s next)
  or_else-Probed faults ok label s next clears h = h
  or_else-Probed faults failed label s next clears h = inr (cc, clears.0, clears.1)

  pub Clears-free_device :
      (n : Bool) (h : Host m) (f : ℕ)
      → Clears f (err_free_device m (bound h (named n memory_held) f))
  unfolding err_free_device device_put device_release
  Clears-free_device true h f = (refl, refl)
  Clears-free_device false h f = (refl, refl)

  pub Clears-disable_device :
      (n : Bool) (h : Host m) (f : ℕ)
      → Clears f (err_disable_device m (bound h (named n enabled_held) f))
  unfolding err_disable_device
  Clears-disable_device n h f = Clears-free_device n h f

  pub Clears-release_region :
      (n : Bool) (h : Host m) (f : ℕ)
      → Clears f (err_release_region m (bound h (named n region_held) f))
  unfolding err_release_region
  Clears-release_region n h f = Clears-disable_device n h f

  pub Clears-iounmap :
      (n : Bool) (h : Host m) (f : ℕ) → Clears f (err_iounmap m (bound h (named n bar0_held) f))
  unfolding err_iounmap
  Clears-iounmap n h f = Clears-release_region n h f

  pub Clears-free_queues :
      (n q : Bool) (h : Host m) (f : ℕ)
      → Clears f (err_free_queues m (bound h (named n (rings_held q)) f))
  unfolding err_free_queues free_queues
  Clears-free_queues n true h f = Clears-iounmap n h f
  Clears-free_queues n false h f = Clears-iounmap n h f

  pub Clears-free_vectors :
      (n : Bool) (q : Bool) (h : Host m) (f : ℕ)
      → Clears f (err_free_vectors m (bound h (named n (vectors_held q)) f))
  unfolding err_free_vectors
  Clears-free_vectors n q h f = Clears-free_queues n q h f

  pub Clears-free_cq_irq :
      (n : Bool) (q : Bool) (h : Host m) (f : ℕ)
      → Clears f (err_free_cq_irq m (bound h (named n (cq_irq_held q)) f))
  unfolding err_free_cq_irq
  Clears-free_cq_irq n q h f =
      Clears-free_vectors n q
        (cancel_requests m enodev false (record h { reset_scheduled = false })) f

  pub Clears-free_async_irq :
      (n : Bool) (q : Bool) (h : Host m) (f : ℕ)
      → Clears f (err_free_async_irq m (bound h (named n (async_irq_held q)) f))
  unfolding err_free_async_irq
  Clears-free_async_irq n q h f = Clears-free_cq_irq n q h f

  pub Clears-clear_master :
      (n : Bool) (q : Bool) (h : Host m) (f : ℕ)
      → Clears f (err_clear_master m (bound h (named n (master_held q)) f))
  unfolding err_clear_master
  Clears-clear_master n q h f = Clears-free_async_irq n q (disable_queues m (mask_interrupts m h)) f

  pub Clears-deregister_misc :
      (q : Bool) (h : Host m) (f : ℕ) → Clears f (err_deregister_misc m (bound h (whole q) f))
  unfolding err_deregister_misc
  Clears-deregister_misc q h f =
      Clears-clear_master true q (record h { removing = true; poll_scheduled = false }) f
