-- ===== src/Services/Petting.antt =====
-- The writes of the health monitor leave the retention memory alone (main.c, vams_health_monitor).
use virtual_accelerator_mana.Base.{
  ℕ, ◌+◌, ◌*◌, ◌/◌, ◌<◌, ◌^◌, ◌≡◌, Bool, true, false, ◌==◌, ◌!=◌, if_false, if_true, bit_and, u32,
  arith,
}
use virtual_accelerator_mana.Zephyr.{Mmio, Msgq, IsRam, success, eacces}
use virtual_accelerator_mana.Zephyr.Words.{Holds-same}
use virtual_accelerator_mana.Management.{
  publish, watchdog_pet, wdt_control, wdt_enable, wdt_pet, wdt_pet_magic, retention_base,
}
use virtual_accelerator_mana.Retained.Layout.{length-words}
use virtual_accelerator_mana.Log.{Log, Event}
use virtual_accelerator_mana.Log.Invariant.{IsLog}

-- The management registers lie below the retention memory, which they leave alone.
pub record IsSeparate (m : Mmio) (base : ℕ) : Type 0 where
  pub write_keeps :
      (r v i : ℕ) (d : m.Device)
      → r < retention_base
      → i < 32
      → (m.read32 (base + retention_base + 4 * i) (m.write32 v (base + r) d)).0
        ≡ (m.read32 (base + retention_base + 4 * i) d).0
  pub read_keeps :
      (i : ℕ) (d : m.Device)
      → i < 32
      → (m.read32 (base + retention_base + 4 * i) (m.read32 (base + wdt_control) d).1).0
        ≡ (m.read32 (base + retention_base + 4 * i) d).0

-- The device with the watchdog petted.
abbrev pub pet : (m : Mmio) → ℕ → m.Device → m.Device
pet m base d = m.write32 wdt_pet_magic (base + wdt_pet) (m.read32 (base + wdt_control) d).1

module _ (m : Mmio) (base : ℕ) (q : Msgq Event) (ram : IsRam m (base + retention_base) 32)
    (clock : ℕ → ℕ) (apart : IsSeparate m base) where
  -- A device that reads the same in the retention memory.
  same_memory :
      (l : Log m q) (d : m.Device)
      → ((i : ℕ)
          → i < 32
          → (m.read32 (base + retention_base + 4 * i) d).0
            ≡ (m.read32 (base + retention_base + 4 * i) l.device).0)
      → IsLog m base q ram l
      → IsLog m base q ram (record l { device = d })
  same_memory l d same v = record {
    sound = v.sound;
    valid = v.valid;
    held =
        Holds-same m (base + retention_base) 32 ram _ 0 l.device d
          (omega (arith, length-words l.retained v.sound.ring.slots)) same v.held;
    drops_fit = v.drops_fit;
  }

  write-IsLog :
      (r v : ℕ) (l : Log m q)
      → r < retention_base
      → IsLog m base q ram l
      → IsLog m base q ram (record l { device = m.write32 v (base + r) l.device })
  write-IsLog r v l lt w =
      same_memory l (m.write32 v (base + r) l.device) (λ i h. apart.write_keeps r v i l.device lt h)
        w

  pub publish-IsLog :
      (heartbeat uptime version : ℕ) (l : Log m q)
      → IsLog m base q ram l
      → IsLog m base q ram (record l { device = publish m base heartbeat uptime version l.device })
  unfolding publish
  publish-IsLog heartbeat uptime version l v = write-IsLog 0x24 version _ (omega arith) (
      write-IsLog 0x20 (u32 (uptime / 2 ^ 32)) _ (omega arith) (
        write-IsLog 0x1c (u32 uptime) _ (omega arith)
          (write-IsLog 0x18 heartbeat l (omega arith) v)))

  -- Whether the watchdog's control register reads as enabled.
  abbrev pub runs : m.Device → Bool
  runs d = bit_and (m.read32 (base + wdt_control) d).0 wdt_enable != 0

  pub watchdog_pet-runs :
      (d : m.Device) → runs d ≡ true → watchdog_pet m base true d ≡ (pet m base d, success)
  unfolding watchdog_pet
  watchdog_pet-runs d on =
      let off : (bit_and (m.read32 (base + wdt_control) d).0 wdt_enable == 0) ≡ false =
        ground (arith, on) in
      if_false _ _ _ off

  pub watchdog_pet-stopped :
      (d : m.Device)
      → runs d ≡ false
      → watchdog_pet m base true d ≡ ((m.read32 (base + wdt_control) d).1, eacces)
  unfolding watchdog_pet
  watchdog_pet-stopped d off =
      let stopped : (bit_and (m.read32 (base + wdt_control) d).0 wdt_enable == 0) ≡ true =
        ground (arith, off) in
      if_true _ _ _ stopped

  pub pet-IsLog :
      (l : Log m q)
      → IsLog m base q ram l
      → IsLog m base q ram (record l { device = pet m base l.device })
  pet-IsLog l v =
      write-IsLog wdt_pet wdt_pet_magic
        (record l { device = (m.read32 (base + wdt_control) l.device).1 }) (omega arith)
        (same_memory l _ (λ i h. apart.read_keeps i l.device h) v)
