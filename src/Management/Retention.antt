-- ===== src/Management/Retention.antt =====
-- The retention memory gives back the words that were written to it.
use virtual_accelerator_mana.Base.{ℕ, ◌+◌, ◌*◌, ◌/◌, ◌≤◌, ◌≡◌, List, some, length, arith}
use virtual_accelerator_mana.Zephyr.{Mmio, IsRam}
use virtual_accelerator_mana.Zephyr.Words.{write_words, Holds, read_words-Holds, write_words-Holds}
use virtual_accelerator_mana.Management.{retention_read, retention_write, retention_base}

module _ (m : Mmio) (base : ℕ) (ram : IsRam m (base + retention_base) (32)) where
  open m use {Device, read32, write32}

  pub retention_read-Holds :
      (ws : List ℕ) (d : Device)
      → length ws ≤ 32
      → Holds m (base + retention_base) 32 ram 0 ws d
      → retention_read m base (4 * length ws) d ≡ some (d, ws)
  unfolding retention_read
  retention_read-Holds ws d fits held =
      let n : 4 * length ws / 4 ≡ length ws = omega arith in
      ground (arith, n, read_words-Holds m (base + retention_base) 32 ram ws 0 d (omega arith) held)

  -- A write of up to 32 words at the assertion's sizes succeeds, and a read of as many words then
  -- gives them back and leaves the device as it was.
  pub retention_read-write :
      (ws : List ℕ) (d : Device)
      → length ws ≤ 32
      → (d' : Device) × (retention_write m base ws (4 * length ws) d ≡ some d')
        × Holds m (base + retention_base) 32 ram 0 ws d'
        × (retention_read m base (4 * length ws) d' ≡ some (d', ws))
  unfolding retention_write
  retention_read-write ws d fits =
      let d' = write_words m (base + retention_base) ws 0 d in
      let held = write_words-Holds m (base + retention_base) 32 ram ws 0 d (omega arith) in
      (d', ground arith, held, retention_read-Holds ws d' fits held)
