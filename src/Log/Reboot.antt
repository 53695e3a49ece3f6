-- ===== src/Log/Reboot.antt =====
-- A reset: what the next boot finds in the retention memory.
use virtual_accelerator_mana.Base.{
  ℕ, ◌+◌, ◌<◌, ◌^◌, ◌≡◌, refl, subst, ◌∙◌, true, List, some, min, arith, uint32_max,
}
use virtual_accelerator_mana.Overload.{
  counter_increment, counter_increment-lt, counter_increment_lem,
}
use virtual_accelerator_mana.Zephyr.{Mmio, Msgq, IsRam}
use virtual_accelerator_mana.Management.{retention_base, retention_read}
use virtual_accelerator_mana.Management.Retention.{retention_read-Holds}
use virtual_accelerator_mana.Zephyr.Words.{Holds}
use virtual_accelerator_mana.Retained.{
  RetainedRecord, words, of_words, retained_validate, record_size,
}
use virtual_accelerator_mana.Retained.Layout.{of_words-words, length-words}
use virtual_accelerator_mana.Retained.Ring.{recent_events}
use virtual_accelerator_mana.Retained.Sound.{with_crc_lem}
use virtual_accelerator_mana.Log.{Log, Event, commit, boot, boot_valid}
use virtual_accelerator_mana.Log.Invariant.{IsLog, commit_total}

module _ (m : Mmio) (base : ℕ) (q : Msgq Event) (ram : IsRam m (base + retention_base) 32)
    (clock : ℕ → ℕ) where
  boot_found :
      (r : RetainedRecord) (ws : List ℕ) (reason generation : ℕ) (l : Log m q)
      → retention_read m base record_size l.device ≡ some (l.device, ws)
      → of_words ws ≡ r
      → retained_validate r ≡ true
      → boot m base q clock reason generation l ≡ boot_valid m base q clock reason generation r l
  unfolding boot
  boot_found r ws reason generation l read e valid = rw (read, e, valid) refl

  boot_counted :
      (r : RetainedRecord) (reason generation : ℕ) (l l' : Log m q)
      → commit m base q clock
          (record r {
            boot_count = counter_increment r.boot_count;
            reset_reason = reason;
            reset_generation = generation;
          })
          l
        ≡ some l'
      → boot_valid m base q clock reason generation r l ≡ some (l', true)
  unfolding boot_valid
  boot_counted r reason generation l l' done = rw done refl

  -- What a boot keeps of the record `r` of the run before.
  pub record IsKept (r : RetainedRecord) (reason generation : ℕ) (s : RetainedRecord) : Type 0 where
    pub boots : s.boot_count ≡ min (r.boot_count + 1) uint32_max
    pub reason_stored : s.reset_reason ≡ reason
    pub generation_stored : s.reset_generation ≡ generation
    pub same_stuck : s.last_stuck_task ≡ r.last_stuck_task
    pub same_failures : s.health_failure_count ≡ r.health_failure_count
    pub same_command : s.last_command_id ≡ r.last_command_id
    pub same_command_generation : s.last_command_generation ≡ r.last_command_generation
    pub same_events : recent_events s ≡ recent_events r

  -- A boot of a log `fresh` whose device still has the retention words of a log `old`, whatever
  -- else was reset, finds the record valid, counts the boot, stores reason and generation, and
  -- keeps the old record's stuck task, failures, last command and events.
  pub boot_after_reset :
      (old fresh : Log m q) (reason generation : ℕ)
      → IsLog m base q ram old
      → Holds m (base + retention_base) 32 ram 0 (words old.retained) fresh.device
      → fresh.drop_count < 2 ^ 32
      → reason < 2 ^ 32
      → generation < 2 ^ 32
      → (l : Log m q) × (boot m base q clock reason generation fresh ≡ some (l, true))
        × IsLog m base q ram l
        × IsKept old.retained reason generation l.retained
  boot_after_reset old fresh reason generation v held f p g =
      let r = old.retained in
      let r' : RetainedRecord = record r {
        boot_count = counter_increment r.boot_count;
        reset_reason = reason;
        reset_generation = generation;
      } in
      let sized = length-words r v.sound.ring.slots in
      let read : retention_read m base record_size fresh.device ≡ some (fresh.device, words r) =
        subst (λ n. retention_read m base n fresh.device ≡ some (fresh.device, words r))
          (omega (arith, sized))
          (retention_read-Holds m base ram (words r) fresh.device (omega (arith, sized)) held) in
      let (l, done, k) =
        commit_total m base q ram clock r' fresh (ground (arith, counter_increment-lt r.boot_count))
          f in
      (
        l,
        boot_found r (words r) reason generation fresh read (of_words-words r v.sound.fits) v.valid
            ∙ boot_counted r reason generation fresh l done,
        k.is_log,
        ground (
          arith,
          k.stored,
          with_crc_lem r',
          counter_increment_lem r.boot_count v.sound.fits.boots_fit,
        ),
      )
