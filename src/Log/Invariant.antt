-- ===== src/Log/Invariant.antt =====
-- What holds of the log between two calls: the record is valid, and the retention memory has it.
use virtual_accelerator_mana.Base.{ℕ, ◌+◌, ◌<◌, ◌^◌, ◌≡◌, refl, true, some, arith}
use virtual_accelerator_mana.Zephyr.{Mmio, Msgq, IsRam}
use virtual_accelerator_mana.Management.{retention_base}
use virtual_accelerator_mana.Management.Retention.{retention_read-write}
use virtual_accelerator_mana.Zephyr.Words.{Holds}
use virtual_accelerator_mana.Retained.{RetainedRecord, words, with_crc, retained_validate}
use virtual_accelerator_mana.Retained.Layout.{with_crc-validate, length-words}
use virtual_accelerator_mana.Retained.Sound.{IsSound, with_crc-IsSound}
use virtual_accelerator_mana.Log.{Log, Event, commit}

module _ (m : Mmio) (base : ℕ) (q : Msgq Event) (ram : IsRam m (base + retention_base) 32) where
  pub record IsLog (l : Log m q) : Type 0 where
    pub sound : IsSound l.retained
    pub valid : retained_validate l.retained ≡ true
    pub held : Holds m (base + retention_base) 32 ram 0 (words l.retained) l.device
    pub drops_fit : l.drop_count < 2 ^ 32

  -- What a commit of `r` makes of `l`.
  pub record IsCommitted (r : RetainedRecord) (l l' : Log m q) : Type 0 where
    pub is_log : IsLog l'
    pub stored : l'.retained ≡ with_crc r
    pub same_queue : l'.queue ≡ l.queue
    pub same_drops : l'.drop_count ≡ l.drop_count
    pub same_clock : l'.clock_reads ≡ l.clock_reads

  pub commit_total :
      (clock : ℕ → ℕ) (r : RetainedRecord) (l : Log m q)
      → IsSound r
      → l.drop_count < 2 ^ 32
      → (l' : Log m q) × (commit m base q clock r l ≡ some l') × IsCommitted r l l'
  unfolding commit
  commit_total clock r l v f =
      let r' = with_crc r in
      let sound = with_crc-IsSound r v in
      let n = length-words r' sound.ring.slots in
      let (d, written, held, read) =
        retention_read-write m base ram (words r') l.device (omega arith) in
      (
        record l { retained = r'; device = d },
        ground (arith, n, written),
        record {
          is_log = record {
            sound = sound;
            valid = with_crc-validate r v.magic v.version v.size;
            held = held;
            drops_fit = f;
          };
          stored = refl;
          same_queue = refl;
          same_drops = refl;
          same_clock = refl;
        },
      )
