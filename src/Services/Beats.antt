-- ===== src/Services/Beats.antt =====
-- The heartbeat from the producer to the monitor (main.c, vams_producer and vams_monitor), through
-- the queue `h`. `none` is a failed assertion.
use virtual_accelerator_mana.Base.{ℕ, ◌+◌, Option, none, some, u32}
use virtual_accelerator_mana.Atomic.{saturating_atomic_inc}
use virtual_accelerator_mana.Zephyr.{Mmio, Msgq, Status, success}
use virtual_accelerator_mana.Log.{Log, Event, emit, uptime_get, event_heartbeat, ◌>>=◌}

pub record Heartbeat : Type 0 where
  pub sequence : ℕ
  pub uptime_ms : ℕ

module _ (m : Mmio) (base : ℕ) (q : Msgq Event) (clock : ℕ → ℕ) (h : Msgq Heartbeat) where
  -- `sequence` is the producer's.
  pub record Beats : Type 0 where
    pub queue : h.Queue
    pub sequence : ℕ
    pub drop_count : ℕ
    pub producer_epoch : ℕ
    pub monitor_epoch : ℕ
    pub log : Log m q
    pub generation : ℕ

  -- The heartbeat has been put, or was dropped.
  abbrev pub offered : h.Queue × Status → Beats → Beats
  offered (rest, success) s = record s { queue = rest }
  offered (rest, _) s = record s { queue = rest; drop_count = saturating_atomic_inc s.drop_count }

  -- A turn of the producer's loop, up to its sleep.
  unfoldable pub producer_turn : Beats → Beats
  producer_turn s =
      let (now, l) = uptime_get m base q clock s.log in
      offered (h.put (record { sequence = s.sequence; uptime_ms = now }) s.queue) (record s {
        log = l;
        producer_epoch = u32 (s.producer_epoch + 1);
        sequence = u32 (s.sequence + 1);
      })

  -- The queue has been asked for a heartbeat.
  abbrev pub heard : Option (Heartbeat × h.Queue) → Beats → Option Beats
  heard none s = some s
  heard (some (beat, rest)) s = do
    l ← emit m base q clock event_heartbeat 0 s.generation beat.sequence 0 0 beat.uptime_ms s.log
    some (record s { queue = rest; log = l })

  -- A turn of the monitor's loop.
  unfoldable pub monitor_turn : Beats → Option Beats
  monitor_turn s = heard (h.get s.queue) (record s { monitor_epoch = u32 (s.monitor_epoch + 1) })
