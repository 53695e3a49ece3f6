-- ===== src/Services/Watch.antt =====
-- The health monitor (main.c, vams_health_monitor). `none` is a failed assertion. The report of the
-- resources, which it prints once, is left out.
use virtual_accelerator_mana.Base.{
  ℕ, ◌+◌, ◌-◌, ◌^◌, Bool, true, not, ◌&&◌, if◌then◌else◌, ltb, ◌!=◌, List, Option, none, some, u32,
  u64,
}
use virtual_accelerator_mana.Zephyr.{Mmio, Msgq, Status, success}
use virtual_accelerator_mana.Health.{Tracker, tracker_update}
use virtual_accelerator_mana.Management.{publish, watchdog_pet}
use virtual_accelerator_mana.Log.{
  Log, Event, emit, note_health, uptime_get, event_telemetry, event_watchdog_withheld,
  event_health_stuck, ◌>>=◌,
}

abbrev pub firmware_version : ℕ
firmware_version = 0x00010000

-- `expiry_test` is the build's option CONFIG_VAMS_WATCHDOG_EXPIRY_TEST together with a boot that no
-- watchdog reset preceded.
module _ (m : Mmio) (base : ℕ) (q : Msgq Event) (clock : ℕ → ℕ) (expiry_test : Bool) where
  pub record Monitor : Type 0 where
    pub tracker : Tracker
    pub heartbeat : ℕ
    pub reported_failure_count : ℕ
    pub expiry_announced : Bool
    pub last_pet_ms : ℕ
    pub max_interval_ms : ℕ
    pub log : Log m q
    pub generation : ℕ
    pub health_failure_count : ℕ
    pub health_stuck_task : ℕ
    pub overload_reset_requested : Bool

  -- The failure of an episode is recorded and told once.
  unfoldable pub report_failure : Bool → Monitor → Option Monitor
  report_failure healthy s =
      if not healthy && s.tracker.failure_count != s.reported_failure_count
      then (do
        l1 ← note_health m base q clock s.tracker.stuck_task s.tracker.failure_count s.log
        l2 ←
            emit m base q clock event_health_stuck 0 s.generation s.tracker.stuck_task
              s.tracker.failure_count 0 0 l1
        some (record s { reported_failure_count = s.tracker.failure_count; log = l2 }))
      else some s

  -- The telemetry of a healthy turn.
  unfoldable pub publish_telemetry : Bool → ℕ → Monitor → Option Monitor
  publish_telemetry healthy uptime_ms s =
      if healthy
      then (do
        let heartbeat' = u32 (s.heartbeat + 1)
        l ←
            emit m base q clock event_telemetry 0 s.generation heartbeat' 0 0 uptime_ms
              (record s.log {
                device = publish m base heartbeat' uptime_ms firmware_version s.log.device;
              })
        some (record s { heartbeat = heartbeat'; log = l }))
      else some s

  -- The watchdog has been petted; an interval is a difference of 64-bit words.
  abbrev pub petted : ℕ → m.Device × Status → Monitor → Option Monitor
  petted uptime_ms (d, success) s =
      let interval = u64 (uptime_ms + (2 ^ 64 - s.last_pet_ms)) in
      some (record s {
        log = record s.log { device = d };
        last_pet_ms = uptime_ms;
        max_interval_ms = if ltb s.max_interval_ms interval then interval else s.max_interval_ms;
      })
  petted uptime_ms (d, _) s = none

  unfoldable pub tend_watchdog : Bool → ℕ → Monitor → Option Monitor
  tend_watchdog healthy uptime_ms s =
      if expiry_test
      then (if s.expiry_announced then some s else (do
        l ← emit m base q clock event_watchdog_withheld 0 s.generation 0 0 0 0 s.log
        some (record s { expiry_announced = true; log = l })))
      else if healthy && not s.overload_reset_requested
      then petted uptime_ms (watchdog_pet m base true s.log.device) s
      else some s

  -- A turn of the monitor's loop on the `epochs` that it reads.
  unfoldable pub health_turn : List ℕ → Monitor → Option Monitor
  health_turn epochs s = do
    let (uptime_ms, l) = uptime_get m base q clock s.log
    let (tracker', healthy) = tracker_update s.tracker epochs
    s1 ← report_failure healthy (record s {
      log = l;
      tracker = tracker';
      health_failure_count = tracker'.failure_count;
      health_stuck_task = tracker'.stuck_task;
    })
    s2 ← publish_telemetry healthy uptime_ms s1
    tend_watchdog healthy uptime_ms s2
