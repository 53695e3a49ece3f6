-- ===== src/Services/Reports.antt =====
-- What the health monitor tells in a turn (main.c, vams_health_monitor): a new failure, or the
-- telemetry of a healthy turn.
use virtual_accelerator_mana.Base.{
  ℕ, ◌+◌, ◌<◌, ◌^◌, ◌≡◌, ◌≢◌, refl, sym, ap, ◌∙◌, inl, inr, Bool, true, false, Bool-cases, ◌!=◌,
  if◌then◌else◌, if_true, if_false, some, u32, u64, arith,
}
use virtual_accelerator_mana.Zephyr.{Mmio, Msgq, IsRam}
use virtual_accelerator_mana.Management.{retention_base, publish}
use virtual_accelerator_mana.Log.{Log, Event, emit, event_telemetry, event_health_stuck}
use virtual_accelerator_mana.Log.Invariant.{IsLog}
use virtual_accelerator_mana.Log.Emit.{IsEmitted, ring_entry, emit_total, note_health_total}
use virtual_accelerator_mana.Pipeline.Handing.{bind_some}
use virtual_accelerator_mana.Services.Watch.{
  Monitor, firmware_version, report_failure, publish_telemetry,
}
use virtual_accelerator_mana.Services.Petting.{IsSeparate, publish-IsLog}

module _ (m : Mmio) (base : ℕ) (q : Msgq Event) (ram : IsRam m (base + retention_base) 32)
    (clock : ℕ → ℕ) (apart : IsSeparate m base) (expiry_test : Bool) where
  -- The count of failures told so far, and of healthy turns, after a turn.
  abbrev pub now_reported : Bool → Monitor m base q clock expiry_test → ℕ
  now_reported healthy s = if healthy then s.reported_failure_count else s.tracker.failure_count

  abbrev pub now_beats : Bool → Monitor m base q clock expiry_test → ℕ
  now_beats healthy s = if healthy then u32 (s.heartbeat + 1) else s.heartbeat

  -- The log with the telemetry in the management registers.
  abbrev pub shown : ℕ → Monitor m base q clock expiry_test → Log m q
  shown now s = record s.log {
    device = publish m base (u32 (s.heartbeat + 1)) now firmware_version s.log.device;
  }

  -- The log `l` that is left. Of a healthy turn the telemetry is published and its event emitted,
  -- which becomes the newest of the ring and is queued or counted as lost. Of a failure that was not
  -- told yet the stuck task and the count are recorded, and its event is emitted. Of one that was,
  -- nothing is told again.
  pub data Reported (now : ℕ) (s : Monitor m base q clock expiry_test) (l : Log m q)
      : Bool → Type 0 where
    fine :
        emit m base q clock event_telemetry 0 s.generation
            (u32 (s.heartbeat + 1))
            0
            0
            now
            (shown now s)
          ≡ some l
        → IsEmitted m base q ram clock
            (ring_entry m base q ram clock event_telemetry 0 s.generation
              (u64 (clock s.log.clock_reads)))
            (shown now s)
            l
        → Reported now s l true
    told :
        (l1 : Log m q)
        → s.tracker.failure_count ≢ s.reported_failure_count
        → l1.retained.last_stuck_task ≡ s.tracker.stuck_task
        → l1.retained.health_failure_count ≡ s.tracker.failure_count
        → emit m base q clock event_health_stuck 0 s.generation s.tracker.stuck_task
            s.tracker.failure_count 0 0 l1
          ≡ some l
        → IsEmitted m base q ram clock
            (ring_entry m base q ram clock event_health_stuck 0 s.generation
              (u64 (clock l1.clock_reads)))
            l1
            l
        → Reported now s l false
    known : s.tracker.failure_count ≡ s.reported_failure_count → l ≡ s.log → Reported now s l false

  -- The monitor once it has told what there was to tell.
  abbrev pub reporting :
      Bool → Log m q → Monitor m base q clock expiry_test → Monitor m base q clock expiry_test
  reporting healthy l s = record s {
    reported_failure_count = now_reported healthy s;
    heartbeat = now_beats healthy s;
    log = l;
  }

  pub reported_as :
      (healthy : Bool) (now : ℕ) (s : Monitor m base q clock expiry_test)
      → IsLog m base q ram s.log
      → s.generation < 2 ^ 32
      → s.tracker.stuck_task < 2 ^ 32
      → s.tracker.failure_count < 2 ^ 32
      → (s1 : Monitor m base q clock expiry_test) × (l : Log m q) × (report_failure m base q clock
            expiry_test healthy s
          ≡ some s1)
        × (publish_telemetry m base q clock expiry_test healthy now s1
            ≡ some (reporting healthy l s))
        × IsLog m base q ram l
        × Reported now s l healthy
  unfolding report_failure publish_telemetry
  reported_as true now s v g k f =
      let beat = u32 (s.heartbeat + 1) in
      let (l, told', e) =
        emit_total m base q ram clock event_telemetry 0 s.generation beat 0 0 now (shown now s)
          (publish-IsLog m base q ram clock apart beat now firmware_version s.log v) (omega arith)
          (omega arith) g in
      (s, l, refl, bind_some _ told', e.is_log, fine told' e)
  reported_as false now s v g k f =
      elim (Bool-cases (s.tracker.failure_count != s.reported_failure_count)) [
        | inl new ↦
            let (l1, noted, w, stuck, count) =
              note_health_total m base q ram clock s.tracker.stuck_task s.tracker.failure_count
                s.log v k f in
            let (l2, told', e) =
              emit_total m base q ram clock event_health_stuck 0 s.generation s.tracker.stuck_task
                s.tracker.failure_count 0 0 l1 w (omega arith) (omega arith) g in
            (
              reporting false l2 s,
              l2,
              if_true _ _ _ new ∙ bind_some _ noted ∙ bind_some _ told',
              refl,
              e.is_log,
              told l1 (ground (arith, new)) stuck count told' e,
            )
        | inr old ↦
            let same : s.tracker.failure_count ≡ s.reported_failure_count = ground (arith, old) in
            (
              reporting false s.log s,
              s.log,
              if_false _ _ _ old
                  ∙ ap (λ n. some (record s { reported_failure_count = n })) (sym same),
              refl,
              v,
              known same refl,
            )
      ]
