-- ===== src/Services/Turns.antt =====
-- A turn of the health monitor (main.c, vams_health_monitor).
use virtual_accelerator_mana.Base.{
  ℕ, ◌-◌, ◌+◌, ◌<◌, ◌^◌, ◌≡◌, ap, ◌∙◌, sym, subst, inl, inr, Bool, true, false, Bool-cases, not,
  ◌&&◌, if◌then◌else◌, if_true, if_false, List, Option, none, some, ltb, u64, arith,
}
use virtual_accelerator_mana.Zephyr.{Mmio, Msgq, IsRam}
use virtual_accelerator_mana.Health.{tracker_update}
use virtual_accelerator_mana.Management.{retention_base}
use virtual_accelerator_mana.Log.{Log, Event, uptime_get, event_watchdog_withheld}
use virtual_accelerator_mana.Log.Invariant.{IsLog}
use virtual_accelerator_mana.Log.Emit.{IsEmitted, ring_entry, emit_total}
use virtual_accelerator_mana.Pipeline.Handing.{bind_some}
use virtual_accelerator_mana.Services.Watch.{Monitor, petted, tend_watchdog, health_turn}
use virtual_accelerator_mana.Services.Petting.{
  IsSeparate, pet, runs, watchdog_pet-runs, watchdog_pet-stopped, pet-IsLog,
}
use virtual_accelerator_mana.Services.Reports.{Reported, reporting, reported_as}

module _ (m : Mmio) (base : ℕ) (q : Msgq Event) (ram : IsRam m (base + retention_base) 32)
    (clock : ℕ → ℕ) (apart : IsSeparate m base) (expiry_test : Bool) where
  -- The monitor whose watchdog has been petted.
  abbrev pub after_pet : ℕ → Monitor m base q clock expiry_test → Monitor m base q clock expiry_test
  after_pet now s = record s {
    log = record s.log { device = pet m base s.log.device };
    last_pet_ms = now;
    max_interval_ms =
        let interval = u64 (now + (2 ^ 64 - s.last_pet_ms)) in
        if ltb s.max_interval_ms interval then interval else s.max_interval_ms;
  }

  -- What the end of a turn comes to at `now`, for a monitor that has told what there was to tell:
  -- the watchdog is petted, or found stopped, which fails the assertion; it is left alone; or, in a
  -- build that tests the expiry, it is left alone and that is told once.
  pub data Tended (healthy : Bool) (now : ℕ) (s : Monitor m base q clock expiry_test)
      : Option (Monitor m base q clock expiry_test) → Type 0 where
    pets :
        expiry_test ≡ false
        → healthy ≡ true
        → s.overload_reset_requested ≡ false
        → runs m base q ram clock apart s.log.device ≡ true
        → IsLog m base q ram (after_pet now s).log
        → Tended healthy now s (some (after_pet now s))
    stopped :
        expiry_test ≡ false
        → healthy ≡ true
        → s.overload_reset_requested ≡ false
        → runs m base q ram clock apart s.log.device ≡ false
        → Tended healthy now s none
    spares :
        expiry_test ≡ false
        → healthy && not s.overload_reset_requested ≡ false
        → IsLog m base q ram s.log
        → Tended healthy now s (some s)
    withholds :
        (l : Log m q)
        → expiry_test ≡ true
        → s.expiry_announced ≡ false
        → IsEmitted m base q ram clock
            (ring_entry m base q ram clock event_watchdog_withheld 0 s.generation
              (u64 (clock s.log.clock_reads)))
            s.log
            l
        → Tended healthy now s (some (record s { expiry_announced = true; log = l }))
    silent :
        expiry_test ≡ true
        → s.expiry_announced ≡ true
        → IsLog m base q ram s.log
        → Tended healthy now s (some s)

  withheld :
      (healthy : Bool) (now : ℕ) (s : Monitor m base q clock expiry_test)
      → IsLog m base q ram s.log
      → s.generation < 2 ^ 32
      → expiry_test ≡ true
      → Tended healthy now s (tend_watchdog m base q clock expiry_test healthy now s)
  unfolding tend_watchdog
  withheld healthy now s v g test = elim (Bool-cases s.expiry_announced) [
    | inl told ↦
        subst (Tended healthy now s) (sym (if_true _ _ _ test ∙ if_true _ _ _ told))
          (silent test told v)
    | inr untold ↦
        let (l, done, e) =
          emit_total m base q ram clock event_watchdog_withheld 0 s.generation 0 0 0 0 s.log v
            (omega arith) (omega arith) g in
        subst (Tended healthy now s)
          (sym (if_true _ _ _ test ∙ if_false _ _ _ untold ∙ bind_some _ done))
          (withholds l test untold e)
  ]

  petted_when :
      (healthy : Bool) (now : ℕ) (s : Monitor m base q clock expiry_test)
      → IsLog m base q ram s.log
      → expiry_test ≡ false
      → healthy && not s.overload_reset_requested ≡ true
      → Tended healthy now s (tend_watchdog m base q clock expiry_test healthy now s)
  unfolding tend_watchdog
  petted_when healthy now s v live fine =
      let well : healthy ≡ true = ground (arith, fine) in
      let no_reset : s.overload_reset_requested ≡ false = ground (arith, fine) in
      elim (Bool-cases (runs m base q ram clock apart s.log.device)) [
        | inl on ↦
            subst (Tended healthy now s)
              (sym (
                if_false _ _ _ live
                ∙ if_true _ _ _ fine
                ∙ ap (λ r. petted m base q clock expiry_test now r s)
                    (watchdog_pet-runs m base q ram clock apart s.log.device on)))
              (pets live well no_reset on (pet-IsLog m base q ram clock apart s.log v))
        | inr off ↦
            subst (Tended healthy now s)
              (sym (
                if_false _ _ _ live
                ∙ if_true _ _ _ fine
                ∙ ap (λ r. petted m base q clock expiry_test now r s)
                    (watchdog_pet-stopped m base q ram clock apart s.log.device off)))
              (stopped live well no_reset off)
      ]

  tends :
      (healthy : Bool) (now : ℕ) (s : Monitor m base q clock expiry_test)
      → IsLog m base q ram s.log
      → s.generation < 2 ^ 32
      → Tended healthy now s (tend_watchdog m base q clock expiry_test healthy now s)
  unfolding tend_watchdog
  tends healthy now s v g = elim (Bool-cases expiry_test) [
    | inl test ↦ withheld healthy now s v g test
    | inr live ↦ elim (Bool-cases (healthy && not s.overload_reset_requested)) [
      | inl fine ↦ petted_when healthy now s v live fine
      | inr not_fine ↦
          subst (Tended healthy now s) (sym (if_false _ _ _ live ∙ if_false _ _ _ not_fine))
            (spares live not_fine v)
    ]
  ]

  -- The monitor when it has read the time and the epochs.
  abbrev pub observing :
      List ℕ → Monitor m base q clock expiry_test → Monitor m base q clock expiry_test
  observing epochs s =
      let tracker' = (tracker_update s.tracker epochs).0 in
      record s {
        log = record s.log { clock_reads = s.log.clock_reads + 1 };
        tracker = tracker';
        health_failure_count = tracker'.failure_count;
        health_stuck_task = tracker'.stuck_task;
      }

  -- What a turn on these readings of the epochs comes to.
  pub record IsTurn (epochs : List ℕ) (s : Monitor m base q clock expiry_test)
      (r : Option (Monitor m base q clock expiry_test)) : Type 0 where
    pub told : Log m q
    pub reported :
        Reported m base q ram clock apart expiry_test
          (u64 (clock s.log.clock_reads))
          (observing epochs s)
          told
          (tracker_update s.tracker epochs).1
    pub tended :
        let healthy = (tracker_update s.tracker epochs).1 in
        Tended healthy
          (u64 (clock s.log.clock_reads))
          (reporting m base q ram clock apart expiry_test healthy told (observing epochs s))
          r

  -- On a machine whose management registers leave the retention memory alone, with a valid record, a
  -- generation that fits its field and a stuck task and a count of failures that fit theirs, a turn
  -- of the health monitor first tells what the tracker has found: of a healthy update it counts a
  -- heartbeat, publishes the telemetry and emits its event; of a failure not told yet it records
  -- the stuck task and the count and emits an event; of one told before it tells nothing. Then it
  -- pets the watchdog, last of all, and takes the time of it where the update was healthy, no
  -- overload reset is requested and the build does not test the expiry, except that it fails an
  -- assertion where the watchdog reads as stopped; otherwise it leaves the watchdog alone, which a
  -- build that tests the expiry tells once.
  pub health_turn-IsTurn :
      (epochs : List ℕ) (s : Monitor m base q clock expiry_test)
      → IsLog m base q ram s.log
      → s.generation < 2 ^ 32
      → (tracker_update s.tracker epochs).0.stuck_task < 2 ^ 32
      → (tracker_update s.tracker epochs).0.failure_count < 2 ^ 32
      → IsTurn epochs s (health_turn m base q clock expiry_test epochs s)
  unfolding health_turn uptime_get
  health_turn-IsTurn epochs s v g k f =
      let now = u64 (clock s.log.clock_reads) in
      let healthy = (tracker_update s.tracker epochs).1 in
      let s0 = observing epochs s in
      let v0 : IsLog m base q ram s0.log = record {
        sound = v.sound;
        valid = v.valid;
        held = v.held;
        drops_fit = v.drops_fit;
      } in
      let (s1, l, failed, shown, w, reported) =
        reported_as m base q ram clock apart expiry_test healthy now s0 v0 g k f in
      let s2 = reporting m base q ram clock apart expiry_test healthy l s0 in
      record {
        told = l;
        reported = reported;
        tended =
            subst (Tended healthy now s2) (sym (bind_some _ failed ∙ bind_some _ shown))
              (tends healthy now s2 w g);
      }
