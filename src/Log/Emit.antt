-- ===== src/Log/Emit.antt =====
-- `vams_event_emit` and the notes: no call faults, and no event is lost without being counted.
use virtual_accelerator_mana.Base.{
  ℕ, ◌+◌, ◌≤◌, ◌<◌, ◌^◌, ◌≡◌, refl, ap, ◌∙◌, ◌⊎◌, inl, inr, [], ◌∷◌, ◌++◌, some, length, take, min,
  arith, uint32_max, u16, u32, u64,
}
use virtual_accelerator_mana.Atomic.{saturating_atomic_inc}
use virtual_accelerator_mana.Overload.{counter_increment_lem}
use virtual_accelerator_mana.Zephyr.{Mmio, Msgq, IsRam}
use virtual_accelerator_mana.Management.{retention_base}
use virtual_accelerator_mana.Retained.{RetainedEvent, store_event}
use virtual_accelerator_mana.Retained.Ring.{store_event_newest, recent_events, with_crc_recent}
use virtual_accelerator_mana.Retained.Sound.{
  store_event-IsSound, with_crc_lem, push_event-store_event,
}
use virtual_accelerator_mana.Log.{
  Log, Event, note_command, note_health, clear_command, note_event, post, emit, uptime_get,
}
use virtual_accelerator_mana.Log.Invariant.{IsLog, commit_total}

saturating_atomic_inc_lem : (n : ℕ) → n < 2 ^ 32 → saturating_atomic_inc n ≡ min (n + 1) uint32_max
unfolding saturating_atomic_inc
saturating_atomic_inc_lem n h = ground (arith, counter_increment_lem n h)

full_or_room : (n depth : ℕ) → n ≤ depth → (n < depth) ⊎ (n ≡ depth)
full_or_room n depth h = ground arith

module _ (m : Mmio) (base : ℕ) (q : Msgq Event) (ram : IsRam m (base + retention_base) 32)
    (clock : ℕ → ℕ) where
  pub note_command_total :
      (id generation : ℕ) (l : Log m q)
      → IsLog m base q ram l
      → id < 2 ^ 32
      → generation < 2 ^ 32
      → (l' : Log m q) × (note_command m base q clock id generation l ≡ some l')
        × IsLog m base q ram l'
        × (l'.retained.last_command_id ≡ id)
        × (l'.retained.last_command_generation ≡ generation)
  unfolding note_command
  note_command_total id generation l v p g =
      let r = record l.retained { last_command_id = id; last_command_generation = generation } in
      let (l', done, c) = commit_total m base q ram clock r l (ground arith) v.drops_fit in
      (
        l',
        done,
        c.is_log,
        ground (arith, c.stored, with_crc_lem r),
        ground (arith, c.stored, with_crc_lem r),
      )

  pub note_health_total :
      (stuck_task failures : ℕ) (l : Log m q)
      → IsLog m base q ram l
      → stuck_task < 2 ^ 32
      → failures < 2 ^ 32
      → (l' : Log m q) × (note_health m base q clock stuck_task failures l ≡ some l')
        × IsLog m base q ram l'
        × (l'.retained.last_stuck_task ≡ stuck_task)
        × (l'.retained.health_failure_count ≡ failures)
  unfolding note_health
  note_health_total stuck_task failures l v p f =
      let r = record l.retained { last_stuck_task = stuck_task; health_failure_count = failures } in
      let (l', done, c) = commit_total m base q ram clock r l (ground arith) v.drops_fit in
      (
        l',
        done,
        c.is_log,
        ground (arith, c.stored, with_crc_lem r),
        ground (arith, c.stored, with_crc_lem r),
      )

  pub clear_command_total :
      (l : Log m q)
      → IsLog m base q ram l
      → (l' : Log m q) × (clear_command m base q clock l ≡ some l') × IsLog m base q ram l'
  unfolding clear_command
  clear_command_total l v =
      let r = record l.retained { last_command_id = 0; last_command_generation = 0 } in
      let (l', done, c) = commit_total m base q ram clock r l (ground arith) v.drops_fit in
      (l', done, c.is_log)

  -- What becomes of the queue and of the counter of lost events when `e` is posted.
  pub data Posted (e : Event) (l l' : Log m q) : Type 0 where
    queued :
        length (q.contents l.queue) < q.depth l.queue
        → q.contents l'.queue ≡ q.contents l.queue ++ e ∷ []
        → l'.drop_count ≡ l.drop_count
        → Posted e l l'
    dropped :
        length (q.contents l.queue) ≡ q.depth l.queue
        → q.contents l'.queue ≡ q.contents l.queue
        → l'.drop_count ≡ min (l.drop_count + 1) uint32_max
        → Posted e l l'

  post-Posted :
      (e : Event) (l : Log m q) → l.drop_count < 2 ^ 32 → Posted e l (post m base q clock e l)
  unfolding post
  post-Posted e l f =
      elim (full_or_room (length (q.contents l.queue)) (q.depth l.queue) (q.bounded l.queue)) [
        | inl room ↦
            let (ok, added, depth) = q.put_room e l.queue room in
            queued room (ground (arith, ok, added)) (ground (arith, ok))
        | inr full ↦
            let same = q.put_full e l.queue (omega arith) in
            dropped full (ground (arith, same))
              (ground (arith, same, saturating_atomic_inc_lem l.drop_count))
      ]

  post_keeps :
      (e : Event) (l : Log m q)
      → let l' = post m base q clock e l in
        (l'.retained ≡ l.retained) × (l'.device ≡ l.device) × (l'.clock_reads ≡ l.clock_reads)
  unfolding post
  post_keeps e l = ground arith

  Posted-drops :
      {e : Event} {l l' : Log m q} → Posted e l l' → l.drop_count < 2 ^ 32 → l'.drop_count < 2 ^ 32
  Posted-drops (queued room added same) f = omega arith
  Posted-drops (dropped full same counted) f = omega arith

  Posted-from :
      {e : Event} {l l1 l2 : Log m q}
      → l1.queue ≡ l.queue
      → l1.drop_count ≡ l.drop_count
      → Posted e l1 l2
      → Posted e l l2
  Posted-from a b (queued room added same) = queued (rw (← a) room) (rw (← a) added) (rw (← b) same)
  Posted-from a b (dropped full same counted) =
      dropped (rw (← a) full) (rw (← a) same) (rw (← b) counted)

  post-IsLog :
      (e : Event) (l : Log m q)
      → IsLog m base q ram l
      → IsLog m base q ram (post m base q clock e l)
  post-IsLog e l v =
      let k = post_keeps e l in
      record {
        sound = rw k.0 v.sound;
        valid = rw k.0 v.valid;
        held = rw (k.0, k.1) v.held;
        drops_fit = Posted-drops (post-Posted e l v.drops_fit) v.drops_fit;
      }

  -- The two records of an event: in the ring and in the queue.
  abbrev pub ring_entry : ℕ → ℕ → ℕ → ℕ → RetainedEvent
  ring_entry id command_id generation now = record {
    event_id = id;
    command_id = command_id;
    generation = generation;
    timestamp_ms = u32 now;
  }

  -- What an event with the ring entry `r` makes of the log: the ring's newest entry, and one more
  -- event in the queue or one more counted as lost.
  pub record IsEmitted (r : RetainedEvent) (l l' : Log m q) : Type 0 where
    pub is_log : IsLog m base q ram l'
    pub newest : recent_events l'.retained ≡ take 4 (r ∷ recent_events l.retained)
    pub event : Event
    pub same_id : event.id ≡ r.event_id
    pub same_command : event.command_id ≡ r.command_id
    pub posted : Posted event l l'

  -- Between two calls of the log, an event whose numbers fit their fields is emitted without a
  -- fault: the record stays valid and copied to the retention memory, the ring's newest entry is
  -- the event, and the event is at the end of the queue or, if that was full, counted as lost.
  pub emit_total :
      (id command_id generation arg0 arg1 arg2 value : ℕ) (l : Log m q)
      → IsLog m base q ram l
      → id < 2 ^ 16
      → command_id < 2 ^ 32
      → generation < 2 ^ 32
      → (l' : Log m q) × (emit m base q clock id command_id generation arg0 arg1 arg2 value l
          ≡ some l')
        × IsEmitted (ring_entry id command_id generation (u64 (clock l.clock_reads))) l l'
  unfolding emit note_event uptime_get
  emit_total id command_id generation arg0 arg1 arg2 value l v p c g =
      let now = u64 (clock l.clock_reads) in
      let e = ring_entry id command_id generation now in
      let l0 : Log m q = record l { clock_reads = l.clock_reads + 1 } in
      let stored = push_event-store_event e l.retained v.sound in
      let r = store_event e l.retained in
      let (l1, done, k) =
        commit_total m base q ram clock r l0
          (store_event-IsSound e l.retained (ground arith) v.sound) v.drops_fit in
      let posted : Event = record {
        timestamp_ms = now;
        value = value;
        command_id = command_id;
        generation = generation;
        arg0 = arg0;
        arg1 = arg1;
        arg2 = arg2;
        id = u16 id;
      } in
      let ring = store_event_newest e l.retained v.sound.ring in
      let l2 = post m base q clock posted l1 in
      (
        l2,
        ground (arith, stored, done),
        record {
          is_log = post-IsLog posted l1 k.is_log;
          newest =
              ap recent_events (post_keeps posted l1).0
              ∙ ap recent_events k.stored
              ∙ with_crc_recent r
              ∙ ring;
          event = posted;
          same_id = omega arith;
          same_command = refl;
          posted = Posted-from k.same_queue k.same_drops (post-Posted posted l1 k.is_log.drops_fit);
        },
      )
