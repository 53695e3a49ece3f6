-- ===== src/Services/Counted.antt =====
-- No heartbeat is lost without being counted (main.c, vams_producer and vams_monitor).
use virtual_accelerator_mana.Base.{
  ℕ, suc, ◌+◌, ◌≤◌, ◌<◌, ◌^◌, ◌≡◌, refl, sym, ap, ◌∙◌, ◌⊎◌, inl, inr, subst, List, [], ◌∷◌, some,
  length, length-append, min, u32, arith,
}
use virtual_accelerator_mana.Atomic.{saturating_atomic_inc}
use virtual_accelerator_mana.Zephyr.{Mmio, Msgq, IsRam, Status, success, enomsg}
use virtual_accelerator_mana.Management.{retention_base}
use virtual_accelerator_mana.Overload.{counter_increment_lem}
use virtual_accelerator_mana.Log.{Event, uptime_get, event_heartbeat}
use virtual_accelerator_mana.Log.Invariant.{IsLog}
use virtual_accelerator_mana.Log.Emit.{emit_total}
use virtual_accelerator_mana.Pipeline.Handing.{bind_some}
use virtual_accelerator_mana.Services.Beats.{
  Heartbeat, Beats, offered, producer_turn, heard, monitor_turn,
}

full_or_room : (n depth : ℕ) → n ≤ depth → (n < depth) ⊎ (depth ≤ n)
full_or_room n depth h = omega arith

counted_up : (n : ℕ) → n + 1 < 2 ^ 32 → saturating_atomic_inc n ≡ n + 1
unfolding saturating_atomic_inc
counted_up n h = ground (arith, counter_increment_lem n (omega arith))

module _ (m : Mmio) (base : ℕ) (q : Msgq Event) (ram : IsRam m (base + retention_base) 32)
    (clock : ℕ → ℕ) (h : Msgq Heartbeat) where
  abbrev pub State : Type 0
  State = Beats m base q clock h

  -- From `start`, with this many heartbeats made and heard, in any order of the two tasks.
  pub data Beating (start : State) : ℕ → ℕ → State → Type 0 where
    begins : Beating start 0 0 start
    produces :
        {made got : ℕ} {s : State}
        → Beating start made got s
        → Beating start (made + 1) got (producer_turn m base q clock h s)
    hears :
        {made got : ℕ} {s t : State} (beat : Heartbeat) (more : List Heartbeat)
        → Beating start made got s
        → h.contents s.queue ≡ beat ∷ more
        → monitor_turn m base q clock h s ≡ some t
        → Beating start made (got + 1) t
    idles :
        {made got : ℕ} {s t : State}
        → Beating start made got s
        → h.contents s.queue ≡ []
        → monitor_turn m base q clock h s ≡ some t
        → Beating start made got t

  pub record IsFresh (s : State) : Type 0 where
    pub silent : h.contents s.queue ≡ []
    pub undropped : s.drop_count ≡ 0
    pub is_log : IsLog m base q ram s.log
    pub generation_fits : s.generation < 2 ^ 32

  pub record IsCounted (made got : ℕ) (s : State) : Type 0 where
    pub total : got + length (h.contents s.queue) + s.drop_count ≡ made
    pub is_log : IsLog m base q ram s.log
    pub generation_fits : s.generation < 2 ^ 32

  offered_room :
      (r : h.Queue × Status) (s : State)
      → success ≡ r.1
      → offered m base q clock h r s ≡ record s { queue = r.0 }
  offered_room (rest, status) s e = rw (← e) refl

  offered_full :
      (r : h.Queue × Status) (s : State) (kept : h.Queue)
      → r ≡ (kept, enomsg)
      → offered m base q clock h r s
        ≡ record s { queue = kept; drop_count = saturating_atomic_inc s.drop_count }
  offered_full r s kept e = ap (λ x. offered m base q clock h x s) e

  produces-IsCounted :
      (made got : ℕ) (s : State)
      → made + 1 < 2 ^ 32
      → IsCounted made got s
      → IsCounted (made + 1) got (producer_turn m base q clock h s)
  unfolding producer_turn uptime_get
  produces-IsCounted made got s small v =
      let (now, l) = uptime_get m base q clock s.log in
      let beat : Heartbeat = record { sequence = s.sequence; uptime_ms = now } in
      let s1 : State = record s {
        log = l;
        producer_epoch = u32 (s.producer_epoch + 1);
        sequence = u32 (s.sequence + 1);
      } in
      let w : IsLog m base q ram l = record {
        sound = v.is_log.sound;
        valid = v.is_log.valid;
        held = v.is_log.held;
        drops_fit = v.is_log.drops_fit;
      } in
      elim (full_or_room (length (h.contents s.queue)) (h.depth s.queue) (h.bounded s.queue)) [
        | inl room ↦
            let (ok, added, same) = h.put_room beat s.queue room in
            subst (IsCounted (made + 1) got) (sym (offered_room (h.put beat s.queue) s1 ok))
              (record {
                total =
                    rw added
                      (omega (arith, length-append (h.contents s.queue) (beat ∷ []), v.total));
                is_log = w;
                generation_fits = v.generation_fits;
              })
        | inr full ↦
            subst (IsCounted (made + 1) got)
              (sym (offered_full (h.put beat s.queue) s1 s.queue (h.put_full beat s.queue full)))
              (record {
                total = omega (arith, counted_up s.drop_count (omega (arith, v.total)), v.total);
                is_log = w;
                generation_fits = v.generation_fits;
              })
      ]

  -- What a turn of the monitor makes of the queue.
  hears-IsCounted :
      (made got : ℕ) (s : State)
      → IsCounted made got s
      → (beats : List Heartbeat) → h.contents s.queue ≡ beats
      → (t : State) × (monitor_turn m base q clock h s ≡ some t)
        × IsCounted made (got + min 1 (length beats)) t
  unfolding monitor_turn
  hears-IsCounted made got s v [] e =
      let t : State = record s { monitor_epoch = u32 (s.monitor_epoch + 1) } in
      (
        t,
        ap (λ o. heard m base q clock h o t) (h.get_empty s.queue e),
        record {
          total = omega (arith, v.total);
          is_log = v.is_log;
          generation_fits = v.generation_fits;
        },
      )
  hears-IsCounted made got s v (beat ∷ more) e =
      let s1 : State = record s { monitor_epoch = u32 (s.monitor_epoch + 1) } in
      let (rest, done, left, same) = h.get_first beat more s.queue e in
      let (l, told, k) =
        emit_total m base q ram clock event_heartbeat 0 s.generation beat.sequence 0 0
          beat.uptime_ms s.log v.is_log (omega arith) (omega arith) v.generation_fits in
      let before : length (h.contents s.queue) ≡ suc (length more) = ap length e in
      let after : length (h.contents rest) ≡ length more = ap length left in
      (
        record s1 { queue = rest; log = l },
        ap (λ o. heard m base q clock h o s1) done ∙ bind_some _ told,
        record {
          total = omega (arith, before, after, v.total);
          is_log = k.is_log;
          generation_fits = v.generation_fits;
        },
      )

  turned :
      (made got : ℕ) (s t : State) (beats : List Heartbeat)
      → IsCounted made got s
      → h.contents s.queue ≡ beats
      → monitor_turn m base q clock h s ≡ some t
      → IsCounted made (got + min 1 (length beats)) t
  turned made got s t beats v e ran =
      let (u, done, w) = hears-IsCounted made got s v beats e in
      let same : u ≡ t = cc in subst (IsCounted made (got + min 1 (length beats))) same w

  Beating-IsCounted :
      (start : State) (made got : ℕ) (s : State)
      → IsFresh start
      → made < 2 ^ 32
      → Beating start made got s
      → IsCounted made got s
  Beating-IsCounted start made got s v small begins = record {
    total = omega (arith, ap length v.silent, v.undropped);
    is_log = v.is_log;
    generation_fits = v.generation_fits;
  }
  Beating-IsCounted start made got s v small (produces {made = n} {s = r} b) =
      produces-IsCounted n got r small (Beating-IsCounted start n got r v (omega arith) b)
  Beating-IsCounted start made got s v small (hears {got = g} {s = r} beat more b e ran) =
      let m : g + min 1 (suc (length more)) ≡ g + 1 = omega arith in
      subst (λ x. IsCounted made x s) m
        (turned made g r s (beat ∷ more) (Beating-IsCounted start made g r v small b) e ran)
  Beating-IsCounted start made got s v small (idles {s = r} b e ran) =
      let m : got + min 1 0 ≡ got = omega arith in
      subst (λ x. IsCounted made x s) m
        (turned made got r s [] (Beating-IsCounted start made got r v small b) e ran)

  -- From an empty queue and a valid record, in any order of the turns of the producer and of the
  -- monitor and up to 2^32 - 1 heartbeats: each heartbeat made was heard, waits in the queue or is
  -- counted as dropped, and the next turn of the monitor fails no assertion.
  pub Beating-total :
      (start : State) (made got : ℕ) (s : State)
      → IsFresh start
      → made < 2 ^ 32
      → Beating start made got s
      → (got + length (h.contents s.queue) + s.drop_count ≡ made)
        × ((t : State) × (monitor_turn m base q clock h s ≡ some t))
  Beating-total start made got s v small b =
      let k = Beating-IsCounted start made got s v small b in
      let (t, done, w) = hears-IsCounted made got s k (h.contents s.queue) refl in
      (k.total, (t, done))
