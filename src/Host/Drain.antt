-- ===== src/Host/Drain.antt =====
-- The walk over the completion ring (vams_drain_cq).
use virtual_accelerator_mana.Base.{
  ℕ, ◌≡◌, refl, subst, sym, ap, ap₂, ◌∙◌, Bool, true, false, not, ◌&&◌, if◌then◌else◌, leb, ◌==◌,
  ◌!=◌, Bool-cases, if_true, if_false, inl, inr, Option, none, some, arith,
}
use virtual_accelerator_mana.Abi.{Completion}
use virtual_accelerator_mana.Zephyr.{Mmio}
use virtual_accelerator_mana.Host.Registers.{queue_depth, reg_cq_tail, reg_cq_doorbell}
use virtual_accelerator_mana.Host.State.{Host, xa_load}
use virtual_accelerator_mana.Host.Queues.{readl, writel, drain_loop, drain_cq}
use virtual_accelerator_mana.Host.Finish.{IsHost}
use virtual_accelerator_mana.Host.Walk.{
  distance, IsQuiet, still-IsQuiet, IsQuiet-trans, IsDrained, drain_loop-IsDrained,
}
use virtual_accelerator_mana.Host.Taken.{
  entries, answer_of, Answered, Answered-before, drain_loop-Answered,
}

module _ (m : Mmio) where
  pub bus-IsHost : (bus : m.Device) (s : Host m) → IsHost m s → IsHost m (record s { bus = bus })
  bus-IsHost bus s h = record {
    table = h.table;
    counted = h.counted;
    tail = h.tail;
    head = h.head;
    sq_sized = h.sq_sized;
    cq_sized = h.cq_sized;
  }

  -- The doorbell after a walk.
  abbrev ring_doorbell : Host m × ℕ → Host m
  ring_doorbell r =
      if r.1 != 0 then record r.0 { bus = m.write32 r.0.cq_head reg_cq_doorbell r.0.bus } else r.0

  record IsRung (tail : ℕ) (s : Host m) (r : Host m × ℕ) : Type 0 where
    pub host : IsHost m (ring_doorbell r)
    pub head : (ring_doorbell r).cq_head ≡ tail
    pub bus :
        (ring_doorbell r).bus ≡ (if r.1 == 0 then s.bus else m.write32 tail reg_cq_doorbell s.bus)

  IsDrained-IsRung :
      (tail : ℕ) (s : Host m) (r : Host m × ℕ) → IsDrained m tail s r → IsRung tail s r
  IsDrained-IsRung tail s r d = elim (Bool-cases (r.1 == 0)) [
    | inl e ↦
        let none_taken : (r.1 != 0) ≡ false = ground (arith, e) in
        let quiet : ring_doorbell r ≡ r.0 = if_false _ _ _ none_taken in
        record {
          host = subst (IsHost m) (sym quiet) d.host;
          head = ap (λ t. t.cq_head) quiet ∙ d.head;
          bus = ap (λ t. t.bus) quiet ∙ d.bus ∙ sym (if_true _ _ _ e);
        }
    | inr e ↦
        let some_taken : (r.1 != 0) ≡ true = ground (arith, e) in
        let rung : ring_doorbell r
            ≡ record r.0 { bus = m.write32 r.0.cq_head reg_cq_doorbell r.0.bus } =
          if_true _ _ _ some_taken in
        record {
          host = subst (IsHost m) (sym rung) (bus-IsHost _ r.0 d.host);
          head = ap (λ t. t.cq_head) rung ∙ d.head;
          bus =
              ap (λ t. t.bus) rung
              ∙ ap₂ (λ t b. m.write32 t reg_cq_doorbell b) d.head d.bus
              ∙ sym (if_false _ _ _ e);
        }
  ]

  ring_doorbell-IsQuiet : (r : Host m × ℕ) → IsQuiet m r.0 (ring_doorbell r)
  ring_doorbell-IsQuiet r = elim (Bool-cases (r.1 != 0)) [
    | inl e ↦ subst (IsQuiet m r.0) (sym (if_true _ _ _ e)) (still-IsQuiet m _ r.0.cq_head r.0)
    | inr e ↦
        subst (IsQuiet m r.0) (sym (if_false _ _ _ e)) (still-IsQuiet m r.0.bus r.0.cq_head r.0)
  ]

  -- Whether a read of the ring's tail lets the driver walk to it.
  abbrev pub walks : Host m → Bool
  walks s = s.queues_ready && not (leb queue_depth (readl m reg_cq_tail s).0)

  module _ (s : Host m) where
    abbrev tail : ℕ
    tail = (readl m reg_cq_tail s).0

    abbrev told : Host m
    told = (readl m reg_cq_tail s).1

    abbrev walked : Host m × ℕ
    walked = drain_loop m queue_depth tail told

    drain_idle : s.queues_ready ≡ false → drain_cq m s ≡ (s, 0)
    unfolding drain_cq
    drain_idle e = simp (e, drain_cq)

    drain_refused : s.queues_ready ≡ true → leb queue_depth tail ≡ true → drain_cq m s ≡ (told, 0)
    unfolding drain_cq
    drain_refused e f = simp (e, f, drain_cq)

    drain_taken :
        s.queues_ready ≡ true
        → leb queue_depth tail ≡ false
        → drain_cq m s ≡ (ring_doorbell walked, walked.1)
    unfolding drain_cq writel
    drain_taken e f = simp (e, f, drain_cq, writel)

  pub drain_cq-IsQuiet : (s : Host m) → IsHost m s → IsQuiet m s (drain_cq m s).0
  unfolding readl
  drain_cq-IsQuiet s h = elim (Bool-cases s.queues_ready) [
    | inr e ↦ rw (drain_idle s e) (still-IsQuiet m s.bus s.cq_head s)
    | inl e ↦
        let (t, d) = m.read32 reg_cq_tail s.bus in
        let s1 = record s { bus = d } in
        elim (Bool-cases (leb queue_depth t)) [
          | inl f ↦ rw (drain_refused s e f) (still-IsQuiet m d s.cq_head s)
          | inr f ↦
              let r =
                drain_loop-IsDrained m queue_depth t s1 (bus-IsHost d s h) (ground (arith, f))
                  (omega arith) in
              let w = drain_loop m queue_depth t s1 in
              rw (drain_taken s e f) (
                IsQuiet-trans m s w.0 (ring_doorbell w)
                  (IsQuiet-trans m s s1 w.0 (still-IsQuiet m d s.cq_head s) r.quiet)
                  (ring_doorbell-IsQuiet w))
        ]
  ]

  ring_doorbell-Answered :
      (o : Option Completion) (id a : ℕ) (s : Host m) (r : Host m × ℕ)
      → Answered m o id a s r.0
      → Answered m o id a s (ring_doorbell r)
  ring_doorbell-Answered none id a s r h = elim (Bool-cases (r.1 != 0)) [
    | inl e ↦ rw e h
    | inr e ↦ rw e h
  ]
  ring_doorbell-Answered (some c) id a s r h = elim (Bool-cases (r.1 != 0)) [
    | inl e ↦ rw e h
    | inr e ↦ rw e h
  ]

  -- What the walk met for a command id, between head and tail.
  abbrev pub answer_in : Host m → ℕ → Option Completion
  answer_in s id =
      let tail = (readl m reg_cq_tail s).0 in
      if walks s then answer_of (entries (distance s.cq_head tail) s.cq s.cq_head) id else none

  unmet :
      (s s' : Host m) (id a : ℕ)
      → walks s ≡ false
      → (xa_load s'.requests id ≡ some a) × (s'.request_at a ≡ s.request_at a)
      → Answered m (answer_in s id) id a s s'
  unmet s s' id a stays h = subst (λ o. Answered m o id a s s') (sym (if_false _ _ _ stays)) h

  -- The walk of a device that meets its invariant keeps it. If the queues are ready and the tail
  -- that the endpoint tells is in range, every completion between head and tail is taken, the head
  -- becomes the tail, and the endpoint is told of the new head just when there were any; else
  -- nothing is taken. Each tracked request whose command id one of these completions has is done
  -- with the result of the first that has it and success, untracked and with one reference fewer;
  -- each other one is tracked and as before.
  pub drain_cq_lem :
      (s : Host m)
      → IsHost m s
      → let (tail, s1) = readl m reg_cq_tail s in
        let (s', count) = drain_cq m s in
        IsHost m s'
        × (count ≡ (if walks s then distance s.cq_head tail else 0))
        × (s'.cq_head ≡ (if walks s then tail else s.cq_head))
        × (s'.bus ≡ (
            if not s.queues_ready
            then s.bus
            else if count == 0
            then s1.bus
            else m.write32 tail reg_cq_doorbell s1.bus))
        × ((id a : ℕ) → xa_load s.requests id ≡ some a → Answered m (answer_in s id) id a s s')
  unfolding drain_cq readl writel
  drain_cq_lem s h = elim (Bool-cases s.queues_ready) [
    | inr e ↦
        let stays : walks s ≡ false = rw e refl in
        let idle : not s.queues_ready ≡ true = rw e refl in
        rw (drain_idle s e) (
          h,
          sym (if_false _ _ _ stays),
          sym (if_false _ _ _ stays),
          sym (if_true _ _ _ idle),
          λ id a at. unmet s s id a stays (at, refl),
        )
    | inl e ↦
        let (t, d) = m.read32 reg_cq_tail s.bus in
        let s1 = record s { bus = d } in
        let ready : not s.queues_ready ≡ false = rw e refl in
        elim (Bool-cases (leb queue_depth t)) [
          | inl f ↦
              let stays : walks s ≡ false = rw (e, f) refl in
              rw (drain_refused s e f) (
                bus-IsHost d s h,
                sym (if_false _ _ _ stays),
                sym (if_false _ _ _ stays),
                sym (if_false _ _ _ ready),
                λ id a at. unmet s s1 id a stays (at, refl),
              )
          | inr f ↦
              let goes : walks s ≡ true = rw (e, f) refl in
              let r =
                drain_loop-IsDrained m queue_depth t s1 (bus-IsHost d s h) (ground (arith, f))
                  (omega arith) in
              let k = IsDrained-IsRung t s1 (drain_loop m queue_depth t s1) r in
              rw (drain_taken s e f) (
                k.host,
                r.count ∙ sym (if_true _ _ _ goes),
                k.head ∙ sym (if_true _ _ _ goes),
                k.bus ∙ sym (if_false _ _ _ ready),
                λ id a at.
                    subst (λ o. Answered m o id a s (ring_doorbell (drain_loop m queue_depth t s1)))
                      (sym (if_true _ _ _ goes))
                      (ring_doorbell-Answered _ id a s (drain_loop m queue_depth t s1) (
                        Answered-before m _ id a s s1 (drain_loop m queue_depth t s1).0 refl (
                          drain_loop-Answered m queue_depth t s1 (bus-IsHost d s h)
                            (ground (arith, f)) (omega arith) id a at))),
              )
        ]
  ]
