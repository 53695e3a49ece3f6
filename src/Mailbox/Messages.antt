-- ===== src/Mailbox/Messages.antt =====
-- The way of a message through the interrupt handler and the queue.
use virtual_accelerator_mana.Base.{
  ℕ, ◌+◌, ◌≤◌, ◌<◌, ◌≡◌, ◌≢◌, refl, ◌⊎◌, inl, inr, Bool, true, false, ◌==◌, ==_iff, if◌then◌else◌,
  [], ◌∷◌, ◌++◌, length, arith, bit_and,
}
use virtual_accelerator_mana.Zephyr.{Mmio, Msgq}
use virtual_accelerator_mana.Mailbox.{mailbox_isr, status_register, message_pending, ack_register}

room_or_full : (n k : ℕ) → (n < k) ⊎ (k ≤ n)
room_or_full n k = omega arith

module _ (m : Mmio) (base : ℕ) (q : Msgq ℕ) where
  open m use {Device, read32, write32}
  open q use {Queue, contents, depth, put, get}

  -- The status register tells of a message.
  abbrev IsPending : Device → Type 0
  IsPending d = bit_and (read32 (base + status_register) d).0 message_pending ≢ 0

  -- What one interrupt does.
  pub data Taken (d : Device) (queue : Queue) : Device × Queue → Type 0 where
    idle :
        bit_and (read32 (base + status_register) d).0 message_pending ≡ 0
        → Taken d queue ((read32 (base + status_register) d).1, queue)
    queued :
        (message : ℕ) (d' : Device) (queue' : Queue)
        → IsPending d
        → length (contents queue) < depth queue
        → read32 base (read32 (base + status_register) d).1 ≡ (message, d')
        → contents queue' ≡ contents queue ++ message ∷ []
        → Taken d queue (write32 1 (base + ack_register) d', queue')
    lost :
        (message : ℕ) (d' : Device)
        → IsPending d
        → depth queue ≤ length (contents queue)
        → read32 base (read32 (base + status_register) d).1 ≡ (message, d')
        → Taken d queue (write32 1 (base + ack_register) d', queue)

  Put-when :
      (message : ℕ) (d d' : Device) (queue : Queue)
      → IsPending d
      → read32 base (read32 (base + status_register) d).1 ≡ (message, d')
      → (length (contents queue) < depth queue) ⊎ (depth queue ≤ length (contents queue))
      → Taken d queue (write32 1 (base + ack_register) d', (put message queue).0)
  Put-when message d d' queue pending e (inl room) =
      let (ok, added, same) = q.put_room message queue room in
      queued message d' (put message queue).0 pending room e added
  Put-when message d d' queue pending e (inr full) =
      rw (q.put_full message queue full) (lost message d' pending full e)

  ==_false : (x y : ℕ) → (x == y) ≡ false → x ≢ y
  ==_false x y e = ground (arith, e)

  Taken-when :
      (d : Device) (queue : Queue) (none_pending : Bool)
      → (bit_and (read32 (base + status_register) d).0 message_pending == 0) ≡ none_pending
      → Taken d queue (
          if none_pending
          then ((read32 (base + status_register) d).1, queue)
          else (let (message, d2) = read32 base (read32 (base + status_register) d).1 in
              (write32 1 (base + ack_register) d2, (put message queue).0)))
  Taken-when d queue true e = idle ((==_iff _ _).0 e)
  Taken-when d queue false e = Put-when _ d _ queue (==_false _ _ e) refl (room_or_full _ _)

  -- An interrupt whose status register tells of no message changes nothing but for that read; one with a message acknowledges it and
  -- puts it at the end of the queue, or loses it where the queue is full.
  pub mailbox_isr-Taken :
      (d : Device) (queue : Queue) → Taken d queue (mailbox_isr m base q d queue)
  unfolding mailbox_isr
  mailbox_isr-Taken d queue = Taken-when d queue _ refl
