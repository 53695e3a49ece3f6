-- ===== src/Tasks/Queueing.antt =====
-- A put into a queue between the tasks (main.c, vams_queue_put).
use virtual_accelerator_mana.Base.{
  ℕ, ◌+◌, ◌≤◌, ◌<◌, ◌^◌, ◌≡◌, refl, ap, ◌⊎◌, inl, inr, [], ◌∷◌, ◌++◌, length, length-append, max,
  min, uint32_max, arith,
}
use virtual_accelerator_mana.Overload.{counter_increment_lem}
use virtual_accelerator_mana.Atomic.{record_high_water, saturating_atomic_inc}
use virtual_accelerator_mana.Zephyr.{Msgq, Status, success, enomsg}
use virtual_accelerator_mana.Tasks.{TaskQueue, queue_put}

room_or_full : (n k : ℕ) → n ≤ k → (n < k) ⊎ (n ≡ k)
room_or_full n k h = omega arith

counted : (n : ℕ) → n < 2 ^ 32 → saturating_atomic_inc n ≡ min (n + 1) uint32_max
unfolding saturating_atomic_inc
counted n h = ground (arith, counter_increment_lem n h)

module _ (A : Type 0) (q : Msgq A) where
  -- What a put makes of the queue.
  pub data Put (element : A) (s : TaskQueue A q) : TaskQueue A q × Status → Type 0 where
    added :
        (s' : TaskQueue A q)
        → q.contents s'.queue ≡ q.contents s.queue ++ element ∷ []
        → s'.high_water ≡ max s.high_water (length (q.contents s'.queue))
        → s'.overloads ≡ s.overloads
        → Put element s (s', success)
    refused :
        (s' : TaskQueue A q)
        → length (q.contents s.queue) ≡ q.depth s.queue
        → s'.queue ≡ s.queue
        → s'.high_water ≡ s.high_water
        → s'.overloads ≡ min (s.overloads + 1) uint32_max
        → Put element s (s', enomsg)

  Put-when :
      (x : A) (s : TaskQueue A q)
      → s.overloads < 2 ^ 32
      → (length (q.contents s.queue) < q.depth s.queue)
        ⊎ (length (q.contents s.queue) ≡ q.depth s.queue)
      → Put x s (queue_put A q x s)
  unfolding queue_put record_high_water
  Put-when x s fits (inl room) =
      let (ok, more, same) = q.put_room x s.queue room in
      let n = length-append (q.contents s.queue) (x ∷ []) in
      rw (← ok, queue_put)
        (added _ more (ground (arith, more, n, q.num_used_lem s.queue, q.num_free_lem s.queue))
          refl)
  Put-when x s fits (inr full) =
      rw (q.put_full x s.queue (omega arith), queue_put)
        (refused _ full (ap (λ r. r.0) (q.put_full x s.queue (omega arith))) refl
          (counted s.overloads fits))

  -- A put adds the element and raises the high-water mark to the new length where that is greater,
  -- or it finds the queue full, leaves it and counts the overload, up to the largest word.
  pub queue_put-Put :
      (x : A) (s : TaskQueue A q) → s.overloads < 2 ^ 32 → Put x s (queue_put A q x s)
  unfolding queue_put
  queue_put-Put x s fits = Put-when x s fits (room_or_full _ _ (q.bounded s.queue))
