-- ===== src/Pipeline/Handing.antt =====
-- A block handed on through a queue between the command tasks (main.c, vams_queue_put and
-- k_msgq_get).
use virtual_accelerator_mana.Base.{
  ℕ, ◌+◌, ◌≤◌, ◌<◌, ◌≡◌, refl, ap, List, [], ◌∷◌, Option, none, some, length, count, count-append,
  one, min, arith,
}
use virtual_accelerator_mana.Atomic.{record_high_water}
use virtual_accelerator_mana.Zephyr.{Status, success, enomsg}
use virtual_accelerator_mana.Log.{◌>>=◌}
use virtual_accelerator_mana.Tasks.{TaskQueue, queue_put}
use virtual_accelerator_mana.Pipeline.Store.{Platform, Link, enqueue, put_done}

pub bind_some :
    {A B : Type 0} {x : Option A} {a : A} (f : A → Option B) → x ≡ some a → (x >>= f) ≡ f a
bind_some f e = rw e refl

pub bind_none : {A B : Type 0} {x : Option A} (f : A → Option B) → x ≡ none → (x >>= f) ≡ none
bind_none f e = rw e refl

module _ (p : Platform) where
  -- The link with the block at its end.
  pub record IsPut (a : ℕ) (l l' : Link p) : Type 0 where
    pub more :
        (b : ℕ) → count b (p.links.contents l'.queue) ≡ count b (p.links.contents l.queue) + one b a
    pub same_depth : p.links.depth l'.queue ≡ p.links.depth l.queue

  put_room_lem :
      (a : ℕ) (s : TaskQueue ℕ p.links)
      → success ≡ (p.links.put a s.queue).1
      → queue_put ℕ p.links a s ≡ (
        record s {
          queue = (p.links.put a s.queue).0;
          high_water = record_high_water s.high_water (
              min
                (p.links.num_used s.queue + 1)
                (p.links.num_used s.queue + p.links.num_free s.queue));
        },
        success,
      )
  unfolding queue_put
  put_room_lem a s ok = rw (← ok, queue_put) refl

  put_failed : (r : TaskQueue ℕ p.links × Status) → r.1 ≡ enomsg → put_done p r ≡ none
  put_failed (t, status) e = rw e refl

  put_full_lem :
      (a : ℕ) (s : TaskQueue ℕ p.links)
      → p.links.depth s.queue ≤ length (p.links.contents s.queue)
      → (queue_put ℕ p.links a s).1 ≡ enomsg
  unfolding queue_put
  put_full_lem a s full = rw (p.links.put_full a s.queue full, queue_put) refl

  pub enqueue_room :
      (a : ℕ) (l : Link p) (overloads : ℕ)
      → length (p.links.contents l.queue) < p.links.depth l.queue
      → (l' : Link p) × (enqueue p a l overloads ≡ some l') × IsPut a l l'
  unfolding enqueue
  enqueue_room a l overloads room =
      let (ok, more, same) = p.links.put_room a l.queue room in
      (
        record {
          queue = (p.links.put a l.queue).0;
          high_water = record_high_water l.high_water (
              min (p.links.num_used l.queue + 1)
                (p.links.num_used l.queue + p.links.num_free l.queue));
        },
        ap (put_done p) (put_room_lem a _ ok),
        record {
          more = λ b. rw more (omega (arith, count-append b (p.links.contents l.queue) (a ∷ [])));
          same_depth = same;
        },
      )

  pub enqueue_full :
      (a : ℕ) (l : Link p) (overloads : ℕ)
      → p.links.depth l.queue ≤ length (p.links.contents l.queue)
      → enqueue p a l overloads ≡ none
  unfolding enqueue
  enqueue_full a l overloads full =
      (let s : TaskQueue ℕ p.links = record {
        queue = l.queue;
        high_water = l.high_water;
        overloads = overloads;
      } in
        put_failed (queue_put ℕ p.links a s) (put_full_lem a s full))

  -- What a get finds: nothing, or the first block.
  pub data Got (q : p.links.Queue) : Type 0 where
    nothing : p.links.get q ≡ none → Got q
    first :
        (a : ℕ) (r : p.links.Queue)
        → p.links.get q ≡ some (a, r)
        → ((b : ℕ) → count b (p.links.contents q) ≡ one b a + count b (p.links.contents r))
        → p.links.depth r ≡ p.links.depth q
        → Got q

  got_when : (q : p.links.Queue) (xs : List ℕ) → p.links.contents q ≡ xs → Got q
  got_when q [] e = nothing (p.links.get_empty q e)
  got_when q (a ∷ xs) e =
      let (r, done, rest, same) = p.links.get_first a xs q e in
      first a r done (λ b. rw (e, rest) refl) same

  pub got : (q : p.links.Queue) → Got q
  got q = got_when q (p.links.contents q) refl
