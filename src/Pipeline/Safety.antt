-- ===== src/Pipeline/Safety.antt =====
-- No interleaving of the command tasks fails an assertion but for one, and the blocks of the slab
-- are never lost or shared (main.c).
use native.Mathlib.Decide.{ℕ_discrete}
use virtual_accelerator_mana.Base.{
  ℕ, ◌≤◌, ◌<◌, ◌^◌, ◌≡◌, refl, sym, subst, ◌∙◌, ◌⊎◌, inl, inr, [], none, some, count, ltb,
  if◌then◌else◌, arith,
}
use virtual_accelerator_mana.Log.Invariant.{IsLog}
use virtual_accelerator_mana.Pipeline.Store.{
  Platform, Store, command_pool_size, seeking, idle, choosing, resting, waiting,
}
use virtual_accelerator_mana.Pipeline.Places.{
  Place, content, at_pool, at_admitted, at_captured, at_validation, at_accepted, at_refused,
  at_ready, at_array, at_engine, at_decided, at_running, at_watched, at_aborted, at_recovered,
  at_completion, at_publisher, Fits,
}
use virtual_accelerator_mana.Pipeline.Ownership.{IsOwned}
use virtual_accelerator_mana.Pipeline.Invariant.{
  IsMachine, IsConsistent, DeepStore, Succeeds, aside,
}
use virtual_accelerator_mana.Pipeline.Steps.{
  Task, receiver, validator, scheduler, recovery, completion, task_step, runs, host_acts, Reach,
  here, later,
}
use virtual_accelerator_mana.Pipeline.Receiving.{receiver-Succeeds}
use virtual_accelerator_mana.Pipeline.Validating.{validator-Succeeds}
use virtual_accelerator_mana.Pipeline.Dispatching.{IsFull, scheduler-Succeeds}
use virtual_accelerator_mana.Pipeline.Recovering.{recovery-Succeeds}
use virtual_accelerator_mana.Pipeline.Completing.{completion-Succeeds}

module _ (p : Platform) (machine : IsMachine p) where
  -- As the tasks start: the slab has all its blocks, the queues are empty and every task is at the
  -- head of its loop.
  pub record IsStart (s : Store p) : Type 0 where
    pub blocks :
        (a : ℕ) → count a (p.slab.free_blocks s.pool) ≡ (if ltb a command_pool_size then 1 else 0)
    pub no_validation : p.links.contents s.validation_queue.queue ≡ []
    pub no_ready : p.links.contents s.ready_queue.queue ≡ []
    pub no_running : p.links.contents s.running_queue.queue ≡ []
    pub no_completion : p.links.contents s.completion_queue.queue ≡ []
    pub empty_array : s.ready ≡ []
    pub receiver_starts : s.receiver ≡ seeking
    pub validator_starts : s.validator ≡ idle
    pub dispatcher_starts : s.dispatcher ≡ choosing
    pub recovery_starts : s.recovery ≡ resting
    pub publisher_starts : s.publisher ≡ waiting
    pub deep : DeepStore p machine s
    pub is_log : IsLog p.bus p.base p.events machine.ram s.log
    pub generation_fits : s.generation < 2 ^ 32

  only_pool :
      (s : Store p) → IsStart s → (r : Place) (a : ℕ) → 0 < count a (content p s r) → r ≡ at_pool
  only_pool s v at_pool a h = refl
  only_pool s v at_admitted a h = absurd (ground (arith, v.receiver_starts))
  only_pool s v at_captured a h = absurd (ground (arith, v.receiver_starts))
  only_pool s v at_validation a h = absurd (ground (arith, v.no_validation))
  only_pool s v at_accepted a h = absurd (ground (arith, v.validator_starts))
  only_pool s v at_refused a h = absurd (ground (arith, v.validator_starts))
  only_pool s v at_ready a h = absurd (ground (arith, v.no_ready))
  only_pool s v at_array a h = absurd (ground (arith, v.empty_array))
  only_pool s v at_engine a h = absurd (ground (arith, v.dispatcher_starts))
  only_pool s v at_decided a h = absurd (ground (arith, v.dispatcher_starts))
  only_pool s v at_running a h = absurd (ground (arith, v.no_running))
  only_pool s v at_watched a h = absurd (ground (arith, v.recovery_starts))
  only_pool s v at_aborted a h = absurd (ground (arith, v.recovery_starts))
  only_pool s v at_recovered a h = absurd (ground (arith, v.recovery_starts))
  only_pool s v at_completion a h = absurd (ground (arith, v.no_completion))
  only_pool s v at_publisher a h = absurd (ground (arith, v.publisher_starts))

  pool_count : (s : Store p) → IsStart s → (a : ℕ) → count a (content p s at_pool) ≤ 1
  pool_count s v a = ground (arith, v.blocks a)

  pool_block :
      (s : Store p)
      → IsStart s
      → (a : ℕ) → 0 < count a (content p s at_pool)
      → a < command_pool_size
  pool_block s v a h = ground (arith, v.blocks a)

  pool_kept :
      (s : Store p)
      → IsStart s
      → (a : ℕ) → a < command_pool_size
      → 0 < count a (content p s at_pool)
  pool_kept s v a h = ground (arith, v.blocks a)

  IsStart-IsOwned : (s : Store p) → IsStart s → IsOwned s.objects (content p s)
  IsStart-IsOwned s v = record {
    once = λ r a. elim (ℕ_discrete (count a (content p s r)) 0) [
      | yes z ↦ omega (arith, z)
      | no n ↦ rw (only_pool s v r a (omega (arith, n))) (pool_count s v a)
    ];
    sole = λ r q a h k. only_pool s v r a h ∙ sym (only_pool s v q a k);
    block = λ r a h.
        pool_block s v a (subst (λ q. 0 < count a (content p s q)) (only_pool s v r a h) h);
    kept = λ a lt. (at_pool, pool_kept s v a lt);
    fits = λ r a h. subst (λ q. Fits q (s.objects a)) (sym (only_pool s v r a h)) tt;
  }

  pub IsStart-IsConsistent : (s : Store p) → IsStart s → IsConsistent p machine s
  IsStart-IsConsistent s v = record {
    owned = IsStart-IsOwned s v;
    is_log = v.is_log;
    generation_fits = v.generation_fits;
    deep = v.deep;
  }

  -- How a step of a task ends: it succeeds and keeps the pipeline consistent, or it is the
  -- scheduler's, which holds an authorized command while the running queue is full.
  abbrev pub Ends : Task → Store p → Type 0
  Ends k s =
      Succeeds p machine k s ⊎ (k ≡ scheduler) × IsFull p machine s × (task_step p k s ≡ none)

  pub task_step-Ends : (k : Task) (s : Store p) → IsConsistent p machine s → Ends k s
  task_step-Ends receiver s v = inl (receiver-Succeeds p machine s v)
  task_step-Ends validator s v = inl (validator-Succeeds p machine s v)
  task_step-Ends scheduler s v = elim (scheduler-Succeeds p machine s v) [
    | inl goes ↦ inl goes
    | inr (full, fails) ↦ inr (refl, full, fails)
  ]
  task_step-Ends recovery s v = inl (recovery-Succeeds p machine s v)
  task_step-Ends completion s v = inl (completion-Succeeds p machine s v)

  ran : (s t : Store p) (k : Task) → Ends k s → task_step p k s ≡ some t → IsConsistent p machine t
  ran s t k (inl (u, done, w)) e = let same : u ≡ t = cc in subst (IsConsistent p machine) same w
  ran s t k (inr (is, full, fails)) e = cc

  pub Reach-IsConsistent : (s t : Store p) → IsStart s → Reach p s t → IsConsistent p machine t
  Reach-IsConsistent s t v here = IsStart-IsConsistent s v
  Reach-IsConsistent s t v (later r (runs {s = u} k e)) =
      ran u t k (task_step-Ends k u (Reach-IsConsistent s u v r)) e
  Reach-IsConsistent s t v (later r (host_acts {s = u} d)) =
      aside p machine u (Reach-IsConsistent s u v r)

  -- However the command tasks and the host interleave from a start with a free slab and empty
  -- queues, on a machine whose retention memory is memory and whose portal reads are words: the
  -- next step of any task fails no assertion, with one exception, which is the hand-over of an
  -- authorized command by the scheduler while the running queue is full.
  pub Reach-Ends : (s t : Store p) → IsStart s → Reach p s t → (k : Task) → Ends k t
  Reach-Ends s t v r k = task_step-Ends k t (Reach-IsConsistent s t v r)

  -- However the command tasks and the host interleave from such a start, every block of the slab is
  -- at one place and at that place once: the slab, a queue, the scheduler's array or the hands of
  -- one task. What stands there is a block of the slab, in the state that the place's owner
  -- asserts, not yet published, and from its validation on with a completion that names its command
  -- and cookie.
  pub Reach-IsOwned : (s t : Store p) → IsStart s → Reach p s t → IsOwned t.objects (content p t)
  Reach-IsOwned s t v r = (Reach-IsConsistent s t v r).owned
