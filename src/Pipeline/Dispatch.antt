-- ===== src/Pipeline/Dispatch.antt =====
-- The publication of a completion by a task, and the body of the scheduler (main.c,
-- vams_publish_portal_completion, vams_request_overload_reset and vams_command_scheduler), cut into
-- steps. `none` is a failed assertion.
use virtual_accelerator_mana.Base.{
  ℕ, ◌+◌, ◌-◌, true, if◌then◌else◌, ltb, leb, List, [], ◌∷◌, ◌++◌, map, length, take, set, get_or,
  get_elem?, Option, none, some, update,
}
use virtual_accelerator_mana.Atomic.{saturating_atomic_inc}
use virtual_accelerator_mana.Zephyr.{Status, success, ebusy}
use virtual_accelerator_mana.Management.{reset}
use virtual_accelerator_mana.Portal.{complete}
use virtual_accelerator_mana.Log.{◌>>=◌}
use virtual_accelerator_mana.Tasks.{scheduler_select, completion_publish_timeout_ms}
use virtual_accelerator_mana.Pipeline.Store.{
  Platform, Store, now_of, clock_read, task_scheduler, enqueue, task_progress, command_pool_size,
  choosing, authorizing, authorized, decided, stalled,
}
use virtual_accelerator_mana.Pipeline.Work.{dispatch}

-- `ready[selected] = ready[count - 1]`, with the count one less.
unfoldable pub remove_swap : List ℕ → ℕ → List ℕ
remove_swap xs i = let last = length xs - 1 in take last (set xs i (get_or xs last 0))

module _ (p : Platform) where
  open p use {bus, base, events, clock, portal_bus, portal_base, sleep, polls, links, slab}

  -- The publication has timed out at the portal: the stall is counted and the reset requested.
  abbrev pub request_overload_reset : Store p → Store p
  request_overload_reset s = record s {
    log = record s.log { device = reset bus base s.log.device };
    portal_stalls = saturating_atomic_inc s.portal_stalls;
    overload_reset_requested = true;
  }

  -- The portal has been tried with a completion: the task goes on to `next`, tries again, or loops
  -- for ever in `halt`.
  abbrev pub published :
      Status → ℕ → (Store p → Option (Store p)) → (Store p → Store p) → Store p → Option (Store p)
  published success deadline next halt s = next s
  published ebusy deadline next halt s =
      if leb deadline (now_of p s)
      then some (halt (request_overload_reset (clock_read p s)))
      else some (clock_read p s)
  published _ deadline next halt s = none

  abbrev pub publish_deadline : Store p → ℕ
  publish_deadline s = now_of p s + completion_publish_timeout_ms

  -- The command at `i` leaves the array, and is authorized or has ended.
  unfoldable pub dispatch_at : ℕ → Store p → Option (Store p)
  dispatch_at i s = do
    a ← get_elem? s.ready i
    ((c, payload), l) ← dispatch bus base events clock s.generation (s.objects a) s.log
    let s1 = record s { ready = remove_swap s.ready i; objects = update s.objects a c; log = l }
    some (
        if payload
        then record (clock_read p s1) { dispatcher = authorizing (publish_deadline s1) a }
        else record s1 { dispatcher = decided a })

  unfoldable pub dispatch_next : Store p → Option (Store p)
  dispatch_next s = do
    i ← scheduler_select (map s.objects s.ready) (length s.ready)
    dispatch_at i s

  -- The ready queue has been asked for a command, with room in the array.
  abbrev pub collect : Option (ℕ × links.Queue) → List ℕ → Store p → Option (Store p)
  collect (some (a, rest)) ready s =
      some
        (record s { ready_queue = record s.ready_queue { queue = rest }; ready = ready ++ a ∷ [] })
  collect none [] s = some (task_progress p task_scheduler s)
  collect none (a ∷ ready) s = dispatch_next (task_progress p task_scheduler s)

  unfoldable pub choose : Store p → Option (Store p)
  choose s =
      if ltb (length s.ready) command_pool_size
      then collect (links.get s.ready_queue.queue) s.ready s
      else dispatch_next (task_progress p task_scheduler s)

  unfoldable pub scheduler_step : Store p → Option (Store p)
  scheduler_step s = elim s.dispatcher [
    | choosing ↦ choose s
    | authorizing deadline a ↦
        let (d, status) = complete portal_bus portal_base ((s.objects a).completion) s.portal in
        published status deadline (λ t. some (record t { dispatcher = authorized a }))
          (λ t. record t { dispatcher = stalled a }) (record s { portal = d })
    | authorized a ↦ (do
      link ← enqueue p a s.running_queue s.queue_overloads
      some (record s { running_queue = link; dispatcher = choosing }))
    | decided a ↦ (do
      link ← enqueue p a s.completion_queue s.queue_overloads
      some (record s { completion_queue = link; dispatcher = choosing }))
    | stalled a ↦ some s
  ]
