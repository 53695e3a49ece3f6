-- ===== src/Tests/Pipelines.antt =====
-- The command tasks on concrete devices, with a command posted and with one that the engine works
-- on (main.c).
use virtual_accelerator_mana.Base.{
  ℕ, ◌+◌, ◌*◌, ◌≤◌, ◌<◌, ◌^◌, ◌≡◌, refl, false, if◌then◌else◌, ◌==◌, [], ◌∷◌, some, update,
  update_ne, u64, arith,
}
use virtual_accelerator_mana.Zephyr.Model.{
  memory, sized_queue, block_list, word_memory, alloc_first,
}
use virtual_accelerator_mana.Management.{reset, reset_request, retention_base}
use virtual_accelerator_mana.Scheduler.{CommandObject, running}
use virtual_accelerator_mana.Pipeline.Store.{
  Platform, Store, Link, zeroed, seeking, idle, choosing, resting, watching, waiting, admitted,
  recovered,
}
use virtual_accelerator_mana.Pipeline.Places.{content, at_pool, at_watched, IsEnded}
use virtual_accelerator_mana.Pipeline.Ownership.{IsOwned, Counted}
use virtual_accelerator_mana.Pipeline.Invariant.{IsMachine, IsConsistent, moved}
use virtual_accelerator_mana.Pipeline.Steps.{
  receiver, recovery, task_step, runs, host_acts, Reach, here, later,
}
use virtual_accelerator_mana.Pipeline.Safety.{
  IsStart, IsStart-IsConsistent, Ends, Reach-Ends, Reach-IsOwned,
}
use virtual_accelerator_mana.Overload.{command_admission_allowed}
use virtual_accelerator_mana.Portal.{pending}
use virtual_accelerator_mana.Atomic.{record_high_water}
use virtual_accelerator_mana.Pipeline.Intake.{receiver_step, seek}
use virtual_accelerator_mana.Pipeline.Bounded.{
  repeat, Waits, stays, turns, waited, TimePasses, recovery_ends,
}
use virtual_accelerator_mana.Tests.Logs.{queue, ram, clock, start_log, start_log-IsLog}

abbrev platform : Platform
platform = record {
  bus = memory;
  base = 0;
  events = queue;
  clock = clock;
  portal_bus = word_memory;
  portal_base = 0;
  sleep = λ d. d;
  polls = λ ms. ms;
  links = sized_queue ℕ;
  slab = block_list;
}

apart :
    (x v i : ℕ) (d : ℕ → ℕ)
    → x < 256
    → (if x == 256 + 4 * i then v else d (256 + 4 * i)) ≡ d (256 + 4 * i)
apart x v i d lt = ground arith

reset_apart :
    (i : ℕ) (d : ℕ → ℕ)
    → i < 32
    → (memory.read32 (0 + retention_base + 4 * i) (reset memory 0 d)).0
      ≡ (memory.read32 (0 + retention_base + 4 * i) d).0
unfolding reset
reset_apart i d lt = apart (0 + reset_request) 1 i d (omega arith)

word_small : (a : ℕ) (d : ℕ → ℕ) → (word_memory.read32 a d).0 < 2 ^ 32
word_small a d = omega arith

abbrev machine : IsMachine platform
machine = record { ram = ram; reset_keeps = reset_apart; word = word_small }

abbrev link : ℕ → Link platform
link n = record { queue = (n, ([], omega arith)); high_water = 0 }

abbrev start_store : Store platform
start_store = record {
  objects = λ a. zeroed;
  pool = 0 ∷ 1 ∷ 2 ∷ 3 ∷ 4 ∷ 5 ∷ 6 ∷ 7 ∷ [];
  log = start_log;
  portal = λ a. 0;
  validation_queue = link 8;
  ready_queue = link 8;
  running_queue = link 1;
  completion_queue = link 8;
  ready = [];
  receiver = seeking;
  validator = idle;
  dispatcher = choosing;
  recovery = resting;
  publisher = waiting;
  epochs = λ task. 0;
  objects_in_use = 0;
  pool_high_water = 0;
  recovery_attempts = 0;
  recovery_escalations = 0;
  admission_defers = 0;
  queue_overloads = 0;
  portal_stalls = 0;
  overload_reset_requested = false;
  generation = 5;
  sequence = 0;
}

start_store-IsStart : IsStart platform machine start_store
start_store-IsStart = record {
  blocks = λ a. ground arith;
  no_validation = refl;
  no_ready = refl;
  no_running = refl;
  no_completion = refl;
  empty_array = refl;
  receiver_starts = refl;
  validator_starts = refl;
  dispatcher_starts = refl;
  recovery_starts = refl;
  publisher_starts = refl;
  deep = record {
    validation_depth = refl;
    ready_depth = refl;
    running_depth = refl;
    completion_depth = refl;
  };
  is_log = start_log-IsLog;
  generation_fits = omega arith;
}

-- The host posts a command, and the receiver takes a block for it.
abbrev posted : Store platform
posted = record start_store { portal = λ a. 1 }

abbrev taken : Store platform
taken = record posted {
  pool = 1 ∷ 2 ∷ 3 ∷ 4 ∷ 5 ∷ 6 ∷ 7 ∷ [];
  objects = update posted.objects 0 zeroed;
  receiver = admitted 0;
  epochs = update posted.epochs 4 1;
  objects_in_use = 1;
  pool_high_water = 1;
}

takes : task_step platform receiver posted ≡ some taken
unfolding task_step receiver_step seek command_admission_allowed pending record_high_water
    alloc_first
takes = refl

receiving : Reach platform start_store taken
receiving = later (later here (host_acts (λ a. 1))) (runs receiver takes)

Reach-Ends_example : Ends platform machine receiver taken
Reach-Ends_example =
    Reach-Ends platform machine start_store taken start_store-IsStart receiving receiver

Reach-IsOwned_example : IsOwned taken.objects (content platform taken)
Reach-IsOwned_example =
    Reach-IsOwned platform machine start_store taken start_store-IsStart receiving

-- The recovery manager waits for the result of the command in the block 0, until 1010 ms.
abbrev watched_command : CommandObject
watched_command = record zeroed { deadline_ms = 1010; state = running }

abbrev watched_store : Store platform
watched_store = record start_store {
  pool = 1 ∷ 2 ∷ 3 ∷ 4 ∷ 5 ∷ 6 ∷ 7 ∷ [];
  objects = update start_store.objects 0 watched_command;
  recovery = watching 999 0;
}

watched_store-IsConsistent : IsConsistent platform machine watched_store
watched_store-IsConsistent =
    moved platform machine {a = 0} {from = at_pool} {to = at_watched} start_store watched_store
      (IsStart-IsConsistent platform machine start_store start_store-IsStart)
      (record {
        held = omega arith;
        counted = λ r.
            elim r
              as (Counted 0 at_pool at_watched (content platform start_store)
                (content platform watched_store)) [
                  | at_pool ↦ λ b. omega arith
                  | at_watched ↦ λ b. omega arith
                  | _ ↦ λ b. refl
                ];
        others = λ b n. update_ne start_store.objects 0 b watched_command n;
        fit = (
          (refl, record { id_fits = omega arith; generation_fits = omega arith }, refl),
          (refl, refl),
        );
      })
      start_log-IsLog refl
      (record {
        validation_depth = refl;
        ready_depth = refl;
        running_depth = refl;
        completion_depth = refl;
      })

-- The test clock goes on by a millisecond from one answer to the next.
clock_after :
    (reads d : ℕ) → u64 (clock reads) < d → d < 2 ^ 64 → u64 (clock reads) < u64 (clock (reads + 1))
clock_after reads d early small = omega arith

Waits-before :
    {now now' : ℕ} {s t : Store platform}
    → Waits platform machine 0 now s now' t
    → now < u64 (clock s.log.clock_reads)
    → (s.objects 0).deadline_ms < 2 ^ 64
    → (t.recovery ≡ watching now' 0) × (now' < u64 (clock t.log.clock_reads))
Waits-before (stays at) before small = (at, before)
Waits-before (turns {now = now} {now' = now'} {s = s} {t = t} at e rest) before small =
    let (time, early, ticks, same) = waited platform machine now now' 0 s t at e (waits_at rest) in
    Waits-before rest
      (rw (time, ticks)
        (clock_after s.log.clock_reads ((s.objects 0).deadline_ms) (rw (← time) early) small))
      (rw same small)
  where
    waits_at :
        {k k' : ℕ} {x y : Store platform}
        → Waits platform machine 0 k x k' y
        → x.recovery ≡ watching k 0
    waits_at (stays at) = at
    waits_at (turns at e rest) = at

time_passes : TimePasses platform machine 0 999 watched_store
time_passes now' now'' t u w e on =
    let (at, before) = Waits-before w (omega arith) (omega arith) in
    let (time, early, ticks, same) = waited platform machine now' now'' 0 t u at e on in
    rw time before

recovery_ends_example :
    (k : ℕ) × (t : Store platform) × (k ≤ 11 + 2)
    × (repeat platform k recovery watched_store ≡ some t)
    × (t.recovery ≡ recovered 0)
    × IsEnded (t.objects 0)
recovery_ends_example =
    recovery_ends platform machine 999 0 watched_store watched_store-IsConsistent refl time_passes
