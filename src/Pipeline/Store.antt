-- ===== src/Pipeline/Store.antt =====
-- The variables of main.c that the command tasks share, and where each task stands (main.c and
-- firmware/include/vams_scheduler.h).
use virtual_accelerator_mana.Base.{ℕ, ◌+◌, ◌-◌, ◌^◌, Bool, List, Option, none, some, u32, update}
use virtual_accelerator_mana.Abi.{Submission, Completion}
use virtual_accelerator_mana.Zephyr.{Mmio, Msgq, Slab, Status, success}
use virtual_accelerator_mana.Log.{Log, Event, uptime_get}
use virtual_accelerator_mana.Scheduler.{CommandObject, free}
use virtual_accelerator_mana.Tasks.{TaskQueue, queue_put}

abbrev pub command_pool_size : ℕ
command_pool_size = 8

abbrev pub service_poll_ms : ℕ
service_poll_ms = 100

abbrev pub task_receiver : ℕ
task_receiver = 4

abbrev pub task_validator : ℕ
task_validator = 5

abbrev pub task_scheduler : ℕ
task_scheduler = 6

abbrev pub task_recovery : ℕ
task_recovery = 7

abbrev pub task_completion : ℕ
task_completion = 8

abbrev pub abort_ack_timeout_ms : ℕ
abort_ack_timeout_ms = 100

-- The kernel and the devices. `clock` gives the successive answers of `k_uptime_get`, `polls` the
-- number of polls until a time of so many milliseconds is over, 0 for none, and `sleep` is what the
-- host does to the portal while the driver sleeps.
pub record Platform : Type 1 where
  pub bus : Mmio
  pub base : ℕ
  pub events : Msgq Event
  pub clock : ℕ → ℕ
  pub portal_bus : Mmio
  pub portal_base : ℕ
  pub sleep : portal_bus.Device → portal_bus.Device
  pub polls : ℕ → ℕ
  pub links : Msgq ℕ
  pub slab : Slab

-- Where each task stands, with the block that it owns and its other local variables.
pub data Receiver : Type 0 where
  seeking : Receiver
  admitted captured : ℕ → Receiver

pub data Validator : Type 0 where
  idle : Validator
  accepted refused : ℕ → Validator

-- `authorizing` has the deadline of the publication; `stalled` never goes on.
pub data Dispatcher : Type 0 where
  choosing : Dispatcher
  authorizing : ℕ → ℕ → Dispatcher
  authorized decided stalled : ℕ → Dispatcher

-- `watching` has the time last read.
pub data Recovery : Type 0 where
  resting : Recovery
  watching : ℕ → ℕ → Recovery
  aborted recovered : ℕ → Recovery

pub data Publisher : Type 0 where
  waiting : Publisher
  publishing : ℕ → ℕ → Publisher
  stopped : ℕ → Publisher

abbrev no_submission : Submission
no_submission = record {
  version = 0;
  opcode = 0;
  flags = 0;
  command_id = 0;
  source_dma = 0;
  destination_dma = 0;
  length = 0;
  timeout_ms = 0;
  user_cookie = 0;
  expected_crc = 0;
  reserved0 = 0;
  reserved1 = 0;
  reserved2 = 0;
}

abbrev no_completion : Completion
no_completion = record {
  command_id = 0;
  status = 0;
  error_code = 0;
  bytes_processed = 0;
  result_crc = 0;
  user_cookie = 0;
  device_timestamp = 0;
}

-- What `memset` leaves of a command object.
abbrev pub zeroed : CommandObject
zeroed = record {
  submission = no_submission;
  completion = no_completion;
  captured_at_ms = 0;
  deadline_ms = 0;
  generation = 0;
  sequence = 0;
  state = free;
  publication_count = 0;
}

module _ (p : Platform) where
  -- A queue of pointers with its high-water mark.
  pub record Link : Type 0 where
    pub queue : p.links.Queue
    pub high_water : ℕ

  -- `objects` is the memory of the slab, `ready` the scheduler's array up to its count.
  pub record Store : Type 0 where
    pub objects : ℕ → CommandObject
    pub pool : p.slab.Pool
    pub log : Log p.bus p.events
    pub portal : p.portal_bus.Device
    pub validation_queue : Link
    pub ready_queue : Link
    pub running_queue : Link
    pub completion_queue : Link
    pub ready : List ℕ
    pub receiver : Receiver
    pub validator : Validator
    pub dispatcher : Dispatcher
    pub recovery : Recovery
    pub publisher : Publisher
    pub epochs : ℕ → ℕ
    pub objects_in_use : ℕ
    pub pool_high_water : ℕ
    pub recovery_attempts : ℕ
    pub recovery_escalations : ℕ
    pub admission_defers : ℕ
    pub queue_overloads : ℕ
    pub portal_stalls : ℕ
    pub overload_reset_requested : Bool
    pub generation : ℕ
    pub sequence : ℕ

  -- The assertion on the status of a put; `none` is a failed assertion.
  abbrev pub put_done : TaskQueue ℕ p.links × Status → Option Link
  put_done (s, success) = some (record { queue = s.queue; high_water = s.high_water })
  put_done (s, _) = none

  unfoldable pub enqueue : ℕ → Link → ℕ → Option Link
  enqueue a link overloads = put_done (
      queue_put ℕ p.links a
        (record { queue = link.queue; high_water = link.high_water; overloads = overloads }))

  -- `vams_task_progress` in a build without the health test; `task` is the task's number.
  abbrev pub task_progress : ℕ → Store → Store
  task_progress task s = record s { epochs = update s.epochs task (u32 (s.epochs task + 1)) }

  abbrev pub now_of : Store → ℕ
  now_of s = (uptime_get p.bus p.base p.events p.clock s.log).0

  abbrev pub clock_read : Store → Store
  clock_read s = record s { log = (uptime_get p.bus p.base p.events p.clock s.log).1 }

  -- A block goes back to the slab.
  abbrev pub give_back : ℕ → Store → Store
  give_back a s = record s {
    pool = p.slab.release a s.pool;
    objects_in_use = u32 (s.objects_in_use + (2 ^ 32 - 1));
  }
