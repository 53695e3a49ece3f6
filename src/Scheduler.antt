-- ===== src/Scheduler.antt =====
-- firmware/src/scheduler/vams_scheduler.c and firmware/include/vams_scheduler.h: a command object,
-- the transitions of its state and the order in which ready commands run. `none` is a failed
-- assertion; the build sets CONFIG_ASSERT. Pointers passed are not NULL.
pub mod Edges
pub mod Totality
pub mod Exact
pub mod Publication
use virtual_accelerator_mana.Base.{
  ℕ, ◌+◌, Bool, true, false, ◌&&◌, ◌||◌, if◌then◌else◌, ltb, leb, ◌==◌, ◌!=◌, Option, none, some,
  u64,
}
use virtual_accelerator_mana.Abi.{
  Submission, Completion, status_success, status_failed, status_timed_out, status_reset,
  err_timeout, err_engine, err_reset,
}
use virtual_accelerator_mana.Zephyr.{Mmio, Msgq, Status, success, eproto}
use virtual_accelerator_mana.Log.{Log, Event, emit, event_transition, event_published, ◌>>=◌}

abbrev pub default_timeout_ms : ℕ
default_timeout_ms = 30000

pub data CommandState : Type 0 where
  free submitted validating queued running aborting completed completed_error cancelled :
      CommandState

-- The enumerators' values.
abbrev pub state_code : CommandState → ℕ
state_code free = 0
state_code submitted = 1
state_code validating = 2
state_code queued = 3
state_code running = 4
state_code aborting = 5
state_code completed = 6
state_code completed_error = 7
state_code cancelled = 8

abbrev pub is : CommandState → CommandState → Bool
is a b = state_code a == state_code b

pub record CommandObject : Type 0 where
  pub submission : Submission
  pub completion : Completion
  pub captured_at_ms : ℕ
  pub deadline_ms : ℕ
  pub generation : ℕ
  pub sequence : ℕ
  pub state : CommandState
  pub publication_count : ℕ

unfoldable pub deadline_expired : CommandObject → ℕ → Bool
deadline_expired c now_ms = leb c.deadline_ms now_ms

unfoldable pub precedes : CommandObject → CommandObject → Bool
precedes first second =
    ltb first.deadline_ms second.deadline_ms
    || (first.deadline_ms == second.deadline_ms && ltb first.sequence second.sequence)

-- The stores that the failing ends of a command share.
abbrev pub fail_completion : ℕ → ℕ → ℕ → CommandObject → CommandObject
fail_completion status error_code timestamp_ms c = record c {
  completion = record (c.completion) {
    status = status;
    error_code = error_code;
    bytes_processed = 0;
    result_crc = 0;
    device_timestamp = timestamp_ms;
  };
}

abbrev pub assert_that {ℓ} : {A : Type ℓ} → Bool → Option A → Option A
assert_that true rest = rest
assert_that false rest = none

module _ (m : Mmio) (base : ℕ) (q : Msgq Event) (clock : ℕ → ℕ) where
  abbrev pub Call : Type 0 → Type 0
  Call A = Log m q → Option (A × Log m q)

  unfoldable pub transition : CommandState → CommandState → CommandObject → Call CommandObject
  transition expected next c l = assert_that (is c.state expected) (do
    l' ←
        emit m base q clock event_transition c.submission.command_id c.generation c.sequence
          (state_code c.state) (state_code next) 0 l
    some (record c { state = next }, l'))

  unfoldable pub capture : ℕ → ℕ → ℕ → CommandObject → Call CommandObject
  capture generation sequence captured_at_ms c l =
      let timeout_ms =
        if c.submission.timeout_ms == 0 then default_timeout_ms else c.submission.timeout_ms in
      assert_that (is c.state free) (
        transition free submitted
          (record c {
            generation = generation;
            sequence = sequence;
            captured_at_ms = captured_at_ms;
            deadline_ms = u64 (captured_at_ms + timeout_ms);
            publication_count = 0;
          })
          l)

  unfoldable pub timeout : ℕ → CommandObject → Call CommandObject
  timeout timestamp_ms c l = assert_that (is c.state aborting) (
      transition aborting completed_error
        (fail_completion status_timed_out err_timeout timestamp_ms c) l)

  unfoldable pub cancel : ℕ → CommandObject → Call CommandObject
  cancel timestamp_ms c l =
      assert_that (is c.state queued)
        (transition queued cancelled (fail_completion status_reset err_reset timestamp_ms c) l)

  abbrev is_active : CommandState → Bool
  is_active s = is s running || is s aborting

  -- A result of another command is refused and changes nothing.
  unfoldable pub apply_result : Completion → CommandObject → Call (CommandObject × Status)
  apply_result result c l = assert_that (is_active c.state) (
      if result.command_id != c.submission.command_id
        || result.user_cookie != c.submission.user_cookie
      then some ((c, eproto), l)
      else (do
        (c', l') ←
            transition c.state
              (if result.status == status_success then completed else completed_error)
              (record c { completion = result }) l
        some ((c', success), l')))

  unfoldable pub begin_abort : ℕ → CommandObject → Call CommandObject
  begin_abort timestamp_ms c l =
      assert_that (is c.state running) (
        transition running aborting (fail_completion status_timed_out err_timeout timestamp_ms c) l)

  unfoldable pub escalate : ℕ → CommandObject → Call CommandObject
  escalate timestamp_ms c l = assert_that (is_active c.state) (
      transition c.state completed_error (fail_completion status_failed err_engine timestamp_ms c)
        l)

  abbrev is_terminal : CommandState → Bool
  is_terminal s = is s completed || is s completed_error || is s cancelled

  unfoldable pub mark_published : CommandObject → Call CommandObject
  mark_published c l = assert_that (is_terminal c.state) (
      assert_that (c.publication_count == 0) (do
        l' ←
            emit m base q clock event_published c.submission.command_id c.generation c.sequence 1 0
              0 l
        some (record c { publication_count = 1 }, l')))
