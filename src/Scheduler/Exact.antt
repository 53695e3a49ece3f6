-- ===== src/Scheduler/Exact.antt =====
-- What each call of vams_scheduler.c makes of a command object in the state that it is made for.
use virtual_accelerator_mana.Base.{
  ℕ, ◌+◌, ◌<◌, ◌^◌, ◌≡◌, refl, ◌⊎◌, Bool, true, false, ◌||◌, ◌!=◌, ◌==◌, if◌then◌else◌, Option,
  some, arith, u64,
}
use virtual_accelerator_mana.Abi.{
  Completion, status_success, status_failed, status_timed_out, status_reset, err_timeout,
  err_engine, err_reset,
}
use virtual_accelerator_mana.Zephyr.{Mmio, Msgq, IsRam, Status, success, eproto}
use virtual_accelerator_mana.Management.{retention_base}
use virtual_accelerator_mana.Log.{Log, Event, event_transition, event_published, ◌>>=◌}
use virtual_accelerator_mana.Log.Invariant.{IsLog}
use virtual_accelerator_mana.Log.Emit.{emit_total}
use virtual_accelerator_mana.Scheduler.{
  CommandState, CommandObject, free, submitted, queued, running, aborting, completed,
  completed_error, cancelled, state_code, assert_that, fail_completion, default_timeout_ms,
  transition, capture, timeout, cancel, apply_result, begin_abort, escalate, mark_published,
}
use virtual_accelerator_mana.Scheduler.Edges.{is_self, IsTerminal}
use virtual_accelerator_mana.Scheduler.Totality.{
  IsNamed, active_state, terminal_state, published_fits,
}

abbrev pub captured_with : ℕ → ℕ → ℕ → CommandObject → CommandObject
captured_with generation sequence captured_at_ms c =
    let timeout_ms =
      if c.submission.timeout_ms == 0 then default_timeout_ms else c.submission.timeout_ms in
    record c {
      generation = generation;
      sequence = sequence;
      captured_at_ms = captured_at_ms;
      deadline_ms = u64 (captured_at_ms + timeout_ms);
      publication_count = 0;
      state = submitted;
    }

-- Whether the result is of another command.
abbrev pub is_foreign : Completion → CommandObject → Bool
is_foreign result c =
    result.command_id != c.submission.command_id || result.user_cookie != c.submission.user_cookie

abbrev pub ended_with : Completion → CommandObject → CommandObject
ended_with result c = record c {
  completion = result;
  state = if result.status == status_success then completed else completed_error;
}

abbrev pub timed_out_at : ℕ → CommandObject → CommandObject
timed_out_at at c = record (fail_completion status_timed_out err_timeout at c) {
  state = completed_error;
}

abbrev pub cancelled_at : ℕ → CommandObject → CommandObject
cancelled_at at c = record (fail_completion status_reset err_reset at c) { state = cancelled }

abbrev pub aborting_at : ℕ → CommandObject → CommandObject
aborting_at at c = record (fail_completion status_timed_out err_timeout at c) { state = aborting }

abbrev pub failed_at : ℕ → CommandObject → CommandObject
failed_at at c = record (fail_completion status_failed err_engine at c) { state = completed_error }

pub still-IsNamed :
    {c d : CommandObject}
    → IsNamed c
    → d.submission ≡ c.submission
    → d.generation ≡ c.generation
    → IsNamed d
still-IsNamed n e f = record { id_fits = rw e n.id_fits; generation_fits = rw f n.generation_fits }

module _ (m : Mmio) (base : ℕ) (q : Msgq Event) (ram : IsRam m (base + retention_base) 32)
    (clock : ℕ → ℕ) where
  -- A call returns this value, and the log is as it should be between two calls.
  abbrev pub Gives : {A : Type 0} → A → Option (A × Log m q) → Type 0
  Gives x r = (l : Log m q) × (r ≡ some (x, l)) × IsLog m base q ram l

  pub transition_exact :
      (s t : CommandState) (c : CommandObject) (l : Log m q)
      → IsLog m base q ram l
      → IsNamed c
      → c.state ≡ s
      → Gives (record c { state = t }) (transition m base q clock s t c l)
  unfolding transition
  transition_exact s t c l v n e =
      let (l', done, k) =
        emit_total m base q ram clock event_transition c.submission.command_id c.generation
          c.sequence (state_code c.state) (state_code t) 0 l v (omega arith) n.id_fits
          n.generation_fits in
      (l', rw (e, is_self s) (rw (← e) (rw done refl)), k.is_log)

  asserted :
      {A : Type 0} (b : Bool) (x : A) (r : Option (A × Log m q))
      → b ≡ true
      → Gives x r
      → Gives x (assert_that b r)
  asserted b x r e (l, done, v) = (l, rw e done, v)

  pub capture_exact :
      (generation sequence at : ℕ) (c : CommandObject) (l : Log m q)
      → IsLog m base q ram l
      → c.submission.command_id < 2 ^ 32
      → generation < 2 ^ 32
      → c.state ≡ free
      → Gives
          (captured_with generation sequence at c)
          (capture m base q clock generation sequence at c l)
  unfolding capture
  capture_exact generation sequence at c l v n g e =
      asserted _ _ _ (rw e refl)
        (transition_exact _ _ _ l v (record { id_fits = n; generation_fits = g }) e)

  pub timeout_exact :
      (at : ℕ) (c : CommandObject) (l : Log m q)
      → IsLog m base q ram l
      → IsNamed c
      → c.state ≡ aborting
      → Gives (timed_out_at at c) (timeout m base q clock at c l)
  unfolding timeout
  timeout_exact at c l v n e =
      asserted _ _ _ (rw e refl) (transition_exact _ _ _ l v (still-IsNamed n refl refl) e)

  pub cancel_exact :
      (at : ℕ) (c : CommandObject) (l : Log m q)
      → IsLog m base q ram l
      → IsNamed c
      → c.state ≡ queued
      → Gives (cancelled_at at c) (cancel m base q clock at c l)
  unfolding cancel
  cancel_exact at c l v n e =
      asserted _ _ _ (rw e refl) (transition_exact _ _ _ l v (still-IsNamed n refl refl) e)

  pub begin_abort_exact :
      (at : ℕ) (c : CommandObject) (l : Log m q)
      → IsLog m base q ram l
      → IsNamed c
      → c.state ≡ running
      → Gives (aborting_at at c) (begin_abort m base q clock at c l)
  unfolding begin_abort
  begin_abort_exact at c l v n e =
      asserted _ _ _ (rw e refl) (transition_exact _ _ _ l v (still-IsNamed n refl refl) e)

  pub escalate_exact :
      (at : ℕ) (c : CommandObject) (l : Log m q)
      → IsLog m base q ram l
      → IsNamed c
      → (c.state ≡ running) ⊎ (c.state ≡ aborting)
      → Gives (failed_at at c) (escalate m base q clock at c l)
  unfolding escalate
  escalate_exact at c l v n e =
      asserted _ _ _ (active_state c.state e)
        (transition_exact _ _ _ l v (still-IsNamed n refl refl) refl)

  answered :
      (b foreign : Bool) (c x : CommandObject) (l : Log m q)
      (moved : Option (CommandObject × Log m q))
      → b ≡ true
      → IsLog m base q ram l
      → Gives x moved
      → Gives {A = CommandObject × Status} (if foreign then (c, eproto) else (x, success)) (
          assert_that b (
            if foreign then some ((c, eproto), l) else (do (d, k) ← moved; some ((d, success), k))))
  answered b true c x l moved e v (k, done, w) = (l, rw e refl, v)
  answered b false c x l moved e v (k, done, w) = (k, rw (e, done) refl, w)

  -- A result of another command changes nothing.
  pub apply_result_exact :
      (result : Completion) (c : CommandObject) (l : Log m q)
      → IsLog m base q ram l
      → IsNamed c
      → (c.state ≡ running) ⊎ (c.state ≡ aborting)
      → Gives {A = CommandObject × Status}
          (if is_foreign result c then (c, eproto) else (ended_with result c, success))
          (apply_result m base q clock result c l)
  unfolding apply_result
  apply_result_exact result c l v n e =
      answered _ _ c (ended_with result c) l _ (active_state c.state e) v
        (transition_exact _ _ _ l v (still-IsNamed n refl refl) refl)

  pub mark_published_exact :
      (c : CommandObject) (l : Log m q)
      → IsLog m base q ram l
      → IsNamed c
      → IsTerminal c.state
      → c.publication_count ≡ 0
      → Gives (record c { publication_count = 1 }) (mark_published m base q clock c l)
  unfolding mark_published
  mark_published_exact c l v n e z =
      let (l', done, k) =
        emit_total m base q ram clock event_published c.submission.command_id c.generation
          c.sequence 1 0 0 l v published_fits n.id_fits n.generation_fits in
      (l', rw (terminal_state c.state e, z, done) refl, k.is_log)
