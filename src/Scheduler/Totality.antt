-- ===== src/Scheduler/Totality.antt =====
-- No assertion of vams_scheduler.c fails where a call finds the state that it is made for.
use virtual_accelerator_mana.Base.{
  ℕ, ◌+◌, ◌<◌, ◌^◌, ◌≡◌, refl, ◌⊎◌, inl, inr, Bool, true, false, ◌||◌, if◌then◌else◌, Option, some,
  arith,
}
use virtual_accelerator_mana.Zephyr.{Mmio, Msgq, IsRam, success, eproto}
use virtual_accelerator_mana.Management.{retention_base}
use virtual_accelerator_mana.Log.{Log, Event, event_transition, event_published, ◌>>=◌}
use virtual_accelerator_mana.Log.Invariant.{IsLog}
use virtual_accelerator_mana.Log.Emit.{emit_total}
use virtual_accelerator_mana.Scheduler.{
  CommandState, CommandObject, is, free, queued, running, aborting, completed, completed_error,
  cancelled, state_code, assert_that, transition, capture, timeout, cancel, apply_result,
  begin_abort, escalate, mark_published,
}
use virtual_accelerator_mana.Scheduler.Edges.{
  Operation, captures, moves, times_out, cancels, begins_abort, escalates, applies, publishes,
  is_self, IsTerminal, perform, drop_status,
}

-- The state that a call asserts.
abbrev pub IsReady : Operation → CommandObject → Type 0
IsReady (captures generation sequence at) c = (c.state ≡ free) × (generation < 2 ^ 32)
IsReady (moves from to) c = c.state ≡ from
IsReady (times_out at) c = c.state ≡ aborting
IsReady (cancels at) c = c.state ≡ queued
IsReady (begins_abort at) c = c.state ≡ running
IsReady (escalates at) c = (c.state ≡ running) ⊎ (c.state ≡ aborting)
IsReady (applies result) c = (c.state ≡ running) ⊎ (c.state ≡ aborting)
IsReady publishes c = IsTerminal c.state × (c.publication_count ≡ 0)

pub active_state :
    (s : CommandState) → (s ≡ running) ⊎ (s ≡ aborting) → is s running || is s aborting ≡ true
active_state s (inl e) = rw e refl
active_state s (inr e) = rw e refl

pub terminal_state :
    (s : CommandState)
    → IsTerminal s
    → is s completed || is s completed_error || is s cancelled ≡ true
terminal_state s (inl e) = rw e refl
terminal_state s (inr (inl e)) = rw e refl
terminal_state s (inr (inr e)) = rw e refl

pub published_fits : event_published < 2 ^ 16
published_fits = omega arith

-- The identity fits its fields.
pub record IsNamed (c : CommandObject) : Type 0 where
  pub id_fits : c.submission.command_id < 2 ^ 32
  pub generation_fits : c.generation < 2 ^ 32

module _ (m : Mmio) (base : ℕ) (q : Msgq Event) (ram : IsRam m (base + retention_base) 32)
    (clock : ℕ → ℕ) where
  abbrev Returns : Option (CommandObject × Log m q) → Type 0
  Returns r = (c : CommandObject) × (l : Log m q) × (r ≡ some (c, l)) × IsLog m base q ram l

  transition_total :
      (s t : CommandState) (c : CommandObject) (l : Log m q)
      → IsLog m base q ram l
      → IsNamed c
      → c.state ≡ s
      → Returns (transition m base q clock s t c l)
  unfolding transition
  transition_total s t c l v n e =
      let (l', done, k) =
        emit_total m base q ram clock event_transition c.submission.command_id c.generation
          c.sequence (state_code c.state) (state_code t) 0 l v (omega arith) n.id_fits
          n.generation_fits in
      (record c { state = t }, l', rw (e, is_self s) (rw (← e) (rw done refl)), k.is_log)

  asserted :
      (b : Bool) (r : Option (CommandObject × Log m q))
      → b ≡ true
      → Returns r
      → Returns (assert_that b r)
  asserted b r e (c, l, done, v) = (c, l, rw e done, v)

  answered :
      (b foreign : Bool) (c : CommandObject) (l : Log m q)
      (moved : Option (CommandObject × Log m q))
      → b ≡ true
      → IsLog m base q ram l
      → Returns moved
      → Returns (
          drop_status m base q clock (
            assert_that b (
              if foreign
              then some ((c, eproto), l)
              else (do (d, k) ← moved; some ((d, success), k)))))
  unfolding drop_status
  answered b true c l moved e v (d, k, done, w) = (c, l, rw e refl, v)
  answered b false c l moved e v (d, k, done, w) = (d, k, rw (e, done) refl, w)

  publish_total :
      (c : CommandObject) (l : Log m q)
      → IsLog m base q ram l
      → IsNamed c
      → IsTerminal c.state
      → c.publication_count ≡ 0
      → Returns (mark_published m base q clock c l)
  unfolding mark_published
  publish_total c l v n e z =
      let (l', done, k) =
        emit_total m base q ram clock event_published c.submission.command_id c.generation
          c.sequence 1 0 0 l v published_fits n.id_fits n.generation_fits in
      (
        record c { publication_count = 1 },
        l',
        rw (terminal_state c.state e, z, done) refl,
        k.is_log,
      )

  -- Between two calls of the log, a call on a command object whose state it is made for and whose
  -- numbers fit their fields returns: no assertion fails, and the record is again valid and copied
  -- to the retention memory.
  pub perform_total :
      (o : Operation) (c : CommandObject) (l : Log m q)
      → IsLog m base q ram l
      → IsNamed c
      → IsReady o c
      → (c' : CommandObject) × (l' : Log m q) × (perform m base q clock o c l ≡ some (c', l'))
        × IsLog m base q ram l'
  unfolding perform capture timeout cancel apply_result begin_abort escalate
  perform_total (captures g s t) c l v n (e, fits) =
      asserted _ _ (rw e refl)
        (transition_total _ _ _ l v (record { id_fits = n.id_fits; generation_fits = fits }) e)
  perform_total (moves s t) c l v n e = transition_total s t c l v n e
  perform_total (times_out at) c l v n e = asserted _ _ (rw e refl) (
      transition_total _ _ _ l v
        (record { id_fits = n.id_fits; generation_fits = n.generation_fits }) e)
  perform_total (cancels at) c l v n e = asserted _ _ (rw e refl) (
      transition_total _ _ _ l v
        (record { id_fits = n.id_fits; generation_fits = n.generation_fits }) e)
  perform_total (begins_abort at) c l v n e = asserted _ _ (rw e refl) (
      transition_total _ _ _ l v
        (record { id_fits = n.id_fits; generation_fits = n.generation_fits }) e)
  perform_total (escalates at) c l v n e = asserted _ _ (active_state c.state e) (
      transition_total _ _ _ l v
        (record { id_fits = n.id_fits; generation_fits = n.generation_fits }) refl)
  perform_total (applies r) c l v n e = answered _ _ c l _ (active_state c.state e) v (
      transition_total _ _ _ l v
        (record { id_fits = n.id_fits; generation_fits = n.generation_fits }) refl)
  perform_total publishes c l v n (e, z) = publish_total c l v n e z
