-- ===== src/Scheduler/Edges.antt =====
-- The calls that change a command object, and the states that they lead between.
use virtual_accelerator_mana.Base.{
  ℕ, ◌≡◌, ◌≢◌, ap, sym, subst, ==_iff, if_true, if_false, ◌∙◌, ◌⊎◌, inl, inr, Option, none, some,
  arith, refl, Bool, true, false, ◌||◌, if◌then◌else◌, ◌==◌, ◌!=◌,
}
use virtual_accelerator_mana.Abi.{
  Completion, status_success, status_failed, status_timed_out, status_reset, err_timeout,
  err_engine, err_reset,
}
use virtual_accelerator_mana.Zephyr.{Mmio, Msgq, Status, success, eproto}
use virtual_accelerator_mana.Log.{Log, Event, ◌>>=◌}
use virtual_accelerator_mana.Scheduler.{
  CommandState, is, free, submitted, validating, queued, running, aborting, completed,
  completed_error, cancelled, CommandObject, assert_that, transition, capture, timeout, cancel,
  apply_result, begin_abort, escalate, mark_published,
}

-- Each call of the tasks on a command object, with what it is given.
pub data Operation : Type 0 where
  captures : ℕ → ℕ → ℕ → Operation
  moves : CommandState → CommandState → Operation
  times_out cancels begins_abort escalates : ℕ → Operation
  applies : Completion → Operation
  publishes : Operation

pub is_sound : (a b : CommandState) → is a b ≡ true → a ≡ b
is_sound free b h = ground arith
is_sound submitted b h = ground arith
is_sound validating b h = ground arith
is_sound queued b h = ground arith
is_sound running b h = ground arith
is_sound aborting b h = ground arith
is_sound completed b h = ground arith
is_sound completed_error b h = ground arith
is_sound cancelled b h = ground arith

pub is_self : (a : CommandState) → is a a ≡ true
is_self a = ground arith

active_sound :
    (s : CommandState) → is s running || is s aborting ≡ true → (s ≡ running) ⊎ (s ≡ aborting)
active_sound s h = ground (arith, is_sound s running, is_sound s aborting)

abbrev pub IsTerminal : CommandState → Type 0
IsTerminal s = (s ≡ completed) ⊎ (s ≡ completed_error) ⊎ (s ≡ cancelled)

IsTerminal-sound :
    (s : CommandState)
    → is s completed || is s completed_error || is s cancelled ≡ true
    → IsTerminal s
IsTerminal-sound s h =
    ground (arith, is_sound s completed, is_sound s completed_error, is_sound s cancelled)

-- Whether a result is of the command, by its id and its cookie.
abbrev pub IsOwn : Completion → CommandObject → Type 0
IsOwn result c =
    (result.command_id ≡ c.submission.command_id) × (result.user_cookie ≡ c.submission.user_cookie)

-- The state that a call is made in, and the one that it ends in.
abbrev pub Leads : Operation → CommandObject → CommandState → Type 0
Leads (captures generation sequence at) c next = (c.state ≡ free) × (next ≡ submitted)
Leads (moves from to) c next = (c.state ≡ from) × (next ≡ to)
Leads (times_out at) c next = (c.state ≡ aborting) × (next ≡ completed_error)
Leads (cancels at) c next = (c.state ≡ queued) × (next ≡ cancelled)
Leads (begins_abort at) c next = (c.state ≡ running) × (next ≡ aborting)
Leads (escalates at) c next =
    ((c.state ≡ running) ⊎ (c.state ≡ aborting)) × (next ≡ completed_error)
Leads (applies result) c next =
    ((c.state ≡ running) ⊎ (c.state ≡ aborting))
    × (¬ IsOwn result c → next ≡ c.state)
    × (IsOwn result c → result.status ≡ status_success → next ≡ completed)
    × (IsOwn result c → result.status ≢ status_success → next ≡ completed_error)
Leads publishes c next = IsTerminal c.state × (next ≡ c.state)

-- A completion that tells of a failure, with no bytes.
abbrev pub Tells : ℕ → ℕ → Completion → Type 0
Tells status error_code x =
    (x.status ≡ status) × (x.error_code ≡ error_code) × (x.bytes_processed ≡ 0) × (x.result_crc ≡ 0)

-- The completion that a call leaves.
abbrev pub Reports : Operation → CommandObject → Completion → Type 0
Reports (times_out at) c x = Tells status_timed_out err_timeout x
Reports (cancels at) c x = Tells status_reset err_reset x
Reports (begins_abort at) c x = Tells status_timed_out err_timeout x
Reports (escalates at) c x = Tells status_failed err_engine x
Reports (applies result) c x = (IsOwn result c → x ≡ result) × (¬ IsOwn result c → x ≡ c.completion)
Reports _ c x = x ≡ c.completion

IsOwn-when :
    (result : Completion) (c : CommandObject) (foreign : Bool)
    → (result.command_id != c.submission.command_id
        || result.user_cookie != c.submission.user_cookie)
      ≡ foreign
    → if foreign then ¬ IsOwn result c else IsOwn result c
IsOwn-when result c true e = ground (arith, e)
IsOwn-when result c false e = ground (arith, e)

assert_inv {ℓ} :
    {A : Type ℓ} (b : Bool) (x : Option A) {y : A}
    → assert_that b x ≡ some y
    → (b ≡ true) × (x ≡ some y)
assert_inv true x h = (refl, h)
assert_inv false x h = cc

module _ (m : Mmio) (base : ℕ) (q : Msgq Event) (clock : ℕ → ℕ) where
  unfoldable pub drop_status :
      Option ((CommandObject × Status) × Log m q) → Option (CommandObject × Log m q)
  drop_status none = none
  drop_status (some ((c, status), l)) = some (c, l)

  unfoldable pub perform : Operation → CommandObject → Log m q → Option (CommandObject × Log m q)
  unfolding drop_status
  perform (captures generation sequence at) c l = capture m base q clock generation sequence at c l
  perform (moves from to) c l = transition m base q clock from to c l
  perform (times_out at) c l = timeout m base q clock at c l
  perform (cancels at) c l = cancel m base q clock at c l
  perform (begins_abort at) c l = begin_abort m base q clock at c l
  perform (escalates at) c l = escalate m base q clock at c l
  perform (applies result) c l = drop_status (apply_result m base q clock result c l)
  perform publishes c l = mark_published m base q clock c l

  -- A transition that returns has left its expected state for the next, and changed nothing else.
  pub transition_inv :
      (s t : CommandState) (c c' : CommandObject) (l l' : Log m q)
      → transition m base q clock s t c l ≡ some (c', l')
      → (c.state ≡ s) × (c' ≡ record c { state = t })
  unfolding transition
  transition_inv s t c c' l l' h = ground (arith, is_sound c.state s)

  -- The publication count that a call leaves.
  abbrev pub count_after : Operation → ℕ → ℕ
  count_after (captures g s t) count = 0
  count_after publishes count = 1
  count_after _ count = count

  -- What a call has done that returns.
  pub record HasPerformed (o : Operation) (c c' : CommandObject) : Type 0 where
    pub path : Leads o c c'.state
    pub reports : Reports o c c'.completion
    pub same_submission : c'.submission ≡ c.submission
    pub count : c'.publication_count ≡ count_after o c.publication_count
    pub unpublished : o ≡ publishes → c.publication_count ≡ 0

  through :
      (o : Operation) (s t : CommandState) (c c0 c' : CommandObject) (l l' : Log m q)
      → (c0.state ≡ s → Leads o c t)
      → Reports o c c0.completion
      → c0.submission ≡ c.submission
      → c0.publication_count ≡ count_after o c.publication_count
      → o ≢ publishes
      → transition m base q clock s t c0 l ≡ some (c', l')
      → HasPerformed o c c'
  through o s t c c0 c' l l' path reports kept counted other h =
      let (a, b) = transition_inv s t c0 c' l l' h in
      record {
        path = subst (Leads o c) (sym (ap (λ x. x.state) b)) (path a);
        reports = subst (Reports o c) (sym (ap (λ x. x.completion) b)) reports;
        same_submission = ap (λ x. x.submission) b ∙ kept;
        count = ap (λ x. x.publication_count) b ∙ counted;
        unpublished = λ p. absurd (other p);
      }

  applied_inv :
      (active foreign : Bool) (c c' : CommandObject) (l l' : Log m q)
      (moved : Option (CommandObject × Log m q))
      → drop_status (
          assert_that active (
            if foreign then some ((c, eproto), l) else (do (d, k) ← moved; some ((d, success), k))))
        ≡ some (c', l')
      → (active ≡ true)
        × ((foreign ≡ true) × (c' ≡ c) ⊎ (foreign ≡ false) × (moved ≡ some (c', l')))
  unfolding drop_status
  applied_inv active foreign c c' l l' moved h = ground arith

  ended-Leads :
      (result : Completion) (c : CommandObject)
      → (c.state ≡ running) ⊎ (c.state ≡ aborting)
      → IsOwn result c
      → Leads
          (applies result)
          c
          (if result.status == status_success then completed else completed_error)
  ended-Leads result c active own = (
    active,
    λ n. absurd (n own),
    λ o e. if_true _ _ _ ((==_iff _ _).1 e),
    λ o n. if_false (result.status == status_success) completed _ (ground (arith, n)),
  )

  applied :
      (result : Completion) (c c' : CommandObject) (l l' : Log m q)
      → drop_status (apply_result m base q clock result c l) ≡ some (c', l')
      → HasPerformed (applies result) c c'
  unfolding drop_status apply_result
  applied result c c' l l' h =
      let (running_, outcome) = applied_inv _ _ c c' l l' _ h in
      let active = active_sound c.state running_ in
      elim outcome [
        | inl (foreign, e) ↦
            let other = IsOwn-when result c true foreign in
            record {
              path =
                  (active, λ n. ap (λ x. x.state) e, λ o. absurd (other o), λ o. absurd (other o));
              reports = (λ o. absurd (other o), λ n. ap (λ x. x.completion) e);
              same_submission = ap (λ x. x.submission) e;
              count = ap (λ x. x.publication_count) e;
              unpublished = λ p. cc;
            }
        | inr (mine, e) ↦
            let own = IsOwn-when result c false mine in
            through (applies result) c.state _ c _ c' l l' (λ a. ended-Leads result c active own)
              (λ o. refl, λ n. absurd (n own)) refl refl (λ p. cc) e
      ]

  published :
      (c c' : CommandObject) (l l' : Log m q)
      → mark_published m base q clock c l ≡ some (c', l')
      → HasPerformed publishes c c'
  unfolding mark_published
  published c c' l l' h = ground (arith, IsTerminal-sound c.state)

  -- A call on a command object that returns was made in the state that it is for and has ended in
  -- the state that follows: a capture takes a free object to submitted, an expiry of the abort
  -- aborting to an error, a cancellation queued to cancelled, an abort running to aborting, an
  -- escalation running or aborting to an error, and a result of this command running or aborting to
  -- completed just for the status of success, else to an error; a result of another command changes
  -- no state, a task's own transition goes from and to the states that it names, and a publication
  -- stays in its terminal state. The completion tells of the failure, or is the result, or is as
  -- before. The descriptor is kept, and the publication count is 0 after a capture and 1 after a
  -- publication, before which it was 0.
  pub perform-HasPerformed :
      (o : Operation) (c c' : CommandObject) (l l' : Log m q)
      → perform o c l ≡ some (c', l')
      → HasPerformed o c c'
  unfolding perform capture timeout cancel apply_result begin_abort escalate mark_published
  perform-HasPerformed (captures g s t) c c' l l' h =
      through (captures g s t) free submitted c _ c' l l' (λ a. (a, refl)) refl refl refl (λ e. cc)
        (assert_inv _ _ h).1
  perform-HasPerformed (moves s t) c c' l l' h =
      through (moves s t) s t c c c' l l' (λ a. (a, refl)) refl refl refl (λ e. cc) h
  perform-HasPerformed (times_out at) c c' l l' h =
      through (times_out at) aborting completed_error c _ c' l l' (λ a. (a, refl))
        (refl, refl, refl, refl) refl refl (λ e. cc) (assert_inv _ _ h).1
  perform-HasPerformed (cancels at) c c' l l' h =
      through (cancels at) queued cancelled c _ c' l l' (λ a. (a, refl)) (refl, refl, refl, refl)
        refl refl (λ e. cc) (assert_inv _ _ h).1
  perform-HasPerformed (begins_abort at) c c' l l' h =
      through (begins_abort at) running aborting c _ c' l l' (λ a. (a, refl))
        (refl, refl, refl, refl) refl refl (λ e. cc) (assert_inv _ _ h).1
  perform-HasPerformed (escalates at) c c' l l' h =
      let (active, moved) = assert_inv _ _ h in
      through (escalates at) c.state completed_error c _ c' l l'
        (λ a. (active_sound c.state active, refl)) (refl, refl, refl, refl) refl refl (λ e. cc)
        moved
  perform-HasPerformed (applies result) c c' l l' h = applied result c c' l l' h
  perform-HasPerformed publishes c c' l l' h = published c c' l l' h
