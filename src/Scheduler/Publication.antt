-- ===== src/Scheduler/Publication.antt =====
-- How often a command object is published, over any sequence of calls on it (vams_scheduler.c).
use virtual_accelerator_mana.Base.{ℕ, ◌+◌, ◌-◌, ◌≤◌, ◌≡◌, refl, some, arith}
use virtual_accelerator_mana.Zephyr.{Mmio, Msgq}
use virtual_accelerator_mana.Log.{Log, Event}
use virtual_accelerator_mana.Scheduler.{CommandObject}
use virtual_accelerator_mana.Scheduler.Edges.{
  Operation, captures, moves, times_out, cancels, begins_abort, escalates, applies, publishes,
  perform, HasPerformed, perform-HasPerformed,
}

abbrev pub captures_of : Operation → ℕ
captures_of (captures g s t) = 1
captures_of _ = 0

abbrev pub publications_of : Operation → ℕ
publications_of publishes = 1
publications_of _ = 0

module _ (m : Mmio) (base : ℕ) (q : Msgq Event) (clock : ℕ → ℕ) where
  -- Calls on one command object that all return, with the number of captures and of publications
  -- among them. Between two calls other code uses the log.
  pub data Life : CommandObject → ℕ → ℕ → CommandObject → Type 0 where
    done : {c : CommandObject} → Life c 0 0 c
    call :
        {c c' c'' : CommandObject} {k n : ℕ} (o : Operation) (l l' : Log m q)
        → perform m base q clock o c l ≡ some (c', l')
        → Life c' k n c''
        → Life c (captures_of o + k) (publications_of o + n) c''

  one_call :
      (o : Operation) (c c' : CommandObject) (k n : ℕ)
      → HasPerformed m base q clock o c c'
      → n ≤ k + (1 - c'.publication_count)
      → publications_of o + n ≤ captures_of o + k + (1 - c.publication_count)
  one_call (captures g s t) c c' k n h le = let e = h.count in omega arith
  one_call publishes c c' k n h le = let e = h.count in let z = h.unpublished refl in omega arith
  one_call (moves s t) c c' k n h le = let e = h.count in omega arith
  one_call (times_out at) c c' k n h le = let e = h.count in omega arith
  one_call (cancels at) c c' k n h le = let e = h.count in omega arith
  one_call (begins_abort at) c c' k n h le = let e = h.count in omega arith
  one_call (escalates at) c c' k n h le = let e = h.count in omega arith
  one_call (applies r) c c' k n h le = let e = h.count in omega arith

  -- Over any sequence of calls that return, a command object is published at most once for each
  -- capture of it, and once more where the sequence starts before its publication.
  pub publications_le_captures :
      (c c' : CommandObject) (k n : ℕ) → Life c k n c' → n ≤ k + (1 - c.publication_count)
  publications_le_captures c _ _ _ done = omega arith
  publications_le_captures c c'' _ _ (call {c' = c'} {k = k} {n = n} o l l' e r) =
      one_call o c c' k n (perform-HasPerformed m base q clock o c c' l l' e)
        (publications_le_captures c' c'' k n r)
