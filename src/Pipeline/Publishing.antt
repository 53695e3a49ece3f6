-- ===== src/Pipeline/Publishing.antt =====
-- One try of a publication keeps the pipeline as it is (main.c, vams_publish_portal_completion and
-- vams_request_overload_reset).
use virtual_accelerator_mana.Base.{
  ℕ, ◌≡◌, ap, ◌⊎◌, inl, inr, Bool-cases, ◌∙◌, if_true, if_false, leb, Option, some,
}
use virtual_accelerator_mana.Abi.{Completion}
use virtual_accelerator_mana.Zephyr.{Status, success, ebusy}
use virtual_accelerator_mana.Portal.{complete}
use virtual_accelerator_mana.Tasks.Publish.{complete_status}
use virtual_accelerator_mana.Pipeline.Store.{Platform, Store, now_of, clock_read}
use virtual_accelerator_mana.Pipeline.Dispatch.{published, request_overload_reset}
use virtual_accelerator_mana.Pipeline.Worked.{ticked}
use virtual_accelerator_mana.Pipeline.Invariant.{IsMachine, IsConsistent, reset-IsLog}

module _ (p : Platform) (machine : IsMachine p) where
  pub clock_read-IsConsistent :
      (s : Store p) → IsConsistent p machine s → IsConsistent p machine (clock_read p s)
  clock_read-IsConsistent s v = record {
    owned = v.owned;
    is_log = ticked p.bus p.base p.events machine.ram p.clock s.log v.is_log;
    generation_fits = v.generation_fits;
    deep = v.deep;
  }

  pub reset-IsConsistent :
      (s : Store p) → IsConsistent p machine s → IsConsistent p machine (request_overload_reset p s)
  reset-IsConsistent s v = record {
    owned = v.owned;
    is_log = reset-IsLog p machine s.log v.is_log;
    generation_fits = v.generation_fits;
    deep = v.deep;
  }

  abbrev pub Continues : Option (Store p) → Type 0
  Continues r = (t : Store p) × (r ≡ some t) × IsConsistent p machine t

  -- A try ends, where the step after a success does and the state after a timeout is consistent.
  pub published-Continues :
      (status : Status) (deadline : ℕ) (next : Store p → Option (Store p))
      (halt : Store p → Store p) (s : Store p)
      → (status ≡ success) ⊎ (status ≡ ebusy)
      → IsConsistent p machine s
      → Continues (next s)
      → IsConsistent p machine (halt (request_overload_reset p (clock_read p s)))
      → Continues (published p status deadline next halt s)
  published-Continues status deadline next halt s (inl e) v (t, done, w) stuck =
      (t, ap (λ x. published p x deadline next halt s) e ∙ done, w)
  published-Continues status deadline next halt s (inr e) v goes stuck =
      let busy = ap (λ x. published p x deadline next halt s) e in
      elim (Bool-cases (leb deadline (now_of p s))) [
        | inl late ↦
            (halt (request_overload_reset p (clock_read p s)), busy ∙ if_true _ _ _ late, stuck)
        | inr early ↦ (clock_read p s, busy ∙ if_false _ _ _ early, clock_read-IsConsistent s v)
      ]

  pub completes :
      (result : Completion) (s : Store p)
      → let status = (complete p.portal_bus p.portal_base result s.portal).1 in
        (status ≡ success) ⊎ (status ≡ ebusy)
  completes result s = complete_status p.portal_bus p.portal_base result s.portal
