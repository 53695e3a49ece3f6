-- ===== src/Host/Success.antt =====
-- When a submission succeeds (vams_submit, vams_track_request).
use virtual_accelerator_mana.Base.{
  ℕ, zero, suc, ◌+◌, ◌*◌, ◌<◌, ◌≡◌, ◌≢◌, refl, subst, sym, ap, ◌∙◌, Bool, true, false, not, leb,
  ◌==◌, Bool-cases, Option-cases, if_true, if_false, inl, inr, ◌⊎◌, ◌∷◌, Option, none, some, u32,
  arith,
}
use virtual_accelerator_mana.Abi.{Submission}
use virtual_accelerator_mana.Zephyr.{Mmio}
use virtual_accelerator_mana.Host.Uapi.{Code, ok}
use virtual_accelerator_mana.Host.Registers.{queue_depth, reg_sq_head}
use virtual_accelerator_mana.Host.State.{
  xa_load, Host, File, Request, with_file, mapping_put, file_put, request_get, request_put,
}
use virtual_accelerator_mana.Host.Requests.{
  xa_insert_owner, xa_erase_owner, track_entered, track_id, track_once, track_loop,
}
use virtual_accelerator_mana.Host.Queues.{
  next_slot, readl, drain_cq, submit_tracked, submit_at, submit,
}
use virtual_accelerator_mana.Host.Track.{IsKept, Tried}
use virtual_accelerator_mana.Host.Insertion.{named, named_at, tried_insertion, id_busy, id_entered}
use virtual_accelerator_mana.Host.Choice.{turned, once_zero, once_id, track_once-Tried}

module _ (m : Mmio) where
  -- What the array of a request's owner holds at an index.
  abbrev pub owner_load : Option ℕ → ℕ → (ℕ → File) → Option ℕ
  owner_load none id files = none
  owner_load (some f) id files = xa_load (files f).requests id

  -- No request has the command id, neither among those of the device nor of the owner of `a`.
  abbrev pub IsFree : ℕ → ℕ → Host m → Type 0
  IsFree id a s =
      (id ≢ 0)
      × (xa_load s.requests id ≡ none)
      × (owner_load (s.request_at a).owner id s.file_at ≡ none)

  mapping_put-next :
      (o : Option ℕ) (s : Host m) → (mapping_put m o s).next_command_id ≡ s.next_command_id
  unfolding mapping_put
  mapping_put-next none s = refl
  mapping_put-next (some a) s = refl

  file_put-next : (o : Option ℕ) (s : Host m) → (file_put m o s).next_command_id ≡ s.next_command_id
  unfolding file_put
  file_put-next none s = refl
  file_put-next (some a) s = refl

  request_put-next : (a : ℕ) (s : Host m) → (request_put m a s).next_command_id ≡ s.next_command_id
  unfolding request_put
  request_put-next a s = elim (Bool-cases ((s.request_at a).refs == 1)) [
    | inr e ↦ ap (λ (t : Host m). t.next_command_id) (if_false _ _ _ e)
    | inl e ↦
        ap (λ (t : Host m). t.next_command_id) (if_true _ _ _ e)
        ∙ file_put-next (s.request_at a).owner _
        ∙ mapping_put-next (s.request_at a).destination _
        ∙ mapping_put-next (s.request_at a).source _
  ]

  erase_owner-next :
      (o : Option ℕ) (id : ℕ) (s : Host m)
      → (xa_erase_owner m o id s).next_command_id ≡ s.next_command_id
  unfolding xa_erase_owner
  erase_owner-next none id s = refl
  erase_owner-next (some f) id s = refl

  -- A turn with memory at hand goes on with the next id only if the id was taken.
  abbrev Found : ℕ → ℕ → Host m → Host m ⊎ (Host m × Code) → Type 0
  Found id a s (inl t) =
      (t.next_command_id ≡ s.next_command_id)
      × (¬ (
          (xa_load s.requests id ≡ none) × (owner_load (s.request_at a).owner id s.file_at ≡ none)))
  Found id a s (inr (u, code)) = code ≡ ok

  entered-Found :
      (id a : ℕ) (s t : Host m)
      → t.requests ≡ s.requests
      → t.next_command_id ≡ s.next_command_id
      → Found id a s (track_entered m a id false t)
  unfolding track_entered request_get
  entered-Found id a s t e n = elim (Option-cases (xa_load t.requests id)) [
    | inl l ↦ rw (l, track_entered) refl
    | inr (b, l) ↦
        let there : xa_load s.requests id ≡ some b = ap (λ x. xa_load x id) (sym e) ∙ l in
        rw (l, track_entered)
          (erase_owner-next (t.request_at a).owner id _ ∙ request_put-next a _ ∙ n, λ (p, q). cc)
  ]

  insert_cases :
      (owner : Option ℕ) (id a : ℕ) (s : Host m)
      → ((xa_insert_owner m owner id a false s ≡ inr true) × (owner_load owner id s.file_at ≢ none))
        ⊎ ((t : Host m) × (xa_insert_owner m owner id a false s ≡ inl t)
            × (t.requests ≡ s.requests)
            × (t.next_command_id ≡ s.next_command_id))
  unfolding xa_insert_owner
  insert_cases none id a s = inr (s, refl, refl, refl)
  insert_cases (some f) id a s = elim (Option-cases (xa_load (s.file_at f).requests id)) [
    | inr (b, e) ↦ inl (rw (e, xa_insert_owner) refl, λ p. cc)
    | inl e ↦
        let enter : File → File = λ file. record file { requests = (id, a) ∷ file.requests } in
        inr (with_file m f enter s, rw (e, xa_insert_owner) refl, refl, refl)
  ]

  same_owner :
      (id a : ℕ) (s : Host m) → ((named m a id s).request_at a).owner ≡ (s.request_at a).owner
  same_owner id a s = ap (λ (r : Request). r.owner) (named_at m a id s)

  track_id-Found : (id a : ℕ) (s : Host m) → Found id a s (track_id m a id false false s)
  unfolding named tried_insertion
  track_id-Found id a s =
      elim (insert_cases ((named m a id s).request_at a).owner id a (named m a id s)) [
        | inl (e, taken) ↦
            subst (Found id a s) (sym (id_busy m a id false false s e))
              (refl, λ p. taken (ap (λ o. owner_load o id s.file_at) (same_owner id a s) ∙ p.1))
        | inr (t, e, r, n) ↦
            subst (Found id a s) (sym (id_entered m a id false false s t e))
              (entered-Found id a s t r n)
      ]

  abbrev FoundNext : ℕ → Host m → Host m ⊎ (Host m × Code) → Type 0
  FoundNext a s (inl t) =
      (t.next_command_id ≡ u32 (s.next_command_id + 1))
      × (¬ (IsFree (u32 (s.next_command_id + 1)) a s))
  FoundNext a s (inr (u, code)) = code ≡ ok

  found_next :
      (id a : ℕ) (s : Host m) (r : Host m ⊎ (Host m × Code))
      → id ≡ u32 (s.next_command_id + 1)
      → Found id a (turned m s) r
      → FoundNext a s r
  unfolding turned
  found_next id a s (inl t) e (n, taken) = (
    n,
    λ free. taken (
      subst (λ x. xa_load s.requests x ≡ none) (sym e) free.1,
      subst (λ x. owner_load (s.request_at a).owner x s.file_at ≡ none) (sym e) free.2,
    ),
  )
  found_next id a s (inr (u, code)) e h = h

  track_once-FoundNext : (a : ℕ) (s : Host m) → FoundNext a s (track_once m a false false s)
  unfolding turned
  track_once-FoundNext a s = elim (Bool-cases (u32 (s.next_command_id + 1) == 0)) [
    | inl e ↦
        let zero_id : u32 (s.next_command_id + 1) ≡ 0 = ground (arith, e) in
        subst (FoundNext a s) (sym (once_zero m a false false s e)) (refl, λ free. free.0 zero_id)
    | inr e ↦ subst (FoundNext a s) (sym (once_id m a false false s e)) (
        found_next (u32 (s.next_command_id + 1)) a s _ refl
          (track_id-Found (u32 (s.next_command_id + 1)) a (turned m s)))
  ]

  -- Memory is never short.
  abbrev pub never : ℕ → Bool
  never turn = false

  kept-IsFree : (id a : ℕ) (s t : Host m) → IsKept m a s t → IsFree id a s → IsFree id a t
  kept-IsFree id a s t h free =
      let same : (t.request_at a).owner ≡ (s.request_at a).owner =
        ap (λ (r : Request). r.owner) h.request in
      (
        free.0,
        ap (λ l. xa_load l id) h.frame.requests ∙ free.1,
        ap (λ o. owner_load o id t.file_at) same ∙ owned_same (s.request_at a).owner ∙ free.2,
      )
    where
      owned_same : (o : Option ℕ) → owner_load o id t.file_at ≡ owner_load o id s.file_at
      owned_same none = refl
      owned_same (some f) = ap (λ l. xa_load l id) (h.owned f)

  -- The ids that the search tries, in order.
  abbrev pub candidate : ℕ → Host m → ℕ
  candidate turn s = u32 (s.next_command_id + 1 + turn)

  next_candidate : (n turn : ℕ) → u32 (u32 (n + 1) + 1 + turn) ≡ u32 (n + 1 + suc turn)
  next_candidate n turn = omega arith

  -- A turn of the search, where the rest of it finds a candidate.
  turn_finds :
      (attempts k a : ℕ) (s : Host m) (rest : Host m → Host m × Code)
      → ((j : ℕ) (t : Host m)
          → j < attempts
          → 0 < (t.request_at a).refs
          → IsFree (candidate j t) a t
          → (rest t).1 ≡ ok)
      → k < suc attempts
      → 0 < (s.request_at a).refs
      → IsFree (candidate k s) a s
      → (r : Host m ⊎ (Host m × Code)) → FoundNext a s r
      → Tried m a s r
      → (elim r as (λ x. Host m × Code) [ inl t ↦ rest t | inr q ↦ q ]).1 ≡ ok
  turn_finds attempts k a s rest later lt alive free (inr (u, code)) h tried = h
  turn_finds attempts zero a s rest later lt alive free (inl t) (n, taken) tried =
      absurd (taken (subst (λ x. IsFree x a s) (ap u32 (omega arith)) free))
  turn_finds attempts (suc k) a s rest later lt alive free (inl t) (n, taken) tried =
      let refs : (t.request_at a).refs ≡ (s.request_at a).refs =
        ap (λ (r : Request). r.refs) tried.request in
      let same : candidate k t ≡ candidate (suc k) s =
        ap (λ x. u32 (x + 1 + k)) n ∙ next_candidate s.next_command_id k in
      later k t (omega arith) (rw refs alive)
        (subst (λ x. IsFree x a t) (sym same) (kept-IsFree (candidate (suc k) s) a s t tried free))

  track_loop_finds :
      (attempts turn k a : ℕ) (s : Host m)
      → k < attempts
      → 0 < (s.request_at a).refs
      → IsFree (candidate k s) a s
      → (track_loop m attempts turn never never a s).1 ≡ ok
  unfolding track_loop
  track_loop_finds zero turn k a s lt alive free = absurd (omega arith)
  track_loop_finds (suc attempts) turn k a s lt alive free =
      turn_finds attempts k a s (λ t. track_loop m attempts (turn + 1) never never a t)
        (λ j t. track_loop_finds attempts (turn + 1) j a t) lt alive free
        (track_once m a false false s) (track_once-FoundNext a s)
        (track_once-Tried m a false false s alive)

  submit_tracked_ok :
      (a next : ℕ) (descriptor : Submission) (r : Host m × Code)
      → r.1 ≡ ok
      → (submit_tracked m a descriptor next r).1 ≡ ok
  unfolding submit_tracked
  submit_tracked_ok a next descriptor (s, code) e = rw e refl

  -- On a device that is not being removed and whose queues are ready, where the endpoint's head is
  -- in range and the slot after the tail is not it, a submission of a request that is alive succeeds
  -- if memory is not short and one of the 32 ids that the search would try is free.
  pub submit_succeeds :
      (a k : ℕ) (descriptor : Submission) (s : Host m)
      → s.removing ≡ false
      → s.queues_ready ≡ true
      → (readl m reg_sq_head (drain_cq m s).0).0 < queue_depth
      → let (sq_head, t) = readl m reg_sq_head (drain_cq m s).0 in
        next_slot t.sq_tail ≢ sq_head
        → k < 32
        → 0 < (t.request_at a).refs
        → IsFree (candidate k t) a t
        → (submit m never never a descriptor s).1 ≡ ok
  unfolding submit submit_at
  submit_succeeds a k descriptor s e f lt apart few alive free =
      let (sq_head, t) = readl m reg_sq_head (drain_cq m s).0 in
      let in_range : leb queue_depth sq_head ≡ false = ground (arith, lt) in
      let ready : not s.queues_ready ≡ false = rw f refl in
      let room : (next_slot t.sq_tail == sq_head) ≡ false = ground (arith, apart) in
      let found = track_loop_finds (queue_depth * 2) 0 k a t (omega arith) alive free in
      ap (λ (r : Host m × Code). r.1)
        (if_false _ _ _ e ∙ if_false _ _ _ ready ∙ if_false _ _ _ in_range ∙ if_false _ _ _ room)
      ∙ submit_tracked_ok a (next_slot t.sq_tail) descriptor
          (track_loop m (queue_depth * 2) 0 never never a t) found
