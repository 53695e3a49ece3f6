-- ===== src/Host/Taken.antt =====
-- What the walk over the completion ring does to each tracked request (vams_drain_cq).
use virtual_accelerator_mana.Base.{
  ℕ, zero, suc, ◌-◌, ◌<◌, ◌≡◌, ◌≢◌, refl, subst, sym, ap, ap₂, if_false, ◌∙◌, Bool, true, ◌==◌,
  if◌then◌else◌, Bool-cases, Option-cases, inl, inr, List, [], ◌∷◌, Option, none, some, get_or,
  arith,
}
use virtual_accelerator_mana.Abi.{Completion}
use virtual_accelerator_mana.Zephyr.{Mmio}
use virtual_accelerator_mana.Host.Uapi.{ok}
use virtual_accelerator_mana.Host.Registers.{queue_depth}
use virtual_accelerator_mana.Host.State.{Xarray, Host, Request, xa_load, xa_erase}
use virtual_accelerator_mana.Host.Requests.{finish_request}
use virtual_accelerator_mana.Host.Queues.{next_slot, no_completion, drain_loop}
use virtual_accelerator_mana.Host.Tables.{
  NotAt, NotIndex, NotIndex-erase, NotIndex-load_none, load-IsErased, load_away,
}
use virtual_accelerator_mana.Host.Finish.{IsHost, end_request-IsFrame}
use virtual_accelerator_mana.Host.Cancel.{finish_loaded, finish_unknown, finish_request-once}
use virtual_accelerator_mana.Host.Walk.{
  distance, distance_step, next_slot_lem, finish_request-IsFinished, advanced-IsHost,
  drain_loop-IsDrained,
}

-- So many entries of a ring from a slot on.
abbrev pub entries : ℕ → List Completion → ℕ → List Completion
entries zero cq slot = []
entries (suc n) cq slot = get_or cq slot no_completion ∷ entries n cq (next_slot slot)

-- The first of the completions with a command id.
abbrev pub answer_of : List Completion → ℕ → Option Completion
answer_of [] id = none
answer_of (c ∷ rest) id = if c.command_id == id then some c else answer_of rest id

load_erased_other : (t : Xarray) (id j : ℕ) → j ≢ id → xa_load (xa_erase t j) id ≡ xa_load t id
unfolding xa_load xa_erase
load_erased_other [] id j ne = refl
load_erased_other ((i, a) ∷ rest) id j ne =
    let r = load_erased_other rest id j ne in ground (arith, r)

NotAt-other :
    (t : Xarray) (j id b a : ℕ)
    → NotAt b (xa_erase t j)
    → xa_load (xa_erase t j) id ≡ some a
    → a ≢ b
NotAt-other t j id b a away e = λ same. load_away (xa_erase t j) id a b e away (sym same)

module _ (m : Mmio) where
  -- The request `a` tracked under a command id, where the walk has met an answer to it and where
  -- it has not.
  abbrev pub Answered : Option Completion → ℕ → ℕ → Host m → Host m → Type 0
  Answered none id a s s' = (xa_load s'.requests id ≡ some a) × (s'.request_at a ≡ s.request_at a)
  Answered (some c) id a s s' =
      (xa_load s'.requests id ≡ none)
      × (s'.request_at a ≡ record (s.request_at a) {
        result = c;
        driver_status = ok;
        done = true;
        refs = (s.request_at a).refs - 1;
      })

  finish_request-NotIndex :
      (c : Completion) (id : ℕ) (s : Host m)
      → NotIndex id s.requests
      → NotIndex id (finish_request m c s).0.requests
  finish_request-NotIndex c id s n = elim (Option-cases (xa_load s.requests c.command_id)) [
    | inl e ↦ rw (finish_unknown m c s e) n
    | inr (b, e) ↦
        let change : Request → Request = λ r. record r { result = c; driver_status = ok } in
        let k =
          end_request-IsFrame m b change
            (record s { requests = xa_erase s.requests c.command_id }) in
        rw (finish_loaded m c b s e)
          (subst (NotIndex id) (sym k.requests) (NotIndex-erase id c.command_id s.requests n))
  ]

  drain_loop-NotIndex :
      (left tail id : ℕ) (s : Host m)
      → NotIndex id s.requests
      → NotIndex id (drain_loop m left tail s).0.requests
  unfolding drain_loop
  drain_loop-NotIndex zero tail id s n = n
  drain_loop-NotIndex (suc left) tail id s n = elim (Bool-cases (s.cq_head == tail)) [
    | inl e ↦ rw e n
    | inr e ↦ rw e (
        drain_loop-NotIndex left tail id _ (
          finish_request-NotIndex (get_or s.cq s.cq_head no_completion) id
            (record s { cq_head = next_slot s.cq_head }) n))
  ]

  -- A completion of another command leaves a request alone.
  finished_other :
      (c : Completion) (id a : ℕ) (s : Host m)
      → IsHost m s
      → c.command_id ≢ id
      → xa_load s.requests id ≡ some a
      → Answered none id a s (finish_request m c s).0
  finished_other c id a s h ne at = elim (Option-cases (xa_load s.requests c.command_id)) [
    | inl e ↦ rw (finish_unknown m c s e) (at, refl)
    | inr (b, e) ↦
        let change : Request → Request = λ r. record r { result = c; driver_status = ok } in
        let k =
          end_request-IsFrame m b change
            (record s { requests = xa_erase s.requests c.command_id }) in
        let still = load_erased_other s.requests id c.command_id ne ∙ at in
        let away = (load-IsErased s.request_at s.requests c.command_id b h.table e).away in
        rw (finish_loaded m c b s e) (
          ap (λ t. xa_load t id) k.requests ∙ still,
          k.elsewhere a (NotAt-other s.requests c.command_id id b a away still),
        )
  ]

  -- The completion of its own command ends a request for the whole walk.
  own_answer :
      (c : Completion) (left tail id a : ℕ) (s : Host m)
      → IsHost m s
      → tail < queue_depth
      → distance s.cq_head tail < left
      → c.command_id ≡ id
      → xa_load s.requests id ≡ some a
      → (finish_request m c s).0.cq_head ≡ s.cq_head
      → Answered (some c) id a s (drain_loop m left tail (finish_request m c s).0).0
  own_answer c left tail id a s h lt enough same at head =
      let loaded : xa_load s.requests c.command_id ≡ some a = rw same at in
      let s1 = (finish_request m c s).0 in
      let (told, changed, host, again) = finish_request-once m c c a s h loaded refl in
      let gone = load-IsErased s.request_at s.requests c.command_id a h.table loaded in
      let k =
        end_request-IsFrame m a (λ r. record r { result = c; driver_status = ok })
          (record s { requests = xa_erase s.requests c.command_id }) in
      let left_over : s1.requests ≡ xa_erase s.requests c.command_id =
        ap (λ (r : Host m × Bool). r.0.requests) (finish_loaded m c a s loaded) ∙ k.requests in
      let r = drain_loop-IsDrained m left tail s1 host lt (rw head enough) in
      let absent : NotIndex id s1.requests =
        subst (λ j. NotIndex j s1.requests) same (rw left_over gone.gone) in
      (
        NotIndex-load_none _ id (drain_loop-NotIndex left tail id s1 absent),
        r.quiet.request a (rw left_over gone.away) ∙ changed,
      )

  pub Answered-before :
      (o : Option Completion) (id a : ℕ) (s s1 s2 : Host m)
      → s1.request_at a ≡ s.request_at a
      → Answered o id a s1 s2
      → Answered o id a s s2
  Answered-before none id a s s1 s2 same (at, kept) = (at, kept ∙ same)
  Answered-before (some c) id a s s1 s2 same (gone, ended) = (
    gone,
    ended
        ∙ ap
            (λ (r : Request). record r {
              result = c;
              driver_status = ok;
              done = true;
              refs = r.refs - 1;
            })
            same,
  )

  pub drain_loop-Answered :
      (left tail : ℕ) (s : Host m)
      → IsHost m s
      → tail < queue_depth
      → distance s.cq_head tail < left
      → (id a : ℕ) → xa_load s.requests id ≡ some a
      → Answered
          (answer_of (entries (distance s.cq_head tail) s.cq s.cq_head) id)
          id
          a
          s
          (drain_loop m left tail s).0
  unfolding drain_loop
  drain_loop-Answered zero tail s h lt enough id a at = absurd (omega arith)
  drain_loop-Answered (suc left) tail s h lt enough id a at =
      elim (Bool-cases (s.cq_head == tail)) [
        | inl e ↦
            let empty : distance s.cq_head tail ≡ 0 = ground (arith, e, h.head) in
            rw (e, empty) (at, refl)
        | inr e ↦
            let next = next_slot s.cq_head in
            let slot = next_slot_lem s.cq_head in
            let taken = record s { cq_head = next } in
            let c = get_or s.cq s.cq_head no_completion in
            let ready = advanced-IsHost m next s (omega (arith, slot)) h in
            let k = finish_request-IsFinished m c taken ready in
            let s1 = (finish_request m c taken).0 in
            let here = distance_step s.cq_head tail h.head lt (ground (arith, e)) in
            let more : distance next tail < left = omega (arith, here, enough) in
            let one : distance s.cq_head tail ≡ suc (distance next tail) = omega (arith, here) in
            rw (e, one)
              (elim (Bool-cases (c.command_id == id)) [
                | inl own ↦ rw own (
                    own_answer c left tail id a taken ready lt more (ground (arith, own)) at k.head)
                | inr other ↦
                    let (still, same) =
                      finished_other c id a taken ready (ground (arith, other)) at in
                    let s2 = (drain_loop m left tail s1).0 in
                    let same_ring =
                      ap₂
                        (λ (l : List Completion) (x : ℕ).
                          answer_of (entries (distance x tail) l x) id)
                        k.cq k.head in
                    let later =
                      drain_loop-Answered left tail s1 k.host lt (rw k.head more) id a still in
                    subst (λ o. Answered o id a s s2) (sym (if_false _ _ _ other))
                      (Answered-before _ id a s s1 s2 same
                        (subst (λ o. Answered o id a s1 s2) same_ring later))
              ])
      ]
