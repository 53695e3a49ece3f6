-- ===== src/Host/Finish.antt =====
-- The driver's invariant, and the end of a request (vams_finish_request, vams_cancel_requests).
use virtual_accelerator_mana.Base.{
  ℕ, ◌-◌, ◌<◌, ◌≡◌, refl, sym, ap, subst, ◌∙◌, true, ◌==◌, Bool-cases, inl, inr, Option, none, some,
  length, arith,
}
use virtual_accelerator_mana.Zephyr.{Mmio}
use virtual_accelerator_mana.Host.Registers.{queue_depth}
use virtual_accelerator_mana.Host.State.{
  xa_load, xa_erase, Host, Request, update, with_request, mapping_put, file_put, request_put,
}
use virtual_accelerator_mana.Host.Tables.{IsTable, load-IsErased, IsTable-frame}
use virtual_accelerator_mana.Host.Requests.{notify_owner, end_request}
use virtual_accelerator_mana.Host.Frames.{
  update_self, IsFrame, IsFrame-trans, with_request-IsFrame, notify_owner-IsFrame,
  request_put-IsFrame,
}

module _ (m : Mmio) where
  -- Tracked requests are distinct, alive and not done, the counter of pending requests is their
  -- number, and the rings' indices are in range.
  pub record IsHost (s : Host m) : Type 0 where
    pub table : IsTable s.request_at s.requests
    pub counted : s.pending_requests ≡ length s.requests
    pub tail : s.sq_tail < queue_depth
    pub head : s.cq_head < queue_depth
    pub sq_sized : length s.sq ≡ queue_depth
    pub cq_sized : length s.cq ≡ queue_depth

  abbrev lowered : Host m → Host m
  lowered s = record s { pending_requests = s.pending_requests - 1 }

  lowered-IsFrame : (a : ℕ) (s t : Host m) → IsFrame m a s t → IsFrame m a (lowered s) (lowered t)
  lowered-IsFrame a s t h = record {
    bus = h.bus;
    requests = h.requests;
    pending = ap (λ n. n - 1) h.pending;
    sq = h.sq;
    cq = h.cq;
    sq_tail = h.sq_tail;
    cq_head = h.cq_head;
    ready = h.ready;
    removing = h.removing;
    generation = h.generation;
    elsewhere = h.elsewhere;
  }

  pub end_request-IsFrame :
      (a : ℕ) (result : Request → Request) (s : Host m)
      → IsFrame m a
          (record s { pending_requests = s.pending_requests - 1 })
          (end_request m a result s)
  unfolding end_request
  end_request-IsFrame a result s =
      let change : Request → Request = λ r. record (result r) { done = true } in
      let s1 = with_request m a change s in
      let s2 = notify_owner m (s1.request_at a).owner s1 in
      IsFrame-trans m a (lowered s) (lowered s2) (request_put m a (lowered s2))
        (lowered-IsFrame a s s2 (
          IsFrame-trans m a s s1 s2 (with_request-IsFrame m a change s)
            (notify_owner-IsFrame m a (s1.request_at a).owner s1)))
        (request_put-IsFrame m a (lowered s2))

  notify_owner-requests :
      (owner : Option ℕ) (s : Host m) → (notify_owner m owner s).request_at ≡ s.request_at
  unfolding notify_owner
  notify_owner-requests none s = refl
  notify_owner-requests (some f) s = elim (Bool-cases (s.file_at f).closing) [
    | inl e ↦ rw e refl
    | inr e ↦ rw e refl
  ]

  mapping_put-requests : (o : Option ℕ) (s : Host m) → (mapping_put m o s).request_at ≡ s.request_at
  unfolding mapping_put
  mapping_put-requests none s = refl
  mapping_put-requests (some a) s = refl

  file_put-requests : (o : Option ℕ) (s : Host m) → (file_put m o s).request_at ≡ s.request_at
  unfolding file_put
  file_put-requests none s = refl
  file_put-requests (some a) s = refl

  -- Giving back a reference changes the counter of the request alone.
  pub request_put-requests :
      (a : ℕ) (s : Host m)
      → (request_put m a s).request_at
        ≡ update s.request_at a (record (s.request_at a) { refs = (s.request_at a).refs - 1 })
  unfolding request_put
  request_put-requests a s = elim (Bool-cases ((s.request_at a).refs == 1)) [
    | inr e ↦ rw e refl
    | inl e ↦ rw e (
        file_put-requests (s.request_at a).owner _
        ∙ mapping_put-requests (s.request_at a).destination _
        ∙ mapping_put-requests (s.request_at a).source _)
  ]

  release_at :
      (f g : ℕ → Request) (a : ℕ) (x : Request)
      → f ≡ update g a x
      → update f a (record (f a) { refs = (f a).refs - 1 }) a ≡ record x { refs = x.refs - 1 }
  release_at f g a x e =
      let here : f a ≡ x = ap (λ h. h a) e ∙ update_self g a x in update_self f a _ ∙ rw here refl

  pub end_request_at :
      (a : ℕ) (result : Request → Request) (s : Host m)
      → let r = result (s.request_at a) in
        (end_request m a result s).request_at a ≡ record r { done = true; refs = r.refs - 1 }
  unfolding end_request
  end_request_at a result s =
      let s1 = with_request m a (λ x. record (result x) { done = true }) s in
      let s2 = notify_owner m (s1.request_at a).owner s1 in
      ap (λ f. f a) (request_put-requests a (lowered s2))
      ∙ release_at s2.request_at s.request_at a (record (result (s.request_at a)) { done = true })
          (notify_owner-requests (s1.request_at a).owner s1)

  -- The end of a tracked request keeps the invariant.
  pub ended-IsHost :
      (id a : ℕ) (result : Request → Request) (s : Host m)
      → IsHost s
      → xa_load s.requests id ≡ some a
      → IsHost (end_request m a result (record s { requests = xa_erase s.requests id }))
  ended-IsHost id a result s h e =
      let t = xa_erase s.requests id in
      let s' = record s { requests = t } in
      let r = load-IsErased s.request_at s.requests id a h.table e in
      let k = end_request-IsFrame a result s' in
      let out = end_request m a result s' in
      let counted : s.pending_requests - 1 ≡ length t = ground (arith, h.counted, r.fewer) in
      record {
        table =
            subst (λ l. IsTable out.request_at l) (sym k.requests)
              (IsTable-frame s.request_at out.request_at a t k.elsewhere r.away r.table);
        counted = k.pending ∙ counted ∙ ap length (sym k.requests);
        tail = rw k.sq_tail h.tail;
        head = rw k.cq_head h.head;
        sq_sized = rw k.sq h.sq_sized;
        cq_sized = rw k.cq h.cq_sized;
      }
