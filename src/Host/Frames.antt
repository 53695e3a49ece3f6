-- ===== src/Host/Frames.antt =====
-- What the calls on a request leave alone.
pub use virtual_accelerator_mana.Base.{update_self}
use virtual_accelerator_mana.Base.{
  ℕ, ◌-◌, ◌≡◌, ◌≢◌, refl, ◌∙◌, ◌==◌, Bool-cases, inl, inr, Option, none, some, arith,
}
use virtual_accelerator_mana.Zephyr.{Mmio}
use virtual_accelerator_mana.Host.State.{
  Host, Request, File, Mapping, update, with_request, with_file, mapping_put, file_put, request_put,
}
use virtual_accelerator_mana.Host.Requests.{notify_owner}

module _ (m : Mmio) where
  -- The device of `s'` is that of `s`, but for the request at `a`, files and mappings.
  pub record IsFrame (a : ℕ) (s s' : Host m) : Type 0 where
    pub bus : s'.bus ≡ s.bus
    pub requests : s'.requests ≡ s.requests
    pub pending : s'.pending_requests ≡ s.pending_requests
    pub sq : s'.sq ≡ s.sq
    pub cq : s'.cq ≡ s.cq
    pub sq_tail : s'.sq_tail ≡ s.sq_tail
    pub cq_head : s'.cq_head ≡ s.cq_head
    pub ready : s'.queues_ready ≡ s.queues_ready
    pub removing : s'.removing ≡ s.removing
    pub generation : s'.reset_generation ≡ s.reset_generation
    pub elsewhere : (b : ℕ) → b ≢ a → s'.request_at b ≡ s.request_at b

  stores-IsFrame :
      (a : ℕ) (s : Host m) (requests : ℕ → Request) (files : ℕ → File) (mappings : ℕ → Mapping)
      → ((b : ℕ) → b ≢ a → requests b ≡ s.request_at b)
      → IsFrame a s (record s { request_at = requests; file_at = files; mapping_at = mappings })
  stores-IsFrame a s requests files mappings h = record {
    bus = refl;
    requests = refl;
    pending = refl;
    sq = refl;
    cq = refl;
    sq_tail = refl;
    cq_head = refl;
    ready = refl;
    removing = refl;
    generation = refl;
    elsewhere = h;
  }

  others-IsFrame :
      (a : ℕ) (s : Host m) (files : ℕ → File) (mappings : ℕ → Mapping)
      → IsFrame a s (record s { file_at = files; mapping_at = mappings })
  others-IsFrame a s files mappings = stores-IsFrame a s s.request_at files mappings (λ b h. refl)

  pub with_nothing-IsFrame : (a : ℕ) (s : Host m) → IsFrame a s s
  with_nothing-IsFrame a s = others-IsFrame a s s.file_at s.mapping_at

  pub IsFrame-trans : (a : ℕ) (s t u : Host m) → IsFrame a s t → IsFrame a t u → IsFrame a s u
  IsFrame-trans a s t u h k = record {
    bus = k.bus ∙ h.bus;
    requests = k.requests ∙ h.requests;
    pending = k.pending ∙ h.pending;
    sq = k.sq ∙ h.sq;
    cq = k.cq ∙ h.cq;
    sq_tail = k.sq_tail ∙ h.sq_tail;
    cq_head = k.cq_head ∙ h.cq_head;
    ready = k.ready ∙ h.ready;
    removing = k.removing ∙ h.removing;
    generation = k.generation ∙ h.generation;
    elsewhere = λ b n. k.elsewhere b n ∙ h.elsewhere b n;
  }

  update_elsewhere : (f : ℕ → Request) (a : ℕ) (r : Request) (b : ℕ) → b ≢ a → update f a r b ≡ f b
  update_elsewhere f a r b n = ground arith

  pub with_request-IsFrame :
      (a : ℕ) (change : Request → Request) (s : Host m) → IsFrame a s (with_request m a change s)
  with_request-IsFrame a change s =
      stores-IsFrame a s _ s.file_at s.mapping_at
        (update_elsewhere s.request_at a (change (s.request_at a)))

  pub with_file-IsFrame :
      (a f : ℕ) (change : File → File) (s : Host m) → IsFrame a s (with_file m f change s)
  with_file-IsFrame a f change s = others-IsFrame a s _ s.mapping_at

  pub notify_owner-IsFrame :
      (a : ℕ) (owner : Option ℕ) (s : Host m) → IsFrame a s (notify_owner m owner s)
  unfolding notify_owner
  notify_owner-IsFrame a none s = others-IsFrame a s s.file_at s.mapping_at
  notify_owner-IsFrame a (some f) s = elim (Bool-cases (s.file_at f).closing) [
    | inl e ↦ rw e (others-IsFrame a s s.file_at s.mapping_at)
    | inr e ↦ rw e (others-IsFrame a s _ s.mapping_at)
  ]

  mapping_put-IsFrame :
      (a : ℕ) (mapping : Option ℕ) (s : Host m) → IsFrame a s (mapping_put m mapping s)
  unfolding mapping_put
  mapping_put-IsFrame a none s = others-IsFrame a s s.file_at s.mapping_at
  mapping_put-IsFrame a (some b) s = others-IsFrame a s s.file_at _

  file_put-IsFrame : (a : ℕ) (file : Option ℕ) (s : Host m) → IsFrame a s (file_put m file s)
  unfolding file_put
  file_put-IsFrame a none s = others-IsFrame a s s.file_at s.mapping_at
  file_put-IsFrame a (some f) s = others-IsFrame a s _ s.mapping_at

  pub request_put-IsFrame : (a : ℕ) (s : Host m) → IsFrame a s (request_put m a s)
  unfolding request_put
  request_put-IsFrame a s =
      let r = s.request_at a in
      let s1 = with_request m a (λ x. record x { refs = x.refs - 1 }) s in
      let s2 = mapping_put m r.source s1 in
      let s3 = mapping_put m r.destination s2 in
      let h1 = with_request-IsFrame a (λ x. record x { refs = x.refs - 1 }) s in
      elim (Bool-cases (r.refs == 1)) [
        | inr e ↦ rw e h1
        | inl e ↦ rw e (
            IsFrame-trans a s s3 (file_put m r.owner s3)
              (IsFrame-trans a s s2 s3
                (IsFrame-trans a s s1 s2 h1 (mapping_put-IsFrame a r.source s1))
                (mapping_put-IsFrame a r.destination s2))
              (file_put-IsFrame a r.owner s3))
      ]
