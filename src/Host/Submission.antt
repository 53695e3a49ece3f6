-- ===== src/Host/Submission.antt =====
-- The submission of a descriptor (vams_submit).
use virtual_accelerator_mana.Base.{
  ℕ, ◌+◌, ◌*◌, ◌%◌, ◌^◌, ◌<◌, ◌≡◌, ◌≢◌, refl, subst, sym, ap, ◌∙◌, Bool, true, false, not, leb,
  ◌==◌, Bool-cases, if_true, if_false, inl, inr, ◌⊎◌, ◌∷◌, length, length-set, get_or,
  get_or-set_self, arith,
}
use virtual_accelerator_mana.Abi.{Submission}
use virtual_accelerator_mana.Zephyr.{Mmio}
use virtual_accelerator_mana.Host.Uapi.{Code, ok, enodev, eopnotsupp}
use virtual_accelerator_mana.Host.Registers.{queue_depth, reg_sq_head, reg_sq_doorbell}
use virtual_accelerator_mana.Host.State.{Host, Request}
use virtual_accelerator_mana.Host.Tables.{IsTable, IsTracked, NotAt, NotIndex, IsTable-frame}
use virtual_accelerator_mana.Host.Queues.{
  next_slot, readl, writel, drain_cq, publish_submission, submit_tracked, submit_at, submit,
}
use virtual_accelerator_mana.Host.Frames.{update_self, with_request-IsFrame}
use virtual_accelerator_mana.Host.Finish.{IsHost}
use virtual_accelerator_mana.Host.Walk.{next_slot_lem}
use virtual_accelerator_mana.Host.Drain.{bus-IsHost, drain_cq_lem, drain_cq-IsQuiet}
use virtual_accelerator_mana.Host.Track.{IsKept, IsAdded}
use virtual_accelerator_mana.Host.Choice.{Tracked, track_loop-Tracked}

module _ (m : Mmio) where
  -- A request that was allocated and waits to be submitted.
  pub record IsFresh (a : ℕ) (s : Host m) : Type 0 where
    pub away : NotAt a s.requests
    pub alive : 0 < (s.request_at a).refs
    pub waiting : (s.request_at a).done ≡ false

  kept-IsHost :
      (a : ℕ) (s t : Host m) → NotAt a s.requests → IsHost m s → IsKept m a s t → IsHost m t
  kept-IsHost a s t away h k =
      let f = k.frame in
      record {
        table =
            subst (IsTable t.request_at) (sym f.requests)
              (IsTable-frame s.request_at t.request_at a s.requests f.elsewhere away h.table);
        counted = f.pending ∙ h.counted ∙ ap length (sym f.requests);
        tail = rw f.sq_tail h.tail;
        head = rw f.cq_head h.head;
        sq_sized = rw f.sq h.sq_sized;
        cq_sized = rw f.cq h.cq_sized;
      }

  -- What stands in the submission ring after a submission, and in the array.
  pub record IsSubmitted (a : ℕ) (descriptor : Submission) (s s' : Host m) : Type 0 where
    pub id : ℕ
    pub given : id ≢ 0
    pub fits : id < 2 ^ 32
    pub fresh : NotIndex id s.requests
    pub loaded : s'.requests ≡ (id, a) ∷ s.requests
    pub published : get_or s'.sq s.sq_tail descriptor ≡ record descriptor { command_id = id }
    pub advanced : s'.sq_tail ≡ (s.sq_tail + 1) % queue_depth
    pub generation : (s'.request_at a).reset_generation ≡ s'.reset_generation
    pub rung : s'.bus ≡ m.write32 s'.sq_tail reg_sq_doorbell s.bus

  published-IsSubmitted :
      (a : ℕ) (descriptor : Submission) (s t : Host m)
      → IsFresh a s
      → IsHost m s
      → IsAdded m a s t
      → IsSubmitted a descriptor s (publish_submission m a descriptor (next_slot s.sq_tail) t)
  unfolding publish_submission writel
  published-IsSubmitted a descriptor s t fresh h k =
      let f = k.frame in
      let named : (t.request_at a).command_id ≡ k.id = ap (λ r. r.command_id) k.request in
      record {
        id = k.id;
        given = k.given;
        fits = k.fits;
        fresh = k.fresh;
        loaded = f.requests;
        published =
            rw (named, f.sq, f.sq_tail)
              (get_or-set_self s.sq s.sq_tail _ descriptor (rw h.sq_sized h.tail));
        advanced = next_slot_lem s.sq_tail;
        generation = ap (λ r. r.reset_generation) (update_self t.request_at a _);
        rung = ap (m.write32 (next_slot s.sq_tail) reg_sq_doorbell) f.bus;
      }

  published-IsHost :
      (a : ℕ) (descriptor : Submission) (s t : Host m)
      → IsFresh a s
      → IsHost m s
      → IsAdded m a s t
      → IsHost m (publish_submission m a descriptor (next_slot s.sq_tail) t)
  unfolding publish_submission writel
  published-IsHost a descriptor s t fresh h k =
      let f = k.frame in
      let renewed : Request → Request = λ r. record r { reset_generation = t.reset_generation } in
      let out = publish_submission m a descriptor (next_slot s.sq_tail) t in
      let e : out.request_at a ≡ renewed (t.request_at a) = update_self t.request_at a _ in
      let elsewhere : (b : ℕ) → b ≢ a → out.request_at b ≡ s.request_at b =
        λ b n. (with_request-IsFrame m a renewed t).elsewhere b n ∙ f.elsewhere b n in
      let slot = next_slot_lem s.sq_tail in
      record {
        table = subst (IsTable out.request_at) (sym f.requests) (
          subst (IsTracked k.id) (sym (e ∙ ap renewed k.request))
              (record { knows = refl; alive = omega arith; waiting = fresh.waiting }),
          fresh.away,
          k.fresh,
          IsTable-frame s.request_at out.request_at a s.requests elsewhere fresh.away h.table,
        );
        counted = rw (f.requests, f.pending, h.counted) (omega arith);
        tail = rw slot (omega arith);
        head = rw f.cq_head h.head;
        sq_sized = length-set t.sq t.sq_tail _ ∙ ap length f.sq ∙ h.sq_sized;
        cq_sized = rw f.cq h.cq_sized;
      }

  -- Nothing was submitted, and the request may be.
  pub record IsRefused (a : ℕ) (s s' : Host m) : Type 0 where
    pub fresh : IsFresh a s'
    pub sq : s'.sq ≡ s.sq
    pub tail : s'.sq_tail ≡ s.sq_tail

  -- What a submission comes to, from the endpoint's head and the device `t` at which it was read.
  abbrev pub Submitted : ℕ → Submission → ℕ → Host m → Host m → Host m × Code → Type 0
  Submitted a descriptor sq_head s t (s', code) =
      IsHost m s'
      × (((code ≡ ok) × (s'.sq_tail ≢ sq_head) × IsSubmitted a descriptor t s')
          ⊎ ((code ≢ ok) × IsRefused a s s'))

  kept-IsRefused : (a : ℕ) (s t u : Host m) → IsRefused a s t → IsKept m a t u → IsRefused a s u
  kept-IsRefused a s t u h k = record {
    fresh = record {
      away = subst (NotAt a) (sym k.frame.requests) h.fresh.away;
      alive = rw (ap (λ r. r.refs) k.request) h.fresh.alive;
      waiting = ap (λ r. r.done) k.request ∙ h.fresh.waiting;
    };
    sq = k.frame.sq ∙ h.sq;
    tail = k.frame.sq_tail ∙ h.tail;
  }

  Tracked-Submitted :
      (a : ℕ) (descriptor : Submission) (sq_head : ℕ) (s t : Host m) (r : Host m × Code)
      → IsHost m t
      → IsRefused a s t
      → next_slot t.sq_tail ≢ sq_head
      → Tracked m a t r
      → Submitted a descriptor sq_head s t (submit_tracked m a descriptor (next_slot t.sq_tail) r)
  unfolding submit_tracked
  Tracked-Submitted a descriptor sq_head s t (u, code) h k apart (inl (e, added)) =
      let done = published-IsSubmitted a descriptor t u k.fresh h added in
      let differs : (t.sq_tail + 1) % queue_depth ≢ sq_head =
        subst (λ n. n ≢ sq_head) (next_slot_lem t.sq_tail) apart in
      rw e (
        published-IsHost a descriptor t u k.fresh h added,
        inl (refl, rw done.advanced differs, done),
      )
  Tracked-Submitted a descriptor sq_head s t (u, code) h k apart (inr (inl e, kept)) =
      rw e (kept-IsHost a t u k.fresh.away h kept, inr (cc, kept-IsRefused a s t u k kept))
  Tracked-Submitted a descriptor sq_head s t (u, code) h k apart (inr (inr e, kept)) =
      rw e (kept-IsHost a t u k.fresh.away h kept, inr (cc, kept-IsRefused a s t u k kept))

  submit_at-Submitted :
      (owner_full full : ℕ → Bool) (a : ℕ) (descriptor : Submission) (sq_head : ℕ) (s t : Host m)
      → IsHost m t
      → IsRefused a s t
      → Submitted a descriptor sq_head s t (submit_at m owner_full full a descriptor sq_head t)
  unfolding submit_at
  submit_at-Submitted owner_full full a descriptor sq_head s t h k =
      elim (Bool-cases (leb queue_depth sq_head)) [
        | inl e ↦ rw e (h, inr (cc, k))
        | inr e ↦ elim (Bool-cases (next_slot t.sq_tail == sq_head)) [
          | inl f ↦ rw (e, f) (h, inr (cc, k))
          | inr f ↦
              rw (e, f)
                (Tracked-Submitted a descriptor sq_head s t _ h k (ground (arith, f))
                  (track_loop-Tracked m (queue_depth * 2) 0 owner_full full a t k.fresh.alive))
        ]
      ]

  submit_removing :
      (owner_full full : ℕ → Bool) (a : ℕ) (descriptor : Submission) (s : Host m)
      → s.removing ≡ true
      → submit m owner_full full a descriptor s ≡ (s, enodev)
  unfolding submit
  submit_removing owner_full full a descriptor s e = if_true _ _ _ e

  submit_unready :
      (owner_full full : ℕ → Bool) (a : ℕ) (descriptor : Submission) (s : Host m)
      → s.removing ≡ false
      → not s.queues_ready ≡ true
      → submit m owner_full full a descriptor s ≡ (s, eopnotsupp)
  unfolding submit
  submit_unready owner_full full a descriptor s e f = if_false _ _ _ e ∙ if_true _ _ _ f

  submit_goes :
      (owner_full full : ℕ → Bool) (a : ℕ) (descriptor : Submission) (s : Host m)
      → s.removing ≡ false
      → not s.queues_ready ≡ false
      → let (sq_head, t) = readl m reg_sq_head (drain_cq m s).0 in
        submit m owner_full full a descriptor s ≡ submit_at m owner_full full a descriptor sq_head t
  unfolding submit
  submit_goes owner_full full a descriptor s e f = if_false _ _ _ e ∙ if_false _ _ _ f

  -- A submission of a request that is not tracked, on a device that meets its invariant, keeps it.
  -- It succeeds only with the descriptor, under a new command id, in the slot at the ring's tail, the
  -- tail moved on but not to the endpoint's head, the request in the array, and the doorbell rung;
  -- else the ring and its tail are as before and the request can be submitted again.
  pub submit-Submitted :
      (owner_full full : ℕ → Bool) (a : ℕ) (descriptor : Submission) (s : Host m)
      → IsHost m s
      → IsFresh a s
      → let (sq_head, t) = readl m reg_sq_head (drain_cq m s).0 in
        Submitted a descriptor sq_head s t (submit m owner_full full a descriptor s)
  unfolding submit readl
  submit-Submitted owner_full full a descriptor s h fresh =
      let (sq_head, bus) = m.read32 reg_sq_head (drain_cq m s).0.bus in
      let t = record (drain_cq m s).0 { bus = bus } in
      let goal : Host m × Code → Type 0 = Submitted a descriptor sq_head s t in
      let still : IsRefused a s s = record { fresh = fresh; sq = refl; tail = refl } in
      let host : IsHost m t = bus-IsHost m bus (drain_cq m s).0 (drain_cq_lem m s h).0 in
      let q = drain_cq-IsQuiet m s h in
      let request = q.request a fresh.away in
      let ready : IsRefused a s t = record {
        fresh = record {
          away = q.untracked a fresh.away;
          alive = rw request fresh.alive;
          waiting = ap (λ r. r.done) request ∙ fresh.waiting;
        };
        sq = q.sq;
        tail = q.tail;
      } in
      elim (Bool-cases s.removing) [
        | inl e ↦
            subst goal (sym (submit_removing owner_full full a descriptor s e)) (h, inr (cc, still))
        | inr e ↦ elim (Bool-cases (not s.queues_ready)) [
          | inl f ↦
              subst goal (sym (submit_unready owner_full full a descriptor s e f))
                (h, inr (cc, still))
          | inr f ↦
              subst goal (sym (submit_goes owner_full full a descriptor s e f))
                (submit_at-Submitted owner_full full a descriptor sq_head s t host ready)
        ]
      ]
