-- ===== src/Host/Walk.antt =====
-- The loop over the completion ring (vams_drain_cq): what it changes and where it ends.
use virtual_accelerator_mana.Base.{
  ℕ, zero, suc, ◌+◌, ◌-◌, ◌%◌, ◌<◌, ◌≡◌, ◌≢◌, refl, subst, sym, ap, ◌∙◌, ◌==◌, Bool-cases,
  Option-cases, inl, inr, get_or, arith,
}
use virtual_accelerator_mana.Base.Bits.{bit_and_fifteen}
use virtual_accelerator_mana.Abi.{Completion}
use virtual_accelerator_mana.Zephyr.{Mmio}
use virtual_accelerator_mana.Host.Uapi.{ok}
use virtual_accelerator_mana.Host.Registers.{queue_depth}
use virtual_accelerator_mana.Host.State.{Host, Request, xa_load, xa_erase}
use virtual_accelerator_mana.Host.Requests.{finish_request}
use virtual_accelerator_mana.Host.Queues.{next_slot, no_completion, drain_loop}
use virtual_accelerator_mana.Host.Tables.{NotAt, NotAt-erase, load_away}
use virtual_accelerator_mana.Host.Finish.{IsHost, end_request-IsFrame, ended-IsHost}
use virtual_accelerator_mana.Host.Cancel.{finish_loaded, finish_unknown}

-- The number of entries between the head and the tail of a ring.
abbrev pub distance : ℕ → ℕ → ℕ
distance head tail = (tail + queue_depth - head) % queue_depth

pub next_slot_lem : (slot : ℕ) → next_slot slot ≡ (slot + 1) % queue_depth
next_slot_lem slot = bit_and_fifteen (slot + 1)

pub distance_step :
    (head tail : ℕ)
    → head < queue_depth
    → tail < queue_depth
    → head ≢ tail
    → distance head tail ≡ distance (next_slot head) tail + 1
distance_step head tail h t ne = let slot = next_slot_lem head in omega (arith, slot)

module _ (m : Mmio) where
  -- What no walk changes: requests that are not tracked, and the submission ring.
  pub record IsQuiet (s s' : Host m) : Type 0 where
    pub untracked : (a : ℕ) → NotAt a s.requests → NotAt a s'.requests
    pub request : (a : ℕ) → NotAt a s.requests → s'.request_at a ≡ s.request_at a
    pub tail : s'.sq_tail ≡ s.sq_tail
    pub sq : s'.sq ≡ s.sq

  pub still-IsQuiet :
      (bus : m.Device) (head : ℕ) (s : Host m) → IsQuiet s (record s { bus = bus; cq_head = head })
  still-IsQuiet bus head s = record {
    untracked = λ a n. n;
    request = λ a n. refl;
    tail = refl;
    sq = refl;
  }

  pub IsQuiet-trans : (s t u : Host m) → IsQuiet s t → IsQuiet t u → IsQuiet s u
  IsQuiet-trans s t u h k = record {
    untracked = λ a n. k.untracked a (h.untracked a n);
    request = λ a n. k.request a (h.untracked a n) ∙ h.request a n;
    tail = k.tail ∙ h.tail;
    sq = k.sq ∙ h.sq;
  }

  -- What a turn of the loop does with a completion.
  pub record IsFinished (s s' : Host m) : Type 0 where
    pub host : IsHost m s'
    pub head : s'.cq_head ≡ s.cq_head
    pub bus : s'.bus ≡ s.bus
    pub cq : s'.cq ≡ s.cq
    pub quiet : IsQuiet s s'

  pub finish_request-IsFinished :
      (c : Completion) (s : Host m) → IsHost m s → IsFinished s (finish_request m c s).0
  finish_request-IsFinished c s h = elim (Option-cases (xa_load s.requests c.command_id)) [
    | inl e ↦ rw (finish_unknown m c s e) (record {
      host = h;
      head = refl;
      bus = refl;
      cq = refl;
      quiet = still-IsQuiet s.bus s.cq_head s;
    })
    | inr (a, e) ↦
        let change : Request → Request = λ r. record r { result = c; driver_status = ok } in
        let erased = record s { requests = xa_erase s.requests c.command_id } in
        let k = end_request-IsFrame m a change erased in
        rw (finish_loaded m c a s e) (record {
          host = ended-IsHost m c.command_id a change s h e;
          head = k.cq_head;
          bus = k.bus;
          cq = k.cq;
          quiet = record {
            untracked =
                λ b n. subst (NotAt b) (sym k.requests) (NotAt-erase b c.command_id s.requests n);
            request = λ b n. k.elsewhere b (load_away s.requests c.command_id a b e n);
            tail = k.sq_tail;
            sq = k.sq;
          };
        })
  ]

  pub advanced-IsHost :
      (head : ℕ) (s : Host m)
      → head < queue_depth
      → IsHost m s
      → IsHost m (record s { cq_head = head })
  advanced-IsHost head s lt h = record {
    table = h.table;
    counted = h.counted;
    tail = h.tail;
    head = lt;
    sq_sized = h.sq_sized;
    cq_sized = h.cq_sized;
  }

  pub record IsDrained (tail : ℕ) (s : Host m) (r : Host m × ℕ) : Type 0 where
    pub host : IsHost m r.0
    pub head : r.0.cq_head ≡ tail
    pub bus : r.0.bus ≡ s.bus
    pub quiet : IsQuiet s r.0
    pub count : r.1 ≡ distance s.cq_head tail

  pub drain_loop-IsDrained :
      (left tail : ℕ) (s : Host m)
      → IsHost m s
      → tail < queue_depth
      → distance s.cq_head tail < left
      → IsDrained tail s (drain_loop m left tail s)
  unfolding drain_loop
  drain_loop-IsDrained zero tail s h lt enough = absurd (omega arith)
  drain_loop-IsDrained (suc left) tail s h lt enough = elim (Bool-cases (s.cq_head == tail)) [
    | inl e ↦ rw e (record {
      host = h;
      head = ground (arith, e);
      bus = refl;
      quiet = still-IsQuiet s.bus s.cq_head s;
      count = ground (arith, e, h.head);
    })
    | inr e ↦
        let next = next_slot s.cq_head in
        let slot : next ≡ (s.cq_head + 1) % queue_depth = next_slot_lem s.cq_head in
        let taken = record s { cq_head = next } in
        let c = get_or s.cq s.cq_head no_completion in
        let k = finish_request-IsFinished c taken (advanced-IsHost next s (omega arith) h) in
        let s1 = (finish_request m c taken).0 in
        let here = distance_step s.cq_head tail h.head lt (ground (arith, e)) in
        let r = drain_loop-IsDrained left tail s1 k.host lt (rw k.head (omega arith)) in
        rw e (record {
          host = r.host;
          head = r.head;
          bus = r.bus ∙ k.bus;
          quiet =
              IsQuiet-trans s s1 (drain_loop m left tail s1).0
                (IsQuiet-trans s taken s1 (still-IsQuiet s.bus next s) k.quiet) r.quiet;
          count = rw here (ap (λ n. n + 1) (r.count ∙ ap (λ x. distance x tail) k.head));
        })
  ]
