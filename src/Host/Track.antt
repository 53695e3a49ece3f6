-- ===== src/Host/Track.antt =====
-- The choice of a command id (vams_track_request): an id that no tracked request has, or nothing.
use virtual_accelerator_mana.Base.{
  ℕ, ◌+◌, ◌-◌, ◌^◌, ◌<◌, ◌≡◌, ◌≢◌, refl, subst, sym, ap, ap₂, ◌∙◌, Bool, true, false, if◌then◌else◌,
  ◌==◌, Bool-cases, if_false, Option-cases, inl, inr, ◌⊎◌, ◌∷◌, Option, none, some, arith,
}
use virtual_accelerator_mana.Zephyr.{Mmio}
use virtual_accelerator_mana.Host.Uapi.{Code, ok, enomem}
use virtual_accelerator_mana.Host.State.{
  Xarray, xa_load, xa_erase, Host, Request, with_request, request_get, request_put,
}
use virtual_accelerator_mana.Host.Tables.{NotIndex, load_none-NotIndex}
use virtual_accelerator_mana.Host.Requests.{xa_erase_owner, track_entered}
use virtual_accelerator_mana.Host.Frames.{
  IsFrame, IsFrame-trans, update_self, with_request-IsFrame, with_file-IsFrame,
  with_nothing-IsFrame,
}

module _ (m : Mmio) where
  -- The request at `a` was not tracked: but for its command id, all is as it was.
  pub record IsKept (a : ℕ) (s s' : Host m) : Type 0 where
    pub frame : IsFrame m a s s'
    pub request :
        s'.request_at a ≡ record (s.request_at a) { command_id = (s'.request_at a).command_id }
    pub owned : (f : ℕ) → (s'.file_at f).requests ≡ (s.file_at f).requests

  -- The array of an open file after a request of `owner` was tracked.
  abbrev pub with_owned : Option ℕ → ℕ → ℕ → ℕ → Xarray → Xarray
  with_owned none id a f requests = requests
  with_owned (some owner) id a f requests = if f == owner then (id, a) ∷ requests else requests

  -- It was tracked, under an id that no tracked request had.
  pub record IsAdded (a : ℕ) (s s' : Host m) : Type 0 where
    pub id : ℕ
    pub given : id ≢ 0
    pub fits : id < 2 ^ 32
    pub fresh : NotIndex id s.requests
    pub frame : IsFrame m a (record s { requests = (id, a) ∷ s.requests }) s'
    pub request :
        s'.request_at a
        ≡ record (s.request_at a) { command_id = id; refs = (s.request_at a).refs + 1 }
    pub owned :
        (f : ℕ)
        → (s'.file_at f).requests ≡ with_owned (s.request_at a).owner id a f (s.file_at f).requests

  -- What a turn of the loop leads to.
  abbrev pub Tried : ℕ → Host m → Host m ⊎ (Host m × Code) → Type 0
  Tried a s (inl s') = IsKept a s s'
  Tried a s (inr (s', code)) = ((code ≡ ok) × IsAdded a s s') ⊎ ((code ≡ enomem) × IsKept a s s')

  -- The device between the two insertions.
  pub record IsEntered (id a : ℕ) (s s' : Host m) : Type 0 where
    pub frame : IsFrame m a s s'
    pub request : s'.request_at a ≡ record (s.request_at a) { command_id = id }
    pub owned :
        (f : ℕ)
        → (s'.file_at f).requests ≡ with_owned (s.request_at a).owner id a f (s.file_at f).requests

  got_at :
      (a : ℕ) (s : Host m)
      → (request_get m a s).request_at a
        ≡ record (s.request_at a) { refs = (s.request_at a).refs + 1 }
  unfolding request_get
  got_at a s = update_self s.request_at a _

  got-IsFrame : (a : ℕ) (s : Host m) → IsFrame m a s (request_get m a s)
  unfolding request_get
  got-IsFrame a s = with_request-IsFrame m a (λ r. record r { refs = r.refs + 1 }) s

  abbrev released : ℕ → Host m → Host m
  released a s = with_request m a (λ r. record r { refs = r.refs - 1 }) s

  -- A reference that is not the last.
  put_shared :
      (a : ℕ) (s : Host m) → ((s.request_at a).refs == 1) ≡ false → request_put m a s ≡ released a s
  unfolding request_put
  put_shared a s e = if_false _ _ _ e

  -- A reference that is taken and given back leaves the request as it was.
  put_got :
      (a : ℕ) (s : Host m)
      → 0 < (s.request_at a).refs
      → request_put m a (request_get m a s) ≡ released a (request_get m a s)
  put_got a s alive = put_shared a (request_get m a s) (rw (got_at a s) (ground (arith, alive)))

  released_at :
      (a : ℕ) (s : Host m) → (released a (request_get m a s)).request_at a ≡ s.request_at a
  released_at a s =
      let r = s.request_at a in
      let counted : ℕ → Request = λ n. record r { refs = n } in
      let same : r.refs + 1 - 1 ≡ r.refs = omega arith in
      update_self (request_get m a s).request_at a _ ∙ rw (got_at a s) (ap counted same)

  abbrev undone : ℕ → ℕ → Host m → Host m
  undone a id s = xa_erase_owner m (s.request_at a).owner id (request_put m a (request_get m a s))

  entered_busy :
      (a id b : ℕ) (full : Bool) (s : Host m)
      → xa_load (request_get m a s).requests id ≡ some b
      → track_entered m a id full s ≡ inl (undone a id s)
  unfolding track_entered
  entered_busy a id b full s e = rw (e, track_entered) refl

  entered_full :
      (a id : ℕ) (s : Host m)
      → xa_load (request_get m a s).requests id ≡ none
      → track_entered m a id true s ≡ inr (undone a id s, enomem)
  unfolding track_entered
  entered_full a id s e = rw (e, track_entered) refl

  entered_free :
      (a id : ℕ) (s : Host m)
      → xa_load (request_get m a s).requests id ≡ none
      → track_entered m a id false s
        ≡ inr (record (request_get m a s) { requests = (id, a) ∷ (request_get m a s).requests }, ok)
  unfolding track_entered
  entered_free a id s e = rw (e, track_entered) refl

  erase_owner-IsFrame :
      (owner : Option ℕ) (a id : ℕ) (s : Host m) → IsFrame m a s (xa_erase_owner m owner id s)
  unfolding xa_erase_owner
  erase_owner-IsFrame none a id s = with_nothing-IsFrame m a s
  erase_owner-IsFrame (some f) a id s =
      with_file-IsFrame m a f (λ file. record file { requests = xa_erase file.requests id }) s

  erase_owner-requests :
      (owner : Option ℕ) (id : ℕ) (s : Host m)
      → (xa_erase_owner m owner id s).request_at ≡ s.request_at
  unfolding xa_erase_owner
  erase_owner-requests none id s = refl
  erase_owner-requests (some f) id s = refl

  erase_head : (id a : ℕ) (t : Xarray) → xa_erase ((id, a) ∷ t) id ≡ t
  unfolding xa_erase
  erase_head id a t = ground arith

  -- The owner's array loses just what the insertion gave it.
  erase_owner_lem :
      (owner : Option ℕ) (id a : ℕ) (s t : Host m)
      → ((f : ℕ) → (t.file_at f).requests ≡ with_owned owner id a f (s.file_at f).requests)
      → (f : ℕ) → ((xa_erase_owner m owner id t).file_at f).requests ≡ (s.file_at f).requests
  unfolding xa_erase_owner
  erase_owner_lem none id a s t h f = h f
  erase_owner_lem (some owner) id a s t h f = elim (Bool-cases (f == owner)) [
    | inr e ↦ rw e (h f ∙ rw e refl)
    | inl e ↦
        let same : f ≡ owner = ground (arith, e) in
        let here : (t.file_at f).requests ≡ (id, a) ∷ (s.file_at f).requests = h f ∙ rw e refl in
        rw (e, ← same, here) (erase_head id a (s.file_at f).requests)
  ]

  pub renamed :
      (x r : Request) (id : ℕ)
      → x ≡ record r { command_id = id }
      → x ≡ record r { command_id = x.command_id }
  renamed x r id p =
      let with_id : ℕ → Request = λ n. record r { command_id = n } in
      p ∙ ap with_id (sym (ap (λ y. y.command_id) p))

  pub requests-IsFrame :
      (a : ℕ) (s t : Host m) (l l' : Xarray)
      → IsFrame m a s t
      → l' ≡ l
      → IsFrame m a (record s { requests = l }) (record t { requests = l' })
  requests-IsFrame a s t l l' h e = record {
    bus = h.bus;
    requests = e;
    pending = h.pending;
    sq = h.sq;
    cq = h.cq;
    sq_tail = h.sq_tail;
    cq_head = h.cq_head;
    ready = h.ready;
    removing = h.removing;
    generation = h.generation;
    elsewhere = h.elsewhere;
  }

  undone-IsKept :
      (id a : ℕ) (s t : Host m)
      → IsEntered id a s t
      → 0 < (s.request_at a).refs
      → IsKept a s (undone a id t)
  unfolding request_get
  undone-IsKept id a s t h alive =
      let owner = (s.request_at a).owner in
      let u = released a (request_get m a t) in
      let same : (t.request_at a).owner ≡ owner = ap (λ r. r.owner) h.request in
      let alive_there : 0 < (t.request_at a).refs = rw h.request alive in
      let e : undone a id t ≡ xa_erase_owner m owner id u =
        ap₂ (λ o x. xa_erase_owner m o id x) same (put_got a t alive_there) in
      let out = xa_erase_owner m owner id u in
      let p : out.request_at a ≡ record (s.request_at a) { command_id = id } =
        ap (λ f. f a) (erase_owner-requests owner id u) ∙ released_at a t ∙ h.request in
      subst (IsKept a s) (sym e) (record {
        frame = IsFrame-trans m a s t out h.frame (
            IsFrame-trans m a t (request_get m a t) out (got-IsFrame a t) (
              IsFrame-trans m a (request_get m a t) u out
                (with_request-IsFrame m a (λ r. record r { refs = r.refs - 1 }) (request_get m a t))
                (erase_owner-IsFrame owner a id u)));
        request = renamed (out.request_at a) (s.request_at a) id p;
        owned = erase_owner_lem owner id a s u h.owned;
      })

  entered-IsAdded :
      (id a : ℕ) (s t : Host m)
      → IsEntered id a s t
      → id ≢ 0
      → id < 2 ^ 32
      → xa_load (request_get m a t).requests id ≡ none
      → IsAdded a s
          (record (request_get m a t) { requests = (id, a) ∷ (request_get m a t).requests })
  unfolding request_get
  entered-IsAdded id a s t h given fits e =
      let k = IsFrame-trans m a s t (request_get m a t) h.frame (got-IsFrame a t) in
      let counted : Request → Request = λ r. record r { refs = r.refs + 1 } in
      record {
        id = id;
        given = given;
        fits = fits;
        fresh = load_none-NotIndex s.requests id (ap (λ l. xa_load l id) (sym k.requests) ∙ e);
        frame = requests-IsFrame a s (request_get m a t) _ _ k (ap (λ l. (id, a) ∷ l) k.requests);
        request = got_at a t ∙ ap counted h.request;
        owned = h.owned;
      }

  pub entered-Tried :
      (id a : ℕ) (full : Bool) (s t : Host m)
      → IsEntered id a s t
      → 0 < (s.request_at a).refs
      → id ≢ 0
      → id < 2 ^ 32
      → Tried a s (track_entered m a id full t)
  entered-Tried id a full s t h alive given fits =
      elim (Option-cases (xa_load (request_get m a t).requests id)) [
        | inr (b, e) ↦
            subst (Tried a s) (sym (entered_busy a id b full t e)) (undone-IsKept id a s t h alive)
        | inl e ↦ free full e
      ]
    where
      free :
          (full : Bool)
          → xa_load (request_get m a t).requests id ≡ none
          → Tried a s (track_entered m a id full t)
      free true e =
          subst (Tried a s) (sym (entered_full a id t e))
            (inr (refl, undone-IsKept id a s t h alive))
      free false e =
          subst (Tried a s) (sym (entered_free a id t e))
            (inl (refl, entered-IsAdded id a s t h given fits e))
