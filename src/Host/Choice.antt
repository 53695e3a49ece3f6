-- ===== src/Host/Choice.antt =====
-- The loop that looks for a command id (vams_track_request).
use virtual_accelerator_mana.Base.{
  ℕ, zero, suc, ◌+◌, ◌<◌, ◌≡◌, refl, subst, sym, ap, ap₂, ◌∙◌, Bool, true, false, ◌==◌, Bool-cases,
  if_true, if_false, inl, inr, ◌⊎◌, ◌∷◌, u32, arith,
}
use virtual_accelerator_mana.Zephyr.{Mmio}
use virtual_accelerator_mana.Host.Uapi.{Code, ok, enomem, enospc}
use virtual_accelerator_mana.Host.State.{Xarray, Host, Request}
use virtual_accelerator_mana.Host.Tables.{NotIndex}
use virtual_accelerator_mana.Host.Requests.{track_id, track_once, track_loop}
use virtual_accelerator_mana.Host.Frames.{IsFrame-trans, with_nothing-IsFrame}
use virtual_accelerator_mana.Host.Track.{IsKept, IsAdded, Tried, with_owned, requests-IsFrame}
use virtual_accelerator_mana.Host.Insertion.{track_id-Tried}

module _ (m : Mmio) where
  IsKept-trans : (a : ℕ) (s t u : Host m) → IsKept m a s t → IsKept m a t u → IsKept m a s u
  IsKept-trans a s t u h k =
      let with_id : Request → Request =
        λ r. record r { command_id = (u.request_at a).command_id } in
      record {
        frame = IsFrame-trans m a s t u h.frame k.frame;
        request = k.request ∙ ap with_id h.request;
        owned = λ f. k.owned f ∙ h.owned f;
      }

  IsKept-IsAdded : (a : ℕ) (s t u : Host m) → IsKept m a s t → IsAdded m a t u → IsAdded m a s u
  IsKept-IsAdded a s t u h k =
      let change : Request → Request = λ r. record r { command_id = k.id; refs = r.refs + 1 } in
      let entry : Xarray → Xarray = λ l. (k.id, a) ∷ l in
      let same : (t.request_at a).owner ≡ (s.request_at a).owner = ap (λ r. r.owner) h.request in
      record {
        id = k.id;
        given = k.given;
        fits = k.fits;
        fresh = subst (NotIndex k.id) h.frame.requests k.fresh;
        frame =
            IsFrame-trans m a (record s { requests = entry s.requests })
              (record t { requests = entry t.requests }) u
              (requests-IsFrame m a s t _ _ h.frame (ap entry h.frame.requests)) k.frame;
        request = k.request ∙ ap change h.request;
        owned = λ f. k.owned f ∙ ap₂ (λ o l. with_owned m o k.id a f l) same (h.owned f);
      }

  Tried-from :
      (a : ℕ) (s t : Host m) (r : Host m ⊎ (Host m × Code))
      → IsKept m a s t
      → Tried m a t r
      → Tried m a s r
  Tried-from a s t (inl u) h k = IsKept-trans a s t u h k
  Tried-from a s t (inr (u, code)) h (inl (e, k)) = inl (e, IsKept-IsAdded a s t u h k)
  Tried-from a s t (inr (u, code)) h (inr (e, k)) = inr (e, IsKept-trans a s t u h k)

  unfoldable pub turned : Host m → Host m
  turned s = record s { next_command_id = u32 (s.next_command_id + 1) }

  turned-IsKept : (a : ℕ) (s : Host m) → IsKept m a s (turned s)
  unfolding turned
  turned-IsKept a s = record {
    frame = record {
      bus = refl;
      requests = refl;
      pending = refl;
      sq = refl;
      cq = refl;
      sq_tail = refl;
      cq_head = refl;
      ready = refl;
      removing = refl;
      generation = refl;
      elsewhere = λ b n. refl;
    };
    request = refl;
    owned = λ f. refl;
  }

  pub once_zero :
      (a : ℕ) (owner_full full : Bool) (s : Host m)
      → (u32 (s.next_command_id + 1) == 0) ≡ true
      → track_once m a owner_full full s ≡ inl (turned s)
  unfolding track_once turned
  once_zero a owner_full full s e = if_true _ _ _ e

  pub once_id :
      (a : ℕ) (owner_full full : Bool) (s : Host m)
      → (u32 (s.next_command_id + 1) == 0) ≡ false
      → track_once m a owner_full full s
        ≡ track_id m a (u32 (s.next_command_id + 1)) owner_full full (turned s)
  unfolding track_once turned
  once_id a owner_full full s e = if_false _ _ _ e

  pub track_once-Tried :
      (a : ℕ) (owner_full full : Bool) (s : Host m)
      → 0 < (s.request_at a).refs
      → Tried m a s (track_once m a owner_full full s)
  unfolding turned
  track_once-Tried a owner_full full s alive =
      let id = u32 (s.next_command_id + 1) in
      elim (Bool-cases (id == 0)) [
        | inl e ↦ subst (Tried m a s) (sym (once_zero a owner_full full s e)) (turned-IsKept a s)
        | inr e ↦ subst (Tried m a s) (sym (once_id a owner_full full s e)) (
            Tried-from a s (turned s) _ (turned-IsKept a s) (
              track_id-Tried m a id owner_full full (turned s) alive (ground (arith, e))
                (omega arith)))
      ]

  -- What the loop comes to.
  abbrev pub Tracked : ℕ → Host m → Host m × Code → Type 0
  Tracked a s (s', code) =
      ((code ≡ ok) × IsAdded m a s s') ⊎ (((code ≡ enomem) ⊎ (code ≡ enospc)) × IsKept m a s s')

  Tracked-from :
      (a : ℕ) (s t : Host m) (r : Host m × Code) → IsKept m a s t → Tracked a t r → Tracked a s r
  Tracked-from a s t (u, code) h (inl (e, k)) = inl (e, IsKept-IsAdded a s t u h k)
  Tracked-from a s t (u, code) h (inr (e, k)) = inr (e, IsKept-trans a s t u h k)

  loop_step :
      (a : ℕ) (s : Host m) (rest : Host m → Host m × Code) (r : Host m ⊎ (Host m × Code))
      → 0 < (s.request_at a).refs
      → ((t : Host m) → 0 < (t.request_at a).refs → Tracked a t (rest t))
      → Tried m a s r
      → Tracked a s (elim r [ inl t ↦ rest t | inr q ↦ q ])
  loop_step a s rest (inl t) alive later h =
      let refs : (t.request_at a).refs ≡ (s.request_at a).refs = ap (λ r. r.refs) h.request in
      Tracked-from a s t (rest t) h (later t (rw refs alive))
  loop_step a s rest (inr (u, code)) alive later (inl (e, k)) = inl (e, k)
  loop_step a s rest (inr (u, code)) alive later (inr (e, k)) = inr (inl e, k)

  -- For a request that is alive, the search for a command id either tracks it, under an id in range
  -- that is not 0 and that no tracked request had, with one reference more and an entry in its
  -- owner's array, or reports that memory or ids ran out and leaves both arrays and the reference
  -- counter as they were.
  pub track_loop-Tracked :
      (attempts turn : ℕ) (owner_full full : ℕ → Bool) (a : ℕ) (s : Host m)
      → 0 < (s.request_at a).refs
      → Tracked a s (track_loop m attempts turn owner_full full a s)
  unfolding track_loop
  track_loop-Tracked zero turn owner_full full a s alive =
      inr
        (inr refl, record { frame = with_nothing-IsFrame m a s; request = refl; owned = λ f. refl })
  track_loop-Tracked (suc attempts) turn owner_full full a s alive =
      loop_step a s (λ t. track_loop m attempts (turn + 1) owner_full full a t)
        (track_once m a (owner_full turn) (full turn) s) alive
        (λ t alive'. track_loop-Tracked attempts (turn + 1) owner_full full a t alive')
        (track_once-Tried a (owner_full turn) (full turn) s alive)
