-- ===== src/Host/Insertion.antt =====
-- A command id that is tried (vams_track_request): the insertion into the array of the owner.
use virtual_accelerator_mana.Base.{
  ℕ, ◌^◌, ◌<◌, ◌≡◌, ◌≢◌, refl, subst, sym, ap, ◌∙◌, Bool, true, false, ◌==◌, Bool-cases,
  Option-cases, inl, inr, ◌⊎◌, ◌∷◌, Option, none, some, arith,
}
use virtual_accelerator_mana.Zephyr.{Mmio}
use virtual_accelerator_mana.Host.Uapi.{enomem}
use virtual_accelerator_mana.Host.State.{xa_load, Host, File, update, with_request, with_file}
use virtual_accelerator_mana.Host.Requests.{xa_insert_owner, track_entered, track_id}
use virtual_accelerator_mana.Host.Frames.{
  update_self, IsFrame, IsFrame-trans, with_request-IsFrame, with_file-IsFrame,
  with_nothing-IsFrame,
}
use virtual_accelerator_mana.Host.Track.{
  IsKept, IsEntered, Tried, with_owned, renamed, entered-Tried,
}

module _ (m : Mmio) where
  pub record IsInserted (owner : Option ℕ) (id a : ℕ) (s t : Host m) : Type 0 where
    pub frame : IsFrame m a s t
    pub requests : t.request_at ≡ s.request_at
    pub owned : (f : ℕ) → (t.file_at f).requests ≡ with_owned m owner id a f (s.file_at f).requests

  pub update_owned :
      (f id a : ℕ) (files : ℕ → File) (x : ℕ)
      → (update files f (record (files f) { requests = (id, a) ∷ (files f).requests }) x).requests
        ≡ with_owned m (some f) id a x (files x).requests
  update_owned f id a files x = elim (Bool-cases (x == f)) [
    | inr e ↦ rw e refl
    | inl e ↦ let same : x ≡ f = ground (arith, e) in rw (e, same) refl
  ]

  pub insert_owner_cases :
      (owner : Option ℕ) (id a : ℕ) (full : Bool) (s : Host m)
      → (xa_insert_owner m owner id a full s ≡ inr true)
        ⊎ (xa_insert_owner m owner id a full s ≡ inr false)
        ⊎ ((t : Host m) × (xa_insert_owner m owner id a full s ≡ inl t) × IsInserted owner id a s t)
  unfolding xa_insert_owner
  insert_owner_cases none id a full s = inr (
      inr (
        s,
        refl,
        record { frame = with_nothing-IsFrame m a s; requests = refl; owned = λ f. refl },
      ))
  insert_owner_cases (some f) id a full s =
      elim (Option-cases (xa_load (s.file_at f).requests id)) [
        | inr (b, e) ↦ inl (rw (e, xa_insert_owner) refl)
        | inl e ↦ elim (Bool-cases full) [
          | inl g ↦ inr (inl (rw (e, xa_insert_owner, g) refl))
          | inr g ↦
              let enter : File → File =
                λ file. record file { requests = (id, a) ∷ file.requests } in
              inr (
                inr (
                  with_file m f enter s,
                  rw (e, xa_insert_owner, g) refl,
                  record {
                    frame = with_file-IsFrame m a f enter s;
                    requests = refl;
                    owned = λ x. update_owned f id a s.file_at x;
                  },
                ))
        ]
      ]

  unfoldable pub named : ℕ → ℕ → Host m → Host m
  named a id s = with_request m a (λ r. record r { command_id = id }) s

  unfoldable pub tried_insertion : ℕ → ℕ → Bool → Host m → Host m ⊎ Bool
  tried_insertion a id owner_full s =
      xa_insert_owner m ((named a id s).request_at a).owner id a owner_full (named a id s)

  pub id_busy :
      (a id : ℕ) (owner_full full : Bool) (s : Host m)
      → tried_insertion a id owner_full s ≡ inr true
      → track_id m a id owner_full full s ≡ inl (named a id s)
  unfolding track_id named tried_insertion
  id_busy a id owner_full full s e = rw (e, track_id) refl

  pub id_full :
      (a id : ℕ) (owner_full full : Bool) (s : Host m)
      → tried_insertion a id owner_full s ≡ inr false
      → track_id m a id owner_full full s ≡ inr (named a id s, enomem)
  unfolding track_id named tried_insertion
  id_full a id owner_full full s e = rw (e, track_id) refl

  pub id_entered :
      (a id : ℕ) (owner_full full : Bool) (s t : Host m)
      → tried_insertion a id owner_full s ≡ inl t
      → track_id m a id owner_full full s ≡ track_entered m a id full t
  unfolding track_id named tried_insertion
  id_entered a id owner_full full s t e = rw (e, track_id) refl

  pub named_at :
      (a id : ℕ) (s : Host m)
      → (named a id s).request_at a ≡ record (s.request_at a) { command_id = id }
  unfolding named
  named_at a id s = update_self s.request_at a _

  pub named-IsKept : (a id : ℕ) (s : Host m) → IsKept m a s (named a id s)
  unfolding named
  named-IsKept a id s = record {
    frame = with_request-IsFrame m a (λ r. record r { command_id = id }) s;
    request = renamed m ((named a id s).request_at a) (s.request_at a) id (named_at a id s);
    owned = λ f. refl;
  }

  pub inserted-IsEntered :
      (a id : ℕ) (s t : Host m)
      → IsInserted (s.request_at a).owner id a (named a id s) t
      → IsEntered m id a s t
  unfolding named
  inserted-IsEntered a id s t h = record {
    frame = IsFrame-trans m a s (named a id s) t (named-IsKept a id s).frame h.frame;
    request = ap (λ f. f a) h.requests ∙ named_at a id s;
    owned = h.owned;
  }

  pub track_id-Tried :
      (a id : ℕ) (owner_full full : Bool) (s : Host m)
      → 0 < (s.request_at a).refs
      → id ≢ 0
      → id < 2 ^ 32
      → Tried m a s (track_id m a id owner_full full s)
  unfolding tried_insertion
  track_id-Tried a id owner_full full s alive given fits =
      let owner = ((named a id s).request_at a).owner in
      let same : owner ≡ (s.request_at a).owner = ap (λ r. r.owner) (named_at a id s) in
      elim (insert_owner_cases owner id a owner_full (named a id s)) [
        | inl e ↦ subst (Tried m a s) (sym (id_busy a id owner_full full s e)) (named-IsKept a id s)
        | inr (inl e) ↦
            subst (Tried m a s) (sym (id_full a id owner_full full s e))
              (inr (refl, named-IsKept a id s))
        | inr (inr (t, e, h)) ↦ subst (Tried m a s) (sym (id_entered a id owner_full full s t e)) (
            entered-Tried m id a full s t
              (inserted-IsEntered a id s t (subst (λ o. IsInserted o id a (named a id s) t) same h))
              alive given fits)
      ]
