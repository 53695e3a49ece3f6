-- ===== src/Host/Cancel.antt =====
-- The end of requests: by a completion, and together when a generation of the endpoint has passed
-- or the driver gives up (vams_finish_request, vams_cancel_requests).
use virtual_accelerator_mana.Base.{
  ℕ, ◌-◌, ◌≡◌, ◌≢◌, refl, sym, ap, ap₂, subst, ◌∙◌, ◌&&◌, Bool, true, false, if◌then◌else◌, ◌==◌,
  Bool-cases, inl, inr, [], ◌∷◌, ◌++◌, none, some, arith,
}
use virtual_accelerator_mana.Abi.{Completion}
use virtual_accelerator_mana.Zephyr.{Mmio}
use virtual_accelerator_mana.Host.Uapi.{Code, ok}
use virtual_accelerator_mana.Host.State.{Xarray, xa_load, xa_erase, Host, Request}
use virtual_accelerator_mana.Host.Tables.{
  IsTable, NotAt, NotIndex, load-IsErased, NotIndex-load_none,
}
use virtual_accelerator_mana.Host.Requests.{
  end_request, finish_request, cancel_entries, cancel_requests,
}
use virtual_accelerator_mana.Host.Finish.{IsHost, end_request-IsFrame, end_request_at, ended-IsHost}

-- The array holds no entry of the head's index before it.
table_before :
    (at : ℕ → Request) (kept rest : Xarray) (id a : ℕ)
    → IsTable at (kept ++ ((id, a) ∷ rest))
    → NotIndex id kept
table_before at [] rest id a h = tt
table_before at ((i, b) ∷ kept) rest id a h =
    (index_after kept h.2, table_before at kept rest id a h.3)
  where
    index_after : (l : Xarray) → NotIndex i (l ++ ((id, a) ∷ rest)) → i ≢ id
    index_after [] n = λ e. n.0 (sym e)
    index_after ((j, c) ∷ l) n = index_after l n.1

table_after :
    (at : ℕ → Request) (kept rest : Xarray) (id a : ℕ)
    → IsTable at (kept ++ ((id, a) ∷ rest))
    → NotAt a rest
table_after at [] rest id a h = h.1
table_after at ((i, b) ∷ kept) rest id a h = table_after at kept rest id a h.3

erase_middle :
    (kept rest : Xarray) (id a : ℕ)
    → NotIndex id kept
    → xa_erase (kept ++ ((id, a) ∷ rest)) id ≡ kept ++ rest
unfolding xa_erase
erase_middle [] rest id a n = ground arith
erase_middle ((i, b) ∷ kept) rest id a n =
    let r = erase_middle kept rest id a n.1 in ground (arith, n.0, r)

load_middle :
    (kept rest : Xarray) (id a : ℕ)
    → NotIndex id kept
    → xa_load (kept ++ ((id, a) ∷ rest)) id ≡ some a
unfolding xa_load
load_middle [] rest id a n = ground arith
load_middle ((i, b) ∷ kept) rest id a n =
    let r = load_middle kept rest id a n.1 in ground (arith, n.0, r)

append_cons : (kept rest : Xarray) (x : ℕ × ℕ) → (kept ++ (x ∷ [])) ++ rest ≡ kept ++ (x ∷ rest)
append_cons [] rest x = refl
append_cons (k ∷ kept) rest x = ap (λ l. k ∷ l) (append_cons kept rest x)

-- The requests that a cancellation passes over: those of the present generation, if it is for
-- stale requests alone.
abbrev pub survives : Bool → ℕ → Request → Bool
survives stale_only generation r = stale_only && r.reset_generation == generation

abbrev pub survivors : Bool → ℕ → (ℕ → Request) → Xarray → Xarray
survivors stale_only generation at [] = []
survivors stale_only generation at ((id, a) ∷ rest) =
    if survives stale_only generation (at a)
    then (id, a) ∷ survivors stale_only generation at rest
    else survivors stale_only generation at rest

-- A request after a cancellation.
abbrev pub cancelled : Code → Bool → ℕ → Request → Request
cancelled status stale_only generation r =
    if survives stale_only generation r
    then r
    else record r { driver_status = status; done = true; refs = r.refs - 1 }

-- Each request of a table has changed by `change`.
abbrev pub IsChanged : (Request → Request) → (ℕ → Request) → (ℕ → Request) → Xarray → Type 0
IsChanged change at at' [] = Unit {0}
IsChanged change at at' ((id, a) ∷ rest) = (at' a ≡ change (at a)) × IsChanged change at at' rest

survivors-frame :
    (stale_only : Bool) (generation : ℕ) (at at1 : ℕ → Request) (a : ℕ) (t : Xarray)
    → ((b : ℕ) → b ≢ a → at1 b ≡ at b)
    → NotAt a t
    → survivors stale_only generation at1 t ≡ survivors stale_only generation at t
survivors-frame stale_only generation at at1 a [] same away = refl
survivors-frame stale_only generation at at1 a ((i, b) ∷ rest) same away =
    rw (same b away.0, survivors-frame stale_only generation at at1 a rest same away.1) refl

IsChanged-frame :
    (change : Request → Request) (at at1 at' : ℕ → Request) (a : ℕ) (t : Xarray)
    → ((b : ℕ) → b ≢ a → at1 b ≡ at b)
    → NotAt a t
    → IsChanged change at1 at' t
    → IsChanged change at at' t
IsChanged-frame change at at1 at' a [] same away h = tt
IsChanged-frame change at at1 at' a ((i, b) ∷ rest) same away h =
    (h.0 ∙ ap change (same b away.0), IsChanged-frame change at at1 at' a rest same away.1 h.1)

module _ (m : Mmio) where
  -- A device after a cancellation of the entries `walk`, with `kept` before them in the array.
  pub record IsCancelled (status : Code) (stale_only : Bool) (kept walk : Xarray) (s s' : Host m)
      : Type 0 where
    pub host : IsHost m s'
    pub requests : s'.requests ≡ kept ++ survivors stale_only s.reset_generation s.request_at walk
    pub changed :
        IsChanged (cancelled status stale_only s.reset_generation) s.request_at s'.request_at walk
    pub elsewhere : (b : ℕ) → NotAt b walk → s'.request_at b ≡ s.request_at b

  cancel_entries-IsCancelled :
      (status : Code) (stale_only : Bool) (kept walk : Xarray) (s : Host m)
      → IsHost m s
      → s.requests ≡ kept ++ walk
      → IsCancelled status stale_only kept walk s (cancel_entries m status stale_only walk s)
  unfolding cancel_entries
  cancel_entries-IsCancelled status stale_only kept [] s h e = record {
    host = h;
    requests = e;
    changed = tt;
    elsewhere = λ b n. refl;
  }
  cancel_entries-IsCancelled status stale_only kept ((id, a) ∷ rest) s h e =
      let table : IsTable s.request_at (kept ++ ((id, a) ∷ rest)) =
        subst (IsTable s.request_at) e h.table in
      let before = table_before s.request_at kept rest id a table in
      let after = table_after s.request_at kept rest id a table in
      elim (Bool-cases (survives stale_only s.reset_generation (s.request_at a))) [
        | inl f ↦
            let r =
              cancel_entries-IsCancelled status stale_only (kept ++ ((id, a) ∷ [])) rest s h
                (e ∙ sym (append_cons kept rest (id, a))) in
            rw f (record {
              host = r.host;
              requests = rw f (r.requests ∙ append_cons kept _ (id, a));
              changed = rw f (r.elsewhere a after, r.changed);
              elsewhere = λ b n. r.elsewhere b n.1;
            })
        | inr f ↦
            let change : Request → Request = λ x. record x { driver_status = status } in
            let erased = record s { requests = xa_erase s.requests id } in
            let s1 = end_request m a change erased in
            let k = end_request-IsFrame m a change erased in
            let loaded : xa_load s.requests id ≡ some a =
              ap (λ l. xa_load l id) e ∙ load_middle kept rest id a before in
            let r =
              cancel_entries-IsCancelled status stale_only kept rest s1
                (ended-IsHost m id a change s h loaded)
                (k.requests ∙ ap (λ l. xa_erase l id) e ∙ erase_middle kept rest id a before) in
            let out = cancel_entries m status stale_only rest s1 in
            let left =
              ap (λ g. survivors stale_only g s1.request_at rest) k.generation
              ∙ survivors-frame stale_only s.reset_generation s.request_at s1.request_at a rest
                  k.elsewhere after in
            let changed =
              subst
                (λ g. IsChanged (cancelled status stale_only g) s1.request_at out.request_at rest)
                k.generation r.changed in
            rw f (record {
              host = r.host;
              requests = rw f (r.requests ∙ ap (λ l. kept ++ l) left);
              changed = rw f (
                r.elsewhere a after ∙ end_request_at m a change erased,
                IsChanged-frame (cancelled status stale_only s.reset_generation) s.request_at
                    s1.request_at out.request_at a rest k.elsewhere after changed,
              );
              elsewhere = λ b n. r.elsewhere b n.1 ∙ k.elsewhere b (λ q. n.0 (sym q));
            })
      ]

  -- A cancellation of a device that meets its invariant keeps it. What stays in the array are the
  -- requests of the present generation, if the cancellation is for stale ones alone, and else none.
  -- Those are as before; each other is done with the given status and one reference fewer, and
  -- requests outside the array are as before.
  pub cancel_requests-IsCancelled :
      (status : Code) (stale_only : Bool) (s : Host m)
      → IsHost m s
      → IsCancelled status stale_only [] s.requests s (cancel_requests m status stale_only s)
  unfolding cancel_requests
  cancel_requests-IsCancelled status stale_only s h =
      cancel_entries-IsCancelled status stale_only [] s.requests s h refl

  abbrev pub completed : Completion → ℕ → Host m → Host m
  completed c a s =
      end_request m a (λ r. record r { result = c; driver_status = ok })
        (record s { requests = xa_erase s.requests c.command_id })

  pub finish_loaded :
      (c : Completion) (a : ℕ) (s : Host m)
      → xa_load s.requests c.command_id ≡ some a
      → finish_request m c s ≡ (completed c a s, true)
  unfolding finish_request
  finish_loaded c a s e = rw (e, finish_request) refl

  pub finish_unknown :
      (c : Completion) (s : Host m)
      → xa_load s.requests c.command_id ≡ none
      → finish_request m c s ≡ (s, false)
  unfolding finish_request
  finish_unknown c s e = rw (e, finish_request) refl

  -- On a device that meets its invariant, a completion with the command id of a tracked request
  -- ends that request with the completion's result and success, keeps the invariant, and a second
  -- completion with that id is refused and changes nothing.
  pub finish_request-once :
      (c again : Completion) (a : ℕ) (s : Host m)
      → IsHost m s
      → xa_load s.requests c.command_id ≡ some a
      → again.command_id ≡ c.command_id
      → let s' = (finish_request m c s).0 in
        ((finish_request m c s).1 ≡ true)
        × (s'.request_at a ≡ record (s.request_at a) {
          result = c;
          driver_status = ok;
          done = true;
          refs = (s.request_at a).refs - 1;
        })
        × IsHost m s'
        × (finish_request m again s' ≡ (s', false))
  finish_request-once c again a s h e same =
      let change : Request → Request = λ r. record r { result = c; driver_status = ok } in
      let erased = record s { requests = xa_erase s.requests c.command_id } in
      let k = end_request-IsFrame m a change erased in
      let gone = (load-IsErased s.request_at s.requests c.command_id a h.table e).gone in
      let lost : xa_load (completed c a s).requests again.command_id ≡ none =
        ap₂ xa_load k.requests same
        ∙ NotIndex-load_none (xa_erase s.requests c.command_id) c.command_id gone in
      rw (finish_loaded c a s e) (
        refl,
        end_request_at m a change erased,
        ended-IsHost m c.command_id a change s h e,
        finish_unknown again (completed c a s) lost,
      )
