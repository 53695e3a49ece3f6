-- ===== src/Host/Requests.antt =====
-- kernel/vams_pci.c: requests from their command id to their end (vams_track_request,
-- vams_finish_request, vams_cancel_requests). Cache maintenance for the CPU is not modelled.
use virtual_accelerator_mana.Base.{
  ℕ, zero, suc, ◌+◌, ◌-◌, Bool, true, false, ◌&&◌, if◌then◌else◌, ◌==◌, [], ◌∷◌, Option, none, some,
  ◌⊎◌, inl, inr, u32,
}
use virtual_accelerator_mana.Abi.{Completion}
use virtual_accelerator_mana.Zephyr.{Mmio}
use virtual_accelerator_mana.Host.Uapi.{Code, ok, enospc, enomem}
use virtual_accelerator_mana.Host.State.{
  Xarray, xa_load, xa_erase, Host, Request, with_request, with_file, request_get, request_put,
}

module _ (m : Mmio) where
  -- The signal to the file that a request of it is done.
  unfoldable pub notify_owner : Option ℕ → Host m → Host m
  notify_owner none s = s
  notify_owner (some f) s =
      if (s.file_at f).closing
      then s
      else with_file m f (λ file. record file { completed_requests = file.completed_requests + 1 })
          s

  -- What ends a tracked request at `a`, whatever its result. The counter of pending requests is the
  -- atomic integer of the source, which the driver's invariant keeps above 0 here.
  unfoldable pub end_request : ℕ → (Request → Request) → Host m → Host m
  unfolding notify_owner
  end_request a result s =
      let s1 = with_request m a (λ r. record (result r) { done = true }) s in
      let s2 = notify_owner (s1.request_at a).owner s1 in
      request_put m a (record s2 { pending_requests = s2.pending_requests - 1 })

  unfoldable pub finish_request : Completion → Host m → Host m × Bool
  unfolding end_request
  finish_request c s = elim (xa_load s.requests c.command_id) [
    | none ↦ (s, false)
    | some a ↦ (
      end_request a (λ r. record r { result = c; driver_status = ok })
          (record s { requests = xa_erase s.requests c.command_id }),
      true,
    )
  ]

  -- The walk over the entries that stood in the array at its start.
  unfoldable pub cancel_entries : Code → Bool → Xarray → Host m → Host m
  unfolding end_request
  cancel_entries status stale_only [] s = s
  cancel_entries status stale_only ((id, a) ∷ rest) s = cancel_entries status stale_only rest (
      if stale_only && (s.request_at a).reset_generation == s.reset_generation
      then s
      else end_request a (λ r. record r { driver_status = status })
          (record s { requests = xa_erase s.requests id }))

  unfoldable pub cancel_requests : Code → Bool → Host m → Host m
  cancel_requests status stale_only s = cancel_entries status stale_only s.requests s

  -- `xa_insert` of a new index: the outcome of its allocation is `full`.
  unfoldable pub xa_insert_owner : Option ℕ → ℕ → ℕ → Bool → Host m → Host m ⊎ Bool
  xa_insert_owner none id a full s = inl s
  xa_insert_owner (some f) id a full s = elim (xa_load (s.file_at f).requests id) [
    | some other ↦ inr true
    | none ↦
        if full
        then inr false
        else inl (with_file m f (λ file. record file { requests = (id, a) ∷ file.requests }) s)
  ]

  unfoldable pub xa_erase_owner : Option ℕ → ℕ → Host m → Host m
  xa_erase_owner none id s = s
  xa_erase_owner (some f) id s =
      with_file m f (λ file. record file { requests = xa_erase file.requests id }) s

  -- The insertion into the driver's array, after that into the owner's.
  unfoldable pub track_entered : ℕ → ℕ → Bool → Host m → Host m ⊎ (Host m × Code)
  unfolding xa_erase_owner
  track_entered a id full s =
      let s1 = request_get m a s in
      let undone = xa_erase_owner (s.request_at a).owner id (request_put m a s1) in
      elim (xa_load s1.requests id) [
        | some other ↦ inl undone
        | none ↦
            if full
            then inr (undone, enomem)
            else inr (record s1 { requests = (id, a) ∷ s1.requests }, ok)
      ]

  unfoldable pub track_id : ℕ → ℕ → Bool → Bool → Host m → Host m ⊎ (Host m × Code)
  unfolding xa_insert_owner
  track_id a id owner_full full s =
      let s1 = with_request m a (λ r. record r { command_id = id }) s in
      elim (xa_insert_owner (s1.request_at a).owner id a owner_full s1) [
        | inr busy ↦ if busy then inl s1 else inr (s1, enomem)
        | inl s2 ↦ track_entered a id full s2
      ]

  -- One turn of the loop: `inl` goes on, `inr` returns.
  unfoldable pub track_once : ℕ → Bool → Bool → Host m → Host m ⊎ (Host m × Code)
  track_once a owner_full full s0 =
      let id = u32 (s0.next_command_id + 1) in
      let s = record s0 { next_command_id = id } in
      if id == 0 then inl s else track_id a id owner_full full s

  -- The loop with `attempts` turns to go. `owner_full` and `full` tell at which turn the two arrays
  -- find no memory.
  unfoldable pub track_loop : ℕ → ℕ → (ℕ → Bool) → (ℕ → Bool) → ℕ → Host m → Host m × Code
  track_loop zero turn owner_full full a s = (s, enospc)
  track_loop (suc attempts) turn owner_full full a s =
      elim (track_once a (owner_full turn) (full turn) s) [
        | inl s' ↦ track_loop attempts (turn + 1) owner_full full a s'
        | inr r ↦ r
      ]
