-- ===== src/Host/Removal.antt =====
-- The end of a bound driver (vams_remove), with files still open on its character device.
use virtual_accelerator_mana.Base.{
  ℕ, zero, suc, ◌+◌, ◌-◌, ◌≡◌, refl, sym, ap, subst, ◌∙◌, Bool, true, false, not, if◌then◌else◌,
  ◌==◌, Bool-cases, if_true, if_false, inl, inr, [], ◌∷◌, arith,
}
use virtual_accelerator_mana.Zephyr.{Mmio}
use virtual_accelerator_mana.Host.Uapi.{enodev}
use virtual_accelerator_mana.Host.State.{Xarray, Host, Request}
use virtual_accelerator_mana.Host.Requests.{cancel_requests}
use virtual_accelerator_mana.Host.Queues.{readl, writel, disable_queues}
use virtual_accelerator_mana.Host.Interrupts.{mask_interrupts}
use virtual_accelerator_mana.Host.Finish.{IsHost}
use virtual_accelerator_mana.Host.Cancel.{survivors, cancel_requests-IsCancelled}
use virtual_accelerator_mana.Host.Bound.{Held, Bound, free_queues, device_release, device_put}
use virtual_accelerator_mana.Host.Probe.{clear_interrupts, stop, detach, remove}
use virtual_accelerator_mana.Host.Labels.{nothing, whole}

no_survivors :
    (generation : ℕ) (at : ℕ → Request) (t : Xarray) → survivors false generation at t ≡ []
no_survivors generation at [] = refl
no_survivors generation at ((id, a) ∷ rest) = no_survivors generation at rest

-- What open files keep of a removed driver.
abbrev pub left_over : Held
left_over = record nothing { memory = true; pdev = true; instance_id = true; misc_name = true }

module _ (m : Mmio) where
  -- Flags and the bus have no part in the invariant.
  flags-IsHost :
      (bus : m.Device) (ready removing polls resets : Bool) (h : Host m)
      → IsHost m h
      → IsHost m (record h {
        bus = bus;
        queues_ready = ready;
        removing = removing;
        poll_scheduled = polls;
        reset_scheduled = resets;
      })
  flags-IsHost bus ready removing polls resets h k = record {
    table = k.table;
    counted = k.counted;
    tail = k.tail;
    head = k.head;
    sq_sized = k.sq_sized;
    cq_sized = k.cq_sized;
  }

  disable_queues-IsHost : (h : Host m) → IsHost m h → IsHost m (disable_queues m h)
  unfolding disable_queues readl writel
  disable_queues-IsHost h k = elim (Bool-cases (not h.queues_ready)) [
    | inl e ↦ subst (IsHost m) (sym (if_true _ _ _ e)) k
    | inr e ↦
        subst (IsHost m) (sym (if_false _ _ _ e))
          (flags-IsHost _ false h.removing h.poll_scheduled h.reset_scheduled h k)
  ]

  clear_interrupts-IsHost : (h : Host m) → IsHost m h → IsHost m (clear_interrupts m h)
  unfolding clear_interrupts mask_interrupts readl writel
  clear_interrupts-IsHost h k =
      flags-IsHost _ h.queues_ready h.removing h.poll_scheduled h.reset_scheduled h k

  abbrev closed : Host m → Host m
  closed h = record h { removing = true; poll_scheduled = false }

  -- The device when its requests are cancelled.
  abbrev pub quiet_host : Host m → Host m
  quiet_host h = record (disable_queues m (clear_interrupts m (closed h))) {
    reset_scheduled = false;
  }

  quiet-IsHost : (h : Host m) → IsHost m h → IsHost m (quiet_host h)
  quiet-IsHost h k =
      let c = closed h in
      let q = disable_queues m (clear_interrupts m c) in
      flags-IsHost q.bus q.queues_ready q.removing q.poll_scheduled false q (
        disable_queues-IsHost (clear_interrupts m c) (
          clear_interrupts-IsHost c
            (flags-IsHost h.bus h.queues_ready true false h.reset_scheduled h k)))

  free_queues-host : (s : Bound m) → (free_queues m s).host ≡ s.host
  unfolding free_queues
  free_queues-host s = cq_freed s.held.cq s.held.sq
    where
      cq_freed :
          (cq sq : Bool)
          → (free_queues m (record s { held = record s.held { cq = cq; sq = sq } })).host ≡ s.host
      cq_freed true true = refl
      cq_freed true false = refl
      cq_freed false true = refl
      cq_freed false false = refl

  device_release-host : (s : Bound m) → (device_release m s).host ≡ s.host
  unfolding device_release
  device_release-host s = elim (Bool-cases s.held.instance_id) [
    | inl e ↦ ap (λ (t : Bound m). t.host) (if_true _ _ _ e)
    | inr e ↦ ap (λ (t : Bound m). t.host) (if_false _ _ _ e)
  ]

  device_put-host : (s : Bound m) → (device_put m s).host ≡ s.host
  unfolding device_put
  device_put-host s = elim (Bool-cases (s.refs == 1)) [
    | inl e ↦
        ap (λ (t : Bound m). t.host) (if_true _ _ _ e)
        ∙ device_release-host (record s { refs = s.refs - 1 })
    | inr e ↦ ap (λ (t : Bound m). t.host) (if_false _ _ _ e)
  ]

  removed_host :
      (s : Bound m) → (remove m s).host ≡ cancel_requests m enodev false (quiet_host s.host)
  unfolding remove detach stop
  removed_host s = device_put-host (detach m s) ∙ free_queues-host (stop m s)

  -- `count` files are closed.
  abbrev pub put_files : ℕ → Bound m → Bound m
  put_files zero s = s
  put_files (suc count) s = put_files count (device_put m s)

  detached_held :
      (q : Bool) (h : Host m) (refs f : ℕ)
      → let t = detach m (record { host = h; held = whole q; refs = refs; faults = f }) in
        (t.held ≡ left_over) × (t.refs ≡ refs) × (t.faults ≡ f)
  unfolding detach stop free_queues
  detached_held true h refs f = (refl, refl, refl)
  detached_held false h refs f = (refl, refl, refl)

  abbrev IsLeft : ℕ → ℕ → Bound m → Type 0
  IsLeft refs f s = (s.held ≡ left_over) × (s.refs ≡ refs) × (s.faults ≡ f)

  -- What is given up with a reference.
  put_last :
      (s : Bound m) (f : ℕ)
      → IsLeft 1 f s
      → ((device_put m s).held ≡ nothing) × ((device_put m s).faults ≡ f)
  unfolding device_put device_release
  put_last s f (e, r, k) = rw (r, e) (refl, k)

  put_shared :
      (s : Bound m) (refs f : ℕ) → IsLeft (refs + 2) f s → IsLeft (refs + 1) f (device_put m s)
  unfolding device_put
  put_shared s refs f (e, r, k) =
      subst (IsLeft (refs + 1) f) (sym (if_false _ _ _ several)) (e, rw r (omega arith), k)
    where
      several : (s.refs == 1) ≡ false
      several = rw r (ground arith)

  put_files_after :
      (count : ℕ) (s : Bound m)
      → put_files count (device_put m s) ≡ device_put m (put_files count s)
  put_files_after zero s = refl
  put_files_after (suc count) s = put_files_after count (device_put m s)

  put_some :
      (count more f : ℕ) (s : Bound m)
      → IsLeft (more + count + 1) f s
      → IsLeft (more + 1) f (put_files count s)
  put_some zero more f s h = subst (λ n. IsLeft n f s) (omega arith) h
  put_some (suc count) more f s h =
      put_some count more f (device_put m s)
        (put_shared s (more + count) f (subst (λ n. IsLeft n f s) (omega arith) h))

  put_next :
      (more f : ℕ) (s : Bound m)
      → IsLeft (more + 1) f s
      → ((device_put m s).held ≡ (if more == 0 then nothing else left_over))
        × ((device_put m s).faults ≡ f)
  put_next zero f s h = put_last s f h
  put_next (suc more) f s h =
      let several : (suc more == 0) ≡ false = ground arith in
      let k = put_shared s more f (subst (λ n. IsLeft n f s) (omega arith) h) in
      (k.0 ∙ sym (if_false _ _ _ several), k.2)

  -- The removal of a bound driver, whose device meets its invariant, with `files` files open, and
  -- `count` of them closed after it: what was held is given up, once each, but for the memory and
  -- the names of the device, which go with the last file and not before it. No request is left.
  pub remove_lem :
      (s : Bound m) (q : Bool) (count more : ℕ)
      → s.held ≡ whole q
      → s.refs ≡ more + count + 1
      → IsHost m s.host
      → let t = put_files count (remove m s) in
        (t.held ≡ (if more == 0 then nothing else left_over))
        × (t.faults ≡ s.faults)
        × ((remove m s).host.requests ≡ [])
  unfolding remove
  remove_lem s q count more e r k =
      let d = detach m s in
      let left : IsLeft (more + count + 1) s.faults d = rw e (
        subst (λ n. IsLeft n s.faults (detach m (record s { held = whole q }))) r
          (detached_held q s.host s.refs s.faults)) in
      let after = put_some count more s.faults d left in
      let same : put_files count (device_put m d) ≡ device_put m (put_files count d) =
        put_files_after count d in
      let ended =
        cancel_requests-IsCancelled m enodev false (quiet_host s.host) (quiet-IsHost s.host k) in
      let none_left : (remove m s).host.requests ≡ [] =
        ap (λ (h : Host m). h.requests) (removed_host s)
        ∙ ended.requests
        ∙ no_survivors (quiet_host s.host).reset_generation (quiet_host s.host).request_at
            (quiet_host s.host).requests in
      let (held, faults) = put_next more s.faults (put_files count d) after in
      rw same (held, faults, none_left)
