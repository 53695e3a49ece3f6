-- ===== src/Host/Reaping.antt =====
-- The end of a wait for a request (vams_ioctl_wait).
use virtual_accelerator_mana.Base.{
  ℕ, ◌-◌, ◌<◌, ◌≡◌, refl, ap, ◌∙◌, true, ◌==◌, Bool-cases, if_true, if_false, [], ◌∷◌, ◌⊎◌, inl,
  inr, Option, none, some, arith,
}
use virtual_accelerator_mana.Zephyr.{Mmio}
use virtual_accelerator_mana.Host.Uapi.{Code, IocWait}
use virtual_accelerator_mana.Host.State.{
  Xarray, xa_erase, Host, with_file, mapping_put, file_put, request_get, request_put,
}
use virtual_accelerator_mana.Host.Tables.{NotIndex}
use virtual_accelerator_mana.Host.Wait.{Waited, completed, wait_request}

-- The indices of an array are distinct.
abbrev pub IsDistinct : Xarray → Type 0
IsDistinct [] = Unit {0}
IsDistinct ((i, a) ∷ rest) = NotIndex i rest × IsDistinct rest

pub erase-NotIndex : (t : Xarray) (id : ℕ) → IsDistinct t → NotIndex id (xa_erase t id)
unfolding xa_erase
erase-NotIndex [] id h = tt
erase-NotIndex ((i, a) ∷ rest) id h = elim (Bool-cases (i == id)) [
  | inl e ↦ let same : i ≡ id = ground (arith, e) in rw (e, ← same) h.0
  | inr e ↦ rw e (ground (arith, e), erase-NotIndex rest id h.1)
]

module _ (m : Mmio) where
  -- The array of requests of every file is as it was.
  abbrev SameFiles : Host m → Host m → Type 0
  SameFiles s s' = (f : ℕ) → (s'.file_at f).requests ≡ (s.file_at f).requests

  file_put-SameFiles : (owner : Option ℕ) (s : Host m) → SameFiles s (file_put m owner s)
  unfolding file_put
  file_put-SameFiles none s f = refl
  file_put-SameFiles (some g) s f = elim (Bool-cases (f == g)) [
    | inr e ↦ rw e refl
    | inl e ↦ let same : f ≡ g = ground (arith, e) in rw (e, same) refl
  ]

  mapping_put-SameFiles : (a : Option ℕ) (s : Host m) → SameFiles s (mapping_put m a s)
  unfolding mapping_put
  mapping_put-SameFiles none s f = refl
  mapping_put-SameFiles (some a) s f = refl

  pub request_put-SameFiles : (a : ℕ) (s : Host m) → SameFiles s (request_put m a s)
  unfolding request_put
  request_put-SameFiles a s f = elim (Bool-cases ((s.request_at a).refs == 1)) [
    | inr e ↦ ap (λ (t : Host m). (t.file_at f).requests) (if_false _ _ _ e)
    | inl e ↦
        ap (λ (t : Host m). (t.file_at f).requests) (if_true _ _ _ e)
        ∙ file_put-SameFiles (s.request_at a).owner _ f
        ∙ mapping_put-SameFiles (s.request_at a).destination _ f
        ∙ mapping_put-SameFiles (s.request_at a).source _ f
  ]

  -- The wait for the request `a` is over, with the device `t`: at once, where the process will not
  -- sleep and the request is done, or when the sleep ends with the request done.
  abbrev pub IsOver : (ℕ → Host m → Host m × Waited) → ℕ → IocWait → Host m → Host m → Type 0
  IsOver wait a o s t =
      (o.timeout_ms ≡ 0) × (t ≡ s) × ((s.request_at a).done ≡ true)
      ⊎ (0 < o.timeout_ms) × (wait a s ≡ (t, completed))

  -- The file without the request.
  reaped : ℕ → IocWait → Host m → Host m
  reaped f o s =
      with_file m f
        (λ file. record file {
          requests = xa_erase file.requests o.command_id;
          completed_requests = file.completed_requests - 1;
        })
        s

  found_answer :
      (wait : ℕ → Host m → Host m × Waited) (f a : ℕ) (o : IocWait) (s : Host m)
      → Host m × (Code ⊎ IocWait)
  found_answer wait f a o s =
      let (s1, answer) = wait_request m wait f a true o (request_get m a s) in
      (request_put m a s1, answer)
