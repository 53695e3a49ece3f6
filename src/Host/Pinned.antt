-- ===== src/Host/Pinned.antt =====
-- A registration of a buffer holds all that a mapping needs, or nothing.
use virtual_accelerator_mana.Base.{
  ℕ, ◌+◌, ◌-◌, ◌*◌, ◌/◌, ◌^◌, ◌≤◌, ◌<◌, ◌≡◌, ◌≢◌, refl, sym, ap, subst, ◌∙◌, not, ◌||◌, ltb, leb,
  ◌==◌, ◌!=◌, Bool-cases, if_true, if_false, ◌∷◌, ◌⊎◌, inl, inr, some, arith,
}
use virtual_accelerator_mana.Zephyr.{Mmio}
use virtual_accelerator_mana.Host.Uapi.{Code, ok, IocBufferRegister}
use virtual_accelerator_mana.Host.State.{Host, File}
use virtual_accelerator_mana.Host.Frames.{update_self}
use virtual_accelerator_mana.Host.Buffers.{
  PinAnswers, Ledger, then_or, map_sg, map_pages, pin_exact, pin_pages, pin_buffer, page_count,
  mapping_release, new_mapping, register_header_ok, publish_mapping, register_pinned,
  register_checked, ioctl_buffer_register,
}

-- Two ledgers that hold the same.
abbrev pub IsSame : Ledger → Ledger → Type 0
IsSame l l' =
    (l'.objects ≡ l.objects)
    × (l'.page_arrays ≡ l.page_arrays)
    × (l'.pinned ≡ l.pinned)
    × (l'.tables ≡ l.tables)
    × (l'.maps ≡ l.maps)

-- `l'` holds what a mapping of `npages` pages needs besides.
abbrev pub IsMore : ℕ → Ledger → Ledger → Type 0
IsMore npages l l' =
    (l'.objects ≡ l.objects + 1)
    × (l'.page_arrays ≡ l.page_arrays + 1)
    × (l'.pinned ≡ l.pinned + npages)
    × (l'.tables ≡ l.tables + 1)
    × (l'.maps ≡ l.maps + 1)

abbrev Pinned : PinAnswers → ℕ → ℕ → Ledger → Ledger × Code → Type 0
Pinned o npages length l (l', code) =
    ((code ≡ ok) × IsMore npages l l' × (length ≤ o.dma_length)) ⊎ ((code ≢ ok) × IsSame l l')

then_or-Pinned :
    (o : PinAnswers) (npages length : ℕ) (l : Ledger) (code : Code) (next : Ledger × Code)
    (cleared : Ledger)
    → Pinned o npages length l next
    → IsSame l cleared
    → Pinned o npages length l (then_or code next cleared)
then_or-Pinned o npages length l ok next cleared h k = h
then_or-Pinned o npages length l failed next cleared h k = inr (cc, k)

-- A mapping's three parts before the scatter table.
abbrev with_pages : ℕ → Ledger → Ledger
with_pages npages l = record l {
  objects = l.objects + 1;
  page_arrays = l.page_arrays + 1;
  pinned = l.pinned + npages;
}

map_sg-Pinned :
    (o : PinAnswers) (npages length : ℕ) (l : Ledger)
    → Pinned o npages length l
        (map_sg o npages length (record (with_pages npages l) { tables = l.tables + 1 }))
unfolding map_sg
map_sg-Pinned o npages length l =
    let goal = Pinned o npages length l in
    elim (Bool-cases (o.mapped == 0)) [
      | inl e ↦ subst goal (sym (if_true _ _ _ e)) (inr (cc, omega arith))
      | inr e ↦ elim (Bool-cases (o.mapped != 1)) [
        | inl f ↦ subst goal (sym (if_false _ _ _ e ∙ if_true _ _ _ f)) (inr (cc, omega arith))
        | inr f ↦ elim (Bool-cases (ltb o.dma_length length)) [
          | inl g ↦
              subst goal (sym (if_false _ _ _ e ∙ if_false _ _ _ f ∙ if_true _ _ _ g))
                (inr (cc, omega arith))
          | inr g ↦
              subst goal (sym (if_false _ _ _ e ∙ if_false _ _ _ f ∙ if_false _ _ _ g))
                (inl (refl, (refl, refl, refl, refl, refl), ground (arith, g)))
        ]
      ]
    ]

abbrev with_arrays : Ledger → Ledger
with_arrays l = record l { objects = l.objects + 1; page_arrays = l.page_arrays + 1 }

pin_exact-Pinned :
    (count : ℕ) (o : PinAnswers) (npages length : ℕ) (l : Ledger)
    → Pinned o npages length l (pin_exact count o npages length (with_arrays l))
unfolding pin_exact map_pages
pin_exact-Pinned count o npages length l =
    let goal = Pinned o npages length l in
    elim (Bool-cases (count != npages)) [
      | inl e ↦ subst goal (sym (if_true _ _ _ e)) (inr (cc, omega arith))
      | inr e ↦
          let same : count ≡ npages = ground (arith, e) in
          subst goal (sym (if_false _ _ _ e)) (
            subst (λ n. Pinned o npages length l (map_pages o npages length (with_pages n l)))
              (sym same)
              (then_or-Pinned o npages length l o.table _ _ (map_sg-Pinned o npages length l)
                (omega arith)))
    ]

pin_buffer-Pinned :
    (o : PinAnswers) (npages length : ℕ) (l : Ledger)
    → Pinned o npages length l (pin_buffer o npages length l)
unfolding pin_buffer pin_pages
pin_buffer-Pinned o npages length l =
    let goal = Pinned o npages length l in
    elim (Bool-cases (not o.memory)) [
      | inl e ↦ subst goal (sym (if_true _ _ _ e)) (inr (cc, omega arith))
      | inr e ↦ elim (Bool-cases (not o.page_array)) [
        | inl f ↦ subst goal (sym (if_false _ _ _ e ∙ if_true _ _ _ f)) (inr (cc, omega arith))
        | inr f ↦ subst goal (sym (if_false _ _ _ e ∙ if_false _ _ _ f)) (
            then_or-Pinned o npages length l o.pinned _ _
              (pin_exact-Pinned o.pinned_count o npages length l) (omega arith))
      ]
    ]

-- The pages of a buffer are those that its bytes stand in.
page_count_lem :
    (first length : ℕ)
    → 0 < length
    → ((first + length ≤ (first / 4096 + page_count first length) * 4096)
        × ((first / 4096 + page_count first length - 1) * 4096 < first + length)
        × (page_count first length ≤ length / 4096 + 2))
unfolding page_count
page_count_lem first length pos = (omega arith, omega arith, omega arith)

module _ (m : Mmio) where
  -- A registration that succeeds adds a mapping of the buffer, which one DMA range covers, under
  -- the new handle, and holds for it what a mapping needs; one that fails changes nothing.
  abbrev pub Registered :
      PinAnswers → ℕ → IocBufferRegister → Host m × Ledger → (Host m × Ledger) × Code → Type 0
  Registered o f i (s, l) ((s', l'), code) =
      ((code ≡ ok)
        × IsMore (page_count i.user_address i.length) l l'
        × (i.length ≤ o.dma_length)
        × (s'.mapping_at o.address ≡ new_mapping m o i)
        × ((s'.file_at f).mappings ≡ (o.handle, o.address) ∷ (s.file_at f).mappings))
      ⊎ ((code ≢ ok) × IsSame l l' × (s' ≡ s))

  publish-Registered :
      (status : Code) (o : PinAnswers) (f : ℕ) (i : IocBufferRegister) (s : Host m) (l l1 : Ledger)
      → IsMore (page_count i.user_address i.length) l l1
      → i.length ≤ o.dma_length
      → Registered o f i (s, l) (publish_mapping m status o f i (s, l1))
  unfolding publish_mapping mapping_release
  publish-Registered ok o f i s l l1 more covered = elim (Bool-cases o.copied_out) [
    | inl e ↦ subst (Registered o f i (s, l)) (sym (if_true _ _ _ e)) (
        inl (
          refl,
          more,
          covered,
          update_self s.mapping_at o.address _,
          ap (λ (file : File). file.mappings) (update_self s.file_at f _),
        ))
    | inr e ↦ subst (Registered o f i (s, l)) (sym (if_false _ _ _ e)) (inr (cc, omega arith, refl))
  ]
  publish-Registered failed o f i s l l1 more covered = inr (cc, omega arith, refl)

  Pinned-Registered :
      (o : PinAnswers) (f : ℕ) (i : IocBufferRegister) (s : Host m) (l : Ledger) (r : Ledger × Code)
      → Pinned o (page_count i.user_address i.length) i.length l r
      → Registered o f i (s, l) (register_pinned m o f i s r)
  unfolding register_pinned
  Pinned-Registered o f i s l (l1, code) (inl (e, more, covered)) =
      rw e (publish-Registered o.handle_status o f i s l l1 more covered)
  Pinned-Registered o f i s l (l1, ok) (inr (n, same)) = absurd (n refl)
  Pinned-Registered o f i s l (l1, failed) (inr (n, same)) = inr (n, same, refl)

  -- A registration, whatever the kernel answers, either succeeds, and then the mapping of the
  -- buffer stands under the new handle, one DMA range covers it and the pages, tables and memory
  -- that it needs are held once more, or it fails and neither the device nor what is held changes.
  pub ioctl_buffer_register-Registered :
      (o : PinAnswers) (f : ℕ) (i : IocBufferRegister) (s : Host m) (l : Ledger)
      → Registered o f i (s, l) (ioctl_buffer_register m o f (some i) (s, l))
  unfolding ioctl_buffer_register register_checked
  ioctl_buffer_register-Registered o f i s l =
      let goal = Registered o f i (s, l) in
      elim (Bool-cases (not (register_header_ok i))) [
        | inl e ↦ subst goal (sym (if_true _ _ _ e)) (inr (cc, omega arith, refl))
        | inr e ↦ elim (Bool-cases (leb (2 ^ 64) (i.user_address + i.length) || not o.accessible)) [
          | inl g ↦
              subst goal (sym (if_false _ _ _ e ∙ if_true _ _ _ g)) (inr (cc, omega arith, refl))
          | inr g ↦ elim (Bool-cases ((s.file_at f).closing || s.removing)) [
            | inl k ↦
                subst goal (sym (if_false _ _ _ e ∙ if_false _ _ _ g ∙ if_true _ _ _ k))
                  (inr (cc, omega arith, refl))
            | inr k ↦ subst goal (sym (if_false _ _ _ e ∙ if_false _ _ _ g ∙ if_false _ _ _ k)) (
                Pinned-Registered o f i s l _
                  (pin_buffer-Pinned o (page_count i.user_address i.length) i.length l))
          ]
        ]
      ]
