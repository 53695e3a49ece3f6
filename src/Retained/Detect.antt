-- ===== src/Retained/Detect.antt =====
-- A record that was damaged in one byte is not taken for a valid one.
use virtual_accelerator_mana.Base.{
  ℕ, ◌+◌, ◌-◌, ◌/◌, ◌%◌, ◌^◌, ◌≤◌, ◌<◌, ◌≡◌, ◌≢◌, ◌⊎◌, inl, inr, refl, zero, suc, ap, sym, subst,
  ◌∙◌, get_or, true, false, List, [], ◌∷◌, ◌++◌, length, uint32_max, arith, Bool-cases,
}
use virtual_accelerator_mana.Retained.{
  RetainedRecord, bytes, retained_crc32, retained_validate, crc32_from, crc_offset,
}
use virtual_accelerator_mana.Retained.Crc.{
  AllBytes, crc32_from_detects, crc32_from-lt, crc32_from-append,
}
use virtual_accelerator_mana.Retained.Layout.{bytes-AllBytes, IsRecord}

-- Two records whose bytes differ in one place only, and do differ there.
pub record OneByteApart (r s : RetainedRecord) : Type 0 where
  pub before : List ℕ
  pub after : List ℕ
  pub old : ℕ
  pub new : ℕ
  pub first_bytes : bytes r ≡ before ++ old ∷ after
  pub second_bytes : bytes s ≡ before ++ new ∷ after
  pub changed : old ≢ new

get_or_middle : (xs : List ℕ) (a : ℕ) (ys : List ℕ) → get_or (xs ++ a ∷ ys) (length xs) 0 ≡ a
get_or_middle [] a ys = refl
get_or_middle (x ∷ xs) a ys = get_or_middle xs a ys

get_or_elsewhere :
    (xs : List ℕ) (a b : ℕ) (ys : List ℕ) (j : ℕ)
    → j ≢ length xs
    → get_or (xs ++ a ∷ ys) j 0 ≡ get_or (xs ++ b ∷ ys) j 0
get_or_elsewhere [] a b ys zero h = absurd (h refl)
get_or_elsewhere [] a b ys (suc j) h = refl
get_or_elsewhere (x ∷ xs) a b ys zero h = refl
get_or_elsewhere (x ∷ xs) a b ys (suc j) h = get_or_elsewhere xs a b ys j (λ e. h (ap suc e))

AllBytes-middle :
    (xs : List ℕ) (a : ℕ) (ys : List ℕ)
    → AllBytes (xs ++ a ∷ ys)
    → AllBytes xs × (a < 256) × AllBytes ys
AllBytes-middle [] a ys h = (tt, h.0, h.1)
AllBytes-middle (x ∷ xs) a ys h = let r = AllBytes-middle xs a ys h.1 in ((h.0, r.0), r.1, r.2)

-- The four bytes of the checksum stand at its offset.
crc_bytes :
    (r : RetainedRecord)
    → (get_or (bytes r) 8 0 ≡ r.crc32 % 256)
      × (get_or (bytes r) 9 0 ≡ r.crc32 / 2 ^ 8 % 256)
      × (get_or (bytes r) 10 0 ≡ r.crc32 / 2 ^ 16 % 256)
      × (get_or (bytes r) 11 0 ≡ r.crc32 / 2 ^ 24 % 256)
unfolding bytes
crc_bytes r = (refl, refl, refl, refl)

validate_crc : (r : RetainedRecord) → retained_validate r ≡ true → r.crc32 ≡ retained_crc32 r
unfolding retained_validate
validate_crc r h = ground arith

skip_byte :
    (index c a b : ℕ) (ys : List ℕ)
    → crc_offset ≤ index
    → index < crc_offset + 4
    → crc32_from index c (a ∷ ys) ≡ crc32_from index c (b ∷ ys)
unfolding crc32_from
skip_byte index c a b ys lo hi = ground arith

crc32_from_skips :
    (c : ℕ) (xs : List ℕ) (a b : ℕ) (ys : List ℕ)
    → crc_offset ≤ length xs
    → length xs < crc_offset + 4
    → crc32_from 0 c (xs ++ a ∷ ys) ≡ crc32_from 0 c (xs ++ b ∷ ys)
crc32_from_skips c xs a b ys lo hi =
    crc32_from-append 0 c xs (a ∷ ys)
    ∙ skip_byte (0 + length xs) (crc32_from 0 c xs) a b ys (omega arith) (omega arith)
    ∙ sym (crc32_from-append 0 c xs (b ∷ ys))

-- Equal checksum words have equal bytes, at each of the four places.
crc_byte_at :
    (r s : RetainedRecord) (k : ℕ)
    → r.crc32 ≡ s.crc32
    → crc_offset ≤ k
    → k < crc_offset + 4
    → get_or (bytes r) k 0 ≡ get_or (bytes s) k 0
crc_byte_at r s k e lo hi = ground (arith, crc_bytes r, crc_bytes s, four_places k lo hi)
  where
    four_places :
        (k : ℕ) → crc_offset ≤ k → k < crc_offset + 4 → (k ≡ 8) ⊎ (k ≡ 9) ⊎ (k ≡ 10) ⊎ (k ≡ 11)
    four_places k lo hi = omega arith

crc_of_bytes :
    (r s : RetainedRecord)
    → r.crc32 < 2 ^ 32
    → s.crc32 < 2 ^ 32
    → get_or (bytes r) 8 0 ≡ get_or (bytes s) 8 0
    → get_or (bytes r) 9 0 ≡ get_or (bytes s) 9 0
    → get_or (bytes r) 10 0 ≡ get_or (bytes s) 10 0
    → get_or (bytes r) 11 0 ≡ get_or (bytes s) 11 0
    → r.crc32 ≡ s.crc32
crc_of_bytes r s p q a b c d = omega (arith, crc_bytes r, crc_bytes s)

places :
    (k : ℕ) → ((k < crc_offset) ⊎ (crc_offset + 4 ≤ k)) ⊎ ((crc_offset ≤ k) × (k < crc_offset + 4))
places k = ground arith

module _ (r s : RetainedRecord) (w : IsRecord r) (w' : IsRecord s) (d : OneByteApart r s) where
  in_crc :
      crc_offset ≤ length d.before
      → length d.before < crc_offset + 4
      → retained_validate r ≡ true
      → retained_validate s ≡ true
      → ⊥
  unfolding retained_crc32
  in_crc lo hi p q =
      let crc = crc32_from 0 uint32_max in
      let same =
        ap crc d.first_bytes
        ∙ crc32_from_skips uint32_max d.before d.old d.new d.after lo hi
        ∙ sym (ap crc d.second_bytes) in
      let stored : r.crc32 ≡ s.crc32 =
        validate_crc r p ∙ ap (λ x. uint32_max - x) same ∙ sym (validate_crc s q) in
      d.changed (
        ground (
          arith,
          crc_byte_at r s (length d.before) stored lo hi,
          d.first_bytes,
          d.second_bytes,
          get_or_middle d.before d.old d.after,
          get_or_middle d.before d.new d.after,
        ))

  same_at : (j : ℕ) → j ≢ length d.before → get_or (bytes r) j 0 ≡ get_or (bytes s) j 0
  same_at j h =
      rw (d.first_bytes, d.second_bytes) (get_or_elsewhere d.before d.old d.new d.after j h)

  outside_crc :
      (length d.before < crc_offset) ⊎ (crc_offset + 4 ≤ length d.before)
      → retained_validate r ≡ true
      → retained_validate s ≡ true
      → ⊥
  unfolding retained_crc32
  outside_crc out p q =
      let hr =
        AllBytes-middle d.before d.old d.after (subst AllBytes d.first_bytes (bytes-AllBytes r)) in
      let hs =
        AllBytes-middle d.before d.new d.after (subst AllBytes d.second_bytes (bytes-AllBytes s)) in
      let stored =
        crc_of_bytes r s w.crc_fits w'.crc_fits (same_at 8 (λ e. omega arith))
          (same_at 9 (λ e. omega arith)) (same_at 10 (λ e. omega arith))
          (same_at 11 (λ e. omega arith)) in
      let crc = crc32_from 0 uint32_max in
      let equal : crc (bytes r) ≡ crc (bytes s) = omega (
        arith,
        stored,
        validate_crc r p,
        validate_crc s q,
        crc32_from-lt 0 uint32_max (bytes r) (omega arith) (bytes-AllBytes r),
        crc32_from-lt 0 uint32_max (bytes s) (omega arith) (bytes-AllBytes s),
      ) in
      d.changed (
        crc32_from_detects uint32_max d.before d.old d.new d.after (omega arith) hr.0 hr.1 hs.1 hr.2
          out (sym (ap crc d.first_bytes) ∙ equal ∙ ap crc d.second_bytes))

  -- A valid record that is damaged in any one byte, its checksum's bytes included, is refused.
  pub one_byte_detected : retained_validate r ≡ true → retained_validate s ≡ false
  one_byte_detected p = elim (Bool-cases (retained_validate s)) [
    | inr refused ↦ refused
    | inl q ↦ absurd (elim (places (length d.before)) [
      | inl out ↦ outside_crc out p q
      | inr (lo, hi) ↦ in_crc lo hi p q
    ])
  ]
