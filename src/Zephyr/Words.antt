-- ===== src/Zephyr/Words.antt =====
-- Runs of 32-bit registers: the loops with which the drivers copy a structure word by word, and
-- what they read and leave where the registers are memory.
use virtual_accelerator_mana.Base.{
  ℕ, zero, suc, ◌+◌, ◌*◌, ◌≤◌, ◌<◌, ◌≡◌, refl, ◌∙◌, List, [], ◌∷◌, length, get_or, arith,
}
use virtual_accelerator_mana.Zephyr.{Mmio, IsRam}

module _ (m : Mmio) (first : ℕ) where
  open m use {Device, read32, write32}

  unfoldable pub read_words : ℕ → ℕ → Device → Device × List ℕ
  read_words zero offset d = (d, [])
  read_words (suc left) offset d =
      let (word, d1) = read32 (first + offset) d in
      let (d2, rest) = read_words left (offset + 4) d1 in (d2, word ∷ rest)

  unfoldable pub write_words : List ℕ → ℕ → Device → Device
  write_words [] offset d = d
  write_words (word ∷ rest) offset d =
      write_words rest (offset + 4) (write32 word (first + offset) d)

-- The words read are below a bound that each read keeps.
pub read_words-lt :
    (m : Mmio) (first bound : ℕ)
    → 0 < bound
    → ((a : ℕ) (d : m.Device) → (m.read32 a d).0 < bound)
    → (n offset i : ℕ) (d : m.Device) → get_or (read_words m first n offset d).1 i 0 < bound
unfolding read_words
read_words-lt m first bound pos h zero offset i d = pos
read_words-lt m first bound pos h (suc n) offset zero d = h (first + offset) d
read_words-lt m first bound pos h (suc n) offset (suc i) d =
    read_words-lt m first bound pos h n (offset + 4) i _

module _ (m : Mmio) (first count : ℕ) (ram : IsRam m first count) where
  open m use {Device, read32, write32}

  -- The words from the `i`-th on are `ws`.
  pub Holds : ℕ → List ℕ → Device → Type 0
  Holds i [] d = Unit {0}
  Holds i (w ∷ ws) d = ((read32 (first + 4 * i) d).0 ≡ w) × Holds (i + 1) ws d

  pub read_words-Holds :
      (ws : List ℕ) (i : ℕ) (d : Device)
      → i + length ws ≤ count
      → Holds i ws d
      → read_words m first (length ws) (4 * i) d ≡ (d, ws)
  unfolding read_words Holds
  read_words-Holds [] i d fits h = refl
  read_words-Holds (w ∷ ws) i d fits h =
      let e : 4 * i + 4 ≡ 4 * (i + 1) = omega arith in
      let kept = ram.read_keeps i d (omega arith) in
      ground (arith, e, kept, h.0, read_words-Holds ws (i + 1) d (omega arith) h.1)

  -- A write leaves the words before it.
  write_words_before :
      (ws : List ℕ) (i j : ℕ) (d : Device)
      → j < i
      → i + length ws ≤ count
      → (read32 (first + 4 * j) (write_words m first ws (4 * i) d)).0 ≡ (read32 (first + 4 * j) d).0
  unfolding write_words
  write_words_before [] i j d lt fits = refl
  write_words_before (w ∷ ws) i j d lt fits =
      let e : 4 * i + 4 ≡ 4 * (i + 1) = omega arith in
      let d' = write32 w (first + 4 * i) d in
      ground (
        arith,
        e,
        write_words_before ws (i + 1) j d' (omega arith) (omega arith),
        ram.read_written i j w d,
      )

  pub write_words-Holds :
      (ws : List ℕ) (i : ℕ) (d : Device)
      → i + length ws ≤ count
      → Holds i ws (write_words m first ws (4 * i) d)
  unfolding write_words Holds
  write_words-Holds [] i d fits = tt
  write_words-Holds (w ∷ ws) i d fits =
      let e : 4 * i + 4 ≡ 4 * (i + 1) = omega arith in
      let d' = write32 w (first + 4 * i) d in
      rw e (
        write_words_before ws (i + 1) i d' (omega arith) (omega arith)
            ∙ ground (arith, ram.read_written i i w d),
        write_words-Holds ws (i + 1) d' (omega arith),
      )

  -- Words that read alike are held alike.
  pub Holds-same :
      (ws : List ℕ) (i : ℕ) (d d' : Device)
      → i + length ws ≤ count
      → ((j : ℕ) → j < count → (read32 (first + 4 * j) d').0 ≡ (read32 (first + 4 * j) d).0)
      → Holds i ws d
      → Holds i ws d'
  unfolding Holds
  Holds-same [] i d d' fits same h = tt
  Holds-same (w ∷ ws) i d d' fits same h =
      (same i (omega arith) ∙ h.0, Holds-same ws (i + 1) d d' (omega arith) same h.1)
