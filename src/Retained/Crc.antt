-- ===== src/Retained/Crc.antt =====
-- The checksum of a byte list changes with each of its bytes.
use virtual_accelerator_mana.Base.{
  ℕ, zero, suc, ◌+◌, ◌/◌, ◌%◌, ◌^◌, ◌≤◌, ◌<◌, ◌≡◌, refl, sym, ◌∙◌, List, [], ◌∷◌, ◌++◌, ◌⊎◌, inl,
  inr, bit_xor, arith, if◌then◌else◌, ltb, leb, ◌&&◌, length,
}
use native.Mathlib.Nat.{add-zero}
use virtual_accelerator_mana.Base.Bits.{
  bit_and_one, bit_xor-zero, bit_xor_inj, bit_xor-lt, le-bit_xor, bit_xor_comm,
}
use virtual_accelerator_mana.Retained.{crc32_bit, crc32_bits, crc32_byte, crc32_from, crc_offset}

abbrev polynomial : ℕ
polynomial = 0xedb8_8320

-- The mask by itself and the two values that it takes.
crc32_bit_even : (c : ℕ) → c % 2 ≡ 0 → crc32_bit c ≡ c / 2
unfolding crc32_bit
crc32_bit_even c h = rw (bit_and_one c, h) (bit_xor-zero (c / 2))

crc32_bit_odd : (c : ℕ) → c % 2 ≡ 1 → crc32_bit c ≡ bit_xor (c / 2) polynomial
unfolding crc32_bit
crc32_bit_odd c h = rw (bit_and_one c, h) refl

parity : (c : ℕ) → (c % 2 ≡ 0) ⊎ (c % 2 ≡ 1)
parity c = omega arith

pub crc32_bit-lt : (c : ℕ) → c < 2 ^ 32 → crc32_bit c < 2 ^ 32
crc32_bit-lt c h = elim (parity c) [
  | inl e ↦ rw (crc32_bit_even c e) (omega arith)
  | inr o ↦ rw (crc32_bit_odd c o) (bit_xor-lt 32 (c / 2) polynomial (omega arith) (omega arith))
]

odd_is_high : (c : ℕ) → c < 2 ^ 32 → c % 2 ≡ 1 → 2 ^ 31 ≤ crc32_bit c
odd_is_high c h o =
    rw (crc32_bit_odd c o) (le-bit_xor 31 (c / 2) polynomial (omega arith) (omega arith))

even_is_low : (c : ℕ) → c < 2 ^ 32 → c % 2 ≡ 0 → crc32_bit c < 2 ^ 31
even_is_low c h e = rw (crc32_bit_even c e) (omega arith)

pub crc32_bit_inj : (c d : ℕ) → c < 2 ^ 32 → d < 2 ^ 32 → crc32_bit c ≡ crc32_bit d → c ≡ d
crc32_bit_inj c d p q h = ground (
  arith,
  parity c,
  parity d,
  odd_is_high c p,
  odd_is_high d q,
  even_is_low c p,
  even_is_low d q,
  crc32_bit_even c,
  crc32_bit_even d,
  crc32_bit_odd c,
  crc32_bit_odd d,
  bit_xor_inj (c / 2) (d / 2) polynomial,
)

pub crc32_bits-lt : (n c : ℕ) → c < 2 ^ 32 → crc32_bits n c < 2 ^ 32
unfolding crc32_bits
crc32_bits-lt zero c h = h
crc32_bits-lt (suc n) c h = crc32_bits-lt n (crc32_bit c) (crc32_bit-lt c h)

pub crc32_bits_inj : (n c d : ℕ) → c < 2 ^ 32 → d < 2 ^ 32 → crc32_bits n c ≡ crc32_bits n d → c ≡ d
unfolding crc32_bits
crc32_bits_inj zero c d p q h = h
crc32_bits_inj (suc n) c d p q h =
    crc32_bit_inj c d p q
      (crc32_bits_inj n (crc32_bit c) (crc32_bit d) (crc32_bit-lt c p) (crc32_bit-lt d q) h)

pub crc32_byte-lt : (c b : ℕ) → c < 2 ^ 32 → b < 256 → crc32_byte c b < 2 ^ 32
unfolding crc32_byte
crc32_byte-lt c b p q = crc32_bits-lt 8 _ (bit_xor-lt 32 c b p (omega arith))

-- Equal checksums after the same byte come from equal checksums before it,
crc32_byte_inj :
    (c d b : ℕ) → c < 2 ^ 32 → d < 2 ^ 32 → b < 256 → crc32_byte c b ≡ crc32_byte d b → c ≡ d
unfolding crc32_byte
crc32_byte_inj c d b p q r h =
    bit_xor_inj c d b (
      crc32_bits_inj 8 _ _ (bit_xor-lt 32 c b p (omega arith)) (bit_xor-lt 32 d b q (omega arith))
        h)

-- and equal checksums after two bytes from the same start come from equal bytes.
crc32_byte_value_inj :
    (c a b : ℕ) → c < 2 ^ 32 → a < 256 → b < 256 → crc32_byte c a ≡ crc32_byte c b → a ≡ b
unfolding crc32_byte
crc32_byte_value_inj c a b p q r h = bit_xor_inj a b c (
    rw (bit_xor_comm a c, bit_xor_comm b c)
      (crc32_bits_inj 8 _ _ (bit_xor-lt 32 c a p (omega arith)) (bit_xor-lt 32 c b p (omega arith))
        h))

abbrev pub AllBytes : List ℕ → Type 0
AllBytes [] = Unit {0}
AllBytes (b ∷ bs) = (b < 256) × AllBytes bs

-- The byte that the loop feeds at an index.
abbrev fed : ℕ → ℕ → ℕ
fed index b = if leb crc_offset index && ltb index (crc_offset + 4) then 0 else b

fed_inj :
    (index a b : ℕ)
    → (index < crc_offset) ⊎ (crc_offset + 4 ≤ index)
    → fed index a ≡ fed index b
    → a ≡ b
fed_inj index a b out h = ground arith

fed-lt : (index b : ℕ) → b < 256 → fed index b < 256
fed-lt index b h = ground arith

pub crc32_from-lt :
    (index c : ℕ) (bs : List ℕ) → c < 2 ^ 32 → AllBytes bs → crc32_from index c bs < 2 ^ 32
unfolding crc32_from
crc32_from-lt index c [] p h = p
crc32_from-lt index c (b ∷ bs) p h =
    crc32_from-lt (index + 1) _ bs (crc32_byte-lt c _ p (fed-lt index b h.0)) h.1

pub crc32_from-append :
    (index c : ℕ) (xs ys : List ℕ)
    → crc32_from index c (xs ++ ys) ≡ crc32_from (index + length xs) (crc32_from index c xs) ys
unfolding crc32_from
crc32_from-append index c [] ys = rw add-zero refl
crc32_from-append index c (x ∷ xs) ys =
    let e : index + 1 + length xs ≡ index + suc (length xs) = omega arith in
    rw (← e) (crc32_from-append (index + 1) _ xs ys)

crc32_from_inj :
    (index c d : ℕ) (bs : List ℕ)
    → c < 2 ^ 32
    → d < 2 ^ 32
    → AllBytes bs
    → crc32_from index c bs ≡ crc32_from index d bs
    → c ≡ d
unfolding crc32_from
crc32_from_inj index c d [] p q h e = e
crc32_from_inj index c d (b ∷ bs) p q h e =
    let small = fed-lt index b h.0 in
    crc32_byte_inj c d (fed index b) p q small (
      crc32_from_inj (index + 1) _ _ bs (crc32_byte-lt c _ p small) (crc32_byte-lt d _ q small) h.1
        e)

abbrev IsOutside : ℕ → Type 0
IsOutside index = (index < crc_offset) ⊎ (crc_offset + 4 ≤ index)

detects_next :
    (index c a b : ℕ) (after : List ℕ)
    → c < 2 ^ 32
    → a < 256
    → b < 256
    → AllBytes after
    → IsOutside index
    → crc32_from index c (a ∷ after) ≡ crc32_from index c (b ∷ after)
    → a ≡ b
unfolding crc32_from
detects_next index c a b after p ha' hb' hc out e =
    let sa = fed-lt index a ha' in
    let sb = fed-lt index b hb' in
    let same = crc32_byte_value_inj c (fed index a) (fed index b) p sa sb (
      crc32_from_inj (index + 1) _ _ after (crc32_byte-lt c _ p sa) (crc32_byte-lt c _ p sb) hc
        e) in
    fed_inj index a b out same

-- Two byte lists that differ in one place, outside the checksum's own bytes, have different
-- checksums.
pub crc32_from_detects :
    (c : ℕ) (before : List ℕ) (a b : ℕ) (after : List ℕ)
    → c < 2 ^ 32
    → AllBytes before
    → a < 256
    → b < 256
    → AllBytes after
    → (length before < crc_offset) ⊎ (crc_offset + 4 ≤ length before)
    → crc32_from 0 c (before ++ a ∷ after) ≡ crc32_from 0 c (before ++ b ∷ after)
    → a ≡ b
crc32_from_detects c before a b after p hb ha' hb' hc out e =
    let start = crc32_from 0 c before in
    let small = crc32_from-lt 0 c before p hb in
    detects_next (0 + length before) start a b after small ha' hb' hc (omega arith) (
      sym (crc32_from-append 0 c before (a ∷ after)) ∙ e ∙ crc32_from-append 0 c before (b ∷ after))
