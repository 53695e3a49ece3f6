-- ===== src/Command/Ranges.antt =====
-- `vams_range_overflows` and `vams_ranges_overlap`: what the wrapping tests decide.
use virtual_accelerator_mana.Base.{ℕ, ◌^◌, ◌<◌, ◌≡◌, ◌↔◌, false, arith}
use virtual_accelerator_mana.Command.{range_overflows, ranges_overlap}
use virtual_accelerator_mana.Command.Spec.{Fits, Disjoint}

-- For a nonempty range of 32-bit length the test fails exactly where the range fits the 64-bit
-- address space.
pub range_overflows_iff :
    (address size : ℕ)
    → address < 2 ^ 64
    → 0 < size
    → size < 2 ^ 32
    → (range_overflows address size ≡ false) ↔ Fits address size
unfolding range_overflows
range_overflows_iff address size p q r = ground arith

-- Two nonempty ranges that fit the address space overlap exactly where they are not disjoint.
pub ranges_overlap_iff :
    (first second size : ℕ)
    → 0 < size
    → Fits first size
    → Fits second size
    → (ranges_overlap first second size ≡ false) ↔ Disjoint first second size
unfolding ranges_overlap
ranges_overlap_iff first second size p q r = ground arith
