-- ===== src/Overload.antt =====
-- firmware/include/vams_overload.h: the saturating counter and the admission test.
use virtual_accelerator_mana.Base.{
  ℕ, ◌+◌, ◌<◌, ◌^◌, ◌≡◌, Bool, ◌&&◌, if◌then◌else◌, ltb, ◌==◌, uint32_max, u32, min, arith,
}

unfoldable pub counter_increment : ℕ → ℕ
counter_increment value = if value == uint32_max then uint32_max else u32 (value + 1)

unfoldable pub command_admission_allowed : Bool → ℕ → Bool
command_admission_allowed portal_pending pool_free = portal_pending && ltb 0 pool_free

-- The counter of a 32-bit word goes up by one and stops at the largest word.
pub counter_increment_lem :
    (value : ℕ) → value < 2 ^ 32 → counter_increment value ≡ min (value + 1) uint32_max
unfolding counter_increment
counter_increment_lem value h = ground arith

pub counter_increment-lt : (value : ℕ) → counter_increment value < 2 ^ 32
unfolding counter_increment
counter_increment-lt value = ground arith
