-- ===== src/Base/Bits.antt =====
-- Laws of `&`, `|` and `^` on words of any width, from the recursion on binary digits that the
-- native operations stand for.
use Prim.Native.Nat.{
  ℕ, zero, suc, ◌+◌, ◌*◌, ◌/◌, ◌%◌, ◌^◌, ◌≤◌, ◌<◌, min, max, digits, bitwise, bit_and, bit_or,
  bit_xor, differ, bit_and-bitwise, bit_or-bitwise, bit_xor-bitwise,
}
use mathlib.Core.Path.{◌≡◌, refl}
use native.Mathlib.Nat.{pow-suc}
use mathlib.Core.Logic.{◌↔◌}
use mathlib.Core.Bool.{Bool, true, not, ◌&&◌}
use virtual_accelerator_mana.Base.Tests.{◌==◌, ltb, if◌then◌else◌}
use native.Mathlib.Omega.{arith}

-- Enough fuel is enough.
module _ (z : ℕ → ℕ) (f : ℕ → ℕ → ℕ) where
  digits_at_zero : (b fuel : ℕ) → digits z f fuel zero b ≡ z b
  digits_at_zero b zero = refl
  digits_at_zero b (suc fuel) = refl

  digits_enough :
      (fuel spare a b : ℕ)
      → max a fuel ≡ fuel
      → max a spare ≡ spare
      → digits z f spare a b ≡ digits z f fuel a b
  digits_enough fuel spare zero b h k = omega (arith, digits_at_zero b fuel, digits_at_zero b spare)
  digits_enough (suc fuel) (suc spare) (suc a) b h k =
      omega (arith, digits_enough fuel spare (suc a / 2) (b / 2) (omega arith) (omega arith))
  digits_enough zero spare (suc a) b h k = absurd (omega arith)
  digits_enough (suc fuel) zero (suc a) b h k = absurd (omega arith)

  bitwise_low :
      (a b : ℕ)
      → bitwise z f (suc a) b ≡ bitwise z f (suc a / 2) (b / 2) * 2 + f (suc a % 2) (b % 2)
  bitwise_low a b =
      omega (arith, digits_enough (suc a / 2) a (suc a / 2) (b / 2) (omega arith) (omega arith))

pub bit_and_low : (a b : ℕ) → bit_and a b ≡ bit_and (a / 2) (b / 2) * 2 + min (a % 2) (b % 2)
bit_and_low zero b = omega (arith, bit_and-bitwise 0 b, bit_and-bitwise 0 (b / 2))
bit_and_low (suc a) b = simp bit_and-bitwise (bitwise_low (λ y. 0) min a b)

pub bit_or_low : (a b : ℕ) → bit_or a b ≡ bit_or (a / 2) (b / 2) * 2 + max (a % 2) (b % 2)
bit_or_low zero b = simp bit_or-bitwise (omega arith)
bit_or_low (suc a) b = simp bit_or-bitwise (bitwise_low (λ y. y) max a b)

differ_digits : (a b : ℕ) → a < 2 → b < 2 → differ a b ≡ (a + b) % 2
differ_digits zero zero p q = refl
differ_digits zero (suc zero) p q = refl
differ_digits (suc zero) zero p q = refl
differ_digits (suc zero) (suc zero) p q = refl
differ_digits zero (suc (suc b)) p q = absurd (omega arith)
differ_digits (suc zero) (suc (suc b)) p q = absurd (omega arith)
differ_digits (suc (suc a)) b p q = absurd (omega arith)

-- The lowest digit of an exclusive or is the sum of the lowest digits without its carry.
pub bit_xor_low : (a b : ℕ) → bit_xor a b ≡ bit_xor (a / 2) (b / 2) * 2 + (a + b) % 2
bit_xor_low zero b = simp bit_xor-bitwise (omega arith)
bit_xor_low (suc a) b = omega (
  arith,
  bit_xor-bitwise (suc a) b,
  bit_xor-bitwise (suc a / 2) (b / 2),
  bitwise_low (λ y. y) differ a b,
  differ_digits (suc a % 2) (b % 2) (omega arith) (omega arith),
)

-- Induction from the half of a number.
by_halves {ℓ} :
    (P : ℕ → Type ℓ) → P 0 → ((a : ℕ) → 0 < a → P (a / 2) → P a) → (n a : ℕ) → a ≤ n → P a
by_halves P base step n zero h = base
by_halves P base step zero (suc a) h = absurd (omega arith)
by_halves P base step (suc n) (suc a) h =
    step (suc a) (omega arith) (by_halves P base step n (suc a / 2) (omega arith))

zero-bit_xor : (b : ℕ) → bit_xor 0 b ≡ b
zero-bit_xor b = bit_xor-bitwise 0 b

pub bit_xor-zero : (a : ℕ) → bit_xor a 0 ≡ a
bit_xor-zero a =
    by_halves (λ n. bit_xor n 0 ≡ n) (zero-bit_xor 0) (λ n p ih. omega (arith, bit_xor_low n 0, ih))
      a a (omega arith)

bit_and-zero : (a : ℕ) → bit_and a 0 ≡ 0
bit_and-zero a =
    by_halves (λ n. bit_and n 0 ≡ 0) (bit_and-bitwise 0 0)
      (λ n p ih. omega (arith, bit_and_low n 0, ih)) a a (omega arith)

bit_xor_self : (a : ℕ) → bit_xor a a ≡ 0
bit_xor_self a =
    by_halves (λ n. bit_xor n n ≡ 0) (zero-bit_xor 0) (λ n p ih. omega (arith, bit_xor_low n n, ih))
      a a (omega arith)

-- An exclusive or is undone by another one.
pub bit_xor_cancel : (a b : ℕ) → bit_xor (bit_xor a b) b ≡ a
bit_xor_cancel a =
    by_halves (λ n. (b : ℕ) → bit_xor (bit_xor n b) b ≡ n)
      (λ b. rw (zero-bit_xor b) (bit_xor_self b))
      (λ n p ih b. ground (arith, bit_xor_low (bit_xor n b) b, bit_xor_low n b, ih (b / 2))) a a
      (omega arith)

pub bit_xor_comm : (a b : ℕ) → bit_xor a b ≡ bit_xor b a
bit_xor_comm a =
    by_halves (λ n. (b : ℕ) → bit_xor n b ≡ bit_xor b n)
      (λ b. rw (zero-bit_xor b, bit_xor-zero b) refl)
      (λ n p ih b. omega (arith, bit_xor_low n b, bit_xor_low b n, ih (b / 2))) a a (omega arith)

-- The top digit of one word stays where the other word does not reach it.
pub le-bit_xor : (k a b : ℕ) → a < 2 ^ k → 2 ^ k ≤ b → 2 ^ k ≤ bit_xor a b
le-bit_xor zero zero b p q = ground (arith, zero-bit_xor b)
le-bit_xor zero (suc a) b p q = absurd (omega arith)
le-bit_xor (suc k) a b p q = omega (
  arith,
  pow-suc 2 k,
  bit_xor_low a b,
  le-bit_xor k (a / 2) (b / 2) (omega (arith, pow-suc 2 k)) (omega (arith, pow-suc 2 k)),
)

pub bit_xor-lt : (k a b : ℕ) → a < 2 ^ k → b < 2 ^ k → bit_xor a b < 2 ^ k
bit_xor-lt zero a b p q = ground (arith, zero-bit_xor 0)
bit_xor-lt (suc k) a b p q = omega (
  arith,
  pow-suc 2 k,
  bit_xor_low a b,
  bit_xor-lt k (a / 2) (b / 2) (omega (arith, pow-suc 2 k)) (omega (arith, pow-suc 2 k)),
)

-- Two words of equal width are equal if they give the same exclusive or with a third.
pub bit_xor_inj : (a b c : ℕ) → bit_xor a c ≡ bit_xor b c → a ≡ b
bit_xor_inj a b c h = ground (arith, bit_xor_cancel a c, bit_xor_cancel b c)

-- Masks of one and of two low bits.
pub bit_and_one : (a : ℕ) → bit_and a 1 ≡ a % 2
bit_and_one a = omega (arith, bit_and_low a 1, bit_and-zero (a / 2))

pub bit_and_three : (a : ℕ) → bit_and a 3 ≡ a % 4
bit_and_three a = omega (arith, bit_and_low a 3, bit_and_one (a / 2))

pub bit_and_fifteen : (a : ℕ) → bit_and a 15 ≡ a % 16
bit_and_fifteen a =
    omega (arith, bit_and_low a 15, bit_and_low (a / 2) 7, bit_and_three (a / 2 / 2))

-- Two words are multiples of 4 exactly if their union is.
pub bit_or-mod_four : (a b : ℕ) → (bit_or a b % 4 ≡ 0) ↔ ((a % 4 ≡ 0) × (b % 4 ≡ 0))
bit_or-mod_four a b = ground (arith, bit_or_low a b, bit_or_low (a / 2) (b / 2))

-- Two tests that agree on the first `n` numbers, by evaluation.
pub agree_below : (ℕ → Bool) → (ℕ → Bool) → ℕ → Bool
agree_below p q zero = true
agree_below p q (suc n) = (if p n then q n else not (q n)) && agree_below p q n

pub agree_below_sound :
    (p q : ℕ → Bool) (n : ℕ) → agree_below p q n ≡ true → (a : ℕ) → a < n → p a ≡ q a
unfolding agree_below
agree_below_sound p q (suc n) h a lt = ground (arith, agree_below_sound p q n _ a)
agree_below_sound p q zero h a lt = absurd (omega arith)

-- Clearing the lowest bit of a byte leaves 0 exactly for 0 and 1.
clear_low_table : agree_below (λ x. bit_and x 0xffff_fffe == 0) (λ x. ltb x 2) 256 ≡ true
unfolding agree_below
clear_low_table = refl

pub bit_and_clear_low : (a : ℕ) → a < 256 → (bit_and a 0xffff_fffe == 0) ≡ ltb a 2
bit_and_clear_low =
    agree_below_sound (λ x. bit_and x 0xffff_fffe == 0) (λ x. ltb x 2) 256 clear_low_table

clear_low_table16 : agree_below (λ x. bit_and x 0xffff_fffe == 0) (λ x. ltb x 2) 65536 ≡ true
unfolding agree_below
clear_low_table16 = refl

pub bit_and_clear_low16 : (a : ℕ) → a < 2 ^ 16 → (bit_and a 0xffff_fffe == 0) ≡ ltb a 2
bit_and_clear_low16 =
    agree_below_sound (λ x. bit_and x 0xffff_fffe == 0) (λ x. ltb x 2) 65536 clear_low_table16
