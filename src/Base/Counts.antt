-- ===== src/Base/Counts.antt =====
-- How often a number stands in a list, and functions changed at one number.
use Prim.Native.Nat.{ℕ, zero, suc, ◌+◌, ◌≤◌, ◌<◌}
use mathlib.Core.Path.{◌≡◌, refl}
use mathlib.Core.Logic.{◌≢◌}
use mathlib.Core.List.{List, [], ◌∷◌, ◌++◌}
use native.Mathlib.Omega.{arith}
use virtual_accelerator_mana.Base.Tests.{◌==◌, if◌then◌else◌}
use virtual_accelerator_mana.Base.Lists.{length}

abbrev pub one : ℕ → ℕ → ℕ
one x y = if x == y then 1 else 0

abbrev pub count : ℕ → List ℕ → ℕ
count x [] = 0
count x (y ∷ ys) = one x y + count x ys

pub count-append : (x : ℕ) (xs ys : List ℕ) → count x (xs ++ ys) ≡ count x xs + count x ys
count-append x [] ys = omega arith
count-append x (y ∷ xs) ys = omega (arith, count-append x xs ys)

-- A store with one object replaced.
abbrev pub update {ℓ} : {A : Type ℓ} → (ℕ → A) → ℕ → A → ℕ → A
update f a x b = if b == a then x else f b

pub update_self {ℓ} : {A : Type ℓ} (f : ℕ → A) (a : ℕ) (x : A) → update f a x a ≡ x
update_self f a x = ground arith

pub update_ne {ℓ} : {A : Type ℓ} (f : ℕ → A) (a b : ℕ) (x : A) → b ≢ a → update f a x b ≡ f b
update_ne f a b x n = ground arith

-- The sum of the first `n` values.
sum : ℕ → (ℕ → ℕ) → ℕ
sum zero f = 0
sum (suc n) f = sum n f + f n

sum_zero : (n : ℕ) → sum n (λ x. count x []) ≡ 0
unfolding sum
sum_zero zero = refl
sum_zero (suc n) = omega (arith, sum_zero n)

sum_above :
    (n y : ℕ) (ys : List ℕ) → n ≤ y → sum n (λ x. count x (y ∷ ys)) ≡ sum n (λ x. count x ys)
unfolding sum
sum_above zero y ys h = refl
sum_above (suc n) y ys h = ground (arith, sum_above n y ys (omega arith))

sum_cons :
    (n y : ℕ) (ys : List ℕ) → y < n → sum n (λ x. count x (y ∷ ys)) ≡ suc (sum n (λ x. count x ys))
unfolding sum
sum_cons zero y ys h = absurd (omega arith)
sum_cons (suc n) y ys h = ground (arith, sum_above n y ys, sum_cons n y ys)

length-sum :
    (n : ℕ) (xs : List ℕ) → ((x : ℕ) → 0 < count x xs → x < n) → length xs ≡ sum n (λ x. count x xs)
length-sum n [] h = omega (arith, sum_zero n)
length-sum n (y ∷ ys) h =
    let first : y < n = h y (ground arith) in
    omega (arith, sum_cons n y ys first, length-sum n ys (λ x p. h x (omega arith)))

sum_le : (n : ℕ) (f : ℕ → ℕ) → ((x : ℕ) → f x ≤ 1) → sum n f ≤ n
unfolding sum
sum_le zero f h = omega arith
sum_le (suc n) f h = omega (arith, h n, sum_le n f h)

-- Distinct numbers below `n` are at most `n`.
pub length_le_distinct :
    (n : ℕ) (xs : List ℕ)
    → ((x : ℕ) → 0 < count x xs → x < n)
    → ((x : ℕ) → count x xs ≤ 1)
    → length xs ≤ n
length_le_distinct n xs h d = omega (arith, length-sum n xs h, sum_le n (λ x. count x xs) d)
