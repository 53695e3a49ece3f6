-- ===== src/Pipeline/Removal.antt =====
-- The removal from the scheduler's array takes out the selected block alone (main.c,
-- vams_command_scheduler).
use native.Mathlib.Decide.{ℕ_discrete}
use virtual_accelerator_mana.Base.{
  ℕ, zero, suc, ◌+◌, ◌-◌, ◌<◌, ◌≡◌, subst, ◌∙◌, List, [], ◌∷◌, some, length, length-set, get_or,
  get_elem?, set, take, get_or-set_self, get_or-set_ne, count, one, arith,
}
use virtual_accelerator_mana.Pipeline.Dispatch.{remove_swap}

count-set :
    (b a v : ℕ) (xs : List ℕ) (i : ℕ)
    → get_elem? xs i ≡ some a
    → count b (set xs i v) + one b a ≡ count b xs + one b v
count-set b a v [] i e = cc
count-set b a v (x ∷ xs) zero e = let same : x ≡ a = cc in rw same (omega arith)
count-set b a v (x ∷ xs) (suc i) e = omega (arith, count-set b a v xs i e)

count-take :
    (b n : ℕ) (xs : List ℕ)
    → length xs ≡ suc n
    → count b xs ≡ count b (take n xs) + one b (get_or xs n 0)
count-take b n [] e = absurd (omega arith)
count-take b zero (x ∷ []) e = omega arith
count-take b zero (x ∷ y ∷ xs) e = absurd (omega arith)
count-take b (suc n) (x ∷ xs) e = omega (arith, count-take b n xs (omega arith))

last_set :
    (n i : ℕ) (xs : List ℕ)
    → length xs ≡ suc n
    → get_or (set xs i (get_or xs n 0)) n 0 ≡ get_or xs n 0
last_set n i xs e = elim (ℕ_discrete i n) [
  | yes same ↦ rw same (get_or-set_self xs n (get_or xs n 0) 0 (omega arith))
  | no other ↦ get_or-set_ne xs i n (get_or xs n 0) 0 other
]

removed :
    (b a n i : ℕ) (xs : List ℕ)
    → length xs ≡ suc n
    → get_elem? xs i ≡ some a
    → count b xs ≡ one b a + count b (take n (set xs i (get_or xs n 0)))
removed b a n i xs len e =
    let ys = set xs i (get_or xs n 0) in
    let short = count-take b n ys (length-set xs i (get_or xs n 0) ∙ len) in
    let kept : get_or ys n 0 ≡ get_or xs n 0 = last_set n i xs len in
    let whole : count b ys ≡ count b (take n ys) + one b (get_or xs n 0) =
      subst (λ z. count b ys ≡ count b (take n ys) + one b z) kept short in
    omega (arith, whole, count-set b a (get_or xs n 0) xs i e)

pub remove_swap_lem :
    (b a i : ℕ) (xs : List ℕ)
    → 0 < length xs
    → get_elem? xs i ≡ some a
    → count b xs ≡ one b a + count b (remove_swap xs i)
unfolding remove_swap
remove_swap_lem b a i xs pos e = removed b a (length xs - 1) i xs (omega arith) e
