-- ===== src/Zephyr/Model.antt =====
-- Concrete instances of the interfaces, which satisfy their laws: a bus of plain memory and a
-- message queue that is a list of bounded length.
use mathlib.Core.Logic.{dite, dif_neg}
use native.Mathlib.Decide.{dec_lt}
use virtual_accelerator_mana.Base.{
  ℕ, ◌+◌, ◌-◌, ◌%◌, ◌^◌, count, one, ◌≤◌, ◌<◌, ◌≡◌, refl, ap, if◌then◌else◌, ◌==◌, List, [], ◌∷◌,
  ◌++◌, Option, none, some, length, length-append, arith,
}
use virtual_accelerator_mana.Zephyr.{Mmio, IsRam, Msgq, Slab, Status, success, enomsg}

abbrev pub memory : Mmio
memory = record {
  Device = ℕ → ℕ;
  read32 = λ a d. (d a, d);
  write32 = λ v a d b. if a == b then v else d b;
}

pub memory-IsRam : (first count : ℕ) → IsRam memory first count
memory-IsRam first count = record {
  read_keeps = λ i d h. refl;
  read_written = λ i j v d h k. ground arith;
}

module _ (A : Type 0) (n : ℕ) where
  abbrev pub Bounded : Type 0
  Bounded = (xs : List A) × (length xs ≤ n)

  pub bounded_append : (a : A) (xs : List A) → length xs < n → length (xs ++ a ∷ []) ≤ n
  bounded_append a xs h = omega (arith, length-append xs (a ∷ []))

  unfoldable pub bounded_put : A → Bounded → Bounded × Status
  unfolding dec_lt
  bounded_put a q =
      dite (dec_lt (length q.0) n) (λ lt. ((q.0 ++ a ∷ [], bounded_append a q.0 lt), success))
        (λ _. (q, enomsg))

  pub bounded_tail : (a : A) (xs : List A) → length (a ∷ xs) ≤ n → length xs ≤ n
  bounded_tail a xs h = omega arith

  unfoldable pub bounded_get : Bounded → Option (A × Bounded)
  bounded_get ([], h) = none
  bounded_get (a ∷ xs, h) = some (a, (xs, bounded_tail a xs h))

  pub bounded_put_room :
      (a : A) (q : Bounded)
      → length q.0 < n
      → (success ≡ (bounded_put a q).1) × ((bounded_put a q).0.0 ≡ q.0 ++ a ∷ []) × (n ≡ n)
  unfolding bounded_put
  bounded_put_room a q h = ground arith

  pub bounded_put_full : (a : A) (q : Bounded) → n ≤ length q.0 → bounded_put a q ≡ (q, enomsg)
  unfolding bounded_put
  bounded_put_full a q h = rw (dif_neg (dec_lt (length q.0) n) (λ lt. omega arith)) refl

  pub bounded_get_empty : (q : Bounded) → q.0 ≡ [] → bounded_get q ≡ none
  unfolding bounded_get
  bounded_get_empty ([], h) e = refl
  bounded_get_empty (a ∷ xs, h) e = cc

  pub bounded_get_first :
      (a : A) (rest : List A) (q : Bounded)
      → q.0 ≡ a ∷ rest
      → (r : Bounded) × (bounded_get q ≡ some (a, r)) × (r.0 ≡ rest) × (n ≡ n)
  unfolding bounded_get
  bounded_get_first a rest ([], h) e = cc
  bounded_get_first a rest (x ∷ xs, h) e =
      ((xs, bounded_tail x xs h), ground arith, ground arith, refl)

  abbrev pub bounded_queue : Msgq A
  bounded_queue = record {
    Queue = Bounded;
    contents = λ q. q.0;
    depth = λ q. n;
    put = bounded_put;
    get = bounded_get;
    num_used = λ q. length q.0;
    num_free = λ q. n - length q.0;
    bounded = λ q. q.1;
    put_room = bounded_put_room;
    put_full = bounded_put_full;
    get_empty = bounded_get_empty;
    get_first = bounded_get_first;
    num_used_lem = λ q. refl;
    num_free_lem = λ q. refl;
  }

-- A message queue that carries its depth.
module _ (A : Type 0) where
  abbrev pub Sized : Type 0
  Sized = (n : ℕ) × Bounded A n

  unfoldable pub sized_put : A → Sized → Sized × Status
  sized_put a (n, q) = ((n, (bounded_put A n a q).0), (bounded_put A n a q).1)

  abbrev pub with_depth : (n : ℕ) → Option (A × Bounded A n) → Option (A × Sized)
  with_depth n none = none
  with_depth n (some (a, q)) = some (a, (n, q))

  unfoldable pub sized_get : Sized → Option (A × Sized)
  sized_get (n, q) = with_depth n (bounded_get A n q)

  pub sized_put_room :
      (a : A) (q : Sized)
      → length q.1.0 < q.0
      → (success ≡ (sized_put a q).1)
        × ((sized_put a q).0.1.0 ≡ q.1.0 ++ a ∷ [])
        × ((sized_put a q).0.0 ≡ q.0)
  unfolding sized_put
  sized_put_room a (n, q) h = bounded_put_room A n a q h

  pub sized_put_full : (a : A) (q : Sized) → q.0 ≤ length q.1.0 → sized_put a q ≡ (q, enomsg)
  unfolding sized_put
  sized_put_full a (n, q) h =
      ap (λ (r : Bounded A n × Status). ((n, r.0), r.1)) (bounded_put_full A n a q h)

  pub sized_get_empty : (q : Sized) → q.1.0 ≡ [] → sized_get q ≡ none
  unfolding sized_get
  sized_get_empty (n, q) e = ap (with_depth n) (bounded_get_empty A n q e)

  pub sized_get_first :
      (a : A) (rest : List A) (q : Sized)
      → q.1.0 ≡ a ∷ rest
      → (r : Sized) × (sized_get q ≡ some (a, r)) × (r.1.0 ≡ rest) × (r.0 ≡ q.0)
  unfolding sized_get
  sized_get_first a rest (n, q) e =
      let (r, done, left, same) = bounded_get_first A n a rest q e in
      ((n, r), ap (with_depth n) done, left, refl)

  abbrev pub sized_queue : Msgq A
  sized_queue = record {
    Queue = Sized;
    contents = λ q. q.1.0;
    depth = λ q. q.0;
    put = sized_put;
    get = sized_get;
    num_used = λ q. length q.1.0;
    num_free = λ q. q.0 - length q.1.0;
    bounded = λ q. q.1.1;
    put_room = sized_put_room;
    put_full = sized_put_full;
    get_empty = sized_get_empty;
    get_first = sized_get_first;
    num_used_lem = λ q. refl;
    num_free_lem = λ q. refl;
  }

unfoldable pub alloc_first : List ℕ → Option (ℕ × List ℕ)
alloc_first [] = none
alloc_first (b ∷ rest) = some (b, rest)

pub alloc_first-none : (bs : List ℕ) → bs ≡ [] → alloc_first bs ≡ none
unfolding alloc_first
alloc_first-none [] e = refl
alloc_first-none (b ∷ rest) e = cc

pub alloc_first-some :
    (bs : List ℕ)
    → 0 < length bs
    → (b : ℕ) × (rest : List ℕ) × (alloc_first bs ≡ some (b, rest))
      × ((x : ℕ) → count x bs ≡ one x b + count x rest)
unfolding alloc_first
alloc_first-some [] pos = absurd (omega arith)
alloc_first-some (b ∷ rest) pos = (b, rest, refl, λ x. refl)

-- A slab that is the list of its free blocks.
abbrev pub block_list : Slab
block_list = record {
  Pool = List ℕ;
  free_blocks = λ bs. bs;
  alloc = alloc_first;
  release = λ b bs. b ∷ bs;
  num_free = λ bs. length bs;
  alloc_none = alloc_first-none;
  alloc_some = alloc_first-some;
  release_lem = λ b bs e x. refl;
  num_free_lem = λ bs. refl;
}

-- A bus of 32-bit words.
abbrev pub word_memory : Mmio
word_memory = record {
  Device = ℕ → ℕ;
  read32 = λ a d. (d a % 2 ^ 32, d);
  write32 = λ v a d b. if a == b then v else d b;
}
