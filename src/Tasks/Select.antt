-- ===== src/Tasks/Select.antt =====
-- The choice of the next command to run (main.c, vams_scheduler_select).
use virtual_accelerator_mana.Base.{
  ℕ, zero, suc, ◌+◌, ◌-◌, ◌≤◌, ◌<◌, ◌≡◌, subst, refl, true, false, Bool-cases, ◌⊎◌, inl, inr,
  if◌then◌else◌, get_elem?-in_range, some, List, get_elem?, length, arith,
}
use virtual_accelerator_mana.Scheduler.{CommandObject, precedes}
use virtual_accelerator_mana.Tasks.{select_from, scheduler_select}

-- The command at `best` is the first of the least among the first `count` ones.
pub record IsFirstLeast (ready : List CommandObject) (count best : ℕ) : Type 0 where
  pub chosen : CommandObject
  pub found : get_elem? ready best ≡ some chosen
  pub in_range : best < count
  pub none_precedes :
      (i : ℕ) (c : CommandObject)
      → i < count
      → get_elem? ready i ≡ some c
      → precedes c chosen ≡ false
  pub before_earlier :
      (i : ℕ) (c : CommandObject) → i < best → get_elem? ready i ≡ some c → precedes chosen c ≡ true

precedes_irrefl : (a : CommandObject) → precedes a a ≡ false
unfolding precedes
precedes_irrefl a = ground arith

precedes_trans :
    (a b c : CommandObject) → precedes a b ≡ true → precedes c b ≡ false → precedes a c ≡ true
unfolding precedes
precedes_trans a b c = ground arith

precedes_asym : (a b : CommandObject) → precedes a b ≡ true → precedes b a ≡ false
unfolding precedes
precedes_asym a b = ground arith

not_before_trans :
    (a b c : CommandObject) → precedes b a ≡ false → precedes c b ≡ false → precedes c a ≡ false
unfolding precedes
not_before_trans a b c = ground arith

last_or_before : (i n : ℕ) → i < n + 1 → (i < n) ⊎ (i ≡ n)
last_or_before i n lt = omega arith

unpreceded :
    (ready : List CommandObject) (i n : ℕ) (best c d : CommandObject)
    → precedes c best ≡ false
    → get_elem? ready n ≡ some c
    → i ≡ n
    → get_elem? ready i ≡ some d
    → precedes d best ≡ false
unpreceded ready i n best c d h at same e = cc

no_more : (n : ℕ) → n + 0 ≡ n
no_more n = omega arith

one_more : (n rest : ℕ) → n + suc rest ≡ n + 1 + rest
one_more n rest = omega arith

module _ (ready : List CommandObject) where
  step_taken :
      (n best : ℕ) (c : CommandObject) (f : IsFirstLeast ready n best)
      → get_elem? ready n ≡ some c
      → precedes c f.chosen ≡ true
      → IsFirstLeast ready (n + 1) n
  step_taken n best c f at before = record {
    chosen = c;
    found = at;
    in_range = omega arith;
    none_precedes = λ i d lt e. elim (last_or_before i n lt) [
      | inl before_n ↦
          precedes_asym c d (precedes_trans c f.chosen d before (f.none_precedes i d before_n e))
      | inr last ↦ unpreceded ready i n c c d (precedes_irrefl c) at last e
    ];
    before_earlier = λ i d lt e. precedes_trans c f.chosen d before (f.none_precedes i d lt e);
  }

  step_kept :
      (n best : ℕ) (c : CommandObject) (f : IsFirstLeast ready n best)
      → get_elem? ready n ≡ some c
      → precedes c f.chosen ≡ false
      → IsFirstLeast ready (n + 1) best
  step_kept n best c f at after = record {
    chosen = f.chosen;
    found = f.found;
    in_range = (let lt = f.in_range in omega arith);
    none_precedes = λ i d lt e. elim (last_or_before i n lt) [
      | inl before_n ↦ f.none_precedes i d before_n e
      | inr last ↦ unpreceded ready i n f.chosen c d after at last e
    ];
    before_earlier = f.before_earlier;
  }

  next_step :
      (n best : ℕ) (c : CommandObject) (f : IsFirstLeast ready n best)
      → get_elem? ready n ≡ some c
      → IsFirstLeast ready (n + 1) (if precedes c f.chosen then n else best)
  next_step n best c f at = elim (Bool-cases (precedes c f.chosen)) [
    | inl before ↦ rw before (step_taken n best c f at before)
    | inr after ↦ rw after (step_kept n best c f at after)
  ]

  select_from-IsFirstLeast :
      (rest n best : ℕ)
      → n + rest ≤ length ready
      → IsFirstLeast ready n best
      → (r : ℕ) × (select_from ready rest n best ≡ some r) × IsFirstLeast ready (n + rest) r
  unfolding select_from
  select_from-IsFirstLeast zero n best le f = (best, refl, rw (no_more n) f)
  select_from-IsFirstLeast (suc rest) n best le f =
      let (c, at) = get_elem?-in_range ready n (omega arith) in
      let next = if precedes c f.chosen then n else best in
      let (r, e, g) =
        select_from-IsFirstLeast rest (n + 1) next (omega arith) (next_step n best c f at) in
      (r, rw (at, f.found) e, rw (one_more n rest) g)

only_zero : (i : ℕ) → i < 1 → i ≡ 0
only_zero i lt = omega arith

below_zero : (i : ℕ) → ¬ (i < 0)
below_zero i lt = omega arith

one_and_rest : (n : ℕ) → 0 < n → 1 + (n - 1) ≡ n
one_and_rest n pos = omega arith

first_of_one :
    (ready : List CommandObject) (c : CommandObject)
    → get_elem? ready 0 ≡ some c
    → IsFirstLeast ready 1 0
first_of_one ready c at = record {
  chosen = c;
  found = at;
  in_range = omega arith;
  none_precedes = λ i d lt e. unpreceded ready i 0 c c d (precedes_irrefl c) at (only_zero i lt) e;
  before_earlier = λ i d lt e. absurd (below_zero i lt);
}

select_rest :
    (ready : List CommandObject) (rest : ℕ) (c : CommandObject)
    → get_elem? ready 0 ≡ some c
    → 1 + rest ≤ length ready
    → (r : ℕ) × (select_from ready rest 1 0 ≡ some r) × IsFirstLeast ready (1 + rest) r
select_rest ready rest c at le =
    select_from-IsFirstLeast ready rest 1 0 le (first_of_one ready c at)

-- Of a number of ready commands that the array holds, at least one, the selection returns the first
-- that no other of them precedes: its index is below the number, none of them precedes it, and it
-- precedes each with a smaller index.
pub scheduler_select-IsFirstLeast :
    (ready : List CommandObject) (count : ℕ)
    → 0 < count
    → count ≤ length ready
    → (best : ℕ) × (scheduler_select ready count ≡ some best) × IsFirstLeast ready count best
unfolding scheduler_select
scheduler_select-IsFirstLeast ready count pos le =
    let (c, at) = get_elem?-in_range ready 0 (omega arith) in
    let (r, e, f) = select_rest ready (count - 1) c at (omega arith) in
    (r, e, subst (λ n. IsFirstLeast ready n r) (one_and_rest count pos) f)
