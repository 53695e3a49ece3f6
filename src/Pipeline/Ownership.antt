-- ===== src/Pipeline/Ownership.antt =====
-- Sole ownership: every block of the slab is at one place, in the state that its owner relies on,
-- and stays so when a block moves from one place to another (main.c).
use native.Mathlib.Decide.{ℕ_discrete}
use virtual_accelerator_mana.Base.{
  ℕ, ◌+◌, ◌≤◌, ◌<◌, ◌≡◌, ◌≢◌, refl, sym, ap, subst, ◌∙◌, inl, inr, Bool, Bool-cases, ◌==◌, ==_iff,
  if◌then◌else◌, List, [], ◌∷◌, true, length, count, one, length_le_distinct, arith,
}
use virtual_accelerator_mana.Scheduler.{CommandObject}
use virtual_accelerator_mana.Pipeline.Store.{command_pool_size}
use virtual_accelerator_mana.Pipeline.Places.{Place, place_code, place_code_injective, Fits}

abbrev pub same_place : Place → Place → Bool
same_place p r = place_code p == place_code r

pub record IsOwned (objects : ℕ → CommandObject) (content : Place → List ℕ) : Type 0 where
  pub once : (p : Place) (a : ℕ) → count a (content p) ≤ 1
  pub sole : (p r : Place) (a : ℕ) → 0 < count a (content p) → 0 < count a (content r) → p ≡ r
  pub block : (p : Place) (a : ℕ) → 0 < count a (content p) → a < command_pool_size
  pub kept : (a : ℕ) → a < command_pool_size → (p : Place) × (0 < count a (content p))
  pub fits : (p : Place) (a : ℕ) → 0 < count a (content p) → Fits p (objects a)

-- How often the blocks stand at `p`, where `a` goes from one place to another.
abbrev pub Counted : (a : ℕ) (from to : Place) (content content' : Place → List ℕ) → Place → Type 0
Counted a from to content content' p =
    (b : ℕ)
    → count b (content' p) + (if same_place p from then one b a else 0)
      ≡ count b (content p) + (if same_place p to then one b a else 0)

-- The block `a` goes from one place to another, or stays where it is, and no other object changes.
pub record IsMove (a : ℕ) (from to : Place) (objects objects' : ℕ → CommandObject)
    (content content' : Place → List ℕ) : Type 0 where
  pub held : 0 < count a (content from)
  pub counted : (p : Place) → Counted a from to content content' p
  pub others : (b : ℕ) → b ≢ a → objects' b ≡ objects b
  pub fit : Fits to (objects' a)

same_place_inv : (p r : Place) → same_place p r ≡ true → p ≡ r
same_place_inv p r e = place_code_injective p r ((==_iff (place_code p) (place_code r)).0 e)

same_place_self : (p : Place) → same_place p p ≡ true
same_place_self p = (==_iff (place_code p) (place_code p)).1 refl

one_self : (a : ℕ) → one a a ≡ 1
one_self a = ground arith

pub one_here : (a : ℕ) → 0 < count a (a ∷ [])
one_here a = ground arith

one_ne : (a b : ℕ) → b ≢ a → one b a ≡ 0
one_ne a b n = ground arith

module _ {a : ℕ} {from to : Place} {objects objects' : ℕ → CommandObject}
    {content content' : Place → List ℕ} (v : IsOwned objects content)
    (m : IsMove a from to objects objects' content content') where
  same_count : (p : Place) (b : ℕ) → b ≢ a → count b (content' p) ≡ count b (content p)
  same_count p b n = ground (arith, m.counted p b, one_ne a b n)

  -- The moved block is nowhere else.
  only_there : (p : Place) → 0 < count a (content' p) → p ≡ to
  only_there p h = elim (Bool-cases (same_place p to)) [
    | inl e ↦ same_place_inv p to e
    | inr n ↦ elim (Bool-cases (same_place p from)) [
      | inl e ↦ absurd (ground (arith, m.counted p a, one_self a, v.once p a))
      | inr f ↦
          let here : 0 < count a (content p) = ground (arith, m.counted p a, one_self a) in
          let e : place_code p ≡ place_code from = ap place_code (v.sole p from a here m.held) in
          absurd (ground (arith, (==_iff (place_code p) (place_code from)).1 e))
    ]
  ]

  there : 0 < count a (content' to)
  there = ground (arith, m.counted to a, one_self a, same_place_self to, m.held)

  once_after : (p : Place) (b : ℕ) → count b (content' p) ≤ 1
  once_after p b = elim (ℕ_discrete b a) [
    | no n ↦ omega (arith, same_count p b n, v.once p b)
    | yes e ↦ rw e (once_moved p)
  ]
    where
      once_moved : (p : Place) → count a (content' p) ≤ 1
      once_moved p = elim (Bool-cases (same_place p from)) [
        | inl e ↦ ground (arith, m.counted p a, one_self a, v.once p a, m.held)
        | inr f ↦ elim (ℕ_discrete (count a (content p)) 0) [
          | yes z ↦ ground (arith, m.counted p a, one_self a)
          | no n ↦
              let e : place_code p ≡ place_code from =
                ap place_code (v.sole p from a (omega (arith, n)) m.held) in
              absurd (ground (arith, (==_iff (place_code p) (place_code from)).1 e))
        ]
      ]

  -- After a move every block is again at one place, in the state that its owner relies on.
  pub move-IsOwned : IsOwned objects' content'
  move-IsOwned = record {
    once = once_after;
    sole = λ p r b hp hr. elim (ℕ_discrete b a) [
      | yes e ↦
          only_there p (subst (λ x. 0 < count x (content' p)) e hp)
          ∙ sym (only_there r (subst (λ x. 0 < count x (content' r)) e hr))
      | no n ↦
          v.sole p r b (omega (arith, same_count p b n, hp)) (omega (arith, same_count r b n, hr))
    ];
    block = λ p b h. elim (ℕ_discrete b a) [
      | yes e ↦ rw e (v.block from a m.held)
      | no n ↦ v.block p b (omega (arith, same_count p b n, h))
    ];
    kept = λ b lt. elim (ℕ_discrete b a) [
      | yes e ↦ (to, rw e there)
      | no n ↦ let (p, h) = v.kept b lt in (p, omega (arith, same_count p b n, h))
    ];
    fits = λ p b h. elim (ℕ_discrete b a) [
      | yes e ↦
          let here = only_there p (subst (λ x. 0 < count x (content' p)) e h) in rw (here, e) m.fit
      | no n ↦ rw (m.others b n) (v.fits p b (omega (arith, same_count p b n, h)))
    ];
  }

-- A block that is at one place is at no other.
pub absent :
    (objects : ℕ → CommandObject) (content : Place → List ℕ)
    → IsOwned objects content
    → (p r : Place) (a : ℕ) → p ≢ r
    → 0 < count a (content r)
    → count a (content p) ≡ 0
absent objects content v p r a n h = elim (ℕ_discrete (count a (content p)) 0) [
  | yes z ↦ z
  | no k ↦ absurd (n (v.sole p r a (omega (arith, k)) h))
]

-- With a block in a hand there is room at another place.
pub room :
    (objects : ℕ → CommandObject) (content : Place → List ℕ)
    → IsOwned objects content
    → (p r : Place) (a : ℕ) → p ≢ r
    → 0 < count a (content r)
    → length (content p) < command_pool_size
room objects content v p r a n h =
    length_le_distinct command_pool_size (a ∷ content p)
      (λ x k. elim (ℕ_discrete x a) [
        | yes e ↦ rw e (v.block r a h)
        | no f ↦ v.block p x (omega (arith, one_ne a x f, k))
      ])
      (λ x. elim (ℕ_discrete x a) [
        | yes e ↦
            subst (λ y. count y (a ∷ content p) ≤ 1) (sym e)
              (omega (arith, one_self a, absent objects content v p r a n h))
        | no f ↦ omega (arith, one_ne a x f, v.once p x)
      ])
