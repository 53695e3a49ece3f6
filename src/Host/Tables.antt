-- ===== src/Host/Tables.antt =====
-- The array of tracked requests: its indices and its requests are distinct, and each request in it
-- is alive, not done, and knows its index.
use virtual_accelerator_mana.Base.{
  ℕ, suc, ◌≡◌, ◌≢◌, ◌<◌, refl, ap, false, ◌==◌, Bool-cases, inl, inr, [], ◌∷◌, none, some, length,
  arith,
}
use virtual_accelerator_mana.Host.State.{Xarray, xa_load, xa_erase, Request}

abbrev pub NotAt : ℕ → Xarray → Type 0
NotAt a [] = Unit {0}
NotAt a ((i, b) ∷ rest) = (b ≢ a) × NotAt a rest

abbrev pub NotIndex : ℕ → Xarray → Type 0
NotIndex id [] = Unit {0}
NotIndex id ((i, b) ∷ rest) = (i ≢ id) × NotIndex id rest

pub record IsTracked (id : ℕ) (r : Request) : Type 0 where
  pub knows : r.command_id ≡ id
  pub alive : 0 < r.refs
  pub waiting : r.done ≡ false

abbrev pub IsTable : (ℕ → Request) → Xarray → Type 0
IsTable at [] = Unit {0}
IsTable at ((i, a) ∷ rest) = IsTracked i (at a) × NotAt a rest × NotIndex i rest × IsTable at rest

-- A table does not see a change elsewhere.
pub IsTable-frame :
    (at at' : ℕ → Request) (a : ℕ) (t : Xarray)
    → ((b : ℕ) → b ≢ a → at' b ≡ at b)
    → NotAt a t
    → IsTable at t
    → IsTable at' t
IsTable-frame at at' a [] same away h = tt
IsTable-frame at at' a ((i, b) ∷ rest) same away h =
    (rw (same b away.0) h.0, h.1, h.2, IsTable-frame at at' a rest same away.1 h.3)

pub NotAt-erase : (a id : ℕ) (t : Xarray) → NotAt a t → NotAt a (xa_erase t id)
unfolding xa_erase
NotAt-erase a id [] h = tt
NotAt-erase a id ((i, b) ∷ rest) h = elim (Bool-cases (i == id)) [
  | inl e ↦ rw e h.1
  | inr e ↦ rw e (h.0, NotAt-erase a id rest h.1)
]

pub NotIndex-erase : (j id : ℕ) (t : Xarray) → NotIndex j t → NotIndex j (xa_erase t id)
unfolding xa_erase
NotIndex-erase j id [] h = tt
NotIndex-erase j id ((i, b) ∷ rest) h = elim (Bool-cases (i == id)) [
  | inl e ↦ rw e h.1
  | inr e ↦ rw e (h.0, NotIndex-erase j id rest h.1)
]

-- What a successful load tells, and what its erasure leaves.
pub record IsErased (at : ℕ → Request) (t : Xarray) (id a : ℕ) : Type 0 where
  pub tracked : IsTracked id (at a)
  pub away : NotAt a (xa_erase t id)
  pub gone : NotIndex id (xa_erase t id)
  pub table : IsTable at (xa_erase t id)
  pub fewer : length t ≡ suc (length (xa_erase t id))

pub load_away : (t : Xarray) (id a b : ℕ) → xa_load t id ≡ some a → NotAt b t → b ≢ a
unfolding xa_load
load_away [] id a b e h = cc
load_away ((i, c) ∷ rest) id a b e h = elim (Bool-cases (i == id)) [
  | inl f ↦ ground (arith, e, f, h.0)
  | inr f ↦ load_away rest id a b (ground (arith, e, f)) h.1
]

pub load-IsErased :
    (at : ℕ → Request) (t : Xarray) (id a : ℕ)
    → IsTable at t
    → xa_load t id ≡ some a
    → IsErased at t id a
unfolding xa_load xa_erase
load-IsErased at [] id a h e = cc
load-IsErased at ((i, b) ∷ rest) id a h e = elim (Bool-cases (i == id)) [
  | inl f ↦
      let same : b ≡ a = ground (arith, e, f) in
      let index : i ≡ id = ground (arith, f) in
      record {
        tracked = rw (← same, ← index) h.0;
        away = rw (f, ← same) h.1;
        gone = rw (f, ← index) h.2;
        table = rw f h.3;
        fewer = rw f refl;
      }
  | inr f ↦
      let loaded : xa_load rest id ≡ some a = ground (arith, e, f) in
      let r = load-IsErased at rest id a h.3 loaded in
      record {
        tracked = r.tracked;
        away = rw f (load_away rest id a b loaded h.1, r.away);
        gone = rw f (ground (arith, f), r.gone);
        table = rw f (h.0, NotAt-erase b id rest h.1, NotIndex-erase i id rest h.2, r.table);
        fewer = rw f (ap suc r.fewer);
      }
]

-- An index that is not loaded is not in the table.
pub load_none-NotIndex : (t : Xarray) (id : ℕ) → xa_load t id ≡ none → NotIndex id t
unfolding xa_load
load_none-NotIndex [] id e = tt
load_none-NotIndex ((i, b) ∷ rest) id e = elim (Bool-cases (i == id)) [
  | inl f ↦ ground (arith, e, f)
  | inr f ↦ (ground (arith, f), load_none-NotIndex rest id (ground (arith, e, f)))
]

pub NotIndex-load_none : (t : Xarray) (id : ℕ) → NotIndex id t → xa_load t id ≡ none
unfolding xa_load
NotIndex-load_none [] id n = refl
NotIndex-load_none ((i, b) ∷ rest) id n =
    let r = NotIndex-load_none rest id n.1 in ground (arith, n.0, r)
