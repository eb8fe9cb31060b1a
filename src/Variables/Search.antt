-- ===== src/Variables/Search.antt =====
-- The search map of core/src/variables.cpp: `searchMapSortCmp` is an order, and `lower_bound` with
-- `insert` keeps the map in it.
use sc_api.Common.{
  ℕ, zero, suc, ◌+◌, ◌<◌, ◌≡◌, refl, ◌∙◌, ap₂, List, [], ◌∷◌, Option, none, some, true, false, All,
  arith, ◌==◌, if◌then◌else◌, Bool-cases, inl, inr,
}
use sc_api.Variables.{
  VariableDefCopy, Copies, c_string, text_lt, search_map_sort_cmp, before_copy, put_copy,
  lower_bound, insert_at,
}

text_lt_asymm : (xs ys : List ℕ) → text_lt xs ys ≡ true → text_lt ys xs ≡ false
unfolding text_lt
text_lt_asymm [] [] h = refl
text_lt_asymm [] (y ∷ ys) h = refl
text_lt_asymm (x ∷ xs) [] h = cc
text_lt_asymm (x ∷ xs) (y ∷ ys) h = ground (arith, text_lt_asymm xs ys)

search_map_sort_cmp_asymm :
    (a b : VariableDefCopy) → search_map_sort_cmp a b ≡ true → search_map_sort_cmp b a ≡ false
unfolding search_map_sort_cmp
search_map_sort_cmp_asymm a b h = ground (arith, text_lt_asymm (c_string a.name) (c_string b.name))

before_copy_asymm :
    (a b : Option VariableDefCopy) → before_copy a b ≡ true → before_copy b a ≡ false
before_copy_asymm none b h = cc
before_copy_asymm (some a) none h = cc
before_copy_asymm (some a) (some b) h = search_map_sort_cmp_asymm a b h

-- No entry sorts before the one in front of it.
abbrev Leads : Copies → ℕ → List ℕ → Type 0
Leads defs u [] = Unit
Leads defs u (v ∷ vs) = before_copy (defs v) (defs u) ≡ false

abbrev pub IsSorted : Copies → List ℕ → Type 0
IsSorted defs [] = Unit
IsSorted defs (u ∷ us) = Leads defs u us × IsSorted defs us

-- How often an entry stands in the map.
unfoldable pub occurs : ℕ → List ℕ → ℕ
occurs i [] = 0
occurs i (u ∷ us) = (if u == i then 1 else 0) + occurs i us

-- The entry at its place.
abbrev pub insert_sorted : Copies → List ℕ → ℕ → List ℕ
insert_sorted defs us var = insert_at us (lower_bound defs us var) var

occurs-insert_at : (i var k : ℕ) (us : List ℕ) → occurs i (insert_at us k var) ≡ occurs i (var ∷ us)
unfolding occurs insert_at
occurs-insert_at i var zero us = refl
occurs-insert_at i var (suc k) [] = refl
occurs-insert_at i var (suc k) (u ∷ us) = omega (arith, occurs-insert_at i var k us)

pub occurs-insert_sorted :
    (defs : Copies) (i var : ℕ) (us : List ℕ)
    → occurs i (insert_sorted defs us var) ≡ (if var == i then 1 else 0) + occurs i us
unfolding occurs
occurs-insert_sorted defs i var us = occurs-insert_at i var (lower_bound defs us var) us

All-insert_at :
    (P : ℕ → Type 0) (var k : ℕ) (us : List ℕ) → P var → All P us → All P (insert_at us k var)
unfolding insert_at
All-insert_at P var zero us p a = (p, a)
All-insert_at P var (suc k) [] p a = (p, tt)
All-insert_at P var (suc k) (u ∷ us) p a = (a.0, All-insert_at P var k us p a.1)

pub All-insert_sorted :
    (P : ℕ → Type 0) (defs : Copies) (var : ℕ) (us : List ℕ)
    → P var
    → All P us
    → All P (insert_sorted defs us var)
All-insert_sorted P defs var us p a = All-insert_at P var (lower_bound defs us var) us p a

module _ (defs : Copies) where
  insert-Leads :
      (u var : ℕ) (us : List ℕ)
      → before_copy (defs u) (defs var) ≡ true
      → Leads defs u us
      → Leads defs u (insert_sorted defs us var)
  unfolding lower_bound insert_at
  insert-Leads u var [] h l = before_copy_asymm (defs u) (defs var) h
  insert-Leads u var (v ∷ vs) h l = elim (Bool-cases (before_copy (defs v) (defs var))) [
    | inl e ↦ rw (e, insert_at) l
    | inr e ↦ rw (e, insert_at) (before_copy_asymm (defs u) (defs var) h)
  ]

  pub insert-IsSorted :
      (var : ℕ) (us : List ℕ) → IsSorted defs us → IsSorted defs (insert_sorted defs us var)
  unfolding lower_bound insert_at
  insert-IsSorted var [] s = (tt, tt)
  insert-IsSorted var (u ∷ us) s = elim (Bool-cases (before_copy (defs u) (defs var))) [
    | inl e ↦ rw (e, insert_at) (insert-Leads u var us e s.0, insert-IsSorted var us s.1)
    | inr e ↦ rw (e, insert_at) (e, s)
  ]

-- A copy that the map does not name may change.
put_copy_other :
    (defs : Copies) (n i : ℕ) (d : VariableDefCopy) → i < n → put_copy defs n d i ≡ defs i
put_copy_other defs n i d h = ground arith

pub put_copy-IsSorted :
    (defs : Copies) (n : ℕ) (d : VariableDefCopy) (us : List ℕ)
    → All (λ i. i < n) us
    → IsSorted defs us
    → IsSorted (put_copy defs n d) us
put_copy-IsSorted defs n d [] a s = tt
put_copy-IsSorted defs n d (u ∷ []) a s = (tt, tt)
put_copy-IsSorted defs n d (u ∷ v ∷ vs) a s = (
  ap₂ before_copy (put_copy_other defs n v d a.1.0) (put_copy_other defs n u d a.0) ∙ s.0,
  put_copy-IsSorted defs n d (v ∷ vs) a.1 s.1,
)
