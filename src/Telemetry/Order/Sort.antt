-- ===== src/Telemetry/Order/Sort.antt =====
-- A sort for `TelemetryUpdateGroup::configure` (core/src/telemetry.cpp), which shows that what is known
-- of `std::sort` can hold.
use sc_api.Common.{
  Bool, ◌||◌, ltb, ℕ, suc, ◌≡◌, refl, ◌∙◌, ap, List, [], ◌∷◌, true, false, length, All, arith, ◌==◌,
  if◌then◌else◌, Bool-cases, inl, inr,
}
use sc_api.Telemetry.{Handles, before, size_rank}
use sc_api.Telemetry.Order.{Sorts, Ordered, has_id}

-- An insertion sort with the comparison of the code.
unfoldable insert : Handles → ℕ → List ℕ → List ℕ
insert h t [] = t ∷ []
insert h t (u ∷ us) = if before h u t then u ∷ insert h t us else t ∷ u ∷ us

unfoldable pub sort : Handles → List ℕ → List ℕ
unfolding insert
sort h [] = []
sort h (t ∷ ts) = insert h t (sort h ts)

module _ (h : Handles) where
  All-insert : (P : ℕ → Type 0) (t : ℕ) (us : List ℕ) → P t → All P us → All P (insert h t us)
  unfolding insert
  All-insert P t [] p a = (p, tt)
  All-insert P t (u ∷ us) p a = elim (Bool-cases (before h u t)) [
    | inl e ↦ rw e (a.0, All-insert P t us p a.1)
    | inr e ↦ rw e (p, a)
  ]

  All-sort : (P : ℕ → Type 0) (ts : List ℕ) → All P ts → All P (sort h ts)
  unfolding sort
  All-sort P [] a = tt
  All-sort P (t ∷ ts) a = All-insert P t (sort h ts) a.0 (All-sort P ts a.1)

  length-insert : (t : ℕ) (us : List ℕ) → length (insert h t us) ≡ suc (length us)
  unfolding insert
  length-insert t [] = refl
  length-insert t (u ∷ us) = elim (Bool-cases (before h u t)) [
    | inl e ↦ rw e (ap suc (length-insert t us))
    | inr e ↦ rw e refl
  ]

  length-sort : (ts : List ℕ) → length (sort h ts) ≡ length ts
  unfolding sort
  length-sort [] = refl
  length-sort (t ∷ ts) = length-insert t (sort h ts) ∙ ap suc (length-sort ts)

  before_trans : (t u v : ℕ) → before h u t ≡ false → before h v u ≡ false → before h v t ≡ false
  before_trans t u v a b =
      triple (size_rank h t) (size_rank h u) (size_rank h v) (h t).id (h u).id (h v).id a b
    where
      triple :
          (a b c i j k : ℕ)
          → (if ltb b a then true else if ltb a b then false else ltb j i) ≡ false
          → (if ltb c b then true else if ltb b c then false else ltb k j) ≡ false
          → (if ltb c a then true else if ltb a c then false else ltb k i) ≡ false
      triple a b c i j k e f = ground arith

  before_asym : (t u : ℕ) → before h u t ≡ true → before h t u ≡ false
  before_asym t u e = pair (size_rank h t) (size_rank h u) (h t).id (h u).id e
    where
      pair :
          (a b i j : ℕ)
          → (if ltb b a then true else if ltb a b then false else ltb j i) ≡ true
          → (if ltb a b then true else if ltb b a then false else ltb i j) ≡ false
      pair a b i j e = ground arith

  All-before :
      (t u : ℕ) (us : List ℕ)
      → before h u t ≡ false
      → All (λ v. before h v u ≡ false) us
      → All (λ v. before h v t ≡ false) us
  All-before t u [] e a = tt
  All-before t u (v ∷ us) e a = (before_trans t u v e a.0, All-before t u us e a.1)

  insert-Ordered : (t : ℕ) (us : List ℕ) → Ordered h us → Ordered h (insert h t us)
  unfolding insert
  insert-Ordered t [] a = (tt, tt)
  insert-Ordered t (u ∷ us) a = elim (Bool-cases (before h u t)) [
    | inl e ↦ rw e (
      All-insert (λ v. before h v u ≡ false) t us (before_asym t u e) a.0,
      insert-Ordered t us a.1,
    )
    | inr e ↦ rw e ((e, All-before t u us e a.0), a)
  ]

  sort-Ordered : (ts : List ℕ) → Ordered h (sort h ts)
  unfolding sort
  sort-Ordered [] = tt
  sort-Ordered (t ∷ ts) = insert-Ordered t (sort h ts) (sort-Ordered ts)

  has_id-insert :
      (k t : ℕ) (us : List ℕ) → has_id h k (insert h t us) ≡ ((h t).id == k || has_id h k us)
  unfolding insert
  has_id-insert k t [] = refl
  has_id-insert k t (u ∷ us) = elim (Bool-cases (before h u t)) [
    | inl e ↦ rw (e, has_id-insert k t us) (swap ((h u).id == k) ((h t).id == k) (has_id h k us))
    | inr e ↦ rw e refl
  ]
    where
      swap : (a b c : Bool) → (a || (b || c)) ≡ (b || (a || c))
      swap true true c = refl
      swap true false c = refl
      swap false true c = refl
      swap false false c = refl

  has_id-sort : (k : ℕ) (ts : List ℕ) → has_id h k (sort h ts) ≡ has_id h k ts
  unfolding sort
  has_id-sort k [] = refl
  has_id-sort k (t ∷ ts) =
      has_id-insert k t (sort h ts) ∙ ap (λ b. (h t).id == k || b) (has_id-sort k ts)

pub sort-Sorts : Sorts sort
sort-Sorts = record {
  all = All-sort;
  ids = has_id-sort;
  size = length-sort;
  ordered = sort-Ordered;
}
