-- ===== src/Telemetry/Order.antt =====
-- The order of the handles in `TelemetryUpdateGroup::configure` (core/src/telemetry.cpp): after the
-- sort, which is a parameter, they stand by the size of their values.
pub mod Sort
pub mod Ids
use sc_api.Common.{
  Bool, ◌||◌, ltb, ℕ, zero, suc, ◌≤◌, ◌<◌, ◌≡◌, ◌≢◌, refl, sym, ◌∙◌, ap, List, [], ◌∷◌, ◌++◌, true,
  false, length, All, arith, ◌==◌, if◌then◌else◌, Bool-cases, inl, inr, ◌⊎◌, ==_iff,
}
use sc_api.Telemetry.{Handles, size_rank, before, same_ref, unique_from, unique}

module _ (h : Handles) where
  pub All-unique_from :
      (P : ℕ → Type 0) (t : ℕ) (ts : List ℕ) → P t → All P ts → All P (unique_from h t ts)
  unfolding unique_from
  All-unique_from P t [] p a = (p, tt)
  All-unique_from P t (u ∷ us) p a = elim (Bool-cases (same_ref h t u)) [
    | inl e ↦ rw (e, unique_from) (All-unique_from P t us p a.1)
    | inr e ↦ rw (e, unique_from) (p, All-unique_from P u us a.0 a.1)
  ]

  -- No handle stands before one of a smaller rank.
  abbrev pub Ascending : List ℕ → Type 0
  Ascending [] = Unit
  Ascending (t ∷ ts) = All (λ u. size_rank h t ≤ size_rank h u) ts × Ascending ts

  pub unique_from-Ascending :
      (t : ℕ) (ts : List ℕ) → Ascending (t ∷ ts) → Ascending (unique_from h t ts)
  unfolding unique_from
  unique_from-Ascending t [] a = a
  unique_from-Ascending t (u ∷ us) a = elim (Bool-cases (same_ref h t u)) [
    | inl e ↦ rw (e, unique_from) (unique_from-Ascending t us (a.0.1, a.1.1))
    | inr e ↦
        rw (e, unique_from)
          (
            All-unique_from (λ v. size_rank h t ≤ size_rank h v) u us a.0.0 a.0.1,
            unique_from-Ascending u us a.1,
          )
  ]

  -- The handles that have an id, and those of one rank.
  unfoldable pub active : List ℕ → List ℕ
  active [] = []
  active (t ∷ ts) = if (h t).id == 0 then active ts else t ∷ active ts

  pub All-active : (P : ℕ → Type 0) (ts : List ℕ) → All P ts → All P (active ts)
  unfolding active
  All-active P [] a = tt
  All-active P (t ∷ ts) a = elim (Bool-cases ((h t).id == 0)) [
    | inl e ↦ rw e (All-active P ts a.1)
    | inr e ↦ rw e (a.0, All-active P ts a.1)
  ]

  pub active-Ascending : (ts : List ℕ) → Ascending ts → Ascending (active ts)
  unfolding active
  active-Ascending [] a = tt
  active-Ascending (t ∷ ts) a = elim (Bool-cases ((h t).id == 0)) [
    | inl e ↦ rw e (active-Ascending ts a.1)
    | inr e ↦ rw e (All-active (λ u. size_rank h t ≤ size_rank h u) ts a.0, active-Ascending ts a.1)
  ]

  unfoldable pub of_rank : ℕ → List ℕ → List ℕ
  of_rank r [] = []
  of_rank r (t ∷ ts) = if size_rank h t == r then t ∷ of_rank r ts else of_rank r ts

  none_below : (r s : ℕ) (ts : List ℕ) → s < r → All (λ u. r ≤ size_rank h u) ts → of_rank s ts ≡ []
  unfolding of_rank
  none_below r s [] k a = refl
  none_below r s (t ∷ ts) k a =
      let e : (size_rank h t == s) ≡ false = ground (arith, a.0) in rw e (none_below r s ts k a.1)

  pub All-of_rank : (P : ℕ → Type 0) (r : ℕ) (ts : List ℕ) → All P ts → All P (of_rank r ts)
  unfolding of_rank
  All-of_rank P r [] a = tt
  All-of_rank P r (t ∷ ts) a = elim (Bool-cases (size_rank h t == r)) [
    | inl e ↦ rw e (a.0, All-of_rank P r ts a.1)
    | inr e ↦ rw e (All-of_rank P r ts a.1)
  ]

  -- What stands in the order of the ranks 1 to 5 is its parts.
  abbrev pub HasRank : ℕ → Type 0
  HasRank t = (1 ≤ size_rank h t) × (size_rank h t ≤ 5)

  abbrev pub parts : List ℕ → List ℕ
  parts ts =
      of_rank 1 ts ++ (of_rank 2 ts ++ (of_rank 3 ts ++ (of_rank 4 ts ++ (of_rank 5 ts ++ []))))

  of_rank-here : (r t : ℕ) (ts : List ℕ) → size_rank h t ≡ r → of_rank r (t ∷ ts) ≡ t ∷ of_rank r ts
  unfolding of_rank
  of_rank-here r t ts e =
      let f : (size_rank h t == r) ≡ true = (==_iff (size_rank h t) r).1 e in rw f refl

  of_rank-other : (r t : ℕ) (ts : List ℕ) → size_rank h t ≢ r → of_rank r (t ∷ ts) ≡ of_rank r ts
  unfolding of_rank
  of_rank-other r t ts n = let f : (size_rank h t == r) ≡ false = ground arith in rw f refl

  module _ (t : ℕ) (ts : List ℕ) (r : ℕ) (e : size_rank h t ≡ r)
      (a : All (λ u. size_rank h t ≤ size_rank h u) ts) where
    low' : (s : ℕ) → s < r → of_rank s ts ≡ []
    low' s k = none_below (size_rank h t) s ts (omega arith) a

    low : (s : ℕ) → s < r → of_rank s (t ∷ ts) ≡ []
    low s k = of_rank-other s t ts (omega arith) ∙ low' s k

    here : of_rank r (t ∷ ts) ≡ t ∷ of_rank r ts
    here = of_rank-here r t ts e

    high : (s : ℕ) → r < s → of_rank s (t ∷ ts) ≡ of_rank s ts
    high s k = of_rank-other s t ts (omega arith)

  five_cases : (r : ℕ) → 1 ≤ r → r ≤ 5 → (r ≡ 1) ⊎ ((r ≡ 2) ⊎ ((r ≡ 3) ⊎ ((r ≡ 4) ⊎ (r ≡ 5))))
  five_cases zero a b = absurd (omega arith)
  five_cases (suc zero) a b = inl refl
  five_cases (suc (suc zero)) a b = inr (inl refl)
  five_cases (suc (suc (suc zero))) a b = inr (inr (inl refl))
  five_cases (suc (suc (suc (suc zero)))) a b = inr (inr (inr (inl refl)))
  five_cases (suc (suc (suc (suc (suc n))))) a b = inr (inr (inr (inr (omega arith))))

  join :
      {a b c d e a' b' c' d' e' : List ℕ}
      → a ≡ a'
      → b ≡ b'
      → c ≡ c'
      → d ≡ d'
      → e ≡ e'
      → a ++ (b ++ (c ++ (d ++ (e ++ [])))) ≡ a' ++ (b' ++ (c' ++ (d' ++ (e' ++ []))))
  join p q r s t = rw (p, q, r, s, t) refl

  parts-nil : [] ≡ parts []
  unfolding of_rank
  parts-nil = refl

  pub parts_lem : (ts : List ℕ) → Ascending ts → All HasRank ts → ts ≡ parts ts
  parts_lem [] a b = parts-nil
  parts_lem (t ∷ ts) a b =
      let ih : ts ≡ parts ts = parts_lem ts a.1 b.1 in
      let keep : (r : ℕ) → of_rank r ts ≡ of_rank r ts = λ r. refl in
      elim (five_cases (size_rank h t) b.0.0 b.0.1) [
        | inl e ↦
            ap (λ l. t ∷ l) ih
            ∙ sym (
                join (here t ts 1 e a.0) (high t ts 1 e a.0 2 (omega arith))
                  (high t ts 1 e a.0 3 (omega arith)) (high t ts 1 e a.0 4 (omega arith))
                  (high t ts 1 e a.0 5 (omega arith)))
        | inr (inl e) ↦
            ap (λ l. t ∷ l)
              (ih ∙ join (low' t ts 2 e a.0 1 (omega arith)) (keep 2) (keep 3) (keep 4) (keep 5))
            ∙ sym (
                join (low t ts 2 e a.0 1 (omega arith)) (here t ts 2 e a.0)
                  (high t ts 2 e a.0 3 (omega arith)) (high t ts 2 e a.0 4 (omega arith))
                  (high t ts 2 e a.0 5 (omega arith)))
        | inr (inr (inl e)) ↦
            ap (λ l. t ∷ l)
              (ih
                ∙ join (low' t ts 3 e a.0 1 (omega arith)) (low' t ts 3 e a.0 2 (omega arith))
                    (keep 3) (keep 4) (keep 5))
            ∙ sym (
                join (low t ts 3 e a.0 1 (omega arith)) (low t ts 3 e a.0 2 (omega arith))
                  (here t ts 3 e a.0) (high t ts 3 e a.0 4 (omega arith))
                  (high t ts 3 e a.0 5 (omega arith)))
        | inr (inr (inr (inl e))) ↦
            ap (λ l. t ∷ l)
              (ih
                ∙ join (low' t ts 4 e a.0 1 (omega arith)) (low' t ts 4 e a.0 2 (omega arith))
                    (low' t ts 4 e a.0 3 (omega arith)) (keep 4) (keep 5))
            ∙ sym (
                join (low t ts 4 e a.0 1 (omega arith)) (low t ts 4 e a.0 2 (omega arith))
                  (low t ts 4 e a.0 3 (omega arith)) (here t ts 4 e a.0)
                  (high t ts 4 e a.0 5 (omega arith)))
        | inr (inr (inr (inr e))) ↦
            ap (λ l. t ∷ l)
              (ih
                ∙ join (low' t ts 5 e a.0 1 (omega arith)) (low' t ts 5 e a.0 2 (omega arith))
                    (low' t ts 5 e a.0 3 (omega arith)) (low' t ts 5 e a.0 4 (omega arith))
                    (keep 5))
            ∙ sym (
                join (low t ts 5 e a.0 1 (omega arith)) (low t ts 5 e a.0 2 (omega arith))
                  (low t ts 5 e a.0 3 (omega arith)) (low t ts 5 e a.0 4 (omega arith))
                  (here t ts 5 e a.0))
      ]

  length-unique_from : (t : ℕ) (ts : List ℕ) → length (unique_from h t ts) ≤ suc (length ts)
  unfolding unique_from
  length-unique_from t [] = omega arith
  length-unique_from t (u ∷ us) = elim (Bool-cases (same_ref h t u)) [
    | inl e ↦ rw (e, unique_from) (omega (arith, length-unique_from t us))
    | inr e ↦ rw (e, unique_from) (omega (arith, length-unique_from u us))
  ]

  pub length-unique : (ts : List ℕ) → length (unique h ts) ≤ length ts
  length-unique [] = omega arith
  length-unique (t ∷ ts) = length-unique_from t ts

  pub All-unique : (P : ℕ → Type 0) (ts : List ℕ) → All P ts → All P (unique h ts)
  All-unique P [] a = tt
  All-unique P (t ∷ ts) a = All-unique_from P t ts a.0 a.1

  pub unique-Ascending : (ts : List ℕ) → Ascending ts → Ascending (unique h ts)
  unique-Ascending [] a = tt
  unique-Ascending (t ∷ ts) a = unique_from-Ascending t ts a

  pub length-of_rank : (r : ℕ) (ts : List ℕ) → length (of_rank r ts) ≤ length ts
  unfolding of_rank
  length-of_rank r [] = omega arith
  length-of_rank r (t ∷ ts) = ground (arith, length-of_rank r ts)

  -- Some handle has the id.
  abbrev pub has_id : ℕ → List ℕ → Bool
  has_id k [] = false
  has_id k (t ∷ ts) = (h t).id == k || has_id k ts

  -- No handle stands behind one that the comparison puts behind it.
  abbrev pub Ordered : List ℕ → Type 0
  Ordered [] = Unit
  Ordered (t ∷ ts) = All (λ u. before h u t ≡ false) ts × Ordered ts

  -- Neighbours with an id have different ones.
  abbrev pub NoRepeat : List ℕ → Type 0
  NoRepeat [] = Unit
  NoRepeat (t ∷ []) = Unit
  NoRepeat (t ∷ u ∷ ts) = (((h t).id ≡ 0) ⊎ ((h t).id ≢ (h u).id)) × NoRepeat (u ∷ ts)

  pub Ordered-Ascending : (ts : List ℕ) → Ordered ts → Ascending ts
  Ordered-Ascending [] a = tt
  Ordered-Ascending (t ∷ ts) a = (ranks t ts a.0, Ordered-Ascending ts a.1)
    where
      ranks :
          (t : ℕ) (ts : List ℕ)
          → All (λ u. before h u t ≡ false) ts
          → All (λ u. size_rank h t ≤ size_rank h u) ts
      ranks t [] a = tt
      ranks t (u ∷ us) a = (ground (arith, a.0), ranks t us a.1)

-- What `std::sort` documents: the same handles, in an order of the comparison.
pub record Sorts (sort : Handles → List ℕ → List ℕ) : Type 1 where
  pub all : (h : Handles) (P : ℕ → Type 0) (ts : List ℕ) → All P ts → All P (sort h ts)
  pub ids : (h : Handles) (k : ℕ) (ts : List ℕ) → has_id h k (sort h ts) ≡ has_id h k ts
  pub size : (h : Handles) (ts : List ℕ) → length (sort h ts) ≡ length ts
  pub ordered : (h : Handles) (ts : List ℕ) → Ordered h (sort h ts)
