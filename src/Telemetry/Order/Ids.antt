-- ===== src/Telemetry/Order/Ids.antt =====
-- The ids of the handles behind `std::unique` in `TelemetryUpdateGroup::configure`
-- (core/src/telemetry.cpp): none is lost, and neighbours differ.
use sc_api.Common.{
  Bool, ◌||◌, ℕ, ◌≡◌, ◌≢◌, refl, ◌∙◌, ap, List, [], ◌∷◌, true, false, arith, ◌==◌, Bool-cases, inl,
  inr, ◌⊎◌,
}
use sc_api.Telemetry.{Handles, same_ref, unique_from, unique}
use sc_api.Telemetry.Order.{has_id, NoRepeat, active}

module _ (h : Handles) where
  same_ref-id : (t u : ℕ) → same_ref h t u ≡ true → (h t).id ≡ (h u).id
  same_ref-id t u e = ground arith

  has_id-unique_from :
      (k t : ℕ) (ts : List ℕ) → has_id h k (unique_from h t ts) ≡ has_id h k (t ∷ ts)
  unfolding unique_from
  has_id-unique_from k t [] = refl
  has_id-unique_from k t (u ∷ us) = elim (Bool-cases (same_ref h t u)) [
    | inl e ↦
        rw (e, unique_from)
          (has_id-unique_from k t us
            ∙ drop_same ((h t).id == k) ((h u).id == k) (has_id h k us)
                (ap (λ i. i == k) (same_ref-id t u e)))
    | inr e ↦ rw (e, unique_from) (ap (λ b. (h t).id == k || b) (has_id-unique_from k u us))
  ]
    where
      drop_same : (a b c : Bool) → a ≡ b → (a || c) ≡ (a || (b || c))
      drop_same true b c e = refl
      drop_same false true c e = absurd (cc)
      drop_same false false c e = refl

  pub has_id-unique : (k : ℕ) (ts : List ℕ) → has_id h k (unique h ts) ≡ has_id h k ts
  has_id-unique k [] = refl
  has_id-unique k (t ∷ ts) = has_id-unique_from k t ts

  pub has_id-active : (k : ℕ) (ts : List ℕ) → k ≢ 0 → has_id h k (active h ts) ≡ has_id h k ts
  unfolding active
  has_id-active k [] n = refl
  has_id-active k (t ∷ ts) n = elim (Bool-cases ((h t).id == 0)) [
    | inl e ↦
        let other : ((h t).id == k) ≡ false = ground arith in rw (e, other) (has_id-active k ts n)
    | inr e ↦ rw e (ap (λ b. (h t).id == k || b) (has_id-active k ts n))
  ]

  unique_from-NoRepeat : (t : ℕ) (ts : List ℕ) → NoRepeat h (unique_from h t ts)
  unfolding unique_from
  unique_from-NoRepeat t [] = tt
  unique_from-NoRepeat t (u ∷ us) = elim (Bool-cases (same_ref h t u)) [
    | inl e ↦ rw (e, unique_from) (unique_from-NoRepeat t us)
    | inr e ↦ rw (e, unique_from) (next t u us (differ t u e) (unique_from-NoRepeat u us))
  ]
    where
      differ : (t u : ℕ) → same_ref h t u ≡ false → ((h t).id ≡ 0) ⊎ ((h t).id ≢ (h u).id)
      differ t u e = elim (Bool-cases ((h t).id == 0)) [
        | inl f ↦ inl (ground arith)
        | inr f ↦ inr (λ g. absurd (ground arith))
      ]

      next :
          (t u : ℕ) (us : List ℕ)
          → ((h t).id ≡ 0) ⊎ ((h t).id ≢ (h u).id)
          → NoRepeat h (unique_from h u us)
          → NoRepeat h (t ∷ unique_from h u us)
      next t u [] d a = (d, tt)
      next t u (v ∷ us) d a = elim (Bool-cases (same_ref h u v)) [
        | inl e ↦
            let rest : unique_from h u (v ∷ us) ≡ unique_from h u us = rw (e, unique_from) refl in
            rw rest (next t u us d (rw rest at a))
        | inr e ↦
            let rest : unique_from h u (v ∷ us) ≡ u ∷ unique_from h v us =
              rw (e, unique_from) refl in
            rw rest (d, rw rest at a)
      ]

  pub unique-NoRepeat : (ts : List ℕ) → NoRepeat h (unique h ts)
  unique-NoRepeat [] = tt
  unique-NoRepeat (t ∷ ts) = unique_from-NoRepeat t ts
