-- ===== src/Telemetry/Tally.antt =====
-- The first loop of `TelemetryUpdateGroup::configure` (core/src/telemetry.cpp): which handles it
-- collects, and its counters.
use sc_api.Common.{
  ℕ, zero, suc, ◌+◌, ◌%◌, ◌^◌, ◌≤◌, ◌<◌, ◌≡◌, refl, sym, ◌∙◌, ap, List, [], ◌∷◌, ◌++◌, some, true,
  false, length, append-nil, ◌*◌, All, arith, ◌==◌, if◌then◌else◌, Bool-cases, inl, inr,
  append_assoc,
}
use sc_api.Types.{get_base_type}
use sc_api.Telemetry.{
  Handles, rank, size_rank, Entries, base_type_size_index, bump, Counted, count_all,
}
use sc_api.Telemetry.Order.{of_rank, active}

module _ (h : Handles) where
  -- How many handles with an id there are of each rank.
  abbrev pub tally : List ℕ → Entries
  tally ts = record {
    bits = length (of_rank h 1 ts);
    n64 = length (of_rank h 2 ts);
    n32 = length (of_rank h 3 ts);
    n16 = length (of_rank h 4 ts);
    n8 = length (of_rank h 5 ts);
  }

  abbrev pub plus : Entries → Entries → Entries
  plus d e = record {
    bits = d.bits + e.bits;
    n64 = d.n64 + e.n64;
    n32 = d.n32 + e.n32;
    n16 = d.n16 + e.n16;
    n8 = d.n8 + e.n8;
  }

  -- Counters that `n` more handles do not bring to wrap.
  abbrev pub HasRoom : ℕ → Entries → Type 0
  HasRoom n e =
      (e.bits + n < 2 ^ 16)
      × (e.n64 + n < 2 ^ 16)
      × (e.n32 + n < 2 ^ 16)
      × (e.n16 + n < 2 ^ 16)
      × (e.n8 + n < 2 ^ 16)

  count_rank :
      (t : ℕ) (ts : List ℕ) (r : ℕ)
      → length (of_rank h r (t ∷ ts))
        ≡ (if size_rank h t == r then 1 else 0) + length (of_rank h r ts)
  unfolding of_rank
  count_rank t ts r = elim (Bool-cases (size_rank h t == r)) [
    | inl e ↦ rw e (omega arith)
    | inr e ↦ rw e (omega arith)
  ]

  pub Entries-same :
      {a b c d e a' b' c' d' e' : ℕ}
      → a ≡ a'
      → b ≡ b'
      → c ≡ c'
      → d ≡ d'
      → e ≡ e'
      → ◌≡◌ {A = Entries}
          (record { bits = a; n64 = b; n32 = c; n16 = d; n8 = e })
          (record { bits = a'; n64 = b'; n32 = c'; n16 = d'; n8 = e' })
  Entries-same p q r s t = rw (p, q, r, s, t) refl

  one_more :
      (t : ℕ) (ts : List ℕ) (e : Entries) (i : ℕ)
      → size_rank h t ≡ suc i
      → i < 5
      → HasRoom (suc (length ts)) e
      → (plus (bump i e) (tally ts) ≡ plus e (tally (t ∷ ts))) × HasRoom (length ts) (bump i e)
  one_more t ts e zero f k room = (
    Entries-same (ground (arith, f, count_rank t ts 1)) (ground (arith, f, count_rank t ts 2))
        (ground (arith, f, count_rank t ts 3)) (ground (arith, f, count_rank t ts 4))
        (ground (arith, f, count_rank t ts 5)),
    (omega arith, omega arith, omega arith, omega arith, omega arith),
  )
  one_more t ts e (suc zero) f k room = (
    Entries-same (ground (arith, f, count_rank t ts 1)) (ground (arith, f, count_rank t ts 2))
        (ground (arith, f, count_rank t ts 3)) (ground (arith, f, count_rank t ts 4))
        (ground (arith, f, count_rank t ts 5)),
    (omega arith, omega arith, omega arith, omega arith, omega arith),
  )
  one_more t ts e (suc (suc zero)) f k room = (
    Entries-same (ground (arith, f, count_rank t ts 1)) (ground (arith, f, count_rank t ts 2))
        (ground (arith, f, count_rank t ts 3)) (ground (arith, f, count_rank t ts 4))
        (ground (arith, f, count_rank t ts 5)),
    (omega arith, omega arith, omega arith, omega arith, omega arith),
  )
  one_more t ts e (suc (suc (suc zero))) f k room = (
    Entries-same (ground (arith, f, count_rank t ts 1)) (ground (arith, f, count_rank t ts 2))
        (ground (arith, f, count_rank t ts 3)) (ground (arith, f, count_rank t ts 4))
        (ground (arith, f, count_rank t ts 5)),
    (omega arith, omega arith, omega arith, omega arith, omega arith),
  )
  one_more t ts e (suc (suc (suc (suc zero)))) f k room = (
    Entries-same (ground (arith, f, count_rank t ts 1)) (ground (arith, f, count_rank t ts 2))
        (ground (arith, f, count_rank t ts 3)) (ground (arith, f, count_rank t ts 4))
        (ground (arith, f, count_rank t ts 5)),
    (omega arith, omega arith, omega arith, omega arith, omega arith),
  )
  one_more t ts e (suc (suc (suc (suc (suc i))))) f k room = absurd (omega arith)

  -- A handle whose type has a size.
  abbrev pub HasIndex : ℕ → Type 0
  HasIndex t = (i : ℕ) × (base_type_size_index (get_base_type (h t).type) ≡ some i) × (i < 5)

  tally-nil : (e : Entries) → e ≡ plus e (tally [])
  unfolding of_rank
  tally-nil e = Entries-same (omega arith) (omega arith) (omega arith) (omega arith) (omega arith)

  count_all-skip :
      (t : ℕ) (ts : List ℕ) (c : Counted)
      → ((h t).id == 0) ≡ true
      → count_all h (t ∷ ts) c ≡ count_all h ts c
  unfolding count_all
  count_all-skip t ts c e = rw (e, count_all) refl

  abbrev counted_one : ℕ → ℕ → Counted → Counted
  counted_one t i c = record {
    bufs = c.bufs ++ (t ∷ []);
    counts = bump i c.counts;
    register_payload_size = (c.register_payload_size + 2) % 2 ^ 32;
  }

  count_all-take :
      (t : ℕ) (ts : List ℕ) (c : Counted) (i : ℕ)
      → ((h t).id == 0) ≡ false
      → base_type_size_index (get_base_type (h t).type) ≡ some i
      → count_all h (t ∷ ts) c ≡ count_all h ts (counted_one t i c)
  unfolding count_all
  count_all-take t ts c i e f = rw (e, f, count_all) refl

  abbrev pub counted : Counted → List ℕ → Counted
  counted c ts = record {
    bufs = c.bufs ++ ts;
    counts = plus c.counts (tally ts);
    register_payload_size = c.register_payload_size + 2 * length ts;
  }

  counted-same :
      {bs bs' : List ℕ} {d d' : Entries} {n n' : ℕ}
      → bs ≡ bs'
      → d ≡ d'
      → n ≡ n'
      → ◌≡◌ {A = Counted}
          (record { bufs = bs; counts = d; register_payload_size = n })
          (record { bufs = bs'; counts = d'; register_payload_size = n' })
  counted-same p q r = rw (p, q, r) refl

  pub length-active : (ts : List ℕ) → length (active h ts) ≤ length ts
  unfolding active
  length-active [] = omega arith
  length-active (t ∷ ts) = ground (arith, length-active ts)

  HasRoom-less : (n m : ℕ) (e : Entries) → m ≤ n → HasRoom n e → HasRoom m e
  HasRoom-less n m e k room = (omega arith, omega arith, omega arith, omega arith, omega arith)

  active-skip : (t : ℕ) (ts : List ℕ) → ((h t).id == 0) ≡ true → active h (t ∷ ts) ≡ active h ts
  unfolding active
  active-skip t ts e = rw e refl

  active-take :
      (t : ℕ) (ts : List ℕ) → ((h t).id == 0) ≡ false → active h (t ∷ ts) ≡ t ∷ active h ts
  unfolding active
  active-take t ts e = rw e refl

  -- The first loop of `configure` collects the handles with an id and counts them by size.
  pub count_all-lem :
      (ts : List ℕ) (c : Counted)
      → All HasIndex ts
      → HasRoom (length ts) c.counts
      → c.register_payload_size + 2 * length ts < 2 ^ 32
      → count_all h ts c ≡ some (counted c (active h ts))
  unfolding count_all active
  count_all-lem [] c a room k =
      ap some (counted-same (sym (append-nil c.bufs)) (tally-nil c.counts) (omega arith))
  count_all-lem (t ∷ ts) c a room k = elim (Bool-cases ((h t).id == 0)) [
    | inl e ↦
        count_all-skip t ts c e
        ∙ count_all-lem ts c a.1
            (HasRoom-less (suc (length ts)) (length ts) c.counts (omega arith) room) (omega arith)
        ∙ ap (λ l. some (counted c l)) (sym (active-skip t ts e))
    | inr e ↦
        let (i, f, lt) = a.0 in
        let rank_lem : size_rank h t ≡ suc i = ap rank f in
        let one = one_more t ts c.counts i rank_lem lt room in
        let n = length-active ts in
        count_all-take t ts c i e f
        ∙ count_all-lem ts (counted_one t i c) a.1 one.1 (omega arith)
        ∙ ap some (
            counted-same (append_assoc c.bufs (t ∷ []) (active h ts))
              (one_more t (active h ts) c.counts i rank_lem lt (
                HasRoom-less (suc (length ts)) (suc (length (active h ts))) c.counts (omega arith)
                  room)).0
              (omega arith))
        ∙ ap (λ l. some (counted c l)) (sym (active-take t ts e))
  ]
