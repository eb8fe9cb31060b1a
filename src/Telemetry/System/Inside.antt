-- ===== src/Telemetry/System/Inside.antt =====
-- The reads of `TelemetrySystem` (core/src/telemetry.cpp) stay in the block.
use native.Mathlib.Nat.{mul-div-le, mul-le-mul_left, mul-add, mul-suc, mod-le}
use sc_api.Common.{
  ℕ, zero, suc, ◌+◌, ◌-◌, ◌*◌, ◌/◌, ◌%◌, ◌^◌, ◌≤◌, ◌≡◌, refl, sym, ◌∙◌, ap, List, [], ◌∷◌, ◌++◌,
  Option, some, not, ◌>>=◌, Bool, true, false, ◌||◌, length, take, drop, ltb, ◌==◌, min, arith,
  Bool-cases, inl, inr, ==_iff, append-nil,
}
use sc_api.Bytes.{geti32, read_bytes}
use sc_api.Bytes.Laws.{read_bytes-some}
use sc_api.Telemetry.{TelemetryDefinition}
use sc_api.Telemetry.System.{
  TelemetrySystem, read_defs, parse_def, update_to, update_definitions, initialize, attach,
}

-- The definitions are those that stand in the block from the index `i` on.
abbrev pub AreAt : List ℕ → TelemetrySystem → ℕ → List TelemetryDefinition → Type 0
AreAt shm s i [] = Unit
AreAt shm s i (d ∷ ds) =
    ((read_bytes shm (s.defs_start + s.defs_size * i) 47 >>= λ bs. some (parse_def bs)) ≡ some d)
    × AreAt shm s (i + 1) ds

-- The definitions that were read stay, and those that the block has more are behind them.
abbrev pub Extends : List ℕ → TelemetrySystem → ℕ → Option (Bool × TelemetrySystem) → Type 0
Extends shm s count res =
    (new : Bool) × (s' : TelemetrySystem) × (ds : List TelemetryDefinition) × (res ≡ some (new, s'))
    × (s'.cur_defs ≡ s.cur_defs ++ ds)
    × (length ds ≡ min s.max_defs count - length s.cur_defs)
    × AreAt shm s (length s.cur_defs) ds
    × (new ≡ not (length s.cur_defs == min s.max_defs count))

module _ (shm : List ℕ) (s : TelemetrySystem) (wide : 47 ≤ s.defs_size) where
  -- `n` definitions from the index `i` on lie in the block.
  abbrev Inside : ℕ → ℕ → Type 0
  Inside n i = s.defs_start + s.defs_size * (i + n) ≤ length shm

  read_defs-some :
      (n i : ℕ)
      → Inside n i
      → (ds : List TelemetryDefinition) × (read_defs shm s n i ≡ some ds)
        × (length ds ≡ n)
        × AreAt shm s i ds
  unfolding read_defs
  read_defs-some zero i k = ([], refl, refl, tt)
  read_defs-some (suc n) i k =
      let d : ℕ = s.defs_size in
      let e : d * (i + suc n) ≡ d * i + d * suc n = mul-add d i (suc n) in
      let f : d * suc n ≡ d * n + d = mul-suc d n in
      let g : i + 1 + n ≡ i + suc n = omega arith in
      let rest : s.defs_start + d * (i + 1 + n) ≤ length shm = rw g k in
      let room : s.defs_start + d * i + 47 ≤ length shm = omega (arith, e, f) in
      let (ds, q, l, at) = read_defs-some n (i + 1) rest in
      (
        parse_def (take 47 (drop (s.defs_start + d * i) shm)) ∷ ds,
        rw (read_bytes-some shm (s.defs_start + d * i) 47 room, q) refl,
        ap suc l,
        (rw (read_bytes-some shm (s.defs_start + d * i) 47 room) refl, at),
      )

  update_to-Extends :
      (count : ℕ)
      → s.defs_start + s.defs_size * s.max_defs ≤ length shm
      → length s.cur_defs ≤ s.max_defs
      → Extends shm s count (update_to shm s count)
  unfolding update_to
  update_to-Extends count inside few =
      elim (Bool-cases (length s.cur_defs == min s.max_defs count)) [
        | inl e ↦
            let q : length s.cur_defs ≡ min s.max_defs count = (==_iff _ _).0 e in
            (false, s, [], rw e refl, sym (append-nil s.cur_defs), omega arith, tt, rw e refl)
        | inr e ↦
            let i : ℕ = length s.cur_defs in
            let n : ℕ = min s.max_defs count - i in
            let le : i + n ≤ s.max_defs = omega arith in
            let m : s.defs_size * (i + n) ≤ s.defs_size * s.max_defs =
              mul-le-mul_left s.defs_size le in
            let (ds, q, l, at) = read_defs-some n i (omega arith) in
            (
              true,
              record s { cur_defs = s.cur_defs ++ ds },
              ds,
              rw (e, q) refl,
              refl,
              l,
              at,
              rw e refl,
            )
      ]

pub update_definitions-Extends :
    (shm : List ℕ) (s : TelemetrySystem) (count : ℕ)
    → s.attached ≡ true
    → 47 ≤ s.defs_size
    → s.defs_start + s.defs_size * s.max_defs ≤ length shm
    → length s.cur_defs ≤ s.max_defs
    → geti32 shm 20 ≡ some count
    → Extends shm s count (update_definitions shm s)
unfolding update_definitions
update_definitions-Extends shm s count a wide inside few c =
    simp (a, c) (update_to-Extends shm s wide count inside few)

-- `initialize` of a block whose header has an offset inside it and at least 47 bytes for each
-- definition reads nothing outside the block, and takes as many definitions as the block says, but
-- no more than it has room for, when another process leaves the offset as it is until the second read
-- of it; the rest of the block may change between the reads.
pub initialize-inside :
    (shm again last : List ℕ) (s : TelemetrySystem) (data_size defs_offset count : ℕ)
    → geti32 shm 12 ≡ some defs_offset
    → geti32 shm 16 ≡ some data_size
    → geti32 again 12 ≡ some defs_offset
    → geti32 last 20 ≡ some count
    → length last ≡ length shm
    → defs_offset ≤ length shm
    → 47 ≤ data_size
    → (s' : TelemetrySystem) × (initialize shm again last (length shm) s ≡ some s')
      × (length s'.cur_defs ≡ min ((length shm - defs_offset) / data_size % 2 ^ 32) count)
unfolding initialize
initialize-inside shm again last s data_size defs_offset count e f g c whole inside wide =
    let a : TelemetrySystem = attach (length shm) data_size defs_offset defs_offset in
    let ok : (ltb (length shm) defs_offset || ltb data_size 32) ≡ false = ground arith in
    let m : data_size * a.max_defs ≤ data_size * ((length shm - defs_offset) / data_size) =
      mul-le-mul_left data_size (mod-le ((length shm - defs_offset) / data_size) (2 ^ 32)) in
    let d : data_size * ((length shm - defs_offset) / data_size) ≤ length shm - defs_offset =
      mul-div-le (length shm - defs_offset) data_size in
    let (new, s', ds, q, r, l, at, fresh) =
      update_definitions-Extends last a count refl wide (omega arith) (omega arith) c in
    (s', rw (f, e, ok, g, q) refl, ap length r ∙ l ∙ omega arith)
