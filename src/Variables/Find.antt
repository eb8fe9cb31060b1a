-- ===== src/Variables/Find.antt =====
-- The `find` functions of `VariableDefinitions` (core/src/variables.cpp) on a well-formed chunk.
use mathlib.Core.Option
use sc_api.Common.{
  ℕ, zero, suc, ◌+◌, ◌≤◌, ◌<◌, ◌≡◌, refl, ap, List, Bool, Option, none, some, true, false, All,
  length, arith,
}
use sc_api.Types.{ValueType, value_byte_size}
use sc_api.Variables.{
  VariableDefCopy, VariableDefChunk, VariableProvider, get_name, VariableDefinition, find_from,
  find_named, find_typed, named_typed, named, definition_of,
}
use sc_api.Variables.Refresh.{Grown}
use sc_api.Variables.Updates.{IsReady, run_updates, run_updates-IsReady, data_offset}

module _ (test : VariableDefCopy → Bool) where
  -- A longer search that starts alike ends where the shorter one found something.
  find_from-Grown :
      (c c' : VariableDefChunk) (n n' i : ℕ) (d : VariableDefCopy)
      → n ≤ n'
      → ((j : ℕ) → j < i + n → c'.defs j ≡ c.defs j)
      → find_from test c n i ≡ some (some d)
      → find_from test c' n' i ≡ some (some d)
  unfolding find_from
  find_from-Grown c c' zero n' i d le same h = cc
  find_from-Grown c c' (suc n) zero i d le same h = absurd (omega arith)
  find_from-Grown c c' (suc n) (suc n') i d le same h = ground (
    arith,
    same i (omega arith),
    find_from-Grown c c' n n' (i + 1) d (omega arith)
        (λ (j : ℕ) (lt : j < i + 1 + n). same j (omega arith)),
  )

  abbrev pub passes : Option VariableDefCopy → Bool
  passes none = false
  passes (some d) = test d

  -- The first copy from the index `i` to the index `i + n` that passes the test, if there is one.
  abbrev pub FirstMatch : (VariableDefChunk) → ℕ → ℕ → Option VariableDefCopy → Type 0
  FirstMatch c n i none = (j : ℕ) → i ≤ j → j < i + n → passes (c.defs j) ≡ false
  FirstMatch c n i (some d) =
      (k : ℕ) × (i ≤ k)
      × (k < i + n)
      × (c.defs k ≡ some d)
      × (test d ≡ true)
      × ((j : ℕ) → i ≤ j → j < k → passes (c.defs j) ≡ false)

-- A copy with the device, the type and the name that are looked for.
abbrev pub HasKey : ValueType → List ℕ → ℕ → Option VariableDefCopy → Type 0
HasKey type name device none = ⊥
HasKey type name device (some d) =
    (d.device_session_id ≡ device) × (d.type ≡ type) × (get_name d ≡ name)

abbrev pub ptr_at : Option VariableDefCopy → Option ℕ
ptr_at none = none
ptr_at (some d) = d.value_ptr

-- Where the pointer that is looked for points to: nowhere, and no copy that counts has the key; or
-- to the value of the first copy that has it, inside the values' block.
abbrev pub Located : List ℕ → ValueType → List ℕ → ℕ → VariableDefChunk → Option ℕ → Type 0
Located value_shm type name device c none =
    (j : ℕ) → j < c.def_count → ¬ HasKey type name device (c.defs j)
Located value_shm type name device c (some v) =
    (k : ℕ) × (k < c.def_count)
    × HasKey type name device (c.defs k)
    × (ptr_at (c.defs k) ≡ some v)
    × ((j : ℕ) → j < k → ¬ HasKey type name device (c.defs j))
    × (data_offset value_shm + v + value_byte_size type ≤ length value_shm)

find_from-updated :
    (test : VariableDefCopy → Bool) {c c' : VariableDefChunk} (d : VariableDefCopy)
    → Grown c c'
    → find_from test c c.def_count 0 ≡ some (some d)
    → find_from test c' c'.def_count 0 ≡ some (some d)
find_from-updated test {c} {c'} d g h =
    find_from-Grown test c c' c.def_count c'.def_count 0 d g.more (λ j lt. g.kept j (omega arith)) h

found_copy {ℓ} :
    {A : Type ℓ} (f : VariableDefCopy → A) (o : Option (Option VariableDefCopy)) (a : A)
    → Option.map (Option.map f) o ≡ some (some a)
    → (d : VariableDefCopy) × (o ≡ some (some d)) × (f d ≡ a)
found_copy f none a h = absurd cc
found_copy f (some none) a h = absurd cc
found_copy f (some (some d)) a h = (d, refl, cc)

-- A definition that was found stays found, with the same contents, whatever updates follow.
pub finds-updates :
    (shms : List (List ℕ)) (bytes : ℕ) (p : VariableProvider) (c : VariableDefChunk)
    (type : ValueType) (name other : List ℕ) (device : ℕ) (d e : VariableDefinition)
    → All (λ shm. length shm ≡ bytes) shms
    → IsReady bytes p c
    → find_named name device c ≡ some (some d)
    → find_typed other type device c ≡ some (some e)
    → (p' : VariableProvider) × (c' : VariableDefChunk) × (run_updates shms p ≡ some p')
      × (p'.def_chunk ≡ some c')
      × (find_named name device c' ≡ some (some d))
      × (find_typed other type device c' ≡ some (some e))
unfolding find_named find_typed
finds-updates shms bytes p c type name other device d e a r f g =
    let (p', c', ran, r', grown) = run_updates-IsReady shms a r in
    let (x, found, same) = found_copy definition_of _ d f in
    let (y, found', same') = found_copy definition_of _ e g in
    (
      p',
      c',
      ran,
      r'.chunk,
      rw (find_from-updated (named name device) x grown found) (ap (λ k. some (some k)) same),
      rw (find_from-updated (named_typed other type device) y grown found')
          (ap (λ k. some (some k)) same'),
    )
