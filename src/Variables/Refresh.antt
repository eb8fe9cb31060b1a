-- ===== src/Variables/Refresh.antt =====
-- `refreshDefinitions` (core/src/variables.cpp): every update returns and keeps the copies and the
-- search map well formed.
use sc_api.Common.{
  ℕ, zero, suc, ◌+◌, ◌-◌, ◌*◌, ◌≤◌, ◌<◌, ◌≡◌, refl, ◌∙◌, ap, min, List, [], Bool, Option, none,
  some, false, All, length, get_elem?, take, drop, arith, ltb, leb, ◌==◌, if◌then◌else◌, Bool-cases,
  inl, inr, length-take, length-drop, get_elem?-append, All-weaken, le→leb,
}
use sc_api.Bytes.{geti32, of_le}
use sc_api.Bytes.Laws.{geti32-some}
use sc_api.Types.{make_type, value_byte_size}
use sc_api.Variables.{
  RawDefinition, VariableDefCopy, VariableDefChunk, VariableProvider, read_definition,
  raw_definition, definition_bytes, copy_definition, add_definition, refresh_loop,
  refresh_definitions, put_copy, copy_of, terminated, max_copies, old_ptr,
}
use sc_api.Variables.Search.{
  IsSorted, occurs, insert_sorted, occurs-insert_sorted, All-insert_sorted, insert-IsSorted,
  put_copy-IsSorted,
}

-- A written copy whose name ends in a zero byte and whose value lies in so many bytes.
abbrev pub IsCopy : ℕ → Option VariableDefCopy → Type 0
IsCopy max_data none = ⊥
IsCopy max_data (some d) =
    (get_elem? d.name 49 ≡ some 0)
    × ((v : ℕ) × (d.value_ptr ≡ some v) × (v + value_byte_size d.type ≤ max_data))

pub record IsWellFormed (c : VariableDefChunk) : Type 0 where
  pub written : (i : ℕ) → i < c.def_count → IsCopy c.variable_values_max_data_size (c.defs i)
  pub counted : c.def_count ≤ c.processed_def_count
  pub within : All (λ i. i < c.def_count) c.search_map
  pub sorted : IsSorted c.defs c.search_map
  pub complete : (i : ℕ) → occurs i c.search_map ≡ (if ltb i c.def_count then 1 else 0)

terminated_last : (name : List ℕ) → length name ≡ 50 → get_elem? (terminated name) 49 ≡ some 0
terminated_last name h =
    get_elem?-append (take 49 name) [] 0 49 (omega (arith, length-take 49 name))

-- What a call leaves of the chunk as it is.
pub record Grown (c c' : VariableDefChunk) : Type 0 where
  pub limit : c'.variable_values_max_data_size ≡ c.variable_values_max_data_size
  pub more : c.def_count ≤ c'.def_count
  pub kept : (i : ℕ) → i < c.def_count → c'.defs i ≡ c.defs i

-- The chunk after a definition whose value is out of bounds, and after one that is taken.
abbrev rejected : RawDefinition → VariableDefChunk → VariableDefChunk
rejected def c = record c {
  processed_def_count = c.processed_def_count + 1;
  defs = put_copy c.defs c.def_count (copy_of def (old_ptr (c.defs c.def_count)));
}

abbrev accepted : RawDefinition → VariableDefChunk → VariableDefChunk
accepted def c =
    let defs = put_copy c.defs c.def_count (copy_of def (some def.value_offset)) in
    record c {
      processed_def_count = c.processed_def_count + 1;
      defs = defs;
      def_count = c.def_count + 1;
      search_map = insert_sorted defs c.search_map c.def_count;
    }

module _ (c : VariableDefChunk) (w : IsWellFormed c) where
  put_kept :
      (d : VariableDefCopy) (i : ℕ) → i < c.def_count → put_copy c.defs c.def_count d i ≡ c.defs i
  put_kept d i h = ground arith

  rejected-IsWellFormed : (def : RawDefinition) → IsWellFormed (rejected def c)
  rejected-IsWellFormed def =
      let d = copy_of def (old_ptr (c.defs c.def_count)) in
      record {
        written = λ i h. rw (put_kept d i h) (w.written i h);
        counted = omega (arith, w.counted);
        within = w.within;
        sorted = put_copy-IsSorted c.defs c.def_count d c.search_map w.within w.sorted;
        complete = w.complete;
      }

  accepted_written :
      (def : RawDefinition)
      → length def.name ≡ 50
      → def.value_offset + value_byte_size (make_type def.type def.type_variant_data)
        ≤ c.variable_values_max_data_size
      → (i : ℕ) → i < c.def_count + 1
      → IsCopy c.variable_values_max_data_size
          (put_copy c.defs c.def_count (copy_of def (some def.value_offset)) i)
  accepted_written def l fits i h =
      let d = copy_of def (some def.value_offset) in
      elim (Bool-cases (i == c.def_count)) [
        | inl e ↦ rw e (terminated_last def.name l, (def.value_offset, refl, fits))
        | inr e ↦ rw e (w.written i (ground arith))
      ]

  accepted-IsWellFormed :
      (def : RawDefinition)
      → length def.name ≡ 50
      → def.value_offset + value_byte_size (make_type def.type def.type_variant_data)
        ≤ c.variable_values_max_data_size
      → IsWellFormed (accepted def c)
  accepted-IsWellFormed def l fits =
      let n = c.def_count in
      let d = copy_of def (some def.value_offset) in
      let defs = put_copy c.defs n d in
      record {
        written = accepted_written def l fits;
        counted = omega (arith, w.counted);
        within =
            All-insert_sorted (λ i. i < n + 1) defs n c.search_map (omega arith)
              (All-weaken (λ i. i < n) (λ i. i < n + 1) (λ i h. omega (arith, h)) c.search_map
                w.within);
        sorted =
            insert-IsSorted defs n c.search_map
              (put_copy-IsSorted c.defs n d c.search_map w.within w.sorted);
        complete = λ i.
            occurs-insert_sorted defs i n c.search_map
            ∙ ap (λ (k : ℕ). (if n == i then 1 else 0) + k) (w.complete i)
            ∙ ground arith;
      }

  -- A definition is added, or left out because its value is out of bounds.
  add_definition-IsWellFormed :
      (def : RawDefinition)
      → length def.name ≡ 50
      → c.def_count < max_copies
      → (c' : VariableDefChunk) × (add_definition def c ≡ some c')
        × IsWellFormed c'
        × Grown c c'
        × (c'.processed_def_count ≡ c.processed_def_count + 1)
        × (c'.def_count ≤ c.def_count + 1)
  unfolding add_definition
  add_definition-IsWellFormed def l h =
      let size = def.value_offset + value_byte_size (make_type def.type def.type_variant_data) in
      let room : leb max_copies c.def_count ≡ false = ground arith in
      elim (Bool-cases (ltb c.variable_values_max_data_size size)) [
        | inl e ↦ (
          rejected def c,
          rw (room, copy_definition) (rw e refl),
          rejected-IsWellFormed def,
          record {
            limit = refl;
            more = omega arith;
            kept = put_kept (copy_of def (old_ptr (c.defs c.def_count)));
          },
          refl,
          omega arith,
        )
        | inr e ↦ (
          accepted def c,
          rw (room, copy_definition) (rw e refl),
          accepted-IsWellFormed def l (ground arith),
          record {
            limit = refl;
            more = omega arith;
            kept = put_kept (copy_of def (some def.value_offset));
          },
          refl,
          omega arith,
        )
      ]

-- The block has so many bytes, and room for the definitions that the provider may read.
pub record Serves (bytes : ℕ) (p : VariableProvider) : Type 0 where
  pub header : 24 ≤ bytes
  pub size : definition_bytes ≤ p.variable_def_size
  pub inside : p.variable_defs_start + p.variable_def_size * p.max_variable_def_count ≤ bytes
  pub few : p.max_variable_def_count ≤ max_copies

next_le : (s i m : ℕ) → i < m → s * i + s ≤ s * m
next_le s i zero h = elim h [ ]
next_le s zero (suc m) h = grind arith
next_le s (suc i) (suc m) h = omega (arith, next_le s i m (omega arith), mul_suc s i, mul_suc s m)
  where
    mul_suc : (a b : ℕ) → a * suc b ≡ a * b + a
    mul_suc a b = grind arith

read_definition-some :
    (shm : List ℕ) (off : ℕ)
    → off + definition_bytes ≤ length shm
    → (def : RawDefinition) × (read_definition shm off ≡ some def) × (length def.name ≡ 50)
unfolding read_definition raw_definition
read_definition-some shm off h =
    let bs = take definition_bytes (drop off shm) in
    (
      raw_definition bs,
      rw (le→leb (off + definition_bytes) (length shm) h) refl,
      length-take 50 (drop 14 bs)
          ∙ omega (
            arith,
            length-drop 14 bs,
            length-take definition_bytes (drop off shm),
            length-drop off shm,
          ),
    )

pub Grown-trans : {a b c : VariableDefChunk} → Grown a b → Grown b c → Grown a c
Grown-trans g h = record {
  limit = h.limit ∙ g.limit;
  more = omega (arith, g.more, h.more);
  kept = λ i lt. h.kept i (omega (arith, g.more)) ∙ g.kept i lt;
}

refresh_definitions-some :
    (shm : List ℕ) (p : VariableProvider) (c c' : VariableDefChunk) (n : ℕ)
    → p.def_chunk ≡ some c
    → geti32 shm 20 ≡ some n
    → refresh_loop shm p
        (min n p.max_variable_def_count - c.processed_def_count)
        c.processed_def_count
        c
      ≡ some c'
    → refresh_definitions shm p
      ≡ some (
        ltb c.processed_def_count (min n p.max_variable_def_count),
        record p { def_chunk = some c' },
      )
unfolding refresh_definitions
refresh_definitions-some shm p c c' n e f g = simp (e, f, g)

module _ (shm : List ℕ) (p : VariableProvider) (s : Serves (length shm) p) where
  refresh_loop-IsWellFormed :
      (rounds i : ℕ) (c : VariableDefChunk)
      → i + rounds ≤ p.max_variable_def_count
      → IsWellFormed c
      → c.processed_def_count ≡ i
      → (c' : VariableDefChunk) × (refresh_loop shm p rounds i c ≡ some c')
        × IsWellFormed c'
        × Grown c c'
        × (c'.processed_def_count ≡ i + rounds)
  unfolding refresh_loop
  refresh_loop-IsWellFormed zero i c h w e = (
    c,
    refl,
    w,
    record { limit = refl; more = omega arith; kept = λ i h. refl },
    omega (arith, e),
  )
  refresh_loop-IsWellFormed (suc rounds) i c h w e =
      let off = p.variable_defs_start + p.variable_def_size * i in
      let near = next_le p.variable_def_size i p.max_variable_def_count (omega arith) in
      let (def, read, named) =
        read_definition-some shm off (omega (arith, near, s.size, s.inside)) in
      let (c1, added, w1, g1, e1, few) =
        add_definition-IsWellFormed c w def named (omega (arith, w.counted, e, s.few)) in
      let (c2, looped, w2, g2, e2) =
        refresh_loop-IsWellFormed rounds (i + 1) c1 (omega arith) w1 (omega (arith, e, e1)) in
      (c2, rw (read, added) looped, w2, Grown-trans g1 g2, omega (arith, e2))

  -- What a call gives: the chunk goes on from the one before.
  pub refresh_definitions-IsWellFormed :
      (c : VariableDefChunk)
      → p.def_chunk ≡ some c
      → IsWellFormed c
      → c.processed_def_count ≤ p.max_variable_def_count
      → (c' : VariableDefChunk) × (new_defs : Bool) × (refresh_definitions shm p
          ≡ some (new_defs, record p { def_chunk = some c' }))
        × IsWellFormed c'
        × Grown c c'
        × (c'.processed_def_count ≤ p.max_variable_def_count)
  refresh_definitions-IsWellFormed c e w h =
      let count = min (of_le (take 4 (drop 20 shm))) p.max_variable_def_count in
      let (c', looped, w', g, done) =
        refresh_loop-IsWellFormed (count - c.processed_def_count) c.processed_def_count c
          (omega arith) w refl in
      (
        c',
        ltb c.processed_def_count count,
        refresh_definitions-some shm p c c' _ e (geti32-some shm 20 (omega (arith, s.header)))
            looped,
        w',
        g,
        omega (arith, done),
      )
