-- ===== src/Variables.antt =====
-- `VariableProvider` and `VariableDefinitions` of core/src/variables.cpp and
-- core/src/variables_internal.h: the definitions of the shared variables are copied from a block of
-- shared memory (core/inc/sc-api/core/protocol/variables.h), and searched. The block is a list of
-- bytes, as it stands at the time of a call; an access outside a buffer, through a null pointer or
-- to a copy that was never made has no result (`none`).
pub mod Search
pub mod Refresh
pub mod Updates
pub mod Find
mod Tests
use mathlib.Core.Option
use sc_api.Common.{
  ℕ, zero, suc, ◌+◌, ◌-◌, ◌*◌, ◌/◌, ◌%◌, ◌^◌, min, List, [], ◌∷◌, ◌++◌, Option, none, some, Bool,
  true, false, not, ◌&&◌, ◌||◌, length, get_elem?, take, drop, ltb, leb, ◌==◌, if◌then◌else◌, ◌>>=◌,
}
use sc_api.Bytes.{geti32, of_le, read_bytes}
use sc_api.Types.{ValueType, make_type, value_byte_size, same_type}

-- `SC_API_PROTOCOL_VariableDefinition_t`, 64 bytes
pub record RawDefinition : Type 0 where
  pub flags : ℕ
  pub type : ℕ
  pub type_variant_data : ℕ
  pub value_offset : ℕ
  pub device_session_id : ℕ
  pub name : List ℕ

abbrev pub definition_bytes : ℕ
definition_bytes = 64

abbrev pub name_bytes : ℕ
name_bytes = 50

abbrev field : ℕ → ℕ → List ℕ → ℕ
field off n bs = of_le (take n (drop off bs))

unfoldable pub raw_definition : List ℕ → RawDefinition
raw_definition bs = record {
  flags = field 0 4 bs;
  type = field 4 2 bs;
  type_variant_data = field 6 2 bs;
  value_offset = field 8 4 bs;
  device_session_id = field 12 2 bs;
  name = take name_bytes (drop 14 bs);
}

unfoldable pub read_definition : List ℕ → ℕ → Option RawDefinition
unfolding raw_definition read_bytes
read_definition shm off = Option.map raw_definition (read_bytes shm off definition_bytes)

-- `VariableDefCopy`. A value is pointed to by its offset from the start of the values; null is
-- `none`.
pub record VariableDefCopy : Type 0 where
  pub value_ptr : Option ℕ
  pub type : ValueType
  pub flags : ℕ
  pub device_session_id : ℕ
  pub name : List ℕ

-- The text in front of the first zero byte.
unfoldable pub c_string : List ℕ → List ℕ
c_string [] = []
c_string (b ∷ bs) = if b == 0 then [] else b ∷ c_string bs

abbrev pub get_name : VariableDefCopy → List ℕ
get_name d = c_string d.name

-- `operator<` of `std::string_view`
unfoldable pub text_lt : List ℕ → List ℕ → Bool
text_lt [] [] = false
text_lt [] (y ∷ ys) = true
text_lt (x ∷ xs) [] = false
text_lt (x ∷ xs) (y ∷ ys) = if ltb x y then true else if ltb y x then false else text_lt xs ys

-- `operator==` of `std::string_view`
unfoldable pub same_text : List ℕ → List ℕ → Bool
same_text [] [] = true
same_text [] (y ∷ ys) = false
same_text (x ∷ xs) [] = false
same_text (x ∷ xs) (y ∷ ys) = x == y && same_text xs ys

unfoldable pub search_map_sort_cmp : VariableDefCopy → VariableDefCopy → Bool
search_map_sort_cmp a b =
    if ltb a.device_session_id b.device_session_id
    then true
    else if ltb b.device_session_id a.device_session_id
    then false
    else text_lt (get_name a) (get_name b)

-- The copies by their index, over all chunks; `none` was never written.
abbrev pub Copies : Type 0
Copies = ℕ → Option VariableDefCopy

abbrev pub put_copy : Copies → ℕ → VariableDefCopy → Copies
put_copy defs n d = λ i. if i == n then some d else defs i

-- `VariableDefChunk`. The pointers of `search_map` are indices of copies.
pub record VariableDefChunk : Type 0 where
  pub variable_values_max_data_size : ℕ
  pub defs : Copies
  pub def_count : ℕ
  pub processed_def_count : ℕ
  pub search_map : List ℕ

-- `k_definitions_in_chunk` times `k_chunk_count`
abbrev pub max_copies : ℕ
max_copies = 1024 * 32

abbrev pub get_def_by_idx : VariableDefChunk → ℕ → Option VariableDefCopy
get_def_by_idx c idx = c.defs idx

abbrev pub before_copy : Option VariableDefCopy → Option VariableDefCopy → Bool
before_copy none b = false
before_copy (some a) none = false
before_copy (some a) (some b) = search_map_sort_cmp a b

-- `std::lower_bound` on a range in order: the index of the first entry that is not before `var`.
unfoldable pub lower_bound : Copies → List ℕ → ℕ → ℕ
lower_bound defs [] var = 0
lower_bound defs (u ∷ us) var =
    if before_copy (defs u) (defs var) then suc (lower_bound defs us var) else 0

-- `std::vector::insert` at an index.
unfoldable pub insert_at : List ℕ → ℕ → ℕ → List ℕ
insert_at us zero var = var ∷ us
insert_at [] (suc i) var = var ∷ []
insert_at (u ∷ us) (suc i) var = u ∷ insert_at us i var

-- `memcpy` of the name, with a zero byte as its last.
abbrev pub terminated : List ℕ → List ℕ
terminated name = take (name_bytes - 1) name ++ 0 ∷ []

-- The value pointer that a copy's place has from before.
abbrev pub old_ptr : Option VariableDefCopy → Option ℕ
old_ptr none = none
old_ptr (some d) = d.value_ptr

abbrev pub copy_of : RawDefinition → Option ℕ → VariableDefCopy
copy_of def ptr = record {
  value_ptr = ptr;
  type = make_type def.type def.type_variant_data;
  flags = def.flags;
  device_session_id = def.device_session_id;
  name = terminated def.name;
}

-- `copy_definition`: the index of the copy, or null for a value out of bounds, whose copy is left
-- behind the counted ones.
unfoldable pub copy_definition :
    RawDefinition → VariableDefChunk → Option (Option ℕ × VariableDefChunk)
copy_definition def c =
    if leb max_copies c.def_count
    then none
    else if ltb c.variable_values_max_data_size
        (def.value_offset + value_byte_size (make_type def.type def.type_variant_data))
    then some (
      none,
      record c { defs = put_copy c.defs c.def_count (copy_of def (old_ptr (c.defs c.def_count))) },
    )
    else some (
      some c.def_count,
      record c {
        defs = put_copy c.defs c.def_count (copy_of def (some def.value_offset));
        def_count = c.def_count + 1;
      },
    )

abbrev pub add_to_search_map : Option ℕ × VariableDefChunk → VariableDefChunk
add_to_search_map (none, c) = c
add_to_search_map (some var, c) = record c {
  search_map = insert_at c.search_map (lower_bound c.defs c.search_map var) var;
}

-- A round of the loop of `refreshDefinitions`
unfoldable pub add_definition : RawDefinition → VariableDefChunk → Option VariableDefChunk
unfolding copy_definition lower_bound insert_at
add_definition def c =
    Option.map add_to_search_map
      (copy_definition def (record c { processed_def_count = c.processed_def_count + 1 }))

-- The fields of `VariableProvider`; `variable_defs_start` is an offset in the block.
pub record VariableProvider : Type 0 where
  pub def_chunk : Option VariableDefChunk
  pub variable_defs_start : ℕ
  pub variable_def_size : ℕ
  pub max_variable_def_count : ℕ

-- The loop, from the index `i` on.
unfoldable pub refresh_loop :
    List ℕ → VariableProvider → ℕ → ℕ → VariableDefChunk → Option VariableDefChunk
refresh_loop shm p zero i c = some c
refresh_loop shm p (suc rounds) i c =
    read_definition shm (p.variable_defs_start + p.variable_def_size * i) >>= λ def.
    add_definition def c >>= λ c'. refresh_loop shm p rounds (i + 1) c'

-- `refreshDefinitions`, and `updateDefinitions` with the mutex held.
unfoldable pub refresh_definitions : List ℕ → VariableProvider → Option (Bool × VariableProvider)
refresh_definitions shm p = do
  c ← p.def_chunk
  shm_count ← geti32 shm 20
  let var_def_count = min shm_count p.max_variable_def_count
  c' ← refresh_loop shm p (var_def_count - c.processed_def_count) c.processed_def_count c
  some (ltb c.processed_def_count var_def_count, record p { def_chunk = some c' })

abbrev pub empty_chunk : ℕ → VariableDefChunk
empty_chunk max_data = record {
  variable_values_max_data_size = max_data;
  defs = λ i. none;
  def_count = 0;
  processed_def_count = 0;
  search_map = [];
}

-- `initialize` of a provider that had no block before; a size of 0 is divided by.
unfoldable pub initialize_variables : List ℕ → List ℕ → Option VariableProvider
initialize_variables def_shm value_shm = do
  def_size ← geti32 def_shm 16
  def_offset ← geti32 def_shm 12
  data_offset ← geti32 value_shm 12
  let start : VariableProvider = record {
    def_chunk = none;
    variable_defs_start = 0;
    variable_def_size = def_size;
    max_variable_def_count = 0;
  }
  if leb (length def_shm) def_offset || leb (length value_shm) data_offset
      then some start
      else if def_size == 0
      then none
      else Option.map (λ r. r.1)
          (refresh_definitions def_shm (record start {
            def_chunk = some (empty_chunk ((length def_shm + 2 ^ 64 - data_offset) % 2 ^ 32));
            variable_defs_start = def_offset;
            max_variable_def_count = (length def_shm - def_offset) / def_size % 2 ^ 32;
          }))

-- `VariableDefinition`, whose flags are `uint16_t`
pub record VariableDefinition : Type 0 where
  pub name : List ℕ
  pub value_ptr : Option ℕ
  pub type : ValueType
  pub flags : ℕ
  pub device_session_id : ℕ

abbrev pub definition_of : VariableDefCopy → VariableDefinition
definition_of d = record {
  name = get_name d;
  value_ptr = d.value_ptr;
  type = d.type;
  flags = d.flags % 2 ^ 16;
  device_session_id = d.device_session_id;
}

-- The loop of the `find` functions, from the index `i` on: the first copy that passes the test.
unfoldable pub find_from :
    (VariableDefCopy → Bool) → VariableDefChunk → ℕ → ℕ → Option (Option VariableDefCopy)
find_from test c zero i = some none
find_from test c (suc rounds) i = elim (get_def_by_idx c i) [
  | none ↦ none
  | some d ↦ elim (test d) [ true ↦ some (some d) | false ↦ find_from test c rounds (i + 1) ]
]

abbrev pub named : List ℕ → ℕ → VariableDefCopy → Bool
named name device d = d.device_session_id == device && same_text (get_name d) name

abbrev pub named_typed : List ℕ → ValueType → ℕ → VariableDefCopy → Bool
named_typed name type device d =
    d.device_session_id == device && same_type d.type type && same_text (get_name d) name

-- `find(name, device_session_id)`
unfoldable pub find_named : List ℕ → ℕ → VariableDefChunk → Option (Option VariableDefinition)
find_named name device c =
    Option.map (Option.map definition_of) (find_from (named name device) c c.def_count 0)

-- `find(name, type, device_session_id)`
unfoldable pub find_typed :
    List ℕ → ValueType → ℕ → VariableDefChunk → Option (Option VariableDefinition)
find_typed name type device c =
    Option.map (Option.map definition_of) (find_from (named_typed name type device) c c.def_count 0)

abbrev ptr_of : Option VariableDefCopy → Option ℕ
ptr_of none = none
ptr_of (some d) = d.value_ptr

-- `findValuePointer`
unfoldable pub find_value_pointer : ValueType → List ℕ → ℕ → VariableDefChunk → Option (Option ℕ)
find_value_pointer type name device c =
    Option.map ptr_of (find_from (named_typed name type device) c c.def_count 0)

-- `haveDefinitionsChanged`, with whether the two point to the same chunk, and the count of the
-- `VariableDefinitions`.
unfoldable pub have_definitions_changed : Bool → ℕ → Option VariableDefChunk → Bool
have_definitions_changed false count c = true
have_definitions_changed true count none = not (count == 0)
have_definitions_changed true count (some c) = not (count == c.def_count)

-- `VariableDefinitions::definitions()`: the count, which a null chunk does not have.
unfoldable pub definitions : VariableProvider → Option (ℕ × VariableDefChunk)
definitions p = Option.map (λ (c : VariableDefChunk). (c.def_count, c)) p.def_chunk

-- `operator[]`, whose assert on the index is compiled out.
unfoldable pub definition_at : ℕ → VariableDefChunk → Option VariableDefinition
definition_at idx c = Option.map definition_of (get_def_by_idx c idx)
