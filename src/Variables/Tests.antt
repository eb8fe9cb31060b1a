-- ===== src/Variables/Tests.antt =====
-- Runs of the shared variables' definitions, and the theorems at two small blocks.
use mathlib.Core.Option
use sc_api.Common.{
  ℕ, zero, suc, ◌==◌, if◌then◌else◌, ◌<◌, ◌≡◌, refl, List, [], ◌∷◌, ◌++◌, Option, none, some, Bool,
  true, false, replicate, arith, ◌>>=◌,
}
use sc_api.Bytes.{of_le, le_bytes, geti32, read_bytes}
use sc_api.Types.{base, i32, value_byte_size}
use sc_api.Variables.{
  VariableProvider, VariableDefChunk, initialize_variables, find_named, find_typed,
  refresh_definitions, refresh_loop, read_definition, raw_definition, add_definition,
  copy_definition, lower_bound, insert_at, c_string, same_text, text_lt, search_map_sort_cmp,
  find_from, have_definitions_changed, VariableDefCopy, definition_of,
}
use sc_api.Variables.Refresh.{IsWellFormed, IsCopy}
use sc_api.Variables.Search.{occurs}
use sc_api.Variables.Updates.{IsReady, run_updates}
use sc_api.Variables.Find.{finds-updates}

-- A block with two definitions, `b` and `a` of the device 7, of which so many are announced.
abbrev definition : ℕ → ℕ → List ℕ
definition letter offset =
    le_bytes 4 1
    ++ le_bytes 2 6
    ++ le_bytes 2 0
    ++ le_bytes 4 offset
    ++ le_bytes 2 7
    ++ (letter ∷ replicate 49 0)

abbrev block : ℕ → List ℕ
block count =
    le_bytes 4 0x10000
    ++ le_bytes 4 2
    ++ le_bytes 4 152
    ++ le_bytes 4 24
    ++ le_bytes 4 64
    ++ le_bytes 4 count
    ++ definition b'b' 4
    ++ definition b'a' 8

abbrev values : List ℕ
values =
    le_bytes 4 0x10000
    ++ le_bytes 4 2
    ++ le_bytes 4 160
    ++ le_bytes 4 24
    ++ le_bytes 4 136
    ++ le_bytes 4 0
    ++ replicate 136 0

abbrev map_after : List (List ℕ) → Option (List ℕ)
map_after shms = initialize_variables (block 1) values >>= λ p.
    run_updates shms p >>= λ p'. Option.map (λ (c : VariableDefChunk). c.search_map) p'.def_chunk

sorted_run : map_after (block 2 ∷ []) ≡ some (1 ∷ 0 ∷ [])
unfolding initialize_variables run_updates refresh_definitions refresh_loop read_definition
    raw_definition add_definition copy_definition lower_bound insert_at c_string text_lt
    search_map_sort_cmp geti32 read_bytes of_le le_bytes value_byte_size
sorted_run = refl

abbrev copy_b : VariableDefCopy
copy_b = record {
  value_ptr = some 4;
  type = base i32;
  flags = 1;
  device_session_id = 7;
  name = b'b' ∷ replicate 49 0;
}

abbrev chunk_b : VariableDefChunk
chunk_b = record {
  variable_values_max_data_size = 128;
  defs = λ i. if i == 0 then some copy_b else none;
  def_count = 1;
  processed_def_count = 1;
  search_map = 0 ∷ [];
}

abbrev provider_b : VariableProvider
provider_b = record {
  def_chunk = some chunk_b;
  variable_defs_start = 24;
  variable_def_size = 64;
  max_variable_def_count = 2;
}

chunk_b_written : (i : ℕ) → i < 1 → IsCopy 128 (chunk_b.defs i)
unfolding value_byte_size
chunk_b_written zero h = (refl, (4, refl, omega arith))
chunk_b_written (suc i) h = absurd (omega arith)

chunk_b-IsWellFormed : IsWellFormed chunk_b
unfolding occurs
chunk_b-IsWellFormed = record {
  written = chunk_b_written;
  counted = omega arith;
  within = (omega arith, tt);
  sorted = (tt, tt);
  complete = λ i. ground arith;
}

provider_b-IsReady : IsReady 152 provider_b chunk_b
provider_b-IsReady = record {
  serves = record {
    header = omega arith;
    size = omega arith;
    inside = omega arith;
    few = omega arith;
  };
  chunk = refl;
  formed = chunk_b-IsWellFormed;
  bounded = omega arith;
}

finds-updates_example :
    (p : VariableProvider) × (c : VariableDefChunk) × (run_updates (block 2 ∷ []) provider_b
      ≡ some p)
    × (p.def_chunk ≡ some c)
    × (find_named (b'b' ∷ []) 7 c ≡ some (some (definition_of copy_b)))
    × (find_typed (b'b' ∷ []) (base i32) 7 c ≡ some (some (definition_of copy_b)))
unfolding find_named find_typed find_from same_text c_string le_bytes
finds-updates_example =
    finds-updates (block 2 ∷ []) 152 provider_b chunk_b (base i32) (b'b' ∷ []) (b'b' ∷ []) 7
      (definition_of copy_b) (definition_of copy_b) (refl, tt) provider_b-IsReady refl refl

abbrev changes : Bool × Bool × Bool
changes = (
  have_definitions_changed true 1 (some chunk_b),
  have_definitions_changed true 0 (some chunk_b),
  have_definitions_changed true 0 none,
)

changes_run : changes ≡ (false, true, false)
unfolding have_definitions_changed
changes_run = refl
