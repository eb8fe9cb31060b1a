-- ===== src/Telemetry/Tests.antt =====
-- Runs of core/src/telemetry.cpp and the examples of its theorems.
use sc_api.Common.{
  ℕ, zero, suc, ◌+◌, ◌/◌, ◌%◌, ◌^◌, ◌-◌, min, ◌≡◌, refl, true, false, List, [], ◌∷◌, ◌++◌, none,
  some, length, arith, replicate,
}
use sc_api.Bytes.{le_bytes, of_le, read_bytes, geti32}
use sc_api.Types.{base, f32, u8, boolean, cstring}
use sc_api.Action.{ActionResult, success}
use sc_api.Telemetry.{
  TelemetryDefinition, TelemetryBase, Handles, TelemetryUpdateGroup, no_entries, send, same_name,
  find_def, find_name, find_id, find_typed, set, add, count_all, write_words,
}
use sc_api.Telemetry.Append.{bool_area, full_words, last_word, cursor}
use sc_api.Telemetry.Bools.{write_words-bits, bits_from}
use sc_api.Telemetry.System.{TelemetrySystem, initialize, update_definitions, update_to, read_defs}
use sc_api.Telemetry.System.Inside.{initialize-inside}

abbrev speed : TelemetryDefinition
speed = record { name = 115 ∷ []; type = base f32; id = 7; flags = 1; variable_idx = 0 }

abbrev gear : TelemetryDefinition
gear = record { name = 103 ∷ []; type = base u8; id = 3; flags = 0; variable_idx = 1 }

abbrev defs : List TelemetryDefinition
defs = speed ∷ gear ∷ []

abbrev speed_handle : TelemetryBase
speed_handle = record {
  name = 115 ∷ [];
  type = base f32;
  id = 0;
  flags = 0;
  value = 1 ∷ 2 ∷ 3 ∷ 4 ∷ [];
}

abbrev gear_handle : TelemetryBase
gear_handle = record { name = 103 ∷ []; type = base u8; id = 0; flags = 0; value = 5 ∷ [] }

abbrev handles : Handles
handles zero = gear_handle
handles (suc n) = speed_handle

abbrev group : TelemetryUpdateGroup
group = record {
  telemetries = 0 ∷ 1 ∷ 0 ∷ [];
  base_value_bufs = [];
  action_builder = record { session = none; buffer = []; cur_start_idx = 0 };
  entries = no_entries;
  set_payload_size = 0;
  group_id = 9;
  prepared = false;
}

-- Handles of bools: the pointer is the value.
abbrev flags : Handles
flags p = record { name = []; type = base boolean; id = 1; flags = 0; value = p ∷ [] }

write_words-bits_example :
    write_words flags 2 3 (cursor (9 ∷ 9 ∷ []) 8 0 (1 ∷ 0 ∷ 1 ∷ 6 ∷ []))
    ≡ some (
        cursor
          ((9 ∷ 9 ∷ []) ++ le_bytes 4 (bits_from flags 0 (1 ∷ 0 ∷ 1 ∷ [])))
          (8 - 4)
          (0 + 4)
          (6 ∷ []))
write_words-bits_example =
    write_words-bits flags 2 1 (0 ∷ 1 ∷ []) (6 ∷ []) (9 ∷ 9 ∷ []) 8 0 (omega arith) refl
      (omega arith)

-- The word is not set back after 32 bools: the 33rd is false, and the second word repeats the first.
runs_second_word : bool_area flags (1 ∷ replicate 32 0) ≡ 1 ∷ 0 ∷ 0 ∷ 0 ∷ 1 ∷ 0 ∷ 0 ∷ 0 ∷ []
unfolding bool_area full_words last_word le_bytes
runs_second_word = refl

runs_find : find_name (103 ∷ []) defs ≡ some gear
unfolding find_def same_name
runs_find = refl

runs_find_typed : find_typed (103 ∷ []) (base f32) defs ≡ none
unfolding find_def same_name
runs_find_typed = refl

runs_find_id : find_id 7 defs ≡ some speed
unfolding find_def
runs_find_id = refl

runs_unprepared :
    send success handles (add (1 ∷ []) (set [] group))
    ≡ some (ActionResult.failed, none, add (1 ∷ []) (set [] group))
unfolding send
runs_unprepared = refl

-- A text's base type has no size: its handle, with a definition, gives an index that is not in the
-- array of the counters.
abbrev text : Handles
text p = record { name = []; type = base cstring; id = 1; flags = 0; value = [] }

runs_text :
    count_all text (0 ∷ []) (record { bufs = []; counts = no_entries; register_payload_size = 6 })
    ≡ none
unfolding count_all
runs_text = refl

-- A block with the definitions at the byte 32, each of `size` bytes, of which the header counts one.
abbrev block : ℕ → ℕ → List ℕ
block size bytes =
    replicate 12 0
    ++ ((32 ∷ 0 ∷ 0 ∷ 0 ∷ [])
        ++ ((size ∷ 0 ∷ 0 ∷ 0 ∷ []) ++ ((1 ∷ 0 ∷ 0 ∷ 0 ∷ []) ++ replicate (8 + bytes) 5)))

abbrev unattached : TelemetrySystem
unattached = record { attached = false; defs_start = 0; defs_size = 0; max_defs = 0; cur_defs = [] }

header_lem :
    (geti32 (block 48 48) 12 ≡ some 32)
    × (geti32 (block 48 48) 16 ≡ some 48)
    × (geti32 (block 48 48) 20 ≡ some 1)
unfolding geti32 read_bytes of_le
header_lem = (refl, refl, refl)

initialize-inside_example :
    (s' : TelemetrySystem) × (initialize
        (block 48 48)
        (block 48 48)
        (block 48 48)
        (length (block 48 48))
        unattached
      ≡ some s')
    × (length s'.cur_defs ≡ min ((length (block 48 48) - 32) / 48 % 2 ^ 32) 1)
initialize-inside_example =
    initialize-inside (block 48 48) (block 48 48) (block 48 48) unattached 48 32 1 header_lem.0
      header_lem.1 header_lem.0 header_lem.2 refl (omega arith) (omega arith)

abbrev attached : TelemetrySystem
attached = record { attached = true; defs_start = 32; defs_size = 48; max_defs = 1; cur_defs = [] }

-- A definition size of 32 is accepted, and the definition is read past the end of the block.
runs_short : initialize (block 32 32) (block 32 32) (block 32 32) 64 unattached ≡ none
unfolding initialize update_definitions update_to read_defs geti32 read_bytes of_le
runs_short = refl

-- The offset of the second read is not checked: with another one the definitions are read outside.
runs_moved :
    initialize (block 48 48) (replicate 12 0 ++ (0 ∷ 1 ∷ 0 ∷ 0 ∷ [])) (block 48 48) 80 unattached
    ≡ none
unfolding initialize update_definitions update_to read_defs geti32 read_bytes of_le
runs_moved = refl

-- After a block that was refused the header is the null pointer.
runs_refused : update_definitions (block 48 48) unattached ≡ none
unfolding update_definitions
runs_refused = refl
