-- ===== src/Telemetry/System.antt =====
-- `TelemetrySystem` of core/src/telemetry.cpp and core/src/telemetry_internal.h: the definitions in
-- shared memory, which other processes write. A read outside the block has no result.
pub mod Inside
use sc_api.Common.{
  ℕ, zero, suc, ◌+◌, ◌-◌, ◌*◌, ◌/◌, ◌%◌, ◌^◌, List, [], ◌∷◌, ◌++◌, Option, none, some, Bool, true,
  false, ◌||◌, length, take, drop, ltb, leb, ◌==◌, min, if◌then◌else◌, ◌>>=◌,
}
use sc_api.Bytes.{of_le, read_bytes, geti32}
use sc_api.Types.{make_type}
use sc_api.Telemetry.{TelemetryDefinition}

-- `SC_API_PROTOCOL_TelemetryDefinitionShm_t` is a header of 12 bytes and five integers.
abbrev pub k_definition_shm_size : ℕ
k_definition_shm_size = 32

-- The fields of `TelemetrySystem`; the definitions start is an offset in the block. `attached` says
-- that `defs_header_` is not null.
pub record TelemetrySystem : Type 0 where
  pub attached : Bool
  pub defs_start : ℕ
  pub defs_size : ℕ
  pub max_defs : ℕ
  pub cur_defs : List TelemetryDefinition

-- `strnlen`
unfoldable pub until_zero : List ℕ → List ℕ
until_zero [] = []
until_zero (b ∷ bs) = if b == 0 then [] else b ∷ until_zero bs

-- One `SC_API_PROTOCOL_TelemetryDef_t`: ids, types and an index of 12 bytes, and a name of 36, of
-- which the last is not read.
abbrev pub parse_def : List ℕ → TelemetryDefinition
parse_def bs = record {
  id = of_le (take 2 bs);
  flags = of_le (take 2 (drop 2 bs));
  type = make_type (of_le (take 2 (drop 4 bs))) (of_le (take 2 (drop 6 bs)));
  variable_idx = of_le (take 4 (drop 8 bs));
  name = until_zero (take 35 (drop 12 bs));
}

-- The loop of `updateDefinitions`: `n` definitions from the index `i` on.
unfoldable pub read_defs : List ℕ → TelemetrySystem → ℕ → ℕ → Option (List TelemetryDefinition)
read_defs shm s zero i = some []
read_defs shm s (suc n) i = read_bytes shm (s.defs_start + s.defs_size * i) 47 >>= λ bs.
    read_defs shm s n (i + 1) >>= λ ds. some (parse_def bs ∷ ds)

-- `updateDefinitions` with the number of definitions that the block has.
unfoldable pub update_to : List ℕ → TelemetrySystem → ℕ → Option (Bool × TelemetrySystem)
update_to shm s count =
    let def_count = min s.max_defs count in
    if length s.cur_defs == def_count
    then some (false, s)
    else (read_defs shm s (def_count - length s.cur_defs) (length s.cur_defs) >>= λ ds.
        some (true, record s { cur_defs = s.cur_defs ++ ds }))

-- `updateDefinitions`: whether there was something new. `definition_count` stands at the byte 20; the null
-- pointer of a block that was not attached cannot be read.
unfoldable pub update_definitions : List ℕ → TelemetrySystem → Option (Bool × TelemetrySystem)
update_definitions shm s = if s.attached then (geti32 shm 20 >>= update_to shm s) else none

-- The system of a block that was accepted: `defs_offset` is the offset that was checked, and `start`
-- the one that is read again for the pointer.
abbrev pub attach : ℕ → ℕ → ℕ → ℕ → TelemetrySystem
attach shm_buffer_size data_size defs_offset start = record {
  attached = true;
  defs_start = start;
  defs_size = data_size;
  max_defs = (shm_buffer_size - defs_offset) / data_size % 2 ^ 32;
  cur_defs = [];
}

-- `initialize`: the size of the block is given, and its header has the offset of the definitions and
-- the size of each. Another process writes the block: it is `shm` at the checks, `again` when the
-- offset is read a second time, and `last` in `updateDefinitions`.
unfoldable pub initialize : List ℕ → List ℕ → List ℕ → ℕ → TelemetrySystem → Option TelemetrySystem
initialize shm again last shm_buffer_size s = geti32 shm 16 >>= λ data_size.
    geti32 shm 12 >>= λ defs_offset.
    if ltb shm_buffer_size defs_offset || ltb data_size k_definition_shm_size
    then some (record s { cur_defs = [] })
    else (geti32 again 12 >>= λ start.
        update_definitions last (attach shm_buffer_size data_size defs_offset start) >>= λ r.
        some r.1)
