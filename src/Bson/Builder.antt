-- ===== src/Bson/Builder.antt =====
-- `BsonBuilder` of core/src/util/bson_builder.cpp. A builder is its fields; a method returns its
-- result with the new builder, and `none` where it accesses memory outside a buffer, takes the
-- last entry of an empty vector or shifts by 64. Asserts are compiled out, as in a release build.
pub mod Keys
pub mod Elements
pub mod Shape
pub mod Add
pub mod Prepare
pub mod Insert
pub mod Nest
pub mod Close
pub mod Scalars
pub mod Build
pub mod Whole
mod Tests
use Prim.Native.Nat.{bit_and, bit_or}
use sc_api.Common.{
  ℕ, zero, suc, ◌+◌, ◌-◌, ◌*◌, ◌%◌, ◌^◌, ◌≤◌, ◌<◌, List, [], ◌∷◌, ◌++◌, Option, none, some, Bool,
  true, false, not, ◌&&◌, ◌||◌, ltb, leb, ◌==◌, length, replicate, take, if◌then◌else◌, ◌>>=◌,
}
use sc_api.Bytes.{resize, le_bytes, of_le, read_bytes, write_bytes, geti32, add32, sle32}
use sc_api.Bson.Types.{ElementType, doc, array, code}
use Keys.{fill_array_doc_key}

-- The fields of `BsonBuilder`. The vectors have their last entry first. `growable` says that
-- `reallocate_` is set, which it is for a builder over a `std::vector`.
pub record Builder : Type 0 where
  pub document_size_offsets : List ℕ
  pub array_idx_counters : List ℕ
  pub buffer : List ℕ
  pub offset : ℕ
  pub current_usage : ℕ
  pub capacity : ℕ
  pub doc_is_array_bits : ℕ
  pub depth : ℕ
  pub start_offset : ℕ
  pub error_flag : Bool
  pub growable : Bool

-- `BsonBuilder()`; the buffer is null, which is a buffer with no bytes.
abbrev pub blank : Builder
blank = record {
  document_size_offsets = [];
  array_idx_counters = [];
  buffer = [];
  offset = 0;
  current_usage = 0;
  capacity = 0;
  doc_is_array_bits = 0;
  depth = 0;
  start_offset = 0;
  error_flag = false;
  growable = false;
}

-- `reserveMainDocumentHeader`
abbrev pub reserve_header : Builder → Builder
reserve_header b = record b { offset = add32 b.offset 4; current_usage = add32 b.current_usage 5 }

-- `initialize(uint8_t*, uint32_t)`: the buffer has `max_size` bytes. What it does not name keeps
-- its value, the error flag and the open documents among it; `reallocate_` is one of these.
pub initialize_buffer : Builder → List ℕ → Builder
initialize_buffer b buf = reserve_header (record b {
  buffer = buf;
  offset = 0;
  current_usage = 0;
  capacity = length buf;
  start_offset = 0;
})

-- `initialize(std::vector<uint8_t>*, uint32_t, uint32_t)`: a vector that is too short is resized,
-- the new bytes being 0.
pub initialize_vector : Builder → List ℕ → ℕ → ℕ → Builder
initialize_vector b vec start footer =
    let buf =
      if ltb (length vec) (add32 (add32 5 start) footer)
      then resize (add32 (add32 10 start) footer) vec
      else vec in
    reserve_header (record b {
      buffer = buf;
      capacity = length buf;
      start_offset = start;
      offset = start;
      current_usage = add32 start footer;
      growable = true;
    })

-- `operator=(BsonBuilder&&)`: the members are swapped one by one, and `document_size_offsets_` is
-- not among them.
pub move_assign : Builder → Builder → Builder × Builder
move_assign a b = (
  record b { document_size_offsets = a.document_size_offsets },
  record a { document_size_offsets = b.document_size_offsets },
)

-- The bytes go to `buffer_ptr_[offset_]`, and the offset moves behind them.
pub put : List ℕ → Builder → Option Builder
put bs b = write_bytes b.buffer b.offset bs >>= λ buf.
    some (record b { buffer = buf; offset = add32 b.offset (length bs) })

-- The capacity of a `std::vector` of size `n` after `reserve(m)`, by `n` and `m`. Every method that
-- may grow the buffer takes it.
module _ (grown : ℕ → ℕ → ℕ) where
  -- `reallocate_`: `reserve`, then `resize` to the capacity.
  abbrev pub reallocate : ℕ → List ℕ → List ℕ
  reallocate min_bytes buf = buf ++ replicate (grown (length buf) min_bytes - length buf) 0

  pub verify_enough_capacity : ℕ → Builder → Bool × Builder
  verify_enough_capacity bytes b =
      let need = add32 b.current_usage bytes in
      let buf = reallocate need b.buffer in
      if sle32 need b.capacity
      then (true, b)
      else if b.growable
      then if sle32 need (length buf)
        then (true, record b { buffer = buf; capacity = length buf })
        else (false, record b { buffer = buf; capacity = length buf; error_flag = true })
      else (false, record b { error_flag = true })

  -- `verifyCapacityAndInsertKey`
  pub insert_key : ElementType → List ℕ → ℕ → Builder → Option (Bool × Builder)
  insert_key t name value_size b =
      let bytes = add32 (add32 value_size 2) (length name) in
      let (enough, b') = verify_enough_capacity bytes b in
      if enough
      then (do
        b1 ← put (code t ∷ []) b'
        b2 ← put name b1
        b3 ← put (0 ∷ []) b2
        some (true, record b3 { current_usage = add32 b3.current_usage bytes }))
      else some (false, b')

  -- `verifyCapacityAndInsertArrayKey`. The counter of the innermost array goes up in any case.
  -- `junk` is what the eight bytes of `key_buffer` hold when it is declared.
  insert_array_key_at : List ℕ → List ℕ → ElementType → ℕ → Builder → Option (Bool × Builder)
  insert_array_key_at junk [] t value_size b = none
  insert_array_key_at junk (idx ∷ outer) t value_size b = do
    key ← fill_array_doc_key junk idx
    let bytes = add32 (add32 value_size 1) (length key)
    let counted = record b { array_idx_counters = add32 idx 1 ∷ outer }
    let (enough, b') = verify_enough_capacity bytes counted
    if enough
        then (do
          b1 ← put (code t ∷ []) b'
          b2 ← put key b1
          some (true, record b2 { current_usage = add32 b2.current_usage bytes }))
        else some (false, b')

  pub insert_array_key : List ℕ → ElementType → ℕ → Builder → Option (Bool × Builder)
  unfolding insert_array_key_at
  insert_array_key junk t value_size b =
      insert_array_key_at junk b.array_idx_counters t value_size b

-- What the methods that open a document do after the key: the place of the size is left out.
abbrev set_bit : ℕ → ℕ → ℕ
set_bit bits d = bit_or bits (2 ^ d)

abbrev clear_bit : ℕ → ℕ → ℕ
clear_bit bits d = bit_and bits (2 ^ 64 - 1 - 2 ^ d)

pub open_level : ElementType → Builder → Option Builder
open_level t b =
    let d = add32 b.depth 1 in
    let opened = record b {
      document_size_offsets = b.offset ∷ b.document_size_offsets;
      offset = add32 b.offset 4;
      depth = d;
    } in
    if ltb d 64
    then some (
        if code t == code array
        then record opened {
          array_idx_counters = 0 ∷ b.array_idx_counters;
          doc_is_array_bits = set_bit b.doc_is_array_bits d;
        }
        else record opened { doc_is_array_bits = clear_bit b.doc_is_array_bits d })
    else none

-- The part that `endDocument` and `endArray` share: the terminator, and the size at its place.
close_at : List ℕ → Builder → Option Builder
close_at [] b = none
close_at (start ∷ outer) b = do
  b1 ← put (0 ∷ []) (record b { document_size_offsets = outer })
  let size = (b1.offset + 2 ^ 32 - start) % 2 ^ 32
  buf ← write_bytes b1.buffer start (le_bytes 4 size)
  some (record b1 { buffer = buf; depth = (b1.depth + 2 ^ 32 - 1) % 2 ^ 32 })

pub end_document : Builder → Option Builder
unfolding close_at
end_document b = close_at b.document_size_offsets b

drop_counter : List ℕ → Builder → Option Builder
drop_counter [] b = none
drop_counter (idx ∷ outer) b = some (record b { array_idx_counters = outer })

pub end_array : Builder → Option Builder
unfolding end_document drop_counter
end_array b = drop_counter b.array_idx_counters b >>= end_document

-- `finish`: the document's bytes (`none` for the null pointer), with the builder.
pub finish : Builder → Option (Option (List ℕ) × Builder)
finish b = if not (b.depth == 0) || b.error_flag then some (none, b) else (do
  b1 ← put (0 ∷ []) b
  let size = (b1.offset + 2 ^ 32 - b1.start_offset) % 2 ^ 32
  buf ← write_bytes b1.buffer b1.start_offset (le_bytes 4 size)
  bytes ← read_bytes buf b1.start_offset size
  some (some bytes, record b1 { buffer = buf }))
