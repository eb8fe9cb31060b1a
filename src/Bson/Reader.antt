-- ===== src/Bson/Reader.antt =====
-- `BsonReader` of core/src/util/bson_reader.cpp: its state, `next`, the sub-documents and
-- `validate`. Offsets, sizes and indices are bit patterns of `int32_t`; an access outside the buffer
-- has no result (`none`). Asserts are compiled out, as in a release build.
pub mod Key
pub mod Value
pub mod Next
pub mod Validate
pub mod Total
pub mod Pass
pub mod Cross
pub mod Accept
pub mod RoundTrip
pub mod Seek
pub mod Walk
pub mod Values
pub mod Find
pub mod Get
mod Tests
use mathlib.Core.Option
use sc_api.Common.{
  ℕ, zero, suc, ◌+◌, ◌-◌, ◌*◌, ◌^◌, List, [], ◌∷◌, Option, none, some, Bool, true, false, ◌||◌, ltb,
  length, ◌==◌, take, drop, get_elem?, if◌then◌else◌, ◌>>=◌,
}
use sc_api.Bytes.{add_int32, geti32, add32, bias32, slt32, sle32}
use sc_api.Bson.Types.{
  ElementType, double, str, doc, array, binary, boolean, null, i32, i64, finished, unsupported,
  format_error, doc_begin, type_of_byte, is_error, is_end_or_error,
}

-- `BsonReader::DocState`
pub record DocState : Type 0 where
  pub begin_offset : ℕ
  pub end_offset : ℕ
  pub arr_index : ℕ

-- The fields of `BsonReader`. `doc_layers` are the entries up to `last_doc_layer_`, the last first.
pub record Reader : Type 0 where
  pub buffer : List ℕ
  pub doc_layers : List DocState
  pub element_start_offset : ℕ
  pub buf_offset : ℕ
  pub arr_index : ℕ
  pub cur_doc_begin : ℕ
  pub cur_doc_end : ℕ
  pub cur_type : ElementType
  pub key : List ℕ

-- The fields before a constructor sets them, but for the type that marks an invalid buffer.
abbrev pub invalid : List ℕ → Reader
invalid buf = record {
  buffer = buf;
  doc_layers = [];
  element_start_offset = 0;
  buf_offset = 0;
  arr_index = 2 ^ 32 - 2;
  cur_doc_begin = 0;
  cur_doc_end = 0;
  cur_type = format_error;
  key = [];
}

-- `BsonReader(const uint8_t*, size_t)` with a buffer that is not null. The `size_t` holds no more
-- than the `int32_t` it is compared with after the sign is tested.
unfoldable pub reader : List ℕ → ℕ → Option Reader
reader buf size = if ltb size 5 then some (invalid buf) else (do
  doc_size ← geti32 buf 0
  if slt32 doc_size 0 || ltb size doc_size
      then some (invalid buf)
      else some (record (invalid buf) {
        cur_type = doc_begin;
        buf_offset = 4;
        cur_doc_begin = 4;
        cur_doc_end = doc_size;
      }))

-- `BsonReader(const uint8_t*)` with a buffer that is not null: the size is that of the document, and
-- a negative one is a large `size_t`.
unfoldable pub reader_of : List ℕ → Option Reader
reader_of buf = do
  size ← geti32 buf 0
  if ltb size 5
      then some (invalid buf)
      else some (record (invalid buf) {
        cur_type = doc_begin;
        buf_offset = 4;
        cur_doc_begin = 4;
        cur_doc_end = size;
      })

-- `atEnd()` and `error()`
abbrev pub at_end : Reader → Bool
at_end r = is_end_or_error r.cur_type

abbrev pub error : Reader → Bool
error r = is_error r.cur_type

-- The first `switch` of `next`: the offset behind the current value. The sums are of `int32_t`.
unfoldable pub skip_value : ElementType → List ℕ → ℕ → Option ℕ
skip_value double buf off = add_int32 off 8
skip_value i64 buf off = add_int32 off 8
skip_value i32 buf off = add_int32 off 4
skip_value boolean buf off = add_int32 off 1
skip_value str buf off = (geti32 buf off >>= λ n. add_int32 n 4) >>= add_int32 off
skip_value binary buf off = (geti32 buf off >>= λ n. add_int32 n 5) >>= add_int32 off
skip_value doc buf off = geti32 buf off >>= add_int32 off
skip_value array buf off = geti32 buf off >>= add_int32 off
skip_value t buf off = some off

-- The last `switch` of `next`: the size that is checked, -1 for a type that is not supported.
unfoldable pub value_size : ElementType → List ℕ → ℕ → Option ℕ
value_size double buf off = some 9
value_size i64 buf off = some 9
value_size i32 buf off = some 4
value_size boolean buf off = some 1
value_size str buf off = geti32 buf off >>= λ n. add_int32 n 4
value_size binary buf off = geti32 buf off >>= λ n. add_int32 n 5
value_size doc buf off = geti32 buf off
value_size array buf off = geti32 buf off
value_size null buf off = some 0
value_size t buf off = some (2 ^ 32 - 1)

-- The types at which `next` stays, and the end of a document among them.
abbrev pub stays : ElementType → Bool
stays finished = true
stays format_error = true
stays unsupported = true
stays t = false

abbrev pub is_end : ElementType → Bool
is_end finished = true
is_end t = false

abbrev pub classify : ℕ → ElementType
classify b = elim (type_of_byte b) [ none ↦ unsupported | some t ↦ t ]

-- The loop of `readKey`: whether a zero byte stands before the document's end, and where the loop
-- stops. A round takes a byte, so one more round than there are bytes is enough.
unfoldable pub read_key : ℕ → List ℕ → ℕ → ℕ → Option (Bool × ℕ)
read_key zero buf end off = none
read_key (suc fuel) buf end off = elim (slt32 off end) [
  | false ↦ some (false, off)
  | true ↦ elim (get_elem? buf off) [
    | none ↦ none
    | some b ↦ elim (b == 0) [
      | true ↦ some (true, off)
      | false ↦ read_key fuel buf end (add32 off 1)
    ]
  ]
]

abbrev pub fail : Reader → Option (ElementType × Reader)
fail r = some (format_error, record r { cur_type = format_error })

-- `next` from the check of the value's size on.
unfoldable pub check_value : ElementType → Reader → Option (ElementType × Reader)
check_value t r = value_size t r.buffer r.buf_offset >>= λ size.
    if slt32 size 0 || ltb (bias32 r.cur_doc_end) (bias32 r.buf_offset + size)
    then fail r
    else some (
      t,
      record r {
        arr_index = if sle32 (2 ^ 32 - 1) r.arr_index then add32 r.arr_index 1 else r.arr_index;
      },
    )

-- `next` from the key on.
unfoldable pub read_element : ElementType → Reader → Option (ElementType × Reader)
read_element t r =
    read_key (suc (r.cur_doc_end - r.buf_offset)) r.buffer r.cur_doc_end r.buf_offset >>= λ s.
    if s.0
    then check_value t (record r {
      buf_offset = add32 s.1 1;
      key = take (s.1 - r.buf_offset) (drop r.buf_offset r.buffer);
    })
    else fail (record r { buf_offset = s.1 })

-- `next` with the type of the element whose first byte stands at `off`.
unfoldable pub enter : ElementType → ℕ → Reader → Option (ElementType × Reader)
enter t off r =
    let r' = record r { buf_offset = add32 off 1; element_start_offset = off; cur_type = t } in
    if is_end t then some (finished, r') else read_element t r'

unfoldable pub next : Reader → Option (ElementType × Reader)
next r = if stays r.cur_type then some (r.cur_type, r) else (do
  off ← skip_value r.cur_type r.buffer r.buf_offset
  b ← get_elem? r.buffer off
  enter (classify b) off r)

abbrev pub has_sub : ElementType → Bool
has_sub doc = true
has_sub array = true
has_sub t = false

abbrev k_max_subdocs : ℕ
k_max_subdocs = 16

abbrev not_sub : Reader → Bool
not_sub r = if has_sub r.cur_type then length r.doc_layers == k_max_subdocs else true

abbrev first_index : ElementType → ℕ
first_index array = 2 ^ 32 - 1
first_index t = 2 ^ 32 - 2

unfoldable pub begin_sub : Reader → Option (Bool × Reader)
begin_sub r = if not_sub r then some (false, r) else (do
  doc_size ← geti32 r.buffer r.buf_offset
  some (
    true,
    record r {
      doc_layers =
          record {
            begin_offset = r.cur_doc_begin;
            end_offset = r.cur_doc_end;
            arr_index = r.arr_index;
          }
          ∷ r.doc_layers;
      cur_doc_end = add32 r.buf_offset doc_size;
      buf_offset = add32 r.buf_offset 4;
      cur_doc_begin = add32 r.buf_offset 4;
      arr_index = first_index r.cur_type;
      cur_type = doc_begin;
    },
  ))

-- `cur_doc_begin_` keeps its value.
unfoldable pub end_sub : Reader → Bool × Reader
end_sub r = elim (r.doc_layers) [
  | [] ↦ (false, r)
  | state ∷ outer ↦ (
    true,
    record r {
      buf_offset = r.cur_doc_end;
      cur_doc_end = state.end_offset;
      arr_index = state.arr_index;
      doc_layers = outer;
      cur_type = doc_begin;
    },
  )
]

-- A round of the loop of `validate()`: it answers, or goes on at a depth.
pub data Turn : Type 0 where
  answer : Bool → Reader → Turn
  go_on : ℕ → Reader → Turn

unfoldable pub close_sub : ℕ → Reader → Turn
close_sub zero r = answer true r
close_sub (suc depth) r =
    if (end_sub r).0 then go_on depth (end_sub r).1 else answer false (end_sub r).1

unfoldable pub open_sub : ℕ → Reader → Option Turn
open_sub depth r =
    begin_sub r >>= λ s. some (if s.0 then go_on (suc depth) s.1 else answer false s.1)

unfoldable pub turn : ℕ → ElementType → Reader → Option Turn
turn depth format_error r = some (answer false r)
turn depth finished r = some (close_sub depth r)
turn depth doc r = open_sub depth r
turn depth array r = open_sub depth r
turn depth t r = some (go_on depth r)

-- The loop of `validate()`; `none` also when the fuel is used up.
unfoldable pub validate_loop : ℕ → ℕ → Reader → Option (Bool × Reader)
validate_loop zero depth r = none
validate_loop (suc fuel) depth r = elim (next r >>= λ s. turn depth s.0 s.1) [
  | none ↦ none
  | some (answer ok r') ↦ some (ok, r')
  | some (go_on d r') ↦ validate_loop fuel d r'
]

-- `validate()` of a reader at the start of its document; two rounds for each byte are enough.
unfoldable pub validate_reader : Reader → Option (Bool × Reader)
validate_reader r = validate_loop (suc (suc (2 * r.cur_doc_end))) 0 r

-- `validate(const uint8_t*, size_t)`. A negative size is a large `size_t`.
unfoldable pub validate : List ℕ → ℕ → Option Bool
validate buf size = if ltb size 5 then some false else (do
  doc_size ← geti32 buf 0
  if slt32 doc_size 0 || ltb size doc_size
      then some false
      else (do r ← reader buf size; (ok, r') ← validate_reader r; some ok))
