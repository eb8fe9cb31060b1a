-- ===== src/Bson/Types.antt =====
-- The element types of BSON: `ElementTypes` of core/src/util/bson_builder.cpp and
-- `BsonReader::ElementType` of core/inc/sc-api/core/util/bson_reader.h.
use sc_api.Common.{ℕ, ◌-◌, ◌^◌, Option, none, some, Bool, not, ◌&&◌, ◌==◌, if◌then◌else◌}
use sc_api.Bytes.{slt32, sle32}

-- The last four are no types of elements: the end of a document, an error, or the state before
-- the first element.
pub data ElementType : Type 0 where
  double str doc array binary boolean null i32 i64 : ElementType
  finished unsupported format_error doc_begin : ElementType

-- The values of the enumeration, as bit patterns of an `int32_t`.
abbrev pub code : ElementType → ℕ
code double = 0x01
code str = 0x02
code doc = 0x03
code array = 0x04
code binary = 0x05
code boolean = 0x08
code null = 0x0A
code i32 = 0x10
code i64 = 0x12
code finished = 0x00
code unsupported = 2 ^ 32 - 1
code format_error = 2 ^ 32 - 2
code doc_begin = 2 ^ 32 - 3

-- The type of an element by its first byte; `finished` for the end of the document, and `none` for
-- a byte that the `switch` of `BsonReader::next` does not name.
abbrev pub type_of_byte : ℕ → Option ElementType
type_of_byte b =
    if b == 0x00
    then some finished
    else if b == 0x01
    then some double
    else if b == 0x02
    then some str
    else if b == 0x03
    then some doc
    else if b == 0x04
    then some array
    else if b == 0x05
    then some binary
    else if b == 0x08
    then some boolean
    else if b == 0x0A
    then some null
    else if b == 0x10
    then some i32
    else if b == 0x12
    then some i64
    else none

-- `next_e_type > 0`
abbrev pub is_element : ElementType → Bool
is_element e = slt32 0 (code e)

-- `isError` and `isEndOrError`
abbrev pub is_doc_begin : ElementType → Bool
is_doc_begin e = code e == code doc_begin

abbrev pub is_error : ElementType → Bool
is_error e = not (is_doc_begin e) && slt32 (code e) 0

abbrev pub is_end_or_error : ElementType → Bool
is_end_or_error e = not (is_doc_begin e) && sle32 (code e) 0
