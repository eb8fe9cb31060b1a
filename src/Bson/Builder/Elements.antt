-- ===== src/Bson/Builder/Elements.antt =====
-- The methods of `BsonBuilder` that add an element or open a document
-- (core/src/util/bson_builder.cpp). Names, texts and binary data are lists of bytes; an `int32_t`,
-- an `int64_t` and a `double` are their bit patterns.
use sc_api.Common.{
  ℕ, ◌+◌, ◌-◌, ◌%◌, ◌^◌, List, [], ◌∷◌, Option, some, Bool, true, false, ltb, length, if◌then◌else◌,
  ◌>>=◌,
}
use sc_api.Bytes.{le_bytes, read_bytes, geti32, add32, slt32}
use sc_api.Bson.Types.{double, str, doc, array, binary, boolean, null, i32, i64}
use sc_api.Bson.Builder.{Builder, put, insert_key, insert_array_key, open_level}

-- The key, and the value behind it if there is room for both.
abbrev pub with_value :
    Option (Bool × Builder) → (Builder → Option Builder) → Option (Bool × Builder)
with_value keyed value =
    keyed >>= λ r. if r.0 then (value r.1 >>= λ b. some (true, b)) else some (false, r.1)

-- The value of a text: its size with the terminator, the bytes, the terminator.
unfoldable pub put_string : List ℕ → Builder → Option Builder
put_string value =
    λ b. do b1 ← put (le_bytes 4 (add32 (length value) 1)) b; b2 ← put value b1; put (0 ∷ []) b2

unfoldable pub put_binary : List ℕ → ℕ → Builder → Option Builder
put_binary bytes subtype = λ b. do
  b1 ← put (le_bytes 4 (length bytes % 2 ^ 32)) b
  b2 ← put (subtype ∷ []) b1
  put bytes b2

-- The conversion of an `int32_t` to `size_t`.
abbrev pub size_of_i32 : ℕ → ℕ
size_of_i32 d = if ltb d (2 ^ 31) then d else d + (2 ^ 64 - 2 ^ 32)

-- `memcpy` of the elements of a given document, without its size and its terminator.
unfoldable pub put_content : List ℕ → ℕ → Builder → Option Builder
put_content sub size b = do
  bytes ← read_bytes sub 4 (size_of_i32 ((size + 2 ^ 32 - 5) % 2 ^ 32))
  put bytes b

module _ (grown : ℕ → ℕ → ℕ) where
  unfoldable pub doc_add_bool : List ℕ → Bool → Builder → Option (Bool × Builder)
  doc_add_bool name value b =
      with_value (insert_key grown boolean name 1 b) (put ((if value then 0x01 else 0x00) ∷ []))

  unfoldable pub doc_add_double : List ℕ → ℕ → Builder → Option (Bool × Builder)
  doc_add_double name value b =
      with_value (insert_key grown double name 8 b) (put (le_bytes 8 value))

  unfoldable pub doc_add_int32 : List ℕ → ℕ → Builder → Option (Bool × Builder)
  doc_add_int32 name value b = with_value (insert_key grown i32 name 4 b) (put (le_bytes 4 value))

  unfoldable pub doc_add_int64 : List ℕ → ℕ → Builder → Option (Bool × Builder)
  doc_add_int64 name value b = with_value (insert_key grown i64 name 8 b) (put (le_bytes 8 value))

  unfoldable pub doc_add_null : List ℕ → Builder → Option (Bool × Builder)
  doc_add_null name b = insert_key grown null name 0 b

  unfoldable pub doc_add_string : List ℕ → List ℕ → Builder → Option (Bool × Builder)
  doc_add_string name value b =
      with_value (insert_key grown str name (add32 (add32 (length value) 1) 4) b) (put_string value)

  unfoldable pub doc_add_binary : List ℕ → List ℕ → ℕ → Builder → Option (Bool × Builder)
  doc_add_binary name bytes subtype b =
      let count = length bytes % 2 ^ 32 in
      if slt32 count 0
      then some (false, b)
      else with_value (insert_key grown binary name (add32 (add32 count 4) 1) b)
          (put_binary bytes subtype)

  -- `docAddSubDoc`
  unfoldable pub doc_add_sub_doc : List ℕ → List ℕ → Builder → Option (Bool × Builder)
  doc_add_sub_doc name sub b = do
    size ← geti32 sub 0
    if slt32 size 0
        then some (false, b)
        else with_value (insert_key grown doc name size b)
            (λ b1. read_bytes sub 0 size >>= λ bs. put bs b1)

  -- `docBeginSubDoc(name)`
  unfoldable pub doc_begin_sub_doc : List ℕ → Builder → Option (Bool × Builder)
  doc_begin_sub_doc name b = with_value (insert_key grown doc name 5 b) (open_level doc)

  -- `docBeginSubDoc(name, sub_document)`
  unfoldable pub doc_begin_sub_doc_from : List ℕ → List ℕ → Builder → Option (Bool × Builder)
  doc_begin_sub_doc_from name sub b = do
    size ← geti32 sub 0
    with_value (insert_key grown doc name size b) (λ b1. open_level doc b1 >>= put_content sub size)

  unfoldable pub doc_begin_sub_array : List ℕ → Builder → Option (Bool × Builder)
  doc_begin_sub_array name b = with_value (insert_key grown array name 5 b) (open_level array)

  unfoldable pub array_begin_sub_doc : List ℕ → Builder → Option (Bool × Builder)
  array_begin_sub_doc junk b = with_value (insert_array_key grown junk doc 5 b) (open_level doc)

  unfoldable pub array_begin_sub_array : List ℕ → Builder → Option (Bool × Builder)
  array_begin_sub_array junk b =
      with_value (insert_array_key grown junk array 5 b) (open_level array)

  -- The byte is 0 for `true` here.
  unfoldable pub array_add_bool : List ℕ → Bool → Builder → Option (Bool × Builder)
  array_add_bool junk value b =
      with_value (insert_array_key grown junk boolean 1 b)
        (put ((if value then 0x00 else 0x01) ∷ []))

  unfoldable pub array_add_double : List ℕ → ℕ → Builder → Option (Bool × Builder)
  array_add_double junk value b =
      with_value (insert_array_key grown junk double 8 b) (put (le_bytes 8 value))

  unfoldable pub array_add_int32 : List ℕ → ℕ → Builder → Option (Bool × Builder)
  array_add_int32 junk value b =
      with_value (insert_array_key grown junk i32 4 b) (put (le_bytes 4 value))

  unfoldable pub array_add_int64 : List ℕ → ℕ → Builder → Option (Bool × Builder)
  array_add_int64 junk value b =
      with_value (insert_array_key grown junk i64 8 b) (put (le_bytes 8 value))

  unfoldable pub array_add_null : List ℕ → Builder → Option (Bool × Builder)
  array_add_null junk b = insert_array_key grown junk null 0 b

  unfoldable pub array_add_string : List ℕ → List ℕ → Builder → Option (Bool × Builder)
  array_add_string junk value b =
      with_value (insert_array_key grown junk str (add32 (add32 (length value) 1) 4) b)
        (put_string value)

  unfoldable pub array_add_binary : List ℕ → List ℕ → ℕ → Builder → Option (Bool × Builder)
  array_add_binary junk bytes subtype b =
      let count = length bytes % 2 ^ 32 in
      if slt32 count 0
      then some (false, b)
      else with_value (insert_array_key grown junk binary (add32 (add32 count 4) 1) b)
          (put_binary bytes subtype)
