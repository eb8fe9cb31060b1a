-- ===== src/Bson/Reader/Tests.antt =====
-- Runs of `BsonReader`, and its theorems at concrete inputs.
use sc_api.Common.{
  Option, ◌>>=◌, max, length, ◌++◌, ℕ, ◌≡◌, refl, List, [], ◌∷◌, none, some, Bool, true, arith,
}
use sc_api.Bson.Types.{finished}
use sc_api.Bytes.{geti32, read_bytes, of_le}
use sc_api.Bson.Reader.{
  Reader, validate, validate_reader, validate_loop, reader, next, turn, open_sub, close_sub,
  begin_sub, end_sub, enter, read_element, read_key, check_value, skip_value, value_size,
}
use sc_api.Bytes.{le_bytes}
use sc_api.Bson.Layout.{document}
use sc_api.Bson.Value.{Value, Fields, end, field, elements, nesting}
use sc_api.Bson.Builder.{Builder, blank, initialize_vector, finish}
use sc_api.Bson.Builder.Shape.{Grows}
use sc_api.Bson.Builder.Build.{build}
use sc_api.Bson.Reader.Seek.{
  same_key, seek, find, find_or_back, seek_key, seek_next_key, seek_index,
}
use sc_api.Bson.Reader.Get.{
  double_value, int64_value, int32_value, bool_value, string_value, binary_value, binary_type,
  sized_bytes, subdocument, as_double, as_int32, try_get_double, try_get_int32, try_get_int64,
  try_get_bool, try_get_string, try_get_binary,
}
use sc_api.Bson.Reader.Cross.{IsClean}
use sc_api.Bson.Reader.RoundTrip.{validate-document, build-validate}
use sc_api.Bson.Reader.Value.{HasRoom}
use sc_api.Bson.Reader.Total.{validate-answers}

-- {"a": 5} and five more bytes.
abbrev good : List ℕ
good = 12 ∷ 0 ∷ 0 ∷ 0 ∷ 16 ∷ 97 ∷ 0 ∷ 5 ∷ 0 ∷ 0 ∷ 0 ∷ 0 ∷ 0 ∷ 0 ∷ 0 ∷ 0 ∷ 0 ∷ []

good-HasRoom : HasRoom good
unfolding of_le
good-HasRoom = (
  refl,
  (
    refl,
    (
      refl,
      (
        refl,
        (
          refl,
          (
            refl,
            (
              refl,
              (refl, (refl, (refl, (refl, (refl, (refl, (refl, (refl, (refl, (refl, tt)))))))))),
            ),
          ),
        ),
      ),
    ),
  ),
)

validate-answers_example : (ok : Bool) × (validate good 12 ≡ some ok)
validate-answers_example =
    validate-answers good 12 (omega arith, good-HasRoom) (omega arith) (omega arith)

runs_good : validate good 12 ≡ some true
unfolding validate validate_reader validate_loop reader next turn open_sub close_sub begin_sub
    end_sub enter read_element read_key check_value skip_value value_size geti32 read_bytes of_le
runs_good = refl

-- A document element whose size would lie behind the buffer: the read leaves the buffer.
runs_overread : validate (7 ∷ 0 ∷ 0 ∷ 0 ∷ 3 ∷ 0 ∷ 0 ∷ []) 7 ≡ none
unfolding validate validate_reader validate_loop reader next turn open_sub close_sub begin_sub
    end_sub enter read_element read_key check_value skip_value value_size geti32 read_bytes of_le
runs_overread = refl

-- The length of a text to which four cannot be added.
runs_overflow :
    validate (13 ∷ 0 ∷ 0 ∷ 0 ∷ 2 ∷ 97 ∷ 0 ∷ 255 ∷ 255 ∷ 255 ∷ 127 ∷ 0 ∷ 0 ∷ []) 13 ≡ none
unfolding validate validate_reader validate_loop reader next turn open_sub close_sub begin_sub
    end_sub enter read_element read_key check_value skip_value value_size geti32 read_bytes of_le
runs_overflow = refl

-- A size below five is accepted.
runs_short : validate (0 ∷ 0 ∷ 0 ∷ 0 ∷ 0 ∷ []) 5 ≡ some true
unfolding validate validate_reader validate_loop reader next turn open_sub close_sub begin_sub
    end_sub enter read_element read_key check_value skip_value value_size geti32 read_bytes of_le
runs_short = refl

-- {"a": true, "b": {"c": 5}}
abbrev tree : Fields
tree =
    field (97 ∷ []) (Value.boolean true)
      (field (98 ∷ []) (Value.doc (field (99 ∷ []) (Value.i32 5) end)) end)

tree-IsClean : IsClean tree
unfolding IsClean
tree-IsClean = ((omega arith, tt), tt, ((omega arith, tt), ((omega arith, tt), tt, tt), tt))

validate-document_example :
    validate (document (elements tree) ++ (7 ∷ [])) (length (document (elements tree))) ≡ some true
unfolding elements nesting le_bytes
validate-document_example = validate-document tree (7 ∷ []) tree-IsClean (omega arith) (omega arith)

exact-Grows : Grows max
exact-Grows = record {
  enough = λ n m. omega arith;
  no_less = λ n m. omega arith;
  fits = λ n m h k. omega arith;
}

build-validate_example :
    (b1 : Builder) × (b2 : Builder) × (bytes : List ℕ) × (build max tree
        (initialize_vector blank [] 4 32)
      ≡ some (true, b1))
    × (finish b1 ≡ some (some bytes, b2))
    × (validate (bytes ++ (7 ∷ [])) (length bytes) ≡ some true)
unfolding elements nesting le_bytes
build-validate_example =
    build-validate max tree blank [] 4 32 (7 ∷ []) exact-Grows
      (record { closed = refl; none_open = refl }) refl (omega arith) (omega arith) tree-IsClean
      (omega arith)

-- The element "a" is found from the start, and from behind the start not again.
runs_seek_key : (reader good 12 >>= λ r. seek_key (97 ∷ []) r >>= λ s. int32_value s.1) ≡ some 5
unfolding reader next begin_sub enter read_element read_key check_value skip_value value_size geti32
    read_bytes of_le same_key seek find find_or_back seek_key seek_next_key seek_index int64_value
    double_value int32_value bool_value string_value binary_value binary_type sized_bytes
    subdocument as_double as_int32 try_get_double try_get_int32 try_get_int64 try_get_bool
    try_get_string try_get_binary
runs_seek_key = refl

runs_seek_next_key :
    (reader good 12 >>= λ r. next r >>= λ s. seek_next_key (97 ∷ []) s.1 >>= λ t. some t.0)
    ≡ some finished
unfolding reader next begin_sub enter read_element read_key check_value skip_value value_size geti32
    read_bytes of_le same_key seek find find_or_back seek_key seek_next_key seek_index
runs_seek_next_key = refl

-- {"l": [10, 20]}
abbrev numbers : List ℕ
numbers =
    27 ∷ 0 ∷ 0 ∷ 0 ∷ 4 ∷ 108 ∷ 0 ∷ 19 ∷ 0 ∷ 0 ∷ 0 ∷ 16 ∷ 48 ∷ 0 ∷ 10 ∷ 0 ∷ 0 ∷ 0 ∷ 16 ∷ 49 ∷ 0 ∷ 20
    ∷ 0 ∷ 0 ∷ 0 ∷ 0 ∷ 0 ∷ []

-- The array, entered.
abbrev in_array : Option Reader
in_array = reader numbers 27 >>= λ r. next r >>= λ s. begin_sub s.1 >>= λ t. some t.1

runs_seek_index : (in_array >>= λ r. seek_index 1 r >>= λ s. int32_value s.1) ≡ some 20
unfolding reader next begin_sub enter read_element read_key check_value skip_value value_size geti32
    read_bytes of_le same_key seek find find_or_back seek_key seek_next_key seek_index int64_value
    double_value int32_value bool_value string_value binary_value binary_type sized_bytes
    subdocument as_double as_int32 try_get_double try_get_int32 try_get_int64 try_get_bool
    try_get_string try_get_binary
runs_seek_index = refl

-- The index that is current already is not found.
runs_seek_index_again :
    (in_array >>= λ r. seek_index 0 r >>= λ s. seek_index 0 s.1 >>= λ t. some t.0) ≡ some finished
unfolding reader next begin_sub enter read_element read_key check_value skip_value value_size geti32
    read_bytes of_le same_key seek find find_or_back seek_key seek_next_key seek_index
runs_seek_index_again = refl

-- What the other methods give of "a": 5, with conversions that keep the bits.
abbrev same : ℕ → ℕ
same v = v

abbrev numbers_of : Reader → List (Option (Option ℕ))
numbers_of r =
    try_get_double same same same same (λ v. true) 1 r
    ∷ try_get_int32 same same same same (λ v. true) 1 r
    ∷ try_get_int64 same same same same (λ v. true) 1 r
    ∷ some (as_double same same same same (λ v. true) 1 r)
    ∷ some (as_int32 same same same same (λ v. true) 1 r)
    ∷ some (binary_type r)
    ∷ []

abbrev bytes_of : Reader → List (Option (Option (List ℕ)))
bytes_of r = try_get_string r ∷ try_get_binary r ∷ subdocument r ∷ []

abbrev at_a : Option Reader
at_a = reader good 12 >>= λ r. next r >>= λ s. some s.1

runs_get :
    (at_a >>= λ r. some (numbers_of r))
    ≡ some (
        some (some 5)
        ∷ some (some 5)
        ∷ some (some 5)
        ∷ some (some 5)
        ∷ some (some 5)
        ∷ some (some 0)
        ∷ [])
unfolding reader next begin_sub enter read_element read_key check_value skip_value value_size geti32
    read_bytes of_le same_key seek find find_or_back seek_key seek_next_key seek_index int64_value
    double_value int32_value bool_value string_value binary_value binary_type sized_bytes
    subdocument as_double as_int32 try_get_double try_get_int32 try_get_int64 try_get_bool
    try_get_string try_get_binary
runs_get = refl

runs_bytes : (at_a >>= λ r. some (bytes_of r)) ≡ some (some none ∷ some none ∷ some none ∷ [])
unfolding reader next begin_sub enter read_element read_key check_value skip_value value_size geti32
    read_bytes of_le same_key seek find find_or_back seek_key seek_next_key seek_index int64_value
    double_value int32_value bool_value string_value binary_value binary_type sized_bytes
    subdocument as_double as_int32 try_get_double try_get_int32 try_get_int64 try_get_bool
    try_get_string try_get_binary
runs_bytes = refl

runs_bool : (at_a >>= try_get_bool same same same same (λ v. true) 1) ≡ some (some true)
unfolding reader next begin_sub enter read_element read_key check_value skip_value value_size geti32
    read_bytes of_le same_key seek find find_or_back seek_key seek_next_key seek_index int64_value
    double_value int32_value bool_value string_value binary_value binary_type sized_bytes
    subdocument as_double as_int32 try_get_double try_get_int32 try_get_int64 try_get_bool
    try_get_string try_get_binary
runs_bool = refl
