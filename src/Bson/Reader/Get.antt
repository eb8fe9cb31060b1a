-- ===== src/Bson/Reader/Get.antt =====
-- The values of the current element: `BsonReader` of core/src/util/bson_reader.cpp. A view into the
-- buffer is the bytes in it. The conversions of `double` are parameters, on its bit pattern.
use mathlib.Core.Option
use sc_api.Common.{
  ℕ, ◌+◌, ◌-◌, ◌%◌, ◌^◌, List, Option, none, some, Bool, not, ◌==◌, get_elem?, if◌then◌else◌, ltb,
  ◌>>=◌,
}
use sc_api.Bytes.{of_le, read_bytes, geti32}
use sc_api.Bson.Types.{double, str, doc, array, binary, boolean, i32, i64}
use sc_api.Bson.Reader.{Reader}
use sc_api.Bson.Builder.Elements.{size_of_i32}

unfoldable pub double_value : Reader → Option ℕ
double_value r = Option.map of_le (read_bytes r.buffer r.buf_offset 8)

unfoldable pub int64_value : Reader → Option ℕ
int64_value r = Option.map of_le (read_bytes r.buffer r.buf_offset 8)

unfoldable pub int32_value : Reader → Option ℕ
int32_value r = geti32 r.buffer r.buf_offset

unfoldable pub bool_value : Reader → Option Bool
bool_value r = Option.map (λ b. b == 0x01) (get_elem? r.buffer r.buf_offset)

unfoldable pub string_value : Reader → Option (List ℕ)
string_value r = do
  byte_size ← geti32 r.buffer r.buf_offset
  read_bytes r.buffer (r.buf_offset + 4) (size_of_i32 ((byte_size + 2 ^ 32 - 1) % 2 ^ 32))

unfoldable pub binary_value : Reader → Option (List ℕ)
binary_value r = do
  byte_size ← geti32 r.buffer r.buf_offset
  read_bytes r.buffer (r.buf_offset + 5) (size_of_i32 byte_size)

unfoldable pub binary_type : Reader → Option ℕ
binary_type r = get_elem? r.buffer (r.buf_offset + 4)

-- A sub-document's bytes, by its size.
unfoldable pub sized_bytes : Reader → Option (Option (List ℕ))
sized_bytes r = do
  size ← geti32 r.buffer r.buf_offset
  bytes ← read_bytes r.buffer r.buf_offset (size_of_i32 size)
  some (some bytes)

-- `subdocument()`: `some none` is the null pointer.
unfoldable pub subdocument : Reader → Option (Option (List ℕ))
unfolding sized_bytes
subdocument r = elim (r.cur_type) [ doc ↦ sized_bytes r | array ↦ sized_bytes r | _ ↦ some none ]

module _ (i32_of_double i64_of_double double_of_i32 double_of_i64 : ℕ → ℕ)
    (nonzero_double : ℕ → Bool) (one_double : ℕ) where
  unfoldable pub as_double : Reader → Option ℕ
  unfolding double_value int32_value int64_value bool_value
  as_double r = elim (r.cur_type) [
    | double ↦ double_value r
    | boolean ↦ Option.map (λ b. if b then one_double else 0) (bool_value r)
    | i32 ↦ Option.map double_of_i32 (int32_value r)
    | i64 ↦ Option.map double_of_i64 (int64_value r)
    | _ ↦ some 0
  ]

  unfoldable pub as_int32 : Reader → Option ℕ
  unfolding double_value int32_value int64_value bool_value
  as_int32 r = elim (r.cur_type) [
    | double ↦ Option.map i32_of_double (double_value r)
    | boolean ↦ Option.map (λ b. if b then 1 else 0) (bool_value r)
    | i32 ↦ int32_value r
    | i64 ↦ Option.map (λ v. v % 2 ^ 32) (int64_value r)
    | _ ↦ some 0
  ]

  -- `tryGetValue`, by the type asked for; `some none` is the answer `false`.
  unfoldable pub try_get_double : Reader → Option (Option ℕ)
  unfolding double_value int32_value int64_value
  try_get_double r = elim (r.cur_type) [
    | i32 ↦ Option.map (λ v. some (double_of_i32 v)) (int32_value r)
    | i64 ↦ Option.map (λ v. some (double_of_i64 v)) (int64_value r)
    | double ↦ Option.map some (double_value r)
    | _ ↦ some none
  ]

  unfoldable pub try_get_int32 : Reader → Option (Option ℕ)
  unfolding double_value int32_value int64_value
  try_get_int32 r = elim (r.cur_type) [
    | i32 ↦ Option.map some (int32_value r)
    | i64 ↦ Option.map (λ v. some (v % 2 ^ 32)) (int64_value r)
    | double ↦ Option.map (λ v. some (i32_of_double v)) (double_value r)
    | _ ↦ some none
  ]

  unfoldable pub try_get_int64 : Reader → Option (Option ℕ)
  unfolding double_value int32_value int64_value
  try_get_int64 r = elim (r.cur_type) [
    | i32 ↦
        Option.map (λ v. some (if ltb v (2 ^ 31) then v else v + (2 ^ 64 - 2 ^ 32))) (int32_value r)
    | i64 ↦ Option.map some (int64_value r)
    | double ↦ Option.map (λ v. some (i64_of_double v)) (double_value r)
    | _ ↦ some none
  ]

  unfoldable pub try_get_bool : Reader → Option (Option Bool)
  unfolding double_value int32_value int64_value bool_value
  try_get_bool r = elim (r.cur_type) [
    | i32 ↦ Option.map (λ v. some (not (v == 0))) (int32_value r)
    | i64 ↦ Option.map (λ v. some (not (v == 0))) (int64_value r)
    | double ↦ Option.map (λ v. some (nonzero_double v)) (double_value r)
    | boolean ↦ Option.map some (bool_value r)
    | _ ↦ some none
  ]

unfoldable pub try_get_string : Reader → Option (Option (List ℕ))
unfolding string_value
try_get_string r = elim (r.cur_type) [ str ↦ Option.map some (string_value r) | _ ↦ some none ]

unfoldable pub try_get_binary : Reader → Option (Option (List ℕ))
unfolding binary_value
try_get_binary r = elim (r.cur_type) [ binary ↦ Option.map some (binary_value r) | _ ↦ some none ]
