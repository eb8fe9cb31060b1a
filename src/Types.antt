-- ===== src/Types.antt =====
-- `Type` of core/inc/sc-api/core/type.h, core/src/type.cpp and the macros of
-- core/inc/sc-api/core/protocol/types.h: the types of variables and telemetries.
pub mod Codes
mod Tests
use Prim.Native.Nat.{bit_and, bit_or}
use Prim.Native.Char.{code}
use Prim.Native.String.{String}
use sc_api.Common.{
  ℕ, zero, suc, ◌+◌, ◌*◌, ◌/◌, ◌%◌, ◌^◌, List, [], ◌∷◌, ◌++◌, Bool, true, false, ◌&&◌, ◌==◌, ltb,
  if◌then◌else◌,
}

-- `SC_API_PROTOCOL_BaseType_t` and `Type::BaseType`
pub data BaseType : Type 0 where
  invalid boolean i8 u8 i16 u16 i32 u32 i64 f32 f64 cstring : BaseType

abbrev pub base_code : BaseType → ℕ
base_code invalid = 0x00
base_code boolean = 0x01
base_code i8 = 0x02
base_code u8 = 0x03
base_code i16 = 0x04
base_code u16 = 0x05
base_code i32 = 0x06
base_code u32 = 0x07
base_code i64 = 0x08
base_code f32 = 0x09
base_code f64 = 0x0A
base_code cstring = 0x20

-- `Type`; both fields are `uint16_t`.
pub record ValueType : Type 0 where
  pub type : ℕ
  pub variant_data : ℕ

-- `Type(SC_API_PROTOCOL_Type_t, SC_API_PROTOCOL_TypeVariantData_t)`; the arguments are converted.
abbrev pub make_type : ℕ → ℕ → ValueType
make_type val d = record { type = val % 2 ^ 16; variant_data = d % 2 ^ 16 }

abbrev pub base : BaseType → ValueType
base b = record { type = base_code b; variant_data = 0 }

-- `Type(BaseType, uint32_t)`, which does not use the size.
abbrev pub make_array : BaseType → ℕ → ValueType
make_array b array_size = record { type = bit_or (base_code b) 0x100; variant_data = 0 }

-- `Type::Array`
abbrev pub array : BaseType → ℕ → ValueType
array b array_size = make_type (bit_or (base_code b) 0x100) array_size

-- `Type::Bit`
abbrev pub bit : BaseType → ℕ → ValueType
bit b bit_idx = make_type (bit_or (base_code b) 0x200) bit_idx

-- The masks of the macros, on a `uint16_t`.
abbrev pub get_base_type : ValueType → ℕ
get_base_type t = t.type % 0x100

abbrev pub get_variant : ValueType → ℕ
get_variant t = t.type / 0x100 % 0x100

abbrev pub is_base_type : ValueType → Bool
is_base_type t = get_variant t == 0

abbrev pub is_array : ValueType → Bool
is_array t = get_variant t == 1

abbrev pub is_bit : ValueType → Bool
is_bit t = get_variant t == 2

-- The cases that `getBaseTypeByteSize` and `getValueByteSize` share, by the number.
abbrev pub scalar_size : ℕ → ℕ
scalar_size c =
    if c == 0x02
    then 1
    else if c == 0x03
    then 1
    else if c == 0x04
    then 2
    else if c == 0x05
    then 2
    else if c == 0x06
    then 4
    else if c == 0x07
    then 4
    else if c == 0x08
    then 8
    else if c == 0x09
    then 4
    else if c == 0x0A
    then 8
    else 0

-- `getValueByteSize`
unfoldable pub value_byte_size : ValueType → ℕ
value_byte_size t =
    if ltb 0x01 t.type && ltb t.type 0x0B
    then scalar_size t.type
    else if t.type == 0x00
    then 0
    else if get_base_type t == 0x20
    then t.variant_data
    else if is_array t
    then (scalar_size (get_base_type t) * t.variant_data + 8) % 2 ^ 32
    else 0

-- `operator==`
abbrev pub same_type : ValueType → ValueType → Bool
same_type a b = a.type == b.type && a.variant_data == b.variant_data

-- The characters of a text.
abbrev pub codes : String → List ℕ
codes String.[] = []
codes (String.◌∷◌ c s) = code c ∷ codes s

-- `baseTypeToString`, on a number that may be no base type.
unfoldable pub base_type_to_string : ℕ → List ℕ
base_type_to_string c =
    if c == 0x01
    then codes "boolean"
    else if c == 0x02
    then codes "i8"
    else if c == 0x03
    then codes "u8"
    else if c == 0x04
    then codes "i16"
    else if c == 0x05
    then codes "u16"
    else if c == 0x06
    then codes "i32"
    else if c == 0x07
    then codes "u32"
    else if c == 0x09
    then codes "f32"
    else if c == 0x0A
    then codes "f64"
    else if c == 0x08
    then codes "i64"
    else if c == 0x20
    then codes "cstring"
    else codes "invalid"

-- `std::to_string`; a `uint16_t` has five digits at most.
unfoldable pub digits : ℕ → ℕ → List ℕ → List ℕ
digits zero n acc = acc
digits (suc fuel) n acc = elim (n / 10 == 0) [
  | true ↦ (b'0' + n % 10) ∷ acc
  | false ↦ digits fuel (n / 10) ((b'0' + n % 10) ∷ acc)
]

unfoldable pub to_string : ValueType → List ℕ
unfolding base_type_to_string digits
to_string t =
    base_type_to_string (get_base_type t)
    ++ (if is_array t
        then b'x' ∷ digits 5 t.variant_data []
        else if is_bit t
        then b'.' ∷ digits 5 t.variant_data []
        else [])
