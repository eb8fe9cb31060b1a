-- ===== src/Types/Tests.antt =====
-- Runs of `Type` (core/inc/sc-api/core/type.h, core/src/type.cpp) and the examples of its theorems.
use sc_api.Common.{◌≡◌, refl, true, arith}
use sc_api.Types.{
  invalid, boolean, u8, u16, f32, base_code, base, array, bit, make_array, get_base_type, is_array,
  is_bit, value_byte_size, to_string, base_type_to_string, digits, codes,
}
use sc_api.Types.Codes.{array-bit-get}

array-bit-get_example :
    (get_base_type (array f32 300) ≡ base_code f32)
    × (is_array (array f32 300) ≡ true)
    × ((array f32 300).variant_data ≡ 300)
    × (get_base_type (bit f32 300) ≡ base_code f32)
    × (is_bit (bit f32 300) ≡ true)
    × ((bit f32 300).variant_data ≡ 300)
array-bit-get_example = array-bit-get f32 300 (omega arith)

-- An array has eight bytes for its revision counter.
runs_array_size : value_byte_size (array f32 10) ≡ 48
unfolding value_byte_size
runs_array_size = refl

-- A boolean has no size.
runs_boolean_size : value_byte_size (base boolean) ≡ 0
unfolding value_byte_size
runs_boolean_size = refl

-- The constructor with a size forgets it; `Array` keeps it.
runs_make_array : (make_array u8 12).variant_data ≡ 0
runs_make_array = refl

runs_array_text : to_string (array f32 120) ≡ codes "f32x120"
unfolding to_string base_type_to_string digits
runs_array_text = refl

runs_bit_text : to_string (bit u16 7) ≡ codes "u16.7"
unfolding to_string base_type_to_string digits
runs_bit_text = refl

runs_unknown_text : to_string (base invalid) ≡ codes "invalid"
unfolding to_string base_type_to_string digits
runs_unknown_text = refl
