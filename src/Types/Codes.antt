-- ===== src/Types/Codes.antt =====
-- What is read back of a `Type` (core/inc/sc-api/core/type.h), and the sizes of its values.
use sc_api.Common.{ℕ, ◌^◌, ◌<◌, ◌≡◌, refl, true, arith}
use sc_api.Types.{
  BaseType, invalid, boolean, i8, u8, i16, u16, i32, u32, i64, f32, f64, cstring, base_code, array,
  bit, get_base_type, is_array, is_bit,
}

-- The base type, the variant and the data of an array type or a bit type are read back, for data
-- that fit 16 bits.
pub array-bit-get :
    (b : BaseType) (n : ℕ)
    → n < 2 ^ 16
    → (get_base_type (array b n) ≡ base_code b)
      × (is_array (array b n) ≡ true)
      × ((array b n).variant_data ≡ n)
      × (get_base_type (bit b n) ≡ base_code b)
      × (is_bit (bit b n) ≡ true)
      × ((bit b n).variant_data ≡ n)
array-bit-get invalid n h = (refl, refl, omega arith, refl, refl, omega arith)
array-bit-get boolean n h = (refl, refl, omega arith, refl, refl, omega arith)
array-bit-get i8 n h = (refl, refl, omega arith, refl, refl, omega arith)
array-bit-get u8 n h = (refl, refl, omega arith, refl, refl, omega arith)
array-bit-get i16 n h = (refl, refl, omega arith, refl, refl, omega arith)
array-bit-get u16 n h = (refl, refl, omega arith, refl, refl, omega arith)
array-bit-get i32 n h = (refl, refl, omega arith, refl, refl, omega arith)
array-bit-get u32 n h = (refl, refl, omega arith, refl, refl, omega arith)
array-bit-get i64 n h = (refl, refl, omega arith, refl, refl, omega arith)
array-bit-get f32 n h = (refl, refl, omega arith, refl, refl, omega arith)
array-bit-get f64 n h = (refl, refl, omega arith, refl, refl, omega arith)
array-bit-get cstring n h = (refl, refl, omega arith, refl, refl, omega arith)
