-- ===== src/Bytes.antt =====
-- Byte buffers and the little-endian integers in them: `getm`/`geti32` and the `memcpy` calls of
-- core/src/util/bson_reader.cpp and bson_builder.cpp. A byte is a number; an access that leaves
-- its buffer has no result (`none`), where C++ leaves the behaviour undefined.
pub mod Laws
use mathlib.Core.Option
use sc_api.Common.{
  ℕ, zero, suc, ◌+◌, ◌*◌, ◌/◌, ◌%◌, ◌^◌, ◌<◌, List, [], ◌∷◌, ◌++◌, Option, none, some, Bool, leb,
  ◌&&◌, ltb, length, replicate, ◌-◌, take, drop, if◌then◌else◌,
}

abbrev pub IsByte : ℕ → Type 0
IsByte b = b < 256

-- The bytes of a little-endian integer, and the integer of such bytes.
unfoldable pub le_bytes : ℕ → ℕ → List ℕ
le_bytes zero v = []
le_bytes (suc n) v = v % 256 ∷ le_bytes n (v / 256)

unfoldable pub of_le : List ℕ → ℕ
of_le [] = 0
of_le (b ∷ bs) = b + 256 * of_le bs

-- `memcpy` out of a buffer: `n` bytes from `off`.
unfoldable pub read_bytes : List ℕ → ℕ → ℕ → Option (List ℕ)
read_bytes buf off n = if leb (off + n) (length buf) then some (take n (drop off buf)) else none

-- `memcpy` into a buffer at `off`.
unfoldable pub write_bytes : List ℕ → ℕ → List ℕ → Option (List ℕ)
write_bytes buf off bs =
    if leb (off + length bs) (length buf)
    then some (take off buf ++ (bs ++ drop (off + length bs) buf))
    else none

-- `getm<int32_t>`: the bit pattern of the integer, below 2 ^ 32.
unfoldable pub geti32 : List ℕ → ℕ → Option ℕ
unfolding read_bytes of_le
geti32 buf off = Option.map of_le (read_bytes buf off 4)

-- Arithmetic and order on the bit patterns of `int32_t`.
abbrev pub add32 : ℕ → ℕ → ℕ
add32 a b = (a + b) % 2 ^ 32

-- The value of a pattern, moved up by 2 ^ 31 so that it is a natural number.
abbrev pub bias32 : ℕ → ℕ
bias32 a = (a + 2 ^ 31) % 2 ^ 32

abbrev pub slt32 : ℕ → ℕ → Bool
slt32 a b = ltb (bias32 a) (bias32 b)

abbrev pub sle32 : ℕ → ℕ → Bool
sle32 a b = leb (bias32 a) (bias32 b)

-- The sum of two patterns as an `int32_t`; an overflow, which is undefined, has no result.
abbrev pub add_int32 : ℕ → ℕ → Option ℕ
add_int32 a b =
    let sum = bias32 a + bias32 b in
    if leb (2 ^ 31) sum && ltb sum (2 ^ 31 + 2 ^ 32) then some (add32 a b) else none

-- `std::vector::resize`: new bytes are 0.
abbrev pub resize : ℕ → List ℕ → List ℕ
resize n vec = take n vec ++ replicate (n - length vec) 0
