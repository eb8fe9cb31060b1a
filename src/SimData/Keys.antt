-- ===== src/SimData/Keys.antt =====
-- The keys of participants and tires: the number of a key (`convertStringNumericKey`,
-- core/src/sim_data.cpp) and the key of a number (`docAddSubDocHex16Key`,
-- core/src/sim_data_builder.cpp).
use sc_api.Common.{
  ℕ, zero, suc, ◌+◌, ◌*◌, ◌/◌, ◌%◌, ◌^◌, ◌<◌, ◌≡◌, refl, ◌∙◌, ap, List, [], ◌∷◌, Option, none, some,
  Bool, true, false, ◌&&◌, ◌==◌, get_elem?, arith, ==_iff,
}
use sc_api.Types.{codes}
use sc_api.SimData.{hex_digit, convert_from, convert_string_numeric_key}

-- `k_hex`, at an index below 16
abbrev or_zero : Option ℕ → ℕ
or_zero none = 0
or_zero (some c) = c

abbrev pub k_hex : ℕ → ℕ
k_hex d = or_zero (get_elem? (codes "0123456789abcdef") d)

-- The key that `docAddSubDocHex16Key` and `docAddNullHex16Key` write; the shift of a negative `int`
-- keeps its sign, which the mask takes away.
unfoldable pub hex16_key : ℕ → List ℕ
hex16_key id =
    k_hex (id / 2 ^ 12 % 16)
    ∷ k_hex (id / 2 ^ 8 % 16)
    ∷ k_hex (id / 2 ^ 4 % 16)
    ∷ k_hex (id % 16)
    ∷ []

-- The sixteen digits, one by one.
reads_back : ℕ → Bool
reads_back d = elim (hex_digit (k_hex d)) [ none ↦ false | some e ↦ e == d ]

all_read_back : ℕ → Bool
all_read_back zero = true
all_read_back (suc n) = reads_back n && all_read_back n

all_read_back-at : (n d : ℕ) → all_read_back n ≡ true → d < n → reads_back d ≡ true
unfolding all_read_back
all_read_back-at zero d h lt = absurd (omega arith)
all_read_back-at (suc n) d h lt = ground (arith, all_read_back-at n d)

digits_table : all_read_back 16 ≡ true
unfolding all_read_back reads_back
digits_table = refl

read_digit :
    (o : Option ℕ) (d : ℕ) → (elim o [ none ↦ false | some e ↦ e == d ]) ≡ true → o ≡ some d
read_digit none d h = cc
read_digit (some e) d h = ap some ((==_iff e d).0 h)

pub hex_digit-k_hex : (d : ℕ) → d < 16 → hex_digit (k_hex d) ≡ some d
unfolding reads_back
hex_digit-k_hex d h = read_digit (hex_digit (k_hex d)) d (all_read_back-at 16 d digits_table h)

convert_from-k_hex :
    (num d : ℕ) (s : List ℕ)
    → d < 16
    → convert_from num (k_hex d ∷ s) ≡ convert_from (num * 16 + d) s
unfolding convert_from
convert_from-k_hex num d s h = rw (hex_digit-k_hex d h) refl

-- A number below 65536 is read back from the key that is written for it.
pub convert_string_numeric_key-hex16_key :
    (id : ℕ) → id < 2 ^ 16 → convert_string_numeric_key (hex16_key id) ≡ some id
unfolding convert_string_numeric_key hex16_key
convert_string_numeric_key-hex16_key id h =
    let a = id / 2 ^ 12 % 16 in
    let b = id / 2 ^ 8 % 16 in
    let c = id / 2 ^ 4 % 16 in
    let d = id % 16 in
    convert_from-k_hex 0 a (k_hex b ∷ k_hex c ∷ k_hex d ∷ []) (omega arith)
    ∙ convert_from-k_hex (0 * 16 + a) b (k_hex c ∷ k_hex d ∷ []) (omega arith)
    ∙ convert_from-k_hex ((0 * 16 + a) * 16 + b) c (k_hex d ∷ []) (omega arith)
    ∙ convert_from-k_hex (((0 * 16 + a) * 16 + b) * 16 + c) d [] (omega arith)
    ∙ unfold convert_from in ap some (omega arith)
