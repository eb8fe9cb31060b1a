-- ===== src/Bson/Reader/Value.antt =====
-- The sizes that `BsonReader::next` (core/src/util/bson_reader.cpp) checks, and what it skips later.
use sc_api.Common.{
  zero, suc, [], ◌∷◌, ◌∙◌, ltb, leb, ◌||◌, ◌>>=◌, ℕ, ◌+◌, ◌-◌, ◌^◌, ◌≤◌, ◌<◌, ◌≡◌, refl, ap, List,
  some, Bool, true, false, length, arith, All, All-take, All-drop, take, drop, length-take,
  length-drop,
}
use sc_api.Bytes.{add_int32, IsByte, of_le, geti32, add32}
use sc_api.Bytes.Laws.{add_int32-is, add_int32-small, geti32-some, of_le-lt_four}
use sc_api.Bson.Types.{
  ElementType, double, str, doc, array, binary, boolean, null, i32, i64, finished, unsupported,
  format_error, doc_begin,
}
use sc_api.Bson.Reader.{skip_value, value_size, classify, is_end}

-- The types of elements.
abbrev pub IsElement : ElementType → Type 0
IsElement finished = ⊥
IsElement unsupported = ⊥
IsElement format_error = ⊥
IsElement doc_begin = ⊥
IsElement t = Unit

-- The types that stand for a first byte.
abbrev pub from_byte : ElementType → Bool
from_byte format_error = false
from_byte doc_begin = false
from_byte t = true

pub from_byte-classify : (b : ℕ) → from_byte (classify b) ≡ true
from_byte-classify b = ground arith

-- A number to which five can be added as an `int32_t`.
abbrev has_room : ℕ → Bool
has_room n = ltb n (2 ^ 31 - 5) || leb (2 ^ 31) n

-- No four bytes in a row are a number from 2^31 - 5 to 2^31 - 1.
abbrev pub HasRoom : List ℕ → Type 0
HasRoom [] = Unit
HasRoom (b ∷ bs) = (has_room (of_le (take 4 (b ∷ bs))) ≡ true) × HasRoom bs

-- What `validate` may read.
abbrev pub IsReadable : List ℕ → Type 0
IsReadable buf = All IsByte buf × HasRoom buf

HasRoom-drop :
    (buf : List ℕ) (off : ℕ)
    → off < length buf
    → HasRoom buf
    → has_room (of_le (take 4 (drop off buf))) ≡ true
HasRoom-drop [] off k h = absurd (omega arith)
HasRoom-drop (b ∷ bs) zero k h = h.0
HasRoom-drop (b ∷ bs) (suc off) k h = HasRoom-drop bs off (omega arith) h.1

-- A number is there wherever four bytes are.
pub geti32-lt :
    (buf : List ℕ) (off : ℕ)
    → All IsByte buf
    → off + 4 ≤ length buf
    → (n : ℕ) × (geti32 buf off ≡ some n) × (n < 2 ^ 32)
geti32-lt buf off bytes h = (
  of_le (take 4 (drop off buf)),
  geti32-some buf off h,
  of_le-lt_four (take 4 (drop off buf))
      (All-take IsByte 4 (drop off buf) (All-drop IsByte off buf bytes))
      (omega (arith, length-take 4 (drop off buf), length-drop off buf)),
)

-- A number with a small addend.
sized-lt :
    (more : ℕ) (buf : List ℕ) (off : ℕ)
    → IsReadable buf
    → off + 4 ≤ length buf
    → more ≤ 5
    → (n : ℕ) × ((geti32 buf off >>= λ k. add_int32 k more) ≡ some n) × (n < 2 ^ 32)
sized-lt more buf off r h small =
    let read : geti32 buf off ≡ some (of_le (take 4 (drop off buf))) = geti32-some buf off h in
    let at : has_room (of_le (take 4 (drop off buf))) ≡ true =
      HasRoom-drop buf off (omega arith) r.1 in
    let lt : of_le (take 4 (drop off buf)) < 2 ^ 32 =
      of_le-lt_four (take 4 (drop off buf))
        (All-take IsByte 4 (drop off buf) (All-drop IsByte off buf r.0))
        (omega (arith, length-take 4 (drop off buf), length-drop off buf)) in
    (
      add32 (of_le (take 4 (drop off buf))) more,
      rw read (add_int32-small (of_le (take 4 (drop off buf))) more lt small at),
      omega arith,
    )

-- A size is there wherever four bytes are.
pub value_size-lt :
    (t : ElementType) (buf : List ℕ) (off : ℕ)
    → IsReadable buf
    → off + 4 ≤ length buf
    → (n : ℕ) × (value_size t buf off ≡ some n) × (n < 2 ^ 32)
unfolding value_size
value_size-lt double buf off bytes h = (9, refl, omega arith)
value_size-lt i64 buf off bytes h = (9, refl, omega arith)
value_size-lt i32 buf off bytes h = (4, refl, omega arith)
value_size-lt boolean buf off bytes h = (1, refl, omega arith)
value_size-lt null buf off bytes h = (0, refl, omega arith)
value_size-lt str buf off bytes h = sized-lt 4 buf off bytes h (omega arith)
value_size-lt binary buf off bytes h = sized-lt 5 buf off bytes h (omega arith)
value_size-lt doc buf off bytes h = geti32-lt buf off bytes.0 h
value_size-lt array buf off bytes h = geti32-lt buf off bytes.0 h
value_size-lt finished buf off bytes h = (2 ^ 32 - 1, refl, omega arith)
value_size-lt unsupported buf off bytes h = (2 ^ 32 - 1, refl, omega arith)
value_size-lt format_error buf off bytes h = (2 ^ 32 - 1, refl, omega arith)
value_size-lt doc_begin buf off bytes h = (2 ^ 32 - 1, refl, omega arith)

-- A type that is not supported has no size that passes the check.
pub value_size-IsElement :
    (t : ElementType) (buf : List ℕ) (off n : ℕ)
    → from_byte t ≡ true
    → is_end t ≡ false
    → value_size t buf off ≡ some n
    → n < 2 ^ 31
    → IsElement t
unfolding value_size
value_size-IsElement double buf off n f e v h = tt
value_size-IsElement i64 buf off n f e v h = tt
value_size-IsElement i32 buf off n f e v h = tt
value_size-IsElement boolean buf off n f e v h = tt
value_size-IsElement null buf off n f e v h = tt
value_size-IsElement str buf off n f e v h = tt
value_size-IsElement binary buf off n f e v h = tt
value_size-IsElement doc buf off n f e v h = tt
value_size-IsElement array buf off n f e v h = tt
value_size-IsElement finished buf off n f e v h = absurd (cc)
value_size-IsElement unsupported buf off n f e v h = absurd (ground arith)
value_size-IsElement format_error buf off n f e v h = absurd (cc)
value_size-IsElement doc_begin buf off n f e v h = absurd (cc)

-- What is skipped of a value that passed the check ends no later than the document.
pub skip_value-within :
    (t : ElementType) (buf : List ℕ) (off n end : ℕ)
    → IsElement t
    → value_size t buf off ≡ some n
    → n < 2 ^ 31
    → off + n ≤ end
    → end < 2 ^ 31
    → (pos : ℕ) × (skip_value t buf off ≡ some pos) × (off ≤ pos) × (pos ≤ end)
unfolding value_size skip_value
skip_value-within double buf off n end c v h k small =
    let m : n ≡ 9 = ground arith in
    (
      off + 8,
      add_int32-is off 8 (off + 8) (omega arith) (omega arith) refl (omega arith),
      omega arith,
      omega arith,
    )
skip_value-within i64 buf off n end c v h k small =
    let m : n ≡ 9 = ground arith in
    (
      off + 8,
      add_int32-is off 8 (off + 8) (omega arith) (omega arith) refl (omega arith),
      omega arith,
      omega arith,
    )
skip_value-within i32 buf off n end c v h k small =
    let m : n ≡ 4 = ground arith in
    (
      off + 4,
      add_int32-is off 4 (off + 4) (omega arith) (omega arith) refl (omega arith),
      omega arith,
      omega arith,
    )
skip_value-within boolean buf off n end c v h k small =
    let m : n ≡ 1 = ground arith in
    (
      off + 1,
      add_int32-is off 1 (off + 1) (omega arith) (omega arith) refl (omega arith),
      omega arith,
      omega arith,
    )
skip_value-within null buf off n end c v h k small = (off, refl, omega arith, omega arith)
skip_value-within str buf off n end c v h k small = (
  off + n,
  ap (λ o. o >>= add_int32 off) v
      ∙ add_int32-is off n (off + n) (omega arith) (omega arith) refl (omega arith),
  omega arith,
  omega arith,
)
skip_value-within binary buf off n end c v h k small = (
  off + n,
  ap (λ o. o >>= add_int32 off) v
      ∙ add_int32-is off n (off + n) (omega arith) (omega arith) refl (omega arith),
  omega arith,
  omega arith,
)
skip_value-within doc buf off n end c v h k small = (
  off + n,
  ap (λ o. o >>= add_int32 off) v
      ∙ add_int32-is off n (off + n) (omega arith) (omega arith) refl (omega arith),
  omega arith,
  omega arith,
)
skip_value-within array buf off n end c v h k small = (
  off + n,
  ap (λ o. o >>= add_int32 off) v
      ∙ add_int32-is off n (off + n) (omega arith) (omega arith) refl (omega arith),
  omega arith,
  omega arith,
)
skip_value-within finished buf off n end c v h k small = absurd c
skip_value-within unsupported buf off n end c v h k small = absurd c
skip_value-within format_error buf off n end c v h k small = absurd c
skip_value-within doc_begin buf off n end c v h k small = absurd c
