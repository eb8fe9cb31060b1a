-- ===== src/Bson/Reader/Seek.antt =====
-- The methods of `BsonReader` (core/src/util/bson_reader.cpp) that look for an element.
use sc_api.Common.{
  ℕ, zero, suc, ◌-◌, ◌^◌, List, [], ◌∷◌, Option, none, some, Bool, true, false, ◌&&◌, ◌==◌,
  if◌then◌else◌, ◌>>=◌,
}
use sc_api.Bytes.{slt32, sle32}
use sc_api.Bson.Types.{ElementType, finished, unsupported, doc_begin, is_element}
use sc_api.Bson.Reader.{Reader, next, is_end}

-- `std::string_view` equality.
unfoldable pub same_key : List ℕ → List ℕ → Bool
same_key [] [] = true
same_key [] (y ∷ ys) = false
same_key (x ∷ xs) [] = false
same_key (x ∷ xs) (y ∷ ys) = (x == y) && same_key xs ys

-- `elementOffset()`: the offset and the array index.
abbrev pub element_offset : Reader → ℕ × ℕ
element_offset r = (r.element_start_offset, r.arr_index)

abbrev pub seek_begin : Reader → Reader
seek_begin r = record r {
  buf_offset = r.cur_doc_begin;
  cur_type = doc_begin;
  arr_index = if slt32 (2 ^ 32 - 2) r.arr_index then 2 ^ 32 - 1 else r.arr_index;
}

unfoldable pub seek : ℕ × ℕ → Reader → Option (ElementType × Reader)
seek (offset, index) r =
    if sle32 r.cur_doc_begin offset && slt32 offset r.cur_doc_end
    then next (record r { cur_type = doc_begin; buf_offset = offset; arr_index = index })
    else some (unsupported, r)

-- The `while (next_e_type > 0)` loop: the first element that passes the test, or what ends the
-- document. An element takes two bytes at least, so one round for each byte and two are enough.
unfoldable pub find : ℕ → (Reader → Bool) → Reader → Option (ElementType × Reader)
find zero test r = none
find (suc fuel) test r = elim (next r) [
  | none ↦ none
  | some (e, r1) ↦ elim (is_element e) [
    | false ↦ some (e, r1)
    | true ↦ elim (test r1) [ true ↦ some (e, r1) | false ↦ find fuel test r1 ]
  ]
]

-- The element is found, or the reader goes back to where it was at the end of the document.
unfoldable pub find_or_back : ℕ × ℕ → (Reader → Bool) → Reader → Option (ElementType × Reader)
unfolding find seek
find_or_back offset test r = do
  (e, r1) ← find (suc (suc r.cur_doc_end)) test r
  if is_end e then (seek offset r1 >>= λ s. some (e, s.1)) else some (e, r1)

unfoldable pub seek_key : List ℕ → Reader → Option (ElementType × Reader)
unfolding find_or_back
seek_key search_key r =
    find_or_back (element_offset r) (λ r1. same_key r1.key search_key) (seek_begin r)

unfoldable pub seek_next_key : List ℕ → Reader → Option (ElementType × Reader)
unfolding find_or_back
seek_next_key search_key r = find_or_back (element_offset r) (λ r1. same_key r1.key search_key) r

unfoldable pub seek_index : ℕ → Reader → Option (ElementType × Reader)
unfolding find_or_back
seek_index index r =
    if slt32 index 0
    then some (finished, r)
    else if r.arr_index == 2 ^ 32 - 2
    then some (finished, r)
    else find_or_back (element_offset r) (λ r1. r1.arr_index == index)
        (if slt32 index r.arr_index then seek_begin r else r)
