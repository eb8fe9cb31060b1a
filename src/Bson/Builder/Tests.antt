-- ===== src/Bson/Builder/Tests.antt =====
-- Runs of `BsonBuilder`, and its theorems at concrete inputs.
use sc_api.Common.{
  ℕ, ◌+◌, ◌≡◌, max, refl, List, [], ◌∷◌, ◌++◌, none, some, true, false, take, drop, arith,
}
use sc_api.Bytes.{le_bytes}
use sc_api.Bson.Types.{doc, array}
use sc_api.Bson.Layout.{root, open_doc, document}
use sc_api.Bson.Value.{key_bytes, Value, Fields, end, field, value_bytes, elements, nesting}
use sc_api.Bson.Builder.{Builder, blank, initialize_vector, initialize_buffer, end_document, finish}
use sc_api.Bson.Builder.Elements.{doc_begin_sub_doc, doc_begin_sub_array}
use sc_api.Bson.Builder.Shape.{Shape, Grows}
use sc_api.Bson.Builder.Add.{Outcome}
use sc_api.Bson.Builder.Prepare.{IsKept}
use sc_api.Bson.Builder.Nest.{IsStarted, begin_sub_doc-Outcome, begin_sub_array-Outcome}
use sc_api.Bson.Builder.Close.{end_document_lem, finish_lem}
use sc_api.Bson.Builder.Scalars.{doc_add, doc_add-Outcome}
use sc_api.Bson.Builder.Build.{build}
use sc_api.Bson.Builder.Whole.{
  Idle, initialize_vector-Shape, initialize_buffer-Shape, build-elements,
}

-- A vector that grows to exactly what is asked for.
abbrev exact : ℕ → ℕ → ℕ
exact n m = max n m

exact-Grows : Grows exact
exact-Grows = record {
  enough = λ n m. omega arith;
  no_less = λ n m. omega arith;
  fits = λ n m h k. omega arith;
}

blank-Idle : Idle blank
blank-Idle = record { closed = refl; none_open = refl }

-- {"a": true, "b": {"c": 5}}
abbrev tree : Fields
tree =
    field (97 ∷ []) (Value.boolean true)
      (field (98 ∷ []) (Value.doc (field (99 ∷ []) (Value.i32 5) end)) end)

-- In a vector that has no bytes at first.
abbrev fresh : Builder
fresh = initialize_vector blank [] 0 0

-- In a buffer of six bytes, which has room for an empty document only.
abbrev small : Builder
small = initialize_buffer blank (0 ∷ 0 ∷ 0 ∷ 0 ∷ 0 ∷ 0 ∷ [])

fresh-Shape : Shape 0 ([] ∷ []) fresh
fresh-Shape = initialize_vector-Shape blank [] 0 0 blank-Idle (omega arith) (omega arith)

small-Shape : Shape 0 ([] ∷ []) small
small-Shape =
    initialize_buffer-Shape blank (0 ∷ 0 ∷ 0 ∷ 0 ∷ 0 ∷ 0 ∷ []) blank-Idle (omega arith)
      (omega arith)

build-elements_example :
    (b1 : Builder) × (b2 : Builder) × (build exact tree (initialize_vector blank [] 4 32)
      ≡ some (true, b1))
    × (finish b1 ≡ some (some (document (elements tree)), b2))
unfolding elements nesting le_bytes
build-elements_example =
    build-elements exact tree blank [] 4 32 exact-Grows blank-Idle refl (omega arith) (omega arith)
      (omega arith)

-- A key of one byte and an `int32_t` do not fit.
doc_add-Outcome_example :
    Outcome
      (IsKept small)
      0
      7
      ([] ∷ [])
      ((16 ∷ 99 ∷ 0 ∷ 5 ∷ 0 ∷ 0 ∷ 0 ∷ []) ∷ [])
      small
      (doc_add exact (99 ∷ []) (Value.i32 5) small)
unfolding initialize_buffer value_bytes le_bytes
doc_add-Outcome_example =
    doc_add-Outcome exact exact-Grows (99 ∷ []) small 0 [] [] small-Shape (Value.i32 5) tt
      (omega arith)

sub_doc_run :
    Outcome
      (IsStarted fresh)
      0
      8
      ([] ∷ [])
      ([] ∷ key_bytes doc (98 ∷ []) ∷ [])
      fresh
      (doc_begin_sub_doc exact (98 ∷ []) fresh)
unfolding initialize_vector
sub_doc_run =
    begin_sub_doc-Outcome exact exact-Grows (98 ∷ []) fresh 0 [] [] fresh-Shape (omega arith)
      (omega arith)

sub_array_run :
    Outcome
      (IsStarted fresh)
      0
      8
      ([] ∷ [])
      ([] ∷ key_bytes array (98 ∷ []) ∷ [])
      fresh
      (doc_begin_sub_array exact (98 ∷ []) fresh)
unfolding initialize_vector
sub_array_run =
    begin_sub_array-Outcome exact exact-Grows (98 ∷ []) fresh 0 [] [] fresh-Shape (omega arith)
      (omega arith)

-- {"b": { with the inner document still open, in a buffer of thirteen bytes.
abbrev nested : Builder
nested = record blank {
  document_size_offsets = 7 ∷ [];
  buffer = 0 ∷ 0 ∷ 0 ∷ 0 ∷ 3 ∷ 98 ∷ 0 ∷ 0 ∷ 0 ∷ 0 ∷ 0 ∷ 0 ∷ 0 ∷ [];
  offset = 11;
  current_usage = 13;
  capacity = 13;
  depth = 1;
}

nested-Shape : Shape 0 ([] ∷ key_bytes doc (98 ∷ []) ∷ []) nested
nested-Shape = record {
  used = 0 ∷ 0 ∷ 0 ∷ 0 ∷ 3 ∷ 98 ∷ 0 ∷ 0 ∷ 0 ∷ 0 ∷ 0 ∷ [];
  free = 0 ∷ 0 ∷ [];
  split = refl;
  ends = refl;
  sized = refl;
  small = omega arith;
  reserved = refl;
  within = omega arith;
  deep = refl;
  shallow = omega arith;
  laid =
      open_doc (0 ∷ 0 ∷ 0 ∷ 0 ∷ 3 ∷ 98 ∷ 0 ∷ []) (0 ∷ 0 ∷ 0 ∷ 0 ∷ []) [] refl refl refl
        (root [] (0 ∷ 0 ∷ 0 ∷ 0 ∷ []) (3 ∷ 98 ∷ 0 ∷ []) refl refl refl);
}

end_document_lem_example :
    (b' : Builder) × (end_document nested ≡ some b')
    × Shape 0 ((key_bytes doc (98 ∷ []) ++ document []) ∷ []) b'
    × (b'.error_flag ≡ false)
    × (b'.growable ≡ false)
    × (b'.depth + 1 ≡ 1)
    × (b'.current_usage ≡ 13)
end_document_lem_example = end_document_lem nested 0 [] (key_bytes doc (98 ∷ [])) [] nested-Shape

finish_run_small :
    (b' : Builder) × (header : List ℕ) × (finish small ≡ some (some (document []), b'))
    × (take small.start_offset small.buffer ≡ header)
    × (b'.buffer ≡ (header ++ document []) ++ drop (small.offset + 1) small.buffer)
unfolding initialize_buffer
finish_run_small = finish_lem small 0 [] small-Shape refl

runs_finish_null : finish nested ≡ some (none, nested)
unfolding finish
runs_finish_null = refl
