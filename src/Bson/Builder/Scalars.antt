-- ===== src/Bson/Builder/Scalars.antt =====
-- The `docAddElement` methods of `BsonBuilder` (core/src/util/bson_builder.cpp), one by one.
use sc_api.Common.{
  ℕ, ◌+◌, ◌^◌, ◌%◌, ◌<◌, ◌≡◌, refl, sym, ap, ap₂, append-nil, ◌∙◌, List, [], ◌∷◌, ◌++◌, Option,
  none, some, Bool, true, false, length, arith, length-append, if◌then◌else◌, ◌>>=◌,
}
use sc_api.Bytes.{le_bytes, add32, slt32}
use sc_api.Bytes.Laws.{length-le_bytes}
use sc_api.Bson.Types.{ElementType}
use sc_api.Bson.Value.{key_bytes, Value, value_bytes, type_of}
use sc_api.Bson.Builder.{Builder, put, insert_key}
use sc_api.Bson.Builder.Elements.{
  with_value, put_string, put_binary, doc_add_bool, doc_add_double, doc_add_int32, doc_add_int64,
  doc_add_null, doc_add_string, doc_add_binary,
}
use sc_api.Bson.Builder.Shape.{Shape, Grows}
use sc_api.Bson.Builder.Add.{Writes, put-Writes, Writes-seq, Outcome}
use sc_api.Bson.Builder.Prepare.{IsKept}
use sc_api.Bson.Builder.Insert.{insert-Outcome}

fixed-Writes : (n v : ℕ) → Writes n (le_bytes n v) (put (le_bytes n v))
fixed-Writes n v = record {
  size = length-le_bytes n v;
  does = rw (length-le_bytes n v) at (put-Writes (le_bytes n v)).does;
}

put_string-Writes :
    (s : List ℕ)
    → length s + 1 < 2 ^ 31
    → Writes (length s + 5) (le_bytes 4 (length s + 1) ++ (s ++ (0 ∷ []))) (put_string s)
unfolding put_string
put_string-Writes s h =
    let n : add32 (length s) 1 ≡ length s + 1 = omega arith in
    rw (n, put_string)
      (Writes-seq 4 (length s + 1) (length s + 5) (le_bytes 4 (length s + 1)) (s ++ (0 ∷ []))
        (put (le_bytes 4 (length s + 1))) (λ b1. put s b1 >>= put (0 ∷ []))
        (fixed-Writes 4 (length s + 1))
        (Writes-seq (length s) 1 (length s + 1) s (0 ∷ []) (put s) (put (0 ∷ [])) (put-Writes s)
          (put-Writes (0 ∷ [])) refl)
        (omega arith))

put_binary-Writes :
    (bs : List ℕ) (subtype : ℕ)
    → length bs < 2 ^ 31
    → Writes (length bs + 5) (le_bytes 4 (length bs) ++ (subtype ∷ bs)) (put_binary bs subtype)
unfolding put_binary
put_binary-Writes bs subtype h =
    let n : length bs % 2 ^ 32 ≡ length bs = omega arith in
    rw (n, put_binary)
      (Writes-seq 4 (length bs + 1) (length bs + 5) (le_bytes 4 (length bs)) (subtype ∷ bs)
        (put (le_bytes 4 (length bs))) (λ b1. put (subtype ∷ []) b1 >>= put bs)
        (fixed-Writes 4 (length bs))
        (Writes-seq 1 (length bs) (length bs + 1) (subtype ∷ []) bs (put (subtype ∷ [])) (put bs)
          (put-Writes (subtype ∷ [])) (put-Writes bs) (omega arith))
        (omega arith))

-- No bytes behind the key.
nothing-Writes : Writes 0 [] some
nothing-Writes = record {
  size = refl;
  does = λ b used free split ends small room.
      ap₂ (λ buf off. some (record b { buffer = buf; offset = off }))
        (split ∙ ap (λ l. l ++ free) (sym (append-nil used))) (omega arith);
}

with_value-some : (m : Option (Bool × Builder)) → with_value m some ≡ m
with_value-some none = refl
with_value-some (some (true, b)) = refl
with_value-some (some (false, b)) = refl

-- Adding an element, by its value; a document is added by `Build`.
unfoldable pub doc_add : (ℕ → ℕ → ℕ) → List ℕ → Value → Builder → Option (Bool × Builder)
doc_add grown k (Value.boolean x) b = doc_add_bool grown k x b
doc_add grown k (Value.double v) b = doc_add_double grown k v b
doc_add grown k (Value.i32 v) b = doc_add_int32 grown k v b
doc_add grown k (Value.i64 v) b = doc_add_int64 grown k v b
doc_add grown k Value.null b = doc_add_null grown k b
doc_add grown k (Value.str s) b = doc_add_string grown k s b
doc_add grown k (Value.binary bs subtype) b = doc_add_binary grown k bs subtype b
doc_add grown k (Value.doc fs) b = none

abbrev pub IsScalar : Value → Type 0
IsScalar (Value.doc fs) = ⊥
IsScalar v = Unit

module _ (grown : ℕ → ℕ → ℕ) (g : Grows grown) (k : List ℕ) (b : Builder) (footer : ℕ)
    (body : List ℕ) (levels : List (List ℕ)) (s : Shape footer (body ∷ levels) b) where
  abbrev Adds : Value → Type 0
  Adds v =
      b.current_usage + (length (value_bytes v) + 2 + length k) < 2 ^ 31
      → Outcome (IsKept b) footer (length (value_bytes v) + 2 + length k) (body ∷ levels)
          ((body ++ (key_bytes (type_of v) k ++ value_bytes v)) ∷ levels) b (doc_add grown k v b)

  scalar :
      (t : ElementType) (n : ℕ) (bs : List ℕ) (write : Builder → Option Builder)
      → Writes n bs write
      → b.current_usage + (length bs + 2 + length k) < 2 ^ 31
      → Outcome
          (IsKept b)
          footer
          (length bs + 2 + length k)
          (body ∷ levels)
          ((body ++ (key_bytes t k ++ bs)) ∷ levels)
          b
          (with_value (insert_key grown t k n b) write)
  scalar t n bs write w room =
      rw w.size
        (insert-Outcome grown t k n bs write b footer body levels g w s (omega (arith, w.size)))

  -- `docAddElement` of a boolean, a double, an integer, a null, a text or binary data, where the
  -- bytes in use with the element's are below 2^31: the element's bytes go behind `body`, and no other
  -- field changes but those of the buffer, its size and what is used of it; or nothing changes but the
  -- error flag, and only if the buffer cannot grow and the bytes do not fit.
  pub doc_add-Outcome : (v : Value) → IsScalar v → Adds v
  unfolding doc_add value_bytes doc_add_bool doc_add_double doc_add_int32 doc_add_int64 doc_add_null
      doc_add_string doc_add_binary
  doc_add-Outcome (Value.boolean x) c room =
      scalar ElementType.boolean 1 _ _ (put-Writes ((if x then 1 else 0) ∷ [])) room
  doc_add-Outcome (Value.double v) c room = scalar ElementType.double 8 _ _ (fixed-Writes 8 v) room
  doc_add-Outcome (Value.i32 v) c room = scalar ElementType.i32 4 _ _ (fixed-Writes 4 v) room
  doc_add-Outcome (Value.i64 v) c room = scalar ElementType.i64 8 _ _ (fixed-Writes 8 v) room
  doc_add-Outcome Value.null c room =
      rw (with_value-some (insert_key grown ElementType.null k 0 b)) at
        (scalar ElementType.null 0 [] some nothing-Writes room)
  doc_add-Outcome (Value.str t) c room =
      let n : length (le_bytes 4 (length t + 1) ++ (t ++ (0 ∷ []))) ≡ length t + 5 = omega (
        arith,
        length-append (le_bytes 4 (length t + 1)) (t ++ (0 ∷ [])),
        length-append t (0 ∷ []),
        length-le_bytes 4 (length t + 1),
      ) in
      let e : add32 (add32 (length t) 1) 4 ≡ length t + 5 = omega (arith, n) in
      rw e (
        scalar ElementType.str (length t + 5) _ (put_string t)
          (put_string-Writes t (omega (arith, n))) room)
  doc_add-Outcome (Value.binary bs subtype) c room =
      let n : length (le_bytes 4 (length bs) ++ (subtype ∷ bs)) ≡ length bs + 5 = omega (
        arith,
        length-append (le_bytes 4 (length bs)) (subtype ∷ bs),
        length-le_bytes 4 (length bs),
      ) in
      let e : add32 (add32 (length bs % 2 ^ 32) 4) 1 ≡ length bs + 5 = omega (arith, n) in
      let positive : slt32 (length bs % 2 ^ 32) 0 ≡ false = ground (arith, n) in
      rw positive (
        rw e (
          scalar ElementType.binary (length bs + 5) _ (put_binary bs subtype)
            (put_binary-Writes bs subtype (omega (arith, n))) room))
  doc_add-Outcome (Value.doc fs) c room = absurd c
