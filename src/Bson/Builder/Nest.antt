-- ===== src/Bson/Builder/Nest.antt =====
-- Opening and closing documents and arrays, and `finish`, of `BsonBuilder`
-- (core/src/util/bson_builder.cpp).
use sc_api.Common.{
  ℕ, ◌+◌, ◌-◌, ◌^◌, ◌≤◌, ◌<◌, ◌≡◌, refl, sym, ap, ◌∙◌, append-nil, List, [], ◌∷◌, ◌++◌, some,
  length, take, drop, arith, length-append, length-drop, length-take, append_assoc,
  take-append-drop,
}
use sc_api.Bson.Types.{ElementType, doc, array}
use sc_api.Bson.Layout.{open_doc, Laid-append}
use sc_api.Bson.Value.{key_bytes}
use sc_api.Bson.Builder.{Builder, open_level, set_bit, clear_bit}
use sc_api.Bson.Builder.Elements.{doc_begin_sub_doc, doc_begin_sub_array}
use sc_api.Bson.Builder.Shape.{Shape, Grows}
use sc_api.Bson.Builder.Add.{Outcome}
use sc_api.Bson.Builder.Insert.{keyed, insert-then, length-key}

-- The document begins where it did.
abbrev pub IsStarted : Builder → Builder → Type 0
IsStarted b b' = b'.start_offset ≡ b.start_offset

-- The fields of an opened document, but for the array's own ones.
abbrev opened : Builder → Builder
opened b = record b {
  document_size_offsets = b.offset ∷ b.document_size_offsets;
  offset = b.offset + 4;
  depth = b.depth + 1;
}

open_level-doc :
    (b : Builder)
    → b.depth + 1 < 64
    → b.offset + 4 < 2 ^ 32
    → open_level doc b
      ≡ some (record (opened b) { doc_is_array_bits = clear_bit b.doc_is_array_bits (b.depth + 1) })
unfolding open_level
open_level-doc b h k = ground arith

open_level-array :
    (b : Builder)
    → b.depth + 1 < 64
    → b.offset + 4 < 2 ^ 32
    → open_level array b
      ≡ some (record (opened b) {
        array_idx_counters = 0 ∷ b.array_idx_counters;
        doc_is_array_bits = set_bit b.doc_is_array_bits (b.depth + 1);
      })
unfolding open_level
open_level-array b h k = ground arith

module _ (t : ElementType) (name : List ℕ) (b0 : Builder) (footer : ℕ) (body : List ℕ)
    (levels : List (List ℕ)) (s : Shape footer (body ∷ levels) b0)
    (room : b0.current_usage + (5 + 2 + length name) ≤ b0.capacity)
    (shallow : b0.depth + 1 < 64) where
  -- The opened document begins with four bytes that hold what was there before.
  opened-Shape :
      (counters : List ℕ) (bits : ℕ)
      → Shape footer
          ([] ∷ (body ++ key_bytes t name) ∷ levels)
          (record (opened (keyed t name 5 b0 footer body levels s room)) {
            array_idx_counters = counters;
            doc_is_array_bits = bits;
          })
  opened-Shape counters bits =
      let key : List ℕ = key_bytes t name in
      let left : List ℕ = drop (length name + 2) s.free in
      let nl : length left ≡ length s.free - (length name + 2) =
        length-drop (length name + 2) s.free in
      let nk : length (s.used ++ key) ≡ length s.used + (length name + 2) =
        omega (arith, length-append s.used key, length-key t name) in
      let four : length (take 4 left) ≡ 4 =
        omega (arith, length-take 4 left, s.sized, s.reserved, s.ends) in
      record {
        used = (s.used ++ key) ++ (take 4 left ++ []);
        free = drop 4 left;
        split = rw (append-nil (take 4 left)) (
            sym (
              append_assoc (s.used ++ key) (take 4 left) (drop 4 left)
              ∙ ap (λ l. (s.used ++ key) ++ l) (take-append-drop 4 left)));
        ends = omega (
          arith,
          nk,
          four,
          length-append (s.used ++ key) (take 4 left ++ []),
          length-append (take 4 left) [],
        );
        sized = omega (
          arith,
          nk,
          nl,
          four,
          length-append (s.used ++ key) (take 4 left ++ []),
          length-append (take 4 left) [],
          length-drop 4 left,
          s.sized,
          s.reserved,
          s.ends,
        );
        small = s.small;
        reserved = omega (arith, s.reserved, s.ends);
        within = room;
        deep = omega (arith, s.deep);
        shallow = shallow;
        laid =
            open_doc (s.used ++ key) (take 4 left) [] refl (sym nk) four (Laid-append key s.laid);
      }

module _ (grown : ℕ → ℕ → ℕ) (g : Grows grown) (name : List ℕ) (b : Builder) (footer : ℕ)
    (body : List ℕ) (levels : List (List ℕ)) (s : Shape footer (body ∷ levels) b)
    (room : b.current_usage + (5 + 2 + length name) < 2 ^ 31) (shallow : b.depth + 1 < 64) where
  -- `docBeginSubDoc`, from a builder with the documents `body ∷ levels` open, fewer than 63 of them
  -- inside the outermost, and the bytes in use with the new ones below 2^31: the key goes behind
  -- `body` and an empty document is the innermost; or nothing changes but the error flag, and only
  -- if the buffer cannot grow and the bytes do not fit.
  pub begin_sub_doc-Outcome :
      Outcome
        (IsStarted b)
        footer
        (5 + 2 + length name)
        (body ∷ levels)
        ([] ∷ (body ++ key_bytes doc name) ∷ levels)
        b
        (doc_begin_sub_doc grown name b)
  unfolding doc_begin_sub_doc
  begin_sub_doc-Outcome =
      insert-then grown doc name 5 (open_level doc) b footer body levels _ (IsStarted b) g s room
        λ b0 s0 h d. (
          record (opened (keyed doc name 5 b0 footer body levels s0 h)) {
            doc_is_array_bits = clear_bit b0.doc_is_array_bits (b0.depth + 1);
          },
          open_level-doc (keyed doc name 5 b0 footer body levels s0 h) (omega (arith, d.4))
              (omega (arith, s0.sized, s0.reserved, s0.ends, s0.small)),
          opened-Shape doc name b0 footer body levels s0 h (omega (arith, d.4)) _ _,
          d.0,
          refl,
          refl,
          refl,
        )

  -- `docBeginSubArray` under the same conditions: the key goes behind `body` and an empty document
  -- is the innermost; or nothing changes but the error flag, and only if the buffer cannot grow and
  -- the bytes do not fit.
  pub begin_sub_array-Outcome :
      Outcome
        (IsStarted b)
        footer
        (5 + 2 + length name)
        (body ∷ levels)
        ([] ∷ (body ++ key_bytes array name) ∷ levels)
        b
        (doc_begin_sub_array grown name b)
  unfolding doc_begin_sub_array
  begin_sub_array-Outcome =
      insert-then grown array name 5 (open_level array) b footer body levels _ (IsStarted b) g s
        room
        λ b0 s0 h d. (
          record (opened (keyed array name 5 b0 footer body levels s0 h)) {
            array_idx_counters = 0 ∷ b0.array_idx_counters;
            doc_is_array_bits = set_bit b0.doc_is_array_bits (b0.depth + 1);
          },
          open_level-array (keyed array name 5 b0 footer body levels s0 h) (omega (arith, d.4))
              (omega (arith, s0.sized, s0.reserved, s0.ends, s0.small)),
          opened-Shape array name b0 footer body levels s0 h (omega (arith, d.4)) _ _,
          d.0,
          refl,
          refl,
          refl,
        )
