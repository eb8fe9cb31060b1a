-- ===== src/SimData/Participants.antt =====
-- The participants of the simulator's data (core/src/sim_data.cpp), whose keys are written by
-- `docAddSubDocHex16Key` (core/src/sim_data_builder.cpp).
use sc_api.Common.{
  ℕ, ◌+◌, ◌/◌, ◌%◌, ◌^◌, ◌<◌, ◌≡◌, refl, ◌∙◌, ap, List, [], ◌∷◌, ◌++◌, some, All, length, arith,
  sym, append_assoc, append-nil, length-append,
}
use sc_api.Bytes.{le_bytes, read_bytes}
use sc_api.Bytes.Laws.{read_bytes-append, length-le_bytes}
use sc_api.Bson.Types.{ElementType}
use sc_api.Types.{codes}
use sc_api.Bson.Layout.{document, length-document}
use sc_api.Bson.Value.{Value, Fields, end, field, elements, value_bytes, key_bytes}
use sc_api.Bson.Reader.Pass.{IsNonZero}
use sc_api.Bson.Reader.Cross.{IsClean}
use sc_api.SimData.{
  Entries, RawData, hex_digit, convert_string_numeric_key, conclude_parse, empty_state,
  parse_from_raw,
}
use sc_api.SimData.Keys.{k_hex, hex16_key, hex_digit-k_hex, convert_string_numeric_key-hex16_key}
use sc_api.SimData.Sections.{entries_of}
use sc_api.SimData.Parse.{effects, document_effect, parse_from_raw-effects}
use sc_api.Bson.Reader.Seek.{same_key}

-- The tree of a section with these objects, and the document that holds it.
unfoldable pub numbered : List (ℕ × Fields) → Fields
numbered [] = end
numbered ((id, properties) ∷ objects) =
    field (hex16_key id) (Value.doc properties) (numbered objects)

abbrev pub participants_document : List (ℕ × Fields) → Fields
participants_document objects = field (codes "participants") (Value.doc (numbered objects)) end

-- An object whose number fits the key, and whose properties have names without zero bytes.
abbrev pub IsObject : ℕ × Fields → Type 0
IsObject (id, properties) = (id < 2 ^ 16) × IsClean properties

digit_nonzero : (c d : ℕ) → hex_digit c ≡ some d → 0 < c
digit_nonzero c d h = ground arith

k_hex-IsNonZero : (d : ℕ) → d < 16 → IsNonZero (k_hex d)
k_hex-IsNonZero d h = digit_nonzero (k_hex d) d (hex_digit-k_hex d h)

hex16_key-IsNonZero : (id : ℕ) → All IsNonZero (hex16_key id)
unfolding hex16_key
hex16_key-IsNonZero id = (
  k_hex-IsNonZero (id / 2 ^ 12 % 16) (omega arith),
  (
    k_hex-IsNonZero (id / 2 ^ 8 % 16) (omega arith),
    (
      k_hex-IsNonZero (id / 2 ^ 4 % 16) (omega arith),
      (k_hex-IsNonZero (id % 16) (omega arith), tt),
    ),
  ),
)

numbered-IsClean : (objects : List (ℕ × Fields)) → All IsObject objects → IsClean (numbered objects)
unfolding numbered IsClean
numbered-IsClean [] h = tt
numbered-IsClean ((id, properties) ∷ objects) h =
    (hex16_key-IsNonZero id, h.0.1, numbered-IsClean objects h.1)

-- The entries are the objects, in order: each has the number, and its properties' document stands
-- in the buffer at its place.
abbrev pub AreObjects : List ℕ → Entries ℕ → List (ℕ × Fields) → Type 0
AreObjects buf [] [] = Unit
AreObjects buf [] (o ∷ objects) = ⊥
AreObjects buf (e ∷ es) [] = ⊥
AreObjects buf ((id, at) ∷ es) ((number, properties) ∷ objects) =
    (id ≡ number)
    × (read_bytes buf at (length (elements properties) + 5) ≡ some (document (elements properties)))
    × AreObjects buf es objects

AreObjects-entries_of :
    (objects : List (ℕ × Fields)) (buf pre post : List ℕ) (pos : ℕ)
    → All IsObject objects
    → buf ≡ pre ++ (elements (numbered objects) ++ post)
    → pos ≡ length pre
    → AreObjects buf (entries_of convert_string_numeric_key pos (numbered objects)) objects
unfolding numbered entries_of elements
AreObjects-entries_of [] buf pre post pos h e here = tt
AreObjects-entries_of ((id, properties) ∷ objects) buf pre post pos h e here =
    let k = hex16_key id in
    let v = Value.doc properties in
    let key = key_bytes ElementType.doc k in
    let rest = elements (numbered objects) ++ post in
    let long : length key ≡ length k + 2 = omega (arith, length-append k (0 ∷ [])) in
    let size = length-document (elements properties) in
    let whole : buf ≡ (pre ++ key) ++ (document (elements properties) ++ rest) =
      e
      ∙ ap (λ l. pre ++ l)
          (append_assoc (key ++ value_bytes v) (elements (numbered objects)) post
            ∙ append_assoc key (value_bytes v) rest)
      ∙ sym (append_assoc pre key (document (elements properties) ++ rest)) in
    rw (convert_string_numeric_key-hex16_key id h.0.0) (
      refl,
      ap (λ l. read_bytes l (pos + (length k + 2)) (length (elements properties) + 5)) whole
          ∙ read_bytes-append (pre ++ key) (document (elements properties)) rest
              (pos + (length k + 2)) (length (elements properties) + 5)
              (omega (arith, here, long, length-append pre key)) (sym size),
      AreObjects-entries_of objects buf ((pre ++ key) ++ document (elements properties)) post
          (pos + (length k + 2) + length (value_bytes v)) h.1
          (whole ∙ sym (append_assoc (pre ++ key) (document (elements properties)) rest))
          (omega (
            arith,
            here,
            long,
            length-append pre key,
            length-append (pre ++ key) (document (elements properties)),
          )),
    )

-- The bytes of the whole document, from the section's objects on.
section_start : List (ℕ × Fields) → List ℕ
section_start objects =
    let body = elements (participants_document objects) in
    le_bytes 4 (length body + 5)
    ++ (key_bytes ElementType.doc (codes "participants")
        ++ le_bytes 4 (length (elements (numbered objects)) + 5))

participants_bytes :
    (objects : List (ℕ × Fields)) (post : List ℕ)
    → document (elements (participants_document objects)) ++ post
      ≡ section_start objects ++ (elements (numbered objects) ++ (0 ∷ 0 ∷ post))
unfolding section_start elements
participants_bytes objects post = simp (append_assoc, append-nil)

length-section_start : (objects : List (ℕ × Fields)) → length (section_start objects) ≡ 22
unfolding section_start
length-section_start objects =
    let n = length (elements (participants_document objects)) + 5 in
    let m = length (elements (numbered objects)) + 5 in
    let key = key_bytes ElementType.doc (codes "participants") in
    length-append (le_bytes 4 n) (key ++ le_bytes 4 m)
    ∙ omega (arith, length-le_bytes 4 n, length-append key (le_bytes 4 m), length-le_bytes 4 m)

-- Every participant is read back under the number that its key was written for, in order, with the
-- place of its properties.
pub parse_from_raw-participants :
    (objects : List (ℕ × Fields)) (post : List ℕ) (revision : ℕ)
    → All IsObject objects
    → length (elements (participants_document objects)) + 5 < 2 ^ 31
    → (d : RawData) × (parse_from_raw
          (some (document (elements (participants_document objects)) ++ post))
          revision
        ≡ some (some d))
      × AreObjects
          (document (elements (participants_document objects)) ++ post)
          d.participants
          objects
unfolding effects document_effect conclude_parse IsClean same_key
parse_from_raw-participants objects post revision h small = (
  conclude_parse (effects (participants_document objects) 4 empty_state),
  parse_from_raw-effects (participants_document objects) post revision
      (omega arith, numbered-IsClean objects h, tt) small,
  AreObjects-entries_of objects _ (section_start objects) (0 ∷ 0 ∷ post) _ h
      (participants_bytes objects post) (sym (length-section_start objects)),
)
