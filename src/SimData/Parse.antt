-- ===== src/SimData/Parse.antt =====
-- `SimData::parseFromRaw` (core/src/sim_data.cpp) against the tree of its document.
use sc_api.Common.{
  ℕ, zero, suc, ◌+◌, ◌^◌, ◌<◌, ◌≡◌, refl, List, ◌++◌, Option, some, length, arith, Bool-cases, inl,
  inr, if◌then◌else◌,
}
use sc_api.Types.{codes}
use sc_api.Bson.Layout.{document}
use sc_api.Bson.Value.{Value, Fields, end, field, value_bytes, elements, type_of}
use sc_api.Bson.Reader.{Reader}
use sc_api.Bson.Reader.Seek.{same_key}
use sc_api.Bson.Reader.Values.{Started, started}
use sc_api.Bson.Reader.Cross.{IsClean, IsCleanValue}
use sc_api.Bson.Reader.Pass.{type_of-goes}
use sc_api.Bson.Reader.Accept.{Begins}
use sc_api.Bson.Reader.Walk.{
  count, count-le, Visited, visit, finish_walk, element_bytes, string_value-text,
}
use sc_api.SimData.{
  ParseState, convert_string_numeric_key, named, read_document, read_text, read_item, parse_items,
  conclude_parse, empty_state, parse_from_raw,
}
use sc_api.SimData.Sections.{entries_of, read_section-entries}

-- What a document with a key does to the data, its value beginning at an offset.
unfoldable pub document_effect : List ℕ → Fields → ℕ → ParseState → ParseState
document_effect k sub at s =
    let raw = s.raw in
    if same_key k (codes "vehicles")
    then record s {
      raw = record raw {
        vehicles = raw.vehicles ++ entries_of named (at + 4) sub;
        vehicles_raw_bson = some at;
      };
    }
    else if same_key k (codes "participants")
    then record s {
      raw = record raw {
        participants = raw.participants ++ entries_of convert_string_numeric_key (at + 4) sub;
        participant_raw_bson = some at;
      };
    }
    else if same_key k (codes "sessions")
    then record s { raw = record raw { sessions = raw.sessions ++ entries_of named (at + 4) sub } }
    else if same_key k (codes "tracks")
    then record s { raw = record raw { tracks = raw.tracks ++ entries_of named (at + 4) sub } }
    else if same_key k (codes "tires")
    then record s {
      raw = record raw {
        tires = raw.tires ++ entries_of convert_string_numeric_key (at + 4) sub;
        tires_raw_bson = some at;
      };
    }
    else if same_key k (codes "sim")
    then record s { sim_data_ptr = some at }
    else s

unfoldable pub text_effect : List ℕ → List ℕ → ParseState → ParseState
text_effect k text s =
    if same_key k (codes "active_session")
    then record s { active_session = text }
    else if same_key k (codes "active_sim")
    then record s { active_sim = text }
    else s

abbrev pub effect : List ℕ → Value → ℕ → ParseState → ParseState
effect k (Value.doc sub) at s = document_effect k sub at s
effect k (Value.str text) at s = text_effect k text s
effect k v at s = s

-- What the elements from an offset on do, one after the other.
unfoldable pub effects : Fields → ℕ → ParseState → ParseState
effects end pos s = s
effects (field k v fs) pos s =
    effects fs (pos + (length k + 2) + length (value_bytes v)) (effect k v (pos + (length k + 2)) s)

-- The reader behind an element, and what the element did.
abbrev Read :
    List ℕ
    → Value
    → Fields
    → List ℕ
    → List ℕ
    → ℕ
    → ℕ
    → ParseState
    → Option (Reader × ParseState)
    → Type 0
Read k v fs pre post pos depth s res =
    (r' : Reader) × (res ≡ some (r', effect k v (pos + (length k + 2)) s))
    × Begins fs (pre ++ element_bytes k v) post (pos + (length k + 2) + length (value_bytes v))
        depth r'

module _ (k : List ℕ) (fs : Fields) (pre post : List ℕ) (pos depth : ℕ) (r : Reader)
    (s : ParseState) where
  module _ (sub : Fields) (x : Visited k (Value.doc sub) fs pre post pos depth r)
      (shallow : depth < 16) (clean : IsClean sub) where
    abbrev at : ℕ
    at = pos + (length k + 2)

    -- By the key of the section.
    read_document-Read : Read k (Value.doc sub) fs pre post pos depth s (read_document x.after s)
    unfolding read_document document_effect
    read_document-Read = elim (Bool-cases (same_key k (codes "vehicles"))) [
      | inl e0 ↦
          let (r', f, b) =
            read_section-entries named k sub fs pre post pos depth r s.raw.vehicles x shallow
              clean in
          (r', simp (x.key, x.at, e0, f), b)
      | inr e0 ↦ elim (Bool-cases (same_key k (codes "participants"))) [
        | inl e1 ↦
            let (r', f, b) =
              read_section-entries convert_string_numeric_key k sub fs pre post pos depth r
                s.raw.participants x shallow clean in
            (r', simp (x.key, x.at, e0, e1, f), b)
        | inr e1 ↦ elim (Bool-cases (same_key k (codes "sessions"))) [
          | inl e2 ↦
              let (r', f, b) =
                read_section-entries named k sub fs pre post pos depth r s.raw.sessions x shallow
                  clean in
              (r', simp (x.key, x.at, e0, e1, e2, f), b)
          | inr e2 ↦ elim (Bool-cases (same_key k (codes "tracks"))) [
            | inl e3 ↦
                let (r', f, b) =
                  read_section-entries named k sub fs pre post pos depth r s.raw.tracks x shallow
                    clean in
                (r', simp (x.key, x.at, e0, e1, e2, e3, f), b)
            | inr e3 ↦ elim (Bool-cases (same_key k (codes "tires"))) [
              | inl e4 ↦
                  let (r', f, b) =
                    read_section-entries convert_string_numeric_key k sub fs pre post pos depth r
                      s.raw.tires x shallow clean in
                  (r', simp (x.key, x.at, e0, e1, e2, e3, e4, f), b)
              | inr e4 ↦ elim (Bool-cases (same_key k (codes "sim"))) [
                | inl e5 ↦ (x.after, simp (x.key, x.at, e0, e1, e2, e3, e4, e5), x.others)
                | inr e5 ↦ (x.after, simp (x.key, x.at, e0, e1, e2, e3, e4, e5), x.others)
              ]
            ]
          ]
        ]
      ]
    ]

  module _ (text : List ℕ) (x : Visited k (Value.str text) fs pre post pos depth r) where
    read_text-Read : Read k (Value.str text) fs pre post pos depth s (read_text x.after s)
    unfolding read_text text_effect
    read_text-Read =
        let t = string_value-text text k fs pre post pos depth r x in
        elim (Bool-cases (same_key k (codes "active_session"))) [
          | inl e0 ↦ (x.after, simp (x.key, e0, t), x.others)
          | inr e0 ↦ elim (Bool-cases (same_key k (codes "active_sim"))) [
            | inl e1 ↦ (x.after, simp (x.key, e0, e1, t), x.others)
            | inr e1 ↦ (x.after, simp (x.key, e0, e1), x.others)
          ]
        ]

  read_item-Read :
      (v : Value)
      → (x : Visited k v fs pre post pos depth r) → depth < 16
      → IsCleanValue v
      → Read k v fs pre post pos depth s (read_item (type_of v) x.after s)
  unfolding read_item IsCleanValue
  read_item-Read (Value.doc sub) x shallow clean = read_document-Read sub x shallow clean
  read_item-Read (Value.str text) x shallow clean = read_text-Read text x
  read_item-Read (Value.boolean b) x shallow clean = (x.after, refl, x.others)
  read_item-Read (Value.double b) x shallow clean = (x.after, refl, x.others)
  read_item-Read (Value.i32 b) x shallow clean = (x.after, refl, x.others)
  read_item-Read (Value.i64 b) x shallow clean = (x.after, refl, x.others)
  read_item-Read Value.null x shallow clean = (x.after, refl, x.others)
  read_item-Read (Value.binary bs t) x shallow clean = (x.after, refl, x.others)

parse_items-effects :
    (fs : Fields) (pre post : List ℕ) (pos depth fuel : ℕ) (r : Reader) (s : ParseState)
    → Begins fs pre post pos depth r
    → IsClean fs
    → depth < 16
    → count fs < fuel
    → parse_items fuel r s ≡ some (effects fs pos s)
unfolding count IsClean effects parse_items
parse_items-effects fs pre post pos depth zero r s b c shallow h = absurd (omega arith)
parse_items-effects end pre post pos depth (suc fuel) r s b c shallow h =
    rw (finish_walk pre post pos depth r b, parse_items) refl
parse_items-effects (field k v fs) pre post pos depth (suc fuel) r s b c shallow h =
    let x = visit k v fs pre post pos depth r b c.0 in
    let (r', e, b') = read_item-Read k fs pre post pos depth r s v x shallow c.1 in
    rw (x.result, parse_items)
      (rw (type_of-goes v, e)
        (parse_items-effects fs _ post _ depth fuel r' _ b' c.2 shallow (omega arith)))

pub parse_from_raw-effects :
    (fs : Fields) (post : List ℕ) (revision : ℕ)
    → IsClean fs
    → length (elements fs) + 5 < 2 ^ 31
    → parse_from_raw (some (document (elements fs) ++ post)) revision
      ≡ some (some (conclude_parse (effects fs 4 empty_state)))
unfolding parse_from_raw
parse_from_raw-effects fs post revision clean small =
    let s : Started fs post = started fs post small in
    rw (s.built) (
      rw
        (parse_items-effects fs s.front post 4 0 (s.first.cur_doc_end + 2) s.first empty_state
          s.begins clean (omega arith) (omega (arith, s.ends, count-le fs)))
        refl)
