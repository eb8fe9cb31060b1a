-- ===== src/SimData.antt =====
-- `SimData` of core/src/sim_data.cpp and core/inc/sc-api/core/sim_data.h: the BSON document about the
-- simulator, read with `BsonReader`. A pointer into the document is its offset, and a null pointer
-- or an index of -1 is `none`.
pub mod Keys
pub mod Sections
pub mod Parse
pub mod Participants
pub mod Update
mod Tests
use sc_api.Common.{
  ℕ, zero, suc, ◌+◌, ◌-◌, ◌*◌, List, [], ◌∷◌, ◌++◌, Option, none, some, Bool, true, false, ◌&&◌,
  not, leb, ◌==◌, length, get_elem?, if◌then◌else◌, ◌>>=◌,
}
use sc_api.Types.{codes}
use sc_api.Bson.Types.{ElementType, doc, str}
use sc_api.Bson.Reader.{Reader, next, begin_sub, end_sub, is_end, at_end, reader_of}
use sc_api.Bson.Reader.Seek.{same_key}
use sc_api.Bson.Reader.Get.{string_value}

abbrev pub hex_digit : ℕ → Option ℕ
hex_digit c =
    if leb b'0' c && leb c b'9'
    then some (c - b'0')
    else if leb b'A' c && leb c b'F'
    then some (c - b'A' + 10)
    else if leb b'a' c && leb c b'f'
    then some (c - b'a' + 10)
    else none

-- The loop of `convertStringNumericKey`
unfoldable pub convert_from : ℕ → List ℕ → Option ℕ
convert_from num [] = some num
convert_from num (c ∷ s) = hex_digit c >>= λ d. convert_from (num * 16 + d) s

-- `convertStringNumericKey`; -1 is `none`.
unfoldable pub convert_string_numeric_key : List ℕ → Option ℕ
unfolding convert_from
convert_string_numeric_key s = if length s == 4 then convert_from 0 s else none

-- The objects of a section: the id and where the document is.
abbrev pub Entries : Type 0 → Type 0
Entries I = List (I × ℕ)

-- `SimData::RawData`, but for the pointer to the buffer
pub record RawData : Type 0 where
  pub revision : ℕ
  pub active_session_idx : Option ℕ
  pub sim : Option (List ℕ × ℕ)
  pub vehicles : Entries (List ℕ)
  pub sessions : Entries (List ℕ)
  pub tracks : Entries (List ℕ)
  pub participants : Entries ℕ
  pub tires : Entries ℕ
  pub participant_raw_bson : Option ℕ
  pub vehicles_raw_bson : Option ℕ
  pub tires_raw_bson : Option ℕ

-- The local variables of `parseFromRaw`
pub record ParseState : Type 0 where
  pub raw : RawData
  pub sim_data_ptr : Option ℕ
  pub active_session : List ℕ
  pub active_sim : List ℕ

abbrev pub empty_raw : RawData
empty_raw = record {
  revision = 0;
  active_session_idx = none;
  sim = none;
  vehicles = [];
  sessions = [];
  tracks = [];
  participants = [];
  tires = [];
  participant_raw_bson = none;
  vehicles_raw_bson = none;
  tires_raw_bson = none;
}

abbrev pub empty_state : ParseState
empty_state = record { raw = empty_raw; sim_data_ptr = none; active_session = []; active_sim = [] }

-- An element of a section: a document whose key is an id.
abbrev pub add_id : {I : Type 0} → Option I → ℕ → Entries I → Entries I
add_id none at acc = acc
add_id (some id) at acc = acc ++ (id, at) ∷ []

abbrev pub add_entry :
    {I : Type 0} → (List ℕ → Option I) → ElementType → Reader → Entries I → Entries I
add_entry id_of doc r acc = add_id (id_of r.key) r.buf_offset acc
add_entry id_of t r acc = acc

-- The loops `while (!r.atEnd())` over the elements of a section. A round takes two bytes at least,
-- so one for each byte and two are enough.
unfoldable pub collect :
    {I : Type 0} → (List ℕ → Option I) → ℕ → Reader → Entries I → Option (Reader × Entries I)
collect id_of zero r acc = none
collect id_of (suc fuel) r acc = elim (at_end r) [
  | true ↦ some (r, acc)
  | false ↦ elim (next r) [
    | none ↦ none
    | some (t, r1) ↦ collect id_of fuel r1 (add_entry id_of t r1 acc)
  ]
]

-- A section, from `beginSub` to `endSub`.
unfoldable pub read_section :
    {I : Type 0} → (List ℕ → Option I) → Reader → Entries I → Option (Reader × Entries I)
unfolding collect
read_section id_of r acc = begin_sub r >>= λ b.
    collect id_of (b.1.cur_doc_end + 2) b.1 acc >>= λ s. some ((end_sub s.0).1, s.1)

-- The ids of vehicles, sessions and tracks are their keys.
abbrev pub named : List ℕ → Option (List ℕ)
named k = some k

-- The branches of `parseFromRaw` on a document, by its key, at the offset of its value.
unfoldable pub read_document : Reader → ParseState → Option (Reader × ParseState)
unfolding read_section
read_document r s =
    let at = some r.buf_offset in
    let raw = s.raw in
    if same_key r.key (codes "vehicles")
    then (read_section named r raw.vehicles >>= λ x.
        some (x.0, record s { raw = record raw { vehicles = x.1; vehicles_raw_bson = at } }))
    else if same_key r.key (codes "participants")
    then (read_section convert_string_numeric_key r raw.participants >>= λ x.
        some (x.0, record s { raw = record raw { participants = x.1; participant_raw_bson = at } }))
    else if same_key r.key (codes "sessions")
    then (read_section named r raw.sessions >>= λ x.
        some (x.0, record s { raw = record raw { sessions = x.1 } }))
    else if same_key r.key (codes "tracks")
    then (read_section named r raw.tracks >>= λ x.
        some (x.0, record s { raw = record raw { tracks = x.1 } }))
    else if same_key r.key (codes "tires")
    then (read_section convert_string_numeric_key r raw.tires >>= λ x.
        some (x.0, record s { raw = record raw { tires = x.1; tires_raw_bson = at } }))
    else if same_key r.key (codes "sim")
    then some (r, record s { sim_data_ptr = at })
    else some (r, s)

-- The branches on a text.
unfoldable pub read_text : Reader → ParseState → Option (Reader × ParseState)
read_text r s =
    if same_key r.key (codes "active_session")
    then (string_value r >>= λ text. some (r, record s { active_session = text }))
    else if same_key r.key (codes "active_sim")
    then (string_value r >>= λ text. some (r, record s { active_sim = text }))
    else some (r, s)

unfoldable pub read_item : ElementType → Reader → ParseState → Option (Reader × ParseState)
read_item doc r s = read_document r s
read_item str r s = read_text r s
read_item t r s = some (r, s)

-- The loop of `parseFromRaw`, which leaves only at the end of the document.
unfoldable pub parse_items : ℕ → Reader → ParseState → Option ParseState
parse_items zero r s = none
parse_items (suc fuel) r s = elim (next r) [
  | none ↦ none
  | some (t, r1) ↦ elim (is_end t) [
    | true ↦ some s
    | false ↦ elim (read_item t r1 s) [ none ↦ none | some (r2, s2) ↦ parse_items fuel r2 s2 ]
  ]
]

-- The loop over the sessions: the index of the first with the id.
unfoldable pub session_index : List ℕ → ℕ → Entries (List ℕ) → Option ℕ
session_index id idx [] = none
session_index id idx ((key, at) ∷ es) =
    if same_key key id then some idx else session_index id (idx + 1) es

abbrev pub sim_of : List ℕ → Option ℕ → Option (List ℕ × ℕ)
sim_of [] ptr = none
sim_of (c ∷ cs) none = none
sim_of (c ∷ cs) (some at) = some (c ∷ cs, at)

-- The end of `parseFromRaw`
unfoldable pub conclude_parse : ParseState → RawData
unfolding session_index
conclude_parse s = record (s.raw) {
  active_session_idx = session_index s.active_session 0 s.raw.sessions;
  sim = sim_of s.active_sim s.sim_data_ptr;
}

-- `SimData::parseFromRaw`, which does not use the revision.
unfoldable pub parse_from_raw : Option (List ℕ) → ℕ → Option (Option RawData)
parse_from_raw none revision = some none
parse_from_raw (some raw_bson) revision = reader_of raw_bson >>= λ r.
    parse_items (r.cur_doc_end + 2) r empty_state >>= λ s. some (some (conclude_parse s))

-- `getVehicle`, `getTrack` and `getSession`; `getParticipant` and `getTire`.
unfoldable pub get_named : List ℕ → Entries (List ℕ) → Option ℕ
get_named id [] = none
get_named id ((key, at) ∷ es) = if same_key key id then some at else get_named id es

unfoldable pub get_numbered : ℕ → Entries ℕ → Option ℕ
get_numbered id [] = none
get_numbered id ((key, at) ∷ es) = if key == id then some at else get_numbered id es

-- `getCurrentSession`
unfoldable pub get_current_session : RawData → Option (List ℕ × ℕ)
get_current_session d = d.active_session_idx >>= λ idx. get_elem? d.sessions idx

-- `SimDataProvider`: the active buffer of the base class with its identity and its revision, and
-- the data that were parsed last with the identity of their buffer.
pub record SimDataProvider : Type 0 where
  pub active_buffer : Option (ℕ × List ℕ)
  pub active_buffer_revision : ℕ
  pub parsed_data : Option (Option ℕ × RawData)

abbrev identity : Option (ℕ × List ℕ) → Option ℕ
identity none = none
identity (some (id, bytes)) = some id

abbrev contents : Option (ℕ × List ℕ) → Option (List ℕ)
contents none = none
contents (some (id, bytes)) = some bytes

abbrev same_buffer : Option ℕ → Option ℕ → Bool
same_buffer none none = true
same_buffer none (some b) = false
same_buffer (some a) none = false
same_buffer (some a) (some b) = a == b

abbrev pub is_current : SimDataProvider → Option ℕ × RawData → Bool
is_current p (id, d) =
    p.active_buffer_revision == d.revision && same_buffer (identity p.active_buffer) id

abbrev pub parse_again : SimDataProvider → Option (Option (Option ℕ × RawData) × SimDataProvider)
parse_again p = parse_from_raw (contents p.active_buffer) p.active_buffer_revision >>= λ d.
    let parsed : Option (Option ℕ × RawData) = elim d [
      | none ↦ none
      | some raw ↦ some (identity p.active_buffer, raw)
    ] in
    some (parsed, record p { parsed_data = parsed })

-- `parseSimData`, with nobody else in between.
unfoldable pub parse_sim_data :
    SimDataProvider → Option (Option (Option ℕ × RawData) × SimDataProvider)
parse_sim_data p = elim (p.parsed_data) [
  | none ↦ parse_again p
  | some old ↦ if is_current p old then some (some old, p) else parse_again p
]
