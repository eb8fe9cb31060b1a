-- ===== src/SimData/Tests.antt =====
-- Runs of the simulator's data, and the theorems at small documents.
use sc_api.Common.{ℕ, ◌≡◌, refl, List, [], ◌∷◌, ◌++◌, some, Bool, false, arith}
use sc_api.Bytes.{le_bytes}
use sc_api.Types.{codes}
use sc_api.Bson.Layout.{document}
use sc_api.Bson.Value.{Value, Fields, end, field, elements, value_bytes}
use sc_api.Bson.Reader.Cross.{IsClean}
use sc_api.Bson.Reader.Seek.{same_key}
use sc_api.SimData.{
  RawData, SimDataProvider, parse_from_raw, empty_raw, convert_string_numeric_key, get_named,
  get_numbered, is_current,
}
use sc_api.SimData.Keys.{hex16_key}
use sc_api.SimData.Participants.{
  AreObjects, participants_document, numbered, parse_from_raw-participants,
}

abbrev sample : Fields
sample =
    field (codes "sessions") (Value.doc (field (codes "q1") (Value.doc end) end))
      (field (codes "active_session") (Value.str (codes "q1")) end)

abbrev two_participants : List (ℕ × Fields)
two_participants = (0x1a, field (codes "name") (Value.str (codes "A")) end) ∷ (0xBEEF, end) ∷ []

parse_from_raw-participants_example :
    (d : RawData) × (parse_from_raw
        (some (document (elements (participants_document two_participants)) ++ []))
        7
      ≡ some (some d))
    × AreObjects
        (document (elements (participants_document two_participants)) ++ [])
        d.participants
        two_participants
unfolding IsClean elements value_bytes numbered hex16_key le_bytes
parse_from_raw-participants_example =
    parse_from_raw-participants two_participants [] 7 (omega arith) (omega arith)

hex_run : hex16_key 0x1a ≡ codes "001a"
unfolding hex16_key
hex_run = refl

upper_run : convert_string_numeric_key (codes "00FF") ≡ some 255
unfolding convert_string_numeric_key
upper_run = refl

-- The entries of a table, by their names and by their numbers.
names_run : get_named (codes "q2") ((codes "q1", 4) ∷ (codes "q2", 9) ∷ []) ≡ some 9
unfolding get_named same_key
names_run = refl

numbers_run : get_numbered 7 ((3, 4) ∷ (7, 9) ∷ []) ≡ some 9
unfolding get_numbered
numbers_run = refl

-- A second call with the same buffer, of a revision other than 0, parses again.
abbrev provider : SimDataProvider
provider = record {
  active_buffer = some (1, document []);
  active_buffer_revision = 4;
  parsed_data = some (some 1, empty_raw);
}

abbrev missed : Bool
missed = is_current provider (some 1, empty_raw)

missed_run : missed ≡ false
missed_run = refl
