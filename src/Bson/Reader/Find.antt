-- ===== src/Bson/Reader/Find.antt =====
-- `seekKey` of `BsonReader` (core/src/util/bson_reader.cpp) against the tree of a document.
use sc_api.Common.{ℕ, ◌+◌, ◌≡◌, List, Option, some, none, Bool, length, if◌then◌else◌}
use sc_api.Bson.Types.{ElementType}
use sc_api.Bson.Value.{Value, Fields, end, field, value_bytes, type_of}
use sc_api.Bson.Reader.{Reader}
use sc_api.Bson.Reader.Seek.{same_key}
use sc_api.Bson.Reader.Next.{Same}
use sc_api.Bson.Reader.Cross.{IsClean}
use sc_api.Bson.Reader.Walk.{Visited}

-- The first value under a key, the fields behind it and its offset.
unfoldable pub find_field : List ℕ → Fields → ℕ → Option (Value × Fields × ℕ)
find_field key end pos = none
find_field key (field k v fs) pos =
    let rest = find_field key fs (pos + (length k + 2) + length (value_bytes v)) in
    if same_key k key then some (v, fs, pos + (length k + 2)) else rest

-- The reader at the value that was looked for.
pub record Sought (post : List ℕ) (depth : ℕ) (r : Reader) (res : Option (ElementType × Reader))
    (v : Value) (fs : Fields) (at : ℕ) : Type 0 where
  pub k : List ℕ
  pub pre : List ℕ
  pub pos : ℕ
  pub from : Reader
  pub visited : Visited k v fs pre post pos depth from
  pub result : res ≡ some (type_of v, visited.after)
  pub same : Same r visited.after
  pub doc_begin : visited.after.cur_doc_begin ≡ r.cur_doc_begin
  pub clean : IsClean fs
  pub place : pos + (length k + 2) ≡ at

abbrev SoughtIn :
    List ℕ → ℕ → Reader → Option (ElementType × Reader) → Option (Value × Fields × ℕ) → Type 0
SoughtIn post depth r res none = Unit
SoughtIn post depth r res (some (v, fs, at)) = Sought post depth r res v fs at

module _ (key : List ℕ) where
  abbrev test : Reader → Bool
  test r1 = same_key r1.key key
