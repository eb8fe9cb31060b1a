-- ===== src/Bson/Value.antt =====
-- Documents as trees, and their bytes: the independent description that the writer and the reader
-- of core/src/util are held against. Keys, texts and binary data are bytes; numbers are the bit
-- patterns of `int32_t`, `int64_t` and `double`.
use sc_api.Common.{ℕ, suc, ◌+◌, max, List, [], ◌∷◌, ◌++◌, Bool, length, if◌then◌else◌}
use sc_api.Bytes.{le_bytes}
use sc_api.Bson.Types.{ElementType, code}
use sc_api.Bson.Layout.{document}

mutual
  pub data Value : Type 0 where
    boolean : Bool → Value
    double i32 i64 : ℕ → Value
    null : Value
    str : List ℕ → Value
    binary : List ℕ → ℕ → Value
    doc : Fields → Value

  pub data Fields : Type 0 where
    end : Fields
    field : List ℕ → Value → Fields → Fields

abbrev pub type_of : Value → ElementType
type_of (boolean b) = ElementType.boolean
type_of (double v) = ElementType.double
type_of (i32 v) = ElementType.i32
type_of (i64 v) = ElementType.i64
type_of null = ElementType.null
type_of (str s) = ElementType.str
type_of (binary bs subtype) = ElementType.binary
type_of (doc fs) = ElementType.doc

-- The key of an element as it stands in a document.
abbrev pub key_bytes : ElementType → List ℕ → List ℕ
key_bytes t name = code t ∷ (name ++ (0 ∷ []))

unfoldable mutual
  pub value_bytes : Value → List ℕ
  value_bytes (boolean b) = (if b then 1 else 0) ∷ []
  value_bytes (double v) = le_bytes 8 v
  value_bytes (i32 v) = le_bytes 4 v
  value_bytes (i64 v) = le_bytes 8 v
  value_bytes null = []
  value_bytes (str s) = le_bytes 4 (length s + 1) ++ (s ++ (0 ∷ []))
  value_bytes (binary bs subtype) = le_bytes 4 (length bs) ++ (subtype ∷ bs)
  value_bytes (doc fs) = document (elements fs)

  pub elements : Fields → List ℕ
  elements end = []
  elements (field k v fs) = (key_bytes (type_of v) k ++ value_bytes v) ++ elements fs

-- How many documents are open at once inside.
unfoldable mutual
  pub nesting_value : Value → ℕ
  nesting_value (doc fs) = suc (nesting fs)
  nesting_value (boolean b) = 0
  nesting_value (double v) = 0
  nesting_value (i32 v) = 0
  nesting_value (i64 v) = 0
  nesting_value null = 0
  nesting_value (str s) = 0
  nesting_value (binary bs subtype) = 0

  pub nesting : Fields → ℕ
  nesting end = 0
  nesting (field k v fs) = max (nesting_value v) (nesting fs)
