-- ===== src/Device/Lookup.antt =====
-- The names of core/inc/sc-api/core/device_info_definitions.h are read back.
use sc_api.Common.{
  ℕ, zero, suc, ◌+◌, ◌<◌, ◌≡◌, refl, ◌∙◌, ap, List, [], ◌∷◌, Option, none, some, Bool, true, ◌&&◌,
  length, get_elem?, arith, ◌==◌, ◌>>=◌,
}
use sc_api.Bson.Reader.Seek.{same_key}
use sc_api.Device.Names.{
  index_from, name_of, NameTable, device_roles, control_types, feedback_types, input_roles,
  input_types, table, from_string, device_role_from_string, control_type_from_string,
  feedback_type_from_string, input_role_from_string, input_type_from_string,
}

-- The names of `rest`, which begin at the index `i` of `ids`, are found where they are.
all_found : List (List ℕ) → ℕ → List (List ℕ) → Bool
all_found ids i [] = true
all_found ids i (id ∷ rest) = (index_from id 0 ids == i) && all_found ids (i + 1) rest

all_found-at :
    (ids rest : List (List ℕ)) (i j : ℕ)
    → all_found ids i rest ≡ true
    → j < length rest
    → (get_elem? rest j >>= λ s. some (index_from s 0 ids)) ≡ some (i + j)
unfolding all_found
all_found-at ids [] i j h lt = absurd (omega arith)
all_found-at ids (id ∷ rest) i zero h lt = ap some (ground arith)
all_found-at ids (id ∷ rest) i (suc j) h lt =
    all_found-at ids rest (i + 1) j (ground arith) (omega arith) ∙ ap some (omega arith)

table-found : (t : NameTable) → all_found (table t) 0 (table t) ≡ true
unfolding all_found index_from same_key
table-found device_roles = refl
table-found control_types = refl
table-found feedback_types = refl
table-found input_roles = refl
table-found input_types = refl

from_string-index_from : (t : NameTable) (s : List ℕ) → from_string t s ≡ index_from s 0 (table t)
unfolding from_string device_role_from_string control_type_from_string feedback_type_from_string
    input_role_from_string input_type_from_string
from_string-index_from device_roles s = refl
from_string-index_from control_types s = refl
from_string-index_from feedback_types s = refl
from_string-index_from input_roles s = refl
from_string-index_from input_types s = refl

found_text :
    (t : NameTable) (i : ℕ) (o : Option (List ℕ))
    → (o >>= λ s. some (index_from s 0 (table t))) ≡ some i
    → (o >>= λ s. some (from_string t s)) ≡ some i
found_text t i none h = h
found_text t i (some s) h = ap some (from_string-index_from t s) ∙ h

-- Every enumerator of the roles and types is read back from its name.
pub from_string-name_of :
    (t : NameTable) (i : ℕ)
    → i < length (table t)
    → (name_of (table t) i >>= λ s. some (from_string t s)) ≡ some i
from_string-name_of t i h =
    found_text t i (name_of (table t) i)
      (all_found-at (table t) (table t) 0 i (table-found t) h ∙ ap some (omega arith))
