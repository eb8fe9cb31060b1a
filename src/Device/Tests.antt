-- ===== src/Device/Tests.antt =====
-- Runs of the device information, and the theorems at a small document.
use sc_api.Common.{ℕ, ◌≡◌, refl, some, true, arith, ◌>>=◌, List, [], ◌∷◌, length}
use sc_api.Types.{codes}
use sc_api.Bson.Value.{Value, Fields, end, field}
use sc_api.Bson.Reader.Seek.{same_key}
use sc_api.Device.Names.{
  input_roles, name_of, table, from_string, index_from, device_role_from_string,
}
use sc_api.Device.Lookup.{from_string-name_of}
use sc_api.Device.{variable_ref, split_colon, from_chars, read_digits}
use sc_api.Device.Each.{fold}
use sc_api.Device.Info.{DeviceData, new_data}
use sc_api.Device.Parts.{controls_effect, control_effect}
use sc_api.Device.Data.{data_effect, part_effect}

from_string-name_of_example :
    (name_of (table input_roles) 12 >>= λ s. some (from_string input_roles s)) ≡ some 12
from_string-name_of_example = from_string-name_of input_roles 12 (omega arith)

abbrev behind : Fields
behind = field (codes "role") (Value.str (codes "wheel")) (
    field (codes "control")
      (Value.doc (
        field (codes "rim") (Value.doc (field (codes "role") (Value.str (codes "button")) end))
          end))
      (field (codes "is_connected") (Value.boolean true) end))

abbrev sample : Fields
sample =
    field (codes "logical_id") (Value.i32 0x10007)
      (field (codes "device_uid") (Value.str (codes "U1")) behind)

-- What the elements say.
abbrev device : DeviceData
device = fold data_effect behind 39 (new_data (codes "U1") 7)

connected_run : device.is_connected ≡ true
unfolding fold data_effect part_effect same_key
connected_run = refl

role_run : device.role ≡ 0
unfolding fold data_effect part_effect same_key device_role_from_string index_from
role_run = refl

controls_run : length device.controls ≡ 1
unfolding fold data_effect part_effect same_key controls_effect control_effect
controls_run = refl

abbrev two_devices : List (List ℕ × (Fields × DeviceData))
two_devices = (codes "a", (sample, device)) ∷ (codes "b", (sample, device)) ∷ []

-- A variable of another device.
variable_run :
    variable_ref 3 (codes "12:speed") ≡ record { device_session_id = 12; id = codes "speed" }
unfolding variable_ref split_colon from_chars read_digits
variable_run = refl
