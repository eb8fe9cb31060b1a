-- ===== src/Device/Devices.antt =====
-- `DeviceInfoProvider::parseDeviceInfo` of core/src/device_info.cpp on the bytes of a document of
-- devices.
use sc_api.Common.{ℕ, ◌+◌, ◌^◌, ◌%◌, ◌≡◌, List, [], ◌∷◌, some, length}
use sc_api.Types.{codes}
use sc_api.Bson.Value.{Value, Fields, end, field, value_bytes}
use sc_api.Bson.Reader.{Reader}
use sc_api.Bson.Reader.Find.{find_field}
use sc_api.Device.Each.{fold}
use sc_api.Device.Info.{DeviceData, new_data}
use sc_api.Device.Data.{data_effect}

-- A document describes a device: its first `logical_id` is an integer, its first `device_uid` a
-- text, and the device is what the elements behind the uid say.
pub record Describes (sub : Fields) (d : DeviceData) : Type 0 where
  pub number : ℕ
  pub behind_id : Fields
  pub at_id : ℕ
  pub uid : List ℕ
  pub rest : Fields
  pub at : ℕ
  pub id : find_field (codes "logical_id") sub 4 ≡ some (Value.i32 number, behind_id, at_id)
  pub found : find_field (codes "device_uid") sub 4 ≡ some (Value.str uid, rest, at)
  pub says :
      d
      ≡ fold data_effect rest
          (at + length (value_bytes (Value.str uid)))
          (new_data uid (number % 2 ^ 32 % 2 ^ 16))

-- The document of some devices, each under a key, and the devices.
unfoldable pub tree : List (List ℕ × (Fields × DeviceData)) → Fields
tree [] = end
tree (x ∷ xs) = field x.0 (Value.doc (x.1.0)) (tree xs)

unfoldable pub devices : List (List ℕ × (Fields × DeviceData)) → List DeviceData
devices [] = []
devices (x ∷ xs) = x.1.1 ∷ devices xs
