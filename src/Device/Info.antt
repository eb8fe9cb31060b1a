-- ===== src/Device/Info.antt =====
-- `DeviceInfo::Data::parse`, the providers and the look-ups of core/src/device_info.cpp.
use sc_api.Common.{
  ℕ, zero, suc, ◌+◌, ◌%◌, ◌^◌, List, [], ◌∷◌, ◌++◌, Option, none, some, Bool, true, false, drop,
  ◌==◌, if◌then◌else◌, ◌>>=◌,
}
use sc_api.Types.{codes}
use sc_api.Bson.Types.{ElementType, doc, str, i32, boolean, is_end_or_error}
use sc_api.Bson.Reader.{Reader, next, at_end, error, reader, reader_of}
use sc_api.Bson.Reader.Seek.{same_key, seek_key}
use sc_api.Bson.Reader.Get.{int32_value, bool_value, try_get_string, try_get_int32}
use sc_api.Device.Names.{device_role_from_string}
use sc_api.Device.{
  Control, Input, Feedback, HidAxisInput, HidButtonInput, UsbDeviceInfo, each, loop, inside,
  store_text, has_key, parse_controls, parse_inputs, parse_feedbacks,
}
use sc_api.Device.Hid.{parse_hid_inputs}

-- `DeviceInfo::Data`, with the local `usb_info` of `parse`. What `parse` does not set (the maker, the
-- product) is left out.
pub record DeviceData : Type 0 where
  pub uid : List ℕ
  pub session_id : ℕ
  pub role : ℕ
  pub is_connected : Bool
  pub controls : List Control
  pub inputs : List Input
  pub feedbacks : List Feedback
  pub hid_axis : List HidAxisInput
  pub hid_buttons : List HidButtonInput
  pub usb_info : UsbDeviceInfo

-- `getUsbInfo`, which is there only with a path.
abbrev pub get_usb_info : DeviceData → Option UsbDeviceInfo
get_usb_info d = elim (d.usb_info.hid_device_path) [ [] ↦ none | c ∷ cs ↦ some d.usb_info ]

-- `DeviceInfo::Data{}`, whose role is the first enumerator, `wheel`, with the uid and the id.
abbrev pub new_data : List ℕ → ℕ → DeviceData
new_data uid session_id = record {
  uid = uid;
  session_id = session_id;
  role = 0;
  is_connected = false;
  controls = [];
  inputs = [];
  feedbacks = [];
  hid_axis = [];
  hid_buttons = [];
  usb_info = record { hid_device_path = []; pid = 0; vid = 0 };
}

-- What the loop of `parse` reads inside a document, by its key.
unfoldable pub read_part : List ℕ → DeviceData → Reader → Option (Reader × DeviceData)
read_part key d b =
    if same_key key (codes "control")
    then (parse_controls b >>= λ s. some (s.0, record d { controls = s.1 }))
    else if same_key key (codes "input")
    then (parse_inputs d.session_id b >>= λ s. some (s.0, record d { inputs = s.1 }))
    else if same_key key (codes "feedback")
    then (parse_feedbacks b >>= λ s. some (s.0, record d { feedbacks = s.1 }))
    else if same_key key (codes "hid_input")
    then (parse_hid_inputs b >>= λ s.
        some (s.0, record d { hid_axis = s.1.0; hid_buttons = s.1.1 }))
    else some (b, d)

unfoldable pub data_body : ElementType → Reader → DeviceData → Option (Reader × DeviceData)
unfolding read_part
data_body doc r d = inside (read_part r.key d) r
data_body str r d =
    if has_key r (codes "role")
    then store_text (λ t. record d { role = device_role_from_string t }) r
    else if has_key r (codes "usb_path")
    then store_text (λ t. record d { usb_info = record (d.usb_info) { hid_device_path = t } }) r
    else some (r, d)
data_body i32 r d =
    if has_key r (codes "usb_pid")
    then (int32_value r >>= λ v.
        some (r, record d { usb_info = record (d.usb_info) { pid = v % 2 ^ 16 } }))
    else if has_key r (codes "usb_vid")
    then (int32_value r >>= λ v.
        some (r, record d { usb_info = record (d.usb_info) { vid = v % 2 ^ 16 } }))
    else some (r, d)
data_body boolean r d =
    if has_key r (codes "is_connected")
    then (bool_value r >>= λ v. some (r, record d { is_connected = v }))
    else some (r, d)
data_body e r d = some (r, d)

-- The conversion of a `double` to an integer is a parameter.
module _ (i32_of_double : ℕ → ℕ) where
  -- `tryFindAndGet`, of an integer and of a text; `none` inside is the answer `false`.
  unfoldable pub find_int32 : List ℕ → Reader → Option (Option ℕ × Reader)
  find_int32 key r = seek_key key r >>= λ s.
      if is_end_or_error s.0
      then some (none, s.1)
      else (try_get_int32 i32_of_double i32_of_double i32_of_double i32_of_double (λ v. true) 0 s.1
          >>= λ v. some (v, s.1))

  unfoldable pub find_text : List ℕ → Reader → Option (Option (List ℕ) × Reader)
  find_text key r = seek_key key r >>= λ s.
      if is_end_or_error s.0 then some (none, s.1) else (try_get_string s.1 >>= λ v. some (v, s.1))

  -- `parse` behind the id: the loop goes on behind the element with the uid.
  unfoldable pub parse_found : Option ℕ × Reader → Option (Option DeviceData)
  unfolding find_text each data_body
  parse_found (none, r) = some none
  parse_found (some id, r) = find_text (codes "device_uid") r >>= λ u. elim (u.0) [
    | none ↦ some none
    | some uid ↦ loop data_body u.1 (new_data uid (id % 2 ^ 16)) >>= λ s.
        some (if error s.0 then none else some s.1)
  ]

  -- `DeviceInfo::Data::parse`; `some none` is the answer `false`.
  unfoldable pub parse_device : List ℕ → Option (Option DeviceData)
  unfolding parse_found find_int32
  parse_device bson = do r ← reader_of bson; id ← find_int32 (codes "logical_id") r; parse_found id

  -- A document of the loop of `parseDeviceInfo`: a device that does not parse is left out.
  unfoldable pub add_device : ElementType → Reader → List DeviceData → Option (List DeviceData)
  unfolding parse_device
  add_device doc r devs = do
    d ← parse_device (drop r.buf_offset r.buffer)
    some (elim d [ none ↦ devs | some x ↦ devs ++ x ∷ [] ])
  add_device e r devs = some devs

  unfoldable pub read_devices : ℕ → Reader → List DeviceData → Option (List DeviceData)
  read_devices zero r devs = none
  read_devices (suc fuel) r devs = elim (at_end r) [
    | true ↦ some devs
    | false ↦ elim (next r) [
      | none ↦ none
      | some (e, r1) ↦ elim (add_device e r1 devs) [
        | none ↦ none
        | some more ↦ read_devices fuel r1 more
      ]
    ]
  ]

  -- `DeviceInfoProvider::parseDeviceInfo` without the cache: the devices of a buffer of a size.
  unfoldable pub parse_device_info : List ℕ → ℕ → Option (List DeviceData)
  unfolding read_devices
  parse_device_info bson size = do r ← reader bson size; read_devices (r.cur_doc_end + 2) r []

-- `getControl`, `getInput` and `getFeedback`; the empty object stands for none.
unfoldable pub get_control : List ℕ → List Control → Option Control
get_control id [] = none
get_control id (c ∷ cs) = if same_key c.id id then some c else get_control id cs

unfoldable pub get_input : List ℕ → List Input → Option Input
get_input id [] = none
get_input id (c ∷ cs) = if same_key c.id id then some c else get_input id cs

unfoldable pub get_feedback : List ℕ → List Feedback → Option Feedback
get_feedback id [] = none
get_feedback id (c ∷ cs) = if same_key c.id id then some c else get_feedback id cs

unfoldable pub has_feedback_type : ℕ → List Feedback → Bool
has_feedback_type type [] = false
has_feedback_type type (c ∷ cs) = if c.type == type then true else has_feedback_type type cs

-- `findFirstByFilter` and `findAllByFilter` of `FullInfo`, and the look-ups that are such a filter.
unfoldable pub find_first_by_filter : (DeviceData → Bool) → List DeviceData → Option DeviceData
find_first_by_filter filter [] = none
find_first_by_filter filter (d ∷ ds) = if filter d then some d else find_first_by_filter filter ds

unfoldable pub find_all_by_filter : (DeviceData → Bool) → List DeviceData → List DeviceData
find_all_by_filter filter [] = []
find_all_by_filter filter (d ∷ ds) =
    let rest = find_all_by_filter filter ds in if filter d then d ∷ rest else rest

unfoldable pub get_by_uid : List ℕ → List DeviceData → Option DeviceData
unfolding find_first_by_filter
get_by_uid uid = find_first_by_filter (λ d. same_key d.uid uid)

unfoldable pub get_by_session_id : ℕ → List DeviceData → Option DeviceData
unfolding find_first_by_filter
get_by_session_id session_id = find_first_by_filter (λ d. d.session_id == session_id)

abbrev pub has_path : List ℕ → Option UsbDeviceInfo → Bool
has_path path none = false
has_path path (some u) = same_key u.hid_device_path path

unfoldable pub get_by_hid_device_path : List ℕ → List DeviceData → Option DeviceData
unfolding find_first_by_filter
get_by_hid_device_path path = find_first_by_filter (λ d. has_path path (get_usb_info d))

-- `findFirstSessionIdByFilter`; 0 is no device.
unfoldable pub find_first_session_id_by_filter : (DeviceData → Bool) → List DeviceData → ℕ
unfolding find_first_by_filter
find_first_session_id_by_filter filter ds = elim (find_first_by_filter filter ds) [
  | none ↦ 0
  | some d ↦ d.session_id
]
