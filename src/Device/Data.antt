-- ===== src/Device/Data.antt =====
-- The loop of `DeviceInfo::Data::parse` of core/src/device_info.cpp against the tree of the
-- document. A tree has no arrays, so there are no inputs of the HID descriptor in it.
use sc_api.Common.{
  ℕ, suc, ◌+◌, ◌^◌, ◌%◌, ◌<◌, ◌≡◌, refl, List, [], some, length, Bool-cases, inl, inr,
  if◌then◌else◌, arith,
}
use sc_api.Types.{codes}
use sc_api.Bson.Types.{ElementType}
use sc_api.Bson.Value.{Value, Fields, end, field}
use sc_api.Bson.Reader.{Reader}
use sc_api.Bson.Reader.Seek.{same_key}
use sc_api.Bson.Reader.Next.{Same}
use sc_api.Bson.Reader.Cross.{IsClean, IsCleanValue}
use sc_api.Bson.Reader.Accept.{Begins}
use sc_api.Bson.Reader.Walk.{string_value-text}
use sc_api.Bson.Reader.Values.{int32_value-number, bool_value-flag}
use sc_api.Device.Names.{device_role_from_string}
use sc_api.Device.{
  loop, parse_controls, parse_inputs, parse_feedbacks, controls_body, inputs_body, feedbacks_body,
  HidAxisInput, HidButtonInput,
}
use sc_api.Device.Hid.{parse_hid_inputs, hid_body}
use sc_api.Device.Info.{DeviceData, data_body, read_part}
use sc_api.Device.Each.{Follows, fold, loop-fold, loop-ends, inside-Leaves, stays-Leaves}
use sc_api.Device.Parts.{
  controls_effect, inputs_effect, feedbacks_effect, controls_body-Follows, inputs_body-Follows,
  feedbacks_body-Follows,
}

-- What a document with a key makes of the device, with the offset of its elements.
unfoldable pub part_effect : List ℕ → Fields → ℕ → DeviceData → DeviceData
unfolding fold controls_effect inputs_effect feedbacks_effect
part_effect key sub at d =
    if same_key key (codes "control")
    then record d { controls = fold controls_effect sub at [] }
    else if same_key key (codes "input")
    then record d { inputs = fold (inputs_effect d.session_id) sub at [] }
    else if same_key key (codes "feedback")
    then record d { feedbacks = fold feedbacks_effect sub at [] }
    else if same_key key (codes "hid_input")
    then record d { hid_axis = []; hid_buttons = [] }
    else d

-- What an element makes of the device, with the offset of its value.
unfoldable pub data_effect : List ℕ → Value → ℕ → DeviceData → DeviceData
unfolding part_effect
data_effect k (Value.doc sub) at d = part_effect k sub (at + 4) d
data_effect k (Value.str t) at d =
    if same_key k (codes "role")
    then record d { role = device_role_from_string t }
    else if same_key k (codes "usb_path")
    then record d { usb_info = record (d.usb_info) { hid_device_path = t } }
    else d
data_effect k (Value.i32 n) at d =
    if same_key k (codes "usb_pid")
    then record d { usb_info = record (d.usb_info) { pid = n % 2 ^ 32 % 2 ^ 16 } }
    else if same_key k (codes "usb_vid")
    then record d { usb_info = record (d.usb_info) { vid = n % 2 ^ 32 % 2 ^ 16 } }
    else d
data_effect k (Value.boolean b) at d =
    if same_key k (codes "is_connected") then record d { is_connected = b } else d
data_effect k v at d = d

fold-skips : {S : Type 0} (fs : Fields) (pos : ℕ) (s : S) → fold (λ k v at t. t) fs pos s ≡ s
unfolding fold
fold-skips end pos s = refl
fold-skips (field k v fs) pos s = fold-skips fs _ s

hid_body-Follows : (depth : ℕ) → Follows hid_body (λ k v at s. s) depth
unfolding hid_body
hid_body-Follows depth k (Value.str t) fs pre post pos r s x clean = stays-Leaves x refl
hid_body-Follows depth k (Value.doc sub) fs pre post pos r s x clean = stays-Leaves x refl
hid_body-Follows depth k (Value.boolean b) fs pre post pos r s x clean = stays-Leaves x refl
hid_body-Follows depth k (Value.double b) fs pre post pos r s x clean = stays-Leaves x refl
hid_body-Follows depth k (Value.i32 b) fs pre post pos r s x clean = stays-Leaves x refl
hid_body-Follows depth k (Value.i64 b) fs pre post pos r s x clean = stays-Leaves x refl
hid_body-Follows depth k Value.null fs pre post pos r s x clean = stays-Leaves x refl
hid_body-Follows depth k (Value.binary b t) fs pre post pos r s x clean = stays-Leaves x refl

-- What is read inside a document, with the reader that stays in it.
Reads : List ℕ → Fields → ℕ → DeviceData → Reader → Type 0
unfolding read_part part_effect
Reads key sub at d b =
    (b' : Reader) × (read_part key d b ≡ some (b', part_effect key sub at d)) × Same b b'

read_part-Reads :
    (key : List ℕ) (sub : Fields) (front back : List ℕ) (at depth : ℕ) (d : DeviceData) (b : Reader)
    → depth < 16
    → IsClean sub
    → Begins sub front back at depth b
    → Reads key sub at d b
unfolding Reads read_part part_effect parse_controls parse_inputs parse_feedbacks parse_hid_inputs
read_part-Reads key sub front back at depth d b h clean begins =
    elim (Bool-cases (same_key key (codes "control"))) [
      | inl e0 ↦
          let (b', f, same) =
            loop-fold controls_body controls_effect sub front back at depth b []
              (controls_body-Follows depth h) begins clean in
          (b', simp (e0, f), same)
      | inr e0 ↦ elim (Bool-cases (same_key key (codes "input"))) [
        | inl e1 ↦
            let (b', f, same) =
              loop-fold (inputs_body d.session_id) (inputs_effect d.session_id) sub front back at
                depth b [] (inputs_body-Follows d.session_id depth h) begins clean in
            (b', simp (e0, e1, f), same)
        | inr e1 ↦ elim (Bool-cases (same_key key (codes "feedback"))) [
          | inl e2 ↦
              let (b', f, same) =
                loop-fold feedbacks_body feedbacks_effect sub front back at depth b []
                  (feedbacks_body-Follows depth h) begins clean in
              (b', simp (e0, e1, e2, f), same)
          | inr e2 ↦ elim (Bool-cases (same_key key (codes "hid_input"))) [
            | inl e3 ↦
                let (b', f, same) =
                  loop-fold hid_body (λ k v at s. s) sub front back at depth b ([], [])
                    (hid_body-Follows depth) begins clean in
                (
                  b',
                  simp (
                    e0,
                    e1,
                    e2,
                    e3,
                    f,
                    fold-skips {S = List HidAxisInput × List HidButtonInput} sub at ([], []),
                  ),
                  same,
                )
            | inr e3 ↦
                (b, simp (e0, e1, e2, e3), record { buffer = refl; layers = refl; doc_end = refl })
          ]
        ]
      ]
    ]

data_body-Follows : (depth : ℕ) → depth < 15 → Follows data_body data_effect depth
unfolding data_body data_effect IsCleanValue Reads
data_body-Follows depth h k (Value.doc sub) fs pre post pos r d x clean =
    let at = pos + (length k + 2) in
    inside-Leaves (read_part x.after.key d) sub fs k pre post pos depth r
      (part_effect k sub (at + 4) d) x (omega arith)
      (λ front back b begins.
        rw (x.key)
          (read_part-Reads k sub front back (at + 4) (suc depth) d b (omega arith) clean begins))
data_body-Follows depth h k (Value.str t) fs pre post pos r d x clean =
    let text = string_value-text t k fs pre post pos depth r x in
    elim (Bool-cases (same_key k (codes "role"))) [
      | inl e0 ↦ stays-Leaves x (simp (x.key, e0, text))
      | inr e0 ↦ elim (Bool-cases (same_key k (codes "usb_path"))) [
        | inl e1 ↦ stays-Leaves x (simp (x.key, e0, e1, text))
        | inr e1 ↦ stays-Leaves x (simp (x.key, e0, e1))
      ]
    ]
data_body-Follows depth h k (Value.i32 n) fs pre post pos r d x clean =
    let number = int32_value-number n k fs pre post pos depth r x in
    elim (Bool-cases (same_key k (codes "usb_pid"))) [
      | inl e0 ↦ stays-Leaves x (simp (x.key, e0, number))
      | inr e0 ↦ elim (Bool-cases (same_key k (codes "usb_vid"))) [
        | inl e1 ↦ stays-Leaves x (simp (x.key, e0, e1, number))
        | inr e1 ↦ stays-Leaves x (simp (x.key, e0, e1))
      ]
    ]
data_body-Follows depth h k (Value.boolean b) fs pre post pos r d x clean =
    let flag = bool_value-flag b k fs pre post pos depth r x in
    elim (Bool-cases (same_key k (codes "is_connected"))) [
      | inl e0 ↦ stays-Leaves x (simp (x.key, e0, flag))
      | inr e0 ↦ stays-Leaves x (simp (x.key, e0))
    ]
data_body-Follows depth h k (Value.double b) fs pre post pos r d x clean = stays-Leaves x refl
data_body-Follows depth h k (Value.i64 b) fs pre post pos r d x clean = stays-Leaves x refl
data_body-Follows depth h k Value.null fs pre post pos r d x clean = stays-Leaves x refl
data_body-Follows depth h k (Value.binary b t) fs pre post pos r d x clean = stays-Leaves x refl

-- The loop of `parse` over the elements that are left makes of the device what they say.
pub data_loop-effects :
    (fs : Fields) (pre post : List ℕ) (pos depth : ℕ) (r : Reader) (d : DeviceData)
    → Begins fs pre post pos depth r
    → IsClean fs
    → depth < 15
    → (r' : Reader) × (loop data_body r d ≡ some (r', fold data_effect fs pos d))
      × Same r r'
      × (r'.cur_type ≡ ElementType.finished)
data_loop-effects fs pre post pos depth r d b c h =
    loop-ends data_body data_effect fs pre post pos depth r d (data_body-Follows depth h) b c
