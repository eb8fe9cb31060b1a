-- ===== src/Device/Hid.antt =====
-- The HID inputs of a device: `parseMappings`, `parseHidAxisInputs`, `parseHidButtonInputs` and
-- `parseHidInputs` of core/src/device_info.cpp.
use sc_api.Common.{
  ℕ, ◌%◌, ◌^◌, List, [], ◌∷◌, ◌++◌, Option, none, some, Bool, true, false, if◌then◌else◌, ◌>>=◌,
}
use sc_api.Types.{codes}
use sc_api.Bson.Types.{ElementType, doc, str, array, i32}
use sc_api.Bson.Reader.{Reader, next}
use sc_api.Bson.Reader.Get.{int32_value}
use sc_api.Device.Names.{input_role_from_string, input_role_unknown}
use sc_api.Device.{
  InputMapping, HidAxisInput, HidButtonInput, each, loop, inside, store_text, has_key,
}

-- The inner loop of `parseMappings`; the key of a number is not looked at.
unfoldable pub mapping_body : ElementType → Reader → InputMapping → Option (Reader × InputMapping)
mapping_body str r m =
    if has_key r (codes "input") then store_text (λ t. record m { input_id = t }) r else some (r, m)
mapping_body i32 r m = int32_value r >>= λ v. some (r, record m { device_id = v % 2 ^ 16 })
mapping_body e r m = some (r, m)

unfoldable pub mappings_body :
    ElementType → Reader → List InputMapping → Option (Reader × List InputMapping)
unfolding each mapping_body
mappings_body doc r mappings =
    inside (λ b. loop mapping_body b (record { device_id = 0; input_id = [] })) r >>= λ s.
    some (s.0, mappings ++ s.1 ∷ [])
mappings_body e r mappings = some (r, mappings)

-- `parseMappings`
unfoldable pub parse_mappings : Reader → Option (Reader × List InputMapping)
unfolding each mappings_body
parse_mappings r = loop mappings_body r []

abbrev pub is_i32 : ElementType → Bool
is_i32 i32 = true
is_i32 e = false

-- The second number of a range, which counts only together with the first.
unfoldable pub range_end : ℕ → Reader → HidAxisInput → Option (Reader × HidAxisInput)
range_end low r c = next r >>= λ s.
    if is_i32 s.0
    then (int32_value s.1 >>= λ high. some (s.1, record c { range_high = high; range_low = low }))
    else some (s.1, c)

unfoldable pub read_range : Reader → HidAxisInput → Option (Reader × HidAxisInput)
unfolding range_end
read_range r c = next r >>= λ s.
    if is_i32 s.0 then (int32_value s.1 >>= λ low. range_end low s.1 c) else some (s.1, c)

unfoldable pub axis_body : ElementType → Reader → HidAxisInput → Option (Reader × HidAxisInput)
unfolding parse_mappings read_range
axis_body str r c =
    if has_key r (codes "role")
    then store_text (λ t. record c { role = some (input_role_from_string t) }) r
    else some (r, c)
axis_body array r c =
    if has_key r (codes "mappings")
    then (inside parse_mappings r >>= λ s. some (s.0, record c { mappings = s.1 }))
    else if has_key r (codes "range")
    then inside (λ b. read_range b c) r
    else some (r, c)
axis_body e r c = some (r, c)

unfoldable pub axes_body :
    ElementType → Reader → List HidAxisInput → Option (Reader × List HidAxisInput)
unfolding each axis_body
axes_body doc r axes =
    inside
      (λ b. loop axis_body b (record { role = none; range_low = 0; range_high = 0; mappings = [] }))
      r
    >>= λ s. some (s.0, axes ++ s.1 ∷ [])
axes_body e r axes = some (r, axes)

-- `parseHidAxisInputs`
unfoldable pub parse_hid_axis_inputs : Reader → Option (Reader × List HidAxisInput)
unfolding each axes_body
parse_hid_axis_inputs r = loop axes_body r []

unfoldable pub button_body :
    ElementType → Reader → HidButtonInput → Option (Reader × HidButtonInput)
unfolding parse_mappings
button_body str r c =
    if has_key r (codes "role")
    then store_text (λ t. record c { role = input_role_from_string t }) r
    else some (r, c)
button_body array r c =
    if has_key r (codes "mappings")
    then (inside parse_mappings r >>= λ s. some (s.0, record c { mappings = s.1 }))
    else some (r, c)
button_body e r c = some (r, c)

unfoldable pub buttons_body :
    ElementType → Reader → List HidButtonInput → Option (Reader × List HidButtonInput)
unfolding each button_body
buttons_body doc r buttons =
    inside (λ b. loop button_body b (record { role = input_role_unknown; mappings = [] })) r
    >>= λ s. some (s.0, buttons ++ s.1 ∷ [])
buttons_body e r buttons = some (r, buttons)

-- `parseHidButtonInputs`
unfoldable pub parse_hid_button_inputs : Reader → Option (Reader × List HidButtonInput)
unfolding each buttons_body
parse_hid_button_inputs r = loop buttons_body r []

unfoldable pub hid_body :
    ElementType
    → Reader
    → List HidAxisInput × List HidButtonInput
    → Option (Reader × (List HidAxisInput × List HidButtonInput))
unfolding parse_hid_axis_inputs parse_hid_button_inputs
hid_body array r hid =
    if has_key r (codes "axis")
    then (inside parse_hid_axis_inputs r >>= λ s. some (s.0, (s.1, hid.1)))
    else if has_key r (codes "buttons")
    then (inside parse_hid_button_inputs r >>= λ s. some (s.0, (hid.0, s.1)))
    else some (r, hid)
hid_body e r hid = some (r, hid)

-- `parseHidInputs`
unfoldable pub parse_hid_inputs :
    Reader → Option (Reader × (List HidAxisInput × List HidButtonInput))
unfolding each hid_body
parse_hid_inputs r = loop hid_body r ([], [])
