-- ===== src/Device.antt =====
-- Device information: core/src/device_info.cpp and core/inc/sc-api/core/device_info.h, with the
-- names of core/inc/sc-api/core/device_info_definitions.h. The documents are read with
-- `BsonReader`; a text is its bytes, and a pointer into the document its offset.
pub mod Names
pub mod Lookup
pub mod Each
pub mod Parts
pub mod Hid
pub mod Info
pub mod Data
pub mod Parse
pub mod Devices
mod Tests
use mathlib.Core.Option
use sc_api.Common.{
  ℕ, zero, suc, ◌+◌, ◌-◌, ◌*◌, ◌%◌, ◌^◌, List, [], ◌∷◌, ◌++◌, Option, none, some, Bool, true, false,
  ◌&&◌, ◌||◌, not, leb, ltb, ◌==◌, length, take, drop, if◌then◌else◌, ◌>>=◌,
}
use sc_api.Types.{codes}
use sc_api.Bson.Types.{ElementType, doc, str, array, i32, boolean, is_end_or_error, is_error}
use sc_api.Bson.Reader.{Reader, next, begin_sub, end_sub, at_end, reader_of, reader}
use sc_api.Bson.Reader.Seek.{same_key, seek_key}
use sc_api.Bson.Reader.Get.{string_value, int32_value, bool_value, try_get_string, try_get_int32}
use Names.{
  control_type_from_string, feedback_type_from_string, input_role_from_string,
  input_type_from_string, device_role_from_string, control_unknown, feedback_unknown,
  input_role_unknown, input_type_unknown,
}

pub record VariableRef : Type 0 where
  pub device_session_id : ℕ
  pub id : List ℕ

pub record Control : Type 0 where
  pub id : List ℕ
  pub parent_id : List ℕ
  pub name : List ℕ
  pub type : ℕ

-- The range, which nothing sets, is left out.
pub record Input : Type 0 where
  pub id : List ℕ
  pub control : List ℕ
  pub type : ℕ
  pub role : ℕ
  pub variable : VariableRef

pub record InputMapping : Type 0 where
  pub device_id : ℕ
  pub input_id : List ℕ

-- The role has no default; `none` is a value that was not set.
pub record HidAxisInput : Type 0 where
  pub role : Option ℕ
  pub range_low : ℕ
  pub range_high : ℕ
  pub mappings : List InputMapping

pub record HidButtonInput : Type 0 where
  pub role : ℕ
  pub mappings : List InputMapping

pub record UsbDeviceInfo : Type 0 where
  pub hid_device_path : List ℕ
  pub pid : ℕ
  pub vid : ℕ

pub record Feedback : Type 0 where
  pub id : List ℕ
  pub control : List ℕ
  pub type : ℕ
  pub parameters : Option ℕ

-- The loop `while (true) { e = r.next(); if (isEndOrError(e)) break; ... }` with its body. A round
-- takes two bytes at least, so one for each byte of the document and two are enough.
unfoldable pub each :
    {S : Type 0}
    → (ElementType → Reader → S → Option (Reader × S))
    → ℕ
    → Reader
    → S
    → Option (Reader × S)
each body zero r s = none
each body (suc fuel) r s = elim (next r) [
  | none ↦ none
  | some (e, r1) ↦ elim (is_end_or_error e) [
    | true ↦ some (r1, s)
    | false ↦ elim (body e r1 s) [ none ↦ none | some (r2, s2) ↦ each body fuel r2 s2 ]
  ]
]

abbrev pub loop :
    {S : Type 0}
    → (ElementType → Reader → S → Option (Reader × S))
    → Reader
    → S
    → Option (Reader × S)
loop body r s = each body (r.cur_doc_end + 2) r s

-- `beginSub`, what is read inside, and `endSub`.
abbrev pub inside : {S : Type 0} → (Reader → Option (Reader × S)) → Reader → Option (Reader × S)
inside read r = begin_sub r >>= λ b. read b.1 >>= λ s. some ((end_sub s.0).1, s.1)

-- A text that a branch stores.
abbrev pub store_text : {S : Type 0} → (List ℕ → S) → Reader → Option (Reader × S)
store_text f r = string_value r >>= λ text. some (r, f text)

abbrev pub has_key : Reader → List ℕ → Bool
has_key r k = same_key r.key k

-- The inner loop of `parseControls`
unfoldable pub control_body : ElementType → Reader → Control → Option (Reader × Control)
control_body str r c =
    if has_key r (codes "name")
    then store_text (λ t. record c { name = t }) r
    else if has_key r (codes "role")
    then store_text (λ t. record c { type = control_type_from_string t }) r
    else if has_key r (codes "parent")
    then store_text (λ t. record c { parent_id = t }) r
    else some (r, c)
control_body e r c = some (r, c)

abbrev pub new_control : List ℕ → Control
new_control id = record { id = id; parent_id = []; name = []; type = control_unknown }

unfoldable pub controls_body : ElementType → Reader → List Control → Option (Reader × List Control)
unfolding each control_body
controls_body doc r controls = inside (λ b. loop control_body b (new_control r.key)) r >>= λ s.
    some (s.0, controls ++ s.1 ∷ [])
controls_body e r controls = some (r, controls)

-- `parseControls`
unfoldable pub parse_controls : Reader → Option (Reader × List Control)
unfolding each controls_body
parse_controls r = loop controls_body r []

-- `std::string_view::find(':')`: the text before the first colon and that behind it.
unfoldable pub split_colon : List ℕ → Option (List ℕ × List ℕ)
split_colon [] = none
split_colon (c ∷ s) =
    if c == b':'
    then some ([], s)
    else Option.map (λ (p : List ℕ × List ℕ). (c ∷ p.0, p.1)) (split_colon s)

-- The digits at the front of a text, and whether there is one.
unfoldable pub read_digits : ℕ → List ℕ → ℕ
read_digits acc [] = acc
read_digits acc (c ∷ s) =
    let more = read_digits (acc * 10 + (c - b'0')) s in
    if leb b'0' c && leb c b'9' then more else acc

-- `std::from_chars` to a `uint16_t`: the digits at the front, if there is one and the number fits.
unfoldable pub from_chars : List ℕ → Option ℕ
unfolding read_digits
from_chars [] = none
from_chars (c ∷ s) =
    if leb b'0' c && leb c b'9'
    then if ltb (read_digits 0 (c ∷ s)) (2 ^ 16) then some (read_digits 0 (c ∷ s)) else none
    else none

-- The branch of `parseInputs` on a variable.
unfoldable pub variable_ref : ℕ → List ℕ → VariableRef
unfolding split_colon from_chars
variable_ref this_device_id var = elim (split_colon var) [
  | none ↦ record { device_session_id = this_device_id; id = var }
  | some (front, back) ↦ elim (from_chars front) [
    | some number ↦ record { device_session_id = number; id = back }
    | none ↦ record { device_session_id = this_device_id; id = var }
  ]
]

unfoldable pub input_body : ℕ → ElementType → Reader → Input → Option (Reader × Input)
unfolding variable_ref
input_body this_device_id str r c =
    if has_key r (codes "variable")
    then store_text (λ t. record c { variable = variable_ref this_device_id t }) r
    else if has_key r (codes "role")
    then store_text (λ t. record c { role = input_role_from_string t }) r
    else if has_key r (codes "type")
    then store_text (λ t. record c { type = input_type_from_string t }) r
    else if has_key r (codes "control")
    then store_text (λ t. record c { control = t }) r
    else some (r, c)
input_body this_device_id e r c = some (r, c)

abbrev pub new_input : List ℕ → Input
new_input id = record {
  id = id;
  control = [];
  type = input_type_unknown;
  role = input_role_unknown;
  variable = record { device_session_id = 0; id = [] };
}

unfoldable pub inputs_body : ℕ → ElementType → Reader → List Input → Option (Reader × List Input)
unfolding each input_body
inputs_body this_device_id doc r inputs =
    inside (λ b. loop (input_body this_device_id) b (new_input r.key)) r >>= λ s.
    some (s.0, inputs ++ s.1 ∷ [])
inputs_body this_device_id e r inputs = some (r, inputs)

-- `parseInputs`
unfoldable pub parse_inputs : ℕ → Reader → Option (Reader × List Input)
unfolding each inputs_body
parse_inputs this_device_id r = loop (inputs_body this_device_id) r []

unfoldable pub feedback_body : ElementType → Reader → Feedback → Option (Reader × Feedback)
feedback_body str r c =
    if has_key r (codes "control")
    then store_text (λ t. record c { control = t }) r
    else if has_key r (codes "type")
    then store_text (λ t. record c { type = feedback_type_from_string t }) r
    else some (r, c)
feedback_body doc r c = some (r, record c { parameters = some r.buf_offset })
feedback_body e r c = some (r, c)

abbrev pub new_feedback : List ℕ → Feedback
new_feedback id = record { id = id; control = []; type = feedback_unknown; parameters = none }

unfoldable pub feedbacks_body :
    ElementType → Reader → List Feedback → Option (Reader × List Feedback)
unfolding each feedback_body
feedbacks_body doc r feedbacks = inside (λ b. loop feedback_body b (new_feedback r.key)) r >>= λ s.
    some (s.0, feedbacks ++ s.1 ∷ [])
feedbacks_body e r feedbacks = some (r, feedbacks)

-- `parseFeedbacks`
unfoldable pub parse_feedbacks : Reader → Option (Reader × List Feedback)
unfolding each feedbacks_body
parse_feedbacks r = loop feedbacks_body r []
