-- ===== src/Device/Names.antt =====
-- The names of roles and types: core/inc/sc-api/core/device_info_definitions.h. An enumerator is its
-- number, which is the index of its name in the table; the last one, `other`, stands for the rest.
use sc_api.Common.{ℕ, ◌+◌, List, [], ◌∷◌, Option, get_elem?, if◌then◌else◌}
use mathlib.Core.List.{map}
use sc_api.Types.{codes}
use sc_api.Bson.Reader.Seek.{same_key}

-- `device_role_ids`
abbrev pub device_role_ids : List (List ℕ)
device_role_ids = map codes (
    "wheel" ∷ "wheelbase" ∷ "throttle_pedal" ∷ "brake_pedal" ∷ "handbrake" ∷ "clutch_pedal"
    ∷ "gear_stick" ∷ "button_box" ∷ "hub" ∷ "unknown" ∷ "other" ∷ [])

-- `control_type_ids`
abbrev pub control_type_ids : List (List ℕ)
control_type_ids = map codes (
    "wheelbase" ∷ "wheel" ∷ "pedal" ∷ "paddle" ∷ "hat_switch" ∷ "button" ∷ "toggle_switch"
    ∷ "dir_2way" ∷ "dir_4way" ∷ "rot_enc" ∷ "funky_switch" ∷ "light" ∷ "unknown" ∷ "other" ∷ [])

-- `feedback_type_ids`
abbrev pub feedback_type_ids : List (List ℕ)
feedback_type_ids = map codes (
    "direct_input" ∷ "wheelbase" ∷ "active_pedal" ∷ "rgb_light" ∷ "light" ∷ "unknown" ∷ "other"
    ∷ [])

-- `input_role_ids`
abbrev pub input_role_ids : List (List ℕ)
input_role_ids = map codes (
    "steering" ∷ "throttle" ∷ "brake" ∷ "clutch" ∷ "clutch_secondary" ∷ "clutch_primary"
    ∷ "gear_shift" ∷ "gear_shift_up" ∷ "gear_shift_down" ∷ "handbrake" ∷ "ignition" ∷ "starter"
    ∷ "headlight_toggle" ∷ "high_beam_toggle" ∷ "headlight_flash" ∷ "pit_limiter" ∷ "overtake"
    ∷ "drs" ∷ "traction_control_toggle" ∷ "traction_control_increase" ∷ "traction_control_decrease"
    ∷ "tear_off_visor" ∷ "trigger_windshield_wipers" ∷ "toggle_windshield_wipers"
    ∷ "brake_bias_increase" ∷ "brake_bias_decrease" ∷ "front_antiroll_bar_increase"
    ∷ "front_antiroll_bar_decrease" ∷ "rear_antiroll_bar_increase" ∷ "rear_antiroll_bar_decrease"
    ∷ "fuel_map_increase" ∷ "fuel_map_decrease" ∷ "turbo_pressure_increase"
    ∷ "turbo_pressure_decrease" ∷ "abs_adjust" ∷ "abs_increase" ∷ "abs_decrease"
    ∷ "front_wing_increase" ∷ "front_wing_decrease" ∷ "rear_wing_increase" ∷ "rear_wing_decrease"
    ∷ "diff_preload_increase" ∷ "diff_preload_decrease" ∷ "diff_entry_increase"
    ∷ "diff_entry_decrease" ∷ "diff_middle_increase" ∷ "diff_middle_decrease" ∷ "diff_exit_increase"
    ∷ "diff_exit_decrease" ∷ "throttle_shaping_increase" ∷ "throttle_shaping_decrease"
    ∷ "mgu_k_re_gen_gain_increase" ∷ "mgu_k_re_gen_gain_decrease" ∷ "mgu_k_deploy_mode_increase"
    ∷ "mgu_k_deploy_mode_decrease" ∷ "mgu_k_fixed_deploy_increase" ∷ "mgu_k_fixed_deploy_decrease"
    ∷ "low_fuel_accept" ∷ "fcy_mode_toggle" ∷ "next_dash_page" ∷ "previous_dash_page"
    ∷ "left_indicator" ∷ "right_indicator" ∷ "kers" ∷ "horn" ∷ "reset_vehicle" ∷ "enter_vehicle"
    ∷ "exit_vehicle" ∷ "launch_control" ∷ "abs_value_0" ∷ "abs_value_1" ∷ "abs_value_2"
    ∷ "abs_value_3" ∷ "abs_value_4" ∷ "abs_value_5" ∷ "abs_value_6" ∷ "abs_value_7" ∷ "abs_value_8"
    ∷ "abs_value_9" ∷ "abs_value_10" ∷ "abs_value_11" ∷ "tc_adjust" ∷ "tc_value_0" ∷ "tc_value_1"
    ∷ "tc_value_2" ∷ "tc_value_3" ∷ "tc_value_4" ∷ "tc_value_5" ∷ "tc_value_6" ∷ "tc_value_7"
    ∷ "tc_value_8" ∷ "tc_value_9" ∷ "tc_value_10" ∷ "tc_value_11" ∷ "tc2_value_0" ∷ "tc2_value_1"
    ∷ "tc2_value_2" ∷ "tc2_value_3" ∷ "tc2_value_4" ∷ "tc2_value_5" ∷ "tc2_value_6" ∷ "tc2_value_7"
    ∷ "tc2_value_8" ∷ "tc2_value_9" ∷ "tc2_value_10" ∷ "tc2_value_11" ∷ "enter" ∷ "back" ∷ "up"
    ∷ "down" ∷ "left" ∷ "right" ∷ "pause" ∷ "next_overlay_page" ∷ "previous_overlay_page"
    ∷ "lap_timing_overlay_page" ∷ "standings_overlay_page" ∷ "relative_overlay_page"
    ∷ "fuel_overlay_page" ∷ "tires_overlay_page" ∷ "tire_info_overlay_page"
    ∷ "pit_stop_adjustments_overlay_page" ∷ "in_car_adjustments_overlay_page"
    ∷ "mirror_adjustments_overlay_page" ∷ "radio_adjustments_overlay_page" ∷ "weather_overlay_page"
    ∷ "select_next_control" ∷ "select_previous_control" ∷ "increment_selected_control"
    ∷ "decrement_selected_control" ∷ "toggle_selected_control" ∷ "toggle_dash_box"
    ∷ "prev_splits_delta_display" ∷ "next_splits_delta_display" ∷ "increase_field_of_view"
    ∷ "decrease_field_of_view" ∷ "shift_horizon_up" ∷ "shift_horizon_down"
    ∷ "increase_driver_height" ∷ "decrease_driver_height" ∷ "recenter_tilt_axis" ∷ "glance_left"
    ∷ "glance_right" ∷ "glance_back" ∷ "change_camera" ∷ "move_forward" ∷ "move_backward"
    ∷ "move_left" ∷ "move_right" ∷ "mark_event_in_telemetry" ∷ "active_reset_save_start_point"
    ∷ "active_reset_run" ∷ "spotter_silence" ∷ "damage_report" ∷ "ffb_gain_increase"
    ∷ "ffb_gain_decrease" ∷ "in_game_push_to_talk" ∷ "external_push_to_talk" ∷ "chat_sorry"
    ∷ "chat_thanks" ∷ "chat_enter_pit" ∷ "chat_exit_pit" ∷ "mute" ∷ "volume_increase"
    ∷ "volume_decrease" ∷ "unknown" ∷ "unmapped" ∷ "other" ∷ [])

-- `input_type_ids`
abbrev pub input_type_ids : List (List ℕ)
input_type_ids =
    map codes ("axis" ∷ "button" ∷ "inc_rot_enc" ∷ "abs_rot_enc" ∷ "unknown" ∷ "other" ∷ [])

-- The loop of the `FromString` functions, over the names but the last.
unfoldable pub index_from : List ℕ → ℕ → List (List ℕ) → ℕ
index_from s i [] = i
index_from s i (id ∷ []) = i
index_from s i (id ∷ id' ∷ ids) = if same_key s id then i else index_from s (i + 1) (id' ∷ ids)

-- `toString`; `none` is a number that is no enumerator.
abbrev pub name_of : List (List ℕ) → ℕ → Option (List ℕ)
name_of ids i = get_elem? ids i

unfoldable pub device_role_from_string : List ℕ → ℕ
unfolding index_from
device_role_from_string s = index_from s 0 device_role_ids

unfoldable pub control_type_from_string : List ℕ → ℕ
unfolding index_from
control_type_from_string s = index_from s 0 control_type_ids

unfoldable pub feedback_type_from_string : List ℕ → ℕ
unfolding index_from
feedback_type_from_string s = index_from s 0 feedback_type_ids

unfoldable pub input_role_from_string : List ℕ → ℕ
unfolding index_from
input_role_from_string s = index_from s 0 input_role_ids

unfoldable pub input_type_from_string : List ℕ → ℕ
unfolding index_from
input_type_from_string s = index_from s 0 input_type_ids

abbrev pub device_role_unknown : ℕ
device_role_unknown = 9

abbrev pub control_unknown : ℕ
control_unknown = 12

abbrev pub feedback_unknown : ℕ
feedback_unknown = 5

abbrev pub input_role_unknown : ℕ
input_role_unknown = 165

abbrev pub input_type_unknown : ℕ
input_type_unknown = 4

-- The five enumerations.
pub data NameTable : Type 0 where
  device_roles control_types feedback_types input_roles input_types : NameTable

abbrev pub table : NameTable → List (List ℕ)
table device_roles = device_role_ids
table control_types = control_type_ids
table feedback_types = feedback_type_ids
table input_roles = input_role_ids
table input_types = input_type_ids

unfoldable pub from_string : NameTable → List ℕ → ℕ
from_string device_roles s = device_role_from_string s
from_string control_types s = control_type_from_string s
from_string feedback_types s = feedback_type_from_string s
from_string input_roles s = input_role_from_string s
from_string input_types s = input_type_from_string s
