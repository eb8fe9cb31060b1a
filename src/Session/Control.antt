-- ===== src/Session/Control.antt =====
-- The states of a session: `close`, `disconnected`, `periodicUpdate`, `checkDefinitions`,
-- `registerToControl` and the end of a receive in core/src/session.cpp. Times are milliseconds. What
-- the sockets and the service do is an argument.
pub mod KeepAlive
mod Tests
use sc_api.Common.{
  ℕ, ◌+◌, ◌%◌, ◌^◌, List, [], ◌∷◌, ◌++◌, Option, none, some, Bool, true, false, not, ◌&&◌, ◌||◌,
  ltb, ◌==◌, if◌then◌else◌,
}

-- `SessionState`
pub data State : Type 0 where
  invalid connected_monitor connected_control session_lost : State

-- The codes of `ResultCode` that are returned here.
pub data ResultCode : Type 0 where
  ok error_invalid_session_state error_invalid_argument error_cannot_connect error_protocol :
      ResultCode

-- The events that a session notifies.
pub data Event : Type 0 where
  session_state_changed : State → ℕ → ℕ → Event
  device_info_changed variable_definitions_changed telemetry_definitions_changed sim_data_changed :
      Event

-- The fields of `Session` that these methods use; `main_open` is that of the TCP socket, and
-- `has_api` says that `api_` is not null.
pub record Session : Type 0 where
  pub state : State
  pub control_flags : ℕ
  pub controller_id : ℕ
  pub session_id : ℕ
  pub prev_keep_alive : ℕ
  pub prev_keep_alive_value : ℕ
  pub has_api : Bool
  pub main_open : Bool

-- `close`
unfoldable pub close_session : Session → ResultCode × Session
close_session s = elim (s.state) [
  | invalid ↦ (error_invalid_session_state, s)
  | _ ↦ (ok, record s { state = invalid; has_api = false; main_open = false })
]

-- `disconnected`
unfoldable pub disconnected : Session → List Event × Session
disconnected s = (session_state_changed session_lost 0 0 ∷ [], record s { state = session_lost })

-- The end of the stream, in the completion of `startReceive`.
unfoldable pub on_end : Session → List Event × Session
on_end s = disconnected (record s { main_open = false })

-- What the providers report in `checkDefinitions`.
pub record Changes : Type 0 where
  pub dev_info_changed : Bool
  pub var_defs_changed : Bool
  pub telemetry_defs_changed : Bool
  pub sim_data_has_changed : Bool

abbrev event_if : Bool → Event → List Event
event_if b e = if b then e ∷ [] else []

-- `checkDefinitions`
unfoldable pub check_definitions : Changes → List Event
check_definitions c =
    event_if c.dev_info_changed device_info_changed
    ++ (event_if c.var_defs_changed variable_definitions_changed
        ++ (event_if c.telemetry_defs_changed telemetry_definitions_changed
            ++ event_if c.sim_data_has_changed sim_data_changed))

abbrev pub k_keep_alive_timeout : ℕ
k_keep_alive_timeout = 1000

-- The counter of the service, when it has changed.
abbrev pub note_keep_alive : ℕ → ℕ → Session → Session
note_keep_alive keep_alive now s =
    if keep_alive == s.prev_keep_alive_value
    then s
    else record s { prev_keep_alive_value = keep_alive; prev_keep_alive = now }

abbrev pub is_silent : ℕ → Session → Bool
is_silent now s = ltb (s.prev_keep_alive + k_keep_alive_timeout) now

-- `periodicUpdate` behind the counter: whether the timer goes on, the events, and the session.
unfoldable pub update_state : State → ℕ → Changes → Session → Bool × (List Event × Session)
unfolding disconnected check_definitions
update_state connected_monitor now c s =
    if is_silent now s then (false, disconnected s) else (true, (check_definitions c, s))
update_state connected_control now c s = (true, (check_definitions c, s))
update_state session_lost now c s = (false, ([], s))
update_state invalid now c s = (false, ([], s))

-- `periodicUpdate`, which reads the clock for a counter that has changed and again for the check.
unfoldable pub periodic_update : ℕ → ℕ → ℕ → Changes → Session → Bool × (List Event × Session)
unfolding update_state
periodic_update keep_alive noted now c s =
    let s' = note_keep_alive keep_alive noted s in update_state s'.state now c s'

-- `SecureSessionParameters`, as far as they are checked: whether the method is none, the session, and
-- whether the secret and the key are empty.
pub record SecureParameters : Type 0 where
  pub method_none : Bool
  pub secure_session_id : ℕ
  pub secret_empty : Bool
  pub key_empty : Bool

abbrev pub accepts_secure : ℕ → SecureParameters → Bool
accepts_secure session_id p =
    if p.method_none
    then p.secret_empty && p.key_empty
    else (session_id == p.secure_session_id && not (p.secret_empty || p.key_empty))

-- What comes of the connection: none, a socket that is closed again with a code, or the answer's
-- controller id and flags.
pub data Reply : Type 0 where
  not_connected : Reply
  hung_up : ResultCode → Reply
  registered : ℕ → ℕ → Reply

unfoldable pub conclude : Reply → Session → ResultCode × (List Event × Session)
conclude not_connected s = (error_cannot_connect, ([], s))
conclude (hung_up code) s = (code, ([], record s { main_open = false }))
conclude (registered id flags) s = (
  ok,
  (
    session_state_changed connected_control (id % 2 ^ 16) flags ∷ [],
    record s {
      control_flags = flags;
      controller_id = id % 2 ^ 16;
      state = connected_control;
      main_open = true;
    },
  ),
)

-- `registerToControl`, by the length of the id's name. `none` as the secure session is the null
-- pointer, which is dereferenced before it is checked.
unfoldable pub register_to_control :
    ℕ → ℕ → Option SecureParameters → Reply → Session → Option (ResultCode × (List Event × Session))
unfolding conclude
register_to_control flags name_size secure reply s =
    if ltb 64 name_size || flags == 0 then some (error_invalid_argument, ([], s)) else elim secure [
      | none ↦ none
      | some p ↦ some (
          if accepts_secure s.session_id p
          then conclude reply s
          else (error_invalid_argument, ([], s)))
    ]
