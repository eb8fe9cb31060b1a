-- ===== src/Session/Control/Tests.antt =====
-- Runs of the states of a session (core/src/session.cpp), and the examples of its theorems.
use sc_api.Common.{ℕ, ◌+◌, ◌≡◌, refl, [], ◌∷◌, none, some, true, false, inl, inr, arith}
use sc_api.Session.Control.{
  connected_monitor, connected_control, session_lost, ok, error_invalid_argument, Session, Changes,
  session_state_changed, close_session, SecureParameters, registered, register_to_control, conclude,
}
use sc_api.Session.Control.KeepAlive.{Reading, updates, updates-lost, updates-alive}

abbrev fresh : Session
fresh = record {
  state = connected_monitor;
  control_flags = 0;
  controller_id = 0;
  session_id = 5;
  prev_keep_alive = 100;
  prev_keep_alive_value = 1;
  has_api = true;
  main_open = false;
}

abbrev quiet : Changes
quiet = record {
  dev_info_changed = false;
  var_defs_changed = false;
  telemetry_defs_changed = false;
  sim_data_has_changed = false;
}

abbrev reading : ℕ → ℕ → Reading
reading keep_alive time = record {
  keep_alive = keep_alive;
  noted = time;
  time = time + 3;
  changes = quiet;
}

updates-lost_example : (updates (reading 1 600 ∷ reading 1 1098 ∷ []) fresh).state ≡ session_lost
updates-lost_example =
    updates-lost (reading 1 600 ∷ reading 1 1098 ∷ []) fresh refl (refl, (refl, tt))
      (inr (inl (omega arith)))

updates-alive_example :
    (updates (reading 1 1097 ∷ reading 3 9000 ∷ []) fresh).state ≡ connected_monitor
updates-alive_example =
    updates-alive (reading 1 1097 ∷ reading 3 9000 ∷ []) fresh refl
      (inl (refl, omega arith, inr ((λ e. absurd (omega (arith, e))), omega arith, tt)))

abbrev plain : SecureParameters
plain = record { method_none = true; secure_session_id = 0; secret_empty = true; key_empty = true }

-- Without a secure session, which is the default, the null pointer is used.
runs_null : register_to_control 1 4 none (registered 7 1) fresh ≡ none
unfolding register_to_control
runs_null = refl

-- A session that was closed can be registered again, without its API.
runs_closed :
    register_to_control 1 4 (some plain) (registered 7 1) (close_session fresh).1
    ≡ some (
      ok,
      (
        session_state_changed connected_control 7 1 ∷ [],
        record {
          state = connected_control;
          control_flags = 1;
          controller_id = 7;
          session_id = 5;
          prev_keep_alive = 100;
          prev_keep_alive_value = 1;
          has_api = false;
          main_open = true;
        },
      ),
    )
unfolding register_to_control conclude close_session
runs_closed = refl

-- A controller id of 2^16 becomes 0, which stands for none.
runs_wrap : (conclude (registered 65536 1) fresh).1.1.controller_id ≡ 0
unfolding conclude
runs_wrap = refl

runs_flags :
    register_to_control 0 4 (some plain) (registered 7 1) fresh
    ≡ some (error_invalid_argument, ([], fresh))
unfolding register_to_control
runs_flags = refl
