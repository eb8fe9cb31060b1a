-- ===== src/Session/Commands/Tests.antt =====
-- Runs of the sending of commands (core/src/session.cpp), and the examples of its theorems.
use sc_api.Common.{ℕ, ◌+◌, ◌≡◌, refl, true, false, List, [], ◌∷◌, ◌++◌, none, arith}
use sc_api.Session.Commands.{
  Link, Step, command, written, answered, closed, set_handler, start_next_send, start_send_command,
  on_written, run_steps,
}
use sc_api.Session.Commands.Order.{
  all_sent, accepted, run_steps-accepted, run_steps-IsDriven, IsDriven,
}
use sc_api.Session.Commands.Callbacks.{calls, pending, commands, calls-commands}

-- A callback is a number here.
abbrev idle : Link ℕ
idle = record { is_open = true; handlers = []; queue = []; send_in_progress = false }

abbrev steps : List (Step ℕ)
steps =
    command (1 ∷ []) 1 10
    ∷ command (2 ∷ []) 2 20
    ∷ written true
    ∷ answered 1
    ∷ answered 1
    ∷ closed
    ∷ []

run_steps-accepted_example :
    all_sent steps idle ++ (run_steps steps idle).queue ≡ idle.queue ++ accepted true steps
run_steps-accepted_example = run_steps-accepted steps idle

run_steps-IsDriven_example : IsDriven (run_steps steps idle)
run_steps-IsDriven_example = run_steps-IsDriven steps idle tt (λ e. refl)

-- The numbers of the calls and of the commands are computed.
one_command : pending 1 idle.handlers + commands 1 idle.is_open steps ≡ 1
unfolding pending commands
one_command = refl

calls-commands_example :
    calls 1 steps idle + pending 1 (run_steps steps idle).handlers
    ≡ pending 1 idle.handlers + commands 1 idle.is_open steps
calls-commands_example = calls-commands 1 steps idle (omega (arith, one_command))

-- Only the first packet is given to the socket; the second waits until the write has completed.
runs_two : start_send_command (2 ∷ []) 2 20 (start_send_command (1 ∷ []) 1 10 idle).1.1 ≡ (
  true,
  (
    none,
    record {
      is_open = true;
      handlers = (1, 10) ∷ (2, 20) ∷ [];
      queue = (2 ∷ []) ∷ [];
      send_in_progress = true;
    },
  ),
)
unfolding start_send_command start_next_send set_handler
runs_two = refl

-- After a write that failed the packet that waits is not sent.
runs_failed :
    (on_written {H = ℕ} false
      (record { is_open = true; handlers = []; queue = (2 ∷ []) ∷ []; send_in_progress = true })).0
    ≡ none
unfolding on_written
runs_failed = refl

-- The callback of a command is not called when the socket is closed: it waits for ever.
runs_closed : (run_steps (command (1 ∷ []) 1 10 ∷ closed ∷ []) idle).handlers ≡ (1, 10) ∷ []
unfolding run_steps start_send_command start_next_send set_handler
runs_closed = refl
