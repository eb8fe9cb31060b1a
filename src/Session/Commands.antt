-- ===== src/Session/Commands.antt =====
-- The sending of commands and their results: `Session::Internal::startSendCommand`, `startNextSend`
-- and the end of `parsePacket` in core/src/session.cpp. Each holds the mutex, so that the threads'
-- calls stand one behind the other. The socket's writes complete later, as steps of their own.
pub mod Order
pub mod Callbacks
mod Tests
use sc_api.Common.{
  ℕ, zero, suc, ◌+◌, List, [], ◌∷◌, ◌++◌, Option, none, some, Bool, true, false, not, ◌||◌, ◌==◌,
  if◌then◌else◌,
}

-- The fields of `Session::Internal` that commands use. A callback is a value of `H`; a packet is its
-- bytes. `is_open` is that of the socket.
pub record Link (H : Type 0) : Type 0 where
  pub is_open : Bool
  pub handlers : List (ℕ × H)
  pub queue : List (List ℕ)
  pub send_in_progress : Bool

module _ {H : Type 0} where
  -- `command_result_handlers[cmd_id] = cb`
  unfoldable pub set_handler : ℕ → H → List (ℕ × H) → List (ℕ × H)
  set_handler id cb [] = (id, cb) ∷ []
  set_handler id cb ((k, c) ∷ hs) = if k == id then (id, cb) ∷ hs else (k, c) ∷ set_handler id cb hs

  -- `find` in the handlers.
  unfoldable pub find_handler : ℕ → List (ℕ × H) → Option H
  find_handler id [] = none
  find_handler id ((k, c) ∷ hs) = if k == id then some c else find_handler id hs

  -- `erase` of the handler that was found.
  unfoldable pub erase_handler : ℕ → List (ℕ × H) → List (ℕ × H)
  erase_handler id [] = []
  erase_handler id ((k, c) ∷ hs) = if k == id then hs else (k, c) ∷ erase_handler id hs

  -- `startNextSendNoLock`: the packet that is given to the socket, and the link.
  unfoldable pub start_next_send : Link H → Option (List ℕ) × Link H
  start_next_send l = if l.send_in_progress then (none, l) else elim (l.queue) [
    | [] ↦ (none, l)
    | p ∷ ps ↦ (some p, record l { queue = ps; send_in_progress = true })
  ]

  -- `startSendCommand`: what it returns, and the packet that is given to the socket.
  unfoldable pub start_send_command : List ℕ → ℕ → H → Link H → Bool × (Option (List ℕ) × Link H)
  start_send_command tx_data cmd_id cb l =
      if l.is_open
      then (
        true,
        start_next_send (record l {
          handlers = set_handler cmd_id cb l.handlers;
          queue = l.queue ++ (tx_data ∷ []);
        }),
      )
      else (false, (none, l))

  -- The completion of a write: `true` without an error.
  unfoldable pub on_written : Bool → Link H → Option (List ℕ) × Link H
  on_written true l = start_next_send (record l { send_in_progress = false })
  on_written false l = (none, record l { send_in_progress = false })

  -- The end of `parsePacket`, for a command id that was read and the handler that is found: the
  -- callback that is called.
  abbrev pub take_found : Option H → ℕ → Link H → Option H × Link H
  take_found none cmd_id l = (none, l)
  take_found (some cb) cmd_id l = (some cb, record l { handlers = erase_handler cmd_id l.handlers })

  unfoldable pub take_callback : ℕ → Link H → Option H × Link H
  take_callback cmd_id l = take_found (find_handler cmd_id l.handlers) cmd_id l

  -- The socket is closed.
  abbrev pub close_link : Link H → Link H
  close_link l = record l { is_open = false }

-- What happens to a link.
pub data Step (H : Type 0) : Type 0 where
  command : List ℕ → ℕ → H → Step H
  written : Bool → Step H
  answered : ℕ → Step H
  closed : Step H

module _ {H : Type 0} where
  -- The packet that a step gives to the socket.
  abbrev pub sent_by : Step H → Link H → Option (List ℕ)
  sent_by (command packet id cb) l = (start_send_command packet id cb l).1.0
  sent_by (written ok) l = (on_written ok l).0
  sent_by (answered id) l = none
  sent_by closed l = none

  -- The callback that a step calls.
  abbrev pub called_by : Step H → Link H → Option H
  called_by (command packet id cb) l = none
  called_by (written ok) l = none
  called_by (answered id) l = (take_callback id l).0
  called_by closed l = none

  abbrev pub run_step : Step H → Link H → Link H
  run_step (command packet id cb) l = (start_send_command packet id cb l).1.1
  run_step (written ok) l = (on_written ok l).1
  run_step (answered id) l = (take_callback id l).1
  run_step closed l = close_link l

  unfoldable pub run_steps : List (Step H) → Link H → Link H
  run_steps [] l = l
  run_steps (s ∷ ss) l = run_steps ss (run_step s l)
