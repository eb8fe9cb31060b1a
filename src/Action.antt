-- ===== src/Action.antt =====
-- `ActionBuilder` of core/src/action.cpp: the packets of actions in one buffer, and their sending. A
-- write outside the buffer has no result (`none`). The socket is a parameter: what a send returns.
pub mod Build
pub mod Send
mod Tests
use sc_api.Common.{
  ℕ, zero, suc, ◌+◌, ◌-◌, ◌%◌, ◌^◌, List, [], ◌∷◌, ◌++◌, Option, none, some, Bool, true, false,
  length, if◌then◌else◌, ◌>>=◌, ◌==◌,
}
use sc_api.Bytes.{le_bytes, write_bytes, resize}

-- `ActionResult`
pub data ActionResult : Type 0 where
  inprogress complete failed would_block : ActionResult

-- What a send on the socket reports: no error, `would_block`, or another error.
pub data SendError : Type 0 where
  success blocks other : SendError

-- The fields of `ActionBuilder`. `session` is `none` for the null pointer, and the controller id of
-- the session otherwise.
pub record ActionBuilder : Type 0 where
  pub session : Option ℕ
  pub buffer : List ℕ
  pub cur_start_idx : ℕ

abbrev pub reset : ActionBuilder → ActionBuilder
reset b = record b { buffer = []; cur_start_idx = 0 }

abbrev pub init : Option ℕ → ActionBuilder → ActionBuilder
init session b = reset (record b { session = session })

-- `SC_API_PROTOCOL_ActionHeader_t`: four integers of 16 bits.
abbrev pub header : ℕ → ℕ → ℕ → ℕ → List ℕ
header controller_id flags action_id size =
    le_bytes 2 controller_id ++ (le_bytes 2 flags ++ (le_bytes 2 action_id ++ le_bytes 2 size))

-- The controller id, where there is a session that has one.
abbrev pub controller_of : Option ℕ → Option ℕ
controller_of session = elim session [ none ↦ none | some id ↦ if id == 0 then none else some id ]

abbrev pub controller : ActionBuilder → Option ℕ
controller b = controller_of b.session

build_with : Option ℕ → ℕ → List ℕ → ℕ → ActionBuilder → Option (Bool × ActionBuilder)
build_with none action_id payload flags b = some (false, b)
build_with (some id) action_id payload flags b = do
  let start = length b.buffer % 2 ^ 32
  buf ←
      write_bytes (resize (length b.buffer + 8 + length payload) b.buffer) start
        (header id flags action_id ((8 + length payload) % 2 ^ 16))
  buf' ← write_bytes buf (start + 8) payload
  some (true, record b { buffer = buf'; cur_start_idx = start })

pub build : ℕ → List ℕ → ℕ → ActionBuilder → Option (Bool × ActionBuilder)
unfolding build_with
build action_id payload flags b = build_with (controller b) action_id payload flags b

-- `startBuilding`: the result says whether the pointer is not null. The header goes to the start of
-- the buffer.
start_building_with : Option ℕ → ℕ → ℕ → ℕ → ActionBuilder → Option (Bool × ActionBuilder)
start_building_with none action_id size flags b = some (false, b)
start_building_with (some id) action_id size flags b = do
  let start = length b.buffer % 2 ^ 32
  buf ←
      write_bytes (resize (start + 8 + size) b.buffer) 0
        (header id flags action_id ((8 + size) % 2 ^ 16))
  some (true, record b { buffer = buf; cur_start_idx = start })

pub start_building : ℕ → ℕ → ℕ → ActionBuilder → Option (Bool × ActionBuilder)
unfolding start_building_with
start_building action_id size flags b = start_building_with (controller b) action_id size flags b

abbrev pub resize_payload : ℕ → ActionBuilder → ActionBuilder
resize_payload size b = record b { buffer = resize (b.cur_start_idx + 8 + size) b.buffer }

-- `finalize`: the size of the last action, at its place in the header.
pub finalize : ActionBuilder → Option ActionBuilder
finalize b = do
  buf ←
      write_bytes b.buffer (b.cur_start_idx + 6)
        (le_bytes 2 ((length b.buffer - b.cur_start_idx) % 2 ^ 16))
  some (record b { buffer = buf })

-- Nothing can be sent without a session or without an action.
abbrev pub sendable : ActionBuilder → Bool
sendable b = elim (b.session) [
  | none ↦ false
  | some id ↦ if length b.buffer == 0 then false else true
]

-- `sendNonBlocking`: the result, the datagram given to the socket, and the builder.
pub send_nonblocking :
    SendError → ActionBuilder → Option (ActionResult × Option (List ℕ) × ActionBuilder)
send_nonblocking e b =
    if sendable b
    then (finalize b >>= λ b1. some (elim e [
      | success ↦ (ActionResult.complete, some b1.buffer, reset b1)
      | blocks ↦ (ActionResult.would_block, some b1.buffer, b1)
      | other ↦ (ActionResult.failed, some b1.buffer, reset b1)
    ]))
    else some (ActionResult.failed, none, reset b)

-- `sendBlocking`: a send that would block is made again asynchronously, and its end awaited; the
-- second report is of that.
pub send_blocking :
    SendError → SendError → ActionBuilder → Option (ActionResult × Option (List ℕ) × ActionBuilder)
send_blocking e e' b =
    if sendable b
    then (finalize b >>= λ b1. some (elim e [
      | success ↦ (ActionResult.complete, some b1.buffer, reset b1)
      | other ↦ (ActionResult.failed, some b1.buffer, reset b1)
      | blocks ↦ elim e' [
        | success ↦ (ActionResult.complete, some b1.buffer, reset b1)
        | _ ↦ (ActionResult.failed, some b1.buffer, reset b1)
      ]
    ]))
    else some (ActionResult.failed, none, reset b)

-- `asyncSend` up to its return: the status that it stores, and the buffer that it hands over.
pub async_send : ActionBuilder → Option (ActionResult × Option (List ℕ) × ActionBuilder)
async_send b =
    if sendable b
    then (finalize b >>= λ b1. some (ActionResult.inprogress, some b1.buffer, reset b1))
    else some (ActionResult.failed, none, reset b)
