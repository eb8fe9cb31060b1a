-- ===== src/Action/Tests.antt =====
-- Runs of `ActionBuilder`, and its theorems at concrete inputs.
use sc_api.Common.{◌≡◌, refl, [], ◌∷◌, ◌++◌, some, true, arith}
use sc_api.Bytes.{le_bytes, write_bytes}
use sc_api.Action.{
  ActionBuilder, ActionResult, success, blocks, build, start_building, start_building_with,
  send_nonblocking, reset,
}
use sc_api.Action.Build.{packet, build-packet}
use sc_api.Action.Send.{Action, build_all, packets, packet_of, send_nonblocking-packets}

abbrev empty : ActionBuilder
empty = record { session = some 3; buffer = []; cur_start_idx = 0 }

abbrev one : Action
one = record { action_id = 1; payload = 7 ∷ []; flags = 0 }

abbrev two : Action
two = record { action_id = 2; payload = 8 ∷ 9 ∷ []; flags = 0 }

packet_run :
    build 1 (7 ∷ []) 0 empty
    ≡ some (true, record empty { buffer = [] ++ packet 3 0 1 (7 ∷ []); cur_start_idx = 0 })
packet_run = build-packet 3 1 0 (7 ∷ []) empty refl (omega arith)

send_nonblocking-packets_example :
    (b1 : ActionBuilder) × (b2 : ActionBuilder) × (build_all (one ∷ []) empty ≡ some (true, b1))
    × (build 2 (8 ∷ 9 ∷ []) 0 b1 ≡ some (true, b2))
    × (send_nonblocking success b2
        ≡ some (ActionResult.complete, some (packets 3 (one ∷ []) ++ packet_of 3 two), reset b2))
    × (send_nonblocking blocks b2
        ≡ some (ActionResult.would_block, some (packets 3 (one ∷ []) ++ packet_of 3 two), b2))
unfolding packets le_bytes
send_nonblocking-packets_example =
    send_nonblocking-packets 3 (one ∷ []) two empty refl refl (omega arith)

-- A second action started with `startBuilding`: its header overwrites the first's.
runs_start :
    start_building 2 1 0
      (record { session = some 3; buffer = 3 ∷ 0 ∷ 0 ∷ 0 ∷ 1 ∷ 0 ∷ 8 ∷ 0 ∷ []; cur_start_idx = 0 })
    ≡ some (
      true,
      record {
        session = some 3;
        buffer = 3 ∷ 0 ∷ 0 ∷ 0 ∷ 2 ∷ 0 ∷ 9 ∷ 0 ∷ 0 ∷ 0 ∷ 0 ∷ 0 ∷ 0 ∷ 0 ∷ 0 ∷ 0 ∷ 0 ∷ [];
        cur_start_idx = 8;
      },
    )
unfolding start_building start_building_with write_bytes le_bytes
runs_start = refl
