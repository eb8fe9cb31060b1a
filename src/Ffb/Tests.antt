-- ===== src/Ffb/Tests.antt =====
-- Runs of force feedback, and its theorem at a small effect.
use sc_api.Common.{ℕ, List, ◌≡◌, refl, [], ◌∷◌, some, none, true, false, arith}
use sc_api.Bytes.{geti32, read_bytes, of_le}
use sc_api.Action.{reset, success}
use sc_api.Session.Control.{State}
use sc_api.Bson.Reader.{reader, next, skip_value, enter}
use sc_api.Bson.Reader.Seek.{seek_key, find_or_back, find, seek}
use sc_api.Device.Info.{find_int32}
use sc_api.Ffb.{FfbPipeline, generate_effect, configured, remove, is_active}
use sc_api.Ffb.Effect.{IsEffect, generate_effect-packet}

abbrev pipeline : FfbPipeline
pipeline = record {
  action_builder = record { session = some 3; buffer = []; cur_start_idx = 0 };
  device = 5;
  pipeline_id = 1;
}

generate_effect-packet_example :
    (datagram : List ℕ) × (generate_effect success pipeline 1000 10 (7 ∷ 8 ∷ [])
      ≡ some
          (true, some datagram, record pipeline { action_builder = reset pipeline.action_builder }))
    × IsEffect 3 5 1 1000 10 (7 ∷ 8 ∷ []) datagram
generate_effect-packet_example =
    generate_effect-packet 3 1000 10 (7 ∷ 8 ∷ []) pipeline refl refl (omega arith) (omega arith)
      (omega arith)

-- A pipeline that was removed sends nothing.
removed_run :
    generate_effect success (remove true pipeline).1 1000 10 (7 ∷ [])
    ≡ some (false, none, (remove true pipeline).1)
unfolding generate_effect remove
removed_run = refl

active_run : is_active State.connected_control pipeline ≡ true
active_run = refl

-- An answer without a pipeline sets none, and counts as a success.
configured_run :
    configured (λ v. v) (some (5 ∷ 0 ∷ 0 ∷ 0 ∷ 0 ∷ [])) pipeline
    ≡ some (true, record pipeline { pipeline_id = 255 })
unfolding configured reader find_int32 seek_key find_or_back find seek next skip_value enter geti32
    read_bytes of_le
configured_run = refl
