-- ===== src/Ffb.antt =====
-- Force feedback: core/src/ffb.cpp and core/inc/sc-api/core/ffb.h, with the payloads of
-- core/inc/sc-api/core/protocol/actions.h, where the session is not a secure one. A sample is the 32
-- bits of its `float`, a time the 64 bits of its count. What the service answers is an argument.
pub mod Effect
mod Tests
use sc_api.Common.{
  ℕ, ◌+◌, ◌*◌, ◌-◌, ◌/◌, ◌%◌, ◌^◌, List, [], ◌∷◌, ◌++◌, Option, none, some, Bool, true, false, ◌||◌,
  ltb, leb, ◌==◌, not, length, replicate, if◌then◌else◌, ◌>>=◌,
}
use sc_api.Bytes.{le_bytes, write_bytes}
use sc_api.Action.{ActionBuilder, ActionResult, SendError, start_building, send_nonblocking}
use sc_api.Types.{codes}
use sc_api.Bson.Reader.{reader}
use sc_api.Device.Info.{find_int32}
use sc_api.Session.Control.{State}

pub record EffectPipelineRef : Type 0 where
  pub device_logical_id : ℕ
  pub pipeline_id : ℕ

-- The configuration has no part in what is sent and is left out. `pipeline_id` is the eight bits of
-- an `int8_t`.
pub record FfbPipeline : Type 0 where
  pub action_builder : ActionBuilder
  pub device : ℕ
  pub pipeline_id : ℕ

-- The `Header` of an effect: the authenticated part, the device, two bytes of padding and the data.
abbrev pub effect_header : EffectPipelineRef → ℕ → ℕ → ℕ → List ℕ
effect_header pipeline timestamp sample_time sample_count =
    (pipeline.pipeline_id % 2 ^ 8 ∷ replicate 15 0)
    ++ (le_bytes 2 pipeline.device_logical_id
        ++ (0 ∷ 0 ∷ 0 ∷ sample_time / 2 ^ 32 % 2 ^ 8 ∷ [])
        ++ (le_bytes 2 (sample_count - 1)
            ++ (le_bytes 4 sample_time
                ++ (le_bytes 4 timestamp ++ le_bytes 4 (timestamp / 2 ^ 32)))))

unfoldable pub sample_bytes : List ℕ → List ℕ
sample_bytes [] = []
sample_bytes (s ∷ samples) = le_bytes 4 s ++ sample_bytes samples

-- `buildEffectOffsetDataAction`
unfoldable pub build_effect_offset_data_action :
    ActionBuilder → EffectPipelineRef → ℕ → ℕ → List ℕ → Option (Bool × ActionBuilder)
unfolding sample_bytes
build_effect_offset_data_action b pipeline timestamp sample_time samples =
    if length samples == 0 || ltb 256 (length samples)
    then some (false, b)
    else start_building 1 (36 + 4 * length samples) 0 b >>= λ s. elim (s.0) [
      | false ↦ some (false, s.1)
      | true ↦
          write_bytes s.1.buffer (s.1.cur_start_idx + 8)
            (effect_header pipeline timestamp sample_time (length samples))
          >>= λ buf. write_bytes buf (s.1.cur_start_idx + 8 + 36) (sample_bytes samples) >>= λ buf'.
              some (true, record s.1 { buffer = buf' })
    ]

-- The `Payload` of `buildEffectClearAction`; the code does not set the first two bytes and the last 32.
abbrev pub clear_payload : ℕ → ℕ → List ℕ → EffectPipelineRef → List ℕ
clear_payload idx flags unset pipeline =
    idx
    ∷ flags
    ∷ (replicate 14 0
        ++ (le_bytes 2 pipeline.device_logical_id ++ (1 ∷ pipeline.pipeline_id % 2 ^ 8 ∷ unset)))

-- `buildEffectClearAction`
unfoldable pub build_effect_clear_action : List ℕ → ActionBuilder → Option (Bool × ActionBuilder)
build_effect_clear_action payload b = start_building 2 52 0 b >>= λ s. elim (s.0) [
  | false ↦ some (false, s.1)
  | true ↦ write_bytes s.1.buffer (s.1.cur_start_idx + 8) payload >>= λ buf.
      some (true, record s.1 { buffer = buf })
]

abbrev pub is_complete : ActionResult → Bool
is_complete ActionResult.complete = true
is_complete r = false

abbrev pub is_unset : FfbPipeline → Bool
is_unset p = leb (2 ^ 7) p.pipeline_id

abbrev pub ref_of : FfbPipeline → EffectPipelineRef
ref_of p = record { device_logical_id = p.device; pipeline_id = p.pipeline_id }

-- `action_builder_.sendNonBlocking() == ActionResult::complete`
unfoldable pub send_built :
    SendError → FfbPipeline → ActionBuilder → Option (Bool × Option (List ℕ) × FfbPipeline)
send_built e p b =
    send_nonblocking e b >>= λ s. some (is_complete s.0, s.1, record p { action_builder = s.2 })

-- `FfbPipeline::generateEffect`: the answer, the datagram and the pipeline.
unfoldable pub generate_effect :
    SendError → FfbPipeline → ℕ → ℕ → List ℕ → Option (Bool × Option (List ℕ) × FfbPipeline)
unfolding build_effect_offset_data_action send_built
generate_effect e p timestamp sample_time samples =
    if is_unset p
    then some (false, none, p)
    else build_effect_offset_data_action p.action_builder (ref_of p) timestamp sample_time samples
      >>= λ s. elim (s.0) [
        | false ↦ some (false, none, record p { action_builder = s.1 })
        | true ↦ send_built e p s.1
      ]

-- `FfbPipeline::stop`, which does not look whether the action was built.
unfoldable pub stop :
    SendError → ℕ → ℕ → List ℕ → FfbPipeline → Option (Bool × Option (List ℕ) × FfbPipeline)
unfolding build_effect_clear_action send_built
stop e idx flags unset p =
    if is_unset p
    then some (false, none, p)
    else build_effect_clear_action (clear_payload idx flags unset (ref_of p)) p.action_builder
      >>= λ s. send_built e p s.1

abbrev or_default : ℕ → Option ℕ → ℕ
or_default d none = d
or_default d (some v) = v

-- The end of `FfbPipeline::configure`, by the payload of the result of its command, or `none` for one
-- that failed. The conversion of a `double` to an integer is a parameter.
unfoldable pub configured : (ℕ → ℕ) → Option (List ℕ) → FfbPipeline → Option (Bool × FfbPipeline)
configured i32_of_double none p = some (false, p)
configured i32_of_double (some payload) p = reader payload (length payload) >>= λ r.
    find_int32 i32_of_double (codes "pipeline_id") r >>= λ s.
    some (true, record p { pipeline_id = or_default (2 ^ 32 - 1) s.0 % 2 ^ 8 })

-- `FfbPipeline::isActive`, by the state of the session.
abbrev pub is_active : State → FfbPipeline → Bool
is_active State.connected_control p = not (p.pipeline_id == 2 ^ 8 - 1)
is_active state p = false

-- `FfbPipeline::remove`, by the success of its command.
unfoldable pub remove : Bool → FfbPipeline → Bool × FfbPipeline
remove success p =
    if is_unset p
    then (true, p)
    else if success
    then (true, record p { pipeline_id = 2 ^ 8 - 1 })
    else (false, p)
