-- ===== src/Ffb/Effect.antt =====
-- The datagram of an effect of core/src/ffb.cpp.
use sc_api.Common.{
  take, ◌/◌, ℕ, zero, ◌+◌, ◌-◌, ◌*◌, ◌%◌, ◌^◌, ◌<◌, ◌≤◌, ◌≡◌, refl, ◌∙◌, ap, sym, List, [], ◌∷◌,
  ◌++◌, some, true, false, ◌||◌, ltb, ◌==◌, length, replicate, length-replicate, length-append,
  append_assoc, append-nil, drop, drop-replicate, arith,
}
use sc_api.Bytes.{le_bytes, of_le, write_bytes}
use sc_api.Bytes.Laws.{write_bytes-append, length-le_bytes}
use sc_api.Action.{ActionBuilder, header, controller, reset, success, sendable, finalize}
use sc_api.Action.Build.{packet, length-header, start_building-empty}
use sc_api.Action.Send.{sendable-some, finalize-packet, sent-success}
use sc_api.Ffb.{
  EffectPipelineRef, FfbPipeline, effect_header, sample_bytes, build_effect_offset_data_action,
  generate_effect, send_built, is_unset, ref_of,
}

length-sample_bytes : (samples : List ℕ) → length (sample_bytes samples) ≡ 4 * length samples
unfolding sample_bytes
length-sample_bytes [] = refl
length-sample_bytes (s ∷ samples) = omega (
  arith,
  length-append (le_bytes 4 s) (sample_bytes samples),
  length-le_bytes 4 s,
  length-sample_bytes samples,
)

length-effect_header :
    (pipeline : EffectPipelineRef) (timestamp sample_time n : ℕ)
    → length (effect_header pipeline timestamp sample_time n) ≡ 36
unfolding le_bytes
length-effect_header pipeline timestamp sample_time n = refl

-- What the packet of an effect carries.
abbrev pub content : EffectPipelineRef → ℕ → ℕ → List ℕ → List ℕ
content pipeline timestamp sample_time samples =
    effect_header pipeline timestamp sample_time (length samples) ++ sample_bytes samples

module _ (id timestamp sample_time : ℕ) (pipeline : EffectPipelineRef) (samples : List ℕ)
    (b : ActionBuilder) (live : controller b ≡ some id) (fresh : b.buffer ≡ [])
    (some_samples : 0 < length samples) (few : length samples ≤ 256) where
  abbrev payload : List ℕ
  payload = content pipeline timestamp sample_time samples

  size : length payload ≡ 36 + 4 * length samples
  size = omega (
    arith,
    length-append (effect_header pipeline timestamp sample_time (length samples))
        (sample_bytes samples),
    length-effect_header pipeline timestamp sample_time (length samples),
    length-sample_bytes samples,
  )

  pub build_effect-packet :
      build_effect_offset_data_action b pipeline timestamp sample_time samples
      ≡ some (true, record b { buffer = packet id 0 1 payload; cur_start_idx = 0 })
  unfolding build_effect_offset_data_action
  build_effect-packet =
      let n : ℕ = 36 + 4 * length samples in
      let head : List ℕ = header id 0 1 ((8 + n) % 2 ^ 16) in
      let front : List ℕ = effect_header pipeline timestamp sample_time (length samples) in
      let body : List ℕ = sample_bytes samples in
      let eight : length head ≡ 8 = length-header id 0 1 ((8 + n) % 2 ^ 16) in
      let long : length front ≡ 36 =
        length-effect_header pipeline timestamp sample_time (length samples) in
      let rest : length body ≡ 4 * length samples = length-sample_bytes samples in
      let first : write_bytes (head ++ replicate n 0) 8 front
          ≡ some ((head ++ front) ++ replicate (4 * length samples) 0) =
        write_bytes-append head (replicate n zero) front 8 (omega (arith, eight))
          (omega (arith, long, length-replicate n zero))
        ∙ ap (λ l. some ((head ++ front) ++ l))
            (ap (λ k. drop k (replicate n zero)) long
              ∙ drop-replicate 36 n zero
              ∙ ap (λ k. replicate k zero) (omega arith)) in
      let none_left : 4 * length samples - 4 * length samples ≡ 0 = omega arith in
      let second : write_bytes ((head ++ front) ++ replicate (4 * length samples) 0) 44 body
          ≡ some ((head ++ front) ++ body) =
        write_bytes-append (head ++ front) (replicate (4 * length samples) zero) body 44
          (omega (arith, eight, long, length-append head front))
          (omega (arith, rest, length-replicate (4 * length samples) zero))
        ∙ ap some (
            ap (λ l. ((head ++ front) ++ body) ++ l)
              (ap (λ k. drop k (replicate (4 * length samples) zero)) rest
                ∙ drop-replicate (4 * length samples) (4 * length samples) zero
                ∙ ap (λ k. replicate k zero) none_left)
            ∙ append-nil ((head ++ front) ++ body)) in
      let guard : (length samples == 0 || ltb 256 (length samples)) ≡ false = ground arith in
      rw (guard, start_building-empty id 1 n 0 b live fresh)
        (rw first (
          rw second (
            ap (λ l. some (true, record b { buffer = l; cur_start_idx = 0 }))
              (append_assoc head front body
                ∙ ap (λ k. header id 0 1 ((8 + k) % 2 ^ 16) ++ payload) (sym size)))))

-- The integer of `n` bytes at an offset of a datagram.
abbrev pub uint_at : ℕ → ℕ → List ℕ → ℕ
uint_at n offset bytes = of_le (take n (drop offset bytes))

-- The bytes are the samples, of four bytes each.
abbrev pub Carries : List ℕ → List ℕ → Type 0
Carries [] bytes = bytes ≡ []
Carries (s ∷ samples) bytes = (of_le (take 4 bytes) ≡ s % 2 ^ 32) × Carries samples (drop 4 bytes)

sample_bytes-Carries : (samples : List ℕ) → Carries samples (sample_bytes samples)
unfolding sample_bytes le_bytes of_le
sample_bytes-Carries [] = refl
sample_bytes-Carries (s ∷ samples) = (omega arith, sample_bytes-Carries samples)

-- The datagram of an effect, by the offsets of the structs of protocol/actions.h behind the header of
-- eight bytes: what a receiver reads there.
pub record IsEffect (id device pipeline timestamp sample_time : ℕ) (samples datagram : List ℕ)
    : Type 0 where
  pub size : length datagram ≡ 44 + 4 * length samples
  pub controller_id : uint_at 2 0 datagram ≡ id % 2 ^ 16
  pub action_flags : uint_at 2 2 datagram ≡ 0
  pub action_id : uint_at 2 4 datagram ≡ 1
  pub action_size : uint_at 2 6 datagram ≡ 44 + 4 * length samples
  pub fb_pipeline_idx : uint_at 1 8 datagram ≡ pipeline
  pub flags : uint_at 1 9 datagram ≡ 0
  pub device_id : uint_at 2 24 datagram ≡ device % 2 ^ 16
  pub sample_format : uint_at 1 28 datagram ≡ 0
  pub sample_duration_high : uint_at 1 29 datagram ≡ sample_time / 2 ^ 32 % 2 ^ 8
  pub sample_count_minus_1 : uint_at 2 30 datagram + 1 ≡ length samples
  pub sample_duration : uint_at 4 32 datagram ≡ sample_time % 2 ^ 32
  pub start_time_low : uint_at 4 36 datagram ≡ timestamp % 2 ^ 32
  pub start_time_high : uint_at 4 40 datagram ≡ timestamp / 2 ^ 32 % 2 ^ 32
  pub values : Carries samples (drop 44 datagram)

sent-IsEffect :
    (id device pipeline timestamp sample_time : ℕ) (samples : List ℕ)
    → pipeline < 2 ^ 7
    → 0 < length samples
    → length samples ≤ 256
    → IsEffect id device pipeline timestamp sample_time samples (
        packet id 0 1 (
          content
            (record { device_logical_id = device; pipeline_id = pipeline })
            timestamp
            sample_time
            samples))
unfolding le_bytes of_le
sent-IsEffect id device pipeline timestamp sample_time samples set some_samples few =
    let n : length (sample_bytes samples) ≡ 4 * length samples = length-sample_bytes samples in
    record {
      size = omega (arith, n);
      controller_id = omega arith;
      action_flags = omega arith;
      action_id = omega arith;
      action_size = omega (arith, n);
      fb_pipeline_idx = omega arith;
      flags = omega arith;
      device_id = omega arith;
      sample_format = omega arith;
      sample_duration_high = omega arith;
      sample_count_minus_1 = omega arith;
      sample_duration = omega arith;
      start_time_low = omega arith;
      start_time_high = omega arith;
      values = sample_bytes-Carries samples;
    }

-- `generateEffect` gives the socket one packet, in which a receiver reads the pipeline, the device,
-- the times, the number of samples and the samples. The builder is empty again then.
pub generate_effect-packet :
    (id timestamp sample_time : ℕ) (samples : List ℕ) (p : FfbPipeline)
    → controller p.action_builder ≡ some id
    → p.action_builder.buffer ≡ []
    → p.pipeline_id < 2 ^ 7
    → 0 < length samples
    → length samples ≤ 256
    → (datagram : List ℕ) × (generate_effect success p timestamp sample_time samples
        ≡ some (true, some datagram, record p { action_builder = reset p.action_builder }))
      × IsEffect id p.device p.pipeline_id timestamp sample_time samples datagram
unfolding generate_effect send_built
generate_effect-packet id timestamp sample_time samples p live fresh set some_samples few =
    let carried : List ℕ = content (ref_of p) timestamp sample_time samples in
    let sent : List ℕ = packet id 0 1 carried in
    let built : ActionBuilder = record (p.action_builder) { buffer = sent; cur_start_idx = 0 } in
    let ready : sendable built ≡ true = sendable-some built built.session id refl live (
      omega (
        arith,
        length-append (header id 0 1 ((8 + length carried) % 2 ^ 16)) carried,
        length-header id 0 1 ((8 + length carried) % 2 ^ 16),
      )) in
    let same : finalize built ≡ some built = finalize-packet built [] carried id 0 1 refl refl in
    let unset : is_unset p ≡ false = ground arith in
    (
      sent,
      rw
          (
            unset,
            build_effect-packet id timestamp sample_time (ref_of p) samples p.action_builder live
                fresh some_samples few,
          )
          (rw (sent-success built ready same) refl),
      sent-IsEffect id p.device p.pipeline_id timestamp sample_time samples set some_samples few,
    )
