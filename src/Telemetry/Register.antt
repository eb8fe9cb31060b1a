-- ===== src/Telemetry/Register.antt =====
-- The registration that `TelemetryUpdateGroup::configure` (core/src/telemetry.cpp) sends.
use sc_api.Common.{
  ℕ, zero, suc, ◌+◌, ◌-◌, ◌*◌, ◌%◌, ◌^◌, ◌≤◌, ◌<◌, ◌≡◌, refl, sym, ◌∙◌, ap, ap₂, List, [], ◌∷◌,
  ◌++◌, some, length, replicate, length-append, append_assoc, append-nil, replicate-append, arith,
  ◌>>=◌, ◌==◌, Bool-cases, inl, inr,
}
use sc_api.Bytes.{le_bytes, write_bytes}
use sc_api.Bytes.Laws.{length-le_bytes, write_bytes-middle}
use sc_api.Action.{
  ActionBuilder, ActionResult, SendError, success, header, controller, reset, start_building,
  send_blocking,
}
use sc_api.Action.Build.{packet, length-header, start_building-empty}
use sc_api.Action.Send.{finalize-packet, sendable-some, sent_blocking-success}
use sc_api.Telemetry.{
  Handles, TelemetryUpdateGroup, write_ids, write_registration, with_buffer, register, registered,
  refused, started,
}
use sc_api.Telemetry.Append.{write-zeros}
use sc_api.Telemetry.Order.{active}

module _ (h : Handles) where
  -- The ids of handles.
  unfoldable pub ids : List ℕ → List ℕ
  ids [] = []
  ids (t ∷ ts) = le_bytes 2 (h t).id ++ ids ts

  pub length-ids : (ts : List ℕ) → length (ids ts) ≡ 2 * length ts
  unfolding ids
  length-ids [] = omega arith
  length-ids (t ∷ ts) = omega (
    arith,
    length-append (le_bytes 2 (h t).id) (ids ts),
    length-le_bytes 2 (h t).id,
    length-ids ts,
  )

  write_ids-active :
      (ts : List ℕ) (pre : List ℕ) (k m payload : ℕ)
      → payload + k ≡ length pre
      → 2 * length (active h ts) ≤ m
      → k + 2 * length (active h ts) < 2 ^ 32
      → write_ids h payload ts k (pre ++ replicate m 0)
        ≡ some ((pre ++ ids (active h ts)) ++ replicate (m - 2 * length (active h ts)) 0)
  unfolding write_ids active ids
  write_ids-active [] pre k m payload e room small =
      ap₂ (λ a n. some (a ++ replicate n zero)) (sym (append-nil pre)) (omega arith)
  write_ids-active (t ∷ ts) pre k m payload e room small = elim (Bool-cases ((h t).id == 0)) [
    | inl f ↦
        rw (f, write_ids) (write_ids-active ts pre k m payload e (rw f at room) (rw f at small))
    | inr f ↦
        let I : List ℕ = le_bytes 2 (h t).id in
        let two : length I ≡ 2 = length-le_bytes 2 (h t).id in
        let room' : 2 * suc (length (active h ts)) ≤ m = rw f at room in
        let small' : k + 2 * suc (length (active h ts)) < 2 ^ 32 = rw f at small in
        let w : write_bytes (pre ++ replicate m 0) (payload + k) I
            ≡ some ((pre ++ I) ++ replicate (m - length I) 0) =
          write-zeros pre I m (payload + k) e (omega arith) in
        let rest =
          write_ids-active ts (pre ++ I) ((k + 2) % 2 ^ 32) (m - length I) payload
            (omega (arith, length-append pre I)) (omega arith) (omega arith) in
        rw (f, write_ids, w)
          (rest
            ∙ ap₂ (λ a n. some (a ++ replicate n zero)) (append_assoc pre I (ids (active h ts)))
                (omega arith))
  ]

-- The registration: the group's id, the number of its values, the size of its values, and their ids.
abbrev pub registration : Handles → (group_id count size : ℕ) → List ℕ → List ℕ
registration h group_id count size bufs =
    le_bytes 2 group_id ++ (le_bytes 2 count ++ (le_bytes 2 size ++ ids h bufs))

module _ (h : Handles) (g : TelemetryUpdateGroup) (id size : ℕ) (b0 : ActionBuilder) (bufs : List ℕ)
    (live : controller b0 ≡ some id) (fresh : b0.buffer ≡ []) (from : g.action_builder ≡ b0)
    (chosen : active h g.telemetries ≡ bufs) (few : length bufs < 8190) where
  abbrev n : ℕ
  n = 6 + 2 * length bufs

  abbrev regs : List ℕ
  regs = registration h g.group_id (length g.base_value_bufs) size bufs

  abbrev head : List ℕ
  head = header id 0 0x1000 ((8 + n) % 2 ^ 16)

  abbrev opened : ActionBuilder
  opened = record b0 { buffer = head ++ replicate n 0; cur_start_idx = 0 }

  abbrev filled : ActionBuilder
  filled = with_buffer opened (head ++ regs)

  eight : length head ≡ 8
  eight = length-header id 0 0x1000 ((8 + n) % 2 ^ 16)

  ids_lem :
      write_ids h 8 g.telemetries 6 (head ++ replicate n 0)
      ≡ some (head ++ ((0 ∷ 0 ∷ []) ++ (0 ∷ 0 ∷ 0 ∷ 0 ∷ ids h bufs)))
  ids_lem =
      let blank : head ++ replicate n 0 ≡ (head ++ replicate 6 0) ++ replicate (2 * length bufs) 0 =
        ap (λ l. head ++ l) (sym (replicate-append 6 (2 * length bufs) zero))
        ∙ sym (append_assoc head (replicate 6 0) (replicate (2 * length bufs) 0)) in
      let len : length (active h g.telemetries) ≡ length bufs = ap length chosen in
      let rest : 2 * length bufs - 2 * length (active h g.telemetries) ≡ zero =
        omega (arith, len) in
      ap (write_ids h 8 g.telemetries 6) blank
      ∙ write_ids-active h g.telemetries (head ++ replicate 6 0) 6 (2 * length bufs) 8
          (omega (arith, eight, length-append head (replicate 6 0))) (omega arith) (omega arith)
      ∙ ap some (
          ap₂ (λ l k. ((head ++ replicate 6 0) ++ ids h l) ++ replicate k zero) chosen rest
          ∙ append-nil ((head ++ replicate 6 0) ++ ids h bufs)
          ∙ append_assoc head (replicate 6 0) (ids h bufs))

  write_registration-lem : write_registration h g size opened ≡ some filled
  unfolding write_registration
  write_registration-lem =
      let I : List ℕ = le_bytes 2 g.group_id in
      let N : List ℕ = le_bytes 2 (length g.base_value_bufs) in
      let S : List ℕ = le_bytes 2 size in
      let two : (v : ℕ) → length (le_bytes 2 v) ≡ 2 = length-le_bytes 2 in
      let w1 =
        write_bytes-middle head (0 ∷ 0 ∷ []) (0 ∷ 0 ∷ 0 ∷ 0 ∷ ids h bufs) I 8 (sym eight)
          (two g.group_id) in
      let w2 =
        ap (λ l. write_bytes l 10 N) (sym (append_assoc head I (0 ∷ 0 ∷ 0 ∷ 0 ∷ ids h bufs)))
        ∙ write_bytes-middle (head ++ I) (0 ∷ 0 ∷ []) (0 ∷ 0 ∷ ids h bufs) N 10
            (omega (arith, eight, length-append head I, two g.group_id))
            (two (length g.base_value_bufs)) in
      let w3 =
        ap (λ l. write_bytes l 12 S) (sym (append_assoc (head ++ I) N (0 ∷ 0 ∷ ids h bufs)))
        ∙ write_bytes-middle ((head ++ I) ++ N) (0 ∷ 0 ∷ []) (ids h bufs) S 12
            (omega (
              arith,
              eight,
              length-append head I,
              length-append (head ++ I) N,
              two g.group_id,
              two (length g.base_value_bufs),
            ))
            (two size) in
      let whole : ((head ++ I) ++ N) ++ (S ++ ids h bufs) ≡ head ++ regs = simp (append_assoc) in
      rw (ids_lem, w1, w2, w3, whole) refl

  holds : filled.buffer ≡ packet id 0 0x1000 regs
  holds =
      let m : n ≡ length regs = omega (
        arith,
        length-append (le_bytes 2 g.group_id)
            (le_bytes 2 (length g.base_value_bufs) ++ (le_bytes 2 size ++ ids h bufs)),
        length-append (le_bytes 2 (length g.base_value_bufs)) (le_bytes 2 size ++ ids h bufs),
        length-append (le_bytes 2 size) (ids h bufs),
        length-le_bytes 2 g.group_id,
        length-le_bytes 2 (length g.base_value_bufs),
        length-le_bytes 2 size,
        length-ids h bufs,
      ) in
      ap (λ k. header id 0 0x1000 ((8 + k) % 2 ^ 16) ++ regs) m

  sent_lem :
      (e' : SendError)
      → send_blocking success e' filled
        ≡ some (ActionResult.complete, some (packet id 0 0x1000 regs), reset filled)
  sent_lem e' =
      sent_blocking-success e' filled
        (sendable-some filled filled.session id refl live
          (omega (arith, length-append head regs, eight)))
        (finalize-packet filled [] regs id 0 0x1000 holds refl)
      ∙ ap (λ b. some (ActionResult.complete, some b, reset filled)) holds

  pub register-success :
      (e' : SendError)
      → register success e' h size n g
        ≡ some (
            registered h g size
              (ActionResult.complete, some (packet id 0 0x1000 regs), reset filled))
  unfolding register
  register-success e' =
      ap
        (λ b.
          start_building 0x1000 n 0 b
          >>= started (λ b1. refused h (record g { action_builder = b1 }))
              (λ b1. write_registration h g size b1 >>= λ b2.
                send_blocking success e' b2 >>= λ s. some (registered h g size s)))
        from
      ∙ simp (start_building-empty id 0x1000 n 0 b0 live fresh, write_registration-lem, sent_lem e')
