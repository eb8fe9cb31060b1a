-- ===== src/Telemetry/Send.antt =====
-- What `TelemetryUpdateGroup::send` (core/src/telemetry.cpp) gives to the socket.
use sc_api.Common.{
  ℕ, zero, ◌+◌, ◌-◌, ◌*◌, ◌/◌, ◌%◌, ◌^◌, ◌≤◌, ◌<◌, ◌≡◌, refl, sym, ◌∙◌, ap, ap₂, List, [], ◌∷◌,
  ◌++◌, Option, some, true, length, replicate, All, length-append, length-replicate, append_assoc,
  arith, replicate-append, ◌>>=◌,
}
use sc_api.Bytes.{le_bytes}
use sc_api.Bytes.Laws.{length-le_bytes}
use sc_api.Action.{
  ActionBuilder, ActionResult, success, header, controller, reset, start_building, send_nonblocking,
}
use sc_api.Action.Build.{packet, length-header, start_building-empty}
use sc_api.Action.Send.{finalize-packet, sendable-some, sent-success}
use sc_api.Telemetry.{
  Handles, TelemetryUpdateGroup, Entries, write_values, align, write_fields, write_payload,
  with_buffer, expected_size, send,
}
use sc_api.Telemetry.Append.{
  cursor, cursor-same, put-append, write_words-append, write_values-append, bool_area,
  length-bool_area, values, length-values, HasSize,
}

-- The buffers of a group stand by the size of their values, and the counters say how many there are
-- of each.
pub record BySize (h : Handles) (bufs : List ℕ) (e : Entries) : Type 0 where
  pub bools : List ℕ
  pub wide : List ℕ
  pub words : List ℕ
  pub halves : List ℕ
  pub small : List ℕ
  pub split : bufs ≡ bools ++ (wide ++ (words ++ (halves ++ (small ++ []))))
  pub counters : e ≡ record {
    bits = length bools;
    n64 = length wide;
    n32 = length words;
    n16 = length halves;
    n8 = length small;
  }
  pub wide_size : All (HasSize h 8) wide
  pub words_size : All (HasSize h 4) words
  pub halves_size : All (HasSize h 2) halves
  pub small_size : All (HasSize h 1) small

-- The zeros behind `n` bytes, up to a multiple of 8.
abbrev pub padding : ℕ → List ℕ
padding n = replicate ((n + 7) / 8 * 8 - n) 0

-- The payload: the group's id, two zeros, the bools, the values by size, and four zeros.
abbrev pub group_payload :
    (h : Handles) (id : ℕ) {bufs : List ℕ} {e : Entries} → BySize h bufs e → List ℕ
group_payload h id l =
    le_bytes 2 id
    ++ ((0 ∷ 0 ∷ [])
        ++ (bool_area h l.bools
            ++ (padding (4 + length (bool_area h l.bools))
                ++ (values h l.wide
                    ++ (values h l.words
                        ++ (values h l.halves ++ (values h l.small ++ replicate 4 0)))))))

align-append :
    (pre : List ℕ) (k j : ℕ) (ps : List ℕ)
    → length (padding j) ≤ k
    → align (cursor pre k j ps)
      ≡ cursor (pre ++ padding j) (k - length (padding j)) (j + length (padding j)) ps
align-append pre k j ps room =
    let d : ℕ = (j + 7) / 8 * 8 - j in
    let n : length (padding j) ≡ d = length-replicate d zero in
    let same : pre ++ replicate k 0 ≡ (pre ++ padding j) ++ replicate (k - length (padding j)) 0 =
      ap (λ m. pre ++ replicate m 0) (omega arith)
      ∙ ap (λ l. pre ++ l) (sym (replicate-append d (k - length (padding j)) zero))
      ∙ sym (append_assoc pre (padding j) (replicate (k - length (padding j)) 0)) in
    let idx : (j + 7) / 8 * 8 ≡ j + length (padding j) = omega arith in
    ap₂ (λ b i. record { buf = b; payload_idx = i; bufs = ps }) same idx

step :
    {A B : Type 0} {m : Option A} {a b : A} (f : A → Option B) {r : Option B}
    → m ≡ some a
    → a ≡ b
    → f b ≡ r
    → (m >>= f) ≡ r
step f e s t = rw (e, s) t

-- The counters of buffers by size.
abbrev pub counts : (bools wide words halves small : List ℕ) → Entries
counts bools wide words halves small = record {
  bits = length bools;
  n64 = length wide;
  n32 = length words;
  n16 = length halves;
  n8 = length small;
}

module _ (h : Handles) (payload id : ℕ) (hdr : List ℕ) (at : payload ≡ length hdr)
    (bools wide words halves small : List ℕ) (wide_size : All (HasSize h 8) wide)
    (words_size : All (HasSize h 4) words) (halves_size : All (HasSize h 2) halves)
    (small_size : All (HasSize h 1) small) where
  abbrev area : List ℕ
  area = bool_area h bools

  abbrev pad : List ℕ
  pad = padding (4 + length area)

  length-pad : length area + length pad + 4 ≡ (4 + length area + 7) / 8 * 8
  length-pad =
      omega (arith, length-replicate ((4 + length area + 7) / 8 * 8 - (4 + length area)) zero)

  abbrev p1 : List ℕ
  p1 = hdr ++ le_bytes 2 id

  abbrev p2 : List ℕ
  p2 = p1 ++ (0 ∷ 0 ∷ [])

  abbrev p3 : List ℕ
  p3 = p2 ++ area

  abbrev p4 : List ℕ
  p4 = p3 ++ pad

  abbrev p5 : List ℕ
  p5 = p4 ++ values h wide

  abbrev p6 : List ℕ
  p6 = p5 ++ values h words

  abbrev p7 : List ℕ
  p7 = p6 ++ values h halves

  abbrev p8 : List ℕ
  p8 = p7 ++ values h small

  write_fields-append :
      (k : ℕ)
      → k
        ≡ (length bools + 95) / 64 * 8
          + length wide * 8
          + length words * 4
          + length halves * 2
          + length small
          + 4
      → (j : ℕ) × (write_fields h payload id
            (counts bools wide words halves small)
            (cursor hdr k 0 (bools ++ (wide ++ (words ++ (halves ++ (small ++ []))))))
          ≡ some (cursor p8 4 j []))
  unfolding write_fields
  write_fields-append k total =
      let nA : length area ≡ 4 * ((length bools + 31) / 32) = length-bool_area h bools in
      let n8 : length (values h wide) ≡ 8 * length wide = length-values h 8 wide wide_size in
      let n4 : length (values h words) ≡ 4 * length words = length-values h 4 words words_size in
      let n2 : length (values h halves) ≡ 2 * length halves =
        length-values h 2 halves halves_size in
      let n1 : length (values h small) ≡ 1 * length small = length-values h 1 small small_size in
      let nI : length (le_bytes 2 id) ≡ 2 = length-le_bytes 2 id in
      let nP : length area + length pad + 4 ≡ (4 + length area + 7) / 8 * 8 = length-pad in
      let whole : length area + length pad ≡ (length bools + 95) / 64 * 8 - 4 = omega arith in
      let o3 : ℕ = 4 + length area in
      let o4 : ℕ = o3 + length pad in
      let o5 : ℕ = o4 + length (values h wide) in
      let o6 : ℕ = o5 + length (values h words) in
      let o7 : ℕ = o6 + length (values h halves) in
      let l1 : length p1 ≡ payload + 2 = omega (arith, length-append hdr (le_bytes 2 id)) in
      let l2 : length p2 ≡ payload + 4 = omega (arith, l1, length-append p1 (0 ∷ 0 ∷ [])) in
      let l3 : length p3 ≡ payload + o3 = omega (arith, l2, length-append p2 area) in
      let l4 : length p4 ≡ payload + o4 = omega (arith, l3, length-append p3 pad) in
      let l5 : length p5 ≡ payload + o5 = omega (arith, l4, length-append p4 (values h wide)) in
      let l6 : length p6 ≡ payload + o6 = omega (arith, l5, length-append p5 (values h words)) in
      let l7 : length p7 ≡ payload + o7 = omega (arith, l6, length-append p6 (values h halves)) in
      (
        o7 + length (values h small),
        step _ (put-append payload hdr (le_bytes 2 id) k 0 _ (omega arith) (omega arith))
            (cursor-same {k' = k - 2} {j' = 2} _ refl (omega arith) (omega arith))
            (step _
              (put-append payload p1 (0 ∷ 0 ∷ []) (k - 2) 2 _ (omega (arith, l1)) (omega arith))
              (cursor-same {k' = k - 4} {j' = 4} _ refl (omega arith) (omega arith))
              (step _
                (write_words-append h payload bools _ p2 (k - 4) 4 (omega (arith, l2))
                  (omega (arith, whole)))
                (cursor-same {k' = k - o3} {j' = o3} _ refl (omega arith) (omega arith))
                (step _
                  (ap (write_values h payload 8 (length wide)) (
                      align-append p3 (k - o3) o3 _ (omega (arith, whole))
                      ∙ cursor-same {k' = k - o4} {j' = o4} _ refl (omega arith) refl)
                    ∙ write_values-append h payload 8 wide _ p4 (k - o4) o4 wide_size
                        (omega (arith, l4)) (omega (arith, whole)))
                  (cursor-same {k' = k - o5} {j' = o5} _ refl (omega arith) refl)
                  (step _
                    (write_values-append h payload 4 words _ p5 (k - o5) o5 words_size
                      (omega (arith, l5)) (omega (arith, whole)))
                    (cursor-same {k' = k - o6} {j' = o6} _ refl (omega arith) refl)
                    (step _
                      (write_values-append h payload 2 halves _ p6 (k - o6) o6 halves_size
                        (omega (arith, l6)) (omega (arith, whole)))
                      (cursor-same {k' = k - o7} {j' = o7} _ refl (omega arith) refl)
                      (write_values-append h payload 1 small _ p7 (k - o7) o7 small_size
                          (omega (arith, l7)) (omega (arith, whole))
                        ∙ ap some (cursor-same {k' = 4} _ refl (omega (arith, whole)) refl))))))),
      )

regroup :
    (a b c d e f u v w x : List ℕ)
    → ((((((((a ++ b) ++ c) ++ d) ++ e) ++ f) ++ u) ++ v) ++ w) ++ x
      ≡ a ++ (b ++ (c ++ (d ++ (e ++ (f ++ (u ++ (v ++ (w ++ x))))))))
regroup a b c d e f u v w x = simp (append_assoc)

length-all :
    (b c d e f u v w x : List ℕ)
    → length (b ++ (c ++ (d ++ (e ++ (f ++ (u ++ (v ++ (w ++ x))))))))
      ≡ length b
        + (length c
            + (length d
                + (length e + (length f + (length u + (length v + (length w + length x)))))))
length-all b c d e f u v w x = simp (length-append)

length-group_payload :
    (h : Handles) (id : ℕ) {bufs : List ℕ} {e : Entries} (l : BySize h bufs e)
    → length (group_payload h id l)
      ≡ (length l.bools + 95) / 64 * 8
        + length l.wide * 8
        + length l.words * 4
        + length l.halves * 2
        + length l.small
        + 4
length-group_payload h id l =
    let A : List ℕ = bool_area h l.bools in
    let all =
      length-all (le_bytes 2 id) (0 ∷ 0 ∷ []) A (padding (4 + length A)) (values h l.wide)
        (values h l.words) (values h l.halves) (values h l.small) (replicate 4 0) in
    omega (
      arith,
      all,
      length-le_bytes 2 id,
      length-bool_area h l.bools,
      length-replicate ((4 + length A + 7) / 8 * 8 - (4 + length A)) zero,
      length-values h 8 l.wide l.wide_size,
      length-values h 4 l.words l.words_size,
      length-values h 2 l.halves l.halves_size,
      length-values h 1 l.small l.small_size,
    )

module _ (h : Handles) (g : TelemetryUpdateGroup) (id : ℕ)
    (l : BySize h g.base_value_bufs g.entries) (live : controller g.action_builder ≡ some id)
    (fresh : g.action_builder.buffer ≡ []) (ready : g.prepared ≡ true)
    (few : length g.base_value_bufs < 8190)
    (size : g.set_payload_size ≡ (expected_size g.entries + 4) % 2 ^ 16) where
  abbrev n : ℕ
  n = g.set_payload_size

  abbrev head : List ℕ
  head = header id 0 0x1001 ((8 + n) % 2 ^ 16)

  abbrev opened : ActionBuilder
  opened = record g.action_builder { buffer = head ++ replicate n 0; cur_start_idx = 0 }

  count_lem :
      length g.base_value_bufs
      ≡ length l.bools + (length l.wide + (length l.words + (length l.halves + length l.small)))
  count_lem = ap length l.split ∙ grind (arith, length-append)

  total :
      n
      ≡ (length l.bools + 95) / 64 * 8
        + length l.wide * 8
        + length l.words * 4
        + length l.halves * 2
        + length l.small
        + 4
  total = size ∙ ap (λ e. (expected_size e + 4) % 2 ^ 16) l.counters ∙ omega (arith, count_lem)

  opened_lem : start_building 0x1001 n 0 g.action_builder ≡ some (true, opened)
  opened_lem = start_building-empty id 0x1001 n 0 g.action_builder live fresh

  abbrev filled : ActionBuilder
  filled = with_buffer opened (head ++ group_payload h g.group_id l)

  filled_lem : write_payload h g opened ≡ some filled
  unfolding write_payload
  filled_lem =
      let (j, w) =
        write_fields-append h 8 g.group_id head (sym (length-header id 0 0x1001 ((8 + n) % 2 ^ 16)))
          l.bools l.wide l.words l.halves l.small l.wide_size l.words_size l.halves_size
          l.small_size n total in
      step _
        (ap (λ e. write_fields h 8 g.group_id e (cursor head n 0 g.base_value_bufs)) l.counters
          ∙ ap
              (λ q.
                write_fields h 8 g.group_id (counts l.bools l.wide l.words l.halves l.small)
                  (cursor head n 0 q))
              l.split
          ∙ w)
        refl (ap (λ x. some (with_buffer opened x)) (regroup head _ _ _ _ _ _ _ _ _))

  abbrev sent : TelemetryUpdateGroup
  sent = record g { action_builder = reset filled }

  same_length : n ≡ length (group_payload h g.group_id l)
  same_length = total ∙ sym (length-group_payload h g.group_id l)

  holds : filled.buffer ≡ packet id 0 0x1001 (group_payload h g.group_id l)
  holds =
      ap (λ k. header id 0 0x1001 ((8 + k) % 2 ^ 16) ++ group_payload h g.group_id l) same_length

  sent_lem :
      send_nonblocking success filled
      ≡ some (
        ActionResult.complete,
        some (packet id 0 0x1001 (group_payload h g.group_id l)),
        reset filled,
      )
  sent_lem =
      sent-success filled
        (sendable-some filled filled.session id refl live (
          omega (
            arith,
            length-append head (group_payload h g.group_id l),
            length-header id 0 0x1001 ((8 + n) % 2 ^ 16),
          )))
        (finalize-packet filled [] (group_payload h g.group_id l) id 0 0x1001 holds refl)
      ∙ ap (λ b. some (ActionResult.complete, some b, reset filled)) holds

  -- `send` of a prepared group gives the socket one packet: the group's id, two zeros, the bools, the
  -- values by size and four zeros, where the builder is empty and its session has a controller id,
  -- the buffers stand by their sizes and are fewer than 8190, and the payload size is that of
  -- `configure`; the socket takes it.
  pub send-packet :
      send success h g
      ≡ some (ActionResult.complete, some (packet id 0 0x1001 (group_payload h g.group_id l)), sent)
  unfolding send
  send-packet = simp (ready, opened_lem, filled_lem, sent_lem)
