-- ===== src/Session/Framing/Loop.antt =====
-- The loop of `tryParsePacket` takes exactly the frames of the bytes received so far.
use sc_api.Common.{
  ℕ, zero, suc, ◌+◌, ◌-◌, ◌^◌, ◌≤◌, ◌<◌, ◌≡◌, refl, sym, ap, ◌∙◌, ◌⊎◌, inl, inr, List, [], ◌∷◌,
  arith, length, take, drop, length-take, length-drop, drop-drop, All, Option, some, Bool, true,
  false, ◌||◌, Bool-cases, ltb, All-take, All-drop, take-drop-take,
}
use sc_api.Bytes.{IsByte, sle32, slt32, add32, read_bytes, geti32}
use sc_api.Bytes.Laws.{of_le-lt_four, read_bytes-some, geti32-some}
use sc_api.Session.Framing.{sub32, parse_loop}
use sc_api.Session.Framing.Frames.{
  Frames, Stops, frame_size, frame_at, rest, short, zero_size, negative, incomplete,
}

-- The test that ends the loop, on a size `t` with `n` bytes left.
abbrev stop_test : ℕ → ℕ → Bool
stop_test n t = sle32 t 0 || slt32 n t

stop_true :
    (n t : ℕ) → n < 2 ^ 31 → t < 2 ^ 32 → stop_test n t ≡ true → (t ≡ 0) ⊎ (2 ^ 31 ≤ t) ⊎ (n < t)
stop_true n t hn ht e = ground arith

stop_false :
    (n t : ℕ) → n < 2 ^ 31 → t < 2 ^ 32 → stop_test n t ≡ false → (0 < t) × (t < 2 ^ 31) × (t ≤ n)
stop_false n t hn ht e = ground arith

parse_loop_stops :
    (fuel : ℕ) (buf : List ℕ) (used offset total : ℕ)
    → ltb (sub32 used offset) 5 ≡ false
    → geti32 buf offset ≡ some total
    → stop_test (sub32 used offset) total ≡ true
    → parse_loop (suc fuel) buf used offset ≡ some ([], offset)
unfolding parse_loop
parse_loop_stops fuel buf used offset total a b c = rw (a, parse_loop) (rw (b, parse_loop) (rw c))

parse_loop_takes :
    (fuel : ℕ) (buf : List ℕ) (used offset total stop : ℕ) (p : List ℕ) (ps : List (List ℕ))
    → ltb (sub32 used offset) 5 ≡ false
    → geti32 buf offset ≡ some total
    → stop_test (sub32 used offset) total ≡ false
    → read_bytes buf offset total ≡ some p
    → parse_loop fuel buf used (add32 offset total) ≡ some (ps, stop)
    → parse_loop (suc fuel) buf used offset ≡ some (p ∷ ps, stop)
unfolding parse_loop
parse_loop_takes fuel buf used offset total stop p ps a b c d e =
    rw (a, parse_loop) (rw (b, parse_loop) (rw (c, parse_loop) (rw (d, e))))

-- What a run of the loop leaves: it took the frames of `s` from `offset` on, up to `stop`.
pub record Looped (s : List ℕ) (used offset : ℕ) (res : Option (List (List ℕ) × ℕ)) : Type 0 where
  pub packets : List (List ℕ)
  pub stop : ℕ
  pub result : res ≡ some (packets, stop)
  pub framing : Frames (drop offset s) packets (drop stop s)
  pub low : offset ≤ stop
  pub high : stop ≤ used

module _ (buf : List ℕ) (used : ℕ) (fits : used ≤ length buf) (small : length buf < 2 ^ 31)
    (bytes : All IsByte buf) where
  stopped :
      (offset : ℕ)
      → offset ≤ used
      → Stops (drop offset (take used buf))
      → Looped (take used buf) used offset (some ([], offset))
  stopped offset h stop = record {
    packets = [];
    stop = offset;
    result = refl;
    framing = rest _ stop;
    low = omega arith;
    high = h;
  }

  length-left : (offset : ℕ) → offset ≤ used → length (drop offset (take used buf)) ≡ used - offset
  length-left offset h = omega (arith, length-drop offset (take used buf), length-take used buf)

  size-left :
      (offset : ℕ)
      → offset + 4 ≤ used
      → (geti32 buf offset ≡ some (frame_size (drop offset (take used buf))))
        × (frame_size (drop offset (take used buf)) < 2 ^ 32)
  size-left offset h = (
    rw (take-drop-take 4 offset used buf h) (geti32-some buf offset (omega arith)),
    of_le-lt_four _
        (All-take IsByte 4 _ (All-drop IsByte offset _ (All-take IsByte used buf bytes)))
        (omega
          (arith, length-take 4 (drop offset (take used buf)), length-left offset (omega arith))),
  )

  -- The loop ends at `offset`: the frame that begins there cannot be taken.
  stop-Stops :
      (offset : ℕ)
      → offset + 5 ≤ used
      → stop_test (used - offset) (frame_size (drop offset (take used buf))) ≡ true
      → Stops (drop offset (take used buf))
  stop-Stops offset h e =
      elim (stop_true (used - offset) _ (omega arith) (size-left offset (omega arith)).1 e) [
        | inl z ↦ zero_size z
        | inr (inl n) ↦ negative n
        | inr (inr i) ↦ incomplete (omega (arith, length-left offset (omega arith)))
      ]

  enough_bytes :
      (offset : ℕ)
      → offset ≤ used
      → ltb (sub32 used offset) 5 ≡ false
      → (offset + 5 ≤ used) × (sub32 used offset ≡ used - offset)
  enough_bytes offset h e = ground arith

  -- One round that takes the frame at `offset`, and what the rest of the loop takes.
  took :
      (fuel offset : ℕ)
      → offset ≤ used
      → ltb (sub32 used offset) 5 ≡ false
      → stop_test (sub32 used offset) (frame_size (drop offset (take used buf))) ≡ false
      → Looped
          (take used buf)
          used
          (offset + frame_size (drop offset (take used buf)))
          (parse_loop fuel buf used (offset + frame_size (drop offset (take used buf))))
      → Looped (take used buf) used offset (parse_loop (suc fuel) buf used offset)
  took fuel offset h enough e l =
      let s : List ℕ = drop offset (take used buf) in
      let t : ℕ = frame_size s in
      let (room, left) = enough_bytes offset h enough in
      let (get, word) = size-left offset (omega arith) in
      let (pos, lt, le) = stop_false (sub32 used offset) t (omega arith) word e in
      record {
        packets = take t s ∷ l.packets;
        stop = l.stop;
        result =
            parse_loop_takes fuel buf used offset t l.stop (take t s) l.packets enough get e
              (read_bytes-some buf offset t (omega arith)
                ∙ ap some (sym (take-drop-take t offset used buf (omega arith))))
              (ap (parse_loop fuel buf used) (omega arith) ∙ l.result);
        framing =
            frame_at s (take t s) (drop (offset + t) (take used buf)) refl
              (drop-drop t offset (offset + t) (take used buf) refl)
              (omega (arith, length-left offset (omega arith))) pos lt
              (omega (arith, length-left offset (omega arith))) l.framing;
        low = omega (arith, l.low);
        high = l.high;
      }

  pub loop-Looped :
      (fuel offset : ℕ)
      → offset ≤ used
      → used < offset + fuel
      → Looped (take used buf) used offset (parse_loop fuel buf used offset)
  loop-Looped zero offset h f = absurd (omega arith)
  loop-Looped (suc fuel) offset h f = elim (Bool-cases (ltb (sub32 used offset) 5)) [
    | inl few ↦
        unfold parse_loop in
        rw (few, parse_loop) (stopped offset h (short (ground (arith, length-left offset h))))
    | inr enough ↦
        let s : List ℕ = drop offset (take used buf) in
        let (room, left) = enough_bytes offset h enough in
        let (get, word) = size-left offset (omega arith) in
        elim (Bool-cases (stop_test (sub32 used offset) (frame_size s))) [
          | inl e ↦
              rw (parse_loop_stops fuel buf used offset (frame_size s) enough get e)
                (stopped offset h (stop-Stops offset room (rw (← left) e)))
          | inr e ↦ took fuel offset h enough e (
              loop-Looped fuel (offset + frame_size s)
                (omega (arith, stop_false (sub32 used offset) (frame_size s) (omega arith) word e))
                (omega (arith, stop_false (sub32 used offset) (frame_size s) (omega arith) word e)))
        ]
  ]
