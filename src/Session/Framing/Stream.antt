-- ===== src/Session/Framing/Stream.antt =====
-- The packets do not depend on how the stream is cut into receive completions.
use sc_api.Common.{
  ℕ, suc, ◌+◌, ◌-◌, ◌*◌, ◌≤◌, ◌<◌, ◌≡◌, refl, sym, ap, ◌∙◌, List, [], ◌∷◌, ◌++◌, arith, length,
  take, drop, All-front, All-back, length-append, length-take, length-drop, All, All-take, All-drop,
  All-append, take-append-drop, take-append_self, Option, some, none, append-nil, append_assoc,
}
use sc_api.Bytes.{IsByte, write_bytes, add32}
use sc_api.Bytes.Laws.{write_bytes-append}
use sc_api.Session.Framing.{Receive, parse_loop, try_parse_packet, on_receive, receive_all}
use sc_api.Session.Framing.Frames.{Frames, Stops, rest, Frames-append, Frames-unique, Frames-Stops}
use sc_api.Session.Framing.Parse.{
  IsReceive, pending, Parsed, try_parse_packet-Parsed, try_parse_packet-none, move-none,
}
use sc_api.Session.Framing.Loop.{Looped, loop-Looped}

-- The state after the bytes were put behind the used ones, before they are parsed.
record Stored (r : Receive) (chunk : List ℕ) : Type 0 where
  buf : List ℕ
  written : write_bytes r.receive_buffer r.receive_buffer_used chunk ≡ some buf
  holds : take (r.receive_buffer_used + length chunk) buf ≡ pending r ++ chunk
  size : length buf ≡ length r.receive_buffer
  bytes : All IsByte buf

store :
    (r : Receive) (chunk : List ℕ)
    → IsReceive r
    → All IsByte chunk
    → r.receive_buffer_used + length chunk ≤ length r.receive_buffer
    → Stored r chunk
store r chunk v c h =
    let used : ℕ = r.receive_buffer_used in
    let free : List ℕ = drop used r.receive_buffer in
    let n : length (pending r) ≡ used = omega (arith, length-take used r.receive_buffer, v.fits) in
    record {
      buf = (pending r ++ chunk) ++ drop (length chunk) free;
      written =
          ap (λ b. write_bytes b used chunk) (sym (take-append-drop used r.receive_buffer))
          ∙ write_bytes-append (pending r) free chunk used (sym n)
              (omega (arith, length-drop used r.receive_buffer));
      holds =
          take-append_self (used + length chunk) (pending r ++ chunk) (drop (length chunk) free)
            (omega (arith, length-append (pending r) chunk, n));
      size = omega (
        arith,
        length-append (pending r ++ chunk) (drop (length chunk) free),
        length-append (pending r) chunk,
        n,
        length-drop (length chunk) free,
        length-drop used r.receive_buffer,
      );
      bytes =
          All-append IsByte _ _ (All-append IsByte _ _ (All-take IsByte used _ v.bytes) c)
            (All-drop IsByte (length chunk) _ (All-drop IsByte used _ v.bytes));
    }

-- What a receive completion, or a sequence of them, does with the bytes `stream` it brings.
pub record Received (r : Receive) (stream : List ℕ) (res : Option (List (List ℕ) × Receive))
    : Type 0 where
  pub packets : List (List ℕ)
  pub after : Receive
  pub result : res ≡ some (packets, after)
  pub framing : Frames (pending r ++ stream) packets (pending after)
  pub keeps : IsReceive after
  pub size : length after.receive_buffer ≡ length r.receive_buffer
  pub room : after.receive_buffer_used ≤ r.receive_buffer_used + length stream

on_receive-eq :
    (r : Receive) (chunk buf : List ℕ)
    → write_bytes r.receive_buffer r.receive_buffer_used chunk ≡ some buf
    → on_receive r chunk
      ≡ try_parse_packet (record {
        receive_buffer = buf;
        receive_buffer_used = add32 r.receive_buffer_used (length chunk);
      })
unfolding on_receive
on_receive-eq r chunk buf e = rw (e, on_receive)

on_receive-Received :
    (r : Receive) (chunk : List ℕ)
    → IsReceive r
    → All IsByte chunk
    → 2 * (r.receive_buffer_used + length chunk) ≤ length r.receive_buffer
    → Received r chunk (on_receive r chunk)
on_receive-Received r chunk v c h =
    let s : Stored r chunk = store r chunk v c (omega arith) in
    let sum : add32 r.receive_buffer_used (length chunk) ≡ r.receive_buffer_used + length chunk =
      omega (arith, v.small) in
    let q : Receive = record {
      receive_buffer = s.buf;
      receive_buffer_used = r.receive_buffer_used + length chunk;
    } in
    let p : Parsed q (try_parse_packet q) =
      try_parse_packet-Parsed q
        (record {
          fits = omega (arith, s.size);
          small = omega (arith, s.size, v.small);
          bytes = s.bytes;
        })
        (omega (arith, s.size)) in
    record {
      packets = p.packets;
      after = p.after;
      result =
          on_receive-eq r chunk s.buf s.written
          ∙ ap (λ n. try_parse_packet (record { receive_buffer = s.buf; receive_buffer_used = n }))
              sum
          ∙ p.result;
      framing = rw (← s.holds) p.framing;
      keeps = p.keeps;
      size = p.size ∙ s.size;
      room = p.fewer;
    }

abbrev pub concat : List (List ℕ) → List ℕ
concat [] = []
concat (c ∷ cs) = c ++ concat cs

receive_all-cons :
    (r a b : Receive) (chunk : List ℕ) (chunks ps qs : List (List ℕ))
    → on_receive r chunk ≡ some (ps, a)
    → receive_all a chunks ≡ some (qs, b)
    → receive_all r (chunk ∷ chunks) ≡ some (ps ++ qs, b)
unfolding receive_all
receive_all-cons r a b chunk chunks ps qs e f = rw (e, receive_all) (rw f)

-- Receive completions that bring a stream piece by piece: if the bytes pending and the stream
-- together fill at most half of the buffer, no completion accesses memory outside it, and the
-- packets handed on are exactly the frames of the whole stream, in order, with what these leave
-- pending. At the start no complete frame is pending.
pub receive_all-Received :
    (r : Receive) (chunks : List (List ℕ))
    → IsReceive r
    → Stops (pending r)
    → All IsByte (concat chunks)
    → 2 * (r.receive_buffer_used + length (concat chunks)) ≤ length r.receive_buffer
    → Received r (concat chunks) (receive_all r chunks)
receive_all-Received r [] v idle c h = record {
  packets = [];
  after = r;
  result = unfold receive_all in refl;
  framing = rw append-nil (rest (pending r) idle);
  keeps = v;
  size = refl;
  room = omega arith;
}
receive_all-Received r (chunk ∷ chunks) v idle c h =
    let split : length (chunk ++ concat chunks) ≡ length chunk + length (concat chunks) =
      length-append chunk (concat chunks) in
    let a : Received r chunk (on_receive r chunk) =
      on_receive-Received r chunk v (All-front IsByte chunk _ c) (omega (arith, split)) in
    let b : Received a.after (concat chunks) (receive_all a.after chunks) =
      receive_all-Received a.after chunks a.keeps (Frames-Stops a.framing)
        (All-back IsByte chunk _ c) (omega (arith, split, a.size, a.room)) in
    record {
      packets = a.packets ++ b.packets;
      after = b.after;
      result =
          receive_all-cons r a.after b.after chunk chunks a.packets b.packets a.result b.result;
      framing = rw append_assoc at (Frames-append (concat chunks) a.framing b.framing);
      keeps = b.keeps;
      size = b.size ∙ a.size;
      room = omega (arith, split, a.room, b.room);
    }

-- Two cuttings of one stream into receive completions hand on the same packets and leave the same
-- bytes pending, if the bytes pending before and the stream fill at most half of the buffer.
pub receive_all-chunks :
    (r : Receive) (cs ds : List (List ℕ))
    → IsReceive r
    → Stops (pending r)
    → All IsByte (concat cs)
    → concat cs ≡ concat ds
    → 2 * (r.receive_buffer_used + length (concat cs)) ≤ length r.receive_buffer
    → (packets : List (List ℕ)) × (a : Receive) × (b : Receive) × (receive_all r cs
        ≡ some (packets, a))
      × (receive_all r ds ≡ some (packets, b))
      × (pending a ≡ pending b)
receive_all-chunks r cs ds v idle c e h =
    let a : Received r (concat cs) (receive_all r cs) = receive_all-Received r cs v idle c h in
    let b : Received r (concat ds) (receive_all r ds) =
      receive_all-Received r ds v idle (rw (← e) c) (rw (← e) h) in
    let (p, q) = Frames-unique a.framing (rw e b.framing) in
    (a.packets, a.after, b.after, a.result, rw p b.result, q)

-- The move of the bytes that are left copies `receive_buffer_used` bytes, more than are left: it
-- leaves the buffer whenever packets were taken, bytes are left, and those taken and those
-- received together are more than the buffer holds.
pub try_parse_packet-overread :
    (r : Receive) {ps : List (List ℕ)} {left : List ℕ}
    → IsReceive r
    → Frames (pending r) ps left
    → 0 < length left
    → length left < r.receive_buffer_used
    → length r.receive_buffer < r.receive_buffer_used + (r.receive_buffer_used - length left)
    → try_parse_packet r ≡ none
try_parse_packet-overread r {ps} {left} v f some_left some_taken over =
    let buf : List ℕ = r.receive_buffer in
    let used : ℕ = r.receive_buffer_used in
    let l : Looped (take used buf) used 0 (parse_loop (suc used) buf used 0) =
      loop-Looped buf used v.fits v.small v.bytes (suc used) 0 (omega arith) (omega arith) in
    let (p, q) = Frames-unique l.framing f in
    let n : length left ≡ used - l.stop =
      omega
        (arith, ap length q, length-drop l.stop (take used buf), length-take used buf, v.fits) in
    try_parse_packet-none r l.packets l.stop l.result
      (move-none buf l.stop used (omega arith) (omega arith) (omega arith))
