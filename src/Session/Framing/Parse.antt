-- ===== src/Session/Framing/Parse.antt =====
-- What `tryParsePacket` leaves in the receive buffer.
use sc_api.Common.{
  ◌*◌, ℕ, zero, suc, ◌+◌, ◌-◌, ◌^◌, ◌≤◌, ◌<◌, ◌≡◌, refl, sym, ap, ◌∙◌, inl, inr, List, ◌++◌, arith,
  length, take, drop, length-append, length-take, length-drop, take-append, take-drop, take-take,
  All, Option, some, none, false, Bool-cases, ltb, All-take, All-drop, All-append, ◌&&◌, drop_all,
}
use sc_api.Bytes.{IsByte}
use sc_api.Bytes.Laws.{read_bytes-some, read_bytes-none, write_bytes-front}
use sc_api.Session.Framing.{Receive, sub32, parse_loop, move_rest, try_parse_packet}
use sc_api.Session.Framing.Frames.{Frames}
use sc_api.Session.Framing.Loop.{Looped, loop-Looped}

-- A buffer with its used part: what every operation on the receive buffer keeps.
pub record IsReceive (r : Receive) : Type 0 where
  pub fits : r.receive_buffer_used ≤ length r.receive_buffer
  pub small : length r.receive_buffer < 2 ^ 31
  pub bytes : All IsByte r.receive_buffer

-- The bytes received and not yet taken.
abbrev pub pending : Receive → List ℕ
pending r = take r.receive_buffer_used r.receive_buffer

-- The move puts the bytes from `offset` on at the front and keeps the size of the buffer.
record Moved (buf : List ℕ) (offset used : ℕ) (res : Option (List ℕ)) : Type 0 where
  out : List ℕ
  result : res ≡ some out
  front : take (used - offset) out ≡ drop offset (take used buf)
  size : length out ≡ length buf
  bytes : All IsByte out

moved-front :
    (buf : List ℕ) (offset used : ℕ)
    → offset ≤ used
    → offset + used ≤ length buf
    → take (used - offset) (take used (drop offset buf) ++ drop used buf)
      ≡ drop offset (take used buf)
moved-front buf offset used h k =
    take-append (used - offset) (take used (drop offset buf)) (drop used buf)
      (omega (arith, length-take used (drop offset buf), length-drop offset buf))
    ∙ take-take (used - offset) used (drop offset buf) (omega arith)
    ∙ take-drop (used - offset) offset used buf (omega arith)

kept-front :
    (buf : List ℕ) (offset used : ℕ)
    → offset ≤ used
    → (ltb 0 offset && ltb offset used) ≡ false
    → take (used - offset) buf ≡ drop offset (take used buf)
kept-front buf zero used h e = let same : used - 0 ≡ used = omega arith in rw same
kept-front buf (suc o) used h e =
    let same : suc o ≡ used = ground arith in
    let none_left : used - suc o ≡ 0 = omega arith in
    rw none_left (sym (drop_all (suc o) (take used buf) (omega (arith, length-take used buf))))

move-Moved :
    (buf : List ℕ) (offset used : ℕ)
    → All IsByte buf
    → offset ≤ used
    → offset + used ≤ length buf
    → Moved buf offset used (move_rest buf offset used)
unfolding move_rest
move-Moved buf offset used bytes h k = elim (Bool-cases (ltb 0 offset && ltb offset used)) [
  | inl m ↦
      let mid : List ℕ = take used (drop offset buf) in
      let full : length mid ≡ used =
        omega (arith, length-take used (drop offset buf), length-drop offset buf) in
      record {
        out = mid ++ drop used buf;
        result = rw m (
            rw (read_bytes-some buf offset used k)
              (write_bytes-front buf mid (omega arith) ∙ ap (λ n. some (mid ++ drop n buf)) full));
        front = moved-front buf offset used h k;
        size = omega (arith, length-append mid (drop used buf), length-drop used buf, full);
        bytes =
            All-append IsByte _ _ (All-take IsByte used _ (All-drop IsByte offset _ bytes))
              (All-drop IsByte used _ bytes);
      }
  | inr s ↦ record {
    out = buf;
    result = rw s;
    front = kept-front buf offset used h s;
    size = refl;
    bytes = bytes;
  }
]

try_parse_packet-eq :
    (r : Receive) (packets : List (List ℕ)) (stop : ℕ) (out : List ℕ)
    → parse_loop (suc r.receive_buffer_used) r.receive_buffer r.receive_buffer_used 0
      ≡ some (packets, stop)
    → move_rest r.receive_buffer stop r.receive_buffer_used ≡ some out
    → try_parse_packet r
      ≡ some (
        packets,
        record { receive_buffer = out; receive_buffer_used = sub32 r.receive_buffer_used stop },
      )
unfolding try_parse_packet
try_parse_packet-eq r packets stop out e f = rw (e, try_parse_packet) (rw f)

pub try_parse_packet-none :
    (r : Receive) (packets : List (List ℕ)) (stop : ℕ)
    → parse_loop (suc r.receive_buffer_used) r.receive_buffer r.receive_buffer_used 0
      ≡ some (packets, stop)
    → move_rest r.receive_buffer stop r.receive_buffer_used ≡ none
    → try_parse_packet r ≡ none
unfolding try_parse_packet
try_parse_packet-none r packets stop e f = rw (e, try_parse_packet) (rw f)

pub move-none :
    (buf : List ℕ) (offset used : ℕ)
    → 0 < offset
    → offset < used
    → length buf < offset + used
    → move_rest buf offset used ≡ none
unfolding move_rest
move-none buf offset used a b h = ground (arith, read_bytes-none buf offset used h)

-- What `tryParsePacket` does to a receive state.
pub record Parsed (r : Receive) (res : Option (List (List ℕ) × Receive)) : Type 0 where
  pub packets : List (List ℕ)
  pub after : Receive
  pub result : res ≡ some (packets, after)
  pub framing : Frames (pending r) packets (pending after)
  pub keeps : IsReceive after
  pub size : length after.receive_buffer ≡ length r.receive_buffer
  pub fewer : after.receive_buffer_used ≤ r.receive_buffer_used

-- `tryParsePacket` returns, without an access outside the buffer, if the used bytes fill at most
-- half of it. It hands on exactly the frames of the pending bytes, in order, and what is pending
-- afterwards is what these frames leave.
pub try_parse_packet-Parsed :
    (r : Receive)
    → IsReceive r
    → 2 * r.receive_buffer_used ≤ length r.receive_buffer
    → Parsed r (try_parse_packet r)
try_parse_packet-Parsed r v half =
    let buf : List ℕ = r.receive_buffer in
    let used : ℕ = r.receive_buffer_used in
    let l : Looped (take used buf) used 0 (parse_loop (suc used) buf used 0) =
      loop-Looped buf used v.fits v.small v.bytes (suc used) 0 (omega arith) (omega arith) in
    let m : Moved buf l.stop used (move_rest buf l.stop used) =
      move-Moved buf l.stop used v.bytes l.high (omega (arith, l.high)) in
    let left : sub32 used l.stop ≡ used - l.stop = omega (arith, l.high, v.fits, v.small) in
    record {
      packets = l.packets;
      after = record { receive_buffer = m.out; receive_buffer_used = used - l.stop };
      result =
          try_parse_packet-eq r l.packets l.stop m.out l.result m.result
          ∙ ap (λ n. some (l.packets, record { receive_buffer = m.out; receive_buffer_used = n }))
              left;
      framing = rw m.front l.framing;
      keeps = record {
        fits = omega (arith, m.size, v.fits);
        small = omega (arith, m.size, v.small);
        bytes = m.bytes;
      };
      size = m.size;
      fewer = omega arith;
    }
