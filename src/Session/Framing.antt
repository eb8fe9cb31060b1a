-- ===== src/Session/Framing.antt =====
-- How the TCP byte stream is cut into BSON documents: `Session::Internal::startReceive` and
-- `tryParsePacket` of core/src/session.cpp. A packet that goes to `parsePacket` is an output.
pub mod Frames
pub mod Loop
pub mod Parse
pub mod Stream
mod Tests
use mathlib.Core.Option
use sc_api.Common.{
  ℕ, zero, suc, ◌+◌, ◌-◌, ◌%◌, ◌^◌, ◌<◌, ◌≤◌, List, [], ◌∷◌, ◌++◌, Option, none, some, Bool, true,
  false, ◌&&◌, ◌||◌, ltb, length, if◌then◌else◌,
}
use sc_api.Bytes.{read_bytes, write_bytes, geti32, add32, slt32, sle32}

-- `receive_buffer` and `receive_buffer_used` of `Session::Internal`.
pub record Receive : Type 0 where
  pub receive_buffer : List ℕ
  pub receive_buffer_used : ℕ

-- `uint32_t` subtraction.
abbrev pub sub32 : ℕ → ℕ → ℕ
sub32 a b = (a + 2 ^ 32 - b) % 2 ^ 32

-- The `while` loop of `tryParsePacket`: the packets in order, and the offset at which it stops.
-- `none` is a read outside the buffer, or no fuel left.
pub parse_loop : ℕ → List ℕ → ℕ → ℕ → Option (List (List ℕ) × ℕ)
parse_loop zero buf used offset = none
parse_loop (suc fuel) buf used offset = elim (ltb (sub32 used offset) 5) [
  | true ↦ some ([], offset)
  | false ↦ elim (geti32 buf offset) [
    | none ↦ none
    | some total ↦ elim (sle32 total 0 || slt32 (sub32 used offset) total) [
      | true ↦ some ([], offset)
      | false ↦ elim (read_bytes buf offset total) [
        | none ↦ none
        | some packet ↦
            Option.map (λ r. (packet ∷ r.0, r.1)) (parse_loop fuel buf used (add32 offset total))
      ]
    ]
  ]
]

-- `std::memmove(data, data + offset, used)`, made only when packets were taken and bytes are left.
-- The length is `receive_buffer_used`, not the number of bytes that are left.
pub move_rest : List ℕ → ℕ → ℕ → Option (List ℕ)
move_rest buf offset used =
    if ltb 0 offset && ltb offset used
    then elim (read_bytes buf offset used) [ none ↦ none | some bs ↦ write_bytes buf 0 bs ]
    else some buf

-- A round of the loop takes a byte at least, so `used + 1` rounds are enough.
pub try_parse_packet : Receive → Option (List (List ℕ) × Receive)
try_parse_packet r = elim (parse_loop (suc used) buf used 0) [
  | none ↦ none
  | some (packets, offset) ↦
      Option.map
        (λ buf'.
          (packets, record { receive_buffer = buf'; receive_buffer_used = sub32 used offset }))
        (move_rest buf offset used)
]
  where
    open r use {receive_buffer as buf, receive_buffer_used as used}

-- The handler of `async_read_some`: the bytes were put behind the used ones.
pub on_receive : Receive → List ℕ → Option (List (List ℕ) × Receive)
on_receive r chunk = elim (write_bytes r.receive_buffer r.receive_buffer_used chunk) [
  | none ↦ none
  | some buf ↦ try_parse_packet (record {
    receive_buffer = buf;
    receive_buffer_used = add32 r.receive_buffer_used (length chunk);
  })
]

-- The completions of the receive operations, in order.
pub receive_all : Receive → List (List ℕ) → Option (List (List ℕ) × Receive)
receive_all r [] = some ([], r)
receive_all r (chunk ∷ chunks) = elim (on_receive r chunk) [
  | none ↦ none
  | some (packets, r') ↦ Option.map (λ p. (packets ++ p.0, p.1)) (receive_all r' chunks)
]
