-- ===== src/Session/Framing/Tests.antt =====
-- Runs of the framing, and its theorems at concrete inputs.
use sc_api.Common.{ℕ, zero, suc, ◌≡◌, refl, List, [], ◌∷◌, ◌++◌, arith, some, none}
use sc_api.Bytes.{of_le, read_bytes, write_bytes, geti32}
use sc_api.Session.Framing.{
  Receive, parse_loop, move_rest, try_parse_packet, on_receive, receive_all,
}
use sc_api.Session.Framing.Frames.{Frames, rest, frame, short}
use sc_api.Session.Framing.Parse.{pending, Parsed, try_parse_packet-Parsed}
use sc_api.Session.Framing.Stream.{
  concat, Received, receive_all-Received, receive_all-chunks, try_parse_packet-overread,
}

-- Two documents of five and six bytes.
abbrev doc : List ℕ
doc = 5 ∷ 0 ∷ 0 ∷ 0 ∷ 0 ∷ []

abbrev doc_b : List ℕ
doc_b = 6 ∷ 0 ∷ 0 ∷ 0 ∷ 7 ∷ 0 ∷ []

abbrev zeros : ℕ → List ℕ
zeros zero = []
zeros (suc n) = 0 ∷ zeros n

abbrev empty : Receive
empty = record { receive_buffer = zeros 24; receive_buffer_used = 0 }

-- The first document with a byte of the second, in a buffer of twelve bytes.
abbrev half_full : Receive
half_full = record { receive_buffer = doc ++ (6 ∷ zeros 6); receive_buffer_used = 6 }

-- The same in a buffer of eight bytes.
abbrev tight : Receive
tight = record { receive_buffer = doc ++ (6 ∷ zeros 2); receive_buffer_used = 6 }

abbrev cut_a : List (List ℕ)
cut_a = doc ∷ doc_b ∷ []

abbrev cut_b : List (List ℕ)
cut_b = (5 ∷ 0 ∷ []) ∷ (0 ∷ 0 ∷ 0 ∷ 6 ∷ []) ∷ (0 ∷ 0 ∷ 0 ∷ 7 ∷ 0 ∷ []) ∷ []

runs_cut :
    receive_all empty cut_b
    ≡ some
        (doc ∷ doc_b ∷ [], record { receive_buffer = doc_b ++ zeros 18; receive_buffer_used = 0 })
unfolding receive_all on_receive try_parse_packet parse_loop move_rest read_bytes write_bytes geti32
    of_le
runs_cut = refl

half_full_run : Parsed half_full (try_parse_packet half_full)
half_full_run = try_parse_packet-Parsed half_full (omega arith) (omega arith)

receive_all-Received_example : Received empty (concat cut_b) (receive_all empty cut_b)
receive_all-Received_example =
    receive_all-Received empty cut_b (omega arith) (short (omega arith)) (omega arith) (omega arith)

receive_all-chunks_example :
    (packets : List (List ℕ)) × (a : Receive) × (b : Receive) × (receive_all empty cut_a
      ≡ some (packets, a))
    × (receive_all empty cut_b ≡ some (packets, b))
    × (pending a ≡ pending b)
receive_all-chunks_example =
    receive_all-chunks empty cut_a cut_b (omega arith) (short (omega arith)) (omega arith) refl
      (omega arith)

tight-Frames : Frames (pending tight) (doc ∷ []) (6 ∷ [])
unfolding of_le
tight-Frames =
    frame (pending tight) (omega arith) (omega arith) (omega arith) (omega arith)
      (rest (6 ∷ []) (short (omega arith)))

try_parse_packet-overread_example : try_parse_packet tight ≡ none
try_parse_packet-overread_example =
    try_parse_packet-overread tight (omega arith) tight-Frames (omega arith) (omega arith)
      (omega arith)
