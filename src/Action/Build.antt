-- ===== src/Action/Build.antt =====
-- What `ActionBuilder` (core/src/action.cpp) sends: the packets of its actions, one behind the other.
use sc_api.Common.{
  ℕ, zero, [], ◌+◌, ◌%◌, ◌^◌, ◌<◌, ◌≡◌, refl, ◌∙◌, ap, ap₂, List, ◌++◌, some, true, length, drop,
  replicate, length-replicate, length-append, length-drop, append_assoc, append-nil, arith,
  take_all, drop_all, drop-replicate,
}
use sc_api.Bytes.{le_bytes, write_bytes, resize}
use sc_api.Bytes.Laws.{write_bytes-append, length-le_bytes}
use sc_api.Action.{
  ActionBuilder, header, controller, build, build_with, start_building, start_building_with,
}

-- The packet of an action.
abbrev pub packet : ℕ → ℕ → ℕ → List ℕ → List ℕ
packet id flags action_id payload =
    header id flags action_id ((8 + length payload) % 2 ^ 16) ++ payload

pub length-header : (id flags action_id size : ℕ) → length (header id flags action_id size) ≡ 8
length-header id flags action_id size = omega (
  arith,
  length-append (le_bytes 2 id) (le_bytes 2 flags ++ (le_bytes 2 action_id ++ le_bytes 2 size)),
  length-append (le_bytes 2 flags) (le_bytes 2 action_id ++ le_bytes 2 size),
  length-append (le_bytes 2 action_id) (le_bytes 2 size),
  length-le_bytes 2 id,
  length-le_bytes 2 flags,
  length-le_bytes 2 action_id,
  length-le_bytes 2 size,
)

pub resize-grows : (n : ℕ) (buf : List ℕ) → resize (length buf + n) buf ≡ buf ++ replicate n 0
resize-grows n buf =
    ap₂ (λ a b. a ++ replicate b 0) (take_all (length buf + n) buf (omega arith)) (omega arith)

module _ (id action_id flags : ℕ) (payload : List ℕ) (b : ActionBuilder)
    (live : controller b ≡ some id) (room : length b.buffer + 8 + length payload < 2 ^ 32) where
  abbrev head : List ℕ
  head = header id flags action_id ((8 + length payload) % 2 ^ 16)

  abbrev zeros : List ℕ
  zeros = replicate (8 + length payload) 0

  n : length zeros ≡ 8 + length payload
  n = length-replicate (8 + length payload) zero

  eight : length head ≡ 8
  eight = length-header id flags action_id ((8 + length payload) % 2 ^ 16)

  start_lem : length b.buffer % 2 ^ 32 ≡ length b.buffer
  start_lem = omega arith

  grown_lem : resize (length b.buffer + 8 + length payload) b.buffer ≡ b.buffer ++ zeros
  grown_lem = ap (λ k. resize k b.buffer) (omega arith) ∙ resize-grows (8 + length payload) b.buffer

  first_lem :
      write_bytes
        (resize (length b.buffer + 8 + length payload) b.buffer)
        (length b.buffer % 2 ^ 32)
        head
      ≡ some ((b.buffer ++ head) ++ drop (length head) zeros)
  first_lem =
      ap₂ (λ l o. write_bytes l o head) grown_lem start_lem
      ∙ write_bytes-append b.buffer zeros head (length b.buffer) refl (omega (arith, eight, n))

  second_lem :
      write_bytes
        ((b.buffer ++ head) ++ drop (length head) zeros)
        (length b.buffer % 2 ^ 32 + 8)
        payload
      ≡ some (b.buffer ++ (head ++ payload))
  second_lem =
      let left : List ℕ = drop (length head) zeros in
      let m : length left ≡ length payload =
        omega (arith, length-drop (length head) zeros, eight, n) in
      write_bytes-append (b.buffer ++ head) left payload (length b.buffer % 2 ^ 32 + 8)
        (omega (arith, start_lem, length-append b.buffer head, eight)) (omega arith)
      ∙ ap some (
          ap (λ l. ((b.buffer ++ head) ++ payload) ++ l)
            (drop_all (length payload) left (omega arith))
          ∙ append-nil ((b.buffer ++ head) ++ payload)
          ∙ append_assoc b.buffer head payload)

  -- With a session that has a controller id, and the buffer below 2^32 bytes, `build` appends the
  -- packet of the action and remembers where it begins.
  pub build-packet :
      build action_id payload flags b
      ≡ some (
        true,
        record b {
          buffer = b.buffer ++ packet id flags action_id payload;
          cur_start_idx = length b.buffer;
        },
      )
  unfolding build build_with
  build-packet =
      rw (live, build_with)
        (rw first_lem (
          rw second_lem (
            ap
              (λ o. some (
                true,
                record b {
                  buffer = b.buffer ++ packet id flags action_id payload;
                  cur_start_idx = o;
                },
              ))
              start_lem)))

-- `startBuilding` in an empty buffer gives a payload of zeros behind its header.
pub start_building-empty :
    (id action_id n flags : ℕ) (b : ActionBuilder)
    → controller b ≡ some id
    → b.buffer ≡ []
    → start_building action_id n flags b
      ≡ some (
        true,
        record b {
          buffer = header id flags action_id ((8 + n) % 2 ^ 16) ++ replicate n 0;
          cur_start_idx = 0;
        },
      )
unfolding start_building start_building_with
start_building-empty id action_id n flags b live fresh =
    let head : List ℕ = header id flags action_id ((8 + n) % 2 ^ 16) in
    let eight : length head ≡ 8 = length-header id flags action_id ((8 + n) % 2 ^ 16) in
    let zeros : resize (0 + 8 + n) [] ≡ replicate (8 + n) 0 =
      ap₂ (λ a k. a ++ replicate k zero) (take_all (0 + 8 + n) [] (omega arith)) (omega arith) in
    let w : write_bytes (resize (0 + 8 + n) []) 0 head ≡ some (head ++ replicate n 0) =
      ap (λ l. write_bytes l 0 head) zeros
      ∙ write_bytes-append [] (replicate (8 + n) 0) head 0 refl
          (omega (arith, eight, length-replicate (8 + n) zero))
      ∙ ap (λ l. some (head ++ l))
          (ap (λ k. drop k (replicate (8 + n) zero)) eight
            ∙ drop-replicate 8 (8 + n) zero
            ∙ ap (λ k. replicate k zero) (omega arith)) in
    rw (live, fresh, w) refl
