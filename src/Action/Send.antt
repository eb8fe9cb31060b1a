-- ===== src/Action/Send.antt =====
-- The datagram that `ActionBuilder` (core/src/action.cpp) gives to the socket.
use sc_api.Common.{
  ℕ, ◌+◌, ◌-◌, ◌%◌, ◌^◌, ◌<◌, ◌≡◌, refl, sym, ◌∙◌, ap, List, [], ◌∷◌, ◌++◌, Option, none, some,
  Bool, true, false, length, length-append, append_assoc, append-nil, arith, ◌>>=◌, if◌then◌else◌,
}
use sc_api.Bytes.{le_bytes, write_bytes}
use sc_api.Bytes.Laws.{write_bytes-middle, length-le_bytes}
use sc_api.Action.{
  ActionBuilder, ActionResult, success, blocks, header, controller, controller_of, build, finalize,
  sendable, send_nonblocking, send_blocking, SendError, reset,
}
use sc_api.Action.Build.{packet, length-header, build-packet}

-- An action as its caller gives it.
pub record Action : Type 0 where
  pub action_id : ℕ
  pub payload : List ℕ
  pub flags : ℕ

-- Actions added one after the other, until one is refused.
pub build_all : List Action → ActionBuilder → Option (Bool × ActionBuilder)
build_all [] b = some (true, b)
build_all (a ∷ acts) b = build a.action_id a.payload a.flags b >>= λ r.
    if r.0 then build_all acts r.1 else some (false, r.1)

abbrev pub packet_of : ℕ → Action → List ℕ
packet_of id a = packet id a.flags a.action_id a.payload

unfoldable pub packets : ℕ → List Action → List ℕ
packets id [] = []
packets id (a ∷ acts) = packet_of id a ++ packets id acts

regroup :
    (u a b c d e : List ℕ) → u ++ ((a ++ (b ++ (c ++ d))) ++ e) ≡ (u ++ (a ++ (b ++ c))) ++ (d ++ e)
regroup u a b c d e = simp (append_assoc)

-- The size that `finalize` writes is there already.
pub finalize-packet :
    (b : ActionBuilder) (used payload : List ℕ) (id flags action_id : ℕ)
    → b.buffer ≡ used ++ packet id flags action_id payload
    → b.cur_start_idx ≡ length used
    → finalize b ≡ some b
unfolding finalize
finalize-packet b used payload id flags action_id e s =
    let size : List ℕ = le_bytes 2 ((8 + length payload) % 2 ^ 16) in
    let head : List ℕ = le_bytes 2 id ++ (le_bytes 2 flags ++ le_bytes 2 action_id) in
    let parts : b.buffer ≡ (used ++ head) ++ (size ++ payload) =
      e ∙ regroup used (le_bytes 2 id) (le_bytes 2 flags) (le_bytes 2 action_id) size payload in
    let six : length (used ++ head) ≡ length used + 6 = omega (
      arith,
      length-append used head,
      length-append (le_bytes 2 id) (le_bytes 2 flags ++ le_bytes 2 action_id),
      length-append (le_bytes 2 flags) (le_bytes 2 action_id),
      length-le_bytes 2 id,
      length-le_bytes 2 flags,
      length-le_bytes 2 action_id,
    ) in
    let total : length b.buffer - b.cur_start_idx ≡ 8 + length payload = omega (
      arith,
      s,
      ap length e,
      length-append used (packet id flags action_id payload),
      length-append (header id flags action_id ((8 + length payload) % 2 ^ 16)) payload,
      length-header id flags action_id ((8 + length payload) % 2 ^ 16),
    ) in
    let w : write_bytes b.buffer (b.cur_start_idx + 6)
          (le_bytes 2 ((length b.buffer - b.cur_start_idx) % 2 ^ 16))
        ≡ some b.buffer =
      ap (λ m. write_bytes b.buffer (b.cur_start_idx + 6) (le_bytes 2 (m % 2 ^ 16))) total
      ∙ ap (λ l. write_bytes l (b.cur_start_idx + 6) size) parts
      ∙ write_bytes-middle (used ++ head) size payload size (b.cur_start_idx + 6)
          (omega (arith, s, six)) refl
      ∙ ap some (sym parts) in
    rw w refl

-- The builder after the actions `acts`.
record BuiltAll (id : ℕ) (acts : List Action) (b : ActionBuilder)
    (res : Option (Bool × ActionBuilder)) : Type 0 where
  built : ActionBuilder
  result : res ≡ some (true, built)
  holds : built.buffer ≡ b.buffer ++ packets id acts
  session : built.session ≡ b.session

build_all-cons :
    (a : Action) (acts : List Action) (b b1 : ActionBuilder)
    → build a.action_id a.payload a.flags b ≡ some (true, b1)
    → build_all (a ∷ acts) b ≡ build_all acts b1
unfolding build_all
build_all-cons a acts b b1 e = rw e refl

build_all-BuiltAll :
    (id : ℕ) (acts : List Action) (b : ActionBuilder)
    → controller b ≡ some id
    → length b.buffer + length (packets id acts) < 2 ^ 32
    → BuiltAll id acts b (build_all acts b)
unfolding packets build_all
build_all-BuiltAll id [] b live room = record {
  built = b;
  result = refl;
  holds = sym (append-nil b.buffer);
  session = refl;
}
build_all-BuiltAll id (a ∷ acts) b live room =
    let one : List ℕ = packet_of id a in
    let m : length (one ++ packets id acts) ≡ length one + length (packets id acts) =
      length-append one (packets id acts) in
    let n : length one ≡ 8 + length a.payload = omega (
      arith,
      length-append (header id a.flags a.action_id ((8 + length a.payload) % 2 ^ 16)) a.payload,
      length-header id a.flags a.action_id ((8 + length a.payload) % 2 ^ 16),
    ) in
    let b1 : ActionBuilder = record b {
      buffer = b.buffer ++ one;
      cur_start_idx = length b.buffer;
    } in
    let rest : BuiltAll id acts b1 (build_all acts b1) =
      build_all-BuiltAll id acts b1 live (omega (arith, length-append b.buffer one)) in
    record {
      built = rest.built;
      result =
          build_all-cons a acts b b1
            (build-packet id a.action_id a.flags a.payload b live (omega arith))
          ∙ rest.result;
      holds = rest.holds ∙ append_assoc b.buffer one (packets id acts);
      session = rest.session;
    }

pub sent-success :
    (b : ActionBuilder)
    → sendable b ≡ true
    → finalize b ≡ some b
    → send_nonblocking success b ≡ some (ActionResult.complete, some b.buffer, reset b)
unfolding send_nonblocking
sent-success b e f = rw (e, f) refl

sent-blocks :
    (b : ActionBuilder)
    → sendable b ≡ true
    → finalize b ≡ some b
    → send_nonblocking blocks b ≡ some (ActionResult.would_block, some b.buffer, b)
unfolding send_nonblocking
sent-blocks b e f = rw (e, f) refl

pub sendable-some :
    (b : ActionBuilder) (s : Option ℕ) (id : ℕ)
    → b.session ≡ s
    → controller b ≡ some id
    → 0 < length b.buffer
    → sendable b ≡ true
sendable-some b none id e c h =
    let none_live : controller b ≡ none = ap controller_of e in absurd (cc)
sendable-some b (some i) id e c h = rw e (ground arith)

-- After any actions and one more, in a builder that was reset and whose session has a controller id,
-- and with fewer than 2^32 bytes in all, every `build` succeeded, and `sendNonBlocking` gives the
-- socket exactly the packets of the actions, in order. When the socket takes them the builder is
-- reset; when it would block, the builder keeps them.
pub send_nonblocking-packets :
    (id : ℕ) (acts : List Action) (a : Action) (b : ActionBuilder)
    → controller b ≡ some id
    → b.buffer ≡ []
    → length (packets id acts) + 8 + length a.payload < 2 ^ 32
    → (b1 : ActionBuilder) × (b2 : ActionBuilder) × (build_all acts b ≡ some (true, b1))
      × (build a.action_id a.payload a.flags b1 ≡ some (true, b2))
      × (send_nonblocking success b2
          ≡ some (ActionResult.complete, some (packets id acts ++ packet_of id a), reset b2))
      × (send_nonblocking blocks b2
          ≡ some (ActionResult.would_block, some (packets id acts ++ packet_of id a), b2))
send_nonblocking-packets id acts a b live fresh room =
    let w : BuiltAll id acts b (build_all acts b) =
      build_all-BuiltAll id acts b live (omega (arith, ap length fresh)) in
    let holds1 : w.built.buffer ≡ packets id acts =
      w.holds ∙ ap (λ l. l ++ packets id acts) fresh in
    let live1 : controller w.built ≡ some id = ap controller_of w.session ∙ live in
    let b2 : ActionBuilder = record w.built {
      buffer = w.built.buffer ++ packet_of id a;
      cur_start_idx = length w.built.buffer;
    } in
    let holds2 : b2.buffer ≡ packets id acts ++ packet_of id a =
      ap (λ l. l ++ packet_of id a) holds1 in
    let ready : sendable b2 ≡ true = sendable-some b2 b2.session id refl live1 (
      omega (
        arith,
        length-append w.built.buffer (packet_of id a),
        length-append (header id a.flags a.action_id ((8 + length a.payload) % 2 ^ 16)) a.payload,
        length-header id a.flags a.action_id ((8 + length a.payload) % 2 ^ 16),
      )) in
    let same : finalize b2 ≡ some b2 =
      finalize-packet b2 w.built.buffer a.payload id a.flags a.action_id refl refl in
    (
      w.built,
      b2,
      w.result,
      build-packet id a.action_id a.flags a.payload w.built live1 (omega (arith, ap length holds1)),
      sent-success b2 ready same ∙ ap (λ l. some (ActionResult.complete, some l, reset b2)) holds2,
      sent-blocks b2 ready same ∙ ap (λ l. some (ActionResult.would_block, some l, b2)) holds2,
    )

-- `sendBlocking` of a packet that the socket takes at once.
pub sent_blocking-success :
    (e' : SendError) (b : ActionBuilder)
    → sendable b ≡ true
    → finalize b ≡ some b
    → send_blocking success e' b ≡ some (ActionResult.complete, some b.buffer, reset b)
unfolding send_blocking
sent_blocking-success e' b e f = rw (e, f) refl
