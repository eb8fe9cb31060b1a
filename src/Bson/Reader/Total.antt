-- ===== src/Bson/Reader/Total.antt =====
-- `validate` of `BsonReader` (core/src/util/bson_reader.cpp) ends, and stays within five bytes behind
-- the document.
use sc_api.Common.{
  ℕ, zero, suc, ◌+◌, ◌*◌, ◌^◌, ◌≤◌, ◌<◌, ◌≡◌, refl, ◌∙◌, ap, inl, inr, List, [], ◌∷◌, some, Bool,
  true, false, length, arith, ◌>>=◌, Bool-cases, ltb, ◌||◌,
}
use sc_api.Bytes.{geti32, slt32}
use sc_api.Bson.Types.{ElementType, finished, format_error, doc_begin}
use sc_api.Bson.Reader.{
  Reader, DocState, answer, go_on, next, close_sub, turn, validate_loop, validate_reader, validate,
  reader, invalid,
}
use sc_api.Bson.Reader.Value.{IsReadable, geti32-lt}
use sc_api.Bson.Reader.Next.{Same, ended, failed, element, next-Stepped}
use sc_api.Bson.Reader.Validate.{
  Ends, Ends-le, Head, ahead, Turned, answered, went, close_sub-closes, skip_value-begin,
  element-Turned,
}

layers-cons :
    (d : ℕ) (layers : List DocState)
    → length layers ≡ suc d
    → (l : DocState) × (outer : List DocState) × (layers ≡ l ∷ outer)
layers-cons d [] e = absurd (omega arith)
layers-cons d (l ∷ outer) e = (l, outer, refl)

Ends-over : (last end : ℕ) (a b : List DocState) → a ≡ b → Ends last end a → Ends last end b
Ends-over last end a b e h = rw (← e) h

pub turn-finished : (depth : ℕ) (r : Reader) → turn depth finished r ≡ some (close_sub depth r)
unfolding turn
turn-finished depth r = refl

turn-error : (depth : ℕ) (r : Reader) → turn depth format_error r ≡ some (answer false r)
unfolding turn
turn-error depth r = refl

pub close_sub-zero : (r : Reader) → close_sub zero r ≡ answer true r
unfolding close_sub
close_sub-zero r = refl

ended-Turned :
    (last depth pos : ℕ) (r r1 : Reader)
    → Head last depth pos r
    → Same r r1
    → Turned last depth pos r (turn depth finished r1)
ended-Turned last zero pos r r1 h same =
    answered true r1 (turn-finished zero r1 ∙ ap some (close_sub-zero r1))
ended-Turned last (suc d) pos r r1 h same =
    let (l, outer, e) = layers-cons d r1.doc_layers (ap length same.layers ∙ h.deep) in
    let ends1 : Ends last r1.cur_doc_end r1.doc_layers = rw (same.doc_end, same.layers) h.ends in
    let inner : Ends last r1.cur_doc_end (l ∷ outer) =
      Ends-over last r1.cur_doc_end r1.doc_layers (l ∷ outer) e ends1 in
    went d r1.cur_doc_end _ (turn-finished (suc d) r1 ∙ ap some (close_sub-closes d r1 l outer e))
      (record {
        bytes = rw (same.buffer) h.bytes;
        slack = rw (same.buffer) h.slack;
        small = h.small;
        live = refl;
        skips = skip_value-begin r1.buffer r1.cur_doc_end;
        near = omega (arith, inner.0);
        ends = inner.1;
        deep = omega (arith, ap length same.layers, h.deep, ap length e);
      })
      (omega (arith, inner.0, same.doc_end, Ends-le last l.end_offset outer inner.1))

-- The result of `next`, handed to a round.
Turned-next :
    {last depth pos : ℕ} {r r1 : Reader} {t : ElementType}
    → next r ≡ some (t, r1)
    → Turned last depth pos r (turn depth t r1)
    → Turned last depth pos r (next r >>= λ s. turn depth s.0 s.1)
Turned-next {depth = depth} e (answered ok r' f) =
    answered ok r' (ap (λ o. o >>= λ s. turn depth s.0 s.1) e ∙ f)
Turned-next {depth = depth} e (went d pos' r' f h k) =
    went d pos' r' (ap (λ o. o >>= λ s. turn depth s.0 s.1) e ∙ f) h k

-- A round answers, or goes on with less ahead.
round :
    (last depth pos : ℕ) (r : Reader)
    → Head last depth pos r
    → Turned last depth pos r (next r >>= λ s. turn depth s.0 s.1)
round last depth pos r h =
    let low : r.cur_doc_end ≤ last = Ends-le last r.cur_doc_end r.doc_layers h.ends in
    elim (next-Stepped r pos
      (record { bytes = h.bytes; slack = omega (arith, h.slack); small = omega (arith, h.small) })
      h.live h.skips h.near) [
        | ended r1 e same ↦ Turned-next e (ended-Turned last depth pos r r1 h same)
        | failed r1 e ↦ Turned-next e (answered false r1 (turn-error depth r1))
        | element t r1 n e c i same behind v k within ↦
            Turned-next e (element-Turned last depth pos r h r1 same t n c i behind v k within)
      ]

pub loop-answers :
    (fuel depth : ℕ) (r r' : Reader) (ok : Bool)
    → (next r >>= λ s. turn depth s.0 s.1) ≡ some (answer ok r')
    → validate_loop (suc fuel) depth r ≡ some (ok, r')
unfolding validate_loop
loop-answers fuel depth r r' ok e = rw (e, validate_loop) refl

pub loop-goes_on :
    (fuel depth d : ℕ) (r r' : Reader)
    → (next r >>= λ s. turn depth s.0 s.1) ≡ some (go_on d r')
    → validate_loop (suc fuel) depth r ≡ validate_loop fuel d r'
unfolding validate_loop
loop-goes_on fuel depth d r r' e = rw (e, validate_loop) refl

-- The loop answers when there is fuel for what is ahead.
pub loop-answered :
    (fuel last depth pos : ℕ) (r : Reader)
    → Head last depth pos r
    → ahead last depth pos r < fuel
    → (ok : Bool) × (r' : Reader) × (validate_loop fuel depth r ≡ some (ok, r'))
loop-answered zero last depth pos r h k = absurd (omega arith)
loop-answered (suc fuel) last depth pos r h k = elim (round last depth pos r h) [
  | answered ok r' e ↦ (ok, r', loop-answers fuel depth r r' ok e)
  | went d pos' r' e h' less ↦
      let (ok, r2, f) = loop-answered fuel last d pos' r' h' (omega arith) in
      (ok, r2, loop-goes_on fuel depth d r r' e ∙ f)
]

module _ (buf : List ℕ) (size : ℕ) where
  validate-short : ltb size 5 ≡ true → validate buf size ≡ some false
  unfolding validate
  validate-short e = rw e

  validate-rejects :
      (n : ℕ)
      → ltb size 5 ≡ false
      → geti32 buf 0 ≡ some n
      → (slt32 n 0 || ltb size n) ≡ true
      → validate buf size ≡ some false
  unfolding validate
  validate-rejects n e f g = rw (e, f) (rw g refl)

  -- The reader at the start of a document of `n` bytes.
  abbrev pub at_start : ℕ → Reader
  at_start n = record (invalid buf) {
    cur_type = doc_begin;
    buf_offset = 4;
    cur_doc_begin = 4;
    cur_doc_end = n;
  }

  pub reader_lem :
      (n : ℕ)
      → ltb size 5 ≡ false
      → geti32 buf 0 ≡ some n
      → (slt32 n 0 || ltb size n) ≡ false
      → reader buf size ≡ some (at_start n)
  unfolding reader
  reader_lem n e f g = rw (e, f) (rw g refl)

  pub validate-reads :
      (n : ℕ) (ok : Bool) (r' : Reader)
      → ltb size 5 ≡ false
      → geti32 buf 0 ≡ some n
      → (slt32 n 0 || ltb size n) ≡ false
      → validate_reader (at_start n) ≡ some (ok, r')
      → validate buf size ≡ some ok
  unfolding validate
  validate-reads n ok r' e f g h = rw (e, f) (rw g (rw (reader_lem n e f g) (rw h refl)))

pub validate_reader-loop :
    (r : Reader) → validate_reader r ≡ validate_loop (suc (suc (2 * r.cur_doc_end))) 0 r
unfolding validate_reader
validate_reader-loop r = refl

size_lem : (n size : ℕ) → n < 2 ^ 32 → (slt32 n 0 || ltb size n) ≡ false → (n ≤ size) × (n < 2 ^ 31)
size_lem n size h e = ground arith

-- `validate` returns for every content of a buffer, well-formed or not, in which no four bytes in a
-- row are a number to which four or five cannot be added as an `int32_t` (2^31 - 5 and above), in at
-- most two rounds of its loop for each byte of the document and two more; no sum overflows, and it
-- reads no byte but the document's and the five behind it, which the buffer must hold.
pub validate-answers :
    (buf : List ℕ) (size : ℕ)
    → IsReadable buf
    → size + 5 ≤ length buf
    → size + 5 < 2 ^ 31
    → (ok : Bool) × (validate buf size ≡ some ok)
validate-answers buf size bytes room small = elim (Bool-cases (ltb size 5)) [
  | inl e ↦ (false, validate-short buf size e)
  | inr e ↦
      let (n, f, h) = geti32-lt buf 0 bytes.0 (omega arith) in
      elim (Bool-cases (slt32 n 0 || ltb size n)) [
        | inl g ↦ (false, validate-rejects buf size n e f g)
        | inr g ↦
            let (k, l) = size_lem n size h g in
            let (ok, r', a) =
              loop-answered (suc (suc (2 * n))) n 0 4 (at_start buf size n)
                (record {
                  bytes = bytes;
                  slack = omega arith;
                  small = omega arith;
                  live = refl;
                  skips = skip_value-begin buf 4;
                  near = omega arith;
                  ends = omega arith;
                  deep = refl;
                })
                (omega arith) in
            (
              ok,
              validate-reads buf size n ok r' e f g
                  (validate_reader-loop (at_start buf size n) ∙ a),
            )
      ]
]
