-- ===== src/Bson/Reader/Validate.antt =====
-- A round of `validate` of `BsonReader` (core/src/util/bson_reader.cpp), on an element.
use sc_api.Common.{
  ℕ, suc, ◌+◌, ◌-◌, ◌*◌, ◌^◌, ◌≤◌, ◌<◌, ◌≡◌, refl, ◌∙◌, ap, inl, inr, List, [], ◌∷◌, Option, some,
  Bool, true, false, length, arith, Bool-cases, ◌==◌,
}
use sc_api.Bytes.{add32, geti32}
use sc_api.Bson.Types.{
  ElementType, double, str, doc, array, binary, boolean, null, i32, i64, finished, unsupported,
  format_error, doc_begin,
}
use sc_api.Bson.Reader.{
  Reader, DocState, Turn, answer, go_on, skip_value, value_size, stays, begin_sub, end_sub, has_sub,
  first_index, open_sub, close_sub, turn,
}
use sc_api.Bson.Reader.Value.{IsReadable, IsElement, skip_value-within}
use sc_api.Bson.Reader.Next.{Same}

-- Every open document ends in the one around it, and the outermost no later than `last`.
abbrev pub Ends : ℕ → ℕ → List DocState → Type 0
Ends last end [] = end ≤ last
Ends last end (l ∷ outer) = (end ≤ l.end_offset) × Ends last l.end_offset outer

pub Ends-le : (last end : ℕ) (layers : List DocState) → Ends last end layers → end ≤ last
Ends-le last end [] h = h
Ends-le last end (l ∷ outer) h = omega (arith, Ends-le last l.end_offset outer h.1, h.0)

-- A reader at the head of the loop: `pos` is where the next element begins.
pub record Head (last depth pos : ℕ) (r : Reader) : Type 0 where
  pub bytes : IsReadable r.buffer
  pub slack : last + 5 ≤ length r.buffer
  pub small : last + 5 < 2 ^ 31
  pub live : stays r.cur_type ≡ false
  pub skips : skip_value r.cur_type r.buffer r.buf_offset ≡ some pos
  pub near : pos ≤ r.cur_doc_end + 4
  pub ends : Ends last r.cur_doc_end r.doc_layers
  pub deep : length r.doc_layers ≡ depth

-- What a round makes less: the bytes ahead, those behind the current document among them, twice,
-- and the open documents.
abbrev pub ahead : ℕ → ℕ → ℕ → Reader → ℕ
ahead last depth pos r = 2 * (last - r.cur_doc_end) + 2 * (r.cur_doc_end - pos) + depth + 1

pub data Turned (last depth pos : ℕ) (r : Reader) (res : Option Turn) : Type 0 where
  answered : (ok : Bool) (r' : Reader) → res ≡ some (answer ok r') → Turned last depth pos r res
  went :
      (d pos' : ℕ) (r' : Reader)
      → res ≡ some (go_on d r')
      → Head last d pos' r'
      → ahead last d pos' r' < ahead last depth pos r
      → Turned last depth pos r res

-- The reader in a document of `n` bytes.
abbrev pub opened : Reader → ℕ → Reader
opened r n = record r {
  doc_layers =
      record { begin_offset = r.cur_doc_begin; end_offset = r.cur_doc_end; arr_index = r.arr_index }
      ∷ r.doc_layers;
  cur_doc_end = add32 r.buf_offset n;
  buf_offset = add32 r.buf_offset 4;
  cur_doc_begin = add32 r.buf_offset 4;
  arr_index = first_index r.cur_type;
  cur_type = doc_begin;
}

open_sub-full :
    (depth : ℕ) (r : Reader)
    → has_sub r.cur_type ≡ true
    → (length r.doc_layers == 16) ≡ true
    → open_sub depth r ≡ some (answer false r)
unfolding open_sub begin_sub
open_sub-full depth r e f = rw (e, f) refl

pub open_sub-opens :
    (depth n : ℕ) (r : Reader)
    → has_sub r.cur_type ≡ true
    → (length r.doc_layers == 16) ≡ false
    → geti32 r.buffer r.buf_offset ≡ some n
    → open_sub depth r ≡ some (go_on (suc depth) (opened r n))
unfolding open_sub begin_sub
open_sub-opens depth n r e f g = rw (e, f) (rw g refl)

pub close_sub-closes :
    (depth : ℕ) (r : Reader) (l : DocState) (outer : List DocState)
    → r.doc_layers ≡ l ∷ outer
    → close_sub (suc depth) r
      ≡ go_on depth (record r {
        buf_offset = r.cur_doc_end;
        cur_doc_end = l.end_offset;
        arr_index = l.arr_index;
        doc_layers = outer;
        cur_type = doc_begin;
      })
unfolding close_sub end_sub
close_sub-closes depth r l outer e = rw e refl

pub skip_value-begin : (buf : List ℕ) (off : ℕ) → skip_value doc_begin buf off ≡ some off
unfolding skip_value
skip_value-begin buf off = refl

module _ (last depth pos : ℕ) (r : Reader) (h : Head last depth pos r) (r1 : Reader)
    (same : Same r r1) where
  ends1 : Ends last r1.cur_doc_end r1.doc_layers
  ends1 = rw (same.doc_end, same.layers) h.ends

  abbrev m : ℕ
  m = ahead last depth pos r

  -- After a scalar the next element begins behind its value.
  scalar-Turned :
      (t : ElementType) (n : ℕ)
      → turn depth t r1 ≡ some (go_on depth r1)
      → stays t ≡ false
      → r1.cur_type ≡ t
      → IsElement t
      → pos + 2 ≤ r1.buf_offset
      → value_size t r1.buffer r1.buf_offset ≡ some n
      → n < 2 ^ 31
      → r1.buf_offset + n ≤ r1.cur_doc_end
      → Turned last depth pos r (turn depth t r1)
  scalar-Turned t n e live c i behind v k within =
      let low : r1.cur_doc_end ≤ last = Ends-le last r1.cur_doc_end r1.doc_layers ends1 in
      let bytes1 : IsReadable r1.buffer = rw (same.buffer) h.bytes in
      let slack1 : last + 5 ≤ length r1.buffer = rw (same.buffer) h.slack in
      let (p, f, ge, le) =
        skip_value-within t r1.buffer r1.buf_offset n r1.cur_doc_end i v k within
          (omega (arith, h.small)) in
      went depth p r1 e
        (record {
          bytes = bytes1;
          slack = slack1;
          small = h.small;
          live = rw c live;
          skips = rw c f;
          near = omega arith;
          ends = ends1;
          deep = ap length same.layers ∙ h.deep;
        })
        (omega (arith, same.doc_end))

  sub-Turned :
      (t : ElementType) (n : ℕ)
      → turn depth t r1 ≡ open_sub depth r1
      → has_sub t ≡ true
      → r1.cur_type ≡ t
      → pos + 2 ≤ r1.buf_offset
      → geti32 r1.buffer r1.buf_offset ≡ some n
      → n < 2 ^ 31
      → r1.buf_offset + n ≤ r1.cur_doc_end
      → Turned last depth pos r (turn depth t r1)
  sub-Turned t n e has c behind v k within =
      let low : r1.cur_doc_end ≤ last = Ends-le last r1.cur_doc_end r1.doc_layers ends1 in
      let has1 : has_sub r1.cur_type ≡ true = rw c has in
      let small : last + 5 < 2 ^ 31 = h.small in
      let four : add32 r1.buf_offset 4 ≡ r1.buf_offset + 4 = omega arith in
      let stop : add32 r1.buf_offset n ≡ r1.buf_offset + n = omega arith in
      elim (Bool-cases (length r1.doc_layers == 16)) [
        | inl f ↦ answered false r1 (e ∙ open_sub-full depth r1 has1 f)
        | inr f ↦
            went (suc depth) (add32 r1.buf_offset 4) (opened r1 n)
              (e ∙ open_sub-opens depth n r1 has1 f v)
              (record {
                bytes = rw (same.buffer) h.bytes;
                slack = rw (same.buffer) h.slack;
                small = h.small;
                live = refl;
                skips = skip_value-begin r1.buffer (add32 r1.buf_offset 4);
                near = omega arith;
                ends = (omega arith, ends1);
                deep = ap suc (ap length same.layers ∙ h.deep);
              })
              (omega (arith, same.doc_end))
      ]

  pub element-Turned :
      (t : ElementType) (n : ℕ)
      → r1.cur_type ≡ t
      → IsElement t
      → pos + 2 ≤ r1.buf_offset
      → value_size t r1.buffer r1.buf_offset ≡ some n
      → n < 2 ^ 31
      → r1.buf_offset + n ≤ r1.cur_doc_end
      → Turned last depth pos r (turn depth t r1)
  unfolding turn value_size
  element-Turned double n c i b v k w = scalar-Turned double n refl refl c i b v k w
  element-Turned str n c i b v k w = scalar-Turned str n refl refl c i b v k w
  element-Turned doc n c i b v k w = sub-Turned doc n refl refl c b v k w
  element-Turned array n c i b v k w = sub-Turned array n refl refl c b v k w
  element-Turned binary n c i b v k w = scalar-Turned binary n refl refl c i b v k w
  element-Turned boolean n c i b v k w = scalar-Turned boolean n refl refl c i b v k w
  element-Turned null n c i b v k w = scalar-Turned null n refl refl c i b v k w
  element-Turned i32 n c i b v k w = scalar-Turned i32 n refl refl c i b v k w
  element-Turned i64 n c i b v k w = scalar-Turned i64 n refl refl c i b v k w
  element-Turned finished n c i b v k w = absurd i
  element-Turned unsupported n c i b v k w = absurd i
  element-Turned format_error n c i b v k w = absurd i
  element-Turned doc_begin n c i b v k w = absurd i
