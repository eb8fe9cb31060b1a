-- ===== src/Bson/Reader/Next.antt =====
-- What `next` of `BsonReader` (core/src/util/bson_reader.cpp) does where five bytes can be read
-- behind the document.
use sc_api.Common.{
  ℕ, suc, ◌+◌, ◌-◌, ◌^◌, ◌≤◌, ◌<◌, ◌≡◌, refl, ◌∙◌, inl, inr, Option, some, Bool, true, false,
  length, arith, take, drop, if◌then◌else◌, Bool-cases, get_elem?, ltb, ◌||◌,
}
use sc_api.Bytes.{add32, slt32, sle32, bias32}
use sc_api.Bson.Types.{ElementType, finished, format_error}
use sc_api.Bson.Reader.{
  Reader, skip_value, value_size, classify, is_end, stays, check_value, read_element, enter, next,
  read_key, fail,
}
use sc_api.Bson.Reader.Key.{get_elem?-some, found, missing, read_key-Scanned}
use sc_api.Bson.Reader.Value.{
  IsReadable, IsElement, from_byte, from_byte-classify, value_size-lt, value_size-IsElement,
}

-- What `next` leaves alone.
pub record Same (r r1 : Reader) : Type 0 where
  pub buffer : r1.buffer ≡ r.buffer
  pub layers : r1.doc_layers ≡ r.doc_layers
  pub doc_end : r1.cur_doc_end ≡ r.cur_doc_end

-- The answers of `next` from the byte at `pos` on: the end of the document; an error; or an element,
-- whose value begins behind `pos` and ends in the document.
pub data Stepped (pos : ℕ) (r : Reader) (res : Option (ElementType × Reader)) : Type 0 where
  ended : (r1 : Reader) → res ≡ some (finished, r1) → Same r r1 → Stepped pos r res
  failed : (r1 : Reader) → res ≡ some (format_error, r1) → Stepped pos r res
  element :
      (t : ElementType) (r1 : Reader) (n : ℕ)
      → res ≡ some (t, r1)
      → r1.cur_type ≡ t
      → IsElement t
      → Same r r1
      → pos + 2 ≤ r1.buf_offset
      → value_size t r1.buffer r1.buf_offset ≡ some n
      → n < 2 ^ 31
      → r1.buf_offset + n ≤ r1.cur_doc_end
      → Stepped pos r res

-- What a reader needs of its buffer.
pub record Readable (r : Reader) : Type 0 where
  pub bytes : IsReadable r.buffer
  pub slack : r.cur_doc_end + 5 ≤ length r.buffer
  pub small : r.cur_doc_end + 5 < 2 ^ 31

abbrev pub too_big : ℕ → Reader → Bool
too_big n r = slt32 n 0 || ltb (bias32 r.cur_doc_end) (bias32 r.buf_offset + n)

check_value-fails :
    (t : ElementType) (r : Reader) (n : ℕ)
    → value_size t r.buffer r.buf_offset ≡ some n
    → too_big n r ≡ true
    → check_value t r ≡ fail r
unfolding check_value
check_value-fails t r n e f = rw e (rw f)

pub check_value-passes :
    (t : ElementType) (r : Reader) (n : ℕ)
    → value_size t r.buffer r.buf_offset ≡ some n
    → too_big n r ≡ false
    → check_value t r
      ≡ some (
        t,
        record r {
          arr_index = if sle32 (2 ^ 32 - 1) r.arr_index then add32 r.arr_index 1 else r.arr_index;
        },
      )
unfolding check_value
check_value-passes t r n e f = rw e (rw f)

check_value-Stepped :
    (t : ElementType) (pos : ℕ) (r : Reader)
    → from_byte t ≡ true
    → is_end t ≡ false
    → Readable r
    → r.cur_type ≡ t
    → pos + 2 ≤ r.buf_offset
    → r.buf_offset ≤ r.cur_doc_end
    → Stepped pos r (check_value t r)
check_value-Stepped t pos r from live b same behind low =
    let (n, e, h) = value_size-lt t r.buffer r.buf_offset b.bytes (omega (arith, b.slack)) in
    let small : r.cur_doc_end + 5 < 2 ^ 31 = b.small in
    elim (Bool-cases (too_big n r)) [
      | inl f ↦ failed _ (check_value-fails t r n e f)
      | inr f ↦
          let (k, fits) = size_lem n r.cur_doc_end r.buf_offset h (omega arith) (omega arith) f in
          element t _ n (check_value-passes t r n e f) same
            (value_size-IsElement t r.buffer r.buf_offset n from live e k)
            (record { buffer = refl; layers = refl; doc_end = refl }) behind e k fits
    ]
  where
    size_lem :
        (n end off : ℕ)
        → n < 2 ^ 32
        → end < 2 ^ 31
        → off < 2 ^ 31
        → (slt32 n 0 || ltb (bias32 end) (bias32 off + n)) ≡ false
        → (n < 2 ^ 31) × (off + n ≤ end)
    size_lem n end off h k l f = ground arith

read_element-fails :
    (t : ElementType) (r : Reader) (stop : ℕ)
    → read_key (suc (r.cur_doc_end - r.buf_offset)) r.buffer r.cur_doc_end r.buf_offset
      ≡ some (false, stop)
    → read_element t r ≡ fail (record r { buf_offset = stop })
unfolding read_element
read_element-fails t r stop e = rw e

-- The reader behind the key.
abbrev pub keyed : Reader → ℕ → Reader
keyed r stop = record r {
  buf_offset = add32 stop 1;
  key = take (stop - r.buf_offset) (drop r.buf_offset r.buffer);
}

pub read_element-checks :
    (t : ElementType) (r : Reader) (stop : ℕ)
    → read_key (suc (r.cur_doc_end - r.buf_offset)) r.buffer r.cur_doc_end r.buf_offset
      ≡ some (true, stop)
    → read_element t r ≡ check_value t (keyed r stop)
unfolding read_element
read_element-checks t r stop e = rw e

-- The answer is about the reader before, whose key and offsets differ.
Stepped-from :
    {pos : ℕ} {r r' : Reader} {res res' : Option (ElementType × Reader)}
    → r'.buffer ≡ r.buffer
    → r'.doc_layers ≡ r.doc_layers
    → r'.cur_doc_end ≡ r.cur_doc_end
    → res' ≡ res
    → Stepped pos r' res
    → Stepped pos r res'
Stepped-from b l d e (ended r1 f s) =
    ended r1 (e ∙ f)
      (record { buffer = s.buffer ∙ b; layers = s.layers ∙ l; doc_end = s.doc_end ∙ d })
Stepped-from b l d e (failed r1 f) = failed r1 (e ∙ f)
Stepped-from b l d e (element t r1 n f c i s h v k w) =
    element t r1 n (e ∙ f) c i
      (record { buffer = s.buffer ∙ b; layers = s.layers ∙ l; doc_end = s.doc_end ∙ d }) h v k w

read_element-Stepped :
    (t : ElementType) (pos : ℕ) (r : Reader)
    → from_byte t ≡ true
    → is_end t ≡ false
    → Readable r
    → r.cur_type ≡ t
    → r.buf_offset ≡ pos + 1
    → pos + 1 < 2 ^ 31
    → Stepped pos r (read_element t r)
read_element-Stepped t pos r from live b same at low =
    elim (read_key-Scanned (suc (r.cur_doc_end - r.buf_offset)) r.buffer r.cur_doc_end r.buf_offset
      (omega arith) (omega (arith, b.small)) (omega arith) (omega (arith, b.slack))) [
        | missing stop e ↦ failed _ (read_element-fails t r stop e)
        | found stop e h k ↦ Stepped-from refl refl refl (read_element-checks t r stop e) (
            check_value-Stepped t pos (keyed r stop) from live
              (record { bytes = b.bytes; slack = b.slack; small = b.small }) same
              (omega (arith, b.small)) (omega (arith, b.small)))
      ]

pub enter-ends :
    (t : ElementType) (off : ℕ) (r : Reader)
    → is_end t ≡ true
    → enter t off r
      ≡ some (
        finished,
        record r { buf_offset = add32 off 1; element_start_offset = off; cur_type = t },
      )
unfolding enter
enter-ends t off r e = rw e

pub enter-reads :
    (t : ElementType) (off : ℕ) (r : Reader)
    → is_end t ≡ false
    → enter t off r
      ≡ read_element t
          (record r { buf_offset = add32 off 1; element_start_offset = off; cur_type = t })
unfolding enter
enter-reads t off r e = rw e

pub next-enters :
    (r : Reader) (pos b : ℕ)
    → stays r.cur_type ≡ false
    → skip_value r.cur_type r.buffer r.buf_offset ≡ some pos
    → get_elem? r.buffer pos ≡ some b
    → next r ≡ enter (classify b) pos r
unfolding next
next-enters r pos b e f g = rw (e) (rw f (rw g))

-- `next` never leaves the buffer when the next element's first byte is at most four bytes behind
-- the document.
pub next-Stepped :
    (r : Reader) (pos : ℕ)
    → Readable r
    → stays r.cur_type ≡ false
    → skip_value r.cur_type r.buffer r.buf_offset ≡ some pos
    → pos ≤ r.cur_doc_end + 4
    → Stepped pos r (next r)
next-Stepped r pos b live skips near =
    let (x, e) = get_elem?-some r.buffer pos (omega (arith, b.slack)) in
    let one : add32 pos 1 ≡ pos + 1 = omega (arith, b.small) in
    let enters : next r ≡ enter (classify x) pos r = next-enters r pos x live skips e in
    elim (Bool-cases (is_end (classify x))) [
      | inl f ↦
          ended _ (enters ∙ enter-ends (classify x) pos r f)
            (record { buffer = refl; layers = refl; doc_end = refl })
      | inr f ↦ Stepped-from refl refl refl (enters ∙ enter-reads (classify x) pos r f) (
          read_element-Stepped (classify x) pos _ (from_byte-classify x) f
            (record { bytes = b.bytes; slack = b.slack; small = b.small }) refl one
            (omega (arith, b.small)))
    ]
