-- ===== src/Bson/Reader/Walk.antt =====
-- Walking over the elements of a document with `BsonReader` (core/src/util/bson_reader.cpp): one
-- element after the other, into a sub-document and out of it.
use sc_api.Common.{
  ℕ, suc, ◌+◌, ◌*◌, ◌^◌, ◌≤◌, ◌<◌, ◌≡◌, refl, sym, ◌∙◌, ap, ap₂, ◌%◌, ◌-◌, List, [], ◌∷◌, ◌++◌,
  some, true, false, length, arith, All, ◌==◌, append_assoc, length-append,
}
use sc_api.Bytes.{le_bytes, geti32, read_bytes}
use sc_api.Bytes.Laws.{length-le_bytes, read_bytes-append}
use sc_api.Bson.Builder.Elements.{size_of_i32}
use sc_api.Bson.Reader.Get.{string_value}
use sc_api.Bson.Types.{ElementType, finished}
use sc_api.Bson.Layout.{length-document}
use sc_api.Bson.Value.{Value, Fields, end, field, value_bytes, elements, type_of, key_bytes}
use sc_api.Bson.Reader.{Reader, next, begin_sub, end_sub, has_sub, stays}
use sc_api.Bson.Reader.Next.{Same}
use sc_api.Bson.Reader.Validate.{opened, skip_value-begin}
use sc_api.Bson.Reader.Pass.{IsNonZero, sized, from_value, geti32-append}
use sc_api.Bson.Reader.Cross.{terminated, next-end}
use sc_api.Bson.Reader.Accept.{
  Before, Begins, passed, passed_key, inner, inner-Begins, size_lem, end_lem, p, p_lem,
}

abbrev pub element_bytes : List ℕ → Value → List ℕ
element_bytes k v = key_bytes (type_of v) k ++ value_bytes v

-- How many elements a document has.
unfoldable pub count : Fields → ℕ
count end = 0
count (field k v fs) = suc (count fs)

pub count-le : (fs : Fields) → 2 * count fs ≤ length (elements fs)
unfolding count elements
count-le end = omega arith
count-le (field k v fs) = omega (
  arith,
  count-le fs,
  length-append (key_bytes (type_of v) k ++ value_bytes v) (elements fs),
  length-append (key_bytes (type_of v) k) (value_bytes v),
  length-append k (0 ∷ []),
)

-- The reader at an element, and the elements behind it.
pub record Visited (k : List ℕ) (v : Value) (fs : Fields) (pre post : List ℕ) (pos depth : ℕ)
    (r : Reader) : Type 0 where
  pub before : Before v k pre (elements fs ++ (0 ∷ post)) pos depth r
  pub after : Reader
  pub result : next r ≡ some (type_of v, after)
  pub same : Same r after
  pub type : after.cur_type ≡ type_of v
  pub at : after.buf_offset ≡ pos + (length k + 2)
  pub key : after.key ≡ k
  pub doc_begin : after.cur_doc_begin ≡ r.cur_doc_begin
  pub is_passed : after ≡ (passed v k pre (elements fs ++ (0 ∷ post)) pos depth r before).after
  pub others :
      Begins fs
        (pre ++ element_bytes k v)
        post
        (pos + (length k + 2) + length (value_bytes v))
        depth
        after

type_of-live : (v : Value) → stays (type_of v) ≡ false
type_of-live (Value.boolean x) = refl
type_of-live (Value.double x) = refl
type_of-live (Value.i32 x) = refl
type_of-live (Value.i64 x) = refl
type_of-live Value.null = refl
type_of-live (Value.str s) = refl
type_of-live (Value.binary s t) = refl
type_of-live (Value.doc fs) = refl

module _ (k : List ℕ) (v : Value) (fs : Fields) (pre post : List ℕ) (pos depth : ℕ) (r : Reader)
    (b : Begins (field k v fs) pre post pos depth r) where
  abbrev one : List ℕ
  one = element_bytes k v

  length-one : length one ≡ length (value_bytes v) + (length k + 2)
  length-one =
      omega
        (arith, length-append (key_bytes (type_of v) k) (value_bytes v), length-append k (0 ∷ []))

  whole : r.buffer ≡ pre ++ (one ++ (elements fs ++ (0 ∷ post)))
  unfolding elements
  whole = b.holds ∙ ap (λ l. pre ++ l) (append_assoc one (elements fs) (0 ∷ post))

  room_lem :
      pos + (length k + 2) + length (value_bytes v) + length (elements fs) + 1 ≤ r.cur_doc_end
  unfolding elements
  room_lem = omega (arith, b.room, length-one, length-append one (elements fs))

  pub visit : All IsNonZero k → Visited k v fs pre post pos depth r
  visit clean =
      let before : Before v k pre (elements fs ++ (0 ∷ post)) pos depth r = record {
        holds = whole;
        clean = clean;
        here = b.here;
        room = omega (arith, room_lem);
        small = b.small;
        live = b.live;
        skips = b.skips;
        deep = b.deep;
      } in
      let p = passed v k pre (elements fs ++ (0 ∷ post)) pos depth r before in
      let size =
        sized v k pre (elements fs ++ (0 ∷ post)) pos r before.holds before.clean before.here
          before.room before.small in
      record {
        before = before;
        after = p.after;
        result = p.result;
        same = p.same;
        type = p.type;
        at = p.at;
        doc_begin = p.doc_begin;
        key = passed_key v k pre (elements fs ++ (0 ∷ post)) pos depth r before;
        is_passed = refl;
        others = record {
          holds = p.same.buffer ∙ whole ∙ sym (append_assoc pre one (elements fs ++ (0 ∷ post)));
          here = omega (arith, b.here, length-append pre one, length-one);
          room = omega (arith, room_lem, p.same.doc_end);
          small = omega (arith, b.small, p.same.doc_end);
          live = rw (p.type) (type_of-live v);
          skips = rw (p.type, p.at, p.same.buffer) size.skips;
          deep = ap length p.same.layers ∙ b.deep;
        };
      }

-- A reader at the end of a document's elements.
pub finish_walk :
    (pre post : List ℕ) (pos depth : ℕ) (r : Reader)
    → Begins end pre post pos depth r
    → next r ≡ some (finished, terminated r pos)
unfolding elements
finish_walk pre post pos depth r b = next-end r pos pre post b.holds b.here b.live b.skips

begin_sub-opens :
    (n : ℕ) (r : Reader)
    → has_sub r.cur_type ≡ true
    → (length r.doc_layers == 16) ≡ false
    → geti32 r.buffer r.buf_offset ≡ some n
    → begin_sub r ≡ some (true, opened r n)
unfolding begin_sub
begin_sub-opens n r e f g = rw (e, f) (rw g refl)

-- A reader in the sub-document, which comes back to the elements behind it.
pub record Entered (sub fs : Fields) (k pre post : List ℕ) (pos depth : ℕ) (after : Reader)
    : Type 0 where
  pub inside : Reader
  pub enters : begin_sub after ≡ some (true, inside)
  pub front : List ℕ
  pub back : List ℕ
  pub begins : Begins sub front back (pos + (length k + 2) + 4) (suc depth) inside
  pub leaves :
      (r' : Reader)
      → Same inside r'
      → (r'' : Reader) × (end_sub r' ≡ (true, r''))
        × Same after r''
        × Begins fs
            (pre ++ element_bytes k (Value.doc sub))
            post
            (pos + (length k + 2) + length (value_bytes (Value.doc sub)))
            depth
            r''

-- The reader behind a sub-document.
abbrev outside : Reader → Reader → Reader
outside after r' = record r' {
  buf_offset = r'.cur_doc_end;
  cur_doc_end = after.cur_doc_end;
  arr_index = after.arr_index;
  doc_layers = after.doc_layers;
  cur_type = ElementType.doc_begin;
}

module _ (sub fs : Fields) (k pre post : List ℕ) (pos depth : ℕ) (r : Reader)
    (v : Visited k (Value.doc sub) fs pre post pos depth r) (shallow : depth < 16) where
  abbrev rest : List ℕ
  rest = elements fs ++ (0 ∷ post)

  abbrev q : Reader
  q = (p sub k pre rest pos depth r v.before shallow).after

  q_lem : v.after ≡ q
  q_lem = v.is_passed ∙ sym (p_lem sub k pre rest pos depth r v.before shallow)

  leave :
      (r' : Reader)
      → Same (inner sub k pre rest pos depth r v.before shallow) r'
      → (r'' : Reader) × (end_sub r' ≡ (true, r''))
        × Same q r''
        × Begins fs
            (pre ++ element_bytes k (Value.doc sub))
            post
            (pos + (length k + 2) + length (value_bytes (Value.doc sub)))
            depth
            r''
  unfolding end_sub value_bytes
  leave r' s =
      let o = v.others in
      (
        outside q r',
        rw (s.layers) refl,
        record { buffer = s.buffer; layers = refl; doc_end = refl },
        record {
          holds = s.buffer ∙ ap (λ (x : Reader). x.buffer) (sym q_lem) ∙ o.holds;
          here = o.here;
          room = omega (arith, o.room, ap (λ (x : Reader). x.cur_doc_end) q_lem);
          small = omega (arith, o.small, ap (λ (x : Reader). x.cur_doc_end) q_lem);
          live = refl;
          skips =
              skip_value-begin r'.buffer r'.cur_doc_end
              ∙ ap some (
                  s.doc_end
                  ∙ end_lem sub k pre rest pos depth r v.before shallow
                  ∙ omega (arith, length-document (elements sub)));
          deep = ap (λ (x : Reader). length x.doc_layers) (sym q_lem) ∙ o.deep;
        },
      )

  pub enter_sub : Entered sub fs k pre post pos depth v.after
  enter_sub = rw q_lem (record {
    inside = inner sub k pre rest pos depth r v.before shallow;
    enters =
        begin_sub-opens (length (elements sub) + 5) q
          (ap (λ (x : Reader). has_sub x.cur_type) (sym q_lem) ∙ ap has_sub v.type)
          (ground (arith, v.others.deep, ap (λ (x : Reader). length x.doc_layers) q_lem))
          (size_lem sub k pre rest pos depth r v.before shallow);
    front = _;
    back = rest;
    begins = inner-Begins sub k pre rest pos depth r v.before shallow;
    leaves = leave;
  })

-- The text at which the reader stands.
module _ (text k : List ℕ) (fs : Fields) (pre post : List ℕ) (pos depth : ℕ) (r : Reader)
    (v : Visited k (Value.str text) fs pre post pos depth r) where
  abbrev size : ℕ
  size = length text + 1

  abbrev front : List ℕ
  front = pre ++ key_bytes ElementType.str k

  abbrev tail : List ℕ
  tail = elements fs ++ (0 ∷ post)

  length-front : length front ≡ pos + (length k + 2)
  length-front = omega (
    arith,
    v.before.here,
    length-append pre (key_bytes ElementType.str k),
    length-append k (0 ∷ []),
  )

  from_text : v.after.buffer ≡ front ++ (le_bytes 4 size ++ (text ++ (0 ∷ tail)))
  unfolding value_bytes
  from_text =
      v.same.buffer
      ∙ from_value (Value.str text) k pre tail pos r v.before.holds v.before.clean v.before.here
          v.before.room v.before.small
      ∙ ap (λ l. front ++ l)
          (append_assoc (le_bytes 4 size) (text ++ (0 ∷ [])) tail
            ∙ ap (λ l. le_bytes 4 size ++ l) (append_assoc text (0 ∷ []) tail))

  size_lt : size < 2 ^ 31
  unfolding value_bytes
  size_lt = omega (
    arith,
    v.before.room,
    v.before.small,
    length-append (le_bytes 4 size) (text ++ (0 ∷ [])),
    length-append text (0 ∷ []),
  )

  pub string_value-text : string_value v.after ≡ some text
  unfolding string_value
  string_value-text =
      let at = pos + (length k + 2) in
      let sized : geti32 v.after.buffer v.after.buf_offset ≡ some size =
        ap₂ geti32 from_text v.at
        ∙ geti32-append front (text ++ (0 ∷ tail)) at size (sym length-front)
            (omega (arith, size_lt)) in
      let n : size_of_i32 ((size + 2 ^ 32 - 1) % 2 ^ 32) ≡ length text = ground (arith, size_lt) in
      let body : read_bytes v.after.buffer (v.after.buf_offset + 4) (length text) ≡ some text =
        ap₂ (λ l o. read_bytes l o (length text))
          (from_text ∙ sym (append_assoc front (le_bytes 4 size) (text ++ (0 ∷ tail))))
          (ap (λ (o : ℕ). o + 4) v.at)
        ∙ read_bytes-append (front ++ le_bytes 4 size) text (0 ∷ tail) (at + 4) (length text)
            (omega
              (arith, length-front, length-append front (le_bytes 4 size), length-le_bytes 4 size))
            refl in
      rw sized (ap (read_bytes v.after.buffer (v.after.buf_offset + 4)) n ∙ body)
