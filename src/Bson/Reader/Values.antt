-- ===== src/Bson/Reader/Values.antt =====
-- The numbers and the truth values at which `BsonReader` (core/src/util/bson_reader.cpp) stands, and
-- the start of a walk over a whole document.
use sc_api.Common.{
  ℕ, ◌+◌, ◌^◌, ◌<◌, ◌≡◌, refl, sym, ◌∙◌, ap, ◌%◌, drop, drop-append_self, List, [], ◌∷◌, ◌++◌, some,
  Bool, true, false, length, arith, append_assoc, length-append, get_elem?-append, ltb,
}
use sc_api.Bytes.{le_bytes, of_le, geti32}
use sc_api.Bytes.Laws.{length-le_bytes, read_bytes-append}
use sc_api.Bson.Types.{ElementType}
use sc_api.Bson.Layout.{document, length-document}
use sc_api.Bson.Value.{Value, Fields, value_bytes, elements, type_of, key_bytes}
use sc_api.Bson.Reader.{Reader, reader_of, reader}
use sc_api.Bson.Reader.Total.{at_start, reader_lem}
use sc_api.Bson.Reader.Get.{int32_value, bool_value}
use sc_api.Bson.Reader.Pass.{from_value, geti32-append}
use sc_api.Bson.Reader.Validate.{skip_value-begin}
use sc_api.Bson.Reader.Accept.{Begins}
use sc_api.Bson.Reader.Walk.{Visited}

-- The bytes of the value at which the reader stands, and those in front of it.
module _ (k : List ℕ) (v : Value) (fs : Fields) (pre post : List ℕ) (pos depth : ℕ) (r : Reader)
    (x : Visited k v fs pre post pos depth r) where
  abbrev front : List ℕ
  front = pre ++ key_bytes (type_of v) k

  abbrev tail : List ℕ
  tail = elements fs ++ (0 ∷ post)

  value_here : x.after.buffer ≡ front ++ (value_bytes v ++ tail)
  value_here =
      x.same.buffer
      ∙ from_value v k pre tail pos r x.before.holds x.before.clean x.before.here x.before.room
          x.before.small

  at_value : x.after.buf_offset ≡ length front
  at_value = omega (
    arith,
    x.at,
    x.before.here,
    length-append pre (key_bytes (type_of v) k),
    length-append k (0 ∷ []),
  )

  pub drop-value : drop x.after.buf_offset x.after.buffer ≡ value_bytes v ++ tail
  drop-value =
      rw value_here (drop-append_self x.after.buf_offset front (value_bytes v ++ tail) at_value)

of_le-wraps : (v : ℕ) → of_le (le_bytes 4 v) ≡ v % 2 ^ 32
unfolding of_le le_bytes
of_le-wraps v = omega arith

pub int32_value-number :
    (n : ℕ) (k : List ℕ) (fs : Fields) (pre post : List ℕ) (pos depth : ℕ) (r : Reader)
    (x : Visited k (Value.i32 n) fs pre post pos depth r)
    → int32_value x.after ≡ some (n % 2 ^ 32)
unfolding int32_value geti32 value_bytes
int32_value-number n k fs pre post pos depth r x =
    rw (value_here k (Value.i32 n) fs pre post pos depth r x) (
      rw
        (read_bytes-append (pre ++ key_bytes (type_of (Value.i32 n)) k) (le_bytes 4 n)
          (elements fs ++ (0 ∷ post)) x.after.buf_offset 4
          (at_value k (Value.i32 n) fs pre post pos depth r x) (sym (length-le_bytes 4 n)))
        (ap some (of_le-wraps n)))

pub bool_value-flag :
    (b : Bool) (k : List ℕ) (fs : Fields) (pre post : List ℕ) (pos depth : ℕ) (r : Reader)
    (x : Visited k (Value.boolean b) fs pre post pos depth r)
    → bool_value x.after ≡ some b
unfolding bool_value value_bytes
bool_value-flag true k fs pre post pos depth r x =
    let v = Value.boolean true in
    rw
      (
        value_here k v fs pre post pos depth r x,
        get_elem?-append (pre ++ key_bytes (type_of v) k) (elements fs ++ (0 ∷ post)) 1
            x.after.buf_offset (at_value k v fs pre post pos depth r x),
      )
      refl
bool_value-flag false k fs pre post pos depth r x =
    let v = Value.boolean false in
    rw
      (
        value_here k v fs pre post pos depth r x,
        get_elem?-append (pre ++ key_bytes (type_of v) k) (elements fs ++ (0 ∷ post)) 0
            x.after.buf_offset (at_value k v fs pre post pos depth r x),
      )
      refl

-- The reader of a document's bytes is at its first element.
pub record Started (fs : Fields) (post : List ℕ) : Type 0 where
  pub first : Reader
  pub built : reader_of (document (elements fs) ++ post) ≡ some first
  pub checked :
      reader (document (elements fs) ++ post) (length (document (elements fs))) ≡ some first
  pub front : List ℕ
  pub begins : Begins fs front post 4 0 first
  pub ends : first.cur_doc_end ≡ length (elements fs) + 5
  pub opens : first.cur_type ≡ ElementType.doc_begin
  pub starts : first.cur_doc_begin ≡ 4

pub started : (fs : Fields) (post : List ℕ) → length (elements fs) + 5 < 2 ^ 31 → Started fs post
unfolding reader_of
started fs post small =
    let body : List ℕ = elements fs in
    let n : ℕ = length body + 5 in
    let buf : List ℕ = document body ++ post in
    let whole : buf ≡ le_bytes 4 n ++ (body ++ (0 ∷ post)) =
      append_assoc (le_bytes 4 n) (body ++ (0 ∷ [])) post
      ∙ ap (λ l. le_bytes 4 n ++ l) (append_assoc body (0 ∷ []) post) in
    let size : geti32 buf 0 ≡ some n =
      ap (λ l. geti32 l 0) whole ∙ geti32-append [] (body ++ (0 ∷ post)) 0 n refl (omega arith) in
    let big : ltb n 5 ≡ false = ground arith in
    record {
      first = at_start buf n n;
      built = rw (size, big) refl;
      checked =
          ap (reader buf) (length-document body)
          ∙ reader_lem buf n n big size (ground (arith, small));
      front = le_bytes 4 n;
      begins = record {
        holds = whole;
        here = sym (length-le_bytes 4 n);
        room = omega arith;
        small = small;
        live = refl;
        skips = skip_value-begin buf 4;
        deep = refl;
      };
      ends = refl;
      opens = refl;
      starts = refl;
    }
