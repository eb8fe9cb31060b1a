-- ===== src/Bson/Reader/Pass.antt =====
-- `BsonReader::next` (core/src/util/bson_reader.cpp) on an element of a well-formed document.
use sc_api.Common.{
  ◌>>=◌, get_elem?-append, take, drop, drop-append_self, take-append_self, ℕ, zero, suc, ◌+◌, ◌-◌,
  ◌^◌, ◌≤◌, ◌<◌, ◌≡◌, refl, sym, ◌∙◌, ap, List, [], ◌∷◌, ◌++◌, Option, some, true, false, length,
  arith, All, get_elem?, append_assoc, length-append,
}
use sc_api.Bytes.{add_int32, le_bytes, add32, geti32}
use sc_api.Bytes.Laws.{add_int32-is, read_bytes-append, of_le-le_bytes_four, length-le_bytes}
use sc_api.Bson.Types.{ElementType, code, str, binary}
use sc_api.Bson.Layout.{document, length-document}
use sc_api.Bson.Value.{Value, value_bytes, elements, type_of, key_bytes}
use sc_api.Bson.Reader.{
  Reader, skip_value, value_size, stays, is_end, next, enter, read_key, classify,
}
use sc_api.Bson.Reader.Key.{read_key-ends, read_key-next}
use sc_api.Bson.Reader.Next.{
  Same, check_value-passes, read_element-checks, enter-reads, next-enters, too_big, keyed,
}

abbrev pub IsNonZero : ℕ → Type 0
IsNonZero b = 0 < b

pub geti32-append :
    (pre post : List ℕ) (off n : ℕ)
    → off ≡ length pre
    → n < 2 ^ 32
    → geti32 (pre ++ (le_bytes 4 n ++ post)) off ≡ some n
unfolding geti32
geti32-append pre post off n e h =
    rw (read_bytes-append pre (le_bytes 4 n) post off 4 e (sym (length-le_bytes 4 n)))
      (ap some (of_le-le_bytes_four n h))

-- The scan stops at the zero behind a key without zeros.
read_key-append :
    (fuel : ℕ) (pre k post : List ℕ) (end off : ℕ)
    → All IsNonZero k
    → off ≡ length pre
    → off + length k < end
    → end < 2 ^ 31
    → length k < fuel
    → read_key fuel (pre ++ (k ++ (0 ∷ post))) end off ≡ some (true, off + length k)
read_key-append zero pre k post end off c e h small f = absurd (omega arith)
read_key-append (suc fuel) pre [] post end off c e h small f =
    read_key-ends fuel (pre ++ (0 ∷ post)) end off 0 (ground arith)
      (get_elem?-append pre post 0 off e) refl
    ∙ ap (λ n. some (true, n)) (omega arith)
read_key-append (suc fuel) pre (x ∷ k) post end off c e h small f =
    let one : add32 off 1 ≡ off + 1 = omega arith in
    let positive : 0 < x = c.0 in
    read_key-next fuel (pre ++ (x ∷ (k ++ (0 ∷ post)))) end off x (ground arith)
      (get_elem?-append pre (k ++ (0 ∷ post)) x off e) (ground arith)
    ∙ ap (read_key fuel (pre ++ (x ∷ (k ++ (0 ∷ post)))) end) one
    ∙ ap (λ l. read_key fuel l end (off + 1)) (sym (append_assoc pre (x ∷ []) (k ++ (0 ∷ post))))
    ∙ read_key-append fuel (pre ++ (x ∷ [])) k post end (off + 1) c.1
        (omega (arith, e, length-append pre (x ∷ []))) (omega arith) small (omega arith)
    ∙ ap (λ n. some (true, n)) (omega arith)

-- What is checked of a value's size, and what is skipped of it later.
pub record Sized (t : ElementType) (buf : List ℕ) (off size : ℕ) : Type 0 where
  pub checked : ℕ
  pub checks : value_size t buf off ≡ some checked
  pub limit : checked ≤ size + 1
  pub skips : skip_value t buf off ≡ some (off + size)

with_text :
    (t : ElementType) (more n off size : ℕ) (buf : List ℕ)
    → value_size t buf off ≡ add_int32 n more
    → skip_value t buf off ≡ (add_int32 n more >>= add_int32 off)
    → n + more ≡ size
    → off + size < 2 ^ 31
    → Sized t buf off size
with_text t more n off size buf v s e h =
    let sum : add_int32 n more ≡ some size =
      add_int32-is n more size (omega arith) (omega arith) e (omega arith) in
    record {
      checked = size;
      checks = v ∙ sum;
      limit = omega arith;
      skips =
          s
          ∙ ap (λ o. o >>= add_int32 off) sum
          ∙ add_int32-is off size (off + size) (omega arith) (omega arith) refl h;
    }

-- Every value of a tree is sized as its bytes are.
pub value-Sized :
    (v : Value) (pre post : List ℕ) (off : ℕ)
    → off ≡ length pre
    → off + length (value_bytes v) < 2 ^ 31
    → Sized (type_of v) (pre ++ (value_bytes v ++ post)) off (length (value_bytes v))
unfolding value_bytes value_size skip_value
value-Sized (Value.boolean x) pre post off e h = record {
  checked = 1;
  checks = refl;
  limit = omega arith;
  skips = add_int32-is off 1 (off + 1) (omega arith) (omega arith) (omega arith) (omega arith);
}
value-Sized (Value.double x) pre post off e h =
    let n : length (le_bytes 8 x) ≡ 8 = length-le_bytes 8 x in
    record {
      checked = 9;
      checks = refl;
      limit = omega arith;
      skips =
          add_int32-is off 8 (off + length (le_bytes 8 x)) (omega arith) (omega arith) (omega arith)
            (omega arith);
    }
value-Sized (Value.i32 x) pre post off e h =
    let n : length (le_bytes 4 x) ≡ 4 = length-le_bytes 4 x in
    record {
      checked = 4;
      checks = refl;
      limit = omega arith;
      skips =
          add_int32-is off 4 (off + length (le_bytes 4 x)) (omega arith) (omega arith) (omega arith)
            (omega arith);
    }
value-Sized (Value.i64 x) pre post off e h =
    let n : length (le_bytes 8 x) ≡ 8 = length-le_bytes 8 x in
    record {
      checked = 9;
      checks = refl;
      limit = omega arith;
      skips =
          add_int32-is off 8 (off + length (le_bytes 8 x)) (omega arith) (omega arith) (omega arith)
            (omega arith);
    }
value-Sized Value.null pre post off e h = record {
  checked = 0;
  checks = refl;
  limit = omega arith;
  skips = ap some (omega arith);
}
value-Sized (Value.str s) pre post off e h =
    let size : length (le_bytes 4 (length s + 1) ++ (s ++ (0 ∷ []))) ≡ length s + 5 = omega (
      arith,
      length-append (le_bytes 4 (length s + 1)) (s ++ (0 ∷ [])),
      length-append s (0 ∷ []),
      length-le_bytes 4 (length s + 1),
    ) in
    let g : geti32 (pre ++ ((le_bytes 4 (length s + 1) ++ (s ++ (0 ∷ []))) ++ post)) off
        ≡ some (length s + 1) =
      ap (λ l. geti32 (pre ++ l) off)
        (append_assoc (le_bytes 4 (length s + 1)) (s ++ (0 ∷ [])) post)
      ∙ geti32-append pre ((s ++ (0 ∷ [])) ++ post) off (length s + 1) e (omega arith) in
    with_text str 4 (length s + 1) off _ _ (rw g refl) (rw g refl) (omega (arith, size)) h
value-Sized (Value.binary s subtype) pre post off e h =
    let size : length (le_bytes 4 (length s) ++ (subtype ∷ s)) ≡ length s + 5 =
      omega (
        arith,
        length-append (le_bytes 4 (length s)) (subtype ∷ s),
        length-le_bytes 4 (length s),
      ) in
    let g : geti32 (pre ++ ((le_bytes 4 (length s) ++ (subtype ∷ s)) ++ post)) off
        ≡ some (length s) =
      ap (λ l. geti32 (pre ++ l) off) (append_assoc (le_bytes 4 (length s)) (subtype ∷ s) post)
      ∙ geti32-append pre ((subtype ∷ s) ++ post) off (length s) e (omega arith) in
    with_text binary 5 (length s) off _ _ (rw g refl) (rw g refl) (omega (arith, size)) h
value-Sized (Value.doc fs) pre post off e h =
    let body : List ℕ = elements fs in
    let size : length (document body) ≡ length body + 5 = length-document body in
    let g : geti32 (pre ++ (document body ++ post)) off ≡ some (length body + 5) =
      ap (λ l. geti32 (pre ++ l) off)
        (append_assoc (le_bytes 4 (length body + 5)) (body ++ (0 ∷ [])) post)
      ∙ geti32-append pre ((body ++ (0 ∷ [])) ++ post) off (length body + 5) e (omega arith) in
    record {
      checked = length body + 5;
      checks = g;
      limit = omega arith;
      skips =
          ap (λ o. o >>= add_int32 off) g
          ∙ add_int32-is off (length body + 5) (off + length (document body)) (omega arith)
              (omega arith) (omega arith) h;
    }

classify-code : (v : Value) → classify (code (type_of v)) ≡ type_of v
classify-code (Value.boolean x) = refl
classify-code (Value.double x) = refl
classify-code (Value.i32 x) = refl
classify-code (Value.i64 x) = refl
classify-code Value.null = refl
classify-code (Value.str s) = refl
classify-code (Value.binary s t) = refl
classify-code (Value.doc fs) = refl

pub type_of-goes : (v : Value) → is_end (type_of v) ≡ false
type_of-goes (Value.boolean x) = refl
type_of-goes (Value.double x) = refl
type_of-goes (Value.i32 x) = refl
type_of-goes (Value.i64 x) = refl
type_of-goes Value.null = refl
type_of-goes (Value.str s) = refl
type_of-goes (Value.binary s t) = refl
type_of-goes (Value.doc fs) = refl

-- The element that `next` gives.
pub record Passed (t : ElementType) (off : ℕ) (r : Reader) (res : Option (ElementType × Reader))
    : Type 0 where
  pub after : Reader
  pub result : res ≡ some (t, after)
  pub same : Same r after
  pub type : after.cur_type ≡ t
  pub at : after.buf_offset ≡ off
  pub doc_begin : after.cur_doc_begin ≡ r.cur_doc_begin

module _ (v : Value) (k pre post : List ℕ) (pos : ℕ) (r : Reader)
    (holds : r.buffer ≡ pre ++ ((key_bytes (type_of v) k ++ value_bytes v) ++ post))
    (clean : All IsNonZero k) (here : pos ≡ length pre)
    (room : pos + (length k + 2) + length (value_bytes v) + 1 ≤ r.cur_doc_end)
    (small : r.cur_doc_end < 2 ^ 31) where
  abbrev key : List ℕ
  key = key_bytes (type_of v) k

  -- The buffer from the element, from its key and from its value on.
  from_type : r.buffer ≡ pre ++ (code (type_of v) ∷ (k ++ (0 ∷ (value_bytes v ++ post))))
  from_type =
      holds
      ∙ ap (λ l. pre ++ l)
          (append_assoc key (value_bytes v) post
            ∙ ap (λ l. code (type_of v) ∷ l) (append_assoc k (0 ∷ []) (value_bytes v ++ post)))

  from_key : r.buffer ≡ (pre ++ (code (type_of v) ∷ [])) ++ (k ++ (0 ∷ (value_bytes v ++ post)))
  from_key =
      from_type
      ∙ sym (append_assoc pre (code (type_of v) ∷ []) (k ++ (0 ∷ (value_bytes v ++ post))))

  pub from_value : r.buffer ≡ (pre ++ key) ++ (value_bytes v ++ post)
  from_value =
      holds
      ∙ ap (λ l. pre ++ l) (append_assoc key (value_bytes v) post)
      ∙ sym (append_assoc pre key (value_bytes v ++ post))

  length-key : length (pre ++ key) ≡ pos + (length k + 2)
  length-key = omega (arith, here, length-append pre key, length-append k (0 ∷ []))

  -- The size of the value in the buffer.
  pub sized : Sized (type_of v) r.buffer (pos + (length k + 2)) (length (value_bytes v))
  sized =
      rw from_value
        (value-Sized v (pre ++ key) post (pos + (length k + 2)) (sym length-key) (omega arith))

  abbrev typed : Reader
  typed = record r { buf_offset = add32 pos 1; element_start_offset = pos; cur_type = type_of v }

  abbrev stop : ℕ
  stop = pos + 1 + length k

  scans :
      read_key (suc (r.cur_doc_end - add32 pos 1)) r.buffer r.cur_doc_end (add32 pos 1)
      ≡ some (true, stop)
  scans =
      let one : add32 pos 1 ≡ pos + 1 = omega arith in
      ap (λ o. read_key (suc (r.cur_doc_end - o)) r.buffer r.cur_doc_end o) one
      ∙ ap (λ l. read_key (suc (r.cur_doc_end - (pos + 1))) l r.cur_doc_end (pos + 1)) from_key
      ∙ read_key-append (suc (r.cur_doc_end - (pos + 1))) (pre ++ (code (type_of v) ∷ [])) k
          (value_bytes v ++ post) r.cur_doc_end (pos + 1) clean
          (omega (arith, here, length-append pre (code (type_of v) ∷ []))) (omega arith) small
          (omega arith)

  off_lem : add32 stop 1 ≡ pos + (length k + 2)
  off_lem = omega arith

  fits_lem : too_big sized.checked (keyed typed stop) ≡ false
  fits_lem = ground (arith, sized.limit, off_lem)

  -- `next` gives the element, with the reader at its value.
  pub next-Passed :
      stays r.cur_type ≡ false
      → skip_value r.cur_type r.buffer r.buf_offset ≡ some pos
      → Passed (type_of v) (pos + (length k + 2)) r (next r)
  next-Passed live skips = record {
    after = _;
    result =
        next-enters r pos (code (type_of v)) live skips (
          ap (λ l. get_elem? l pos) from_type
          ∙ get_elem?-append pre (k ++ (0 ∷ (value_bytes v ++ post))) (code (type_of v)) pos here)
        ∙ ap (λ t. enter t pos r) (classify-code v)
        ∙ enter-reads (type_of v) pos r (type_of-goes v)
        ∙ read_element-checks (type_of v) typed stop scans
        ∙ check_value-passes (type_of v) (keyed typed stop) sized.checked
            (ap (value_size (type_of v) r.buffer) off_lem ∙ sized.checks) fits_lem;
    same = record { buffer = refl; layers = refl; doc_end = refl };
    type = refl;
    at = off_lem;
    doc_begin = refl;
  }

  -- The key that the reader then has.
  pub next-Passed_key :
      (live : stays r.cur_type ≡ false)
      → (skips : skip_value r.cur_type r.buffer r.buf_offset ≡ some pos)
      → (next-Passed live skips).after.key ≡ k
  unfolding next-Passed
  next-Passed_key live skips =
      let one : add32 pos 1 ≡ pos + 1 = omega arith in
      let rest = k ++ (0 ∷ (value_bytes v ++ post)) in
      ap (λ o. take (stop - o) (drop o r.buffer)) one
      ∙ ap (λ l. take (stop - (pos + 1)) (drop (pos + 1) l)) from_key
      ∙ ap (take (stop - (pos + 1))) (
          drop-append_self (pos + 1) (pre ++ (code (type_of v) ∷ [])) rest
            (omega (arith, here, length-append pre (code (type_of v) ∷ []))))
      ∙ take-append_self (stop - (pos + 1)) k (0 ∷ (value_bytes v ++ post)) (omega arith)
