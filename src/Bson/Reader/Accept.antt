-- ===== src/Bson/Reader/Accept.antt =====
-- `validate` of `BsonReader` (core/src/util/bson_reader.cpp) on one element of a well-formed document.
use sc_api.Common.{
  ℕ, suc, ◌+◌, ◌^◌, ◌≤◌, ◌<◌, ◌≡◌, refl, sym, ◌∙◌, ap, List, [], ◌∷◌, ◌++◌, some, false, length,
  arith, All, ◌>>=◌, append_assoc, length-append,
}
use sc_api.Bytes.{le_bytes, add32, geti32}
use sc_api.Bytes.Laws.{length-le_bytes}
use sc_api.Bson.Types.{ElementType, finished}
use sc_api.Bson.Layout.{length-document}
use sc_api.Bson.Value.{Value, Fields, value_bytes, elements, type_of, key_bytes}
use sc_api.Bson.Builder.Scalars.{IsScalar}
use sc_api.Bson.Reader.{Reader, go_on, skip_value, stays, next, turn, validate_loop}
use sc_api.Bson.Reader.Validate.{opened, open_sub-opens, close_sub-closes, skip_value-begin}
use sc_api.Bson.Reader.Total.{turn-finished, loop-goes_on}
use sc_api.Bson.Reader.Pass.{
  IsNonZero, geti32-append, Passed, next-Passed, next-Passed_key, sized, from_value,
}
use sc_api.Bson.Reader.Cross.{
  rounds_value, Crossed, turn-scalar, stays-scalar, turn-doc, step, terminated, next-end,
}

-- A reader before the element `v` with the key `k`: `pre` are the bytes before it, `post` those
-- behind it.
pub record Before (v : Value) (k pre post : List ℕ) (pos depth : ℕ) (r : Reader) : Type 0 where
  pub holds : r.buffer ≡ pre ++ ((key_bytes (type_of v) k ++ value_bytes v) ++ post)
  pub clean : All IsNonZero k
  pub here : pos ≡ length pre
  pub room : pos + (length k + 2) + length (value_bytes v) + 1 ≤ r.cur_doc_end
  pub small : r.cur_doc_end < 2 ^ 31
  pub live : stays r.cur_type ≡ false
  pub skips : skip_value r.cur_type r.buffer r.buf_offset ≡ some pos
  pub deep : length r.doc_layers ≡ depth

-- A reader before the elements of `fs` and the terminator.
pub record Begins (fs : Fields) (pre post : List ℕ) (pos depth : ℕ) (r : Reader) : Type 0 where
  pub holds : r.buffer ≡ pre ++ (elements fs ++ (0 ∷ post))
  pub here : pos ≡ length pre
  pub room : pos + length (elements fs) + 1 ≤ r.cur_doc_end
  pub small : r.cur_doc_end < 2 ^ 31
  pub live : stays r.cur_type ≡ false
  pub skips : skip_value r.cur_type r.buffer r.buf_offset ≡ some pos
  pub deep : length r.doc_layers ≡ depth

module _ (v : Value) (k pre post : List ℕ) (pos depth : ℕ) (r : Reader)
    (b : Before v k pre post pos depth r) where
  abbrev pub off : ℕ
  off = pos + (length k + 2)

  pub passed : Passed (type_of v) off r (next r)
  passed = next-Passed v k pre post pos r b.holds b.clean b.here b.room b.small b.live b.skips

  pub passed_key : passed.after.key ≡ k
  unfolding passed
  passed_key =
      next-Passed_key v k pre post pos r b.holds b.clean b.here b.room b.small b.live b.skips

  pub scalar-Crossed :
      IsScalar v
      → rounds_value v ≡ 1
      → Crossed (rounds_value v) depth (off + length (value_bytes v)) r
  scalar-Crossed c one = record {
    after = passed.after;
    same = passed.same;
    live = rw (passed.type) (stays-scalar v);
    skips =
        rw (passed.type, passed.at, passed.same.buffer)
          ((sized v k pre post pos r b.holds b.clean b.here b.room b.small).skips);
    runs = λ fuel.
        ap (λ f. validate_loop f depth r) (omega (arith, one))
        ∙ loop-goes_on fuel depth depth r passed.after (
            step r passed.after (type_of v) depth passed.result
              (turn-scalar v depth passed.after c));
  }

module _ (fs : Fields) (k pre post : List ℕ) (pos depth : ℕ) (r : Reader)
    (b : Before (Value.doc fs) k pre post pos depth r) (shallow : depth < 16) where
  abbrev pub body : List ℕ
  body = elements fs

  abbrev pub start : ℕ
  start = pos + (length k + 2)

  abbrev pub n : ℕ
  n = length body + 5

  pub p : Passed ElementType.doc start r (next r)
  p = passed (Value.doc fs) k pre post pos depth r b

  pub p_lem : p.after ≡ (passed (Value.doc fs) k pre post pos depth r b).after
  unfolding p
  p_lem = refl

  abbrev key : List ℕ
  key = key_bytes ElementType.doc k

  length-before : length (pre ++ key) ≡ start
  length-before = omega (arith, b.here, length-append pre key, length-append k (0 ∷ []))

  fits : start + n + 1 ≤ r.cur_doc_end
  unfolding value_bytes
  fits = omega (arith, b.room, length-document body)

  whole : r.buffer ≡ ((pre ++ key) ++ le_bytes 4 n) ++ (body ++ (0 ∷ post))
  unfolding value_bytes
  whole =
      from_value (Value.doc fs) k pre post pos r b.holds b.clean b.here b.room b.small
      ∙ ap (λ l. (pre ++ key) ++ l)
          (append_assoc (le_bytes 4 n) (body ++ (0 ∷ [])) post
            ∙ ap (λ l. le_bytes 4 n ++ l) (append_assoc body (0 ∷ []) post))
      ∙ sym (append_assoc (pre ++ key) (le_bytes 4 n) (body ++ (0 ∷ post)))

  pub size_lem : geti32 p.after.buffer p.after.buf_offset ≡ some n
  size_lem =
      rw (p.same.buffer, p.at)
        (ap (λ l. geti32 l start)
            (whole ∙ append_assoc (pre ++ key) (le_bytes 4 n) (body ++ (0 ∷ post)))
          ∙ geti32-append (pre ++ key) (body ++ (0 ∷ post)) start n (sym length-before)
              (omega (arith, fits, b.small)))

  opens : (next r >>= λ s. turn depth s.0 s.1) ≡ some (go_on (suc depth) (opened p.after n))
  opens = step r p.after ElementType.doc depth p.result (
      turn-doc depth p.after
      ∙ open_sub-opens depth n p.after (rw (p.type) refl)
          (ground (arith, b.deep, ap length p.same.layers)) size_lem)

  abbrev pub inner : Reader
  inner = opened p.after n

  four_lem : add32 p.after.buf_offset 4 ≡ start + 4
  four_lem = omega (arith, p.at, fits, b.small)

  pub end_lem : add32 p.after.buf_offset n ≡ start + n
  end_lem = omega (arith, p.at, fits, b.small)

  pub inner-Begins : Begins fs ((pre ++ key) ++ le_bytes 4 n) post (start + 4) (suc depth) inner
  inner-Begins = record {
    holds = p.same.buffer ∙ whole;
    here =
        omega
          (arith, length-before, length-append (pre ++ key) (le_bytes 4 n), length-le_bytes 4 n);
    room = omega (arith, end_lem);
    small = omega (arith, end_lem, fits, b.small);
    live = refl;
    skips = skip_value-begin p.after.buffer (add32 p.after.buf_offset 4) ∙ ap some four_lem;
    deep = ap suc (ap length p.same.layers ∙ b.deep);
  }

  -- Behind the elements the document is closed.
  pub doc-Crossed :
      (count : ℕ)
      → Crossed count (suc depth) (start + 4 + length body) inner
      → Crossed (count + 2) depth (start + n) r
  doc-Crossed count c =
      let q : ℕ = start + 4 + length body in
      let e : next c.after ≡ some (finished, terminated c.after q) =
        next-end c.after q (((pre ++ key) ++ le_bytes 4 n) ++ body) post
          (c.same.buffer
            ∙ p.same.buffer
            ∙ whole
            ∙ sym (append_assoc ((pre ++ key) ++ le_bytes 4 n) body (0 ∷ post)))
          (omega (
            arith,
            length-before,
            length-append (pre ++ key) (le_bytes 4 n),
            length-le_bytes 4 n,
            length-append ((pre ++ key) ++ le_bytes 4 n) body,
          ))
          c.live c.skips in
      let f : (next c.after >>= λ s. turn (suc depth) s.0 s.1) ≡ some (go_on depth _) =
        step c.after (terminated c.after q) finished (suc depth) e (
          turn-finished (suc depth) (terminated c.after q)
          ∙ ap some (close_sub-closes depth (terminated c.after q) _ _ c.same.layers)) in
      record {
        after = _;
        same = record {
          buffer = c.same.buffer ∙ p.same.buffer;
          layers = p.same.layers;
          doc_end = p.same.doc_end;
        };
        live = refl;
        skips =
            skip_value-begin c.after.buffer c.after.cur_doc_end
            ∙ ap some (c.same.doc_end ∙ end_lem);
        runs = λ fuel.
            ap (λ l. validate_loop l depth r) (omega arith)
            ∙ loop-goes_on (count + suc fuel) depth (suc depth) r inner opens
            ∙ c.runs (suc fuel)
            ∙ loop-goes_on fuel (suc depth) depth c.after _ f;
      }
