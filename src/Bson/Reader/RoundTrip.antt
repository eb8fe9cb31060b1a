-- ===== src/Bson/Reader/RoundTrip.antt =====
-- `validate` of `BsonReader` (core/src/util/bson_reader.cpp) accepts what `BsonBuilder`
-- (core/src/util/bson_builder.cpp) writes.
use sc_api.Common.{
  ℕ, suc, ◌+◌, ◌-◌, ◌*◌, ◌^◌, ◌≤◌, ◌<◌, ◌≡◌, refl, sym, ◌∙◌, ap, List, [], ◌∷◌, ◌++◌, some, true,
  false, length, arith, ◌>>=◌, append_assoc, length-append,
}
use sc_api.Bytes.{le_bytes, geti32}
use sc_api.Bytes.Laws.{length-le_bytes}
use sc_api.Bson.Types.{finished}
use sc_api.Bson.Layout.{document, length-document}
use sc_api.Bson.Value.{
  Value, Fields, end, field, value_bytes, elements, type_of, key_bytes, nesting, nesting_value,
}
use sc_api.Bson.Builder.{Builder, initialize_vector, finish}
use sc_api.Bson.Builder.Shape.{Grows}
use sc_api.Bson.Builder.Build.{build}
use sc_api.Bson.Builder.Whole.{Idle, build-elements}
use sc_api.Bson.Reader.{Reader, next, turn, validate_loop, validate}
use sc_api.Bson.Reader.Validate.{skip_value-begin}
use sc_api.Bson.Reader.Total.{
  turn-finished, close_sub-zero, loop-answers, validate-reads, at_start, validate_reader-loop,
}
use sc_api.Bson.Reader.Pass.{geti32-append}
use sc_api.Bson.Reader.Cross.{
  IsClean, IsCleanValue, rounds_value, rounds, rounds-le, Crossed, Same-refl, Same-trans, step,
  terminated, next-end,
}
use sc_api.Bson.Reader.Accept.{Before, Begins, scalar-Crossed, doc-Crossed, inner, inner-Begins}

mutual
  unfolding rounds value_bytes nesting IsClean

  value-Crossed :
      (v : Value) (k pre post : List ℕ) (pos depth : ℕ) (r : Reader)
      → Before v k pre post pos depth r
      → IsCleanValue v
      → depth + nesting_value v ≤ 16
      → Crossed (rounds_value v) depth (pos + (length k + 2) + length (value_bytes v)) r
  value-Crossed (Value.doc fs) k pre post pos depth r b c h =
      let shallow : depth < 16 = omega arith in
      rw (length-document (elements fs)) (
        doc-Crossed fs k pre post pos depth r b shallow (rounds fs) (
          elements-Crossed fs _ post _ (suc depth) (inner fs k pre post pos depth r b shallow)
            (inner-Begins fs k pre post pos depth r b shallow) c (omega arith)))
  value-Crossed (Value.boolean x) k pre post pos depth r b c h =
      scalar-Crossed (Value.boolean x) k pre post pos depth r b tt refl
  value-Crossed (Value.double x) k pre post pos depth r b c h =
      scalar-Crossed (Value.double x) k pre post pos depth r b tt refl
  value-Crossed (Value.i32 x) k pre post pos depth r b c h =
      scalar-Crossed (Value.i32 x) k pre post pos depth r b tt refl
  value-Crossed (Value.i64 x) k pre post pos depth r b c h =
      scalar-Crossed (Value.i64 x) k pre post pos depth r b tt refl
  value-Crossed Value.null k pre post pos depth r b c h =
      scalar-Crossed Value.null k pre post pos depth r b tt refl
  value-Crossed (Value.str s) k pre post pos depth r b c h =
      scalar-Crossed (Value.str s) k pre post pos depth r b tt refl
  value-Crossed (Value.binary s t) k pre post pos depth r b c h =
      scalar-Crossed (Value.binary s t) k pre post pos depth r b tt refl

  elements-Crossed :
      (fs : Fields) (pre post : List ℕ) (pos depth : ℕ) (r : Reader)
      → Begins fs pre post pos depth r
      → IsClean fs
      → depth + nesting fs ≤ 16
      → Crossed (rounds fs) depth (pos + length (elements fs)) r
  elements-Crossed end pre post pos depth r b c h = record {
    after = r;
    same = Same-refl r;
    live = b.live;
    skips = b.skips ∙ ap some (omega arith);
    runs = λ fuel. ap (λ f. validate_loop f depth r) (omega arith);
  }
  elements-Crossed (field k v fs) pre post pos depth r b c h =
      let one : List ℕ = key_bytes (type_of v) k ++ value_bytes v in
      let n : length one ≡ length (value_bytes v) + (length k + 2) = omega (
        arith,
        length-append (key_bytes (type_of v) k) (value_bytes v),
        length-append k (0 ∷ []),
      ) in
      let m : length (one ++ elements fs) ≡ length one + length (elements fs) =
        length-append one (elements fs) in
      let whole : r.buffer ≡ pre ++ (one ++ (elements fs ++ (0 ∷ post))) =
        b.holds ∙ ap (λ l. pre ++ l) (append_assoc one (elements fs) (0 ∷ post)) in
      let a : Crossed (rounds_value v) depth (pos + (length k + 2) + length (value_bytes v)) r =
        value-Crossed v k pre (elements fs ++ (0 ∷ post)) pos depth r
          (record {
            holds = whole;
            clean = c.0;
            here = b.here;
            room = omega (arith, b.room);
            small = b.small;
            live = b.live;
            skips = b.skips;
            deep = b.deep;
          })
          (c.1) (omega arith) in
      let d : Crossed (rounds fs) depth
          (pos + (length k + 2) + length (value_bytes v) + length (elements fs)) a.after =
        elements-Crossed fs (pre ++ one) post (pos + (length k + 2) + length (value_bytes v)) depth
          a.after
          (record {
            holds = a.same.buffer ∙ whole ∙ sym (append_assoc pre one (elements fs ++ (0 ∷ post)));
            here = omega (arith, b.here, length-append pre one);
            room = omega (arith, b.room, a.same.doc_end);
            small = omega (arith, b.small, a.same.doc_end);
            live = a.live;
            skips = a.skips;
            deep = ap length a.same.layers ∙ b.deep;
          })
          (c.2) (omega arith) in
      record {
        after = d.after;
        same = Same-trans r a.after d.after a.same d.same;
        live = d.live;
        skips = d.skips ∙ ap some (omega arith);
        runs = λ fuel.
            ap (λ f. validate_loop f depth r) (omega arith)
            ∙ a.runs (rounds fs + fuel)
            ∙ d.runs fuel;
      }

-- `validate` accepts the bytes of every tree whose keys have no zero bytes, that opens no more than
-- 16 documents at once and whose bytes are fewer than 2^31, whatever follows them in the buffer.
pub validate-document :
    (fs : Fields) (post : List ℕ)
    → IsClean fs
    → nesting fs ≤ 16
    → length (elements fs) + 5 < 2 ^ 31
    → validate (document (elements fs) ++ post) (length (document (elements fs))) ≡ some true
validate-document fs post clean shallow small =
    let body : List ℕ = elements fs in
    let n : ℕ = length body + 5 in
    let buf : List ℕ = document body ++ post in
    let total : length (document body) ≡ n = length-document body in
    let whole : buf ≡ le_bytes 4 n ++ (body ++ (0 ∷ post)) =
      append_assoc (le_bytes 4 n) (body ++ (0 ∷ [])) post
      ∙ ap (λ l. le_bytes 4 n ++ l) (append_assoc body (0 ∷ []) post) in
    let size : geti32 buf 0 ≡ some n =
      ap (λ l. geti32 l 0) whole ∙ geti32-append [] (body ++ (0 ∷ post)) 0 n refl (omega arith) in
    let r : Reader = at_start buf n n in
    let c : Crossed (rounds fs) 0 (4 + length body) r =
      elements-Crossed fs (le_bytes 4 n) post 4 0 r
        (record {
          holds = whole;
          here = omega (arith, length-le_bytes 4 n);
          room = omega arith;
          small = omega arith;
          live = refl;
          skips = skip_value-begin buf 4;
          deep = refl;
        })
        clean (omega arith) in
    let q : ℕ = 4 + length body in
    let e : (next c.after >>= λ s. turn 0 s.0 s.1) ≡ some _ =
      step c.after (terminated c.after q) finished 0
        (next-end c.after q (le_bytes 4 n ++ body) post
          (c.same.buffer ∙ whole ∙ sym (append_assoc (le_bytes 4 n) body (0 ∷ post)))
          (omega (arith, length-append (le_bytes 4 n) body, length-le_bytes 4 n)) c.live c.skips)
        (turn-finished 0 (terminated c.after q)
          ∙ ap some (close_sub-zero (terminated c.after q))) in
    let spare : ℕ = 2 * n + 1 - rounds fs in
    ap (validate buf) total
    ∙ validate-reads buf n n true _ (ground arith) size (ground arith) (
        validate_reader-loop r
        ∙ ap (λ f. validate_loop f 0 r) (omega (arith, rounds-le fs))
        ∙ c.runs (suc spare)
        ∙ loop-answers spare 0 c.after _ true e)

-- What `BsonBuilder` writes in a vector, from `initialize` to `finish`, for a tree whose keys have
-- no zero bytes and that opens no more than 16 documents at once, `validate` accepts, whatever
-- follows the bytes: if the builder was idle without error and the sizes stay below 2^31.
pub build-validate :
    (grown : ℕ → ℕ → ℕ) (fs : Fields) (b : Builder) (vec : List ℕ) (start footer : ℕ)
    (post : List ℕ)
    → Grows grown
    → Idle b
    → b.error_flag ≡ false
    → length vec < 2 ^ 31
    → start + footer + 10 + length (elements fs) < 2 ^ 31
    → IsClean fs
    → nesting fs ≤ 16
    → (b1 : Builder) × (b2 : Builder) × (bytes : List ℕ) × (build grown fs
          (initialize_vector b vec start footer)
        ≡ some (true, b1))
      × (finish b1 ≡ some (some bytes, b2))
      × (validate (bytes ++ post) (length bytes) ≡ some true)
build-validate grown fs b vec start footer post g idle ok small room clean shallow =
    let (b1, b2, built, finished_with) =
      build-elements grown fs b vec start footer g idle ok small room (omega arith) in
    (
      b1,
      b2,
      document (elements fs),
      built,
      finished_with,
      validate-document fs post clean shallow (omega arith),
    )
