-- ===== src/Bson/Builder/Whole.antt =====
-- A document from `initialize` to `finish`: `BsonBuilder` of core/src/util/bson_builder.cpp.
use sc_api.Common.{
  ℕ, zero, ◌+◌, ◌-◌, ◌^◌, ◌≤◌, ◌<◌, ◌≡◌, refl, sym, ap, ◌∙◌, inl, inr, List, [], ◌∷◌, ◌++◌, some,
  Bool, true, false, length, take, drop, replicate, length-replicate, arith, length-append,
  length-take, length-drop, append-nil, append_assoc, take-append-drop, ltb, ltb→lt, Bool-cases,
  if◌then◌else◌,
}
use sc_api.Bytes.{resize, add32}
use sc_api.Bson.Layout.{root, document}
use sc_api.Bson.Value.{Fields, elements, nesting}
use sc_api.Bson.Builder.{Builder, reserve_header, initialize_buffer, initialize_vector, finish}
use sc_api.Bson.Builder.Shape.{Shape, Grows}
use sc_api.Bson.Builder.Build.{build, Built, build-Built}
use sc_api.Bson.Builder.Close.{finish_lem}

-- No document is open but the outermost: a new builder, or one whose documents are all closed.
pub record Idle (b : Builder) : Type 0 where
  pub closed : b.depth ≡ 0
  pub none_open : b.document_size_offsets ≡ []

-- The fields that `initialize` sets.
abbrev pub started : Builder → List ℕ → ℕ → ℕ → Bool → Builder
started b buf start usage growing = reserve_header (record b {
  buffer = buf;
  capacity = length buf;
  start_offset = start;
  offset = start;
  current_usage = usage;
  growable = growing;
})

started-Shape :
    (b : Builder) (buf : List ℕ) (start footer usage : ℕ) (growing : Bool)
    → Idle b
    → usage ≡ start + footer
    → start + footer + 5 ≤ length buf
    → length buf < 2 ^ 31
    → Shape footer ([] ∷ []) (started b buf start usage growing)
started-Shape b buf start footer usage growing idle total enough small =
    let left : List ℕ = drop start buf in
    let head : List ℕ = take start buf in
    let nl : length left ≡ length buf - start = length-drop start buf in
    let nh : length head ≡ start = omega (arith, length-take start buf) in
    let four : length (take 4 left) ≡ 4 = omega (arith, length-take 4 left) in
    let parts : length (head ++ (take 4 left ++ [])) ≡ start + 4 =
      omega (arith, length-append head (take 4 left ++ []), length-append (take 4 left) []) in
    record {
      used = head ++ (take 4 left ++ []);
      free = drop 4 left;
      split = rw (append-nil (take 4 left)) (
          sym (
            append_assoc head (take 4 left) (drop 4 left)
            ∙ ap (λ l. head ++ l) (take-append-drop 4 left)
            ∙ take-append-drop start buf));
      ends = omega (arith, parts);
      sized = omega (arith, parts, length-drop 4 left);
      small = small;
      reserved = omega (arith, total, idle.closed);
      within = omega (arith, total);
      deep = omega (arith, idle.closed, ap length idle.none_open);
      shallow = omega (arith, idle.closed);
      laid = rw (idle.none_open) (root head (take 4 left) [] refl nh four);
    }

length-resize : (n : ℕ) (vec : List ℕ) → length vec ≤ n → length (resize n vec) ≡ n
length-resize n vec h = omega (
  arith,
  length-append (take n vec) (replicate (n - length vec) 0),
  length-replicate (n - length vec) zero,
  length-take n vec,
)

-- The vector after it is resized.
vector_size :
    (vec : List ℕ) (start footer : ℕ) (buf : List ℕ)
    → buf ≡ (
        if ltb (length vec) (add32 (add32 5 start) footer)
        then resize (add32 (add32 10 start) footer) vec
        else vec)
    → length vec < 2 ^ 31
    → start + footer + 10 < 2 ^ 31
    → (start + footer + 5 ≤ length buf) × (length buf < 2 ^ 31)
vector_size vec start footer buf e small room =
    let least : add32 (add32 5 start) footer ≡ 5 + start + footer = omega arith in
    let more : add32 (add32 10 start) footer ≡ 10 + start + footer = omega arith in
    elim (Bool-cases (ltb (length vec) (add32 (add32 5 start) footer))) [
      | inl c ↦
          let r : buf ≡ resize (add32 (add32 10 start) footer) vec = rw c at e in
          let d : buf ≡ resize (10 + start + footer) vec = r ∙ ap (λ k. resize k vec) more in
          let n : length buf ≡ 10 + start + footer =
            ap length d
            ∙ length-resize (10 + start + footer) vec (omega (arith, least, ltb→lt _ _ c)) in
          (omega (arith, n), omega (arith, n))
      | inr c ↦
          let d : buf ≡ vec = rw c at e in
          (ground (arith, ap length d), ground (arith, ap length d))
    ]

-- `initialize` over a vector leaves `start` bytes before the document and `footer` bytes behind it.
pub initialize_vector-Shape :
    (b : Builder) (vec : List ℕ) (start footer : ℕ)
    → Idle b
    → length vec < 2 ^ 31
    → start + footer + 10 < 2 ^ 31
    → Shape footer ([] ∷ []) (initialize_vector b vec start footer)
unfolding initialize_vector
initialize_vector-Shape b vec start footer idle small room =
    let (enough, fits) = vector_size vec start footer _ refl small room in
    started-Shape b _ start footer _ true idle (omega arith) enough fits

-- `initialize` over a buffer of its own size.
pub initialize_buffer-Shape :
    (b : Builder) (buf : List ℕ)
    → Idle b
    → 5 ≤ length buf
    → length buf < 2 ^ 31
    → Shape 0 ([] ∷ []) (initialize_buffer b buf)
unfolding initialize_buffer
initialize_buffer-Shape b buf idle enough small =
    started-Shape b buf 0 0 0 b.growable idle (omega arith) (omega arith) small

-- A document built in a vector, from `initialize` to `finish`, by a builder whose documents are all
-- closed and whose error flag is clear, is the bytes of its tree: for every tree whose bytes, with
-- what is reserved, are fewer than 2^31 and that opens fewer than 64 documents at once. No call
-- fails, and none accesses memory outside the vector.
pub build-elements :
    (grown : ℕ → ℕ → ℕ) (fs : Fields) (b : Builder) (vec : List ℕ) (start footer : ℕ)
    → Grows grown
    → Idle b
    → b.error_flag ≡ false
    → length vec < 2 ^ 31
    → start + footer + 10 + length (elements fs) < 2 ^ 31
    → nesting fs < 64
    → (b1 : Builder) × (b2 : Builder) × (build grown fs (initialize_vector b vec start footer)
        ≡ some (true, b1))
      × (finish b1 ≡ some (some (document (elements fs)), b2))
unfolding initialize_vector
build-elements grown fs b vec start footer g idle clean small room shallow =
    let b0 : Builder = initialize_vector b vec start footer in
    let w : Built footer (elements fs ∷ []) (length (elements fs)) b0 (build grown fs b0) =
      build-Built grown g footer [] [] fs b0
        (initialize_vector-Shape b vec start footer idle small (omega arith)) refl (omega arith)
        (omega (arith, idle.closed)) in
    let (b2, header, e, before, after) = finish_lem w.built footer (elements fs) w.shape (cc) in
    (w.built, b2, w.result, e)
