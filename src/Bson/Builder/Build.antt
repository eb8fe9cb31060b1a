-- ===== src/Bson/Builder/Build.antt =====
-- Building a whole document with the methods of `BsonBuilder` (core/src/util/bson_builder.cpp) in a
-- growing vector gives the bytes of the document's tree.
use sc_api.Common.{
  ℕ, ◌+◌, ◌^◌, ◌<◌, ◌≡◌, refl, List, [], ◌∷◌, ◌++◌, Option, some, Bool, true, length, arith,
  length-append, append_assoc, append-nil, ◌>>=◌, ◌&&◌,
}
use sc_api.Bson.Types.{ElementType}
use sc_api.Bson.Layout.{document, length-Laid, length-document}
use sc_api.Bson.Value.{
  key_bytes, Value, Fields, end, field, value_bytes, elements, type_of, nesting, nesting_value,
}
use sc_api.Bson.Builder.{Builder, end_document}
use sc_api.Bson.Builder.Elements.{doc_begin_sub_doc}
use sc_api.Bson.Builder.Shape.{Shape, Grows}
use sc_api.Bson.Builder.Add.{Outcome, added, rejected}
use sc_api.Bson.Builder.Insert.{length-key}
use sc_api.Bson.Builder.Nest.{begin_sub_doc-Outcome}
use sc_api.Bson.Builder.Close.{end_document_lem}
use sc_api.Bson.Builder.Scalars.{doc_add, doc_add-Outcome, IsScalar}

-- A caller that adds the fields of a document in order, and a document's fields between
-- `docBeginSubDoc` and `endDocument`. The answer is whether every call returned `true`.
module _ (grown : ℕ → ℕ → ℕ) where
  mutual
    pub build_value : List ℕ → Value → Builder → Option (Bool × Builder)
    build_value k (Value.doc fs) b = do
      (ok, b1) ← doc_begin_sub_doc grown k b
      (all_ok, b2) ← build fs b1
      b3 ← end_document b2
      some (ok && all_ok, b3)
    build_value k (Value.boolean x) b = doc_add grown k (Value.boolean x) b
    build_value k (Value.double v) b = doc_add grown k (Value.double v) b
    build_value k (Value.i32 v) b = doc_add grown k (Value.i32 v) b
    build_value k (Value.i64 v) b = doc_add grown k (Value.i64 v) b
    build_value k Value.null b = doc_add grown k Value.null b
    build_value k (Value.str s) b = doc_add grown k (Value.str s) b
    build_value k (Value.binary bs subtype) b = doc_add grown k (Value.binary bs subtype) b

    pub build : Fields → Builder → Option (Bool × Builder)
    build end b = some (true, b)
    build (field k v fs) b = do
      (ok, b1) ← build_value k v b
      (all_ok, b2) ← build fs b1
      some (ok && all_ok, b2)

-- All calls returned `true`, and the innermost document has `bytes` more bytes.
pub record Built (footer : ℕ) (after : List (List ℕ)) (bytes : ℕ) (b : Builder)
    (res : Option (Bool × Builder)) : Type 0 where
  pub built : Builder
  pub result : res ≡ some (true, built)
  pub shape : Shape footer after built
  pub clean : built.error_flag ≡ b.error_flag
  pub growing : built.growable ≡ b.growable
  pub usage : built.current_usage ≡ b.current_usage + bytes

-- A builder that grows rejects nothing.
Outcome-Built :
    (kept : Builder → Type 0) (footer bytes : ℕ) (before after : List (List ℕ)) (b : Builder)
    (res : Option (Bool × Builder))
    → b.growable ≡ true
    → Outcome kept footer bytes before after b res
    → Built footer after bytes b res
Outcome-Built kept footer bytes before after b res g (added b' e s keeps f gr u fit) = record {
  built = b';
  result = e;
  shape = s;
  clean = f;
  growing = gr;
  usage = u;
}
Outcome-Built kept footer bytes before after b res g (rejected b' e s f fixed over) = absurd (cc)

-- A builder's depth is the number of open documents but the outermost.
Shape-depth :
    {footer : ℕ} {levels : List (List ℕ)} {b : Builder}
    → Shape footer levels b
    → b.depth + 1 ≡ length levels
Shape-depth s = omega (arith, s.deep, length-Laid s.laid)

module _ (grown : ℕ → ℕ → ℕ) (g : Grows grown) where
  doc_steps :
      (k : List ℕ) (fs : Fields) (b b1 b2 b3 : Builder)
      → doc_begin_sub_doc grown k b ≡ some (true, b1)
      → build grown fs b1 ≡ some (true, b2)
      → end_document b2 ≡ some b3
      → build_value grown k (Value.doc fs) b ≡ some (true, b3)
  unfolding build_value
  doc_steps k fs b b1 b2 b3 p q r = rw p (rw q (rw r))

  field_steps :
      (k : List ℕ) (v : Value) (fs : Fields) (b b1 b2 : Builder)
      → build_value grown k v b ≡ some (true, b1)
      → build grown fs b1 ≡ some (true, b2)
      → build grown (field k v fs) b ≡ some (true, b2)
  unfolding build_value
  field_steps k v fs b b1 b2 p q = rw p (rw q)

  build_scalar :
      (k : List ℕ) (v : Value)
      → IsScalar v
      → (b : Builder) → build_value grown k v b ≡ doc_add grown k v b
  unfolding build_value
  build_scalar k (Value.boolean x) c b = refl
  build_scalar k (Value.double v) c b = refl
  build_scalar k (Value.i32 v) c b = refl
  build_scalar k (Value.i64 v) c b = refl
  build_scalar k Value.null c b = refl
  build_scalar k (Value.str s) c b = refl
  build_scalar k (Value.binary bs subtype) c b = refl
  build_scalar k (Value.doc fs) c b = absurd c

  build_scalar-Built :
      (footer : ℕ) (body k : List ℕ) (levels : List (List ℕ)) (v : Value) (b : Builder)
      → Shape footer (body ∷ levels) b
      → b.growable ≡ true
      → b.current_usage + (length (value_bytes v) + 2 + length k) < 2 ^ 31
      → IsScalar v
      → Built footer
          ((body ++ (key_bytes (type_of v) k ++ value_bytes v)) ∷ levels)
          (length (value_bytes v) + 2 + length k)
          b
          (build_value grown k v b)
  build_scalar-Built footer body k levels v b s gr room c = rw (build_scalar k v c b) (
      Outcome-Built _ footer _ _ _ b _ gr
        (doc_add-Outcome grown g k b footer body levels s v c room))

  mutual
    unfolding value_bytes nesting doc_begin_sub_doc build_value

    pub build_value-Built :
        (footer : ℕ) (body k : List ℕ) (levels : List (List ℕ)) (v : Value) (b : Builder)
        → Shape footer (body ∷ levels) b
        → b.growable ≡ true
        → b.current_usage + (length (value_bytes v) + 2 + length k) < 2 ^ 31
        → b.depth + nesting_value v < 64
        → Built footer
            ((body ++ (key_bytes (type_of v) k ++ value_bytes v)) ∷ levels)
            (length (value_bytes v) + 2 + length k)
            b
            (build_value grown k v b)
    build_value-Built footer body k levels (Value.doc fs) b s gr room shallow =
        let key : List ℕ = key_bytes ElementType.doc k in
        let n : length (document (elements fs)) ≡ length (elements fs) + 5 =
          length-document (elements fs) in
        let o : Built footer ([] ∷ (body ++ key) ∷ levels) (5 + 2 + length k) b
            (doc_begin_sub_doc grown k b) =
          Outcome-Built _ footer _ _ _ b _ gr
            (begin_sub_doc-Outcome grown g k b footer body levels s (omega arith) (omega arith)) in
        let i : Built footer (elements fs ∷ (body ++ key) ∷ levels) (length (elements fs)) o.built
            (build grown fs o.built) =
          build-Built footer [] ((body ++ key) ∷ levels) fs o.built o.shape (cc)
            (omega (arith, o.usage)) (omega (arith, Shape-depth o.shape, Shape-depth s)) in
        let (b3, e, s3, f, r, d, u) =
          end_document_lem i.built footer (elements fs) (body ++ key) levels i.shape in
        record {
          built = b3;
          result = doc_steps k fs b o.built i.built b3 o.result i.result e;
          shape = rw (append_assoc body key (document (elements fs))) at s3;
          clean = cc;
          growing = cc;
          usage = omega (arith, u, i.usage, o.usage);
        }
    build_value-Built footer body k levels (Value.boolean x) b s gr room shallow =
        build_scalar-Built footer body k levels (Value.boolean x) b s gr room tt
    build_value-Built footer body k levels (Value.double x) b s gr room shallow =
        build_scalar-Built footer body k levels (Value.double x) b s gr room tt
    build_value-Built footer body k levels (Value.i32 x) b s gr room shallow =
        build_scalar-Built footer body k levels (Value.i32 x) b s gr room tt
    build_value-Built footer body k levels (Value.i64 x) b s gr room shallow =
        build_scalar-Built footer body k levels (Value.i64 x) b s gr room tt
    build_value-Built footer body k levels Value.null b s gr room shallow =
        build_scalar-Built footer body k levels Value.null b s gr room tt
    build_value-Built footer body k levels (Value.str x) b s gr room shallow =
        build_scalar-Built footer body k levels (Value.str x) b s gr room tt
    build_value-Built footer body k levels (Value.binary x t) b s gr room shallow =
        build_scalar-Built footer body k levels (Value.binary x t) b s gr room tt

    -- The calls that add the fields of a document, inner documents included, in a builder that can
    -- grow, where the bytes in use with the fields' are below 2^31 and fewer than 64 documents are
    -- open at once: every call returns `true`, and the fields' bytes go behind `body`.
    pub build-Built :
        (footer : ℕ) (body : List ℕ) (levels : List (List ℕ)) (fs : Fields) (b : Builder)
        → Shape footer (body ∷ levels) b
        → b.growable ≡ true
        → b.current_usage + length (elements fs) < 2 ^ 31
        → b.depth + nesting fs < 64
        → Built footer ((body ++ elements fs) ∷ levels) (length (elements fs)) b (build grown fs b)
    build-Built footer body levels end b s gr room shallow = record {
      built = b;
      result = refl;
      shape = rw (append-nil body) s;
      clean = refl;
      growing = refl;
      usage = omega arith;
    }
    build-Built footer body levels (field k v fs) b s gr room shallow =
        let one : List ℕ = key_bytes (type_of v) k ++ value_bytes v in
        let n : length one ≡ length (value_bytes v) + 2 + length k = omega (
          arith,
          length-append (key_bytes (type_of v) k) (value_bytes v),
          length-key (type_of v) k,
        ) in
        let m : length (one ++ elements fs) ≡ length one + length (elements fs) =
          length-append one (elements fs) in
        let o : Built footer ((body ++ one) ∷ levels) (length (value_bytes v) + 2 + length k) b
            (build_value grown k v b) =
          build_value-Built footer body k levels v b s gr (omega arith) (omega arith) in
        let i : Built footer (((body ++ one) ++ elements fs) ∷ levels) (length (elements fs))
            o.built (build grown fs o.built) =
          build-Built footer (body ++ one) levels fs o.built o.shape (cc) (omega (arith, o.usage))
            (omega (arith, Shape-depth o.shape, Shape-depth s)) in
        record {
          built = i.built;
          result = field_steps k v fs b o.built i.built o.result i.result;
          shape = rw (append_assoc body one (elements fs)) at i.shape;
          clean = cc;
          growing = cc;
          usage = omega (arith, o.usage, i.usage);
        }
