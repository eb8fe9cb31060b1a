-- ===== src/Bson/Reader/Cross.antt =====
-- The rounds of `validate` of `BsonReader` (core/src/util/bson_reader.cpp) on a well-formed document.
use sc_api.Common.{
  get_elem?-append, ℕ, ◌+◌, ◌≤◌, ◌≡◌, refl, ◌∙◌, ap, List, [], ◌∷◌, ◌++◌, Option, some, false,
  length, arith, All, ◌>>=◌, get_elem?, length-append,
}
use sc_api.Bytes.{add32}
use sc_api.Bson.Types.{ElementType, finished}
use sc_api.Bson.Layout.{length-document}
use sc_api.Bson.Value.{Value, Fields, end, field, value_bytes, elements, type_of, key_bytes}
use sc_api.Bson.Builder.Scalars.{IsScalar}
use sc_api.Bson.Reader.{Reader, Turn, go_on, skip_value, stays, next, turn, open_sub, validate_loop}
use sc_api.Bson.Reader.Next.{Same, enter-ends, next-enters}
use sc_api.Bson.Reader.Pass.{IsNonZero}

-- The keys of a tree have no zero bytes.
unfoldable mutual
  pub IsCleanValue : Value → Type 0
  IsCleanValue (Value.doc fs) = IsClean fs
  IsCleanValue (Value.boolean b) = Unit
  IsCleanValue (Value.double v) = Unit
  IsCleanValue (Value.i32 v) = Unit
  IsCleanValue (Value.i64 v) = Unit
  IsCleanValue Value.null = Unit
  IsCleanValue (Value.str s) = Unit
  IsCleanValue (Value.binary bs subtype) = Unit

  pub IsClean : Fields → Type 0
  IsClean end = Unit
  IsClean (field k v fs) = All IsNonZero k × IsCleanValue v × IsClean fs

-- The rounds of the loop of `validate` for a tree.
unfoldable mutual
  pub rounds_value : Value → ℕ
  rounds_value (Value.doc fs) = rounds fs + 2
  rounds_value (Value.boolean b) = 1
  rounds_value (Value.double v) = 1
  rounds_value (Value.i32 v) = 1
  rounds_value (Value.i64 v) = 1
  rounds_value Value.null = 1
  rounds_value (Value.str s) = 1
  rounds_value (Value.binary bs subtype) = 1

  pub rounds : Fields → ℕ
  rounds end = 0
  rounds (field k v fs) = rounds_value v + rounds fs

mutual
  unfolding rounds value_bytes

  rounds_value-le : (v : Value) → rounds_value v ≤ length (value_bytes v) + 1
  rounds_value-le (Value.doc fs) = omega (arith, rounds-le fs, length-document (elements fs))
  rounds_value-le (Value.boolean b) = omega arith
  rounds_value-le (Value.double v) = omega arith
  rounds_value-le (Value.i32 v) = omega arith
  rounds_value-le (Value.i64 v) = omega arith
  rounds_value-le Value.null = omega arith
  rounds_value-le (Value.str s) = omega arith
  rounds_value-le (Value.binary bs subtype) = omega arith

  pub rounds-le : (fs : Fields) → rounds fs ≤ length (elements fs)
  rounds-le end = omega arith
  rounds-le (field k v fs) = omega (
    arith,
    rounds_value-le v,
    rounds-le fs,
    length-append (key_bytes (type_of v) k ++ value_bytes v) (elements fs),
    length-append (key_bytes (type_of v) k) (value_bytes v),
    length-append k (0 ∷ []),
  )

-- The loop goes from `r` on to a reader whose next element begins at `pos`, in the same document.
pub record Crossed (count depth pos : ℕ) (r : Reader) : Type 0 where
  pub after : Reader
  pub same : Same r after
  pub live : stays after.cur_type ≡ false
  pub skips : skip_value after.cur_type after.buffer after.buf_offset ≡ some pos
  pub runs : (fuel : ℕ) → validate_loop (count + fuel) depth r ≡ validate_loop fuel depth after

pub Same-refl : (r : Reader) → Same r r
Same-refl r = record { buffer = refl; layers = refl; doc_end = refl }

pub Same-trans : (a b c : Reader) → Same a b → Same b c → Same a c
Same-trans a b c p q = record {
  buffer = q.buffer ∙ p.buffer;
  layers = q.layers ∙ p.layers;
  doc_end = q.doc_end ∙ p.doc_end;
}

pub turn-scalar :
    (v : Value) (depth : ℕ) (r : Reader)
    → IsScalar v
    → turn depth (type_of v) r ≡ some (go_on depth r)
unfolding turn
turn-scalar (Value.boolean x) depth r c = refl
turn-scalar (Value.double x) depth r c = refl
turn-scalar (Value.i32 x) depth r c = refl
turn-scalar (Value.i64 x) depth r c = refl
turn-scalar Value.null depth r c = refl
turn-scalar (Value.str s) depth r c = refl
turn-scalar (Value.binary s t) depth r c = refl
turn-scalar (Value.doc fs) depth r c = absurd c

pub stays-scalar : (v : Value) → stays (type_of v) ≡ false
stays-scalar (Value.boolean x) = refl
stays-scalar (Value.double x) = refl
stays-scalar (Value.i32 x) = refl
stays-scalar (Value.i64 x) = refl
stays-scalar Value.null = refl
stays-scalar (Value.str s) = refl
stays-scalar (Value.binary s t) = refl
stays-scalar (Value.doc fs) = refl

pub turn-doc : (depth : ℕ) (r : Reader) → turn depth ElementType.doc r ≡ open_sub depth r
unfolding turn
turn-doc depth r = refl

-- The result of `next`, handed to the round.
pub step :
    (r r1 : Reader) (t : ElementType) {res : Option Turn} (depth : ℕ)
    → next r ≡ some (t, r1)
    → turn depth t r1 ≡ res
    → (next r >>= λ s. turn depth s.0 s.1) ≡ res
step r r1 t depth e f = ap (λ o. o >>= λ s. turn depth s.0 s.1) e ∙ f

-- The reader behind the terminator.
abbrev pub terminated : Reader → ℕ → Reader
terminated r pos = record r {
  buf_offset = add32 pos 1;
  element_start_offset = pos;
  cur_type = finished;
}

pub next-end :
    (r : Reader) (pos : ℕ) (pre post : List ℕ)
    → r.buffer ≡ pre ++ (0 ∷ post)
    → pos ≡ length pre
    → stays r.cur_type ≡ false
    → skip_value r.cur_type r.buffer r.buf_offset ≡ some pos
    → next r ≡ some (finished, terminated r pos)
next-end r pos pre post e here live skips =
    next-enters r pos 0 live skips
      (ap (λ l. get_elem? l pos) e ∙ get_elem?-append pre post 0 pos here)
    ∙ enter-ends finished pos r refl
