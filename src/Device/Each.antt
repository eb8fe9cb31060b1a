-- ===== src/Device/Each.antt =====
-- The loops of core/src/device_info.cpp over the elements of a document: what a loop gives is what
-- its body does for one element after the other.
use sc_api.Common.{
  ℕ, zero, suc, ◌+◌, ◌<◌, ◌≡◌, refl, ◌∙◌, ap, List, ◌++◌, Option, some, false, length, arith, ◌>>=◌,
}
use sc_api.Bson.Types.{ElementType, is_end_or_error}
use sc_api.Bson.Value.{Value, Fields, end, field, value_bytes, type_of}
use sc_api.Bson.Reader.{Reader, next}
use sc_api.Bson.Reader.Next.{Same}
use sc_api.Bson.Reader.Cross.{IsClean, IsCleanValue, terminated, Same-trans}
use sc_api.Bson.Reader.Accept.{Begins}
use sc_api.Bson.Reader.Walk.{Visited, visit, finish_walk, enter_sub, element_bytes, count, count-le}
use sc_api.Device.{each, loop, inside}

type_of-is_element : (v : Value) → is_end_or_error (type_of v) ≡ false
type_of-is_element (Value.boolean x) = refl
type_of-is_element (Value.double x) = refl
type_of-is_element (Value.i32 x) = refl
type_of-is_element (Value.i64 x) = refl
type_of-is_element Value.null = refl
type_of-is_element (Value.str s) = refl
type_of-is_element (Value.binary s t) = refl
type_of-is_element (Value.doc fs) = refl

-- The reader that a branch leaves at the elements behind, and what it gives.
abbrev pub Leaves :
    {S : Type 0}
    → List ℕ
    → Value
    → Fields
    → List ℕ
    → List ℕ
    → ℕ
    → ℕ
    → Reader
    → Option (Reader × S)
    → S
    → Type 0
Leaves k v fs pre post pos depth after res s =
    (r' : Reader) × (res ≡ some (r', s))
    × Same after r'
    × Begins fs (pre ++ element_bytes k v) post (pos + (length k + 2) + length (value_bytes v))
        depth r'

-- What a document's elements do from an offset on, by what an element does.
module _ {S : Type 0} (eff : List ℕ → Value → ℕ → S → S) where
  unfoldable pub fold : Fields → ℕ → S → S
  fold end pos s = s
  fold (field k v fs) pos s =
      fold fs (pos + (length k + 2) + length (value_bytes v)) (eff k v (pos + (length k + 2)) s)

module _ {S : Type 0} (body : ElementType → Reader → S → Option (Reader × S))
    (eff : List ℕ → Value → ℕ → S → S) where
  -- The body does to what is read what `eff` says, and leaves the reader where the loop goes on.
  abbrev pub Follows : ℕ → Type 0
  Follows depth =
      (k : List ℕ) (v : Value) (fs : Fields) (pre post : List ℕ) (pos : ℕ) (r : Reader) (s : S)
      (x : Visited k v fs pre post pos depth r)
      → IsCleanValue v
      → Leaves k v fs pre post pos depth x.after (body (type_of v) x.after s)
          (eff k v (pos + (length k + 2)) s)

  each-ends :
      (fuel : ℕ) (r r1 : Reader) (s : S)
      → next r ≡ some (ElementType.finished, r1)
      → each body (suc fuel) r s ≡ some (r1, s)
  unfolding each
  each-ends fuel r r1 s e = rw (e, each) refl

  each-goes_on :
      (fuel : ℕ) (r r1 r2 : Reader) (t : ElementType) (s s2 : S)
      → next r ≡ some (t, r1)
      → is_end_or_error t ≡ false
      → body t r1 s ≡ some (r2, s2)
      → each body (suc fuel) r s ≡ each body fuel r2 s2
  unfolding each
  each-goes_on fuel r r1 r2 t s s2 e f g = rw (e, each) (rw (f, g) refl)

  each-fold :
      (fs : Fields) (pre post : List ℕ) (pos depth fuel : ℕ) (r : Reader) (s : S)
      → Follows depth
      → Begins fs pre post pos depth r
      → IsClean fs
      → count fs < fuel
      → (r' : Reader) × (each body fuel r s ≡ some (r', fold eff fs pos s))
        × Same r r'
        × (r'.cur_type ≡ ElementType.finished)
  unfolding fold count IsClean
  each-fold fs pre post pos depth zero r s f b c h = absurd (omega arith)
  each-fold end pre post pos depth (suc fuel) r s f b c h = (
    terminated r pos,
    each-ends fuel r (terminated r pos) s (finish_walk pre post pos depth r b),
    record { buffer = refl; layers = refl; doc_end = refl },
    refl,
  )
  each-fold (field k v fs) pre post pos depth (suc fuel) r s f b c h =
      let x = visit k v fs pre post pos depth r b c.0 in
      let (r1, e, same, b1) = f k v fs pre post pos r s x c.1 in
      let (r2, g, same2, done) = each-fold fs _ post _ depth fuel r1 _ f b1 c.2 (omega arith) in
      (
        r2,
        each-goes_on fuel r x.after r1 (type_of v) s _ x.result (type_of-is_element v) e ∙ g,
        Same-trans r x.after r2 x.same (Same-trans x.after r1 r2 same same2),
        done,
      )

  pub loop-ends :
      (fs : Fields) (pre post : List ℕ) (pos depth : ℕ) (r : Reader) (s : S)
      → Follows depth
      → Begins fs pre post pos depth r
      → IsClean fs
      → (r' : Reader) × (loop body r s ≡ some (r', fold eff fs pos s))
        × Same r r'
        × (r'.cur_type ≡ ElementType.finished)
  loop-ends fs pre post pos depth r s f b c =
      each-fold fs pre post pos depth (r.cur_doc_end + 2) r s f b c
        (omega (arith, count-le fs, b.room))

  pub loop-fold :
      (fs : Fields) (pre post : List ℕ) (pos depth : ℕ) (r : Reader) (s : S)
      → Follows depth
      → Begins fs pre post pos depth r
      → IsClean fs
      → (r' : Reader) × (loop body r s ≡ some (r', fold eff fs pos s)) × Same r r'
  loop-fold fs pre post pos depth r s f b c =
      let (r', e, same, done) = loop-ends fs pre post pos depth r s f b c in (r', e, same)

-- What is read inside a sub-document, with the reader behind it then.
pub inside-Leaves :
    {S : Type 0} (read : Reader → Option (Reader × S)) (sub fs : Fields) (k pre post : List ℕ)
    (pos depth : ℕ) (r : Reader) (s : S) (x : Visited k (Value.doc sub) fs pre post pos depth r)
    → depth < 16
    → ((front back : List ℕ) (b : Reader)
        → Begins sub front back (pos + (length k + 2) + 4) (suc depth) b
        → (b' : Reader) × (read b ≡ some (b', s)) × Same b b')
    → Leaves k (Value.doc sub) fs pre post pos depth x.after (inside read x.after) s
inside-Leaves read sub fs k pre post pos depth r s x shallow reads =
    let y = enter_sub sub fs k pre post pos depth r x shallow in
    let (b', e, same) = reads y.front y.back y.inside y.begins in
    let (r', f, same', begins) = y.leaves b' same in (r', rw (y.enters, e, f) refl, same', begins)

-- A branch that leaves the reader at its element.
pub stays-Leaves :
    {S : Type 0} {k : List ℕ} {v : Value} {fs : Fields} {pre post : List ℕ} {pos depth : ℕ}
    {r : Reader} {res : Option (Reader × S)} {s : S} (x : Visited k v fs pre post pos depth r)
    → res ≡ some (x.after, s)
    → Leaves k v fs pre post pos depth x.after res s
stays-Leaves x e = (x.after, e, record { buffer = refl; layers = refl; doc_end = refl }, x.others)

-- What a branch makes of what is read.
pub bind-Leaves :
    {S T : Type 0} (f : S → T) (k : List ℕ) (v : Value) (fs : Fields) (pre post : List ℕ)
    (pos depth : ℕ) (after : Reader) {res : Option (Reader × S)} {s : S} {t : T}
    → Leaves k v fs pre post pos depth after res s
    → f s ≡ t
    → Leaves k v fs pre post pos depth after (res >>= λ q. some (q.0, f q.1)) t
bind-Leaves f k v fs pre post pos depth after (r', e, same, begins) g =
    (r', rw e (ap (λ t. some (r', t)) g), same, begins)
