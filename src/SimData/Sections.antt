-- ===== src/SimData/Sections.antt =====
-- A section of the simulator's data (core/src/sim_data.cpp) against the tree of its document: the
-- loop takes every sub-document whose key is an id, in order, with the place where it begins.
use sc_api.Common.{
  ℕ, zero, suc, ◌+◌, ◌≤◌, ◌<◌, ◌≡◌, refl, sym, ◌∙◌, ap, List, [], ◌++◌, Option, none, some, false,
  length, arith, append-nil, append_assoc,
}
use sc_api.Bson.Types.{ElementType, finished, is_end_or_error}
use sc_api.Bson.Value.{Value, Fields, end, field, value_bytes, type_of}
use sc_api.Bson.Reader.{Reader, next, stays}
use sc_api.Bson.Reader.Next.{Same}
use sc_api.Bson.Reader.Cross.{IsClean, terminated, Same-trans}
use sc_api.Bson.Reader.Accept.{Begins}
use sc_api.Bson.Reader.Walk.{count, count-le, Visited, visit, finish_walk, enter_sub, element_bytes}
use sc_api.SimData.{Entries, collect, add_entry, add_id, read_section}

module _ {I : Type 0} (id_of : List ℕ → Option I) where
  -- An element whose value begins at an offset, and the elements from an offset on.
  abbrev pub entry_of : List ℕ → Value → ℕ → Entries I
  entry_of k (Value.doc fs) at = add_id (id_of k) at []
  entry_of k v at = []

  unfoldable pub entries_of : ℕ → Fields → Entries I
  unfolding value_bytes
  entries_of pos end = []
  entries_of pos (field k v fs) =
      entry_of k v (pos + (length k + 2))
      ++ entries_of (pos + (length k + 2) + length (value_bytes v)) fs

  add_id-append :
      (o : Option I) (at : ℕ) (acc : Entries I) → add_id o at acc ≡ acc ++ add_id o at []
  add_id-append none at acc = sym (append-nil acc)
  add_id-append (some id) at acc = refl

  add_entry-entry_of :
      (k : List ℕ) (v : Value) (at : ℕ) (r : Reader) (acc : Entries I)
      → r.key ≡ k
      → r.buf_offset ≡ at
      → add_entry id_of (type_of v) r acc ≡ acc ++ entry_of k v at
  add_entry-entry_of k (Value.doc fs) at r acc e f = rw (e, f) (add_id-append (id_of k) at acc)
  add_entry-entry_of k (Value.boolean x) at r acc e f = sym (append-nil acc)
  add_entry-entry_of k (Value.double x) at r acc e f = sym (append-nil acc)
  add_entry-entry_of k (Value.i32 x) at r acc e f = sym (append-nil acc)
  add_entry-entry_of k (Value.i64 x) at r acc e f = sym (append-nil acc)
  add_entry-entry_of k Value.null at r acc e f = sym (append-nil acc)
  add_entry-entry_of k (Value.str s) at r acc e f = sym (append-nil acc)
  add_entry-entry_of k (Value.binary s t) at r acc e f = sym (append-nil acc)

  live-at_end : (t : ElementType) → stays t ≡ false → is_end_or_error t ≡ false
  live-at_end t h = all t h
    where
      all : (t : ElementType) → stays t ≡ false → is_end_or_error t ≡ false
      all ElementType.double h = refl
      all ElementType.str h = refl
      all ElementType.doc h = refl
      all ElementType.array h = refl
      all ElementType.binary h = refl
      all ElementType.boolean h = refl
      all ElementType.null h = refl
      all ElementType.i32 h = refl
      all ElementType.i64 h = refl
      all ElementType.finished h = cc
      all ElementType.unsupported h = cc
      all ElementType.format_error h = cc
      all ElementType.doc_begin h = refl

  collect_step :
      (fuel : ℕ) (r r1 : Reader) (t : ElementType) (acc : Entries I)
      → stays r.cur_type ≡ false
      → next r ≡ some (t, r1)
      → collect id_of (suc fuel) r acc ≡ collect id_of fuel r1 (add_entry id_of t r1 acc)
  unfolding collect
  collect_step fuel r r1 t acc live e = rw (live-at_end r.cur_type live, e, collect) refl

  pub collect-entries :
      (fs : Fields) (pre post : List ℕ) (pos depth fuel : ℕ) (r : Reader) (acc : Entries I)
      → Begins fs pre post pos depth r
      → IsClean fs
      → count fs + 2 ≤ fuel
      → (r' : Reader) × (collect id_of fuel r acc ≡ some (r', acc ++ entries_of pos fs)) × Same r r'
  unfolding entries_of count IsClean
  collect-entries end pre post pos depth zero r acc b c h = absurd (omega arith)
  collect-entries end pre post pos depth (suc zero) r acc b c h = absurd (omega arith)
  collect-entries end pre post pos depth (suc (suc fuel)) r acc b c h = (
    terminated r pos,
    collect_step (suc fuel) r (terminated r pos) finished acc b.live
          (finish_walk pre post pos depth r b)
        ∙ ended,
    record { buffer = refl; layers = refl; doc_end = refl },
  )
    where
      ended : collect id_of (suc fuel) (terminated r pos) acc ≡ some (terminated r pos, acc ++ [])
      ended = unfold collect in ap (λ l. some (terminated r pos, l)) (sym (append-nil acc))
  collect-entries (field k v fs) pre post pos depth zero r acc b c h = absurd (omega arith)
  collect-entries (field k v fs) pre post pos depth (suc fuel) r acc b c h =
      let x = visit k v fs pre post pos depth r b c.0 in
      let (r', e, s) =
        collect-entries fs _ post _ depth fuel x.after (acc ++ entry_of k v (pos + (length k + 2)))
          x.others c.2 (omega arith) in
      (
        r',
        collect_step fuel r x.after (type_of v) acc b.live x.result
            ∙ ap (collect id_of fuel x.after)
                (add_entry-entry_of k v (pos + (length k + 2)) x.after acc x.key x.at)
            ∙ e
            ∙ ap (λ l. some (r', l))
                (append_assoc acc (entry_of k v (pos + (length k + 2)))
                  (entries_of (pos + (length k + 2) + length (value_bytes v)) fs)),
        Same-trans r x.after r' x.same s,
      )

  -- A whole section: the reader comes back to the elements behind it.
  pub read_section-entries :
      (k : List ℕ) (sub fs : Fields) (pre post : List ℕ) (pos depth : ℕ) (r : Reader)
      (acc : Entries I) (x : Visited k (Value.doc sub) fs pre post pos depth r)
      → depth < 16
      → IsClean sub
      → (r' : Reader) × (read_section id_of x.after acc
          ≡ some (r', acc ++ entries_of (pos + (length k + 2) + 4) sub))
        × Begins fs
            (pre ++ element_bytes k (Value.doc sub))
            post
            (pos + (length k + 2) + length (value_bytes (Value.doc sub)))
            depth
            r'
  unfolding read_section
  read_section-entries k sub fs pre post pos depth r acc x shallow clean =
      let y = enter_sub sub fs k pre post pos depth r x shallow in
      let (r1, e, s) =
        collect-entries sub y.front y.back (pos + (length k + 2) + 4) (suc depth)
          (y.inside.cur_doc_end + 2) y.inside acc y.begins clean
          (omega (arith, count-le sub, y.begins.room)) in
      let (r2, f, same, begins) = y.leaves r1 s in (r2, rw (y.enters, e, f) refl, begins)
