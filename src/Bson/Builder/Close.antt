-- ===== src/Bson/Builder/Close.antt =====
-- `endDocument`, `endArray` and `finish` of `BsonBuilder` (core/src/util/bson_builder.cpp).
use sc_api.Common.{
  ℕ, suc, ◌+◌, ◌-◌, ◌^◌, ◌%◌, ◌≤◌, ◌<◌, ◌≡◌, refl, sym, ap, ◌∙◌, List, [], ◌∷◌, ◌++◌, some, false,
  length, take, drop, arith, length-append, length-drop, take-append_self, drop-append_self,
  drop-drop, append_assoc, ◌==◌, not, ◌||◌,
}
use sc_api.Bytes.{le_bytes, write_bytes, read_bytes}
use sc_api.Bytes.Laws.{write_bytes-middle, length-le_bytes, read_bytes-append}
use sc_api.Bson.Layout.{
  Laid-append, document, length-document, Opened, Laid-Opened, Root, Laid-Root,
}
use sc_api.Bson.Builder.{Builder, put, close_at, end_document, finish}
use sc_api.Bson.Builder.Shape.{Shape, put_lem}

module _ (b : Builder) (pre size body free : List ℕ)
    (split : b.buffer ≡ (pre ++ (size ++ body)) ++ free)
    (ends : b.offset ≡ length (pre ++ (size ++ body)))
    (small : length (pre ++ (size ++ body)) + length free < 2 ^ 31) (room : 1 ≤ length free)
    (four : length size ≡ 4) where
  -- The builder behind the terminator.
  abbrev ended : Builder
  ended = record b {
    buffer = ((pre ++ (size ++ body)) ++ (0 ∷ [])) ++ drop 1 free;
    offset = length (pre ++ (size ++ body)) + 1;
  }

  ended_lem : put (0 ∷ []) b ≡ some ended
  ended_lem = put_lem b (pre ++ (size ++ body)) free (0 ∷ []) split ends small room

  regroup : ended.buffer ≡ pre ++ (size ++ ((body ++ (0 ∷ [])) ++ drop 1 free))
  regroup =
      ap (λ l. l ++ drop 1 free) (append_assoc pre (size ++ body) (0 ∷ []))
      ∙ append_assoc pre ((size ++ body) ++ (0 ∷ [])) (drop 1 free)
      ∙ ap (λ l. pre ++ l)
          (ap (λ l. l ++ drop 1 free) (append_assoc size body (0 ∷ []))
            ∙ append_assoc size (body ++ (0 ∷ [])) (drop 1 free))

  -- The size at its place makes it a document.
  sized_lem :
      write_bytes ended.buffer (length pre) (le_bytes 4 (length body + 5))
      ≡ some ((pre ++ document body) ++ drop 1 free)
  sized_lem =
      let n : ℕ = length body + 5 in
      let tail : List ℕ = drop 1 free in
      ap (λ l. write_bytes l (length pre) (le_bytes 4 n)) regroup
      ∙ write_bytes-middle pre size ((body ++ (0 ∷ [])) ++ tail) (le_bytes 4 n) (length pre) refl
          (omega (arith, length-le_bytes 4 n))
      ∙ ap some (
          ap (λ l. pre ++ l) (sym (append_assoc (le_bytes 4 n) (body ++ (0 ∷ [])) tail))
          ∙ sym (append_assoc pre (document body) tail))

  length_all : length (pre ++ (size ++ body)) ≡ length pre + 4 + length body
  length_all = omega (arith, length-append pre (size ++ body), length-append size body)

  -- What `endDocument` writes.
  close_at_lem :
      (at : ℕ) (others : List ℕ)
      → at ≡ length pre
      → 0 < b.depth
      → b.depth < 64
      → close_at (at ∷ others) b
        ≡ some (record b {
          document_size_offsets = others;
          buffer = (pre ++ document body) ++ drop 1 free;
          offset = length (pre ++ (size ++ body)) + 1;
          depth = b.depth - 1;
        })
  unfolding close_at
  close_at_lem at others e d sh =
      let p : put (0 ∷ []) (record b { document_size_offsets = others })
          ≡ some (record ended { document_size_offsets = others }) =
        put_lem (record b { document_size_offsets = others }) (pre ++ (size ++ body)) free (0 ∷ [])
          split ends small room in
      let n : (length (pre ++ (size ++ body)) + 1 + 2 ^ 32 - at) % 2 ^ 32 ≡ length body + 5 =
        omega (arith, length_all) in
      let m : (b.depth + 2 ^ 32 - 1) % 2 ^ 32 ≡ b.depth - 1 = omega arith in
      rw p (
        rw n (
          rw e (
            rw sized_lem (
              ap
                (λ k. some (record b {
                  document_size_offsets = others;
                  buffer = (pre ++ document body) ++ drop 1 free;
                  offset = length (pre ++ (size ++ body)) + 1;
                  depth = k;
                }))
                m))))

  finish_steps :
      b.start_offset ≡ length pre
      → b.depth ≡ 0
      → b.error_flag ≡ false
      → finish b
        ≡ some
            (some (document body), record ended { buffer = (pre ++ document body) ++ drop 1 free })
  unfolding finish
  finish_steps e d clean =
      let test : (not (b.depth == 0) || b.error_flag) ≡ false = ground arith in
      let n : (length (pre ++ (size ++ body)) + 1 + 2 ^ 32 - b.start_offset) % 2 ^ 32
          ≡ length body + 5 =
        omega (arith, length_all) in
      let w : write_bytes ended.buffer b.start_offset (le_bytes 4 (length body + 5))
          ≡ some ((pre ++ document body) ++ drop 1 free) =
        ap (λ a. write_bytes ended.buffer a (le_bytes 4 (length body + 5))) e ∙ sized_lem in
      let r : read_bytes ((pre ++ document body) ++ drop 1 free) b.start_offset (length body + 5)
          ≡ some (document body) =
        ap (λ l. read_bytes l b.start_offset (length body + 5))
          (append_assoc pre (document body) (drop 1 free))
        ∙ read_bytes-append pre (document body) (drop 1 free) b.start_offset (length body + 5) e
            (sym (length-document body)) in
      rw test (rw ended_lem (rw n (rw w (rw r))))

-- `endDocument` with an inner document open always has room: it adds the innermost document,
-- complete, to the elements of the next, counts no more bytes as used and leaves the error flag.
pub end_document_lem :
    (b : Builder) (footer : ℕ) (body next : List ℕ) (levels : List (List ℕ))
    → Shape footer (body ∷ next ∷ levels) b
    → (b' : Builder) × (end_document b ≡ some b')
      × Shape footer ((next ++ document body) ∷ levels) b'
      × (b'.error_flag ≡ b.error_flag)
      × (b'.growable ≡ b.growable)
      × (b'.depth + 1 ≡ b.depth)
      × (b'.current_usage ≡ b.current_usage)
unfolding end_document
end_document_lem b footer body next levels s =
    let o : Opened b.start_offset s.used b.document_size_offsets body (next ∷ levels) =
      Laid-Opened s.laid in
    let deep : b.depth ≡ suc (length o.others) = s.deep ∙ ap length o.top in
    let n : length s.used ≡ length o.outer + 4 + length body = omega (
      arith,
      ap length o.parts,
      length-append o.outer (o.size ++ body),
      length-append o.size body,
      o.four,
    ) in
    let room : 1 ≤ length s.free = omega (arith, s.sized, s.reserved, s.within, s.ends) in
    (
      record b {
        document_size_offsets = o.others;
        buffer = (o.outer ++ document body) ++ drop 1 s.free;
        offset = length (o.outer ++ (o.size ++ body)) + 1;
        depth = b.depth - 1;
      },
      ap (λ l. close_at l b) o.top
          ∙ close_at_lem b o.outer o.size body s.free (s.split ∙ ap (λ l. l ++ s.free) o.parts)
              (s.ends ∙ ap length o.parts) (omega (arith, ap length o.parts, s.sized, s.small)) room
              o.four o.at o.others o.begins (omega arith) s.shallow,
      record {
        used = o.outer ++ document body;
        free = drop 1 s.free;
        split = refl;
        ends = omega (
          arith,
          length-append o.outer (document body),
          length-document body,
          ap length o.parts,
          n,
        );
        sized = omega (
          arith,
          length-append o.outer (document body),
          length-document body,
          n,
          s.sized,
          length-drop 1 s.free,
        );
        small = s.small;
        reserved = omega (arith, s.reserved, s.ends, ap length o.parts);
        within = s.within;
        deep = omega (arith, deep);
        shallow = omega (arith, s.shallow);
        laid = Laid-append (document body) o.rest;
      },
      refl,
      refl,
      omega arith,
      refl,
    )

-- With no inner document open and no error `finish` always has room and gives the whole document;
-- the buffer keeps its bytes before `start_offset` and behind the terminator.
pub finish_lem :
    (b : Builder) (footer : ℕ) (body : List ℕ)
    → Shape footer (body ∷ []) b
    → b.error_flag ≡ false
    → (b' : Builder) × (header : List ℕ) × (finish b ≡ some (some (document body), b'))
      × (take b.start_offset b.buffer ≡ header)
      × (b'.buffer ≡ (header ++ document body) ++ drop (b.offset + 1) b.buffer)
finish_lem b footer body s clean =
    let o : Root b.start_offset s.used b.document_size_offsets body = Laid-Root s.laid in
    let n : length s.used ≡ length o.header + 4 + length body = omega (
      arith,
      ap length o.parts,
      length-append o.header (o.size ++ body),
      length-append o.size body,
      o.four,
    ) in
    let whole : b.buffer ≡ (o.header ++ (o.size ++ body)) ++ s.free =
      s.split ∙ ap (λ l. l ++ s.free) o.parts in
    (
      record b {
        buffer = (o.header ++ document body) ++ drop 1 s.free;
        offset = length (o.header ++ (o.size ++ body)) + 1;
      },
      o.header,
      finish_steps b o.header o.size body s.free whole (s.ends ∙ ap length o.parts)
          (omega (arith, ap length o.parts, s.sized, s.small))
          (omega (arith, s.sized, s.reserved, s.within, s.ends)) o.four (sym o.begins)
          (s.deep ∙ ap length o.alone) clean,
      ap (take b.start_offset) (whole ∙ append_assoc o.header (o.size ++ body) s.free)
          ∙ take-append_self b.start_offset o.header ((o.size ++ body) ++ s.free) (sym o.begins),
      ap (λ l. (o.header ++ document body) ++ l)
          (sym (
            ap (drop (b.offset + 1)) s.split
            ∙ sym (
                drop-drop 1 (length s.used) (b.offset + 1) (s.used ++ s.free)
                  (omega (arith, s.ends)))
            ∙ ap (drop 1) (drop-append_self (length s.used) s.used s.free refl))),
    )
