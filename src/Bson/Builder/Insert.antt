-- ===== src/Bson/Builder/Insert.antt =====
-- The methods of `BsonBuilder` that add an element with a value (core/src/util/bson_builder.cpp).
use sc_api.Common.{
  ℕ, ◌+◌, ◌^◌, ◌≤◌, ◌<◌, ◌≡◌, refl, ap, ◌∙◌, List, [], ◌∷◌, ◌++◌, Option, some, Bool, true, length,
  drop, arith, length-append, length-drop, append_assoc, ◌>>=◌,
}
use sc_api.Bson.Types.{ElementType}
use sc_api.Bson.Layout.{Laid-append}
use sc_api.Bson.Value.{key_bytes}
use sc_api.Bson.Builder.{Builder, insert_key, verify_enough_capacity}
use sc_api.Bson.Builder.Elements.{with_value}
use sc_api.Bson.Builder.Shape.{Shape, Grows}
use sc_api.Bson.Builder.Prepare.{IsKept, Prepared, ready, short, verify-Prepared}
use sc_api.Bson.Builder.Add.{
  Writes, Outcome, added, rejected, write_key-Writes, count, insert_key-enough, insert_key-short,
  key_total,
}

pub length-key : (t : ElementType) (name : List ℕ) → length (key_bytes t name) ≡ length name + 2
length-key t name = omega (arith, length-append name (0 ∷ []))

module _ (t : ElementType) (name : List ℕ) (n : ℕ) (b0 : Builder) (footer : ℕ) (body : List ℕ)
    (levels : List (List ℕ)) (s : Shape footer (body ∷ levels) b0)
    (room : b0.current_usage + (n + 2 + length name) ≤ b0.capacity) where
  -- The builder behind the key, with the bytes of the value counted but not written.
  abbrev pub keyed : Builder
  keyed = record b0 {
    buffer = (s.used ++ key_bytes t name) ++ drop (length name + 2) s.free;
    offset = length s.used + (length name + 2);
    current_usage = b0.current_usage + (n + 2 + length name);
  }

  pub keyed_lem :
      (grown : ℕ → ℕ → ℕ) (b : Builder)
      → verify_enough_capacity grown (key_total grown t name n b) b ≡ (true, b0)
      → insert_key grown t name n b ≡ some (true, keyed)
  unfolding count
  keyed_lem grown b e =
      insert_key-enough grown t name n b b0 e
      ∙ ap (λ r. r >>= count grown t name n b)
          ((write_key-Writes t name).does b0 s.used s.free s.split s.ends
            (omega (arith, s.sized, s.small)) (omega (arith, s.sized, s.reserved, s.ends)))
      ∙ ap
          (λ u. some (
            true,
            record b0 {
              buffer = (s.used ++ key_bytes t name) ++ drop (length name + 2) s.free;
              offset = length s.used + (length name + 2);
              current_usage = u;
            },
          ))
          (omega (arith, s.small))

  -- The value behind the key.
  abbrev valued : List ℕ → Builder
  valued value = record b0 {
    buffer = ((s.used ++ key_bytes t name) ++ value) ++ drop n (drop (length name + 2) s.free);
    offset = length (s.used ++ key_bytes t name) + n;
    current_usage = b0.current_usage + (n + 2 + length name);
  }

  value_lem :
      (value : List ℕ) (write : Builder → Option Builder)
      → Writes n value write
      → write keyed ≡ some (valued value)
  value_lem value write w =
      w.does keyed (s.used ++ key_bytes t name) (drop (length name + 2) s.free) refl
        (omega (arith, length-append s.used (key_bytes t name), length-key t name))
        (omega (
          arith,
          length-append s.used (key_bytes t name),
          length-key t name,
          length-drop (length name + 2) s.free,
          s.sized,
          s.small,
          s.reserved,
          s.ends,
        ))
        (omega (arith, length-drop (length name + 2) s.free, s.sized, s.reserved, s.ends))

  valued-Shape :
      (value : List ℕ)
      → length value ≡ n
      → Shape footer ((body ++ (key_bytes t name ++ value)) ∷ levels) (valued value)
  valued-Shape value size =
      let key : List ℕ = key_bytes t name in
      record {
        used = s.used ++ (key ++ value);
        free = drop n (drop (length name + 2) s.free);
        split =
            ap (λ l. l ++ drop n (drop (length name + 2) s.free)) (append_assoc s.used key value);
        ends = omega (
          arith,
          length-append s.used key,
          length-append s.used (key ++ value),
          length-append key value,
        );
        sized = omega (
          arith,
          length-append s.used (key ++ value),
          length-append key value,
          length-key t name,
          length-drop n (drop (length name + 2) s.free),
          length-drop (length name + 2) s.free,
          s.sized,
          s.reserved,
          s.ends,
        );
        small = s.small;
        reserved = omega (arith, s.reserved, s.ends, length-append s.used key, length-key t name);
        within = room;
        deep = s.deep;
        shallow = s.shallow;
        laid = Laid-append (key ++ value) s.laid;
      }

-- A key with `n` bytes counted for what `write` does behind it: done, or rejected.
pub insert-then :
    (grown : ℕ → ℕ → ℕ) (t : ElementType) (name : List ℕ) (n : ℕ) (write : Builder → Option Builder)
    (b : Builder) (footer : ℕ) (body : List ℕ) (levels after : List (List ℕ))
    (kept : Builder → Type 0)
    → Grows grown
    → Shape footer (body ∷ levels) b
    → b.current_usage + (n + 2 + length name) < 2 ^ 31
    → ((b0 : Builder) (s0 : Shape footer (body ∷ levels) b0)
          (h : b0.current_usage + (n + 2 + length name) ≤ b0.capacity)
        → IsKept b b0
        → (b' : Builder) × (write (keyed t name n b0 footer body levels s0 h) ≡ some b')
          × Shape footer after b'
          × kept b'
          × (b'.error_flag ≡ b0.error_flag)
          × (b'.growable ≡ b0.growable)
          × (b'.current_usage ≡ b0.current_usage + (n + 2 + length name)))
    → Outcome kept footer
        (n + 2 + length name)
        (body ∷ levels)
        after
        b
        (with_value (insert_key grown t name n b) write)
insert-then grown t name n write b footer body levels after kept g s room does = go _ refl prepared
  where
    total : key_total grown t name n b ≡ n + 2 + length name
    total = omega arith

    prepared :
        Prepared footer
          (n + 2 + length name)
          (body ∷ levels)
          b
          (verify_enough_capacity grown (key_total grown t name n b) b)
    prepared =
        rw total (verify-Prepared footer (n + 2 + length name) (body ∷ levels) b s grown g room)

    go :
        (res : Bool × Builder)
        → verify_enough_capacity grown (key_total grown t name n b) b ≡ res
        → Prepared footer (n + 2 + length name) (body ∷ levels) b res
        → Outcome kept footer
            (n + 2 + length name)
            (body ∷ levels)
            after
            b
            (with_value (insert_key grown t name n b) write)
    go res e (ready b0 p s0 h flag gr d u fit) =
        let (b', wrote, shape, keeps, same_flag, same_growable, usage) = does b0 s0 h d in
        added b'
          (ap (λ r. with_value r write)
              (keyed_lem t name n b0 footer body levels s0 h grown b (e ∙ p))
            ∙ ap (λ r. r >>= λ b1. some (true, b1)) wrote)
          shape keeps (same_flag ∙ flag) (same_growable ∙ gr) (omega (arith, u, usage)) fit
    go res e (short b0 p s0 flag gr over) =
        rejected b0 (ap (λ r. with_value r write) (insert_key-short grown t name n b b0 (e ∙ p))) s0
          flag gr over

-- The element is added behind the others, or rejected.
pub insert-Outcome :
    (grown : ℕ → ℕ → ℕ) (t : ElementType) (name : List ℕ) (n : ℕ) (value : List ℕ)
    (write : Builder → Option Builder) (b : Builder) (footer : ℕ) (body : List ℕ)
    (levels : List (List ℕ))
    → Grows grown
    → Writes n value write
    → Shape footer (body ∷ levels) b
    → b.current_usage + (n + 2 + length name) < 2 ^ 31
    → Outcome
        (IsKept b)
        footer
        (n + 2 + length name)
        (body ∷ levels)
        ((body ++ (key_bytes t name ++ value)) ∷ levels)
        b
        (with_value (insert_key grown t name n b) write)
insert-Outcome grown t name n value write b footer body levels g w s room =
    insert-then grown t name n write b footer body levels _ (IsKept b) g s room λ b0 s0 h d. (
      valued t name n b0 footer body levels s0 h value,
      value_lem t name n b0 footer body levels s0 h value write w,
      valued-Shape t name n b0 footer body levels s0 h value w.size,
      d,
      refl,
      refl,
      refl,
    )
