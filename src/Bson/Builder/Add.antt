-- ===== src/Bson/Builder/Add.antt =====
-- Adding an element: `verifyCapacityAndInsertKey` and a value behind the key
-- (core/src/util/bson_builder.cpp).
use mathlib.Core.Path.{fun_ext}
use sc_api.Common.{
  >>=_assoc, ℕ, ◌+◌, ◌-◌, ◌^◌, ◌≤◌, ◌<◌, ◌≡◌, refl, sym, ap, ap₂, ◌∙◌, List, [], ◌∷◌, ◌++◌, Option,
  some, Bool, true, false, length, drop, arith, length-append, length-drop, append_assoc, ◌>>=◌,
  drop-drop,
}
use sc_api.Bytes.{add32}
use sc_api.Bson.Types.{ElementType, code}
use sc_api.Bson.Value.{key_bytes}
use sc_api.Bson.Builder.{Builder, put, insert_key, verify_enough_capacity}
use sc_api.Bson.Builder.Shape.{Shape, put_lem}

-- A value of `n` bytes: what writes it appends exactly `value`, where there is room.
pub record Writes (n : ℕ) (value : List ℕ) (write : Builder → Option Builder) : Type 0 where
  pub size : length value ≡ n
  pub does :
      (b : Builder) (used free : List ℕ)
      → b.buffer ≡ used ++ free
      → b.offset ≡ length used
      → length used + length free < 2 ^ 31
      → n ≤ length free
      → write b
        ≡ some (record b { buffer = (used ++ value) ++ drop n free; offset = length used + n })

-- A single `memcpy` is such a value; so is one value behind another.
pub put-Writes : (bs : List ℕ) → Writes (length bs) bs (put bs)
put-Writes bs = record { size = refl; does = λ b used free. put_lem b used free bs }

pub Writes-seq :
    (n m k : ℕ) (v w : List ℕ) (f g : Builder → Option Builder)
    → Writes n v f
    → Writes m w g
    → n + m ≡ k
    → Writes k (v ++ w) (λ b. f b >>= g)
Writes-seq n m k v w f g p q e = record {
  size = omega (arith, length-append v w, p.size, q.size);
  does = λ b used free s o small fits.
      let mid : Builder = record b {
        buffer = (used ++ v) ++ drop n free;
        offset = length used + n;
      } in
      let nv : length (used ++ v) ≡ length used + n = omega (arith, length-append used v, p.size) in
      let nf : length (drop n free) ≡ length free - n = length-drop n free in
      let second : g mid
          ≡ some (record b {
            buffer = ((used ++ v) ++ w) ++ drop m (drop n free);
            offset = length (used ++ v) + m;
          }) =
        q.does mid (used ++ v) (drop n free) refl (sym nv) (omega arith) (omega arith) in
      ap (λ r. r >>= g) (p.does b used free s o small (omega arith))
      ∙ second
      ∙ ap₂ (λ buf off. some (record b { buffer = buf; offset = off }))
          (ap₂ ◌++◌ (append_assoc used v w) (drop-drop m n k free (sym e))) (omega arith);
}

-- What a method that adds to the innermost document does. Either it is done, and the builder holds
-- `after` and has `kept` what else there is; or it is rejected, nothing of the builder changes but that its error flag is set, its
-- buffer cannot grow, and `bytes` more bytes do not fit.
pub data Outcome (kept : Builder → Type 0) (footer bytes : ℕ) (before after : List (List ℕ))
    (b : Builder) (res : Option (Bool × Builder)) : Type 0 where
  added :
      (b' : Builder)
      → res ≡ some (true, b')
      → Shape footer after b'
      → kept b'
      → b'.error_flag ≡ b.error_flag
      → b'.growable ≡ b.growable
      → b'.current_usage ≡ b.current_usage + bytes
      → (b.growable ≡ false → b.current_usage + bytes ≤ b.capacity)
      → Outcome kept footer bytes before after b res
  rejected :
      (b' : Builder)
      → res ≡ some (false, b')
      → Shape footer before b'
      → b' ≡ record b { error_flag = true }
      → b.growable ≡ false
      → b.capacity < b.current_usage + bytes
      → Outcome kept footer bytes before after b res

-- The three `memcpy` of a key.
pub write_key : ElementType → List ℕ → Builder → Option Builder
write_key t name b = put (code t ∷ []) b >>= λ b1. put name b1 >>= put (0 ∷ [])

pub write_key-Writes :
    (t : ElementType) (name : List ℕ)
    → Writes (length name + 2) (key_bytes t name) (write_key t name)
unfolding write_key
write_key-Writes t name =
    Writes-seq 1 (length name + 1) (length name + 2) (code t ∷ []) (name ++ (0 ∷ []))
      (put (code t ∷ [])) (λ b1. put name b1 >>= put (0 ∷ [])) (put-Writes (code t ∷ []))
      (Writes-seq (length name) 1 (length name + 1) name (0 ∷ []) (put name) (put (0 ∷ []))
        (put-Writes name) (put-Writes (0 ∷ [])) refl)
      (omega arith)

module _ (grown : ℕ → ℕ → ℕ) (t : ElementType) (name : List ℕ) (n : ℕ) (b : Builder) where
  abbrev pub key_total : ℕ
  key_total = add32 (add32 n 2) (length name)

  unfoldable pub count : Builder → Option (Bool × Builder)
  count b3 = some (true, record b3 { current_usage = add32 b3.current_usage key_total })

  pub insert_key-enough :
      (b' : Builder)
      → verify_enough_capacity grown key_total b ≡ (true, b')
      → insert_key grown t name n b ≡ (write_key t name b' >>= count)
  unfolding insert_key write_key count
  insert_key-enough b' e = rw e (
      sym (
        >>=_assoc (put (code t ∷ []) b') (λ b1. put name b1 >>= put (0 ∷ [])) count
        ∙ ap (λ k. put (code t ∷ []) b' >>= k)
            (fun_ext λ b1. >>=_assoc (put name b1) (put (0 ∷ [])) count)))

  pub insert_key-short :
      (b' : Builder)
      → verify_enough_capacity grown key_total b ≡ (false, b')
      → insert_key grown t name n b ≡ some (false, b')
  unfolding insert_key
  insert_key-short b' e = rw e
