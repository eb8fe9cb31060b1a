-- ===== src/Bson/Builder/Shape.antt =====
-- The invariant of `BsonBuilder` (core/src/util/bson_builder.cpp): what its fields say of the bytes
-- in its buffer, and that room is reserved for every terminator still to be written.
use sc_api.Common.{
  ℕ, zero, ◌+◌, ◌-◌, ◌^◌, ◌≤◌, ◌<◌, ◌≡◌, ap, ◌∙◌, List, ◌++◌, some, Bool, true, false, length, drop,
  arith, length-append, replicate, length-replicate, Bool-cases, inl, inr, if◌then◌else◌,
}
use sc_api.Bytes.{add32, sle32}
use sc_api.Bytes.Laws.{write_bytes-append}
use sc_api.Bson.Layout.{Laid}
use sc_api.Bson.Builder.{Builder, put, verify_enough_capacity}

-- `Shape footer levels b`: the used bytes hold the open documents `levels`, innermost first;
-- `current_usage` counts them, a terminator for each and `footer` more bytes, and all fit.
pub record Shape (footer : ℕ) (levels : List (List ℕ)) (b : Builder) : Type 0 where
  pub used : List ℕ
  pub free : List ℕ
  pub split : b.buffer ≡ used ++ free
  pub ends : b.offset ≡ length used
  pub sized : b.capacity ≡ length used + length free
  pub small : b.capacity < 2 ^ 31
  pub reserved : b.current_usage ≡ b.offset + b.depth + 1 + footer
  pub within : b.current_usage ≤ b.capacity
  pub deep : b.depth ≡ length b.document_size_offsets
  pub shallow : b.depth < 64
  pub laid : Laid b.start_offset used b.document_size_offsets levels

-- Bytes that fit go behind the used ones.
pub put_lem :
    (b : Builder) (used free bs : List ℕ)
    → b.buffer ≡ used ++ free
    → b.offset ≡ length used
    → length used + length free < 2 ^ 31
    → length bs ≤ length free
    → put bs b
      ≡ some (record b {
        buffer = (used ++ bs) ++ drop (length bs) free;
        offset = length used + length bs;
      })
unfolding put
put_lem b used free bs e o small fits =
    let sum : add32 b.offset (length bs) ≡ length used + length bs = omega arith in
    rw (e, write_bytes-append used free bs b.offset o fits)
      (ap (λ n. some (record b { buffer = (used ++ bs) ++ drop (length bs) free; offset = n })) sum)

-- What is known of how a vector of `n` bytes grows: the capacity after `reserve(m)` is at least `m`,
-- no less than `n`, and fits an `int32_t` when both do.
pub record Grows (grown : ℕ → ℕ → ℕ) : Type 0 where
  pub enough : (n m : ℕ) → m ≤ grown n m
  pub no_less : (n m : ℕ) → n ≤ grown n m
  pub fits : (n m : ℕ) → n < 2 ^ 31 → m < 2 ^ 31 → grown n m < 2 ^ 31

-- The answers of `verifyEnoughCapacity`: the bytes fit; or the vector grew by `more` bytes and they
-- fit then; or the buffer cannot grow, they do not fit, and the error flag is set.
pub data Verified (bytes : ℕ) (b : Builder) (res : Bool × Builder) : Type 0 where
  fitting : res ≡ (true, b) → b.current_usage + bytes ≤ b.capacity → Verified bytes b res
  grew :
      (more : ℕ)
      → res
        ≡ (true, record b { buffer = b.buffer ++ replicate more 0; capacity = b.capacity + more })
      → b.growable ≡ true
      → b.current_usage + bytes ≤ b.capacity + more
      → b.capacity + more < 2 ^ 31
      → Verified bytes b res
  refused :
      res ≡ (false, record b { error_flag = true })
      → b.growable ≡ false
      → b.capacity < b.current_usage + bytes
      → Verified bytes b res

third_branch {ℓ} :
    {A : Type ℓ} (p q r : Bool) (x y z w : A)
    → p ≡ false
    → q ≡ true
    → r ≡ true
    → (if p then x else if q then (if r then y else z) else w) ≡ y
third_branch p q r x y z w a b c = rw (a, b, c)

module _ (grown : ℕ → ℕ → ℕ) (g : Grows grown) (bytes : ℕ) (b : Builder)
    (sized : b.capacity ≡ length b.buffer) (small : b.capacity < 2 ^ 31)
    (room : b.current_usage + bytes < 2 ^ 31) where
  abbrev need : ℕ
  need = add32 b.current_usage bytes

  need_lem : need ≡ b.current_usage + bytes
  need_lem = omega arith

  verify_fits :
      sle32 need b.capacity ≡ true → Verified bytes b (verify_enough_capacity grown bytes b)
  unfolding verify_enough_capacity
  verify_fits e = fitting (rw e) (ground arith)

  verify_refused :
      sle32 need b.capacity ≡ false
      → b.growable ≡ false
      → Verified bytes b (verify_enough_capacity grown bytes b)
  unfolding verify_enough_capacity
  verify_refused e f = refused (rw (e, f)) f (ground arith)

  verify_grew :
      sle32 need b.capacity ≡ false
      → b.growable ≡ true
      → Verified bytes b (verify_enough_capacity grown bytes b)
  unfolding verify_enough_capacity
  verify_grew e f =
      let size : ℕ = length b.buffer in
      let more : ℕ = grown size need - size in
      let buf : List ℕ = b.buffer ++ replicate more 0 in
      let n : length buf ≡ b.capacity + more =
        omega (arith, length-append b.buffer (replicate more 0), length-replicate more zero) in
      let h : b.current_usage + bytes ≤ b.capacity + more = omega (arith, g.enough size need) in
      let k : b.capacity + more < 2 ^ 31 =
        omega (arith, g.no_less size need, g.fits size need (omega arith) (omega arith)) in
      let yes_fits : sle32 need (length buf) ≡ true = ground arith in
      grew more
        (third_branch _ _ _ _ _ _ _ e f yes_fits
          ∙ ap (λ c. (true, record b { buffer = buf; capacity = c })) n)
        f h k

  pub verify-Verified : Verified bytes b (verify_enough_capacity grown bytes b)
  verify-Verified = elim (Bool-cases (sle32 need b.capacity)) [
    | inl e ↦ verify_fits e
    | inr e ↦ elim (Bool-cases b.growable) [ inl f ↦ verify_grew e f | inr f ↦ verify_refused e f ]
  ]
