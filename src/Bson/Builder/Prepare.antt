-- ===== src/Bson/Builder/Prepare.antt =====
-- `verifyEnoughCapacity` of `BsonBuilder` (core/src/util/bson_builder.cpp) keeps the invariant.
use sc_api.Common.{
  ℕ, zero, ◌+◌, ◌^◌, ◌≤◌, ◌<◌, ◌≡◌, refl, ap, ◌∙◌, List, ◌++◌, Bool, true, false, length, arith,
  length-append, append_assoc, replicate, length-replicate,
}
use sc_api.Bson.Builder.{Builder, verify_enough_capacity}
use sc_api.Bson.Builder.Shape.{Shape, Grows, Verified, fitting, grew, refused, verify-Verified}

-- Nothing changes but the buffer, its size, the bytes in use, the error flag and where the next byte
-- goes.
abbrev pub IsKept : Builder → Builder → Type 0
IsKept b b' =
    (b'.start_offset ≡ b.start_offset)
    × (b'.document_size_offsets ≡ b.document_size_offsets)
    × (b'.array_idx_counters ≡ b.array_idx_counters)
    × (b'.doc_is_array_bits ≡ b.doc_is_array_bits)
    × (b'.depth ≡ b.depth)

-- There is room for `bytes` more bytes now, or there is none and the error flag is set.
pub data Prepared (footer bytes : ℕ) (levels : List (List ℕ)) (b : Builder) (res : Bool × Builder)
    : Type 0 where
  ready :
      (b0 : Builder)
      → res ≡ (true, b0)
      → Shape footer levels b0
      → b0.current_usage + bytes ≤ b0.capacity
      → b0.error_flag ≡ b.error_flag
      → b0.growable ≡ b.growable
      → IsKept b b0
      → b0.current_usage ≡ b.current_usage
      → (b.growable ≡ false → b.current_usage + bytes ≤ b.capacity)
      → Prepared footer bytes levels b res
  short :
      (b0 : Builder)
      → res ≡ (false, b0)
      → Shape footer levels b0
      → b0 ≡ record b { error_flag = true }
      → b.growable ≡ false
      → b.capacity < b.current_usage + bytes
      → Prepared footer bytes levels b res

module _ (footer bytes : ℕ) (levels : List (List ℕ)) (b : Builder) (s : Shape footer levels b) where
  -- A longer buffer has more free bytes.
  longer-Shape :
      (more : ℕ)
      → b.capacity + more < 2 ^ 31
      → Shape footer levels
          (record b { buffer = b.buffer ++ replicate more 0; capacity = b.capacity + more })
  longer-Shape more h = record {
    used = s.used;
    free = s.free ++ replicate more 0;
    split = ap (λ l. l ++ replicate more 0) s.split ∙ append_assoc s.used s.free (replicate more 0);
    ends = s.ends;
    sized =
        omega (arith, length-append s.free (replicate more 0), length-replicate more zero, s.sized);
    small = h;
    reserved = s.reserved;
    within = omega (arith, s.within);
    deep = s.deep;
    shallow = s.shallow;
    laid = s.laid;
  }

  flagged-Shape : Shape footer levels (record b { error_flag = true })
  flagged-Shape = record {
    used = s.used;
    free = s.free;
    split = s.split;
    ends = s.ends;
    sized = s.sized;
    small = s.small;
    reserved = s.reserved;
    within = s.within;
    deep = s.deep;
    shallow = s.shallow;
    laid = s.laid;
  }

  prepare : (res : Bool × Builder) → Verified bytes b res → Prepared footer bytes levels b res
  prepare res (fitting e h) = ready b e s h refl refl (refl, refl, refl, refl, refl) refl (λ _. h)
  prepare res (grew more e f h k) =
      ready _ e (longer-Shape more k) h refl refl (refl, refl, refl, refl, refl) refl (λ fixed. cc)
  prepare res (refused e f h) = short _ e flagged-Shape refl f h

  pub verify-Prepared :
      (grown : ℕ → ℕ → ℕ)
      → Grows grown
      → b.current_usage + bytes < 2 ^ 31
      → Prepared footer bytes levels b (verify_enough_capacity grown bytes b)
  verify-Prepared grown g room = prepare _ (
      verify-Verified grown g bytes b
        (omega (arith, s.sized, ap length s.split, length-append s.used s.free)) s.small room)
