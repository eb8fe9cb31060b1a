-- ===== src/Telemetry/Append.antt =====
-- The writes of `TelemetryUpdateGroup::send` (core/src/telemetry.cpp) to a buffer whose rest is zeros
-- append to the bytes before it.
use sc_api.Common.{
  ℕ, zero, ◌+◌, ◌-◌, ◌*◌, ◌/◌, ◌%◌, ◌≤◌, ◌≡◌, refl, sym, ◌∙◌, ap, List, [], ◌∷◌, ◌++◌, some, Bool,
  true, false, length, replicate, All, length-append, length-replicate, append_assoc, append-nil,
  take_all, arith, ◌==◌, if◌then◌else◌, not, drop-replicate,
}
use sc_api.Bytes.{le_bytes, read_bytes, write_bytes}
use sc_api.Bytes.Laws.{write_bytes-append, read_bytes-some, length-le_bytes}
use sc_api.Telemetry.{Handles, Cursor, put, next_word, emit, write_bools, write_words, write_values}

-- A cursor behind the bytes `pre`, before `k` zeros.
abbrev pub cursor : List ℕ → ℕ → ℕ → List ℕ → Cursor
cursor pre k j ps = record { buf = pre ++ replicate k 0; payload_idx = j; bufs = ps }

pub cursor-same :
    {pre pre' : List ℕ} {k k' j j' : ℕ} (ps : List ℕ)
    → pre ≡ pre'
    → k ≡ k'
    → j ≡ j'
    → cursor pre k j ps ≡ cursor pre' k' j' ps
cursor-same ps e f g = rw (e, f, g) refl

pub write-zeros :
    (pre bs : List ℕ) (k off : ℕ)
    → off ≡ length pre
    → length bs ≤ k
    → write_bytes (pre ++ replicate k 0) off bs ≡ some ((pre ++ bs) ++ replicate (k - length bs) 0)
write-zeros pre bs k off e h =
    write_bytes-append pre (replicate k 0) bs off e (omega (arith, length-replicate k zero))
    ∙ ap (λ l. some ((pre ++ bs) ++ l)) (drop-replicate (length bs) k zero)

-- What `emit` adds.
abbrev pub emitted : Bool → ℕ → List ℕ
emitted full word = if full then le_bytes 4 word else []

module _ (payload : ℕ) where
  pub put-append :
      (pre bs : List ℕ) (k j : ℕ) (ps : List ℕ)
      → payload + j ≡ length pre
      → length bs ≤ k
      → put payload bs (cursor pre k j ps)
        ≡ some (cursor (pre ++ bs) (k - length bs) (j + length bs) ps)
  unfolding put
  put-append pre bs k j ps e h = rw (write-zeros pre bs k (payload + j) e h) refl

  pub emit-append :
      (full : Bool) (word : ℕ) (pre : List ℕ) (k j : ℕ) (ps : List ℕ)
      → payload + j ≡ length pre
      → length (emitted full word) ≤ k
      → emit payload full word (cursor pre k j ps)
        ≡ some (
            cursor
              (pre ++ emitted full word)
              (k - length (emitted full word))
              (j + length (emitted full word))
              ps)
  unfolding emit
  emit-append true word pre k j ps e room = put-append pre (le_bytes 4 word) k j ps e room
  emit-append false word pre k j ps e room =
      ap some (cursor-same ps (sym (append-nil pre)) (omega arith) (omega arith))

module _ (h : Handles) where
  -- The words that are full, and the word that is last, of the bools `ps` from the index `i` on.
  unfoldable pub full_words : ℕ → ℕ → List ℕ → List ℕ
  full_words i word [] = []
  full_words i word (p ∷ ps) =
      emitted ((i + 1) % 32 == 0) (next_word h i word p)
      ++ full_words (i + 1) (next_word h i word p) ps

  unfoldable pub last_word : ℕ → ℕ → List ℕ → ℕ
  last_word i word [] = word
  last_word i word (p ∷ ps) = last_word (i + 1) (next_word h i word p) ps

  -- The bytes of the bools.
  unfoldable pub bool_area : List ℕ → List ℕ
  bool_area ps = full_words 0 0 ps ++ emitted (not (length ps % 32 == 0)) (last_word 0 0 ps)

  -- The values of the handles, one behind the other.
  unfoldable pub values : List ℕ → List ℕ
  values [] = []
  values (p ∷ ps) = (h p).value ++ values ps

  abbrev pub HasSize : ℕ → ℕ → Type 0
  HasSize size p = length (h p).value ≡ size

length-emitted : (full : Bool) (word : ℕ) → length (emitted full word) ≡ (if full then 4 else 0)
length-emitted true word = length-le_bytes 4 word
length-emitted false word = refl

module _ (h : Handles) where
  length-full_words :
      (i word : ℕ) (ps : List ℕ)
      → length (full_words h i word ps) + 4 * (i / 32) ≡ 4 * ((i + length ps) / 32)
  unfolding full_words
  length-full_words i word [] = omega arith
  length-full_words i word (p ∷ ps) =
      let w = next_word h i word p in
      rw
        (
          length-append (emitted ((i + 1) % 32 == 0) w) (full_words h (i + 1) w ps),
          length-emitted ((i + 1) % 32 == 0) w,
        )
        (ground (arith, length-full_words (i + 1) w ps))

  pub length-bool_area : (ps : List ℕ) → length (bool_area h ps) ≡ 4 * ((length ps + 31) / 32)
  unfolding bool_area
  length-bool_area ps =
      rw
        (
          length-append (full_words h 0 0 ps)
              (emitted (not (length ps % 32 == 0)) (last_word h 0 0 ps)),
          length-emitted (not (length ps % 32 == 0)) (last_word h 0 0 ps),
        )
        (ground (arith, length-full_words 0 0 ps))

  pub length-values :
      (size : ℕ) (ps : List ℕ) → All (HasSize h size) ps → length (values h ps) ≡ size * length ps
  unfolding values
  length-values size [] a = omega arith
  length-values size (p ∷ ps) a = grind (arith, length-append, length-values size ps a.1, a.0)

module _ (h : Handles) (payload : ℕ) where
  write_bools-append :
      (i word : ℕ) (ps : List ℕ) (rest pre : List ℕ) (k j : ℕ)
      → payload + j ≡ length pre
      → length (full_words h i word ps) ≤ k
      → write_bools h payload (length ps) i word (cursor pre k j (ps ++ rest))
        ≡ some (
          last_word h i word ps,
          cursor
              (pre ++ full_words h i word ps)
              (k - length (full_words h i word ps))
              (j + length (full_words h i word ps))
              rest,
        )
  unfolding write_bools full_words last_word
  write_bools-append i word [] rest pre k j e room =
      ap (λ c. some (word, c)) (cursor-same rest (sym (append-nil pre)) (omega arith) (omega arith))
  write_bools-append i word (p ∷ ps) rest pre k j e room =
      let w = next_word h i word p in
      let E : List ℕ = emitted ((i + 1) % 32 == 0) w in
      let F : List ℕ = full_words h (i + 1) w ps in
      let n : length (E ++ F) ≡ length E + length F = length-append E F in
      rw (emit-append payload ((i + 1) % 32 == 0) w pre k j (ps ++ rest) e (omega arith)) (
        write_bools-append (i + 1) w ps rest (pre ++ E) (k - length E) (j + length E)
          (omega (arith, length-append pre E)) (omega arith)
        ∙ ap (λ c. some (last_word h (i + 1) w ps, c))
            (cursor-same rest (append_assoc pre E F) (omega arith) (omega arith)))

  pub write_words-append :
      (ps rest pre : List ℕ) (k j : ℕ)
      → payload + j ≡ length pre
      → length (bool_area h ps) ≤ k
      → write_words h payload (length ps) (cursor pre k j (ps ++ rest))
        ≡ some (
            cursor
              (pre ++ bool_area h ps)
              (k - length (bool_area h ps))
              (j + length (bool_area h ps))
              rest)
  unfolding write_words bool_area
  write_words-append ps rest pre k j e room =
      let F : List ℕ = full_words h 0 0 ps in
      let E : List ℕ = emitted (not (length ps % 32 == 0)) (last_word h 0 0 ps) in
      let n : length (F ++ E) ≡ length F + length E = length-append F E in
      rw (write_bools-append 0 0 ps rest pre k j e (omega arith)) (
        emit-append payload (not (length ps % 32 == 0)) (last_word h 0 0 ps) (pre ++ F)
          (k - length F) (j + length F) rest (omega (arith, length-append pre F)) (omega arith)
        ∙ ap some (cursor-same rest (append_assoc pre F E) (omega arith) (omega arith)))

  whole_value : (size p : ℕ) → HasSize h size p → read_bytes (h p).value 0 size ≡ some (h p).value
  whole_value size p a =
      read_bytes-some (h p).value 0 size (omega arith)
      ∙ ap some (take_all size (h p).value (omega arith))

  pub write_values-append :
      (size : ℕ) (ps rest pre : List ℕ) (k j : ℕ)
      → All (HasSize h size) ps
      → payload + j ≡ length pre
      → length (values h ps) ≤ k
      → write_values h payload size (length ps) (cursor pre k j (ps ++ rest))
        ≡ some
            (cursor (pre ++ values h ps) (k - length (values h ps)) (j + length (values h ps)) rest)
  unfolding write_values values
  write_values-append size [] rest pre k j a e room =
      ap some (cursor-same rest (sym (append-nil pre)) (omega arith) (omega arith))
  write_values-append size (p ∷ ps) rest pre k j a e room =
      let E : List ℕ = (h p).value in
      let F : List ℕ = values h ps in
      let n : length (E ++ F) ≡ length E + length F = length-append E F in
      rw (whole_value size p a.0, put-append payload pre E k j (ps ++ rest) e (omega arith))
        (write_values-append size ps rest (pre ++ E) (k - length E) (j + length E) a.1
            (omega (arith, length-append pre E)) (omega arith)
          ∙ ap some (cursor-same rest (append_assoc pre E F) (omega arith) (omega arith)))
