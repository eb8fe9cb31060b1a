-- ===== src/Telemetry/Bools.antt =====
-- The words that `TelemetryUpdateGroup::send` (core/src/telemetry.cpp) makes of at most 32 bools.
use sc_api.Common.{
  ℕ, suc, ◌+◌, ◌*◌, ◌/◌, ◌-◌, ◌%◌, ◌^◌, ◌≤◌, ◌<◌, ◌≡◌, refl, ◌∙◌, ap, List, [], ◌∷◌, ◌++◌, some,
  true, false, length, append-nil, arith, ◌==◌, if◌then◌else◌, Bool-cases, inl, inr,
}
use native.Mathlib.Nat.{div-eq_of_lt, two-pow-succ}
use sc_api.Bytes.{le_bytes}
use sc_api.Bytes.Laws.{length-le_bytes}
use sc_api.Telemetry.{Handles, is_true, set_bit, next_word, write_words}
use sc_api.Telemetry.Append.{
  full_words, last_word, bool_area, cursor, cursor-same, write_words-append,
}

module _ (h : Handles) where
  -- The number whose binary digits are the bools, from the digit `i` on.
  unfoldable pub bits_from : ℕ → List ℕ → ℕ
  bits_from i [] = 0
  bits_from i (p ∷ ps) = (if is_true (h p).value then 2 ^ i else 0) + bits_from (i + 1) ps

  set_bit-above : (w i : ℕ) → w < 2 ^ i → set_bit w i ≡ w + 2 ^ i
  set_bit-above w i k = let z : w / 2 ^ i ≡ 0 = div-eq_of_lt k in rw z refl

  double : (i : ℕ) → 2 ^ (i + 1) ≡ 2 * 2 ^ i
  double i =
      let e : i + 1 ≡ suc i = omega arith in
      let t : 2 ^ suc i ≡ 2 ^ i + 2 ^ i = two-pow-succ i in ap (λ k. 2 ^ k) e ∙ t ∙ omega arith

  next_word-above :
      (i w p : ℕ)
      → i < 32
      → w < 2 ^ i
      → (next_word h i w p ≡ w + (if is_true (h p).value then 2 ^ i else 0))
        × (next_word h i w p < 2 ^ (i + 1))
  next_word-above i w p a k =
      let m : i % 32 ≡ i = omega arith in
      elim (Bool-cases (is_true (h p).value)) [
        | inl e ↦ rw (e, m, set_bit-above w i k) (refl, omega (arith, double i))
        | inr e ↦ rw e (omega arith, omega (arith, double i))
      ]

  last_word-bits :
      (i w : ℕ) (ps : List ℕ)
      → i + length ps ≤ 32
      → w < 2 ^ i
      → last_word h i w ps ≡ w + bits_from i ps
  unfolding last_word bits_from
  last_word-bits i w [] a k = omega arith
  last_word-bits i w (p ∷ ps) a k =
      let n = next_word-above i w p (omega arith) k in
      last_word-bits (i + 1) (next_word h i w p) ps (omega arith) n.1 ∙ omega (arith, n.0)

  full_words-none : (i w : ℕ) (ps : List ℕ) → i + length ps < 32 → full_words h i w ps ≡ []
  unfolding full_words
  full_words-none i w [] a = refl
  full_words-none i w (p ∷ ps) a =
      let e : ((i + 1) % 32 == 0) ≡ false = ground arith in
      rw e (full_words-none (i + 1) (next_word h i w p) ps (omega arith))

  full_words-one :
      (i w p : ℕ) (ps : List ℕ)
      → i + suc (length ps) ≡ 32
      → full_words h i w (p ∷ ps) ≡ le_bytes 4 (last_word h i w (p ∷ ps))
  unfolding full_words last_word
  full_words-one i w p [] a =
      let e : ((i + 1) % 32 == 0) ≡ true = ground arith in
      rw e (append-nil (le_bytes 4 (next_word h i w p)))
  full_words-one i w p (q ∷ ps) a =
      let e : ((i + 1) % 32 == 0) ≡ false = ground arith in
      rw e (full_words-one (i + 1) (next_word h i w p) q ps (omega arith))

  bool_area-bits :
      (p : ℕ) (ps : List ℕ)
      → length ps < 32
      → bool_area h (p ∷ ps) ≡ le_bytes 4 (bits_from 0 (p ∷ ps))
  unfolding bool_area
  bool_area-bits p ps a =
      let same : last_word h 0 0 (p ∷ ps) ≡ bits_from 0 (p ∷ ps) =
        last_word-bits 0 0 (p ∷ ps) (omega arith) (omega arith) ∙ omega arith in
      elim (Bool-cases (suc (length ps) % 32 == 0)) [
        | inl e ↦
            let full : 0 + suc (length ps) ≡ 32 = ground arith in
            rw (e, append-nil) (full_words-one 0 0 p ps full ∙ ap (le_bytes 4) same)
        | inr e ↦
            let part : 0 + suc (length ps) < 32 = ground arith in
            rw (e, full_words-none 0 0 (p ∷ ps) part) (ap (le_bytes 4) same)
      ]

  -- Where the bools of a group are written, behind the bytes `pre` and before at least four zeros, at
  -- least one and at most 32 of them become four bytes: the word whose binary digit `i` is the bool
  -- number `i`, lowest byte first. The bools are taken from the buffers, whose rest stays.
  pub write_words-bits :
      (payload p : ℕ) (ps rest pre : List ℕ) (k j : ℕ)
      → length ps < 32
      → payload + j ≡ length pre
      → 4 ≤ k
      → write_words h payload (suc (length ps)) (cursor pre k j (p ∷ (ps ++ rest)))
        ≡ some (cursor (pre ++ le_bytes 4 (bits_from 0 (p ∷ ps))) (k - 4) (j + 4) rest)
  write_words-bits payload p ps rest pre k j a e room =
      let bits : bool_area h (p ∷ ps) ≡ le_bytes 4 (bits_from 0 (p ∷ ps)) = bool_area-bits p ps a in
      let four : length (bool_area h (p ∷ ps)) ≡ 4 =
        ap length bits ∙ length-le_bytes 4 (bits_from 0 (p ∷ ps)) in
      write_words-append h payload (p ∷ ps) rest pre k j e (omega arith)
      ∙ ap some
          (cursor-same rest (ap (λ b. pre ++ b) bits) (ap (λ n. k - n) four) (ap (λ n. j + n) four))
