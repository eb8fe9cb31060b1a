-- ===== src/Session/Framing/Frames.antt =====
-- The framing of a byte stream, independently of how its bytes arrive.
use sc_api.Common.{
  ℕ, ◌^◌, ◌≤◌, ◌<◌, ◌≡◌, refl, List, [], ◌∷◌, ◌++◌, arith, length, take, drop, length-append,
  take-append, drop-append,
}
use sc_api.Bytes.{of_le}

-- The integer in the first four bytes.
abbrev pub frame_size : List ℕ → ℕ
frame_size s = of_le (take 4 s)

-- No frame can be taken: too few bytes, a size that is no positive `int32_t`, or a frame that is
-- not complete yet.
pub data Stops (s : List ℕ) : Type 0 where
  short : length s < 5 → Stops s
  zero_size : frame_size s ≡ 0 → Stops s
  negative : 2 ^ 31 ≤ frame_size s → Stops s
  incomplete : length s < frame_size s → Stops s

-- `Frames s ps r`: the stream `s` begins with the frames `ps`, and `r` is what is left.
pub data Frames : List ℕ → List (List ℕ) → List ℕ → Type 0 where
  rest : (s : List ℕ) → Stops s → Frames s [] s
  frame :
      (s : List ℕ) {ps : List (List ℕ)} {r : List ℕ}
      → 5 ≤ length s
      → 0 < frame_size s
      → frame_size s < 2 ^ 31
      → frame_size s ≤ length s
      → Frames (drop (frame_size s) s) ps r
      → Frames s (take (frame_size s) s ∷ ps) r

-- `frame` with the frame and the rest given by equations.
pub frame_at :
    (s p d : List ℕ) {ps : List (List ℕ)} {r : List ℕ}
    → take (frame_size s) s ≡ p
    → drop (frame_size s) s ≡ d
    → 5 ≤ length s
    → 0 < frame_size s
    → frame_size s < 2 ^ 31
    → frame_size s ≤ length s
    → Frames d ps r
    → Frames s (p ∷ ps) r
frame_at s p d e f a b c k h = rw (← e) (frame s a b c k (rw f h))

-- Bytes that come later do not change the frames before them.
pub Frames-append :
    {s r : List ℕ} {ps : List (List ℕ)} (t : List ℕ) {qs : List (List ℕ)} {r' : List ℕ}
    → Frames s ps r
    → Frames (r ++ t) qs r'
    → Frames (s ++ t) (ps ++ qs) r'
Frames-append t (rest s stop) g = g
Frames-append t (frame s a b c k h) g =
    let e : frame_size (s ++ t) ≡ frame_size s = rw (take-append 4 s t (omega arith)) in
    frame_at (s ++ t) (take (frame_size s) s) (drop (frame_size s) s ++ t)
      (rw (e, take-append (frame_size s) s t k)) (rw (e, drop-append (frame_size s) s t k))
      (rw (length-append s t) (omega arith)) (rw e b) (rw e c)
      (rw (e, length-append s t) (omega arith)) (Frames-append t h g)

not-Stops :
    (s : List ℕ)
    → Stops s
    → 5 ≤ length s
    → 0 < frame_size s
    → frame_size s < 2 ^ 31
    → frame_size s ≤ length s
    → ⊥
not-Stops s (short h) a b c k = omega arith
not-Stops s (zero_size h) a b c k = omega arith
not-Stops s (negative h) a b c k = omega arith
not-Stops s (incomplete h) a b c k = omega arith

-- A stream has one framing.
pub Frames-unique :
    {s r r' : List ℕ} {ps ps' : List (List ℕ)}
    → Frames s ps r
    → Frames s ps' r'
    → (ps ≡ ps') × (r ≡ r')
Frames-unique (rest s stop) (rest _ _) = (refl, refl)
Frames-unique (rest s stop) (frame _ a b c k h) = absurd (not-Stops s stop a b c k)
Frames-unique (frame s a b c k h) (rest _ stop) = absurd (not-Stops s stop a b c k)
Frames-unique (frame s a b c k h) (frame _ _ _ _ _ g) = let (e, f) = Frames-unique h g in (rw e, f)

-- Nothing can be taken from what is left.
pub Frames-Stops : {s r : List ℕ} {ps : List (List ℕ)} → Frames s ps r → Stops r
Frames-Stops (rest s stop) = stop
Frames-Stops (frame s a b c k h) = Frames-Stops h
