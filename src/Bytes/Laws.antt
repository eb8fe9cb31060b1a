-- ===== src/Bytes/Laws.antt =====
-- Laws of the byte buffers: what a read finds after a write, and integers through their bytes.
use sc_api.Common.{
  true, ◌-◌, ◌^◌, ltb, leb, ◌||◌, ℕ, zero, suc, ◌+◌, ◌/◌, ◌^◌, ◌≤◌, ◌<◌, ◌≡◌, refl, ap, List, [],
  ◌∷◌, ◌++◌, none, some, arith, length, take, drop, All, length-append, take-append_self,
  drop-append_self, drop-drop, le→leb, append_assoc,
}
use sc_api.Bytes.{add_int32, add32, IsByte, le_bytes, of_le, read_bytes, write_bytes, geti32}

pub length-le_bytes : (n v : ℕ) → length (le_bytes n v) ≡ n
unfolding le_bytes
length-le_bytes zero v = refl
length-le_bytes (suc n) v = ap suc (length-le_bytes n (v / 256))

pub le_bytes-IsByte : (n v : ℕ) → All IsByte (le_bytes n v)
unfolding le_bytes
le_bytes-IsByte zero v = tt
le_bytes-IsByte (suc n) v = (omega arith, le_bytes-IsByte n (v / 256))

-- An integer below 2 ^ 32 is read back from its four bytes.
pub of_le-le_bytes_four : (v : ℕ) → v < 2 ^ 32 → of_le (le_bytes 4 v) ≡ v
unfolding of_le le_bytes
of_le-le_bytes_four v h = omega arith

pub of_le-lt_four : (bs : List ℕ) → All IsByte bs → length bs ≡ 4 → of_le bs < 2 ^ 32
unfolding of_le
of_le-lt_four [] h e = omega arith
of_le-lt_four (a ∷ []) h e = omega arith
of_le-lt_four (a ∷ b ∷ []) h e = omega arith
of_le-lt_four (a ∷ b ∷ c ∷ []) h e = omega arith
of_le-lt_four (a ∷ b ∷ c ∷ d ∷ []) h e = omega arith
of_le-lt_four (a ∷ b ∷ c ∷ d ∷ f ∷ bs) h e = absurd (omega arith)

-- A read inside the buffer gives the bytes there.
pub read_bytes-append :
    (pre mid post : List ℕ) (off n : ℕ)
    → off ≡ length pre
    → n ≡ length mid
    → read_bytes (pre ++ (mid ++ post)) off n ≡ some mid
unfolding read_bytes
read_bytes-append pre mid post off n p q = rw (
  le→leb (off + n) (length (pre ++ (mid ++ post)))
      (rw (length-append pre (mid ++ post), length-append mid post) (omega arith)),
  drop-append_self off pre (mid ++ post) p,
  take-append_self n mid post q,
)

-- A write at the end of the used part of a buffer extends that part.
pub write_bytes-append :
    (used free bs : List ℕ) (off : ℕ)
    → off ≡ length used
    → length bs ≤ length free
    → write_bytes (used ++ free) off bs ≡ some ((used ++ bs) ++ drop (length bs) free)
unfolding write_bytes
write_bytes-append used free bs off p h = rw (
  le→leb (off + length bs) (length (used ++ free)) (rw (length-append used free) (omega arith)),
  take-append_self off used free p,
  ← drop-drop (length bs) off (off + length bs) (used ++ free) refl,
  drop-append_self off used free p,
  append_assoc,
)

-- A write over bytes in the middle replaces them.
pub write_bytes-middle :
    (pre old post bs : List ℕ) (off : ℕ)
    → off ≡ length pre
    → length bs ≡ length old
    → write_bytes (pre ++ (old ++ post)) off bs ≡ some (pre ++ (bs ++ post))
unfolding write_bytes
write_bytes-middle pre old post bs off p h = rw (
  le→leb (off + length bs) (length (pre ++ (old ++ post)))
      (rw (length-append pre (old ++ post), length-append old post) (omega arith)),
  take-append_self off pre (old ++ post) p,
  ← drop-drop (length bs) off (off + length bs) (pre ++ (old ++ post)) refl,
  drop-append_self off pre (old ++ post) p,
  drop-append_self (length bs) old post h,
)

-- A write that would pass the end of the buffer is a fault.
pub write_bytes-none :
    (buf bs : List ℕ) (off : ℕ) → length buf < off + length bs → write_bytes buf off bs ≡ none
unfolding write_bytes
write_bytes-none buf bs off h = ground arith

pub read_bytes-none :
    (buf : List ℕ) (off n : ℕ) → length buf < off + n → read_bytes buf off n ≡ none
unfolding read_bytes
read_bytes-none buf off n h = ground arith

pub read_bytes-some :
    (buf : List ℕ) (off n : ℕ)
    → off + n ≤ length buf
    → read_bytes buf off n ≡ some (take n (drop off buf))
unfolding read_bytes
read_bytes-some buf off n h = ground arith

pub geti32-some :
    (buf : List ℕ) (off : ℕ)
    → off + 4 ≤ length buf
    → geti32 buf off ≡ some (of_le (take 4 (drop off buf)))
unfolding geti32
geti32-some buf off h = ground arith

pub write_bytes-front :
    (buf bs : List ℕ)
    → length bs ≤ length buf
    → write_bytes buf 0 bs ≡ some (bs ++ drop (length bs) buf)
unfolding write_bytes
write_bytes-front buf bs h =
    rw (le→leb (0 + length bs) (length buf) (omega arith))
      (ap (λ n. some (bs ++ drop n buf)) (omega arith))

pub add_int32-is :
    (a b c : ℕ) → a < 2 ^ 31 → b < 2 ^ 31 → a + b ≡ c → c < 2 ^ 31 → add_int32 a b ≡ some c
add_int32-is a b c h k e small = ground arith

-- An addend up to five overflows at the greatest numbers only.
pub add_int32-small :
    (n b : ℕ)
    → n < 2 ^ 32
    → b ≤ 5
    → (ltb n (2 ^ 31 - 5) || leb (2 ^ 31) n) ≡ true
    → add_int32 n b ≡ some (add32 n b)
add_int32-small n b h k e = ground arith
