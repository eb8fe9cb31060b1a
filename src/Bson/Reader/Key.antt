-- ===== src/Bson/Reader/Key.antt =====
-- `readKey` of `BsonReader` (core/src/util/bson_reader.cpp): it stays in the document and ends.
use sc_api.Common.{
  ℕ, zero, suc, ◌-◌, ◌^◌, ◌≤◌, ◌<◌, ◌≡◌, refl, ◌∙◌, inl, inr, List, [], ◌∷◌, Option, some, Bool,
  true, false, length, get_elem?, arith, Bool-cases, ◌==◌,
}
use sc_api.Bytes.{slt32, add32}
use sc_api.Bson.Reader.{read_key}

pub get_elem?-some : (xs : List ℕ) (i : ℕ) → i < length xs → (x : ℕ) × (get_elem? xs i ≡ some x)
get_elem?-some [] i h = absurd (omega arith)
get_elem?-some (x ∷ xs) zero h = (x, refl)
get_elem?-some (x ∷ xs) (suc i) h = get_elem?-some xs i (omega arith)

-- The key ends before the end of the document, or the loop says that it does not.
pub data Scanned (end off : ℕ) (res : Option (Bool × ℕ)) : Type 0 where
  found : (stop : ℕ) → res ≡ some (true, stop) → off ≤ stop → stop < end → Scanned end off res
  missing : (stop : ℕ) → res ≡ some (false, stop) → Scanned end off res

read_key-stops :
    (fuel : ℕ) (buf : List ℕ) (end off : ℕ)
    → slt32 off end ≡ false
    → read_key (suc fuel) buf end off ≡ some (false, off)
unfolding read_key
read_key-stops fuel buf end off e = rw (e, read_key) refl

pub read_key-ends :
    (fuel : ℕ) (buf : List ℕ) (end off b : ℕ)
    → slt32 off end ≡ true
    → get_elem? buf off ≡ some b
    → (b == 0) ≡ true
    → read_key (suc fuel) buf end off ≡ some (true, off)
unfolding read_key
read_key-ends fuel buf end off b e f g = rw (e, read_key) (rw (f, read_key) (rw g))

pub read_key-next :
    (fuel : ℕ) (buf : List ℕ) (end off b : ℕ)
    → slt32 off end ≡ true
    → get_elem? buf off ≡ some b
    → (b == 0) ≡ false
    → read_key (suc fuel) buf end off ≡ read_key fuel buf end (add32 off 1)
unfolding read_key
read_key-next fuel buf end off b e f g = rw (e, read_key) (rw (f, read_key) (rw g))

Scanned-next :
    {end off : ℕ} {res res' : Option (Bool × ℕ)}
    → res' ≡ res
    → Scanned end (suc off) res
    → Scanned end off res'
Scanned-next e (found stop f low high) = found stop (e ∙ f) (omega arith) high
Scanned-next e (missing stop f) = missing stop (e ∙ f)

pub read_key-Scanned :
    (fuel : ℕ) (buf : List ℕ) (end off : ℕ)
    → end - off < fuel
    → end < 2 ^ 31
    → off < 2 ^ 31
    → end ≤ length buf
    → Scanned end off (read_key fuel buf end off)
read_key-Scanned zero buf end off h small low fits = absurd (omega arith)
read_key-Scanned (suc fuel) buf end off h small low fits = elim (Bool-cases (slt32 off end)) [
  | inr e ↦ missing off (read_key-stops fuel buf end off e)
  | inl e ↦
      let before : off < end = ground arith in
      let (b, f) = get_elem?-some buf off (omega arith) in
      elim (Bool-cases (b == 0)) [
        | inl g ↦ found off (read_key-ends fuel buf end off b e f g) (omega arith) before
        | inr g ↦
            let one : add32 off 1 ≡ suc off = omega arith in
            Scanned-next (read_key-next fuel buf end off b e f g) (
              rw one
                (read_key-Scanned fuel buf end (suc off) (omega arith) small (omega arith) fits))
      ]
]
