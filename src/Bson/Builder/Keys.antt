-- ===== src/Bson/Builder/Keys.antt =====
-- `digits2` and `fillArrayDocKey` of core/src/util/bson_builder.cpp: the key of an array element.
use sc_api.Common.{
  ℕ, zero, suc, ◌+◌, ◌-◌, ◌/◌, ◌%◌, List, [], ◌∷◌, ◌++◌, Option, none, some, true, false, ltb, drop,
  if◌then◌else◌, ◌>>=◌,
}
use sc_api.Bytes.{write_bytes}

-- The two ASCII digits of a number below 100, which the source looks up in a text.
abbrev pub digits2 : ℕ → List ℕ
digits2 v = (b'0' + v / 10) ∷ (b'0' + v % 10) ∷ []

-- The `while (idx >= 100)` loop: the buffer, where the key begins, and the leading part of `idx`.
-- The digits are copied to the start of the buffer, not to `out`. `none` is a key that would begin
-- before the buffer. A round divides `idx` by 100, so `idx` rounds are more than enough.
pub key_loop : ℕ → List ℕ → ℕ → ℕ → Option (List ℕ × ℕ × ℕ)
key_loop zero buf out idx = none
key_loop (suc fuel) buf out idx = elim (ltb idx 100) [
  | true ↦ some (buf, out, idx)
  | false ↦ elim (ltb out 2) [
    | true ↦ none
    | false ↦ elim (write_bytes buf 0 (digits2 (idx % 100))) [
      | none ↦ none
      | some buf' ↦ key_loop fuel buf' (out - 2) (idx / 100)
    ]
  ]
]

-- The bytes of the key with its terminator, in a buffer whose eight bytes are `junk` at first.
pub fill_array_doc_key : List ℕ → ℕ → Option (List ℕ)
unfolding key_loop
fill_array_doc_key junk idx =
    if ltb idx 10
    then some ((b'0' + idx) ∷ 0 ∷ [])
    else if ltb idx 100
    then some (digits2 idx ++ (0 ∷ []))
    else (do
      buf ← write_bytes junk 7 (0 ∷ [])
      (buf1, out, lead) ← key_loop (suc idx) buf 7 idx
      if ltb lead 10
          then (if ltb out 1
              then none
              else (write_bytes buf1 (out - 1) ((b'0' + lead) ∷ []) >>= λ buf2.
                  some (drop (out - 1) buf2)))
          else (write_bytes buf1 0 (digits2 lead) >>= λ buf2. some (drop out buf2)))
