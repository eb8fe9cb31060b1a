-- ===== src/Bson/Layout.antt =====
-- What the used part of a builder's buffer holds: the open documents, innermost first, each as the
-- bytes of its elements so far. It is the abstract view of `BsonBuilder` (core/src/util).
use sc_api.Common.{
  ℕ, ◌+◌, ◌≡◌, ◌≢◌, refl, ap, ◌∙◌, List, [], ◌∷◌, ◌++◌, length, arith, append_assoc, length-append,
}
use sc_api.Bytes.{le_bytes}
use sc_api.Bytes.Laws.{length-le_bytes}

-- The bytes of a document with the elements `body`: size, elements, terminator.
abbrev pub document : List ℕ → List ℕ
document body = le_bytes 4 (length body + 5) ++ (body ++ (0 ∷ []))

-- `Laid start used offsets levels`: the bytes `used` begin with `start` bytes that are not the
-- builder's; then come the open documents, each with four bytes for its size before its elements.
-- `offsets` are the places of the sizes, the outermost document's left out.
pub data Laid (start : ℕ) : List ℕ → List ℕ → List (List ℕ) → Type 0 where
  root :
      {used : List ℕ} (header size body : List ℕ)
      → used ≡ header ++ (size ++ body)
      → length header ≡ start
      → length size ≡ 4
      → Laid start used [] (body ∷ [])
  open_doc :
      {used : List ℕ} (outer size body : List ℕ) {at : ℕ} {offsets : List ℕ}
      {levels : List (List ℕ)}
      → used ≡ outer ++ (size ++ body)
      → at ≡ length outer
      → length size ≡ 4
      → Laid start outer offsets levels
      → Laid start used (at ∷ offsets) (body ∷ levels)

longer :
    (pre size body bs used : List ℕ)
    → used ≡ pre ++ (size ++ body)
    → used ++ bs ≡ pre ++ (size ++ (body ++ bs))
longer pre size body bs used e =
    ap (λ l. l ++ bs) e
    ∙ append_assoc pre (size ++ body) bs
    ∙ ap (λ l. pre ++ l) (append_assoc size body bs)

-- More bytes are more elements of the innermost document.
pub Laid-append :
    {start : ℕ} {used offsets body : List ℕ} {levels : List (List ℕ)} (bs : List ℕ)
    → Laid start used offsets (body ∷ levels)
    → Laid start (used ++ bs) offsets ((body ++ bs) ∷ levels)
Laid-append {used = used} bs (root header size body e h s) =
    root header size (body ++ bs) (longer header size body bs used e) h s
Laid-append {used = used} bs (open_doc outer size body e h s l) =
    open_doc outer size (body ++ bs) (longer outer size body bs used e) h s l

pub length-document : (body : List ℕ) → length (document body) ≡ length body + 5
length-document body = omega (
  arith,
  length-append (le_bytes 4 (length body + 5)) (body ++ (0 ∷ [])),
  length-append body (0 ∷ []),
  length-le_bytes 4 (length body + 5),
)

-- The places of the innermost document when it is not the only one.
pub record Opened (start : ℕ) (used offsets body : List ℕ) (levels : List (List ℕ)) : Type 0 where
  pub outer : List ℕ
  pub size : List ℕ
  pub at : ℕ
  pub others : List ℕ
  pub parts : used ≡ outer ++ (size ++ body)
  pub begins : at ≡ length outer
  pub four : length size ≡ 4
  pub top : offsets ≡ at ∷ others
  pub rest : Laid start outer others levels

pub Laid-Opened :
    {start : ℕ} {used offsets body next : List ℕ} {levels : List (List ℕ)}
    → Laid start used offsets (body ∷ next ∷ levels)
    → Opened start used offsets body (next ∷ levels)
Laid-Opened (open_doc outer size body {at = at} {offsets = others} e h s l) = record {
  outer = outer;
  size = size;
  at = at;
  others = others;
  parts = e;
  begins = h;
  four = s;
  top = refl;
  rest = l;
}

-- The places of the outermost document when it is the only one.
pub record Root (start : ℕ) (used offsets body : List ℕ) : Type 0 where
  pub header : List ℕ
  pub size : List ℕ
  pub parts : used ≡ header ++ (size ++ body)
  pub begins : length header ≡ start
  pub four : length size ≡ 4
  pub alone : offsets ≡ []

Laid-levels :
    {start : ℕ} {used offsets : List ℕ} {levels : List (List ℕ)}
    → Laid start used offsets levels
    → levels ≢ []
Laid-levels (root header size body e h s) = λ p. cc
Laid-levels (open_doc outer size body e h s l) = λ p. cc

pub Laid-Root :
    {start : ℕ} {used offsets body : List ℕ}
    → Laid start used offsets (body ∷ [])
    → Root start used offsets body
Laid-Root (root header size body e h s) = record {
  header = header;
  size = size;
  parts = e;
  begins = h;
  four = s;
  alone = refl;
}
Laid-Root (open_doc outer size body e h s l) = absurd (Laid-levels l refl)

-- One place for each open document but the outermost.
pub length-Laid :
    {start : ℕ} {used offsets : List ℕ} {levels : List (List ℕ)}
    → Laid start used offsets levels
    → length levels ≡ length offsets + 1
length-Laid (root header size body e h s) = omega arith
length-Laid (open_doc outer size body e h s l) = omega (arith, length-Laid l)
