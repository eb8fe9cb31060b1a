-- ===== src/Variables/Updates.antt =====
-- `VariableProvider` (core/src/variables.cpp) from `initialize` on, through any number of updates.
use sc_api.Common.{
  ℕ, ◌+◌, ◌-◌, ◌*◌, ◌/◌, ◌%◌, ◌^◌, ◌≤◌, ◌<◌, ◌≡◌, refl, List, [], ◌∷◌, Option, some, false, All,
  length, take, drop, arith, leb, ◌==◌, ◌>>=◌,
}
use sc_api.Bytes.{of_le}
use sc_api.Bytes.Laws.{geti32-some}
use sc_api.Variables.{
  VariableDefChunk, VariableProvider, definition_bytes, refresh_definitions, max_copies,
  empty_chunk, initialize_variables,
}
use sc_api.Variables.Search.{occurs}
use sc_api.Variables.Refresh.{
  IsWellFormed, Grown, Grown-trans, Serves, refresh_definitions-IsWellFormed,
}

-- A provider whose chunk is well formed.
pub record IsReady (bytes : ℕ) (p : VariableProvider) (c : VariableDefChunk) : Type 0 where
  pub serves : Serves bytes p
  pub chunk : p.def_chunk ≡ some c
  pub formed : IsWellFormed c
  pub bounded : c.processed_def_count ≤ p.max_variable_def_count

-- Updates, each with the block as it stands then.
unfoldable pub run_updates : List (List ℕ) → VariableProvider → Option VariableProvider
run_updates [] p = some p
run_updates (shm ∷ shms) p = refresh_definitions shm p >>= λ r. run_updates shms r.1

pub run_updates-IsReady :
    (shms : List (List ℕ)) {bytes : ℕ} {p : VariableProvider} {c : VariableDefChunk}
    → All (λ shm. length shm ≡ bytes) shms
    → IsReady bytes p c
    → (p' : VariableProvider) × (c' : VariableDefChunk) × (run_updates shms p ≡ some p')
      × IsReady bytes p' c'
      × Grown c c'
unfolding run_updates
run_updates-IsReady [] {p} {c} a r =
    (p, c, refl, r, record { limit = refl; more = omega arith; kept = λ i h. refl })
run_updates-IsReady (shm ∷ shms) {bytes} {p} {c} a r =
    let s : Serves (length shm) p = rw a.0 r.serves in
    let (c1, new_defs, once, w, g, b) =
      refresh_definitions-IsWellFormed shm p s c r.chunk r.formed r.bounded in
    let r1 : IsReady bytes (record p { def_chunk = some c1 }) c1 = record {
      serves = record {
        header = r.serves.header;
        size = r.serves.size;
        inside = r.serves.inside;
        few = r.serves.few;
      };
      chunk = refl;
      formed = w;
      bounded = b;
    } in
    let (p2, c2, rest, r2, g2) = run_updates-IsReady shms a.1 r1 in
    (p2, c2, rw once rest, r2, Grown-trans g g2)

empty_chunk-IsWellFormed : (max_data : ℕ) → IsWellFormed (empty_chunk max_data)
unfolding occurs
empty_chunk-IsWellFormed max_data = record {
  written = λ i h. absurd (omega arith);
  counted = omega arith;
  within = tt;
  sorted = tt;
  complete = λ i. ground arith;
}

-- The fields of the two blocks' headers that are read.
abbrev pub def_size : List ℕ → ℕ
def_size shm = of_le (take 4 (drop 16 shm))

abbrev pub def_offset : List ℕ → ℕ
def_offset shm = of_le (take 4 (drop 12 shm))

abbrev pub data_offset : List ℕ → ℕ
data_offset shm = of_le (take 4 (drop 12 shm))

-- Two blocks that `initialize` accepts, with definitions of at least their size and no more of them
-- than there are copies.
pub record IsOffered (def_shm value_shm : List ℕ) : Type 0 where
  pub def_header : 24 ≤ length def_shm
  pub value_header : 24 ≤ length value_shm
  pub size : definition_bytes ≤ def_size def_shm
  pub def_inside : def_offset def_shm < length def_shm
  pub data_inside : data_offset value_shm < length value_shm
  pub few : (length def_shm - def_offset def_shm) / def_size def_shm ≤ max_copies

-- The bound on the values that the chunk is given.
abbrev pub value_limit : List ℕ → List ℕ → ℕ
value_limit def_shm value_shm = (length def_shm + 2 ^ 64 - data_offset value_shm) % 2 ^ 32

div_mul_le : (n s : ℕ) → 0 < s → s * (n / s) ≤ n
div_mul_le n s h = grind arith

pub initialize_variables-IsReady :
    (def_shm value_shm : List ℕ)
    → IsOffered def_shm value_shm
    → (p : VariableProvider) × (c : VariableDefChunk) × (initialize_variables def_shm value_shm
        ≡ some p)
      × IsReady (length def_shm) p c
      × (c.variable_values_max_data_size ≡ value_limit def_shm value_shm)
unfolding initialize_variables
initialize_variables-IsReady def_shm value_shm o =
    let size = def_size def_shm in
    let offset = def_offset def_shm in
    let most = (length def_shm - offset) / size in
    let start = empty_chunk (value_limit def_shm value_shm) in
    let p : VariableProvider = record {
      def_chunk = some start;
      variable_defs_start = offset;
      variable_def_size = size;
      max_variable_def_count = most % 2 ^ 32;
    } in
    let same : most % 2 ^ 32 ≡ most = omega (arith, o.few) in
    let s : Serves (length def_shm) p = record {
      header = o.def_header;
      size = o.size;
      inside = rw same (
          omega (
            arith,
            div_mul_le (length def_shm - offset) size (omega (arith, o.size)),
            o.def_inside,
          ));
      few = rw same o.few;
    } in
    let (c, new_defs, once, w, g, b) =
      refresh_definitions-IsWellFormed def_shm p s start refl (empty_chunk-IsWellFormed _)
        (omega arith) in
    let off1 : leb (length def_shm) offset ≡ false = ground (arith, o.def_inside) in
    let off2 : leb (length value_shm) (data_offset value_shm) ≡ false =
      ground (arith, o.data_inside) in
    let nonzero : (size == 0) ≡ false = ground (arith, o.size) in
    (
      record p { def_chunk = some c },
      c,
      rw
          (
            geti32-some def_shm 16 (omega (arith, o.def_header)),
            geti32-some def_shm 12 (omega (arith, o.def_header)),
            geti32-some value_shm 12 (omega (arith, o.value_header)),
            off1,
            off2,
            nonzero,
            once,
          )
          refl,
      record {
        serves = record { header = s.header; size = s.size; inside = s.inside; few = s.few };
        chunk = refl;
        formed = w;
        bounded = b;
      },
      g.limit,
    )
