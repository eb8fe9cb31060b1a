-- ===== src/Shm/Tests.antt =====
-- Runs of `BsonShmDataProvider` (core/src/shm_bson_data_provider.cpp), and the example of its theorem.
use sc_api.Common.{ℕ, zero, suc, ◌≡◌, refl, [], ◌∷◌, none, some, true, false, arith}
use sc_api.Bytes.{geti32, read_bytes, of_le}
use sc_api.Bson.Reader.{
  validate, validate_reader, validate_loop, reader, next, turn, enter, read_element, read_key,
  check_value, value_size, skip_value, close_sub,
}
use sc_api.Shm.{
  Block, Memory, Attempt, Provider, Local, new_data, set_shm_buffer, copy_bytes, access_data,
  access, try_access, retry, update,
}
use sc_api.Shm.Consistent.{IsQuiet, IsOrdered, Copied, try_access-Copied}

-- A block that holds the empty document.
abbrev block : ℕ → Block
block rev = record {
  data_revision_counter = rev;
  shm_size = 7;
  data_offset = 2;
  data_size = 5;
  bytes = 9 ∷ 9 ∷ 5 ∷ 0 ∷ 0 ∷ 0 ∷ 0 ∷ [];
}

-- The block stands still.
abbrev memory : Memory
memory t = block 4

abbrev attempt : Attempt
attempt = record {
  header = 0;
  shm_size_at = 0;
  compare_at = 1;
  revision_at = 2;
  start_at = 3;
  size_at = 4;
  check_at = 5;
  copy_at = λ i. 6;
  end_at = 7;
}

abbrev provider : Provider
provider = set_shm_buffer true 7

abbrev nothing : Local
nothing = record { new_revision = 0; new_buffer_size = 0; new_buffer = none; valid_data = false }

abbrev copied : Local
copied = record {
  new_revision = 4;
  new_buffer_size = 5;
  new_buffer = some (5 ∷ 0 ∷ 0 ∷ 0 ∷ 0 ∷ []);
  valid_data = true;
}

succeeds : try_access memory provider attempt 0 nothing ≡ some (true, copied)
unfolding try_access access access_data copy_bytes
succeeds = refl

quiet : IsQuiet memory
quiet t u v r e x y = refl

ordered : IsOrdered attempt
ordered = (
  omega arith,
  omega arith,
  omega arith,
  omega arith,
  omega arith,
  omega arith,
  omega arith,
  omega arith,
  λ i. omega arith,
  λ i. omega arith,
  omega arith,
  omega arith,
  omega arith,
)

try_access-Copied_example : Copied provider attempt (memory 0) nothing copied
try_access-Copied_example =
    try_access-Copied memory provider attempt 0 nothing copied quiet ordered succeeds refl

-- The writer begins a change before the end of the attempt.
abbrev busy : Memory
busy t = elim t [ zero ↦ block 4 | suc n ↦ block 5 ]

runs_busy :
    try_access busy provider attempt 0 nothing
    ≡ some (
      false,
      record {
        new_revision = 5;
        new_buffer_size = 5;
        new_buffer = some (5 ∷ 0 ∷ 0 ∷ 0 ∷ 0 ∷ []);
        valid_data = true;
      },
    )
unfolding try_access access access_data copy_bytes
runs_busy = refl

runs_update :
    update memory (attempt ∷ attempt ∷ attempt ∷ []) (λ o. true) provider provider
    ≡ some (
      new_data,
      record {
        attached = true;
        shm_buffer_size = 7;
        active_buffer = some (5 ∷ 0 ∷ 0 ∷ 0 ∷ 0 ∷ []);
        active_buffer_size = 5;
        active_buffer_revision = 4;
        buffer_changed = false;
      },
    )
unfolding update retry try_access access access_data copy_bytes validate validate_reader
    validate_loop reader next turn enter read_element read_key check_value value_size skip_value
    geti32 read_bytes of_le close_sub
runs_update = refl

-- The offset is read twice: one that changes in between makes the copy leave the block, before the
-- counter is read again.
abbrev moving : Memory
moving t = elim t [ suc (suc (suc zero)) ↦ record (block 4) { data_offset = 6 } | _ ↦ block 4 ]

runs_moving : try_access moving provider attempt 0 nothing ≡ none
unfolding try_access access access_data copy_bytes
runs_moving = refl
