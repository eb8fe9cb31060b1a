-- ===== src/Shm.antt =====
-- `BsonShmDataProvider` of core/src/shm_bson_data_provider.cpp and `shmTryAtomicDataAccess` of
-- core/src/compatibility.h: a BSON document is copied from a block that another process writes. The
-- block is a function of time, and each read has its own time.
pub mod Consistent
mod Tests
use sc_api.Common.{
  ℕ, zero, suc, ◌+◌, ◌*◌, ◌%◌, ◌^◌, List, [], ◌∷◌, Option, none, some, Bool, true, false, not, ◌&&◌,
  ◌||◌, length, get_elem?, ltb, ◌==◌, if◌then◌else◌, ◌>>=◌,
}
use sc_api.Bson.Reader.{validate}

-- `SC_API_PROTOCOL_BsonDataShm_t`, and the bytes that are mapped.
pub record Block : Type 0 where
  pub data_revision_counter : ℕ
  pub shm_size : ℕ
  pub data_offset : ℕ
  pub data_size : ℕ
  pub bytes : List ℕ

abbrev pub Memory : Type 0
Memory = ℕ → Block

-- The times of the reads of one attempt: `header` and `shm_size_at` are those of the counter and the
-- size in the copy of the header; `copy i` is that of the byte `i`.
pub record Attempt : Type 0 where
  pub header : ℕ
  pub shm_size_at : ℕ
  pub compare_at : ℕ
  pub revision_at : ℕ
  pub start_at : ℕ
  pub size_at : ℕ
  pub check_at : ℕ
  pub copy_at : ℕ → ℕ
  pub end_at : ℕ

pub data UpdateResult : Type 0 where
  new_data no_new_data failed : UpdateResult

-- The fields of `BsonShmDataProvider`; `attached` says that `shm_buffer_` is not null.
pub record Provider : Type 0 where
  pub attached : Bool
  pub shm_buffer_size : ℕ
  pub active_buffer : Option (List ℕ)
  pub active_buffer_size : ℕ
  pub active_buffer_revision : ℕ
  pub buffer_changed : Bool

-- `setShmBuffer`: whether the buffer is null, and its size.
abbrev pub set_shm_buffer : Bool → ℕ → Provider
set_shm_buffer attached size = record {
  attached = attached;
  shm_buffer_size = size;
  active_buffer = none;
  active_buffer_size = 0;
  active_buffer_revision = 0;
  buffer_changed = true;
}

-- `getRawBson`: the buffer, and the revision, which stays without a buffer.
abbrev pub get_raw_bson : Provider → ℕ → Option (List ℕ) × ℕ
get_raw_bson p revision_out = (
  p.active_buffer,
  elim (p.active_buffer) [ none ↦ revision_out | some bs ↦ p.active_buffer_revision ],
)

-- The local variables of `update`; `valid_data` is that of an attempt.
pub record Local : Type 0 where
  pub new_revision : ℕ
  pub new_buffer_size : ℕ
  pub new_buffer : Option (List ℕ)
  pub valid_data : Bool

-- The `memcpy`: `n` bytes from the byte `i` of the data on. A byte outside the block has no result.
unfoldable pub copy_bytes : Memory → (ℕ → ℕ) → ℕ → ℕ → ℕ → Option (List ℕ)
copy_bytes m at start i zero = some []
copy_bytes m at start i (suc n) = get_elem? (m (at i)).bytes (start + i) >>= λ b.
    copy_bytes m at start (i + 1) n >>= λ bs. some (b ∷ bs)

-- The buffer of the copy: a new one, or that of an attempt before with the same size.
abbrev pub store : ℕ → List ℕ → Local → Option (List ℕ)
store size bs s =
    if s.new_buffer_size == size
    then elim (s.new_buffer) [ none ↦ none | some old ↦ some bs ]
    else some bs

-- Whether a revision may be read: not while it is odd, nor before the first.
abbrev pub readable : ℕ → Bool
readable rev = rev % 2 == 0 && not (ltb rev 2)

module _ (m : Memory) (p : Provider) (a : Attempt) where
  -- The copy of the data, and its checks.
  unfoldable pub access_data : ℕ → Local → Option (Bool × Local)
  access_data reported s =
      let revision = (m a.revision_at).data_revision_counter in
      let start = (m a.start_at).data_offset in
      let size = (m a.size_at).data_size in
      if ltb reported (size + (m a.check_at).data_offset)
      then some (false, record s { new_revision = revision; valid_data = false })
      else (copy_bytes m a.copy_at start 0 size >>= λ bs. some (
        true,
        record {
          new_revision = revision;
          new_buffer_size = size;
          new_buffer = store size bs s;
          valid_data = true;
        },
      ))

  -- The function that `update` gives to `shmTryAtomicDataAccess`.
  unfoldable pub access : ℕ → ℕ → Local → Option (Bool × Local)
  access old_revision reported s =
      if (m a.compare_at).data_revision_counter == old_revision && not p.buffer_changed
      then some (true, s)
      else if ltb p.shm_buffer_size reported
      then some (false, record s { valid_data = false })
      else access_data reported s

  abbrev pub confirm : ℕ → Bool × Local → Option (Bool × Local)
  confirm rev (ok, s) = some (ok && rev == (m a.end_at).data_revision_counter, s)

  -- `shmTryAtomicDataAccess`
  unfoldable pub try_access : ℕ → Local → Option (Bool × Local)
  try_access old_revision s =
      let start_rev = (m a.header).data_revision_counter in
      if readable start_rev
      then (access old_revision (m a.shm_size_at).shm_size (record s { valid_data = false })
          >>= confirm start_rev)
      else some (false, record s { valid_data = false })

-- How the loop ends: nothing new, or the last attempt's success with the local variables.
pub data Ended : Type 0 where
  unchanged : Ended
  ended : Bool → Local → Ended

-- What the loop does behind an attempt; `rest` is the rest of the loop.
abbrev pub behind : Bool × Local → Option Ended → Option Ended
behind (ok, s) rest =
    if ok && s.new_revision == 0
    then some unchanged
    else if ok && s.valid_data
    then some (ended true s)
    else rest

-- The loop of `update`, with its attempts, of which the code makes three.
unfoldable pub retry : Memory → Provider → List Attempt → ℕ → Bool → Local → Option Ended
retry m p [] old_revision ok s = some (ended ok s)
retry m p (a ∷ as') old_revision ok s =
    try_access m p a old_revision s >>= λ r. behind r (retry m p as' old_revision r.0 r.1)

-- `BsonReader::validate` of the copy, where there is one.
abbrev pub validated : Local → Option Bool
validated s = elim (s.new_buffer) [ none ↦ some true | some bs ↦ validate bs s.new_buffer_size ]

-- The end of `update`, with the fields as they are when the mutex is locked again. `accepts` is
-- `parseAndValidateNewData`.
abbrev pub publish : (Option (List ℕ) → Bool) → ℕ → Local → Provider → UpdateResult × Provider
publish accepts old_revision s later =
    if not (old_revision == later.active_buffer_revision)
    then (new_data, later)
    else if not (accepts s.new_buffer)
    then (failed, later)
    else (
      new_data,
      record later {
        active_buffer = s.new_buffer;
        active_buffer_size = s.new_buffer_size;
        active_buffer_revision = s.new_revision;
        buffer_changed = false;
      },
    )

abbrev pub finish_update :
    (Option (List ℕ) → Bool) → ℕ → Provider → Ended → Option (UpdateResult × Provider)
finish_update accepts old_revision later unchanged = some (no_new_data, later)
finish_update accepts old_revision later (ended false s) = some (failed, later)
finish_update accepts old_revision later (ended true s) = validated s >>= λ ok.
    some (if ok then publish accepts old_revision s later else (failed, later))

-- `update`
unfoldable pub update :
    Memory
    → List Attempt
    → (Option (List ℕ) → Bool)
    → Provider
    → Provider
    → Option (UpdateResult × Provider)
update m attempts accepts p later =
    if p.attached
    then (retry m p attempts p.active_buffer_revision false
          (record { new_revision = 0; new_buffer_size = 0; new_buffer = none; valid_data = false })
        >>= finish_update accepts p.active_buffer_revision later)
    else some (failed, later)
