-- ===== src/Shm/Consistent.antt =====
-- An attempt of `BsonShmDataProvider::update` (core/src/shm_bson_data_provider.cpp) that succeeds has
-- copied one state of the block.
use sc_api.Common.{
  ℕ, zero, suc, ◌+◌, ◌%◌, ◌≤◌, ◌≡◌, refl, sym, ◌∙◌, ap, ap₂, List, Option, none, some, Bool, true,
  false, not, ◌&&◌, ltb, ◌==◌, ◌>>=◌, Bool-cases, Option-cases, inl, inr, arith, ==_iff,
}
use sc_api.Shm.{
  Block, Memory, Attempt, Provider, Local, copy_bytes, store, access_data, access, readable,
  confirm, try_access,
}

-- The writer makes the counter odd before it changes the block and even behind that, so that the block
-- stands still between two reads of the same even counter.
abbrev pub IsQuiet : Memory → Type 0
IsQuiet m =
    (t u v : ℕ)
    → (m t).data_revision_counter ≡ (m v).data_revision_counter
    → (m t).data_revision_counter % 2 ≡ 0
    → t ≤ u
    → u ≤ v
    → m u ≡ m t

-- The reads of an attempt stand between that of its header and its end.
abbrev pub IsOrdered : Attempt → Type 0
IsOrdered a =
    (a.header ≤ a.revision_at)
    × (a.revision_at ≤ a.end_at)
    × (a.header ≤ a.start_at)
    × (a.start_at ≤ a.end_at)
    × (a.header ≤ a.size_at)
    × (a.size_at ≤ a.end_at)
    × (a.header ≤ a.check_at)
    × (a.check_at ≤ a.end_at)
    × ((i : ℕ) → a.header ≤ a.copy_at i)
    × ((i : ℕ) → a.copy_at i ≤ a.end_at)
    × (a.header ≤ a.end_at)
    × (a.header ≤ a.shm_size_at)
    × (a.shm_size_at ≤ a.end_at)

copy-still :
    (m : Memory) (b : Block) (at : ℕ → ℕ) (start i n : ℕ)
    → ((j : ℕ) → m (at j) ≡ b)
    → copy_bytes m at start i n ≡ copy_bytes (λ t. b) at start i n
unfolding copy_bytes
copy-still m b at start i zero h = refl
copy-still m b at start i (suc n) h = rw (h i, copy-still m b at start (i + 1) n h) refl

-- What an attempt leaves that copied the block `b`.
abbrev pub Copied : Provider → Attempt → Block → Local → Local → Type 0
Copied p a b s s' =
    (bs : List ℕ) × (readable b.data_revision_counter ≡ true)
    × (b.shm_size ≤ p.shm_buffer_size)
    × (b.data_size + b.data_offset ≤ b.shm_size)
    × (copy_bytes (λ t. b) a.copy_at b.data_offset 0 b.data_size ≡ some bs)
    × (s'.new_revision ≡ b.data_revision_counter)
    × (s'.new_buffer_size ≡ b.data_size)
    × (s'.new_buffer ≡ store b.data_size bs s)

module _ (m : Memory) (p : Provider) (a : Attempt) (old : ℕ) (s s' : Local) (quiet : IsQuiet m)
    (ordered : IsOrdered a) where
  abbrev b : Block
  b = m a.header

  abbrev reported : ℕ
  reported = (m a.shm_size_at).shm_size

  abbrev rev : ℕ
  rev = b.data_revision_counter

  abbrev s0 : Local
  s0 = record s { valid_data = false }

  confirm-inv :
      (o : Option (Bool × Local)) (e : (o >>= confirm m p a rev) ≡ some (true, s'))
      → (o ≡ some (true, s')) × (rev ≡ (m a.end_at).data_revision_counter)
  confirm-inv none e = absurd (cc)
  confirm-inv (some (true, t)) e =
      let c : (rev == (m a.end_at).data_revision_counter) ≡ true =
        ap (λ o. elim o [ none ↦ false | some r ↦ r.0 ]) e in
      let d : t ≡ s' = ap (λ o. elim o [ none ↦ t | some r ↦ r.1 ]) e in
      (ap (λ x. some (true, x)) d, (==_iff rev (m a.end_at).data_revision_counter).0 c)
  confirm-inv (some (false, t)) e =
      let c : false ≡ true = ap (λ o. elim o [ none ↦ false | some r ↦ r.0 ]) e in absurd (cc)

  try-readable :
      readable rev ≡ true
      → try_access m p a old s ≡ (access m p a old reported s0 >>= confirm m p a rev)
  unfolding try_access
  try-readable f = rw f refl

  try-unreadable : readable rev ≡ false → try_access m p a old s ≡ some (false, s0)
  unfolding try_access
  try-unreadable f = rw f refl

  abbrev same : Bool
  same = (m a.compare_at).data_revision_counter == old && not p.buffer_changed

  access-same : same ≡ true → access m p a old reported s0 ≡ some (true, s0)
  unfolding access
  access-same f = rw f refl

  access-large :
      same ≡ false
      → ltb p.shm_buffer_size reported ≡ true
      → access m p a old reported s0 ≡ some (false, s0)
  unfolding access
  access-large f g = rw (f, g) refl

  access-fits :
      same ≡ false
      → ltb p.shm_buffer_size reported ≡ false
      → access m p a old reported s0 ≡ access_data m p a reported s0
  unfolding access
  access-fits f g = rw (f, g) refl

  abbrev start : ℕ
  start = (m a.start_at).data_offset

  abbrev size : ℕ
  size = (m a.size_at).data_size

  abbrev local : List ℕ → Local
  local bs = record {
    new_revision = (m a.revision_at).data_revision_counter;
    new_buffer_size = size;
    new_buffer = store size bs s0;
    valid_data = true;
  }

  data-inv :
      access_data m p a reported s0 ≡ some (true, s')
      → (bs : List ℕ) × (size + (m a.check_at).data_offset ≤ reported)
        × (copy_bytes m a.copy_at start 0 size ≡ some bs)
        × (local bs ≡ s')
  unfolding access_data
  data-inv e = elim (Bool-cases (ltb reported (size + (m a.check_at).data_offset))) [
    | inl f ↦
        let g : ◌≡◌ {A = Option (Bool × Local)}
            (some (
              false,
              record s0 {
                new_revision = (m a.revision_at).data_revision_counter;
                valid_data = false;
              },
            ))
            (some (true, s')) =
          rw f at e in
        let c : false ≡ true = ap (λ o. elim o [ none ↦ false | some r ↦ r.0 ]) g in absurd (cc)
    | inr f ↦ elim (Option-cases (copy_bytes m a.copy_at start 0 size)) [
      | inl g ↦
          let h : ◌≡◌ {A = Option (Bool × Local)} none (some (true, s')) = rw (f, g) at e in
          absurd (cc)
      | inr (bs, g) ↦
          let h : ◌≡◌ {A = Option (Bool × Local)} (some (true, local bs)) (some (true, s')) =
            rw (f, g) at e in
          (bs, ground arith, g, ap (λ o. elim o [ none ↦ local bs | some r ↦ r.1 ]) h)
    ]
  ]

  readable-even : readable rev ≡ true → rev % 2 ≡ 0
  readable-even f = ground arith

  data-Copied :
      readable rev ≡ true
      → rev ≡ (m a.end_at).data_revision_counter
      → ltb p.shm_buffer_size reported ≡ false
      → access_data m p a reported s0 ≡ some (true, s')
      → Copied p a b s s'
  data-Copied f r g e =
      let (bs, fits, copied, l) = data-inv e in
      let (o1, o2, o3, o4, o5, o6, o7, o8, o9, o10, o11, o12, o13) = ordered in
      let still : (u : ℕ) → a.header ≤ u → u ≤ a.end_at → m u ≡ b =
        λ u. λ x. λ y. quiet a.header u a.end_at r (readable-even f) x y in
      let whole : reported ≡ b.shm_size = ap (λ x. x.shm_size) (still a.shm_size_at o12 o13) in
      let off : start ≡ b.data_offset = ap (λ x. x.data_offset) (still a.start_at o3 o4) in
      let sz : size ≡ b.data_size = ap (λ x. x.data_size) (still a.size_at o5 o6) in
      let check : (m a.check_at).data_offset ≡ b.data_offset =
        ap (λ x. x.data_offset) (still a.check_at o7 o8) in
      let rv : (m a.revision_at).data_revision_counter ≡ rev =
        ap (λ x. x.data_revision_counter) (still a.revision_at o1 o2) in
      (
        bs,
        f,
        ground (arith, g, whole),
        omega (arith, fits, sz, check, whole),
        sym (
              copy-still m b a.copy_at b.data_offset 0 b.data_size
                (λ j. still (a.copy_at j) (o9 j) (o10 j)))
            ∙ sym (ap₂ (λ x n. copy_bytes m a.copy_at x 0 n) off sz)
            ∙ copied,
        ap (λ x. x.new_revision) (sym l) ∙ rv,
        ap (λ x. x.new_buffer_size) (sym l) ∙ sz,
        ap (λ x. x.new_buffer) (sym l) ∙ ap (λ n. store n bs s0) sz,
      )

  -- An attempt that succeeds with valid data has copied the data of one state of the block, of an even
  -- revision, that lies in the block and in what is mapped, whatever the writer does between the reads,
  -- if the block stands still between two reads of the same even counter and the reads of the attempt
  -- stand between that of the counter in the header and the last.
  pub try_access-Copied :
      try_access m p a old s ≡ some (true, s') → s'.valid_data ≡ true → Copied p a b s s'
  try_access-Copied e v = elim (Bool-cases (readable rev)) [
    | inr f ↦
        let c : false ≡ true =
          ap (λ o. elim o as (λ x. Bool) [ none ↦ false | some r ↦ r.0 ])
            (sym (try-unreadable f) ∙ e) in
        absurd (cc)
    | inl f ↦
        let (g, r) = confirm-inv (access m p a old reported s0) (sym (try-readable f) ∙ e) in
        elim (Bool-cases same) [
          | inl k ↦
              let d : false ≡ s'.valid_data =
                ap (λ o. elim o as (λ x. Bool) [ none ↦ false | some q ↦ q.1.valid_data ])
                  (sym (access-same k) ∙ g) in
              let c : false ≡ true = d ∙ v in absurd (cc)
          | inr k ↦ elim (Bool-cases (ltb p.shm_buffer_size reported)) [
            | inl n ↦
                let c : false ≡ true =
                  ap (λ o. elim o as (λ x. Bool) [ none ↦ false | some q ↦ q.0 ])
                    (sym (access-large k n) ∙ g) in
                absurd (cc)
            | inr n ↦ data-Copied f r n (sym (access-fits k n) ∙ g)
          ]
        ]
  ]
