-- ===== src/Telemetry.antt =====
-- `TelemetryUpdateGroup`, `TelemetryDefinitions` and `TelemetrySystem` of core/src/telemetry.cpp. A
-- handle is a pointer into a store, since groups share handles and read their values at each send.
-- Asserts are off: a base type without a size has the index -1 (`none`), and an access outside a
-- buffer or an array has no result.
pub mod System
pub mod Append
pub mod Bools
pub mod Send
pub mod Order
pub mod Tally
pub mod Register
pub mod Configure
mod Tests
use sc_api.Common.{
  ℕ, zero, suc, ◌+◌, ◌*◌, ◌/◌, ◌%◌, ◌^◌, List, [], ◌∷◌, ◌++◌, Option, none, some, Bool, true, false,
  not, ◌&&◌, length, ltb, ◌==◌, if◌then◌else◌, ◌>>=◌,
}
use sc_api.Bytes.{le_bytes, read_bytes, write_bytes}
use sc_api.Types.{ValueType, get_base_type, same_type}
use sc_api.Action.{
  ActionBuilder, ActionResult, SendError, init, start_building, send_nonblocking, send_blocking,
}

-- `TelemetryDefinition`
pub record TelemetryDefinition : Type 0 where
  pub name : List ℕ
  pub type : ValueType
  pub id : ℕ
  pub flags : ℕ
  pub variable_idx : ℕ

-- `TelemetryBase`, with the id and flags of its `ref_state_`, and the bytes that
-- `getSerializedValueBuf` points to.
pub record TelemetryBase : Type 0 where
  pub name : List ℕ
  pub type : ValueType
  pub id : ℕ
  pub flags : ℕ
  pub value : List ℕ

abbrev pub Handles : Type 0
Handles = ℕ → TelemetryBase

abbrev pub set_handle : Handles → ℕ → TelemetryBase → Handles
set_handle h p t = λ r. if p == r then t else h r

-- `baseTypeSizeIndex`; `none` is -1.
abbrev pub base_type_size_index : ℕ → Option ℕ
base_type_size_index b =
    if b == 0x01
    then some 0
    else if b == 0x08
    then some 1
    else if b == 0x0A
    then some 1
    else if b == 0x06
    then some 2
    else if b == 0x07
    then some 2
    else if b == 0x09
    then some 2
    else if b == 0x04
    then some 3
    else if b == 0x05
    then some 3
    else if b == 0x02
    then some 4
    else if b == 0x03
    then some 4
    else none

-- The equality of two texts.
unfoldable pub same_name : List ℕ → List ℕ → Bool
same_name [] [] = true
same_name [] (c ∷ cs) = false
same_name (c ∷ cs) [] = false
same_name (c ∷ cs) (d ∷ ds) = c == d && same_name cs ds

-- `find` by a test on the definition.
unfoldable pub find_def :
    (TelemetryDefinition → Bool) → List TelemetryDefinition → Option TelemetryDefinition
find_def f [] = none
find_def f (d ∷ ds) = if f d then some d else find_def f ds

abbrev pub find_name : List ℕ → List TelemetryDefinition → Option TelemetryDefinition
find_name name = find_def (λ d. same_name d.name name)

abbrev pub find_typed : List ℕ → ValueType → List TelemetryDefinition → Option TelemetryDefinition
find_typed name type = find_def (λ d. same_name d.name name && same_type d.type type)

abbrev pub find_id : ℕ → List TelemetryDefinition → Option TelemetryDefinition
find_id id = find_def (λ d. d.id == id)

-- `base_value_entries_by_size_`: five counters of 16 bits.
pub record Entries : Type 0 where
  pub bits : ℕ
  pub n64 : ℕ
  pub n32 : ℕ
  pub n16 : ℕ
  pub n8 : ℕ

abbrev pub no_entries : Entries
no_entries = record { bits = 0; n64 = 0; n32 = 0; n16 = 0; n8 = 0 }

abbrev pub bump : ℕ → Entries → Entries
bump zero e = record e { bits = (e.bits + 1) % 2 ^ 16 }
bump (suc zero) e = record e { n64 = (e.n64 + 1) % 2 ^ 16 }
bump (suc (suc zero)) e = record e { n32 = (e.n32 + 1) % 2 ^ 16 }
bump (suc (suc (suc zero))) e = record e { n16 = (e.n16 + 1) % 2 ^ 16 }
bump i e = record e { n8 = (e.n8 + 1) % 2 ^ 16 }

-- `TelemetryUpdateGroup`
pub record TelemetryUpdateGroup : Type 0 where
  pub telemetries : List ℕ
  pub base_value_bufs : List ℕ
  pub action_builder : ActionBuilder
  pub entries : Entries
  pub set_payload_size : ℕ
  pub group_id : ℕ
  pub prepared : Bool

abbrev pub set : List ℕ → TelemetryUpdateGroup → TelemetryUpdateGroup
set ts g = record g { prepared = false; telemetries = ts }

-- `add` with one handle or with a list.
abbrev pub add : List ℕ → TelemetryUpdateGroup → TelemetryUpdateGroup
add ts g = record g { prepared = false; telemetries = g.telemetries ++ ts }

-- The handles get the id and the flags of their definition, or zeros.
abbrev pub resolve_one : List TelemetryDefinition → TelemetryBase → TelemetryBase
resolve_one defs t = elim (find_typed t.name t.type defs) [
  | none ↦ record t { id = 0; flags = 0 }
  | some d ↦ record t { id = d.id; flags = d.flags }
]

unfoldable pub resolve : List TelemetryDefinition → List ℕ → Handles → Handles
resolve defs [] h = h
resolve defs (t ∷ ts) h = resolve defs ts (set_handle h t (resolve_one defs (h t)))

-- The comparison of the sort; -1 stands before every index.
abbrev pub rank : Option ℕ → ℕ
rank none = 0
rank (some i) = suc i

abbrev pub size_rank : Handles → ℕ → ℕ
size_rank h t = rank (base_type_size_index (get_base_type (h t).type))

abbrev pub before : Handles → ℕ → ℕ → Bool
before h a b =
    if ltb (size_rank h a) (size_rank h b)
    then true
    else if ltb (size_rank h b) (size_rank h a)
    then false
    else ltb (h a).id (h b).id

-- `std::unique` behind the element that was kept last.
abbrev pub same_ref : Handles → ℕ → ℕ → Bool
same_ref h a b = if (h a).id == 0 then false else (h a).id == (h b).id

unfoldable pub unique_from : Handles → ℕ → List ℕ → List ℕ
unique_from h a [] = a ∷ []
unique_from h a (b ∷ ts) = elim (same_ref h a b) [
  | true ↦ unique_from h a ts
  | false ↦ a ∷ unique_from h b ts
]

abbrev pub unique : Handles → List ℕ → List ℕ
unique h [] = []
unique h (a ∷ ts) = unique_from h a ts

-- What the first loop over the handles collects.
pub record Counted : Type 0 where
  pub bufs : List ℕ
  pub counts : Entries
  pub register_payload_size : ℕ

unfoldable pub count_all : Handles → List ℕ → Counted → Option Counted
count_all h [] c = some c
count_all h (t ∷ ts) c = elim ((h t).id == 0) [
  | true ↦ count_all h ts c
  | false ↦ elim (base_type_size_index (get_base_type (h t).type)) [
    | none ↦ none
    | some i ↦ count_all h ts (record {
      bufs = c.bufs ++ (t ∷ []);
      counts = bump i c.counts;
      register_payload_size = (c.register_payload_size + 2) % 2 ^ 32;
    })
  ]
]

abbrev pub expected_size : Entries → ℕ
expected_size e =
    (((e.bits + 63 + 32) / 64) * 8 + e.n64 * 8 + e.n32 * 4 + e.n16 * 2 + e.n8) % 2 ^ 32

-- The ids, from `payload_size` on.
unfoldable pub write_ids : Handles → ℕ → List ℕ → ℕ → List ℕ → Option (List ℕ)
write_ids h payload [] payload_size buf = some buf
write_ids h payload (t ∷ ts) payload_size buf = elim ((h t).id == 0) [
  | true ↦ write_ids h payload ts payload_size buf
  | false ↦
      write_bytes buf (payload + payload_size) (le_bytes 2 (h t).id)
      >>= write_ids h payload ts ((payload_size + 2) % 2 ^ 32)
]

-- Where the payload of the last `startBuilding` begins.
abbrev pub payload_of : ActionBuilder → ℕ
payload_of b = b.cur_start_idx + 8

abbrev pub with_buffer : ActionBuilder → List ℕ → ActionBuilder
with_buffer b buf = record b { buffer = buf }

-- The registration's payload.
unfoldable pub write_registration :
    Handles → TelemetryUpdateGroup → ℕ → ActionBuilder → Option ActionBuilder
write_registration h g size b = do
  buf ← write_ids h (payload_of b) g.telemetries 6 b.buffer
  buf1 ← write_bytes buf (payload_of b) (le_bytes 2 g.group_id)
  buf2 ← write_bytes buf1 (payload_of b + 2) (le_bytes 2 (length g.base_value_bufs))
  buf3 ← write_bytes buf2 (payload_of b + 4) (le_bytes 2 size)
  some (with_buffer b buf3)

abbrev pub is_complete : ActionResult → Bool
is_complete ActionResult.complete = true
is_complete _ = false

-- What a caller of `startBuilding` does with the null pointer, and with a payload.
abbrev pub started {ℓ} :
    {A : Type ℓ}
    → (ActionBuilder → A)
    → (ActionBuilder → Option A)
    → Bool × ActionBuilder
    → Option A
started refuse go (false, b) = some (refuse b)
started refuse go (true, b) = go b

-- The result of `configure`: what it returns, the datagram, the handles and the group.
pub record Configured : Type 0 where
  pub returns : Bool
  pub datagram : Option (List ℕ)
  pub handles : Handles
  pub group : TelemetryUpdateGroup

abbrev pub refused : Handles → TelemetryUpdateGroup → Configured
refused h g = record { returns = false; datagram = none; handles = h; group = g }

abbrev pub registered :
    Handles → TelemetryUpdateGroup → ℕ → ActionResult × Option (List ℕ) × ActionBuilder → Configured
registered h g size (r, d, b) = record {
  returns = is_complete r;
  datagram = d;
  handles = h;
  group = record g {
    action_builder = b;
    set_payload_size = (size + 4) % 2 ^ 16;
    prepared = is_complete r;
  };
}

-- `configure` from the call of `startBuilding` on. The two reports are those of the sends.
unfoldable pub register :
    SendError → SendError → Handles → ℕ → ℕ → TelemetryUpdateGroup → Option Configured
unfolding write_registration
register e e' h size register_size g =
    start_building 0x1000 register_size 0 g.action_builder
    >>= started (λ b. refused h (record g { action_builder = b }))
        (λ b. write_registration h g size b >>= λ b1.
          send_blocking e e' b1 >>= λ s. some (registered h g size s))

-- The group whose handles were sorted and counted.
abbrev pub sorted_group : ℕ → List ℕ → Counted → TelemetryUpdateGroup → TelemetryUpdateGroup
sorted_group id sorted c g = record g {
  telemetries = sorted;
  base_value_bufs = c.bufs;
  action_builder = init (some id) g.action_builder;
  entries = c.counts;
  prepared = false;
}

-- `configure` with a session and handles. `std::sort` is a parameter: how it leaves equal elements is
-- open.
unfoldable pub configure_with :
    (Handles → List ℕ → List ℕ)
    → SendError
    → SendError
    → ℕ
    → List TelemetryDefinition
    → Handles
    → TelemetryUpdateGroup
    → Option Configured
configure_with sort e e' id defs h g =
    let h' = resolve defs g.telemetries h in
    let sorted = unique h' (sort h' g.telemetries) in
    count_all h' sorted (record { bufs = []; counts = no_entries; register_payload_size = 6 })
    >>= λ c.
        if expected_size c.counts == 0
        then some (refused h' (sorted_group id sorted c g))
        else register e e' h' (expected_size c.counts) c.register_payload_size
            (sorted_group id sorted c g)

-- `configure(definitions)`: the session of the definitions is `none` for the null pointer.
unfoldable pub configure :
    (Handles → List ℕ → List ℕ)
    → SendError
    → SendError
    → Option ℕ
    → List TelemetryDefinition
    → Handles
    → TelemetryUpdateGroup
    → Option Configured
configure sort e e' none defs h g = some (refused h g)
configure sort e e' (some id) defs h g = elim (g.telemetries) [
  | [] ↦ some (refused h g)
  | t ∷ ts ↦ configure_with sort e e' id defs h g
]

-- Where `send` is in the payload and in `base_value_bufs_`.
pub record Cursor : Type 0 where
  pub buf : List ℕ
  pub payload_idx : ℕ
  pub bufs : List ℕ

-- A `memcpy` to the payload, and the step of the index behind it.
unfoldable pub put : ℕ → List ℕ → Cursor → Option Cursor
put payload bs c = write_bytes c.buf (payload + c.payload_idx) bs >>= λ b.
    some (record c { buf = b; payload_idx = c.payload_idx + length bs })

-- `word |= 1u << bit`
abbrev pub set_bit : ℕ → ℕ → ℕ
set_bit word bit = if word / 2 ^ bit % 2 == 1 then word else word + 2 ^ bit

-- A bool that is read from its first byte.
abbrev pub is_true : List ℕ → Bool
is_true [] = false
is_true (b ∷ bs) = not (b == 0)

abbrev pub next_word : Handles → ℕ → ℕ → ℕ → ℕ
next_word h bit_idx word p = if is_true (h p).value then set_bit word (bit_idx % 32) else word

-- A word goes to the payload where the test holds.
unfoldable pub emit : ℕ → Bool → ℕ → Cursor → Option Cursor
emit payload full word c = if full then put payload (le_bytes 4 word) c else some c

-- The loop over the bools: `n` are left. It gives the last word, which is never set back to 0.
unfoldable pub write_bools : Handles → ℕ → ℕ → ℕ → ℕ → Cursor → Option (ℕ × Cursor)
write_bools h payload zero bit_idx word c = some (word, c)
write_bools h payload (suc n) bit_idx word c = elim (c.bufs) [
  | [] ↦ none
  | p ∷ ps ↦
      let word' = next_word h bit_idx word p in
      emit payload ((bit_idx + 1) % 32 == 0) word' (record c { bufs = ps })
      >>= write_bools h payload n (bit_idx + 1) word'
]

-- `Align up to 8 bytes`
abbrev pub align : Cursor → Cursor
align c = record c { payload_idx = (c.payload_idx + 7) / 8 * 8 }

-- The words of the bools, the last one included.
unfoldable pub write_words : Handles → ℕ → ℕ → Cursor → Option Cursor
write_words h payload n c =
    write_bools h payload n 0 0 c >>= λ r. emit payload (not (n % 32 == 0)) r.0 r.1

-- A loop over the values of one size.
unfoldable pub write_values : Handles → ℕ → ℕ → ℕ → Cursor → Option Cursor
write_values h payload size zero c = some c
write_values h payload size (suc n) c = elim (c.bufs) [
  | [] ↦ none
  | p ∷ ps ↦ read_bytes (h p).value 0 size >>= λ bs.
      put payload bs (record c { bufs = ps }) >>= write_values h payload size n
]

-- The writes of `send`, in their order.
unfoldable pub write_fields : Handles → ℕ → ℕ → Entries → Cursor → Option Cursor
write_fields h payload group_id e c = do
  c0 ← put payload (le_bytes 2 group_id) c
  c1 ← put payload (0 ∷ 0 ∷ []) c0
  c2 ← write_words h payload e.bits c1
  c3 ← write_values h payload 8 e.n64 (align c2)
  c4 ← write_values h payload 4 e.n32 c3
  c5 ← write_values h payload 2 e.n16 c4
  write_values h payload 1 e.n8 c5

-- The whole payload, from the start of `base_value_bufs_`.
unfoldable pub write_payload : Handles → TelemetryUpdateGroup → ActionBuilder → Option ActionBuilder
write_payload h g b =
    write_fields h (payload_of b) g.group_id g.entries
      (record { buf = b.buffer; payload_idx = 0; bufs = g.base_value_bufs })
    >>= λ c. some (with_buffer b c.buf)

-- The result of `send` and `disable`: what they return, the datagram, and the group.
abbrev pub Sent : Type 0
Sent = ActionResult × Option (List ℕ) × TelemetryUpdateGroup

abbrev failed_with : TelemetryUpdateGroup → ActionBuilder → Sent
failed_with g b = (ActionResult.failed, none, record g { action_builder = b })

abbrev sent_with : TelemetryUpdateGroup → ActionResult × Option (List ℕ) × ActionBuilder → Sent
sent_with g (r, d, b) = (r, d, record g { action_builder = b })

unfoldable pub send : SendError → Handles → TelemetryUpdateGroup → Option Sent
send e h g =
    if g.prepared
    then (start_building 0x1001 g.set_payload_size 0 g.action_builder
        >>= started (failed_with g) (λ b.
          write_payload h g b >>= λ b1. send_nonblocking e b1 >>= λ s. some (sent_with g s)))
    else some (failed_with g g.action_builder)

-- `disable`
unfoldable pub disable : SendError → SendError → TelemetryUpdateGroup → Option Sent
disable e e' g =
    start_building 0x1000 6 0 g.action_builder
    >>= started (failed_with g) (λ b.
      write_bytes b.buffer (payload_of b) (le_bytes 2 g.group_id) >>= λ buf.
      write_bytes buf (payload_of b + 2) (0 ∷ 0 ∷ 0 ∷ 0 ∷ []) >>= λ buf'.
      send_blocking e e' (with_buffer b buf') >>= λ s.
      some (sent_with (record g { prepared = false }) s))
