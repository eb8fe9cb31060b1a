-- ===== src/Telemetry/Configure.antt =====
-- `TelemetryUpdateGroup::configure` (core/src/telemetry.cpp), and a `send` after it.
use sc_api.Common.{
  ℕ, ◌+◌, ◌%◌, ◌^◌, ◌<◌, ◌≡◌, ◌≢◌, List, [], some, true, length, All, if◌then◌else◌, ◌==◌,
}
use sc_api.Action.{SendError}
use sc_api.Action.Build.{packet}
use sc_api.Telemetry.{
  Handles, TelemetryBase, TelemetryDefinition, TelemetryUpdateGroup, Entries, no_entries, Counted,
  Configured, resolve, size_rank, unique, expected_size, sorted_group,
}
use sc_api.Telemetry.Order.{Sorts, active}
use sc_api.Telemetry.Tally.{HasIndex, counted}
use sc_api.Telemetry.Register.{registration}

-- The bytes of a value, by the rank of its size.
abbrev pub width : ℕ → ℕ
width r = if r == 2 then 8 else if r == 3 then 4 else if r == 4 then 2 else 1

-- A handle whose type has a size, with a value of that size.
abbrev pub IsHandle : Handles → ℕ → Type 0
IsHandle h t = HasIndex h t × (length (h t).value ≡ width (size_rank h t))

-- What `resolve` leaves of a handle.
abbrev Keeps : TelemetryBase → TelemetryBase → Type 0
Keeps a b = (a.type ≡ b.type) × (a.value ≡ b.value)

module _ (sort : Handles → List ℕ → List ℕ) (sorts : Sorts sort) (e' : SendError) (id : ℕ)
    (defs : List TelemetryDefinition) (h h2 : Handles) (g : TelemetryUpdateGroup) (real : id ≢ 0)
    (good : All (IsHandle h) g.telemetries) (few : length g.telemetries < 8190)
    (same : (t : ℕ) → length (h2 t).value ≡ length (h t).value) where
  abbrev h' : Handles
  h' = resolve defs g.telemetries h

  abbrev sorted : List ℕ
  sorted = unique h' (sort h' g.telemetries)

  abbrev bufs : List ℕ
  bufs = active h' sorted

  abbrev c0 : Counted
  c0 = record { bufs = []; counts = no_entries; register_payload_size = 6 }

  abbrev counts : Entries
  counts = (counted h' c0 bufs).counts

  abbrev grouped : TelemetryUpdateGroup
  grouped = sorted_group id sorted (counted h' c0 bufs) g

  abbrev size : ℕ
  size = expected_size counts

  abbrev registered_bytes : List ℕ
  registered_bytes = packet id 0 0x1000 (registration h' g.group_id (length bufs) size bufs)

  abbrev after : TelemetryUpdateGroup
  after = record grouped {
    action_builder = record { session = some id; buffer = []; cur_start_idx = 0 };
    set_payload_size = (size + 4) % 2 ^ 16;
    prepared = true;
  }

  abbrev result : Configured
  result = record { returns = true; datagram = some registered_bytes; handles = h'; group = after }
