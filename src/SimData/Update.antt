-- ===== src/SimData/Update.antt =====
-- `SimDataUpdateBuilder` of core/src/sim_data_builder.cpp: an update of the simulator's data, written
-- with `BsonBuilder`. The builder of an object or a section is a `BsonBuilder` too; its document is
-- taken by `finish`, whose null pointer is read (`none`).
use sc_api.Common.{ℕ, List, [], Option, some, Bool, true, if◌then◌else◌, ◌>>=◌}
use sc_api.Types.{codes}
use sc_api.Bson.Builder.{Builder, blank, initialize_vector, end_document, finish}
use sc_api.Bson.Builder.Elements.{doc_add_sub_doc, doc_begin_sub_doc, doc_add_string, doc_add_null}
use sc_api.SimData.Keys.{hex16_key}

-- `BuilderBase::initialize`, with the vector that the builder has.
abbrev pub reinitialize : Builder → Builder
reinitialize b = initialize_vector b b.buffer 0 0

-- `BuilderBase()`
abbrev pub new_builder : Builder
new_builder = initialize_vector blank [] 0 0

pub record UpdateBuilder : Type 0 where
  pub builder : Builder
  pub sim_id : List ℕ
  pub activate_sim : Bool

-- What the methods take for a builder's document.
abbrev pub take_document : Builder → Option (List ℕ × Builder)
take_document other = do (bytes, other') ← finish other; sub ← bytes; some (sub, other')

module _ (grown : ℕ → ℕ → ℕ) where
  -- The object with the name and the one inside, which stay open.
  unfoldable pub open_sim : UpdateBuilder → Option UpdateBuilder
  open_sim u = do
    (ok, b) ←
        if u.activate_sim
        then doc_add_string grown (codes "active_sim") u.sim_id u.builder
        else some (true, u.builder)
    (ok1, b1) ← doc_begin_sub_doc grown (codes "sim") b
    (ok2, b2) ← doc_begin_sub_doc grown u.sim_id b1
    some (record u { builder = b2 })

  -- `SimDataUpdateBuilder(sim_id, activate_sim)`
  unfoldable pub update_builder : List ℕ → Bool → Option UpdateBuilder
  unfolding open_sim
  update_builder sim_id activate_sim =
      open_sim (record { builder = new_builder; sim_id = sim_id; activate_sim = activate_sim })

  -- `SimDataUpdateBuilder::initialize`
  unfoldable pub initialize_update : UpdateBuilder → Option UpdateBuilder
  unfolding open_sim
  initialize_update u = open_sim (record u { builder = reinitialize u.builder })

  -- `SimDataUpdateBuilder::finish`
  unfoldable pub finish_updates : UpdateBuilder → Option (Option (List ℕ) × UpdateBuilder)
  finish_updates u = do
    b ← end_document u.builder
    b1 ← end_document b
    (bytes, b2) ← finish b1
    some (bytes, record u { builder = b2 })

  -- A whole section under its name; the builder of the section starts again.
  unfoldable pub set_section : List ℕ → UpdateBuilder → Builder → Option (UpdateBuilder × Builder)
  set_section name u other = do
    (sub, other') ← take_document other
    (ok, b) ← doc_add_sub_doc grown name sub u.builder
    some (record u { builder = b }, reinitialize other')

  -- One object of a section, under its key; the builder of the object as `finish` leaves it.
  unfoldable pub set_object :
      List ℕ → List ℕ → UpdateBuilder → Builder → Option (UpdateBuilder × Builder)
  set_object name key u other = do
    (ok, b) ← doc_begin_sub_doc grown name u.builder
    (sub, other') ← take_document other
    (ok1, b1) ← doc_add_sub_doc grown key sub b
    b2 ← end_document b1
    some (record u { builder = b2 }, other')

  -- The same, and the builder of the object starts again.
  unfoldable pub set_object_again :
      List ℕ → List ℕ → UpdateBuilder → Builder → Option (UpdateBuilder × Builder)
  unfolding set_object
  set_object_again name key u other = do
    (u', other') ← set_object name key u other
    some (u', reinitialize other')

  -- The overloads of `buildAndSet`; those of a track and of a session do not start the builder again.
  unfoldable pub set_vehicles : UpdateBuilder → Builder → Option (UpdateBuilder × Builder)
  unfolding set_section
  set_vehicles = set_section (codes "vehicles")

  unfoldable pub set_vehicle : List ℕ → UpdateBuilder → Builder → Option (UpdateBuilder × Builder)
  unfolding set_object_again
  set_vehicle vehicle_id = set_object_again (codes "vehicles") vehicle_id

  unfoldable pub set_participants : UpdateBuilder → Builder → Option (UpdateBuilder × Builder)
  unfolding set_section
  set_participants = set_section (codes "participants")

  unfoldable pub set_participant : ℕ → UpdateBuilder → Builder → Option (UpdateBuilder × Builder)
  unfolding set_object_again hex16_key
  set_participant participant_id =
      set_object_again (codes "participants") (hex16_key participant_id)

  unfoldable pub set_tracks : UpdateBuilder → Builder → Option (UpdateBuilder × Builder)
  unfolding set_section
  set_tracks = set_section (codes "tracks")

  unfoldable pub set_track : List ℕ → UpdateBuilder → Builder → Option (UpdateBuilder × Builder)
  unfolding set_object
  set_track track_id = set_object (codes "tracks") track_id

  unfoldable pub set_tires : UpdateBuilder → Builder → Option (UpdateBuilder × Builder)
  unfolding set_section
  set_tires = set_section (codes "tires")

  unfoldable pub set_tire : ℕ → UpdateBuilder → Builder → Option (UpdateBuilder × Builder)
  unfolding set_object_again hex16_key
  set_tire tire_id = set_object_again (codes "tires") (hex16_key tire_id)

  unfoldable pub set_sessions : UpdateBuilder → Builder → Option (UpdateBuilder × Builder)
  unfolding set_section
  set_sessions = set_section (codes "sessions")

  unfoldable pub set_session : List ℕ → UpdateBuilder → Builder → Option (UpdateBuilder × Builder)
  unfolding set_object
  set_session session_id = set_object (codes "sessions") session_id

  unfoldable pub set_sim : UpdateBuilder → Builder → Option (UpdateBuilder × Builder)
  unfolding set_section
  set_sim = set_section (codes "sim")

  unfoldable pub set_active_session : List ℕ → UpdateBuilder → Option UpdateBuilder
  set_active_session session_id u =
      doc_add_string grown (codes "active_session") session_id u.builder >>= λ r.
      some (record u { builder = r.1 })

  -- `TypedNumIdListBuilder`: an object, and the removal of one.
  unfoldable pub add_numbered : ℕ → Builder → Builder → Option (Builder × Builder)
  unfolding hex16_key
  add_numbered id b other = do
    (sub, other') ← take_document other
    (ok, b') ← doc_add_sub_doc grown (hex16_key id) sub b
    some (b', reinitialize other')

  unfoldable pub add_removal : ℕ → Builder → Option (Bool × Builder)
  unfolding hex16_key
  add_removal id b = doc_add_null grown (hex16_key id) b
