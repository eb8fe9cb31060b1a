-- ===== src/Session/Control/KeepAlive.antt =====
-- How a session in monitor mode notices that the service is gone: `periodicUpdate` in
-- core/src/session.cpp.
use sc_api.Common.{
  ℕ, ◌+◌, ◌<◌, ◌≤◌, ◌≡◌, ◌≢◌, refl, ◌∙◌, ap, List, [], ◌∷◌, true, false, ◌⊎◌, ◌==◌, if◌then◌else◌,
  arith, Bool-cases, inl, inr, ==_iff, lt→ltb,
}
use sc_api.Session.Control.{
  State, connected_monitor, session_lost, Session, Changes, note_keep_alive, is_silent,
  update_state, periodic_update, disconnected,
}

-- What an update reads: the counter of the service, the clock when the counter has changed and when
-- it is checked, and what the providers report.
pub record Reading : Type 0 where
  pub keep_alive : ℕ
  pub noted : ℕ
  pub time : ℕ
  pub changes : Changes

abbrev step : Reading → Session → Session
step r s = (periodic_update r.keep_alive r.noted r.time r.changes s).1.1

-- The updates, one after the other.
unfoldable pub updates : List Reading → Session → Session
updates [] s = s
updates (r ∷ rs) s = updates rs (step r s)

-- The counter stays at `value`.
abbrev pub IsStill : ℕ → List Reading → Type 0
IsStill value [] = Unit
IsStill value (r ∷ rs) = (r.keep_alive ≡ value) × IsStill value rs

-- Some update comes after the time `limit`.
abbrev pub ComesAfter : ℕ → List Reading → Type 0
ComesAfter limit [] = ⊥
ComesAfter limit (r ∷ rs) = (limit < r.time) ⊎ ComesAfter limit rs

-- Every check comes no later than 1000 ms after the last change of the counter was noted: that of the
-- same update, where the counter has changed, or else the one at the time `prev`.
abbrev pub IsTimely : ℕ → ℕ → List Reading → Type 0
IsTimely value prev [] = Unit
IsTimely value prev (r ∷ rs) =
    ((r.keep_alive ≡ value) × (r.time ≤ prev + 1000) × IsTimely value prev rs)
    ⊎ ((r.keep_alive ≢ value) × (r.time ≤ r.noted + 1000) × IsTimely r.keep_alive r.noted rs)

abbrev state_of : State → Reading → Session → Session
state_of st r s = (update_state st r.time r.changes s).1.1

lost-state : (r : Reading) (s : Session) → state_of session_lost r s ≡ s
unfolding update_state
lost-state r s = refl

monitor-silent :
    (r : Reading) (s : Session)
    → is_silent r.time s ≡ true
    → state_of connected_monitor r s ≡ record s { state = session_lost }
unfolding update_state disconnected
monitor-silent r s e = rw (e, state_of) refl

monitor-alive :
    (r : Reading) (s : Session) → is_silent r.time s ≡ false → state_of connected_monitor r s ≡ s
unfolding update_state
monitor-alive r s e = rw (e, state_of) refl

-- A session whose counter moved.
abbrev refreshed : Reading → Session → Session
refreshed r s = record s { prev_keep_alive_value = r.keep_alive; prev_keep_alive = r.noted }

note-same :
    (r : Reading) (s : Session)
    → r.keep_alive ≡ s.prev_keep_alive_value
    → note_keep_alive r.keep_alive r.noted s ≡ s
note-same r s e =
    let q : (r.keep_alive == s.prev_keep_alive_value) ≡ true =
      (==_iff r.keep_alive s.prev_keep_alive_value).1 e in
    ap (λ b. if b then s else refreshed r s) q

note-moves :
    (r : Reading) (s : Session)
    → r.keep_alive ≢ s.prev_keep_alive_value
    → note_keep_alive r.keep_alive r.noted s ≡ refreshed r s
note-moves r s n =
    let q : (r.keep_alive == s.prev_keep_alive_value) ≡ false = ground arith in
    ap (λ b. if b then s else refreshed r s) q

step-noted :
    (r : Reading) (s t : Session) (st : State)
    → note_keep_alive r.keep_alive r.noted s ≡ t
    → t.state ≡ st
    → step r s ≡ state_of st r t
unfolding periodic_update
step-noted r s t st e f = ap (λ x. state_of x.state r x) e ∙ ap (λ x. state_of x r t) f

note-state : (r : Reading) (s : Session) → (note_keep_alive r.keep_alive r.noted s).state ≡ s.state
note-state r s = elim (Bool-cases (r.keep_alive == s.prev_keep_alive_value)) [
  | inl e ↦ ap (λ b. (if b then s else refreshed r s).state) e
  | inr e ↦ ap (λ b. (if b then s else refreshed r s).state) e
]

lost-stays :
    (rs : List Reading) (s : Session) → s.state ≡ session_lost → (updates rs s).state ≡ session_lost
unfolding updates
lost-stays [] s e = e
lost-stays (r ∷ rs) s e =
    let t : Session = note_keep_alive r.keep_alive r.noted s in
    let f : t.state ≡ session_lost = note-state r s ∙ e in
    lost-stays rs (step r s)
      (ap (λ x. x.state) (step-noted r s t session_lost refl f ∙ lost-state r t) ∙ f)

-- A session in monitor mode whose service stands still is lost by the first update that comes more
-- than 1000 ms after the last change of the counter, and stays lost.
pub updates-lost :
    (rs : List Reading) (s : Session)
    → s.state ≡ connected_monitor
    → IsStill s.prev_keep_alive_value rs
    → ComesAfter (s.prev_keep_alive + 1000) rs
    → (updates rs s).state ≡ session_lost
unfolding updates
updates-lost [] s m i c = absurd c
updates-lost (r ∷ rs) s m i c =
    let e = step-noted r s s connected_monitor (note-same r s i.0) m in
    elim (Bool-cases (is_silent r.time s)) [
      | inl f ↦ lost-stays rs (step r s) (ap (λ x. x.state) (e ∙ monitor-silent r s f))
      | inr f ↦
          let g : step r s ≡ s = e ∙ monitor-alive r s f in
          ap (λ x. (updates rs x).state) g ∙ updates-lost rs s m i.1 (later f c)
    ]
  where
    later :
        is_silent r.time s ≡ false
        → (s.prev_keep_alive + 1000 < r.time) ⊎ ComesAfter (s.prev_keep_alive + 1000) rs
        → ComesAfter (s.prev_keep_alive + 1000) rs
    later f (inl k) = let t = lt→ltb (s.prev_keep_alive + 1000) r.time k in absurd (cc)
    later f (inr k) = k

-- A session in monitor mode stays so, as long as every check comes no later than 1000 ms after the
-- last change of the counter was noted.
pub updates-alive :
    (rs : List Reading) (s : Session)
    → s.state ≡ connected_monitor
    → IsTimely s.prev_keep_alive_value s.prev_keep_alive rs
    → (updates rs s).state ≡ connected_monitor
unfolding updates
updates-alive [] s m i = m
updates-alive (r ∷ rs) s m (inl (same, soon, more)) =
    let f : is_silent r.time s ≡ false = ground arith in
    let g : step r s ≡ s =
      step-noted r s s connected_monitor (note-same r s same) m ∙ monitor-alive r s f in
    ap (λ x. (updates rs x).state) g ∙ updates-alive rs s m more
updates-alive (r ∷ rs) s m (inr (moves, soon, more)) =
    let t : Session = refreshed r s in
    let f : is_silent r.time t ≡ false = ground arith in
    let g : step r s ≡ t =
      step-noted r s t connected_monitor (note-moves r s moves) m ∙ monitor-alive r t f in
    ap (λ x. (updates rs x).state) g ∙ updates-alive rs t m more
