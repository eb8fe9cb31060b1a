-- ===== src/Session/Commands/Callbacks.antt =====
-- How often the callbacks of commands are called (core/src/session.cpp).
use sc_api.Common.{
  ℕ, ◌+◌, ◌≤◌, ◌≡◌, refl, ◌∙◌, ap, List, [], ◌∷◌, ◌++◌, Option, none, some, Bool, true, false, ◌==◌,
  if◌then◌else◌, Bool-cases, inl, inr, arith, ==_iff,
}
use sc_api.Session.Commands.{
  Link, Step, command, written, answered, closed, set_handler, find_handler, erase_handler,
  start_next_send, start_send_command, on_written, take_callback, take_found, called_by, run_step,
  run_steps,
}
use sc_api.Session.Commands.Order.{open_after, run_step-is_open}

abbrev pub one_if : Bool → ℕ
one_if b = if b then 1 else 0

module _ {H : Type 0} (id : ℕ) where
  -- How many callbacks wait for the id.
  unfoldable pub pending : List (ℕ × H) → ℕ
  pending [] = 0
  pending ((k, c) ∷ hs) = (if k == id then 1 else 0) + pending hs

  -- The commands with the id that come while the socket is open.
  abbrev pub adds : Bool → Step H → ℕ
  adds true (command packet k cb) = one_if (k == id)
  adds false (command packet k cb) = 0
  adds o (written ok) = 0
  adds o (answered k) = 0
  adds o closed = 0

  unfoldable pub commands : Bool → List (Step H) → ℕ
  commands o [] = 0
  commands o (s ∷ ss) = adds o s + commands (open_after o s) ss

  -- The calls of a callback for the id.
  abbrev pub found : Option H → ℕ
  found none = 0
  found (some cb) = 1

  abbrev pub called_for : Step H → Link H → ℕ
  called_for (command packet k cb) l = 0
  called_for (written ok) l = 0
  called_for (answered k) l = if k == id then found (called_by (answered k) l) else 0
  called_for closed l = 0

  unfoldable pub calls : List (Step H) → Link H → ℕ
  calls [] l = 0
  calls (s ∷ ss) l = called_for s l + calls ss (run_step s l)

  pending-set :
      (k : ℕ) (cb : H) (hs : List (ℕ × H))
      → pending hs + one_if (k == id) ≤ 1
      → pending (set_handler k cb hs) ≡ pending hs + one_if (k == id)
  unfolding pending set_handler
  pending-set k cb [] a = ground arith
  pending-set k cb ((j, c) ∷ hs) a = elim (Bool-cases (j == k)) [
    | inl e ↦
        let q : j ≡ k = (==_iff j k).0 e in
        let none_yet : (k == id) ≡ true → one_if (j == id) ≡ 1 =
          λ r. ap one_if (ap (λ x. x == id) q ∙ r) in
        let sum : one_if (j == id) + pending hs + one_if (k == id) ≤ 1 = a in
        rw e (ground (arith, none_yet, sum, ap (λ x. one_if (x == id)) q))
    | inr e ↦ rw e (ground (arith, pending-set k cb hs (ground arith)))
  ]

  pending-erase :
      (k : ℕ) (hs : List (ℕ × H)) (cb : H)
      → find_handler k hs ≡ some cb
      → one_if (k == id) + pending (erase_handler k hs) ≡ pending hs
  unfolding pending find_handler erase_handler
  pending-erase k [] cb f = absurd (cc)
  pending-erase k ((j, c) ∷ hs) cb f = elim (Bool-cases (j == k)) [
    | inl e ↦ let q : j ≡ k = (==_iff j k).0 e in rw (e, q) refl
    | inr e ↦ let ih = pending-erase k hs cb (rw e at f) in rw e (omega (arith, ih))
  ]

  pending-none : (hs : List (ℕ × H)) → find_handler id hs ≡ none → pending hs ≡ 0
  unfolding pending find_handler
  pending-none [] f = refl
  pending-none ((j, c) ∷ hs) f = elim (Bool-cases (j == id)) [
    | inl e ↦ absurd (let g : some c ≡ none = rw e at f in cc)
    | inr e ↦ let ih = pending-none hs (rw e at f) in rw e (omega (arith, ih))
  ]

  abbrev link : Bool → List (ℕ × H) → List (List ℕ) → Bool → Link H
  link o hs q b = record { is_open = o; handlers = hs; queue = q; send_in_progress = b }

  start_next_send-handlers :
      (o : Bool) (hs : List (ℕ × H)) (q : List (List ℕ)) (b : Bool)
      → (start_next_send (link o hs q b)).1.handlers ≡ hs
  unfolding start_next_send
  start_next_send-handlers o hs q true = refl
  start_next_send-handlers o hs [] false = refl
  start_next_send-handlers o hs (p ∷ q) false = refl

  -- What one step keeps.
  abbrev Counts : Step H → Link H → Type 0
  Counts s l =
      called_for s l + pending (run_step s l).handlers ≡ pending l.handlers + adds l.is_open s

  take_found-Counts :
      (k : ℕ) (l : Link H) (f : Option H)
      → find_handler k l.handlers ≡ f
      → (if k == id then found (take_found f k l).0 else 0) + pending (take_found f k l).1.handlers
        ≡ pending l.handlers + 0
  take_found-Counts k l none e = elim (Bool-cases (k == id)) [
    | inl f ↦ rw f (omega arith)
    | inr f ↦ rw f (omega arith)
  ]
  take_found-Counts k l (some cb) e =
      let n : one_if (k == id) + pending (erase_handler k l.handlers) ≡ pending l.handlers =
        pending-erase k l.handlers cb e in
      omega (arith, n)

  answered-Counts : (k : ℕ) (l : Link H) → Counts (answered k) l
  unfolding take_callback
  answered-Counts k l = take_found-Counts k l (find_handler k l.handlers) refl

  step-Counts :
      (s : Step H) (o : Bool) (hs : List (ℕ × H)) (q : List (List ℕ)) (b : Bool)
      → pending hs + adds o s ≤ 1
      → Counts s (link o hs q b)
  unfolding start_send_command on_written
  step-Counts (command packet k cb) false hs q b a = omega arith
  step-Counts (command packet k cb) true hs q b a =
      let m : pending
            (start_next_send (link true (set_handler k cb hs) (q ++ (packet ∷ [])) b)).1.handlers
          ≡ pending hs + one_if (k == id) =
        ap pending (start_next_send-handlers true (set_handler k cb hs) (q ++ (packet ∷ [])) b)
        ∙ pending-set k cb hs a in
      omega (arith, m)
  step-Counts (written false) true hs q b a = omega arith
  step-Counts (written false) false hs q b a = omega arith
  step-Counts (written true) true hs q b a =
      let m = ap pending (start_next_send-handlers true hs q false) in omega (arith, m)
  step-Counts (written true) false hs q b a =
      let m = ap pending (start_next_send-handlers false hs q false) in omega (arith, m)
  step-Counts (answered k) o hs q b a = answered-Counts k (link o hs q b)
  step-Counts closed true hs q b a = omega arith
  step-Counts closed false hs q b a = omega arith

  -- Whatever happens, the calls of a callback for an id together with the callbacks that still wait
  -- for it are those that waited at first and the commands with the id that came while the socket was
  -- open, if those are no more than one in all: a callback is called at most once, and it waits until
  -- then.
  pub calls-commands :
      (ss : List (Step H)) (l : Link H)
      → pending l.handlers + commands l.is_open ss ≤ 1
      → calls ss l + pending (run_steps ss l).handlers ≡ pending l.handlers + commands l.is_open ss
  unfolding calls commands run_steps
  calls-commands [] l a = omega arith
  calls-commands (s ∷ ss) l a =
      let l1 : Link H = run_step s l in
      let open1 : commands l1.is_open ss ≡ commands (open_after l.is_open s) ss =
        ap (λ o. commands o ss) (run_step-is_open s l) in
      let one : called_for s l + pending l1.handlers ≡ pending l.handlers + adds l.is_open s =
        step-Counts s l.is_open l.handlers l.queue l.send_in_progress (omega arith) in
      let rest = calls-commands ss l1 (omega (arith, open1, one)) in omega (arith, one, rest, open1)
