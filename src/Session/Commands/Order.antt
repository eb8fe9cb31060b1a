-- ===== src/Session/Commands/Order.antt =====
-- The order in which commands are written (core/src/session.cpp).
use sc_api.Common.{
  ℕ, ◌≡◌, refl, sym, ◌∙◌, ap, List, [], ◌∷◌, ◌++◌, append_assoc, append-nil, Option, none, some,
  Bool, true, false,
}
use sc_api.Session.Commands.{
  Link, Step, command, written, answered, closed, start_next_send, start_send_command, on_written,
  take_callback, take_found, find_handler, sent_by, run_step, run_steps,
}

-- What is given to the socket, as a list.
abbrev pub to_list : Option (List ℕ) → List (List ℕ)
to_list none = []
to_list (some p) = p ∷ []

module _ {H : Type 0} where
  -- The packets that are given to the socket.
  unfoldable pub all_sent : List (Step H) → Link H → List (List ℕ)
  all_sent [] l = []
  all_sent (s ∷ ss) l = to_list (sent_by s l) ++ all_sent ss (run_step s l)

  -- The packet that a step brings to a socket that is open.
  abbrev pub brought : Bool → Step H → List (List ℕ)
  brought true (command packet id cb) = packet ∷ []
  brought false (command packet id cb) = []
  brought o (written ok) = []
  brought o (answered id) = []
  brought o closed = []

  abbrev pub open_after : Bool → Step H → Bool
  open_after o (command packet id cb) = o
  open_after o (written ok) = o
  open_after o (answered id) = o
  open_after o closed = false

  -- The packets of the commands that come while the socket is open.
  unfoldable pub accepted : Bool → List (Step H) → List (List ℕ)
  accepted o [] = []
  accepted o (s ∷ ss) = brought o s ++ accepted (open_after o s) ss

  abbrev link : Bool → List (ℕ × H) → List (List ℕ) → Bool → Link H
  link o hs q b = record { is_open = o; handlers = hs; queue = q; send_in_progress = b }

  take_found-keeps :
      (f : Option H) (id : ℕ) (l : Link H)
      → ((take_found f id l).1.queue ≡ l.queue)
        × ((take_found f id l).1.is_open ≡ l.is_open)
        × ((take_found f id l).1.send_in_progress ≡ l.send_in_progress)
  take_found-keeps none id l = (refl, refl, refl)
  take_found-keeps (some cb) id l = (refl, refl, refl)

  -- What one step keeps.
  abbrev Keeps : Step H → Link H → Type 0
  Keeps s l =
      (to_list (sent_by s l) ++ (run_step s l).queue ≡ l.queue ++ brought l.is_open s)
      × ((run_step s l).is_open ≡ open_after l.is_open s)

  step-Keeps :
      (s : Step H) (o : Bool) (hs : List (ℕ × H)) (q : List (List ℕ)) (b : Bool)
      → Keeps s (link o hs q b)
  unfolding start_send_command start_next_send on_written take_callback
  step-Keeps (command packet id cb) false hs q b = (sym (append-nil q), refl)
  step-Keeps (command packet id cb) true hs q true = (refl, refl)
  step-Keeps (command packet id cb) true hs [] false = (refl, refl)
  step-Keeps (command packet id cb) true hs (p ∷ q) false = (refl, refl)
  step-Keeps (written false) true hs q b = (sym (append-nil q), refl)
  step-Keeps (written false) false hs q b = (sym (append-nil q), refl)
  step-Keeps (written true) true hs [] b = (refl, refl)
  step-Keeps (written true) false hs [] b = (refl, refl)
  step-Keeps (written true) true hs (p ∷ q) b = (sym (append-nil (p ∷ q)), refl)
  step-Keeps (written true) false hs (p ∷ q) b = (sym (append-nil (p ∷ q)), refl)
  step-Keeps (answered id) true hs q b =
      let k = take_found-keeps (find_handler id hs) id (link true hs q b) in
      (k.0 ∙ sym (append-nil q), k.1)
  step-Keeps (answered id) false hs q b =
      let k = take_found-keeps (find_handler id hs) id (link false hs q b) in
      (k.0 ∙ sym (append-nil q), k.1)
  step-Keeps closed true hs q b = (sym (append-nil q), refl)
  step-Keeps closed false hs q b = (sym (append-nil q), refl)

  pub run_step-is_open : (s : Step H) (l : Link H) → (run_step s l).is_open ≡ open_after l.is_open s
  run_step-is_open s l = (step-Keeps s l.is_open l.handlers l.queue l.send_in_progress).1

  -- Whatever happens, the packets that were given to the socket followed by those that wait are those
  -- that waited at first followed by those of the commands that came while the socket was open.
  pub run_steps-accepted :
      (ss : List (Step H)) (l : Link H)
      → all_sent ss l ++ (run_steps ss l).queue ≡ l.queue ++ accepted l.is_open ss
  unfolding all_sent accepted run_steps
  run_steps-accepted [] l = sym (append-nil l.queue)
  run_steps-accepted (s ∷ ss) l =
      let k = step-Keeps s l.is_open l.handlers l.queue l.send_in_progress in
      let l1 : Link H = run_step s l in
      let S : List (List ℕ) = to_list (sent_by s l) in
      append_assoc S (all_sent ss l1) (run_steps ss l1).queue
      ∙ ap (λ x. S ++ x) (run_steps-accepted ss l1)
      ∙ ap (λ o. S ++ (l1.queue ++ accepted o ss)) k.1
      ∙ sym (append_assoc S l1.queue (accepted (open_after l.is_open s) ss))
      ∙ ap (λ x. x ++ accepted (open_after l.is_open s) ss) k.0
      ∙ append_assoc l.queue (brought l.is_open s) (accepted (open_after l.is_open s) ss)

  -- No write has failed.
  abbrev pub NoFailure : List (Step H) → Type 0
  NoFailure [] = Unit
  NoFailure (written false ∷ ss) = ⊥
  NoFailure (s ∷ ss) = NoFailure ss

  -- Nothing waits while no write is in progress.
  abbrev pub IsDriven : Link H → Type 0
  IsDriven l = l.send_in_progress ≡ false → l.queue ≡ []

  step-IsDriven :
      (s : Step H) (o : Bool) (hs : List (ℕ × H)) (q : List (List ℕ)) (b : Bool)
      → NoFailure (s ∷ [])
      → IsDriven (link o hs q b)
      → IsDriven (run_step s (link o hs q b))
  unfolding start_send_command start_next_send on_written take_callback
  step-IsDriven (command packet id cb) false hs q b n d = d
  step-IsDriven (command packet id cb) true hs q true n d = λ e. absurd (cc)
  step-IsDriven (command packet id cb) true hs [] false n d = λ e. absurd (cc)
  step-IsDriven (command packet id cb) true hs (p ∷ q) false n d = λ e. absurd (cc)
  step-IsDriven (written false) o hs q b n d = absurd n
  step-IsDriven (written true) o hs [] b n d = λ e. refl
  step-IsDriven (written true) o hs (p ∷ q) b n d = λ e. absurd (cc)
  step-IsDriven (answered id) o hs q b n d =
      let k = take_found-keeps (find_handler id hs) id (link o hs q b) in λ e. k.0 ∙ d (sym k.2 ∙ e)
  step-IsDriven closed o hs q b n d = d

  NoFailure-cons :
      (s : Step H) (ss : List (Step H)) → NoFailure (s ∷ ss) → NoFailure (s ∷ []) × NoFailure ss
  NoFailure-cons (command packet id cb) ss n = (tt, n)
  NoFailure-cons (written true) ss n = (tt, n)
  NoFailure-cons (written false) ss n = absurd n
  NoFailure-cons (answered id) ss n = (tt, n)
  NoFailure-cons closed ss n = (tt, n)

  -- While no write fails, no packet waits without a write in progress, if none did at first: each
  -- completion starts the next write, and no wake-up is lost.
  pub run_steps-IsDriven :
      (ss : List (Step H)) (l : Link H) → NoFailure ss → IsDriven l → IsDriven (run_steps ss l)
  unfolding run_steps
  run_steps-IsDriven [] l n d = d
  run_steps-IsDriven (s ∷ ss) l n d =
      let m = NoFailure-cons s ss n in
      run_steps-IsDriven ss (run_step s l) m.1
        (step-IsDriven s l.is_open l.handlers l.queue l.send_in_progress m.0 d)
