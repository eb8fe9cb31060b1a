-- ===== src/Events/Queue.antt =====
-- The order in which an `EventQueue` (core/inc/sc-api/core/util/event_queue.h) gives its events.
use sc_api.Common.{
  ◌≡◌, refl, sym, ap, ◌∙◌, List, [], ◌∷◌, ◌++◌, append_assoc, append-nil, Bool, true, false, ℕ, suc,
  ◌≤◌, arith, some, none,
}
use sc_api.Events.{
  EventQueue, Step, notified, closed, taken, push, close, try_pop, run_step, run_steps,
}

module _ {E : Type 0} where
  -- The events that come before the queue is closed.
  unfoldable pub accepted : Bool → List (Step E) → List E
  accepted false ss = []
  accepted true [] = []
  accepted true (notified e ∷ ss) = e ∷ accepted true ss
  accepted true (closed ∷ ss) = []
  accepted true (taken ∷ ss) = accepted true ss

  -- The event that a step gives to a consumer, and those that the steps give.
  unfoldable pub given : Step E → EventQueue E → List E
  unfolding try_pop
  given (notified e) q = []
  given closed q = []
  given taken q = elim (try_pop q).0 [ none ↦ [] | some e ↦ e ∷ [] ]

  unfoldable pub delivered : List (Step E) → EventQueue E → List E
  unfolding given run_step
  delivered [] q = []
  delivered (s ∷ ss) q = given s q ++ delivered ss (run_step s q)

  unfoldable pub still_open : Bool → List (Step E) → Bool
  still_open o [] = o
  still_open o (notified e ∷ ss) = still_open o ss
  still_open o (closed ∷ ss) = still_open false ss
  still_open o (taken ∷ ss) = still_open o ss

  abbrev queue_of : List E → Bool → ℕ → EventQueue E
  queue_of es o n = record { queue = es; is_open = o; wakeups = n }

  delivered-append :
      (es : List E) (o : Bool) (n : ℕ) (ss : List (Step E))
      → delivered ss (queue_of es o n) ++ (run_steps ss (queue_of es o n)).queue
        ≡ es ++ accepted o ss
  unfolding delivered given accepted run_steps run_step push close try_pop
  delivered-append es false n [] = sym (append-nil es)
  delivered-append es true n [] = sym (append-nil es)
  delivered-append es true n (notified e ∷ ss) =
      delivered-append (es ++ (e ∷ [])) true (suc n) ss
      ∙ append_assoc es (e ∷ []) (accepted true ss)
  delivered-append es false n (notified e ∷ ss) = delivered-append es false n ss
  delivered-append es true n (closed ∷ ss) = delivered-append es false (suc n) ss
  delivered-append es false n (closed ∷ ss) = delivered-append es false n ss
  delivered-append [] true n (taken ∷ ss) = delivered-append [] true n ss
  delivered-append [] false n (taken ∷ ss) = delivered-append [] false n ss
  delivered-append (e ∷ es) true n (taken ∷ ss) = ap (λ l. e ∷ l) (delivered-append es true n ss)
  delivered-append (e ∷ es) false n (taken ∷ ss) = ap (λ l. e ∷ l) (delivered-append es false n ss)

  pub run_steps-is_open :
      (es : List E) (o : Bool) (n : ℕ) (ss : List (Step E))
      → (run_steps ss (queue_of es o n)).is_open ≡ still_open o ss
  unfolding still_open run_steps run_step push close try_pop
  run_steps-is_open es o n [] = refl
  run_steps-is_open es true n (notified e ∷ ss) = run_steps-is_open (es ++ (e ∷ [])) true (suc n) ss
  run_steps-is_open es false n (notified e ∷ ss) = run_steps-is_open es false n ss
  run_steps-is_open es true n (closed ∷ ss) = run_steps-is_open es false (suc n) ss
  run_steps-is_open es false n (closed ∷ ss) = run_steps-is_open es false n ss
  run_steps-is_open [] o n (taken ∷ ss) = run_steps-is_open [] o n ss
  run_steps-is_open (e ∷ es) o n (taken ∷ ss) = run_steps-is_open es o n ss

  -- The condition variable is notified at least as often as before.
  pub run_steps-wakeups :
      (es : List E) (o : Bool) (n : ℕ) (ss : List (Step E))
      → n ≤ (run_steps ss (queue_of es o n)).wakeups
  unfolding run_steps run_step push close try_pop
  run_steps-wakeups es o n [] = omega arith
  run_steps-wakeups es true n (notified e ∷ ss) =
      omega (arith, run_steps-wakeups (es ++ (e ∷ [])) true (suc n) ss)
  run_steps-wakeups es false n (notified e ∷ ss) = run_steps-wakeups es false n ss
  run_steps-wakeups es true n (closed ∷ ss) = omega (arith, run_steps-wakeups es false (suc n) ss)
  run_steps-wakeups es false n (closed ∷ ss) = run_steps-wakeups es false n ss
  run_steps-wakeups [] o n (taken ∷ ss) = run_steps-wakeups [] o n ss
  run_steps-wakeups (e ∷ es) o n (taken ∷ ss) = run_steps-wakeups es o n ss

  -- What leaves an open and empty queue ready has notified.
  pub run_steps-sleeps :
      (n : ℕ) (ss : List (Step E))
      → (run_steps ss (queue_of [] true n)).wakeups ≡ n
      → run_steps ss (queue_of [] true n) ≡ queue_of [] true n
  unfolding run_steps run_step push close try_pop
  run_steps-sleeps n [] h = refl
  run_steps-sleeps n (notified e ∷ ss) h =
      absurd (omega (arith, run_steps-wakeups (e ∷ []) true (suc n) ss))
  run_steps-sleeps n (closed ∷ ss) h = absurd (omega (arith, run_steps-wakeups [] false (suc n) ss))
  run_steps-sleeps n (taken ∷ ss) h = run_steps-sleeps n ss h

  -- Whatever the threads do, in whatever order, what the consumers got followed by what the queue
  -- still holds is what it held at first followed by the events that came before it was closed.
  pub run_steps-delivered :
      (q : EventQueue E) (ss : List (Step E))
      → delivered ss q ++ (run_steps ss q).queue ≡ q.queue ++ accepted q.is_open ss
  run_steps-delivered q ss = delivered-append q.queue q.is_open q.wakeups ss
