-- ===== src/Events/Tests.antt =====
-- Runs of `EventQueue` and `EventProducer`, and their theorems at concrete inputs.
use sc_api.Common.{ℕ, ◌≡◌, refl, List, [], ◌∷◌, ◌++◌, Option, none, some, true, false}
use sc_api.Events.{
  EventQueue, Step, notified, closed, taken, run_step, run_steps, push, push_initial, close,
  try_pop, wait_from, pop, try_pop_for, try_pop_until, returned, Store, notify_event, close_all,
}
use sc_api.Events.Queue.{accepted, delivered, run_steps-delivered}
use sc_api.Events.Wait.{Answered, timed, pop-Answered, pop-Closes, try_pop_for-pop}
use sc_api.Events.Producer.{notify_event-registered}

abbrev empty : EventQueue ℕ
empty = record { queue = []; is_open = true; wakeups = 0 }

-- An event comes, and the queue is closed, before the waiter has the mutex again.
abbrev late : List (List (Step ℕ))
late = [] ∷ (notified 7 ∷ closed ∷ []) ∷ []

-- The event stays in the queue, and the waiter gets nothing.
runs_late : pop late empty ≡ returned none (record { queue = 7 ∷ []; is_open = false; wakeups = 2 })
unfolding pop wait_from run_steps run_step push close
runs_late = refl

runs_try : try_pop_for ((notified 7 ∷ []) ∷ []) empty ≡ some (some 7, record empty { wakeups = 1 })
unfolding try_pop_for wait_from run_steps run_step push
runs_try = refl

abbrev shut : EventQueue ℕ
shut = record { queue = []; is_open = false; wakeups = 0 }

runs_initial : (try_pop (push_initial 3 shut)).0 ≡ some 3
unfolding try_pop push_initial
runs_initial = refl

abbrev holding : EventQueue ℕ
holding = record { queue = 1 ∷ []; is_open = true; wakeups = 0 }

abbrev steps : List (Step ℕ)
steps = taken ∷ notified 2 ∷ closed ∷ notified 3 ∷ []

run_steps-delivered_example :
    delivered steps holding ++ (run_steps steps holding).queue
    ≡ holding.queue ++ accepted true steps
run_steps-delivered_example = run_steps-delivered holding steps

pop-Answered_example : Answered late empty (pop late empty)
pop-Answered_example = pop-Answered late empty

pop-Closes_example : (r : Option ℕ) × (q' : EventQueue ℕ) × (pop late empty ≡ returned r q')
pop-Closes_example = pop-Closes late empty tt

try_pop_for-pop_example :
    (try_pop_for late empty ≡ timed (pop late empty))
    × (try_pop_until late empty ≡ timed (pop late empty))
try_pop_for-pop_example = try_pop_for-pop late empty

abbrev store : Store ℕ
store p = empty

notify_event-registered_example :
    (notify_event 9 (4 ∷ 5 ∷ []) store 5 ≡ record { queue = 9 ∷ []; is_open = true; wakeups = 1 })
    × (close_all (4 ∷ 5 ∷ []) store 5 ≡ record { queue = []; is_open = false; wakeups = 1 })
notify_event-registered_example = notify_event-registered 9 (4 ∷ 5 ∷ []) store 5 (refl, (refl, tt))
