-- ===== src/Events.antt =====
-- `EventQueue` and `EventProducer` of core/inc/sc-api/core/util/event_queue.h. Every method holds the
-- queue's mutex, so that what other threads do to it stands between the steps of a method: before it
-- and, where the method waits on the condition variable, in the groups of a list. The condition
-- variable is the number of the calls of `notify_one` and `notify_all`; one thread at a time waits in
-- a queue, so that either call wakes it.
pub mod Queue
pub mod Wait
pub mod Producer
mod Tests
use sc_api.Common.{
  ℕ, zero, suc, List, [], ◌∷◌, ◌++◌, Option, none, some, Bool, true, false, not, ◌||◌, ◌&&◌, ◌==◌,
  if◌then◌else◌,
}

-- The fields of `EventQueue`, but for the mutex and the producer; `wakeups` is for the condition
-- variable.
pub record EventQueue (E : Type 0) : Type 0 where
  pub queue : List E
  pub is_open : Bool
  pub wakeups : ℕ

module _ {E : Type 0} where
  abbrev pub is_empty : List E → Bool
  is_empty [] = true
  is_empty (e ∷ es) = false

  unfoldable pub push : E → EventQueue E → EventQueue E
  push e q =
      if q.is_open then record q { queue = q.queue ++ (e ∷ []); wakeups = suc q.wakeups } else q

  -- `pushInitialEvent` does not look at `open_`.
  unfoldable pub push_initial : E → EventQueue E → EventQueue E
  push_initial e q = record q { queue = q.queue ++ (e ∷ []) }

  unfoldable pub close : EventQueue E → EventQueue E
  close q = if not (q.is_open) then q else record q { is_open = false; wakeups = suc q.wakeups }

  -- `queue_.front()` and `queue_.pop()`; an empty queue gives `none`, where C++ leaves the behaviour
  -- undefined.
  abbrev pub front : EventQueue E → Option (E × EventQueue E)
  front q = elim (q.queue) [ [] ↦ none | e ∷ es ↦ some (e, record q { queue = es }) ]

  unfoldable pub try_pop : EventQueue E → Option E × EventQueue E
  try_pop q = elim (q.queue) [ [] ↦ (none, q) | e ∷ es ↦ (some e, record q { queue = es }) ]

-- What another thread does to a queue.
pub data Step (E : Type 0) : Type 0 where
  notified : E → Step E
  closed : Step E
  taken : Step E

module _ {E : Type 0} where
  unfoldable pub run_step : Step E → EventQueue E → EventQueue E
  run_step (notified e) q = push e q
  run_step closed q = close q
  run_step taken q = (try_pop q).1

  unfoldable pub run_steps : List (Step E) → EventQueue E → EventQueue E
  run_steps [] q = q
  run_steps (s ∷ ss) q = run_steps ss (run_step s q)

  -- The predicate of the waits.
  abbrev pub ready : EventQueue E → Bool
  ready q = not (is_empty q.queue) || not (q.is_open)

  -- The condition variable was notified between two states.
  abbrev pub woken_by : EventQueue E → EventQueue E → Bool
  woken_by q q' = not (q.wakeups == q'.wakeups)

  -- A wait on the condition variable with that predicate, from where the waiter is awake or not. Each
  -- group is what the other threads do while the waiter has not the mutex; it looks at the predicate
  -- only when it was notified, and at the end of its time when it `expires`. It says whether the
  -- predicate held at last.
  unfoldable pub wait_from : Bool → Bool → List (List (Step E)) → EventQueue E → Bool × EventQueue E
  wait_from expires awake [] q = ((awake || expires) && ready q, q)
  wait_from expires awake (g ∷ gs) q =
      let q' = run_steps g q in
      let rest = wait_from expires (woken_by q q') gs q' in
      if awake && ready q then (true, q) else rest

  abbrev pub wait : Bool → List (List (Step E)) → EventQueue E → Bool × EventQueue E
  wait expires groups q = wait_from expires true groups q

  -- What stands behind the wait: a closed queue gives nothing.
  abbrev pub take_open : EventQueue E → Option (Option E × EventQueue E)
  take_open q =
      if not (q.is_open)
      then some (none, q)
      else elim (front q) [ none ↦ none | some (e, q') ↦ some (some e, q') ]

  -- `tryPopFor`; the outer `none` is undefined behaviour.
  unfoldable pub try_pop_for :
      List (List (Step E)) → EventQueue E → Option (Option E × EventQueue E)
  unfolding wait_from
  try_pop_for groups q =
      if is_empty q.queue
      then (let (ok, q') = wait true groups q in if not ok then some (none, q') else take_open q')
      else elim (front q) [ none ↦ none | some (e, q') ↦ some (some e, q') ]

  -- `tryPopUntil`
  unfoldable pub try_pop_until :
      List (List (Step E)) → EventQueue E → Option (Option E × EventQueue E)
  unfolding wait_from
  try_pop_until groups q =
      if is_empty q.queue
      then (let (not_timeout, q') = wait true groups q in
          if not not_timeout || not (q'.is_open)
          then some (none, q')
          else elim (front q') [ none ↦ none | some (e, q'') ↦ some (some e, q'') ])
      else elim (front q) [ none ↦ none | some (e, q') ↦ some (some e, q') ]

-- A `pop` still waits, or has returned an event, or a default one (`none`).
pub data Popped (E : Type 0) : Type 0 where
  waiting : EventQueue E → Popped E
  returned : Option E → EventQueue E → Popped E
  undefined : Popped E

module _ {E : Type 0} where
  abbrev pub answer : Option (Option E × EventQueue E) → Popped E
  answer none = undefined
  answer (some (e, q)) = returned e q

  abbrev pub after_wait : Bool × EventQueue E → Popped E
  after_wait (ok, q) = if ok then answer (take_open q) else waiting q

  -- `pop`; it has no time-out.
  unfoldable pub pop : List (List (Step E)) → EventQueue E → Popped E
  unfolding wait_from
  pop groups q =
      if is_empty q.queue
      then after_wait (wait false groups q)
      else answer (elim (front q) [ none ↦ none | some (e, q') ↦ some (some e, q') ])

-- The queues of a producer are pointers; the store has the queue behind each.
abbrev pub Store : Type 0 → Type 0
Store E = ℕ → EventQueue E

-- `removeEventQueue`: the first pointer that is the queue's.
unfoldable pub remove_event_queue : ℕ → List ℕ → List ℕ
remove_event_queue p [] = []
remove_event_queue p (r ∷ ps) = if r == p then ps else r ∷ remove_event_queue p ps

module _ {E : Type 0} where
  abbrev pub update : Store E → ℕ → EventQueue E → Store E
  update s p q = λ r. if p == r then q else s r

  -- `notifyEvent`
  unfoldable pub notify_event : E → List ℕ → Store E → Store E
  notify_event e [] s = s
  notify_event e (p ∷ ps) s = notify_event e ps (update s p (push e (s p)))

  -- `addEventQueue`
  unfoldable pub add_event_queue : ℕ → List ℕ → Store E → List ℕ × Store E
  add_event_queue p ps s = (ps ++ (p ∷ []), update s p (record (s p) { is_open = true }))

  -- `~EventProducer()`
  unfoldable pub close_all : List ℕ → Store E → Store E
  close_all [] s = s
  close_all (p ∷ ps) s = close_all ps (update s p (close (s p)))
