-- ===== src/Events/Wait.antt =====
-- The blocking `pop` and the pops with a time-out of `EventQueue`
-- (core/inc/sc-api/core/util/event_queue.h).
use sc_api.Common.{
  ℕ, arith, not, ◌||◌, ◌&&◌, ◌≡◌, refl, sym, ap, ◌∙◌, List, [], ◌∷◌, ◌++◌, append_assoc, Bool, true,
  false, Option, none, some, if◌then◌else◌, Bool-cases, inl, inr, ◌⊎◌,
}
use sc_api.Events.{
  EventQueue, Step, notified, closed, taken, run_steps, run_step, ready, wait, wait_from, woken_by,
  is_empty, take_open, front, try_pop_for, try_pop_until, Popped, waiting, returned, undefined,
  answer, after_wait, pop,
}
use sc_api.Events.Queue.{still_open, run_steps-is_open, run_steps-sleeps}

module _ {E : Type 0} where
  abbrev pub all_steps : List (List (Step E)) → List (Step E)
  all_steps [] = []
  all_steps (g ∷ gs) = g ++ all_steps gs

  run_steps-append :
      (ss ts : List (Step E)) (q : EventQueue E)
      → run_steps (ss ++ ts) q ≡ run_steps ts (run_steps ss q)
  unfolding run_steps
  run_steps-append [] ts q = refl
  run_steps-append (s ∷ ss) ts q = run_steps-append ss ts (run_step s q)

  -- How a wait ends: with the mutex, at a state that the others left, or at the end of its time.
  data Waited (groups : List (List (Step E))) (q : EventQueue E) (res : Bool × EventQueue E)
      : Type 0 where
    woken :
        (ss rest : List (Step E))
        → all_steps groups ≡ ss ++ rest
        → res ≡ (true, run_steps ss q)
        → ready (run_steps ss q) ≡ true
        → Waited groups q res
    out_of_time :
        res ≡ (false, run_steps (all_steps groups) q)
        → ready (run_steps (all_steps groups) q) ≡ false
        → Waited groups q res

  Waited-cons :
      (g : List (Step E)) (gs : List (List (Step E))) (q : EventQueue E)
      {res res' : Bool × EventQueue E}
      → res' ≡ res
      → Waited gs (run_steps g q) res
      → Waited (g ∷ gs) q res'
  Waited-cons g gs q e (woken ss rest s f r) =
      woken (g ++ ss) rest (ap (λ l. g ++ l) s ∙ sym (append_assoc g ss rest))
        (e ∙ f ∙ ap (λ p. (true, p)) (sym (run_steps-append g ss q)))
        (rw (run_steps-append g ss q) r)
  Waited-cons g gs q e (out_of_time f r) =
      out_of_time (e ∙ f ∙ ap (λ p. (false, p)) (sym (run_steps-append g (all_steps gs) q)))
        (rw (run_steps-append g (all_steps gs) q) r)

  wait-here :
      (expires : Bool) (g : List (Step E)) (gs : List (List (Step E))) (q : EventQueue E)
      → ready q ≡ true
      → wait_from expires true (g ∷ gs) q ≡ (true, q)
  unfolding wait_from
  wait-here expires g gs q e = rw (e, wait_from) refl

  wait-later :
      (expires awake : Bool) (g : List (Step E)) (gs : List (List (Step E))) (q : EventQueue E)
      → ready q ≡ false
      → wait_from expires awake (g ∷ gs) q
        ≡ wait_from expires (woken_by q (run_steps g q)) gs (run_steps g q)
  unfolding wait_from
  wait-later expires true g gs q e = rw (e, wait_from) refl
  wait-later expires false g gs q e = refl

  -- A waiter that sleeps has nothing to do.
  Sleeps : Bool → EventQueue E → Type 0
  Sleeps awake q = awake ≡ false → ready q ≡ false

  group-Sleeps :
      (es : List E) (o : Bool) (n : ℕ) (g : List (Step E))
      → ready (record { queue = es; is_open = o; wakeups = n }) ≡ false
      → Sleeps
          (woken_by
            (record { queue = es; is_open = o; wakeups = n })
            (run_steps g (record { queue = es; is_open = o; wakeups = n })))
          (run_steps g (record { queue = es; is_open = o; wakeups = n }))
  unfolding Sleeps
  group-Sleeps [] true n g e a =
      let same : (run_steps g (record { queue = []; is_open = true; wakeups = n })).wakeups ≡ n =
        ground arith in
      ap ready (run_steps-sleeps n g same)
  group-Sleeps [] false n g e a = absurd (cc)
  group-Sleeps (x ∷ es) o n g e a = absurd (cc)

  wait_from-Waited :
      (expires awake : Bool) (groups : List (List (Step E))) (q : EventQueue E)
      → Sleeps awake q
      → Waited groups q (wait_from expires awake groups q)
  unfolding wait_from run_steps Sleeps
  wait_from-Waited expires true [] q s = elim (Bool-cases (ready q)) [
    | inl e ↦ woken [] [] refl (rw e refl) e
    | inr e ↦ out_of_time (rw e refl) e
  ]
  wait_from-Waited expires false [] q s =
      out_of_time (ap (λ b. (expires && b, q)) (s refl) ∙ ap (λ b. (b, q)) (ground arith)) (s refl)
  wait_from-Waited expires true (g ∷ gs) q s = elim (Bool-cases (ready q)) [
    | inl e ↦ woken [] (all_steps (g ∷ gs)) refl (wait-here expires g gs q e) e
    | inr e ↦ Waited-cons g gs q (wait-later expires true g gs q e) (
        wait_from-Waited expires (woken_by q (run_steps g q)) gs (run_steps g q)
          (group-Sleeps q.queue q.is_open q.wakeups g e))
  ]
  wait_from-Waited expires false (g ∷ gs) q s =
      Waited-cons g gs q (wait-later expires false g gs q (s refl)) (
        wait_from-Waited expires (woken_by q (run_steps g q)) gs (run_steps g q)
          (group-Sleeps q.queue q.is_open q.wakeups g (s refl)))

  wait-Waited :
      (expires : Bool) (groups : List (List (Step E))) (q : EventQueue E)
      → Waited groups q (wait expires groups q)
  unfolding Sleeps
  wait-Waited expires groups q = wait_from-Waited expires true groups q (λ e. absurd (cc))

  -- The end of the time changes nothing, since a waiter that was not notified has nothing to do.
  wait_from-expires :
      (awake : Bool) (groups : List (List (Step E))) (q : EventQueue E)
      → Sleeps awake q
      → wait_from true awake groups q ≡ wait_from false awake groups q
  unfolding wait_from Sleeps
  wait_from-expires true [] q s = refl
  wait_from-expires false [] q s = ap (λ b. (b, q)) (s refl)
  wait_from-expires true (g ∷ gs) q s = elim (Bool-cases (ready q)) [
    | inl e ↦ wait-here true g gs q e ∙ sym (wait-here false g gs q e)
    | inr e ↦
        wait-later true true g gs q e
        ∙ wait_from-expires (woken_by q (run_steps g q)) gs (run_steps g q)
            (group-Sleeps q.queue q.is_open q.wakeups g e)
        ∙ sym (wait-later false true g gs q e)
  ]
  wait_from-expires false (g ∷ gs) q s =
      wait-later true false g gs q (s refl)
      ∙ wait_from-expires (woken_by q (run_steps g q)) gs (run_steps g q)
          (group-Sleeps q.queue q.is_open q.wakeups g (s refl))
      ∙ sym (wait-later false false g gs q (s refl))

  wait-expires :
      (groups : List (List (Step E))) (q : EventQueue E) → wait true groups q ≡ wait false groups q
  unfolding Sleeps
  wait-expires groups q = wait_from-expires true groups q (λ e. absurd (cc))

  -- What `pop` does. From a queue with events it returns the first at once, though it be closed.
  -- From an empty one it returns the first event of the queue as the others left it, while it is
  -- open; nothing, once it is closed; or it waits on, while it is open and empty.
  pub data Answered (groups : List (List (Step E))) (q : EventQueue E) (res : Popped E)
      : Type 0 where
    at_once :
        (e : E) (es : List E)
        → q.queue ≡ e ∷ es
        → res ≡ returned (some e) (record q { queue = es })
        → Answered groups q res
    got :
        (ss rest : List (Step E)) (e : E) (q' : EventQueue E)
        → q.queue ≡ []
        → all_steps groups ≡ ss ++ rest
        → run_steps ss q ≡ record q' { queue = e ∷ q'.queue }
        → q'.is_open ≡ true
        → res ≡ returned (some e) q'
        → Answered groups q res
    shut :
        (ss rest : List (Step E))
        → q.queue ≡ []
        → all_steps groups ≡ ss ++ rest
        → (run_steps ss q).is_open ≡ false
        → res ≡ returned none (run_steps ss q)
        → Answered groups q res
    blocks :
        q.queue ≡ []
        → (run_steps (all_steps groups) q).queue ≡ []
        → (run_steps (all_steps groups) q).is_open ≡ true
        → res ≡ waiting (run_steps (all_steps groups) q)
        → Answered groups q res

  pop-waits :
      (groups : List (List (Step E))) (q q' : EventQueue E)
      → is_empty q.queue ≡ true
      → wait false groups q ≡ (false, q')
      → pop groups q ≡ waiting q'
  unfolding pop
  pop-waits groups q q' e f = rw e (ap after_wait f)

  pop-wakes :
      (groups : List (List (Step E))) (q q' : EventQueue E)
      → is_empty q.queue ≡ true
      → wait false groups q ≡ (true, q')
      → pop groups q ≡ answer (take_open q')
  unfolding pop
  pop-wakes groups q q' e f = rw e (ap after_wait f)

  pop-at_once :
      (groups : List (List (Step E))) (e : E) (es : List E) (o : Bool) (n : ℕ)
      → pop groups (record { queue = e ∷ es; is_open = o; wakeups = n })
        ≡ returned (some e) (record { queue = es; is_open = o; wakeups = n })
  unfolding pop
  pop-at_once groups e es o n = refl

  idle :
      (es : List E) (o : Bool) (n : ℕ)
      → ready (record { queue = es; is_open = o; wakeups = n }) ≡ false
      → (es ≡ []) × (o ≡ true)
  idle [] true n h = (refl, refl)
  idle [] false n h = absurd (cc)
  idle (e ∷ es) o n h = absurd (cc)

  woken-Answered :
      (groups : List (List (Step E))) (q : EventQueue E) (ss rest : List (Step E)) (es : List E)
      (o : Bool) (n : ℕ) (res : Popped E)
      → q.queue ≡ []
      → all_steps groups ≡ ss ++ rest
      → run_steps ss q ≡ record { queue = es; is_open = o; wakeups = n }
      → ready (record { queue = es; is_open = o; wakeups = n }) ≡ true
      → res ≡ answer (take_open (record { queue = es; is_open = o; wakeups = n }))
      → Answered groups q res
  woken-Answered groups q ss rest es false n res h s e r f =
      shut ss rest h s (ap (λ p. p.is_open) e) (f ∙ ap (returned none) (sym e))
  woken-Answered groups q ss rest [] true n res h s e r f = absurd (cc)
  woken-Answered groups q ss rest (x ∷ es) true n res h s e r f =
      got ss rest x (record { queue = es; is_open = true; wakeups = n }) h s e refl f

  list_cases : (l : List E) → (l ≡ []) ⊎ ((e : E) × (es : List E) × (l ≡ e ∷ es))
  list_cases [] = inl refl
  list_cases (e ∷ es) = inr (e, es, refl)

  -- `pop` does one of these, whatever the other threads do before it has the mutex again: it returns
  -- the first event at once, though the queue be closed; or finds the queue empty and later returns
  -- the first event of the open queue, nothing from a closed one, or waits on at an open and empty
  -- one. Its behaviour is never undefined, and no notification is missed.
  pub pop-Answered :
      (groups : List (List (Step E))) (q : EventQueue E) → Answered groups q (pop groups q)
  unfolding run_steps
  pop-Answered groups q = elim (list_cases q.queue) [
    | inr (e, es, f) ↦ at_once e es f (
        ap (λ l. pop groups (record { queue = l; is_open = q.is_open; wakeups = q.wakeups })) f
        ∙ pop-at_once groups e es q.is_open q.wakeups)
    | inl f ↦ elim (wait-Waited false groups q) [
      | out_of_time w r ↦
          let (a, b) =
            idle (run_steps (all_steps groups) q).queue (run_steps (all_steps groups) q).is_open
              (run_steps (all_steps groups) q).wakeups r in
          blocks f a b (pop-waits groups q _ (rw f refl) w)
      | woken ss rest s w r ↦
          woken-Answered groups q ss rest (run_steps ss q).queue (run_steps ss q).is_open
            (run_steps ss q).wakeups _ f s refl r (pop-wakes groups q _ (rw f refl) w)
    ]
  ]

  -- The steps close the queue.
  abbrev pub Closes : List (Step E) → Type 0
  Closes [] = ⊥
  Closes (notified e ∷ ss) = Closes ss
  Closes (closed ∷ ss) = Unit
  Closes (taken ∷ ss) = Closes ss

  still_open-closed : (ss : List (Step E)) → still_open false ss ≡ false
  unfolding still_open
  still_open-closed [] = refl
  still_open-closed (notified e ∷ ss) = still_open-closed ss
  still_open-closed (closed ∷ ss) = still_open-closed ss
  still_open-closed (taken ∷ ss) = still_open-closed ss

  still_open-Closes : (o : Bool) (ss : List (Step E)) → Closes ss → still_open o ss ≡ false
  unfolding still_open
  still_open-Closes o [] h = absurd h
  still_open-Closes o (notified e ∷ ss) h = still_open-Closes o ss h
  still_open-Closes o (closed ∷ ss) h = still_open-closed ss
  still_open-Closes o (taken ∷ ss) h = still_open-Closes o ss h

  -- A `pop` during which the queue is closed returns: no thread that waits in it waits for ever.
  pub pop-Closes :
      (groups : List (List (Step E))) (q : EventQueue E)
      → Closes (all_steps groups)
      → (r : Option E) × (q' : EventQueue E) × (pop groups q ≡ returned r q')
  pop-Closes groups q h = elim (pop-Answered groups q) [
    | at_once e es f g ↦ (some e, record q { queue = es }, g)
    | got ss rest e q' z s f o g ↦ (some e, q', g)
    | shut ss rest z s f g ↦ (none, run_steps ss q, g)
    | blocks z e o g ↦
        let c : still_open q.is_open (all_steps groups) ≡ true =
          sym (run_steps-is_open q.queue q.is_open q.wakeups (all_steps groups)) ∙ o in
        let d : still_open q.is_open (all_steps groups) ≡ false =
          still_open-Closes q.is_open (all_steps groups) h in
        absurd (cc)
  ]

  -- The answer of a pop with a time-out.
  abbrev pub timed : Popped E → Option (Option E × EventQueue E)
  timed (waiting q) = some (none, q)
  timed (returned e q) = some (e, q)
  timed undefined = none

  timed-answer : (r : Option (Option E × EventQueue E)) → timed (answer r) ≡ r
  timed-answer none = refl
  timed-answer (some (e, q)) = refl

  abbrev for_after : Bool × EventQueue E → Option (Option E × EventQueue E)
  for_after r = if not r.0 then some (none, r.1) else take_open r.1

  abbrev until_after : Bool × EventQueue E → Option (Option E × EventQueue E)
  until_after r =
      if not r.0 || not (r.1.is_open)
      then some (none, r.1)
      else elim (front r.1) [ none ↦ none | some (e, q) ↦ some (some e, q) ]

  timed-after_wait : (r : Bool × EventQueue E) → timed (after_wait r) ≡ for_after r
  timed-after_wait (true, q) = timed-answer (take_open q)
  timed-after_wait (false, q) = refl

  until-after_wait : (r : Bool × EventQueue E) → timed (after_wait r) ≡ until_after r
  until-after_wait (true, q) =
      timed-answer (take_open q)
      ∙ elim (Bool-cases q.is_open) [ inl e ↦ rw e refl | inr e ↦ rw e refl ]
  until-after_wait (false, q) = refl

  -- The pops with a time-out do what `pop` does, and give nothing where `pop` would wait on.
  pub try_pop_for-pop :
      (groups : List (List (Step E))) (q : EventQueue E)
      → (try_pop_for groups q ≡ timed (pop groups q))
        × (try_pop_until groups q ≡ timed (pop groups q))
  unfolding try_pop_for try_pop_until pop
  try_pop_for-pop groups q = elim (Bool-cases (is_empty q.queue)) [
    | inl e ↦ (
      rw e (ap for_after (wait-expires groups q) ∙ sym (timed-after_wait (wait false groups q))),
      rw e (ap until_after (wait-expires groups q) ∙ sym (until-after_wait (wait false groups q))),
    )
    | inr e ↦ (rw e (sym (timed-answer _)), rw e (sym (timed-answer _)))
  ]
