-- ===== src/Events/Producer.antt =====
-- What a notification reaches: `EventProducer` of core/inc/sc-api/core/util/event_queue.h.
use sc_api.Common.{
  ℕ, ◌+◌, ◌&&◌, ◌≡◌, refl, ap, ◌∙◌, List, [], ◌∷◌, ◌++◌, Bool, true, false, ◌||◌, ◌==◌, ==_iff,
  if◌then◌else◌, arith, Bool-cases, inl, inr,
}
use sc_api.Events.{EventQueue, Store, update, push, close, notify_event, close_all}

-- The pointer is one of the producer's.
abbrev pub registered : ℕ → List ℕ → Bool
registered p [] = false
registered p (r ∷ ps) = r == p || registered p ps

-- No queue is registered twice.
abbrev pub IsDistinct : List ℕ → Type 0
IsDistinct [] = Unit
IsDistinct (p ∷ ps) = (registered p ps ≡ false) × IsDistinct ps

module _ {E : Type 0} where
  abbrev queue_of : List E → Bool → ℕ → EventQueue E
  queue_of es o n = record { queue = es; is_open = o; wakeups = n }

  -- An operation on each of the queues.
  abbrev on_each : (EventQueue E → EventQueue E) → List ℕ → Store E → Store E
  on_each f [] s = s
  on_each f (p ∷ ps) s = on_each f ps (update s p (f (s p)))

  on_each_lem :
      (f : EventQueue E → EventQueue E) (ps : List ℕ) (s : Store E) (p : ℕ)
      → IsDistinct ps
      → on_each f ps s p ≡ (if registered p ps then f (s p) else s p)
  on_each_lem f [] s p d = refl
  on_each_lem f (r ∷ ps) s p d = elim (Bool-cases (r == p)) [
    | inl e ↦
        let same : r ≡ p = (==_iff r p).0 e in
        let once : registered p ps ≡ false = rw (← same) d.0 in
        on_each_lem f ps (update s r (f (s r))) p d.1 ∙ rw (once, e) (ap (λ q. f (s q)) same)
    | inr e ↦ on_each_lem f ps (update s r (f (s r))) p d.1 ∙ rw e refl
  ]

  notify-each : (e : E) (ps : List ℕ) (s : Store E) → notify_event e ps s ≡ on_each (push e) ps s
  unfolding notify_event
  notify-each e [] s = refl
  notify-each e (p ∷ ps) s = notify-each e ps (update s p (push e (s p)))

  close-each : (ps : List ℕ) (s : Store E) → close_all ps s ≡ on_each close ps s
  unfolding close_all
  close-each [] s = refl
  close-each (p ∷ ps) s = close-each ps (update s p (close (s p)))

  pushed :
      (b : Bool) (e : E) (es : List E) (o : Bool) (n : ℕ)
      → (if b then push e (queue_of es o n) else queue_of es o n)
        ≡ (if b && o then queue_of (es ++ e ∷ []) true (n + 1) else queue_of es o n)
  unfolding push
  pushed true e es true n = ap (queue_of (es ++ e ∷ []) true) (omega arith)
  pushed true e es false n = refl
  pushed false e es o n = refl

  shut :
      (b : Bool) (es : List E) (o : Bool) (n : ℕ)
      → (if b then close (queue_of es o n) else queue_of es o n)
        ≡ (if b && o then queue_of es false (n + 1) else queue_of es o n)
  unfolding close
  shut true es true n = ap (queue_of es false) (omega arith)
  shut true es false n = refl
  shut false es o n = refl

  -- A notification goes to the end of each registered queue that is open and wakes who waits there,
  -- and changes no other queue, if none is registered twice; the end of the producer closes each
  -- registered queue that is open, with all its events, wakes who waits there, and changes no other.
  pub notify_event-registered :
      (e : E) (ps : List ℕ) (s : Store E) (p : ℕ)
      → IsDistinct ps
      → (notify_event e ps s p ≡ (
          if registered p ps && (s p).is_open
          then record { queue = (s p).queue ++ e ∷ []; is_open = true; wakeups = (s p).wakeups + 1 }
          else s p))
        × (close_all ps s p ≡ (
            if registered p ps && (s p).is_open
            then record { queue = (s p).queue; is_open = false; wakeups = (s p).wakeups + 1 }
            else s p))
  notify_event-registered e ps s p d = (
    ap (λ t. t p) (notify-each e ps s)
        ∙ on_each_lem (push e) ps s p d
        ∙ pushed (registered p ps) e (s p).queue (s p).is_open (s p).wakeups,
    ap (λ t. t p) (close-each ps s)
        ∙ on_each_lem close ps s p d
        ∙ shut (registered p ps) (s p).queue (s p).is_open (s p).wakeups,
  )
