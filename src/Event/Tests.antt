-- ===== src/Event/Tests.antt =====
-- Runs of the events.
use kalisko.Base.Pointers.{get_subject}
use kalisko.Event.Detach.{detach_event_listener-attach_event_listener}
use kalisko.Base.{
  ◌≡◌, refl, ℕ, ◌==◌, Bytes, bytes_eq, ◌&&◌, List, [], ◌∷◌, arith, if◌then◌else◌, inr, ◌+◌, ◌++◌,
}
use kalisko.Base.Table.{get}
use kalisko.Event.{
  EventListenerEntry, Subjects, lowest, normal, highest, comes_before, enqueue, insert_sorted,
  attach_event_listener_with_priority, queue_of, detach_event_listener,
}
use kalisko.Event.Order.{IsOrdered, enqueue-IsOrdered}
use kalisko.Event.Attach.{attach_event_listener_with_priority_lem}

abbrev an_entry : ℕ → ℕ → EventListenerEntry
an_entry listener priority = record { listener = listener; priority = priority; custom = 0 }

abbrev a_queue : List EventListenerEntry
a_queue = an_entry 1 lowest ∷ an_entry 2 highest ∷ []

enqueue-IsOrdered_example : IsOrdered (enqueue (an_entry 3 normal) a_queue)
enqueue-IsOrdered_example =
    enqueue-IsOrdered (an_entry 3 normal) a_queue (omega arith) (omega arith, (omega arith, tt))
      (inr (inr ((omega arith, omega arith), ((omega arith, omega arith), tt))))
      ((omega arith, tt), (tt, tt))

-- A listener of priority 1 is called before one of the lowest priority.
wrong_order :
    enqueue (an_entry 3 (normal + 1)) (an_entry 1 lowest ∷ [])
    ≡ an_entry 3 (normal + 1) ∷ an_entry 1 lowest ∷ []
unfolding enqueue insert_sorted comes_before
wrong_order = refl

abbrev ignored : EventListenerEntry → ℕ → Bytes → Bytes → Subjects × ℕ → Subjects × ℕ
ignored e s event args state = state

abbrev same : Bytes → Bytes
same event = event

abbrev some_subjects : Subjects
some_subjects = (7, (97 ∷ [], a_queue) ∷ []) ∷ []

attach_event_listener_with_priority_lem_example :
    (after : Subjects) × (before : List EventListenerEntry) × (rest : List EventListenerEntry)
    × (attach_event_listener_with_priority ignored same 7 (97 ∷ []) normal 0 3 (some_subjects, 0)
        ≡ (after, 0))
    × (queue_of 7 (97 ∷ []) some_subjects ≡ before ++ rest)
    × ((t : ℕ) (other : Bytes)
        → queue_of t other after ≡ (
            if 7 == t && bytes_eq (97 ∷ []) other
            then before ++ an_entry 3 normal ∷ rest
            else queue_of t other some_subjects))
unfolding get get_subject bytes_eq
attach_event_listener_with_priority_lem_example =
    attach_event_listener_with_priority_lem ignored same 7 (97 ∷ []) (an_entry 3 normal)
      some_subjects 0 refl refl

detach_event_listener-attach_event_listener_example :
    (after : Subjects) × (detach_event_listener ignored same 7
        (97 ∷ [])
        0
        3
        (attach_event_listener_with_priority ignored same 7 (97 ∷ []) normal 0 3 (some_subjects, 0))
      ≡ (after, 0))
    × ((t : ℕ) (other : Bytes) → queue_of t other after ≡ queue_of t other some_subjects)
unfolding get get_subject bytes_eq
detach_event_listener-attach_event_listener_example =
    detach_event_listener-attach_event_listener ignored same 7 (97 ∷ []) (an_entry 3 normal)
      some_subjects 0 refl refl refl refl (refl, (refl, tt))
