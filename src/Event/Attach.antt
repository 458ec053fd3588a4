-- ===== src/Event/Attach.antt =====
-- `attachEventListenerWithPriority` and the queues of all events.
use mathlib.Core.List.{append-nil}
use kalisko.Base.Pointers.{get_subject, get_subject-put_subject}
use kalisko.Base.Int.{negsuc}
use kalisko.Base.{
  ◌≡◌, refl, ◌∙◌, ap, ℕ, ◌==◌, ==_iff, Bytes, bytes_eq, codes, false, ◌&&◌, none, some, arith,
  if◌then◌else◌, ==-refl, Bool-cases, inl, inr, List, [], ◌∷◌, ◌++◌, sym,
}
use kalisko.Base.Table.{get, put, get-put}
use kalisko.Event.{
  EventListenerEntry, Events, Subjects, enqueue, events_in, queue_of, attached,
  attach_event_listener_with_priority, trigger_event, insert_sorted, comes_before, lowest, highest,
}

queue_of-attached :
    (s t : ℕ) (event other : Bytes) (entry : EventListenerEntry) (subjects : Subjects)
    → queue_of t other (attached s event entry subjects) ≡ (
        if s == t && bytes_eq event other
        then enqueue entry (queue_of s event subjects)
        else queue_of t other subjects)
queue_of-attached s t event other entry subjects =
    let old : Events = events_in (get_subject s subjects) in
    let queue = enqueue entry (queue_of s event subjects) in
    ground (
      arith,
      get_subject-put_subject s t (put event queue old) subjects,
      get-put event other queue old,
      ==_iff s t,
      ap (λ x. get_subject x subjects),
    )

pub trigger_unheard :
    {A W : Type 0} (call : EventListenerEntry → ℕ → Bytes → A → Subjects × W → Subjects × W)
    (named : Bytes → A) (s : ℕ) (event : Bytes) (args : A) (subjects : Subjects) (w : W)
    (events : Events)
    → get_subject s subjects ≡ some events
    → get event events ≡ none
    → trigger_event call named s event args (subjects, w) ≡ ((subjects, w), negsuc 0)
unfolding trigger_event
trigger_unheard call named s event args subjects w events g h = ground arith

-- Nobody listens to `listener_attached`.
attach_quiet :
    {A W : Type 0} (call : EventListenerEntry → ℕ → Bytes → A → Subjects × W → Subjects × W)
    (named : Bytes → A) (s : ℕ) (event : Bytes) (entry : EventListenerEntry) (subjects : Subjects)
    (w : W)
    → get (codes "listener_attached") (events_in (get_subject s subjects)) ≡ none
    → bytes_eq event (codes "listener_attached") ≡ false
    → attach_event_listener_with_priority call named s event entry.priority entry.custom
        entry.listener
        (subjects, w)
      ≡ (attached s event entry subjects, w)
unfolding attach_event_listener_with_priority
attach_quiet call named s event entry subjects w n d =
    let old : Events = events_in (get_subject s subjects) in
    let queue = enqueue entry (queue_of s event subjects) in
    let known : get_subject s (attached s event entry subjects) ≡ some (put event queue old) =
      get_subject-put_subject s s (put event queue old) subjects ∙ rw (==-refl s) refl in
    let unheard : get (codes "listener_attached") (put event queue old) ≡ none =
      get-put event (codes "listener_attached") queue old ∙ rw d n in
    ap (λ x. x.0)
      (trigger_unheard call named s (codes "listener_attached") (named event)
        (attached s event entry subjects) w (put event queue old) known unheard)

-- The queues after attaching, by the operation on the queue.
pub attach_enqueued :
    {A W : Type 0} (call : EventListenerEntry → ℕ → Bytes → A → Subjects × W → Subjects × W)
    (named : Bytes → A) (s : ℕ) (event : Bytes) (entry : EventListenerEntry) (subjects : Subjects)
    (w : W)
    → get (codes "listener_attached") (events_in (get_subject s subjects)) ≡ none
    → bytes_eq event (codes "listener_attached") ≡ false
    → (after : Subjects) × (attach_event_listener_with_priority call named s event entry.priority
          entry.custom entry.listener
          (subjects, w)
        ≡ (after, w))
      × ((t : ℕ) (other : Bytes)
          → queue_of t other after ≡ (
              if s == t && bytes_eq event other
              then enqueue entry (queue_of s event subjects)
              else queue_of t other subjects))
attach_enqueued call named s event entry subjects w n d = (
  attached s event entry subjects,
  attach_quiet call named s event entry subjects w n d,
  λ t other. queue_of-attached s t event other entry subjects,
)

insert_sorted-inserts :
    (entry : EventListenerEntry) (queue : List EventListenerEntry)
    → (before : List EventListenerEntry) × (rest : List EventListenerEntry) × (queue
        ≡ before ++ rest)
      × (insert_sorted entry queue ≡ before ++ entry ∷ rest)
unfolding insert_sorted
insert_sorted-inserts entry [] = ([], [], refl, refl)
insert_sorted-inserts entry (e ∷ es) =
    let (before, rest, p, q) = insert_sorted-inserts entry es in
    elim (Bool-cases (comes_before e entry)) [
      | inl c ↦ (e ∷ before, rest, ap (◌∷◌ e) p, rw c (ap (◌∷◌ e) q))
      | inr c ↦ ([], e ∷ es, refl, rw c refl)
    ]

-- The new entry stands somewhere in the queue, and the others stay in their order.
enqueue-inserts :
    (entry : EventListenerEntry) (queue : List EventListenerEntry)
    → (before : List EventListenerEntry) × (rest : List EventListenerEntry) × (queue
        ≡ before ++ rest)
      × (enqueue entry queue ≡ before ++ entry ∷ rest)
unfolding enqueue
enqueue-inserts entry queue = elim (Bool-cases (entry.priority == lowest)) [
  | inl l ↦ ([], queue, refl, rw l refl)
  | inr l ↦ elim (Bool-cases (entry.priority == highest)) [
    | inl h ↦ (queue, [], sym (append-nil queue), rw l rw h refl)
    | inr h ↦
        let (before, rest, p, q) = insert_sorted-inserts entry queue in
        (before, rest, p, rw l rw h q)
  ]
]

-- For an event other than listener_attached, on a subject with no listener for listener_attached,
-- attachEventListenerWithPriority puts the listener at one place into the queue of the event,
-- with all those that were there before and behind it in their order, and leaves all other queues
-- and the rest of the program as they are.
pub attach_event_listener_with_priority_lem :
    {A W : Type 0} (call : EventListenerEntry → ℕ → Bytes → A → Subjects × W → Subjects × W)
    (named : Bytes → A) (s : ℕ) (event : Bytes) (entry : EventListenerEntry) (subjects : Subjects)
    (w : W)
    → get (codes "listener_attached") (events_in (get_subject s subjects)) ≡ none
    → bytes_eq event (codes "listener_attached") ≡ false
    → (after : Subjects) × (before : List EventListenerEntry) × (rest : List EventListenerEntry)
      × (attach_event_listener_with_priority call named s event entry.priority entry.custom
            entry.listener
            (subjects, w)
          ≡ (after, w))
      × (queue_of s event subjects ≡ before ++ rest)
      × ((t : ℕ) (other : Bytes)
          → queue_of t other after ≡ (
              if s == t && bytes_eq event other
              then before ++ entry ∷ rest
              else queue_of t other subjects))
attach_event_listener_with_priority_lem call named s event entry subjects w n d =
    let (before, rest, p, q) = enqueue-inserts entry (queue_of s event subjects) in
    (
      attached s event entry subjects,
      before,
      rest,
      attach_quiet call named s event entry subjects w n d,
      p,
      λ t other.
          queue_of-attached s t event other entry subjects
          ∙ ap (λ x. if s == t && bytes_eq event other then x else queue_of t other subjects) q,
    )
