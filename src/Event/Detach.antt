-- ===== src/Event/Detach.antt =====
-- `detachEventListener` after `attachEventListenerWithPriority`.
use kalisko.Base.Pointers.{get_subject, get_subject-drop_subject, get_subject-put_subject}
use kalisko.Base.{
  ◌≡◌, ap, ℕ, ◌==◌, ==_iff, Bytes, bytes_eq, false, ◌&&◌, none, some, List, [], ◌∷◌, ◌++◌, arith,
  if◌then◌else◌, All, ==-refl, bytes_eq_refl, codes, ◌∙◌, bytes_eq_iff, refl,
}
use kalisko.Base.Table.{put, get-put, drop, get-drop, get}
use kalisko.Event.{
  EventListenerEntry, Events, Subjects, enqueue, events_in, queue_of, insert_sorted, dequeue,
  put_back, matches, attach_event_listener_with_priority, notify, detach_event_listener,
  trigger_event,
}
use kalisko.Event.Attach.{attach_enqueued}

-- No entry of the queue has this listener with this custom data.
abbrev pub Unattached : ℕ → ℕ → List EventListenerEntry → Type 0
Unattached custom listener queue = All (λ e. matches e custom listener ≡ false) queue

dequeue-insert_sorted :
    (entry : EventListenerEntry) (queue : List EventListenerEntry)
    → Unattached entry.custom entry.listener queue
    → dequeue entry.custom entry.listener (insert_sorted entry queue) ≡ some queue
unfolding dequeue insert_sorted
dequeue-insert_sorted entry [] u = ground (arith, ==-refl entry.custom, ==-refl entry.listener)
dequeue-insert_sorted entry (e ∷ es) u =
    ground (arith, ==-refl entry.custom, ==-refl entry.listener, dequeue-insert_sorted entry es u.1)

dequeue-append :
    (entry : EventListenerEntry) (queue : List EventListenerEntry)
    → Unattached entry.custom entry.listener queue
    → dequeue entry.custom entry.listener (queue ++ entry ∷ []) ≡ some queue
unfolding dequeue
dequeue-append entry [] u = ground (arith, ==-refl entry.custom, ==-refl entry.listener)
dequeue-append entry (e ∷ es) u = ground (arith, dequeue-append entry es u.1)

pub dequeue-enqueue :
    (entry : EventListenerEntry) (queue : List EventListenerEntry)
    → Unattached entry.custom entry.listener queue
    → dequeue entry.custom entry.listener (enqueue entry queue) ≡ some queue
unfolding dequeue enqueue
dequeue-enqueue entry queue u = ground (
  arith,
  ==-refl entry.custom,
  ==-refl entry.listener,
  dequeue-append entry queue u,
  dequeue-insert_sorted entry queue u,
)

-- What the queues are after an entry is removed.
queue_of-put_back :
    (s t : ℕ) (event other : Bytes) (queue : List EventListenerEntry) (subjects : Subjects)
    → queue_of t other (put_back s event queue (events_in (get_subject s subjects)) subjects)
      ≡ (if s == t && bytes_eq event other then queue else queue_of t other subjects)
unfolding put_back
queue_of-put_back s t event other (e ∷ es) subjects =
    let old : Events = events_in (get_subject s subjects) in
    ground (
      arith,
      get_subject-put_subject s t (put event (e ∷ es) old) subjects,
      get-put event other (e ∷ es) old,
      ==_iff s t,
      ap (λ x. get_subject x subjects),
    )
queue_of-put_back s t event other [] subjects =
    let old : Events = events_in (get_subject s subjects) in
    ground (
      arith,
      get_subject-put_subject s t (drop event old) subjects,
      get_subject-drop_subject s t subjects,
      get-drop event other old,
      ==_iff s t,
      ap (λ x. get_subject x subjects),
    )

trigger_empty :
    {A W : Type 0} (call : EventListenerEntry → ℕ → Bytes → A → Subjects × W → Subjects × W)
    (named : Bytes → A) (s : ℕ) (event : Bytes) (args : A) (subjects : Subjects) (w : W)
    → queue_of s event subjects ≡ []
    → (trigger_event call named s event args (subjects, w)).0 ≡ (subjects, w)
unfolding trigger_event notify
trigger_empty call named s event args subjects w h = ground arith

detach_quiet :
    {A W : Type 0} (call : EventListenerEntry → ℕ → Bytes → A → Subjects × W → Subjects × W)
    (named : Bytes → A) (s : ℕ) (event : Bytes) (custom listener : ℕ) (subjects : Subjects) (w : W)
    (queue : List EventListenerEntry)
    → dequeue custom listener (queue_of s event subjects) ≡ some queue
    → queue_of s
        (codes "listener_detached")
        (put_back s event queue (events_in (get_subject s subjects)) subjects)
      ≡ []
    → detach_event_listener call named s event custom listener (subjects, w)
      ≡ (put_back s event queue (events_in (get_subject s subjects)) subjects, w)
unfolding detach_event_listener
detach_quiet call named s event custom listener subjects w queue q h =
    let unheard =
      trigger_empty call named s (codes "listener_detached") (named event)
        (put_back s event queue (events_in (get_subject s subjects)) subjects) w h in
    ground arith

-- Detaching a listener after attaching it leaves the queues of all events and the rest of the
-- program as they were, for an event other than listener_attached and listener_detached, on a
-- subject with no listener for these two, where the same listener with the same custom data was
-- not in the queue of the event before.
pub detach_event_listener-attach_event_listener :
    {A W : Type 0} (call : EventListenerEntry → ℕ → Bytes → A → Subjects × W → Subjects × W)
    (named : Bytes → A) (s : ℕ) (event : Bytes) (entry : EventListenerEntry) (subjects : Subjects)
    (w : W)
    → get (codes "listener_attached") (events_in (get_subject s subjects)) ≡ none
    → queue_of s (codes "listener_detached") subjects ≡ []
    → bytes_eq event (codes "listener_attached") ≡ false
    → bytes_eq event (codes "listener_detached") ≡ false
    → Unattached entry.custom entry.listener (queue_of s event subjects)
    → (after : Subjects) × (detach_event_listener call named s event entry.custom entry.listener (
          attach_event_listener_with_priority call named s event entry.priority entry.custom
            entry.listener
            (subjects, w))
        ≡ (after, w))
      × ((t : ℕ) (other : Bytes) → queue_of t other after ≡ queue_of t other subjects)
detach_event_listener-attach_event_listener call named s event entry subjects w n m d f u =
    let (mid, p, q) = attach_enqueued call named s event entry subjects w n d in
    let queue = queue_of s event subjects in
    let here : queue_of s event mid ≡ enqueue entry queue =
      q s event ∙ rw (==-refl s, bytes_eq_refl event) refl in
    let found : dequeue entry.custom entry.listener (queue_of s event mid) ≡ some queue =
      rw here (dequeue-enqueue entry queue u) in
    let after : Subjects = put_back s event queue (events_in (get_subject s mid)) mid in
    let back : (t : ℕ) (other : Bytes) → queue_of t other after ≡ queue_of t other subjects =
      λ t other.
        queue_of-put_back s t event other queue mid
        ∙ ground (
          arith,
          q t other,
          ==_iff s t,
          bytes_eq_iff event other,
          ap (λ x. queue_of x other subjects),
          ap (λ x. queue_of s x subjects),
        ) in
    (
      after,
      ap (detach_event_listener call named s event entry.custom entry.listener) p
          ∙ detach_quiet call named s event entry.custom entry.listener mid w queue found
              (back s (codes "listener_detached") ∙ m),
      back,
    )
