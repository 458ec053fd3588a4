-- ===== src/Event.antt =====
-- src/modules/event/event.c. Listeners are a parameter: they may attach, detach and trigger. An entry
-- that is detached while its event is triggered stays readable here.
pub mod Order
pub mod Attach
pub mod Detach
mod Tests
use kalisko.Base.Pointers.{drop_subject, get_subject, put_subject}
use kalisko.Base.{
  ℕ, suc, ◌+◌, ◌-◌, ◌*◌, ◌%◌, ◌==◌, Bytes, bytes_eq, codes, ltb, Bool, true, false, ◌&&◌,
  if◌then◌else◌, Option, none, some, List, [], ◌∷◌, ◌++◌, length,
}
use kalisko.Base.Int.{ℤ, pos, negsuc}
use kalisko.Base.Table.{Table, get, put, drop}

-- `EventListenerEntry`. A priority is kept 2^31 above its value; pointers are numbers.
pub record EventListenerEntry : Type 0 where
  pub listener : ℕ
  pub priority : ℕ
  pub custom : ℕ

-- The events of a subject with their queues, and `subjects`.
abbrev pub Events : Type 0
Events = Table (List EventListenerEntry)

abbrev pub Subjects : Type 0
Subjects = List (ℕ × Events)

-- The priorities of `EventListenerPriority`.
abbrev pub lowest : ℕ
lowest = 0

abbrev pub normal : ℕ
normal = 2147483648

abbrev pub highest : ℕ
highest = 4294967295

-- Whether `compareEventListeners` is negative: the difference wraps around at 32 bits.
unfoldable pub comes_before : EventListenerEntry → EventListenerEntry → Bool
comes_before first second =
    ltb 2147483647 ((first.priority + (4294967296 - second.priority)) % 4294967296)

-- `g_queue_insert_sorted`, in front of the first entry that does not come before the new one
unfoldable pub insert_sorted :
    EventListenerEntry → List EventListenerEntry → List EventListenerEntry
insert_sorted entry [] = entry ∷ []
insert_sorted entry (e ∷ es) =
    if comes_before e entry then e ∷ insert_sorted entry es else entry ∷ e ∷ es

-- The `switch` of `attachEventListenerWithPriority`.
unfoldable pub enqueue : EventListenerEntry → List EventListenerEntry → List EventListenerEntry
unfolding insert_sorted
enqueue entry queue =
    if entry.priority == lowest
    then entry ∷ queue
    else if entry.priority == highest
    then queue ++ entry ∷ []
    else insert_sorted entry queue

abbrev pub events_in : Option Events → Events
events_in none = []
events_in (some events) = events

abbrev pub queue_in : Option (List EventListenerEntry) → List EventListenerEntry
queue_in none = []
queue_in (some queue) = queue

-- The queue of an event, which is empty where there is none.
abbrev pub queue_of : ℕ → Bytes → Subjects → List EventListenerEntry
queue_of s event subjects = queue_in (get event (events_in (get_subject s subjects)))

abbrev pub matches : EventListenerEntry → ℕ → ℕ → Bool
matches e custom listener = e.listener == listener && e.custom == custom

-- The queue without the first entry that matches, or `none` if none does.
unfoldable pub dequeue : ℕ → ℕ → List EventListenerEntry → Option (List EventListenerEntry)
dequeue custom listener [] = none
dequeue custom listener (e ∷ es) =
    let rest = dequeue custom listener es in
    if matches e custom listener then some es else elim rest [ none ↦ none | some q ↦ some (e ∷ q) ]

-- The tables after an entry is removed: empty queues and subjects are dropped.
unfoldable pub put_back : ℕ → Bytes → List EventListenerEntry → Events → Subjects → Subjects
put_back s event (e ∷ es) events subjects = put_subject s (put event (e ∷ es) events) subjects
put_back s event [] events subjects = elim (drop event events) [
  | [] ↦ drop_subject s subjects
  | kept ∷ more ↦ put_subject s (kept ∷ more) subjects
]

-- `getEventListenerCount`
unfoldable pub get_event_listener_count : ℕ → Bytes → Subjects → ℕ
get_event_listener_count s event subjects = elim (get_subject s subjects) [
  | none ↦ 0
  | some events ↦ elim (get event events) [ none ↦ 0 | some queue ↦ length queue ]
]

-- The subjects when `attachEventListenerWithPriority` triggers `listener_attached`.
abbrev pub attached : ℕ → Bytes → EventListenerEntry → Subjects → Subjects
attached s event entry subjects =
    put_subject s
      (put event (enqueue entry (queue_of s event subjects)) (events_in (get_subject s subjects)))
      subjects

-- `A` stands for the arguments that are passed on to the listeners, `W` for the rest of the program.
module _ {A W : Type 0} (call : EventListenerEntry → ℕ → Bytes → A → Subjects × W → Subjects × W)
    (named : Bytes → A) where
  -- The loop of `triggerEvent`.
  unfoldable pub notify :
      List EventListenerEntry → ℕ → Bytes → A → ℕ → Subjects × W → (Subjects × W) × ℤ
  notify [] s event args counter state = (state, pos counter)
  notify (e ∷ es) s event args counter state =
      notify es s event args (counter + 1) (call e s event args state)

  -- `triggerEvent`
  unfoldable pub trigger_event : ℕ → Bytes → A → Subjects × W → (Subjects × W) × ℤ
  unfolding notify
  trigger_event s event args (subjects, w) = elim (get_subject s subjects) [
    | none ↦ ((subjects, w), negsuc 0)
    | some events ↦ elim (get event events) [
      | none ↦ ((subjects, w), negsuc 0)
      | some queue ↦ notify queue s event args 0 (subjects, w)
    ]
  ]

  -- `attachEventListenerWithPriority`
  unfoldable pub attach_event_listener_with_priority :
      ℕ → Bytes → ℕ → ℕ → ℕ → Subjects × W → Subjects × W
  unfolding enqueue put_subject
  attach_event_listener_with_priority s event priority custom listener (subjects, w) =
      let entry : EventListenerEntry = record {
        listener = listener;
        priority = priority;
        custom = custom;
      } in
      (trigger_event s (codes "listener_attached") (named event)
        (attached s event entry subjects, w)).0

  -- `attachEventListener`
  unfoldable pub attach_event_listener : ℕ → Bytes → ℕ → ℕ → Subjects × W → Subjects × W
  attach_event_listener s event = attach_event_listener_with_priority s event normal

  -- `detachEventListener`
  unfoldable pub detach_event_listener : ℕ → Bytes → ℕ → ℕ → Subjects × W → Subjects × W
  unfolding dequeue put_back
  detach_event_listener s event custom listener (subjects, w) =
      elim (dequeue custom listener (queue_of s event subjects)) [
        | none ↦ (subjects, w)
        | some queue ↦
            (trigger_event s (codes "listener_detached") (named event)
              (put_back s event queue (events_in (get_subject s subjects)) subjects, w)).0
      ]
