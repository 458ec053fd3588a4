-- ===== src/Timer/Tests.antt =====
-- Runs of the timers.
use kalisko.Timer.Add.{IsFree, add_timer_lem}
use kalisko.Timer.Tree.{IsSorted}
use kalisko.Timer.Notify.{
  quietly, waiting, get_current_sleep_time_lem, run_due, notify_timer_callbacks_lem,
}
use kalisko.Timer.{
  null, compare_times, get_current_sleep_time, TimerEntry, notify_timer_callbacks, TimeVal,
  add_timer, microseconds, tree_lookup,
}
use kalisko.Base.{◌≡◌, refl, some, List, [], ◌∷◌, arith, ℕ, Bytes, ◌-◌}

abbrev at : ℕ → ℕ → TimeVal
at sec usec = record { tv_sec = sec; tv_usec = usec }

abbrev entry : ℕ → ℕ → ℕ → Bytes → TimerEntry ℕ
entry sec usec callback name = record {
  time = at sec usec;
  callback = callback;
  module_name = name;
}

abbrev two_entries : List (TimerEntry ℕ)
two_entries = entry 5 999999 1 (97 ∷ []) ∷ entry 6 0 2 (98 ∷ []) ∷ []

two_entries-IsSorted : IsSorted two_entries
unfolding compare_times
two_entries-IsSorted = ((refl, tt), (tt, tt))

add_timer_lem_example :
    (t : TimeVal) × (es' : List (TimerEntry ℕ)) × (add_timer
        (99 ∷ [])
        (at 5 999999)
        3
        (some two_entries)
      ≡ (some es', some t))
    × IsFree (at 5 999999) t two_entries
    × IsSorted es'
    × ((u : TimeVal)
        → tree_lookup u es' ≡ elim (compare_times u t) [
          | null ↦ some (record { time = t; callback = 3; module_name = 99 ∷ [] })
          | _ ↦ tree_lookup u two_entries
        ])
add_timer_lem_example = add_timer_lem (99 ∷ []) (at 5 999999) 3 two_entries two_entries-IsSorted

abbrev note : TimeVal → ℕ → List ℕ → List ℕ
note t callback notes = callback ∷ notes

notify_timer_callbacks_lem_example :
    notify_timer_callbacks (quietly note) 3 (at 5 999999) (some two_entries, [])
    ≡ some (some (waiting (at 5 999999) two_entries), run_due note (at 5 999999) two_entries [])
notify_timer_callbacks_lem_example =
    notify_timer_callbacks_lem note 3 (at 5 999999) two_entries [] two_entries-IsSorted
      (omega arith)

get_current_sleep_time_lem_example :
    get_current_sleep_time (at 5 0) (some two_entries)
    ≡ microseconds (at 5 999999) - microseconds (at 5 0)
get_current_sleep_time_lem_example =
    get_current_sleep_time_lem (at 5 0) (entry 5 999999 1 (97 ∷ [])) (entry 6 0 2 (98 ∷ []) ∷ [])
      (omega arith) (omega arith)
