-- ===== src/Timer.antt =====
-- src/timer.c, and `compareTimes` of src/util.c. Times are not before the epoch, and are taken not
-- to overflow.
pub mod Tree
pub mod Add
pub mod Notify
mod Tests
use kalisko.Base.{
  length, ℕ, zero, suc, ◌+◌, ◌*◌, ◌%◌, Bool, true, false, Option, none, some, List, [], ◌∷◌, ◌++◌,
  ltb, if◌then◌else◌, Bytes, bytes_eq,
}

-- `GTimeVal`
pub record TimeVal : Type 0 where
  pub tv_sec : ℕ
  pub tv_usec : ℕ

-- The sign of an `int` result of a comparison.
pub data Sign : Type 0 where
  negative null positive : Sign

-- `compareTimes`
unfoldable pub compare_times : TimeVal → TimeVal → Sign
compare_times a b =
    if ltb b.tv_sec a.tv_sec
    then positive
    else if ltb a.tv_sec b.tv_sec
    then negative
    else if ltb b.tv_usec a.tv_usec
    then positive
    else if ltb a.tv_usec b.tv_usec
    then negative
    else null

abbrev pub microseconds : TimeVal → ℕ
microseconds t = t.tv_sec * 1000000 + t.tv_usec

-- `TimerEntry`; `C` stands for a callback with its custom data.
pub record TimerEntry (C : Type 0) : Type 0 where
  pub time : TimeVal
  pub callback : C
  pub module_name : Bytes

-- `timers`: the entries of the `GTree` in its order, or `NULL` before `initTimers` and after
-- `exitGracefully`.
abbrev pub Timers : Type 0 → Type 0
Timers C = Option (List (TimerEntry C))

module _ {C : Type 0} where
  -- `g_tree_lookup`
  unfoldable pub tree_lookup : TimeVal → List (TimerEntry C) → Option (TimerEntry C)
  tree_lookup t [] = none
  tree_lookup t (e ∷ es) = elim (compare_times t e.time) [
    | negative ↦ none
    | null ↦ some e
    | positive ↦ tree_lookup t es
  ]

  -- `g_tree_insert`
  unfoldable pub tree_insert : TimerEntry C → List (TimerEntry C) → List (TimerEntry C)
  tree_insert x [] = x ∷ []
  tree_insert x (e ∷ es) = elim (compare_times x.time e.time) [
    | negative ↦ x ∷ e ∷ es
    | null ↦ x ∷ es
    | positive ↦ e ∷ tree_insert x es
  ]

  -- `g_tree_remove`
  unfoldable pub tree_remove : TimeVal → List (TimerEntry C) → List (TimerEntry C)
  tree_remove t [] = []
  tree_remove t (e ∷ es) = elim (compare_times t e.time) [
    | negative ↦ e ∷ es
    | null ↦ es
    | positive ↦ e ∷ tree_remove t es
  ]

  -- `initTimers`
  unfoldable pub init_timers : Timers C
  init_timers = some []

  -- The `while` loop of `addTimer`, which looks for a free position; `none` is fuel that ran out.
  unfoldable pub free_position : ℕ → TimeVal → List (TimerEntry C) → Option TimeVal
  free_position zero t es = none
  free_position (suc n) t es = elim (tree_lookup t es) [
    | none ↦ some t
    | some e ↦ free_position n (record t { tv_usec = t.tv_usec + 1 }) es
  ]

  abbrev pub insert_at :
      Option TimeVal → Bytes → C → List (TimerEntry C) → Timers C × Option TimeVal
  insert_at none name callback es = (some es, none)
  insert_at (some t) name callback es =
      (some (tree_insert (record { time = t; callback = callback; module_name = name }) es), some t)

  -- `addTimer`: the timers that it leaves, and its result. There are fewer positions taken than
  -- rounds given to the loop.
  unfoldable pub add_timer : Bytes → TimeVal → C → Timers C → Timers C × Option TimeVal
  unfolding free_position tree_insert
  add_timer name time callback none = (none, none)
  add_timer name time callback (some es) =
      insert_at (free_position (suc (length es)) time es) name callback es

  -- `delTimer`
  unfoldable pub del_timer : TimeVal → Timers C → Timers C × Bool
  unfolding tree_remove
  del_timer time none = (none, false)
  del_timer time (some es) = elim (tree_lookup time es) [
    | none ↦ (some es, false)
    | some e ↦ (some (tree_remove time es), true)
  ]

  abbrev pub first : List (TimerEntry C) → Option (TimerEntry C)
  first [] = none
  first (e ∷ es) = some e

  -- `getNextTimerTime`
  unfoldable pub get_next_timer_time : Timers C → TimeVal
  get_next_timer_time none = record { tv_sec = 0; tv_usec = 0 }
  get_next_timer_time (some []) = record { tv_sec = 0; tv_usec = 0 }
  get_next_timer_time (some (e ∷ es)) = e.time

  -- `getCurrentSleepTime`: the difference is cut to a 32 bit `int`, whose sign is then looked at.
  unfoldable pub get_current_sleep_time : TimeVal → Timers C → ℕ
  get_current_sleep_time now timers =
      let next = get_next_timer_time timers in
      let sleep = (microseconds next + microseconds now * 4294967295) % 4294967296 in
      if ltb sleep 2147483648 then sleep else 0

  -- `hasMoreTimerCallbacks`
  unfoldable pub has_more_timer_callbacks : Timers C → Bool
  has_more_timer_callbacks none = false
  has_more_timer_callbacks (some []) = false
  has_more_timer_callbacks (some (e ∷ es)) = true

  -- `exitGracefully` and `isExiting`
  unfoldable pub exit_gracefully : Timers C → Timers C
  exit_gracefully timers = none

  unfoldable pub is_exiting : Timers C → Bool
  is_exiting none = true
  is_exiting (some es) = false

  -- `findModuleTimers` over the tree: the keys of the module's timers.
  unfoldable pub find_module_timers : Bytes → List (TimerEntry C) → List TimeVal
  find_module_timers name [] = []
  find_module_timers name (e ∷ es) =
      let rest = find_module_timers name es in
      if bytes_eq e.module_name name then e.time ∷ rest else rest

  -- The loop of `removeModuleTimers`.
  unfoldable pub remove_all : List TimeVal → List (TimerEntry C) → ℕ → List (TimerEntry C) × ℕ
  remove_all [] es removed = (es, removed)
  remove_all (t ∷ ts) es removed = remove_all ts (tree_remove t es) (removed + 1)

  abbrev kept : List (TimerEntry C) × ℕ → Timers C × ℕ
  kept (es, removed) = (some es, removed)

  -- `removeModuleTimers`
  unfoldable pub remove_module_timers : Bytes → Timers C → Timers C × ℕ
  unfolding find_module_timers remove_all tree_remove
  remove_module_timers name none = (none, 0)
  remove_module_timers name (some es) = kept (remove_all (find_module_timers name es) es 0)

-- `notifyTimerCallbacks` at the time `now`. What a callback does to the timers and to the rest of
-- the program, `S`, is a parameter. `none` is fuel that ran out.
module _ {C S : Type 0} (call : TimeVal → C → Timers C × S → Timers C × S) where
  unfoldable pub notify_timer_callbacks : ℕ → TimeVal → Timers C × S → Option (Timers C × S)
  notify_timer_callbacks zero now (timers, s) = none
  notify_timer_callbacks (suc n) now (none, s) = some (none, s)
  notify_timer_callbacks (suc n) now (some [], s) = some (some [], s)
  notify_timer_callbacks (suc n) now (some (e ∷ es), s) = elim (compare_times now e.time) [
    | negative ↦ some (some (e ∷ es), s)
    | _ ↦
        notify_timer_callbacks n now
          (call e.time e.callback (some (tree_remove e.time (e ∷ es)), s))
  ]
