-- ===== src/Timer/Notify.antt =====
-- `notifyTimerCallbacks`, `getCurrentSleepTime` and `removeModuleTimers` of src/timer.c.
use kalisko.Timer.Tree.{IsSorted, Before, compare_times-back, compare_times_self}
use kalisko.Timer.{
  compare_times, remove_module_timers, TimeVal, find_module_timers, remove_all,
  get_current_sleep_time, get_next_timer_time, Timers, TimerEntry, tree_remove, microseconds,
  notify_timer_callbacks,
}
use kalisko.Base.{
  ◌≡◌, refl, some, List, [], ◌∷◌, arith, All, Bytes, ℕ, Bool, ◌<◌, length, suc, zero, ◌+◌, ◌-◌, ◌∙◌,
  true, false, ltb, leb, if◌then◌else◌, bytes_eq, ◌%◌, ◌*◌, Bool-cases, inl, inr,
}

-- The entries of other modules than the one named, and how many are its own.
unfoldable pub others : {C : Type 0} → Bytes → List (TimerEntry C) → List (TimerEntry C)
others name [] = []
others name (e ∷ es) =
    let rest = others name es in if bytes_eq e.module_name name then rest else e ∷ rest

-- Whether an entry is due at the time `now`.
unfoldable pub due : {C : Type 0} → TimeVal → TimerEntry C → Bool
due now e =
    if ltb now.tv_sec e.time.tv_sec
    then false
    else if ltb e.time.tv_sec now.tv_sec
    then true
    else leb e.time.tv_usec now.tv_usec

-- The entries that are not due.
unfoldable pub waiting : {C : Type 0} → TimeVal → List (TimerEntry C) → List (TimerEntry C)
waiting now [] = []
waiting now (e ∷ es) = let rest = waiting now es in if due now e then rest else e ∷ rest

-- What the callbacks that are due do, one after the other in the order of the tree.
unfoldable pub run_due :
    {C S : Type 0} → (TimeVal → C → S → S) → TimeVal → List (TimerEntry C) → S → S
run_due act now [] s = s
run_due act now (e ∷ es) s = run_due act now es (if due now e then act e.time e.callback s else s)

-- Callbacks that leave the timers alone.
abbrev pub quietly :
    {C S : Type 0} → (TimeVal → C → S → S) → TimeVal → C → Timers C × S → Timers C × S
quietly act t callback (timers, s) = (timers, act t callback s)

sleep_cut :
    (x y : ℕ)
    → x < y + 2147483648
    → y < x + 2147483648
    → (if ltb ((x + y * 4294967295) % 4294967296) 2147483648
        then (x + y * 4294967295) % 4294967296
        else 0)
      ≡ x - y
sleep_cut x y a b = ground arith

module _ {C : Type 0} where
  find_module_timers-Before :
      (t : TimeVal) (name : Bytes) (es : List (TimerEntry C))
      → All (λ x. Before t x.time) es
      → All (λ x. Before t x) (find_module_timers name es)
  unfolding find_module_timers
  find_module_timers-Before t name [] h = tt
  find_module_timers-Before t name (e ∷ es) h =
      ground (arith, find_module_timers-Before t name es h.1)

  -- Removing later times leaves the first entry.
  remove_all_after :
      (ts : List TimeVal) (e : TimerEntry C) (es : List (TimerEntry C)) (n : ℕ)
      → All (λ x. Before e.time x) ts
      → remove_all ts (e ∷ es) n ≡ (e ∷ (remove_all ts es n).0, (remove_all ts es n).1)
  unfolding remove_all tree_remove
  remove_all_after [] e es n h = refl
  remove_all_after (t ∷ ts) e es n h =
      ground (arith, compare_times-back e.time t, remove_all_after ts e (tree_remove t es) (n + 1))

  tree_remove_first :
      (e : TimerEntry C) (es : List (TimerEntry C)) → tree_remove e.time (e ∷ es) ≡ es
  unfolding tree_remove
  tree_remove_first e es = ground (arith, compare_times_self e.time)

  remove_all-find_module_timers :
      (name : Bytes) (es : List (TimerEntry C)) (n : ℕ)
      → IsSorted es
      → remove_all (find_module_timers name es) es n
        ≡ (others name es, n + length (find_module_timers name es))
  unfolding find_module_timers others remove_all
  remove_all-find_module_timers name [] n h = ground arith
  remove_all-find_module_timers name (e ∷ es) n h = ground (
    arith,
    remove_all-find_module_timers name es n h.1,
    remove_all-find_module_timers name es (n + 1) h.1,
    remove_all_after (find_module_timers name es) e es n
        (find_module_timers-Before e.time name es h.0),
    tree_remove_first e es,
  )

  length-others :
      (name : Bytes) (es : List (TimerEntry C))
      → length (others name es) + length (find_module_timers name es) ≡ length es
  unfolding find_module_timers others
  length-others name [] = refl
  length-others name (e ∷ es) = ground (arith, length-others name es)

  -- On a sorted tree removeModuleTimers removes exactly the entries of the module and returns how
  -- many they were.
  pub remove_module_timers_lem :
      (name : Bytes) (es : List (TimerEntry C))
      → IsSorted es
      → (remove_module_timers name (some es)).0 ≡ some (others name es)
        × (length (others name es) + (remove_module_timers name (some es)).1 ≡ length es)
  unfolding remove_module_timers
  remove_module_timers_lem name es h =
      rw (remove_all-find_module_timers name es 0 h) (refl, omega (arith, length-others name es))

  waiting_late :
      (now t : TimeVal) (es : List (TimerEntry C))
      → Before now t
      → All (λ x. Before t x.time) es
      → waiting now es ≡ es
  unfolding waiting due compare_times
  waiting_late now t [] h k = refl
  waiting_late now t (e ∷ es) h k = ground (arith, waiting_late now t es)

  run_due_late :
      {S : Type 0} (act : TimeVal → C → S → S) (now t : TimeVal) (es : List (TimerEntry C)) (s : S)
      → Before now t
      → All (λ x. Before t x.time) es
      → run_due act now es s ≡ s
  unfolding run_due due compare_times
  run_due_late act now t [] s h k = refl
  run_due_late act now t (e ∷ es) s h k = ground (arith, run_due_late act now t es s)

  notify_wait :
      {S : Type 0} (call : TimeVal → C → Timers C × S → Timers C × S) (n : ℕ) (now : TimeVal)
      (e : TimerEntry C) (es : List (TimerEntry C)) (s : S)
      → due now e ≡ false
      → notify_timer_callbacks call (suc n) now (some (e ∷ es), s) ≡ some (some (e ∷ es), s)
  unfolding notify_timer_callbacks due compare_times
  notify_wait call n now e es s h = ground arith

  notify_done :
      {S : Type 0} (call : TimeVal → C → Timers C × S → Timers C × S) (n : ℕ) (now : TimeVal)
      (s : S)
      → notify_timer_callbacks call (suc n) now (some [], s) ≡ some (some [], s)
  unfolding notify_timer_callbacks
  notify_done call n now s = refl

  notify_call :
      {S : Type 0} (call : TimeVal → C → Timers C × S → Timers C × S) (n : ℕ) (now : TimeVal)
      (e : TimerEntry C) (es : List (TimerEntry C)) (s : S)
      → due now e ≡ true
      → notify_timer_callbacks call (suc n) now (some (e ∷ es), s)
        ≡ notify_timer_callbacks call n now (call e.time e.callback (some es, s))
  unfolding notify_timer_callbacks due compare_times
  notify_call call n now e es s h = ground (arith, tree_remove_first e es)

  due-Before : (now : TimeVal) (e : TimerEntry C) → due now e ≡ false → Before now e.time
  unfolding due compare_times
  due-Before now e d = ground arith

  -- For callbacks that leave the timers alone, a sorted tree and more fuel than entries,
  -- notifyTimerCallbacks ends, calls each entry whose time is not after the time given once, in
  -- the order of the tree, and leaves exactly the other entries.
  pub notify_timer_callbacks_lem :
      {S : Type 0} (act : TimeVal → C → S → S) (n : ℕ) (now : TimeVal) (es : List (TimerEntry C))
      (s : S)
      → IsSorted es
      → length es < n
      → notify_timer_callbacks (quietly act) n now (some es, s)
        ≡ some (some (waiting now es), run_due act now es s)
  unfolding waiting run_due
  notify_timer_callbacks_lem act zero now es s h l = elim l [ ]
  notify_timer_callbacks_lem act (suc n) now [] s h l = notify_done (quietly act) n now s
  notify_timer_callbacks_lem act (suc n) now (e ∷ es) s h l = elim (Bool-cases (due now e)) [
    | inl d ↦
        notify_call (quietly act) n now e es s d
        ∙ notify_timer_callbacks_lem act n now es (act e.time e.callback s) h.1 (omega arith)
        ∙ rw d
    | inr d ↦
        notify_wait (quietly act) n now e es s d
        ∙ rw d ground (
          arith,
          waiting_late now e.time es (due-Before now e d) h.0,
          run_due_late act now e.time es s (due-Before now e d) h.0,
        )
  ]

  -- When the first entry is less than 2^31 microseconds away, in the future or the past,
  -- getCurrentSleepTime is the number of microseconds to it, and 0 when it has passed.
  pub get_current_sleep_time_lem :
      (now : TimeVal) (e : TimerEntry C) (es : List (TimerEntry C))
      → microseconds e.time < microseconds now + 2147483648
      → microseconds now < microseconds e.time + 2147483648
      → get_current_sleep_time now (some (e ∷ es)) ≡ microseconds e.time - microseconds now
  unfolding get_current_sleep_time get_next_timer_time
  get_current_sleep_time_lem now e es a b =
      ground (arith, sleep_cut (microseconds e.time) (microseconds now) a b)
