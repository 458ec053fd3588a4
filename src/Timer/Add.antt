-- ===== src/Timer/Add.antt =====
-- `addTimer` and `delTimer`.
use kalisko.Timer.Tree.{
  compare_times-null, IsSorted, tree_insert-IsSorted, tree_lookup-tree_insert, tree_remove-IsSorted,
  tree_lookup-tree_remove,
}
use kalisko.Base.{
  ℕ, zero, suc, ◌+◌, ◌≤◌, ◌<◌, ◌≡◌, ◌≢◌, refl, ◌∙◌, Bool, true, false, ◌&&◌, none, some, List, [],
  ◌∷◌, leb, ◌==◌, if◌then◌else◌, Bytes, arith, length, inl, inr, Option-cases, ◌↔◌,
}
use native.Mathlib.Decide.{dec_lt}
use kalisko.Timer.{
  TimerEntry, TimeVal, null, free_position, tree_lookup, del_timer, add_timer, compare_times,
  tree_insert, tree_remove,
}

-- How many entries stand at the second of `t`, at its microsecond or later.
abbrev taken : {C : Type 0} → TimeVal → List (TimerEntry C) → ℕ
taken t [] = 0
taken t (e ∷ es) =
    (if e.time.tv_sec == t.tv_sec && leb t.tv_usec e.time.tv_usec then 1 else 0) + taken t es

abbrev next : TimeVal → TimeVal
next t = record t { tv_usec = t.tv_usec + 1 }

module _ {C : Type 0} where
  taken-le : (t : TimeVal) (es : List (TimerEntry C)) → taken t es ≤ length es
  taken-le t [] = omega arith
  taken-le t (e ∷ es) = ground (arith, taken-le t es)

  taken-next : (t : TimeVal) (es : List (TimerEntry C)) → taken (next t) es ≤ taken t es
  taken-next t [] = omega arith
  taken-next t (e ∷ es) = ground (arith, taken-next t es)

  taken_less :
      (t : TimeVal) (es : List (TimerEntry C))
      → tree_lookup t es ≢ none
      → taken (next t) es < taken t es
  unfolding tree_lookup
  taken_less t [] h = absurd (h refl)
  taken_less t (e ∷ es) h =
      ground (arith, compare_times-null t e.time, taken-next t es, taken_less t es)

  -- A position that the search may give for the time asked: it is free, and those before it are
  -- not.
  pub record IsFree (time t : TimeVal) (es : List (TimerEntry C)) : Type 0 where
    pub same_second : t.tv_sec ≡ time.tv_sec
    pub later : time.tv_usec ≤ t.tv_usec
    pub free : tree_lookup t es ≡ none
    pub first :
        (u : ℕ)
        → time.tv_usec ≤ u
        → u < t.tv_usec
        → tree_lookup (record { tv_sec = time.tv_sec; tv_usec = u }) es ≢ none

  free_position_here :
      (n : ℕ) (t : TimeVal) (es : List (TimerEntry C))
      → tree_lookup t es ≡ none
      → free_position (suc n) t es ≡ some t
  unfolding free_position
  free_position_here n t es e = ground arith

  free_position_later :
      (n : ℕ) (t : TimeVal) (es : List (TimerEntry C))
      → tree_lookup t es ≢ none
      → free_position (suc n) t es ≡ free_position n (next t) es
  unfolding free_position
  free_position_later n t es e = ground arith

  first_taken :
      (t : TimeVal) (es : List (TimerEntry C)) (w : ℕ)
      → tree_lookup t es ≢ none
      → t.tv_usec ≤ w
      → (t.tv_usec + 1 ≤ w → tree_lookup (record { tv_sec = t.tv_sec; tv_usec = w }) es ≢ none)
      → tree_lookup (record { tv_sec = t.tv_sec; tv_usec = w }) es ≢ none
  first_taken t es w e a later = elim (dec_lt t.tv_usec w) [
    | yes b ↦ later (omega arith)
    | no b ↦ let same : t.tv_usec ≡ w = omega arith in rw (← same) e
  ]

  free_position-IsFree :
      (n : ℕ) (t : TimeVal) (es : List (TimerEntry C))
      → taken t es < n
      → (u : TimeVal) × (free_position n t es ≡ some u) × IsFree t u es
  free_position-IsFree zero t es h = elim h [ ]
  free_position-IsFree (suc n) t es h = elim (Option-cases (tree_lookup t es)) [
    | inl e ↦ (
      t,
      free_position_here n t es e,
      record {
        same_second = refl;
        later = omega arith;
        free = e;
        first = λ u a b. absurd (omega arith);
      },
    )
    | inr (x, e) ↦
        let ne : tree_lookup t es ≢ none = λ q. ground arith in
        let less = taken_less t es ne in
        let (u, p, f) = free_position-IsFree n (next t) es (omega arith) in
        (
          u,
          free_position_later n t es ne ∙ p,
          record {
            same_second = f.same_second;
            later = omega (arith, f.later);
            free = f.free;
            first = λ w a b. first_taken t es w ne a (λ c. f.first w c b);
          },
        )
  ]

  -- On a sorted tree addTimer ends and puts the callback at the first free microsecond from the
  -- time asked, counted in the same second; the tree stays sorted and every other time keeps its
  -- entry.
  pub add_timer_lem :
      (name : Bytes) (time : TimeVal) (callback : C) (es : List (TimerEntry C))
      → IsSorted es
      → (t : TimeVal) × (es' : List (TimerEntry C)) × (add_timer name time callback (some es)
          ≡ (some es', some t))
        × IsFree time t es
        × IsSorted es'
        × ((u : TimeVal)
            → tree_lookup u es' ≡ elim (compare_times u t) [
              | null ↦ some (record { time = t; callback = callback; module_name = name })
              | _ ↦ tree_lookup u es
            ])
  add_timer_lem name time callback es h =
      let (t, p, f) =
        free_position-IsFree (suc (length es)) time es (omega (arith, taken-le time es)) in
      let x : TimerEntry C = record { time = t; callback = callback; module_name = name } in
      (
        t,
        tree_insert x es,
        unfold add_timer in rw p,
        f,
        tree_insert-IsSorted x es h,
        λ u. tree_lookup-tree_insert x u es h,
      )

  tree_lookup_absent :
      (time u : TimeVal) (es : List (TimerEntry C))
      → tree_lookup time es ≡ none
      → tree_lookup u es ≡ elim (compare_times u time) [ null ↦ none | _ ↦ tree_lookup u es ]
  tree_lookup_absent time u es e = ground (arith, compare_times-null u time)

  del_timer_absent :
      (time : TimeVal) (es : List (TimerEntry C))
      → tree_lookup time es ≡ none
      → del_timer time (some es) ≡ (some es, false)
  unfolding del_timer
  del_timer_absent time es e = ground arith

  del_timer_present :
      (time : TimeVal) (es : List (TimerEntry C)) (x : TimerEntry C)
      → tree_lookup time es ≡ some x
      → del_timer time (some es) ≡ (some (tree_remove time es), true)
  unfolding del_timer
  del_timer_present time es x e = ground arith

  -- On a sorted tree delTimer succeeds exactly when there is an entry at that time, which is then
  -- gone; the tree stays sorted and every other time keeps its entry.
  pub del_timer_lem :
      (time : TimeVal) (es : List (TimerEntry C))
      → IsSorted es
      → (es' : List (TimerEntry C)) × (done : Bool) × (del_timer time (some es) ≡ (some es', done))
        × ((done ≡ true) ↔ (tree_lookup time es ≢ none))
        × IsSorted es'
        × ((u : TimeVal)
            → tree_lookup u es'
              ≡ elim (compare_times u time) [ null ↦ none | _ ↦ tree_lookup u es ])
  del_timer_lem time es h = elim (Option-cases (tree_lookup time es)) [
    | inl e ↦ (
      es,
      false,
      del_timer_absent time es e,
      ((λ q. ground arith), λ q. absurd (q e)),
      h,
      λ u. tree_lookup_absent time u es e,
    )
    | inr (x, e) ↦ (
      tree_remove time es,
      true,
      del_timer_present time es x e,
      ((λ q r. ground arith), λ q. refl),
      tree_remove-IsSorted time es h,
      λ u. tree_lookup-tree_remove time u es h,
    )
  ]
