-- ===== src/Timer/Tree.antt =====
-- The order of times and the tree of the timers.
use kalisko.Base.{◌≡◌, refl, none, some, List, [], ◌∷◌, arith, All}
use kalisko.Timer.{
  TimerEntry, TimeVal, negative, null, positive, tree_insert, compare_times, tree_remove,
  tree_lookup,
}

abbrev pub Before : TimeVal → TimeVal → Type 0
Before a b = compare_times a b ≡ negative

-- The entries of the tree in their order, each at a time of its own.
abbrev pub IsSorted : {C : Type 0} → List (TimerEntry C) → Type 0
IsSorted [] = Unit
IsSorted (e ∷ es) = All (λ x. Before e.time x.time) es × IsSorted es

pub compare_times_self : (a : TimeVal) → compare_times a a ≡ null
unfolding compare_times
compare_times_self a = ground arith

pub compare_times-null : (a b : TimeVal) → compare_times a b ≡ null → a ≡ b
unfolding compare_times
compare_times-null a b h = ground arith

pub compare_times-swap : (a b : TimeVal) → compare_times a b ≡ positive → Before b a
unfolding compare_times
compare_times-swap a b h = ground arith

pub compare_times-back : (a b : TimeVal) → Before a b → compare_times b a ≡ positive
unfolding compare_times
compare_times-back a b h = ground arith

pub Before-trans : (a b c : TimeVal) → Before a b → Before b c → Before a c
unfolding compare_times
Before-trans a b c h k = ground arith

module _ {C : Type 0} where
  pub All-Before :
      (a b : TimeVal) (es : List (TimerEntry C))
      → Before a b
      → All (λ x. Before b x.time) es
      → All (λ x. Before a x.time) es
  All-Before a b [] h k = tt
  All-Before a b (e ∷ es) h k = (Before-trans a b e.time h k.0, All-Before a b es h k.1)

  -- Nothing stands at a time before all entries.
  pub tree_lookup-Before :
      (a : TimeVal) (es : List (TimerEntry C))
      → All (λ x. Before a x.time) es
      → tree_lookup a es ≡ none
  unfolding tree_lookup
  tree_lookup-Before a [] h = refl
  tree_lookup-Before a (e ∷ es) h = ground arith

  All-tree_insert :
      (a : TimeVal) (x : TimerEntry C) (es : List (TimerEntry C))
      → Before a x.time
      → All (λ y. Before a y.time) es
      → All (λ y. Before a y.time) (tree_insert x es)
  unfolding tree_insert
  All-tree_insert a x [] h k = (h, tt)
  All-tree_insert a x (e ∷ es) h k = ground (arith, All-tree_insert a x es h k.1)

  pub tree_insert-IsSorted :
      (x : TimerEntry C) (es : List (TimerEntry C)) → IsSorted es → IsSorted (tree_insert x es)
  unfolding tree_insert
  tree_insert-IsSorted x [] h = (tt, tt)
  tree_insert-IsSorted x (e ∷ es) h = ground (
    arith,
    compare_times-null x.time e.time,
    compare_times-swap x.time e.time,
    All-Before x.time e.time es,
    All-tree_insert e.time x es,
    tree_insert-IsSorted x es h.1,
  )

  All-tree_remove :
      (a t : TimeVal) (es : List (TimerEntry C))
      → All (λ y. Before a y.time) es
      → All (λ y. Before a y.time) (tree_remove t es)
  unfolding tree_remove
  All-tree_remove a t [] k = tt
  All-tree_remove a t (e ∷ es) k = ground (arith, All-tree_remove a t es k.1)

  pub tree_remove-IsSorted :
      (t : TimeVal) (es : List (TimerEntry C)) → IsSorted es → IsSorted (tree_remove t es)
  unfolding tree_remove
  tree_remove-IsSorted t [] h = tt
  tree_remove-IsSorted t (e ∷ es) h =
      ground (arith, All-tree_remove e.time t es, tree_remove-IsSorted t es h.1)

  pub tree_lookup-tree_insert :
      (x : TimerEntry C) (t : TimeVal) (es : List (TimerEntry C))
      → IsSorted es
      → tree_lookup t (tree_insert x es)
        ≡ elim (compare_times t x.time) [ null ↦ some x | _ ↦ tree_lookup t es ]
  unfolding tree_lookup tree_insert
  tree_lookup-tree_insert x t [] h = ground arith
  tree_lookup-tree_insert x t (e ∷ es) h = ground (
    arith,
    tree_lookup-tree_insert x t es h.1,
    compare_times-null x.time e.time,
    compare_times-null t x.time,
    compare_times-swap x.time e.time,
    compare_times-back e.time x.time,
    Before-trans t x.time e.time,
    Before-trans e.time x.time t,
    tree_lookup-Before t es,
    All-Before t e.time es,
    compare_times-swap t x.time,
    compare_times-back e.time t,
    compare_times-back x.time t,
    compare_times-swap t e.time,
  )

  pub tree_lookup-tree_remove :
      (u t : TimeVal) (es : List (TimerEntry C))
      → IsSorted es
      → tree_lookup t (tree_remove u es)
        ≡ elim (compare_times t u) [ null ↦ none | _ ↦ tree_lookup t es ]
  unfolding tree_lookup tree_remove
  tree_lookup-tree_remove u t [] h = ground arith
  tree_lookup-tree_remove u t (e ∷ es) h = ground (
    arith,
    tree_lookup-tree_remove u t es h.1,
    compare_times-null u e.time,
    compare_times-null t u,
    tree_lookup-Before t es,
    All-Before t e.time es,
    tree_lookup-Before e.time es,
  )
