-- ===== src/Store/Path.antt =====
-- src/modules/store/path.c: paths into a store. `MAX_PATH_LEN` bounds the formatted path.
pub mod Walk
pub mod Change
pub mod Set
use kalisko.Base.{
  ℕ, zero, suc, ◌-◌, Bool, true, false, not, List, [], ◌∷◌, ◌++◌, Option, none, some, ◌==◌, ltb,
  if◌then◌else◌, Bytes, length, take,
}
use kalisko.Base.Int.{ℤ, pos, negsuc}
use kalisko.Base.Clib.{atoi}
use kalisko.Store.Value.{Store, Items, list, array}
use kalisko.Store.Value.Tables.{
  size, nth, push_tail, push_nth, without_nth, set_nth, lookup, insert, remove,
}

-- `MAX_PATH_LEN`
abbrev pub max_path_len : ℕ
max_path_len = 4096

-- What `vsnprintf` leaves of the formatted path in the buffer.
abbrev pub truncated : Bytes → Bytes
truncated p = take (max_path_len - 1) p

-- The `for` loop of `getStorePath`, which reads one component into `pathnode`: the component, and
-- what `iter` points to behind it. `none` is the early `return NULL` at a backslash that escapes
-- neither a slash nor a backslash.
unfoldable pub read_component : Bytes → Bool → Bytes → Option (Bytes × Bytes)
read_component pathnode escaping [] = some (pathnode, [])
read_component pathnode escaping (c ∷ iter) =
    let appended = read_component (pathnode ++ c ∷ []) false iter in
    let continued = read_component pathnode true iter in
    if c == b'/'
    then (if not escaping then some (pathnode, iter) else appended)
    else if c == b'\\'
    then (if not escaping then continued else appended)
    else if escaping
    then none
    else appended

-- A position that `atoi` gave, if it lies in a queue of this length.
abbrev pub in_bounds : ℤ → ℕ → Option ℕ
in_bounds (pos i) n = if ltb i n then some i else none
in_bounds (negsuc i) n = none

-- The result of `getStorePath`; `found none` is `NULL`.
pub data Found (F : Type 0) : Type 0 where
  found : Option (Store F) → Found F
  out_of_fuel : Found F

-- The result of `setStorePath` and `deleteStorePath`, with the store that they leave. `fault` is
-- the read through the `NULL` that `splitStorePath` returned.
pub data Written (F : Type 0) : Type 0 where
  written : Store F → Bool → Written F
  missing : Written F
  fault : Written F
  out_of_fuel : Written F

module _ {F : Type 0} where
  abbrev pub item_at : Items F → Option ℕ → Option (Store F)
  item_at vs none = none
  item_at vs (some i) = nth vs i

  -- The `switch` of `getStorePath`: the child of a container under a component.
  unfoldable pub child : Store F → Bytes → Option (Store F)
  unfolding lookup nth atoi
  child (array ns) k = lookup k ns
  child (list vs) k = item_at vs (in_bounds (atoi k) (size vs))
  child _ k = none

  unfoldable pub get_loop : ℕ → Store F → Bytes → Found F
  get_loop zero parent p = out_of_fuel
  get_loop (suc n) parent [] = found (some parent)
  get_loop (suc n) parent p = elim (read_component [] false p) [
    | none ↦ found none
    | some (pathnode, iter) ↦ elim (child parent pathnode) [
      | none ↦ found none
      | some value ↦ elim iter [ [] ↦ found (some value) | c ∷ cs ↦ get_loop n value (c ∷ cs) ]
    ]
  ]

  -- `getStorePath`, at the path that its format gives. A component takes a character at least.
  unfoldable pub get_store_path : Store F → Bytes → Found F
  unfolding get_loop
  get_store_path parent p = get_loop (suc (length p)) parent (truncated p)

-- `splitStorePath`: the loop, with the components so far and the one in assembly.
unfoldable pub split_loop : List Bytes → Bytes → Bool → Bytes → Option (List Bytes)
split_loop parts assemble escaping [] = some (parts ++ assemble ∷ [])
split_loop parts assemble escaping (c ∷ iter) =
    let appended = split_loop parts (assemble ++ c ∷ []) false iter in
    let continued = split_loop parts assemble true iter in
    let next = split_loop (parts ++ assemble ∷ []) [] false iter in
    if c == b'\\'
    then (if not escaping then continued else appended)
    else if c == b'/'
    then (if not escaping then next else appended)
    else if escaping
    then none
    else appended

unfoldable pub split_store_path : Bytes → Option (List Bytes)
unfolding split_loop
split_store_path = split_loop [] [] false

-- `g_strjoinv("/", ...)`
unfoldable pub join : List Bytes → Bytes
join [] = []
join (k ∷ []) = k
join (k ∷ ks) = k ++ (b'/' ∷ join ks)

-- The last part, and those before it.
unfoldable pub cut_last : Bytes → List Bytes → List Bytes × Bytes
cut_last k [] = ([], k)
cut_last k (j ∷ js) = let (init, last) = cut_last j js in (k ∷ init, last)

module _ {F : Type 0} where
  abbrev pub set_item : Items F → Option ℕ → Store F → Items F
  set_item vs none v = vs
  set_item vs (some i) v = set_nth vs i v

  -- What a container becomes when the child that `getStorePath` found is written to in place.
  unfoldable pub replace_child : Store F → Bytes → Store F → Store F
  unfolding insert set_nth atoi
  replace_child (array ns) k v = array (insert k v ns)
  replace_child (list vs) k v = list (set_item vs (in_bounds (atoi k) (size vs)) v)
  replace_child s k v = s

  abbrev pub replacing : Store F → Bytes → Written F → Written F
  replacing parent k (written v done) = written (replace_child parent k v) done
  replacing parent k w = w

  abbrev pub write : (Store F → Store F × Bool) → Store F → Written F
  write f s = let (s', done) = f s in written s' done

  -- The store after `f` has worked on the value that `getStorePath` finds.
  unfoldable pub write_loop : (Store F → Store F × Bool) → ℕ → Store F → Bytes → Written F
  write_loop f zero parent p = Written.out_of_fuel
  write_loop f (suc n) parent [] = write f parent
  write_loop f (suc n) parent p = elim (read_component [] false p) [
    | none ↦ missing
    | some (pathnode, iter) ↦ elim (child parent pathnode) [
      | none ↦ missing
      | some value ↦ elim iter [
        | [] ↦ replacing parent pathnode (write f value)
        | c ∷ cs ↦ replacing parent pathnode (write_loop f n value (c ∷ cs))
      ]
    ]
  ]

  -- A missing parent leaves the store alone, and the result is false.
  abbrev pub or_false : Store F → Written F → Written F
  or_false s missing = written s false
  or_false s w = w

  unfoldable pub write_at : (Store F → Store F × Bool) → Store F → Bytes → Written F
  unfolding write_loop
  write_at f s p = or_false s (write_loop f (suc (length p)) s (truncated p))

  -- `g_queue_push_nth`, which takes a negative position for the end.
  abbrev pub push_at : Items F → ℤ → Store F → Items F
  push_at vs (pos i) v = push_nth vs i v
  push_at vs (negsuc i) v = push_tail vs v

  -- The `switch` of `setStorePath`.
  unfoldable pub set_in : Bytes → Store F → Store F → Store F × Bool
  unfolding insert push_nth push_tail atoi
  set_in key value (array ns) = (array (insert key value ns), true)
  set_in key value (list vs) = (list (push_at vs (atoi key) value), true)
  set_in key value s = (s, false)

  abbrev pop_at : Items F → Option ℕ → Store F × Bool
  pop_at vs none = (list vs, false)
  pop_at vs (some i) = (list (without_nth vs i), true)

  -- The `switch` of `deleteStorePath`. A negative position reaches `g_queue_pop_nth` as a number
  -- beyond any queue's end.
  unfoldable pub delete_in : Bytes → Store F → Store F × Bool
  unfolding lookup remove without_nth atoi
  delete_in key (array ns) =
      (array (remove key ns), elim (lookup key ns) [ none ↦ false | some v ↦ true ])
  delete_in key (list vs) = pop_at vs (in_bounds (atoi key) (size vs))
  delete_in key s = (s, false)

  abbrev pub at_parent :
      (Bytes → Store F → Store F × Bool) → Store F → Option (List Bytes) → Written F
  at_parent f s none = fault
  at_parent f s (some []) = fault
  at_parent f s (some (k ∷ ks)) =
      let (parents, key) = cut_last k ks in write_at (f key) s (join parents)

  -- `setStorePath`
  unfoldable pub set_store_path : Store F → Bytes → Store F → Written F
  unfolding split_store_path cut_last write_at set_in join
  set_store_path s path value =
      at_parent (λ key. set_in key value) s (split_store_path (truncated path))

  -- `deleteStorePath`, which does not copy the path to a buffer
  unfoldable pub delete_store_path : Store F → Bytes → Written F
  unfolding split_store_path cut_last write_at delete_in join
  delete_store_path s path = at_parent delete_in s (split_store_path path)
