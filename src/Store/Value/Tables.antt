-- ===== src/Store/Value/Tables.antt =====
-- The operations of `GQueue` and `GHashTable` that src/modules/store uses, on their contents.
use kalisko.Base.{
  ℕ, zero, suc, ◌≡◌, refl, Option, none, some, Bytes, bytes_eq, bytes_eq_iff, if◌then◌else◌, arith,
  ap,
}
use kalisko.Store.Value.{Store, Items, Nodes, nil, cons, empty, node}

module _ {F : Type 0} where
  -- `g_queue_get_length`
  abbrev pub size : Items F → ℕ
  size nil = 0
  size (cons v vs) = suc (size vs)

  -- `g_queue_peek_nth`
  unfoldable pub nth : Items F → ℕ → Option (Store F)
  nth nil i = none
  nth (cons v vs) zero = some v
  nth (cons v vs) (suc i) = nth vs i

  -- `g_queue_push_tail`
  unfoldable pub push_tail : Items F → Store F → Items F
  push_tail nil v = cons v nil
  push_tail (cons w ws) v = cons w (push_tail ws v)

  -- `g_queue_push_nth` at a position within the queue, or beyond its end
  unfoldable pub push_nth : Items F → ℕ → Store F → Items F
  push_nth vs zero v = cons v vs
  push_nth nil (suc i) v = cons v nil
  push_nth (cons w ws) (suc i) v = cons w (push_nth ws i v)

  -- The queue behind `g_queue_pop_nth`.
  unfoldable pub without_nth : Items F → ℕ → Items F
  without_nth nil i = nil
  without_nth (cons v vs) zero = vs
  without_nth (cons v vs) (suc i) = cons v (without_nth vs i)

  -- A write through the pointer that `g_queue_peek_nth` returned.
  unfoldable pub set_nth : Items F → ℕ → Store F → Items F
  set_nth nil i v = nil
  set_nth (cons w ws) zero v = cons v ws
  set_nth (cons w ws) (suc i) v = cons w (set_nth ws i v)

  -- `g_hash_table_lookup`
  unfoldable pub lookup : Bytes → Nodes F → Option (Store F)
  lookup k empty = none
  lookup k (node j v ns) = if bytes_eq j k then some v else lookup k ns

  -- `g_hash_table_insert` and `g_hash_table_replace`
  unfoldable pub insert : Bytes → Store F → Nodes F → Nodes F
  insert k v empty = node k v empty
  insert k v (node j w ns) = if bytes_eq j k then node k v ns else node j w (insert k v ns)

  -- `g_hash_table_remove`
  unfoldable pub remove : Bytes → Nodes F → Nodes F
  remove k empty = empty
  remove k (node j v ns) = if bytes_eq j k then ns else node j v (remove k ns)

  -- The keys are distinct.
  abbrev pub Distinct : Nodes F → Type 0
  Distinct empty = Unit
  Distinct (node k v ns) = (lookup k ns ≡ none) × Distinct ns

  pub lookup-insert :
      (k j : Bytes) (v : Store F) (ns : Nodes F)
      → lookup j (insert k v ns) ≡ (if bytes_eq k j then some v else lookup j ns)
  unfolding lookup insert
  lookup-insert k j v empty = refl
  lookup-insert k j v (node i w ns) =
      ground (arith, bytes_eq_iff k j, bytes_eq_iff i k, bytes_eq_iff i j, lookup-insert k j v ns)

  pub lookup-remove :
      (k j : Bytes) (ns : Nodes F)
      → Distinct ns
      → lookup j (remove k ns) ≡ (if bytes_eq k j then none else lookup j ns)
  unfolding lookup remove
  lookup-remove k j empty d = ground arith
  lookup-remove k j (node i w ns) d =
      ground (arith, bytes_eq_iff k j, bytes_eq_iff i k, bytes_eq_iff i j, lookup-remove k j ns d.1)

  pub insert-Distinct :
      (k : Bytes) (v : Store F) (ns : Nodes F) → Distinct ns → Distinct (insert k v ns)
  unfolding insert
  insert-Distinct k v empty d = unfold lookup in (refl, tt)
  insert-Distinct k v (node i w ns) d = ground (
    arith,
    bytes_eq_iff i k,
    bytes_eq_iff k i,
    lookup-insert k i v ns,
    insert-Distinct k v ns d.1,
  )

  pub remove-Distinct : (k : Bytes) (ns : Nodes F) → Distinct ns → Distinct (remove k ns)
  unfolding remove
  remove-Distinct k empty d = tt
  remove-Distinct k (node i w ns) d = ground (
    arith,
    bytes_eq_iff i k,
    bytes_eq_iff k i,
    lookup-remove k i ns d.1,
    remove-Distinct k ns d.1,
  )

  pub nth-set_nth :
      (vs : Items F) (i : ℕ) (v : Store F) {w : Store F}
      → nth vs i ≡ some w
      → nth (set_nth vs i v) i ≡ some v
  unfolding nth set_nth
  nth-set_nth nil i v h = ground arith
  nth-set_nth (cons u us) zero v h = refl
  nth-set_nth (cons u us) (suc i) v h = nth-set_nth us i v h

  pub size-set_nth : (vs : Items F) (i : ℕ) (v : Store F) → size (set_nth vs i v) ≡ size vs
  unfolding set_nth
  size-set_nth nil i v = refl
  size-set_nth (cons u us) zero v = refl
  size-set_nth (cons u us) (suc i) v = ap suc (size-set_nth us i v)
