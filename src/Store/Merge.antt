-- ===== src/Store/Merge.antt =====
-- src/modules/store/merge.c: the target and the import are different stores.
use kalisko.Store.Clone.{
  clone_store, AreItems, append_items, append_items-nil, clone_store_lem, append_items-push_tail,
}
use kalisko.Store.Value.Tables.{push_tail, lookup, insert, Distinct, lookup-insert}
use kalisko.Base.{
  ◌≡◌, refl, none, some, Bool, true, false, Bytes, arith, Option, ◌↔◌, sym, ◌∙◌, Option-cases, inl,
  inr, bytes_eq_iff,
}
use kalisko.Store.Value.{Store, Items, Nodes, list, array, nil, cons, empty, node}

-- What the merge of a node's value gives, or the clone that replaces it if merging fails.
abbrev pub merged_or : {F : Type 0} → Store F → Store F × Bool → Store F
merged_or clone (target, true) = target
merged_or clone (target, false) = clone

-- `mergeStore`, with the target as it leaves it, and the loops of its two cases.
unfoldable mutual
  pub merge_store : {F : Type 0} → Store F → Store F → Store F × Bool
  merge_store (array target) (array ns) = (array (merge_nodes target ns), true)
  merge_store (list target) (list vs) = (list (merge_items target vs), true)
  merge_store target _ = (target, false)

  pub merge_items : {F : Type 0} → Items F → Items F → Items F
  merge_items target nil = target
  merge_items target (cons v vs) = merge_items (push_tail target (clone_store v)) vs

  -- `mergeIntoArray` for each node of the import.
  pub merge_nodes : {F : Type 0} → Nodes F → Nodes F → Nodes F
  merge_nodes target empty = target
  merge_nodes {F} target (node key value ns) =
      let merged : Store F = elim (lookup key target) [
        | none ↦ clone_store value
        | some candidate ↦ merged_or (clone_store value) (merge_store candidate value)
      ] in
      merge_nodes (insert key merged target) ns

module _ {F : Type 0} where
  -- What `mergeStore` leaves under a key, from what the target and the import have there.
  abbrev pub merged_value : Option (Store F) → Option (Store F) → Option (Store F)
  merged_value target none = target
  merged_value none (some value) = some (clone_store value)
  merged_value (some candidate) (some value) =
      some (merged_or (clone_store value) (merge_store candidate value))

  abbrev merged_with : Option (Store F) → Store F → Store F
  merged_with none value = clone_store value
  merged_with (some candidate) value = merged_or (clone_store value) (merge_store candidate value)

  merge_nodes-node :
      (target : Nodes F) (k : Bytes) (v : Store F) (ns : Nodes F)
      → merge_nodes target (node k v ns)
        ≡ merge_nodes (insert k (merged_with (lookup k target) v) target) ns
  merge_nodes-node target k v ns = elim (Option-cases (lookup k target)) [
    | inl e ↦ unfold merge_store in rw (e, merge_nodes)
    | inr (c, e) ↦ unfold merge_store in rw (e, merge_nodes)
  ]

  merged_value-node :
      (target : Nodes F) (j : Bytes) (v : Store F) (ns : Nodes F) (k : Bytes)
      → lookup j ns ≡ none
      → merged_value (lookup k (insert j (merged_with (lookup j target) v) target)) (lookup k ns)
        ≡ merged_value (lookup k target) (lookup k (node j v ns))
  unfolding lookup
  merged_value-node target j v ns k d =
      ground (arith, bytes_eq_iff j k, lookup-insert j k (merged_with (lookup j target) v) target)

  pub lookup-merge_nodes :
      (target ns : Nodes F) (k : Bytes)
      → Distinct ns
      → lookup k (merge_nodes target ns) ≡ merged_value (lookup k target) (lookup k ns)
  lookup-merge_nodes target empty k d = unfold merge_store lookup in refl
  lookup-merge_nodes target (node j v ns) k d = rw merge_nodes-node (
      lookup-merge_nodes (insert j (merged_with (lookup j target) v) target) ns k d.1
      ∙ merged_value-node target j v ns k d.0)

  -- mergeStore on two arrays succeeds and leaves under each key the value of the one that has it
  -- (the clone of that of the import), or the merge of the two values, or the clone of the
  -- import's where these do not merge, if the keys of the import are distinct.
  pub lookup-merge_store :
      (target ns : Nodes F) (k : Bytes)
      → Distinct ns
      → (ms : Nodes F) × (merge_store (array target) (array ns) ≡ (array ms, true))
        × (lookup k ms ≡ merged_value (lookup k target) (lookup k ns))
  lookup-merge_store target ns k d =
      (merge_nodes target ns, unfold merge_store in refl, lookup-merge_nodes target ns k d)

  merge_items-append :
      (target vs : Items F) → AreItems vs → merge_items target vs ≡ append_items target vs
  unfolding merge_store
  merge_items-append target nil h = sym (append_items-nil target)
  merge_items-append target (cons v vs) h =
      rw (clone_store_lem v h.0)
        (merge_items-append (push_tail target v) vs h.1 ∙ append_items-push_tail target v vs)

  -- mergeStore on two lists succeeds and appends the items of the import to those of the target,
  -- if the tables in the import have distinct keys.
  pub merge_store_lists :
      (target vs : Items F)
      → AreItems vs
      → merge_store (list target) (list vs) ≡ (list (append_items target vs), true)
  unfolding merge_store
  merge_store_lists target vs h = rw (merge_items-append target vs h)

abbrev pub IsContainer : {F : Type 0} → Store F → Store F → Type 0
IsContainer (array a) (array b) = Unit
IsContainer (list a) (list b) = Unit
IsContainer _ _ = ⊥

module _ {F : Type 0} where
  -- mergeStore succeeds exactly on two arrays and on two lists; where it fails it leaves the
  -- target alone.
  pub merge_store_succeeds :
      (target import : Store F)
      → (((merge_store target import).1 ≡ true) ↔ IsContainer target import)
        × ((merge_store target import).1 ≡ false → (merge_store target import).0 ≡ target)
  unfolding merge_store
  merge_store_succeeds target import = ground arith
