-- ===== src/Store/Clone.antt =====
-- src/modules/store/clone.c
use kalisko.Base.{◌≡◌, refl, none, Bytes, arith, ◌∙◌, ap, bytes_eq_iff, sym}
use kalisko.Store.Value.{
  Store, Items, Nodes, string, integer, float_number, list, array, nil, cons, empty, node,
}
use kalisko.Store.Value.Tables.{lookup, insert, push_tail, Distinct, lookup-insert}

-- `cloneStore`; the second arguments of the loops are the queue and the table of the clone.
unfoldable mutual
  pub clone_store : {F : Type 0} → Store F → Store F
  clone_store (array ns) = array (clone_nodes ns empty)
  clone_store (list vs) = list (clone_items vs nil)
  clone_store (string s) = string s
  clone_store (integer i) = integer i
  clone_store (float_number x) = float_number x

  pub clone_items : {F : Type 0} → Items F → Items F → Items F
  clone_items nil clone = clone
  clone_items (cons v vs) clone = clone_items vs (push_tail clone (clone_store v))

  pub clone_nodes : {F : Type 0} → Nodes F → Nodes F → Nodes F
  clone_nodes empty target = target
  clone_nodes (node k v ns) target = clone_nodes ns (insert k (clone_store v) target)

-- Every table in the store has distinct keys, as a `GHashTable` has.
abbrev mutual
  pub IsTree : {F : Type 0} → Store F → Type 0
  IsTree (array ns) = Distinct ns × AreNodes ns
  IsTree (list vs) = AreItems vs
  IsTree (string s) = Unit
  IsTree (integer i) = Unit
  IsTree (float_number x) = Unit

  pub AreItems : {F : Type 0} → Items F → Type 0
  AreItems nil = Unit
  AreItems (cons v vs) = IsTree v × AreItems vs

  pub AreNodes : {F : Type 0} → Nodes F → Type 0
  AreNodes empty = Unit
  AreNodes (node k v ns) = IsTree v × AreNodes ns

module _ {F : Type 0} where
  abbrev pub append_items : Items F → Items F → Items F
  append_items nil ws = ws
  append_items (cons v vs) ws = cons v (append_items vs ws)

  abbrev pub append_nodes : Nodes F → Nodes F → Nodes F
  append_nodes empty ms = ms
  append_nodes (node k v ns) ms = node k v (append_nodes ns ms)

  pub append_items-push_tail :
      (us : Items F) (v : Store F) (vs : Items F)
      → append_items (push_tail us v) vs ≡ append_items us (cons v vs)
  unfolding push_tail
  append_items-push_tail nil v vs = refl
  append_items-push_tail (cons u us) v vs = ap (cons u) (append_items-push_tail us v vs)

  pub append_items-nil : (vs : Items F) → append_items vs nil ≡ vs
  append_items-nil nil = refl
  append_items-nil (cons v vs) = ap (cons v) (append_items-nil vs)

  pub append_nodes-empty : (ns : Nodes F) → append_nodes ns empty ≡ ns
  append_nodes-empty empty = refl
  append_nodes-empty (node k v ns) = ap (node k v) (append_nodes-empty ns)

  pub insert_new :
      (ms : Nodes F) (k : Bytes) (v : Store F) (ns : Nodes F)
      → lookup k ms ≡ none
      → append_nodes (insert k v ms) ns ≡ append_nodes ms (node k v ns)
  unfolding insert lookup
  insert_new empty k v ns h = refl
  insert_new (node j w ms) k v ns h = ground (arith, insert_new ms k v ns)

  -- No key of the second table is in the first.
  abbrev pub Apart : Nodes F → Nodes F → Type 0
  Apart ms empty = Unit
  Apart ms (node k v ns) = (lookup k ms ≡ none) × Apart ms ns

  pub Apart-insert :
      (ms : Nodes F) (k : Bytes) (v : Store F) (ns : Nodes F)
      → lookup k ns ≡ none
      → Apart ms ns
      → Apart (insert k v ms) ns
  unfolding lookup
  Apart-insert ms k v empty h a = tt
  Apart-insert ms k v (node j w ns) h a =
      ground
        (arith, lookup-insert k j v ms, bytes_eq_iff k j, bytes_eq_iff j k, Apart-insert ms k v ns)

  pub Apart-empty : (ns : Nodes F) → Apart empty ns
  unfolding lookup
  Apart-empty empty = tt
  Apart-empty (node k v ns) = (refl, Apart-empty ns)

mutual
  unfolding clone_store

  clone_store_whole : {F : Type 0} (s : Store F) → IsTree s → clone_store s ≡ s
  clone_store_whole (array ns) h = ap array (clone_nodes_whole ns empty h.0 (Apart-empty ns) h.1)
  clone_store_whole (list vs) h = ap list (clone_items_whole vs nil h)
  clone_store_whole (string s) h = refl
  clone_store_whole (integer i) h = refl
  clone_store_whole (float_number x) h = refl

  clone_items_whole :
      {F : Type 0} (vs us : Items F) → AreItems vs → clone_items vs us ≡ append_items us vs
  clone_items_whole nil us h = sym (append_items-nil us)
  clone_items_whole (cons v vs) us h =
      rw (clone_store_whole v h.0)
        (clone_items_whole vs (push_tail us v) h.1 ∙ append_items-push_tail us v vs)

  clone_nodes_whole :
      {F : Type 0} (ns ms : Nodes F)
      → Distinct ns
      → Apart ms ns
      → AreNodes ns
      → clone_nodes ns ms ≡ append_nodes ms ns
  clone_nodes_whole empty ms d a h = sym (append_nodes-empty ms)
  clone_nodes_whole (node k v ns) ms d a h = rw (clone_store_whole v h.0) (
      clone_nodes_whole ns (insert k v ms) d.1 (Apart-insert ms k v ns d.0 a.1) h.1
      ∙ insert_new ms k v ns a.0)

-- cloneStore gives an equal store, if the keys of each table are distinct.
pub clone_store_lem : {F : Type 0} (s : Store F) → IsTree s → clone_store s ≡ s
clone_store_lem s h = clone_store_whole s h
