-- ===== src/Store/Parse/Stored.antt =====
-- A store as the tokens of its text, and what the grammar makes of them.
use kalisko.Base.{List, [], ◌∷◌, Option, none, some, ◌≡◌, refl, Bytes, ap, ◌∙◌, sym}
use kalisko.Store.Value.{
  Store, Items, Nodes, string, integer, float_number, list, array, nil, cons, empty, node,
}
use kalisko.Store.Value.Tables.{push_tail, insert, Distinct}
use kalisko.Store.Clone.{
  IsTree, AreItems, AreNodes, append_items, append_nodes, append_items-push_tail, insert_new, Apart,
  Apart-insert, Apart-empty, append_items-nil, append_nodes-empty,
}
use kalisko.Store.Lexer.Yylex.{Token}
use kalisko.Store.Parse.{
  ValueTree, string_value, integer_value, float_value, ListTree, key_value, ArrayTree, RootTree,
  no_nodes, of_root, value_tokens, root_tokens, value_action, list_action, array_action,
  root_action, parsed, parsed_tree, IsParser,
}
use kalisko.Store.Parse.Automaton.{add_node, add_value, end_list, end_array}
use kalisko.Store.Parse.Grammar.{values_read, nodes_read}

-- The tokens of a store, with those that follow.
unfoldable mutual
  pub store_tokens : {F : Type 0} → Store F → List (Token F) → List (Token F)
  store_tokens (string s) ts = Token.string s ∷ ts
  store_tokens (integer i) ts = Token.integer i ∷ ts
  store_tokens (float_number x) ts = Token.float_number x ∷ ts
  store_tokens (list vs) ts = Token.char b'(' ∷ items_tokens vs (Token.char b')' ∷ ts)
  store_tokens (array ns) ts = Token.char b'{' ∷ nodes_tokens ns (Token.char b'}' ∷ ts)

  pub items_tokens : {F : Type 0} → Items F → List (Token F) → List (Token F)
  items_tokens nil ts = ts
  items_tokens (cons v vs) ts = store_tokens v (items_tokens vs ts)

  pub nodes_tokens : {F : Type 0} → Nodes F → List (Token F) → List (Token F)
  nodes_tokens empty ts = ts
  nodes_tokens (node k v ns) ts =
      Token.string k ∷ Token.char b'=' ∷ store_tokens v (nodes_tokens ns ts)

-- The parse tree of those tokens; the second arguments are the trees so far.
unfoldable mutual
  store_tree : {F : Type 0} → Store F → ValueTree F
  store_tree (string s) = string_value s
  store_tree (integer i) = integer_value i
  store_tree (float_number x) = float_value x
  store_tree (list vs) = end_list (items_tree vs none)
  store_tree (array ns) = end_array (nodes_tree ns none)

  items_tree : {F : Type 0} → Items F → Option (ListTree F) → Option (ListTree F)
  items_tree nil o = o
  items_tree (cons v vs) o = items_tree vs (some (add_value o (store_tree v)))

  nodes_tree : {F : Type 0} → Nodes F → Option (ArrayTree F) → Option (ArrayTree F)
  nodes_tree empty o = o
  nodes_tree (node k v ns) o = nodes_tree ns (some (add_node o (key_value k (store_tree v))))

module _ {F : Type 0} where
  abbrev root_of : Option (ArrayTree F) → RootTree F
  root_of none = no_nodes
  root_of (some a) = of_root a

  abbrev values : Option (ListTree F) → Items F
  values none = nil
  values (some l) = list_action l

  abbrev table : Option (ArrayTree F) → Nodes F
  table none = empty
  table (some a) = array_action a

  list_tokens_closed :
      (o : Option (ListTree F)) (ts : List (Token F))
      → value_tokens (end_list o) ts ≡ Token.char b'(' ∷ values_read o (Token.char b')' ∷ ts)
  unfolding value_tokens
  list_tokens_closed none ts = refl
  list_tokens_closed (some l) ts = refl

  array_tokens_closed :
      (o : Option (ArrayTree F)) (ts : List (Token F))
      → value_tokens (end_array o) ts ≡ Token.char b'{' ∷ nodes_read o (Token.char b'}' ∷ ts)
  unfolding value_tokens
  array_tokens_closed none ts = refl
  array_tokens_closed (some a) ts = refl

  values_read_more :
      (o : Option (ListTree F)) (v : ValueTree F) (ts : List (Token F))
      → values_read (some (add_value o v)) ts ≡ values_read o (value_tokens v ts)
  unfolding value_tokens
  values_read_more none v ts = refl
  values_read_more (some l) v ts = refl

  nodes_read_more :
      (o : Option (ArrayTree F)) (k : Bytes) (v : ValueTree F) (ts : List (Token F))
      → nodes_read (some (add_node o (key_value k v))) ts
        ≡ nodes_read o (Token.string k ∷ Token.char b'=' ∷ value_tokens v ts)
  unfolding value_tokens
  nodes_read_more none k v ts = refl
  nodes_read_more (some a) k v ts = refl

  root_tokens_read : (o : Option (ArrayTree F)) → root_tokens (root_of o) ≡ nodes_read o []
  unfolding root_tokens
  root_tokens_read none = refl
  root_tokens_read (some a) = refl

  list_action_closed : (o : Option (ListTree F)) → value_action (end_list o) ≡ list (values o)
  unfolding value_action
  list_action_closed none = refl
  list_action_closed (some l) = refl

  array_action_closed : (o : Option (ArrayTree F)) → value_action (end_array o) ≡ array (table o)
  unfolding value_action
  array_action_closed none = refl
  array_action_closed (some a) = refl

  values_more :
      (o : Option (ListTree F)) (v : ValueTree F)
      → values (some (add_value o v)) ≡ push_tail (values o) (value_action v)
  unfolding value_action push_tail
  values_more none v = refl
  values_more (some l) v = refl

  table_more :
      (o : Option (ArrayTree F)) (k : Bytes) (v : ValueTree F)
      → table (some (add_node o (key_value k v))) ≡ insert k (value_action v) (table o)
  unfolding value_action insert
  table_more none k v = refl
  table_more (some a) k v = refl

  root_action-table : (o : Option (ArrayTree F)) → root_action (root_of o) ≡ array (table o)
  unfolding root_action
  root_action-table none = refl
  root_action-table (some a) = refl

mutual
  unfolding store_tokens store_tree value_tokens

  store_tree_tokens :
      {F : Type 0} (s : Store F) (ts : List (Token F))
      → value_tokens (store_tree s) ts ≡ store_tokens s ts
  store_tree_tokens (string s) ts = refl
  store_tree_tokens (integer i) ts = refl
  store_tree_tokens (float_number x) ts = refl
  store_tree_tokens (list vs) ts =
      list_tokens_closed (items_tree vs none) ts
      ∙ ap (◌∷◌ (Token.char b'(')) (items_tree_tokens vs none (Token.char b')' ∷ ts))
  store_tree_tokens (array ns) ts =
      array_tokens_closed (nodes_tree ns none) ts
      ∙ ap (◌∷◌ (Token.char b'{')) (nodes_tree_tokens ns none (Token.char b'}' ∷ ts))

  items_tree_tokens :
      {F : Type 0} (vs : Items F) (o : Option (ListTree F)) (ts : List (Token F))
      → values_read (items_tree vs o) ts ≡ values_read o (items_tokens vs ts)
  items_tree_tokens nil o ts = refl
  items_tree_tokens (cons v vs) o ts =
      items_tree_tokens vs (some (add_value o (store_tree v))) ts
      ∙ values_read_more o (store_tree v) (items_tokens vs ts)
      ∙ ap (values_read o) (store_tree_tokens v (items_tokens vs ts))

  nodes_tree_tokens :
      {F : Type 0} (ns : Nodes F) (o : Option (ArrayTree F)) (ts : List (Token F))
      → nodes_read (nodes_tree ns o) ts ≡ nodes_read o (nodes_tokens ns ts)
  nodes_tree_tokens empty o ts = refl
  nodes_tree_tokens (node k v ns) o ts =
      nodes_tree_tokens ns (some (add_node o (key_value k (store_tree v)))) ts
      ∙ nodes_read_more o k (store_tree v) (nodes_tokens ns ts)
      ∙ ap (λ us. nodes_read o (Token.string k ∷ Token.char b'=' ∷ us))
          (store_tree_tokens v (nodes_tokens ns ts))

mutual
  unfolding store_tree value_action

  store_tree_action : {F : Type 0} (s : Store F) → IsTree s → value_action (store_tree s) ≡ s
  store_tree_action (string s) h = refl
  store_tree_action (integer i) h = refl
  store_tree_action (float_number x) h = refl
  store_tree_action (list vs) h =
      list_action_closed (items_tree vs none) ∙ ap list (values-items_tree vs none h)
  store_tree_action (array ns) h =
      array_action_closed (nodes_tree ns none)
      ∙ ap array (table-nodes_tree ns none h.0 (Apart-empty ns) h.1)

  values-items_tree :
      {F : Type 0} (vs : Items F) (o : Option (ListTree F))
      → AreItems vs
      → values (items_tree vs o) ≡ append_items (values o) vs
  values-items_tree nil o h = sym (append_items-nil (values o))
  values-items_tree (cons v vs) o h =
      values-items_tree vs (some (add_value o (store_tree v))) h.1
      ∙ ap (λ us. append_items us vs)
          (values_more o (store_tree v) ∙ ap (push_tail (values o)) (store_tree_action v h.0))
      ∙ append_items-push_tail (values o) v vs

  table-nodes_tree :
      {F : Type 0} (ns : Nodes F) (o : Option (ArrayTree F))
      → Distinct ns
      → Apart (table o) ns
      → AreNodes ns
      → table (nodes_tree ns o) ≡ append_nodes (table o) ns
  table-nodes_tree empty o d a h = sym (append_nodes-empty (table o))
  table-nodes_tree (node k v ns) o d a h =
      let grown =
        table_more o k (store_tree v) ∙ ap (λ w. insert k w (table o)) (store_tree_action v h.0) in
      table-nodes_tree ns (some (add_node o (key_value k (store_tree v)))) d.1
        (rw grown (Apart-insert (table o) k v ns d.0 a.1)) h.1
      ∙ ap (λ ms. append_nodes ms ns) grown
      ∙ insert_new (table o) k v ns a.0

-- A parser of the grammar makes the nodes of an array from their tokens, if the keys of each table
-- are distinct.
pub parse-nodes_tokens :
    {F : Type 0} (parser : List (Token F) → Option (RootTree F)) (ns : Nodes F)
    → IsParser parser
    → IsTree (array ns)
    → parsed_tree (parser (nodes_tokens ns [])) ≡ parsed (array ns)
unfolding store_tree
parse-nodes_tokens parser ns p h =
    let o = nodes_tree ns none in
    let same : root_tokens (root_of o) ≡ nodes_tokens ns [] =
      root_tokens_read o ∙ nodes_tree_tokens ns none [] in
    rw (((p (nodes_tokens ns []) (root_of o)).1 same), root_action-table o)
      (ap (λ ms. parsed (array ms)) (table-nodes_tree ns none h.0 (Apart-empty ns) h.1))
