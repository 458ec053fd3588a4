-- ===== src/Store/Parse.antt =====
-- src/modules/store/parser.y and src/modules/store/parse.c: the grammar of a store with its
-- actions, and the function that parses a string. `yyparse`, which Bison makes from the grammar, is
-- a parameter.
pub mod Automaton
pub mod Grammar
pub mod Stored
pub mod Input
pub mod RoundTrip
mod Tests
use kalisko.Base.{
  ℕ, zero, suc, List, [], ◌∷◌, ◌++◌, Option, none, some, ◌==◌, if◌then◌else◌, Bytes, length, ◌≡◌,
  ◌↔◌,
}
use kalisko.Base.Int.{ℤ}
use kalisko.Store.Value.{Store, Items, Nodes, nil, cons, empty}
use kalisko.Store.Value.Tables.{push_tail, insert}
use kalisko.Store.Lexer.Yylex.{Token, Location, yylex, Results, results, lexed, Lexed, push}

-- The productions of `value`, `list`, `node` and `array`: a parse tree for each.
mutual
  pub data ValueTree (F : Type 0) : Type 0 where
    string_value : Bytes → ValueTree F
    integer_value : ℤ → ValueTree F
    float_value : F → ValueTree F
    no_list : ValueTree F
    of_list : ListTree F → ValueTree F
    no_array : ValueTree F
    of_array : ArrayTree F → ValueTree F

  pub data ListTree (F : Type 0) : Type 0 where
    first_value : ValueTree F → ListTree F
    more_values : ListTree F → ValueTree F → ListTree F

  pub data NodeTree (F : Type 0) : Type 0 where
    key_value : Bytes → ValueTree F → NodeTree F

  pub data ArrayTree (F : Type 0) : Type 0 where
    first_node : NodeTree F → ArrayTree F
    more_nodes : ArrayTree F → NodeTree F → ArrayTree F

-- The productions of `root`.
pub data RootTree (F : Type 0) : Type 0 where
  no_nodes : RootTree F
  of_root : ArrayTree F → RootTree F

-- The right sides of the productions: the tokens of a tree, with those that follow.
unfoldable mutual
  pub value_tokens : {F : Type 0} → ValueTree F → List (Token F) → List (Token F)
  value_tokens (string_value s) ts = Token.string s ∷ ts
  value_tokens (integer_value i) ts = Token.integer i ∷ ts
  value_tokens (float_value x) ts = Token.float_number x ∷ ts
  value_tokens no_list ts = Token.char b'(' ∷ Token.char b')' ∷ ts
  value_tokens (of_list l) ts = Token.char b'(' ∷ list_tokens l (Token.char b')' ∷ ts)
  value_tokens no_array ts = Token.char b'{' ∷ Token.char b'}' ∷ ts
  value_tokens (of_array a) ts = Token.char b'{' ∷ array_tokens a (Token.char b'}' ∷ ts)

  pub list_tokens : {F : Type 0} → ListTree F → List (Token F) → List (Token F)
  list_tokens (first_value v) ts = value_tokens v ts
  list_tokens (more_values l v) ts = list_tokens l (value_tokens v ts)

  pub node_tokens : {F : Type 0} → NodeTree F → List (Token F) → List (Token F)
  node_tokens (key_value k v) ts = Token.string k ∷ Token.char b'=' ∷ value_tokens v ts

  pub array_tokens : {F : Type 0} → ArrayTree F → List (Token F) → List (Token F)
  array_tokens (first_node n) ts = node_tokens n ts
  array_tokens (more_nodes a n) ts = array_tokens a (node_tokens n ts)

unfoldable pub root_tokens : {F : Type 0} → RootTree F → List (Token F)
unfolding array_tokens
root_tokens no_nodes = []
root_tokens (of_root a) = array_tokens a []

-- The actions of the productions, `$$`. The action of `node` has its key and value.
unfoldable mutual
  unfolding push_tail insert

  pub value_action : {F : Type 0} → ValueTree F → Store F
  value_action (string_value s) = Store.string s
  value_action (integer_value i) = Store.integer i
  value_action (float_value x) = Store.float_number x
  value_action no_list = Store.list nil
  value_action (of_list l) = Store.list (list_action l)
  value_action no_array = Store.array empty
  value_action (of_array a) = Store.array (array_action a)

  pub list_action : {F : Type 0} → ListTree F → Items F
  list_action (first_value v) = cons (value_action v) nil
  list_action (more_values l v) = push_tail (list_action l) (value_action v)

  pub node_action : {F : Type 0} → NodeTree F → Nodes F → Nodes F
  node_action (key_value k v) table = insert k (value_action v) table

  pub array_action : {F : Type 0} → ArrayTree F → Nodes F
  array_action (first_node n) = node_action n empty
  array_action (more_nodes a n) = node_action n (array_action a)

unfoldable pub root_action : {F : Type 0} → RootTree F → Store F
unfolding array_action
root_action no_nodes = Store.array empty
root_action (of_root a) = Store.array (array_action a)

-- What the documentation of Bison says of the parser that it makes: it accepts the sentences of
-- the grammar and no others, and runs the actions of their parse trees.
abbrev pub IsParser : {F : Type 0} → (List (Token F) → Option (RootTree F)) → Type 0
IsParser {F} parser =
    (ts : List (Token F)) (r : RootTree F) → (parser ts ≡ some r) ↔ (root_tokens r ≡ ts)

-- What `parseStoreString` returns: the store, or `NULL` where `yyparse` does not return 0.
pub data Parsed (F : Type 0) : Type 0 where
  parsed : Store F → Parsed F
  rejected : Parsed F
  fault : Parsed F
  out_of_fuel : Parsed F

module _ {F : Type 0} where
  abbrev pub parsed_tree : Option (RootTree F) → Parsed F
  parsed_tree none = rejected
  parsed_tree (some t) = parsed (root_action t)

module _ {F : Type 0} (atof : Bytes → F) where
  -- The tokens that `yyparse` reads. It takes a number below 1 for the end of the input: token 0,
  -- and the token -1 of an error as well.
  unfoldable pub input_tokens : ℕ → Location → Bytes → Results F
  unfolding yylex
  input_tokens zero loc r = Results.out_of_fuel
  input_tokens (suc n) loc r = elim (yylex atof loc r) [
    | lexed Token.eof loc' r' ↦ results []
    | lexed (Token.error e) loc' r' ↦ results []
    | lexed t loc' r' ↦ push t (input_tokens n loc' r')
    | Lexed.fault ↦ Results.fault
    | Lexed.out_of_fuel ↦ Results.out_of_fuel
  ]

-- The parser that Bison makes is the parameter.
module _ {F : Type 0} (parser : List (Token F) → Option (RootTree F)) where
  -- `yyparse`, on the tokens that it reads.
  unfoldable pub yyparse : Results F → Parsed F
  unfolding root_action
  yyparse (results ts) = parsed_tree (parser ts)
  yyparse Results.fault = Parsed.fault
  yyparse Results.out_of_fuel = Parsed.out_of_fuel

  -- `parseStoreString`, on a string and its terminating NUL. Bison starts at line 1, column 1.
  unfoldable pub parse_store_string : (Bytes → F) → Bytes → Parsed F
  unfolding input_tokens yyparse
  parse_store_string atof s = yyparse (
      input_tokens atof (suc (suc (length s))) (record { last_line = 1; last_column = 1 })
        (s ++ 0 ∷ []))

  -- `parseStoreFile`, on the bytes of a file, `none` where it cannot be opened, and the `EOF` that
  -- `storeFileRead` answers behind them, which is the character 255. The file has no such byte
  -- itself, which `storeFileUnread` would not give back.
  unfoldable pub parse_store_file : (Bytes → F) → Option Bytes → Parsed F
  unfolding input_tokens yyparse
  parse_store_file atof none = rejected
  parse_store_file atof (some text) = yyparse (
      input_tokens atof (suc (suc (length text))) (record { last_line = 1; last_column = 1 })
        (text ++ 255 ∷ []))
