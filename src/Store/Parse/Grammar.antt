-- ===== src/Store/Parse/Grammar.antt =====
-- The parser reads the sentences of the grammar of src/modules/store/parser.y, and no others.
use kalisko.Base.{List, [], ◌∷◌, Option, none, some, ◌≡◌, refl, arith, ◌∙◌, sym, ap}
use kalisko.Store.Lexer.Yylex.{Token}
use kalisko.Store.Parse.{
  ValueTree, string_value, integer_value, float_value, no_list, of_list, no_array, of_array,
  ListTree, first_value, more_values, NodeTree, key_value, ArrayTree, first_node, more_nodes,
  RootTree, no_nodes, of_root, value_tokens, list_tokens, node_tokens, array_tokens, root_tokens,
  IsParser,
}
use kalisko.Store.Parse.Automaton.{
  Frame, in_node, in_list, State, body, keyed, assigned, elements, add_node, reduce, shift,
  shift_value, accept, parse_from, parse,
}

some_injective : {A : Type 0} {x y : A} → some x ≡ some y → x ≡ y
some_injective e = ground arith

module _ {F : Type 0} where
  -- The state in which the value of a frame is read.
  abbrev awaiting : Frame F → State F
  awaiting (in_node a k) = assigned a k
  awaiting (in_list l) = elements l

mutual
  unfolding parse_from shift value_tokens

  read_value :
      {F : Type 0} (v : ValueTree F) (f : Frame F) (fs : List (Frame F)) (ts : List (Token F))
      → parse_from (awaiting f) fs (value_tokens v ts) ≡ parse_from (reduce f v) fs ts
  read_value (string_value s) (in_node a k) fs ts = refl
  read_value (string_value s) (in_list l) fs ts = refl
  read_value (integer_value s) (in_node a k) fs ts = refl
  read_value (integer_value s) (in_list l) fs ts = refl
  read_value (float_value s) (in_node a k) fs ts = refl
  read_value (float_value s) (in_list l) fs ts = refl
  read_value no_list (in_node a k) fs ts = refl
  read_value no_list (in_list l) fs ts = refl
  read_value (of_list l) (in_node a k) fs ts = read_list l (in_node a k ∷ fs) (Token.char b')' ∷ ts)
  read_value (of_list l) (in_list m) fs ts = read_list l (in_list m ∷ fs) (Token.char b')' ∷ ts)
  read_value no_array (in_node a k) fs ts = refl
  read_value no_array (in_list l) fs ts = refl
  read_value (of_array b) (in_node a k) fs ts =
      read_array b (in_node a k ∷ fs) (Token.char b'}' ∷ ts)
  read_value (of_array b) (in_list m) fs ts = read_array b (in_list m ∷ fs) (Token.char b'}' ∷ ts)

  read_list :
      {F : Type 0} (l : ListTree F) (fs : List (Frame F)) (ts : List (Token F))
      → parse_from (elements none) fs (list_tokens l ts) ≡ parse_from (elements (some l)) fs ts
  read_list (first_value v) fs ts = read_value v (in_list none) fs ts
  read_list (more_values l v) fs ts =
      read_list l fs (value_tokens v ts) ∙ read_value v (in_list (some l)) fs ts

  read_node :
      {F : Type 0} (n : NodeTree F) (o : Option (ArrayTree F)) (fs : List (Frame F))
      (ts : List (Token F))
      → parse_from (body o) fs (node_tokens n ts) ≡ parse_from (body (some (add_node o n))) fs ts
  read_node (key_value k v) o fs ts = read_value v (in_node o k) fs ts

  read_array :
      {F : Type 0} (a : ArrayTree F) (fs : List (Frame F)) (ts : List (Token F))
      → parse_from (body none) fs (array_tokens a ts) ≡ parse_from (body (some a)) fs ts
  read_array (first_node n) fs ts = read_node n none fs ts
  read_array (more_nodes a n) fs ts =
      read_array a fs (node_tokens n ts) ∙ read_node n (some a) fs ts

-- The bracket that opens a frame's inner value.
abbrev opening : {F : Type 0} → State F → Token F
opening (elements l) = Token.char b'('
opening _ = Token.char b'{'

module _ {F : Type 0} where
  abbrev pub nodes_read : Option (ArrayTree F) → List (Token F) → List (Token F)
  nodes_read none ts = ts
  nodes_read (some a) ts = array_tokens a ts

  abbrev pub values_read : Option (ListTree F) → List (Token F) → List (Token F)
  values_read none ts = ts
  values_read (some l) ts = list_tokens l ts

  abbrev state_read : State F → List (Token F) → List (Token F)
  state_read (body a) ts = nodes_read a ts
  state_read (keyed a k) ts = nodes_read a (Token.string k ∷ ts)
  state_read (assigned a k) ts = nodes_read a (Token.string k ∷ Token.char b'=' ∷ ts)
  state_read (elements l) ts = values_read l ts

  -- The tokens read so far, with those that follow.
  abbrev whole : State F → List (Frame F) → List (Token F) → List (Token F)
  whole st [] ts = state_read st ts
  whole st (f ∷ fs) ts = whole (awaiting f) fs (opening st ∷ state_read st ts)

  whole_same :
      (st st' : State F) (fs : List (Frame F)) (ts ts' : List (Token F))
      → opening st ≡ opening st'
      → state_read st ts ≡ state_read st' ts'
      → whole st fs ts ≡ whole st' fs ts'
  whole_same st st' [] ts ts' o r = r
  whole_same st st' (f ∷ fs) ts ts' o r = rw (o, r) refl

  whole-reduce :
      (v : ValueTree F) (f : Frame F) (fs : List (Frame F)) (ts : List (Token F))
      → whole (awaiting f) fs (value_tokens v ts) ≡ whole (reduce f v) fs ts
  unfolding value_tokens
  whole-reduce v (in_node none k) fs ts = whole_same _ _ fs _ _ refl refl
  whole-reduce v (in_node (some a) k) fs ts = whole_same _ _ fs _ _ refl refl
  whole-reduce v (in_list none) fs ts = whole_same _ _ fs _ _ refl refl
  whole-reduce v (in_list (some l)) fs ts = whole_same _ _ fs _ _ refl refl

  shift_value-whole :
      (f : Frame F) (st' : State F) (fs fs' : List (Frame F)) (t : Token F) (ts : List (Token F))
      → shift_value f fs t ≡ some (st', fs')
      → whole (awaiting f) fs (t ∷ ts) ≡ whole st' fs' ts
  unfolding value_tokens
  shift_value-whole f st' fs fs' (Token.string s) ts e =
      ground (arith, whole-reduce (string_value s) f fs ts)
  shift_value-whole f st' fs fs' (Token.integer i) ts e =
      ground (arith, whole-reduce (integer_value i) f fs ts)
  shift_value-whole f st' fs fs' (Token.float_number x) ts e =
      ground (arith, whole-reduce (float_value x) f fs ts)
  shift_value-whole f st' fs fs' t ts e = ground arith

  shift-whole :
      (st st' : State F) (fs fs' : List (Frame F)) (t : Token F) (ts : List (Token F))
      → shift st fs t ≡ some (st', fs')
      → whole st fs (t ∷ ts) ≡ whole st' fs' ts
  unfolding shift value_tokens
  shift-whole (assigned a k) st' fs fs' t ts e = shift_value-whole (in_node a k) st' fs fs' t ts e
  shift-whole (keyed a k) st' fs fs' t ts e =
      ground (arith, whole_same (keyed a k) (assigned a k) fs (Token.char b'=' ∷ ts) ts refl refl)
  shift-whole (body a) st' [] fs' t ts e = ground arith
  shift-whole (body none) st' (f ∷ fs) fs' t ts e = ground (arith, whole-reduce no_array f fs ts)
  shift-whole (body (some a)) st' (f ∷ fs) fs' t ts e =
      ground (arith, whole-reduce (of_array a) f fs ts)
  shift-whole (elements l) st' [] fs' t ts e =
      ground (arith, shift_value-whole (in_list l) st' [] fs' t ts)
  shift-whole (elements none) st' (f ∷ fs) fs' t ts e =
      ground (
        arith,
        whole-reduce no_list f fs ts,
        shift_value-whole (in_list none) st' (f ∷ fs) fs' t ts,
      )
  shift-whole (elements (some l)) st' (f ∷ fs) fs' t ts e = ground (
    arith,
    whole-reduce (of_list l) f fs ts,
    shift_value-whole (in_list (some l)) st' (f ∷ fs) fs' t ts,
  )

  accept-whole :
      (st : State F) (fs : List (Frame F)) (r : RootTree F)
      → accept st fs ≡ some r
      → whole st fs [] ≡ root_tokens r
  unfolding accept root_tokens
  accept-whole st fs r e = ground arith

  parse_from-whole :
      (ts : List (Token F)) (st : State F) (fs : List (Frame F)) (r : RootTree F)
      → parse_from st fs ts ≡ some r
      → whole st fs ts ≡ root_tokens r
  unfolding parse_from
  parse_from-whole [] st fs r e = accept-whole st fs r e
  parse_from-whole (t ∷ ts) st fs r e =
      after (shift st fs t) refl (λ st' fs' e'. parse_from-whole ts st' fs' r e')
    where
      after :
          (o : Option (State F × List (Frame F)))
          → shift st fs t ≡ o
          → ((st' : State F) (fs' : List (Frame F))
              → parse_from st' fs' ts ≡ some r
              → whole st' fs' ts ≡ root_tokens r)
          → whole st fs (t ∷ ts) ≡ root_tokens r
      after none q ih = absurd (ground arith)
      after (some (st', fs')) q ih = shift-whole st st' fs fs' t ts q ∙ ih st' fs' (ground arith)

  pub parse_tokens : (r : RootTree F) → parse (root_tokens r) ≡ some r
  unfolding parse root_tokens parse_from accept
  parse_tokens no_nodes = refl
  parse_tokens (of_root a) = read_array a [] []

  -- The automaton is a parser of the grammar.
  pub parse-IsParser : IsParser {F = F} parse
  unfolding parse
  parse-IsParser ts r =
      (λ e. sym (parse_from-whole ts (body none) [] r e), λ e. rw (← e) (parse_tokens r))

  -- The grammar of stores is not ambiguous: two parse trees with the same tokens are equal.
  pub root_tokens_unambiguous : (r s : RootTree F) → root_tokens r ≡ root_tokens s → r ≡ s
  root_tokens_unambiguous r s e =
      some_injective (sym (parse_tokens r) ∙ ap parse e ∙ parse_tokens s)
