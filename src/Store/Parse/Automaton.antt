-- ===== src/Store/Parse/Automaton.antt =====
-- A parser of the grammar of src/modules/store/parser.y, which shows that there is one: an
-- automaton with a stack, as Bison makes it.
use kalisko.Base.{List, [], ◌∷◌, Option, none, some, ◌==◌, if◌then◌else◌, Bytes}
use kalisko.Store.Lexer.Yylex.{Token}
use kalisko.Store.Parse.{
  ValueTree, string_value, integer_value, float_value, no_list, of_list, no_array, of_array,
  ListTree, first_value, more_values, NodeTree, key_value, ArrayTree, first_node, more_nodes,
  RootTree, no_nodes, of_root,
}

-- What is open while an inner value is read: an array with a key, or a list.
pub data Frame (F : Type 0) : Type 0 where
  in_node : Option (ArrayTree F) → Bytes → Frame F
  in_list : Option (ListTree F) → Frame F

-- Where the parser stands: behind the nodes of an array, behind a key, behind `=`, or behind the
-- values of a list.
pub data State (F : Type 0) : Type 0 where
  body : Option (ArrayTree F) → State F
  keyed : Option (ArrayTree F) → Bytes → State F
  assigned : Option (ArrayTree F) → Bytes → State F
  elements : Option (ListTree F) → State F

module _ {F : Type 0} where
  abbrev pub add_node : Option (ArrayTree F) → NodeTree F → ArrayTree F
  add_node none n = first_node n
  add_node (some a) n = more_nodes a n

  abbrev pub add_value : Option (ListTree F) → ValueTree F → ListTree F
  add_value none v = first_value v
  add_value (some l) v = more_values l v

  abbrev pub end_list : Option (ListTree F) → ValueTree F
  end_list none = no_list
  end_list (some l) = of_list l

  abbrev pub end_array : Option (ArrayTree F) → ValueTree F
  end_array none = no_array
  end_array (some a) = of_array a

  -- A value is complete.
  abbrev pub reduce : Frame F → ValueTree F → State F
  reduce (in_node a k) v = body (some (add_node a (key_value k v)))
  reduce (in_list l) v = elements (some (add_value l v))

  abbrev reduce_top : List (Frame F) → ValueTree F → Option (State F × List (Frame F))
  reduce_top [] v = none
  reduce_top (f ∷ fs) v = some (reduce f v, fs)

  -- A token where a value may start.
  abbrev pub shift_value : Frame F → List (Frame F) → Token F → Option (State F × List (Frame F))
  shift_value f fs (Token.string s) = some (reduce f (string_value s), fs)
  shift_value f fs (Token.integer i) = some (reduce f (integer_value i), fs)
  shift_value f fs (Token.float_number x) = some (reduce f (float_value x), fs)
  shift_value f fs (Token.char c) =
      if c == b'('
      then some (elements none, f ∷ fs)
      else if c == b'{'
      then some (body none, f ∷ fs)
      else none
  shift_value f fs _ = none

  abbrev shift_list :
      Option (ListTree F) → List (Frame F) → Token F → Option (State F × List (Frame F))
  shift_list l fs (Token.char c) =
      if c == b')' then reduce_top fs (end_list l) else shift_value (in_list l) fs (Token.char c)
  shift_list l fs t = shift_value (in_list l) fs t

  abbrev shift_body :
      Option (ArrayTree F) → List (Frame F) → Token F → Option (State F × List (Frame F))
  shift_body a fs (Token.string k) = some (keyed a k, fs)
  shift_body a fs (Token.char c) = if c == b'}' then reduce_top fs (end_array a) else none
  shift_body a fs _ = none

  abbrev shift_keyed :
      Option (ArrayTree F) → Bytes → List (Frame F) → Token F → Option (State F × List (Frame F))
  shift_keyed a k fs (Token.char c) = if c == b'=' then some (assigned a k, fs) else none
  shift_keyed a k fs _ = none

  -- One token; `none` is a syntax error.
  unfoldable pub shift : State F → List (Frame F) → Token F → Option (State F × List (Frame F))
  shift (body a) fs t = shift_body a fs t
  shift (keyed a k) fs t = shift_keyed a k fs t
  shift (assigned a k) fs t = shift_value (in_node a k) fs t
  shift (elements l) fs t = shift_list l fs t

  -- The end of the input, which is right behind the nodes of the root.
  unfoldable pub accept : State F → List (Frame F) → Option (RootTree F)
  accept (body none) [] = some no_nodes
  accept (body (some a)) [] = some (of_root a)
  accept _ _ = none

  unfoldable pub parse_from : State F → List (Frame F) → List (Token F) → Option (RootTree F)
  unfolding shift accept
  parse_from st fs [] = accept st fs
  parse_from st fs (t ∷ ts) = elim (shift st fs t) [
    | none ↦ none
    | some (st', fs') ↦ parse_from st' fs' ts
  ]

  unfoldable pub parse : List (Token F) → Option (RootTree F)
  unfolding parse_from
  parse ts = parse_from (body none) [] ts
