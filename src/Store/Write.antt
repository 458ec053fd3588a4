-- ===== src/Store/Write.antt =====
-- src/modules/store/write.c: the text of a store.
pub mod Strings
pub mod Reads
pub mod Contexts
pub mod Brackets
pub mod Braces
pub mod Whole
use kalisko.Base.Clib.{format_int}
use kalisko.Store.Text.{escape_store_string}
use kalisko.Store.Lexer.Yylex.{Location, check_simple_store_string_capability}
use kalisko.Base.{
  ℕ, zero, suc, ◌+◌, Bool, true, false, [], ◌∷◌, ◌++◌, Option, none, some, Bytes, if◌then◌else◌,
}
use kalisko.Store.Value.{
  Store, Items, Nodes, string, integer, float_number, list, array, nil, cons, empty, node,
}

-- `StoreDumpContext`: what was written so far, `level + 1`, and `skip_newline`.
pub record Context : Type 0 where
  pub out : Bytes
  pub level : ℕ
  pub skip_newline : Bool

-- `DUMP`
abbrev pub dump : Bytes → Context → Context
dump text c = record c { out = c.out ++ text }

-- The `for` loop that indents.
unfoldable pub indent : ℕ → Context → Context
indent zero c = c
indent (suc n) c = indent n (dump (b'\t' ∷ []) c)

-- The level of the top is -1, where an array has no braces.
abbrev pub is_inner : ℕ → Bool
is_inner zero = false
is_inner (suc level) = true

abbrev pub level_of : ℕ → ℕ
level_of zero = 0
level_of (suc level) = level

infixl 5 ◌>>=◌
abbrev pub ◌>>=◌ : Option Context → (Context → Option Context) → Option Context
none >>= f = none
some c >>= f = f c

abbrev pub dump_text : Option Bytes → Context → Option Context
dump_text none c = none
dump_text (some text) c = some (dump text c)

abbrev pub open_array : Context → Context
open_array c =
    let opened = if is_inner c.level then dump (b'{' ∷ b'\n' ∷ []) c else c in
    record opened { level = c.level + 1; skip_newline = true }

abbrev pub close_array : ℕ → Context → Context
close_array level c =
    let closed = record c { level = level; skip_newline = false } in
    if is_inner level
    then dump (b'}' ∷ []) (indent (level_of level) (dump (b'\n' ∷ []) closed))
    else closed

abbrev pub open_node : Context → Context
open_node c =
    let lined : Context =
      if c.skip_newline then record c { skip_newline = false } else dump (b'\n' ∷ []) c in
    indent (level_of c.level) lined

abbrev pub written_text : Option Context → Option Bytes
written_text none = none
written_text (some c) = some c.out

-- What the C library's `atof` and `%f` do, and where the lexer starts to count, are parameters.
module _ {F : Type 0} (atof : Bytes → F) (format_double : F → Bytes) (loc : Location) where
  -- A string or a key: as it is, or escaped and in quotes. `none` where the check reads beyond
  -- the string.
  unfoldable pub quoted : Bytes → Option Bytes
  unfolding check_simple_store_string_capability escape_store_string
  quoted s = elim (check_simple_store_string_capability atof loc s) [
    | none ↦ none
    | some true ↦ some s
    | some false ↦ some (b'"' ∷ (escape_store_string s ++ b'"' ∷ []))
  ]

  -- `dumpStore`, its loop over a list, and `dumpStoreNode` for the nodes of an array.
  unfoldable mutual
    unfolding quoted indent format_int

    pub dump_store : Store F → Context → Option Context
    dump_store (string s) c = dump_text (quoted s) c
    dump_store (integer i) c = some (dump (format_int i) c)
    dump_store (float_number x) c = some (dump (format_double x) c)
    dump_store (list vs) c = dump_items vs (dump (b'(' ∷ []) c)
    dump_store (array ns) c = dump_nodes ns (open_array c) >>= λ d. some (close_array c.level d)

    pub dump_items : Items F → Context → Option Context
    dump_items nil c = some (dump (b')' ∷ []) c)
    dump_items (cons v nil) c = dump_store v c >>= λ d. some (dump (b')' ∷ []) d)
    dump_items (cons v (cons w ws)) c =
        dump_store v c >>= λ d. dump_items (cons w ws) (dump (b',' ∷ b' ' ∷ []) d)

    pub dump_nodes : Nodes F → Context → Option Context
    dump_nodes empty c = some c
    dump_nodes (node key value ns) c =
        (dump_text (quoted key) (open_node c) >>= λ d.
        dump_store value (dump (b' ' ∷ b'=' ∷ b' ' ∷ []) d))
        >>= λ d. dump_nodes ns d

  -- `writeStoreGString`
  unfoldable pub write_store_gstring : Store F → Option Bytes
  unfolding dump_store
  write_store_gstring s =
      written_text (dump_store s (record { out = []; level = 0; skip_newline = false }))
