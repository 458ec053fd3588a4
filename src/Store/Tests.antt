-- ===== src/Store/Tests.antt =====
-- Runs of src/modules/store on small inputs.
use kalisko.Store.Lexer.Simple.{yylex-check_simple}
use kalisko.Store.Write.Strings.{yylex-quoted}
use kalisko.Base.Clib.{atoi}
use kalisko.Store.Path.Set.{get_store_path-set_store_path, get_store_path-delete_store_path}
use kalisko.Store.Clone.{clone_store, clone_store_lem}
use kalisko.Store.Lexer.Total.{lex_store_string-ne-out_of_fuel}
use kalisko.Store.Lexer.Quoted.{track, yylex-escape_store_string}
use kalisko.Store.Path.Walk.{split_store_path-path_of, get_store_path-path_of}
use kalisko.Store.Value.Tables.{lookup}
use kalisko.Store.Merge.{merge_store, merged_value, lookup-merge_store}
use kalisko.Store.Text.{escape_store_string}
use kalisko.Store.Path.Change.{IsPlain}
use kalisko.Store.Write.{quoted, write_store_gstring}
use kalisko.Base.{
  ℕ, ◌≡◌, refl, true, none, some, [], ◌∷◌, Bytes, codes, arith, bytes_eq, ◌≢◌, Bool, ◌↔◌,
}
use kalisko.Base.Int.{pos}
use kalisko.Store.Lexer.{char_type, lex_step}
use kalisko.Store.Lexer.Yylex.{
  lexed, string, Results, lex_store_string, check_simple_store_string_capability, Location, yylex,
  string_reader, results, Token,
}
use kalisko.Store.Value.{Store, Nodes, string as text, integer, list, array, nil, cons, empty, node}
use kalisko.Store.Path.{
  written, found, child, split_store_path, set_store_path, get_store_path, delete_store_path,
}

abbrev no_float : Bytes → ℕ
no_float s = 0

abbrev no_format : ℕ → Bytes
no_format x = []

abbrev origin : Location
origin = record { last_line = 1; last_column = 1 }

abbrev spoken : Bytes
spoken = codes "say \"hi\" \\o/"

yylex-escape_store_string_example :
    yylex no_float origin (codes "\"say \\\"hi\\\" \\\\o/\" = 1")
    ≡ lexed (string spoken) (record { last_line = 1; last_column = 18 }) (codes " = 1")
unfolding escape_store_string track
yylex-escape_store_string_example =
    yylex-escape_store_string no_float spoken (codes " = 1") origin (omega arith)

yylex-check_simple_example :
    yylex no_float origin (codes "width=3")
    ≡ lexed (string (codes "width")) (record { last_line = 1; last_column = 6 }) (codes "=3")
unfolding check_simple_store_string_capability char_type lex_step string_reader bytes_eq track
yylex-check_simple_example =
    yylex-check_simple no_float (codes "width") origin origin b'=' (codes "3") refl tt

lex_store_string-ne-out_of_fuel_example :
    lex_store_string no_float origin (codes "a = (1, 2)") ≢ Results.out_of_fuel
lex_store_string-ne-out_of_fuel_example =
    lex_store_string-ne-out_of_fuel no_float (codes "a = (1, 2)") origin

yylex-quoted_example :
    (l : Location) × (yylex no_float origin (codes "\"two words\" = 1")
      ≡ lexed (string (codes "two words")) l (codes " = 1"))
unfolding quoted char_type lex_step string_reader bytes_eq
yylex-quoted_example =
    yylex-quoted no_float no_format origin (codes "two words") (codes "\"two words\"") (codes "= 1")
      b' ' origin (omega arith) tt refl

split_store_path-path_of_example :
    split_store_path (codes "a\\/b/c") ≡ some (codes "a/b" ∷ codes "c" ∷ [])
split_store_path-path_of_example = split_store_path-path_of (codes "a/b" ∷ []) (codes "c")

abbrev size_nodes : Nodes ℕ
size_nodes =
    node (codes "width") (integer (pos 640)) (node (codes "height") (integer (pos 480)) empty)

abbrev config : Store ℕ
config = array (
    node (codes "size") (array size_nodes)
      (node (codes "tags") (list (cons (text (codes "x")) nil)) empty))

get_store_path-path_of_example :
    get_store_path config (codes "tags/0") ≡ found (some (text (codes "x")))
unfolding child bytes_eq
get_store_path-path_of_example =
    get_store_path-path_of config (codes "tags" ∷ []) (codes "0") (λ e. ground arith) (omega arith)

size-IsPlain : IsPlain (codes "size")
size-IsPlain = record { ne_nil = λ e. ground arith; plain = (refl, (refl, (refl, (refl, tt)))) }

get_store_path-set_store_path_example :
    (s' : Store ℕ) × (set_store_path config (codes "size/depth") (integer (pos 3))
      ≡ written s' true)
    × (get_store_path s' (codes "size/depth") ≡ found (some (integer (pos 3))))
unfolding child bytes_eq
get_store_path-set_store_path_example =
    get_store_path-set_store_path config (codes "size" ∷ []) (codes "depth") (integer (pos 3))
      size_nodes (size-IsPlain, tt) (λ e. ground arith) (omega arith) refl

get_store_path-delete_store_path_example :
    (s' : Store ℕ) × (done : Bool) × (delete_store_path config (codes "size/width")
      ≡ written s' done)
    × (get_store_path s' (codes "size/width") ≡ found none)
    × ((done ≡ true) ↔ (get_store_path config (codes "size/width") ≢ found none))
unfolding child bytes_eq
get_store_path-delete_store_path_example =
    get_store_path-delete_store_path config (codes "size" ∷ []) (codes "width") size_nodes
      (size-IsPlain, tt) (λ e. ground arith) (omega arith) refl (refl, (refl, tt))

clone_store_lem_example : clone_store config ≡ config
unfolding bytes_eq lookup
clone_store_lem_example =
    clone_store_lem config
      ((refl, (refl, tt)), (((refl, (refl, tt)), (tt, (tt, tt))), ((tt, tt), tt)))

abbrev wider : Nodes ℕ
wider = node (codes "width") (integer (pos 800)) (node (codes "dpi") (integer (pos 96)) empty)

lookup-merge_store_example :
    (ms : Nodes ℕ) × (merge_store (array size_nodes) (array wider) ≡ (array ms, true))
    × (lookup (codes "width") ms
        ≡ merged_value (lookup (codes "width") size_nodes) (lookup (codes "width") wider))
unfolding bytes_eq lookup
lookup-merge_store_example = lookup-merge_store size_nodes wider (codes "width") (refl, (refl, tt))

-- Tests.

three_tokens :
    lex_store_string no_float origin (codes "a\n=1")
    ≡ results (string (codes "a") ∷ Token.char b'=' ∷ Token.integer (pos 1) ∷ [])
unfolding lex_store_string char_type lex_step string_reader yylex atoi
three_tokens = refl

written_config :
    write_store_gstring no_float no_format origin config
    ≡ some (codes "size = {\n\twidth = 640\n\theight = 480\n}\ntags = (x)")
unfolding write_store_gstring char_type lex_step string_reader yylex bytes_eq
written_config = refl
