-- ===== src/Store/Parse/Tests.antt =====
-- Runs of the parser on small inputs.
use kalisko.Store.Write.Brackets.{AreWritableNodes}
use kalisko.Store.Write.Reads.{IsKept}
use kalisko.Store.Value.Tables.{lookup}
use kalisko.Store.Clone.{IsTree}
use kalisko.Base.{◌≡◌, ◌≢◌, refl, Bytes, codes, arith, bytes_eq}
use kalisko.Base.Int.{pos}
use kalisko.Store.Text.{escape_store_string}
use kalisko.Store.Lexer.{char_type, lex_step}
use kalisko.Store.Lexer.Yylex.{Location, string_reader}
use kalisko.Store.Value.{Nodes, string, integer, float_number, list, array, nil, cons, empty, node}
use kalisko.Store.Write.{write_store_gstring, quoted, indent}
use kalisko.Store.Parse.{
  parse_store_string, parsed, rejected, Parsed, RootTree, of_root, first_node, key_value, no_list,
}
use kalisko.Store.Parse.Automaton.{parse}
use kalisko.Store.Parse.Grammar.{parse-IsParser}
use kalisko.Store.Parse.Input.{parse_store_string_ends, parse_store_string_unclosed}
use kalisko.Store.Parse.RoundTrip.{parse_store_string-write_store_gstring}

-- A `double` is the text that stands for it.
abbrev kept : Bytes → Bytes
kept s = s

abbrev origin : Location
origin = record { last_line = 1; last_column = 1 }

abbrev settings : Nodes Bytes
settings =
    node (codes "window size")
      (list (cons (integer (pos 640)) (cons (float_number (codes "-1.50")) nil)))
      (node (codes "user") (array (node (codes "name") (string (codes "a \"b\"")) empty)) empty)

abbrev settings_text : Bytes
settings_text = codes "\"window size\" = (640, -1.50)\nuser = {\n\tname = \"a \\\"b\\\"\"\n}"

settings-IsTree : IsTree (array settings)
unfolding lookup bytes_eq
settings-IsTree = ((refl, (refl, tt)), ((tt, (tt, tt)), (((refl, tt), (tt, tt)), tt)))

number-IsKept : IsKept kept kept origin (codes "-1.50")
unfolding char_type
number-IsKept = (
  codes "-1",
  (codes "50", (refl, ((refl, (refl, tt)), (omega arith, ((refl, (refl, tt)), refl))))),
)

settings-AreWritable : AreWritableNodes kept kept origin settings
settings-AreWritable = (
  omega arith,
  ((tt, (number-IsKept, tt)), (omega arith, ((omega arith, (omega arith, tt)), tt))),
)

parse_store_string-write_store_gstring_example :
    parse_store_string parse kept settings_text ≡ parsed (array settings)
unfolding write_store_gstring quoted indent char_type lex_step string_reader
parse_store_string-write_store_gstring_example =
    parse_store_string-write_store_gstring kept kept origin parse settings settings_text
      parse-IsParser settings-IsTree settings-AreWritable refl

abbrev key_sentence : RootTree Bytes
key_sentence = of_root (first_node (key_value (codes "a") no_list))

parse_store_string_ends_example :
    (parse_store_string parse kept (codes "a = (1, {") ≢ Parsed.out_of_fuel)
    × (parse_store_string parse kept (codes "a = (1, {") ≢ Parsed.fault)
parse_store_string_ends_example = parse_store_string_ends parse kept (codes "a = (1, {")

parse_store_string_unclosed_example :
    parse_store_string parse kept (codes "\"never closed") ≡ parsed (array empty)
unfolding escape_store_string
parse_store_string_unclosed_example =
    parse_store_string_unclosed parse kept (codes "never closed") parse-IsParser (omega arith)

parse_store_string_rejected : parse_store_string parse kept (codes "a = }") ≡ rejected
unfolding parse_store_string parse char_type lex_step string_reader
parse_store_string_rejected = refl
