-- ===== src/Store/Parse/RoundTrip.antt =====
-- A store that is written is parsed back: `writeStoreGString` and `parseStoreString`.
use kalisko.Store.Lexer.{char_type, lex_step}
use kalisko.Base.{
  suc, ◌≡◌, refl, sym, ◌∙◌, ap, none, some, true, Option, [], ◌∷◌, ◌++◌, Bytes, arith, length,
  length-append, List, ℕ, ◌==◌, ◌||◌,
}
use kalisko.Store.Value.{Nodes, array}
use kalisko.Store.Clone.{IsTree}
use kalisko.Store.Lexer.Yylex.{Location, Token, yylex, run, yylex_loop, string_reader}
use kalisko.Store.Lexer.Reads.{Tokens, Opens}
use kalisko.Store.Parse.{parse_store_string, parsed, yyparse, IsParser, RootTree, parse_store_file}
use kalisko.Store.Parse.Stored.{nodes_tokens, parse-nodes_tokens}
use kalisko.Store.Parse.Input.{input_tokens-Tokens}
use kalisko.Store.Write.{Context, dump_store, write_store_gstring, written_text}
use kalisko.Store.Write.Contexts.{bind-some}
use kalisko.Store.Write.Brackets.{AreWritableNodes}
use kalisko.Store.Write.Whole.{nodes-Writes, some_same}

module _ {F : Type 0} (atof : Bytes → F) (format_double : F → Bytes) (loc : Location) where
  text_of :
      (m : Option Context) {text : Bytes}
      → written_text m ≡ some text
      → (c : Context) × ((m ≡ some c) × (c.out ≡ text))
  text_of none e = absurd (ground arith)
  text_of (some c) e = (c, (refl, ground arith))

  Opens-end : (c : ℕ) → (c == 255 || c == 0) ≡ true → Opens (c ∷ [])
  unfolding char_type
  Opens-end c h = ground (arith, h)

  end_Tokens : Tokens atof (0 ∷ []) []
  unfolding yylex run yylex_loop string_reader char_type lex_step
  end_Tokens = ([], λ l. (_, refl))

  end_Tokens-file : Tokens atof (255 ∷ []) []
  unfolding yylex run yylex_loop string_reader char_type lex_step
  end_Tokens-file = ([], λ l. (_, refl))

  -- The text of a store at the top level, with what ends it, has the tokens of the nodes.
  write-Tokens :
      (ns : Nodes F) (text behind : Bytes)
      → Opens behind
      → Tokens atof behind []
      → AreWritableNodes atof format_double loc ns
      → write_store_gstring atof format_double loc (array ns) ≡ some text
      → Tokens atof (text ++ behind) (nodes_tokens ns [])
  unfolding write_store_gstring dump_store char_type
  write-Tokens ns text behind o k h e =
      let (c, (m, t)) = text_of _ e in
      let (d, (m', q)) = bind-some _ _ m in
      let (w, (p, st)) = nodes-Writes atof format_double loc ns [] 0 true h m' in
      let same : text ≡ w = sym t ∙ ap (λ x. x.out) (sym (some_same q)) ∙ p in
      rw same ((st behind [] o k).1)

  -- parseStoreString gives back the store whose text writeStoreGString wrote. The store is an
  -- array whose tables all have distinct keys; its strings and keys have no byte that is NUL or
  -- 255; its floating point numbers are written with digits, a decimal mark and digits that atof
  -- reads back; and yyparse reads the sentences of the grammar in parser.y.
  pub parse_store_string-write_store_gstring :
      (parser : List (Token F) → Option (RootTree F)) (ns : Nodes F) (text : Bytes)
      → IsParser parser
      → IsTree (array ns)
      → AreWritableNodes atof format_double loc ns
      → write_store_gstring atof format_double loc (array ns) ≡ some text
      → parse_store_string parser atof text ≡ parsed (array ns)
  unfolding parse_store_string yyparse
  parse_store_string-write_store_gstring parser ns text p t h e =
      let read =
        input_tokens-Tokens atof (nodes_tokens ns []) (suc (suc (length text)))
          (record { last_line = 1; last_column = 1 }) (text ++ 0 ∷ [])
          (write-Tokens ns text (0 ∷ []) (Opens-end 0 refl) end_Tokens h e)
          (omega (arith, length-append text (0 ∷ []))) in
      rw read (parse-nodes_tokens parser ns p t)

  -- A file with the text of a store is parsed into the store.
  pub parse_store_file-write_store_gstring :
      (parser : List (Token F) → Option (RootTree F)) (ns : Nodes F) (text : Bytes)
      → IsParser parser
      → IsTree (array ns)
      → AreWritableNodes atof format_double loc ns
      → write_store_gstring atof format_double loc (array ns) ≡ some text
      → parse_store_file parser atof (some text) ≡ parsed (array ns)
  unfolding parse_store_file yyparse
  parse_store_file-write_store_gstring parser ns text p t h e =
      let read =
        input_tokens-Tokens atof (nodes_tokens ns []) (suc (suc (length text)))
          (record { last_line = 1; last_column = 1 }) (text ++ 255 ∷ [])
          (write-Tokens ns text (255 ∷ []) (Opens-end 255 refl) end_Tokens-file h e)
          (omega (arith, length-append text (255 ∷ []))) in
      rw read (parse-nodes_tokens parser ns p t)
