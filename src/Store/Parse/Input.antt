-- ===== src/Store/Parse/Input.antt =====
-- The tokens that `yyparse` gets from a string, and that `parseStoreString` ends.
use kalisko.Store.Lexer.Quoted.{yylex_unclosed}
use kalisko.Store.Value.{array, empty}
use kalisko.Store.Text.{escape_store_string}
use kalisko.Base.{
  ℕ, zero, suc, ◌<◌, ◌≤◌, ◌≡◌, ◌≢◌, ◌⊎◌, inl, inr, refl, List, [], ◌∷◌, ◌++◌, Bytes, arith, length,
  length-append, Option, some, All,
}
use kalisko.Store.Lexer.{LexerState, TokenKind, Lexer, end, return, lex_step, char_type}
use kalisko.Store.Lexer.Yylex.{
  Token, Location, Lexed, lexed, Results, results, yylex, run, yylex_loop, string_reader, advance,
}
use kalisko.Store.Lexer.Reads.{Tokens, GoesOn}
use kalisko.Store.Lexer.Steps.{lex_step-ne-repeat, IsText}
use kalisko.Store.Lexer.Simple.{char_type-zero, lex_step-end, lex_step-token}
use kalisko.Store.Lexer.Total.{yylex-Returns}
use kalisko.Store.Parse.{
  input_tokens, parse_store_string, Parsed, yyparse, parsed, root_action, IsParser, RootTree,
  no_nodes, root_tokens,
}

-- The last character is NUL.
abbrev Closed : Bytes → Type 0
Closed [] = ⊥
Closed (c ∷ []) = c ≡ 0
Closed (c ∷ (d ∷ r)) = Closed (d ∷ r)

abbrev Stops : {F : Type 0} → Token F → Type 0
Stops Token.eof = Unit
Stops (Token.error e) = Unit
Stops _ = ⊥

-- A call of `yylex` returns, and it leaves the NUL unread unless it ends the input.
abbrev Continues : {F : Type 0} → Lexed F Bytes → Type 0
Continues (lexed t l r) = Stops t ⊎ Closed r
Continues _ = ⊥

append-Closed : (s : Bytes) → Closed (s ++ 0 ∷ [])
append-Closed [] = refl
append-Closed (c ∷ []) = refl
append-Closed (c ∷ (d ∷ s)) = append-Closed (d ∷ s)

abbrev at : LexerState → Bytes → Lexer
at s a = record { state = s; assemble = a; token = TokenKind.eof }

abbrev StopKind : TokenKind → Type 0
StopKind TokenKind.eof = Unit
StopKind (TokenKind.error e) = Unit
StopKind _ = ⊥

lex_step_last :
    (s : LexerState) (c : ℕ)
    → (lex_step s end c TokenKind.eof).action ≡ return
    → StopKind (lex_step s end c TokenKind.eof).token
unfolding lex_step
lex_step_last s c h = ground arith

-- The parser gets all its tokens.
abbrev Given : {F : Type 0} → Results F → Type 0
Given (results ts) = Unit
Given _ = ⊥

module _ {F : Type 0} (atof : Bytes → F) where
  run-Continues :
      (r : Bytes) (s : LexerState) (a : Bytes) (loc : Location)
      → Closed r
      → Continues (run atof (at s a) loc r)
  unfolding run yylex_loop string_reader
  run-Continues [] s a loc h = absurd h
  run-Continues (c ∷ []) s a loc h =
      ground (arith, char_type-zero, lex_step-end s 0 TokenKind.eof, lex_step_last s 0)
  run-Continues (c ∷ (d ∷ r)) s a loc h =
      let st = lex_step s (char_type c) c TokenKind.eof in
      let moved = advance c loc in
      ground (
        arith,
        lex_step-ne-repeat s (char_type c) c TokenKind.eof,
        lex_step-token s (char_type c) c TokenKind.eof,
        run-Continues (d ∷ r) st.state (a ++ c ∷ []) moved,
        run-Continues (d ∷ r) st.state a moved,
      )

  input_round :
      (n : ℕ) (loc : Location) (r : Bytes) (t : Token F) (l : Location) (q : Bytes)
      (ts : List (Token F))
      → yylex atof loc r ≡ lexed t l q
      → GoesOn t
      → input_tokens atof n l q ≡ results ts
      → input_tokens atof (suc n) loc r ≡ results (t ∷ ts)
  unfolding input_tokens
  input_round n loc r t l q ts e g ih = ground arith

  yylex_empty : (loc l : Location) (t : Token F) (q : Bytes) → yylex atof loc [] ≢ lexed t l q
  unfolding yylex run yylex_loop string_reader
  yylex_empty loc l t q e = ground arith

  shorter :
      (c : ℕ) (r q : Bytes) (loc l : Location) (t : Token F)
      → yylex atof loc (c ∷ r) ≡ lexed t l q
      → length q ≤ length r
  shorter c r q loc l t e = ground (arith, yylex-Returns atof c r loc)

  -- The tokens of a text are those that yyparse gets from it.
  pub input_tokens-Tokens :
      (ts : List (Token F)) (n : ℕ) (loc : Location) (r : Bytes)
      → Tokens atof r ts
      → length r < n
      → input_tokens atof n loc r ≡ results ts
  unfolding input_tokens
  input_tokens-Tokens [] zero loc r k h = elim h [ ]
  input_tokens-Tokens (t ∷ ts) zero loc r k h = elim h [ ]
  input_tokens-Tokens [] (suc n) loc r (q, k) h = let (l, e) = k loc in ground arith
  input_tokens-Tokens (t ∷ ts) (suc n) loc [] (q, (k, (g, m))) h =
      let (l, e) = k loc in absurd (yylex_empty loc l t q e)
  input_tokens-Tokens (t ∷ ts) (suc n) loc (c ∷ r) (q, (k, (g, m))) h =
      let (l, e) = k loc in
      let less = shorter c r q loc l t e in
      input_round n loc (c ∷ r) t l q ts e g
        (input_tokens-Tokens ts n l q m (omega (arith, h, less)))

  input_round-Given :
      (n : ℕ) (loc : Location) (r : Bytes) (t : Token F) (l : Location) (q : Bytes)
      → yylex atof loc r ≡ lexed t l q
      → Stops t ⊎ Given (input_tokens atof n l q)
      → Given (input_tokens atof (suc n) loc r)
  unfolding input_tokens
  input_round-Given n loc r t l q e g = ground arith

  input_tokens-Given :
      (n : ℕ) (loc : Location) (r : Bytes)
      → Closed r
      → length r < n
      → Given (input_tokens atof n loc r)
  input_tokens-Given zero loc r k h = elim h [ ]
  input_tokens-Given (suc n) loc [] k h = absurd k
  input_tokens-Given (suc n) loc (c ∷ r) k h =
      after (yylex atof loc (c ∷ r)) refl (unfold yylex in run-Continues (c ∷ r) _ [] loc k)
        (λ l q d m. input_tokens-Given n l q d m)
    where
      after :
          (x : Lexed F Bytes)
          → yylex atof loc (c ∷ r) ≡ x
          → Continues x
          → ((l : Location) (q : Bytes) → Closed q → length q < n → Given (input_tokens atof n l q))
          → Given (input_tokens atof (suc n) loc (c ∷ r))
      after (lexed t l q) e (inl d) ih = input_round-Given n loc (c ∷ r) t l q e (inl d)
      after (lexed t l q) e (inr d) ih =
          let less = shorter c r q loc l t e in
          input_round-Given n loc (c ∷ r) t l q e (inr (ih l q d (omega (arith, h, less))))
      after Lexed.fault e d ih = absurd d
      after Lexed.out_of_fuel e d ih = absurd d

module _ {F : Type 0} (parser : List (Token F) → Option (RootTree F)) where
  yyparse-Given :
      (x : Results F)
      → Given x
      → (yyparse parser x ≢ Parsed.out_of_fuel) × (yyparse parser x ≢ Parsed.fault)
  unfolding yyparse
  yyparse-Given x g = ground arith

  -- parseStoreString ends on every string, with a store or with NULL, and reads nothing beyond
  -- the NUL that ends the string.
  pub parse_store_string_ends :
      (atof : Bytes → F) (s : Bytes)
      → (parse_store_string parser atof s ≢ Parsed.out_of_fuel)
        × (parse_store_string parser atof s ≢ Parsed.fault)
  unfolding parse_store_string
  parse_store_string_ends atof s = yyparse-Given _ (
      input_tokens-Given atof (suc (suc (length s))) (record { last_line = 1; last_column = 1 })
        (s ++ 0 ∷ []) (append-Closed s) (omega (arith, length-append s (0 ∷ []))))

  -- If yyparse reads the sentences of the grammar in parser.y, parseStoreString gives the empty
  -- store for a string that opens a quotation and does not close it, where no byte after the
  -- quotation mark is NUL or 255 once unescaped: the error of the lexer is the end of the input
  -- to yyparse.
  pub parse_store_string_unclosed :
      (atof : Bytes → F) (s : Bytes)
      → IsParser parser
      → All IsText s
      → parse_store_string parser atof (b'"' ∷ escape_store_string s) ≡ parsed (array empty)
  unfolding parse_store_string input_tokens yyparse root_action root_tokens
  parse_store_string_unclosed atof s p h =
      let e = yylex_unclosed atof s (record { last_line = 1; last_column = 1 }) h in
      let nothing : parser [] ≡ some no_nodes = (p [] no_nodes).1 refl in
      rw (e, input_tokens, nothing) refl
