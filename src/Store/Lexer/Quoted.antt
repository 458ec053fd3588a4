-- ===== src/Store/Lexer/Quoted.antt =====
-- An escaped string between quotation marks is read back by `yylex` as it was.
use kalisko.Base.{
  none, ℕ, ◌≡◌, refl, sym, ◌∙◌, true, false, ◌||◌, inl, inr, [], ◌∷◌, ◌++◌, append-nil,
  append_assoc, ◌==◌, Bool-cases, Bytes, All, arith,
}
use kalisko.Store.Text.{escape_byte, escape_store_string, escape_onto}
use kalisko.Store.Lexer.{
  Lexer, LexerState, start, reading_string_extended, reading_string_extended_escaping, consume,
  skip, return, lex_step, char_type, TokenKind, unexpected_end,
}
use kalisko.Store.Lexer.Yylex.{
  error, Location, advance, lexed, string, run, yylex, check_simple_store_string_capability,
  lex_store_string, lex_store_loop,
}
use kalisko.Store.Lexer.Steps.{
  IsText, char_type-end, char_type-quotation, char_type-escape, lex_step_extended,
}
use kalisko.Store.Lexer.Rounds.{Step, run_consume, run_skip, run_return}

-- The location behind a text that is read without giving anything back.
unfoldable pub track : Bytes → Location → Location
track [] loc = loc
track (c ∷ cs) loc = track cs (advance c loc)

pub track-append : (s t : Bytes) (loc : Location) → track (s ++ t) loc ≡ track t (track s loc)
unfolding track
track-append [] t loc = refl
track-append (c ∷ s) t loc = track-append s t (advance c loc)

-- What `escapeStoreString` gives, with no accumulator.
abbrev pub escaped : Bytes → Bytes
escaped [] = []
escaped (c ∷ cs) = escape_byte c ++ escaped cs

escape_onto-escaped : (s out : Bytes) → escape_onto out s ≡ out ++ escaped s
unfolding escape_onto
escape_onto-escaped [] out = sym (append-nil out)
escape_onto-escaped (c ∷ cs) out = simp (escape_onto-escaped cs, append_assoc)

pub escape_store_string-escaped : (s : Bytes) → escape_store_string s ≡ escaped s
unfolding escape_store_string
escape_store_string-escaped s = escape_onto-escaped s []

abbrev at : LexerState → Bytes → Lexer
at s a = record { state = s; assemble = a; token = TokenKind.eof }

-- Only `"` and `\` are special in an extended string.
plain-Step :
    (c : ℕ)
    → IsText c
    → (c == b'"' || c == b'\\') ≡ false
    → Step reading_string_extended c TokenKind.eof consume reading_string_extended TokenKind.eof
plain-Step c h plain =
    let e =
      lex_step_extended (char_type c) c TokenKind.eof (char_type-end c h)
        (char_type-quotation c (ground arith)) (char_type-escape c (ground arith)) in
    record { action = rw e; state = rw e; token = rw e }

escape-Step :
    Step reading_string_extended b'\\' TokenKind.eof skip reading_string_extended_escaping
      TokenKind.eof
unfolding lex_step char_type
escape-Step = record { action = refl; state = refl; token = refl }

escaped-Step :
    (c : ℕ)
    → (c == b'"' || c == b'\\') ≡ true
    → Step reading_string_extended_escaping c TokenKind.eof consume reading_string_extended
        TokenKind.eof
unfolding lex_step char_type
escaped-Step c h = record { action = ground arith; state = ground arith; token = ground arith }

quotation-Step :
    Step reading_string_extended b'"' TokenKind.eof return reading_string_extended TokenKind.string
unfolding lex_step char_type
quotation-Step = record { action = refl; state = refl; token = refl }

end-Step :
    Step reading_string_extended 0 TokenKind.eof return reading_string_extended
      (TokenKind.error unexpected_end)
unfolding lex_step char_type
end-Step = record { action = refl; state = refl; token = refl }

opening-Step : Step start b'"' TokenKind.eof skip reading_string_extended TokenKind.eof
unfolding lex_step char_type
opening-Step = record { action = refl; state = refl; token = refl }

module _ {F : Type 0} (atof : Bytes → F) where
  run-escape_byte :
      (c : ℕ) (a : Bytes) (loc : Location) (rest : Bytes)
      → IsText c
      → run atof (at reading_string_extended a) loc (escape_byte c ++ rest)
        ≡ run atof (at reading_string_extended (a ++ c ∷ [])) (track (escape_byte c) loc) rest
  unfolding track
  run-escape_byte c a loc rest h = elim (Bool-cases (c == b'"' || c == b'\\')) [
    | inl special ↦ rw special (
        run_skip atof _ _ _ _ a loc b'\\' (c ∷ rest) escape-Step
        ∙ run_consume atof _ _ _ _ a _ c rest (escaped-Step c special))
    | inr plain ↦ rw plain (run_consume atof _ _ _ _ a loc c rest (plain-Step c h plain))
  ]

  run-escaped :
      (s a : Bytes) (loc : Location) (rest : Bytes)
      → All IsText s
      → run atof (at reading_string_extended a) loc (escaped s ++ rest)
        ≡ run atof (at reading_string_extended (a ++ s)) (track (escaped s) loc) rest
  unfolding track
  run-escaped [] a loc rest h = rw append-nil
  run-escaped (c ∷ cs) a loc rest h = simp append_assoc (
      run-escape_byte c a loc _ h.0
      ∙ run-escaped cs (a ++ c ∷ []) (track (escape_byte c) loc) rest h.1
      ∙ simp (append_assoc, track-append))

  -- yylex reads a string back from its escaped form between quotation marks, whatever stands
  -- behind it, where no byte of the string is NUL or 255.
  pub yylex-escape_store_string :
      (s rest : Bytes) (loc : Location)
      → All IsText s
      → yylex atof loc (b'"' ∷ (escape_store_string s ++ b'"' ∷ rest))
        ≡ lexed (string s) (track (b'"' ∷ (escape_store_string s ++ b'"' ∷ [])) loc) rest
  unfolding yylex track
  yylex-escape_store_string s rest loc h = rw escape_store_string-escaped (
      run_skip atof _ _ _ _ [] loc b'"' _ opening-Step
      ∙ run-escaped s [] _ (b'"' ∷ rest) h
      ∙ run_return atof _ _ _ _ s _ b'"' rest quotation-Step
      ∙ rw track-append)

  -- In an extended string that is not closed, `yylex` reports the error at the end of the input and
  -- leaves nothing unread, not even the terminating NUL.
  pub yylex_unclosed :
      (s : Bytes) (loc : Location)
      → All IsText s
      → yylex atof loc (b'"' ∷ (escape_store_string s ++ 0 ∷ []))
        ≡ lexed (error unexpected_end) (track (b'"' ∷ (escape_store_string s ++ 0 ∷ [])) loc) []
  unfolding yylex track
  yylex_unclosed s loc h = rw escape_store_string-escaped (
      run_skip atof _ _ _ _ [] loc b'"' _ opening-Step
      ∙ run-escaped s [] _ (0 ∷ []) h
      ∙ run_return atof _ _ _ _ s _ 0 [] end-Step
      ∙ rw track-append)

  -- checkSimpleStoreStringCapability reads beyond the end of a string that opens a quotation and
  -- does not close it, where no byte after the quotation mark is NUL or 255 once unescaped.
  pub check_simple_unclosed :
      (s : Bytes) (loc : Location)
      → All IsText s
      → check_simple_store_string_capability atof loc (b'"' ∷ escape_store_string s) ≡ none
  unfolding check_simple_store_string_capability lex_store_string lex_store_loop
  check_simple_unclosed s loc h = let e = yylex_unclosed s loc h in rw (e, lex_store_loop)
