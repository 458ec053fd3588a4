-- ===== src/Store/Lexer/Rounds.antt =====
-- One round of `yylex` on a string, for each action.
use kalisko.Base.{ℕ, arith, ◌≡◌, [], ◌∷◌, ◌++◌, Bytes}
use kalisko.Store.Lexer.{
  consume, skip, return, pushback_return, lex_step, char_type, LexerState, TokenKind, LexerAction,
}
use kalisko.Store.Lexer.Yylex.{
  Location, advance, step_back, lexed, run, yylex_loop, string_reader, token_value,
}

-- The step at character `c` has this action and leaves this state and token.
pub record Step (s : LexerState) (c : ℕ) (t : TokenKind) (a : LexerAction) (s' : LexerState)
    (t' : TokenKind) : Type 0 where
  pub action : (lex_step s (char_type c) c t).action ≡ a
  pub state : (lex_step s (char_type c) c t).state ≡ s'
  pub token : (lex_step s (char_type c) c t).token ≡ t'

module _ {F : Type 0} (atof : Bytes → F) where
  pub run_consume :
      (s s' : LexerState) (t t' : TokenKind) (a : Bytes) (loc : Location) (c : ℕ) (rest : Bytes)
      → Step s c t consume s' t'
      → run atof (record { state = s; assemble = a; token = t }) loc (c ∷ rest)
        ≡ run atof (record { state = s'; assemble = a ++ c ∷ []; token = t' }) (advance c loc) rest
  unfolding run yylex_loop string_reader
  run_consume s s' t t' a loc c rest h = ground arith

  pub run_skip :
      (s s' : LexerState) (t t' : TokenKind) (a : Bytes) (loc : Location) (c : ℕ) (rest : Bytes)
      → Step s c t skip s' t'
      → run atof (record { state = s; assemble = a; token = t }) loc (c ∷ rest)
        ≡ run atof (record { state = s'; assemble = a; token = t' }) (advance c loc) rest
  unfolding run yylex_loop string_reader
  run_skip s s' t t' a loc c rest h = ground arith

  pub run_return :
      (s s' : LexerState) (t t' : TokenKind) (a : Bytes) (loc : Location) (c : ℕ) (rest : Bytes)
      → Step s c t return s' t'
      → run atof (record { state = s; assemble = a; token = t }) loc (c ∷ rest)
        ≡ lexed (token_value atof t' a) (advance c loc) rest
  unfolding run yylex_loop string_reader
  run_return s s' t t' a loc c rest h = ground arith

  pub run_pushback_return :
      (s s' : LexerState) (t t' : TokenKind) (a : Bytes) (loc : Location) (c : ℕ) (rest : Bytes)
      → Step s c t pushback_return s' t'
      → run atof (record { state = s; assemble = a; token = t }) loc (c ∷ rest)
        ≡ lexed (token_value atof t' a) (step_back (advance c loc)) (c ∷ rest)
  unfolding run yylex_loop string_reader
  run_pushback_return s s' t t' a loc c rest h = ground arith
