-- ===== src/Store/Lexer/Total.antt =====
-- `yylex` and `lexStore` end on every string.
use kalisko.Base.{
  ℕ, zero, refl, ◌≤◌, [], ◌∷◌, ◌++◌, Bytes, arith, length, ◌<◌, ◌≢◌, suc, ◌≡◌, length-append,
}
use kalisko.Store.Lexer.{
  lex_step, char_type, LexerState, TokenKind, Lexer, CharType, start, pushback_return,
}
use kalisko.Store.Lexer.Yylex.{
  Location, Token, advance, Lexed, yylex, lex_store_loop, lex_store_string, Results, lexed, run,
  yylex_loop, string_reader,
}
use kalisko.Store.Lexer.Steps.{lex_step-ne-repeat}

abbrev at : LexerState → Bytes → TokenKind → Lexer
at s a t = record { state = s; assemble = a; token = t }

-- `yylex` returns, or reads beyond the resource; what it returns, it leaves no more behind than it
-- was given.
abbrev pub Returns : {F : Type 0} → ℕ → Lexed F Bytes → Type 0
Returns n (lexed t loc r) = length r ≤ n
Returns n Lexed.fault = Unit
Returns n Lexed.out_of_fuel = ⊥

module _ {F : Type 0} (atof : Bytes → F) where
  run-Returns :
      (r : Bytes) (s : LexerState) (t : TokenKind) (a : Bytes) (loc : Location)
      → Returns (length r) (run atof (at s a t) loc r)
  unfolding run yylex_loop string_reader
  run-Returns [] s t a loc = tt
  run-Returns (c ∷ cs) s t a loc =
      let st = lex_step s (char_type c) c t in
      let moved = advance c loc in
      ground (
        arith,
        lex_step-ne-repeat s (char_type c) c t,
        run-Returns cs st.state st.token (a ++ c ∷ []) moved,
        run-Returns cs st.state st.token a moved,
      )

  -- In the start state nothing is given back, so that `yylex` takes a character at least.
  start-ne-pushback_return :
      (type : CharType) (c : ℕ) (t : TokenKind) → (lex_step start type c t).action ≢ pushback_return
  unfolding lex_step
  start-ne-pushback_return type c t = ground arith

  pub yylex-Returns :
      (c : ℕ) (cs : Bytes) (loc : Location) → Returns (length cs) (yylex atof loc (c ∷ cs))
  unfolding yylex run yylex_loop string_reader
  yylex-Returns c cs loc =
      let st = lex_step start (char_type c) c TokenKind.eof in
      let moved = advance c loc in
      ground (
        arith,
        lex_step-ne-repeat start (char_type c) c TokenKind.eof,
        start-ne-pushback_return (char_type c) c TokenKind.eof,
        run-Returns cs st.state st.token (c ∷ []) moved,
        run-Returns cs st.state st.token [] moved,
      )

  lex_store_round :
      (n : ℕ) (loc : Location) (r : Bytes) {t : Token F} {loc' : Location} {r' : Bytes}
      → yylex atof loc r ≡ lexed t loc' r'
      → lex_store_loop atof n loc' r' ≢ Results.out_of_fuel
      → lex_store_loop atof (suc n) loc r ≢ Results.out_of_fuel
  unfolding lex_store_loop
  lex_store_round n loc r e ih = ground arith

  lex_store_loop-ne-out_of_fuel :
      (n : ℕ) (loc : Location) (r : Bytes)
      → length r < n
      → lex_store_loop atof n loc r ≢ Results.out_of_fuel
  lex_store_loop-ne-out_of_fuel zero loc r h = elim h [ ]
  lex_store_loop-ne-out_of_fuel (suc n) loc [] h =
      unfold lex_store_loop yylex run yylex_loop string_reader in ground arith
  lex_store_loop-ne-out_of_fuel (suc n) loc (c ∷ cs) h =
      after (yylex atof loc (c ∷ cs)) refl (yylex-Returns c cs loc)
        (λ loc' r' k. lex_store_loop-ne-out_of_fuel n loc' r' k)
    where
      after :
          (l : Lexed F Bytes)
          → yylex atof loc (c ∷ cs) ≡ l
          → Returns (length cs) l
          → ((loc' : Location) (r' : Bytes)
              → length r' < n
              → lex_store_loop atof n loc' r' ≢ Results.out_of_fuel)
          → lex_store_loop atof (suc n) loc (c ∷ cs) ≢ Results.out_of_fuel
      after (lexed t loc' r') e k ih = lex_store_round n loc (c ∷ cs) e (ih loc' r' (omega arith))
      after Lexed.fault e k ih = unfold lex_store_loop in rw (e, lex_store_loop) (ground arith)
      after Lexed.out_of_fuel e k ih = absurd k

  -- lexStoreString ends on every string: it returns its tokens, or it reads beyond the string.
  pub lex_store_string-ne-out_of_fuel :
      (s : Bytes) (loc : Location) → lex_store_string atof loc s ≢ Results.out_of_fuel
  unfolding lex_store_string
  lex_store_string-ne-out_of_fuel s loc =
      lex_store_loop-ne-out_of_fuel (suc (suc (length s))) loc (s ++ 0 ∷ [])
        (omega (arith, length-append s (0 ∷ [])))
