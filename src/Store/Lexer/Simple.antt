-- ===== src/Store/Lexer/Simple.antt =====
-- A string that `checkSimpleStoreStringCapability` accepts is read back by `yylex` with no quotes.
use kalisko.Store.Lexer.Rounds.{run_pushback_return, Step, run_consume}
use kalisko.Store.Lexer.Quoted.{track}
use kalisko.Store.Lexer.Steps.{lex_step-ne-repeat}
use kalisko.Base.{
  zero, ℕ, refl, Bytes, ◌≡◌, length, arith, ◌⊎◌, ◌≤◌, ◌+◌, ◌++◌, ◌∷◌, [], length-append, append-nil,
  suc, some, true, inl, ◌∙◌, append_assoc, sym, bytes_eq_iff,
}
use kalisko.Store.Lexer.{
  consume, skip, return, pushback_return, reading_string_simple, delimiter, space, quotation,
  comment, end, LexerState, char_type, lex_step, CharType, TokenKind, Lexer, start,
}
use kalisko.Store.Lexer.Yylex.{
  lexed, string, Lexed, run, yylex_loop, string_reader, Location, advance, step_back,
  check_simple_store_string_capability, Results, lex_store_loop, results, lex_store_string, yylex,
  is_string,
}

abbrev at : LexerState → Bytes → TokenKind → Lexer
at s a t = record { state = s; assemble = a; token = t }

-- The types at which a simple string ends.
abbrev pub EndsSimple : CharType → Type 0
EndsSimple delimiter = Unit
EndsSimple quotation = Unit
EndsSimple comment = Unit
EndsSimple space = Unit
EndsSimple end = Unit
EndsSimple _ = ⊥

-- The string of a returned token has at most `n` bytes.
abbrev Bounded : {F : Type 0} → ℕ → Lexed F Bytes → Type 0
Bounded n (lexed (string t) loc r) = length t ≤ n
Bounded n _ = Unit

pub char_type-zero : char_type 0 ≡ end
unfolding char_type
char_type-zero = refl

-- At the end of the input every state returns.
pub lex_step-end :
    (s : LexerState) (c : ℕ) (t : TokenKind)
    → ((lex_step s end c t).action ≡ return) ⊎ ((lex_step s end c t).action ≡ pushback_return)
unfolding lex_step
lex_step-end s c t = ground arith

-- Going on leaves the token alone.
pub lex_step-token :
    (s : LexerState) (type : CharType) (c : ℕ) (t : TokenKind)
    → ((lex_step s type c t).action ≡ consume) ⊎ ((lex_step s type c t).action ≡ skip)
    → (lex_step s type c t).token ≡ t
unfolding lex_step
lex_step-token s type c t h = ground arith

lex_step-simple :
    (type : CharType) (c : ℕ) (t : TokenKind)
    → EndsSimple type
    → lex_step reading_string_simple type c t
      ≡ record { action = pushback_return; state = reading_string_simple; token = TokenKind.string }
unfolding lex_step
lex_step-simple type c t h = ground arith

end-Step :
    (d : ℕ)
    → EndsSimple (char_type d)
    → Step reading_string_simple d TokenKind.eof pushback_return reading_string_simple
        TokenKind.string
end-Step d h =
    let e = lex_step-simple (char_type d) d TokenKind.eof h in
    record { action = rw e; state = rw e; token = rw e }

-- Only a simple string returns a string at the end of the input.
lex_step-end_string :
    (s : LexerState) (c : ℕ)
    → (lex_step s end c TokenKind.eof).token ≡ TokenKind.string
    → s ≡ reading_string_simple
unfolding lex_step
lex_step-end_string s c h = ground arith

module _ {F : Type 0} (atof : Bytes → F) where
  run-Bounded :
      (x : Bytes) (s : LexerState) (t : TokenKind) (a : Bytes) (loc : Location)
      → Bounded (length a + length x) (run atof (at s a t) loc (x ++ 0 ∷ []))
  unfolding run yylex_loop string_reader
  run-Bounded [] s t a loc = ground (arith, char_type-zero, lex_step-end s 0 t)
  run-Bounded (c ∷ cs) s t a loc =
      let st = lex_step s (char_type c) c t in
      let moved = advance c loc in
      ground (
        arith,
        lex_step-ne-repeat s (char_type c) c t,
        length-append a (c ∷ []),
        run-Bounded cs st.state st.token (a ++ c ∷ []) moved,
        run-Bounded cs st.state st.token a moved,
      )

  simple_of_end :
      (s : LexerState) (a t : Bytes) (loc : Location) {l : Location} {r : Bytes}
      → run atof (at s a TokenKind.eof) loc (0 ∷ []) ≡ lexed (string t) l r
      → s ≡ reading_string_simple
  unfolding run yylex_loop string_reader
  simple_of_end s a t loc e =
      ground (arith, char_type-zero, lex_step-end s 0 TokenKind.eof, lex_step-end_string s 0)

  -- A string returned whole was read by rounds that consume.
  consumed :
      (s : LexerState) (a : Bytes) (loc : Location) (c : ℕ) (cs : Bytes) {l : Location} {r : Bytes}
      → run atof (at s a TokenKind.eof) loc (c ∷ (cs ++ 0 ∷ [])) ≡ lexed (string (a ++ c ∷ cs)) l r
      → (lex_step s (char_type c) c TokenKind.eof).action ≡ consume
  unfolding run yylex_loop string_reader
  consumed s a loc c cs e =
      let st = lex_step s (char_type c) c TokenKind.eof in
      ground (
        arith,
        lex_step-ne-repeat s (char_type c) c TokenKind.eof,
        length-append a (c ∷ cs),
        run-Bounded cs st.state st.token a (advance c loc),
      )

  run_simple :
      (x : Bytes) (s : LexerState) (a : Bytes) (loc loc' : Location) (d : ℕ) (rest : Bytes)
      {l : Location} {r : Bytes}
      → EndsSimple (char_type d)
      → run atof (at s a TokenKind.eof) loc (x ++ 0 ∷ []) ≡ lexed (string (a ++ x)) l r
      → run atof (at s a TokenKind.eof) loc' (x ++ d ∷ rest)
        ≡ lexed (string (a ++ x)) (step_back (advance d (track x loc'))) (d ∷ rest)
  unfolding track
  run_simple [] s a loc loc' d rest h e =
      rw (simple_of_end s a (a ++ []) loc e, append-nil)
        (run_pushback_return atof _ _ _ _ a loc' d rest (end-Step d h))
  run_simple (c ∷ cs) s a loc loc' d rest {l} {r} h e =
      let next : Step s c TokenKind.eof consume (lex_step s (char_type c) c TokenKind.eof).state
          TokenKind.eof =
        record {
          action = consumed s a loc c cs e;
          state = refl;
          token = lex_step-token s (char_type c) c TokenKind.eof (inl (consumed s a loc c cs e));
        } in
      run_consume atof _ _ _ _ a loc' c (cs ++ d ∷ rest) next
      ∙ rw (← append_assoc a (c ∷ []) cs) (
          run_simple cs _ (a ++ c ∷ []) (advance c loc) (advance c loc') d rest {l = l} {r = r} h (
            sym (run_consume atof _ _ _ _ a loc c (cs ++ 0 ∷ []) next)
            ∙ e
            ∙ rw (append_assoc a (c ∷ []) cs)))

  is_string-results :
      (s : Bytes) (res : Results F)
      → is_string atof s res ≡ some true
      → res ≡ results (string s ∷ [])
  is_string-results s (results (string t ∷ [])) e = ground (arith, bytes_eq_iff t s)
  is_string-results s _ e = ground arith

  first_token :
      (n : ℕ) (loc : Location) (r t : Bytes)
      → lex_store_loop atof n loc r ≡ results (string t ∷ [])
      → (l : Location) × (r' : Bytes) × (yylex atof loc r ≡ lexed (string t) l r')
  unfolding lex_store_loop
  first_token zero loc r t e = absurd (ground arith)
  first_token (suc n) loc r t e = after (yylex atof loc r) refl
    where
      after :
          (lx : Lexed F Bytes)
          → yylex atof loc r ≡ lx
          → (l : Location) × (r' : Bytes) × (yylex atof loc r ≡ lexed (string t) l r')
      after (lexed u l r') q = (l, r', ground arith)
      after Lexed.fault q = absurd (ground arith)
      after Lexed.out_of_fuel q = absurd (ground arith)

  -- If checkSimpleStoreStringCapability accepts a string, yylex reads that string with no quotes
  -- and gives back the character behind it, where that ends a simple string.
  pub yylex-check_simple :
      (s : Bytes) (loc loc' : Location) (d : ℕ) (rest : Bytes)
      → check_simple_store_string_capability atof loc s ≡ some true
      → EndsSimple (char_type d)
      → yylex atof loc' (s ++ d ∷ rest)
        ≡ lexed (string s) (step_back (advance d (track s loc'))) (d ∷ rest)
  unfolding check_simple_store_string_capability lex_store_string yylex
  yylex-check_simple s loc loc' d rest e h =
      let (l, r, first) =
        first_token (suc (suc (length s))) loc (s ++ 0 ∷ []) s (is_string-results s _ e) in
      run_simple s start [] loc loc' d rest h first
