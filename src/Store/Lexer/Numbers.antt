-- ===== src/Store/Lexer/Numbers.antt =====
-- The numbers that `dumpStore` writes are read back by `yylex`.
use kalisko.Base.{
  ℕ, suc, ◌≡◌, refl, ◌∙◌, ap, [], ◌∷◌, ◌++◌, append_assoc, append-nil, Bytes, All, arith, length,
  ◌<◌,
}
use kalisko.Base.Clib.{atoi, format_int, decimal}
use kalisko.Base.Clib.Decimal.{IsDigit, decimal-IsDigit, decimal-length, atoi-format_int}
use kalisko.Base.Int.{ℤ, pos, negsuc}
use kalisko.Store.Lexer.{
  LexerState, CharType, start, reading_number_int, reading_number_float, consume, pushback_return,
  digit, lex_step, char_type, TokenKind,
}
use kalisko.Store.Lexer.Yylex.{Token, Location, advance, step_back, lexed, run, yylex, token_value}
use kalisko.Store.Lexer.Rounds.{Step, run_consume, run_pushback_return}
use kalisko.Store.Lexer.Quoted.{track}
use kalisko.Store.Lexer.Simple.{EndsSimple}
use kalisko.Store.Lexer.Reads.{Reads}

-- A state in which a number is read, and the token that it gives.
abbrev Numbers : LexerState → TokenKind → Type 0
Numbers reading_number_int TokenKind.integer = Unit
Numbers reading_number_float TokenKind.float_number = Unit
Numbers _ _ = ⊥

digit-Step :
    (s : LexerState) (k : TokenKind) (c : ℕ)
    → Numbers s k
    → char_type c ≡ digit
    → Step s c TokenKind.eof consume s TokenKind.eof
unfolding lex_step
digit-Step s k c n h = record {
  action = ground (arith, h);
  state = ground (arith, h);
  token = ground (arith, h);
}

lex_step_number_end :
    (s : LexerState) (k : TokenKind) (type : CharType) (c : ℕ)
    → Numbers s k
    → EndsSimple type
    → lex_step s type c TokenKind.eof ≡ record { action = pushback_return; state = s; token = k }
unfolding lex_step
lex_step_number_end s k type c n h = ground arith

number_end :
    (s : LexerState) (k : TokenKind) (d : ℕ)
    → Numbers s k
    → EndsSimple (char_type d)
    → Step s d TokenKind.eof pushback_return s k
number_end s k d n e =
    let st = lex_step_number_end s k (char_type d) d n e in
    record { action = rw st; state = rw st; token = rw st }

digit_type : (c : ℕ) → IsDigit c → char_type c ≡ digit
unfolding char_type
digit_type c h = ground arith

digit_types : (w : Bytes) → All IsDigit w → All (λ c. char_type c ≡ digit) w
digit_types [] h = tt
digit_types (c ∷ w) h = (digit_type c h.0, digit_types w h.1)

format_int_digits : (i : ℤ) → All (λ c. char_type c ≡ digit) (format_int i)
unfolding format_int char_type
format_int_digits (pos n) = digit_types (decimal n) (decimal-IsDigit n)
format_int_digits (negsuc n) = (refl, digit_types (decimal (suc n)) (decimal-IsDigit (suc n)))

format_int-length : (i : ℤ) → 0 < length (format_int i)
unfolding format_int
format_int-length (pos n) = decimal-length n
format_int-length (negsuc n) = omega arith

decimal_point :
    Step reading_number_int b'.' TokenKind.eof consume reading_number_float TokenKind.eof
unfolding lex_step char_type
decimal_point = record { action = refl; state = refl; token = refl }

module _ {F : Type 0} (atof : Bytes → F) where
  run_digits :
      (s : LexerState) (k : TokenKind) (x a : Bytes) (loc : Location) (r : Bytes)
      → Numbers s k
      → All (λ c. char_type c ≡ digit) x
      → run atof (record { state = s; assemble = a; token = TokenKind.eof }) loc (x ++ r)
        ≡ run atof (record { state = s; assemble = a ++ x; token = TokenKind.eof }) (track x loc) r
  unfolding track
  run_digits s k [] a loc r n h = rw append-nil
  run_digits s k (c ∷ x) a loc r n h =
      run_consume atof _ _ _ _ a loc c (x ++ r) (digit-Step s k c n h.0)
      ∙ rw (← append_assoc a (c ∷ []) x) (run_digits s k x (a ++ c ∷ []) (advance c loc) r n h.1)

  -- The rest of a number, behind its first characters.
  run_number :
      (s : LexerState) (k : TokenKind) (x a : Bytes) (d : ℕ) (loc : Location) (r : Bytes)
      → Numbers s k
      → All (λ c. char_type c ≡ digit) x
      → EndsSimple (char_type d)
      → (l : Location) × (run atof
            (record { state = s; assemble = a; token = TokenKind.eof })
            loc
            (x ++ d ∷ r)
          ≡ lexed (token_value atof k (a ++ x)) l (d ∷ r))
  run_number s k x a d loc r n h e = (
    step_back (advance d (track x loc)),
    run_digits s k x a loc (d ∷ r) n h
        ∙ run_pushback_return atof s s TokenKind.eof k (a ++ x) (track x loc) d r
            (number_end s k d n e),
  )

  start_digit :
      (c : ℕ)
      → char_type c ≡ digit
      → Step start c TokenKind.eof consume reading_number_int TokenKind.eof
  unfolding lex_step
  start_digit c h = record { action = rw h; state = rw h; token = rw h }

  -- Digits and signs are read as an integer.
  Reads-int :
      (w : Bytes) (d : ℕ) (r : Bytes)
      → All (λ c. char_type c ≡ digit) w
      → 0 < length w
      → EndsSimple (char_type d)
      → Reads atof (w ++ d ∷ r) (Token.integer (atoi w)) (d ∷ r)
  unfolding yylex
  Reads-int [] d r h n e loc = absurd (omega (arith, n))
  Reads-int (c ∷ w) d r h n e loc =
      let (l, q) =
        run_number reading_number_int TokenKind.integer w (c ∷ []) d (advance c loc) r tt h.1 e in
      (l, run_consume atof _ _ _ _ [] loc c (w ++ d ∷ r) (start_digit c h.0) ∙ q)

  Reads-float_rest :
      (a w : Bytes) (d : ℕ) (r : Bytes) (loc : Location) (b : Bytes)
      → All (λ c. char_type c ≡ digit) a
      → All (λ c. char_type c ≡ digit) w
      → EndsSimple (char_type d)
      → (l : Location) × (run atof
            (record { state = reading_number_int; assemble = b; token = TokenKind.eof })
            loc
            (a ++ b'.' ∷ (w ++ d ∷ r))
          ≡ lexed (Token.float_number (atof (b ++ (a ++ b'.' ∷ w)))) l (d ∷ r))
  Reads-float_rest a w d r loc b h k e =
      let p = track a loc in
      let (l, q) =
        run_number reading_number_float TokenKind.float_number w ((b ++ a) ++ b'.' ∷ []) d
          (advance b'.' p) r tt k e in
      (
        l,
        run_digits reading_number_int TokenKind.integer a b loc (b'.' ∷ (w ++ d ∷ r)) tt h
            ∙ run_consume atof _ _ _ _ (b ++ a) p b'.' (w ++ d ∷ r) decimal_point
            ∙ q
            ∙ ap (λ x. lexed (Token.float_number (atof x)) l (d ∷ r))
                (append_assoc (b ++ a) (b'.' ∷ []) w ∙ append_assoc b a (b'.' ∷ w)),
      )

  -- Digits, a decimal mark and digits are read as a floating point number.
  pub Reads-float :
      (a w : Bytes) (d : ℕ) (r : Bytes)
      → All (λ c. char_type c ≡ digit) a
      → 0 < length a
      → All (λ c. char_type c ≡ digit) w
      → EndsSimple (char_type d)
      → Reads atof (a ++ b'.' ∷ (w ++ d ∷ r)) (Token.float_number (atof (a ++ b'.' ∷ w))) (d ∷ r)
  unfolding yylex
  Reads-float [] w d r h n k e loc = absurd (omega (arith, n))
  Reads-float (c ∷ a) w d r h n k e loc =
      let (l, q) = Reads-float_rest a w d r (advance c loc) (c ∷ []) h.1 k e in
      (l, run_consume atof _ _ _ _ [] loc c (a ++ b'.' ∷ (w ++ d ∷ r)) (start_digit c h.0) ∙ q)

  -- An integer that %d wrote.
  pub Reads-format_int :
      (i : ℤ) (d : ℕ) (r : Bytes)
      → EndsSimple (char_type d)
      → Reads atof (format_int i ++ d ∷ r) (Token.integer i) (d ∷ r)
  Reads-format_int i d r e = λ loc.
      let (l, q) = Reads-int (format_int i) d r (format_int_digits i) (format_int-length i) e loc in
      (l, q ∙ ap (λ j. lexed (Token.integer j) l (d ∷ r)) (atoi-format_int i))
